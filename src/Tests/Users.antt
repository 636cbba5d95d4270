-- ===== src/Tests/Users.antt =====
-- System calls, faults and strings of user mode.
use glass_os.Prelude.{
  ℕ, ◌+◌, ◌-◌, ◌<◌, ◌≤◌, ◌≡◌, ◌⊎◌, refl, some, none, [], ◌∷◌, length, text, ◌==◌, min,
  if◌then◌else◌,
}
use glass_os.Text.{Text}
use glass_os.Kernel.{Kernel, UserProcess}
use glass_os.Memory.{page_size}
use glass_os.User.{copy_user_string, scan_user, user_code_va}
use glass_os.User.Strings.{Holds, NoNul, copy_user_string_lem}
use glass_os.User.Syscall.{dispatch_syscall, user_syscall_trap, user_handle_fault}
use glass_os.User.Rights.{permitted, dispatch_syscall-permitted}
use glass_os.User.Trap.{Confined, Handled, user_syscall_trap-Confined, user_handle_fault_lem}
use glass_os.Tests.Sample.{kernel}

abbrev hello : UserProcess
hello = record {
  pid = 7;
  thread_id = 8;
  cr3 = 0x300000;
  code_page = 0x310000;
  stack_page = 0x311000;
  peer_probe_address = 0;
  process_name = text "process/hello";
  thread_name = text "shell";
  address_space_name = text "address-space/hello";
  image_path = text "/bin/hello";
  peer_process_name = [];
}

-- The sample kernel with one process, which is active.
abbrev running : Kernel
running = record kernel {
  users = record kernel.users { processes = hello ∷ []; active_user_process = some 0 };
}

user_syscall_trap-Confined_example :
    Confined [] 2 0x1B 0 running refl (some 0) (user_syscall_trap [] 2 0x1B 0 running).1
user_syscall_trap-Confined_example = user_syscall_trap-Confined [] 2 0x1B 0 running refl

user_handle_fault_lem_example :
    Handled 14 4 0x400010 0x1B running (some 0) (user_handle_fault 14 4 0x400010 0x1B running)
user_handle_fault_lem_example = user_handle_fault_lem 14 4 0x400010 0x1B running

dispatch_syscall-permitted_example :
    (dispatch_syscall [] hello 1 (text "system") running).0
    ≡ permitted [] hello running refl 1 (text "system")
dispatch_syscall-permitted_example =
    dispatch_syscall-permitted [] hello running refl 1 (text "system")

-- The two letters `hi` at the start of the code page, and a NUL.
abbrev code : ℕ → ℕ
code address =
    if address == user_code_va then b'h' else if address == user_code_va + 1 then b'i' else 0

copied : copy_user_string code user_code_va 16 ≡ some (text "hi")
unfolding copy_user_string scan_user text
copied = refl

cut_off : copy_user_string code user_code_va 2 ≡ none
unfolding copy_user_string scan_user
cut_off = refl

abbrev capacity : ℕ
capacity = 16

copy_user_string_lem_example :
    ((s : Text) × (copy_user_string code user_code_va capacity ≡ some s)
      × Holds code user_code_va s
      × (length s < capacity)
      × (user_code_va ≤ user_code_va)
      × (user_code_va + length s < user_code_va + page_size))
    ⊎ ((copy_user_string code user_code_va capacity ≡ none)
        × ((capacity ≡ 0)
            ⊎ ((user_code_va < user_code_va)
                ⊎ ((user_code_va + page_size ≤ user_code_va)
                    ⊎ NoNul code user_code_va
                        (min (capacity - 1) (user_code_va + page_size - user_code_va))))))
copy_user_string_lem_example = copy_user_string_lem code user_code_va capacity
