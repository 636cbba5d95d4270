-- ===== src/User/Demo.antt =====
-- user_run_demo of kernel/user.c. Entering ring 3 (`user_enter_ring3`, in assembly) is an argument: it
-- comes back once the program has ended, with what its system calls and faults did.
use glass_os.Prelude.{ℕ, Bool, false, none, some, [], ◌∷◌, text, if◌then◌else◌}
use glass_os.Text.{Text}
use glass_os.Kernel.{M, ◌>>◌, pure}
use glass_os.Console.{str, printf}
use glass_os.Paging.{memory_kernel_address_space, memory_switch_address_space}
use glass_os.User.{
  user_code_va, user_stack_top, user_peer_probe_va, user_name_size, copy_text, process_at,
  update_process, note_state, create_process, transition_scaffold, load_executable,
  map_private_probe_page,
}

-- The end of user_run_demo, with both processes ready.
unfoldable pub enter_process : (ℕ → ℕ → M (Unit {0})) → ℕ → M Bool
enter_process enter index k =
    let k1 = record k {
      users = record k.users { active_user_process = some index; user_fault_contained = false };
    } in
    let process = process_at index k1 in
    let (_, k2) =
      note_state (text "scheduler") process.thread_name (text "enter_cpl3")
        (text "allow:user-enter") k1 in
    let (_, k3) =
      memory_switch_address_space process.cr3 (text "scheduler") process.address_space_name
        (text "allow:process-cr3") k2 in
    let (_, k4) = enter user_code_va user_stack_top k3 in
    let (_, k5) =
      memory_switch_address_space memory_kernel_address_space (text "scheduler") (text "kernel")
        (text "allow:kernel-cr3") k4 in
    let k6 = record k5 { users = record k5.users { active_user_process = none } } in
    let contained = k6.users.user_fault_contained in
    let (_, k7) =
      printf
        (text
          "User demo complete: cpl3=yes syscall_return=yes fault_contained=%s image=/bin/hello address_space=yes\n")
        (str (if contained then text "yes" else text "no") ∷ []) k6 in
    (contained, k7)

-- The probe page is mapped only where the program was loaded.
unfoldable pub prepare : Text → ℕ → ℕ → M Bool
prepare source process peer k =
    let (loaded, k1) = load_executable source process (text "/bin/hello") k in
    if loaded then map_private_probe_page peer k1 else (false, k1)

-- The steps of user_run_demo with both processes there.
unfoldable pub run_processes : Text → (ℕ → ℕ → M (Unit {0})) → ℕ → ℕ → M Bool
run_processes source enter process peer k =
    let (_, k1) = transition_scaffold (process_at process k) k in
    let (ready, k2) = prepare source process peer k1 in
    if ready
    then (let peer_name = (process_at peer k2).process_name in
        enter_process enter process (
          update_process process
            (λ x. record x {
              peer_probe_address = user_peer_probe_va;
              peer_process_name = copy_text user_name_size peer_name;
            })
            k2))
    else (do printf (text "User demo failed: process load\n") []; pure false) k2

unfoldable pub user_run_demo : Text → (ℕ → ℕ → M (Unit {0})) → M Bool
user_run_demo source enter k =
    let (first, k1) = create_process k in
    elim first [
      | none ↦ (false, k1)
      | some process ↦
          let (second, k2) = create_process k1 in
          elim second [
            | none ↦ (false, k2)
            | some peer ↦ run_processes source enter process peer k2
          ]
    ]
