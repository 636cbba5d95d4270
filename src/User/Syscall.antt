-- ===== src/User/Syscall.antt =====
-- The system calls and the fault handler of kernel/user.c.
use glass_os.Prelude.{
  ℕ, ◌+◌, ◌%◌, Bool, true, false, not, ◌&&◌, ◌||◌, Option, none, some, [], ◌∷◌, length, text, ◌==◌,
  if◌then◌else◌,
}
use glass_os.Text.{Text}
use glass_os.Kernel.{Kernel, UserProcess, Users, event_ok, event_denied, event_fault, M}
use glass_os.Console.{str, num, printf}
use glass_os.Event.{
  event_record_kind, event_current, event_set_current, event_set_transaction, transaction_begin,
  transaction_commit, transaction_abort,
}
use glass_os.Policy.{PolicyDecision, policy_check}
use glass_os.Config.{config_get}
use glass_os.Report.Objects.{object_inspect}
use glass_os.Paging.{memory_kernel_address_space, memory_switch_address_space}
use glass_os.User.{user_name_size, copy_text, process_at, user_byte, copy_user_string}

unfoldable pub syscall_begin : UserProcess → Text → M ℕ
syscall_begin process target k =
    let parent = event_current k in
    let (transaction, k1) = transaction_begin process.thread_name target parent k in
    let (_, k2) = event_set_transaction transaction k1 in
    let (_, k3) = event_set_current (if transaction == 0 then parent else transaction) k2 in
    (transaction, k3)

unfoldable pub syscall_finish : ℕ → Bool → M (Unit {0})
syscall_finish transaction ok k =
    let (_, k1) =
      if transaction == 0
      then (0, k)
      else if ok
      then transaction_commit transaction k
      else transaction_abort transaction (text "deny:syscall") k in
    event_set_transaction 0 k1

-- The branch of a refusal, which the four calls share.
unfoldable pub refuse_syscall : ℕ → Text → M Bool
refuse_syscall transaction reason k =
    let (_, k1) = printf (text "User syscall denied: %s\n") (str reason ∷ []) k in
    let (_, k2) = syscall_finish transaction false k1 in (false, k2)

unfoldable pub user_syscall_inspect : Text → UserProcess → Text → M Bool
user_syscall_inspect source process target k =
    let (transaction, k1) = syscall_begin process target k in
    let (policy, k2) = policy_check source process.thread_name target (text "syscall:inspect") k1 in
    if not policy.allowed
    then refuse_syscall transaction policy.reason k2
    else let (_, k3) =
        event_record_kind process.thread_name target (text "inspect") event_ok policy.event
          policy.reason (text "syscall") k2 in
      let (_, k4) = object_inspect source target k3 in
      let (_, k5) = syscall_finish transaction true k4 in (true, k5)

-- `process_count == 0 ? 0 : (scheduler_index + 1) % process_count`
unfoldable pub next_index : Users → ℕ
next_index u = if length u.processes == 0 then 0 else (u.scheduler_index + 1) % length u.processes

abbrev pub schedule : Kernel → Kernel
schedule k = record k { users = record k.users { scheduler_index = next_index k.users } }

unfoldable pub user_syscall_yield : Text → UserProcess → M Bool
user_syscall_yield source process k =
    let name = process.thread_name in
    let (transaction, k1) = syscall_begin process name k in
    let (policy, k2) = policy_check source name name (text "syscall:yield") k1 in
    if not policy.allowed
    then refuse_syscall transaction policy.reason k2
    else let (_, k3) =
        event_record_kind name (text "scheduler") (text "yield") event_ok policy.event policy.reason
          (text "syscall") (schedule k2) in
      let (_, k4) =
        event_record_kind (text "scheduler") name (text "schedule") event_ok policy.event
          policy.reason (text "state") k3 in
      let (_, k5) = printf (text "%s yielded cooperatively\n") (str name ∷ []) k4 in
      let (_, k6) = syscall_finish transaction true k5 in (true, k6)

-- What is left of user_syscall_config_get behind the policy.
unfoldable pub answer_config : ℕ → UserProcess → Text → PolicyDecision → Option Text → M Bool
answer_config transaction process key policy none k =
    let (_, k1) =
      event_record_kind process.thread_name key (text "config_get") event_denied policy.event
        (text "deny:unknown-config-key") (text "syscall") k in
    let (_, k2) = syscall_finish transaction false k1 in (false, k2)
answer_config transaction process key policy (some value) k =
    let (_, k1) =
      event_record_kind process.thread_name key (text "config_get") event_ok policy.event
        policy.reason (text "syscall") k in
    let (_, k2) = printf (text "user syscall config_get %s=%s\n") (str key ∷ str value ∷ []) k1 in
    let (_, k3) = syscall_finish transaction true k2 in (true, k3)

unfoldable pub user_syscall_config_get : Text → UserProcess → Text → M Bool
user_syscall_config_get source process key k =
    let (transaction, k1) = syscall_begin process key k in
    let (policy, k2) = policy_check source process.thread_name key (text "syscall:config_get") k1 in
    if not policy.allowed
    then refuse_syscall transaction policy.reason k2
    else answer_config transaction process key policy (config_get key k2.config) k2

unfoldable pub user_syscall_config_set_denied : Text → UserProcess → Text → M Bool
user_syscall_config_set_denied source process key k =
    let (transaction, k1) = syscall_begin process key k in
    let (policy, k2) = policy_check source process.thread_name key (text "syscall:config_set") k1 in
    if not policy.allowed
    then refuse_syscall transaction policy.reason k2
    else let (_, k3) =
        event_record_kind process.thread_name key (text "config_set") event_ok policy.event
          policy.reason (text "syscall") k2 in
      let (_, k4) = syscall_finish transaction true k3 in (true, k4)

-- A number of no system call.
unfoldable pub unknown_syscall : UserProcess → M Bool
unknown_syscall process k =
    let (transaction, k1) = syscall_begin process (text "kernel") k in
    let (_, k2) =
      event_record_kind process.thread_name (text "kernel") (text "unknown_syscall") event_denied
        (event_current k1) (text "deny:unknown-syscall") (text "syscall") k1 in
    let (_, k3) = syscall_finish transaction false k2 in (false, k3)

-- The target of the calls that take a string.
unfoldable pub syscall_target : ℕ → (ℕ → ℕ) → ℕ → Text
syscall_target number byte argument =
    if number == 1 || number == 3 || number == 4
    then elim (copy_user_string byte argument user_name_size) [
      | none ↦ copy_text user_name_size (text "kernel")
      | some s ↦ s
    ]
    else copy_text user_name_size (text "kernel")

unfoldable pub dispatch_syscall : Text → UserProcess → ℕ → Text → M Bool
dispatch_syscall source process number target k =
    if number == 1
    then user_syscall_inspect source process target k
    else if number == 2
    then user_syscall_yield source process k
    else if number == 3
    then user_syscall_config_get source process target k
    else if number == 4
    then user_syscall_config_set_denied source process target k
    else unknown_syscall process k

abbrev pub from_user : ℕ → Bool
from_user cs = cs % 4 == 3

-- user_syscall_trap for the process that is active.
unfoldable pub serve_syscall : Text → UserProcess → ℕ → ℕ → ℕ → M (Unit {0})
serve_syscall source process number user_cs argument k =
    let (_, k1) =
      event_record_kind process.thread_name (text "kernel") (text "cpl3_trap")
        (if from_user user_cs then event_ok else event_denied) (event_current k)
        (if from_user user_cs then text "allow:cpl3" else text "deny:not-cpl3") (text "syscall")
        k in
    let target = syscall_target number (user_byte k1.paging.physical k1.paging.cr3) argument in
    let (_, k2) =
      memory_switch_address_space memory_kernel_address_space process.thread_name (text "kernel")
        (text "allow:syscall-kernel-cr3") k1 in
    let (_, k3) = dispatch_syscall source process number target k2 in
    memory_switch_address_space process.cr3 process.thread_name process.address_space_name
      (text "allow:syscall-user-cr3") k3

-- The two branches of user_syscall_trap: the null pointer, and an entry.
unfoldable pub trap_from : Text → Option ℕ → ℕ → ℕ → ℕ → M (Unit {0})
trap_from source none number user_cs argument k =
    let (_, k1) =
      event_record_kind (text "cpu") (text "syscall") (text "trap") event_denied (event_current k)
        (text "deny:no-active-user") (text "syscall") k in
    (tt, k1)
trap_from source (some index) number user_cs argument k =
    serve_syscall source (process_at index k) number user_cs argument k

unfoldable pub user_syscall_trap : Text → ℕ → ℕ → ℕ → M (Unit {0})
user_syscall_trap source number user_cs argument k =
    trap_from source k.users.active_user_process number user_cs argument k

-- Whether the fault hit the page of the other process.
unfoldable pub is_probe : ℕ → UserProcess → Bool
is_probe address process =
    address == process.peer_probe_address && not (length process.peer_process_name == 0)

-- user_handle_fault for the process that is active, once the fault is its own.
unfoldable pub contain_fault : UserProcess → ℕ → ℕ → M Bool
contain_fault process rip error_code k =
    let fault_address = k.paging.cr2 in
    let (_, k1) =
      memory_switch_address_space memory_kernel_address_space process.thread_name (text "kernel")
        (text "allow:fault-kernel-cr3") k in
    let k2 = record k1 { users = record k1.users { user_fault_contained = true } } in
    let probe = is_probe fault_address process in
    let policy =
      if probe then text "deny:address-space-isolation" else text "deny:user-page-fault" in
    let (_, k3) =
      event_record_kind process.thread_name
        (if probe then process.peer_process_name else text "kernel")
        (if probe then text "isolation_fault" else text "page_fault") event_fault (event_current k2)
        policy (text "fault") k2 in
    let (_, k4) =
      printf (text "User page fault contained: rip=%x address=%x error=%x policy=%s\n")
        (num rip ∷ num fault_address ∷ num error_code ∷ str policy ∷ []) k3 in
    (true, k4)

-- The null pointer, and an entry: a fault is its own where it is a page fault in ring 3.
unfoldable pub fault_from : Option ℕ → ℕ → ℕ → ℕ → ℕ → M Bool
fault_from none vector error_code rip cs k = (false, k)
fault_from (some index) vector error_code rip cs k =
    if vector == 14 && from_user cs
    then contain_fault (process_at index k) rip error_code k
    else (false, k)

unfoldable pub user_handle_fault : ℕ → ℕ → ℕ → ℕ → M Bool
user_handle_fault vector error_code rip cs k =
    fault_from k.users.active_user_process vector error_code rip cs k
