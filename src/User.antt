-- ===== src/User.antt =====
-- User processes (kernel/user.c): their table, loading a program, and strings from user memory. A
-- pointer to an entry of `processes` is its index.
pub mod Syscall
pub mod Demo
pub mod Strings
pub mod Serve
pub mod Trap
pub mod Rights
use glass_os.Prelude.{
  ℕ, zero, suc, ◌+◌, ◌-◌, ◌*◌, ◌/◌, ◌%◌, ◌^◌, Bool, true, false, not, ◌&&◌, ◌||◌, Option, none,
  some, List, [], ◌∷◌, ◌++◌, length, set, get_or, for_range, text, ltb, leb, ◌==◌, if◌then◌else◌,
}
use mathlib.Core.Option
use glass_os.Text.{Text, append_text, append_decimal32}
use glass_os.Kernel.{
  Kernel, UserProcess, Users, event_ok, event_denied, M, ◌>>=◌, ◌>>◌, pure, gets, modify,
}
use glass_os.Console.{str, num, printf}
use glass_os.Object.{object_id, object_register}
use glass_os.Event.{event_record_kind, event_current, event_set_current}
use glass_os.Policy.{policy_check}
use glass_os.Memory.{page_alloc, page_size}
use glass_os.Ramfs.{
  RamfsFile, RamfsFileType, ramfs_file_text, ramfs_file_module, ramfs_file_executable, size,
  ramfs_lookup, ramfs_read,
}
use glass_os.Paging.Words.{write64}
use glass_os.Paging.Walk.{walk}
use glass_os.Paging.{fill_page, set_physical, memory_create_address_space, memory_map_process_page}

abbrev pub user_process_capacity : ℕ
user_process_capacity = 4

abbrev pub user_name_size : ℕ
user_name_size = 48

abbrev pub user_code_va : ℕ
user_code_va = 0x400000

abbrev pub user_stack_top : ℕ
user_stack_top = 0x800000

abbrev pub user_peer_probe_va : ℕ
user_peer_probe_va = 0x600000

unfoldable pub build_name : ℕ → Text → ℕ → Text
build_name capacity prefix id = append_decimal32 capacity (append_text capacity [] prefix) id

unfoldable pub copy_text : ℕ → Text → Text
copy_text capacity source = append_text capacity [] source

abbrev pub process_count : Kernel → ℕ
process_count k = length k.users.processes

abbrev pub blank_process : UserProcess
blank_process = record {
  pid = 0;
  thread_id = 0;
  cr3 = 0;
  code_page = 0;
  stack_page = 0;
  peer_probe_address = 0;
  process_name = [];
  thread_name = [];
  address_space_name = [];
  image_path = [];
  peer_process_name = [];
}

-- `processes[index]`
unfoldable pub process_at : ℕ → Kernel → UserProcess
process_at index k = get_or k.users.processes index blank_process

-- A write through the pointer to an entry.
unfoldable pub update_process : ℕ → (UserProcess → UserProcess) → Kernel → Kernel
unfolding process_at
update_process index f k = record k {
  users = record k.users { processes = set k.users.processes index (f (process_at index k)) };
}

-- object_register with the event that is current.
abbrev pub register : Text → Text → ℕ → Text → M ℕ
register type name parent state k =
    let (id, r) = object_register type name parent state (event_current k) k.registry in
    (id, record k { registry = r })

-- event_record_kind with the event that is current for a parent.
abbrev pub note_state : Text → Text → Text → Text → M ℕ
note_state actor target operation policy k =
    event_record_kind actor target operation event_ok (event_current k) policy (text "state") k

unfoldable pub user_init : M (Unit {0})
user_init = do
  modify (λ k. record k { users = record k.users { processes = []; scheduler_index = 0 } })
  system ← gets (λ k. object_id (text "system") k.registry)
  register (text "scheduler") (text "scheduler") system (text "cooperative")
  scheduler ← gets (λ k. object_id (text "scheduler") k.registry)
  register (text "user_transition") (text "user_transition") scheduler (text "scaffold-ready")
  note_state (text "scheduler") (text "scheduler") (text "initialize") (text "allow:boot-user")
  pure tt

unfoldable pub new_process : ℕ → UserProcess
new_process id = record blank_process {
  pid = id;
  thread_id = id;
  process_name = build_name user_name_size (text "process/") id;
  thread_name = build_name user_name_size (text "thread/") id;
  address_space_name = build_name user_name_size (text "address_space/") id;
}

-- What create_process does with the entry `index`, which it has just filled in. Without an address
-- space it returns the null pointer, and the entry stays.
unfoldable pub start_process : ℕ → UserProcess → M (Option ℕ)
start_process index p = do
  scheduler ← gets (λ k. object_id (text "scheduler") k.registry)
  process_object ← register (text "process") p.process_name scheduler (text "created")
  register (text "thread") p.thread_name process_object (text "runnable")
  register (text "address_space") p.address_space_name process_object (text "created")
  note_state (text "scheduler") p.process_name (text "process_create") (text "allow:user-process")
  note_state (text "scheduler") p.thread_name (text "thread_create") (text "allow:user-thread")
  cr3 ← memory_create_address_space p.address_space_name
  modify (update_process index (λ x. record x { cr3 = cr3 }))
  if cr3 == 0
      then (do
        parent ← gets event_current
        event_record_kind (text "scheduler") p.address_space_name (text "address_space_create")
            event_denied parent (text "deny:address-space") (text "state")
        pure none)
      else (do
        note_state (text "scheduler") p.address_space_name (text "address_space_create")
            (text "allow:user-address-space")
        printf (text "Created %s with %s\n") (str p.process_name ∷ str p.thread_name ∷ [])
        pure (some index))

unfoldable pub create_process : M (Option ℕ)
create_process k =
    if leb user_process_capacity (process_count k)
    then (do
      event_record_kind (text "scheduler") (text "scheduler") (text "process_create") event_denied
          (event_current k) (text "deny:process-table-full") (text "state")
      pure none)
        k
    else let index = process_count k in
      let p = new_process (index + 1) in
      start_process index p
        (record k { users = record k.users { processes = k.users.processes ++ p ∷ [] } })

unfoldable pub transition_scaffold : UserProcess → M (Unit {0})
transition_scaffold p = do
  note_state (text "scheduler") p.thread_name (text "user_transition_scaffold")
      (text "allow:user-transition")
  printf (text "User transition scaffold ready for %s\n") (str p.thread_name ∷ [])

-- The bytes of a buffer in memory, read as a list and written back.
unfoldable pub load_bytes : ℕ → ℕ → (ℕ → ℕ) → List ℕ
load_bytes zero address p = []
load_bytes (suc n) address p = p address ∷ load_bytes n (address + 1) p

unfoldable pub store_bytes : ℕ → List ℕ → (ℕ → ℕ) → ℕ → ℕ
store_bytes address bytes p i =
    if leb address i && ltb i (address + length bytes) then get_or bytes (i - address) 0 else p i

-- ramfs_read into memory.
unfoldable pub read_into : RamfsFile → ℕ → (ℕ → ℕ) → ℕ → ℕ
read_into file address p =
    let (_, bytes) = ramfs_read file 0 (load_bytes (size file) address p) (size file) in
    store_bytes address bytes p

abbrev is_executable : RamfsFileType → Bool
is_executable ramfs_file_text = false
is_executable ramfs_file_module = false
is_executable ramfs_file_executable = true

-- Whether ramfs_lookup gave a program that fits a page.
unfoldable pub loadable : Option RamfsFile → Option RamfsFile
loadable none = none
loadable (some file) =
    if is_executable file.type && not (ltb page_size (size file)) then some file else none

-- load_executable once both pages are there. The second mapping is not tried where the first fails.
unfoldable pub map_image : ℕ → Text → RamfsFile → ℕ → Text → ℕ → ℕ → M Bool
map_image index path file event reason code_page stack_page = do
  set_physical (λ p. read_into file code_page (fill_page code_page 0x90 p))
  cr3 ← gets (λ k. (process_at index k).cr3)
  code ←
      memory_map_process_page cr3 user_code_va code_page true false true
        (text "allow:user-code-page")
  mapped ←
      if code
      then memory_map_process_page cr3 (user_stack_top - page_size) stack_page true true false
          (text "allow:user-stack-page")
      else pure false
  if mapped
      then (do
        modify (update_process index (λ x. record x { image_path = copy_text user_name_size path }))
        event_record_kind (text "ramfs") path (text "read") event_ok event reason (text "state")
        name ← gets (λ k. (process_at index k).process_name)
        event_record_kind (text "scheduler") name (text "load_executable") event_ok event
            (text "allow:user-image") (text "state")
        printf (text "Loaded %s into %s at va=%x\n") (str path ∷ str name ∷ num user_code_va ∷ [])
        pure true)
      else pure false

-- load_executable with the file found.
unfoldable pub load_file : ℕ → Text → RamfsFile → ℕ → Text → M Bool
load_file index path file event reason = do
  code_page ← page_alloc
  modify (update_process index (λ x. record x { code_page = code_page }))
  stack_page ← page_alloc
  modify (update_process index (λ x. record x { stack_page = stack_page }))
  if code_page == 0 || stack_page == 0
      then (do
        name ← gets (λ k. (process_at index k).process_name)
        event_record_kind (text "scheduler") name (text "load_executable") event_denied event
            (text "deny:user-pages") (text "state")
        pure false)
      else map_image index path file event reason code_page stack_page

unfoldable pub load_executable : Text → ℕ → Text → M Bool
load_executable source index path k =
    let (policy, k1) = policy_check source (text "shell") path (text "process:load") k in
    if not policy.allowed
    then (do printf (text "Denied: %s\n") (str policy.reason ∷ []); pure false) k1
    else let command_event = event_current k1 in
      let (_, k2) = event_set_current policy.event k1 in
      let (found, k3) = ramfs_lookup path k2 in
      let (_, k4) = event_set_current command_event k3 in
      elim (loadable found) [
        | none ↦
            (do
              event_record_kind (text "ramfs") path (text "load") event_denied policy.event
                  (text "deny:not-executable") (text "policy")
              printf (text "Executable not found: %s\n") (str path ∷ [])
              pure false)
              k4
        | some file ↦ load_file index path file policy.event policy.reason k4
      ]

-- The loop of map_private_probe_page: 512 words with the owner's pid.
unfoldable pub fill_words : ℕ → ℕ → (ℕ → ℕ) → ℕ → ℕ
fill_words address pid p =
    for_range 512 0 (λ i q. write64 (address + 8 * i) (0xBEEFBEEF00000000 + pid) q) p

unfoldable pub map_private_probe_page : ℕ → M Bool
map_private_probe_page index k =
    let (private_page, k1) = page_alloc k in
    if private_page == 0
    then (false, k1)
    else let owner = process_at index k1 in
      let (_, k2) = set_physical (fill_words private_page owner.pid) k1 in
      let (mapped, k3) =
        memory_map_process_page owner.cr3 user_peer_probe_va private_page true true false
          (text "allow:user-private-page") k2 in
      if mapped
      then (do
        note_state (text "scheduler") owner.process_name (text "map_private_page")
            (text "allow:user-private-page")
        pure true)
          k3
      else (false, k3)

-- A byte at a virtual address, by the CPU's translation. Reading an address that is not mapped is a
-- fault in the machine, and 0 here.
unfoldable pub user_byte : (ℕ → ℕ) → ℕ → ℕ → ℕ
user_byte p cr3 address = elim (walk p cr3 address) [ none ↦ 0 | some t ↦ p t.address ]

-- The loop of copy_user_string with `rounds` bytes of room from `address` on. No text means that
-- the function returns 0, and its callers use nothing of the buffer then.
unfoldable pub scan_user : (ℕ → ℕ) → ℕ → ℕ → Option Text
scan_user byte zero address = none
scan_user byte (suc rounds) address =
    let rest = scan_user byte rounds (address + 1) in
    if ltb address (user_code_va + page_size)
    then (if byte address == 0 then some [] else Option.map (λ cs. byte address ∷ cs) rest)
    else none

unfoldable pub copy_user_string : (ℕ → ℕ) → ℕ → ℕ → Option Text
copy_user_string byte user_address capacity =
    if capacity == 0 || ltb user_address user_code_va || leb (user_code_va + page_size) user_address
    then none
    else scan_user byte (capacity - 1) user_address
