-- ===== src/Shell/Commands.antt =====
-- The commands of the shell (kernel/main.c).
use glass_os.Prelude.{
  ℕ, ◌+◌, ◌*◌, ◌/◌, ◌-◌, ◌%◌, ◌^◌, Bool, true, false, not, Option, none, some, List, [], ◌∷◌, text,
  if◌then◌else◌,
}
use glass_os.Text.{Text, text_equal}
use glass_os.Kernel.{Memory, event_ok, event_denied, M, ◌>>◌}
use glass_os.Console.{str, num, printf}
use glass_os.Object.{object_revision}
use glass_os.Event.{event_record_kind, event_current, event_set_current}
use glass_os.Policy.{PolicyDecision, policy_check, policy_change_rule}
use glass_os.Memory.{heap_capacity, heap_remaining, page_allocator_free_pages, map_limit}
use glass_os.Config.{config_get, config_set}
use glass_os.Ramfs.{
  RamfsFile, RamfsFileType, ramfs_file_text, ramfs_file_module, ramfs_file_executable, files,
}
use glass_os.Report.Policies.{policy_show}
use glass_os.Shell.{split_command}

abbrev pub shell : Text
shell = text "shell"

-- `printf("Denied: %s\n", policy.reason)`
unfoldable pub print_denied : PolicyDecision → M (Unit {0})
print_denied policy = printf (text "Denied: %s\n") (str policy.reason ∷ [])

abbrev pub memory_map_entry_count : Memory → ℕ
memory_map_entry_count m = m.detected_entry_count

abbrev pub memory_total_usable : Memory → ℕ
memory_total_usable m = m.usable_memory_bytes

abbrev pub memory_mapped_limit : ℕ
memory_mapped_limit = map_limit

unfoldable pub show_meminfo : Text → M (Unit {0})
show_meminfo source k =
    let (policy, k1) = policy_check source shell (text "memory") (text "memory:inspect") k in
    if not policy.allowed
    then print_denied policy k1
    else let (_, k2) =
        event_record_kind (text "memory") (text "memory") (text "inspect") event_ok policy.event
          policy.reason (text "state") k1 in
      let m = k2.memory in
      (do
        printf (text "E820 entries: %d, usable: %x KiB\n")
            (num (memory_map_entry_count m) ∷ num (memory_total_usable m / 1024) ∷ [])
        printf (text "Mapped: %x MiB, pages free: %d\n")
            (num (memory_mapped_limit / (1024 * 1024)) ∷ num (page_allocator_free_pages m) ∷ [])
        printf (text "Heap: %x/%x bytes\n") (
            num ((heap_capacity m + 2 ^ 64 - heap_remaining m) % 2 ^ 64)
            ∷ num (heap_capacity m)
            ∷ []))
        k2

unfoldable pub show_time : M (Unit {0})
show_time k =
    printf (text "System active for: %d seconds (%x ticks)\n")
      (num (k.system_ticks / 100 % 2 ^ 32) ∷ num k.system_ticks ∷ []) k

abbrev label : RamfsFileType → Text
label ramfs_file_text = text "[file] "
label ramfs_file_module = text "[module] "
label ramfs_file_executable = text "[bin] "

-- The loop of list_files.
unfoldable pub print_files : List RamfsFile → M (Unit {0})
print_files [] k = (tt, k)
print_files (f ∷ fs) k =
    print_files fs (printf (text "%s%s\n") (str (label f.type) ∷ str f.path ∷ []) k).1

unfoldable pub list_files : Text → M (Unit {0})
list_files source k =
    let (policy, k1) = policy_check source shell (text "ramfs") (text "filesystem:list") k in
    if not policy.allowed
    then print_denied policy k1
    else let (_, k2) =
        event_record_kind (text "ramfs") (text "ramfs") (text "list") event_ok policy.event
          policy.reason (text "state") k1 in
      print_files files k2

-- What is left of show_config behind the policy.
unfoldable pub answer_key : Text → PolicyDecision → Option Text → M Bool
answer_key key policy none k =
    let (_, k1) =
      event_record_kind (text "config") key (text "get") event_denied policy.event
        (text "deny:unknown-config-key") (text "state") k in
    let (_, k2) = printf (text "Config key not found: %s\n") (str key ∷ []) k1 in (false, k2)
answer_key key policy (some value) k =
    let (_, k1) =
      event_record_kind (text "config") key (text "get") event_ok policy.event policy.reason
        (text "state") k in
    let (_, k2) = printf (text "%s=%s\n") (str key ∷ str value ∷ []) k1 in (true, k2)

-- A refusal of a command that reports it.
unfoldable pub denied : PolicyDecision → M Bool
denied policy k = let (_, k1) = print_denied policy k in (false, k1)

unfoldable pub show_config : Text → Text → M Bool
show_config source key k =
    let (policy, k1) = policy_check source shell key (text "config:get") k in
    if not policy.allowed
    then denied policy k1
    else answer_key key policy (config_get key k1.config) k1

-- set_config behind the policy: the key is set under the event of the decision.
unfoldable pub change_key : Text → Text → PolicyDecision → M Bool
change_key key value policy k =
    let before = object_revision key k.registry in
    let previous_event = event_current k in
    let (_, k1) = event_set_current policy.event k in
    let (done, k2) = config_set key value k1 in
    let (_, k3) = event_set_current previous_event k2 in
    if not done
    then (let (_, k4) = printf (text "Config key not found: %s\n") (str key ∷ []) k3 in (false, k4))
    else let after = object_revision key k3.registry in
      let (_, k4) =
        event_record_kind (text "config") key (text "set") event_ok policy.event policy.reason
          (text "state") k3 in
      let (_, k5) =
        printf (text "%s=%s revision %d->%d\n") (str key ∷ str value ∷ num before ∷ num after ∷ [])
          k4 in
      (true, k5)

-- A key and a value, if the argument has both.
unfoldable pub set_pair : Text → Text → Option Text → M Bool
set_pair source key none k =
    let (_, k1) = printf (text "Usage: set <key> <value>\n") [] k in (false, k1)
set_pair source key (some value) k =
    let (policy, k1) = policy_check source shell key (text "config:set") k in
    if not policy.allowed then denied policy k1 else change_key key value policy k1

unfoldable pub set_config : Text → Text → M Bool
set_config source argument = let (key, value) = split_command argument in set_pair source key value

-- `policy show`
unfoldable pub policy_show_command : Text → M Bool
policy_show_command source k =
    let name = text "policy/base.policy" in
    let (policy, k1) = policy_check source shell name (text "policy:show") k in
    if not policy.allowed
    then denied policy k1
    else let (_, k2) =
        event_record_kind shell name (text "policy_show") event_ok policy.event policy.reason
          (text "query") k1 in
      let (_, k3) = policy_show source k2 in (true, k3)

-- The four words of `policy allow` and `policy deny`, as far as they are there.
pub data Words : Type 0 where
  too_few : Words
  rule : Text → Text → Text → Words

unfoldable pub object_word : Text → Text → Option Text → Words
object_word subject operation none = Words.too_few
object_word subject operation (some object) = Words.rule subject operation object

unfoldable pub operation_word : Text → Option Text → Words
unfolding object_word
operation_word subject none = Words.too_few
operation_word subject (some rest) =
    let (operation, object) = split_command rest in object_word subject operation object

unfoldable pub rule_words : Option Text → Words
unfolding operation_word
rule_words none = Words.too_few
rule_words (some rest) =
    let (subject, operation) = split_command rest in operation_word subject operation

-- The change, under the event of the decision.
unfoldable pub change_policy : Text → Bool → Text → Text → Text → M Bool
change_policy source allow subject operation object k =
    let (policy, k1) =
      policy_check source shell (text "policy/base.policy") (text "policy:change") k in
    if not policy.allowed
    then denied policy k1
    else let previous_event = event_current k1 in
      let (_, k2) = event_set_current policy.event k1 in
      let (changed, k3) = policy_change_rule source allow subject operation object k2 in
      let (_, k4) = event_set_current previous_event k3 in (changed, k4)

unfoldable pub change_rule : Text → Bool → Text → Words → M Bool
change_rule source allow effect too_few k =
    let (_, k1) =
      printf (text "Usage: policy %s <subject> <operation> <object>\n") (str effect ∷ []) k in
    (false, k1)
change_rule source allow effect (rule subject operation object) k =
    change_policy source allow subject operation object k

-- run_policy_command behind its usage line.
unfoldable pub policy_command : Text → Text → Option Text → M Bool
unfolding rule_words
policy_command source effect rest k =
    if text_equal effect (text "show")
    then policy_show_command source k
    else if text_equal effect (text "allow")
    then change_rule source true effect (rule_words rest) k
    else if text_equal effect (text "deny")
    then change_rule source false effect (rule_words rest) k
    else (let (_, k1) = printf (text "Unknown policy command: %s\n") (str effect ∷ []) k in
        (false, k1))

unfoldable pub run_policy_command : Text → Option Text → M Bool
run_policy_command source none k =
    let (_, k1) =
      printf
        (text
          "Usage: policy show | policy allow <subject> <operation> <object> | policy deny <subject> <operation> <object>\n")
        [] k in
    (false, k1)
run_policy_command source (some argument) k =
    let (effect, rest) = split_command argument in policy_command source effect rest k
