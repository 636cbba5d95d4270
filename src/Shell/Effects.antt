-- ===== src/Shell/Effects.antt =====
-- The commands of the shell (kernel/main.c) without a lasting effect, as steps of Quiet.antt.
use glass_os.Prelude.{Option, none, some, List, [], ◌∷◌, text}
use glass_os.Text.{Text}
use glass_os.Kernel.{Kernel, event_ok}
use glass_os.Policy.{PolicyDecision, policy_check}
use glass_os.Ramfs.{RamfsFile, files}
use glass_os.Console.Output.{HasPolicy}
use glass_os.Report.Inspect.{policy_show-Prints}
use glass_os.Quiet.{
  Quiet, if-Quiet, if_unit-Quiet, HasPolicy-Quiet, Prints-Quiet, printf-Quiet,
  event_record_kind-Quiet, policy_check-Quiet,
}
use glass_os.Shell.Commands.{
  shell, print_denied, denied, show_meminfo, show_time, print_files, list_files, answer_key,
  show_config, policy_show_command,
}

module _ {k s : Kernel} (q : Quiet k s) where
  pub print_denied-Quiet : (policy : PolicyDecision) → Quiet k (print_denied policy s).1
  unfolding print_denied
  print_denied-Quiet policy = printf-Quiet q _ _

  pub denied-Quiet : (policy : PolicyDecision) → Quiet k (denied policy s).1
  unfolding denied print_denied
  denied-Quiet policy = printf-Quiet q _ _

  pub show_time-Quiet : Quiet k (show_time s).1
  unfolding show_time
  show_time-Quiet = printf-Quiet q _ _

  answer_key-Quiet :
      (key : Text) (policy : PolicyDecision) (value : Option Text)
      → Quiet k (answer_key key policy value s).1
  unfolding answer_key
  answer_key-Quiet key policy none = printf-Quiet (event_record_kind-Quiet q _ _ _ _ _ _ _) _ _
  answer_key-Quiet key policy (some value) =
      printf-Quiet (event_record_kind-Quiet q _ _ _ _ _ _ _) _ _

print_files-Quiet : (fs : List RamfsFile) {k s : Kernel} → Quiet k s → Quiet k (print_files fs s).1
unfolding print_files
print_files-Quiet [] q = q
print_files-Quiet (f ∷ fs) q = print_files-Quiet fs (printf-Quiet q _ _)

module _ {k s : Kernel} (q : Quiet k s) (ready : HasPolicy k) (source : Text) where
  -- The state in which a command has its decision.
  pub checked : (target right : Text) → Quiet k (policy_check source shell target right s).1
  checked target right = policy_check-Quiet q source shell target right ready

module _ {k s : Kernel} (q : Quiet k s) (ready : HasPolicy k) (source : Text) where
  pub show_meminfo-Quiet : Quiet k (show_meminfo source s).1
  unfolding show_meminfo
  show_meminfo-Quiet =
      let d = checked q ready source (text "memory") (text "memory:inspect") in
      if_unit-Quiet _ _ _ (print_denied-Quiet d _) (
        printf-Quiet (printf-Quiet (printf-Quiet (event_record_kind-Quiet d _ _ _ _ _ _ _) _ _) _ _)
          _ _)

  pub list_files-Quiet : Quiet k (list_files source s).1
  unfolding list_files
  list_files-Quiet =
      let d = checked q ready source (text "ramfs") (text "filesystem:list") in
      if_unit-Quiet _ _ _ (print_denied-Quiet d _)
        (print_files-Quiet files (event_record_kind-Quiet d _ _ _ _ _ _ _))

  pub show_config-Quiet : (key : Text) → Quiet k (show_config source key s).1
  unfolding show_config
  show_config-Quiet key =
      let d = checked q ready source key (text "config:get") in
      if-Quiet _ _ _ (denied-Quiet d _) (answer_key-Quiet d key _ _)

  pub policy_show_command-Quiet : Quiet k (policy_show_command source s).1
  unfolding policy_show_command
  policy_show_command-Quiet =
      let d = checked q ready source (text "policy/base.policy") (text "policy:show") in
      let e =
        event_record_kind-Quiet d shell (text "policy/base.policy") (text "policy_show") event_ok _
          _ (text "query") in
      if-Quiet _ _ _ (denied-Quiet d _)
        (Prints-Quiet e (policy_show-Prints source _ (HasPolicy-Quiet e ready)))
