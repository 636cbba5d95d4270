-- ===== src/Shell/Round.antt =====
-- One round of the loop of kernel_main (kernel/main.c): a command line, in a transaction of its own.
-- The commands that only a test build has are not here.
use glass_os.Prelude.{
  ℕ, Bool, true, false, ◌&&◌, Option, none, some, List, [], ◌∷◌, drop, text, ◌==◌, if◌then◌else◌,
}
use glass_os.Text.{Text, text_equal, starts_with, copy_field, append_text, append_decimal64}
use glass_os.Kernel.{event_ok, event_denied, M, ◌>>◌}
use glass_os.Console.{str, num, printf}
use glass_os.Event.{
  event_record, event_record_kind, event_current, event_set_current, event_set_transaction,
  transaction_begin, transaction_commit, transaction_abort,
}
use glass_os.Policy.{policy_check}
use glass_os.Screen.{Screen, vga_clear_window_content, vga_draw_window}
use glass_os.Report.Events.{event_count, event_print_transaction, event_print_chain}
use glass_os.Report.Objects.{object_inspect, object_expand, object_history}
use glass_os.User.Demo.{user_run_demo}
use glass_os.Shell.{split_command, parse_sequence, copy_first_token}
use glass_os.Shell.Commands.{
  shell, denied, show_meminfo, show_time, list_files, show_config, set_config, run_policy_command,
}
use glass_os.Shell.Modules.{print_file, run_module}

-- The branches of the loop, with the argument that each needs.
pub data Command : Type 0 where
  help clear window meminfo time ls userdemo events unknown : Command
  cat run get set inspect expand why history : Text → Command
  policy : Option Text → Command

abbrev pub is_there : Option Text → Bool
is_there none = false
is_there (some a) = true

abbrev pub value : Option Text → Text
value none = []
value (some a) = a

-- The chain of tests on `kbd_buffer` and `argument`.
unfoldable pub command_of : Text → Option Text → Command
command_of word argument =
    if text_equal word (text "help")
    then Command.help
    else if text_equal word (text "clear")
    then Command.clear
    else if text_equal word (text "window")
    then Command.window
    else if text_equal word (text "meminfo")
    then Command.meminfo
    else if text_equal word (text "time")
    then Command.time
    else if text_equal word (text "ls")
    then Command.ls
    else if text_equal word (text "cat") && is_there argument
    then Command.cat (value argument)
    else if text_equal word (text "run") && is_there argument
    then Command.run (value argument)
    else if text_equal word (text "get") && is_there argument
    then Command.get (value argument)
    else if text_equal word (text "set") && is_there argument
    then Command.set (value argument)
    else if text_equal word (text "policy")
    then Command.policy argument
    else if text_equal word (text "userdemo")
    then Command.userdemo
    else if text_equal word (text "events")
    then Command.events
    else if text_equal word (text "inspect") && is_there argument
    then Command.inspect (value argument)
    else if text_equal word (text "expand") && is_there argument
    then Command.expand (value argument)
    else if text_equal word (text "why") && is_there argument
    then Command.why (value argument)
    else if text_equal word (text "history") && is_there argument
    then Command.history (value argument)
    else Command.unknown

unfoldable pub build_transaction_target : ℕ → ℕ → Text
build_transaction_target capacity transaction =
    append_decimal64 capacity (append_text capacity [] (text "transaction/")) transaction

abbrev pub tx_prefix : Text
tx_prefix = text "tx "

-- What the transaction of a command names for its target.
unfoldable pub transaction_target : Text → Option Text → Text
transaction_target word argument =
    if text_equal word (text "set") && is_there argument
    then copy_first_token 48 argument
    else if text_equal word (text "policy")
    then copy_field 48 (text "policy/base.policy")
    else if text_equal word (text "userdemo")
    then copy_field 48 (text "scheduler")
    else if text_equal word (text "why")
        && is_there argument
        && starts_with (value argument) tx_prefix
    then build_transaction_target 48 (parse_sequence (drop 3 (value argument)))
    else copy_field 48 (if is_there argument then value argument else word)

-- A command that draws, where the policy allows it.
unfoldable pub draw : Text → Text → Text → (Screen → Screen) → Text → M Bool
draw source right operation paint message k =
    let (decision, k1) = policy_check source shell (text "window") right k in
    if decision.allowed
    then (let k2 = record k1 { screen = paint k1.screen } in
        let (_, k3) =
          event_record_kind shell (text "window") operation event_ok decision.event decision.reason
            (text "state") k2 in
        let (_, k4) = printf message [] k3 in (true, k4))
    else denied decision k1

-- A command that reports on its target, where the policy allows it.
unfoldable pub query : Text → Text → Text → M (Unit {0}) → M Bool
query source target operation report k =
    let (decision, k1) = policy_check source shell target operation k in
    if decision.allowed
    then (let (_, k2) =
          event_record_kind shell target operation event_ok decision.event decision.reason
            (text "query") k1 in
        let (_, k3) = report k2 in (true, k3))
    else denied decision k1

-- The report of `why`.
unfoldable pub explain : Text → M (Unit {0})
explain argument k =
    if starts_with argument tx_prefix
    then event_print_transaction (parse_sequence (drop 3 argument)) k
    else if parse_sequence argument == 0
    then object_history argument k
    else event_print_chain (parse_sequence argument) k

abbrev pub always : M (Unit {0}) → M Bool
always m k = let (_, k') = m k in (true, k')

unfoldable pub print_help : M (Unit {0})
print_help = do
  printf
      (text
        "Commands: help, clear, window, meminfo, time, ls, cat <path>, run <module>, get <key>, set <key> <value>, policy <op>, userdemo, events\n")
      []
  printf (text "Truth: inspect <object>, expand <object>, why <event>, history <object>\n") []

-- The last branch: an unknown command.
unfoldable pub reject : Text → ℕ → M Bool
reject word command_event k =
    let (_, k1) =
      event_record shell word (text "command") event_denied command_event
        (text "deny:unknown-command") k in
    let (_, k2) = printf (text "Unknown command: %s\n") (str word ∷ []) k1 in (false, k2)

module _ (source : Text) (enter : ℕ → ℕ → M (Unit {0})) where
  -- The body of a branch; false means that the branch clears transaction_ok.
  unfoldable pub run_command : Command → Text → Text → ℕ → M Bool
  run_command Command.help word target command_event k = always print_help k
  run_command Command.clear word target command_event k =
      draw source (text "ui:clear") (text "clear") vga_clear_window_content [] k
  run_command Command.window word target command_event k =
      draw source (text "ui:redraw") (text "redraw") vga_draw_window
        (text "Window restored. All shell functionality is available.\n") k
  run_command Command.meminfo word target command_event k = always (show_meminfo source) k
  run_command Command.time word target command_event k = always show_time k
  run_command Command.ls word target command_event k = always (list_files source) k
  run_command (Command.cat a) word target command_event k = always (print_file source a) k
  run_command (Command.run a) word target command_event k = always (run_module source a) k
  run_command (Command.get a) word target command_event k = show_config source a k
  run_command (Command.set a) word target command_event k = set_config source a k
  run_command (Command.policy a) word target command_event k = run_policy_command source a k
  run_command Command.userdemo word target command_event k = user_run_demo source enter k
  run_command Command.events word target command_event k =
      always (printf (text "Event buffer: %d retained\n") (num (event_count k) ∷ [])) k
  run_command (Command.inspect a) word target command_event k =
      query source a (text "inspect") (object_inspect source a) k
  run_command (Command.expand a) word target command_event k =
      query source a (text "expand") (object_expand source a) k
  run_command (Command.why a) word target command_event k =
      query source (if starts_with a tx_prefix then target else a) (text "why") (explain a) k
  run_command (Command.history a) word target command_event k =
      query source a (text "history") (object_history a) k
  run_command Command.unknown word target command_event k = reject word command_event k

  -- The command event and the transaction of a round; the result is the two sequences.
  unfoldable pub open_round : Text → Text → M (ℕ × ℕ)
  open_round word target k =
      let (command_event, k1) =
        event_record_kind shell target (text "command") event_ok (event_current k) word
          (text "command") k in
      let (transaction, k2) = transaction_begin shell target command_event k1 in
      let (_, k3) =
        event_set_current (if transaction == 0 then command_event else transaction) k2 in
      let (_, k4) = event_set_transaction transaction k3 in ((command_event, transaction), k4)

  -- The end of a round.
  unfoldable pub close_round : ℕ → Bool → ℕ → M (Unit {0})
  close_round transaction ok boot_event k =
      let (_, k1) =
        if transaction == 0
        then (0, k)
        else if ok
        then transaction_commit transaction k
        else transaction_abort transaction (text "deny:transaction") k in
      let (_, k2) = event_set_transaction 0 k1 in event_set_current boot_event k2

  unfoldable pub shell_round : Text → ℕ → M (Unit {0})
  shell_round line boot_event k =
      let (word, argument) = split_command line in
      let target = transaction_target word argument in
      let ((command_event, transaction), k1) = open_round word target k in
      let (ok, k2) = run_command (command_of word argument) word target command_event k1 in
      close_round transaction ok boot_event k2

  -- The loop, on the lines that are typed.
  unfoldable pub shell_rounds : List Text → ℕ → M (Unit {0})
  shell_rounds [] boot_event k = (tt, k)
  shell_rounds (line ∷ lines) boot_event k =
      shell_rounds lines boot_event (shell_round line boot_event k).1
