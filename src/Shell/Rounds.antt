-- ===== src/Shell/Rounds.antt =====
-- A round of the shell's loop (kernel/main.c).
use glass_os.Prelude.{ℕ, ◌≡◌, inl, inr, Bool, false, Bool-cases, ◌==◌}
use glass_os.Text.{Text}
use glass_os.Kernel.{Kernel, M}
use glass_os.Screen.Draw.{vga_draw_window_lem}
use glass_os.Console.Output.{HasPolicy}
use glass_os.Report.Inspect.{object_inspect-Prints, object_expand-Prints, object_history-Prints}
use glass_os.Quiet.{
  Quiet, Quiet-refl, printf-Quiet, event_record_kind-Quiet, set_current-Quiet,
  set_transaction-Quiet, transaction_begin-Quiet, transaction_commit-Quiet, transaction_abort-Quiet,
}
use glass_os.Shell.{split_command}
use glass_os.Shell.Round.{
  Command, run_command, command_of, transaction_target, open_round, close_round, shell_round,
}
use glass_os.Shell.Effects.{
  show_meminfo-Quiet, show_time-Quiet, list_files-Quiet, show_config-Quiet,
}
use glass_os.Shell.Files.{vga_clear_window_content-Fits, print_file-Quiet, run_module-Quiet}
use glass_os.Shell.Effect.{
  Effect, nothing, set_key, add_rule, is_demo, print_help-Quiet, reject-Quiet, draw-Quiet,
  query-Quiet, explain-Prints, set_config-Effect, run_policy_command-Effect,
}

module _ (source : Text) (enter : ℕ → ℕ → M (Unit {0})) where
  -- Every branch of the loop but `userdemo`.
  pub run_command-Effect :
      (c : Command) (word target : Text) (event : ℕ) {k s : Kernel}
      → Quiet k s
      → HasPolicy k
      → is_demo c ≡ false
      → Effect c k (run_command source enter c word target event s).1
  unfolding run_command
  run_command-Effect Command.help word target event q ready plain = nothing (print_help-Quiet q)
  run_command-Effect Command.clear word target event q ready plain =
      nothing (draw-Quiet q ready source _ _ _ _ vga_clear_window_content-Fits)
  run_command-Effect Command.window word target event q ready plain =
      nothing (draw-Quiet q ready source _ _ _ _ (λ t fits. (vga_draw_window_lem t).1))
  run_command-Effect Command.meminfo word target event q ready plain =
      nothing (show_meminfo-Quiet q ready source)
  run_command-Effect Command.time word target event q ready plain = nothing (show_time-Quiet q)
  run_command-Effect Command.ls word target event q ready plain =
      nothing (list_files-Quiet q ready source)
  run_command-Effect Command.userdemo word target event q ready plain = absurd (cc)
  run_command-Effect Command.events word target event q ready plain = nothing (printf-Quiet q _ _)
  run_command-Effect Command.unknown word target event q ready plain =
      nothing (reject-Quiet q word event)
  run_command-Effect (Command.cat a) word target event q ready plain =
      nothing (print_file-Quiet q ready source a)
  run_command-Effect (Command.run a) word target event q ready plain =
      nothing (run_module-Quiet q ready source a)
  run_command-Effect (Command.get a) word target event q ready plain =
      nothing (show_config-Quiet q ready source a)
  run_command-Effect (Command.set a) word target event q ready plain =
      set_config-Effect source q ready a
  run_command-Effect (Command.policy a) word target event q ready plain =
      run_policy_command-Effect source q ready a
  run_command-Effect (Command.inspect a) word target event q ready plain =
      nothing (query-Quiet q ready source _ _ _ (object_inspect-Prints source a))
  run_command-Effect (Command.expand a) word target event q ready plain =
      nothing (query-Quiet q ready source _ _ _ (object_expand-Prints source a))
  run_command-Effect (Command.why a) word target event q ready plain =
      nothing (query-Quiet q ready source _ _ _ (λ t h. explain-Prints a t))
  run_command-Effect (Command.history a) word target event q ready plain =
      nothing (query-Quiet q ready source _ _ _ (λ t h. object_history-Prints a t))

  pub open_round-Quiet :
      (word target : Text) (k : Kernel) → Quiet k (open_round source enter word target k).1
  unfolding open_round
  open_round-Quiet word target k =
      set_transaction-Quiet
        (set_current-Quiet
          (transaction_begin-Quiet (event_record_kind-Quiet (Quiet-refl {k = k}) _ _ _ _ _ _ _) _ _
            _)
          _)
        _

  close_round-Quiet :
      (transaction : ℕ) (ok : Bool) (boot_event : ℕ) {k s : Kernel}
      → Quiet k s
      → Quiet k (close_round source enter transaction ok boot_event s).1
  unfolding close_round
  close_round-Quiet transaction ok boot_event q = elim (Bool-cases (transaction == 0)) [
    | inl e ↦ rw e (set_current-Quiet (set_transaction-Quiet q 0) boot_event)
    | inr e ↦ elim (Bool-cases ok) [
      | inl f ↦
          rw (e, f)
            (set_current-Quiet (set_transaction-Quiet (transaction_commit-Quiet q _) 0) boot_event)
      | inr f ↦
          rw (e, f)
            (set_current-Quiet (set_transaction-Quiet (transaction_abort-Quiet q _ _) 0) boot_event)
    ]
  ]

  close_round-Effect :
      (c : Command) (transaction : ℕ) (ok : Bool) (boot_event : ℕ) {k s : Kernel}
      → Effect c k s
      → Effect c k (close_round source enter transaction ok boot_event s).1
  close_round-Effect c transaction ok boot_event (nothing q) =
      nothing (close_round-Quiet transaction ok boot_event q)
  close_round-Effect c transaction ok boot_event (set_key a key v e f allowed q) =
      set_key a key v e f allowed (close_round-Quiet transaction ok boot_event q)
  close_round-Effect c transaction ok boot_event (add_rule a allow x y z e allowed room q) =
      add_rule a allow x y z e allowed room (close_round-Quiet transaction ok boot_event q)

  module _ (line : Text) (boot_event : ℕ) (k : Kernel) where
    abbrev pub command : Command
    command = let (word, argument) = split_command line in command_of word argument

    -- A round of the shell for any command line but `userdemo`, with a policy loaded. It changes
    -- nothing but the registry, the journal, the screen and the ports, unless it is a `set` or a
    -- `policy` command that the table of rules allows the shell: then it stores one value, cut to 47
    -- bytes, or adds one rule, and nothing else. Allocator, heap, page tables, processes and keyboard
    -- are as they were in every case, all tables stay within their bounds, and the cursor in place.
    pub shell_round-Effect :
        HasPolicy k
        → is_demo command ≡ false
        → Effect command k (shell_round source enter line boot_event k).1
    unfolding shell_round
    shell_round-Effect ready plain =
        let (word, argument) = split_command line in
        let target = transaction_target word argument in
        close_round-Effect command _ _ boot_event (
          run_command-Effect (command_of word argument) word target _
            (open_round-Quiet word target k) ready plain)
