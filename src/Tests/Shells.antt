-- ===== src/Tests/Shells.antt =====
-- Rounds of the shell (kernel/main.c), and what its reports print.
use glass_os.Prelude.{ℕ, List, ◌<◌, ◌≡◌, refl, false, [], ◌∷◌, text, arith, if◌then◌else◌}
use glass_os.Text.{Text, starts_with, text_equal}
use glass_os.Kernel.{Kernel, M, event_ok}
use glass_os.Event.{
  transaction_begin, update_transaction, make_event, record_entry, event_init, event_record_kind,
  event_find, find_event_from,
}
use glass_os.Event.Sequence.{event_init-IsJournal}
use glass_os.Console.Output.{Prints}
use glass_os.Report.Events.{print_chain, event_print_chain}
use glass_os.Report.Chain.{IsCausal, event_print_chain_depth, event_record_kind-IsCausal}
use glass_os.Report.Objects.{object_expand}
use glass_os.Report.Inspect.{object_expand-Prints}
use glass_os.Shell.{split_command, scan_word, drop_spaces}
use glass_os.Shell.Round.{open_round, Command, command_of, shell_round, shell_rounds}
use glass_os.Shell.Effect.{Effect, is_demo}
use glass_os.Shell.Commits.{commits}
use glass_os.Shell.Rounds.{shell_round-Effect, command}
use glass_os.Shell.Closing.{HasStatus, target, reading, round_transaction, shell_round-HasStatus}
use glass_os.Shell.Commands.{shell}
use glass_os.Shell.Session.{Kept, Locked, IsPlain, shell_rounds-Kept, shell_rounds-Locked}
use glass_os.Policy.{decide, rule_matches, field_matches}
use glass_os.Policy.Change.{IsTable}
use glass_os.Policy.Decide.{verdict}
use glass_os.Object.Ids.{object_registry_init-IsValid}
use glass_os.Quiet.Bounded.{IsBounded}
use glass_os.Tests.Sample.{kernel, kernel-IsJournal, kernel_sequences, kernel_first, kernel_slots}

-- A program in ring 3 that does nothing.
abbrev idle : ℕ → ℕ → M (Unit {0})
idle entry stack k = (tt, k)

abbrev line : Text
line = text "set /config/theme dark"

line-command : command [] idle line 1 kernel ≡ Command.set (text "/config/theme dark")
unfolding split_command scan_word drop_spaces command_of text_equal text
line-command = refl

line_plain : is_demo (command [] idle line 1 kernel) ≡ false
line_plain = rw line-command refl

shell_round-Effect_example :
    Effect (command [] idle line 1 kernel) kernel (shell_round [] idle line 1 kernel).1
shell_round-Effect_example = shell_round-Effect [] idle line 1 kernel refl line_plain

first_transaction : round_transaction [] idle line 1 kernel ≡ 2
unfolding open_round transaction_begin event_record_kind record_entry update_transaction make_event
    event_init
first_transaction = refl

reading_plain : is_demo (reading [] idle line 1 kernel) ≡ false
unfolding split_command scan_word drop_spaces text_equal text
reading_plain = refl

shell_round-HasStatus_example :
    let k' = (shell_round [] idle line 1 kernel).1 in
    HasStatus
      (if commits (reading [] idle line 1 kernel) (target [] idle line 1 kernel) kernel
        then text "committed"
        else text "aborted")
      (round_transaction [] idle line 1 kernel)
      k'
    × (k'.journal.current_transaction ≡ 0)
    × (k'.journal.current_sequence ≡ 1)
shell_round-HasStatus_example =
    shell_round-HasStatus [] idle line 1 kernel refl reading_plain kernel_slots
      (rw first_transaction refl)

-- The journal once the kernel has recorded an event, whose parent is none.
first-IsCausal : IsCausal kernel.journal
unfolding event_find find_event_from event_init
first-IsCausal s e at = absurd (cc)

event_record_kind-IsCausal_example :
    IsCausal
      (event_record_kind
        (text "kernel")
        (text "system")
        (text "boot")
        event_ok
        0
        (text "none")
        (text "boot")
        kernel).1.journal
event_record_kind-IsCausal_example =
    event_record_kind-IsCausal (text "kernel") (text "system") (text "boot") event_ok 0
      (text "none") (text "boot") kernel kernel-IsJournal kernel_sequences kernel_first
      first-IsCausal

-- One event in the journal.
abbrev booted : Kernel
booted =
    (event_record_kind (text "kernel") (text "system") (text "boot") event_ok 0 (text "none")
      (text "boot") kernel).1

booted_issued : 1 < booted.journal.next_sequence
unfolding event_record_kind record_entry event_init
booted_issued = omega arith

event_print_chain_depth_example : print_chain 9 1 booted ≡ event_print_chain 1 booted
event_print_chain_depth_example =
    event_print_chain_depth 9 1 booted event_record_kind-IsCausal_example booted_issued
      (omega arith)

object_expand-Prints_example : Prints kernel (object_expand [] (text "system") kernel).1
object_expand-Prints_example = object_expand-Prints [] (text "system") kernel refl

abbrev lines : List Text
lines = line ∷ text "ls" ∷ []

lines-IsPlain : IsPlain lines
unfolding split_command scan_word drop_spaces command_of text_equal text
lines-IsPlain = (refl, (refl, tt))

kernel-IsTable : IsTable kernel.policy
kernel-IsTable = record { ready = refl; fits = omega arith; numbered = (refl, tt) }

kernel-IsBounded : IsBounded kernel
unfolding event_init
kernel-IsBounded = record {
  ring = event_init-IsJournal.ring;
  slots = omega arith;
  registry = object_registry_init-IsValid 1;
  cursor = refl;
}

shell_rounds-Kept_example : Kept kernel (shell_rounds [] idle lines 1 kernel).1
shell_rounds-Kept_example =
    shell_rounds-Kept [] idle 1 lines kernel lines-IsPlain kernel-IsTable kernel-IsBounded

denied_change :
    verdict shell (text "policy/base.policy") (text "policy:change") kernel.policy ≡ false
unfolding decide rule_matches field_matches starts_with text_equal text
denied_change = refl

denied_set : verdict shell (text "/config/theme") (text "config:set") kernel.policy ≡ false
unfolding decide rule_matches field_matches starts_with text_equal text
denied_set = refl

shell_rounds-Locked_example :
    Locked (text "/config/theme") kernel (shell_rounds [] idle lines 1 kernel).1
shell_rounds-Locked_example =
    shell_rounds-Locked [] idle 1 lines (text "/config/theme") kernel lines-IsPlain refl
      denied_change denied_set
