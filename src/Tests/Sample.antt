-- ===== src/Tests/Sample.antt =====
-- A kernel that has booted as far as its journal and its registry.
use glass_os.Prelude.{
  ◌+◌, ◌^◌, ◌<◌, ◌≤◌, [], ◌∷◌, true, false, none, ◌==◌, if◌then◌else◌, text, some, ◌≡◌, refl, arith,
  length,
}
use glass_os.Screen.{Screen}
use glass_os.Kernel.{Keyboard, Kernel, PolicyRule, PolicyTable, Registry, TransactionRecord}
use glass_os.Object.{object_registry_init, object_capacity}
use glass_os.Object.Ids.{IsValid}
use glass_os.Event.{event_init, transaction_capacity, transaction_find}
use glass_os.Event.Sequence.{IsJournal, event_init-IsJournal}
use glass_os.Event.Ledger.{IsLedger}

abbrev pub allow_all : PolicyRule
allow_all = record {
  allow = true;
  rule_number = 1;
  capability = [];
  subject = text "shell";
  operation = text "inspect";
  object = text "*";
}

abbrev pub table : PolicyTable
table = record { rules = allow_all ∷ []; active_revision = 1; policy_loaded = true }

abbrev pub screen : Screen
screen = record {
  video_memory = λ i. 0;
  cursor_x = 2;
  cursor_y = 3;
  current_color = 0x0F;
  window_mode = true;
  crtc = λ i. 0;
}

-- The line `ab`, the cursor behind the `a`.
abbrev pub keyboard : Keyboard
keyboard = record {
  kbd_buffer = λ i. if i == 0 then b'a' else if i == 1 then b'b' else 0;
  buffer_idx = 2;
  command_ready = false;
  command_history = λ slot i. 0;
  saved_line = λ i. 0;
  history_count = 0;
  history_next = 0;
  history_cursor = none;
  edit_cursor = 1;
  rendered_length = 2;
  extended_scancode = false;
  shift_pressed = false;
}

abbrev pub kernel : Kernel
kernel = record {
  registry = object_registry_init 1;
  journal = event_init;
  policy = table;
  config =
      record { key = text "/config/theme"; value = text "light" }
      ∷ record { key = text "/config/prompt"; value = text ">" }
      ∷ [];
  memory = record {
    page_bitmap = λ i. 0;
    usable_bitmap = λ i. 255;
    usable_memory_bytes = 0;
    detected_entry_count = 0;
    heap_base = 0x400000;
    heap_limit = 0x410000;
    heap_ptr = 0x400000;
    allocator_ready = true;
  };
  system_ticks = 0;
  serial = [];
  console = [];
  screen = screen;
  keyboard = keyboard;
  paging = record { physical = λ i. 0; cr3 = 0x1000; cr2 = 0 };
  users = record {
    processes = [];
    scheduler_index = 0;
    active_user_process = none;
    user_fault_contained = false;
  };
}

pub kernel-IsJournal : IsJournal kernel.journal
kernel-IsJournal = event_init-IsJournal

pub kernel_sequences : kernel.journal.next_sequence + 1 < 2 ^ 64
unfolding event_init
kernel_sequences = omega arith

pub kernel_first : 1 ≤ kernel.journal.next_sequence
unfolding event_init
kernel_first = omega arith

pub kernel-IsLedger : IsLedger kernel.journal
unfolding event_init
kernel-IsLedger = record { journal = event_init-IsJournal; ids = tt; slots = omega arith }

pub kernel_slots : length kernel.journal.transactions < transaction_capacity
unfolding event_init
kernel_slots = omega arith

-- One object, `system`, with id 1.
abbrev pub registry : Registry
registry = record {
  objects =
      record {
        id = 1;
        parent_id = 0;
        revision = 1;
        created_event = 1;
        last_event = 1;
        type = text "system";
        name = text "system";
        state = text "booting";
      }
      ∷ [];
  next_id = 2;
}

pub registry-IsValid : IsValid registry
registry-IsValid = omega arith

pub registry_room : length registry.objects < object_capacity
registry_room = omega arith

-- The same kernel with transaction 3 open and 7 the next sequence.
abbrev pub open_transaction : TransactionRecord
open_transaction = record {
  id = 3;
  parent_event = 2;
  begin_event = 3;
  end_event = 6;
  started_revision = 1;
  committed_revision = 1;
  actor = text "shell";
  target = text "system";
  status = text "open";
}

abbrev pub busy : Kernel
busy = record kernel {
  journal = record event_init { next_sequence = 7; transactions = open_transaction ∷ [] };
}

pub busy-IsLedger : IsLedger busy.journal
unfolding event_init
busy-IsLedger = record {
  journal = record { ring = omega arith; fresh = omega arith; numbered = tt };
  ids = omega arith;
  slots = omega arith;
}

pub busy_sequences : busy.journal.next_sequence + 1 < 2 ^ 64
busy_sequences = omega arith

pub busy_found : transaction_find 3 busy.journal.transactions ≡ some open_transaction
unfolding transaction_find
busy_found = refl
