-- ===== src/Kernel.antt =====
-- The state of the kernel: the static variables of object.c, event.c, policy.c, config.c, memory.c,
-- timer.c, user.c, vga.c and keyboard.c, one record for each file, the bytes that left by the two
-- ports, and what paging depends on.
use glass_os.Prelude.{ℕ, ◌+◌, ◌%◌, ◌^◌, List, Bool, Option}
use glass_os.Text.{Text}
use glass_os.Screen.{Screen}

-- `++` on a uint64_t and on a uint32_t.
abbrev pub next64 : ℕ → ℕ
next64 n = (n + 1) % 2 ^ 64

abbrev pub next32 : ℕ → ℕ
next32 n = (n + 1) % 2 ^ 32

-- struct kernel_object
pub record Object : Type 0 where
  pub id : ℕ
  pub parent_id : ℕ
  pub revision : ℕ
  pub created_event : ℕ
  pub last_event : ℕ
  pub type : Text
  pub name : Text
  pub state : Text

-- The statics of object.c: `objects` is the array up to `object_count`.
pub record Registry : Type 0 where
  pub objects : List Object
  pub next_id : ℕ

-- enum event_result
pub data EventResult : Type 0 where
  event_ok event_denied event_fault : EventResult

-- struct system_event
pub record Event : Type 0 where
  pub sequence : ℕ
  pub timestamp : ℕ
  pub parent_event : ℕ
  pub transaction_id : ℕ
  pub actor_object_id : ℕ
  pub target_object_id : ℕ
  pub target_revision : ℕ
  pub kind : Text
  pub actor : Text
  pub target : Text
  pub operation : Text
  pub policy_decision : Text
  pub result : EventResult

-- struct transaction_record
pub record TransactionRecord : Type 0 where
  pub id : ℕ
  pub parent_event : ℕ
  pub begin_event : ℕ
  pub end_event : ℕ
  pub started_revision : ℕ
  pub committed_revision : ℕ
  pub actor : Text
  pub target : Text
  pub status : Text

-- The statics of event.c: `entries` is the whole ring of EVENT_CAPACITY records, `transactions` the
-- array up to `transaction_count`.
pub record Journal : Type 0 where
  pub entries : List Event
  pub next_sequence : ℕ
  pub current_sequence : ℕ
  pub current_transaction : ℕ
  pub first : ℕ
  pub count : ℕ
  pub transactions : List TransactionRecord

-- struct policy_rule
pub record PolicyRule : Type 0 where
  pub allow : Bool
  pub rule_number : ℕ
  pub capability : Text
  pub subject : Text
  pub operation : Text
  pub object : Text

-- The statics of policy.c: `rules` is the array up to `rule_count`.
pub record PolicyTable : Type 0 where
  pub rules : List PolicyRule
  pub active_revision : ℕ
  pub policy_loaded : Bool

-- struct config_entry
pub record ConfigEntry : Type 0 where
  pub key : Text
  pub value : Text

-- The statics of memory.c. A bitmap gives each byte index its byte.
pub record Memory : Type 0 where
  pub page_bitmap : ℕ → ℕ
  pub usable_bitmap : ℕ → ℕ
  pub usable_memory_bytes : ℕ
  pub detected_entry_count : ℕ
  pub heap_base : ℕ
  pub heap_limit : ℕ
  pub heap_ptr : ℕ
  pub allocator_ready : Bool

-- The statics of keyboard.c: an array gives each index its byte, and `command_history` each slot its
-- line. No `history_cursor` is -1.
pub record Keyboard : Type 0 where
  pub kbd_buffer : ℕ → ℕ
  pub buffer_idx : ℕ
  pub command_ready : Bool
  pub command_history : ℕ → ℕ → ℕ
  pub saved_line : ℕ → ℕ
  pub history_count : ℕ
  pub history_next : ℕ
  pub history_cursor : Option ℕ
  pub edit_cursor : ℕ
  pub rendered_length : ℕ
  pub extended_scancode : Bool
  pub shift_pressed : Bool

-- What the CPU translates addresses by: the bytes of the physical memory, and the registers CR3 and
-- CR2. The kernel reads and writes page tables through its identity map, so that an address of its
-- own is a physical one.
pub record Paging : Type 0 where
  pub physical : ℕ → ℕ
  pub cr3 : ℕ
  pub cr2 : ℕ

-- struct user_process
pub record UserProcess : Type 0 where
  pub pid : ℕ
  pub thread_id : ℕ
  pub cr3 : ℕ
  pub code_page : ℕ
  pub stack_page : ℕ
  pub peer_probe_address : ℕ
  pub process_name : Text
  pub thread_name : Text
  pub address_space_name : Text
  pub image_path : Text
  pub peer_process_name : Text

-- The statics of user.c: `processes` is the array up to `process_count`, and the pointer
-- `active_user_process` the index of its entry.
pub record Users : Type 0 where
  pub processes : List UserProcess
  pub scheduler_index : ℕ
  pub active_user_process : Option ℕ
  pub user_fault_contained : Bool

pub record Kernel : Type 0 where
  pub registry : Registry
  pub journal : Journal
  pub policy : PolicyTable
  pub config : List ConfigEntry
  pub memory : Memory
  pub system_ticks : ℕ
  -- every byte written to COM1, and every byte written to the debug console
  pub serial : Text
  pub console : Text
  pub screen : Screen
  pub keyboard : Keyboard
  pub paging : Paging
  pub users : Users

-- An operation that reads and writes the statics, and returns a value.
abbrev pub M {ℓ} : Type ℓ → Type ℓ
M A = Kernel → A × Kernel

infixl 5 ◌>>=◌ ◌>>◌
abbrev pub ◌>>=◌ {ℓ κ} : {A : Type ℓ} {B : Type κ} → M A → (A → M B) → M B
◌>>=◌ m f k = let (a, k') = m k in f a k'

abbrev pub ◌>>◌ {ℓ κ} : {A : Type ℓ} {B : Type κ} → M A → M B → M B
m >> n = m >>= λ _. n

abbrev pub pure {ℓ} : {A : Type ℓ} → A → M A
pure a k = (a, k)

abbrev pub gets {ℓ} : {A : Type ℓ} → (Kernel → A) → M A
gets f k = (f k, k)

abbrev pub modify : (Kernel → Kernel) → M (Unit {0})
modify f k = (tt, f k)
