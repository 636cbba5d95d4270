-- ===== src/Event.antt =====
-- The event journal and its transactions (kernel/event.c), and object_update_state of
-- kernel/object.c, which records an event.
pub mod Ring
pub mod Sequence
pub mod Record
pub mod Ledger
pub mod Transaction
pub mod Finish
pub mod Frame
use glass_os.Prelude.{
  ℕ, zero, suc, ◌+◌, ◌%◌, Bool, true, false, Option, none, some, List, [], ◌∷◌, ◌++◌, length, set,
  get_elem?, replicate, text, ltb, leb, ◌==◌, if◌then◌else◌,
}
use glass_os.Text.{Text, copy_field, append_text, append_decimal64}
use glass_os.Text.Append.{decimal}
use glass_os.Kernel.{
  Kernel, Journal, Registry, Object, Event, EventResult, event_ok, event_denied, event_fault,
  TransactionRecord, M, ◌>>=◌, ◌>>◌, pure, gets, modify, next64,
}
use glass_os.Object.{
  object_find, object_id, object_revision, object_register, object_set_state_direct, update_object,
  revise, stamp,
}

abbrev pub event_capacity : ℕ
event_capacity = 128

abbrev pub transaction_capacity : ℕ
transaction_capacity = 32

abbrev pub event_label_size : ℕ
event_label_size = 48

unfoldable pub result_name : EventResult → Text
result_name event_ok = text "ok"
result_name event_denied = text "denied"
result_name event_fault = text "fault"

unfoldable pub transaction_find : ℕ → List TransactionRecord → Option TransactionRecord
transaction_find id [] = none
transaction_find id (t ∷ ts) = if t.id == id then some t else transaction_find id ts

-- A write through the pointer that transaction_find returns.
unfoldable pub update_transaction :
    ℕ → (TransactionRecord → TransactionRecord) → List TransactionRecord → List TransactionRecord
update_transaction id f [] = []
update_transaction id f (t ∷ ts) = if t.id == id then f t ∷ ts else t ∷ update_transaction id f ts

unfoldable pub transaction_name : ℕ → Text
transaction_name id =
    append_decimal64 event_label_size (append_text event_label_size [] (text "transaction/")) id

abbrev pub blank_event : Event
blank_event = record {
  sequence = 0;
  timestamp = 0;
  parent_event = 0;
  transaction_id = 0;
  actor_object_id = 0;
  target_object_id = 0;
  target_revision = 0;
  kind = [];
  actor = [];
  target = [];
  operation = [];
  policy_decision = [];
  result = event_ok;
}

-- event_init, on the zeroed statics
unfoldable pub event_init : Journal
event_init = record {
  entries = replicate event_capacity blank_event;
  next_sequence = 1;
  current_sequence = 0;
  current_transaction = 0;
  first = 0;
  count = 0;
  transactions = [];
}

-- The ring part of event_record_kind: the slot, `first` and `count`, and the write.
unfoldable pub push_entry : Event → Journal → Journal
push_entry e j =
    if j.count == event_capacity
    then record j { entries = set j.entries j.first e; first = (j.first + 1) % event_capacity }
    else record j {
      entries = set j.entries ((j.first + j.count) % event_capacity) e;
      count = j.count + 1;
    }

-- The record that is written to COM1 for an event.
unfoldable pub event_line : Event → Text
unfolding result_name
event_line e =
    text "event seq="
    ++ (decimal 20 e.sequence
        ++ (text " tx="
            ++ (decimal 20 e.transaction_id
                ++ (text " kind="
                    ++ (e.kind
                        ++ (text " actor#="
                            ++ (decimal 20 e.actor_object_id
                                ++ (text " target#="
                                    ++ (decimal 20 e.target_object_id
                                        ++ (text " target_rev="
                                            ++ (decimal 20 e.target_revision
                                                ++ (text " parent="
                                                    ++ (decimal 20 e.parent_event
                                                        ++ (text " actor="
                                                            ++ (e.actor
                                                            ++ (text " target="
                                                            ++ (e.target
                                                            ++ (text " op="
                                                            ++ (e.operation
                                                            ++ (text " result="
                                                            ++ (result_name e.result
                                                            ++ (text " policy="
                                                            ++ (e.policy_decision
                                                            ++ 13 ∷ 10 ∷ [])))))))))))))))))))))))

-- The fields that event_record_kind writes.
unfoldable pub make_event : Text → Text → Text → EventResult → ℕ → Text → Text → Kernel → Event
make_event actor target operation result parent policy kind k = record {
  sequence = k.journal.next_sequence;
  timestamp = k.system_ticks;
  parent_event = parent;
  transaction_id = k.journal.current_transaction;
  actor_object_id = object_id actor k.registry;
  target_object_id = object_id target k.registry;
  target_revision = object_revision target k.registry;
  kind = copy_field 24 kind;
  actor = copy_field event_label_size actor;
  target = copy_field event_label_size target;
  operation = copy_field event_label_size operation;
  policy_decision = copy_field event_label_size policy;
  result = result;
}

abbrev pub set_end_event : ℕ → TransactionRecord → TransactionRecord
set_end_event sequence t = record t { end_event = sequence }

-- What follows once the entry is filled in.
unfoldable pub record_entry : Event → Journal → Journal
record_entry e j =
    let j' = push_entry e j in
    record j' {
      next_sequence = next64 j.next_sequence;
      transactions = update_transaction e.transaction_id (set_end_event e.sequence) j.transactions;
    }

unfoldable pub event_record_kind : Text → Text → Text → EventResult → ℕ → Text → Text → M ℕ
event_record_kind actor target operation result parent policy kind k =
    let e = make_event actor target operation result parent policy kind k in
    (e.sequence, record k { journal = record_entry e k.journal; serial = k.serial ++ event_line e })

unfoldable pub event_record : Text → Text → Text → EventResult → ℕ → Text → M ℕ
event_record actor target operation result parent policy =
    event_record_kind actor target operation result parent policy (text "action")

abbrev pub event_set_current : ℕ → M (Unit {0})
event_set_current sequence =
    modify λ k. record k { journal = record k.journal { current_sequence = sequence } }

abbrev pub event_current : Kernel → ℕ
event_current k = k.journal.current_sequence

abbrev pub event_set_transaction : ℕ → M (Unit {0})
event_set_transaction sequence =
    modify λ k. record k { journal = record k.journal { current_transaction = sequence } }

unfoldable pub object_update_state : Text → Text → M (Unit {0})
object_update_state name state k = elim (object_find name k.registry) [
  | none ↦ (tt, k)
  | some o ↦
      let k' = record k { registry = update_object name (revise state) k.registry } in
      let (event, k'') =
        event_record_kind (text "object") o.name (text "state_update") event_ok
          k.journal.current_sequence (text "allow:object-state") (text "state") k' in
      (tt, record k'' { registry = update_object name (stamp event) k''.registry })
]

abbrev pub new_transaction : ℕ → Text → Text → ℕ → ℕ → TransactionRecord
new_transaction id actor target parent_event revision = record {
  id = id;
  parent_event = parent_event;
  begin_event = id;
  end_event = id;
  started_revision = revision;
  committed_revision = revision;
  actor = copy_field event_label_size actor;
  target = copy_field event_label_size target;
  status = copy_field 16 (text "open");
}

-- 0 when the table of transactions is full.
unfoldable pub transaction_begin : Text → Text → ℕ → M ℕ
transaction_begin actor target parent_event k =
    if leb transaction_capacity (length k.journal.transactions)
    then (0, k)
    else let id = k.journal.next_sequence in
      let previous = k.journal.current_transaction in
      let name = transaction_name id in
      let (_, r) =
        object_register (text "transaction") name (object_id (text "events") k.registry)
          (text "open") parent_event k.registry in
      let opened = new_transaction id actor target parent_event (object_revision target r) in
      let k' = record k {
        registry = r;
        journal = record k.journal {
          transactions = k.journal.transactions ++ opened ∷ [];
          current_transaction = id;
        };
      } in
      (do
        begin_event ←
            event_record_kind actor name (text "begin") event_ok parent_event
              (text "allow:transaction") (text "transaction")
        event_set_transaction previous
        pure begin_event)
        k'

-- transaction_commit and transaction_abort differ in the status, the operation, the result and the
-- policy text.
unfoldable pub finish_transaction : Text → Text → EventResult → Text → ℕ → M ℕ
finish_transaction status operation result policy id k =
    elim (transaction_find id k.journal.transactions) [
      | none ↦ (0, k)
      | some t ↦
          let previous = k.journal.current_transaction in
          let close : TransactionRecord → TransactionRecord = λ x. record x {
            committed_revision = object_revision t.target k.registry;
            status = copy_field 16 status;
          } in
          let k' = record k {
            journal = record k.journal {
              current_transaction = id;
              transactions = update_transaction id close k.journal.transactions;
            };
          } in
          let name = transaction_name id in
          (do
            event ←
                event_record_kind t.actor name operation result t.end_event policy
                  (text "transaction")
            modify
                (λ s. record s { registry = object_set_state_direct name status event s.registry })
            event_set_transaction previous
            pure event)
            k'
    ]

unfoldable pub transaction_commit : ℕ → M ℕ
transaction_commit =
    finish_transaction (text "committed") (text "commit") event_ok (text "allow:transaction")

unfoldable pub transaction_abort : ℕ → Text → M ℕ
transaction_abort id reason =
    finish_transaction (text "aborted") (text "abort") event_denied reason id

-- `event_at(index)`; the option is the null pointer.
unfoldable pub event_at : ℕ → Journal → Option Event
event_at index j =
    if ltb index j.count then get_elem? j.entries ((j.first + index) % event_capacity) else none

-- The loop of event_find, with `rounds` indices left from `index` on.
unfoldable pub find_event_from : ℕ → ℕ → ℕ → Journal → Option Event
find_event_from zero index sequence j = none
find_event_from (suc rounds) index sequence j =
    let rest = find_event_from rounds (index + 1) sequence j in
    elim (event_at index j) [
      | none ↦ rest
      | some e ↦ if e.sequence == sequence then some e else rest
    ]

unfoldable pub event_find : ℕ → Journal → Option Event
unfolding find_event_from
event_find sequence j = find_event_from j.count 0 sequence j
