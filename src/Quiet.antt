-- ===== src/Quiet.antt =====
-- Operations that leave the configuration, the policy, the memory, the page tables, the processes and
-- the keyboard alone: they write to the registry, the journal and the screen, and to the two ports.
pub mod Bounded
use glass_os.Prelude.{
  ℕ, ◌<◌, ◌≡◌, ◌++◌, refl, ap, ◌∙◌, inl, inr, Bool, true, false, Option, none, some, Option-cases,
  List, [], ◌∷◌, arith, leb, length, Bool-cases, text, if◌then◌else◌,
}
use glass_os.Text.{Text}
use glass_os.Kernel.{Kernel, EventResult, Object, Registry, Journal, TransactionRecord}
use glass_os.Screen.{Screen}
use glass_os.Screen.Cursor.{Fits}
use glass_os.Object.{object_register, object_set_state_direct, object_find, update_object, revise}
use glass_os.Event.Ledger.{KeepsId}
use Bounded.{
  Evolves, Evolves-refl, Evolves-trans, print_bytes-Evolves, record_entry-Evolves, relabel-Evolves,
  register-Evolves, update_object-Evolves, add_transaction-Evolves, update_transaction-Evolves,
}
use glass_os.Console.{Arg, printf, print_bytes}
use glass_os.Console.Output.{HasPolicy, Prints, print_bytes_lem, printf-Prints}
use glass_os.Event.{
  event_record, event_record_kind, event_set_current, event_set_transaction, transaction_begin,
  transaction_find, transaction_name, update_transaction, finish_transaction, transaction_commit,
  transaction_abort, object_update_state, transaction_capacity,
}
use glass_os.Policy.{PolicyDecision, policy_check}
use glass_os.Policy.Decide.{loaded-ready}
use glass_os.Ramfs.{ramfs_lookup, find_file, files}

pub leb_false→lt : (a b : ℕ) → leb a b ≡ false → b < a
leb_false→lt a b h = ground arith

pub record Quiet (k k' : Kernel) : Type 0 where
  pub policy : k'.policy ≡ k.policy
  pub config : k'.config ≡ k.config
  pub memory : k'.memory ≡ k.memory
  pub ticks : k'.system_ticks ≡ k.system_ticks
  pub keyboard : k'.keyboard ≡ k.keyboard
  pub paging : k'.paging ≡ k.paging
  pub users : k'.users ≡ k.users
  pub evolves : Evolves k k'

pub Quiet-refl : {k : Kernel} → Quiet k k
Quiet-refl = record {
  policy = refl;
  config = refl;
  memory = refl;
  ticks = refl;
  keyboard = refl;
  paging = refl;
  users = refl;
  evolves = Evolves-refl;
}

pub Quiet-trans : {k k' k'' : Kernel} → Quiet k k' → Quiet k' k'' → Quiet k k''
Quiet-trans a b = record {
  policy = b.policy ∙ a.policy;
  config = b.config ∙ a.config;
  memory = b.memory ∙ a.memory;
  ticks = b.ticks ∙ a.ticks;
  keyboard = b.keyboard ∙ a.keyboard;
  paging = b.paging ∙ a.paging;
  users = b.users ∙ a.users;
  evolves = Evolves-trans a.evolves b.evolves;
}

-- Only the registry, the journal, the two ports and the screen differ.
pub Quiet_fields :
    (k : Kernel) (r : Registry) (j : Journal) (serial console : Text) (s : Screen)
    → Evolves k
        (record k { registry = r; journal = j; serial = serial; console = console; screen = s })
    → Quiet k
        (record k { registry = r; journal = j; serial = serial; console = console; screen = s })
Quiet_fields k r j serial console s e = record {
  policy = refl;
  config = refl;
  memory = refl;
  ticks = refl;
  keyboard = refl;
  paging = refl;
  users = refl;
  evolves = e;
}

pub print_bytes-Quiet : (s : Text) (k : Kernel) → Quiet k (print_bytes s k)
print_bytes-Quiet s k =
    let e : Evolves k (print_bytes s k) = print_bytes-Evolves s k in
    rw (print_bytes_lem s k)
      (Quiet_fields k k.registry k.journal _ _ _ (rw (print_bytes_lem s k) at e))

module _ {k s : Kernel} (q : Quiet k s) where
  pub Prints-Quiet : {t : Kernel} → Prints s t → Quiet k t
  Prints-Quiet (Prints.printed bytes e) = rw e (Quiet-trans q (print_bytes-Quiet bytes s))

  pub printf-Quiet : (f : Text) (args : List Arg) → Quiet k (printf f args s).1
  printf-Quiet f args = Prints-Quiet (printf-Prints f args s)

  pub event_record_kind-Quiet :
      (actor target operation : Text) (result : EventResult) (parent : ℕ) (policy kind : Text)
      → Quiet k (event_record_kind actor target operation result parent policy kind s).1
  unfolding event_record_kind
  event_record_kind-Quiet actor target operation result parent policy kind =
      Quiet-trans q (Quiet_fields s s.registry _ _ s.console s.screen (record_entry-Evolves _ _ s))

  pub event_record-Quiet :
      (actor target operation : Text) (result : EventResult) (parent : ℕ) (policy : Text)
      → Quiet k (event_record actor target operation result parent policy s).1
  unfolding event_record
  event_record-Quiet actor target operation result parent policy =
      event_record_kind-Quiet actor target operation result parent policy (text "action")

  pub register-Quiet :
      (type name : Text) (parent : ℕ) (state : Text) (event : ℕ)
      → Quiet k
          (record s { registry = (object_register type name parent state event s.registry).1 })
  register-Quiet type name parent state event = Quiet-trans q (
      Quiet_fields s _ s.journal s.serial s.console s.screen
        (register-Evolves type name parent state event s))

  pub update_object-Quiet :
      (name : Text) (f : Object → Object)
      → ((o : Object) → (f o).id ≡ o.id)
      → Quiet k (record s { registry = update_object name f s.registry })
  update_object-Quiet name f keep =
      Quiet-trans q (
        Quiet_fields s _ s.journal s.serial s.console s.screen
          (update_object-Evolves name f s keep))

  pub set_state-Quiet :
      (name state : Text) (event : ℕ)
      → Quiet k (record s { registry = object_set_state_direct name state event s.registry })
  unfolding object_set_state_direct
  set_state-Quiet name state event = update_object-Quiet name _ (λ o. refl)

  pub set_current-Quiet : (sequence : ℕ) → Quiet k (event_set_current sequence s).1
  set_current-Quiet sequence = Quiet-trans q (
      Quiet_fields s s.registry _ s.serial s.console s.screen
        (relabel-Evolves sequence s.journal.current_transaction s))

  pub set_transaction-Quiet : (id : ℕ) → Quiet k (event_set_transaction id s).1
  set_transaction-Quiet id = Quiet-trans q (
      Quiet_fields s s.registry _ s.serial s.console s.screen
        (relabel-Evolves s.journal.current_sequence id s))

  -- The screen is drawn, with its cursor in place.
  pub screen-Quiet : (t : Screen) → (Fits s.screen → Fits t) → Quiet k (record s { screen = t })
  screen-Quiet t keeps = Quiet-trans q (
      Quiet_fields s s.registry s.journal s.serial s.console t (record {
        bounded = λ v. record {
          ring = v.ring;
          slots = v.slots;
          registry = v.registry;
          cursor = keeps v.cursor;
        };
        found = λ id f. f;
      }))

  add_transaction-Quiet :
      (t : TransactionRecord) (tx : ℕ)
      → length s.journal.transactions < transaction_capacity
      → Quiet k (record s {
        journal = record s.journal {
          transactions = s.journal.transactions ++ t ∷ [];
          current_transaction = tx;
        };
      })
  add_transaction-Quiet t tx room = Quiet-trans q (
      Quiet_fields s s.registry _ s.serial s.console s.screen (add_transaction-Evolves t tx s room))

  update_transaction-Quiet :
      (id : ℕ) (f : TransactionRecord → TransactionRecord) (tx : ℕ)
      → KeepsId f
      → Quiet k (record s {
        journal = record s.journal {
          current_transaction = tx;
          transactions = update_transaction id f s.journal.transactions;
        };
      })
  update_transaction-Quiet id f tx keep = Quiet-trans q (
      Quiet_fields s s.registry _ s.serial s.console s.screen
        (update_transaction-Evolves id f tx s keep))

module _ {k s : Kernel} (q : Quiet k s) where
  pub transaction_begin-Quiet :
      (actor target : Text) (parent : ℕ) → Quiet k (transaction_begin actor target parent s).1
  unfolding transaction_begin
  transaction_begin-Quiet actor target parent =
      elim (Bool-cases (leb transaction_capacity (length s.journal.transactions))) [
        | inl full ↦ rw full q
        | inr room ↦
            let inside = register-Quiet q (text "transaction") _ _ (text "open") parent in
            let added =
              add_transaction-Quiet inside _ s.journal.next_sequence (leb_false→lt _ _ room) in
            rw room (
              set_transaction-Quiet (event_record_kind-Quiet added _ _ _ _ _ _ _)
                s.journal.current_transaction)
      ]

  pub finish_transaction-Quiet :
      (status operation : Text) (result : EventResult) (policy : Text) (id : ℕ)
      → Quiet k (finish_transaction status operation result policy id s).1
  unfolding finish_transaction
  finish_transaction-Quiet status operation result policy id =
      elim (Option-cases (transaction_find id s.journal.transactions)) [
        | inl e ↦ rw (finish_transaction, e) q
        | inr (t, e) ↦
            let closing = update_transaction-Quiet q id _ id (λ x. refl) in
            rw (finish_transaction, e)
              (set_transaction-Quiet
                (set_state-Quiet (event_record_kind-Quiet closing _ _ _ _ _ _ _)
                  (transaction_name id) status _)
                s.journal.current_transaction)
      ]

  pub object_update_state-Quiet : (name state : Text) → Quiet k (object_update_state name state s).1
  unfolding object_update_state
  object_update_state-Quiet name state = elim (Option-cases (object_find name s.registry)) [
    | inl e ↦ rw (object_update_state, e) q
    | inr (o, e) ↦
        let revised = update_object-Quiet q name (revise state) (λ x. refl) in
        rw (object_update_state, e)
          (update_object-Quiet (event_record_kind-Quiet revised _ _ _ _ _ _ _) name _ (λ x. refl))
  ]

  pub transaction_commit-Quiet : (id : ℕ) → Quiet k (transaction_commit id s).1
  unfolding transaction_commit
  transaction_commit-Quiet id = finish_transaction-Quiet _ _ _ _ id

  pub transaction_abort-Quiet : (id : ℕ) (reason : Text) → Quiet k (transaction_abort id reason s).1
  unfolding transaction_abort
  transaction_abort-Quiet id reason = finish_transaction-Quiet _ _ _ reason id

  pub ramfs_lookup-Quiet : (path : Text) → Quiet k (ramfs_lookup path s).1
  unfolding ramfs_lookup
  ramfs_lookup-Quiet path = elim (Option-cases (find_file path files)) [
    | inl e ↦ rw (ramfs_lookup, e) (event_record_kind-Quiet q _ _ _ _ _ _ _)
    | inr (f, e) ↦ rw (ramfs_lookup, e) (event_record_kind-Quiet q _ _ _ _ _ _ _)
  ]

  pub policy_check-Quiet :
      (source actor target operation : Text)
      → k.policy.policy_loaded ≡ true
      → Quiet k (policy_check source actor target operation s).1
  unfolding policy_check
  policy_check-Quiet source actor target operation ready =
      rw (loaded-ready source s.policy (ap (λ t. t.policy_loaded) q.policy ∙ ready))
        (event_record_kind-Quiet q _ _ _ _ _ _ _)

pub if-Quiet :
    (b : Bool) {k : Kernel} (x y : Bool × Kernel)
    → Quiet k x.1
    → Quiet k y.1
    → Quiet k (if b then x else y).1
if-Quiet true x y p q = p
if-Quiet false x y p q = q

pub if_unit-Quiet :
    (b : Bool) {k : Kernel} (x y : Unit {0} × Kernel)
    → Quiet k x.1
    → Quiet k y.1
    → Quiet k (if b then x else y).1
if_unit-Quiet true x y p q = p
if_unit-Quiet false x y p q = q

-- With a policy loaded, it stays so.
pub HasPolicy-Quiet : {k s : Kernel} → Quiet k s → HasPolicy k → HasPolicy s
HasPolicy-Quiet q h = ap (λ t. t.policy_loaded) q.policy ∙ h
