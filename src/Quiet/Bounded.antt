-- ===== src/Quiet/Bounded.antt =====
-- Every table within its bounds: the ring of events, the table of transactions and the registry
-- (kernel/event.c and kernel/object.c), and the cursor on the screen (kernel/vga.c).
use glass_os.Prelude.{
  ℕ, ◌≤◌, ◌<◌, ◌≡◌, refl, ◌∙◌, inl, inr, some, Bool-cases, List, [], ◌∷◌, ◌++◌, length,
  length-append, ◌==◌, arith,
}
use glass_os.Text.{Text}
use glass_os.Screen.{Screen, put_char}
use glass_os.Screen.Cursor.{Fits, put_char-Safe}
use glass_os.Kernel.{Kernel, Event, Journal, Object, TransactionRecord}
use glass_os.Console.{print_bytes}
use glass_os.Console.Output.{put_chars, print_bytes_lem}
use glass_os.Object.{object_register, update_object}
use glass_os.Object.Ids.{IsValid, object_register-IsValid, update_object-IsValid}
use glass_os.Event.{
  transaction_capacity, transaction_find, update_transaction, push_entry, record_entry,
  set_end_event,
}
use glass_os.Event.Ring.{IsRing, push_entry-IsRing}
use glass_os.Event.Ledger.{KeepsId, find-update_transaction}
use glass_os.Event.Finish.{length-update_transaction}

pub record IsBounded (k : Kernel) : Type 0 where
  pub ring : IsRing k.journal
  pub slots : length k.journal.transactions ≤ transaction_capacity
  pub registry : IsValid k.registry
  pub cursor : Fits k.screen

-- The table has a record of the transaction.
abbrev pub IsKnown : ℕ → List TransactionRecord → Type 0
IsKnown id ts = (t : TransactionRecord) × (transaction_find id ts ≡ some t)

-- The bounds are kept, and so are the records of transactions.
pub record Evolves (k k' : Kernel) : Type 0 where
  pub bounded : IsBounded k → IsBounded k'
  pub found : (id : ℕ) → IsKnown id k.journal.transactions → IsKnown id k'.journal.transactions

pub Evolves-refl : {k : Kernel} → Evolves k k
Evolves-refl = record { bounded = λ b. b; found = λ id f. f }

pub Evolves-trans : {k k' k'' : Kernel} → Evolves k k' → Evolves k' k'' → Evolves k k''
Evolves-trans a b = record {
  bounded = λ v. b.bounded (a.bounded v);
  found = λ id f. b.found id (a.found id f);
}

pub IsKnown-update :
    (id other : ℕ) (f : TransactionRecord → TransactionRecord) (ts : List TransactionRecord)
    → KeepsId f
    → IsKnown other ts
    → IsKnown other (update_transaction id f ts)
IsKnown-update id other f ts keep (t, e) = elim (Bool-cases (id == other)) [
  | inl same ↦ (f t, find-update_transaction id other f ts keep ∙ rw (same, e))
  | inr differs ↦ (t, find-update_transaction id other f ts keep ∙ rw (differs, e))
]

IsKnown-append : (id : ℕ) (ts us : List TransactionRecord) → IsKnown id ts → IsKnown id (ts ++ us)
unfolding transaction_find
IsKnown-append id [] us (t, e) = absurd (cc)
IsKnown-append id (x ∷ ts) us (t, e) = elim (Bool-cases (x.id == id)) [
  | inl same ↦ (x, rw same refl)
  | inr differs ↦ let (u, e') = IsKnown-append id ts us (t, rw differs at e) in (u, rw differs e')
]

put_chars-Fits : (s : Text) (t : Screen) → Fits t → Fits (put_chars s t)
unfolding put_chars
put_chars-Fits [] t fits = fits
put_chars-Fits (c ∷ cs) t fits = put_chars-Fits cs (put_char c t) (put_char-Safe c t fits).fits

pub print_bytes-Evolves : (s : Text) (k : Kernel) → Evolves k (print_bytes s k)
print_bytes-Evolves s k = rw (print_bytes_lem s k) (record {
  bounded = λ v. record {
    ring = v.ring;
    slots = v.slots;
    registry = v.registry;
    cursor = put_chars-Fits s k.screen v.cursor;
  };
  found = λ id f. f;
})

IsRing-same :
    (j j' : Journal)
    → j'.entries ≡ j.entries
    → j'.first ≡ j.first
    → j'.count ≡ j.count
    → IsRing j
    → IsRing j'
IsRing-same j j' e f c v = record {
  whole = rw e v.whole;
  first_in = rw f v.first_in;
  count_in = rw c v.count_in;
}

-- An event is recorded.
pub record_entry-Evolves :
    (e : Event) (serial : Text) (k : Kernel)
    → Evolves k (record k { journal = record_entry e k.journal; serial = serial })
unfolding record_entry
record_entry-Evolves e serial k = record {
  bounded = λ v. record {
    ring =
        IsRing-same (push_entry e k.journal) (record_entry e k.journal) refl refl refl
          (push_entry-IsRing e v.ring);
    slots = omega (
      arith,
      v.slots,
      length-update_transaction e.transaction_id (set_end_event e.sequence) k.journal.transactions,
    );
    registry = v.registry;
    cursor = v.cursor;
  };
  found = λ id f.
      IsKnown-update e.transaction_id id (set_end_event e.sequence) k.journal.transactions
        (λ t. refl) f;
}

-- The event and the transaction that are current change.
pub relabel-Evolves :
    (current tx : ℕ) (k : Kernel)
    → Evolves k (record k {
      journal = record k.journal { current_sequence = current; current_transaction = tx };
    })
relabel-Evolves current tx k = record {
  bounded = λ v. record {
    ring = record { whole = v.ring.whole; first_in = v.ring.first_in; count_in = v.ring.count_in };
    slots = v.slots;
    registry = v.registry;
    cursor = v.cursor;
  };
  found = λ id f. f;
}

-- An object is registered.
pub register-Evolves :
    (type name : Text) (parent : ℕ) (state : Text) (event : ℕ) (k : Kernel)
    → Evolves k
        (record k { registry = (object_register type name parent state event k.registry).1 })
register-Evolves type name parent state event k = record {
  bounded = λ v. record {
    ring = v.ring;
    slots = v.slots;
    registry = object_register-IsValid type name parent state event k.registry v.registry;
    cursor = v.cursor;
  };
  found = λ id f. f;
}

pub update_object-Evolves :
    (name : Text) (f : Object → Object) (k : Kernel)
    → ((o : Object) → (f o).id ≡ o.id)
    → Evolves k (record k { registry = update_object name f k.registry })
update_object-Evolves name f k keep = record {
  bounded = λ v. record {
    ring = v.ring;
    slots = v.slots;
    registry = update_object-IsValid name f k.registry keep v.registry;
    cursor = v.cursor;
  };
  found = λ id h. h;
}

-- A transaction is added to a table with room, and one is updated.
pub add_transaction-Evolves :
    (t : TransactionRecord) (tx : ℕ) (k : Kernel)
    → length k.journal.transactions < transaction_capacity
    → Evolves k (record k {
      journal = record k.journal {
        transactions = k.journal.transactions ++ t ∷ [];
        current_transaction = tx;
      };
    })
add_transaction-Evolves t tx k room = record {
  bounded = λ v. record {
    ring = record { whole = v.ring.whole; first_in = v.ring.first_in; count_in = v.ring.count_in };
    slots = omega (arith, length-append k.journal.transactions (t ∷ []));
    registry = v.registry;
    cursor = v.cursor;
  };
  found = λ id f. IsKnown-append id k.journal.transactions (t ∷ []) f;
}

pub update_transaction-Evolves :
    (id : ℕ) (f : TransactionRecord → TransactionRecord) (tx : ℕ) (k : Kernel)
    → KeepsId f
    → Evolves k (record k {
      journal = record k.journal {
        current_transaction = tx;
        transactions = update_transaction id f k.journal.transactions;
      };
    })
update_transaction-Evolves id f tx k keep = record {
  bounded = λ v. record {
    ring = record { whole = v.ring.whole; first_in = v.ring.first_in; count_in = v.ring.count_in };
    slots = omega (arith, v.slots, length-update_transaction id f k.journal.transactions);
    registry = v.registry;
    cursor = v.cursor;
  };
  found = λ other h. IsKnown-update id other f k.journal.transactions keep h;
}

-- The three parts that the bounds are about are the same.
abbrev pub SameTables : Kernel → Kernel → Type 0
SameTables k k' = (k'.registry ≡ k.registry) × (k'.journal ≡ k.journal) × (k'.screen ≡ k.screen)

pub IsBounded-same : {k k' : Kernel} → SameTables k k' → IsBounded k → IsBounded k'
IsBounded-same (r, j, s) v = record {
  ring = rw j v.ring;
  slots = rw j v.slots;
  registry = rw r v.registry;
  cursor = rw s v.cursor;
}

pub Evolves-same : {k k' : Kernel} → SameTables k k' → Evolves k k'
Evolves-same (r, j, s) = record { bounded = IsBounded-same (r, j, s); found = λ id f. rw j f }

-- What happened to the tables happened in a state with the same ones too.
pub Evolves-alike :
    {k s k' s' : Kernel} → SameTables k' k → SameTables s s' → Evolves k s → Evolves k' s'
Evolves-alike a b e = Evolves-trans (Evolves-same a) (Evolves-trans e (Evolves-same b))
