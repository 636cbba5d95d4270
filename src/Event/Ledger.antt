-- ===== src/Event/Ledger.antt =====
-- The table of transactions of kernel/event.c, and a journal with its table in order.
use glass_os.Prelude.{
  ℕ, ◌≤◌, ◌<◌, ◌≡◌, some, List, [], ◌∷◌, ◌++◌, length, arith, ◌==◌, if◌then◌else◌,
}
use mathlib.Core.Option
use glass_os.Kernel.{Journal, TransactionRecord}
use glass_os.Event.{transaction_capacity, transaction_find, update_transaction}
use glass_os.Event.Sequence.{IsJournal}

-- The ids of the table lie between 1 and the next sequence.
abbrev pub Below : ℕ → List TransactionRecord → Type 0
Below n [] = Unit {0}
Below n (t ∷ ts) = (0 < t.id) × (t.id < n) × Below n ts

pub Below-mono : (m n : ℕ) (ts : List TransactionRecord) → m ≤ n → Below m ts → Below n ts
Below-mono m n [] le h = tt
Below-mono m n (t ∷ ts) le h = (h.0, omega arith, Below-mono m n ts le h.2)

pub Below-snoc :
    (n : ℕ) (ts : List TransactionRecord) (t : TransactionRecord)
    → Below n ts
    → 0 < t.id
    → t.id < n
    → Below n (ts ++ t ∷ [])
Below-snoc n [] t h p q = (p, q, tt)
Below-snoc n (x ∷ ts) t h p q = (h.0, h.1, Below-snoc n ts t h.2 p q)

abbrev pub KeepsId : (TransactionRecord → TransactionRecord) → Type 0
KeepsId f = (t : TransactionRecord) → (f t).id ≡ t.id

pub Below-update :
    (n id : ℕ) (f : TransactionRecord → TransactionRecord) (ts : List TransactionRecord)
    → KeepsId f
    → Below n ts
    → Below n (update_transaction id f ts)
unfolding update_transaction
Below-update n id f [] keep h = tt
Below-update n id f (t ∷ ts) keep h = ground (arith, keep t, Below-update n id f ts keep)

-- A write to the record of one id is read back under that id, and under no other.
pub find-update_transaction :
    (id id' : ℕ) (f : TransactionRecord → TransactionRecord) (ts : List TransactionRecord)
    → KeepsId f
    → transaction_find id' (update_transaction id f ts)
      ≡ (if id == id' then Option.map f (transaction_find id' ts) else transaction_find id' ts)
unfolding transaction_find update_transaction
find-update_transaction id id' f [] keep = ground arith
find-update_transaction id id' f (t ∷ ts) keep =
    ground (arith, keep t, find-update_transaction id id' f ts keep)

-- The id of a new transaction is above every other.
pub update_transaction-fresh :
    (id : ℕ) (f : TransactionRecord → TransactionRecord) (ts : List TransactionRecord)
    (t : TransactionRecord)
    → Below id ts
    → t.id ≡ id
    → update_transaction id f (ts ++ t ∷ []) ≡ ts ++ f t ∷ []
unfolding update_transaction
update_transaction-fresh id f [] t h e = ground arith
update_transaction-fresh id f (x ∷ ts) t h e = ground (arith, update_transaction-fresh id f ts t)

pub transaction_find-fresh :
    (id : ℕ) (ts : List TransactionRecord) (t : TransactionRecord)
    → Below id ts
    → t.id ≡ id
    → transaction_find id (ts ++ t ∷ []) ≡ some t
unfolding transaction_find
transaction_find-fresh id [] t h e = ground arith
transaction_find-fresh id (x ∷ ts) t h e = ground (arith, transaction_find-fresh id ts t)

pub record IsLedger (j : Journal) : Type 0 where
  pub journal : IsJournal j
  pub ids : Below j.next_sequence j.transactions
  pub slots : length j.transactions ≤ transaction_capacity
