-- ===== src/Prelude/Loops.antt =====
-- Counting loops.
use Prim.Native.Nat.{ℕ, zero, suc, ◌+◌, ◌≤◌, ◌<◌}
use native.Mathlib.Omega.{arith}

-- `for (i = start; i < start + rounds; i++)`
unfoldable pub for_range {ℓ} : {A : Type ℓ} → ℕ → ℕ → (ℕ → A → A) → A → A
for_range zero start body a = a
for_range (suc rounds) start body a = for_range rounds (start + 1) body (body start a)

-- What each round keeps, the loop keeps.
pub for_range_keeps {ℓ κ} :
    {A : Type ℓ} (P : A → Type κ) (rounds start : ℕ) (body : ℕ → A → A) (a : A)
    → ((i : ℕ) (x : A) → start ≤ i → i < start + rounds → P x → P (body i x))
    → P a
    → P (for_range rounds start body a)
unfolding for_range
for_range_keeps P zero start body a keeps h = h
for_range_keeps P (suc rounds) start body a keeps h =
    for_range_keeps P rounds (start + 1) body (body start a)
      (λ i x low high. keeps i x (omega arith) (omega arith))
      (keeps start a (omega arith) (omega arith) h)
