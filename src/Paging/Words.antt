-- ===== src/Paging/Words.antt =====
-- 64-bit words in a memory of bytes, the lowest byte first, and the bits and the address of a page
-- table entry.
use glass_os.Prelude.{
  ℕ, zero, suc, ◌+◌, ◌-◌, ◌*◌, ◌/◌, ◌%◌, ◌^◌, ◌≤◌, ◌<◌, ◌≡◌, refl, ap, ◌⊎◌, Bool, not, ◌&&◌, ltb,
  leb, ◌==◌, arith, if◌then◌else◌,
}

unfoldable pub read64 : (ℕ → ℕ) → ℕ → ℕ
read64 p a =
    p a
    + 2 ^ 8 * p (a + 1)
    + 2 ^ 16 * p (a + 2)
    + 2 ^ 24 * p (a + 3)
    + 2 ^ 32 * p (a + 4)
    + 2 ^ 40 * p (a + 5)
    + 2 ^ 48 * p (a + 6)
    + 2 ^ 56 * p (a + 7)

-- The byte of a value at a place of its word.
unfoldable pub byte_of : ℕ → ℕ → ℕ
byte_of value zero = value % 256
byte_of value (suc n) = byte_of (value / 256) n

unfoldable pub write64 : ℕ → ℕ → (ℕ → ℕ) → ℕ → ℕ
write64 a value p i = if leb a i && ltb i (a + 8) then byte_of value (i - a) else p i

-- `value | weight` for one bit, if the flag is set
unfoldable pub or_bit : ℕ → Bool → ℕ → ℕ
or_bit weight flag value = if flag && value / weight % 2 == 0 then value + weight else value

-- `(value & weight) != 0` for one bit
unfoldable pub bit : ℕ → ℕ → Bool
bit weight value = not (value / weight % 2 == 0)

-- `entry & 0x000FFFFFFFFFF000`
unfoldable pub frame_of : ℕ → ℕ
frame_of entry = entry % 2 ^ 52 / 4096 * 4096

-- The byte at `i`, which is the place `j` of the word.
write64-at :
    (a value i j : ℕ) (p : ℕ → ℕ) → i ≡ a + j → j < 8 → write64 a value p i ≡ byte_of value j
unfolding write64
write64-at a value i j p at h =
    let e : i - a ≡ j = omega arith in ground (arith, ap (byte_of value) e)

write64-outside : (a value i : ℕ) (p : ℕ → ℕ) → (i < a) ⊎ (a + 8 ≤ i) → write64 a value p i ≡ p i
unfolding write64
write64-outside a value i p h = ground arith

byte_of_sum :
    (v : ℕ)
    → byte_of v 0
        + 2 ^ 8 * byte_of v 1
        + 2 ^ 16 * byte_of v 2
        + 2 ^ 24 * byte_of v 3
        + 2 ^ 32 * byte_of v 4
        + 2 ^ 40 * byte_of v 5
        + 2 ^ 48 * byte_of v 6
        + 2 ^ 56 * byte_of v 7
      ≡ v % 2 ^ 64
unfolding byte_of
byte_of_sum v = omega arith

-- A word that was written is read back.
pub read64-write64_self : (a v : ℕ) (p : ℕ → ℕ) → read64 (write64 a v p) a ≡ v % 2 ^ 64
unfolding read64
read64-write64_self a v p = omega (
  arith,
  byte_of_sum v,
  write64-at a v a 0 p (omega arith) (omega arith),
  write64-at a v (a + 1) 1 p refl (omega arith),
  write64-at a v (a + 2) 2 p refl (omega arith),
  write64-at a v (a + 3) 3 p refl (omega arith),
  write64-at a v (a + 4) 4 p refl (omega arith),
  write64-at a v (a + 5) 5 p refl (omega arith),
  write64-at a v (a + 6) 6 p refl (omega arith),
  write64-at a v (a + 7) 7 p refl (omega arith),
)

-- Two words that do not overlap.
abbrev pub Apart : ℕ → ℕ → Type 0
Apart a b = (a + 8 ≤ b) ⊎ (b + 8 ≤ a)

pub read64-write64_other :
    (a v b : ℕ) (p : ℕ → ℕ) → Apart a b → read64 (write64 a v p) b ≡ read64 p b
unfolding read64
read64-write64_other a v b p h = omega (
  arith,
  write64-outside a v b p (ground arith),
  write64-outside a v (b + 1) p (ground arith),
  write64-outside a v (b + 2) p (ground arith),
  write64-outside a v (b + 3) p (ground arith),
  write64-outside a v (b + 4) p (ground arith),
  write64-outside a v (b + 5) p (ground arith),
  write64-outside a v (b + 6) p (ground arith),
  write64-outside a v (b + 7) p (ground arith),
)
