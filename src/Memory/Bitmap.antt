-- ===== src/Memory/Bitmap.antt =====
-- Bitmaps of pages: bytes, with one bit for a page (bitmap_set, bitmap_clear, bitmap_is_set and
-- their usable_ twins of kernel/memory.c).
use Prim.Native.Nat.{bit_and, bit_or}
use glass_os.Prelude.{
  ℕ, zero, suc, ◌+◌, ◌-◌, ◌*◌, ◌/◌, ◌%◌, ◌^◌, ◌<◌, ◌≡◌, refl, sym, Bool, true, false, not, ◌&&◌,
  ◌||◌, ltb, ◌==◌, if◌then◌else◌, arith,
}

-- `array[index] = value`
abbrev pub update : (ℕ → ℕ) → ℕ → ℕ → ℕ → ℕ
update f index value j = if j == index then value else f j

unfoldable pub bitmap_set : (ℕ → ℕ) → ℕ → ℕ → ℕ
bitmap_set bm page = update bm (page / 8) (bit_or (bm (page / 8)) (2 ^ (page % 8)))

unfoldable pub bitmap_clear : (ℕ → ℕ) → ℕ → ℕ → ℕ
bitmap_clear bm page = update bm (page / 8) (bit_and (bm (page / 8)) (255 - 2 ^ (page % 8)))

unfoldable pub bitmap_is_set : (ℕ → ℕ) → ℕ → Bool
bitmap_is_set bm page = not (bit_and (bm (page / 8)) (2 ^ (page % 8)) == 0)

-- Every entry is a byte.
abbrev pub IsBytes : (ℕ → ℕ) → Type 0
IsBytes bm = (i : ℕ) → bm i < 256

abbrev test_bit : ℕ → ℕ → Bool
test_bit byte q = not (bit_and byte (2 ^ q) == 0)

abbrev iff : Bool → Bool → Bool
iff true b = b
iff false b = not b

-- A test passes at each of the first `n` numbers.
passes : (ℕ → Bool) → ℕ → Bool
passes test zero = true
passes test (suc k) = test k && passes test k

passes_at : (test : ℕ → Bool) (k x : ℕ) → x < k → passes test k ≡ true → test x ≡ true
unfolding passes
passes_at test zero x in_range all = elim in_range [ ]
passes_at test (suc k) x in_range all = ground (arith, passes_at test k x)

-- What a byte shows once bit `p` was written, at bit `q`.
set_case : ℕ → ℕ → ℕ → Bool
set_case b p q =
    ltb (bit_or b (2 ^ p)) 256 && iff (test_bit (bit_or b (2 ^ p)) q) (p == q || test_bit b q)

clear_case : ℕ → ℕ → ℕ → Bool
clear_case b p q =
    ltb (bit_and b (255 - 2 ^ p)) 256
    && iff (test_bit (bit_and b (255 - 2 ^ p)) q) (not (p == q) && test_bit b q)

abbrev over_cases : (ℕ → ℕ → ℕ → Bool) → ℕ → Bool
over_cases f x = f (x / 64) (x / 8 % 8) (x % 8)

set_table : passes (over_cases set_case) 16384 ≡ true
unfolding passes set_case
set_table = refl

clear_table : passes (over_cases clear_case) 16384 ≡ true
unfolding passes clear_case
clear_table = refl

over_cases_sound :
    (f : ℕ → ℕ → ℕ → Bool) (b p q : ℕ)
    → passes (over_cases f) 16384 ≡ true
    → b < 256
    → p < 8
    → q < 8
    → f b p q ≡ true
over_cases_sound f b p q table hb hp hq =
    let at : over_cases f (b * 64 + p * 8 + q) ≡ true =
      passes_at (over_cases f) 16384 (b * 64 + p * 8 + q) (omega arith) table in
    let eb : (b * 64 + p * 8 + q) / 64 ≡ b = omega arith in
    let ep : (b * 64 + p * 8 + q) / 8 % 8 ≡ p = omega arith in
    let eq : (b * 64 + p * 8 + q) % 8 ≡ q = omega arith in rw (eb, ep, eq) at at

iff-eq : (a b : Bool) → iff a b ≡ true → a ≡ b
iff-eq true b h = sym h
iff-eq false true h = ground arith
iff-eq false false h = refl

==-pages : (i j : ℕ) → (i == j) ≡ (j / 8 == i / 8 && i % 8 == j % 8)
==-pages i j = ground arith

-- In a bitmap of 0xFF every page is set.
pub is_set-full : (page : ℕ) → bitmap_is_set (λ i. 255) page ≡ true
unfolding bitmap_is_set passes
is_set-full page = passes_at (test_bit 255) 8 (page % 8) (omega arith) refl

-- Setting the bit of a page sets that bit and no other, and keeps the bitmap one of bytes.
pub is_set-bitmap_set :
    (bm : ℕ → ℕ) (i j : ℕ)
    → IsBytes bm
    → bitmap_is_set (bitmap_set bm i) j ≡ (i == j || bitmap_is_set bm j)
unfolding bitmap_is_set bitmap_set set_case
is_set-bitmap_set bm i j bytes = ground (
  arith,
  over_cases_sound set_case (bm (i / 8)) (i % 8) (j % 8) set_table (bytes (i / 8)) (omega arith)
      (omega arith),
)

-- Clearing it clears that bit and no other.
pub is_set-bitmap_clear :
    (bm : ℕ → ℕ) (i j : ℕ)
    → IsBytes bm
    → bitmap_is_set (bitmap_clear bm i) j ≡ (not (i == j) && bitmap_is_set bm j)
unfolding bitmap_is_set bitmap_clear clear_case
is_set-bitmap_clear bm i j bytes = ground (
  arith,
  over_cases_sound clear_case (bm (i / 8)) (i % 8) (j % 8) clear_table (bytes (i / 8)) (omega arith)
      (omega arith),
)

pub bitmap_set-IsBytes : (bm : ℕ → ℕ) (i : ℕ) → IsBytes bm → IsBytes (bitmap_set bm i)
unfolding bitmap_set set_case
bitmap_set-IsBytes bm i bytes j = ground (
  arith,
  bytes j,
  over_cases_sound set_case (bm (i / 8)) (i % 8) 0 set_table (bytes (i / 8)) (omega arith)
      (omega arith),
)

pub bitmap_clear-IsBytes : (bm : ℕ → ℕ) (i : ℕ) → IsBytes bm → IsBytes (bitmap_clear bm i)
unfolding bitmap_clear clear_case
bitmap_clear-IsBytes bm i bytes j = ground (
  arith,
  bytes j,
  over_cases_sound clear_case (bm (i / 8)) (i % 8) 0 clear_table (bytes (i / 8)) (omega arith)
      (omega arith),
)
