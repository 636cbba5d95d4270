-- ===== src/Memory/Search.antt =====
-- The search of page_alloc_contiguous of kernel/memory.c for a run of free pages, and the taking of
-- the run.
use glass_os.Prelude.{
  ℕ, zero, suc, ◌+◌, ◌-◌, ◌≤◌, ◌<◌, ◌≡◌, refl, ap, ◌∙◌, inl, inr, Bool, true, false, ◌&&◌, ◌||◌,
  none, some, Bool-cases, ltb, leb, arith, dec_lt,
}
use glass_os.Kernel.{Memory}
use glass_os.Memory.Bitmap.{
  IsBytes, bitmap_set, bitmap_is_set, is_set-bitmap_set, bitmap_set-IsBytes,
}
use glass_os.Memory.{page_count, all_clear, range_is_free, find_run, take_pages}

-- Only usable pages are free, and both bitmaps hold bytes.
pub record IsAllocator (m : Memory) : Type 0 where
  pub page_bytes : IsBytes m.page_bitmap
  pub usable_bytes : IsBytes m.usable_bitmap
  pub free_is_usable :
      (j : ℕ) → bitmap_is_set m.page_bitmap j ≡ false → bitmap_is_set m.usable_bitmap j ≡ true

abbrev pub in_run : ℕ → ℕ → ℕ → Bool
in_run page n j = leb page j && ltb j (page + n)

pub take_pages-IsBytes : (n page : ℕ) (bm : ℕ → ℕ) → IsBytes bm → IsBytes (take_pages n page bm)
unfolding take_pages
take_pages-IsBytes zero page bm bytes = bytes
take_pages-IsBytes (suc n) page bm bytes =
    take_pages-IsBytes n (page + 1) (bitmap_set bm page) (bitmap_set-IsBytes bm page bytes)

-- The loop over a run takes the pages of the run and no other.
pub is_set-take_pages :
    (n page : ℕ) (bm : ℕ → ℕ) (j : ℕ)
    → IsBytes bm
    → bitmap_is_set (take_pages n page bm) j ≡ (in_run page n j || bitmap_is_set bm j)
unfolding take_pages
is_set-take_pages zero page bm j bytes = ground arith
is_set-take_pages (suc n) page bm j bytes =
    is_set-take_pages n (page + 1) (bitmap_set bm page) j (bitmap_set-IsBytes bm page bytes)
    ∙ ground (arith, is_set-bitmap_set bm page j bytes)

all_clear-at :
    (n page i : ℕ) (bm : ℕ → ℕ)
    → all_clear n page bm ≡ true
    → i < n
    → bitmap_is_set bm (page + i) ≡ false
unfolding all_clear
all_clear-at zero page i bm h lt = absurd (omega arith)
all_clear-at (suc n) page zero bm h lt =
    let e : page + 0 ≡ page = omega arith in rw e (ground arith)
all_clear-at (suc n) page (suc i) bm h lt =
    let e : page + suc i ≡ page + 1 + i = omega arith in
    rw e (all_clear-at n (page + 1) i bm (ground arith) (omega arith))

all_clear_iff :
    (n page : ℕ) (bm : ℕ → ℕ)
    → ((i : ℕ) → i < n → bitmap_is_set bm (page + i) ≡ false)
    → all_clear n page bm ≡ true
unfolding all_clear
all_clear_iff zero page bm h = refl
all_clear_iff (suc n) page bm h =
    let first : bitmap_is_set bm page ≡ false =
      ap (bitmap_is_set bm) (omega arith) ∙ h 0 (omega arith) in
    rw first (
      all_clear_iff n (page + 1) bm
        (λ i lt. ap (bitmap_is_set bm) (omega arith) ∙ h (suc i) (omega arith)))

-- range_is_free finds every run of clear bits below the end of the bitmap.
pub range_is_free-clear :
    (page n : ℕ) (bm : ℕ → ℕ)
    → page + n ≤ page_count
    → ((i : ℕ) → i < n → bitmap_is_set bm (page + i) ≡ false)
    → range_is_free page n bm ≡ true
unfolding range_is_free
range_is_free-clear page n bm fits h =
    let inside : (ltb page_count page || ltb (page_count - page) n) ≡ false = ground arith in
    rw inside (all_clear_iff n page bm h)

pub range_is_free-at :
    (page n : ℕ) (bm : ℕ → ℕ)
    → range_is_free page n bm ≡ true
    → (page + n ≤ page_count) × ((i : ℕ) → i < n → bitmap_is_set bm (page + i) ≡ false)
unfolding range_is_free
range_is_free-at page n bm h = (ground arith, λ i lt. all_clear-at n page i bm (ground arith) lt)

pub find_run-some :
    (rounds page n : ℕ) (bm : ℕ → ℕ) {p : ℕ}
    → find_run rounds page n bm ≡ some p
    → (page ≤ p)
      × (range_is_free p n bm ≡ true)
      × ((q : ℕ) → page ≤ q → q < p → range_is_free q n bm ≡ false)
unfolding find_run
find_run-some zero page n bm h = cc
find_run-some (suc rounds) page n bm {p} h = elim (Bool-cases (range_is_free page n bm)) [
  | inl free ↦
      let here : page ≡ p = ground arith in
      (omega arith, rw (← here) free, λ q le lt. absurd (omega arith))
  | inr busy ↦
      let later = find_run-some rounds (page + 1) n bm {p = p} (ground arith) in
      (
        omega (arith, later.0),
        later.1,
        λ q le lt. elim (dec_lt page q) [
          | yes up ↦ later.2 q (omega arith) lt
          | no at ↦ (let same : q ≡ page = omega arith in rw same busy)
        ],
      )
]

pub find_run-none :
    (rounds page n : ℕ) (bm : ℕ → ℕ)
    → find_run rounds page n bm ≡ none
    → (q : ℕ) → page ≤ q
    → q < page + rounds
    → range_is_free q n bm ≡ false
unfolding find_run
find_run-none zero page n bm h q le lt = absurd (omega arith)
find_run-none (suc rounds) page n bm h q le lt = elim (dec_lt page q) [
  | yes up ↦ find_run-none rounds (page + 1) n bm (ground arith) q (omega arith) (omega arith)
  | no at ↦ (let same : q ≡ page = omega arith in rw same (ground arith))
]
