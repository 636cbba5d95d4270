-- ===== src/Memory/Count.antt =====
-- The number of free pages that page_allocator_free_pages of kernel/memory.c reports.
use glass_os.Prelude.{
  ℕ, zero, suc, ◌+◌, ◌-◌, ◌≤◌, ◌<◌, ◌≡◌, ◌≢◌, refl, ap, ◌⊎◌, inl, inr, true, false, Bool-cases,
  ◌==◌, arith,
}
use glass_os.Kernel.{Kernel, Memory}
use glass_os.Memory.Bitmap.{
  IsBytes, bitmap_set, bitmap_is_set, is_set-bitmap_set, bitmap_set-IsBytes,
}
use glass_os.Memory.{
  page_count, first_page, take_pages, count_free, page_allocator_free_pages, page_alloc_contiguous,
}
use glass_os.Memory.Search.{IsAllocator}
use glass_os.Memory.Pages.{page_alloc_contiguous_lem}

abbrev with_bitmap : Memory → (ℕ → ℕ) → Memory
with_bitmap m bm = record m { page_bitmap = bm }

-- Taking a page outside a stretch does not change the count of the stretch.
count-set_outside :
    (rounds page p : ℕ) (m : Memory)
    → IsBytes m.page_bitmap
    → p < page
    → count_free rounds page (with_bitmap m (bitmap_set m.page_bitmap p)) ≡ count_free rounds page m
unfolding count_free
count-set_outside zero page p m bytes out = refl
count-set_outside (suc rounds) page p m bytes out = ground (
  arith,
  is_set-bitmap_set m.page_bitmap p page bytes,
  count-set_outside rounds (page + 1) p m bytes,
)

-- Taking a free, usable page of the stretch makes the count one less.
count-set :
    (rounds page p : ℕ) (m : Memory)
    → IsBytes m.page_bitmap
    → page ≤ p
    → p < page + rounds
    → bitmap_is_set m.page_bitmap p ≡ false
    → bitmap_is_set m.usable_bitmap p ≡ true
    → count_free rounds page (with_bitmap m (bitmap_set m.page_bitmap p)) + 1
      ≡ count_free rounds page m
unfolding count_free
count-set zero page p m bytes le lt free usable = absurd (omega arith)
count-set (suc rounds) page p m bytes le lt free usable = elim (Bool-cases (page == p)) [
  | inl e ↦
      let same : p ≡ page = ground arith in
      ground (
        arith,
        same,
        is_set-bitmap_set m.page_bitmap p page bytes,
        count-set_outside rounds (page + 1) p m bytes,
      )
  | inr e ↦
      ground
        (arith, is_set-bitmap_set m.page_bitmap p page bytes, count-set rounds (page + 1) p m bytes)
]

count-take_pages :
    (n page : ℕ) (m : Memory) (rounds start : ℕ)
    → IsBytes m.page_bitmap
    → start ≤ page
    → page + n ≤ start + rounds
    → ((i : ℕ)
        → i < n
        → (bitmap_is_set m.page_bitmap (page + i) ≡ false)
          × (bitmap_is_set m.usable_bitmap (page + i) ≡ true))
    → count_free rounds start (with_bitmap m (take_pages n page m.page_bitmap)) + n
      ≡ count_free rounds start m
unfolding take_pages
count-take_pages zero page m rounds start bytes le high all = omega arith
count-take_pages (suc n) page m rounds start bytes le high all = omega (
  arith,
  count-take_pages n (page + 1) (with_bitmap m (bitmap_set m.page_bitmap page)) rounds start
      (bitmap_set-IsBytes m.page_bitmap page bytes) (omega arith) (omega arith) rest,
  count-set rounds start page m bytes le (omega arith) here.0 here.1,
)
  where
    at_page : page + 0 ≡ page
    at_page = omega arith

    here : (bitmap_is_set m.page_bitmap page ≡ false) × (bitmap_is_set m.usable_bitmap page ≡ true)
    here = rw at_page at (all 0 (omega arith))

    rest :
        (i : ℕ)
        → i < n
        → (bitmap_is_set (bitmap_set m.page_bitmap page) (page + 1 + i) ≡ false)
          × (bitmap_is_set m.usable_bitmap (page + 1 + i) ≡ true)
    rest i lt =
        let shift : page + suc i ≡ page + 1 + i = omega arith in
        let facts = rw shift at (all (suc i) (omega arith)) in
        (
          ground (arith, is_set-bitmap_set m.page_bitmap page (page + 1 + i) bytes, facts.0),
          facts.1,
        )

-- Where only usable pages are free, page_alloc_contiguous takes from the count of
-- page_allocator_free_pages the number of pages that it grants, and nothing when it returns 0.
pub free_pages-page_alloc_contiguous :
    (n : ℕ) (k : Kernel)
    → IsAllocator k.memory
    → let (address, k') = page_alloc_contiguous n k in
      ((address ≡ 0) × (page_allocator_free_pages k'.memory ≡ page_allocator_free_pages k.memory))
      ⊎ ((address ≢ 0)
          × (page_allocator_free_pages k'.memory + n ≡ page_allocator_free_pages k.memory))
unfolding page_allocator_free_pages
free_pages-page_alloc_contiguous n k v = elim (page_alloc_contiguous_lem n k v.page_bytes) [
  | inl (none, refused) ↦
      inl (none, ap (count_free (page_count - first_page) first_page) refused.same)
  | inr (page, address, granted) ↦ inr (
    omega (arith, address, granted.low),
    rw granted.only (
        count-take_pages n page k.memory (page_count - first_page) first_page v.page_bytes
          granted.low (omega (arith, granted.high))
          (λ i lt. (granted.was_free i lt, v.free_is_usable (page + i) (granted.was_free i lt)))),
  )
]
