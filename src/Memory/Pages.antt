-- ===== src/Memory/Pages.antt =====
-- page_alloc_contiguous and page_free of kernel/memory.c against the set of pages that are free.
use glass_os.Prelude.{
  ℕ, ◌+◌, ◌*◌, ◌/◌, ◌%◌, ◌^◌, ◌≤◌, ◌<◌, ◌≡◌, refl, sym, ◌∙◌, ◌⊎◌, inl, inr, true, false, not, ◌&&◌,
  ◌||◌, Option, none, some, Option-cases, Bool-cases, ltb, ◌==◌, arith,
}
use glass_os.Kernel.{Kernel, Memory}
use glass_os.Event.Frame.{memory-event_record_kind}
use glass_os.Event.{event_record}
use glass_os.Memory.Bitmap.{
  IsBytes, bitmap_clear, bitmap_is_set, is_set-bitmap_clear, bitmap_clear-IsBytes,
}
use glass_os.Memory.Search.{
  IsAllocator, in_run, take_pages-IsBytes, is_set-take_pages, range_is_free-at, range_is_free-clear,
  find_run-some, find_run-none,
}
use glass_os.Memory.{
  page_size, page_count, first_page, search_rounds, range_is_free, find_run, take_pages,
  page_alloc_contiguous, not_owned, page_free,
}

-- A request that the allocator takes up.
abbrev pub IsRequest : ℕ → Memory → Type 0
IsRequest n m = (m.allocator_ready ≡ true) × (0 < n) × (n ≤ 262144)

-- The run of `n` pages at `page` lies from page 256 on, which is at 1 MiB, and ends at page 262144,
-- which is at 1 GiB, or before; and the bit of each of its pages is clear.
abbrev pub IsFreeRun : ℕ → ℕ → (ℕ → ℕ) → Type 0
IsFreeRun n page bm =
    (256 ≤ page) × (page + n ≤ 262144) × ((i : ℕ) → i < n → bitmap_is_set bm (page + i) ≡ false)

not-IsFreeRun : (n page : ℕ) (bm : ℕ → ℕ) → range_is_free page n bm ≡ false → ¬ IsFreeRun n page bm
not-IsFreeRun n page bm busy (low, fits, clear) =
    true-false (sym (range_is_free-clear page n bm fits clear) ∙ busy)
  where
    true-false : true ≡ false → ⊥
    true-false h = cc

-- The run of `n` pages at `page` was free, it is the first such run, and taking it is all that
-- happened to the memory state.
pub record Granted (n page : ℕ) (m m' : Memory) : Type 0 where
  pub low : 256 ≤ page
  pub high : page + n ≤ 262144
  pub was_free : (i : ℕ) → i < n → bitmap_is_set m.page_bitmap (page + i) ≡ false
  pub first : (q : ℕ) → q < page → ¬ IsFreeRun n q m.page_bitmap
  pub only : m' ≡ record m { page_bitmap = take_pages n page m.page_bitmap }
  pub taken :
      (j : ℕ) → bitmap_is_set m'.page_bitmap j ≡ (in_run page n j || bitmap_is_set m.page_bitmap j)

-- Nothing changed, and the request was not a proper one or there is no run of free pages for it.
pub record Refused (n : ℕ) (m m' : Memory) : Type 0 where
  pub same : m' ≡ m
  pub no_run : (¬ IsRequest n m) ⊎ ((q : ℕ) → ¬ IsFreeRun n q m.page_bitmap)

module _ (n : ℕ) (k : Kernel) where
  abbrev search : Option ℕ
  search = find_run (search_rounds n) first_page n k.memory.page_bitmap

  alloc_bad :
      (not k.memory.allocator_ready || n == 0 || ltb page_count n) ≡ true
      → ((page_alloc_contiguous n k).0 ≡ 0) × ((page_alloc_contiguous n k).1.memory ≡ k.memory)
  unfolding page_alloc_contiguous event_record
  alloc_bad bad = rw bad (refl, rw memory-event_record_kind)

  alloc_none :
      (not k.memory.allocator_ready || n == 0 || ltb page_count n) ≡ false
      → search ≡ none
      → ((page_alloc_contiguous n k).0 ≡ 0) × ((page_alloc_contiguous n k).1.memory ≡ k.memory)
  unfolding page_alloc_contiguous event_record
  alloc_none fine empty =
      rw (page_alloc_contiguous, fine, empty) (refl, rw memory-event_record_kind)

  alloc_some :
      (page : ℕ)
      → (not k.memory.allocator_ready || n == 0 || ltb page_count n) ≡ false
      → search ≡ some page
      → ((page_alloc_contiguous n k).0 ≡ page * page_size)
        × ((page_alloc_contiguous n k).1.memory
            ≡ record k.memory { page_bitmap = take_pages n page k.memory.page_bitmap })
  unfolding page_alloc_contiguous event_record
  alloc_some page fine found =
      rw (page_alloc_contiguous, fine, found) (refl, rw memory-event_record_kind)

  granted :
      (page : ℕ) (m' : Memory)
      → IsBytes k.memory.page_bitmap
      → search ≡ some page
      → m' ≡ record k.memory { page_bitmap = take_pages n page k.memory.page_bitmap }
      → Granted n page k.memory m'
  granted page m' bytes found eq =
      let run =
        find_run-some (search_rounds n) first_page n k.memory.page_bitmap {p = page} found in
      let free = range_is_free-at page n k.memory.page_bitmap run.1 in
      record {
        low = run.0;
        high = free.0;
        was_free = free.1;
        first = λ q lt free_run.
            not-IsFreeRun n q k.memory.page_bitmap (run.2 q free_run.0 lt) free_run;
        only = eq;
        taken = λ j. rw eq (is_set-take_pages n page k.memory.page_bitmap j bytes);
      }

  -- If the bitmap holds bytes, page_alloc_contiguous returns 0 or the address of a run. With 0 the
  -- memory state is unchanged, and the request was not a proper one or no run of that many free
  -- pages lies between 1 MiB and 1 GiB. Otherwise the run lies there, its pages were all free, it
  -- is the first such run, and the call took these pages, no other, and changed nothing else of the
  -- memory state.
  pub page_alloc_contiguous_lem :
      IsBytes k.memory.page_bitmap
      → let (address, k') = page_alloc_contiguous n k in
        ((address ≡ 0) × Refused n k.memory k'.memory)
        ⊎ ((page : ℕ) × (address ≡ page * page_size) × Granted n page k.memory k'.memory)
  page_alloc_contiguous_lem bytes =
      elim (Bool-cases (not k.memory.allocator_ready || n == 0 || ltb page_count n)) [
        | inl bad ↦ inl (
          (alloc_bad bad).0,
          record {
            same = (alloc_bad bad).1;
            no_run = inl (λ (ready, some_pages, fits). absurd (ground arith));
          },
        )
        | inr fine ↦ elim (Option-cases search) [
          | inl empty ↦ inl (
            (alloc_none fine empty).0,
            record {
              same = (alloc_none fine empty).1;
              no_run = inr (λ q free_run.
                  not-IsFreeRun n q k.memory.page_bitmap
                    (find_run-none (search_rounds n) first_page n k.memory.page_bitmap empty q
                      free_run.0 (omega (arith, free_run.1)))
                    free_run);
            },
          )
          | inr (page, found) ↦
              let done = alloc_some page fine found in
              inr
                (page, done.0, granted page (page_alloc_contiguous n k).1.memory bytes found done.1)
        ]
      ]

-- The allocator stays one that frees only usable pages.
Granted-IsAllocator :
    {n page : ℕ} {m m' : Memory} → Granted n page m m' → IsAllocator m → IsAllocator m'
Granted-IsAllocator {n} {page} {m} {m'} g v = rw g.only (record {
  page_bytes = take_pages-IsBytes n page m.page_bitmap v.page_bytes;
  usable_bytes = v.usable_bytes;
  free_is_usable = λ j h.
      v.free_is_usable j (ground (arith, is_set-take_pages n page m.page_bitmap j v.page_bytes));
})

-- page_alloc_contiguous keeps the rule that every free page is a usable one.
pub page_alloc_contiguous-IsAllocator :
    (n : ℕ) (k : Kernel) → IsAllocator k.memory → IsAllocator (page_alloc_contiguous n k).1.memory
page_alloc_contiguous-IsAllocator n k v = elim (page_alloc_contiguous_lem n k v.page_bytes) [
  | inl (zero_address, refused) ↦ rw refused.same v
  | inr (page, address, granted) ↦ Granted-IsAllocator granted v
]

-- The page at an aligned address from 1 MiB up to 1 GiB that is usable and outside of the heap.
abbrev pub IsOwned : ℕ → Memory → Type 0
IsOwned address m =
    (address % 4096 ≡ 0)
    × (2 ^ 20 ≤ address)
    × (address < 2 ^ 30)
    × (bitmap_is_set m.usable_bitmap (address / 4096) ≡ true)
    × (¬ ((m.heap_base ≤ address) × (address < m.heap_limit)))

module _ (address : ℕ) (k : Kernel) where
  abbrev page : ℕ
  page = address / page_size

  free_denied : not_owned address k.memory ≡ true → (page_free address k).1.memory ≡ k.memory
  unfolding page_free event_record
  free_denied h = rw (page_free, h, memory-event_record_kind)

  free_ok :
      not_owned address k.memory ≡ false
      → (page_free address k).1.memory
        ≡ record k.memory { page_bitmap = bitmap_clear k.memory.page_bitmap page }
  unfolding page_free event_record
  free_ok h = rw (page_free, h, memory-event_record_kind)

  -- If the bitmap holds bytes, page_free takes back the one page at an aligned address between 1
  -- MiB and 1 GiB that is usable and outside the heap; for any other address it changes nothing of
  -- the memory state.
  pub page_free_lem :
      IsBytes k.memory.page_bitmap
      → let m' = (page_free address k).1.memory in
        (IsOwned address k.memory
          × (m' ≡ record k.memory { page_bitmap = bitmap_clear k.memory.page_bitmap page })
          × ((j : ℕ)
              → bitmap_is_set m'.page_bitmap j
                ≡ (not (page == j) && bitmap_is_set k.memory.page_bitmap j)))
        ⊎ ((¬ IsOwned address k.memory) × (m' ≡ k.memory))
  page_free_lem bytes = elim (Bool-cases (not_owned address k.memory)) [
    | inl refused ↦ inr (not_conditions refused, free_denied refused)
    | inr owned ↦ inl (
      conditions owned,
      free_ok owned,
      λ j. rw (free_ok owned) (is_set-bitmap_clear k.memory.page_bitmap page j bytes),
    )
  ]
    where
      not_conditions : not_owned address k.memory ≡ true → ¬ IsOwned address k.memory
      not_conditions h owned = unfold not_owned in ground arith

      conditions : not_owned address k.memory ≡ false → IsOwned address k.memory
      conditions h = unfold not_owned in ground arith

  usable_after :
      (j : ℕ)
      → bitmap_is_set k.memory.usable_bitmap page ≡ true
      → (bitmap_is_set k.memory.page_bitmap j ≡ false
          → bitmap_is_set k.memory.usable_bitmap j ≡ true)
      → (not (page == j) && bitmap_is_set k.memory.page_bitmap j) ≡ false
      → bitmap_is_set k.memory.usable_bitmap j ≡ true
  usable_after j usable kept h = elim (Bool-cases (page == j)) [
    | inl e ↦ (let same : j ≡ page = ground arith in rw same usable)
    | inr e ↦ kept (ground arith)
  ]

  -- page_free keeps the rule that every free page is a usable one.
  pub page_free-IsAllocator : IsAllocator k.memory → IsAllocator (page_free address k).1.memory
  page_free-IsAllocator v = elim (page_free_lem v.page_bytes) [
    | inl (owned, eq, cleared) ↦ rw eq (record {
      page_bytes = bitmap_clear-IsBytes k.memory.page_bitmap page v.page_bytes;
      usable_bytes = v.usable_bytes;
      free_is_usable = λ j h.
          usable_after j owned.3 (v.free_is_usable j)
            (sym (is_set-bitmap_clear k.memory.page_bitmap page j v.page_bytes) ∙ h);
    })
    | inr (refused, eq) ↦ rw eq v
  ]
