-- ===== src/Memory.antt =====
-- The physical page allocator and the kernel heap (kernel/memory.c). Addresses are uint64_t, and a
-- mask with ~(PAGE_SIZE - 1) is written as a division and a product.
pub mod Bitmap
pub mod Ranges
pub mod Search
pub mod Pages
pub mod Heap
pub mod Count
pub mod Boot
pub mod Mapping
pub mod Firmware
pub mod Startup
pub mod Fuel
pub mod Others
use glass_os.Prelude.{
  ℕ, zero, suc, ◌+◌, ◌-◌, ◌*◌, ◌/◌, ◌%◌, ◌^◌, Bool, true, false, not, ◌&&◌, ◌||◌, Option, none,
  some, List, [], ◌∷◌, text, ltb, leb, ◌==◌, if◌then◌else◌,
}
use glass_os.Text.{Text}
use glass_os.Kernel.{
  Kernel, Memory, EventResult, event_ok, event_denied, event_fault, M, ◌>>=◌, ◌>>◌, pure, gets,
  modify,
}
use glass_os.Event.{event_record, event_current}
use Bitmap.{bitmap_set, bitmap_clear, bitmap_is_set}

abbrev pub page_size : ℕ
page_size = 4096

-- IDENTITY_MAP_LIMIT
abbrev pub map_limit : ℕ
map_limit = 0x40000000

abbrev pub allocator_start : ℕ
allocator_start = 0x100000

abbrev pub page_count : ℕ
page_count = 262144

abbrev pub heap_page_count : ℕ
heap_page_count = 16

unfoldable pub align_up : ℕ → ℕ
align_up value = (value + page_size - 1) % 2 ^ 64 / page_size * page_size

unfoldable pub align_down : ℕ → ℕ
align_down value = value / page_size * page_size

abbrev pub mark_usable : ℕ → Memory → Memory
mark_usable page m = record m {
  usable_bitmap = bitmap_set m.usable_bitmap page;
  page_bitmap = bitmap_clear m.page_bitmap page;
}

abbrev pub mark_reserved : ℕ → Memory → Memory
mark_reserved page m = record m {
  usable_bitmap = bitmap_clear m.usable_bitmap page;
  page_bitmap = bitmap_set m.page_bitmap page;
}

-- `for (address = start; address < end; address += PAGE_SIZE)`, on the pages that it visits.
unfoldable pub each_page : ℕ → ℕ → (ℕ → Memory → Memory) → Memory → Memory
each_page zero page body m = m
each_page (suc rounds) page body m = each_page rounds (page + 1) body (body page m)

abbrev pub rounds_between : ℕ → ℕ → ℕ
rounds_between start end = (end + page_size - 1 - start) / page_size

-- The end of a range, held to the limit of the map.
abbrev pub clip_end : ℕ → ℕ → ℕ
clip_end base length = if ltb (map_limit - base) length then map_limit else base + length

abbrev pub clip_start : ℕ → ℕ
clip_start base = if ltb base allocator_start then allocator_start else base

unfoldable pub mark_usable_range : ℕ → ℕ → Memory → Memory
mark_usable_range base length m =
    if leb map_limit base || length == 0
    then m
    else let end = align_down (clip_end base length) in
      let start = align_up (clip_start base) in
      each_page (rounds_between start end) (start / page_size) mark_usable m

unfoldable pub mark_reserved_range : ℕ → ℕ → Memory → Memory
mark_reserved_range base length m =
    if leb map_limit base || length == 0
    then m
    else let start = align_down (clip_start base) in
      let end' = align_up (clip_end base length) in
      let end = if ltb map_limit end' then map_limit else end' in
      each_page (rounds_between start end) (start / page_size) mark_reserved m

unfoldable pub reserve_address_range : ℕ → ℕ → Memory → Memory
reserve_address_range start end m =
    if leb end start then m else mark_reserved_range start (end - start) m

-- The pages from `page` on that are usable, `rounds` of them looked at.
unfoldable pub count_usable : ℕ → ℕ → (ℕ → ℕ) → ℕ
count_usable zero page usable = 0
count_usable (suc rounds) page usable =
    (if bitmap_is_set usable page then 1 else 0) + count_usable rounds (page + 1) usable

unfoldable pub recount_usable_memory : Memory → Memory
recount_usable_memory m = record m {
  usable_memory_bytes =
      page_size
      * count_usable (page_count - allocator_start / page_size) (allocator_start / page_size)
          m.usable_bitmap;
}

-- The loop of range_is_free.
unfoldable pub all_clear : ℕ → ℕ → (ℕ → ℕ) → Bool
all_clear zero page bm = true
all_clear (suc rounds) page bm = not (bitmap_is_set bm page) && all_clear rounds (page + 1) bm

unfoldable pub range_is_free : ℕ → ℕ → (ℕ → ℕ) → Bool
range_is_free first n bm =
    if ltb page_count first || ltb (page_count - first) n then false else all_clear n first bm

-- The search of page_alloc_contiguous: the first page of the first run of `n` free pages.
unfoldable pub find_run : ℕ → ℕ → ℕ → (ℕ → ℕ) → Option ℕ
find_run zero page n bm = none
find_run (suc rounds) page n bm =
    let later = find_run rounds (page + 1) n bm in
    if range_is_free page n bm then some page else later

-- The loop that takes the pages of a run.
unfoldable pub take_pages : ℕ → ℕ → (ℕ → ℕ) → (ℕ → ℕ)
take_pages zero page bm = bm
take_pages (suc rounds) page bm = take_pages rounds (page + 1) (bitmap_set bm page)

abbrev pub first_page : ℕ
first_page = 256

-- `for (page = 256; page <= PAGE_COUNT - n; page++)`
abbrev pub search_rounds : ℕ → ℕ
search_rounds n = page_count - n + 1 - first_page

abbrev pub note : Text → Text → EventResult → Text → M ℕ
note target operation result policy k =
    event_record (text "memory") target operation result (event_current k) policy k

-- Returns the address of the run, and 0 for a refusal.
unfoldable pub page_alloc_contiguous : ℕ → M ℕ
page_alloc_contiguous n k =
    let refuse : Text → ℕ × Kernel =
      λ why. (do note (text "page_allocator") (text "allocate") event_denied why; pure 0) k in
    if not k.memory.allocator_ready || n == 0 || ltb page_count n
    then refuse (text "deny:invalid-request")
    else elim (find_run (search_rounds n) first_page n k.memory.page_bitmap) [
      | none ↦ refuse (text "deny:out-of-pages")
      | some page ↦
          (do
            modify (λ s. record s {
              memory = record s.memory { page_bitmap = take_pages n page s.memory.page_bitmap };
            })
            note (text "page_allocator") (text "allocate") event_ok (text "allow:page-owner")
            pure (page * page_size))
            k
    ]

unfoldable pub page_alloc : M ℕ
page_alloc = page_alloc_contiguous 1

-- The test of page_free.
unfoldable pub not_owned : ℕ → Memory → Bool
not_owned address m =
    not (address % page_size == 0)
    || ltb address allocator_start
    || leb map_limit address
    || (leb m.heap_base address && ltb address m.heap_limit)
    || not (bitmap_is_set m.usable_bitmap (address / page_size))

unfoldable pub page_free : ℕ → M (Unit {0})
page_free address k =
    if not_owned address k.memory
    then (do
      note (text "page_allocator") (text "free") event_denied (text "deny:not-owned-page")
      pure tt)
        k
    else (do
      modify (λ s. record s {
        memory = record s.memory {
          page_bitmap = bitmap_clear s.memory.page_bitmap (address / page_size);
        };
      })
      note (text "page_allocator") (text "free") event_ok (text "allow:page-owner")
      pure tt)
        k

-- The loop of page_allocator_free_pages.
unfoldable pub count_free : ℕ → ℕ → Memory → ℕ
count_free zero page m = 0
count_free (suc rounds) page m =
    (if bitmap_is_set m.usable_bitmap page && not (bitmap_is_set m.page_bitmap page) then 1 else 0)
    + count_free rounds (page + 1) m

unfoldable pub page_allocator_free_pages : Memory → ℕ
page_allocator_free_pages m = count_free (page_count - first_page) first_page m

abbrev pub round_up_16 : ℕ → ℕ
round_up_16 size = (size + 15) / 16 * 16

-- Returns the address of the block, and 0 for a refusal.
unfoldable pub malloc : ℕ → M ℕ
malloc size k =
    let m = k.memory in
    let refuse : Text → ℕ × Kernel =
      λ why. (do note (text "heap") (text "allocate") event_denied why; pure 0) k in
    if size == 0
      || m.heap_base == 0
      || m.heap_limit == 0
      || ltb m.heap_ptr m.heap_base
      || ltb m.heap_limit m.heap_ptr
    then refuse (text "deny:heap-not-ready")
    else if ltb (2 ^ 64 - 1 - 15) size
    then refuse (text "deny:size-overflow")
    else if ltb (m.heap_limit - m.heap_ptr) (round_up_16 size)
    then refuse (text "deny:heap-exhausted")
    else (do
      modify (λ s. record s {
        memory = record s.memory { heap_ptr = s.memory.heap_ptr + round_up_16 size };
      })
      note (text "heap") (text "allocate") event_ok (text "allow:heap")
      pure m.heap_ptr)
        k

unfoldable pub heap_remaining : Memory → ℕ
heap_remaining m = if leb m.heap_ptr m.heap_limit then m.heap_limit - m.heap_ptr else 0

unfoldable pub heap_capacity : Memory → ℕ
heap_capacity m = if m.heap_limit == 0 then 0 else heap_page_count * page_size
