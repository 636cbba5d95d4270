-- ===== src/Memory/Ranges.antt =====
-- mark_usable_range and mark_reserved_range of kernel/memory.c against the bytes of the range.
use glass_os.Prelude.{
  inl, inr, ℕ, zero, suc, ◌+◌, ◌-◌, ◌*◌, ◌/◌, ◌≡◌, refl, ◌∙◌, Bool, true, false, not, ◌&&◌, ◌||◌,
  Bool-cases, ltb, leb, ◌==◌, arith, if◌then◌else◌,
}
use glass_os.Kernel.{Memory}
use glass_os.Memory.Bitmap.{
  IsBytes, bitmap_is_set, is_set-bitmap_set, is_set-bitmap_clear, bitmap_set-IsBytes,
  bitmap_clear-IsBytes,
}
use glass_os.Memory.{
  page_size, page_count, map_limit, align_up, align_down, each_page, clip_end, clip_start,
  rounds_between, mark_usable, mark_reserved, mark_usable_range, mark_reserved_range,
  reserve_address_range,
}
use glass_os.Memory.Search.{in_run}

-- Both bitmaps hold bytes.
abbrev pub HasBytes : Memory → Type 0
HasBytes m = IsBytes m.page_bitmap × IsBytes m.usable_bitmap

module _ (m : Memory) (bytes : HasBytes m) (page : ℕ) where
  mark_usable-HasBytes : HasBytes (mark_usable page m)
  mark_usable-HasBytes = (
    bitmap_clear-IsBytes m.page_bitmap page bytes.0,
    bitmap_set-IsBytes m.usable_bitmap page bytes.1,
  )

  mark_reserved-HasBytes : HasBytes (mark_reserved page m)
  mark_reserved-HasBytes = (
    bitmap_set-IsBytes m.page_bitmap page bytes.0,
    bitmap_clear-IsBytes m.usable_bitmap page bytes.1,
  )

usable-each_page :
    (rounds page : ℕ) (m : Memory) (j : ℕ)
    → HasBytes m
    → let m' = each_page rounds page mark_usable m in
      (bitmap_is_set m'.usable_bitmap j ≡ (in_run page rounds j || bitmap_is_set m.usable_bitmap j))
      × (bitmap_is_set m'.page_bitmap j
          ≡ (not (in_run page rounds j) && bitmap_is_set m.page_bitmap j))
unfolding each_page
usable-each_page zero page m j bytes = (ground arith, ground arith)
usable-each_page (suc rounds) page m j bytes =
    let later =
      usable-each_page rounds (page + 1) (mark_usable page m) j
        (mark_usable-HasBytes m bytes page) in
    (
      later.0 ∙ ground (arith, is_set-bitmap_set m.usable_bitmap page j bytes.1),
      later.1 ∙ ground (arith, is_set-bitmap_clear m.page_bitmap page j bytes.0),
    )

reserved-each_page :
    (rounds page : ℕ) (m : Memory) (j : ℕ)
    → HasBytes m
    → let m' = each_page rounds page mark_reserved m in
      (bitmap_is_set m'.usable_bitmap j
        ≡ (not (in_run page rounds j) && bitmap_is_set m.usable_bitmap j))
      × (bitmap_is_set m'.page_bitmap j ≡ (in_run page rounds j || bitmap_is_set m.page_bitmap j))
unfolding each_page
reserved-each_page zero page m j bytes = (ground arith, ground arith)
reserved-each_page (suc rounds) page m j bytes =
    let later =
      reserved-each_page rounds (page + 1) (mark_reserved page m) j
        (mark_reserved-HasBytes m bytes page) in
    (
      later.0 ∙ ground (arith, is_set-bitmap_clear m.usable_bitmap page j bytes.1),
      later.1 ∙ ground (arith, is_set-bitmap_set m.page_bitmap page j bytes.0),
    )

usable-HasBytes :
    (rounds page : ℕ) (m : Memory) → HasBytes m → HasBytes (each_page rounds page mark_usable m)
unfolding each_page
usable-HasBytes zero page m bytes = bytes
usable-HasBytes (suc rounds) page m bytes =
    usable-HasBytes rounds (page + 1) (mark_usable page m) (mark_usable-HasBytes m bytes page)

reserved-HasBytes :
    (rounds page : ℕ) (m : Memory) → HasBytes m → HasBytes (each_page rounds page mark_reserved m)
unfolding each_page
reserved-HasBytes zero page m bytes = bytes
reserved-HasBytes (suc rounds) page m bytes =
    reserved-HasBytes rounds (page + 1) (mark_reserved page m) (mark_reserved-HasBytes m bytes page)

pub mark_usable_range-HasBytes :
    (base length : ℕ) (m : Memory) → HasBytes m → HasBytes (mark_usable_range base length m)
unfolding mark_usable_range
mark_usable_range-HasBytes base length m bytes =
    elim (Bool-cases (leb map_limit base || length == 0)) [
      | inl bad ↦ rw bad bytes
      | inr fine ↦
          let start = align_up (clip_start base) in
          rw fine (
            usable-HasBytes (rounds_between start (align_down (clip_end base length)))
              (start / page_size) m bytes)
    ]

pub mark_reserved_range-HasBytes :
    (base length : ℕ) (m : Memory) → HasBytes m → HasBytes (mark_reserved_range base length m)
unfolding mark_reserved_range
mark_reserved_range-HasBytes base length m bytes =
    elim (Bool-cases (leb map_limit base || length == 0)) [
      | inl bad ↦ rw bad bytes
      | inr fine ↦
          let start = align_down (clip_start base) in
          let end' = align_up (clip_end base length) in
          let end = if ltb map_limit end' then map_limit else end' in
          rw fine (reserved-HasBytes (rounds_between start end) (start / page_size) m bytes)
    ]

-- Page `j` can be allocated from, and every byte of it lies in the range.
abbrev pub lies_in : ℕ → ℕ → ℕ → Bool
lies_in base length j =
    leb 256 j
    && ltb j page_count
    && leb base (j * page_size)
    && leb ((j + 1) * page_size) (base + length)

-- Page `j` can be allocated from, and some byte of it lies in the range.
abbrev pub touches : ℕ → ℕ → ℕ → Bool
touches base length j =
    leb 256 j
    && ltb j page_count
    && ltb 0 length
    && ltb base ((j + 1) * page_size)
    && ltb (j * page_size) (base + length)

module _ (base length j : ℕ) where
  usable_run :
      (leb map_limit base || length == 0) ≡ false
      → let start = align_up (clip_start base) in
        in_run (start / page_size) (rounds_between start (align_down (clip_end base length))) j
        ≡ lies_in base length j
  unfolding align_up align_down
  usable_run h = ground arith

  reserved_run :
      (leb map_limit base || length == 0) ≡ false
      → let start = align_down (clip_start base) in
        let end' = align_up (clip_end base length) in
        let end = if ltb map_limit end' then map_limit else end' in
        in_run (start / page_size) (rounds_between start end) j ≡ touches base length j
  unfolding align_up align_down
  reserved_run h = ground arith

  lies_in_bad : (leb map_limit base || length == 0) ≡ true → lies_in base length j ≡ false
  lies_in_bad h = ground arith

  touches_bad : (leb map_limit base || length == 0) ≡ true → touches base length j ≡ false
  touches_bad h = ground arith

-- On bitmaps of bytes, mark_usable_range makes usable and free exactly the pages from 1 MiB up to 1
-- GiB that lie wholly in the range, and leaves the bits of the others.
pub mark_usable_range_lem :
    (base length : ℕ) (m : Memory) (j : ℕ)
    → HasBytes m
    → let m' = mark_usable_range base length m in
      (bitmap_is_set m'.usable_bitmap j
        ≡ (lies_in base length j || bitmap_is_set m.usable_bitmap j))
      × (bitmap_is_set m'.page_bitmap j
          ≡ (not (lies_in base length j) && bitmap_is_set m.page_bitmap j))
unfolding mark_usable_range
mark_usable_range_lem base length m j bytes =
    elim (Bool-cases (leb map_limit base || length == 0)) [
      | inl bad ↦ rw (bad, lies_in_bad base length j bad) (refl, refl)
      | inr fine ↦
          let start = align_up (clip_start base) in
          let rounds = rounds_between start (align_down (clip_end base length)) in
          rw (fine, ← usable_run base length j fine)
            (usable-each_page rounds (start / page_size) m j bytes)
    ]

-- On bitmaps of bytes, mark_reserved_range makes unusable and takes every page from 1 MiB up to 1
-- GiB of which a byte lies in the range, and leaves the bits of the others.
pub mark_reserved_range_lem :
    (base length : ℕ) (m : Memory) (j : ℕ)
    → HasBytes m
    → let m' = mark_reserved_range base length m in
      (bitmap_is_set m'.usable_bitmap j
        ≡ (not (touches base length j) && bitmap_is_set m.usable_bitmap j))
      × (bitmap_is_set m'.page_bitmap j ≡ (touches base length j || bitmap_is_set m.page_bitmap j))
unfolding mark_reserved_range
mark_reserved_range_lem base length m j bytes =
    elim (Bool-cases (leb map_limit base || length == 0)) [
      | inl bad ↦ rw (bad, touches_bad base length j bad) (refl, refl)
      | inr fine ↦
          let start = align_down (clip_start base) in
          let end' = align_up (clip_end base length) in
          let end = if ltb map_limit end' then map_limit else end' in
          rw (fine, ← reserved_run base length j fine)
            (reserved-each_page (rounds_between start end) (start / page_size) m j bytes)
    ]

ready-usable :
    (rounds page : ℕ) (m : Memory)
    → (each_page rounds page mark_usable m).allocator_ready ≡ m.allocator_ready
unfolding each_page
ready-usable zero page m = refl
ready-usable (suc rounds) page m = ready-usable rounds (page + 1) (mark_usable page m)

pub ready-mark_usable_range :
    (base length : ℕ) (m : Memory)
    → (mark_usable_range base length m).allocator_ready ≡ m.allocator_ready
unfolding mark_usable_range
ready-mark_usable_range base length m = elim (Bool-cases (leb map_limit base || length == 0)) [
  | inl bad ↦ rw bad refl
  | inr fine ↦
      let start = align_up (clip_start base) in
      rw fine (
        ready-usable (rounds_between start (align_down (clip_end base length))) (start / page_size)
          m)
]

-- A range from `start` up to `end`: its pages become unusable.
pub usable-reserve_address_range :
    (start end : ℕ) (m : Memory) (j : ℕ)
    → HasBytes m
    → bitmap_is_set (reserve_address_range start end m).usable_bitmap j
      ≡ (not (touches start (end - start) j) && bitmap_is_set m.usable_bitmap j)
unfolding reserve_address_range
usable-reserve_address_range start end m j bytes = elim (Bool-cases (leb end start)) [
  | inl h ↦
      let outside : touches start (end - start) j ≡ false = ground arith in rw (h, outside) refl
  | inr h ↦ rw h (mark_reserved_range_lem start (end - start) m j bytes).0
]
