-- ===== src/Memory/Mapping.antt =====
-- The loops of memory_init of kernel/memory.c over the memory map keep the rule of the allocator,
-- and reserve_kernel_ranges makes the kernel's pages unusable.
use glass_os.Prelude.{
  ℕ, zero, suc, ◌+◌, ◌-◌, ◌%◌, ◌^◌, ◌≡◌, refl, ◌∙◌, inl, inr, Bool, true, false, not, ◌&&◌, ◌||◌,
  Bool-cases, ltb, leb, ◌==◌, arith,
}
use glass_os.Kernel.{Memory}
use glass_os.Memory.Bitmap.{bitmap_is_set, is_set-full}
use glass_os.Memory.Search.{IsAllocator}
use glass_os.Memory.Ranges.{
  HasBytes, touches, mark_usable_range_lem, mark_reserved_range_lem, mark_usable_range-HasBytes,
  mark_reserved_range-HasBytes, ready-mark_usable_range, usable-reserve_address_range,
}
use glass_os.Memory.Boot.{
  BootData, MmapEntry, bad_entry, take_entry, take_entries, reserve_entry, reserve_entries,
  reserve_kernel_ranges, reset_memory,
}
use glass_os.Memory.{
  mark_usable_range, mark_reserved_range, reserve_address_range, recount_usable_memory,
}

module _ (base length : ℕ) (m : Memory) (v : IsAllocator m) where
  abbrev bytes : HasBytes m
  bytes = (v.page_bytes, v.usable_bytes)

  mark_usable_range-IsAllocator : IsAllocator (mark_usable_range base length m)
  mark_usable_range-IsAllocator =
      let after = mark_usable_range-HasBytes base length m bytes in
      record {
        page_bytes = after.0;
        usable_bytes = after.1;
        free_is_usable = λ j h.
            let bits = mark_usable_range_lem base length m j bytes in
            ground (arith, bits.0, bits.1, h, v.free_is_usable j);
      }

  mark_reserved_range-IsAllocator : IsAllocator (mark_reserved_range base length m)
  mark_reserved_range-IsAllocator =
      let after = mark_reserved_range-HasBytes base length m bytes in
      record {
        page_bytes = after.0;
        usable_bytes = after.1;
        free_is_usable = λ j h.
            let bits = mark_reserved_range_lem base length m j bytes in
            ground (arith, bits.0, bits.1, h, v.free_is_usable j);
      }

pub reserve_address_range-IsAllocator :
    (start end : ℕ) (m : Memory) → IsAllocator m → IsAllocator (reserve_address_range start end m)
unfolding reserve_address_range
reserve_address_range-IsAllocator start end m v = elim (Bool-cases (leb end start)) [
  | inl e ↦ rw e v
  | inr e ↦ rw e (mark_reserved_range-IsAllocator start (end - start) m v)
]

take_entry-IsAllocator : (e : MmapEntry) (m : Memory) → IsAllocator m → IsAllocator (take_entry e m)
take_entry-IsAllocator e m v = elim (Bool-cases (e.type == 1 && not (e.length == 0))) [
  | inl h ↦ rw h (mark_usable_range-IsAllocator e.base e.length _ counted)
  | inr h ↦ rw h counted
]
  where
    counted :
        IsAllocator (record m { detected_entry_count = (m.detected_entry_count + 1) % 2 ^ 32 })
    counted = record {
      page_bytes = v.page_bytes;
      usable_bytes = v.usable_bytes;
      free_is_usable = v.free_is_usable;
    }

abbrev pub further : BootData → ℕ → ℕ
further d offset = (offset + (d.entry_at offset).size + 4) % 2 ^ 32

pub reserve_entry-IsAllocator :
    (e : MmapEntry) (m : Memory) → IsAllocator m → IsAllocator (reserve_entry e m)
reserve_entry-IsAllocator e m v = elim (Bool-cases (not (e.type == 1) || e.length == 0)) [
  | inl h ↦ rw h (mark_reserved_range-IsAllocator e.base e.length m v)
  | inr h ↦ rw h v
]

pub take_entries-IsAllocator :
    (fuel offset : ℕ) (d : BootData) (m : Memory)
    → IsAllocator m
    → IsAllocator (take_entries fuel offset d m).1
unfolding take_entries
take_entries-IsAllocator zero offset d m v = v
take_entries-IsAllocator (suc fuel) offset d m v =
    elim (Bool-cases (not (ltb offset d.info.mmap_length))) [
      | inl h ↦ rw h v
      | inr h ↦ elim (Bool-cases (bad_entry d offset)) [
        | inl h' ↦ rw (h, h') v
        | inr h' ↦
            rw (h, h')
              (take_entries-IsAllocator fuel (further d offset) d (take_entry (d.entry_at offset) m)
                (take_entry-IsAllocator (d.entry_at offset) m v))
      ]
    ]

pub reserve_entries-IsAllocator :
    (fuel offset : ℕ) (d : BootData) (m : Memory)
    → IsAllocator m
    → IsAllocator (reserve_entries fuel offset d m)
unfolding reserve_entries
reserve_entries-IsAllocator zero offset d m v = v
reserve_entries-IsAllocator (suc fuel) offset d m v =
    elim (Bool-cases (ltb offset d.info.mmap_length)) [
      | inl h ↦ rw h (
          reserve_entries-IsAllocator fuel (further d offset) d
            (reserve_entry (d.entry_at offset) m)
            (reserve_entry-IsAllocator (d.entry_at offset) m v))
      | inr h ↦ rw h v
    ]

pub reserve_kernel_ranges-IsAllocator :
    (d : BootData) (m : Memory) → IsAllocator m → IsAllocator (reserve_kernel_ranges d m)
unfolding reserve_kernel_ranges
reserve_kernel_ranges-IsAllocator d m v = reserve_address_range-IsAllocator d.info.mmap_addr _ _ (
    reserve_address_range-IsAllocator d.info_address _ _ (
      reserve_address_range-IsAllocator 0x2F0000 _ _ (
        reserve_address_range-IsAllocator d.text_start _ _
          (reserve_address_range-IsAllocator 0x100000 0x200000 m v))))

pub recount-IsAllocator : (m : Memory) → IsAllocator m → IsAllocator (recount_usable_memory m)
unfolding recount_usable_memory
recount-IsAllocator m v = record {
  page_bytes = v.page_bytes;
  usable_bytes = v.usable_bytes;
  free_is_usable = v.free_is_usable;
}

pub reset-IsAllocator : (m : Memory) → IsAllocator (reset_memory m)
reset-IsAllocator m = record {
  page_bytes = λ i. omega arith;
  usable_bytes = λ i. omega arith;
  free_is_usable = λ j h. absurd (ground (arith, h, is_set-full j));
}

-- The pages of the loader, of the kernel image, of the boot stack, and of the multiboot data.
abbrev pub kernel_owns : BootData → ℕ → Bool
kernel_owns d j =
    touches 0x100000 (0x200000 - 0x100000) j
    || touches d.text_start (d.bss_end - d.text_start) j
    || touches 0x2F0000 (0x300000 - 0x2F0000) j
    || touches d.info_address ((d.info_address + 52) % 2 ^ 32 - d.info_address) j
    || touches d.info.mmap_addr
        ((d.info.mmap_addr + d.info.mmap_length) % 2 ^ 32 - d.info.mmap_addr) j

one_of_five :
    (a b c d e usable : Bool)
    → (a || b || c || d || e) ≡ true
    → (not e && (not d && (not c && (not b && (not a && usable))))) ≡ false
one_of_five a b c d e usable h = ground arith

pub kernel_reserved :
    (d : BootData) (m : Memory) (j : ℕ)
    → IsAllocator m
    → kernel_owns d j ≡ true
    → bitmap_is_set (reserve_kernel_ranges d m).usable_bitmap j ≡ false
unfolding reserve_kernel_ranges
kernel_reserved d m j v owns =
    let m1 = reserve_address_range 0x100000 0x200000 m in
    let m2 = reserve_address_range d.text_start d.bss_end m1 in
    let m3 = reserve_address_range 0x2F0000 0x300000 m2 in
    let m4 = reserve_address_range d.info_address ((d.info_address + 52) % 2 ^ 32) m3 in
    let v1 = reserve_address_range-IsAllocator 0x100000 0x200000 m v in
    let v2 = reserve_address_range-IsAllocator d.text_start d.bss_end m1 v1 in
    let v3 = reserve_address_range-IsAllocator 0x2F0000 0x300000 m2 v2 in
    let v4 =
      reserve_address_range-IsAllocator d.info_address ((d.info_address + 52) % 2 ^ 32) m3 v3 in
    rw
      (
        usable-reserve_address_range d.info.mmap_addr
            ((d.info.mmap_addr + d.info.mmap_length) % 2 ^ 32) m4 j
            (v4.page_bytes, v4.usable_bytes),
        usable-reserve_address_range d.info_address ((d.info_address + 52) % 2 ^ 32) m3 j
            (v3.page_bytes, v3.usable_bytes),
        usable-reserve_address_range 0x2F0000 0x300000 m2 j (v2.page_bytes, v2.usable_bytes),
        usable-reserve_address_range d.text_start d.bss_end m1 j (v1.page_bytes, v1.usable_bytes),
        usable-reserve_address_range 0x100000 0x200000 m j (v.page_bytes, v.usable_bytes),
      )
      (one_of_five (touches 0x100000 (0x200000 - 0x100000) j) _ _ _ _ _ owns)

ready-take_entry :
    (e : MmapEntry) (m : Memory) → (take_entry e m).allocator_ready ≡ m.allocator_ready
ready-take_entry e m = elim (Bool-cases (e.type == 1 && not (e.length == 0))) [
  | inl h ↦ rw h (ready-mark_usable_range e.base e.length _)
  | inr h ↦ rw h refl
]

pub ready-take_entries :
    (fuel offset : ℕ) (d : BootData) (m : Memory)
    → (take_entries fuel offset d m).1.allocator_ready ≡ m.allocator_ready
unfolding take_entries
ready-take_entries zero offset d m = refl
ready-take_entries (suc fuel) offset d m = elim (Bool-cases (not (ltb offset d.info.mmap_length))) [
  | inl h ↦ rw h refl
  | inr h ↦ elim (Bool-cases (bad_entry d offset)) [
    | inl h' ↦ rw (h, h') refl
    | inr h' ↦
        rw (h, h')
          (ready-take_entries fuel (further d offset) d (take_entry (d.entry_at offset) m)
            ∙ ready-take_entry (d.entry_at offset) m)
  ]
]
