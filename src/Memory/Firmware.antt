-- ===== src/Memory/Firmware.antt =====
-- The second loop of memory_init of kernel/memory.c over the memory map: an entry that is not usable
-- wins over a usable one.
use glass_os.Prelude.{
  ℕ, zero, suc, ◌+◌, ◌%◌, ◌^◌, ◌≡◌, refl, true, false, not, ◌||◌, Bool-cases, inl, inr, ltb, ◌==◌,
  if◌then◌else◌, arith,
}
use glass_os.Kernel.{Memory}
use glass_os.Memory.Bitmap.{bitmap_is_set}
use glass_os.Memory.Search.{IsAllocator}
use glass_os.Memory.Ranges.{touches, mark_reserved_range_lem, usable-reserve_address_range}
use glass_os.Memory.Mapping.{further, reserve_entry-IsAllocator, reserve_address_range-IsAllocator}
use glass_os.Memory.Boot.{
  BootData, MmapEntry, reserve_entry, reserve_entries, reserve_kernel_ranges,
}
use glass_os.Memory.{reserve_address_range}

-- No page that an entry touches is usable, if the entry is not of type 1.
abbrev pub Reserves : MmapEntry → Memory → Type 0
Reserves e m =
    (e.type == 1) ≡ false
    → (j : ℕ) → touches e.base e.length j ≡ true
    → bitmap_is_set m.usable_bitmap j ≡ false

-- So for every entry that the loop meets.
pub AllReserved : ℕ → ℕ → BootData → Memory → Type 0
AllReserved zero offset d m = Unit {0}
AllReserved (suc fuel) offset d m =
    if ltb offset d.info.mmap_length
    then Reserves (d.entry_at offset) m × AllReserved fuel (further d offset) d m
    else Unit {0}

-- What is not usable stays so.
abbrev pub Shrinks : Memory → Memory → Type 0
Shrinks m m' =
    (j : ℕ) → bitmap_is_set m.usable_bitmap j ≡ false → bitmap_is_set m'.usable_bitmap j ≡ false

pub AllReserved-Shrinks :
    (fuel offset : ℕ) (d : BootData) (m m' : Memory)
    → Shrinks m m'
    → AllReserved fuel offset d m
    → AllReserved fuel offset d m'
unfolding AllReserved
AllReserved-Shrinks zero offset d m m' less h = tt
AllReserved-Shrinks (suc fuel) offset d m m' less h =
    elim (Bool-cases (ltb offset d.info.mmap_length)) [
      | inl e ↦
          let both = rw e at h in
          rw e (
            λ other j inside. less j (both.0 other j inside),
            AllReserved-Shrinks fuel (further d offset) d m m' less both.1,
          )
      | inr e ↦ rw e tt
    ]

reserve_entry-Shrinks : (e : MmapEntry) (m : Memory) → IsAllocator m → Shrinks m (reserve_entry e m)
reserve_entry-Shrinks e m v j h = elim (Bool-cases (not (e.type == 1) || e.length == 0)) [
  | inl t ↦
      rw (t, (mark_reserved_range_lem e.base e.length m j (v.page_bytes, v.usable_bytes)).0, h)
        (ground arith)
  | inr t ↦ rw t h
]

reserve_entry-Reserves :
    (e : MmapEntry) (m : Memory) → IsAllocator m → Reserves e (reserve_entry e m)
reserve_entry-Reserves e m v other j inside =
    let t : (not (e.type == 1) || e.length == 0) ≡ true = ground (arith, other) in
    rw (t, (mark_reserved_range_lem e.base e.length m j (v.page_bytes, v.usable_bytes)).0, inside)
      refl

reserve_entries-Shrinks :
    (fuel offset : ℕ) (d : BootData) (m : Memory)
    → IsAllocator m
    → Shrinks m (reserve_entries fuel offset d m)
unfolding reserve_entries
reserve_entries-Shrinks zero offset d m v j h = h
reserve_entries-Shrinks (suc fuel) offset d m v j h =
    elim (Bool-cases (ltb offset d.info.mmap_length)) [
      | inl e ↦ rw e (
          reserve_entries-Shrinks fuel (further d offset) d (reserve_entry (d.entry_at offset) m)
            (reserve_entry-IsAllocator (d.entry_at offset) m v) j
            (reserve_entry-Shrinks (d.entry_at offset) m v j h))
      | inr e ↦ rw e h
    ]

pub reserve_entries-AllReserved :
    (fuel offset : ℕ) (d : BootData) (m : Memory)
    → IsAllocator m
    → AllReserved fuel offset d (reserve_entries fuel offset d m)
unfolding reserve_entries AllReserved
reserve_entries-AllReserved zero offset d m v = tt
reserve_entries-AllReserved (suc fuel) offset d m v =
    elim (Bool-cases (ltb offset d.info.mmap_length)) [
      | inl e ↦
          let m' = reserve_entry (d.entry_at offset) m in
          let v' = reserve_entry-IsAllocator (d.entry_at offset) m v in
          rw e (
            λ other j inside.
                reserve_entries-Shrinks fuel (further d offset) d m' v' j
                  (reserve_entry-Reserves (d.entry_at offset) m v other j inside),
            reserve_entries-AllReserved fuel (further d offset) d m' v',
          )
      | inr e ↦ rw e tt
    ]

reserve_address_range-Shrinks :
    (start end : ℕ) (m : Memory) → IsAllocator m → Shrinks m (reserve_address_range start end m)
reserve_address_range-Shrinks start end m v j h =
    rw (usable-reserve_address_range start end m j (v.page_bytes, v.usable_bytes), h) (ground arith)

pub reserve_kernel_ranges-Shrinks :
    (d : BootData) (m : Memory) → IsAllocator m → Shrinks m (reserve_kernel_ranges d m)
unfolding reserve_kernel_ranges
reserve_kernel_ranges-Shrinks d m v j h =
    let m1 = reserve_address_range 0x100000 0x200000 m in
    let m2 = reserve_address_range d.text_start d.bss_end m1 in
    let m3 = reserve_address_range 0x2F0000 0x300000 m2 in
    let v1 = reserve_address_range-IsAllocator 0x100000 0x200000 m v in
    let v2 = reserve_address_range-IsAllocator d.text_start d.bss_end m1 v1 in
    let v3 = reserve_address_range-IsAllocator 0x2F0000 0x300000 m2 v2 in
    let info_end = (d.info_address + 52) % 2 ^ 32 in
    let m4 = reserve_address_range d.info_address info_end m3 in
    let v4 = reserve_address_range-IsAllocator d.info_address info_end m3 v3 in
    reserve_address_range-Shrinks d.info.mmap_addr
      ((d.info.mmap_addr + d.info.mmap_length) % 2 ^ 32) m4 v4 j
      (reserve_address_range-Shrinks d.info_address info_end m3 v3 j (
        reserve_address_range-Shrinks 0x2F0000 0x300000 m2 v2 j (
          reserve_address_range-Shrinks d.text_start d.bss_end m1 v1 j
            (reserve_address_range-Shrinks 0x100000 0x200000 m v j h))))
