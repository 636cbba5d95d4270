-- ===== src/Memory/Boot.antt =====
-- memory_init of kernel/memory.c: the memory map of the boot loader, the kernel's own ranges, and
-- the first allocation, which is the heap.
use glass_os.Prelude.{
  ℕ, zero, suc, ◌+◌, ◌-◌, ◌*◌, ◌/◌, ◌%◌, ◌^◌, Bool, true, false, not, ◌&&◌, ◌||◌, text, ltb, leb,
  ◌==◌, if◌then◌else◌,
}
use glass_os.Kernel.{Kernel, Memory, event_ok, event_fault, M, ◌>>◌, pure, modify, next32}
use glass_os.Event.{event_current, object_update_state}
use glass_os.Object.{object_id, object_register}
use glass_os.Memory.{
  page_size, map_limit, heap_page_count, mark_usable_range, mark_reserved_range,
  reserve_address_range, recount_usable_memory, page_alloc_contiguous, note,
}

-- struct multiboot_info, the fields that are read
pub record MultibootInfo : Type 0 where
  pub flags : ℕ
  pub mmap_length : ℕ
  pub mmap_addr : ℕ

-- struct multiboot_mmap
pub record MmapEntry : Type 0 where
  pub size : ℕ
  pub base : ℕ
  pub length : ℕ
  pub type : ℕ

-- The linker's and the loader's data: the bounds of the kernel image, the address of the multiboot
-- structure, and what lies in memory there and at each byte offset of the memory map.
pub record BootData : Type 0 where
  pub text_start : ℕ
  pub bss_end : ℕ
  pub info_address : ℕ
  pub info : MultibootInfo
  pub entry_at : ℕ → MmapEntry

abbrev pub bad_entry : BootData → ℕ → Bool
bad_entry d offset =
    ltb (d.info.mmap_length - offset) 24
    || ltb (d.entry_at offset).size 20
    || ltb (d.info.mmap_length - offset - 4) (d.entry_at offset).size

-- One round of the first loop of memory_init.
abbrev pub take_entry : MmapEntry → Memory → Memory
take_entry e m =
    let m' = record m { detected_entry_count = next32 m.detected_entry_count } in
    if e.type == 1 && not (e.length == 0) then mark_usable_range e.base e.length m' else m'

-- The first loop of memory_init: false for an entry that does not fit.
unfoldable pub take_entries : ℕ → ℕ → BootData → Memory → Bool × Memory
take_entries zero offset d m = (true, m)
take_entries (suc fuel) offset d m =
    let rest =
      take_entries fuel ((offset + (d.entry_at offset).size + 4) % 2 ^ 32) d
        (take_entry (d.entry_at offset) m) in
    if not (ltb offset d.info.mmap_length)
    then (true, m)
    else if bad_entry d offset
    then (false, m)
    else rest

abbrev pub reserve_entry : MmapEntry → Memory → Memory
reserve_entry e m =
    if not (e.type == 1) || e.length == 0 then mark_reserved_range e.base e.length m else m

-- The second loop.
unfoldable pub reserve_entries : ℕ → ℕ → BootData → Memory → Memory
reserve_entries zero offset d m = m
reserve_entries (suc fuel) offset d m =
    let rest =
      reserve_entries fuel ((offset + (d.entry_at offset).size + 4) % 2 ^ 32) d
        (reserve_entry (d.entry_at offset) m) in
    if ltb offset d.info.mmap_length then rest else m

-- sizeof(struct multiboot_info) is 52.
unfoldable pub reserve_kernel_ranges : BootData → Memory → Memory
reserve_kernel_ranges d m =
    reserve_address_range d.info.mmap_addr ((d.info.mmap_addr + d.info.mmap_length) % 2 ^ 32) (
      reserve_address_range d.info_address ((d.info_address + 52) % 2 ^ 32) (
        reserve_address_range 0x2F0000 0x300000 (
          reserve_address_range d.text_start d.bss_end
            (reserve_address_range 0x100000 0x200000 m))))

-- The test at the head of memory_init.
abbrev pub bad_boot_data : BootData → Bool
bad_boot_data d =
    d.info_address == 0
    || d.info.flags / 2 ^ 6 % 2 == 0
    || d.info.mmap_length == 0
    || d.info.mmap_addr == 0
    || leb map_limit d.info.mmap_addr
    || ltb (map_limit - d.info.mmap_addr) d.info.mmap_length

abbrev pub with_memory : (Memory → Memory) → Kernel → Kernel
with_memory f k = record k { memory = f k.memory }

-- Fully reserved bitmaps and no heap; bitmap_fill writes every byte of the arrays.
abbrev pub reset_memory : Memory → Memory
reset_memory m = record m {
  page_bitmap = λ i. 0xFF;
  usable_bitmap = λ i. 0;
  detected_entry_count = 0;
  usable_memory_bytes = 0;
  heap_ptr = 0;
  heap_base = 0;
  heap_limit = 0;
  allocator_ready = false;
}

abbrev pub register_allocator : Kernel → Kernel
register_allocator k =
    let memory_id = object_id (text "memory") k.registry in
    let (_, r) =
      object_register (text "allocator") (text "page_allocator") memory_id (text "initializing")
        (event_current k) k.registry in
    let (_, r') =
      object_register (text "heap") (text "heap") memory_id (text "initializing") (event_current k)
        r in
    record k { registry = r' }

-- memory_init from `allocator_ready = 1` on.
unfoldable pub allocate_heap : M Bool
allocate_heap k =
    let (heap_start, k') =
      page_alloc_contiguous heap_page_count
        (with_memory (λ m. record m { allocator_ready = true }) k) in
    if heap_start == 0
    then (do
      note (text "heap") (text "allocate_pages") event_fault (text "deny:no-pages")
      modify (with_memory (λ m. record m { allocator_ready = false }))
      pure false)
        k'
    else (do
      object_update_state (text "page_allocator") (text "ready")
      object_update_state (text "heap") (text "ready")
      note (text "heap") (text "allocate_pages") event_ok (text "allow:bootstrap-heap")
      modify (
          with_memory (λ m. record m {
            heap_ptr = heap_start;
            heap_base = heap_start;
            heap_limit = heap_start + heap_page_count * page_size;
          }))
      note (text "memory") (text "parse_multiboot") event_ok (text "allow:real-memory-map")
      pure true)
        k'

-- Each entry moves the offset by at least 24, so mmap_length rounds are more than the loops take.
unfoldable pub memory_init : BootData → M Bool
memory_init d k =
    if bad_boot_data d
    then (do
      note (text "memory") (text "parse_multiboot") event_fault (text "deny:invalid-memory-map")
      pure false)
        k
    else let k' = register_allocator (with_memory reset_memory k) in
      let (ok, m) = take_entries d.info.mmap_length 0 d k'.memory in
      if ok
      then allocate_heap (
          with_memory
            (λ _.
              recount_usable_memory
                (reserve_kernel_ranges d (reserve_entries d.info.mmap_length 0 d m)))
            k')
      else (do
        note (text "memory") (text "parse_multiboot") event_fault (text "deny:bad-memory-map-entry")
        pure false)
          (with_memory (λ _. m) k')
