-- ===== src/Memory/Startup.antt =====
-- What memory_init of kernel/memory.c leaves: an allocator, a heap, and the kernel's pages
-- reserved.
use glass_os.Prelude.{
  ℕ, ◌+◌, ◌-◌, ◌*◌, ◌/◌, ◌≡◌, refl, ◌∙◌, ◌⊎◌, inl, inr, Bool, true, false, Bool-cases, ◌==◌, arith,
}
use glass_os.Kernel.{Kernel, Memory}
use glass_os.Event.Frame.{memory-event_record_kind, memory_frame}
use glass_os.Event.{event_record}
use glass_os.Memory.Bitmap.{bitmap_is_set}
use glass_os.Memory.Search.{in_run, IsAllocator}
use glass_os.Memory.Pages.{page_alloc_contiguous_lem, page_alloc_contiguous-IsAllocator}
use glass_os.Memory.Heap.{IsHeap}
use glass_os.Memory.Mapping.{
  kernel_owns, kernel_reserved, ready-take_entries, take_entries-IsAllocator,
  reserve_entries-IsAllocator, reserve_kernel_ranges-IsAllocator, reset-IsAllocator,
  recount-IsAllocator,
}
use glass_os.Memory.Firmware.{
  AllReserved, AllReserved-Shrinks, reserve_entries-AllReserved, reserve_kernel_ranges-Shrinks,
}
use glass_os.Memory.Boot.{
  BootData, take_entries, reserve_entries, reserve_kernel_ranges, bad_boot_data, with_memory,
  reset_memory, register_allocator, allocate_heap, memory_init,
}
use glass_os.Memory.{page_size, recount_usable_memory, page_alloc_contiguous, heap_page_count}

-- What a successful memory_init leaves.
pub record Started (d : BootData) (m : Memory) : Type 0 where
  pub allocator : IsAllocator m
  pub heap : IsHeap m
  pub ready : m.allocator_ready ≡ true
  pub heap_size : m.heap_limit ≡ m.heap_base + heap_page_count * page_size
  pub heap_taken :
      (j : ℕ)
      → in_run (m.heap_base / page_size) heap_page_count j ≡ true
      → (bitmap_is_set m.page_bitmap j ≡ true) × (bitmap_is_set m.usable_bitmap j ≡ true)
  pub kernel_taken :
      (j : ℕ)
      → kernel_owns d j ≡ true
      → (bitmap_is_set m.page_bitmap j ≡ true) × (bitmap_is_set m.usable_bitmap j ≡ false)
  pub firmware_reserved : AllReserved d.info.mmap_length 0 d m

-- A map that the loops left is an allocator which reserves the kernel's pages and the firmware's.
abbrev Mapped : BootData → Memory → Type 0
Mapped d m =
    IsAllocator m
    × ((j : ℕ) → kernel_owns d j ≡ true → bitmap_is_set m.usable_bitmap j ≡ false)
    × AllReserved d.info.mmap_length 0 d m

abbrev set_ready : Bool → Memory → Memory
set_ready b m = record m { allocator_ready = b }

abbrev heap_at : ℕ → Memory → Memory
heap_at start m = record m {
  heap_ptr = start;
  heap_base = start;
  heap_limit = start + heap_page_count * page_size;
}

set_ready-IsAllocator : (b : Bool) (m : Memory) → IsAllocator m → IsAllocator (set_ready b m)
set_ready-IsAllocator b m v = record {
  page_bytes = v.page_bytes;
  usable_bytes = v.usable_bytes;
  free_is_usable = v.free_is_usable;
}

heap_at-IsAllocator : (start : ℕ) (m : Memory) → IsAllocator m → IsAllocator (heap_at start m)
heap_at-IsAllocator start m v = record {
  page_bytes = v.page_bytes;
  usable_bytes = v.usable_bytes;
  free_is_usable = v.free_is_usable;
}

module _ (k : Kernel) where
  abbrev allocated : ℕ × Kernel
  allocated = page_alloc_contiguous heap_page_count (with_memory (set_ready true) k)

  heap_none :
      (allocated.0 == 0) ≡ true
      → ((allocate_heap k).0 ≡ false)
        × ((allocate_heap k).1.memory ≡ set_ready false allocated.1.memory)
  unfolding allocate_heap event_record
  heap_none h = rw (allocate_heap, h) (refl, rw memory-event_record_kind)

  heap_some :
      (allocated.0 == 0) ≡ false
      → ((allocate_heap k).0 ≡ true)
        × ((allocate_heap k).1.memory ≡ heap_at allocated.0 allocated.1.memory)
  unfolding allocate_heap event_record
  heap_some h = rw (allocate_heap, h) (refl, simp memory_frame)

  -- The first page of the heap, and that the heap's pages are taken and usable.
  heap_Started :
      (d : BootData)
      → Mapped d k.memory
      → (allocated.0 == 0) ≡ false
      → Started d (heap_at allocated.0 allocated.1.memory)
  heap_Started d (v, reserved, firmware) h =
      elim (page_alloc_contiguous_lem heap_page_count (with_memory (set_ready true) k)
        v.page_bytes) [
          | inl (zero_address, refused) ↦ absurd (ground (arith, zero_address, h))
          | inr (page, address, g) ↦
              let v' : IsAllocator allocated.1.memory =
                page_alloc_contiguous-IsAllocator heap_page_count (with_memory (set_ready true) k)
                  (set_ready-IsAllocator true k.memory v) in
              rw address (record {
                allocator = heap_at-IsAllocator (page * page_size) allocated.1.memory v';
                heap = record {
                  based = omega (arith, g.low);
                  low = omega arith;
                  high = omega arith;
                  word = omega (arith, g.high);
                  aligned = omega arith;
                };
                ready = rw g.only refl;
                heap_size = refl;
                heap_taken = λ j inside.
                    let base : page * page_size / page_size ≡ page = omega arith in
                    let inside' : in_run page heap_page_count j ≡ true = rw base at inside in
                    let taken : bitmap_is_set allocated.1.memory.page_bitmap j ≡ true =
                      rw (g.taken j, inside') refl in
                    let index : page + (j - page) ≡ j = ground arith in
                    let free = rw index at (g.was_free (j - page) (ground arith)) in
                    (taken, rw g.only (v.free_is_usable j free));
                kernel_taken = λ j owns.
                    let unusable : bitmap_is_set allocated.1.memory.usable_bitmap j ≡ false =
                      rw g.only (reserved j owns) in
                    (ground (arith, v'.free_is_usable j, unusable), unusable);
                firmware_reserved =
                    AllReserved-Shrinks d.info.mmap_length 0 d k.memory _ (λ j h. rw g.only h)
                      firmware;
              })
        ]

usable-recount :
    (m : Memory) (j : ℕ)
    → bitmap_is_set (recount_usable_memory m).usable_bitmap j ≡ bitmap_is_set m.usable_bitmap j
unfolding recount_usable_memory
usable-recount m j = refl

module _ (d : BootData) (k : Kernel) where
  abbrev cleared : Kernel
  cleared = register_allocator (with_memory reset_memory k)

  abbrev parsed : Bool × Memory
  parsed = take_entries d.info.mmap_length 0 d cleared.memory

  abbrev mapped : Memory
  mapped =
      recount_usable_memory
        (reserve_kernel_ranges d (reserve_entries d.info.mmap_length 0 d parsed.1))

  mapped-Mapped : Mapped d mapped
  mapped-Mapped =
      let parsed_map =
        take_entries-IsAllocator d.info.mmap_length 0 d cleared.memory
          (reset-IsAllocator k.memory) in
      let reserved_map = reserve_entries-IsAllocator d.info.mmap_length 0 d parsed.1 parsed_map in
      (
        recount-IsAllocator _ (reserve_kernel_ranges-IsAllocator d _ reserved_map),
        λ j owns. usable-recount _ j ∙ kernel_reserved d _ j reserved_map owns,
        AllReserved-Shrinks d.info.mmap_length 0 d (reserve_entries d.info.mmap_length 0 d parsed.1)
            mapped
            (λ j h.
              usable-recount
                (reserve_kernel_ranges d (reserve_entries d.info.mmap_length 0 d parsed.1)) j
              ∙ reserve_kernel_ranges-Shrinks d (reserve_entries d.info.mmap_length 0 d parsed.1)
                  reserved_map j h)
            (reserve_entries-AllReserved d.info.mmap_length 0 d parsed.1 parsed_map),
      )

  init_bad :
      bad_boot_data d ≡ true
      → ((memory_init d k).0 ≡ false) × ((memory_init d k).1.memory ≡ k.memory)
  unfolding memory_init event_record
  init_bad h = rw (memory_init, h) (refl, rw memory-event_record_kind)

  init_bad_entry :
      bad_boot_data d ≡ false
      → parsed.0 ≡ false
      → ((memory_init d k).0 ≡ false) × ((memory_init d k).1.memory ≡ parsed.1)
  unfolding memory_init event_record
  init_bad_entry h h' = rw (memory_init, h, h') (refl, rw memory-event_record_kind)

  init_mapped :
      bad_boot_data d ≡ false
      → parsed.0 ≡ true
      → memory_init d k ≡ allocate_heap (with_memory (λ _. mapped) cleared)
  unfolding memory_init
  init_mapped h h' = rw (memory_init, h, h') refl

  -- memory_init either succeeds, and then only usable pages are free, the heap is in order on
  -- sixteen pages that are taken, every page of the loader, the kernel image, the boot stack and
  -- the multiboot data that can be allocated from is taken and not usable, and no page from 1 MiB
  -- up to 1 GiB is usable of which a byte lies in an entry of the memory map that is not of type
  -- 1, whatever other entries overlap it; or it fails, and then the memory state is unchanged or
  -- the page allocator refuses every request.
  pub memory_init_lem :
      let (ok, k') = memory_init d k in
      ((ok ≡ true) × Started d k'.memory)
      ⊎ ((ok ≡ false) × ((k'.memory ≡ k.memory) ⊎ (k'.memory.allocator_ready ≡ false)))
  memory_init_lem = elim (Bool-cases (bad_boot_data d)) [
    | inl h ↦ inr ((init_bad h).0, inl (init_bad h).1)
    | inr h ↦ elim (Bool-cases parsed.0) [
      | inr h' ↦
          let done = init_bad_entry h h' in
          inr (done.0, inr (rw done.1 (ready-take_entries d.info.mmap_length 0 d cleared.memory)))
      | inl h' ↦
          let start = with_memory (λ _. mapped) cleared in
          rw (init_mapped h h') (elim (Bool-cases ((allocated start).0 == 0)) [
            | inl h'' ↦ let done = heap_none start h'' in inr (done.0, inr (rw done.1 refl))
            | inr h'' ↦
                let done = heap_some start h'' in
                inl (done.0, rw done.1 (heap_Started start d mapped-Mapped h''))
          ])
    ]
  ]
