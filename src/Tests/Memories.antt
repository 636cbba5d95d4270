-- ===== src/Tests/Memories.antt =====
-- The page allocator, the heap and the boot.
use glass_os.Prelude.{
  ◌≡◌, ◌≢◌, refl, arith, ℕ, ◌+◌, ◌*◌, ◌/◌, ◌⊎◌, not, ◌&&◌, ◌==◌, true, false, [], ◌∷◌,
}
use glass_os.Memory.Bitmap.{bitmap_is_set, bitmap_clear, is_set-full}
use glass_os.Memory.Search.{IsAllocator}
use glass_os.Memory.Pages.{IsOwned, Granted, Refused, page_alloc_contiguous_lem, page_free_lem}
use glass_os.Memory.Count.{free_pages-page_alloc_contiguous}
use glass_os.Memory.Heap.{IsHeap, Apart, malloc_all, malloc_all-Apart}
use glass_os.Memory.Boot.{BootData, memory_init, take_entries}
use glass_os.Memory.Startup.{Started, memory_init_lem}
use glass_os.Memory.{page_alloc_contiguous, page_free, page_size, page_allocator_free_pages}
use glass_os.Tests.Sample.{kernel}

kernel-IsAllocator : IsAllocator kernel.memory
kernel-IsAllocator = record {
  page_bytes = λ i. omega arith;
  usable_bytes = λ i. omega arith;
  free_is_usable = λ j h. is_set-full j;
}

kernel-IsHeap : IsHeap kernel.memory
kernel-IsHeap = record {
  based = omega arith;
  low = omega arith;
  high = omega arith;
  word = omega arith;
  aligned = omega arith;
}

page_alloc_contiguous_lem_example :
    ((page_alloc_contiguous 2 kernel).0 ≡ 0)
      × Refused 2 kernel.memory (page_alloc_contiguous 2 kernel).1.memory
    ⊎ ((page : ℕ) × ((page_alloc_contiguous 2 kernel).0 ≡ page * page_size)
        × Granted 2 page kernel.memory (page_alloc_contiguous 2 kernel).1.memory)
page_alloc_contiguous_lem_example = page_alloc_contiguous_lem 2 kernel kernel-IsAllocator.page_bytes

free_pages-page_alloc_contiguous_example :
    let (address, k') = page_alloc_contiguous 2 kernel in
    ((address ≡ 0)
      × (page_allocator_free_pages k'.memory ≡ page_allocator_free_pages kernel.memory))
    ⊎ ((address ≢ 0)
        × (page_allocator_free_pages k'.memory + 2 ≡ page_allocator_free_pages kernel.memory))
free_pages-page_alloc_contiguous_example =
    free_pages-page_alloc_contiguous 2 kernel kernel-IsAllocator

page_free_lem_example :
    let m' = (page_free 0x200000 kernel).1.memory in
    (IsOwned 0x200000 kernel.memory
      × (m' ≡ record kernel.memory {
        page_bitmap = bitmap_clear kernel.memory.page_bitmap (0x200000 / page_size);
      })
      × ((j : ℕ)
          → bitmap_is_set m'.page_bitmap j
            ≡ (not (0x200000 / page_size == j) && bitmap_is_set kernel.memory.page_bitmap j)))
    ⊎ ((¬ IsOwned 0x200000 kernel.memory) × (m' ≡ kernel.memory))
page_free_lem_example = page_free_lem 0x200000 kernel kernel-IsAllocator.page_bytes

abbrev request : ℕ
request = 20

malloc_all-Apart_example : Apart 0x400000 0x410000 (malloc_all (20 ∷ 0 ∷ 7 ∷ []) kernel).0
malloc_all-Apart_example = malloc_all-Apart (20 ∷ 0 ∷ 7 ∷ []) kernel kernel-IsHeap

-- A memory map of one usable entry, the 16 MiB from 1 MiB on.
abbrev pub boot_data : BootData
boot_data = record {
  text_start = 0x200000;
  bss_end = 0x280000;
  info_address = 0x9000;
  info = record { flags = 64; mmap_length = 24; mmap_addr = 0xA000 };
  entry_at = λ offset. record { size = 20; base = 0x100000; length = 0x1000000; type = 1 };
}

memory_init_lem_example :
    let (ok, k') = memory_init boot_data kernel in
    ((ok ≡ true) × Started boot_data k'.memory)
    ⊎ ((ok ≡ false) × ((k'.memory ≡ kernel.memory) ⊎ (k'.memory.allocator_ready ≡ false)))
memory_init_lem_example = memory_init_lem boot_data kernel

map_fits : (take_entries 24 0 boot_data kernel.memory).0 ≡ true
unfolding take_entries
map_fits = refl
