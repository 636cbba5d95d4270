-- ===== src/Tests/Pagings.antt =====
-- Page tables at concrete addresses.
use glass_os.Prelude.{
  ℕ, ◌<◌, ◌≡◌, ◌⊎◌, inl, refl, true, false, text, arith, ◌==◌, ◌^◌, if◌then◌else◌,
}
use glass_os.Kernel.{Kernel}
use glass_os.Memory.Bitmap.{IsBytes, bitmap_is_set}
use glass_os.Memory.{page_alloc_contiguous}
use glass_os.Paging.Words.{read64, write64, byte_of, bit, frame_of}
use glass_os.Paging.{memory_create_address_space, memory_map_process_page}
use glass_os.Paging.Map.{Leads, pd_entry}
use glass_os.Paging.Process.{IsUpper, IsTaken}
use glass_os.Paging.Calls.{IsMapped, IsMapped-present, IsMapped-fresh, memory_map_process_page_bad}
use glass_os.Paging.Create.{IsCreated, memory_create_address_space_lem}
use glass_os.Tests.Sample.{kernel}

-- Tables at 0x1000, 0x2000 and 0x3000, a page table at 0x4000 for the first 2 MiB, and the first
-- eight pages taken.
abbrev tables : ℕ → ℕ
tables = write64 0x3000 0x4003 (write64 0x2000 0x3003 (write64 0x1000 0x2003 (λ i. 0)))

abbrev paged : Kernel
paged = record kernel {
  paging = record kernel.paging { physical = tables };
  memory = record kernel.memory { page_bitmap = λ i. if i == 0 then 255 else 0 };
}

paged-IsBytes : IsBytes paged.memory.page_bitmap
paged-IsBytes i = ground arith

first-Leads : Leads tables 0x1000 0x2000
unfolding read64 write64 byte_of bit frame_of
first-Leads = record {
  frame = refl;
  present = refl;
  writable = refl;
  small = refl;
  executable = refl;
}

second-Leads : Leads tables 0x2000 0x3000
unfolding read64 write64 byte_of bit frame_of
second-Leads = record {
  frame = refl;
  present = refl;
  writable = refl;
  small = refl;
  executable = refl;
}

third-Leads : Leads tables (pd_entry 0x3000 0x5000) 0x4000
unfolding read64 write64 byte_of bit frame_of
third-Leads = record {
  frame = refl;
  present = refl;
  writable = refl;
  small = refl;
  executable = refl;
}

upper : (virtual : ℕ) → virtual < 2 ^ 30 → IsUpper tables 0x1000 0x2000 0x3000 virtual
unfolding frame_of
upper virtual low = record {
  top = refl;
  low = low;
  first = first-Leads;
  second = second-Leads;
  pml4_pdpt = inl (omega arith);
  pml4_pd = inl (omega arith);
  pdpt_pd = inl (omega arith);
}

taken4 : IsTaken paged.memory 0x1000
unfolding bitmap_is_set
taken4 = record { aligned = refl; taken = refl }

taken3 : IsTaken paged.memory 0x2000
unfolding bitmap_is_set
taken3 = record { aligned = refl; taken = refl }

taken2 : IsTaken paged.memory 0x3000
unfolding bitmap_is_set
taken2 = record { aligned = refl; taken = refl }

-- The code page of a process, where there is no page table yet.
absent : bit 1 (read64 tables (pd_entry 0x3000 0x400000)) ≡ false
unfolding read64 write64 byte_of bit
absent = refl

IsMapped-fresh_example :
    ((page_alloc_contiguous 1 paged).0 ≡ 0)
      × ((memory_map_process_page 0x1000 0x400000 0x10000 true false true
            (text "allow:user-code-page")
            paged).0
          ≡ false)
      × ((memory_map_process_page 0x1000 0x400000 0x10000 true false true
            (text "allow:user-code-page")
            paged).1.paging
          ≡ paged.paging)
    ⊎ (((memory_map_process_page 0x1000 0x400000 0x10000 true false true
            (text "allow:user-code-page")
            paged).0
          ≡ true)
        × IsMapped 0x1000 0x400000 0x10000 true false true
            (text "allow:user-code-page")
            paged
            0x400123)
IsMapped-fresh_example =
    IsMapped-fresh 0x1000 0x400000 0x10000 true false true (text "allow:user-code-page") paged refl
      (omega arith) (upper 0x400000 (omega arith)) 0x400123 refl absent paged-IsBytes taken4 taken3
      taken2

IsMapped-present_example :
    ((memory_map_process_page 0x1000 0x5000 0x10000 false true false (text "allow:page") paged).0
      ≡ true)
    × IsMapped 0x1000 0x5000 0x10000 false true false (text "allow:page") paged 0x5FFF
IsMapped-present_example =
    IsMapped-present 0x1000 0x5000 0x10000 false true false (text "allow:page") paged refl
      (omega arith) (upper 0x5000 (omega arith)) 0x5FFF refl third-Leads (inl (omega arith))
      (inl (omega arith)) (inl (omega arith))

memory_map_process_page_bad_example :
    let r =
      memory_map_process_page 0x1000 0x5001 0x10000 false true false (text "allow:page") paged in
    (r.0 ≡ false) × (r.1.paging ≡ paged.paging) × (r.1.memory ≡ paged.memory)
memory_map_process_page_bad_example =
    memory_map_process_page_bad 0x1000 0x5001 0x10000 false true false (text "allow:page") paged
      refl

memory_create_address_space_lem_example :
    let r = memory_create_address_space (text "process/hello") paged in
    ((r.0 ≡ 0) × (r.1.paging ≡ paged.paging))
    ⊎ IsCreated (text "process/hello") paged r.0 r.1 0x400000
memory_create_address_space_lem_example =
    memory_create_address_space_lem (text "process/hello") paged paged-IsBytes 0x400000
      (omega arith)
