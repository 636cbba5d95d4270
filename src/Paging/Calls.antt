-- ===== src/Paging/Calls.antt =====
-- memory_map_process_page of kernel/memory.c on all of its branches.
use glass_os.Prelude.{
  ℕ, ◌+◌, ◌*◌, ◌/◌, ◌%◌, ◌^◌, ◌<◌, ◌≡◌, refl, sym, ap, ◌∙◌, ◌⊎◌, inl, inr, Bool, true, false, some,
  arith, ◌==◌, Bool-cases,
}
use glass_os.Text.{Text}
use glass_os.Kernel.{Kernel, Memory}
use glass_os.Event.{event_record, event_record_kind}
use glass_os.Memory.{page_alloc, page_alloc_contiguous}
use glass_os.Memory.Bitmap.{IsBytes, bitmap_is_set}
use glass_os.Memory.Pages.{Granted, page_alloc_contiguous_lem}
use glass_os.Memory.Others.{page_alloc_contiguous-Others}
use glass_os.Paging.Words.{read64, bit}
use glass_os.Paging.Walk.{walk}
use glass_os.Paging.{write_mapping, map_in_table, memory_map_process_page, bad_page}
use glass_os.Paging.Map.{Leads, Distinct, IsSpace, pd_entry}
use glass_os.Paging.Translate.{SamePage, write_mapping_lem}
use glass_os.Paging.Process.{IsUpper, IsTaken, with_table, with_table-IsSpace}

true-false : true ≡ false → ⊥
true-false h = cc

module _ (cr3 virtual physical : ℕ) (user writable executable : Bool) (policy : Text)
    (k : Kernel) where
  abbrev p : ℕ → ℕ
  p = k.paging.physical

  abbrev run : Bool × Kernel
  run = memory_map_process_page cr3 virtual physical user writable executable policy k

  -- A call without an address space, for an address that is not that of a page, or for a virtual
  -- address of 1 GiB or more, fails: no byte of memory changes, and no page is taken.
  pub memory_map_process_page_bad :
      bad_page cr3 virtual physical ≡ true
      → (run.0 ≡ false) × (run.1.paging ≡ k.paging) × (run.1.memory ≡ k.memory)
  unfolding memory_map_process_page event_record event_record_kind
  memory_map_process_page_bad bad = rw bad (refl, refl, refl)

  -- The address translates to its place in the physical page, with the flags of the call.
  abbrev pub IsMapped : ℕ → Type 0
  IsMapped w =
      walk run.1.paging.physical cr3 w
      ≡ some (record {
        address = physical + w % 2 ^ 12;
        user = user;
        writable = writable;
        executable = executable;
      })

  module _ (good : bad_page cr3 virtual physical ≡ false) (fits : physical < 2 ^ 52) {pdpt pd : ℕ}
      (v : IsUpper k.paging.physical cr3 pdpt pd virtual) where
    physical_aligned : physical % 4096 ≡ 0
    physical_aligned = ground (arith, good)

    run_present :
        bit 1 (read64 p (pd_entry pd virtual)) ≡ true
        → (run.0 ≡ true)
          × (run.1.paging.physical
              ≡ write_mapping cr3 pdpt pd virtual physical user writable executable p)
    unfolding memory_map_process_page map_in_table event_record event_record_kind
    run_present there = rw (good, v.first.frame, v.second.frame, there) (refl, refl)

    -- memory_map_process_page for a proper virtual page below 1 GiB and a physical page below 2^52, in
    -- an address space with three different upper tables, where the page directory leads to a page
    -- table that is a fourth page: the call succeeds, and every address of the page then translates to
    -- the physical page, with user mode, writing and execution allowed exactly where the call asked
    -- for them.
    pub IsMapped-present :
        {pt : ℕ} (w : ℕ)
        → SamePage w virtual
        → Leads k.paging.physical (pd_entry pd virtual) pt
        → Distinct cr3 pt
        → Distinct pdpt pt
        → Distinct pd pt
        → (run.0 ≡ true) × IsMapped w
    IsMapped-present {pt} w page third a b c =
        let done = run_present third.present in
        let space : IsSpace k.paging.physical cr3 pdpt pd pt virtual = record {
          top = v.top;
          low = v.low;
          first = v.first;
          second = v.second;
          third = third;
          pml4_pdpt = v.pml4_pdpt;
          pml4_pd = v.pml4_pd;
          pml4_pt = a;
          pdpt_pd = v.pdpt_pd;
          pdpt_pt = b;
          pd_pt = c;
        } in
        (
          done.0,
          ap (λ q. walk q cr3 w) done.1
              ∙ write_mapping_lem p space physical user writable executable physical_aligned fits w
                  page,
        )

    abbrev allocated : ℕ × Kernel
    allocated = page_alloc_contiguous 1 k

    run_absent :
        bit 1 (read64 p (pd_entry pd virtual)) ≡ false
        → (allocated.0 ≡ 0 → (run.0 ≡ false) × (run.1.paging ≡ k.paging))
          × ((allocated.0 == 0) ≡ false
              → (run.0 ≡ true)
                × (run.1.paging.physical
                    ≡ write_mapping cr3 pdpt pd virtual physical user writable executable
                        (with_table (pd_entry pd virtual) allocated.0 user p)))
    unfolding memory_map_process_page map_in_table event_record event_record_kind page_alloc
    run_absent there = (
      λ e.
          rw (good, v.first.frame, v.second.frame, there, e)
            (refl, (page_alloc_contiguous-Others 1 k).paging),
      λ e.
          rw (good, v.first.frame, v.second.frame, there, e)
            (refl, rw (page_alloc_contiguous-Others 1 k).paging),
    )

    taken-Distinct :
        {page address : ℕ} {m' : Memory}
        → Granted 1 page k.memory m'
        → IsTaken k.memory address
        → Distinct address (page * 4096)
    taken-Distinct {page} {address} g t = elim (Bool-cases (address / 4096 == page)) [
      | inl e ↦
          let same : page + 0 ≡ address / 4096 = ground (arith, e) in
          let free =
            sym (ap (bitmap_is_set k.memory.page_bitmap) same) ∙ g.was_free 0 (omega arith) in
          absurd (true-false (sym t.taken ∙ free))
      | inr e ↦ ground (arith, t.aligned, e)
    ]

    -- memory_map_process_page for a proper virtual page below 1 GiB and a physical page below 2^52,
    -- in an address space with three different upper tables. Where the page directory has no entry
    -- for the address, and the three tables are pages that the allocator has given away and its
    -- bitmap holds bytes, the call either fails, and then the allocator had no page for it and no
    -- byte of memory changes, or succeeds with a page table of its own; every address of the page
    -- then translates to the physical page, and user mode, writing and execution are allowed
    -- exactly where the call asked for them.
    pub IsMapped-fresh :
        (w : ℕ)
        → SamePage w virtual
        → bit 1 (read64 k.paging.physical (pd_entry pd virtual)) ≡ false
        → IsBytes k.memory.page_bitmap
        → IsTaken k.memory cr3
        → IsTaken k.memory pdpt
        → IsTaken k.memory pd
        → ((allocated.0 ≡ 0) × (run.0 ≡ false) × (run.1.paging ≡ k.paging))
          ⊎ ((run.0 ≡ true) × IsMapped w)
    IsMapped-fresh w same_page absent bytes t4 t3 t2 = elim (page_alloc_contiguous_lem 1 k bytes) [
      | inl (none_left, refused) ↦
          let failed = (run_absent absent).0 none_left in inl (none_left, failed.0, failed.1)
      | inr (page, at, g) ↦
          let d4 = taken-Distinct g t4 in
          let d3 = taken-Distinct g t3 in
          let d2 = taken-Distinct g t2 in
          let some_page : (allocated.0 == 0) ≡ false = ground (arith, at, g.low) in
          let done = (run_absent absent).1 some_page in
          let space =
            with_table-IsSpace p v allocated.0 user (omega (arith, at)) (omega (arith, at, g.high))
              (rw at d4) (rw at d3) (rw at d2) in
          inr (
            done.0,
            ap (λ q. walk q cr3 w) done.1
                ∙ write_mapping_lem _ space physical user writable executable physical_aligned fits
                    w same_page,
          )
    ]
