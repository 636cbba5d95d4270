-- ===== src/Paging/Create.antt =====
-- memory_create_address_space of kernel/memory.c against the allocator and the layout of the tables.
use glass_os.Prelude.{
  ℕ, ◌+◌, ◌*◌, ◌/◌, ◌%◌, ◌^◌, ◌<◌, ◌≡◌, refl, sym, ap, ◌∙◌, ◌⊎◌, inl, inr, Bool, true, false, ◌||◌,
  arith, ◌==◌, Bool-cases,
}
use glass_os.Text.{Text}
use glass_os.Kernel.{Kernel}
use glass_os.Event.{event_record, event_record_kind}
use glass_os.Memory.{page_alloc, page_alloc_contiguous}
use glass_os.Memory.Bitmap.{IsBytes, bitmap_is_set}
use glass_os.Memory.Search.{take_pages-IsBytes}
use glass_os.Memory.Pages.{Granted, page_alloc_contiguous_lem}
use glass_os.Memory.Others.{page_alloc_contiguous-Others}
use glass_os.Paging.Words.{frame_of}
use glass_os.Paging.{build_tables, memory_create_address_space}
use glass_os.Paging.Map.{Leads, Leads-write64, Distinct}
use glass_os.Paging.Process.{IsUpper, IsTaken, Leads-flags}

true-false : true ≡ false → ⊥
true-false h = cc

-- What the allocator promises of one page.
pub record Fresh (k : Kernel) (address : ℕ) (k' : Kernel) : Type 0 where
  pub bytes : IsBytes k'.memory.page_bitmap
  pub same_paging : k'.paging ≡ k.paging
  pub own : IsTaken k'.memory address
  pub below : address < 2 ^ 30
  pub different : (a : ℕ) → IsTaken k.memory a → Distinct a address
  pub keeps : (a : ℕ) → IsTaken k.memory a → IsTaken k'.memory a

abbrev alloc : Kernel → ℕ × Kernel
alloc k = page_alloc_contiguous 1 k

Granted-Fresh :
    (k : Kernel) (page : ℕ)
    → IsBytes k.memory.page_bitmap
    → (alloc k).0 ≡ page * 4096
    → Granted 1 page k.memory (alloc k).1.memory
    → Fresh k (alloc k).0 (alloc k).1
Granted-Fresh k page bytes at g = record {
  bytes = rw g.only (take_pages-IsBytes 1 page k.memory.page_bitmap bytes);
  same_paging = (page_alloc_contiguous-Others 1 k).paging;
  own = record {
    aligned = omega (arith, at);
    taken =
        let quot : (alloc k).0 / 4096 ≡ page = omega (arith, at) in
        rw quot (g.taken page ∙ ground arith);
  };
  below = omega (arith, at, g.high);
  different = λ a t. elim (Bool-cases (a / 4096 == page)) [
    | inl e ↦
        let same : page + 0 ≡ a / 4096 = ground (arith, e) in
        let free =
          sym (ap (bitmap_is_set k.memory.page_bitmap) same) ∙ g.was_free 0 (omega arith) in
        absurd (true-false (sym t.taken ∙ free))
    | inr e ↦ ground (arith, t.aligned, e, at)
  ];
  keeps =
      λ a t. record { aligned = t.aligned; taken = g.taken (a / 4096) ∙ ground (arith, t.taken) };
}

-- A page, or none.
pub page_alloc-Fresh :
    (k : Kernel)
    → IsBytes k.memory.page_bitmap
    → (((alloc k).0 == 0) ≡ false)
    → Fresh k (alloc k).0 (alloc k).1
page_alloc-Fresh k bytes some_page = elim (page_alloc_contiguous_lem 1 k bytes) [
  | inl (none_left, refused) ↦ absurd (ground (arith, none_left))
  | inr (page, at, g) ↦ Granted-Fresh k page bytes at g
]

-- Two entries for user mode and two for the kernel, written last: the upper two lead on.
module _ (pml4 pdpt pd pt0 pt1 : ℕ) (p : ℕ → ℕ) where
  build_tables-first :
      pdpt % 4096 ≡ 0
      → pdpt < 2 ^ 52
      → Distinct pml4 pdpt
      → Distinct pml4 pd
      → Leads (build_tables pml4 pdpt pd pt0 pt1 p) pml4 pdpt
  unfolding build_tables
  build_tables-first aligned fits a b = Leads-write64 _ (pd + 8) _ pml4 pdpt (ground arith) (
      Leads-write64 _ pd _ pml4 pdpt (ground arith) (
        Leads-write64 _ pdpt _ pml4 pdpt (ground arith)
          (Leads-flags _ pml4 pdpt true aligned fits)))

  build_tables-second :
      pd % 4096 ≡ 0
      → pd < 2 ^ 52
      → Distinct pdpt pd
      → Leads (build_tables pml4 pdpt pd pt0 pt1 p) pdpt pd
  unfolding build_tables
  build_tables-second aligned fits a =
      Leads-write64 _ (pd + 8) _ pdpt pd (ground arith)
        (Leads-write64 _ pd _ pdpt pd (ground arith) (Leads-flags _ pdpt pd true aligned fits))

module _ (owner : Text) (k : Kernel) where
  abbrev pml4 : ℕ
  pml4 = (alloc k).0

  abbrev k1 : Kernel
  k1 = (alloc k).1

  abbrev pdpt : ℕ
  pdpt = (alloc k1).0

  abbrev k2 : Kernel
  k2 = (alloc k1).1

  abbrev pd : ℕ
  pd = (alloc k2).0

  abbrev k3 : Kernel
  k3 = (alloc k2).1

  abbrev pt0 : ℕ
  pt0 = (alloc k3).0

  abbrev k4 : Kernel
  k4 = (alloc k3).1

  abbrev pt1 : ℕ
  pt1 = (alloc k4).0

  abbrev k5 : Kernel
  k5 = (alloc k4).1

  abbrev short : Bool
  short = pml4 == 0 || pdpt == 0 || pd == 0 || pt0 == 0 || pt1 == 0

  abbrev created : ℕ × Kernel
  created = memory_create_address_space owner k

  same_paging : k5.paging ≡ k.paging
  same_paging =
      (page_alloc_contiguous-Others 1 k4).paging
      ∙ (page_alloc_contiguous-Others 1 k3).paging
      ∙ (page_alloc_contiguous-Others 1 k2).paging
      ∙ (page_alloc_contiguous-Others 1 k1).paging
      ∙ (page_alloc_contiguous-Others 1 k).paging

  create_short : short ≡ true → (created.0 ≡ 0) × (created.1.paging ≡ k.paging)
  unfolding memory_create_address_space page_alloc event_record event_record_kind
  create_short h = rw h (refl, same_paging)

  create_enough :
      short ≡ false
      → (created.0 ≡ pml4)
        × (created.1.paging.physical ≡ build_tables pml4 pdpt pd pt0 pt1 k5.paging.physical)
        × (created.1.memory ≡ k5.memory)
  unfolding memory_create_address_space page_alloc event_record event_record_kind
  create_enough h = rw h (refl, refl, refl)

  -- What a new address space has: upper tables that lead on for every address below 1 GiB, on three
  -- pages that the allocator has given away.
  pub record IsCreated (cr3 : ℕ) (k' : Kernel) (virtual : ℕ) : Type 0 where
    pub table3 : ℕ
    pub table2 : ℕ
    pub upper : IsUpper k'.paging.physical cr3 table3 table2 virtual
    pub bytes : IsBytes k'.memory.page_bitmap
    pub own4 : IsTaken k'.memory cr3
    pub own3 : IsTaken k'.memory table3
    pub own2 : IsTaken k'.memory table2

  frame_of-aligned : (a : ℕ) → a % 4096 ≡ 0 → a < 2 ^ 30 → frame_of a ≡ a
  unfolding frame_of
  frame_of-aligned a aligned fits = omega arith

  enough :
      IsBytes k.memory.page_bitmap
      → short ≡ false
      → (virtual : ℕ) → virtual < 2 ^ 30
      → IsCreated created.0 created.1 virtual
  enough bytes h virtual low =
      let f1 = page_alloc-Fresh k bytes (ground (arith, h)) in
      let f2 = page_alloc-Fresh k1 f1.bytes (ground (arith, h)) in
      let f3 = page_alloc-Fresh k2 f2.bytes (ground (arith, h)) in
      let f4 = page_alloc-Fresh k3 f3.bytes (ground (arith, h)) in
      let f5 = page_alloc-Fresh k4 f4.bytes (ground (arith, h)) in
      let d43 = f2.different pml4 f1.own in
      let d42 = f3.different pml4 (f2.keeps pml4 f1.own) in
      let d32 = f3.different pdpt f2.own in
      let done = create_enough h in
      record {
        table3 = pdpt;
        table2 = pd;
        upper =
            rw (done.0, done.1)
              (record {
                top = frame_of-aligned pml4 f1.own.aligned f1.below;
                low = low;
                first =
                    build_tables-first pml4 pdpt pd pt0 pt1 _ f2.own.aligned
                      (omega (arith, f2.below)) d43 d42;
                second =
                    build_tables-second pml4 pdpt pd pt0 pt1 _ f3.own.aligned
                      (omega (arith, f3.below)) d32;
                pml4_pdpt = d43;
                pml4_pd = d42;
                pdpt_pd = d32;
              });
        bytes = rw done.2 f5.bytes;
        own4 =
            rw (done.0, done.2)
              (f5.keeps pml4 (f4.keeps pml4 (f3.keeps pml4 (f2.keeps pml4 f1.own))));
        own3 = rw done.2 (f5.keeps pdpt (f4.keeps pdpt (f3.keeps pdpt f2.own)));
        own2 = rw done.2 (f5.keeps pd (f4.keeps pd f3.own));
      }

  -- With a bitmap that holds bytes, memory_create_address_space either fails, and then no byte of
  -- memory changes, or returns the top table of an address space: for every address below 1 GiB its
  -- upper tables lead on, and they are three different pages that the allocator has given away, which
  -- is what memory_map_process_page needs.
  pub memory_create_address_space_lem :
      IsBytes k.memory.page_bitmap
      → (virtual : ℕ) → virtual < 2 ^ 30
      → ((created.0 ≡ 0) × (created.1.paging ≡ k.paging)) ⊎ IsCreated created.0 created.1 virtual
  memory_create_address_space_lem bytes virtual low = elim (Bool-cases short) [
    | inl h ↦ inl (create_short h)
    | inr h ↦ inr (enough bytes h virtual low)
  ]
