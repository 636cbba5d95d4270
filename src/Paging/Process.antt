-- ===== src/Paging/Process.antt =====
-- memory_map_process_page of kernel/memory.c as a call: its refusals, and the page table that it
-- allocates where there is none.
use glass_os.Prelude.{ℕ, ◌+◌, ◌/◌, ◌%◌, ◌^◌, ◌≤◌, ◌<◌, ◌≡◌, ◌⊎◌, Bool, true, false, arith}
use glass_os.Kernel.{Memory}
use glass_os.Memory.Bitmap.{bitmap_is_set}
use glass_os.Paging.Words.{read64, write64, frame_of, read64-write64_self}
use glass_os.Paging.Bits.{with_flags-HasFlags}
use glass_os.Paging.{with_flags, fill_page}
use glass_os.Paging.Map.{Leads, Leads-write64, Distinct, IsSpace, pd_entry}

-- The three upper tables of an address space, with nothing said of the page table.
pub record IsUpper (p : ℕ → ℕ) (pml4 pdpt pd virtual : ℕ) : Type 0 where
  pub top : frame_of pml4 ≡ pml4
  pub low : virtual < 2 ^ 30
  pub first : Leads p pml4 pdpt
  pub second : Leads p pdpt pd
  pub pml4_pdpt : Distinct pml4 pdpt
  pub pml4_pd : Distinct pml4 pd
  pub pdpt_pd : Distinct pdpt pd

-- The allocator has given the page away.
pub record IsTaken (m : Memory) (address : ℕ) : Type 0 where
  pub aligned : address % 4096 ≡ 0
  pub taken : bitmap_is_set m.page_bitmap (address / 4096) ≡ true

fill_page-outside :
    (a value i : ℕ) (p : ℕ → ℕ) → (i < a) ⊎ (a + 4096 ≤ i) → fill_page a value p i ≡ p i
unfolding fill_page
fill_page-outside a value i p h = ground arith

read64-fill_page :
    (a value b : ℕ) (p : ℕ → ℕ)
    → (b + 8 ≤ a) ⊎ (a + 4096 ≤ b)
    → read64 (fill_page a value p) b ≡ read64 p b
unfolding read64
read64-fill_page a value b p h = omega (
  arith,
  fill_page-outside a value b p (ground arith),
  fill_page-outside a value (b + 1) p (ground arith),
  fill_page-outside a value (b + 2) p (ground arith),
  fill_page-outside a value (b + 3) p (ground arith),
  fill_page-outside a value (b + 4) p (ground arith),
  fill_page-outside a value (b + 5) p (ground arith),
  fill_page-outside a value (b + 6) p (ground arith),
  fill_page-outside a value (b + 7) p (ground arith),
)

Leads-fill_page :
    (p : ℕ → ℕ) (a at table : ℕ)
    → (at + 8 ≤ a) ⊎ (a + 4096 ≤ at)
    → Leads p at table
    → Leads (fill_page a 0 p) at table
Leads-fill_page p a at table apart l =
    let same = read64-fill_page a 0 at p apart in
    record {
      frame = rw same l.frame;
      present = rw same l.present;
      writable = rw same l.writable;
      small = rw same l.small;
      executable = rw same l.executable;
    }

-- A new, empty page table behind its entry.
abbrev pub with_table : ℕ → ℕ → Bool → (ℕ → ℕ) → ℕ → ℕ
with_table entry pt user p = write64 entry (with_flags pt true user false) (fill_page pt 0 p)

pub Leads-flags :
    (q : ℕ → ℕ) (at pt : ℕ) (user : Bool)
    → pt % 4096 ≡ 0
    → pt < 2 ^ 52
    → Leads (write64 at (with_flags pt true user false) q) at pt
Leads-flags q at pt user aligned fits =
    let flags = with_flags-HasFlags pt true user false aligned fits in
    let same = read64-write64_self at (with_flags pt true user false) q in
    record {
      frame = rw same flags.frame;
      present = rw same flags.present;
      writable = rw same flags.is_writable;
      small = rw same flags.small;
      executable = rw same flags.not_executable;
    }

module _ (p : ℕ → ℕ) {pml4 pdpt pd virtual : ℕ} (v : IsUpper p pml4 pdpt pd virtual) (pt : ℕ)
    (user : Bool) where
  pub with_table-IsSpace :
      pt % 4096 ≡ 0
      → pt < 2 ^ 52
      → Distinct pml4 pt
      → Distinct pdpt pt
      → Distinct pd pt
      → IsSpace (with_table (pd_entry pd virtual) pt user p) pml4 pdpt pd pt virtual
  with_table-IsSpace aligned fits a b c = record {
    top = v.top;
    low = v.low;
    first =
        Leads-write64 (fill_page pt 0 p) _ _ pml4 pdpt (ground (arith, v.pml4_pd))
          (Leads-fill_page p pt pml4 pdpt (ground arith) v.first);
    second =
        Leads-write64 (fill_page pt 0 p) _ _ pdpt pd (ground (arith, v.pdpt_pd))
          (Leads-fill_page p pt pdpt pd (ground arith) v.second);
    third = Leads-flags (fill_page pt 0 p) (pd_entry pd virtual) pt user aligned fits;
    pml4_pdpt = v.pml4_pdpt;
    pml4_pd = v.pml4_pd;
    pml4_pt = a;
    pdpt_pd = v.pdpt_pd;
    pdpt_pt = b;
    pd_pt = c;
  }
