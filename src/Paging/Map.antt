-- ===== src/Paging/Map.antt =====
-- memory_map_process_page of kernel/memory.c against the translation of the CPU.
use glass_os.Prelude.{
  ℕ, ◌+◌, ◌*◌, ◌/◌, ◌%◌, ◌^◌, ◌≤◌, ◌<◌, ◌≡◌, refl, subst, ◌∙◌, ◌⊎◌, inl, inr, true, false, arith,
}
use glass_os.Paging.Words.{
  read64, write64, or_bit, bit, frame_of, Apart, read64-write64_self, read64-write64_other,
}
use glass_os.Paging.Bits.{user_entry, SameBut4, user_entry-SameBut4, user_entry-bit}
use glass_os.Paging.{allow_user}

-- The entry at an address leads to a table, and forbids nothing but user mode.
pub record Leads (p : ℕ → ℕ) (at table : ℕ) : Type 0 where
  pub frame : frame_of (read64 p at) ≡ table
  pub present : bit 1 (read64 p at) ≡ true
  pub writable : bit 2 (read64 p at) ≡ true
  pub small : bit 128 (read64 p at) ≡ false
  pub executable : bit (2 ^ 63) (read64 p at) ≡ false

Leads-same :
    (p q : ℕ → ℕ) (at table : ℕ)
    → SameBut4 (read64 p at) (read64 q at)
    → Leads p at table
    → Leads q at table
Leads-same p q at table s l = record {
  frame = s.frame ∙ l.frame;
  present = s.present ∙ l.present;
  writable = s.writable ∙ l.writable;
  small = s.large ∙ l.small;
  executable = s.nx ∙ l.executable;
}

-- A write to another word.
pub Leads-write64 :
    (p : ℕ → ℕ) (x value at table : ℕ)
    → Apart x at
    → Leads p at table
    → Leads (write64 x value p) at table
Leads-write64 p x value at table apart l =
    let same = read64-write64_other x value at p apart in
    record {
      frame = rw same l.frame;
      present = rw same l.present;
      writable = rw same l.writable;
      small = rw same l.small;
      executable = rw same l.executable;
    }

read-allow_user : (x : ℕ) (p : ℕ → ℕ) → read64 (allow_user x p) x ≡ user_entry (read64 p x)
unfolding allow_user
read-allow_user x p = read64-write64_self x (or_bit 4 true (read64 p x)) p

Leads-allow_user :
    (p : ℕ → ℕ) (x at table : ℕ)
    → (x ≡ at) ⊎ Apart x at
    → Leads p at table
    → Leads (allow_user x p) at table
unfolding allow_user
Leads-allow_user p x at table (inl e) l =
    Leads-same p (allow_user x p) at table
      (subst (λ a. SameBut4 (read64 p a) (read64 (allow_user x p) a)) e
        (rw (read-allow_user x p) (user_entry-SameBut4 (read64 p x))))
      l
Leads-allow_user p x at table (inr apart) l = Leads-write64 p x _ at table apart l

-- Entries for user mode stay so.
abbrev pub ForUser : (ℕ → ℕ) → ℕ → Type 0
ForUser p at = bit 4 (read64 p at) ≡ true

ForUser-self : (p : ℕ → ℕ) (x : ℕ) → ForUser (allow_user x p) x
ForUser-self p x = rw (read-allow_user x p) (user_entry-bit (read64 p x))

ForUser-other : (p : ℕ → ℕ) (x at : ℕ) → Apart x at → ForUser p at → ForUser (allow_user x p) at
unfolding allow_user
ForUser-other p x at apart h = rw (read64-write64_other x _ at p apart) h

-- Two pages that do not overlap.
abbrev pub Distinct : ℕ → ℕ → Type 0
Distinct a b = (a + 4096 ≤ b) ⊎ (b + 4096 ≤ a)

abbrev pub pd_entry : ℕ → ℕ → ℕ
pd_entry pd virtual = pd + 8 * (virtual / 2 ^ 21 % 512)

abbrev pub pt_entry : ℕ → ℕ → ℕ
pt_entry pt virtual = pt + 8 * (virtual / 2 ^ 12 % 512)

-- The first 1 GiB of an address space: the first entries of its two upper tables lead on, the tables
-- are four different pages, and the address has a page table.
pub record IsSpace (p : ℕ → ℕ) (pml4 pdpt pd pt virtual : ℕ) : Type 0 where
  pub top : frame_of pml4 ≡ pml4
  pub low : virtual < 2 ^ 30
  pub first : Leads p pml4 pdpt
  pub second : Leads p pdpt pd
  pub third : Leads p (pd_entry pd virtual) pt
  pub pml4_pdpt : Distinct pml4 pdpt
  pub pml4_pd : Distinct pml4 pd
  pub pml4_pt : Distinct pml4 pt
  pub pdpt_pd : Distinct pdpt pd
  pub pdpt_pt : Distinct pdpt pt
  pub pd_pt : Distinct pd pt

module _ (p : ℕ → ℕ) {pml4 pdpt pd pt virtual : ℕ} (v : IsSpace p pml4 pdpt pd pt virtual) where
  abbrev pub x1 : ℕ → ℕ
  x1 = allow_user pml4 p

  abbrev pub x2 : ℕ → ℕ
  x2 = allow_user pdpt x1

  abbrev pub x3 : ℕ → ℕ
  x3 = allow_user (pd_entry pd virtual) x2

  pub granted-IsSpace : IsSpace x3 pml4 pdpt pd pt virtual
  granted-IsSpace = record {
    top = v.top;
    low = v.low;
    first = Leads-allow_user x2 (pd_entry pd virtual) pml4 pdpt (inr (ground (arith, v.pml4_pd))) (
        Leads-allow_user x1 pdpt pml4 pdpt (inr (ground (arith, v.pml4_pdpt)))
          (Leads-allow_user p pml4 pml4 pdpt (inl refl) v.first));
    second = Leads-allow_user x2 (pd_entry pd virtual) pdpt pd (inr (ground (arith, v.pdpt_pd))) (
        Leads-allow_user x1 pdpt pdpt pd (inl refl)
          (Leads-allow_user p pml4 pdpt pd (inr (ground (arith, v.pml4_pdpt))) v.second));
    third = Leads-allow_user x2 (pd_entry pd virtual) (pd_entry pd virtual) pt (inl refl) (
        Leads-allow_user x1 pdpt (pd_entry pd virtual) pt (inr (ground (arith, v.pdpt_pd))) (
          Leads-allow_user p pml4 (pd_entry pd virtual) pt (inr (ground (arith, v.pml4_pd)))
            v.third));
    pml4_pdpt = v.pml4_pdpt;
    pml4_pd = v.pml4_pd;
    pml4_pt = v.pml4_pt;
    pdpt_pd = v.pdpt_pd;
    pdpt_pt = v.pdpt_pt;
    pd_pt = v.pd_pt;
  }

  pub granted_user : ForUser x3 pml4 × ForUser x3 pdpt × ForUser x3 (pd_entry pd virtual)
  granted_user = (
    ForUser-other x2 _ pml4 (ground (arith, v.pml4_pd))
        (ForUser-other x1 _ pml4 (ground (arith, v.pml4_pdpt)) (ForUser-self p pml4)),
    ForUser-other x2 _ pdpt (ground (arith, v.pdpt_pd)) (ForUser-self x1 pdpt),
    ForUser-self x2 _,
  )
