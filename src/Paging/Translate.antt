-- ===== src/Paging/Translate.antt =====
-- memory_map_process_page of kernel/memory.c and the translation of an address of the page.
use glass_os.Prelude.{
  ℕ, ◌+◌, ◌*◌, ◌/◌, ◌%◌, ◌^◌, ◌<◌, ◌≡◌, refl, ◌∙◌, inl, inr, Bool, true, false, not, ◌&&◌, some,
  arith, Bool-cases,
}
use glass_os.Paging.Words.{
  read64, write64, bit, frame_of, Apart, read64-write64_self, read64-write64_other,
}
use glass_os.Paging.Bits.{HasFlags, with_flags-HasFlags}
use glass_os.Paging.Walk.{walk}
use glass_os.Paging.{with_flags, write_mapping}
use glass_os.Paging.Map.{
  ForUser, Leads-write64, IsSpace, pd_entry, pt_entry, x3, granted-IsSpace, granted_user,
}

-- An address of the page at `virtual`.
abbrev pub SamePage : ℕ → ℕ → Type 0
SamePage w virtual = w / 2 ^ 12 ≡ virtual / 2 ^ 12

module _ (q : ℕ → ℕ) {pml4 pdpt pd pt virtual : ℕ} (v : IsSpace q pml4 pdpt pd pt virtual) (w : ℕ)
    (page : SamePage w virtual) where
  at_top : frame_of pml4 + 8 * (w / 2 ^ 39 % 512) ≡ pml4
  at_top = omega (arith, v.top, v.low)

  at_second : frame_of (read64 q pml4) + 8 * (w / 2 ^ 30 % 512) ≡ pdpt
  at_second = omega (arith, v.first.frame, v.low)

  at_third : frame_of (read64 q pdpt) + 8 * (w / 2 ^ 21 % 512) ≡ pd_entry pd virtual
  at_third = omega (arith, v.second.frame)

  at_last : frame_of (read64 q (pd_entry pd virtual)) + 8 * (w / 2 ^ 12 % 512) ≡ pt_entry pt virtual
  at_last = omega (arith, v.third.frame)

  -- The walk reads the four entries, and only the last and the bits for user mode decide.
  walk-IsSpace :
      bit 1 (read64 q (pt_entry pt virtual)) ≡ true
      → let e = read64 q (pt_entry pt virtual) in
        walk q pml4 w
        ≡ some (record {
          address = frame_of e + w % 2 ^ 12;
          user =
              bit 4 (read64 q pml4)
              && bit 4 (read64 q pdpt)
              && bit 4 (read64 q (pd_entry pd virtual))
              && bit 4 e;
          writable = bit 2 e;
          executable = not (bit (2 ^ 63) e);
        })
  unfolding walk
  walk-IsSpace there =
      rw
        (
          walk, at_top, at_second, at_third, at_last, v.first.present, v.second.present,
          v.second.small, v.third.present, v.third.small, there, v.first.writable,
          v.second.writable, v.third.writable, v.first.executable, v.second.executable,
          v.third.executable,
        )
        refl

all_user :
    (a b c : Bool) {d user : Bool}
    → d ≡ user
    → (user ≡ true → (a ≡ true) × (b ≡ true) × (c ≡ true))
    → (a && b && c && d) ≡ user
all_user a b c {d} {user = false} e h = ground arith
all_user a b c {d} {user = true} e h = let (x, y, z) = h refl in ground (arith, x, y, z)

not-not : (b : Bool) → not (not b) ≡ b
not-not true = refl
not-not false = refl

module _ (q : ℕ → ℕ) {pml4 pdpt pd pt virtual : ℕ} (v : IsSpace q pml4 pdpt pd pt virtual)
    (physical : ℕ) (user writable executable : Bool) (aligned : physical % 4096 ≡ 0)
    (fits : physical < 2 ^ 52) where
  abbrev entry : ℕ
  entry = with_flags physical writable user (not executable)

  abbrev q' : ℕ → ℕ
  q' = write64 (pt_entry pt virtual) entry q

  entry-HasFlags :
      HasFlags physical writable user (not executable) (read64 q' (pt_entry pt virtual))
  entry-HasFlags =
      rw (read64-write64_self (pt_entry pt virtual) entry q)
        (with_flags-HasFlags physical writable user (not executable) aligned fits)

  written-IsSpace : IsSpace q' pml4 pdpt pd pt virtual
  written-IsSpace = record {
    top = v.top;
    low = v.low;
    first = Leads-write64 q _ entry pml4 pdpt (ground (arith, v.pml4_pt)) v.first;
    second = Leads-write64 q _ entry pdpt pd (ground (arith, v.pdpt_pt)) v.second;
    third = Leads-write64 q _ entry (pd_entry pd virtual) pt (ground (arith, v.pd_pt)) v.third;
    pml4_pdpt = v.pml4_pdpt;
    pml4_pd = v.pml4_pd;
    pml4_pt = v.pml4_pt;
    pdpt_pd = v.pdpt_pd;
    pdpt_pt = v.pdpt_pt;
    pd_pt = v.pd_pt;
  }

  ForUser-written : (at : ℕ) → Apart (pt_entry pt virtual) at → ForUser q at → ForUser q' at
  ForUser-written at apart h = rw (read64-write64_other _ entry at q apart) h

  user_flag :
      (user ≡ true → ForUser q pml4 × ForUser q pdpt × ForUser q (pd_entry pd virtual))
      → (bit 4 (read64 q' pml4)
          && bit 4 (read64 q' pdpt)
          && bit 4 (read64 q' (pd_entry pd virtual))
          && bit 4 (read64 q' (pt_entry pt virtual)))
        ≡ user
  user_flag granted = all_user _ _ _ entry-HasFlags.for_user (λ e.
      let (a, b, c) = granted e in
      (
        ForUser-written pml4 (ground (arith, v.pml4_pt)) a,
        ForUser-written pdpt (ground (arith, v.pdpt_pt)) b,
        ForUser-written (pd_entry pd virtual) (ground (arith, v.pd_pt)) c,
      ))

  translates :
      (w : ℕ)
      → SamePage w virtual
      → (user ≡ true → ForUser q pml4 × ForUser q pdpt × ForUser q (pd_entry pd virtual))
      → walk q' pml4 w
        ≡ some (record {
          address = physical + w % 2 ^ 12;
          user = user;
          writable = writable;
          executable = executable;
        })
  translates w page granted =
      walk-IsSpace q' written-IsSpace w page entry-HasFlags.present
      ∙ rw
          (
            entry-HasFlags.frame,
            user_flag granted,
            entry-HasFlags.is_writable,
            entry-HasFlags.not_executable,
            not-not executable,
          )
          (refl)

module _ (p : ℕ → ℕ) {pml4 pdpt pd pt virtual : ℕ} (v : IsSpace p pml4 pdpt pd pt virtual)
    (physical : ℕ) (user writable executable : Bool) (aligned : physical % 4096 ≡ 0)
    (fits : physical < 2 ^ 52) where
  -- What memory_map_process_page writes, in an address space whose tables lead to a page table for
  -- the address and are four different pages, for a physical page below 2^52: the CPU then translates
  -- every address of the virtual page to the physical page, and allows user mode, writing and
  -- execution exactly where the call asked for them.
  pub write_mapping_lem :
      (w : ℕ)
      → SamePage w virtual
      → walk (write_mapping pml4 pdpt pd virtual physical user writable executable p) pml4 w
        ≡ some (record {
          address = physical + w % 2 ^ 12;
          user = user;
          writable = writable;
          executable = executable;
        })
  unfolding write_mapping
  write_mapping_lem w page = elim (Bool-cases user) [
    | inl e ↦
        rw (e, (granted-IsSpace p v).third.frame)
          (translates (x3 p v) (granted-IsSpace p v) physical true writable executable aligned fits
            w page (λ h. granted_user p v))
    | inr e ↦
        rw (e, v.third.frame)
          (translates p v physical false writable executable aligned fits w page (λ h. absurd (cc)))
  ]
