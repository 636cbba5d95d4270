-- ===== src/Paging/Bits.antt =====
-- The bits of page table entries.
use glass_os.Prelude.{ℕ, ◌%◌, ◌^◌, ◌<◌, ◌≡◌, Bool, true, false, arith}
use glass_os.Paging.Words.{bit, or_bit, frame_of}
use glass_os.Paging.{with_flags}

-- The value of an entry with the flag for user mode, as it is read back.
abbrev pub user_entry : ℕ → ℕ
user_entry v = or_bit 4 true v % 2 ^ 64

pub record SameBut4 (v w : ℕ) : Type 0 where
  pub frame : frame_of w ≡ frame_of v
  pub present : bit 1 w ≡ bit 1 v
  pub writable : bit 2 w ≡ bit 2 v
  pub large : bit 128 w ≡ bit 128 v
  pub nx : bit (2 ^ 63) w ≡ bit (2 ^ 63) v

pub user_entry-SameBut4 : (v : ℕ) → SameBut4 v (user_entry v)
unfolding or_bit bit frame_of
user_entry-SameBut4 v = record {
  frame = ground arith;
  present = ground arith;
  writable = ground arith;
  large = ground arith;
  nx = ground arith;
}

pub user_entry-bit : (v : ℕ) → bit 4 (user_entry v) ≡ true
unfolding or_bit bit
user_entry-bit v = ground arith

pub record HasFlags (address : ℕ) (writable user nx : Bool) (e : ℕ) : Type 0 where
  pub frame : frame_of e ≡ address
  pub present : bit 1 e ≡ true
  pub is_writable : bit 2 e ≡ writable
  pub for_user : bit 4 e ≡ user
  pub small : bit 128 e ≡ false
  pub not_executable : bit (2 ^ 63) e ≡ nx

pub with_flags-HasFlags :
    (address : ℕ) (writable user nx : Bool)
    → address % 4096 ≡ 0
    → address < 2 ^ 52
    → HasFlags address writable user nx (with_flags address writable user nx % 2 ^ 64)
unfolding with_flags or_bit bit frame_of
with_flags-HasFlags address writable user nx aligned fits = record {
  frame = ground arith;
  present = ground arith;
  is_writable = ground arith;
  for_user = ground arith;
  small = ground arith;
  not_executable = ground arith;
}
