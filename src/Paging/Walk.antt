-- ===== src/Paging/Walk.antt =====
-- The address translation of the CPU, which the page tables of kernel/memory.c are written for.
use glass_os.Prelude.{
  ℕ, ◌+◌, ◌*◌, ◌/◌, ◌%◌, ◌^◌, Bool, not, ◌&&◌, Option, none, some, if◌then◌else◌,
}
use glass_os.Paging.Words.{read64, bit, frame_of}

-- A translated address, and what the entries on the way to it allow.
pub record Translation : Type 0 where
  pub address : ℕ
  pub user : Bool
  pub writable : Bool
  pub executable : Bool

abbrev entry_for : (ℕ → ℕ) → ℕ → ℕ → ℕ → ℕ
entry_for p table weight virtual = read64 p (frame_of table + 8 * (virtual / weight % 512))

abbrev executes : ℕ → Bool
executes entry = not (bit (2 ^ 63) entry)

-- The walk through four levels from the value of CR3 on, with the pages of 1 GiB and of 2 MiB that
-- bit 7 of an entry makes.
unfoldable pub walk : (ℕ → ℕ) → ℕ → ℕ → Option Translation
walk p cr3 virtual =
    let e4 = entry_for p cr3 (2 ^ 39) virtual in
    let e3 = entry_for p e4 (2 ^ 30) virtual in
    let e2 = entry_for p e3 (2 ^ 21) virtual in
    let e1 = entry_for p e2 (2 ^ 12) virtual in
    if not (bit 1 e4 && bit 1 e3)
    then none
    else if bit 128 e3
    then some (record {
      address = frame_of e3 / 2 ^ 30 * 2 ^ 30 + virtual % 2 ^ 30;
      user = bit 4 e4 && bit 4 e3;
      writable = bit 2 e4 && bit 2 e3;
      executable = executes e4 && executes e3;
    })
    else if not (bit 1 e2)
    then none
    else if bit 128 e2
    then some (record {
      address = frame_of e2 / 2 ^ 21 * 2 ^ 21 + virtual % 2 ^ 21;
      user = bit 4 e4 && bit 4 e3 && bit 4 e2;
      writable = bit 2 e4 && bit 2 e3 && bit 2 e2;
      executable = executes e4 && executes e3 && executes e2;
    })
    else if not (bit 1 e1)
    then none
    else some (record {
      address = frame_of e1 + virtual % 2 ^ 12;
      user = bit 4 e4 && bit 4 e3 && bit 4 e2 && bit 4 e1;
      writable = bit 2 e4 && bit 2 e3 && bit 2 e2 && bit 2 e1;
      executable = executes e4 && executes e3 && executes e2 && executes e1;
    })
