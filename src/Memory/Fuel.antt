-- ===== src/Memory/Fuel.antt =====
-- The loops of memory_init of kernel/memory.c over the memory map end within mmap_length rounds.
use glass_os.Prelude.{
  ℕ, zero, suc, ◌+◌, ◌^◌, ◌≤◌, ◌<◌, ◌≡◌, refl, inl, inr, true, false, not, Bool-cases, ltb, arith,
}
use glass_os.Kernel.{Memory}
use glass_os.Memory.Mapping.{further}
use glass_os.Memory.Boot.{
  BootData, bad_entry, take_entry, take_entries, reserve_entry, reserve_entries,
}

module _ (d : BootData) (word : d.info.mmap_length < 2 ^ 32) where
  -- An entry that fits takes the offset on, and not beyond the end of the map.
  further_bound :
      (fuel offset : ℕ)
      → d.info.mmap_length ≤ offset + suc fuel
      → not (ltb offset d.info.mmap_length) ≡ false
      → bad_entry d offset ≡ false
      → d.info.mmap_length ≤ further d offset + fuel
  further_bound fuel offset enough h h' = ground arith

  take_entries_fuel_from :
      (fuel offset more : ℕ) (m : Memory)
      → d.info.mmap_length ≤ offset + fuel
      → take_entries (fuel + more) offset d m ≡ take_entries fuel offset d m
  unfolding take_entries
  take_entries_fuel_from zero offset zero m enough = refl
  take_entries_fuel_from zero offset (suc more) m enough = ground arith
  take_entries_fuel_from (suc fuel) offset more m enough =
      let shift : suc fuel + more ≡ suc (fuel + more) = omega arith in
      rw shift (elim (Bool-cases (not (ltb offset d.info.mmap_length))) [
        | inl h ↦ rw h refl
        | inr h ↦ elim (Bool-cases (bad_entry d offset)) [
          | inl h' ↦ rw (h, h') refl
          | inr h' ↦
              rw (h, h')
                (take_entries_fuel_from fuel (further d offset) more
                  (take_entry (d.entry_at offset) m) (further_bound fuel offset enough h h'))
        ]
      ])

  reserve_entries_fuel_from :
      (fuel offset more : ℕ) (m m' : Memory)
      → d.info.mmap_length ≤ offset + fuel
      → (take_entries fuel offset d m).0 ≡ true
      → reserve_entries (fuel + more) offset d m' ≡ reserve_entries fuel offset d m'
  unfolding take_entries reserve_entries
  reserve_entries_fuel_from zero offset zero m m' enough parsed = refl
  reserve_entries_fuel_from zero offset (suc more) m m' enough parsed = ground arith
  reserve_entries_fuel_from (suc fuel) offset more m m' enough parsed =
      let shift : suc fuel + more ≡ suc (fuel + more) = omega arith in
      rw shift (elim (Bool-cases (not (ltb offset d.info.mmap_length))) [
        | inl h ↦ (let past : ltb offset d.info.mmap_length ≡ false = ground arith in rw past refl)
        | inr h ↦ elim (Bool-cases (bad_entry d offset)) [
          | inl h' ↦ absurd (ground arith)
          | inr h' ↦
              let before : ltb offset d.info.mmap_length ≡ true = ground arith in
              let rest = rw (h, h') at parsed in
              rw before (
                reserve_entries_fuel_from fuel (further d offset) more
                  (take_entry (d.entry_at offset) m) (reserve_entry (d.entry_at offset) m')
                  (further_bound fuel offset enough h h') rest)
        ]
      ])

-- The first loop of memory_init ends within mmap_length rounds: with any more of them its result is
-- the same, for a mmap_length of 32 bits.
pub take_entries_fuel :
    (d : BootData) (more : ℕ) (m : Memory)
    → d.info.mmap_length < 2 ^ 32
    → take_entries (d.info.mmap_length + more) 0 d m ≡ take_entries d.info.mmap_length 0 d m
take_entries_fuel d more m word =
    take_entries_fuel_from d word d.info.mmap_length 0 more m (omega arith)

-- The second loop of memory_init, which checks nothing, ends within mmap_length rounds as well, for
-- a mmap_length of 32 bits, once the first loop met no entry that does not fit.
pub reserve_entries_fuel :
    (d : BootData) (more : ℕ) (m m' : Memory)
    → d.info.mmap_length < 2 ^ 32
    → (take_entries d.info.mmap_length 0 d m).0 ≡ true
    → reserve_entries (d.info.mmap_length + more) 0 d m' ≡ reserve_entries d.info.mmap_length 0 d m'
reserve_entries_fuel d more m m' word parsed =
    reserve_entries_fuel_from d word d.info.mmap_length 0 more m m' (omega arith) parsed
