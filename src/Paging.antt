-- ===== src/Paging.antt =====
-- Page tables (the address space functions of kernel/memory.c) in a memory of bytes. The `|` and `&`
-- of the source with constants are written bit by bit.
pub mod Words
pub mod Walk
pub mod Bits
pub mod Map
pub mod Translate
pub mod Process
pub mod Calls
pub mod Create
use glass_os.Prelude.{
  ℕ, zero, suc, ◌+◌, ◌-◌, ◌*◌, ◌/◌, ◌%◌, ◌^◌, Bool, true, false, not, ◌&&◌, ◌||◌, Option, none,
  some, for_range, text, ltb, leb, ◌==◌, if◌then◌else◌,
}
use glass_os.Text.{Text}
use glass_os.Kernel.{
  Kernel, Paging, EventResult, event_ok, event_denied, M, ◌>>=◌, ◌>>◌, pure, gets, modify,
}
use glass_os.Event.{event_record, event_current}
use glass_os.Memory.{page_alloc, page_size}
use Words.{read64, write64, or_bit, bit, frame_of}

-- `page[i] = value` for every byte of a page
unfoldable pub fill_page : ℕ → ℕ → (ℕ → ℕ) → ℕ → ℕ
fill_page address value p i = if leb address i && ltb i (address + page_size) then value else p i

-- The loop of copy_page, a word at a time.
unfoldable pub copy_page : ℕ → ℕ → (ℕ → ℕ) → ℕ → ℕ
copy_page destination source p =
    for_range 512 0 (λ i q. write64 (destination + 8 * i) (read64 q (source + 8 * i)) q) p

abbrev pub set_physical : ((ℕ → ℕ) → ℕ → ℕ) → M (Unit {0})
set_physical f =
    modify λ k. record k { paging = record k.paging { physical = f k.paging.physical } }

abbrev map_limit : ℕ
map_limit = 0x40000000

-- `entry | PTE_PRESENT | PTE_WRITABLE | PTE_USER | PTE_NX`, each where it is wanted
unfoldable pub with_flags : ℕ → Bool → Bool → Bool → ℕ
with_flags address writable user nx =
    or_bit (2 ^ 63) nx (or_bit 4 user (or_bit 2 writable (or_bit 1 true address)))

-- `table[index] |= PTE_USER`
unfoldable pub allow_user : ℕ → (ℕ → ℕ) → ℕ → ℕ
allow_user entry p = write64 entry (or_bit 4 true (read64 p entry)) p

abbrev pub note_tables : Text → EventResult → Text → M ℕ
note_tables operation result policy k =
    event_record (text "memory") (text "page_tables") operation result (event_current k) policy k

abbrev pub refuse_page : Text → M Bool
refuse_page why k = (do note_tables (text "map_virtual") event_denied why; pure false) k

-- The part of memory_map_process_page behind the page table: the USER bits of the three tables above,
-- and the entry.
unfoldable pub write_mapping : ℕ → ℕ → ℕ → ℕ → ℕ → Bool → Bool → Bool → (ℕ → ℕ) → ℕ → ℕ
write_mapping pml4 pdpt pd virtual_address physical_address user writable executable p =
    let entry = pd + 8 * (virtual_address / 2 ^ 21 % 512) in
    let granted = if user then allow_user entry (allow_user pdpt (allow_user pml4 p)) else p in
    let pt = frame_of (read64 granted entry) in
    write64 (pt + 8 * (virtual_address / 2 ^ 12 % 512))
      (with_flags physical_address writable user (not executable)) granted

abbrev pub bad_page : ℕ → ℕ → ℕ → Bool
bad_page cr3 virtual_address physical_address =
    cr3 == 0
    || not (virtual_address % page_size == 0)
    || not (physical_address % page_size == 0)
    || leb map_limit virtual_address

-- The end of memory_map_process_page, with the page table there.
unfoldable pub map_in_table : ℕ → ℕ → ℕ → ℕ → ℕ → Bool → Bool → Bool → Text → M Bool
map_in_table cr3 pdpt pd virtual_address physical_address user writable executable policy = do
  set_physical (write_mapping cr3 pdpt pd virtual_address physical_address user writable executable)
  note_tables (text "map_virtual") event_ok policy
  pure true

unfoldable pub memory_map_process_page : ℕ → ℕ → ℕ → Bool → Bool → Bool → Text → M Bool
memory_map_process_page cr3 virtual_address physical_address user writable executable policy k =
    let p = k.paging.physical in
    let pdpt = frame_of (read64 p cr3) in
    let pd = frame_of (read64 p pdpt) in
    let entry = pd + 8 * (virtual_address / 2 ^ 21 % 512) in
    if bad_page cr3 virtual_address physical_address
    then refuse_page (text "deny:invalid-virtual-page") k
    else if bit 1 (read64 p entry)
    then map_in_table cr3 pdpt pd virtual_address physical_address user writable executable policy k
    else let (pt, k') = page_alloc k in
      if pt == 0
      then refuse_page (text "deny:no-page-table") k'
      else (do
        set_physical (λ q. write64 entry (with_flags pt true user false) (fill_page pt 0 q))
        map_in_table cr3 pdpt pd virtual_address physical_address user writable executable policy)
          k'

abbrev bootstrap_pt0 : ℕ
bootstrap_pt0 = 0x4000

abbrev bootstrap_pt1 : ℕ
bootstrap_pt1 = 0x5000

-- What memory_create_address_space writes in its five pages.
unfoldable pub build_tables : ℕ → ℕ → ℕ → ℕ → ℕ → (ℕ → ℕ) → ℕ → ℕ
build_tables pml4 pdpt pd pt0 pt1 p =
    let zeroed = fill_page pd 0 (fill_page pdpt 0 (fill_page pml4 0 p)) in
    let copied = copy_page pt1 bootstrap_pt1 (copy_page pt0 bootstrap_pt0 zeroed) in
    write64 (pd + 8) (with_flags pt1 true false false) (
      write64 pd (with_flags pt0 true false false) (
        write64 pdpt (with_flags pd true true false)
          (write64 pml4 (with_flags pdpt true true false) copied)))

-- Returns the address of the top table, and 0 for a refusal, which keeps the pages that it got.
unfoldable pub memory_create_address_space : Text → M ℕ
memory_create_address_space owner k =
    let (pml4, k1) = page_alloc k in
    let (pdpt, k2) = page_alloc k1 in
    let (pd, k3) = page_alloc k2 in
    let (pt0, k4) = page_alloc k3 in
    let (pt1, k5) = page_alloc k4 in
    if pml4 == 0 || pdpt == 0 || pd == 0 || pt0 == 0 || pt1 == 0
    then (do
      event_record (text "memory") owner (text "address_space_create") event_denied
          (event_current k5) (text "deny:address-space-pages")
      pure 0)
        k5
    else (do
      set_physical (build_tables pml4 pdpt pd pt0 pt1)
      event_record (text "memory") owner (text "address_space_create") event_ok (event_current k5)
          (text "allow:address-space")
      pure pml4)
        k5

-- kernel_cr3, which nothing assigns
abbrev pub memory_kernel_address_space : ℕ
memory_kernel_address_space = 0x1000

abbrev pub memory_current_address_space : Kernel → ℕ
memory_current_address_space k = k.paging.cr3

unfoldable pub memory_switch_address_space : ℕ → Text → Text → Text → M (Unit {0})
memory_switch_address_space cr3 actor target policy k =
    if cr3 == 0
    then (do
      event_record actor target (text "switch_cr3") event_denied (event_current k)
          (text "deny:invalid-address-space")
      pure tt)
        k
    else (do
      modify (λ s. record s { paging = record s.paging { cr3 = cr3 } })
      event_record actor target (text "switch_cr3") event_ok (event_current k) policy
      pure tt)
        k

-- The bootstrap tables lie at fixed addresses; reloading CR3 drops cached translations only.
unfoldable pub memory_map_user_page : ℕ → Bool → M Bool
memory_map_user_page physical_address executable k =
    if not (physical_address % page_size == 0) || leb 0x400000 physical_address
    then (do
      note_tables (text "map_user") event_denied (text "deny:user-page-out-of-bootstrap-range")
      pure false)
        k
    else let pt = if ltb physical_address 0x200000 then bootstrap_pt0 else bootstrap_pt1 in
      (do
        set_physical (λ p.
            write64 (pt + 8 * (physical_address / 2 ^ 12 % 512))
              (with_flags physical_address true true (not executable))
              (allow_user (0x3000 + 8 * (physical_address / 2 ^ 21))
                (allow_user 0x2000 (allow_user 0x1000 p))))
        note_tables (text "map_user") event_ok
            (if executable then text "allow:user-code-page" else text "allow:user-stack-page")
        pure true)
        k
