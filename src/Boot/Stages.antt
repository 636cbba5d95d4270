-- ===== src/Boot/Stages.antt =====
-- The stages of the boot (kernel/main.c), and what they share with the state before them.
use glass_os.Prelude.{
  ℕ, ◌≡◌, refl, ap, ◌∙◌, inl, inr, Bool, Bool-cases, Option-cases, sym, not, ◌||◌, ◌&&◌, ◌==◌, ltb,
  List, [], ◌∷◌, text, true, false,
}
use glass_os.Text.{Text}
use glass_os.Screen.Draw.{vga_draw_window_lem}
use glass_os.Kernel.{Kernel, Memory, Users, ConfigEntry, event_ok}
use glass_os.Memory.{
  page_alloc_contiguous, find_run, search_rounds, first_page, page_count, heap_page_count,
}
use glass_os.Memory.Boot.{
  BootData, memory_init, allocate_heap, with_memory, take_entries, bad_boot_data,
  register_allocator, reset_memory,
}
use glass_os.Ramfs.{RamfsFile, register_files, ramfs_init, files, size}
use glass_os.Config.{register_entries, config_init}
use glass_os.User.{user_init}
use glass_os.Interrupts.{Interrupts, Layout, serial_write, init_idt, init_gdt_tss}
use glass_os.Boot.{after_memory, after_ramfs, after_config}
use glass_os.Quiet.{
  Quiet, Quiet-refl, Quiet-trans, Quiet_fields, register-Quiet, event_record-Quiet,
  event_record_kind-Quiet, object_update_state-Quiet, printf-Quiet, screen-Quiet,
}
use glass_os.Quiet.Bounded.{IsBounded, IsBounded-same, Evolves-same, Evolves-alike}

pub record Steady (k k' : Kernel) : Type 0 where
  pub policy : k'.policy ≡ k.policy
  pub config : k'.config ≡ k.config
  pub bounded : IsBounded k → IsBounded k'

pub Steady-trans : {k k' k'' : Kernel} → Steady k k' → Steady k' k'' → Steady k k''
Steady-trans a b = record {
  policy = b.policy ∙ a.policy;
  config = b.config ∙ a.config;
  bounded = λ v. b.bounded (a.bounded v);
}

pub Quiet-Steady : {k k' : Kernel} → Quiet k k' → Steady k k'
Quiet-Steady q = record { policy = q.policy; config = q.config; bounded = λ v. q.evolves.bounded v }

pub Steady-memory : (m : Memory) (k : Kernel) → Steady k (record k { memory = m })
Steady-memory m k = record {
  policy = refl;
  config = refl;
  bounded = λ v. IsBounded-same (refl, refl, refl) v;
}

page_alloc_contiguous-Steady : (n : ℕ) (k : Kernel) → Steady k (page_alloc_contiguous n k).1
unfolding page_alloc_contiguous
page_alloc_contiguous-Steady n k =
    elim (Bool-cases (not k.memory.allocator_ready || n == 0 || ltb page_count n)) [
      | inl bad ↦ rw bad (Quiet-Steady (event_record-Quiet (Quiet-refl {k = k}) _ _ _ _ _ _))
      | inr good ↦
          elim (Option-cases (find_run (search_rounds n) first_page n k.memory.page_bitmap)) [
            | inl e ↦
                rw (good, e) (Quiet-Steady (event_record-Quiet (Quiet-refl {k = k}) _ _ _ _ _ _))
            | inr (page, e) ↦
                rw (good, e)
                  (Steady-trans (Steady-memory _ k)
                    (Quiet-Steady (event_record-Quiet Quiet-refl _ _ _ _ _ _)))
          ]
    ]

allocate_heap-Steady : (k : Kernel) → Steady k (allocate_heap k).1
unfolding allocate_heap
allocate_heap-Steady k =
    let ready = with_memory (λ m. record m { allocator_ready = true }) k in
    let taken =
      Steady-trans (Steady-memory _ k) (page_alloc_contiguous-Steady heap_page_count ready) in
    elim (Bool-cases ((page_alloc_contiguous heap_page_count ready).0 == 0)) [
      | inl e ↦ rw e (
          Steady-trans taken (
            Steady-trans (Quiet-Steady (event_record-Quiet Quiet-refl _ _ _ _ _ _))
              (Steady-memory _ _)))
      | inr e ↦ rw e (
          Steady-trans taken (
            Steady-trans
              (Quiet-Steady (
                event_record-Quiet
                  (object_update_state-Quiet (object_update_state-Quiet Quiet-refl _ _) _ _) _ _ _ _
                  _ _))
              (Steady-trans (Steady-memory _ _)
                (Quiet-Steady (event_record-Quiet Quiet-refl _ _ _ _ _ _)))))
    ]

pub memory_init-Steady : (d : BootData) (k : Kernel) → Steady k (memory_init d k).1
unfolding memory_init
memory_init-Steady d k =
    let cleared = register_allocator (with_memory reset_memory k) in
    let first = Steady-trans (Steady-memory _ k) (
      Quiet-Steady (
        register-Quiet (register-Quiet (Quiet-refl {k = with_memory reset_memory k}) _ _ _ _ _) _ _
          _ _ _)) in
    elim (Bool-cases (bad_boot_data d)) [
      | inl bad ↦ rw bad (Quiet-Steady (event_record-Quiet (Quiet-refl {k = k}) _ _ _ _ _ _))
      | inr good ↦ elim (Bool-cases (take_entries d.info.mmap_length 0 d cleared.memory).0) [
        | inl e ↦
            rw (good, e)
              (Steady-trans first (Steady-trans (Steady-memory _ _) (allocate_heap-Steady _)))
        | inr e ↦
            rw (good, e)
              (Steady-trans first (
                Steady-trans (Steady-memory _ _)
                  (Quiet-Steady (event_record-Quiet Quiet-refl _ _ _ _ _ _))))
      ]
    ]

pub serial_write-Quiet :
    {k s : Kernel} → Quiet k s → (line : Text) → Quiet k (serial_write line s).1
serial_write-Quiet {s = s} q line =
    Quiet-trans q
      (Quiet_fields s s.registry s.journal _ s.console s.screen (Evolves-same (refl, refl, refl)))

register_files-Quiet :
    (fs : List RamfsFile) (parent : ℕ) {k s : Kernel}
    → Quiet k s
    → Quiet k (register_files fs parent s).1
unfolding register_files
register_files-Quiet [] parent q = q
register_files-Quiet (f ∷ fs) parent q = elim (Bool-cases (size f == 0)) [
  | inl e ↦ rw e q
  | inr e ↦ rw e (register_files-Quiet fs parent (register-Quiet q _ _ _ _ _))
]

-- Every file has data.
abbrev sized : List RamfsFile → Bool
sized [] = true
sized (f ∷ fs) = not (size f == 0) && sized fs

register_files-sized :
    (fs : List RamfsFile) (parent : ℕ) (k : Kernel)
    → sized fs ≡ true
    → (register_files fs parent k).0 ≡ true
unfolding register_files
register_files-sized [] parent k h = refl
register_files-sized (f ∷ fs) parent k h = elim (Bool-cases (size f == 0)) [
  | inl e ↦ absurd (false-true (sym (rw e refl) ∙ h))
  | inr e ↦ rw e (register_files-sized fs parent _ (rw e at h))
]
  where
    false-true : false ≡ true → ⊥
    false-true x = cc

files-sized : sized files ≡ true
unfolding text
files-sized = refl

pub after_memory-Quiet : (k : Kernel) → Quiet k (after_memory k).1 × ((after_memory k).0 ≡ true)
unfolding after_memory ramfs_init
after_memory-Quiet k =
    let q =
      serial_write-Quiet
        (object_update_state-Quiet (Quiet-refl {k = k}) (text "memory") (text "ready"))
        (text "GlassOS: memory ready\r\n") in
    rw (register_files-sized files _ _ files-sized)
      (event_record-Quiet (register_files-Quiet files _ q) _ _ _ _ _ _, refl)

register_entries-Quiet :
    (es : List ConfigEntry) (parent : ℕ) {k s : Kernel}
    → Quiet k s
    → Quiet k (register_entries es parent s).1
unfolding register_entries
register_entries-Quiet [] parent q = q
register_entries-Quiet (e ∷ es) parent q =
    register_entries-Quiet es parent (register-Quiet q _ _ _ _ _)

pub after_ramfs-Quiet : (k : Kernel) → Quiet k (after_ramfs k).1 × ((after_ramfs k).0 ≡ true)
unfolding after_ramfs config_init
after_ramfs-Quiet k =
    let q =
      serial_write-Quiet
        (object_update_state-Quiet (Quiet-refl {k = k}) (text "ramfs") (text "ready"))
        (text "GlassOS: RAM filesystem ready\r\n") in
    (event_record-Quiet (register_entries-Quiet _ _ (register-Quiet q _ _ _ _ _)) _ _ _ _ _ _, refl)

abbrev pub without_processes : Kernel → Kernel
without_processes k = record k { users = record k.users { processes = []; scheduler_index = 0 } }

without-Quiet : {k s : Kernel} → Quiet k s → Quiet (without_processes k) (without_processes s)
without-Quiet q = record {
  policy = q.policy;
  config = q.config;
  memory = q.memory;
  ticks = q.ticks;
  keyboard = q.keyboard;
  paging = q.paging;
  users = ap {A = Users} (λ u. record u { processes = []; scheduler_index = 0 }) q.users;
  evolves = Evolves-alike (refl, refl, refl) (refl, refl, refl) q.evolves;
}

user_init-Quiet : {k s : Kernel} → Quiet k s → Quiet (without_processes k) (user_init s).1
unfolding user_init
user_init-Quiet q =
    event_record_kind-Quiet (register-Quiet (register-Quiet (without-Quiet q) _ _ _ _ _) _ _ _ _ _)
      _ _ _ _ _ _ _

init_idt-Quiet :
    {k s : Kernel} (l : Layout) (t : Interrupts) → Quiet k s → Quiet k (init_idt l t s).1
unfolding init_idt init_gdt_tss
init_idt-Quiet l t q =
    serial_write-Quiet
      (serial_write-Quiet (serial_write-Quiet (serial_write-Quiet (serial_write-Quiet q _) _) _) _)
      _

pub after_config-Quiet :
    (l : Layout) (t : Interrupts) (k : Kernel) → Quiet (without_processes k) (after_config l t k).1
unfolding after_config
after_config-Quiet l t k =
    let user =
      user_init-Quiet
        (serial_write-Quiet (Quiet-refl {k = k}) (text "GlassOS: config ready\r\n")) in
    let tables =
      init_idt-Quiet l t (serial_write-Quiet user (text "GlassOS: user model ready\r\n")) in
    let idt =
      serial_write-Quiet (object_update_state-Quiet tables (text "interrupts") (text "ready"))
        (text "GlassOS: IDT ready\r\n") in
    let recorded =
      serial_write-Quiet
        (event_record-Quiet idt (text "boot") (text "interrupts") (text "initialize") event_ok 1
          (text "allow:kernel"))
        (text "GlassOS serial: kernel ready\r\n") in
    printf-Quiet
      (object_update_state-Quiet (screen-Quiet recorded _ (λ fits. (vga_draw_window_lem _).1))
        (text "shell") (text "ready"))
      _ _
