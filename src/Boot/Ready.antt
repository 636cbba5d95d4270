-- ===== src/Boot/Ready.antt =====
-- kernel_main (kernel/main.c) up to its loop.
use glass_os.Prelude.{
  ℕ, ◌≡◌, refl, ap, ◌∙◌, ◌⊎◌, ◌++◌, inl, inr, Bool, true, false, none, some, [], text, arith,
}
use glass_os.Text.{Text}
use glass_os.Screen.Cursor.{Fits}
use glass_os.Screen.{Screen, clear_screen, vga_enable_cursor, vga_update_cursor}
use glass_os.Screen.Draw.{clear_screen_lem}
use glass_os.Kernel.{Kernel, Users, event_ok}
use glass_os.Object.{object_registry_init}
use glass_os.Object.Ids.{object_registry_init-IsValid}
use glass_os.Event.{event_init, event_record, event_record_kind, event_set_current}
use glass_os.Event.Sequence.{event_init-IsJournal}
use glass_os.Policy.Change.{IsTable}
use glass_os.Policy.{policy_init}
use glass_os.Memory.Boot.{BootData, memory_init}
use glass_os.Memory.Startup.{Started, memory_init_lem}
use glass_os.Interrupts.{Interrupts, Layout}
use glass_os.Quiet.{Quiet, Quiet-refl, screen-Quiet}
use glass_os.Quiet.Bounded.{IsBounded, IsBounded-same, relabel-Evolves, record_entry-Evolves}
use glass_os.Boot.{
  enter_kernel, after_memory, after_ramfs, after_config, kernel_boot, assertion_failed,
}
use glass_os.Boot.Policies.{policy_init-IsTable, policy_init-config, policy_init-IsBounded}
use glass_os.Boot.Stages.{
  serial_write-Quiet, memory_init-Steady, after_memory-Quiet, after_ramfs-Quiet, after_config-Quiet,
}

enabled-Fits : (s : Screen) → Fits (vga_enable_cursor (clear_screen s))
unfolding vga_enable_cursor vga_update_cursor
enabled-Fits s = let (mode, x, y, outside) = clear_screen_lem s in rw (mode, x, y) refl

module _ (source : Text) (k : Kernel) where
  -- The journal and the registry of the start.
  abbrev started : ℕ × Kernel
  started =
      event_record (text "boot") (text "kernel") (text "enter") event_ok 0 (text "allow:boot")
        (record k {
          journal = event_init;
          serial = k.serial ++ text "GlassOS: entered kernel_main\r\n";
        })

  abbrev founded : Kernel
  founded = record (event_set_current started.0 started.1).1 {
    registry = object_registry_init started.0;
  }

  -- The tables before the first event.
  abbrev blank : Kernel
  blank = record k { journal = event_init; registry = object_registry_init started.0 }

  blank-IsBounded : Fits k.screen → IsBounded blank
  unfolding event_init
  blank-IsBounded fits = record {
    ring = event_init-IsJournal.ring;
    slots = omega arith;
    registry = object_registry_init-IsValid started.0;
    cursor = fits;
  }

  founded-IsBounded : Fits k.screen → IsBounded founded
  unfolding event_record event_record_kind
  founded-IsBounded fits =
      IsBounded-same {k' = founded} (refl, refl, refl)
        ((relabel-Evolves started.0 _ _).bounded
          ((record_entry-Evolves _ [] blank).bounded (blank-IsBounded fits)))

  abbrev with_policy : Kernel
  with_policy = (policy_init source started.0 founded).1

  entered-Quiet : Quiet with_policy (enter_kernel source k).1
  unfolding enter_kernel
  entered-Quiet =
      serial_write-Quiet
        (screen-Quiet (Quiet-refl {k = with_policy})
          (vga_enable_cursor (clear_screen with_policy.screen)) (λ fits. enabled-Fits _))
        _

  entered-IsTable : IsTable (enter_kernel source k).1.policy
  entered-IsTable = rw entered-Quiet.policy (policy_init-IsTable source started.0 founded)

  entered-config : (enter_kernel source k).1.config ≡ k.config
  unfolding event_record event_record_kind
  entered-config = entered-Quiet.config ∙ policy_init-config source started.0 founded

  entered-IsBounded : Fits k.screen → IsBounded (enter_kernel source k).1
  entered-IsBounded fits =
      entered-Quiet.evolves.bounded
        (policy_init-IsBounded source started.0 founded (founded-IsBounded fits))

module _ (source : Text) (d : BootData) (l : Layout) (t : Interrupts) (k : Kernel) where
  -- What the loop of the shell starts from.
  pub record IsReady (k' : Kernel) : Type 0 where
    pub table : IsTable k'.policy
    pub bounded : IsBounded k'
    pub memory : Started d k'.memory
    pub processes : k'.users.processes ≡ []
    pub config : k'.config ≡ k.config

  abbrev pub entered : ℕ × Kernel
  entered = enter_kernel source k

  abbrev pub initialized : Bool × Kernel
  initialized = memory_init d entered.1

  abbrev loaded : Bool × Kernel
  loaded = after_memory initialized.1

  abbrev configured : Bool × Kernel
  configured = after_ramfs loaded.1

  abbrev pub final : Interrupts × Kernel
  final = after_config l t configured.1

  ready : Fits k.screen → Started d initialized.1.memory → IsReady final.1
  ready fits memory =
      let steady = memory_init-Steady d entered.1 in
      let files = (after_memory-Quiet initialized.1).0 in
      let config = (after_ramfs-Quiet loaded.1).0 in
      let last = after_config-Quiet l t configured.1 in
      let same = config.policy ∙ files.policy ∙ steady.policy in
      record {
        table = rw (last.policy, same) (entered-IsTable source k);
        bounded = last.evolves.bounded (
            IsBounded-same (refl, refl, refl)
              (config.evolves.bounded
                (files.evolves.bounded (steady.bounded (entered-IsBounded source k fits)))));
        memory = rw (last.memory, config.memory, files.memory) memory;
        processes = ap {A = Users} (λ u. u.processes) last.users;
        config =
            last.config ∙ config.config ∙ files.config ∙ steady.config ∙ entered-config source k;
      }

  boot_ready :
      initialized.0 ≡ true
      → (kernel_boot source d l t k).0 ≡ some (entered.0, final.0)
        × ((kernel_boot source d l t k).1 ≡ final.1)
  unfolding kernel_boot
  boot_ready ok =
      rw (ok, (after_memory-Quiet initialized.1).1, (after_ramfs-Quiet loaded.1).1) (refl, refl)

  boot_failed : initialized.0 ≡ false → (kernel_boot source d l t k).0 ≡ none
  unfolding kernel_boot assertion_failed
  boot_failed bad = rw bad refl

  -- kernel_main up to its loop, from any state with the cursor on the screen: it panics exactly where
  -- memory_init fails. Otherwise it reaches the shell with the event of the boot and the interrupt
  -- tables; then the table of rules is valid and loaded, journal, transactions, registry and cursor
  -- are within their bounds, allocator and heap are in the order that memory_init leaves them in, and
  -- there are no processes, and the configuration is what it was.
  pub kernel_boot-IsReady :
      Fits k.screen
      → ((initialized.0 ≡ false) × ((kernel_boot source d l t k).0 ≡ none))
        ⊎ ((initialized.0 ≡ true)
            × ((kernel_boot source d l t k).0 ≡ some (entered.0, final.0))
            × IsReady (kernel_boot source d l t k).1)
  kernel_boot-IsReady fits = elim (memory_init_lem d entered.1) [
    | inl (ok, memory) ↦ inr (ok, (boot_ready ok).0, rw (boot_ready ok).1 (ready fits memory))
    | inr (bad, unchanged) ↦ inl (bad, boot_failed bad)
  ]
