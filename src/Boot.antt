-- ===== src/Boot.antt =====
-- The boot sequence of kernel_main (kernel/main.c), up to its loop. The loop that drains the keyboard
-- controller is port input only. An assertion that fails ends in panic_impl.
pub mod Policies
pub mod Stages
pub mod Ready
use glass_os.Prelude.{ℕ, Bool, true, false, not, Option, none, some, ◌++◌, [], text, if◌then◌else◌}
use glass_os.Text.{Text}
use glass_os.Screen.{clear_screen, vga_enable_cursor, vga_draw_window}
use glass_os.Kernel.{Kernel, M, event_ok, modify, ◌>>=◌, ◌>>◌, pure}
use glass_os.Console.{printf}
use glass_os.Object.{object_registry_init}
use glass_os.Event.{event_init, event_record, event_set_current, object_update_state}
use glass_os.Policy.{policy_init}
use glass_os.Memory.Boot.{BootData, memory_init}
use glass_os.Ramfs.{ramfs_init}
use glass_os.Config.{config_init}
use glass_os.User.{user_init}
use glass_os.Interrupts.{Interrupts, Layout, serial_write, init_idt, panic_impl}

-- ASSERT: what the failed condition leaves.
unfoldable pub assertion_failed : Text → ℕ → M (Option (ℕ × Interrupts))
assertion_failed condition line k =
    let (_, k') =
      panic_impl (text "assertion failed: " ++ condition) (text "kernel/main.c") line k in
    (none, k')

-- Up to the policy, and the screen.
unfoldable pub enter_kernel : Text → M ℕ
enter_kernel source = do
  serial_write (text "GlassOS: entered kernel_main\r\n")
  modify (λ k. record k { journal = event_init })
  boot_event ←
      event_record (text "boot") (text "kernel") (text "enter") event_ok 0 (text "allow:boot")
  event_set_current boot_event
  modify (λ k. record k { registry = object_registry_init boot_event })
  policy_init source boot_event
  modify (λ k. record k { screen = vga_enable_cursor (clear_screen k.screen) })
  serial_write (text "GlassOS: initializing memory\r\n")
  pure boot_event

-- From one assertion to the next.
unfoldable pub after_memory : M Bool
after_memory = do
  object_update_state (text "memory") (text "ready")
  serial_write (text "GlassOS: memory ready\r\n")
  ramfs_init

unfoldable pub after_ramfs : M Bool
after_ramfs = do
  object_update_state (text "ramfs") (text "ready")
  serial_write (text "GlassOS: RAM filesystem ready\r\n")
  config_init

unfoldable pub after_config : Layout → Interrupts → M Interrupts
after_config l t = do
  serial_write (text "GlassOS: config ready\r\n")
  user_init
  serial_write (text "GlassOS: user model ready\r\n")
  tables ← init_idt l t
  object_update_state (text "interrupts") (text "ready")
  serial_write (text "GlassOS: IDT ready\r\n")
  event_record (text "boot") (text "interrupts") (text "initialize") event_ok 1
      (text "allow:kernel")
  serial_write (text "GlassOS serial: kernel ready\r\n")
  modify (λ k. record k { screen = vga_draw_window k.screen })
  object_update_state (text "shell") (text "ready")
  printf (text "GlassOS Shell v2.0 - RAM filesystem ready\n") []
  pure tables

-- The event of the boot and the interrupt tables, with which the loop starts; none for a panic.
unfoldable pub kernel_boot : Text → BootData → Layout → Interrupts → M (Option (ℕ × Interrupts))
kernel_boot source d l t k =
    let (boot_event, k1) = enter_kernel source k in
    let (memory_ok, k2) = memory_init d k1 in
    if not memory_ok
    then assertion_failed (text "memory_init((uint32_t)multiboot_info_address)") 369 k2
    else let (files_ok, k3) = after_memory k2 in
      if not files_ok
      then assertion_failed (text "ramfs_init()") 372 k3
      else let (config_ok, k4) = after_ramfs k3 in
        if not config_ok
        then assertion_failed (text "config_init()") 375 k4
        else let (tables, k5) = after_config l t k4 in (some (boot_event, tables), k5)
