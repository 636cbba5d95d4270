-- ===== src/Interrupts.antt =====
-- The interrupt tables and the exceptions (kernel/idt.c), and the parts that only a halt or a tick
-- reaches: kernel/panic.c, kernel/timer.c and the numbers that kernel/serial.c writes.
pub mod Gates
use glass_os.Prelude.{
  ℕ, zero, suc, ◌+◌, ◌-◌, ◌*◌, ◌/◌, ◌%◌, ◌^◌, Bool, true, false, List, [], ◌∷◌, ◌++◌, Option, none,
  some, for_range, text, ◌==◌, get_or, ltb, if◌then◌else◌,
}
use glass_os.Text.{Text}
use glass_os.Text.Append.{decimal}
use glass_os.Screen.{vga_set_color, clear_screen}
use glass_os.Kernel.{Kernel, M, event_fault, next64, modify, ◌>>=◌, ◌>>◌, pure}
use glass_os.Console.{printf, Arg}
use glass_os.Event.{event_record}
use glass_os.User.Syscall.{user_handle_fault}

pub record IdtEntry : Type 0 where
  pub offset_low : ℕ
  pub selector : ℕ
  pub ist : ℕ
  pub flags : ℕ
  pub offset_mid : ℕ
  pub offset_high : ℕ
  pub zero_word : ℕ

-- The addresses that the linker fixes.
pub record Layout : Type 0 where
  pub exception_stub_table : ℕ → ℕ
  pub timer_isr_wrapper : ℕ
  pub keyboard_isr_wrapper : ℕ
  pub syscall_isr_wrapper : ℕ
  pub idt_address : ℕ
  pub gdt_address : ℕ
  pub tss_address : ℕ
  pub kernel_interrupt_stack : ℕ

-- The tables, the fields of the task state segment that are written, the operands of lgdt and lidt,
-- and what was written to the ports of the interrupt controllers and of the timer.
pub record Interrupts : Type 0 where
  pub idt : ℕ → IdtEntry
  pub gdt : ℕ → ℕ
  pub rsp0 : ℕ
  pub iomap_base : ℕ
  pub gdtp : ℕ × ℕ
  pub idtp : ℕ × ℕ
  pub ports : List (ℕ × ℕ)

-- serial_write
abbrev pub serial_write : Text → M (Unit {0})
serial_write s = modify λ k. record k { serial = k.serial ++ s }

abbrev serial_digit : ℕ → ℕ
serial_digit d = if ltb d 10 then b'0' + d else b'a' + (d - 10)

-- serial_write_hex: sixteen digits, the highest first.
unfoldable pub padded_hex : ℕ → ℕ → Text
padded_hex zero value = []
padded_hex (suc room) value = serial_digit (value / 16 ^ room % 16) ∷ padded_hex room value

unfoldable pub set_idt_gate_flags : ℕ → ℕ → ℕ → Interrupts → Interrupts
set_idt_gate_flags n handler flags t =
    let e : IdtEntry = record {
      offset_low = handler % 2 ^ 16;
      selector = 0x08;
      ist = 0;
      flags = flags;
      offset_mid = handler / 2 ^ 16 % 2 ^ 16;
      offset_high = handler / 2 ^ 32 % 2 ^ 32;
      zero_word = 0;
    } in
    record t { idt = λ i. if i == n then e else t.idt i }

abbrev pub set_idt_gate : ℕ → ℕ → Interrupts → Interrupts
set_idt_gate n handler t = set_idt_gate_flags n handler 0x8E t

-- sizeof(tss), packed
abbrev pub tss_size : ℕ
tss_size = 104

-- The fields of the descriptor do not overlap, so that `|` adds them.
unfoldable pub tss_descriptor : ℕ → ℕ
tss_descriptor tss_base =
    let tss_limit = tss_size - 1 in
    tss_limit % 2 ^ 16
    + tss_base % 2 ^ 24 * 2 ^ 16
    + 0x89 * 2 ^ 40
    + tss_limit / 2 ^ 16 % 2 ^ 4 * 2 ^ 48
    + tss_base / 2 ^ 24 % 2 ^ 8 * 2 ^ 56

-- The table gdt[7].
abbrev pub descriptors : ℕ → List ℕ
descriptors tss_base =
    0
    ∷ 0x00209A0000000000
    ∷ 0x0000920000000000
    ∷ 0x0000F20000000000
    ∷ 0x0020FA0000000000
    ∷ tss_descriptor tss_base
    ∷ tss_base / 2 ^ 32
    ∷ []

unfoldable pub init_gdt_tss : Layout → Interrupts → M Interrupts
init_gdt_tss l t k =
    let t' = record t {
      gdt = λ i. get_or (descriptors l.tss_address) i (t.gdt i);
      rsp0 = l.kernel_interrupt_stack + 4096;
      iomap_base = tss_size;
      gdtp = (7 * 8 - 1, l.gdt_address);
    } in
    (do serial_write (text "GlassOS: GDT/TSS ready\r\n"); pure t') k

-- The two interrupt controllers, the timer at 100 ticks a second, and the mask of all lines but those
-- of timer and keyboard.
abbrev pub controller_writes : List (ℕ × ℕ)
controller_writes =
    (0x20, 0x11)
    ∷ (0xA0, 0x11)
    ∷ (0x21, 0x20)
    ∷ (0xA1, 0x28)
    ∷ (0x21, 0x04)
    ∷ (0xA1, 0x02)
    ∷ (0x21, 0x01)
    ∷ (0xA1, 0x01)
    ∷ (0x43, 0x36)
    ∷ (0x40, 11931 % 256)
    ∷ (0x40, 11931 / 256 % 256)
    ∷ (0x21, 0xFC)
    ∷ (0xA1, 0xFF)
    ∷ []

abbrev pub cpu_exception_count : ℕ
cpu_exception_count = 32

-- The gates that init_idt writes, in its order.
unfoldable pub write_gates : Layout → Interrupts → Interrupts
write_gates l t =
    let t' =
      for_range cpu_exception_count 0
        (λ vector s. set_idt_gate vector (l.exception_stub_table vector) s) t in
    set_idt_gate_flags 0x80 l.syscall_isr_wrapper 0xEE
      (set_idt_gate 33 l.keyboard_isr_wrapper (set_idt_gate 32 l.timer_isr_wrapper t'))

unfoldable pub init_idt : Layout → Interrupts → M Interrupts
init_idt l t = do
  serial_write (text "GlassOS: building IDT\r\n")
  t1 ← init_gdt_tss l t
  serial_write (text "GlassOS: IDT gates ready\r\n")
  serial_write (text "GlassOS: PIC ready\r\n")
  serial_write (text "GlassOS: IDT loaded\r\n")
  pure (
      write_gates l
        (record t1 { idtp = (16 * 256 - 1, l.idt_address); ports = t1.ports ++ controller_writes }))

abbrev pub exception_names : List Text
exception_names =
    text "Divide error"
    ∷ text "Debug"
    ∷ text "Non-maskable interrupt"
    ∷ text "Breakpoint"
    ∷ text "Overflow"
    ∷ text "Bound range exceeded"
    ∷ text "Invalid opcode"
    ∷ text "Device not available"
    ∷ text "Double fault"
    ∷ text "Coprocessor segment overrun"
    ∷ text "Invalid TSS"
    ∷ text "Segment not present"
    ∷ text "Stack-segment fault"
    ∷ text "General protection fault"
    ∷ text "Page fault"
    ∷ text "Reserved"
    ∷ text "x87 floating-point exception"
    ∷ text "Alignment check"
    ∷ text "Machine check"
    ∷ text "SIMD floating-point exception"
    ∷ text "Virtualization exception"
    ∷ text "Control protection exception"
    ∷ text "Reserved"
    ∷ text "Reserved"
    ∷ text "Reserved"
    ∷ text "Reserved"
    ∷ text "Reserved"
    ∷ text "Reserved"
    ∷ text "Hypervisor injection exception"
    ∷ text "VMM communication exception"
    ∷ text "Security exception"
    ∷ text "Reserved"
    ∷ []

abbrev pub light_red_on_black : ℕ
light_red_on_black = 0x0C

-- True where the handler returns, and false where it halts for good. The stubs of the CPU's exceptions
-- give vectors below 32 only.
unfoldable pub exception_handler : ℕ → ℕ → ℕ → ℕ → M Bool
exception_handler vector error_code rip cs k =
    let (handled, k1) = user_handle_fault vector error_code rip cs k in
    if handled
    then (true, k1)
    else (do
      event_record (text "cpu") (text "kernel") (text "exception") event_fault 0 (text "deny:fault")
      serial_write (
          text "EXCEPTION vector="
          ++ decimal 20 vector
          ++ text " error="
          ++ text "0x"
          ++ padded_hex 16 error_code
          ++ text "\r\n")
      modify (λ s. record s { screen = clear_screen (vga_set_color light_red_on_black s.screen) })
      printf (text "CPU EXCEPTION\n%s\nvector: %d  error: %x\nSystem halted.\n")
          (Arg.str (get_or exception_names vector []) ∷ Arg.num vector ∷ Arg.num error_code ∷ [])
      pure false)
        k1

-- panic_impl, before it halts for good.
unfoldable pub panic_impl : Text → Text → ℕ → M (Unit {0})
panic_impl message file line = do
  serial_write (text "KERNEL PANIC: " ++ message ++ text "\r\n")
  modify (λ s. record s { screen = vga_set_color light_red_on_black s.screen })
  printf (text "\nKERNEL PANIC\n%s\n%s:%d\n") (Arg.str message ∷ Arg.str file ∷ Arg.num line ∷ [])

-- timer_handler
unfoldable pub timer_handler : Kernel → Kernel
timer_handler k = record k { system_ticks = next64 k.system_ticks }
