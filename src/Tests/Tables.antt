-- ===== src/Tests/Tables.antt =====
-- The interrupt tables and the boot at concrete addresses.
use glass_os.Prelude.{
  ◌+◌, ◌*◌, ◌/◌, ◌%◌, ◌^◌, ◌<◌, ◌≡◌, ◌⊎◌, refl, true, false, some, none, [], arith,
}
use glass_os.Interrupts.{IdtEntry, Interrupts, Layout, init_idt, init_gdt_tss}
use glass_os.Interrupts.Gates.{reads, planned, base_of, limit_of, init_idt_lem, init_gdt_tss_lem}
use glass_os.Boot.{kernel_boot}
use glass_os.Boot.Ready.{IsReady, kernel_boot-IsReady, entered, initialized, final}
use glass_os.Tests.Memories.{boot_data}
use glass_os.Tests.Sample.{kernel}

abbrev pub layout : Layout
layout = record {
  exception_stub_table = λ vector. 0x101000 + 16 * vector;
  timer_isr_wrapper = 0x102000;
  keyboard_isr_wrapper = 0x102100;
  syscall_isr_wrapper = 0x102200;
  idt_address = 0x110000;
  gdt_address = 0x111000;
  tss_address = 0x112000;
  kernel_interrupt_stack = 0x113000;
}

abbrev no_gate : IdtEntry
no_gate = record {
  offset_low = 0;
  selector = 0;
  ist = 0;
  flags = 0;
  offset_mid = 0;
  offset_high = 0;
  zero_word = 0;
}

-- The zeroed tables of the start.
abbrev pub zeroed : Interrupts
zeroed = record {
  idt = λ i. no_gate;
  gdt = λ i. 0;
  rsp0 = 0;
  iomap_base = 0;
  gdtp = (0, 0);
  idtp = (0, 0);
  ports = [];
}

init_idt_lem_example : reads ((init_idt layout zeroed kernel).0.idt 0x80) ≡ planned layout 0x80
init_idt_lem_example = init_idt_lem layout zeroed 0x80 kernel refl

init_gdt_tss_lem_example :
    let s = (init_gdt_tss layout zeroed kernel).0 in
    (s.gdt 5 < 2 ^ 64)
    × (base_of (s.gdt 5) (s.gdt 6) ≡ 0x112000)
    × (limit_of (s.gdt 5) ≡ 103)
    × (s.gdt 5 / 2 ^ 40 % 2 ^ 8 ≡ 0x89)
    × (s.rsp0 ≡ layout.kernel_interrupt_stack + 4096)
    × (s.gdt 1 / 2 ^ 45 % 4 ≡ 0)
    × (s.gdt 2 / 2 ^ 45 % 4 ≡ 0)
    × (s.gdt 3 / 2 ^ 45 % 4 ≡ 3)
    × (s.gdt 4 / 2 ^ 45 % 4 ≡ 3)
init_gdt_tss_lem_example = init_gdt_tss_lem layout zeroed kernel (omega arith)

kernel_boot-IsReady_example :
    ((initialized [] boot_data layout zeroed kernel).0 ≡ false)
      × ((kernel_boot [] boot_data layout zeroed kernel).0 ≡ none)
    ⊎ (((initialized [] boot_data layout zeroed kernel).0 ≡ true)
        × ((kernel_boot [] boot_data layout zeroed kernel).0
            ≡ some (
              (entered [] boot_data layout zeroed kernel).0,
              (final [] boot_data layout zeroed kernel).0,
            ))
        × IsReady [] boot_data layout zeroed kernel
            (kernel_boot [] boot_data layout zeroed kernel).1)
kernel_boot-IsReady_example = kernel_boot-IsReady [] boot_data layout zeroed kernel refl
