-- ===== src/Interrupts/Gates.antt =====
-- The tables of kernel/idt.c as the CPU reads them.
use glass_os.Prelude.{
  ℕ, zero, suc, ◌+◌, ◌*◌, ◌/◌, ◌%◌, ◌^◌, ◌<◌, ◌≡◌, refl, sym, ap, ◌∙◌, true, false, ◌&&◌, ltb, leb,
  ◌==◌, Option, none, some, for_range, arith, Bool-cases, inl, inr, if◌then◌else◌,
}
use glass_os.Kernel.{Kernel}
use glass_os.Interrupts.{
  IdtEntry, Interrupts, Layout, set_idt_gate_flags, set_idt_gate, write_gates, init_idt,
  init_gdt_tss, tss_descriptor,
}

-- Where an interrupt leads: the handler, its code segment, and the least privileged ring that may call
-- it by an `int` instruction.
pub record Target : Type 0 where
  pub handler : ℕ
  pub segment : ℕ
  pub ring : ℕ

-- How the CPU reads a gate: bit 7 of the flags is for present, bits 5 and 6 are the ring.
abbrev pub reads : IdtEntry → Option Target
reads e =
    if e.flags / 2 ^ 7 % 2 == 1
    then some (record {
      handler = e.offset_low + 2 ^ 16 * e.offset_mid + 2 ^ 32 * e.offset_high;
      segment = e.selector;
      ring = e.flags / 2 ^ 5 % 4;
    })
    else none

abbrev pub kernel_target : ℕ → ℕ → Option Target
kernel_target handler ring = some (record { handler = handler % 2 ^ 64; segment = 8; ring = ring })

gate-reads :
    (n handler flags i : ℕ) (t : Interrupts)
    → flags / 2 ^ 7 % 2 ≡ 1
    → reads ((set_idt_gate_flags n handler flags t).idt i)
      ≡ (if i == n then kernel_target handler (flags / 2 ^ 5 % 4) else reads (t.idt i))
unfolding set_idt_gate_flags
gate-reads n handler flags i t there = elim (Bool-cases (i == n)) [
  | inl e ↦
      rw (e, there)
        (ap (λ h. some (record { handler = h; segment = 8; ring = flags / 2 ^ 5 % 4 }))
          (omega arith))
  | inr e ↦ rw e refl
]

exceptions :
    (rounds start i : ℕ) (l : Layout) (t : Interrupts)
    → reads ((for_range rounds start (λ v s. set_idt_gate v (l.exception_stub_table v) s) t).idt i)
      ≡ (if leb start i && ltb i (start + rounds)
          then kernel_target (l.exception_stub_table i) 0
          else reads (t.idt i))
unfolding for_range
exceptions zero start i l t =
    let none_left : (leb start i && ltb i (start + 0)) ≡ false = ground arith in rw none_left refl
exceptions (suc rounds) start i l t =
    let stub = l.exception_stub_table start in
    let first = gate-reads start stub 0x8E i t refl in
    exceptions rounds (start + 1) i l (set_idt_gate start stub t) ∙ elim (Bool-cases (i == start)) [
      | inl e ↦
          let same : i ≡ start = ground (arith, e) in
          let before : (leb (start + 1) i && ltb i (start + 1 + rounds)) ≡ false =
            ground (arith, same) in
          let here : (leb start i && ltb i (start + suc rounds)) ≡ true = ground (arith, same) in
          rw (before, here, first, e)
            (ap (λ v. kernel_target (l.exception_stub_table v) 0) (sym same))
      | inr e ↦
          let alike : (leb (start + 1) i && ltb i (start + 1 + rounds))
              ≡ (leb start i && ltb i (start + suc rounds)) =
            ground (arith, e) in
          rw (alike, first, e) refl
    ]

-- What each vector leads to: the stubs of the exceptions in order, timer and keyboard, all for ring 0,
-- and vector 128 for ring 3.
abbrev pub planned : Layout → ℕ → Option Target
planned l vector =
    if vector == 0x80
    then kernel_target l.syscall_isr_wrapper 3
    else if vector == 33
    then kernel_target l.keyboard_isr_wrapper 0
    else if vector == 32
    then kernel_target l.timer_isr_wrapper 0
    else if ltb vector 32
    then kernel_target (l.exception_stub_table vector) 0
    else none

write_gates-planned :
    (l : Layout) (t : Interrupts) (vector : ℕ)
    → reads (t.idt vector) ≡ none
    → reads ((write_gates l t).idt vector) ≡ planned l vector
unfolding write_gates
write_gates-planned l t vector empty =
    let all : (leb 0 vector && ltb vector (0 + 32)) ≡ ltb vector 32 = ground arith in
    rw
      (
        gate-reads 0x80 l.syscall_isr_wrapper 0xEE vector _ refl,
        gate-reads 33 l.keyboard_isr_wrapper 0x8E vector _ refl,
        gate-reads 32 l.timer_isr_wrapper 0x8E vector _ refl,
        exceptions 32 0 vector l t,
        empty,
        all,
      )
      refl

-- init_idt, for tables without a gate for the vector before: the CPU takes an exception to its stub,
-- vector 32 to the timer and 33 to the keyboard, all closed to programs in user mode, vector 128 to
-- the handler of system calls, which ring 3 may call, and no other vector to any handler.
pub init_idt_lem :
    (l : Layout) (t : Interrupts) (vector : ℕ) (k : Kernel)
    → reads (t.idt vector) ≡ none
    → reads ((init_idt l t k).0.idt vector) ≡ planned l vector
unfolding init_idt init_gdt_tss
init_idt_lem l t vector k empty = write_gates-planned l _ vector empty

-- The base, the limit and the type of a system descriptor of two words, as the CPU reads it.
abbrev pub base_of : ℕ → ℕ → ℕ
base_of low high =
    low / 2 ^ 16 % 2 ^ 24 + 2 ^ 24 * (low / 2 ^ 56 % 2 ^ 8) + 2 ^ 32 * (high % 2 ^ 32)

abbrev pub limit_of : ℕ → ℕ
limit_of low = low % 2 ^ 16 + 2 ^ 16 * (low / 2 ^ 48 % 2 ^ 4)

-- init_gdt_tss, for a task state segment at any 64-bit address: the descriptor at selector 0x28 fits
-- its word, and the CPU reads from it that address, the limit 103 and the type of a present 64-bit
-- task state segment; the stack for traps is the end of the interrupt stack; the segments 0x08 and 0x10
-- are those of ring 0, and 0x18 and 0x20 those of ring 3.
pub init_gdt_tss_lem :
    (l : Layout) (t : Interrupts) (k : Kernel)
    → l.tss_address < 2 ^ 64
    → let s = (init_gdt_tss l t k).0 in
      (s.gdt 5 < 2 ^ 64)
      × (base_of (s.gdt 5) (s.gdt 6) ≡ l.tss_address)
      × (limit_of (s.gdt 5) ≡ 103)
      × (s.gdt 5 / 2 ^ 40 % 2 ^ 8 ≡ 0x89)
      × (s.rsp0 ≡ l.kernel_interrupt_stack + 4096)
      × (s.gdt 1 / 2 ^ 45 % 4 ≡ 0)
      × (s.gdt 2 / 2 ^ 45 % 4 ≡ 0)
      × (s.gdt 3 / 2 ^ 45 % 4 ≡ 3)
      × (s.gdt 4 / 2 ^ 45 % 4 ≡ 3)
unfolding init_gdt_tss tss_descriptor
init_gdt_tss_lem l t k fits =
    (omega arith, omega (arith, fits), omega arith, omega arith, refl, refl, refl, refl, refl)
