-- ===== src/Idt/Tests.antt =====
-- The descriptor tables at concrete inputs.
use geek_toy_os.Base.{ℕ, ◌+◌, ◌*◌, ◌/◌, ◌%◌, ◌^◌, ◌≡◌, arith, ◌==◌, if◌then◌else◌}
use geek_toy_os.Idt.{
  IdtEntry, Descriptor, kernel_text, ist_none, ist_nmi, ist_double_fault, interrupt_gate, int_nmi,
  int_double_fault, idt_init, gdt_set_gate,
}
use geek_toy_os.Idt.Fields.{target, idt_init-target, gdt_set_gate-fields}

abbrev no_entry : IdtEntry
no_entry = record { base_lo = 1; sel = 1; ist = 1; flags = 1; base_mid = 1; base_hi = 1 }

abbrev routines : ℕ → ℕ
routines vec = 0xFFFF800000100000 + vec * 16

idt_init-target_example :
    (let e = idt_init routines (λ n. no_entry) 8 in
      (target e ≡ routines 8)
      × (e.sel ≡ kernel_text)
      × (e.flags ≡ interrupt_gate)
      × (e.ist ≡ (
          if 8 == int_nmi
          then ist_nmi
          else if 8 == int_double_fault
          then ist_double_fault
          else ist_none)))
idt_init-target_example = idt_init-target routines (λ n. no_entry) 8 (omega arith) (omega arith)

abbrev no_descriptor : Descriptor
no_descriptor = record {
  limit_low = 0;
  base_low = 0;
  base_middle = 0;
  attr1 = 0;
  limit_high_attr2 = 0;
  base_high = 0;
}

gdt_set_gate-fields_example :
    (let d = gdt_set_gate (λ n. no_descriptor) 5 0xC0123456 0x67 0xC09A 5 in
      (d.base_low + d.base_middle * 2 ^ 16 + d.base_high * 2 ^ 24 ≡ 0xC0123456)
      × (d.limit_low + d.limit_high_attr2 % 16 * 2 ^ 16 ≡ 0x67)
      × (d.attr1 + d.limit_high_attr2 / 16 * 2 ^ 12 ≡ 0xC09A % 2 ^ 8 + 0xC09A / 2 ^ 12 * 2 ^ 12))
gdt_set_gate-fields_example =
    gdt_set_gate-fields (λ n. no_descriptor) 5 0xC0123456 0x67 0xC09A (omega arith) (omega arith)
      (omega arith)
