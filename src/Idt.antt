-- ===== src/Idt.antt =====
-- The descriptor tables: the gates of src/arch/x86_64/idt.c and the segments of
-- src/arch/i386/gdt.c, field by field. The instructions that load the tables are left out.
pub mod Fields
mod Tests
use geek_toy_os.Base.{
  ℕ, zero, suc, ◌+◌, ◌*◌, ◌/◌, ◌%◌, ◌^◌, bit_and, bit_or, ◌==◌, if◌then◌else◌, update, u8, u32,
}

-- `idt_entry_t`
pub record IdtEntry : Type 0 where
  pub base_lo : ℕ
  pub sel : ℕ
  pub ist : ℕ
  pub flags : ℕ
  pub base_mid : ℕ
  pub base_hi : ℕ

-- `GD_SEL(SEG_KTEXT)`
abbrev pub kernel_text : ℕ
kernel_text = 8

abbrev pub ist_none : ℕ
ist_none = 0

abbrev pub ist_nmi : ℕ
ist_nmi = 1

abbrev pub ist_double_fault : ℕ
ist_double_fault = 2

-- `DA_386IGate`
abbrev pub interrupt_gate : ℕ
interrupt_gate = 0x8E

abbrev pub int_nmi : ℕ
int_nmi = 2

abbrev pub int_double_fault : ℕ
int_double_fault = 8

pub gate : (base flags : ℕ) → IdtEntry
gate base flags = record {
  base_lo = bit_and base 0xFFFF;
  sel = kernel_text;
  ist = ist_none;
  flags = u8 flags;
  base_mid = bit_and (base / 2 ^ 16) 0xFFFF;
  base_hi = bit_and (base / 2 ^ 32) 0xFFFFFFFF;
}

pub idt_set_gate : (ℕ → IdtEntry) → (num base flags : ℕ) → ℕ → IdtEntry
idt_set_gate entries num base flags = update entries (u8 num) (gate base flags)

-- The loop of `idt_init` over the vectors, `isr_func` by their numbers.
pub gate_loop : (left vec : ℕ) → (isr_func : ℕ → ℕ) → (ℕ → IdtEntry) → ℕ → IdtEntry
gate_loop zero vec isr_func entries = entries
gate_loop (suc left) vec isr_func entries =
    gate_loop left (suc vec) isr_func (idt_set_gate entries (u8 vec) (isr_func vec) interrupt_gate)

set_ist : (ℕ → IdtEntry) → (num ist : ℕ) → ℕ → IdtEntry
set_ist entries num ist = update entries num (record (entries num) { ist = ist })

-- `idt_init` up to the loading of the table.
pub idt_init : (isr_func : ℕ → ℕ) → (ℕ → IdtEntry) → ℕ → IdtEntry
unfolding set_ist
idt_init isr_func entries =
    set_ist (set_ist (gate_loop 256 0 isr_func entries) int_double_fault ist_double_fault) int_nmi
      ist_nmi

-- `descriptor_t` of the i386 port.
pub record Descriptor : Type 0 where
  pub limit_low : ℕ
  pub base_low : ℕ
  pub base_middle : ℕ
  pub attr1 : ℕ
  pub limit_high_attr2 : ℕ
  pub base_high : ℕ

-- `gdt_set_gate`
pub gdt_set_gate : (ℕ → Descriptor) → (num base limit attr : ℕ) → ℕ → Descriptor
gdt_set_gate gdt num base limit attr = update gdt num (record {
  base_low = bit_and base 0xFFFF;
  base_middle = bit_and (base / 2 ^ 16) 0xFF;
  base_high = bit_and (base / 2 ^ 24) 0xFF;
  limit_low = bit_and limit 0xFFFF;
  limit_high_attr2 = bit_or (bit_and (limit / 2 ^ 16) 0x0F) (bit_and (attr / 2 ^ 8) 0xF0);
  attr1 = bit_and attr 0xFF;
})
