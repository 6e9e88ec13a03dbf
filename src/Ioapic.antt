-- ===== src/Ioapic.antt =====
-- The redirection table of an I/O APIC in src/arch/x86/apic.c. An I/O APIC is its registers by
-- index: `ioapic[0] = reg` selects one and `ioapic[4]` is the one selected.
pub mod Mask
mod Tests
use geek_toy_os.Base.{
  ℕ, ◌+◌, ◌-◌, ◌*◌, ◌/◌, ◌%◌, ◌^◌, bit_and, bit_or, Bool, true, false, ◌&&◌, ltb, leb, ◌==◌,
  if◌then◌else◌, update, u8, u32, u64, sub32, Option, none, some, List, [], ◌∷◌,
}

-- `struct ioapic_info` with the registers behind `base`.
pub record Ioapic : Type 0 where
  pub gsi_base : ℕ
  pub registers : ℕ → ℕ

pub ioapic_read : (ℕ → ℕ) → (reg : ℕ) → ℕ
ioapic_read registers reg = registers (u8 reg)

pub ioapic_write : (ℕ → ℕ) → (reg value : ℕ) → ℕ → ℕ
ioapic_write registers reg value = update registers (u8 reg) (u32 value)

pub get_max_redirs : (ℕ → ℕ) → ℕ
get_max_redirs registers = bit_and (ioapic_read registers 1) 0xFF0000 / 2 ^ 16

-- The index of the I/O APIC of a GSI; `none` is `panic`.
pub gsi_to_ioapic : List Ioapic → (gsi i : ℕ) → Option ℕ
gsi_to_ioapic [] gsi i = none
gsi_to_ioapic (a ∷ rest_list) gsi i =
    let rest = gsi_to_ioapic rest_list gsi (i + 1) in
    if leb a.gsi_base gsi && ltb gsi (u32 (a.gsi_base + get_max_redirs a.registers))
    then some i
    else rest

pub ioapic_redtbl_read : (ℕ → ℕ) → (irq_line : ℕ) → ℕ
ioapic_redtbl_read registers irq_line =
    let ioredtbl = irq_line * 2 + 16 in
    bit_or (ioapic_read registers ioredtbl) (ioapic_read registers (ioredtbl + 1) * 2 ^ 32)

pub ioapic_redtbl_write : (ℕ → ℕ) → (irq_line value : ℕ) → ℕ → ℕ
ioapic_redtbl_write registers irq_line value =
    let ioredtbl = irq_line * 2 + 16 in
    ioapic_write (ioapic_write registers ioredtbl value) (ioredtbl + 1) (value / 2 ^ 32)

-- `redirection` in `ioapic_redirect`.
pub redirection : (gsi flags target_apic_id : ℕ) → ℕ
redirection gsi flags target_apic_id =
    let r0 = u32 (gsi + 32) in
    let r1 = if bit_and flags 2 == 0 then r0 else bit_or r0 (2 ^ 13) in
    let r2 = if bit_and flags 8 == 0 then r1 else bit_or r1 (2 ^ 15) in
    bit_or r2 (target_apic_id * 2 ^ 56)

-- The bodies of `ioapic_redirect`, `ioapic_mask` and `ioapic_unmask` on the I/O APIC found.
pub ioapic_redirect : Ioapic → (gsi flags target_apic_id : ℕ) → Ioapic
ioapic_redirect a gsi flags target_apic_id = record a {
  registers =
      ioapic_redtbl_write a.registers (u8 (sub32 gsi a.gsi_base))
        (redirection gsi flags target_apic_id);
}

pub ioapic_mask : Ioapic → (gsi : ℕ) → Ioapic
ioapic_mask a gsi =
    let irq_line = u8 (sub32 gsi a.gsi_base) in
    record a {
      registers =
          ioapic_redtbl_write a.registers irq_line
            (bit_or (ioapic_redtbl_read a.registers irq_line) 0x10000);
    }

-- `~APIC_IRQ_MASK` is an `int`, and is extended to 64 bits with its sign.
pub ioapic_unmask : Ioapic → (gsi : ℕ) → Ioapic
ioapic_unmask a gsi =
    let irq_line = u8 (sub32 gsi a.gsi_base) in
    record a {
      registers =
          ioapic_redtbl_write a.registers irq_line
            (bit_and (ioapic_redtbl_read a.registers irq_line) (2 ^ 64 - 1 - 0x10000));
    }
