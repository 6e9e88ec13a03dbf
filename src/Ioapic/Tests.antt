-- ===== src/Ioapic/Tests.antt =====
-- An I/O APIC of src/arch/x86/apic.c with all registers clear.
use geek_toy_os.Base.{◌≡◌, arith}
use geek_toy_os.Ioapic.{Ioapic, ioapic_redtbl_read, ioapic_mask, ioapic_unmask}
use geek_toy_os.Ioapic.Mask.{ioapic_redtbl_read-ioapic_mask}

abbrev clear : Ioapic
clear = record { gsi_base = 24; registers = λ i. 0 }

ioapic_mask_example :
    (ioapic_redtbl_read (ioapic_mask clear 30).registers 5 ≡ ioapic_redtbl_read clear.registers 5)
    × (ioapic_redtbl_read (ioapic_unmask clear 30).registers 5
        ≡ ioapic_redtbl_read clear.registers 5)
ioapic_mask_example =
    ioapic_redtbl_read-ioapic_mask clear 30 5 (omega arith) (omega arith)
      (λ e. absurd (omega (arith, e)))
