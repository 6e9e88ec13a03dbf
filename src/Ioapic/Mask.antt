-- ===== src/Ioapic/Mask.antt =====
-- Masking in src/arch/x86/apic.c touches one entry of the redirection table.
use geek_toy_os.Base.{ℕ, ◌+◌, ◌*◌, ◌<◌, u8, sub32, ◌≡◌, ◌≢◌, refl, arith}
use geek_toy_os.Ioapic.{
  Ioapic, ioapic_read, ioapic_write, ioapic_redtbl_read, ioapic_redtbl_write, ioapic_mask,
  ioapic_unmask,
}

write_elsewhere :
    (registers : ℕ → ℕ) (line value i : ℕ)
    → line < 120
    → i ≢ line * 2 + 16
    → i ≢ line * 2 + 17
    → ioapic_redtbl_write registers line value i ≡ registers i
unfolding ioapic_redtbl_write ioapic_write
write_elsewhere registers line value i low a b = ground (arith, low, a, b)

other_line :
    (registers : ℕ → ℕ) (own line value : ℕ)
    → own < 120
    → line < 120
    → line ≢ own
    → ioapic_redtbl_read (ioapic_redtbl_write registers own value) line
      ≡ ioapic_redtbl_read registers line
unfolding ioapic_redtbl_read ioapic_read
other_line registers own line value small low apart =
    let first : u8 (line * 2 + 16) ≡ line * 2 + 16 = omega (arith, low) in
    let second : u8 (line * 2 + 16 + 1) ≡ line * 2 + 17 = omega (arith, low) in
    let low_same =
      write_elsewhere registers own value (line * 2 + 16) small (λ e. apart (omega (arith, e)))
        (λ e. absurd (omega (arith, e))) in
    let high_same =
      write_elsewhere registers own value (line * 2 + 17) small (λ e. absurd (omega (arith, e)))
        (λ e. apart (omega (arith, e))) in
    rw first (rw second (rw low_same (rw high_same refl)))

-- `ioapic_mask` of one of the first 120 lines of an I/O APIC leaves the redirection entries of all
-- its other lines below 120 as they were, and so does `ioapic_unmask`.
pub ioapic_redtbl_read-ioapic_mask :
    (a : Ioapic) (gsi line : ℕ)
    → sub32 gsi a.gsi_base < 120
    → line < 120
    → line ≢ sub32 gsi a.gsi_base
    → (ioapic_redtbl_read (ioapic_mask a gsi).registers line ≡ ioapic_redtbl_read a.registers line)
      × (ioapic_redtbl_read (ioapic_unmask a gsi).registers line
          ≡ ioapic_redtbl_read a.registers line)
unfolding ioapic_mask ioapic_unmask
ioapic_redtbl_read-ioapic_mask a gsi line own low apart =
    let flat : u8 (sub32 gsi a.gsi_base) ≡ sub32 gsi a.gsi_base = omega (arith, own) in
    rw flat (
      other_line a.registers (sub32 gsi a.gsi_base) line _ own low apart,
      other_line a.registers (sub32 gsi a.gsi_base) line _ own low apart,
    )
