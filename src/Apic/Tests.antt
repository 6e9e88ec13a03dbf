-- ===== src/Apic/Tests.antt =====
-- The tables of src/arch/x86/apic.c for a small MADT.
use geek_toy_os.Base.{◌+◌, ◌==◌, if◌then◌else◌, ◌≡◌, arith, refl, inl, inr, List, [], ◌∷◌, some}
use geek_toy_os.MemOps.{Mem}
use geek_toy_os.Apic.{
  State, Override, read_u32, parse_madt, ioapic_isa_to_gsi, ioapic_gsi_to_isa, sizeof_header,
}
use geek_toy_os.Apic.Tables.{IsBounded, IsTable, done, entry, parse_madt-IsBounded}
use geek_toy_os.Apic.Overrides.{ioapic_gsi_to_isa-ioapic_isa_to_gsi}

-- A table at 1000 of 52 bytes: the header and one entry of type 0 and length 8.
abbrev small_madt : Mem
small_madt a = if a == 1004 then 52 else if a == 1045 then 8 else 0

abbrev empty : State
empty = record {
  lapic_list = [];
  ioapic_list = [];
  override_list = [];
  nmi_list = [];
  lapic_base = 0;
}

small_madt-IsTable : IsTable small_madt (1000 + sizeof_header + 8) (1000 + read_u32 small_madt 1004)
small_madt-IsTable = entry (omega arith) (omega arith) (omega arith) (done (omega arith))

empty-IsBounded : IsBounded empty
empty-IsBounded = record {
  lapics = omega arith;
  ioapics = omega arith;
  overrides = omega arith;
  nmis = omega arith;
}

parse_madt_example : (t : State) × (parse_madt 52 small_madt 1000 empty ≡ some t) × IsBounded t
parse_madt_example = parse_madt-IsBounded small_madt 1000 empty small_madt-IsTable empty-IsBounded

-- The timer, ISA interrupt 0, comes in at GSI 2, and interrupt 9 keeps its number.
abbrev usual : List Override
usual = record { source = 0; gsi = 2; flags = 0 } ∷ record { source = 9; gsi = 9; flags = 13 } ∷ []

overrides_example : ioapic_gsi_to_isa usual (ioapic_isa_to_gsi usual 9) ≡ 9
overrides_example =
    ioapic_gsi_to_isa-ioapic_isa_to_gsi usual 9 (inr (inl refl))
      (omega arith, (λ e. absurd (omega (arith, e)), tt), (omega arith, tt, tt))
