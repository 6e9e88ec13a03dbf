-- ===== src/Apic.antt =====
-- src/arch/x86/apic.c: the tables that `parse_madt` fills from the ACPI table MADT, and the maps
-- between ISA interrupts and GSIs. Of `arch_kmap` only the address that it returns is kept, and of
-- `klog` and `warning` nothing; the registers of the APICs are left out.
pub mod Tables
pub mod Overrides
mod Tests
use geek_toy_os.Base.{
  ℕ, zero, suc, ◌+◌, ◌-◌, ◌*◌, ◌/◌, ◌%◌, ◌^◌, Bool, true, false, ltb, leb, ◌==◌, if◌then◌else◌, u8,
  u64, Option, none, some, List, [], ◌∷◌, ◌++◌, length,
}
use geek_toy_os.MemOps.{Mem}

abbrev pub max_lapics : ℕ
max_lapics = 32

abbrev pub max_ioapics : ℕ
max_ioapics = 16

abbrev pub max_nmis : ℕ
max_nmis = 2 * max_lapics

abbrev pub max_overrides : ℕ
max_overrides = 48

abbrev pub kern_base : ℕ
kern_base = 0xFFFF800000000000

-- What `arch_kmap` returns.
abbrev pub kmap_addr : ℕ → ℕ
kmap_addr phy = u64 (phy + kern_base)

-- Little-endian fields of a packed struct.
abbrev pub read_u16 : Mem → ℕ → ℕ
read_u16 m a = m a + 256 * m (a + 1)

abbrev pub read_u32 : Mem → ℕ → ℕ
read_u32 m a = read_u16 m a + 65536 * read_u16 m (a + 2)

abbrev pub read_u64 : Mem → ℕ → ℕ
read_u64 m a = read_u32 m a + 2 ^ 32 * read_u32 m (a + 4)

pub record LapicInfo : Type 0 where
  pub id : ℕ
  pub acpi_id : ℕ
  pub present : Bool
  pub ticks_per_10ms : ℕ

pub record IoapicInfo : Type 0 where
  pub id : ℕ
  pub gsi_base : ℕ
  pub base : ℕ

-- An entry that the code keeps a pointer to, with the fields that it reads.
pub record Override : Type 0 where
  pub source : ℕ
  pub gsi : ℕ
  pub flags : ℕ

pub record Nmi : Type 0 where
  pub acpi_id : ℕ
  pub flags : ℕ
  pub lint_num : ℕ

-- The tables and their sizes: each array with its size is a list.
pub record State : Type 0 where
  pub lapic_list : List LapicInfo
  pub ioapic_list : List IoapicInfo
  pub override_list : List Override
  pub nmi_list : List Nmi
  pub lapic_base : ℕ

pub add_lapic : Mem → (entry : ℕ) → State → State
add_lapic m entry s =
    let flags = read_u32 m (entry + 4) in
    let info : LapicInfo = record {
      id = m (entry + 3);
      acpi_id = m (entry + 2);
      present = flags == 1;
      ticks_per_10ms = 0;
    } in
    if flags == 0
    then s
    else if leb max_lapics (length s.lapic_list)
    then s
    else record s { lapic_list = s.lapic_list ++ info ∷ [] }

pub add_ioapic : Mem → (entry : ℕ) → State → State
add_ioapic m entry s =
    let info : IoapicInfo = record {
      id = m (entry + 2);
      gsi_base = read_u32 m (entry + 8);
      base = kmap_addr (read_u32 m (entry + 4));
    } in
    if leb max_ioapics (length s.ioapic_list)
    then s
    else record s { ioapic_list = s.ioapic_list ++ info ∷ [] }

pub add_override : Mem → (entry : ℕ) → State → State
add_override m entry s =
    let info : Override = record {
      source = m (entry + 3);
      gsi = read_u32 m (entry + 4);
      flags = read_u16 m (entry + 8);
    } in
    if leb max_overrides (length s.override_list)
    then s
    else record s { override_list = s.override_list ++ info ∷ [] }

pub add_nmi : Mem → (entry : ℕ) → State → State
add_nmi m entry s =
    let info : Nmi = record {
      acpi_id = m (entry + 2);
      flags = read_u16 m (entry + 3);
      lint_num = m (entry + 5);
    } in
    if leb max_nmis (length s.nmi_list) then s else record s { nmi_list = s.nmi_list ++ info ∷ [] }

-- The `switch` of `parse_madt`; `lapic_base` holds `tmp_lapic_base` until the loop ends.
pub parse_entry : Mem → (hd : ℕ) → State → State
parse_entry m hd s =
    if m hd == 0
    then add_lapic m hd s
    else if m hd == 1
    then add_ioapic m hd s
    else if m hd == 2
    then add_override m hd s
    else if m hd == 4
    then add_nmi m hd s
    else if m hd == 5
    then record s { lapic_base = read_u64 m (hd + 4) }
    else s

-- `while (hd < end)`; `none` is fuel run out, as in an entry of length 0, where the code loops on.
pub parse_loop : (fuel : ℕ) → Mem → (hd end_ : ℕ) → State → Option State
parse_loop zero m hd end_ s = if ltb hd end_ then none else some s
parse_loop (suc fuel) m hd end_ s =
    let rest = parse_loop fuel m (u64 (hd + m (hd + 1))) end_ (parse_entry m hd s) in
    if ltb hd end_ then rest else some s

-- `sizeof(struct acpi_header)`, behind which `lapic_address` and `flags` stand.
abbrev pub sizeof_header : ℕ
sizeof_header = 36

pub finish : Option State → Option State
finish none = none
finish (some s) = some (record s { lapic_base = kmap_addr s.lapic_base })

-- `parse_madt` of the table at `madt`, with `fuel` entries at most.
pub parse_madt : (fuel : ℕ) → Mem → (madt : ℕ) → State → Option State
parse_madt fuel m madt s =
    let s' = record s { lapic_base = read_u32 m (madt + sizeof_header) } in
    finish (parse_loop fuel m (madt + sizeof_header + 8) (madt + read_u32 m (madt + 4)) s')

pub find_lapic : List LapicInfo → (id : ℕ) → Option LapicInfo
find_lapic [] id = none
find_lapic (l ∷ ls) id = let rest = find_lapic ls id in if l.id == id then some l else rest

pub ioapic_isa_to_gsi : List Override → (isa : ℕ) → ℕ
ioapic_isa_to_gsi [] isa = isa
ioapic_isa_to_gsi (o ∷ os) isa =
    let rest = ioapic_isa_to_gsi os isa in if o.source == isa then u8 o.gsi else rest

pub ioapic_gsi_to_isa : List Override → (gsi : ℕ) → ℕ
ioapic_gsi_to_isa [] gsi = gsi
ioapic_gsi_to_isa (o ∷ os) gsi =
    let rest = ioapic_gsi_to_isa os gsi in if o.gsi == gsi then o.source else rest
