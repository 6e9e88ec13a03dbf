-- ===== src/Acpi/Tests.antt =====
-- An RSDT of two tables, of which the second has the signature.
use geek_toy_os.Base.{ℕ, ◌+◌, ◌*◌, ◌≡◌, ◌↔◌, refl, true, false, arith, [], ◌==◌, if◌then◌else◌}
use geek_toy_os.MemOps.{Mem}
use geek_toy_os.Strings.Bounds.{AreBytes}
use geek_toy_os.Paging.Walk.{kern_base}
use geek_toy_os.Acpi.{State, acpi_find_table, check_signature}
use geek_toy_os.Acpi.Find.{IsFirst, table_at, HasSignature, acpi_find_table-IsFirst}

-- The RSDT at 4096 with the tables at the physical addresses 2 and 5; at 64 the signature.
abbrev firmware : Mem
firmware a =
    if a == 4100
    then 44
    else if a == 4132
    then 2
    else if a == 4136
    then 5
    else if a == kern_base + 5
    then 65
    else if a == kern_base + 6
    then 80
    else if a == 64
    then 65
    else if a == 65
    then 80
    else 0

firmware-AreBytes : AreBytes firmware
firmware-AreBytes a = ground arith

abbrev booted : State
booted = record {
  acpi_sdt_header = 4096;
  acpi_revision = 0;
  tables = record { word = λ p i. 0; page = λ n. 4096 * (n + 2); taken = 0; freed = [] };
  kernel_pgd = 4096;
  page_1gb = false;
}

acpi_find_table-IsFirst_example :
    IsFirst
      (check_signature firmware 64)
      (table_at firmware booted)
      0
      2
      (acpi_find_table firmware 64 booted).1
    × ((table : ℕ) → (check_signature firmware 64 table ≡ true) ↔ HasSignature firmware 64 table)
acpi_find_table-IsFirst_example =
    acpi_find_table-IsFirst firmware 64 2 booted firmware-AreBytes (omega arith) (omega arith) refl
