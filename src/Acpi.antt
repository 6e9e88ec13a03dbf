-- ===== src/Acpi.antt =====
-- src/drivers/acpi.c: the tables of the firmware. The bytes of memory are those that the kernel sees
-- at its own addresses, with what is to be read mapped; the page tables that `arch_kmap` changes
-- are passed along. What `acpi_list` and `error` log is left out.
pub mod Find
mod Tests
use geek_toy_os.Base.{
  ℕ, zero, suc, ◌+◌, ◌-◌, ◌*◌, ◌/◌, ◌^◌, Bool, true, false, ltb, ◌==◌, if◌then◌else◌, u64, Option,
  none, some,
}
use geek_toy_os.MemOps.{Mem}
use geek_toy_os.Strings.{memcmp}
use geek_toy_os.Apic.{read_u32, read_u64}
use geek_toy_os.Mboot.{
  null, multiboot_tag_type_acpi_old, multiboot_tag_type_acpi_new, mboot_get_mboot_info,
}
use geek_toy_os.Paging.Walk.{Tables, arch_kmap}

-- `sizeof(struct acpi_header)`
abbrev pub sizeof_header : ℕ
sizeof_header = 36

-- `acpi_sdt_header` and `acpi_revision`, the page tables with their root, and whether the processor
-- has pages of 1 GiB.
pub record State : Type 0 where
  pub acpi_sdt_header : ℕ
  pub acpi_revision : ℕ
  pub tables : Tables
  pub kernel_pgd : ℕ
  pub page_1gb : Bool

pub kmap : State → (phy sz : ℕ) → State × ℕ
kmap s phy sz =
    let result = arch_kmap s.page_1gb s.tables s.kernel_pgd phy sz in
    (record s { tables = result.0 }, result.1)

-- `acpi_remap`: the header first, then the whole table by the length in it.
pub acpi_remap : Mem → State → (phy : ℕ) → State × ℕ
acpi_remap m s phy =
    let (s', header) = kmap s phy sizeof_header in kmap s' phy (read_u32 m (header + 4))

-- The part of `acpi_init` after the tag is found; the RSDP stands behind the tag's head.
pub use_rsdp : Mem → (rsdp : ℕ) → State → State
use_rsdp m rsdp s =
    let revision = m (rsdp + 15) in
    let sdt = if revision == 0 then read_u32 m (rsdp + 16) else read_u64 m (rsdp + 24) in
    let (s', header) = acpi_remap m (record s { acpi_revision = revision }) sdt in
    record s' { acpi_sdt_header = header }

-- `acpi_init`, with at most `fuel` tags; the result is 0 where there is no RSDP.
pub acpi_init : (fuel : ℕ) → Mem → (mboot_info : ℕ) → State → Option (State × ℕ)
acpi_init fuel m mboot_info s =
    elim (mboot_get_mboot_info fuel m mboot_info multiboot_tag_type_acpi_new) [
      | none ↦ none
      | some new ↦ elim (mboot_get_mboot_info fuel m mboot_info multiboot_tag_type_acpi_old) [
        | none ↦ none
        | some old ↦
            let tag = if new == null then old else new in
            if tag == null then some (s, 0) else some (use_rsdp m (tag + 8) s, 1)
      ]
    ]

-- The step of the entries and the entry at an address: of 64 bits in an XSDT, of 32 in an RSDT.
abbrev pub entry_size : State → ℕ
entry_size s = if s.acpi_revision == 0 then 4 else 8

abbrev pub read_entry : Mem → State → (entry : ℕ) → ℕ
read_entry m s entry = if s.acpi_revision == 0 then read_u32 m entry else read_u64 m entry

-- `for_ptr_entry` in `acpi_iter`, with at most `left` entries.
pub iter_loop : (left : ℕ) → Mem → (handler : ℕ → Bool) → (entry table_end : ℕ) → State → State × ℕ
iter_loop zero m handler entry table_end s = (s, null)
iter_loop (suc left) m handler entry table_end s =
    let mapped = acpi_remap m s (read_entry m s entry) in
    let rest = iter_loop left m handler (u64 (entry + entry_size s)) table_end mapped.0 in
    if ltb entry table_end then (if handler mapped.1 then mapped else rest) else (s, null)

-- `acpi_iter`: an entry takes four bytes at least, so the table's length is fuel enough.
pub acpi_iter : Mem → (handler : ℕ → Bool) → State → State × ℕ
acpi_iter m handler s =
    let table_start = u64 (s.acpi_sdt_header + sizeof_header) in
    let length = read_u32 m (s.acpi_sdt_header + 4) in
    iter_loop length m handler table_start (u64 (s.acpi_sdt_header + length)) s

-- `__acpi_check_signature`
pub check_signature : Mem → (signature header : ℕ) → Bool
check_signature m signature header = memcmp m header signature 4 == 0

pub acpi_find_table : Mem → (signature : ℕ) → State → State × ℕ
acpi_find_table m signature s =
    if s.acpi_sdt_header == null then (s, null) else acpi_iter m (check_signature m signature) s
