-- ===== src/Mboot.antt =====
-- src/kernel/multiboot2.c: the tags of the boot information, over the bytes of memory; and `for_mmap`
-- of src/kernel/mm/memory.c, the entries of the memory map. What `mboot_info_show` logs is left out.
pub mod Tags
mod Tests
use geek_toy_os.Base.{
  ℕ, zero, suc, ◌+◌, ◌-◌, ◌^◌, bit_and, ltb, ◌==◌, if◌then◌else◌, u32, u64, Option, none, some,
  List, [], ◌∷◌,
}
use geek_toy_os.MemOps.{Mem}
use geek_toy_os.Apic.{read_u32, read_u64}
use geek_toy_os.Pages.{MmapEntry}

abbrev pub null : ℕ
null = 0

abbrev pub multiboot_tag_type_end : ℕ
multiboot_tag_type_end = 0

abbrev pub multiboot_tag_type_mmap : ℕ
multiboot_tag_type_mmap = 6

abbrev pub multiboot_tag_type_acpi_old : ℕ
multiboot_tag_type_acpi_old = 14

abbrev pub multiboot_tag_type_acpi_new : ℕ
multiboot_tag_type_acpi_new = 15

-- `tag->type` and `tag->size`
abbrev pub tag_type : Mem → (tag : ℕ) → ℕ
tag_type m tag = read_u32 m tag

abbrev pub tag_size : Mem → (tag : ℕ) → ℕ
tag_size m tag = read_u32 m (tag + 4)

-- `(multiboot_uint8_t *) tag + ((tag->size + 7) & ~7)`
pub next_tag : Mem → (tag : ℕ) → ℕ
next_tag m tag = u64 (tag + bit_and (u32 (tag_size m tag + 7)) (2 ^ 32 - 8))

-- `mboot_info_init`: the end of the boot information.
pub mboot_info_init : Mem → (mboot_info : ℕ) → ℕ
mboot_info_init m mboot_info = u64 (mboot_info + read_u32 m mboot_info)

-- The loop of `mboot_get_mboot_info`; `none` is fuel run out.
pub find_tag : (fuel : ℕ) → Mem → (tag type : ℕ) → Option ℕ
find_tag zero m tag type = none
find_tag (suc fuel) m tag type =
    let rest = find_tag fuel m (next_tag m tag) type in
    if tag_type m tag == multiboot_tag_type_end
    then some null
    else if tag_type m tag == type
    then some tag
    else rest

pub mboot_get_mboot_info : (fuel : ℕ) → Mem → (mboot_info type : ℕ) → Option ℕ
mboot_get_mboot_info fuel m mboot_info type = find_tag fuel m (u64 (mboot_info + 8)) type

-- An entry as `mem_map_init` reads it.
pub read_mmap : Mem → (mmap : ℕ) → MmapEntry
read_mmap m mmap = record {
  addr = read_u64 m mmap;
  len = read_u64 m (mmap + 8);
  available = read_u32 m (mmap + 16) == 1;
}

-- `for_mmap` from the entry at `mmap` on, with `fuel` entries at most.
pub mmap_loop : (fuel : ℕ) → Mem → (tag mmap : ℕ) → List MmapEntry
mmap_loop zero m tag mmap = []
mmap_loop (suc fuel) m tag mmap =
    let rest = mmap_loop fuel m tag (u64 (mmap + read_u32 m (tag + 8))) in
    if ltb mmap (u64 (tag + tag_size m tag)) then read_mmap m mmap ∷ rest else []

pub for_mmap : (fuel : ℕ) → Mem → (tag : ℕ) → List MmapEntry
for_mmap fuel m tag = mmap_loop fuel m tag (tag + 16)
