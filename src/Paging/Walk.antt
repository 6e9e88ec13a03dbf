-- ===== src/Paging/Walk.antt =====
-- `pgdir_walk`, `expand_page` and their callers in src/arch/x86_64/mm.c over the tables in memory. A
-- table is named by its physical address, which `kaddr` takes to the kernel's own; what it holds
-- are 512 words of 64 bits.
pub mod Translate
pub mod Keeps
pub mod Tree
pub mod Attach
pub mod Grow
pub mod Cut
pub mod Expand
pub mod Reach
pub mod Arrive
pub mod Outcome
pub mod Down
pub mod Arrival
pub mod Write
pub mod Mapped
pub mod Region
pub mod Check
pub mod Remap
mod Tests
use geek_toy_os.Base.{
  ℕ, zero, suc, ◌+◌, ◌-◌, ◌*◌, ◌/◌, ◌%◌, ◌^◌, bit_and, bit_or, Bool, true, false, not, ◌&&◌, leb,
  ◌==◌, if◌then◌else◌, u64, sub64, align_down, List, [], ◌∷◌, Option, none, some,
}
use geek_toy_os.Paging.{pgsize, ptsize, pte_p, pte_ps, Entry, arch_map_region}

abbrev pub pte_w : ℕ
pte_w = 2

abbrev pub pte_g : ℕ
pte_g = 256

-- `PG_2M`, `PG_1G` and `PG_ALLOC`; the first two are the level of a table as well.
abbrev pub pg_2m : ℕ
pg_2m = 1

abbrev pub pg_1g : ℕ
pg_1g = 2

abbrev pub pg_alloc : ℕ
pg_alloc = 4

-- `PTADDR(pde)`, which clears the low 12 bits, and `PGOFF(la)`
pub ptaddr : ℕ → ℕ
ptaddr pde = align_down pde pgsize

pub pgoff : ℕ → ℕ
pgoff la = bit_and la 4095

-- `PTX(la)`, `PDX(la)`, `PUX(la)`, `PGX(la)`
pub ptx : ℕ → ℕ
ptx la = bit_and (la / 2 ^ 12) 511

pub pdx : ℕ → ℕ
pdx la = bit_and (la / 2 ^ 21) 511

pub pux : ℕ → ℕ
pux la = bit_and (la / 2 ^ 30) 511

pub pgx : ℕ → ℕ
pgx la = bit_and (la / 2 ^ 39) 511

-- `entry & PTE_P` and `entry & PTE_PS`
pub is_present : ℕ → Bool
is_present e = not (bit_and e pte_p == 0)

pub is_large : ℕ → Bool
is_large e = not (bit_and e pte_ps == 0)

-- The words of the tables; the address that each call of `mm_phy_page_zalloc(1)` returns, by its
-- number, and how many were made (a run makes finitely many calls, and what the sequence holds past
-- those is of no account); the pages given to `mm_phy_page_free`, the last one first.
pub record Tables : Type 0 where
  pub word : ℕ → ℕ → ℕ
  pub page : ℕ → ℕ
  pub taken : ℕ
  pub freed : List ℕ

abbrev pub store_word : (ℕ → ℕ → ℕ) → (table index value : ℕ) → ℕ → ℕ → ℕ
store_word word table index value t i = if t == table && i == index then value else word t i

unfoldable pub store : Tables → (table index value : ℕ) → Tables
store t table index value = record t { word = store_word t.word table index value }

-- The `memset` of the page that `mm_phy_page_zalloc` returns, `t.page t.taken`.
pub zalloc : Tables → Tables
zalloc t = record t {
  word = λ p i. if p == t.page t.taken then 0 else t.word p i;
  taken = t.taken + 1;
}

pub free_page : Tables → ℕ → Tables
free_page t addr = record t { freed = addr ∷ t.freed }

-- `attr` of `expand_page`.
pub expand_attr : ℕ → ℕ
expand_attr pde = pgoff (bit_and (pgoff pde) (2 ^ 64 - 1 - pte_ps))

-- The value that `expand_page` gives the new entry `i`.
pub expanded : (phy attr table_level i : ℕ) → ℕ
expanded phy attr table_level i =
    let pg_size = if table_level == 0 then pgsize else ptsize in
    bit_or (u64 (phy + pg_size * i)) (bit_or (if table_level == 0 then 0 else pte_ps) attr)

pub expand_loop : (left i : ℕ) → Tables → (new_pg phy attr table_level : ℕ) → Tables
expand_loop zero i t new_pg phy attr table_level = t
expand_loop (suc left) i t new_pg phy attr table_level =
    expand_loop left (suc i) (store t new_pg i (expanded phy attr table_level i)) new_pg phy attr
      table_level

-- `expand_page` of the entry `index` of `table`.
pub expand_page : Tables → (table index table_level : ℕ) → Tables
expand_page t table index table_level =
    let pde = t.word table index in
    let new_pg = t.page t.taken in
    let t' = store (zalloc t) table index (bit_or new_pg 3) in
    expand_loop 512 0 t' new_pg (ptaddr pde) (expand_attr pde) table_level

-- `pde[index] = mm_phy_page_zalloc(1) | pde_attr`
pub fill : Tables → (table index : ℕ) → Tables
fill t table index = store (zalloc t) table index (bit_or (t.page t.taken) 3)

-- What `pgdir_walk` returns: the entry, by its table and index, or NULL; what it stores in `*paddr`,
-- if anything; and the tables.
pub record Found : Type 0 where
  pub pte : Option (ℕ × ℕ)
  pub paddr : Option ℕ
  pub tables : Tables

unfoldable pub null_pte : Tables → Found
null_pte t = record { pte = none; paddr = none; tables = t }

entry_at : Tables → (table index : ℕ) → Found
entry_at t table index = record { pte = some (table, index); paddr = none; tables = t }

-- `(pde & ~bit_mask(shift)) | (vaddr & bit_mask(shift))`
pub page_address : (shift pde vaddr : ℕ) → ℕ
page_address shift pde vaddr =
    bit_or (bit_and pde (2 ^ 64 - 2 ^ shift)) (bit_and vaddr (2 ^ shift - 1))

unfoldable pub mapped_at : Tables → (table index shift vaddr : ℕ) → Found
mapped_at t table index shift vaddr = record {
  pte = some (table, index);
  paddr = some (page_address shift (t.word table index) vaddr);
  tables = t;
}

-- The end of `pgdir_walk`, at the page table that the entry `index` of `table` leads to.
pub walk_pt : Tables → (table index vaddr : ℕ) → Found
unfolding mapped_at
walk_pt t table index vaddr = mapped_at t (ptaddr (t.word table index)) (ptx vaddr) 12 vaddr

abbrev pub asks : (flag bits : ℕ) → Bool
asks flag bits = not (bit_and flag bits == 0)

-- The page directory that the entry `index` of `table` leads to.
pub walk_pd : Tables → (table index vaddr flag : ℕ) → Found
unfolding null_pte entry_at mapped_at
walk_pd t table index vaddr flag =
    let pde = ptaddr (t.word table index) in
    let e = t.word pde (pdx vaddr) in
    if not (is_present e)
    then (if not (asks flag pg_alloc)
        then null_pte t
        else if asks flag pg_2m
        then entry_at t pde (pdx vaddr)
        else walk_pt (fill t pde (pdx vaddr)) pde (pdx vaddr) vaddr)
    else if is_large e
    then (if not (asks flag pg_alloc)
        then mapped_at t pde (pdx vaddr) 21 vaddr
        else walk_pt (expand_page t pde (pdx vaddr) 0) pde (pdx vaddr) vaddr)
    else if asks flag pg_2m && asks flag pg_alloc
    then entry_at (free_page t (ptaddr e)) pde (pdx vaddr)
    else walk_pt t pde (pdx vaddr) vaddr

-- The upper directory that the entry `index` of `table` leads to.
pub walk_pu : Tables → (table index vaddr flag : ℕ) → Found
unfolding null_pte entry_at mapped_at
walk_pu t table index vaddr flag =
    let pde = ptaddr (t.word table index) in
    let e = t.word pde (pux vaddr) in
    if not (is_present e)
    then (if not (asks flag pg_alloc)
        then null_pte t
        else if asks flag pg_1g
        then entry_at t pde (pux vaddr)
        else walk_pd (fill t pde (pux vaddr)) pde (pux vaddr) vaddr flag)
    else if is_large e
    then (if not (asks flag pg_alloc)
        then mapped_at t pde (pux vaddr) 30 vaddr
        else walk_pd (expand_page t pde (pux vaddr) 1) pde (pux vaddr) vaddr flag)
    else if asks flag pg_1g && asks flag pg_alloc
    then entry_at (free_page t (ptaddr e)) pde (pux vaddr)
    else walk_pd t pde (pux vaddr) vaddr flag

pub pgdir_walk : Tables → (pgdir vaddr flag : ℕ) → Found
unfolding null_pte
pgdir_walk t pgdir vaddr flag =
    if not (is_present (t.word pgdir (pgx vaddr)))
    then (if not (asks flag pg_alloc)
        then null_pte t
        else walk_pu (fill t pgdir (pgx vaddr)) pgdir (pgx vaddr) vaddr flag)
    else walk_pu t pgdir (pgx vaddr) vaddr flag

-- `check_pgtable`, with `addr` NULL at first.
pub check_pgtable : Tables → (kernel_pgd vaddr : ℕ) → ℕ
check_pgtable t kernel_pgd vaddr = elim ((pgdir_walk t kernel_pgd vaddr 0).paddr) [
  | none ↦ 0
  | some addr ↦ addr
]

-- A round of the loop of `__map_region`: the walk, then `*pte = ...`; a walk that allocates does
-- not return NULL.
pub write_entry : Tables → (pgdir : ℕ) → Entry → Tables
write_entry t pgdir e =
    let found = pgdir_walk t pgdir e.vaddr (pg_alloc + e.level) in
    elim (found.pte) [
      | none ↦ found.tables
      | some (table, index) ↦ store found.tables table index e.value
    ]

pub write_entries : Tables → (pgdir : ℕ) → List Entry → Tables
write_entries t pgdir [] = t
write_entries t pgdir (e ∷ es) = write_entries (write_entry t pgdir e) pgdir es

-- `arch_map_region` on the tables: it writes the entries of the region one after the other.
pub map_tables : (page_1gb : Bool) → Tables → (pgdir vaddr paddr size perm_flag : ℕ) → Tables
map_tables page_1gb t pgdir vaddr paddr size perm_flag =
    write_entries t pgdir (arch_map_region page_1gb vaddr paddr size perm_flag)

abbrev pub kern_base : ℕ
kern_base = 0xFFFF800000000000

abbrev pub kaddr : ℕ → ℕ
kaddr phy = u64 (phy + kern_base)

abbrev pub phy_boot_base : ℕ
phy_boot_base = 0x40000000

-- `arch_map_kernel_page`
pub arch_map_kernel_page : (page_1gb : Bool) → Tables → (kernel_pgd max_phy_addr : ℕ) → Tables
arch_map_kernel_page page_1gb t kernel_pgd max_phy_addr =
    if leb max_phy_addr phy_boot_base
    then t
    else map_tables page_1gb t kernel_pgd (kaddr phy_boot_base) phy_boot_base
        (max_phy_addr - phy_boot_base) (pte_w + pte_g)

-- `arch_kmap`: the tables afterwards and the address.
pub arch_kmap : (page_1gb : Bool) → Tables → (kernel_pgd phy sz : ℕ) → Tables × ℕ
arch_kmap page_1gb t kernel_pgd phy sz =
    let va = kaddr (ptaddr phy) in
    let t' =
      if check_pgtable t kernel_pgd va == ptaddr phy
      then t
      else map_tables page_1gb t kernel_pgd va (ptaddr phy) sz (pte_w + pte_g) in
    (t', u64 (va + pgoff phy))

-- `arch_clear_low_page`
pub arch_clear_low_page : Tables → (kernel_pgd : ℕ) → Tables
arch_clear_low_page t kernel_pgd = store t kernel_pgd 0 0
