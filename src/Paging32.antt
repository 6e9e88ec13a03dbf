-- ===== src/Paging32.antt =====
-- src/arch/i386/mm.c: the two levels of tables of the i386 port, with 1024 words of 32 bits each, in
-- the tables of Paging/Walk. `mm_phy_page_alloc` returns the next page as it is. The windows of
-- `arch_kmap` for high memory are left out.
pub mod Stale
mod Tests
use geek_toy_os.Base.{
  ℕ, zero, suc, ◌+◌, ◌-◌, ◌*◌, ◌/◌, ◌%◌, ◌^◌, min, bit_and, bit_or, Bool, not, leb, ltb, ◌==◌,
  if◌then◌else◌, u32, sub32, Option, none, some, align_down,
}
use geek_toy_os.Paging.Walk.{
  Tables, Found, ptaddr, is_present, store, page_address, null_pte, mapped_at, pte_w, pte_g, asks,
}

abbrev pub pgsize : ℕ
pgsize = 4096

-- `PG_ALLOC` of this port.
abbrev pub pg_alloc : ℕ
pg_alloc = 1

-- `PTX(la)` and `PDX(la)`
pub ptx : ℕ → ℕ
ptx la = bit_and (la / 2 ^ 12) 0x3FF

pub pdx : ℕ → ℕ
pdx la = bit_and (la / 2 ^ 22) 0x3FF

-- `pgdir[pdx] = mm_phy_page_alloc(1) | pde_attr`
pub link : Tables → (pgdir index : ℕ) → Tables
link t pgdir index =
    store (record t { taken = t.taken + 1 }) pgdir index (bit_or (t.page t.taken) 3)

-- The end of `pgdir_walk`.
pub walk_pt : Tables → (pgdir vaddr : ℕ) → Found
walk_pt t pgdir vaddr = mapped_at t (ptaddr (t.word pgdir (pdx vaddr))) (ptx vaddr) 12 vaddr

pub pgdir_walk : Tables → (pgdir vaddr flag : ℕ) → Found
pgdir_walk t pgdir vaddr flag =
    if not (is_present (t.word pgdir (pdx vaddr)))
    then (if not (asks flag pg_alloc)
        then null_pte t
        else walk_pt (link t pgdir (pdx vaddr)) pgdir vaddr)
    else walk_pt t pgdir vaddr

-- `check_pgtable`, without the log output.
pub check_pgtable : Tables → (kernel_pgd vaddr : ℕ) → ℕ
check_pgtable t kernel_pgd vaddr = elim ((pgdir_walk t kernel_pgd vaddr 0).paddr) [
  | none ↦ 0
  | some addr ↦ addr
]

-- A round of the loop of `arch_map_region`.
pub map_page : Tables → (pgdir addr paddr perm : ℕ) → Tables
map_page t pgdir addr paddr perm =
    let found = pgdir_walk t pgdir addr pg_alloc in
    elim (found.pte) [
      | none ↦ found.tables
      | some (table, index) ↦ store found.tables table index (bit_or (bit_or paddr 1) perm)
    ]

pub map_loop : (fuel : ℕ) → Tables → (pgdir addr vaddr_end paddr perm : ℕ) → Tables
map_loop zero t pgdir addr vaddr_end paddr perm = t
map_loop (suc fuel) t pgdir addr vaddr_end paddr perm =
    let rest =
      map_loop fuel (map_page t pgdir addr paddr perm) pgdir (u32 (addr + pgsize)) vaddr_end
        (u32 (paddr + pgsize)) perm in
    if ltb addr vaddr_end then rest else t

-- `align` on 32 bits.
abbrev pub align32 : ℕ → ℕ
align32 x = let y = u32 (x + (pgsize - 1)) in y - y % pgsize

-- `arch_map_region`, with a round for each page.
pub arch_map_region : Tables → (pgdir vaddr paddr size perm : ℕ) → Tables
arch_map_region t pgdir vaddr paddr size perm =
    let vaddr_end = align32 (u32 (vaddr + size)) in
    let vaddr' = align_down vaddr pgsize in
    map_loop ((vaddr_end - vaddr') / pgsize + 1) t pgdir vaddr' vaddr_end
      (sub32 paddr (vaddr - vaddr')) perm

abbrev pub kern_base : ℕ
kern_base = 0xC0000000

abbrev pub kmapping_base : ℕ
kmapping_base = 0xE8000000

abbrev pub kmapping_limit : ℕ
kmapping_limit = 0xF8000000

abbrev pub phy_boot_base : ℕ
phy_boot_base = 0x400000

-- The two regions that `arch_map_kernel_page` maps, before it sets up the windows.
pub map_kernel : Tables → (kernel_pgd max_phy_addr : ℕ) → Tables
map_kernel t kernel_pgd max_phy_addr =
    let limit = min max_phy_addr (kmapping_base - kern_base) in
    let t' =
      arch_map_region t kernel_pgd (u32 (phy_boot_base + kern_base)) phy_boot_base
        (sub32 limit phy_boot_base) (pte_w + pte_g) in
    if leb max_phy_addr phy_boot_base
    then t
    else arch_map_region t' kernel_pgd kmapping_limit kmapping_limit 0x8000000 (pte_w + pte_g)
