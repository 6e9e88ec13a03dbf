-- ===== src/Paging.antt =====
-- src/arch/x86_64/mm.c: how a region is cut into pages of three sizes and which entries are
-- written. Here an entry is named by its address and its level; Walk has the tables in memory and
-- `pgdir_walk`, which finds the place of an entry in them.
pub mod Tiling
pub mod Walk
mod Tests
use geek_toy_os.Base.{
  ℕ, zero, suc, ◌+◌, ◌-◌, ◌*◌, ◌/◌, ◌%◌, ◌^◌, bit_and, bit_or, Bool, true, false, not, ◌&&◌, ltb,
  leb, ◌==◌, if◌then◌else◌, u64, sub64, align, align_down, List, [], ◌∷◌, ◌++◌,
}

abbrev pub pgsize : ℕ
pgsize = 4096

abbrev pub ptsize : ℕ
ptsize = 4096 * 512

abbrev pub ptsize_1g : ℕ
ptsize_1g = 4096 * 512 * 512

abbrev pub pte_p : ℕ
pte_p = 1

abbrev pub pte_ps : ℕ
pte_ps = 128

abbrev pub pg_attr_mask : ℕ
pg_attr_mask = 4095

abbrev pub pg_clear : ℕ
pg_clear = 4096

-- `*pte = paddr | attr | ...` for the entry of `vaddr` at a level of the tables.
pub record Entry : Type 0 where
  pub vaddr : ℕ
  pub paddr : ℕ
  pub level : ℕ
  pub value : ℕ

abbrev pub level_size : ℕ → ℕ
level_size level = if level == 1 then ptsize else if level == 2 then ptsize_1g else pgsize

-- The loop of `__map_region`, from `addr` up to `vaddr_end`: a page at least each round.
pub map_loop : (fuel addr vaddr_end paddr attr level : ℕ) → List Entry
map_loop zero addr vaddr_end paddr attr level = []
map_loop (suc fuel) addr vaddr_end paddr attr level =
    let size = level_size level in
    let ps = if level == 0 then 0 else pte_ps in
    let rest = map_loop fuel (u64 (addr + size)) vaddr_end (u64 (paddr + size)) attr level in
    if ltb addr vaddr_end
    then record {
      vaddr = addr;
      paddr = paddr;
      level = level;
      value = bit_or (bit_or paddr attr) ps;
    }
      ∷ rest
    else []

-- `__map_region`
pub map_region : (vaddr paddr size attr level : ℕ) → List Entry
map_region vaddr paddr size attr level =
    let pg_size = level_size level in
    let vaddr_end = align (u64 (vaddr + size)) pg_size in
    let vaddr' = align_down vaddr pg_size in
    if size == 0
    then []
    else map_loop ((vaddr_end - vaddr') / pg_size + 1) vaddr' vaddr_end
        (sub64 paddr (vaddr - vaddr')) attr level

-- `perm` of `arch_map_region`.
pub map_perm : (perm_flag : ℕ) → ℕ
map_perm perm_flag =
    let perm = bit_and perm_flag pg_attr_mask in
    if bit_and perm_flag pg_clear == 0 then bit_or perm pte_p else perm

-- `arch_map_region`; `page_1gb` is `check_cpu_feature(FEAT_X86_Page1GB)`.
pub arch_map_region : (page_1gb : Bool) → (vaddr paddr size perm_flag : ℕ) → List Entry
arch_map_region page_1gb vaddr paddr size perm_flag =
    let delta = sub64 vaddr paddr in
    let va_s1 = align vaddr ptsize in
    let va_e1 = align_down (u64 (vaddr + size)) ptsize in
    let va_s2 = align vaddr ptsize_1g in
    let va_e2 = align_down (u64 (vaddr + size)) ptsize_1g in
    let va_end = align (u64 (vaddr + size)) pgsize in
    let vaddr' = align_down vaddr pgsize in
    let perm = map_perm perm_flag in
    if ltb va_s1 va_e1
    then map_region vaddr' (sub64 vaddr' delta) (sub64 va_s1 vaddr') perm 0
      ++ (if ltb va_s2 va_e2 && page_1gb
          then map_region va_s1 (sub64 va_s1 delta) (sub64 va_s2 va_s1) perm 1
            ++ map_region va_s2 (sub64 va_s2 delta) (sub64 va_e2 va_s2) perm 2
            ++ map_region va_e2 (sub64 va_e2 delta) (sub64 va_e1 va_e2) perm 1
          else map_region va_s1 (sub64 va_s1 delta) (sub64 va_e1 va_s1) perm 1)
      ++ map_region va_e1 (sub64 va_e1 delta) (sub64 va_end va_e1) perm 0
    else map_region vaddr' (sub64 vaddr' delta) (sub64 va_end vaddr') perm 0
