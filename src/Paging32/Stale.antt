-- ===== src/Paging32/Stale.antt =====
-- What a page that is mapped by the i386 port leaves in the new table around it.
use geek_toy_os.Base.{
  ℕ, ◌+◌, ◌-◌, ◌%◌, ◌^◌, ◌≤◌, ◌<◌, bit_or, true, false, some, ◌≡◌, ◌≢◌, refl, sym, ap, ◌∙◌, arith,
  inl, inr, ◌⊎◌, u32, sub32, leb, min,
}
use geek_toy_os.Paging.Walk.{Tables, Found, is_present, ptaddr, store, page_address, mapped_at}
use geek_toy_os.Paging.Walk.Tree.{new_entry}
use geek_toy_os.Paging.Walk.Grow.{store_word-at, store_word-other}
use geek_toy_os.Paging32.{
  ptx, pdx, link, walk_pt, pgdir_walk, check_pgtable, map_page, pg_alloc, map_loop, arch_map_region,
  align32, phy_boot_base, map_kernel, kmapping_limit,
}

walk_pt-paddr :
    (t : Tables) (pgdir va table : ℕ)
    → ptaddr (t.word pgdir (pdx va)) ≡ table
    → ((walk_pt t pgdir va).pte ≡ some (table, ptx va))
      × ((walk_pt t pgdir va).paddr ≡ some (page_address 12 (t.word table (ptx va)) va))
      × ((walk_pt t pgdir va).tables ≡ t)
unfolding walk_pt mapped_at
walk_pt-paddr t pgdir va table h = rw h (refl, refl, refl)

pgdir_walk-present :
    (t : Tables) (pgdir va flag : ℕ)
    → is_present (t.word pgdir (pdx va)) ≡ true
    → pgdir_walk t pgdir va flag ≡ walk_pt t pgdir va
unfolding pgdir_walk
pgdir_walk-present t pgdir va flag h = rw h refl

pgdir_walk-absent :
    (t : Tables) (pgdir va : ℕ)
    → is_present (t.word pgdir (pdx va)) ≡ false
    → pgdir_walk t pgdir va pg_alloc ≡ walk_pt (link t pgdir (pdx va)) pgdir va
unfolding pgdir_walk
pgdir_walk-absent t pgdir va h = rw h refl

map_page-found :
    (t : Tables) (pgdir va paddr perm table index : ℕ)
    → (pgdir_walk t pgdir va pg_alloc).pte ≡ some (table, index)
    → map_page t pgdir va paddr perm
      ≡ store (pgdir_walk t pgdir va pg_alloc).tables table index (bit_or (bit_or paddr 1) perm)
unfolding map_page
map_page-found t pgdir va paddr perm table index h = rw (h, map_page) refl

stored : (t : Tables) (f i v q j : ℕ) → (q ≢ f) ⊎ (j ≢ i) → (store t f i v).word q j ≡ t.word q j
unfolding store
stored t f i v q j h = store_word-other t.word f i v q j h

module _ (t : Tables) (pgdir va : ℕ) (absent : is_present (t.word pgdir (pdx va)) ≡ false)
    (even : t.page t.taken % 4096 ≡ 0) (apart : t.page t.taken ≢ pgdir) where
  linked :
      (let t' = link t pgdir (pdx va) in
        (t'.word pgdir (pdx va) ≡ t.page t.taken + 3)
        × ((j : ℕ) → t'.word (t.page t.taken) j ≡ t.word (t.page t.taken) j))
  unfolding link store
  linked = (
    store_word-at t.word pgdir (pdx va) (bit_or (t.page t.taken) 3)
        ∙ (new_entry (t.page t.taken) even).0,
    λ j.
        store_word-other t.word pgdir (pdx va) (bit_or (t.page t.taken) 3) (t.page t.taken) j
          (inl apart),
  )

  -- The table of the page that was mapped, afterwards.
  mapped :
      (paddr perm : ℕ)
      → map_page t pgdir va paddr perm
        ≡ store (link t pgdir (pdx va)) (t.page t.taken) (ptx va) (bit_or (bit_or paddr 1) perm)
  mapped paddr perm =
      let t' = link t pgdir (pdx va) in
      let table : ptaddr (t'.word pgdir (pdx va)) ≡ t.page t.taken =
        ap ptaddr linked.0 ∙ (new_entry (t.page t.taken) even).3 in
      let (pte, _, same) = walk_pt-paddr t' pgdir va (t.page t.taken) table in
      let walk = pgdir_walk-absent t pgdir va absent in
      map_page-found t pgdir va paddr perm (t.page t.taken) (ptx va)
        (ap (λ (r : Found). r.pte) walk ∙ pte)
      ∙ ap (λ (u : Tables). store u (t.page t.taken) (ptx va) (bit_or (bit_or paddr 1) perm))
          (ap (λ (r : Found). r.tables) walk ∙ same)

-- Where a page is mapped for which there is no table yet, `check_pgtable` takes every other address
-- of the new table's 4 MiB by whatever word the page of the table held before: the i386 port does
-- not clear it. The page is a frame and not that of the directory.
pub map_page-stale :
    (t : Tables) (pgdir va vb paddr perm : ℕ)
    → is_present (t.word pgdir (pdx va)) ≡ false
    → t.page t.taken % 4096 ≡ 0
    → t.page t.taken ≢ pgdir
    → pdx vb ≡ pdx va
    → ptx vb ≢ ptx va
    → check_pgtable (map_page t pgdir va paddr perm) pgdir vb
      ≡ page_address 12 (t.word (t.page t.taken) (ptx vb)) vb
unfolding check_pgtable
map_page-stale t pgdir va vb paddr perm absent even apart same other =
    let v = bit_or (bit_or paddr 1) perm in
    let f = t.page t.taken in
    let t1 = link t pgdir (pdx va) in
    let (entry, kept) = linked t pgdir va absent even apart in
    let stays : (q j : ℕ)
        → (q ≢ f) ⊎ (j ≢ ptx va)
        → (store t1 f (ptx va) v).word q j ≡ t1.word q j =
      stored t1 f (ptx va) v in
    let entry' : (store t1 f (ptx va) v).word pgdir (pdx vb) ≡ f + 3 =
      rw same (stays pgdir (pdx va) (inl (λ e. apart (sym e))) ∙ entry) in
    let here = rw (sym entry') at (new_entry f even).1 in
    let table = ap ptaddr entry' ∙ (new_entry f even).3 in
    let word = stays f (ptx vb) (inr other) ∙ kept (ptx vb) in
    let (_, paddr_, _) = walk_pt-paddr (store t1 f (ptx va) v) pgdir vb f table in
    let walk = pgdir_walk-present (store t1 f (ptx va) v) pgdir vb 0 here in
    rw (mapped t pgdir va absent even apart paddr perm, walk, check_pgtable)
      (rw (paddr_, check_pgtable) (rw word refl))

-- `arch_map_region` of a region that ends in the last page of the addresses maps nothing: its end
-- wraps to 0.
pub arch_map_region-wraps :
    (t : Tables) (pgdir vaddr paddr size perm : ℕ)
    → 2 ^ 32 - 4096 < vaddr + size
    → vaddr + size ≤ 2 ^ 32
    → arch_map_region t pgdir vaddr paddr size perm ≡ t
unfolding arch_map_region map_loop
arch_map_region-wraps t pgdir vaddr paddr size perm low high =
    let zero_ : align32 (u32 (vaddr + size)) ≡ 0 = omega (arith, low, high) in
    rw zero_ (ground arith)

-- With more than 4 MiB of memory, of the two regions of `arch_map_kernel_page` only the first is
-- mapped, the memory from 4 MiB to its end or to 640 MiB: the second, above KMAPPING_LIMIT, is not,
-- because its end wraps.
pub map_kernel-low :
    (t : Tables) (kernel_pgd max_phy_addr : ℕ)
    → phy_boot_base < max_phy_addr
    → map_kernel t kernel_pgd max_phy_addr
      ≡ arch_map_region t kernel_pgd 0xC0400000 0x400000
          (sub32 (min max_phy_addr 0x28000000) 0x400000)
          258
unfolding map_kernel
map_kernel-low t kernel_pgd max_phy_addr h =
    let past : leb max_phy_addr phy_boot_base ≡ false = ground (arith, h) in
    rw past (
      arch_map_region-wraps _ kernel_pgd kmapping_limit kmapping_limit 0x8000000 258 (omega arith)
        (omega arith))
