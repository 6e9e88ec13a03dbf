-- ===== src/Paging/Tiling.antt =====
-- `arch_map_region` of src/arch/x86_64/mm.c covers its region without gap or overlap.
use geek_toy_os.Base.{
  ℕ, zero, suc, ◌+◌, ◌-◌, ◌/◌, ◌%◌, ◌^◌, ◌≤◌, ◌<◌, bit_or, Bool, ◌&&◌, ltb, ◌==◌, if◌then◌else◌,
  u64, sub64, align, align_down, ◌≡◌, refl, arith, Bool-cases, inl, inr, List, [], ◌∷◌, ◌++◌,
}
use geek_toy_os.Paging.{
  pgsize, ptsize, ptsize_1g, pte_ps, Entry, level_size, map_loop, map_region, map_perm,
  arch_map_region,
}

-- The entries map the addresses from `lo` up to `hi`, each page aligned to its size and following
-- the one before, to the physical addresses `delta` below, each with the attributes `attr`.
pub data IsTiling (delta attr : ℕ) : (lo hi : ℕ) → List Entry → Type 0 where
  done : {lo hi : ℕ} → lo ≡ hi → IsTiling delta attr lo hi []
  page :
      {lo hi : ℕ} {e : Entry} {es : List Entry}
      → e.level ≤ 2
      → e.vaddr ≡ lo
      → e.paddr + delta ≡ lo
      → lo % level_size e.level ≡ 0
      → e.value ≡ bit_or (bit_or e.paddr attr) (if e.level == 0 then 0 else pte_ps)
      → IsTiling delta attr (lo + level_size e.level) hi es
      → IsTiling delta attr lo hi (e ∷ es)

IsTiling-append :
    (delta attr lo mid hi : ℕ) (es fs : List Entry)
    → IsTiling delta attr lo mid es
    → IsTiling delta attr mid hi fs
    → IsTiling delta attr lo hi (es ++ fs)
IsTiling-append delta attr lo mid hi [] fs (done e) g = rw e g
IsTiling-append delta attr lo mid hi (x ∷ es) fs (page l a b c d t) g =
    page l a b c d (IsTiling-append delta attr (lo + level_size x.level) mid hi es fs t g)

-- The next page ends by the end of the region, and one page less is left.
next_page :
    (addr vaddr_end level fuel : ℕ)
    → addr < vaddr_end
    → addr % level_size level ≡ 0
    → vaddr_end % level_size level ≡ 0
    → (vaddr_end - addr) / level_size level < suc fuel
    → (addr + level_size level ≤ vaddr_end)
      × ((addr + level_size level) % level_size level ≡ 0)
      × ((vaddr_end - (addr + level_size level)) / level_size level < fuel)
next_page addr vaddr_end level fuel below lo hi enough = ground (arith, below, lo, hi, enough)

map_loop-IsTiling :
    (delta attr fuel addr vaddr_end paddr level : ℕ)
    → level ≤ 2
    → paddr + delta ≡ addr
    → addr ≤ vaddr_end
    → vaddr_end < 2 ^ 64
    → addr % level_size level ≡ 0
    → vaddr_end % level_size level ≡ 0
    → (vaddr_end - addr) / level_size level < fuel
    → IsTiling delta attr addr vaddr_end (map_loop fuel addr vaddr_end paddr attr level)
unfolding map_loop
map_loop-IsTiling delta attr zero addr vaddr_end paddr level l at le top lo hi enough =
    absurd (omega (arith, enough))
map_loop-IsTiling delta attr (suc fuel) addr vaddr_end paddr level l at le top lo hi enough =
    elim (Bool-cases (ltb addr vaddr_end)) [
      | inr stop ↦ rw stop (done (ground (arith, stop, le)))
      | inl go ↦
          let (fits, even, left) =
            next_page addr vaddr_end level fuel (ground (arith, go)) lo hi enough in
          let u : u64 (addr + level_size level) ≡ addr + level_size level =
            omega (arith, fits, top) in
          let v : u64 (paddr + level_size level) ≡ paddr + level_size level =
            omega (arith, fits, top, at) in
          let rest =
            map_loop-IsTiling delta attr fuel (addr + level_size level) vaddr_end
              (paddr + level_size level) level l (omega (arith, at)) fits top even hi left in
          rw go (page l refl at lo refl (rw u (rw v rest)))
    ]

map_region-IsTiling :
    (delta attr vaddr paddr size level : ℕ)
    → level ≤ 2
    → paddr + delta ≡ vaddr
    → vaddr + size + 2 ^ 30 ≤ 2 ^ 64
    → vaddr % level_size level ≡ 0
    → (vaddr + size) % level_size level ≡ 0
    → IsTiling delta attr vaddr (vaddr + size) (map_region vaddr paddr size attr level)
unfolding map_region
map_region-IsTiling delta attr vaddr paddr size level l at top lo hi =
    elim (Bool-cases (size == 0)) [
      | inl none_ ↦ rw none_ (done (ground (arith, none_)))
      | inr some_ ↦
          let end_ : align (u64 (vaddr + size)) (level_size level) ≡ vaddr + size =
            ground (arith, top, hi) in
          let start : align_down vaddr (level_size level) ≡ vaddr = omega (arith, lo) in
          let same : sub64 paddr (vaddr - vaddr) ≡ paddr = omega (arith, at, top) in
          rw some_ (
            rw end_ (
              rw start (
                rw same (
                  map_loop-IsTiling delta attr ((vaddr + size - vaddr) / level_size level + 1) vaddr
                    (vaddr + size) paddr level l at (omega arith) (omega (arith, top)) lo hi
                    (omega arith)))))
    ]

-- `arch_map_region` of a region of at least a byte cuts it, with the rest of the first and of the
-- last page of 4 KiB, into pages of 4 KiB, 2 MiB and 1 GiB, without gap or overlap, each aligned
-- to its size and mapped `vaddr - paddr` below with the attributes asked for, whether or not the
-- processor has pages of 1 GiB. The region ends at least 1 GiB below 2 ^ 64, and the physical
-- address has the same offset in its page of 4 KiB and is not above the virtual one.
pub arch_map_region-IsTiling :
    (page_1gb : Bool) (vaddr paddr size perm_flag : ℕ)
    → 0 < size
    → paddr ≤ vaddr
    → (vaddr - paddr) % 4096 ≡ 0
    → vaddr + size + 2 ^ 31 ≤ 2 ^ 64
    → IsTiling
        (vaddr - paddr)
        (map_perm perm_flag)
        (align_down vaddr pgsize)
        (align (vaddr + size) pgsize)
        (arch_map_region page_1gb vaddr paddr size perm_flag)
unfolding arch_map_region
arch_map_region-IsTiling page_1gb vaddr paddr size perm_flag pos below even top =
    let delta = vaddr - paddr in
    let perm = map_perm perm_flag in
    let first = align_down vaddr pgsize in
    let last = align (vaddr + size) pgsize in
    let s1 = align vaddr ptsize in
    let e1 = align_down (vaddr + size) ptsize in
    let flat : u64 (vaddr + size) ≡ vaddr + size = omega (arith, top) in
    let d : sub64 vaddr paddr ≡ delta = omega (arith, below, top) in
    elim (Bool-cases (ltb s1 e1)) [
      | inr small ↦ rw flat (
          rw d (
            rw small (
              piece first last 0 (omega arith) (omega arith) (omega (arith, top))
                (omega (arith, below, even)) (omega arith) (omega arith))))
      | inl large ↦ rw flat (
          rw d (
            rw large (
              IsTiling-append delta perm first e1 last _ _
                (IsTiling-append delta perm first s1 e1 _ _
                  (piece first s1 0 (omega arith) (omega arith) (ground (arith, large, top))
                    (omega (arith, below, even)) (omega arith) (omega arith))
                  (middle (ground (arith, large))))
                (piece e1 last 0 (omega arith) (omega arith) (omega (arith, top))
                  (ground (arith, below, even, large)) (omega arith) (omega arith)))))
    ]
  where
    piece :
        (lo hi level : ℕ)
        → level ≤ 2
        → lo ≤ hi
        → hi + 2 ^ 30 ≤ 2 ^ 64
        → vaddr - paddr ≤ lo
        → lo % level_size level ≡ 0
        → hi % level_size level ≡ 0
        → IsTiling
            (vaddr - paddr)
            (map_perm perm_flag)
            lo
            hi
            (map_region lo (sub64 lo (vaddr - paddr)) (sub64 hi lo) (map_perm perm_flag) level)
    piece lo hi level l le high under low_even high_even =
        let back : sub64 lo (vaddr - paddr) ≡ lo - (vaddr - paddr) =
          omega (arith, le, high, under) in
        let count : sub64 hi lo ≡ hi - lo = omega (arith, le, high) in
        let sum : lo + (hi - lo) ≡ hi = omega (arith, le) in
        rw back (
          rw count (
            rw sum at (
              map_region-IsTiling (vaddr - paddr) (map_perm perm_flag) lo (lo - (vaddr - paddr))
                (hi - lo) level l (omega (arith, under)) (omega (arith, le, high)) low_even
                (rw sum high_even))))

    middle :
        align vaddr ptsize < align_down (vaddr + size) ptsize
        → IsTiling
            (vaddr - paddr)
            (map_perm perm_flag)
            (align vaddr ptsize)
            (align_down (vaddr + size) ptsize)
            (if ltb (align vaddr ptsize_1g) (align_down (vaddr + size) ptsize_1g) && page_1gb
              then map_region
                  (align vaddr ptsize)
                  (sub64 (align vaddr ptsize) (vaddr - paddr))
                  (sub64 (align vaddr ptsize_1g) (align vaddr ptsize))
                  (map_perm perm_flag)
                  1
                ++ map_region
                    (align vaddr ptsize_1g)
                    (sub64 (align vaddr ptsize_1g) (vaddr - paddr))
                    (sub64 (align_down (vaddr + size) ptsize_1g) (align vaddr ptsize_1g))
                    (map_perm perm_flag)
                    2
                ++ map_region
                    (align_down (vaddr + size) ptsize_1g)
                    (sub64 (align_down (vaddr + size) ptsize_1g) (vaddr - paddr))
                    (sub64 (align_down (vaddr + size) ptsize) (align_down (vaddr + size) ptsize_1g))
                    (map_perm perm_flag)
                    1
              else map_region
                  (align vaddr ptsize)
                  (sub64 (align vaddr ptsize) (vaddr - paddr))
                  (sub64 (align_down (vaddr + size) ptsize) (align vaddr ptsize))
                  (map_perm perm_flag)
                  1)
    middle large =
        let s1 = align vaddr ptsize in
        let e1 = align_down (vaddr + size) ptsize in
        let s2 = align vaddr ptsize_1g in
        let e2 = align_down (vaddr + size) ptsize_1g in
        let under : vaddr - paddr ≤ s1 = omega (arith, below) in
        elim (Bool-cases (ltb s2 e2 && page_1gb)) [
          | inr plain ↦ rw plain (
              piece s1 e1 1 (omega arith) (omega (arith, large)) (omega (arith, top)) under
                (omega arith) (omega arith))
          | inl huge ↦
              let order : s2 < e2 = ground (arith, huge) in
              rw huge (
                IsTiling-append (vaddr - paddr) (map_perm perm_flag) s1 e2 e1 _ _
                  (IsTiling-append (vaddr - paddr) (map_perm perm_flag) s1 s2 e2 _ _
                    (piece s1 s2 1 (omega arith) (omega (arith, top)) (omega (arith, order, top))
                      under (omega arith) (omega arith))
                    (piece s2 e2 2 (omega arith) (omega (arith, order)) (omega (arith, top))
                      (omega (arith, below, top)) (omega arith) (omega arith)))
                  (piece e2 e1 1 (omega arith) (omega arith) (omega (arith, top))
                    (omega (arith, below, order, top)) (omega arith) (omega arith)))
        ]
