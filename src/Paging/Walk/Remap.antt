-- ===== src/Paging/Walk/Remap.antt =====
-- `__map_region` of a page of 2 MiB where there is one already, and `arch_kmap` of an address inside
-- a page.
use geek_toy_os.Base.{
  ℕ, ◌+◌, ◌-◌, ◌%◌, ◌^◌, ◌≤◌, ◌<◌, bit_and, Bool, true, false, none, some, ◌≡◌, refl, sym, ◌∙◌,
  arith, Bool-cases, inl, inr, u64, low_mask, align, ◌==◌,
}
use geek_toy_os.Paging.{Entry, pgsize}
use geek_toy_os.Paging.Walk.{
  Tables, is_present, is_large, ptaddr, pgoff, pgdir_walk, walk_pu, walk_pd, expand_page,
  write_entry, pg_alloc, kaddr, kern_base, arch_kmap, check_pgtable, pte_w, pte_g,
}
use geek_toy_os.Paging.Walk.Translate.{part, slot, leads, translate, slot-lt, ptaddr-eq}
use geek_toy_os.Paging.Walk.Keeps.{Owner}
use geek_toy_os.Paging.Walk.Tree.{IsTree}
use geek_toy_os.Paging.Walk.Reach.{start-IsReached, part_four}
use geek_toy_os.Paging.Walk.Arrive.{expand-Entered, down-Entered}
use geek_toy_os.Paging.Walk.Outcome.{
  Outcome, pgx-eq, pux-eq, pdx-eq, entered, later, walk_pt-Outcome,
}
use geek_toy_os.Paging.Walk.Write.{IsPage, Written, stored-IsTree, stored-inside, stored-outside}
use geek_toy_os.Paging.Walk.Region.{map_tables-IsMapped}

-- The entry of a page of 2 MiB at the address.
pub record IsLargeAt (word : ℕ → ℕ → ℕ) (root va : ℕ) : Type 0 where
  pub upper : is_present (word root (slot 3 va)) ≡ true
  pub middle : leads 2 (word (ptaddr (word root (slot 3 va))) (slot 2 va)) ≡ true
  pub here :
      is_present (word (ptaddr (word (ptaddr (word root (slot 3 va))) (slot 2 va))) (slot 1 va))
      ≡ true
  pub large :
      is_large (word (ptaddr (word (ptaddr (word root (slot 3 va))) (slot 2 va))) (slot 1 va))
      ≡ true

present_of_leads : (e : ℕ) → leads 2 e ≡ true → (is_present e ≡ true) × (is_large e ≡ false)
unfolding leads
present_of_leads e h = (ground arith, ground arith)

module _ (own : Owner) (t : Tables) (root va : ℕ) (tree : IsTree own t)
    (top : own root ≡ some (3, 0)) (l : IsLargeAt t.word root va) where
  walk-small : Outcome t root va 0 (pgdir_walk t root va 5)
  unfolding pgdir_walk walk_pu walk_pd leads
  walk-small =
      let r3 = start-IsReached own t root tree top in
      let p2 = ptaddr (t.word root (slot 3 va)) in
      let p1 = ptaddr (t.word p2 (slot 2 va)) in
      let (here2, down2) = present_of_leads (t.word p2 (slot 2 va)) l.middle in
      let x3 = down-Entered own t root 2 0 root r3 (slot 3 va) (slot-lt 3 va) (rw l.upper refl) in
      let r2 = entered t t root 2 0 root va x3 (sym (part_four va)) in
      let x2 = down-Entered x3.own t root 1 (part 3 va) p2 r2 (slot 2 va) (slot-lt 2 va) l.middle in
      let r1 = entered t t root 1 (part 3 va) p2 va x2 refl in
      let x1 =
        expand-Entered x2.own t root 0 (part 2 va) p1 r1 (slot 1 va) (slot-lt 1 va) l.here
          (rw (l.here, l.large) refl) (omega arith) in
      let t' = expand_page t p1 (slot 1 va) 0 in
      rw (pgx-eq va, l.upper, pux-eq va, here2, down2, pdx-eq va, l.here, l.large)
        (later t t' root va 0 _ x1.same (
          walk_pt-Outcome x1.own t' root p1 (slot 1 va) va
            (entered t t' root 0 (part 2 va) p1 va x1 refl)))

-- Where there is a page of 2 MiB already, the loop of `__map_region` for one of 2 MiB maps the first
-- 4 KiB of it only: they go to the frame written, and all other addresses where they went before.
pub write_entry-small :
    (own : Owner) (t : Tables) (root : ℕ) (e : Entry)
    → IsTree own t
    → own root ≡ some (3, 0)
    → e.level ≡ 1
    → IsPage 1 e.value
    → IsLargeAt t.word root e.vaddr
    → Written t (write_entry t root e) root 0 e.vaddr e.value
unfolding write_entry
write_entry-small own t root e tree top level page l =
    let flag : pg_alloc + e.level ≡ 5 = omega (arith, level) in
    let found = pgdir_walk t root e.vaddr (pg_alloc + e.level) in
    let o : Outcome t root e.vaddr 0 found = rw flag (walk-small own t root e.vaddr tree top l) in
    let c : IsPage 0 e.value = record {
      here = page.here;
      stop = λ m h. absurd (omega (arith, h));
      top = page.top;
      even = refl;
    } in
    rw (o.pte, write_entry)
      (record {
        own = o.own;
        tree = stored-IsTree o.own found.tables root 0 o.table e.vaddr e.value o.reached c;
        top = o.reached.top;
        inside = stored-inside o.own found.tables root 0 o.table e.vaddr e.value o.reached c;
        outside = λ a apart.
            stored-outside o.own found.tables root 0 o.table e.vaddr e.value o.reached c a apart
            ∙ o.same a;
      })

-- `arch_kmap` maps `sz` bytes from the start of the page on, not from the address: where the range
-- reaches into a page more than `sz` alone needs, the address that it returns for the last byte is
-- not mapped afterwards if it was not before. The tables are in order, the range is below 2 ^ 46
-- and was not mapped.
pub arch_kmap-short :
    (page_1gb : Bool) (own : Owner) (t : Tables) (root phy sz : ℕ)
    → IsTree own t
    → own root ≡ some (3, 0)
    → 0 < sz
    → phy + sz < 2 ^ 46
    → align sz pgsize < phy % 4096 + sz
    → ((a : ℕ)
        → kaddr (phy - phy % 4096) ≤ a
        → a < kaddr (phy + sz)
        → translate t.word root a ≡ none)
    → let result = arch_kmap page_1gb t root phy sz in
      translate result.0.word root (result.1 + (sz - 1)) ≡ none
unfolding arch_kmap pgoff
arch_kmap-short page_1gb own t root phy sz tree top pos small longer unmapped =
    let start : ptaddr phy ≡ phy - phy % 4096 = ptaddr-eq phy in
    let off : bit_and phy 4095 ≡ phy % 4096 = low_mask 12 phy in
    let base = phy - phy % 4096 + kern_base in
    let va : kaddr (phy - phy % 4096) ≡ base = omega (arith, small) in
    let last = base + phy % 4096 + (sz - 1) in
    let at : u64 (base + phy % 4096) + (sz - 1) ≡ last = omega (arith, small) in
    let before : translate t.word root last ≡ none =
      unmapped last (omega (arith, small)) (omega (arith, small, pos)) in
    let apart : base - (phy - phy % 4096) ≡ kern_base = omega arith in
    rw (start, off, va, at)
      (elim (Bool-cases (check_pgtable t root base == phy - phy % 4096)) [
        | inl there ↦ rw there before
        | inr absent ↦
            let m =
              map_tables-IsMapped page_1gb own t root base (phy - phy % 4096) sz (pte_w + pte_g)
                tree top pos (omega arith) (rw apart (omega arith)) (omega (arith, small))
                (omega (arith, small, pos)) (omega arith)
                (λ a low lt.
                  unmapped a (omega (arith, low, small)) (omega (arith, lt, longer, small))) in
            rw absent (
              m.outside last (omega (arith, small, pos)) (inr (omega (arith, longer, small, pos)))
              ∙ before)
      ])

-- The address that `arch_kmap` returns is that of the direct mapping.
pub arch_kmap-address :
    (page_1gb : Bool) (t : Tables) (root phy sz : ℕ)
    → (arch_kmap page_1gb t root phy sz).1 ≡ kaddr phy
unfolding arch_kmap pgoff
arch_kmap-address page_1gb t root phy sz =
    let off : bit_and phy 4095 ≡ phy % 4096 = low_mask 12 phy in
    rw (ptaddr-eq phy, off) (omega arith)
