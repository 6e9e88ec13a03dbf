-- ===== src/Paging/Walk/Down.antt =====
-- The steps of `pgdir_walk` with PG_ALLOC from one directory to the next.
use geek_toy_os.Base.{
  ℕ, true, false, Option, some, ◌≡◌, refl, sym, ◌∙◌, arith, Bool-cases, inl, inr,
}
use geek_toy_os.Paging.Walk.{
  Tables, ptaddr, is_present, is_large, fill, expand_page, asks, walk_pd, walk_pu, pgdir_walk,
  pg_alloc, pg_2m, pg_1g,
}
use geek_toy_os.Paging.Walk.Translate.{part, slot, leads, translate, slot-lt}
use geek_toy_os.Paging.Walk.Keeps.{Owner}
use geek_toy_os.Paging.Walk.Tree.{IsTree}
use geek_toy_os.Paging.Walk.Reach.{IsReached, start-IsReached, part_four}
use geek_toy_os.Paging.Walk.Arrive.{fill-Entered, expand-Entered, down-Entered}
use geek_toy_os.Paging.Walk.Outcome.{
  Outcome, pdx-eq, pux-eq, pgx-eq, later, walk_pt-Outcome, entered,
}

module _ (root va : ℕ) where
  -- The page directory, on the way to a page table.
  pub walk_pd_table :
      (own : Owner) (t : Tables) (table index flag : ℕ)
      → asks flag pg_alloc ≡ true
      → asks flag pg_2m ≡ false
      → IsReached own t root 1 (part 2 va) (ptaddr (t.word table index))
      → Outcome t root va 0 (walk_pd t table index va flag)
  unfolding walk_pd leads
  walk_pd_table own t table index flag alloc small r =
      let pde = ptaddr (t.word table index) in
      let e = t.word pde (slot 1 va) in
      let lt = slot-lt 1 va in
      rw (pdx-eq va) (elim (Bool-cases (is_present e)) [
        | inr absent ↦
            rw (absent, alloc, small)
              (let x = fill-Entered own t root 0 (part 2 va) pde r (slot 1 va) lt absent in
                later t (fill t pde (slot 1 va)) root va 0 _ x.same (
                  walk_pt-Outcome x.own _ root pde (slot 1 va) va
                    (entered t (fill t pde (slot 1 va)) root 0 (part 2 va) pde va x refl)))
        | inl here ↦ elim (Bool-cases (is_large e)) [
          | inl big ↦
              rw (here, big, alloc)
                (let x =
                    expand-Entered own t root 0 (part 2 va) pde r (slot 1 va) lt here
                      (rw (here, big) refl) (omega arith) in
                  later t (expand_page t pde (slot 1 va) 0) root va 0 _ x.same (
                    walk_pt-Outcome x.own _ root pde (slot 1 va) va (
                      entered t (expand_page t pde (slot 1 va) 0) root 0 (part 2 va) pde va x
                        refl)))
          | inr table_ ↦
              rw (here, table_, small)
                (let x =
                    down-Entered own t root 0 (part 2 va) pde r (slot 1 va) lt
                      (rw (here, table_) refl) in
                  walk_pt-Outcome x.own t root pde (slot 1 va) va
                    (entered t t root 0 (part 2 va) pde va x refl))
        ]
      ])

  -- The upper directory, on the way down, whatever is to be found from there.
  pub walk_pu_down :
      (flag level : ℕ) (w : Option ℕ)
      → asks flag pg_alloc ≡ true
      → asks flag pg_1g ≡ false
      → ((own : Owner) (t : Tables) (table index : ℕ)
          → IsReached own t root 1 (part 2 va) (ptaddr (t.word table index))
          → translate t.word root va ≡ w
          → Outcome t root va level (walk_pd t table index va flag))
      → (own : Owner) (t : Tables) (table index : ℕ)
      → IsReached own t root 2 (part 3 va) (ptaddr (t.word table index))
      → translate t.word root va ≡ w
      → Outcome t root va level (walk_pu t table index va flag)
  unfolding walk_pu leads
  walk_pu_down flag level w alloc small next own t table index r was =
      let pde = ptaddr (t.word table index) in
      let e = t.word pde (slot 2 va) in
      let lt = slot-lt 2 va in
      rw (pux-eq va) (elim (Bool-cases (is_present e)) [
        | inr absent ↦
            rw (absent, alloc, small)
              (let t' = fill t pde (slot 2 va) in
                let x = fill-Entered own t root 1 (part 3 va) pde r (slot 2 va) lt absent in
                later t t' root va level _ x.same (
                  next x.own t' pde (slot 2 va) (entered t t' root 1 (part 3 va) pde va x refl)
                    (x.same va ∙ was)))
        | inl here ↦ elim (Bool-cases (is_large e)) [
          | inl big ↦
              rw (here, big, alloc)
                (let t' = expand_page t pde (slot 2 va) 1 in
                  let x =
                    expand-Entered own t root 1 (part 3 va) pde r (slot 2 va) lt here
                      (rw (here, big) refl) (omega arith) in
                  later t t' root va level _ x.same (
                    next x.own t' pde (slot 2 va) (entered t t' root 1 (part 3 va) pde va x refl)
                      (x.same va ∙ was)))
          | inr table_ ↦
              rw (here, table_, small)
                (let x =
                    down-Entered own t root 1 (part 3 va) pde r (slot 2 va) lt
                      (rw (here, table_) refl) in
                  next x.own t pde (slot 2 va) (entered t t root 1 (part 3 va) pde va x refl) was)
        ]
      ])

  pub pgdir_walk_down :
      (flag level : ℕ) (w : Option ℕ)
      → asks flag pg_alloc ≡ true
      → ((own : Owner) (t : Tables) (table index : ℕ)
          → IsReached own t root 2 (part 3 va) (ptaddr (t.word table index))
          → translate t.word root va ≡ w
          → Outcome t root va level (walk_pu t table index va flag))
      → (own : Owner) (t : Tables) → IsTree own t
      → own root ≡ some (3, 0)
      → translate t.word root va ≡ w
      → Outcome t root va level (pgdir_walk t root va flag)
  unfolding pgdir_walk leads
  pgdir_walk_down flag level w alloc next own t tree top was =
      let r = start-IsReached own t root tree top in
      let e = t.word root (slot 3 va) in
      let lt = slot-lt 3 va in
      let zero_ = sym (part_four va) in
      rw (pgx-eq va) (elim (Bool-cases (is_present e)) [
        | inr absent ↦
            rw (absent, alloc)
              (let t' = fill t root (slot 3 va) in
                let x = fill-Entered own t root 2 0 root r (slot 3 va) lt absent in
                later t t' root va level _ x.same (
                  next x.own t' root (slot 3 va) (entered t t' root 2 0 root va x zero_)
                    (x.same va ∙ was)))
        | inl here ↦ rw here (
            let x = down-Entered own t root 2 0 root r (slot 3 va) lt (rw here refl) in
            next x.own t root (slot 3 va) (entered t t root 2 0 root va x zero_) was)
      ])
