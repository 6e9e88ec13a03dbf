-- ===== src/Paging/Walk/Arrival.antt =====
-- `pgdir_walk` with PG_ALLOC for each of the three sizes of pages.
use geek_toy_os.Base.{
  ℕ, zero, suc, ◌+◌, ◌≤◌, none, some, ◌≡◌, refl, arith, Bool-cases, inl, inr, ◌⊎◌,
}
use geek_toy_os.Paging.Walk.{
  Tables, ptaddr, is_present, is_large, walk_pd, walk_pu, pgdir_walk, free_page, entry_at, pg_alloc,
  pg_2m, pg_1g,
}
use geek_toy_os.Paging.Walk.Translate.{part, slot, leads, translate}
use geek_toy_os.Paging.Walk.Keeps.{Owner}
use geek_toy_os.Paging.Walk.Tree.{IsTree}
use geek_toy_os.Paging.Walk.Reach.{IsReached}
use geek_toy_os.Paging.Walk.Outcome.{Outcome, pdx-eq, pux-eq, not_large}
use geek_toy_os.Paging.Walk.Down.{walk_pd_table, walk_pu_down, pgdir_walk_down}

module _ (root va : ℕ) where
  freed-IsReached :
      (own : Owner) (t : Tables) (level k table addr : ℕ)
      → IsReached own t root level k table
      → IsReached own (free_page t addr) root level k table
  unfolding free_page
  freed-IsReached own t level k table addr r = record {
    tree = record {
      edges = r.tree.edges;
      flat = r.tree.flat;
      fresh = r.tree.fresh;
      apart = r.tree.apart;
      frame = r.tree.frame;
    };
    top = r.top;
    owned = r.owned;
    sees = r.sees;
  }

  entry_at-Outcome :
      (own : Owner) (t t' : Tables) (level table : ℕ)
      → t'.word ≡ t.word
      → IsReached own t' root level (part (suc level) va) table
      → Outcome t root va level (entry_at t' table (slot level va))
  unfolding entry_at
  entry_at-Outcome own t t' level table e r = record {
    own = own;
    table = table;
    pte = refl;
    reached = r;
    same = λ a. rw e refl;
  }

  freed-Outcome :
      (own : Owner) (t : Tables) (level table addr : ℕ)
      → IsReached own t root level (part (suc level) va) table
      → Outcome t root va level (entry_at (free_page t addr) table (slot level va))
  unfolding free_page
  freed-Outcome own t level table addr r =
      entry_at-Outcome own t (free_page t addr) level table refl
        (freed-IsReached own t level (part (suc level) va) table addr r)

  -- The page directory, for a page of 2 MiB where there is none yet.
  walk_pd_page :
      (own : Owner) (t : Tables) (table index : ℕ)
      → IsReached own t root 1 (part 2 va) (ptaddr (t.word table index))
      → translate t.word root va ≡ none
      → Outcome t root va 1 (walk_pd t table index va (pg_alloc + pg_2m))
  unfolding walk_pd leads
  walk_pd_page own t table index r unmapped =
      let pde = ptaddr (t.word table index) in
      let e = t.word pde (slot 1 va) in
      rw (pdx-eq va) (elim (Bool-cases (is_present e)) [
        | inr absent ↦ rw absent (entry_at-Outcome own t t 1 pde refl r)
        | inl here ↦ elim (Bool-cases (is_large e)) [
          | inl big ↦
              let down = not_large own t root 0 pde va r unmapped here in
              absurd (cc (rw (here, big) at down))
          | inr table_ ↦ rw (here, table_) (freed-Outcome own t 1 pde (ptaddr e) r)
        ]
      ])

  -- The upper directory, for a page of 1 GiB where there is none yet.
  walk_pu_page :
      (own : Owner) (t : Tables) (table index : ℕ)
      → IsReached own t root 2 (part 3 va) (ptaddr (t.word table index))
      → translate t.word root va ≡ none
      → Outcome t root va 2 (walk_pu t table index va (pg_alloc + pg_1g))
  unfolding walk_pu leads
  walk_pu_page own t table index r unmapped =
      let pde = ptaddr (t.word table index) in
      let e = t.word pde (slot 2 va) in
      rw (pux-eq va) (elim (Bool-cases (is_present e)) [
        | inr absent ↦ rw absent (entry_at-Outcome own t t 2 pde refl r)
        | inl here ↦ elim (Bool-cases (is_large e)) [
          | inl big ↦
              let down = not_large own t root 1 pde va r unmapped here in
              absurd (cc (rw (here, big) at down))
          | inr table_ ↦ rw (here, table_) (freed-Outcome own t 2 pde (ptaddr e) r)
        ]
      ])

  -- Where the address translates to nothing, the walk arrives for a page of each size; for one of
  -- 4 KiB it does in any case.
  pub pgdir_walk-Outcome :
      (level : ℕ) (own : Owner) (t : Tables)
      → level ≤ 2
      → IsTree own t
      → own root ≡ some (3, 0)
      → (level ≡ 0) ⊎ (translate t.word root va ≡ none)
      → Outcome t root va level (pgdir_walk t root va (pg_alloc + level))
  pgdir_walk-Outcome zero own t le tree top h =
      pgdir_walk_down root va 4 0 (translate t.word root va) refl
        (walk_pu_down root va 4 0 (translate t.word root va) refl refl
          (λ o u table index r was. walk_pd_table root va o u table index 4 refl refl r))
        own t tree top refl
  pgdir_walk-Outcome (suc zero) own t le tree top (inl h) = absurd (omega (arith, h))
  pgdir_walk-Outcome (suc zero) own t le tree top (inr h) =
      pgdir_walk_down root va 5 1 none refl (walk_pu_down root va 5 1 none refl refl walk_pd_page)
        own t tree top h
  pgdir_walk-Outcome (suc (suc zero)) own t le tree top (inl h) = absurd (omega (arith, h))
  pgdir_walk-Outcome (suc (suc zero)) own t le tree top (inr h) =
      pgdir_walk_down root va 6 2 none refl walk_pu_page own t tree top h
  pgdir_walk-Outcome (suc (suc (suc level))) own t le tree top h = absurd (omega (arith, le))
