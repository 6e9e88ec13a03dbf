-- ===== src/Paging/Walk/Arrive.antt =====
-- `pgdir_walk` with PG_ALLOC arrives at the entry of the address at the level asked for.
use geek_toy_os.Base.{ℕ, suc, ◌+◌, ◌*◌, ◌≤◌, ◌<◌, bit_or, true, false, ◌≡◌, refl, arith}
use geek_toy_os.Paging.Walk.{Tables, ptaddr, is_present, fill, expand_page}
use geek_toy_os.Paging.Walk.Translate.{leads, translate}
use geek_toy_os.Paging.Walk.Keeps.{Owner}
use geek_toy_os.Paging.Walk.Tree.{Kept, new_entry, new_leads}
use geek_toy_os.Paging.Walk.Grow.{fill-Kept, fill-linked}
use geek_toy_os.Paging.Walk.Expand.{expand-Kept, expand-linked}
use geek_toy_os.Paging.Walk.Reach.{IsReached, down-IsReached, grown-IsReached, grown-same}

-- A step down through the entry `i` of `p`.
pub record Entered (t t' : Tables) (root l k p i : ℕ) : Type 0 where
  pub own : Owner
  pub reached : IsReached own t' root l (k * 512 + i) (ptaddr (t'.word p i))
  pub same : (vaddr : ℕ) → translate t'.word root vaddr ≡ translate t.word root vaddr

module _ (own : Owner) (t : Tables) (root l k p : ℕ) (r : IsReached own t root (suc l) k p) (i : ℕ)
    (lt : i < 512) where
  grown-Entered :
      (own' : Owner) (t' : Tables)
      → Kept (suc l) own t own' t'
      → leads (suc l) (t'.word p i) ≡ true
      → Entered t t' root l k p i
  grown-Entered own' t' kept down = record {
    own = own';
    reached =
        down-IsReached own' t' root l k p (grown-IsReached own t root l k p r own' t' kept) i lt
          down;
    same = grown-same own t root l k p r own' t' kept;
  }

  linked-leads : (w : ℕ) → w ≡ bit_or (t.page t.taken) 3 → leads (suc l) w ≡ true
  linked-leads w h =
      let even = r.tree.frame t.taken (omega arith) in
      rw (h, (new_entry (t.page t.taken) even).0) (new_leads (suc l) (t.page t.taken) even)

  ends_absent : is_present (t.word p i) ≡ false → leads (suc l) (t.word p i) ≡ false
  unfolding leads
  ends_absent h = rw h refl

  pub fill-Entered : is_present (t.word p i) ≡ false → Entered t (fill t p i) root l k p i
  fill-Entered absent =
      let ends = ends_absent absent in
      grown-Entered _ (fill t p i) (fill-Kept own t p l k i r.tree r.owned lt ends absent)
        (linked-leads _ (fill-linked own t p l k i r.tree r.owned lt ends))

  pub expand-Entered :
      is_present (t.word p i) ≡ true
      → leads (suc l) (t.word p i) ≡ false
      → l ≤ 1
      → Entered t (expand_page t p i l) root l k p i
  expand-Entered here ends low =
      grown-Entered _ (expand_page t p i l)
        (expand-Kept own t p l k i r.tree r.owned lt ends here low)
        (linked-leads _ (expand-linked own t p l k i r.tree r.owned lt ends here low))

  pub down-Entered : leads (suc l) (t.word p i) ≡ true → Entered t t root l k p i
  down-Entered down = record {
    own = own;
    reached = down-IsReached own t root l k p r i lt down;
    same = λ vaddr. refl;
  }
