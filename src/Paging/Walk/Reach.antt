-- ===== src/Paging/Walk/Reach.antt =====
-- How `pgdir_walk` gets down to a table: each step leads to the table for the part of the address
-- space that it looks for, and changes no translation.
use geek_toy_os.Base.{ℕ, suc, ◌+◌, ◌*◌, ◌<◌, true, some, ◌≡◌, refl, ◌∙◌, arith}
use geek_toy_os.Paging.Walk.{Tables, ptaddr}
use geek_toy_os.Paging.Walk.Translate.{
  part, slot, leads, translate_at, translate, part-eq, translate_at-leads,
}
use geek_toy_os.Paging.Walk.Keeps.{Owner}
use geek_toy_os.Paging.Walk.Tree.{IsTree, Kept}

-- Whatever the entries at `level` and below become, the translation of the addresses of part `k`
-- goes through `table`.
abbrev pub Sees : Owner → (word : ℕ → ℕ → ℕ) → (root level k table : ℕ) → Type 0
Sees own word root level k table =
    (word' : ℕ → ℕ → ℕ) (vaddr : ℕ)
    → part (suc level) vaddr ≡ k
    → ((q m : ℕ)
        → level < m
        → own q ≡ some (m, part (suc m) vaddr)
        → word' q (slot m vaddr) ≡ word q (slot m vaddr))
    → translate word' root vaddr ≡ translate_at level word' table vaddr

pub record IsReached (own : Owner) (t : Tables) (root level k table : ℕ) : Type 0 where
  pub tree : IsTree own t
  pub top : own root ≡ some (3, 0)
  pub owned : own table ≡ some (level, k)
  pub sees : Sees own t.word root level k table

pub part_four : (vaddr : ℕ) → part 4 vaddr ≡ 0
unfolding part
part_four vaddr = omega arith

part_over :
    (l vaddr k i : ℕ) → i < 512 → part (suc l) vaddr ≡ k * 512 + i → part (suc (suc l)) vaddr ≡ k
unfolding part
part_over l vaddr k i lt h = omega (arith, lt, h)

pub start-IsReached :
    (own : Owner) (t : Tables) (root : ℕ)
    → IsTree own t
    → own root ≡ some (3, 0)
    → IsReached own t root 3 0 root
start-IsReached own t root tree top = record {
  tree = tree;
  top = top;
  owned = top;
  sees = λ word' vaddr h alike. refl;
}

module _ (own : Owner) (t : Tables) (root l k p : ℕ) (r : IsReached own t root (suc l) k p) where
  pub down-IsReached :
      (i : ℕ)
      → i < 512
      → leads (suc l) (t.word p i) ≡ true
      → IsReached own t root l (k * 512 + i) (ptaddr (t.word p i))
  down-IsReached i lt down = record {
    tree = r.tree;
    top = r.top;
    owned = r.tree.edges p l k i r.owned lt down;
    sees = λ word' vaddr h alike.
        let k_over = part_over l vaddr k i lt h in
        let index : slot (suc l) vaddr ≡ i = omega (arith, part-eq (suc l) vaddr, h, k_over) in
        let at : own p ≡ some (suc l, part (suc (suc l)) vaddr) = rw k_over r.owned in
        let same = rw index at (alike p (suc l) (omega arith) at) in
        r.sees word' vaddr k_over (λ q m gt h'. alike q m (omega (arith, gt)) h')
        ∙ translate_at-leads l word' p vaddr (t.word p i) (rw index same) down;
  }

  pub grown-IsReached :
      (own' : Owner) (t' : Tables) → Kept (suc l) own t own' t' → IsReached own' t' root (suc l) k p
  grown-IsReached own' t' kept = record {
    tree = kept.tree;
    top = kept.old root 3 0 r.top;
    owned = kept.old p (suc l) k r.owned;
    sees = λ word' vaddr h alike. r.sees word' vaddr h (λ q m gt at.
        alike q m gt (kept.old q m (part (suc m) vaddr) at)
        ∙ kept.above q m (part (suc m) vaddr) (slot m vaddr) at gt);
  }

  pub grown-same :
      (own' : Owner) (t' : Tables)
      → Kept (suc l) own t own' t'
      → (vaddr : ℕ) → translate t'.word root vaddr ≡ translate t.word root vaddr
  grown-same own' t' kept vaddr = kept.kept root 3 vaddr (rw (part_four vaddr) r.top)
