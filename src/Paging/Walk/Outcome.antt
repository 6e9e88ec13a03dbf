-- ===== src/Paging/Walk/Outcome.antt =====
-- What `pgdir_walk` with PG_ALLOC ends with, for each of the three sizes of pages.
use geek_toy_os.Base.{
  ℕ, suc, ◌+◌, ◌*◌, ◌/◌, ◌^◌, true, none, some, ◌≡◌, refl, ◌∙◌, arith, Bool-cases, inl, inr,
  low_mask,
}
use geek_toy_os.Paging.Walk.{Tables, Found, ptaddr, is_present, ptx, pdx, pux, pgx, walk_pt}
use geek_toy_os.Paging.Walk.Translate.{part, slot, leads, translate, translate_at-ends, part-eq}
use geek_toy_os.Paging.Walk.Keeps.{Owner}
use geek_toy_os.Paging.Walk.Reach.{IsReached}
use geek_toy_os.Paging.Walk.Arrive.{Entered}

pub ptx-eq : (va : ℕ) → ptx va ≡ slot 0 va
unfolding ptx slot part
ptx-eq va = low_mask 9 (va / 2 ^ 12) ∙ omega arith

pub pdx-eq : (va : ℕ) → pdx va ≡ slot 1 va
unfolding pdx slot part
pdx-eq va = low_mask 9 (va / 2 ^ 21) ∙ omega arith

pub pux-eq : (va : ℕ) → pux va ≡ slot 2 va
unfolding pux slot part
pux-eq va = low_mask 9 (va / 2 ^ 30) ∙ omega arith

pub pgx-eq : (va : ℕ) → pgx va ≡ slot 3 va
unfolding pgx slot part
pgx-eq va = low_mask 9 (va / 2 ^ 39) ∙ omega arith

-- The entry found is that of the address at the level, in the table that the translation goes
-- through, and no address has another translation than before.
pub record Outcome (t : Tables) (root vaddr level : ℕ) (found : Found) : Type 0 where
  pub own : Owner
  pub table : ℕ
  pub pte : found.pte ≡ some (table, slot level vaddr)
  pub reached : IsReached own found.tables root level (part (suc level) vaddr) table
  pub same : (a : ℕ) → translate found.tables.word root a ≡ translate t.word root a

pub later :
    (t t' : Tables) (root va level : ℕ) (found : Found)
    → ((a : ℕ) → translate t'.word root a ≡ translate t.word root a)
    → Outcome t' root va level found
    → Outcome t root va level found
later t t' root va level found same o = record {
  own = o.own;
  table = o.table;
  pte = o.pte;
  reached = o.reached;
  same = λ a. o.same a ∙ same a;
}

pub walk_pt-Outcome :
    (own : Owner) (t : Tables) (root table index va : ℕ)
    → IsReached own t root 0 (part 1 va) (ptaddr (t.word table index))
    → Outcome t root va 0 (walk_pt t table index va)
unfolding walk_pt
walk_pt-Outcome own t root table index va r = record {
  own = own;
  table = ptaddr (t.word table index);
  pte = rw (ptx-eq va) refl;
  reached = r;
  same = λ a. refl;
}

-- Neither is the entry of the address in the table present with a large page, if it translates to
-- nothing.
pub not_large :
    (own : Owner) (t : Tables) (root level table va : ℕ)
    → IsReached own t root (suc level) (part (suc (suc level)) va) table
    → translate t.word root va ≡ none
    → is_present (t.word table (slot (suc level) va)) ≡ true
    → leads (suc level) (t.word table (slot (suc level) va)) ≡ true
not_large own t root level table va r unmapped here =
    elim (Bool-cases (leads (suc level) (t.word table (slot (suc level) va)))) [
      | inl down ↦ down
      | inr stop ↦
          let way = r.sees t.word va refl (λ q m lt h. refl) in
          let last =
            translate_at-ends level t.word table va (t.word table (slot (suc level) va)) refl
              stop in
          let last' = rw here at last in cc (unmapped, way, last')
    ]

-- From the level above to the entry of the address.
pub entered :
    (t t' : Tables) (root level k p va : ℕ)
    → (e : Entered t t' root level k p (slot (suc level) va)) → k ≡ part (suc (suc level)) va
    → IsReached e.own t' root level (part (suc level) va) (ptaddr (t'.word p (slot (suc level) va)))
entered t t' root level k p va e h =
    let whole : k * 512 + slot (suc level) va ≡ part (suc level) va =
      omega (arith, part-eq (suc level) va, h) in
    rw whole at e.reached
