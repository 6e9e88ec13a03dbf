-- ===== src/Paging/Walk/Write.antt =====
-- A round of the loop of `__map_region`: the entry that the walk finds is written.
use geek_toy_os.Base.{
  ℕ, zero, suc, ◌+◌, ◌%◌, ◌^◌, ◌≤◌, ◌<◌, true, false, none, some, ◌≡◌, ◌≢◌, refl, sym, ◌∙◌, arith,
  inl, inr, ◌⊎◌,
}
use geek_toy_os.Paging.{level_size, Entry}
use geek_toy_os.Paging.Walk.{Tables, is_present, store, pgdir_walk, pg_alloc, write_entry}
use geek_toy_os.Paging.Walk.Translate.{
  part, slot, leads, in_page, translate, translate_at, translate_at-zero, translate_at-ends,
  part-eq, part_above, slot_same,
}
use geek_toy_os.Paging.Walk.Keeps.{Owner, Edges, Alike, translate_at-Alike}
use geek_toy_os.Paging.Walk.Tree.{IsTree, same_number, pair_parts}
use geek_toy_os.Paging.Walk.Grow.{store_word-at, store_word-other}
use geek_toy_os.Paging.Walk.Reach.{IsReached, part_four}
use geek_toy_os.Paging.Walk.Arrival.{pgdir_walk-Outcome}

-- The word of a page of the level: present, and above level 0 large and aligned.
pub record IsPage (level v : ℕ) : Type 0 where
  pub here : is_present v ≡ true
  pub stop : (l : ℕ) → level ≡ suc l → leads (suc l) v ≡ false
  pub top : v < 2 ^ 64
  pub even : v % level_size level ≡ v % 4096

page-translate :
    (level v : ℕ) (word : ℕ → ℕ → ℕ) (table a : ℕ)
    → IsPage level v
    → word table (slot level a) ≡ v
    → translate_at level word table a ≡ some (in_page level v a)
page-translate zero v word table a c h = translate_at-zero word table a v h ∙ rw c.here refl
page-translate (suc level) v word table a c h =
    translate_at-ends level word table a v h (c.stop level refl) ∙ rw c.here refl

module _ (own : Owner) (t : Tables) (root level table va v : ℕ)
    (r : IsReached own t root level (part (suc level) va) table) (c : IsPage level v) where
  stored_other :
      (q j : ℕ)
      → (q ≢ table) ⊎ (j ≢ slot level va)
      → (store t table (slot level va) v).word q j ≡ t.word q j
  unfolding store
  stored_other q j h = store_word-other t.word table (slot level va) v q j h

  stored_at : (store t table (slot level va) v).word table (slot level va) ≡ v
  unfolding store
  stored_at = store_word-at t.word table (slot level va) v

  stored-Edges : Edges own (store t table (slot level va) v).word
  stored-Edges q l k j at lt down = elim (same_number q table) [
    | inr apart ↦
        let e = stored_other q j (inl apart) in
        let down' = rw e at down in rw e (r.tree.edges q l k j at lt down')
    | inl on ↦ elim (same_number j (slot level va)) [
      | inr apart ↦
          let e = stored_other q j (inr apart) in
          let down' = rw e at down in rw e (r.tree.edges q l k j at lt down')
      | inl there ↦
          let (x, y) = pair_parts (sym r.owned ∙ rw on at at) in
          let down' = rw (on, there, stored_at) at down in let stop = c.stop l x in cc (down', stop)
    ]
  ]

  stored-flat :
      (q l k j : ℕ)
      → own q ≡ some (suc l, k)
      → j < 512
      → is_present ((store t table (slot level va) v).word q j) ≡ true
      → leads (suc l) ((store t table (slot level va) v).word q j) ≡ false
      → ((store t table (slot level va) v).word q j < 2 ^ 64)
        × ((store t table (slot level va) v).word q j % level_size (suc l)
            ≡ (store t table (slot level va) v).word q j % 4096)
  stored-flat q l k j at lt here stop = elim (same_number q table) [
    | inr apart ↦
        let e = stored_other q j (inl apart) in
        let here' = rw e at here in
        let stop' = rw e at stop in rw e (r.tree.flat q l k j at lt here' stop')
    | inl on ↦ elim (same_number j (slot level va)) [
      | inr apart ↦
          let e = stored_other q j (inr apart) in
          let here' = rw e at here in
          let stop' = rw e at stop in rw e (r.tree.flat q l k j at lt here' stop')
      | inl there ↦
          let (x, y) = pair_parts (sym r.owned ∙ rw on at at) in
          rw (on, there, stored_at) (c.top, rw x at c.even)
    ]
  ]

  pub stored-IsTree : IsTree own (store t table (slot level va) v)
  unfolding store
  stored-IsTree = record {
    edges = stored-Edges;
    flat = stored-flat;
    fresh = r.tree.fresh;
    apart = r.tree.apart;
    frame = r.tree.frame;
  }

  pub stored-inside :
      (a : ℕ)
      → part level a ≡ part level va
      → translate (store t table (slot level va) v).word root a ≡ some (in_page level v a)
  stored-inside a same =
      r.sees (store t table (slot level va) v).word a (part_above level a va same) (λ q m lt at.
        stored_other q (slot m a)
          (inl (λ e. let (x, y) = pair_parts (sym r.owned ∙ rw e at at) in omega (arith, lt, x))))
      ∙ page-translate level v _ table a c (rw (slot_same level a va same) stored_at)

  stored-Alike :
      (a : ℕ)
      → part level a ≢ part level va
      → Alike own t.word (store t table (slot level va) v).word a
  stored-Alike a apart_ q m at = elim (same_number q table) [
    | inr apart ↦ inl (stored_other q (slot m a) (inl apart))
    | inl on ↦ elim (same_number (slot m a) (slot level va)) [
      | inr apart ↦ inl (stored_other q (slot m a) (inr apart))
      | inl there ↦
          let (x, y) = pair_parts (sym r.owned ∙ rw on at at) in
          let there' = rw (sym x) at there in
          let y' = rw (sym x) at y in
          absurd (apart_ (omega (arith, part-eq level a, part-eq level va, there', y')))
    ]
  ]

  pub stored-outside :
      (a : ℕ)
      → part level a ≢ part level va
      → translate (store t table (slot level va) v).word root a ≡ translate t.word root a
  stored-outside a apart =
      translate_at-Alike own t.word _ a r.tree.edges (stored-Alike a apart) 3 root
        (rw (part_four a) r.top)

-- The tables with one more page mapped.
pub record Written (t t' : Tables) (root level va v : ℕ) : Type 0 where
  pub own : Owner
  pub tree : IsTree own t'
  pub top : own root ≡ some (3, 0)
  pub inside :
      (a : ℕ) → part level a ≡ part level va → translate t'.word root a ≡ some (in_page level v a)
  pub outside :
      (a : ℕ) → part level a ≢ part level va → translate t'.word root a ≡ translate t.word root a

-- `pgdir_walk` and the store after it map the page of the address and no other, for a page of 4 KiB
-- whatever was there, and for a large one where the address was not mapped.
pub write_entry-Written :
    (own : Owner) (t : Tables) (root : ℕ) (e : Entry)
    → e.level ≤ 2
    → IsTree own t
    → own root ≡ some (3, 0)
    → (e.level ≡ 0) ⊎ (translate t.word root e.vaddr ≡ none)
    → IsPage e.level e.value
    → Written t (write_entry t root e) root e.level e.vaddr e.value
unfolding write_entry
write_entry-Written own t root e le tree top free c =
    let o = pgdir_walk-Outcome root e.vaddr e.level own t le tree top free in
    let found = pgdir_walk t root e.vaddr (pg_alloc + e.level) in
    rw (o.pte, write_entry)
      (record {
        own = o.own;
        tree = stored-IsTree o.own found.tables root e.level o.table e.vaddr e.value o.reached c;
        top = o.reached.top;
        inside = stored-inside o.own found.tables root e.level o.table e.vaddr e.value o.reached c;
        outside = λ a apart.
            stored-outside o.own found.tables root e.level o.table e.vaddr e.value o.reached c a
              apart
            ∙ o.same a;
      })
