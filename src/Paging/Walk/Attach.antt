-- ===== src/Paging/Walk/Attach.antt =====
-- An entry that leads to no table gets a new one: what is common to filling an absent entry and to
-- expanding a large page.
use geek_toy_os.Base.{
  ℕ, suc, ◌+◌, ◌*◌, ◌%◌, ◌^◌, ◌<◌, bit_or, true, false, none, some, ◌≡◌, ◌≢◌, sym, ◌∙◌, arith, inl,
  inr, ◌⊎◌,
}
use geek_toy_os.Paging.{level_size}
use geek_toy_os.Paging.Walk.{Tables, ptaddr, is_present}
use geek_toy_os.Paging.Walk.Translate.{part, slot, leads, translate_at, part-eq, translate_at-leads}
use geek_toy_os.Paging.Walk.Keeps.{Owner, Edges, Alike, translate_at-Alike}
use geek_toy_os.Paging.Walk.Tree.{
  IsTree, Kept, claim, claimed, unclaimed, new_entry, new_leads, pair_parts, same_number,
}

-- What is written when the entry `i` of `p` gets the page `f` as its table.
pub record Attached (own : Owner) (t t' : Tables) (p l k i f : ℕ) : Type 0 where
  pub next : f ≡ t.page t.taken
  pub count : t'.taken ≡ t.taken + 1
  pub pages : t'.page ≡ t.page
  pub linked : t'.word p i ≡ bit_or f 3
  pub others : (q j : ℕ) → q ≢ f → (q ≢ p) ⊎ (j ≢ i) → t'.word q j ≡ t.word q j
  pub leaves : (m j : ℕ) → l ≡ suc m → j < 512 → leads (suc m) (t'.word f j) ≡ false
  pub even :
      (m j : ℕ)
      → l ≡ suc m
      → j < 512
      → is_present (t'.word f j) ≡ true
      → (t'.word f j < 2 ^ 64) × (t'.word f j % level_size (suc m) ≡ t'.word f j % 4096)
  pub same :
      (vaddr : ℕ)
      → part (suc l) vaddr ≡ k * 512 + i
      → translate_at l t'.word f vaddr ≡ translate_at (suc l) t.word p vaddr

module _ (own : Owner) (t t' : Tables) (p l k i f : ℕ) (tree : IsTree own t)
    (at : own p ≡ some (suc l, k)) (bound : i < 512) (ends : leads (suc l) (t.word p i) ≡ false)
    (a : Attached own t t' p l k i f) where
  unowned : own f ≡ none
  unowned = rw a.next (tree.fresh t.taken (omega arith))

  not_fresh : (q m o : ℕ) → own q ≡ some (m, o) → q ≢ f
  not_fresh q m o h e = let g = rw e at h in cc (unowned, g)

  framed : f % 4096 ≡ 0
  framed = rw a.next (tree.frame t.taken (omega arith))

  link : t'.word p i ≡ f + 3
  link = a.linked ∙ (new_entry f framed).0

  stays : (q m o : ℕ) → own q ≡ some (m, o) → claim own f l (k * 512 + i) q ≡ some (m, o)
  stays q m o h = unclaimed own f l (k * 512 + i) q (not_fresh q m o h) ∙ h

  edges_old :
      (q m o j : ℕ)
      → own q ≡ some (suc m, o)
      → j < 512
      → leads (suc m) (t'.word q j) ≡ true
      → (q ≢ p) ⊎ (j ≢ i)
      → claim own f l (k * 512 + i) (ptaddr (t'.word q j)) ≡ some (m, o * 512 + j)
  edges_old q m o j h lt down apart =
      let e = a.others q j (not_fresh q (suc m) o h) apart in
      rw e (stays (ptaddr (t.word q j)) m (o * 512 + j) (tree.edges q m o j h lt (rw e at down)))

  edge_new :
      (q m o j : ℕ)
      → own q ≡ some (suc m, o)
      → q ≡ p
      → j ≡ i
      → claim own f l (k * 512 + i) (ptaddr (t'.word q j)) ≡ some (m, o * 512 + j)
  edge_new q m o j h e g =
      let (x, y) = pair_parts (sym at ∙ rw e at h) in
      let z = (new_entry f framed).3 in
      rw (e, g, link, z) (claimed own f l (k * 512 + i) ∙ ground arith)

  attached-Edges : Edges (claim own f l (k * 512 + i)) t'.word
  attached-Edges q m o j h lt down = elim (same_number q f) [
    | inl new ↦
        let (x, y) = pair_parts (sym (claimed own f l (k * 512 + i)) ∙ rw new at h) in
        let stop = a.leaves m j x lt in let down' = rw new at down in cc (stop, down')
    | inr known ↦
        let h' = sym (unclaimed own f l (k * 512 + i) q known) ∙ h in
        elim (same_number q p) [
          | inr apart ↦ edges_old q m o j h' lt down (inl apart)
          | inl here ↦ elim (same_number j i) [
            | inl there ↦ edge_new q m o j h' here there
            | inr apart ↦ edges_old q m o j h' lt down (inr apart)
          ]
        ]
  ]

  flat_old :
      (q m o j : ℕ)
      → own q ≡ some (suc m, o)
      → j < 512
      → is_present (t'.word q j) ≡ true
      → leads (suc m) (t'.word q j) ≡ false
      → (q ≢ p) ⊎ (j ≢ i)
      → (t'.word q j < 2 ^ 64) × (t'.word q j % level_size (suc m) ≡ t'.word q j % 4096)
  flat_old q m o j h lt here stop apart =
      let e = a.others q j (not_fresh q (suc m) o h) apart in
      let here' = rw e at here in
      let stop' = rw e at stop in rw e (tree.flat q m o j h lt here' stop')

  attached-flat :
      (q m o j : ℕ)
      → claim own f l (k * 512 + i) q ≡ some (suc m, o)
      → j < 512
      → is_present (t'.word q j) ≡ true
      → leads (suc m) (t'.word q j) ≡ false
      → (t'.word q j < 2 ^ 64) × (t'.word q j % level_size (suc m) ≡ t'.word q j % 4096)
  attached-flat q m o j h lt here stop = elim (same_number q f) [
    | inl new ↦
        let (x, y) = pair_parts (sym (claimed own f l (k * 512 + i)) ∙ rw new at h) in
        rw new (a.even m j x lt (rw new at here))
    | inr known ↦
        let h' = sym (unclaimed own f l (k * 512 + i) q known) ∙ h in
        elim (same_number q p) [
          | inr apart ↦ flat_old q m o j h' lt here stop (inl apart)
          | inl on ↦ elim (same_number j i) [
            | inr apart ↦ flat_old q m o j h' lt here stop (inr apart)
            | inl there ↦
                let down = new_leads (suc m) f framed in
                let stop' = rw (on, there, link) at stop in cc (down, stop')
          ]
        ]
  ]

  not_at : (q m o : ℕ) → own q ≡ some (m, o) → suc l < m → q ≢ p
  not_at q m o h lt e = let (x, _) = pair_parts (sym at ∙ rw e at h) in omega (arith, lt, x)

  attached-IsTree : IsTree (claim own f l (k * 512 + i)) t'
  attached-IsTree = record {
    edges = attached-Edges;
    flat = attached-flat;
    fresh = λ n h. rw a.pages (
        unclaimed own f l (k * 512 + i) (t.page n)
          (rw a.next (tree.apart t.taken n (omega arith) (omega (arith, h, a.count))))
        ∙ tree.fresh n (omega (arith, h, a.count)));
    apart = λ m n h lt. rw a.pages (tree.apart m n (omega (arith, h, a.count)) lt);
    frame = λ n h. rw a.pages (tree.frame n (omega (arith, h, a.count)));
  }

  attached-Alike : (vaddr : ℕ) → Alike own t.word t'.word vaddr
  attached-Alike vaddr q m h = elim (same_number q p) [
    | inr apart ↦ inl (a.others q (slot m vaddr) (not_fresh q m (part (suc m) vaddr) h) (inl apart))
    | inl on ↦ elim (same_number (slot m vaddr) i) [
      | inr apart ↦
          inl (a.others q (slot m vaddr) (not_fresh q m (part (suc m) vaddr) h) (inr apart))
      | inl there ↦
          let (x, y) = pair_parts (sym at ∙ rw on at h) in
          let there' = rw (sym x) at there in
          let e : t'.word p (slot (suc l) vaddr) ≡ f + 3 = rw there' link in
          let whole = part-eq (suc l) vaddr in
          let y' = rw (sym x) at y in
          let at_part : part (suc l) vaddr ≡ k * 512 + i = omega (arith, whole, y', there') in
          let down = translate_at-leads l t'.word p vaddr (f + 3) e (new_leads (suc l) f framed) in
          let z = (new_entry f framed).3 in inr (rw (on, sym x, down, z) (a.same vaddr at_part))
    ]
  ]

  pub attached-Kept : Kept (suc l) own t (claim own f l (k * 512 + i)) t'
  attached-Kept = record {
    tree = attached-IsTree;
    old = λ q m o h. stays q m o h;
    above = λ q m o j h lt. a.others q j (not_fresh q m o h) (inl (not_at q m o h lt));
    kept = λ q m vaddr h.
        translate_at-Alike own t.word t'.word vaddr tree.edges (attached-Alike vaddr) m q h;
  }
