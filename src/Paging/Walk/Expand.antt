-- ===== src/Paging/Walk/Expand.antt =====
-- `expand_page` cuts a large page into the 512 pages of the level below, which map the same.
use geek_toy_os.Base.{
  ℕ, zero, suc, ◌+◌, ◌*◌, ◌≤◌, ◌<◌, bit_or, true, false, some, ◌≡◌, ◌≢◌, refl, sym, ap, ◌∙◌, arith,
  inl, inr, ◌⊎◌,
}
use geek_toy_os.Paging.Walk.{
  Tables, ptaddr, is_present, store, zalloc, expand_attr, expanded, expand_loop, expand_page,
}
use geek_toy_os.Paging.Walk.Translate.{slot, leads, translate_at-ends, slot-lt}
use geek_toy_os.Paging.Walk.Keeps.{Owner}
use geek_toy_os.Paging.Walk.Tree.{IsTree, Kept, claim, same_number}
use geek_toy_os.Paging.Walk.Attach.{Attached, attached-Kept}
use geek_toy_os.Paging.Walk.Grow.{
  store_word-at, store_word-other, zalloc-word, slot_of_part, not_new,
}
use geek_toy_os.Paging.Walk.Cut.{cut, CutFrom, cut-translate, cut-CutFrom}

-- The loop writes the entries from `i` on and changes nothing else.
expand_loop_lem :
    (left i : ℕ) (t : Tables) (f phy attr level : ℕ)
    → ((expand_loop left i t f phy attr level).page ≡ t.page)
      × ((expand_loop left i t f phy attr level).taken ≡ t.taken)
      × ((q j : ℕ)
          → (q ≢ f) ⊎ (j < i)
          → (expand_loop left i t f phy attr level).word q j ≡ t.word q j)
      × ((j : ℕ)
          → i ≤ j
          → j < i + left
          → (expand_loop left i t f phy attr level).word f j ≡ expanded phy attr level j)
unfolding expand_loop store
expand_loop_lem zero i t f phy attr level =
    (refl, refl, λ q j h. refl, λ j h lt. absurd (omega (arith, h, lt)))
expand_loop_lem (suc left) i t f phy attr level =
    let v = expanded phy attr level i in
    let (pages, count, others, filled) =
      expand_loop_lem left (suc i) (store t f i v) f phy attr level in
    (
      pages,
      count,
      λ q j h. elim h [
        | inl apart ↦ others q j (inl apart) ∙ store_word-other t.word f i v q j (inl apart)
        | inr lt ↦
            others q j (inr (omega (arith, lt)))
            ∙ store_word-other t.word f i v q j (inr (λ e. omega (arith, lt, e)))
      ],
      λ j le lt. elim (same_number j i) [
        | inl e ↦ rw e (others f i (inr (omega arith)) ∙ store_word-at t.word f i v)
        | inr ne ↦ filled j (ground (arith, le, ne)) (omega (arith, lt))
      ],
    )

module _ (own : Owner) (t : Tables) (p l k i : ℕ) (tree : IsTree own t)
    (at : own p ≡ some (suc l, k)) (bound : i < 512) (ends : leads (suc l) (t.word p i) ≡ false)
    (here : is_present (t.word p i) ≡ true) (low : l ≤ 1) where
  expand_word :
      (let t' = expand_page t p i l in
        let f = t.page t.taken in
        (t'.page ≡ t.page)
        × (t'.taken ≡ t.taken + 1)
        × (t'.word p i ≡ bit_or f 3)
        × ((q j : ℕ) → q ≢ f → (q ≢ p) ⊎ (j ≢ i) → t'.word q j ≡ t.word q j)
        × ((j : ℕ) → j < 512 → t'.word f j ≡ cut l (t.word p i) j))
  unfolding expand_page store zalloc
  expand_word =
      let f = t.page t.taken in
      let e = t.word p i in
      let linked = store (zalloc t) p i (bit_or f 3) in
      let (pages, count, others, filled) =
        expand_loop_lem 512 0 linked f (ptaddr e) (expand_attr e) l in
      (
        pages,
        count,
        others p i (inl (not_new own t p l k i tree at bound ends))
            ∙ store_word-at (zalloc t).word p i (bit_or f 3),
        λ q j known apart.
            others q j (inl known)
            ∙ store_word-other (zalloc t).word p i (bit_or f 3) q j apart
            ∙ zalloc-word t q j known,
        λ j lt. filled j (omega arith) (omega (arith, lt)),
      )

  expand-Attached : Attached own t (expand_page t p i l) p l k i (t.page t.taken)
  expand-Attached =
      let f = t.page t.taken in
      let e = t.word p i in
      let (pages, count, linked, others, filled) = expand_word in
      let (top, even) = tree.flat p l k i at bound here ends in
      let cuts : (j : ℕ) → j < 512 → CutFrom l e j (cut l e j) =
        λ j lt. cut-CutFrom l e j low top even here lt in
      record {
        next = refl;
        count = count;
        pages = pages;
        linked = linked;
        others = others;
        leaves = λ m j x lt.
            let one : l ≡ 1 = omega (arith, x, low) in
            let m0 : m ≡ 0 = omega (arith, x, low) in rw (filled j lt, m0) ((cuts j lt).stop one);
        even = λ m j x lt on.
            let one : l ≡ 1 = omega (arith, x, low) in
            let m0 : m ≡ 0 = omega (arith, x, low) in
            rw (filled j lt, m0) ((cuts j lt).top, (cuts j lt).even one);
        same = λ vaddr h.
            let high = slot_of_part (suc l) vaddr k i bound h in
            let lt = slot-lt l vaddr in
            let c = cuts (slot l vaddr) lt in
            cut-translate l e (slot l vaddr) _ _ f vaddr low c (filled (slot l vaddr) lt)
            ∙ ap some (c.same vaddr refl)
            ∙ sym (translate_at-ends l t.word p vaddr e (rw high refl) ends ∙ rw here refl);
      }

  pub expand-Kept :
      Kept (suc l) own t (claim own (t.page t.taken) l (k * 512 + i)) (expand_page t p i l)
  expand-Kept =
      attached-Kept own t (expand_page t p i l) p l k i (t.page t.taken) tree at bound ends
        expand-Attached

  pub expand-linked : (expand_page t p i l).word p i ≡ bit_or (t.page t.taken) 3
  expand-linked = expand_word.2
