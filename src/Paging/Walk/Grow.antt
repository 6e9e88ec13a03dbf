-- ===== src/Paging/Walk/Grow.antt =====
-- `pgdir_walk` gives an absent entry a new table, and `expand_page` cuts a large page.
use geek_toy_os.Base.{
  ℕ, zero, suc, ◌+◌, ◌*◌, ◌<◌, bit_or, false, ◌==◌, if◌then◌else◌, none, some, ◌≡◌, ◌≢◌, refl, sym,
  ◌∙◌, arith, inl, inr, ◌⊎◌,
}
use geek_toy_os.Paging.Walk.{Tables, is_present, store_word, store, zalloc, fill}
use geek_toy_os.Paging.Walk.Translate.{
  part, slot, leads, translate_at, translate_at-zero, translate_at-ends, is_present-eq,
}
use geek_toy_os.Paging.Walk.Keeps.{Owner}
use geek_toy_os.Paging.Walk.Tree.{IsTree, Kept, claim}
use geek_toy_os.Paging.Walk.Attach.{Attached, attached-Kept}

pub store_word-at : (word : ℕ → ℕ → ℕ) (p i v : ℕ) → store_word word p i v p i ≡ v
store_word-at word p i v = ground arith

pub store_word-other :
    (word : ℕ → ℕ → ℕ) (p i v q j : ℕ) → (q ≢ p) ⊎ (j ≢ i) → store_word word p i v q j ≡ word q j
store_word-other word p i v q j (inl h) = ground (arith, h)
store_word-other word p i v q j (inr h) = ground (arith, h)

pub zalloc-word : (t : Tables) (q j : ℕ) → q ≢ t.page t.taken → (zalloc t).word q j ≡ t.word q j
unfolding zalloc
zalloc-word t q j h = ground (arith, h)

zero_entry : (is_present 0 ≡ false) × ((level : ℕ) → leads level 0 ≡ false)
unfolding leads
zero_entry = (is_present-eq 0, λ level. rw (is_present-eq 0) refl)

-- A page of zeros translates nothing.
translate_at-empty :
    (level : ℕ) (word : ℕ → ℕ → ℕ) (p vaddr : ℕ)
    → ((j : ℕ) → word p j ≡ 0)
    → translate_at level word p vaddr ≡ none
translate_at-empty zero word p vaddr h =
    translate_at-zero word p vaddr 0 (h (slot zero vaddr)) ∙ rw zero_entry.0 refl
translate_at-empty (suc level) word p vaddr h =
    translate_at-ends level word p vaddr 0 (h (slot (suc level) vaddr)) (zero_entry.1 (suc level))
    ∙ rw zero_entry.0 refl

pub slot_of_part :
    (level vaddr k i : ℕ) → i < 512 → part level vaddr ≡ k * 512 + i → slot level vaddr ≡ i
unfolding slot
slot_of_part level vaddr k i h e = omega (arith, h, e)

module _ (own : Owner) (t : Tables) (p l k i : ℕ) (tree : IsTree own t)
    (at : own p ≡ some (suc l, k)) (bound : i < 512)
    (ends : leads (suc l) (t.word p i) ≡ false) where
  pub not_new : p ≢ t.page t.taken
  not_new e = let g = rw e at at in let h = tree.fresh t.taken (omega arith) in cc (g, h)

  fill-Attached :
      is_present (t.word p i) ≡ false → Attached own t (fill t p i) p l k i (t.page t.taken)
  unfolding fill store zalloc
  fill-Attached absent =
      let f = t.page t.taken in
      let cleared : (q : ℕ) → ℕ → ℕ = λ q j. if q == f then 0 else t.word q j in
      let empty : (j : ℕ) → store_word cleared p i (bit_or f 3) f j ≡ 0 =
        λ j. ground (arith, not_new) in
      record {
        next = refl;
        count = refl;
        pages = refl;
        linked = store_word-at cleared p i (bit_or f 3);
        others = λ q j known apart.
            store_word-other cleared p i (bit_or f 3) q j apart ∙ zalloc-word t q j known;
        leaves = λ m j x lt. rw (empty j) (zero_entry.1 (suc m));
        even = λ m j x lt here. let h = rw (empty j) at here in cc (h, zero_entry.0);
        same = λ vaddr h.
            translate_at-empty l _ f vaddr empty
            ∙ sym (
                translate_at-ends l t.word p vaddr (t.word p i)
                  (rw (slot_of_part (suc l) vaddr k i bound h) refl) ends
                ∙ rw absent refl);
      }

  pub fill-Kept :
      is_present (t.word p i) ≡ false
      → Kept (suc l) own t (claim own (t.page t.taken) l (k * 512 + i)) (fill t p i)
  fill-Kept absent =
      attached-Kept own t (fill t p i) p l k i (t.page t.taken) tree at bound ends
        (fill-Attached absent)

  pub fill-linked : (fill t p i).word p i ≡ bit_or (t.page t.taken) 3
  unfolding fill store
  fill-linked = store_word-at (zalloc t).word p i (bit_or (t.page t.taken) 3)
