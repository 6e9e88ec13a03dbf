-- ===== src/Buddy/Take.antt =====
-- `buddy_page_alloc` of src/kernel/mm/buddy.c.
use geek_toy_os.Base.{
  ℕ, zero, suc, ◌+◌, ◌*◌, ◌^◌, ◌≤◌, ◌<◌, true, ◌==◌, sub64, ◌≡◌, refl, arith, ap, List, [], ◌∷◌,
  Bool-cases, inl, inr, length, ◌∙◌, ==_iff,
}
use geek_toy_os.Base.Bits.{zero-and}
use geek_toy_os.Buddy.{
  Zone, max_order, pfn_notfound, erase, del_page_from_free_list, order_loop, Alloc, got,
  split_block, take_block, search_loop, buddy_page_alloc,
}
use geek_toy_os.Buddy.Weight.{weigh-update, free_total}
use geek_toy_os.Buddy.Cover.{holds, covered, pile-update, cover}
use geek_toy_os.Buddy.Expand.{
  IsCounted, HasRoom, expand_buddy_lem, expand_buddy-cover, expand_buddy-nr_free_pages,
}

-- The order computed for a request is 0, whatever the number of pages.
order_loop_zero : (fuel sz : ℕ) → order_loop fuel sz 0 ≡ 0
unfolding order_loop
order_loop_zero zero sz = refl
order_loop_zero (suc fuel) sz = rw (zero-and sz)

-- What an allocation of `nr` pages from the search at `from` on comes to: the first page of the
-- first order whose list is not empty, that page no longer on the lists, and every other page on as
-- many as before; or no page, where all the
-- lists from there on are empty, and the zone as it was.
pub data IsTaken (z : Zone) (nr from : ℕ) : Alloc → Type 0 where
  taken :
      {z' : Zone} {pfn : ℕ} (s : ℕ) (rest : List ℕ)
      → from ≤ s
      → s < max_order
      → ((o : ℕ) → from ≤ o → o < s → z.free_pages o ≡ [])
      → z.free_pages s ≡ pfn ∷ rest
      → IsCounted z'
      → free_total z' + 1 ≡ free_total z
      → ((f : ℕ) → cover z' f + holds 0 f pfn ≡ cover z f)
      → z'.nr_free_pages ≡ sub64 z.nr_free_pages nr
      → IsTaken z nr from (got z' pfn)
  exhausted :
      {pfn : ℕ}
      → pfn ≡ pfn_notfound
      → ((o : ℕ) → from ≤ o → o < max_order → z.free_pages o ≡ [])
      → IsTaken z nr from (got z pfn)

nil_of_count : (xs : List ℕ) → 0 ≡ length xs → xs ≡ []
nil_of_count [] h = refl
nil_of_count (x ∷ xs) h = absurd (omega arith)

module _ (z : Zone) (page s : ℕ) (rest : List ℕ) (front : z.free_pages s ≡ page ∷ rest) where
  erase-front : erase page (z.free_pages s) ≡ rest
  unfolding erase
  erase-front = rw front (ground arith)

  del-IsCounted :
      s < max_order
      → z.count s + 1 < 2 ^ 64
      → IsCounted z
      → IsCounted (del_page_from_free_list z page s)
  unfolding del_page_from_free_list
  del-IsCounted h room c o lt =
      ground (arith, c o, c s, erase-front, ap (λ (l : List ℕ). length l) front)

  del_front-total :
      s < max_order
      → z.count s + 1 < 2 ^ 64
      → 0 < z.count s
      → free_total (del_page_from_free_list z page s) + 2 ^ s ≡ free_total z
  unfolding del_page_from_free_list free_total
  del_front-total h room pos =
      let less : sub64 (z.count s) 1 + 1 ≡ z.count s = omega arith in
      omega (
        arith,
        weigh-update z.count s (sub64 (z.count s) 1) max_order h,
        ap (λ (t : ℕ). t * 2 ^ s) less,
      )

  del_front-cover :
      (f : ℕ)
      → s < max_order
      → cover (del_page_from_free_list z page s) f + holds s f page ≡ cover z f
  unfolding del_page_from_free_list cover covered
  del_front-cover f h = omega (
    arith,
    pile-update z.free_pages f s (erase page (z.free_pages s)) max_order h,
    ap (covered s f) erase-front,
    ap (covered s f) front,
  )

  split_block-cover :
      (f : ℕ) → s < max_order → cover (split_block z 0 s page) f + holds 0 f page ≡ cover z f
  unfolding split_block
  split_block-cover f h = elim (Bool-cases (s == 0)) [
    | inl flat ↦
        let e : s ≡ 0 = (==_iff s 0).0 flat in
        rw flat (omega (arith, del_front-cover f h, ap (λ (o : ℕ). holds o f page) e))
    | inr deep ↦ rw deep (
        omega (
          arith,
          expand_buddy-cover (del_page_from_free_list z page s) page s 0 f (omega arith) h,
          del_front-cover f h,
        ))
  ]

  del-HasRoom : s < max_order → HasRoom z max_order → HasRoom (del_page_from_free_list z page s) s
  unfolding del_page_from_free_list
  del-HasRoom h room o lt = ground (arith, room o)

  split_block_lem :
      s < max_order
      → HasRoom z max_order
      → IsCounted z
      → 0 < z.count s
      → IsCounted (split_block z 0 s page)
        × (free_total (split_block z 0 s page) + 1 ≡ free_total z)
        × ((split_block z 0 s page).nr_free_pages ≡ z.nr_free_pages)
  unfolding split_block
  split_block_lem h room c pos = elim (Bool-cases (s == 0)) [
    | inl flat ↦
        let e : s ≡ 0 = ground arith in
        rw flat (
          del-IsCounted h (room s h) c,
          omega (arith, del_front-total h (room s h) pos, ap (λ (t : ℕ). 2 ^ t) e),
          unfold del_page_from_free_list in refl,
        )
    | inr deep ↦
        let (counted, total) =
          expand_buddy_lem (del_page_from_free_list z page s) page (2 ^ s) s 0 (omega arith) h
            (del-HasRoom h room) (del-IsCounted h (room s h) c) in
        rw deep (
          counted,
          omega (arith, total, del_front-total h (room s h) pos),
          expand_buddy-nr_free_pages (del_page_from_free_list z page s) page (2 ^ s) s 0
              ∙ (unfold del_page_from_free_list in refl),
        )
  ]

module _ (z : Zone) (nr : ℕ) (room : HasRoom z max_order) (c : IsCounted z) where
  take_block-IsTaken :
      (from s : ℕ)
      → from ≤ s
      → s < max_order
      → ((o : ℕ) → from ≤ o → o < s → z.free_pages o ≡ [])
      → 0 < z.count s
      → IsTaken z nr from (take_block z nr 0 s)
  unfolding take_block free_total cover
  take_block-IsTaken from s le h empty pos = go (z.free_pages s) refl
    where
      go : (l : List ℕ) → z.free_pages s ≡ l → IsTaken z nr from (take_block z nr 0 s)
      go [] e = absurd (omega (arith, c s h, ap (λ (l : List ℕ). length l) e))
      go (page ∷ rest) e =
          let (counted, total, same) = split_block_lem z page s rest e h room c pos in
          let z' = split_block z 0 s page in
          rw (e, take_block)
            (taken {z' = record z' { nr_free_pages = sub64 z'.nr_free_pages nr }} s rest le h empty
              e counted total (λ f. split_block-cover z page s rest e f h)
              (ap (λ (t : ℕ). sub64 t nr) same))

  search_loop-IsTaken :
      (left from s : ℕ)
      → s + left ≡ max_order
      → from ≤ s
      → ((o : ℕ) → from ≤ o → o < s → z.free_pages o ≡ [])
      → IsTaken z nr from (search_loop z nr 0 left s)
  unfolding search_loop
  search_loop-IsTaken zero from s e le empty = exhausted refl (λ o p q. empty o p (omega arith))
  search_loop-IsTaken (suc left) from s e le empty = elim (Bool-cases (z.count s == 0)) [
    | inr some_ ↦ rw some_ (take_block-IsTaken from s le (omega arith) empty (ground arith))
    | inl none_ ↦ rw none_ (
        search_loop-IsTaken left from (s + 1) (omega arith) (omega arith) (λ o p q.
          elim (Bool-cases (o == s)) [
            | inl here ↦
                let at : s ≡ o = ground arith in
                rw at at (
                  nil_of_count (z.free_pages s)
                    (omega (arith, c s (omega arith), empty_count none_)))
            | inr before ↦ empty o p (ground arith)
          ]))
  ]
    where
      empty_count : (z.count s == 0) ≡ true → z.count s ≡ 0
      empty_count h = ground arith

-- `buddy_page_alloc` never faults. Whatever number of pages is asked for, it takes the first page
-- of the first list that is not empty, and hands the rest of its block back: that page is in one
-- block fewer on the lists, every other frame in as many as before, and one page fewer is counted,
-- the counters right, while `nr_free_pages` falls by the number asked for; it answers PFN_NOTFOUND,
-- the zone unchanged, exactly when all lists are empty. This holds where the counters are right at
-- the call and none is about to wrap.
pub buddy_page_alloc-IsTaken :
    (z : Zone) (nr : ℕ) → HasRoom z max_order → IsCounted z → IsTaken z nr 0 (buddy_page_alloc z nr)
unfolding buddy_page_alloc
buddy_page_alloc-IsTaken z nr room c = rw (order_loop_zero 64 nr) (
    search_loop-IsTaken z nr room c max_order 0 0 refl (omega arith)
      (λ o p q. absurd (omega arith)))
