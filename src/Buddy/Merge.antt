-- ===== src/Buddy/Merge.antt =====
-- `__buddy_page_free` of src/kernel/mm/buddy.c joins a freed block with its free buddies.
use geek_toy_os.Base.{
  ℕ, zero, suc, ◌+◌, ◌-◌, ◌*◌, ◌%◌, ◌^◌, ◌≤◌, ◌<◌, bit_and, bit_or, true, update, u64, sub64, ◌≡◌,
  arith, ap, List, [], ◌∷◌, ◌++◌, Bool-cases, inl, inr, ◌⊎◌, length, length-append,
}
use native.Mathlib.Nat.{pow-suc}
use geek_toy_os.Base.Bits.{bit_and-one, bit_or-one}
use native.Mathlib.Numerals.{add-one}
use geek_toy_os.Buddy.{
  Zone, max_order, erase, find_buddy_pfn, page_is_buddy, del_page_from_free_list,
  add_page_to_free_list, set_buddy_order, done_merging, merge_loop, free_block,
}
use geek_toy_os.Buddy.Weight.{weigh-update, free_total}
use geek_toy_os.Buddy.Cover.{holds, covered-append, covered-erase, pile-update, cover, on_list}
use geek_toy_os.Buddy.Pair.{pair_head, holds-halves}

-- The lists, the counters and the flags of a zone agree as far as freeing needs it: from order `from`
-- on, a page that answers `page_is_buddy` is on the list; the counters are the lengths of the lists,
-- and none is about to wrap.
pub record IsBacked (z : Zone) (from : ℕ) : Type 0 where
  pub listed :
      (p o : ℕ)
      → from ≤ o
      → page_is_buddy (z.mem_map p) o ≡ true
      → on_list p (z.free_pages o) ≡ true
  pub counts : (o : ℕ) → z.count o ≡ length (z.free_pages o)
  pub room : (o : ℕ) → z.count o + 1 < 2 ^ 64

-- What freeing the block of order `order` at `pfn` leads to: one block of the result's lists, of
-- order `k` at `head`, that covers it.
pub record IsMerged (z : Zone) (pfn order : ℕ) (result : Zone) : Type 0 where
  pub head : ℕ
  pub k : ℕ
  pub front : List ℕ
  pub low : order ≤ k
  pub high : k < max_order
  pub even : head % 2 ^ k ≡ 0
  pub starts : head ≤ pfn
  pub ends : pfn + 2 ^ order ≤ head + 2 ^ k
  pub listed : result.free_pages k ≡ front ++ head ∷ []
  pub marked : page_is_buddy (result.mem_map head) k ≡ true
  pub total : free_total result ≡ free_total z + 2 ^ order
  pub covers : (f : ℕ) → cover result f ≡ cover z f + holds order f pfn
  pub counts : (o : ℕ) → result.count o ≡ length (result.free_pages o)
  pub joined :
      page_is_buddy (z.mem_map (find_buddy_pfn pfn order)) order ≡ true
      → order + 1 < max_order
      → order < k

flag-set : (f : ℕ) → bit_and (bit_or f 1) 1 ≡ 1
flag-set f = omega (arith, bit_and-one (bit_or f 1), bit_or-one f)

page_is_buddy-set : (f o : ℕ) → page_is_buddy (record { flag = bit_or f 1; order = o }) o ≡ true
unfolding page_is_buddy
page_is_buddy-set f o = ground (arith, flag-set f)

done_merging-total :
    (z : Zone) (pfn order : ℕ)
    → order < max_order
    → z.count order + 1 < 2 ^ 64
    → free_total (done_merging z pfn order) ≡ free_total z + 2 ^ order
unfolding done_merging add_page_to_free_list set_buddy_order free_total
done_merging-total z pfn order h room =
    let step = weigh-update z.count order (u64 (z.count order + 1)) max_order h in
    let flat : u64 (z.count order + 1) ≡ z.count order + 1 = omega arith in
    omega (arith, step, ap (λ (t : ℕ). t * 2 ^ order) flat)

done_merging-cover :
    (z : Zone) (pfn order f : ℕ)
    → order < max_order
    → cover (done_merging z pfn order) f ≡ cover z f + holds order f pfn
unfolding done_merging add_page_to_free_list set_buddy_order cover
done_merging-cover z pfn order f h = omega (
  arith,
  pile-update z.free_pages f order (z.free_pages order ++ pfn ∷ []) max_order h,
  covered-append order f pfn (z.free_pages order),
)

done_merging-counts :
    (z : Zone) (pfn order : ℕ)
    → IsBacked z order
    → (o : ℕ)
    → (done_merging z pfn order).count o ≡ length ((done_merging z pfn order).free_pages o)
unfolding done_merging add_page_to_free_list set_buddy_order
done_merging-counts z pfn order w o =
    ground (arith, w.counts o, w.room o, length-append (z.free_pages o) (pfn ∷ []))

done_merging-IsMerged :
    (z : Zone) (pfn order : ℕ)
    → order < max_order
    → pfn % 2 ^ order ≡ 0
    → IsBacked z order
    → (page_is_buddy (z.mem_map (find_buddy_pfn pfn order)) order ≡ true → ⊥) ⊎ (order ≡ 10)
    → IsMerged z pfn order (done_merging z pfn order)
done_merging-IsMerged z pfn order h even w alone = record {
  head = pfn;
  k = order;
  front = z.free_pages order;
  low = omega arith;
  high = h;
  even = even;
  starts = omega arith;
  ends = omega arith;
  listed = unfold done_merging add_page_to_free_list set_buddy_order in ground arith;
  marked =
      unfold done_merging add_page_to_free_list set_buddy_order in
      ground (arith, page_is_buddy-set (z.mem_map pfn).flag order);
  total = done_merging-total z pfn order h (w.room order);
  covers = λ f. done_merging-cover z pfn order f h;
  counts = done_merging-counts z pfn order w;
  joined =
      λ b lt. elim alone [ inl not_buddy ↦ absurd (not_buddy b) | inr top ↦ absurd (omega arith) ];
}

nonempty : (p : ℕ) (qs : List ℕ) → on_list p qs ≡ true → 0 < length qs
unfolding on_list
nonempty p [] h = absurd cc
nonempty p (q ∷ qs) h = omega arith

del-cover :
    (z : Zone) (b order f : ℕ)
    → order < max_order
    → on_list b (z.free_pages order) ≡ true
    → cover (del_page_from_free_list z b order) f + holds order f b ≡ cover z f
unfolding del_page_from_free_list cover
del-cover z b order f h there = omega (
  arith,
  pile-update z.free_pages f order (erase b (z.free_pages order)) max_order h,
  (covered-erase order f b (z.free_pages order) there).0,
)

double : (o : ℕ) → 2 ^ (o + 1) ≡ 2 ^ o * 2
double o = rw add-one (pow-suc 2 o)

del-IsBacked :
    (z : Zone) (b order : ℕ)
    → IsBacked z order
    → on_list b (z.free_pages order) ≡ true
    → IsBacked (del_page_from_free_list z b order) (order + 1)
unfolding del_page_from_free_list
del-IsBacked z b order w there = record {
  listed = λ p o h is.
      let other : update z.free_pages order (erase b (z.free_pages order)) o ≡ z.free_pages o =
        ground (arith, h) in
      rw other (w.listed p o (omega (arith, h)) (flag-kept p o is));
  counts = λ o. ground (
    arith,
    w.counts o,
    w.counts order,
    w.room o,
    (covered-erase order 0 b (z.free_pages order) there).1,
  );
  room = λ o.
      ground (arith, w.room o, w.room order, w.counts order, nonempty b (z.free_pages order) there);
}
  where
    flag-kept :
        (p o : ℕ)
        → page_is_buddy
            (update z.mem_map b (record (z.mem_map b) { flag = bit_and (z.mem_map b).flag 1 }) p)
            o
          ≡ true
        → page_is_buddy (z.mem_map p) o ≡ true
    flag-kept p o is =
        unfold page_is_buddy in
        ground
          (arith, is, bit_and-one (z.mem_map b).flag, bit_and-one (bit_and (z.mem_map b).flag 1))

del-total :
    (z : Zone) (b order : ℕ)
    → order < max_order
    → 0 < z.count order
    → z.count order + 1 < 2 ^ 64
    → free_total (del_page_from_free_list z b order) + 2 ^ order ≡ free_total z
unfolding del_page_from_free_list free_total
del-total z b order h pos room =
    let less : sub64 (z.count order) 1 + 1 ≡ z.count order = omega arith in
    omega (
      arith,
      weigh-update z.count order (sub64 (z.count order) 1) max_order h,
      ap (λ (t : ℕ). t * 2 ^ order) less,
    )

merge_loop-IsMerged :
    (left : ℕ) (z : Zone) (pfn order : ℕ)
    → order + left ≡ 10
    → pfn % 2 ^ order ≡ 0
    → IsBacked z order
    → IsMerged z pfn order (merge_loop left z pfn order)
unfolding merge_loop
merge_loop-IsMerged zero z pfn order e even w =
    done_merging-IsMerged z pfn order (omega arith) even w (inr (omega arith))
merge_loop-IsMerged (suc left) z pfn order e even w =
    elim (Bool-cases (page_is_buddy (z.mem_map (find_buddy_pfn pfn order)) order)) [
      | inr alone ↦
          rw alone (done_merging-IsMerged z pfn order (omega arith) even w (inl (λ is. cc)))
      | inl free ↦
          let b = find_buddy_pfn pfn order in
          let z' = del_page_from_free_list z b order in
          let there = w.listed b order (omega arith) free in
          let pos : 0 < z.count order =
            omega (arith, w.counts order, nonempty b (z.free_pages order) there) in
          let (even', below, above) = pair_head order pfn even in
          let rest =
            merge_loop-IsMerged left z' (bit_and b pfn) (order + 1) (omega arith) (rw add-one even')
              (del-IsBacked z b order w there) in
          rw free (
            widen z z' pfn (bit_and b pfn) order _ rest below (rw add-one above)
              (del-total z b order (omega arith) pos (w.room order))
              (λ f.
                omega (arith, del-cover z b order f (omega arith) there, holds-halves order pfn f)))
    ]
  where
    widen :
        (z z' : Zone) (pfn h order : ℕ) (r : Zone)
        → IsMerged z' h (order + 1) r
        → h ≤ pfn
        → pfn + 2 ^ order ≤ h + 2 ^ (order + 1)
        → free_total z' + 2 ^ order ≡ free_total z
        → ((f : ℕ) → cover z' f + holds (order + 1) f h ≡ cover z f + holds order f pfn)
        → IsMerged z pfn order r
    widen z z' pfn h order r m below above less same = record {
      head = m.head;
      k = m.k;
      front = m.front;
      low = omega (arith, m.low);
      high = m.high;
      even = m.even;
      starts = omega (arith, m.starts);
      ends = omega (arith, m.ends);
      listed = m.listed;
      marked = m.marked;
      total = omega (arith, m.total, less, double order);
      covers = λ f. omega (arith, m.covers f, same f);
      counts = m.counts;
      joined = λ is lt. omega (arith, m.low);
    }

-- `__buddy_page_free` of an aligned block of an order below `MAX_ORDER`: of the blocks on the zone's
-- lists, each frame of the freed block is in one more than before, and every other frame in as many;
-- the counters are again the lengths of the lists, and the pages they count grow by the block's. The
-- last entry of the list of some order `k`, which is at least the given one, is aligned to its size,
-- covers the freed block, and is marked free at order `k`; and where the buddy of the block is marked
-- free at its order, the two are joined. This holds where every page that is marked free, at the
-- given order or above, is on the list of its order, the counters are the lengths of the lists, and
-- none is about to wrap.
pub free_block-IsMerged :
    (z : Zone) (pfn order : ℕ)
    → order < max_order
    → pfn % 2 ^ order ≡ 0
    → IsBacked z order
    → IsMerged z pfn order (free_block z pfn order)
unfolding free_block
free_block-IsMerged z pfn order h even w =
    merge_loop-IsMerged (max_order - 1 - order) z pfn order (omega arith) even w
