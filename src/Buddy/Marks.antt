-- ===== src/Buddy/Marks.antt =====
-- The flag of src/kernel/mm/buddy.c that marks a page as free.
use geek_toy_os.Base.{
  ℕ, zero, suc, ◌+◌, ◌/◌, ◌^◌, ◌≤◌, bit_and, true, ◌==◌, ◌≡◌, refl, arith, List, [], ◌∷◌,
  Bool-cases, inl, inr,
}
use native.Mathlib.Nat.{pow-suc, one-le-pow}
use geek_toy_os.Base.Bits.{bit_and-one}
use geek_toy_os.Buddy.{
  Zone, page_is_buddy, del_page_from_free_list, add_page_to_free_list, set_buddy_order,
  expand_buddy, got, split_block, take_block, search_loop, buddy_page_alloc,
}

-- Handing back the halves leaves the page itself alone.
expand_buddy-mem_map :
    (z : Zone) (p offset origin target : ℕ)
    → offset ≡ 2 ^ origin
    → (expand_buddy z p offset origin target).mem_map p ≡ z.mem_map p
unfolding expand_buddy
expand_buddy-mem_map z p offset zero target e = refl
expand_buddy-mem_map z p offset (suc origin) target e =
    let half : offset / 2 ≡ 2 ^ origin = omega (arith, e, pow-suc 2 origin) in
    let pos : 1 ≤ offset / 2 = omega (arith, half, one-le-pow origin 2 (omega arith)) in
    ground (
      arith,
      expand_buddy-mem_map
          (set_buddy_order (add_page_to_free_list z (p + offset / 2) origin) (p + offset / 2)
            origin)
          p (offset / 2) origin target half,
      set-elsewhere z p (offset / 2) origin pos,
    )
  where
    set-elsewhere :
        (z : Zone) (p half origin : ℕ)
        → 1 ≤ half
        → (set_buddy_order (add_page_to_free_list z (p + half) origin) (p + half) origin).mem_map p
          ≡ z.mem_map p
    set-elsewhere z p half origin pos = unfold set_buddy_order add_page_to_free_list in ground arith

del-marked :
    (z : Zone) (p s o : ℕ)
    → page_is_buddy (z.mem_map p) o ≡ true
    → page_is_buddy ((del_page_from_free_list z p s).mem_map p) o ≡ true
unfolding page_is_buddy del_page_from_free_list
del-marked z p s o h =
    ground (arith, bit_and-one (z.mem_map p).flag, bit_and-one (bit_and (z.mem_map p).flag 1))

split_block-marked :
    (z : Zone) (order s p o : ℕ)
    → page_is_buddy (z.mem_map p) o ≡ true
    → page_is_buddy ((split_block z order s p).mem_map p) o ≡ true
unfolding split_block
split_block-marked z order s p o h = elim (Bool-cases (s == order)) [
  | inl same ↦ rw same (del-marked z p s o h)
  | inr deeper ↦
      rw (deeper, expand_buddy-mem_map (del_page_from_free_list z p s) p (2 ^ s) s order refl)
        (del-marked z p s o h)
]

take_block-marked :
    (z z' : Zone) (nr order s pfn o : ℕ)
    → take_block z nr order s ≡ got z' pfn
    → page_is_buddy (z.mem_map pfn) o ≡ true
    → page_is_buddy (z'.mem_map pfn) o ≡ true
unfolding take_block
take_block-marked z z' nr order s pfn o e h = go (z.free_pages s) refl
  where
    go : (l : List ℕ) → z.free_pages s ≡ l → page_is_buddy (z'.mem_map pfn) o ≡ true
    go [] n = let bad = rw (n, take_block) at e in cc
    go (page ∷ rest) n =
        let same = rw (n, take_block) at e in
        ground (arith, same, split_block-marked z order s pfn o h)

search_loop-marked :
    (left : ℕ) (z z' : Zone) (nr order s pfn o : ℕ)
    → search_loop z nr order left s ≡ got z' pfn
    → page_is_buddy (z.mem_map pfn) o ≡ true
    → page_is_buddy (z'.mem_map pfn) o ≡ true
unfolding search_loop
search_loop-marked zero z z' nr order s pfn o e h = ground arith
search_loop-marked (suc left) z z' nr order s pfn o e h = elim (Bool-cases (z.count s == 0)) [
  | inl none_ ↦ search_loop-marked left z z' nr order (s + 1) pfn o (rw none_ at e) h
  | inr some_ ↦ take_block-marked z z' nr order s pfn o (rw some_ at e) h
]

-- The page that `buddy_page_alloc` hands out still answers `page_is_buddy` as it did on its free
-- list: `flag &= PAGE_FLAG_BUDDY` keeps the very bit that should go.
pub buddy_page_alloc-marked :
    (z z' : Zone) (nr pfn o : ℕ)
    → buddy_page_alloc z nr ≡ got z' pfn
    → page_is_buddy (z.mem_map pfn) o ≡ true
    → page_is_buddy (z'.mem_map pfn) o ≡ true
unfolding buddy_page_alloc
buddy_page_alloc-marked z z' nr pfn o e h = search_loop-marked _ z z' nr _ _ pfn o e h
