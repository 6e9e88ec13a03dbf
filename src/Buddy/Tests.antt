-- ===== src/Buddy/Tests.antt =====
-- The allocator of src/kernel/mm/buddy.c on a zone of sixteen pages, four of them free.
use geek_toy_os.Base.{
  ℕ, ◌+◌, ◌≤◌, true, ◌==◌, if◌then◌else◌, u64, ◌≡◌, arith, refl, Bool-cases, inl, inr, List, [],
  ◌∷◌, length,
}
use geek_toy_os.Buddy.{
  Page, Zone, max_order, page_is_buddy, free_block, buddy_page_free, buddy_page_alloc, got,
  split_block, order_loop, search_loop, take_block, del_page_from_free_list, expand_buddy,
  add_page_to_free_list, set_buddy_order,
}
use geek_toy_os.Buddy.Blocks.{IsCut, free_all, buddy_page_free-IsCut}
use geek_toy_os.Buddy.Cover.{on_list}
use geek_toy_os.Buddy.Merge.{IsBacked, IsMerged, free_block-IsMerged}
use geek_toy_os.Buddy.Expand.{IsCounted, HasRoom}
use geek_toy_os.Buddy.Take.{IsTaken, buddy_page_alloc-IsTaken}
use geek_toy_os.Buddy.Marks.{buddy_page_alloc-marked}

abbrev used_page : Page
used_page = record { flag = 0; order = 0 }

-- The four pages from 4 on are a free block of order 2.
abbrev one_block : Zone
one_block = record {
  pfn_base = 0;
  nr_pages = 16;
  nr_free_pages = 4;
  mem_map = λ p. if p == 4 then record { flag = 1; order = 2 } else used_page;
  count = λ o. if o == 2 then 1 else 0;
  free_pages = λ o. if o == 2 then 4 ∷ [] else [];
}

one_block-listed :
    (p o : ℕ)
    → 2 ≤ o
    → page_is_buddy (one_block.mem_map p) o ≡ true
    → on_list p (one_block.free_pages o) ≡ true
unfolding page_is_buddy on_list
one_block-listed p o h e = elim (Bool-cases (p == 4)) [
  | inl here ↦ ground (arith, here, rw here at e)
  | inr other ↦ absurd (ground (arith, rw other at e))
]

one_block-counts : (o : ℕ) → one_block.count o ≡ length (one_block.free_pages o)
one_block-counts o = elim (Bool-cases (o == 2)) [
  | inl two ↦ rw two refl
  | inr other ↦ rw other refl
]

one_block-IsBacked : IsBacked one_block 2
one_block-IsBacked = record {
  listed = one_block-listed;
  counts = one_block-counts;
  room = λ o. ground arith;
}

one_block-IsCounted : IsCounted one_block
one_block-IsCounted o h = elim (Bool-cases (o == 2)) [
  | inl two ↦ rw two refl
  | inr other ↦ rw other refl
]

one_block-HasRoom : HasRoom one_block max_order
one_block-HasRoom o h = ground arith

buddy_page_free_example :
    (blocks : List (ℕ × ℕ)) × IsCut 5 9 blocks
    × (buddy_page_free one_block 5 9
        ≡ free_all (record one_block { nr_free_pages = u64 (4 + 9) }) blocks)
buddy_page_free_example = buddy_page_free-IsCut one_block 5 9 (omega arith)

free_block_example : IsMerged one_block 0 2 (free_block one_block 0 2)
free_block_example = free_block-IsMerged one_block 0 2 (omega arith) refl one_block-IsBacked

buddy_page_alloc_example : IsTaken one_block 3 0 (buddy_page_alloc one_block 3)
buddy_page_alloc_example =
    buddy_page_alloc-IsTaken one_block 3 one_block-HasRoom one_block-IsCounted

-- The zone after one page is taken.
abbrev one_taken : Zone
one_taken = record (split_block one_block 0 2 4) { nr_free_pages = 3 }

taken : buddy_page_alloc one_block 1 ≡ got one_taken 4
unfolding buddy_page_alloc order_loop search_loop take_block split_block del_page_from_free_list
    expand_buddy add_page_to_free_list set_buddy_order
taken = refl

free_before : page_is_buddy (one_block.mem_map 4) 2 ≡ true
unfolding page_is_buddy
free_before = refl

buddy_page_alloc-marked_example : page_is_buddy (one_taken.mem_map 4) 2 ≡ true
buddy_page_alloc-marked_example =
    buddy_page_alloc-marked one_block one_taken 1 4 2 taken free_before
