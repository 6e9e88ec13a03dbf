-- ===== src/Buddy/Blocks.antt =====
-- `buddy_page_free` of src/kernel/mm/buddy.c cuts a run of pages into aligned blocks.
use geek_toy_os.Base.{
  ℕ, zero, suc, ◌+◌, ◌-◌, ◌%◌, ◌^◌, ◌≤◌, ◌<◌, ◌&&◌, leb, ◌==◌, u64, ◌≡◌, refl, arith, List, [], ◌∷◌,
  Bool-cases, inl, inr,
}
use native.Mathlib.Nat.{one-le-pow}
use geek_toy_os.Buddy.{Zone, max_order, free_block, pick_order, free_loop, buddy_page_free}

-- A list of blocks, given by frame number and order, that make up the run of `nr` pages at `pfn`:
-- each is aligned to its size and of an order below `MAX_ORDER`, and they follow one another.
pub data IsCut : (pfn nr : ℕ) → List (ℕ × ℕ) → Type 0 where
  done : {pfn nr : ℕ} → nr ≡ 0 → IsCut pfn nr []
  block :
      {pfn nr order : ℕ} {rest : List (ℕ × ℕ)}
      → order < max_order
      → pfn % 2 ^ order ≡ 0
      → 2 ^ order ≤ nr
      → IsCut (pfn + 2 ^ order) (nr - 2 ^ order) rest
      → IsCut pfn nr ((pfn, order) ∷ rest)

-- Freeing the blocks of a list in turn.
pub free_all : Zone → List (ℕ × ℕ) → Zone
free_all z [] = z
free_all z ((pfn, order) ∷ rest) = free_all (free_block z pfn order) rest

pick_order_lem :
    (left pfn nr : ℕ)
    → 0 < nr
    → left ≤ max_order
    → let o = pick_order left pfn nr in (o < max_order) × (pfn % 2 ^ o ≡ 0) × (2 ^ o ≤ nr)
unfolding pick_order
pick_order_lem zero pfn nr h le = omega arith
pick_order_lem (suc order) pfn nr h le =
    elim (Bool-cases (pfn % 2 ^ order == 0 && leb (2 ^ order) nr)) [
      | inl fits ↦ rw fits (omega arith, ground arith, ground arith)
      | inr no_fit ↦ rw no_fit (pick_order_lem order pfn nr h (omega arith))
    ]

free_loop-IsCut :
    (fuel : ℕ) (z : Zone) (pfn nr : ℕ)
    → nr ≤ fuel
    → pfn + nr < 2 ^ 64
    → (blocks : List (ℕ × ℕ)) × IsCut pfn nr blocks × (free_loop fuel z pfn nr ≡ free_all z blocks)
unfolding free_loop free_all
free_loop-IsCut zero z pfn nr h top = ([], done (omega arith), refl)
free_loop-IsCut (suc fuel) z pfn nr h top = elim (Bool-cases (nr == 0)) [
  | inl none_left ↦ rw none_left ([], done (ground arith), refl)
  | inr more ↦
      let (small, even, fits) = pick_order_lem max_order pfn nr (ground arith) (omega arith) in
      let size = 2 ^ pick_order max_order pfn nr in
      let one : 1 ≤ size = one-le-pow _ 2 (omega arith) in
      let flat : u64 (pfn + size) ≡ pfn + size = omega arith in
      let (blocks, cut, same) =
        free_loop-IsCut fuel (free_block z pfn (pick_order max_order pfn nr)) (pfn + size)
          (nr - size) (omega arith) (omega arith) in
      rw more
        (rw flat ((pfn, pick_order max_order pfn nr) ∷ blocks, block small even fits cut, same))
]

-- `buddy_page_free` adds the page count to the zone's and hands the whole run, page for page and
-- without overlap, to `__buddy_page_free` as aligned blocks of orders below `MAX_ORDER`; it ends
-- for every run below the top of the frame numbers.
pub buddy_page_free-IsCut :
    (z : Zone) (pfn nr : ℕ)
    → pfn + nr < 2 ^ 64
    → (blocks : List (ℕ × ℕ)) × IsCut pfn nr blocks
      × (buddy_page_free z pfn nr
          ≡ free_all (record z { nr_free_pages = u64 (z.nr_free_pages + nr) }) blocks)
unfolding buddy_page_free
buddy_page_free-IsCut z pfn nr top = free_loop-IsCut nr _ pfn nr (omega arith) top
