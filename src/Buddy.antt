-- ===== src/Buddy.antt =====
-- The page allocator of src/kernel/mm/buddy.c, over `struct zone` and `struct page` of
-- include/kernel/mm.h. A page is named by its frame number, and the free list of an order is the
-- list of the frame numbers on the ring. `error` only logs.
pub mod Blocks
pub mod Weight
pub mod Cover
pub mod Pair
pub mod Merge
pub mod Expand
pub mod Take
pub mod Marks
mod Tests
use geek_toy_os.Base.{
  ℕ, zero, suc, ◌+◌, ◌-◌, ◌*◌, ◌/◌, ◌%◌, ◌^◌, bit_and, bit_or, bit_xor, Bool, true, false, not,
  ◌&&◌, ltb, leb, ◌==◌, if◌then◌else◌, update, u32, u64, sub64, Option, none, some, List, [], ◌∷◌,
  ◌++◌,
}

abbrev pub max_order : ℕ
max_order = 11

abbrev pub page_flag_buddy : ℕ
page_flag_buddy = 1

abbrev pub pfn_notfound : ℕ
pfn_notfound = 2 ^ 64 - 1

pub record Page : Type 0 where
  pub flag : ℕ
  pub order : ℕ

-- `count` and `free_pages` are the two fields of `free_area`, by order.
pub record Zone : Type 0 where
  pub pfn_base : ℕ
  pub nr_pages : ℕ
  pub nr_free_pages : ℕ
  pub mem_map : ℕ → Page
  pub count : ℕ → ℕ
  pub free_pages : ℕ → List ℕ

pub buddy_init_zone : (mem_pages : ℕ → Page) → (pfn_start nr_pages : ℕ) → Zone
buddy_init_zone mem_pages pfn_start nr_pages = record {
  pfn_base = pfn_start;
  nr_pages = nr_pages;
  nr_free_pages = 0;
  mem_map = mem_pages;
  count = λ order. 0;
  free_pages = λ order. [];
}

abbrev pub find_buddy_pfn : (pfn order : ℕ) → ℕ
find_buddy_pfn pfn order = bit_xor pfn (2 ^ order)

pub page_is_buddy : Page → (order : ℕ) → Bool
page_is_buddy page order = not (bit_and page.flag page_flag_buddy == 0) && page.order == order

-- `list_remove`: a page that is on no list is linked to itself, and stays so.
pub erase : ℕ → List ℕ → List ℕ
erase p [] = []
erase p (q ∷ qs) = if p == q then qs else q ∷ erase p qs

pub del_page_from_free_list : Zone → (pfn order : ℕ) → Zone
unfolding erase
del_page_from_free_list z pfn order = record z {
  free_pages = update z.free_pages order (erase pfn (z.free_pages order));
  count = update z.count order (sub64 (z.count order) 1);
  mem_map =
      update z.mem_map pfn
        (record (z.mem_map pfn) { flag = bit_and (z.mem_map pfn).flag page_flag_buddy });
}

pub add_page_to_free_list : Zone → (pfn order : ℕ) → Zone
add_page_to_free_list z pfn order = record z {
  free_pages = update z.free_pages order (z.free_pages order ++ pfn ∷ []);
  count = update z.count order (u64 (z.count order + 1));
}

pub set_buddy_order : Zone → (pfn order : ℕ) → Zone
set_buddy_order z pfn order = record z {
  mem_map =
      update z.mem_map pfn
        (record { flag = bit_or (z.mem_map pfn).flag page_flag_buddy; order = order });
}

-- The loop counts `origin_order` down, so it is a recursion on it.
pub expand_buddy : Zone → (pfn pfn_offset origin_order target_order : ℕ) → Zone
expand_buddy z pfn pfn_offset zero target = z
expand_buddy z pfn pfn_offset (suc origin) target =
    let half = pfn_offset / 2 in
    let z' = set_buddy_order (add_page_to_free_list z (pfn + half) origin) (pfn + half) origin in
    let rest = expand_buddy z' pfn half origin target in if ltb target (suc origin) then rest else z

-- `for (size_t sz = nr_pages; sz&1 == 0; sz >>= 1) order++`. In C `==` binds tighter than `&`, so
-- the test is `sz & (1 == 0)`. The fuel is the width of `size_t`.
pub order_loop : (fuel sz order : ℕ) → ℕ
order_loop zero sz order = order
order_loop (suc fuel) sz order =
    let rest = order_loop fuel (sz / 2) (u32 (order + 1)) in
    if bit_and sz (if 1 == 0 then 1 else 0) == 0 then order else rest

-- `fault` is the dereference of the NULL that `list_front` gives for an empty list.
pub data Alloc : Type 0 where
  got : Zone → ℕ → Alloc
  fault : Alloc

-- The zone once `page` is off its list and what is left of its block is back on the lists.
pub split_block : Zone → (order search_order page : ℕ) → Zone
split_block z order search_order page =
    let z' = del_page_from_free_list z page search_order in
    if search_order == order then z' else expand_buddy z' page (2 ^ search_order) search_order order

pub take_block : Zone → (nr_pages order search_order : ℕ) → Alloc
take_block z nr_pages order search_order = elim (z.free_pages search_order) [
  | [] ↦ fault
  | page ∷ _ ↦
      let z' = split_block z order search_order page in
      got (record z' { nr_free_pages = sub64 z'.nr_free_pages nr_pages }) page
]

-- The search from `search_order` on, with `left` orders to go.
pub search_loop : Zone → (nr_pages order left search_order : ℕ) → Alloc
search_loop z nr_pages order zero search_order = got z pfn_notfound
search_loop z nr_pages order (suc left) search_order =
    let rest = search_loop z nr_pages order left (search_order + 1) in
    if z.count search_order == 0 then rest else take_block z nr_pages order search_order

pub buddy_page_alloc : Zone → (nr_pages : ℕ) → Alloc
buddy_page_alloc z nr_pages =
    let order = order_loop 64 nr_pages 0 in search_loop z nr_pages order (max_order - order) order

-- The label `done_merging`.
pub done_merging : Zone → (pfn order : ℕ) → Zone
done_merging z pfn order = add_page_to_free_list (set_buddy_order z pfn order) pfn order

-- `while (order < max_order)`, with `left` rounds before `MAX_ORDER - 1`.
pub merge_loop : (left : ℕ) → Zone → (pfn order : ℕ) → Zone
merge_loop zero z pfn order = done_merging z pfn order
merge_loop (suc left) z pfn order =
    let buddy_pfn = find_buddy_pfn pfn order in
    let rest =
      merge_loop left (del_page_from_free_list z buddy_pfn order) (bit_and buddy_pfn pfn)
        (order + 1) in
    if page_is_buddy (z.mem_map buddy_pfn) order then rest else done_merging z pfn order

-- `__buddy_page_free`
pub free_block : Zone → (pfn order : ℕ) → Zone
free_block z pfn order = merge_loop (max_order - 1 - order) z pfn order

-- `for (order = MAX_ORDER - 1; order >= 0; order--)`, from the order below `left` down.
pub pick_order : (left pfn nr_pages : ℕ) → ℕ
pick_order zero pfn nr_pages = 0
pick_order (suc order) pfn nr_pages =
    let rest = pick_order order pfn nr_pages in
    if pfn % 2 ^ order == 0 && leb (2 ^ order) nr_pages then order else rest

-- `while (nr_pages)`: each round takes a page at least, so the page count is fuel enough.
pub free_loop : (fuel : ℕ) → Zone → (pfn nr_pages : ℕ) → Zone
free_loop zero z pfn nr_pages = z
free_loop (suc fuel) z pfn nr_pages =
    let order = pick_order max_order pfn nr_pages in
    let rest =
      free_loop fuel (free_block z pfn order) (u64 (pfn + 2 ^ order)) (nr_pages - 2 ^ order) in
    if nr_pages == 0 then z else rest

pub buddy_page_free : Zone → (pfn nr_pages : ℕ) → Zone
buddy_page_free z pfn nr_pages =
    free_loop nr_pages (record z { nr_free_pages = u64 (z.nr_free_pages + nr_pages) }) pfn nr_pages
