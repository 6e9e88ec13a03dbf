-- ===== src/Pages.antt =====
-- src/kernel/mm/memory.c: physical pages, first from the end of the reserved area, then from the
-- bitmap of the page frames, then from the buddy allocator. The memory map of the boot loader is
-- the list of its entries; `error` and `warning` only log.
pub mod Blocks
pub mod Frames
pub mod Early
mod Tests
use geek_toy_os.Base.{
  ℕ, zero, suc, ◌+◌, ◌-◌, ◌*◌, ◌/◌, ◌%◌, ◌^◌, max, Bool, true, false, not, ◌&&◌, ltb, leb, ◌==◌,
  if◌then◌else◌, u64, sub64, align, div_round_up, sign_extend, List, [], ◌∷◌,
}
use geek_toy_os.MemOps.{Mem}
use geek_toy_os.Bitmap.{Bitmap, bitmap_init, bitmap_set, bitmap_find, not_found}
use geek_toy_os.Buddy.{
  Page, Zone, Alloc, got, fault, pfn_notfound, buddy_init_zone, buddy_page_alloc, buddy_page_free,
}

abbrev pub pgsize : ℕ
pgsize = 4096

-- `sizeof(struct page)` on x86_64: two `u32`, a list node and a pointer.
abbrev pub sizeof_page : ℕ
sizeof_page = 32

-- `MEM_PAGE_AVAIL` and `MEM_PAGE_USED`
abbrev pub mem_page_avail : Bool
mem_page_avail = false

abbrev pub mem_page_used : Bool
mem_page_used = true

-- An entry of the memory map that is of type `MULTIBOOT_MEMORY_AVAILABLE`, or not.
pub record MmapEntry : Type 0 where
  pub addr : ℕ
  pub len : ℕ
  pub available : Bool

-- The static variables of memory.c. `kern_end` and `mboot_info_end` are set by the boot code, the
-- latter here as a physical address; `memory` is what the bitmap's array holds at first.
pub record State : Type 0 where
  pub kern_end : ℕ
  pub mboot_info_end : ℕ
  pub reserved_end : ℕ
  pub phy_addr_limit : ℕ
  pub pfn_max : ℕ
  pub mem_map : Bitmap
  pub mem_zone : Zone
  pub reserved_mem_ready : Bool
  pub buddy_mem_ready : Bool
  pub mm_ready : Bool

unfoldable pub reserved_mem_allocator_init : State → State
reserved_mem_allocator_init s =
    let last = max s.kern_end s.mboot_info_end in
    if s.reserved_mem_ready
    then s
    else record s { reserved_end = align last pgsize; reserved_mem_ready = true }

unfoldable pub reserved_mem_alloc : State → (size : ℕ) → State × ℕ
reserved_mem_alloc s size =
    (record s { reserved_end = align (u64 (s.reserved_end + size)) pgsize }, s.reserved_end)

-- `while (r < pfn_max)` of `block_page_alloc`. The `int` of `bitmap_find` goes to a `ssize_t`,
-- which `<` compares as unsigned.
pub block_loop : (fuel : ℕ) → Bitmap → (pfn_max nr_pages r : ℕ) → ℕ
block_loop zero b pfn_max nr_pages r = pfn_notfound
block_loop (suc fuel) b pfn_max nr_pages r =
    let l = sign_extend (bitmap_find b mem_page_avail r pfn_max) in
    let r' = sign_extend (bitmap_find b mem_page_used l nr_pages) in
    let rest = block_loop fuel b pfn_max nr_pages r' in
    if not (ltb r pfn_max) then pfn_notfound else if r' == pfn_notfound then l else rest

-- Each round moves `r` up, so the number of frames is fuel enough.
pub block_page_alloc : State → (nr_pages : ℕ) → ℕ
block_page_alloc s nr_pages = block_loop (s.pfn_max + 1) s.mem_map s.pfn_max nr_pages 0

-- The first pass of `mem_map_init` over the entries.
pub find_limit : List MmapEntry → (limit : ℕ) → ℕ
find_limit [] limit = limit
find_limit (e ∷ es) limit =
    find_limit es (if e.available then max limit (u64 (e.addr + e.len)) else limit)

-- The second pass.
pub release_entry : (reserved_end : ℕ) → MmapEntry → Bitmap → Bitmap
release_entry reserved_end e b =
    let cut = ltb e.addr reserved_end in
    let base = if cut then reserved_end else e.addr in
    let len = if cut then sub64 (u64 (e.addr + e.len)) reserved_end else e.len in
    if not e.available
    then b
    else if leb (u64 (e.addr + e.len)) reserved_end
    then b
    else bitmap_set b mem_page_avail (base / pgsize) (len / pgsize)

pub release_entries : (reserved_end : ℕ) → List MmapEntry → Bitmap → Bitmap
release_entries reserved_end [] b = b
release_entries reserved_end (e ∷ es) b =
    release_entries reserved_end es (release_entry reserved_end e b)

-- `mem_map_init`; `memory` is what the pages of the new bitmap hold.
pub mem_map_init : List MmapEntry → (memory : Mem) → State → State
mem_map_init mmap memory s =
    let limit = align (find_limit mmap s.phy_addr_limit) pgsize in
    let s1 = reserved_mem_allocator_init (record s { phy_addr_limit = limit }) in
    let pfn_max = div_round_up limit pgsize in
    let s2 = (reserved_mem_alloc s1 (div_round_up pfn_max 8)).0 in
    let b = bitmap_set (bitmap_init memory pfn_max) mem_page_used 0 pfn_max in
    record s2 { pfn_max = pfn_max; mem_map = release_entries s2.reserved_end mmap b }

-- What a call returns with the new state, or the fault of `buddy_page_alloc`.
pub data Result : Type 0 where
  returned : State → ℕ → Result
  crashed : Result

pub mark_used : State → (pfn nr_pages : ℕ) → Result
mark_used s pfn nr_pages =
    returned (record s { mem_map = bitmap_set s.mem_map mem_page_used pfn nr_pages })
      (u64 (pfn * pgsize))

unfoldable pub mm_phy_page_alloc : State → (nr_pages : ℕ) → Result
mm_phy_page_alloc s nr_pages =
    let early = reserved_mem_alloc (reserved_mem_allocator_init s) (u64 (nr_pages * pgsize)) in
    if not s.mm_ready
    then returned early.0 early.1
    else if s.buddy_mem_ready
    then (elim (buddy_page_alloc s.mem_zone nr_pages) [
      | got z pfn ↦ mark_used (record s { mem_zone = z }) pfn nr_pages
      | fault ↦ crashed
    ])
    else mark_used s (block_page_alloc s nr_pages) nr_pages

pub mm_phy_page_free : State → (addr nr_pages : ℕ) → State
mm_phy_page_free s addr nr_pages =
    let pfn_start = addr / pgsize in
    let s' = record s { mem_map = bitmap_set s.mem_map mem_page_avail pfn_start nr_pages } in
    if s.buddy_mem_ready
    then record s' { mem_zone = buddy_page_free s'.mem_zone pfn_start nr_pages }
    else s'

-- The loop of `buddy_init`.
pub fill_loop : (fuel : ℕ) → Bitmap → (pfn_max r : ℕ) → Zone → Zone
fill_loop zero b pfn_max r z = z
fill_loop (suc fuel) b pfn_max r z =
    let l = sign_extend (bitmap_find b mem_page_avail r pfn_max) in
    let found = sign_extend (bitmap_find b mem_page_used l pfn_max) in
    let r' = if found == pfn_notfound then pfn_max else found in
    let rest = fill_loop fuel b pfn_max r' (buddy_page_free z l (sub64 r' l)) in
    if ltb r pfn_max then rest else z

-- `buddy_init` and the flag that `pmm_init` sets after it; `mem_pages` is what the pages for the
-- array of `struct page` hold.
pub buddy_init : (mem_pages : ℕ → Page) → State → Result
buddy_init mem_pages s =
    elim (mm_phy_page_alloc s (div_round_up (s.pfn_max * sizeof_page) pgsize)) [
      | crashed ↦ crashed
      | returned s' addr ↦
          let z = buddy_init_zone mem_pages 0 s'.pfn_max in
          returned
            (record s' {
              mem_zone = fill_loop (s'.pfn_max + 1) s'.mem_map s'.pfn_max 0 z;
              buddy_mem_ready = true;
            })
            addr
    ]
