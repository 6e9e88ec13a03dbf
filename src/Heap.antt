-- ===== src/Heap.antt =====
-- src/kernel/mm/slab.c, over src/kernel/mm/memory.c: the caches that stand behind `kmalloc` and
-- `kfree`, as objects of the first cache, and the pages that they take. A cache is named by the
-- address of its `struct kmem_cache`.
pub mod Large
pub mod Objects
mod Tests
use geek_toy_os.Base.{
  ℕ, zero, suc, ◌+◌, ◌-◌, ◌*◌, ◌/◌, ◌^◌, bit_and, bit_or, Bool, true, false, not, ◌&&◌, ltb, ◌==◌,
  if◌then◌else◌, update, u64, sub64, align, Option, none, some, List, [], ◌∷◌,
}
use geek_toy_os.Buddy.{Page, Zone}
use geek_toy_os.Pages.{
  State, Result, returned, crashed, mm_phy_page_alloc, mm_phy_page_free, pgsize,
}
use geek_toy_os.Paging.Walk.{kern_base, kaddr}
use geek_toy_os.Slab.{
  SlabInfo, Cache, null, kmem_init_cache, kmem_cache_alloc, kmem_cache_free, kmalloc_size_index,
  kmalloc_sizes,
}

abbrev pub page_flag_slab : ℕ
page_flag_slab = 2

-- `sizeof(struct kmem_cache)` on x86_64: 32 characters, four `int`, three list nodes, two counters
-- and the lock.
abbrev pub sizeof_kmem_cache : ℕ
sizeof_kmem_cache = 120

abbrev pub paddr : ℕ → ℕ
paddr addr = sub64 addr kern_base

-- The pages of memory.c; the union `u` of `struct page`, by frame; the caches; the pointers of
-- `mm_kmalloc_caches`; and the memory that all caches share.
pub record Heap : Type 0 where
  pub pages : State
  pub u : ℕ → ℕ
  pub caches : ℕ → Cache
  pub mm_kmalloc_caches : ℕ → ℕ
  pub slabs : ℕ → SlabInfo
  pub words : ℕ → ℕ

-- The state after a call and the address that it returns.
pub data Served : Type 0 where
  served : Heap → ℕ → Served
  failed : Served

-- A cache with the memory as it is, and the heap after a cache has changed.
abbrev pub load : Heap → (cachep : ℕ) → Cache
load h cachep = record (h.caches cachep) { slabs = h.slabs; words = h.words }

abbrev pub save : Heap → (cachep : ℕ) → Cache → Heap
save h cachep c = record h { caches = update h.caches cachep c; slabs = c.slabs; words = c.words }

-- `page->flag |= PAGE_FLAG_SLAB; page->u.slab_cache = cachep;`
pub mark_slab : Heap → (pfn cachep : ℕ) → Heap
mark_slab h pfn cachep =
    let z = h.pages.mem_zone in
    let page = z.mem_map pfn in
    record h {
      pages = record (h.pages) {
        mem_zone = record z {
          mem_map = update z.mem_map pfn (record page { flag = bit_or page.flag page_flag_slab });
        };
      };
      u = update h.u pfn cachep;
    }

-- The `memset` of `mm_phy_page_zalloc(1)`.
abbrev pub clear_page : ℕ → (ℕ → ℕ) → ℕ → ℕ
clear_page page words a = if a / pgsize == page / pgsize then 0 else words a

-- `kmem_cache_alloc` of the cache at `cachep`, with the page of `mm_phy_page_zalloc`, if it is
-- called.
abbrev pub take_from : Heap → (cachep : ℕ) → (fresh : Option ℕ) → Served
take_from h cachep fresh =
    let r = kmem_cache_alloc (load h cachep) fresh in served (save h cachep r.0) r.1

-- What `cache_grow` does to the page before it makes the objects.
pub grow : Heap → (cachep : ℕ) → Served
grow h cachep = elim (mm_phy_page_alloc h.pages 1) [
  | crashed ↦ failed
  | returned s phy ↦
      let h1 = record h { pages = s; words = clear_page (kaddr phy) h.words } in
      if phy == 0
      then take_from h1 cachep none
      else take_from (mark_slab h1 (phy / pgsize) cachep) cachep (some (kaddr phy))
]

pub cache_alloc : Heap → (cachep : ℕ) → Served
cache_alloc h cachep = elim (h.caches cachep).slabs_partial [
  | _ ∷ _ ↦ take_from h cachep none
  | [] ↦ elim (h.caches cachep).slabs_free [ _ ∷ _ ↦ take_from h cachep none | [] ↦ grow h cachep ]
]

-- `kmem_cache_create`; `mm_slab_cache` is the address of that variable.
pub kmem_cache_create : Heap → (mm_slab_cache size : ℕ) → Served
kmem_cache_create h mm_slab_cache size = elim (cache_alloc h mm_slab_cache) [
  | failed ↦ failed
  | served h' cachep ↦ served (save h' cachep (kmem_init_cache h'.words h'.slabs size 8)) cachep
]

-- The loop of `kmem_init`, from the cache `i` on.
pub create_caches : Heap → (mm_slab_cache i : ℕ) → List ℕ → Option Heap
create_caches h mm_slab_cache i [] = some h
create_caches h mm_slab_cache i (size ∷ sizes) = elim (kmem_cache_create h mm_slab_cache size) [
  | failed ↦ none
  | served h' cachep ↦
      create_caches (record h' { mm_kmalloc_caches = update h'.mm_kmalloc_caches i cachep })
        mm_slab_cache (i + 1) sizes
]

pub kmem_init : Heap → (mm_slab_cache : ℕ) → Option Heap
kmem_init h mm_slab_cache =
    create_caches (save h mm_slab_cache (kmem_init_cache h.words h.slabs sizeof_kmem_cache 8))
      mm_slab_cache 0 kmalloc_sizes

-- The pages of a large `kmalloc`, whose count the first frame keeps.
pub kmalloc_large : Heap → (size : ℕ) → Served
kmalloc_large h size =
    let num_page = align size pgsize / pgsize in
    elim (mm_phy_page_alloc h.pages num_page) [
      | crashed ↦ failed
      | returned s phy ↦
          served (record h { pages = s; u = update h.u (phy / pgsize) num_page }) (kaddr phy)
    ]

-- `kmalloc` with its calls.
pub kmalloc_heap : Heap → (size : ℕ) → Served
kmalloc_heap h size =
    if size == 0
    then served h null
    else if ltb 2048 size
    then kmalloc_large h size
    else cache_alloc h (h.mm_kmalloc_caches (kmalloc_size_index size))

-- `kfree`
pub kfree : Heap → (obj : ℕ) → Heap
kfree h obj =
    let pfn = paddr obj / pgsize in
    let page = h.pages.mem_zone.mem_map pfn in
    if bit_and page.flag page_flag_slab == 0
    then record h { pages = mm_phy_page_free h.pages (paddr obj) (h.u pfn) }
    else save h (h.u pfn) (kmem_cache_free (load h (h.u pfn)) obj)
