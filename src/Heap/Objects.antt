-- ===== src/Heap/Objects.antt =====
-- `kfree` of an object that `kmem_cache_alloc` took from a new page.
use geek_toy_os.Base.{
  ℕ, ◌+◌, ◌/◌, ◌%◌, ◌^◌, ◌≤◌, ◌<◌, bit_and, bit_or, false, ◌==◌, some, [], ◌≡◌, refl, ◌∙◌, arith,
}
use geek_toy_os.Base.Bits.{bit_or_step, bit_and_step, bit_and-one}
use geek_toy_os.Pages.{State, returned, mm_phy_page_alloc, pgsize}
use geek_toy_os.Paging.Walk.{kaddr}
use geek_toy_os.Slab.{sizeof_slab, kmem_cache_alloc, kmem_cache_free}
use geek_toy_os.Slab.Objects.{IsSized, kmem_cache_alloc-new}
use geek_toy_os.Heap.{
  Heap, served, load, save, clear_page, mark_slab, take_from, grow, cache_alloc, kfree,
  page_flag_slab, paddr,
}

slab_flag : (f : ℕ) → bit_and (bit_or f 2) 2 ≡ 2
slab_flag f =
    let half : bit_or f 2 / 2 ≡ bit_or (f / 2) 1 = omega (arith, bit_or_step f 2) in
    let odd : bit_or (f / 2) 1 % 2 ≡ 1 = omega (arith, bit_or_step (f / 2) 1) in
    let one = bit_and-one (bit_or (f / 2) 1) in
    let step = bit_and_step (bit_or f 2) 2 in
    let step' = rw half at step in omega (arith, step', one, odd)

cache_alloc-grow :
    (h : Heap) (cachep : ℕ)
    → (h.caches cachep).slabs_partial ≡ []
    → (h.caches cachep).slabs_free ≡ []
    → cache_alloc h cachep ≡ grow h cachep
unfolding cache_alloc
cache_alloc-grow h cachep p f = rw (cache_alloc, p, f) refl

grow-take_from :
    (h : Heap) (cachep phy : ℕ) (s : State)
    → mm_phy_page_alloc h.pages 1 ≡ returned s phy
    → (phy == 0) ≡ false
    → grow h cachep
      ≡ take_from
          (mark_slab
            (record h { pages = s; words = clear_page (kaddr phy) h.words })
            (phy / pgsize)
            cachep)
          cachep
          (some (kaddr phy))
unfolding grow
grow-take_from h cachep phy s found nonzero = rw (grow, found, nonzero) refl

-- `kfree` of an object on the page of a slab.
kfree-slab :
    (h : Heap) (cachep obj f : ℕ)
    → (h.pages.mem_zone.mem_map (paddr obj / pgsize)).flag ≡ bit_or f page_flag_slab
    → h.u (paddr obj / pgsize) ≡ cachep
    → kfree h obj ≡ save h cachep (kmem_cache_free (load h cachep) obj)
unfolding kfree
kfree-slab h cachep obj f flag cache_ = rw (flag, slab_flag f) (rw cache_ refl)

-- Where a cache has no slab with a free object, `kmem_cache_alloc` takes an object within a new
-- page, behind its `struct slab`, and `kfree` of the object, which reads the cache from the page,
-- gives it back to that cache. The sizes of the cache fit a page, and the page that was found is
-- not the first and below 2 ^ 46.
pub kfree-cache_alloc :
    (h : Heap) (cachep phy : ℕ) (s : State)
    → (h.caches cachep).slabs_partial ≡ []
    → (h.caches cachep).slabs_free ≡ []
    → IsSized (load h cachep)
    → 0 < (h.caches cachep).objs_per_page
    → mm_phy_page_alloc h.pages 1 ≡ returned s phy
    → 0 < phy
    → phy < 2 ^ 46
    → phy % pgsize ≡ 0
    → (h' : Heap) × (obj : ℕ) × (cache_alloc h cachep ≡ served h' obj)
      × (kaddr phy + sizeof_slab ≤ obj)
      × (obj + (h.caches cachep).size ≤ kaddr phy + pgsize)
      × (kfree h' obj ≡ save h' cachep (kmem_cache_free (load h' cachep) obj))
unfolding mark_slab
kfree-cache_alloc h cachep phy s p f sized some_ found pos low even =
    let page = kaddr phy in
    let h1 =
      mark_slab (record h { pages = s; words = clear_page page h.words }) (phy / pgsize) cachep in
    let c1 = load h1 cachep in
    let r = kmem_cache_alloc c1 (some page) in
    let sized1 : IsSized c1 = record { pos = sized.pos; fits = sized.fits; few = sized.few } in
    let (behind, within) = kmem_cache_alloc-new c1 page sized1 some_ p f in
    let nonzero : (phy == 0) ≡ false = ground (arith, pos) in
    let frame : paddr r.1 / pgsize ≡ phy / pgsize =
      omega (arith, behind, within, low, even, sized.pos) in
    (
      save h1 cachep r.0,
      r.1,
      cache_alloc-grow h cachep p f ∙ grow-take_from h cachep phy s found nonzero,
      behind,
      within,
      kfree-slab (save h1 cachep r.0) cachep r.1 (s.mem_zone.mem_map (phy / pgsize)).flag
          (rw frame (ground arith)) (rw frame (ground arith)),
    )
