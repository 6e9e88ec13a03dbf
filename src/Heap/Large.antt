-- ===== src/Heap/Large.antt =====
-- `kmalloc` and `kfree` of whole pages.
use geek_toy_os.Base.{
  ℕ, ◌+◌, ◌/◌, ◌^◌, ◌<◌, bit_and, true, false, ltb, ◌==◌, update, align, ◌≡◌, refl, arith,
}
use geek_toy_os.Pages.{State, returned, mm_phy_page_alloc, mm_phy_page_free, pgsize}
use geek_toy_os.Paging.Walk.{kaddr}
use geek_toy_os.Heap.{Heap, served, kmalloc_heap, kmalloc_large, kfree, page_flag_slab, paddr}

paddr-kaddr : (addr : ℕ) → addr < 2 ^ 64 → paddr (kaddr addr) ≡ addr
paddr-kaddr addr low = ground (arith, low)

-- Whole pages: `kmalloc` of more than 2048 bytes takes as many pages as hold the size, and `kfree`
-- of the address that it returns gives back exactly those to `mm_phy_page_free`. The pages that
-- were found are no slab's.
pub kfree-kmalloc :
    (h : Heap) (size phy : ℕ) (s : State)
    → 2048 < size
    → size < 2 ^ 63
    → mm_phy_page_alloc h.pages ((size + 4095) / pgsize) ≡ returned s phy
    → phy < 2 ^ 64
    → bit_and (s.mem_zone.mem_map (phy / pgsize)).flag page_flag_slab ≡ 0
    → (h' : Heap) × (kmalloc_heap h size ≡ served h' (kaddr phy))
      × ((kfree h' (kaddr phy)).pages ≡ mm_phy_page_free s phy ((size + 4095) / pgsize))
unfolding kmalloc_heap kmalloc_large kfree
kfree-kmalloc h size phy s large small found low plain =
    let n = (size + 4095) / pgsize in
    let pages : align size pgsize / pgsize ≡ n = omega (arith, small) in
    let h' : Heap = record h { pages = s; u = update h.u (phy / pgsize) n } in
    let zero_ : (size == 0) ≡ false = ground (arith, large) in
    let big : ltb 2048 size ≡ true = ground (arith, large) in
    (
      h',
      rw (zero_, big, kmalloc_large, pages, found) (rw pages refl),
      rw (paddr-kaddr phy low, plain) (ground arith),
    )
