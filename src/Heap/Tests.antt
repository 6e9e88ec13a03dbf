-- ===== src/Heap/Tests.antt =====
-- The caches of src/kernel/mm/slab.c over the pages of a small machine.
use geek_toy_os.Base.{ℕ, ◌+◌, ◌*◌, ◌≤◌, true, false, [], ◌≡◌, refl, arith}
use geek_toy_os.Buddy.{Zone}
use geek_toy_os.Pages.{
  State, returned, mm_phy_page_alloc, mm_phy_page_free, reserved_mem_alloc,
  reserved_mem_allocator_init, pgsize,
}
use geek_toy_os.Paging.Walk.{kaddr}
use geek_toy_os.Slab.{Cache, sizeof_slab, kmem_cache_free}
use geek_toy_os.Heap.{Heap, served, load, save, cache_alloc, kmalloc_heap, kfree}
use geek_toy_os.Heap.Large.{kfree-kmalloc}
use geek_toy_os.Heap.Objects.{kfree-cache_alloc}

abbrev plain_zone : Zone
plain_zone = record {
  pfn_base = 0;
  nr_pages = 0;
  nr_free_pages = 0;
  mem_map = λ p. record { flag = 0; order = 0 };
  count = λ o. 0;
  free_pages = λ o. [];
}

-- Pages come from the end of the reserved area, after the first `n` of them.
abbrev after_pages : (n : ℕ) → State
after_pages n = record {
  kern_end = 5000;
  mboot_info_end = 6000;
  reserved_end = 8192 + n * 4096;
  phy_addr_limit = 0;
  pfn_max = 20;
  mem_map = record { map = λ i. 0; size = 20 };
  mem_zone = plain_zone;
  reserved_mem_ready = true;
  buddy_mem_ready = false;
  mm_ready = false;
}

abbrev cache_64 : Cache
cache_64 = record {
  size = 64;
  align_size = 8;
  objs_per_page = 63;
  slabs_full = [];
  slabs_partial = [];
  slabs_free = [];
  slabs = λ page. record { freelist = 0; inuse = 0; free = 0 };
  words = λ a. 0;
}

abbrev small_heap : Heap
small_heap = record {
  pages = after_pages 0;
  u = λ p. 0;
  caches = λ c. cache_64;
  mm_kmalloc_caches = λ i. i;
  slabs = cache_64.slabs;
  words = cache_64.words;
}

one_page : mm_phy_page_alloc (after_pages 0) 1 ≡ returned (after_pages 1) 8192
unfolding mm_phy_page_alloc reserved_mem_alloc reserved_mem_allocator_init
one_page = refl

three_pages : mm_phy_page_alloc (after_pages 0) 3 ≡ returned (after_pages 3) 8192
unfolding mm_phy_page_alloc reserved_mem_alloc reserved_mem_allocator_init
three_pages = refl

kfree-kmalloc_example :
    (h' : Heap) × (kmalloc_heap small_heap 10000 ≡ served h' (kaddr 8192))
    × ((kfree h' (kaddr 8192)).pages ≡ mm_phy_page_free (after_pages 3) 8192 3)
kfree-kmalloc_example =
    kfree-kmalloc small_heap 10000 8192 (after_pages 3) (omega arith) (omega arith) three_pages
      (omega arith) refl

kfree-cache_alloc_example :
    (h' : Heap) × (obj : ℕ) × (cache_alloc small_heap 7 ≡ served h' obj)
    × (kaddr 8192 + sizeof_slab ≤ obj)
    × (obj + 64 ≤ kaddr 8192 + pgsize)
    × (kfree h' obj ≡ save h' 7 (kmem_cache_free (load h' 7) obj))
kfree-cache_alloc_example =
    kfree-cache_alloc small_heap 7 8192 (after_pages 1) refl refl
      (record { pos = omega arith; fits = omega arith; few = omega arith }) (omega arith) one_page
      (omega arith) (omega arith) refl
