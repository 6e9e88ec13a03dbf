-- ===== src/Slab/Tests.antt =====
-- The caches of src/kernel/mm/slab.c on concrete pages.
use geek_toy_os.Base.{ℕ, ◌≡◌, arith, refl, List, [], ◌∷◌, length, none}
use geek_toy_os.Slab.{
  Cache, cache_grow, kmem_cache_alloc, kmem_cache_free, kmalloc, kmalloc_size_index, object,
}
use geek_toy_os.Slab.Objects.{IsSlab, cache_grow-IsSlab}
use geek_toy_os.Slab.Cycle.{
  kmem_cache_alloc-IsSlab, kmem_cache_free-IsSlab, kmem_cache_free-kept_full,
}
use geek_toy_os.Slab.Sizes.{IsPicked, kmalloc_lem}

-- A cache of objects of 1024 bytes, three to a page; of its page at 8192 two are in use, and the
-- one at 9216 is free.
abbrev one_free : Cache
one_free = record {
  size = 1024;
  align_size = 8;
  objs_per_page = 3;
  slabs_full = [];
  slabs_partial = 8192 ∷ [];
  slabs_free = [];
  slabs = λ page. record { freelist = 9216; inuse = 2; free = 1 };
  words = λ a. 0;
}

one_free-IsSlab : IsSlab one_free 8192 (9216 ∷ [])
one_free-IsSlab = record {
  chain = (refl, omega arith, omega arith, tt, refl);
  free = refl;
  all = refl;
  few = omega arith;
}

cache_grow_example : (xs : List ℕ) × IsSlab (cache_grow one_free 12288) 12288 xs × (length xs ≡ 3)
cache_grow_example =
    cache_grow-IsSlab one_free 12288
      (record { pos = omega arith; fits = omega arith; few = omega arith })

kmem_cache_alloc_example :
    ((kmem_cache_alloc one_free none).1 ≡ 9216)
    × IsSlab (kmem_cache_alloc one_free none).0 8192 []
    × ((kmem_cache_alloc one_free none).0.slabs_partial ≡ [])
    × ((kmem_cache_alloc one_free none).0.slabs_full ≡ 8192 ∷ [])
kmem_cache_alloc_example =
    kmem_cache_alloc-IsSlab one_free none 8192 9216 [] [] one_free-IsSlab refl

kmem_cache_free_example : IsSlab (kmem_cache_free one_free 10240) 8192 (10240 ∷ 9216 ∷ [])
kmem_cache_free_example =
    kmem_cache_free-IsSlab one_free 8192 10240 (9216 ∷ []) refl (omega arith) one_free-IsSlab
      (omega arith) (omega arith) (λ e. absurd (omega (arith, e)), tt) (omega arith)

kmem_cache_free-kept_full_example :
    let d = kmem_cache_free (kmem_cache_alloc one_free none).0 (kmem_cache_alloc one_free none).1 in
    IsSlab d 8192 (9216 ∷ []) × (d.slabs_full ≡ 8192 ∷ []) × (d.slabs_partial ≡ [])
kmem_cache_free-kept_full_example =
    kmem_cache_free-kept_full one_free none 8192 9216 [] refl (omega arith) one_free-IsSlab refl
      (omega arith)

kmalloc_example :
    (kmalloc 100 ≡ object (kmalloc_size_index 100)) × IsPicked 100 (kmalloc_size_index 100)
kmalloc_example = kmalloc_lem 100 (omega arith) (omega arith)
