-- ===== src/Slab.antt =====
-- src/kernel/mm/slab.c: object caches over pages of the buddy allocator. Addresses are kernel
-- virtual addresses; `words` is the memory that the free lists are threaded through, a pointer
-- per object, which has eight bytes at least; a `struct slab` is kept by the address of its page. The three lists of a cache hold
-- slabs, first entry first; the locks are in `Spinlock`.
pub mod Sizes
pub mod Objects
pub mod Cycle
mod Tests
use geek_toy_os.Base.{
  ℕ, zero, suc, ◌+◌, ◌-◌, ◌*◌, ◌/◌, ◌%◌, ◌^◌, min, bit_and, Bool, true, false, not, ◌&&◌, ◌||◌, ltb,
  leb, ◌==◌, if◌then◌else◌, update, u32, sub32, align, align_down, Option, none, some, List, [],
  ◌∷◌, ◌++◌, get_or,
}

abbrev pub pgsize : ℕ
pgsize = 4096

-- `sizeof(struct slab)` on x86_64: a list node, a pointer, two `u32` and two pointers.
abbrev pub sizeof_slab : ℕ
sizeof_slab = 48

abbrev pub null : ℕ
null = 0

pub record SlabInfo : Type 0 where
  pub freelist : ℕ
  pub inuse : ℕ
  pub free : ℕ

-- The fields of `struct kmem_cache` that the allocator reads, and the memory that it works on.
pub record Cache : Type 0 where
  pub size : ℕ
  pub align_size : ℕ
  pub objs_per_page : ℕ
  pub slabs_full : List ℕ
  pub slabs_partial : List ℕ
  pub slabs_free : List ℕ
  pub slabs : ℕ → SlabInfo
  pub words : ℕ → ℕ

-- `kmem_init_cache`; the name and the lock are left out.
pub kmem_init_cache : (words : ℕ → ℕ) → (slabs : ℕ → SlabInfo) → (size align_size : ℕ) → Cache
kmem_init_cache words slabs size align_size =
    let align_size' = if ltb align_size 8 then 8 else align_size in
    let size' = align size align_size' in
    record {
      size = size';
      align_size = align_size';
      objs_per_page = min ((pgsize - sizeof_slab) / size') 512;
      slabs_full = [];
      slabs_partial = [];
      slabs_free = [];
      slabs = slabs;
      words = words;
    }

-- The loop of `cache_grow`: `left` objects to go, `obj` the last one made, `freelist` the head.
pub record Chain : Type 0 where
  pub head : ℕ
  pub words : ℕ → ℕ

pub thread_loop : (left size obj freelist : ℕ) → (words : ℕ → ℕ) → Chain
thread_loop zero size obj freelist words = record { head = freelist; words = words }
thread_loop (suc left) size obj freelist words =
    thread_loop left size (obj - size) (obj - size) (update words (obj - size) freelist)

-- `cache_grow`, on the page that `mm_phy_page_zalloc` hands out, at address `page`.
pub cache_grow : Cache → (page : ℕ) → Cache
cache_grow c page =
    let chain = thread_loop c.objs_per_page c.size (page + pgsize) null c.words in
    record c {
      slabs =
          update c.slabs page (record { freelist = chain.head; inuse = 0; free = c.objs_per_page });
      words = chain.words;
    }

-- `list_remove`, of a slab that is on the list.
pub unlink : ℕ → List ℕ → List ℕ
unlink p [] = []
unlink p (q ∷ qs) = if p == q then qs else q ∷ unlink p qs

-- The part of `kmem_cache_alloc` after the slab is chosen; it stands first in `slabs_partial`.
pub take_object : Cache → (slab : ℕ) → Cache × ℕ
take_object c slab =
    let info = c.slabs slab in
    let obj = info.freelist in
    let free = sub32 info.free 1 in
    let c' = record c {
      slabs =
          update c.slabs slab
            (record { freelist = c.words obj; inuse = u32 (info.inuse + 1); free = free });
    } in
    (
      (if free == 0
          then record c' {
            slabs_partial = unlink slab c'.slabs_partial;
            slabs_full = slab ∷ c'.slabs_full;
          }
          else c'),
      obj,
    )

-- `kmem_cache_alloc`; `fresh` is the page that `mm_phy_page_zalloc` would hand out, or `none`.
pub kmem_cache_alloc : Cache → (fresh : Option ℕ) → Cache × ℕ
kmem_cache_alloc c fresh = elim c.slabs_partial [
  | slab ∷ _ ↦ take_object c slab
  | [] ↦ elim c.slabs_free [
    | slab ∷ rest ↦ take_object (record c { slabs_free = rest; slabs_partial = slab ∷ [] }) slab
    | [] ↦ elim fresh [
      | none ↦ (c, null)
      | some page ↦ take_object (record (cache_grow c page) { slabs_partial = page ∷ [] }) page
    ]
  ]
]

-- `kmem_cache_free`. `list_move` takes the slab off whichever list it is on.
pub kmem_cache_free : Cache → (obj : ℕ) → Cache
kmem_cache_free c obj =
    let slab = align_down obj pgsize in
    let info = c.slabs slab in
    let inuse = sub32 info.inuse 1 in
    let c' = record c {
      words = update c.words obj info.freelist;
      slabs =
          update c.slabs slab
            (record { freelist = obj; inuse = inuse; free = u32 (info.free + 1) });
    } in
    if inuse == 0
    then record c' {
      slabs_full = unlink slab c'.slabs_full;
      slabs_partial = unlink slab c'.slabs_partial;
      slabs_free = slab ∷ unlink slab c'.slabs_free;
    }
    else c'

-- `kmalloc_infos`
abbrev pub kmalloc_sizes : List ℕ
kmalloc_sizes = 8 ∷ 16 ∷ 32 ∷ 64 ∷ 96 ∷ 128 ∷ 192 ∷ 256 ∷ 512 ∷ 1024 ∷ 2048 ∷ []

-- The state of the search of `kmalloc_size_index`.
pub record Search : Type 0 where
  pub fls : ℕ
  pub size : ℕ

abbrev pub narrow : (mask shift : ℕ) → Search → Search
narrow mask shift s =
    if bit_and s.size mask == 0
    then s
    else record { fls = s.fls + shift; size = s.size / 2 ^ shift }

-- `kmalloc_size_index`, for sizes from 1 to 2048.
pub kmalloc_size_index : ℕ → ℕ
kmalloc_size_index size =
    let s0 : Search = record { fls = 1; size = align size 8 - 1 } in
    let s1 = narrow 0xc 2 (narrow 0xf0 4 (narrow 0xff00 8 s0)) in
    let last2bit = s1.size in
    let fls = (narrow 0x2 1 s1).fls in
    let index = fls - 3 in
    let index' =
      if (fls == 6 || fls == 7) && not (bit_and last2bit 1 == 0) then index + 1 else index in
    if fls == 7 then index' + 1 else if ltb 7 fls then index' + 2 else index'

-- What `kmalloc` does: no memory for size 0, whole pages for large sizes, else an object of a cache.
pub data Request : Type 0 where
  nothing : Request
  pages : ℕ → Request
  object : (index : ℕ) → Request

pub kmalloc : ℕ → Request
kmalloc size =
    if size == 0
    then nothing
    else if ltb 2048 size
    then pages (align size pgsize / pgsize)
    else object (kmalloc_size_index size)
