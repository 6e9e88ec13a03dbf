-- ===== src/Slab/Objects.antt =====
-- The free list of a slab, and what allocating and freeing do to it.
use geek_toy_os.Base.{
  ℕ, zero, suc, ◌+◌, ◌-◌, ◌*◌, ◌≤◌, ◌<◌, update, ◌≡◌, ◌≢◌, refl, arith, List, [], ◌∷◌, length, some,
}
use geek_toy_os.Slab.{
  pgsize, sizeof_slab, null, Cache, thread_loop, cache_grow, take_object, kmem_cache_alloc,
}

-- The objects `xs` of the slab at `page`, in list order: each lies in the page behind the
-- `struct slab` and leaves `size` bytes to its end, none is twice on the list, and each holds a
-- pointer to the next.
abbrev pub Absent : ℕ → List ℕ → Type 0
Absent x [] = Unit
Absent x (y ∷ ys) = (x ≢ y) × Absent x ys

abbrev pub IsChain : (words : ℕ → ℕ) → (page size head : ℕ) → List ℕ → Type 0
IsChain words page size head [] = head ≡ null
IsChain words page size head (x ∷ xs) =
    (head ≡ x)
    × (page + sizeof_slab ≤ x)
    × (x + size ≤ page + pgsize)
    × Absent x xs
    × IsChain words page size (words x) xs

-- All entries are at least `b`.
abbrev Above : ℕ → List ℕ → Type 0
Above b [] = Unit
Above b (x ∷ xs) = (b ≤ x) × Above b xs

Absent-of_Above : (x b : ℕ) (xs : List ℕ) → x < b → Above b xs → Absent x xs
Absent-of_Above x b [] h a = tt
Absent-of_Above x b (y ∷ ys) h a = (λ e. omega (arith, a.0), Absent-of_Above x b ys h a.1)

Above-mono : (a b : ℕ) (xs : List ℕ) → a ≤ b → Above b xs → Above a xs
Above-mono a b [] h p = tt
Above-mono a b (x ∷ xs) h p = (omega (arith, p.0), Above-mono a b xs h p.1)

-- A write to an object that is not on the list leaves the list alone.
pub IsChain-update :
    (words : ℕ → ℕ) (page size head o v : ℕ) (xs : List ℕ)
    → Absent o xs
    → IsChain words page size head xs
    → IsChain (update words o v) page size head xs
IsChain-update words page size head o v [] a c = c
IsChain-update words page size head o v (x ∷ xs) a c =
    let kept : update words o v x ≡ words x = ground (arith, a.0) in
    (c.0, c.1, c.2, c.3, rw kept (IsChain-update words page size (words x) o v xs a.1 c.4))

thread_loop-IsChain :
    (left page size obj freelist : ℕ) (words : ℕ → ℕ) (xs : List ℕ)
    → 0 < size
    → page + sizeof_slab + left * size ≤ obj
    → obj ≤ page + pgsize
    → IsChain words page size freelist xs
    → Above obj xs
    → let r = thread_loop left size obj freelist words in
      (ys : List ℕ) × IsChain r.words page size r.head ys × (length ys ≡ left + length xs)
unfolding thread_loop
thread_loop-IsChain zero page size obj freelist words xs pos room top c above = (xs, c, omega arith)
thread_loop-IsChain (suc left) page size obj freelist words xs pos room top c above =
    let out = Absent-of_Above (obj - size) obj xs (omega arith) above in
    let stored : update words (obj - size) freelist (obj - size) ≡ freelist = ground arith in
    let (ys, chain, count) =
      thread_loop-IsChain left page size (obj - size) (obj - size)
        (update words (obj - size) freelist) ((obj - size) ∷ xs) pos (omega arith) (omega arith)
        (
          refl,
          omega arith,
          omega arith,
          out,
          rw stored (IsChain-update words page size freelist (obj - size) freelist xs out c),
        )
        (omega arith, Above-mono (obj - size) obj xs (omega arith) above) in
    (ys, chain, omega (arith, count))

-- The slab at `page` of a cache is in order, with `xs` its free objects.
pub record IsSlab (c : Cache) (page : ℕ) (xs : List ℕ) : Type 0 where
  pub chain : IsChain c.words page c.size (c.slabs page).freelist xs
  pub free : (c.slabs page).free ≡ length xs
  pub all : (c.slabs page).inuse + length xs ≡ c.objs_per_page
  pub few : c.objs_per_page ≤ 512

-- The sizes of a cache fit a page: an object has room for a pointer, as `kmem_init_cache` makes it,
-- and the objects lie behind the `struct slab`.
pub record IsSized (c : Cache) : Type 0 where
  pub pos : 8 ≤ c.size
  pub fits : sizeof_slab + c.objs_per_page * c.size ≤ pgsize
  pub few : c.objs_per_page ≤ 512

-- `cache_grow` makes a slab of `objs_per_page` free objects that are distinct, within the page and
-- clear of its header, whatever the memory held. The objects have eight bytes or more and fit a page
-- behind the header.
pub cache_grow-IsSlab :
    (c : Cache) (page : ℕ)
    → IsSized c
    → (xs : List ℕ) × IsSlab (cache_grow c page) page xs × (length xs ≡ c.objs_per_page)
unfolding cache_grow
cache_grow-IsSlab c page s =
    let (xs, chain, count) =
      thread_loop-IsChain c.objs_per_page page c.size (page + pgsize) null c.words []
        (omega (arith, s.pos)) (omega (arith, s.fits)) (omega arith) refl tt in
    (
      xs,
      record {
        chain = grown xs chain;
        free = ground (arith, count);
        all = ground (arith, count);
        few = s.few;
      },
      omega (arith, count),
    )
  where
    grown :
        (xs : List ℕ)
        → IsChain
            (thread_loop c.objs_per_page c.size (page + pgsize) null c.words).words
            page
            c.size
            (thread_loop c.objs_per_page c.size (page + pgsize) null c.words).head
            xs
        → IsChain (cache_grow c page).words page c.size ((cache_grow c page).slabs page).freelist xs
    grown xs chain =
        let here : (cache_grow c page).slabs page ≡ record {
          freelist = (thread_loop c.objs_per_page c.size (page + pgsize) null c.words).head;
          inuse = 0;
          free = c.objs_per_page;
        } =
          ground arith in
        rw here chain

-- What an allocation takes from a new page lies in the page, behind the `struct slab`.
pub kmem_cache_alloc-new :
    (c : Cache) (page : ℕ)
    → IsSized c
    → 0 < c.objs_per_page
    → c.slabs_partial ≡ []
    → c.slabs_free ≡ []
    → (page + sizeof_slab ≤ (kmem_cache_alloc c (some page)).1)
      × ((kmem_cache_alloc c (some page)).1 + c.size ≤ page + pgsize)
unfolding kmem_cache_alloc take_object cache_grow
kmem_cache_alloc-new c page s some_ p f =
    let (xs, slab, count) = cache_grow-IsSlab c page s in
    rw (p, f) (first xs slab.chain (omega (arith, count, some_)))
  where
    first :
        (xs : List ℕ)
        → IsChain (cache_grow c page).words page c.size ((cache_grow c page).slabs page).freelist xs
        → 0 < length xs
        → (page + sizeof_slab ≤ ((cache_grow c page).slabs page).freelist)
          × (((cache_grow c page).slabs page).freelist + c.size ≤ page + pgsize)
    first [] chain pos = absurd (omega (arith, pos))
    first (x ∷ xs) (head, low, high, _, _) pos =
        (omega (arith, head, low), omega (arith, head, high))
