-- ===== src/Slab/Cycle.antt =====
-- `kmem_cache_alloc` and `kmem_cache_free` of src/kernel/mm/slab.c on a slab in order.
use geek_toy_os.Base.{
  ℕ, ◌+◌, ◌-◌, ◌%◌, ◌≤◌, ◌<◌, false, ◌==◌, if◌then◌else◌, update, u32, sub32, align_down, ◌≡◌, refl,
  arith, inl, inr, ◌∙◌, List, [], ◌∷◌, length, Bool-cases, Option,
}
use geek_toy_os.Slab.{
  pgsize, sizeof_slab, Cache, unlink, take_object, kmem_cache_alloc, kmem_cache_free,
}
use geek_toy_os.Slab.Objects.{Absent, IsChain, IsChain-update, IsSlab}

-- The head of `slabs_partial` after one of its slabs gave an object and has `left` free ones.
abbrev kept_partial : (left page : ℕ) → List ℕ → List ℕ
kept_partial left page rest = if left == 0 then rest else page ∷ rest

abbrev kept_full : (left page : ℕ) → List ℕ → List ℕ
kept_full left page full = if left == 0 then page ∷ full else full

unlink_head : (p : ℕ) (rest : List ℕ) → unlink p (p ∷ rest) ≡ rest
unfolding unlink
unlink_head p rest = ground arith

-- `IsSlab` from the parts of a cache.
IsSlab-parts :
    (d : Cache) (page size objs freelist inuse free : ℕ) (words : ℕ → ℕ) (xs : List ℕ)
    → d.slabs page ≡ record { freelist = freelist; inuse = inuse; free = free }
    → d.words ≡ words
    → d.size ≡ size
    → d.objs_per_page ≡ objs
    → IsChain words page size freelist xs
    → (free ≡ length xs) × (inuse + length xs ≡ objs) × (objs ≤ 512)
    → IsSlab d page xs
IsSlab-parts d page size objs freelist inuse free words xs here mem sz count chain (n, a, f) =
    record {
      chain = rw here (rw mem (rw sz chain));
      free = rw here n;
      all = rw here (rw count a);
      few = rw count f;
    }

take_object_lem :
    (c : Cache) (page x : ℕ) (xs rest : List ℕ)
    → IsSlab c page (x ∷ xs)
    → c.slabs_partial ≡ page ∷ rest
    → let r = take_object c page in
      (r.1 ≡ x)
      × IsSlab r.0 page xs
      × (r.0.slabs_partial ≡ kept_partial (length xs) page rest)
      × (r.0.slabs_full ≡ kept_full (length xs) page c.slabs_full)
unfolding take_object
take_object_lem c page x xs rest s first =
    let (head, low, high, out, chain) = s.chain in
    let left : sub32 (c.slabs page).free 1 ≡ length xs = omega (arith, s.free, s.all, s.few) in
    let one : u32 ((c.slabs page).inuse + 1) ≡ (c.slabs page).inuse + 1 =
      omega (arith, s.all, s.few) in
    let sums : (length xs ≡ length xs)
        × ((c.slabs page).inuse + 1 + length xs ≡ c.objs_per_page)
        × (c.objs_per_page ≤ 512) =
      omega (arith, s.all, s.few) in
    let next : IsChain c.words page c.size (c.words (c.slabs page).freelist) xs = rw head chain in
    let cell : update c.slabs page
          (record {
            freelist = c.words (c.slabs page).freelist;
            inuse = (c.slabs page).inuse + 1;
            free = length xs;
          })
          page
        ≡ record {
          freelist = c.words (c.slabs page).freelist;
          inuse = (c.slabs page).inuse + 1;
          free = length xs;
        } =
      ground arith in
    rw left (
      rw one (elim (Bool-cases (length xs == 0)) [
        | inl full ↦ rw full (
          head,
          IsSlab-parts _ page c.size c.objs_per_page _ _ _ c.words xs cell refl refl refl next sums,
          rw first (unlink_head page rest),
          refl,
        )
        | inr some_left ↦ rw some_left (
          head,
          IsSlab-parts _ page c.size c.objs_per_page _ _ _ c.words xs cell refl refl refl next sums,
          first,
          refl,
        )
      ]))

front_lem :
    {A : Type 0} (slabs : List ℕ) (page : ℕ) (rest : List ℕ) (f : ℕ → A) (z : A)
    → slabs ≡ page ∷ rest
    → (elim slabs [ slab ∷ _ ↦ f slab | [] ↦ z ]) ≡ f page
front_lem slabs page rest f z first = rw first refl

alloc_from_partial :
    (c : Cache) (fresh : Option ℕ) (page : ℕ) (rest : List ℕ)
    → c.slabs_partial ≡ page ∷ rest
    → kmem_cache_alloc c fresh ≡ take_object c page
unfolding kmem_cache_alloc
alloc_from_partial c fresh page rest first =
    front_lem c.slabs_partial page rest (take_object c) _ first

-- When the first partial slab has free objects, `kmem_cache_alloc` returns the first of them and
-- leaves the slab in order with the others; the slab moves to `slabs_full` exactly when none is
-- left.
pub kmem_cache_alloc-IsSlab :
    (c : Cache) (fresh : Option ℕ) (page x : ℕ) (xs rest : List ℕ)
    → IsSlab c page (x ∷ xs)
    → c.slabs_partial ≡ page ∷ rest
    → let r = kmem_cache_alloc c fresh in
      (r.1 ≡ x)
      × IsSlab r.0 page xs
      × (r.0.slabs_partial ≡ kept_partial (length xs) page rest)
      × (r.0.slabs_full ≡ kept_full (length xs) page c.slabs_full)
kmem_cache_alloc-IsSlab c fresh page x xs rest s first =
    rw (alloc_from_partial c fresh page rest first) (take_object_lem c page x xs rest s first)

in_page :
    (page o size : ℕ)
    → page % pgsize ≡ 0
    → page ≤ o
    → o < page + pgsize
    → align_down o pgsize ≡ page
in_page page o size h low high = omega (arith, h)

-- `kmem_cache_free` of an object of a slab in order, one that is in use, puts it first on the
-- slab's free list and keeps the slab in order.
pub kmem_cache_free-IsSlab :
    (c : Cache) (page o : ℕ) (xs : List ℕ)
    → page % pgsize ≡ 0
    → 0 < c.size
    → IsSlab c page xs
    → page + sizeof_slab ≤ o
    → o + c.size ≤ page + pgsize
    → Absent o xs
    → length xs < c.objs_per_page
    → IsSlab (kmem_cache_free c o) page (o ∷ xs)
unfolding kmem_cache_free
kmem_cache_free-IsSlab c page o xs even pos s low high out used =
    let at = in_page page o c.size even (omega arith) (omega arith) in
    let less : sub32 (c.slabs page).inuse 1 ≡ (c.slabs page).inuse - 1 =
      omega (arith, s.all, s.few) in
    let more : u32 ((c.slabs page).free + 1) ≡ (c.slabs page).free + 1 =
      omega (arith, s.free, s.all, s.few) in
    let sums : ((c.slabs page).free + 1 ≡ length (o ∷ xs))
        × ((c.slabs page).inuse - 1 + length (o ∷ xs) ≡ c.objs_per_page)
        × (c.objs_per_page ≤ 512) =
      omega (arith, s.all, s.few, s.free) in
    let stored : update c.words o (c.slabs page).freelist o ≡ (c.slabs page).freelist =
      ground arith in
    let chain : IsChain (update c.words o (c.slabs page).freelist) page c.size o (o ∷ xs) = (
      refl,
      low,
      high,
      out,
      rw stored (
          IsChain-update c.words page c.size (c.slabs page).freelist o (c.slabs page).freelist xs
            out s.chain),
    ) in
    let cell : update c.slabs page
          (record {
            freelist = o;
            inuse = (c.slabs page).inuse - 1;
            free = (c.slabs page).free + 1;
          })
          page
        ≡ record {
          freelist = o;
          inuse = (c.slabs page).inuse - 1;
          free = (c.slabs page).free + 1;
        } =
      ground arith in
    rw at (
      rw less (
        rw more (elim (Bool-cases ((c.slabs page).inuse - 1 == 0)) [
          | inl empty ↦ rw empty (
              IsSlab-parts _ page c.size c.objs_per_page _ _ _ _ (o ∷ xs) cell refl refl refl chain
                sums)
          | inr busy ↦ rw busy (
              IsSlab-parts _ page c.size c.objs_per_page _ _ _ _ (o ∷ xs) cell refl refl refl chain
                sums)
        ])))

free_kept :
    (c : Cache) (page o : ℕ)
    → align_down o pgsize ≡ page
    → 2 ≤ (c.slabs page).inuse
    → (c.slabs page).inuse ≤ 512
    → ((kmem_cache_free c o).slabs_full ≡ c.slabs_full)
      × ((kmem_cache_free c o).slabs_partial ≡ c.slabs_partial)
unfolding kmem_cache_free
free_kept c page o at busy few =
    let more : (sub32 (c.slabs page).inuse 1 == 0) ≡ false = ground arith in
    rw at (rw more (refl, refl))

-- Taking the last free object of the first partial slab and giving it back: the slab is in order
-- with that object free again, yet it stands on `slabs_full` and no longer on `slabs_partial`, if
-- it has at least two objects: `kmem_cache_free` moves only slabs that get empty.
pub kmem_cache_free-kept_full :
    (c : Cache) (fresh : Option ℕ) (page x : ℕ) (rest : List ℕ)
    → page % pgsize ≡ 0
    → 0 < c.size
    → IsSlab c page (x ∷ [])
    → c.slabs_partial ≡ page ∷ rest
    → 2 ≤ c.objs_per_page
    → let d = kmem_cache_free (kmem_cache_alloc c fresh).0 (kmem_cache_alloc c fresh).1 in
      IsSlab d page (x ∷ []) × (d.slabs_full ≡ page ∷ c.slabs_full) × (d.slabs_partial ≡ rest)
kmem_cache_free-kept_full c fresh page x rest even pos s first two =
    let (head, low, high, out, chain) = s.chain in
    let (got, slab, partial, full) = kmem_cache_alloc-IsSlab c fresh page x [] rest s first in
    let (size, count) = sizes in
    let at = in_page page x c.size even (omega arith) (omega arith) in
    let (f, p) =
      free_kept (kmem_cache_alloc c fresh).0 page x at (omega (arith, slab.all, count))
        (omega (arith, slab.all, slab.few)) in
    rw got (
      kmem_cache_free-IsSlab (kmem_cache_alloc c fresh).0 page x [] even (omega (arith, size)) slab
          low (omega (arith, size)) tt (omega (arith, count)),
      f ∙ full,
      p ∙ partial,
    )
  where
    sizes :
        ((kmem_cache_alloc c fresh).0.size ≡ c.size)
        × ((kmem_cache_alloc c fresh).0.objs_per_page ≡ c.objs_per_page)
    sizes = rw (alloc_from_partial c fresh page rest first) (unfold take_object in ground arith)
