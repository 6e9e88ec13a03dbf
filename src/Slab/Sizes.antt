-- ===== src/Slab/Sizes.antt =====
-- `kmalloc_size_index` of src/kernel/mm/slab.c against the table of cache sizes.
use geek_toy_os.Base.{
  ℕ, ◌+◌, ◌-◌, ◌≤◌, ◌<◌, Bool, true, ◌&&◌, ◌||◌, ltb, leb, ◌==◌, ◌≡◌, ◌⊎◌, refl, arith, get_or,
  if◌then◌else◌, inl, inr,
}
use geek_toy_os.Base.Bits.{all_below, all_below_sound}
use geek_toy_os.Slab.{kmalloc_sizes, kmalloc_size_index, object, kmalloc}

-- The size of the objects of a cache of `mm_kmalloc_caches`.
abbrev pub cache_size : ℕ → ℕ
cache_size index = get_or kmalloc_sizes index 0

-- The next smaller cache would be too small.
abbrev snug : (size index : ℕ) → Bool
snug size index = index == 0 || ltb (cache_size (index - 1)) size

abbrev index_as_stated : ℕ → Bool
index_as_stated size =
    let index = kmalloc_size_index size in
    ltb index 11
    && leb size (cache_size index)
    && (if ltb 48 size && leb size 64
        then index == 4
        else if ltb 64 size && leb size 128
        then index == 6
        else if ltb 128 size && leb size 192
        then index == 7
        else snug size index)

index_table : all_below 2048 (λ n. index_as_stated (n + 1)) ≡ true
unfolding all_below kmalloc_size_index
index_table = refl

-- The cache has room, and is the smallest that has, but for the sizes from 49 to 192.
pub record IsPicked (size index : ℕ) : Type 0 where
  pub known : index < 11
  pub room : size ≤ cache_size index
  pub least : (size ≤ 48) ⊎ (192 < size) → (index ≡ 0) ⊎ (cache_size (index - 1) < size)
  pub to_96 : 48 < size → size ≤ 64 → index ≡ 4
  pub to_192 : 64 < size → size ≤ 128 → index ≡ 6
  pub to_256 : 128 < size → size ≤ 192 → index ≡ 7

least_of :
    (size index a : ℕ)
    → (if ltb 48 size && leb size 64
        then index == 4
        else if ltb 64 size && leb size 128
        then index == 6
        else if ltb 128 size && leb size 192
        then index == 7
        else index == 0 || ltb a size)
      ≡ true
    → ((size ≤ 48) ⊎ (192 < size) → (index ≡ 0) ⊎ (a < size))
      × (48 < size → size ≤ 64 → index ≡ 4)
      × (64 < size → size ≤ 128 → index ≡ 6)
      × (128 < size → size ≤ 192 → index ≡ 7)
least_of size index a h = (
  λ out. elim out [ inl low ↦ ground (arith, h, low) | inr high ↦ ground (arith, h, high) ],
  λ low high. ground (arith, h, low, high),
  λ low high. ground (arith, h, low, high),
  λ low high. ground (arith, h, low, high),
)

and_parts : (p q r : Bool) → (p && q && r) ≡ true → (p ≡ true) × (q ≡ true) × (r ≡ true)
and_parts p q r h = ground (arith, h)

-- `kmalloc` of a size from 1 to 2048 bytes takes an object of one of the eleven caches, whose
-- objects hold the size. The cache is the smallest that does, but for sizes from 49 to 64, which
-- go to the objects of 96 bytes, for those from 65 to 128, which go to those of 192, and for those
-- from 129 to 192, which go to those of 256.
pub kmalloc_lem :
    (size : ℕ)
    → 1 ≤ size
    → size ≤ 2048
    → (kmalloc size ≡ object (kmalloc_size_index size)) × IsPicked size (kmalloc_size_index size)
unfolding kmalloc
kmalloc_lem size low high =
    let at : size - 1 + 1 ≡ size = omega arith in
    let fact : index_as_stated size ≡ true =
      rw at at (
        all_below_sound 2048 (λ n. index_as_stated (n + 1)) (size - 1) index_table (omega arith)) in
    let index = kmalloc_size_index size in
    let (known, room, rest) = and_parts (ltb index 11) (leb size (cache_size index)) _ fact in
    let (least, to_96, to_192, to_256) = least_of size index (cache_size (index - 1)) rest in
    (
      ground (arith, low, high),
      record {
        known = ground (arith, known);
        room = ground (arith, room);
        least = least;
        to_96 = to_96;
        to_192 = to_192;
        to_256 = to_256;
      },
    )
