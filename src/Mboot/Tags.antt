-- ===== src/Mboot/Tags.antt =====
-- The tags of the boot information in the layout of the Multiboot specification, and what the loops
-- over them and over the memory map find.
use geek_toy_os.Base.{
  ℕ, zero, suc, ◌+◌, ◌-◌, ◌*◌, ◌/◌, ◌%◌, ◌^◌, ◌≤◌, ◌<◌, bit_and, true, false, ltb, ◌==◌,
  if◌then◌else◌, u32, u64, ◌≡◌, ◌≢◌, refl, arith, Bool-cases, inl, inr, some, List, [], ◌∷◌, length,
  low_mask, high_mask,
}
use geek_toy_os.MemOps.{Mem}
use geek_toy_os.Apic.{read_u32}
use geek_toy_os.Pages.{MmapEntry}
use geek_toy_os.Mboot.{
  null, multiboot_tag_type_end, tag_type, tag_size, next_tag, find_tag, mboot_get_mboot_info,
  read_mmap, mmap_loop, for_mmap,
}

-- From `tag` on stand tags with these addresses and types, each on a multiple of eight bytes from
-- the one before, and then one of type 0.
pub data IsTags (m : Mem) : (tag : ℕ) → List (ℕ × ℕ) → Type 0 where
  last : {tag : ℕ} → tag_type m tag ≡ multiboot_tag_type_end → IsTags m tag []
  more :
      {tag a type : ℕ} {tags : List (ℕ × ℕ)}
      → a ≡ tag
      → tag_type m tag ≡ type
      → type ≢ multiboot_tag_type_end
      → tag_size m tag + 7 < 2 ^ 32
      → tag + tag_size m tag + 8 ≤ 2 ^ 64
      → IsTags m (tag + (tag_size m tag + 7) / 8 * 8) tags
      → IsTags m tag ((a, type) ∷ tags)

-- The address of the first tag of a type, or NULL.
pub first_of : (type : ℕ) → List (ℕ × ℕ) → ℕ
first_of type [] = null
first_of type ((tag, t) ∷ tags) = let rest = first_of type tags in if t == type then tag else rest

rounded : (n : ℕ) → n < 2 ^ 32 → bit_and (u32 n) (2 ^ 32 - 8) ≡ n / 8 * 8
rounded n h =
    let whole : u32 n ≡ n = omega (arith, h) in
    let high : bit_and n ((2 ^ 29 - 1) * 2 ^ 3) ≡ bit_and (n / 2 ^ 3) (2 ^ 29 - 1) * 2 ^ 3 =
      high_mask 3 n (2 ^ 29 - 1) in
    let low : bit_and (n / 2 ^ 3) (2 ^ 29 - 1) ≡ n / 2 ^ 3 % 2 ^ 29 = low_mask 29 (n / 2 ^ 3) in
    rw whole (rw high (rw low (omega (arith, h))))

next_tag-eq :
    (m : Mem) (tag : ℕ)
    → tag_size m tag + 7 < 2 ^ 32
    → tag + tag_size m tag + 8 ≤ 2 ^ 64
    → next_tag m tag ≡ tag + (tag_size m tag + 7) / 8 * 8
unfolding next_tag
next_tag-eq m tag h top = rw (rounded (tag_size m tag + 7) h) (omega (arith, top))

find_tag-first_of :
    (m : Mem) (type : ℕ) (tags : List (ℕ × ℕ)) (fuel tag : ℕ)
    → IsTags m tag tags
    → length tags < fuel
    → find_tag fuel m tag type ≡ some (first_of type tags)
unfolding find_tag first_of
find_tag-first_of m type tags zero tag h enough = absurd (omega (arith, enough))
find_tag-first_of m type [] (suc fuel) tag (IsTags.last e) enough = rw e refl
find_tag-first_of m type ((a, t) ∷ tags) (suc fuel) tag (IsTags.more at e ne small top rest)
      enough =
    let ih =
      find_tag-first_of m type tags fuel (tag + (tag_size m tag + 7) / 8 * 8) rest
        (omega (arith, enough)) in
    let busy : (t == 0) ≡ false = ground (arith, ne) in
    rw (e, busy, next_tag-eq m tag small top, at)
      (elim (Bool-cases (t == type)) [ inl here ↦ rw here refl | inr other ↦ rw other ih ])

-- `mboot_get_mboot_info` returns the first tag of the type asked for, or NULL when the boot
-- information has none, after as many rounds as it has tags and one. The tags stand in the layout
-- of the specification, up to one of type 0, below the top of the addresses.
pub mboot_get_mboot_info-first_of :
    (m : Mem) (mboot_info type fuel : ℕ) (tags : List (ℕ × ℕ))
    → mboot_info + 8 < 2 ^ 64
    → IsTags m (mboot_info + 8) tags
    → length tags < fuel
    → mboot_get_mboot_info fuel m mboot_info type ≡ some (first_of type tags)
unfolding mboot_get_mboot_info
mboot_get_mboot_info-first_of m mboot_info type fuel tags top h enough =
    let whole : u64 (mboot_info + 8) ≡ mboot_info + 8 = omega (arith, top) in
    rw whole (find_tag-first_of m type tags fuel (mboot_info + 8) h enough)

-- The `n` entries of a memory map, `size` bytes from one to the next.
pub entries_from : Mem → (n size mmap : ℕ) → List MmapEntry
entries_from m zero size mmap = []
entries_from m (suc n) size mmap = read_mmap m mmap ∷ entries_from m n size (mmap + size)

mmap_loop-entries :
    (m : Mem) (tag : ℕ) (n fuel mmap : ℕ)
    → 0 < read_u32 m (tag + 8)
    → tag + tag_size m tag < 2 ^ 63
    → read_u32 m (tag + 8) < 2 ^ 32
    → mmap + n * read_u32 m (tag + 8) ≡ tag + tag_size m tag
    → n < fuel
    → mmap_loop fuel m tag mmap ≡ entries_from m n (read_u32 m (tag + 8)) mmap
unfolding mmap_loop entries_from
mmap_loop-entries m tag n zero mmap pos top word end_ enough = absurd (omega (arith, enough))
mmap_loop-entries m tag zero (suc fuel) mmap pos top word end_ enough =
    let stop : ltb mmap (u64 (tag + tag_size m tag)) ≡ false = ground (arith, end_, top) in
    rw stop refl
mmap_loop-entries m tag (suc n) (suc fuel) mmap pos top word end_ enough =
    let size = read_u32 m (tag + 8) in
    let left : mmap + size + n * size ≡ tag + tag_size m tag = grind (arith, end_) in
    let go : ltb mmap (u64 (tag + tag_size m tag)) ≡ true = ground (arith, left, pos, top) in
    let step : u64 (mmap + size) ≡ mmap + size = omega (arith, left, top) in
    rw (go, step)
      (rw (mmap_loop-entries m tag n fuel (mmap + size) pos top word left (omega (arith, enough)))
        refl)

-- `for_mmap` visits the entries of the memory map one by one and ends, where the tag's size is that
-- of `n` entries behind its head of 16 bytes and an entry is not empty.
pub for_mmap-entries :
    (m : Mem) (tag n fuel : ℕ)
    → 0 < read_u32 m (tag + 8)
    → read_u32 m (tag + 8) < 2 ^ 32
    → tag + tag_size m tag < 2 ^ 63
    → tag_size m tag ≡ 16 + n * read_u32 m (tag + 8)
    → n < fuel
    → for_mmap fuel m tag ≡ entries_from m n (read_u32 m (tag + 8)) (tag + 16)
unfolding for_mmap
for_mmap-entries m tag n fuel pos word top size enough =
    mmap_loop-entries m tag n fuel (tag + 16) pos top word (omega (arith, size)) enough
