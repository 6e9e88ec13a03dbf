-- ===== src/Pages/Frames.antt =====
-- `mem_map_init`, `mm_phy_page_alloc` and `mm_phy_page_free` of src/kernel/mm/memory.c on the
-- bitmap of the page frames.
use geek_toy_os.Base.{
  ℕ, ◌+◌, ◌*◌, ◌/◌, ◌%◌, ◌^◌, ◌≤◌, ◌<◌, max, Bool, false, ◌&&◌, ◌||◌, ltb, leb, if◌then◌else◌, u64,
  sub64, align, div_round_up, ◌≡◌, refl, arith, Bool-cases, inl, inr, ◌∙◌, List, [], ◌∷◌,
}
use geek_toy_os.MemOps.{Mem}
use geek_toy_os.Bitmap.{Bitmap, bitmap_init, bitmap_set}
use geek_toy_os.Bitmap.Byte.{bit_at}
use geek_toy_os.Bitmap.Set.{bitmap_set_lem, bitmap_set-size}
use geek_toy_os.Pages.{
  pgsize, mem_page_avail, mem_page_used, MmapEntry, State, reserved_mem_allocator_init,
  reserved_mem_alloc, find_limit, release_entry, release_entries, mem_map_init,
}

-- The frame lies whole in the entry, which is available, and behind the reserved area.
unfoldable pub usable : (reserved_end : ℕ) → MmapEntry → (i : ℕ) → Bool
usable reserved_end e i =
    e.available
    && leb reserved_end (i * 4096)
    && leb e.addr (i * 4096)
    && leb (i * 4096 + 4096) (e.addr + e.len)

unfoldable pub any_usable : (reserved_end : ℕ) → List MmapEntry → (i : ℕ) → Bool
any_usable reserved_end [] i = false
any_usable reserved_end (e ∷ es) i = usable reserved_end e i || any_usable reserved_end es i

-- The entries start on a page boundary and do not wrap.
abbrev pub AreAligned : List MmapEntry → Type 0
AreAligned [] = Unit
AreAligned (e ∷ es) = (e.addr % 4096 ≡ 0) × (e.addr + e.len < 2 ^ 64) × AreAligned es

release_entry-size :
    (reserved_end : ℕ) (e : MmapEntry) (b : Bitmap) → (release_entry reserved_end e b).size ≡ b.size
unfolding release_entry
release_entry-size reserved_end e b = grind (arith, bitmap_set-size)

release_entry_lem :
    (reserved_end : ℕ) (e : MmapEntry) (b : Bitmap) (i : ℕ)
    → reserved_end % 4096 ≡ 0
    → reserved_end < 2 ^ 64
    → e.addr % 4096 ≡ 0
    → e.addr + e.len < 2 ^ 64
    → b.size + 8 ≤ 2 ^ 64
    → bit_at (release_entry reserved_end e b).map i
      ≡ (if usable reserved_end e i && ltb i b.size then 0 else bit_at b.map i)
unfolding release_entry usable
release_entry_lem reserved_end e b i page low even flat small = elim (Bool-cases e.available) [
  | inr not_free ↦ rw not_free refl
  | inl free ↦ elim (Bool-cases (leb (u64 (e.addr + e.len)) reserved_end)) [
    | inl behind ↦ rw free (rw behind (ground (arith, behind)))
    | inr beyond ↦ elim (Bool-cases (ltb e.addr reserved_end)) [
      | inl cut ↦ rw free (
          rw beyond (
            rw cut (
              bitmap_set_lem b mem_page_avail (reserved_end / pgsize)
                (sub64 (u64 (e.addr + e.len)) reserved_end / pgsize) i small (omega arith)
              ∙ ground (arith, cut, beyond))))
      | inr whole ↦ rw free (
          rw beyond (
            rw whole (
              bitmap_set_lem b mem_page_avail (e.addr / pgsize) (e.len / pgsize) i small
                (omega arith)
              ∙ ground (arith, whole, beyond))))
    ]
  ]
]

release_entries_lem :
    (reserved_end : ℕ) (es : List MmapEntry) (b : Bitmap) (i : ℕ)
    → reserved_end % 4096 ≡ 0
    → reserved_end < 2 ^ 64
    → AreAligned es
    → b.size + 8 ≤ 2 ^ 64
    → bit_at (release_entries reserved_end es b).map i
      ≡ (if any_usable reserved_end es i && ltb i b.size then 0 else bit_at b.map i)
unfolding release_entries any_usable
release_entries_lem reserved_end [] b i page low aligned small = refl
release_entries_lem reserved_end (e ∷ es) b i page low (even, flat, rest) small =
    let size = release_entry-size reserved_end e b in
    release_entries_lem reserved_end es (release_entry reserved_end e b) i page low rest
      (omega (arith, small, size))
    ∙ rw size (rw (release_entry_lem reserved_end e b i page low even flat small) (ground arith))

-- The state that `mem_map_init` starts from: the ends lie low enough not to wrap.
pub record IsBoot (s : State) (es : List MmapEntry) : Type 0 where
  pub fresh : s.reserved_mem_ready ≡ false
  pub ends : max s.kern_end s.mboot_info_end < 2 ^ 62
  pub limit : find_limit es s.phy_addr_limit < 2 ^ 62
  pub aligned : AreAligned es

abbrev pub first_reserved : State → ℕ
first_reserved s = align (max s.kern_end s.mboot_info_end) pgsize

-- After `mem_map_init` a frame below the limit is available exactly when it lies whole in an
-- available entry of the memory map and behind everything reserved: the kernel, the boot
-- information and the bitmap itself. The entries start on page boundaries; the memory of the
-- bitmap may hold anything before.
pub mem_map_init_lem :
    (s : State) (es : List MmapEntry) (memory : Mem) (i : ℕ)
    → IsBoot s es
    → i < (mem_map_init es memory s).pfn_max
    → let s' = mem_map_init es memory s in
      (bit_at s'.mem_map.map i ≡ (if any_usable s'.reserved_end es i then 0 else 1))
      × (s'.reserved_end % 4096 ≡ 0)
      × (first_reserved s + (s'.pfn_max + 7) / 8 ≤ s'.reserved_end)
unfolding mem_map_init reserved_mem_alloc reserved_mem_allocator_init
mem_map_init_lem s es memory i boot low =
    let limit = align (find_limit es s.phy_addr_limit) pgsize in
    let pfn_max = div_round_up limit pgsize in
    let few : pfn_max ≤ 2 ^ 51 = omega (arith, boot.limit) in
    let last = align (u64 (first_reserved s + div_round_up pfn_max 8)) pgsize in
    let page : last % 4096 ≡ 0 = omega arith in
    let after : first_reserved s + (pfn_max + 7) / 8 ≤ last = omega (arith, boot.ends, few) in
    let below : last < 2 ^ 64 = omega arith in
    let b0 = bitmap_init memory pfn_max in
    let b = bitmap_set b0 mem_page_used 0 pfn_max in
    let size : b.size ≡ pfn_max = bitmap_set-size b0 mem_page_used 0 pfn_max in
    let used : bit_at b.map i ≡ 1 =
      bitmap_set_lem b0 mem_page_used 0 pfn_max i (omega (arith, few)) (omega (arith, few))
      ∙ ground (arith, low) in
    let freed =
      release_entries_lem last es b i page below boot.aligned (omega (arith, size, few)) in
    rw boot.fresh (freed ∙ ground (arith, used, size, low), page, after)
