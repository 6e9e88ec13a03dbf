-- ===== src/Pages/Tests.antt =====
-- The pages of src/kernel/mm/memory.c on a small machine.
use geek_toy_os.Base.{
  ℕ, ◌+◌, ◌/◌, ◌%◌, ◌≤◌, true, false, if◌then◌else◌, ◌≡◌, ◌≢◌, arith, refl, inl, inr, List, [], ◌∷◌,
}
use geek_toy_os.Base.Bits.{zero-bit}
use geek_toy_os.Bitmap.Byte.{bit_at}
use geek_toy_os.Buddy.{Zone, pfn_notfound}
use geek_toy_os.Pages.{State, MmapEntry, find_limit, mem_map_init, block_page_alloc}
use geek_toy_os.Pages.Blocks.{IsBitmap, IsFound, block_page_alloc-IsFound}
use geek_toy_os.Pages.Frames.{any_usable, IsBoot, first_reserved, mem_map_init_lem}
use geek_toy_os.Pages.Early.{IsServed, mm_phy_page_alloc-IsServed}

abbrev no_zone : Zone
no_zone = record {
  pfn_base = 0;
  nr_pages = 0;
  nr_free_pages = 0;
  mem_map = λ p. record { flag = 0; order = 0 };
  count = λ o. 0;
  free_pages = λ o. [];
}

-- Twenty frames, all available.
abbrev all_free : State
all_free = record {
  kern_end = 5000;
  mboot_info_end = 6000;
  reserved_end = 0;
  phy_addr_limit = 0;
  pfn_max = 20;
  mem_map = record { map = λ i. 0; size = 20 };
  mem_zone = no_zone;
  reserved_mem_ready = false;
  buddy_mem_ready = false;
  mm_ready = true;
}

all_free-IsBitmap : IsBitmap all_free.mem_map
all_free-IsBitmap = record { bytes = λ i. omega arith; small = omega arith }

block_page_alloc_example : IsFound all_free.mem_map 3 0 (block_page_alloc all_free 3)
block_page_alloc_example =
    block_page_alloc-IsFound all_free 3 all_free-IsBitmap refl (omega arith) (omega arith)

served : block_page_alloc all_free 3 ≢ pfn_notfound
served e =
    elim (block_page_alloc-IsFound all_free 3 all_free-IsBitmap refl (omega arith) (omega arith)) [
      | inl (low, _) ↦ absurd (omega (arith, low, e))
      | inr (_, none_) ↦ none_ 0 (omega arith) (omega arith) (λ i p q. zero-bit (i % 8))
    ]

mm_phy_page_alloc_example : (s' : State) × (l : ℕ) × IsServed all_free s' 3 l
mm_phy_page_alloc_example =
    mm_phy_page_alloc-IsServed all_free 3
      (record { ready = refl; no_buddy = refl; bitmap = all_free-IsBitmap; whole = refl })
      (omega arith) (omega arith) served

-- One entry, of sixteen available pages from 0 on.
abbrev one_entry : List MmapEntry
one_entry = record { addr = 0; len = 65536; available = true } ∷ []

boots : IsBoot all_free one_entry
unfolding find_limit
boots = record {
  fresh = refl;
  ends = omega arith;
  limit = omega arith;
  aligned = (refl, omega arith, tt);
}

sixteen : (mem_map_init one_entry (λ i. 170) all_free).pfn_max ≡ 16
unfolding mem_map_init find_limit
sixteen = refl

mem_map_init_example :
    let s' = mem_map_init one_entry (λ i. 170) all_free in
    (bit_at s'.mem_map.map 7 ≡ (if any_usable s'.reserved_end one_entry 7 then 0 else 1))
    × (s'.reserved_end % 4096 ≡ 0)
    × (first_reserved all_free + (s'.pfn_max + 7) / 8 ≤ s'.reserved_end)
mem_map_init_example =
    mem_map_init_lem all_free one_entry (λ i. 170) 7 boots (omega (arith, sixteen))
