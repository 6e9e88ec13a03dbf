-- ===== src/Pages/Early.antt =====
-- `mm_phy_page_alloc` and `mm_phy_page_free` of src/kernel/mm/memory.c between `mem_init` and
-- `pmm_init`, when the bitmap alone serves the pages.
use geek_toy_os.Base.{
  ℕ, ◌+◌, ◌*◌, ◌/◌, ◌^◌, ◌<◌, min, true, false, ◌&&◌, ltb, leb, if◌then◌else◌, u64, ◌≡◌, ◌≢◌, refl,
  arith, inl, inr, ◌∙◌,
}
use geek_toy_os.Bitmap.{bitmap_set}
use geek_toy_os.Bitmap.Byte.{bit_at}
use geek_toy_os.Bitmap.Set.{bitmap_set_lem, bitmap_set-size}
use geek_toy_os.Buddy.{pfn_notfound}
use geek_toy_os.Pages.{
  pgsize, mem_page_avail, mem_page_used, State, returned, block_page_alloc, mark_used,
  mm_phy_page_alloc, mm_phy_page_free,
}
use geek_toy_os.Pages.Blocks.{IsBitmap, IsRun, block_page_alloc-IsFound}

-- The bitmap serves the pages, and has a bit for every frame.
pub record IsEarly (s : State) : Type 0 where
  pub ready : s.mm_ready ≡ true
  pub no_buddy : s.buddy_mem_ready ≡ false
  pub bitmap : IsBitmap s.mem_map
  pub whole : s.pfn_max ≡ s.mem_map.size

-- A request of `nr` pages is served with the run from frame `l`, which was available; afterwards
-- the run is in use and no other frame has changed, and freeing it restores every frame.
pub record IsServed (s s' : State) (nr l : ℕ) : Type 0 where
  pub result : mm_phy_page_alloc s nr ≡ returned s' (l * 4096)
  pub low : l < s.mem_map.size
  pub run : IsRun s.mem_map nr l
  pub marks :
      (i : ℕ)
      → bit_at s'.mem_map.map i
        ≡ (if leb l i && ltb i (min s.mem_map.size (l + nr)) then 1 else bit_at s.mem_map.map i)
  pub restored :
      (i : ℕ) → bit_at (mm_phy_page_free s' (l * 4096) nr).mem_map.map i ≡ bit_at s.mem_map.map i

served :
    (s : State) (nr l : ℕ)
    → IsEarly s
    → nr < 2 ^ 63
    → block_page_alloc s nr ≡ l
    → l < s.mem_map.size
    → IsRun s.mem_map nr l
    → IsServed s (record s { mem_map = bitmap_set s.mem_map mem_page_used l nr }) nr l
unfolding mm_phy_page_alloc mark_used mm_phy_page_free block_page_alloc
served s nr l early nowrap at low run =
    let used = λ (i : ℕ).
      bitmap_set_lem s.mem_map mem_page_used l nr i (omega (arith, early.bitmap.small))
        (omega (arith, early.bitmap.small, low)) in
    let size = bitmap_set-size s.mem_map mem_page_used l nr in
    let addr : u64 (l * pgsize) ≡ l * 4096 = omega (arith, low, early.bitmap.small) in
    let frame : l * 4096 / pgsize ≡ l = omega arith in
    record {
      result = rw early.ready (rw early.no_buddy (rw at (rw addr refl)));
      low = low;
      run = run;
      marks = used;
      restored = λ i. rw early.no_buddy (
          rw frame (
            bitmap_set_lem (bitmap_set s.mem_map mem_page_used l nr) mem_page_avail l nr i
              (omega (arith, size, early.bitmap.small)) (omega (arith, early.bitmap.small, low))
            ∙ ground (arith, size, used i, run i)));
    }

-- Before the buddy allocator is ready, `mm_phy_page_alloc` serves a request for which there is a
-- run: it returns the address of one, marks it in use and nothing else, and `mm_phy_page_free` of
-- the result makes every frame again what it was.
pub mm_phy_page_alloc-IsServed :
    (s : State) (nr : ℕ)
    → IsEarly s
    → 0 < nr
    → nr < 2 ^ 63
    → block_page_alloc s nr ≢ pfn_notfound
    → (s' : State) × (l : ℕ) × IsServed s s' nr l
mm_phy_page_alloc-IsServed s nr early pos nowrap hit =
    elim (block_page_alloc-IsFound s nr early.bitmap early.whole pos nowrap) [
      | inl (low, run) ↦ (
        record s { mem_map = bitmap_set s.mem_map mem_page_used (block_page_alloc s nr) nr },
        block_page_alloc s nr,
        served s nr (block_page_alloc s nr) early nowrap refl low run,
      )
      | inr (miss, _) ↦ absurd (hit miss)
    ]
