-- ===== src/Paging/Walk/Region.antt =====
-- `arch_map_region` on the tables: what the processor makes of the addresses afterwards.
use geek_toy_os.Base.{
  ℕ, ◌+◌, ◌-◌, ◌*◌, ◌/◌, ◌%◌, ◌^◌, ◌≤◌, ◌<◌, bit_and, bit_or, Bool, leb, if◌then◌else◌, none, some,
  ◌≡◌, refl, ap, ◌∙◌, arith, Bool-cases, inl, inr, ◌⊎◌, List, [], ◌∷◌, low_mask, high_mask, align,
  align_down, ◌==◌,
}
use mathlib.Core.Path.{subst}
use geek_toy_os.Base.Bits.{bit_or-one}
use geek_toy_os.Paging.{level_size, Entry, pte_ps, map_perm, pgsize, arch_map_region}
use geek_toy_os.Paging.Tiling.{IsTiling, arch_map_region-IsTiling}
use geek_toy_os.Paging.Walk.{Tables, write_entry, write_entries, map_tables}
use geek_toy_os.Paging.Walk.Translate.{in_page, translate}
use geek_toy_os.Paging.Walk.Keeps.{Owner}
use geek_toy_os.Paging.Walk.Tree.{IsTree}
use geek_toy_os.Paging.Walk.Write.{IsPage, Written, write_entry-Written}
use geek_toy_os.Paging.Walk.Mapped.{same_page, other_page, entry_word}

-- The addresses from `lo` up to `hi` go `delta` below, and all others with the same upper 16 bits,
-- `block`, where they went in `t`.
pub record IsMapped (t t' : Tables) (root delta block lo hi : ℕ) : Type 0 where
  pub own : Owner
  pub tree : IsTree own t'
  pub top : own root ≡ some (3, 0)
  pub inside : (a : ℕ) → lo ≤ a → a < hi → translate t'.word root a ≡ some (a - delta)
  pub outside :
      (a : ℕ)
      → a / 2 ^ 48 ≡ block
      → (a < lo) ⊎ (hi ≤ a)
      → translate t'.word root a ≡ translate t.word root a

IsTiling-le : (delta attr lo hi : ℕ) (es : List Entry) → IsTiling delta attr lo hi es → lo ≤ hi
IsTiling-le delta attr lo hi [] (IsTiling.done e) = omega (arith, e)
IsTiling-le delta attr lo hi (x ∷ es) (IsTiling.page l a b c d rest) =
    omega (arith, IsTiling-le delta attr (lo + level_size x.level) hi es rest)

-- One page at the start of the rest.
module _ (t : Tables) (root delta attr lo hi : ℕ) (own : Owner) (tree : IsTree own t)
    (top : own root ≡ some (3, 0)) (e : Entry) (l : e.level ≤ 2) (at : e.vaddr ≡ lo)
    (frame : e.paddr + delta ≡ lo) (even : lo % level_size e.level ≡ 0)
    (value : e.value ≡ bit_or (bit_or e.paddr attr) (if e.level == 0 then 0 else pte_ps))
    (fits : lo + level_size e.level ≤ hi) (small : attr < 4096) (odd : attr % 2 ≡ 1)
    (apart : delta % 2 ^ 30 ≡ 0) (high : hi ≤ 2 ^ 64)
    (unmapped : (a : ℕ) → lo ≤ a → a < hi → translate t.word root a ≡ none) where
  word_lem :
      IsPage e.level e.value
      × ((a : ℕ) → in_page e.level e.value a ≡ e.paddr + a % level_size e.level)
  word_lem = rw value (
      entry_word e.level e.paddr attr l (ground (arith, frame, even, apart, l))
        (ground (arith, frame, fits, high)) small odd)

  page-Written : Written t (write_entry t root e) root e.level lo e.value
  page-Written =
      subst (λ (x : ℕ). Written t (write_entry t root e) root e.level x e.value) at
        (write_entry-Written own t root e l tree top
          (inr (rw at (unmapped lo (omega arith) (ground (arith, fits))))) word_lem.0)

  page_inside :
      (a : ℕ)
      → a / 2 ^ 48 ≡ lo / 2 ^ 48
      → lo ≤ a
      → a < lo + level_size e.level
      → translate (write_entry t root e).word root a ≡ some (a - delta)
  page_inside a block low lt =
      let to : e.paddr + a % level_size e.level ≡ a - delta =
        ground (arith, frame, even, low, lt, l) in
      page-Written.inside a (same_page e.level lo a l even block low lt)
      ∙ ap some (word_lem.1 a ∙ to)

  page_outside :
      (a : ℕ)
      → a / 2 ^ 48 ≡ lo / 2 ^ 48
      → (a < lo) ⊎ (lo + level_size e.level ≤ a)
      → translate (write_entry t root e).word root a ≡ translate t.word root a
  page_outside a block out = page-Written.outside a (λ same.
      let (x, y) = other_page e.level lo a l even block same in
      elim out [ inl h ↦ omega (arith, x, h) | inr h ↦ omega (arith, y, h) ])

write_entries-IsMapped :
    (root delta attr block : ℕ)
    → attr < 4096
    → attr % 2 ≡ 1
    → delta % 2 ^ 30 ≡ 0
    → (es : List Entry) (own : Owner) (t : Tables) (lo hi : ℕ) → IsTree own t
    → own root ≡ some (3, 0)
    → IsTiling delta attr lo hi es
    → hi ≤ 2 ^ 64
    → (lo < hi → (lo / 2 ^ 48 ≡ block) × ((hi - 1) / 2 ^ 48 ≡ block))
    → ((a : ℕ) → lo ≤ a → a < hi → translate t.word root a ≡ none)
    → IsMapped t (write_entries t root es) root delta block lo hi
unfolding write_entries
write_entries-IsMapped root delta attr block small odd apart [] own t lo hi tree top
      (IsTiling.done e) high within unmapped =
    record {
      own = own;
      tree = tree;
      top = top;
      inside = λ a low lt. absurd (omega (arith, low, lt, e));
      outside = λ a same out. refl;
    }
write_entries-IsMapped root delta attr block small odd apart (e ∷ es) own t lo hi tree top
      (IsTiling.page l at frame even value rest) high within unmapped =
    let mid = lo + level_size e.level in
    let t' = write_entry t root e in
    let fits : mid ≤ hi = IsTiling-le delta attr mid hi es rest in
    let grows : lo < mid = ground arith in
    let (first, last) = within (omega (arith, grows, fits)) in
    let w =
      page-Written t root delta attr lo hi own tree top e l at frame even value fits small odd apart
        high unmapped in
    let near =
      page_inside t root delta attr lo hi own tree top e l at frame even value fits small odd apart
        high unmapped in
    let far =
      page_outside t root delta attr lo hi own tree top e l at frame even value fits small odd apart
        high unmapped in
    let r =
      write_entries-IsMapped root delta attr block small odd apart es w.own t' mid hi w.tree w.top
        rest high (λ lt. omega (arith, first, last, grows, lt))
        (λ a low lt.
          far a (omega (arith, first, last, grows, low, lt)) (inr low)
          ∙ unmapped a (omega (arith, grows, low)) lt) in
    record {
      own = r.own;
      tree = r.tree;
      top = r.top;
      inside = λ a low lt. elim (Bool-cases (leb mid a)) [
        | inl past ↦ r.inside a (ground (arith, past)) lt
        | inr here ↦
            r.outside a (omega (arith, first, last, low, lt)) (inl (ground (arith, here)))
            ∙ near a (omega (arith, first, last, low, lt)) low (ground (arith, here))
      ];
      outside = λ a same out.
          r.outside a same (elim out [ inl h ↦ inl (omega (arith, h, grows)) | inr h ↦ inr h ])
          ∙ far a (omega (arith, same, first))
              (elim out [ inl h ↦ inl h | inr h ↦ inr (omega (arith, h, fits)) ]);
    }

map_perm_lem :
    (perm_flag : ℕ) → perm_flag < 4096 → (map_perm perm_flag < 4096) × (map_perm perm_flag % 2 ≡ 1)
unfolding map_perm
map_perm_lem perm_flag small =
    let low : bit_and perm_flag 4095 ≡ perm_flag % 4096 = low_mask 12 perm_flag in
    let shift : perm_flag / 2 ^ 12 ≡ 0 = omega (arith, small) in
    let bit : bit_and perm_flag (1 * 2 ^ 12) ≡ bit_and (perm_flag / 2 ^ 12) 1 * 2 ^ 12 =
      high_mask 12 perm_flag 1 in
    let none_ : bit_and perm_flag 4096 ≡ 0 = bit ∙ rw shift refl in
    rw (none_, low, bit_or-one (perm_flag % 4096)) (omega (arith, small), omega arith)

-- After `arch_map_region` of an unmapped region, the processor takes each address of its pages of 4
-- KiB to the one `vaddr - paddr` below, and each other address with the same upper 16 bits where it
-- took it before, whatever tables and large pages were there, with or without pages of 1 GiB; and
-- the tables are again a tree. They are one before, with large pages on their boundaries, and the
-- root at its top. The region is not empty, lies in one block of addresses of 48 bits and ends 2
-- GiB below 2 ^ 64; the physical address is not above the virtual one, by a multiple of 1 GiB; the
-- flags are those of an entry; and `mm_phy_page_zalloc` returns page frames that are apart from the
-- tables and one another.
pub map_tables-IsMapped :
    (page_1gb : Bool) (own : Owner) (t : Tables) (root vaddr paddr size perm_flag : ℕ)
    → IsTree own t
    → own root ≡ some (3, 0)
    → 0 < size
    → paddr ≤ vaddr
    → (vaddr - paddr) % 2 ^ 30 ≡ 0
    → vaddr + size + 2 ^ 31 ≤ 2 ^ 64
    → (vaddr + size - 1) / 2 ^ 48 ≡ vaddr / 2 ^ 48
    → perm_flag < 4096
    → ((a : ℕ)
        → align_down vaddr pgsize ≤ a
        → a < align (vaddr + size) pgsize
        → translate t.word root a ≡ none)
    → IsMapped t
        (map_tables page_1gb t root vaddr paddr size perm_flag)
        root
        (vaddr - paddr)
        (vaddr / 2 ^ 48)
        (align_down vaddr pgsize)
        (align (vaddr + size) pgsize)
unfolding map_tables
map_tables-IsMapped page_1gb own t root vaddr paddr size perm_flag tree top pos below apart high
      block small unmapped =
    let (flags, odd) = map_perm_lem perm_flag small in
    write_entries-IsMapped root (vaddr - paddr) (map_perm perm_flag) (vaddr / 2 ^ 48) flags odd
      apart (arch_map_region page_1gb vaddr paddr size perm_flag) own t (align_down vaddr pgsize)
      (align (vaddr + size) pgsize) tree top
      (arch_map_region-IsTiling page_1gb vaddr paddr size perm_flag pos below (omega (arith, apart))
        high)
      (omega (arith, high)) (λ lt. omega (arith, block, high, pos)) unmapped
