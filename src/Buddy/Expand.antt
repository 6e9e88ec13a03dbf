-- ===== src/Buddy/Expand.antt =====
-- `expand_buddy` of src/kernel/mm/buddy.c gives back what is left of a block.
use geek_toy_os.Base.{
  ℕ, zero, suc, ◌+◌, ◌*◌, ◌/◌, ◌^◌, ◌≤◌, ◌<◌, ltb, u64, ◌≡◌, refl, arith, ap, [], ◌∷◌, Bool-cases,
  inl, inr, length, length-append, ◌++◌,
}
use native.Mathlib.Nat.{pow-suc}
use geek_toy_os.Buddy.{Zone, max_order, add_page_to_free_list, set_buddy_order, expand_buddy}
use geek_toy_os.Buddy.Weight.{weigh-update, free_total}
use geek_toy_os.Buddy.Cover.{holds, holds-pair, covered-append, pile-update, cover}

-- The counters of the free areas are the lengths of their lists.
abbrev pub IsCounted : Zone → Type 0
IsCounted z = (o : ℕ) → o < max_order → z.count o ≡ length (z.free_pages o)

-- No counter of an order below `n` is about to wrap.
abbrev pub HasRoom : Zone → ℕ → Type 0
HasRoom z n = (o : ℕ) → o < n → z.count o + 1 < 2 ^ 64

-- One round of `expand_buddy`.
abbrev half_back : Zone → (pfn half origin : ℕ) → Zone
half_back z pfn half origin =
    set_buddy_order (add_page_to_free_list z (pfn + half) origin) (pfn + half) origin

half_back-IsCounted :
    (z : Zone) (pfn half origin : ℕ)
    → z.count origin + 1 < 2 ^ 64
    → IsCounted z
    → IsCounted (half_back z pfn half origin)
unfolding add_page_to_free_list set_buddy_order
half_back-IsCounted z pfn half origin room c o h =
    ground (arith, c o, length-append (z.free_pages o) ((pfn + half) ∷ []))

half_back-total :
    (z : Zone) (pfn half origin : ℕ)
    → origin < max_order
    → z.count origin + 1 < 2 ^ 64
    → free_total (half_back z pfn half origin) ≡ free_total z + 2 ^ origin
unfolding free_total add_page_to_free_list set_buddy_order
half_back-total z pfn half origin h room =
    let flat : u64 (z.count origin + 1) ≡ z.count origin + 1 = omega arith in
    omega (
      arith,
      weigh-update z.count origin (u64 (z.count origin + 1)) max_order h,
      ap (λ (t : ℕ). t * 2 ^ origin) flat,
    )

pub expand_buddy_lem :
    (z : Zone) (pfn offset origin target : ℕ)
    → target ≤ origin
    → origin < max_order
    → HasRoom z origin
    → IsCounted z
    → IsCounted (expand_buddy z pfn offset origin target)
      × (free_total (expand_buddy z pfn offset origin target) + 2 ^ target
          ≡ free_total z + 2 ^ origin)
unfolding expand_buddy
expand_buddy_lem z pfn offset zero target le h room c =
    let e : target ≡ 0 = omega arith in (c, rw e)
expand_buddy_lem z pfn offset (suc origin) target le h room c =
    elim (Bool-cases (ltb target (suc origin))) [
      | inl more ↦
          let z' = half_back z pfn (offset / 2) origin in
          let (counted, total) =
            expand_buddy_lem z' pfn (offset / 2) origin target (ground arith) (omega arith)
              (room-kept z (pfn + offset / 2) origin room)
              (half_back-IsCounted z pfn (offset / 2) origin (room origin (omega arith)) c) in
          rw more (
            counted,
            omega (
              arith,
              total,
              half_back-total z pfn (offset / 2) origin (omega arith) (room origin (omega arith)),
              pow-suc 2 origin,
            ),
          )
      | inr done ↦ let e : target ≡ suc origin = ground arith in rw done (c, rw e)
    ]
  where
    room-kept :
        (z : Zone) (pfn origin : ℕ)
        → HasRoom z (suc origin)
        → HasRoom (set_buddy_order (add_page_to_free_list z pfn origin) pfn origin) origin
    room-kept z pfn origin r o lt =
        unfold add_page_to_free_list set_buddy_order in ground (arith, r o)

half_back-cover :
    (z : Zone) (pfn half origin f : ℕ)
    → origin < max_order
    → cover (half_back z pfn half origin) f ≡ cover z f + holds origin f (pfn + half)
unfolding cover add_page_to_free_list set_buddy_order
half_back-cover z pfn half origin f h = omega (
  arith,
  pile-update z.free_pages f origin (z.free_pages origin ++ (pfn + half) ∷ []) max_order h,
  covered-append origin f (pfn + half) (z.free_pages origin),
)

-- What is left of a block goes back to the lists, frame by frame.
pub expand_buddy-cover :
    (z : Zone) (pfn origin target f : ℕ)
    → target ≤ origin
    → origin < max_order
    → cover (expand_buddy z pfn (2 ^ origin) origin target) f + holds target f pfn
      ≡ cover z f + holds origin f pfn
unfolding expand_buddy
expand_buddy-cover z pfn zero target f le h = let e : target ≡ 0 = omega (arith, le) in rw e refl
expand_buddy-cover z pfn (suc origin) target f le h = elim (Bool-cases (ltb target (suc origin))) [
  | inl more ↦
      let half : 2 ^ suc origin / 2 ≡ 2 ^ origin = rw (pow-suc 2 origin) (omega arith) in
      rw (more, half)
        (omega (
          arith,
          expand_buddy-cover (half_back z pfn (2 ^ origin) origin) pfn origin target f
              (ground (arith, more)) (omega (arith, h)),
          half_back-cover z pfn (2 ^ origin) origin f (omega (arith, h)),
          holds-pair origin f pfn,
        ))
  | inr done ↦ let e : target ≡ suc origin = ground (arith, done, le) in rw done (rw e refl)
]

pub expand_buddy-nr_free_pages :
    (z : Zone) (pfn offset origin target : ℕ)
    → (expand_buddy z pfn offset origin target).nr_free_pages ≡ z.nr_free_pages
unfolding expand_buddy add_page_to_free_list set_buddy_order
expand_buddy-nr_free_pages z pfn offset zero target = refl
expand_buddy-nr_free_pages z pfn offset (suc origin) target = ground (
  arith,
  expand_buddy-nr_free_pages
      (set_buddy_order (add_page_to_free_list z (pfn + offset / 2) origin) (pfn + offset / 2)
        origin)
      pfn (offset / 2) origin target,
)
