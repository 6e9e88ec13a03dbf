-- ===== src/Screen/Glyph/Color.antt =====
-- The palette search of `trans_color2pixel` in src/drivers/video.c finds the nearest colour.
use geek_toy_os.Base.{
  ℕ, zero, suc, ◌+◌, ◌-◌, ◌*◌, ◌/◌, ◌%◌, ◌^◌, ◌≤◌, ◌<◌, ◌≡◌, ◌≢◌, refl, arith, inl, inr, ◌⊎◌, false,
  ltb, leb, ◌==◌, Bool-cases, bit_and, low_mask, some, List, [], ◌∷◌, get_elem?,
}
use native.Mathlib.Nat.{mul-le-mul}
use geek_toy_os.Screen.{ScreenInfo, ColorPalette, screen_rgb}
use geek_toy_os.Screen.Glyph.{
  bit_part, squared_gap, color_distance, nearest_loop, trans_color2pixel,
}

bit_part-small : (x pos : ℕ) → bit_part x pos 8 < 256
unfolding bit_part
bit_part-small x pos =
    let e : bit_and (x / 2 ^ pos) (2 ^ 8 - 1) ≡ x / 2 ^ pos % 2 ^ 8 = low_mask 8 (x / 2 ^ pos) in
    rw e (omega arith)

squared_gap-small : (a b : ℕ) → a < 256 → b < 256 → squared_gap a b ≤ 255 * 255
unfolding squared_gap
squared_gap-small a b ha hb = elim (Bool-cases (leb b a)) [
  | inl le ↦ rw le (
      mul-le-mul {n₁ = a - b} {m₁ = a - b} {n₂ = 255} {m₂ = 255} (omega (arith, ha))
        (omega (arith, ha)))
  | inr gt ↦ rw gt (
      mul-le-mul {n₁ = b - a} {m₁ = b - a} {n₂ = 255} {m₂ = 255} (omega (arith, hb))
        (omega (arith, hb)))
]

-- The three parts of a palette entry are bytes.
abbrev pub IsByteColor : ColorPalette → Type 0
IsByteColor c = (c.r < 256) × (c.g < 256) × (c.b < 256)

color_distance-small :
    (r g b : ℕ) (c : ColorPalette)
    → r < 256
    → g < 256
    → b < 256
    → IsByteColor c
    → color_distance r g b c < 3 * 256 * 256
unfolding color_distance
color_distance-small r g b c hr hg hb (cr, cg, cb) = omega (
  arith,
  squared_gap-small r c.r hr cr,
  squared_gap-small g c.g hg cg,
  squared_gap-small b c.b hb cb,
)

-- Entry `j` is the first of the entries nearest to the colour.
pub record IsNearest (cs : List ColorPalette) (r g b j : ℕ) (c : ColorPalette) : Type 0 where
  pub entry : get_elem? cs j ≡ some c
  pub least :
      (k : ℕ) (d : ColorPalette)
      → get_elem? cs k ≡ some d
      → color_distance r g b c ≤ color_distance r g b d
  pub first :
      (k : ℕ) (d : ColorPalette)
      → k < j
      → get_elem? cs k ≡ some d
      → color_distance r g b c < color_distance r g b d

module _ (r g b : ℕ) where
  -- What the loop comes to: nothing nearer than `distance`, or the nearest entry.
  Outcome : List ColorPalette → (i pixel distance result : ℕ) → Type 0
  Outcome cs i pixel distance result =
      ((result ≡ pixel)
        × ((k : ℕ) (d : ColorPalette)
            → get_elem? cs k ≡ some d
            → distance ≤ color_distance r g b d))
      ⊎ ((j : ℕ) × (c : ColorPalette) × (result ≡ i + j)
          × (color_distance r g b c < distance)
          × IsNearest cs r g b j c)

  far_cons :
      (n : ℕ) (c : ColorPalette) (cs : List ColorPalette)
      → n ≤ color_distance r g b c
      → ((k : ℕ) (d : ColorPalette) → get_elem? cs k ≡ some d → n ≤ color_distance r g b d)
      → (k : ℕ) (d : ColorPalette) → get_elem? (c ∷ cs) k ≡ some d
      → n ≤ color_distance r g b d
  far_cons n c cs here later zero d e = let same : c ≡ d = cc in rw⁻¹ same here
  far_cons n c cs here later (suc k) d e = later k d e

  first_cons :
      (j : ℕ) (x c : ColorPalette) (cs : List ColorPalette)
      → color_distance r g b x < color_distance r g b c
      → IsNearest cs r g b j x
      → (k : ℕ) (d : ColorPalette) → k < suc j
      → get_elem? (c ∷ cs) k ≡ some d
      → color_distance r g b x < color_distance r g b d
  first_cons j x c cs here near zero d h e = let same : c ≡ d = cc in rw⁻¹ same here
  first_cons j x c cs here near (suc k) d h e = near.first k d (omega (arith, h)) e

  IsNearest-cons :
      (j : ℕ) (x c : ColorPalette) (cs : List ColorPalette)
      → color_distance r g b x < color_distance r g b c
      → IsNearest cs r g b j x
      → IsNearest (c ∷ cs) r g b (suc j) x
  IsNearest-cons j x c cs here near = record {
    entry = near.entry;
    least = far_cons (color_distance r g b x) c cs (omega (arith, here)) near.least;
    first = first_cons j x c cs here near;
  }

  nearest_loop-Outcome :
      (cs : List ColorPalette) (i pixel distance : ℕ)
      → Outcome cs i pixel distance (nearest_loop cs r g b i pixel distance)
  unfolding nearest_loop Outcome
  nearest_loop-Outcome [] i pixel distance = inl (refl, λ k d e. absurd cc)
  nearest_loop-Outcome (c ∷ cs) i pixel distance =
      elim (Bool-cases (ltb (color_distance r g b c) distance)) [
        | inl nearer ↦
            let near : color_distance r g b c < distance = ground (arith, nearer) in
            rw nearer (elim (nearest_loop-Outcome cs (i + 1) i (color_distance r g b c)) [
              | inl (e, far) ↦ inr (
                0,
                c,
                omega (arith, e),
                near,
                record {
                  entry = refl;
                  least = far_cons (color_distance r g b c) c cs (omega arith) far;
                  first = λ k d h e'. absurd (omega (arith, h));
                },
              )
              | inr (j, x, e, less, found) ↦ inr (
                suc j,
                x,
                omega (arith, e),
                omega (arith, less, near),
                IsNearest-cons j x c cs less found,
              )
            ])
        | inr farther ↦
            let far_off : distance ≤ color_distance r g b c = ground (arith, farther) in
            rw farther (elim (nearest_loop-Outcome cs (i + 1) pixel distance) [
              | inl (e, far) ↦ inl (e, far_cons distance c cs far_off far)
              | inr (j, x, e, less, found) ↦ inr (
                suc j,
                x,
                omega (arith, e),
                less,
                IsNearest-cons j x c cs (omega (arith, less, far_off)) found,
              )
            ])
      ]

-- The square of the difference, whichever is the larger.
abbrev pub square_between : (a b : ℕ) → ℕ
square_between a b = (a - b + (b - a)) * (a - b + (b - a))

squared_gap-eq : (x y : ℕ) → squared_gap x y ≡ square_between x y
unfolding squared_gap
squared_gap-eq x y = elim (Bool-cases (leb y x)) [
  | inl le ↦ let e : x - y + (y - x) ≡ x - y = ground (arith, le) in rw (le, e) refl
  | inr gt ↦ let e : x - y + (y - x) ≡ y - x = ground (arith, gt) in rw (gt, e) refl
]

color_distance-eq :
    (r g b : ℕ) (c : ColorPalette)
    → color_distance r g b c ≡ square_between r c.r + square_between g c.g + square_between b c.b
unfolding color_distance
color_distance-eq r g b c =
    rw (squared_gap-eq r c.r, squared_gap-eq g c.g, squared_gap-eq b c.b) refl

-- On a screen with a palette, not empty and of byte colours, `trans_color2pixel` gives the number of
-- the palette entry nearest to the colour by the sum of the squared differences, and the first of
-- them when several are.
pub trans_color2pixel-IsNearest :
    (info : ScreenInfo) (color : ℕ) (c0 : ColorPalette) (cs : List ColorPalette)
    → info.screen_type ≢ screen_rgb
    → info.palette ≡ c0 ∷ cs
    → IsByteColor c0
    → (c : ColorPalette) × IsNearest
        (c0 ∷ cs)
        (bit_part color 16 8)
        (bit_part color 8 8)
        (bit_part color 0 8)
        (trans_color2pixel info color)
        c
      × ((r g b : ℕ) (d : ColorPalette)
          → color_distance r g b d
            ≡ square_between r d.r + square_between g d.g + square_between b d.b)
unfolding trans_color2pixel Outcome
trans_color2pixel-IsNearest info color c0 cs indexed entries small =
    let r = bit_part color 16 8 in
    let g = bit_part color 8 8 in
    let b = bit_part color 0 8 in
    let other : (info.screen_type == screen_rgb) ≡ false = ground (arith, indexed) in
    let near =
      color_distance-small r g b c0 (bit_part-small color 16) (bit_part-small color 8)
        (bit_part-small color 0) small in
    rw (other, entries)
      (elim (nearest_loop-Outcome r g b (c0 ∷ cs) 0 0 (3 * 256 * 256)) [
        | inl (_, far) ↦ absurd (omega (arith, far 0 c0 refl, near))
        | inr (j, x, e, less, found) ↦
            let same : 0 + j ≡ j = omega arith in (x, rw (e, same) found, color_distance-eq)
      ])
