-- ===== src/Screen/Drawn.antt =====
-- What drawing in src/drivers/video.c may change: the pixels of a rectangle of the back buffer.
use geek_toy_os.Base.{
  ℕ, zero, suc, ◌+◌, ◌-◌, ◌*◌, ◌/◌, ◌^◌, ◌≤◌, ◌<◌, ◌≡◌, refl, ap, arith, inl, inr, ◌∙◌, ◌⊎◌, Bool,
  true, false, ltb, leb, Bool-cases, ◌&&◌,
}
use native.Mathlib.Nat.{mul-le-mul_left, mul-le-mul_right}
use geek_toy_os.MemOps.{Mem}
use geek_toy_os.Screen.{ScreenInfo, screen_put_pixel}
use geek_toy_os.Screen.Rows.{IsLaidOut, in_span}
use geek_toy_os.Screen.Pixel.{screen_put_pixel_lem, pixel_place, pixel_in_row, byte_at}

pub record Rect : Type 0 where
  pub left : ℕ
  pub right : ℕ
  pub top : ℕ
  pub bottom : ℕ

-- Byte `b` of row `y` belongs to a pixel of the rectangle.
abbrev pub in_rect : ScreenInfo → Rect → (y b : ℕ) → Bool
in_rect info r y b =
    leb r.top y && ltb y r.bottom && leb (r.left * info.bpp) b && ltb b (r.right * info.bpp)

byte_at_small : (v i : ℕ) → byte_at v i < 256
byte_at_small v zero = omega arith
byte_at_small v (suc i) = byte_at_small (v / 2 ^ 8) i

pub record IsDrawn (info : ScreenInfo) (r : Rect) (m m' : Mem) : Type 0 where
  pub bytes : (a : ℕ) → m' a < 256
  pub base_kept : (o : ℕ) → o < info.pitch * info.height → m' (info.base + o) ≡ m (info.base + o)
  pub outside :
      (y b : ℕ)
      → y < info.height
      → b < info.width * info.bpp
      → in_rect info r y b ≡ false
      → m' (info.buffer + (info.pitch * y + b)) ≡ m (info.buffer + (info.pitch * y + b))

pub IsDrawn-refl :
    {info : ScreenInfo} {r : Rect} {m : Mem} → ((a : ℕ) → m a < 256) → IsDrawn info r m m
IsDrawn-refl bytes = record {
  bytes = bytes;
  base_kept = λ o h. refl;
  outside = λ y b yh bh out. refl;
}

pub IsDrawn-trans :
    {info : ScreenInfo} {r : Rect} {m n k : Mem}
    → IsDrawn info r m n
    → IsDrawn info r n k
    → IsDrawn info r m k
IsDrawn-trans p q = record {
  bytes = q.bytes;
  base_kept = λ o h. q.base_kept o h ∙ p.base_kept o h;
  outside = λ y b yh bh out. q.outside y b yh bh out ∙ p.outside y b yh bh out;
}

-- Two places within rows are the same only in the same row.
rows_apart : (p y y' b c : ℕ) → b < p → c < p → p * y + b ≡ p * y' + c → y ≡ y'
rows_apart p y y' b c bp cp e = elim (Bool-cases (ltb y y')) [
  | inl less ↦
      absurd (omega (arith, e, bp, mul-le-mul_left {m = y + 1} {n = y'} p (ground (arith, less))))
  | inr geq ↦ elim (Bool-cases (ltb y' y)) [
    | inl more ↦
        absurd (omega (arith, e, cp, mul-le-mul_left {m = y' + 1} {n = y} p (ground (arith, more))))
    | inr leq ↦ ground (arith, geq, leq)
  ]
]

module _ (info : ScreenInfo) (laid : IsLaidOut info) (some_ : 1 ≤ info.bpp)
    (small : info.bpp ≤ 4) where
  -- Off the bytes of the pixel nothing changes.
  off_pixel :
      (x y pixel a : ℕ) (m : Mem)
      → ((a : ℕ) → m a < 256)
      → (x < info.width
          → y < info.height
          → (a < pixel_place info x y) ⊎ (pixel_place info x y + info.bpp ≤ a))
      → screen_put_pixel info x y pixel m a ≡ m a
  off_pixel x y pixel a m bytes off =
      screen_put_pixel_lem info x y pixel a m laid some_ small bytes
      ∙ elim (Bool-cases (ltb x info.width && ltb y info.height)) [
        | inr out ↦ ground (arith, out)
        | inl on ↦ elim (off (ground (arith, on)) (ground (arith, on))) [
          | inl before ↦ ground (arith, before)
          | inr after ↦ ground (arith, after)
        ]
      ]

  -- A byte of a pixel of the rectangle is a byte of the rectangle.
  hit_in_rect :
      (r : Rect) (x y row b : ℕ)
      → r.left ≤ x
      → x < r.right
      → r.top ≤ y
      → y < r.bottom
      → x < info.width
      → b < info.pitch
      → info.pitch * y + x * info.bpp ≤ info.pitch * row + b
      → info.pitch * row + b < info.pitch * y + x * info.bpp + info.bpp
      → in_rect info r row b ≡ true
  hit_in_rect r x y row b xl xr yt yb xw bh low high =
      let fits = pixel_in_row {info = info} {x = x} laid xw in
      let same : row ≡ y =
        rows_apart info.pitch row y b (info.pitch * row + b - info.pitch * y) bh
          (omega (arith, low, high, fits)) (omega (arith, low)) in
      let same_row = ap (λ n. info.pitch * n) same in
      let top : leb r.top row ≡ true = ground (arith, same, yt) in
      let bottom : ltb row r.bottom ≡ true = ground (arith, same, yb) in
      let left : leb (r.left * info.bpp) b ≡ true =
        ground (arith, low, same_row, mul-le-mul_right {m = r.left} {n = x} info.bpp xl) in
      let right : ltb b (r.right * info.bpp) ≡ true = ground (
        arith,
        high,
        same_row,
        mul-le-mul_right {m = x + 1} {n = r.right} info.bpp (omega (arith, xr)),
      ) in
      rw (top, bottom, left, right) refl

  -- A pixel of the rectangle is drawn within it, also one off the screen.
  pub screen_put_pixel-IsDrawn :
      (r : Rect) (x y pixel : ℕ) (m : Mem)
      → ((a : ℕ) → m a < 256)
      → r.left ≤ x
      → x < r.right
      → r.top ≤ y
      → y < r.bottom
      → IsDrawn info r m (screen_put_pixel info x y pixel m)
  screen_put_pixel-IsDrawn r x y pixel m bytes xl xr yt yb = record {
    bytes = λ a.
        rw (screen_put_pixel_lem info x y pixel a m laid some_ small bytes)
          (ground (arith, bytes a, byte_at_small pixel (a - pixel_place info x y)));
    base_kept = λ o h. off_pixel x y pixel (info.base + o) m bytes (λ xw yh.
        let span =
          in_span {p = info.pitch} {y = y} {h = info.height} {b = x * info.bpp} yh
            (omega (arith, pixel_in_row {info = info} {x = x} laid xw, some_)) in
        elim laid.apart [
          | inl below ↦ inl (omega (arith, below, h))
          | inr above ↦ inr (omega (arith, above, span, small))
        ]);
    outside = λ row b yh bh out.
        off_pixel x y pixel (info.buffer + (info.pitch * row + b)) m bytes (λ xw y_on.
          elim (Bool-cases (ltb (info.buffer + (info.pitch * row + b)) (pixel_place info x y))) [
            | inl before ↦ inl (ground (arith, before))
            | inr from_ ↦
                elim (Bool-cases
                  (leb (pixel_place info x y + info.bpp) (info.buffer + (info.pitch * row + b)))) [
                    | inl after ↦ inr (ground (arith, after))
                    | inr until ↦ absurd (
                        let hit =
                          hit_in_rect r x y row b xl xr yt yb xw (omega (arith, bh, laid.row))
                            (ground (arith, from_)) (ground (arith, until)) in
                        ground (arith, hit, out))
                  ]
          ]);
  }
