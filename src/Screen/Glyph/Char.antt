-- ===== src/Screen/Glyph/Char.antt =====
-- Drawing a character and scrolling, in src/drivers/video.c.
use geek_toy_os.Base.{
  ℕ, zero, suc, ◌+◌, bit_and, ◌≤◌, ◌<◌, ◌≡◌, ◌≢◌, refl, arith, inl, inr, true, false, leb, ◌==◌,
  ==_iff, Bool-cases, if◌then◌else◌, u32,
}
use geek_toy_os.MemOps.{Mem}
use geek_toy_os.Screen.{ScreenInfo, Screen, screen_vga}
use geek_toy_os.Screen.Glyph.{draw_row, draw_glyph, fill_row, fill_rows, screen_input_char}
use geek_toy_os.Screen.Rows.{IsLaidOut}
use geek_toy_os.Screen.Drawn.{Rect, IsDrawn, IsDrawn-refl, IsDrawn-trans, screen_put_pixel-IsDrawn}
use geek_toy_os.Screen.Shown.{IsShownIn}
use geek_toy_os.Screen.Marked.{IsRect, flush_drawn}

module _ (info : ScreenInfo) (laid : IsLaidOut info) (some_ : 1 ≤ info.bpp) (small : info.bpp ≤ 4)
    (r : Rect) (rect : IsRect info r) where
  draw_row-IsDrawn :
      (left x y dx mask g pixel pixel_back : ℕ) (m : Mem)
      → ((a : ℕ) → m a < 256)
      → r.left ≤ x
      → x + dx + left ≤ r.right
      → r.top ≤ y
      → y < r.bottom
      → IsDrawn info r m (draw_row info left x y dx mask g pixel pixel_back m)
  unfolding draw_row
  draw_row-IsDrawn zero x y dx mask g pixel pixel_back m bytes xl xr yt yb = IsDrawn-refl bytes
  draw_row-IsDrawn (suc left) x y dx mask g pixel pixel_back m bytes xl xr yt yb =
      let flat : u32 (x + dx) ≡ x + dx = omega (arith, xr, rect.right, laid.wide) in
      let shown = if bit_and g mask == 0 then pixel_back else pixel in
      let one =
        screen_put_pixel-IsDrawn info laid some_ small r (u32 (x + dx)) y shown m bytes
          (omega (arith, flat, xl)) (omega (arith, flat, xr)) yt yb in
      IsDrawn-trans one (
        draw_row-IsDrawn left x y (dx + 1) _ g pixel pixel_back _ one.bytes xl (omega (arith, xr))
          yt yb)

  draw_glyph-IsDrawn :
      (left x y dy glyph pixel pixel_back : ℕ) (m : Mem)
      → ((a : ℕ) → m a < 256)
      → r.left ≤ x
      → x + info.font_width ≤ r.right
      → r.top ≤ y
      → y + dy + left ≤ r.bottom
      → IsDrawn info r m (draw_glyph info left x y dy glyph pixel pixel_back m)
  unfolding draw_glyph
  draw_glyph-IsDrawn zero x y dy glyph pixel pixel_back m bytes xl xr yt yb = IsDrawn-refl bytes
  draw_glyph-IsDrawn (suc left) x y dy glyph pixel pixel_back m bytes xl xr yt yb =
      let flat : u32 (y + dy) ≡ y + dy = omega (arith, yb, rect.bottom, laid.tall) in
      let one =
        draw_row-IsDrawn info.font_width x (u32 (y + dy)) 0 _ _ pixel pixel_back m bytes xl
          (omega (arith, xr)) (omega (arith, flat, yt)) (omega (arith, flat, yb)) in
      IsDrawn-trans one (
        draw_glyph-IsDrawn left x y (dy + 1) _ pixel pixel_back _ one.bytes xl xr yt
          (omega (arith, yb)))

  fill_row-IsDrawn :
      (left x y fill_color : ℕ) (m : Mem)
      → ((a : ℕ) → m a < 256)
      → r.left ≤ x
      → x + left ≤ r.right
      → r.top ≤ y
      → y < r.bottom
      → IsDrawn info r m (fill_row info left x y fill_color m)
  unfolding fill_row
  fill_row-IsDrawn zero x y fill_color m bytes xl xr yt yb = IsDrawn-refl bytes
  fill_row-IsDrawn (suc left) x y fill_color m bytes xl xr yt yb =
      let one =
        screen_put_pixel-IsDrawn info laid some_ small r x y fill_color m bytes xl
          (omega (arith, xr)) yt yb in
      IsDrawn-trans one (
        fill_row-IsDrawn left (x + 1) y fill_color _ one.bytes (omega (arith, xl))
          (omega (arith, xr)) yt yb)

  pub fill_rows-IsDrawn :
      (left y fill_color : ℕ) (m : Mem)
      → ((a : ℕ) → m a < 256)
      → r.left ≡ 0
      → r.right ≡ info.width
      → r.top ≤ y
      → y + left ≤ r.bottom
      → IsDrawn info r m (fill_rows info left y fill_color m)
  unfolding fill_rows
  fill_rows-IsDrawn zero y fill_color m bytes xl xr yt yb = IsDrawn-refl bytes
  fill_rows-IsDrawn (suc left) y fill_color m bytes xl xr yt yb =
      let one =
        fill_row-IsDrawn info.width 0 y fill_color m bytes (omega (arith, xl)) (omega (arith, xr))
          yt (omega (arith, yb)) in
      IsDrawn-trans one (
        fill_rows-IsDrawn left (y + 1) fill_color _ one.bytes xl xr (omega (arith, yt))
          (omega (arith, yb)))

-- The cell of a character.
abbrev pub cell_rect : ScreenInfo → (x y : ℕ) → Rect
cell_rect info x y = record {
  left = x;
  right = u32 (x + info.font_width);
  top = y;
  bottom = u32 (y + info.font_height);
}

module _ (info : ScreenInfo) (x y front_color back_color chr : ℕ) (s : Screen)
    (laid : IsLaidOut info) (some_ : 1 ≤ info.bpp) (small : info.bpp ≤ 4) (based : info.base ≢ 0)
    (vga : info.screen_type ≡ screen_vga → (info.font_width ≡ 1) × (info.font_height ≡ 1))
    (xw : x + info.font_width ≤ info.width) (yh : y + info.font_height ≤ info.height)
    (low : info.screen_type ≢ screen_vga → chr < 0xFFFF) (idle : s.dirty.buffer_dirty ≡ false)
    (bytes : (a : ℕ) → s.mem a < 256) where
  wide_flat : u32 (x + info.font_width) ≡ x + info.font_width
  wide_flat = omega (arith, xw, laid.wide)

  tall_flat : u32 (y + info.font_height) ≡ y + info.font_height
  tall_flat = omega (arith, yh, laid.tall)

  cell-IsRect : IsRect info (cell_rect info x y)
  cell-IsRect = record {
    across = omega (arith, wide_flat);
    right = omega (arith, wide_flat, xw);
    down = omega (arith, tall_flat);
    bottom = omega (arith, tall_flat, yh);
  }

  -- `screen_input_char` of a character whose cell lies on the screen, on a laid out screen with
  -- pixels of one to four bytes and nothing dirty, ends with nothing dirty, shows the bytes of the
  -- cell and all that was shown before as the back buffer has them, and changes the back buffer in
  -- that cell only. In text mode the font is one wide and one high, and in the others the character
  -- is below 0xFFFF.
  pub screen_input_char-IsShownIn :
      IsShownIn info
        (cell_rect info x y)
        s
        (screen_input_char info x y front_color back_color chr s)
  unfolding screen_input_char
  screen_input_char-IsShownIn =
      let no_base : (info.base == 0) ≡ false = ground (arith, based) in
      elim (Bool-cases (info.screen_type == screen_vga)) [
        | inl text ↦
            let (one_wide, one_high) = vga ((==_iff _ _).0 text) in
            let right : u32 (x + 1) ≡ u32 (x + info.font_width) = rw one_wide refl in
            let bottom : u32 (y + 1) ≡ u32 (y + info.font_height) = rw one_high refl in
            rw (no_base, text, right, bottom)
              (flush_drawn info s (cell_rect info x y) _ laid idle bytes cell-IsRect (
                screen_put_pixel-IsDrawn info laid some_ small (cell_rect info x y) x y _ s.mem
                  bytes (omega arith) (omega (arith, wide_flat, one_wide)) (omega arith)
                  (omega (arith, tall_flat, one_high))))
        | inr graphic ↦
            let apart : info.screen_type ≢ screen_vga = λ e. ground (arith, e, graphic) in
            let short : leb 0xFFFF chr ≡ false = ground (arith, low apart) in
            rw (no_base, graphic, short)
              (flush_drawn info s (cell_rect info x y) _ laid idle bytes cell-IsRect (
                draw_glyph-IsDrawn info laid some_ small (cell_rect info x y) cell-IsRect
                  info.font_height x y 0 _ _ _ s.mem bytes (omega arith) (omega (arith, wide_flat))
                  (omega arith) (omega (arith, tall_flat))))
      ]

-- A character from 0xFFFF on is not drawn, but in text mode.
pub screen_input_char_ignored :
    (info : ScreenInfo) (x y front_color back_color chr : ℕ) (s : Screen)
    → info.base ≢ 0
    → info.screen_type ≢ screen_vga
    → 0xFFFF ≤ chr
    → screen_input_char info x y front_color back_color chr s ≡ s
unfolding screen_input_char
screen_input_char_ignored info x y front_color back_color chr s based graphic high =
    let no_base : (info.base == 0) ≡ false = ground (arith, based) in
    let kind : (info.screen_type == screen_vga) ≡ false = ground (arith, graphic) in
    let long : leb 0xFFFF chr ≡ true = ground (arith, high) in rw (no_base, kind, long) refl
