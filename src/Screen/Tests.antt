-- ===== src/Screen/Tests.antt =====
-- The screen of src/drivers/video.c on a frame buffer of three rows of four pixels, a byte each.
use geek_toy_os.Base.{
  ℕ, ◌+◌, ◌-◌, ◌*◌, ◌≡◌, refl, arith, true, false, inl, ltb, leb, ◌&&◌, if◌then◌else◌, none, [],
  ◌∷◌, ◌<◌,
}
use geek_toy_os.MemOps.{Mem}
use geek_toy_os.Screen.{
  ScreenInfo, Screen, Dirty, ColorPalette, screen_put_pixel, screen_flush_buffer,
}
use geek_toy_os.Screen.Rows.{IsLaidOut, IsShown}
use geek_toy_os.Screen.Pixel.{screen_put_pixel_lem, pixel_place, byte_at}
use geek_toy_os.Screen.Shown.{IsReady, IsSettled, IsShownIn, screen_flush_buffer_lem}
use geek_toy_os.Screen.Glyph.{
  bit_part, color_distance, trans_color2pixel, screen_input_char, screen_move_up,
}
use geek_toy_os.Screen.Glyph.Char.{cell_rect, screen_input_char-IsShownIn}
use geek_toy_os.Screen.Glyph.Color.{IsNearest, square_between, trans_color2pixel-IsNearest}
use geek_toy_os.Screen.Glyph.Scroll.{whole, screen_move_up-IsShownIn}

abbrev tiny : ScreenInfo
tiny = record {
  base = 4096;
  buffer = 8192;
  width = 4;
  height = 3;
  pitch = 8;
  bytesperglyph = 1;
  bpp = 1;
  screen_type = 1;
  font_width = 2;
  font_height = 1;
  table = none;
  glyph = 100;
  numglyph = 3;
  palette = [];
  r = record { pos = 0; size = 3 };
  g = record { pos = 3; size = 3 };
  b = record { pos = 6; size = 2 };
}

tiny-IsLaidOut : IsLaidOut tiny
tiny-IsLaidOut = record {
  base_top = omega arith;
  buffer_top = omega arith;
  apart = inl (omega arith);
  row = omega arith;
  wide = omega arith;
  tall = omega arith;
}

abbrev clean : Dirty
clean = record {
  dirty_xstart = 0;
  dirty_xend = 0;
  dirty_ystart = 0;
  dirty_yend = 0;
  buffer_dirty = false;
}

-- The frame buffer holds 7 and all else 1.
abbrev old_bytes : Mem
old_bytes a = if ltb a 5000 && leb 4096 a then 7 else 1

old_bytes-small : (a : ℕ) → old_bytes a < 256
old_bytes-small a = ground arith

abbrev start : Screen
start = record { dirty = clean; mem = old_bytes }

-- Two pixels of the first row are dirty.
abbrev marked : Screen
marked = record {
  dirty = record {
    dirty_xstart = 1;
    dirty_xend = 3;
    dirty_ystart = 0;
    dirty_yend = 1;
    buffer_dirty = true;
  };
  mem = old_bytes;
}

marked-IsReady : IsReady tiny (IsShown tiny old_bytes) marked
marked-IsReady = record {
  bytes = old_bytes-small;
  on_screen = λ e. record {
    across = omega arith;
    right = omega arith;
    down = omega arith;
    bottom = omega arith;
  };
  clean = λ y b yh bh p out. p;
}

screen_put_pixel_example : screen_put_pixel tiny 2 1 5 old_bytes 8202 ≡ (
    if ltb 2 tiny.width
      && ltb 1 tiny.height
      && leb (pixel_place tiny 2 1) 8202
      && ltb 8202 (pixel_place tiny 2 1 + tiny.bpp)
    then byte_at 5 (8202 - pixel_place tiny 2 1)
    else old_bytes 8202)
screen_put_pixel_example =
    screen_put_pixel_lem tiny 2 1 5 8202 old_bytes tiny-IsLaidOut (omega arith) (omega arith)
      old_bytes-small

screen_flush_buffer_example :
    IsSettled tiny (IsShown tiny old_bytes) (screen_flush_buffer tiny marked)
    × ((o : ℕ)
        → o < tiny.pitch * tiny.height
        → (screen_flush_buffer tiny marked).mem (tiny.buffer + o) ≡ marked.mem (tiny.buffer + o))
screen_flush_buffer_example =
    screen_flush_buffer_lem tiny (IsShown tiny old_bytes) marked tiny-IsLaidOut marked-IsReady

screen_input_char_example :
    IsShownIn tiny (cell_rect tiny 2 1) start (screen_input_char tiny 2 1 0xFFFFFF 0 65 start)
screen_input_char_example =
    screen_input_char-IsShownIn tiny 2 1 0xFFFFFF 0 65 start tiny-IsLaidOut (omega arith)
      (omega arith) (λ e. absurd (omega (arith, e))) (λ e. absurd (omega (arith, e))) (omega arith)
      (omega arith) (λ e. omega arith) refl old_bytes-small

abbrev red_and_blue : ScreenInfo
red_and_blue = record tiny {
  screen_type = 2;
  palette = record { r = 255; g = 0; b = 0 } ∷ record { r = 0; g = 0; b = 255 } ∷ [];
}

trans_color2pixel_example :
    (c : ColorPalette) × IsNearest
      (record { r = 255; g = 0; b = 0 } ∷ record { r = 0; g = 0; b = 255 } ∷ [])
      (bit_part 0x1020F0 16 8)
      (bit_part 0x1020F0 8 8)
      (bit_part 0x1020F0 0 8)
      (trans_color2pixel red_and_blue 0x1020F0)
      c
    × ((r g b : ℕ) (d : ColorPalette)
        → color_distance r g b d
          ≡ square_between r d.r + square_between g d.g + square_between b d.b)
trans_color2pixel_example =
    trans_color2pixel-IsNearest red_and_blue 0x1020F0 (record { r = 255; g = 0; b = 0 })
      (record { r = 0; g = 0; b = 255 } ∷ []) (λ e. absurd (omega (arith, e))) refl
      (omega arith, omega arith, omega arith)

screen_move_up_example :
    IsShownIn tiny (whole tiny) start (screen_move_up tiny 1 0 start)
    × ((y b : ℕ)
        → y + 1 < tiny.height
        → b < tiny.width * tiny.bpp
        → (screen_move_up tiny 1 0 start).mem (tiny.base + (tiny.pitch * y + b))
          ≡ start.mem (tiny.base + (tiny.pitch * (y + 1) + b)))
screen_move_up_example =
    screen_move_up-IsShownIn tiny 1 0 start tiny-IsLaidOut (omega arith) (omega arith) refl
      old_bytes-small (omega arith) (omega arith)
