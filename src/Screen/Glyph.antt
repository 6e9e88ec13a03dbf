-- ===== src/Screen/Glyph.antt =====
-- The colours, glyphs and scrolling of src/drivers/video.c.
pub mod Char
pub mod Scroll
pub mod Color
use geek_toy_os.Base.{
  ◌≤◌, ◌≡◌, refl, arith, ℕ, zero, suc, ◌+◌, ◌-◌, ◌*◌, ◌/◌, ◌%◌, ◌^◌, bit_and, bit_or, Bool, true,
  false, not, ltb, leb, ◌==◌, if◌then◌else◌, u8, u32, u64, sub32, div_round_up, Option, none, some,
  List, [], ◌∷◌,
}
use geek_toy_os.MemOps.{Mem, memmove}
use geek_toy_os.Screen.{
  ColorPalette, ColorBit, ScreenInfo, Dirty, Screen, screen_vga, screen_rgb, screen_flush_buffer,
  screen_buffer_write, screen_put_pixel,
}

-- `bit_part(x, pos, size)`
pub bit_part : (x pos size : ℕ) → ℕ
bit_part x pos size = bit_and (x / 2 ^ pos) (2 ^ size - 1)

-- `bit_build(x, pos, size)` on `u32`
pub bit_build : (x pos size : ℕ) → ℕ
bit_build x pos size = u32 (bit_and x (2 ^ size - 1) * 2 ^ pos)

-- `make_vga_palette(color)` for the value of `RGB_color`.
pub make_vga_palette : (rgb : ℕ) → ColorPalette
make_vga_palette rgb = record { r = bit_part rgb 16 8; g = bit_part rgb 8 8; b = bit_part rgb 0 8 }

pub vga_palette : List ColorPalette
vga_palette =
    make_vga_palette 0x000000
    ∷ make_vga_palette 0x0000AA
    ∷ make_vga_palette 0x00AA00
    ∷ make_vga_palette 0x00AAAA
    ∷ make_vga_palette 0xAA0000
    ∷ make_vga_palette 0xAA00AA
    ∷ make_vga_palette 0xAA5500
    ∷ make_vga_palette 0xAAAAAA
    ∷ make_vga_palette 0x555555
    ∷ make_vga_palette 0x5555FF
    ∷ make_vga_palette 0x55FF55
    ∷ make_vga_palette 0x55FFFF
    ∷ make_vga_palette 0xFF5555
    ∷ make_vga_palette 0xFF55FF
    ∷ make_vga_palette 0xFFFF55
    ∷ make_vga_palette 0xFFFFFF
    ∷ []

-- `(a - b)*(a - b)` on `int`.
pub squared_gap : (a b : ℕ) → ℕ
squared_gap a b = if leb b a then (a - b) * (a - b) else (b - a) * (b - a)

-- `_distance`
pub color_distance : (r g b : ℕ) → ColorPalette → ℕ
color_distance r g b c = squared_gap r c.r + squared_gap g c.g + squared_gap b c.b

-- The palette loop of `trans_color2pixel` from entry `i` on.
pub nearest_loop : List ColorPalette → (r g b i pixel distance : ℕ) → ℕ
nearest_loop [] r g b i pixel distance = pixel
nearest_loop (c ∷ cs) r g b i pixel distance =
    let near = color_distance r g b c in
    let taken = nearest_loop cs r g b (i + 1) i near in
    let kept = nearest_loop cs r g b (i + 1) pixel distance in
    if ltb near distance then taken else kept

pub trans_color2pixel : ScreenInfo → (color : ℕ) → ℕ
trans_color2pixel info color =
    let r = bit_part color 16 8 in
    let g = bit_part color 8 8 in
    let b = bit_part color 0 8 in
    if info.screen_type == screen_rgb
    then bit_or (bit_or (bit_build r info.r.pos info.r.size) (bit_build g info.g.pos info.g.size))
        (bit_build b info.b.pos info.b.size)
    else nearest_loop info.palette r g b 0 0 (3 * 256 * 256)

-- The loop that gathers a line of the glyph, from byte `i` on.
pub gather : Mem → (left glyph i g : ℕ) → ℕ
gather m zero glyph i g = g
gather m (suc left) glyph i g = gather m left glyph (i + 1) (u32 (u32 (g * 2 ^ 8) + m (glyph + i)))

-- `g` of the line at `glyph`.
pub glyph_line : Mem → (fwidth glyph : ℕ) → ℕ
glyph_line m fwidth glyph =
    let bytesperline = div_round_up fwidth 8 in
    gather m bytesperline glyph 0 0 / 2 ^ (bytesperline * 8 - fwidth)

-- The columns `dx` up to `dx + left`; the mask is an `int` that is shifted with its sign.
pub draw_row : ScreenInfo → (left x y dx mask g pixel pixel_back : ℕ) → Mem → Mem
draw_row info zero x y dx mask g pixel pixel_back m = m
draw_row info (suc left) x y dx mask g pixel pixel_back m =
    let shown = if bit_and g mask == 0 then pixel_back else pixel in
    let mask' = if ltb mask (2 ^ 31) then mask / 2 else mask / 2 + 2 ^ 31 in
    draw_row info left x y (dx + 1) mask' g pixel pixel_back
      (screen_put_pixel info (u32 (x + dx)) y shown m)

-- The lines `dy` up to `dy + left`, with `glyph` at line `dy`.
pub draw_glyph : ScreenInfo → (left x y dy glyph pixel pixel_back : ℕ) → Mem → Mem
draw_glyph info zero x y dy glyph pixel pixel_back m = m
draw_glyph info (suc left) x y dy glyph pixel pixel_back m =
    let g = glyph_line m info.font_width glyph in
    draw_glyph info left x y (dy + 1) (glyph + div_round_up info.font_width 8) pixel pixel_back (
      draw_row info info.font_width x (u32 (y + dy)) 0 (2 ^ (info.font_width - 1)) g pixel
        pixel_back m)

-- The glyph number of `chr`.
pub glyph_of : ScreenInfo → (chr : ℕ) → ℕ
glyph_of info chr =
    let c : ℕ = elim info.table [ some table ↦ table chr | none ↦ chr ] in
    if leb info.numglyph c then 0 else c

-- `pixel` in text mode: the character with its two colours.
pub text_cell : (pixel pixel_back chr : ℕ) → ℕ
text_cell pixel pixel_back chr =
    bit_or (bit_or (bit_and pixel 0xF) (bit_and pixel_back 0xF * 2 ^ 4) * 2 ^ 8) (bit_and chr 0xFF)

pub screen_input_char : ScreenInfo → (x y front_color back_color chr : ℕ) → Screen → Screen
screen_input_char info x y front_color back_color chr s =
    let pixel = trans_color2pixel info front_color in
    let pixel_back = trans_color2pixel info back_color in
    let cell : Screen = record {
      dirty = screen_buffer_write x (u32 (x + 1)) y (u32 (y + 1)) s.dirty;
      mem = screen_put_pixel info x y (text_cell pixel pixel_back chr) s.mem;
    } in
    let drawn : Screen = record {
      dirty =
          screen_buffer_write x (u32 (x + info.font_width)) y (u32 (y + info.font_height)) s.dirty;
      mem =
          draw_glyph info info.font_height x y 0
            (info.glyph + u32 (glyph_of info chr * info.bytesperglyph)) pixel pixel_back s.mem;
    } in
    if info.base == 0
    then s
    else if info.screen_type == screen_vga
    then screen_flush_buffer info cell
    else if leb 0xFFFF chr
    then s
    else screen_flush_buffer info drawn

-- The pixels `x` up to `x + left` of a row that is filled.
pub fill_row : ScreenInfo → (left x y fill_color : ℕ) → Mem → Mem
fill_row info zero x y fill_color m = m
fill_row info (suc left) x y fill_color m =
    fill_row info left (x + 1) y fill_color (screen_put_pixel info x y fill_color m)

pub fill_rows : ScreenInfo → (left y fill_color : ℕ) → Mem → Mem
fill_rows info zero y fill_color m = m
fill_rows info (suc left) y fill_color m =
    fill_rows info left (y + 1) fill_color (fill_row info info.width 0 y fill_color m)

-- `screen_move(ystep, fill_color)` for `ystep >= 0`.
pub screen_move_down : ScreenInfo → (ystep fill_color : ℕ) → Screen → Screen
screen_move_down info ystep fill_color s =
    let kept = u32 (sub32 info.height ystep * info.pitch) in
    let moved = memmove s.mem (u64 (info.buffer + u32 (ystep * info.pitch))) info.buffer kept in
    screen_flush_buffer info (record {
      dirty = screen_buffer_write 0 info.width 0 info.height s.dirty;
      mem = fill_rows info ystep 0 (trans_color2pixel info fill_color) moved;
    })

-- `screen_move(-ystep, fill_color)` for `ystep > 0`; what is kept is read from the frame buffer.
pub screen_move_up : ScreenInfo → (ystep fill_color : ℕ) → Screen → Screen
screen_move_up info ystep fill_color s =
    let kept = u32 (sub32 info.height ystep * info.pitch) in
    let moved = memmove s.mem info.buffer (u64 (info.base + u32 (ystep * info.pitch))) kept in
    let first = sub32 info.height ystep in
    screen_flush_buffer info (record {
      dirty = screen_buffer_write 0 info.width 0 info.height s.dirty;
      mem = fill_rows info (info.height - first) first (trans_color2pixel info fill_color) moved;
    })

-- `ystep` is an `int`, held as its 32-bit pattern.
pub screen_move : ScreenInfo → (ystep fill_color : ℕ) → Screen → Screen
screen_move info ystep fill_color s =
    if ltb ystep (2 ^ 31)
    then screen_move_down info ystep fill_color s
    else screen_move_up info (2 ^ 32 - ystep) fill_color s

-- `screen_move` by minus `ystep` rows scrolls up.
pub screen_move_negative :
    (info : ScreenInfo) (ystep fill_color : ℕ) (s : Screen)
    → 1 ≤ ystep
    → ystep ≤ 2 ^ 31
    → screen_move info (u32 (2 ^ 32 - ystep)) fill_color s ≡ screen_move_up info ystep fill_color s
unfolding screen_move
screen_move_negative info ystep fill_color s some_ small =
    let negative : ltb (u32 (2 ^ 32 - ystep)) (2 ^ 31) ≡ false = ground (arith, some_, small) in
    let back : 2 ^ 32 - u32 (2 ^ 32 - ystep) ≡ ystep = omega (arith, some_, small) in
    rw (negative, back) refl
