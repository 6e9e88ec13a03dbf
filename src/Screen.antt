-- ===== src/Screen.antt =====
-- src/drivers/video.c: the frame buffer, its back buffer and the dirty rectangle between them.
-- Memory holds both; glyphs and colours are in Screen/Glyph. A null pointer is 0 or `none`.
pub mod Glyph
pub mod Rows
pub mod Pixel
pub mod Drawn
pub mod Shown
pub mod Marked
pub mod Init
mod Tests
use geek_toy_os.Base.{
  ℕ, zero, suc, ◌+◌, ◌-◌, ◌*◌, ◌/◌, ◌%◌, ◌^◌, bit_and, bit_or, min, max, Bool, true, false, ltb,
  leb, ◌==◌, if◌then◌else◌, update, u8, u32, u64, sub64, Option, none, some, List,
}
use geek_toy_os.MemOps.{Mem, memcpy}

abbrev pub screen_vga : ℕ
screen_vga = 0

abbrev pub screen_rgb : ℕ
screen_rgb = 1

-- `color_palette`
pub record ColorPalette : Type 0 where
  pub r : ℕ
  pub g : ℕ
  pub b : ℕ

-- `color_bit`
pub record ColorBit : Type 0 where
  pub pos : ℕ
  pub size : ℕ

-- `screen_info_t`, with `numglyph` of the font header that `font_header` points to. The two parts
-- of the union stand side by side; `palette` has the `num_colors` entries.
pub record ScreenInfo : Type 0 where
  pub base : ℕ
  pub buffer : ℕ
  pub width : ℕ
  pub height : ℕ
  pub pitch : ℕ
  pub bytesperglyph : ℕ
  pub bpp : ℕ
  pub screen_type : ℕ
  pub font_width : ℕ
  pub font_height : ℕ
  pub table : Option (ℕ → ℕ)
  pub glyph : ℕ
  pub numglyph : ℕ
  pub palette : List ColorPalette
  pub r : ColorBit
  pub g : ColorBit
  pub b : ColorBit

-- The static variables `dirty_xstart` to `buffer_dirty`.
pub record Dirty : Type 0 where
  pub dirty_xstart : ℕ
  pub dirty_xend : ℕ
  pub dirty_ystart : ℕ
  pub dirty_yend : ℕ
  pub buffer_dirty : Bool

-- What the functions below change.
pub record Screen : Type 0 where
  pub dirty : Dirty
  pub mem : Mem

-- The rows `y` up to `y + left` of the loop in `screen_flush_buffer`.
pub flush_loop : ScreenInfo → Dirty → (left y : ℕ) → Mem → Mem
flush_loop info d zero y m = m
flush_loop info d (suc left) y m =
    let offs = u64 (info.pitch * y + d.dirty_xstart * info.bpp) in
    let count = u64 (sub64 d.dirty_xend d.dirty_xstart * info.bpp) in
    flush_loop info d left (y + 1)
      (memcpy m (u64 (info.base + offs)) (u64 (info.buffer + offs)) count)

pub screen_flush_buffer : ScreenInfo → Screen → Screen
screen_flush_buffer info s =
    if s.dirty.buffer_dirty
    then record {
      dirty = record s.dirty { buffer_dirty = false };
      mem =
          flush_loop info s.dirty (s.dirty.dirty_yend - s.dirty.dirty_ystart) s.dirty.dirty_ystart
            s.mem;
    }
    else s

pub screen_buffer_write : (xstart xend ystart yend : ℕ) → Dirty → Dirty
screen_buffer_write xstart xend ystart yend d =
    if d.buffer_dirty
    then record {
      dirty_xstart = min d.dirty_xstart xstart;
      dirty_xend = max d.dirty_xend xend;
      dirty_ystart = min d.dirty_ystart ystart;
      dirty_yend = max d.dirty_yend yend;
      buffer_dirty = true;
    }
    else record {
      dirty_xstart = xstart;
      dirty_xend = xend;
      dirty_ystart = ystart;
      dirty_yend = yend;
      buffer_dirty = true;
    }

-- A little-endian word of `n` bytes.
pub load_le : Mem → (a n : ℕ) → ℕ
load_le m a zero = 0
load_le m a (suc n) = m a + 2 ^ 8 * load_le m (a + 1) n

pub store_le : Mem → (a n value : ℕ) → Mem
store_le m a zero value = m
store_le m a (suc n) value = store_le (update m a (u8 value)) (a + 1) n (value / 2 ^ 8)

-- The switch of `screen_put_pixel`; case 3 falls through, and the default only logs.
pub pixel_write : Mem → (psize pptr pixel : ℕ) → Mem
pixel_write m psize pptr pixel =
    if psize == 1
    then store_le m pptr 1 (bit_and pixel 0xFF)
    else if psize == 2
    then store_le m pptr 2 (bit_and pixel 0xFFFF)
    else if psize == 3
    then store_le m pptr 4 (bit_or (bit_and pixel 0xFFFFFF) (bit_and (load_le m pptr 4) 0xFF000000))
    else if psize == 4
    then store_le m pptr 4 pixel
    else m

pub screen_put_pixel : ScreenInfo → (x y pixel : ℕ) → Mem → Mem
screen_put_pixel info x y pixel m =
    let pptr = u64 (info.buffer + y * info.pitch + x * info.bpp) in
    if leb info.width x
    then m
    else if leb info.height y
    then m
    else pixel_write m info.bpp pptr pixel
