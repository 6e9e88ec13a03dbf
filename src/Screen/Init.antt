-- ===== src/Screen/Init.antt =====
-- The set-up of the screen in src/drivers/video.c, from the tag of the boot loader and the font.
use geek_toy_os.Base.{
  ℕ, ◌+◌, ◌-◌, ◌*◌, ◌%◌, Bool, true, false, ◌==◌, if◌then◌else◌, u8, u32, u64, div_round_up, Option,
  none, some, List, ◌≡◌, ap, sym, ◌∙◌, arith, inl, inr, Bool-cases, if-eq_of_true, if-eq_of_false,
}
use geek_toy_os.MemOps.{Mem}
use geek_toy_os.Screen.{ScreenInfo, ColorPalette, ColorBit, load_le}
use geek_toy_os.Screen.Glyph.{vga_palette}

-- The fields of `struct multiboot_tag_framebuffer` that are read.
pub record FramebufferTag : Type 0 where
  pub addr : ℕ
  pub pitch : ℕ
  pub width : ℕ
  pub height : ℕ
  pub bpp : ℕ
  pub framebuffer_type : ℕ
  pub palette : List ColorPalette
  pub red : ColorBit
  pub green : ColorBit
  pub blue : ColorBit

-- The bytes of the frame buffer in whole pages, on `u32`.
pub framebuffer_size : (pitch height : ℕ) → ℕ
framebuffer_size pitch height = let y = u32 (u32 (pitch * height) + 4095) in y - y % 4096

-- `psf_init` for the font at `start` in memory, as far as the unicode table; `unicode_table` is the
-- table that is used when the font has none of its own.
pub psf_init : Mem → (start : ℕ) → (unicode_table : ℕ → ℕ) → ScreenInfo → ScreenInfo
psf_init m start unicode_table info =
    let flags = load_le m (start + 12) 4 in
    record info {
      font_height = u8 (load_le m (start + 24) 4);
      font_width = u8 (load_le m (start + 28) 4);
      bytesperglyph = load_le m (start + 20) 4;
      numglyph = load_le m (start + 16) 4;
      glyph = u64 (start + load_le m (start + 8) 4);
      table = if flags == 0 then some unicode_table else info.table;
    }

-- The switch on the kind of the frame buffer.
pub set_kind : FramebufferTag → ScreenInfo → ScreenInfo
set_kind tag info =
    if tag.framebuffer_type == 1
    then record info { screen_type = 1; r = tag.red; g = tag.green; b = tag.blue }
    else if tag.framebuffer_type == 0
    then record info { screen_type = 2; palette = tag.palette }
    else if tag.framebuffer_type == 2
    then record info { screen_type = 0; palette = vga_palette }
    else info

-- `screen_init` with the address that `arch_kmap` gives for the frame buffer and that of the pages
-- for the back buffer.
pub screen_init :
    (tag : Option FramebufferTag)
    → (base buffer : ℕ) → Mem
    → (font : ℕ) → (unicode_table : ℕ → ℕ) → ScreenInfo
    → Bool × ScreenInfo
screen_init none base buffer m font unicode_table info = (false, info)
screen_init (some tag) base buffer m font unicode_table info =
    let i1 = record info {
      bpp = u8 (div_round_up tag.bpp 8);
      height = tag.height;
      width = tag.width;
      pitch = tag.pitch;
      base = base;
      buffer = buffer;
    } in
    let i2 = set_kind tag i1 in
    let text = record i2 {
      font_height = 1;
      font_width = 1;
      table = none;
      numglyph = 0;
      glyph = 0;
    } in
    (true, if i2.screen_type == 0 then text else psf_init m font unicode_table i2)

-- In text mode `screen_init` leaves a font of one by one.
pub screen_init_text :
    (tag : FramebufferTag) (base buffer : ℕ) (m : Mem) (font : ℕ) (unicode_table : ℕ → ℕ)
    (info : ScreenInfo)
    → (screen_init (some tag) base buffer m font unicode_table info).1.screen_type ≡ 0
    → ((screen_init (some tag) base buffer m font unicode_table info).1.font_width ≡ 1)
      × ((screen_init (some tag) base buffer m font unicode_table info).1.font_height ≡ 1)
unfolding screen_init psf_init
screen_init_text tag base buffer m font unicode_table info text =
    let i1 : ScreenInfo = record info {
      bpp = u8 (div_round_up tag.bpp 8);
      height = tag.height;
      width = tag.width;
      pitch = tag.pitch;
      base = base;
      buffer = buffer;
    } in
    elim (Bool-cases ((set_kind tag i1).screen_type == 0)) [
      | inl vga ↦ (
        ap (λ (i : ScreenInfo). i.font_width) (if-eq_of_true _ _ vga),
        ap (λ (i : ScreenInfo). i.font_height) (if-eq_of_true _ _ vga),
      )
      | inr other ↦
          let kind = ap (λ (i : ScreenInfo). i.screen_type) (if-eq_of_false _ _ other) in
          absurd (ground (arith, other, sym kind ∙ text))
    ]
