-- ===== src/Screen/Glyph/Scroll.antt =====
-- Scrolling in src/drivers/video.c.
use geek_toy_os.Base.{
  ℕ, ◌+◌, ◌-◌, ◌*◌, ◌^◌, ◌≤◌, ◌<◌, ◌≡◌, refl, sym, ap, arith, inl, inr, ◌∙◌, true, false, u32, u64,
  sub32,
}
use native.Mathlib.Nat.{mul-add, mul_comm}
use geek_toy_os.MemOps.{Mem, memmove}
use geek_toy_os.MemOps.Move.{memmove_lem}
use geek_toy_os.MemOps.Bytes.{memmove-AllBytes}
use geek_toy_os.Screen.{ScreenInfo, Screen, screen_buffer_write, screen_flush_buffer}
use geek_toy_os.Screen.Rows.{IsLaidOut, in_span}
use geek_toy_os.Screen.Drawn.{Rect, in_rect, IsDrawn, IsDrawn-trans}
use geek_toy_os.Screen.Shown.{IsShownIn}
use geek_toy_os.Screen.Marked.{IsRect, flush_drawn, flush_drawn_stays}
use geek_toy_os.Screen.Glyph.{fill_rows, screen_move_up, trans_color2pixel}
use geek_toy_os.Screen.Glyph.Char.{fill_rows-IsDrawn}

-- The whole screen.
abbrev pub whole : ScreenInfo → Rect
whole info = record { left = 0; right = info.width; top = 0; bottom = info.height }

-- The rows from `first` on.
abbrev below : ScreenInfo → (first : ℕ) → Rect
below info first = record { left = 0; right = info.width; top = first; bottom = info.height }

module _ (info : ScreenInfo) (k fill_color : ℕ) (s : Screen) (laid : IsLaidOut info)
    (some_ : 1 ≤ info.bpp) (small : info.bpp ≤ 4) (idle : s.dirty.buffer_dirty ≡ false)
    (bytes : (a : ℕ) → s.mem a < 256) (within : k ≤ info.height)
    (span : info.pitch * info.height < 2 ^ 32) where
  kept_bytes : ℕ
  kept_bytes = info.pitch * (info.height - k)

  split_rows : kept_bytes + info.pitch * k ≡ info.pitch * info.height
  unfolding kept_bytes
  split_rows =
      let e : info.height ≡ info.height - k + k = omega (arith, within) in
      sym (ap (λ n. info.pitch * n) e ∙ mul-add info.pitch (info.height - k) k)

  moved : Mem
  moved = memmove s.mem info.buffer (info.base + info.pitch * k) kept_bytes

  -- What is moved and then drawn may change the whole screen.
  moved-IsDrawn : IsDrawn info (whole info) s.mem moved
  unfolding moved
  moved-IsDrawn =
      let (copied, off) =
        memmove_lem s.mem info.buffer (info.base + info.pitch * k) kept_bytes
          (omega (arith, laid.buffer_top, split_rows)) (omega (arith, laid.base_top, split_rows))
          (omega (arith, laid.base_top, laid.buffer_top, laid.apart, split_rows)) in
      record {
        bytes = memmove-AllBytes _ _ _ _ bytes;
        base_kept = λ o h. off (info.base + o) (elim laid.apart [
          | inl low ↦ inl (omega (arith, low, h))
          | inr high ↦ inr (omega (arith, high, h, split_rows))
        ]);
        outside = λ y b yh bh out. absurd (ground (arith, yh, bh, out));
      }

  row_moved :
      (y b : ℕ)
      → y + k < info.height
      → b < info.pitch
      → moved (info.buffer + (info.pitch * y + b)) ≡ s.mem (info.base + (info.pitch * (y + k) + b))
  unfolding moved
  row_moved y b yk bp =
      let inside : info.pitch * y + b < kept_bytes =
        unfold kept_bytes in
        in_span {p = info.pitch} {y = y} {h = info.height - k} {b = b} (omega (arith, yk)) bp in
      let (copied, off) =
        memmove_lem s.mem info.buffer (info.base + info.pitch * k) kept_bytes
          (omega (arith, laid.buffer_top, split_rows)) (omega (arith, laid.base_top, split_rows))
          (omega (arith, laid.base_top, laid.buffer_top, laid.apart, split_rows)) in
      let place : info.base + info.pitch * k + (info.pitch * y + b)
          ≡ info.base + (info.pitch * (y + k) + b) =
        omega (arith, mul-add info.pitch y k) in
      copied (info.pitch * y + b) inside ∙ ap s.mem place

  all_in :
      (y b : ℕ) → y < info.height → b < info.width * info.bpp → in_rect info (whole info) y b ≡ true
  all_in y b yh bh = ground (arith, yh, bh)

  filled : Mem
  filled =
      fill_rows info (info.height - (info.height - k)) (info.height - k)
        (trans_color2pixel info fill_color) moved

  below-IsRect : IsRect info (below info (info.height - k))
  below-IsRect = record {
    across = omega arith;
    right = omega arith;
    down = omega arith;
    bottom = omega arith;
  }

  whole-IsRect : IsRect info (whole info)
  whole-IsRect = record {
    across = omega arith;
    right = omega arith;
    down = omega arith;
    bottom = omega arith;
  }

  filled-below : IsDrawn info (below info (info.height - k)) moved filled
  unfolding filled
  filled-below =
      fill_rows-IsDrawn info laid some_ small (below info (info.height - k)) below-IsRect _ _ _
        moved moved-IsDrawn.bytes refl refl (omega arith) (omega (arith, within))

  filled-IsDrawn : IsDrawn info (whole info) s.mem filled
  unfolding filled
  filled-IsDrawn = IsDrawn-trans moved-IsDrawn (
      fill_rows-IsDrawn info laid some_ small (whole info) whole-IsRect _ _ _ moved
        moved-IsDrawn.bytes refl refl (omega arith) (omega (arith, within)))

  move_flushes :
      screen_move_up info k fill_color s
      ≡ screen_flush_buffer info
          (record { dirty = screen_buffer_write 0 info.width 0 info.height s.dirty; mem = filled })
  unfolding screen_move_up filled moved kept_bytes
  move_flushes =
      let first : sub32 info.height k ≡ info.height - k = omega (arith, laid.tall, within) in
      let rows = mul_comm (info.height - k) info.pitch in
      let kept : u32 ((info.height - k) * info.pitch) ≡ info.pitch * (info.height - k) =
        omega (arith, rows, split_rows, span) in
      let step : u32 (k * info.pitch) ≡ info.pitch * k =
        omega (arith, mul_comm k info.pitch, split_rows, span) in
      let from_ : u64 (info.base + info.pitch * k) ≡ info.base + info.pitch * k =
        omega (arith, laid.base_top, split_rows) in
      rw (first, kept, step, from_) refl

  -- Scrolling up by `k` rows, at most all, a laid out screen of less than 4 GB, with pixels of one to
  -- four bytes and nothing dirty, ends with nothing dirty and the whole screen shown, and each byte
  -- of a row that stays is the one that was shown `k` rows below it.
  pub screen_move_up-IsShownIn :
      IsShownIn info (whole info) s (screen_move_up info k fill_color s)
      × ((y b : ℕ)
          → y + k < info.height
          → b < info.width * info.bpp
          → (screen_move_up info k fill_color s).mem (info.base + (info.pitch * y + b))
            ≡ s.mem (info.base + (info.pitch * (y + k) + b)))
  screen_move_up-IsShownIn = rw move_flushes (
      let done =
        flush_drawn info s (whole info) filled laid idle bytes whole-IsRect filled-IsDrawn in
      (
        done,
        λ y b yk bh.
            let yh : y < info.height = omega (arith, yk) in
            let in_row : b < info.pitch = omega (arith, bh, laid.row) in
            done.now.shown y b yh bh (inr (all_in y b yh bh))
            ∙ flush_drawn_stays info s (whole info) filled laid idle bytes whole-IsRect
                filled-IsDrawn (info.pitch * y + b) (in_span yh in_row)
            ∙ filled-below.outside y b yh bh (ground (arith, yk))
            ∙ row_moved y b yk in_row,
      ))
