-- ===== src/Console/Cursor.antt =====
-- The cursor of src/kernel/console.c stays on the screen.
use geek_toy_os.Base.{
  ℕ, ◌+◌, ◌-◌, ◌*◌, ◌^◌, ◌≤◌, ◌<◌, ◌≡◌, ◌≢◌, arith, inl, inr, ◌⊎◌, false, leb, ◌==◌, ==_iff,
  Bool-cases, if-eq_of_true, if-eq_of_false, bit_and, u32, List, [], ◌∷◌, length,
}
use mathlib.Core.Path.{subst⁻¹}
use native.Mathlib.Nat.{mul-le-mul_right}
use geek_toy_os.Screen.{ScreenInfo, Screen, screen_vga}
use geek_toy_os.Screen.Rows.{IsLaidOut}
use geek_toy_os.Screen.Glyph.{screen_input_char, screen_move, screen_move_negative}
use geek_toy_os.Screen.Glyph.Char.{screen_input_char-IsShownIn, screen_input_char_ignored}
use geek_toy_os.Screen.Glyph.Scroll.{screen_move_up-IsShownIn}
use geek_toy_os.Console.{
  Console, kputchar, put_char, wrap_line, scroll, cputchar, cputch_all, vcprintf, con_serial,
  con_screen,
}
use geek_toy_os.Console.Steps.{
  kputchar_silent, kputchar_loud, put_char_newline, put_char_drawn, wrap_line_full, wrap_line_room,
  scroll_full, scroll_room,
}

-- A screen that drawing works on: laid out, less than 4 GB, with pixels of one to four bytes.
pub record IsDrawable (info : ScreenInfo) : Type 0 where
  pub laid : IsLaidOut info
  pub some_ : 1 ≤ info.bpp
  pub small : info.bpp ≤ 4
  pub based : info.base ≢ 0
  pub vga : info.screen_type ≡ screen_vga → (info.font_width ≡ 1) × (info.font_height ≡ 1)
  pub span : info.pitch * info.height < 2 ^ 32

pub record IsIdle (s : Screen) : Type 0 where
  pub idle : s.dirty.buffer_dirty ≡ false
  pub bytes : (a : ℕ) → s.mem a < 256

-- The cells of the console lie on the screen, and nothing is dirty.
pub record IsFramed (info : ScreenInfo) (s : Console) : Type 0 where
  pub across : s.console.xlimit * s.console.xstep ≤ info.width
  pub down : s.console.ylimit * s.console.ystep ≤ info.height
  pub cell_width : s.console.xstep ≡ info.font_width
  pub cell_height : s.console.ystep ≡ info.font_height
  pub some_row : 1 ≤ s.console.ystep
  pub low_row : s.console.ystep < 256
  pub columns : 1 ≤ s.console.xlimit
  pub rows : 1 ≤ s.console.ylimit
  pub wide : s.console.xlimit < 2 ^ 32
  pub tall : s.console.ylimit < 2 ^ 32
  pub ready : IsIdle s.screen

pub record IsConsole (info : ScreenInfo) (s : Console) : Type 0 where
  pub framed : IsFramed info s
  pub in_line : s.console.x < s.console.xlimit
  pub in_rows : s.console.y < s.console.ylimit

-- The cursor may move and the screen change within the frame.
IsFramed-moved :
    {info : ScreenInfo} {s : Console} (x y : ℕ) (screen : Screen) (serial : List ℕ)
    → IsFramed info s
    → IsIdle screen
    → IsFramed info
        (record s { console = record s.console { x = x; y = y }; screen = screen; serial = serial })
IsFramed-moved x y screen serial f ready = record {
  across = f.across;
  down = f.down;
  cell_width = f.cell_width;
  cell_height = f.cell_height;
  some_row = f.some_row;
  low_row = f.low_row;
  columns = f.columns;
  rows = f.rows;
  wide = f.wide;
  tall = f.tall;
  ready = ready;
}

module _ (info : ScreenInfo) (drawable : IsDrawable info) where
  screen_input_char-IsIdle :
      (x y front_color back_color chr : ℕ) (s : Screen)
      → x + info.font_width ≤ info.width
      → y + info.font_height ≤ info.height
      → IsIdle s
      → IsIdle (screen_input_char info x y front_color back_color chr s)
  screen_input_char-IsIdle x y front_color back_color chr s xw yh rest =
      elim (Bool-cases (leb 0xFFFF chr)) [
        | inr short ↦ drawn (λ _. ground (arith, short))
        | inl long ↦ elim (Bool-cases (info.screen_type == screen_vga)) [
          | inl text ↦ drawn (λ apart. absurd (apart ((==_iff _ _).0 text)))
          | inr graphic ↦
              rw
                (screen_input_char_ignored info x y front_color back_color chr s drawable.based
                  (λ e. ground (arith, e, graphic)) (ground (arith, long)))
                rest
        ]
      ]
    where
      drawn :
          (info.screen_type ≢ screen_vga → chr < 0xFFFF)
          → IsIdle (screen_input_char info x y front_color back_color chr s)
      drawn low =
          let done =
            screen_input_char-IsShownIn info x y front_color back_color chr s drawable.laid
              drawable.some_ drawable.small drawable.based drawable.vga xw yh low rest.idle
              rest.bytes in
          record { idle = done.now.settled; bytes = done.now.bytes }

  screen_move-IsIdle :
      (ystep fill_color : ℕ) (s : Screen)
      → 1 ≤ ystep
      → ystep ≤ 2 ^ 31
      → ystep ≤ info.height
      → IsIdle s
      → IsIdle (screen_move info (u32 (2 ^ 32 - ystep)) fill_color s)
  screen_move-IsIdle ystep fill_color s some_row small within rest =
      rw (screen_move_negative info ystep fill_color s some_row small) (
        let (done, _) =
          screen_move_up-IsShownIn info ystep fill_color s drawable.laid drawable.some_
            drawable.small rest.idle rest.bytes within drawable.span in
        record { idle = done.now.settled; bytes = done.now.bytes })

  kputchar-IsConsole : (ch : ℕ) (s : Console) → IsConsole info s → IsConsole info (kputchar ch s)
  unfolding kputchar
  kputchar-IsConsole ch s c = elim (Bool-cases (bit_and s.console_flag con_serial == 0)) [
    | inl silent ↦ rw (kputchar_silent ch s silent) c
    | inr loud ↦ rw (kputchar_loud ch s loud) (record {
      framed = IsFramed-moved {info = info} {s = s} _ _ _ _ c.framed c.framed.ready;
      in_line = c.in_line;
      in_rows = c.in_rows;
    })
  ]

  -- The cursor of `s` is in the frame, or at the end of a line or under the last.
  IsReached : Console → Type 0
  IsReached s =
      ((s.console.x ≤ s.console.xlimit) × (s.console.y < s.console.ylimit))
      ⊎ ((s.console.x < s.console.xlimit) × (s.console.y ≤ s.console.ylimit))

  put_char-IsFramed :
      (ch : ℕ) (s : Console)
      → IsConsole info s
      → IsFramed info (put_char info ch s) × IsReached (put_char info ch s)
  unfolding IsReached
  put_char-IsFramed ch s c = elim (Bool-cases (ch == 10)) [
    | inl newline ↦ rw (put_char_newline info ch s newline) (
      IsFramed-moved {info = info} {s = s} _ _ _ _ c.framed c.framed.ready,
      inr (omega (arith, c.in_line), omega (arith, c.in_rows)),
    )
    | inr drawn ↦
        let f = c.framed in
        let right =
          mul-le-mul_right {m = s.console.x + 1} {n = s.console.xlimit} s.console.xstep
            (omega (arith, c.in_line)) in
        let bottom =
          mul-le-mul_right {m = s.console.y + 1} {n = s.console.ylimit} s.console.ystep
            (omega (arith, c.in_rows)) in
        rw (put_char_drawn info ch s drawn) (
          IsFramed-moved {info = info} {s = s} _ _ _ _ f (
              screen_input_char-IsIdle _ _ _ _ ch s.screen
                (omega (arith, right, f.across, f.cell_width, drawable.laid.wide))
                (omega (arith, bottom, f.down, f.cell_height, drawable.laid.tall)) f.ready),
          inl (omega (arith, c.in_line, f.wide), c.in_rows),
        )
  ]

  wrap_line-IsFramed :
      (s : Console)
      → IsFramed info s
      → IsReached s
      → IsFramed info (wrap_line s)
        × ((wrap_line s).console.x < (wrap_line s).console.xlimit)
        × ((wrap_line s).console.y ≤ (wrap_line s).console.ylimit)
  unfolding IsReached
  wrap_line-IsFramed s f reached = elim (Bool-cases (s.console.x == s.console.xlimit)) [
    | inl full ↦ rw (wrap_line_full s full) (
      IsFramed-moved {info = info} {s = s} _ _ _ _ f f.ready,
      elim reached [ inl (x, y) ↦ f.columns | inr (x, y) ↦ absurd (ground (arith, x, full)) ],
      elim reached [
        | inl (x, y) ↦ omega (arith, y)
        | inr (x, y) ↦ absurd (ground (arith, x, full))
      ],
    )
    | inr room ↦ rw (wrap_line_room s room) (
      f,
      elim reached [ inl (x, y) ↦ ground (arith, x, room) | inr (x, y) ↦ x ],
      elim reached [ inl (x, y) ↦ omega (arith, y) | inr (x, y) ↦ y ],
    )
  ]

  scroll-IsConsole :
      (s : Console)
      → IsFramed info s
      → s.console.x < s.console.xlimit
      → s.console.y ≤ s.console.ylimit
      → IsConsole info (scroll info s)
  scroll-IsConsole s f xl yl = elim (Bool-cases (s.console.y == s.console.ylimit)) [
    | inl full ↦
        let last : s.console.y ≡ s.console.ylimit = (==_iff _ _).0 full in
        let one_row = mul-le-mul_right {m = 1} {n = s.console.ylimit} s.console.ystep f.rows in
        rw (scroll_full info s full) (record {
          framed = IsFramed-moved {info = info} {s = s} _ _ _ _ f (
              screen_move-IsIdle s.console.ystep 0x000000 s.screen f.some_row
                (omega (arith, f.low_row)) (omega (arith, one_row, f.down)) f.ready);
          in_line = xl;
          in_rows = omega (arith, last, f.rows, f.tall);
        })
    | inr room ↦
        rw (scroll_room info s room)
          (record { framed = f; in_line = xl; in_rows = ground (arith, yl, room) })
  ]

  -- On a drawable screen `cputchar` of any character, a line feed, one at the end of a line, one that
  -- scrolls or one that has no glyph, keeps the cursor on a cell of the screen and leaves nothing
  -- dirty.
  pub cputchar-IsConsole :
      (ch : ℕ) (s : Console) → IsConsole info s → IsConsole info (cputchar info ch s)
  unfolding cputchar
  cputchar-IsConsole ch s c =
      let c1 = kputchar-IsConsole ch s c in
      let (f2, reached) = put_char-IsFramed ch (kputchar ch s) c1 in
      let (f3, x3, y3) = wrap_line-IsFramed (put_char info ch (kputchar ch s)) f2 reached in
      elim (Bool-cases (bit_and (kputchar ch s).console_flag con_screen == 0)) [
        | inl serial_only ↦ subst⁻¹ (IsConsole info) (if-eq_of_true _ _ serial_only) c1
        | inr screen_too ↦
            subst⁻¹ (IsConsole info) (if-eq_of_false _ _ screen_too)
              (scroll-IsConsole (wrap_line (put_char info ch (kputchar ch s))) f3 x3 y3)
      ]

  cputch_all-IsConsole :
      (out : List ℕ) (count : ℕ) (s : Console)
      → count < 2 ^ 32
      → IsConsole info s
      → IsConsole info (cputch_all info out count s).0
        × ((cputch_all info out count s).1 ≡ u32 (count + length out))
  unfolding cputch_all
  cputch_all-IsConsole [] count s small c = (c, omega (arith, small))
  cputch_all-IsConsole (ch ∷ chs) count s small c =
      let (done, counted) =
        cputch_all-IsConsole chs (u32 (count + 1)) (cputchar info ch s) (omega arith)
          (cputchar-IsConsole ch s c) in
      (done, omega (arith, counted))

  -- `vcprintf` on a drawable screen keeps the cursor on a cell of the screen over the whole text,
  -- and returns the number of characters put.
  pub vcprintf-IsConsole :
      (out : List ℕ) (s : Console)
      → IsConsole info s
      → IsConsole info (vcprintf info out s).0 × ((vcprintf info out s).1 ≡ u32 (length out))
  unfolding vcprintf
  vcprintf-IsConsole out s c =
      let (done, counted) = cputch_all-IsConsole out 0 s (omega arith) c in
      (done, omega (arith, counted))
