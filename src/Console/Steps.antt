-- ===== src/Console/Steps.antt =====
-- The branches of the functions of src/kernel/console.c, as equations.
use geek_toy_os.Base.{
  ℕ, ◌+◌, ◌-◌, ◌*◌, ◌^◌, ◌≡◌, true, false, ◌==◌, if-eq_of_true, if-eq_of_false, bit_and, u8, u32,
  [], ◌∷◌, ◌++◌,
}
use geek_toy_os.Screen.{ScreenInfo}
use geek_toy_os.Screen.Glyph.{screen_input_char, screen_move}
use geek_toy_os.Console.{Console, kputchar, put_char, wrap_line, scroll, con_serial}

pub kputchar_silent :
    (ch : ℕ) (s : Console) → (bit_and s.console_flag con_serial == 0) ≡ true → kputchar ch s ≡ s
unfolding kputchar
kputchar_silent ch s e = if-eq_of_true _ _ e

pub kputchar_loud :
    (ch : ℕ) (s : Console)
    → (bit_and s.console_flag con_serial == 0) ≡ false
    → kputchar ch s ≡ record s { serial = s.serial ++ u8 ch ∷ [] }
unfolding kputchar
kputchar_loud ch s e = if-eq_of_false _ _ e

pub put_char_newline :
    (info : ScreenInfo) (ch : ℕ) (s : Console)
    → (ch == 10) ≡ true
    → put_char info ch s
      ≡ record s { console = record s.console { x = 0; y = u32 (s.console.y + 1) } }
unfolding put_char
put_char_newline info ch s e = if-eq_of_true _ _ e

pub put_char_drawn :
    (info : ScreenInfo) (ch : ℕ) (s : Console)
    → (ch == 10) ≡ false
    → put_char info ch s ≡ record s {
      console = record s.console { x = u32 (s.console.x + 1) };
      screen =
          screen_input_char info
            (u32 (s.console.x * s.console.xstep))
            (u32 (s.console.y * s.console.ystep))
            0xFFFFFF
            0x000000
            ch
            s.screen;
    }
unfolding put_char
put_char_drawn info ch s e = if-eq_of_false _ _ e

pub wrap_line_full :
    (s : Console)
    → (s.console.x == s.console.xlimit) ≡ true
    → wrap_line s ≡ record s { console = record s.console { x = 0; y = u32 (s.console.y + 1) } }
unfolding wrap_line
wrap_line_full s e = if-eq_of_true _ _ e

pub wrap_line_room : (s : Console) → (s.console.x == s.console.xlimit) ≡ false → wrap_line s ≡ s
unfolding wrap_line
wrap_line_room s e = if-eq_of_false _ _ e

pub scroll_full :
    (info : ScreenInfo) (s : Console)
    → (s.console.y == s.console.ylimit) ≡ true
    → scroll info s ≡ record s {
      console = record s.console { y = u32 (s.console.y + (2 ^ 32 - 1)) };
      screen = screen_move info (u32 (2 ^ 32 - s.console.ystep)) 0x000000 s.screen;
    }
unfolding scroll
scroll_full info s e = if-eq_of_true _ _ e

pub scroll_room :
    (info : ScreenInfo) (s : Console)
    → (s.console.y == s.console.ylimit) ≡ false
    → scroll info s ≡ s
unfolding scroll
scroll_room info s e = if-eq_of_false _ _ e
