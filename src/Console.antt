-- ===== src/Console.antt =====
-- src/kernel/console.c: the console on the serial line and the screen. What `vprintfmt` puts is the
-- list of its characters, and the lock is left out.
pub mod Steps
pub mod Cursor
mod Tests
use geek_toy_os.Base.{
  ℕ, ◌+◌, ◌-◌, ◌*◌, ◌/◌, ◌%◌, ◌^◌, bit_and, bit_or, Bool, true, false, ◌==◌, if◌then◌else◌, u8, u32,
  List, [], ◌∷◌, ◌++◌,
}
use geek_toy_os.MemOps.{Mem}
use geek_toy_os.Format.Formats.{vprintfmt}
use geek_toy_os.Screen.{ScreenInfo, Screen}
use geek_toy_os.Screen.Glyph.{screen_input_char, screen_move}

abbrev pub con_serial : ℕ
con_serial = 1

abbrev pub con_screen : ℕ
con_screen = 2

-- `console_t`
pub record ConsoleT : Type 0 where
  pub x : ℕ
  pub y : ℕ
  pub xlimit : ℕ
  pub ylimit : ℕ
  pub xstep : ℕ
  pub ystep : ℕ

-- The console with `console_flag`, the screen, and the bytes written to the serial line.
pub record Console : Type 0 where
  pub console : ConsoleT
  pub console_flag : ℕ
  pub screen : Screen
  pub serial : List ℕ

pub kputchar : (ch : ℕ) → Console → Console
kputchar ch s =
    if bit_and s.console_flag con_serial == 0
    then s
    else record s { serial = s.serial ++ u8 ch ∷ [] }

-- The switch of `cputchar`; a line feed is 10.
pub put_char : ScreenInfo → (ch : ℕ) → Console → Console
put_char info ch s =
    let c = s.console in
    if ch == 10 then record s { console = record c { x = 0; y = u32 (c.y + 1) } } else record s {
      console = record c { x = u32 (c.x + 1) };
      screen =
          screen_input_char info (u32 (c.x * c.xstep)) (u32 (c.y * c.ystep)) 0xFFFFFF 0x000000 ch
            s.screen;
    }

-- `if (console.x == console.xlimit)`
pub wrap_line : Console → Console
wrap_line s =
    let c = s.console in
    if c.x == c.xlimit then record s { console = record c { x = 0; y = u32 (c.y + 1) } } else s

-- `if (console.y == console.ylimit)`
pub scroll : ScreenInfo → Console → Console
scroll info s =
    let c = s.console in
    if c.y == c.ylimit
    then record s {
      console = record c { y = u32 (c.y + (2 ^ 32 - 1)) };
      screen = screen_move info (u32 (2 ^ 32 - c.ystep)) 0x000000 s.screen;
    }
    else s

pub cputchar : ScreenInfo → (ch : ℕ) → Console → Console
cputchar info ch s0 =
    let s = kputchar ch s0 in
    if bit_and s.console_flag con_screen == 0
    then s
    else scroll info (wrap_line (put_char info ch s))

-- `vprintfmt` putting its characters by `cputch`, with the count.
pub cputch_all : ScreenInfo → List ℕ → (count : ℕ) → Console → Console × ℕ
cputch_all info [] count s = (s, count)
cputch_all info (ch ∷ chs) count s = cputch_all info chs (u32 (count + 1)) (cputchar info ch s)

-- `vcprintf` for the characters that `vprintfmt` puts.
pub vcprintf : ScreenInfo → List ℕ → Console → Console × ℕ
vcprintf info out s = cputch_all info out 0 s

-- `cprintf` of a format, with the memory its strings lie in and its argument slots.
pub cprintf :
    ScreenInfo → Mem → (longest : ℕ) → (args : ℕ → ℕ) → (fmt : List ℕ) → Console → Console × ℕ
cprintf info m longest args fmt s = vcprintf info (vprintfmt m longest args fmt) s

-- `vprintfmt` putting its characters by `kputch`, with the count.
pub kputch_all : List ℕ → (count : ℕ) → Console → Console × ℕ
kputch_all [] count s = (s, count)
kputch_all (ch ∷ chs) count s = kputch_all chs (u32 (count + 1)) (kputchar ch s)

pub kprintf : Mem → (longest : ℕ) → (args : ℕ → ℕ) → (fmt : List ℕ) → Console → Console × ℕ
kprintf m longest args fmt s = kputch_all (vprintfmt m longest args fmt) 0 s

-- The part of `console_init` that follows `serial_init` and `screen_init`, with their results; on a
-- font without width or height it divides by zero, which is 0 here.
pub console_init :
    ScreenInfo → (serial_ok screen_ok : Bool) → Screen → (flag : ℕ) → Console → Console
console_init info serial_ok screen_ok screen flag s =
    let c0 = record s.console { x = 0; y = 0 } in
    let flag1 = if serial_ok then bit_or flag con_serial else flag in
    let c1 = record c0 {
      xlimit = info.width / info.font_width;
      ylimit = info.height / info.font_height;
      xstep = info.font_width;
      ystep = info.font_height;
    } in
    record s {
      console = if screen_ok then c1 else c0;
      console_flag = if screen_ok then bit_or flag1 con_screen else flag1;
      screen = screen;
    }
