-- ===== src/Console/Tests.antt =====
-- The console of src/kernel/console.c on a screen of two by three cells.
use geek_toy_os.Base.{refl, arith, false, inl, none, []}
use geek_toy_os.Screen.{ScreenInfo}
use geek_toy_os.Console.{Console, cputchar}
use geek_toy_os.Console.Cursor.{IsDrawable, IsConsole, cputchar-IsConsole}

abbrev tiny : ScreenInfo
tiny = record {
  base = 4096;
  buffer = 8192;
  width = 4;
  height = 3;
  pitch = 8;
  bytesperglyph = 1;
  bpp = 1;
  screen_type = 1;
  font_width = 2;
  font_height = 1;
  table = none;
  glyph = 100;
  numglyph = 3;
  palette = [];
  r = record { pos = 0; size = 3 };
  g = record { pos = 3; size = 3 };
  b = record { pos = 6; size = 2 };
}

tiny-IsDrawable : IsDrawable tiny
tiny-IsDrawable = record {
  laid = record {
    base_top = omega arith;
    buffer_top = omega arith;
    apart = inl (omega arith);
    row = omega arith;
    wide = omega arith;
    tall = omega arith;
  };
  some_ = omega arith;
  small = omega arith;
  based = λ e. absurd (omega (arith, e));
  vga = λ e. absurd (omega (arith, e));
  span = omega arith;
}

-- The cursor is on the last cell of the last line.
abbrev last_cell : Console
last_cell = record {
  console = record { x = 1; y = 2; xlimit = 2; ylimit = 3; xstep = 2; ystep = 1 };
  console_flag = 3;
  screen = record {
    dirty = record {
      dirty_xstart = 0;
      dirty_xend = 0;
      dirty_ystart = 0;
      dirty_yend = 0;
      buffer_dirty = false;
    };
    mem = λ a. 0;
  };
  serial = [];
}

last_cell-IsConsole : IsConsole tiny last_cell
last_cell-IsConsole = record {
  framed = record {
    across = omega arith;
    down = omega arith;
    cell_width = refl;
    cell_height = refl;
    some_row = omega arith;
    low_row = omega arith;
    columns = omega arith;
    rows = omega arith;
    wide = omega arith;
    tall = omega arith;
    ready = record { idle = refl; bytes = λ a. omega arith };
  };
  in_line = omega arith;
  in_rows = omega arith;
}

cputchar_example : IsConsole tiny (cputchar tiny 65 last_cell)
cputchar_example = cputchar-IsConsole tiny tiny-IsDrawable 65 last_cell last_cell-IsConsole
