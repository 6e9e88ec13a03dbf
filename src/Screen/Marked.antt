-- ===== src/Screen/Marked.antt =====
-- `screen_buffer_write` of src/drivers/video.c marks what was drawn.
use geek_toy_os.Base.{
  ℕ, ◌+◌, ◌*◌, min, max, ◌≤◌, ◌<◌, ◌≡◌, ap, arith, inl, inr, ◌∙◌, ◌⊎◌, sym, true, false, Bool-cases,
  if-eq_of_true, if-eq_of_false, ◌&&◌,
}
use native.Mathlib.Nat.{mul-le-mul_right}
use mathlib.Core.Path.{subst}
use geek_toy_os.MemOps.{Mem}
use geek_toy_os.Screen.{ScreenInfo, Dirty, Screen, screen_flush_buffer, screen_buffer_write}
use geek_toy_os.Screen.Rows.{IsLaidOut, IsOnScreen, IsShown, in_span}
use geek_toy_os.Screen.Drawn.{Rect, in_rect, IsDrawn}
use geek_toy_os.Screen.Shown.{
  dirty_rect, IsReady, IsShownIn, idle-IsReady, screen_flush_buffer-IsSettled, flush_stays,
}

-- A rectangle of the screen.
pub record IsRect (info : ScreenInfo) (r : Rect) : Type 0 where
  pub across : r.left ≤ r.right
  pub right : r.right ≤ info.width
  pub down : r.top ≤ r.bottom
  pub bottom : r.bottom ≤ info.height

union_outside :
    (info : ScreenInfo) (q r : Rect) (y b : ℕ)
    → in_rect info
        (record {
          left = min q.left r.left;
          right = max q.right r.right;
          top = min q.top r.top;
          bottom = max q.bottom r.bottom;
        })
        y
        b
      ≡ false
    → (in_rect info q y b ≡ false) × (in_rect info r y b ≡ false)
union_outside info q r y b out =
    let l1 = mul-le-mul_right {m = min q.left r.left} {n = r.left} info.bpp (omega arith) in
    let l2 = mul-le-mul_right {m = min q.left r.left} {n = q.left} info.bpp (omega arith) in
    let r1 = mul-le-mul_right {m = r.right} {n = max q.right r.right} info.bpp (omega arith) in
    let r2 = mul-le-mul_right {m = q.right} {n = max q.right r.right} info.bpp (omega arith) in
    (ground (arith, out, l2, r2), ground (arith, out, l1, r1))

-- The rectangle that `screen_buffer_write` leaves when one was dirty, or none.
write_union :
    (r : Rect) (d : Dirty)
    → d.buffer_dirty ≡ true
    → dirty_rect (screen_buffer_write r.left r.right r.top r.bottom d) ≡ record {
      left = min d.dirty_xstart r.left;
      right = max d.dirty_xend r.right;
      top = min d.dirty_ystart r.top;
      bottom = max d.dirty_yend r.bottom;
    }
unfolding screen_buffer_write
write_union r d dirty = ap dirty_rect (if-eq_of_true _ _ dirty)

write_first :
    (r : Rect) (d : Dirty)
    → d.buffer_dirty ≡ false
    → dirty_rect (screen_buffer_write r.left r.right r.top r.bottom d) ≡ r
unfolding screen_buffer_write
write_first r d idle = ap dirty_rect (if-eq_of_false _ _ idle)

write_dirty :
    (r : Rect) (d : Dirty)
    → (screen_buffer_write r.left r.right r.top r.bottom d).buffer_dirty ≡ true
unfolding screen_buffer_write
write_dirty r d = elim (Bool-cases d.buffer_dirty) [
  | inl dirty ↦ ap (λ (e : Dirty). e.buffer_dirty) (if-eq_of_true _ _ dirty)
  | inr idle ↦ ap (λ (e : Dirty). e.buffer_dirty) (if-eq_of_false _ _ idle)
]

outside_both :
    (info : ScreenInfo) (d : Dirty) (r : Rect) (y b : ℕ)
    → in_rect info (dirty_rect (screen_buffer_write r.left r.right r.top r.bottom d)) y b ≡ false
    → ((d.buffer_dirty && in_rect info (dirty_rect d) y b) ≡ false) × (in_rect info r y b ≡ false)
outside_both info d r y b out = elim (Bool-cases d.buffer_dirty) [
  | inl dirty ↦
      let (old, new) =
        union_outside info (dirty_rect d) r y b
          (ap (λ q. in_rect info q y b) (sym (write_union r d dirty)) ∙ out) in
      (ground (arith, old), new)
  | inr idle ↦
      (ground (arith, idle), ap (λ q. in_rect info q y b) (sym (write_first r d idle)) ∙ out)
]

IsOnScreen-IsRect : {info : ScreenInfo} {d : Dirty} → IsRect info (dirty_rect d) → IsOnScreen info d
IsOnScreen-IsRect p = record {
  across = p.across;
  right = p.right;
  down = p.down;
  bottom = p.bottom;
}

union_rect :
    (info : ScreenInfo) (d : Dirty) (r : Rect)
    → IsRect info r
    → (d.buffer_dirty ≡ true → IsOnScreen info d)
    → IsRect info (dirty_rect (screen_buffer_write r.left r.right r.top r.bottom d))
union_rect info d r rect on = elim (Bool-cases d.buffer_dirty) [
  | inl dirty ↦
      subst (λ q. IsRect info q) (sym (write_union r d dirty))
        (let q = on dirty in
          record {
            across = omega (arith, q.across, rect.across);
            right = omega (arith, q.right, rect.right);
            down = omega (arith, q.down, rect.down);
            bottom = omega (arith, q.bottom, rect.bottom);
          })
  | inr idle ↦ subst (λ q. IsRect info q) (sym (write_first r d idle)) rect
]

-- `screen_buffer_write` of a rectangle of the screen that was drawn keeps the dirty rectangle on the
-- screen and over everything that changed: of the bytes of the rectangle and those of any other set
-- that were shown outside the dirty rectangle, each is dirty now or still shown.
pub screen_buffer_write-IsReady :
    (info : ScreenInfo) (P : ℕ → ℕ → Type 0) (s : Screen) (r : Rect) (m : Mem)
    → IsLaidOut info
    → IsReady info P s
    → IsRect info r
    → IsDrawn info r s.mem m
    → IsReady info
        (λ y b. P y b ⊎ (in_rect info r y b ≡ true))
        (record { dirty = screen_buffer_write r.left r.right r.top r.bottom s.dirty; mem = m })
screen_buffer_write-IsReady info P s r m laid ready rect drawn = record {
  bytes = drawn.bytes;
  on_screen = λ _. IsOnScreen-IsRect (union_rect info s.dirty r rect ready.on_screen);
  clean = λ y b yh bh p out.
      let (old, new) = outside_both info s.dirty r y b (rw (write_dirty r s.dirty) at out) in
      elim p [
        | inl before ↦
            drawn.base_kept (info.pitch * y + b) (in_span yh (omega (arith, bh, laid.row)))
            ∙ ready.clean y b yh bh before old
            ∙ sym (drawn.outside y b yh bh new)
        | inr within ↦ absurd (ground (arith, within, new))
      ];
}

-- Drawing in a rectangle, marking it and flushing.
pub flush_drawn :
    (info : ScreenInfo) (s : Screen) (r : Rect) (m : Mem)
    → IsLaidOut info
    → s.dirty.buffer_dirty ≡ false
    → ((a : ℕ) → s.mem a < 256)
    → IsRect info r
    → IsDrawn info r s.mem m
    → IsShownIn info r s (
        screen_flush_buffer info
          (record { dirty = screen_buffer_write r.left r.right r.top r.bottom s.dirty; mem = m }))
flush_drawn info s r m laid idle bytes rect drawn =
    let marked =
      screen_buffer_write-IsReady info (IsShown info s.mem) s r m laid (idle-IsReady bytes idle)
        rect drawn in
    record {
      now = screen_flush_buffer-IsSettled info _ _ laid marked;
      kept = λ y b yh bh out.
          flush_stays info _ _ laid marked (info.pitch * y + b)
            (in_span yh (omega (arith, bh, laid.row)))
          ∙ drawn.outside y b yh bh out;
    }

-- The back buffer stays as it was drawn.
pub flush_drawn_stays :
    (info : ScreenInfo) (s : Screen) (r : Rect) (m : Mem)
    → IsLaidOut info
    → s.dirty.buffer_dirty ≡ false
    → ((a : ℕ) → s.mem a < 256)
    → IsRect info r
    → IsDrawn info r s.mem m
    → (o : ℕ) → o < info.pitch * info.height
    → (screen_flush_buffer info (record {
      dirty = screen_buffer_write r.left r.right r.top r.bottom s.dirty;
      mem = m;
    })).mem
        (info.buffer + o)
      ≡ m (info.buffer + o)
flush_drawn_stays info s r m laid idle bytes rect drawn o h =
    flush_stays info _ _ laid
      (screen_buffer_write-IsReady info (IsShown info s.mem) s r m laid (idle-IsReady bytes idle)
        rect drawn)
      o h
