-- ===== src/Screen/Shown.antt =====
-- The dirty rectangle of src/drivers/video.c covers what is not shown yet.
use geek_toy_os.Base.{
  ℕ, ◌+◌, ◌-◌, ◌*◌, ◌<◌, ◌≡◌, refl, arith, inl, inr, ◌⊎◌, true, false, Bool-cases, if-eq_of_true,
  if-eq_of_false, ◌&&◌,
}
use geek_toy_os.MemOps.{Mem}
use geek_toy_os.Screen.{ScreenInfo, Dirty, Screen, flush_loop, screen_flush_buffer}
use geek_toy_os.Screen.Rows.{IsLaidOut, IsOnScreen, IsShown, in_span, flush_loop-IsRefresh}
use geek_toy_os.Screen.Drawn.{Rect, in_rect}

abbrev pub dirty_rect : Dirty → Rect
dirty_rect d = record {
  left = d.dirty_xstart;
  right = d.dirty_xend;
  top = d.dirty_ystart;
  bottom = d.dirty_yend;
}

-- Of the bytes of the screen that `P` names, every one out of the dirty rectangle is shown.
pub record IsReady (info : ScreenInfo) (P : ℕ → ℕ → Type 0) (s : Screen) : Type 0 where
  pub bytes : (a : ℕ) → s.mem a < 256
  pub on_screen : s.dirty.buffer_dirty ≡ true → IsOnScreen info s.dirty
  pub clean :
      (y b : ℕ)
      → y < info.height
      → b < info.width * info.bpp
      → P y b
      → (s.dirty.buffer_dirty && in_rect info (dirty_rect s.dirty) y b) ≡ false
      → IsShown info s.mem y b

-- Nothing is dirty, and the bytes of the screen that `P` names are shown.
pub record IsSettled (info : ScreenInfo) (P : ℕ → ℕ → Type 0) (s : Screen) : Type 0 where
  pub bytes : (a : ℕ) → s.mem a < 256
  pub settled : s.dirty.buffer_dirty ≡ false
  pub shown :
      (y b : ℕ) → y < info.height → b < info.width * info.bpp → P y b → IsShown info s.mem y b

-- A byte of the rectangle or one that was shown.
abbrev pub ShownOrIn : ScreenInfo → Mem → Rect → (y b : ℕ) → Type 0
ShownOrIn info m r y b = IsShown info m y b ⊎ (in_rect info r y b ≡ true)

-- The bytes of the rectangle and all that were shown before are shown, and the back buffer has
-- changed in the rectangle only.
pub record IsShownIn (info : ScreenInfo) (r : Rect) (s s' : Screen) : Type 0 where
  pub now : IsSettled info (ShownOrIn info s.mem r) s'
  pub kept :
      (y b : ℕ)
      → y < info.height
      → b < info.width * info.bpp
      → in_rect info r y b ≡ false
      → s'.mem (info.buffer + (info.pitch * y + b)) ≡ s.mem (info.buffer + (info.pitch * y + b))

-- With nothing dirty, what is shown is shown.
pub idle-IsReady :
    {info : ScreenInfo} {s : Screen}
    → ((a : ℕ) → s.mem a < 256)
    → s.dirty.buffer_dirty ≡ false
    → IsReady info (IsShown info s.mem) s
idle-IsReady bytes idle = record {
  bytes = bytes;
  on_screen = λ e. absurd (ground (arith, e, idle));
  clean = λ y b yh bh p out. p;
}

clean_kept :
    {info : ScreenInfo} {P : ℕ → ℕ → Type 0} {s : Screen}
    → s.dirty.buffer_dirty ≡ false
    → IsReady info P s
    → IsSettled info P s
clean_kept idle ready = record {
  bytes = ready.bytes;
  settled = idle;
  shown = λ y b yh bh p. ready.clean y b yh bh p (rw idle refl);
}

flush_dirty :
    (info : ScreenInfo) (s : Screen)
    → s.dirty.buffer_dirty ≡ true
    → screen_flush_buffer info s ≡ record {
      dirty = record s.dirty { buffer_dirty = false };
      mem =
          flush_loop info s.dirty
            (s.dirty.dirty_yend - s.dirty.dirty_ystart)
            s.dirty.dirty_ystart
            s.mem;
    }
unfolding screen_flush_buffer
flush_dirty info s dirty = if-eq_of_true _ _ dirty

flush_idle :
    (info : ScreenInfo) (s : Screen) → s.dirty.buffer_dirty ≡ false → screen_flush_buffer info s ≡ s
unfolding screen_flush_buffer
flush_idle info s idle = if-eq_of_false _ _ idle

-- What was shown outside the dirty rectangle and all that was in it are shown afterwards.
pub screen_flush_buffer-IsSettled :
    (info : ScreenInfo) (P : ℕ → ℕ → Type 0) (s : Screen)
    → IsLaidOut info
    → IsReady info P s
    → IsSettled info P (screen_flush_buffer info s)
screen_flush_buffer-IsSettled info P s laid ready = elim (Bool-cases s.dirty.buffer_dirty) [
  | inr idle ↦ rw (flush_idle info s idle) (clean_kept idle ready)
  | inl dirty ↦
      let on = ready.on_screen dirty in
      let (fresh, done) =
        flush_loop-IsRefresh info s.dirty laid on (s.dirty.dirty_yend - s.dirty.dirty_ystart)
          s.dirty.dirty_ystart s.mem (omega (arith, on.down, on.bottom)) in
      rw (flush_dirty info s dirty) (record {
        bytes = fresh.bytes ready.bytes;
        settled = refl;
        shown = λ y b yh bh p. elim (Bool-cases (in_rect info (dirty_rect s.dirty) y b)) [
          | inl within ↦
              done y b (ground (arith, within)) (ground (arith, within)) (ground (arith, within))
                (ground (arith, within))
          | inr out ↦
              fresh.shown (info.pitch * y + b) (in_span yh (omega (arith, bh, laid.row)))
                (ready.clean y b yh bh p (rw (dirty, out) refl))
        ];
      })
]

-- Flushing keeps the back buffer.
pub flush_stays :
    (info : ScreenInfo) (P : ℕ → ℕ → Type 0) (s : Screen)
    → IsLaidOut info
    → IsReady info P s
    → (o : ℕ) → o < info.pitch * info.height
    → (screen_flush_buffer info s).mem (info.buffer + o) ≡ s.mem (info.buffer + o)
flush_stays info P s laid ready o h = elim (Bool-cases s.dirty.buffer_dirty) [
  | inr idle ↦ rw (flush_idle info s idle) refl
  | inl dirty ↦
      let on = ready.on_screen dirty in
      let (fresh, done) =
        flush_loop-IsRefresh info s.dirty laid on (s.dirty.dirty_yend - s.dirty.dirty_ystart)
          s.dirty.dirty_ystart s.mem (omega (arith, on.down, on.bottom)) in
      rw (flush_dirty info s dirty) (fresh.stays o h)
]

-- `screen_flush_buffer` copies the dirty rectangle, which lies on a laid out screen, from the back
-- buffer to the frame buffer: what was shown outside it, of any set of bytes of the screen, and all
-- that was in it are shown afterwards, nothing is dirty, and no byte of the back buffer has changed.
pub screen_flush_buffer_lem :
    (info : ScreenInfo) (P : ℕ → ℕ → Type 0) (s : Screen)
    → IsLaidOut info
    → IsReady info P s
    → IsSettled info P (screen_flush_buffer info s)
      × ((o : ℕ)
          → o < info.pitch * info.height
          → (screen_flush_buffer info s).mem (info.buffer + o) ≡ s.mem (info.buffer + o))
screen_flush_buffer_lem info P s laid ready =
    (screen_flush_buffer-IsSettled info P s laid ready, flush_stays info P s laid ready)
