-- ===== src/Screen/Rows.antt =====
-- The rows that `screen_flush_buffer` of src/drivers/video.c copies.
use geek_toy_os.Base.{
  ℕ, zero, suc, ◌+◌, ◌-◌, ◌*◌, ◌^◌, ◌≤◌, ◌<◌, ◌≡◌, refl, sym, ap, arith, u64, sub64, ◌⊎◌, inl, inr,
  ◌∙◌, ltb, leb, ◌==◌, ==_iff, Bool-cases, ◌&&◌,
}
use native.Mathlib.Nat.{mul-le-mul_left, mul-le-mul_right, add-mul}
use geek_toy_os.MemOps.{Mem, memcpy}
use geek_toy_os.MemOps.Copy.{memcpy-IsCopied}
use geek_toy_os.Screen.{ScreenInfo, Dirty, flush_loop}

-- A range of the frame buffer at `base` is refreshed from the same range of the back buffer: the
-- back buffer stays, and so does every byte that was shown already.
pub record IsRefresh (base buffer span : ℕ) (m m' : Mem) : Type 0 where
  pub stays : (o : ℕ) → o < span → m' (buffer + o) ≡ m (buffer + o)
  pub bytes : ((a : ℕ) → m a < 256) → (a : ℕ) → m' a < 256
  pub shown : (o : ℕ) → o < span → m (base + o) ≡ m (buffer + o) → m' (base + o) ≡ m' (buffer + o)

pub IsRefresh-refl : {base buffer span : ℕ} (m : Mem) → IsRefresh base buffer span m m
IsRefresh-refl m = record { stays = λ o h. refl; bytes = λ small. small; shown = λ o h e. e }

pub IsRefresh-trans :
    {base buffer span : ℕ} {a b c : Mem}
    → IsRefresh base buffer span a b
    → IsRefresh base buffer span b c
    → IsRefresh base buffer span a c
IsRefresh-trans p q = record {
  stays = λ o h. q.stays o h ∙ p.stays o h;
  bytes = λ small. q.bytes (p.bytes small);
  shown = λ o h e. q.shown o h (p.shown o h e);
}

module _ (base buffer span : ℕ) (top : base + span + 8 ≤ 2 ^ 64) (half : span < 2 ^ 63)
    (apart : (base + span + 8 ≤ buffer) ⊎ (buffer + span + 8 ≤ base)) where
  pub memcpy-IsRefresh :
      (m : Mem) (off n : ℕ)
      → off + n ≤ span
      → IsRefresh base buffer span m (memcpy m (base + off) (buffer + off) n)
        × ((o : ℕ)
            → off ≤ o
            → o < off + n
            → memcpy m (base + off) (buffer + off) n (base + o)
              ≡ memcpy m (base + off) (buffer + off) n (buffer + o))
  memcpy-IsRefresh m off n fits =
      let (k, c, nk, short) =
        memcpy-IsCopied m (base + off) (buffer + off) n (n + 8) (omega arith)
          (elim apart [ inl below ↦ inl (omega arith) | inr above ↦ inr (omega arith) ])
          (omega arith) (omega (arith, half, fits)) in
      let keeps = λ (o : ℕ) (h : o < span).
        c.outside (buffer + o)
          (elim apart [ inl below ↦ inr (omega arith) | inr above ↦ inl (omega arith) ]) in
      let copied = λ (o : ℕ) (low : off ≤ o) (high : o < off + k).
        let here : base + off + (o - off) ≡ base + o = omega (arith, low) in
        let there : buffer + off + (o - off) ≡ buffer + o = omega (arith, low) in
        rw (here, there) at
          (c.inside (o - off) (omega (arith, high, low)) (omega (arith, high, low))) in
      (
        record {
          stays = keeps;
          bytes = λ small a. elim (Bool-cases (ltb a (base + off))) [
            | inl before ↦ let e = c.outside a (inl (ground (arith, before))) in rw e (small a)
            | inr from_ ↦ elim (Bool-cases (ltb a (base + off + k))) [
              | inl within ↦
                  let i = a - (base + off) in
                  let place : base + off + (a - (base + off)) ≡ a = ground (arith, from_) in
                  let e = rw place at (
                    c.inside i (ground (arith, from_, within))
                      (ground (arith, from_, within, short))) in
                  rw e (small (buffer + off + i))
              | inr after ↦ let e = c.outside a (inr (ground (arith, after))) in rw e (small a)
            ]
          ];
          shown = λ o h e. elim (Bool-cases (leb off o && ltb o (off + k))) [
            | inl within ↦
                copied o (ground (arith, within)) (ground (arith, within)) ∙ sym (keeps o h)
            | inr out ↦
                c.outside (base + o) (elim (Bool-cases (leb off o)) [
                  | inl low ↦ inr (ground (arith, out, low))
                  | inr high ↦ inl (ground (arith, high))
                ])
                ∙ e
                ∙ sym (keeps o h)
          ];
        },
        λ o low high.
            copied o low (omega (arith, nk, high)) ∙ sym (keeps o (omega (arith, high, fits))),
      )

pub in_span : {p y h b : ℕ} → y < h → b < p → p * y + b < p * h
in_span {p} {y} {h} {b} yh bp =
    omega (arith, mul-le-mul_left {m = y + 1} {n = h} p (omega (arith, yh)), bp)

-- Byte `b` of row `y` shows what the back buffer holds.
abbrev pub IsShown : ScreenInfo → Mem → (y b : ℕ) → Type 0
IsShown info m y b = m (info.base + (info.pitch * y + b)) ≡ m (info.buffer + (info.pitch * y + b))

-- Both buffers lie apart and clear of the top of the address space, a row of pixels fits in
-- the pitch, and the width and height are `u32`.
pub record IsLaidOut (info : ScreenInfo) : Type 0 where
  pub base_top : info.base + info.pitch * info.height + 8 ≤ 2 ^ 64
  pub buffer_top : info.buffer + info.pitch * info.height + 8 ≤ 2 ^ 64
  pub apart :
      (info.base + info.pitch * info.height + 8 ≤ info.buffer)
      ⊎ (info.buffer + info.pitch * info.height + 8 ≤ info.base)
  pub row : info.width * info.bpp ≤ info.pitch
  pub wide : info.width < 2 ^ 32
  pub tall : info.height < 2 ^ 32

pub record IsOnScreen (info : ScreenInfo) (d : Dirty) : Type 0 where
  pub across : d.dirty_xstart ≤ d.dirty_xend
  pub right : d.dirty_xend ≤ info.width
  pub down : d.dirty_ystart ≤ d.dirty_yend
  pub bottom : d.dirty_yend ≤ info.height

module _ (info : ScreenInfo) (d : Dirty) (laid : IsLaidOut info) (on : IsOnScreen info d) where
  dirty_offset : ℕ → ℕ
  dirty_offset y = info.pitch * y + d.dirty_xstart * info.bpp

  dirty_count : ℕ
  dirty_count = (d.dirty_xend - d.dirty_xstart) * info.bpp

  dirty_row : d.dirty_xstart * info.bpp + dirty_count ≡ d.dirty_xend * info.bpp
  unfolding dirty_count
  dirty_row =
      let e : d.dirty_xend ≡ d.dirty_xstart + (d.dirty_xend - d.dirty_xstart) =
        omega (arith, on.across) in
      sym
        (ap (λ n. n * info.bpp) e ∙ add-mul d.dirty_xstart (d.dirty_xend - d.dirty_xstart) info.bpp)

  dirty_fits : (y : ℕ) → y < info.height → dirty_offset y + dirty_count ≤ info.pitch * info.height
  unfolding dirty_offset
  dirty_fits y h = omega (
    arith,
    dirty_row,
    laid.row,
    mul-le-mul_right {m = d.dirty_xend} {n = info.width} info.bpp on.right,
    mul-le-mul_left {m = y + 1} {n = info.height} info.pitch (omega (arith, h)),
  )

  flush_step :
      (left y : ℕ) (m : Mem)
      → y < info.height
      → flush_loop info d (suc left) y m
        ≡ flush_loop info d left
            (y + 1)
            (memcpy m (info.base + dirty_offset y) (info.buffer + dirty_offset y) dirty_count)
  unfolding flush_loop dirty_offset dirty_count
  flush_step left y m h =
      let fits = dirty_fits y h in
      let offset : u64 (info.pitch * y + d.dirty_xstart * info.bpp) ≡ dirty_offset y =
        omega (arith, fits, laid.base_top) in
      let gap : sub64 d.dirty_xend d.dirty_xstart ≡ d.dirty_xend - d.dirty_xstart =
        omega (arith, on.across, on.right, laid.wide) in
      let count : u64 ((d.dirty_xend - d.dirty_xstart) * info.bpp) ≡ dirty_count =
        omega (arith, fits, laid.base_top) in
      let from_ : u64 (info.buffer + dirty_offset y) ≡ info.buffer + dirty_offset y =
        omega (arith, fits, laid.buffer_top) in
      let to : u64 (info.base + dirty_offset y) ≡ info.base + dirty_offset y =
        omega (arith, fits, laid.base_top) in
      rw (offset, gap, count, from_, to) refl

  in_dirty :
      (y b : ℕ)
      → d.dirty_xstart * info.bpp ≤ b
      → b < d.dirty_xend * info.bpp
      → (dirty_offset y ≤ info.pitch * y + b) × (info.pitch * y + b < dirty_offset y + dirty_count)
  unfolding dirty_offset
  in_dirty y b left_ right_ = (omega (arith, left_), omega (arith, right_, dirty_row))

  pub flush_loop-IsRefresh :
      (left y : ℕ) (m : Mem)
      → y + left ≤ info.height
      → IsRefresh info.base info.buffer (info.pitch * info.height) m (flush_loop info d left y m)
        × ((row b : ℕ)
            → y ≤ row
            → row < y + left
            → d.dirty_xstart * info.bpp ≤ b
            → b < d.dirty_xend * info.bpp
            → IsShown info (flush_loop info d left y m) row b)
  flush_loop-IsRefresh zero y m h =
      unfold flush_loop in
      (IsRefresh-refl m, λ row b low high _ _. absurd (omega (arith, low, high)))
  flush_loop-IsRefresh (suc left) y m h =
      let here : y < info.height = omega (arith, h) in
      let copied =
        memcpy m (info.base + dirty_offset y) (info.buffer + dirty_offset y) dirty_count in
      let (fresh, done) =
        memcpy-IsRefresh info.base info.buffer (info.pitch * info.height) laid.base_top
          (omega (arith, laid.base_top, laid.buffer_top, laid.apart)) laid.apart m (dirty_offset y)
          dirty_count (dirty_fits y here) in
      let (later, rest) = flush_loop-IsRefresh left (y + 1) copied (omega (arith, h)) in
      rw (flush_step left y m here) (
        IsRefresh-trans fresh later,
        λ row b low high left_ right_. elim (Bool-cases (row == y)) [
          | inl same ↦
              let (from_, to) = in_dirty y b left_ right_ in
              let e : row ≡ y = (==_iff _ _).0 same in
              rw e (
                later.shown (info.pitch * y + b) (omega (arith, to, dirty_fits y here))
                  (done (info.pitch * y + b) from_ to))
          | inr other ↦ rest row b (ground (arith, low, other)) (omega (arith, high)) left_ right_
        ],
      )
