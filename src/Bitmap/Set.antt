-- ===== src/Bitmap/Set.antt =====
-- `bitmap_set` of src/lib/bitmap.c changes the bits of its range and no others.
use geek_toy_os.Base.{
  ℕ, ◌+◌, ◌*◌, ◌/◌, ◌%◌, ◌^◌, ◌≤◌, ◌<◌, min, Bool, true, false, ◌&&◌, ltb, leb, ◌==◌, if◌then◌else◌,
  u8, sub64, ◌≡◌, ◌∙◌, refl, arith, Bool-cases, inl, inr, ==_iff,
}
use geek_toy_os.Base.Bits.{bit, zero-bit, all_below, all_below_sound}
use geek_toy_os.MemOps.{Mem, memset_lem}
use geek_toy_os.Bitmap.{
  Bitmap, Span, span, head_mask, tail_mask, same_mask, put_at, set_head, set_middle, set_tail,
  bitmap_set,
}
use geek_toy_os.Bitmap.Byte.{bit_of, bit_at, bit-put, bit-head_mask, bit-tail_mask, bit-same_mask}

-- What the local variables of a call stand for: the bits from `lo` on and below `hi`.
pub record IsSpan (lo hi : ℕ) (r : Span) : Type 0 where
  pub ordered : lo ≤ hi
  pub start_at : r.start_byte * 8 ≡ lo + r.start_bound_bit
  pub end_at : r.end_byte * 8 + r.end_bound_bit ≡ hi
  pub start_small : r.start_bound_bit < 8
  pub end_small : r.end_bound_bit < 8
  pub top : hi + 8 ≤ 2 ^ 64

pub span-IsSpan :
    (size start len : ℕ)
    → size + 8 ≤ 2 ^ 64
    → start + len < 2 ^ 64
    → IsSpan (min size start) (min size (start + len)) (span size start len)
span-IsSpan size start len h k = record {
  ordered = omega arith;
  start_at = omega arith;
  end_at = omega arith;
  start_small = omega arith;
  end_small = omega arith;
  top = omega arith;
}

pub head_mask-lt : (k : ℕ) → head_mask k < 256
unfolding head_mask
head_mask-lt k = omega arith

pub tail_mask-lt : (k : ℕ) → tail_mask k < 256
unfolding tail_mask
tail_mask-lt k = omega arith

pub same_mask-lt : (j k : ℕ) → same_mask j k < 256
unfolding same_mask
same_mask-lt j k = omega arith

bit_at-put_at :
    (v : Bool) (mask b i : ℕ) (m : Mem)
    → mask < 256
    → bit_at (put_at v mask b m) i ≡ (
        if i / 8 == b then (if bit mask (i % 8) == 1 then bit_of v else bit_at m i) else bit_at m i)
unfolding put_at
bit_at-put_at v mask b i m h = ground (arith, bit-put v mask (m b) (i % 8))

fill-bit : (v : Bool) (j : ℕ) → j < 8 → bit (u8 (if v then 0xff else 0)) j ≡ bit_of v
unfolding all_below
fill-bit true j h = (==_iff _ _).0 (all_below_sound 8 (λ i. bit 255 i == 1) j refl h)
fill-bit false j h = zero-bit j

module _ (v : Bool) {lo hi : ℕ} (r : Span) (s : IsSpan lo hi r) where
  set_head-bit :
      (m : Mem) (i : ℕ)
      → bit_at (set_head v r m) i
        ≡ (if leb lo i && ltb i (r.start_byte * 8) then bit_of v else bit_at m i)
  unfolding set_head
  set_head-bit m i = ground (
    arith,
    bit_at-put_at v (head_mask r.start_bound_bit) (sub64 r.start_byte 1) i m (head_mask-lt _),
    bit-head_mask r.start_bound_bit (i % 8),
    s,
  )

  set_middle-bit :
      (m : Mem) (i : ℕ)
      → bit_at (set_middle v r m) i
        ≡ (if leb (r.start_byte * 8) i && ltb i (r.end_byte * 8) then bit_of v else bit_at m i)
  unfolding set_middle
  set_middle-bit m i = ground (
    arith,
    memset_lem m r.start_byte (if v then 0xff else 0) (sub64 r.end_byte r.start_byte) (i / 8),
    fill-bit v (i % 8),
    s,
  )

  set_tail-bit :
      (m : Mem) (i : ℕ)
      → bit_at (set_tail v r m) i
        ≡ (if leb (r.end_byte * 8) i && ltb i hi then bit_of v else bit_at m i)
  unfolding set_tail
  set_tail-bit m i = ground (
    arith,
    bit_at-put_at v (tail_mask r.end_bound_bit) r.end_byte i m (tail_mask-lt _),
    bit-tail_mask r.end_bound_bit (i % 8),
    s,
  )

  set_steps-bit :
      (m : Mem) (i : ℕ)
      → ltb r.end_byte r.start_byte ≡ false
      → bit_at (set_tail v r (set_middle v r (set_head v r m))) i
        ≡ (if leb lo i && ltb i hi then bit_of v else bit_at m i)
  set_steps-bit m i apart = ground (
    arith,
    set_tail-bit (set_middle v r (set_head v r m)) i,
    set_middle-bit (set_head v r m) i,
    set_head-bit m i,
    s,
  )

  set_byte-bit :
      (m : Mem) (i : ℕ)
      → ltb r.end_byte r.start_byte ≡ true
      → bit_at (put_at v (same_mask r.start_bound_bit r.end_bound_bit) (sub64 r.start_byte 1) m) i
        ≡ (if leb lo i && ltb i hi then bit_of v else bit_at m i)
  set_byte-bit m i same = ground (
    arith,
    bit_at-put_at v (same_mask r.start_bound_bit r.end_bound_bit) (sub64 r.start_byte 1) i m
        (same_mask-lt _ _),
    bit-same_mask r.start_bound_bit r.end_bound_bit (i % 8),
    s,
  )

-- `bitmap_set` gives the value to every bit from `start` on, below `start + len` and below the
-- size, and changes no other bit, whatever the alignment of the two ends. The size is at least
-- eight below 2 ^ 64 and `start + len` does not wrap.
pub bitmap_set_lem :
    (b : Bitmap) (v : Bool) (start len i : ℕ)
    → b.size + 8 ≤ 2 ^ 64
    → start + len < 2 ^ 64
    → bit_at (bitmap_set b v start len).map i
      ≡ (if leb start i && ltb i (min b.size (start + len)) then bit_of v else bit_at b.map i)
unfolding bitmap_set
bitmap_set_lem b v start len i h k =
    let s = span-IsSpan b.size start len h k in
    let r = span b.size start len in
    elim (Bool-cases (ltb r.end_byte r.start_byte)) [
      | inl same ↦ rw same (set_byte-bit v r s b.map i same ∙ widen)
      | inr apart ↦ rw apart (set_steps-bit v r s b.map i apart ∙ widen)
    ]
  where
    widen :
        (if leb (min b.size start) i && ltb i (min b.size (start + len))
          then bit_of v
          else bit_at b.map i)
        ≡ (if leb start i && ltb i (min b.size (start + len)) then bit_of v else bit_at b.map i)
    widen = ground arith

pub bitmap_set-size :
    (b : Bitmap) (v : Bool) (start len : ℕ) → (bitmap_set b v start len).size ≡ b.size
unfolding bitmap_set
bitmap_set-size b v start len = ground arith
