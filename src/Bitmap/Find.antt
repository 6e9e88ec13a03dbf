-- ===== src/Bitmap/Find.antt =====
-- `bitmap_find` of src/lib/bitmap.c returns the first bit of its range that has the value.
use geek_toy_os.Base.{
  ℕ, zero, suc, ◌+◌, ◌-◌, ◌*◌, ◌/◌, ◌%◌, ◌^◌, ◌≤◌, ◌<◌, min, Bool, true, false, ◌&&◌, ltb, leb,
  ◌==◌, u8, sub64, ◌≡◌, ◌≢◌, ◌⊎◌, refl, arith, Bool-cases, inl, inr, ==_iff,
}
use geek_toy_os.Base.Bits.{bit, bit-lt_two, all_below, all_below_sound}
use geek_toy_os.MemOps.{Mem}
use geek_toy_os.Bitmap.{
  Bitmap, Span, not_found, not32, head_mask, tail_mask, same_mask, filtered, skip, trailing_ones,
  found, find_tail, find_middle, find_in_byte, find_span, bitmap_find,
}
use geek_toy_os.Bitmap.Byte.{
  bit_of, bit_at, bit-u8, bit-not32, bit-head_mask, bit-tail_mask, bit-same_mask, trailing_ones_lem,
  filtered-skip, bit-filtered,
}
use geek_toy_os.Bitmap.Set.{IsSpan, span-IsSpan, head_mask-lt, tail_mask-lt, same_mask-lt}

-- No bit from `lo` on and below `hi` has the value.
abbrev pub HasNone : Bool → Mem → (lo hi : ℕ) → Type 0
HasNone v m lo hi = (i : ℕ) → lo ≤ i → i < hi → bit_at m i ≢ bit_of v

-- `r` is the first bit of the range with the value, or -1 if there is none.
abbrev pub IsFirst : Bool → Mem → (lo hi r : ℕ) → Type 0
IsFirst v m lo hi r =
    ((r ≡ not_found) × HasNone v m lo hi)
    ⊎ ((lo ≤ r) × (r < hi) × (bit_at m r ≡ bit_of v) × HasNone v m lo r)

IsFirst-skip :
    (v : Bool) (m : Mem) (lo mid hi r : ℕ)
    → lo ≤ mid
    → HasNone v m lo mid
    → IsFirst v m mid hi r
    → IsFirst v m lo hi r
IsFirst-skip v m lo mid hi r le none_ (inl (e, rest)) = inl (
  e,
  λ i p q. elim (Bool-cases (ltb i mid)) [
    | inl t ↦ none_ i p (ground arith)
    | inr t ↦ rest i (ground arith) q
  ],
)
IsFirst-skip v m lo mid hi r le none_ (inr (low, high, hit, rest)) = inr (
  omega arith,
  high,
  hit,
  λ i p q. elim (Bool-cases (ltb i mid)) [
    | inl t ↦ none_ i p (ground arith)
    | inr t ↦ rest i (ground arith) q
  ],
)

-- The position that `found` adds within the byte.
found_byte_lem :
    (v : Bool) (f : ℕ)
    → f < 256
    → f ≢ skip v
    → (t : ℕ) × (t < 8)
      × (bit f t ≡ bit_of v)
      × ((j : ℕ) → j < t → bit f j ≢ bit_of v)
      × ((b : ℕ) → b * 8 + 8 ≤ 2 ^ 32 → found v f b ≡ b * 8 + t)
unfolding found
found_byte_lem true f h ne =
    let (small, zero_at, ones) = trailing_ones_lem (u8 (not32 f)) (omega arith) in
    (
      trailing_ones 8 (u8 (not32 f)),
      small,
      omega (
        arith,
        zero_at,
        flip (trailing_ones 8 (u8 (not32 f))) small,
        bit-lt_two f (trailing_ones 8 (u8 (not32 f))),
      ),
      λ j p e. omega (arith, ones j p, flip j (omega arith)),
      λ b top. omega arith,
    )
  where
    flip : (j : ℕ) → j < 8 → bit (u8 (not32 f)) j ≡ 1 - bit f j
    flip j p = omega (arith, bit-u8 (not32 f) j p, bit-not32 f j h p)
found_byte_lem false f h ne =
    let (small, zero_at, ones) = trailing_ones_lem f (omega arith) in
    (trailing_ones 8 f, small, zero_at, λ j p e. omega (arith, ones j p), λ b top. omega arith)

-- A mask that covers the bits of byte `b` from `lo` on and below `hi`.
record Covers (mask b lo hi : ℕ) : Type 0 where
  fits : mask < 256
  bits : (j : ℕ) → j < 8 → bit mask j ≡ bit_of (leb lo (b * 8 + j) && ltb (b * 8 + j) hi)
  low : b * 8 ≤ lo
  high : hi ≤ b * 8 + 8

module _ (v : Bool) (m : Mem) where
  at_byte : (b j : ℕ) → j < 8 → bit_at m (b * 8 + j) ≡ bit (m b) j
  at_byte b j h =
      let e1 : (b * 8 + j) / 8 ≡ b = omega arith in
      let e2 : (b * 8 + j) % 8 ≡ j = omega arith in rw (e1, e2)

  at_index : (b i : ℕ) → b * 8 ≤ i → i < b * 8 + 8 → bit_at m i ≡ bit (m b) (i - b * 8)
  at_index b i p q =
      let e1 : i / 8 ≡ b = omega arith in let e2 : i % 8 ≡ i - b * 8 = omega arith in rw (e1, e2)

  byte_miss :
      {mask b lo hi : ℕ} → Covers mask b lo hi → filtered v mask (m b) ≡ skip v → HasNone v m lo hi
  byte_miss {mask} {b} {lo} {hi} c e i p q =
      rw (at_index b i (omega (arith, c.low)) (omega (arith, c.high))) (
        filtered-skip v mask (m b) (i - b * 8) c.fits (omega (arith, c.low, c.high))
          (ground (arith, c.bits (i - b * 8), c.low, c.high)) e)

  byte_hit :
      {mask b lo hi : ℕ} (end : ℕ)
      → Covers mask b lo hi
      → filtered v mask (m b) ≢ skip v
      → filtered v mask (m b) < 256
      → b * 8 + 8 ≤ 2 ^ 32
      → hi ≤ end
      → IsFirst v m lo end (found v (filtered v mask (m b)) b)
  byte_hit {mask} {b} {lo} {hi} end c ne small top le =
      let (t, t8, hit, before, at) = found_byte_lem v (filtered v mask (m b)) small ne in
      let inside : (lo ≤ b * 8 + t) × (b * 8 + t < hi) × (bit (m b) t ≡ bit_of v) =
        ground (arith, c.bits t, bit-filtered v mask (m b) t, hit) in
      rw (at b top) (
        inr (
          inside.0,
          omega (arith, inside.1),
          rw (at_byte b t t8) inside.2,
          λ i p q e. before (i - b * 8) (omega (arith, c.low)) (
              ground (
                arith,
                at_index b i,
                c.bits (i - b * 8),
                c.low,
                inside.1,
                bit-filtered v mask (m b) (i - b * 8),
              )),
        ))

filtered-lt : (v : Bool) (mask b : ℕ) → filtered v mask b < 256
unfolding filtered
filtered-lt true mask b = omega arith
filtered-lt false mask b = omega arith

whole_table : all_below 256 (λ b. filtered true 255 b == b && filtered false 255 b == b) ≡ true
unfolding all_below filtered
whole_table = refl

filtered_whole : (v : Bool) (b : ℕ) → b < 256 → filtered v 255 b ≡ b
filtered_whole true b h = ground (arith, all_below_sound 256 _ b whole_table h)
filtered_whole false b h = ground (arith, all_below_sound 256 _ b whole_table h)

full-bit : (j : ℕ) → j < 8 → bit 255 j ≡ 1
unfolding all_below
full-bit j h = (==_iff _ _).0 (all_below_sound 8 (λ i. bit 255 i == 1) j refl h)

module _ (v : Bool) (m : Mem) (bytes : (i : ℕ) → m i < 256) where
  find_in_byte-IsFirst :
      {mask b lo mid : ℕ} (end rest : ℕ)
      → Covers mask b lo mid
      → b * 8 + 8 ≤ 2 ^ 32
      → lo ≤ mid
      → mid ≤ end
      → IsFirst v m mid end rest
      → IsFirst v m lo end (find_in_byte v mask b rest m)
  unfolding find_in_byte
  find_in_byte-IsFirst {mask} {b} {lo} {mid} end rest c top le le' after =
      elim (Bool-cases (filtered v mask (m b) == skip v)) [
        | inl miss ↦
            rw miss
              (IsFirst-skip v m lo mid end rest le (byte_miss v m c ((==_iff _ _).0 miss)) after)
        | inr hit ↦ rw hit (byte_hit v m end c (ground arith) (filtered-lt v mask (m b)) top le')
      ]

  whole-Covers : (b : ℕ) → Covers 255 b (b * 8) (b * 8 + 8)
  whole-Covers b = record {
    fits = omega arith;
    bits = λ j p. ground (arith, full-bit j);
    low = omega arith;
    high = omega arith;
  }

  module _ {lo hi : ℕ} (r : Span) (s : IsSpan lo hi r) (small : hi < 2 ^ 31) where
    find_tail-IsFirst : IsFirst v m (r.end_byte * 8) hi (find_tail v r m)
    unfolding find_tail find_in_byte
    find_tail-IsFirst = elim (Bool-cases (r.end_bound_bit == 0)) [
      | inl flat ↦ rw flat (inl (refl, λ i p q. absurd (ground (arith, s))))
      | inr some_ ↦ rw some_ (
          find_in_byte-IsFirst {lo = r.end_byte * 8} {mid = hi} hi not_found tail-Covers
            (omega (arith, s)) (omega (arith, s)) (omega arith)
            (inl (refl, λ i p q. absurd (omega arith))))
    ]
      where
        tail-Covers : Covers (tail_mask r.end_bound_bit) r.end_byte (r.end_byte * 8) hi
        tail-Covers = record {
          fits = tail_mask-lt _;
          bits = λ j p. ground (arith, bit-tail_mask r.end_bound_bit j, s);
          low = omega arith;
          high = omega (arith, s);
        }

    find_middle-IsFirst :
        (left i : ℕ) → i + left ≡ r.end_byte → IsFirst v m (i * 8) hi (find_middle v r m left i)
    unfolding find_middle find_in_byte
    find_middle-IsFirst zero i e =
        let at_end : i ≡ r.end_byte = omega arith in rw at_end find_tail-IsFirst
    find_middle-IsFirst (suc left) i e =
        let step =
          find_in_byte-IsFirst {mid = i * 8 + 8} hi (find_middle v r m left (i + 1))
            (whole-Covers i) (omega (arith, s)) (omega arith) (omega (arith, s))
            (rw next_byte at (find_middle-IsFirst left (i + 1) (omega arith))) in
        rw (filtered_whole v (m i) (bytes i)) at step
      where
        next_byte : (i + 1) * 8 ≡ i * 8 + 8
        next_byte = omega arith

    same-Covers :
        r.end_byte < r.start_byte
        → Covers (same_mask r.start_bound_bit r.end_bound_bit) (sub64 r.start_byte 1) lo hi
    same-Covers h = record {
      fits = same_mask-lt _ _;
      bits = λ j p. ground (arith, bit-same_mask r.start_bound_bit r.end_bound_bit j, s);
      low = omega (arith, s);
      high = omega (arith, s);
    }

    head-Covers :
        r.start_byte ≤ r.end_byte
        → r.start_bound_bit ≢ 0
        → Covers (head_mask r.start_bound_bit) (sub64 r.start_byte 1) lo (r.start_byte * 8)
    head-Covers h ne = record {
      fits = head_mask-lt _;
      bits = λ j p. ground (arith, bit-head_mask r.start_bound_bit j, s);
      low = omega (arith, s);
      high = omega (arith, s);
    }

    find_span-IsFirst : IsFirst v m lo hi (find_span v r m)
    unfolding find_span
    find_span-IsFirst = elim (Bool-cases (ltb r.end_byte r.start_byte)) [
      | inl same ↦ rw same (
          find_in_byte-IsFirst hi not_found (same-Covers (ground arith)) (ground (arith, s))
            s.ordered (omega arith) (inl (refl, λ i p q. absurd (omega arith))))
      | inr apart ↦
          let after = find_middle-IsFirst (r.end_byte - r.start_byte) r.start_byte (ground arith) in
          rw apart (elim (Bool-cases (r.start_bound_bit == 0)) [
            | inl flat ↦
                let e : r.start_byte * 8 ≡ lo = ground (arith, s) in rw flat (rw e at after)
            | inr skew ↦ rw skew (
                find_in_byte-IsFirst hi _ (head-Covers (ground arith) (ground arith))
                  (ground (arith, s)) (ground (arith, s)) (ground (arith, s)) after)
          ])
    ]

-- `bitmap_find` returns the first bit from `start` on, below `start + len` and below the size,
-- that has the value, and -1 exactly when that range holds none. The array holds bytes, the size
-- fits an `int`, and `start + len` does not wrap.
pub bitmap_find-IsFirst :
    (b : Bitmap) (v : Bool) (start len : ℕ)
    → ((i : ℕ) → b.map i < 256)
    → b.size < 2 ^ 31
    → start + len < 2 ^ 64
    → IsFirst v b.map (min b.size start) (min b.size (start + len)) (bitmap_find b v start len)
unfolding bitmap_find
bitmap_find-IsFirst b v start len bytes small nowrap =
    find_span-IsFirst v b.map bytes _ (span-IsSpan b.size start len (omega arith) nowrap)
      (omega arith)
