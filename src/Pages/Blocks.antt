-- ===== src/Pages/Blocks.antt =====
-- `block_page_alloc` of src/kernel/mm/memory.c finds a run of available frames.
use geek_toy_os.Base.{
  ℕ, zero, suc, ◌+◌, ◌/◌, ◌%◌, ◌^◌, ◌≤◌, ◌<◌, min, true, false, ltb, ◌==◌, if◌then◌else◌,
  sign_extend, ◌≡◌, ◌≢◌, ◌⊎◌, refl, arith, Bool-cases, inl, inr, ap,
}
use geek_toy_os.Bitmap.{Bitmap, bitmap_find, not_found}
use geek_toy_os.Bitmap.Byte.{bit_at}
use geek_toy_os.Bitmap.Find.{HasNone, IsFirst, bitmap_find-IsFirst}
use geek_toy_os.Base.Bits.{bit-lt_two}
use geek_toy_os.Buddy.{pfn_notfound}
use geek_toy_os.Pages.{mem_page_avail, mem_page_used, block_loop, block_page_alloc, State}

-- The frames of a run of `nr` from `l`, as far as the bitmap reaches, are available.
abbrev pub IsRun : (b : Bitmap) (nr l : ℕ) → Type 0
IsRun b nr l = (i : ℕ) → l ≤ i → i < min b.size (l + nr) → bit_at b.map i ≡ 0

-- What the loop returns when it starts at frame `r`.
abbrev pub IsFound : (b : Bitmap) (nr r res : ℕ) → Type 0
IsFound b nr r res =
    ((res < b.size) × IsRun b nr res)
    ⊎ ((res ≡ pfn_notfound) × ((l : ℕ) → r ≤ l → l < b.size → ¬ IsRun b nr l))

-- A bitmap with bytes in its array, whose size fits an `int`.
pub record IsBitmap (b : Bitmap) : Type 0 where
  pub bytes : (i : ℕ) → b.map i < 256
  pub small : b.size < 2 ^ 31

sign_extend-small : (x : ℕ) → x < 2 ^ 31 → sign_extend x ≡ x
sign_extend-small x h = ground (arith, h)

sign_extend-not_found : sign_extend not_found ≡ pfn_notfound
sign_extend-not_found = refl

-- The first frame in use after `l` is beyond the run, or there is none and the run is available.
IsRun-of_none :
    (b : Bitmap) (nr l : ℕ)
    → l < b.size
    → HasNone mem_page_used b.map (min b.size l) (min b.size (l + nr))
    → IsRun b nr l
IsRun-of_none b nr l low none_ i p q =
    ground (arith, none_ i (omega (arith, low)) q, bit-lt_two (b.map (i / 8)) (i % 8))

no_runs :
    (b : Bitmap) (nr r : ℕ)
    → 0 < nr
    → r < b.size
    → HasNone mem_page_avail b.map (min b.size r) b.size
    → (l : ℕ) → r ≤ l
    → l < b.size
    → ¬ IsRun b nr l
no_runs b nr r pos low none_ l p q run =
    none_ l (omega (arith, low)) q (run l (omega arith) (omega (arith, pos)))

module _ (b : Bitmap) (ok : IsBitmap b) (nr : ℕ) (pos : 0 < nr) (nowrap : nr < 2 ^ 63) where
  -- The next frame that the loop looks at, from the two results of `bitmap_find`.
  NextUsed : (l r' : ℕ) → Type 0
  NextUsed l r' = l < b.size → IsFirst mem_page_used b.map (min b.size l) (min b.size (l + nr)) r'

  pick : (l r' rest : ℕ) → ℕ
  pick l r' rest = if sign_extend r' == pfn_notfound then sign_extend l else rest

  pick-IsRun :
      (r l r' rest : ℕ)
      → l < b.size
      → r' ≡ not_found
      → HasNone mem_page_used b.map (min b.size l) (min b.size (l + nr))
      → (pick l r' rest < b.size) × IsRun b nr (pick l r' rest)
  unfolding pick
  pick-IsRun r l r' rest low e none_ =
      let small = sign_extend-small l (omega (arith, ok.small, low)) in
      rw e (rw small (low, IsRun-of_none b nr l low none_))

  pick-rest : (l r' rest : ℕ) → r' < b.size → pick l r' rest ≡ rest
  unfolding pick
  pick-rest l r' rest low = ground (arith, ok.small, low)

  IsSound : ℕ → Type 0
  IsSound res = ((res < b.size) × IsRun b nr res) ⊎ (res ≡ pfn_notfound)

  pick-none : (l r' rest : ℕ) → l ≡ not_found → IsSound rest → IsSound (pick l r' rest)
  unfolding pick IsSound
  pick-none l r' rest e sound = elim (Bool-cases (sign_extend r' == pfn_notfound)) [
    | inl last ↦ rw last (rw e (inr refl))
    | inr more ↦ rw more sound
  ]

  pick-IsSound :
      (r l r' rest : ℕ)
      → IsFirst mem_page_avail b.map (min b.size r) b.size l
      → NextUsed l r'
      → IsSound rest
      → IsSound (pick l r' rest)
  unfolding IsSound NextUsed
  pick-IsSound r l r' rest (inl (e, _)) next sound = pick-none l r' rest e sound
  pick-IsSound r l r' rest (inr (_, low, _, _)) next sound = elim (next low) [
    | inl (e, none_) ↦ inl (pick-IsRun r l r' rest low e none_)
    | inr (_, high, _, _) ↦ rw (pick-rest l r' rest (omega (arith, high))) sound
  ]

  pick-IsFound :
      (r l r' rest : ℕ)
      → r < b.size
      → IsFirst mem_page_avail b.map (min b.size r) b.size l
      → NextUsed l r'
      → IsSound rest
      → (r < r' → r' < b.size → IsFound b nr r' rest)
      → IsFound b nr r (pick l r' rest)
  unfolding IsSound NextUsed
  pick-IsFound r l r' rest start (inl (e, none_)) next sound found =
      elim (pick-none l r' rest e sound) [
        | inl run ↦ inl run
        | inr nothing ↦ inr (nothing, no_runs b nr r pos start none_)
      ]
  pick-IsFound r l r' rest start (inr (after, low, hit, none_)) next sound found = elim (next low) [
    | inl (e, none') ↦ inl (pick-IsRun r l r' rest low e none')
    | inr (from, high, used, _) ↦
        let apart : l ≢ r' = differ l r' hit used in
        rw (pick-rest l r' rest (omega (arith, high)))
          (elim (found (omega (arith, apart, after, from, start)) (omega (arith, high))) [
            | inl run ↦ inl run
            | inr (nothing, beyond) ↦ inr (
              nothing,
              λ m p q run. elim (Bool-cases (ltb m l)) [
                | inl before ↦
                    none_ m (omega (arith, p)) (ground arith)
                      (run m (omega arith) (omega (arith, pos, q)))
                | inr past ↦ elim (Bool-cases (ltb m r')) [
                  | inl inside ↦
                      differ r' r' (run r' (ground arith) (ground (arith, high))) used refl
                  | inr out ↦ beyond m (ground arith) q run
                ]
              ],
            )
          ])
  ]
    where
      differ : (i j : ℕ) → bit_at b.map i ≡ 0 → bit_at b.map j ≡ 1 → i ≢ j
      differ i j x y e = absurd (omega (arith, x, y, ap (λ k. bit_at b.map k) e))

  IsFirst-avail :
      (r : ℕ)
      → r < b.size
      → IsFirst mem_page_avail b.map (min b.size r) b.size (bitmap_find b mem_page_avail r b.size)
  IsFirst-avail r h =
      let whole : min b.size (r + b.size) ≡ b.size = omega arith in
      rw whole at (
        bitmap_find-IsFirst b mem_page_avail r b.size ok.bytes ok.small
          (omega (arith, ok.small, h)))

  next_used : (l : ℕ) → NextUsed l (bitmap_find b mem_page_used (sign_extend l) nr)
  unfolding NextUsed
  next_used l low = rw (sign_extend-small l (omega (arith, ok.small, low))) (
      bitmap_find-IsFirst b mem_page_used l nr ok.bytes ok.small
        (omega (arith, ok.small, low, nowrap)))

  next : ℕ → ℕ
  next r = bitmap_find b mem_page_used (sign_extend (bitmap_find b mem_page_avail r b.size)) nr

  block_loop_step :
      (fuel r : ℕ)
      → ltb r b.size ≡ true
      → block_loop (suc fuel) b b.size nr r
        ≡ pick
            (bitmap_find b mem_page_avail r b.size)
            (next r)
            (block_loop fuel b b.size nr (sign_extend (next r)))
  unfolding block_loop pick next
  block_loop_step fuel r go = rw go refl

  block_loop_stop :
      (fuel r : ℕ) → ltb r b.size ≡ false → block_loop (suc fuel) b b.size nr r ≡ pfn_notfound
  unfolding block_loop
  block_loop_stop fuel r stop = rw stop refl

  next-NextUsed : (r : ℕ) → NextUsed (bitmap_find b mem_page_avail r b.size) (next r)
  unfolding next
  next-NextUsed r = next_used (bitmap_find b mem_page_avail r b.size)

  block_loop-IsSound : (fuel r : ℕ) → IsSound (block_loop fuel b b.size nr r)
  unfolding IsSound
  block_loop-IsSound zero r = inr (unfold block_loop in refl)
  block_loop-IsSound (suc fuel) r = elim (Bool-cases (ltb r b.size)) [
    | inr stop ↦ inr (block_loop_stop fuel r stop)
    | inl go ↦ rw (block_loop_step fuel r go) (
        pick-IsSound r (bitmap_find b mem_page_avail r b.size) (next r)
          (block_loop fuel b b.size nr (sign_extend (next r)))
          (IsFirst-avail r (ground (arith, go))) (next-NextUsed r)
          (block_loop-IsSound fuel (sign_extend (next r))))
  ]

  block_loop-IsFound :
      (fuel r : ℕ) → b.size < r + fuel → IsFound b nr r (block_loop fuel b b.size nr r)
  block_loop-IsFound zero r h =
      inr (unfold block_loop in refl, λ l p q run. absurd (omega (arith, h, p, q)))
  block_loop-IsFound (suc fuel) r h = elim (Bool-cases (ltb r b.size)) [
    | inr stop ↦ inr (block_loop_stop fuel r stop, λ l p q run. absurd (ground (arith, stop, p, q)))
    | inl go ↦ rw (block_loop_step fuel r go) (
        pick-IsFound r (bitmap_find b mem_page_avail r b.size) (next r)
          (block_loop fuel b b.size nr (sign_extend (next r))) (ground (arith, go))
          (IsFirst-avail r (ground (arith, go))) (next-NextUsed r)
          (block_loop-IsSound fuel (sign_extend (next r)))
          (λ up inside.
            rw (sign_extend-small (next r) (omega (arith, ok.small, inside)))
              (block_loop-IsFound fuel (next r) (omega (arith, h, up)))))
  ]

-- `block_page_alloc` returns the first frame of a run of available frames, or `PFN_NOTFOUND` when
-- the bitmap holds no such run; the run is `nr` frames long, or shorter where the bitmap ends
-- inside it. The bitmap is that of all frames, and `nr` is from 1 on and below 2 ^ 63.
pub block_page_alloc-IsFound :
    (s : State) (nr : ℕ)
    → IsBitmap s.mem_map
    → s.pfn_max ≡ s.mem_map.size
    → 0 < nr
    → nr < 2 ^ 63
    → IsFound s.mem_map nr 0 (block_page_alloc s nr)
unfolding block_page_alloc
block_page_alloc-IsFound s nr ok whole pos nowrap =
    rw whole (block_loop-IsFound s.mem_map ok nr pos nowrap (s.mem_map.size + 1) 0 (omega arith))
