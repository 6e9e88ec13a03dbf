-- ===== src/Clock/Sleep.antt =====
-- The waiting loops of src/kernel/clock.c end.
use geek_toy_os.Base.{
  ℕ, zero, suc, ◌+◌, ◌^◌, ◌≤◌, ◌<◌, ◌≡◌, ◌↔◌, ap, arith, inl, inr, ◌⊎◌, ◌∙◌, Bool, true, false,
  ◌==◌, ==_iff, Bool-cases, if-eq_of_true, if-eq_of_false, u64, Option, some,
}
use geek_toy_os.Clock.{sleep_loop, clock_sleep, triggered, watch_loop, clock_sleep_watch_flag}

-- `elapsed n` ticks have passed at read `n`, and between two reads at most one does.
module _ (elapsed : ℕ → ℕ) (flag : ℕ → ℕ) (target : ℕ) (change : Bool)
    (forward : (n : ℕ) → elapsed n ≤ elapsed (n + 1))
    (single : (n : ℕ) → elapsed (n + 1) ≤ elapsed n + 1) where
  seen : ℕ → ℕ
  seen n = u64 (elapsed n)

  next_read : (n fuel : ℕ) → elapsed (n + suc fuel) ≡ elapsed (n + 1 + fuel)
  next_read n fuel = ap elapsed (omega arith)

  first_read : (n : ℕ) → elapsed (n + 0) ≡ elapsed n
  first_read n = ap elapsed (omega arith)

  -- The test of the loops is exact while the wait is short of 2^64 ticks.
  woken :
      (n wake : ℕ)
      → elapsed n ≤ wake
      → wake < elapsed n + 2 ^ 64
      → ((u64 (elapsed n) == u64 wake) ≡ true) ↔ (elapsed n ≡ wake)
  woken n wake low near = ground (arith, low, near)

  -- A wait from read `n` to `wake` ends at a read that finds exactly that many ticks.
  sleep_loop_ends :
      (fuel n wake : ℕ)
      → elapsed n ≤ wake
      → wake < elapsed n + 2 ^ 64
      → wake ≤ elapsed (n + fuel)
      → (k : ℕ) × (sleep_loop (suc fuel) (λ r. u64 (elapsed r)) (u64 wake) n ≡ some k)
        × (elapsed k ≡ wake)
        × (k ≤ n + fuel)
  unfolding sleep_loop
  sleep_loop_ends zero n wake low near reach =
      let e : elapsed n ≡ wake = omega (arith, low, reach, first_read n) in
      let done = (woken n wake low near).1 e in (n, if-eq_of_true _ _ done, e, omega arith)
  sleep_loop_ends (suc fuel) n wake low near reach =
      elim (Bool-cases (u64 (elapsed n) == u64 wake)) [
        | inl done ↦ (n, if-eq_of_true _ _ done, (woken n wake low near).0 done, omega arith)
        | inr waits ↦
            let less : elapsed n < wake = ground (arith, waits, low) in
            let (k, ends, at, bound) =
              sleep_loop_ends fuel (n + 1) wake (omega (arith, less, single n))
                (omega (arith, near, forward n)) (omega (arith, reach, next_read n fuel)) in
            (k, if-eq_of_false _ _ waits ∙ ends, at, omega (arith, bound))
      ]

  -- How a watched wait ends at read `k`: by the ticks, or by the flag before.
  pub IsWatched : (wake k : ℕ) → (result : Option (ℕ × ℕ)) → Type 0
  IsWatched wake k result =
      ((result ≡ some (0, k)) × (elapsed k ≡ wake))
      ⊎ ((result ≡ some (1, k)) × (elapsed k < wake) × (triggered (flag k) target change ≡ true))

  watch_loop_ends :
      (fuel n wake : ℕ)
      → elapsed n ≤ wake
      → wake < elapsed n + 2 ^ 64
      → wake ≤ elapsed (n + fuel)
      → (k : ℕ) × IsWatched wake k
          (watch_loop (suc fuel) (λ r. u64 (elapsed r)) flag (u64 wake) target change n)
        × (k ≤ n + fuel)
        × ((j : ℕ) → n ≤ j → j < k → triggered (flag j) target change ≡ false)
  unfolding watch_loop IsWatched
  watch_loop_ends zero n wake low near reach =
      let e : elapsed n ≡ wake = omega (arith, low, reach, first_read n) in
      let done = (woken n wake low near).1 e in
      (n, inl (if-eq_of_true _ _ done, e), omega arith, λ j p q. absurd (omega (arith, p, q)))
  watch_loop_ends (suc fuel) n wake low near reach =
      elim (Bool-cases (u64 (elapsed n) == u64 wake)) [
        | inl done ↦ (
          n,
          inl (if-eq_of_true _ _ done, (woken n wake low near).0 done),
          omega arith,
          λ j p q. absurd (omega (arith, p, q)),
        )
        | inr waits ↦
            let less : elapsed n < wake = ground (arith, waits, low) in
            elim (Bool-cases (triggered (flag n) target change)) [
              | inl seen_now ↦ (
                n,
                inr (if-eq_of_false _ _ waits ∙ if-eq_of_true _ _ seen_now, less, seen_now),
                omega arith,
                λ j p q. absurd (omega (arith, p, q)),
              )
              | inr quiet ↦
                  let (k, ends, bound, silent) =
                    watch_loop_ends fuel (n + 1) wake (omega (arith, less, single n))
                      (omega (arith, near, forward n)) (omega (arith, reach, next_read n fuel)) in
                  (
                    k,
                    elim ends [
                      | inl (e, at) ↦
                          inl (if-eq_of_false _ _ waits ∙ if-eq_of_false _ _ quiet ∙ e, at)
                      | inr (e, at, hit) ↦
                          inr (if-eq_of_false _ _ waits ∙ if-eq_of_false _ _ quiet ∙ e, at, hit)
                    ],
                    omega (arith, bound),
                    λ j p q. elim (Bool-cases (j == n)) [
                      | inl here ↦ let same : j ≡ n = (==_iff _ _).0 here in rw same quiet
                      | inr after ↦ silent j (ground (arith, p, after)) q
                    ],
                  )
            ]
      ]

  -- While at most one tick passes between two reads of the counter, a wait of at least one tick and
  -- less than 2^64 ends, within as many reads as it takes the ticks to pass, exactly when they have;
  -- `clock_sleep_watch_flag` then returns 0, or 1 at the first read after which the flag has
  -- triggered, if that is before.
  pub clock_sleep_ends :
      (reads sleep_tick : ℕ)
      → 1 ≤ sleep_tick
      → sleep_tick < 2 ^ 64
      → elapsed 0 + sleep_tick ≤ elapsed (1 + reads)
      → ((k : ℕ) × (clock_sleep (suc reads) (λ r. u64 (elapsed r)) sleep_tick ≡ some k)
          × (elapsed k ≡ elapsed 0 + sleep_tick)
          × (k ≤ 1 + reads))
        × ((k : ℕ) × IsWatched (elapsed 0 + sleep_tick) k (
              clock_sleep_watch_flag
                (suc reads)
                (λ r. u64 (elapsed r))
                flag
                sleep_tick
                target
                change)
            × (k ≤ 1 + reads)
            × ((j : ℕ) → 1 ≤ j → j < k → triggered (flag j) target change ≡ false))
  unfolding clock_sleep clock_sleep_watch_flag
  clock_sleep_ends reads sleep_tick some_ short reach =
      let wrapped : u64 (u64 (elapsed 0) + sleep_tick) ≡ u64 (elapsed 0 + sleep_tick) =
        omega arith in
      rw wrapped (
        sleep_loop_ends reads 1 (elapsed 0 + sleep_tick) (omega (arith, single 0, some_))
            (omega (arith, forward 0, short)) reach,
        watch_loop_ends reads 1 (elapsed 0 + sleep_tick) (omega (arith, single 0, some_))
            (omega (arith, forward 0, short)) reach,
      )
