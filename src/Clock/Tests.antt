-- ===== src/Clock/Tests.antt =====
-- The waits of src/kernel/clock.c where a tick passes between any two reads.
use geek_toy_os.Base.{ℕ, ◌+◌, ◌≤◌, ◌<◌, ◌≡◌, arith, false, u64, some}
use geek_toy_os.Clock.{clock_sleep, clock_sleep_watch_flag, triggered}
use geek_toy_os.Clock.Sleep.{IsWatched, clock_sleep_ends}

abbrev each_read : ℕ → ℕ
each_read n = n + 5

abbrev flag : ℕ → ℕ
flag n = 0

each_read-forward : (n : ℕ) → each_read n ≤ each_read (n + 1)
each_read-forward n = omega arith

each_read-single : (n : ℕ) → each_read (n + 1) ≤ each_read n + 1
each_read-single n = omega arith

clock_sleep_example :
    ((k : ℕ) × (clock_sleep 3 (λ r. u64 (each_read r)) 3 ≡ some k)
      × (each_read k ≡ each_read 0 + 3)
      × (k ≤ 1 + 2))
    × ((k : ℕ) × IsWatched each_read flag 1 false each_read-forward each_read-single
          (each_read 0 + 3)
          k
          (clock_sleep_watch_flag 3 (λ r. u64 (each_read r)) flag 3 1 false)
        × (k ≤ 1 + 2)
        × ((j : ℕ) → 1 ≤ j → j < k → triggered (flag j) 1 false ≡ false))
clock_sleep_example =
    clock_sleep_ends each_read flag 1 false each_read-forward each_read-single 2 3 (omega arith)
      (omega arith) (omega arith)
