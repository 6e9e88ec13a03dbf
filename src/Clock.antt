-- ===== src/Clock.antt =====
-- src/kernel/clock.c: the tick counter, and the loops that wait for it. The interrupts that count
-- it run between the reads of a loop: `seen n` is what read `n` of `ticks` finds.
pub mod Sleep
pub mod Rtc
mod Tests
use geek_toy_os.Base.{
  ℕ, zero, suc, ◌+◌, ◌%◌, Bool, true, false, not, ◌==◌, if◌then◌else◌, u32, u64, Option, none, some,
}

abbrev pub hz : ℕ
hz = 100

-- `ticks` and `current_timestamp`.
pub record Clock : Type 0 where
  pub ticks : ℕ
  pub current_timestamp : ℕ

-- `clock_handler` without the log output.
pub clock_handler : Clock → Clock
clock_handler c =
    let t = u64 (c.ticks + 1) in
    record {
      ticks = t;
      current_timestamp =
          if t % hz == 0 then u32 (c.current_timestamp + 1) else c.current_timestamp;
    }

-- `clock_init` up to the start of the hardware; `none` is `panic`.
pub clock_init : (arch_clock_ok : Bool) → (hw_timestamp : ℕ) → Option Clock
clock_init arch_clock_ok hw_timestamp =
    if arch_clock_ok then some (record { ticks = 0; current_timestamp = hw_timestamp }) else none

-- The loop of `clock_sleep` from read `n` on; the result is the read that ended it, and `none` when
-- it has not ended within the fuel.
pub sleep_loop : (fuel : ℕ) → (seen : ℕ → ℕ) → (wake n : ℕ) → Option ℕ
sleep_loop zero seen wake n = none
sleep_loop (suc fuel) seen wake n =
    let rest = sleep_loop fuel seen wake (n + 1) in if seen n == wake then some n else rest

-- Read 0 is `start`.
pub clock_sleep : (fuel : ℕ) → (seen : ℕ → ℕ) → (sleep_tick : ℕ) → Option ℕ
clock_sleep fuel seen sleep_tick = sleep_loop fuel seen (u64 (seen 0 + sleep_tick)) 1

-- The test of the flag in `clock_sleep_watch_flag`.
pub triggered : (value target : ℕ) → (change : Bool) → Bool
triggered value target change = if change then not (value == target) else value == target

-- The loop of `clock_sleep_watch_flag`, where `flag n` is the flag after read `n` of `ticks`. The
-- result is what it returns, and when.
pub watch_loop :
    (fuel : ℕ)
    → (seen flag : ℕ → ℕ) → (wake target : ℕ) → (change : Bool) → (n : ℕ) → Option (ℕ × ℕ)
watch_loop zero seen flag wake target change n = none
watch_loop (suc fuel) seen flag wake target change n =
    let rest = watch_loop fuel seen flag wake target change (n + 1) in
    if seen n == wake
    then some (0, n)
    else if triggered (flag n) target change
    then some (1, n)
    else rest

pub clock_sleep_watch_flag :
    (fuel : ℕ) → (seen flag : ℕ → ℕ) → (sleep_tick target : ℕ) → (change : Bool) → Option (ℕ × ℕ)
clock_sleep_watch_flag fuel seen flag sleep_tick target change =
    watch_loop fuel seen flag (u64 (seen 0 + sleep_tick)) target change 1
