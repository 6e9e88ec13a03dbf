-- ===== src/Clock/Rtc.antt =====
-- src/arch/x86/clock.c: the date and time of the real-time clock. `rtc n reg` is what read `n` of
-- register `reg` finds.
use geek_toy_os.Base.{
  ℕ, zero, suc, ◌+◌, ◌-◌, ◌*◌, ◌/◌, ◌^◌, ◌<◌, ◌≡◌, ◌∙◌, arith, bit_and, low_mask, ltb, ◌==◌,
  if◌then◌else◌, Option, none, some,
}
use geek_toy_os.Calendar.{Tm, mktime}

pub bcd2byte : (x : ℕ) → ℕ
bcd2byte x = bit_and (x / 2 ^ 4) 0xF * 10 + bit_and x 0xF

-- The six registers read in a round of the loop, at reads `n` to `n + 5`.
pub record Reading : Type 0 where
  pub year : ℕ
  pub mon : ℕ
  pub day : ℕ
  pub hour : ℕ
  pub min : ℕ
  pub sec : ℕ

pub read_round : (rtc : ℕ → ℕ → ℕ) → (n : ℕ) → Reading
read_round rtc n = record {
  year = rtc n 9;
  mon = rtc (n + 1) 8;
  day = rtc (n + 2) 7;
  hour = rtc (n + 3) 4;
  min = rtc (n + 4) 2;
  sec = rtc (n + 5) 0;
}

-- The loop, from read `n` on: the last reading and the number of the next read; `none` when the
-- seconds have changed in each of the rounds.
pub reading_loop : (fuel : ℕ) → (rtc : ℕ → ℕ → ℕ) → (n : ℕ) → Option (Reading × ℕ)
reading_loop zero rtc n = none
reading_loop (suc fuel) rtc n =
    let rest = reading_loop fuel rtc (n + 7) in
    let r = read_round rtc n in if r.sec == rtc (n + 6) 0 then some (r, n + 7) else rest

-- From the conversion on, for register B; the time zone is UTC, 0.
pub to_tm : (register_b : ℕ) → Reading → Tm
to_tm register_b r =
    let b = λ (x : ℕ). if bit_and register_b 4 == 0 then bcd2byte x else x in
    let year = b r.year + 1900 in
    let full = if ltb year 1970 then year + 100 else year in
    record {
      tm_sec = b r.sec;
      tm_min = b r.min;
      tm_hour = b r.hour;
      tm_mday = b r.day;
      tm_mon = b r.mon - 1;
      tm_year = full - 1900;
      tm_wday = 0;
      tm_yday = 0;
      tm_gmtoff = 0;
    }

pub rtc_get_datetime : (fuel : ℕ) → (rtc : ℕ → ℕ → ℕ) → Option Tm
rtc_get_datetime fuel rtc = elim (reading_loop fuel rtc 0) [
  | none ↦ none
  | some (r, n) ↦ some (to_tm (rtc n 0xB) r)
]

pub arch_get_hw_timestamp : (fuel : ℕ) → (rtc : ℕ → ℕ → ℕ) → Option ℕ
arch_get_hw_timestamp fuel rtc = elim (rtc_get_datetime fuel rtc) [
  | none ↦ none
  | some t ↦ some (mktime t)
]

-- `bcd2byte` decodes two decimal digits.
pub bcd2byte-digits :
    (tens ones : ℕ) → tens < 10 → ones < 10 → bcd2byte (tens * 16 + ones) ≡ tens * 10 + ones
unfolding bcd2byte
bcd2byte-digits tens ones ht ho =
    let x = tens * 16 + ones in
    let high : bit_and (x / 2 ^ 4) 0xF ≡ tens = low_mask 4 (x / 2 ^ 4) ∙ omega (arith, ht, ho) in
    let low : bit_and x 0xF ≡ ones = low_mask 4 x ∙ omega (arith, ht, ho) in
    rw (high, low) (omega arith)
