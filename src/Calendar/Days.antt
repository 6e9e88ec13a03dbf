-- ===== src/Calendar/Days.antt =====
-- `mktime` undoes `gmtime` and `localtime`.
use geek_toy_os.Base.{
  ℕ, zero, suc, ◌+◌, ◌-◌, ◌*◌, ◌/◌, ◌%◌, ◌≤◌, ◌<◌, Bool, true, false, leb, if◌then◌else◌, ◌≡◌, refl,
  arith, Bool-cases, inl, inr, ap,
}
use native.Mathlib.Numerals.{add-one}
use geek_toy_os.Calendar.{
  day_number, is_leap, year_days, month_days, year_loop, month_loop, year_of_days,
}

-- Days from 1900-1-1 to the first day of the year `year` counted from 1900.
unfoldable pub days_before : ℕ → ℕ
days_before year = let p = year + 1899 in p * 365 + p / 4 - p / 100 + p / 400 - 693595

pub days_before-suc : (year : ℕ) → days_before (year + 1) ≡ days_before year + year_days year
unfolding days_before year_days is_leap
days_before-suc year = ground arith

year_loop_lem :
    (fuel year days : ℕ)
    → days < fuel * 365
    → let r = year_loop fuel year days in
      (days_before r.whole + r.left ≡ days_before year + days)
      × (r.left < year_days r.whole)
      × (year ≤ r.whole)
unfolding year_loop
year_loop_lem zero year days small = absurd (omega arith)
year_loop_lem (suc fuel) year days small = elim (Bool-cases (leb (year_days year) days)) [
  | inr done ↦ rw done (refl, ground arith, omega arith)
  | inl more ↦
      let (sum, last, up) =
        year_loop_lem fuel (year + 1) (days - year_days year)
          (ground (arith, year_days_range year)) in
      rw more (ground (arith, sum, days_before-suc year), last, omega arith)
]
  where
    year_days_range : (y : ℕ) → (365 ≤ year_days y) × (year_days y ≤ 366)
    year_days_range y = unfold year_days in ground arith

-- The block of four years and its correction for the years of a century.
block_start :
    (d : ℕ)
    → d < 80000
    → let year = d / 1461 * 4 in
      let left = d % 1461 + (year + 99) / 100 - (year + 299) / 400 in
      (days_before year + left ≡ d) × (left < 5 * 365)
unfolding days_before
block_start d h = ground arith

pub days_before-ge : (year : ℕ) → 365 * year ≤ days_before year
unfolding days_before
days_before-ge year = omega arith

pub year_of_days_lem :
    (days : ℕ)
    → days < 50000
    → let r = year_of_days days in
      (days_before r.whole + r.left ≡ days + 25567) × (r.left < year_days r.whole) × (r.whole < 214)
unfolding year_of_days
year_of_days_lem days h =
    let d = days + 25567 in
    let year = d / 1461 * 4 in
    let left = d % 1461 + (year + 99) / 100 - (year + 299) / 400 in
    let (start, small) = block_start d (omega arith) in
    let (sum, last, up) = year_loop_lem 5 year left small in
    (
      omega (arith, sum, start),
      last,
      omega (arith, sum, start, days_before-ge (year_loop 5 year left).whole),
    )

-- Days of the year before a month.
unfoldable pub days_before_month : (leap : Bool) → (mon : ℕ) → ℕ
days_before_month leap zero = 0
days_before_month leap (suc mon) = days_before_month leap mon + month_days leap mon

twelve_months : (leap : Bool) → days_before_month leap 12 ≡ 365 + (if leap then 1 else 0)
unfolding days_before_month month_days
twelve_months true = refl
twelve_months false = refl

pub month_loop_lem :
    (fuel : ℕ) (leap : Bool) (mon days : ℕ)
    → mon + fuel ≡ 12
    → days_before_month leap mon + days < 365 + (if leap then 1 else 0)
    → let r = month_loop fuel leap mon days in
      (days_before_month leap r.whole + r.left ≡ days_before_month leap mon + days)
      × (r.whole < 12)
      × (r.left < month_days leap r.whole)
unfolding month_loop days_before_month
month_loop_lem zero leap mon days e small =
    let at : mon ≡ 12 = omega arith in
    absurd (omega (arith, small, ap (λ (m : ℕ). days_before_month leap m) at, twelve_months leap))
month_loop_lem (suc fuel) leap mon days e small =
    elim (Bool-cases (leb (month_days leap mon) days)) [
      | inr done ↦ rw done (refl, omega arith, ground arith)
      | inl more ↦
          let (sum, below, last) =
            month_loop_lem fuel leap (mon + 1) (days - month_days leap mon) (omega arith)
              (ground (arith, next_month)) in
          rw more (ground (arith, sum, next_month), below, last)
    ]
  where
    next_month : days_before_month leap (mon + 1) ≡ days_before_month leap mon + month_days leap mon
    next_month = rw add-one refl

-- The Gauss formula counts the days.
pub day_number_lem :
    (year mon day : ℕ)
    → 70 ≤ year
    → year < 1000
    → mon < 12
    → 1 ≤ day
    → day ≤ 31
    → day_number (mon + 1) (year + 1900) day + 25567 + 1
      ≡ days_before year + days_before_month (is_leap year) mon + day
unfolding day_number days_before days_before_month month_days is_leap
day_number_lem year zero day a b c d e = ground arith
day_number_lem year (suc zero) day a b c d e = ground arith
day_number_lem year (suc (suc zero)) day a b c d e = ground arith
day_number_lem year (suc (suc (suc zero))) day a b c d e = ground arith
day_number_lem year (suc (suc (suc (suc zero)))) day a b c d e = ground arith
day_number_lem year (suc (suc (suc (suc (suc zero))))) day a b c d e = ground arith
day_number_lem year (suc (suc (suc (suc (suc (suc zero)))))) day a b c d e = ground arith
day_number_lem year (suc (suc (suc (suc (suc (suc (suc zero))))))) day a b c d e = ground arith
day_number_lem year (suc (suc (suc (suc (suc (suc (suc (suc zero)))))))) day a b c d e =
    ground arith
day_number_lem year (suc (suc (suc (suc (suc (suc (suc (suc (suc zero))))))))) day a b c d e =
    ground arith
day_number_lem year (suc (suc (suc (suc (suc (suc (suc (suc (suc (suc zero)))))))))) day a b c d e =
    ground arith
day_number_lem year (suc (suc (suc (suc (suc (suc (suc (suc (suc (suc (suc zero))))))))))) day a b c
      d e =
    ground arith
day_number_lem year (suc (suc (suc (suc (suc (suc (suc (suc (suc (suc (suc (suc m)))))))))))) day a
      b c d e =
    absurd (omega arith)
