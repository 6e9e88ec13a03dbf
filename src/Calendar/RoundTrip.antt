-- ===== src/Calendar/RoundTrip.antt =====
-- `mktime`, `gmtime` and `localtime` of src/lib/time.c against the calendar.
use geek_toy_os.Base.{
  ℕ, zero, suc, ◌+◌, ◌-◌, ◌*◌, ◌/◌, ◌%◌, ◌^◌, ◌≤◌, ◌<◌, Bool, u32, u64, sub64, ◌≡◌, refl, arith,
  ◌∙◌, leb, Bool-cases, inl, inr,
}
use geek_toy_os.Calendar.{
  Tm, day_number, mktime, is_leap, year_days, month_days, year_of_days, gmtime_at, gmtime,
  localtime,
}
use geek_toy_os.Calendar.Days.{
  days_before, days_before_month, days_before-suc, year_of_days_lem, month_loop_lem, day_number_lem,
}

-- A date of the calendar, with a time of day. The year is counted from 1900, the month from 0.
pub record IsDate (t : Tm) : Type 0 where
  pub sec : t.tm_sec < 60
  pub min : t.tm_min < 60
  pub hour : t.tm_hour < 24
  pub mon : t.tm_mon < 12
  pub mday_low : 1 ≤ t.tm_mday
  pub mday_high : t.tm_mday ≤ month_days (is_leap t.tm_year) t.tm_mon
  pub year_low : 70 ≤ t.tm_year
  pub year_high : t.tm_year < 1000

-- Days from 1900-1-1 to the date.
pub days_to : Tm → ℕ
days_to t = days_before t.tm_year + days_before_month (is_leap t.tm_year) t.tm_mon + (t.tm_mday - 1)

-- The day of the week and the day of the year are those of the date: 1970-1-1 was a Thursday.
pub record IsNumbered (t : Tm) : Type 0 where
  pub wday : t.tm_wday ≡ (days_to t - 25567 + 4) % 7
  pub yday : t.tm_yday ≡ days_before_month (is_leap t.tm_year) t.tm_mon + (t.tm_mday - 1)

month_days-le : (leap : Bool) (mon : ℕ) → month_days leap mon ≤ 31
unfolding month_days
month_days-le leap mon = ground (arith)

days_before-le : (year : ℕ) → days_before year ≤ 365 * year + year / 4 + 1
unfolding days_before
days_before-le year = omega arith

days_before_month-le : (leap : Bool) (mon : ℕ) → days_before_month leap mon ≤ 31 * mon
unfolding days_before_month
days_before_month-le leap zero = omega arith
days_before_month-le leap (suc mon) =
    omega (arith, days_before_month-le leap mon, month_days-le leap mon)

days_before_small : (year : ℕ) → year ≤ 70 → days_before year ≤ 25567
unfolding days_before
days_before_small year h = omega (arith, h)

year_days-le : (year : ℕ) → year_days year ≤ 366
unfolding year_days
year_days-le year = ground arith

-- For every date from 1970 on, before the year 2900, `mktime` returns the seconds from 1970-1-1 to
-- the date, less the offset from UTC, on 32 bits: its days are those of the calendar, year by year
-- with the leap rule and month by month. The offset is from 0 to eight hours east.
pub mktime_lem :
    (t : Tm)
    → IsDate t
    → t.tm_gmtoff ≤ 28800
    → mktime t
      ≡ u32 (
          sub64
            ((((days_to t - 25567) * 24 + t.tm_hour) * 60 + t.tm_min) * 60 + t.tm_sec)
            t.tm_gmtoff)
unfolding mktime days_to
mktime_lem t d small =
    let days =
      days_before t.tm_year + days_before_month (is_leap t.tm_year) t.tm_mon + (t.tm_mday - 1) in
    let counted =
      day_number_lem t.tm_year t.tm_mon t.tm_mday d.year_low d.year_high d.mon d.mday_low
        (omega (arith, d.mday_high, month_days-le (is_leap t.tm_year) t.tm_mon)) in
    let same : day_number (t.tm_mon + 1) (t.tm_year + 1900) t.tm_mday ≡ days - 25567 =
      omega (arith, counted, d.mday_low) in
    let total = (((days - 25567) * 24 + t.tm_hour) * 60 + t.tm_min) * 60 + t.tm_sec in
    let fits : u64 total ≡ total = omega (
      arith,
      d,
      days_before-le t.tm_year,
      days_before_month-le (is_leap t.tm_year) t.tm_mon,
      month_days-le (is_leap t.tm_year) t.tm_mon,
    ) in
    rw same (rw fits refl)

not_before : (year : ℕ) → 25567 < days_before (year + 1) → 70 ≤ year
not_before year h = elim (Bool-cases (leb 70 year)) [
  | inl late ↦ ground (arith, late)
  | inr early ↦ absurd (ground (arith, early, h, days_before_small (year + 1)))
]

gmtime_at-IsDate :
    (off ts : ℕ)
    → off ≤ 28800
    → IsDate (gmtime_at off ts)
      × (days_to (gmtime_at off ts) ≡ u32 (ts + off) / 86400 + 25567)
      × IsNumbered (gmtime_at off ts)
unfolding gmtime_at days_to
gmtime_at-IsDate off ts h =
    let t = u32 (ts + off) in
    let days = t / 60 / 60 / 24 in
    let (sum, last, small) = year_of_days_lem days (omega arith) in
    let y = year_of_days days in
    let late : 70 ≤ y.whole =
      not_before y.whole (omega (arith, sum, last, days_before-suc y.whole)) in
    let (msum, mon, mlast) =
      month_loop_lem 12 (is_leap y.whole) 0 y.left (omega arith)
        (unfold days_before_month year_days in omega (arith, last)) in
    (
      record {
        sec = omega arith;
        min = omega arith;
        hour = omega arith;
        mon = mon;
        mday_low = omega arith;
        mday_high = omega (arith, mlast);
        year_low = late;
        year_high = omega (arith, small);
      },
      unfold days_before_month in omega (arith, sum, msum),
      record {
        wday = unfold days_before_month in omega (arith, sum, msum);
        yday = unfold days_before_month in omega (arith, msum);
      },
    )

-- Every result of `gmtime` is a date of the calendar with a time of day, its day of the week and its
-- day of the year are those of the date, and `mktime` turns it back into the timestamp, for every
-- 32-bit timestamp.
pub mktime-gmtime :
    (ts : ℕ) → ts < 2 ^ 32 → IsDate (gmtime ts) × (mktime (gmtime ts) ≡ ts) × IsNumbered (gmtime ts)
unfolding gmtime
mktime-gmtime ts h =
    let (date, days, numbered) = gmtime_at-IsDate 0 ts (omega arith) in
    (
      date,
      mktime_lem (gmtime_at 0 ts) date (unfold gmtime_at in omega arith)
          ∙ (unfold gmtime_at in omega (arith, days)),
      numbered,
    )

-- The same for `localtime`, eight hours east, for the timestamps whose local time fits 32 bits.
pub mktime-localtime :
    (ts : ℕ) → ts + 28800 < 2 ^ 32 → IsDate (localtime ts) × (mktime (localtime ts) ≡ ts)
unfolding localtime
mktime-localtime ts h =
    let (date, days, _) = gmtime_at-IsDate (8 * 3600) ts (omega arith) in
    (
      date,
      mktime_lem (gmtime_at (8 * 3600) ts) date (unfold gmtime_at in omega arith)
          ∙ (unfold gmtime_at in omega (arith, days)),
    )
