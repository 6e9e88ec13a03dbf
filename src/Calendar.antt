-- ===== src/Calendar.antt =====
-- src/lib/time.c: `mktime`, `gmtime` and `localtime`; Strftime has `strftime`. The fields of `struct tm` are numbers; those that the
-- code reads are never negative.
pub mod Days
pub mod RoundTrip
pub mod Strftime
mod Tests
use geek_toy_os.Base.{
  ℕ, zero, suc, ◌+◌, ◌-◌, ◌*◌, ◌/◌, ◌%◌, ◌^◌, Bool, true, false, not, ◌&&◌, ◌||◌, ltb, leb, ◌==◌,
  if◌then◌else◌, u32, u64, sub32, sub64, List, [], ◌∷◌, get_or,
}

pub record Tm : Type 0 where
  pub tm_sec : ℕ
  pub tm_min : ℕ
  pub tm_hour : ℕ
  pub tm_mday : ℕ
  pub tm_mon : ℕ
  pub tm_year : ℕ
  pub tm_wday : ℕ
  pub tm_yday : ℕ
  pub tm_gmtoff : ℕ

-- `if (0 >= (int) (mon -= 2)) { mon += 12; year -= 1; }`, with `mon` from 1 on.
abbrev pub shifted_mon : ℕ → ℕ
shifted_mon mon = if leb mon 2 then mon + 10 else mon - 2

abbrev pub shifted_year : (mon year : ℕ) → ℕ
shifted_year mon year = if leb mon 2 then year - 1 else year

-- The days of the Gauss formula. The first sum is in `unsigned int` and then widened; the product
-- `year*365` is in `unsigned int`; the rest is in `unsigned long`.
pub day_number : (mon year day : ℕ) → ℕ
day_number mon year day =
    let m = shifted_mon mon in
    let y = shifted_year mon year in
    sub64 (u64 (u32 (sub32 (y / 4) (y / 100) + y / 400 + 367 * m / 12 + day) + u32 (y * 365)))
      719499

pub mktime : Tm → ℕ
mktime t =
    let days = day_number (t.tm_mon + 1) (t.tm_year + 1900) t.tm_mday in
    u32 (sub64 (u64 (((days * 24 + t.tm_hour) * 60 + t.tm_min) * 60 + t.tm_sec)) t.tm_gmtoff)

-- A year counted from 1900.
pub is_leap : ℕ → Bool
is_leap year = year % 4 == 0 && not (year % 100 == 0) || (year + 300) % 400 == 0

pub year_days : ℕ → ℕ
year_days year = 365 + (if is_leap year then 1 else 0)

abbrev pub month_table : List ℕ
month_table = 31 ∷ 28 ∷ 31 ∷ 30 ∷ 31 ∷ 30 ∷ 31 ∷ 31 ∷ 30 ∷ 31 ∷ 30 ∷ 31 ∷ []

pub month_days : (leap : Bool) → (mon : ℕ) → ℕ
month_days leap mon = get_or month_table mon 0 + (if leap && mon == 1 then 1 else 0)

pub record Split : Type 0 where
  pub whole : ℕ
  pub left : ℕ

abbrev pub split : ℕ → ℕ → Split
split w l = record { whole = w; left = l }

-- `while (ydays <= localtime)`: a year has 365 days at least, so four rounds do for the days that
-- are left of a block of four years and the two days of the correction.
pub year_loop : (fuel year days : ℕ) → Split
year_loop zero year days = split year days
year_loop (suc fuel) year days =
    let rest = year_loop fuel (year + 1) (days - year_days year) in
    if leb (year_days year) days then rest else split year days

-- `while (mdays <= localtime)`, for the at most eleven months that can pass.
pub month_loop : (fuel : ℕ) → (leap : Bool) → (mon days : ℕ) → Split
month_loop zero leap mon days = split mon days
month_loop (suc fuel) leap mon days =
    let rest = month_loop fuel leap (mon + 1) (days - month_days leap mon) in
    if leb (month_days leap mon) days then rest else split mon days

-- The year and the day of the year, from the days since 1970-1-1.
pub year_of_days : ℕ → Split
year_of_days days =
    let d = days + 25567 in
    let year = d / 1461 * 4 in year_loop 5 year (d % 1461 + (year + 99) / 100 - (year + 299) / 400)

-- `_gmtime`, with the offset that its callers put into `__tm_gmtoff`.
pub gmtime_at : (gmtoff timestamp : ℕ) → Tm
gmtime_at gmtoff timestamp =
    let t = u32 (timestamp + gmtoff) in
    let days = t / 60 / 60 / 24 in
    let y = year_of_days days in
    let m = month_loop 12 (is_leap y.whole) 0 y.left in
    record {
      tm_sec = t % 60;
      tm_min = t / 60 % 60;
      tm_hour = t / 60 / 60 % 24;
      tm_mday = m.left + 1;
      tm_mon = m.whole;
      tm_year = y.whole;
      tm_wday = (days + 4) % 7;
      tm_yday = y.left;
      tm_gmtoff = gmtoff;
    }

pub gmtime : ℕ → Tm
gmtime = gmtime_at 0

-- LOCAL_TIMEZONE is +8.
pub localtime : ℕ → Tm
localtime = gmtime_at (8 * 3600)
