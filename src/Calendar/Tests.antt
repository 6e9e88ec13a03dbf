-- ===== src/Calendar/Tests.antt =====
-- The calendar of src/lib/time.c at concrete times.
use geek_toy_os.Base.{◌+◌, ◌-◌, ◌*◌, u32, sub64, ◌≡◌, arith}
use geek_toy_os.Calendar.{Tm, mktime, is_leap, month_days, gmtime, localtime}
use geek_toy_os.Calendar.RoundTrip.{
  IsDate, IsNumbered, days_to, mktime_lem, mktime-gmtime, mktime-localtime,
}

-- 2024-2-29, 12:30:15, eight hours east.
abbrev leap_day : Tm
leap_day = record {
  tm_sec = 15;
  tm_min = 30;
  tm_hour = 12;
  tm_mday = 29;
  tm_mon = 1;
  tm_year = 124;
  tm_wday = 4;
  tm_yday = 59;
  tm_gmtoff = 28800;
}

leap_day-IsDate : IsDate leap_day
unfolding is_leap month_days
leap_day-IsDate = record {
  sec = omega arith;
  min = omega arith;
  hour = omega arith;
  mon = omega arith;
  mday_low = omega arith;
  mday_high = omega arith;
  year_low = omega arith;
  year_high = omega arith;
}

mktime_example :
    mktime leap_day
    ≡ u32 (sub64 ((((days_to leap_day - 25567) * 24 + 12) * 60 + 30) * 60 + 15) 28800)
mktime_example = mktime_lem leap_day leap_day-IsDate (omega arith)

mktime-gmtime_example :
    IsDate (gmtime 1709209815)
    × (mktime (gmtime 1709209815) ≡ 1709209815)
    × IsNumbered (gmtime 1709209815)
mktime-gmtime_example = mktime-gmtime 1709209815 (omega arith)

mktime-localtime_example :
    IsDate (localtime 1709209815) × (mktime (localtime 1709209815) ≡ 1709209815)
mktime-localtime_example = mktime-localtime 1709209815 (omega arith)
