-- ===== src/Dates/Tests.antt =====
-- The dates of src/misclib.c and src/calctime.c on examples.
use jit_dt.Common.{◌+◌, ◌/◌, ◌∷◌, ◌++◌, none, some, codes, ◌≡◌, refl, arith}
use jit_dt.Dates.{
  Tm, digits, padded, timeconv, scan_digits, skip_blanks, scan_front, scan_number, scan_fraction,
  scan_stamp, ll2tm,
}
use jit_dt.Dates.Stamp.{IsTime, stamp_number, scan_stamp-timeconv}

-- 31 August 2016, 23:59:59
abbrev last_second : Tm
last_second = record {
  tm_sec = 59;
  tm_min = 59;
  tm_hour = 23;
  tm_mday = 31;
  tm_mon = 7;
  tm_year = 116;
}

stamp_of_august : timeconv last_second 250000 ≡ codes "20160831235959.250"
unfolding timeconv padded digits
stamp_of_august = refl

-- five milliseconds are printed as if they were five tenths of a second
short_milliseconds : timeconv last_second 5000 ≡ codes "20160831235959.5"
unfolding timeconv padded digits
short_milliseconds = refl

no_dot : scan_stamp (codes "  20160831 12") ≡ none
unfolding scan_stamp scan_number scan_front scan_digits scan_fraction skip_blanks
no_dot = refl

last_second-IsTime : IsTime last_second
last_second-IsTime = record {
  sec = omega arith;
  min = omega arith;
  hour = omega arith;
  mday = omega arith;
  mon = omega arith;
}

scan_stamp-timeconv_example :
    (scan_stamp (timeconv last_second 250000 ++ (b' ' ∷ codes "20160831235500"))
      ≡ some ((stamp_number last_second, 250000 / 1000), b' ' ∷ codes "20160831235500"))
    × (ll2tm (stamp_number last_second)
        ≡ record last_second { tm_mon = 7 + 1; tm_year = 116 + 1900 })
scan_stamp-timeconv_example =
    scan_stamp-timeconv last_second 250000 b' ' (codes "20160831235500") last_second-IsTime refl
