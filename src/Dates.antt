-- ===== src/Dates.antt =====
-- src/misclib.c: timeconv, the time stamp of a line of the log; and src/calctime.c, which reads such
-- stamps: its sscanf of one of them, and ll2tm. localtime_r, whose result is the argument, mktime and
-- floats are not modelled, nor are the cast of the microseconds to `int` and the ranges of `%qd` and
-- `%d`: the numbers are those of a clock.
pub mod Stamp
pub mod Conv
mod Tests
use jit_dt.Common.{
  ℕ, zero, suc, ◌+◌, ◌-◌, ◌*◌, ◌/◌, ◌%◌, Bool, true, false, ◌&&◌, List, [], ◌∷◌, ◌++◌, Option, none,
  some, Bytes, codes, ltb, leb, ◌==◌, if◌then◌else◌, length, replicate,
}

-- `struct tm`, the fields that are used
pub record Tm : Type 0 where
  pub tm_sec : ℕ
  pub tm_min : ℕ
  pub tm_hour : ℕ
  pub tm_mday : ℕ
  pub tm_mon : ℕ
  pub tm_year : ℕ

-- `%d`: the digits, with fuel for their number
unfoldable pub digits : ℕ → ℕ → Bytes
digits zero n = []
digits (suc f) n =
    let front = digits f (n / 10) in
    if ltb n 10 then (b'0' + n) ∷ [] else front ++ ((b'0' + n % 10) ∷ [])

abbrev pub decimal : ℕ → Bytes
decimal n = digits (suc n) n

-- `%4d` and `%02d`: filled up to a width
unfoldable pub padded : ℕ → ℕ → ℕ → Bytes
padded fill width n = replicate (width - length (decimal n)) fill ++ decimal n

-- `timeconv` on the broken-down time and the microseconds
unfoldable pub timeconv : Tm → ℕ → Bytes
timeconv t usec =
    padded b' ' 4 (t.tm_year + 1900)
    ++ (padded b'0' 2 (t.tm_mon + 1)
        ++ (padded b'0' 2 t.tm_mday
            ++ (padded b'0' 2 t.tm_hour
                ++ (padded b'0' 2 t.tm_min
                    ++ (padded b'0' 2 t.tm_sec ++ (b'.' ∷ decimal (usec / 1000)))))))

abbrev pub is_digit : ℕ → Bool
is_digit c = leb b'0' c && leb c b'9'

-- the digits of a number in front of a text, behind the number so far
unfoldable pub scan_digits : ℕ → Bytes → ℕ × Bytes
scan_digits n [] = (n, [])
scan_digits n (c ∷ r) =
    let more = scan_digits (n * 10 + (c - b'0')) r in if is_digit c then more else (n, c ∷ r)

unfoldable pub skip_blanks : Bytes → Bytes
skip_blanks [] = []
skip_blanks (c ∷ r) = let rest = skip_blanks r in if c == b' ' then rest else c ∷ r

unfoldable pub scan_front : Bytes → Option (ℕ × Bytes)
scan_front [] = none
scan_front (c ∷ r) = if is_digit c then some (scan_digits 0 (c ∷ r)) else none

-- `%qd` or `%d`, on a text without a sign
unfoldable pub scan_number : Bytes → Option (ℕ × Bytes)
scan_number s = scan_front (skip_blanks s)

-- `.%d` behind the first number
unfoldable pub scan_fraction : ℕ → Bytes → Option ((ℕ × ℕ) × Bytes)
scan_fraction date [] = none
scan_fraction date (c ∷ r) =
    if c == b'.'
    then elim (scan_number r) [ none ↦ none | some (msec, rest) ↦ some ((date, msec), rest) ]
    else none

-- `sscanf(buf, "%qd.%d ...", &date1, &msec, ...)`: the first two numbers, and what is left
unfoldable pub scan_stamp : Bytes → Option ((ℕ × ℕ) × Bytes)
scan_stamp buf = elim (scan_number buf) [ none ↦ none | some (date, r) ↦ scan_fraction date r ]

-- `ll2tm`
unfoldable pub ll2tm : ℕ → Tm
ll2tm dt = record {
  tm_sec = dt % 100;
  tm_min = dt / 100 % 100;
  tm_hour = dt / 10000 % 100;
  tm_mday = dt / 1000000 % 100;
  tm_mon = dt / 100000000 % 100;
  tm_year = dt / 10000000000;
}
