-- ===== src/Dates/Stamp.antt =====
-- A time stamp that timeconv prints is read back by calctime.
use jit_dt.Common.{
  ℕ, zero, suc, ◌+◌, ◌-◌, ◌*◌, ◌/◌, ◌%◌, ◌≤◌, ◌<◌, ◌≡◌, refl, sym, ap, ◌∙◌, inl, inr, true, false,
  [], ◌∷◌, ◌++◌, some, Bytes, ltb, ◌==◌, length, replicate, arith, Bool-cases, lt→ltb,
}
use jit_dt.Common.Arrays.{append_assoc}
use jit_dt.Dates.{
  Tm, digits, decimal, padded, timeconv, is_digit, scan_digits, skip_blanks, scan_front,
  scan_number, scan_fraction, scan_stamp, ll2tm,
}

scan_digits-digit :
    (n d : ℕ) (r : Bytes) → d < 10 → scan_digits n ((b'0' + d) ∷ r) ≡ scan_digits (n * 10 + d) r
unfolding scan_digits
scan_digits-digit n d r h =
    let same : b'0' + d - b'0' ≡ d = omega arith in
    let digit : is_digit (b'0' + d) ≡ true = ground arith in rw (scan_digits, digit, same) refl

-- Digits in front of a text add up to their number.
scan_digits-decimal :
    (f n : ℕ) (r : Bytes) → n < f → scan_digits 0 (digits f n ++ r) ≡ scan_digits n r
unfolding digits
scan_digits-decimal zero n r h = absurd (omega arith)
scan_digits-decimal (suc f) n r h = elim (Bool-cases (ltb n 10)) [
  | inl e ↦
      let small : n < 10 = ground arith in
      let start : 0 * 10 + n ≡ n = omega arith in
      rw (digits, e) (scan_digits-digit 0 n r small ∙ ap (λ m. scan_digits m r) start)
  | inr e ↦
      let large : 10 ≤ n = ground arith in
      let d = n % 10 in
      let sum : n / 10 * 10 + n % 10 ≡ n = omega arith in
      rw (digits, e, append_assoc (digits f (n / 10)) ((b'0' + d) ∷ []) r)
        (scan_digits-decimal f (n / 10) ((b'0' + d) ∷ r) (omega arith)
          ∙ scan_digits-digit (n / 10) d r (omega arith)
          ∙ ap (λ m. scan_digits m r) sum)
]

-- A digit stands in front of the digits of a number.
digits-front :
    (f n : ℕ) (r : Bytes)
    → n < f
    → (d : ℕ) × ((s : Bytes) × ((d < 10) × (digits f n ++ r ≡ (b'0' + d) ∷ s)))
unfolding digits
digits-front zero n r h = absurd (omega arith)
digits-front (suc f) n r h = elim (Bool-cases (ltb n 10)) [
  | inl e ↦ rw (digits, e) (n, (r, (ground arith, refl)))
  | inr e ↦
      let large : 10 ≤ n = ground arith in
      let (d, (s, (small, eq))) = digits-front f (n / 10) ((b'0' + n % 10) ∷ r) (omega arith) in
      rw (digits, e)
        (d, (s, (small, append_assoc (digits f (n / 10)) ((b'0' + n % 10) ∷ []) r ∙ eq)))
]

skip_blanks-digit : (d : ℕ) (s : Bytes) → d < 10 → skip_blanks ((b'0' + d) ∷ s) ≡ (b'0' + d) ∷ s
unfolding skip_blanks
skip_blanks-digit d s h =
    let e : (b'0' + d == b' ') ≡ false = ground arith in rw (skip_blanks, e) refl

skip_blanks-replicate : (k : ℕ) (s : Bytes) → skip_blanks (replicate k b' ' ++ s) ≡ skip_blanks s
unfolding skip_blanks
skip_blanks-replicate zero s = refl
skip_blanks-replicate (suc k) s = skip_blanks-replicate k s

scan_front-digit :
    (d : ℕ) (s : Bytes)
    → d < 10
    → scan_front ((b'0' + d) ∷ s) ≡ some (scan_digits 0 ((b'0' + d) ∷ s))
unfolding scan_front
scan_front-digit d s h =
    let e : is_digit (b'0' + d) ≡ true = ground arith in rw (scan_front, e) refl

-- A number behind blanks, in front of a text.
scan_number-blanks :
    (k n : ℕ) (r : Bytes)
    → scan_number (replicate k b' ' ++ (decimal n ++ r)) ≡ some (scan_digits n r)
unfolding scan_number
scan_number-blanks k n r =
    let (d, (s, (small, eq))) = digits-front (suc n) n r (omega arith) in
    ap scan_front
      (skip_blanks-replicate k (decimal n ++ r) ∙ ap skip_blanks eq ∙ skip_blanks-digit d s small)
    ∙ scan_front-digit d s small
    ∙ ap (λ t. some (scan_digits 0 t)) (sym eq)
    ∙ ap some (scan_digits-decimal (suc n) n r (omega arith))

digits_one : (f k : ℕ) → 0 < f → k < 10 → digits f k ≡ (b'0' + k) ∷ []
unfolding digits
digits_one zero k h l = absurd (omega arith)
digits_one (suc f) k h l = let e = lt→ltb k 10 l in rw (digits, e) refl

two_digits : (n : ℕ) → n < 100 → padded b'0' 2 n ≡ (b'0' + n / 10) ∷ (b'0' + n % 10) ∷ []
unfolding padded digits
two_digits n h = elim (Bool-cases (ltb n 10)) [
  | inl e ↦
      let small : n < 10 = ground arith in
      let front : n / 10 ≡ 0 = omega arith in
      let back : n % 10 ≡ n = omega arith in rw (padded, e, front, back) refl
  | inr e ↦
      let large : 10 ≤ n = ground arith in
      let one = digits_one n (n / 10) (omega arith) (omega arith) in rw (padded, e, one) refl
]

-- Two digits behind a number.
scan_two :
    (m n : ℕ) (r : Bytes)
    → n < 100
    → scan_digits m (padded b'0' 2 n ++ r) ≡ scan_digits (m * 100 + n) r
scan_two m n r h =
    let value : (m * 10 + n / 10) * 10 + n % 10 ≡ m * 100 + n = omega arith in
    ap (λ t. scan_digits m (t ++ r)) (two_digits n h)
    ∙ scan_digits-digit m (n / 10) ((b'0' + n % 10) ∷ r) (omega arith)
    ∙ scan_digits-digit (m * 10 + n / 10) (n % 10) r (omega arith)
    ∙ ap (λ k. scan_digits k r) value

-- The fields have at most two digits.
pub record IsTime (t : Tm) : Type 0 where
  pub sec : t.tm_sec < 100
  pub min : t.tm_min < 100
  pub hour : t.tm_hour < 100
  pub mday : t.tm_mday < 100
  pub mon : t.tm_mon + 1 < 100

-- the fields as one number
abbrev pub stamp_number : Tm → ℕ
stamp_number t =
    (((((t.tm_year + 1900) * 100 + (t.tm_mon + 1)) * 100 + t.tm_mday) * 100 + t.tm_hour) * 100
        + t.tm_min)
      * 100
    + t.tm_sec

scan_fields :
    (t : Tm) (r : Bytes)
    → IsTime t
    → scan_digits (t.tm_year + 1900) (
        padded b'0' 2 (t.tm_mon + 1)
        ++ (padded b'0' 2 t.tm_mday
            ++ (padded b'0' 2 t.tm_hour
                ++ (padded b'0' 2 t.tm_min ++ (padded b'0' 2 t.tm_sec ++ (b'.' ∷ r))))))
      ≡ (stamp_number t, b'.' ∷ r)
unfolding scan_digits
scan_fields t r h =
    let s5 = padded b'0' 2 t.tm_sec ++ (b'.' ∷ r) in
    let s4 = padded b'0' 2 t.tm_min ++ s5 in
    let s3 = padded b'0' 2 t.tm_hour ++ s4 in
    let n1 = (t.tm_year + 1900) * 100 + (t.tm_mon + 1) in
    let n2 = n1 * 100 + t.tm_mday in
    let n3 = n2 * 100 + t.tm_hour in
    scan_two (t.tm_year + 1900) (t.tm_mon + 1) (padded b'0' 2 t.tm_mday ++ s3) h.mon
    ∙ scan_two n1 t.tm_mday s3 h.mday
    ∙ scan_two n2 t.tm_hour s4 h.hour
    ∙ scan_two n3 t.tm_min s5 h.min
    ∙ scan_two (n3 * 100 + t.tm_min) t.tm_sec (b'.' ∷ r) h.sec

tm_eq :
    {a b c d e f a' b' c' d' e' f' : ℕ}
    → a ≡ a'
    → b ≡ b'
    → c ≡ c'
    → d ≡ d'
    → e ≡ e'
    → f ≡ f'
    → ◌≡◌ {A = Tm}
        record { tm_sec = a; tm_min = b; tm_hour = c; tm_mday = d; tm_mon = e; tm_year = f }
        record { tm_sec = a'; tm_min = b'; tm_hour = c'; tm_mday = d'; tm_mon = e'; tm_year = f' }
tm_eq a b c d e f = cc

ll2tm-stamp_number :
    (t : Tm)
    → IsTime t
    → ll2tm (stamp_number t) ≡ record t { tm_mon = t.tm_mon + 1; tm_year = t.tm_year + 1900 }
unfolding ll2tm
ll2tm-stamp_number t h =
    tm_eq (omega (arith, h.sec)) (omega (arith, h.sec, h.min)) (omega (arith, h.sec, h.min, h.hour))
      (omega (arith, h.sec, h.min, h.hour, h.mday))
      (omega (arith, h.sec, h.min, h.hour, h.mday, h.mon))
      (omega (arith, h.sec, h.min, h.hour, h.mday, h.mon))

append_assoc_six :
    (k y a b c d e f z : Bytes)
    → ((k ++ y) ++ (a ++ (b ++ (c ++ (d ++ (e ++ f)))))) ++ z
      ≡ k ++ (y ++ (a ++ (b ++ (c ++ (d ++ (e ++ (f ++ z)))))))
append_assoc_six k y a b c d e f z = simp append_assoc

timeconv-append :
    (t : Tm) (usec : ℕ) (z : Bytes)
    → timeconv t usec ++ z
      ≡ replicate (4 - length (decimal (t.tm_year + 1900))) b' '
        ++ (decimal (t.tm_year + 1900)
            ++ (padded b'0' 2 (t.tm_mon + 1)
                ++ (padded b'0' 2 t.tm_mday
                    ++ (padded b'0' 2 t.tm_hour
                        ++ (padded b'0' 2 t.tm_min
                            ++ (padded b'0' 2 t.tm_sec
                                ++ (b'.' ∷ (decimal (usec / 1000) ++ z))))))))
unfolding timeconv padded
timeconv-append t usec z =
    append_assoc_six (replicate (4 - length (decimal (t.tm_year + 1900))) b' ')
      (decimal (t.tm_year + 1900)) (padded b'0' 2 (t.tm_mon + 1)) (padded b'0' 2 t.tm_mday)
      (padded b'0' 2 t.tm_hour) (padded b'0' 2 t.tm_min) (padded b'0' 2 t.tm_sec)
      (b'.' ∷ decimal (usec / 1000)) z

scan_digits-end : (n c : ℕ) (r : Bytes) → is_digit c ≡ false → scan_digits n (c ∷ r) ≡ (n, c ∷ r)
unfolding scan_digits
scan_digits-end n c r h = rw (scan_digits, h) refl

scan_fraction-dot :
    (date msec c : ℕ) (r : Bytes)
    → is_digit c ≡ false
    → scan_fraction date (b'.' ∷ (decimal msec ++ (c ∷ r))) ≡ some ((date, msec), c ∷ r)
unfolding scan_fraction
scan_fraction-dot date msec c r h =
    let e = scan_number-blanks 0 msec (c ∷ r) ∙ ap some (scan_digits-end msec c r h) in
    rw (scan_fraction, e) refl

scan_stamp-eq :
    (buf r : Bytes) (date : ℕ)
    → scan_number buf ≡ some (date, r)
    → scan_stamp buf ≡ scan_fraction date r
unfolding scan_stamp
scan_stamp-eq buf r date e = rw (scan_stamp, e) refl

-- Where no field of a time has more than two digits but the year, and no digit follows, calctime reads
-- from the stamp of timeconv the fields as one number and the milliseconds; and ll2tm gives the
-- fields back from that number, except that the month is one more and the year is 1900 more than in
-- the time that was printed.
pub scan_stamp-timeconv :
    (t : Tm) (usec c : ℕ) (r : Bytes)
    → IsTime t
    → is_digit c ≡ false
    → (scan_stamp (timeconv t usec ++ (c ∷ r)) ≡ some ((stamp_number t, usec / 1000), c ∷ r))
      × (ll2tm (stamp_number t) ≡ record t { tm_mon = t.tm_mon + 1; tm_year = t.tm_year + 1900 })
scan_stamp-timeconv t usec c r h hc =
    let rest = decimal (usec / 1000) ++ (c ∷ r) in
    let number =
      ap scan_number (timeconv-append t usec (c ∷ r))
      ∙ scan_number-blanks (4 - length (decimal (t.tm_year + 1900))) (t.tm_year + 1900) _
      ∙ ap some (scan_fields t rest h) in
    (
      scan_stamp-eq (timeconv t usec ++ (c ∷ r)) (b'.' ∷ rest) (stamp_number t) number
          ∙ scan_fraction-dot (stamp_number t) (usec / 1000) c r hc,
      ll2tm-stamp_number t h,
    )
