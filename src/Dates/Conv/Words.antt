-- ===== src/Dates/Conv/Words.antt =====
-- The words of a text of ctime_r.
use jit_dt.Common.{
  ℕ, zero, suc, ◌+◌, ◌≤◌, ◌<◌, ◌≡◌, ◌≢◌, refl, List, [], ◌∷◌, ◌++◌, none, some, Bytes, codes,
  str_eq, ne→==, length, length-append, replicate, map, All, arith, get_or, All-get_or, ◌/◌,
}
use jit_dt.Common.Outcome.{ret, load}
use jit_dt.LockFile.{c_str, cut_line}
use jit_dt.Dates.{decimal, skip_blanks}
use jit_dt.Dates.Conv.{mname, find_month, conv_month, split_blank, words, conv_fields, dateconv}

-- a word: not empty, and without blanks
abbrev pub IsWord : Bytes → Type 0
IsWord [] = ⊥
IsWord (c ∷ r) = All (λ c. c ≢ b' ') (c ∷ r)

-- blanks before each word and one behind it, and a last word
abbrev pub spaced : List (ℕ × Bytes) → Bytes → Bytes
spaced [] last = last
spaced ((k, w) ∷ ps) last = replicate k b' ' ++ (w ++ (b' ' ∷ spaced ps last))

-- the end of the text: a word, an end of a line
abbrev pub IsLast : Bytes → Type 0
IsLast w = All (λ c. (c ≢ b' ') × (c ≢ b'\n') × (c ≢ 0)) w

split_blank-word :
    (w r : Bytes) → All (λ c. c ≢ b' ') w → split_blank (w ++ (b' ' ∷ r)) ≡ some (w, r)
unfolding split_blank
split_blank-word [] r h = refl
split_blank-word (c ∷ w) r h = rw (split_blank, ne→== c b' ' h.0, split_blank-word w r h.1) refl

skip_blanks-word :
    (k : ℕ) (w r : Bytes) → IsWord w → skip_blanks (replicate k b' ' ++ (w ++ r)) ≡ w ++ r
unfolding skip_blanks
skip_blanks-word zero [] r h = absurd h
skip_blanks-word zero (c ∷ w) r h = rw (skip_blanks, ne→== c b' ' h.0) refl
skip_blanks-word (suc k) w r h = skip_blanks-word k w r h

word_blanks : (w : Bytes) → IsWord w → All (λ c. c ≢ b' ') w
word_blanks [] h = absurd h
word_blanks (c ∷ r) h = h

some_blank :
    (k : ℕ) (w r : Bytes)
    → IsWord w
    → (x : Bytes × Bytes) × (split_blank (replicate k b' ' ++ (w ++ (b' ' ∷ r))) ≡ some x)
unfolding split_blank
some_blank zero w r h = (_, split_blank-word w r (word_blanks w h))
some_blank (suc k) w r h = (_, refl)

last_split : (w : Bytes) → IsLast w → split_blank (w ++ codes "\n") ≡ none
unfolding split_blank
last_split [] h = refl
last_split (c ∷ w) h = rw (split_blank, ne→== c b' ' h.0.0, last_split w h.1) refl

last_line : (w : Bytes) → IsLast w → c_str (cut_line (w ++ codes "\n")) ≡ w
unfolding c_str cut_line
last_line [] h = refl
last_line (c ∷ w) h =
    rw (cut_line, ne→== c 0 h.0.2, ne→== c b'\n' h.0.1, c_str, ne→== c 0 h.0.2, last_line w h.1)
      refl

words-spaced :
    (f : ℕ) (ps : List (ℕ × Bytes)) (last : Bytes)
    → All (λ p. IsWord p.1) ps
    → IsLast last
    → length ps < f
    → words f (spaced ps (last ++ codes "\n")) ≡ ret (map (λ p. p.1) ps ++ (last ∷ []))
unfolding words
words-spaced zero ps last h hl hf = absurd (omega arith)
words-spaced (suc f) [] last h hl hf = rw (words, last_split last hl, last_line last hl) refl
words-spaced (suc f) ((k, w) ∷ ps) last h hl hf =
    let rest = spaced ps (last ++ codes "\n") in
    let (x, e) = some_blank k w rest h.0 in
    rw
      (
        words,
        e,
        skip_blanks-word k w (b' ' ∷ rest) h.0,
        split_blank-word w rest (word_blanks w h.0),
        words-spaced f ps last h.1 hl (omega arith),
      )
      refl

spaced_long : (ps : List (ℕ × Bytes)) (last : Bytes) → length ps ≤ length (spaced ps last)
spaced_long [] last = omega arith
spaced_long ((k, w) ∷ ps) last =
    let more = b' ' ∷ spaced ps last in
    omega (
      arith,
      spaced_long ps last,
      length-append (replicate k b' ') (w ++ more),
      length-append w more,
    )

-- the names of the months, from number 0
month_number : (m : ℕ) → m < 12 → conv_month (get_or mname m []) ≡ m + 1
unfolding conv_month find_month str_eq
month_number zero h = refl
month_number (suc zero) h = refl
month_number (suc (suc zero)) h = refl
month_number (suc (suc (suc zero))) h = refl
month_number (suc (suc (suc (suc zero)))) h = refl
month_number (suc (suc (suc (suc (suc zero))))) h = refl
month_number (suc (suc (suc (suc (suc (suc zero)))))) h = refl
month_number (suc (suc (suc (suc (suc (suc (suc zero))))))) h = refl
month_number (suc (suc (suc (suc (suc (suc (suc (suc zero)))))))) h = refl
month_number (suc (suc (suc (suc (suc (suc (suc (suc (suc zero))))))))) h = refl
month_number (suc (suc (suc (suc (suc (suc (suc (suc (suc (suc zero)))))))))) h = refl
month_number (suc (suc (suc (suc (suc (suc (suc (suc (suc (suc (suc zero))))))))))) h = refl
month_number (suc (suc (suc (suc (suc (suc (suc (suc (suc (suc (suc (suc m)))))))))))) h =
    absurd (omega arith)

month-IsWord : (m : ℕ) → m < 12 → IsWord (get_or mname m [])
month-IsWord m h = All-get_or IsWord mname m [] (omega arith) (omega arith)

-- For a text of a day, one of the twelve names of a month, a date, a time and a year, one blank
-- behind each of the first four and any number of blanks before it, an end of a line behind the
-- year, where the words are not empty and have no blanks, and the year no null byte and no end of
-- a line: dateconv gives the year, the number of the month from 1, the date, the time and the
-- milliseconds, with colons between them.
pub dateconv-spaced :
    (a b c d m usec : ℕ) (day date time year : Bytes)
    → m < 12
    → IsWord day
    → IsWord date
    → IsWord time
    → IsLast year
    → dateconv
        (spaced
          ((a, day) ∷ (b, get_or mname m []) ∷ (c, date) ∷ (d, time) ∷ [])
          (year ++ codes "\n"))
        usec
      ≡ ret (
          year
          ++ (b':' ∷ decimal (m + 1))
          ++ (b':' ∷ date)
          ++ (b':' ∷ time)
          ++ (b':' ∷ decimal (usec / 1000)))
unfolding dateconv conv_fields load
dateconv-spaced a b c d m usec day date time year hm hd ha ht hy =
    let month = get_or mname m [] in
    let ps = (a, day) ∷ (b, month) ∷ (c, date) ∷ (d, time) ∷ [] in
    let fields =
      words-spaced (suc (length (spaced ps (year ++ codes "\n")))) ps year
        (hd, (month-IsWord m hm, (ha, (ht, tt)))) hy
        (omega (arith, spaced_long ps (year ++ codes "\n"))) in
    rw (dateconv, fields, conv_fields, month_number m hm) refl
