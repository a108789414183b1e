-- ===== src/Dates/Conv.antt =====
-- src/misclib.c: dateconv and conv_month, which put the text of ctime_r in another order. That text
-- is the argument, without its null byte: a text with null bytes inside is not modelled.
pub mod Words
mod Tests
use jit_dt.Common.{
  ℕ, zero, suc, ◌+◌, ◌/◌, Bool, List, [], ◌∷◌, ◌++◌, Option, none, some, Bytes, codes, str_eq, ltb,
  ◌==◌, if◌then◌else◌, length,
}
use jit_dt.Common.Outcome.{Outcome, ret, fault, ◌>>=◌, load}
use jit_dt.LockFile.{c_str, cut_line}
use jit_dt.Dates.{decimal, skip_blanks}

-- `mname`
abbrev pub mname : List Bytes
mname =
    codes "Jan"
    ∷ codes "Feb"
    ∷ codes "Mar"
    ∷ codes "Apr"
    ∷ codes "May"
    ∷ codes "Jun"
    ∷ codes "Jul"
    ∷ codes "Aug"
    ∷ codes "Sep"
    ∷ codes "Oct"
    ∷ codes "Nov"
    ∷ codes "Dec"
    ∷ []

-- the loop of `conv_month` over the names from number `i`
unfoldable pub find_month : List Bytes → ℕ → Bytes → ℕ
find_month [] i month = 0
find_month (x ∷ xs) i month =
    let rest = find_month xs (i + 1) month in if str_eq x month then i + 1 else rest

unfoldable pub conv_month : Bytes → ℕ
conv_month month = find_month mname 0 month

-- `index(s, ' ')`: the bytes before the blank and behind it
unfoldable pub split_blank : Bytes → Option (Bytes × Bytes)
split_blank [] = none
split_blank (c ∷ r) =
    let rest = split_blank r in
    if c == b' ' then some ([], r) else elim rest [ none ↦ none | some (w, t) ↦ some (c ∷ w, t) ]

-- The strings that `dp` points at. Blanks with no word behind them end in a null pointer.
unfoldable pub words : ℕ → Bytes → Outcome (List Bytes)
words zero s = fault
words (suc f) s = elim (split_blank s) [
  | none ↦ ret (c_str (cut_line s) ∷ [])
  | some _ ↦ elim (split_blank (skip_blanks s)) [
    | none ↦ fault
    | some (w, r) ↦ words f r >>= (λ ws. ret (w ∷ ws))
  ]
]

-- `sprintf` of the fields, of which `dp` has room for 10
unfoldable pub conv_fields : List Bytes → ℕ → Outcome Bytes
conv_fields dp usec =
    if ltb 10 (length dp)
    then fault
    else (load dp 4 >>= (λ year. load dp 1 >>= (λ month. load dp 2 >>= (λ date.
        load dp 3 >>= (λ time. ret (
          year
          ++ (b':' ∷ decimal (conv_month month))
          ++ (b':' ∷ date)
          ++ (b':' ∷ time)
          ++ (b':' ∷ decimal (usec / 1000))))))))

-- `dateconv`; each turn of the loop takes a byte, so the length of the text is enough fuel
unfoldable pub dateconv : Bytes → ℕ → Outcome Bytes
dateconv text usec = words (suc (length text)) text >>= (λ dp. conv_fields dp usec)
