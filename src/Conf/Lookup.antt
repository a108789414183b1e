-- ===== src/Conf/Lookup.antt =====
-- sync_entry: the place of a type; and the table of regions that regex_match walks.
use jit_dt.Common.{
  ℕ, zero, suc, ◌+◌, ◌-◌, ◌≤◌, ◌<◌, ◌≡◌, ◌≢◌, ◌↔◌, refl, ap, true, List, [], ◌∷◌, Option, none,
  some, Bytes, length, get_or, set, subst, take, arith, All, Bool-cases, ◌⊎◌, inl, inr, str_eq,
  str_eq_iff,
}
use jit_dt.Common.Outcome.{Outcome, ret, fault}
use jit_dt.Conf.Match.{
  RegMatch, Exec, matched, no_match, negative, find_conf, sync_entry, sync_entry_from,
}
use jit_dt.Conf.Lexer.{Token, str_len}
use jit_dt.Conf.Reader.{
  Conf, Reader, ok, err, format_error, empty_conf, max_conf, next, is_equ, is_str, parse_keystring,
  readconf,
}
use jit_dt.Conf.Bounds.{Ends}
use jit_dt.Conf.Total.{readconf-Ends}

abbrev pub FirstAt : Bytes → List Bytes → Option ℕ → Type 0
FirstAt t types none = All (λ x. x ≢ t) types
FirstAt t types (some i) =
    (i < length types) × (get_or types i [] ≡ t) × All (λ x. x ≢ t) (take i types)

abbrev FromFirst : ℕ → Bytes → List Bytes → Option ℕ → Type 0
FromFirst i t types none = All (λ x. x ≢ t) types
FromFirst i t types (some j) =
    (i ≤ j)
    × (j - i < length types)
    × (get_or types (j - i) [] ≡ t)
    × All (λ x. x ≢ t) (take (j - i) types)

FromFirst-cons :
    (i : ℕ) (t x : Bytes) (types : List Bytes) (o : Option ℕ)
    → x ≢ t
    → FromFirst (i + 1) t types o
    → FromFirst i t (x ∷ types) o
FromFirst-cons i t x types none ne h = (ne, h)
FromFirst-cons i t x types (some j) ne (l, lt, e, all) =
    let shift : j - i ≡ suc (j - (i + 1)) = omega arith in
    rw shift (omega arith, omega arith, e, (ne, all))

sync_entry_from-FromFirst :
    (i : ℕ) (types : List Bytes) (t : Bytes) → FromFirst i t types (sync_entry_from i types t)
unfolding sync_entry_from
sync_entry_from-FromFirst i [] t = tt
sync_entry_from-FromFirst i (x ∷ xs) t = elim (Bool-cases (str_eq x t)) [
  | inl h ↦
      let here : i - i ≡ 0 = omega arith in
      rw (h, here) (omega arith, omega arith, (str_eq_iff x t).0 h, tt)
  | inr h ↦ rw h (
      FromFirst-cons i t x xs _ (λ e. cc (h, (str_eq_iff x t).1 e))
        (sync_entry_from-FromFirst (i + 1) xs t))
]

of_FromFirst :
    (t : Bytes) (types : List Bytes) (o : Option ℕ) → FromFirst 0 t types o → FirstAt t types o
of_FromFirst t types none h = h
of_FromFirst t types (some j) (l, lt, e, all) =
    let same : j - 0 ≡ j = omega arith in (rw same at lt, rw same at e, rw same at all)

-- sync_entry gives the first place of a type among those of the configuration, or -1 when it is not
-- among them.
pub sync_entry-FirstAt : (types : List Bytes) (t : Bytes) → FirstAt t types (sync_entry types t)
unfolding sync_entry
sync_entry-FirstAt types t = of_FromFirst t types _ (sync_entry_from-FromFirst 0 types t)

exec-ne-fault :
    (x : Exec) (c : Conf) {rest : Outcome (Option (Conf × List RegMatch))}
    → rest ≢ fault
    → ◌≢◌ {A = Outcome (Option (Conf × List RegMatch))}
        (elim x [ matched pmatch ↦ ret (some (c, pmatch)) | no_match ↦ rest | negative ↦ ret none ])
        fault
exec-ne-fault (matched pmatch) c ne = λ f. cc
exec-ne-fault no_match c ne = ne
exec-ne-fault negative c ne = λ f. cc

find_conf-next :
    (regexec : Bytes → Bytes → Exec) (c : Conf) (cs : List Conf) (pattern : Bytes)
    → find_conf regexec cs pattern ≢ fault
    → find_conf regexec (c ∷ cs) pattern ≢ fault
unfolding find_conf
find_conf-next regexec c cs pattern ne = elim (Bool-cases (str_eq c.c_area [])) [
  | inl a ↦ λ f. cc (rw a at f)
  | inr a ↦ λ f. exec-ne-fault (regexec c.c_pattern pattern) c ne (rw a at f)
]

-- The walk of regex_match ends inside every table whose last entry is empty.
find_conf-ne-fault :
    (regexec : Bytes → Bytes → Exec) (conf : List Conf) (pattern : Bytes) (n : ℕ)
    → length conf ≡ suc n
    → get_or conf n empty_conf ≡ empty_conf
    → find_conf regexec conf pattern ≢ fault
unfolding find_conf
find_conf-ne-fault regexec [] pattern n h e = absurd (omega arith)
find_conf-ne-fault regexec (c ∷ cs) pattern zero h e =
    let empty : str_eq c.c_area [] ≡ true = (rw e ((str_eq_iff [] []).1 refl)) in
    λ f. cc (rw empty at f)
find_conf-ne-fault regexec (c ∷ cs) pattern (suc n) h e =
    find_conf-next regexec c cs pattern (find_conf-ne-fault regexec cs pattern n (omega arith) e)

-- On the table that readconf fills, the walk of regex_match over the regions ends inside the table.
pub readconf-find_conf :
    (regexec : Bytes → Bytes → Exec) (junk text pattern : Bytes) {s : Reader}
    → length junk < str_len
    → readconf junk text ≡ ok s
    → find_conf regexec s.conf pattern ≢ fault
readconf-find_conf regexec junk text pattern {s} h e =
    let b = (subst (Ends max_conf (length text)) e (readconf-Ends junk text h)).0 in
    find_conf-ne-fault regexec s.conf pattern max_conf b.table b.last_empty

is_equ_iff : (t : Token) → (is_equ t ≡ true) ↔ (t ≡ Token.equ)
is_equ_iff Token.equ = (λ _. refl, λ _. refl)
is_equ_iff t = (λ e. cc, λ e. ap is_equ e)

is_str_iff : (t : Token) → (is_str t ≡ true) ↔ (t ≡ Token.str)
is_str_iff Token.str = (λ _. refl, λ _. refl)
is_str_iff t = (λ e. cc, λ e. ap is_str e)

-- PARSE_KEYSTRING refuses a string only if the token before it is no `=` and it is no string; with
-- either of the two it stores the string buffer in the field.
pub parse_keystring_lem :
    (put : Conf → Bytes → Conf) (s : Reader)
    → let (tkn, s1) = next s in
      let (ntkn, s2) = next s1 in
      ((parse_keystring put s ≡ err format_error s2.line) × (tkn ≢ Token.equ) × (ntkn ≢ Token.str))
      ⊎ (((tkn ≡ Token.equ) ⊎ (ntkn ≡ Token.str))
          × (parse_keystring put s
              ≡ ok (record s2 {
                conf = set s2.conf s2.cent (put (get_or s2.conf s2.cent empty_conf) s2.buf);
              })))
unfolding parse_keystring
parse_keystring_lem put s =
    let tkn = (next s).0 in
    let s1 = (next s).1 in
    let ntkn = (next s1).0 in
    elim (Bool-cases (is_equ tkn)) [
      | inl a ↦ inr (inl ((is_equ_iff tkn).0 a), rw a refl)
      | inr a ↦ elim (Bool-cases (is_str ntkn)) [
        | inl b ↦ inr (inr ((is_str_iff ntkn).0 b), rw (a, b) refl)
        | inr b ↦
            inl (
              rw (a, b) refl,
              λ e. cc (a, (is_equ_iff tkn).1 e),
              λ e. cc (b, (is_str_iff ntkn).1 e),
            )
      ]
    ]
