-- ===== src/Conf/Progress.antt =====
-- Every token consumes input, leaves a string that fits its buffer, and needs only the fuel given.
use jit_dt.Common.{
  ℕ, zero, suc, ◌+◌, ◌≤◌, ◌<◌, ◌≡◌, ◌≢◌, refl, sym, ap, ◌∙◌, Bool, true, false, not, ◌&&◌, [], ◌∷◌,
  none, some, Bytes, ◌==◌, if◌then◌else◌, length, arith, Bool-cases, Option-cases, inl, inr,
}
use jit_dt.Conf.Lexer.{
  Token, Lexed, lexed, err_chr, err_len, str, str_len, eof, getc, ungetc, skip, skipblank, scan,
  key, getc_quoted, word, numeral, quote, quoted, but_last, token_at, gettoken_fuel, gettoken,
  is_word, is_digit, is_word_char, is_print,
}
use jit_dt.Conf.Reader.{is_error}
use native.Mathlib.Decide.{ℕ_discrete}

length-getc : (r : Bytes) → length (getc r).1 ≤ length r
unfolding getc
length-getc [] = omega arith
length-getc (c ∷ r) = omega arith

length-ungetc : (c : ℕ) (r : Bytes) → length r ≤ length (ungetc c r)
unfolding ungetc
length-ungetc c r = ground arith

ungetc-getc : (r : Bytes) → length (ungetc (getc r).0 (getc r).1) ≤ length r
unfolding getc ungetc
ungetc-getc [] = omega arith
ungetc-getc (c ∷ r) = ground arith

-- Blanks and comments are skipped; a character that is not EOF is consumed.
length-skip :
    (m : Bool) (r : Bytes) (l : ℕ)
    → let (c, rest, _) = skip m r l in (length rest ≤ length r) × (c ≢ eof → length rest < length r)
unfolding skip
length-skip true [] l = ground arith
length-skip false [] l = ground arith
length-skip true (c ∷ r) l = ground (arith, length-skip false r (l + 1), length-skip true r l)
length-skip false (c ∷ r) l =
    ground (arith, length-skip true r l, length-skip false r l, length-skip false r (l + 1))

-- A scan stores at most `k` characters, and gives back no more than it took.
record Scans (k ch : ℕ) (r : Bytes) (x : Bytes × ℕ × Bytes) : Type 0 where
  count : length x.0 ≤ k
  back : length (ungetc x.1 x.2) ≤ length (ungetc ch r)

scan-Scans : (p : ℕ → Bool) (k ch : ℕ) (r : Bytes) → Scans k ch r (scan p k ch r)
unfolding scan
scan-Scans p zero ch r = record { count = omega arith; back = omega arith }
scan-Scans p (suc k) ch r =
    let ih = scan-Scans p k (getc r).0 (getc r).1 in
    elim (Bool-cases (p (getc r).0)) [
      | inl t ↦ rw t (record {
        count = omega (arith, ih.count);
        back = omega (arith, ih.back, ungetc-getc r, length-ungetc ch r);
      })
      | inr t ↦
          rw t (record {
            count = omega arith;
            back = omega (arith, ungetc-getc r, length-ungetc ch r);
          })
    ]

-- With a place left, the first character is not given back.
scan-back :
    (p : ℕ → Bool) (k ch : ℕ) (r : Bytes)
    → let (_, c, rest) = scan p (suc k) ch r in length (ungetc c rest) ≤ length r
unfolding scan
scan-back p k ch r =
    let ih = scan-Scans p k (getc r).0 (getc r).1 in
    elim (Bool-cases (p (getc r).0)) [
      | inl t ↦ rw t (omega (arith, ih.back, ungetc-getc r))
      | inr t ↦ rw t (ungetc-getc r)
    ]

length-getc_quoted : (r : Bytes) → length (getc_quoted r).1 ≤ length r
unfolding getc_quoted
length-getc_quoted [] = ground arith
length-getc_quoted (c ∷ r) = ground (arith, length-getc r)

length-quote : (k : ℕ) (r : Bytes) → (length (quote k r).0 ≤ k) × (length (quote k r).1 ≤ length r)
unfolding quote
length-quote zero r = (omega arith, omega arith)
length-quote (suc k) r =
    let ih = length-quote k (getc_quoted r).1 in
    let first = length-getc_quoted r in
    let c = (getc_quoted r).0 in
    elim (Bool-cases (is_print c && not (c == b'"'))) [
      | inl t ↦ rw t (omega (arith, ih.0), omega (arith, ih.1, first))
      | inr t ↦ rw t (omega arith, first)
    ]

length-but_last : (w : Bytes) (n : ℕ) → length w ≤ suc n → length (but_last w) ≤ n
length-but_last [] n h = omega arith
length-but_last (c ∷ []) n h = omega arith
length-but_last (c ∷ d ∷ r) zero h = absurd (omega arith)
length-but_last (c ∷ d ∷ r) (suc n) h = omega (arith, length-but_last (d ∷ r) n (omega arith))

-- What a token leaves: no more input than before, and a string that fits the buffer.
pub record Fits (s r : Bytes) (x : Lexed) : Type 0 where
  pub rest_le : length x.rest ≤ length r
  pub text_lt : length s < str_len → length x.text < str_len

word_cases :
    (s r : Bytes) (l : ℕ) (w rest : Bytes)
    → length w ≤ str_len
    → length rest ≤ length r
    → Fits s r (
        if length w == str_len
        then lexed err_len s rest l
        else elim (key w) [ some k ↦ lexed k s rest l | none ↦ lexed str w rest l ])
word_cases s r l w rest hw hr = elim (Option-cases (key w)) [
  | inl e ↦ rw e (ground arith)
  | inr (k, e) ↦ rw e (ground arith)
]

word-Fits : (s : Bytes) (ch : ℕ) (r : Bytes) (l : ℕ) → Fits s r (word s ch r l)
unfolding word
word-Fits s ch r l =
    let x = scan is_word_char str_len ch r in
    word_cases s r l x.0 (ungetc x.1 x.2) (scan-Scans is_word_char str_len ch r).count
      (scan-back is_word_char 127 ch r)

numeral-Fits : (t : Token) (s : Bytes) (ch : ℕ) (r : Bytes) (l : ℕ) → Fits s r (numeral t s ch r l)
unfolding numeral
numeral-Fits t s ch r l =
    let x = scan is_digit str_len ch r in
    ground (arith, scan-back is_digit 127 ch r, length-ungetc x.1 x.2)

quoted-Fits : (s r : Bytes) (l : ℕ) → Fits s r (quoted s r l)
unfolding quoted
quoted-Fits s r l = ground (arith, length-quote str_len r, length-but_last (quote str_len r).0 127)

token_at-Fits :
    (a : Lexed) (s : Bytes) (ch : ℕ) (r : Bytes) (l : ℕ)
    → Fits s r a
    → Fits s r (token_at a s ch r l)
unfolding token_at
token_at-Fits a s ch r l h = ground (
  arith,
  word-Fits s ch r l,
  numeral-Fits Token.int s ch r l,
  numeral-Fits Token.pos s (getc r).0 (getc r).1 l,
  length-getc r,
  quoted-Fits s r l,
)

-- At the end of the input there is no token.
token_at-eof : (a : Lexed) (s r : Bytes) (l : ℕ) → token_at a s eof r l ≡ lexed err_chr s r l
unfolding token_at is_word is_digit
token_at-eof a s r l = refl

pub gettoken_fuel-Fits : (f : ℕ) (s r : Bytes) (l : ℕ) → Fits s r (gettoken_fuel f s r l)
unfolding gettoken_fuel skipblank
gettoken_fuel-Fits zero s r l = record { rest_le = omega arith; text_lt = λ h. h }
gettoken_fuel-Fits (suc f) s r l =
    let (ch, r', l') = skip false r l in
    let h = token_at-Fits (gettoken_fuel f s r' l') s ch r' l' (gettoken_fuel-Fits f s r' l') in
    record { rest_le = omega (arith, h.rest_le, (length-skip false r l).0); text_lt = h.text_lt }

gettoken_fuel-consumes :
    (f : ℕ) (s r : Bytes) (l : ℕ)
    → let x = gettoken_fuel f s r l in is_error x.token ≡ false → length x.rest < length r
unfolding gettoken_fuel skipblank
gettoken_fuel-consumes zero s r l h = cc
gettoken_fuel-consumes (suc f) s r l h =
    let (ch, r', l') = skip false r l in
    let a = gettoken_fuel f s r' l' in
    elim (ℕ_discrete ch eof) [
      | yes e ↦ cc (
        ap (λ c. is_error (token_at a s c r' l').token) (sym e) ∙ h,
        ap (λ x. is_error x.token) (token_at-eof a s r' l'),
      )
      | no e ↦ omega (
        arith,
        (token_at-Fits a s ch r' l' (gettoken_fuel-Fits f s r' l')).rest_le,
        (length-skip false r l).1 e,
      )
    ]

-- A retry matters only behind a semicolon.
token_at-again :
    (a b : Lexed) (s : Bytes) (ch : ℕ) (r : Bytes) (l : ℕ)
    → (ch ≢ eof → a ≡ b)
    → token_at a s ch r l ≡ token_at b s ch r l
token_at-again a b s ch r l h = elim (ℕ_discrete ch eof) [
  | yes e ↦ rw e (token_at-eof a s r l ∙ sym (token_at-eof b s r l))
  | no e ↦ ap (λ x. token_at x s ch r l) (h e)
]

gettoken_fuel-enough :
    (f g : ℕ) (s r : Bytes) (l : ℕ)
    → length r < f
    → length r < g
    → gettoken_fuel f s r l ≡ gettoken_fuel g s r l
unfolding gettoken_fuel skipblank
gettoken_fuel-enough zero g s r l hf hg = absurd (omega arith)
gettoken_fuel-enough (suc f) zero s r l hf hg = absurd (omega arith)
gettoken_fuel-enough (suc f) (suc g) s r l hf hg =
    let (ch, r', l') = skip false r l in
    token_at-again _ _ s ch r' l' λ e.
      let q = (length-skip false r l).1 e in
      gettoken_fuel-enough f g s r' l' (omega arith) (omega arith)

-- From a string buffer that is not overrun, gettoken leaves one that is not, never gives input
-- back, consumes some with every token that is no error, and has all the fuel that its retries can
-- use.
pub gettoken_lem :
    (s r : Bytes) (l : ℕ)
    → length s < str_len
    → let x = gettoken s r l in
      (length x.text < str_len)
      × (length x.rest ≤ length r)
      × (is_error x.token ≡ false → length x.rest < length r)
      × ((f : ℕ) → length r < f → gettoken_fuel f s r l ≡ x)
unfolding gettoken
gettoken_lem s r l h =
    let f = suc (length r) in
    let x = gettoken_fuel-Fits f s r l in
    (
      x.text_lt h,
      x.rest_le,
      gettoken_fuel-consumes f s r l,
      λ g hg. gettoken_fuel-enough g f s r l hg (omega arith),
    )
