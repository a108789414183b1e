-- ===== src/Conf/Template.antt =====
-- What matchedcopy accepts and writes: formats are templates of characters and group numbers.
use jit_dt.Common.{
  ℕ, ◌+◌, ◌-◌, ◌≤◌, ◌<◌, ◌≡◌, ◌≢◌, refl, ap, true, false, ◌||◌, List, [], ◌∷◌, ◌++◌, none, Bytes,
  leb, ltb, ◌==◌, length, get_or, arith, All, Bool-cases, inl, inr, ne→==,
}
use jit_dt.Common.Outcome.{ret, load-eq-get_or, >>=-eq-ret}
use jit_dt.Conf.Match.{RegMatch, nmatch, group, group_at, matchedcopy}

pub data Piece : Type 0 where
  char number : ℕ → Piece

abbrev pub IsPiece : Piece → Type 0
IsPiece (char c) = c ≢ b'$'
IsPiece (number n) = n < nmatch

-- a template as a format string, and what it stands for
abbrev pub render : List Piece → Bytes
render [] = []
render (char c ∷ ps) = c ∷ render ps
render (number n ∷ ps) = b'$' ∷ (b'0' + n) ∷ render ps

abbrev pub expand : Bytes → List RegMatch → List Piece → Bytes
expand pattern pmatch [] = []
expand pattern pmatch (char c ∷ ps) = c ∷ expand pattern pmatch ps
expand pattern pmatch (number n ∷ ps) =
    group pattern (get_or pmatch n none) ++ expand pattern pmatch ps

group_at-number :
    (pmatch : List RegMatch) (pattern : Bytes) (n : ℕ)
    → length pmatch ≡ nmatch
    → n < nmatch
    → group_at pmatch pattern (b'0' + n) ≡ ret (group pattern (get_or pmatch n none))
unfolding group_at
group_at-number pmatch pattern n hl hn =
    let inside : (ltb (b'0' + n) b'0' || leb (b'0' + nmatch) (b'0' + n)) ≡ false = ground arith in
    let place : b'0' + n - b'0' ≡ n = omega arith in
    rw (inside, place, load-eq-get_or pmatch n none (omega arith))

matchedcopy-char :
    (c : ℕ) (r pattern : Bytes) (pmatch : List RegMatch) (t : Bytes)
    → c ≢ b'$'
    → matchedcopy r pattern pmatch ≡ ret t
    → matchedcopy (c ∷ r) pattern pmatch ≡ ret (c ∷ t)
unfolding matchedcopy
matchedcopy-char c [] pattern pmatch t hc e = rw (ne→== c b'$' hc) (ground arith)
matchedcopy-char c (d ∷ r) pattern pmatch t hc e = rw (ne→== c b'$' hc, e)

pub matchedcopy-render :
    (ps : List Piece) (pattern : Bytes) (pmatch : List RegMatch)
    → length pmatch ≡ nmatch
    → All IsPiece ps
    → matchedcopy (render ps) pattern pmatch ≡ ret (expand pattern pmatch ps)
unfolding matchedcopy
matchedcopy-render [] pattern pmatch hl h = refl
matchedcopy-render (char c ∷ ps) pattern pmatch hl h =
    matchedcopy-char c (render ps) pattern pmatch _ h.0
      (matchedcopy-render ps pattern pmatch hl h.1)
matchedcopy-render (number n ∷ ps) pattern pmatch hl h =
    rw (group_at-number pmatch pattern n hl h.0, matchedcopy-render ps pattern pmatch hl h.1)

group_at_inside :
    (pmatch : List RegMatch) (pattern : Bytes) (d : ℕ) {g : Bytes}
    → group_at pmatch pattern d ≡ ret g
    → (d - b'0' < nmatch) × (b'0' ≤ d)
unfolding group_at
group_at_inside pmatch pattern d e = elim (Bool-cases (ltb d b'0' || leb (b'0' + nmatch) d)) [
  | inl h ↦ cc (rw h at e)
  | inr h ↦ ground arith
]

dollar :
    (c d : ℕ)
    → (c == b'$') ≡ true
    → b'0' ≤ d
    → (r t : Bytes) → r ≡ t
    → ◌≡◌ {A = Bytes} (c ∷ d ∷ r) (b'$' ∷ (b'0' + (d - b'0')) ∷ t)
dollar c d h l r t e = ground arith

-- Any format on which matchedcopy stays inside its array is such a template: characters other than
-- `$` and group numbers below 10.
pub matchedcopy-total :
    (fmt pattern : Bytes) (pmatch : List RegMatch) {t : Bytes}
    → matchedcopy fmt pattern pmatch ≡ ret t
    → (ps : List Piece) × (fmt ≡ render ps) × All IsPiece ps
unfolding matchedcopy
matchedcopy-total [] pattern pmatch e = ([], refl, tt)
matchedcopy-total (c ∷ []) pattern pmatch e = elim (Bool-cases (c == b'$')) [
  | inl h ↦ absurd (omega (arith, (group_at_inside pmatch pattern 0 (rw h at e)).1))
  | inr h ↦ (char c ∷ [], refl, (ground arith, tt))
]
matchedcopy-total (c ∷ d ∷ r) pattern pmatch e = elim (Bool-cases (c == b'$')) [
  | inl h ↦
      let (g, eg, e') = >>=-eq-ret (group_at pmatch pattern d) _ (rw h at e) in
      let (t, et, _) = >>=-eq-ret (matchedcopy r pattern pmatch) _ e' in
      let (ps, er, all) = matchedcopy-total r pattern pmatch et in
      let inside = group_at_inside pmatch pattern d eg in
      (number (d - b'0') ∷ ps, dollar c d h inside.1 r (render ps) er, (inside.0, all))
  | inr h ↦
      let (t, et, _) = >>=-eq-ret (matchedcopy (d ∷ r) pattern pmatch) _ (rw h at e) in
      let (ps, er, all) = matchedcopy-total (d ∷ r) pattern pmatch et in
      (char c ∷ ps, ap (◌∷◌ c) er, (ground arith, all))
]
