-- ===== src/Client/Names.antt =====
-- septype reads back the line of names that kwatcher writes into the lock file.
use jit_dt.Common.{
  ℕ, zero, suc, ◌≡◌, ◌≢◌, refl, ap, List, [], ◌∷◌, ◌++◌, Option, none, some, Bytes, codes, All,
  ne→==,
}
use jit_dt.Client.{split, separate, septype, ftype_num}
use jit_dt.Kwatch.Transfer.{line}

-- a name without a separator
abbrev pub IsName : Bytes → Type 0
IsName x = All (λ c. c ≢ b';') x

-- the entries of `files` for `k` places: the names, and the null pointer behind fewer than `k`
abbrev pub slots : ℕ → List Bytes → List (Option Bytes)
slots zero xs = []
slots (suc k) [] = none ∷ []
slots (suc k) (x ∷ xs) = some x ∷ slots k xs

split-name : (x r : Bytes) → IsName x → split (x ++ codes ";" ++ r) ≡ some (x, r)
unfolding split
split-name [] r h = refl
split-name (c ∷ x) r h = rw (ne→== c b';' h.0, split-name x r h.1) refl

split_nil : split [] ≡ none
unfolding split
split_nil = refl

separate-line : (k : ℕ) (xs : List Bytes) → All IsName xs → separate k (line xs) ≡ slots k xs
unfolding separate
separate-line zero xs h = refl
separate-line (suc k) [] h = rw (separate, split_nil) refl
separate-line (suc k) (x ∷ xs) h =
    rw (separate, split-name x (line xs) h.0) (ap (◌∷◌ (some x)) (separate-line k xs h.1))

-- For names without a `;`, septype takes the line of them, a separator behind each, apart into the
-- first 3 names, with a null pointer behind fewer.
pub septype-line : (xs : List Bytes) → All IsName xs → septype (line xs) ≡ slots ftype_num xs
unfolding septype
septype-line xs h = separate-line ftype_num xs h
