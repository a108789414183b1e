-- ===== src/LockFile/Strings.antt =====
-- A string that is written with its null byte is the string that is read.
use jit_dt.Common.{
  ℕ, zero, suc, ◌≤◌, ◌<◌, ◌≡◌, ◌≢◌, refl, sym, subst, ap, ◌∙◌, [], ◌∷◌, ◌++◌, Option, none, some,
  Bytes, length, take, drop, set, All, arith, ne→==, length-append,
}
use jit_dt.Common.Arrays.{append_assoc}
use jit_dt.LockFile.{
  path_max, c_str, write_at, locked_write, locked_unlock_nullify, cut_line, locked_read,
  starts_null, lock_content,
}

-- a line of text: no null byte, no end of a line
abbrev pub IsText : Bytes → Type 0
IsText s = All (λ c. (c ≢ 0) × (c ≢ b'\n')) s

-- The buffer starts with the string and its null byte.
abbrev pub Holds : Bytes → Bytes → Type 0
Holds s buf = (rest : Bytes) × (buf ≡ s ++ (0 ∷ rest))

c_str-Holds : (s rest : Bytes) → IsText s → c_str (s ++ (0 ∷ rest)) ≡ s
unfolding c_str
c_str-Holds [] rest h = refl
c_str-Holds (c ∷ s) rest h = rw (c_str, ne→== c 0 h.0.0, c_str-Holds s rest h.1) refl

cut_line-text : (s rest : Bytes) → IsText s → cut_line (s ++ (0 ∷ rest)) ≡ s ++ (0 ∷ rest)
unfolding cut_line
cut_line-text [] rest h = refl
cut_line-text (c ∷ s) rest h =
    rw (cut_line, ne→== c 0 h.0.0, ne→== c b'\n' h.0.1, cut_line-text s rest h.1) refl

-- A null byte that is set behind the string changes nothing of it.
set-Holds :
    (s rest : Bytes) (i : ℕ)
    → length s ≤ i
    → (rest' : Bytes) × (set (s ++ (0 ∷ rest)) i 0 ≡ s ++ (0 ∷ rest'))
set-Holds [] rest zero h = (rest, refl)
set-Holds [] rest (suc i) h = (set rest i 0, refl)
set-Holds (c ∷ s) rest zero h = absurd (omega arith)
set-Holds (c ∷ s) rest (suc i) h =
    let (r, e) = set-Holds s rest i (omega arith) in (r, ap (◌∷◌ c) e)

written-Holds : (file s : Bytes) → (rest : Bytes) × (locked_write file s ≡ s ++ (0 ∷ rest))
unfolding locked_write write_at
written-Holds file s = (_, append_assoc s (0 ∷ []) _)

take-Holds :
    (s rest : Bytes) (size : ℕ)
    → length s < size
    → (r : Bytes) × (take size (s ++ (0 ∷ rest)) ≡ s ++ (0 ∷ r))
take-Holds s rest zero h = absurd (omega arith)
take-Holds [] rest (suc n) h = (take n rest, refl)
take-Holds (c ∷ s) rest (suc n) h =
    let (r, e) = take-Holds s rest n (omega arith) in (r, ap (◌∷◌ c) e)

length-Holds : (s r : Bytes) → length s ≤ length (s ++ (0 ∷ r))
length-Holds s r = omega (arith, length-append s (0 ∷ r))

-- What is read of a file that holds the string, if the buffer has room for it.
read-Holds :
    (s rest buf : Bytes) (size : ℕ)
    → IsText s
    → length s < size
    → let x = locked_read (s ++ (0 ∷ rest)) buf size in (length s ≤ x.0) × Holds s x.1
unfolding locked_read
read-Holds s rest buf size h hs =
    let (r, e) = take-Holds s rest size hs in
    let d = drop (length (s ++ (0 ∷ r))) buf in
    rw e (
      length-Holds s r,
      (r ++ d, ap cut_line (append_assoc s (0 ∷ r) d) ∙ cut_line-text s (r ++ d) h),
    )

starts_text : (c : ℕ) (r : Bytes) (s : Option Bytes) → c ≢ 0 → starts_null (c ∷ r) s ≡ s
starts_text zero r s h = absurd (h refl)
starts_text (suc c) r s h = refl

-- A lock file that starts with the string and its null byte gives the string.
lock_content-Holds :
    (c : ℕ) (s rest fpath : Bytes)
    → IsText (c ∷ s)
    → length (c ∷ s) < path_max
    → lock_content ((c ∷ s) ++ (0 ∷ rest)) fpath ≡ some (c ∷ s)
unfolding lock_content
lock_content-Holds c s rest fpath h hl =
    let (sz, held) = read-Holds (c ∷ s) rest fpath path_max h hl in
    let (r, e) = held in
    let x = locked_read ((c ∷ s) ++ (0 ∷ rest)) fpath path_max in
    let (r', e') = set-Holds (c ∷ s) r x.0 sz in
    ap (λ b. starts_null b (some (c_str (set b x.0 0)))) e
    ∙ starts_text c (s ++ (0 ∷ r)) (some (c_str (set ((c ∷ s) ++ (0 ∷ r)) x.0 0))) h.0.0
    ∙ ap some (ap c_str e' ∙ c_str-Holds (c ∷ s) r' h)

pub lock_content-locked_write :
    (file s fpath : Bytes)
    → 0 < length s
    → IsText s
    → length s < path_max
    → lock_content (locked_write file s) fpath ≡ some s
lock_content-locked_write file [] fpath hp h hl = absurd (omega arith)
lock_content-locked_write file (c ∷ s) fpath hp h hl =
    let (r, e) = written-Holds file (c ∷ s) in
    ap (λ f. lock_content f fpath) e ∙ lock_content-Holds c s r fpath h hl

pub lock_content-nullify :
    (file fpath : Bytes) → lock_content (locked_unlock_nullify file) fpath ≡ none
unfolding lock_content locked_unlock_nullify locked_read write_at cut_line
lock_content-nullify file fpath = refl

-- What is read of a lock file with such a string: the number of bytes, the buffer before and behind
-- the null byte that is set at the end of them.
pub locked_read-locked_write :
    (c : ℕ) (s file fpath : Bytes)
    → IsText (c ∷ s)
    → length (c ∷ s) < path_max
    → let x = locked_read (locked_write file (c ∷ s)) fpath path_max in
      (0 < x.0) × Holds (c ∷ s) x.1 × (c_str (set x.1 x.0 0) ≡ c ∷ s)
locked_read-locked_write c s file fpath h hl =
    let (rest, w) = written-Holds file (c ∷ s) in
    let x = locked_read ((c ∷ s) ++ (0 ∷ rest)) fpath path_max in
    let (sz, held) = read-Holds (c ∷ s) rest fpath path_max h hl in
    let (r, e) = held in
    let (r', e') = set-Holds (c ∷ s) r x.0 sz in
    subst
      (λ f.
        let x = locked_read f fpath path_max in
        (0 < x.0) × Holds (c ∷ s) x.1 × (c_str (set x.1 x.0 0) ≡ c ∷ s))
      (sym w)
      (
        omega (arith, sz),
        held,
        ap (λ b. c_str (set b x.0 0)) e ∙ ap c_str e' ∙ c_str-Holds (c ∷ s) r' h,
      )
