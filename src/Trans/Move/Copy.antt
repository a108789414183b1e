-- ===== src/Trans/Move/Copy.antt =====
-- locked_move: the loop copies the whole file, or an answer of the disk is the cause that it does not.
use jit_dt.Common.{
  ℕ, zero, suc, ◌+◌, ◌<◌, ◌≡◌, ◌≢◌, refl, sym, ap, subst, ◌∙◌, ◌⊎◌, inl, inr, Bool, true, false, [],
  ◌∷◌, ◌++◌, Option, none, some, Bytes, str_eq, str_eq_iff, ==_refl, ne→==, length, take, drop, min,
  leb, arith, Bool-cases, Option-cases, length-append,
}
use jit_dt.Common.Arrays.{append_nil, append_assoc, take-all, drop-all, take-drop, drop-front}
use jit_dt.LockFile.{write_at}
use jit_dt.Trans.Move.{
  Files, content, written, unlinked, Disk, bsize, wrote, write_piece, copy_piece, copy,
}

str_eq_self : (p : Bytes) → str_eq p p ≡ true
str_eq_self p = (str_eq_iff p p).1 refl

str_eq-ne : (q p : Bytes) → q ≢ p → str_eq q p ≡ false
str_eq-ne q p ne = elim (Bool-cases (str_eq q p)) [
  | inl e ↦ absurd (ne ((str_eq_iff q p).0 e))
  | inr e ↦ e
]

pub written_self : (fs : Files) (p c : Bytes) → written fs p c p ≡ some c
written_self fs p c = rw (str_eq_self p) refl

pub written_ne : (fs : Files) (p c q : Bytes) → q ≢ p → written fs p c q ≡ fs q
written_ne fs p c q ne = rw (str_eq-ne q p ne) refl

pub unlinked_self : (fs : Files) (p : Bytes) → unlinked fs p p ≡ none
unlinked_self fs p = rw (str_eq_self p) refl

pub unlinked_ne : (fs : Files) (p q : Bytes) → q ≢ p → unlinked fs p q ≡ fs q
unlinked_ne fs p q ne = rw (str_eq-ne q p ne) refl

pub content-some : (fs : Files) (p c : Bytes) → fs p ≡ some c → content fs p ≡ c
content-some fs p c e = rw (content, e) refl

write_at_end : (d bs : Bytes) (off : ℕ) → off ≡ length d → write_at d off bs ≡ d ++ bs
unfolding write_at
write_at_end d bs off e =
    let t = take-all d off (omega arith) in
    let r = drop-all d (off + length bs) (omega arith) in rw (write_at, t, r, append_nil bs) refl

-- A read fails, or a write fails or is short.
abbrev pub Failing : Disk → Type 0
Failing disk =
    (off : ℕ) × ((disk.read off ≡ none)
      ⊎ ((n : ℕ) × ((disk.write off n ≡ none)
            ⊎ ((w : ℕ) × ((disk.write off n ≡ some w) × (w < n))))))

-- `d` of the source is copied.
pub record Copying (fs0 : Files) (to d : Bytes) (fs : Files) : Type 0 where
  pub target : fs to ≡ some d
  pub others : (q : Bytes) → q ≢ to → fs q ≡ fs0 q

abbrev pub Whole : Disk → Bytes → Bytes → Bool × Files → Type 0
Whole disk to src (true, fs) = fs to ≡ some src
Whole disk to src (false, fs) = Failing disk

pub record Copied (disk : Disk) (fs0 : Files) (to src : Bytes) (x : Option (Bool × Files))
    : Type 0 where
  pub result : Bool × Files
  pub returned : x ≡ some result
  pub whole : Whole disk to src result
  pub others : (q : Bytes) → q ≢ to → result.1 q ≡ fs0 q

wrote-Copying :
    (fs0 fs : Files) (to d piece : Bytes) (off : ℕ)
    → Copying fs0 to d fs
    → off ≡ length d
    → Copying fs0 to (d ++ piece) (written fs to (write_at (content fs to) off piece))
wrote-Copying fs0 fs to d piece off c e = record {
  target =
      written_self fs to _
      ∙ ap some (
          ap (λ x. write_at x off piece) (content-some fs to d c.target)
          ∙ write_at_end d piece off e);
  others = λ q ne. written_ne fs to _ q ne ∙ c.others q ne;
}

stopped-Copied :
    (disk : Disk) (fs0 fs : Files) (to d src : Bytes)
    → Copying fs0 to d fs
    → Failing disk
    → Copied disk fs0 to src (some (false, fs))
stopped-Copied disk fs0 fs to d src c f = record {
  result = (false, fs);
  returned = refl;
  whole = f;
  others = c.others;
}

wrote-Copied :
    (more : ℕ → Files → Option (Bool × Files)) (disk : Disk) (fs0 fs : Files)
    (to d src piece : Bytes) (off : ℕ)
    → Copying fs0 to d fs
    → off ≡ length d
    → ((fs' : Files)
        → Copying fs0 to (d ++ piece) fs'
        → Copied disk fs0 to src (more (off + length piece) fs'))
    → Copied disk fs0 to src (wrote more to off fs piece (length piece))
unfolding wrote
wrote-Copied more disk fs0 fs to d src piece off c e k =
    let all = take-all piece (length piece) (omega arith) in
    rw (wrote, ==_refl (length piece), all) (k _ (wrote-Copying fs0 fs to d piece off c e))

wrote_less-Copied :
    (more : ℕ → Files → Option (Bool × Files)) (disk : Disk) (fs0 fs : Files)
    (to d src piece : Bytes) (off szw : ℕ)
    → Copying fs0 to d fs
    → off ≡ length d
    → szw ≢ length piece
    → Failing disk
    → Copied disk fs0 to src (wrote more to off fs piece szw)
unfolding wrote
wrote_less-Copied more disk fs0 fs to d src piece off szw c e ne f =
    rw (wrote, ne→== szw (length piece) ne)
      (stopped-Copied disk fs0 _ to (d ++ take szw piece) src
        (wrote-Copying fs0 fs to d (take szw piece) off c e) f)

write_piece-Copied :
    (more : ℕ → Files → Option (Bool × Files)) (disk : Disk) (fs0 fs : Files)
    (to d src piece : Bytes) (off : ℕ)
    → Copying fs0 to d fs
    → off ≡ length d
    → ((fs' : Files)
        → Copying fs0 to (d ++ piece) fs'
        → Copied disk fs0 to src (more (off + length piece) fs'))
    → Copied disk fs0 to src (write_piece more disk to off fs piece)
unfolding write_piece
write_piece-Copied more disk fs0 fs to d src piece off c e k =
    let n = length piece in
    elim (Option-cases (disk.write off n)) [
      | inl f ↦ rw (write_piece, f) (stopped-Copied disk fs0 fs to d src c (off, inr (n, inl f)))
      | inr (w, f) ↦ elim (Bool-cases (leb n w)) [
        | inl g ↦
            let full : min w n ≡ n = ground arith in
            rw (write_piece, f, full) (wrote-Copied more disk fs0 fs to d src piece off c e k)
        | inr g ↦
            let less : w < n = ground arith in
            rw (write_piece, f)
              (wrote_less-Copied more disk fs0 fs to d src piece off (min w n) c e (omega arith)
                (off, inr (n, inr (w, (f, less)))))
      ]
    ]

piece-Copied :
    (more : ℕ → Files → Option (Bool × Files)) (disk : Disk) (fs0 fs : Files)
    (to d src rest : Bytes) (off m : ℕ)
    → 0 < m
    → src ≡ d ++ rest
    → Copying fs0 to d fs
    → off ≡ length d
    → ((piece rest' : Bytes) (fs' : Files)
        → 0 < length piece
        → piece ++ rest' ≡ rest
        → Copying fs0 to (d ++ piece) fs'
        → Copied disk fs0 to src (more (off + length piece) fs'))
    → Copied disk fs0 to src (copy_piece more disk to off fs (take m rest))
piece-Copied more disk fs0 fs to d src rest off zero h s c e k = absurd (omega arith)
piece-Copied more disk fs0 fs to d src [] off (suc m) h s c e k = record {
  result = (true, fs);
  returned = refl;
  whole = c.target ∙ ap some (sym (s ∙ append_nil d));
  others = c.others;
}
piece-Copied more disk fs0 fs to d src (b ∷ rest) off (suc m) h s c e k =
    write_piece-Copied more disk fs0 fs to d src (b ∷ take m rest) off c e (λ fs' c'.
      k (b ∷ take m rest) (drop m rest) fs' (omega arith) (ap (◌∷◌ b) (take-drop m rest)) c')

-- The loop with enough fuel, for a file that is not the one it writes.
pub copy-Copied :
    (n : ℕ) (disk : Disk) (fs0 fs : Files) (from to d src rest : Bytes) (off : ℕ)
    → from ≢ to
    → fs0 from ≡ some src
    → length rest < n
    → src ≡ d ++ rest
    → Copying fs0 to d fs
    → off ≡ length d
    → Copied disk fs0 to src (copy n disk from to off fs)
unfolding copy
copy-Copied zero disk fs0 fs from to d src rest off ne has h s c e = absurd (omega arith)
copy-Copied (suc n) disk fs0 fs from to d src rest off ne has h s c e =
    let left : drop off (content fs from) ≡ rest =
      ap (drop off) (content-some fs from src (c.others from ne ∙ has) ∙ s)
      ∙ drop-front d rest off (sym e) in
    elim (Option-cases (disk.read off)) [
      | inl f ↦ rw (copy, f) (stopped-Copied disk fs0 fs to d src c (off, inl f))
      | inr (k, f) ↦
          let m = min (suc k) bsize in
          rw (copy, f)
            (subst
              (λ r.
                Copied disk fs0 to src (copy_piece (copy n disk from to) disk to off fs (take m r)))
              (sym left)
              (piece-Copied (copy n disk from to) disk fs0 fs to d src rest off m (omega arith) s c
                e
                (λ piece rest' fs' hp joined c'.
                  copy-Copied n disk fs0 fs' from to (d ++ piece) src rest' (off + length piece) ne
                    has (omega (arith, ap length joined, length-append piece rest'))
                    (s ∙ ap (λ r. d ++ r) (sym joined) ∙ sym (append_assoc d piece rest')) c'
                    (omega (arith, length-append d piece)))))
    ]
