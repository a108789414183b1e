-- ===== src/Kwatch/Transfer.antt =====
-- What transfer writes into the lock file: the names of a complete entry.
use jit_dt.Common.{
  ℕ, zero, suc, ◌≤◌, ◌<◌, ◌≡◌, refl, sym, ap, ◌∙◌, true, List, [], ◌∷◌, ◌++◌, Option, none, some,
  Bytes, codes, length, get_or, arith, ◌⊎◌, inl, inr, Option-cases,
}
use jit_dt.Common.Outcome.{Outcome, ret, ◌>>=◌}
use jit_dt.Hist.{fname_max}
use jit_dt.Kwatch.{
  Kwatch, Made, all_filled, place, LockEvent, lock_write, unlock, lock, joined, Transferred,
  transfer_made,
}
use jit_dt.Kwatch.Place.{IsValid, IsComplete, entry_at, load_entry, place-Placed}

-- the line of names with a separator behind each
abbrev pub line : List Bytes → Bytes
line [] = []
line (x ∷ xs) = x ++ codes ";" ++ line xs

pub record Names (n : ℕ) (names : List (Option Bytes)) : Type 0 where
  pub strings : List Bytes
  pub count : length strings ≡ n
  pub named : (i : ℕ) → i < n → get_or names i none ≡ some (get_or strings i [])
  pub line_eq : joined n names ≡ ret (line strings)

named_cons :
    (n : ℕ) (x : Bytes) (names : List (Option Bytes)) (h : Names n names) (i : ℕ)
    → i < suc n
    → get_or (some x ∷ names) i none ≡ some (get_or (x ∷ h.strings) i [])
named_cons n x names h zero l = refl
named_cons n x names h (suc j) l = h.named j (omega arith)

Names-cons :
    (n : ℕ) (x : Bytes) (names : List (Option Bytes))
    → Names n names
    → Names (suc n) (some x ∷ names)
unfolding joined
Names-cons n x names h = record {
  strings = x ∷ h.strings;
  count = ap suc h.count;
  named = named_cons n x names h;
  line_eq = rw h.line_eq refl;
}

all_filled-Names :
    (n : ℕ) (names : List (Option Bytes)) → all_filled n names ≡ ret true → Names n names
unfolding all_filled joined
all_filled-Names zero names h = record {
  strings = [];
  count = refl;
  named = λ i l. absurd (omega arith);
  line_eq = refl;
}
all_filled-Names (suc n) [] h = cc
all_filled-Names (suc n) (none ∷ names) h = cc
all_filled-Names (suc n) (some x ∷ names) h = Names-cons n x names (all_filled-Names n names h)

-- What a call leaves in the lock file, if anything: as many names as there are types, the file's at
-- its place; then the lock is given up and the next one taken.
abbrev pub Handover : ℕ → Bytes → ℕ → List LockEvent → Type 0
Handover entpoint cp entries locks =
    (locks ≡ [])
    ⊎ ((xs : List Bytes) × (length xs ≡ entries)
        × (get_or xs entpoint [] ≡ cp)
        × (locks ≡ lock_write (line xs) ∷ unlock ∷ lock ∷ []))

pub record Handed (entpoint : ℕ) (cp : Bytes) (entries : ℕ) (x : Outcome Transferred) : Type 0 where
  pub result : Transferred
  pub returned : x ≡ ret result
  pub valid : IsValid result.state
  pub handover : Handover entpoint cp entries result.locks

some_eq : {a b : Bytes} → some a ≡ some b → a ≡ b
some_eq e = cc

transfer_made-Handed :
    (dt entpoint : ℕ) (cp : Bytes) (entries : ℕ) (m : Made)
    → entpoint < entries
    → IsValid m.state
    → IsComplete dt entpoint cp entries m.state m.entry
    → Handed entpoint cp entries (transfer_made entries m)
unfolding transfer_made
transfer_made-Handed dt entpoint cp entries m he v c =
    let s = m.state in
    elim (Option-cases m.entry) [
      | inl e ↦ record {
        result = record { state = s; effects = m.effects; locks = [] };
        returned = rw e refl;
        valid = v;
        handover = inl refl;
      }
      | inr (p, e) ↦
          let (hp, _, hc, hf) = (rw e at c) in
          let n = all_filled-Names entries (entry_at s p).fname hf in
          let place : get_or n.strings entpoint [] ≡ cp =
            some_eq (sym (n.named entpoint he) ∙ hc) in
          record {
            result = record {
              state = s;
              effects = m.effects;
              locks = lock_write (line n.strings) ∷ unlock ∷ lock ∷ [];
            };
            returned = rw (e, load_entry s p v hp, n.line_eq) refl;
            valid = v;
            handover = inr (n.strings, n.count, place, refl);
          }
    ]

-- For a well-formed history of kwatcher, a place below the number of types and at most 3 types,
-- placing a file and handing over what is complete returns and keeps the history well formed. The
-- lock file is left alone, or it gets as many names as there are types, each with a separator
-- behind it and the file's at its place, and then the lock is given up and a new one taken.
pub transfer-Handed :
    (outdir : Bytes) (s : Kwatch) (dt entpoint : ℕ) (cp : Bytes) (entries : ℕ)
    → IsValid s
    → entpoint < entries
    → entries ≤ fname_max
    → Handed entpoint cp entries (place outdir s dt entpoint cp entries >>= transfer_made entries)
transfer-Handed outdir s dt entpoint cp entries v he hn =
    let r = place-Placed outdir s dt entpoint cp entries v he hn in
    rw r.returned (transfer_made-Handed dt entpoint cp entries r.made he r.valid r.complete)
