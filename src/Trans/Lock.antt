-- ===== src/Trans/Lock.antt =====
-- The two lock files of a directory take turns.
use jit_dt.Common.{
  ◌≡◌, ◌≢◌, refl, sym, ap, ◌∙◌, Bool, true, false, not, [], ◌∷◌, ◌++◌, Bytes, codes, Option-cases,
  Bool-cases, inl, inr, str_eq, str_eq_iff,
}
use jit_dt.Common.Outcome.{ret}
use jit_dt.Trans.{directory, lock_name, lock_path, locked_lock}

lock_name-ne : lock_name false ≢ lock_name true
unfolding str_eq
lock_name-ne e = cc ((str_eq_iff (lock_name false) (lock_name true)).1 e)

append_cancel : (d x y : Bytes) → d ++ x ≡ d ++ y → x ≡ y
append_cancel [] x y e = e
append_cancel (c ∷ d) x y e = append_cancel d x y (cc e)

lock_path-ne : (path : Bytes) → lock_path false path ≢ lock_path true path
unfolding lock_path
lock_path-ne path = elim (Option-cases (directory path)) [
  | inl e ↦ rw (lock_path, e) (λ f. lock_name-ne (append_cancel (codes "./") _ _ f))
  | inr (d, e) ↦ rw (lock_path, e) (λ f. lock_name-ne (append_cancel d _ _ f))
]

locked_lock-ret :
    (locks : Bytes → Bool) (t u : Bool) (path p : Bytes)
    → locked_lock locks t path ≡ ret (p, u)
    → (p ≡ lock_path t path) × (u ≡ not t)
unfolding locked_lock
locked_lock-ret locks t u path p e = elim (Bool-cases (locks (lock_path t path))) [
  | inl h ↦ let f = (rw h at e) in (cc f, cc f)
  | inr h ↦ cc (rw h at e)
]

turns :
    (t : Bool) (path p1 p2 : Bytes)
    → p1 ≡ lock_path t path
    → p2 ≡ lock_path (not t) path
    → (p1 ≢ p2) × (not (not t) ≡ t)
turns false path p1 p2 a b = (λ e. lock_path-ne path (sym a ∙ e ∙ b), refl)
turns true path p1 p2 a b = (λ e. lock_path-ne path (sym b ∙ sym e ∙ a), refl)

-- If two calls of locked_lock in a row for one path return, they lock different files, and the call
-- after them is again for the file of the first.
pub locked_lock-alternates :
    (locks : Bytes → Bool) (t t1 t2 : Bool) (path p1 p2 : Bytes)
    → locked_lock locks t path ≡ ret (p1, t1)
    → locked_lock locks t1 path ≡ ret (p2, t2)
    → (p1 ≢ p2) × (t2 ≡ t)
locked_lock-alternates locks t t1 t2 path p1 p2 e1 e2 =
    let (a, b) = locked_lock-ret locks t t1 path p1 e1 in
    let (c, d) = locked_lock-ret locks t1 t2 path p2 e2 in
    let (ne, same) = turns t path p1 p2 a (c ∙ ap (λ u. lock_path u path) b) in
    (ne, d ∙ ap not b ∙ same)
