-- ===== src/Hist/Put/Rising.antt =====
-- Rising lists of dates, extended at the end and shortened at the front.
use jit_dt.Common.{ℕ, ◌≤◌, ◌<◌, ◌≡◌, refl, List, [], ◌∷◌, ◌++◌, map, All, All-append, drop, arith}
use jit_dt.Hist.Valid.{Ascending}

pub All-le_trans : (xs : List ℕ) (a b : ℕ) → a ≤ b → All (λ d. d ≤ a) xs → All (λ d. d ≤ b) xs
All-le_trans [] a b h k = tt
All-le_trans (x ∷ xs) a b h k = (omega arith, All-le_trans xs a b h k.1)

pub Ascending-concat :
    (xs : List ℕ) (a d : ℕ)
    → Ascending xs
    → All (λ y. y ≤ a) xs
    → a < d
    → Ascending (xs ++ (d ∷ []))
Ascending-concat [] a d r k h = (tt, tt)
Ascending-concat (x ∷ xs) a d r k h =
    (All-append (λ y. x < y) xs (d ∷ []) r.0 (omega arith, tt), Ascending-concat xs a d r.1 k.1 h)

pub All-le-concat :
    (xs : List ℕ) (a d : ℕ) → All (λ y. y ≤ a) xs → a < d → All (λ y. y ≤ d) (xs ++ (d ∷ []))
All-le-concat xs a d k h =
    All-append (λ y. y ≤ d) xs (d ∷ []) (All-le_trans xs a d (omega arith) k) (omega arith, tt)

pub Ascending-tail : (xs : List ℕ) → Ascending xs → Ascending (drop 1 xs)
Ascending-tail [] r = tt
Ascending-tail (x ∷ xs) r = r.1

pub All-tail {ℓ} : {A : Type ℓ} (P : A → Type 0) (xs : List A) → All P xs → All P (drop 1 xs)
All-tail P [] r = tt
All-tail P (x ∷ xs) r = r.1

pub map-tail {ℓ κ} :
    {A : Type ℓ} {B : Type κ} (f : A → B) (xs : List A) → map f (drop 1 xs) ≡ drop 1 (map f xs)
map-tail f [] = refl
map-tail f (x ∷ xs) = refl
