-- ===== src/Common/Outcome.antt =====
-- What a run of a C function ends in, and reads and writes of arrays.
use Prim.Native.Nat.{ℕ, zero, suc, ◌<◌}
use mathlib.Core.Path.{◌≡◌, refl}
use mathlib.Core.List.{List, [], ◌∷◌}
use native.Mathlib.Omega.{arith}
use jit_dt.Common.Lists.{length, get_or, set}

-- `exited`: the process has called `exit`. `fault`: an access outside an array, which C leaves
-- undefined.
pub data Outcome {ℓ} (A : Type ℓ) : Type ℓ where
  ret : A → Outcome A
  exited : Outcome A
  fault : Outcome A

infixl 5 ◌>>=◌
abbrev pub ◌>>=◌ {ℓ κ} : {A : Type ℓ} {B : Type κ} → Outcome A → (A → Outcome B) → Outcome B
ret a >>= f = f a
exited >>= f = exited
fault >>= f = fault

module _ {ℓ} {A : Type ℓ} where
  -- `xs[i]`
  unfoldable pub load : List A → ℕ → Outcome A
  load [] i = fault
  load (x ∷ xs) zero = ret x
  load (x ∷ xs) (suc i) = load xs i

  -- `xs[i] = v`
  unfoldable pub store : List A → ℕ → A → Outcome (List A)
  store [] i v = fault
  store (x ∷ xs) zero v = ret (v ∷ xs)
  store (x ∷ xs) (suc i) v = do ys ← store xs i v; ret (x ∷ ys)

  pub load-eq-get_or :
      (xs : List A) (i : ℕ) (d : A) → i < length xs → load xs i ≡ ret (get_or xs i d)
  unfolding load
  load-eq-get_or [] i d h = absurd (omega arith)
  load-eq-get_or (x ∷ xs) zero d h = refl
  load-eq-get_or (x ∷ xs) (suc i) d h = load-eq-get_or xs i d (omega arith)

  pub store-eq-set : (xs : List A) (i : ℕ) (v : A) → i < length xs → store xs i v ≡ ret (set xs i v)
  unfolding store
  store-eq-set [] i v h = absurd (omega arith)
  store-eq-set (x ∷ xs) zero v h = refl
  store-eq-set (x ∷ xs) (suc i) v h = rw (store-eq-set xs i v (omega arith))

-- Inversion of a chain that returns.
pub >>=-eq-ret {ℓ κ} :
    {A : Type ℓ} {B : Type κ} (m : Outcome A) (f : A → Outcome B) {b : B}
    → m >>= f ≡ ret b
    → (a : A) × (m ≡ ret a) × (f a ≡ ret b)
>>=-eq-ret (ret a) f h = (a, refl, h)
>>=-eq-ret exited f h = cc
>>=-eq-ret fault f h = cc
