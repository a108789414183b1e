-- ===== src/Common/Arrays.antt =====
-- Lists that are put together from parts: reads, writes and prefixes at the seam; and what a read and
-- a write can end in.
use Prim.Native.Nat.{ℕ, zero, suc, ◌+◌, ◌-◌, ◌≤◌}
use mathlib.Core.Path.{◌≡◌, refl, sym, ap, ◌∙◌}
use mathlib.Core.Logic.{◌⊎◌, inl, inr}
use mathlib.Core.List.{List, [], ◌∷◌, ◌++◌}
use native.Mathlib.Omega.{arith}
use jit_dt.Common.Lists.{length, take, drop, length-append}
use jit_dt.Common.Outcome.{Outcome, ret, fault, ◌>>=◌, load, store}

module _ {ℓ} {A : Type ℓ} where
  pub snoc-append : (xs : List A) (y : A) (zs : List A) → (xs ++ (y ∷ [])) ++ zs ≡ xs ++ (y ∷ zs)
  snoc-append [] y zs = refl
  snoc-append (x ∷ xs) y zs = ap (◌∷◌ x) (snoc-append xs y zs)

  pub append_assoc : (xs ys zs : List A) → (xs ++ ys) ++ zs ≡ xs ++ (ys ++ zs)
  append_assoc [] ys zs = refl
  append_assoc (x ∷ xs) ys zs = ap (◌∷◌ x) (append_assoc xs ys zs)

  pub append_nil : (xs : List A) → xs ++ [] ≡ xs
  append_nil [] = refl
  append_nil (x ∷ xs) = ap (◌∷◌ x) (append_nil xs)

  pub load_behind :
      (xs : List A) (y : A) (zs : List A) (i : ℕ) → i ≡ length xs → load (xs ++ (y ∷ zs)) i ≡ ret y
  unfolding load
  load_behind [] y zs zero h = refl
  load_behind [] y zs (suc i) h = absurd (omega arith)
  load_behind (x ∷ xs) y zs zero h = absurd (omega arith)
  load_behind (x ∷ xs) y zs (suc i) h = load_behind xs y zs i (omega arith)

  pub store_behind :
      (xs : List A) (y v : A) (zs : List A) (i : ℕ)
      → i ≡ length xs
      → store (xs ++ (y ∷ zs)) i v ≡ ret (xs ++ (v ∷ zs))
  unfolding store
  store_behind [] y v zs zero h = refl
  store_behind [] y v zs (suc i) h = absurd (omega arith)
  store_behind (x ∷ xs) y v zs zero h = absurd (omega arith)
  store_behind (x ∷ xs) y v zs (suc i) h = rw (store_behind xs y v zs i (omega arith)) refl

  pub length-snoc : (xs : List A) (y : A) → length (xs ++ (y ∷ [])) ≡ length xs + 1
  length-snoc xs y = length-append xs (y ∷ [])

  pub take-append :
      (xs ys : List A) (n : ℕ) → length xs ≤ n → take n (xs ++ ys) ≡ xs ++ take (n - length xs) ys
  take-append [] ys n h = ap (λ k. take k ys) (omega arith)
  take-append (x ∷ xs) ys zero h = absurd (omega arith)
  take-append (x ∷ xs) ys (suc n) h =
      let less : suc n - suc (length xs) ≡ n - length xs = omega arith in
      rw less (ap (◌∷◌ x) (take-append xs ys n (omega arith)))

  pub drop-append :
      (xs ys : List A) (n : ℕ) → length xs ≤ n → drop n (xs ++ ys) ≡ drop (n - length xs) ys
  drop-append [] ys n h = ap (λ k. drop k ys) (omega arith)
  drop-append (x ∷ xs) ys zero h = absurd (omega arith)
  drop-append (x ∷ xs) ys (suc n) h =
      let less : suc n - suc (length xs) ≡ n - length xs = omega arith in
      rw less (drop-append xs ys n (omega arith))

  pub take-within : (xs ys : List A) (n : ℕ) → n ≤ length xs → take n (xs ++ ys) ≡ take n xs
  take-within xs ys zero h = refl
  take-within [] ys (suc n) h = absurd (omega arith)
  take-within (x ∷ xs) ys (suc n) h = ap (◌∷◌ x) (take-within xs ys n (omega arith))

  pub drop-within : (xs ys : List A) (n : ℕ) → n ≤ length xs → drop n (xs ++ ys) ≡ drop n xs ++ ys
  drop-within xs ys zero h = refl
  drop-within [] ys (suc n) h = absurd (omega arith)
  drop-within (x ∷ xs) ys (suc n) h = drop-within xs ys n (omega arith)

  pub take-all : (xs : List A) (n : ℕ) → length xs ≤ n → take n xs ≡ xs
  take-all [] zero h = refl
  take-all [] (suc n) h = refl
  take-all (x ∷ xs) zero h = absurd (omega arith)
  take-all (x ∷ xs) (suc n) h = ap (◌∷◌ x) (take-all xs n (omega arith))

  pub drop-all : (xs : List A) (n : ℕ) → length xs ≤ n → drop n xs ≡ []
  drop-all [] zero h = refl
  drop-all [] (suc n) h = refl
  drop-all (x ∷ xs) zero h = absurd (omega arith)
  drop-all (x ∷ xs) (suc n) h = drop-all xs n (omega arith)

  pub take-drop : (n : ℕ) (xs : List A) → take n xs ++ drop n xs ≡ xs
  take-drop zero xs = refl
  take-drop (suc n) [] = refl
  take-drop (suc n) (x ∷ xs) = ap (◌∷◌ x) (take-drop n xs)

  pub take-front : (xs ys : List A) (n : ℕ) → length xs ≡ n → take n (xs ++ ys) ≡ xs
  take-front xs ys n h =
      let none_left : n - length xs ≡ 0 = omega arith in
      take-append xs ys n (omega arith) ∙ (rw none_left (append_nil xs))

  pub drop-front : (xs ys : List A) (n : ℕ) → length xs ≡ n → drop n (xs ++ ys) ≡ ys
  drop-front xs ys n h =
      let none_left : n - length xs ≡ 0 = omega arith in
      drop-append xs ys n (omega arith) ∙ (rw none_left refl)

  -- two reads one after the other
  pub take-more :
      (n m : ℕ) (x : List A) → take n x ++ take m (drop (length (take n x)) x) ≡ take (n + m) x
  take-more zero m x = ap (λ k. take k x) (omega arith)
  take-more (suc n) m [] = take-all [] m (omega arith) ∙ sym (take-all [] (suc n + m) (omega arith))
  take-more (suc n) m (c ∷ x) =
      let sum_suc : suc (n + m) ≡ suc n + m = omega arith in
      ap (◌∷◌ c) (take-more n m x) ∙ ap (λ k. take k (c ∷ x)) sum_suc

  pub drop-more : (m o : ℕ) (x : List A) → drop (o + m) x ≡ drop m (drop o x)
  drop-more m zero x = ap (λ k. drop k x) (omega arith)
  drop-more m (suc o) [] = drop-all [] (suc o + m) (omega arith) ∙ sym (drop-all [] m (omega arith))
  drop-more m (suc o) (c ∷ x) =
      let sum_suc : suc o + m ≡ suc (o + m) = omega arith in
      ap (λ k. drop k (c ∷ x)) sum_suc ∙ drop-more m o x

pub load_cases {ℓ} :
    {A : Type ℓ} (xs : List A) (i : ℕ) → (load xs i ≡ fault) ⊎ ((a : A) × (load xs i ≡ ret a))
unfolding load
load_cases [] i = inl refl
load_cases (x ∷ xs) zero = inr (x, refl)
load_cases (x ∷ xs) (suc i) = load_cases xs i

pub store_cases {ℓ} :
    {A : Type ℓ} (xs : List A) (i : ℕ) (v : A)
    → (store xs i v ≡ fault) ⊎ ((ys : List A) × (store xs i v ≡ ret ys))
unfolding store
store_cases [] i v = inl refl
store_cases (x ∷ xs) zero v = inr (v ∷ xs, refl)
store_cases (x ∷ xs) (suc i) v = elim (store_cases xs i v) [
  | inl e ↦ inl (rw e refl)
  | inr (ys, e) ↦ inr (x ∷ ys, rw e refl)
]

pub >>=-fault {ℓ κ} :
    {A : Type ℓ} {B : Type κ} (m : Outcome A) (f : A → Outcome B)
    → (m ≡ fault) ⊎ ((a : A) × (m ≡ ret a))
    → ((a : A) → f a ≡ fault)
    → m >>= f ≡ fault
>>=-fault m f (inl e) h = rw e refl
>>=-fault m f (inr (a, e)) h = rw e (h a)
