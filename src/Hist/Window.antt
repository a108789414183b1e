-- ===== src/Hist/Window.antt =====
-- The entries of a circular array from one index on, and what a write elsewhere leaves alone.
use jit_dt.Common.{
  ℕ, zero, suc, ◌+◌, ◌-◌, ◌%◌, ◌≤◌, ◌<◌, ◌≡◌, ◌≢◌, ◌⊎◌, inl, inr, refl, sym, ap, ◌∙◌, List, [], ◌∷◌,
  ◌++◌, map, length, get_or, set, get_or-set_ne, arith,
}
use mathlib.Core.Path.{ap₂}
use native.Mathlib.Nat.{mod-add-mod, mod-eq_of_lt, mod-eq-sub-mod, add-zero}
use native.Mathlib.Decide.{dec_lt}

-- One turn of the pointer, then `k` steps.
pub step_around : (h k cap : ℕ) → ((h + 1) % cap + k) % cap ≡ (h + suc k) % cap
step_around h k cap = rw mod-add-mod (ap (λ t. t % cap) (omega arith))

-- `k` steps, then one turn of the pointer.
pub around_step : (h k cap : ℕ) → ((h + k) % cap + 1) % cap ≡ (h + suc k) % cap
around_step h k cap = rw mod-add-mod (ap (λ t. t % cap) (omega arith))

-- The index as a number below the capacity, at most one turn on.
pub wrap :
    (h k cap : ℕ)
    → h < cap
    → k < cap
    → ((h + k) % cap ≡ h + k) ⊎ ((cap ≤ h + k) × ((h + k) % cap ≡ h + k - cap))
wrap h k cap hh hk = elim (dec_lt (h + k) cap) [
  | yes p ↦ inl (mod-eq_of_lt p)
  | no p ↦
      inr (
        omega arith,
        mod-eq-sub-mod {n = h + k} {m = cap} (omega arith) ∙ mod-eq_of_lt (omega arith),
      )
]

pub around : {h cap : ℕ} → h < cap → (h + 1) % cap < cap
around hh = omega arith

-- Fewer than `cap` steps do not come back to the start.
pub step-ne : {cap h k : ℕ} → h < cap → 0 < k → k < cap → (h + k) % cap ≢ h
step-ne {cap} {h} {k} hh hk hc = omega (arith, wrap h k cap hh hc)

module _ {ℓ} {A : Type ℓ} (d : A) (cap : ℕ) where
  -- the `n` entries from index `h` on, going round at `cap`
  abbrev pub window : List A → ℕ → ℕ → List A
  window buf h zero = []
  window buf h (suc n) = get_or buf h d ∷ window buf ((h + 1) % cap) n

  pub length-window : (buf : List A) (h n : ℕ) → length (window buf h n) ≡ n
  length-window buf h zero = refl
  length-window buf h (suc n) = ap suc (length-window buf ((h + 1) % cap) n)

  pub window-concat :
      (buf : List A) (h n i : ℕ)
      → h < cap
      → i ≡ (h + n) % cap
      → window buf h (suc n) ≡ window buf h n ++ (get_or buf i d ∷ [])
  window-concat buf h zero i hh e = rw (e, add-zero, mod-eq_of_lt hh)
  window-concat buf h (suc n) i hh e =
      ap (◌∷◌ (get_or buf h d))
        (window-concat buf ((h + 1) % cap) n i (around hh) (e ∙ sym (step_around h n cap)))

  -- A write past the window is not seen in it.
  pub window-set_far :
      (buf : List A) (h n m i : ℕ) (v : A)
      → h < cap
      → n ≤ m
      → m < cap
      → i ≡ (h + m) % cap
      → window (set buf i v) h n ≡ window buf h n
  window-set_far buf h zero m i v hh hn hm e = refl
  window-set_far buf h (suc n) zero i v hh hn hm e = absurd (omega arith)
  window-set_far buf h (suc n) (suc m) i v hh hn hm e =
      ap₂ ◌∷◌ (get_or-set_ne buf i h v d (rw e (step-ne hh (omega arith) hm))) (
        window-set_far buf ((h + 1) % cap) n m i v (around hh) (omega arith) (omega arith)
          (e ∙ sym (step_around h m cap)))

  -- What a map sees of two arrays that agree under it.
  pub map-window {κ} :
      {B : Type κ} (f : A → B) (xs ys : List A)
      → ((i : ℕ) → f (get_or xs i d) ≡ f (get_or ys i d))
      → (h n : ℕ) → map f (window xs h n) ≡ map f (window ys h n)
  map-window f xs ys e h zero = refl
  map-window f xs ys e h (suc n) = ap₂ ◌∷◌ (e h) (map-window f xs ys e ((h + 1) % cap) n)
