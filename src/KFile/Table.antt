-- ===== src/KFile/Table.antt =====
-- A table of descriptors with two places that are used one after the other.
use jit_dt.Common.{
  ℕ, zero, suc, ◌+◌, ◌≡◌, refl, ap, List, [], ◌∷◌, ◌++◌, Option, none, some, map, length, set,
  arith,
}
use jit_dt.KFile.{Open, open_fd, slot}

open_fd-full :
    (us : List Open) (ws : List (Option Open)) (o : Open)
    → open_fd (map some us ++ (none ∷ ws)) o ≡ some (length us, map some us ++ (some o ∷ ws))
unfolding open_fd
open_fd-full [] ws o = refl
open_fd-full (u ∷ us) ws o = rw (open_fd, open_fd-full us ws o) refl

slot_behind :
    (us : List Open) (x : Option Open) (ws : List (Option Open)) (i : ℕ)
    → i ≡ length us
    → slot (map some us ++ (x ∷ ws)) i ≡ x
unfolding slot
slot_behind [] x ws zero h = refl
slot_behind [] x ws (suc i) h = absurd (omega arith)
slot_behind (u ∷ us) x ws zero h = absurd (omega arith)
slot_behind (u ∷ us) x ws (suc i) h = slot_behind us x ws i (omega arith)

set_behind :
    (us : List Open) (x y : Option Open) (ws : List (Option Open)) (i : ℕ)
    → i ≡ length us
    → set (map some us ++ (x ∷ ws)) i y ≡ map some us ++ (y ∷ ws)
set_behind [] x y ws zero h = refl
set_behind [] x y ws (suc i) h = absurd (omega arith)
set_behind (u ∷ us) x y ws zero h = absurd (omega arith)
set_behind (u ∷ us) x y ws (suc i) h = ap (◌∷◌ (some u)) (set_behind us x y ws i (omega arith))

-- The lowest place and the next one, with the files that are open before them.
abbrev pub table :
    List Open → Option Open → List Open → Option Open → List (Option Open) → List (Option Open)
table us l vs d ws = map some us ++ (l ∷ (map some vs ++ (d ∷ ws)))

abbrev pub data_fd : List Open → List Open → ℕ
data_fd us vs = suc (length us + length vs)

module _ (vs : List Open) (ws : List (Option Open)) where
  pub open_fd-lock :
      (us : List Open) (o : Open)
      → open_fd (table us none vs none ws) o ≡ some (length us, table us (some o) vs none ws)
  open_fd-lock us o = open_fd-full us _ o

  pub open_fd-data :
      (us : List Open) (l o : Open)
      → open_fd (table us (some l) vs none ws) o
        ≡ some (data_fd us vs, table us (some l) vs (some o) ws)
  unfolding open_fd
  open_fd-data [] l o =
      rw (open_fd, open_fd-full vs ws o)
        (ap (λ n. some (suc n, (some l ∷ (map some vs ++ (some o ∷ ws))))) (omega arith))
  open_fd-data (u ∷ us) l o =
      rw (open_fd, open_fd-data us l o)
        (ap (λ n. some (suc n, (some u ∷ table us (some l) vs (some o) ws))) (omega arith))

  pub slot-lock : (us : List Open) (l d : Option Open) → slot (table us l vs d ws) (length us) ≡ l
  slot-lock us l d = slot_behind us l _ (length us) refl

  slot_data_at :
      (us : List Open) (l d : Option Open) (i : ℕ)
      → i ≡ data_fd us vs
      → slot (table us l vs d ws) i ≡ d
  unfolding slot
  slot_data_at us l d zero h = absurd (omega arith)
  slot_data_at [] l d (suc i) h = slot_behind vs d ws i (omega arith)
  slot_data_at (u ∷ us) l d (suc i) h = slot_data_at us l d i (omega arith)

  pub slot-data :
      (us : List Open) (l d : Option Open) → slot (table us l vs d ws) (data_fd us vs) ≡ d
  slot-data us l d = slot_data_at us l d (data_fd us vs) refl

  pub set-lock :
      (us : List Open) (l d x : Option Open)
      → set (table us l vs d ws) (length us) x ≡ table us x vs d ws
  set-lock us l d x = set_behind us l x _ (length us) refl

  set_data_at :
      (us : List Open) (l d x : Option Open) (i : ℕ)
      → i ≡ data_fd us vs
      → set (table us l vs d ws) i x ≡ table us l vs x ws
  set_data_at us l d x zero h = absurd (omega arith)
  set_data_at [] l d x (suc i) h = ap (◌∷◌ l) (set_behind vs d x ws i (omega arith))
  set_data_at (u ∷ us) l d x (suc i) h = ap (◌∷◌ (some u)) (set_data_at us l d x i (omega arith))

  pub set-data :
      (us : List Open) (l d x : Option Open)
      → set (table us l vs d ws) (data_fd us vs) x ≡ table us l vs x ws
  set-data us l d x = set_data_at us l d x (data_fd us vs) refl
