-- ===== src/Client.antt =====
-- src/jitclient.h and src/jitkclient.c: the names in the lock file, and jitget on the K computer side.
-- The lock file is the argument `content`; the files of the data directory are a parameter. Writes to
-- the caller's buffer are listed with their offsets.
pub mod Names
pub mod Get
pub mod Mpi
mod Tests
use jit_dt.Common.{
  ℕ, zero, suc, ◌+◌, Bool, true, false, List, [], ◌∷◌, ◌++◌, Option, none, some, Bytes, codes,
  str_eq, ◌==◌, if◌then◌else◌, length, take, ℤ, pos, negsuc, map,
}
use jit_dt.Common.Outcome.{Outcome, ret, fault, ◌>>=◌, load, store}

abbrev pub ftype_num : ℕ
ftype_num = 3

-- `asc2ent`
unfoldable pub asc2ent : Bytes → ℕ
asc2ent type =
    if str_eq type (codes "vr")
    then 0
    else if str_eq type (codes "ze")
    then 1
    else if str_eq type (codes "qcf")
    then 2
    else 0

-- `index(next, ';')`: the bytes before the separator and those behind it
unfoldable pub split : Bytes → Option (Bytes × Bytes)
split [] = none
split (c ∷ r) =
    let rest = split r in
    if c == b';' then some ([], r) else elim rest [ none ↦ none | some (f, t) ↦ some (c ∷ f, t) ]

-- The entries of `files` that `septype` writes, with `k` left; the others stay uninitialised.
unfoldable pub separate : ℕ → Bytes → List (Option Bytes)
separate zero next = []
separate (suc k) next = elim (split next) [ none ↦ none ∷ [] | some (f, r) ↦ some f ∷ separate k r ]

unfoldable pub septype : Bytes → List (Option Bytes)
septype str = separate ftype_num str

-- What opening a file and one read of at most the given size give.
pub data Reading : Type 0 where
  unopened failed : Reading
  got : Bytes → Reading

-- `fname`, the writes to `data`, `ptr`, and `bsize` with the sizes read
pub record Got : Type 0 where
  pub fname : Bytes
  pub written : List (ℕ × Bytes)
  pub ptr : ℕ
  pub sizes : List ℤ

abbrev pub read_size : Reading → ℤ
read_size unopened = pos 0
read_size failed = negsuc 0
read_size (got b) = pos (length b)

abbrev pub written_at : ℕ → Reading → List (ℕ × Bytes)
written_at ptr (got b) = (ptr, b) ∷ []
written_at ptr _ = []

-- `fname[strlen(fname) - 1] = 0`
unfoldable pub cut_separator : Got → Outcome Got
cut_separator g = elim g.fname [
  | [] ↦ fault
  | c ∷ r ↦ ret (record g { fname = take (length r) (c ∷ r) })
]

module _ (read : Bytes → ℕ → Reading) where
  -- the loop of `_jitget` with `k` turns left, at index `i`
  unfoldable pub get_loop : Bytes → List (Option Bytes) → List ℕ → ℕ → ℕ → Got → Outcome Got
  get_loop place files bsize zero i g = ret g
  get_loop place files bsize (suc k) i g = do
    f ← load files i
    elim f [
      | none ↦ ret g
      | some name ↦ do
        size ← load bsize i
        let r = read (place ++ name) size
        sizes ← store g.sizes i (read_size r)
        get_loop place files bsize k (i + 1) (record {
          fname = g.fname ++ name ++ codes ";";
          written = g.written ++ written_at g.ptr r;
          ptr = g.ptr + size;
          sizes = sizes;
        })
    ]

  -- `_jitget` with what `locked_read` gives, `none` for a file that starts with a null byte: the
  -- result -1.
  unfoldable pub jitget : Bytes → Option Bytes → List ℕ → ℕ → Outcome (Option Got)
  jitget place none bsize ent = ret none
  jitget place (some content) bsize ent =
      get_loop place (septype content) bsize ent 0
        (record { fname = []; written = []; ptr = 0; sizes = map pos bsize })
      >>= (λ g. cut_separator g >>= λ h. ret (some h))
