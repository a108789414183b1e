-- ===== src/Client/Mpi.antt =====
-- src/jitclient.c: jitget where the processes of an MPI job share the files. The root calls _jitget
-- of Client; the broadcasts of data are listed by their offsets and sizes in every process's buffer.
pub mod Spread
use jit_dt.Common.{
  ℕ, zero, suc, ◌+◌, List, [], ◌∷◌, Option, none, some, Bytes, leb, if◌then◌else◌, map, ℤ, pos,
  negsuc,
}
use jit_dt.Common.Outcome.{Outcome, ret, ◌>>=◌}
use jit_dt.Client.{Reading, Got, jitget}

abbrev pub transopt_size : ℕ
transopt_size = 3

-- the parts of the buffer that are broadcast, and `bsize` behind it
pub record Shared : Type 0 where
  pub parts : List (ℕ × ℕ)
  pub bsize : List ℤ

-- `if (rsize[i] > 0) ...`, in front of the other entries
abbrev pub share_one : ℕ → ℕ → ℤ → (ℕ → Shared) → Shared
share_one ptr b (pos zero) more = let x = more ptr in record x { bsize = pos b ∷ x.bsize }
share_one ptr b (pos (suc n)) more =
    let x = more (ptr + b) in
    record { parts = (ptr, suc n) ∷ x.parts; bsize = pos (suc n) ∷ x.bsize }
share_one ptr b (negsuc n) more = let x = more ptr in record x { bsize = pos b ∷ x.bsize }

-- the loop over the entries, from `ptr`
unfoldable pub share_loop : ℕ → List ℕ → List ℤ → Shared
share_loop ptr [] rsize = record { parts = []; bsize = [] }
share_loop ptr (b ∷ bsize) [] = record { parts = []; bsize = [] }
share_loop ptr (b ∷ bsize) (r ∷ rsize) = share_one ptr b r (λ p. share_loop p bsize rsize)

-- behind the call of `_jitget`: where it gives -1, `rsize` are still the sizes asked for
unfoldable pub shared : List ℕ → Option Got → Option Got × Shared
shared bsize none = (none, share_loop 0 bsize (map pos bsize))
shared bsize (some g) = (some g, share_loop 0 bsize g.sizes)

-- `jitget` in all processes, for as many sizes as entries; `none` is the result -1 for too many.
unfoldable pub mpi_jitget :
    (Bytes → ℕ → Reading)
    → Bytes
    → Option Bytes
    → List ℕ
    → ℕ
    → Outcome (Option (Option Got × Shared))
mpi_jitget read place content bsize ent =
    if leb (suc transopt_size) ent
    then ret none
    else (jitget read place content bsize ent >>= (λ g. ret (some (shared bsize g))))
