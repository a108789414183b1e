-- ===== src/Client/Mpi/Spread.antt =====
-- jitget with MPI: where every file has data, each process gets the parts that the root has read.
use jit_dt.Common.{
  ℕ, ◌+◌, ◌≤◌, ◌≡◌, refl, ap, ◌∙◌, leb, List, [], ◌∷◌, ◌++◌, some, Bytes, length, All, arith, false,
}
use jit_dt.Common.Outcome.{ret}
use jit_dt.Client.{ftype_num, Reading, got, Got}
use jit_dt.Client.Names.{IsName}
use jit_dt.Client.Get.{pieces, counts, Gets, jitget_lem}
use jit_dt.Client.Mpi.{share_loop, shared, mpi_jitget}
use jit_dt.Kwatch.Transfer.{line}

-- Every file can be read and has at least a byte.
abbrev pub AllFilled : (Bytes → ℕ → Reading) → Bytes → List Bytes → List ℕ → Type 0
AllFilled read place [] bs = bs ≡ []
AllFilled read place (x ∷ xs) [] = ⊥
AllFilled read place (x ∷ xs) (b ∷ bs) =
    ((c : ℕ) × ((d : Bytes) × (read (place ++ x) b ≡ got (c ∷ d)))) × AllFilled read place xs bs

abbrev pub extents : List (ℕ × Bytes) → List (ℕ × ℕ)
extents [] = []
extents ((o, b) ∷ ws) = (o, length b) ∷ extents ws

share_loop-extents :
    (read : Bytes → ℕ → Reading) (place : Bytes) (ptr : ℕ) (xs : List Bytes) (bs : List ℕ)
    → AllFilled read place xs bs
    → share_loop ptr bs (counts read place xs bs)
      ≡ record { parts = extents (pieces read place ptr xs bs); bsize = counts read place xs bs }
unfolding share_loop
share_loop-extents read place ptr [] bs h = rw (h, share_loop) refl
share_loop-extents read place ptr (x ∷ xs) [] h = absurd h
share_loop-extents read place ptr (x ∷ xs) (b ∷ bs) ((c, (d, e)), h) =
    rw (share_loop, e, share_loop-extents read place (ptr + b) xs bs h) refl

-- What all processes end with.
pub record Spreads (read : Bytes → ℕ → Reading) (place x : Bytes) (xs : List Bytes) (bs : List ℕ)
    : Type 0 where
  pub root : Got
  pub gets : Gets read place x xs bs (ret (some root))
  pub returned :
      mpi_jitget read place (some (line (x ∷ xs))) bs (length (x ∷ xs))
      ≡ ret (some (some root, record { parts = extents root.written; bsize = root.sizes }))

-- If a read gives at most the size it asks for and every file has at least a byte, then for a lock
-- file with the line of 1 to 3 names without a `;`, and a size for each of them, jitget with MPI
-- broadcasts exactly the parts of the buffer that jitget at the root has written, and the sizes of
-- every process are those read.
pub mpi_jitget-Spreads :
    (read : Bytes → ℕ → Reading) (place : Bytes) (x : Bytes) (xs : List Bytes) (bs : List ℕ)
    → ((p : Bytes) (n : ℕ) (b : Bytes) → read p n ≡ got b → length b ≤ n)
    → All IsName (x ∷ xs)
    → length (x ∷ xs) ≤ ftype_num
    → length bs ≡ length (x ∷ xs)
    → AllFilled read place (x ∷ xs) bs
    → Spreads read place x xs bs
unfolding mpi_jitget shared
mpi_jitget-Spreads read place x xs bs honest hn hl hb hf =
    let g = jitget_lem read place x xs bs honest hn hl hb in
    let few : leb 4 (length (x ∷ xs)) ≡ false = ground arith in
    let parts = ap (share_loop 0 bs) g.sizes ∙ share_loop-extents read place 0 (x ∷ xs) bs hf in
    record {
      root = g.result;
      gets = record {
        result = g.result;
        returned = refl;
        names = g.names;
        pieces_eq = g.pieces_eq;
        sizes = g.sizes;
        within = g.within;
      };
      returned = rw (mpi_jitget, few, g.returned, shared, parts, g.pieces_eq, g.sizes) refl;
    }
