-- ===== src/Client/Tests.antt =====
-- jitget on concrete inputs, and the theorems at inputs that meet their hypotheses.
use jit_dt.Common.{
  ℕ, ◌≤◌, ◌≡◌, refl, ap, [], ◌∷◌, some, Bytes, codes, take, length, length-take, arith, pos, str_eq,
  if◌then◌else◌,
}
use jit_dt.Common.Outcome.{ret, fault, load, store}
use jit_dt.Client.{
  septype, separate, split, Reading, got, unopened, jitget, get_loop, cut_separator, ftype_num,
}
use jit_dt.Client.Names.{IsName, slots, septype-line}
use jit_dt.Client.Get.{Gets, jitget_lem}
use jit_dt.Client.Mpi.{mpi_jitget, shared, share_loop}
use jit_dt.Client.Mpi.Spread.{Spreads, mpi_jitget-Spreads}
use jit_dt.Kwatch.Transfer.{line}

abbrev vr : Bytes
vr = codes "vr"

abbrev ze : Bytes
ze = codes "ze"

vr-IsName : IsName vr
vr-IsName = (omega arith, (omega arith, tt))

ze-IsName : IsName ze
ze-IsName = (omega arith, (omega arith, tt))

two_names : septype (line (vr ∷ ze ∷ [])) ≡ slots ftype_num (vr ∷ ze ∷ [])
two_names = septype-line (vr ∷ ze ∷ []) (vr-IsName, (ze-IsName, tt))

-- Every file holds its own path.
abbrev echo : Bytes → ℕ → Reading
echo p n = got (take n p)

echo_honest : (p : Bytes) (n : ℕ) (b : Bytes) → echo p n ≡ got b → length b ≤ n
echo_honest p n b e = let h : take n p ≡ b = cc in omega (arith, length-take n p, ap length h)

jitget_two_files :
    Gets echo
      (codes "/d/")
      vr
      (ze ∷ [])
      (3 ∷ 8 ∷ [])
      (jitget echo (codes "/d/") (some (line (vr ∷ ze ∷ []))) (3 ∷ 8 ∷ []) 2)
jitget_two_files =
    jitget_lem echo (codes "/d/") vr (ze ∷ []) (3 ∷ 8 ∷ []) echo_honest (vr-IsName, (ze-IsName, tt))
      (omega arith) refl

read_back :
    jitget echo (codes "/d/") (some (codes "vr;ze;")) (3 ∷ 8 ∷ []) 2
    ≡ ret (
        some (record {
          fname = codes "vr;ze";
          written = (0, codes "/d/") ∷ (3, codes "/d/ze") ∷ [];
          ptr = 11;
          sizes = pos 3 ∷ pos 5 ∷ [];
        }))
unfolding jitget septype separate split get_loop cut_separator load store
read_back = refl

-- An empty lock file: the byte before `fname` is overwritten.
empty_lock : jitget echo (codes "/d/") (some []) (3 ∷ 8 ∷ []) 2 ≡ fault
unfolding jitget septype separate split get_loop cut_separator load store
empty_lock = refl

mpi_jitget-Spreads_example : Spreads echo (codes "/d/") vr (ze ∷ []) (3 ∷ 8 ∷ [])
mpi_jitget-Spreads_example =
    mpi_jitget-Spreads echo (codes "/d/") vr (ze ∷ []) (3 ∷ 8 ∷ []) echo_honest
      (vr-IsName, (ze-IsName, tt)) (omega arith) refl ((_, (_, refl)), ((_, (_, refl)), refl))

abbrev missing_vr : Bytes → ℕ → Reading
missing_vr p n = if str_eq p (codes "/d/vr") then unopened else got (take n p)

-- Without the first file, the root has written the second one at 3, but 0 to 5 are broadcast, and
-- the size of the first stays what was asked for.
missing_file :
    mpi_jitget missing_vr (codes "/d/") (some (codes "vr;ze;")) (3 ∷ 8 ∷ []) 2
    ≡ ret (
        some (
          some record {
            fname = codes "vr;ze";
            written = (3, codes "/d/ze") ∷ [];
            ptr = 11;
            sizes = pos 0 ∷ pos 5 ∷ [];
          },
          record { parts = (0, 5) ∷ []; bsize = pos 3 ∷ pos 5 ∷ [] },
        ))
unfolding mpi_jitget shared share_loop jitget septype separate split get_loop cut_separator load
    store str_eq
missing_file = refl
