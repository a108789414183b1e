-- ===== src/LockFile/Tests.antt =====
-- Lock files on concrete inputs, and the theorem at inputs that meet its hypotheses.
use jit_dt.Common.{
  ℕ, ◌≤◌, ◌≡◌, refl, ap, [], ◌∷◌, some, Bytes, codes, take, length, length-take, arith,
}
use jit_dt.Client.{Reading, got}
use jit_dt.Client.Names.{IsName}
use jit_dt.LockFile.{locked_write, write_at, locked_read, cut_line, c_str, lock_content}
use jit_dt.LockFile.Strings.{IsText}
use jit_dt.LockFile.Pass.{Passes, jitget-locked_write}

abbrev vr : Bytes
vr = codes "vr"

abbrev ze : Bytes
ze = codes "ze"

vr-IsName : IsName vr
vr-IsName = (omega arith, (omega arith, tt))

ze-IsName : IsName ze
ze-IsName = (omega arith, (omega arith, tt))

vr-IsText : IsText vr
vr-IsText = omega arith

ze-IsText : IsText ze
ze-IsText = omega arith

abbrev echo : Bytes → ℕ → Reading
echo p n = got (take n p)

echo_honest : (p : Bytes) (n : ℕ) (b : Bytes) → echo p n ≡ got b → length b ≤ n
echo_honest p n b e = let h : take n p ≡ b = cc in omega (arith, length-take n p, ap length h)

-- A longer line of an earlier round stands behind the null byte.
rest_of_a_line :
    lock_content (locked_write (codes "older;names;") (codes "vr;")) [] ≡ some (codes "vr;")
unfolding lock_content locked_write write_at locked_read cut_line c_str
rest_of_a_line = refl

jitget-locked_write_example :
    Passes echo
      (codes "/d/")
      (codes "older;names;")
      (codes "stale")
      (codes "stale")
      vr
      (ze ∷ [])
      (3 ∷ 8 ∷ [])
jitget-locked_write_example =
    jitget-locked_write echo (codes "/d/") (codes "older;names;") (codes "stale") (codes "stale") vr
      (ze ∷ []) (3 ∷ 8 ∷ []) echo_honest (vr-IsName, (ze-IsName, tt)) (vr-IsText, (ze-IsText, tt))
      (omega arith) refl (omega arith)
