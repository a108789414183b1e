-- ===== src/Watch/Dots.antt =====
-- dirs_check where readdir gives no types: `.` is a directory of each directory.
use jit_dt.Common.{
  ℕ, zero, suc, ◌+◌, ◌≡◌, refl, true, List, ◌∷◌, ◌++◌, Option, some, Bytes, codes, ◌⊎◌, inl, inr,
}
use jit_dt.Common.Outcome.{Outcome, ret, fault, load, store}
use jit_dt.Common.Arrays.{load_cases, store_cases, >>=-fault}
use jit_dt.Watch.{
  Kind, unknown, is_dir, DirPath, avpath, slot, deref, set_dirent, descend, scan_dir, dirs_check,
}

deref_cases :
    (ds : List Bytes) (p : DirPath) → (deref ds p ≡ fault) ⊎ ((a : Bytes) × (deref ds p ≡ ret a))
unfolding deref
deref_cases ds (avpath p) = inr (p, refl)
deref_cases ds (slot i) = load_cases ds i

descend-fault :
    (check more : List Bytes → ℕ → Outcome (List Bytes × ℕ)) (ds : List Bytes) (entry : ℕ)
    → ((d : List Bytes) (e : ℕ) → check d e ≡ fault)
    → descend check more ds entry ≡ fault
unfolding descend
descend-fault check more ds entry h = >>=-fault (load ds entry) _ (load_cases ds entry) (λ p.
    >>=-fault (store ds entry (p ++ codes "/")) _ (store_cases ds entry (p ++ codes "/"))
      (λ d. rw (h d entry) refl))

set_dirent_cases :
    (ds : List Bytes) (entry : ℕ) (path : DirPath) (name : Bytes)
    → (set_dirent ds entry path name ≡ fault)
      ⊎ ((d : List Bytes) × (set_dirent ds entry path name ≡ ret d))
unfolding set_dirent
set_dirent_cases ds entry path name = elim (deref_cases ds path) [
  | inl e ↦ inl (rw e refl)
  | inr (p, e) ↦ rw e (store_cases ds entry (p ++ codes "/" ++ name))
]

-- When every directory can be read and its first entry is `.` with an unknown type, dirs_check with
-- subdirectories never returns: for every depth of its calls, every path and every content of
-- dirent it runs out of its array or of its stack.
pub dirs_check-dots :
    (readdir : Bytes → Option (List (Bytes × Kind))) (rest : Bytes → List (Bytes × Kind))
    → ((p : Bytes) → readdir p ≡ some ((codes ".", unknown is_dir) ∷ rest p))
    → (depth : ℕ) (path : DirPath) (dirent : List Bytes) (entry : ℕ)
    → dirs_check readdir depth true path dirent entry ≡ fault
unfolding dirs_check scan_dir
dirs_check-dots readdir rest h zero path ds entry = refl
dirs_check-dots readdir rest h (suc f) path ds entry =
    >>=-fault (deref ds path) _ (deref_cases ds path) (λ p.
      >>=-fault (store ds entry p) _ (store_cases ds entry p) (λ d. rw (h p) (
        >>=-fault (set_dirent d (entry + 1) path (codes ".")) _
          (set_dirent_cases d (entry + 1) path (codes "."))
          (λ d'.
            descend-fault _ _ d' (entry + 1)
              (λ d'' e. dirs_check-dots readdir rest h f (slot e) d'' e)))))
