-- ===== src/Watch/Bounds.antt =====
-- Without subdirectories, no event makes the watch leave its arrays: their sizes, and the lengths of
-- the paths in them.
use jit_dt.Common.{ℕ, ◌<◌, All, ◌≡◌, Bool, List, ◌++◌, Bytes, length}
use jit_dt.Common.Outcome.{Outcome, ret, exited, fault, ◌>>=◌}
use jit_dt.LockFile.{path_max}
use jit_dt.Watch.{
  Watch, Env, Effect, Run, max_subdirs, max_keepdir, avpath, dirs_check, watch_all, first_dirs,
}

pub record IsValid (s : Watch) : Type 0 where
  pub dirent_size : length s.dirent ≡ max_subdirs
  pub qrmdir_size : length s.qrmdir ≡ max_keepdir
  pub curqrmd_lt : s.curqrmd < max_keepdir
  pub avail_fits : length s.avail < path_max
  pub prev_fits : length s.prevpath < path_max
  pub wdirs_fit : (i : ℕ) → length (s.wdirs i) < path_max
  pub dirent_fit : All (λ d. length d < path_max) s.dirent

-- A run ends by an exit or with a state that satisfies the predicate, never by a fault.
abbrev pub Ends : Outcome (Watch × List Effect × Bool) → Type 0
Ends (ret x) = IsValid x.0
Ends exited = Unit
Ends fault = ⊥

abbrev RunEnds : Run → Type 0
RunEnds (ret x) = IsValid x.0
RunEnds exited = Unit
RunEnds fault = ⊥

-- The rest of the handling of a directory, behind the removal of a watch.
abbrev found : Env → Bytes → Run → Outcome (Watch × List Effect × Bool)
found env p x = x >>= (λ y.
    let (s1, es) = y in
    dirs_check env.readdir env.depth env.sdirflag (avpath p) s1.dirent 0 >>= (λ z.
      let (d, n) = z in
      first_dirs d n >>= (λ ps.
        watch_all env (record s1 { dirent = d }) ps
        >>= (λ w. let (s2, fs, again) = w in ret (s2, es ++ fs, again)))))
