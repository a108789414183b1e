-- ===== src/Lwatch/Watch.antt =====
-- The watcher of lwatcher: a file that matches goes into the history under a type that it has room for.
use jit_dt.Common.{
  ℕ, ◌≤◌, ◌≡◌, refl, subst, true, List, [], ◌∷◌, Option, none, some, Bytes, length, arith, ◌+◌,
  Option-cases, inl, inr,
}
use jit_dt.Common.Outcome.{Outcome, ret}
use jit_dt.Hist.{Hist, Effect, unlink, fname_max}
use jit_dt.Hist.Valid.{IsValid}
use jit_dt.Hist.Take.{histput-IsValid}
use jit_dt.Conf.Match.{Copies, sync_entry, regex_match}
use jit_dt.Conf.Lookup.{FirstAt, sync_entry-FirstAt}
use jit_dt.Kwatch.{copied}
use jit_dt.Lwatch.{Env, watcher, watcher_matched, watched_name, date_and_type}

pub record Watched (x : Outcome (Hist × List Effect)) : Type 0 where
  pub hist : Hist
  pub effects : List Effect
  pub returned : x ≡ ret (hist, effects)
  pub valid : IsValid hist

watcher_matched-Watched :
    (env : Env) (h : Hist) (fpath : Bytes) (m : Option Copies)
    → IsValid h
    → length env.synctype ≤ fname_max
    → ((n : ℕ) → env.malloc n ≡ true)
    → Watched (watcher_matched env h fpath m)
unfolding watcher_matched
watcher_matched-Watched env h fpath none v hl hm = record {
  hist = h;
  effects = [];
  returned = refl;
  valid = v;
}
watcher_matched-Watched env h fpath (some c) v hl hm =
    let t = copied c.type in
    elim (Option-cases (sync_entry env.synctype t)) [
      | inl e ↦ record {
        hist = h;
        effects = unlink fpath ∷ [];
        returned = rw (watcher_matched, e) refl;
        valid = v;
      }
      | inr (tp, e) ↦
          let first = subst (FirstAt t env.synctype) e (sync_entry-FirstAt env.synctype t) in
          let (r, es, put, w, _) =
            histput-IsValid (env.atoll (copied c.date)) tp fpath v (omega (arith, first.0)) in
          record {
            hist = r;
            effects = es;
            returned = rw (watcher_matched, e, hm (length fpath + 1), put) refl;
            valid = w;
          }
    ]

-- For a configuration of at most 3 types whose match of the file's name ends, and with memory, the
-- watcher of lwatcher returns with no access outside the history, and a well-formed history stays
-- well formed.
pub watcher-Watched :
    (env : Env) (h : Hist) (fpath : Bytes) {m : Option Copies}
    → IsValid h
    → length env.synctype ≤ fname_max
    → ((n : ℕ) → env.malloc n ≡ true)
    → regex_match env.regexec env.conf (watched_name env fpath) date_and_type ≡ ret m
    → Watched (watcher env h fpath)
unfolding watcher
watcher-Watched env h fpath {m} v hl hm e =
    rw (watcher, e) (watcher_matched-Watched env h fpath m v hl hm)
