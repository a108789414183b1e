-- ===== src/Lwatch/Loop/Arrivals.antt =====
-- What the other thread, and waking up, keep of the history.
use jit_dt.Common.{
  ℕ, ◌+◌, ◌-◌, ◌≤◌, ◌≡◌, subst, Bool, true, List, Option, none, some, Bytes, length, arith,
  Option-cases, inl, inr,
}
use jit_dt.Common.Outcome.{ret, >>=-eq-ret}
use jit_dt.Hist.{Hist, Effect, fname_max, histwait_wake}
use jit_dt.Hist.Valid.{IsValid}
use jit_dt.Hist.Take.{histput_keeps}
use jit_dt.Hist.Threads.{with_waits}
use jit_dt.Conf.Match.{Copies, sync_entry, regex_match}
use jit_dt.Conf.Lookup.{FirstAt, sync_entry-FirstAt}
use jit_dt.Kwatch.{copied}
use jit_dt.Lwatch.{Env, Server, watcher, watcher_matched, watched_name, date_and_type}
use jit_dt.Lwatch.Loop.{Wait, idle, on_entry, on_type, woken}
use jit_dt.Lwatch.Loop.Sound.{IsSound, IsKept}

watcher_matched-IsKept :
    (env : Env) (h : Hist) (fpath : Bytes) (m : Option Copies) (x : Hist × List Effect)
    → IsValid h
    → length env.synctype ≤ fname_max
    → ((n : ℕ) → env.malloc n ≡ true)
    → watcher_matched env h fpath m ≡ ret x
    → IsKept h x.0
unfolding watcher_matched
watcher_matched-IsKept env h fpath none x v hl hm e =
    let same : h ≡ x.0 = cc in subst (IsKept h) same (record { valid = v; more = λ p. p })
watcher_matched-IsKept env h fpath (some c) x v hl hm e =
    let t = copied c.type in
    elim (Option-cases (sync_entry env.synctype t)) [
      | inl n ↦
          let f = (rw (watcher_matched, n) at e) in
          let same : h ≡ x.0 = cc in subst (IsKept h) same (record { valid = v; more = λ p. p })
      | inr (tp, n) ↦
          let first = subst (FirstAt t env.synctype) n (sync_entry-FirstAt env.synctype t) in
          let f = (rw (watcher_matched, n, hm (length fpath + 1)) at e) in
          let (w, more) =
            histput_keeps (env.atoll (copied c.date)) tp fpath v (omega (arith, first.0)) f in
          record { valid = w; more = more }
    ]

pub watcher-IsKept :
    (env : Env) (h : Hist) (fpath : Bytes) (x : Hist × List Effect)
    → IsValid h
    → length env.synctype ≤ fname_max
    → ((n : ℕ) → env.malloc n ≡ true)
    → watcher env h fpath ≡ ret x
    → IsKept h x.0
unfolding watcher
watcher-IsKept env h fpath x v hl hm e =
    let (m, _, f) =
      >>=-eq-ret (regex_match env.regexec env.conf (watched_name env fpath) date_and_type) _ e in
    watcher_matched-IsKept env h fpath m x v hl hm f

pub woken-IsSound : (w : Wait) (s : Server) (up : Bool) → IsSound s up → IsSound (woken w s) up
unfolding woken histwait_wake
woken-IsSound idle s up v = v
woken-IsSound (on_entry cmd opt) s up v = record {
  valid = with_waits (s.hist.waithist - 1) s.hist.waithist2 v.valid;
  held = v.held;
}
woken-IsSound (on_type cmd opt) s up v = record {
  valid = with_waits s.hist.waithist (s.hist.waithist2 - 1) v.valid;
  held = v.held;
}
