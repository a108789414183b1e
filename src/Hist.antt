-- ===== src/Hist.antt =====
-- src/misclib.c, the history of arrived files that the watcher thread (producer) and the transfer
-- thread (consumer) of lwatcher share. One call here is one critical section of `mutex`; a call that
-- blocks on a condition variable ends the section, and its `_wake` function is the next one.
pub mod Window
pub mod Valid
pub mod Put
pub mod Take
pub mod Threads
pub mod Faults
mod Removed
mod Tests
pub use jit_dt.Common.{Bytes}
use jit_dt.Common.{
  ℕ, zero, suc, ◌+◌, ◌-◌, ◌%◌, Bool, true, false, List, [], ◌∷◌, ◌++◌, map, Option, none, some, ltb,
  leb, ◌==◌, if◌then◌else◌, ℤ, pos, negsuc, inc, dec, exceeds, replicate,
}
use jit_dt.Common.Outcome.{Outcome, ret, exited, fault, ◌>>=◌, load, store}

abbrev pub fname_max : ℕ
fname_max = 3

abbrev pub max_history : ℕ
max_history = 20

abbrev pub keep_file_count : ℕ
keep_file_count = 3

-- `date` is unsigned; a null pointer in `fname` is `none`.
pub record HistData : Type 0 where
  pub date : ℕ
  pub fname : List (Option Bytes)

pub record Hist : Type 0 where
  pub history : List HistData
  pub nhist : ℕ
  pub prodhistp : ℕ
  pub conshistp : ℕ
  pub numhist : ℤ
  pub waithist : ℕ
  pub waithist2 : ℕ

-- what a call does outside the shared state
pub data Effect : Type 0 where
  unlink : Bytes → Effect
  signal_cond signal_cond2 : Effect

abbrev pub update_pointer : ℕ → ℕ → ℕ
update_pointer n v = (v + 1) % n

abbrev pub rewind_pointer : ℕ → ℕ → ℕ
rewind_pointer n v = (if v == 0 then n else v) - 1

abbrev pub empty_data : HistData
empty_data = record { date = 0; fname = replicate fname_max none }

-- The static variables when `histinit` is called: `history` is zero, and `waithist2` too.
unfoldable pub histinit : ℕ → Hist
histinit nh = record {
  history = replicate max_history empty_data;
  nhist = if leb nh (keep_file_count + 1) then keep_file_count + 2 else nh;
  prodhistp = 0;
  conshistp = 0;
  numhist = pos 0;
  waithist = 0;
  waithist2 = 0;
}

unfoldable pub histsize : Hist → ℕ
histsize h = h.nhist

-- the loop of `_histremove` over `hp->fname`
abbrev pub unlinks : List (Option Bytes) → List Effect
unlinks [] = []
unlinks (none ∷ r) = unlinks r
unlinks (some path ∷ r) = unlink path ∷ unlinks r

abbrev pub cleared : List (Option Bytes) → List (Option Bytes)
cleared = map (λ _. none)

-- `nhist` is at least 5 after `histinit`, so the subtraction is that of C.
unfoldable pub histremove_locked : Hist → Outcome (Hist × List Effect)
histremove_locked h = do
  let conshistp = update_pointer h.nhist h.conshistp
  let rmhistp = (conshistp + h.nhist - keep_file_count) % h.nhist
  hp ← load h.history rmhistp
  history ← store h.history rmhistp (record hp { fname = cleared hp.fname })
  ret (
    record h { history = history; conshistp = conshistp; numhist = dec h.numhist },
    unlinks hp.fname,
  )

unfoldable pub histremove : Hist → Outcome (Hist × List Effect)
unfolding histremove_locked
histremove h = histremove_locked h

-- `histget` returns a pointer to an entry, here its index, or waits on `cond`.
pub data GetResult : Type 0 where
  entry : ℕ → GetResult
  waiting : Hist → GetResult

unfoldable pub histget : Hist → GetResult
histget h =
    if exceeds h.numhist 0
    then entry h.conshistp
    else waiting (record h { waithist = h.waithist + 1 })

-- after the wait: `waithist--; goto retry`
unfoldable pub histget_wake : Hist → GetResult
unfolding histget
histget_wake h = histget (record h { waithist = h.waithist - 1 })

-- `histwait` up to its wait on `cond2`, and from there on
unfoldable pub histwait : Hist → Hist
histwait h = record h { waithist2 = h.waithist2 + 1 }

unfoldable pub histwait_wake : Hist → Hist
histwait_wake h = record h { waithist2 = h.waithist2 - 1 }

abbrev pub signals : Hist → List Effect
signals h =
    (if ltb 0 h.waithist then signal_cond ∷ [] else [])
    ++ (if ltb 0 h.waithist2 then signal_cond2 ∷ [] else [])

-- `history[i].fname[tent] = cp`
unfoldable pub register : Hist → ℕ → ℕ → Bytes → Outcome Hist
register h i tent path = do
  hp ← load h.history i
  names ← store hp.fname tent (some path)
  history ← store h.history i (record hp { fname = names })
  ret (record h { history = history })

-- `history[i].date = dt`
unfoldable pub set_date : Hist → ℕ → ℕ → Outcome Hist
set_date h i dt = do
  hp ← load h.history i
  history ← store h.history i (record hp { date = dt })
  ret (record h { history = history })

-- the search of the third branch of `histput`: `k` entries from `p` backwards
unfoldable pub find_back : Hist → ℕ → ℕ → ℕ → Outcome (Option ℕ)
find_back h dt zero p = ret none
find_back h dt (suc k) p = do
  hp ← load h.history p
  let rest = find_back h dt k (rewind_pointer h.nhist p)
  if hp.date == dt then ret (some p) else rest

-- `dt > history[prodhistp].date`
unfoldable pub put_newer : Hist → ℕ → ℕ → ℕ → Bytes → Outcome (Hist × List Effect)
unfolding histremove_locked set_date register
put_newer h last dt tent path = do
  let next = if last == 0 then h.prodhistp else update_pointer h.nhist h.prodhistp
  let h1 = record h { prodhistp = next; numhist = inc h.numhist }
  (h2, removed) ←
      if exceeds h1.numhist (h.nhist - keep_file_count) then histremove_locked h1 else ret (h1, [])
  h3 ← set_date h2 next dt
  h4 ← register h3 next tent path
  ret (h4, removed ++ signals h4)

-- `dt < history[prodhistp].date`; an entry that is not found skips the signals.
unfoldable pub put_late : Hist → ℕ → ℕ → Bytes → Outcome (Hist × List Effect)
unfolding find_back register
put_late h dt tent path = do
  found ← find_back h dt (h.nhist - 1) (rewind_pointer h.nhist h.prodhistp)
  elim found [
    | none ↦ ret (h, unlink path ∷ [])
    | some i ↦ do h1 ← register h i tent path; ret (h1, signals h1)
  ]

-- `dt == history[prodhistp].date`
unfoldable pub put_same : Hist → ℕ → Bytes → Outcome (Hist × List Effect)
unfolding register
put_same h tent path = do h1 ← register h h.prodhistp tent path; ret (h1, signals h1)

-- `histput` between `pthread_mutex_lock` and `pthread_mutex_unlock`
unfoldable pub put_locked : Hist → ℕ → ℕ → Bytes → Outcome (Hist × List Effect)
put_locked h dt tent path = do
  cur ← load h.history h.prodhistp
  if dt == cur.date
      then put_same h tent path
      else if ltb cur.date dt
      then put_newer h cur.date dt tent path
      else put_late h dt tent path

-- `mem` tells whether `malloc` found memory. `dt` is the value after the conversion to unsigned.
unfoldable pub histput : Bool → Hist → Bytes → ℕ → ℤ → Outcome (Hist × List Effect)
unfolding put_locked
histput mem h path dt (negsuc t) = ret (h, [])
histput mem h path dt (pos t) =
    if ltb fname_max t then ret (h, []) else if mem then put_locked h dt t path else exited
