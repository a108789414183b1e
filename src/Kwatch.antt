-- ===== src/Kwatch.antt =====
-- src/kwatcher.c: mkhist and transfer. The files of the libraries that it calls (regexplib, misclib's
-- lock files) are those of Conf and of the effects; `rename`, `atoll` and `malloc` are parameters.
pub mod Place
pub mod Single
pub mod Transfer
mod Tests
use jit_dt.Common.{
  ℕ, zero, suc, ◌+◌, ◌-◌, ◌%◌, Bool, true, false, not, List, [], ◌∷◌, ◌++◌, Option, none, some,
  Bytes, ltb, leb, ◌==◌, if◌then◌else◌, length, get_or, codes,
}
use jit_dt.Common.Outcome.{Outcome, ret, exited, fault, ◌>>=◌, load, store}
use jit_dt.Hist.{HistData, fname_max}
use jit_dt.LockFile.{path_max}
use jit_dt.Conf.Reader.{Conf}
use jit_dt.Conf.Match.{Exec, Copies, regex_match, sync_entry, sync_nsize}

-- `MAX_HISTORY` of kwatcher
abbrev pub max_entries : ℕ
max_entries = 5

-- The static variables of the history.
pub record Kwatch : Type 0 where
  pub history : List HistData
  pub nhist : ℕ
  pub curhistp : ℕ

pub data Effect : Type 0 where
  unlinked : Bytes → Effect
  renamed : Bytes → Bytes → Effect

-- The result of `mkhist`: the index of the entry that it returns, if any.
pub record Made : Type 0 where
  pub entry : Option ℕ
  pub state : Kwatch
  pub effects : List Effect

-- the scan of the first `n` names behind `retry`
unfoldable pub all_filled : ℕ → List (Option Bytes) → Outcome Bool
all_filled zero names = ret true
all_filled (suc n) [] = fault
all_filled (suc n) (none ∷ names) = ret false
all_filled (suc n) (some x ∷ names) = all_filled n names

-- `retry`: the file is put into the entry `p`, which becomes the current one.
unfoldable pub retry : Kwatch → ℕ → ℕ → Bytes → ℕ → Outcome Made
retry s p entpoint cp entries = do
  let here = record s { curhistp = p }
  hp ← load s.history p
  old ← load hp.fname entpoint
  elim old [
    | some x ↦ ret (record { entry = none; state = here; effects = [] })
    | none ↦ do
      names ← store hp.fname entpoint (some cp)
      history ← store s.history p (record hp { fname = names })
      full ← all_filled entries names
      ret (record {
        entry = if full then some p else none;
        state = record here { history = history };
        effects = [];
      })
  ]

-- the entry before: `curhistp == 0 ? nhist - 1 : (curhistp - 1) % nhist`; no entry with `nhist` zero
unfoldable pub previous : ℕ → ℕ → ℕ
previous nhist p = if p == 0 then nhist - 1 else (p - 1) % nhist

-- the search of a late arrival: the place of its date in the `k` entries before `p`
unfoldable pub find_late : Kwatch → ℕ → ℕ → ℕ → Outcome (Option ℕ)
find_late s dt zero p = ret none
find_late s dt (suc k) p = do
  let q = previous s.nhist p
  hp ← load s.history q
  let rest = find_late s dt k q
  if dt == hp.date then ret (some q) else rest

-- the loop over the first `n` names of an entry that is reused: the names left, the files removed
unfoldable pub reuse : Bytes → ℕ → List (Option Bytes) → List (Option Bytes) × List Effect
reuse outdir zero names = (names, [])
reuse outdir (suc n) [] = ([], [])
reuse outdir (suc n) (none ∷ names) = let (left, gone) = reuse outdir n names in (none ∷ left, gone)
reuse outdir (suc n) (some x ∷ names) =
    let (left, gone) = reuse outdir n names in (none ∷ left, unlinked (outdir ++ x) ∷ gone)

unfoldable pub vacated : Bytes → ℕ → HistData → List (Option Bytes) × List Effect
vacated outdir entries hp = if ltb 0 hp.date then reuse outdir entries hp.fname else (hp.fname, [])

-- `new entry`
unfoldable pub new_entry : Bytes → Kwatch → ℕ → ℕ → Bytes → ℕ → Outcome Made
new_entry outdir s dt entpoint cp entries =
    if s.nhist == 0
    then fault
    else let p = (s.curhistp + 1) % s.nhist in
      load s.history p >>= (λ hp.
        if dt == hp.date
        then retry s p entpoint cp entries
        else let (left, gone) = vacated outdir entries hp in
          store left entpoint (some cp) >>= (λ names.
            store s.history p (record { date = dt; fname = names }) >>= (λ history. ret (record {
              entry = none;
              state = record s { history = history; curhistp = p };
              effects = gone;
            }))))

-- `mkhist` behind the rename: the place of a file in the history
unfoldable pub place : Bytes → Kwatch → ℕ → ℕ → Bytes → ℕ → Outcome Made
place outdir s dt entpoint cp entries = do
  cur ← load s.history s.curhistp
  let again = retry s s.curhistp entpoint cp entries
  let fresh = new_entry outdir s dt entpoint cp entries
  let late =
      find_late s dt 2 s.curhistp
      >>= (λ found. elim found [ some p ↦ retry s p entpoint cp entries | none ↦ fresh ])
  if dt == cur.date then again else if ltb dt cur.date then late else fresh

-- What `mkhist` calls and reads: the configuration, the directory, the functions of libc.
pub record Env : Type 0 where
  pub regexec : Bytes → Bytes → Exec
  pub conf : List Conf
  pub synctype : List Bytes
  pub outdir : Bytes
  pub atoll : Bytes → ℕ
  pub malloc : ℕ → Bool
  pub rename : Bytes → Bytes → Bool

abbrev pub copied : Option Bytes → Bytes
copied none = []
copied (some t) = t

-- `mkhist` behind a match, with the date, the type's place and the new name
unfoldable pub mkhist_named : Env → Kwatch → Bytes → ℕ → ℕ → Bytes → Outcome Made
mkhist_named env s path dt entpoint fnam =
    let oldname = env.outdir ++ path in
    let newname = env.outdir ++ fnam in
    let entries = sync_nsize env.synctype in
    if not (env.malloc (length fnam + 1))
    then exited
    else if not (env.rename oldname newname)
    then ret (record { entry = none; state = s; effects = [] })
    else if ltb fname_max entries
    then exited
    else place env.outdir s dt entpoint fnam entries
      >>= (λ m. ret (record m { effects = renamed oldname newname ∷ m.effects }))

unfoldable pub mkhist_matched : Env → Kwatch → Bytes → Option Copies → Outcome Made
mkhist_matched env s path none = ret (record { entry = none; state = s; effects = [] })
mkhist_matched env s path (some c) = elim (sync_entry env.synctype (copied c.type)) [
  | none ↦ ret (record { entry = none; state = s; effects = unlinked (env.outdir ++ path) ∷ [] })
  | some entpoint ↦ mkhist_named env s path (env.atoll (copied c.date)) entpoint (copied c.fnam)
]

unfoldable pub mkhist : Env → Kwatch → Bytes → Outcome Made
mkhist env s path = do
  m ←
      regex_match env.regexec env.conf path
        (record { date = true; type = true; fnam = true; thrh = false })
  mkhist_matched env s path m

-- What `transfer` does to the lock file, in order.
pub data LockEvent : Type 0 where
  lock_write : Bytes → LockEvent
  unlock lock : LockEvent

-- the loop over the `n` names of a complete entry; `strcat` of a null pointer is a fault. A name comes
-- from `namebuf`, so that three of them with their separators fit `lockedf`.
unfoldable pub joined : ℕ → List (Option Bytes) → Outcome Bytes
joined zero names = ret []
joined (suc n) [] = fault
joined (suc n) (none ∷ names) = fault
joined (suc n) (some x ∷ names) = joined n names >>= λ t. ret (x ++ codes ";" ++ t)

pub record Transferred : Type 0 where
  pub state : Kwatch
  pub effects : List Effect
  pub locks : List LockEvent

unfoldable pub transfer_made : ℕ → Made → Outcome Transferred
transfer_made entries m = elim m.entry [
  | none ↦ ret (record { state = m.state; effects = m.effects; locks = [] })
  | some p ↦ do
    files ← load m.state.history p
    lockedf ← joined entries files.fname
    ret (record {
      state = m.state;
      effects = m.effects;
      locks = lock_write lockedf ∷ unlock ∷ lock ∷ [];
    })
]

-- `transfer` with what `open` and `read` give for the file that the watch reports: a name that fills
-- `namebuf` is ended behind it.
unfoldable pub transfer : Env → Kwatch → Option Bytes → Outcome Transferred
transfer env s none = ret (record { state = s; effects = []; locks = [] })
transfer env s (some namebuf) =
    if leb path_max (length namebuf)
    then fault
    else mkhist env s namebuf >>= transfer_made (sync_nsize env.synctype)
