-- ===== src/Watch.antt =====
-- src/inotifylib2.c: the watch of a directory tree. inotify, stat, readdir and the function that is
-- called for a file are parameters; what is asked of inotify and the calls are listed as effects.
pub mod Keep
pub mod Bounds
pub mod Call
pub mod Dots
mod Tests
use jit_dt.Common.{
  ℕ, zero, suc, ◌+◌, ◌-◌, ◌%◌, ◌^◌, Bool, true, false, not, ◌&&◌, ◌||◌, List, [], ◌∷◌, ◌++◌, Option,
  none, some, Bytes, codes, str_eq, ltb, ◌==◌, if◌then◌else◌, length, drop, replicate, ℤ, pos,
  negsuc,
}
use jit_dt.Common.Outcome.{Outcome, ret, exited, fault, ◌>>=◌, load, store}

abbrev pub max_dirs : ℕ
max_dirs = 2881

abbrev pub max_subdirs : ℕ
max_subdirs = 60

abbrev pub max_keepdir : ℕ
max_keepdir = 10

-- what `stat` gives for a path
pub data Stat : Type 0 where
  gone is_dir is_file : Stat

-- `d_type` of an entry, an unknown one with what `stat` gives for it
pub data Kind : Type 0 where
  dir other : Kind
  unknown : Stat → Kind

-- The variable `path` of `dirs_check`: the caller's `avpath`, or an element of `dirent`.
pub data DirPath : Type 0 where
  avpath : Bytes → DirPath
  slot : ℕ → DirPath

unfoldable pub deref : List Bytes → DirPath → Outcome Bytes
deref dirent (avpath p) = ret p
deref dirent (slot i) = load dirent i

abbrev pub is_dot : Bytes → Bool
is_dot name = str_eq name (codes ".") || str_eq name (codes "..")

-- The end of the loop's body: the directory at `dirent[entry]` is looked into, by `check`, and the
-- loop goes on, by `more`.
unfoldable pub descend :
    (List Bytes → ℕ → Outcome (List Bytes × ℕ))
    → (List Bytes → ℕ → Outcome (List Bytes × ℕ))
    → List Bytes
    → ℕ
    → Outcome (List Bytes × ℕ)
descend check more dirent entry = do
  p ← load dirent entry
  d ← store dirent entry (p ++ codes "/")
  (d', entry') ← check d entry
  more d' entry'

-- `dirent[entry] = path/name`
unfoldable pub set_dirent : List Bytes → ℕ → DirPath → Bytes → Outcome (List Bytes)
set_dirent dirent entry path name = do
  p ← deref dirent path
  store dirent entry (p ++ codes "/" ++ name)

-- the loop of `dirs_check` over the entries of a directory
unfoldable pub scan_dir :
    (List Bytes → ℕ → Outcome (List Bytes × ℕ))
    → DirPath
    → List (Bytes × Kind)
    → List Bytes
    → ℕ
    → Outcome (List Bytes × ℕ)
scan_dir check path [] dirent entry = ret (dirent, entry)
scan_dir check path ((name, unknown is_dir) ∷ es) dirent entry =
    set_dirent dirent entry path name >>= (λ d. descend check (scan_dir check path es) d entry)
scan_dir check path ((name, unknown gone) ∷ es) dirent entry =
    set_dirent dirent entry path name >>= (λ d. scan_dir check path es d entry)
scan_dir check path ((name, unknown is_file) ∷ es) dirent entry =
    set_dirent dirent entry path name >>= (λ d. scan_dir check path es d entry)
scan_dir check path ((name, dir) ∷ es) dirent entry =
    let skipped = scan_dir check path es dirent entry in
    if is_dot name
    then skipped
    else set_dirent dirent entry path name >>= (λ d. descend check (scan_dir check path es) d entry)
scan_dir check path ((name, other) ∷ es) dirent entry =
    descend check (scan_dir check path es) dirent entry

-- `dirs_check` with fuel for its depth, beyond which the stack of the process overflows: `dirent` and
-- the number of its entries.
unfoldable pub dirs_check :
    (Bytes → Option (List (Bytes × Kind)))
    → ℕ
    → Bool
    → DirPath
    → List Bytes
    → ℕ
    → Outcome (List Bytes × ℕ)
dirs_check readdir zero sdir path dirent entry = fault
dirs_check readdir (suc f) sdir path dirent entry = do
  p ← deref dirent path
  d ← store dirent entry p
  if not sdir then ret (d, entry + 1) else elim (readdir p) [
    | none ↦ ret (d, 0)
    | some es ↦ scan_dir (λ d' e. dirs_check readdir f true (slot e) d' e) path es d (entry + 1)
  ]

-- The global variables, with the local `curdir`. `wdirs` is given by its elements. `calls` counts
-- the calls of inotify_add_watch.
pub record Watch : Type 0 where
  pub wdirs : ℕ → Bytes
  pub curdir : ℕ
  pub dirent : List Bytes
  pub avail : Bytes
  pub prevpath : Bytes
  pub qrmdir : List ℕ
  pub curqrmd : ℕ
  pub calls : ℕ

pub data Effect : Type 0 where
  added called : Bytes → Effect
  removed : ℕ → Effect

abbrev pub Run : Type 0
Run = Outcome (Watch × List Effect)

-- the index of `getwdir`
unfoldable pub wdir_index : ℤ → ℕ
wdir_index (pos n) = n % max_dirs
wdir_index (negsuc n) = (2 ^ 32 - 1 - n) % max_dirs

unfoldable pub getwdir : Watch → ℤ → Bytes
getwdir s curid = s.wdirs (wdir_index curid)

abbrev pub set_wdir : Watch → ℕ → Bytes → Watch
set_wdir s wd p =
    let i = wdir_index (pos wd) in record s { wdirs = λ j. if j == i then p else s.wdirs j }

abbrev pub ends_slash : Bytes → Bool
ends_slash [] = false
ends_slash (c ∷ []) = c == b'/'
ends_slash (c ∷ d ∷ r) = ends_slash (d ∷ r)

-- `fformat`: on an empty path it reads the byte before it.
unfoldable pub fformat : Bytes → Outcome Bytes
fformat [] = fault
fformat (c ∷ r) = ret (if ends_slash (c ∷ r) then c ∷ r else (c ∷ r) ++ codes "/")

-- the loop of `reset_watch`
unfoldable pub kept : List ℕ → List Effect
kept [] = []
kept (wd ∷ q) = let rest = kept q in if ltb 0 wd then removed wd ∷ rest else rest

unfoldable pub reset_watch : Watch → Watch × List Effect
reset_watch s = (record s { curqrmd = 0 }, kept s.qrmdir)

-- `rm_watch`
unfoldable pub rm_watch : Watch → ℕ → Run
rm_watch s wd = do
  old ← load s.qrmdir s.curqrmd
  q ← store s.qrmdir s.curqrmd wd
  ret (
    record s { qrmdir = q; curqrmd = (s.curqrmd + 1) % max_keepdir },
    if ltb 0 old then removed old ∷ [] else [],
  )

-- What surrounds the handling of one event.
pub record Env : Type 0 where
  pub topdir : Bytes
  pub sdirflag : Bool
  pub depth : ℕ
  pub stat : Bytes → Stat
  pub readdir : Bytes → Option (List (Bytes × Kind))
  pub func : Bytes → ℕ
  pub answer : ℕ → Option ℕ

-- `curdir = add_watch(...)`, which exits on an error, and the path of the new descriptor
unfoldable pub watch_dir : Env → Watch → Bytes → Bytes → Run
watch_dir env s asked p = elim (env.answer s.calls) [
  | none ↦ exited
  | some wd ↦ ret (set_wdir (record s { curdir = wd; calls = s.calls + 1 }) wd p, added asked ∷ [])
]

-- `strcpy` and `fformat` behind the call
unfoldable pub watch_formatted : Env → Watch → Bytes → Run
watch_formatted env s p = fformat p >>= λ q. watch_dir env s p q

-- The loop over the directories that `dirs_check` has found; `true` for `goto resetting`.
unfoldable pub watch_all : Env → Watch → List Bytes → Outcome (Watch × List Effect × Bool)
watch_all env s [] = ret (s, [], false)
watch_all env s (p ∷ ps) =
    if ltb (max_dirs - 1) s.curdir
    then ret (s, [], true)
    else watch_formatted env s p >>= (λ x.
      let (s1, es) = x in
      watch_all env s1 ps >>= (λ y. let (s2, fs, again) = y in ret (s2, es ++ fs, again)))

-- `struct inotify_event`, with the bits of `mask` that are looked at
pub record Event : Type 0 where
  pub wd : ℤ
  pub ignored : Bool
  pub create : Bool
  pub close_write : Bool
  pub moved_to : Bool
  pub name : Bytes

abbrev pub is_curdir : ℤ → ℕ → Bool
is_curdir (pos n) d = n == d
is_curdir (negsuc n) d = false

-- the first `n` elements of `dirent`
unfoldable pub first_dirs : List Bytes → ℕ → Outcome (List Bytes)
first_dirs ds zero = ret []
first_dirs [] (suc n) = fault
first_dirs (d ∷ ds) (suc n) = first_dirs ds n >>= λ r. ret (d ∷ r)

-- a directory has been created
unfoldable pub on_dir : Env → Watch → ℤ → Bytes → Outcome (Watch × List Effect × Bool)
on_dir env s wd path = do
  (s1, es) ← if is_curdir wd s.curdir then ret (s, []) else rm_watch s s.curdir
  (d, n) ← dirs_check env.readdir env.depth env.sdirflag (avpath path) s1.dirent 0
  ps ← first_dirs d n
  (s2, fs, again) ← watch_all env (record s1 { dirent = d }) ps
  ret (s2, es ++ fs, again)

abbrev pub is_hidden : Bytes → Bool
is_hidden [] = false
is_hidden (c ∷ r) = c == b'.'

-- whether `func` is called for a file
abbrev pub is_ready : Watch → Event → Bytes → Bool
is_ready s ev path =
    (ev.close_write || ev.moved_to) && (not (is_hidden ev.name) && not (str_eq s.prevpath path))

unfoldable pub on_file : Env → Watch → Event → Bytes → Watch × List Effect
on_file env s ev path =
    if is_ready s ev path
    then (record s { prevpath = if env.func path == 1 then path else [] }, called path ∷ [])
    else (s, [])

unfoldable pub on_stat : Env → Watch → Event → Bytes → Stat → Outcome (Watch × List Effect × Bool)
on_stat env s ev path gone = ret (s, [], false)
on_stat env s ev path is_dir = if ev.create then on_dir env s ev.wd path else ret (s, [], false)
on_stat env s ev path is_file = let (s1, es) = on_file env s ev path in ret (s1, es, false)

-- one turn of the loop over the events of a read
unfoldable pub handle : Env → Watch → Event → Outcome (Watch × List Effect × Bool)
handle env s ev =
    if ev.ignored
    then ret (s, [], false)
    else let path = getwdir s ev.wd ++ ev.name in
      on_stat env (record s { avail = path }) ev path (env.stat path)

-- the pieces of a path that end in `/`
unfoldable pub components : Bytes → Bytes → List Bytes
components part [] = []
components part (c ∷ r) =
    let next = components [] r in
    let more = components (part ++ (c ∷ [])) r in if c == b'/' then part ∷ next else more

-- the loop over the starting directory
unfoldable pub start_in : Env → Watch → List Bytes → Run
start_in env s [] = ret (s, [])
start_in env s (sp ∷ sps) = do
  let p = getwdir s (pos s.curdir) ++ sp
  (s1, es) ← watch_formatted env (record s { avail = p }) p
  (s2, fs) ← start_in env s1 sps
  ret (s2, es ++ fs)

-- `mynotify` up to its loop; `none` for no starting directory
unfoldable pub start : Env → Watch → Option Bytes → Run
start env s startdir = do
  let (s0, rs) = reset_watch s
  (s1, es) ← watch_dir env s0 env.topdir env.topdir
  dirs ← elim startdir [ none ↦ ret [] | some d ↦ fformat d >>= λ p. ret (components [] p) ]
  (s2, fs) ← start_in env s1 dirs
  ret (s2, rs ++ es ++ fs)

-- The events of one read, each with what surrounds it. With `resetting` those that are left are lost,
-- and the watch starts again in the directory of the last path.
unfoldable pub read_events : Watch → List (Env × Event) → Run
read_events s [] = ret (s, [])
read_events s ((env, ev) ∷ evs) = handle env s ev >>= (λ x.
    let (s1, es, again) = x in
    let rest = read_events s1 evs in
    (if again then start env s1 (some (drop (length env.topdir) s1.avail)) else rest)
    >>= (λ y. let (s2, fs) = y in ret (s2, es ++ fs)))

-- the reads of the loop over `select`
unfoldable pub watch_reads : Watch → List (List (Env × Event)) → Run
watch_reads s [] = ret (s, [])
watch_reads s (r ∷ rs) = do
  (s1, es) ← read_events s r
  (s2, fs) ← watch_reads s1 rs
  ret (s2, es ++ fs)
