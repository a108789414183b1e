-- ===== src/Watch/Tests.antt =====
-- The watch on concrete inputs, and the theorems at inputs that meet their hypotheses.
use jit_dt.Common.{
  ℕ, ◌+◌, ◌≡◌, ◌≢◌, refl, true, false, List, [], ◌∷◌, ◌++◌, Option, none, some, Bytes, codes,
  str_eq, replicate, map, pos, arith, if◌then◌else◌,
}
use jit_dt.Common.Outcome.{Outcome, ret, fault, load, store}
use jit_dt.Watch.{
  is_dir, is_file, Kind, unknown, dir, other, avpath, deref, set_dirent, scan_dir, descend,
  dirs_check, Watch, Env, Event, Effect, called, added, removed, handle, on_stat, on_dir, on_file,
  first_dirs, watch_all, watch_formatted, watch_dir, fformat, getwdir, wdir_index, rm_watch,
  read_events,
}
use jit_dt.Watch.Keep.{rm_all, rm_watch_delay}
use jit_dt.Watch.Call.{IsAbout, read_events_once}
use jit_dt.Watch.Dots.{dirs_check-dots}

-- A watch of `/w/`, whose descriptor is 1.
abbrev watching : Watch
watching = record {
  wdirs = λ i. codes "/w/";
  curdir = 1;
  dirent = replicate 60 [];
  avail = [];
  prevpath = [];
  qrmdir = replicate 10 0;
  curqrmd = 0;
  calls = 1;
}

abbrev env : Env
env = record {
  topdir = codes "/w/";
  sdirflag = false;
  depth = 1;
  stat = λ p. if str_eq p (codes "/w/d") then is_dir else is_file;
  readdir = λ p. none;
  func = λ p. 1;
  answer = λ n. some (2 + n);
}

abbrev closed : Bytes → Event
closed n = record {
  wd = pos 1;
  ignored = false;
  create = false;
  close_write = true;
  moved_to = false;
  name = n;
}

abbrev created : Bytes → Event
created n = record (closed n) { create = true; close_write = false }

abbrev effects_of : Outcome (Watch × List Effect) → List Effect
effects_of (ret x) = x.1
effects_of _ = []

-- A directory, a file in two writes, a hidden file.
some_events :
    effects_of (
      read_events watching (
        (env, created (codes "d"))
        ∷ (env, created (codes "f"))
        ∷ (env, closed (codes "f"))
        ∷ (env, closed (codes "f"))
        ∷ (env, closed (codes ".f"))
        ∷ []))
    ≡ added (codes "/w/d") ∷ called (codes "/w/f") ∷ []
unfolding read_events handle on_stat on_dir on_file first_dirs watch_all watch_formatted watch_dir
    fformat getwdir wdir_index dirs_check deref load store str_eq rm_watch
some_events = refl

f_path : (s : Watch) → s.wdirs ≡ (λ i. codes "/w/") → getwdir s (pos 1) ++ codes "f" ≡ codes "/w/f"
unfolding getwdir wdir_index
f_path s e = rw e refl

f_stat : env.stat (codes "/w/f") ≡ is_file
unfolding str_eq
f_stat = refl

created-IsAbout : IsAbout (λ i. codes "/w/") (codes "/w/f") (env, created (codes "f"))
created-IsAbout = record {
  not_ignored = refl;
  path_eq = f_path;
  shown = refl;
  exists = f_stat;
  noted = refl;
}

closed-IsAbout : IsAbout (λ i. codes "/w/") (codes "/w/f") (env, closed (codes "f"))
closed-IsAbout = record {
  not_ignored = refl;
  path_eq = f_path;
  shown = refl;
  exists = f_stat;
  noted = refl;
}

f_new : watching.prevpath ≢ codes "/w/f"
f_new e = cc

read_events_once_example :
    (r : Watch) × (read_events watching
        ((env, created (codes "f")) ∷ (env, closed (codes "f")) ∷ (env, closed (codes "f")) ∷ [])
      ≡ ret (r, called (codes "/w/f") ∷ []))
    × (r.prevpath ≡ codes "/w/f")
read_events_once_example =
    read_events_once (λ i. codes "/w/") (codes "/w/f")
      ((env, created (codes "f")) ∷ (env, closed (codes "f")) ∷ (env, closed (codes "f")) ∷ [])
      watching refl f_new (created-IsAbout, (closed-IsAbout, (closed-IsAbout, tt))) refl

abbrev twelve : List ℕ
twelve = 1 ∷ 2 ∷ 3 ∷ 4 ∷ 5 ∷ 6 ∷ 7 ∷ 8 ∷ 9 ∷ 10 ∷ 11 ∷ 12 ∷ []

rm_watch_delay_example : (r : Watch) × (rm_all watching twelve ≡ ret (r, map removed (1 ∷ 2 ∷ [])))
rm_watch_delay_example = rm_watch_delay watching twelve refl refl (omega arith)

abbrev dotted : Bytes → Option (List (Bytes × Kind))
dotted p = some ((codes ".", unknown is_dir) ∷ (codes "..", unknown is_dir) ∷ [])

dirs_check-dots_example :
    dirs_check dotted 100000 true (avpath (codes "/w/d")) (replicate 60 []) 0 ≡ fault
dirs_check-dots_example =
    dirs_check-dots dotted (λ p. (codes "..", unknown is_dir) ∷ []) (λ p. refl) 100000
      (avpath (codes "/w/d")) (replicate 60 []) 0

abbrev listing : Bytes → Option (List (Bytes × Kind))
listing p =
    if str_eq p (codes "/w/d") then some ((codes ".", dir) ∷ (codes "s", dir) ∷ []) else some []

-- A plain file behind a subdirectory: the place where it stands in the list is not set for it.
abbrev with_file : Bytes → Option (List (Bytes × Kind))
with_file p = if str_eq p (codes "/w/d") then some ((codes "f", other) ∷ []) else some []

subdirs :
    dirs_check listing 5 true (avpath (codes "/w/d")) (replicate 60 []) 0
    ≡ ret (codes "/w/d" ∷ codes "/w/d/s/" ∷ replicate 58 [], 2)
unfolding dirs_check scan_dir descend set_dirent deref load store str_eq
subdirs = refl

root_watched :
    dirs_check with_file 5 true (avpath (codes "/w/d")) (replicate 60 []) 0
    ≡ ret (codes "/w/d" ∷ codes "/" ∷ replicate 58 [], 2)
unfolding dirs_check scan_dir descend set_dirent deref load store str_eq
root_watched = refl
