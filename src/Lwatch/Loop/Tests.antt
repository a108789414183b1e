-- ===== src/Lwatch/Loop/Tests.antt =====
-- A connection to lwatcher on examples.
use jit_dt.Common.{
  ℕ, ◌≡◌, refl, true, List, [], ◌∷◌, ◌++◌, none, some, Bytes, codes, map, take, drop, get_or,
  replicate, arith, ℤ, pos, negsuc, str_eq,
}
use jit_dt.Common.Outcome.{Outcome, ret, load, store}
use jit_dt.Hist.{
  HistData, Hist, empty_data, histget, histremove, histremove_locked, histput, Effect, register,
  set_date, find_back, put_newer, put_late, put_same, put_locked, histinit,
}
use jit_dt.Hist.Valid.{IsValid}
use jit_dt.Conf.Match.{
  matched, regex_match, sync_entry, sync_entry_from, find_conf, copies, copy_if, matchedcopy,
  group_at, group,
}
use jit_dt.Client.{Reading, got}
use jit_dt.Client.Get.{sum}
use jit_dt.Net.{Stream, eof, chunk, Layout, size_t, netread, recv, find_cmd, trans_getcmd}
use jit_dt.Net.Get.{joined}
use jit_dt.Lwatch.{
  Env, System, Server, Reply, opened, read, serve, cmd_open, cmd_close, watcher, watched_name,
  skip_slashes, watcher_matched,
}
use jit_dt.Lwatch.Loop.{
  Conn, Event, runs, arrives, accepts, next_command, woken, after_turn, run_command, step, steps,
}
use jit_dt.Lwatch.Loop.Kept.{ConnSound, steps-ConnSound}
use jit_dt.Lwatch.Loop.Commands.{Closed, conn, portions, steps-Closed}

abbrev file_bytes : Bytes
file_bytes = codes "twelve bytes"

abbrev read_file : Bytes → ℕ → ℕ → Reading
read_file p o n = got (take n (drop o file_bytes))

abbrev pair : HistData
pair = record { date = 10; fname = some (codes "vr10") ∷ some (codes "ze10") ∷ none ∷ [] }

abbrev one_pair : Hist
one_pair = record {
  history = pair ∷ replicate 19 empty_data;
  nhist = 5;
  prodhistp = 0;
  conshistp = 0;
  numhist = pos 1;
  waithist = 0;
  waithist2 = 0;
}

one_pair-IsValid : IsValid one_pair
one_pair-IsValid = ground arith

abbrev works : System
works = record { memory = true; sends = true }

abbrev server : Server
server = record { hist = one_pair; nsize = 2; tfd = none }

abbrev env : Env
env = record {
  regexec = λ p s. matched (none ∷ some (0, 2) ∷ some (2, 4) ∷ replicate 7 none);
  conf =
      record {
        c_area = codes "kobe";
        c_pattern = codes "x";
        c_type = codes "$2";
        c_date = codes "$1";
        c_fnam = [];
        c_thrh = [];
      }
      ∷ [];
  synctype = codes "vr" ∷ codes "ze" ∷ [];
  indir = codes "/d";
  atoll = λ b. 20;
  malloc = λ n. true;
}

abbrev word : ℤ → ℕ
word (pos n) = n
word (negsuc n) = 0

-- A layout with one byte for a number, and none for the string.
abbrev tiny : Layout
tiny = record {
  tcmd_size = 9;
  pack = λ c. c.cmd ++ (map word c.opt ++ (c.date ∷ c.len ∷ []));
  unpack = λ b. record {
    cmd = take 4 b;
    opt = map pos (take 3 (drop 4 b));
    date = get_or b 7 0;
    len = get_or b 8 0;
    str = [];
  };
}

-- OPEN of type 1, READ of 6 bytes, READ of 20, CLOSE, and a byte more
abbrev requests : Stream
requests = chunk (codes "OPEN" ++ (1 ∷ 0 ∷ 0 ∷ [])) (
    chunk (0 ∷ 0 ∷ codes "READ" ++ (6 ∷ 0 ∷ 0 ∷ 0 ∷ 0 ∷ codes "RE")) (
      chunk (codes "AD" ++ (20 ∷ 0 ∷ 0 ∷ 0 ∷ 0 ∷ codes "CLOS") ++ (0 ∷ 0 ∷ 0 ∷ 0 ∷ 0 ∷ 7 ∷ []))
        eof))

steps-Closed_example :
    Closed env read_file tiny 9
      (conn server requests)
      (replicate 4 (runs works))
      (opened (codes "ze10") ∷ map read (portions file_bytes 0 (6 ∷ 20 ∷ [])))
      (7 ∷ [])
    × (joined (portions file_bytes 0 (6 ∷ 20 ∷ [])) ≡ take (sum (6 ∷ 20 ∷ [])) file_bytes)
unfolding load
steps-Closed_example =
    steps-Closed env read_file tiny 9 works server (codes "ze10") file_bytes (7 ∷ [])
      one_pair-IsValid (omega arith) (λ o n. refl)
      (record { size = refl; size_pos = omega arith; same = refl }) 1 (6 ∷ 20 ∷ []) requests
      (record { size = refl; size_pos = omega arith; same = refl })
      (
        record { size = refl; size_pos = omega arith; same = refl },
        (record { size = refl; size_pos = omega arith; same = refl }, tt),
      )
      refl (omega arith) refl

abbrev opens_type : Conn
opens_type =
    conn (record server { hist = histinit 20 })
      (chunk (codes "OPEN" ++ (1 ∷ 0 ∷ 0 ∷ 0 ∷ 0 ∷ [])) eof)

abbrev outcome_of : Outcome (Conn × (List Reply × List Effect)) → List Reply
outcome_of (ret (c, out)) = out.0
outcome_of r = []

-- OPEN waits for the first entry.
open_waits :
    outcome_of (
      steps env read_file tiny 9 opens_type
        (runs works ∷ arrives (codes "/d//20ze") ∷ runs works ∷ []))
    ≡ opened (codes "/d//20ze") ∷ []
unfolding steps step run_command next_command woken after_turn trans_getcmd netread recv find_cmd
    str_eq serve cmd_open size_t load store histget watcher watcher_matched watched_name
    skip_slashes regex_match find_conf copies copy_if matchedcopy group_at group sync_entry histput
    put_locked put_newer put_late put_same register set_date find_back histinit sync_entry_from
open_waits = refl

abbrev out_of :
    Conn → Outcome (Conn × (List Reply × List Effect)) → Conn × (List Reply × List Effect)
out_of c (ret x) = x
out_of c r = (c, ([], []))

-- a file is open, and CLOSE arrives
abbrev closing : Conn
closing =
    conn (record server { tfd = some (codes "vr10", 3) })
      (chunk (codes "CLOS" ++ (0 ∷ 0 ∷ 0 ∷ 0 ∷ 0 ∷ [])) eof)

-- CLOSE, a file that arrives, accepts, and the next connection
abbrev events : List Event
events = runs works ∷ arrives (codes "/d//20ze") ∷ accepts eof ∷ []

steps-ConnSound_example : ConnSound (out_of closing (steps env read_file tiny 9 closing events)).0
unfolding steps step run_command next_command woken after_turn trans_getcmd netread recv find_cmd
    str_eq serve cmd_close load store histremove histremove_locked watcher watcher_matched
    watched_name skip_slashes regex_match find_conf copies copy_if matchedcopy group_at group
    sync_entry sync_entry_from histput put_locked put_newer put_late put_same register set_date
    find_back
steps-ConnSound_example =
    steps-ConnSound env read_file tiny 9 closing events
      (out_of closing (steps env read_file tiny 9 closing events))
      (record { valid = one_pair-IsValid; held = λ u k. omega arith }) (omega arith) (λ n. refl)
      (λ opt r e z. cc, λ x e. (tt, λ y e. (tt, λ z e. tt))) refl
