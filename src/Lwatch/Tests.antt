-- ===== src/Lwatch/Tests.antt =====
-- lwatcher on concrete inputs, and the theorems at inputs that meet their hypotheses.
use jit_dt.Common.{
  ℕ, ◌-◌, ◌≡◌, refl, true, List, [], ◌∷◌, ◌++◌, map, length, drop, get_or, negsuc, Option, none,
  some, Bytes, codes, str_eq, take, replicate, pos, ℤ, arith,
}
use jit_dt.Common.Outcome.{ret, fault, load}
use jit_dt.Hist.{HistData, Hist, empty_data, histget}
use jit_dt.Hist.Valid.{IsValid}
use jit_dt.Conf.Reader.{Conf}
use jit_dt.Conf.Match.{
  Exec, matched, regex_match, find_conf, copies, copy_if, matchedcopy, group_at, group, Copies,
}
use jit_dt.Client.{Reading, got}
use jit_dt.Net.{size_t}
use jit_dt.Lwatch.{
  Env, watcher, watched_name, skip_slashes, date_and_type, cmd_get, all_there, asked, collect, cut,
  System, total, fitting,
}
use jit_dt.LockFile.{c_str}
use jit_dt.Net.{
  Stream, eof, chunk, Layout, TransCmd, request, request_bytes, netwrite, jitget, fetch,
  trans_replyget,
}
use jit_dt.Net.Read
use jit_dt.Net.Request.{Packs, asks}
use jit_dt.Net.Get.{announced, answers}
use jit_dt.Lwatch.Session.{reply_bytes, retval_ints, reply_of, Session, jitget-serve}
use jit_dt.Lwatch.Watch.{Watched, watcher-Watched}
use jit_dt.Lwatch.Serve.{Answered, AllRead, cmd_get-Answered}

abbrev pair : HistData
pair = record { date = 10; fname = some (codes "vr10") ∷ some (codes "ze10") ∷ none ∷ [] }

abbrev one_pair : Hist
one_pair = record {
  history = pair ∷ replicate 19 empty_data;
  nhist = 5;
  prodhistp = 0;
  conshistp = 0;
  numhist = pos 1;
  waithist = 0;
  waithist2 = 0;
}

one_pair-IsValid : IsValid one_pair
one_pair-IsValid = ground arith

-- Every file holds its own name.
abbrev echo : Bytes → ℕ → ℕ → Reading
echo p off n = got (take n p)

abbrev sizes : List ℤ
sizes = pos 2 ∷ pos 9 ∷ pos 0 ∷ []

sizes-AllRead :
    AllRead echo (codes "vr10" ∷ codes "ze10" ∷ []) sizes (codes "vr" ∷ codes "ze10" ∷ [])
unfolding size_t
sizes-AllRead = (omega arith, refl, omega arith, (omega arith, refl, omega arith, refl))

cmd_get-Answered_example :
    Answered echo one_pair none
      (codes "vr10")
      (codes "ze10" ∷ [])
      sizes
      (codes "vr" ∷ codes "ze10" ∷ [])
cmd_get-Answered_example =
    cmd_get-Answered echo one_pair none (codes "vr10") (codes "ze10" ∷ []) (none ∷ []) sizes
      (codes "vr" ∷ codes "ze10" ∷ []) one_pair-IsValid (omega arith) refl sizes-AllRead
      (omega arith) (omega arith)

abbrev works : System
works = record { memory = true; sends = true }

-- A request whose first size is 0: the byte before the names is overwritten.
no_size :
    cmd_get echo works
      (record { hist = one_pair; nsize = 2; tfd = none })
      (pos 0 ∷ pos 0 ∷ pos 0 ∷ [])
    ≡ fault
unfolding cmd_get histget load all_there asked total collect fitting size_t cut
no_size = refl

abbrev region : Conf
region = record {
  c_area = codes "kobe";
  c_pattern = codes "x";
  c_type = codes "$2";
  c_date = codes "$1";
  c_fnam = [];
  c_thrh = [];
}

-- A matcher with fixed groups.
abbrev fixed : Bytes → Bytes → Exec
fixed p s = matched (none ∷ some (0, 2) ∷ some (2, 4) ∷ replicate 7 none)

abbrev env : Env
env = record {
  regexec = fixed;
  conf = region ∷ [];
  synctype = codes "vr" ∷ codes "ze" ∷ [];
  indir = codes "/d";
  atoll = λ b. 20;
  malloc = λ n. true;
}

abbrev matched_file : Option Copies
matched_file =
    some (record { date = some (codes "20"); type = some (codes "ze"); fnam = none; thrh = none })

file_matches :
    regex_match env.regexec env.conf (watched_name env (codes "/d//20ze")) date_and_type
    ≡ ret matched_file
unfolding regex_match find_conf copies copy_if matchedcopy group_at group watched_name skip_slashes
    load str_eq
file_matches = refl

ze-Watched : Watched (watcher env one_pair (codes "/d//20ze"))
ze-Watched =
    watcher-Watched env one_pair (codes "/d//20ze") one_pair-IsValid (omega arith) (λ n. refl)
      file_matches

abbrev word : ℤ → ℕ
word (pos n) = n
word (negsuc n) = 0

-- A layout with one byte for a number, and room for a string of 12 bytes that ends with a null byte.
abbrev tiny : Layout
tiny = record {
  tcmd_size = 21;
  pack = λ c.
      c.cmd ++ (map word c.opt ++ (c.date ∷ c.len ∷ (c.str ++ replicate (12 - length c.str) 0)));
  unpack = λ b. record {
    cmd = take 4 b;
    opt = map pos (take 3 (drop 4 b));
    date = get_or b 7 0;
    len = get_or b 8 0;
    str = c_str (drop 9 b);
  };
}

abbrev unset_cmd : TransCmd
unset_cmd = record { cmd = []; opt = []; date = 0; str = []; len = 0 }

abbrev junk : List ℤ
junk = pos 71 ∷ pos 72 ∷ pos 73 ∷ []

abbrev asks_two : Stream
asks_two = chunk (codes "GE") (chunk (codes "T0" ++ (2 ∷ 9 ∷ 0 ∷ 0 ∷ 0 ∷ []) ++ replicate 12 0) eof)

abbrev two_files : Stream
two_files =
    chunk (codes "REPL" ++ (2 ∷ 4 ∷ 73 ∷ 10 ∷ 6 ∷ codes "vr10;ze10"))
      (chunk (0 ∷ 0 ∷ 0 ∷ codes "vrz") (chunk (codes "e10") eof))

request_sent : (netwrite (some 40 ∷ []) (request_bytes tiny 3 (request (2 ∷ 9 ∷ [])))).1 ≡ true
unfolding netwrite request_bytes
request_sent = refl

request_arrives :
    Read.pending asks_two ≡ (jitget tiny 9 (some 40 ∷ []) two_files (2 ∷ 9 ∷ [])).0 ++ []
unfolding jitget fetch netwrite request_bytes
request_arrives = refl

reply_arrives :
    Read.pending two_files
    ≡ reply_bytes tiny unset_cmd junk
        (reply_of echo one_pair (codes "vr10;ze10") (codes "vr" ∷ codes "ze10" ∷ []))
      ++ []
unfolding reply_bytes retval_ints trans_replyget
reply_arrives = refl

asks-Packs : Packs tiny (asks 3 (request (2 ∷ 9 ∷ [])))
unfolding c_str
asks-Packs = record { size = refl; size_pos = omega arith; same = refl }

answers-Packs :
    Packs tiny (
      answers 10
        (codes "vr10;ze10")
        (announced (codes "vr" ∷ codes "ze10" ∷ []) ++ (pos 73 ∷ []))
        6)
unfolding c_str
answers-Packs = record { size = refl; size_pos = omega arith; same = refl }

jitget-serve_example :
    Session tiny 9 9
      (some 40 ∷ [])
      asks_two
      two_files
      echo
      one_pair
      none
      (2 ∷ 9 ∷ [])
      (codes "vr10;ze10")
      []
      (codes "vr" ∷ codes "ze10" ∷ [])
jitget-serve_example =
    jitget-serve tiny 9 9 (some 40 ∷ []) asks_two two_files echo one_pair none (codes "vr10")
      (codes "ze10" ∷ []) (none ∷ []) (2 ∷ 9 ∷ []) (codes "vr10;ze10") [] []
      (codes "vr" ∷ codes "ze10" ∷ []) unset_cmd junk one_pair-IsValid (omega arith) refl refl
      sizes-AllRead (omega arith) (omega arith) (omega arith) refl (omega arith) refl asks-Packs
      answers-Packs request_sent (omega arith) request_arrives (omega arith) reply_arrives
