-- ===== src/Lwatch.antt =====
-- src/lwatcher.c: watcher, which puts arriving files into the history, and transfer, which serves the
-- commands of a client. The history is that of Hist; regex_match and sync_entry are those of
-- Conf/Match. Files, `atoll`, `malloc` and the result of sending are parameters; a wait of histget or
-- histwait ends a turn, which starts again with the same command.
pub mod Watch
pub mod Serve
pub mod Session
pub mod Loop
mod Tests
use jit_dt.Common.{
  ℕ, zero, suc, ◌+◌, ◌-◌, ◌^◌, Bool, true, false, not, ◌&&◌, ltb, leb, List, [], ◌∷◌, ◌++◌, Option,
  none, some, Bytes, codes, ◌==◌, if◌then◌else◌, length, take, drop, get_or, ℤ, pos, negsuc,
}
use jit_dt.Common.Outcome.{Outcome, ret, exited, fault, ◌>>=◌, load}
use jit_dt.Hist.{Hist, Effect, unlink, histput, histget, histwait, histremove, entry, waiting}
use jit_dt.Conf.Reader.{Conf}
use jit_dt.Conf.Match.{Exec, Copies, Wanted, regex_match, sync_entry}
use jit_dt.Client.{Reading, unopened, failed, got}
use jit_dt.Kwatch.{copied}
use jit_dt.Net.{size_t}

pub record Env : Type 0 where
  pub regexec : Bytes → Bytes → Exec
  pub conf : List Conf
  pub synctype : List Bytes
  pub indir : Bytes
  pub atoll : Bytes → ℕ
  pub malloc : ℕ → Bool

-- `while (fpath[idx] == '/') idx++`
unfoldable pub skip_slashes : Bytes → Bytes
skip_slashes [] = []
skip_slashes (c ∷ r) = let rest = skip_slashes r in if c == b'/' then rest else c ∷ r

unfoldable pub watcher_matched : Env → Hist → Bytes → Option Copies → Outcome (Hist × List Effect)
watcher_matched env h fpath none = ret (h, [])
watcher_matched env h fpath (some c) = elim (sync_entry env.synctype (copied c.type)) [
  | none ↦ ret (h, unlink fpath ∷ [])
  | some tp ↦ histput (env.malloc (length fpath + 1)) h fpath (env.atoll (copied c.date)) (pos tp)
]

abbrev pub date_and_type : Wanted
date_and_type = record { date = true; type = true; fnam = false; thrh = false }

-- the name that is matched
unfoldable pub watched_name : Env → Bytes → Bytes
watched_name env fpath = take 1023 (skip_slashes (drop (length env.indir) fpath))

unfoldable pub watcher : Env → Hist → Bytes → Outcome (Hist × List Effect)
watcher env h fpath = do
  m ← regex_match env.regexec env.conf (watched_name env fpath) date_and_type
  watcher_matched env h fpath m

-- The variables of `transfer`: the open file with the place in it, and the number of types.
pub record Server : Type 0 where
  pub hist : Hist
  pub nsize : ℕ
  pub tfd : Option (Bytes × ℕ)

-- A size in the reply to GET that nothing has set is `none`.
pub data Reply : Type 0 where
  opened read : Bytes → Reply
  files : ℕ → Bytes → Bytes → List (Option ℤ) → Reply

-- A turn is served, with `connected` for a connection that stays, or waits in histget or histwait.
pub data Turn : Type 0 where
  served : Server → Option Reply → List Effect → Bool → Turn
  waits waits_type : Hist → Turn

-- `open` in OPEN
abbrev pub descriptor : Bytes → Reading → Option (Bytes × ℕ)
descriptor name unopened = none
descriptor name _ = some (name, 0)

-- whether none of the first `n` names is missing
unfoldable pub all_there : ℕ → List (Option Bytes) → Outcome Bool
all_there zero names = ret true
all_there (suc n) [] = fault
all_there (suc n) (none ∷ names) = ret false
all_there (suc n) (some x ∷ names) = all_there n names

abbrev pub is_zero : ℤ → Bool
is_zero (pos n) = n == 0
is_zero (negsuc n) = false

-- `nsize` behind the loop that adds up the sizes of a request
unfoldable pub asked : ℕ → List ℤ → Outcome ℕ
asked zero opt = ret 0
asked (suc n) [] = fault
asked (suc n) (o ∷ opt) =
    let rest = asked n opt in if is_zero o then ret 0 else rest >>= λ k. ret (suc k)

infixl 6 ◌+ℤ◌
abbrev pub ◌+ℤ◌ : ℤ → ℤ → ℤ
pos a +ℤ pos b = pos (a + b)
pos a +ℤ negsuc b = if ltb b a then pos (a - suc b) else negsuc (b - a)
negsuc a +ℤ pos b = if ltb a b then pos (b - suc a) else negsuc (a - b)
negsuc a +ℤ negsuc b = negsuc (suc (a + b))

abbrev pub is_int : ℤ → Bool
is_int (pos n) = ltb n (2 ^ 31)
is_int (negsuc n) = ltb n (2 ^ 31)

-- `totsz` behind that loop, from `t` on; a sum that is no `int` is undefined.
unfoldable pub total : ℕ → List ℤ → ℤ → Outcome ℤ
total zero opt t = ret t
total (suc n) [] t = fault
total (suc n) (o ∷ opt) t = elim (is_int (t +ℤ o)) [ true ↦ total n opt (t +ℤ o) | false ↦ fault ]

-- `tmpstr`, `cp` and `retval` of a reply
pub record Collected : Type 0 where
  pub tmpstr : Bytes
  pub data_read : Bytes
  pub retval : List (Option ℤ)

abbrev pub nothing : Collected
nothing = record { tmpstr = []; data_read = []; retval = [] }

abbrev pub with_file : Bytes → Bytes → Collected → Collected
with_file x b c = record {
  tmpstr = x ++ codes ";" ++ c.tmpstr;
  data_read = b ++ c.data_read;
  retval = some (pos (length b)) ∷ c.retval;
}

-- What the system answers in GET: whether malloc gives memory, and whether the reply can be sent.
pub record System : Type 0 where
  pub memory : Bool
  pub sends : Bool

-- The names with their null byte stand in the 256 bytes of `tmpstr`, and the data in the bytes from
-- malloc.
unfoldable pub fitting : ℤ → Collected → Outcome Collected
fitting t c =
    if leb (length c.tmpstr) 255 && leb (length c.data_read) (size_t t) then ret c else fault

module _ (read_at : Bytes → ℕ → ℕ → Reading) where
  -- The loop that reads the files. A read that fails takes 1 off the size of the data, whose bytes
  -- are then sent, or the next ones stored, from outside the buffer.
  unfoldable pub collect : ℕ → List (Option Bytes) → List ℤ → Outcome Collected
  collect zero names opt = ret nothing
  collect (suc n) [] opt = fault
  collect (suc n) (none ∷ names) opt = ret nothing
  collect (suc n) (some x ∷ names) [] = fault
  collect (suc n) (some x ∷ names) (o ∷ opt) =
      let rest = collect n names opt in
      elim (read_at x 0 (size_t o)) [
        | unopened ↦ rest >>= λ c. ret (record c { retval = none ∷ c.retval })
        | failed ↦ fault
        | got b ↦ rest >>= λ c. ret (with_file x b c)
      ]

  -- `tmpstr[strlen(tmpstr) - 1] = 0`
  unfoldable pub cut : Bytes → Outcome Bytes
  cut [] = fault
  cut (c ∷ r) = ret (take (length r) (c ∷ r))

  -- behind the reply to GET: the entry is removed if it could be sent
  unfoldable pub after_get : Bool → Server → Reply → Outcome Turn
  after_get false s r = ret (served s (some r) [] false)
  after_get true s r =
      histremove s.hist
      >>= (λ x. let (h, es) = x in ret (served (record s { hist = h }) (some r) es false))

  unfoldable pub cmd_get : System → Server → List ℤ → Outcome Turn
  cmd_get sys s opt = elim (histget s.hist) [
    | waiting h ↦ ret (waits h)
    | entry i ↦ do
      hp ← load s.hist.history i
      all ← all_there s.nsize hp.fname
      if not all
          then ret (waits_type (histwait s.hist))
          else asked s.nsize opt >>= (λ n. total n opt (pos 0) >>= (λ t.
            if sys.memory
            then collect n hp.fname opt >>= (λ c. fitting t c >>= (λ c'. cut c'.tmpstr >>= (λ names.
              after_get sys.sends (record s { nsize = n })
                (files hp.date names c'.data_read c'.retval))))
            else exited))
  ]

  unfoldable pub cmd_open : Server → ℤ → Outcome Turn
  cmd_open s o = elim (histget s.hist) [
    | waiting h ↦ ret (waits h)
    | entry i ↦ do
      hp ← load s.hist.history i
      f ← load hp.fname (size_t o)
      elim f [
        | none ↦ ret (waits_type (histwait s.hist))
        | some name ↦ ret (
            served (record s { tfd = descriptor name (read_at name 0 0) }) (some (opened name)) []
              true)
      ]
  ]

  -- The size -1 of a read that fails is sent as a length: bytes from outside the buffer.
  unfoldable pub cmd_read : Server → ℤ → Outcome Turn
  cmd_read s o = elim s.tfd [
    | none ↦ ret (served s (some (read [])) [] true)
    | some (name, off) ↦ elim (read_at name off (size_t o)) [
      | got b ↦
          ret (served (record s { tfd = some (name, off + length b) }) (some (read b)) [] true)
      | _ ↦ fault
    ]
  ]

  unfoldable pub cmd_close : Server → Outcome Turn
  cmd_close s =
      histremove s.hist
      >>= (λ x. let (h, es) = x in ret (served (record s { hist = h; tfd = none }) none es false))

  -- the switch of `transfer` over the result of `trans_getcmd`
  unfoldable pub serve : System → Server → ℕ → List ℤ → Outcome Turn
  serve sys s cmd opt =
      if cmd == 1
      then cmd_open s (get_or opt 0 (pos 0))
      else if cmd == 6
      then cmd_read s (get_or opt 0 (pos 0))
      else if cmd == 3
      then cmd_get sys s opt
      else if cmd == 2
      then cmd_close s
      else ret (served s none [] (not (cmd == 4)))
