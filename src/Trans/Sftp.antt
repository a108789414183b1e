-- ===== src/Trans/Sftp.antt =====
-- src/translib.c: sftp_put, which keeps a process of sftp and talks to it by two pipes. What the
-- system answers is a parameter that may depend on all that was done before; what is done is
-- listed as events, the newest first. A write to an sftp that has gone is taken to fail and waitpid to
-- return: the SIGPIPE of such a write, which ends the process (line 108), and a waitpid that does not
-- return since the pipe to sftp is still open (line 343) are not modelled.
pub mod Keeps
pub mod Holding
pub mod Owns
pub mod Told
pub mod Script
mod Tests
use jit_dt.Common.{
  ℕ, zero, suc, ◌+◌, ◌%◌, Bool, true, false, ◌||◌, List, [], ◌∷◌, ◌++◌, Option, none, some, Bytes,
  codes, ltb, ◌==◌, if◌then◌else◌,
}
use jit_dt.Common.Outcome.{Outcome, ret, exited, ◌>>=◌}

abbrev pub f_version_m : ℕ
f_version_m = 10

-- `piped` gives the reading and the writing end, `forked` the child and the arguments it runs sftp
-- with.
pub data Event : Type 0 where
  registered : Event
  piped : ℕ → ℕ → Event
  forked : ℕ → List Bytes → Event
  closed : ℕ → Event
  sent : Bytes → Event
  answered : ℕ → Event
  ran : Bytes → Event
  waited : ℕ → Event

-- what `select` leaves in its sets
pub record Ready : Type 0 where
  pub rdfds : ℕ → Bool
  pub wtfds : ℕ → Bool

-- The system: `none` is a failure, of `select` also that its time is over. `decimal` is `%d`.
pub record Env : Type 0 where
  pub basename : Bytes → Bytes
  pub decimal : ℕ → Bytes
  pub pipe : List Event → Option (ℕ × ℕ)
  pub fork : List Event → Option ℕ
  pub fdopen : List Event → Bool
  pub select : List Event → Option ℕ → Option ℕ → Option Ready
  pub read : List Event → Option ℕ
  pub system : List Event → Bytes → Bool

-- The static variables of `sftp_put`, `wfp` by the descriptor of the file, the caller's `*vrsnp`,
-- and the events.
pub record Sftp : Type 0 where
  pub first : Bool
  pub isprocalive : Bool
  pub wfp : Option ℕ
  pub rfd : ℕ
  pub sftpid : ℕ
  pub vrsn : ℕ
  pub log : List Event

-- The arguments of a call, with what it reads from `opt`.
pub record Put : Type 0 where
  pub host : Bytes
  pub rpath : Option Bytes
  pub fname : Bytes
  pub keepproc : Bool
  pub lntfy : Option Bytes
  pub rntfy : Bytes
  pub portnum : ℕ

-- Where a piece of `sftp_put` goes on: behind itself, at `die_return` or at `err_return`. As the end
-- of a call, the first is the duration, and the others are 0.0.
pub data Flow : Type 0 where
  done died err : Flow

abbrev pub idle : Sftp
idle = record {
  first = false;
  isprocalive = false;
  wfp = none;
  rfd = 0;
  sftpid = 0;
  vrsn = 0;
  log = [];
}

-- a file descriptor that is asked for, in a set
abbrev pub isset : (ℕ → Bool) → Option ℕ → Bool
isset set none = false
isset set (some fd) = set fd

-- `wait_rwfd`, which answers whether it returns 0
unfoldable pub wait_rwfd : Option Ready → Option ℕ → Option ℕ → Bool
wait_rwfd none rfd wfd = false
wait_rwfd (some r) rfd wfd = isset r.rdfds rfd || isset r.wtfds wfd

unfoldable pub read_reply : Option ℕ → List Event → List Event × Option ℕ
read_reply none log = (log, none)
read_reply (some sz) log = (answered sz ∷ log, some sz)

unfoldable pub wait_reply : Env → ℕ → List Event → List Event × Option ℕ
wait_reply env rfd log =
    if wait_rwfd (env.select log (some rfd) none) (some rfd) none
    then read_reply (env.read log) log
    else (log, none)

-- `put_cmd` with its text formatted; `none` is a negative result
unfoldable pub put_cmd : Env → ℕ → ℕ → Bytes → List Event → List Event × Option ℕ
put_cmd env wfd rfd text log =
    if wait_rwfd (env.select log none (some wfd)) none (some wfd)
    then wait_reply env rfd (sent text ∷ log)
    else (log, none)

abbrev pub replied : Sftp → Option ℕ → Sftp × Flow
replied s none = (s, died)
replied s (some sz) = (s, done)

-- `cc = put_cmd(wfp, rfd, ...); if (cc < 0) goto die_return;`
unfoldable pub command : Env → ℕ → Bytes → Sftp → Sftp × Flow
command env wfd text s =
    let (log', cc) = put_cmd env wfd s.rfd text s.log in replied (record s { log = log' }) cc

-- the code behind a piece
abbrev pub go_on : Sftp × Flow → (Sftp → Sftp × Flow) → Sftp × Flow
go_on (s, done) f = f s
go_on (s, died) f = (s, died)
go_on (s, err) f = (s, err)

-- the last byte is `/`
unfoldable pub is_directory : Bytes → Bool
is_directory [] = false
is_directory (c ∷ []) = c == b'/'
is_directory (c ∷ d ∷ r) = is_directory (d ∷ r)

-- `fnbuf`: the remote name
abbrev pub fnbuf : Env → Put → Bytes
fnbuf env o = elim o.rpath [
  | none ↦ codes "~/" ++ o.fname
  | some p ↦ if is_directory p then p ++ env.basename o.fname else p
]

abbrev pub put_text : Env → Put → Bytes
put_text env o = elim o.rpath [
  | none ↦ codes "put " ++ o.fname ++ codes "\n"
  | some p ↦ codes "put " ++ o.fname ++ codes " " ++ fnbuf env o ++ codes "\n"
]

abbrev pub echo_text : Env → Put → Bytes → Bytes
echo_text env o lntfy =
    codes "echo -n " ++ env.basename (fnbuf env o) ++ codes " > " ++ lntfy ++ codes "\n"

abbrev pub notify_text : Env → Put → Bytes → ℕ → Bytes
notify_text env o lntfy vrsn =
    codes "put " ++ lntfy ++ codes " " ++ (o.rntfy ++ env.decimal vrsn) ++ codes "\n"

abbrev pub versioned : Sftp → Sftp × Flow
versioned s = (record s { vrsn = (s.vrsn + 1) % f_version_m }, done)

-- the notification
unfoldable pub notify : Env → Put → ℕ → Option Bytes → Sftp → Sftp × Flow
notify env o wfd none s = (s, done)
notify env o wfd (some lntfy) s =
    let cmd = echo_text env o lntfy in
    let s' : Sftp = record s { log = ran cmd ∷ s.log } in
    if env.system s.log cmd
    then go_on (command env wfd (notify_text env o lntfy s.vrsn) s') versioned
    else (s', err)

-- `waitpid(sftpid, ...); close(rfd); fclose(wfp);`
abbrev pub hung_up : ℕ → Sftp → List Event → List Event
hung_up wfd s log = closed wfd ∷ closed s.rfd ∷ waited s.sftpid ∷ log

unfoldable pub finish : Env → Put → ℕ → Sftp → Sftp × Flow
finish env o wfd s =
    if o.keepproc
    then command env wfd (codes "pwd\n") s
    else (let (log', cc) = put_cmd env wfd s.rfd (codes "quit\n") s.log in
        (record s { log = hung_up wfd s log' }, done))

-- from the test of `wfp` to the end
unfoldable pub talk : Env → Put → Option ℕ → Sftp → Sftp × Flow
talk env o none s = (s, died)
talk env o (some wfd) s =
    go_on (go_on (command env wfd (put_text env o) s) (notify env o wfd o.lntfy)) (finish env o wfd)

-- `die_return`
abbrev pub closed_wfp : Sftp → List Event
closed_wfp s = elim s.wfp [
  | none ↦ closed s.rfd ∷ waited s.sftpid ∷ s.log
  | some wfd ↦ hung_up wfd s s.log
]

abbrev pub leave : Sftp × Flow → Sftp × Flow
leave (s, done) = (s, done)
leave (s, died) = (record s { isprocalive = false; log = closed_wfp s }, died)
leave (s, err) = (s, err)

-- the arguments of sftp
abbrev pub argv : Env → Put → List Bytes
argv env o =
    codes "sftp"
    ∷ codes "-b"
    ∷ codes "-"
    ∷ codes "-o"
    ∷ codes "Compression=yes"
    ∷ ((if ltb 0 o.portnum then codes "-o" ∷ (codes "Port=" ++ env.decimal o.portnum) ∷ [] else [])
        ++ (o.host ∷ []))

abbrev pub need {ℓ} : {A : Type ℓ} → Option A → Outcome A
need none = exited
need (some x) = ret x

-- the block under `if (isprocalive == 0)`
unfoldable pub spawn : Env → Put → Sftp → Outcome Sftp
spawn env o s = do
  (to_0, to_1) ← need (env.pipe s.log)
  let log1 : List Event = piped to_0 to_1 ∷ s.log
  (from_0, from_1) ← need (env.pipe log1)
  let log2 : List Event = piped from_0 from_1 ∷ log1
  pid ← need (env.fork log2)
  let log3 : List Event = closed from_1 ∷ forked pid (argv env o) ∷ log2
  let s' : Sftp = record s {
    sftpid = pid;
    rfd = from_0;
    wfp = if env.fdopen log3 then some to_1 else none;
    isprocalive = o.keepproc;
    log = closed to_0 ∷ log3;
  }
  ret s'

abbrev pub register : Sftp → Sftp
register s = if s.first then s else record s { first = true; log = registered ∷ s.log }

abbrev pub launch : Env → Put → Sftp → Outcome Sftp
launch env o s = if s.isprocalive then ret s else spawn env o s

unfoldable pub sftp_put : Env → Put → Sftp → Outcome (Sftp × Flow)
sftp_put env o s = do s1 ← launch env o (register s); ret (leave (talk env o s1.wfp s1))

-- a sequence of calls
abbrev pub sftp_puts : Env → List Put → Sftp → Outcome Sftp
sftp_puts env [] s = ret s
sftp_puts env (o ∷ os) s = do (s', sec) ← sftp_put env o s; sftp_puts env os s'
