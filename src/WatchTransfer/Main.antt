-- ===== src/WatchTransfer/Main.antt =====
-- src/watch_and_transfer.c: main up to its call of mynotify, and terminate.
-- getopt is a parameter, the list of the options it finds, and so are atoi, regcomp and what the
-- system answers. What is only printed is left out, and so is the command that -n runs.
pub mod Options
pub mod Refused
mod Tests
use jit_dt.Common.{
  ℕ, zero, suc, ◌+◌, Bool, true, false, List, [], ◌∷◌, ◌++◌, Option, none, some, Bytes, codes, leb,
  ltb, ◌==◌, if◌then◌else◌, length, take, ℤ, pos, negsuc,
}
use jit_dt.Common.Outcome.{Outcome, ret, exited, fault, ◌>>=◌}
use jit_dt.Conf.Reader.{Conf, Reader, Result, ok, err, stopped, readconf}
use jit_dt.LockFile.{path_max}
use jit_dt.Watch.{fformat}
use jit_dt.Trans.{TransType, scp, sftp, lock, http, unknown, no_url, Url, trans_type, split_colon}

-- The options -y, -c, -f, -p, -s and -n with their arguments, and -D, -d, -v, -k and -S.
pub data Opt : Type 0 where
  dry conf log port start notify : Bytes → Opt
  daemon debug verbose keep subdirs : Opt

-- The variables that the options set, and the local files that have been made.
pub record Settings : Type 0 where
  pub dryflag : ℤ
  pub confname : Bytes
  pub dmflag : Bool
  pub lognmbase : Bytes
  pub debugs : Bool
  pub portnum : ℤ
  pub verboses : Bool
  pub startdir : Bytes
  pub lntfyfile : Bytes
  pub rntfydir : Bytes
  pub keep_proc : Bool
  pub sdirflag : Bool
  pub made : List Bytes

abbrev pub defaults : Settings
defaults = record {
  dryflag = pos 0;
  confname = codes "/home/aics/nowcast/etc/conf";
  dmflag = false;
  lognmbase = codes "/tmp/JITDTLOG";
  debugs = false;
  portnum = pos 0;
  verboses = false;
  startdir = [];
  lntfyfile = codes "/tmp/ditready";
  rntfydir = codes "/tmp/bell/";
  keep_proc = false;
  sdirflag = false;
  made = [];
}

-- `strcpy` into an array of PATH_MAX bytes
unfoldable pub fits : Bytes → Outcome Bytes
fits s = if ltb (length s) path_max then ret s else fault

-- the case of `-n` behind the search for a colon
unfoldable pub set_notify : Settings → Option (Bytes × Bytes) → Outcome (Option Settings)
set_notify s none = ret none
set_notify s (some (file, dir)) = do
  remote ← fformat dir
  ret (some (record s { lntfyfile = file; rntfydir = remote; made = s.made ++ (file ∷ []) }))

-- The switch over the options: `none` for the result -1 of main.
unfoldable pub set_option : (Bytes → ℤ) → Settings → Opt → Outcome (Option Settings)
set_option atoi s (dry a) = ret (some (record s { dryflag = atoi a }))
set_option atoi s (conf a) = fits a >>= (λ c. ret (some (record s { confname = c })))
set_option atoi s (log a) = fits a >>= (λ c. ret (some (record s { lognmbase = c })))
set_option atoi s (port a) = ret (some (record s { portnum = atoi a }))
set_option atoi s (start a) =
    if leb path_max (length a + 1) then ret none else ret (some (record s { startdir = a }))
set_option atoi s (notify a) = fits a >>= (λ c. set_notify s (split_colon c))
set_option atoi s daemon = ret (some (record s { dmflag = true }))
set_option atoi s debug = ret (some (record s { debugs = true }))
set_option atoi s verbose = ret (some (record s { verboses = true }))
set_option atoi s keep = ret (some (record s { keep_proc = true }))
set_option atoi s subdirs = ret (some (record s { sdirflag = true }))

unfoldable pub set_options : (Bytes → ℤ) → Settings → List Opt → Outcome (Option Settings)
set_options atoi s [] = ret (some s)
set_options atoi s (o ∷ os) =
    set_option atoi s o >>= (λ r. elim r [ none ↦ ret none | some s' ↦ set_options atoi s' os ])

-- What the system and regcomp answer: `contents` is that of a file which can be opened, `fork` the
-- result of the call, `fopen` whether a log file can be made, and `junk` what the uninitialised
-- buffer of readconf holds.
pub record System : Type 0 where
  pub junk : Bytes
  pub contents : Bytes → Option Bytes
  pub regcomp : Bytes → ℤ
  pub fork : ℤ
  pub fopen : Bytes → Bool
  pub memory : Bool

abbrev pub is_negative : ℤ → Bool
is_negative (pos n) = false
is_negative (negsuc n) = true

-- `exit` behind an error of readconf; `stopped` does not come from readconf.
abbrev pub exit_on_error : Result Reader → Outcome Reader
exit_on_error (ok r) = ret r
exit_on_error (err e l) = exited
exit_on_error stopped = fault

-- The loop of `regex_init` over the patterns, before the tables that it leaves.
unfoldable pub compile : System → List Conf → Reader → Outcome Reader
compile sys [] r = ret r
compile sys (c ∷ cs) r = elim (is_negative (sys.regcomp c.c_pattern)) [
  | true ↦ exited
  | false ↦ compile sys cs r
]

unfoldable pub regex_init : System → Bytes → Outcome Reader
regex_init sys cfnm = elim (sys.contents cfnm) [
  | none ↦ exited
  | some text ↦ exit_on_error (readconf sys.junk text) >>= (λ r. compile sys (take r.cent r.conf) r)
]

-- `mydaemonize` up to its log file; the process that calls it ends, and its child goes on.
unfoldable pub mydaemonize : System → Bytes → Outcome Bytes
mydaemonize sys lognm = elim sys.fork [
  | negsuc n ↦ exited
  | pos n ↦
      if n == 0
      then (fits (lognm ++ codes ".1") >>= (λ name. if sys.fopen name then ret name else exited))
      else exited
]

-- What mynotify is called with, the tables of the configuration, and the log file of a daemon.
pub record Watching : Type 0 where
  pub settings : Settings
  pub conf : Reader
  pub logname : Option Bytes
  pub topdir : Bytes
  pub ttype : TransType
  pub url : Url

-- behind the call of `trans_type`
unfoldable pub start_watch : System → Watching → Outcome (Option Watching)
start_watch sys w = elim w.ttype [
  | unknown ↦ exited
  | no_url ↦ exited
  | _ ↦ if sys.memory then ret (some w) else exited
]

unfoldable pub log_of_daemon : System → Settings → Outcome (Option Bytes)
log_of_daemon sys s =
    if s.dmflag then (mydaemonize sys s.lognmbase >>= (λ n. ret (some n))) else ret none

-- from the call of `regex_init` on
unfoldable pub start_up : System → Settings → Bytes → TransType × Url → Outcome (Option Watching)
start_up sys s topdir (t, u) = do
  tables ← regex_init sys s.confname
  logname ← log_of_daemon sys s
  start_watch sys
      record { settings = s; conf = tables; logname = logname; topdir = topdir; ttype = t; url = u }

abbrev pub given_options : List Bytes → List Opt → List Opt
given_options [] opts = []
given_options (x ∷ xs) opts = opts

-- `main` with the options that getopt finds, which it only looks for behind three arguments
unfoldable pub main :
    System → (Bytes → ℤ) → Bool → List Bytes → List Opt → Outcome (Option Watching)
main sys atoi http_built (prog ∷ url ∷ dir ∷ more) opts =
    if leb path_max (length dir + 1)
    then ret none
    else (fformat dir >>= (λ topdir. set_options atoi defaults (given_options more opts) >>= (λ r.
        elim r [ none ↦ ret none | some s ↦ start_up sys s topdir (trans_type http_built url) ])))
main sys atoi http_built args opts = ret none

-- `terminate`: whether sftp is ended, and the file that is removed
unfoldable pub terminate : Settings → Bool × List Bytes
terminate s = (s.keep_proc, elim s.lntfyfile [ [] ↦ [] | c ∷ r ↦ (c ∷ r) ∷ [] ])
