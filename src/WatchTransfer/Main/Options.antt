-- ===== src/WatchTransfer/Main/Options.antt =====
-- What the options of watch_and_transfer mean: the last argument given for each.
use jit_dt.Common.{
  ◌+◌, ◌<◌, ◌≡◌, ◌≢◌, refl, sym, ap, ◌∙◌, Bool, true, false, List, [], ◌∷◌, ◌++◌, Option, none,
  some, Bytes, codes, map, ◌||◌, length, take, ℤ, pos, All, inl, inr, Bool-cases, arith, leb,
  lt→ltb, if◌then◌else◌,
}
use jit_dt.Common.Arrays.{append_assoc, append_nil}
use jit_dt.Common.Outcome.{ret}
use jit_dt.Conf.Reader.{Conf, Reader, ok, readconf}
use jit_dt.LockFile.{path_max}
use jit_dt.Watch.{fformat, ends_slash}
use jit_dt.Trans.{TransType, Url, scp, sftp, lock, http, unknown, no_url, trans_type, split_colon}
use jit_dt.WatchTransfer.Main.{
  Opt, dry, conf, log, port, start, notify, daemon, debug, verbose, keep, subdirs, Settings,
  defaults, fits, set_notify, set_option, set_options, System, Watching, is_negative, exit_on_error,
  compile, regex_init, mydaemonize, log_of_daemon, start_watch, start_up, main,
}

-- the arguments of -y, -c, -f, -p and -s
abbrev pub dry_of : Opt → Option Bytes
dry_of (dry a) = some a
dry_of o = none

abbrev pub conf_of : Opt → Option Bytes
conf_of (conf a) = some a
conf_of o = none

abbrev pub log_of : Opt → Option Bytes
log_of (log a) = some a
log_of o = none

abbrev pub port_of : Opt → Option Bytes
port_of (port a) = some a
port_of o = none

abbrev pub start_of : Opt → Option Bytes
start_of (start a) = some a
start_of o = none

-- the two parts of the argument of -n
abbrev pub notify_of : Opt → Option (Bytes × Bytes)
notify_of (notify a) = split_colon a
notify_of o = none

abbrev pub is_daemon : Opt → Bool
is_daemon daemon = true
is_daemon o = false

abbrev pub is_debug : Opt → Bool
is_debug debug = true
is_debug o = false

abbrev pub is_verbose : Opt → Bool
is_verbose verbose = true
is_verbose o = false

abbrev pub is_keep : Opt → Bool
is_keep keep = true
is_keep o = false

abbrev pub is_subdirs : Opt → Bool
is_subdirs subdirs = true
is_subdirs o = false

-- whether some option is such a one
unfoldable pub any : (Opt → Bool) → List Opt → Bool
any p [] = false
any p (o ∷ os) = p o || any p os

-- the arguments given, the first one first
unfoldable pub given {ℓ} : {A : Type ℓ} → (Opt → Option A) → List Opt → List A
given p [] = []
given p (o ∷ os) = elim (p o) [ none ↦ given p os | some a ↦ a ∷ given p os ]

unfoldable pub last_of {ℓ} : {A : Type ℓ} → A → List A → A
last_of d [] = d
last_of d (a ∷ more) = last_of a more

abbrev pub slashed : Bytes → Bytes
slashed p = if ends_slash p then p else p ++ codes "/"

abbrev pub flag : Bool → Bool → Bool
flag b given = if given then true else b

-- the settings that options make of others
abbrev pub described : (Bytes → ℤ) → Settings → List Opt → Settings
described atoi s os = record {
  dryflag = last_of s.dryflag (map atoi (given dry_of os));
  confname = last_of s.confname (given conf_of os);
  dmflag = flag s.dmflag (any is_daemon os);
  lognmbase = last_of s.lognmbase (given log_of os);
  debugs = flag s.debugs (any is_debug os);
  portnum = last_of s.portnum (map atoi (given port_of os));
  verboses = flag s.verboses (any is_verbose os);
  startdir = last_of s.startdir (given start_of os);
  lntfyfile = last_of s.lntfyfile (map (λ n. n.0) (given notify_of os));
  rntfydir = last_of s.rntfydir (map (λ n. slashed n.1) (given notify_of os));
  keep_proc = flag s.keep_proc (any is_keep os);
  sdirflag = flag s.sdirflag (any is_subdirs os);
  made = s.made ++ map (λ n. n.0) (given notify_of os);
}

-- Arguments are shorter than PATH_MAX, a starting directory by one more, and that of -n has a colon
-- with something behind it.
abbrev pub IsFine : Opt → Type 0
IsFine (conf a) = length a < path_max
IsFine (log a) = length a < path_max
IsFine (start a) = length a + 1 < path_max
IsFine (notify a) =
    (length a < path_max) × (n : Bytes × Bytes) × (split_colon a ≡ some n) × (n.1 ≢ [])
IsFine o = Unit

flag_set : (b : Bool) → flag true b ≡ true
flag_set true = refl
flag_set false = refl

pub fits-short : (a : Bytes) → length a < path_max → fits a ≡ ret a
unfolding fits
fits-short a h = rw (fits, lt→ltb (length a) path_max h) refl

pub fformat-slashed : (p : Bytes) → p ≢ [] → fformat p ≡ ret (slashed p)
unfolding fformat
fformat-slashed [] h = absurd (h refl)
fformat-slashed (c ∷ r) h = refl

pub set_options_cons :
    (atoi : Bytes → ℤ) (s s' : Settings) (o : Opt) (os : List Opt)
    → set_option atoi s o ≡ ret (some s')
    → set_options atoi s (o ∷ os) ≡ set_options atoi s' os
unfolding set_options
set_options_cons atoi s s' o os e = rw (set_options, e) refl

pub set_option-notify :
    (atoi : Bytes → ℤ) (s : Settings) (a : Bytes) (n : Bytes × Bytes)
    → length a < path_max
    → split_colon a ≡ some n
    → n.1 ≢ []
    → set_option atoi s (notify a)
      ≡ ret
          (some (record s { lntfyfile = n.0; rntfydir = slashed n.1; made = s.made ++ (n.0 ∷ []) }))
unfolding set_option set_notify
set_option-notify atoi s a n short e ne =
    rw (set_option, fits-short a short, e, set_notify, fformat-slashed n.1 ne) refl

given-notify :
    (a : Bytes) (n : Bytes × Bytes) (os : List Opt)
    → split_colon a ≡ some n
    → given notify_of (notify a ∷ os) ≡ n ∷ given notify_of os
unfolding given
given-notify a n os e = rw (given, e) refl

options-described :
    (atoi : Bytes → ℤ) (s : Settings) (os : List Opt)
    → All IsFine os
    → set_options atoi s os ≡ ret (some (described atoi s os))
unfolding set_options set_option set_notify given last_of any
options-described atoi s [] h =
    ap (λ m. ret (some (record s { made = m }))) (sym (append_nil s.made))
options-described atoi s (dry a ∷ os) h =
    options-described atoi (record s { dryflag = atoi a }) os h.1
options-described atoi s (port a ∷ os) h =
    options-described atoi (record s { portnum = atoi a }) os h.1
options-described atoi s (conf a ∷ os) h =
    rw (set_options, set_option, fits-short a h.0)
      (options-described atoi (record s { confname = a }) os h.1)
options-described atoi s (log a ∷ os) h =
    rw (set_options, set_option, fits-short a h.0)
      (options-described atoi (record s { lognmbase = a }) os h.1)
options-described atoi s (start a ∷ os) h =
    let short : leb path_max (length a + 1) ≡ false = ground (arith, h.0) in
    rw (set_options, set_option, short) (options-described atoi (record s { startdir = a }) os h.1)
options-described atoi s (notify a ∷ os) h =
    let (short, n, e, some_dir) = h.0 in
    let s' : Settings = record s {
      lntfyfile = n.0;
      rntfydir = slashed n.1;
      made = s.made ++ (n.0 ∷ []);
    } in
    let all = map (λ n. n.0) (given notify_of os) in
    let with_notify : List (Bytes × Bytes) → Settings = λ ns. record (described atoi s os) {
      lntfyfile = last_of s.lntfyfile (map (λ n. n.0) ns);
      rntfydir = last_of s.rntfydir (map (λ n. slashed n.1) ns);
      made = s.made ++ map (λ n. n.0) ns;
    } in
    set_options_cons atoi s s' (notify a) os (set_option-notify atoi s a n short e some_dir)
    ∙ options-described atoi s' os h.1
    ∙ ap (λ m. ret (some (record (described atoi s' os) { made = m })))
        (append_assoc s.made (n.0 ∷ []) all)
    ∙ ap (λ ns. ret (some (with_notify ns))) (sym (given-notify a n os e))
options-described atoi s (daemon ∷ os) h =
    let s' : Settings = record s { dmflag = true } in
    options-described atoi s' os h.1
    ∙ ap (λ b. ret (some (record (described atoi s' os) { dmflag = b })))
        (flag_set (any is_daemon os))
options-described atoi s (debug ∷ os) h =
    let s' : Settings = record s { debugs = true } in
    options-described atoi s' os h.1
    ∙ ap (λ b. ret (some (record (described atoi s' os) { debugs = b })))
        (flag_set (any is_debug os))
options-described atoi s (verbose ∷ os) h =
    let s' : Settings = record s { verboses = true } in
    options-described atoi s' os h.1
    ∙ ap (λ b. ret (some (record (described atoi s' os) { verboses = b })))
        (flag_set (any is_verbose os))
options-described atoi s (keep ∷ os) h =
    let s' : Settings = record s { keep_proc = true } in
    options-described atoi s' os h.1
    ∙ ap (λ b. ret (some (record (described atoi s' os) { keep_proc = b })))
        (flag_set (any is_keep os))
options-described atoi s (subdirs ∷ os) h =
    let s' : Settings = record s { sdirflag = true } in
    options-described atoi s' os h.1
    ∙ ap (λ b. ret (some (record (described atoi s' os) { sdirflag = b })))
        (flag_set (any is_subdirs os))

-- the types of transfer that have a function
abbrev pub IsKnown : TransType → Type 0
IsKnown unknown = ⊥
IsKnown no_url = ⊥
IsKnown t = Unit

-- regcomp finds no error that main would see, malloc gives memory, the file of the configuration holds
-- what readconf takes to be the tables `r`, and in a daemon the process is the child of fork, with a
-- log file whose name fits its array and that can be made.
pub record Starts (sys : System) (s : Settings) (text : Bytes) (r : Reader) : Type 0 where
  pub opened : sys.contents s.confname ≡ some text
  pub well_formed : readconf sys.junk text ≡ ok r
  pub compiles : All (λ c. is_negative (sys.regcomp c.c_pattern) ≡ false) (take r.cent r.conf)
  pub memory : sys.memory ≡ true
  pub child : s.dmflag ≡ true → sys.fork ≡ pos 0
  pub name_fits : s.dmflag ≡ true → length (s.lognmbase ++ codes ".1") < path_max
  pub log_made : s.dmflag ≡ true → sys.fopen (s.lognmbase ++ codes ".1") ≡ true

-- the log file of a daemon
abbrev pub daemon_log : Settings → Option Bytes
daemon_log s = if s.dmflag then some (s.lognmbase ++ codes ".1") else none

compile-all :
    (sys : System) (cs : List Conf) (r : Reader)
    → All (λ c. is_negative (sys.regcomp c.c_pattern) ≡ false) cs
    → compile sys cs r ≡ ret r
unfolding compile
compile-all sys [] r h = refl
compile-all sys (c ∷ cs) r h = rw (compile, h.0) (compile-all sys cs r h.1)

regex_init-Starts :
    (sys : System) (s : Settings) (text : Bytes) (r : Reader)
    → Starts sys s text r
    → regex_init sys s.confname ≡ ret r
unfolding regex_init
regex_init-Starts sys s text r h =
    rw (regex_init, h.opened, h.well_formed, exit_on_error)
      (compile-all sys (take r.cent r.conf) r h.compiles)

log_of_daemon-Starts :
    (sys : System) (s : Settings) (text : Bytes) (r : Reader)
    → Starts sys s text r
    → log_of_daemon sys s ≡ ret (daemon_log s)
unfolding log_of_daemon mydaemonize
log_of_daemon-Starts sys s text r h = elim (Bool-cases s.dmflag) [
  | inl e ↦
      let name = s.lognmbase ++ codes ".1" in
      rw
        (
          log_of_daemon,
          daemon_log,
          e,
          mydaemonize,
          h.child e,
          fits-short name (h.name_fits e),
          h.log_made e,
        )
        refl
  | inr e ↦ rw (log_of_daemon, daemon_log, e) refl
]

start_watch-known :
    (sys : System) (s : Settings) (r : Reader) (n : Option Bytes) (topdir : Bytes) (t : TransType)
    (u : Url)
    → IsKnown t
    → sys.memory ≡ true
    → let w : Watching = record {
      settings = s;
      conf = r;
      logname = n;
      topdir = topdir;
      ttype = t;
      url = u;
    } in
      start_watch sys w ≡ ret (some w)
unfolding start_watch
start_watch-known sys s r n topdir scp u h m = rw (start_watch, m) refl
start_watch-known sys s r n topdir sftp u h m = rw (start_watch, m) refl
start_watch-known sys s r n topdir lock u h m = rw (start_watch, m) refl
start_watch-known sys s r n topdir http u h m = rw (start_watch, m) refl
start_watch-known sys s r n topdir unknown u h m = absurd h
start_watch-known sys s r n topdir no_url u h m = absurd h

start_up-known :
    (sys : System) (s : Settings) (topdir text : Bytes) (r : Reader) (t : TransType) (u : Url)
    → IsKnown t
    → Starts sys s text r
    → start_up sys s topdir (t, u)
      ≡ ret (
          some (record {
            settings = s;
            conf = r;
            logname = daemon_log s;
            topdir = topdir;
            ttype = t;
            url = u;
          }))
unfolding start_up
start_up-known sys s topdir text r t u k h =
    rw (start_up, regex_init-Starts sys s text r h, log_of_daemon-Starts sys s text r h)
      (start_watch-known sys s r (daemon_log s) topdir t u k h.memory)

-- The URL has a type of transfer that is known, the directory is not empty and shorter than PATH_MAX by
-- more than one, and some argument follows them. Every option of a PATH_MAX array has an argument
-- that is shorter, that of -s by one more, and that of -n has a colon with something behind it. The
-- file of the last -c, or else the default one, can be opened and read by readconf, regcomp gives no
-- negative result for its patterns, and malloc gives memory; with -D the process is the child of
-- fork, and the log file has a name that fits its array and can be made. Then main calls mynotify
-- with the directory, a `/` behind it, with the tables that readconf has read, with the parts of the
-- URL, and with the last argument given for -y, -c, -f, -p, -s and -n, or else the default, and each
-- flag set just if its option is given anywhere; the local files that it makes are those of all the
-- -n.
pub main-described :
    (sys : System) (atoi : Bytes → ℤ) (http_built : Bool) (prog url dir x : Bytes)
    (more : List Bytes) (opts : List Opt) (t : TransType) (u : Url) (text : Bytes) (r : Reader)
    → trans_type http_built url ≡ (t, u)
    → IsKnown t
    → dir ≢ []
    → length dir + 1 < path_max
    → All IsFine opts
    → Starts sys (described atoi defaults opts) text r
    → main sys atoi http_built (prog ∷ url ∷ dir ∷ x ∷ more) opts
      ≡ ret (
          some record {
            settings = described atoi defaults opts;
            conf = r;
            logname = daemon_log (described atoi defaults opts);
            topdir = slashed dir;
            ttype = t;
            url = u;
          })
unfolding main
main-described sys atoi http_built prog url dir x more opts t u text r e k ne hd h hs =
    let short : leb path_max (length dir + 1) ≡ false = ground (arith, hd) in
    rw (main, short, fformat-slashed dir ne, options-described atoi defaults opts h, e)
      (start_up-known sys (described atoi defaults opts) (slashed dir) text r t u k hs)
