-- ===== src/WatchTransfer.antt =====
-- src/watch_and_transfer.c: transfer, which the directory watch calls for a file; and logfupdate of
-- src/misclib.c, which it calls for each file it takes. The regular expressions, `atoll`, `stat` and
-- `fopen` are parameters.
pub mod Taken
pub mod Main
mod Tests
use jit_dt.Common.{
  ℕ, zero, suc, ◌+◌, ◌*◌, Bool, true, false, not, ◌&&◌, List, [], ◌∷◌, ◌++◌, Option, none, some,
  Bytes, ltb, if◌then◌else◌, ℤ, pos, negsuc,
}
use jit_dt.Common.Outcome.{Outcome, ret, exited, ◌>>=◌}
use jit_dt.Conf.Reader.{Conf}
use jit_dt.Conf.Match.{Exec, Copies, Wanted, regex_match}
use jit_dt.Kwatch.{copied}

abbrev pub log_maxentries : ℕ
log_maxentries = 2 * 2 * 60 * 2

-- The variables of the log file; `opened` is false where the process is not a daemon.
pub record Log : Type 0 where
  pub opened : Bool
  pub logent : ℕ
  pub logage : ℕ

-- the next log file
abbrev pub next_log : (ℕ → Bool) → ℕ → Outcome Log
next_log fopen age =
    if fopen age then ret record { opened = true; logent = 0; logage = age } else exited

-- `logfupdate`, with whether the file of a number can be opened
unfoldable pub logfupdate : (ℕ → Bool) → Log → Outcome Log
logfupdate fopen g =
    if not g.opened
    then ret g
    else (if ltb log_maxentries (g.logent + 1)
        then next_log fopen (g.logage + 1)
        else ret record g { logent = g.logent + 1 })

-- `unset` is the size where `stat` fails, which nothing has set.
pub record Env : Type 0 where
  pub regexec : Bytes → Bytes → Exec
  pub conf : List Conf
  pub atoll : Bytes → ℤ
  pub stat : Bytes → Option ℕ
  pub unset : Bytes → ℤ
  pub fopen : ℕ → Bool
  pub dryflag : Bool

abbrev pub threshold_only : Wanted
threshold_only = record { date = false; type = false; fnam = false; thrh = true }

abbrev pub st_size : Env → Bytes → ℤ
st_size env fname = elim (env.stat fname) [ none ↦ env.unset fname | some n ↦ pos n ]

-- `sz > 0 && sbuf.st_size < sz`
unfoldable pub is_short : ℤ → ℤ → Bool
is_short (negsuc n) size = false
is_short (pos sz) (pos size) = ltb 0 sz && ltb size sz
is_short (pos sz) (negsuc size) = ltb 0 sz

-- behind the test of `regex_match`
unfoldable pub transfer_matched :
    Env → Log → Bytes → Option Copies → Outcome (Log × (Bool × List Bytes))
transfer_matched env g fname none = ret (g, (false, []))
transfer_matched env g fname (some c) =
    if is_short (env.atoll (copied c.thrh)) (st_size env fname)
    then ret (g, (false, []))
    else (logfupdate env.fopen g
        >>= (λ g'. ret (g', (true, if env.dryflag then [] else fname ∷ []))))

-- `transfer`: whether it returns 1, and the file if the function for its transfer is called
unfoldable pub transfer : Env → Log → Bytes → Outcome (Log × (Bool × List Bytes))
transfer env g fname = do
  m ← regex_match env.regexec env.conf fname threshold_only
  transfer_matched env g fname m

-- the calls for a sequence of files
abbrev pub transfers : Env → Log → List Bytes → Outcome (Log × (List Bool × List Bytes))
transfers env g [] = ret (g, ([], []))
transfers env g (f ∷ fs) =
    transfer env g f
    >>= (λ x. transfers env x.0 fs >>= (λ y. ret (y.0, (x.1.0 ∷ y.1.0, x.1.1 ++ y.1.1))))
