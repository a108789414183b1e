-- ===== src/Trans/Sftp/Tests.antt =====
-- sftp_put on concrete inputs, and the theorems at inputs that meet their hypotheses.
use jit_dt.Common.{
  ℕ, suc, ◌+◌, ◌≡◌, refl, Bool, true, false, List, [], ◌∷◌, Option, none, some, Bytes, codes,
}
use jit_dt.Common.Outcome.{Outcome, ret}
use jit_dt.Trans.Sftp.{
  Event, Env, Sftp, Put, Flow, done, died, idle, wait_rwfd, read_reply, wait_reply, put_cmd,
  command, is_directory, notify, finish, talk, spawn, sftp_put, sftp_puts,
}
use jit_dt.Trans.Sftp.Holding.{IsOwned}
use jit_dt.Trans.Sftp.Owns.{Ends, sftp_puts-Ends}
use jit_dt.Trans.Sftp.Told.{told, Tells, script, turned}
use jit_dt.Trans.Sftp.Script.{sftp_put-Tells}

abbrev pid_of : List Event → ℕ
pid_of [] = 40
pid_of (e ∷ es) = suc (pid_of es)

-- a system where all goes well
abbrev fine : Env
fine = record {
  basename = λ p. codes "a.dat";
  decimal = λ n. (n + 48) ∷ [];
  pipe = λ l. some (pid_of l + 60, pid_of l + 61);
  fork = λ l. some (pid_of l);
  fdopen = λ l. true;
  select = λ l r w. some record { rdfds = λ fd. true; wtfds = λ fd. true };
  read = λ l. some 5;
  system = λ l c. true;
}

-- The same, but sftp never answers.
abbrev mute : Env
mute = record fine { select = λ l r w. some record { rdfds = λ fd. false; wtfds = λ fd. true } }

abbrev kept_put : Put
kept_put = record {
  host = codes "u@h";
  rpath = some (codes "d/");
  fname = codes "/w/a.dat";
  keepproc = true;
  lntfy = some (codes "n");
  rntfy = codes "r/";
  portnum = 0;
}

abbrev flow_of : Outcome (Sftp × Flow) → Option (Flow × (Bool × (ℕ × List Bytes)))
flow_of (ret (s, f)) = some (f, (s.isprocalive, (s.vrsn, told s.log)))
flow_of x = none

all_well :
    flow_of (sftp_put fine kept_put idle)
    ≡ some (
      done,
      (true, (1, codes "put /w/a.dat d/a.dat\n" ∷ codes "put n r/0\n" ∷ codes "pwd\n" ∷ [])),
    )
unfolding sftp_put spawn talk command put_cmd wait_reply read_reply wait_rwfd notify finish
    is_directory
all_well = refl

no_answer :
    flow_of (sftp_put mute kept_put idle)
    ≡ some (died, (false, (0, codes "put /w/a.dat d/a.dat\n" ∷ [])))
unfolding sftp_put spawn talk command put_cmd wait_reply read_reply wait_rwfd notify finish
    is_directory
no_answer = refl

idle-IsOwned : Ends mute (IsOwned true) (sftp_puts mute (kept_put ∷ kept_put ∷ []) idle)
idle-IsOwned =
    sftp_puts-Ends mute true (kept_put ∷ kept_put ∷ []) (λ l. refl) (refl, (refl, tt)) (λ f. refl)

sftp_put-Tells_example :
    Ends fine
      (Tells fine [] 0 (script fine kept_put 0) (turned (some (codes "n")) 0))
      (sftp_put fine kept_put idle)
sftp_put-Tells_example = sftp_put-Tells fine kept_put idle refl (λ e. cc)
