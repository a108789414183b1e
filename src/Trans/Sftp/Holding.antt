-- ===== src/Trans/Sftp/Holding.antt =====
-- sftp_put: the process and the pipes that a call holds, and that its end leaves or hangs up.
use jit_dt.Common.{
  ℕ, ◌+◌, ◌≡◌, refl, sym, ap, subst, ◌∙◌, inl, inr, Bool, true, false, List, Option, none, some,
  Bytes, codes, arith, Bool-cases,
}
use jit_dt.Trans.Sftp.{
  Event, Env, Sftp, Put, Flow, done, died, err, put_cmd, replied, command, go_on, put_text, notify,
  hung_up, finish, talk, leave,
}
use jit_dt.Trans.Sftp.Keeps.{
  same, births, deaths, opens, closes, total, IsQuiet, births-IsQuiet, deaths-IsQuiet,
  opens-IsQuiet, closes-IsQuiet, put_cmd-total, Keeps, command-Keeps, Passed, command-Passed,
  go_on-Passed, Passed-lift, Fails, notify-Passed,
}

-- All processes are waited for, and all descriptors are closed.
pub record Balanced (s : Sftp) : Type 0 where
  pub procs : (pid : ℕ) → total (births pid) s.log ≡ total (deaths pid) s.log
  pub files : (fd : ℕ) → total (opens fd) s.log ≡ total (closes fd) s.log

-- All but the process `sftpid`, and all but the two ends of its pipes.
pub record Holding (wfd : ℕ) (s : Sftp) : Type 0 where
  pub wfp : s.wfp ≡ some wfd
  pub procs : (pid : ℕ) → total (births pid) s.log ≡ same pid s.sftpid + total (deaths pid) s.log
  pub files :
      (fd : ℕ) → total (opens fd) s.log ≡ same fd s.rfd + (same fd wfd + total (closes fd) s.log)

abbrev pub Owned : Bool → Bool → Sftp → Type 0
Owned keep true s = (keep ≡ true) × ((wfd : ℕ) × Holding wfd s)
Owned keep false s = Balanced s

abbrev pub IsOwned : Bool → Sftp → Type 0
IsOwned keep s = Owned keep s.isprocalive s

pub Keeps-Holding : {s s' : Sftp} (wfd : ℕ) → Keeps s s' → Holding wfd s → Holding wfd s'
Keeps-Holding {s} {s'} wfd k h = record {
  wfp = k.wfp ∙ h.wfp;
  procs = λ p. rw k.sftpid (
      k.totals (births p) (births-IsQuiet p)
      ∙ h.procs p
      ∙ ap (λ n. same p s.sftpid + n) (sym (k.totals (deaths p) (deaths-IsQuiet p))));
  files = λ f. rw k.rfd (
      k.totals (opens f) (opens-IsQuiet f)
      ∙ h.files f
      ∙ ap (λ n. same f s.rfd + (same f wfd + n)) (sym (k.totals (closes f) (closes-IsQuiet f))));
}

-- hanging up behind a talk
hung_up-Balanced :
    (wfd : ℕ) (s s' : Sftp) (log : List Event)
    → Holding wfd s
    → ((w : Event → ℕ) → IsQuiet w → total w log ≡ total w s.log)
    → s'.log ≡ hung_up wfd s log
    → Balanced s'
hung_up-Balanced wfd s s' log h t e = record {
  procs = λ p.
      rw e (
        omega (arith, h.procs p, t (births p) (births-IsQuiet p), t (deaths p) (deaths-IsQuiet p)));
  files = λ f.
      rw e
        (omega (arith, h.files f, t (opens f) (opens-IsQuiet f), t (closes f) (closes-IsQuiet f)));
}

died-IsOwned : (keep : Bool) (wfd : ℕ) (s : Sftp) → Holding wfd s → IsOwned keep (leave (s, died)).0
died-IsOwned keep wfd s h =
    hung_up-Balanced wfd s (leave (s, died)).0 s.log h (λ w q. refl) (rw h.wfp refl)

alive-IsOwned :
    (keep : Bool) (wfd : ℕ) (s : Sftp)
    → Holding wfd s
    → s.isprocalive ≡ keep
    → keep ≡ true
    → IsOwned keep s
alive-IsOwned keep wfd s h a k = subst (λ b. Owned keep b s) (sym (a ∙ k)) (k, (wfd, h))

replied-IsOwned :
    (keep : Bool) (wfd : ℕ) (s s' : Sftp) (cc : Option ℕ)
    → Keeps s (replied s' cc).0
    → Holding wfd s
    → s.isprocalive ≡ keep
    → keep ≡ true
    → IsOwned keep (leave (replied s' cc)).0
replied-IsOwned keep wfd s s' none k h a e = died-IsOwned keep wfd s' (Keeps-Holding wfd k h)
replied-IsOwned keep wfd s s' (some n) k h a e =
    alive-IsOwned keep wfd s' (Keeps-Holding wfd k h) (k.alive ∙ a) e

command-IsOwned :
    (keep : Bool) (env : Env) (wfd : ℕ) (text : Bytes) (s : Sftp)
    → Holding wfd s
    → s.isprocalive ≡ keep
    → keep ≡ true
    → IsOwned keep (leave (command env wfd text s)).0
unfolding command
command-IsOwned keep env wfd text s h a e =
    let x = put_cmd env wfd s.rfd text s.log in
    replied-IsOwned keep wfd s (record s { log = x.0 }) x.1 (command-Keeps env wfd text s) h a e

pub finish-pwd :
    (env : Env) (o : Put) (wfd : ℕ) (s : Sftp)
    → o.keepproc ≡ true
    → finish env o wfd s ≡ command env wfd (codes "pwd\n") s
unfolding finish
finish-pwd env o wfd s e = rw (finish, e) refl

abbrev quit_log : Env → ℕ → Sftp → List Event
quit_log env wfd s = (put_cmd env wfd s.rfd (codes "quit\n") s.log).0

finish-quit :
    (env : Env) (o : Put) (wfd : ℕ) (s : Sftp)
    → o.keepproc ≡ false
    → finish env o wfd s ≡ (record s { log = hung_up wfd s (quit_log env wfd s) }, done)
unfolding finish
finish-quit env o wfd s e = rw (finish, e) refl

finish-IsOwned :
    (env : Env) (o : Put) (wfd : ℕ) (s : Sftp)
    → Holding wfd s
    → s.isprocalive ≡ o.keepproc
    → IsOwned o.keepproc (leave (finish env o wfd s)).0
finish-IsOwned env o wfd s h a = elim (Bool-cases o.keepproc) [
  | inl e ↦
      subst (λ x. IsOwned o.keepproc (leave x).0) (sym (finish-pwd env o wfd s e))
        (command-IsOwned o.keepproc env wfd (codes "pwd\n") s h a e)
  | inr e ↦
      let s' : Sftp = record s { log = hung_up wfd s (quit_log env wfd s) } in
      subst (λ x. IsOwned o.keepproc (leave x).0) (sym (finish-quit env o wfd s e))
        (subst (λ b. Owned o.keepproc b s') (sym (a ∙ e))
          (hung_up-Balanced wfd s s' (quit_log env wfd s) h
            (λ w q. put_cmd-total env wfd s.rfd (codes "quit\n") s.log w q) refl))
]

go_on-IsOwned :
    (F : Type 0) (env : Env) (o : Put) (wfd : ℕ) (s : Sftp) (x : Sftp × Flow)
    → Passed F s x
    → (F → o.keepproc ≡ true)
    → Holding wfd s
    → s.isprocalive ≡ o.keepproc
    → IsOwned o.keepproc (leave (go_on x (finish env o wfd))).0
go_on-IsOwned F env o wfd s (s', done) k may h a =
    finish-IsOwned env o wfd s' (Keeps-Holding wfd k h) (k.alive ∙ a)
go_on-IsOwned F env o wfd s (s', died) k may h a =
    died-IsOwned o.keepproc wfd s' (Keeps-Holding wfd k h)
go_on-IsOwned F env o wfd s (s', err) (k, f) may h a =
    alive-IsOwned o.keepproc wfd s' (Keeps-Holding wfd k h) (k.alive ∙ a) (may f)

pub talk-IsOwned :
    (env : Env) (o : Put) (wfd : ℕ) (s : Sftp)
    → (Fails env → o.keepproc ≡ true)
    → Holding wfd s
    → s.isprocalive ≡ o.keepproc
    → IsOwned o.keepproc (leave (talk env o s.wfp s)).0
unfolding talk
talk-IsOwned env o wfd s may h a =
    let x = go_on (command env wfd (put_text env o) s) (notify env o wfd o.lntfy) in
    let passed : Passed (Fails env) s x =
      go_on-Passed (Fails env) s (command env wfd (put_text env o) s) (notify env o wfd o.lntfy)
        (command-Passed (Fails env) env wfd (put_text env o) s)
        (λ s' k. Passed-lift (Fails env) k _ (notify-Passed env o wfd o.lntfy s')) in
    subst (λ p. IsOwned o.keepproc (leave (talk env o p s)).0) (sym h.wfp)
      (go_on-IsOwned (Fails env) env o wfd s x passed may h a)
