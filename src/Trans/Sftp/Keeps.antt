-- ===== src/Trans/Sftp/Keeps.antt =====
-- sftp_put: what a command leaves as it is, and counts of what was opened and closed.
use jit_dt.Common.{
  ℕ, ◌+◌, ◌≡◌, refl, sym, subst, ◌∙◌, inl, inr, false, List, [], ◌∷◌, Option, none, some, Bytes,
  arith, ◌==◌, if◌then◌else◌, Bool-cases, Option-cases,
}
use jit_dt.Trans.Sftp.{
  Event, registered, piped, forked, closed, sent, answered, ran, waited, Env, Sftp, Put, Flow, done,
  died, err, wait_rwfd, read_reply, wait_reply, put_cmd, replied, command, go_on, echo_text,
  notify_text, versioned, notify,
}

abbrev pub same : ℕ → ℕ → ℕ
same x y = if x == y then 1 else 0

-- how often a process was forked and waited for
abbrev pub births : ℕ → Event → ℕ
births pid (forked p args) = same pid p
births pid e = 0

abbrev pub deaths : ℕ → Event → ℕ
deaths pid (waited p) = same pid p
deaths pid e = 0

-- how often a descriptor was opened and closed
abbrev pub opens : ℕ → Event → ℕ
opens fd (piped r w) = same fd r + same fd w
opens fd e = 0

abbrev pub closes : ℕ → Event → ℕ
closes fd (closed f) = same fd f
closes fd e = 0

abbrev pub total : (Event → ℕ) → List Event → ℕ
total w [] = 0
total w (e ∷ es) = w e + total w es

-- a count of none of the events of a talk
pub record IsQuiet (w : Event → ℕ) : Type 0 where
  pub no_sent : (t : Bytes) → w (sent t) ≡ 0
  pub no_answered : (n : ℕ) → w (answered n) ≡ 0
  pub no_ran : (t : Bytes) → w (ran t) ≡ 0
  pub no_registered : w registered ≡ 0

pub births-IsQuiet : (p : ℕ) → IsQuiet (births p)
births-IsQuiet p = record {
  no_sent = λ t. refl;
  no_answered = λ n. refl;
  no_ran = λ t. refl;
  no_registered = refl;
}

pub deaths-IsQuiet : (p : ℕ) → IsQuiet (deaths p)
deaths-IsQuiet p = record {
  no_sent = λ t. refl;
  no_answered = λ n. refl;
  no_ran = λ t. refl;
  no_registered = refl;
}

pub opens-IsQuiet : (p : ℕ) → IsQuiet (opens p)
opens-IsQuiet p = record {
  no_sent = λ t. refl;
  no_answered = λ n. refl;
  no_ran = λ t. refl;
  no_registered = refl;
}

pub closes-IsQuiet : (p : ℕ) → IsQuiet (closes p)
closes-IsQuiet p = record {
  no_sent = λ t. refl;
  no_answered = λ n. refl;
  no_ran = λ t. refl;
  no_registered = refl;
}

wait_reply-total :
    (env : Env) (rfd : ℕ) (log : List Event) (w : Event → ℕ)
    → IsQuiet w
    → total w (wait_reply env rfd log).0 ≡ total w log
unfolding wait_reply read_reply
wait_reply-total env rfd log w q =
    elim (Bool-cases (wait_rwfd (env.select log (some rfd) none) (some rfd) none)) [
      | inl e ↦ elim (Option-cases (env.read log)) [
        | inl f ↦ rw (wait_reply, e, f, read_reply) refl
        | inr (n, f) ↦ rw (wait_reply, e, f, read_reply) (omega (arith, q.no_answered n))
      ]
      | inr e ↦ rw (wait_reply, e) refl
    ]

pub put_cmd-total :
    (env : Env) (wfd rfd : ℕ) (text : Bytes) (log : List Event) (w : Event → ℕ)
    → IsQuiet w
    → total w (put_cmd env wfd rfd text log).0 ≡ total w log
unfolding put_cmd
put_cmd-total env wfd rfd text log w q =
    elim (Bool-cases (wait_rwfd (env.select log none (some wfd)) none (some wfd))) [
      | inl e ↦
          rw (put_cmd, e)
            (omega (arith, wait_reply-total env rfd (sent text ∷ log) w q, q.no_sent text))
      | inr e ↦ rw (put_cmd, e) refl
    ]

-- the same process, the same pipes, and only words in between
pub record Keeps (s s' : Sftp) : Type 0 where
  pub alive : s'.isprocalive ≡ s.isprocalive
  pub wfp : s'.wfp ≡ s.wfp
  pub rfd : s'.rfd ≡ s.rfd
  pub sftpid : s'.sftpid ≡ s.sftpid
  pub totals : (w : Event → ℕ) → IsQuiet w → total w s'.log ≡ total w s.log

pub Keeps-refl : (s : Sftp) → Keeps s s
Keeps-refl s = record { alive = refl; wfp = refl; rfd = refl; sftpid = refl; totals = λ w q. refl }

Keeps-trans : {a b c : Sftp} → Keeps a b → Keeps b c → Keeps a c
Keeps-trans k l = record {
  alive = l.alive ∙ k.alive;
  wfp = l.wfp ∙ k.wfp;
  rfd = l.rfd ∙ k.rfd;
  sftpid = l.sftpid ∙ k.sftpid;
  totals = λ w q. l.totals w q ∙ k.totals w q;
}

replied-state : (s : Sftp) (cc : Option ℕ) → (replied s cc).0 ≡ s
replied-state s none = refl
replied-state s (some n) = refl

pub command-Keeps :
    (env : Env) (wfd : ℕ) (text : Bytes) (s : Sftp) → Keeps s (command env wfd text s).0
unfolding command
command-Keeps env wfd text s =
    let x = put_cmd env wfd s.rfd text s.log in
    let s' : Sftp = record s { log = x.0 } in
    subst (λ a. Keeps s a) (sym (replied-state s' x.1))
      (record {
        alive = refl;
        wfp = refl;
        rfd = refl;
        sftpid = refl;
        totals = λ w q. put_cmd-total env wfd s.rfd text s.log w q;
      })

-- `err` only where it is allowed
abbrev pub Passed : Type 0 → Sftp → Sftp × Flow → Type 0
Passed fails s (s', done) = Keeps s s'
Passed fails s (s', died) = Keeps s s'
Passed fails s (s', err) = Keeps s s' × fails

replied-Passed :
    (fails : Type 0) (s s' : Sftp) (cc : Option ℕ)
    → Keeps s (replied s' cc).0
    → Passed fails s (replied s' cc)
replied-Passed fails s s' none k = k
replied-Passed fails s s' (some n) k = k

pub command-Passed :
    (fails : Type 0) (env : Env) (wfd : ℕ) (text : Bytes) (s : Sftp)
    → Passed fails s (command env wfd text s)
unfolding command
command-Passed fails env wfd text s = replied-Passed fails s _ _ (command-Keeps env wfd text s)

pub go_on-Passed :
    (fails : Type 0) (s : Sftp) (x : Sftp × Flow) (f : Sftp → Sftp × Flow)
    → Passed fails s x
    → ((s' : Sftp) → Keeps s s' → Passed fails s (f s'))
    → Passed fails s (go_on x f)
go_on-Passed fails s (s', done) f h k = k s' h
go_on-Passed fails s (s', died) f h k = h
go_on-Passed fails s (s', err) f h k = h

pub Passed-lift :
    (fails : Type 0) {s s' : Sftp}
    → Keeps s s'
    → (x : Sftp × Flow) → Passed fails s' x
    → Passed fails s x
Passed-lift fails k (t, done) h = Keeps-trans k h
Passed-lift fails k (t, died) h = Keeps-trans k h
Passed-lift fails k (t, err) (h, f) = (Keeps-trans k h, f)

-- The command of the notification cannot be run.
abbrev pub Fails : Env → Type 0
Fails env = (l : List Event) × ((c : Bytes) × (env.system l c ≡ false))

pub notify-Passed :
    (env : Env) (o : Put) (wfd : ℕ) (lntfy : Option Bytes) (s : Sftp)
    → Passed (Fails env) s (notify env o wfd lntfy s)
unfolding notify
notify-Passed env o wfd none s = Keeps-refl s
notify-Passed env o wfd (some l) s =
    let cmd = echo_text env o l in
    let s' : Sftp = record s { log = ran cmd ∷ s.log } in
    let told : Keeps s s' = record {
      alive = refl;
      wfp = refl;
      rfd = refl;
      sftpid = refl;
      totals = λ w q. omega (arith, q.no_ran cmd);
    } in
    elim (Bool-cases (env.system s.log cmd)) [
      | inl e ↦
          rw (notify, e)
            (go_on-Passed _ s (command env wfd (notify_text env o l s.vrsn) s') versioned
              (Passed-lift _ told _ (command-Passed _ env wfd (notify_text env o l s.vrsn) s'))
              (λ s2 k. record {
                alive = k.alive;
                wfp = k.wfp;
                rfd = k.rfd;
                sftpid = k.sftpid;
                totals = k.totals;
              }))
      | inr e ↦ rw (notify, e) (told, (s.log, (cmd, e)))
    ]
