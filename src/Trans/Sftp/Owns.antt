-- ===== src/Trans/Sftp/Owns.antt =====
-- sftp_put: the processes that are waited for and the descriptors that are closed.
use jit_dt.Common.{
  ℕ, ◌≡◌, refl, sym, subst, ◌∙◌, ◌⊎◌, inl, inr, Bool, true, false, List, [], ◌∷◌, none, All, arith,
  if◌then◌else◌, Option-cases,
}
use jit_dt.Common.Outcome.{Outcome, ret, exited, fault, ◌>>=◌}
use jit_dt.Trans.Sftp.{
  Event, registered, piped, forked, closed, Env, Sftp, Put, idle, spawn, register, launch, sftp_put,
  sftp_puts,
}
use jit_dt.Trans.Sftp.Keeps.{
  births, deaths, opens, closes, births-IsQuiet, deaths-IsQuiet, opens-IsQuiet, closes-IsQuiet,
  Keeps, Keeps-refl, Fails,
}
use jit_dt.Trans.Sftp.Holding.{Balanced, Holding, Owned, IsOwned, Keeps-Holding, talk-IsOwned}

-- The system has no more pipes or processes.
abbrev pub Refused : Env → Type 0
Refused env = (l : List Event) × ((env.pipe l ≡ none) ⊎ (env.fork l ≡ none))

abbrev pub Ends {ℓ} : {A : Type ℓ} → Env → (A → Type 0) → Outcome A → Type 0
Ends env P (ret a) = P a
Ends env P exited = Refused env
Ends env P fault = ⊥

pub Ends-bind {ℓ κ} :
    {A : Type ℓ} {B : Type κ} (env : Env) (P : A → Type 0) (Q : B → Type 0) (m : Outcome A)
    (f : A → Outcome B)
    → Ends env P m
    → ((a : A) → P a → Ends env Q (f a))
    → Ends env Q (m >>= f)
Ends-bind env P Q (ret a) f h k = k a h
Ends-bind env P Q exited f h k = h
Ends-bind env P Q fault f h k = elim h [ ]

pub Ends-map {ℓ} :
    {A : Type ℓ} (env : Env) (P Q : A → Type 0) (m : Outcome A)
    → Ends env P m
    → ((a : A) → P a → Q a)
    → Ends env Q m
Ends-map env P Q (ret a) h k = k a h
Ends-map env P Q exited h k = h
Ends-map env P Q fault h k = elim h [ ]

-- a process to talk to
abbrev Held : Bool → Sftp → Type 0
Held keep s = (s.isprocalive ≡ keep) × ((wfd : ℕ) × Holding wfd s)

spawn-Held :
    (env : Env) (o : Put) (s : Sftp)
    → ((l : List Event) → env.fdopen l ≡ true)
    → Balanced s
    → Ends env (Held o.keepproc) (spawn env o s)
unfolding spawn
spawn-Held env o s opened b = elim (Option-cases (env.pipe s.log)) [
  | inl e ↦ rw (spawn, e) (s.log, inl e)
  | inr ((t0, t1), e) ↦ elim (Option-cases (env.pipe (piped t0 t1 ∷ s.log))) [
    | inl f ↦ rw (spawn, e, f) (_, inl f)
    | inr ((f0, f1), f) ↦ elim (Option-cases (env.fork (piped f0 f1 ∷ piped t0 t1 ∷ s.log))) [
      | inl g ↦ rw (spawn, e, f, g) (_, inr g)
      | inr (pid, g) ↦
          rw (spawn, e, f, g)
            (
              refl,
              (
                t1,
                record {
                  wfp =
                      rw (opened (closed f1 ∷ forked pid _ ∷ piped f0 f1 ∷ piped t0 t1 ∷ s.log))
                        refl;
                  procs = λ p. omega (arith, b.procs p);
                  files = λ x. omega (arith, b.files x);
                },
              ),
            )
    ]
  ]
]

register-Keeps :
    (s : Sftp) (first : Bool)
    → Keeps s (if first then s else record s { first = true; log = registered ∷ s.log })
register-Keeps s true = Keeps-refl s
register-Keeps s false = record {
  alive = refl;
  wfp = refl;
  rfd = refl;
  sftpid = refl;
  totals = λ w q. omega (arith, q.no_registered);
}

Keeps-Balanced : {s s' : Sftp} → Keeps s s' → Balanced s → Balanced s'
Keeps-Balanced k b = record {
  procs = λ p.
      k.totals (births p) (births-IsQuiet p)
      ∙ b.procs p
      ∙ sym (k.totals (deaths p) (deaths-IsQuiet p));
  files = λ f.
      k.totals (opens f) (opens-IsQuiet f)
      ∙ b.files f
      ∙ sym (k.totals (closes f) (closes-IsQuiet f));
}

Keeps-Owned : {s s' : Sftp} (keep b : Bool) → Keeps s s' → Owned keep b s → Owned keep b s'
Keeps-Owned keep true k (e, (wfd, h)) = (e, (wfd, Keeps-Holding wfd k h))
Keeps-Owned keep false k h = Keeps-Balanced k h

register-IsOwned : (keep : Bool) (s : Sftp) → IsOwned keep s → IsOwned keep (register s)
register-IsOwned keep s h =
    let k = register-Keeps s s.first in
    subst (λ b. Owned keep b (register s)) (sym k.alive) (Keeps-Owned keep s.isprocalive k h)

launched-Held :
    (env : Env) (o : Put) (s : Sftp) (alive : Bool)
    → ((l : List Event) → env.fdopen l ≡ true)
    → s.isprocalive ≡ alive
    → Owned o.keepproc alive s
    → Ends env (Held o.keepproc) (if alive then ret s else spawn env o s)
launched-Held env o s true opened a (e, h) = (a ∙ sym e, h)
launched-Held env o s false opened a h = spawn-Held env o s opened h

sftp_put-Ends :
    (env : Env) (o : Put) (s : Sftp)
    → ((l : List Event) → env.fdopen l ≡ true)
    → (Fails env → o.keepproc ≡ true)
    → IsOwned o.keepproc s
    → Ends env (λ x. IsOwned o.keepproc x.0) (sftp_put env o s)
unfolding sftp_put
sftp_put-Ends env o s opened may h =
    Ends-bind env (Held o.keepproc) (λ x. IsOwned o.keepproc x.0) (launch env o (register s)) _
      (launched-Held env o (register s) (register s).isprocalive opened refl
        (register-IsOwned o.keepproc s h))
      (λ s1 (a, (wfd, k)). talk-IsOwned env o wfd s1 may k a)

puts-Ends :
    (env : Env) (keep : Bool) (os : List Put) (s : Sftp)
    → ((l : List Event) → env.fdopen l ≡ true)
    → All (λ o. o.keepproc ≡ keep) os
    → (Fails env → keep ≡ true)
    → IsOwned keep s
    → Ends env (IsOwned keep) (sftp_puts env os s)
puts-Ends env keep [] s opened ks may h = h
puts-Ends env keep (o ∷ os) s opened (k, ks) may h =
    Ends-bind env (λ x. IsOwned keep x.0) (IsOwned keep) (sftp_put env o s) _
      (subst (λ b. Ends env (λ x. IsOwned b x.0) (sftp_put env o s)) k
        (sftp_put-Ends env o s opened (λ f. k ∙ may f) (subst (λ b. IsOwned b s) (sym k) h)))
      (λ x i. puts-Ends env keep os x.0 opened ks may i)

-- If fdopen does not fail, all calls keep the process of sftp or none does, and in the latter case
-- the command of the notification can always be run, then a sequence of calls of sftp_put from its
-- first state ends with every process waited for and every descriptor closed, except the one
-- process that is kept and the two ends of its pipes; or the process exits, which happens only
-- where the system has no more pipes or processes.
pub sftp_puts-Ends :
    (env : Env) (keep : Bool) (os : List Put)
    → ((l : List Event) → env.fdopen l ≡ true)
    → All (λ o. o.keepproc ≡ keep) os
    → (Fails env → keep ≡ true)
    → Ends env (IsOwned keep) (sftp_puts env os idle)
sftp_puts-Ends env keep os opened ks may =
    puts-Ends env keep os idle opened ks may record { procs = λ p. refl; files = λ f. refl }
