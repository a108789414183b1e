-- ===== src/Trans/Sftp/Script.antt =====
-- sftp_put: a call tells the whole of its commands, or a part from their start.
use jit_dt.Common.{
  ℕ, ◌≡◌, refl, sym, subst, ◌∙◌, ◌⊎◌, inl, inr, Bool, true, false, List, [], ◌∷◌, Option, none,
  some, Bytes, if◌then◌else◌, Bool-cases, Option-cases,
}
use jit_dt.Common.Outcome.{ret}
use jit_dt.Common.Arrays.{append_nil}
use jit_dt.Trans.Sftp.{
  Event, registered, piped, closed, waited, Env, Sftp, Put, Flow, done, died, err, talk, leave,
  spawn, register, launch, sftp_put,
}
use jit_dt.Trans.Sftp.Owns.{Ends, Ends-bind, Ends-map}
use jit_dt.Trans.Sftp.Told.{told, Unanswered, Prefix, Tells, turned, script, talk-Tells}

told_hung :
    (s : Sftp) (p : Option ℕ)
    → told (elim p [
      | none ↦ closed s.rfd ∷ waited s.sftpid ∷ s.log
      | some wfd ↦ closed wfd ∷ closed s.rfd ∷ waited s.sftpid ∷ s.log
    ])
      ≡ told s.log
told_hung s none = refl
told_hung s (some wfd) = refl

leave-Tells :
    (env : Env) (old : List Bytes) (v v' : ℕ) (ts : List Bytes) (x : Sftp × Flow)
    → Tells env old v ts v' x
    → Tells env old v ts v' (leave x)
leave-Tells env old v v' ts (s, done) h = h
leave-Tells env old v v' ts (s, died) (h, u) =
    (subst (Prefix old ts) (sym (told_hung s s.wfp)) h, u)
leave-Tells env old v v' ts (s, err) h = h

-- There is a pipe to write to, or fdopen has failed.
record Open (env : Env) (s s1 : Sftp) : Type 0 where
  told_same : told s1.log ≡ told s.log
  vrsn : s1.vrsn ≡ s.vrsn
  wfp : ((wfd : ℕ) × (s1.wfp ≡ some wfd)) ⊎ ((s1.wfp ≡ none) × Unanswered env)

opened-wfp :
    (env : Env) (log : List Event) (fd : ℕ)
    → let p = if env.fdopen log then some fd else none in
      ((wfd : ℕ) × (p ≡ some wfd)) ⊎ ((p ≡ none) × Unanswered env)
opened-wfp env log fd = elim (Bool-cases (env.fdopen log)) [
  | inl e ↦ rw e (inl (fd, refl))
  | inr e ↦ rw e (inr (refl, (log, inr (inr e))))
]

spawn-Open : (env : Env) (o : Put) (s : Sftp) → Ends env (Open env s) (spawn env o s)
unfolding spawn
spawn-Open env o s = elim (Option-cases (env.pipe s.log)) [
  | inl e ↦ rw (spawn, e) (s.log, inl e)
  | inr ((t0, t1), e) ↦ elim (Option-cases (env.pipe (piped t0 t1 ∷ s.log))) [
    | inl f ↦ rw (spawn, e, f) (_, inl f)
    | inr ((f0, f1), f) ↦ elim (Option-cases (env.fork (piped f0 f1 ∷ piped t0 t1 ∷ s.log))) [
      | inl g ↦ rw (spawn, e, f, g) (_, inr g)
      | inr (pid, g) ↦
          rw (spawn, e, f, g) record { told_same = refl; vrsn = refl; wfp = opened-wfp env _ t1 }
    ]
  ]
]

-- A process that is kept has its pipe.
abbrev pub HasPipe : Sftp → Type 0
HasPipe s = s.isprocalive ≡ true → (wfd : ℕ) × (s.wfp ≡ some wfd)

launched-Open :
    (env : Env) (o : Put) (s : Sftp) (alive : Bool)
    → s.isprocalive ≡ alive
    → HasPipe s
    → Ends env (Open env s) (if alive then ret s else spawn env o s)
launched-Open env o s true a h = record { told_same = refl; vrsn = refl; wfp = inl (h a) }
launched-Open env o s false a h = spawn-Open env o s

registered-Open :
    (env : Env) (s s1 : Sftp) (first : Bool)
    → Open env (if first then s else record s { first = true; log = registered ∷ s.log }) s1
    → Open env s s1
registered-Open env s s1 true h = h
registered-Open env s s1 false h = record { told_same = h.told_same; vrsn = h.vrsn; wfp = h.wfp }

registered-HasPipe :
    (s : Sftp) (first : Bool)
    → HasPipe s
    → HasPipe (if first then s else record s { first = true; log = registered ∷ s.log })
registered-HasPipe s true h = h
registered-HasPipe s false h = h

talk_opened-Tells :
    (env : Env) (o : Put) (s s1 : Sftp) (p : Option ℕ)
    → o.keepproc ≡ true
    → Open env s s1
    → ((wfd : ℕ) × (p ≡ some wfd)) ⊎ ((p ≡ none) × Unanswered env)
    → Tells env (told s.log) s.vrsn (script env o s.vrsn) (turned o.lntfy s.vrsn) (talk env o p s1)
unfolding talk
talk_opened-Tells env o s s1 p keep h (inl (wfd, e)) =
    let x = talk env o (some wfd) s1 in
    subst
      (λ q.
        Tells env (told s.log) s.vrsn (script env o s.vrsn) (turned o.lntfy s.vrsn)
          (talk env o q s1))
      (sym e)
      (subst (λ v. Tells env (told s.log) v (script env o v) (turned o.lntfy v) x) h.vrsn
        (subst (λ l. Tells env l s1.vrsn (script env o s1.vrsn) (turned o.lntfy s1.vrsn) x)
          h.told_same (talk-Tells env o wfd s1 keep)))
talk_opened-Tells env o s s1 p keep h (inr (e, u)) =
    subst
      (λ q.
        Tells env (told s.log) s.vrsn (script env o s.vrsn) (turned o.lntfy s.vrsn)
          (talk env o q s1))
      (sym e)
      (
        ([], (script env o s.vrsn, (refl, h.told_same ∙ sym (append_nil (told s.log))))),
        (inl h.vrsn, u),
      )

-- A call of sftp_put that keeps its process tells sftp, behind all that was told before: to put the
-- file, to put the notification with the current number if there is a file of it, and `pwd`, in
-- this order, and the number is then the next one modulo 10. Where it ends before, a part from the
-- start of these commands was told, the number is the old or the next one, and there is a cause: an
-- answer that did not come, the command of the notification that cannot be run, or no more pipes or
-- processes, where it exits.
pub sftp_put-Tells :
    (env : Env) (o : Put) (s : Sftp)
    → o.keepproc ≡ true
    → HasPipe s
    → Ends env
        (Tells env (told s.log) s.vrsn (script env o s.vrsn) (turned o.lntfy s.vrsn))
        (sftp_put env o s)
unfolding sftp_put
sftp_put-Tells env o s keep h =
    Ends-bind env (Open env s)
      (Tells env (told s.log) s.vrsn (script env o s.vrsn) (turned o.lntfy s.vrsn))
      (launch env o (register s)) _
      (Ends-map env (Open env (register s)) (Open env s) (launch env o (register s))
        (launched-Open env o (register s) (register s).isprocalive refl
          (registered-HasPipe s s.first h))
        (λ s1 k. registered-Open env s s1 s.first k))
      (λ s1 k.
        leave-Tells env (told s.log) s.vrsn (turned o.lntfy s.vrsn) (script env o s.vrsn) _
          (talk_opened-Tells env o s s1 s1.wfp keep k k.wfp))
