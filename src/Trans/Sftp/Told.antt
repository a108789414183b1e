-- ===== src/Trans/Sftp/Told.antt =====
-- sftp_put: what sftp is told by one talk, and the number of the notification.
use jit_dt.Common.{
  ℕ, ◌+◌, ◌%◌, ◌≡◌, refl, sym, ap, subst, ◌∙◌, ◌⊎◌, inl, inr, true, false, List, [], ◌∷◌, ◌++◌,
  Option, none, some, Bytes, codes, Bool-cases, Option-cases,
}
use jit_dt.Common.Arrays.{append_nil, append_assoc}
use jit_dt.Trans.Sftp.{
  Event, sent, ran, Env, Sftp, Put, Flow, done, died, err, f_version_m, wait_rwfd, read_reply,
  wait_reply, put_cmd, replied, command, go_on, put_text, echo_text, notify_text, versioned, notify,
  finish, talk,
}
use jit_dt.Trans.Sftp.Keeps.{Fails}
use jit_dt.Trans.Sftp.Holding.{finish-pwd}

-- what was sent, the oldest first
abbrev pub told : List Event → List Bytes
told [] = []
told (sent t ∷ es) = told es ++ (t ∷ [])
told (e ∷ es) = told es

-- The system did not answer: a wait was not for the descriptor asked for, a read or fdopen failed.
abbrev pub Unanswered : Env → Type 0
Unanswered env =
    (l : List Event) × (((rfd : Option ℕ) × ((wfd : Option ℕ) × (wait_rwfd (env.select l rfd wfd)
              rfd wfd
            ≡ false)))
      ⊎ ((env.read l ≡ none) ⊎ (env.fdopen l ≡ false)))

abbrev pub Prefix : List Bytes → List Bytes → List Bytes → Type 0
Prefix old ts new =
    (pre : List Bytes) × ((post : List Bytes) × ((ts ≡ pre ++ post) × (new ≡ old ++ pre)))

abbrev Version : ℕ → ℕ → ℕ → Type 0
Version v v' w = (w ≡ v) ⊎ (w ≡ v')

-- From `old` told and the number `v`: at the end all of `ts` is told and the number is `v'`; or one
-- of its prefixes, and the cause is known.
abbrev pub Tells : Env → List Bytes → ℕ → List Bytes → ℕ → Sftp × Flow → Type 0
Tells env old v ts v' (s, done) = (told s.log ≡ old ++ ts) × (s.vrsn ≡ v')
Tells env old v ts v' (s, died) =
    Prefix old ts (told s.log) × (Version v v' s.vrsn × Unanswered env)
Tells env old v ts v' (s, err) = Prefix old ts (told s.log) × (Version v v' s.vrsn × Fails env)

-- what one command leaves of the log
abbrev Sent : Env → List Bytes → Bytes → List Event × Option ℕ → Type 0
Sent env old text (log, none) = Prefix old (text ∷ []) (told log) × Unanswered env
Sent env old text (log, some sz) = told log ≡ old ++ (text ∷ [])

put_cmd-Sent :
    (env : Env) (wfd rfd : ℕ) (text : Bytes) (log : List Event)
    → Sent env (told log) text (put_cmd env wfd rfd text log)
unfolding put_cmd wait_reply read_reply
put_cmd-Sent env wfd rfd text log =
    let log' : List Event = sent text ∷ log in
    elim (Bool-cases (wait_rwfd (env.select log none (some wfd)) none (some wfd))) [
      | inl e ↦ elim (Bool-cases (wait_rwfd (env.select log' (some rfd) none) (some rfd) none)) [
        | inl f ↦ elim (Option-cases (env.read log')) [
          | inl g ↦
              rw (put_cmd, wait_reply, e, f, g, read_reply)
                ((text ∷ [], ([], (refl, refl))), (log', inr (inl g)))
          | inr (n, g) ↦ rw (put_cmd, wait_reply, e, f, g, read_reply) refl
        ]
        | inr f ↦
            rw (put_cmd, wait_reply, e, f)
              ((text ∷ [], ([], (refl, refl))), (log', inl (some rfd, (none, f))))
      ]
      | inr e ↦
          rw (put_cmd, e)
            (
              ([], (text ∷ [], (refl, sym (append_nil (told log))))),
              (log, inl (none, (some wfd, e))),
            )
    ]

replied-Tells :
    (env : Env) (old : List Bytes) (text : Bytes) (s : Sftp) (log : List Event) (cc : Option ℕ)
    → Sent env old text (log, cc)
    → Tells env old s.vrsn (text ∷ []) s.vrsn (replied (record s { log = log }) cc)
replied-Tells env old text s log none (p, u) = (p, (inl refl, u))
replied-Tells env old text s log (some n) h = (h, refl)

command-Tells :
    (env : Env) (wfd : ℕ) (text : Bytes) (s : Sftp)
    → Tells env (told s.log) s.vrsn (text ∷ []) s.vrsn (command env wfd text s)
unfolding command
command-Tells env wfd text s =
    let x = put_cmd env wfd s.rfd text s.log in
    replied-Tells env (told s.log) text s x.0 x.1 (put_cmd-Sent env wfd s.rfd text s.log)

Prefix-more : (old ts us new : List Bytes) → Prefix old ts new → Prefix old (ts ++ us) new
Prefix-more old ts us new (pre, (post, (e, f))) =
    (pre, (post ++ us, (ap (λ x. x ++ us) e ∙ append_assoc pre post us, f)))

Prefix-behind :
    (old ts us mid new : List Bytes)
    → mid ≡ old ++ ts
    → Prefix mid us new
    → Prefix old (ts ++ us) new
Prefix-behind old ts us mid new m (pre, (post, (e, f))) = (
  ts ++ pre,
  (
    post,
    (
      ap (λ x. ts ++ x) e ∙ sym (append_assoc ts pre post),
      f ∙ ap (λ x. x ++ pre) m ∙ append_assoc old ts pre,
    ),
  ),
)

-- The number of the piece behind is new, or it is new in the piece before and stays.
abbrev Steady : ℕ → ℕ → ℕ → Type 0
Steady v v1 v2 = (v1 ≡ v) ⊎ (v1 ≡ v2)

Version-behind : (v v1 v2 w : ℕ) → Steady v v1 v2 → Version v1 v2 w → Version v v2 w
Version-behind v v1 v2 w (inl a) (inl b) = inl (b ∙ a)
Version-behind v v1 v2 w (inl a) (inr b) = inr b
Version-behind v v1 v2 w (inr a) (inl b) = inr (b ∙ a)
Version-behind v v1 v2 w (inr a) (inr b) = inr b

Version-more : (v v1 v2 w : ℕ) → Steady v v1 v2 → Version v v1 w → Version v v2 w
Version-more v v1 v2 w d (inl b) = inl b
Version-more v v1 v2 w d (inr b) = Version-behind v v1 v2 w d (inl b)

Tells-behind :
    (env : Env) (old mid : List Bytes) (v v1 v2 : ℕ) (ts us : List Bytes) (x : Sftp × Flow)
    → mid ≡ old ++ ts
    → Steady v v1 v2
    → Tells env mid v1 us v2 x
    → Tells env old v (ts ++ us) v2 x
Tells-behind env old mid v v1 v2 ts us (s, done) m d (h, n) =
    (h ∙ ap (λ y. y ++ us) m ∙ append_assoc old ts us, n)
Tells-behind env old mid v v1 v2 ts us (s, died) m d (h, (n, u)) =
    (Prefix-behind old ts us mid _ m h, (Version-behind v v1 v2 _ d n, u))
Tells-behind env old mid v v1 v2 ts us (s, err) m d (h, (n, u)) =
    (Prefix-behind old ts us mid _ m h, (Version-behind v v1 v2 _ d n, u))

go_on-Tells :
    (env : Env) (old : List Bytes) (v v1 v2 : ℕ) (ts us : List Bytes) (x : Sftp × Flow)
    (f : Sftp → Sftp × Flow)
    → Steady v v1 v2
    → Tells env old v ts v1 x
    → ((s : Sftp) → s.vrsn ≡ v1 → Tells env (told s.log) v1 us v2 (f s))
    → Tells env old v (ts ++ us) v2 (go_on x f)
go_on-Tells env old v v1 v2 ts us (s, done) f d (h, n) k =
    Tells-behind env old (told s.log) v v1 v2 ts us (f s) h d (k s n)
go_on-Tells env old v v1 v2 ts us (s, died) f d (h, (n, u)) k =
    (Prefix-more old ts us _ h, (Version-more v v1 v2 _ d n, u))
go_on-Tells env old v v1 v2 ts us (s, err) f d (h, (n, u)) k =
    (Prefix-more old ts us _ h, (Version-more v v1 v2 _ d n, u))

abbrev notice : Env → Put → Option Bytes → ℕ → List Bytes
notice env o none v = []
notice env o (some lntfy) v = notify_text env o lntfy v ∷ []

abbrev pub turned : Option Bytes → ℕ → ℕ
turned none v = v
turned (some lntfy) v = (v + 1) % f_version_m

notify-Tells :
    (env : Env) (o : Put) (wfd : ℕ) (lntfy : Option Bytes) (s : Sftp)
    → Tells env
        (told s.log)
        s.vrsn
        (notice env o lntfy s.vrsn)
        (turned lntfy s.vrsn)
        (notify env o wfd lntfy s)
unfolding notify
notify-Tells env o wfd none s = (sym (append_nil (told s.log)), refl)
notify-Tells env o wfd (some l) s =
    let s' : Sftp = record s { log = ran (echo_text env o l) ∷ s.log } in
    let text = notify_text env o l s.vrsn in
    elim (Bool-cases (env.system s.log (echo_text env o l))) [
      | inl e ↦
          rw (notify, e)
            (go_on-Tells env (told s.log) s.vrsn s.vrsn ((s.vrsn + 1) % f_version_m) (text ∷ []) []
              (command env wfd text s') versioned (inl refl) (command-Tells env wfd text s')
              (λ s2 n. (sym (append_nil (told s2.log)), ap (λ v. (v + 1) % f_version_m) n)))
      | inr e ↦
          rw (notify, e)
            (([], (text ∷ [], (refl, sym (append_nil (told s.log))))), (inl refl, (s.log, (_, e))))
    ]

-- the commands of a call that keeps the process
abbrev pub script : Env → Put → ℕ → List Bytes
script env o v = ((put_text env o ∷ []) ++ notice env o o.lntfy v) ++ (codes "pwd\n" ∷ [])

pub talk-Tells :
    (env : Env) (o : Put) (wfd : ℕ) (s : Sftp)
    → o.keepproc ≡ true
    → Tells env
        (told s.log)
        s.vrsn
        (script env o s.vrsn)
        (turned o.lntfy s.vrsn)
        (talk env o (some wfd) s)
unfolding talk
talk-Tells env o wfd s keep =
    let old = told s.log in
    let v' = turned o.lntfy s.vrsn in
    let put = command env wfd (put_text env o) s in
    let more =
      go_on-Tells env old s.vrsn s.vrsn v' (put_text env o ∷ []) (notice env o o.lntfy s.vrsn) put
        (notify env o wfd o.lntfy) (inl refl) (command-Tells env wfd (put_text env o) s)
        (λ s2 n.
          subst
            (λ v.
              Tells env (told s2.log) v (notice env o o.lntfy v) (turned o.lntfy v)
                (notify env o wfd o.lntfy s2))
            n (notify-Tells env o wfd o.lntfy s2)) in
    go_on-Tells env old s.vrsn v' v' _ (codes "pwd\n" ∷ []) _ (finish env o wfd) (inr refl) more
      (λ s3 n.
        subst (λ x. Tells env (told s3.log) v' (codes "pwd\n" ∷ []) v' x)
          (sym (finish-pwd env o wfd s3 keep))
          (subst
            (λ v.
              Tells env (told s3.log) v (codes "pwd\n" ∷ []) v (command env wfd (codes "pwd\n") s3))
            n (command-Tells env wfd (codes "pwd\n") s3)))
