-- ===== src/Http/Pieces.antt =====
-- Uploads: what post_progress writes of a file.
use jit_dt.Common.{
  ℕ, zero, suc, ◌≤◌, ◌<◌, ◌≡◌, refl, sym, ap, ap₂, subst, ◌∙◌, ◌↔◌, ◌⊎◌, inl, inr, Bool, true, List,
  [], ◌∷◌, ◌++◌, Option, none, some, Bytes, All, length, take, arith, ◌==◌, ==_refl, if◌then◌else◌,
  length-append, length-take, false,
}
use jit_dt.Common.Arrays.{append_assoc, append_nil}
use jit_dt.Http.{
  Event, opened, wrote, unwritten, closed, Part, Env, Context, Run, ret, ◌>>=◌, write_loop,
  open_part, part_file, write_part, post_progress, post_parts,
}

-- what is written into an open file, in the order of the writes
abbrev pub content : ℕ → List Event → Bytes
content fp [] = []
content fp (opened g n ∷ log) = content fp log
content fp (wrote g b ∷ log) = content fp log ++ (if g == fp then b else [])
content fp (unwritten g ∷ log) = content fp log
content fp (closed g ∷ log) = content fp log

-- the first `n` bytes, the first `n - 1` bytes, ..., the first byte
abbrev pub shrinking : ℕ → Bytes → Bytes
shrinking zero b = []
shrinking (suc n) b = take (suc n) b ++ shrinking n b

abbrev pub Wrote : ℕ → Bytes → List Event → Run (List Event) → Type 0
Wrote fp b log r = (log' : List Event) × ((r ≡ ret log') × (content fp log' ≡ content fp log ++ b))

write_loop-Wrote :
    (fuel : ℕ) (env : Env) (fp : ℕ) (chunk : Bytes) (size : ℕ) (log : List Event)
    → ((l : List Event) → env.fwrite l ≡ true)
    → size ≤ fuel
    → Wrote fp (shrinking size chunk) log (write_loop fuel env fp chunk size log)
unfolding write_loop
write_loop-Wrote zero env fp chunk zero log w h = (log, (refl, sym (append_nil (content fp log))))
write_loop-Wrote (suc fuel) env fp chunk zero log w h =
    (log, (refl, sym (append_nil (content fp log))))
write_loop-Wrote zero env fp chunk (suc size) log w h = absurd (omega arith)
write_loop-Wrote (suc fuel) env fp chunk (suc size) log w h =
    let (log', (e, c)) =
      write_loop-Wrote fuel env fp chunk size (wrote fp (take (suc size) chunk) ∷ log) w
        (omega arith) in
    rw (write_loop, w log)
      (
        log',
        (
          e,
          c
              ∙ (rw (==_refl fp)
                  (append_assoc (content fp log) (take (suc size) chunk) (shrinking size chunk))),
        ),
      )

length-shrinking : (n : ℕ) (b : Bytes) → n ≤ length b → n ≤ length (shrinking n b)
length-shrinking zero b h = omega arith
length-shrinking (suc n) b h =
    omega (arith, length-append (take (suc n) b) (shrinking n b), length-take (suc n) b)

length-shrinking_more :
    (n : ℕ) (b : Bytes) → suc (suc n) ≤ length b → suc (suc n) < length (shrinking (suc (suc n)) b)
length-shrinking_more n b h = omega (
  arith,
  length-append (take (suc (suc n)) b) (shrinking (suc n) b),
  length-take (suc (suc n)) b,
  length-shrinking (suc n) b (omega arith),
)

-- Nothing is open yet, or `c` is written into the file.
abbrev pub Ready : Bytes → ℕ → Bytes → Context → Type 0
Ready name fp c s =
    ((s.fp ≡ none)
      × ((s.fname ≡ none) × ((length s.log ≡ fp) × ((content fp s.log ≡ []) × (c ≡ [])))))
    ⊎ ((s.fp ≡ some fp) × ((s.fname ≡ some name) × (content fp s.log ≡ c)))

-- a part of the file that libmicrohttpd has found a type for
abbrev pub IsPart : Bytes → Part → Type 0
IsPart name p = (p.has_type ≡ true) × (p.filename ≡ name)

pub record Works (env : Env) : Type 0 where
  pub fopen : (l : List Event) (n : Bytes) → env.fopen l n ≡ true
  pub fwrite : (l : List Event) → env.fwrite l ≡ true

-- `Works`, and strcmp finds equal names equal: the kept name is still there.
pub record Steady (env : Env) : Type 0 where
  pub works : Works env
  pub differs : (l : List Event) (n : Bytes) → env.differs l n n ≡ false

record Opens (name : Bytes) (fp : ℕ) (c : Bytes) (x : Run (Option ℕ × Context)) : Type 0 where
  state : Context
  returned : x ≡ ret (some fp, state)
  fp_is : state.fp ≡ some fp
  fname_is : state.fname ≡ some name
  content_is : content fp state.log ≡ c

part_file-Opens :
    (env : Env) (name : Bytes) (fp : ℕ) (c : Bytes) (p : Part) (s : Context)
    → Steady env
    → IsPart name p
    → Ready name fp c s
    → Opens name fp c (part_file env p s)
unfolding part_file open_part
part_file-Opens env name fp c p s w h (inl (a, (b, (d, (e, f))))) =
    let s' : Context = record {
      fp = some (length s.log);
      fname = some p.filename;
      log = opened (length s.log) p.filename ∷ s.log;
    } in
    rw (part_file, b, a, open_part, w.works.fopen s.log p.filename)
      record {
        state = s';
        returned = ap (λ n. ret (some n, s')) d;
        fp_is = ap some d;
        fname_is = ap some h.1;
        content_is = e ∙ sym f;
      }
part_file-Opens env name fp c p s w h (inr (a, (b, e))) =
    let same : env.differs s.log name p.filename ≡ false =
      subst (λ n. env.differs s.log name n ≡ false) (sym h.1) (w.differs s.log name) in
    rw (part_file, b, same, a)
      record { state = s; returned = refl; fp_is = a; fname_is = b; content_is = e }

pub record Posts (name : Bytes) (fp : ℕ) (c : Bytes) (x : Run Context) : Type 0 where
  pub state : Context
  pub returned : x ≡ ret state
  pub ready : Ready name fp c state

abbrev pub stairs : List Part → Bytes
stairs [] = []
stairs (p ∷ ps) = shrinking (length p.chunk) p.chunk ++ stairs ps

record Progress (name : Bytes) (fp : ℕ) (c : Bytes) (x : Run (Bool × Context)) : Type 0 where
  state : Context
  returned : x ≡ ret (true, state)
  ready : Ready name fp c state

pub post_progress-typed :
    (fuel : ℕ) (env : Env) (p : Part) (s : Context)
    → p.has_type ≡ true
    → post_progress fuel env p s ≡ part_file env p s >>= write_part fuel env p
unfolding post_progress
post_progress-typed fuel env p s h = rw (post_progress, h) refl

post_progress-Progress :
    (fuel : ℕ) (env : Env) (name : Bytes) (fp : ℕ) (c : Bytes) (p : Part) (s : Context)
    → Steady env
    → IsPart name p
    → length p.chunk ≤ fuel
    → Ready name fp c s
    → Progress name fp (c ++ shrinking (length p.chunk) p.chunk) (post_progress fuel env p s)
unfolding write_part
post_progress-Progress fuel env name fp c p s w h hf r =
    let o = part_file-Opens env name fp c p s w h r in
    let (log, (e, k)) =
      write_loop-Wrote fuel env fp p.chunk (length p.chunk) o.state.log w.works.fwrite hf in
    rw (post_progress-typed fuel env p s h.0, o.returned, write_part, e)
      record {
        state = record o.state { log = log };
        returned = refl;
        ready = inr (
          o.fp_is,
          (o.fname_is, k ∙ ap (λ x. x ++ shrinking (length p.chunk) p.chunk) o.content_is),
        );
      }

pub post_parts-Posts :
    (fuel : ℕ) (env : Env) (name : Bytes) (fp : ℕ) (c : Bytes) (ps : List Part) (s : Context)
    → Steady env
    → All (IsPart name) ps
    → All (λ p. length p.chunk ≤ fuel) ps
    → Ready name fp c s
    → Posts name fp (c ++ stairs ps) (post_parts fuel env ps s)
unfolding post_parts
post_parts-Posts fuel env name fp c [] s w hs hf r = record {
  state = s;
  returned = refl;
  ready = subst (λ x. Ready name fp x s) (sym (append_nil c)) r;
}
post_parts-Posts fuel env name fp c (p ∷ ps) s w (h, hs) (f, fs) r =
    let one = post_progress-Progress fuel env name fp c p s w h f r in
    let c' = c ++ shrinking (length p.chunk) p.chunk in
    let rest = post_parts-Posts fuel env name fp c' ps one.state w hs fs one.ready in
    rw (post_parts, one.returned)
      record {
        state = rest.state;
        returned = rest.returned;
        ready =
            subst (λ x. Ready name fp x rest.state)
              (append_assoc c (shrinking (length p.chunk) p.chunk) (stairs ps)) rest.ready;
      }

-- the parts of all buffers, with those of the last call
abbrev pub all_parts : Env → List Bytes → List Part
all_parts env [] = env.process []
all_parts env (b ∷ bs) = env.process b ++ all_parts env bs

abbrev pub sent : List Part → Bytes
sent [] = []
sent (p ∷ ps) = p.chunk ++ sent ps

pub stairs-append : (ps qs : List Part) → stairs (ps ++ qs) ≡ stairs ps ++ stairs qs
stairs-append [] qs = refl
stairs-append (p ∷ ps) qs =
    ap (λ x. shrinking (length p.chunk) p.chunk ++ x) (stairs-append ps qs)
    ∙ sym (append_assoc (shrinking (length p.chunk) p.chunk) (stairs ps) (stairs qs))

-- More is written than was sent where a part has two bytes or more.
length-stairs : (ps : List Part) → length (sent ps) ≤ length (stairs ps)
length-stairs [] = omega arith
length-stairs (p ∷ ps) = omega (
  arith,
  length-append p.chunk (sent ps),
  length-append (shrinking (length p.chunk) p.chunk) (stairs ps),
  length-shrinking (length p.chunk) p.chunk (omega arith),
  length-stairs ps,
)

short : (b : Bytes) → length (shrinking (length b) b) ≤ length b → length b ≤ 1
short [] h = omega arith
short (x ∷ []) h = omega arith
short (x ∷ y ∷ b) h =
    absurd (omega (arith, length-shrinking_more (length b) (x ∷ y ∷ b) (omega arith)))

shrinking-short : (b : Bytes) → length b ≤ 1 → shrinking (length b) b ≡ b
shrinking-short [] h = refl
shrinking-short (x ∷ []) h = refl
shrinking-short (x ∷ y ∷ b) h = absurd (omega arith)

All_at_most :
    (ps : List Part) → length (stairs ps) ≤ length (sent ps) → All (λ p. length p.chunk ≤ 1) ps
All_at_most [] h = tt
All_at_most (p ∷ ps) h =
    let n = length p.chunk in
    let split = length-append p.chunk (sent ps) in
    let split' = length-append (shrinking n p.chunk) (stairs ps) in
    let here = length-shrinking n p.chunk (omega arith) in
    let there = length-stairs ps in
    (
      short p.chunk (omega (arith, split, split', here, there, h)),
      All_at_most ps (omega (arith, split, split', here, there, h)),
    )

stairs-short : (ps : List Part) → All (λ p. length p.chunk ≤ 1) ps → stairs ps ≡ sent ps
stairs-short [] h = refl
stairs-short (p ∷ ps) (h, hs) = ap₂ (λ x y. x ++ y) (shrinking-short p.chunk h) (stairs-short ps hs)

pub stairs-sent : (ps : List Part) → (stairs ps ≡ sent ps) ↔ All (λ p. length p.chunk ≤ 1) ps
stairs-sent ps = (λ e. All_at_most ps (omega (arith, ap length e)), stairs-short ps)
