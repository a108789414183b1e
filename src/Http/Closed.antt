-- ===== src/Http/Closed.antt =====
-- Uploads of any number of files: every file is closed as often as it was opened.
use jit_dt.Common.{
  ℕ, zero, suc, ◌+◌, ◌≤◌, ◌<◌, ◌≡◌, refl, ◌⊎◌, inl, inr, Bool, true, false, List, [], ◌∷◌, Option,
  none, some, Bytes, All, All-split, length, take, arith, ◌==◌, if◌then◌else◌, Bool-cases,
}
use jit_dt.Http.{
  Event, opened, wrote, unwritten, closed, Part, Env, Context, Run, ret, write_loop, is_other,
  close_file, open_part, reopen, part_file, write_part, post_progress, post_parts, finish_upload,
  uploadfile, posts, post_request,
}
use jit_dt.Http.Pieces.{Works, all_parts, post_progress-typed}
use jit_dt.Http.Request.{first_call}

abbrev pub same : ℕ → ℕ → ℕ
same g fp = if g == fp then 1 else 0

-- how often a file is opened and closed
abbrev pub opens : ℕ → List Event → ℕ
opens fp [] = 0
opens fp (opened g n ∷ log) = same g fp + opens fp log
opens fp (wrote g b ∷ log) = opens fp log
opens fp (unwritten g ∷ log) = opens fp log
opens fp (closed g ∷ log) = opens fp log

abbrev pub closes : ℕ → List Event → ℕ
closes fp [] = 0
closes fp (opened g n ∷ log) = closes fp log
closes fp (wrote g b ∷ log) = closes fp log
closes fp (unwritten g ∷ log) = closes fp log
closes fp (closed g ∷ log) = same g fp + closes fp log

-- Writing opens and closes nothing.
record Writes (log : List Event) (x : Run (List Event)) : Type 0 where
  log' : List Event
  returned : x ≡ ret log'
  opens_same : (fp : ℕ) → opens fp log' ≡ opens fp log
  closes_same : (fp : ℕ) → closes fp log' ≡ closes fp log

write_loop-Writes :
    (fuel : ℕ) (env : Env) (fp : ℕ) (chunk : Bytes) (size : ℕ) (log : List Event)
    → ((l : List Event) → env.fwrite l ≡ true)
    → size ≤ fuel
    → Writes log (write_loop fuel env fp chunk size log)
unfolding write_loop
write_loop-Writes zero env fp chunk zero log w h = record {
  log' = log;
  returned = refl;
  opens_same = λ g. refl;
  closes_same = λ g. refl;
}
write_loop-Writes (suc fuel) env fp chunk zero log w h = record {
  log' = log;
  returned = refl;
  opens_same = λ g. refl;
  closes_same = λ g. refl;
}
write_loop-Writes zero env fp chunk (suc size) log w h = absurd (omega arith)
write_loop-Writes (suc fuel) env fp chunk (suc size) log w h =
    let r =
      write_loop-Writes fuel env fp chunk size (wrote fp (take (suc size) chunk) ∷ log) w
        (omega arith) in
    rw (write_loop, w log)
      record {
        log' = r.log';
        returned = r.returned;
        opens_same = r.opens_same;
        closes_same = r.closes_same;
      }

-- the file that is open, if any
record Holding (fp : ℕ) (s : Context) : Type 0 where
  fp_is : s.fp ≡ some fp
  named : (n : Bytes) × (s.fname ≡ some n)
  counts : (g : ℕ) → opens g s.log ≡ same fp g + closes g s.log

record Idle (s : Context) : Type 0 where
  fp_is : s.fp ≡ none
  fname_is : s.fname ≡ none
  counts : (g : ℕ) → opens g s.log ≡ closes g s.log

abbrev Holds : Context → Type 0
Holds s = Idle s ⊎ ((fp : ℕ) × Holding fp s)

record Opens (x : Run (Option ℕ × Context)) : Type 0 where
  fp : ℕ
  state : Context
  returned : x ≡ ret (some fp, state)
  holding : Holding fp state

-- Files can be opened, written and closed.
pub record AllWorks (env : Env) : Type 0 where
  pub works : Works env
  pub fclose : (l : List Event) → env.fclose l ≡ true

open_part-Opens :
    (env : Env) (p : Part) (s : Context)
    → Works env
    → ((g : ℕ) → opens g s.log ≡ closes g s.log)
    → Opens (ret (open_part env p s))
unfolding open_part
open_part-Opens env p s w b =
    rw (open_part, w.fopen s.log p.filename)
      record {
        fp = length s.log;
        state = record s {
          fp = some (length s.log);
          fname = some p.filename;
          log = opened (length s.log) p.filename ∷ s.log;
        };
        returned = refl;
        holding = record {
          fp_is = refl;
          named = (p.filename, refl);
          counts = λ g. omega (arith, b g);
        };
      }

part_file-idle :
    (env : Env) (p : Part) (s : Context)
    → s.fp ≡ none
    → s.fname ≡ none
    → part_file env p s ≡ ret (open_part env p s)
unfolding part_file
part_file-idle env p s a b = ground arith

part_file-other :
    (env : Env) (p : Part) (s : Context) (fp : ℕ)
    → AllWorks env
    → s.fp ≡ some fp
    → is_other env s s.fname p ≡ true
    → part_file env p s ≡ ret (open_part env p record s { log = closed fp ∷ s.log })
unfolding part_file close_file reopen
part_file-other env p s fp w a b = ground (arith, w.fclose s.log)

part_file-open :
    (env : Env) (p : Part) (s : Context) (fp : ℕ)
    → s.fp ≡ some fp
    → is_other env s s.fname p ≡ false
    → part_file env p s ≡ ret (some fp, s)
unfolding part_file
part_file-open env p s fp a b = ground arith

part_file-Opens :
    (env : Env) (p : Part) (s : Context) → AllWorks env → Holds s → Opens (part_file env p s)
part_file-Opens env p s w (inl i) =
    rw (part_file-idle env p s i.fp_is i.fname_is) (open_part-Opens env p s w.works i.counts)
part_file-Opens env p s w (inr (fp, h)) = elim (Bool-cases (is_other env s s.fname p)) [
  | inl e ↦
      let s' : Context = record s { log = closed fp ∷ s.log } in
      rw (part_file-other env p s fp w h.fp_is e)
        (open_part-Opens env p s' w.works (λ g. omega (arith, h.counts g)))
  | inr e ↦
      rw (part_file-open env p s fp h.fp_is e)
        record { fp = fp; state = s; returned = refl; holding = h }
]

record Goes (x : Run (Bool × Context)) : Type 0 where
  state : Context
  returned : x ≡ ret (true, state)
  holds : Holds state

post_progress-Goes :
    (fuel : ℕ) (env : Env) (p : Part) (s : Context)
    → AllWorks env
    → length p.chunk ≤ fuel
    → Holds s
    → Goes (post_progress fuel env p s)
unfolding post_progress write_part
post_progress-Goes fuel env p s w hf h = elim (Bool-cases p.has_type) [
  | inl e ↦
      let o = part_file-Opens env p s w h in
      let r =
        write_loop-Writes fuel env o.fp p.chunk (length p.chunk) o.state.log w.works.fwrite hf in
      rw (post_progress-typed fuel env p s e, o.returned, write_part, r.returned)
        record {
          state = record o.state { log = r.log' };
          returned = refl;
          holds = inr (
            o.fp,
            record {
              fp_is = o.holding.fp_is;
              named = o.holding.named;
              counts = λ g. omega (arith, o.holding.counts g, r.opens_same g, r.closes_same g);
            },
          );
        }
  | inr e ↦ rw (post_progress, e) record { state = s; returned = refl; holds = h }
]

record Ends (x : Run Context) : Type 0 where
  state : Context
  returned : x ≡ ret state
  holds : Holds state

post_parts-Ends :
    (fuel : ℕ) (env : Env) (ps : List Part) (s : Context)
    → AllWorks env
    → All (λ p. length p.chunk ≤ fuel) ps
    → Holds s
    → Ends (post_parts fuel env ps s)
unfolding post_parts
post_parts-Ends fuel env [] s w hf h = record { state = s; returned = refl; holds = h }
post_parts-Ends fuel env (p ∷ ps) s w (f, fs) h =
    let one = post_progress-Goes fuel env p s w f h in
    let rest = post_parts-Ends fuel env ps one.state w fs one.holds in
    rw (post_parts, one.returned)
      record { state = rest.state; returned = rest.returned; holds = rest.holds }

-- The end of a request, with every file closed as often as it was opened.
pub record Closes (env : Env) (x : Run (Bool × Option Context)) : Type 0 where
  pub state : Context
  pub returned : x ≡ ret (env.queue_response, some state)
  pub balanced : (fp : ℕ) → opens fp state.log ≡ closes fp state.log

finish_upload-counts :
    (env : Env) (s : Context) (g : ℕ)
    → Holds s
    → opens g (finish_upload env s).log ≡ closes g (finish_upload env s).log
unfolding finish_upload
finish_upload-counts env s g (inl i) = ground (arith, i.fp_is, i.counts g)
finish_upload-counts env s g (inr (fp, h)) = ground (arith, h.fp_is, h.counts g)

posts-Closes :
    (fuel : ℕ) (env : Env) (bs : List Bytes) (s : Context)
    → AllWorks env
    → All (λ b. 0 < length b) bs
    → All (λ p. length p.chunk ≤ fuel) (all_parts env bs)
    → Holds s
    → Closes env (posts fuel env bs (some s))
unfolding uploadfile
posts-Closes fuel env [] s w hb hf h =
    let x = post_parts-Ends fuel env (env.process []) s w hf h in
    rw (uploadfile, x.returned)
      record {
        state = finish_upload env x.state;
        returned = refl;
        balanced = λ g. finish_upload-counts env x.state g x.holds;
      }
posts-Closes fuel env ([] ∷ bs) s w (b, hb) hf h = absurd (omega arith)
posts-Closes fuel env ((c ∷ b) ∷ bs) s w (n, hb) hf h =
    let (f1, f2) =
      All-split (λ p. length p.chunk ≤ fuel) (env.process (c ∷ b)) (all_parts env bs) hf in
    let x = post_parts-Ends fuel env (env.process (c ∷ b)) s w f1 h in
    let rest = posts-Closes fuel env bs x.state w hb f2 x.holds in
    rw (uploadfile, x.returned)
      record { state = rest.state; returned = rest.returned; balanced = rest.balanced }

-- A request with parts of any number of files, in any buffers, where files can be opened, written
-- and closed, memory and a post processor are given, the fuel is at least the length of each part,
-- and the files opened before were closed as often: whatever the comparison of the kept name, whose
-- memory may be gone, with the name of a part finds, the request ends, and behind it every file was
-- closed as often as it was opened.
pub post_request-Closes :
    (fuel : ℕ) (env : Env) (bs : List Bytes) (log : List Event)
    → AllWorks env
    → env.malloc ≡ true
    → env.create_post_processor ≡ true
    → All (λ b. 0 < length b) bs
    → All (λ p. length p.chunk ≤ fuel) (all_parts env bs)
    → ((fp : ℕ) → opens fp log ≡ closes fp log)
    → Closes env (post_request fuel env bs log)
post_request-Closes fuel env bs log w m c hb hf h =
    let s : Context = record { fp = none; fname = none; log = log } in
    rw (first_call fuel env log m c) (
      posts-Closes fuel env bs s w hb hf (inl record { fp_is = refl; fname_is = refl; counts = h }))
