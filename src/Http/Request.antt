-- ===== src/Http/Request.antt =====
-- A POST request that carries one file: the bytes that end up in it.
use jit_dt.Common.{
  ℕ, zero, suc, ◌-◌, ◌≤◌, ◌<◌, ◌≡◌, refl, sym, ap, subst, ◌∙◌, ◌↔◌, inl, inr, true, false, List, [],
  ◌∷◌, ◌++◌, Option, none, some, Bytes, All, length, arith, Bool, All-split, Option-cases,
}
use jit_dt.Common.Arrays.{append_assoc}
use jit_dt.Http.{
  Event, opened, unwritten, Part, Env, Context, Run, ret, endless, write_loop, part_file,
  write_part, post_progress, open_part, finish_upload, uploadfile, posts, post_request,
}
use jit_dt.Http.Pieces.{
  post_progress-typed, content, Ready, IsPart, Steady, post_parts-Posts, stairs, sent,
  stairs-append, stairs-sent, all_parts,
}

-- The end of a request, with what is written into the file `fp`.
pub record Uploads (env : Env) (fp : ℕ) (ps : List Part) (x : Run (Bool × Option Context))
    : Type 0 where
  pub state : Context
  pub returned : x ≡ ret (env.queue_response, some state)
  pub content_is : content fp state.log ≡ stairs ps
  pub faithful : (content fp state.log ≡ sent ps) ↔ All (λ p. length p.chunk ≤ 1) ps

Ready-content :
    (name : Bytes) (fp : ℕ) (c : Bytes) (s : Context) → Ready name fp c s → content fp s.log ≡ c
Ready-content name fp c s (inl (_, (_, (_, (e, f))))) = e ∙ sym f
Ready-content name fp c s (inr (_, (_, e))) = e

finish_upload-content :
    (env : Env) (fp : ℕ) (s : Context) → content fp (finish_upload env s).log ≡ content fp s.log
unfolding finish_upload
finish_upload-content env fp s = elim (Option-cases s.fp) [
  | inl e ↦ rw (finish_upload, e) refl
  | inr (g, e) ↦ rw (finish_upload, e) refl
]

finished-Uploads :
    (env : Env) (name : Bytes) (fp : ℕ) (ps : List Part) (s : Context)
    → Ready name fp (stairs ps) s
    → Uploads env fp ps (ret (env.queue_response, some (finish_upload env s)))
finished-Uploads env name fp ps s r =
    let e = finish_upload-content env fp s ∙ Ready-content name fp (stairs ps) s r in
    record {
      state = finish_upload env s;
      returned = refl;
      content_is = e;
      faithful =
          subst (λ c. (c ≡ sent ps) ↔ All (λ p. length p.chunk ≤ 1) ps) (sym e) (stairs-sent ps);
    }

posts-Uploads :
    (fuel : ℕ) (env : Env) (name : Bytes) (fp : ℕ) (bs : List Bytes) (done : List Part)
    (s : Context)
    → Steady env
    → All (λ b. 0 < length b) bs
    → All (IsPart name) (all_parts env bs)
    → All (λ p. length p.chunk ≤ fuel) (all_parts env bs)
    → Ready name fp (stairs done) s
    → Uploads env fp (done ++ all_parts env bs) (posts fuel env bs (some s))
unfolding uploadfile
posts-Uploads fuel env name fp [] done s w hb hs hf r =
    let x = post_parts-Posts fuel env name fp (stairs done) (env.process []) s w hs hf r in
    rw (uploadfile, x.returned)
      (finished-Uploads env name fp (done ++ env.process []) x.state
        (subst (λ c. Ready name fp c x.state) (sym (stairs-append done (env.process []))) x.ready))
posts-Uploads fuel env name fp ([] ∷ bs) done s w (h, hb) hs hf r = absurd (omega arith)
posts-Uploads fuel env name fp ((c ∷ b) ∷ bs) done s w (h, hb) hs hf r =
    let ps = env.process (c ∷ b) in
    let (h1, h2) = All-split (IsPart name) ps (all_parts env bs) hs in
    let (f1, f2) = All-split (λ p. length p.chunk ≤ fuel) ps (all_parts env bs) hf in
    let x = post_parts-Posts fuel env name fp (stairs done) ps s w h1 f1 r in
    let rest =
      posts-Uploads fuel env name fp bs (done ++ ps) x.state w hb h2 f2
        (subst (λ d. Ready name fp d x.state) (sym (stairs-append done ps)) x.ready) in
    rw (uploadfile, x.returned)
      (subst (λ qs. Uploads env fp qs (posts fuel env bs (some x.state)))
        (append_assoc done ps (all_parts env bs)) rest)

pub first_call :
    (fuel : ℕ) (env : Env) (log : List Event)
    → env.malloc ≡ true
    → env.create_post_processor ≡ true
    → uploadfile fuel env [] none log
      ≡ ret (true, some record { fp = none; fname = none; log = log })
unfolding uploadfile
first_call fuel env log m c = rw (uploadfile, m, c) refl

-- A request whose parts all belong to one file with a type, where memory and a post processor are
-- given, files can be opened and written, strcmp finds no difference between equal names, each
-- buffer has a byte, and the fuel is at least the length of each part: the request ends, and what is
-- written into the file is, for each part, the part, then the part without its last byte, and so on
-- down to its first byte. That is what was sent only where no part has more than one byte.
pub post_request-Uploads :
    (fuel : ℕ) (env : Env) (name : Bytes) (bs : List Bytes) (log : List Event)
    → Steady env
    → env.malloc ≡ true
    → env.create_post_processor ≡ true
    → content (length log) log ≡ []
    → All (λ b. 0 < length b) bs
    → All (IsPart name) (all_parts env bs)
    → All (λ p. length p.chunk ≤ fuel) (all_parts env bs)
    → Uploads env (length log) (all_parts env bs) (post_request fuel env bs log)
post_request-Uploads fuel env name bs log w m c fresh hb hs hf =
    let s : Context = record { fp = none; fname = none; log = log } in
    rw (first_call fuel env log m c) (
      posts-Uploads fuel env name (length log) bs [] s w hb hs hf
        (inl (refl, (refl, (refl, (fresh, refl))))))

write_loop-endless :
    (fuel : ℕ) (env : Env) (fp : ℕ) (chunk : Bytes) (size : ℕ) (log : List Event)
    → ((l : List Event) → env.fwrite l ≡ false)
    → write_loop fuel env fp chunk (suc size) log ≡ endless
unfolding write_loop
write_loop-endless zero env fp chunk size log w = refl
write_loop-endless (suc fuel) env fp chunk size log w =
    rw (write_loop, w log, write_loop-endless fuel env fp chunk size (unwritten fp ∷ log) w) refl

-- Where files can be opened but not written, post_progress never ends on the first part of a file
-- that has a type and a byte: no fuel is enough.
pub post_progress-endless :
    (fuel : ℕ) (env : Env) (p : Part) (log : List Event)
    → ((l : List Event) (n : Bytes) → env.fopen l n ≡ true)
    → ((l : List Event) → env.fwrite l ≡ false)
    → p.has_type ≡ true
    → 0 < length p.chunk
    → post_progress fuel env p record { fp = none; fname = none; log = log } ≡ endless
unfolding part_file open_part write_part
post_progress-endless fuel env p log o w h n =
    let s : Context = record { fp = none; fname = none; log = log } in
    let log' : List Event = opened (length log) p.filename ∷ log in
    let size : length p.chunk ≡ suc (length p.chunk - 1) = omega arith in
    let stuck : write_loop fuel env (length log) p.chunk (length p.chunk) log' ≡ endless =
      ap (λ k. write_loop fuel env (length log) p.chunk k log') size
      ∙ write_loop-endless fuel env (length log) p.chunk (length p.chunk - 1) log' w in
    rw
      (
        post_progress-typed fuel env p s h,
        part_file,
        open_part,
        o log p.filename,
        write_part,
        stuck,
      )
      refl
