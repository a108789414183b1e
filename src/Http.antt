-- ===== src/Http.antt =====
-- src/http_daemon.c: the reception of files by HTTP. libmicrohttpd is a parameter: `process` is the
-- parts that MHD_post_process hands to post_progress for the bytes of one call,
-- taken to depend on these bytes only. What is done to files
-- is listed as events, the newest first, and what the system answers may depend on them. The kept
-- file name points into memory of libmicrohttpd, which may have changed or gone when it is compared:
-- `differs` is what strcmp then finds. A part that has a type also has a file name.
pub mod Pieces
pub mod Request
pub mod Closed
pub mod Browse
mod Tests
use jit_dt.Common.{
  ℕ, zero, suc, ◌+◌, ◌-◌, Bool, true, false, not, ◌&&◌, List, [], ◌∷◌, ◌++◌, Option, none, some,
  Bytes, codes, str_eq, ◌==◌, if◌then◌else◌, length, take,
}

-- A file that is open is the number of events before its opening.
pub data Event : Type 0 where
  opened : ℕ → Bytes → Event
  wrote : ℕ → Bytes → Event
  unwritten : ℕ → Event
  closed : ℕ → Event

-- The arguments of post_progress but for those it only prints.
pub record Part : Type 0 where
  pub filename : Bytes
  pub has_type : Bool
  pub chunk : Bytes
  pub off : ℕ

pub record Env : Type 0 where
  pub fopen : List Event → Bytes → Bool
  pub fclose : List Event → Bool
  pub fwrite : List Event → Bool
  pub process : Bytes → List Part
  pub differs : List Event → Bytes → Bytes → Bool
  pub malloc : Bool
  pub create_post_processor : Bool
  pub queue_response : Bool

-- `struct context`, with the events so far.
pub record Context : Type 0 where
  pub fp : Option ℕ
  pub fname : Option Bytes
  pub log : List Event

-- `endless`: a loop has not ended with the fuel; `crash`: fclose of a null pointer.
pub data Run {ℓ} (A : Type ℓ) : Type ℓ where
  ret : A → Run A
  endless : Run A
  crash : Run A

infixl 5 ◌>>=◌
abbrev pub ◌>>=◌ {ℓ κ} : {A : Type ℓ} {B : Type κ} → Run A → (A → Run B) → Run B
ret a >>= f = f a
endless >>= f = endless
crash >>= f = crash

-- `while (size > 0) { sz = fwrite(data, size, 1, fp); ... size -= sz; }`: the result of fwrite is the
-- number of items, 1 or 0, and never below 0.
unfoldable pub write_loop : ℕ → Env → ℕ → Bytes → ℕ → List Event → Run (List Event)
write_loop fuel env fp chunk zero log = ret log
write_loop zero env fp chunk (suc size) log = endless
write_loop (suc fuel) env fp chunk (suc size) log = elim (env.fwrite log) [
  | true ↦ write_loop fuel env fp chunk size (wrote fp (take (suc size) chunk) ∷ log)
  | false ↦ write_loop fuel env fp chunk (suc size) (unwritten fp ∷ log)
]

-- another file than the one before
abbrev pub is_other : Env → Context → Option Bytes → Part → Bool
is_other env s none p = false
is_other env s (some n) p = env.differs s.log n p.filename && p.off == 0

unfoldable pub close_file : Env → Option ℕ → List Event → Run (List Event × Bool)
close_file env none log = crash
close_file env (some fp) log = ret (closed fp ∷ log, env.fclose log)

-- The file to write, `none` where the handler goes to its errors, and the context.
unfoldable pub open_part : Env → Part → Context → Option ℕ × Context
open_part env p s =
    let fp = length s.log in
    if env.fopen s.log p.filename
    then (
      some fp,
      record s { fp = some fp; fname = some p.filename; log = opened fp p.filename ∷ s.log },
    )
    else (none, s)

unfoldable pub reopen : Env → Part → Context → List Event × Bool → Option ℕ × Context
reopen env p s (log, true) = open_part env p record s { log = log }
reopen env p s (log, false) = (none, record s { log = log })

-- The blocks before the loop: another file is closed, and a file is opened where there is none.
unfoldable pub part_file : Env → Part → Context → Run (Option ℕ × Context)
part_file env p s =
    if is_other env s s.fname p
    then (close_file env s.fp s.log >>= (λ r. ret (reopen env p s r)))
    else elim s.fp [ none ↦ ret (open_part env p s) | some fp ↦ ret (some fp, s) ]

unfoldable pub write_part : ℕ → Env → Part → Option ℕ × Context → Run (Bool × Context)
write_part fuel env p (none, s) = ret (false, s)
write_part fuel env p (some fp, s) =
    write_loop fuel env fp p.chunk (length p.chunk) s.log
    >>= (λ log. ret (true, record s { log = log }))

-- `post_progress`: whether it returns MHD_YES, and the context
unfoldable pub post_progress : ℕ → Env → Part → Context → Run (Bool × Context)
post_progress fuel env p s =
    if p.has_type then (part_file env p s >>= write_part fuel env p) else ret (true, s)

-- MHD_post_process calls post_progress until it returns MHD_NO.
unfoldable pub post_parts : ℕ → Env → List Part → Context → Run Context
post_parts fuel env [] s = ret s
post_parts fuel env (p ∷ ps) s =
    post_progress fuel env p s
    >>= (λ x. let rest = post_parts fuel env ps x.1 in if x.0 then rest else ret x.1)

-- the end of an upload
unfoldable pub finish_upload : Env → Context → Context
finish_upload env s = elim s.fp [ none ↦ s | some fp ↦ record s { log = closed fp ∷ s.log } ]

-- `uploadfile` on the context `ptr`: the result MHD_YES, and the context behind it
unfoldable pub uploadfile :
    ℕ → Env → Bytes → Option Context → List Event → Run (Bool × Option Context)
uploadfile fuel env upload none log = ret (
    if env.malloc && env.create_post_processor
    then (true, some record { fp = none; fname = none; log = log })
    else (false, none))
uploadfile fuel env [] (some s) log =
    post_parts fuel env (env.process []) s
    >>= (λ s'. ret (env.queue_response, some (finish_upload env s')))
uploadfile fuel env (c ∷ r) (some s) log =
    post_parts fuel env (env.process (c ∷ r)) s >>= (λ s'. ret (true, some s'))

-- What opening a path and `fstat` give; `unopened` and `unstatable` are their failures.
pub data Found : Type 0 where
  unopened unstatable directory regular special : Found

pub data Response : Type 0 where
  file : Bytes → Response
  not_found : Response

-- `browsefile` from `retry` on, `ntry` being 0 or not: the response, and how many descriptors are
-- left open
unfoldable pub browse_again : (Bytes → Found) → Bytes → Response × ℕ
browse_again site path = elim (site path) [
  | unopened ↦ (not_found, 0)
  | unstatable ↦ (not_found, 1)
  | directory ↦ (not_found, 1)
  | regular ↦ (file path, 0)
  | special ↦ (not_found, 1)
]

unfoldable pub browsefile : (Bytes → Found) → Bytes → Response × ℕ
browsefile site url =
    let path = codes "./" ++ url in
    elim (site path) [
      | unopened ↦ (not_found, 0)
      | unstatable ↦ (not_found, 1)
      | directory ↦ browse_again site (path ++ codes "./index.html")
      | regular ↦ (file path, 0)
      | special ↦ (not_found, 1)
    ]

-- `refused`: the result 0 of a method that is not known
pub data Handled : Type 0 where
  page : Response × ℕ → Handled
  upload : Run (Bool × Option Context) → Handled
  refused : Handled

unfoldable pub mhd_handler :
    ℕ → Env → (Bytes → Found) → Bytes → Bytes → Bytes → Option Context → List Event → Handled
mhd_handler fuel env site url method upload_data ptr log =
    if str_eq method (codes "GET")
    then page (browsefile site url)
    else (if str_eq method (codes "POST")
        then upload (uploadfile fuel env upload_data ptr log)
        else refused)

-- The calls for one POST request behind the first: one for each buffer of its bytes, and one for the
-- end; MHD_NO ends the connection.
abbrev pub posts : ℕ → Env → List Bytes → Option Context → Run (Bool × Option Context)
posts fuel env [] ptr = uploadfile fuel env [] ptr []
posts fuel env (b ∷ bs) ptr =
    uploadfile fuel env b ptr []
    >>= (λ x. let rest = posts fuel env bs x.1 in if x.0 then rest else ret x)

-- One POST request, whose first call has no bytes.
abbrev pub post_request : ℕ → Env → List Bytes → List Event → Run (Bool × Option Context)
post_request fuel env bs log =
    uploadfile fuel env [] none log
    >>= (λ x. let rest = posts fuel env bs x.1 in if x.0 then rest else ret x)
