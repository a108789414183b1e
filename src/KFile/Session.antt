-- ===== src/KFile/Session.antt =====
-- A whole use of the files of a directory: _jitopen, any reads, _jitclose.
use jit_dt.Common.{
  ℕ, ◌<◌, ◌≡◌, ◌≢◌, refl, sym, ap, subst, ◌∙◌, true, not, List, [], ◌∷◌, Option, none, some, Bytes,
  str_eq, str_eq_iff, length, take, drop, set, All, arith, Bool-cases, inl, inr, get_or-set_self,
  length-set,
}
use jit_dt.Common.Outcome.{ret, load, load-eq-get_or}
use jit_dt.Client.{got, septype, ftype_num}
use jit_dt.Client.Names.{IsName, slots, septype-line}
use jit_dt.Client.Get.{sum}
use jit_dt.Kwatch.Transfer.{line}
use jit_dt.LockFile.{
  path_max, locked_read, locked_write, locked_unlock_nullify, lock_content, write_at, cut_line,
}
use jit_dt.LockFile.Pass.{line-IsText}
use jit_dt.LockFile.Strings.{IsText, lock_content-nullify}
use jit_dt.Trans.{lock_name, lock_path}
use jit_dt.KFile.{
  Open, Env, Client, refused, opened, replace, jitopen, jitreads, jitclose, jitname, is_null,
}
use jit_dt.KFile.Table.{table, data_fd}
use jit_dt.KFile.Opens
use jit_dt.KFile.Opens.{with_fds, lock_open, data_open, jitopen-opened, jitopen-refused}
use jit_dt.KFile.Reads.{jitreads-at, jitclose-at}

-- The client reads the file, and leaves the descriptors as they were and the lock file cleared, which
-- the next client with its turn finds.
pub record Used (env : Env) (k : Client) (place : Bytes) (type : ℕ) (name bytes : Bytes)
    (ns : List ℕ) (ticket : Bytes) : Type 0 where
  pub fd : ℕ
  pub reading : Client
  pub opens : jitopen env k place type ≡ ret (reading, opened fd name)
  pub named : jitname reading fd ≡ ret (lock_name k.ticktack)
  pub reads : (jitreads env reading fd ns).1 ≡ take (sum ns) bytes
  pub closed : Client
  pub closes : jitclose (jitreads env reading fd ns).0 fd ≡ ret (closed, true)
  pub fds : closed.fds ≡ k.fds
  pub turn : closed.ticktack ≡ not k.ticktack
  pub cleared : (fpath : Bytes) → lock_content (closed.files ticket) fpath ≡ none
  pub others : (p : Bytes) → p ≢ ticket → closed.files p ≡ k.files p
  pub after : Client
  pub again :
      jitopen env (record closed { ticktack = k.ticktack }) place type
      ≡ ret (with_fds after k.fds, refused)

load-set {ℓ} :
    {A : Type ℓ} (xs : List A) (i : ℕ) (v : A) → i < length xs → load (set xs i v) i ≡ ret v
load-set xs i v h =
    load-eq-get_or (set xs i v) i v (omega (arith, length-set xs i v))
    ∙ ap ret (get_or-set_self xs i v v h)

replace_self : (files : Bytes → Bytes) (p c : Bytes) → replace files p c p ≡ c
unfolding replace
replace_self files p c = rw (replace, (str_eq_iff p p).1 refl) refl

replace_ne : (files : Bytes → Bytes) (p c q : Bytes) → q ≢ p → replace files p c q ≡ files q
unfolding replace
replace_ne files p c q h = elim (Bool-cases (str_eq q p)) [
  | inl e ↦ absurd (h ((str_eq_iff q p).0 e))
  | inr e ↦ rw (replace, e) refl
]

cleared-is_null :
    (file fpath : Bytes)
    → is_null (locked_read (locked_unlock_nullify file) fpath path_max).1 ≡ true
unfolding locked_unlock_nullify locked_read write_at cut_line
cleared-is_null file fpath = refl

line_cons : (x : Bytes) (xs : List Bytes) → (c : ℕ) × (s : Bytes) × (line (x ∷ xs) ≡ c ∷ s)
line_cons [] xs = (_, _, refl)
line_cons (c ∷ x) xs = (_, _, refl)

jitname-named :
    (k : Client) (path : Bytes) (fds : List (Option Open)) (lckfd fd : ℕ)
    → fd < length k.lckfds
    → lckfd < length k.lckname
    → jitname (with_fds (Opens.named k path lckfd fd) fds) fd ≡ ret (lock_name k.ticktack)
unfolding jitname
jitname-named k path fds lckfd fd h1 h2 =
    rw (jitname, load-set k.lckfds fd lckfd h1, load-set k.lckname lckfd (lock_name k.ticktack) h2)
      refl

-- The lock file whose turn it is holds the line of names that locked_write has written there: names
-- without `;`, null bytes and ends of lines, shorter together than PATH_MAX, and one of them at the
-- place of the type. It can be locked, that file can be opened, a read of it gives what is asked for
-- as far as the file goes, two descriptors are free, below the size of the arrays. Then jitopen
-- gives a descriptor and that name, jitname gives the name of the lock file, any calls of jitread
-- give the front of the file in order, and jitclose succeeds and leaves the descriptors as they
-- were, that lock file cleared, all others as they were and the turn at the other one; with the
-- turn back at the cleared file, jitopen gives -1 and keeps no descriptor open.
pub jitopen-jitclose :
    (env : Env) (k : Client) (us vs : List Open) (ws : List (Option Open)) (place : Bytes)
    (type : ℕ) (file x name bytes : Bytes) (xs : List Bytes) (ns : List ℕ)
    → let path = lock_path k.ticktack place in
      env.locks path ≡ true
      → k.files path ≡ locked_write file (line (x ∷ xs))
      → All IsName (x ∷ xs)
      → All IsText (x ∷ xs)
      → length (line (x ∷ xs)) < path_max
      → load (slots ftype_num (x ∷ xs)) type ≡ ret (some name)
      → env.opens name ≡ true
      → ((o n : ℕ) → env.read_at name o n ≡ got (take n (drop o bytes)))
      → data_fd us vs < length k.lckfds
      → data_fd us vs < length k.lckname
      → Used env (with_fds k (table us none vs none ws)) place type name bytes ns path
jitopen-jitclose env k us vs ws place type file x name bytes xs ns hl hf hn ht hs hi ho hr h1 h2 =
    let path = lock_path k.ticktack place in
    let sz = (locked_read (k.files path) k.fpath path_max).0 in
    let (c, s, e) = line_cons x xs in
    let file_eq = hf ∙ ap (locked_write file) e in
    let text = subst IsText e (line-IsText (x ∷ xs) ht) in
    let short = subst (λ t. length t < path_max) e hs in
    let type_eq =
      ap (λ t. load (septype t) type) (sym e)
      ∙ ap (λ fs. load fs type) (septype-line (x ∷ xs) hn)
      ∙ hi in
    let k1 = Opens.named k path (length us) (data_fd us vs) in
    let read = jitreads-at env us vs ws k1 path sz name bytes hr ns 0 in
    let cleared = locked_unlock_nullify (k.files path) in
    let k2 : Client = record k1 { files = replace k.files path cleared; ticktack = k.ticktack } in
    let null_read =
      ap (λ f. is_null (locked_read f k2.fpath path_max).1) (replace_self k.files path cleared)
      ∙ cleared-is_null (k.files path) k2.fpath in
    let names = length-set k.lckname (length us) (lock_name k.ticktack) in
    let (after, again) =
      jitopen-refused env us vs ws k2 place type hl null_read (omega (arith, h2, names)) in
    record {
      fd = data_fd us vs;
      reading = with_fds k1 (table us (some (lock_open path sz)) vs (some (data_open name 0)) ws);
      opens =
          jitopen-opened env us vs ws k place type c s file name hl file_eq text short type_eq ho h1
            h2;
      named = jitname-named k path _ (length us) (data_fd us vs) h1 (omega (arith, h2));
      reads = ap (λ r. r.1) read;
      closed = record k1 { files = replace k.files path cleared; fds = table us none vs none ws };
      closes =
          ap (λ r. jitclose r.0 (data_fd us vs)) read
          ∙ jitclose-at env us vs ws k1 path sz name bytes hr _
              (load-set k.lckfds (data_fd us vs) (length us) h1);
      fds = refl;
      turn = refl;
      cleared = λ fpath.
          ap (λ f. lock_content f fpath) (replace_self k.files path cleared)
          ∙ lock_content-nullify (k.files path) fpath;
      others = λ p h. replace_ne k.files path cleared p h;
      after = after;
      again = again;
    }
