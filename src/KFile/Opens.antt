-- ===== src/KFile/Opens.antt =====
-- What _jitopen does to the descriptors, on a lock file with names and on one that is cleared.
use jit_dt.Common.{
  ℕ, ◌<◌, ◌≡◌, refl, sym, ap, subst, ◌∙◌, Bool, true, false, not, List, ◌∷◌, Option, none, some,
  Bytes, ◌==◌, ne→==, length, set, arith, Bool-cases, inl, inr,
}
use jit_dt.Common.Outcome.{ret, load, store-eq-set}
use jit_dt.Client.{septype, ftype_num}
use jit_dt.LockFile.{path_max, c_str, locked_read, locked_write}
use jit_dt.LockFile.Strings.{IsText, Holds, locked_read-locked_write}
use jit_dt.Trans.{locked_lock, lock_name, lock_path}
use jit_dt.KFile.{
  Open, Env, Client, refused, missing, opened, separated, is_null, open_data, open_named,
  open_locked, jitopen,
}
use jit_dt.KFile.Table.{table, data_fd, open_fd-lock, open_fd-data, set-lock}

-- the client with a table of descriptors
abbrev pub with_fds : Client → List (Option Open) → Client
with_fds k fds = record k { fds = fds }

abbrev pub lock_open : Bytes → ℕ → Open
lock_open path sz = record { path = path; place = sz; writable = true }

abbrev pub data_open : Bytes → ℕ → Open
data_open name off = record { path = name; place = off; writable = false }

-- the static variables behind a `_jitopen` that has found a name, and one that has opened its file
abbrev pub locked : Client → Bytes → ℕ → Client
locked k path lckfd =
    let x = locked_read (k.files path) k.fpath path_max in
    record k {
      ticktack = not k.ticktack;
      fpath = separated ftype_num (set x.1 x.0 0);
      lckname = set k.lckname lckfd (lock_name k.ticktack);
    }

abbrev pub named : Client → Bytes → ℕ → ℕ → Client
named k path lckfd fd = record (locked k path lckfd) { lckfds = set k.lckfds fd lckfd }

module _ (env : Env) (us : List Open) (vs : List Open) (ws : List (Option Open)) where
  open_data-opened :
      (k : Client) (l : Open) (name : Bytes)
      → env.opens name ≡ true
      → data_fd us vs < length k.lckfds
      → open_data env (with_fds k (table us (some l) vs none ws)) (length us) (some name)
        ≡ ret (
          record k {
            lckfds = set k.lckfds (data_fd us vs) (length us);
            fds = table us (some l) vs (some (data_open name 0)) ws;
          },
          opened (data_fd us vs) name,
        )
  unfolding open_data
  open_data-opened k l name ho hl =
      rw
        (
          open_data,
          ho,
          open_fd-data vs ws us l (data_open name 0),
          store-eq-set k.lckfds (data_fd us vs) (length us) hl,
        )
        refl

  jitopen-locked :
      (k : Client) (place : Bytes) (type : ℕ)
      → env.locks (lock_path k.ticktack place) ≡ true
      → jitopen env k place type
        ≡ open_locked env k (lock_path k.ticktack place) (not k.ticktack) type
  unfolding jitopen locked_lock
  jitopen-locked k place type h = rw (jitopen, locked_lock, h) refl

  open_locked-named :
      (k : Client) (path : Bytes) (turn : Bool) (type : ℕ)
      → length us < length k.lckname
      → let x = locked_read (k.files path) k.fpath path_max in
        open_locked env (with_fds k (table us none vs none ws)) path turn type
        ≡ open_named env
            (record k {
              ticktack = turn;
              fpath = x.1;
              lckname = set k.lckname (length us) (lock_name k.ticktack);
              fds = table us (some (lock_open path x.0)) vs none ws;
            })
            (length us)
            type
            x.0
  unfolding open_locked
  open_locked-named k path turn type h =
      let x = locked_read (k.files path) k.fpath path_max in
      rw
        (
          open_locked,
          open_fd-lock vs ws us (lock_open path x.0),
          store-eq-set k.lckname (length us) (lock_name k.ticktack) h,
        )
        refl

  open_named-chosen :
      (k : Client) (l : Open) (type sz : ℕ) (str name : Bytes)
      → 0 < sz
      → is_null k.fpath ≡ false
      → c_str (set k.fpath sz 0) ≡ str
      → load (septype str) type ≡ ret (some name)
      → open_named env (with_fds k (table us (some l) vs none ws)) (length us) type sz
        ≡ open_data env
            (record k {
              fpath = separated ftype_num (set k.fpath sz 0);
              fds = table us (some l) vs none ws;
            })
            (length us)
            (some name)
  unfolding open_named
  open_named-chosen k l type sz str name hz hn hc hs =
      let some_read : (sz == 0) ≡ false = ne→== sz 0 (omega arith) in
      rw (open_named, some_read, hn, hc, hs) refl

  open_named-refused :
      (k : Client) (l : Open) (type sz : ℕ)
      → is_null k.fpath ≡ true
      → open_named env (with_fds k (table us (some l) vs none ws)) (length us) type sz
        ≡ ret (with_fds k (table us none vs none ws), refused)
  unfolding open_named
  open_named-refused k l type sz hn =
      let closed = set-lock vs ws us (some l) none none in
      elim (Bool-cases (sz == 0)) [
        | inl e ↦ rw (open_named, e, closed) refl
        | inr e ↦ rw (open_named, e, hn, closed) refl
      ]

  jitopen-chosen :
      (k : Client) (place : Bytes) (type c : ℕ) (s file name : Bytes)
      → let path = lock_path k.ticktack place in
        env.locks path ≡ true
        → k.files path ≡ locked_write file (c ∷ s)
        → IsText (c ∷ s)
        → length (c ∷ s) < path_max
        → load (septype (c ∷ s)) type ≡ ret (some name)
        → length us < length k.lckname
        → let sz = (locked_read (k.files path) k.fpath path_max).0 in
          jitopen env (with_fds k (table us none vs none ws)) place type
          ≡ open_data env
              (with_fds
                (locked k path (length us))
                (table us (some (lock_open path sz)) vs none ws))
              (length us)
              (some name)
  jitopen-chosen k place type c s file name hl hf ht hs hn h2 =
      let path = lock_path k.ticktack place in
      let x = locked_read (k.files path) k.fpath path_max in
      let (some_read, held, str) =
        subst
          (λ f.
            let x = locked_read f k.fpath path_max in
            (0 < x.0) × Holds (c ∷ s) x.1 × (c_str (set x.1 x.0 0) ≡ c ∷ s))
          (sym hf) (locked_read-locked_write c s file k.fpath ht hs) in
      let full : is_null x.1 ≡ false = ap is_null held.1 ∙ ne→== c 0 ht.0.0 in
      let k' : Client = record k {
        ticktack = not k.ticktack;
        fpath = x.1;
        lckname = set k.lckname (length us) (lock_name k.ticktack);
      } in
      jitopen-locked (with_fds k (table us none vs none ws)) place type hl
      ∙ open_locked-named k path (not k.ticktack) type h2
      ∙ open_named-chosen k' (lock_open path x.0) type x.0 (c ∷ s) name some_read full str hn

  -- A lock file with a line of names: the file of the type is open, behind its lock.
  pub jitopen-opened :
      (k : Client) (place : Bytes) (type c : ℕ) (s file name : Bytes)
      → let path = lock_path k.ticktack place in
        env.locks path ≡ true
        → k.files path ≡ locked_write file (c ∷ s)
        → IsText (c ∷ s)
        → length (c ∷ s) < path_max
        → load (septype (c ∷ s)) type ≡ ret (some name)
        → env.opens name ≡ true
        → data_fd us vs < length k.lckfds
        → data_fd us vs < length k.lckname
        → let sz = (locked_read (k.files path) k.fpath path_max).0 in
          jitopen env (with_fds k (table us none vs none ws)) place type
          ≡ ret (
            with_fds
                (named k path (length us) (data_fd us vs))
                (table us (some (lock_open path sz)) vs (some (data_open name 0)) ws),
            opened (data_fd us vs) name,
          )
  jitopen-opened k place type c s file name hl hf ht hs hn ho h1 h2 =
      let path = lock_path k.ticktack place in
      jitopen-chosen k place type c s file name hl hf ht hs hn (omega (arith, h2))
      ∙ open_data-opened (locked k path (length us))
          (lock_open path (locked_read (k.files path) k.fpath path_max).0) name ho h1

  -- The lock file whose turn it is holds a line of names without null bytes and ends of lines and
  -- shorter than PATH_MAX, of which septype gives one for the type. It can be locked, and a descriptor
  -- is free, but the file of that name cannot be opened. Then jitopen gives -1, and the descriptor of
  -- the lock file stays open, so that the file stays locked.
  pub jitopen-missing :
      (k : Client) (place : Bytes) (type c : ℕ) (s file name : Bytes)
      → let path = lock_path k.ticktack place in
        env.locks path ≡ true
        → k.files path ≡ locked_write file (c ∷ s)
        → IsText (c ∷ s)
        → length (c ∷ s) < path_max
        → load (septype (c ∷ s)) type ≡ ret (some name)
        → env.opens name ≡ false
        → length us < length k.lckname
        → let sz = (locked_read (k.files path) k.fpath path_max).0 in
          jitopen env (with_fds k (table us none vs none ws)) place type
          ≡ ret (
            with_fds (locked k path (length us)) (table us (some (lock_open path sz)) vs none ws),
            missing,
          )
  unfolding open_data
  jitopen-missing k place type c s file name hl hf ht hs hn ho h2 =
      jitopen-chosen k place type c s file name hl hf ht hs hn h2 ∙ (rw (open_data, ho) refl)

  -- A lock file that starts with a null byte: no descriptor stays open.
  pub jitopen-refused :
      (k : Client) (place : Bytes) (type : ℕ)
      → let path = lock_path k.ticktack place in
        env.locks path ≡ true
        → is_null (locked_read (k.files path) k.fpath path_max).1 ≡ true
        → length us < length k.lckname
        → (k' : Client) × (jitopen env (with_fds k (table us none vs none ws)) place type
            ≡ ret (with_fds k' (table us none vs none ws), refused))
  jitopen-refused k place type hl hn h2 =
      let path = lock_path k.ticktack place in
      let x = locked_read (k.files path) k.fpath path_max in
      let k' : Client = record k {
        ticktack = not k.ticktack;
        fpath = x.1;
        lckname = set k.lckname (length us) (lock_name k.ticktack);
      } in
      (
        k',
        jitopen-locked (with_fds k (table us none vs none ws)) place type hl
            ∙ open_locked-named k path (not k.ticktack) type h2
            ∙ open_named-refused k' (lock_open path x.0) type x.0 hn,
      )
