-- ===== src/KFile.antt =====
-- src/jitkclient.c: _jitopen, _jitread, _jitclose and jitname, a file that is read under the lock of
-- its directory. A descriptor is a place in a table, and the system gives the lowest free one. The
-- lock files are part of the state, other files are parameters, and so is whether locking succeeds.
-- The null byte of locked_unlock_nullify and the names come from LockFile and Client.
pub mod Table
pub mod Opens
pub mod Reads
pub mod Session
mod Tests
use jit_dt.Common.{
  ℕ, zero, suc, ◌+◌, Bool, true, false, List, [], ◌∷◌, ◌++◌, Option, none, some, Bytes, str_eq,
  ◌==◌, if◌then◌else◌, length, take, drop, set,
}
use jit_dt.Common.Outcome.{Outcome, ret, exited, ◌>>=◌, load, store}
use jit_dt.Client.{Reading, failed, got, septype, ftype_num}
use jit_dt.LockFile.{path_max, c_str, locked_read, locked_unlock_nullify}
use jit_dt.Trans.{locked_lock, lock_name}

pub record Open : Type 0 where
  pub path : Bytes
  pub place : ℕ
  pub writable : Bool

pub record Env : Type 0 where
  pub locks : Bytes → Bool
  pub opens : Bytes → Bool
  pub read_at : Bytes → ℕ → ℕ → Reading

-- The lock files by their paths, the static variables, and the table of descriptors.
pub record Client : Type 0 where
  pub files : Bytes → Bytes
  pub ticktack : Bool
  pub fpath : Bytes
  pub lckname : List Bytes
  pub lckfds : List ℕ
  pub fds : List (Option Open)

-- the lowest free descriptor, and the table with the file there
unfoldable pub open_fd : List (Option Open) → Open → Option (ℕ × List (Option Open))
open_fd [] o = none
open_fd (none ∷ fds) o = some (0, some o ∷ fds)
open_fd (some x ∷ fds) o = elim (open_fd fds o) [
  | none ↦ none
  | some (fd, rest) ↦ some (suc fd, some x ∷ rest)
]

unfoldable pub slot : List (Option Open) → ℕ → Option Open
slot [] fd = none
slot (x ∷ fds) zero = x
slot (x ∷ fds) (suc fd) = slot fds fd

-- What `_jitopen` returns: -1 with `fname` as it was, -1 with an empty `fname`, or a descriptor.
pub data Opened : Type 0 where
  refused missing : Opened
  opened : ℕ → Bytes → Opened

-- The null bytes that `septype` puts for the first `k` separators of a string.
unfoldable pub separated : ℕ → Bytes → Bytes
separated zero s = s
separated (suc k) [] = []
separated (suc k) (c ∷ r) =
    let rest = separated (suc k) r in
    let behind = separated k r in
    if c == 0 then c ∷ r else if c == b';' then 0 ∷ behind else c ∷ rest

abbrev pub is_null : Bytes → Bool
is_null [] = false
is_null (c ∷ r) = c == 0

-- from `open(files[type], O_RDONLY)`
unfoldable pub open_data : Env → Client → ℕ → Option Bytes → Outcome (Client × Opened)
open_data env k lckfd none = ret (k, missing)
open_data env k lckfd (some name) =
    let o : Open = record { path = name; place = 0; writable = false } in
    if env.opens name
    then elim (open_fd k.fds o) [
      | none ↦ ret (k, missing)
      | some (zero, fds) ↦ ret (record k { fds = fds }, opened 0 [])
      | some (suc fd, fds) ↦
          store k.lckfds (suc fd) lckfd
          >>= (λ ls. ret (record k { fds = fds; lckfds = ls }, opened (suc fd) name))
    ]
    else ret (k, missing)

-- behind `locked_read`
unfoldable pub open_named : Env → Client → ℕ → ℕ → ℕ → Outcome (Client × Opened)
open_named env k lckfd type sz =
    let buf = set k.fpath sz 0 in
    if sz == 0
    then ret (record k { fds = set k.fds lckfd none }, refused)
    else if is_null k.fpath
    then ret (record k { fds = set k.fds lckfd none }, refused)
    else load (septype (c_str buf)) type
      >>= (λ f. open_data env (record k { fpath = separated ftype_num buf }) lckfd f)

-- from the lock on: its descriptor is the lowest free one
unfoldable pub open_locked : Env → Client → Bytes → Bool → ℕ → Outcome (Client × Opened)
open_locked env k path turn type =
    let (sz, buf) = locked_read (k.files path) k.fpath path_max in
    let o : Open = record { path = path; place = sz; writable = true } in
    elim (open_fd k.fds o) [
      | none ↦ exited
      | some (lckfd, fds) ↦ store k.lckname lckfd (lock_name k.ticktack) >>= (λ names.
          open_named env (record k { ticktack = turn; fpath = buf; lckname = names; fds = fds })
            lckfd type sz)
    ]

-- `_jitopen`
unfoldable pub jitopen : Env → Client → Bytes → ℕ → Outcome (Client × Opened)
jitopen env k place type =
    locked_lock env.locks k.ticktack place
    >>= (λ x. let (path, turn) = x in open_locked env k path turn type)

unfoldable pub replace : (Bytes → Bytes) → Bytes → Bytes → Bytes → Bytes
replace files path content p = if str_eq p path then content else files p

-- `locked_unlock_nullify` on the descriptor: it exits where it cannot seek or write.
unfoldable pub nullify_fd : Client → ℕ → Outcome Client
nullify_fd k lckfd = elim (slot k.fds lckfd) [
  | none ↦ exited
  | some o ↦
      if o.writable
      then ret (record k {
        files = replace k.files o.path (locked_unlock_nullify (k.files o.path));
        fds = set k.fds lckfd none;
      })
      else exited
]

-- `_jitclose`: whether `close` succeeds
unfoldable pub jitclose : Client → ℕ → Outcome (Client × Bool)
jitclose k fd = do
  lckfd ← load k.lckfds fd
  after ← nullify_fd (record k { fds = set k.fds fd none }) lckfd
  ret (after, elim (slot k.fds fd) [ none ↦ false | some o ↦ true ])

-- what `read` gives at the place of a descriptor
abbrev pub read_open : Env → Client → Open → ℕ → Reading
read_open env k o size =
    if o.writable
    then got (take size (drop o.place (k.files o.path)))
    else env.read_at o.path o.place size

abbrev pub moved : Open → Reading → Open
moved o (got b) = record o { place = o.place + length b }
moved o r = o

-- `_jitread`: the bytes, or that -1 is returned
unfoldable pub jitread : Env → Client → ℕ → ℕ → Client × Reading
jitread env k fd size = elim (slot k.fds fd) [
  | none ↦ (k, failed)
  | some o ↦
      let r = read_open env k o size in (record k { fds = set k.fds fd (some (moved o r)) }, r)
]

-- `jitname`
unfoldable pub jitname : Client → ℕ → Outcome Bytes
jitname k fd = do lckfd ← load k.lckfds fd; load k.lckname lckfd

abbrev pub bytes_read : Reading → Bytes
bytes_read (got b) = b
bytes_read r = []

-- Calls of jitread, one after the other: the bytes of those that succeed.
unfoldable pub jitreads : Env → Client → ℕ → List ℕ → Client × Bytes
jitreads env k fd [] = (k, [])
jitreads env k fd (n ∷ ns) =
    let (k', r) = jitread env k fd n in
    let (k'', rest) = jitreads env k' fd ns in (k'', bytes_read r ++ rest)
