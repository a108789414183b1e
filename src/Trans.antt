-- ===== src/Trans.antt =====
-- src/translib.c: parse_url and trans_type; and locked_lock of src/misclib.c, which the transfers by
-- a lock file, kwatcher and its clients call. Opening and locking a file is a parameter.
pub mod Parts
pub mod Lock
pub mod Sftp
pub mod Move
mod Tests
use jit_dt.Common.{
  ℕ, zero, suc, Bool, true, false, not, List, [], ◌∷◌, ◌++◌, Option, none, some, Bytes, codes,
  str_eq, ◌==◌, if◌then◌else◌, length, take, drop,
}
use jit_dt.Common.Outcome.{Outcome, ret, exited}

pub data TransType : Type 0 where
  scp sftp lock http unknown no_url : TransType

-- `index(s, ':')`: the bytes before it and behind it
unfoldable pub split_colon : Bytes → Option (Bytes × Bytes)
split_colon [] = none
split_colon (c ∷ r) =
    let rest = split_colon r in
    if c == b':' then some ([], r) else elim rest [ none ↦ none | some (f, t) ↦ some (c ∷ f, t) ]

-- What `parse_url` stores through `host` and `rpath`; a variable that it leaves alone is `none`.
pub record Url : Type 0 where
  pub host : Option Bytes
  pub rpath : Option Bytes

abbrev pub unset : Url
unset = record { host = none; rpath = none }

unfoldable pub parts : Bytes → Url
parts s = elim (split_colon s) [
  | none ↦ record { host = some s; rpath = none }
  | some (h, p) ↦ record { host = some h; rpath = some p }
]

-- `parse_url`: `none` for the result 0
unfoldable pub parse_url : Bytes → Bytes → Option Url
parse_url url proto =
    if str_eq (take (length proto) url) proto then some (parts (drop (length proto) url)) else none

-- `parse_url(url, rpath, 0, "lock:")`: the host goes to `rpath`, and the rest nowhere.
abbrev pub as_path : Url → Url
as_path u = record { host = none; rpath = u.host }

-- `if (parse_url(...)) ... else ...`
unfoldable pub chosen : Option Url → (Url → TransType × Url) → TransType × Url → TransType × Url
chosen none f rest = rest
chosen (some u) f rest = f u

-- The branches behind `lock:`, given the colon of the URL; the flag stands for the macro HTTP.
unfoldable pub colon_type : Bool → Bytes → Option (Bytes × Bytes) → TransType × Url
colon_type http_built url (some p) = (unknown, unset)
colon_type true url none = chosen (parse_url url (codes "http:")) (λ u. (http, u)) (no_url, unset)
colon_type false url none = (no_url, unset)

unfoldable pub other_type : Bool → Bytes → TransType × Url
other_type http_built url = colon_type http_built url (split_colon url)

unfoldable pub trans_type : Bool → Bytes → TransType × Url
trans_type http_built url =
    chosen (parse_url url (codes "scp:")) (λ u. (scp, u))
      (chosen (parse_url url (codes "ssh:")) (λ u. (scp, u))
        (chosen (parse_url url (codes "sftp:")) (λ u. (sftp, u))
          (chosen (parse_url url (codes "lock:")) (λ u. (lock, as_path u))
            (other_type http_built url))))

-- the bytes up to the last `/`, that one included
unfoldable pub directory : Bytes → Option Bytes
directory [] = none
directory (c ∷ r) = elim (directory r) [
  | some d ↦ some (c ∷ d)
  | none ↦ if c == b'/' then some (c ∷ []) else none
]

-- `lockfname[ticktack]`
abbrev pub lock_name : Bool → Bytes
lock_name false = codes "JITDT-READY-1"
lock_name true = codes "JITDT-READY-2"

-- the path of the lock file; the directory ends in `/` already when `fformat` is called
unfoldable pub lock_path : Bool → Bytes → Bytes
lock_path ticktack path = elim (directory path) [
  | some d ↦ d ++ lock_name ticktack
  | none ↦ codes "./" ++ lock_name ticktack
]

-- `locked_lock`: the path that is locked, and `ticktack` for the next call
unfoldable pub locked_lock : (Bytes → Bool) → Bool → Bytes → Outcome (Bytes × Bool)
locked_lock locks ticktack path =
    let p = lock_path ticktack path in if locks p then ret (p, not ticktack) else exited
