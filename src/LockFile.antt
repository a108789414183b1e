-- ===== src/LockFile.antt =====
-- src/misclib.c: what is written into a lock file and read back; and the whole of _jitget of
-- src/jitkclient.c on it, where the path of a file is taken to fit `curname`. A file and a buffer are lists of
-- bytes with their null bytes; `c_str` is the string that a buffer holds.
pub mod Strings
pub mod Pass
mod Tests
use jit_dt.Common.{
  ℕ, zero, suc, ◌+◌, List, [], ◌∷◌, ◌++◌, Option, none, some, Bytes, ◌==◌, if◌then◌else◌, length,
  take, drop, set,
}
use jit_dt.Common.Outcome.{Outcome, ret, ◌>>=◌}
use jit_dt.Client.{Reading, Got, jitget}

abbrev pub path_max : ℕ
path_max = 4096

unfoldable pub c_str : Bytes → Bytes
c_str [] = []
c_str (c ∷ r) = let rest = c_str r in if c == 0 then [] else c ∷ rest

-- `write` at an offset inside the file
unfoldable pub write_at : Bytes → ℕ → Bytes → Bytes
write_at file off bytes = take off file ++ (bytes ++ drop (off + length bytes) file)

-- `locked_write`, which writes the string with its null byte, on a file that has just been opened
unfoldable pub locked_write : Bytes → Bytes → Bytes
locked_write file info = write_at file 0 (info ++ (0 ∷ []))

-- `locked_unlock_nullify`: the file that is left
unfoldable pub locked_unlock_nullify : Bytes → Bytes
locked_unlock_nullify file = write_at file 0 (0 ∷ 0 ∷ 0 ∷ 0 ∷ [])

-- `if ((idx = index(buf, '\n'))) *idx = 0`
unfoldable pub cut_line : Bytes → Bytes
cut_line [] = []
cut_line (c ∷ r) =
    let rest = cut_line r in if c == 0 then c ∷ r else if c == b'\n' then 0 ∷ r else c ∷ rest

-- `locked_read`: the number of bytes and the buffer
unfoldable pub locked_read : Bytes → Bytes → ℕ → ℕ × Bytes
locked_read file buf size =
    let got = take size file in (length got, cut_line (got ++ drop (length got) buf))

abbrev pub starts_null : Bytes → Option Bytes → Option Bytes
starts_null [] s = s
starts_null (zero ∷ r) s = none
starts_null (suc c ∷ r) s = s

-- What `_jitget` takes from the lock file: nothing if it starts with a null byte, or the string that
-- it ends behind the bytes read.
unfoldable pub lock_content : Bytes → Bytes → Option Bytes
lock_content file fpath =
    let (sz, buf) = locked_read file fpath path_max in starts_null buf (some (c_str (set buf sz 0)))

-- behind `locked_read`, with what it gives: the lock file that is left, and what the caller gets,
-- `none` for the result -1
unfoldable pub get_content :
    (Bytes → ℕ → Reading) → Bytes → Bytes → Option Bytes → List ℕ → ℕ → Outcome (Bytes × Option Got)
get_content read place file none bsize ent = ret (file, none)
get_content read place file (some content) bsize ent =
    jitget read place (some content) bsize ent >>= (λ g. ret (locked_unlock_nullify file, g))

-- `_jitget` on a lock file, whose lock it has taken, and its buffer `fpath`
unfoldable pub get_locked :
    (Bytes → ℕ → Reading) → Bytes → Bytes → Bytes → List ℕ → ℕ → Outcome (Bytes × Option Got)
get_locked read place file fpath bsize ent =
    get_content read place file (lock_content file fpath) bsize ent
