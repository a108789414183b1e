-- ===== src/Trans/Move.antt =====
-- src/translib.c: locked_move, which copies a file, removes it and leaves its new name in a lock
-- file. The file system is a map from paths to contents, so that two paths may be one file; what a
-- read, a write, an open and a lock answer is a parameter.
pub mod Copy
pub mod Moved
mod Tests
use jit_dt.Common.{
  ℕ, zero, suc, ◌+◌, ◌*◌, Bool, true, false, not, List, [], ◌∷◌, ◌++◌, Option, none, some, Bytes,
  codes, str_eq, ◌==◌, if◌then◌else◌, length, take, drop, min,
}
use jit_dt.Common.Outcome.{Outcome, ret, exited, fault}
use jit_dt.Trans.{locked_lock}
use jit_dt.Trans.Sftp.{is_directory}
use jit_dt.LockFile.{write_at, locked_write}

abbrev pub bsize : ℕ
bsize = 1024 * 8

abbrev pub Files : Type 0
Files = Bytes → Option Bytes

abbrev pub content : Files → Bytes → Bytes
content fs p = elim (fs p) [ none ↦ [] | some c ↦ c ]

abbrev pub written : Files → Bytes → Bytes → Files
written fs p c = λ q. if str_eq q p then some c else fs q

abbrev pub unlinked : Files → Bytes → Files
unlinked fs p = λ q. if str_eq q p then none else fs q

-- `read` at an offset fails, or gives at most one byte more than the number, and at most what is
-- left; `write` at an offset fails or writes at most the number of bytes that it gives. `unlink` and
-- the write into the lock file fail or do all.
pub record Disk : Type 0 where
  pub read : ℕ → Option ℕ
  pub write : ℕ → ℕ → Option ℕ
  pub readable : Bytes → Bool
  pub writable : Bytes → Bool
  pub locks : Bytes → Bool
  pub unlinks : Bytes → Bool
  pub lock_writes : Bool
  pub basename : Bytes → Bytes

-- `szw` bytes of a piece were written; the rest of the loop is `more`.
unfoldable pub wrote :
    (ℕ → Files → Option (Bool × Files)) → Bytes → ℕ → Files → Bytes → ℕ → Option (Bool × Files)
wrote more to off fs piece szw =
    let fs' = written fs to (write_at (content fs to) off (take szw piece)) in
    if szw == length piece then more (off + szw) fs' else some (false, fs')

-- `write(wfd, combuf, szr)` of a piece that was read
unfoldable pub write_piece :
    (ℕ → Files → Option (Bool × Files)) → Disk → Bytes → ℕ → Files → Bytes → Option (Bool × Files)
write_piece more disk to off fs piece = elim (disk.write off (length piece)) [
  | none ↦ some (false, fs)
  | some w ↦ wrote more to off fs piece (min w (length piece))
]

abbrev pub copy_piece :
    (ℕ → Files → Option (Bool × Files)) → Disk → Bytes → ℕ → Files → Bytes → Option (Bool × Files)
copy_piece more disk to off fs [] = some (true, fs)
copy_piece more disk to off fs (b ∷ bs) = write_piece more disk to off fs (b ∷ bs)

-- The loop, from the offset that both files have come to. The flag is false where the error is
-- reported behind it; `none` is a lack of fuel.
unfoldable pub copy : ℕ → Disk → Bytes → Bytes → ℕ → Files → Option (Bool × Files)
copy zero disk from to off fs = none
copy (suc n) disk from to off fs = elim (disk.read off) [
  | none ↦ some (false, fs)
  | some szr ↦
      copy_piece (copy n disk from to) disk to off fs
        (take (min (suc szr) bsize) (drop off (content fs from)))
]

-- The end of `locked_move`: `ticktack` for the next lock, or an exit, and the files.
pub data Moving : Type 0 where
  moved : Bool → Files → Moving
  stopped : Files → Moving

-- `fnbuf`
unfoldable pub move_name : Disk → Bytes → Bytes → Bytes
move_name disk rpath fname = if is_directory rpath then rpath ++ disk.basename fname else rpath

-- behind the loop, with the lock file `lck`: neither result is looked at
unfoldable pub moved_files : Disk → Bytes → Bytes → Bytes → Files → Files
moved_files disk lck fname fnbuf fs =
    let fs' = if disk.unlinks fname then unlinked fs fname else fs in
    if disk.lock_writes then written fs' lck (locked_write (content fs' lck) fnbuf) else fs'

unfoldable pub copied : Disk → Bool → Bytes → Bytes → Bytes → Bool × Files → Moving
copied disk ticktack lck fname fnbuf (true, fs) =
    moved ticktack (moved_files disk lck fname fnbuf fs)
copied disk ticktack lck fname fnbuf (false, fs) = stopped fs

-- the file that `open` creates or empties
abbrev pub created : Files → Bytes → Files
created fs lck = elim (fs lck) [ none ↦ written fs lck [] | some c ↦ fs ]

-- from the first `open` to the end
unfoldable pub move_file : ℕ → Disk → Bool → Bytes → Bytes → Bytes → Files → Option Moving
move_file fuel disk ticktack lck fname fnbuf fs = elim (fs fname) [
  | none ↦ some (stopped fs)
  | some src ↦
      if not (disk.readable fname)
      then some (stopped fs)
      else (if disk.writable fnbuf
          then (elim (copy fuel disk fname fnbuf 0 (written fs fnbuf [])) [
            | none ↦ none
            | some r ↦ some (copied disk ticktack lck fname fnbuf r)
          ])
          else some (stopped fs))
]

-- `locked_move`
unfoldable pub locked_move : ℕ → Disk → Bool → Bytes → Bytes → Files → Option Moving
locked_move fuel disk ticktack rpath fname fs = elim (locked_lock disk.locks ticktack rpath) [
  | ret (lck, ticktack') ↦
      move_file fuel disk ticktack' lck fname (move_name disk rpath fname) (created fs lck)
  | exited ↦ some (stopped fs)
  | fault ↦ some (stopped fs)
]
