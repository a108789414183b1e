-- ===== src/KFile/Tests.antt =====
-- The files of src/jitkclient.c on examples.
use jit_dt.Common.{
  ◌≡◌, refl, Bool, true, false, not, List, [], ◌∷◌, Option, none, some, Bytes, codes, str_eq, take,
  drop, arith, replicate,
}
use jit_dt.Common.Outcome.{Outcome, ret, exited, load, store, ◌>>=◌}
use jit_dt.Client.{got, septype, separate, split}
use jit_dt.Kwatch.Transfer.{line}
use jit_dt.LockFile.{c_str, write_at, cut_line, locked_read, locked_write}
use jit_dt.Trans.{directory, lock_path, locked_lock}
use jit_dt.KFile.{
  Open, Env, Client, Opened, missing, opened, open_fd, slot, open_data, open_named, open_locked,
  jitopen, nullify_fd, jitclose,
}
use jit_dt.KFile.Opens.{with_fds, locked, lock_open, jitopen-missing}
use jit_dt.KFile.Session.{Used, jitopen-jitclose}

abbrev file_bytes : Bytes
file_bytes = codes "twelve bytes"

abbrev disk : Env
disk = record {
  locks = λ p. true;
  opens = λ p. not (str_eq p (codes "gone"));
  read_at = λ p o n. got (take n (drop o file_bytes));
}

-- the terminal is open three times
abbrev tty : Open
tty = record { path = codes "/dev/tty"; place = 0; writable = true }

abbrev terminal : List Open
terminal = tty ∷ tty ∷ tty ∷ []

abbrev client : List Bytes → Client
client names = record {
  files = λ p. locked_write [] (line names);
  ticktack = false;
  fpath = [];
  lckname = replicate 8 [];
  lckfds = replicate 8 0;
  fds = some tty ∷ some tty ∷ some tty ∷ none ∷ none ∷ none ∷ [];
}

abbrev two_names : List Bytes
two_names = codes "a.vr" ∷ codes "a.ze" ∷ []

abbrev state_of : Outcome (Client × Opened) → List (Option Open) × Option Opened
state_of (ret (k, o)) = (k.fds, some o)
state_of r = ([], none)

-- A file that cannot be opened leaves the lock file open, and so locked.
leaked_lock : state_of (jitopen disk (client (codes "gone" ∷ [])) (codes "dir/") 0) ≡ (
  some tty
      ∷ some tty
      ∷ some tty
      ∷ some (record { path = codes "dir/JITDT-READY-1"; place = 6; writable = true })
      ∷ none
      ∷ none
      ∷ [],
  some missing,
)
unfolding jitopen locked_lock lock_path directory open_locked open_named open_data open_fd
    locked_read locked_write write_at cut_line c_str septype separate split str_eq store load
leaked_lock = refl

-- A second jitclose of a descriptor exits.
abbrev twice : Outcome (Client × Opened) → Outcome (Client × Bool)
twice (ret (k, opened fd name)) = jitclose k fd >>= (λ x. jitclose x.0 fd)
twice (ret (k, o)) = ret (k, false)
twice exited = exited
twice jit_dt.Common.Outcome.fault = jit_dt.Common.Outcome.fault

exits_twice : twice (jitopen disk (client two_names) (codes "dir/") 1) ≡ exited
unfolding jitopen locked_lock lock_path directory open_locked open_named open_data open_fd
    locked_read locked_write write_at cut_line c_str septype separate split str_eq store load
    jitclose nullify_fd slot
exits_twice = refl

jitopen-missing_example :
    jitopen disk (client (codes "gone" ∷ [])) (codes "dir/") 0
    ≡ ret (
      with_fds (locked (client (codes "gone" ∷ [])) (lock_path false (codes "dir/")) 3) (
          some tty
          ∷ some tty
          ∷ some tty
          ∷ some (lock_open (lock_path false (codes "dir/")) 6)
          ∷ none
          ∷ none
          ∷ []),
      missing,
    )
unfolding str_eq load septype separate split locked_write write_at locked_read
jitopen-missing_example =
    jitopen-missing disk terminal [] (none ∷ []) (client (codes "gone" ∷ [])) (codes "dir/") 0 b'g'
      (codes "one;") [] (codes "gone") refl refl (omega arith) (omega arith) refl refl (omega arith)

jitopen-jitclose_example :
    Used disk
      (client two_names)
      (codes "dir/a")
      1
      (codes "a.ze")
      file_bytes
      (6 ∷ 4 ∷ [])
      (lock_path false (codes "dir/a"))
unfolding str_eq load lock_path directory
jitopen-jitclose_example =
    jitopen-jitclose disk (client two_names) terminal [] (none ∷ []) (codes "dir/a") 1 []
      (codes "a.vr") (codes "a.ze") file_bytes (codes "a.ze" ∷ []) (6 ∷ 4 ∷ []) refl refl
      (omega arith) (omega arith) (omega arith) refl refl (λ o n. refl) (omega arith) (omega arith)
