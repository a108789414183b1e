-- ===== src/Trans/Move/Tests.antt =====
-- locked_move on concrete inputs, and the theorem at inputs that meet its hypotheses.
use jit_dt.Common.{
  ◌≡◌, ◌≢◌, refl, true, false, List, [], ◌∷◌, Option, none, some, Bytes, codes, arith, str_eq,
  str_eq_iff, if◌then◌else◌,
}
use jit_dt.LockFile.{locked_write, write_at}
use jit_dt.Trans.{lock_path, locked_lock, directory}
use jit_dt.Trans.Sftp.{is_directory}
use jit_dt.Trans.Move.{
  Files, Disk, Moving, moved, stopped, move_name, moved_files, copied, move_file, locked_move, copy,
  write_piece, wrote,
}
use jit_dt.Trans.Move.Moved.{Apart, Fits, Ends, locked_move-Ends}

-- Reads give two bytes at most.
abbrev disk : Disk
disk = record {
  read = λ off. some 1;
  write = λ off n. some n;
  readable = λ p. true;
  writable = λ p. true;
  locks = λ p. true;
  unlinks = λ p. true;
  lock_writes = true;
  basename = λ p. codes "a";
}

abbrev short_writes : Disk
short_writes = record disk { write = λ off n. some 1 }

abbrev files : Files
files = λ q. if str_eq q (codes "/w/a") then some (codes "12345") else none

-- Both files, behind a move and behind an exit.
abbrev both : Bytes → Bytes → Option Moving → List (Option Bytes)
both p q (some (moved t fs)) = fs p ∷ fs q ∷ []
both p q (some (stopped fs)) = some (codes "stopped") ∷ fs p ∷ fs q ∷ []
both p q none = []

moves :
    both (codes "/w/a") (codes "d/a") (locked_move 6 disk false (codes "d/") (codes "/w/a") files)
    ≡ none ∷ some (codes "12345") ∷ []
unfolding locked_move locked_lock lock_path directory move_name is_directory move_file copy
    write_piece wrote write_at copied moved_files locked_write str_eq
moves = refl

stops :
    both
      (codes "/w/a")
      (codes "d/a")
      (locked_move 6 short_writes false (codes "d/") (codes "/w/a") files)
    ≡ some (codes "stopped") ∷ some (codes "12345") ∷ some (codes "1") ∷ []
unfolding locked_move locked_lock lock_path directory move_name is_directory move_file copy
    write_piece wrote write_at copied moved_files locked_write str_eq
stops = refl

-- A file that is moved onto itself is lost.
onto_itself :
    both (codes "/w/a") (codes "/w/a") (locked_move 6 disk false (codes "/w/") (codes "/w/a") files)
    ≡ none ∷ none ∷ []
unfolding locked_move locked_lock lock_path directory move_name is_directory move_file copy
    write_piece wrote write_at copied moved_files locked_write str_eq
onto_itself = refl

name_is : move_name disk (codes "d/") (codes "/w/a") ≡ codes "d/a"
unfolding move_name is_directory
name_is = refl

ne_text : (a b : Bytes) → str_eq a b ≡ false → a ≢ b
ne_text a b e f = cc ((str_eq_iff a b).1 f)

apart :
    Apart (lock_path false (codes "d/")) (codes "/w/a") (move_name disk (codes "d/") (codes "/w/a"))
unfolding lock_path directory move_name is_directory str_eq
apart = record {
  lck_from = ne_text (codes "d/JITDT-READY-1") (codes "/w/a") refl;
  lck_to = ne_text (codes "d/JITDT-READY-1") (codes "d/a") refl;
  from_to = ne_text (codes "/w/a") (codes "d/a") refl;
}

fits : Fits (move_name disk (codes "d/") (codes "/w/a"))
unfolding move_name is_directory
fits = record { some_bytes = omega arith; is_text = omega arith; room = omega arith }

has_file : files (codes "/w/a") ≡ some (codes "12345")
unfolding str_eq
has_file = refl

locked_move-Ends_example :
    Ends disk files true
      (lock_path false (codes "d/"))
      (codes "/w/a")
      (move_name disk (codes "d/") (codes "/w/a"))
      (codes "12345")
      (locked_move 6 disk false (codes "d/") (codes "/w/a") files)
locked_move-Ends_example =
    locked_move-Ends 6 disk false (codes "d/") (codes "/w/a") (codes "12345") files has_file apart
      fits (omega arith)
