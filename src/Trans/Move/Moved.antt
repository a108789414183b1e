-- ===== src/Trans/Move/Moved.antt =====
-- locked_move: a file leaves its place only when its whole content stands in the new one.
use jit_dt.Common.{
  ℕ, ◌<◌, ◌≡◌, ◌≢◌, refl, sym, ap, ◌∙◌, ◌⊎◌, inl, inr, Bool, true, false, not, [], Option, none,
  some, Bytes, length, if◌then◌else◌, Bool-cases, Option-cases,
}
use jit_dt.LockFile.{path_max, locked_write, lock_content}
use jit_dt.LockFile.Strings.{IsText, lock_content-locked_write}
use jit_dt.Trans.{lock_path, locked_lock}
use jit_dt.Trans.Move.{
  Files, content, written, unlinked, Disk, Moving, moved, stopped, move_name, moved_files, copied,
  created, move_file, locked_move,
}
use jit_dt.Trans.Move.Copy.{
  written_self, written_ne, unlinked_self, unlinked_ne, content-some, Failing, Whole, copy-Copied,
}

-- the three files of a move
pub record Apart (lck from to : Bytes) : Type 0 where
  pub lck_from : lck ≢ from
  pub lck_to : lck ≢ to
  pub from_to : from ≢ to

-- what a lock file can hold
pub record Fits (to : Bytes) : Type 0 where
  pub some_bytes : 0 < length to
  pub is_text : IsText to
  pub room : length to < path_max

-- why a file is not moved
abbrev pub Cause : Disk → Bytes → Bytes → Bytes → Type 0
Cause disk lck from to =
    (disk.locks lck ≡ false)
    ⊎ ((disk.readable from ≡ false) ⊎ ((disk.writable to ≡ false) ⊎ Failing disk))

pub record Arrived (disk : Disk) (fs : Files) (lck from to src : Bytes) (fs' : Files) : Type 0 where
  pub removed : fs' from ≡ (if disk.unlinks from then none else some src)
  pub arrived : fs' to ≡ some src
  pub told :
      (fpath : Bytes)
      → lock_content (content fs' lck) fpath
        ≡ (if disk.lock_writes then some to else lock_content (content fs lck) fpath)
  pub others : (q : Bytes) → q ≢ lck → q ≢ from → q ≢ to → fs' q ≡ fs q

pub record Stayed (disk : Disk) (fs : Files) (lck from to src : Bytes) (fs' : Files) : Type 0 where
  pub stayed : fs' from ≡ some src
  pub others : (q : Bytes) → q ≢ lck → q ≢ to → fs' q ≡ fs q
  pub cause : Cause disk lck from to

abbrev pub Kept : Disk → Files → Bool → Bytes → Bytes → Bytes → Bytes → Moving → Type 0
Kept disk fs t lck from to src (moved t' fs') = (t' ≡ t) × Arrived disk fs lck from to src fs'
Kept disk fs t lck from to src (stopped fs') = Stayed disk fs lck from to src fs'

created_ne : (fs : Files) (lck q : Bytes) → q ≢ lck → created fs lck q ≡ fs q
created_ne fs lck q ne = elim (Option-cases (fs lck)) [
  | inl e ↦ rw (created, e) (written_ne fs lck [] q ne)
  | inr (c, e) ↦ rw (created, e) refl
]

-- what stands at a path where a file may have been removed from another
maybe_unlinked : Bool → Files → Bytes → Files
maybe_unlinked b fs from = if b then unlinked fs from else fs

maybe_unlinked_self :
    (b : Bool) (fs : Files) (from src : Bytes)
    → fs from ≡ some src
    → maybe_unlinked b fs from from ≡ (if b then none else some src)
unfolding maybe_unlinked
maybe_unlinked_self true fs from src h = unlinked_self fs from
maybe_unlinked_self false fs from src h = h

maybe_unlinked_ne :
    (b : Bool) (fs : Files) (from q : Bytes) → q ≢ from → maybe_unlinked b fs from q ≡ fs q
unfolding maybe_unlinked
maybe_unlinked_ne true fs from q ne = unlinked_ne fs from q ne
maybe_unlinked_ne false fs from q ne = refl

maybe_written_ne :
    (b : Bool) (fs : Files) (lck text q : Bytes)
    → q ≢ lck
    → (if b then written fs lck text else fs) q ≡ fs q
maybe_written_ne true fs lck text q ne = written_ne fs lck text q ne
maybe_written_ne false fs lck text q ne = refl

maybe_told :
    (b : Bool) (fs : Files) (lck to fpath : Bytes)
    → Fits to
    → lock_content
        (content (if b then written fs lck (locked_write (content fs lck) to) else fs) lck)
        fpath
      ≡ (if b then some to else lock_content (content fs lck) fpath)
maybe_told true fs lck to fpath f =
    let text = locked_write (content fs lck) to in
    ap (λ c. lock_content c fpath)
      (content-some (written fs lck text) lck text (written_self fs lck text))
    ∙ lock_content-locked_write (content fs lck) to fpath f.some_bytes f.is_text f.room
maybe_told false fs lck to fpath f = refl

content_eq : (fs fs' : Files) (p : Bytes) → fs p ≡ fs' p → content fs p ≡ content fs' p
content_eq fs fs' p e = rw (content, e) refl

moved_files-Arrived :
    (disk : Disk) (fs fs1 : Files) (lck from to src : Bytes)
    → Apart lck from to
    → Fits to
    → fs1 from ≡ some src
    → fs1 to ≡ some src
    → content fs1 lck ≡ content fs lck
    → ((q : Bytes) → q ≢ lck → q ≢ to → fs1 q ≡ fs q)
    → Arrived disk fs lck from to src (moved_files disk lck from to fs1)
unfolding moved_files maybe_unlinked
moved_files-Arrived disk fs fs1 lck from to src a f stands has same others =
    let fs2 : Files = maybe_unlinked (disk.unlinks from) fs1 from in
    let text = locked_write (content fs2 lck) to in
    let lock_same : content fs2 lck ≡ content fs lck =
      content_eq fs2 fs1 lck (maybe_unlinked_ne (disk.unlinks from) fs1 from lck a.lck_from)
      ∙ same in
    record {
      removed =
          maybe_written_ne disk.lock_writes fs2 lck text from (λ e. a.lck_from (sym e))
          ∙ maybe_unlinked_self (disk.unlinks from) fs1 from src stands;
      arrived =
          maybe_written_ne disk.lock_writes fs2 lck text to (λ e. a.lck_to (sym e))
          ∙ maybe_unlinked_ne (disk.unlinks from) fs1 from to (λ e. a.from_to (sym e))
          ∙ has;
      told = λ fpath.
          maybe_told disk.lock_writes fs2 lck to fpath f
          ∙ ap (λ c. if disk.lock_writes then some to else lock_content c fpath) lock_same;
      others = λ q l x y.
          maybe_written_ne disk.lock_writes fs2 lck text q l
          ∙ maybe_unlinked_ne (disk.unlinks from) fs1 from q x
          ∙ others q l y;
    }

created_lock : (fs : Files) (lck : Bytes) → content (created fs lck) lck ≡ content fs lck
created_lock fs lck = elim (Option-cases (fs lck)) [
  | inl e ↦
      let made : created fs lck ≡ written fs lck [] = rw (created, e) refl in
      let empty : content fs lck ≡ [] = rw (content, e) refl in
      ap (λ g. content g lck) made
      ∙ content-some (written fs lck []) lck [] (written_self fs lck [])
      ∙ sym empty
  | inr (c, e) ↦ rw (created, e) refl
]

copied-Kept :
    (disk : Disk) (fs fs1 : Files) (t : Bool) (lck from to src : Bytes) (r : Bool × Files)
    → Apart lck from to
    → Fits to
    → fs1 from ≡ some src
    → ((q : Bytes) → q ≢ lck → fs1 q ≡ fs q)
    → content fs1 lck ≡ content fs lck
    → Whole disk to src r
    → ((q : Bytes) → q ≢ to → r.1 q ≡ written fs1 to [] q)
    → Kept disk fs t lck from to src (copied disk t lck from to r)
unfolding copied
copied-Kept disk fs fs1 t lck from to src (true, fs') a f has same lock w others = (
  refl,
  moved_files-Arrived disk fs fs' lck from to src a f
      (others from a.from_to ∙ written_ne fs1 to [] from a.from_to ∙ has) w
      (content_eq fs' fs1 lck (others lck a.lck_to ∙ written_ne fs1 to [] lck a.lck_to) ∙ lock)
      (λ q l y. others q y ∙ written_ne fs1 to [] q y ∙ same q l),
)
copied-Kept disk fs fs1 t lck from to src (false, fs') a f has same lock w others = record {
  stayed = others from a.from_to ∙ written_ne fs1 to [] from a.from_to ∙ has;
  others = λ q l y. others q y ∙ written_ne fs1 to [] q y ∙ same q l;
  cause = inr (inr (inr w));
}

unchanged-Stayed :
    (disk : Disk) (fs fs1 : Files) (lck from to src : Bytes)
    → fs1 from ≡ some src
    → ((q : Bytes) → q ≢ lck → fs1 q ≡ fs q)
    → Cause disk lck from to
    → Stayed disk fs lck from to src fs1
unchanged-Stayed disk fs fs1 lck from to src has same c = record {
  stayed = has;
  others = λ q l y. same q l;
  cause = c;
}

pub record Ends (disk : Disk) (fs : Files) (t : Bool) (lck from to src : Bytes) (x : Option Moving)
    : Type 0 where
  pub moving : Moving
  pub returned : x ≡ some moving
  pub kept : Kept disk fs t lck from to src moving

move_file-Ends :
    (fuel : ℕ) (disk : Disk) (fs fs1 : Files) (t : Bool) (lck from to src : Bytes)
    → Apart lck from to
    → Fits to
    → length src < fuel
    → fs1 from ≡ some src
    → ((q : Bytes) → q ≢ lck → fs1 q ≡ fs q)
    → content fs1 lck ≡ content fs lck
    → Ends disk fs t lck from to src (move_file fuel disk t lck from to fs1)
unfolding move_file
move_file-Ends fuel disk fs fs1 t lck from to src a f h has same lock =
    elim (Bool-cases (disk.readable from)) [
      | inl r ↦ elim (Bool-cases (disk.writable to)) [
        | inl w ↦
            let fs2 : Files = written fs1 to [] in
            let c =
              copy-Copied fuel disk fs2 fs2 from to [] src src 0 a.from_to
                (written_ne fs1 to [] from a.from_to ∙ has) h refl
                record { target = written_self fs1 to []; others = λ q ne. refl } refl in
            rw (move_file, has, r, w, c.returned)
              record {
                moving = copied disk t lck from to c.result;
                returned = refl;
                kept =
                    copied-Kept disk fs fs1 t lck from to src c.result a f has same lock c.whole
                      c.others;
              }
        | inr w ↦
            rw (move_file, has, r, w)
              record {
                moving = stopped fs1;
                returned = refl;
                kept = unchanged-Stayed disk fs fs1 lck from to src has same (inr (inr (inl w)));
              }
      ]
      | inr r ↦
          rw (move_file, has, r)
            record {
              moving = stopped fs1;
              returned = refl;
              kept = unchanged-Stayed disk fs fs1 lck from to src has same (inr (inl r));
            }
    ]

-- A file is moved to another path, the lock file is neither of them, the new name is a text that a
-- lock file can hold, and the fuel is more than the length of the file. Then locked_move returns
-- with the next lock, the whole content under the new name, the file gone from its place just if
-- unlink does not fail, the new name in the lock file for whoever reads it just if the write there
-- does not fail, where otherwise what the lock file told stays, and all other files as they were.
-- Or it exits: the file is still in its place, all files but the lock file and the new one are as
-- they were, and the cause is a lock, an open, a read or a write that failed, or a write that was
-- short.
pub locked_move-Ends :
    (fuel : ℕ) (disk : Disk) (t : Bool) (rpath fname src : Bytes) (fs : Files)
    → fs fname ≡ some src
    → Apart (lock_path t rpath) fname (move_name disk rpath fname)
    → Fits (move_name disk rpath fname)
    → length src < fuel
    → Ends disk fs
        (not t)
        (lock_path t rpath)
        fname
        (move_name disk rpath fname)
        src
        (locked_move fuel disk t rpath fname fs)
unfolding locked_move locked_lock
locked_move-Ends fuel disk t rpath fname src fs has a f h =
    let lck = lock_path t rpath in
    elim (Bool-cases (disk.locks lck)) [
      | inl e ↦
          rw (locked_move, locked_lock, e)
            (move_file-Ends fuel disk fs (created fs lck) (not t) lck fname
              (move_name disk rpath fname) src a f h
              (created_ne fs lck fname (λ x. a.lck_from (sym x)) ∙ has)
              (λ q ne. created_ne fs lck q ne) (created_lock fs lck))
      | inr e ↦
          rw (locked_move, locked_lock, e)
            record {
              moving = stopped fs;
              returned = refl;
              kept =
                  unchanged-Stayed disk fs fs lck fname (move_name disk rpath fname) src has
                    (λ q ne. refl) (inl e);
            }
    ]
