-- ===== src/LockFile/Pass.antt =====
-- From kwatcher to its client: the names of an entry pass through the lock file once.
use jit_dt.Common.{
  ℕ, ◌≤◌, ◌<◌, ◌≡◌, ◌≢◌, refl, List, [], ◌∷◌, ◌++◌, none, some, Bytes, codes, length, All, arith,
  length-append, All-append,
}
use jit_dt.Common.Outcome.{ret}
use jit_dt.Client.{ftype_num, Reading, got, Got, jitget}
use jit_dt.Client.Names.{IsName}
use jit_dt.Client.Get.{Gets, jitget_lem}
use jit_dt.Kwatch.Transfer.{line}
use jit_dt.LockFile.{
  path_max, locked_write, locked_unlock_nullify, lock_content, get_locked, get_content,
}
use jit_dt.LockFile.Strings.{IsText, lock_content-locked_write, lock_content-nullify}

pub line-IsText : (xs : List Bytes) → All IsText xs → IsText (line xs)
line-IsText [] h = tt
line-IsText (x ∷ xs) h =
    All-append (λ c. (c ≢ 0) × (c ≢ b'\n')) (x ++ codes ";") (line xs)
      (All-append (λ c. (c ≢ 0) × (c ≢ b'\n')) x (codes ";") h.0 (omega arith)) (line-IsText xs h.1)

line_more : (x : Bytes) (xs : List Bytes) → 0 < length (line (x ∷ xs))
line_more x xs =
    omega (arith, length-append (x ++ codes ";") (line xs), length-append x (codes ";"))

-- What a client gets through the lock file that is written, and what the next one gets from the file
-- that the first one leaves.
pub record Passes (read : Bytes → ℕ → Reading) (place file fpath fpath' x : Bytes) (xs : List Bytes)
    (bs : List ℕ) : Type 0 where
  pub result : Got
  pub left : Bytes
  pub gets : Gets read place x xs bs (ret (some result))
  pub first :
      get_locked read place (locked_write file (line (x ∷ xs))) fpath bs (length (x ∷ xs))
      ≡ ret (left, some result)
  pub next : get_locked read place left fpath' bs (length (x ∷ xs)) ≡ ret (left, none)

get_locked-Gets :
    (read : Bytes → ℕ → Reading) (place file fpath c x : Bytes) (xs : List Bytes) (bs : List ℕ)
    (ent : ℕ)
    → lock_content file fpath ≡ some c
    → Gets read place x xs bs (jitget read place (some c) bs ent)
    → (g : Got) × (get_locked read place file fpath bs ent
        ≡ ret (locked_unlock_nullify file, some g))
      × Gets read place x xs bs (ret (some g))
unfolding get_locked get_content
get_locked-Gets read place file fpath c x xs bs ent e gets =
    let gets' : Gets read place x xs bs (ret (some gets.result)) = record {
      result = gets.result;
      returned = refl;
      names = gets.names;
      pieces_eq = gets.pieces_eq;
      sizes = gets.sizes;
      within = gets.within;
    } in
    (gets.result, rw (get_locked, e, get_content, gets.returned) refl, gets')

-- If a read gives at most the size it asks for, then the names of 1 to 3 files without `;`, null
-- bytes and ends of lines, whose line is shorter than PATH_MAX, pass from the locked_write of
-- kwatcher to _jitget through a lock file and a buffer of any earlier content: _jitget gives these
-- names and writes each file at the offset of its entry; and the next _jitget, on the file that this
-- one leaves, gives -1 and leaves the file as it is.
pub jitget-locked_write :
    (read : Bytes → ℕ → Reading) (place file fpath fpath' x : Bytes) (xs : List Bytes) (bs : List ℕ)
    → ((p : Bytes) (n : ℕ) (b : Bytes) → read p n ≡ got b → length b ≤ n)
    → All IsName (x ∷ xs)
    → All IsText (x ∷ xs)
    → length (x ∷ xs) ≤ ftype_num
    → length bs ≡ length (x ∷ xs)
    → length (line (x ∷ xs)) < path_max
    → Passes read place file fpath fpath' x xs bs
unfolding get_locked get_content
jitget-locked_write read place file fpath fpath' x xs bs honest hn ht hl hb hs =
    let file' = locked_write file (line (x ∷ xs)) in
    let written =
      lock_content-locked_write file (line (x ∷ xs)) fpath (line_more x xs)
        (line-IsText (x ∷ xs) ht) hs in
    let (g, e, gets) =
      get_locked-Gets read place file' fpath (line (x ∷ xs)) x xs bs (length (x ∷ xs)) written
        (jitget_lem read place x xs bs honest hn hl hb) in
    record {
      result = g;
      left = locked_unlock_nullify file';
      gets = gets;
      first = e;
      next = rw (get_locked, lock_content-nullify file' fpath', get_content) refl;
    }
