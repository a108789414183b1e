-- ===== src/Hist/Valid.antt =====
-- The invariant of the shared history, and the state that it describes: a queue of entries.
use jit_dt.Common.{
  ℕ, ◌+◌, ◌-◌, ◌%◌, ◌≤◌, ◌<◌, ◌≡◌, refl, List, [], ◌∷◌, map, Option, some, length, get_or, set, All,
  All-set, All-get_or, length-set, ◌==◌, if◌then◌else◌, pos, pos_part, dec, arith,
}
use jit_dt.Common.Outcome.{ret, load-eq-get_or, store-eq-set}
use jit_dt.Hist.{
  Bytes, HistData, Hist, empty_data, fname_max, max_history, keep_file_count, update_pointer,
  cleared, unlinks, histinit, histremove_locked, register, set_date,
}
use jit_dt.Hist.Window.{window}

abbrev pub entry_at : Hist → ℕ → HistData
entry_at h i = get_or h.history i empty_data

-- the date of the entry that the producer fills
abbrev pub newest : Hist → ℕ
newest h = (entry_at h h.prodhistp).date

-- the slot of the next new date
abbrev pub next_slot : Hist → ℕ
next_slot h = if newest h == 0 then h.prodhistp else update_pointer h.nhist h.prodhistp

-- the entries that the consumer has not removed, oldest first
abbrev pub pending : Hist → List HistData
pending h = window empty_data h.nhist h.history h.conshistp (pos_part h.numhist)

abbrev pub dates : Hist → List ℕ
dates h = map (λ e. e.date) (pending h)

abbrev pub Ascending : List ℕ → Type 0
Ascending [] = Unit
Ascending (x ∷ xs) = All (λ y. x < y) xs × Ascending xs

abbrev pub HasNames : HistData → Type 0
HasNames e = length e.fname ≡ fname_max

-- Every index lies in its array, whatever the counter says.
pub record IsSized (h : Hist) : Type 0 where
  pub size : length h.history ≡ max_history
  pub names : All HasNames h.history
  pub nhist_lo : keep_file_count + 2 ≤ h.nhist
  pub nhist_hi : h.nhist ≤ max_history
  pub prod_in : h.prodhistp < h.nhist
  pub cons_in : h.conshistp < h.nhist

-- The counter is the distance of the two pointers, and dates rise up to the producer's.
pub record IsValid (h : Hist) : Type 0 where
  pub sized : IsSized h
  pub counted : h.numhist ≡ pos (pos_part h.numhist)
  pub room : pos_part h.numhist + keep_file_count ≤ h.nhist
  pub linked : next_slot h ≡ (h.conshistp + pos_part h.numhist) % h.nhist
  pub rising : Ascending (dates h)
  pub latest : All (λ d. d ≤ newest h) (dates h)

-- the entry that `_histremove` cleans
abbrev pub removed_slot : Hist → ℕ
removed_slot h = (update_pointer h.nhist h.conshistp + h.nhist - keep_file_count) % h.nhist

abbrev pub after_remove : Hist → Hist
after_remove h =
    let e = entry_at h (removed_slot h) in
    record h {
      history = set h.history (removed_slot h) (record e { fname = cleared e.fname });
      conshistp = update_pointer h.nhist h.conshistp;
      numhist = dec h.numhist;
    }

abbrev pub after_register : Hist → ℕ → ℕ → Bytes → Hist
after_register h i tent path =
    let e = entry_at h i in
    record h { history = set h.history i (record e { fname = set e.fname tent (some path) }) }

abbrev pub after_date : Hist → ℕ → ℕ → Hist
after_date h i dt = record h { history = set h.history i (record (entry_at h i) { date = dt }) }

pub histremove_locked-IsSized :
    {h : Hist}
    → IsSized h
    → histremove_locked h ≡ ret (after_remove h, unlinks (entry_at h (removed_slot h)).fname)
unfolding histremove_locked
histremove_locked-IsSized {h} s =
    let i = removed_slot h in
    let e = entry_at h i in
    rw (
      load-eq-get_or h.history i empty_data (omega arith),
      store-eq-set h.history i (record e { fname = cleared e.fname }) (omega arith),
    )

pub register-IsSized :
    {h : Hist} (i tent : ℕ) (path : Bytes)
    → IsSized h
    → i < h.nhist
    → tent < fname_max
    → register h i tent path ≡ ret (after_register h i tent path)
unfolding register
register-IsSized {h} i tent path s hi ht = rw (
  load-eq-get_or h.history i empty_data (omega arith),
  store-eq-set (entry_at h i).fname tent (some path)
      (omega (arith, All-get_or HasNames h.history i empty_data s.names (omega arith))),
  store-eq-set h.history i
      (record (entry_at h i) { fname = set (entry_at h i).fname tent (some path) }) (omega arith),
)

pub set_date-IsSized :
    {h : Hist} (i dt : ℕ) → IsSized h → i < h.nhist → set_date h i dt ≡ ret (after_date h i dt)
unfolding set_date
set_date-IsSized {h} i dt s hi = rw (
  load-eq-get_or h.history i empty_data (omega arith),
  store-eq-set h.history i (record (entry_at h i) { date = dt }) (omega arith),
)

length-cleared : (xs : List (Option Bytes)) → length (cleared xs) ≡ length xs
length-cleared [] = refl
length-cleared (x ∷ xs) = omega (arith, length-cleared xs)

-- A write of a whole entry keeps the sizes.
write-IsSized :
    {h : Hist} (i : ℕ) (e : HistData)
    → HasNames e
    → IsSized h
    → IsSized (record h { history = set h.history i e })
write-IsSized {h} i e n s = record {
  size = rw (length-set h.history i e) s.size;
  names = All-set HasNames h.history i e n s.names;
  nhist_lo = s.nhist_lo;
  nhist_hi = s.nhist_hi;
  prod_in = s.prod_in;
  cons_in = s.cons_in;
}

pub HasNames-entry_at : {h : Hist} (i : ℕ) → IsSized h → i < h.nhist → HasNames (entry_at h i)
HasNames-entry_at {h} i s hi = All-get_or HasNames h.history i empty_data s.names (omega arith)

pub removed_slot-lt : {h : Hist} → IsSized h → removed_slot h < h.nhist
removed_slot-lt s = omega arith

pub after_remove-IsSized : {h : Hist} → IsSized h → IsSized (after_remove h)
after_remove-IsSized {h} s =
    let i = removed_slot h in
    let e = entry_at h i in
    let n = HasNames-entry_at i s (removed_slot-lt s) in
    let w =
      write-IsSized {h = h} i (record e { fname = cleared e.fname }) (rw (length-cleared e.fname) n)
        s in
    record {
      size = w.size;
      names = w.names;
      nhist_lo = s.nhist_lo;
      nhist_hi = s.nhist_hi;
      prod_in = s.prod_in;
      cons_in = omega (arith, s.cons_in);
    }

pub after_register-IsSized :
    {h : Hist} (i tent : ℕ) (path : Bytes)
    → IsSized h
    → i < h.nhist
    → IsSized (after_register h i tent path)
after_register-IsSized {h} i tent path s hi =
    let e = entry_at h i in
    write-IsSized i (record e { fname = set e.fname tent (some path) })
      (rw (length-set e.fname tent (some path)) (HasNames-entry_at i s hi)) s

pub after_date-IsSized :
    {h : Hist} (i dt : ℕ) → IsSized h → i < h.nhist → IsSized (after_date h i dt)
after_date-IsSized {h} i dt s hi =
    write-IsSized i (record (entry_at h i) { date = dt }) (HasNames-entry_at i s hi) s

-- `histinit` with a size that the array holds starts an empty, well-formed history.
pub histinit-IsValid : (nh : ℕ) → nh ≤ max_history → IsValid (histinit nh)
unfolding histinit
histinit-IsValid nh h = ground arith
