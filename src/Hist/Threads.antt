-- ===== src/Hist/Threads.antt =====
-- The producer and the consumer of lwatcher as interleaved critical sections: the consumer gets an
-- entry, sends it with no lock held, and removes it later; the producer may put at any time.
use jit_dt.Common.{
  ℕ, ◌+◌, ◌-◌, ◌≤◌, ◌<◌, ◌≡◌, refl, sym, ap, ◌∙◌, Bool, true, false, List, [], ◌∷◌, ◌++◌, subst,
  length, drop, pos, pos_part, arith, le→ltb,
}
use jit_dt.Common.Outcome.{ret}
use jit_dt.Hist.{
  Bytes, HistData, Hist, Effect, entry, waiting, fname_max, histput, histget, histremove, histwait,
  histwait_wake, histinit, max_history, keep_file_count, empty_data,
}
use jit_dt.Hist.Valid.{IsValid, pending, newest, next_slot, histinit-IsValid}
use jit_dt.Hist.Window.{length-window}
use jit_dt.Hist.Put.Newer.{put_newer_lem, new_entry, kept}
use jit_dt.Hist.Take.{append_count, histput_keeps, histremove_keeps, histremove_lem}

-- The history and whether the consumer holds an entry that it has not removed.
pub data Step : Hist × Bool → Hist × Bool → Type 0 where
  puts :
      {h r : Hist} {es : List Effect} {busy : Bool} (dt tent : ℕ) (path : Bytes)
      → tent < fname_max
      → histput true h path dt (pos tent) ≡ ret (r, es)
      → Step (h, busy) (r, busy)
  gets : {h : Hist} (i : ℕ) → histget h ≡ entry i → Step (h, false) (h, true)
  blocks : {h r : Hist} → histget h ≡ waiting r → Step (h, false) (r, false)
  wakes : {h : Hist} → Step (h, false) (record h { waithist = h.waithist - 1 }, false)
  idles : {h : Hist} {busy : Bool} → Step (h, busy) (histwait h, false)
  resumes : {h : Hist} → Step (h, false) (histwait_wake h, false)
  removes : {h r : Hist} {es : List Effect} → histremove h ≡ ret (r, es) → Step (h, true) (r, false)

pub data Reach (s : Hist × Bool) : Hist × Bool → Type 0 where
  here : Reach s s
  next : {t u : Hist × Bool} → Reach s t → Step t u → Reach s u

-- A consumer that holds an entry has one to remove.
pub record IsSafe (s : Hist × Bool) : Type 0 where
  pub valid : IsValid s.0
  pub held : s.1 ≡ true → 0 < pos_part s.0.numhist

pub with_waits :
    {h : Hist} (a b : ℕ) → IsValid h → IsValid (record h { waithist = a; waithist2 = b })
with_waits a b v = record {
  sized = record {
    size = v.sized.size;
    names = v.sized.names;
    nhist_lo = v.sized.nhist_lo;
    nhist_hi = v.sized.nhist_hi;
    prod_in = v.sized.prod_in;
    cons_in = v.sized.cons_in;
  };
  counted = v.counted;
  room = v.room;
  linked = v.linked;
  rising = v.rising;
  latest = v.latest;
}

pub gets_count : (h : Hist) (i : ℕ) → histget h ≡ entry i → 0 < pos_part h.numhist
unfolding histget
gets_count h i e = ground arith

pub blocks_lem : (h r : Hist) → histget h ≡ waiting r → r ≡ record h { waithist = h.waithist + 1 }
unfolding histget
blocks_lem h r e = ground arith

pub blocks-IsValid : {h r : Hist} → histget h ≡ waiting r → IsValid h → IsValid r
blocks-IsValid {h} {r} e v =
    subst IsValid (sym (blocks_lem h r e)) (with_waits (h.waithist + 1) h.waithist2 v)

Step-IsSafe : {s t : Hist × Bool} → Step s t → IsSafe s → IsSafe t
Step-IsSafe (puts dt tent path ht e) v =
    let (w, c) = histput_keeps dt tent path v.valid ht e in
    record { valid = w; held = λ b. c (v.held b) }
Step-IsSafe (gets {h} i e) v = record { valid = v.valid; held = λ _. gets_count h i e }
Step-IsSafe (blocks {h} {r} e) v = record { valid = blocks-IsValid e v.valid; held = λ b. cc }
Step-IsSafe (wakes {h}) v = record {
  valid = with_waits (h.waithist - 1) h.waithist2 v.valid;
  held = λ b. cc;
}
Step-IsSafe (idles {h}) v = record {
  valid = unfold histwait in with_waits h.waithist (h.waithist2 + 1) v.valid;
  held = λ b. cc;
}
Step-IsSafe (resumes {h}) v = record {
  valid = unfold histwait_wake in with_waits h.waithist (h.waithist2 - 1) v.valid;
  held = λ b. cc;
}
Step-IsSafe (removes e) v = record {
  valid = histremove_keeps v.valid (v.held refl) e;
  held = λ b. cc;
}

-- After any interleaving of producer and consumer critical sections from histinit with at most 20
-- entries, where types are below 3 and the consumer removes only after a histget, the history is
-- well formed (indices in their arrays, the counter equal to the distance of the pointers, pending
-- dates rising), and while the consumer holds an entry the counter is positive.
pub Reach-IsSafe :
    (nh : ℕ) {t : Hist × Bool} → nh ≤ max_history → Reach (histinit nh, false) t → IsSafe t
Reach-IsSafe nh hn here = record { valid = histinit-IsValid nh hn; held = λ b. cc }
Reach-IsSafe nh hn (next r st) = Step-IsSafe st (Reach-IsSafe nh hn r)

drop-append :
    (xs : List HistData) (e : HistData)
    → 2 ≤ length xs
    → drop 1 (drop 1 xs ++ (e ∷ [])) ≡ drop 2 xs ++ (e ∷ [])
drop-append [] e h = absurd (omega arith)
drop-append (x ∷ []) e h = absurd (omega arith)
drop-append (x ∷ y ∷ xs) e h = refl

-- For a well-formed history that is full, a newer file of a type below 3 that is put between the
-- consumer's histget and its histremove makes that histremove drop the second pending entry as
-- well, which nobody has read: what is pending afterwards is the queue without its first two
-- entries, and the new entry.
pub full_race :
    {h : Hist} (dt tent : ℕ) (path : Bytes)
    → IsValid h
    → tent < fname_max
    → newest h < dt
    → h.nhist ≤ pos_part h.numhist + keep_file_count
    → (r q : Hist) × (es fs : List Effect) × (histput true h path dt (pos tent) ≡ ret (r, es))
      × (histremove r ≡ ret (q, fs))
      × (pending q ≡ drop 2 (pending h) ++ (new_entry h (next_slot h) dt tent path ∷ []))
full_race {h} dt tent path v ht new full =
    let (r, e, w, a) = put_newer_lem dt tent path v ht new in
    let last = new_entry h (next_slot h) dt tent path in
    let (q, f, x, b) = histremove_lem w (append_count r (kept h) last a) in
    let two : 2 ≤ length (pending h) =
      omega (arith, length-window empty_data h.nhist h.history h.conshistp (pos_part h.numhist)) in
    (r, q, _, _, e, f, b ∙ ap (drop 1) a ∙ rw (le→ltb _ _ full) (drop-append (pending h) last two))
