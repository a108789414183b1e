-- ===== src/Hist/Put/Newer.antt =====
-- A file of a date newer than all before: the branch of `histput` that opens an entry.
use jit_dt.Common.{
  ℕ, suc, ◌+◌, ◌-◌, ◌%◌, ◌≤◌, ◌<◌, ◌≡◌, sym, ap, ◌∙◌, true, List, [], ◌∷◌, ◌++◌, map, some, set,
  drop, get_or-set_self, length-set, ltb, All, lt→ltb, le→ltb, if◌then◌else◌, exceeds, false, pos,
  pos_part, inc, arith,
}
use jit_dt.Common.Outcome.{ret, load-eq-get_or}
use jit_dt.Hist.{
  Bytes, HistData, Hist, Effect, empty_data, fname_max, keep_file_count, update_pointer, put_newer,
  put_locked, histput, signals, unlinks,
}
use jit_dt.Hist.Put.Rising.{Ascending-concat, All-le-concat, Ascending-tail, All-tail, map-tail}
use mathlib.Core.Path.{ap₂}
use native.Mathlib.Decide.{dec_lt}
use mathlib.Core.List.{map-append}
use jit_dt.Hist.Removed.{tail-window, window-after_remove, removed_slot-ne, entry_at-after_remove}
use jit_dt.Hist.Window.{window, window-concat, window-set_far, step_around, around_step}
use jit_dt.Hist.Valid.{
  IsSized, IsValid, entry_at, newest, next_slot, pending, removed_slot, after_remove,
  after_register, after_date, histremove_locked-IsSized, register-IsSized, set_date-IsSized,
  after_date-IsSized, after_remove-IsSized, after_register-IsSized, Ascending,
}

-- the state in which `put_newer` asks whether the queue is too long
abbrev pub advanced : Hist → Hist
advanced h = record h { prodhistp = next_slot h; numhist = inc h.numhist }

abbrev pub filled : Hist → ℕ → ℕ → Bytes → Hist
filled h dt tent path = after_register (after_date h h.prodhistp dt) h.prodhistp tent path

abbrev pub new_entry : Hist → ℕ → ℕ → ℕ → Bytes → HistData
new_entry h i dt tent path = record { date = dt; fname = set (entry_at h i).fname tent (some path) }

entry_at-filled :
    {h : Hist} (dt tent : ℕ) (path : Bytes)
    → IsSized h
    → entry_at (filled h dt tent path) h.prodhistp ≡ new_entry h h.prodhistp dt tent path
entry_at-filled {h} dt tent path s =
    let i = h.prodhistp in
    let a = record (entry_at h i) { date = dt } in
    let b = new_entry h i dt tent path in
    rw (get_or-set_self h.history i a empty_data (omega arith))
      (get_or-set_self (set h.history i a) i b empty_data (omega (arith, length-set h.history i a)))

window-filled :
    {h : Hist} (n dt tent : ℕ) (path : Bytes)
    → IsSized h
    → n < h.nhist
    → h.prodhistp ≡ (h.conshistp + n) % h.nhist
    → window empty_data h.nhist (filled h dt tent path).history h.conshistp (suc n)
      ≡ window empty_data h.nhist h.history h.conshistp n
        ++ (new_entry h h.prodhistp dt tent path ∷ [])
window-filled {h} n dt tent path s hn e =
    let i = h.prodhistp in
    let a = record (entry_at h i) { date = dt } in
    let b = record (entry_at (after_date h i dt) i) {
      fname = set (entry_at (after_date h i dt) i).fname tent (some path);
    } in
    window-concat empty_data h.nhist (filled h dt tent path).history h.conshistp n i s.cons_in e
    ∙ rw (entry_at-filled dt tent path s) (
        ap (λ w. w ++ (new_entry h i dt tent path ∷ []))
          (window-set_far empty_data h.nhist (set h.history i a) h.conshistp n n i b s.cons_in
              (omega arith) hn e
            ∙ window-set_far empty_data h.nhist h.history h.conshistp n n i a s.cons_in
                (omega arith) hn e))

next_slot-lt : {h : Hist} → IsSized h → next_slot h < h.nhist
next_slot-lt s = ground arith

pub advanced-IsSized : {h : Hist} → IsSized h → IsSized (advanced h)
advanced-IsSized {h} s = record {
  size = s.size;
  names = s.names;
  nhist_lo = s.nhist_lo;
  nhist_hi = s.nhist_hi;
  prod_in = next_slot-lt s;
  cons_in = s.cons_in;
}

pub put_newer_short :
    {h : Hist} (dt tent : ℕ) (path : Bytes)
    → IsSized h
    → tent < fname_max
    → exceeds (inc h.numhist) (h.nhist - keep_file_count) ≡ false
    → let r = filled (advanced h) dt tent path in
      put_newer h (newest h) dt tent path ≡ ret (r, signals r)
unfolding put_newer
put_newer_short {h} dt tent path v ht hr =
    let g = advanced h in
    let s = advanced-IsSized v in
    rw (
      hr,
      set_date-IsSized {h = g} g.prodhistp dt s s.prod_in,
      register-IsSized {h = after_date g g.prodhistp dt} g.prodhistp tent path
          (after_date-IsSized g.prodhistp dt s s.prod_in) s.prod_in ht,
    )

put_newer_room :
    {h : Hist} (dt tent : ℕ) (path : Bytes)
    → IsValid h
    → tent < fname_max
    → pos_part h.numhist + keep_file_count < h.nhist
    → let r = filled (advanced h) dt tent path in
      put_newer h (newest h) dt tent path ≡ ret (r, signals r)
put_newer_room {h} dt tent path v ht hr =
    put_newer_short dt tent path v.sized ht (ground (arith, v.counted))

put_newer_full :
    {h : Hist} (dt tent : ℕ) (path : Bytes)
    → IsValid h
    → tent < fname_max
    → h.nhist ≤ pos_part h.numhist + keep_file_count
    → let g = advanced h in
      let r = filled (after_remove g) dt tent path in
      put_newer h (newest h) dt tent path
      ≡ ret (r, unlinks (entry_at h (removed_slot h)).fname ++ signals r)
unfolding put_newer
put_newer_full {h} dt tent path v ht hr =
    let g = advanced h in
    let s = advanced-IsSized v.sized in
    let q = after_remove g in
    let t = after_remove-IsSized s in
    ground (
      arith,
      v.counted,
      histremove_locked-IsSized s,
      set_date-IsSized {h = q} q.prodhistp dt t t.prod_in,
      register-IsSized {h = after_date q q.prodhistp dt} q.prodhistp tent path
          (after_date-IsSized q.prodhistp dt t t.prod_in) t.prod_in ht,
    )

pub newest-filled :
    {h : Hist} (dt tent : ℕ) (path : Bytes) → IsSized h → newest (filled h dt tent path) ≡ dt
newest-filled dt tent path s = ap (λ e. e.date) (entry_at-filled dt tent path s)

next-filled :
    {h : Hist} (m dt tent : ℕ) (path : Bytes)
    → IsSized h
    → h.prodhistp ≡ (h.conshistp + m) % h.nhist
    → 0 < dt
    → next_slot (filled h dt tent path) ≡ (h.conshistp + suc m) % h.nhist
next-filled {h} m dt tent path s link pos_dt =
    ground (arith, newest-filled dt tent path s, around_step h.conshistp m h.nhist)

-- Filling the slot behind `m` pending entries with a newer date keeps the invariant, and makes
-- that entry the last.
filled-IsValid :
    {g : Hist} (m a dt tent : ℕ) (path : Bytes)
    → let w = window empty_data g.nhist g.history g.conshistp m in
      IsSized g
      → g.numhist ≡ pos (suc m)
      → m + 4 ≤ g.nhist
      → g.prodhistp ≡ (g.conshistp + m) % g.nhist
      → Ascending (map (λ e. e.date) w)
      → All (λ d. d ≤ a) (map (λ e. e.date) w)
      → a < dt
      → let r = filled g dt tent path in
        IsValid r × (pending r ≡ w ++ (new_entry g g.prodhistp dt tent path ∷ []))
filled-IsValid {g} m a dt tent path s c hm link asc old new = (
  record {
    sized =
        after_register-IsSized g.prodhistp tent path (after_date-IsSized g.prodhistp dt s s.prod_in)
          s.prod_in;
    counted = rw c;
    room = rw c (omega arith);
    linked = rw c (next-filled {h = g} m dt tent path s link (omega arith));
    rising = rw whole (rw map-append (Ascending-concat (map (λ e. e.date) w) a dt asc old new));
    latest = rw whole (
        rw map-append (
          rw (newest-filled {h = g} dt tent path s)
            (All-le-concat (map (λ e. e.date) w) a dt old new)));
  },
  whole,
)
  where
    w : List HistData
    w = window empty_data g.nhist g.history g.conshistp m

    whole : pending (filled g dt tent path) ≡ w ++ (new_entry g g.prodhistp dt tent path ∷ [])
    whole = rw c (window-filled m dt tent path s (omega arith) link)

-- the pending entries that are kept when one more comes: the oldest goes when the array is full
abbrev pub kept : Hist → List HistData
kept h =
    if ltb (pos_part h.numhist + keep_file_count) h.nhist then pending h else drop 1 (pending h)

-- the files that go with it
abbrev pub evicted : Hist → List Effect
evicted h =
    if ltb (pos_part h.numhist + keep_file_count) h.nhist
    then []
    else unlinks (entry_at h (removed_slot h)).fname

record IsAppended (h r : Hist) (dt tent : ℕ) (path : Bytes) : Type 0 where
  valid : IsValid r
  queue : pending r ≡ kept h ++ (new_entry h (next_slot h) dt tent path ∷ [])

room-IsAppended :
    {h : Hist} (dt tent : ℕ) (path : Bytes)
    → IsValid h
    → newest h < dt
    → pos_part h.numhist + keep_file_count < h.nhist
    → IsAppended h (filled (advanced h) dt tent path) dt tent path
room-IsAppended {h} dt tent path v new hr =
    let n = pos_part h.numhist in
    let (a, b) =
      filled-IsValid {g = advanced h} n (newest h) dt tent path (advanced-IsSized v.sized)
        (ground (arith, v.counted)) (omega arith) v.linked v.rising v.latest new in
    record { valid = a; queue = rw (lt→ltb _ _ hr) b }

full-IsAppended :
    {h : Hist} (dt tent : ℕ) (path : Bytes)
    → IsValid h
    → newest h < dt
    → h.nhist ≤ pos_part h.numhist + keep_file_count
    → IsAppended h (filled (after_remove (advanced h)) dt tent path) dt tent path
full-IsAppended {h} dt tent path v new hr =
    let n = pos_part h.numhist in
    let g = advanced h in
    let s = advanced-IsSized v.sized in
    let link =
      v.linked
      ∙ ap (λ t. (h.conshistp + t) % h.nhist) (omega arith)
      ∙ sym (step_around h.conshistp (n - 1) h.nhist) in
    let same : window empty_data h.nhist (after_remove g).history
          (update_pointer h.nhist h.conshistp) (n - 1)
        ≡ drop 1 (pending h) =
      window-after_remove {h = g} (n - 1) s (omega arith)
      ∙ sym (tail-window h.history h.nhist h.conshistp n (omega arith)) in
    let dates-same = ap (map (λ e. e.date)) same ∙ map-tail (λ e. e.date) (pending h) in
    let (a, b) =
      filled-IsValid {g = after_remove g} (n - 1) (newest h) dt tent path (after_remove-IsSized s)
        (ground (arith, v.counted)) (omega arith) link (rw dates-same (Ascending-tail _ v.rising))
        (rw dates-same (All-tail (λ d. d ≤ newest h) _ v.latest)) new in
    record {
      valid = a;
      queue = rw (le→ltb _ _ hr) (
          b
          ∙ ap₂ (λ x y. x ++ (y ∷ [])) same
              (ap (λ e. record { date = dt; fname = set e.fname tent (some path) })
                (entry_at-after_remove g (next_slot h)
                  (removed_slot-ne {h = g} (n - 1) (next_slot h) s (omega arith) link))));
    }

pub histput-put_newer :
    {h : Hist} (dt tent : ℕ) (path : Bytes)
    → IsSized h
    → tent < fname_max
    → newest h < dt
    → histput true h path dt (pos tent) ≡ put_newer h (newest h) dt tent path
unfolding histput put_locked
histput-put_newer {h} dt tent path s ht new =
    ground (arith, load-eq-get_or h.history h.prodhistp empty_data)

-- For a well-formed history, a type below 3 and a date newer than that of the producer's entry,
-- histput returns. The pending entries are those before it, less the oldest when the array has no
-- room for one more, with the new entry at the end; the files unlinked are those of the entry
-- cleaned in that case, the waiting threads are signalled, and the history stays well formed.
pub put_newer_lem :
    {h : Hist} (dt tent : ℕ) (path : Bytes)
    → IsValid h
    → tent < fname_max
    → newest h < dt
    → (r : Hist) × (histput true h path dt (pos tent) ≡ ret (r, evicted h ++ signals h))
      × IsValid r
      × (pending r ≡ kept h ++ (new_entry h (next_slot h) dt tent path ∷ []))
put_newer_lem {h} dt tent path v ht new =
    rw (histput-put_newer dt tent path v.sized ht new)
      (elim (dec_lt (pos_part h.numhist + keep_file_count) h.nhist) [
        | yes p ↦
            let a = room-IsAppended dt tent path v new p in
            (_, rw (lt→ltb _ _ p) (put_newer_room dt tent path v ht p), a.valid, a.queue)
        | no p ↦
            let a = full-IsAppended dt tent path v new (omega arith) in
            let e = le→ltb (pos_part h.numhist + keep_file_count) h.nhist (omega arith) in
            (_, rw e (put_newer_full dt tent path v ht (omega arith)), a.valid, a.queue)
      ])
