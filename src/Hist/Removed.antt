-- ===== src/Hist/Removed.antt =====
-- What `_histremove` does to the pending entries.
use jit_dt.Common.{
  ℕ, zero, suc, ◌+◌, ◌-◌, ◌%◌, ◌≤◌, ◌<◌, ◌≡◌, ◌≢◌, refl, ap, List, ◌∷◌, drop, get_or, get_or-set_ne,
  arith,
}
use jit_dt.Hist.{HistData, Hist, empty_data, update_pointer, keep_file_count, cleared}
use jit_dt.Hist.Window.{window, window-set_far, around, wrap}
use jit_dt.Hist.Valid.{IsSized, entry_at, removed_slot, after_remove}

pub tail-window :
    (buf : List HistData) (len h n : ℕ)
    → 0 < n
    → drop 1 (window empty_data len buf h n) ≡ window empty_data len buf ((h + 1) % len) (n - 1)
tail-window buf len h zero lt = absurd (omega arith)
tail-window buf len h (suc n) lt = ap (window empty_data len buf ((h + 1) % len)) (omega arith)

-- The cleaned entry lies behind every window of `nhist - 3` entries from the new read position.
pub window-after_remove :
    {h : Hist} (k : ℕ)
    → IsSized h
    → k + keep_file_count ≤ h.nhist
    → let c = update_pointer h.nhist h.conshistp in
      window empty_data h.nhist (after_remove h).history c k
      ≡ window empty_data h.nhist h.history c k
window-after_remove {h} k s hk =
    let e = entry_at h (removed_slot h) in
    window-set_far empty_data h.nhist h.history (update_pointer h.nhist h.conshistp) k (h.nhist - 3)
      (removed_slot h) (record e { fname = cleared e.fname }) (around s.cons_in) (omega arith)
      (omega arith) (ap (λ t. t % h.nhist) (omega arith))

-- It is not a slot less than `nhist - 3` entries on from there.
pub removed_slot-ne :
    {h : Hist} (k i : ℕ)
    → IsSized h
    → k + keep_file_count < h.nhist
    → i ≡ (update_pointer h.nhist h.conshistp + k) % h.nhist
    → removed_slot h ≢ i
removed_slot-ne {h} k i s hk e =
    let c = update_pointer h.nhist h.conshistp in
    let same : removed_slot h ≡ (c + (h.nhist - 3)) % h.nhist =
      ap (λ t. t % h.nhist) (omega arith) in
    omega (
      arith,
      wrap c k h.nhist (around s.cons_in) (omega arith),
      wrap c (h.nhist - 3) h.nhist (around s.cons_in) (omega arith),
      around s.cons_in,
    )

pub entry_at-after_remove :
    (h : Hist) (i : ℕ) → removed_slot h ≢ i → entry_at (after_remove h) i ≡ entry_at h i
entry_at-after_remove h i ne =
    let e = entry_at h (removed_slot h) in
    get_or-set_ne h.history (removed_slot h) i (record e { fname = cleared e.fname }) empty_data ne

pub head-window :
    (buf : List HistData) (len h n : ℕ)
    → 0 < n
    → window empty_data len buf h n
      ≡ get_or buf h empty_data ∷ drop 1 (window empty_data len buf h n)
head-window buf len h zero lt = absurd (omega arith)
head-window buf len h (suc n) lt = refl
