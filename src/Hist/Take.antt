-- ===== src/Hist/Take.antt =====
-- The consumer's side, `histget` and `histremove`, and the two threads together.
use jit_dt.Common.{
  ℕ, ◌+◌, ◌-◌, ◌%◌, ◌≤◌, ◌<◌, ◌≡◌, ◌⊎◌, inl, inr, sym, ap, ◌∙◌, true, List, [], ◌∷◌, ◌++◌, map,
  length, length-append, subst, drop, get_or-set_self, pos, pos_part, dec, arith,
}
use native.Mathlib.Decide.{ℕ_discrete, dec_lt}
use jit_dt.Common.Outcome.{ret}
use jit_dt.Hist.{
  Bytes, HistData, Hist, Effect, entry, waiting, fname_max, histput, histget, histremove,
  update_pointer, unlinks, empty_data, cleared,
}
use jit_dt.Hist.Window.{window, length-window}
use jit_dt.Hist.Removed.{tail-window, head-window, window-after_remove, entry_at-after_remove}
use jit_dt.Hist.Put.Rising.{Ascending-tail, All-tail, map-tail}
use jit_dt.Hist.Put.Newer.{put_newer_lem, kept}
use jit_dt.Hist.Put.Late.{put_same_lem, put_late_lem}
use jit_dt.Hist.Valid.{
  IsSized, IsValid, entry_at, newest, pending, dates, removed_slot, after_remove,
  histremove_locked-IsSized, after_remove-IsSized,
}
use jit_dt.Hist.Window.{step_around}

pub append_count :
    (r : Hist) (xs : List HistData) (e : HistData)
    → pending r ≡ xs ++ (e ∷ [])
    → 0 < pos_part r.numhist
append_count r xs e q = omega (
  arith,
  ap length q,
  length-window empty_data r.nhist r.history r.conshistp (pos_part r.numhist),
  length-append xs (e ∷ []),
)

-- For a well-formed history and a type below 3, histput with any date and with memory returns with
-- no access outside an array, keeps the history well formed, and a positive counter stays positive.
pub histput-IsValid :
    {h : Hist} (dt tent : ℕ) (path : Bytes)
    → IsValid h
    → tent < fname_max
    → (r : Hist) × (es : List Effect) × (histput true h path dt (pos tent) ≡ ret (r, es))
      × IsValid r
      × (0 < pos_part h.numhist → 0 < pos_part r.numhist)
histput-IsValid {h} dt tent path v ht = elim (dec_lt (newest h) dt) [
  | yes p ↦
      let (r, e, w, q) = put_newer_lem dt tent path v ht p in
      (r, _, e, w, λ _. append_count r (kept h) _ q)
  | no p ↦ elim (ℕ_discrete dt (newest h)) [
    | yes q ↦ rw q (let (e, w) = put_same_lem tent path v ht in (_, _, e, w, λ x. x))
    | no q ↦ elim (put_late_lem dt tent path v ht (omega arith)) [
      | inl (i, _, _, e, w) ↦ (_, _, e, w, λ x. x)
      | inr (_, e) ↦ (h, _, e, v, λ x. x)
    ]
  ]
]

pub histput_keeps :
    {h r : Hist} {es : List Effect} (dt tent : ℕ) (path : Bytes)
    → IsValid h
    → tent < fname_max
    → histput true h path dt (pos tent) ≡ ret (r, es)
    → IsValid r × (0 < pos_part h.numhist → 0 < pos_part r.numhist)
histput_keeps {h} {r} dt tent path v ht e =
    let (q, fs, f, w, c) = histput-IsValid dt tent path v ht in
    let same : q ≡ r = cc in
    subst (λ t. IsValid t × (0 < pos_part h.numhist → 0 < pos_part t.numhist)) same (w, c)

-- For a well-formed history, histget hands out the index of the oldest pending entry, or counts a
-- waiter and waits, and it waits only when nothing is pending.
pub histget_lem :
    {h : Hist}
    → IsValid h
    → ((histget h ≡ entry h.conshistp) × (pending h ≡ entry_at h h.conshistp ∷ drop 1 (pending h)))
      ⊎ ((histget h ≡ waiting (record h { waithist = h.waithist + 1 })) × (pending h ≡ []))
unfolding histget
histget_lem {h} v = elim (ℕ_discrete (pos_part h.numhist) 0) [
  | yes p ↦ inr (ground (arith, v.counted), ap (window empty_data h.nhist h.history h.conshistp) p)
  | no p ↦ inl (
    ground (arith, v.counted),
    head-window h.history h.nhist h.conshistp (pos_part h.numhist) (omega arith),
  )
]

pub date-after_remove :
    (h : Hist) (j : ℕ) → IsSized h → (entry_at (after_remove h) j).date ≡ (entry_at h j).date
date-after_remove h j s =
    let i = removed_slot h in
    let v = record (entry_at h i) { fname = cleared (entry_at h i).fname } in
    elim (ℕ_discrete i j) [
      | yes p ↦ rw (← p) (ap (λ x. x.date) (get_or-set_self h.history i v empty_data (omega arith)))
      | no p ↦ ap (λ x. x.date) (entry_at-after_remove h j p)
    ]

pending-after_remove :
    {h : Hist} → IsValid h → 0 < pos_part h.numhist → pending (after_remove h) ≡ drop 1 (pending h)
pending-after_remove {h} v lt =
    let n = pos_part h.numhist in
    let c = update_pointer h.nhist h.conshistp in
    let less : pos_part (dec h.numhist) ≡ n - 1 = ground (arith, v.counted) in
    ap (window empty_data h.nhist (after_remove h).history c) less
    ∙ window-after_remove {h = h} (n - 1) v.sized (omega arith)
    ∙ sym (tail-window h.history h.nhist h.conshistp n lt)

after_remove-IsValid : {h : Hist} → IsValid h → 0 < pos_part h.numhist → IsValid (after_remove h)
after_remove-IsValid {h} v lt =
    let n = pos_part h.numhist in
    let d = date-after_remove h h.prodhistp v.sized in
    let q =
      ap (map (λ e. e.date)) (pending-after_remove v lt) ∙ map-tail (λ e. e.date) (pending h) in
    record {
      sized = after_remove-IsSized v.sized;
      counted = ground (arith, v.counted);
      room = ground (arith, v.counted);
      linked = rw d (
          v.linked
          ∙ ap (λ t. (h.conshistp + t) % h.nhist) (ground (arith, v.counted))
          ∙ sym (step_around h.conshistp (pos_part (dec h.numhist)) h.nhist));
      rising = rw q (Ascending-tail (dates h) v.rising);
      latest = rw (q, d) (All-tail (λ t. t ≤ newest h) (dates h) v.latest);
    }

pub histremove_lem :
    {h : Hist}
    → IsValid h
    → 0 < pos_part h.numhist
    → (r : Hist) × (histremove h ≡ ret (r, unlinks (entry_at h (removed_slot h)).fname))
      × IsValid r
      × (pending r ≡ drop 1 (pending h))
unfolding histremove
histremove_lem {h} v lt = (
  after_remove h,
  histremove_locked-IsSized v.sized,
  after_remove-IsValid v lt,
  pending-after_remove v lt,
)

pub histremove_keeps :
    {h r : Hist} {es : List Effect}
    → IsValid h
    → 0 < pos_part h.numhist
    → histremove h ≡ ret (r, es)
    → IsValid r
histremove_keeps {h} {r} v lt e =
    let (q, f, w, _) = histremove_lem v lt in let same : q ≡ r = cc in subst IsValid same w
