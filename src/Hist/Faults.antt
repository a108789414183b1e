-- ===== src/Hist/Faults.antt =====
-- Calls that the code does not guard against: a type index past the array of names, a removal with
-- nothing pending, and a history size past the array.
use jit_dt.Common.{
  ℕ, zero, suc, ◌+◌, ◌-◌, ◌≤◌, ◌<◌, ◌≡◌, inl, inr, refl, ◌∙◌, true, false, List, [], ◌∷◌, some,
  length, pos, negsuc, pos_part, inc, exceeds, arith, lt→ltb, ne→==, ==_refl, Bool-cases,
}
use jit_dt.Common.Outcome.{ret, fault, store, load-eq-get_or}
use jit_dt.Hist.{
  Bytes, Hist, Effect, waiting, fname_max, histput, put_locked, put_newer, put_same, register,
  histget, histremove, keep_file_count, unlinks, empty_data,
}
use jit_dt.Hist.Valid.{
  IsSized, IsValid, newest, entry_at, removed_slot, after_remove, after_remove-IsSized,
  after_date-IsSized, HasNames-entry_at, histremove_locked-IsSized, set_date-IsSized,
}
use jit_dt.Hist.Put.Newer.{
  put_newer_short, histput-put_newer, advanced, advanced-IsSized, filled, newest-filled,
}
use native.Mathlib.Decide.{ℕ_discrete}
use jit_dt.Hist.Take.{date-after_remove}

store-fault {ℓ} : {A : Type ℓ} (xs : List A) (i : ℕ) (v : A) → length xs ≤ i → store xs i v ≡ fault
unfolding store
store-fault [] i v h = refl
store-fault (x ∷ xs) zero v h = absurd (omega arith)
store-fault (x ∷ xs) (suc i) v h = rw (store-fault xs i v (omega arith))

register-fault :
    {h : Hist} (i : ℕ) (path : Bytes)
    → IsSized h
    → i < h.nhist
    → register h i fname_max path ≡ fault
unfolding register
register-fault {h} i path s hi = rw (
  load-eq-get_or h.history i empty_data (omega arith),
  store-fault (entry_at h i).fname fname_max (some path) (omega (arith, HasNames-entry_at i s hi)),
)

put_newer_fault :
    {h : Hist} (dt : ℕ) (path : Bytes)
    → IsSized h
    → put_newer h (newest h) dt fname_max path ≡ fault
unfolding put_newer
put_newer_fault {h} dt path v =
    let g = advanced h in
    let s = advanced-IsSized v in
    let q = after_remove g in
    let t = after_remove-IsSized s in
    elim (Bool-cases (exceeds (inc h.numhist) (h.nhist - keep_file_count))) [
      | inl long ↦ rw (
        long,
        histremove_locked-IsSized s,
        set_date-IsSized {h = q} q.prodhistp dt t t.prod_in,
        register-fault q.prodhistp path (after_date-IsSized q.prodhistp dt t t.prod_in) t.prod_in,
      )
      | inr short ↦ rw (
        short,
        set_date-IsSized {h = g} g.prodhistp dt s s.prod_in,
        register-fault g.prodhistp path (after_date-IsSized g.prodhistp dt s s.prod_in) s.prod_in,
      )
    ]

put_same_fault : {h : Hist} (path : Bytes) → IsSized h → put_same h fname_max path ≡ fault
unfolding put_same
put_same_fault {h} path s = rw (register-fault h.prodhistp path s s.prod_in)

-- For a history whose indices lie in their arrays, histput with type 3 and a date not older than
-- the producer's entry accesses memory outside the array of names.
pub histput_type_fault :
    {h : Hist} (dt : ℕ) (path : Bytes)
    → IsSized h
    → newest h ≤ dt
    → histput true h path dt (pos fname_max) ≡ fault
unfolding histput put_locked
histput_type_fault {h} dt path s hd =
    rw (load-eq-get_or h.history h.prodhistp empty_data (omega arith))
      (elim (ℕ_discrete dt (newest h)) [
        | yes e ↦ rw (e, ==_refl (newest h)) (put_same_fault path s)
        | no e ↦
            rw (ne→== dt (newest h) e, lt→ltb (newest h) dt (omega arith))
              (put_newer_fault dt path s)
      ])

histremove-IsSized :
    {h : Hist}
    → IsSized h
    → histremove h ≡ ret (after_remove h, unlinks (entry_at h (removed_slot h)).fname)
unfolding histremove
histremove-IsSized s = histremove_locked-IsSized s

histget_none :
    (h : Hist)
    → exceeds h.numhist 0 ≡ false
    → histget h ≡ waiting (record h { waithist = h.waithist + 1 })
unfolding histget
histget_none h e = rw e

-- For a well-formed history with nothing pending, histremove makes the counter -1; a newer file of
-- a type below 3 is then stored in the history, and histget still waits.
pub remove_empty_hides :
    {h : Hist} (dt tent : ℕ) (path : Bytes)
    → IsValid h
    → pos_part h.numhist ≡ 0
    → tent < fname_max
    → newest h < dt
    → (r q w : Hist) × (es fs : List Effect) × (histremove h ≡ ret (r, fs))
      × (r.numhist ≡ negsuc 0)
      × (histput true r path dt (pos tent) ≡ ret (q, es))
      × (newest q ≡ dt)
      × (histget q ≡ waiting w)
remove_empty_hides {h} dt tent path v none_pending ht new =
    let r = after_remove h in
    let s = after_remove-IsSized v.sized in
    let d = date-after_remove h h.prodhistp v.sized in
    let q = filled (advanced r) dt tent path in
    (
      r,
      q,
      _,
      _,
      _,
      histremove-IsSized v.sized,
      ground (arith, v.counted),
      histput-put_newer dt tent path s ht (rw d new)
          ∙ put_newer_short dt tent path s ht (ground (arith, v.counted)),
      newest-filled dt tent path (advanced-IsSized s),
      histget_none q (ground (arith, v.counted)),
    )
