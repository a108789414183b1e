-- ===== src/Hist/Put/Late.antt =====
-- A file of a date that has an entry, or of an old date: the other branches of `histput`.
use jit_dt.Common.{
  ℕ, zero, suc, ◌+◌, ◌-◌, ◌<◌, ◌≡◌, ◌≢◌, ◌⊎◌, inl, inr, refl, ap, ◌∙◌, true, [], ◌∷◌, Option, none,
  some, set, get_or-set_self, get_or-set_ne, leb, ◌==◌, if◌then◌else◌, pos, pos_part, arith,
  Bool-cases, ne→==, le→ltb,
}
use native.Mathlib.Decide.{ℕ_discrete}
use jit_dt.Common.Outcome.{ret, load-eq-get_or}
use jit_dt.Hist.{
  Bytes, Hist, unlink, empty_data, fname_max, rewind_pointer, put_same, put_late, find_back,
  put_locked, histput, signals,
}
use jit_dt.Hist.Window.{map-window}
use jit_dt.Hist.Valid.{
  IsSized, IsValid, entry_at, newest, dates, after_register, register-IsSized,
  after_register-IsSized,
}

date_at :
    (h : Hist) (i tent : ℕ) (path : Bytes) (j : ℕ)
    → IsSized h
    → i < h.nhist
    → (entry_at (after_register h i tent path) j).date ≡ (entry_at h j).date
date_at h i tent path j s hi =
    let e = entry_at h i in
    let v = record e { fname = set e.fname tent (some path) } in
    elim (ℕ_discrete i j) [
      | yes p ↦ rw (← p) (ap (λ x. x.date) (get_or-set_self h.history i v empty_data (omega arith)))
      | no p ↦ ap (λ x. x.date) (get_or-set_ne h.history i j v empty_data p)
    ]

dates-after_register :
    (h : Hist) (i tent : ℕ) (path : Bytes)
    → IsSized h
    → i < h.nhist
    → dates (after_register h i tent path) ≡ dates h
dates-after_register h i tent path s hi =
    map-window empty_data h.nhist (λ e. e.date) _ _ (λ j. date_at h i tent path j s hi) h.conshistp
      (pos_part h.numhist)

-- A name that goes into any entry of the ring leaves dates and order alone.
pub after_register-IsValid :
    {h : Hist} (i tent : ℕ) (path : Bytes)
    → IsValid h
    → i < h.nhist
    → IsValid (after_register h i tent path)
after_register-IsValid {h} i tent path v hi =
    let d = date_at h i tent path h.prodhistp v.sized hi in
    let q = dates-after_register h i tent path v.sized hi in
    record {
      sized = after_register-IsSized i tent path v.sized hi;
      counted = v.counted;
      room = v.room;
      linked = rw d v.linked;
      rising = rw q v.rising;
      latest = rw (q, d) v.latest;
    }

-- how many steps back around the ring lead from `p` to `i`
abbrev steps_back : ℕ → ℕ → ℕ → ℕ
steps_back n p i = if leb i p then p - i else p + n - i

-- What the search of a date promises: an entry with it, or that no entry within reach has it.
abbrev FindsBack : Hist → ℕ → ℕ → ℕ → Option ℕ → Type 0
FindsBack h dt k p (some i) = (i < h.nhist) × ((entry_at h i).date ≡ dt)
FindsBack h dt k p none =
    (i : ℕ) → i < h.nhist → steps_back h.nhist p i < k → (entry_at h i).date ≢ dt

FindsBack-suc :
    (h : Hist) (dt k p : ℕ) (o : Option ℕ)
    → p < h.nhist
    → (entry_at h p).date ≢ dt
    → FindsBack h dt k (rewind_pointer h.nhist p) o
    → FindsBack h dt (suc k) p o
FindsBack-suc h dt k p (some i) hp ne f = f
FindsBack-suc h dt k p none hp ne f =
    λ i hi lt. elim (ℕ_discrete i p) [ yes e ↦ rw e ne | no e ↦ f i hi (ground arith) ]

find_back-FindsBack :
    (h : Hist) (dt k p : ℕ)
    → IsSized h
    → p < h.nhist
    → (o : Option ℕ) × (find_back h dt k p ≡ ret o) × FindsBack h dt k p o
unfolding find_back
find_back-FindsBack h dt zero p s hp = (none, refl, λ i hi lt. absurd (omega arith))
find_back-FindsBack h dt (suc k) p s hp =
    rw (load-eq-get_or h.history p empty_data (omega arith))
      (elim (Bool-cases ((entry_at h p).date == dt)) [
        | inl e ↦ (some p, rw e, (hp, ground arith))
        | inr e ↦
            (let (o, found, f) =
                find_back-FindsBack h dt k (rewind_pointer h.nhist p) s (ground arith) in
              (o, rw e found, FindsBack-suc h dt k p o hp (ground arith) f))
      ])

put_locked-put_same :
    {h : Hist} (dt tent : ℕ) (path : Bytes)
    → IsSized h
    → dt ≡ newest h
    → put_locked h dt tent path ≡ put_same h tent path
unfolding put_locked
put_locked-put_same {h} dt tent path s e =
    ground (arith, load-eq-get_or h.history h.prodhistp empty_data)

put_locked-put_late :
    {h : Hist} (dt tent : ℕ) (path : Bytes)
    → IsSized h
    → dt < newest h
    → put_locked h dt tent path ≡ put_late h dt tent path
unfolding put_locked
put_locked-put_late {h} dt tent path s e = rw (
  load-eq-get_or h.history h.prodhistp empty_data (omega arith),
  ne→== dt (newest h) (omega arith),
  le→ltb (newest h) dt (omega arith),
)

histput-put_locked :
    (h : Hist) (dt tent : ℕ) (path : Bytes)
    → tent < fname_max
    → histput true h path dt (pos tent) ≡ put_locked h dt tent path
unfolding histput
histput-put_locked h dt tent path ht = ground arith

-- For a well-formed history and a type below 3, a file of the date of the producer's entry is
-- stored under its type in that entry and nothing else changes; the waiting threads are signalled
-- and the history stays well formed.
pub put_same_lem :
    {h : Hist} (tent : ℕ) (path : Bytes)
    → IsValid h
    → tent < fname_max
    → let r = after_register h h.prodhistp tent path in
      (histput true h path (newest h) (pos tent) ≡ ret (r, signals h)) × IsValid r
unfolding put_same
put_same_lem {h} tent path v ht = (
  histput-put_locked h (newest h) tent path ht
      ∙ put_locked-put_same (newest h) tent path v.sized refl
      ∙ rw (register-IsSized h.prodhistp tent path v.sized v.sized.prod_in ht),
  after_register-IsValid h.prodhistp tent path v v.sized.prod_in,
)

put_late_cases :
    {h : Hist} (dt tent : ℕ) (path : Bytes)
    → IsValid h
    → tent < fname_max
    → dt < newest h
    → (o : Option ℕ) → find_back h dt (h.nhist - 1) (rewind_pointer h.nhist h.prodhistp) ≡ ret o
    → FindsBack h dt (h.nhist - 1) (rewind_pointer h.nhist h.prodhistp) o
    → ((i : ℕ) × (i < h.nhist)
        × ((entry_at h i).date ≡ dt)
        × (put_late h dt tent path ≡ ret (after_register h i tent path, signals h))
        × IsValid (after_register h i tent path))
      ⊎ (((i : ℕ) → i < h.nhist → (entry_at h i).date ≢ dt)
          × (put_late h dt tent path ≡ ret (h, unlink path ∷ [])))
unfolding put_late
put_late_cases {h} dt tent path v ht lt (some i) found f = inl (
  i,
  f.0,
  f.1,
  rw (found, register-IsSized i tent path v.sized f.0 ht),
  after_register-IsValid i tent path v f.0,
)
put_late_cases {h} dt tent path v ht lt none found f = inr (nowhere, rw found)
  where
    nowhere : (i : ℕ) → i < h.nhist → (entry_at h i).date ≢ dt
    nowhere i hi = elim (ℕ_discrete i h.prodhistp) [
      | yes e ↦ rw e (omega arith)
      | no e ↦ f i hi (ground arith)
    ]

-- For a well-formed history, a type below 3 and a date older than the producer's, either an entry
-- of the ring has that date, and histput stores the name in one such entry, changes nothing else,
-- signals the waiting threads and keeps the history well formed; or no entry has it, and histput
-- unlinks the file and leaves the history as it was.
pub put_late_lem :
    {h : Hist} (dt tent : ℕ) (path : Bytes)
    → IsValid h
    → tent < fname_max
    → dt < newest h
    → ((i : ℕ) × (i < h.nhist)
        × ((entry_at h i).date ≡ dt)
        × (histput true h path dt (pos tent) ≡ ret (after_register h i tent path, signals h))
        × IsValid (after_register h i tent path))
      ⊎ (((i : ℕ) → i < h.nhist → (entry_at h i).date ≢ dt)
          × (histput true h path dt (pos tent) ≡ ret (h, unlink path ∷ [])))
put_late_lem {h} dt tent path v ht lt =
    let p = rewind_pointer h.nhist h.prodhistp in
    let (o, found, f) = find_back-FindsBack h dt (h.nhist - 1) p v.sized (ground arith) in
    rw (histput-put_locked h dt tent path ht, put_locked-put_late dt tent path v.sized lt)
      (put_late_cases dt tent path v ht lt o found f)
