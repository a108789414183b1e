-- ===== src/Kwatch/Place.antt =====
-- The history of kwatcher: no access outside its arrays, and what a complete entry is.
use jit_dt.Common.{
  ℕ, zero, suc, ◌+◌, ◌%◌, ◌≤◌, ◌<◌, ◌≡◌, ◌≢◌, refl, sym, ap, Bool, true, false, List, [], ◌∷◌,
  Option, none, some, Bytes, ltb, ◌==◌, if◌then◌else◌, length, get_or, set, arith, All, All-set,
  All-get_or, length-set, get_or-set_self, Bool-cases, Option-cases, ◌⊎◌, inl, inr, ==_iff, ne→==,
}
use jit_dt.Common.Outcome.{Outcome, ret, load, store, load-eq-get_or, store-eq-set}
use jit_dt.Hist.{HistData, fname_max, empty_data}
use native.Mathlib.Decide.{ℕ_discrete}
use jit_dt.Hist.Window.{around}
use jit_dt.Kwatch.{
  max_entries, Kwatch, Made, all_filled, retry, previous, find_late, reuse, vacated, new_entry,
  place,
}

abbrev pub IsRow : HistData → Type 0
IsRow hp = length hp.fname ≡ fname_max

pub record IsValid (s : Kwatch) : Type 0 where
  pub nhist_pos : 1 ≤ s.nhist
  pub nhist_le : s.nhist ≤ max_entries
  pub size : length s.history ≡ max_entries
  pub rows : All IsRow s.history
  pub cur_lt : s.curhistp < s.nhist

abbrev pub entry_at : Kwatch → ℕ → HistData
entry_at s p = get_or s.history p empty_data

-- The entry that `mkhist` hands out has the date and the name of the file, and no name is missing.
abbrev pub IsComplete : ℕ → ℕ → Bytes → ℕ → Kwatch → Option ℕ → Type 0
IsComplete dt entpoint cp entries s none = Unit
IsComplete dt entpoint cp entries s (some p) =
    (p < s.nhist)
    × ((entry_at s p).date ≡ dt)
    × (get_or (entry_at s p).fname entpoint none ≡ some cp)
    × (all_filled entries (entry_at s p).fname ≡ ret true)

pub record Placed (dt entpoint : ℕ) (cp : Bytes) (entries : ℕ) (x : Outcome Made) : Type 0 where
  pub made : Made
  pub returned : x ≡ ret made
  pub valid : IsValid made.state
  pub complete : IsComplete dt entpoint cp entries made.state made.entry

pub all_filled-ret :
    (n : ℕ) (names : List (Option Bytes))
    → n ≤ length names
    → (b : Bool) × (all_filled n names ≡ ret b)
unfolding all_filled
all_filled-ret zero names h = (true, refl)
all_filled-ret (suc n) [] h = absurd (omega arith)
all_filled-ret (suc n) (none ∷ names) h = (false, refl)
all_filled-ret (suc n) (some x ∷ names) h = all_filled-ret n names (omega arith)

pub entry_at-IsRow : (s : Kwatch) (p : ℕ) → IsValid s → p < s.nhist → IsRow (entry_at s p)
entry_at-IsRow s p v h =
    All-get_or IsRow s.history p empty_data v.rows (omega (arith, v.nhist_le, v.size))

pub load_entry :
    (s : Kwatch) (p : ℕ) → IsValid s → p < s.nhist → load s.history p ≡ ret (entry_at s p)
load_entry s p v h = load-eq-get_or s.history p empty_data (omega (arith, v.nhist_le, v.size))

-- A row put into a valid history.
pub updated-IsValid :
    (s : Kwatch) (p : ℕ) (row : HistData)
    → IsValid s
    → p < s.nhist
    → IsRow row
    → IsValid (record s { history = set s.history p row; curhistp = p })
updated-IsValid s p row v h r = record {
  nhist_pos = v.nhist_pos;
  nhist_le = v.nhist_le;
  size = (rw (length-set s.history p row) v.size);
  rows = All-set IsRow s.history p row r v.rows;
  cur_lt = h;
}

store_entry :
    (s : Kwatch) (p : ℕ) (row : HistData)
    → IsValid s
    → p < s.nhist
    → store s.history p row ≡ ret (set s.history p row)
store_entry s p row v h = store-eq-set s.history p row (omega (arith, v.nhist_le, v.size))

entry_updated :
    (s : Kwatch) (p : ℕ) (row : HistData)
    → IsValid s
    → p < s.nhist
    → get_or (set s.history p row) p empty_data ≡ row
entry_updated s p row v h =
    get_or-set_self s.history p row empty_data (omega (arith, v.nhist_le, v.size))

if-IsComplete :
    (s : Kwatch) (p entpoint : ℕ) (cp : Bytes) (entries dt : ℕ) (b : Bool)
    → p < s.nhist
    → (entry_at s p).date ≡ dt
    → get_or (entry_at s p).fname entpoint none ≡ some cp
    → all_filled entries (entry_at s p).fname ≡ ret b
    → IsComplete dt entpoint cp entries s (if b then some p else none)
if-IsComplete s p entpoint cp entries dt true h hd hc hf = (h, hd, hc, hf)
if-IsComplete s p entpoint cp entries dt false h hd hc hf = tt

retry-Placed :
    (s : Kwatch) (p entpoint : ℕ) (cp : Bytes) (entries dt : ℕ)
    → IsValid s
    → p < s.nhist
    → (entry_at s p).date ≡ dt
    → entpoint < entries
    → entries ≤ fname_max
    → Placed dt entpoint cp entries (retry s p entpoint cp entries)
unfolding retry
retry-Placed s p entpoint cp entries dt v hp hd he hn =
    let old = entry_at s p in
    let row = entry_at-IsRow s p v hp in
    let names = set old.fname entpoint (some cp) in
    let new = record old { fname = names } in
    let row' : IsRow new = (rw (length-set old.fname entpoint (some cp)) row) in
    let s' = record s { history = set s.history p new; curhistp = p } in
    let at : entry_at s' p ≡ new = entry_updated s p new v hp in
    let (b, hb) = all_filled-ret entries names (omega (arith, row')) in
    let read = load-eq-get_or old.fname entpoint none (omega (arith, row)) in
    let written = store-eq-set old.fname entpoint (some cp) (omega (arith, row)) in
    let place = get_or-set_self old.fname entpoint (some cp) none (omega (arith, row)) in
    elim (Option-cases (get_or old.fname entpoint none)) [
      | inr (x, e) ↦ record {
        made = record { entry = none; state = record s { curhistp = p }; effects = [] };
        returned = rw (load_entry s p v hp, read, e) refl;
        valid = record {
          nhist_pos = v.nhist_pos;
          nhist_le = v.nhist_le;
          size = v.size;
          rows = v.rows;
          cur_lt = hp;
        };
        complete = tt;
      }
      | inl e ↦ record {
        made = record { entry = if b then some p else none; state = s'; effects = [] };
        returned = rw (load_entry s p v hp, read, e, written, store_entry s p new v hp, hb) refl;
        valid = updated-IsValid s p new v hp row';
        complete =
            if-IsComplete s' p entpoint cp entries dt b hp (rw at hd) (rw at place) (rw at hb);
      }
    ]

previous-lt : (n p : ℕ) → 1 ≤ n → p < n → previous n p < n
unfolding previous
previous-lt n p h l = ground arith

pub find_late-found :
    (s : Kwatch) (dt k p : ℕ)
    → IsValid s
    → p < s.nhist
    → (find_late s dt k p ≡ ret none)
      ⊎ ((q : ℕ) × (find_late s dt k p ≡ ret (some q)) × (q < s.nhist) × ((entry_at s q).date ≡ dt))
unfolding find_late
find_late-found s dt zero p v h = inl refl
find_late-found s dt (suc k) p v h =
    let q = previous s.nhist p in
    let hq = previous-lt s.nhist p v.nhist_pos h in
    elim (Bool-cases (dt == (entry_at s q).date)) [
      | inl e ↦ inr (q, (rw (load_entry s q v hq, e) refl), hq, sym ((==_iff dt _).0 e))
      | inr e ↦ rw (load_entry s q v hq, e) (find_late-found s dt k q v hq)
    ]

reuse-length :
    (outdir : Bytes) (n : ℕ) (names : List (Option Bytes))
    → length (reuse outdir n names).0 ≡ length names
unfolding reuse
reuse-length outdir zero names = refl
reuse-length outdir (suc n) [] = refl
reuse-length outdir (suc n) (none ∷ names) = ap suc (reuse-length outdir n names)
reuse-length outdir (suc n) (some x ∷ names) = ap suc (reuse-length outdir n names)

pub vacated-length :
    (outdir : Bytes) (n : ℕ) (hp : HistData) → length (vacated outdir n hp).0 ≡ length hp.fname
unfolding vacated
vacated-length outdir n hp = elim (Bool-cases (ltb 0 hp.date)) [
  | inl e ↦ rw e (reuse-length outdir n hp.fname)
  | inr e ↦ rw e refl
]

-- The date is written over the entry behind the current one, and the other names are gone.
abbrev pub filled_entry : Bytes → Kwatch → ℕ → ℕ → Bytes → ℕ → ℕ → HistData
filled_entry outdir s dt entpoint cp entries p = record {
  date = dt;
  fname = set (vacated outdir entries (entry_at s p)).0 entpoint (some cp);
}

pub new_entry-fresh :
    (outdir : Bytes) (s : Kwatch) (dt entpoint : ℕ) (cp : Bytes) (entries : ℕ)
    → IsValid s
    → entpoint < fname_max
    → let p = (s.curhistp + 1) % s.nhist in
      dt ≢ (entry_at s p).date
      → new_entry outdir s dt entpoint cp entries
        ≡ ret (record {
          entry = none;
          state = record s {
            history = set s.history p (filled_entry outdir s dt entpoint cp entries p);
            curhistp = p;
          };
          effects = (vacated outdir entries (entry_at s p)).1;
        })
unfolding new_entry
new_entry-fresh outdir s dt entpoint cp entries v he ne =
    let p = (s.curhistp + 1) % s.nhist in
    let hp = around v.cur_lt in
    let names = (vacated outdir entries (entry_at s p)).0 in
    let some_entries : (s.nhist == 0) ≡ false = ne→== s.nhist 0 (omega (arith, v.nhist_pos)) in
    let written =
      store-eq-set names entpoint (some cp)
        (omega (arith, vacated-length outdir entries (entry_at s p), entry_at-IsRow s p v hp)) in
    rw (some_entries, load_entry s p v hp, ne→== dt _ ne, written, store_entry s p _ v hp) refl

pub filled-IsRow :
    (outdir : Bytes) (s : Kwatch) (dt entpoint : ℕ) (cp : Bytes) (entries p : ℕ)
    → IsValid s
    → p < s.nhist
    → IsRow (filled_entry outdir s dt entpoint cp entries p)
filled-IsRow outdir s dt entpoint cp entries p v hp =
    let names = (vacated outdir entries (entry_at s p)).0 in
    rw (length-set names entpoint (some cp), vacated-length outdir entries (entry_at s p))
      (entry_at-IsRow s p v hp)

new_entry-Placed :
    (outdir : Bytes) (s : Kwatch) (dt entpoint : ℕ) (cp : Bytes) (entries : ℕ)
    → IsValid s
    → entpoint < entries
    → entries ≤ fname_max
    → Placed dt entpoint cp entries (new_entry outdir s dt entpoint cp entries)
unfolding new_entry
new_entry-Placed outdir s dt entpoint cp entries v he hn =
    let p = (s.curhistp + 1) % s.nhist in
    let hp = around v.cur_lt in
    let some_entries : (s.nhist == 0) ≡ false = ne→== s.nhist 0 (omega (arith, v.nhist_pos)) in
    elim (ℕ_discrete dt (entry_at s p).date) [
      | yes e ↦
          rw (some_entries, load_entry s p v hp, (==_iff dt _).1 e)
            (retry-Placed s p entpoint cp entries dt v hp (sym e) he hn)
      | no ne ↦ record {
        made = _;
        returned = new_entry-fresh outdir s dt entpoint cp entries v (omega arith) ne;
        valid = updated-IsValid s p _ v hp (filled-IsRow outdir s dt entpoint cp entries p v hp);
        complete = tt;
      }
    ]

pub place-Placed :
    (outdir : Bytes) (s : Kwatch) (dt entpoint : ℕ) (cp : Bytes) (entries : ℕ)
    → IsValid s
    → entpoint < entries
    → entries ≤ fname_max
    → Placed dt entpoint cp entries (place outdir s dt entpoint cp entries)
unfolding place
place-Placed outdir s dt entpoint cp entries v he hn =
    let cur = (entry_at s s.curhistp).date in
    let fresh = new_entry-Placed outdir s dt entpoint cp entries v he hn in
    let here = load_entry s s.curhistp v v.cur_lt in
    elim (ℕ_discrete dt cur) [
      | yes e ↦
          rw (here, (==_iff dt _).1 e)
            (retry-Placed s s.curhistp entpoint cp entries dt v v.cur_lt (sym e) he hn)
      | no ne ↦ elim (Bool-cases (ltb dt cur)) [
        | inr l ↦ rw (here, ne→== dt _ ne, l) fresh
        | inl l ↦ elim (find_late-found s dt 2 s.curhistp v v.cur_lt) [
          | inl f ↦ rw (here, ne→== dt _ ne, l, f) fresh
          | inr (q, f, hq, hd) ↦
              rw (here, ne→== dt _ ne, l, f) (retry-Placed s q entpoint cp entries dt v hq hd he hn)
        ]
      ]
    ]
