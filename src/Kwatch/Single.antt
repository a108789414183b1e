-- ===== src/Kwatch/Single.antt =====
-- kwatcher with a configuration of one type: an entry that the first file opens is never looked at.
use jit_dt.Common.{
  ℕ, ◌+◌, ◌%◌, ◌<◌, ◌≡◌, ◌≢◌, refl, sym, ◌∙◌, false, [], none, some, Bytes, ltb, ◌==◌, get_or,
  arith, All, All-set, All-get_or, Bool-cases, Option-cases, inl, inr, ==_iff, ne→==,
  get_or-set_self,
}
use jit_dt.Common.Outcome.{Outcome, ret, load-eq-get_or}
use native.Mathlib.Decide.{ℕ_discrete}
use jit_dt.Hist.Window.{around}
use jit_dt.Hist.{HistData, empty_data}
use jit_dt.Kwatch.{Kwatch, Made, retry, vacated, new_entry, place}
use jit_dt.Kwatch.Place.{
  IsValid, entry_at, load_entry, entry_at-IsRow, find_late-found, new_entry-fresh, updated-IsValid,
  filled_entry, filled-IsRow, vacated-length,
}

-- An entry with a date has its first name.
abbrev pub IsTaken : HistData → Type 0
IsTaken hp = hp.date ≢ 0 → get_or hp.fname 0 none ≢ none

-- Nothing is handed out, and the history keeps its form.
pub record Kept (x : Outcome Made) : Type 0 where
  pub made : Made
  pub returned : x ≡ ret made
  pub no_entry : made.entry ≡ none
  pub valid : IsValid made.state
  pub taken : All IsTaken made.state.history

retry-Kept :
    (s : Kwatch) (p dt : ℕ) (cp : Bytes)
    → IsValid s
    → All IsTaken s.history
    → p < s.nhist
    → (entry_at s p).date ≡ dt
    → dt ≢ 0
    → Kept (retry s p 0 cp 1)
unfolding retry
retry-Kept s p dt cp v t hp hd ne =
    let old = entry_at s p in
    let taken =
      All-get_or IsTaken s.history p empty_data t (omega (arith, v.nhist_le, v.size))
        (λ e. ne (sym hd ∙ e)) in
    let read = load-eq-get_or old.fname 0 none (omega (arith, entry_at-IsRow s p v hp)) in
    elim (Option-cases (get_or old.fname 0 none)) [
      | inl e ↦ absurd (taken e)
      | inr (x, e) ↦ record {
        made = record { entry = none; state = record s { curhistp = p }; effects = [] };
        returned = rw (load_entry s p v hp, read, e) refl;
        no_entry = refl;
        valid = record {
          nhist_pos = v.nhist_pos;
          nhist_le = v.nhist_le;
          size = v.size;
          rows = v.rows;
          cur_lt = hp;
        };
        taken = t;
      }
    ]

new_entry-Kept :
    (outdir : Bytes) (s : Kwatch) (dt : ℕ) (cp : Bytes)
    → IsValid s
    → All IsTaken s.history
    → dt ≢ 0
    → Kept (new_entry outdir s dt 0 cp 1)
unfolding new_entry
new_entry-Kept outdir s dt cp v t ne =
    let p = (s.curhistp + 1) % s.nhist in
    let hp = around v.cur_lt in
    let some_entries : (s.nhist == 0) ≡ false = ne→== s.nhist 0 (omega (arith, v.nhist_pos)) in
    let names = (vacated outdir 1 (entry_at s p)).0 in
    let first =
      get_or-set_self names 0 (some cp) none
        (omega (arith, vacated-length outdir 1 (entry_at s p), entry_at-IsRow s p v hp)) in
    elim (ℕ_discrete dt (entry_at s p).date) [
      | yes e ↦
          rw (some_entries, load_entry s p v hp, (==_iff dt _).1 e)
            (retry-Kept s p dt cp v t hp (sym e) ne)
      | no far ↦ record {
        made = _;
        returned = new_entry-fresh outdir s dt 0 cp 1 v (omega arith) far;
        no_entry = refl;
        valid =
            updated-IsValid s p (filled_entry outdir s dt 0 cp 1 p) v hp
              (filled-IsRow outdir s dt 0 cp 1 p v hp);
        taken =
            All-set IsTaken s.history p (filled_entry outdir s dt 0 cp 1 p) (λ _ f. cc (first, f))
              t;
      }
    ]

-- For a well-formed history of kwatcher in which every entry with a date has its first name, and a
-- configuration of one type, mkhist never hands an entry out for a file with a date that is not 0,
-- and the history keeps both properties: no file is ever transferred.
pub place-Kept :
    (outdir : Bytes) (s : Kwatch) (dt : ℕ) (cp : Bytes)
    → IsValid s
    → All IsTaken s.history
    → dt ≢ 0
    → Kept (place outdir s dt 0 cp 1)
unfolding place
place-Kept outdir s dt cp v t nz =
    let cur = (entry_at s s.curhistp).date in
    let fresh = new_entry-Kept outdir s dt cp v t nz in
    let here = load_entry s s.curhistp v v.cur_lt in
    elim (ℕ_discrete dt cur) [
      | yes e ↦ rw (here, (==_iff dt _).1 e) (retry-Kept s s.curhistp dt cp v t v.cur_lt (sym e) nz)
      | no ne ↦ elim (Bool-cases (ltb dt cur)) [
        | inr l ↦ rw (here, ne→== dt _ ne, l) fresh
        | inl l ↦ elim (find_late-found s dt 2 s.curhistp v v.cur_lt) [
          | inl f ↦ rw (here, ne→== dt _ ne, l, f) fresh
          | inr (q, f, hq, hd) ↦ rw (here, ne→== dt _ ne, l, f) (retry-Kept s q dt cp v t hq hd nz)
        ]
      ]
    ]
