-- ===== src/WatchTransfer/Taken.antt =====
-- transfer: which files of a sequence are taken, and the log files that they fill.
use jit_dt.Common.{
  ℕ, ◌+◌, ◌*◌, ◌≤◌, ◌<◌, ◌≡◌, ◌⊎◌, refl, ap, ◌∙◌, Bool, true, false, inl, inr, List, [], ◌∷◌, ◌++◌,
  Option, none, some, Bytes, All, arith, ltb, if◌then◌else◌, Bool-cases, ℤ, pos, negsuc,
}
use jit_dt.Common.Outcome.{Outcome, ret}
use jit_dt.Conf.Match.{Copies, regex_match}
use jit_dt.Kwatch.{copied}
use jit_dt.WatchTransfer.{
  log_maxentries, Log, logfupdate, Env, threshold_only, st_size, is_short, transfer_matched,
  transfer, transfers,
}

-- A size that is at least the threshold; a negative threshold is no limit.
abbrev pub Enough : ℤ → ℕ → Type 0
Enough (pos t) n = t ≤ n
Enough (negsuc t) n = Unit

abbrev pub Short : ℤ → ℕ → Type 0
Short (pos t) n = n < t
Short (negsuc t) n = ⊥

abbrev pub Matches : Env → Bytes → Copies → Type 0
Matches env f c = regex_match env.regexec env.conf f threshold_only ≡ ret (some c)

-- Why a file is taken or not: its name matches and its size is at least the threshold, or it does
-- not match or is smaller.
abbrev pub Verdict : Env → Bytes → Bool → Type 0
Verdict env f true =
    (c : Copies) × (n : ℕ) × (Matches env f c
      × ((env.stat f ≡ some n) × Enough (env.atoll (copied c.thrh)) n))
Verdict env f false =
    (regex_match env.regexec env.conf f threshold_only ≡ ret none)
    ⊎ ((c : Copies) × (n : ℕ) × (Matches env f c
          × ((env.stat f ≡ some n) × Short (env.atoll (copied c.thrh)) n)))

abbrev pub Verdicts : Env → List Bytes → List Bool → Type 0
Verdicts env [] [] = Unit
Verdicts env (f ∷ fs) (b ∷ bs) = Verdict env f b × Verdicts env fs bs
Verdicts env _ _ = ⊥

-- the files whose verdict is true, in their order
abbrev pub picked : List Bool → List Bytes → List Bytes
picked [] fs = []
picked (b ∷ bs) [] = []
picked (true ∷ bs) (f ∷ fs) = f ∷ picked bs fs
picked (false ∷ bs) (f ∷ fs) = picked bs fs

abbrev pub unless : Bool → List Bytes → List Bytes
unless true fs = []
unless false fs = fs

abbrev one_if : Bool → ℕ
one_if true = 1
one_if false = 0

abbrev pub count_true : List Bool → ℕ
count_true [] = 0
count_true (b ∷ bs) = one_if b + count_true bs

-- the entries counted in all log files so far
abbrev pub entries : Log → ℕ
entries g = g.logage * (log_maxentries + 1) + g.logent

-- A log file that is open and not over its limit.
pub record IsLog (g : Log) : Type 0 where
  pub opened : g.opened ≡ true
  pub within : g.logent ≤ log_maxentries

record Counts (g : Log) (n : ℕ) (x : Outcome Log) : Type 0 where
  log : Log
  returned : x ≡ ret log
  is_log : IsLog log
  counted : entries log ≡ entries g + n

logfupdate-Counts :
    (fopen : ℕ → Bool) (g : Log)
    → ((n : ℕ) → fopen n ≡ true)
    → IsLog g
    → Counts g 1 (logfupdate fopen g)
unfolding logfupdate
logfupdate-Counts fopen g can h = elim (Bool-cases (ltb log_maxentries (g.logent + 1))) [
  | inl e ↦
      let full : log_maxentries ≤ g.logent = ground arith in
      record {
        log = record { opened = true; logent = 0; logage = g.logage + 1 };
        returned = rw (logfupdate, h.opened, e, can (g.logage + 1)) refl;
        is_log = record { opened = refl; within = omega arith };
        counted = omega (arith, h.within);
      }
  | inr e ↦
      let room : g.logent + 1 ≤ log_maxentries = ground arith in
      record {
        log = record g { logent = g.logent + 1 };
        returned = rw (logfupdate, h.opened, e) refl;
        is_log = record { opened = h.opened; within = room };
        counted = omega arith;
      }
]

-- What one call does, with the verdict of the file.
record Judged (env : Env) (g : Log) (f : Bytes) (x : Outcome (Log × (Bool × List Bytes)))
    : Type 0 where
  log : Log
  taken : Bool
  returned : x ≡ ret (log, (taken, unless env.dryflag (picked (taken ∷ []) (f ∷ []))))
  judged : Verdict env f taken
  is_log : IsLog log
  counted : entries log ≡ entries g + one_if taken

is_short-compares :
    (t : ℤ) (n : ℕ)
    → ((is_short t (pos n) ≡ true) × Short t n) ⊎ ((is_short t (pos n) ≡ false) × Enough t n)
unfolding is_short
is_short-compares (negsuc t) n = inr (refl, tt)
is_short-compares (pos t) n = elim (Bool-cases (ltb n t)) [
  | inl e ↦ inl (ground arith, ground arith)
  | inr e ↦ inr (ground arith, ground arith)
]

if_dry : (b : Bool) (fs : List Bytes) → (if b then [] else fs) ≡ unless b fs
if_dry true fs = refl
if_dry false fs = refl

unless_none : (b : Bool) → [] ≡ unless b []
unless_none true = refl
unless_none false = refl

st_size-stat : (env : Env) (f : Bytes) (n : ℕ) → env.stat f ≡ some n → st_size env f ≡ pos n
st_size-stat env f n e = rw (st_size, e) refl

matched-Judged :
    (env : Env) (g : Log) (f : Bytes) (m : Option Copies) (n : ℕ)
    → ((k : ℕ) → env.fopen k ≡ true)
    → regex_match env.regexec env.conf f threshold_only ≡ ret m
    → env.stat f ≡ some n
    → IsLog g
    → Judged env g f (transfer_matched env g f m)
unfolding transfer_matched
matched-Judged env g f none n can e stat h = record {
  log = g;
  taken = false;
  returned = ap (λ fs. ret (g, (false, fs))) (unless_none env.dryflag);
  judged = inl e;
  is_log = h;
  counted = omega arith;
}
matched-Judged env g f (some c) n can e stat h =
    let t = env.atoll (copied c.thrh) in
    let size : st_size env f ≡ pos n = st_size-stat env f n stat in
    elim (is_short-compares t n) [
      | inl (s, less) ↦ record {
        log = g;
        taken = false;
        returned =
            rw (transfer_matched, ap (is_short t) size ∙ s)
              (ap (λ fs. ret (g, (false, fs))) (unless_none env.dryflag));
        judged = inr (c, n, (e, (stat, less)));
        is_log = h;
        counted = omega arith;
      }
      | inr (s, enough) ↦
          let u = logfupdate-Counts env.fopen g can h in
          record {
            log = u.log;
            taken = true;
            returned =
                rw (transfer_matched, ap (is_short t) size ∙ s, u.returned)
                  (ap (λ fs. ret (u.log, (true, fs))) (if_dry env.dryflag (f ∷ [])));
            judged = (c, n, (e, (stat, enough)));
            is_log = u.is_log;
            counted = u.counted;
          }
    ]

transfer-Judged :
    (env : Env) (g : Log) (f : Bytes) (m : Option Copies) (n : ℕ)
    → ((k : ℕ) → env.fopen k ≡ true)
    → regex_match env.regexec env.conf f threshold_only ≡ ret m
    → env.stat f ≡ some n
    → IsLog g
    → Judged env g f (transfer env g f)
unfolding transfer
transfer-Judged env g f m n can e stat h =
    let one = matched-Judged env g f m n can e stat h in
    record {
      log = one.log;
      taken = one.taken;
      returned = rw (transfer, e) one.returned;
      judged = one.judged;
      is_log = one.is_log;
      counted = one.counted;
    }

-- The match of a name ends without an access outside an array, and the file has a size.
abbrev pub IsSeen : Env → Bytes → Type 0
IsSeen env f =
    ((m : Option Copies) × (regex_match env.regexec env.conf f threshold_only ≡ ret m))
    × ((n : ℕ) × (env.stat f ≡ some n))

-- What a sequence of calls does.
pub record Taken (env : Env) (g : Log) (fs : List Bytes) : Type 0 where
  pub log : Log
  pub taken : List Bool
  pub returned : transfers env g fs ≡ ret (log, (taken, unless env.dryflag (picked taken fs)))
  pub judged : Verdicts env fs taken
  pub is_log : IsLog log
  pub counted : entries log ≡ entries g + count_true taken

unless-append :
    (d b : Bool) (f : Bytes) (bs : List Bool) (fs : List Bytes)
    → unless d (picked (b ∷ []) (f ∷ [])) ++ unless d (picked bs fs)
      ≡ unless d (picked (b ∷ bs) (f ∷ fs))
unless-append true b f bs fs = refl
unless-append false true f bs fs = refl
unless-append false false f bs fs = refl

-- For a log file that is open, log files that can always be opened, names whose match ends and files
-- whose stat succeeds, a sequence of calls of transfer returns 1 exactly for the files whose name
-- regex_match finds and whose size is at least the threshold of the pattern, where a negative
-- threshold is none; it returns 0 for a file that does not match or is smaller. The files taken are
-- handed on in their order, or none of them in a dry run. logfupdate counts one entry for each file
-- taken, and begins another log file behind 481 entries: the age and the entries at the end are
-- those of the sum.
pub transfers-Taken :
    (env : Env) (g : Log) (fs : List Bytes)
    → ((n : ℕ) → env.fopen n ≡ true)
    → All (IsSeen env) fs
    → IsLog g
    → Taken env g fs
transfers-Taken env g [] can ms h = record {
  log = g;
  taken = [];
  returned = ap (λ fs. ret (g, ([], fs))) (unless_none env.dryflag);
  judged = tt;
  is_log = h;
  counted = omega arith;
}
transfers-Taken env g (f ∷ fs) can (((m, e), (n, stat)), ms) h =
    let one = transfer-Judged env g f m n can e stat h in
    let rest = transfers-Taken env one.log fs can ms one.is_log in
    record {
      log = rest.log;
      taken = one.taken ∷ rest.taken;
      returned =
          rw (one.returned, rest.returned)
            (ap (λ x. ret (rest.log, (one.taken ∷ rest.taken, x)))
              (unless-append env.dryflag one.taken f rest.taken fs));
      judged = (one.judged, rest.judged);
      is_log = rest.is_log;
      counted = omega (arith, one.counted, rest.counted);
    }
