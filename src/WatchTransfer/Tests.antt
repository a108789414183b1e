-- ===== src/WatchTransfer/Tests.antt =====
-- transfer on concrete inputs, and the theorem at inputs that meet its hypotheses.
use jit_dt.Common.{
  ℕ, ◌≡◌, refl, true, false, List, [], ◌∷◌, Option, none, some, Bytes, codes, length, pos, negsuc,
  replicate, arith, str_eq, ltb, Bool-cases, inl, inr, if◌then◌else◌,
}
use jit_dt.Common.Outcome.{ret}
use jit_dt.Conf.Reader.{Conf}
use jit_dt.Conf.Match.{
  matched, no_match, Copies, regex_match, find_conf, copies, copy_if, matchedcopy,
}
use jit_dt.WatchTransfer.{
  Log, logfupdate, Env, is_short, transfer, transfer_matched, transfers, threshold_only,
}
use jit_dt.WatchTransfer.Taken.{Taken, IsSeen, transfers-Taken}

abbrev region : Conf
region = record {
  c_area = codes "kobe";
  c_pattern = codes "x";
  c_type = [];
  c_date = [];
  c_fnam = [];
  c_thrh = codes "10";
}

-- Names of one byte do not match; the threshold is 10, and `short` has 9 bytes.
abbrev env : Env
env = record {
  regexec = λ p s. if ltb 1 (length s) then matched (replicate 10 none) else no_match;
  conf = region ∷ record region { c_area = [] } ∷ [];
  atoll = λ b. pos 10;
  stat = λ f. if str_eq f (codes "short") then some 9 else some 10;
  unset = λ f. negsuc 0;
  fopen = λ n. true;
  dryflag = false;
}

-- the last line of a log file
abbrev full : Log
full = record { opened = true; logent = 480; logage = 1 }

abbrev three : List Bytes
three = codes "file" ∷ codes "short" ∷ codes "x" ∷ []

new_log :
    transfers env full three
    ≡ ret (
      record { opened = true; logent = 0; logage = 2 },
      (true ∷ false ∷ false ∷ [], codes "file" ∷ []),
    )
unfolding transfer transfer_matched logfupdate is_short regex_match find_conf copies copy_if
    matchedcopy str_eq
new_log = refl

has_size : (f : Bytes) → (n : ℕ) × (env.stat f ≡ some n)
has_size f = elim (Bool-cases (str_eq f (codes "short"))) [
  | inl e ↦ (9, rw e refl)
  | inr e ↦ (10, rw e refl)
]

all-matched :
    (f : Bytes) → (m : Option Copies) × (regex_match env.regexec env.conf f threshold_only ≡ ret m)
unfolding regex_match find_conf copies copy_if matchedcopy str_eq
all-matched f = elim (Bool-cases (ltb 1 (length f))) [
  | inl e ↦ rw e (_, refl)
  | inr e ↦ rw e (_, refl)
]

all-IsSeen : (f : Bytes) → IsSeen env f
all-IsSeen f = (all-matched f, has_size f)

transfers-Taken_example : Taken env full three
transfers-Taken_example =
    transfers-Taken env full three (λ n. refl)
      (all-IsSeen (codes "file"), (all-IsSeen (codes "short"), (all-IsSeen (codes "x"), tt)))
      record { opened = refl; within = omega arith }
