-- ===== src/Hist/Tests.antt =====
-- The history on concrete inputs, and the theorems at inputs that meet their hypotheses.
use jit_dt.Common.{
  ℕ, ◌++◌, ◌<◌, ◌≡◌, refl, true, List, [], ◌∷◌, some, none, pos, negsuc, pos_part, replicate, ◌⊎◌,
  arith,
}
use jit_dt.Common.Outcome.{ret, fault, load, store}
use jit_dt.Hist.{
  Bytes, HistData, Hist, Effect, entry, waiting, unlink, empty_data, histput, put_locked, put_same,
  put_newer, histget, histremove, histinit, signals,
}
use jit_dt.Hist.Valid.{
  IsValid, pending, newest, next_slot, entry_at, after_register, histinit-IsValid,
}
use jit_dt.Hist.Put.Newer.{new_entry, kept, evicted, put_newer_lem}
use jit_dt.Hist.Put.Late.{put_same_lem, put_late_lem}
use jit_dt.Hist.Take.{histput-IsValid, histget_lem}
use jit_dt.Hist.Threads.{puts, gets, here, next, IsSafe, Reach-IsSafe, full_race}
use jit_dt.Hist.Faults.{histput_type_fault, remove_empty_hides}

abbrev path_a : Bytes
path_a = b'a' ∷ []

abbrev path_b : Bytes
path_b = b'b' ∷ []

abbrev dated : ℕ → Bytes → HistData
dated d p = record { date = d; fname = some p ∷ none ∷ none ∷ [] }

-- Two files of successive dates, in a ring of five entries: no room for a third.
abbrev two_files : Hist
two_files = record {
  history = dated 10 path_a ∷ dated 20 path_b ∷ replicate 18 empty_data;
  nhist = 5;
  prodhistp = 1;
  conshistp = 0;
  numhist = pos 2;
  waithist = 1;
  waithist2 = 0;
}

two_files-IsValid : IsValid two_files
two_files-IsValid = ground arith

histinit-IsValid_example : IsValid (histinit 20)
histinit-IsValid_example = histinit-IsValid 20 (omega arith)

put_newer_lem_example :
    (r : Hist) × (histput true two_files path_a 30 (pos 1)
      ≡ ret (r, evicted two_files ++ signals two_files))
    × IsValid r
    × (pending r ≡ kept two_files ++ (new_entry two_files (next_slot two_files) 30 1 path_a ∷ []))
put_newer_lem_example = put_newer_lem 30 1 path_a two_files-IsValid (omega arith) (omega arith)

late_file :
    (histput true two_files path_a 20 (pos 1)
      ≡ ret (after_register two_files 1 1 path_a, signals two_files))
    × IsValid (after_register two_files 1 1 path_a)
late_file = put_same_lem 1 path_a two_files-IsValid (omega arith)

put_late_lem_example :
    ((i : ℕ) × (i < 5)
      × ((entry_at two_files i).date ≡ 10)
      × (histput true two_files path_b 10 (pos 2)
          ≡ ret (after_register two_files i 2 path_b, signals two_files))
      × IsValid (after_register two_files i 2 path_b))
    ⊎ (((i : ℕ) → i < 5 → ¬ ((entry_at two_files i).date ≡ 10))
        × (histput true two_files path_b 10 (pos 2) ≡ ret (two_files, unlink path_b ∷ [])))
put_late_lem_example = put_late_lem 10 2 path_b two_files-IsValid (omega arith) (omega arith)

histput-IsValid_example :
    (r : Hist) × (es : List Effect) × (histput true two_files path_b 15 (pos 2) ≡ ret (r, es))
    × IsValid r
    × (0 < 2 → 0 < pos_part r.numhist)
histput-IsValid_example = histput-IsValid 15 2 path_b two_files-IsValid (omega arith)

oldest_of_two :
    ((histget two_files ≡ entry 0) × (pending two_files ≡ dated 10 path_a ∷ dated 20 path_b ∷ []))
    ⊎ ((histget two_files ≡ waiting (record two_files { waithist = 2 })) × (pending two_files ≡ []))
oldest_of_two = histget_lem two_files-IsValid

abbrev one_put : Hist
one_put = record (histinit 20) {
  history = dated 7 path_a ∷ replicate 19 empty_data;
  numhist = pos 1;
}

Reach-IsSafe_example : IsSafe (one_put, true)
unfolding histput put_locked put_newer put_same histinit histget load store
Reach-IsSafe_example =
    Reach-IsSafe 20 (omega arith)
      (next (next here (puts {es = []} 7 0 path_a (omega arith) refl)) (gets 0 refl))

full_race_example :
    (r q : Hist) × (es fs : List Effect) × (histput true two_files path_a 30 (pos 0) ≡ ret (r, es))
    × (histremove r ≡ ret (q, fs))
    × (pending q ≡ new_entry two_files 2 30 0 path_a ∷ [])
full_race_example =
    full_race 30 0 path_a two_files-IsValid (omega arith) (omega arith) (omega arith)

type_too_large : histput true two_files path_a 30 (pos 3) ≡ fault
type_too_large = histput_type_fault 30 path_a (IsValid.sized two_files-IsValid) (omega arith)

remove_empty_then_put :
    (r q w : Hist) × (es fs : List Effect) × (histremove (histinit 20) ≡ ret (r, fs))
    × (r.numhist ≡ negsuc 0)
    × (histput true r path_a 30 (pos 0) ≡ ret (q, es))
    × (newest q ≡ 30)
    × (histget q ≡ waiting w)
unfolding histinit
remove_empty_then_put =
    remove_empty_hides {h = histinit 20} 30 0 path_a (histinit-IsValid 20 (omega arith)) refl
      (omega arith) (omega arith)
