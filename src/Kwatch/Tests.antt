-- ===== src/Kwatch/Tests.antt =====
-- kwatcher's history on concrete inputs, and the theorems at inputs that meet their hypotheses.
use jit_dt.Common.{◌≡◌, refl, List, [], ◌∷◌, none, some, codes, replicate, arith, All}
use jit_dt.Common.Outcome.{Outcome, ret, ◌>>=◌, load, store}
use jit_dt.Hist.{HistData, empty_data}
use jit_dt.Kwatch.{
  Kwatch, all_filled, retry, place, joined, transfer_made, Transferred, LockEvent, lock_write,
  unlock, lock,
}
use jit_dt.Kwatch.Place.{IsValid}
use jit_dt.Kwatch.Single.{IsTaken, Kept, place-Kept}
use jit_dt.Kwatch.Transfer.{Handed, transfer-Handed}

abbrev half : HistData
half = record { date = 20; fname = some (codes "vr20") ∷ none ∷ none ∷ [] }

-- a history of 4 entries with one that misses its second name
abbrev waiting : Kwatch
waiting = record { history = half ∷ replicate 4 empty_data; nhist = 4; curhistp = 0 }

waiting-IsValid : IsValid waiting
waiting-IsValid = record {
  nhist_pos = omega arith;
  nhist_le = omega arith;
  size = refl;
  rows = (refl, (refl, (refl, (refl, (refl, tt)))));
  cur_lt = omega arith;
}

abbrev locks_of : Outcome Transferred → List LockEvent
locks_of (ret t) = t.locks
locks_of _ = []

completed :
    locks_of (place (codes "/d/") waiting 20 1 (codes "ze20") 2 >>= transfer_made 2)
    ≡ lock_write (codes "vr20;ze20;") ∷ unlock ∷ lock ∷ []
unfolding place retry transfer_made joined all_filled load store
completed = refl

transfer-Handed_example :
    Handed 1
      (codes "ze20")
      2
      (place (codes "/d/") waiting 20 1 (codes "ze20") 2 >>= transfer_made 2)
transfer-Handed_example =
    transfer-Handed (codes "/d/") waiting 20 1 (codes "ze20") 2 waiting-IsValid (omega arith)
      (omega arith)

undated : IsTaken empty_data
undated e = absurd (e refl)

waiting-IsTaken : All IsTaken waiting.history
waiting-IsTaken = (λ _. λ e. cc, (undated, (undated, (undated, (undated, tt)))))

place_vr30 : Kept (place (codes "/d/") waiting 30 0 (codes "vr30") 1)
place_vr30 =
    place-Kept (codes "/d/") waiting 30 (codes "vr30") waiting-IsValid waiting-IsTaken (λ e. cc)
