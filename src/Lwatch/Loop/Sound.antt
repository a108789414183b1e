-- ===== src/Lwatch/Loop/Sound.antt =====
-- What any order of the turns of transfer and of the arrivals keeps of the history.
use jit_dt.Common.{
  ℕ, ◌+◌, ◌<◌, ◌≡◌, ◌≢◌, refl, sym, subst, Bool, true, false, not, List, [], Option, none, some,
  Bytes, length, arith, ℤ, pos, pos_part, Option-cases, if◌then◌else◌, inl, inr, ◌⊎◌, ◌==◌,
}
use jit_dt.Common.Outcome.{Outcome, ret, exited, fault, ◌>>=◌, >>=-eq-ret, load}
use jit_dt.Hist.{GetResult, HistData, Hist, entry, waiting, histget, histwait, histremove}
use jit_dt.Hist.Valid.{IsValid}
use jit_dt.Hist.Take.{histremove_keeps}
use jit_dt.Hist.Threads.{with_waits, gets_count, blocks_lem, blocks-IsValid}
use jit_dt.Client.{Reading, got, unopened, failed}
use jit_dt.Net.{size_t}
use jit_dt.Lwatch.{
  Server, Reply, read, opened, Turn, served, waits, waits_type, serve, cmd_open, cmd_read, cmd_get,
  cmd_close, after_get, collect, cut, asked, total, fitting, System, files, all_there, descriptor,
}

-- A server whose file is open has an entry to remove.
pub record IsSound (s : Server) (up : Bool) : Type 0 where
  pub valid : IsValid s.hist
  pub held : up ≡ true → s.tfd ≢ none → 0 < pos_part s.hist.numhist

-- a history after a call of the other thread
pub record IsKept (h r : Hist) : Type 0 where
  pub valid : IsValid r
  pub more : 0 < pos_part h.numhist → 0 < pos_part r.numhist

abbrev pub TurnSound : Server → Turn → Type 0
TurnSound s (served s' reply es connected) = IsSound s' connected
TurnSound s (waits h) = IsKept s.hist h
TurnSound s (waits_type h) = IsKept s.hist h

-- What holds of every result of the second of two steps, or of both branches of a test.
pub >>=-all :
    {A : Type 0} {B : Type 0} (P : B → Type 0) (m : Outcome A) (f : A → Outcome B) (b : B)
    → ((a : A) → m ≡ ret a → f a ≡ ret b → P b)
    → m >>= f ≡ ret b
    → P b
>>=-all P (ret a) f b k e = k a refl e
>>=-all P exited f b k e = cc
>>=-all P fault f b k e = cc

pub if_all :
    {B : Type 0} (P : B → Type 0) (c : Bool) (x y : Outcome B) (b : B)
    → (c ≡ true → x ≡ ret b → P b)
    → (c ≡ false → y ≡ ret b → P b)
    → (if c then x else y) ≡ ret b
    → P b
if_all P true x y b h k e = h refl e
if_all P false x y b h k e = k refl e

reading_cases : (r : Reading) → ((b : Bytes) × (r ≡ got b)) ⊎ (r ≡ unopened) ⊎ (r ≡ failed)
reading_cases (got b) = inl (b, refl)
reading_cases unopened = inr (inl refl)
reading_cases failed = inr (inr refl)

get_cases : (r : GetResult) → ((h : Hist) × (r ≡ waiting h)) ⊎ ((i : ℕ) × (r ≡ entry i))
get_cases (waiting h) = inl (h, refl)
get_cases (entry i) = inr (i, refl)

waits-IsKept : (h r : Hist) → IsValid h → histget h ≡ waiting r → IsKept h r
waits-IsKept h r v e = record {
  valid = blocks-IsValid e v;
  more = λ p. subst (λ q. 0 < pos_part q.numhist) (sym (blocks_lem h r e)) p;
}

histwait-IsKept : (h : Hist) → IsValid h → IsKept h (histwait h)
unfolding histwait
histwait-IsKept h v = record { valid = with_waits h.waithist (h.waithist2 + 1) v; more = λ p. p }

turn_of : (s : Server) (t u : Turn) → TurnSound s t → ret t ≡ ret u → TurnSound s u
turn_of s t u v e = let same : t ≡ u = cc in subst (TurnSound s) same v

-- the end of a connection
ended-IsSound : (s : Server) → IsValid s.hist → IsSound s false
ended-IsSound s v = record { valid = v; held = λ u. cc }

module _ (read_at : Bytes → ℕ → ℕ → Reading) where
  open-Sound :
      (s : Server) (o : ℤ) (t : Turn)
      → IsSound s true
      → cmd_open read_at s o ≡ ret t
      → TurnSound s t
  unfolding cmd_open
  open-Sound s o t v e = elim (get_cases (histget s.hist)) [
    | inl (h, g) ↦ turn_of s (waits h) t (waits-IsKept s.hist h v.valid g) (rw (cmd_open, g) at e)
    | inr (i, g) ↦
        let e1 = (rw (cmd_open, g) at e) in
        let (hp, el, e2) = >>=-eq-ret (load s.hist.history i) _ e1 in
        let (f, ef, e3) = >>=-eq-ret (load hp.fname (size_t o)) _ e2 in
        elim (Option-cases f) [
          | inl n ↦
              turn_of s (waits_type (histwait s.hist)) t (histwait-IsKept s.hist v.valid)
                (rw n at e3)
          | inr (name, n) ↦
              turn_of s
                (served (record s { tfd = descriptor name (read_at name 0 0) }) (some (opened name))
                  [] true)
                t (record { valid = v.valid; held = λ u k. gets_count s.hist i g }) (rw n at e3)
        ]
  ]

  close-Sound :
      (s : Server) (t : Turn)
      → IsSound s true
      → s.tfd ≢ none
      → cmd_close read_at s ≡ ret t
      → TurnSound s t
  unfolding cmd_close
  close-Sound s t v h e =
      let (x, er, et) = >>=-eq-ret (histremove s.hist) _ e in
      let w = histremove_keeps v.valid (v.held refl h) er in
      turn_of s _ t (ended-IsSound (record s { hist = x.0; tfd = none }) w) et

  read-Sound :
      (h : Hist) (n : ℕ) (tfd : Option (Bytes × ℕ)) (o : ℤ) (t : Turn)
      → let s : Server = record { hist = h; nsize = n; tfd = tfd } in
        IsSound s true → cmd_read read_at s o ≡ ret t → TurnSound s t
  unfolding cmd_read
  read-Sound h n none o t v e =
      let s : Server = record { hist = h; nsize = n; tfd = none } in
      turn_of s (served s (some (read [])) [] true) t v e
  read-Sound h n (some (name, off)) o t v e =
      let s : Server = record { hist = h; nsize = n; tfd = some (name, off) } in
      elim (reading_cases (read_at name off (size_t o))) [
        | inl (b, g) ↦
            turn_of s
              (served (record s { tfd = some (name, off + length b) }) (some (read b)) [] true) t
              (record { valid = v.valid; held = λ u k. v.held refl (λ z. cc) })
              (rw (cmd_read, g) at e)
        | inr (inl g) ↦ cc (rw (cmd_read, g) at e)
        | inr (inr g) ↦ cc (rw (cmd_read, g) at e)
      ]

  after_get-Sound :
      (s s' : Server) (b : Bool) (r : Reply) (t : Turn)
      → IsValid s'.hist
      → 0 < pos_part s'.hist.numhist
      → after_get read_at b s' r ≡ ret t
      → TurnSound s t
  unfolding after_get
  after_get-Sound s s' false r t v p e =
      turn_of s (served s' (some r) [] false) t (ended-IsSound s' v) e
  after_get-Sound s s' true r t v p e =
      >>=-all (TurnSound s) (histremove s'.hist) _ t
        (λ x er et.
          turn_of s (served (record s' { hist = x.0 }) (some r) x.1 false) t
            (ended-IsSound (record s' { hist = x.0 }) (histremove_keeps v p er)) et)
        e

  collected-Sound :
      (s : Server) (b : System) (n : ℕ) (z : ℤ) (hp : HistData) (opt : List ℤ) (t : Turn)
      → IsSound s true
      → 0 < pos_part s.hist.numhist
      → collect read_at n hp.fname opt >>= (λ c. fitting z c >>= (λ c'.
        cut read_at c'.tmpstr >>= (λ names.
          after_get read_at b.sends
            (record s { nsize = n })
            (files hp.date names c'.data_read c'.retval))))
        ≡ ret t
      → TurnSound s t
  collected-Sound s b n z hp opt t v more e =
      let P = TurnSound s in
      >>=-all P (collect read_at n hp.fname opt) _ t
        (λ c _ e.
          >>=-all P (fitting z c) _ t
            (λ c' _ e.
              >>=-all P (cut read_at c'.tmpstr) _ t
                (λ names _ e. after_get-Sound s (record s { nsize = n }) b.sends _ t v.valid more e)
                e)
            e)
        e

  get-Sound :
      (s : Server) (b : System) (opt : List ℤ) (t : Turn)
      → IsSound s true
      → cmd_get read_at b s opt ≡ ret t
      → TurnSound s t
  unfolding cmd_get
  get-Sound s b opt t v e = elim (get_cases (histget s.hist)) [
    | inl (h, g) ↦ turn_of s (waits h) t (waits-IsKept s.hist h v.valid g) (rw (cmd_get, g) at e)
    | inr (i, g) ↦
        let P = TurnSound s in
        let more = gets_count s.hist i g in
        >>=-all P (load s.hist.history i) _ t
          (λ hp _ e.
            >>=-all P (all_there s.nsize hp.fname) _ t
              (λ all _ e.
                if_all P (not all) _ _ t
                  (λ _ e.
                    turn_of s (waits_type (histwait s.hist)) t (histwait-IsKept s.hist v.valid) e)
                  (λ _ e.
                    >>=-all P (asked s.nsize opt) _ t
                      (λ n _ e.
                        >>=-all P (total n opt (pos 0)) _ t
                          (λ z _ e.
                            if_all P b.memory _ _ t
                              (λ _ e. collected-Sound s b n z hp opt t v more e) (λ _ e. cc e) e)
                          e)
                      e)
                  e)
              e)
          (rw (cmd_get, g) at e)
  ]

  pub serve-Sound :
      (s : Server) (b : System) (cmd : ℕ) (opt : List ℤ) (t : Turn)
      → IsSound s true
      → (cmd ≡ 2 → s.tfd ≢ none)
      → serve read_at b s cmd opt ≡ ret t
      → TurnSound s t
  unfolding serve
  serve-Sound s b cmd opt t v polite e =
      let P = TurnSound s in
      if_all P (cmd == 1) _ _ t (λ _ e. open-Sound s _ t v e)
        (λ _ e.
          if_all P (cmd == 6) _ _ t (λ _ e. read-Sound s.hist s.nsize s.tfd _ t v e)
            (λ _ e.
              if_all P (cmd == 3) _ _ t (λ _ e. get-Sound s b opt t v e)
                (λ _ e.
                  if_all P (cmd == 2) _ _ t
                    (λ h e.
                      let close : cmd ≡ 2 = ground (arith, h) in close-Sound s t v (polite close) e)
                    (λ _ e.
                      turn_of s (served s none [] (not (cmd == 4))) t
                        (record { valid = v.valid; held = λ _ k. v.held refl k }) e)
                    e)
                e)
            e)
        e
