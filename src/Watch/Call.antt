-- ===== src/Watch/Call.antt =====
-- Which events lead to a call of the function.
use jit_dt.Common.{
  ℕ, ◌≡◌, ◌≢◌, refl, Bool, true, false, not, ◌&&◌, ◌||◌, List, [], ◌∷◌, ◌++◌, Bytes, str_eq,
  str_eq_iff, All, arith, Bool-cases, ◌⊎◌, inl, inr,
}
use jit_dt.Common.Outcome.{ret}
use jit_dt.Watch.{
  Watch, Env, Event, Effect, called, is_file, getwdir, is_hidden, on_file, on_stat, handle,
  read_events,
}

-- An event about the file, of which the function takes note.
pub record IsAbout (wdirs : ℕ → Bytes) (p : Bytes) (x : Env × Event) : Type 0 where
  pub not_ignored : x.1.ignored ≡ false
  pub path_eq : (s : Watch) → s.wdirs ≡ wdirs → getwdir s x.1.wd ++ x.1.name ≡ p
  pub shown : is_hidden x.1.name ≡ false
  pub exists : x.0.stat p ≡ is_file
  pub noted : x.0.func p ≡ 1

abbrev pub is_done : Event → Bool
is_done ev = ev.close_write || ev.moved_to

abbrev pub some_done : List (Env × Event) → Bool
some_done [] = false
some_done ((env, ev) ∷ evs) = is_done ev || some_done evs

str_eq-ne : (a b : Bytes) → a ≢ b → str_eq a b ≡ false
str_eq-ne a b ne = elim (Bool-cases (str_eq a b)) [
  | inl e ↦ absurd (ne ((str_eq_iff a b).0 e))
  | inr e ↦ e
]

later :
    (ev : Event) (evs : List (Env × Event)) (env : Env)
    → is_done ev ≡ false
    → some_done ((env, ev) ∷ evs) ≡ true
    → some_done evs ≡ true
later ev evs env e d = (rw e at d)

-- An event that is not the end of a write or a move, or about the path of the last call.
handle-quiet :
    (wdirs : ℕ → Bytes) (s : Watch) (env : Env) (ev : Event) (p : Bytes)
    → s.wdirs ≡ wdirs
    → IsAbout wdirs p (env, ev)
    → (is_done ev ≡ false) ⊎ (s.prevpath ≡ p)
    → handle env s ev ≡ ret (record s { avail = p }, [], false)
unfolding handle on_stat on_file
handle-quiet wdirs s env ev p hw a (inl e) =
    rw (handle, a.not_ignored, a.path_eq s hw, a.exists, e) refl
handle-quiet wdirs s env ev p hw a (inr e) =
    let same : str_eq s.prevpath p ≡ true = (str_eq_iff s.prevpath p).1 e in
    let never : (is_done ev && (not (is_hidden ev.name) && false)) ≡ false =
      ground (arith, a.shown) in
    rw (handle, a.not_ignored, a.path_eq s hw, a.exists, same, never) refl

handle-loud :
    (wdirs : ℕ → Bytes) (s : Watch) (env : Env) (ev : Event) (p : Bytes)
    → s.wdirs ≡ wdirs
    → IsAbout wdirs p (env, ev)
    → is_done ev ≡ true
    → s.prevpath ≢ p
    → handle env s ev ≡ ret (record s { avail = p; prevpath = p }, called p ∷ [], false)
unfolding handle on_stat on_file
handle-loud wdirs s env ev p hw a d ne =
    let other : str_eq s.prevpath p ≡ false = str_eq-ne s.prevpath p ne in
    rw (handle, a.not_ignored, a.path_eq s hw, a.exists, d, a.shown, other, a.noted) refl

read_events-next :
    (s s1 : Watch) (env : Env) (ev : Event) (evs : List (Env × Event)) (es fs : List Effect)
    {r : Watch}
    → handle env s ev ≡ ret (s1, es, false)
    → read_events s1 evs ≡ ret (r, fs)
    → read_events s ((env, ev) ∷ evs) ≡ ret (r, es ++ fs)
unfolding read_events
read_events-next s s1 env ev evs es fs h k = rw (read_events, h, k) refl

-- After the call, the same file is left alone.
read_events_again :
    (wdirs : ℕ → Bytes) (p : Bytes) (evs : List (Env × Event)) (s : Watch)
    → s.wdirs ≡ wdirs
    → s.prevpath ≡ p
    → All (IsAbout wdirs p) evs
    → (r : Watch) × (read_events s evs ≡ ret (r, [])) × (r.prevpath ≡ p)
unfolding read_events
read_events_again wdirs p [] s hw hp h = (s, refl, hp)
read_events_again wdirs p ((env, ev) ∷ evs) s hw hp h =
    let (r, e, q) = read_events_again wdirs p evs (record s { avail = p }) hw hp h.1 in
    (
      r,
      read_events-next s (record s { avail = p }) env ev evs [] []
          (handle-quiet wdirs s env ev p hw h.0 (inr hp)) e,
      q,
    )

-- For a run of events about one file that exists, is not hidden and was not the last one that the
-- function took note of, and a function that takes note of it: when some event is the end of a
-- write or a move, the function is called for the file, and it is called once.
pub read_events_once :
    (wdirs : ℕ → Bytes) (p : Bytes) (evs : List (Env × Event)) (s : Watch)
    → s.wdirs ≡ wdirs
    → s.prevpath ≢ p
    → All (IsAbout wdirs p) evs
    → some_done evs ≡ true
    → (r : Watch) × (read_events s evs ≡ ret (r, called p ∷ [])) × (r.prevpath ≡ p)
read_events_once wdirs p [] s hw hp h d = cc
read_events_once wdirs p ((env, ev) ∷ evs) s hw hp h d = elim (Bool-cases (is_done ev)) [
  | inl e ↦
      let (r, k, q) =
        read_events_again wdirs p evs (record s { avail = p; prevpath = p }) hw refl h.1 in
      (
        r,
        read_events-next s (record s { avail = p; prevpath = p }) env ev evs (called p ∷ []) []
            (handle-loud wdirs s env ev p hw h.0 e hp) k,
        q,
      )
  | inr e ↦
      let (r, k, q) =
        read_events_once wdirs p evs (record s { avail = p }) hw hp h.1 (later ev evs env e d) in
      (
        r,
        read_events-next s (record s { avail = p }) env ev evs [] (called p ∷ [])
            (handle-quiet wdirs s env ev p hw h.0 (inl e)) k,
        q,
      )
]
