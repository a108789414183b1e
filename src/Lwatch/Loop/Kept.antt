-- ===== src/Lwatch/Loop/Kept.antt =====
-- The steps of the loops of transfer, in any order with those of watcher.
use jit_dt.Common.{
  ℕ, ◌≤◌, ◌≡◌, ◌≢◌, refl, sym, ap, subst, ◌∙◌, Bool, true, false, List, [], ◌∷◌, ◌++◌, none, Bytes,
  length, ℤ, inl, inr, ◌⊎◌,
}
use jit_dt.Common.Outcome.{ret}
use jit_dt.Hist.{Hist, fname_max, histwait_wake}
use jit_dt.Client.{Reading}
use jit_dt.Net.{Stream, Layout, Command, command, no_command, endless}
use jit_dt.Lwatch.{Env, Server, Turn, served, waits, waits_type, watcher, System, serve}
use jit_dt.Lwatch.Loop.{
  Wait, idle, on_entry, on_type, Conn, Event, arrives, accepts, runs, Output, next_command, woken,
  after_turn, run_command, step, steps,
}
use jit_dt.Lwatch.Loop.Arrivals.{watcher-IsKept, woken-IsSound}
use jit_dt.Lwatch.Loop.Sound.{IsSound, IsKept, TurnSound, if_all, >>=-all, serve-Sound}

abbrev pub ConnSound : Conn → Type 0
ConnSound c = IsSound c.server c.up

-- the same server with a history that is kept
kept-IsSound :
    (s : Server) (up : Bool) (h : Hist)
    → IsSound s up
    → IsKept s.hist h
    → IsSound (record s { hist = h }) up
kept-IsSound s up h v k = record { valid = k.valid; held = λ u t. k.more (v.held u t) }

woken-IsKept : (w : Wait) (s : Server) (h : Hist) → IsKept (woken w s).hist h → IsKept s.hist h
unfolding woken histwait_wake
woken-IsKept idle s h k = k
woken-IsKept (on_entry cmd opt) s h k = record { valid = k.valid; more = k.more }
woken-IsKept (on_type cmd opt) s h k = record { valid = k.valid; more = k.more }

after_turn-ConnSound :
    (c : Conn) (cmd : ℕ) (opt : List ℤ) (r : Stream) (t : Turn)
    → ConnSound c
    → TurnSound (woken c.waiting c.server) t
    → ConnSound (after_turn c cmd opt r t).0
unfolding after_turn
after_turn-ConnSound c cmd opt r (served s reply es connected) v k = k
after_turn-ConnSound c cmd opt r (waits h) v k =
    kept-IsSound c.server c.up h v (woken-IsKept c.waiting c.server h k)
after_turn-ConnSound c cmd opt r (waits_type h) v k =
    kept-IsSound c.server c.up h v (woken-IsKept c.waiting c.server h k)

woken-tfd : (w : Wait) (s : Server) → (woken w s).tfd ≡ s.tfd
unfolding woken
woken-tfd idle s = refl
woken-tfd (on_entry cmd opt) s = refl
woken-tfd (on_type cmd opt) s = refl

command_cases :
    (k : Command)
    → ((cmd : ℕ) × (opt : List ℤ) × (r : Stream) × (k ≡ command cmd opt r))
      ⊎ (k ≡ no_command)
      ⊎ (k ≡ endless)
command_cases (command cmd opt r) = inl (cmd, opt, r, refl)
command_cases no_command = inr (inl refl)
command_cases endless = inr (inr refl)

result_of : (x y : Conn × Output) → ConnSound x.0 → ret x ≡ ret y → ConnSound y.0
result_of x y v e = let same : x ≡ y = cc in subst (λ z. ConnSound z.0) same v

module _ (env : Env) (read_at : Bytes → ℕ → ℕ → Reading) (l : Layout) (f : ℕ) where
  -- A turn makes CLOSE only if a file is open.
  abbrev pub Closes : Conn → Event → Type 0
  Closes c (runs b) =
      (opt : List ℤ) (r : Stream) → next_command l f c ≡ command 2 opt r → c.server.tfd ≢ none
  Closes c e = Unit

  -- so does every turn of a run
  abbrev pub AllCloses : Conn → List Event → Type 0
  AllCloses c [] = Unit
  AllCloses c (e ∷ es) =
      Closes c e × ((x : Conn × Output) → step env read_at l f c e ≡ ret x → AllCloses x.0 es)

  run_command-ConnSound :
      (b : System) (c : Conn) (x : Conn × Output)
      → c.up ≡ true
      → ConnSound c
      → Closes c (runs b)
      → run_command env read_at l f b c ≡ ret x
      → ConnSound x.0
  unfolding run_command
  run_command-ConnSound b c x u v p e = elim (command_cases (next_command l f c)) [
    | inl (cmd, opt, r, k) ↦
        let s = woken c.waiting c.server in
        let vs = woken-IsSound c.waiting c.server true (subst (IsSound c.server) u v) in
        let polite : cmd ≡ 2 → s.tfd ≢ none = λ two closed.
          p opt r (k ∙ ap (λ n. command n opt r) two)
            (sym (woken-tfd c.waiting c.server) ∙ closed) in
        >>=-all (λ x. ConnSound x.0) (serve read_at b s cmd opt) _ x
          (λ t et ex.
            result_of _ x
              (after_turn-ConnSound c cmd opt r t v
                (serve-Sound read_at s b cmd opt t vs polite et))
              ex)
          (rw (run_command, k) at e)
    | inr (inl k) ↦
        result_of (record c { up = false }, ([], [])) x (record { valid = v.valid; held = λ u. cc })
          (rw (run_command, k) at e)
    | inr (inr k) ↦ result_of (c, ([], [])) x v (rw (run_command, k) at e)
  ]

  step-ConnSound :
      (c : Conn) (e : Event) (x : Conn × Output)
      → ConnSound c
      → length env.synctype ≤ fname_max
      → ((n : ℕ) → env.malloc n ≡ true)
      → Closes c e
      → step env read_at l f c e ≡ ret x
      → ConnSound x.0
  unfolding step
  step-ConnSound c (arrives fpath) x v hl hm p e =
      >>=-all (λ x. ConnSound x.0) (watcher env c.server.hist fpath) _ x
        (λ y ey ex.
          result_of _ x
            (kept-IsSound c.server c.up y.0 v
              (watcher-IsKept env c.server.hist fpath y v.valid hl hm ey))
            ex)
        e
  step-ConnSound c (accepts s) x v hl hm p e =
      if_all (λ x. ConnSound x.0) c.up _ _ x (λ _ e. result_of (c, ([], [])) x v e)
        (λ _ e.
          result_of
            (
              record {
                server = record c.server { tfd = none };
                waiting = idle;
                input = s;
                up = true;
              },
              ([], []),
            )
            x (record { valid = v.valid; held = λ u k. absurd (k refl) }) e)
        e
  step-ConnSound c (runs b) x v hl hm p e =
      if_all (λ x. ConnSound x.0) c.up _ _ x (λ u e. run_command-ConnSound b c x u v p e)
        (λ _ e. result_of (c, ([], [])) x v e) e

  -- Connections, turns of transfer and arrivals of files follow each other in any order, and every
  -- CLOSE comes while a file is open. With at most 3 types and memory, if the history is well formed
  -- at the beginning, and has an entry to remove if a file is open on a connection, then the same
  -- holds of the history and the connection that the run leads to.
  pub steps-ConnSound :
      (c : Conn) (es : List Event) (x : Conn × Output)
      → ConnSound c
      → length env.synctype ≤ fname_max
      → ((n : ℕ) → env.malloc n ≡ true)
      → AllCloses c es
      → steps env read_at l f c es ≡ ret x
      → ConnSound x.0
  unfolding steps
  steps-ConnSound c [] x v hl hm p e = result_of (c, ([], [])) x v e
  steps-ConnSound c (d ∷ es) x v hl hm p e =
      >>=-all (λ x. ConnSound x.0) (step env read_at l f c d) _ x
        (λ y ey e.
          >>=-all (λ x. ConnSound x.0) (steps env read_at l f y.0 es) _ x
            (λ z ez ex.
              result_of (z.0, (y.1.0 ++ z.1.0, y.1.1 ++ z.1.1)) x
                (steps-ConnSound y.0 es z (step-ConnSound c d y v hl hm p.0 ey) hl hm (p.1 y ey) ez)
                ex)
            e)
        e
