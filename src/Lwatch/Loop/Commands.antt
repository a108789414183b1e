-- ===== src/Lwatch/Loop/Commands.antt =====
-- A file that a client opens, reads and closes over one connection.
use jit_dt.Common.{
  ℕ, ◌+◌, ◌<◌, ◌≡◌, refl, ap, ◌∙◌, true, false, List, [], ◌∷◌, ◌++◌, Option, none, some, Bytes,
  length, take, drop, All, arith, map, ℤ, pos, pos_part,
}
use jit_dt.Common.Arrays.{append_assoc, append_nil, take-more, drop-more}
use jit_dt.Common.Outcome.{ret, load}
use jit_dt.Hist.{Hist, unlinks}
use jit_dt.Hist.Valid.{IsValid, entry_at, removed_slot}
use jit_dt.Hist.Valid
use jit_dt.Hist.Take.{histremove_lem}
use jit_dt.Client.{Reading, got}
use jit_dt.Client.Get.{sum}
use jit_dt.Net.{Stream, Layout, command, trans_getcmd, size_t}
use jit_dt.Net.Read.{pending, chunks}
use jit_dt.Net.Request.{Packs, asks, getcmd-Asked}
use jit_dt.Net.Get.{joined}
use jit_dt.Lwatch.{
  Env, Server, Reply, opened, read, Turn, served, System, serve, cmd_open, cmd_read, cmd_close,
}
use jit_dt.Lwatch.Serve.{histget-entry, load_front}
use jit_dt.Lwatch.Loop.{
  Conn, Event, runs, Output, idle, next_command, woken, after_turn, run_command, step, steps,
}

-- the options of a request for one number
abbrev pub one_number : ℕ → List ℤ
one_number n = pos n ∷ pos 0 ∷ pos 0 ∷ []

-- the requests for sizes, and the one to close
abbrev pub read_requests : Layout → List ℕ → Bytes
read_requests l [] = l.pack (asks 2 (one_number 0))
read_requests l (n ∷ ns) = l.pack (asks 6 (one_number n)) ++ read_requests l ns

-- the parts of a file that reads of given sizes give, from a place on
abbrev pub portions : Bytes → ℕ → List ℕ → List Bytes
portions bytes o [] = []
portions bytes o (n ∷ ns) = let b = take n (drop o bytes) in b ∷ portions bytes (o + length b) ns

joined-portions :
    (bytes : Bytes) (ns : List ℕ) (o : ℕ)
    → joined (portions bytes o ns) ≡ take (sum ns) (drop o bytes)
joined-portions bytes [] o = refl
joined-portions bytes (n ∷ ns) o =
    let b = take n (drop o bytes) in
    ap (λ r. b ++ r)
      (joined-portions bytes ns (o + length b) ∙ ap (take (sum ns)) (drop-more (length b) o bytes))
    ∙ take-more n (sum ns) (drop o bytes)

abbrev pub conn : Server → Stream → Conn
conn s input = record { server = s; waiting = idle; input = input; up = true }

abbrev pub with_tfd : Server → Option (Bytes × ℕ) → Server
with_tfd s tfd = record s { tfd = tfd }

module _ (env : Env) (read_at : Bytes → ℕ → ℕ → Reading) (l : Layout) (f : ℕ) (b : System) where
  step-served :
      (s : Server) (cmd : ℕ) (opt : List ℤ) (input left : Stream) (t : Turn)
      → trans_getcmd l f input ≡ command cmd opt left
      → serve read_at b s cmd opt ≡ ret t
      → step env read_at l f (conn s input) (runs b)
        ≡ ret (after_turn (conn s input) cmd opt left t)
  unfolding step run_command next_command woken
  step-served s cmd opt input left t e1 e2 =
      rw (step, run_command, next_command, woken, e1, e2) refl

  serve-read :
      (s : Server) (name bytes : Bytes) (o n : ℕ)
      → ((o n : ℕ) → read_at name o n ≡ got (take n (drop o bytes)))
      → let x = take n (drop o bytes) in
        serve read_at b (with_tfd s (some (name, o))) 6 (one_number n)
        ≡ ret (served (with_tfd s (some (name, o + length x))) (some (read x)) [] true)
  unfolding serve cmd_read size_t
  serve-read s name bytes o n hr = rw (serve, cmd_read, hr o n) refl

  serve-close :
      (s : Server)
      → IsValid s.hist
      → 0 < pos_part s.hist.numhist
      → (h : Hist) × (serve read_at b s 2 (one_number 0)
          ≡ ret (
              served
                (record s { hist = h; tfd = none })
                none
                (unlinks (entry_at s.hist (removed_slot s.hist)).fname)
                false))
        × IsValid h
        × (Valid.pending h ≡ drop 1 (Valid.pending s.hist))
  unfolding serve cmd_close
  serve-close s v hp =
      let (h, e, w, q) = histremove_lem v hp in (h, (rw (serve, cmd_close, e) refl), w, q)

  serve-open :
      (s : Server) (name bytes : Bytes) (type : ℕ)
      → IsValid s.hist
      → 0 < pos_part s.hist.numhist
      → load (entry_at s.hist s.hist.conshistp).fname type ≡ ret (some name)
      → ((o n : ℕ) → read_at name o n ≡ got (take n (drop o bytes)))
      → serve read_at b s 1 (one_number type)
        ≡ ret (served (with_tfd s (some (name, 0))) (some (opened name)) [] true)
  unfolding serve cmd_open size_t
  serve-open s name bytes type v hp hf hr =
      rw (serve, cmd_open, histget-entry v hp, load_front v, hf, hr 0 0) refl

  steps_cons :
      (c c' c'' : Conn) (e : Event) (rest : List Event) (x y : Output)
      → step env read_at l f c e ≡ ret (c', x)
      → steps env read_at l f c' rest ≡ ret (c'', y)
      → steps env read_at l f c (e ∷ rest) ≡ ret (c'', (x.0 ++ y.0, x.1 ++ y.1))
  unfolding steps
  steps_cons c c' c'' e rest x y e1 e2 = rw (steps, e1, e2) refl

-- A connection that has ended with CLOSE: what is left of its bytes, and the history.
pub record Closed (env : Env) (read_at : Bytes → ℕ → ℕ → Reading) (l : Layout) (f : ℕ) (c : Conn)
    (events : List Event) (rs : List Reply) (more : Bytes) : Type 0 where
  pub left : Stream
  pub hist : Hist
  pub others : pending left ≡ more
  pub valid : IsValid hist
  pub taken : Valid.pending hist ≡ drop 1 (Valid.pending c.server.hist)
  pub ran :
      steps env read_at l f c events
      ≡ ret (
        record {
          server = record c.server { hist = hist; tfd = none };
          waiting = idle;
          input = left;
          up = false;
        },
        (rs, unlinks (entry_at c.server.hist (removed_slot c.server.hist)).fname),
      )

module _ (env : Env) (read_at : Bytes → ℕ → ℕ → Reading) (l : Layout) (f : ℕ) (b : System)
    (s : Server) (name bytes more : Bytes) (v : IsValid s.hist) (hp : 0 < pos_part s.hist.numhist)
    (hr : (o n : ℕ) → read_at name o n ≡ got (take n (drop o bytes)))
    (pc : Packs l (asks 2 (one_number 0))) where
  reads-Closed :
      (ns : List ℕ) (o : ℕ) (input : Stream)
      → All (λ n. Packs l (asks 6 (one_number n))) ns
      → chunks input < f
      → pending input ≡ read_requests l ns ++ more
      → Closed env read_at l f
          (conn (with_tfd s (some (name, o))) input)
          (map (λ _. runs b) ns ++ (runs b ∷ []))
          (map read (portions bytes o ns))
          more
  unfolding steps after_turn
  reads-Closed [] o input h hc e =
      let a = getcmd-Asked l 2 (one_number 0) more input f pc (omega arith) (omega arith) hc e in
      let (hist, turn, w, q) = serve-close env read_at l f b (with_tfd s (some (name, o))) v hp in
      let freed = unlinks (entry_at s.hist (removed_slot s.hist)).fname in
      let ended : Conn = record {
        server = record s { hist = hist; tfd = none };
        waiting = idle;
        input = a.rest;
        up = false;
      } in
      let first = step-served env read_at l f b _ 2 (one_number 0) input a.rest _ a.returned turn in
      record {
        left = a.rest;
        hist = hist;
        others = a.left;
        valid = w;
        taken = q;
        ran =
            steps_cons env read_at l f b _ _ _ (runs b) [] _ ([], []) first refl
            ∙ ap (λ es. ret (ended, ([], es))) (append_nil freed);
      }
  reads-Closed (n ∷ ns) o input h hc e =
      let x = take n (drop o bytes) in
      let a =
        getcmd-Asked l 6 (one_number n) (read_requests l ns ++ more) input f h.0 (omega arith)
          (omega arith) hc (e ∙ append_assoc _ (read_requests l ns) more) in
      let r = reads-Closed ns (o + length x) a.rest h.1 (omega (arith, hc, a.chunks_le)) a.left in
      let first =
        step-served env read_at l f b _ 6 (one_number n) input a.rest _ a.returned
          (serve-read env read_at l f b s name bytes o n hr) in
      record {
        left = r.left;
        hist = r.hist;
        others = r.others;
        valid = r.valid;
        taken = r.taken;
        ran = steps_cons env read_at l f b _ _ _ (runs b) _ _ _ first r.ran;
      }

  -- A well-formed history has a pending entry, whose oldest one has a name for the type, and a read of
  -- that file gives what is asked for as far as it goes. A client sends the requests OPEN for the type,
  -- any number of READ and CLOSE, which arrive in any pieces, and the structures can be read from
  -- their bytes. Then, with more fuel than pieces, as many turns of transfer reply with the name and
  -- with the parts of the file, which together are its front of the length that was asked for; at the
  -- end the oldest entry is off the history, which stays well formed, the connection is over, and
  -- what follows the requests is left.
  pub steps-Closed :
      (type : ℕ) (ns : List ℕ) (input : Stream)
      → Packs l (asks 1 (one_number type))
      → All (λ n. Packs l (asks 6 (one_number n))) ns
      → load (entry_at s.hist s.hist.conshistp).fname type ≡ ret (some name)
      → chunks input < f
      → pending input ≡ l.pack (asks 1 (one_number type)) ++ (read_requests l ns ++ more)
      → Closed env read_at l f
          (conn s input)
          (runs b ∷ (map (λ _. runs b) ns ++ (runs b ∷ [])))
          (opened name ∷ map read (portions bytes 0 ns))
          more
        × (joined (portions bytes 0 ns) ≡ take (sum ns) bytes)
  unfolding after_turn
  steps-Closed type ns input po h hf hc e =
      let a =
        getcmd-Asked l 1 (one_number type) (read_requests l ns ++ more) input f po (omega arith)
          (omega arith) hc e in
      let r = reads-Closed ns 0 a.rest h (omega (arith, hc, a.chunks_le)) a.left in
      let first =
        step-served env read_at l f b _ 1 (one_number type) input a.rest _ a.returned
          (serve-open env read_at l f b s name bytes type v hp hf hr) in
      (
        record {
          left = r.left;
          hist = r.hist;
          others = r.others;
          valid = r.valid;
          taken = r.taken;
          ran = steps_cons env read_at l f b _ _ _ (runs b) _ _ _ first r.ran;
        },
        joined-portions bytes ns 0,
      )
