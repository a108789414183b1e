-- ===== src/Lwatch/Loop.antt =====
-- src/lwatcher.c: the loops of transfer over connections and over the commands of one, with the calls
-- of watcher of the other thread between its turns. A turn that waits is made again with the same
-- command. The calls of both threads are a sequence of events.
pub mod Commands
pub mod Sound
pub mod Arrivals
pub mod Kept
mod Tests
use jit_dt.Common.{
  ℕ, ◌-◌, Bool, true, false, List, [], ◌∷◌, ◌++◌, Option, none, some, Bytes, if◌then◌else◌, ℤ,
}
use jit_dt.Common.Outcome.{Outcome, ret, ◌>>=◌}
use jit_dt.Hist.{Effect, histwait_wake}
use jit_dt.Client.{Reading}
use jit_dt.Net.{Stream, Layout, Command, command, no_command, endless, trans_getcmd}
use jit_dt.Lwatch.{Env, watcher, Server, Reply, Turn, served, waits, waits_type, System, serve}

-- The command that waits: in histget for an entry, or in histwait for the type of an entry.
pub data Wait : Type 0 where
  idle : Wait
  on_entry on_type : ℕ → List ℤ → Wait

-- A connection, if `up`, with the command that waits and what is to arrive.
pub record Conn : Type 0 where
  pub server : Server
  pub waiting : Wait
  pub input : Stream
  pub up : Bool

-- A file arrives, accept gives a connection, which is called for only where none is up, or transfer
-- makes a turn, with what the system answers in GET.
pub data Event : Type 0 where
  arrives : Bytes → Event
  accepts : Stream → Event
  runs : System → Event

-- the replies, and what is done to files and to the other thread
abbrev pub Output : Type 0
Output = List Reply × List Effect

abbrev pub replies : Option Reply → List Reply
replies none = []
replies (some r) = r ∷ []

unfoldable pub next_command : Layout → ℕ → Conn → Command
next_command l fuel c = elim c.waiting [
  | idle ↦ trans_getcmd l fuel c.input
  | on_entry cmd opt ↦ command cmd opt c.input
  | on_type cmd opt ↦ command cmd opt c.input
]

-- behind the wait of histget or histwait
unfoldable pub woken : Wait → Server → Server
woken idle s = s
woken (on_entry cmd opt) s = record s { hist = record s.hist { waithist = s.hist.waithist - 1 } }
woken (on_type cmd opt) s = record s { hist = histwait_wake s.hist }

-- `goto next` for a turn that ends the connection
unfoldable pub after_turn : Conn → ℕ → List ℤ → Stream → Turn → Conn × Output
after_turn c cmd opt r (served s reply es connected) =
    (record { server = s; waiting = idle; input = r; up = connected }, (replies reply, es))
after_turn c cmd opt r (waits h) = (
  record c { server = record c.server { hist = h }; waiting = on_entry cmd opt; input = r },
  ([], []),
)
after_turn c cmd opt r (waits_type h) = (
  record c { server = record c.server { hist = h }; waiting = on_type cmd opt; input = r },
  ([], []),
)

module _ (env : Env) (read_at : Bytes → ℕ → ℕ → Reading) (l : Layout) (fuel : ℕ) where
  -- one turn of the loop over the commands; a read that fails is CMD_EXIT
  unfoldable pub run_command : System → Conn → Outcome (Conn × Output)
  run_command sys c = elim (next_command l fuel c) [
    | endless ↦ ret (c, ([], []))
    | no_command ↦ ret (record c { up = false }, ([], []))
    | command cmd opt r ↦
        serve read_at sys (woken c.waiting c.server) cmd opt
        >>= (λ t. ret (after_turn c cmd opt r t))
  ]

  unfoldable pub step : Conn → Event → Outcome (Conn × Output)
  step c (arrives fpath) =
      watcher env c.server.hist fpath
      >>= (λ x. ret (record c { server = record c.server { hist = x.0 } }, ([], x.1)))
  step c (accepts s) =
      if c.up
      then ret (c, ([], []))
      else ret (
        record { server = record c.server { tfd = none }; waiting = idle; input = s; up = true },
        ([], []),
      )
  step c (runs sys) = if c.up then run_command sys c else ret (c, ([], []))

  unfoldable pub steps : Conn → List Event → Outcome (Conn × Output)
  steps c [] = ret (c, ([], []))
  steps c (e ∷ es) =
      step c e >>= (λ x. steps x.0 es >>= (λ y. ret (y.0, (x.1.0 ++ y.1.0, x.1.1 ++ y.1.1))))
