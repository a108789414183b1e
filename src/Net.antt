-- ===== src/Net.antt =====
-- src/jitcclient.c and src/jitcclient.h: requests and replies over a stream socket. The layout of
-- `struct trans_cmd` in memory, which the compiler fixes, is a parameter.
pub mod Read
pub mod Request
pub mod Get
pub mod File
mod Tests
use mathlib.Core.Option
use jit_dt.Common.{
  ℕ, zero, suc, ◌+◌, ◌-◌, ◌^◌, Bool, true, false, List, [], ◌∷◌, ◌++◌, Option, none, some, Bytes,
  codes, str_eq, leb, ◌==◌, if◌then◌else◌, length, take, drop, get_or, ℤ, pos, negsuc, map,
  replicate, not,
}

-- What is to arrive at a socket, in the pieces in which it arrives.
pub data Stream : Type 0 where
  eof reset : Stream
  chunk : Bytes → Stream → Stream

-- `read(sock, buf, n)`: the bytes and what is left, or -1
unfoldable pub recv : Stream → ℕ → Option (Bytes × Stream)
recv eof n = some ([], eof)
recv reset n = none
recv (chunk c s) n = if leb (length c) n then some (c, s) else some (take n c, chunk (drop n c) s)

-- What `netread` leaves in its buffer, the result being the size or -1; `stopped`: the fuel is used
-- up.
pub data NetRead : Type 0 where
  received : Bytes → Stream → NetRead
  failed : Bytes → NetRead
  stopped : NetRead

abbrev pub behind : Bytes → NetRead → NetRead
behind b (received r s) = received (b ++ r) s
behind b (failed r) = failed (b ++ r)
behind b stopped = stopped

-- the loop of `netread` with `left` bytes to come
unfoldable pub netread : ℕ → Stream → ℕ → NetRead
netread zero s left = stopped
netread (suc f) s left = elim (recv s left) [
  | none ↦ failed []
  | some (b, r) ↦
      let rest = netread f r (left - length b) in
      if left == length b then received b r else behind b rest
]

-- The loop of `netwrite` over the results of `send`: how many bytes it takes, `none` for -1. The
-- bytes sent, and whether all were.
unfoldable pub netwrite : List (Option ℕ) → Bytes → Bytes × Bool
netwrite [] buf = ([], false)
netwrite (none ∷ sends) buf = ([], false)
netwrite (some n ∷ sends) buf =
    let (sent, all) = netwrite sends (drop n buf) in
    if leb (length buf) n then (buf, true) else (take n buf ++ sent, all)

abbrev pub cmd_max : ℕ
cmd_max = 8

abbrev pub cmd_exit : ℕ
cmd_exit = 4

abbrev pub transopt_size : ℕ
transopt_size = 3

-- `strcmd`
abbrev pub strcmd : List Bytes
strcmd =
    codes "    "
    ∷ codes "OPEN"
    ∷ codes "CLOS"
    ∷ codes "GET0"
    ∷ codes "EXIT"
    ∷ codes "STAT"
    ∷ codes "READ"
    ∷ codes "REPL"
    ∷ []

-- `struct trans_cmd`
pub record TransCmd : Type 0 where
  pub cmd : Bytes
  pub opt : List ℤ
  pub date : ℕ
  pub str : Bytes
  pub len : ℕ

-- The bytes of the structure, `TCMD_SIZE` of them.
pub record Layout : Type 0 where
  pub tcmd_size : ℕ
  pub pack : TransCmd → Bytes
  pub unpack : Bytes → TransCmd

-- the loop of `trans_getcmd` over the names from number `i`
unfoldable pub find_cmd : List Bytes → ℕ → Bytes → ℕ
find_cmd [] i cmd = cmd_exit
find_cmd (x ∷ xs) i cmd =
    let rest = find_cmd xs (i + 1) cmd in if str_eq (take 4 cmd) x then i else rest

-- `trans_getcmd`: the command, the options and what is left; `no_command` is the result CMD_EXIT with
-- options that are not set, `endless` a read that does not end with the fuel.
pub data Command : Type 0 where
  command : ℕ → List ℤ → Stream → Command
  no_command endless : Command

-- the structure that `netsendreq` and `netsendreq2` fill
unfoldable pub request_bytes : Layout → ℕ → List ℤ → Bytes
request_bytes l cmd opts =
    l.pack (record { cmd = get_or strcmd cmd []; opt = opts; date = 0; str = []; len = 0 })

-- The bytes that `netsendreq` and `netsendreq2` send, `none` for the result -1.
unfoldable pub netsendreq : Layout → ℕ → List ℤ → Option Bytes
netsendreq l cmd opts = if leb cmd_max cmd then none else some (request_bytes l cmd opts)

unfoldable pub trans_getcmd : Layout → ℕ → Stream → Command
trans_getcmd l fuel s = elim (netread fuel s l.tcmd_size) [
  | stopped ↦ endless
  | failed b ↦ no_command
  | received b r ↦ let tcmd = l.unpack b in command (find_cmd (drop 1 strcmd) 1 tcmd.cmd) tcmd.opt r
]

-- `trans_replyget`: header and data
unfoldable pub trans_replyget : Layout → ℕ → Bytes → Bytes → List ℤ → Bytes
trans_replyget l date fname buf retval =
    l.pack (record {
      cmd = get_or strcmd 7 [];
      opt = retval;
      date = date;
      str = take 255 fname;
      len = length buf;
    })
    ++ buf

-- an `int` as a `size_t`
unfoldable pub size_t : ℤ → ℕ
size_t (pos n) = n
size_t (negsuc n) = 2 ^ 64 - 1 - n

-- the loop of `_jitget` over the entries; `size` are the sizes of the request, `opt` those of the
-- reply: the writes to `data` with their offsets; `none` for a read that does not end.
unfoldable pub fetch_loop : ℕ → Stream → ℕ → List ℕ → List ℤ → Option (List (ℕ × Bytes))
fetch_loop fuel s ptr [] opt = some []
fetch_loop fuel s ptr (b ∷ size) [] = some []
fetch_loop fuel s ptr (b ∷ size) (o ∷ opt) = elim (netread fuel s (size_t o)) [
  | stopped ↦ none
  | failed d ↦ Option.map (◌∷◌ (ptr, d)) (fetch_loop fuel reset (ptr + b) size opt)
  | received d r ↦ Option.map (◌∷◌ (ptr, d)) (fetch_loop fuel r (ptr + b) size opt)
]

pub data Fetch : Type 0 where
  fetched : Bytes → List (ℕ × Bytes) → List ℤ → Fetch
  refused endless : Fetch

-- the options of a request for at most 3 sizes
abbrev pub request : List ℕ → List ℤ
request asked = map pos asked ++ replicate (transopt_size - length asked) (pos 0)

-- behind the header: the name, the entries, the sizes
unfoldable pub fetch_data : ℕ → List ℕ → Stream → TransCmd → Fetch
fetch_data fuel asked r tcmd = elim (fetch_loop fuel r 0 asked tcmd.opt) [
  | none ↦ endless
  | some ws ↦ fetched (take 255 tcmd.str) ws (take (length asked) tcmd.opt)
]

unfoldable pub fetch_reply : Layout → ℕ → List ℕ → NetRead → Fetch
fetch_reply l fuel asked stopped = endless
fetch_reply l fuel asked (failed b) = refused
fetch_reply l fuel asked (received b r) = fetch_data fuel asked r (l.unpack b)

-- The command is CMD_GET, below CMD_MAX.
unfoldable pub fetch : Layout → ℕ → List (Option ℕ) → Stream → List ℕ → Bytes × Fetch
fetch l fuel sends s asked =
    let (sent, all) = netwrite sends (request_bytes l 3 (request asked)) in
    (sent, if not all then refused else fetch_reply l fuel asked (netread fuel s l.tcmd_size))

-- `_jitget` on a socket, for the sizes of the entries: the request sent, and the name, the writes and
-- the sizes. At most 3 entries are asked for.
unfoldable pub jitget : Layout → ℕ → List (Option ℕ) → Stream → List ℕ → Bytes × Fetch
jitget l fuel sends s size = fetch l fuel sends s (take transopt_size size)
