-- ===== src/Net/Request.antt =====
-- A request over the socket: what netsendreq sends is what trans_getcmd reads.
use jit_dt.Common.{
  ℕ, zero, suc, ◌≤◌, ◌<◌, ◌≡◌, inl, inr, Bool-cases, leb, refl, ap, ◌∙◌, List, [], ◌++◌, some,
  Bytes, length, take, drop, arith, length-append, ℤ, get_or, str_eq,
}
use jit_dt.Common.Arrays.{take-front, drop-front}
use jit_dt.Net.{
  Stream, NetRead, netread, received, Layout, TransCmd, strcmd, cmd_max, find_cmd, request_bytes,
  netsendreq, trans_getcmd, command,
}
use jit_dt.Net.Read.{pending, chunks, netread-Reads}

-- The structure takes `TCMD_SIZE` bytes, from which the same structure can be read.
pub record Packs (l : Layout) (c : TransCmd) : Type 0 where
  pub size : length (l.pack c) ≡ l.tcmd_size
  pub size_pos : 0 < l.tcmd_size
  pub same : l.unpack (l.pack c) ≡ c

-- A structure in front of what is to arrive is read whole.
pub record Header (l : Layout) (c : TransCmd) (more : Bytes) (s : Stream) (x : NetRead)
    : Type 0 where
  pub rest : Stream
  pub returned : x ≡ received (l.pack c) rest
  pub left : pending rest ≡ more
  pub chunks_le : chunks rest ≤ chunks s

pub netread-Header :
    (l : Layout) (c : TransCmd) (more : Bytes) (s : Stream) (f : ℕ)
    → Packs l c
    → chunks s < f
    → pending s ≡ l.pack c ++ more
    → Header l c more s (netread f s l.tcmd_size)
netread-Header l c more s f p hf e =
    let long = length-append (l.pack c) more in
    let r =
      netread-Reads f s l.tcmd_size hf (omega (arith, long, p.size, ap length e)) p.size_pos in
    record {
      rest = r.rest;
      returned =
          r.returned
          ∙ ap (λ b. received b r.rest)
              (ap (take l.tcmd_size) e ∙ take-front (l.pack c) more l.tcmd_size p.size);
      left = r.left ∙ ap (drop l.tcmd_size) e ∙ drop-front (l.pack c) more l.tcmd_size p.size;
      chunks_le = r.chunks_le;
    }

find_cmd-strcmd :
    (cmd : ℕ) → 1 ≤ cmd → cmd < cmd_max → find_cmd (drop 1 strcmd) 1 (get_or strcmd cmd []) ≡ cmd
unfolding find_cmd str_eq
find_cmd-strcmd zero h l = absurd (omega arith)
find_cmd-strcmd (suc zero) h l = refl
find_cmd-strcmd (suc (suc zero)) h l = refl
find_cmd-strcmd (suc (suc (suc zero))) h l = refl
find_cmd-strcmd (suc (suc (suc (suc zero)))) h l = refl
find_cmd-strcmd (suc (suc (suc (suc (suc zero))))) h l = refl
find_cmd-strcmd (suc (suc (suc (suc (suc (suc zero)))))) h l = refl
find_cmd-strcmd (suc (suc (suc (suc (suc (suc (suc zero))))))) h l = refl
find_cmd-strcmd (suc (suc (suc (suc (suc (suc (suc (suc n)))))))) h l = absurd (omega arith)

-- the structure of a request
abbrev pub asks : ℕ → List ℤ → TransCmd
asks cmd opts = record { cmd = get_or strcmd cmd []; opt = opts; date = 0; str = []; len = 0 }

netsendreq-some :
    (l : Layout) (cmd : ℕ) (opts : List ℤ) {sent : Bytes}
    → netsendreq l cmd opts ≡ some sent
    → (cmd < cmd_max) × (sent ≡ l.pack (asks cmd opts))
unfolding netsendreq request_bytes
netsendreq-some l cmd opts e = elim (Bool-cases (leb cmd_max cmd)) [
  | inl h ↦ cc (rw h at e)
  | inr h ↦ (ground arith, cc (rw h at e))
]

-- a request in front of what is to arrive
pub record Asked (l : Layout) (f cmd : ℕ) (opts : List ℤ) (more : Bytes) (s : Stream) : Type 0 where
  pub rest : Stream
  pub returned : trans_getcmd l f s ≡ command cmd opts rest
  pub left : pending rest ≡ more
  pub chunks_le : chunks rest ≤ chunks s

pub getcmd-Asked :
    (l : Layout) (cmd : ℕ) (opts : List ℤ) (more : Bytes) (s : Stream) (f : ℕ)
    → Packs l (asks cmd opts)
    → 1 ≤ cmd
    → cmd < cmd_max
    → chunks s < f
    → pending s ≡ l.pack (asks cmd opts) ++ more
    → Asked l f cmd opts more s
unfolding trans_getcmd
getcmd-Asked l cmd opts more s f p h1 h2 hf e =
    let r = netread-Header l (asks cmd opts) more s f p hf e in
    record {
      rest = r.rest;
      returned = rw (trans_getcmd, r.returned, p.same, find_cmd-strcmd cmd h1 h2) refl;
      left = r.left;
      chunks_le = r.chunks_le;
    }

-- If the structure of a request can be read from its bytes, then for a command other than 0 that
-- netsendreq sends, and any pieces in which its bytes and others arrive, trans_getcmd, with more
-- fuel than pieces, returns the command and the options that netsendreq was given, and leaves the
-- others.
pub getcmd-netsendreq :
    (l : Layout) (cmd : ℕ) (opts : List ℤ) (sent more : Bytes) (s : Stream) (f : ℕ)
    → Packs l (asks cmd opts)
    → 1 ≤ cmd
    → chunks s < f
    → netsendreq l cmd opts ≡ some sent
    → pending s ≡ sent ++ more
    → (r : Stream) × (trans_getcmd l f s ≡ command cmd opts r) × (pending r ≡ more)
getcmd-netsendreq l cmd opts sent more s f p h1 hf hs e =
    let (h2, bytes) = netsendreq-some l cmd opts hs in
    let r = getcmd-Asked l cmd opts more s f p h1 h2 hf (e ∙ ap (λ b. b ++ more) bytes) in
    (r.rest, r.returned, r.left)
