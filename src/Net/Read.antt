-- ===== src/Net/Read.antt =====
-- netread: any way in which the bytes arrive gives the same result, and an early end of the stream
-- gives none.
use jit_dt.Common.{
  ℕ, zero, suc, ◌-◌, ◌≤◌, ◌<◌, ◌≡◌, refl, sym, ◌∙◌, true, [], ◌++◌, some, Bytes, leb, ◌==◌, length,
  take, drop, arith, length-append, length-take, Bool-cases, ◌⊎◌, inl, inr, ne→==, ==_iff,
}
use native.Mathlib.Decide.{ℕ_discrete}
use jit_dt.Common.Arrays.{take-append, drop-append, take-within, drop-within, append_nil}
use jit_dt.Net.{Stream, eof, reset, chunk, recv, NetRead, received, stopped, netread}

-- all that is to arrive, and in how many pieces
abbrev pub pending : Stream → Bytes
pending eof = []
pending reset = []
pending (chunk c s) = c ++ pending s

abbrev pub chunks : Stream → ℕ
chunks eof = 0
chunks reset = 0
chunks (chunk c s) = suc (chunks s)

-- The peer closes the connection in order.
abbrev pub IsClosed : Stream → Type 0
IsClosed eof = Unit
IsClosed reset = ⊥
IsClosed (chunk c s) = IsClosed s

recv-chunk :
    (c : Bytes) (s : Stream) (n : ℕ)
    → ((length c ≤ n) × (recv (chunk c s) n ≡ some (c, s)))
      ⊎ ((n < length c) × (recv (chunk c s) n ≡ some (take n c, chunk (drop n c) s)))
unfolding recv
recv-chunk c s n = elim (Bool-cases (leb (length c) n)) [
  | inl e ↦ inl (ground arith, rw e refl)
  | inr e ↦ inr (ground arith, rw e refl)
]

recv-eof : (n : ℕ) → recv eof n ≡ some ([], eof)
unfolding recv
recv-eof n = refl

-- All of the size arrives: the first bytes, and the others are left for the next read.
pub record Reads (size : ℕ) (s : Stream) (x : NetRead) : Type 0 where
  pub rest : Stream
  pub returned : x ≡ received (take size (pending s)) rest
  pub left : pending rest ≡ drop size (pending s)
  pub chunks_le : chunks rest ≤ chunks s

netread-empty :
    (f : ℕ) (s : Stream) (size : ℕ)
    → IsClosed s
    → 0 < size
    → length (pending s) < size
    → netread f s size ≡ stopped
unfolding netread
netread-empty zero s size c p h = refl
netread-empty (suc f) eof size c p h =
    let rest = netread-empty f eof (size - 0) c (omega arith) (omega arith) in
    rw (netread, recv-eof size, ne→== size 0 (omega arith), rest) refl
netread-empty (suc f) reset size c p h = absurd c
netread-empty (suc f) (chunk b s) size c p h =
    let long = length-append b (pending s) in
    let rest = netread-empty f s (size - length b) c (omega (arith, long)) (omega (arith, long)) in
    elim (recv-chunk b s size) [
      | inl (_, e) ↦ rw (netread, e, ne→== size (length b) (omega (arith, long)), rest) refl
      | inr (l, _) ↦ absurd (omega (arith, long))
    ]

-- When the peer closes the connection before all bytes of the size have come, netread never ends:
-- no amount of fuel is enough.
pub netread-closed :
    (f : ℕ) (s : Stream) (size : ℕ)
    → IsClosed s
    → length (pending s) < size
    → netread f s size ≡ stopped
netread-closed f s size c h = netread-empty f s size c (omega arith) h

-- If at least the size arrives, then netread, with more fuel than pieces, returns the first bytes
-- of that number whatever the pieces are, and leaves exactly the others.
pub netread-Reads :
    (f : ℕ) (s : Stream) (size : ℕ)
    → chunks s < f
    → size ≤ length (pending s)
    → 0 < size
    → Reads size s (netread f s size)
unfolding netread
netread-Reads zero s size hf h p = absurd (omega arith)
netread-Reads (suc f) eof size hf h p = absurd (omega arith)
netread-Reads (suc f) reset size hf h p = absurd (omega arith)
netread-Reads (suc f) (chunk b s) size hf h p =
    let long = length-append b (pending s) in
    elim (recv-chunk b s size) [
      | inr (l, part) ↦
          let full : (size == length (take size b)) ≡ true =
            (==_iff size _).1 (omega (arith, length-take size b)) in
          record {
            rest = chunk (drop size b) s;
            returned = rw (netread, part, full, take-within b (pending s) size (omega arith)) refl;
            left = sym (drop-within b (pending s) size (omega arith));
            chunks_le = omega arith;
          }
      | inl (g, whole) ↦ elim (ℕ_discrete size (length b)) [
        | yes e ↦
            let full : (size == length b) ≡ true = (==_iff size _).1 e in
            let none_left : size - length b ≡ 0 = omega arith in
            record {
              rest = s;
              returned =
                  rw
                    (
                      netread,
                      whole,
                      full,
                      take-append b (pending s) size (omega arith),
                      none_left,
                      append_nil b,
                    )
                    refl;
              left = rw (drop-append b (pending s) size (omega arith), none_left) refl;
              chunks_le = omega arith;
            }
        | no ne ↦
            let r =
              netread-Reads f s (size - length b) (omega arith) (omega (arith, long))
                (omega arith) in
            record {
              rest = r.rest;
              returned =
                  rw
                    (
                      netread,
                      whole,
                      ne→== size (length b) ne,
                      r.returned,
                      take-append b (pending s) size (omega arith),
                    )
                    refl;
              left = r.left ∙ sym (drop-append b (pending s) size (omega arith));
              chunks_le = omega (arith, r.chunks_le);
            }
      ]
    ]
