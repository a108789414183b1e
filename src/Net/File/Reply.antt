-- ===== src/Net/File/Reply.antt =====
-- Reading and opening a file over the socket: what the client makes of the server's replies.
use jit_dt.Common.{
  ℕ, zero, suc, ◌<◌, ◌≡◌, ◌≢◌, refl, ap, ◌∙◌, true, List, [], ◌∷◌, ◌++◌, Option, none, some, Bytes,
  length, take, drop, get_or, All, arith, length-append, ℤ, pos,
}
use jit_dt.Common.Arrays.{append_assoc, take-front, drop-front}
use jit_dt.Net.{Stream, Layout, TransCmd, strcmd, netread, netwrite, request_bytes, received}
use jit_dt.Net.Read.{pending, chunks, netread-Reads}
use jit_dt.Net.Request.{Packs, netread-Header}
use jit_dt.Net.File.{
  trans_replyopen, trans_replyread, reply, recv_data, netrecvreply, strcpy, open_reply, overrun,
  jitopen, read_data, stored, read_answer, jitread,
}

-- The structure of the reply to a read, and of the reply to an open.
abbrev pub read_header : TransCmd → Bytes → TransCmd
read_header unset buf = record unset { cmd = get_or strcmd 7 []; len = length buf }

abbrev pub open_header : TransCmd → Bytes → ℕ → TransCmd
open_header unset fpath rcc = record unset {
  cmd = get_or strcmd 7 [];
  opt = pos rcc ∷ drop 1 unset.opt;
  len = length fpath;
}

-- the data of a reply in front of what is to arrive
record Behind (f : ℕ) (s : Stream) (d more : Bytes) : Type 0 where
  rest : Stream
  returned : netread f s (length d) ≡ received d rest
  left : pending rest ≡ more

netread-Behind :
    (f : ℕ) (s : Stream) (d more : Bytes)
    → chunks s < f
    → 0 < length d
    → pending s ≡ d ++ more
    → Behind f s d more
netread-Behind f s d more hf hd e =
    let r = netread-Reads f s (length d) hf (omega (arith, length-append d more, ap length e)) hd in
    record {
      rest = r.rest;
      returned =
          r.returned
          ∙ ap (λ b. received b r.rest)
              (ap (take (length d)) e ∙ take-front d more (length d) refl);
      left = r.left ∙ ap (drop (length d)) e ∙ drop-front d more (length d) refl;
    }

-- If the request can be sent and the structure of the reply can be read from its bytes, then for
-- data that is not empty and any pieces in which the reply of trans_replyread and other bytes
-- arrive, jitread, with more fuel than pieces, stores exactly the data, whatever size it asked for,
-- and leaves exactly the other bytes.
pub jitread-replyread :
    (l : Layout) (f : ℕ) (sends : List (Option ℕ)) (s : Stream) (size : ℤ) (unset : TransCmd)
    (buf more : Bytes)
    → Packs l (read_header unset buf)
    → (netwrite sends (request_bytes l 6 (size ∷ pos 0 ∷ pos 0 ∷ []))).1 ≡ true
    → 0 < length buf
    → chunks s < f
    → pending s ≡ trans_replyread l unset buf ++ more
    → (r : Stream) × ((jitread l f sends s size).1 ≡ stored buf r) × (pending r ≡ more)
unfolding jitread trans_replyread read_answer read_data
jitread-replyread l f sends s size unset buf more p hs hb hf e =
    let c = read_header unset buf in
    let h = netread-Header l c (buf ++ more) s f p hf (e ∙ append_assoc (l.pack c) buf more) in
    let d = netread-Behind f h.rest buf more (omega (arith, h.chunks_le)) hb h.left in
    let len = ap (λ x. x.len) p.same in
    (d.rest, rw (jitread, hs, h.returned, read_answer, len, d.returned, read_data) refl, d.left)

strcpy-unended : (s : Bytes) → All (λ c. c ≢ 0) s → strcpy s ≡ none
unfolding strcpy
strcpy-unended [] h = refl
strcpy-unended (zero ∷ s) (c, h) = absurd (c refl)
strcpy-unended (suc n ∷ s) (c, h) = rw (strcpy, strcpy-unended s h) refl

recv_reply :
    (l : Layout) (f : ℕ) (s : Stream) (c : TransCmd) (d : Bytes) (r r' : Stream)
    → netread f s l.tcmd_size ≡ received (l.pack c) r
    → l.unpack (l.pack c) ≡ c
    → netread f r c.len ≡ received d r'
    → netrecvreply l f s ≡ reply c d r'
unfolding netrecvreply recv_data
recv_reply l f s c d r r' e p g =
    rw (netrecvreply, e) (ap (λ x. recv_data x (netread f r x.len)) p ∙ ap (recv_data c) g)

-- If the request can be sent and the structure of the reply can be read from its bytes, then for
-- every path without a null byte that trans_replyopen sends as found, and any pieces in which its
-- bytes and others arrive, jitopen, with more fuel than pieces, copies the name from behind the end
-- of the reply: the null byte of the path is not sent.
pub jitopen-replyopen :
    (l : Layout) (f : ℕ) (sends : List (Option ℕ)) (s : Stream) (type : ℤ) (unset : TransCmd)
    (fpath more : Bytes) (rcc : ℕ)
    → Packs l (open_header unset fpath rcc)
    → (netwrite sends (request_bytes l 1 (type ∷ pos 0 ∷ pos 0 ∷ []))).1 ≡ true
    → 0 < length fpath
    → All (λ c. c ≢ 0) fpath
    → chunks s < f
    → pending s ≡ trans_replyopen l unset (some fpath) (pos rcc) ++ more
    → (jitopen l f sends s type).1 ≡ overrun
unfolding jitopen trans_replyopen netrecvreply recv_data open_reply
jitopen-replyopen l f sends s type unset fpath more rcc p hs hb h0 hf e =
    let c = open_header unset fpath rcc in
    let h = netread-Header l c (fpath ++ more) s f p hf (e ∙ append_assoc (l.pack c) fpath more) in
    let d = netread-Behind f h.rest fpath more (omega (arith, h.chunks_le)) hb h.left in
    let received_c = recv_reply l f s c fpath h.rest d.rest h.returned p.same d.returned in
    rw (jitopen, hs, received_c, open_reply, strcpy-unended fpath h0) refl
