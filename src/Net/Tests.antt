-- ===== src/Net/Tests.antt =====
-- Requests and replies on concrete inputs, and the theorems at inputs that meet their hypotheses.
use jit_dt.Common.{
  ℕ, ◌+◌, ◌≡◌, refl, List, [], ◌∷◌, ◌++◌, some, Bytes, codes, take, drop, get_or, map, arith, ℤ,
  pos, negsuc, true,
}
use jit_dt.Net.{
  Stream, eof, chunk, stopped, netread, Layout, request_bytes, netsendreq, netwrite, trans_getcmd,
  command, trans_replyget, request, fetched, jitget,
}
use jit_dt.Net.Read.{pending, Reads, netread-closed, netread-Reads}
use jit_dt.Net.Request.{Packs, asks, getcmd-netsendreq}
use jit_dt.Net.Get.{announced, joined, places, answers, jitget-replyget}

abbrev word : ℤ → ℕ
word (pos n) = n
word (negsuc n) = 0

-- A layout with one byte for a number, and room for a string of `n` bytes.
abbrev small : ℕ → Layout
small n = record {
  tcmd_size = 9 + n;
  pack = λ c. c.cmd ++ (map word c.opt ++ (c.date ∷ c.len ∷ c.str));
  unpack = λ b. record {
    cmd = take 4 b;
    opt = map pos (take 3 (drop 4 b));
    date = get_or b 7 0;
    len = get_or b 8 0;
    str = drop 9 b;
  };
}

abbrev opts : List ℤ
opts = pos 3 ∷ pos 2 ∷ pos 0 ∷ []

get-Packs : Packs (small 0) (asks 3 opts)
get-Packs = record { size = refl; size_pos = omega arith; same = refl }

-- a request that arrives in two pieces, the second with a byte of the next one
abbrev pieces : Stream
pieces = chunk (codes "GE") (chunk (codes "T0" ++ (3 ∷ 2 ∷ 0 ∷ 0 ∷ 0 ∷ 9 ∷ [])) eof)

abbrev request_sent : Bytes
request_sent = codes "GET0" ++ (3 ∷ 2 ∷ 0 ∷ 0 ∷ 0 ∷ [])

get_sent : netsendreq (small 0) 3 opts ≡ some request_sent
unfolding netsendreq request_bytes
get_sent = refl

getcmd-netsendreq_example :
    (r : Stream) × (trans_getcmd (small 0) 5 pieces ≡ command 3 opts r) × (pending r ≡ 9 ∷ [])
getcmd-netsendreq_example =
    getcmd-netsendreq (small 0) 3 opts request_sent (9 ∷ []) pieces 5 get-Packs (omega arith)
      (omega arith) get_sent refl

abbrev data_of : List Bytes
data_of = codes "abc" ∷ codes "z" ∷ []

abbrev reply : Stream
reply =
    chunk (codes "REPL" ++ (3 ∷ 1 ∷ []))
      (chunk (0 ∷ 5 ∷ 4 ∷ codes "f;g" ++ codes "ab") (chunk (codes "cz") eof))

reply-Packs : Packs (small 3) (answers 5 (codes "f;g") (announced data_of ++ (pos 0 ∷ [])) 4)
reply-Packs = record { size = refl; size_pos = omega arith; same = refl }

reply_arrives :
    pending reply
    ≡ trans_replyget (small 3) 5 (codes "f;g") (joined data_of) (announced data_of ++ (pos 0 ∷ []))
      ++ []
unfolding trans_replyget
reply_arrives = refl

sent : (netwrite (some 40 ∷ []) (request_bytes (small 3) 3 (request (8 ∷ 6 ∷ [])))).1 ≡ true
unfolding netwrite request_bytes
sent = refl

jitget-replyget_example :
    (jitget (small 3) 9 (some 40 ∷ []) reply (8 ∷ 6 ∷ [])).1
    ≡ fetched (codes "f;g") (places 0 (8 ∷ 6 ∷ []) data_of) (announced data_of)
jitget-replyget_example =
    jitget-replyget (small 3) 9 (some 40 ∷ []) reply (8 ∷ 6 ∷ []) data_of (pos 0 ∷ []) 5
      (codes "f;g") [] reply-Packs sent (omega arith) refl (omega arith, (omega arith, tt))
      (omega arith) reply_arrives

read_of_closed : netread 1000 (chunk (codes "GET0") eof) 9 ≡ stopped
read_of_closed = netread-closed 1000 (chunk (codes "GET0") eof) 9 tt (omega arith)

first_five : Reads 5 pieces (netread 3 pieces 5)
first_five = netread-Reads 3 pieces 5 (omega arith) (omega arith) (omega arith)
