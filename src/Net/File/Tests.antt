-- ===== src/Net/File/Tests.antt =====
-- Opening and reading over a socket on concrete inputs, and the theorems at inputs that meet their
-- hypotheses.
use jit_dt.Common.{
  ℕ, ◌≡◌, refl, [], ◌∷◌, ◌++◌, some, codes, take, drop, get_or, map, arith, ℤ, pos, negsuc, true,
}
use jit_dt.Net.{Stream, eof, chunk, Layout, TransCmd, request_bytes, netread, recv, netwrite}
use jit_dt.Net.Read.{pending}
use jit_dt.Net.File.{
  trans_replyopen, trans_replyread, netrecvreply, recv_data, strcpy, open_reply, opened, overrun,
  jitopen, stored, jitread,
}
use jit_dt.Net.File.Reply.{jitread-replyread, jitopen-replyopen}

abbrev word : ℤ → ℕ
word (pos n) = n
word (negsuc n) = 0

-- A layout with one byte for a number, and no string.
abbrev bare : Layout
bare = record {
  tcmd_size = 9;
  pack = λ c. c.cmd ++ (map word c.opt ++ (c.date ∷ c.len ∷ c.str));
  unpack = λ b. record {
    cmd = take 4 b;
    opt = map pos (take 3 (drop 4 b));
    date = get_or b 7 0;
    len = get_or b 8 0;
    str = drop 9 b;
  };
}

abbrev junk : TransCmd
junk = record { cmd = []; opt = pos 7 ∷ pos 8 ∷ pos 9 ∷ []; date = 6; str = []; len = 0 }

-- the reply to a read, in two pieces, with a byte behind it
abbrev read_pieces : Stream
read_pieces = chunk (codes "REPL" ++ (7 ∷ 8 ∷ [])) (chunk (9 ∷ 6 ∷ 3 ∷ codes "abcX") eof)

-- the reply to an open
abbrev open_pieces : Stream
open_pieces = chunk (codes "REPL" ++ (0 ∷ 8 ∷ 9 ∷ 6 ∷ 2 ∷ codes "/")) (chunk (codes "f") eof)

-- With its null byte, the name would be copied.
ended_name :
    (jitopen bare 9
      (some 40 ∷ [])
      (chunk (codes "REPL" ++ (0 ∷ 8 ∷ 9 ∷ 6 ∷ 3 ∷ codes "/f" ++ (0 ∷ []))) eof)
      (pos 1)).1
    ≡ opened (codes "/f") eof
unfolding jitopen netwrite request_bytes netrecvreply recv_data netread recv open_reply strcpy
ended_name = refl

read_sent : (netwrite (some 40 ∷ []) (request_bytes bare 6 (pos 5 ∷ pos 0 ∷ pos 0 ∷ []))).1 ≡ true
unfolding netwrite request_bytes
read_sent = refl

read_arrives : pending read_pieces ≡ trans_replyread bare junk (codes "abc") ++ codes "X"
unfolding trans_replyread
read_arrives = refl

jitread-replyread_example :
    (r : Stream) × ((jitread bare 9 (some 40 ∷ []) read_pieces (pos 5)).1 ≡ stored (codes "abc") r)
    × (pending r ≡ codes "X")
jitread-replyread_example =
    jitread-replyread bare 9 (some 40 ∷ []) read_pieces (pos 5) junk (codes "abc") (codes "X")
      record { size = refl; size_pos = omega arith; same = refl } read_sent (omega arith)
      (omega arith) read_arrives

open_sent : (netwrite (some 40 ∷ []) (request_bytes bare 1 (pos 1 ∷ pos 0 ∷ pos 0 ∷ []))).1 ≡ true
unfolding netwrite request_bytes
open_sent = refl

open_arrives : pending open_pieces ≡ trans_replyopen bare junk (some (codes "/f")) (pos 0) ++ []
unfolding trans_replyopen
open_arrives = refl

-- without its null byte
unended_name : (jitopen bare 9 (some 40 ∷ []) open_pieces (pos 1)).1 ≡ overrun
unended_name =
    jitopen-replyopen bare 9 (some 40 ∷ []) open_pieces (pos 1) junk (codes "/f") [] 0
      record { size = refl; size_pos = omega arith; same = refl } open_sent (omega arith)
      (omega arith) (omega arith) open_arrives
