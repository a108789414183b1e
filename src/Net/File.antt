-- ===== src/Net/File.antt =====
-- src/jitcclient.c: the calls that open and read a file over a socket, and the replies to them. What
-- a reply leaves unset in its structure is a parameter.
pub mod Reply
mod Tests
use mathlib.Core.Option
use jit_dt.Common.{
  ℕ, zero, suc, ◌+◌, Bool, true, false, not, List, [], ◌∷◌, ◌++◌, Option, none, some, Bytes, length,
  drop, get_or, if◌then◌else◌, ℤ, pos, negsuc,
}
use jit_dt.Net.{
  Stream, NetRead, received, failed, stopped, netread, netwrite, Layout, TransCmd, strcmd,
  request_bytes,
}

-- `trans_replyopen`: header and path
unfoldable pub trans_replyopen : Layout → TransCmd → Option Bytes → ℤ → Bytes
trans_replyopen l unset none rcc =
    l.pack record unset { cmd = get_or strcmd 7 []; opt = rcc ∷ drop 1 unset.opt; len = 0 }
trans_replyopen l unset (some fpath) rcc =
    l.pack
      record unset { cmd = get_or strcmd 7 []; opt = rcc ∷ drop 1 unset.opt; len = length fpath }
    ++ fpath

-- `trans_replyread`: header and data
unfoldable pub trans_replyread : Layout → TransCmd → Bytes → Bytes
trans_replyread l unset buf =
    l.pack record unset { cmd = get_or strcmd 7 []; len = length buf } ++ buf

-- `netrecvreply`: the structure and the data behind it, or -1
pub data RecvReply : Type 0 where
  reply : TransCmd → Bytes → Stream → RecvReply
  no_reply endless : RecvReply

unfoldable pub recv_data : TransCmd → NetRead → RecvReply
recv_data c stopped = endless
recv_data c (failed b) = no_reply
recv_data c (received d r) = reply c d r

unfoldable pub netrecvreply : Layout → ℕ → Stream → RecvReply
netrecvreply l fuel s = elim (netread fuel s l.tcmd_size) [
  | stopped ↦ endless
  | failed b ↦ no_reply
  | received b r ↦ let c = l.unpack b in recv_data c (netread fuel r c.len)
]

-- `strcpy` from memory that ends: `none` if no null byte is found in it
unfoldable pub strcpy : Bytes → Option Bytes
strcpy [] = none
strcpy (zero ∷ r) = some []
strcpy (suc c ∷ r) = Option.map (◌∷◌ (suc c)) (strcpy r)

-- `overrun`: the name is copied from behind the end of the reply.
pub data JitOpen : Type 0 where
  opened : Bytes → Stream → JitOpen
  not_opened overrun endless : JitOpen

abbrev pub is_negative : ℤ → Bool
is_negative (pos n) = false
is_negative (negsuc n) = true

unfoldable pub open_reply : RecvReply → JitOpen
open_reply endless = endless
open_reply no_reply = not_opened
open_reply (reply c d r) =
    if is_negative (get_or c.opt 0 (pos 0))
    then not_opened
    else elim (strcpy d) [ none ↦ overrun | some fname ↦ opened fname r ]

-- `_jitopen` on a socket: the request sent, and the result
unfoldable pub jitopen : Layout → ℕ → List (Option ℕ) → Stream → ℤ → Bytes × JitOpen
jitopen l fuel sends s type =
    let (sent, all) = netwrite sends (request_bytes l 1 (type ∷ pos 0 ∷ pos 0 ∷ [])) in
    (sent, if not all then not_opened else open_reply (netrecvreply l fuel s))

-- What `_jitread` stores at `buf`; `exit_code` is its result CMD_EXIT, a failure its result -1 with
-- what has been stored.
pub data JitRead : Type 0 where
  stored : Bytes → Stream → JitRead
  read_failed : Bytes → JitRead
  exit_code endless : JitRead

unfoldable pub read_data : NetRead → JitRead
read_data stopped = endless
read_data (failed b) = read_failed b
read_data (received d r) = stored d r

unfoldable pub read_answer : Layout → ℕ → NetRead → JitRead
read_answer l fuel stopped = endless
read_answer l fuel (failed b) = exit_code
read_answer l fuel (received b r) = read_data (netread fuel r (l.unpack b).len)

unfoldable pub jitread : Layout → ℕ → List (Option ℕ) → Stream → ℤ → Bytes × JitRead
jitread l fuel sends s size =
    let (sent, all) = netwrite sends (request_bytes l 6 (size ∷ pos 0 ∷ pos 0 ∷ [])) in
    (sent, if not all then read_failed [] else read_answer l fuel (netread fuel s l.tcmd_size))
