-- ===== src/Trans/Tests.antt =====
-- URLs and lock files on concrete inputs, and the theorems at inputs that meet their hypotheses.
use jit_dt.Common.{◌≡◌, ◌≢◌, refl, Bool, true, false, some, Bytes, codes, str_eq, arith}
use jit_dt.Common.Outcome.{ret}
use jit_dt.Trans.{
  scp, sftp, unknown, Url, unset, trans_type, parse_url, split_colon, chosen, colon_type,
  other_type, directory, lock_path, locked_lock,
}
use jit_dt.Trans.Parts.{trans_type-parts, trans_type-http}
use jit_dt.Trans.Lock.{locked_lock-alternates}

abbrev host_data : Url
host_data = record { host = some (codes "h"); rpath = some (codes "data/") }

scp_and_sftp :
    (trans_type true (codes "scp:h:data/") ≡ (scp, host_data))
    × (trans_type true (codes "sftp:h:data/") ≡ (sftp, host_data))
scp_and_sftp = trans_type-parts true (codes "h") (codes "data/") (omega arith, tt)

trans_type-http_example : trans_type true (codes "http://h/") ≡ trans_type false (codes "http://h/")
trans_type-http_example = trans_type-http (codes "http://h/")

http_unknown : trans_type true (codes "http://h/") ≡ (unknown, unset)
unfolding trans_type parse_url chosen colon_type other_type split_colon str_eq
http_unknown = refl

abbrev all_lock : Bytes → Bool
all_lock p = true

first_lock : locked_lock all_lock false (codes "/d/x") ≡ ret (codes "/d/JITDT-READY-1", true)
unfolding locked_lock lock_path directory
first_lock = refl

second_lock : locked_lock all_lock true (codes "/d/x") ≡ ret (codes "/d/JITDT-READY-2", false)
unfolding locked_lock lock_path directory
second_lock = refl

two_turns : (codes "/d/JITDT-READY-1" ≢ codes "/d/JITDT-READY-2") × (false ≡ false)
two_turns =
    locked_lock-alternates all_lock false true false (codes "/d/x") (codes "/d/JITDT-READY-1")
      (codes "/d/JITDT-READY-2") first_lock second_lock
