-- ===== src/KFile/Reads.antt =====
-- Calls of _jitread on a file, and the _jitclose behind them.
use jit_dt.Common.{
  ℕ, ◌+◌, ◌≡◌, refl, ap, ◌∙◌, true, List, [], ◌∷◌, ◌++◌, Option, none, some, Bytes, length, take,
  drop, arith, length-append,
}
use jit_dt.Common.Outcome.{ret, load}
use jit_dt.Common.Arrays.{take-more, drop-more}
use jit_dt.Client.{got}
use jit_dt.Client.Get.{sum}
use jit_dt.LockFile.{locked_unlock_nullify}
use jit_dt.KFile.{Open, Env, Client, replace, nullify_fd, jitclose, jitread, jitreads}
use jit_dt.KFile.Table.{table, data_fd, slot-lock, slot-data, set-lock, set-data}
use jit_dt.KFile.Opens.{with_fds, lock_open, data_open}

module _ (env : Env) (us vs : List Open) (ws : List (Option Open)) (k : Client) (path : Bytes)
    (sz : ℕ) (name bytes : Bytes)
    (reads : (o n : ℕ) → env.read_at name o n ≡ got (take n (drop o bytes))) where
  abbrev pub at : ℕ → Client
  at o = with_fds k (table us (some (lock_open path sz)) vs (some (data_open name o)) ws)

  jitread-at :
      (o n : ℕ)
      → jitread env (at o) (data_fd us vs) n
        ≡ (at (o + length (take n (drop o bytes))), got (take n (drop o bytes)))
  unfolding jitread
  jitread-at o n =
      rw
        (
          jitread,
          slot-data vs ws us (some (lock_open path sz)) (some (data_open name o)),
          reads o n,
          set-data vs ws us (some (lock_open path sz)) (some (data_open name o)),
        )
        refl

  pub jitreads-at :
      (ns : List ℕ) (o : ℕ)
      → let b = take (sum ns) (drop o bytes) in
        jitreads env (at o) (data_fd us vs) ns ≡ (at (o + length b), b)
  unfolding jitreads
  jitreads-at [] o = ap (λ p. (at p, [])) (omega arith)
  jitreads-at (n ∷ ns) o =
      let a = take n (drop o bytes) in
      let b = take (sum ns) (drop (o + length a) bytes) in
      let rest : b ≡ take (sum ns) (drop (length a) (drop o bytes)) =
        ap (take (sum ns)) (drop-more (length a) o bytes) in
      let whole : a ++ b ≡ take (n + sum ns) (drop o bytes) =
        ap (λ b. a ++ b) rest ∙ take-more n (sum ns) (drop o bytes) in
      let place : o + length a + length b ≡ o + length (a ++ b) =
        omega (arith, length-append a b) in
      rw (jitreads, jitread-at o n, jitreads-at ns (o + length a))
        (ap (λ p. (at p, a ++ b)) place ∙ ap (λ w. (at (o + length w), w)) whole)

  pub jitclose-at :
      (o : ℕ)
      → load k.lckfds (data_fd us vs) ≡ ret (length us)
      → jitclose (at o) (data_fd us vs)
        ≡ ret (
          record k {
            files = replace k.files path (locked_unlock_nullify (k.files path));
            fds = table us none vs none ws;
          },
          true,
        )
  unfolding jitclose nullify_fd
  jitclose-at o hl =
      let lock = some (lock_open path sz) in
      let opened = some (data_open name o) in
      rw
        (
          jitclose,
          nullify_fd,
          hl,
          slot-data vs ws us lock opened,
          set-data vs ws us lock opened none,
          slot-lock vs ws us lock none,
          set-data vs ws us lock opened none,
          set-lock vs ws us lock none none,
        )
        refl
