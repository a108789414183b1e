-- ===== src/Trans/Parts.antt =====
-- What trans_type makes of a URL.
use jit_dt.Common.{
  ℕ, zero, suc, ◌≡◌, ◌≢◌, refl, ap, subst, Bool, true, false, [], ◌∷◌, ◌++◌, Option, none, some,
  Bytes, codes, str_eq, str_eq_iff, ◌==◌, length, take, All, arith, ne→==, Bool-cases, Option-cases,
  inl, inr,
}
use jit_dt.Common.Arrays.{take-front, drop-front}
use jit_dt.Trans.{
  scp, sftp, lock, split_colon, Url, parts, parse_url, chosen, as_path, colon_type, other_type,
  trans_type,
}

-- a host without a colon
abbrev pub IsHost : Bytes → Type 0
IsHost x = All (λ c. c ≢ b':') x

split_colon-host : (x r : Bytes) → IsHost x → split_colon (x ++ codes ":" ++ r) ≡ some (x, r)
unfolding split_colon
split_colon-host [] r h = refl
split_colon-host (c ∷ x) r h = rw (ne→== c b':' h.0, split_colon-host x r h.1) refl

parse_url-proto : (proto s : Bytes) → parse_url (proto ++ s) proto ≡ some (parts s)
unfolding parse_url
parse_url-proto proto s =
    let same = (str_eq_iff proto proto).1 refl in
    rw
      (
        parse_url,
        take-front proto s (length proto) refl,
        same,
        drop-front proto s (length proto) refl,
      )
      refl

parts-host :
    (x r : Bytes)
    → IsHost x
    → parts (x ++ codes ":" ++ r) ≡ record { host = some x; rpath = some r }
unfolding parts
parts-host x r h = rw (parts, split_colon-host x r h) refl

-- For a host without a colon, trans_type takes `scp:`, the host, a colon and any path apart into
-- the type scp, the host and the path; and `sftp:` in the same way.
pub trans_type-parts :
    (http_built : Bool) (host path : Bytes)
    → IsHost host
    → let u : Url = record { host = some host; rpath = some path } in
      (trans_type http_built (codes "scp:" ++ (host ++ codes ":" ++ path)) ≡ (scp, u))
      × (trans_type http_built (codes "sftp:" ++ (host ++ codes ":" ++ path)) ≡ (sftp, u))
unfolding trans_type chosen parse_url str_eq
trans_type-parts http_built host path h =
    (ap (λ u. (scp, u)) (parts-host host path h), ap (λ u. (sftp, u)) (parts-host host path h))

split_colon-none : (s : Bytes) → split_colon s ≡ none → IsHost s
unfolding split_colon
split_colon-none [] e = tt
split_colon-none (c ∷ r) e = elim (Bool-cases (c == b':')) [
  | inl h ↦ cc (rw h at e)
  | inr h ↦ elim (Option-cases (split_colon r)) [
    | inl k ↦ (ground arith, split_colon-none r k)
    | inr (p, k) ↦ cc (rw (h, k) at e)
  ]
]

IsHost-take : (n : ℕ) (s : Bytes) → IsHost s → IsHost (take n s)
IsHost-take zero s h = tt
IsHost-take (suc n) [] h = tt
IsHost-take (suc n) (c ∷ s) h = (h.0, IsHost-take n s h.1)

parse_url-http : (url : Bytes) → split_colon url ≡ none → parse_url url (codes "http:") ≡ none
unfolding parse_url
parse_url-http url e = elim (Bool-cases (str_eq (take 5 url) (codes "http:"))) [
  | inr h ↦ rw (parse_url, h) refl
  | inl h ↦
      let host =
        subst IsHost ((str_eq_iff (take 5 url) (codes "http:")).0 h)
          (IsHost-take 5 url (split_colon-none url e)) in
      absurd (host.1.1.1.1.0 refl)
]

colon_type-http :
    (url : Bytes) (o : Option (Bytes × Bytes))
    → split_colon url ≡ o
    → colon_type true url o ≡ colon_type false url o
unfolding colon_type chosen
colon_type-http url (some p) e = refl
colon_type-http url none e = rw (colon_type, parse_url-http url e) refl

-- The branch for `http:` is never taken: with the macro HTTP and without it, trans_type gives the
-- same for every URL.
pub trans_type-http : (url : Bytes) → trans_type true url ≡ trans_type false url
unfolding trans_type other_type
trans_type-http url =
    ap
      (λ rest.
        chosen (parse_url url (codes "scp:")) (λ u. (scp, u))
          (chosen (parse_url url (codes "ssh:")) (λ u. (scp, u))
            (chosen (parse_url url (codes "sftp:")) (λ u. (sftp, u))
              (chosen (parse_url url (codes "lock:")) (λ u. (lock, as_path u)) rest))))
      (colon_type-http url (split_colon url) refl)
