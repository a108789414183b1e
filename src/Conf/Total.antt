-- ===== src/Conf/Total.antt =====
-- readconf ends on every file, and what it fills stays inside its tables and buffers.
use jit_dt.Common.{
  ℕ, zero, suc, ◌+◌, ◌≤◌, ◌<◌, refl, not, ◌&&◌, [], ◌∷◌, Option, none, some, Bytes, leb, length,
  length-append, arith, Bool-cases, inl, inr, All-append,
}
use jit_dt.Conf.Lexer.{str_len}
use jit_dt.Conf.Reader.{
  Reader, Conf, err, ◌>>=◌, format_error, max_conf, max_syncfiles, is_error, is_end, is_equ, is_str,
  is_bgn, is_type, is_region, is_sync, field, next, parse_keystring, region_loop, sync_type,
  sync_loop, region_entry, sync_entries, conf_loop, initial, readconf,
}
use jit_dt.Conf.Bounds.{
  IsBounded, Ends, Ends-mono, Ends-bind, next-IsBounded, next-rest, stored-IsBounded, PutsField,
  field-PutsField, next_two, parse_keystring-Ends, widen, complete,
}

region_step :
    (f m : ℕ) (s : Reader) (o : Option (Conf → Bytes → Conf))
    → PutsField o
    → IsBounded m s
    → m < max_conf
    → ((t : Reader)
        → IsBounded m t
        → length t.rest ≤ length s.rest
        → Ends (m + 1) (length t.rest) (region_loop f t))
    → Ends (m + 1) (length s.rest) (elim o [
      | none ↦ err format_error s.line
      | some put ↦ parse_keystring put s >>= region_loop f
    ])
region_step f m s none p b hm ih = tt
region_step f m s (some put) p b hm ih =
    Ends-bind m (length s.rest) (m + 1) (length s.rest) (parse_keystring put s) (region_loop f)
      (parse_keystring-Ends m put s p b hm) (λ t w l. Ends-mono (m + 1) _ (ih t w l) l)

-- The loop over a region whose entry has room ends before its fuel does.
region_loop-Ends :
    (f m : ℕ) (s : Reader)
    → IsBounded m s
    → m < max_conf
    → length s.rest < f
    → Ends (m + 1) (length s.rest) (region_loop f s)
unfolding region_loop
region_loop-Ends zero m s b hm hf = absurd (omega arith)
region_loop-Ends (suc f) m s b hm hf =
    let w = next-IsBounded s b in
    let q = next-rest s b in
    elim (Bool-cases (is_error (next s).0)) [
      | inl e ↦ rw e (widen w, q.0)
      | inr e ↦ rw e (elim (Bool-cases (is_end (next s).0)) [
        | inl e' ↦ rw e' (complete w, q.0)
        | inr e' ↦
            let lt = q.1 e in
            rw e' (
              Ends-mono (m + 1) _
                (region_step f m (next s).1 (field (next s).0) (field-PutsField (next s).0) w hm
                  (λ t v l. region_loop-Ends f m t v hm (omega arith)))
                q.0)
      ])
    ]

sync_type-Ends : (m : ℕ) (s : Reader) → IsBounded m s → Ends m (length s.rest) (sync_type s)
unfolding sync_type
sync_type-Ends m s b =
    let t = (next (next s).1).1 in
    let (w, l) = next_two m s b in
    elim (Bool-cases (not (is_equ (next s).0) && not (is_str (next (next s).1).0))) [
      | inl e ↦ rw e tt
      | inr e ↦ rw e (elim (Bool-cases (leb max_syncfiles (length t.synctype))) [
        | inl e' ↦ rw e' tt
        | inr e' ↦ rw e' (
          record {
            table = w.table;
            last_empty = w.last_empty;
            cent_le = w.cent_le;
            sent_le = rw (length-append t.synctype (t.buf ∷ [])) (ground arith);
            buf_lt = w.buf_lt;
            conf_fits = w.conf_fits;
            sync_fits =
                All-append (λ x. length x < str_len) t.synctype (t.buf ∷ []) w.sync_fits
                  (w.buf_lt, tt);
          },
          l,
        )
      ])
    ]

sync_loop-Ends :
    (f m : ℕ) (s : Reader)
    → IsBounded m s
    → length s.rest < f
    → Ends m (length s.rest) (sync_loop f s)
unfolding sync_loop
sync_loop-Ends zero m s b hf = absurd (omega arith)
sync_loop-Ends (suc f) m s b hf =
    let w = next-IsBounded s b in
    let q = next-rest s b in
    elim (Bool-cases (is_error (next s).0)) [
      | inl e ↦ rw e (w, q.0)
      | inr e ↦ rw e (elim (Bool-cases (is_end (next s).0)) [
        | inl e' ↦ rw e' (w, q.0)
        | inr e' ↦ rw e' (elim (Bool-cases (is_type (next s).0)) [
          | inl y ↦
              let lt = q.1 e in
              rw y (
                Ends-bind m (length (next s).1.rest) m (length s.rest) (sync_type (next s).1)
                  (sync_loop f) (sync_type-Ends m (next s).1 w)
                  (λ t v l. Ends-mono m _ (sync_loop-Ends f m t v (omega arith)) (omega arith)))
          | inr y ↦ rw y tt
        ])
      ])
    ]

narrow : {m : ℕ} {s : Reader} (k : ℕ) → IsBounded m s → s.cent ≤ k → IsBounded k s
narrow k b h = record {
  table = b.table;
  last_empty = b.last_empty;
  cent_le = h;
  sent_le = b.sent_le;
  buf_lt = b.buf_lt;
  conf_fits = b.conf_fits;
  sync_fits = b.sync_fits;
}

region_entry-Ends :
    (f : ℕ) (s : Reader)
    → IsBounded max_conf s
    → length s.rest < f
    → Ends max_conf (length s.rest) (region_entry f s)
unfolding region_entry
region_entry-Ends f s b hf =
    let t = (next (next s).1).1 in
    let (w, l) = next_two max_conf s b in
    elim (Bool-cases (leb max_conf s.cent)) [
      | inl e ↦ rw e tt
      | inr e ↦
          rw e (elim (Bool-cases (not (is_str (next s).0) && not (is_bgn (next (next s).1).0))) [
            | inl e' ↦ rw e' tt
            | inr e' ↦
                let room : s.cent ≤ 39 = ground arith in
                let n = narrow 39 w room in
                let area = λ (c : Conf) (x : Bytes). record c { c_area = x } in
                let v =
                  stored-IsBounded area t (λ c x h q. (q, h.1, h.2, h.3, h.4, h.5)) n
                    (omega arith) in
                rw e'
                  (Ends-mono max_conf _ (region_loop-Ends f 39 _ v (omega arith) (omega arith)) l)
          ])
    ]

sync_entries-Ends :
    (f m : ℕ) (s : Reader)
    → IsBounded m s
    → length s.rest < f
    → Ends m (length s.rest) (sync_entries f s)
unfolding sync_entries
sync_entries-Ends f m s b hf =
    let w = next-IsBounded s b in
    let q = next-rest s b in
    elim (Bool-cases (is_bgn (next s).0)) [
      | inl e ↦ rw e (Ends-mono m _ (sync_loop-Ends f m (next s).1 w (omega arith)) q.0)
      | inr e ↦ rw e tt
    ]

conf_loop-Ends :
    (f : ℕ) (s : Reader)
    → IsBounded max_conf s
    → length s.rest < f
    → Ends max_conf (length s.rest) (conf_loop f s)
unfolding conf_loop
conf_loop-Ends zero s b hf = absurd (omega arith)
conf_loop-Ends (suc f) s b hf =
    let w = next-IsBounded s b in
    let q = next-rest s b in
    let t = (next s).1 in
    elim (Bool-cases (is_error (next s).0)) [
      | inl e ↦ rw e (w, q.0)
      | inr e ↦ rw e (elim (Bool-cases (is_region (next s).0)) [
        | inl y ↦
            let lt = q.1 e in
            rw y (
              Ends-bind max_conf (length t.rest) max_conf (length s.rest) (region_entry f t)
                (conf_loop f) (region_entry-Ends f t w (omega arith))
                (λ u v l. Ends-mono max_conf _ (conf_loop-Ends f u v (omega arith)) (omega arith)))
        | inr y ↦ rw y (elim (Bool-cases (is_sync (next s).0)) [
          | inl z ↦
              let lt = q.1 e in
              rw z (
                Ends-bind max_conf (length t.rest) max_conf (length s.rest) (sync_entries f t)
                  (conf_loop f) (sync_entries-Ends f max_conf t w (omega arith))
                  (λ u v l.
                    Ends-mono max_conf _ (conf_loop-Ends f u v (omega arith)) (omega arith)))
          | inr z ↦ rw z tt
        ])
      ])
    ]

initial-IsBounded :
    (junk text : Bytes) → length junk < str_len → IsBounded max_conf (initial junk text)
initial-IsBounded junk text h = record {
  table = refl;
  last_empty = refl;
  cent_le = omega arith;
  sent_le = omega arith;
  buf_lt = h;
  conf_fits = omega arith;
  sync_fits = tt;
}

-- From an uninitialised buffer that holds fewer than 128 bytes, readconf ends on every file, by a
-- result or an error and never for want of fuel; a result has at most 40 entries in a table of 41,
-- the last entry empty, at most 10 sync types, and every string of the buffer and the tables has
-- fewer than 128 bytes.
pub readconf-Ends :
    (junk text : Bytes) → length junk < str_len → Ends max_conf (length text) (readconf junk text)
unfolding readconf
readconf-Ends junk text h =
    conf_loop-Ends (suc (length text)) (initial junk text) (initial-IsBounded junk text h)
      (omega arith)
