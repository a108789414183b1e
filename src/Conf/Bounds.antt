-- ===== src/Conf/Bounds.antt =====
-- readconf: it ends on every file, and what it fills stays inside its tables and buffers.
use jit_dt.Common.{
  ℕ, ◌+◌, ◌≤◌, ◌<◌, ◌≡◌, ◌∙◌, false, not, ◌&&◌, Option, none, some, Bytes, length, length-set,
  arith, Bool-cases, inl, inr, All, All-set, All-get_or, get_or, get_or-set_ne, set,
}
use jit_dt.Conf.Lexer.{Token, str_len, pattern, date, type, fname, threshold}
use jit_dt.Conf.Reader.{
  Reader, Conf, empty_conf, Result, ok, err, stopped, ◌>>=◌, max_conf, max_syncfiles, is_error,
  is_equ, is_str, field, next, parse_keystring,
}
use jit_dt.Conf.Progress.{gettoken_lem}

abbrev pub ConfFits : Conf → Type 0
ConfFits c =
    (length c.c_area < str_len)
    × (length c.c_pattern < str_len)
    × (length c.c_type < str_len)
    × (length c.c_date < str_len)
    × (length c.c_fnam < str_len)
    × (length c.c_thrh < str_len)

-- At most `m` entries are complete, the last one of the table is empty, and every string fits its
-- array of 128 bytes.
pub record IsBounded (m : ℕ) (s : Reader) : Type 0 where
  pub table : length s.conf ≡ max_conf + 1
  pub last_empty : get_or s.conf max_conf empty_conf ≡ empty_conf
  pub cent_le : s.cent ≤ m
  pub sent_le : length s.synctype ≤ max_syncfiles
  pub buf_lt : length s.buf < str_len
  pub conf_fits : All ConfFits s.conf
  pub sync_fits : All (λ t. length t < str_len) s.synctype

-- A result: bounded, with at most `n` bytes left; never out of fuel.
abbrev pub Ends : ℕ → ℕ → Result Reader → Type 0
Ends m n (ok s) = IsBounded m s × (length s.rest ≤ n)
Ends m n (err e l) = Unit {0}
Ends m n stopped = ⊥

pub Ends-mono : (m : ℕ) {n k : ℕ} (r : Result Reader) → Ends m n r → n ≤ k → Ends m k r
Ends-mono m (ok s) h l = (h.0, omega (arith, h.1))
Ends-mono m (err e x) h l = tt
Ends-mono m stopped h l = h

pub Ends-bind :
    (m n p k : ℕ) (r : Result Reader) (f : Reader → Result Reader)
    → Ends m n r
    → ((s : Reader) → IsBounded m s → length s.rest ≤ n → Ends p k (f s))
    → Ends p k (r >>= f)
Ends-bind m n p k (ok s) f h g = g s h.0 h.1
Ends-bind m n p k (err e l) f h g = tt
Ends-bind m n p k stopped f h g = h

pub next-IsBounded : {m : ℕ} (s : Reader) → IsBounded m s → IsBounded m (next s).1
unfolding next
next-IsBounded s b = record {
  table = b.table;
  last_empty = b.last_empty;
  cent_le = b.cent_le;
  sent_le = b.sent_le;
  buf_lt = (gettoken_lem s.buf s.rest s.line b.buf_lt).0;
  conf_fits = b.conf_fits;
  sync_fits = b.sync_fits;
}

pub next-rest :
    {m : ℕ} (s : Reader)
    → IsBounded m s
    → (length (next s).1.rest ≤ length s.rest)
      × (is_error (next s).0 ≡ false → length (next s).1.rest < length s.rest)
unfolding next
next-rest s b = let h = gettoken_lem s.buf s.rest s.line b.buf_lt in (h.1, h.2)

-- a field of the entry at `cent` gets the string of the buffer
abbrev pub Puts : (Conf → Bytes → Conf) → Type 0
Puts put = (c : Conf) (b : Bytes) → ConfFits c → length b < str_len → ConfFits (put c b)

pub stored-IsBounded :
    {m : ℕ} (put : Conf → Bytes → Conf) (s : Reader)
    → Puts put
    → IsBounded m s
    → m < max_conf
    → IsBounded m
        (record s { conf = set s.conf s.cent (put (get_or s.conf s.cent empty_conf) s.buf) })
stored-IsBounded put s p b hm =
    let c = get_or s.conf s.cent empty_conf in
    let v = put c s.buf in
    record {
      table = length-set s.conf s.cent v ∙ b.table;
      last_empty =
          get_or-set_ne s.conf s.cent max_conf v empty_conf (omega (arith, b.cent_le))
          ∙ b.last_empty;
      cent_le = b.cent_le;
      sent_le = b.sent_le;
      buf_lt = b.buf_lt;
      conf_fits =
          All-set ConfFits s.conf s.cent v
            (p c s.buf
              (All-get_or ConfFits s.conf s.cent empty_conf b.conf_fits
                (omega (arith, b.table, b.cent_le)))
              b.buf_lt)
            b.conf_fits;
      sync_fits = b.sync_fits;
    }

pub widen : {m : ℕ} {s : Reader} → IsBounded m s → IsBounded (m + 1) s
widen b = record {
  table = b.table;
  last_empty = b.last_empty;
  cent_le = omega (arith, b.cent_le);
  sent_le = b.sent_le;
  buf_lt = b.buf_lt;
  conf_fits = b.conf_fits;
  sync_fits = b.sync_fits;
}

pub complete :
    {m : ℕ} {s : Reader} → IsBounded m s → IsBounded (m + 1) (record s { cent = s.cent + 1 })
complete b = record {
  table = b.table;
  last_empty = b.last_empty;
  cent_le = omega (arith, b.cent_le);
  sent_le = b.sent_le;
  buf_lt = b.buf_lt;
  conf_fits = b.conf_fits;
  sync_fits = b.sync_fits;
}

abbrev pub PutsField : Option (Conf → Bytes → Conf) → Type 0
PutsField none = Unit {0}
PutsField (some put) = Puts put

pub field-PutsField : (t : Token) → PutsField (field t)
field-PutsField pattern = λ c b h l. (h.0, l, h.2, h.3, h.4, h.5)
field-PutsField type = λ c b h l. (h.0, h.1, l, h.3, h.4, h.5)
field-PutsField date = λ c b h l. (h.0, h.1, h.2, l, h.4, h.5)
field-PutsField fname = λ c b h l. (h.0, h.1, h.2, h.3, l, h.5)
field-PutsField threshold = λ c b h l. (h.0, h.1, h.2, h.3, h.4, l)
field-PutsField _ = tt

-- Two tokens on.
pub next_two :
    (m : ℕ) (s : Reader)
    → IsBounded m s
    → let t = (next (next s).1).1 in IsBounded m t × (length t.rest ≤ length s.rest)
next_two m s b =
    let c = next-IsBounded s b in
    (next-IsBounded (next s).1 c, omega (arith, (next-rest s b).0, (next-rest (next s).1 c).0))

pub parse_keystring-Ends :
    (m : ℕ) (put : Conf → Bytes → Conf) (s : Reader)
    → Puts put
    → IsBounded m s
    → m < max_conf
    → Ends m (length s.rest) (parse_keystring put s)
unfolding parse_keystring
parse_keystring-Ends m put s p b hm =
    let (w, l) = next_two m s b in
    elim (Bool-cases (not (is_equ (next s).0) && not (is_str (next (next s).1).0))) [
      | inl e ↦ rw e tt
      | inr e ↦ rw e (stored-IsBounded put (next (next s).1).1 p w hm, l)
    ]
