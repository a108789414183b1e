-- ===== src/Conf/Reader.antt =====
-- src/regexplib.c: readconf and its macro PARSE_KEYSTRING. `exit` with a message is an error.
use jit_dt.Common.{
  ℕ, zero, suc, ◌+◌, Bool, true, false, not, ◌&&◌, List, [], ◌∷◌, ◌++◌, Option, none, some, Bytes,
  leb, if◌then◌else◌, length, get_or, set, replicate,
}
use jit_dt.Conf.Lexer.{
  Token, err_len, err_chr, bgn, end, equ, str, region, sync, fname, pattern, date, type, threshold,
  gettoken,
}

abbrev pub max_conf : ℕ
max_conf = 40

abbrev pub max_syncfiles : ℕ
max_syncfiles = 10

-- `struct conf`, less `c_name`, which nothing sets, and the compiled pattern.
pub record Conf : Type 0 where
  pub c_area : Bytes
  pub c_pattern : Bytes
  pub c_type : Bytes
  pub c_date : Bytes
  pub c_fnam : Bytes
  pub c_thrh : Bytes

abbrev pub empty_conf : Conf
empty_conf = record {
  c_area = [];
  c_pattern = [];
  c_type = [];
  c_date = [];
  c_fnam = [];
  c_thrh = [];
}

-- The file and the local variables of `readconf`, with the tables that it fills. `synctype` holds
-- the entries that are set, so that `sent` is its length.
pub record Reader : Type 0 where
  pub buf : Bytes
  pub rest : Bytes
  pub line : ℕ
  pub conf : List Conf
  pub cent : ℕ
  pub synctype : List Bytes

pub data Error : Type 0 where
  format_error too_many : Error

-- `stopped`: the fuel of a loop is used up.
pub data Result {ℓ} (A : Type ℓ) : Type ℓ where
  ok : A → Result A
  err : Error → ℕ → Result A
  stopped : Result A

infixl 5 ◌>>=◌
abbrev pub ◌>>=◌ {ℓ κ} : {A : Type ℓ} {B : Type κ} → Result A → (A → Result B) → Result B
ok a >>= f = f a
err e l >>= f = err e l
stopped >>= f = stopped

unfoldable pub next : Reader → Token × Reader
next s =
    let x = gettoken s.buf s.rest s.line in
    (x.token, record s { buf = x.text; rest = x.rest; line = x.line })

abbrev pub is_equ : Token → Bool
is_equ equ = true
is_equ _ = false

abbrev pub is_str : Token → Bool
is_str str = true
is_str _ = false

abbrev pub is_bgn : Token → Bool
is_bgn bgn = true
is_bgn _ = false

-- `PARSE_KEYSTRING`; `put` stores a string in a field of an entry.
unfoldable pub parse_keystring : (Conf → Bytes → Conf) → Reader → Result Reader
parse_keystring put s =
    let (tkn, s1) = next s in
    let (ntkn, s2) = next s1 in
    if not (is_equ tkn) && not (is_str ntkn)
    then err format_error s2.line
    else ok
        (record s2 { conf = set s2.conf s2.cent (put (get_or s2.conf s2.cent empty_conf) s2.buf) })

-- the field that a keyword inside a region names
abbrev pub field : Token → Option (Conf → Bytes → Conf)
field pattern = some (λ c b. record c { c_pattern = b })
field date = some (λ c b. record c { c_date = b })
field type = some (λ c b. record c { c_type = b })
field fname = some (λ c b. record c { c_fnam = b })
field threshold = some (λ c b. record c { c_thrh = b })
field _ = none

abbrev pub is_error : Token → Bool
is_error err_len = true
is_error err_chr = true
is_error _ = false

abbrev pub is_end : Token → Bool
is_end end = true
is_end _ = false

-- The loop over the body of a region. A token error ends it as a `}` does, but leaves `cent`.
unfoldable pub region_loop : ℕ → Reader → Result Reader
unfolding next parse_keystring
region_loop zero s = stopped
region_loop (suc f) s =
    let (tkn, s1) = next s in
    if is_error tkn
    then ok s1
    else if is_end tkn
    then ok (record s1 { cent = s1.cent + 1 })
    else elim (field tkn) [
      | none ↦ err format_error s1.line
      | some put ↦ parse_keystring put s1 >>= region_loop f
    ]

-- the body of a sync block up to the `type`, and the loop over it
unfoldable pub sync_type : Reader → Result Reader
sync_type s =
    let (tkn, s1) = next s in
    let (ntkn, s2) = next s1 in
    if not (is_equ tkn) && not (is_str ntkn)
    then err format_error s2.line
    else if leb max_syncfiles (length s2.synctype)
    then err too_many s2.line
    else ok (record s2 { synctype = s2.synctype ++ (s2.buf ∷ []) })

abbrev pub is_type : Token → Bool
is_type type = true
is_type _ = false

unfoldable pub sync_loop : ℕ → Reader → Result Reader
unfolding next sync_type
sync_loop zero s = stopped
sync_loop (suc f) s =
    let (tkn, s1) = next s in
    if is_error tkn
    then ok s1
    else if is_end tkn
    then ok s1
    else if is_type tkn
    then sync_type s1 >>= sync_loop f
    else err format_error s1.line

-- `region`: the area and the opening brace, then the body
unfoldable pub region_entry : ℕ → Reader → Result Reader
unfolding next region_loop
region_entry f s =
    if leb max_conf s.cent
    then err too_many s.line
    else let (tkn, s1) = next s in
      let (ntkn, s2) = next s1 in
      if not (is_str tkn) && not (is_bgn ntkn)
      then err format_error s2.line
      else region_loop f (record s2 {
        conf = set s2.conf s2.cent (record (get_or s2.conf s2.cent empty_conf) { c_area = s2.buf });
      })

unfoldable pub sync_entries : ℕ → Reader → Result Reader
unfolding next sync_loop
sync_entries f s =
    let (tkn, s1) = next s in if is_bgn tkn then sync_loop f s1 else err format_error s1.line

abbrev pub is_region : Token → Bool
is_region region = true
is_region _ = false

abbrev pub is_sync : Token → Bool
is_sync sync = true
is_sync _ = false

unfoldable pub conf_loop : ℕ → Reader → Result Reader
unfolding next region_entry sync_entries
conf_loop zero s = stopped
conf_loop (suc f) s =
    let (tkn, s1) = next s in
    if is_error tkn
    then ok s1
    else if is_region tkn
    then region_entry f s1 >>= conf_loop f
    else if is_sync tkn
    then sync_entries f s1 >>= conf_loop f
    else err format_error s1.line

-- `junk` is what the uninitialised `buf` holds.
abbrev pub initial : Bytes → Bytes → Reader
initial junk file = record {
  buf = junk;
  rest = file;
  line = 1;
  conf = replicate (max_conf + 1) empty_conf;
  cent = 0;
  synctype = [];
}

-- `readconf` on the contents of a file that could be opened
unfoldable pub readconf : Bytes → Bytes → Result Reader
unfolding conf_loop
readconf junk file = conf_loop (suc (length file)) (initial junk file)
