-- ===== src/Conf/Lexer.antt =====
-- src/regexplib.c: skipblank and gettoken. A file is the list of the bytes still to be read. `char ch`
-- is signed, so that the byte 255 is EOF; the character classes are those of the C locale.
use jit_dt.Common.{
  ℕ, zero, suc, ◌+◌, Bool, true, false, not, ◌&&◌, ◌||◌, [], ◌∷◌, Option, none, some, Bytes, leb,
  ◌==◌, if◌then◌else◌, length, codes, str_eq,
}

pub data Token : Type 0 where
  err_len err_chr int pos bgn end equ str : Token
  region sync fname pattern date type threshold : Token

abbrev pub str_len : ℕ
str_len = 128

-- `EOF` in a `char`
abbrev pub eof : ℕ
eof = 255

unfoldable pub getc : Bytes → ℕ × Bytes
getc [] = (eof, [])
getc (c ∷ r) = (c, r)

unfoldable pub ungetc : ℕ → Bytes → Bytes
ungetc c r = if c == eof then r else c ∷ r

abbrev within : ℕ → ℕ → ℕ → Bool
within lo hi c = leb lo c && leb c hi

unfoldable pub is_space : ℕ → Bool
is_space c = c == b' ' || within 9 13 c

unfoldable pub is_digit : ℕ → Bool
is_digit c = within b'0' b'9' c

unfoldable pub is_print : ℕ → Bool
is_print c = within 32 126 c

-- `IS_ALPHA`
unfoldable pub is_word : ℕ → Bool
is_word c = within b'a' b'z' c || within b'A' b'Z' c || c == b'-' || c == b'_'

unfoldable pub is_word_char : ℕ → Bool
unfolding is_word is_digit
is_word_char c = is_word c || is_digit c

-- `skipblank`, the flag being set inside a comment: the character that ends it, the rest, the line.
unfoldable pub skip : Bool → Bytes → ℕ → ℕ × Bytes × ℕ
skip comment [] l = (eof, [], if comment then l + 1 else l)
skip true (c ∷ r) l =
    let blank = skip false r (l + 1) in
    let comment = skip true r l in if c == eof || c == b'\n' then blank else comment
skip false (c ∷ r) l =
    let comment = skip true r l in
    let blank = skip false r (if c == b'\n' then l + 1 else l) in
    if c == eof
    then (eof, r, l)
    else if c == b'#'
    then comment
    else if is_space c
    then blank
    else (c, r, l)

unfoldable pub skipblank : Bytes → ℕ → ℕ × Bytes × ℕ
unfolding skip is_space
skipblank r l = skip false r l

-- What a token leaves: the string buffer, the text that a number token hands to `atoi`, the rest and
-- the line.
pub record Lexed : Type 0 where
  pub token : Token
  pub text : Bytes
  pub number : Bytes
  pub rest : Bytes
  pub line : ℕ

-- `do { buf[i++] = ch; ch = getc(fp); } while (i < STR_LEN && p(ch));` with `k` places left: the
-- characters stored, the character behind them, the rest.
unfoldable pub scan : (ℕ → Bool) → ℕ → ℕ → Bytes → Bytes × ℕ × Bytes
scan p zero ch r = ([], ch, r)
scan p (suc k) ch r =
    let (c, r') = getc r in
    let (w, d, rest) = scan p k c r' in if p c then (ch ∷ w, d, rest) else (ch ∷ [], c, r')

unfoldable pub key : Bytes → Option Token
key w =
    if str_eq w (codes "region")
    then some region
    else if str_eq w (codes "sync")
    then some sync
    else if str_eq w (codes "fname")
    then some fname
    else if str_eq w (codes "pattern")
    then some pattern
    else if str_eq w (codes "date")
    then some date
    else if str_eq w (codes "type")
    then some type
    else if str_eq w (codes "threshold")
    then some threshold
    else none

abbrev pub lexed : Token → Bytes → Bytes → ℕ → Lexed
lexed t s r l = record { token = t; text = s; number = []; rest = r; line = l }

-- the branch of `IS_ALPHA(ch)`
unfoldable pub word : Bytes → ℕ → Bytes → ℕ → Lexed
word s ch r l =
    let (w, c, r') = scan is_word_char str_len ch r in
    let rest = ungetc c r' in
    if length w == str_len
    then lexed err_len s rest l
    else elim (key w) [ some k ↦ lexed k s rest l | none ↦ lexed str w rest l ]

-- `numhandling`
unfoldable pub numeral : Token → Bytes → ℕ → Bytes → ℕ → Lexed
numeral t s ch r l =
    let (w, c, r') = scan is_digit str_len ch r in
    if length w == str_len
    then lexed err_len s r' l
    else record (lexed t s (ungetc c r') l) { number = w }

-- `ch = getc(fp); if (ch == '\\') ch = getc(fp);`
unfoldable pub getc_quoted : Bytes → ℕ × Bytes
unfolding getc
getc_quoted r = let (c, r') = getc r in if c == b'\\' then getc r' else (c, r')

-- The loop of the branch of `"`, with `k` places left. A backslash takes the next character as it
-- is, and the tests of the loop then look at that character.
unfoldable pub quote : ℕ → Bytes → Bytes × Bytes
quote zero r = ([], r)
quote (suc k) r =
    let (c, r') = getc_quoted r in
    let (w, rest) = quote k r' in
    if is_print c && not (c == b'"') then (c ∷ w, rest) else (c ∷ [], r')

-- `buf[i - 1] = 0`
abbrev pub but_last : Bytes → Bytes
but_last [] = []
but_last (c ∷ []) = []
but_last (c ∷ d ∷ r) = c ∷ but_last (d ∷ r)

unfoldable pub quoted : Bytes → Bytes → ℕ → Lexed
quoted s r l =
    let (w, rest) = quote str_len r in
    if length w == str_len then lexed err_len s rest l else lexed str (but_last w) rest l

-- `gettoken` behind `skipblank`; `again` is the retry behind a `;`.
unfoldable pub token_at : Lexed → Bytes → ℕ → Bytes → ℕ → Lexed
token_at again s ch r l =
    if is_word ch
    then word s ch r l
    else if is_digit ch
    then numeral int s ch r l
    else if ch == b'$'
    then (let (d, r') = getc r in numeral pos s d r' l)
    else if ch == b';'
    then again
    else if ch == b'"'
    then quoted s r l
    else if ch == b'{'
    then lexed bgn s r l
    else if ch == b'}'
    then lexed end s r l
    else lexed (if ch == b'=' then equ else err_chr) s r l

-- With fuel for the retries: one for each byte and one more are enough.
unfoldable pub gettoken_fuel : ℕ → Bytes → Bytes → ℕ → Lexed
gettoken_fuel zero s r l = lexed err_chr s r l
gettoken_fuel (suc f) s r l =
    let (ch, r', l') = skipblank r l in
    let again = gettoken_fuel f s r' l' in token_at again s ch r' l'

unfoldable pub gettoken : Bytes → Bytes → ℕ → Lexed
gettoken s r l = gettoken_fuel (suc (length r)) s r l
