-- ===== src/Conf/Tests.antt =====
-- Configurations on concrete inputs, and the theorems at inputs that meet their hypotheses.
use jit_dt.Common.{
  ℕ, ◌≤◌, ◌<◌, ◌≡◌, ◌≢◌, ◌⊎◌, refl, false, List, [], ◌∷◌, none, some, Bytes, codes, str_eq, get_or,
  set, length, if◌then◌else◌, replicate, arith, All,
}
use jit_dt.Common.Outcome.{ret, fault}
use jit_dt.Conf.Lexer.{
  Token, str_len, gettoken, gettoken_fuel, skipblank, token_at, word, numeral, quoted, quote,
  is_word, is_digit, is_print, is_word_char, is_space, scan, getc, ungetc, getc_quoted, key,
}
use jit_dt.Conf.Reader.{
  Conf, Reader, empty_conf, Result, ok, err, format_error, readconf, initial, max_conf, next,
  parse_keystring, is_error,
}
use jit_dt.Conf.Match.{RegMatch, Exec, matched, no_match, find_conf, matchedcopy, sync_entry}
use jit_dt.Conf.Progress.{gettoken_lem}
use jit_dt.Conf.Bounds.{Ends}
use jit_dt.Conf.Total.{readconf-Ends}
use jit_dt.Conf.Template.{
  Piece, char, number, IsPiece, render, expand, matchedcopy-render, matchedcopy-total,
}
use jit_dt.Conf.Lookup.{FirstAt, sync_entry-FirstAt, readconf-find_conf, parse_keystring_lem}

abbrev file : Bytes
file =
    codes
      "# demo\nregion kobe { pattern = \"k_.*\" date=\"$1\" type = \"$2\"; }\nsync { type = \"vr\" type = \"ze\"; }\n"

abbrev parsed : Result Reader → Bytes × List Bytes × ℕ
parsed (ok s) = ((get_or s.conf 0 empty_conf).c_pattern, s.synctype, s.cent)
parsed _ = ([], [], 99)

parsed-file : parsed (readconf [] file) ≡ (codes "k_.*", codes "vr" ∷ codes "ze" ∷ [], 1)
unfolding readconf str_eq gettoken gettoken_fuel skipblank token_at word numeral quoted quote
    is_word is_digit is_print is_word_char is_space scan getc ungetc getc_quoted key
parsed-file = refl

abbrev fetched : Result Reader → Reader
fetched (ok s) = s
fetched _ = initial [] []

file-ok : readconf [] file ≡ ok (fetched (readconf [] file))
unfolding readconf str_eq gettoken gettoken_fuel skipblank token_at word numeral quoted quote
    is_word is_digit is_print is_word_char is_space scan getc ungetc getc_quoted key
file-ok = refl

readconf-Ends_example : Ends max_conf (length file) (readconf [] file)
readconf-Ends_example = readconf-Ends [] file (omega arith)

gettoken_lem_example :
    let x = gettoken [] (codes "region kobe") 1 in
    (length x.text < str_len)
    × (length x.rest ≤ 11)
    × (is_error x.token ≡ false → length x.rest < 11)
    × ((f : ℕ) → 11 < f → gettoken_fuel f [] (codes "region kobe") 1 ≡ x)
gettoken_lem_example = gettoken_lem [] (codes "region kobe") 1 (omega arith)

-- A matcher that finds a pattern only in the same bytes.
abbrev exact : Bytes → Bytes → Exec
exact p s = if str_eq p s then matched (replicate 10 none) else no_match

readconf-find_conf_example : find_conf exact (fetched (readconf [] file)).conf (codes "k_1") ≢ fault
readconf-find_conf_example = readconf-find_conf exact [] file (codes "k_1") (omega arith) file-ok

abbrev misread : Reader
misread = record (initial [] []) { rest = codes "{ }" }

read_as_date :
    let put = λ (c : Conf) (b : Bytes). record c { c_date = b } in
    let (tkn, s1) = next misread in
    let (ntkn, s2) = next s1 in
    ((parse_keystring put misread ≡ err format_error s2.line)
      × (tkn ≢ Token.equ)
      × (ntkn ≢ Token.str))
    ⊎ (((tkn ≡ Token.equ) ⊎ (ntkn ≡ Token.str))
        × (parse_keystring put misread
            ≡ ok (record s2 {
              conf = set s2.conf s2.cent (put (get_or s2.conf s2.cent empty_conf) s2.buf);
            })))
read_as_date = parse_keystring_lem (λ c b. record c { c_date = b }) misread

abbrev types : List Bytes
types = codes "vr" ∷ codes "ze" ∷ codes "ze" ∷ []

place_of_ze : FirstAt (codes "ze") types (sync_entry types (codes "ze"))
place_of_ze = sync_entry-FirstAt types (codes "ze")

abbrev groups : List RegMatch
groups = some (0, 6) ∷ some (2, 4) ∷ replicate 8 none

abbrev template : List Piece
template = number 1 ∷ char b'_' ∷ number 0 ∷ []

template-All : All IsPiece template
template-All = (omega arith, (omega arith, (omega arith, tt)))

matchedcopy-render_example :
    matchedcopy (render template) (codes "k_2012") groups
    ≡ ret (expand (codes "k_2012") groups template)
matchedcopy-render_example = matchedcopy-render template (codes "k_2012") groups refl template-All

matchedcopy-total_example : (ps : List Piece) × (render template ≡ render ps) × All IsPiece ps
matchedcopy-total_example =
    matchedcopy-total (render template) (codes "k_2012") groups matchedcopy-render_example
