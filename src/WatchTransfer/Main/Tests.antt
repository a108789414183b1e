-- ===== src/WatchTransfer/Main/Tests.antt =====
-- main of src/watch_and_transfer.c on examples.
use jit_dt.Common.{
  ◌≡◌, refl, true, false, List, [], ◌∷◌, none, some, Bytes, codes, length, ℤ, pos, arith, str_eq,
  if◌then◌else◌,
}
use jit_dt.Common.Outcome.{ret}
use jit_dt.Conf.Lexer.{
  gettoken, gettoken_fuel, skipblank, token_at, word, numeral, quoted, quote, is_word, is_digit,
  is_print, is_word_char, is_space, scan, getc, ungetc, getc_quoted, key,
}
use jit_dt.Conf.Reader.{Reader, Result, ok, initial, readconf}
use jit_dt.Trans.{scp, split_colon, trans_type, chosen, parse_url, parts}
use jit_dt.WatchTransfer.Main.{Opt, conf, notify, keep, defaults, System, main, terminate}
use jit_dt.WatchTransfer.Main.Options.{described, any, given, last_of, Starts, main-described}

abbrev count : Bytes → ℤ
count s = pos (length s)

abbrev options : List Opt
options =
    conf (codes "a")
    ∷ notify (codes "/n:/r")
    ∷ keep
    ∷ notify (codes "/m:/q/")
    ∷ conf (codes "b")
    ∷ []

-- The last argument counts, and the first local file stays.
settings_example : described count defaults options ≡ record defaults {
  confname = codes "b";
  lntfyfile = codes "/m";
  rntfydir = codes "/q/";
  keep_proc = true;
  made = codes "/n" ∷ codes "/m" ∷ [];
}
unfolding any given last_of split_colon
settings_example = refl

-- The default file is removed at the end, although it has not been made.
default_removed : terminate defaults ≡ (false, codes "/tmp/ditready" ∷ [])
unfolding terminate
default_removed = refl

abbrev scp_url : Bytes
scp_url = codes "scp:h:/data"

abbrev text : Bytes
text = codes "region kobe { pattern = \"k_.*\" }"

abbrev read_ok : Result Reader → Reader
read_ok (ok r) = r
read_ok _ = initial [] []

abbrev tables : Reader
tables = read_ok (readconf [] text)

-- Only the file `b` can be opened.
abbrev system : System
system = record {
  junk = [];
  contents = λ name. if str_eq name (codes "b") then some text else none;
  regcomp = λ p. pos 0;
  fork = pos 0;
  fopen = λ name. true;
  memory = true;
}

options-Starts : Starts system (described count defaults options) text tables
unfolding any given last_of split_colon str_eq readconf gettoken gettoken_fuel skipblank token_at
    word numeral quoted quote is_word is_digit is_print is_word_char is_space scan getc ungetc
    getc_quoted key
options-Starts = record {
  opened = refl;
  well_formed = refl;
  compiles = (refl, tt);
  memory = refl;
  child = λ e. refl;
  name_fits = λ e. omega arith;
  log_made = λ e. refl;
}

main-described_example :
    main system count false (codes "watch" ∷ scp_url ∷ codes "/d" ∷ codes "-k" ∷ []) options
    ≡ ret (
        some record {
          settings = described count defaults options;
          conf = tables;
          logname = none;
          topdir = codes "/d/";
          ttype = scp;
          url = record { host = some (codes "h"); rpath = some (codes "/data") };
        })
unfolding trans_type chosen parse_url parts split_colon str_eq any
main-described_example =
    main-described system count false (codes "watch") scp_url (codes "/d") (codes "-k") [] options
      scp (record { host = some (codes "h"); rpath = some (codes "/data") }) text tables refl tt
      (λ e. cc) (omega arith)
      (
        omega arith,
        (
          (omega arith, (codes "/n", codes "/r"), refl, λ e. cc),
          (tt, ((omega arith, (codes "/m", codes "/q/"), refl, λ e. cc), (omega arith, tt))),
        ),
      )
      options-Starts
