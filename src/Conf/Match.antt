-- ===== src/Conf/Match.antt =====
-- src/regexplib.c: matchedcopy, regex_match, sync_nsize and sync_entry. The regular expressions of
-- libc are a parameter. The copies go to buffers of the callers, whose size is not modelled.
use jit_dt.Common.{
  ℕ, ◌+◌, ◌-◌, Bool, true, false, ◌||◌, List, [], ◌∷◌, ◌++◌, Option, none, some, Bytes, leb, ltb,
  ◌==◌, if◌then◌else◌, length, take, drop, str_eq,
}
use jit_dt.Common.Outcome.{Outcome, ret, fault, ◌>>=◌, load}
use jit_dt.Conf.Reader.{Conf}

abbrev pub nmatch : ℕ
nmatch = 10

-- `regmatch_t`, `none` for a group with no match (-1, -1)
abbrev pub RegMatch : Type 0
RegMatch = Option (ℕ × ℕ)

-- the bytes of one group: `strncpy(dst, &pattern[rm_so], rm_eo - rm_so)`
unfoldable pub group : Bytes → RegMatch → Bytes
group pattern none = []
group pattern (some (so, eo)) = take (eo - so) (drop so pattern)

-- `pmatch[pos]` for the character behind a `$`: outside the array unless it is a digit
unfoldable pub group_at : List RegMatch → Bytes → ℕ → Outcome Bytes
unfolding group
group_at pmatch pattern d =
    if ltb d b'0' || leb (b'0' + nmatch) d
    then fault
    else load pmatch (d - b'0') >>= λ m. ret (group pattern m)

-- The character behind a `$` at the end of the format is the final NUL.
unfoldable pub matchedcopy : Bytes → Bytes → List RegMatch → Outcome Bytes
unfolding group_at
matchedcopy [] pattern pmatch = ret []
matchedcopy (c ∷ []) pattern pmatch = if c == b'$' then group_at pmatch pattern 0 else ret (c ∷ [])
matchedcopy (c ∷ d ∷ r) pattern pmatch =
    let behind = matchedcopy r pattern pmatch in
    let rest = matchedcopy (d ∷ r) pattern pmatch in
    if c == b'$'
    then group_at pmatch pattern d >>= (λ g. behind >>= λ t. ret (g ++ t))
    else rest >>= λ t. ret (c ∷ t)

-- What `regexec` returns: 0 with the groups, a positive code for no match, or a negative one.
pub data Exec : Type 0 where
  matched : List RegMatch → Exec
  no_match negative : Exec

-- which of the four results the caller has given a buffer for
pub record Wanted : Type 0 where
  pub date : Bool
  pub type : Bool
  pub fnam : Bool
  pub thrh : Bool

pub record Copies : Type 0 where
  pub date : Option Bytes
  pub type : Option Bytes
  pub fnam : Option Bytes
  pub thrh : Option Bytes

unfoldable pub copy_if : Bool → Bytes → Bytes → List RegMatch → Outcome (Option Bytes)
unfolding matchedcopy
copy_if false fmt pattern pmatch = ret none
copy_if true fmt pattern pmatch = matchedcopy fmt pattern pmatch >>= λ t. ret (some t)

unfoldable pub copies : Wanted → Conf → Bytes → List RegMatch → Outcome Copies
unfolding copy_if
copies w c pattern pmatch = do
  d ← copy_if w.date c.c_date pattern pmatch
  t ← copy_if w.type c.c_type pattern pmatch
  f ← copy_if w.fnam c.c_fnam pattern pmatch
  h ← copy_if w.thrh c.c_thrh pattern pmatch
  ret (record { date = d; type = t; fnam = f; thrh = h })

module _ (regexec : Bytes → Bytes → Exec) where
  -- The walk over the table up to an entry with an empty area: the entry that matches.
  unfoldable pub find_conf : List Conf → Bytes → Outcome (Option (Conf × List RegMatch))
  find_conf [] pattern = fault
  find_conf (c ∷ cs) pattern =
      let rest = find_conf cs pattern in
      if str_eq c.c_area [] then ret none else elim (regexec c.c_pattern pattern) [
        | matched pmatch ↦ ret (some (c, pmatch))
        | no_match ↦ rest
        | negative ↦ ret none
      ]

  -- `none` is the result -1.
  unfoldable pub regex_match : List Conf → Bytes → Wanted → Outcome (Option Copies)
  unfolding find_conf copies
  regex_match conf pattern w = do
    found ← find_conf conf pattern
    elim found [
      | none ↦ ret none
      | some (c, pmatch) ↦ copies w c pattern pmatch >>= λ x. ret (some x)
    ]

unfoldable pub sync_nsize : List Bytes → ℕ
sync_nsize types = length types

-- the loop of `sync_entry` from index `i`; `none` is the result -1
unfoldable pub sync_entry_from : ℕ → List Bytes → Bytes → Option ℕ
sync_entry_from i [] t = none
sync_entry_from i (x ∷ xs) t =
    let rest = sync_entry_from (i + 1) xs t in if str_eq x t then some i else rest

unfoldable pub sync_entry : List Bytes → Bytes → Option ℕ
unfolding sync_entry_from
sync_entry types t = sync_entry_from 0 types t
