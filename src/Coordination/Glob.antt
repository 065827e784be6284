-- ===== src/Coordination/Glob.antt =====
-- The glob patterns of internal/coordination/glob.go: the parser and the complexity limits.
pub mod Rounds
use mathlib.Core.List.{reverse}
use intercore.Common.{
  ℕ, zero, suc, ◌+◌, ◌*◌, Bool, true, false, not, ◌&&◌, ◌||◌, Option, none, some, List, [], ◌∷◌,
  ◌++◌, ltb, ◌==◌, if◌then◌else◌, length, get_elem?,
}
use intercore.Common.Text.{Text}
use intercore.Common.Outcome.{Result, ok, err, ◌>>=◌, for_each}
use intercore.Coordination.Ranges.{
  RuneRange, non_separator_ranges, normalize_ranges, intersect_ranges, subtract_ranges,
  ranges_overlap,
}

abbrev pub max_tokens : ℕ
max_tokens = 50

abbrev pub max_wildcards : ℕ
max_wildcards = 10

pub data Token : Type 0 where
  literal : (lit : ℕ) → Token
  any_rune : (ranges : List RuneRange) → Token
  star : Token
  class : (ranges : List RuneRange) → Token

pub data GlobError : Type 0 where
  bad_pattern : GlobError
  too_many_tokens too_many_wildcards : ℕ → GlobError
  out_of_rounds : GlobError

-- strings.Split by "/".
unfoldable pub split_rest : Text → Text → List Text
split_rest part [] = reverse part ∷ []
split_rest part (c ∷ s) =
    let cut = reverse part ∷ split_rest [] s in
    let longer = split_rest (c ∷ part) s in if c == b'/' then cut else longer

unfoldable pub split : Text → List Text
unfolding split_rest
split s = split_rest [] s

-- The rune of a class, and what follows it.
unfoldable pub read_class_rune : Text → Result GlobError (ℕ × Text)
read_class_rune [] = err bad_pattern
read_class_rune (c ∷ []) = if c == 92 then err bad_pattern else ok (c, [])
read_class_rune (c ∷ d ∷ s) = if c == 92 then ok (d, s) else ok (c, d ∷ s)

-- `runes[i] == '-' && runes[i+1] != ']'`, and what follows the dash.
unfoldable pub range_dash : Text → Option Text
range_dash [] = none
range_dash (c ∷ []) = none
range_dash (c ∷ d ∷ s) = if c == b'-' && not (d == b']') then some (d ∷ s) else none

abbrev pub closes : Text → Bool → Option Text
closes [] had_item = none
closes (c ∷ s) had_item = if c == b']' && had_item then some s else none

-- The end of one item of a class: a range behind a dash, or a single rune.
abbrev pub end_item : ℕ → Text → Option Text → Result GlobError (RuneRange × Text)
end_item lo rest none = ok (record { lo = lo; hi = lo }, rest)
end_item lo rest (some after) = read_class_rune after >>= λ (hi, next).
    if ltb hi lo then err bad_pattern else ok (record { lo = lo; hi = hi }, next)

unfoldable pub class_item : Text → Result GlobError (RuneRange × Text)
class_item s = read_class_rune s >>= λ (lo, rest). end_item lo rest (range_dash rest)

abbrev pub close_or :
    Option Text
    → Result GlobError (List RuneRange × Text)
    → Result GlobError (List RuneRange × Text)
close_or (some rest) more = ok ([], rest)
close_or none more = more

-- The items up to the `]` that closes the class, and what follows it. Each round reads a rune.
unfoldable pub class_rounds : ℕ → Bool → Text → Result GlobError (List RuneRange × Text)
class_rounds zero had_item s = err out_of_rounds
class_rounds (suc n) had_item s =
    close_or (closes s had_item)
      (class_item s >>= λ (r, next). class_rounds n true next >>= λ (rs, rest). ok (r ∷ rs, rest))

abbrev pub class_ranges : Bool → List RuneRange → List RuneRange
class_ranges negated ranges =
    if negated
    then subtract_ranges non_separator_ranges (normalize_ranges ranges)
    else intersect_ranges (normalize_ranges ranges) non_separator_ranges

unfoldable pub close_class : Bool → Text → Result GlobError (Token × Text)
close_class negated s = class_rounds (suc (length s)) false s >>= λ (ranges, rest).
    ok (class (class_ranges negated ranges), rest)

-- The class behind its `[`.
unfoldable pub parse_class : Text → Result GlobError (Token × Text)
parse_class [] = err bad_pattern
parse_class (c ∷ s) = if c == b'^' then close_class true s else close_class false (c ∷ s)

-- The token behind an escape.
abbrev pub escaped : Text → Result GlobError (Token × Text)
escaped [] = err bad_pattern
escaped (c ∷ s) = ok (literal c, s)

-- One round of `parseSegment`: the token that begins with `c`, and what follows it.
unfoldable pub parse_token : ℕ → Text → Result GlobError (Token × Text)
parse_token c s =
    if c == b'*'
    then ok (star, s)
    else if c == b'?'
    then ok (any_rune non_separator_ranges, s)
    else if c == b'['
    then parse_class s
    else if c == 92
    then escaped s
    else ok (literal c, s)

unfoldable pub parse_rounds : ℕ → Text → Result GlobError (List Token)
parse_rounds n [] = ok []
parse_rounds zero (c ∷ s) = err out_of_rounds
parse_rounds (suc n) (c ∷ s) =
    parse_token c s >>= λ (t, rest). parse_rounds n rest >>= λ ts. ok (t ∷ ts)

unfoldable pub parse_segment : Text → Result GlobError (List Token)
parse_segment s = parse_rounds (length s) s

abbrev pub is_wildcard : Token → Bool
is_wildcard star = true
is_wildcard (any_rune ranges) = true
is_wildcard (literal lit) = false
is_wildcard (class ranges) = false

unfoldable pub count_wildcards : List Token → ℕ
count_wildcards [] = 0
count_wildcards (t ∷ ts) = let rest = count_wildcards ts in if is_wildcard t then suc rest else rest

unfoldable pub add_segment : ℕ × ℕ → Text → Result GlobError (ℕ × ℕ)
unfolding parse_segment count_wildcards
add_segment (tokens, wildcards) seg =
    parse_segment seg >>= λ ts. ok (tokens + length ts, wildcards + count_wildcards ts)

abbrev pub within_limits : ℕ × ℕ → Result GlobError (Unit {0})
within_limits (tokens, wildcards) =
    if ltb max_tokens tokens
    then err (too_many_tokens tokens)
    else if ltb max_wildcards wildcards
    then err (too_many_wildcards wildcards)
    else ok tt

-- The text has gone through filepath.ToSlash, which changes nothing where `/` is the separator.
unfoldable pub validate_complexity : Text → Result GlobError (Unit {0})
unfolding for_each add_segment split
validate_complexity pattern = for_each add_segment (split pattern) (0, 0) >>= within_limits
