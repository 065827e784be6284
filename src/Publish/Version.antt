-- ===== src/Publish/Version.antt =====
-- internal/publish/version.go: parsing, printing, raising and comparing versions. A text is kept as its runes, whose
-- order is the order of their UTF-8.
pub mod Texts
pub mod Order
pub mod Numerals
pub mod Print
pub mod Parsed
pub mod Raise
use intercore.Common.{
  ℕ, zero, suc, ◌+◌, Bool, true, false, not, ◌&&◌, ◌||◌, Option, none, some, List, [], ◌∷◌, ◌++◌,
  if◌then◌else◌, ltb, leb, ◌==◌,
}
use intercore.Common.Int.{ℤ, pos, ltb_ℤ, eqb_ℤ, ◌+ℤ◌, wrap64}
use intercore.Common.Text.{Text, atoi}
use intercore.Common.Outcome.{Result, ok, err, ◌>>=◌}
use intercore.Authz.Signing.{is_blank, format_int}

pub record Version : Type 0 where
  pub major : ℤ
  pub minor : ℤ
  pub patch : ℤ
  pub pre : Text

pub data VersionError : Type 0 where
  invalid_semver invalid_major invalid_minor invalid_patch unsupported_mode : VersionError

pub data BumpMode : Type 0 where
  bump_exact bump_patch bump_minor : BumpMode

abbrev pub is_digit : ℕ → Bool
is_digit c = leb b'0' c && leb c b'9'

-- The runes of [a-zA-Z0-9.].
abbrev pub is_pre_rune : ℕ → Bool
is_pre_rune c =
    leb b'a' c && leb c b'z' || leb b'A' c && leb c b'Z' || leb b'0' c && leb c b'9' || c == b'.'

-- The digits that a text begins with, and the rest of it.
unfoldable pub split_digits : Text → Text × Text
split_digits [] = ([], [])
split_digits (c ∷ s) =
    let rest = split_digits s in if is_digit c then (c ∷ rest.0, rest.1) else ([], c ∷ s)

abbrev pub some_digits : Text × Text → Option (Text × Text)
some_digits (digits, rest) = if is_blank digits then none else some (digits, rest)

abbrev pub after_dot : Text → Option Text
after_dot [] = none
after_dot (c ∷ s) = if c == b'.' then some s else none

unfoldable pub all_pre : Text → Bool
all_pre [] = true
all_pre (c ∷ s) = let rest = all_pre s in is_pre_rune c && rest

-- The optional last group of the pattern, with its hyphen, up to the end of the text.
unfoldable pub pre_group : Text → Option Text
pre_group [] = some []
pre_group (c ∷ s) = if c == b'-' && not (is_blank s) && all_pre s then some (c ∷ s) else none

infixl 5 ◌then◌
abbrev pub ◌then◌ {ℓ κ} : {A : Type ℓ} {B : Type κ} → Option A → (A → Option B) → Option B
none then f = none
some a then f = f a

pub record Groups : Type 0 where
  pub major_digits : Text
  pub minor_digits : Text
  pub patch_digits : Text
  pub suffix : Text

-- `semverRe.FindStringSubmatch`. A run of digits ends where a dot, a hyphen or the text's end
-- must stand, so that the pattern's repetitions have nothing to choose.
unfoldable pub find_submatch : Text → Option Groups
find_submatch s = some_digits (split_digits s) then λ a. after_dot a.1 then λ s1.
    some_digits (split_digits s1) then λ b. after_dot b.1 then λ s2.
    some_digits (split_digits s2) then λ c. pre_group c.1 then λ suffix.
    some (record { major_digits = a.0; minor_digits = b.0; patch_digits = c.0; suffix = suffix })

abbrev pub or_error : VersionError → Option ℤ → Result VersionError ℤ
or_error e none = err e
or_error e (some n) = ok n

unfoldable pub number : VersionError → Text → Result VersionError ℤ
number e digits = or_error e (atoi digits)

abbrev pub strip_hyphen : Text → Text
strip_hyphen [] = []
strip_hyphen (c ∷ s) = s

abbrev pub version_of : Option Groups → Result VersionError Version
version_of none = err invalid_semver
version_of (some g) = number invalid_major g.major_digits >>= λ major.
    number invalid_minor g.minor_digits >>= λ minor.
    number invalid_patch g.patch_digits >>= λ patch.
    ok (record { major = major; minor = minor; patch = patch; pre = strip_hyphen g.suffix })

unfoldable pub parse_version : Text → Result VersionError Version
parse_version s = version_of (find_submatch s)

unfoldable pub format_version : Version → Text
format_version v =
    let core = format_int v.major ++ b'.' ∷ format_int v.minor ++ b'.' ∷ format_int v.patch in
    if is_blank v.pre then core else core ++ b'-' ∷ v.pre

unfoldable pub bumped : BumpMode → Version → Result VersionError Text
bumped bump_exact v = err unsupported_mode
bumped bump_patch v = ok (format_version (record v { patch = wrap64 (v.patch +ℤ pos 1); pre = [] }))
bumped bump_minor v =
    ok (format_version (record v { minor = wrap64 (v.minor +ℤ pos 1); patch = pos 0; pre = [] }))

unfoldable pub bump_version : Text → BumpMode → Result VersionError Text
bump_version current mode = parse_version current >>= bumped mode

-- The results -1, 0 and 1 of a comparison.
pub data Sign : Type 0 where
  less same more : Sign

unfoldable pub text_ltb : Text → Text → Bool
text_ltb [] [] = false
text_ltb [] (d ∷ t) = true
text_ltb (c ∷ s) [] = false
text_ltb (c ∷ s) (d ∷ t) =
    let rest = text_ltb s t in if ltb c d then true else if c == d then rest else false

unfoldable pub compare_texts : Text → Text → Sign
unfolding text_ltb
compare_texts s t = if text_ltb s t then less else if text_ltb t s then more else same

unfoldable pub cmp_int : ℤ → ℤ → Sign
cmp_int a b = if ltb_ℤ a b then less else if ltb_ℤ b a then more else same

unfoldable pub compare_pre : Text → Text → Sign
unfolding compare_texts
compare_pre s t =
    if not (is_blank s) && is_blank t
    then less
    else if is_blank s && not (is_blank t)
    then more
    else compare_texts s t

unfoldable pub compare_parsed : Version → Version → Sign
unfolding cmp_int compare_pre
compare_parsed a b =
    if not (eqb_ℤ a.major b.major)
    then cmp_int a.major b.major
    else if not (eqb_ℤ a.minor b.minor)
    then cmp_int a.minor b.minor
    else if not (eqb_ℤ a.patch b.patch)
    then cmp_int a.patch b.patch
    else compare_pre a.pre b.pre

abbrev pub compare_results :
    Text → Text → Result VersionError Version → Result VersionError Version → Sign
compare_results s t (ok a) (ok b) = compare_parsed a b
compare_results s t (ok a) (err e) = compare_texts s t
compare_results s t (err e) (ok b) = compare_texts s t
compare_results s t (err e) (err f) = compare_texts s t

unfoldable pub compare_versions : Text → Text → Sign
compare_versions s t = compare_results s t (parse_version s) (parse_version t)
