-- ===== src/Publish/Samples.antt =====
-- Versions of a plugin, parsed, raised and compared.
use intercore.Common.{◌≡◌, ◌-◌, ◌↔◌, refl, [], ◌∷◌, arith}
use intercore.Common.Int.{pos, negsuc, wrap64, two_63, ◌+ℤ◌}
use intercore.Common.Text.{Text, atoi, magnitude, digits_value}
use intercore.Common.Outcome.{ok, err}
use intercore.Publish.Version.{
  invalid_semver, bump_patch, bump_minor, parse_version, format_version, bumped, find_submatch,
  split_digits, pre_group, all_pre, number, compare_versions, compare_parsed, cmp_int, compare_pre,
  compare_texts, text_ltb, less, same,
}
use intercore.Publish.Version.Order.{opposite, compare_versions-IsOrder}
use intercore.Publish.Version.Print.{numbered}
use intercore.Publish.Version.Raise.{Raised, bump_version-Raised}

-- 1.2.3, 1.10.0 and 1.10.0-rc.1
abbrev v1_2_3 : Text
v1_2_3 = b'1' ∷ b'.' ∷ b'2' ∷ b'.' ∷ b'3' ∷ []

abbrev v1_10_0 : Text
v1_10_0 = b'1' ∷ b'.' ∷ b'1' ∷ b'0' ∷ b'.' ∷ b'0' ∷ []

abbrev rc : Text
rc = b'r' ∷ b'c' ∷ b'.' ∷ b'1' ∷ []

abbrev v1_10_0_rc : Text
v1_10_0_rc = b'1' ∷ b'.' ∷ b'1' ∷ b'0' ∷ b'.' ∷ b'0' ∷ b'-' ∷ rc

-- 1.5, which is no version.
abbrev v1_5 : Text
v1_5 = b'1' ∷ b'.' ∷ b'5' ∷ []

parse-v1_2_3 : parse_version v1_2_3 ≡ ok (numbered 1 2 3 [])
unfolding parse_version find_submatch split_digits pre_group all_pre number atoi magnitude
    digits_value
parse-v1_2_3 = refl

parse-v1_10_0 : parse_version v1_10_0 ≡ ok (numbered 1 10 0 [])
unfolding parse_version find_submatch split_digits pre_group all_pre number atoi magnitude
    digits_value
parse-v1_10_0 = refl

parse-v1_10_0_rc : parse_version v1_10_0_rc ≡ ok (numbered 1 10 0 rc)
unfolding parse_version find_submatch split_digits pre_group all_pre number atoi magnitude
    digits_value
parse-v1_10_0_rc = refl

parse-v1_5 : parse_version v1_5 ≡ err invalid_semver
unfolding parse_version find_submatch split_digits pre_group all_pre number atoi magnitude
    digits_value
parse-v1_5 = refl

-- A text that is no version is compared as a text, so that the three texts stand in a circle.
compare_circle :
    (compare_versions v1_2_3 v1_10_0 ≡ less)
    × (compare_versions v1_10_0 (b'1' ∷ b'.' ∷ b'1' ∷ b'x' ∷ []) ≡ less)
    × (compare_versions (b'1' ∷ b'.' ∷ b'1' ∷ b'x' ∷ []) v1_2_3 ≡ less)
unfolding compare_versions compare_parsed cmp_int compare_pre compare_texts text_ltb parse_version
    find_submatch split_digits pre_group all_pre number atoi magnitude digits_value
compare_circle = (refl, refl, refl)

-- Beyond the largest int64 the raised number is negative, and its text is no version.
patch_overflow :
    bumped bump_patch (numbered 0 0 (two_63 - 1) [])
    ≡ ok (
        format_version
          (record { major = pos 0; minor = pos 0; patch = negsuc (two_63 - 1); pre = [] }))
unfolding bumped ◌+ℤ◌ wrap64
patch_overflow = refl

parse_negative : parse_version (b'0' ∷ b'.' ∷ b'0' ∷ b'.' ∷ b'-' ∷ b'9' ∷ []) ≡ err invalid_semver
unfolding parse_version find_submatch split_digits pre_group all_pre number atoi magnitude
    digits_value
parse_negative = refl

compare_versions-IsOrder_example :
    (compare_versions v1_10_0_rc v1_2_3 ≡ opposite (compare_versions v1_2_3 v1_10_0_rc))
    × ((compare_versions v1_2_3 v1_10_0_rc ≡ same) ↔ (numbered 1 2 3 [] ≡ numbered 1 10 0 rc))
    × (compare_versions v1_2_3 v1_10_0_rc ≡ less
        → compare_versions v1_10_0_rc v1_10_0 ≡ less
        → compare_versions v1_2_3 v1_10_0 ≡ less)
compare_versions-IsOrder_example =
    compare_versions-IsOrder v1_2_3 v1_10_0_rc v1_10_0 parse-v1_2_3 parse-v1_10_0_rc parse-v1_10_0

bump_version-Raised_example :
    Raised v1_2_3 bump_patch (numbered 1 2 4 []) × Raised v1_2_3 bump_minor (numbered 1 3 0 [])
unfolding ◌+ℤ◌
bump_version-Raised_example = bump_version-Raised v1_2_3 parse-v1_2_3 (omega arith) (omega arith)
