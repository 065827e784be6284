-- ===== src/Publish/Version/Print.antt =====
-- FormatVersion, ParseVersion and BumpVersion of internal/publish/version.go together.
use intercore.Common.{
  ℕ, suc, ◌+◌, ◌<◌, ◌≡◌, refl, sym, ap, ◌∙◌, true, some, [], ◌∷◌, ◌++◌, if◌then◌else◌, arith,
}
use mathlib.Core.List.{append_assoc, append-nil}
use intercore.Common.Int.{pos, two_63, wrap64, wrap64_pos, +ℤ_pos, ◌+ℤ◌}
use intercore.Common.Text.{Text}
use intercore.Common.Outcome.{ok}
use intercore.Authz.Signing.{is_blank, decimal}
use intercore.Publish.Version.{
  Version, parse_version, format_version, bumped, bump_patch, bump_minor, find_submatch, pre_group,
  all_pre, compare_parsed, number, VersionError, invalid_major, invalid_minor, invalid_patch,
  strip_hyphen, less, cmp_int,
}
use intercore.Publish.Version.Numerals.{stops, some_digits-decimal, atoi-decimal}

-- A version with the components that a pattern's digits stand for.
abbrev pub numbered : ℕ → ℕ → ℕ → Text → Version
numbered a b c pre = record { major = pos a; minor = pos b; patch = pos c; pre = pre }

abbrev suffix_of : Text → Text
suffix_of pre = if is_blank pre then [] else b'-' ∷ pre

abbrev spelled : ℕ → ℕ → ℕ → Text → Text
spelled a b c rest = decimal a ++ (b'.' ∷ (decimal b ++ (b'.' ∷ (decimal c ++ rest))))

format_version-numbered :
    (a b c : ℕ) (pre : Text) → format_version (numbered a b c pre) ≡ spelled a b c (suffix_of pre)
unfolding format_version
format_version-numbered a b c [] =
    append_assoc (decimal a) (b'.' ∷ decimal b) (b'.' ∷ decimal c)
    ∙ ap (λ t. decimal a ++ (b'.' ∷ (decimal b ++ (b'.' ∷ t)))) (sym (append-nil (decimal c)))
format_version-numbered a b c (x ∷ pre) =
    append_assoc (decimal a ++ b'.' ∷ decimal b) (b'.' ∷ decimal c) (b'-' ∷ x ∷ pre)
    ∙ append_assoc (decimal a) (b'.' ∷ decimal b) (b'.' ∷ (decimal c ++ b'-' ∷ x ∷ pre))

pre_group-suffix_of :
    (pre : Text) → all_pre pre ≡ true → pre_group (suffix_of pre) ≡ some (suffix_of pre)
unfolding pre_group
pre_group-suffix_of [] h = refl
pre_group-suffix_of (x ∷ pre) h = rw h

suffix_of-stops : (pre : Text) → stops (suffix_of pre) ≡ true
suffix_of-stops [] = refl
suffix_of-stops (x ∷ pre) = refl

find_submatch-numbered :
    (a b c : ℕ) (pre : Text)
    → all_pre pre ≡ true
    → find_submatch (spelled a b c (suffix_of pre))
      ≡ some (record {
        major_digits = decimal a;
        minor_digits = decimal b;
        patch_digits = decimal c;
        suffix = suffix_of pre;
      })
unfolding find_submatch
find_submatch-numbered a b c pre h = rw (
  some_digits-decimal a (b'.' ∷ (decimal b ++ (b'.' ∷ (decimal c ++ suffix_of pre)))) refl,
  some_digits-decimal b (b'.' ∷ (decimal c ++ suffix_of pre)) refl,
  some_digits-decimal c (suffix_of pre) (suffix_of-stops pre),
  pre_group-suffix_of pre h,
)

strip_hyphen-suffix_of : (pre : Text) → strip_hyphen (suffix_of pre) ≡ pre
strip_hyphen-suffix_of [] = refl
strip_hyphen-suffix_of (x ∷ pre) = refl

number-decimal : (e : VersionError) (n : ℕ) → n < two_63 → number e (decimal n) ≡ ok (pos n)
unfolding number
number-decimal e n h = rw (number, atoi-decimal n h)

module _ (a b c : ℕ) (pre : Text) where
  -- A version with components below 2^63 and a pre-numbered of letters, digits and dots is read
  -- back from its text.
  pub parse_version-format_version :
      a < two_63
      → b < two_63
      → c < two_63
      → all_pre pre ≡ true
      → parse_version (format_version (numbered a b c pre)) ≡ ok (numbered a b c pre)
  unfolding parse_version
  parse_version-format_version ha hb hc h = rw (
    format_version-numbered a b c pre,
    find_submatch-numbered a b c pre h,
    number-decimal invalid_major a ha,
    number-decimal invalid_minor b hb,
    number-decimal invalid_patch c hc,
    strip_hyphen-suffix_of pre,
  )

cmp_int-suc : (n : ℕ) → cmp_int (pos n) (pos (suc n)) ≡ less
unfolding cmp_int
cmp_int-suc n = ground arith

wrap64-suc : (n : ℕ) → suc n < two_63 → wrap64 (pos n +ℤ pos 1) ≡ pos (suc n)
wrap64-suc n h =
    ap wrap64 (+ℤ_pos n 1) ∙ wrap64_pos (n + 1) (omega (arith, h)) ∙ ap pos (omega arith)

pub bumped-patch :
    (a b c : ℕ) (pre : Text)
    → suc c < two_63
    → bumped bump_patch (numbered a b c pre) ≡ ok (format_version (numbered a b (suc c) []))
unfolding bumped
bumped-patch a b c pre h = rw (wrap64-suc c h)

pub bumped-minor :
    (a b c : ℕ) (pre : Text)
    → suc b < two_63
    → bumped bump_minor (numbered a b c pre) ≡ ok (format_version (numbered a (suc b) 0 []))
unfolding bumped
bumped-minor a b c pre h = rw (wrap64-suc b h)

pub compare_parsed-patch :
    (a b c : ℕ) (pre : Text) → compare_parsed (numbered a b c pre) (numbered a b (suc c) []) ≡ less
unfolding compare_parsed
compare_parsed-patch a b c pre = ground (arith, cmp_int-suc c)

pub compare_parsed-minor :
    (a b c : ℕ) (pre : Text) → compare_parsed (numbered a b c pre) (numbered a (suc b) 0 []) ≡ less
unfolding compare_parsed
compare_parsed-minor a b c pre = ground (arith, cmp_int-suc b)
