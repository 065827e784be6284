-- ===== src/Publish/Version/Parsed.antt =====
-- What ParseVersion of internal/publish/version.go accepts, and what BumpVersion makes of it.
use intercore.Common.{
  ℕ, ◌<◌, ◌≡◌, refl, sym, ap, subst, ◌∙◌, Bool, true, false, not, ◌&&◌, Option, none, some, [], ◌∷◌,
  ◌==◌, ltb, if◌then◌else◌, arith, Bool-cases, inl, inr, if-true, if-false,
}
use mathlib.Core.Option.{some_inj}
use intercore.Common.Int.{ℤ, pos, two_63}
use intercore.Common.Text.{Text, atoi, magnitude, non_negative}
use intercore.Common.Every.{Every}
use intercore.Common.Outcome.{ok, >>=-eq-ok, ok-injective}
use intercore.Authz.Signing.{is_blank}
use intercore.Publish.Version.{
  Version, VersionError, invalid_major, invalid_minor, invalid_patch, is_digit, parse_version,
  find_submatch, Groups, pre_group, all_pre, split_digits, some_digits, after_dot, version_of,
  strip_hyphen, number, or_error, ◌then◌,
}
use intercore.Publish.Version.Numerals.{IsDigit}
use intercore.Publish.Version.Print.{numbered}

split_digits-IsDigit : (s : Text) → Every IsDigit (split_digits s).0
unfolding split_digits
split_digits-IsDigit [] = tt
split_digits-IsDigit (c ∷ s) = elim (Bool-cases (is_digit c)) [
  | inl e ↦ rw e (e, split_digits-IsDigit s)
  | inr e ↦ rw e tt
]

atoi_digit :
    (c : ℕ) (s : Text) → is_digit c ≡ true → atoi (c ∷ s) ≡ non_negative (magnitude (c ∷ s))
unfolding atoi
atoi_digit c s h =
    let minus : (c == b'-') ≡ false = ground arith in
    let plus : (c == b'+') ≡ false = ground arith in rw (minus, plus)

non_negative-eq-some :
    (o : Option ℕ) (z : ℤ) → non_negative o ≡ some z → (n : ℕ) × (z ≡ pos n) × (n < two_63)
non_negative-eq-some none z h = cc
non_negative-eq-some (some n) z h = elim (Bool-cases (ltb n two_63)) [
  | inl e ↦ (n, sym (some_inj.0 (if-true _ _ e h)), ground arith)
  | inr e ↦ let failed = if-false _ _ e h in cc
]

or_error-eq-ok : (e : VersionError) (o : Option ℤ) {z : ℤ} → or_error e o ≡ ok z → o ≡ some z
or_error-eq-ok e none h = cc
or_error-eq-ok e (some n) h = ap some (ok-injective h)

not-atoi-nil : {z : ℤ} → ¬ (atoi [] ≡ some z)
unfolding atoi
not-atoi-nil h = cc

number-digits :
    (e : VersionError) (digits : Text) (z : ℤ)
    → Every IsDigit digits
    → number e digits ≡ ok z
    → (n : ℕ) × (z ≡ pos n) × (n < two_63)
unfolding number
number-digits e [] z h k = absurd (not-atoi-nil (or_error-eq-ok e (atoi []) k))
number-digits e (c ∷ s) z h k =
    non_negative-eq-some (magnitude (c ∷ s)) z
      (sym (atoi_digit c s h.0) ∙ or_error-eq-ok e (atoi (c ∷ s)) k)

then-eq-some :
    {A B : Type 0} (o : Option A) (f : A → Option B) {b : B}
    → (o then f) ≡ some b
    → (a : A) × (o ≡ some a) × (f a ≡ some b)
then-eq-some none f h = cc
then-eq-some (some a) f h = (a, refl, h)

some_digits-IsDigit :
    (s : Text) (a : Text × Text) → some_digits (split_digits s) ≡ some a → Every IsDigit a.0
some_digits-IsDigit s a h = elim (Bool-cases (is_blank (split_digits s).0)) [
  | inl e ↦ let failed = if-true _ _ e h in cc
  | inr e ↦
      let found = some_inj.0 (if-false _ _ e h) in
      subst (λ x. Every IsDigit x.0) found (split_digits-IsDigit s)
]

and-right : (a b : Bool) → (a && b) ≡ true → b ≡ true
and-right true b h = h
and-right false b h = cc

pre_group-eq-some :
    (s suffix : Text) → pre_group s ≡ some suffix → all_pre (strip_hyphen suffix) ≡ true
unfolding pre_group all_pre
pre_group-eq-some [] suffix h = subst (λ t. all_pre (strip_hyphen t) ≡ true) (some_inj.0 h) refl
pre_group-eq-some (c ∷ s) suffix h =
    elim (Bool-cases (c == b'-' && not (is_blank s) && all_pre s)) [
      | inl e ↦
          subst (λ t. all_pre (strip_hyphen t) ≡ true) (some_inj.0 (if-true _ _ e h))
            (and-right (c == b'-' && not (is_blank s)) (all_pre s) e)
      | inr e ↦ let failed = if-false _ _ e h in cc
    ]

record Matched (g : Groups) : Type 0 where
  major : Every IsDigit g.major_digits
  minor : Every IsDigit g.minor_digits
  patch : Every IsDigit g.patch_digits
  pre : all_pre (strip_hyphen g.suffix) ≡ true

find_submatch-Matched : (s : Text) (g : Groups) → find_submatch s ≡ some g → Matched g
unfolding find_submatch
find_submatch-Matched s g h =
    let (a, ha, h1) = then-eq-some (some_digits (split_digits s)) _ h in
    let (s1, _, h2) = then-eq-some (after_dot a.1) _ h1 in
    let (b, hb, h3) = then-eq-some (some_digits (split_digits s1)) _ h2 in
    let (s2, _, h4) = then-eq-some (after_dot b.1) _ h3 in
    let (c, hc, h5) = then-eq-some (some_digits (split_digits s2)) _ h4 in
    let (suffix, hd, h6) = then-eq-some (pre_group c.1) _ h5 in
    subst Matched (some_inj.0 h6) (record {
      major = some_digits-IsDigit s a ha;
      minor = some_digits-IsDigit s1 b hb;
      patch = some_digits-IsDigit s2 c hc;
      pre = pre_group-eq-some c.1 suffix hd;
    })

-- Each number of a version that parses is below 2^63 and not negative.
pub record Parsed (v : Version) : Type 0 where
  pub a : ℕ
  pub b : ℕ
  pub c : ℕ
  pub pre : Text
  pub written : v ≡ numbered a b c pre
  pub a_fits : a < two_63
  pub b_fits : b < two_63
  pub c_fits : c < two_63
  pub pre_runes : all_pre pre ≡ true

components_equal :
    {x y z : ℤ} {a b c : ℕ} (pre : Text)
    → x ≡ pos a
    → y ≡ pos b
    → z ≡ pos c
    → ◌≡◌ {A = Version} (record { major = x; minor = y; patch = z; pre = pre }) (numbered a b c pre)
components_equal pre ha hb hc = cc

version_of-Parsed :
    (o : Option Groups) (v : Version)
    → ((g : Groups) → o ≡ some g → Matched g)
    → version_of o ≡ ok v
    → Parsed v
version_of-Parsed none v m h = cc
version_of-Parsed (some g) v m h =
    let matched = m g refl in
    let (x, hx, h1) = >>=-eq-ok (number invalid_major g.major_digits) _ h in
    let (y, hy, h2) = >>=-eq-ok (number invalid_minor g.minor_digits) _ h1 in
    let (z, hz, h3) = >>=-eq-ok (number invalid_patch g.patch_digits) _ h2 in
    let (a, ea, la) = number-digits invalid_major g.major_digits x matched.major hx in
    let (b, eb, lb) = number-digits invalid_minor g.minor_digits y matched.minor hy in
    let (c, ec, lc) = number-digits invalid_patch g.patch_digits z matched.patch hz in
    record {
      a = a;
      b = b;
      c = c;
      pre = strip_hyphen g.suffix;
      written = sym (ok-injective h3) ∙ components_equal (strip_hyphen g.suffix) ea eb ec;
      a_fits = la;
      b_fits = lb;
      c_fits = lc;
      pre_runes = matched.pre;
    }

pub parse_version-Parsed : (s : Text) (v : Version) → parse_version s ≡ ok v → Parsed v
unfolding parse_version
parse_version-Parsed s v h = version_of-Parsed (find_submatch s) v (find_submatch-Matched s) h
