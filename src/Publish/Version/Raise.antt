-- ===== src/Publish/Version/Raise.antt =====
-- BumpVersion of internal/publish/version.go: what it makes of a version that parses.
use intercore.Common.{ℕ, suc, ◌+◌, ◌-◌, ◌<◌, ◌≤◌, true, ◌≡◌, refl, sym, ap, subst, ◌∙◌, [], arith}
use intercore.Common.Int.{ℤ, pos, two_63, ◌+ℤ◌, ◌≤ℤ◌, +ℤ_pos}
use intercore.Common.Text.{Text}
use intercore.Common.Outcome.{ok}
use intercore.Publish.Version.{
  Version, parse_version, format_version, bump_version, bumped, BumpMode, bump_patch, bump_minor,
  compare_versions, compare_parsed, less, all_pre,
}
use intercore.Publish.Version.Order.{compare_versions-eq-parsed}
use intercore.Publish.Version.Print.{
  numbered, parse_version-format_version, bumped-patch, bumped-minor, compare_parsed-patch,
  compare_parsed-minor,
}
use intercore.Publish.Version.Parsed.{Parsed, parse_version-Parsed}

abbrev pub last_raisable : ℤ
last_raisable = pos (two_63 - 2)

-- The raised text parses, and it is greater than the first one.
pub record Raised (s : Text) (mode : BumpMode) (w : Version) : Type 0 where
  pub text : Text
  pub bumps : bump_version s mode ≡ ok text
  pub parses : parse_version text ≡ ok w
  pub greater : compare_versions s text ≡ less

raise :
    (s : Text) (mode : BumpMode) (v w : Version)
    → parse_version s ≡ ok v
    → bumped mode v ≡ ok (format_version w)
    → parse_version (format_version w) ≡ ok w
    → compare_parsed v w ≡ less
    → Raised s mode w
unfolding bump_version
raise s mode v w parsed bumps back order = record {
  text = format_version w;
  bumps = rw parsed bumps;
  parses = back;
  greater = compare_versions-eq-parsed s (format_version w) parsed back ∙ order;
}

no_pre : all_pre [] ≡ true
unfolding all_pre
no_pre = refl

plus_one : (n : ℕ) → pos (suc n) ≡ pos n +ℤ pos 1
plus_one n = ap pos (omega arith) ∙ sym (+ℤ_pos n 1)

room : (n : ℕ) (z : ℤ) → z ≡ pos n → z ≤ℤ last_raisable → suc n < two_63
room n z e h =
    let small : n + 0 ≤ two_63 - 2 = subst (λ x. x ≤ℤ last_raisable) e h in omega (arith, small)

raise_patch :
    (s : Text) (v : Version) (p : Parsed v)
    → parse_version s ≡ ok v
    → v.patch ≤ℤ last_raisable
    → Raised s bump_patch (record v { patch = v.patch +ℤ pos 1; pre = [] })
raise_patch s v p parsed fits =
    let small = room p.c v.patch (ap (λ x. x.patch) p.written) fits in
    let back = parse_version-format_version p.a p.b (suc p.c) [] p.a_fits p.b_fits small no_pre in
    let raised =
      raise s bump_patch (numbered p.a p.b p.c p.pre) (numbered p.a p.b (suc p.c) [])
        (parsed ∙ ap ok p.written) (bumped-patch p.a p.b p.c p.pre small) back
        (compare_parsed-patch p.a p.b p.c p.pre) in
    subst (λ x. Raised s bump_patch (record x { patch = x.patch +ℤ pos 1; pre = [] }))
      (sym p.written)
      (subst
        (λ n.
          Raised s bump_patch (record { major = pos p.a; minor = pos p.b; patch = n; pre = [] }))
        (plus_one p.c) raised)

raise_minor :
    (s : Text) (v : Version) (p : Parsed v)
    → parse_version s ≡ ok v
    → v.minor ≤ℤ last_raisable
    → Raised s bump_minor (record v { minor = v.minor +ℤ pos 1; patch = pos 0; pre = [] })
raise_minor s v p parsed fits =
    let small = room p.b v.minor (ap (λ x. x.minor) p.written) fits in
    let back =
      parse_version-format_version p.a (suc p.b) 0 [] p.a_fits small (omega arith) no_pre in
    let raised =
      raise s bump_minor (numbered p.a p.b p.c p.pre) (numbered p.a (suc p.b) 0 [])
        (parsed ∙ ap ok p.written) (bumped-minor p.a p.b p.c p.pre small) back
        (compare_parsed-minor p.a p.b p.c p.pre) in
    subst
      (λ x. Raised s bump_minor (record x { minor = x.minor +ℤ pos 1; patch = pos 0; pre = [] }))
      (sym p.written)
      (subst
        (λ n. Raised s bump_minor (record { major = pos p.a; minor = n; patch = pos 0; pre = [] }))
        (plus_one p.b) raised)

-- A version that parses and whose last two numbers are below the largest int64 can be raised in
-- either way: the text that comes out parses as the version with that number one larger, what
-- follows it 0 and no pre-numbered, and it is greater than the first text.
pub bump_version-Raised :
    (s : Text) {v : Version}
    → parse_version s ≡ ok v
    → v.minor ≤ℤ last_raisable
    → v.patch ≤ℤ last_raisable
    → Raised s bump_patch (record v { patch = v.patch +ℤ pos 1; pre = [] })
      × Raised s bump_minor (record v { minor = v.minor +ℤ pos 1; patch = pos 0; pre = [] })
bump_version-Raised s {v} parsed minor patch =
    let p = parse_version-Parsed s v parsed in
    (raise_patch s v p parsed patch, raise_minor s v p parsed minor)
