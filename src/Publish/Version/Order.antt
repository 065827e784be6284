-- ===== src/Publish/Version/Order.antt =====
-- CompareVersions of internal/publish/version.go as an order: one component after the other.
use intercore.Common.{
  ◌≡◌, refl, sym, ap, subst, ◌∙◌, not, [], ◌∷◌, if◌then◌else◌, arith, inl, inr, ◌⊎◌, ◌↔◌,
}
use intercore.Common.Int.{ℤ, pos, negsuc, eqb_ℤ}
use intercore.Common.Text.{Text}
use intercore.Common.Outcome.{ok, err, Result}
use intercore.Publish.Version.{
  Version, VersionError, parse_version, compare_texts, cmp_int, compare_pre, compare_parsed,
  compare_results, compare_versions, Sign, less, same, more,
}
use intercore.Publish.Version.Texts.{
  text_ltb-irreflexive, text_ltb-asymmetric, text_ltb-transitive, text_ltb-connected,
}

abbrev pub opposite : Sign → Sign
opposite less = more
opposite same = same
opposite more = less

abbrev pub then_by : Sign → Sign → Sign
then_by less r = less
then_by same r = r
then_by more r = more

pub record IsOrder {A : Type 0} (compare : A → A → Sign) : Type 0 where
  pub flip : (a b : A) → compare b a ≡ opposite (compare a b)
  pub self : (a : A) → compare a a ≡ same
  pub apart : (a b : A) → compare a b ≡ same → a ≡ b
  pub chain : (a b c : A) → compare a b ≡ less → compare b c ≡ less → compare a c ≡ less

abbrev pub lexicographic : {A B : Type 0} → (A → A → Sign) → (B → B → Sign) → A × B → A × B → Sign
lexicographic f g a b = then_by (f a.0 b.0) (g a.1 b.1)

then_by-opposite : (x y : Sign) → opposite (then_by x y) ≡ then_by (opposite x) (opposite y)
then_by-opposite less y = refl
then_by-opposite same y = refl
then_by-opposite more y = refl

module _ {A B : Type 0} (f : A → A → Sign) (g : B → B → Sign) (order_f : IsOrder f)
    (order_g : IsOrder g) where
  then_by-same : (x y : Sign) → then_by x y ≡ same → (x ≡ same) × (y ≡ same)
  then_by-same less y h = cc
  then_by-same same y h = (refl, h)
  then_by-same more y h = cc

  then_by-less : (x y : Sign) → then_by x y ≡ less → (x ≡ less) ⊎ ((x ≡ same) × (y ≡ less))
  then_by-less less y h = inl refl
  then_by-less same y h = inr (refl, h)
  then_by-less more y h = cc

  lexicographic_chain :
      (a b c : A × B)
      → lexicographic f g a b ≡ less
      → lexicographic f g b c ≡ less
      → lexicographic f g a c ≡ less
  lexicographic_chain (a, x) (b, y) (c, z) h k = elim (then_by-less (f a b) (g x y) h) [
    | inl first ↦ elim (then_by-less (f b c) (g y z) k) [
      | inl second ↦ rw (order_f.chain a b c first second)
      | inr (even, rest) ↦ rw (subst (λ e. f a e ≡ less) (order_f.apart b c even) first)
    ]
    | inr (even, rest) ↦ elim (then_by-less (f b c) (g y z) k) [
      | inl second ↦ rw (subst (λ e. f e c ≡ less) (sym (order_f.apart a b even)) second)
      | inr (even', rest') ↦
          let both : f a c ≡ same =
            subst (λ e. f e c ≡ same) (sym (order_f.apart a b even)) even' in
          rw (both, order_g.chain x y z rest rest')
    ]
  ]

  pub lexicographic-IsOrder : IsOrder (lexicographic f g)
  lexicographic-IsOrder = record {
    flip = λ a b.
        rw (order_f.flip a.0 b.0, order_g.flip a.1 b.1)
          (sym (then_by-opposite (f a.0 b.0) (g a.1 b.1)));
    self = λ a. rw (order_f.self a.0, order_g.self a.1);
    apart = λ a b h.
        let (p, q) = then_by-same (f a.0 b.0) (g a.1 b.1) h in
        let p' = order_f.apart a.0 b.0 p in let q' = order_g.apart a.1 b.1 q in cc;
    chain = lexicographic_chain;
  }

cmp_int-apart : (a b : ℤ) → cmp_int a b ≡ same → a ≡ b
unfolding cmp_int
cmp_int-apart (pos m) (pos n) h = ap pos (ground arith)
cmp_int-apart (pos m) (negsuc n) h = ground arith
cmp_int-apart (negsuc m) (pos n) h = ground arith
cmp_int-apart (negsuc m) (negsuc n) h = ap negsuc (ground arith)

cmp_int-IsOrder : IsOrder cmp_int
unfolding cmp_int
cmp_int-IsOrder = record {
  flip = λ a b. ground arith;
  self = λ a. ground arith;
  apart = cmp_int-apart;
  chain = λ a b c h k. ground arith;
}

compare_texts-IsOrder : IsOrder compare_texts
unfolding compare_texts
compare_texts-IsOrder = record {
  flip = λ s t. ground (arith, text_ltb-asymmetric s t, text_ltb-asymmetric t s);
  self = λ s. ground (arith, text_ltb-irreflexive s);
  apart = λ s t h. text_ltb-connected s t (ground arith) (ground arith);
  chain = λ s t u h k. ground (arith, text_ltb-transitive s t u);
}

pre_flip : (s t : Text) → compare_pre t s ≡ opposite (compare_pre s t)
unfolding compare_pre
pre_flip [] [] = compare_texts-IsOrder.flip [] []
pre_flip [] (d ∷ t) = refl
pre_flip (c ∷ s) [] = refl
pre_flip (c ∷ s) (d ∷ t) = compare_texts-IsOrder.flip (c ∷ s) (d ∷ t)

pre_self : (s : Text) → compare_pre s s ≡ same
unfolding compare_pre
pre_self [] = compare_texts-IsOrder.self []
pre_self (c ∷ s) = compare_texts-IsOrder.self (c ∷ s)

pre_apart : (s t : Text) → compare_pre s t ≡ same → s ≡ t
unfolding compare_pre
pre_apart [] [] h = refl
pre_apart [] (d ∷ t) h = cc
pre_apart (c ∷ s) [] h = cc
pre_apart (c ∷ s) (d ∷ t) h = compare_texts-IsOrder.apart (c ∷ s) (d ∷ t) h

pre_chain :
    (s t u : Text) → compare_pre s t ≡ less → compare_pre t u ≡ less → compare_pre s u ≡ less
unfolding compare_pre
pre_chain [] [] u h k = cc
pre_chain [] (d ∷ t) u h k = cc
pre_chain (c ∷ s) [] [] h k = refl
pre_chain (c ∷ s) [] (e ∷ u) h k = cc
pre_chain (c ∷ s) (d ∷ t) [] h k = refl
pre_chain (c ∷ s) (d ∷ t) (e ∷ u) h k = compare_texts-IsOrder.chain (c ∷ s) (d ∷ t) (e ∷ u) h k

compare_pre-IsOrder : IsOrder compare_pre
compare_pre-IsOrder = record {
  flip = pre_flip;
  self = pre_self;
  apart = pre_apart;
  chain = pre_chain;
}

components : Version → ℤ × (ℤ × (ℤ × Text))
components v = (v.major, (v.minor, (v.patch, v.pre)))

abbrev from_components : ℤ × (ℤ × (ℤ × Text)) → Version
from_components (a, (b, (c, p))) = record { major = a; minor = b; patch = c; pre = p }

abbrev by_components : ℤ × (ℤ × (ℤ × Text)) → ℤ × (ℤ × (ℤ × Text)) → Sign
by_components = lexicographic cmp_int (lexicographic cmp_int (lexicographic cmp_int compare_pre))

if_differ :
    (a b : ℤ) (r : Sign) → (if not (eqb_ℤ a b) then cmp_int a b else r) ≡ then_by (cmp_int a b) r
unfolding cmp_int
if_differ a b r = ground arith

compare_parsed-by_components :
    (v w : Version) → compare_parsed v w ≡ by_components (components v) (components w)
unfolding compare_parsed components
compare_parsed-by_components v w =
    if_differ v.major w.major _
    ∙ ap (then_by (cmp_int v.major w.major)) (
        if_differ v.minor w.minor _
        ∙ ap (then_by (cmp_int v.minor w.minor)) (if_differ v.patch w.patch _))

by_components-IsOrder : IsOrder by_components
by_components-IsOrder = lexicographic-IsOrder cmp_int _ cmp_int-IsOrder (
    lexicographic-IsOrder cmp_int _ cmp_int-IsOrder
      (lexicographic-IsOrder cmp_int compare_pre cmp_int-IsOrder compare_pre-IsOrder))

pub compare_parsed-IsOrder : IsOrder compare_parsed
unfolding components
compare_parsed-IsOrder =
    let o = by_components-IsOrder in
    let e = compare_parsed-by_components in
    record {
      flip = λ v w. e w v ∙ o.flip (components v) (components w) ∙ ap opposite (sym (e v w));
      self = λ v. e v v ∙ o.self (components v);
      apart = λ v w h. ap from_components (o.apart (components v) (components w) (sym (e v w) ∙ h));
      chain = λ v w u h k.
          e v u
          ∙ o.chain (components v) (components w) (components u) (sym (e v w) ∙ h)
              (sym (e w u) ∙ k);
    }

compare_results_flip :
    (s t : Text) (x y : Result VersionError Version)
    → compare_results t s y x ≡ opposite (compare_results s t x y)
compare_results_flip s t (ok v) (ok w) = compare_parsed-IsOrder.flip v w
compare_results_flip s t (ok v) (err e) = compare_texts-IsOrder.flip s t
compare_results_flip s t (err e) (ok w) = compare_texts-IsOrder.flip s t
compare_results_flip s t (err e) (err f) = compare_texts-IsOrder.flip s t

pub compare_versions-opposite :
    (s t : Text) → compare_versions t s ≡ opposite (compare_versions s t)
unfolding compare_versions
compare_versions-opposite s t = compare_results_flip s t (parse_version s) (parse_version t)

pub compare_versions-eq-parsed :
    (s t : Text) {v w : Version}
    → parse_version s ≡ ok v
    → parse_version t ≡ ok w
    → compare_versions s t ≡ compare_parsed v w
unfolding compare_versions
compare_versions-eq-parsed s t hs ht = rw (hs, ht)

module _ (s t u : Text) {a b c : Version} where
  -- On three texts that parse, CompareVersions is a total order of the versions: turning the
  -- texts round turns the answer round, the answer is 0 exactly for equal versions, and what is
  -- smaller than a smaller version is smaller.
  pub compare_versions-IsOrder :
      parse_version s ≡ ok a
      → parse_version t ≡ ok b
      → parse_version u ≡ ok c
      → (compare_versions t s ≡ opposite (compare_versions s t))
        × ((compare_versions s t ≡ same) ↔ (a ≡ b))
        × (compare_versions s t ≡ less → compare_versions t u ≡ less → compare_versions s u ≡ less)
  compare_versions-IsOrder hs ht hu =
      let o = compare_parsed-IsOrder in
      let st = compare_versions-eq-parsed s t hs ht in
      let tu = compare_versions-eq-parsed t u ht hu in
      (
        compare_versions-opposite s t,
        (
          λ h. o.apart a b (sym st ∙ h),
          λ h. st ∙ subst (λ v. compare_parsed a v ≡ same) h (o.self a),
        ),
        λ h k. compare_versions-eq-parsed s u hs hu ∙ o.chain a b c (sym st ∙ h) (sym tu ∙ k),
      )
