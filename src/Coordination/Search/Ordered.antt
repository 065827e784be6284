-- ===== src/Coordination/Search/Ordered.antt =====
-- The rune sets of parsed tokens are in ascending order and have no empty range, as the search needs
-- them.
use intercore.Common.{
  ℕ, zero, suc, ◌≤◌, ◌≡◌, subst, Bool, true, false, Option, none, some, List, [], ◌∷◌, arith,
  length, ltb, ◌==◌, Bool-cases, if-true, if-false, inl, inr,
}
use intercore.Common.Every.{Every}
use intercore.Common.Text.{Text}
use intercore.Common.Outcome.{Result, ok, ◌>>=◌, >>=-eq-ok, ok-injective, guard-eq-ok}
use intercore.Coordination.Ranges.{RuneRange, normalize_ranges, non_separator_ranges}
use intercore.Coordination.Ranges.Ascending.{Ascending, intersect_ranges-Ascending}
use intercore.Coordination.Ranges.Apart.{
  Filled, normalize_ranges-Filled, subtract_ranges-Apart, Apart-Ascending, Apart-Filled,
}
use intercore.Coordination.Ranges.Overlap.{intersect_ranges-Filled}
use intercore.Coordination.Glob.{
  Token, literal, any_rune, star, class, GlobError, bad_pattern, read_class_rune, range_dash,
  class_item, end_item, close_or, closes, class_rounds, class_ranges, close_class, parse_class,
  escaped, parse_token, parse_rounds, parse_segment,
}

abbrev pub Ordered : Token → Type 0
Ordered (literal lit) = Unit
Ordered (any_rune ranges) = Ascending ranges × Filled ranges
Ordered star = Unit
Ordered (class ranges) = Ascending ranges × Filled ranges

class_item-filled :
    (s : Text) (r : RuneRange) (rest : Text) → class_item s ≡ ok (r, rest) → r.lo ≤ r.hi
unfolding class_item
class_item-filled s r rest h =
    let (first, read, h1) = >>=-eq-ok (read_class_rune s) _ h in
    go first.0 first.1 (range_dash first.1) h1
  where
    go :
        (lo : ℕ) (after : Text) (o : Option Text) → end_item lo after o ≡ ok (r, rest) → r.lo ≤ r.hi
    go lo after none e = subst (λ p. p.0.lo ≤ p.0.hi) (ok-injective e) (omega arith)
    go lo after (some next) e =
        let (p, found, e1) = >>=-eq-ok (read_class_rune next) _ e in
        let (order, e2) = guard-eq-ok (ltb p.0 lo) bad_pattern _ e1 in
        subst (λ q. q.0.lo ≤ q.0.hi) (ok-injective e2) (ground arith)

class_rounds-Filled :
    (n : ℕ) (had_item : Bool) (s : Text) (rs : List RuneRange) (rest : Text)
    → class_rounds n had_item s ≡ ok (rs, rest)
    → Filled rs
unfolding class_rounds
class_rounds-Filled zero had_item s rs rest h = cc
class_rounds-Filled (suc n) had_item s rs rest h =
    go (closes s had_item) h (class_rounds-Filled n true)
  where
    go :
        (o : Option Text)
        → close_or o (
            class_item s >>= λ (r, next).
            class_rounds n true next >>= λ (qs, end). ok (r ∷ qs, end))
          ≡ ok (rs, rest)
        → ((t : Text) (qs : List RuneRange) (end : Text)
            → class_rounds n true t ≡ ok (qs, end)
            → Filled qs)
        → Filled rs
    go (some end) e f = subst (λ p. Filled p.0) (ok-injective e) tt
    go none e f =
        let (p, item, e1) = >>=-eq-ok (class_item s) _ e in
        let (q, items, e2) = >>=-eq-ok (class_rounds n true p.1) _ e1 in
        subst (λ x. Filled x.0) (ok-injective e2)
          (class_item-filled s p.0 p.1 item, f p.1 q.0 q.1 items)

class_ranges-Ordered :
    (negated : Bool) (rs : List RuneRange) → Filled rs → Ordered (class (class_ranges negated rs))
class_ranges-Ordered true rs f =
    let apart = subtract_ranges-Apart (normalize_ranges rs) (normalize_ranges-Filled rs f) in
    (Apart-Ascending _ apart, Apart-Filled _ apart)
class_ranges-Ordered false rs f = (
  intersect_ranges-Ascending (normalize_ranges rs) non_separator_ranges,
  intersect_ranges-Filled (normalize_ranges rs) non_separator_ranges,
)

close_class-Ordered :
    (negated : Bool) (s : Text) (t : Token) (rest : Text)
    → close_class negated s ≡ ok (t, rest)
    → Ordered t
unfolding close_class
close_class-Ordered negated s t rest h =
    let (p, items, done) = >>=-eq-ok (class_rounds (suc (length s)) false s) _ h in
    subst (λ q. Ordered q.0) (ok-injective done)
      (class_ranges-Ordered negated p.0
        (class_rounds-Filled (suc (length s)) false s p.0 p.1 items))

parse_class-Ordered :
    (s : Text) (t : Token) (rest : Text) → parse_class s ≡ ok (t, rest) → Ordered t
unfolding parse_class
parse_class-Ordered [] t rest h = cc
parse_class-Ordered (c ∷ s) t rest h = elim (Bool-cases (c == b'^')) [
  | inl e ↦ close_class-Ordered true s t rest (if-true _ _ e h)
  | inr e ↦ close_class-Ordered false (c ∷ s) t rest (if-false _ _ e h)
]

escaped-Ordered : (s : Text) (t : Token) (rest : Text) → escaped s ≡ ok (t, rest) → Ordered t
escaped-Ordered [] t rest h = cc
escaped-Ordered (c ∷ s) t rest h = subst (λ p. Ordered p.0) (ok-injective h) tt

parse_token-Ordered :
    (c : ℕ) (s : Text) (t : Token) (rest : Text) → parse_token c s ≡ ok (t, rest) → Ordered t
unfolding parse_token
parse_token-Ordered c s t rest h = elim (Bool-cases (c == b'*')) [
  | inl e ↦ fits star s tt (if-true _ _ e h)
  | inr e ↦ elim (Bool-cases (c == b'?')) [
    | inl f ↦
        fits (any_rune non_separator_ranges) s (omega arith, omega arith)
          (if-true _ _ f (if-false _ _ e h))
    | inr f ↦ elim (Bool-cases (c == b'[')) [
      | inl g ↦ parse_class-Ordered s t rest (if-true _ _ g (if-false _ _ f (if-false _ _ e h)))
      | inr g ↦ elim (Bool-cases (c == 92)) [
        | inl k ↦
            escaped-Ordered s t rest
              (if-true _ _ k (if-false _ _ g (if-false _ _ f (if-false _ _ e h))))
        | inr k ↦
            fits (literal c) s tt
              (if-false _ _ k (if-false _ _ g (if-false _ _ f (if-false _ _ e h))))
      ]
    ]
  ]
]
  where
    fits :
        (u : Token) (end : Text)
        → Ordered u
        → ◌≡◌ {A = Result GlobError (Token × Text)} (ok (u, end)) (ok (t, rest))
        → Ordered t
    fits u end o e = subst (λ p. Ordered p.0) (ok-injective e) o

parse_rounds-Ordered :
    (n : ℕ) (s : Text) (ts : List Token) → parse_rounds n s ≡ ok ts → Every Ordered ts
unfolding parse_rounds
parse_rounds-Ordered n [] ts h = subst (Every Ordered) (ok-injective h) tt
parse_rounds-Ordered zero (c ∷ s) ts h = cc
parse_rounds-Ordered (suc n) (c ∷ s) ts h =
    let (p, first, h1) = >>=-eq-ok (parse_token c s) _ h in
    let (us, others, h2) = >>=-eq-ok (parse_rounds n p.1) _ h1 in
    subst (Every Ordered) (ok-injective h2)
      (parse_token-Ordered c s p.0 p.1 first, parse_rounds-Ordered n p.1 us others)

pub parse_segment-Ordered :
    (s : Text) (ts : List Token) → parse_segment s ≡ ok ts → Every Ordered ts
unfolding parse_segment
parse_segment-Ordered s ts h = parse_rounds-Ordered (length s) s ts h
