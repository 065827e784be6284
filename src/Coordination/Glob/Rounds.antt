-- ===== src/Coordination/Glob/Rounds.antt =====
-- The loops of the pattern parser end: each round reads at least one rune.
use intercore.Common.{
  ℕ, zero, suc, ◌≤◌, ◌<◌, ◌≡◌, ◌≢◌, Bool, true, false, ◌&&◌, some, [], ◌∷◌, arith, length, ◌==◌,
  Bool-cases, Option-cases, inl, inr,
}
use intercore.Common.Text.{Text}
use intercore.Common.Outcome.{Result, ok, err, ◌>>=◌}
use intercore.Coordination.Glob.{
  Token, GlobError, out_of_rounds, bad_pattern, read_class_rune, range_dash, class_item,
  class_rounds, close_class, parse_class, parse_token, parse_rounds, parse_segment, escaped,
}

-- A run that ends with an error other than `out_of_rounds`, or leaves less than `n` runes.
abbrev pub Ends {ℓ} : {A : Type ℓ} → ℕ → Result GlobError (A × Text) → Type 0
Ends n (ok (a, rest)) = length rest < n
Ends n (err e) = e ≢ out_of_rounds

Ends-weaken {ℓ} :
    {A : Type ℓ} (m n : ℕ) (r : Result GlobError (A × Text)) → m ≤ n → Ends m r → Ends n r
Ends-weaken m n (ok (a, rest)) le h = omega arith
Ends-weaken m n (err e) le h = h

-- What follows a run that ends is run on less text.
Ends-bind {ℓ κ} :
    {A : Type ℓ} {B : Type κ} (m n : ℕ) (r : Result GlobError (A × Text))
    (f : A × Text → Result GlobError (B × Text))
    → m ≤ n
    → Ends m r
    → ((a : A) (rest : Text) → length rest < m → Ends n (f (a, rest)))
    → Ends n (r >>= f)
Ends-bind m n (ok (a, rest)) f le h k = k a rest h
Ends-bind m n (err e) f le h k = h

bad : bad_pattern ≢ out_of_rounds
bad h = cc

read_class_rune-Ends : (s : Text) → Ends (length s) (read_class_rune s)
unfolding read_class_rune
read_class_rune-Ends [] = bad
read_class_rune-Ends (c ∷ []) = elim (Bool-cases (c == 92)) [
  | inl e ↦ rw e bad
  | inr e ↦ rw e (omega arith)
]
read_class_rune-Ends (c ∷ d ∷ s) = elim (Bool-cases (c == 92)) [
  | inl e ↦ rw e (omega arith)
  | inr e ↦ rw e (omega arith)
]

range_dash-shorter : (s after : Text) → range_dash s ≡ some after → length after < length s
unfolding range_dash
range_dash-shorter [] after h = cc
range_dash-shorter (c ∷ []) after h = cc
range_dash-shorter (c ∷ d ∷ s) after h = ground arith

class_item-Ends : (s : Text) → Ends (length s) (class_item s)
unfolding class_item
class_item-Ends s =
    Ends-bind (length s) (length s) (read_class_rune s) _ (omega arith) (read_class_rune-Ends s)
      (λ lo rest h. elim (Option-cases (range_dash rest)) [
        | inl e ↦ rw e h
        | inr (after, e) ↦ rw e (
            Ends-bind (length after) (length s) (read_class_rune after) _
              (omega (arith, range_dash-shorter rest after e)) (read_class_rune-Ends after)
              (λ hi next g. ground (arith, bad, range_dash-shorter rest after e)))
      ])

class_rounds-Ends :
    (n : ℕ) (had_item : Bool) (s : Text)
    → length s < n
    → Ends (suc (length s)) (class_rounds n had_item s)
unfolding class_rounds class_item read_class_rune
class_rounds-Ends zero had_item s h = elim h [ ]
class_rounds-Ends (suc n) had_item [] h = bad
class_rounds-Ends (suc n) had_item (c ∷ s) h = elim (Bool-cases (c == b']' && had_item)) [
  | inl e ↦ rw (e, Ends) (omega arith)
  | inr e ↦
      rw (e, Ends)
        (Ends-bind (suc (length s)) (suc (suc (length s))) (class_item (c ∷ s)) _ (omega arith)
          (class_item-Ends (c ∷ s))
          (λ r next g.
            Ends-bind (suc (length next)) (suc (suc (length s))) (class_rounds n true next) _
              (omega arith) (class_rounds-Ends n true next (omega arith))
              (λ rs rest k. omega arith)))
]

close_class-Ends : (negated : Bool) (s : Text) → Ends (suc (length s)) (close_class negated s)
unfolding close_class
close_class-Ends negated s =
    Ends-bind (suc (length s)) (suc (length s)) (class_rounds (suc (length s)) false s) _
      (omega arith) (class_rounds-Ends (suc (length s)) false s (omega arith)) (λ rs rest k. k)

parse_class-Ends : (s : Text) → Ends (suc (length s)) (parse_class s)
unfolding parse_class
parse_class-Ends [] = bad
parse_class-Ends (c ∷ s) = elim (Bool-cases (c == b'^')) [
  | inl e ↦ rw e (
      Ends-weaken (suc (length s)) (suc (suc (length s))) (close_class true s) (omega arith)
        (close_class-Ends true s))
  | inr e ↦ rw e (close_class-Ends false (c ∷ s))
]

escaped-Ends : (s : Text) → Ends (suc (length s)) (escaped s)
escaped-Ends [] = bad
escaped-Ends (c ∷ s) = omega arith

parse_token-Ends : (c : ℕ) (s : Text) → Ends (suc (length s)) (parse_token c s)
unfolding parse_token
parse_token-Ends c s = ground (arith, parse_class-Ends s, escaped-Ends s)

>>=-eq-err {ℓ κ} :
    {A : Type ℓ} {B : Type κ} (r : Result GlobError A) (f : A → B) {x : GlobError}
    → (r >>= λ a. ok (f a)) ≡ err x
    → r ≡ err x
>>=-eq-err (ok a) f h = cc
>>=-eq-err (err e) f h = cc

parse_rounds-ends : (n : ℕ) (s : Text) → length s ≤ n → parse_rounds n s ≢ err out_of_rounds
unfolding parse_rounds
parse_rounds-ends n [] h e = cc
parse_rounds-ends zero (c ∷ s) h e = elim h [ ]
parse_rounds-ends (suc n) (c ∷ s) h e =
    go (parse_token c s) (parse_token-Ends c s) (λ rest k. parse_rounds-ends n rest k) e
  where
    go :
        (r : Result GlobError (Token × Text))
        → Ends (suc (length s)) r
        → ((rest : Text) → length rest ≤ n → parse_rounds n rest ≢ err out_of_rounds)
        → (r >>= λ (t, rest). parse_rounds n rest >>= λ ts. ok (t ∷ ts)) ≢ err out_of_rounds
    go (err x) k i e = k (cc)
    go (ok (t, rest)) k i e =
        i rest (omega arith) (>>=-eq-err (parse_rounds n rest) (λ ts. t ∷ ts) e)

-- The parser always ends: each of its loops reads a rune in every round, so a pattern's length
-- is enough rounds.
pub parse_segment-ends : (s : Text) → parse_segment s ≢ err out_of_rounds
unfolding parse_segment
parse_segment-ends s = parse_rounds-ends (length s) s (omega arith)
