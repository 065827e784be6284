-- ===== src/Coordination/Ranges/Members.antt =====
-- Which runes the results of the set operations hold.
use intercore.Common.{
  ℕ, zero, suc, ◌+◌, ◌≤◌, ◌<◌, ◌≡◌, refl, sym, ap, ◌∙◌, Bool, true, false, not, ◌&&◌, ◌||◌, List,
  [], ◌∷◌, ◌++◌, arith, ltb, leb, if◌then◌else◌, length, Bool-cases, inl, inr, ltb→lt, leb→le,
}
use mathlib.Core.Path.{ap₂}
use intercore.Coordination.Ranges.Ascending.{From, Ascending, sort_ranges-Ascending}
use intercore.Coordination.Ranges.Apart.{
  Apart, Filled, normalize_ranges-Apart, normalize_ranges-Filled,
}
use intercore.Coordination.Ranges.{
  RuneRange, insert_sorted, sort_ranges, coalesce, coalesce_all, normalize_ranges, intersect_rounds,
  intersect_ranges, cut, cut_all, subtract_from, subtract_each, subtract_ranges, before,
  common_part,
}

abbrev pub within : ℕ → RuneRange → Bool
within c r = leb r.lo c && leb c r.hi

or_left_comm : (a b c : Bool) → (a || (b || c)) ≡ (b || (a || c))
or_left_comm true true c = refl
or_left_comm true false c = refl
or_left_comm false b c = refl

or_assoc : (a b c : Bool) → ((a || b) || c) ≡ (a || (b || c))
or_assoc true b c = refl
or_assoc false b c = refl

distribute : (a b c : Bool) → ((a && c) || (b && c)) ≡ ((a || b) && c)
distribute true b true = refl
distribute true true false = refl
distribute true false false = refl
distribute false b c = refl

and_one : (a : Bool) → (a && true) ≡ a
and_one true = refl
and_one false = refl

and_not_or : (a b c : Bool) → ((a && not b) && not c) ≡ (a && not (b || c))
and_not_or true true c = refl
and_not_or true false c = refl
and_not_or false b c = refl

widened-From :
    (r x : RuneRange) (rs : List RuneRange)
    → From r.lo rs
    → From (let w : RuneRange = if ltb r.hi x.hi then record r { hi = x.hi } else r in w.lo) rs
widened-From r x rs f = elim (Bool-cases (ltb r.hi x.hi)) [ inl e ↦ rw e f | inr e ↦ rw e f ]

-- The rune stands in one of the ranges.
abbrev pub in_ranges : ℕ → List RuneRange → Bool
in_ranges c [] = false
in_ranges c (r ∷ rs) = within c r || in_ranges c rs

pub in_ranges-append :
    (c : ℕ) (xs ys : List RuneRange) → in_ranges c (xs ++ ys) ≡ (in_ranges c xs || in_ranges c ys)
in_ranges-append c [] ys = refl
in_ranges-append c (x ∷ xs) ys = ground (arith, in_ranges-append c xs ys)

in_ranges-insert_sorted :
    (c : ℕ) (r : RuneRange) (rs : List RuneRange)
    → in_ranges c (insert_sorted r rs) ≡ (within c r || in_ranges c rs)
unfolding insert_sorted
in_ranges-insert_sorted c r [] = refl
in_ranges-insert_sorted c r (x ∷ rs) = elim (Bool-cases (before x r)) [
  | inl e ↦ rw e (
      ap (λ b. within c x || b) (in_ranges-insert_sorted c r rs)
      ∙ or_left_comm (within c x) (within c r) (in_ranges c rs))
  | inr e ↦ rw e refl
]

in_ranges-sort_ranges :
    (c : ℕ) (rs : List RuneRange) → in_ranges c (sort_ranges rs) ≡ in_ranges c rs
unfolding sort_ranges
in_ranges-sort_ranges c [] = refl
in_ranges-sort_ranges c (r ∷ rs) =
    in_ranges-insert_sorted c r (sort_ranges rs)
    ∙ ap (λ b. within c r || b) (in_ranges-sort_ranges c rs)

-- A range that begins inside another, or right behind it, widens it.
within-widen :
    (c : ℕ) (r x : RuneRange)
    → r.lo ≤ x.lo
    → x.lo ≤ r.hi + 1
    → within c (if ltb r.hi x.hi then record r { hi = x.hi } else r) ≡ (within c r || within c x)
within-widen c r x h g = ground arith

in_ranges-coalesce :
    (c : ℕ) (r : RuneRange) (rs : List RuneRange)
    → From r.lo rs
    → Ascending rs
    → in_ranges c (coalesce r rs) ≡ (within c r || in_ranges c rs)
unfolding coalesce
in_ranges-coalesce c r [] f h = refl
in_ranges-coalesce c r (x ∷ rs) f h = elim (Bool-cases (leb x.lo (r.hi + 1))) [
  | inl e ↦
      let wide : RuneRange = if ltb r.hi x.hi then record r { hi = x.hi } else r in
      rw e (
        in_ranges-coalesce c wide rs (widened-From r x rs f.1) h.1
        ∙ ap (λ b. b || in_ranges c rs) (within-widen c r x f.0 (leb→le x.lo (r.hi + 1) e))
        ∙ or_assoc (within c r) (within c x) (in_ranges c rs))
  | inr e ↦ rw e (ap (λ b. within c r || b) (in_ranges-coalesce c x rs h.0 h.1))
]

in_ranges-coalesce_all :
    (c : ℕ) (rs : List RuneRange) → Ascending rs → in_ranges c (coalesce_all rs) ≡ in_ranges c rs
unfolding coalesce_all
in_ranges-coalesce_all c [] h = refl
in_ranges-coalesce_all c (r ∷ rs) h = in_ranges-coalesce c r rs h.0 h.1

-- Normalizing a list of ranges keeps its runes.
pub in_ranges-normalize_ranges :
    (c : ℕ) (rs : List RuneRange) → in_ranges c (normalize_ranges rs) ≡ in_ranges c rs
unfolding normalize_ranges
in_ranges-normalize_ranges c [] = refl
in_ranges-normalize_ranges c (r ∷ []) = refl
in_ranges-normalize_ranges c (r ∷ s ∷ rs) =
    in_ranges-coalesce_all c (sort_ranges (r ∷ s ∷ rs)) (sort_ranges-Ascending (r ∷ s ∷ rs))
    ∙ in_ranges-sort_ranges c (r ∷ s ∷ rs)

pub not_in_ranges : (c n : ℕ) (rs : List RuneRange) → From n rs → c < n → in_ranges c rs ≡ false
not_in_ranges c n [] f h = refl
not_in_ranges c n (r ∷ rs) f h = ground (arith, not_in_ranges c n rs f.1 h)

-- One round of the intersection, with the list that gives way.
meet_left :
    (c : ℕ) (a b : RuneRange) (xs ys rest : List RuneRange)
    → a.hi < b.hi
    → From (b.hi + 1) ys
    → in_ranges c rest ≡ (in_ranges c xs && in_ranges c (b ∷ ys))
    → in_ranges c (common_part a b rest) ≡ (in_ranges c (a ∷ xs) && in_ranges c (b ∷ ys))
meet_left c a b xs ys rest h f e = elim (Bool-cases (within c a)) [
  | inl w ↦ ground (arith, not_in_ranges c (b.hi + 1) ys f)
  | inr w ↦ ground arith
]

meet_right :
    (c : ℕ) (a b : RuneRange) (xs ys rest : List RuneRange)
    → b.hi ≤ a.hi
    → From (a.hi + 1) xs
    → in_ranges c rest ≡ (in_ranges c (a ∷ xs) && in_ranges c ys)
    → in_ranges c (common_part a b rest) ≡ (in_ranges c (a ∷ xs) && in_ranges c (b ∷ ys))
meet_right c a b xs ys rest h f e = elim (Bool-cases (within c b)) [
  | inl w ↦ ground (arith, not_in_ranges c (a.hi + 1) xs f)
  | inr w ↦ ground arith
]

and_zero : (b : Bool) → (b && false) ≡ false
and_zero true = refl
and_zero false = refl

in_ranges-intersect_rounds :
    (c n : ℕ) (xs ys : List RuneRange)
    → length xs + length ys ≤ n
    → Apart xs
    → Apart ys
    → in_ranges c (intersect_rounds n xs ys) ≡ (in_ranges c xs && in_ranges c ys)
unfolding intersect_rounds
in_ranges-intersect_rounds c zero [] ys l h g = refl
in_ranges-intersect_rounds c zero (a ∷ xs) ys l h g = absurd (omega arith)
in_ranges-intersect_rounds c (suc n) [] ys l h g = refl
in_ranges-intersect_rounds c (suc n) (a ∷ xs) [] l h g = sym (and_zero (in_ranges c (a ∷ xs)))
in_ranges-intersect_rounds c (suc n) (a ∷ xs) (b ∷ ys) l h g = elim (Bool-cases (ltb a.hi b.hi)) [
  | inl e ↦
      meet_left c a b xs ys _ (ltb→lt a.hi b.hi e) g.1
        (rw e (in_ranges-intersect_rounds c n xs (b ∷ ys) (omega arith) h.2 g))
  | inr e ↦
      meet_right c a b xs ys _ (ground arith) h.1
        (rw e (in_ranges-intersect_rounds c n (a ∷ xs) ys (omega arith) h g.2))
]

in_ranges-cut :
    (c : ℕ) (s x : RuneRange)
    → s.lo ≤ s.hi
    → in_ranges c (cut s x) ≡ (within c x && not (within c s))
unfolding cut
in_ranges-cut c s x h = ground arith

in_ranges-cut_all :
    (c : ℕ) (s : RuneRange) (cs : List RuneRange)
    → s.lo ≤ s.hi
    → in_ranges c (cut_all s cs) ≡ (in_ranges c cs && not (within c s))
unfolding cut_all
in_ranges-cut_all c s [] h = refl
in_ranges-cut_all c s (x ∷ cs) h =
    in_ranges-append c (cut s x) (cut_all s cs)
    ∙ ap₂ (λ a b. a || b) (in_ranges-cut c s x h) (in_ranges-cut_all c s cs h)
    ∙ distribute (within c x) (in_ranges c cs) (not (within c s))

in_ranges-subtract_from :
    (c : ℕ) (cs ss : List RuneRange)
    → Filled ss
    → in_ranges c (subtract_from cs ss) ≡ (in_ranges c cs && not (in_ranges c ss))
unfolding subtract_from
in_ranges-subtract_from c cs [] h = sym (and_one (in_ranges c cs))
in_ranges-subtract_from c cs (s ∷ ss) h =
    in_ranges-subtract_from c (cut_all s cs) ss h.1
    ∙ ap (λ b. b && not (in_ranges c ss)) (in_ranges-cut_all c s cs h.0)
    ∙ and_not_or (in_ranges c cs) (within c s) (in_ranges c ss)

pub in_ranges-subtract_each :
    (c : ℕ) (bs ss : List RuneRange)
    → Filled ss
    → in_ranges c (subtract_each bs ss) ≡ (in_ranges c bs && not (in_ranges c ss))
unfolding subtract_each
in_ranges-subtract_each c [] ss h = refl
in_ranges-subtract_each c (b ∷ bs) ss h =
    in_ranges-append c (subtract_from (b ∷ []) ss) (subtract_each bs ss)
    ∙ ap₂ (λ x y. x || y) (in_ranges-subtract_from c (b ∷ []) ss h)
        (in_ranges-subtract_each c bs ss h)
    ∙ regroup (within c b) (in_ranges c bs) (not (in_ranges c ss))
  where
    regroup : (p q r : Bool) → (((p || false) && r) || (q && r)) ≡ ((p || q) && r)
    regroup true true r = ground arith
    regroup true false r = ground arith
    regroup false q r = refl

-- The intersection holds the runes that both lists hold, if neither has an empty range.
pub in_ranges-intersect_ranges :
    (c : ℕ) (xs ys : List RuneRange)
    → Filled xs
    → Filled ys
    → in_ranges c (intersect_ranges xs ys) ≡ (in_ranges c xs && in_ranges c ys)
unfolding intersect_ranges
in_ranges-intersect_ranges c xs ys f g =
    in_ranges-intersect_rounds c _ (normalize_ranges xs) (normalize_ranges ys) (omega arith)
      (normalize_ranges-Apart xs f) (normalize_ranges-Apart ys g)
    ∙ ap₂ (λ a b. a && b) (in_ranges-normalize_ranges c xs) (in_ranges-normalize_ranges c ys)

-- The difference holds the runes of the first list that the second does not hold, if no range of
-- the second is empty.
pub in_ranges-subtract_ranges :
    (c : ℕ) (base subtract : List RuneRange)
    → Filled subtract
    → in_ranges c (subtract_ranges base subtract) ≡ (in_ranges c base && not (in_ranges c subtract))
unfolding subtract_ranges
in_ranges-subtract_ranges c base subtract f =
    in_ranges-subtract_each c (normalize_ranges base) (normalize_ranges subtract)
      (normalize_ranges-Filled subtract f)
    ∙ ap₂ (λ a b. a && not b) (in_ranges-normalize_ranges c base)
        (in_ranges-normalize_ranges c subtract)
