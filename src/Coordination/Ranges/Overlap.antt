-- ===== src/Coordination/Ranges/Overlap.antt =====
-- `rangesOverlap` decides whether two lists of ranges share a rune.
use intercore.Common.{
  ℕ, zero, suc, ◌+◌, ◌≤◌, ◌≡◌, refl, true, false, List, [], ◌∷◌, arith, ltb, leb, length,
  Bool-cases, inl, inr,
}
use mathlib.Core.Bool.{false≢true}
use intercore.Coordination.Ranges.{
  RuneRange, overlap_rounds, ranges_overlap, max_int_rune, intersect_rounds, intersect_ranges,
  normalize_ranges, common_part, min_int_rune,
}
use intercore.Coordination.Ranges.Ascending.{Ascending}
use intercore.Coordination.Ranges.Apart.{Filled}
use intercore.Coordination.Ranges.Members.{in_ranges, within, not_in_ranges}

-- A rune beyond the first range stands in the rest.
in_ranges-tail :
    (c : ℕ) (r : RuneRange) (rs : List RuneRange)
    → in_ranges c (r ∷ rs) ≡ true
    → within c r ≡ false
    → in_ranges c rs ≡ true
in_ranges-tail c r rs h w = ground arith

from_head :
    (c : ℕ) (r : RuneRange) (rs : List RuneRange)
    → Ascending (r ∷ rs)
    → in_ranges c (r ∷ rs) ≡ true
    → r.lo ≤ c
from_head c r rs h i = ground (arith, not_in_ranges c r.lo rs h.0)

overlap_rounds_complete :
    (c n : ℕ) (xs ys : List RuneRange)
    → length xs + length ys ≤ n
    → Ascending xs
    → Ascending ys
    → in_ranges c xs ≡ true
    → in_ranges c ys ≡ true
    → overlap_rounds n xs ys ≡ true
unfolding overlap_rounds
overlap_rounds_complete c n [] ys l h g i j = absurd (false≢true i)
overlap_rounds_complete c n (a ∷ xs) [] l h g i j = absurd (false≢true j)
overlap_rounds_complete c zero (a ∷ xs) (b ∷ ys) l h g i j = absurd (omega arith)
overlap_rounds_complete c (suc n) (a ∷ xs) (b ∷ ys) l h g i j = elim (Bool-cases (ltb a.hi b.lo)) [
  | inl e ↦ rw e (
      overlap_rounds_complete c n xs (b ∷ ys) (omega arith) h.1 g
        (in_ranges-tail c a xs i (ground (arith, from_head c b ys g j))) j)
  | inr e ↦ rw e (elim (Bool-cases (ltb b.hi a.lo)) [
    | inl k ↦ rw k (
        overlap_rounds_complete c n (a ∷ xs) ys (omega arith) h g.1 i
          (in_ranges-tail c b ys j (ground (arith, from_head c a xs h i))))
    | inr k ↦ rw k refl
  ])
]

overlap_rounds_sound :
    (n : ℕ) (xs ys : List RuneRange)
    → Filled xs
    → Filled ys
    → overlap_rounds n xs ys ≡ true
    → (c : ℕ) × (in_ranges c xs ≡ true) × (in_ranges c ys ≡ true)
unfolding overlap_rounds
overlap_rounds_sound zero xs ys f g h = absurd (false≢true h)
overlap_rounds_sound (suc n) [] ys f g h = absurd (false≢true h)
overlap_rounds_sound (suc n) (a ∷ xs) [] f g h = absurd (false≢true h)
overlap_rounds_sound (suc n) (a ∷ xs) (b ∷ ys) f g h = elim (Bool-cases (ltb a.hi b.lo)) [
  | inl e ↦
      let (c, i, j) = overlap_rounds_sound n xs (b ∷ ys) f.1 g (rw e at h) in (c, ground arith, j)
  | inr e ↦ elim (Bool-cases (ltb b.hi a.lo)) [
    | inl k ↦
        let (c, i, j) = overlap_rounds_sound n (a ∷ xs) ys f g.1 (rw (e, k) at h) in
        (c, i, ground arith)
    | inr k ↦ (max_int_rune a.lo b.lo, ground arith, ground arith)
  ]
]

-- A rune in both lists is found.
pub ranges_overlap_complete :
    (c : ℕ) (xs ys : List RuneRange)
    → Ascending xs
    → Ascending ys
    → in_ranges c xs ≡ true
    → in_ranges c ys ≡ true
    → ranges_overlap xs ys ≡ true
unfolding ranges_overlap
ranges_overlap_complete c xs ys h g i j =
    overlap_rounds_complete c (length xs + length ys) xs ys (omega arith) h g i j

-- A positive answer has a rune in both lists.
pub ranges_overlap_sound :
    (xs ys : List RuneRange)
    → Filled xs
    → Filled ys
    → ranges_overlap xs ys ≡ true
    → (c : ℕ) × (in_ranges c xs ≡ true) × (in_ranges c ys ≡ true)
unfolding ranges_overlap
ranges_overlap_sound xs ys f g h = overlap_rounds_sound (length xs + length ys) xs ys f g h

intersect_rounds-Filled : (n : ℕ) (xs ys : List RuneRange) → Filled (intersect_rounds n xs ys)
unfolding intersect_rounds
intersect_rounds-Filled zero xs ys = tt
intersect_rounds-Filled (suc n) [] ys = tt
intersect_rounds-Filled (suc n) (a ∷ xs) [] = tt
intersect_rounds-Filled (suc n) (a ∷ xs) (b ∷ ys) =
    common_part-Filled a b _ (elim (Bool-cases (ltb a.hi b.hi)) [
      | inl e ↦ rw e (intersect_rounds-Filled n xs (b ∷ ys))
      | inr e ↦ rw e (intersect_rounds-Filled n (a ∷ xs) ys)
    ])
  where
    common_part-Filled :
        (a b : RuneRange) (rest : List RuneRange) → Filled rest → Filled (common_part a b rest)
    common_part-Filled a b rest h =
        elim (Bool-cases (leb (max_int_rune a.lo b.lo) (min_int_rune a.hi b.hi))) [
          | inl e ↦ rw e (ground arith, h)
          | inr e ↦ rw e h
        ]

pub intersect_ranges-Filled : (xs ys : List RuneRange) → Filled (intersect_ranges xs ys)
unfolding intersect_ranges
intersect_ranges-Filled xs ys =
    intersect_rounds-Filled _ (normalize_ranges xs) (normalize_ranges ys)
