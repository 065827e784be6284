-- ===== src/Coordination/Ranges.antt =====
-- The rune sets of internal/coordination/glob.go. A rune is a number.
pub mod Members
pub mod Ascending
pub mod Apart
pub mod Overlap
use intercore.Common.{
  ℕ, zero, suc, ◌+◌, ◌-◌, ◌≤◌, ◌<◌, Bool, true, false, ◌&&◌, ◌||◌, List, [], ◌∷◌, ◌++◌, ltb, leb,
  ◌==◌, if◌then◌else◌, length,
}

pub record RuneRange : Type 0 where
  pub lo : ℕ
  pub hi : ℕ

abbrev pub max_rune : ℕ
max_rune = 0x10ffff

abbrev pub non_separator_ranges : List RuneRange
non_separator_ranges = record { lo = 0; hi = 46 } ∷ record { lo = 48; hi = max_rune } ∷ []

-- The order of the `sort.Slice` call; ranges that it does not tell apart are equal.
abbrev pub before : RuneRange → RuneRange → Bool
before a b = if a.lo == b.lo then ltb a.hi b.hi else ltb a.lo b.lo

unfoldable pub insert_sorted : RuneRange → List RuneRange → List RuneRange
insert_sorted r [] = r ∷ []
insert_sorted r (x ∷ rs) = if before x r then x ∷ insert_sorted r rs else r ∷ x ∷ rs

unfoldable pub sort_ranges : List RuneRange → List RuneRange
unfolding insert_sorted
sort_ranges [] = []
sort_ranges (r ∷ rs) = insert_sorted r (sort_ranges rs)

-- `current` swallows the ranges that touch it.
unfoldable pub coalesce : RuneRange → List RuneRange → List RuneRange
coalesce current [] = current ∷ []
coalesce current (r ∷ rs) =
    let wider =
      coalesce (if ltb current.hi r.hi then record current { hi = r.hi } else current) rs in
    let apart = current ∷ coalesce r rs in if leb r.lo (current.hi + 1) then wider else apart

unfoldable pub coalesce_all : List RuneRange → List RuneRange
unfolding coalesce
coalesce_all [] = []
coalesce_all (r ∷ rs) = coalesce r rs

unfoldable pub normalize_ranges : List RuneRange → List RuneRange
normalize_ranges [] = []
normalize_ranges (r ∷ []) = r ∷ []
normalize_ranges (r ∷ s ∷ rs) = coalesce_all (sort_ranges (r ∷ s ∷ rs))

-- Two pointers; each round moves one of them on, so the lengths together are enough rounds.
unfoldable pub overlap_rounds : ℕ → List RuneRange → List RuneRange → Bool
overlap_rounds zero xs ys = false
overlap_rounds (suc n) [] ys = false
overlap_rounds (suc n) (a ∷ xs) [] = false
overlap_rounds (suc n) (a ∷ xs) (b ∷ ys) =
    let skip_a = overlap_rounds n xs (b ∷ ys) in
    let skip_b = overlap_rounds n (a ∷ xs) ys in
    if ltb a.hi b.lo then skip_a else if ltb b.hi a.lo then skip_b else true

unfoldable pub ranges_overlap : List RuneRange → List RuneRange → Bool
unfolding overlap_rounds
ranges_overlap xs ys = overlap_rounds (length xs + length ys) xs ys

abbrev pub max_int_rune : ℕ → ℕ → ℕ
max_int_rune a b = if ltb b a then a else b

abbrev pub min_int_rune : ℕ → ℕ → ℕ
min_int_rune a b = if ltb a b then a else b

abbrev pub common_part : RuneRange → RuneRange → List RuneRange → List RuneRange
common_part a b rest =
    let lo = max_int_rune a.lo b.lo in
    let hi = min_int_rune a.hi b.hi in
    if leb lo hi then record { lo = lo; hi = hi } ∷ rest else rest

unfoldable pub intersect_rounds : ℕ → List RuneRange → List RuneRange → List RuneRange
intersect_rounds zero xs ys = []
intersect_rounds (suc n) [] ys = []
intersect_rounds (suc n) (a ∷ xs) [] = []
intersect_rounds (suc n) (a ∷ xs) (b ∷ ys) =
    let next_a = intersect_rounds n xs (b ∷ ys) in
    let next_b = intersect_rounds n (a ∷ xs) ys in
    common_part a b (if ltb a.hi b.hi then next_a else next_b)

unfoldable pub intersect_ranges : List RuneRange → List RuneRange → List RuneRange
intersect_ranges a b =
    let xs = normalize_ranges a in
    let ys = normalize_ranges b in intersect_rounds (length xs + length ys) xs ys

-- What is left of the range `c` without `s`.
unfoldable pub cut : RuneRange → RuneRange → List RuneRange
cut s c =
    if ltb s.hi c.lo || ltb c.hi s.lo
    then c ∷ []
    else (if ltb c.lo s.lo then record { lo = c.lo; hi = s.lo - 1 } ∷ [] else [])
      ++ (if ltb s.hi c.hi then record { lo = s.hi + 1; hi = c.hi } ∷ [] else [])

unfoldable pub cut_all : RuneRange → List RuneRange → List RuneRange
unfolding cut
cut_all s [] = []
cut_all s (c ∷ cs) = cut s c ++ cut_all s cs

-- Once nothing is left the code stops early, and further cuts would leave nothing xs well.
unfoldable pub subtract_from : List RuneRange → List RuneRange → List RuneRange
unfolding cut_all
subtract_from current [] = current
subtract_from current (s ∷ ss) = subtract_from (cut_all s current) ss

unfoldable pub subtract_each : List RuneRange → List RuneRange → List RuneRange
unfolding subtract_from
subtract_each [] ss = []
subtract_each (b ∷ bs) ss = subtract_from (b ∷ []) ss ++ subtract_each bs ss

unfoldable pub subtract_ranges : List RuneRange → List RuneRange → List RuneRange
subtract_ranges base subtract = subtract_each (normalize_ranges base) (normalize_ranges subtract)
