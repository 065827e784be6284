-- ===== src/Coordination/Ranges/Ascending.antt =====
-- The ranges of a normalized list begin at ascending runes.
use intercore.Common.{
  ℕ, zero, suc, ◌+◌, ◌≤◌, ◌≡◌, true, false, List, [], ◌∷◌, arith, ltb, leb, Bool-cases, inl, inr,
}
use intercore.Common.Every.{Every}
use intercore.Coordination.Ranges.{
  RuneRange, insert_sorted, sort_ranges, coalesce, coalesce_all, normalize_ranges, intersect_rounds,
  intersect_ranges, before, common_part, max_int_rune, min_int_rune,
}

-- No range begins before the rune.
abbrev pub From : ℕ → List RuneRange → Type 0
From n rs = Every (λ (r : RuneRange). n ≤ r.lo) rs

abbrev pub Ascending : List RuneRange → Type 0
Ascending [] = Unit
Ascending (r ∷ rs) = From r.lo rs × Ascending rs

pub From-weaken : (m n : ℕ) (rs : List RuneRange) → m ≤ n → From n rs → From m rs
From-weaken m n [] le h = tt
From-weaken m n (r ∷ rs) le h = (omega arith, From-weaken m n rs le h.1)

insert_sorted-From :
    (n : ℕ) (r : RuneRange) (rs : List RuneRange)
    → n ≤ r.lo
    → From n rs
    → From n (insert_sorted r rs)
unfolding insert_sorted
insert_sorted-From n r [] le h = (le, tt)
insert_sorted-From n r (x ∷ rs) le h = elim (Bool-cases (before x r)) [
  | inl e ↦ rw e (h.0, insert_sorted-From n r rs le h.1)
  | inr e ↦ rw e (le, h)
]

before-lo : (x r : RuneRange) → before x r ≡ true → x.lo ≤ r.lo
before-lo x r h = ground arith

not_before-lo : (x r : RuneRange) → before x r ≡ false → r.lo ≤ x.lo
not_before-lo x r h = ground arith

insert_sorted-Ascending :
    (r : RuneRange) (rs : List RuneRange) → Ascending rs → Ascending (insert_sorted r rs)
unfolding insert_sorted
insert_sorted-Ascending r [] h = (tt, tt)
insert_sorted-Ascending r (x ∷ rs) h = elim (Bool-cases (before x r)) [
  | inl e ↦
      rw e (insert_sorted-From x.lo r rs (before-lo x r e) h.0, insert_sorted-Ascending r rs h.1)
  | inr e ↦ let le = not_before-lo x r e in rw e ((le, From-weaken r.lo x.lo rs le h.0), h)
]

pub sort_ranges-Ascending : (rs : List RuneRange) → Ascending (sort_ranges rs)
unfolding sort_ranges
sort_ranges-Ascending [] = tt
sort_ranges-Ascending (r ∷ rs) =
    insert_sorted-Ascending r (sort_ranges rs) (sort_ranges-Ascending rs)

pub coalesce-From :
    (n : ℕ) (r : RuneRange) (rs : List RuneRange) → n ≤ r.lo → From n rs → From n (coalesce r rs)
unfolding coalesce
coalesce-From n r [] le h = (le, tt)
coalesce-From n r (x ∷ rs) le h = elim (Bool-cases (leb x.lo (r.hi + 1))) [
  | inl e ↦ rw e (elim (Bool-cases (ltb r.hi x.hi)) [
    | inl w ↦ rw w (coalesce-From n _ rs le h.1)
    | inr w ↦ rw w (coalesce-From n r rs le h.1)
  ])
  | inr e ↦ rw e (le, coalesce-From n x rs h.0 h.1)
]

coalesce-Ascending :
    (r : RuneRange) (rs : List RuneRange) → From r.lo rs → Ascending rs → Ascending (coalesce r rs)
unfolding coalesce
coalesce-Ascending r [] f h = (tt, tt)
coalesce-Ascending r (x ∷ rs) f h = elim (Bool-cases (leb x.lo (r.hi + 1))) [
  | inl e ↦ rw e (elim (Bool-cases (ltb r.hi x.hi)) [
    | inl w ↦ rw w (coalesce-Ascending _ rs f.1 h.1)
    | inr w ↦ rw w (coalesce-Ascending r rs f.1 h.1)
  ])
  | inr e ↦ rw e (coalesce-From r.lo x rs f.0 f.1, coalesce-Ascending x rs h.0 h.1)
]

coalesce_all-Ascending : (rs : List RuneRange) → Ascending rs → Ascending (coalesce_all rs)
unfolding coalesce_all
coalesce_all-Ascending [] h = tt
coalesce_all-Ascending (r ∷ rs) h = coalesce-Ascending r rs h.0 h.1

pub normalize_ranges-Ascending : (rs : List RuneRange) → Ascending (normalize_ranges rs)
unfolding normalize_ranges
normalize_ranges-Ascending [] = tt
normalize_ranges-Ascending (r ∷ []) = (tt, tt)
normalize_ranges-Ascending (r ∷ s ∷ rs) =
    coalesce_all-Ascending (sort_ranges (r ∷ s ∷ rs)) (sort_ranges-Ascending (r ∷ s ∷ rs))

common_part-From :
    (n : ℕ) (a b : RuneRange) (rest : List RuneRange)
    → n ≤ max_int_rune a.lo b.lo
    → From n rest
    → From n (common_part a b rest)
common_part-From n a b rest le h =
    elim (Bool-cases (leb (max_int_rune a.lo b.lo) (min_int_rune a.hi b.hi))) [
      | inl e ↦ rw e (le, h)
      | inr e ↦ rw e h
    ]

common_part-Ascending :
    (a b : RuneRange) (rest : List RuneRange)
    → From (max_int_rune a.lo b.lo) rest
    → Ascending rest
    → Ascending (common_part a b rest)
common_part-Ascending a b rest f h =
    elim (Bool-cases (leb (max_int_rune a.lo b.lo) (min_int_rune a.hi b.hi))) [
      | inl e ↦ rw e (f, h)
      | inr e ↦ rw e h
    ]

max_mono : (m n a b : ℕ) → m ≤ a → n ≤ b → max_int_rune m n ≤ max_int_rune a b
max_mono m n a b h k = ground arith

intersect_rounds-From :
    (k m n : ℕ) (xs ys : List RuneRange)
    → From m xs
    → From n ys
    → From (max_int_rune m n) (intersect_rounds k xs ys)
unfolding intersect_rounds
intersect_rounds-From zero m n xs ys f g = tt
intersect_rounds-From (suc k) m n [] ys f g = tt
intersect_rounds-From (suc k) m n (a ∷ xs) [] f g = tt
intersect_rounds-From (suc k) m n (a ∷ xs) (b ∷ ys) f g =
    common_part-From (max_int_rune m n) a b _ (max_mono m n a.lo b.lo f.0 g.0)
      (elim (Bool-cases (ltb a.hi b.hi)) [
        | inl e ↦ rw e (intersect_rounds-From k m n xs (b ∷ ys) f.1 g)
        | inr e ↦ rw e (intersect_rounds-From k m n (a ∷ xs) ys f g.1)
      ])

intersect_rounds-Ascending :
    (k : ℕ) (xs ys : List RuneRange)
    → Ascending xs
    → Ascending ys
    → Ascending (intersect_rounds k xs ys)
unfolding intersect_rounds
intersect_rounds-Ascending zero xs ys h g = tt
intersect_rounds-Ascending (suc k) [] ys h g = tt
intersect_rounds-Ascending (suc k) (a ∷ xs) [] h g = tt
intersect_rounds-Ascending (suc k) (a ∷ xs) (b ∷ ys) h g =
    common_part-Ascending a b _
      (elim (Bool-cases (ltb a.hi b.hi)) [
        | inl e ↦ rw e (intersect_rounds-From k a.lo b.lo xs (b ∷ ys) h.0 (omega arith, g.0))
        | inr e ↦ rw e (intersect_rounds-From k a.lo b.lo (a ∷ xs) ys (omega arith, h.0) g.0)
      ])
      (elim (Bool-cases (ltb a.hi b.hi)) [
        | inl e ↦ rw e (intersect_rounds-Ascending k xs (b ∷ ys) h.1 g)
        | inr e ↦ rw e (intersect_rounds-Ascending k (a ∷ xs) ys h g.1)
      ])

pub intersect_ranges-Ascending : (xs ys : List RuneRange) → Ascending (intersect_ranges xs ys)
unfolding intersect_ranges
intersect_ranges-Ascending xs ys =
    intersect_rounds-Ascending _ (normalize_ranges xs) (normalize_ranges ys)
      (normalize_ranges-Ascending xs) (normalize_ranges-Ascending ys)
