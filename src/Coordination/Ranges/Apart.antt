-- ===== src/Coordination/Ranges/Apart.antt =====
-- What `subtractRanges` leaves: ranges that are not empty, each beyond the one before.
use intercore.Common.{ℕ, ◌+◌, ◌≤◌, List, [], ◌∷◌, ◌++◌, arith, ltb, leb, Bool-cases, inl, inr}
use intercore.Common.Every.{Every, Every-append, Every-map}
use intercore.Coordination.Ranges.{
  RuneRange, before, cut, cut_all, subtract_from, subtract_each, subtract_ranges,
  non_separator_ranges, normalize_ranges, coalesce, sort_ranges, insert_sorted, coalesce_all,
}
use intercore.Coordination.Ranges.Ascending.{
  From, Ascending, From-weaken, sort_ranges-Ascending, coalesce-From,
}

abbrev pub UpTo : ℕ → List RuneRange → Type 0
UpTo n rs = Every (λ (r : RuneRange). r.hi ≤ n) rs

abbrev pub Apart : List RuneRange → Type 0
Apart [] = Unit
Apart (r ∷ rs) = (r.lo ≤ r.hi) × From (r.hi + 1) rs × Apart rs

pub Apart-Ascending : (rs : List RuneRange) → Apart rs → Ascending rs
Apart-Ascending [] h = tt
Apart-Ascending (r ∷ rs) h =
    (From-weaken r.lo (r.hi + 1) rs (omega arith) h.1, Apart-Ascending rs h.2)

Apart-append :
    (n : ℕ) (xs ys : List RuneRange)
    → Apart xs
    → UpTo n xs
    → From (n + 1) ys
    → Apart ys
    → Apart (xs ++ ys)
Apart-append n [] ys h u f g = g
Apart-append n (x ∷ xs) ys h u f g = (
  h.0,
  Every-append _ xs ys h.1 (From-weaken (x.hi + 1) (n + 1) ys (omega arith) f),
  Apart-append n xs ys h.2 u.1 f g,
)

-- The pieces of a range stay inside it.
pub record Inside (lo hi : ℕ) (rs : List RuneRange) : Type 0 where
  pub apart : Apart rs
  pub from : From lo rs
  pub up_to : UpTo hi rs

-- No range is empty.
abbrev pub Filled : List RuneRange → Type 0
Filled rs = Every (λ (r : RuneRange). r.lo ≤ r.hi) rs

cut-Inside : (s c : RuneRange) → s.lo ≤ s.hi → c.lo ≤ c.hi → Inside c.lo c.hi (cut s c)
unfolding cut
cut-Inside s c g h = ground arith

Inside-append :
    (lo mid hi : ℕ) (xs ys : List RuneRange)
    → lo ≤ mid + 1
    → mid ≤ hi
    → Inside lo mid xs
    → Apart ys
    → From (mid + 1) ys
    → UpTo hi ys
    → Inside lo hi (xs ++ ys)
Inside-append lo mid hi xs ys l h i a f u = record {
  apart = Apart-append mid xs ys i.apart i.up_to f a;
  from = Every-append _ xs ys i.from (From-weaken lo (mid + 1) ys l f);
  up_to = Every-append _ xs ys (UpTo-weaken mid hi xs h i.up_to) u;
}
  where
    UpTo-weaken : (m n : ℕ) (rs : List RuneRange) → m ≤ n → UpTo m rs → UpTo n rs
    UpTo-weaken m n rs le = Every-map _ _ rs (λ r b. omega arith)

cut_all-Inside :
    (s : RuneRange) (lo hi : ℕ) (cs : List RuneRange)
    → s.lo ≤ s.hi
    → Inside lo hi cs
    → Inside lo hi (cut_all s cs)
unfolding cut_all
cut_all-Inside s lo hi [] g h = h
cut_all-Inside s lo hi (c ∷ cs) g h =
    let piece = cut-Inside s c g h.apart.0 in
    let rest =
      cut_all-Inside s (c.hi + 1) hi cs g
        (record { apart = h.apart.2; from = h.apart.1; up_to = h.up_to.1 }) in
    Inside-append lo c.hi hi (cut s c) (cut_all s cs) (omega arith) h.up_to.0
      (record {
        apart = piece.apart;
        from = From-weaken lo c.lo (cut s c) h.from.0 piece.from;
        up_to = piece.up_to;
      })
      rest.apart rest.from rest.up_to

subtract_from-Inside :
    (lo hi : ℕ) (cs ss : List RuneRange)
    → Filled ss
    → Inside lo hi cs
    → Inside lo hi (subtract_from cs ss)
unfolding subtract_from
subtract_from-Inside lo hi cs [] g h = h
subtract_from-Inside lo hi cs (s ∷ ss) g h =
    subtract_from-Inside lo hi (cut_all s cs) ss g.1 (cut_all-Inside s lo hi cs g.0 h)

-- The pieces of ranges that are apart are apart.
subtract_each-Inside :
    (lo hi : ℕ) (bs ss : List RuneRange)
    → Filled ss
    → Inside lo hi bs
    → Inside lo hi (subtract_each bs ss)
unfolding subtract_each
subtract_each-Inside lo hi [] ss g h = h
subtract_each-Inside lo hi (b ∷ bs) ss g h =
    let whole : Inside b.lo b.hi (b ∷ []) = record {
      apart = (h.apart.0, tt, tt);
      from = (omega arith, tt);
      up_to = (omega arith, tt);
    } in
    let piece = subtract_from-Inside b.lo b.hi (b ∷ []) ss g whole in
    let rest =
      subtract_each-Inside (b.hi + 1) hi bs ss g
        (record { apart = h.apart.2; from = h.apart.1; up_to = h.up_to.1 }) in
    Inside-append lo b.hi hi (subtract_from (b ∷ []) ss) (subtract_each bs ss) (omega arith)
      h.up_to.0
      (record {
        apart = piece.apart;
        from = From-weaken lo b.lo (subtract_from (b ∷ []) ss) h.from.0 piece.from;
        up_to = piece.up_to;
      })
      rest.apart rest.from rest.up_to

insert_sorted-Filled :
    (r : RuneRange) (rs : List RuneRange) → r.lo ≤ r.hi → Filled rs → Filled (insert_sorted r rs)
unfolding insert_sorted
insert_sorted-Filled r [] h f = (h, tt)
insert_sorted-Filled r (x ∷ rs) h f = elim (Bool-cases (before x r)) [
  | inl e ↦ rw e (f.0, insert_sorted-Filled r rs h f.1)
  | inr e ↦ rw e (h, f)
]

sort_ranges-Filled : (rs : List RuneRange) → Filled rs → Filled (sort_ranges rs)
unfolding sort_ranges
sort_ranges-Filled [] f = tt
sort_ranges-Filled (r ∷ rs) f =
    insert_sorted-Filled r (sort_ranges rs) f.0 (sort_ranges-Filled rs f.1)

coalesce-Apart :
    (r : RuneRange) (rs : List RuneRange)
    → r.lo ≤ r.hi
    → Filled rs
    → From r.lo rs
    → Ascending rs
    → Apart (coalesce r rs)
unfolding coalesce
coalesce-Apart r [] h f g a = (h, tt, tt)
coalesce-Apart r (x ∷ rs) h f g a = elim (Bool-cases (leb x.lo (r.hi + 1))) [
  | inl e ↦ rw e (elim (Bool-cases (ltb r.hi x.hi)) [
    | inl w ↦ rw w (coalesce-Apart _ rs (ground arith) f.1 g.1 a.1)
    | inr w ↦ rw w (coalesce-Apart r rs h f.1 g.1 a.1)
  ])
  | inr e ↦ rw e (
    h,
    coalesce-From (r.hi + 1) x rs (ground arith)
        (From-weaken (r.hi + 1) x.lo rs (ground arith) a.0),
    coalesce-Apart x rs f.0 f.1 a.0 a.1,
  )
]

-- A normalized list of ranges that are not empty is apart.
pub normalize_ranges-Apart : (rs : List RuneRange) → Filled rs → Apart (normalize_ranges rs)
unfolding normalize_ranges coalesce_all
normalize_ranges-Apart [] f = tt
normalize_ranges-Apart (r ∷ []) f = (f.0, tt, tt)
normalize_ranges-Apart (r ∷ s ∷ rs) f =
    ordered (sort_ranges (r ∷ s ∷ rs)) (sort_ranges-Filled (r ∷ s ∷ rs) f)
      (sort_ranges-Ascending (r ∷ s ∷ rs))
  where
    ordered : (l : List RuneRange) → Filled l → Ascending l → Apart (coalesce_all l)
    ordered [] f a = tt
    ordered (x ∷ l) f a = coalesce-Apart x l f.0 f.1 a.0 a.1

pub Apart-Filled : (rs : List RuneRange) → Apart rs → Filled rs
Apart-Filled [] h = tt
Apart-Filled (r ∷ rs) h = (h.0, Apart-Filled rs h.2)

pub normalize_ranges-Filled : (rs : List RuneRange) → Filled rs → Filled (normalize_ranges rs)
normalize_ranges-Filled rs f = Apart-Filled (normalize_ranges rs) (normalize_ranges-Apart rs f)

-- The complement of a set, as a negated class takes it, is apart.
pub subtract_ranges-Apart :
    (ss : List RuneRange) → Filled ss → Apart (subtract_ranges non_separator_ranges ss)
unfolding subtract_ranges normalize_ranges coalesce_all coalesce sort_ranges insert_sorted
subtract_ranges-Apart ss f =
    (subtract_each-Inside 0 0x10ffff non_separator_ranges (normalize_ranges ss)
      (normalize_ranges-Filled ss f)
      (record { apart = omega arith; from = omega arith; up_to = omega arith })).apart
