-- ===== src/Coordination/Search/Paths.antt =====
-- Paths that a pattern matches, segment by segment, and that `PatternsOverlap` finds them.
use intercore.Common.{
  ℕ, zero, suc, ◌≤◌, ◌<◌, ◌≡◌, refl, ap, subst, Bool, true, false, some, List, [], ◌∷◌, arith,
  length, get_elem?, drop, ◌==◌,
}
use mathlib.Core.Option.{some_inj}
use intercore.Common.Every.{Every}
use intercore.Common.Text.{Text}
use intercore.Common.Outcome.{ok}
use intercore.Coordination.Ranges.{non_separator_ranges}
use intercore.Coordination.Ranges.Members.{in_ranges}
use intercore.Coordination.Glob.{Token, literal, any_rune, star, class, split, parse_segment}
use intercore.Coordination.Search.{
  is_star, token_consume, consumed, segment_patterns_overlap, segments_overlap, patterns_overlap,
}
use intercore.Coordination.Search.Walks.{Walks, ends, leaves, reads, search-Walks}
use intercore.Coordination.Search.Ordered.{Ordered, parse_segment-Ordered}

-- A rune that a token other than a star stands for.
abbrev pub accepts : Token → ℕ → Bool
accepts (literal lit) c = lit == c
accepts (any_rune ranges) c = in_ranges c ranges
accepts star c = false
accepts (class ranges) c = in_ranges c ranges

-- A text that a token list matches; a star takes any number of runes that are not separators.
pub data Matches : List Token → Text → Type 0 where
  done : Matches [] []
  takes :
      {t : Token} {ts : List Token} {c : ℕ} {s : Text}
      → accepts t c ≡ true
      → Matches ts s
      → Matches (t ∷ ts) (c ∷ s)
  passes : {ts : List Token} {s : Text} → Matches ts s → Matches (star ∷ ts) s
  stays :
      {ts : List Token} {c : ℕ} {s : Text}
      → in_ranges c non_separator_ranges ≡ true
      → Matches (star ∷ ts) s
      → Matches (star ∷ ts) (c ∷ s)

drop-cons :
    (tokens : List Token) (i : ℕ) (t : Token) (ts : List Token)
    → drop i tokens ≡ t ∷ ts
    → (get_elem? tokens i ≡ some t) × (drop (suc i) tokens ≡ ts)
drop-cons [] zero t ts h = cc
drop-cons [] (suc i) t ts h = cc
drop-cons (u ∷ us) zero t ts h = (cc, cc)
drop-cons (u ∷ us) (suc i) t ts h = drop-cons us i t ts h

drop-nil :
    (tokens : List Token) (i : ℕ)
    → i ≤ length tokens
    → drop i tokens ≡ []
    → (i == length tokens) ≡ true
drop-nil [] zero le h = refl
drop-nil [] (suc i) le h = elim le [ ]
drop-nil (u ∷ us) zero le h = cc
drop-nil (u ∷ us) (suc i) le h = let e = drop-nil us i (omega arith) h in ground arith

pub get-Ordered :
    (tokens : List Token) (i : ℕ) (t : Token)
    → Every Ordered tokens
    → get_elem? tokens i ≡ some t
    → Ordered t
get-Ordered [] i t o h = cc
get-Ordered (u ∷ us) zero t o h = subst Ordered (some_inj.0 h) o.0
get-Ordered (u ∷ us) (suc i) t o h = get-Ordered us i t o.1 h

get-bound :
    (tokens : List Token) (i : ℕ) (t : Token) → get_elem? tokens i ≡ some t → i < length tokens
get-bound [] i t h = cc
get-bound (u ∷ us) zero t h = omega arith
get-bound (u ∷ us) (suc i) t h = let le = get-bound us i t h in omega arith

module _ (tokens : List Token) (ordered : Every Ordered tokens) where
  -- A token that is not a star lets the walk read one rune.
  token-Walks :
      (i c : ℕ) (s : Text) (t : Token)
      → get_elem? tokens i ≡ some t
      → Ordered t
      → accepts t c ≡ true
      → Walks tokens (suc i) s
      → Walks tokens i (c ∷ s)
  unfolding token_consume
  token-Walks i c s (literal lit) h o a w =
      reads {rs = record { lo = lit; hi = lit } ∷ []} (ap (consumed i) h) (tt, tt) (ground arith) w
  token-Walks i c s (any_rune ranges) h o a w = reads {rs = ranges} (ap (consumed i) h) o.0 a w
  token-Walks i c s star h o a w = cc
  token-Walks i c s (class ranges) h o a w = reads {rs = ranges} (ap (consumed i) h) o.0 a w

  star-Walks :
      (i c : ℕ) (s : Text)
      → get_elem? tokens i ≡ some star
      → in_ranges c non_separator_ranges ≡ true
      → Walks tokens i s
      → Walks tokens i (c ∷ s)
  unfolding token_consume
  star-Walks i c s h a w = reads {rs = non_separator_ranges} (ap (consumed i) h) (omega arith) a w

  Matches-Walks :
      (i : ℕ) (ts : List Token) (s : Text)
      → i ≤ length tokens
      → drop i tokens ≡ ts
      → Matches ts s
      → Walks tokens i s
  Matches-Walks i [] [] le h done = ends (drop-nil tokens i le h)
  Matches-Walks i [] (c ∷ s) le h m = elim m [ ]
  Matches-Walks i (t ∷ ts) (c ∷ s) le h (takes a m) =
      let (found, rest) = drop-cons tokens i t ts h in
      token-Walks i c s t found (get-Ordered tokens i t ordered found) a
        (Matches-Walks (suc i) ts s (get-bound tokens i t found) rest m)
  Matches-Walks i (star ∷ ts) s le h (passes m) =
      let (found, rest) = drop-cons tokens i star ts h in
      leaves (ap is_star found) (Matches-Walks (suc i) ts s (get-bound tokens i star found) rest m)
  Matches-Walks i (star ∷ ts) (c ∷ s) le h (stays a m) =
      let (found, rest) = drop-cons tokens i star ts h in
      star-Walks i c s found a (Matches-Walks i (star ∷ ts) s le h m)

-- A segment of a path, and a whole path as its segments.
abbrev pub SegmentMatches : Text → Text → Type 0
SegmentMatches pattern s =
    (tokens : List Token) × (parse_segment pattern ≡ ok tokens) × Matches tokens s

abbrev pub AllMatch : List Text → List Text → Type 0
AllMatch [] [] = Unit
AllMatch [] (s ∷ path) = ⊥
AllMatch (p ∷ patterns) [] = ⊥
AllMatch (p ∷ patterns) (s ∷ path) = SegmentMatches p s × AllMatch patterns path

abbrev pub PathMatches : Text → List Text → Type 0
PathMatches pattern path = AllMatch (split pattern) path

segment-Matches :
    (a b s : Text)
    → SegmentMatches a s
    → SegmentMatches b s
    → segment_patterns_overlap a b ≡ ok true
unfolding segment_patterns_overlap
segment-Matches a b s (ta, h, m) (tb, k, n) =
    rw (h, k)
      (search-Walks ta tb s
        (Matches-Walks ta (parse_segment-Ordered a ta h) 0 ta s (omega arith) refl m)
        (Matches-Walks tb (parse_segment-Ordered b tb k) 0 tb s (omega arith) refl n))

all-Matches :
    (xs ys path : List Text)
    → AllMatch xs path
    → AllMatch ys path
    → (segments_overlap xs ys ≡ ok true) × ((length xs == length ys) ≡ true)
unfolding segments_overlap
all-Matches [] [] path h k = (refl, refl)
all-Matches [] (y ∷ ys) [] h k = elim k [ ]
all-Matches [] (y ∷ ys) (s ∷ path) h k = elim h [ ]
all-Matches (x ∷ xs) ys [] h k = elim h [ ]
all-Matches (x ∷ xs) [] (s ∷ path) h k = elim k [ ]
all-Matches (x ∷ xs) (y ∷ ys) (s ∷ path) h k =
    let (rest, same) = all-Matches xs ys path h.1 k.1 in
    (rw (segment-Matches x y s h.0 k.0) rest, ground arith)

-- If both patterns match one path, segment by segment, `PatternsOverlap` answers true.
pub patterns_overlap-PathMatches :
    (a b : Text) (path : List Text)
    → PathMatches a path
    → PathMatches b path
    → patterns_overlap a b ≡ ok true
unfolding patterns_overlap
patterns_overlap-PathMatches a b path h k =
    let (overlap, same) = all-Matches (split a) (split b) path h k in rw same overlap
