-- ===== src/Coordination/Search.antt =====
-- `PatternsOverlap` of internal/coordination/glob.go: whether two patterns have a common path,
-- by a search through pairs of token positions.
pub mod Rounds
pub mod Ends
pub mod Frontier
pub mod Exhausted
pub mod Walks
pub mod Ordered
pub mod Paths
pub mod Found
use intercore.Common.{
  ℕ, zero, suc, ◌+◌, ◌*◌, Bool, true, false, not, ◌&&◌, ◌||◌, Option, none, some, List, [], ◌∷◌,
  ◌++◌, ◌==◌, if◌then◌else◌, length, get_elem?,
}
use intercore.Common.Text.{Text}
use intercore.Common.Outcome.{Result, ok, err, ◌>>=◌}
use intercore.Coordination.Ranges.{RuneRange, ranges_overlap, non_separator_ranges}
use intercore.Coordination.Glob.{
  Token, literal, any_rune, star, class, GlobError, out_of_rounds, split, parse_segment,
}

abbrev pub State : Type 0
State = ℕ × ℕ

abbrev pub same_state : State → State → Bool
same_state a b = (a.0 == b.0) && (a.1 == b.1)

unfoldable pub visited : State → List State → Bool
visited s [] = false
visited s (x ∷ seen) = let rest = visited s seen in if same_state x s then true else rest

abbrev pub is_star : Option Token → Bool
is_star none = false
is_star (some (literal lit)) = false
is_star (some (any_rune ranges)) = false
is_star (some star) = true
is_star (some (class ranges)) = false

abbrev pub consumed : ℕ → Option Token → Option (ℕ × List RuneRange)
consumed idx none = none
consumed idx (some (literal lit)) = some (suc idx, record { lo = lit; hi = lit } ∷ [])
consumed idx (some (any_rune ranges)) = some (suc idx, ranges)
consumed idx (some star) = some (idx, non_separator_ranges)
consumed idx (some (class ranges)) = some (suc idx, ranges)

-- `tokenConsume`; `none` stands for the index that is out of range, which the search never asks
-- for.
unfoldable pub token_consume : List Token → ℕ → Option (ℕ × List RuneRange)
token_consume tokens idx = consumed idx (get_elem? tokens idx)

-- The state after both patterns read a common rune, if there is one.
abbrev pub joint : Option (ℕ × List RuneRange) → Option (ℕ × List RuneRange) → Option State
joint none b = none
joint (some a) none = none
joint (some (a_next, a_ranges)) (some (b_next, b_ranges)) =
    if ranges_overlap a_ranges b_ranges then some (a_next, b_next) else none

abbrev pub follow :
    Result GlobError Bool → (State → Result GlobError Bool) → Option State → Result GlobError Bool
follow skip more none = skip
follow skip more (some next) = more next

module _ (tokens_a tokens_b : List Token) where
  -- The stack after a visit: the last state pushed is the first of the list.
  abbrev pub push_stars : State → List State → List State
  push_stars (i, j) stack =
      let first = if is_star (get_elem? tokens_a i) then (suc i, j) ∷ stack else stack in
      if is_star (get_elem? tokens_b j) then (i, suc j) ∷ first else first

  unfoldable pub add_closure :
      ℕ → List State → List State → List State → Result GlobError (List State × List State)
  unfolding visited
  add_closure n [] seen queue = ok (seen, queue)
  add_closure zero (curr ∷ stack) seen queue = err out_of_rounds
  add_closure (suc n) (curr ∷ stack) seen queue =
      let skip = add_closure n stack seen queue in
      let visit = add_closure n (push_stars curr stack) (curr ∷ seen) (queue ++ curr ∷ []) in
      if visited curr seen then skip else visit

  abbrev pub grid_size : ℕ
  grid_size = suc (length tokens_a) * suc (length tokens_b)

  unfoldable pub next_state : State → Option State
  next_state (i, j) = joint (token_consume tokens_a i) (token_consume tokens_b j)

  -- `queue` is the part of the code's queue from `idx` on.
  unfoldable pub search_rounds : ℕ → List State → List State → Result GlobError Bool
  search_rounds n seen [] = ok false
  search_rounds zero seen (curr ∷ queue) = err out_of_rounds
  search_rounds (suc n) seen ((i, j) ∷ queue) =
      let skip = search_rounds n seen queue in
      if (i == length tokens_a) && (j == length tokens_b)
      then ok true
      else if (i == length tokens_a) || (j == length tokens_b)
      then skip
      else follow skip
          (λ next. add_closure (1 + 2 * grid_size) (next ∷ []) seen queue >>= λ (seen', queue').
            search_rounds n seen' queue')
          (next_state (i, j))

  unfoldable pub search : Result GlobError Bool
  search = add_closure (1 + 2 * grid_size) ((0, 0) ∷ []) [] [] >>= λ (seen, queue).
      search_rounds grid_size seen queue

unfoldable pub segment_patterns_overlap : Text → Text → Result GlobError Bool
segment_patterns_overlap a b =
    parse_segment a >>= λ tokens_a. parse_segment b >>= λ tokens_b. search tokens_a tokens_b

-- Segment by segment; the first that fails or has no common path decides.
unfoldable pub segments_overlap : List Text → List Text → Result GlobError Bool
segments_overlap [] ys = ok true
segments_overlap (a ∷ xs) [] = ok false
segments_overlap (a ∷ xs) (b ∷ ys) = segment_patterns_overlap a b >>= λ overlap.
    let rest = segments_overlap xs ys in if overlap then rest else ok false

unfoldable pub patterns_overlap : Text → Text → Result GlobError Bool
patterns_overlap a b =
    if length (split a) == length (split b) then segments_overlap (split a) (split b) else ok false
