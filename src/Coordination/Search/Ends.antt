-- ===== src/Coordination/Search/Ends.antt =====
-- `PatternsOverlap` ends: its rounds are enough for every pair of patterns.
use intercore.Common.{
  ℕ, zero, suc, ◌+◌, ◌*◌, ◌≤◌, ◌<◌, ◌≡◌, ◌≢◌, refl, subst, Bool, true, false, ◌&&◌, ◌||◌, Option,
  none, some, List, [], ◌∷◌, arith, length, get_elem?, ◌==◌, if◌then◌else◌, Bool-cases,
  Option-cases, if-true, if-false, inl, inr,
}
use mathlib.Core.Option.{some_inj}
use intercore.Common.Every.{Every}
use intercore.Common.Text.{Text}
use intercore.Common.Outcome.{Result, ok, err, ◌>>=◌}
use intercore.Coordination.Ranges.{RuneRange, ranges_overlap, non_separator_ranges}
use intercore.Coordination.Glob.{
  Token, literal, any_rune, star, class, GlobError, out_of_rounds, split, parse_segment,
}
use intercore.Coordination.Glob.Rounds.{parse_segment-ends}
use intercore.Coordination.Search.{
  State, consumed, joint, token_consume, grid_size, next_state, search_rounds, search,
  segment_patterns_overlap, segments_overlap, patterns_overlap,
}
use intercore.Coordination.Search.Rounds.{InGrid, unseen, add_closure-Closed, count_unseen-bound}

get_elem?-bound :
    (tokens : List Token) (i : ℕ) (t : Token) → get_elem? tokens i ≡ some t → i < length tokens
get_elem?-bound [] i t h = cc
get_elem?-bound (u ∷ ts) zero t h = omega arith
get_elem?-bound (u ∷ ts) (suc i) t h = let le = get_elem?-bound ts i t h in omega arith

token_consume-bound :
    (tokens : List Token) (i n : ℕ) (rs : List RuneRange)
    → token_consume tokens i ≡ some (n, rs)
    → n ≤ length tokens
unfolding token_consume
token_consume-bound tokens i n rs h = go (get_elem? tokens i) (get_elem?-bound tokens i) h
  where
    step :
        (m : ℕ) (qs : List RuneRange)
        → m ≤ length tokens
        → ◌≡◌ {A = Option (ℕ × List RuneRange)} (some (m, qs)) (some (n, rs))
        → n ≤ length tokens
    step m qs le e = subst (λ p. p.0 ≤ length tokens) (some_inj.0 e) le

    go :
        (o : Option Token)
        → ((t : Token) → o ≡ some t → i < length tokens)
        → consumed i o ≡ some (n, rs)
        → n ≤ length tokens
    go none b e = cc
    go (some (literal lit)) b e = step (suc i) _ (b (literal lit) refl) e
    go (some (any_rune ranges)) b e = step (suc i) _ (b (any_rune ranges) refl) e
    go (some star) b e = (let lt = b star refl in step i non_separator_ranges (omega arith) e)
    go (some (class ranges)) b e = step (suc i) _ (b (class ranges) refl) e

module _ (tokens_a tokens_b : List Token) where
  joint-grid :
      (a b : Option (ℕ × List RuneRange)) (next : State)
      → ((n : ℕ) (rs : List RuneRange) → a ≡ some (n, rs) → n ≤ length tokens_a)
      → ((n : ℕ) (rs : List RuneRange) → b ≡ some (n, rs) → n ≤ length tokens_b)
      → joint a b ≡ some next
      → InGrid tokens_a tokens_b next
  joint-grid none b next f g h = cc
  joint-grid (some a) none next f g h = cc
  joint-grid (some (n, rs)) (some (m, qs)) next f g h = elim (Bool-cases (ranges_overlap rs qs)) [
    | inl e ↦
        subst (InGrid tokens_a tokens_b) (some_inj.0 (if-true (some (n, m)) none e h))
          (let le = f n rs refl in let le' = g m qs refl in (omega arith, omega arith))
    | inr e ↦ absurd (never (if-false (some (n, m)) none e h))
  ]
    where
      never : none ≢ some next
      never e = cc

  next_state-grid :
      (i j : ℕ) (next : State)
      → next_state tokens_a tokens_b (i, j) ≡ some next
      → InGrid tokens_a tokens_b next
  unfolding next_state
  next_state-grid i j next h =
      joint-grid (token_consume tokens_a i) (token_consume tokens_b j) next
        (token_consume-bound tokens_a i) (token_consume-bound tokens_b j) h

  -- Enough rounds for what is queued and what can still be queued.
  search_rounds-total :
      (n : ℕ) (seen queue : List State)
      → Every (InGrid tokens_a tokens_b) queue
      → length queue + unseen tokens_a tokens_b seen ≤ n
      → (b : Bool) × (search_rounds tokens_a tokens_b n seen queue ≡ ok b)
  unfolding search_rounds
  search_rounds-total n seen [] g le = (false, refl)
  search_rounds-total zero seen (c ∷ queue) g le = absurd (omega arith)
  search_rounds-total (suc n) seen ((i, j) ∷ queue) g le =
      let skip = search_rounds-total n seen queue g.1 (omega arith) in
      elim (Bool-cases ((i == length tokens_a) && (j == length tokens_b))) [
        | inl e ↦ (true, rw e refl)
        | inr e ↦ elim (Bool-cases ((i == length tokens_a) || (j == length tokens_b))) [
          | inl f ↦ (skip.0, rw (e, f) skip.1)
          | inr f ↦ elim (Option-cases (next_state tokens_a tokens_b (i, j))) [
            | inl none_left ↦ (skip.0, rw (e, f, none_left) skip.1)
            | inr (next, found) ↦
                let c =
                  add_closure-Closed tokens_a tokens_b (1 + 2 * grid_size tokens_a tokens_b)
                    (next ∷ []) seen queue (next_state-grid i j next found, tt) g.1
                    (let bound =
                        count_unseen-bound seen (suc (length tokens_a)) (suc (length tokens_b)) in
                      omega arith) in
                let rest =
                  search_rounds-total n c.seen' c.queue' c.in_grid
                    (let u = c.used in omega arith) in
                (rest.0, rw (e, f, found, c.returns) rest.1)
          ]
        ]
      ]

  pub search-total : (b : Bool) × (search tokens_a tokens_b ≡ ok b)
  unfolding search
  search-total =
      let bound = count_unseen-bound [] (suc (length tokens_a)) (suc (length tokens_b)) in
      let c =
        add_closure-Closed tokens_a tokens_b (1 + 2 * grid_size tokens_a tokens_b) ((0, 0) ∷ []) []
          [] ((omega arith, omega arith), tt) tt (omega arith) in
      let rest =
        search_rounds-total (grid_size tokens_a tokens_b) c.seen' c.queue' c.in_grid
          (let u = c.used in omega arith) in
      (rest.0, rw c.returns rest.1)

bind-never {ℓ} :
    {A : Type ℓ} (m : Result GlobError A) (f : A → Result GlobError Bool)
    → m ≢ err out_of_rounds
    → ((a : A) → f a ≢ err out_of_rounds)
    → (m >>= f) ≢ err out_of_rounds
bind-never (ok a) f h k e = k a e
bind-never (err x) f h k e = h (cc)

ok-never : (r : Result GlobError Bool) (b : Bool) → r ≡ ok b → r ≢ err out_of_rounds
ok-never r b h e = cc

segment_patterns_overlap-ends : (a b : Text) → segment_patterns_overlap a b ≢ err out_of_rounds
unfolding segment_patterns_overlap
segment_patterns_overlap-ends a b = bind-never (parse_segment a) _ (parse_segment-ends a) (λ ta.
    bind-never (parse_segment b) _ (parse_segment-ends b)
      (λ tb. let total = search-total ta tb in ok-never (search ta tb) total.0 total.1))

segments_overlap-ends : (xs ys : List Text) → segments_overlap xs ys ≢ err out_of_rounds
unfolding segments_overlap
segments_overlap-ends [] ys = ok-never (ok true) true refl
segments_overlap-ends (a ∷ xs) [] = ok-never (ok false) false refl
segments_overlap-ends (a ∷ xs) (b ∷ ys) =
    bind-never (segment_patterns_overlap a b) _ (segment_patterns_overlap-ends a b)
      (λ overlap. either overlap (segments_overlap xs ys) (segments_overlap-ends xs ys))
  where
    either :
        (overlap : Bool) (rest : Result GlobError Bool)
        → rest ≢ err out_of_rounds
        → (if overlap then rest else ok false) ≢ err out_of_rounds
    either true rest h = h
    either false rest h = ok-never (ok false) false refl

-- `PatternsOverlap` never runs out of rounds.
pub patterns_overlap-ends : (a b : Text) → patterns_overlap a b ≢ err out_of_rounds
unfolding patterns_overlap
patterns_overlap-ends a b h = elim (Bool-cases (length (split a) == length (split b))) [
  | inl e ↦ segments_overlap-ends (split a) (split b) (if-true _ _ e h)
  | inr e ↦ ok-never (ok false) false refl (if-false _ _ e h)
]
