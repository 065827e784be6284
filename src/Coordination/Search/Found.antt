-- ===== src/Coordination/Search/Found.antt =====
-- When the overlap search answers true, there is a text that both token lists match.
use intercore.Common.{
  ℕ, zero, suc, ◌+◌, ◌*◌, ◌≡◌, refl, sym, ap, subst, ◌∙◌, Bool, true, false, ◌&&◌, ◌||◌, Option,
  none, some, List, [], ◌∷◌, ◌++◌, arith, length, get_elem?, drop, ◌==◌, ==_iff, ◌↔◌, if◌then◌else◌,
  if-true, if-false, Bool-cases, inl, inr,
}
use mathlib.Core.Bool.{false≢true}
use mathlib.Core.Option.{some_inj}
use intercore.Common.Every.{Every, Every-append}
use intercore.Common.Text.{Text}
use intercore.Common.Outcome.{ok, ◌>>=◌, >>=-eq-ok, ok-injective}
use intercore.Coordination.Ranges.{RuneRange, ranges_overlap, non_separator_ranges}
use intercore.Coordination.Ranges.Apart.{Filled}
use intercore.Coordination.Ranges.Members.{in_ranges}
use intercore.Coordination.Ranges.Overlap.{ranges_overlap_sound}
use intercore.Coordination.Glob.{Token, literal, any_rune, star, class, split, parse_segment}
use intercore.Coordination.Search.{
  State, is_star, token_consume, consumed, joint, follow, push_stars, add_closure, grid_size,
  next_state, search_rounds, search, visited, segment_patterns_overlap, segments_overlap,
  patterns_overlap,
}
use intercore.Coordination.Search.Ordered.{Ordered, parse_segment-Ordered}
use intercore.Coordination.Search.Paths.{
  Matches, done, takes, passes, stays, get-Ordered, SegmentMatches, AllMatch, PathMatches,
  patterns_overlap-PathMatches,
}

drop-get :
    (tokens : List Token) (i : ℕ) (t : Token)
    → get_elem? tokens i ≡ some t
    → drop i tokens ≡ t ∷ drop (suc i) tokens
drop-get [] i t h = cc
drop-get (u ∷ us) zero t h = cc
drop-get (u ∷ us) (suc i) t h = drop-get us i t h

drop-length : (tokens : List Token) → drop (length tokens) tokens ≡ []
drop-length [] = refl
drop-length (t ∷ ts) = drop-length ts

star-get : (o : Option Token) → is_star o ≡ true → o ≡ some star
star-get none h = cc
star-get (some (literal lit)) h = cc
star-get (some (any_rune ranges)) h = cc
star-get (some star) h = refl
star-get (some (class ranges)) h = cc

module _ (tokens : List Token) where
  -- Past a star.
  leave-Matches :
      (i : ℕ) (s : Text)
      → is_star (get_elem? tokens i) ≡ true
      → Matches (drop (suc i) tokens) s
      → Matches (drop i tokens) s
  leave-Matches i s h m =
      subst (λ ts. Matches ts s) (sym (drop-get tokens i star (star-get (get_elem? tokens i) h)))
        (passes m)

  -- A rune that the token at a position reads.
  read-Matches :
      (i n c : ℕ) (rs : List RuneRange) (s : Text)
      → token_consume tokens i ≡ some (n, rs)
      → in_ranges c rs ≡ true
      → Matches (drop n tokens) s
      → Matches (drop i tokens) (c ∷ s)
  unfolding token_consume
  read-Matches i n c rs s h a m = go (get_elem? tokens i) refl h
    where
      step :
          (t : Token) (m' : ℕ) (qs : List RuneRange)
          → get_elem? tokens i ≡ some t
          → ◌≡◌ {A = Option (ℕ × List RuneRange)} (some (m', qs)) (some (n, rs))
          → (in_ranges c qs ≡ true
              → Matches (drop m' tokens) s
              → Matches (t ∷ drop (suc i) tokens) (c ∷ s))
          → Matches (drop i tokens) (c ∷ s)
      step t m' qs at e f =
          let same = some_inj.0 e in
          subst (λ ts. Matches ts (c ∷ s)) (sym (drop-get tokens i t at))
            (f (subst (λ p. in_ranges c p.1 ≡ true) (sym same) a)
              (subst (λ p. Matches (drop p.0 tokens) s) (sym same) m))

      go :
          (o : Option Token)
          → get_elem? tokens i ≡ o
          → consumed i o ≡ some (n, rs)
          → Matches (drop i tokens) (c ∷ s)
      go none at e = cc
      go (some (literal lit)) at e =
          step (literal lit) (suc i) _ at e (λ x y. takes (ground arith) y)
      go (some (any_rune ranges)) at e = step (any_rune ranges) (suc i) _ at e (λ x y. takes x y)
      go (some star) at e =
          step star i non_separator_ranges at e
            (λ x y. stays x (subst (λ ts. Matches ts s) (drop-get tokens i star at) y))
      go (some (class ranges)) at e = step (class ranges) (suc i) _ at e (λ x y. takes x y)

consume-Filled :
    (tokens : List Token) (i n : ℕ) (rs : List RuneRange)
    → Every Ordered tokens
    → token_consume tokens i ≡ some (n, rs)
    → Filled rs
unfolding token_consume
consume-Filled tokens i n rs ordered h =
    go (get_elem? tokens i) (λ t at. get-Ordered tokens i t ordered at) h
  where
    step :
        (m : ℕ) (qs : List RuneRange)
        → Filled qs
        → ◌≡◌ {A = Option (ℕ × List RuneRange)} (some (m, qs)) (some (n, rs))
        → Filled rs
    step m qs f e = subst (λ p. Filled p.1) (some_inj.0 e) f

    go :
        (o : Option Token)
        → ((t : Token) → o ≡ some t → Ordered t)
        → consumed i o ≡ some (n, rs)
        → Filled rs
    go none f e = cc
    go (some (literal lit)) f e = step (suc i) _ (omega arith, tt) e
    go (some (any_rune ranges)) f e = step (suc i) _ (f (any_rune ranges) refl).1 e
    go (some star) f e = step i non_separator_ranges (omega arith) e
    go (some (class ranges)) f e = step (suc i) _ (f (class ranges) refl).1 e

module _ (tokens_a tokens_b : List Token) (ordered_a : Every Ordered tokens_a)
    (ordered_b : Every Ordered tokens_b) where
  -- A text that both lists match from a pair of positions on.
  abbrev Meets : State → Type 0
  Meets x = (s : Text) × Matches (drop x.0 tokens_a) s × Matches (drop x.1 tokens_b) s

  -- A pair from which a meeting leads back to one from the start.
  abbrev Good : State → Type 0
  Good x = Meets x → Meets (0, 0)

  joint-Meets :
      (i j : ℕ) (a b : Option (ℕ × List RuneRange)) (next : State)
      → token_consume tokens_a i ≡ a
      → token_consume tokens_b j ≡ b
      → joint a b ≡ some next
      → Meets next
      → Meets (i, j)
  joint-Meets i j none b next h k e m = cc
  joint-Meets i j (some (n, rs)) none next h k e m = cc
  joint-Meets i j (some (n, rs)) (some (p, qs)) next h k e (s, m, w) =
      elim (Bool-cases (ranges_overlap rs qs)) [
        | inr f ↦ absurd (never (if-false _ _ f e))
        | inl f ↦
            let (c, x, y) =
              ranges_overlap_sound rs qs (consume-Filled tokens_a i n rs ordered_a h)
                (consume-Filled tokens_b j p qs ordered_b k) f in
            let same = some_inj.0 (if-true _ _ f e) in
            (
              c ∷ s,
              read-Matches tokens_a i n c rs s h x
                  (subst (λ z. Matches (drop z.0 tokens_a) s) (sym same) m),
              read-Matches tokens_b j p c qs s k y
                  (subst (λ z. Matches (drop z.1 tokens_b) s) (sym same) w),
            )
      ]
    where
      never : ◌≡◌ {A = Option State} none (some next) → ⊥
      never z = cc

  next_state-Good :
      (x next : State) → next_state tokens_a tokens_b x ≡ some next → Good x → Good next
  unfolding next_state
  next_state-Good (i, j) next h g m =
      g (joint-Meets i j (token_consume tokens_a i) (token_consume tokens_b j) next refl refl h m)

  push_stars-Good :
      (x : State) (stack : List State)
      → Good x
      → Every Good stack
      → Every Good (push_stars tokens_a tokens_b x stack)
  push_stars-Good (i, j) stack g h =
      keeps (is_star (get_elem? tokens_a i)) (is_star (get_elem? tokens_b j)) refl refl
    where
      on_a : is_star (get_elem? tokens_a i) ≡ true → Good (suc i, j)
      on_a e (s, m, w) = g (s, leave-Matches tokens_a i s e m, w)

      on_b : is_star (get_elem? tokens_b j) ≡ true → Good (i, suc j)
      on_b e (s, m, w) = g (s, m, leave-Matches tokens_b j s e w)

      keeps :
          (p q : Bool)
          → is_star (get_elem? tokens_a i) ≡ p
          → is_star (get_elem? tokens_b j) ≡ q
          → Every Good (
              if q
              then (i, suc j) ∷ (if p then (suc i, j) ∷ stack else stack)
              else (if p then (suc i, j) ∷ stack else stack))
      keeps true true a b = (on_b b, (on_a a, h))
      keeps true false a b = (on_a a, h)
      keeps false true a b = (on_b b, h)
      keeps false false a b = h

  add_closure-Good :
      (n : ℕ) (stack seen queue seen' queue' : List State)
      → Every Good stack
      → Every Good queue
      → add_closure tokens_a tokens_b n stack seen queue ≡ ok (seen', queue')
      → Every Good queue'
  unfolding add_closure
  add_closure-Good n [] seen queue seen' queue' g q h =
      subst (λ p. Every Good p.1) (ok-injective h) q
  add_closure-Good zero (c ∷ stack) seen queue seen' queue' g q h = cc
  add_closure-Good (suc n) (c ∷ stack) seen queue seen' queue' g q h =
      elim (Bool-cases (visited c seen)) [
        | inl e ↦ add_closure-Good n stack seen queue seen' queue' g.1 q (if-true _ _ e h)
        | inr e ↦
            add_closure-Good n (push_stars tokens_a tokens_b c stack) (c ∷ seen) (queue ++ c ∷ [])
              seen' queue' (push_stars-Good c stack g.0 g.1)
              (Every-append Good queue (c ∷ []) q (g.0, tt)) (if-false _ _ e h)
      ]

  end-Meets : (i j : ℕ) → ((i == length tokens_a) && (j == length tokens_b)) ≡ true → Meets (i, j)
  end-Meets i j h = (
    [],
    subst (λ k. Matches (drop k tokens_a) []) (sym first)
        (subst (λ ts. Matches ts []) (sym (drop-length tokens_a)) done),
    subst (λ k. Matches (drop k tokens_b) []) (sym second)
        (subst (λ ts. Matches ts []) (sym (drop-length tokens_b)) done),
  )
    where
      first : i ≡ length tokens_a
      first = ground arith

      second : j ≡ length tokens_b
      second = ground arith

  search_rounds-Meets :
      (n : ℕ) (seen queue : List State)
      → Every Good queue
      → search_rounds tokens_a tokens_b n seen queue ≡ ok true
      → Meets (0, 0)
  unfolding search_rounds
  search_rounds-Meets n seen [] g h = absurd (false≢true (ok-injective h))
  search_rounds-Meets zero seen (c ∷ queue) g h = cc
  search_rounds-Meets (suc n) seen ((i, j) ∷ queue) g h =
      elim (Bool-cases ((i == length tokens_a) && (j == length tokens_b))) [
        | inl e ↦ g.0 (end-Meets i j e)
        | inr e ↦ elim (Bool-cases ((i == length tokens_a) || (j == length tokens_b))) [
          | inl f ↦ search_rounds-Meets n seen queue g.1 (if-true _ _ f (if-false _ _ e h))
          | inr f ↦
              go (next_state tokens_a tokens_b (i, j)) refl (if-false _ _ f (if-false _ _ e h))
                (search_rounds-Meets n seen queue) (λ s q. search_rounds-Meets n s q)
        ]
      ]
    where
      go :
          (o : Option State)
          → next_state tokens_a tokens_b (i, j) ≡ o
          → follow
              (search_rounds tokens_a tokens_b n seen queue)
              (λ next.
                add_closure tokens_a tokens_b
                  (1 + 2 * grid_size tokens_a tokens_b)
                  (next ∷ [])
                  seen
                  queue
                >>= λ (seen', queue'). search_rounds tokens_a tokens_b n seen' queue')
              o
            ≡ ok true
          → (Every Good queue
              → search_rounds tokens_a tokens_b n seen queue ≡ ok true
              → Meets (0, 0))
          → ((s q : List State)
              → Every Good q
              → search_rounds tokens_a tokens_b n s q ≡ ok true
              → Meets (0, 0))
          → Meets (0, 0)
      go none k e skip more = skip g.1 e
      go (some next) k e skip more =
          let (p, closed, rest) =
            >>=-eq-ok (add_closure tokens_a tokens_b _ (next ∷ []) seen queue) _ e in
          more p.0 p.1
            (add_closure-Good _ (next ∷ []) seen queue p.0 p.1
              (next_state-Good (i, j) next k g.0, tt) g.1 closed)
            rest

  -- A search that answers true has a text that both token lists match.
  search-Meets : search tokens_a tokens_b ≡ ok true → Meets (0, 0)
  unfolding search
  search-Meets h =
      let (p, closed, rest) =
        >>=-eq-ok
          (add_closure tokens_a tokens_b (1 + 2 * grid_size tokens_a tokens_b) ((0, 0) ∷ []) [] [])
          _ h in
      search_rounds-Meets (grid_size tokens_a tokens_b) p.0 p.1
        (add_closure-Good _ ((0, 0) ∷ []) [] [] p.0 p.1 ((λ m. m), tt) tt closed) rest

segment-Meets :
    (a b : Text)
    → segment_patterns_overlap a b ≡ ok true
    → (s : Text) × SegmentMatches a s × SegmentMatches b s
unfolding segment_patterns_overlap
segment-Meets a b h =
    let (ta, ha, h1) = >>=-eq-ok (parse_segment a) _ h in
    let (tb, hb, h2) = >>=-eq-ok (parse_segment b) _ h1 in
    let (s, m, w) =
      search-Meets ta tb (parse_segment-Ordered a ta ha) (parse_segment-Ordered b tb hb) h2 in
    (s, (ta, ha, m), (tb, hb, w))

segments-Meet :
    (xs ys : List Text)
    → (length xs == length ys) ≡ true
    → segments_overlap xs ys ≡ ok true
    → (path : List Text) × AllMatch xs path × AllMatch ys path
unfolding segments_overlap
segments-Meet [] [] l h = ([], tt, tt)
segments-Meet [] (y ∷ ys) l h = absurd (omega (arith, (==_iff 0 (suc (length ys))).0 l))
segments-Meet (x ∷ xs) [] l h = absurd (false≢true (ok-injective h))
segments-Meet (x ∷ xs) (y ∷ ys) l h =
    let (b, first, rest) = >>=-eq-ok (segment_patterns_overlap x y) _ h in
    elim (Bool-cases b) [
      | inl e ↦
          let (s, m, w) = segment-Meets x y (first ∙ ap ok e) in
          let (path, ms, ws) = segments-Meet xs ys (ground arith) (if-true _ _ e rest) in
          (s ∷ path, (m, ms), (w, ws))
      | inr e ↦ absurd (false≢true (ok-injective (if-false _ _ e rest)))
    ]

found-path :
    (a b : Text)
    → patterns_overlap a b ≡ ok true
    → (path : List Text) × PathMatches a path × PathMatches b path
unfolding patterns_overlap
found-path a b h = elim (Bool-cases (length (split a) == length (split b))) [
  | inl e ↦ segments-Meet (split a) (split b) e (if-true _ _ e h)
  | inr e ↦ absurd (false≢true (ok-injective (if-false _ _ e h)))
]

-- `PatternsOverlap` answers true exactly when there is a path that both patterns match, segment by
-- segment.
pub patterns_overlap_iff :
    (a b : Text)
    → (patterns_overlap a b ≡ ok true)
      ↔ ((path : List Text) × PathMatches a path × PathMatches b path)
patterns_overlap_iff a b =
    (found-path a b, λ (path, h, k). patterns_overlap-PathMatches a b path h k)
