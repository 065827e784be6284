-- ===== src/Coordination/Search/Exhausted.antt =====
-- The set of pairs that the search of segmentPatternsOverlap (internal/coordination/glob.go) leaves
-- when it answers false.
use intercore.Common.{
  ℕ, zero, suc, ◌+◌, ◌*◌, ◌≡◌, ◌≢◌, refl, sym, ap, subst, ◌∙◌, Bool, true, false, ◌&&◌, ◌||◌,
  Option, none, some, List, [], ◌∷◌, arith, length, get_elem?, ◌==◌, ==_iff, Bool-cases, if-true,
  if-false, inl, inr,
}
use mathlib.Core.Bool.{false≢true}
use mathlib.Core.Option.{some_inj}
use intercore.Common.Outcome.{ok, ◌>>=◌, >>=-eq-ok, ok-injective}
use intercore.Coordination.Ranges.{RuneRange}
use intercore.Coordination.Glob.{Token}
use intercore.Coordination.Search.{
  State, visited, token_consume, add_closure, grid_size, next_state, follow, joint, consumed,
  search_rounds,
}
use intercore.Coordination.Search.Rounds.{visited-here}
use intercore.Coordination.Search.Frontier.{
  Known, IsFinal, Followed, Frontier, move-Followed, add_closure-Frontier, visited-cases,
  not_visited,
}

get_elem?-length :
    (tokens : List Token) (i : ℕ) → (i == length tokens) ≡ true → get_elem? tokens i ≡ none
get_elem?-length [] i h = refl
get_elem?-length (t ∷ ts) zero h = absurd (omega (arith, (==_iff zero (suc (length ts))).0 h))
get_elem?-length (t ∷ ts) (suc i) h = get_elem?-length ts i (ground arith)

token_consume-end :
    (tokens : List Token) (i : ℕ) → (i == length tokens) ≡ true → token_consume tokens i ≡ none
unfolding token_consume
token_consume-end tokens i h = ap (consumed i) (get_elem?-length tokens i h)

joint-none : (a : Option (ℕ × List RuneRange)) → joint a none ≡ none
joint-none none = refl
joint-none (some a) = refl

module _ (tokens_a tokens_b : List Token) where
  next_state-end :
      (i j : ℕ)
      → ((i == length tokens_a) || (j == length tokens_b)) ≡ true
      → next_state tokens_a tokens_b (i, j) ≡ none
  unfolding next_state
  next_state-end i j h = elim (Bool-cases (i == length tokens_a)) [
    | inl e ↦ ap (λ a. joint a (token_consume tokens_b j)) (token_consume-end tokens_a i e)
    | inr e ↦
        ap (joint (token_consume tokens_a i)) (token_consume-end tokens_b j (second _ _ h e))
        ∙ joint-none (token_consume tokens_a i)
  ]
    where
      second : (x y : Bool) → (x || y) ≡ true → x ≡ false → y ≡ true
      second x y h e = ground arith

  -- A pair that was followed leaves the queue.
  drop-Frontier :
      (seen stack queue : List State) (c : State)
      → Frontier tokens_a tokens_b seen [] (c ∷ queue)
      → Followed tokens_a tokens_b seen stack c
      → Frontier tokens_a tokens_b seen stack queue
  drop-Frontier seen stack queue c f d = record {
    star_a = λ s h k. more _ (f.star_a s h k);
    star_b = λ s h k. more _ (f.star_b s h k);
    steps = λ s h. elim (f.steps s h) [
      | inr e ↦ inr (move-Followed tokens_a tokens_b seen [] seen stack s more e)
      | inl q ↦ elim (visited-cases s c queue q) [
        | inl same ↦ inr (subst (Followed tokens_a tokens_b seen stack) same d)
        | inr v ↦ inl v
      ]
    ];
  }
    where
      more : (x : State) → Known tokens_a tokens_b seen [] x → Known tokens_a tokens_b seen stack x
      more x (inl v) = inl v
      more x (inr v) = absurd (not_visited x v)

  -- The set that an unsuccessful search leaves.
  pub record Exhausted (seen : List State) : Type 0 where
    pub set : List State
    pub frontier : Frontier tokens_a tokens_b set [] []
    pub includes : (x : State) → visited x seen ≡ true → visited x set ≡ true

  pub search_rounds-Exhausted :
      (n : ℕ) (seen queue : List State)
      → Frontier tokens_a tokens_b seen [] queue
      → search_rounds tokens_a tokens_b n seen queue ≡ ok false
      → Exhausted seen
  unfolding search_rounds
  search_rounds-Exhausted n seen [] f h = record { set = seen; frontier = f; includes = λ x v. v }
  search_rounds-Exhausted zero seen (c ∷ queue) f h = cc
  search_rounds-Exhausted (suc n) seen ((i, j) ∷ queue) f h =
      elim (Bool-cases ((i == length tokens_a) && (j == length tokens_b))) [
        | inl e ↦ absurd (false≢true (sym (ok-injective (if-true _ _ e h))))
        | inr e ↦ elim (Bool-cases ((i == length tokens_a) || (j == length tokens_b))) [
          | inl g ↦
              search_rounds-Exhausted n seen queue
                (drop-Frontier seen [] queue (i, j) f (followed-none e (next_state-end i j g)))
                (if-true _ _ g (if-false _ _ e h))
          | inr g ↦
              go (next_state tokens_a tokens_b (i, j)) refl e (if-false _ _ g (if-false _ _ e h))
                (λ q. search_rounds-Exhausted n seen queue q) (λ s q. search_rounds-Exhausted n s q)
        ]
      ]
    where
      not_both :
          ((i == length tokens_a) && (j == length tokens_b)) ≡ false
          → IsFinal tokens_a tokens_b (i, j)
          → ⊥
      not_both e both = ground arith

      followed-none :
          ((i == length tokens_a) && (j == length tokens_b)) ≡ false
          → next_state tokens_a tokens_b (i, j) ≡ none
          → Followed tokens_a tokens_b seen [] (i, j)
      followed-none e g = record {
        not_final = not_both e;
        next_known = λ next k. absurd (nothing next (sym g ∙ k));
      }
        where
          nothing : (next : State) → none ≢ some next
          nothing next k = cc

      go :
          (o : Option State)
          → next_state tokens_a tokens_b (i, j) ≡ o
          → ((i == length tokens_a) && (j == length tokens_b)) ≡ false
          → follow
              (search_rounds tokens_a tokens_b n seen queue)
              (λ next.
                add_closure tokens_a tokens_b
                  (1 + 2 * grid_size tokens_a tokens_b)
                  (next ∷ [])
                  seen
                  queue
                >>= λ (seen', queue'). search_rounds tokens_a tokens_b n seen' queue')
              o
            ≡ ok false
          → (Frontier tokens_a tokens_b seen [] queue
              → search_rounds tokens_a tokens_b n seen queue ≡ ok false
              → Exhausted seen)
          → ((s q : List State)
              → Frontier tokens_a tokens_b s [] q
              → search_rounds tokens_a tokens_b n s q ≡ ok false
              → Exhausted s)
          → Exhausted seen
      go none k e h skip more = skip (drop-Frontier seen [] queue (i, j) f (followed-none e k)) h
      go (some next) k e h skip more =
          let (p, closed, rest) =
            >>=-eq-ok
              (add_closure tokens_a tokens_b (1 + 2 * grid_size tokens_a tokens_b) (next ∷ []) seen
                queue)
              _ h in
          let found : Followed tokens_a tokens_b seen (next ∷ []) (i, j) = record {
            not_final = not_both e;
            next_known = λ other l. inr (
                subst (λ y. visited y (next ∷ []) ≡ true) (some_inj.0 (sym k ∙ l))
                  (visited-here next []));
          } in
          let (g, keeps) =
            add_closure-Frontier tokens_a tokens_b _ (next ∷ []) seen queue p.0 p.1
              (drop-Frontier seen (next ∷ []) queue (i, j) f found) closed in
          let out = more p.0 p.1 g rest in
          record {
            set = out.set;
            frontier = out.frontier;
            includes = λ x v. out.includes x (keeps x (inl v));
          }
