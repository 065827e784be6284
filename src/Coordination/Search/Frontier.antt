-- ===== src/Coordination/Search/Frontier.antt =====
-- What the overlap search has seen when it answers false: a set of pairs of positions that
-- contains the start and every step from its members, and not the end.
use intercore.Common.{
  ℕ, zero, suc, ◌≡◌, sym, subst, Bool, true, false, ◌&&◌, some, List, [], ◌∷◌, ◌++◌, arith, length,
  get_elem?, ◌==◌, if◌then◌else◌, Bool-cases, if-true, if-false, inl, inr, ◌⊎◌,
}
use intercore.Common.Outcome.{ok, ok-injective}
use intercore.Coordination.Glob.{Token}
use intercore.Coordination.Search.{
  State, same_state, visited, is_star, push_stars, add_closure, next_state,
}
use intercore.Coordination.Search.Rounds.{visited-cons, visited-here}

pub visited-cases :
    (s c : State) (seen : List State)
    → visited s (c ∷ seen) ≡ true
    → (c ≡ s) ⊎ (visited s seen ≡ true)
unfolding visited
visited-cases (i, j) (k, l) seen h = elim (Bool-cases (same_state (k, l) (i, j))) [
  | inl e ↦ inl (same i j k l e)
  | inr e ↦ inr (if-false true (visited (i, j) seen) e h)
]
  where
    same : (i j k l : ℕ) → ((k == i) && (l == j)) ≡ true → ◌≡◌ {A = State} (k, l) (i, j)
    same i j k l e = ground arith

visited-append :
    (s c : State) (queue : List State) → visited s queue ≡ true → visited s (queue ++ c ∷ []) ≡ true
unfolding visited
visited-append s c [] h = cc
visited-append s c (x ∷ queue) h = ground (arith, visited-append s c queue)

visited-last : (c : State) (queue : List State) → visited c (queue ++ c ∷ []) ≡ true
unfolding visited
visited-last c [] = ground arith
visited-last c (x ∷ queue) = ground (arith, visited-last c queue)

pub not_visited : (x : State) → visited x [] ≡ true → ⊥
unfolding visited
not_visited x h = cc

module _ (tokens_a tokens_b : List Token) where
  abbrev pub Known : List State → List State → State → Type 0
  Known seen stack s = (visited s seen ≡ true) ⊎ (visited s stack ≡ true)

  abbrev pub IsFinal : State → Type 0
  IsFinal s = (s.0 ≡ length tokens_a) × (s.1 ≡ length tokens_b)

  -- Every step from a pair leads to a known one.
  pub record Followed (seen stack : List State) (s : State) : Type 0 where
    pub not_final : IsFinal s → ⊥
    pub next_known :
        (next : State) → next_state tokens_a tokens_b s ≡ some next → Known seen stack next

  pub record Frontier (seen stack queue : List State) : Type 0 where
    pub star_a :
        (s : State)
        → visited s seen ≡ true
        → is_star (get_elem? tokens_a s.0) ≡ true
        → Known seen stack (suc s.0, s.1)
    pub star_b :
        (s : State)
        → visited s seen ≡ true
        → is_star (get_elem? tokens_b s.1) ≡ true
        → Known seen stack (s.0, suc s.1)
    pub steps :
        (s : State) → visited s seen ≡ true → (visited s queue ≡ true) ⊎ Followed seen stack s

  -- A pair on the stack that was visited is taken off.
  skip-Known :
      (seen stack : List State) (c x : State)
      → visited c seen ≡ true
      → Known seen (c ∷ stack) x
      → Known seen stack x
  skip-Known seen stack c x v (inl k) = inl k
  skip-Known seen stack c x v (inr k) = elim (visited-cases x c stack k) [
    | inl e ↦ inl (subst (λ y. visited y seen ≡ true) e v)
    | inr e ↦ inr e
  ]

  push_stars-keeps :
      (c x : State) (stack : List State)
      → visited x stack ≡ true
      → visited x (push_stars tokens_a tokens_b c stack) ≡ true
  push_stars-keeps (i, j) x stack h =
      keeps (is_star (get_elem? tokens_a i)) (is_star (get_elem? tokens_b j)) (suc i, j) (i, suc j)
    where
      keeps :
          (p q : Bool) (u v : State)
          → visited x
              (if q then v ∷ (if p then u ∷ stack else stack) else (if p then u ∷ stack else stack))
            ≡ true
      keeps true true u v = visited-cons x v (u ∷ stack) (visited-cons x u stack h)
      keeps true false u v = visited-cons x u stack h
      keeps false true u v = visited-cons x v stack h
      keeps false false u v = h

  push_stars-a :
      (c : State) (stack : List State)
      → is_star (get_elem? tokens_a c.0) ≡ true
      → visited (suc c.0, c.1) (push_stars tokens_a tokens_b c stack) ≡ true
  push_stars-a (i, j) stack h = elim (Bool-cases (is_star (get_elem? tokens_b j))) [
    | inl e ↦
        rw (h, e)
          (visited-cons (suc i, j) (i, suc j) ((suc i, j) ∷ stack) (visited-here (suc i, j) stack))
    | inr e ↦ rw (h, e) (visited-here (suc i, j) stack)
  ]

  push_stars-b :
      (c : State) (stack : List State)
      → is_star (get_elem? tokens_b c.1) ≡ true
      → visited (c.0, suc c.1) (push_stars tokens_a tokens_b c stack) ≡ true
  push_stars-b (i, j) stack h = elim (Bool-cases (is_star (get_elem? tokens_a i))) [
    | inl e ↦ rw (h, e) (visited-here (i, suc j) ((suc i, j) ∷ stack))
    | inr e ↦ rw (h, e) (visited-here (i, suc j) stack)
  ]

  visit-Known :
      (seen stack : List State) (c x : State)
      → Known seen (c ∷ stack) x
      → Known (c ∷ seen) (push_stars tokens_a tokens_b c stack) x
  visit-Known seen stack c x (inl k) = inl (visited-cons x c seen k)
  visit-Known seen stack c x (inr k) = elim (visited-cases x c stack k) [
    | inl e ↦ inl (subst (λ y. visited y (c ∷ seen) ≡ true) e (visited-here c seen))
    | inr e ↦ inr (push_stars-keeps c x stack e)
  ]

  -- Knowing more.
  pub move-Followed :
      (seen stack seen' stack' : List State) (s : State)
      → ((x : State) → Known seen stack x → Known seen' stack' x)
      → Followed seen stack s
      → Followed seen' stack' s
  move-Followed seen stack seen' stack' s f d = record {
    not_final = d.not_final;
    next_known = λ next h. f next (d.next_known next h);
  }

  skip-Frontier :
      (seen stack queue : List State) (c : State)
      → visited c seen ≡ true
      → Frontier seen (c ∷ stack) queue
      → Frontier seen stack queue
  skip-Frontier seen stack queue c v f = record {
    star_a = λ s h k. skip-Known seen stack c _ v (f.star_a s h k);
    star_b = λ s h k. skip-Known seen stack c _ v (f.star_b s h k);
    steps = λ s h. elim (f.steps s h) [
      | inl q ↦ inl q
      | inr d ↦
          inr (move-Followed seen (c ∷ stack) seen stack s (λ x. skip-Known seen stack c x v) d)
    ];
  }

  visit-Frontier :
      (seen stack queue : List State) (c : State)
      → Frontier seen (c ∷ stack) queue
      → Frontier (c ∷ seen) (push_stars tokens_a tokens_b c stack) (queue ++ c ∷ [])
  visit-Frontier seen stack queue c f = record {
    star_a = λ s h k. elim (visited-cases s c seen h) [
      | inl e ↦ inr (
          subst (λ y. visited (suc y.0, y.1) (push_stars tokens_a tokens_b c stack) ≡ true) e
            (push_stars-a c stack (subst (λ y. is_star (get_elem? tokens_a y.0) ≡ true) (sym e) k)))
      | inr v ↦ visit-Known seen stack c _ (f.star_a s v k)
    ];
    star_b = λ s h k. elim (visited-cases s c seen h) [
      | inl e ↦ inr (
          subst (λ y. visited (y.0, suc y.1) (push_stars tokens_a tokens_b c stack) ≡ true) e
            (push_stars-b c stack (subst (λ y. is_star (get_elem? tokens_b y.1) ≡ true) (sym e) k)))
      | inr v ↦ visit-Known seen stack c _ (f.star_b s v k)
    ];
    steps = λ s h. elim (visited-cases s c seen h) [
      | inl e ↦ inl (subst (λ y. visited y (queue ++ c ∷ []) ≡ true) e (visited-last c queue))
      | inr v ↦ elim (f.steps s v) [
        | inl q ↦ inl (visited-append s c queue q)
        | inr d ↦ inr (
            move-Followed seen (c ∷ stack) (c ∷ seen) (push_stars tokens_a tokens_b c stack) s
              (visit-Known seen stack c) d)
      ]
    ];
  }

  -- A closure sees everything that was known, and leaves nothing on the stack.
  pub add_closure-Frontier :
      (n : ℕ) (stack seen queue seen' queue' : List State)
      → Frontier seen stack queue
      → add_closure tokens_a tokens_b n stack seen queue ≡ ok (seen', queue')
      → Frontier seen' [] queue' × ((x : State) → Known seen stack x → visited x seen' ≡ true)
  unfolding add_closure
  add_closure-Frontier n [] seen queue seen' queue' f h =
      subst (λ p. Frontier p.0 [] p.1 × ((x : State) → Known seen [] x → visited x p.0 ≡ true))
        (ok-injective h) (f, λ x k. elim k [ inl v ↦ v | inr v ↦ absurd (not_visited x v) ])
  add_closure-Frontier zero (c ∷ stack) seen queue seen' queue' f h = cc
  add_closure-Frontier (suc n) (c ∷ stack) seen queue seen' queue' f h =
      elim (Bool-cases (visited c seen)) [
        | inl e ↦
            let (g, keeps) =
              add_closure-Frontier n stack seen queue seen' queue'
                (skip-Frontier seen stack queue c e f) (if-true _ _ e h) in
            (g, λ x k. keeps x (skip-Known seen stack c x e k))
        | inr e ↦
            let (g, keeps) =
              add_closure-Frontier n (push_stars tokens_a tokens_b c stack) (c ∷ seen)
                (queue ++ c ∷ []) seen' queue' (visit-Frontier seen stack queue c f)
                (if-false _ _ e h) in
            (g, λ x k. keeps x (visit-Known seen stack c x k))
      ]
