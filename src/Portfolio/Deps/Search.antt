-- ===== src/Portfolio/Deps/Search.antt =====
-- The depth-first search of hasPath, internal/portfolio/deps.go: what it finds, and that it ends.
use intercore.Common.{
  ℕ, zero, suc, ◌+◌, ◌<◌, ◌≡◌, ◌≢◌, refl, sym, subst, ◌∙◌, ◌⊎◌, inl, inr, Bool, true, false, ◌||◌,
  Option, some, List, [], ◌∷◌, ◌++◌, length, length-append, arith, Bool-cases,
}
use mathlib.Core.List.{reverse}
use intercore.Common.Text.{Text}
use intercore.Authz.Signing.{distinct_texts, same_text, same_text_iff, same_text_refl}
use intercore.Portfolio.Deps.{Dep, contains, is_edge, exists, get_downstream, path_rounds, has_path}
use intercore.Portfolio.Deps.Rows.{
  contains-append, contains-reverse, contains-get_downstream, unread, unread-length,
  unread-downstream,
}
use intercore.Portfolio.Deps.Paths.{Edge, Route, edge, link, Route-join}

-- The projects that a round pushes are those that a row leads to.
contains-pushed :
    (run node x : Text) (deps : List Dep)
    → contains x (reverse (get_downstream run node deps)) ≡ exists (is_edge run node x) deps
contains-pushed run node x deps =
    contains-reverse x (get_downstream run node deps) ∙ contains-get_downstream run node x deps

module _ (run from to : Text) (deps : List Dep) where
  -- Every project on the stack can be reached.
  unfoldable Sound : List Text → Type 0
  Sound stack = (x : Text) → contains x stack ≡ true → Route run deps from x

  unfoldable Pending : List Text → List Text → Text → Type 0
  Pending visited stack node =
      (x : Text) → Edge run deps node x → (contains x visited || contains x stack) ≡ true

  -- What leaves_project the start or a visited project is visited or on the stack.
  unfoldable Closed : List Text → List Text → Type 0
  Closed visited stack =
      Pending visited stack from
      × ((v : Text) → contains v visited ≡ true → (v ≢ to) × Pending visited stack v)

  Sound-push :
      (node : Text) (stack : List Text)
      → Sound (node ∷ stack)
      → Sound (reverse (get_downstream run node deps) ++ stack)
  unfolding Sound contains
  Sound-push node stack sound x member =
      let reached = sound node (ground (arith, same_text_refl node)) in
      elim (Bool-cases (exists (is_edge run node x) deps)) [
        | inl e ↦ Route-join reached (edge e)
        | inr e ↦ sound x (
            ground (
              arith,
              contains-pushed run node x deps,
              contains-append x (reverse (get_downstream run node deps)) stack,
            ))
      ]

  Sound-pop : (node : Text) (stack : List Text) → Sound (node ∷ stack) → Sound stack
  unfolding Sound contains
  Sound-pop node stack sound x member = sound x (ground arith)

  Pending-pop :
      (node v : Text) (visited stack : List Text)
      → contains node visited ≡ true
      → Pending visited (node ∷ stack) v
      → Pending visited stack v
  unfolding Pending contains
  Pending-pop node v visited stack seen pending x e =
      ground (arith, pending x e, same_text_iff node x)

  Pending-push :
      (node v : Text) (visited stack : List Text)
      → Pending visited (node ∷ stack) v
      → Pending (node ∷ visited) (reverse (get_downstream run node deps) ++ stack) v
  unfolding Pending contains
  Pending-push node v visited stack pending x e =
      ground (arith, pending x e, contains-append x (reverse (get_downstream run node deps)) stack)

  Pending-new :
      (node : Text) (visited stack : List Text)
      → Pending (node ∷ visited) (reverse (get_downstream run node deps) ++ stack) node
  unfolding Pending contains
  Pending-new node visited stack x e = ground (
    arith,
    contains-pushed run node x deps,
    contains-append x (reverse (get_downstream run node deps)) stack,
  )

  Sound-top : (node : Text) (stack : List Text) → Sound (node ∷ stack) → Route run deps from node
  unfolding Sound contains
  Sound-top node stack sound = sound node (ground (arith, same_text_refl node))

  Closed-pop :
      (node : Text) (visited stack : List Text)
      → contains node visited ≡ true
      → Closed visited (node ∷ stack)
      → Closed visited stack
  unfolding Closed
  Closed-pop node visited stack seen (start, rest) = (
    Pending-pop node from visited stack seen start,
    λ v h. ((rest v h).0, Pending-pop node v visited stack seen (rest v h).1),
  )

  Closed-push :
      (node : Text) (visited stack : List Text)
      → node ≢ to
      → Closed visited (node ∷ stack)
      → Closed (node ∷ visited) (reverse (get_downstream run node deps) ++ stack)
  unfolding Closed contains
  Closed-push node visited stack other (start, rest) = (
    Pending-push node from visited stack start,
    λ v h. elim (Bool-cases (same_text node v)) [
      | inl e ↦
          subst
            (λ k.
              (k ≢ to)
              × Pending (node ∷ visited) (reverse (get_downstream run node deps) ++ stack) k)
            (same_text_iff node v e) (other, Pending-new node visited stack)
      | inr e ↦ let old = rest v (ground arith) in (old.0, Pending-push node v visited stack old.1)
    ],
  )

  -- With an empty stack the visited projects are all that can be reached.
  Closed-avoids :
      (visited : List Text) (a : Text)
      → Closed visited []
      → Pending visited [] a
      → ¬ Route run deps a to
  unfolding Closed Pending contains
  Closed-avoids visited a closed pending (edge e) =
      (closed.1 to (ground (arith, pending to e))).0 refl
  Closed-avoids visited a closed pending (link {b = b} e p) =
      let next = closed.1 b (ground (arith, pending b e)) in Closed-avoids visited b closed next.1 p

  Closed-from : (visited stack : List Text) → Closed visited stack → Pending visited stack from
  unfolding Closed
  Closed-from visited stack closed = closed.0

  abbrev Answer : Option Bool → Type 0
  Answer o =
      ((o ≡ some true) × Route run deps from to) ⊎ ((o ≡ some false) × (¬ Route run deps from to))

  round_found :
      (k : ℕ) (visited stack : List Text) (node : Text)
      → same_text node to ≡ true
      → path_rounds (suc k) run to deps visited (node ∷ stack) ≡ some true
  unfolding path_rounds
  round_found k visited stack node e = rw (path_rounds, e)

  round_seen :
      (k : ℕ) (visited stack : List Text) (node : Text)
      → same_text node to ≡ false
      → contains node visited ≡ true
      → path_rounds (suc k) run to deps visited (node ∷ stack)
        ≡ path_rounds k run to deps visited stack
  unfolding path_rounds
  round_seen k visited stack node e seen = rw (path_rounds, e, seen)

  round_new :
      (k : ℕ) (visited stack : List Text) (node : Text)
      → same_text node to ≡ false
      → contains node visited ≡ false
      → path_rounds (suc k) run to deps visited (node ∷ stack)
        ≡ path_rounds k run to deps
            (node ∷ visited)
            (reverse (get_downstream run node deps) ++ stack)
  unfolding path_rounds
  round_new k visited stack node e new = rw (path_rounds, e, new)

  path_rounds-Answer :
      (k : ℕ) (visited stack : List Text)
      → length stack + unread run visited deps < k
      → Sound stack
      → Closed visited stack
      → Answer (path_rounds k run to deps visited stack)
  unfolding path_rounds
  path_rounds-Answer zero visited stack h sound closed = absurd (omega (arith, h))
  path_rounds-Answer (suc k) visited [] h sound closed =
      inr (refl, Closed-avoids visited from closed (Closed-from visited [] closed))
  path_rounds-Answer (suc k) visited (node ∷ stack) h sound closed =
      elim (Bool-cases (same_text node to)) [
        | inl e ↦ inl (
          round_found k visited stack node e,
          subst (λ t. Route run deps from t) (same_text_iff node to e) (Sound-top node stack sound),
        )
        | inr e ↦ elim (Bool-cases (contains node visited)) [
          | inl seen ↦ subst Answer (sym (round_seen k visited stack node e seen)) (
              path_rounds-Answer k visited stack (omega (arith, h)) (Sound-pop node stack sound)
                (Closed-pop node visited stack seen closed))
          | inr new ↦ subst Answer (sym (round_new k visited stack node e new)) (
              path_rounds-Answer k (node ∷ visited)
                (reverse (get_downstream run node deps) ++ stack)
                (omega (
                  arith,
                  h,
                  unread-downstream run node visited deps new,
                  length-append (reverse (get_downstream run node deps)) stack,
                ))
                (Sound-push node stack sound)
                (Closed-push node visited stack (distinct_texts node to e) closed))
        ]
      ]

  Sound-start : Sound (reverse (get_downstream run from deps))
  unfolding Sound
  Sound-start x member = edge (ground (arith, contains-pushed run from x deps))

  Closed-start : Closed [] (reverse (get_downstream run from deps))
  unfolding Closed Pending contains
  Closed-start = (λ x e. ground (arith, contains-pushed run from x deps), λ v h. cc)

  -- The search always ends with an answer: true when rows lead from one project to the other,
  -- and false when none do.
  pub has_path-Route :
      ((has_path run from to deps ≡ some true) × Route run deps from to)
      ⊎ ((has_path run from to deps ≡ some false) × (¬ Route run deps from to))
  unfolding has_path contains
  has_path-Route =
      path_rounds-Answer (suc (length deps + length deps)) []
        (reverse (get_downstream run from deps))
        (omega (arith, unread-downstream run from [] deps refl, unread-length run [] deps))
        Sound-start Closed-start
