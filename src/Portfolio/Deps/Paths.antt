-- ===== src/Portfolio/Deps/Paths.antt =====
-- Paths in the graph of a portfolio's rows, and what one more row does to them.
use intercore.Common.{
  ◌≡◌, ◌≢◌, sym, subst, ◌∙◌, ◌⊎◌, inl, inr, Bool, true, List, [], ◌∷◌, ◌++◌, arith,
}
use intercore.Common.Text.{Text}
use intercore.Authz.Signing.{same_text_iff}
use intercore.Portfolio.Deps.{Dep, is_edge, exists, without}
use intercore.Portfolio.Deps.Rows.{exists-append, exists-without}

abbrev pub Edge : Text → List Dep → (up down : Text) → Type 0
Edge run deps up down = exists (is_edge run up down) deps ≡ true

-- At least one row of the run leads from one project to the other.
pub data Route (run : Text) (deps : List Dep) : Text → Text → Type 0 where
  edge : {a b : Text} → Edge run deps a b → Route run deps a b
  link : {a b c : Text} → Edge run deps a b → Route run deps b c → Route run deps a c

unfoldable pub Acyclic : Text → List Dep → Type 0
Acyclic run deps = (x : Text) → ¬ Route run deps x x

module _ {run : Text} {deps : List Dep} where
  pub Route-join : {a b c : Text} → Route run deps a b → Route run deps b c → Route run deps a c
  Route-join (edge e) q = link e q
  Route-join (link e p) q = link e (Route-join p q)

pub not-Route-nil : {run a b : Text} → ¬ Route run [] a b
unfolding exists
not-Route-nil (edge e) = cc
not-Route-nil (link e p) = cc

-- A graph whose edges are all in another has no other paths.
pub Route-map :
    {run run' : Text} {deps deps' : List Dep} {a b : Text}
    → ((x y : Text) → Edge run deps x y → Edge run' deps' x y)
    → Route run deps a b
    → Route run' deps' a b
Route-map f (edge e) = edge (f _ _ e)
Route-map f (link e p) = link (f _ _ e) (Route-map f p)

pub Route-without :
    (run : Text) (drop : Dep → Bool) (deps : List Dep)
    → Acyclic run deps
    → Acyclic run (without drop deps)
unfolding Acyclic
Route-without run drop deps acyclic x p =
    acyclic x (Route-map (λ a b. exists-without (is_edge run a b) drop deps) p)

module _ (run : Text) (deps : List Dep) (row : Dep) where
  abbrev Reach : Text → Text → Type 0
  Reach a b = (a ≡ b) ⊎ Route run deps a b

  Reach-join : (a b c : Text) → Edge run deps a b → Reach b c → Reach a c
  Reach-join a b c e (inl h) = inr (edge (subst (λ k. Edge run deps a k) h e))
  Reach-join a b c e (inr p) = inr (link e p)

  Edge-append :
      (a b : Text)
      → Edge run (deps ++ row ∷ []) a b
      → Edge run deps a b
        ⊎ ((a ≡ row.upstream_project) × (b ≡ row.downstream_project) × (row.portfolio_run_id ≡ run))
  unfolding exists
  Edge-append a b e = ground (
    arith,
    exists-append (is_edge run a b) deps (row ∷ []),
    same_text_iff row.upstream_project a,
    same_text_iff row.downstream_project b,
    same_text_iff row.portfolio_run_id run,
  )

  -- A path that the longer graph has is old, or goes over the new row.
  Route-append :
      {a b : Text}
      → Route run (deps ++ row ∷ []) a b
      → Route run deps a b ⊎ (Reach a row.upstream_project × Reach row.downstream_project b)
  Route-append (edge {a} {b} e) = elim (Edge-append a b e) [
    | inl old ↦ inl (edge old)
    | inr (u, v, _) ↦ inr (inl u, inl (sym v))
  ]
  Route-append (link {a} {b} {c} e p) = elim (Edge-append a b e) [
    | inl old ↦ elim (Route-append p) [
      | inl q ↦ inl (link old q)
      | inr (up, down) ↦ inr (Reach-join a b row.upstream_project old up, down)
    ]
    | inr (u, v, _) ↦ elim (Route-append p) [
      | inl q ↦ inr (inl u, inr (subst (λ k. Route run deps k c) v q))
      | inr (up, down) ↦ inr (inl u, down)
    ]
  ]

  Reach-cycle : (u v x : Text) → Reach x u → Reach v x → (v ≡ u) ⊎ Route run deps v u
  Reach-cycle u v x (inl h) (inl k) = inl (k ∙ h)
  Reach-cycle u v x (inl h) (inr p) = inr (subst (λ k. Route run deps v k) h p)
  Reach-cycle u v x (inr p) (inl k) = inr (subst (λ k. Route run deps k u) (sym k) p)
  Reach-cycle u v x (inr p) (inr q) = inr (Route-join q p)

  -- A row closes no cycle unless its end already leads to its start.
  pub Acyclic-append :
      Acyclic run deps
      → row.downstream_project ≢ row.upstream_project
      → ¬ Route run deps row.downstream_project row.upstream_project
      → Acyclic run (deps ++ row ∷ [])
  unfolding Acyclic
  Acyclic-append acyclic distinct apart x p = elim (Route-append p) [
    | inl old ↦ acyclic x old
    | inr (up, down) ↦ elim (Reach-cycle row.upstream_project row.downstream_project x up down) [
      | inl same ↦ distinct same
      | inr q ↦ apart q
    ]
  ]

  -- A row of another run leaves_project the graph as it is.
  pub Acyclic-other : Acyclic run deps → row.portfolio_run_id ≢ run → Acyclic run (deps ++ row ∷ [])
  unfolding Acyclic
  Acyclic-other acyclic other x p = acyclic x (
      Route-map
        (λ a b e. elim (Edge-append a b e) [
          | inl old ↦ old
          | inr (_, _, same) ↦ absurd (other same)
        ])
        p)
