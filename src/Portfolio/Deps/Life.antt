-- ===== src/Portfolio/Deps/Life.antt =====
-- The table of dependencies through any sequence of Add and Remove, internal/portfolio/deps.go.
use intercore.Common.{
  ℕ, suc, ◌<◌, ◌≤◌, ◌≡◌, refl, sym, subst, inl, inr, Bool, false, List, [], ◌∷◌, ◌++◌, arith,
  Bool-cases,
}
use intercore.Common.Int.{ℤ}
use intercore.Common.Text.{Text}
use intercore.Common.Outcome.{ok}
use intercore.Authz.Signing.{distinct_texts, same_text, same_text_iff, same_text_refl}
use intercore.Portfolio.Deps.{Dep, DepStore, is_edge, exists, without, add, remove}
use intercore.Portfolio.Deps.Rows.{exists-append, exists-without}
use intercore.Portfolio.Deps.Paths.{
  Route, not-Route-nil, Acyclic, Acyclic-append, Acyclic-other, Route-without,
}
use intercore.Portfolio.Deps.Table.{new_row, with_row, Addable, add-Addable, remove-eq-ok}

pub data Step : DepStore → DepStore → Type 0 where
  adds :
      {store after : DepStore} (run up down : Text) (now : ℤ)
      → add run up down now store ≡ ok after
      → Step store after
  removes :
      {store after : DepStore} (run up down : Text)
      → remove run up down store ≡ ok after
      → Step store after

pub data Reach (start : DepStore) : DepStore → Type 0 where
  start_here : Reach start start
  then_step : {mid after : DepStore} → Reach start mid → Step mid after → Reach start after

abbrev pub no_deps : List Text → DepStore
no_deps runs = record { deps = []; last_id = 0; runs = runs }

unfoldable pub Unique : List Dep → Type 0
Unique [] = Unit
Unique (d ∷ ds) =
    (exists (is_edge d.portfolio_run_id d.upstream_project d.downstream_project) ds ≡ false)
    × Unique ds

-- The ids grow from above the first number up to the second.
unfoldable pub Ascending : ℕ → List Dep → ℕ → Type 0
Ascending low [] last = low ≤ last
Ascending low (d ∷ ds) last = (low < d.id) × Ascending d.id ds last

pub record Sound (store : DepStore) : Type 0 where
  pub acyclic : (run : Text) → Acyclic run store.deps
  pub unique : Unique store.deps
  pub ascending : Ascending 0 store.deps store.last_id

Unique-append :
    (ds : List Dep) (d : Dep)
    → Unique ds
    → exists (is_edge d.portfolio_run_id d.upstream_project d.downstream_project) ds ≡ false
    → Unique (ds ++ d ∷ [])
unfolding Unique exists
Unique-append [] d u h = (refl, tt)
Unique-append (e ∷ ds) d (new, u) h = (
  ground (
    arith,
    exists-append (is_edge e.portfolio_run_id e.upstream_project e.downstream_project) ds (d ∷ []),
    same_text_iff d.portfolio_run_id e.portfolio_run_id,
    same_text_iff d.upstream_project e.upstream_project,
    same_text_iff d.downstream_project e.downstream_project,
    same_text_refl d.portfolio_run_id,
    same_text_refl d.upstream_project,
    same_text_refl d.downstream_project,
  ),
  Unique-append ds d u (ground arith),
)

exists-without-false :
    (p q : Dep → Bool) (ds : List Dep) → exists p ds ≡ false → exists p (without q ds) ≡ false
exists-without-false p q ds h = ground (arith, exists-without p q ds)

Unique-without : (q : Dep → Bool) (ds : List Dep) → Unique ds → Unique (without q ds)
unfolding Unique without
Unique-without q [] u = tt
Unique-without q (d ∷ ds) (new, u) =
    let rest = Unique-without q ds u in
    let still =
      exists-without-false (is_edge d.portfolio_run_id d.upstream_project d.downstream_project) q ds
        new in
    elim (Bool-cases (q d)) [ inl e ↦ rw e rest | inr e ↦ rw e (still, rest) ]

Ascending-append :
    (low last : ℕ) (ds : List Dep) (d : Dep)
    → Ascending low ds last
    → d.id ≡ suc last
    → Ascending low (ds ++ d ∷ []) (suc last)
unfolding Ascending
Ascending-append low last [] d h e = (omega (arith, h, e), omega (arith, e))
Ascending-append low last (x ∷ ds) d (first, h) e = (first, Ascending-append x.id last ds d h e)

Ascending-lower :
    (low lower last : ℕ) (ds : List Dep)
    → lower ≤ low
    → Ascending low ds last
    → Ascending lower ds last
unfolding Ascending
Ascending-lower low lower last [] le h = omega (arith, le, h)
Ascending-lower low lower last (d ∷ ds) le (first, h) = (omega (arith, le, first), h)

Ascending-without :
    (low last : ℕ) (q : Dep → Bool) (ds : List Dep)
    → Ascending low ds last
    → Ascending low (without q ds) last
unfolding Ascending without
Ascending-without low last q [] h = h
Ascending-without low last q (d ∷ ds) (first, h) =
    let rest = Ascending-without d.id last q ds h in
    elim (Bool-cases (q d)) [
      | inl e ↦ rw e (Ascending-lower d.id low last (without q ds) (omega (arith, first)) rest)
      | inr e ↦ rw e (first, rest)
    ]

add-Acyclic :
    (run : Text) (up down : Text) (now : ℤ) (store : DepStore) (of : Text)
    → Addable run up down store
    → Acyclic of store.deps
    → Acyclic of (with_row run up down now store).deps
add-Acyclic run up down now store of a acyclic =
    let row = new_row run up down now store in
    elim (Bool-cases (same_text run of)) [
      | inl e ↦
          let same : run ≡ of = same_text_iff run of e in
          Acyclic-append of store.deps row acyclic (λ h. a.distinct (sym h))
            (subst (λ r. ¬ Route r store.deps down up) same a.apart)
      | inr e ↦ Acyclic-other of store.deps row acyclic (distinct_texts run of e)
    ]

Step-Sound : (store after : DepStore) → Step store after → Sound store → Sound after
Step-Sound store after (adds run up down now h) sound =
    let (a, stored) = add-Addable run up down now store after h in
    subst Sound stored (record {
      acyclic = λ of. add-Acyclic run up down now store of a (sound.acyclic of);
      unique = Unique-append store.deps (new_row run up down now store) sound.unique a.fresh;
      ascending =
          Ascending-append 0 store.last_id store.deps (new_row run up down now store)
            sound.ascending refl;
    })
Step-Sound store after (removes run up down h) sound =
    subst Sound (remove-eq-ok run up down store after h) (record {
      acyclic = λ of. Route-without of (is_edge run up down) store.deps (sound.acyclic of);
      unique = Unique-without (is_edge run up down) store.deps sound.unique;
      ascending =
          Ascending-without 0 store.last_id (is_edge run up down) store.deps sound.ascending;
    })

no_deps-Sound : (runs : List Text) → Sound (no_deps runs)
unfolding Acyclic Unique Ascending
no_deps-Sound runs = record {
  acyclic = λ run x. not-Route-nil;
  unique = tt;
  ascending = omega arith;
}

-- Whatever sequence of successful calls of Add and Remove an empty table goes through, no portfolio
-- run's dependencies have a cycle, no row stands twice, and the rows are in the order of their ids.
pub Reach-Sound : (runs : List Text) {store : DepStore} → Reach (no_deps runs) store → Sound store
Reach-Sound runs start_here = no_deps-Sound runs
Reach-Sound runs (then_step {mid} {after} before step) =
    Step-Sound mid after step (Reach-Sound runs before)
