-- ===== src/Portfolio/Deps/Table.antt =====
-- Add and Remove of internal/portfolio/deps.go: when they succeed, and what they store.
use intercore.Common.{
  suc, ◌≡◌, ◌≢◌, ◌↔◌, refl, ap, ◌∙◌, inl, inr, Bool, true, false, Option, none, some, [], ◌∷◌, ◌++◌,
  Bool-cases, if-true, if-false,
}
use intercore.Common.Int.{ℤ}
use intercore.Common.Text.{Text}
use intercore.Common.Outcome.{Result, ok, guard-eq-ok, ok-injective}
use intercore.Authz.Signing.{same_text, same_text_iff, distinct_texts}
use intercore.Portfolio.Deps.{
  Dep, DepStore, DepError, contains, is_edge, exists, without, has_path, insert_dep,
  unless_reachable, add, remove,
}
use intercore.Portfolio.Deps.Paths.{Route}
use intercore.Portfolio.Deps.Search.{has_path-Route}

abbrev pub new_row : Text → (up down : Text) → ℤ → DepStore → Dep
new_row run up down now store = record {
  id = suc store.last_id;
  portfolio_run_id = run;
  upstream_project = up;
  downstream_project = down;
  created_at = now;
}

-- What a dependency that can be added meets.
pub record Addable (run up down : Text) (store : DepStore) : Type 0 where
  pub distinct : up ≢ down
  pub apart : ¬ Route run store.deps down up
  pub known : contains run store.runs ≡ true
  pub fresh : exists (is_edge run up down) store.deps ≡ false

abbrev pub with_row : Text → (up down : Text) → ℤ → DepStore → DepStore
with_row run up down now store = record store {
  deps = store.deps ++ new_row run up down now store ∷ [];
  last_id = suc store.last_id;
}

insert_dep-eq-ok :
    (run up down : Text) (now : ℤ) (store after : DepStore)
    → insert_dep run up down now store ≡ ok after
    → (contains run store.runs ≡ true)
      × (exists (is_edge run up down) store.deps ≡ false)
      × (with_row run up down now store ≡ after)
unfolding insert_dep
insert_dep-eq-ok run up down now store after h = elim (Bool-cases (contains run store.runs)) [
  | inl known ↦
      let inserted = if-true _ _ known h in
      let (fresh, stored) = guard-eq-ok (exists (is_edge run up down) store.deps) _ _ inserted in
      (known, fresh, ok-injective stored)
  | inr unknown ↦ let failed = if-false _ _ unknown h in cc
]

unless_reachable-eq-ok :
    (o : Option Bool) (insert : Result DepError DepStore) {after : DepStore}
    → unless_reachable o insert ≡ ok after
    → (o ≡ some false) × (insert ≡ ok after)
unless_reachable-eq-ok none insert h = cc
unless_reachable-eq-ok (some true) insert h = cc
unless_reachable-eq-ok (some false) insert h = (refl, h)

pub same_text-false : (s t : Text) → s ≢ t → same_text s t ≡ false
same_text-false s t h = elim (Bool-cases (same_text s t)) [
  | inl e ↦ absurd (h (same_text_iff s t e))
  | inr e ↦ e
]

pub add-Addable :
    (run up down : Text) (now : ℤ) (store after : DepStore)
    → add run up down now store ≡ ok after
    → Addable run up down store × (with_row run up down now store ≡ after)
unfolding add
add-Addable run up down now store after h =
    let (distinct, searched) = guard-eq-ok (same_text up down) _ _ h in
    let (answer, inserted) = unless_reachable-eq-ok (has_path run down up store.deps) _ searched in
    let (known, fresh, stored) = insert_dep-eq-ok run up down now store after inserted in
    let apart : ¬ Route run store.deps down up = elim (has_path-Route run down up store.deps) [
      | inl (found, p) ↦ λ q. cc
      | inr (missed, p) ↦ p
    ] in
    (
      record {
        distinct = distinct_texts up down distinct;
        apart = apart;
        known = known;
        fresh = fresh;
      },
      stored,
    )

Addable-add :
    (run up down : Text) (now : ℤ) (store : DepStore)
    → Addable run up down store
    → add run up down now store ≡ ok (with_row run up down now store)
unfolding add insert_dep
Addable-add run up down now store a = elim (has_path-Route run down up store.deps) [
  | inl (found, p) ↦ absurd (a.apart p)
  | inr (missed, p) ↦ rw (same_text-false up down a.distinct, missed, a.known, a.fresh)
]

-- Add succeeds exactly when the two projects differ, no path leads from the downstream project to
-- the upstream one, the portfolio run exists, and the row is new; it then puts the row at the end.
pub add_iff :
    (run up down : Text) (now : ℤ) (store after : DepStore)
    → (add run up down now store ≡ ok after)
      ↔ (Addable run up down store × (with_row run up down now store ≡ after))
add_iff run up down now store after = (
  add-Addable run up down now store after,
  λ h. Addable-add run up down now store h.0 ∙ ap ok h.1,
)

pub remove-eq-ok :
    (run up down : Text) (store after : DepStore)
    → remove run up down store ≡ ok after
    → record store { deps = without (is_edge run up down) store.deps } ≡ after
unfolding remove
remove-eq-ok run up down store after h =
    elim (Bool-cases (exists (is_edge run up down) store.deps)) [
      | inl e ↦ ok-injective (if-true _ _ e h)
      | inr e ↦ let failed = if-false _ _ e h in cc
    ]
