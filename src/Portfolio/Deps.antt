-- ===== src/Portfolio/Deps.antt =====
-- internal/portfolio/deps.go: the table of dependencies between projects, and the search that keeps it free of cycles.
-- A query's texts are ordered by code points, which is SQLite's order on UTF-8.
pub mod Rows
pub mod Paths
pub mod Search
pub mod Table
pub mod Life
use intercore.Common.{
  ℕ, zero, suc, ◌+◌, Bool, true, false, ◌&&◌, ◌||◌, Option, none, some, List, [], ◌∷◌, ◌++◌, map,
  if◌then◌else◌, ltb, ◌==◌, length,
}
use mathlib.Core.List.{reverse}
use intercore.Common.Int.{ℤ}
use intercore.Common.Text.{Text}
use intercore.Common.Outcome.{Result, ok, err}
use intercore.Authz.Signing.{same_text}

pub record Dep : Type 0 where
  pub id : ℕ
  pub portfolio_run_id : Text
  pub upstream_project : Text
  pub downstream_project : Text
  pub created_at : ℤ

-- The rows in the order of their ids, the last id given out, and the runs that a row may name.
pub record DepStore : Type 0 where
  pub deps : List Dep
  pub last_id : ℕ
  pub runs : List Text

pub data DepError : Type 0 where
  same_project cycle_detected unknown_run duplicate not_found search_unfinished : DepError

unfoldable pub contains : Text → List Text → Bool
contains x [] = false
contains x (y ∷ ys) = let rest = contains x ys in same_text y x || rest

unfoldable pub text_leb : Text → Text → Bool
text_leb [] t = true
text_leb (c ∷ s) [] = false
text_leb (c ∷ s) (d ∷ t) =
    let rest = text_leb s t in if ltb c d then true else if c == d then rest else false

unfoldable pub insert_text : Text → List Text → List Text
insert_text x [] = x ∷ []
insert_text x (y ∷ ys) =
    let rest = insert_text x ys in if text_leb x y then x ∷ y ∷ ys else y ∷ rest

unfoldable pub order_by : List Text → List Text
unfolding insert_text
order_by [] = []
order_by (x ∷ xs) = insert_text x (order_by xs)

unfoldable pub select : (Dep → Bool) → List Dep → List Dep
select keep [] = []
select keep (d ∷ ds) = let rest = select keep ds in if keep d then d ∷ rest else rest

abbrev pub in_portfolio : Text → Dep → Bool
in_portfolio run d = same_text d.portfolio_run_id run

abbrev pub leaves_project : Text → Text → Dep → Bool
leaves_project run project d = in_portfolio run d && same_text d.upstream_project project

abbrev pub enters_project : Text → Text → Dep → Bool
enters_project run project d = in_portfolio run d && same_text d.downstream_project project

abbrev pub is_edge : Text → Text → Text → Dep → Bool
is_edge run up down d = leaves_project run up d && same_text d.downstream_project down

unfoldable pub list : Text → List Dep → List Dep
list run deps = select (in_portfolio run) deps

unfoldable pub get_downstream : Text → Text → List Dep → List Text
get_downstream run project deps =
    order_by (map (λ d. d.downstream_project) (select (leaves_project run project) deps))

unfoldable pub get_upstream : Text → Text → List Dep → List Text
get_upstream run project deps =
    order_by (map (λ d. d.upstream_project) (select (enters_project run project) deps))

-- A round takes the last project off the stack; the stack is kept with its last project first.
unfoldable pub path_rounds :
    ℕ → Text → (to : Text) → List Dep → (visited stack : List Text) → Option Bool
path_rounds zero run to deps visited stack = none
path_rounds (suc k) run to deps visited [] = some false
path_rounds (suc k) run to deps visited (node ∷ stack) = elim (same_text node to) [
  | true ↦ some true
  | false ↦ elim (contains node visited) [
    | true ↦ path_rounds k run to deps visited stack
    | false ↦
        path_rounds k run to deps (node ∷ visited) (reverse (get_downstream run node deps) ++ stack)
  ]
]

-- Every row is taken off the stack at most twice: once for the start, once for a visit.
unfoldable pub has_path : Text → (from to : Text) → List Dep → Option Bool
has_path run from to deps =
    path_rounds (suc (length deps + length deps)) run to deps []
      (reverse (get_downstream run from deps))

unfoldable pub exists : (Dep → Bool) → List Dep → Bool
exists matches [] = false
exists matches (d ∷ ds) = let rest = exists matches ds in matches d || rest

-- The foreign key and the UNIQUE constraint of the table.
unfoldable pub insert_dep : Text → (up down : Text) → ℤ → DepStore → Result DepError DepStore
insert_dep run up down now store =
    if contains run store.runs
    then (if exists (is_edge run up down) store.deps
        then err duplicate
        else ok (record store {
          deps =
              store.deps
              ++ (record {
                id = suc store.last_id;
                portfolio_run_id = run;
                upstream_project = up;
                downstream_project = down;
                created_at = now;
              })
                ∷ [];
          last_id = suc store.last_id;
        }))
    else err unknown_run

abbrev pub unless_reachable : Option Bool → Result DepError DepStore → Result DepError DepStore
unless_reachable none insert = err search_unfinished
unless_reachable (some true) insert = err cycle_detected
unless_reachable (some false) insert = insert

unfoldable pub add : Text → (up down : Text) → ℤ → DepStore → Result DepError DepStore
add run up down now store =
    if same_text up down
    then err same_project
    else unless_reachable (has_path run down up store.deps) (insert_dep run up down now store)

unfoldable pub without : (Dep → Bool) → List Dep → List Dep
without matches [] = []
without matches (d ∷ ds) = let rest = without matches ds in if matches d then rest else d ∷ rest

unfoldable pub remove : Text → (up down : Text) → DepStore → Result DepError DepStore
remove run up down store =
    if exists (is_edge run up down) store.deps
    then ok (record store { deps = without (is_edge run up down) store.deps })
    else err not_found
