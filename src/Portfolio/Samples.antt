-- ===== src/Portfolio/Samples.antt =====
-- Two projects that wait for one another in turn, run on concrete tables.
use intercore.Common.{◌≡◌, ◌↔◌, ◌⊎◌, refl, true, false, [], ◌∷◌, some}
use intercore.Common.Int.{pos}
use intercore.Common.Text.{Text}
use intercore.Common.Outcome.{ok, err}
use intercore.Authz.Signing.{same_text}
use intercore.Portfolio.Deps.{
  DepStore, cycle_detected, duplicate, contains, text_leb, insert_text, order_by, select,
  get_downstream, get_upstream, list, path_rounds, has_path, exists, insert_dep, add, without,
  remove,
}
use intercore.Portfolio.Deps.Paths.{Route}
use intercore.Portfolio.Deps.Search.{has_path-Route}
use intercore.Portfolio.Deps.Table.{Addable, with_row, add_iff}
use intercore.Portfolio.Deps.Life.{
  start_here, then_step, adds, removes, no_deps, Sound, Reach-Sound,
}

abbrev portfolio : Text
portfolio = b'p' ∷ []

abbrev api : Text
api = b'a' ∷ []

abbrev core : Text
core = b'c' ∷ []

abbrev web : Text
web = b'w' ∷ []

abbrev empty : DepStore
empty = no_deps (portfolio ∷ [])

abbrev one_row : DepStore
one_row = with_row portfolio core api (pos 5) empty

abbrev two_rows : DepStore
two_rows = with_row portfolio api web (pos 6) one_row

add-one_row : add portfolio core api (pos 5) empty ≡ ok one_row
unfolding add insert_dep has_path path_rounds get_downstream order_by insert_text select exists
    contains same_text text_leb
add-one_row = refl

add-two_rows : add portfolio api web (pos 6) one_row ≡ ok two_rows
unfolding add insert_dep has_path path_rounds get_downstream order_by insert_text select exists
    contains same_text text_leb
add-two_rows = refl

add_cycle : add portfolio web core (pos 7) two_rows ≡ err cycle_detected
unfolding add insert_dep has_path path_rounds get_downstream order_by insert_text select exists
    contains same_text text_leb
add_cycle = refl

add_twice : add portfolio core api (pos 7) two_rows ≡ err duplicate
unfolding add insert_dep has_path path_rounds get_downstream order_by insert_text select exists
    contains same_text text_leb
add_twice = refl

upstream_of_web : get_upstream portfolio web two_rows.deps ≡ api ∷ []
unfolding get_upstream order_by insert_text select same_text text_leb
upstream_of_web = refl

list_all : list portfolio two_rows.deps ≡ two_rows.deps
unfolding list select same_text
list_all = refl

remove-one_row : remove portfolio core api one_row ≡ ok (record one_row { deps = [] })
unfolding remove exists without same_text
remove-one_row = refl

has_path-Route_example :
    ((has_path portfolio core web two_rows.deps ≡ some true)
      × Route portfolio two_rows.deps core web)
    ⊎ ((has_path portfolio core web two_rows.deps ≡ some false)
        × (¬ Route portfolio two_rows.deps core web))
has_path-Route_example = has_path-Route portfolio core web two_rows.deps

add_iff_example :
    (add portfolio api web (pos 6) one_row ≡ ok two_rows)
    ↔ (Addable portfolio api web one_row × (with_row portfolio api web (pos 6) one_row ≡ two_rows))
add_iff_example = add_iff portfolio api web (pos 6) one_row two_rows

Reach-Sound_deps : Sound (record one_row { deps = [] })
Reach-Sound_deps = Reach-Sound (portfolio ∷ []) (
    then_step (then_step start_here (adds portfolio core api (pos 5) add-one_row))
      (removes portfolio core api remove-one_row))
