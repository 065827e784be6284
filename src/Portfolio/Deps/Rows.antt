-- ===== src/Portfolio/Deps/Rows.antt =====
-- What the queries of internal/portfolio/deps.go answer: the members and the numbers of their lists.
use intercore.Common.{
  ℕ, suc, ◌+◌, ◌≡◌, refl, ap, ◌∙◌, ◌≤◌, Bool, true, false, not, ◌&&◌, ◌||◌, List, [], ◌∷◌, ◌++◌,
  map, if◌then◌else◌, length, arith,
}
use mathlib.Core.List.{reverse, reverse_aux}
use intercore.Common.Text.{Text}
use intercore.Authz.Signing.{same_text, same_text_iff, same_text_refl}
use intercore.Portfolio.Deps.{
  Dep, contains, insert_text, order_by, select, in_portfolio, leaves_project, is_edge,
  get_downstream, exists, without,
}

pub contains-append :
    (x : Text) (xs ys : List Text) → contains x (xs ++ ys) ≡ (contains x xs || contains x ys)
unfolding contains
contains-append x [] ys = refl
contains-append x (y ∷ xs) ys = ground (arith, contains-append x xs ys)

contains-reverse_aux :
    (x : Text) (xs ys : List Text)
    → contains x (reverse_aux xs ys) ≡ (contains x xs || contains x ys)
unfolding contains
contains-reverse_aux x [] ys = refl
contains-reverse_aux x (y ∷ xs) ys = ground (arith, contains-reverse_aux x xs (y ∷ ys))

pub contains-reverse : (x : Text) (xs : List Text) → contains x (reverse xs) ≡ contains x xs
unfolding contains
contains-reverse x xs = ground (arith, contains-reverse_aux x xs [])

contains-insert_text :
    (x y : Text) (ys : List Text) → contains x (insert_text y ys) ≡ (same_text y x || contains x ys)
unfolding contains insert_text
contains-insert_text x y [] = refl
contains-insert_text x y (z ∷ ys) = ground (arith, contains-insert_text x y ys)

contains-order_by : (x : Text) (ys : List Text) → contains x (order_by ys) ≡ contains x ys
unfolding contains order_by
contains-order_by x [] = refl
contains-order_by x (y ∷ ys) =
    ground (arith, contains-order_by x ys, contains-insert_text x y (order_by ys))

length-insert_text : (y : Text) (ys : List Text) → length (insert_text y ys) ≡ suc (length ys)
unfolding insert_text
length-insert_text y [] = refl
length-insert_text y (z ∷ ys) = ground (arith, length-insert_text y ys)

length-order_by : (ys : List Text) → length (order_by ys) ≡ length ys
unfolding order_by
length-order_by [] = refl
length-order_by (y ∷ ys) = length-insert_text y (order_by ys) ∙ ap suc (length-order_by ys)

length-reverse_aux : (xs ys : List Text) → length (reverse_aux xs ys) ≡ length xs + length ys
length-reverse_aux [] ys = omega arith
length-reverse_aux (x ∷ xs) ys = omega (arith, length-reverse_aux xs (x ∷ ys))

length-reverse : (xs : List Text) → length (reverse xs) ≡ length xs
length-reverse xs = omega (arith, length-reverse_aux xs [])

pub exists-append :
    (p : Dep → Bool) (ds es : List Dep) → exists p (ds ++ es) ≡ (exists p ds || exists p es)
unfolding exists
exists-append p [] es = refl
exists-append p (d ∷ ds) es = ground (arith, exists-append p ds es)

pub exists-without :
    (p q : Dep → Bool) (ds : List Dep) → exists p (without q ds) ≡ true → exists p ds ≡ true
unfolding exists without
exists-without p q [] h = h
exists-without p q (d ∷ ds) h = ground (arith, exists-without p q ds)

contains-selected :
    (run up x : Text) (ds : List Dep)
    → contains x (map (λ d. d.downstream_project) (select (leaves_project run up) ds))
      ≡ exists (is_edge run up x) ds
unfolding exists select contains
contains-selected run up x [] = refl
contains-selected run up x (d ∷ ds) = ground (arith, contains-selected run up x ds)

pub contains-get_downstream :
    (run up x : Text) (ds : List Dep)
    → contains x (get_downstream run up ds) ≡ exists (is_edge run up x) ds
unfolding get_downstream
contains-get_downstream run up x ds =
    contains-order_by x (map (λ d. d.downstream_project) (select (leaves_project run up) ds))
    ∙ contains-selected run up x ds

-- The rows that the search has still to read.
unfoldable pub unread : Text → List Text → List Dep → ℕ
unread run visited [] = 0
unread run visited (d ∷ ds) =
    let rest = unread run visited ds in
    if in_portfolio run d && not (contains d.upstream_project visited) then suc rest else rest

pub unread-length :
    (run : Text) (visited : List Text) (ds : List Dep) → unread run visited ds ≤ length ds
unfolding unread
unread-length run visited [] = omega arith
unread-length run visited (d ∷ ds) = ground (arith, unread-length run visited ds)

unread-visit :
    (run up : Text) (visited : List Text) (ds : List Dep)
    → contains up visited ≡ false
    → length (map (λ d. d.downstream_project) (select (leaves_project run up) ds))
        + unread run (up ∷ visited) ds
      ≡ unread run visited ds
unfolding unread select contains
unread-visit run up visited [] h = refl
unread-visit run up visited (d ∷ ds) h = ground (
  arith,
  unread-visit run up visited ds h,
  same_text_iff up d.upstream_project,
  same_text_iff d.upstream_project up,
  same_text_refl up,
)

pub unread-downstream :
    (run up : Text) (visited : List Text) (ds : List Dep)
    → contains up visited ≡ false
    → length (reverse (get_downstream run up ds)) + unread run (up ∷ visited) ds
      ≡ unread run visited ds
unfolding get_downstream
unread-downstream run up visited ds h = omega (
  arith,
  unread-visit run up visited ds h,
  length-reverse (order_by (map (λ d. d.downstream_project) (select (leaves_project run up) ds))),
  length-order_by (map (λ d. d.downstream_project) (select (leaves_project run up) ds)),
)
