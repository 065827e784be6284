-- ===== src/Common/Every.antt =====
-- A property of every element of a list, as nested pairs that the tactics read.
use mathlib.Core.List.{List, [], ◌∷◌, ◌++◌}

abbrev pub Every {ℓ κ} : {A : Type ℓ} → (A → Type κ) → List A → Type κ
Every P [] = Unit
Every P (x ∷ xs) = P x × Every P xs

pub Every-append {ℓ κ} :
    {A : Type ℓ} (P : A → Type κ) (xs ys : List A) → Every P xs → Every P ys → Every P (xs ++ ys)
Every-append P [] ys hx hy = hy
Every-append P (x ∷ xs) ys hx hy = (hx.0, Every-append P xs ys hx.1 hy)

pub Every-map {ℓ κ μ} :
    {A : Type ℓ} (P : A → Type κ) (Q : A → Type μ) (xs : List A)
    → ((x : A) → P x → Q x)
    → Every P xs
    → Every Q xs
Every-map P Q [] f h = tt
Every-map P Q (x ∷ xs) f h = (f x h.0, Every-map P Q xs f h.1)

pub Every-append_left {ℓ κ} :
    {A : Type ℓ} (P : A → Type κ) (xs ys : List A) → Every P (xs ++ ys) → Every P xs
Every-append_left P [] ys h = tt
Every-append_left P (x ∷ xs) ys h = (h.0, Every-append_left P xs ys h.1)

pub Every-append_right {ℓ κ} :
    {A : Type ℓ} (P : A → Type κ) (xs ys : List A) → Every P (xs ++ ys) → Every P ys
Every-append_right P [] ys h = h
Every-append_right P (x ∷ xs) ys h = Every-append_right P xs ys h.1
