-- ===== src/Common/Outcome.antt =====
-- Go's `(value, error)`: the value, or the error.
use intercore.Common.Tests.{if◌then◌else◌}
use mathlib.Core.Path.{◌≡◌, refl, subst, sym, ap, ◌∙◌}
use mathlib.Core.Logic.{◌⊎◌, inl, inr}
use mathlib.Core.Bool.{Bool, true, false}
use mathlib.Core.List.{List, [], ◌∷◌, ◌++◌}

pub data Result {ℓ} (E : Type 0) (A : Type ℓ) : Type ℓ where
  ok : A → Result E A
  err : E → Result E A

infixl 5 ◌>>=◌ ◌>>◌
abbrev pub ◌>>=◌ {ℓ κ} :
    {E : Type 0} {A : Type ℓ} {B : Type κ} → Result E A → (A → Result E B) → Result E B
ok a >>= f = f a
err e >>= f = err e

abbrev pub ◌>>◌ {ℓ κ} :
    {E : Type 0} {A : Type ℓ} {B : Type κ} → Result E A → Result E B → Result E B
m >> k = m >>= λ _. k

-- Inversion of a successful bind.
pub >>=-eq-ok {ℓ κ} :
    {E : Type 0} {A : Type ℓ} {B : Type κ} (r : Result E A) (then' : A → Result E B) {y : B}
    → (r >>= then') ≡ ok y
    → (x : A) × (r ≡ ok x) × (then' x ≡ ok y)
>>=-eq-ok (err e) then' done = cc
>>=-eq-ok (ok x) then' done = (x, refl, done)

-- What follows a run that succeeds.
pub after-ok {ℓ κ} :
    {E : Type 0} {A : Type ℓ} {B : Type κ} (m : Result E A) (f : A → Result E B) {a : A} {y : B}
    → m ≡ ok a
    → (m >>= f) ≡ ok y
    → f a ≡ ok y
after-ok m f e h = sym (ap (λ r. r >>= f) e) ∙ h

pub ok-injective {ℓ} :
    {E : Type 0} {A : Type ℓ} {a b : A} → ◌≡◌ {A = Result E A} (ok a) (ok b) → a ≡ b
ok-injective h = cc

-- A guard that returns an error was not taken.
pub guard-eq-ok {ℓ} :
    {E : Type 0} {A : Type ℓ} (b : Bool) (e : E) (m : Result E A) {a : A}
    → (if b then err e else m) ≡ ok a
    → (b ≡ false) × (m ≡ ok a)
guard-eq-ok true e m h = cc
guard-eq-ok false e m h = (refl, h)

pub Result-cases {ℓ} :
    {E : Type 0} {A : Type ℓ} (r : Result E A) → ((a : A) × (r ≡ ok a)) ⊎ ((e : E) × (r ≡ err e))
Result-cases (ok a) = inl (a, refl)
Result-cases (err e) = inr (e, refl)

-- A `for … range` loop over a slice or a map whose body may return an error.
module _ {ℓ κ} {E : Type 0} {A : Type ℓ} {S : Type κ} (body : S → A → Result E S) where
  unfoldable pub for_each : List A → S → Result E S
  for_each [] s = ok s
  for_each (x ∷ xs) s = body s x >>= λ s'. for_each xs s'

  pub for_each-append :
      (xs ys : List A) (s : S) → for_each (xs ++ ys) s ≡ (for_each xs s >>= λ s'. for_each ys s')
  unfolding for_each
  for_each-append [] ys s = refl
  for_each-append (x ∷ xs) ys s = elim (Result-cases (body s x)) [
    | inl (s', e) ↦ rw e (for_each-append xs ys s')
    | inr (x', e) ↦ rw e
  ]

  -- A loop whose rounds never fail ends with a value.
  pub for_each-total :
      ((s : S) (x : A) → (s' : S) × (body s x ≡ ok s'))
      → (xs : List A) (s : S) → (s' : S) × (for_each xs s ≡ ok s')
  unfolding for_each
  for_each-total total [] s = (s, refl)
  for_each-total total (x ∷ xs) s =
      let (mid, first) = total s x in
      let (out, rest) = for_each-total total xs mid in (out, rw first rest)

  -- An invariant of the rounds holds after the loop.
  pub for_each_inv {μ} :
      (P : S → Type μ)
      → ((s : S) (x : A) (s' : S) → P s → body s x ≡ ok s' → P s')
      → (xs : List A) (s s' : S) → P s
      → for_each xs s ≡ ok s'
      → P s'
  unfolding for_each
  for_each_inv P keep [] s s' p h = subst P (cc) p
  for_each_inv P keep (x ∷ xs) s s' p h =
      let (mid, first, rest) = >>=-eq-ok (body s x) _ h in
      for_each_inv P keep xs mid s' (keep s x mid p first) rest
