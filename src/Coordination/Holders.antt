-- ===== src/Coordination/Holders.antt =====
-- Who may hold a path.
use intercore.Common.{
  ◌≡◌, refl, sym, ap, subst, ◌∙◌, Bool, true, false, ◌||◌, List, [], ◌∷◌, str_eq, str_eq_refl, inl,
  inr, ◌⊎◌,
}
use mathlib.Core.Bool.{false≢true}
use intercore.Common.Int.{ℤ}
use intercore.Common.Text.{Text}
use intercore.Common.Every.{Every}
use intercore.Common.Outcome.{ok-injective}
use intercore.Coordination.Search.Paths.{PathMatches, patterns_overlap-PathMatches}
use intercore.Coordination.Locks.{Lock, LockStore, holds}
use intercore.Coordination.Exclusion.{Compatible, Exclusive, str_eq-sym}
use intercore.Coordination.Life.{Reachable, Reachable-Exclusive}

abbrev pub IsRow : Lock → List Lock → Type 0
IsRow l [] = ⊥
IsRow l (x ∷ rows) = (x ≡ l) ⊎ IsRow l rows

every-row : (P : Lock → Type 0) (rows : List Lock) (l : Lock) → Every P rows → IsRow l rows → P l
every-row P [] l h r = elim r [ ]
every-row P (x ∷ rows) l h (inl e) = subst P e h.0
every-row P (x ∷ rows) l h (inr r) = every-row P rows l h.1 r

-- Of two rows of different owners, one is the later.
two-rows :
    (now : ℤ) (rows : List Lock) (l m : Lock)
    → Exclusive now rows
    → IsRow l rows
    → IsRow m rows
    → str_eq l.owner m.owner ≡ false
    → Compatible now l m ⊎ Compatible now m l
two-rows now [] l m e r s o = elim r [ ]
two-rows now (x ∷ rows) l m e (inl a) (inl b) o =
    absurd (false≢true (sym o ∙ ap (λ y. str_eq y.owner m.owner) (sym a ∙ b) ∙ str_eq_refl m.owner))
two-rows now (x ∷ rows) l m e (inl a) (inr s) o =
    inl (subst (λ y. Compatible now y m) a (every-row (λ y. Compatible now x y) rows m e.0 s))
two-rows now (x ∷ rows) l m e (inr r) (inl b) o =
    inr (subst (λ y. Compatible now y l) b (every-row (λ y. Compatible now x y) rows l e.0 r))
two-rows now (x ∷ rows) l m e (inr r) (inr s) o = two-rows now rows l m e.1 r s o

module _ (now : ℤ) (l m : Lock) (path : List Text) where
  later-holder :
      Compatible now l m
      → holds now l ≡ true
      → holds now m ≡ true
      → str_eq l.scope m.scope ≡ true
      → str_eq l.owner m.owner ≡ false
      → (l.exclusive || m.exclusive) ≡ true
      → PathMatches l.pattern path
      → PathMatches m.pattern path
      → ⊥
  later-holder c a b s o x h k =
      false≢true (
        ok-injective
          (sym (c a b s o x) ∙ patterns_overlap-PathMatches m.pattern l.pattern path k h))

or-sym : (a b : Bool) → (a || b) ≡ true → (b || a) ≡ true
or-sym true true h = refl
or-sym true false h = refl
or-sym false b h = ap (λ x. x || false) h

-- From an empty table, whatever operations follow one another while the clock does not go back:
-- a path that an active lock matches is not matched by another owner's active lock in the same
-- scope, unless both are shared.
pub Reachable-PathMatches :
    (start now : ℤ) (store : LockStore) (l m : Lock) (path : List Text)
    → Reachable start now store
    → IsRow l store.locks
    → IsRow m store.locks
    → holds now l ≡ true
    → holds now m ≡ true
    → str_eq l.scope m.scope ≡ true
    → str_eq l.owner m.owner ≡ false
    → (l.exclusive || m.exclusive) ≡ true
    → PathMatches l.pattern path
    → ¬ PathMatches m.pattern path
Reachable-PathMatches start now store l m path reached r q a b s o x h k =
    elim (two-rows now store.locks l m (Reachable-Exclusive start now store reached) r q o) [
      | inl c ↦ later-holder now l m path c a b s o x h k
      | inr c ↦
          later-holder now m l path c b a (str_eq-sym m.scope l.scope ∙ s)
            (str_eq-sym m.owner l.owner ∙ o) (or-sym l.exclusive m.exclusive x) k h
    ]
