-- ===== src/Coordination/Checks.antt =====
-- What `Check` and `Release` report and change, row by row.
use intercore.Common.{
  ◌≡◌, refl, sym, ap, subst, ◌∙◌, Bool, true, false, not, ◌&&◌, ◌||◌, List, [], ◌∷◌, String, str_eq,
  ◌↔◌, if◌then◌else◌, inl, inr,
}
use mathlib.Core.Bool.{false≢true}
use intercore.Common.Int.{ℤ}
use intercore.Common.Text.{Text}
use intercore.Common.Outcome.{ok, >>=-eq-ok, ok-injective}
use intercore.Coordination.Glob.{validate_complexity}
use intercore.Coordination.Search.{patterns_overlap}
use intercore.Coordination.Locks.{
  Lock, LockStore, glob_result, invalid_pattern, overlap_check, holds,
}
use intercore.Coordination.Updates.{select_locks, overlapping, check}
use intercore.Coordination.Life.{glob_result-ok}
use intercore.Coordination.Holders.{IsRow}

-- One row more, kept if a test says so.
one-IsRow :
    (b : Bool) (P : Lock → Type 0) (x l : Lock) (rows out : List Lock)
    → (b ≡ true) ↔ P x
    → IsRow l out ↔ (IsRow l rows × P l)
    → IsRow l (if b then x ∷ out else out) ↔ (IsRow l (x ∷ rows) × P l)
one-IsRow true P x l rows out t rest = (
  λ h. elim h [
    | inl same ↦ (inl same, subst P same (t.0 refl))
    | inr r ↦ (inr (rest.0 r).0, (rest.0 r).1)
  ],
  λ h. elim (h.0) [ inl same ↦ inl same | inr r ↦ inr (rest.1 (r, h.1)) ],
)
one-IsRow false P x l rows out t rest = (
  λ r. (inr (rest.0 r).0, (rest.0 r).1),
  λ h. elim (h.0) [
    | inl same ↦ absurd (false≢true (t.1 (subst P (sym same) h.1)))
    | inr r ↦ rest.1 (r, h.1)
  ],
)

select_locks-IsRow :
    (guard : Lock → Bool) (rows : List Lock) (l : Lock)
    → IsRow l (select_locks guard rows) ↔ (IsRow l rows × (guard l ≡ true))
unfolding select_locks
select_locks-IsRow guard [] l = (λ h. elim h [ ], λ h. h.0)
select_locks-IsRow guard (x ∷ rows) l =
    one-IsRow (guard x) (λ y. guard y ≡ true) x l rows (select_locks guard rows) (λ h. h, λ h. h)
      (select_locks-IsRow guard rows l)

overlapping-IsRow :
    (pattern : Text) (rows out : List Lock) (l : Lock)
    → overlapping pattern rows ≡ ok out
    → IsRow l out ↔ (IsRow l rows × (patterns_overlap pattern l.pattern ≡ ok true))
unfolding overlapping
overlapping-IsRow pattern [] out l h =
    subst (λ rs. IsRow l rs ↔ (⊥ × (patterns_overlap pattern l.pattern ≡ ok true))) (ok-injective h)
      (λ r. elim r [ ], λ r. r.0)
overlapping-IsRow pattern (x ∷ rows) out l h =
    let (o, found, h1) = >>=-eq-ok (patterns_overlap pattern x.pattern) _ h in
    let (rs, others, h2) = >>=-eq-ok (overlapping pattern rows) _ h1 in
    subst (λ qs. IsRow l qs ↔ (IsRow l (x ∷ rows) × (patterns_overlap pattern l.pattern ≡ ok true)))
      (ok-injective h2)
      (one-IsRow o (λ y. patterns_overlap pattern y.pattern ≡ ok true) x l rows rs
        (λ e. found ∙ ap ok e, λ e. ok-injective (sym found ∙ e))
        (overlapping-IsRow pattern rows rs l others))

-- A row that `Check` looks at: active, in the scope, and not of the excluded owner.
abbrev pub IsChecked : ℤ → String → String → Lock → Type 0
IsChecked now scope exclude_owner l =
    ((str_eq l.scope scope && holds now l)
      && (str_eq exclude_owner "" || not (str_eq l.owner exclude_owner)))
    ≡ true

-- When `Check` succeeds it reports exactly the active locks in the scope that overlap the
-- pattern and are not of the excluded owner.
pub check-IsRow :
    (now : ℤ) (scope : String) (pattern : Text) (exclude_owner : String) (store : LockStore)
    (out : List Lock) (l : Lock)
    → check now scope pattern exclude_owner store ≡ ok out
    → IsRow l out ↔ (
        (IsRow l store.locks × IsChecked now scope exclude_owner l)
        × (patterns_overlap pattern l.pattern ≡ ok true))
unfolding check
check-IsRow now scope pattern exclude_owner store out l h =
    let (u, valid, h1) =
      >>=-eq-ok (glob_result invalid_pattern (validate_complexity pattern)) _ h in
    let both = overlapping-IsRow pattern _ out l (glob_result-ok overlap_check _ h1) in
    let selected = select_locks-IsRow _ store.locks l in
    (λ r. let (a, b) = both.0 r in (selected.0 a, b), λ r. both.1 (selected.1 r.0, r.1))
