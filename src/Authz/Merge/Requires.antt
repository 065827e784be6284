-- ===== src/Authz/Merge/Requires.antt =====
-- What `mergeRequires` gives, key by key.
use intercore.Common.{
  ◌≡◌, refl, ◌∙◌, ap, Bool, true, false, not, ◌&&◌, Option, none, some, [], ◌∷◌, String, arith,
  str_eq, str_eq_iff, if◌then◌else◌, is_some, inl, inr, Bool-cases,
}
use intercore.Common.Int.{ℤ, leb_ℤ}
use intercore.Common.Dict.{Dict, lookup, has_key, UniqueKeys, lookup-insert, lookup-delete}
use intercore.Common.Outcome.{ok, for_each, >>=-eq-ok}
use intercore.Authz.Policy.{Value, int, boolean, as_int, as_bool}
use intercore.Authz.Merge.{
  drop_entry, merge_entry, merge_requires, merge_values, is_true, store, merge_at, merge_ints,
  merge_bools,
}

-- The entry that a key has in the result, from its entries in the base and in the override:
-- the smaller of two numbers, the conjunction of two booleans, with a requirement that became
-- false left out, the override's value in all other cases, and the base's where the override
-- has none, but for a required boolean.
abbrev smaller : ℤ → ℤ → ℤ
smaller a b = if leb_ℤ a b then a else b

abbrev both_flags : Bool → Bool → Option Value
both_flags true true = some (boolean true)
both_flags true false = none
both_flags false b = some (boolean false)

abbrev joined_flags : Value → Option Bool → Option Bool → Option Value
joined_flags new (some a) (some b) = both_flags a b
joined_flags new (some a) none = some new
joined_flags new none b = some new

abbrev joined : Value → Option ℤ → Option ℤ → Option Bool → Option Bool → Option Value
joined new (some a) (some b) c d = some (int (smaller a b))
joined new (some a) none c d = joined_flags new c d
joined new none b c d = joined_flags new c d

abbrev pub merged_value : Option Value → Option Value → Option Value
merged_value none new = new
merged_value (some old) none = if is_true (as_bool old) then none else some old
merged_value (some old) (some new) =
    joined new (as_int old) (as_int new) (as_bool old) (as_bool new)

abbrev flag_at : Option Value → Bool
flag_at none = false
flag_at (some v) = is_true (as_bool v)

drop_entry-lookup :
    (allow : Bool) (override out out' : Dict Value) (key : String) (old : Value) (k : String)
    → drop_entry allow override out (key, old) ≡ ok out'
    → lookup k out' ≡ (
        if str_eq key k && (is_true (as_bool old) && not (has_key key override))
        then none
        else lookup k out)
unfolding drop_entry
drop_entry-lookup allow override out out' key old k h =
    ground (arith, lookup-delete key k out, str_eq_iff key k)

-- After the first loop over the entries `l`.
drop_loop-lookup :
    (allow : Bool) (override l out out' : Dict Value) (k : String)
    → UniqueKeys l
    → for_each (drop_entry allow override) l out ≡ ok out'
    → lookup k out'
      ≡ (if flag_at (lookup k l) && not (has_key k override) then none else lookup k out)
unfolding for_each lookup
drop_loop-lookup allow override [] out out' k u h = ground arith
drop_loop-lookup allow override ((key, old) ∷ l) out out' k u h =
    let (mid, first, rest) = >>=-eq-ok (drop_entry allow override out (key, old)) _ h in
    ground (
      arith,
      drop_entry-lookup allow override out mid key old k first,
      drop_loop-lookup allow override l mid out' k u.1 rest,
      str_eq_iff key k,
    )

module _ (allow : Bool) (base out out' : Dict Value) (key : String) (new : Value) (k : String) where
  store-lookup :
      (a b : Option ℤ) (c d : Option Bool)
      → store key out (merge_ints (merge_bools allow new c d) a b) ≡ ok out'
      → lookup k out' ≡ (if str_eq key k then joined new a b c d else lookup k out)
  store-lookup (some a) (some b) c d h = ground (arith, lookup-insert key k (int (smaller a b)) out)
  store-lookup (some a) none (some c) (some d) h =
      ground (arith, lookup-insert key k (boolean (c && d)) out, lookup-delete key k out)
  store-lookup (some a) none (some c) none h = ground (arith, lookup-insert key k new out)
  store-lookup (some a) none none d h = ground (arith, lookup-insert key k new out)
  store-lookup none b (some c) (some d) h =
      ground (arith, lookup-insert key k (boolean (c && d)) out, lookup-delete key k out)
  store-lookup none b (some c) none h = ground (arith, lookup-insert key k new out)
  store-lookup none b none d h = ground (arith, lookup-insert key k new out)

  merge_at-lookup :
      (old : Option Value)
      → merge_at allow out key new old ≡ ok out'
      → lookup k out' ≡ (if str_eq key k then merged_value old (some new) else lookup k out)
  unfolding merge_values
  merge_at-lookup none h = ground (arith, lookup-insert key k new out)
  merge_at-lookup (some old) h =
      store-lookup (as_int old) (as_int new) (as_bool old) (as_bool new) h

  merge_entry-lookup :
      merge_entry allow base out (key, new) ≡ ok out'
      → lookup k out'
        ≡ (if str_eq key k then merged_value (lookup key base) (some new) else lookup k out)
  unfolding merge_entry
  merge_entry-lookup h = merge_at-lookup (lookup key base) h

-- After the second loop over the entries `l` of the override.
abbrev joined_at : Option Value → Option Value → Option Value → Option Value
joined_at old none unchanged = unchanged
joined_at old (some new) unchanged = merged_value old (some new)

pub lookup-head :
    (key k : String) (new : Value) (l : Dict Value)
    → str_eq key k ≡ true
    → lookup k ((key, new) ∷ l) ≡ some new
unfolding lookup
lookup-head key k new l e = rw e

pub lookup-tail :
    (key k : String) (new : Value) (l : Dict Value)
    → str_eq key k ≡ false
    → lookup k ((key, new) ∷ l) ≡ lookup k l
unfolding lookup
lookup-tail key k new l e = rw e

merge_loop-lookup :
    (allow : Bool) (base l out out' : Dict Value) (k : String)
    → UniqueKeys l
    → for_each (merge_entry allow base) l out ≡ ok out'
    → lookup k out' ≡ joined_at (lookup k base) (lookup k l) (lookup k out)
unfolding for_each
merge_loop-lookup allow base [] out out' k u h = unfold lookup in (ground arith)
merge_loop-lookup allow base ((key, new) ∷ l) out out' k u h =
    let (mid, first, rest) = >>=-eq-ok (merge_entry allow base out (key, new)) _ h in
    let step = merge_entry-lookup allow base out mid key new k first in
    let ih = merge_loop-lookup allow base l mid out' k u.1 rest in
    elim (Bool-cases (str_eq key k)) [
      | inl same ↦
          let e = (str_eq_iff key k).0 same in
          rw (lookup-head key k new l same) (
            ih
            ∙ ap (λ o. joined_at (lookup k base) o (lookup k mid)) (rw e at (u.0))
            ∙ step
            ∙ rw (same, e) refl)
      | inr other ↦
          rw (lookup-tail key k new l other)
            (ih ∙ ap (joined_at (lookup k base) (lookup k l)) (step ∙ rw other))
    ]

joined_at-base :
    (old new : Option Value)
    → joined_at old new (if flag_at old && not (is_some new) then none else old)
      ≡ merged_value old new
joined_at-base none none = refl
joined_at-base none (some n) = refl
joined_at-base (some o) (some n) = refl
joined_at-base (some o) none = ground arith

pub merge_requires-lookup :
    (base override out : Dict Value) (allow : Bool) (k : String)
    → UniqueKeys base
    → UniqueKeys override
    → merge_requires base override allow ≡ ok out
    → lookup k out ≡ merged_value (lookup k base) (lookup k override)
unfolding merge_requires
merge_requires-lookup base override out allow k ub uo h =
    let (mid, first, rest) = >>=-eq-ok (for_each (drop_entry allow override) base base) _ h in
    merge_loop-lookup allow base override mid out k uo rest
    ∙ ap (joined_at (lookup k base) (lookup k override))
        (drop_loop-lookup allow override base base mid k ub first)
    ∙ joined_at-base (lookup k base) (lookup k override)
