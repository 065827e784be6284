-- ===== src/Authz/Merge/Errors.antt =====
-- When `mergeRequires` fails: never under allow_override, and without it whenever a required
-- boolean would be lost.
use intercore.Common.{
  ◌≡◌, ◌≢◌, refl, sym, ◌∙◌, Bool, true, false, not, ◌&&◌, Option, none, some, [], ◌∷◌, String,
  arith, str_eq, str_eq_iff, if◌then◌else◌, is_some, inl, inr, Bool-cases,
}
use intercore.Common.Int.{ℤ}
use intercore.Common.Dict.{Dict, lookup, delete, UniqueKeys, has_key}
use intercore.Common.Outcome.{for_each-total, ok, err, for_each, >>=-eq-ok}
use intercore.Authz.Policy.{Value, boolean, as_int, as_bool}
use intercore.Authz.Merge.{
  drop_entry, merge_entry, merge_at, merge_requires, merge_values, cannot_remove, is_true, store,
  merge_ints, merge_bools,
}
use intercore.Authz.Merge.Requires.{merge_requires-lookup, merged_value, lookup-head, lookup-tail}

drop_entry-kept :
    (override out mid : Dict Value) (key : String) (old : Value)
    → drop_entry false override out (key, old) ≡ ok mid
    → old ≡ boolean true
    → has_key key override ≡ true
unfolding drop_entry
drop_entry-kept override out mid key (boolean b) h e = ground arith
drop_entry-kept override out mid key _ h e = ground arith

merge_at-kept :
    (out mid : Dict Value) (key : String) (old : Option Value) (new : Value)
    → merge_at false out key new old ≡ ok mid
    → old ≡ some (boolean true)
    → new ≢ boolean false
unfolding merge_values
merge_at-kept out mid key none new h e f = cc
merge_at-kept out mid key (some old) new h e f = ground arith

lookup-nil : (k : String) → lookup {V = Value} k [] ≡ none
unfolding lookup
lookup-nil k = refl

drop_loop-kept :
    (override l out out' : Dict Value) (k : String)
    → for_each (drop_entry false override) l out ≡ ok out'
    → lookup k l ≡ some (boolean true)
    → has_key k override ≡ true
unfolding for_each
drop_loop-kept override [] out out' k h e = cc (lookup-nil k)
drop_loop-kept override ((key, old) ∷ l) out out' k h e =
    let (mid, first, rest) = >>=-eq-ok (drop_entry false override out (key, old)) _ h in
    elim (Bool-cases (str_eq key k)) [
      | inl same ↦
          rw ((str_eq_iff key k).0 same) at
            (drop_entry-kept override out mid key old first (cc (lookup-head key k old l same)))
      | inr other ↦
          drop_loop-kept override l mid out' k rest (sym (lookup-tail key k old l other) ∙ e)
    ]

merge_loop-kept :
    (base l out out' : Dict Value) (k : String)
    → for_each (merge_entry false base) l out ≡ ok out'
    → lookup k base ≡ some (boolean true)
    → lookup k l ≢ some (boolean false)
unfolding for_each merge_entry
merge_loop-kept base [] out out' k h e f = cc (lookup-nil k)
merge_loop-kept base ((key, new) ∷ l) out out' k h e f =
    let (mid, first, rest) = >>=-eq-ok (merge_entry false base out (key, new)) _ h in
    elim (Bool-cases (str_eq key k)) [
      | inl same ↦
          merge_at-kept out mid key (lookup key base) new first (rw ((str_eq_iff key k).0 same) e)
            (cc (lookup-head key k new l same))
      | inr other ↦
          merge_loop-kept base l mid out' k rest e (sym (lookup-tail key k new l other) ∙ f)
    ]

present :
    (new : Option Value)
    → is_some new ≡ true
    → new ≢ some (boolean false)
    → (merged_value (some (boolean true)) new ≢ none)
      × (merged_value (some (boolean true)) new ≢ some (boolean false))
unfolding as_bool as_int
present none h f = cc
present (some (boolean true)) h f = (λ e. cc, λ e. cc)
present (some (boolean false)) h f = absurd (f refl)
present (some _) h f = (λ e. cc, λ e. cc)

-- Without allow_override a required boolean of the base is never lost: the merge fails, or its
-- key is still in the result with another value than false.
pub merge_requires-kept :
    (base override out : Dict Value) (k : String)
    → UniqueKeys base
    → UniqueKeys override
    → merge_requires base override false ≡ ok out
    → lookup k base ≡ some (boolean true)
    → (lookup k out ≢ none) × (lookup k out ≢ some (boolean false))
unfolding merge_requires
merge_requires-kept base override out k ub uo h e =
    let (mid, first, rest) = >>=-eq-ok (for_each (drop_entry false override) base base) _ h in
    rw (merge_requires-lookup base override out false k ub uo h, e)
      (present (lookup k override) (drop_loop-kept override base base mid k first e)
        (merge_loop-kept base override mid out k rest e))

drop_entry-total :
    (override out : Dict Value) (e : String × Value)
    → (out' : Dict Value) × (drop_entry true override out e ≡ ok out')
unfolding drop_entry
drop_entry-total override out (key, old) =
    elim (is_true (as_bool old) && not (has_key key override))
      as (λ b.
        (out' : Dict Value) × ((if b
            then (if true then ok (delete key out) else err (cannot_remove key))
            else ok out)
          ≡ ok out')) [ true ↦ (delete key out, refl) | false ↦ (out, refl) ]

store-total :
    (key : String) (out : Dict Value) (new : Value) (a b : Option ℤ) (c d : Option Bool)
    → (out' : Dict Value) × (store key out (merge_ints (merge_bools true new c d) a b) ≡ ok out')
store-total key out new (some a) (some b) c d = (_, refl)
store-total key out new (some a) none (some true) (some true) = (_, refl)
store-total key out new (some a) none (some true) (some false) = (_, refl)
store-total key out new (some a) none (some false) (some d) = (_, refl)
store-total key out new (some a) none (some c) none = (_, refl)
store-total key out new (some a) none none d = (_, refl)
store-total key out new none b (some true) (some true) = (_, refl)
store-total key out new none b (some true) (some false) = (_, refl)
store-total key out new none b (some false) (some d) = (_, refl)
store-total key out new none b (some c) none = (_, refl)
store-total key out new none b none d = (_, refl)

merge_at-total :
    (key : String) (out : Dict Value) (new : Value) (old : Option Value)
    → (out' : Dict Value) × (merge_at true out key new old ≡ ok out')
unfolding merge_values
merge_at-total key out new none = (_, refl)
merge_at-total key out new (some old) =
    store-total key out new (as_int old) (as_int new) (as_bool old) (as_bool new)

merge_entry-total :
    (base out : Dict Value) (e : String × Value)
    → (out' : Dict Value) × (merge_entry true base out e ≡ ok out')
unfolding merge_entry
merge_entry-total base out (key, new) = merge_at-total key out new (lookup key base)

-- Under allow_override no entry is refused, so the merge always gives a map.
pub merge_requires-total :
    (base override : Dict Value) → (out : Dict Value) × (merge_requires base override true ≡ ok out)
unfolding merge_requires
merge_requires-total base override =
    let (mid, first) =
      for_each-total (drop_entry true override) (drop_entry-total override) base base in
    let (out, rest) =
      for_each-total (merge_entry true base) (merge_entry-total base) override mid in
    (out, rw first rest)
