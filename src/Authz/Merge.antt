-- ===== src/Authz/Merge.antt =====
-- pkg/authz/merge.go: how policy layers are merged, in ascending precedence.
pub mod Requires
pub mod Errors
pub mod Rules
pub mod Layers
pub mod Invariant
pub mod Floor
pub mod Leave
use intercore.Common.{
  ℕ, zero, suc, Bool, true, false, not, ◌&&◌, ◌||◌, Option, none, some, List, [], ◌∷◌, ◌++◌, String,
  str_eq, if◌then◌else◌, is_some, get_elem?, take, drop,
}
use intercore.Common.Int.{ℤ, pos, ltb_ℤ}
use intercore.Common.Dict.{Dict, lookup, insert, delete, has_key}
use intercore.Common.Outcome.{Result, ok, err, ◌>>=◌, ◌>>◌, for_each}
use intercore.Authz.Policy.{
  Mode, auto, confirm, block, force_auto, unknown, Value, boolean, as_int, as_bool, Rule, Policy,
  is_permissive,
}

pub data MergeError : Type 0 where
  empty_op : MergeError
  invalid_mode : Mode → (op : String) → MergeError
  different_ops : (base override : String) → MergeError
  cannot_relax_mode : (op : String) → (base override : Mode) → MergeError
  cannot_remove : (key : String) → MergeError
  cannot_relax : (key : String) → MergeError
  merging_requires : (op : String) → MergeError → MergeError
  index_out_of_range : MergeError

unfoldable pub is_valid_mode : Mode → Bool
is_valid_mode (unknown s) = false
is_valid_mode _ = true

abbrev pub is_true : Option Bool → Bool
is_true none = false
is_true (some b) = b

-- One round of the first loop: a required boolean that the override does not mention.
unfoldable pub drop_entry :
    Bool → Dict Value → Dict Value → String × Value → Result MergeError (Dict Value)
unfolding as_bool lookup delete
drop_entry allow override out (key, old) =
    if is_true (as_bool old) && not (has_key key override)
    then if allow then ok (delete key out) else err (cannot_remove key)
    else ok out

-- What two values of one key come to.
pub data Merged : Type 0 where
  keep : Value → Merged
  dropped : Merged
  refused : Merged

abbrev pub merge_bools : Bool → Value → Option Bool → Option Bool → Merged
merge_bools allow new (some old) (some b) =
    if old && not b then if allow then dropped else refused else keep (boolean (old && b))
merge_bools allow new (some old) none = keep new
merge_bools allow new none n = keep new

abbrev pub merge_ints : Merged → Option ℤ → Option ℤ → Merged
merge_ints otherwise (some old) (some new) = keep (Value.int (if ltb_ℤ new old then new else old))
merge_ints otherwise (some old) none = otherwise
merge_ints otherwise none n = otherwise

unfoldable pub merge_values : Bool → Value → Value → Merged
unfolding as_int as_bool
merge_values allow old new =
    merge_ints (merge_bools allow new (as_bool old) (as_bool new)) (as_int old) (as_int new)

abbrev pub store : String → Dict Value → Merged → Result MergeError (Dict Value)
store key out (keep v) = ok (insert key v out)
store key out dropped = ok (delete key out)
store key out refused = err (cannot_relax key)

abbrev pub merge_at :
    Bool → Dict Value → String → Value → Option Value → Result MergeError (Dict Value)
merge_at allow out key new none = ok (insert key new out)
merge_at allow out key new (some old) = store key out (merge_values allow old new)

-- One round of the second loop, over the override.
unfoldable pub merge_entry :
    Bool → Dict Value → Dict Value → String × Value → Result MergeError (Dict Value)
unfolding lookup insert delete merge_values
merge_entry allow base out (key, new) = merge_at allow out key new (lookup key base)

unfoldable pub merge_requires : Dict Value → Dict Value → Bool → Result MergeError (Dict Value)
merge_requires base override allow = do
  out ← for_each (drop_entry allow override) base base
  for_each (merge_entry allow base) override out

unfoldable pub validate_mode_transition : Rule → Rule → Result MergeError (Unit {0})
unfolding is_permissive
validate_mode_transition base override =
    if base.allow_override
    then ok tt
    else elim (base.mode) [ confirm ↦ guarded | block ↦ guarded | _ ↦ ok tt ]
  where
    guarded : Result MergeError (Unit {0})
    guarded =
        if is_permissive override.mode
        then err (cannot_relax_mode base.op base.mode override.mode)
        else ok tt

abbrev pub wrap_error : {A : Type 0} → String → Result MergeError A → Result MergeError A
wrap_error op (ok a) = ok a
wrap_error op (err e) = err (merging_requires op e)

abbrev pub merge_same : Rule → Rule → Result MergeError Rule
merge_same base override = do
  validate_mode_transition base override
  requires ← wrap_error base.op (merge_requires base.requires override.requires base.allow_override)
  ok (record base {
    mode = override.mode;
    allow_override = base.allow_override || override.allow_override;
    requires = requires;
  })

unfoldable pub merge_rule : Rule → Rule → Result MergeError Rule
merge_rule base override =
    if not (str_eq base.op override.op)
    then err (different_ops base.op override.op)
    else merge_same base override

unfoldable pub find_rule_by_op : List Rule → String → Option ℕ
find_rule_by_op [] op = none
find_rule_by_op (rule ∷ rules) op =
    if str_eq rule.op op
    then some 0
    else elim (find_rule_by_op rules op) [ none ↦ none | some i ↦ some (suc i) ]

abbrev pub place : List Rule → Rule → Option ℕ → List Rule
place rules incoming none = rules ++ incoming ∷ []
place rules incoming (some i) = take i rules ++ (incoming ∷ drop i rules)

unfoldable pub insert_rule : List Rule → Rule → List Rule
insert_rule rules incoming =
    if str_eq incoming.op "*"
    then rules ++ incoming ∷ []
    else place rules incoming (find_rule_by_op rules "*")

unfoldable pub set_rule : List Rule → ℕ → Rule → List Rule
set_rule [] i rule = []
set_rule (r ∷ rules) zero rule = rule ∷ rules
set_rule (r ∷ rules) (suc i) rule = r ∷ set_rule rules i rule

abbrev pub merge_into : List Rule → Rule → ℕ → Option Rule → Result MergeError (List Rule)
merge_into rules incoming i none = err index_out_of_range
merge_into rules incoming i (some base) =
    merge_rule base incoming >>= λ next. ok (set_rule rules i next)

-- Insert, or `merged.Rules[idx] = mergeRule(merged.Rules[idx], incoming)`.
abbrev pub insert_or_merge : List Rule → Rule → Option ℕ → Result MergeError (List Rule)
insert_or_merge rules incoming none = ok (insert_rule rules incoming)
insert_or_merge rules incoming (some i) = merge_into rules incoming i (get_elem? rules i)

-- One round of the inner loop of `MergePolicies`.
unfoldable pub add_rule : List Rule → Rule → Result MergeError (List Rule)
add_rule rules incoming =
    if str_eq incoming.op ""
    then err empty_op
    else if not (is_valid_mode incoming.mode)
    then err (invalid_mode incoming.mode incoming.op)
    else insert_or_merge rules incoming (find_rule_by_op rules incoming.op)

-- One round of the outer loop; a nil layer is passed over.
unfoldable pub add_layer : Policy → Option Policy → Result MergeError Policy
add_layer merged none = ok merged
add_layer merged (some p) = do
  rules ← for_each add_rule p.rules merged.rules
  ok (record {
    version = if ltb_ℤ (pos 0) p.version then p.version else merged.version;
    rules = rules;
  })

unfoldable pub merge_policies : List (Option Policy) → Result MergeError Policy
merge_policies layers = for_each add_layer layers (record { version = pos 1; rules = [] })
