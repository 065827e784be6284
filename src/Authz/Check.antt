-- ===== src/Authz/Check.antt =====
-- pkg/authz/evaluator.go: the decision for an operation under a policy. A time is a number of
-- nanoseconds since Go's zero time, and `wall` is what `time.Now()` reads.
pub mod Order
pub mod Ceiling
pub mod Age
use intercore.Common.{
  ℕ, suc, ◌*◌, Bool, true, false, not, ◌&&◌, ◌||◌, Option, none, some, List, [], ◌∷◌, String,
  str_eq, if◌then◌else◌, is_some,
}
use intercore.Common.Int.{ℤ, pos, negsuc, ◌+ℤ◌, ◌-ℤ◌, leb_ℤ, eqb_ℤ, wrap64, clamp64}
use intercore.Common.Dict.{Dict, lookup}
use intercore.Common.Outcome.{Result, ok, err}
use intercore.Authz.Policy.{
  Mode, auto, confirm, block, force_auto, unknown, Value, as_int, as_bool, Rule, Policy,
  is_permissive,
}
use intercore.Autonomy.Level.{Resolution}
use intercore.Autonomy.Ops.{permits_auto}

abbrev pub minute : ℕ
minute = 60000000000

abbrev pub default_clock_skew_tolerance : ℤ
default_clock_skew_tolerance = pos 300000000000

pub record CheckInput : Type 0 where
  pub op : String
  pub now : ℤ
  pub head_sha : String
  pub vetted_sha : String
  pub vetted_at : ℤ
  pub tests_passed : Bool
  pub sprint_or_work_flow : Bool
  pub committed_by_this_session : Bool
  pub clock_skew_tolerance : ℤ
  pub vetting_shas : Dict String
  pub workdir_head : Dict String
  pub delegation : Option Resolution

pub data Reason : Type 0 where
  no_matching_rule rule_mode_is_block no_requirements requires_satisfied : Reason
  invalid failed unsupported : (key : String) → Reason
  missing_vetted_at missing_workdir_heads sha_mismatch : Reason
  sha_mismatch_for : (repo : String) → Reason
  vetting_too_old : (age max_age : ℤ) → Reason
  below_floor : Resolution → (op : String) → Reason

pub record CheckResult : Type 0 where
  pub mode : Mode
  pub policy_match : Option (String × ℕ)
  pub reason : Reason
  pub delegation_capped : Bool

pub data CheckError : Type 0 where
  nil_policy : CheckError

abbrev pub is_zero_time : ℤ → Bool
is_zero_time t = eqb_ℤ t (pos 0)

unfoldable pub with_now : ℤ → CheckInput → CheckInput
with_now wall input = if is_zero_time input.now then record input { now = wall } else input

unfoldable pub tolerance : CheckInput → ℤ
tolerance input =
    if leb_ℤ input.clock_skew_tolerance (pos 0)
    then default_clock_skew_tolerance
    else input.clock_skew_tolerance

-- time.Duration(mins) * time.Minute + tol, in int64.
unfoldable pub max_age : ℕ → ℤ → ℤ
max_age mins tol = wrap64 (wrap64 (pos (mins * minute)) +ℤ tol)

unfoldable pub age : CheckInput → ℤ
age input = clamp64 (input.now -ℤ input.vetted_at)

-- `none` means that the requirement is met; else the reason of the refusal.
unfoldable pub within_minutes : Option ℤ → CheckInput → Option Reason
within_minutes none input = some (invalid "vetted_within_minutes")
within_minutes (some (negsuc n)) input = some (invalid "vetted_within_minutes")
within_minutes (some (pos mins)) input =
    let limit = max_age mins (tolerance input) in
    if is_zero_time input.vetted_at
    then some missing_vetted_at
    else if leb_ℤ (age input) limit
    then none
    else some (vetting_too_old (age input) limit)

abbrev pub is_empty {ℓ} : {A : Type ℓ} → List A → Bool
is_empty [] = true
is_empty (x ∷ xs) = false

abbrev pub same_sha : Option String → String → Bool
same_sha none vetted = false
same_sha (some head) vetted = str_eq head vetted

unfoldable pub compare_heads : Dict String → Dict String → Option Reason
unfolding lookup
compare_heads heads [] = none
compare_heads heads ((repo, vetted) ∷ rest) =
    if same_sha (lookup repo heads) vetted
    then compare_heads heads rest
    else some (sha_mismatch_for repo)

unfoldable pub sha_matches : Option Bool → CheckInput → Option Reason
unfolding compare_heads
sha_matches none input = some (invalid "vetted_sha_matches_head")
sha_matches (some false) input = none
sha_matches (some true) input =
    if not (is_empty input.vetting_shas)
    then if is_empty input.workdir_head
      then some missing_workdir_heads
      else compare_heads input.workdir_head input.vetting_shas
    else if str_eq input.vetted_sha ""
        || str_eq input.head_sha ""
        || not (str_eq input.vetted_sha input.head_sha)
    then some sha_mismatch
    else none

abbrev pub bool_eq : Bool → Bool → Bool
bool_eq true b = b
bool_eq false b = not b

unfoldable pub flag : String → Option Bool → Bool → Option Reason
flag key none actual = some (invalid key)
flag key (some req) actual = if bool_eq actual req then none else some (failed key)

-- One round of the loop over `rule.Requires`.
unfoldable pub requirement : CheckInput → String → Value → Option Reason
unfolding as_int as_bool
requirement input key raw =
    if str_eq key "vetted_within_minutes"
    then within_minutes (as_int raw) input
    else if str_eq key "vetted_sha_matches_head"
    then sha_matches (as_bool raw) input
    else if str_eq key "tests_passed"
    then flag key (as_bool raw) input.tests_passed
    else if str_eq key "sprint_or_work_flow"
    then flag key (as_bool raw) input.sprint_or_work_flow
    else if str_eq key "committed_by_this_session"
    then flag key (as_bool raw) input.committed_by_this_session
    else some (unsupported key)

-- The loop, over the map in the order that Go happens to visit it.
unfoldable pub evaluate_all : CheckInput → Dict Value → Bool × Reason
evaluate_all input [] = (true, requires_satisfied)
evaluate_all input ((key, raw) ∷ rest) = elim (requirement input key raw) [
  | none ↦ evaluate_all input rest
  | some reason ↦ (false, reason)
]

unfoldable pub evaluate : ℤ → Rule → CheckInput → Bool × Reason
unfolding evaluate_all with_now
evaluate wall rule input =
    if is_empty rule.requires
    then (true, no_requirements)
    else evaluate_all (with_now wall input) rule.requires

-- The first rule whose selector is `op`, with its index.
unfoldable pub first_for : ℕ → String → List Rule → Option (Rule × ℕ)
first_for i op [] = none
first_for i op (rule ∷ rules) =
    if str_eq rule.op op then some (rule, i) else first_for (suc i) op rules

unfoldable pub match_rule : List Rule → String → Option (Rule × ℕ)
unfolding first_for
match_rule rules op = elim (first_for 0 op rules) [
  | some found ↦ some found
  | none ↦ first_for 0 "*" rules
]

abbrev pub cap : Option Resolution → CheckResult → String → CheckResult
cap none result op = result
cap (some r) result op =
    if not (is_permissive result.mode)
    then result
    else if permits_auto r op
    then result
    else record result { mode = confirm; delegation_capped = true; reason = below_floor r op }

unfoldable pub apply_delegation_ceiling : CheckResult → CheckInput → CheckResult
unfolding is_permissive
apply_delegation_ceiling result input = cap input.delegation result input.op

abbrev pub decision : Mode → String × ℕ → Reason → CheckResult
decision mode found reason = record {
  mode = mode;
  policy_match = some found;
  reason = reason;
  delegation_capped = false;
}

-- What `Check` makes of the rule that it found and of the verdict on its requirements.
abbrev pub decide_rule : Rule → ℕ → Bool × Reason → CheckInput → CheckResult
decide_rule rule idx (false, reason) input = decision confirm (rule.op, idx) reason
decide_rule rule idx (true, reason) input =
    apply_delegation_ceiling (decision rule.mode (rule.op, idx) requires_satisfied) input

abbrev pub is_block : Mode → Bool
is_block block = true
is_block _ = false

abbrev pub decide_match : ℤ → CheckInput → Option (Rule × ℕ) → CheckResult
decide_match wall input none = record {
  mode = confirm;
  policy_match = none;
  reason = no_matching_rule;
  delegation_capped = false;
}
decide_match wall input (some (rule, idx)) =
    if is_block rule.mode
    then decision block (rule.op, idx) rule_mode_is_block
    else decide_rule rule idx (evaluate wall rule input) input

unfoldable pub check : ℤ → Option Policy → CheckInput → Result CheckError CheckResult
unfolding with_now
check wall none input = err nil_policy
check wall (some policy) input =
    let input' = with_now wall input in
    ok (decide_match wall input' (match_rule policy.rules input.op))
