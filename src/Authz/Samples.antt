-- ===== src/Authz/Samples.antt =====
-- A policy in three layers and the decisions under it.
use mathlib.Core.List.{Permᴰ}
use intercore.Common.{
  ◌≡◌, ◌≢◌, refl, ◌↔◌, inl, Bool, true, false, Option, none, some, List, [], ◌∷◌, ◌+◌, ◌*◌, String,
  arith,
}
use intercore.Common.Int.{pos, ◌-ℤ◌, ◌+ℤ◌, ◌≤ℤ◌, wrap64, clamp64}
use intercore.Common.Dict.{Dict, lookup}
use intercore.Common.Outcome.{ok, for_each}
use intercore.Autonomy.Level.{Resolution, fallback}
use intercore.Autonomy.Ops.{permits_auto, min_level_for_auto}
use intercore.Authz.Policy.{
  Mode, auto, confirm, block, Value, int, boolean, Rule, Policy, is_permissive,
}
use intercore.Authz.Check.{
  CheckInput, CheckResult, check, evaluate, requirement, match_rule, with_now,
  apply_delegation_ceiling, within_minutes, minute, tolerance, requires_satisfied, below_floor,
  max_age, age, flag,
}
use intercore.Authz.Check.Ceiling.{IsAuthorized, check-permissive_iff, check-push}
use intercore.Authz.Check.Order.{evaluate-perm}
use intercore.Authz.Check.Age.{within_minutes_iff, within_minutes_wraps}
use intercore.Authz.Merge.{
  merge_policies, merge_requires, merge_rule, add_layer, add_rule, drop_entry, merge_entry,
  insert_rule, set_rule, find_rule_by_op, validate_mode_transition, is_valid_mode,
}
use intercore.Authz.Merge.Errors.{merge_requires-kept}
use intercore.Authz.Merge.Rules.{IsMerged}
use intercore.Authz.Merge.Invariant.{merge_policies-IsMerged}
use intercore.Authz.Merge.Floor.{Locked, merge_policies-Locked}

abbrev rule : String → Mode → Dict Value → Bool → Rule
rule op mode requires allow = record {
  op = op;
  mode = mode;
  requires = requires;
  allow_override = allow;
}

abbrev policy : List Rule → Policy
policy rules = record { version = pos 1; rules = rules }

abbrev strict : Dict Value
strict = ("tests_passed", boolean true) ∷ ("vetted_within_minutes", int (pos 30)) ∷ []

abbrev stricter : Dict Value
stricter = ("tests_passed", boolean true) ∷ ("vetted_within_minutes", int (pos 60)) ∷ []

-- What the checks of closed terms below have to see.
program : Unit {0}
unfolding check flag evaluate requirement match_rule with_now apply_delegation_ceiling
    within_minutes max_age age tolerance permits_auto min_level_for_auto fallback wrap64 clamp64
    ◌+ℤ◌ ◌-ℤ◌ merge_policies merge_requires merge_rule add_layer add_rule drop_entry merge_entry
    insert_rule set_rule find_rule_by_op validate_mode_transition is_valid_mode for_each
program = tt

abbrev request : Option Resolution → CheckInput
request level = record {
  op = "git-push-main";
  now = pos (1000000 * minute);
  head_sha = "a1";
  vetted_sha = "a1";
  vetted_at = pos (999990 * minute);
  tests_passed = true;
  sprint_or_work_flow = true;
  committed_by_this_session = true;
  clock_skew_tolerance = pos 0;
  vetting_shas = [];
  workdir_head = [];
  delegation = level;
}

abbrev push_policy : Policy
push_policy = policy (rule "git-push-main" auto strict false ∷ rule "*" confirm [] false ∷ [])

abbrev allowed : CheckResult
allowed = record {
  mode = auto;
  policy_match = some ("git-push-main", 0);
  reason = requires_satisfied;
  delegation_capped = false;
}

allows : check (pos 0) (some push_policy) (request none) ≡ ok allowed
unfolding program
allows = refl

check-permissive_iff_example :
    (allowed.mode ≡ auto) ↔ IsAuthorized (pos 0) push_policy (request none) auto
unfolding is_permissive
check-permissive_iff_example =
    check-permissive_iff (pos 0) push_policy (request none) allowed auto refl allows

abbrev capped : CheckResult
capped = record {
  mode = confirm;
  policy_match = some ("git-push-main", 0);
  reason = below_floor fallback "git-push-main";
  delegation_capped = true;
}

caps : check (pos 0) (some push_policy) (request (some fallback)) ≡ ok capped
unfolding program
caps = refl

check-push_example : is_permissive confirm ≡ false
unfolding fallback
check-push_example =
    check-push (pos 0) push_policy (request (some fallback)) capped fallback (inl refl) refl
      (omega arith) caps

evaluate-perm_example :
    (evaluate (pos 0) (rule "*" auto strict false) (request none)).0
    ≡ (evaluate
        (pos 0)
        (rule "*" auto
          (("vetted_within_minutes", int (pos 30)) ∷ ("tests_passed", boolean true) ∷ [])
          false)
        (request none)).0
evaluate-perm_example =
    evaluate-perm (pos 0) (rule "*" auto strict false)
      (rule "*" auto (("vetted_within_minutes", int (pos 30)) ∷ ("tests_passed", boolean true) ∷ [])
        false)
      (request none) ∣ Permᴰ.swap refl refl ∣₁

within_minutes_iff_example :
    (within_minutes (some (pos 30)) (request none) ≡ none)
    ↔ (pos (1000000 * minute) -ℤ pos (999990 * minute) ≤ℤ pos (30 * minute + 300000000000))
unfolding tolerance
within_minutes_iff_example =
    within_minutes_iff 30 300000000000 (request none) refl (λ e. ground arith) (omega arith)

within_minutes_wraps_example : within_minutes (some (pos 200000000)) (request none) ≢ none
within_minutes_wraps_example =
    within_minutes_wraps 200000000 (request none) (omega arith) (omega arith) refl (omega arith)

merges : merge_requires strict stricter false ≡ ok (strict)
unfolding program
merges = refl

merge_requires-kept_example :
    (lookup "tests_passed" strict ≢ none) × (lookup "tests_passed" strict ≢ some (boolean false))
unfolding lookup
merge_requires-kept_example =
    merge_requires-kept strict stricter strict "tests_passed" (refl, (refl, tt)) (refl, (refl, tt))
      merges refl

abbrev global : Policy
global = policy (rule "*" confirm [] false ∷ rule "git-push-main" block [] false ∷ [])

abbrev project : Policy
project = policy (rule "bead-close" auto [] true ∷ rule "git-push-main" confirm [] false ∷ [])

abbrev base_policy : Policy
base_policy = policy (rule "git-push-main" block [] false ∷ rule "*" confirm [] false ∷ [])

abbrev effective : Policy
effective = policy (
    rule "git-push-main" confirm [] false
    ∷ rule "bead-close" auto [] true
    ∷ rule "*" confirm [] false
    ∷ [])

merges_base : merge_policies (some global ∷ []) ≡ ok base_policy
unfolding program
merges_base = refl

merges_all : merge_policies (some global ∷ some project ∷ []) ≡ ok effective
unfolding program
merges_all = refl

merge_policies-IsMerged_example : IsMerged effective.rules
merge_policies-IsMerged_example =
    merge_policies-IsMerged (some global ∷ some project ∷ []) effective merges_all

merge_policies-Locked_example : Locked "git-push-main" effective.rules
unfolding is_permissive is_valid_mode
merge_policies-Locked_example =
    merge_policies-Locked "git-push-main" (some global ∷ []) (some project ∷ []) base_policy
      effective merges_base
      (
        rule "git-push-main" block [] false,
        refl,
        record { restrictive = refl; known = refl; final = refl },
      )
      ((λ e. absurd (differs e), (λ e. refl, tt)), tt) merges_all
  where
    differs : ◌≡◌ {A = String} "bead-close" "git-push-main" → ⊥
    differs e = cc

-- A project's rule that stays at confirm but sets allow_override.
abbrev lifted : Policy
lifted = policy (rule "git-push-main" confirm [] true ∷ rule "*" confirm [] false ∷ [])
