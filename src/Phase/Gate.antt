-- ===== src/Phase/Gate.antt =====
-- `evaluateGate` of internal/phase/gate.go: the rules of a transition, their tier and the verdict; and the gate that
-- `Advance` of machine.go evaluates in its transaction.
pub mod Verdicts
pub mod Passed
use intercore.Common.{
  ℕ, zero, suc, ◌+◌, Bool, true, false, not, ◌&&◌, ◌||◌, Option, none, some, List, [], ◌∷◌, ◌++◌,
  String, str_eq, if◌then◌else◌, ltb, ◌==◌, is_some,
}
use Prim.Native.String.{◌++◌ as string_append}
use intercore.Common.Int.{ℤ, pos, ltb_ℤ, leb_ℤ}
use intercore.Common.Dict.{Dict, lookup}
use intercore.Common.Outcome.{Result, ok, err, ◌>>=◌}
use intercore.Phase.Chain.{
  PhaseError, terminal_run, terminal_phase, is_terminal_status, chain_next_phase, gate_error,
  chain_is_terminal, chain_phase_index, status_completed, status_cancelled, status_failed,
}
use intercore.Phase.Machine.{GateRule, Run, Store, get, resolve_chain}
use intercore.Phase.Advance.{GateOutcome}
use intercore.Phase.Checks.{
  RuntimeEvidence, Artifact, RuntrackQuerier, VerdictQuerier, PortfolioQuerier, DepQuerier,
  BudgetQuerier, Queriers, GateConfig, GateCondition, passing, condition, counted, check_artifacts,
  check_agents, scope_of, check_verdict_exists, check_verdict_clean, is_behind, run_is_behind,
  child_blocks, count_behind, check_children, sibling_of, upstream_blocks, count_upstreams,
  upstreams_behind, check_upstreams, check_budget, has_hash, is_verified, check_receipt,
  check_runtime, check_rule, check_rules, all_pass,
}

pub record GateVerdict : Type 0 where
  pub result : String
  pub tier : String
  pub source : String
  pub evidence : Option (List GateCondition)

abbrev pub plain_rule : String → String → GateRule
plain_rule check phase = record { check = check; phase = phase; tier = "" }

abbrev pub artifact_of : String → Option (List GateRule)
artifact_of phase = some (plain_rule "artifact_exists" phase ∷ [])

-- The table of the transitions that have checks of their own.
unfoldable pub gate_rules : String → String → Option (List GateRule)
gate_rules src dst =
    if str_eq src "goal-formed" && str_eq dst "planned"
    then artifact_of "goal-formed"
    else if str_eq src "brainstorm" && str_eq dst "brainstorm-reviewed"
    then artifact_of "brainstorm"
    else if str_eq src "brainstorm-reviewed" && str_eq dst "strategized"
    then artifact_of "brainstorm-reviewed"
    else if str_eq src "strategized" && str_eq dst "planned"
    then artifact_of "strategized"
    else if str_eq src "planned" && str_eq dst "executing"
    then artifact_of "planned"
    else if str_eq src "executing" && str_eq dst "review"
    then some (plain_rule "agents_complete" "" ∷ [])
    else if str_eq src "review" && str_eq dst "polish"
    then some (plain_rule "verdict_exists" "" ∷ [])
    else if str_eq src "reflect" && str_eq dst "done"
    then artifact_of "reflect"
    else none

pub record Selected : Type 0 where
  pub rules : List GateRule
  pub source : String
  pub using_defaults : Bool

abbrev pub or_no_rules : Option (List GateRule) → List GateRule
or_no_rules none = []
or_no_rules (some rules) = rules

abbrev pub spec_or_defaults : GateConfig → String → String → List GateRule → Selected
spec_or_defaults cfg src dst [] = record {
  rules = or_no_rules (gate_rules src dst);
  source = "default";
  using_defaults = true;
}
spec_or_defaults cfg src dst (r ∷ rules) = record {
  rules = r ∷ rules;
  source = "spec";
  using_defaults = false;
}

-- The rules stored with the run, else those of the agency's spec, else the table.
unfoldable pub select_rules :
    GateConfig → String → String → Option (Dict (List GateRule)) → Selected
select_rules cfg src dst none = spec_or_defaults cfg src dst cfg.spec_rules
select_rules cfg src dst (some stored) = record {
  rules = or_no_rules (lookup (string_append src (string_append "→" dst)) stored);
  source = "per-run";
  using_defaults = false;
}

abbrev pub when : Bool → GateRule → List GateRule
when b r = if b then r ∷ [] else []

abbrev pub has_parent : Option String → Bool
has_parent none = false
has_parent (some id) = not (str_eq id "")

-- The checks of portfolios, of their children and of budgets.
unfoldable pub inject_rules : Run → String → List GateRule → List GateRule
inject_rules run dst rules =
    ((rules ++ when (str_eq run.project_dir "") (plain_rule "children_at_phase" dst))
      ++ when (has_parent run.parent_run_id) (plain_rule "upstreams_at_phase" dst))
    ++ when run.budget_enforce (plain_rule "budget_not_exceeded" "")

unfoldable pub has_check : String → List GateRule → Bool
has_check check [] = false
has_check check (r ∷ rules) =
    let rest = has_check check rules in if str_eq r.check check then true else rest

abbrev pub runtime_rule : GateRule
runtime_rule = record { check = "runtime_evidence"; phase = ""; tier = "hard" }

unfoldable pub require_runtime : Bool → List GateRule → List GateRule
require_runtime terminal rules =
    rules ++ when (terminal && not (has_check "runtime_evidence" rules)) runtime_rule

unfoldable pub runtime_terminal : RuntimeEvidence → Run → String → Bool
runtime_terminal evidence run dst =
    (str_eq dst "done" && chain_is_terminal (resolve_chain run) dst)
    && (evidence.required || evidence.invalid)

-- Per-rule tiers only raise the tier.
unfoldable pub escalate : String → List GateRule → String
escalate tier [] = tier
escalate tier (r ∷ rules) =
    let rest =
      escalate (if str_eq r.tier "soft" && not (str_eq tier "hard") then "soft" else tier) rules in
    if str_eq r.tier "hard" then "hard" else rest

abbrev pub gate_calibration_key : String → String → String → String
gate_calibration_key check src dst =
    string_append check (string_append ":" (string_append src (string_append "→" dst)))

abbrev pub is_hard : Option String → Bool
is_hard none = false
is_hard (some tier) = str_eq tier "hard"

unfoldable pub calibrated : Dict String → String → String → List GateRule → Bool
calibrated tiers src dst [] = false
calibrated tiers src dst (r ∷ rules) =
    let rest = calibrated tiers src dst rules in
    if is_hard (lookup (gate_calibration_key r.check src dst) tiers) then true else rest

abbrev pub base_tier : ℤ → Bool → String
base_tier priority terminal =
    if terminal then "hard" else if leb_ℤ priority (pos 1) then "hard" else "soft"

pub record Tier : Type 0 where
  pub tier : String
  pub source : String

abbrev pub source_of : GateConfig → Bool → Selected → String
source_of cfg terminal selected =
    if terminal && leb_ℤ (pos 4) cfg.priority then "required" else selected.source

unfoldable pub tier_of : GateConfig → Bool → String → String → Selected → List GateRule → Tier
tier_of cfg terminal src dst selected rules =
    if selected.using_defaults && calibrated cfg.calibrated_tiers src dst rules
    then record { tier = "hard"; source = "calibrated" }
    else record {
      tier = escalate (base_tier cfg.priority terminal) rules;
      source = source_of cfg terminal selected;
    }

abbrev pub verdict_of : Tier → List GateCondition → GateVerdict
verdict_of t conditions = record {
  result = passing (all_pass conditions);
  tier = t.tier;
  source = t.source;
  evidence = some conditions;
}

-- Without rules there is nothing to check.
unfoldable pub judge :
    Queriers
    → GateConfig
    → Run
    → String
    → String
    → Bool
    → Selected
    → List GateRule
    → Result PhaseError GateVerdict
judge q cfg run src dst terminal selected [] = ok (record {
  result = "pass";
  tier = base_tier cfg.priority terminal;
  source = source_of cfg terminal selected;
  evidence = none;
})
judge q cfg run src dst terminal selected (r ∷ rules) =
    check_rules q cfg run (r ∷ rules) >>= λ conditions.
    ok (verdict_of (tier_of cfg terminal src dst selected (r ∷ rules)) conditions)

abbrev pub bypass : GateVerdict
bypass = record { result = "none"; tier = "none"; source = "default"; evidence = none }

abbrev pub is_bypassed : GateConfig → Bool → Bool
is_bypassed cfg terminal = (cfg.disable_all || not (leb_ℤ cfg.priority (pos 3))) && not terminal

abbrev pub rules_of : Queriers → GateConfig → Run → String → String → List GateRule
rules_of q cfg run src dst =
    require_runtime (runtime_terminal (q.runtime_evidence_for_run run) run dst)
      (inject_rules run dst (select_rules cfg src dst run.gate_rules).rules)

unfoldable pub evaluate_gate :
    Queriers → GateConfig → Run → String → String → Result PhaseError GateVerdict
evaluate_gate q cfg run src dst =
    if is_bypassed cfg (runtime_terminal (q.runtime_evidence_for_run run) run dst)
    then ok bypass
    else judge q cfg run src dst (runtime_terminal (q.runtime_evidence_for_run run) run dst)
        (select_rules cfg src dst run.gate_rules) (rules_of q cfg run src dst)

-- What `Advance` gives to the gate: the run tracker always, the budget only if the run has one.
abbrev pub has_budget : Option ℤ → Bool
has_budget none = false
has_budget (some n) = ltb_ℤ (pos 0) n

abbrev pub tx_queriers : RuntrackQuerier → Queriers → Run → Queriers
tx_queriers rt q run = record q {
  rt = some rt;
  bq = if has_budget run.token_budget then q.bq else none;
}

-- `text` is the JSON form of the evidence.
abbrev pub evidence_text : (List GateCondition → String) → Option (List GateCondition) → String
evidence_text text none = ""
evidence_text text (some conditions) = text conditions

unfoldable pub gate_of :
    RuntrackQuerier
    → Queriers
    → GateConfig
    → (List GateCondition → String)
    → Run
    → String
    → String
    → Result PhaseError GateOutcome
gate_of rt q cfg text run src dst = evaluate_gate (tx_queriers rt q run) cfg run src dst >>= λ v.
    ok (record { result = v.result; tier = v.tier; evidence = evidence_text text v.evidence })

pub record GateCheckResult : Type 0 where
  pub run_id : String
  pub from_phase : String
  pub to_phase : String
  pub verdict : GateVerdict

-- `EvaluateGate`, the dry run for the next phase of the chain; it changes nothing.
unfoldable pub check_gate :
    Queriers → GateConfig → Store → String → Result PhaseError GateCheckResult
check_gate q cfg store id = do
  run ← get store id
  if is_terminal_status run.status
      then err terminal_run
      else if chain_is_terminal (resolve_chain run) run.phase
      then err terminal_phase
      else (chain_next_phase (resolve_chain run) run.phase >>= λ dst.
          evaluate_gate q cfg run run.phase dst >>= λ v.
          ok (record { run_id = id; from_phase = run.phase; to_phase = dst; verdict = v }))
