-- ===== src/Phase/Samples/Gates.antt =====
-- A run that needs a proof, a portfolio with two children, and the theorems about their gates.
use intercore.Common.{◌≡◌, refl, true, false, none, some, List, [], ◌∷◌, String, str_eq}
use intercore.Common.Int.{ℤ, pos}
use intercore.Common.Dict.{lookup}
use intercore.Common.Every.{Every}
use intercore.Common.Outcome.{ok}
use intercore.Phase.Chain.Order.{Distinct}
use intercore.Phase.Machine.{Run, Store}
use intercore.Phase.Advance.{AdvanceResult, advance}
use intercore.Phase.Checks.{
  Artifact, RuntrackQuerier, Queriers, GateConfig, GateCondition, check_artifacts, check_agents,
  check_verdict_exists, check_verdict_clean, is_behind, count_behind, check_children, sibling_of,
  count_upstreams, upstreams_behind, check_upstreams, check_budget, check_receipt, check_runtime,
  check_rule, check_rules, all_pass,
}
use intercore.Phase.Gate.{
  gate_rules, select_rules, inject_rules, has_check, require_runtime, runtime_terminal, escalate,
  calibrated, tier_of, judge, evaluate_gate, tx_queriers, gate_of, rules_of, check_gate,
}
use intercore.Phase.Gate.Verdicts.{Passed}
use intercore.Phase.Gate.Passed.{
  IsProved, ChildrenReady, advance-Passed, advance-IsProved, advance-ChildrenReady,
}
use intercore.Phase.Samples.{program, chain, run_at}

gates : Unit {0}
unfolding program lookup check_artifacts check_agents check_verdict_exists check_verdict_clean
    is_behind count_behind check_children sibling_of count_upstreams upstreams_behind
    check_upstreams check_budget check_receipt check_runtime check_rule check_rules all_pass
    gate_rules select_rules inject_rules has_check require_runtime runtime_terminal escalate
    calibrated tier_of judge evaluate_gate gate_of check_gate
gates = tt

abbrev receipt : Artifact
receipt = record { path = "receipt.json"; content_hash = some "h1" }

abbrev tracker : RuntrackQuerier
tracker = record {
  count_artifacts = λ id phase. ok 1;
  count_active_agents = λ id. ok 0;
  latest_evidence = λ id. ok (some receipt);
}

abbrev child_at : String → String → Run
child_at phase status = record (run_at phase status none (pos 1)) { id = "c1"; project_dir = "/a" }

abbrev children : List Run
children = child_at "build" "active" ∷ child_at "plan" "cancelled" ∷ []

abbrev queriers : Queriers
queriers = record {
  rt = none;
  vq = none;
  pq = some (λ id. ok children);
  dq = none;
  bq = none;
  runtime_evidence_for_run =
      λ run. record { required = str_eq run.project_dir "/repo"; ready = true; invalid = false };
  verify_file = λ run artifact. str_eq artifact.path "receipt.json";
}

abbrev config : ℤ → GateConfig
config priority = record {
  priority = priority;
  disable_all = false;
  spec_rules = [];
  calibrated_tiers = [];
}

abbrev text : List GateCondition → String
text conditions = "evidence"

abbrev ending : Store
ending = record { runs = run_at "review" "active" none (pos 5) ∷ []; events = [] }

abbrev portfolio : Run
portfolio = record (run_at "plan" "active" none (pos 5)) { project_dir = "" }

abbrev folio : Store
folio = record { runs = portfolio ∷ []; events = [] }

abbrev moved : String → String → AdvanceResult
moved src dst = record {
  from_phase = src;
  to_phase = dst;
  event_type = "advance";
  gate_result = "pass";
  gate_tier = "hard";
  reason = "evidence";
  advanced = true;
}

ends :
    (out : Store) × (advance (pos 9) (gate_of tracker queriers (config (pos 4)) text) "" "r1" ending
      ≡ ok (out, moved "review" "done"))
unfolding gates
ends = (_, refl)

grows :
    (out : Store) × (advance (pos 9) (gate_of tracker queriers (config (pos 0)) text) "" "r1" folio
      ≡ ok (out, moved "plan" "build"))
unfolding gates
grows = (_, refl)

chain-Distinct : Distinct chain
unfolding gates
chain-Distinct = (refl, (refl, (refl, (refl, tt))))

advance-IsProved_example :
    IsProved tracker queriers (config (pos 4)) (run_at "review" "active" none (pos 5))
unfolding gates
advance-IsProved_example =
    advance-IsProved tracker queriers (config (pos 4)) text (pos 9) "r1" "" ending ends.0
      (run_at "review" "active" none (pos 5)) (moved "review" "done") refl chain-Distinct ends.1
      refl refl

advance-ChildrenReady_example : ChildrenReady queriers portfolio "build"
unfolding gates
advance-ChildrenReady_example =
    advance-ChildrenReady tracker queriers (config (pos 0)) text (pos 9) "r1" "" folio grows.0
      portfolio (moved "plan" "build") refl chain-Distinct grows.1 refl refl refl refl

advance-Passed_example :
    Every
      (Passed (tx_queriers tracker queriers portfolio) (config (pos 0)) portfolio)
      (rules_of (tx_queriers tracker queriers portfolio) (config (pos 0)) portfolio "plan" "build")
unfolding gates
advance-Passed_example =
    advance-Passed tracker queriers (config (pos 0)) text (pos 9) "r1" "" folio grows.0 portfolio
      (moved "plan" "build") refl chain-Distinct grows.1 refl (refl, refl)
