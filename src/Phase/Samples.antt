-- ===== src/Phase/Samples.antt =====
-- A run on a chain of four phases, and the theorems about it.
mod Gates
use intercore.Common.{
  ◌≡◌, ◌↔◌, refl, true, false, Option, none, some, List, [], ◌∷◌, String, str_eq, if◌then◌else◌,
  ◌≢◌, inl, inr, Bool-cases, subst, if-true, if-false, arith,
}
use mathlib.Core.Bool.{false≢true}
use mathlib.Core.Option.{some_inj}
use intercore.Common.Int.{ℤ, pos}
use intercore.Common.Outcome.{ok, err}
use intercore.Phase.Chain.{
  chain_next_phase, chain_is_terminal, chain_contains, chain_phase_index, chain_phases_between,
  is_terminal_status, chain_is_valid_transition, transition_loop, cannot_skip_terminal,
  status_active,
}
use intercore.Phase.Chain.Order.{Distinct}
use intercore.Phase.Parse.{parse_phase_chain, IsChain, parse_phase_chain_iff}
use intercore.Phase.Machine.{
  Run, PhaseEvent, Store, find_run, get, resolve_chain, update_where, update_phase, update_status,
  rollback_phase, add_event, skipped_in,
}
use intercore.Phase.Advance.{
  AdvanceResult, RollbackResult, advance, decide, transition, target_phase, skip_walk, skip_phase,
  rollback, rewind_to,
}
use intercore.Phase.Advance.Steps.{Gate, Outcome, advance-Outcome}
use intercore.Phase.Advance.Rewind.{rollback-advance}
use intercore.Phase.Placed.{Placed}
use intercore.Phase.Skips.{skip-advance}
use intercore.Phase.Lifecycle.{
  Sound, begin, step, advances, skips, Reachable-Sound, Reachable-progress,
}

program : Unit {0}
unfolding chain_next_phase chain_is_terminal chain_contains chain_phase_index chain_phases_between
    is_terminal_status chain_is_valid_transition transition_loop find_run get resolve_chain
    update_where update_phase update_status rollback_phase add_event skipped_in advance decide
    transition target_phase skip_walk skip_phase rollback rewind_to
program = tt

abbrev chain : List String
chain = "plan" ∷ "build" ∷ "review" ∷ "done" ∷ []

abbrev run_at : String → String → Option ℤ → ℤ → Run
run_at phase status completed updated = record {
  id = "r1";
  project_dir = "/repo";
  scope_id = none;
  metadata = none;
  token_budget = none;
  parent_run_id = none;
  budget_enforce = false;
  gate_rules = none;
  status = status;
  phase = phase;
  auto_advance = true;
  updated_at = updated;
  completed_at = completed;
  phases = some chain;
}

abbrev skip_event : PhaseEvent
skip_event = record {
  run_id = "r1";
  from_phase = "plan";
  to_phase = "build";
  event_type = "skip";
  gate_result = none;
  gate_tier = none;
  reason = some "actor=ann: no code";
}

abbrev start : Store
start = record { runs = run_at "plan" "active" none (pos 1) ∷ []; events = [] }

abbrev skipping : Store
skipping = record { runs = run_at "plan" "active" none (pos 1) ∷ []; events = skip_event ∷ [] }

skips_build : skip_phase "r1" "build" "no code" "ann" start ≡ ok skipping
unfolding program
skips_build = refl

no_skip_last : skip_phase "r1" "done" "no code" "ann" start ≡ err (cannot_skip_terminal "done")
unfolding program
no_skip_last = refl

abbrev open_gate : Gate
open_gate run src dst = ok (record { result = "pass"; tier = "hard"; evidence = "" })

abbrev to_review : AdvanceResult
to_review = record {
  from_phase = "plan";
  to_phase = "review";
  event_type = "advance";
  gate_result = "pass";
  gate_tier = "hard";
  reason = "";
  advanced = true;
}

abbrev review_event : PhaseEvent
review_event = record {
  run_id = "r1";
  from_phase = "plan";
  to_phase = "review";
  event_type = "advance";
  gate_result = some "pass";
  gate_tier = some "hard";
  reason = none;
}

abbrev reviewing : Store
reviewing = record {
  runs = run_at "review" "active" none (pos 5) ∷ [];
  events = skip_event ∷ review_event ∷ [];
}

reviews : advance (pos 5) open_gate "" "r1" skipping ≡ ok (reviewing, to_review)
unfolding program
reviews = refl

abbrev planned : Run
planned = run_at "plan" "active" none (pos 1)

planned-found : find_run "r1" skipping.runs ≡ some planned
unfolding program
planned-found = refl

chain-Distinct : Distinct (resolve_chain planned)
unfolding program
chain-Distinct = (refl, (refl, (refl, (refl, tt))))

advance-Outcome_example : Outcome open_gate (pos 5) "r1" skipping reviewing planned to_review
advance-Outcome_example =
    advance-Outcome open_gate (pos 5) "r1" "" skipping planned planned-found chain-Distinct
      reviewing to_review reviews

rollback-advance_example :
    (out : Store × RollbackResult) × (rollback (pos 6) "r1" "plan" "wrong plan" reviewing ≡ ok out)
    × ((back : Run) × (find_run "r1" out.0.runs ≡ some back)
        × (back.phase ≡ "plan")
        × (back.status ≡ status_active))
unfolding is_terminal_status
rollback-advance_example =
    rollback-advance open_gate (pos 5) (pos 6) "r1" "" "wrong plan" skipping reviewing planned
      to_review planned-found chain-Distinct refl reviews refl

start-Sound : Sound start
unfolding find_run resolve_chain chain_phase_index chain_is_terminal
start-Sound id run h = elim (Bool-cases (str_eq "r1" id)) [
  | inl e ↦ subst Placed (some_inj.0 (if-true _ _ e h)) (record {
    distinct = chain-Distinct;
    position = 0;
    at = refl;
    before_last = λ a. refl;
    at_last = λ c. absurd (false≢true c);
  })
  | inr e ↦ absurd (never (if-false _ _ e h))
]
  where
    never : none ≢ some run
    never e = cc

Reachable-Sound_example : Sound reviewing
Reachable-Sound_example = Reachable-Sound start reviewing start-Sound (
    step (step begin (skips "r1" "build" "no code" "ann" skips_build))
      (advances open_gate (pos 5) "r1" "" to_review reviews))

Reachable-progress_example :
    (out : Store × AdvanceResult) × (advance (pos 9) open_gate "" "r1" reviewing ≡ ok out)
unfolding find_run
Reachable-progress_example =
    Reachable-progress open_gate (pos 9) "r1" "" start reviewing
      (run_at "review" "active" none (pos 5)) start-Sound
      (step (step begin (skips "r1" "build" "no code" "ann" skips_build))
        (advances open_gate (pos 5) "r1" "" to_review reviews))
      refl refl (λ dst. (record { result = "pass"; tier = "hard"; evidence = "" }, refl))

abbrev decoder : String → Option (List String)
decoder json = if str_eq json "[\"a\",\"b\"]" then some ("a" ∷ "b" ∷ []) else none

parse_phase_chain_iff_example :
    (parse_phase_chain decoder "[\"a\",\"b\"]" ≡ ok ("a" ∷ "b" ∷ [])) ↔ (
      (str_eq "[\"a\",\"b\"]" "" ≡ false)
      × (decoder "[\"a\",\"b\"]" ≡ some ("a" ∷ "b" ∷ []))
      × IsChain ("a" ∷ "b" ∷ []))
parse_phase_chain_iff_example = parse_phase_chain_iff decoder "[\"a\",\"b\"]" ("a" ∷ "b" ∷ [])

skip-advance_example : str_eq "review" "build" ≡ false
skip-advance_example =
    skip-advance "r1" "build" "no code" "ann" start skipping planned planned-found skips_build
      open_gate (pos 5) "" reviewing to_review chain-Distinct reviews
