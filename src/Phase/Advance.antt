-- ===== src/Phase/Advance.antt =====
-- `Advance` and `Rollback` of internal/phase/machine.go, and `SkipPhase` of internal/phase/store.go.
-- Advance and Rollback are one transaction each, SkipPhase is two reads and an insert; each is one step here, and an
-- error leaves the store as it was.
pub mod Walk
pub mod Updates
pub mod Moves
pub mod Steps
pub mod Rewind
use intercore.Common.{
  ℕ, zero, suc, Bool, true, false, not, ◌&&◌, ◌||◌, Option, none, some, List, [], ◌∷◌, ◌++◌, String,
  str_eq, if◌then◌else◌, length,
}
use Prim.Native.String.{◌++◌ as string_append}
use intercore.Common.Int.{ℤ}
use intercore.Common.Outcome.{Result, ok, err, ◌>>=◌, ◌>>◌}
use intercore.Phase.Chain.{
  PhaseError, terminal_run, terminal_phase, invalid_rollback, not_in_chain, not_ahead,
  cannot_skip_terminal, gate_error, out_of_rounds, status_active, status_completed,
  is_terminal_status, chain_contains, chain_next_phase, chain_is_valid_transition,
  chain_is_terminal, chain_phases_between,
}
use intercore.Phase.Machine.{
  Run, PhaseEvent, Store, resolve_chain, get, update_phase, update_status, rollback_phase,
  add_event, skipped_in, str_ptr_or_nil,
}

-- Past the phases that were skipped beforehand.
unfoldable pub skip_walk : ℕ → List String → (String → Bool) → String → Result PhaseError String
skip_walk zero chain skipped p =
    if skipped p && not (chain_is_terminal chain p) then err out_of_rounds else ok p
skip_walk (suc n) chain skipped p =
    if skipped p && not (chain_is_terminal chain p)
    then (chain_next_phase chain p >>= λ next. skip_walk n chain skipped next)
    else ok p

-- What `evaluateGate` returns; the text of the evidence, empty if there is none.
pub record GateOutcome : Type 0 where
  pub result : String
  pub tier : String
  pub evidence : String

pub record AdvanceResult : Type 0 where
  pub from_phase : String
  pub to_phase : String
  pub event_type : String
  pub gate_result : String
  pub gate_tier : String
  pub reason : String
  pub advanced : Bool

-- The event that a result is recorded as.
abbrev pub event_of : String → AdvanceResult → Option String → PhaseEvent
event_of run_id r reason = record {
  run_id = run_id;
  from_phase = r.from_phase;
  to_phase = r.to_phase;
  event_type = r.event_type;
  gate_result = some r.gate_result;
  gate_tier = some r.gate_tier;
  reason = reason;
}

abbrev pub join_reason : String → String → String
join_reason skip_reason evidence =
    if str_eq skip_reason ""
    then evidence
    else if str_eq evidence ""
    then skip_reason
    else string_append skip_reason (string_append " | " evidence)

abbrev pub pause_result : String → String → AdvanceResult
pause_result from_phase to_phase = record {
  from_phase = from_phase;
  to_phase = to_phase;
  event_type = "pause";
  gate_result = "none";
  gate_tier = "none";
  reason = "auto_advance disabled";
  advanced = false;
}

abbrev pub block_result : String → String → GateOutcome → String → AdvanceResult
block_result from_phase to_phase gate reason = record {
  from_phase = from_phase;
  to_phase = to_phase;
  event_type = "block";
  gate_result = gate.result;
  gate_tier = gate.tier;
  reason = if str_eq reason "" then "gate blocked advance" else reason;
  advanced = false;
}

abbrev pub advance_result : String → String → GateOutcome → String → AdvanceResult
advance_result from_phase to_phase gate reason = record {
  from_phase = from_phase;
  to_phase = to_phase;
  event_type = "advance";
  gate_result = gate.result;
  gate_tier = gate.tier;
  reason = reason;
  advanced = true;
}

-- A result without a move: only the event is recorded.
abbrev pub record_only : String → AdvanceResult → Store → Store × AdvanceResult
record_only run_id r store = (add_event (event_of run_id r (some r.reason)) store, r)

-- The phase that the run would move to.
unfoldable pub target_phase : String → Store → Run → Result PhaseError String
target_phase run_id store run =
    chain_next_phase (resolve_chain run) run.phase
    >>= skip_walk (length (resolve_chain run)) (resolve_chain run) (skipped_in run_id store.events)

-- `now` is the clock of the transaction.
module _ (now : ℤ) where
  -- The move, its event, and the completion of the run at the last phase.
  unfoldable pub transition :
      String → List String → AdvanceResult → Store → Result PhaseError (Store × AdvanceResult)
  transition run_id chain r store = do
    moved ← update_phase now run_id r.from_phase r.to_phase store
    let recorded = add_event (event_of run_id r (str_ptr_or_nil r.reason)) moved
    if chain_is_terminal chain r.to_phase
        then (update_status now run_id status_completed recorded >>= λ completed. ok (completed, r))
        else ok (recorded, r)

  -- Behind the gate.
  unfoldable pub decide :
      String
      → List String
      → String
      → String
      → GateOutcome
      → String
      → Store
      → Result PhaseError (Store × AdvanceResult)
  decide run_id chain from_phase to_phase gate reason store =
      if str_eq gate.result "fail" && str_eq gate.tier "hard"
      then ok (record_only run_id (block_result from_phase to_phase gate reason) store)
      else transition run_id chain (advance_result from_phase to_phase gate reason) store

  -- The gate is an argument, since `evaluateGate` reads the evidence of other components.
  unfoldable pub advance :
      (Run → String → String → Result PhaseError GateOutcome)
      → String
      → String
      → Store
      → Result PhaseError (Store × AdvanceResult)
  advance evaluate_gate skip_reason run_id store = do
    run ← get store run_id
    if is_terminal_status run.status
        then err terminal_run
        else if chain_is_terminal (resolve_chain run) run.phase
        then err terminal_phase
        else (target_phase run_id store run >>= λ to_phase.
            if not run.auto_advance && str_eq skip_reason ""
            then ok (record_only run_id (pause_result run.phase to_phase) store)
            else (evaluate_gate run run.phase to_phase >>= λ gate.
                decide run_id (resolve_chain run) run.phase to_phase gate
                  (join_reason skip_reason gate.evidence) store))

pub record RollbackResult : Type 0 where
  pub from_phase : String
  pub to_phase : String
  pub rolled_back_phases : List String
  pub reason : String

abbrev pub rollback_event : String → RollbackResult → PhaseEvent
rollback_event run_id r = record {
  run_id = run_id;
  from_phase = r.from_phase;
  to_phase = r.to_phase;
  event_type = "rollback";
  gate_result = none;
  gate_tier = none;
  reason = str_ptr_or_nil r.reason;
}

-- Behind the computation of the phases that are rolled back.
unfoldable pub rewind_to :
    ℤ
    → String
    → String
    → String
    → Run
    → Store
    → Option (List String)
    → Result PhaseError (Store × RollbackResult)
rewind_to now run_id target reason run store none = err invalid_rollback
rewind_to now run_id target reason run store (some rolled_back) =
    let r : RollbackResult = record {
      from_phase = run.phase;
      to_phase = target;
      rolled_back_phases = rolled_back;
      reason = reason;
    } in
    rollback_phase now run_id run.phase target store >>= λ moved.
    ok (add_event (rollback_event run_id r) moved, r)

unfoldable pub rollback :
    ℤ → String → String → String → Store → Result PhaseError (Store × RollbackResult)
rollback now run_id target reason store = do
  run ← get store run_id
  rewind_to now run_id target reason run store
      (chain_phases_between (resolve_chain run) target run.phase)

abbrev pub with_actor : String → String → String
with_actor actor reason =
    if str_eq actor ""
    then reason
    else string_append "actor=" (string_append actor (string_append ": " reason))

unfoldable pub skip_phase : String → String → String → String → Store → Result PhaseError Store
skip_phase run_id target reason actor store = do
  run ← get store run_id
  if is_terminal_status run.status
      then err terminal_run
      else if not (chain_contains (resolve_chain run) target)
      then err (not_in_chain target)
      else if not (chain_is_valid_transition (resolve_chain run) run.phase target)
      then err (not_ahead target)
      else if chain_is_terminal (resolve_chain run) target
      then err (cannot_skip_terminal target)
      else ok (
          add_event
            (record {
              run_id = run_id;
              from_phase = run.phase;
              to_phase = target;
              event_type = "skip";
              gate_result = none;
              gate_tier = none;
              reason = str_ptr_or_nil (with_actor actor reason);
            })
            store)
