-- ===== src/Phase/Machine.antt =====
-- The runs and their audit trail: the parts of internal/phase/store.go that the machine calls.
use intercore.Common.{
  Bool, true, false, not, ◌&&◌, ◌||◌, Option, none, some, List, [], ◌∷◌, ◌++◌, String, str_eq,
  if◌then◌else◌,
}
use intercore.Common.Int.{ℤ}
use intercore.Common.Dict.{Dict}
use intercore.Common.Outcome.{Result, ok, err, ◌>>=◌}
use intercore.Phase.Chain.{
  PhaseError, not_found, terminal_run, stale_phase, status_active, status_cancelled, status_failed,
  is_terminal_status, default_phase_chain,
}

-- A check that a transition asks for; an empty tier leaves it to the priority.
pub record GateRule : Type 0 where
  pub check : String
  pub phase : String
  pub tier : String

-- The columns of `runs` that the machine and its gate read or write.
pub record Run : Type 0 where
  pub id : String
  pub project_dir : String
  pub scope_id : Option String
  pub metadata : Option String
  pub token_budget : Option ℤ
  pub parent_run_id : Option String
  pub budget_enforce : Bool
  pub gate_rules : Option (Dict (List GateRule))
  pub status : String
  pub phase : String
  pub auto_advance : Bool
  pub updated_at : ℤ
  pub completed_at : Option ℤ
  pub phases : Option (List String)

pub record PhaseEvent : Type 0 where
  pub run_id : String
  pub from_phase : String
  pub to_phase : String
  pub event_type : String
  pub gate_result : Option String
  pub gate_tier : Option String
  pub reason : Option String

pub record Store : Type 0 where
  pub runs : List Run
  pub events : List PhaseEvent

unfoldable pub resolve_chain : Run → List String
resolve_chain run = elim run.phases [ none ↦ default_phase_chain | some chain ↦ chain ]

unfoldable pub find_run : String → List Run → Option Run
find_run id [] = none
find_run id (r ∷ runs) = let rest = find_run id runs in if str_eq r.id id then some r else rest

unfoldable pub get : Store → String → Result PhaseError Run
unfolding find_run
get store id = elim (find_run id store.runs) [ none ↦ err not_found | some run ↦ ok run ]

-- `UPDATE runs SET … WHERE id = ? AND …`: the rows that both conditions select.
unfoldable pub update_where : String → (Run → Bool) → (Run → Run) → List Run → List Run
update_where id guard change [] = []
update_where id guard change (r ∷ runs) =
    (if str_eq r.id id && guard r then change r else r) ∷ update_where id guard change runs

unfoldable pub update_phase : ℤ → String → String → String → Store → Result PhaseError Store
update_phase now id expected_phase new_phase store = get store id >>= λ run.
    if str_eq run.phase expected_phase
    then ok (record store {
      runs =
          update_where id (λ r. str_eq r.phase expected_phase)
            (λ r. record r { phase = new_phase; updated_at = now }) store.runs;
    })
    else err stale_phase

-- `COALESCE(?, completed_at)` with a time for a final status only.
abbrev pub set_status : ℤ → String → Run → Run
set_status now status r = record r {
  status = status;
  updated_at = now;
  completed_at = if is_terminal_status status then some now else r.completed_at;
}

unfoldable pub update_status : ℤ → String → String → Store → Result PhaseError Store
update_status now id status store = get store id >>= λ run.
    ok (record store { runs = update_where id (λ r. true) (set_status now status) store.runs })

abbrev pub rewind : ℤ → String → Run → Run
rewind now target_phase r = record r {
  phase = target_phase;
  status = status_active;
  updated_at = now;
  completed_at = none;
}

abbrev pub may_rewind : String → Run → Bool
may_rewind current_phase r =
    str_eq r.phase current_phase
    && not (str_eq r.status status_cancelled || str_eq r.status status_failed)

unfoldable pub rollback_phase : ℤ → String → String → String → Store → Result PhaseError Store
rollback_phase now id current_phase target_phase store = get store id >>= λ run.
    if may_rewind current_phase run
    then ok (record store {
      runs = update_where id (may_rewind current_phase) (rewind now target_phase) store.runs;
    })
    else if str_eq run.status status_cancelled || str_eq run.status status_failed
    then err terminal_run
    else err stale_phase

unfoldable pub add_event : PhaseEvent → Store → Store
add_event e store = record store { events = store.events ++ e ∷ [] }

-- Whether a `skip` event names the phase.
unfoldable pub skipped_in : String → List PhaseEvent → String → Bool
skipped_in id [] p = false
skipped_in id (e ∷ events) p =
    let rest = skipped_in id events p in
    if str_eq e.run_id id && str_eq e.event_type "skip" && str_eq e.to_phase p then true else rest

abbrev pub str_ptr_or_nil : String → Option String
str_ptr_or_nil s = if str_eq s "" then none else some s
