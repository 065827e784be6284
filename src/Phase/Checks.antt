-- ===== src/Phase/Checks.antt =====
-- The checks of a gate, internal/phase/gate.go. What they read is the field of a querier; a querier that is not there is
-- `none`.
use intercore.Common.{
  ℕ, ◌+◌, Bool, true, false, not, ◌&&◌, ◌||◌, Option, none, some, List, [], ◌∷◌, String, str_eq,
  if◌then◌else◌, ltb, ◌==◌,
}
use intercore.Common.Int.{ℤ}
use intercore.Common.Dict.{Dict}
use intercore.Common.Outcome.{Result, ok, err, ◌>>=◌}
use intercore.Phase.Chain.{
  PhaseError, gate_error, chain_phase_index, status_completed, status_cancelled, status_failed,
}
use intercore.Phase.Machine.{GateRule, Run, resolve_chain}

-- What RuntimeEvidenceForRun reads in a run's metadata; `invalid` is its error.
pub record RuntimeEvidence : Type 0 where
  pub required : Bool
  pub ready : Bool
  pub invalid : Bool

pub record Artifact : Type 0 where
  pub path : String
  pub content_hash : Option String

-- `none` is ErrArtifactNotFound.
pub record RuntrackQuerier : Type 0 where
  pub count_artifacts : String → String → Result PhaseError ℕ
  pub count_active_agents : String → Result PhaseError ℕ
  pub latest_evidence : String → Result PhaseError (Option Artifact)

pub record VerdictQuerier : Type 0 where
  pub has_verdict : String → Result PhaseError Bool
  pub count_unclean_verdicts : String → Result PhaseError ℕ

abbrev pub PortfolioQuerier : Type 0
PortfolioQuerier = String → Result PhaseError (List Run)

abbrev pub DepQuerier : Type 0
DepQuerier = String → String → Result PhaseError (List String)

abbrev pub BudgetQuerier : Type 0
BudgetQuerier = String → Result PhaseError Bool

-- The metadata reader and the verifier of proofs stand with the queriers.
pub record Queriers : Type 0 where
  pub rt : Option RuntrackQuerier
  pub vq : Option VerdictQuerier
  pub pq : Option PortfolioQuerier
  pub dq : Option DepQuerier
  pub bq : Option BudgetQuerier
  pub runtime_evidence_for_run : Run → RuntimeEvidence
  pub verify_file : Run → Artifact → Bool

pub record GateConfig : Type 0 where
  pub priority : ℤ
  pub disable_all : Bool
  pub spec_rules : List GateRule
  pub calibrated_tiers : Dict String

-- The free text of a condition's detail is left out.
pub record GateCondition : Type 0 where
  pub check : String
  pub phase : String
  pub result : String
  pub count : Option ℕ

abbrev pub passing : Bool → String
passing b = if b then "pass" else "fail"

abbrev pub condition : GateRule → Bool → Option ℕ → GateCondition
condition r b count = record { check = r.check; phase = r.phase; result = passing b; count = count }

-- The error of a querier ends the evaluation.
abbrev pub counted : GateRule → (ℕ → Bool) → Result PhaseError ℕ → Result PhaseError GateCondition
counted r test answer = answer >>= λ n. ok (condition r (test n) (some n))

unfoldable pub check_artifacts :
    Run → GateRule → Option RuntrackQuerier → Result PhaseError GateCondition
check_artifacts run r none = ok (condition r false none)
check_artifacts run r (some rt) = counted r (λ n. ltb 0 n) (rt.count_artifacts run.id r.phase)

unfoldable pub check_agents :
    Run → GateRule → Option RuntrackQuerier → Result PhaseError GateCondition
check_agents run r none = ok (condition r false none)
check_agents run r (some rt) = counted r (λ n. n == 0) (rt.count_active_agents run.id)

abbrev pub scope_of : Option String → String
scope_of none = ""
scope_of (some id) = id

unfoldable pub check_verdict_exists :
    Run → GateRule → Option VerdictQuerier → Result PhaseError GateCondition
check_verdict_exists run r none = ok (condition r false none)
check_verdict_exists run r (some vq) =
    vq.has_verdict (scope_of run.scope_id) >>= λ has. ok (condition r has none)

unfoldable pub check_verdict_clean :
    Run → GateRule → Option VerdictQuerier → Result PhaseError GateCondition
check_verdict_clean run r none = ok (condition r false none)
check_verdict_clean run r (some vq) = vq.has_verdict (scope_of run.scope_id) >>= λ has.
    if has
    then counted r (λ n. n == 0) (vq.count_unclean_verdicts (scope_of run.scope_id))
    else ok (condition r false none)

-- An index that is not there is -1.
unfoldable pub is_behind : Option ℕ → Option ℕ → Bool
is_behind none index = false
is_behind (some target) none = true
is_behind (some target) (some index) = ltb index target

abbrev pub run_is_behind : String → Run → Bool
run_is_behind phase run =
    is_behind (chain_phase_index (resolve_chain run) phase)
      (chain_phase_index (resolve_chain run) run.phase)

-- A failed child blocks.
abbrev pub child_blocks : String → Run → Bool
child_blocks phase child =
    not (str_eq child.status status_completed || str_eq child.status status_cancelled)
    && run_is_behind phase child

unfoldable pub count_behind : String → List Run → ℕ
count_behind phase [] = 0
count_behind phase (child ∷ children) =
    (if child_blocks phase child then 1 else 0) + count_behind phase children

unfoldable pub check_children :
    Run → GateRule → Option PortfolioQuerier → Result PhaseError GateCondition
check_children run r none = ok (condition r false none)
check_children run r (some get_children) = get_children run.id >>= λ children.
    let behind = count_behind r.phase children in ok (condition r (behind == 0) (some behind))

-- The first child run of a project.
unfoldable pub sibling_of : String → List Run → Option Run
sibling_of project [] = none
sibling_of project (s ∷ siblings) =
    let rest = sibling_of project siblings in if str_eq s.project_dir project then some s else rest

-- A failed upstream does not block.
abbrev pub upstream_blocks : String → Option Run → Bool
upstream_blocks phase none = false
upstream_blocks phase (some run) =
    not (
      str_eq run.status status_completed
      || str_eq run.status status_cancelled
      || str_eq run.status status_failed)
    && run_is_behind phase run

unfoldable pub count_upstreams : String → List Run → List String → ℕ
count_upstreams phase siblings [] = 0
count_upstreams phase siblings (u ∷ upstreams) =
    (if upstream_blocks phase (sibling_of u siblings) then 1 else 0)
    + count_upstreams phase siblings upstreams

unfoldable pub upstreams_behind :
    GateRule → String → PortfolioQuerier → List String → Result PhaseError GateCondition
upstreams_behind r parent get_children [] = ok (condition r true none)
upstreams_behind r parent get_children (u ∷ upstreams) = get_children parent >>= λ siblings.
    let behind = count_upstreams r.phase siblings (u ∷ upstreams) in
    ok (condition r (behind == 0) (some behind))

-- A stored rule can ask for this check of a run without a parent, which Go's nil dereference ends.
unfoldable pub check_upstreams :
    Run
    → GateRule
    → Option String
    → Option DepQuerier
    → Option PortfolioQuerier
    → Result PhaseError GateCondition
check_upstreams run r parent none pq = ok (condition r false none)
check_upstreams run r parent (some dq) none = ok (condition r false none)
check_upstreams run r none (some dq) (some pq) = err (gate_error "nil parent_run_id")
check_upstreams run r (some parent) (some dq) (some pq) =
    dq parent run.project_dir >>= upstreams_behind r parent pq

unfoldable pub check_budget :
    Run → GateRule → Option BudgetQuerier → Result PhaseError GateCondition
check_budget run r none = ok (condition r true none)
check_budget run r (some bq) = bq run.id >>= λ exceeded. ok (condition r (not exceeded) none)

abbrev pub has_hash : Option String → Bool
has_hash none = false
has_hash (some h) = not (str_eq h "")

-- The proof of a receipt.
abbrev pub is_verified : (Run → Artifact → Bool) → Run → Option Artifact → Bool
is_verified verify_file run none = false
is_verified verify_file run (some artifact) =
    has_hash artifact.content_hash && verify_file run artifact

unfoldable pub check_receipt :
    Queriers → Run → GateRule → Option RuntrackQuerier → Result PhaseError GateCondition
check_receipt q run r none = ok (condition r false none)
check_receipt q run r (some rt) = rt.latest_evidence run.id >>= λ artifact.
    ok (condition r (is_verified q.verify_file run artifact) none)

unfoldable pub check_runtime :
    Queriers → GateConfig → Run → GateRule → Result PhaseError GateCondition
check_runtime q cfg run r =
    if cfg.disable_all
    then ok (condition r false none)
    else if (q.runtime_evidence_for_run run).invalid
    then ok (condition r false none)
    else if not (q.runtime_evidence_for_run run).ready
    then ok (condition r false none)
    else check_receipt q run r q.rt

unfoldable pub check_rule : Queriers → GateConfig → Run → GateRule → Result PhaseError GateCondition
check_rule q cfg run r =
    if str_eq r.check "artifact_exists"
    then check_artifacts run r q.rt
    else if str_eq r.check "agents_complete"
    then check_agents run r q.rt
    else if str_eq r.check "verdict_exists"
    then check_verdict_exists run r q.vq
    else if str_eq r.check "verdict_clean"
    then check_verdict_clean run r q.vq
    else if str_eq r.check "children_at_phase"
    then check_children run r q.pq
    else if str_eq r.check "upstreams_at_phase"
    then check_upstreams run r run.parent_run_id q.dq q.pq
    else if str_eq r.check "budget_not_exceeded"
    then check_budget run r q.bq
    else if str_eq r.check "runtime_evidence"
    then check_runtime q cfg run r
    else ok (condition r false none)

unfoldable pub check_rules :
    Queriers → GateConfig → Run → List GateRule → Result PhaseError (List GateCondition)
check_rules q cfg run [] = ok []
check_rules q cfg run (r ∷ rules) =
    check_rule q cfg run r >>= λ c. check_rules q cfg run rules >>= λ cs. ok (c ∷ cs)

unfoldable pub all_pass : List GateCondition → Bool
all_pass [] = true
all_pass (c ∷ cs) = let rest = all_pass cs in if str_eq c.result "pass" then rest else false
