-- ===== src/Phase/Gate/Passed.antt =====
-- The gate and `Advance` together: a run that moved under a hard gate has passed its checks.
use intercore.Common.{
  ◌+◌, ◌≡◌, refl, sym, ap, ◌∙◌, Bool, true, false, not, ◌&&◌, Option, none, some, List, [], ◌∷◌,
  String, str_eq, if◌then◌else◌, Bool-cases, inl, inr, arith, ◌==◌, ==_iff,
}
use mathlib.Core.Bool.{false≢true}
use intercore.Common.Int.{ℤ, pos, leb_ℤ}
use intercore.Common.Every.{Every}
use intercore.Common.Outcome.{Result, ok, >>=-eq-ok, ok-injective}
use intercore.Phase.Chain.{PhaseError}
use intercore.Phase.Chain.Order.{Distinct}
use intercore.Phase.Machine.{GateRule, Run, Store, find_run, resolve_chain}
use intercore.Phase.Advance.{AdvanceResult, GateOutcome, advance}
use intercore.Phase.Advance.Steps.{blocks, advance-Outcome}
use intercore.Phase.Checks.{
  Artifact, RuntrackQuerier, Queriers, PortfolioQuerier, GateConfig, GateCondition, condition,
  passing, check_rule, check_runtime, check_receipt, is_verified, check_children, count_behind,
  child_blocks,
}
use intercore.Phase.Gate.{
  evaluate_gate, tx_queriers, gate_of, rules_of, runtime_terminal, plain_rule, has_check,
  select_rules, inject_rules, require_runtime,
}
use intercore.Phase.Gate.Verdicts.{
  Passed, IsEnforced, evaluate_gate-HardVerdict, Every-has_check, require_runtime-has_check,
  Every-children_rule, terminal-IsEnforced, priority-IsEnforced,
}

-- What a gate with a hard tier answered, when it does not block.
gate_of-Passed :
    (rt : RuntrackQuerier) (q : Queriers) (cfg : GateConfig) (text : List GateCondition → String)
    (run : Run) (src dst : String) (g : GateOutcome)
    → IsEnforced (tx_queriers rt q run) cfg run dst
    → gate_of rt q cfg text run src dst ≡ ok g
    → blocks g ≡ false
    → Every
        (Passed (tx_queriers rt q run) cfg run)
        (rules_of (tx_queriers rt q run) cfg run src dst)
unfolding gate_of
gate_of-Passed rt q cfg text run src dst g enforced h free =
    let (v, judged, h1) = >>=-eq-ok (evaluate_gate (tx_queriers rt q run) cfg run src dst) _ h in
    let (hard, cases) =
      evaluate_gate-HardVerdict (tx_queriers rt q run) cfg run src dst v enforced judged in
    let same = ok-injective h1 in
    elim cases [
      | inl failed ↦ absurd (
          false≢true (
            sym free
            ∙ ap blocks (sym same)
            ∙ ap (λ r. str_eq r "fail" && str_eq v.tier "hard") failed
            ∙ ap (λ t. str_eq t "hard") hard))
      | inr passed ↦ passed
    ]

module _ (rt : RuntrackQuerier) (q : Queriers) (cfg : GateConfig)
    (text : List GateCondition → String) (now : ℤ) (id skip_reason : String) (store store' : Store)
    (run : Run) (r : AdvanceResult) (found : find_run id store.runs ≡ some run)
    (distinct : Distinct (resolve_chain run))
    (done : advance now (gate_of rt q cfg text) skip_reason id store ≡ ok (store', r))
    (advanced : r.advanced ≡ true) where
  -- An Advance that moves a run with a chain of distinct phases, through a gate that is not
  -- bypassed and whose priority makes it hard (or that needs runtime evidence), has evaluated
  -- every rule of the transition, and each of their conditions passed.
  pub advance-Passed :
      IsEnforced (tx_queriers rt q run) cfg run r.to_phase
      → Every
          (Passed (tx_queriers rt q run) cfg run)
          (rules_of (tx_queriers rt q run) cfg run run.phase r.to_phase)
  advance-Passed enforced =
      elim ((advance-Outcome (gate_of rt q cfg text) now id skip_reason store run found distinct
        store' r done).rows) [
          | inl m ↦
              gate_of-Passed rt q cfg text run run.phase r.to_phase m.outcome enforced m.evaluated
                m.not_blocked
          | inr n ↦ absurd (false≢true (sym n.stayed ∙ advanced))
        ]

check_rule-runtime :
    (q : Queriers) (cfg : GateConfig) (run : Run) (r : GateRule)
    → r.check ≡ "runtime_evidence"
    → check_rule q cfg run r ≡ check_runtime q cfg run r
unfolding check_rule
check_rule-runtime q cfg run r h = rw h

check_rule-children :
    (q : Queriers) (cfg : GateConfig) (run : Run) (r : GateRule)
    → r.check ≡ "children_at_phase"
    → check_rule q cfg run r ≡ check_children run r q.pq
unfolding check_rule
check_rule-children q cfg run r h = rw h

-- A verified proof of the run, under metadata that is valid and sealed.
pub record IsProved (rt : RuntrackQuerier) (q : Queriers) (cfg : GateConfig) (run : Run)
    : Type 0 where
  pub enabled : cfg.disable_all ≡ false
  pub valid : (q.runtime_evidence_for_run run).invalid ≡ false
  pub ready : (q.runtime_evidence_for_run run).ready ≡ true
  pub artifact : Artifact
  pub latest : rt.latest_evidence run.id ≡ ok (some artifact)
  pub verified : q.verify_file run artifact ≡ true

fail≢pass : ¬ ◌≡◌ {A = String} "fail" "pass"
fail≢pass h = false≢true (ap (λ s. str_eq s "pass") h)

passing-true : (b : Bool) → passing b ≡ "pass" → b ≡ true
passing-true true h = refl
passing-true false h = absurd (fail≢pass h)

-- A condition that passed was not refused by a guard.
not-refused :
    (b : Bool) (rule : GateRule) (m : Result PhaseError GateCondition) (c : GateCondition)
    → (if b then ok (condition rule false none) else m) ≡ ok c
    → c.result ≡ "pass"
    → (b ≡ false) × (m ≡ ok c)
not-refused true rule m c h pass = absurd (fail≢pass (ap (λ x. x.result) (ok-injective h) ∙ pass))
not-refused false rule m c h pass = (refl, h)

verified-artifact :
    (verify_file : Run → Artifact → Bool) (run : Run) (o : Option Artifact)
    → is_verified verify_file run o ≡ true
    → (a : Artifact) × (o ≡ some a) × (verify_file run a ≡ true)
verified-artifact verify_file run none h = absurd (false≢true h)
verified-artifact verify_file run (some a) h = (a, refl, ground arith)

check_runtime-IsProved :
    (rt : RuntrackQuerier) (q : Queriers) (cfg : GateConfig) (run : Run) (rule : GateRule)
    (c : GateCondition)
    → check_runtime (tx_queriers rt q run) cfg run rule ≡ ok c
    → c.result ≡ "pass"
    → IsProved rt q cfg run
unfolding check_runtime check_receipt
check_runtime-IsProved rt q cfg run rule c h pass =
    let (enabled, h1) = not-refused cfg.disable_all rule _ c h pass in
    let (valid, h2) = not-refused (q.runtime_evidence_for_run run).invalid rule _ c h1 pass in
    let (unready, h3) = not-refused (not (q.runtime_evidence_for_run run).ready) rule _ c h2 pass in
    let (o, latest, h4) = >>=-eq-ok (rt.latest_evidence run.id) _ h3 in
    let good =
      passing-true (is_verified q.verify_file run o)
        (ap (λ x. x.result) (ok-injective h4) ∙ pass) in
    let (a, here, verified) = verified-artifact q.verify_file run o good in
    record {
      enabled = enabled;
      valid = valid;
      ready = ground arith;
      artifact = a;
      latest = latest ∙ ap ok here;
      verified = verified;
    }

-- No child holds the portfolio back.
abbrev pub ChildrenReady : Queriers → Run → String → Type 0
ChildrenReady q run phase =
    (get_children : PortfolioQuerier) × (q.pq ≡ some get_children)
    × ((children : List Run) × (get_children run.id ≡ ok children)
        × Every (λ child. child_blocks phase child ≡ false) children)

count_behind-none :
    (phase : String) (children : List Run)
    → count_behind phase children ≡ 0
    → Every (λ child. child_blocks phase child ≡ false) children
unfolding count_behind
count_behind-none phase [] h = tt
count_behind-none phase (child ∷ children) h = elim (Bool-cases (child_blocks phase child)) [
  | inl e ↦ let more : 1 + count_behind phase children ≡ 0 = rw e at h in absurd (omega arith)
  | inr e ↦
      let rest : 0 + count_behind phase children ≡ 0 = rw e at h in
      (e, count_behind-none phase children (omega arith))
]

check_children-ready :
    (run : Run) (rule : GateRule) (q : Queriers) (c : GateCondition)
    → (o : Option PortfolioQuerier) → q.pq ≡ o
    → check_children run rule o ≡ ok c
    → c.result ≡ "pass"
    → ChildrenReady q run rule.phase
unfolding check_children
check_children-ready run rule q c none e h pass =
    absurd (fail≢pass (ap (λ x. x.result) (ok-injective h) ∙ pass))
check_children-ready run rule q c (some get_children) e h pass =
    let (children, got, h1) = >>=-eq-ok (get_children run.id) _ h in
    let zero_behind =
      passing-true (count_behind rule.phase children == 0)
        (ap (λ x. x.result) (ok-injective h1) ∙ pass) in
    (
      get_children,
      e,
      (children, got, count_behind-none rule.phase children ((==_iff _ 0).0 zero_behind)),
    )

module _ (rt : RuntrackQuerier) (q : Queriers) (cfg : GateConfig)
    (text : List GateCondition → String) (now : ℤ) (id skip_reason : String) (store store' : Store)
    (run : Run) (r : AdvanceResult) (found : find_run id store.runs ≡ some run)
    (distinct : Distinct (resolve_chain run))
    (done : advance now (gate_of rt q cfg text) skip_reason id store ≡ ok (store', r))
    (advanced : r.advanced ≡ true) where
  -- An Advance that moves a run with a chain of distinct phases to a last phase `done` for which
  -- runtime evidence is required, or whose metadata is invalid, has found the run's metadata valid
  -- and sealed and its latest receipt verified, and gates were not disabled: neither the priority,
  -- nor the rules of the run or of a spec, nor a skip reason gets round the proof.
  pub advance-IsProved :
      runtime_terminal (q.runtime_evidence_for_run run) run r.to_phase ≡ true
      → IsProved rt q cfg run
  advance-IsProved terminal =
      let t = tx_queriers rt q run in
      let enforced = terminal-IsEnforced t cfg run r.to_phase terminal in
      let all =
        advance-Passed rt q cfg text now id skip_reason store store' run r found distinct done
          advanced enforced in
      let rules =
        inject_rules run r.to_phase (select_rules cfg run.phase r.to_phase run.gate_rules).rules in
      let asked : has_check "runtime_evidence" (
            require_runtime (runtime_terminal (t.runtime_evidence_for_run run) run r.to_phase)
              rules)
          ≡ true =
        ap (λ b. has_check "runtime_evidence" (require_runtime b rules)) terminal
        ∙ require_runtime-has_check rules in
      let (rule, kind, (c, checked, pass)) =
        Every-has_check (Passed t cfg run) "runtime_evidence" _ all asked in
      check_runtime-IsProved rt q cfg run rule c
        (sym (check_rule-runtime t cfg run rule kind) ∙ checked) pass

  -- An Advance that moves a portfolio run (one without a project directory) with a chain of
  -- distinct phases, while gates are on and the priority is 0 or 1, has read the run's children,
  -- and none of them that is not completed or cancelled stands before the target phase in its own
  -- chain.
  pub advance-ChildrenReady :
      run.project_dir ≡ ""
      → cfg.disable_all ≡ false
      → leb_ℤ cfg.priority (pos 1) ≡ true
      → ChildrenReady q run r.to_phase
  advance-ChildrenReady portfolio on hard =
      let t = tx_queriers rt q run in
      let all =
        advance-Passed rt q cfg text now id skip_reason store store' run r found distinct done
          advanced (priority-IsEnforced t cfg run r.to_phase on hard) in
      let rule = plain_rule "children_at_phase" r.to_phase in
      let (c, checked, pass) =
        Every-children_rule (Passed t cfg run) run r.to_phase
          (runtime_terminal (t.runtime_evidence_for_run run) run r.to_phase)
          (select_rules cfg run.phase r.to_phase run.gate_rules).rules portfolio all in
      check_children-ready run rule q c q.pq refl
        (sym (check_rule-children t cfg run rule refl) ∙ checked) pass
