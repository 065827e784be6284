-- ===== src/Phase/Gate/Verdicts.antt =====
-- What a verdict says of the checks.
use intercore.Common.{
  ◌≡◌, refl, ap, subst, ◌∙◌, Bool, true, false, ◌&&◌, List, [], ◌∷◌, ◌++◌, String, str_eq,
  str_eq_iff, if-false, Bool-cases, inl, inr, arith, ◌⊎◌,
}
use mathlib.Core.Bool.{false≢true}
use intercore.Common.Int.{pos, leb_ℤ}
use intercore.Common.Every.{Every, Every-append_left, Every-append_right}
use intercore.Common.Outcome.{ok, >>=-eq-ok, ok-injective}
use intercore.Phase.Machine.{GateRule, Run}
use intercore.Phase.Checks.{Queriers, GateConfig, GateCondition, check_rule, check_rules, all_pass}
use intercore.Phase.Gate.{
  when, plain_rule, calibrated, GateVerdict, Selected, escalate, tier_of, base_tier, is_bypassed,
  judge, rules_of, evaluate_gate, runtime_terminal, select_rules, has_check, require_runtime,
  inject_rules, runtime_rule,
}

-- A rule that was checked, and whose condition passed.
abbrev pub Passed : Queriers → GateConfig → Run → GateRule → Type 0
Passed q cfg run r = (c : GateCondition) × (check_rule q cfg run r ≡ ok c) × (c.result ≡ "pass")

-- Gating with a hard tier from the start.
abbrev pub IsEnforced : Queriers → GateConfig → Run → String → Type 0
IsEnforced q cfg run dst =
    (is_bypassed cfg (runtime_terminal (q.runtime_evidence_for_run run) run dst) ≡ false)
    × (base_tier cfg.priority (runtime_terminal (q.runtime_evidence_for_run run) run dst) ≡ "hard")

and_false : (b : Bool) → (b && false) ≡ false
and_false true = refl
and_false false = refl

-- A terminal transition that needs runtime evidence is enforced at every priority.
pub terminal-IsEnforced :
    (q : Queriers) (cfg : GateConfig) (run : Run) (dst : String)
    → runtime_terminal (q.runtime_evidence_for_run run) run dst ≡ true
    → IsEnforced q cfg run dst
terminal-IsEnforced q cfg run dst h = (rw h (and_false _), rw h)

-- Gates that are on are enforced at priority 0 and 1.
pub priority-IsEnforced :
    (q : Queriers) (cfg : GateConfig) (run : Run) (dst : String)
    → cfg.disable_all ≡ false
    → leb_ℤ cfg.priority (pos 1) ≡ true
    → IsEnforced q cfg run dst
priority-IsEnforced q cfg run dst on hard =
    let within : leb_ℤ cfg.priority (pos 3) ≡ true = ground arith in
    (
      rw (on, within),
      elim (Bool-cases (runtime_terminal (q.runtime_evidence_for_run run) run dst)) [
        | inl e ↦ rw e
        | inr e ↦ rw (e, hard)
      ],
    )

all_pass-parts :
    (c : GateCondition) (cs : List GateCondition)
    → all_pass (c ∷ cs) ≡ true
    → (c.result ≡ "pass") × (all_pass cs ≡ true)
unfolding all_pass
all_pass-parts c cs h = elim (Bool-cases (str_eq c.result "pass")) [
  | inl e ↦ ((str_eq_iff c.result "pass").0 e, rw e at h)
  | inr e ↦ absurd (false≢true (rw e at h))
]

check_rules-Passed :
    (q : Queriers) (cfg : GateConfig) (run : Run) (rules : List GateRule) (cs : List GateCondition)
    → check_rules q cfg run rules ≡ ok cs
    → all_pass cs ≡ true
    → Every (Passed q cfg run) rules
unfolding check_rules
check_rules-Passed q cfg run [] cs h all = tt
check_rules-Passed q cfg run (r ∷ rules) cs h all =
    let (c, first, h1) = >>=-eq-ok (check_rule q cfg run r) _ h in
    let (rest, others, h2) = >>=-eq-ok (check_rules q cfg run rules) _ h1 in
    let (pass, more) = all_pass-parts c rest (ap all_pass (ok-injective h2) ∙ all) in
    ((c, first, pass), check_rules-Passed q cfg run rules rest others more)

escalate-hard : (rules : List GateRule) → escalate "hard" rules ≡ "hard"
unfolding escalate
escalate-hard [] = refl
escalate-hard (r ∷ rules) = elim (Bool-cases (str_eq r.tier "hard")) [
  | inl e ↦ rw e
  | inr e ↦ elim (Bool-cases (str_eq r.tier "soft")) [
    | inl f ↦ rw (e, f) (escalate-hard rules)
    | inr f ↦ rw (e, f) (escalate-hard rules)
  ]
]

-- A hard tier stays hard.
tier_of-hard :
    (cfg : GateConfig) (terminal : Bool) (src dst : String) (selected : Selected)
    (rules : List GateRule)
    → base_tier cfg.priority terminal ≡ "hard"
    → (tier_of cfg terminal src dst selected rules).tier ≡ "hard"
unfolding tier_of
tier_of-hard cfg terminal src dst selected rules hard =
    elim (Bool-cases (selected.using_defaults && calibrated cfg.calibrated_tiers src dst rules)) [
      | inl e ↦ rw e
      | inr e ↦ rw e (ap (λ t. escalate t rules) hard ∙ escalate-hard rules)
    ]

-- A verdict with a hard tier: a failure, or every rule was checked and passed.
abbrev pub HardVerdict : Queriers → GateConfig → Run → List GateRule → GateVerdict → Type 0
HardVerdict q cfg run rules v =
    (v.tier ≡ "hard") × ((v.result ≡ "fail") ⊎ Every (Passed q cfg run) rules)

judge-HardVerdict :
    (q : Queriers) (cfg : GateConfig) (run : Run) (src dst : String) (terminal : Bool)
    (selected : Selected) (rules : List GateRule) (v : GateVerdict)
    → base_tier cfg.priority terminal ≡ "hard"
    → judge q cfg run src dst terminal selected rules ≡ ok v
    → HardVerdict q cfg run rules v
unfolding judge
judge-HardVerdict q cfg run src dst terminal selected [] v hard h =
    subst (HardVerdict q cfg run []) (ok-injective h) (hard, inr tt)
judge-HardVerdict q cfg run src dst terminal selected (r ∷ rules) v hard h =
    let (cs, checked, h1) = >>=-eq-ok (check_rules q cfg run (r ∷ rules)) _ h in
    subst (HardVerdict q cfg run (r ∷ rules)) (ok-injective h1) (
      tier_of-hard cfg terminal src dst selected (r ∷ rules) hard,
      elim (Bool-cases (all_pass cs)) [
        | inl e ↦ inr (check_rules-Passed q cfg run (r ∷ rules) cs checked e)
        | inr e ↦ inl (rw e)
      ],
    )

pub evaluate_gate-HardVerdict :
    (q : Queriers) (cfg : GateConfig) (run : Run) (src dst : String) (v : GateVerdict)
    → IsEnforced q cfg run dst
    → evaluate_gate q cfg run src dst ≡ ok v
    → HardVerdict q cfg run (rules_of q cfg run src dst) v
unfolding evaluate_gate
evaluate_gate-HardVerdict q cfg run src dst v (gated, hard) h =
    judge-HardVerdict q cfg run src dst (runtime_terminal (q.runtime_evidence_for_run run) run dst)
      (select_rules cfg src dst run.gate_rules) (rules_of q cfg run src dst) v hard
      (if-false _ _ gated h)

has_check-append-left :
    (check : String) (xs ys : List GateRule)
    → has_check check xs ≡ true
    → has_check check (xs ++ ys) ≡ true
unfolding has_check
has_check-append-left check [] ys h = absurd (false≢true h)
has_check-append-left check (r ∷ xs) ys h = ground (arith, has_check-append-left check xs ys)

has_check-append-right :
    (check : String) (xs ys : List GateRule)
    → has_check check ys ≡ true
    → has_check check (xs ++ ys) ≡ true
unfolding has_check
has_check-append-right check [] ys h = h
has_check-append-right check (r ∷ xs) ys h = ground (arith, has_check-append-right check xs ys)

-- The rule of a check that is asked for.
pub Every-has_check :
    (P : GateRule → Type 0) (check : String) (rules : List GateRule)
    → Every P rules
    → has_check check rules ≡ true
    → (r : GateRule) × (r.check ≡ check) × P r
unfolding has_check
Every-has_check P check [] all h = absurd (false≢true h)
Every-has_check P check (r ∷ rules) all h = elim (Bool-cases (str_eq r.check check)) [
  | inl e ↦ (r, (str_eq_iff r.check check).0 e, all.0)
  | inr e ↦ Every-has_check P check rules all.1 (rw e at h)
]

runtime_rule-asked : has_check "runtime_evidence" (runtime_rule ∷ []) ≡ true
unfolding has_check
runtime_rule-asked = refl

-- At a terminal transition that needs runtime evidence, its check is among the rules.
pub require_runtime-has_check :
    (rules : List GateRule) → has_check "runtime_evidence" (require_runtime true rules) ≡ true
unfolding require_runtime
require_runtime-has_check rules = elim (Bool-cases (has_check "runtime_evidence" rules)) [
  | inl e ↦ has_check-append-left "runtime_evidence" rules _ e
  | inr e ↦ has_check-append-right "runtime_evidence" rules _ (rw e runtime_rule-asked)
]

-- The rule that a portfolio's transitions all have.
pub Every-children_rule :
    (P : GateRule → Type 0) (run : Run) (dst : String) (terminal : Bool) (rules : List GateRule)
    → run.project_dir ≡ ""
    → Every P (require_runtime terminal (inject_rules run dst rules))
    → P (plain_rule "children_at_phase" dst)
unfolding require_runtime inject_rules
Every-children_rule P run dst terminal rules portfolio h =
    let kept = Every-append_left P _ _ (Every-append_left P _ _ (Every-append_left P _ _ h)) in
    let added = Every-append_right P rules _ kept in
    (subst (λ d. Every P (when (str_eq d "") (plain_rule "children_at_phase" dst))) portfolio
      added).0
