-- ===== src/Authz/Check/Ceiling.antt =====
-- When `Check` lets an operation proceed without a human.
use intercore.Common.{
  ℕ, ◌≡◌, refl, ◌↔◌, ◌⊎◌, inl, inr, Bool, true, false, Option, none, some, String, arith,
  if◌then◌else◌, Bool-cases, Option-cases, ◌∙◌, sym, ap, subst,
}
use mathlib.Core.Bool.{false≢true}
use intercore.Common.Int.{ℤ, pos, ◌≤ℤ◌}
use intercore.Common.Outcome.{ok}
use intercore.Authz.Policy.{Mode, block, Rule, Policy, is_permissive}
use intercore.Authz.Check.{
  CheckInput, CheckResult, Reason, check, match_rule, evaluate, with_now, apply_delegation_ceiling,
  decide_rule, decide_match, decision, is_block, rule_mode_is_block,
}
use intercore.Autonomy.Level.{Resolution}
use intercore.Autonomy.Ops.{permits_auto, min_level_for_auto}

-- What must hold for `mode` to be the decision of a rule.
pub record IsAuthorized (wall : ℤ) (policy : Policy) (input : CheckInput) (mode : Mode)
    : Type 0 where
  pub rule : Rule
  pub idx : ℕ
  pub found : match_rule policy.rules input.op ≡ some (rule, idx)
  pub says : rule.mode ≡ mode
  pub satisfied : (evaluate wall rule (with_now wall input)).0 ≡ true
  pub cleared : (r : Resolution) → input.delegation ≡ some r → permits_auto r input.op ≡ true

module _ (rule : Rule) (idx : ℕ) (inp : CheckInput) where
  abbrev decided : Bool × Reason → CheckResult
  decided verdict =
      if is_block rule.mode
      then decision block (rule.op, idx) rule_mode_is_block
      else decide_rule rule idx verdict inp

  decided_sound :
      (verdict : Bool × Reason)
      → is_permissive (decided verdict).mode ≡ true
      → (verdict.0 ≡ true) × (rule.mode ≡ (decided verdict).mode)
  unfolding apply_delegation_ceiling
  decided_sound (false, reason) h = ground arith
  decided_sound (true, reason) h = ground arith

  decided_cleared :
      (verdict : Bool × Reason) (r : Resolution)
      → is_permissive (decided verdict).mode ≡ true
      → inp.delegation ≡ some r
      → permits_auto r inp.op ≡ true
  unfolding apply_delegation_ceiling
  decided_cleared (false, reason) r h e = ground arith
  decided_cleared (true, reason) r h e = ground arith

  decided_complete :
      (reason : Reason)
      → is_permissive rule.mode ≡ true
      → ((r : Resolution) → inp.delegation ≡ some r → permits_auto r inp.op ≡ true)
      → (decided (true, reason)).mode ≡ rule.mode
  unfolding apply_delegation_ceiling
  decided_complete reason h clear = elim (Option-cases inp.delegation) [
    | inl e ↦ ground arith
    | inr (r, e) ↦ ground (arith, clear r e)
  ]

with_now-op : (wall : ℤ) (input : CheckInput) → (with_now wall input).op ≡ input.op
unfolding with_now
with_now-op wall input = ground arith

with_now-delegation :
    (wall : ℤ) (input : CheckInput) → (with_now wall input).delegation ≡ input.delegation
unfolding with_now
with_now-delegation wall input = ground arith

module _ (wall : ℤ) (policy : Policy) (input : CheckInput) where
  decide_match_sound :
      (m : Option (Rule × ℕ))
      → match_rule policy.rules input.op ≡ m
      → is_permissive (decide_match wall (with_now wall input) m).mode ≡ true
      → IsAuthorized wall policy input (decide_match wall (with_now wall input) m).mode
  unfolding is_permissive
  decide_match_sound none e h = absurd (false≢true h)
  decide_match_sound (some (rule, idx)) e h =
      let inp = with_now wall input in
      let verdict = evaluate wall rule inp in
      record {
        rule = rule;
        idx = idx;
        found = e;
        says = (decided_sound rule idx inp verdict h).1;
        satisfied = (decided_sound rule idx inp verdict h).0;
        cleared = λ r d.
            rw (with_now-op wall input) at
              (decided_cleared rule idx inp verdict r h (with_now-delegation wall input ∙ d));
      }

  decide_match_complete :
      {mode : Mode} (m : Option (Rule × ℕ))
      → is_permissive mode ≡ true
      → match_rule policy.rules input.op ≡ m
      → IsAuthorized wall policy input mode
      → (decide_match wall (with_now wall input) m).mode ≡ mode
  decide_match_complete {mode} m perm e a =
      rw (← e, a.found) (decided_of_verdict (evaluate wall a.rule inp) a.satisfied ∙ a.says)
    where
      inp : CheckInput
      inp = with_now wall input

      decided_of_verdict :
          (verdict : Bool × Reason)
          → verdict.0 ≡ true
          → (decided a.rule a.idx inp verdict).mode ≡ a.rule.mode
      decided_of_verdict (false, reason) v = absurd (false≢true v)
      decided_of_verdict (true, reason) v =
          decided_complete a.rule a.idx inp reason (ap is_permissive a.says ∙ perm) λ r d.
            rw (with_now-op wall input) (a.cleared r (sym (with_now-delegation wall input) ∙ d))

-- `Check` lets an operation proceed without a human in a permissive mode (auto or force_auto)
-- exactly when the rule that it matches has that mode, all of that rule's requirements are met,
-- and no delegation level in force is below the floor of the operation.
pub check-permissive_iff :
    (wall : ℤ) (policy : Policy) (input : CheckInput) (result : CheckResult) (mode : Mode)
    → is_permissive mode ≡ true
    → check wall (some policy) input ≡ ok result
    → (result.mode ≡ mode) ↔ IsAuthorized wall policy input mode
unfolding check
check-permissive_iff wall policy input result mode perm e = (
  λ same.
      subst (IsAuthorized wall policy input) (of_match ∙ same)
        (decide_match_sound wall policy input m refl (ap is_permissive (of_match ∙ same) ∙ perm)),
  λ a. sym of_match ∙ decide_match_complete wall policy input m perm refl a,
)
  where
    m : Option (Rule × ℕ)
    m = match_rule policy.rules input.op

    of_match : (decide_match wall (with_now wall input) m).mode ≡ result.mode
    of_match = cc

push-floor :
    (op : String) → (op ≡ "git-push-main") ⊎ (op ≡ "bd-push-dolt") → min_level_for_auto op ≡ pos 3
unfolding min_level_for_auto
push-floor op (inl e) = rw e refl
push-floor op (inr e) = rw e refl

capped :
    (op : String) (r : Resolution)
    → (op ≡ "git-push-main") ⊎ (op ≡ "bd-push-dolt")
    → r.level ≤ℤ pos 2
    → permits_auto r op ≡ false
unfolding permits_auto
capped op r which low = rw (push-floor op which) (ground arith)

-- A push is never let through by policy alone below L3, whatever the policy says: the floor holds
-- for a declared level and for the level that `Resolve` falls back to.
pub check-push :
    (wall : ℤ) (policy : Policy) (input : CheckInput) (result : CheckResult) (r : Resolution)
    → (input.op ≡ "git-push-main") ⊎ (input.op ≡ "bd-push-dolt")
    → input.delegation ≡ some r
    → r.level ≤ℤ pos 2
    → check wall (some policy) input ≡ ok result
    → is_permissive result.mode ≡ false
check-push wall policy input result r push d low e = elim (Bool-cases (is_permissive result.mode)) [
  | inr off ↦ off
  | inl on ↦ absurd (refuted push on)
]
  where
    refuted :
        (input.op ≡ "git-push-main") ⊎ (input.op ≡ "bd-push-dolt")
        → is_permissive result.mode ≡ true
        → ⊥
    refuted which on =
        let a = (check-permissive_iff wall policy input result result.mode on e).0 refl in
        false≢true (sym (capped input.op r which low) ∙ a.cleared r d)
