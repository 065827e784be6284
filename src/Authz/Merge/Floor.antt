-- ===== src/Authz/Merge/Floor.antt =====
-- The floor of a restrictive rule: a layer cannot relax it unless some layer gave leave.
use intercore.Common.{
  ◌≡◌, ◌≢◌, refl, sym, ◌∙◌, ap, subst, inl, inr, true, false, Option, none, some, List, [], ◌∷◌,
  ◌++◌, String, arith, str_eq, str_eq_iff, Bool-cases,
}
use intercore.Common.Outcome.{ok, for_each, >>=-eq-ok, ok-injective, for_each-append}
use intercore.Common.Every.{Every}
use intercore.Authz.Policy.{Rule, Policy, is_permissive}
use intercore.Authz.Merge.{
  add_rule, add_layer, merge_policies, merge_rule, validate_mode_transition, is_valid_mode,
}
use intercore.Authz.Merge.Rules.{rule_for, IsAbsent, Around}
use intercore.Authz.Merge.Layers.{Inserted, Updated, add_rule_cases, merge_rule-RuleMerged}

-- The rule asks for a human, and gives no leave to change that.
pub record IsLocked (r : Rule) : Type 0 where
  pub restrictive : is_permissive r.mode ≡ false
  pub known : is_valid_mode r.mode ≡ true
  pub final : r.allow_override ≡ false

-- There is a locked rule for the operation.
abbrev pub Locked : String → List Rule → Type 0
Locked op rules = (r : Rule) × (rule_for op rules ≡ some r) × IsLocked r

-- No rule of the layer gives leave to override the operation's rule.
abbrev pub KeepsLock : String → List Rule → Type 0
KeepsLock op rules = Every (λ (r : Rule). r.op ≡ op → r.allow_override ≡ false) rules

abbrev pub LayerKeepsLock : String → Option Policy → Type 0
LayerKeepsLock op none = Unit
LayerKeepsLock op (some p) = KeepsLock op p.rules

rule_for-skip :
    (op : String) (before tail : List Rule)
    → IsAbsent op before
    → rule_for op (before ++ tail) ≡ rule_for op tail
rule_for-skip op [] tail a = refl
rule_for-skip op (x ∷ before) tail a = rw a.0 (rule_for-skip op before tail a.1)

-- A rule for another selector, put anywhere, changes nothing for this one.
rule_for-other :
    (op : String) (before after : List Rule) (r : Rule)
    → str_eq r.op op ≡ false
    → rule_for op (before ++ r ∷ after) ≡ rule_for op (before ++ after)
rule_for-other op [] after r other = rw other
rule_for-other op (x ∷ before) after r other = rw (rule_for-other op before after r other)

pub rule_for-absent :
    (op : String) (rules : List Rule) → IsAbsent op rules → rule_for op rules ≡ none
rule_for-absent op [] a = refl
rule_for-absent op (x ∷ rules) a = rw a.0 (rule_for-absent op rules a.1)

pub rule_for-at :
    (op : String) (before after : List Rule) (r : Rule)
    → IsAbsent op before
    → str_eq r.op op ≡ true
    → rule_for op (before ++ r ∷ after) ≡ some r
rule_for-at op before after r a e = rule_for-skip op before (r ∷ after) a ∙ rw e

transition_restrictive :
    (base incoming : Rule) {u : Unit {0}}
    → IsLocked base
    → validate_mode_transition base incoming ≡ ok u
    → is_permissive incoming.mode ≡ false
unfolding validate_mode_transition is_valid_mode
transition_restrictive base incoming lock h = ground arith

-- A locked rule takes no permissive mode in a merge, and stays locked if no leave is given.
merge_rule-IsLocked :
    (base incoming next : Rule)
    → IsLocked base
    → is_valid_mode incoming.mode ≡ true
    → incoming.allow_override ≡ false
    → merge_rule base incoming ≡ ok next
    → IsLocked next
merge_rule-IsLocked base incoming next lock v keeps h =
    let facts = merge_rule-RuleMerged base incoming next h in
    let (u, allowed) = facts.allowed in
    record {
      restrictive =
          ap is_permissive facts.new_mode ∙ transition_restrictive base incoming lock allowed;
      known = ap is_valid_mode facts.new_mode ∙ v;
      final = facts.overridable ∙ rw (lock.final, keeps) refl;
    }

module _ (op : String) (rules : List Rule) (incoming : Rule) (out : List Rule)
    (lock : Locked op rules) (v : is_valid_mode incoming.mode ≡ true)
    (keeps : incoming.op ≡ op → incoming.allow_override ≡ false) where
  Inserted-Locked : Inserted rules incoming out → Locked op out
  Inserted-Locked c = elim (Bool-cases (str_eq incoming.op op)) [
    | inl same ↦
        let e = (str_eq_iff incoming.op op).0 same in
        let gone = rule_for-absent op (c.before ++ c.after) (rw e at c.fresh) in
        absurd (some≢none (sym (lock.1) ∙ rw c.whole gone))
    | inr other ↦ (
      lock.0,
      rw (c.result, rule_for-other op c.before c.after incoming other, ← c.whole) (lock.1),
      lock.2,
    )
  ]
    where
      some≢none : some lock.0 ≢ none
      some≢none h = cc

  Updated-Locked : Updated rules incoming out → Locked op out
  Updated-Locked c = elim (Bool-cases (str_eq incoming.op op)) [
    | inl same ↦
        let e = (str_eq_iff incoming.op op).0 same in
        let absent = subst (λ o. IsAbsent o at.before) e at.absent in
        let base_op = subst (λ o. str_eq at.base.op o ≡ true) e at.named in
        let found = rule_for-at op at.before at.after at.base absent base_op in
        let here : rule_for op rules ≡ some at.base = ap (rule_for op) at.whole ∙ found in
        let same_rule : lock.0 ≡ at.base = cc (lock.1, here) in
        let base_locked = subst IsLocked same_rule (lock.2) in
        (
          c.next,
          rw c.result (rule_for-at op at.before at.after c.next absent (rw same_name base_op)),
          merge_rule-IsLocked at.base incoming c.next base_locked v (keeps e) c.merged,
        )
    | inr other ↦
        let base_other : str_eq at.base.op op ≡ false = rw base_name other in
        (
          lock.0,
          rw
              (
                c.result,
                rule_for-other op at.before at.after c.next (rw same_name base_other),
                ← rule_for-other op at.before at.after at.base base_other,
                ← at.whole,
              )
              (lock.1),
          lock.2,
        )
  ]
    where
      at : Around incoming.op rules c.idx
      at = c.around

      same_name : c.next.op ≡ at.base.op
      same_name = (merge_rule-RuleMerged at.base incoming c.next c.merged).same_op

      base_name : at.base.op ≡ incoming.op
      base_name = (str_eq_iff at.base.op incoming.op).0 at.named

add_rule-Locked :
    (op : String) (rules : List Rule) (incoming : Rule) (out : List Rule)
    → Locked op rules
    → (incoming.op ≡ op → incoming.allow_override ≡ false)
    → add_rule rules incoming ≡ ok out
    → Locked op out
add_rule-Locked op rules incoming out lock keeps h =
    let (v, cases) = add_rule_cases rules out incoming h in
    elim cases [
      | inl c ↦ Inserted-Locked op rules incoming out lock v keeps c
      | inr c ↦ Updated-Locked op rules incoming out lock v keeps c
    ]

add_rules-Locked :
    (op : String) (incoming rules out : List Rule)
    → Locked op rules
    → KeepsLock op incoming
    → for_each add_rule incoming rules ≡ ok out
    → Locked op out
unfolding for_each
add_rules-Locked op [] rules out lock keeps h = subst (Locked op) (ok-injective h) lock
add_rules-Locked op (x ∷ incoming) rules out lock keeps h =
    let (mid, first, rest) = >>=-eq-ok (add_rule rules x) _ h in
    add_rules-Locked op incoming mid out (add_rule-Locked op rules x mid lock (keeps.0) first)
      (keeps.1) rest

add_layer-Locked :
    (op : String) (merged : Policy) (layer : Option Policy) (out : Policy)
    → Locked op merged.rules
    → LayerKeepsLock op layer
    → add_layer merged layer ≡ ok out
    → Locked op out.rules
unfolding add_layer
add_layer-Locked op merged none out lock keeps h =
    subst (λ (p : Policy). Locked op p.rules) (ok-injective h) lock
add_layer-Locked op merged (some p) out lock keeps h =
    let (rules, loop, built) = >>=-eq-ok (for_each add_rule p.rules merged.rules) _ h in
    subst (λ (q : Policy). Locked op q.rules) (ok-injective built)
      (add_rules-Locked op p.rules merged.rules rules lock keeps loop)

add_layers-Locked :
    (op : String) (layers : List (Option Policy)) (merged out : Policy)
    → Locked op merged.rules
    → Every (LayerKeepsLock op) layers
    → for_each add_layer layers merged ≡ ok out
    → Locked op out.rules
unfolding for_each
add_layers-Locked op [] merged out lock keeps h =
    subst (λ (p : Policy). Locked op p.rules) (ok-injective h) lock
add_layers-Locked op (layer ∷ layers) merged out lock keeps h =
    let (mid, first, rest) = >>=-eq-ok (add_layer merged layer) _ h in
    add_layers-Locked op layers mid out (add_layer-Locked op merged layer mid lock (keeps.0) first)
      (keeps.1) rest

-- If the layers of lower precedence lock an operation's rule (confirm or block, with no leave to
-- override), and no later layer gives leave for it, then the rule of the merged policy is still
-- locked: no later layer makes the operation auto or force_auto.
pub merge_policies-Locked :
    (op : String) (lower later : List (Option Policy)) (base out : Policy)
    → merge_policies lower ≡ ok base
    → Locked op base.rules
    → Every (LayerKeepsLock op) later
    → merge_policies (lower ++ later) ≡ ok out
    → Locked op out.rules
unfolding merge_policies
merge_policies-Locked op lower later base out first lock keeps h =
    add_layers-Locked op later base out lock keeps
      (rw (for_each-append add_layer lower later, first) at h)
