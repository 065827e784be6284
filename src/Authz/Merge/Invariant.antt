-- ===== src/Authz/Merge/Invariant.antt =====
-- What holds of every policy that `MergePolicies` returns.
use intercore.Common.{
  ◌≡◌, sym, subst, inl, inr, true, Option, none, some, List, [], ◌∷◌, ◌++◌, str_eq,
}
use intercore.Common.Outcome.{ok-injective, ok, for_each, >>=-eq-ok, for_each_inv}
use intercore.Common.Every.{Every}
use intercore.Authz.Policy.{Rule, Policy}
use intercore.Authz.Merge.{add_rule, add_layer, merge_policies, is_valid_mode}
use intercore.Authz.Merge.Rules.{
  IsAbsent, IsMerged, UniqueOps-insert, UniqueOps-replace, CatchAllLast-append, CatchAllLast-drop,
  CatchAllLast-replace,
}
use intercore.Authz.Merge.Layers.{add_rule_cases, merge_rule-RuleMerged}

abbrev IsValid : Rule → Type 0
IsValid r = is_valid_mode r.mode ≡ true

Every-middle :
    (before after : List Rule) (r r' : Rule)
    → Every IsValid (before ++ r ∷ after)
    → IsValid r'
    → Every IsValid (before ++ r' ∷ after)
Every-middle [] after r r' v e = (e, v.1)
Every-middle (x ∷ before) after r r' v e = (v.0, Every-middle before after r r' v.1 e)

Every-put :
    (before after : List Rule) (r : Rule)
    → Every IsValid (before ++ after)
    → IsValid r
    → Every IsValid (before ++ r ∷ after)
Every-put [] after r v e = (e, v)
Every-put (x ∷ before) after r v e = (v.0, Every-put before after r v.1 e)

Inserted-IsMerged :
    (before after : List Rule) (incoming : Rule)
    → IsValid incoming
    → IsAbsent incoming.op (before ++ after)
    → IsAbsent "*" before
    → (str_eq incoming.op "*" ≡ true → after ≡ [])
    → IsMerged (before ++ after)
    → IsMerged (before ++ incoming ∷ after)
Inserted-IsMerged before after incoming v fresh no_star ends m = record {
  unique = UniqueOps-insert before after incoming m.unique fresh;
  catch_all =
      CatchAllLast-append before (incoming ∷ after) no_star
        (ends, CatchAllLast-drop before after m.catch_all);
  valid = Every-put before after incoming m.valid v;
}

replaced-IsMerged :
    (before after : List Rule) (r r' : Rule)
    → IsValid r'
    → r'.op ≡ r.op
    → IsMerged (before ++ r ∷ after)
    → IsMerged (before ++ r' ∷ after)
replaced-IsMerged before after r r' v e m = record {
  unique = UniqueOps-replace before after r r' e m.unique;
  catch_all = CatchAllLast-replace before after r r' e m.catch_all;
  valid = Every-middle before after r r' m.valid v;
}

add_rule-IsMerged :
    (rules : List Rule) (incoming : Rule) (out : List Rule)
    → IsMerged rules
    → add_rule rules incoming ≡ ok out
    → IsMerged out
add_rule-IsMerged rules incoming out m h =
    let (v, cases) = add_rule_cases rules out incoming h in
    elim cases [
      | inl c ↦ subst IsMerged (sym c.result) (
          Inserted-IsMerged c.before c.after incoming v c.fresh c.before_catch_all c.at_end
            (subst IsMerged c.whole m))
      | inr c ↦
          let at = c.around in
          let facts = merge_rule-RuleMerged at.base incoming c.next c.merged in
          subst IsMerged (sym c.result) (
            replaced-IsMerged at.before at.after at.base c.next (rw facts.new_mode v) facts.same_op
              (subst IsMerged at.whole m))
    ]

add_layer-IsMerged :
    (merged : Policy) (layer : Option Policy) (out : Policy)
    → IsMerged merged.rules
    → add_layer merged layer ≡ ok out
    → IsMerged out.rules
unfolding add_layer
add_layer-IsMerged merged none out m h = subst (λ (p : Policy). IsMerged p.rules) (ok-injective h) m
add_layer-IsMerged merged (some p) out m h =
    let (rules, loop, built) = >>=-eq-ok (for_each add_rule p.rules merged.rules) _ h in
    subst (λ (q : Policy). IsMerged q.rules) (ok-injective built)
      (for_each_inv add_rule IsMerged add_rule-IsMerged p.rules merged.rules rules m loop)

-- A policy merged from any layers has one rule for each selector, a catch-all only as its last
-- rule, and known modes alone.
pub merge_policies-IsMerged :
    (layers : List (Option Policy)) (out : Policy)
    → merge_policies layers ≡ ok out
    → IsMerged out.rules
unfolding merge_policies
merge_policies-IsMerged layers out h =
    for_each_inv add_layer (λ (p : Policy). IsMerged p.rules) add_layer-IsMerged layers _ out
      (record { unique = tt; catch_all = tt; valid = tt }) h
