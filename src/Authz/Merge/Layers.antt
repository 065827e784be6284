-- ===== src/Authz/Merge/Layers.antt =====
-- One round of `MergePolicies` either inserts a rule or merges it into the one for its selector.
use mathlib.Core.List.{append-nil}
use mathlib.Core.Path.{ap₂}
use mathlib.Core.Bool.{false≢true}
use intercore.Common.{
  ℕ, ◌≡◌, refl, sym, ◌∙◌, ap, subst, ◌⊎◌, inl, inr, true, false, not, ◌||◌, Option, none, some,
  List, [], ◌∷◌, ◌++◌, String, arith, str_eq, str_eq_iff, Bool-cases, get_elem?,
}
use intercore.Common.Outcome.{guard-eq-ok, Result, ok, err, >>=-eq-ok}
use intercore.Authz.Policy.{Rule}
use intercore.Authz.Merge.{
  find_rule_by_op, insert_rule, add_rule, is_valid_mode, MergeError, place, merge_same, merge_into,
  insert_or_merge, merge_rule, merge_requires, validate_mode_transition, wrap_error,
}
use intercore.Authz.Merge.Rules.{IsAbsent, Around, find-Around, find-IsAbsent}

pub record Inserted (rules : List Rule) (incoming : Rule) (out : List Rule) : Type 0 where
  pub before : List Rule
  pub after : List Rule
  pub whole : rules ≡ before ++ after
  pub result : out ≡ before ++ incoming ∷ after
  pub fresh : IsAbsent incoming.op (before ++ after)
  pub before_catch_all : IsAbsent "*" before
  pub at_end : str_eq incoming.op "*" ≡ true → after ≡ []

pub record Updated (rules : List Rule) (incoming : Rule) (out : List Rule) : Type 0 where
  pub idx : ℕ
  pub around : Around incoming.op rules idx
  pub next : Rule
  pub merged : merge_rule around.base incoming ≡ ok next
  pub result : out ≡ around.before ++ next ∷ around.after

-- What a successful merge of two rules keeps and takes.
pub record RuleMerged (base incoming next : Rule) : Type 0 where
  pub same_op : next.op ≡ base.op
  pub new_mode : next.mode ≡ incoming.mode
  pub overridable : next.allow_override ≡ (base.allow_override || incoming.allow_override)
  pub allowed : (u : Unit {0}) × (validate_mode_transition base incoming ≡ ok u)
  pub required :
      merge_requires base.requires incoming.requires base.allow_override ≡ ok next.requires

wrap_error-eq-ok :
    {A : Type 0} (op : String) (r : Result MergeError A) {a : A} → wrap_error op r ≡ ok a → r ≡ ok a
wrap_error-eq-ok op (ok a) h = h
wrap_error-eq-ok op (err e) h = cc

pub merge_rule-RuleMerged :
    (base incoming next : Rule) → merge_rule base incoming ≡ ok next → RuleMerged base incoming next
unfolding merge_rule
merge_rule-RuleMerged base incoming next h =
    let (same, body) = guard-eq-ok _ _ (merge_same base incoming) h in
    let (u, allowed, merges) = >>=-eq-ok (validate_mode_transition base incoming) _ body in
    let (requires, required, built) =
      >>=-eq-ok
        (wrap_error base.op (merge_requires base.requires incoming.requires base.allow_override)) _
        merges in
    record {
      same_op = cc;
      new_mode = cc;
      overridable = cc;
      allowed = (u, allowed);
      required = cc (wrap_error-eq-ok base.op _ required);
    }

place-Inserted :
    (rules : List Rule) (incoming : Rule) (found : Option ℕ)
    → find_rule_by_op rules "*" ≡ found
    → IsAbsent incoming.op rules
    → str_eq incoming.op "*" ≡ false
    → Inserted rules incoming (place rules incoming found)
place-Inserted rules incoming none f a other = record {
  before = rules;
  after = [];
  whole = sym (append-nil rules);
  result = refl;
  fresh = rw append-nil a;
  before_catch_all = find-IsAbsent "*" rules f;
  at_end = λ star. refl;
}
place-Inserted rules incoming (some i) f a other =
    let at = find-Around "*" rules i f in
    record {
      before = at.before;
      after = at.base ∷ at.after;
      whole = at.whole;
      result = ap₂ (λ l r. l ++ incoming ∷ r) at.taken at.rest;
      fresh = rw at.whole at a;
      before_catch_all = at.absent;
      at_end = λ star. absurd (false≢true (sym other ∙ star));
    }

insert_rule-Inserted :
    (rules : List Rule) (incoming : Rule)
    → IsAbsent incoming.op rules
    → Inserted rules incoming (insert_rule rules incoming)
unfolding insert_rule
insert_rule-Inserted rules incoming a = elim (Bool-cases (str_eq incoming.op "*")) [
  | inl star ↦ rw star (record {
    before = rules;
    after = [];
    whole = sym (append-nil rules);
    result = refl;
    fresh = rw append-nil a;
    before_catch_all = subst (λ op. IsAbsent op rules) ((str_eq_iff incoming.op "*").0 star) a;
    at_end = λ _. refl;
  })
  | inr other ↦ rw other (place-Inserted rules incoming (find_rule_by_op rules "*") refl a other)
]

updated :
    (rules out : List Rule) (incoming : Rule) (i : ℕ)
    → find_rule_by_op rules incoming.op ≡ some i
    → merge_into rules incoming i (get_elem? rules i) ≡ ok out
    → Updated rules incoming out
updated rules out incoming i f h =
    let at = find-Around incoming.op rules i f in
    let merging = ap (merge_into rules incoming i) (sym at.got) ∙ h in
    let (next, merged, set) = >>=-eq-ok (merge_rule at.base incoming) _ merging in
    record { idx = i; around = at; next = next; merged = merged; result = cc (at.replaced next) }

-- A round that succeeds had a rule with a known mode, and inserted or merged it.
pub add_rule_cases :
    (rules out : List Rule) (incoming : Rule)
    → add_rule rules incoming ≡ ok out
    → (is_valid_mode incoming.mode ≡ true)
      × (Inserted rules incoming out ⊎ Updated rules incoming out)
unfolding add_rule
add_rule_cases rules out incoming h =
    let (named, checked) = guard-eq-ok (str_eq incoming.op "") _ _ h in
    let (valid, done) = guard-eq-ok (not (is_valid_mode incoming.mode)) _ _ checked in
    (ground arith, found (find_rule_by_op rules incoming.op) refl done)
  where
    found :
        (f : Option ℕ)
        → find_rule_by_op rules incoming.op ≡ f
        → insert_or_merge rules incoming f ≡ ok out
        → Inserted rules incoming out ⊎ Updated rules incoming out
    found none f e = inl (
        subst (Inserted rules incoming) (cc)
          (insert_rule-Inserted rules incoming (find-IsAbsent incoming.op rules f)))
    found (some i) f e = inr (updated rules out incoming i f e)
