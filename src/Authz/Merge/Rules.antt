-- ===== src/Authz/Merge/Rules.antt =====
-- The rule list that `MergePolicies` builds: one rule for each selector, the catch-all last,
-- every mode a known one.
use intercore.Common.{
  ℕ, zero, suc, ◌≡◌, ◌≢◌, refl, sym, ◌∙◌, ap, true, false, Option, none, some, List, [], ◌∷◌, ◌++◌,
  String, arith, str_eq, str_eq_iff, if◌then◌else◌, get_elem?, take, drop,
}
use mathlib.Core.Bool.{false≢true}
use intercore.Common.Every.{Every}
use intercore.Authz.Policy.{Rule}
use intercore.Authz.Merge.{find_rule_by_op, set_rule, is_valid_mode}

-- The first rule for a selector.
abbrev pub rule_for : String → List Rule → Option Rule
rule_for op [] = none
rule_for op (r ∷ rules) = if str_eq r.op op then some r else rule_for op rules

abbrev pub IsAbsent : String → List Rule → Type 0
IsAbsent op rules = Every (λ (r : Rule). str_eq r.op op ≡ false) rules

abbrev pub UniqueOps : List Rule → Type 0
UniqueOps [] = Unit
UniqueOps (r ∷ rules) = IsAbsent r.op rules × UniqueOps rules

abbrev pub IsLast : List Rule → Type 0
IsLast [] = Unit
IsLast (r ∷ rules) = ⊥

abbrev pub CatchAllLast : List Rule → Type 0
CatchAllLast [] = Unit
CatchAllLast (r ∷ rules) = (str_eq r.op "*" ≡ true → rules ≡ []) × CatchAllLast rules

pub record IsMerged (rules : List Rule) : Type 0 where
  pub unique : UniqueOps rules
  pub catch_all : CatchAllLast rules
  pub valid : Every (λ (r : Rule). is_valid_mode r.mode ≡ true) rules

find-cons_none :
    (op : String) (r : Rule) (rules : List Rule)
    → find_rule_by_op (r ∷ rules) op ≡ none
    → (str_eq r.op op ≡ false) × (find_rule_by_op rules op ≡ none)
unfolding find_rule_by_op
find-cons_none op r rules h = ground arith

find-cons_some :
    (op : String) (r : Rule) (rules : List Rule) (i : ℕ)
    → find_rule_by_op (r ∷ rules) op ≡ some (suc i)
    → (str_eq r.op op ≡ false) × (find_rule_by_op rules op ≡ some i)
unfolding find_rule_by_op
find-cons_some op r rules i h = ground arith

find-cons_zero :
    (op : String) (r : Rule) (rules : List Rule)
    → find_rule_by_op (r ∷ rules) op ≡ some 0
    → str_eq r.op op ≡ true
unfolding find_rule_by_op
find-cons_zero op r rules h = ground arith

pub find-IsAbsent :
    (op : String) (rules : List Rule) → find_rule_by_op rules op ≡ none → IsAbsent op rules
find-IsAbsent op [] h = tt
find-IsAbsent op (r ∷ rules) h =
    let (other, rest) = find-cons_none op r rules h in (other, find-IsAbsent op rules rest)

-- The list around the rule that `findRuleByOp` finds.
pub record Around (op : String) (rules : List Rule) (i : ℕ) : Type 0 where
  pub before : List Rule
  pub base : Rule
  pub after : List Rule
  pub whole : rules ≡ before ++ base ∷ after
  pub absent : IsAbsent op before
  pub named : str_eq base.op op ≡ true
  pub got : get_elem? rules i ≡ some base
  pub replaced : (next : Rule) → set_rule rules i next ≡ before ++ next ∷ after
  pub taken : take i rules ≡ before
  pub rest : drop i rules ≡ base ∷ after

pub find-Around :
    (op : String) (rules : List Rule) (i : ℕ)
    → find_rule_by_op rules op ≡ some i
    → Around op rules i
unfolding set_rule
find-Around op [] i h = absurd (find_nil h)
  where
    find_nil : find_rule_by_op [] op ≡ some i → ⊥
    find_nil e = unfold find_rule_by_op in (cc)
find-Around op (r ∷ rules) zero h = record {
  before = [];
  base = r;
  after = rules;
  whole = refl;
  absent = tt;
  named = find-cons_zero op r rules h;
  got = refl;
  replaced = λ next. refl;
  taken = refl;
  rest = refl;
}
find-Around op (r ∷ rules) (suc i) h =
    let (other, found) = find-cons_some op r rules i h in
    let ih = find-Around op rules i found in
    record {
      before = r ∷ ih.before;
      base = ih.base;
      after = ih.after;
      whole = ap (λ l. r ∷ l) ih.whole;
      absent = (other, ih.absent);
      named = ih.named;
      got = ih.got;
      replaced = λ next. ap (λ l. r ∷ l) (ih.replaced next);
      taken = ap (λ l. r ∷ l) ih.taken;
      rest = ih.rest;
    }

str_eq_sym : (s t : String) → str_eq s t ≡ false → str_eq t s ≡ false
str_eq_sym s t h = ground (arith, str_eq_iff s t, str_eq_iff t s)

-- A rule under a selector that is not there yet.
pub UniqueOps-insert :
    (before after : List Rule) (r : Rule)
    → UniqueOps (before ++ after)
    → IsAbsent r.op (before ++ after)
    → UniqueOps (before ++ r ∷ after)
UniqueOps-insert [] after r u a = (a, u)
UniqueOps-insert (x ∷ before) after r u a = (
  IsAbsent-insert x.op before after u.0 (str_eq_sym x.op r.op a.0),
  UniqueOps-insert before after r u.1 a.1,
)
  where
    IsAbsent-insert :
        (op : String) (before after : List Rule)
        → IsAbsent op (before ++ after)
        → str_eq r.op op ≡ false
        → IsAbsent op (before ++ r ∷ after)
    IsAbsent-insert op [] after h e = (e, h)
    IsAbsent-insert op (y ∷ before) after h e = (h.0, IsAbsent-insert op before after h.1 e)

-- A rule in the place of one with the same selector.
pub UniqueOps-replace :
    (before after : List Rule) (r r' : Rule)
    → r'.op ≡ r.op
    → UniqueOps (before ++ r ∷ after)
    → UniqueOps (before ++ r' ∷ after)
UniqueOps-replace [] after r r' e u = (rw e u.0, u.1)
UniqueOps-replace (x ∷ before) after r r' e u =
    (IsAbsent-replace x.op before u.0, UniqueOps-replace before after r r' e u.1)
  where
    IsAbsent-replace :
        (op : String) (before : List Rule)
        → IsAbsent op (before ++ r ∷ after)
        → IsAbsent op (before ++ r' ∷ after)
    IsAbsent-replace op [] h = (rw e h.0, h.1)
    IsAbsent-replace op (y ∷ before) h = (h.0, IsAbsent-replace op before h.1)

pub CatchAllLast-append :
    (before tail : List Rule)
    → IsAbsent "*" before
    → CatchAllLast tail
    → CatchAllLast (before ++ tail)
CatchAllLast-append [] tail a c = c
CatchAllLast-append (x ∷ before) tail a c =
    (λ star. absurd (false≢true (sym a.0 ∙ star)), CatchAllLast-append before tail a.1 c)

pub CatchAllLast-drop :
    (before tail : List Rule) → CatchAllLast (before ++ tail) → CatchAllLast tail
CatchAllLast-drop [] tail c = c
CatchAllLast-drop (x ∷ before) tail c = CatchAllLast-drop before tail c.1

pub CatchAllLast-replace :
    (before after : List Rule) (r r' : Rule)
    → r'.op ≡ r.op
    → CatchAllLast (before ++ r ∷ after)
    → CatchAllLast (before ++ r' ∷ after)
CatchAllLast-replace [] after r r' e c = (λ star. c.0 (rw e at star), c.1)
CatchAllLast-replace (x ∷ before) after r r' e c =
    (λ star. absurd (not_end before (c.0 star)), CatchAllLast-replace before after r r' e c.1)
  where
    not_end : (before : List Rule) → before ++ r ∷ after ≢ []
    not_end [] h = cc
    not_end (y ∷ before) h = cc
