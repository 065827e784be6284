-- ===== src/Authz/Check/Order.antt =====
-- Go visits a map in any order: the verdict of `Evaluate` does not depend on it.
use mathlib.Core.List.{Perm, Permᴰ}
use mathlib.Core.Logic.{∥∥₁_elim}
use intercore.Common.{
  ◌≡◌, refl, sym, inl, inr, Option-cases, ◌∙◌, ◌↔◌, Bool, true, false, none, some, [], ◌∷◌, String,
  arith,
}
use mathlib.Core.Bool.{false≢true}
use intercore.Common.Int.{ℤ}
use intercore.Common.Dict.{Dict}
use intercore.Common.Every.{Every}
use intercore.Authz.Policy.{Value, Rule}
use intercore.Authz.Check.{CheckInput, Reason, requirement, evaluate_all, evaluate, with_now}

Bool-set : IsSet Bool
Bool-set = hlevel

evaluate_all-met :
    (input : CheckInput) (key : String) (raw : Value) (rest : Dict Value)
    → requirement input key raw ≡ none
    → evaluate_all input ((key, raw) ∷ rest) ≡ evaluate_all input rest
unfolding evaluate_all
evaluate_all-met input key raw rest e = rw (e, evaluate_all) refl

evaluate_all-unmet :
    (input : CheckInput) (key : String) (raw : Value) (rest : Dict Value) {reason : Reason}
    → requirement input key raw ≡ some reason
    → (evaluate_all input ((key, raw) ∷ rest)).0 ≡ false
unfolding evaluate_all
evaluate_all-unmet input key raw rest e = rw (e, evaluate_all) refl

-- The loop accepts exactly when each entry passes by itself.
evaluate_all_iff :
    (input : CheckInput) (entries : Dict Value)
    → ((evaluate_all input entries).0 ≡ true)
      ↔ Every (λ e. requirement input e.0 e.1 ≡ none) entries
evaluate_all_iff input [] = (λ h. tt, λ h. unfold evaluate_all in refl)
evaluate_all_iff input ((key, raw) ∷ rest) = elim (Option-cases (requirement input key raw)) [
  | inl e ↦
      rw (evaluate_all-met input key raw rest e)
        (λ h. (e, (evaluate_all_iff input rest).0 h), λ h. (evaluate_all_iff input rest).1 h.1)
  | inr (reason, e) ↦
      (λ h. absurd (false≢true (sym (evaluate_all-unmet input key raw rest e) ∙ h)), λ h. cc (h.0))
]

evaluate_all-permᴰ :
    (input : CheckInput) {xs ys : Dict Value}
    → Permᴰ xs ys
    → (evaluate_all input xs).0 ≡ (evaluate_all input ys).0
unfolding evaluate_all
evaluate_all-permᴰ input Permᴰ.nil = refl
evaluate_all-permᴰ input (Permᴰ.cons {a = x} {b = y} e p) =
    ground (arith, evaluate_all-permᴰ input p)
evaluate_all-permᴰ input (Permᴰ.swap {a = x} {b = y} e f) = ground arith
evaluate_all-permᴰ input (Permᴰ.trans p q) = evaluate_all-permᴰ input p ∙ evaluate_all-permᴰ input q

evaluate-loop :
    (wall : ℤ) (rule : Rule) (input : CheckInput) (entries : Dict Value)
    → rule.requires ≡ entries
    → (evaluate wall rule input).0 ≡ (evaluate_all (with_now wall input) entries).0
unfolding evaluate
evaluate-loop wall rule input [] e = rw e
evaluate-loop wall rule input (x ∷ rest) e = rw e

-- The verdict is the same for two rules whose requirements are the same entries in any order.
pub evaluate-perm :
    (wall : ℤ) (rule rule' : Rule) (input : CheckInput)
    → Perm rule.requires rule'.requires
    → (evaluate wall rule input).0 ≡ (evaluate wall rule' input).0
evaluate-perm wall rule rule' input p =
    evaluate-loop wall rule input rule.requires refl
    ∙ ∥∥₁_elim p (Bool-set _ _) (evaluate_all-permᴰ (with_now wall input))
    ∙ sym (evaluate-loop wall rule' input rule'.requires refl)

-- The verdict is positive exactly when every requirement of the rule is met.
pub evaluate_iff :
    (wall : ℤ) (rule : Rule) (input : CheckInput)
    → ((evaluate wall rule input).0 ≡ true)
      ↔ Every (λ e. requirement (with_now wall input) e.0 e.1 ≡ none) rule.requires
evaluate_iff wall rule input =
    rw (evaluate-loop wall rule input rule.requires refl)
      (evaluate_all_iff (with_now wall input) rule.requires)
