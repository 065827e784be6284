-- ===== src/Phase/Skips.antt =====
-- A phase that was skipped is passed.
use intercore.Common.{
  ◌≡◌, refl, sym, ap, subst, ◌∙◌, true, false, not, some, List, [], ◌∷◌, ◌++◌, String, str_eq,
  str_eq_refl, str_eq_iff, Bool-cases, inl, inr, ◌⊎◌, arith,
}
use mathlib.Core.Bool.{false≢true}
use intercore.Common.Int.{ℤ, pos}
use intercore.Common.Outcome.{ok, ok-injective, guard-eq-ok, after-ok}
use intercore.Phase.Chain.{
  chain_is_terminal, is_terminal_status, not_in_chain, not_ahead, cannot_skip_terminal,
  terminal_run, chain_contains, chain_is_valid_transition,
}
use intercore.Phase.Chain.Order.{Distinct}
use intercore.Phase.Machine.{
  Run, PhaseEvent, Store, find_run, get, resolve_chain, add_event, skipped_in,
}
use intercore.Phase.Advance.{AdvanceResult, advance, skip_phase}
use intercore.Phase.Advance.Updates.{get-found}
use intercore.Phase.Advance.Steps.{Gate, advance-Outcome}
use intercore.Phase.Lifecycle.{skip_phase-runs}

skipped_in-append :
    (id p : String) (events : List PhaseEvent) (e : PhaseEvent)
    → str_eq e.run_id id ≡ true
    → str_eq e.event_type "skip" ≡ true
    → str_eq e.to_phase p ≡ true
    → skipped_in id (events ++ e ∷ []) p ≡ true
unfolding skipped_in
skipped_in-append id p [] e a b c = rw (a, b, c) refl
skipped_in-append id p (x ∷ events) e a b c = ground (arith, skipped_in-append id p events e a b c)

module _ (id target reason actor : String) (store mid : Store) (run : Run)
    (found : find_run id store.runs ≡ some run)
    (skipped : skip_phase id target reason actor store ≡ ok mid) where
  skip_phase-records :
      (skipped_in id mid.events target ≡ true)
      × (chain_is_terminal (resolve_chain run) target ≡ false)
  unfolding skip_phase add_event
  skip_phase-records =
      let h = after-ok (get store id) _ (get-found (pos 0) id store store run found) skipped in
      let (a, h1) = guard-eq-ok (is_terminal_status run.status) terminal_run _ h in
      let (b, h2) =
        guard-eq-ok (not (chain_contains (resolve_chain run) target)) (not_in_chain target) _ h1 in
      let (c, h3) =
        guard-eq-ok (not (chain_is_valid_transition (resolve_chain run) run.phase target))
          (not_ahead target) _ h2 in
      let (d, h4) =
        guard-eq-ok (chain_is_terminal (resolve_chain run) target) (cannot_skip_terminal target) _
          h3 in
      (
        subst (λ (s : Store). skipped_in id s.events target ≡ true) (ok-injective h4)
            (skipped_in-append id target store.events _ (str_eq_refl id) refl (str_eq_refl target)),
        d,
      )

  -- After a skip that succeeds, an advance of the run that succeeds does not stop at that phase, if
  -- the phases of the chain are distinct.
  pub skip-advance :
      (gate : Gate) (now : ℤ) (skip_reason : String) (store' : Store) (r : AdvanceResult)
      → Distinct (resolve_chain run)
      → advance now gate skip_reason id mid ≡ ok (store', r)
      → str_eq r.to_phase target ≡ false
  skip-advance gate now skip_reason store' r distinct h =
      let there : find_run id mid.runs ≡ some run =
        ap (find_run id) (skip_phase-runs id target reason actor store mid skipped) ∙ found in
      let o = advance-Outcome gate now id skip_reason mid run there distinct store' r h in
      elim (Bool-cases (str_eq r.to_phase target)) [
        | inr e ↦ e
        | inl e ↦ absurd (
            stops (
              subst
                (λ p.
                  (skipped_in id mid.events p ≡ false)
                  ⊎ (chain_is_terminal (resolve_chain run) p ≡ true))
                ((str_eq_iff r.to_phase target).0 e) o.forward.passed.stops))
      ]
    where
      stops :
          (skipped_in id mid.events target ≡ false)
            ⊎ (chain_is_terminal (resolve_chain run) target ≡ true)
          → ⊥
      stops (inl e) = false≢true (sym e ∙ skip_phase-records.0)
      stops (inr e) = false≢true (sym skip_phase-records.1 ∙ e)
