-- ===== src/Phase/Advance/Rewind.antt =====
-- `Rollback`: what it changes, and that it takes back an advance.
use intercore.Common.{
  ℕ, suc, ◌-◌, ◌<◌, ◌≡◌, ◌≢◌, refl, sym, ap, subst, ◌∙◌, Bool, true, false, not, ◌&&◌, ◌||◌, Option,
  none, some, List, [], ◌∷◌, ◌++◌, String, str_eq, str_eq_refl, arith, leb, Bool-cases, if-false,
  if-true, take, drop, ◌⊎◌, inl, inr,
}
use mathlib.Core.Bool.{false≢true}
use mathlib.Core.Option.{some_inj}
use intercore.Common.Int.{ℤ}
use intercore.Common.Outcome.{ok, >>=-eq-ok, ok-injective, after-ok}
use intercore.Phase.Chain.{
  chain_phase_index, chain_phases_between, span, chain_is_terminal, is_terminal_status,
  status_active, status_cancelled, status_failed,
}
use intercore.Phase.Chain.Order.{Distinct}
use intercore.Phase.Machine.{
  Run, Store, find_run, get, resolve_chain, rollback_phase, rewind, may_rewind, add_event,
}
use intercore.Phase.Advance.{
  RollbackResult, rollback, rewind_to, rollback_event, AdvanceResult, advance,
}
use intercore.Phase.Advance.Updates.{get-found, rollback_phase-Changed, rollback_phase-total}
use intercore.Phase.Advance.Moves.{moved}
use intercore.Phase.Advance.Steps.{Gate, DidMove, DidNotMove, advance-Outcome}

-- The phases between two indices, the second included.
pub record Between (chain : List String) (src dst : String) (phases : List String) : Type 0 where
  pub first : ℕ
  pub last : ℕ
  pub at_first : chain_phase_index chain src ≡ some first
  pub at_last : chain_phase_index chain dst ≡ some last
  pub ascending : first < last
  pub cut : phases ≡ take (last - first) (drop (suc first) chain)

span-some :
    (chain : List String) (src dst : Option ℕ) (phases : List String)
    → span chain src dst ≡ some phases
    → (i : ℕ) × (j : ℕ) × (src ≡ some i)
      × (dst ≡ some j)
      × (i < j)
      × (phases ≡ take (j - i) (drop (suc i) chain))
span-some chain none dst phases h = cc
span-some chain (some i) none phases h = cc
span-some chain (some i) (some j) phases h = elim (Bool-cases (leb j i)) [
  | inl e ↦ absurd (none≢some (if-true none (some (take (j - i) (drop (suc i) chain))) e h))
  | inr e ↦ (
    i,
    j,
    refl,
    refl,
    ground arith,
    sym (some_inj.0 (if-false none (some (take (j - i) (drop (suc i) chain))) e h)),
  )
]
  where
    none≢some : none ≢ some phases
    none≢some e = cc

chain_phases-Between :
    (chain : List String) (src dst : String) (phases : List String)
    → chain_phases_between chain src dst ≡ some phases
    → Between chain src dst phases
unfolding chain_phases_between
chain_phases-Between chain src dst phases h =
    let (i, j, e, f, lt, cut) =
      span-some chain (chain_phase_index chain src) (chain_phase_index chain dst) phases h in
    record { first = i; last = j; at_first = e; at_last = f; ascending = lt; cut = cut }

-- Two phases in order have the phases between them.
phases-total :
    (chain : List String) (src dst : String) (i j : ℕ)
    → chain_phase_index chain src ≡ some i
    → chain_phase_index chain dst ≡ some j
    → i < j
    → chain_phases_between chain src dst ≡ some (take (j - i) (drop (suc i) chain))
unfolding chain_phases_between
phases-total chain src dst i j h k lt = rw (h, k) (ground arith)

-- A rollback that was done.
pub record RolledBack (now : ℤ) (id target : String) (store store' : Store) (run : Run)
    (r : RollbackResult) : Type 0 where
  pub between : Between (resolve_chain run) target run.phase r.rolled_back_phases
  pub not_final : (str_eq run.status status_cancelled || str_eq run.status status_failed) ≡ false
  pub own : find_run id store'.runs ≡ some (rewind now target run)
  pub others :
      (other : String)
      → str_eq id other ≡ false
      → find_run other store'.runs ≡ find_run other store.runs
  pub appended : store'.events ≡ store.events ++ rollback_event id r ∷ []

module _ (now : ℤ) (id target reason : String) (store : Store) (run : Run)
    (found : find_run id store.runs ≡ some run) where
  rewind_to-RolledBack :
      (o : Option (List String)) (store' : Store) (r : RollbackResult)
      → chain_phases_between (resolve_chain run) target run.phase ≡ o
      → rewind_to now id target reason run store o ≡ ok (store', r)
      → RolledBack now id target store store' run r
  unfolding rewind_to add_event
  rewind_to-RolledBack none store' r e h = cc
  rewind_to-RolledBack (some phases) store' r e h =
      let (mid, first, done) = >>=-eq-ok (rollback_phase now id run.phase target store) _ h in
      let (changed, guard) =
        rollback_phase-Changed now id store mid run found run.phase target first in
      subst (λ p. RolledBack now id target store p.0 run p.1) (ok-injective done)
        (record {
          between = chain_phases-Between (resolve_chain run) target run.phase phases e;
          not_final = may-live (str_eq run.phase run.phase) _ guard;
          own = changed.own;
          others = changed.others;
          appended = ap (λ es. es ++ rollback_event id made ∷ []) changed.same_events;
        })
    where
      made : RollbackResult
      made = record {
        from_phase = run.phase;
        to_phase = target;
        rolled_back_phases = phases;
        reason = reason;
      }

      may-live : (a b : Bool) → (a && not b) ≡ true → b ≡ false
      may-live a b h = ground arith

  pub rollback-RolledBack :
      (store' : Store) (r : RollbackResult)
      → rollback now id target reason store ≡ ok (store', r)
      → RolledBack now id target store store' run r
  unfolding rollback
  rollback-RolledBack store' r h =
      rewind_to-RolledBack (chain_phases_between (resolve_chain run) target run.phase) store' r refl
        (after-ok (get store id) _ (get-found now id store store run found) h)

  -- A phase behind the current one can always be gone back to, unless the run was given up.
  pub rollback-succeeds :
      (i j : ℕ)
      → chain_phase_index (resolve_chain run) target ≡ some i
      → chain_phase_index (resolve_chain run) run.phase ≡ some j
      → i < j
      → (str_eq run.status status_cancelled || str_eq run.status status_failed) ≡ false
      → (out : Store × RollbackResult) × (rollback now id target reason store ≡ ok out)
  unfolding rollback rewind_to
  rollback-succeeds i j h k lt live =
      let may : may_rewind run.phase run ≡ true = rw (str_eq_refl run.phase, live) refl in
      let (back, done) = rollback_phase-total now id store store run found run.phase target may in
      let phases = take (j - i) (drop (suc i) (resolve_chain run)) in
      let between = phases-total (resolve_chain run) target run.phase i j h k lt in
      let loaded = get-found now id store store run found in
      let r : RollbackResult = record {
        from_phase = run.phase;
        to_phase = target;
        rolled_back_phases = phases;
        reason = reason;
      } in
      ((add_event (rollback_event id r) back, r), rw (loaded, between, done) refl)

moved-chain :
    (now : ℤ) (run : Run) (dst : String) → resolve_chain (moved now run dst) ≡ resolve_chain run
unfolding resolve_chain
moved-chain now run dst = elim (Bool-cases (chain_is_terminal (resolve_chain run) dst)) [
  | inl e ↦ rw e refl
  | inr e ↦ rw e refl
]

moved-phase : (now : ℤ) (run : Run) (dst : String) → (moved now run dst).phase ≡ dst
moved-phase now run dst = elim (Bool-cases (chain_is_terminal (resolve_chain run) dst)) [
  | inl e ↦ rw e refl
  | inr e ↦ rw e refl
]

-- An advance leaves the run where a rollback can take it back.
moved-live :
    (now : ℤ) (run : Run) (dst : String)
    → (str_eq run.status status_cancelled || str_eq run.status status_failed) ≡ false
    → (str_eq (moved now run dst).status status_cancelled
        || str_eq (moved now run dst).status status_failed)
      ≡ false
moved-live now run dst h = elim (Bool-cases (chain_is_terminal (resolve_chain run) dst)) [
  | inl e ↦ rw e refl
  | inr e ↦ rw e h
]

active-live :
    (status : String)
    → is_terminal_status status ≡ false
    → (str_eq status status_cancelled || str_eq status status_failed) ≡ false
unfolding is_terminal_status
active-live status h = ground arith

module _ (gate : Gate) (now later : ℤ) (id skip_reason reason : String) (store store' : Store)
    (run : Run) (r : AdvanceResult) (found : find_run id store.runs ≡ some run)
    (distinct : Distinct (resolve_chain run)) where
  -- After an advance that moved the run, whose status was not final and whose chain has distinct
  -- phases, a rollback to the phase that it left succeeds, and
  -- gives the run that phase and the status `active` again.
  pub rollback-advance :
      is_terminal_status run.status ≡ false
      → advance now gate skip_reason id store ≡ ok (store', r)
      → r.advanced ≡ true
      → (out : Store × RollbackResult) × (rollback later id r.from_phase reason store' ≡ ok out)
        × ((back : Run) × (find_run id out.0.runs ≡ some back)
            × (back.phase ≡ run.phase)
            × (back.status ≡ status_active))
  rollback-advance active h adv =
      let o = advance-Outcome gate now id skip_reason store run found distinct store' r h in
      let there = moved now run r.to_phase in
      let own = own_row o.rows in
      let chain = moved-chain now run r.to_phase in
      let p = o.forward.passed in
      let (out, done) =
        rollback-succeeds later id r.from_phase reason store' there own o.forward.position p.index
          (rw chain (ap (chain_phase_index (resolve_chain run)) o.leaves ∙ o.forward.at))
          (rw (chain, moved-phase now run r.to_phase) p.found) p.forward
          (moved-live now run r.to_phase (active-live run.status active)) in
      let back =
        rollback-RolledBack later id r.from_phase reason store' there own out.0 out.1 done in
      (out, done, (rewind later r.from_phase there, back.own, o.leaves, refl))
    where
      own_row :
          DidMove gate now id store store' run r ⊎ DidNotMove store store' r
          → find_run id store'.runs ≡ some (moved now run r.to_phase)
      own_row (inl m) = m.moved_to.own
      own_row (inr n) = absurd (false≢true (sym n.stayed ∙ adv))
