-- ===== src/Phase/Advance/Moves.antt =====
-- What `Advance` does on each of its ways out.
use intercore.Common.{
  ℕ, suc, ◌≡◌, refl, sym, ap, ◌∙◌, true, false, some, [], ◌∷◌, ◌++◌, String, str_eq, arith,
  if◌then◌else◌, length, Bool-cases, if-true, if-false, inl, inr,
}
use intercore.Common.Int.{ℤ}
use intercore.Common.Outcome.{Result, ok, >>=-eq-ok, ok-injective}
use intercore.Phase.Chain.{
  PhaseError, chain_next_phase, chain_phase_index, chain_is_terminal, status_completed,
}
use intercore.Phase.Chain.Order.{Distinct, index-next, next-step}
use intercore.Phase.Machine.{
  Run, PhaseEvent, Store, find_run, resolve_chain, update_phase, update_status, set_status,
  add_event, skipped_in, str_ptr_or_nil,
}
use intercore.Phase.Advance.{AdvanceResult, event_of, transition, target_phase}
use intercore.Phase.Advance.Walk.{Passed, skip_walk-Passed, skip_walk-total}
use intercore.Phase.Advance.Updates.{
  update_phase-Changed, update_phase-total, update_status-Changed, update_status-total,
}

-- Where a run goes: forward, past skipped phases only, to one that is not skipped or is the last.
pub record Forward (id : String) (store : Store) (run : Run) (dst : String) : Type 0 where
  pub position : ℕ
  pub at : chain_phase_index (resolve_chain run) run.phase ≡ some position
  pub passed : Passed (resolve_chain run) (skipped_in id store.events) (suc position) dst

pub target_phase-Forward :
    (id : String) (store : Store) (run : Run) (dst : String)
    → Distinct (resolve_chain run)
    → target_phase id store run ≡ ok dst
    → Forward id store run dst
unfolding target_phase
target_phase-Forward id store run dst d h =
    let (next, found, walk) = >>=-eq-ok (chain_next_phase (resolve_chain run) run.phase) _ h in
    let (i, ip, iq) = index-next (resolve_chain run) run.phase next d found in
    record {
      position = i;
      at = ip;
      passed =
          skip_walk-Passed (resolve_chain run) (skipped_in id store.events) d
            (length (resolve_chain run)) next (suc i) dst iq walk;
    }

-- A run that is not at its last phase has a target.
pub target_phase-total :
    (id : String) (store : Store) (run : Run) (i : ℕ)
    → Distinct (resolve_chain run)
    → chain_phase_index (resolve_chain run) run.phase ≡ some i
    → chain_is_terminal (resolve_chain run) run.phase ≡ false
    → (dst : String) × (target_phase id store run ≡ ok dst)
unfolding target_phase
target_phase-total id store run i d h t =
    let (next, found, index) = next-step (resolve_chain run) run.phase i d h t in
    let (dst, walk) =
      skip_walk-total (resolve_chain run) (skipped_in id store.events) d
        (length (resolve_chain run)) next (suc i) index (omega arith) in
    (dst, rw found walk)

-- The run after a move to `dst`.
abbrev pub moved : ℤ → Run → String → Run
moved now run dst =
    let there = record run { phase = dst; updated_at = now } in
    if chain_is_terminal (resolve_chain run) dst
    then set_status now status_completed there
    else there

-- One event more, the last of the trail.
pub record Recorded (id : String) (store store' : Store) (r : AdvanceResult) : Type 0 where
  pub event : PhaseEvent
  pub appended : store'.events ≡ store.events ++ event ∷ []
  pub of_run : event.run_id ≡ id
  pub leaves : event.from_phase ≡ r.from_phase
  pub reaches : event.to_phase ≡ r.to_phase
  pub kind : event.event_type ≡ r.event_type

pub record MovedTo (now : ℤ) (id : String) (store store' : Store) (run : Run) (dst : String)
    : Type 0 where
  pub own : find_run id store'.runs ≡ some (moved now run dst)
  pub others :
      (other : String)
      → str_eq id other ≡ false
      → find_run other store'.runs ≡ find_run other store.runs

module _ (now : ℤ) (id : String) (store : Store) (run : Run)
    (found : find_run id store.runs ≡ some run) where
  pub transition-moves :
      (r r' : AdvanceResult) (store' : Store)
      → transition now id (resolve_chain run) r store ≡ ok (store', r')
      → (r ≡ r') × Recorded id store store' r × MovedTo now id store store' run r.to_phase
  unfolding transition add_event
  transition-moves r r' store' h =
      let (mid, first, rest) = >>=-eq-ok (update_phase now id r.from_phase r.to_phase store) _ h in
      let (changed, same) =
        update_phase-Changed now id store mid run found r.from_phase r.to_phase first in
      elim (Bool-cases (chain_is_terminal (resolve_chain run) r.to_phase)) [
        | inl e ↦
            let (set, second, done) =
              >>=-eq-ok (update_status now id status_completed (add_event event mid)) _
                (if-true _ _ e rest) in
            let final =
              update_status-Changed now id (add_event event mid) set there changed.own
                status_completed second in
            (
              same_result done,
              recorded done (final.same_events ∙ ap (λ es. es ++ event ∷ []) changed.same_events),
              lands done (final.own ∙ rw e refl)
                  (λ other n. final.others other n ∙ changed.others other n),
            )
        | inr e ↦
            let done = if-false _ _ e rest in
            (
              same_result done,
              recorded done (ap (λ es. es ++ event ∷ []) changed.same_events),
              lands done (changed.own ∙ rw e refl) (λ other n. changed.others other n),
            )
      ]
    where
      event : PhaseEvent
      event = event_of id r (str_ptr_or_nil r.reason)

      there : Run
      there = record run { phase = r.to_phase; updated_at = now }

      same_result :
          {s : Store}
          → ◌≡◌ {A = Result PhaseError (Store × AdvanceResult)} (ok (s, r)) (ok (store', r'))
          → r ≡ r'
      same_result done = ap (λ p. p.1) (ok-injective done)

      recorded :
          {s : Store}
          → ◌≡◌ {A = Result PhaseError (Store × AdvanceResult)} (ok (s, r)) (ok (store', r'))
          → s.events ≡ store.events ++ event ∷ []
          → Recorded id store store' r
      recorded done h = record {
        event = event;
        appended = sym (ap (λ p. p.0.events) (ok-injective done)) ∙ h;
        of_run = refl;
        leaves = refl;
        reaches = refl;
        kind = refl;
      }

      lands :
          {s : Store}
          → ◌≡◌ {A = Result PhaseError (Store × AdvanceResult)} (ok (s, r)) (ok (store', r'))
          → find_run id s.runs ≡ some (moved now run r.to_phase)
          → ((other : String)
              → str_eq id other ≡ false
              → find_run other s.runs ≡ find_run other store.runs)
          → MovedTo now id store store' run r.to_phase
      lands done own others = record {
        own = sym (ap (λ p. find_run id p.0.runs) (ok-injective done)) ∙ own;
        others =
            λ other n. sym (ap (λ p. find_run other p.0.runs) (ok-injective done)) ∙ others other n;
      }

  pub transition-total :
      (r : AdvanceResult)
      → str_eq run.phase r.from_phase ≡ true
      → (out : Store × AdvanceResult) × (transition now id (resolve_chain run) r store ≡ ok out)
  unfolding transition add_event
  transition-total r same =
      let event = event_of id r (str_ptr_or_nil r.reason) in
      let there : Run = record run { phase = r.to_phase; updated_at = now } in
      let (mid, first) =
        update_phase-total now id store store run found r.from_phase r.to_phase same in
      let (changed, at) =
        update_phase-Changed now id store mid run found r.from_phase r.to_phase first in
      let (set, second) =
        update_status-total now id (add_event event mid) mid there changed.own status_completed in
      elim (Bool-cases (chain_is_terminal (resolve_chain run) r.to_phase)) [
        | inl e ↦ ((set, r), rw (first, e, second) refl)
        | inr e ↦ ((add_event event mid, r), rw (first, e) refl)
      ]
