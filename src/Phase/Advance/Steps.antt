-- ===== src/Phase/Advance/Steps.antt =====
-- `Advance` as a whole: its ways out, and when it succeeds.
use intercore.Common.{
  ℕ, ◌≡◌, refl, subst, Bool, true, false, not, ◌&&◌, some, String, str_eq, str_eq_refl, Bool-cases,
  if-false, if-true, ◌⊎◌, inl, inr,
}
use intercore.Common.Int.{ℤ}
use intercore.Common.Outcome.{Result, ok, >>=-eq-ok, ok-injective, guard-eq-ok, after-ok}
use intercore.Phase.Chain.{
  PhaseError, chain_phase_index, chain_is_terminal, is_terminal_status, terminal_run,
  terminal_phase,
}
use intercore.Phase.Chain.Order.{Distinct}
use intercore.Phase.Machine.{Run, Store, find_run, get, resolve_chain, add_event}
use intercore.Phase.Advance.{
  GateOutcome, AdvanceResult, event_of, pause_result, block_result, advance_result, record_only,
  decide, target_phase, advance, join_reason,
}
use intercore.Phase.Advance.Updates.{get-found}
use intercore.Phase.Advance.Moves.{
  Forward, target_phase-Forward, target_phase-total, Recorded, MovedTo, transition-moves,
  transition-total,
}

abbrev pub Gate : Type 0
Gate = Run → String → String → Result PhaseError GateOutcome

-- A hard failure.
abbrev pub blocks : GateOutcome → Bool
blocks g = str_eq g.result "fail" && str_eq g.tier "hard"

-- The run moved, which its gate did not block.
pub record DidMove (gate : Gate) (now : ℤ) (id : String) (store store' : Store) (run : Run)
    (r : AdvanceResult) : Type 0 where
  pub advanced : r.advanced ≡ true
  pub outcome : GateOutcome
  pub evaluated : gate run run.phase r.to_phase ≡ ok outcome
  pub not_blocked : blocks outcome ≡ false
  pub moved_to : MovedTo now id store store' run r.to_phase

-- No row changed.
pub record DidNotMove (store store' : Store) (r : AdvanceResult) : Type 0 where
  pub stayed : r.advanced ≡ false
  pub same_runs : store'.runs ≡ store.runs

pub record Outcome (gate : Gate) (now : ℤ) (id : String) (store store' : Store) (run : Run)
    (r : AdvanceResult) : Type 0 where
  pub leaves : r.from_phase ≡ run.phase
  pub forward : Forward id store run r.to_phase
  pub recorded : Recorded id store store' r
  pub rows : DidMove gate now id store store' run r ⊎ DidNotMove store store' r

module _ (gate : Gate) (now : ℤ) (id skip_reason : String) (store : Store) (run : Run)
    (found : find_run id store.runs ≡ some run) (distinct : Distinct (resolve_chain run)) where
  stayed :
      (r r' : AdvanceResult) (store' : Store)
      → r.from_phase ≡ run.phase
      → Forward id store run r.to_phase
      → r.advanced ≡ false
      → record_only id r store ≡ (store', r')
      → Outcome gate now id store store' run r'
  unfolding add_event
  stayed r r' store' l f n h =
      subst (λ p. Outcome gate now id store p.0 run p.1) h
        (record {
          leaves = l;
          forward = f;
          recorded = record {
            event = event_of id r (some r.reason);
            appended = refl;
            of_run = refl;
            leaves = refl;
            reaches = refl;
            kind = refl;
          };
          rows = inr (record { stayed = n; same_runs = refl });
        })

  decided :
      (dst : String) (g : GateOutcome) (reason : String) (r : AdvanceResult) (store' : Store)
      → Forward id store run dst
      → gate run run.phase dst ≡ ok g
      → decide now id (resolve_chain run) run.phase dst g reason store ≡ ok (store', r)
      → Outcome gate now id store store' run r
  unfolding decide
  decided dst g reason r store' f e h = elim (Bool-cases (blocks g)) [
    | inl b ↦
        stayed (block_result run.phase dst g reason) r store' refl f refl
          (ok-injective (if-true _ _ b h))
    | inr b ↦
        let move = advance_result run.phase dst g reason in
        let (same, recorded, to) =
          transition-moves now id store run found move r store' (if-false _ _ b h) in
        subst (Outcome gate now id store store' run) same (record {
          leaves = refl;
          forward = f;
          recorded = recorded;
          rows = inl (record {
            advanced = refl;
            outcome = g;
            evaluated = e;
            not_blocked = b;
            moved_to = to;
          });
        })
  ]

  -- An advance that succeeds, of a run with a chain of distinct phases, leaves the run's phase for
  -- a later one of the chain, with only skipped phases in between, that is not skipped or is the
  -- last; records one event; and changes no run, or that run alone, to that phase and, at the
  -- last phase, to completed. It moves the run only if the gate answered without a hard failure.
  pub advance-Outcome :
      (store' : Store) (r : AdvanceResult)
      → advance now gate skip_reason id store ≡ ok (store', r)
      → Outcome gate now id store store' run r
  unfolding advance
  advance-Outcome store' r h =
      let loaded = after-ok (get store id) _ (get-found now id store store run found) h in
      let (active, h1) = guard-eq-ok (is_terminal_status run.status) terminal_run _ loaded in
      let (last, h2) =
        guard-eq-ok (chain_is_terminal (resolve_chain run) run.phase) terminal_phase _ h1 in
      let (dst, target, rest) = >>=-eq-ok (target_phase id store run) _ h2 in
      let forward = target_phase-Forward id store run dst distinct target in
      elim (Bool-cases (not run.auto_advance && str_eq skip_reason "")) [
        | inl e ↦
            stayed (pause_result run.phase dst) r store' refl forward refl
              (ok-injective (if-true _ _ e rest))
        | inr e ↦
            let (g, evaluated, last) = >>=-eq-ok (gate run run.phase dst) _ (if-false _ _ e rest) in
            decided dst g (join_reason skip_reason g.evidence) r store' forward evaluated last
      ]

  decides :
      (dst : String) (g : GateOutcome) (reason : String)
      → (out : Store × AdvanceResult) × (decide now id
            (resolve_chain run)
            run.phase
            dst
            g
            reason
            store
          ≡ ok out)
  unfolding decide
  decides dst g reason = elim (Bool-cases (blocks g)) [
    | inl e ↦ (record_only id (block_result run.phase dst g reason) store, rw e refl)
    | inr e ↦
        let (out, done) =
          transition-total now id store run found (advance_result run.phase dst g reason)
            (str_eq_refl run.phase) in
        (out, rw e done)
  ]

  -- A hard failure aside, nothing stands in the way of an active run.
  pub advance-succeeds :
      (i : ℕ)
      → chain_phase_index (resolve_chain run) run.phase ≡ some i
      → is_terminal_status run.status ≡ false
      → chain_is_terminal (resolve_chain run) run.phase ≡ false
      → ((dst : String) → (g : GateOutcome) × (gate run run.phase dst ≡ ok g))
      → (out : Store × AdvanceResult) × (advance now gate skip_reason id store ≡ ok out)
  unfolding advance
  advance-succeeds i index status last gates =
      let (dst, target) = target_phase-total id store run i distinct index last in
      let (g, evaluated) = gates dst in
      let (out, done) = decides dst g (join_reason skip_reason g.evidence) in
      let loaded = get-found now id store store run found in
      elim (Bool-cases (not run.auto_advance && str_eq skip_reason "")) [
        | inl e ↦ (
          record_only id (pause_result run.phase dst) store,
          rw (loaded, status, last, target, e) refl,
        )
        | inr e ↦ (out, rw (loaded, status, last, target, e, evaluated) done)
      ]
