-- ===== src/Phase/Lifecycle.antt =====
-- The life of the runs under the operations of internal/phase.
use intercore.Common.{
  ◌≡◌, refl, sym, ap, subst, ◌∙◌, true, false, Option, none, some, String, str_eq, str_eq_iff,
  Bool-cases, inl, inr,
}
use mathlib.Core.Option.{some_inj}
use intercore.Common.Int.{ℤ}
use intercore.Common.Outcome.{Result, ok, err, ◌>>=◌, >>=-eq-ok, ok-injective, guard-eq-ok}
use intercore.Phase.Chain.{
  PhaseError, not_found, is_terminal_status, status_active, status_completed, status_cancelled,
  status_failed, not_in_chain, not_ahead, cannot_skip_terminal,
}
use intercore.Phase.Machine.{
  Run, Store, find_run, get, update_status, set_status, rewind, add_event,
}
use intercore.Phase.Advance.{
  AdvanceResult, RollbackResult, GateOutcome, advance, rollback, skip_phase,
}
use intercore.Phase.Advance.Updates.{update_status-Changed}
use intercore.Phase.Advance.Moves.{moved}
use intercore.Phase.Advance.Steps.{Gate, advance-Outcome, advance-succeeds}
use intercore.Phase.Advance.Rewind.{rollback-RolledBack}
use intercore.Phase.Placed.{Placed, moved-Placed, rewind-Placed, status-Placed}

abbrev pub Sound : Store → Type 0
Sound store = (id : String) (run : Run) → find_run id store.runs ≡ some run → Placed run

-- One operation that succeeds; one that fails leaves the store.
pub data Step (store store' : Store) : Type 0 where
  advances :
      (gate : Gate) (now : ℤ) (id skip_reason : String) (r : AdvanceResult)
      → advance now gate skip_reason id store ≡ ok (store', r)
      → Step store store'
  rolls_back :
      (now : ℤ) (id target reason : String) (r : RollbackResult)
      → rollback now id target reason store ≡ ok (store', r)
      → Step store store'
  skips :
      (id target reason actor : String)
      → skip_phase id target reason actor store ≡ ok store'
      → Step store store'
  cancels :
      (now : ℤ) (id : String)
      → update_status now id status_cancelled store ≡ ok store'
      → Step store store'
  fails :
      (now : ℤ) (id : String)
      → update_status now id status_failed store ≡ ok store'
      → Step store store'

pub data Reachable (start : Store) : Store → Type 0 where
  begin : Reachable start start
  step : {store store' : Store} → Reachable start store → Step store store' → Reachable start store'

get-some :
    (store : Store) (id : String) (run : Run)
    → get store id ≡ ok run
    → find_run id store.runs ≡ some run
unfolding get
get-some store id run h = go (find_run id store.runs) h
  where
    go :
        (o : Option Run) → (elim o [ none ↦ err not_found | some r ↦ ok r ]) ≡ ok run → o ≡ some run
    go none e = cc
    go (some r) e = cc

-- A change of one row keeps the rest of the store sound.
one-Sound :
    (id : String) (store store' : Store) (run : Run)
    → Sound store
    → find_run id store'.runs ≡ some run
    → ((other : String)
        → str_eq id other ≡ false
        → find_run other store'.runs ≡ find_run other store.runs)
    → Placed run
    → Sound store'
one-Sound id store store' run sound own others placed other run' h =
    elim (Bool-cases (str_eq id other)) [
      | inl e ↦
          let here : find_run other store'.runs ≡ some run =
            ap (λ x. find_run x store'.runs) (sym ((str_eq_iff id other).0 e)) ∙ own in
          subst Placed (some_inj.0 (sym here ∙ h)) placed
      | inr e ↦ sound other run' (sym (others other e) ∙ h)
    ]

-- What an operation on a run returns at all, it returns for a run that is there.
module _ (now : ℤ) (id : String) (store : Store) where
  loads :
      {A : Type 0} (f : Run → Result PhaseError A) {out : A}
      → (get store id >>= f) ≡ ok out
      → (run : Run) × (find_run id store.runs ≡ some run)
  loads f h = let (run, e, rest) = >>=-eq-ok (get store id) f h in (run, get-some store id run e)

  advance-loads :
      (gate : Gate) (skip_reason : String) {out : Store × AdvanceResult}
      → advance now gate skip_reason id store ≡ ok out
      → (run : Run) × (find_run id store.runs ≡ some run)
  unfolding advance
  advance-loads gate skip_reason h = loads _ h

  rollback-loads :
      (target reason : String) {out : Store × RollbackResult}
      → rollback now id target reason store ≡ ok out
      → (run : Run) × (find_run id store.runs ≡ some run)
  unfolding rollback
  rollback-loads target reason h = loads _ h

  update_status-loads :
      (status : String) {out : Store}
      → update_status now id status store ≡ ok out
      → (run : Run) × (find_run id store.runs ≡ some run)
  unfolding update_status
  update_status-loads status h = loads _ h

-- A skip only records an event.
pub skip_phase-runs :
    (id target reason actor : String) (store store' : Store)
    → skip_phase id target reason actor store ≡ ok store'
    → store'.runs ≡ store.runs
unfolding skip_phase add_event
skip_phase-runs id target reason actor store store' h =
    let (run, e, h1) = >>=-eq-ok (get store id) _ h in
    let (a, h2) = guard-eq-ok (is_terminal_status run.status) _ _ h1 in
    let (b, h3) = guard-eq-ok _ (not_in_chain target) _ h2 in
    let (c, h4) = guard-eq-ok _ (not_ahead target) _ h3 in
    let (d, h5) = guard-eq-ok _ (cannot_skip_terminal target) _ h4 in
    ap (λ s. s.runs) (sym (ok-injective h5))

module _ (store store' : Store) (sound : Sound store) where
  advance-Sound :
      (gate : Gate) (now : ℤ) (id skip_reason : String) (r : AdvanceResult)
      → advance now gate skip_reason id store ≡ ok (store', r)
      → Sound store'
  advance-Sound gate now id skip_reason r h =
      let (run, found) = advance-loads now id store gate skip_reason h in
      let placed = sound id run found in
      let o = advance-Outcome gate now id skip_reason store run found placed.distinct store' r h in
      elim o.rows [
        | inl m ↦
            one-Sound id store store' (moved now run r.to_phase) sound m.moved_to.own
              m.moved_to.others (moved-Placed now id store run r.to_phase placed o.forward)
        | inr n ↦ λ other run' f. sound other run' (ap (find_run other) (sym n.same_runs) ∙ f)
      ]

  rollback-Sound :
      (now : ℤ) (id target reason : String) (r : RollbackResult)
      → rollback now id target reason store ≡ ok (store', r)
      → Sound store'
  rollback-Sound now id target reason r h =
      let (run, found) = rollback-loads now id store target reason h in
      let placed = sound id run found in
      let b = rollback-RolledBack now id target reason store run found store' r h in
      one-Sound id store store' (rewind now target run) sound b.own b.others (
        rewind-Placed now run target b.between.first b.between.last placed b.between.at_first
          b.between.at_last b.between.ascending)

  update_status-Sound :
      (now : ℤ) (id status : String)
      → str_eq status status_active ≡ false
      → str_eq status status_completed ≡ false
      → update_status now id status store ≡ ok store'
      → Sound store'
  update_status-Sound now id status a c h =
      let (run, found) = update_status-loads now id store status h in
      let changed = update_status-Changed now id store store' run found status h in
      one-Sound id store store' (set_status now status run) sound changed.own changed.others
        (status-Placed now run status a c (sound id run found))

  Step-Sound : Step store store' → Sound store'
  Step-Sound (advances gate now id skip_reason r h) = advance-Sound gate now id skip_reason r h
  Step-Sound (rolls_back now id target reason r h) = rollback-Sound now id target reason r h
  Step-Sound (skips id target reason actor h) = λ other run f.
      sound other run
        (ap (find_run other) (sym (skip_phase-runs id target reason actor store store' h)) ∙ f)
  Step-Sound (cancels now id h) = update_status-Sound now id status_cancelled refl refl h
  Step-Sound (fails now id h) = update_status-Sound now id status_failed refl refl h

-- Whatever operations follow one another, every run has a chain of distinct phases and stays on
-- it, at the last phase when it is completed and before the last phase while it is active, if this
-- held at the start.
pub Reachable-Sound : (start store : Store) → Sound start → Reachable start store → Sound store
Reachable-Sound start store sound begin = sound
Reachable-Sound start store sound (step {store = mid} before next) =
    Step-Sound mid store (Reachable-Sound start mid sound before) next

active-not-final :
    (status : String) → str_eq status status_active ≡ true → is_terminal_status status ≡ false
unfolding is_terminal_status
active-not-final status h = ap is_terminal_status ((str_eq_iff status status_active).0 h)

-- In every state that the operations reach from a sound one, `Advance` on an active run succeeds
-- if its gate answers for every phase.
pub Reachable-progress :
    (gate : Gate) (now : ℤ) (id skip_reason : String) (start store : Store) (run : Run)
    → Sound start
    → Reachable start store
    → find_run id store.runs ≡ some run
    → str_eq run.status status_active ≡ true
    → ((dst : String) → (g : GateOutcome) × (gate run run.phase dst ≡ ok g))
    → (out : Store × AdvanceResult) × (advance now gate skip_reason id store ≡ ok out)
Reachable-progress gate now id skip_reason start store run sound reached found active gates =
    let placed = Reachable-Sound start store sound reached id run found in
    advance-succeeds gate now id skip_reason store run found placed.distinct placed.position
      placed.at (active-not-final run.status active) (placed.before_last active) gates
