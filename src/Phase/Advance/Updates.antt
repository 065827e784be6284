-- ===== src/Phase/Advance/Updates.antt =====
-- What the updates of one run change, and what they leave.
use intercore.Common.{
  ◌≡◌, ◌≢◌, refl, subst, ap, ◌∙◌, Bool, true, false, none, some, List, [], ◌∷◌, String, str_eq,
  str_eq_iff, arith, if◌then◌else◌, Bool-cases, inl, inr,
}
use intercore.Common.Int.{ℤ}
use intercore.Common.Outcome.{Result, ok, err, ok-injective, after-ok}
use intercore.Phase.Chain.{PhaseError, not_found, stale_phase, terminal_run}
use intercore.Phase.Machine.{
  Run, Store, find_run, get, update_where, update_phase, update_status, rollback_phase, set_status,
  rewind, may_rewind,
}

module _ (id : String) (guard : Run → Bool) (change : Run → Run)
    (keeps : (r : Run) → (change r).id ≡ r.id) where
  -- The run's own row.
  pub find_run-update_where :
      (runs : List Run) (run : Run)
      → find_run id runs ≡ some run
      → guard run ≡ true
      → find_run id (update_where id guard change runs) ≡ some (change run)
  unfolding find_run update_where
  find_run-update_where [] run h g = cc
  find_run-update_where (r ∷ runs) run h g = elim (Bool-cases (str_eq r.id id)) [
    | inl e ↦
        let same : r ≡ run = ground arith in
        let holds : guard r ≡ true = ap guard same ∙ g in
        let mine : str_eq (change r).id id ≡ true = ap (λ x. str_eq x id) (keeps r) ∙ e in
        rw (e, holds) (rw mine (ap (λ x. some (change x)) same))
    | inr e ↦ rw (e) (rw e (find_run-update_where runs run (ground arith) g))
  ]

  -- Every other row.
  pub find_run-update_where_other :
      (other : String) (runs : List Run)
      → str_eq id other ≡ false
      → find_run other (update_where id guard change runs) ≡ find_run other runs
  unfolding find_run update_where
  find_run-update_where_other other [] h = refl
  find_run-update_where_other other (r ∷ runs) h = elim (Bool-cases (str_eq r.id id)) [
    | inl e ↦
        let differs : str_eq r.id other ≡ false =
          ap (λ x. str_eq x other) ((str_eq_iff r.id id).0 e) ∙ h in
        elim (Bool-cases (guard r)) [
          | inl g ↦
              rw (e, g)
                (rw (ap (λ x. str_eq x other) (keeps r) ∙ differs, differs)
                  (find_run-update_where_other other runs h))
          | inr g ↦ rw (e, g) (rw (differs) (find_run-update_where_other other runs h))
        ]
    | inr e ↦ rw e (
        ap (λ l. if str_eq r.id other then some r else l)
          (find_run-update_where_other other runs h))
  ]

-- A store in which only one run's row has changed.
pub record Changed (id : String) (store store' : Store) (run : Run) : Type 0 where
  pub own : find_run id store'.runs ≡ some run
  pub others :
      (other : String)
      → str_eq id other ≡ false
      → find_run other store'.runs ≡ find_run other store.runs
  pub same_events : store'.events ≡ store.events

-- A guard whose other branch fails was met.
if-ok {ℓ} :
    {A : Type ℓ} (b : Bool) (other : Result PhaseError A) {x y : A}
    → other ≢ ok y
    → (if b then ok x else other) ≡ ok y
    → (b ≡ true) × (x ≡ y)
if-ok true other never h = (refl, ok-injective h)
if-ok false other never h = absurd (never h)

errors-fail {ℓ} :
    {A : Type ℓ} (c : Bool) (d e : PhaseError) (y : A) → (if c then err d else err e) ≢ ok y
errors-fail true d e y h = cc
errors-fail false d e y h = cc

module _ (now : ℤ) (id : String) (store store' : Store) (run : Run)
    (found : find_run id store.runs ≡ some run) where
  pub get-found : get store id ≡ ok run
  unfolding get
  get-found = ap (λ o. elim o [ none ↦ err not_found | some r ↦ ok r ]) found

  pub update_phase-Changed :
      (src dst : String)
      → update_phase now id src dst store ≡ ok store'
      → Changed id store store' (record run { phase = dst; updated_at = now })
        × (str_eq run.phase src ≡ true)
  unfolding update_phase
  update_phase-Changed src dst h =
      let (guard, same) =
        if-ok (str_eq run.phase src) (err stale_phase)
          (errors-fail true stale_phase stale_phase store')
          (after-ok (get store id) _ get-found h) in
      (
        subst (λ s. Changed id store s (record run { phase = dst; updated_at = now })) same
            (record {
              own =
                  find_run-update_where id (λ r. str_eq r.phase src)
                    (λ r. record r { phase = dst; updated_at = now }) (λ r. refl) store.runs run
                    found guard;
              others = λ other.
                  find_run-update_where_other id (λ r. str_eq r.phase src)
                    (λ r. record r { phase = dst; updated_at = now }) (λ r. refl) other store.runs;
              same_events = refl;
            }),
        guard,
      )

  pub update_phase-total :
      (src dst : String)
      → str_eq run.phase src ≡ true
      → (s : Store) × (update_phase now id src dst store ≡ ok s)
  unfolding update_phase
  update_phase-total src dst h =
      let moved : Store = record store {
        runs =
            update_where id (λ r. str_eq r.phase src)
              (λ r. record r { phase = dst; updated_at = now }) store.runs;
      } in
      (moved, rw (get-found, h) refl)

  pub update_status-total :
      (status : String) → (s : Store) × (update_status now id status store ≡ ok s)
  unfolding update_status
  update_status-total status =
      let set : Store = record store {
        runs = update_where id (λ r. true) (set_status now status) store.runs;
      } in
      (set, rw get-found refl)

  pub update_status-Changed :
      (status : String)
      → update_status now id status store ≡ ok store'
      → Changed id store store' (set_status now status run)
  unfolding update_status
  update_status-Changed status h =
      subst (λ s. Changed id store s (set_status now status run))
        (ok-injective (after-ok (get store id) _ get-found h))
        (record {
          own =
              find_run-update_where id (λ r. true) (set_status now status) (λ r. refl) store.runs
                run found refl;
          others = λ other.
              find_run-update_where_other id (λ r. true) (set_status now status) (λ r. refl) other
                store.runs;
          same_events = refl;
        })

  pub rollback_phase-Changed :
      (src dst : String)
      → rollback_phase now id src dst store ≡ ok store'
      → Changed id store store' (rewind now dst run) × (may_rewind src run ≡ true)
  unfolding rollback_phase
  rollback_phase-Changed src dst h =
      let (guard, same) =
        if-ok (may_rewind src run) _ (errors-fail _ terminal_run stale_phase store')
          (after-ok (get store id) _ get-found h) in
      (
        subst (λ s. Changed id store s (rewind now dst run)) same
            (record {
              own =
                  find_run-update_where id (may_rewind src) (rewind now dst) (λ r. refl) store.runs
                    run found guard;
              others = λ other.
                  find_run-update_where_other id (may_rewind src) (rewind now dst) (λ r. refl) other
                    store.runs;
              same_events = refl;
            }),
        guard,
      )

  pub rollback_phase-total :
      (src dst : String)
      → may_rewind src run ≡ true
      → (s : Store) × (rollback_phase now id src dst store ≡ ok s)
  unfolding rollback_phase
  rollback_phase-total src dst h =
      let back : Store = record store {
        runs = update_where id (may_rewind src) (rewind now dst) store.runs;
      } in
      (back, rw (get-found, h) refl)
