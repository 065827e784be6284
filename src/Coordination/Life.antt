-- ===== src/Coordination/Life.antt =====
-- The lock table under its operations and the passing of time.
use intercore.Common.{
  ℕ, ◌≡◌, refl, sym, ap, subst, ◌∙◌, Bool, true, false, not, ◌&&◌, Option, none, some, List, [],
  ◌∷◌, map, String, str_eq, ◌==◌, if◌then◌else◌, Bool-cases, if-true, if-false, inl, inr,
}
use intercore.Common.Int.{ℤ, ◌≤ℤ◌}
use intercore.Common.Every.{Every}
use intercore.Common.Outcome.{Result, ok, err, ◌>>◌, >>=-eq-ok, ok-injective}
use intercore.Coordination.Glob.{GlobError, validate_complexity}
use intercore.Coordination.Locks.{
  Lock, LockEvent, LockStore, LockError, ReserveResult, ConflictInfo, glob_result, overlap_check,
  insert_failed, no_target, sweep_row, is_expired, set_released, stamp, with_id, insert_lock,
  settle, reserve, find_conflict, emit, can_insert,
}
use intercore.Coordination.Updates.{
  update_locks, count_locks, apply_update, release, transfer, transfer_allowed, hand_over,
  report_expired, release_each, sweep, set_owner, is_held_by,
}
use intercore.Coordination.Exclusion.{
  Compatible, Exclusive, release-Exclusive, transfer-Exclusive, later-Exclusive, append-Exclusive,
  find_conflict-Compatible,
}

map-sweep_row :
    (now : ℤ) (rows : List Lock)
    → map (sweep_row now) rows ≡ update_locks (is_expired now) (set_released now) rows
unfolding update_locks
map-sweep_row now [] = refl
map-sweep_row now (l ∷ rows) = ap (λ ls. sweep_row now l ∷ ls) (map-sweep_row now rows)

pub glob_result-ok {ℓ} :
    {A : Type ℓ} (wrap : GlobError → LockError) (r : Result GlobError A) {a : A}
    → glob_result wrap r ≡ ok a
    → r ≡ ok a
glob_result-ok wrap (ok b) h = ap ok (ok-injective h)
glob_result-ok wrap (err e) h = cc

module _ (now : ℤ) (store store' : LockStore) (exclusive : Exclusive now store.locks) where
  settle-Exclusive :
      (new : Lock) (rows : List Lock) (o : Option ConflictInfo) (r : ReserveResult)
      → Exclusive now rows
      → (o ≡ none → Every (λ l. Compatible now l new) rows)
      → settle new rows store o ≡ ok (store', r)
      → Exclusive now store'.locks
  unfolding settle emit insert_lock
  settle-Exclusive new rows (some info) r e c h =
      subst (λ p. Exclusive now p.0.locks) (ok-injective h) exclusive
  settle-Exclusive new rows none r e c h = elim (Bool-cases (can_insert new rows)) [
    | inl t ↦
        subst (λ p. Exclusive now p.0.locks) (ok-injective (if-true _ _ t h))
          (append-Exclusive now rows new e (c refl))
    | inr f ↦ absurd (never (if-false _ _ f h))
  ]
    where
      never :
          ◌≡◌ {A = Result LockError (LockStore × ReserveResult)}
            (err insert_failed)
            (ok (store', r))
          → ⊥
      never e = cc

  reserve-Exclusive :
      (generated : Result LockError String) (created : ℤ) (lock : Lock) (r : ReserveResult)
      → reserve generated created now lock store ≡ ok (store', r)
      → Exclusive now store'.locks
  unfolding reserve
  reserve-Exclusive generated created lock r h =
      let (named, h0, h1) =
        >>=-eq-ok (glob_result _ (validate_complexity lock.pattern) >> with_id generated lock) _
          h in
      let new = stamp created named in
      let rows = map (sweep_row now) store.locks in
      let (o, found, h2) =
        >>=-eq-ok (glob_result overlap_check (find_conflict now new rows)) _ h1 in
      settle-Exclusive new rows o r
        (subst (Exclusive now) (sym (map-sweep_row now store.locks))
          (release-Exclusive now now (is_expired now) store.locks exclusive))
        (λ e.
          find_conflict-Compatible now new rows
            (glob_result-ok overlap_check (find_conflict now new rows) (found ∙ ap ok e)))
        h2

-- An update of the rows, with or without its event.
pub apply_update-locks :
    (guard : Lock → Bool) (change : Lock → Lock) (event : LockEvent) (store : LockStore)
    → (apply_update guard change event store).0.locks ≡ update_locks guard change store.locks
unfolding apply_update emit
apply_update-locks guard change event store =
    elim (Bool-cases (count_locks guard store.locks == 0)) [ inl e ↦ rw e refl | inr e ↦ rw e refl ]

apply_update-release :
    (now at : ℤ) (guard : Lock → Bool) (event : LockEvent) (store : LockStore)
    → Exclusive now store.locks
    → Exclusive now (apply_update guard (set_released at) event store).0.locks
apply_update-release now at guard event store h =
    subst (Exclusive now) (sym (apply_update-locks guard (set_released at) event store))
      (release-Exclusive now at guard store.locks h)

release_lock-Exclusive :
    (now at : ℤ) (id owner scope : String) (store store' : LockStore) (n : ℕ)
    → Exclusive now store.locks
    → release at id owner scope store ≡ ok (store', n)
    → Exclusive now store'.locks
unfolding release
release_lock-Exclusive now at id owner scope store store' n e h =
    elim (Bool-cases (not (str_eq id ""))) [
      | inl a ↦
          subst (λ p. Exclusive now p.0.locks) (ok-injective (if-true _ _ a h))
            (apply_update-release now at _ _ store e)
      | inr a ↦ elim (Bool-cases (not (str_eq owner "") && not (str_eq scope ""))) [
        | inl b ↦
            subst (λ p. Exclusive now p.0.locks) (ok-injective (if-true _ _ b (if-false _ _ a h)))
              (apply_update-release now at _ _ store e)
        | inr b ↦ absurd (never (if-false _ _ b (if-false _ _ a h)))
      ]
    ]
  where
    never : ◌≡◌ {A = Result LockError (LockStore × ℕ)} (err no_target) (ok (store', n)) → ⊥
    never e = cc

transfer_locks-Exclusive :
    (now : ℤ) (src dst scope : String) (force : Bool) (store store' : LockStore) (n : ℕ)
    → Exclusive now store.locks
    → transfer now src dst scope force store ≡ ok (store', n)
    → Exclusive now store'.locks
unfolding transfer hand_over
transfer_locks-Exclusive now src dst scope force store store' n e h =
    let (u, checked, done) = >>=-eq-ok (transfer_allowed now src dst scope force store) _ h in
    subst (λ p. Exclusive now p.0.locks) (ok-injective done)
      (subst (Exclusive now)
        (sym (apply_update-locks (is_held_by now src scope) (set_owner dst) _ store))
        (transfer-Exclusive now src dst scope store.locks e))

report_expired-Exclusive :
    (now : ℤ) (l : Lock) (store : LockStore) (r : Result LockError (LockStore × ℕ))
    → Exclusive now store.locks
    → ((store' : LockStore) (n : ℕ) → r ≡ ok (store', n) → Exclusive now store'.locks)
    → Exclusive now (report_expired l store r).locks
unfolding report_expired emit
report_expired-Exclusive now l store (err x) e h = e
report_expired-Exclusive now l store (ok (store', n)) e h = h store' n refl

release_each-Exclusive :
    (now at : ℤ) (rows : List Lock) (store : LockStore)
    → Exclusive now store.locks
    → Exclusive now (release_each at rows store).locks
unfolding release_each
release_each-Exclusive now at [] store e = e
release_each-Exclusive now at (l ∷ rows) store e =
    release_each-Exclusive now at rows (report_expired l store (release at l.id "" "" store)) (
      report_expired-Exclusive now l store (release at l.id "" "" store) e
        (λ store' n h. release_lock-Exclusive now at l.id "" "" store store' n e h))

either-Exclusive :
    (now : ℤ) (b : Bool) (x y : LockStore)
    → Exclusive now x.locks
    → Exclusive now y.locks
    → Exclusive now (if b then x else y).locks
either-Exclusive now true x y h k = h
either-Exclusive now false x y h k = k

sweep-Exclusive :
    (now at : ℤ) (older_than : Option ℤ) (dry_run : Bool) (store : LockStore)
    → Exclusive now store.locks
    → Exclusive now (sweep at older_than dry_run store).0.locks
unfolding sweep
sweep-Exclusive now at older_than dry_run store e =
    either-Exclusive now _ store _ e (release_each-Exclusive now at _ store e)

-- One operation that succeeds, at the time `now`, or the passing of time.
pub data Step (now : ℤ) (store : LockStore) : ℤ → LockStore → Type 0 where
  reserves :
      (generated : Result LockError String) (created : ℤ) (lock : Lock) (r : ReserveResult)
      {store' : LockStore}
      → reserve generated created now lock store ≡ ok (store', r)
      → Step now store now store'
  releases :
      (id owner scope : String) (n : ℕ) {store' : LockStore}
      → release now id owner scope store ≡ ok (store', n)
      → Step now store now store'
  transfers :
      (src dst scope : String) (force : Bool) (n : ℕ) {store' : LockStore}
      → transfer now src dst scope force store ≡ ok (store', n)
      → Step now store now store'
  sweeps :
      (older_than : Option ℤ) (dry_run : Bool)
      → Step now store now (sweep now older_than dry_run store).0
  waits : {later : ℤ} → now ≤ℤ later → Step now store later store

pub data Reachable (start : ℤ) : ℤ → LockStore → Type 0 where
  empty : (events : List LockEvent) → Reachable start start (record { locks = []; events = events })
  after :
      {now later : ℤ} {store store' : LockStore}
      → Reachable start now store
      → Step now store later store'
      → Reachable start later store'

Step-Exclusive :
    (now later : ℤ) (store store' : LockStore)
    → Exclusive now store.locks
    → Step now store later store'
    → Exclusive later store'.locks
Step-Exclusive now later store store' e (reserves generated created lock r h) =
    reserve-Exclusive now store store' e generated created lock r h
Step-Exclusive now later store store' e (releases id owner scope n h) =
    release_lock-Exclusive now now id owner scope store store' n e h
Step-Exclusive now later store store' e (transfers src dst scope force n h) =
    transfer_locks-Exclusive now src dst scope force store store' n e h
Step-Exclusive now later store store' e (sweeps older_than dry_run) =
    sweep-Exclusive now now older_than dry_run store e
Step-Exclusive now later store store' e (waits le) = later-Exclusive now later store.locks le e

-- From an empty table, whatever operations follow one another while the clock does not go back:
-- two active locks in one scope, of different owners and not both shared, have patterns without
-- a common path.
pub Reachable-Exclusive :
    (start now : ℤ) (store : LockStore) → Reachable start now store → Exclusive now store.locks
Reachable-Exclusive start now store (empty events) = tt
Reachable-Exclusive start now store (after {now = before} {store = prior} reached step) =
    Step-Exclusive before now prior store (Reachable-Exclusive start before prior reached) step
