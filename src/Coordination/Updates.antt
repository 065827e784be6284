-- ===== src/Coordination/Updates.antt =====
-- `Release`, `Check`, `Transfer` and `Sweep` of internal/coordination/store.go.
use intercore.Common.{
  ℕ, suc, Bool, not, ◌&&◌, ◌||◌, Option, none, some, List, [], ◌∷◌, String, str_eq, length,
  if◌then◌else◌, is_some, ◌==◌,
}
use Prim.Native.String.{◌++◌ as string_append}
use intercore.Common.Int.{ℤ, ◌-ℤ◌, wrap64}
use intercore.Common.Text.{Text}
use intercore.Common.Outcome.{Result, ok, err, ◌>>=◌, ◌>>◌}
use intercore.Coordination.Glob.{GlobError, validate_complexity}
use intercore.Coordination.Search.{patterns_overlap}
use intercore.Coordination.Locks.{
  Lock, LockEvent, LockStore, LockError, invalid_pattern, overlap_check, no_target,
  transfer_conflict, glob_result, holds, is_expired, set_released, emit,
}

-- `UPDATE … WHERE`: the rows that the condition selects, and how many they are.
unfoldable pub update_locks : (Lock → Bool) → (Lock → Lock) → List Lock → List Lock
update_locks guard change [] = []
update_locks guard change (l ∷ rows) =
    (if guard l then change l else l) ∷ update_locks guard change rows

unfoldable pub count_locks : (Lock → Bool) → List Lock → ℕ
count_locks guard [] = 0
count_locks guard (l ∷ rows) =
    let rest = count_locks guard rows in if guard l then suc rest else rest

unfoldable pub select_locks : (Lock → Bool) → List Lock → List Lock
select_locks guard [] = []
select_locks guard (l ∷ rows) =
    let rest = select_locks guard rows in if guard l then l ∷ rest else rest

-- The update, with its event if it reached a row.
unfoldable pub apply_update : (Lock → Bool) → (Lock → Lock) → LockEvent → LockStore → LockStore × ℕ
apply_update guard change event store =
    let updated = record store { locks = update_locks guard change store.locks } in
    let n = count_locks guard store.locks in (if n == 0 then updated else emit event updated, n)

abbrev pub release_event : String → String → String → LockEvent
release_event id owner scope = record {
  event_type = "coordination.released";
  lock_id = id;
  owner = owner;
  pattern = [];
  scope = scope;
  reason = "";
  run_id = "";
}

unfoldable pub release :
    ℤ → (id owner scope : String) → LockStore → Result LockError (LockStore × ℕ)
release now id owner scope store =
    if not (str_eq id "")
    then ok (
        apply_update (λ l. str_eq l.id id && not (is_some l.released_at)) (set_released now)
          (release_event id owner scope) store)
    else if not (str_eq owner "") && not (str_eq scope "")
    then ok (
        apply_update
          (λ l. (str_eq l.owner owner && str_eq l.scope scope) && not (is_some l.released_at))
          (set_released now) (release_event id owner scope) store)
    else err no_target

-- The rows that overlap, in their order.
unfoldable pub overlapping : Text → List Lock → Result GlobError (List Lock)
overlapping pattern [] = ok []
overlapping pattern (l ∷ rows) = patterns_overlap pattern l.pattern >>= λ overlap.
    overlapping pattern rows >>= λ rest. ok (if overlap then l ∷ rest else rest)

unfoldable pub check : ℤ → String → Text → String → LockStore → Result LockError (List Lock)
check now scope pattern exclude_owner store =
    glob_result invalid_pattern (validate_complexity pattern)
    >> glob_result overlap_check (
        overlapping pattern (
          select_locks
            (λ l.
              (str_eq l.scope scope && holds now l)
              && (str_eq exclude_owner "" || not (str_eq l.owner exclude_owner)))
            store.locks))

abbrev pub is_held_by : ℤ → String → String → Lock → Bool
is_held_by now owner scope l = (str_eq l.owner owner && str_eq l.scope scope) && holds now l

-- One pattern of the new owner against those that come.
unfoldable pub check_incoming : Text → List Lock → Result LockError (Unit {0})
check_incoming to_pattern [] = ok tt
check_incoming to_pattern (l ∷ rows) =
    glob_result overlap_check (patterns_overlap l.pattern to_pattern) >>= λ overlap.
    let rest = check_incoming to_pattern rows in
    if overlap then err (transfer_conflict l.pattern to_pattern) else rest

unfoldable pub check_transfer : List Lock → List Lock → Result LockError (Unit {0})
check_transfer incoming [] = ok tt
check_transfer incoming (l ∷ rows) =
    check_incoming l.pattern incoming >> check_transfer incoming rows

abbrev pub set_owner : String → Lock → Lock
set_owner owner l = record l { owner = owner }

unfoldable pub transfer_allowed :
    ℤ → (from_owner to_owner scope : String) → Bool → LockStore → Result LockError (Unit {0})
transfer_allowed now from_owner to_owner scope force store =
    let exclusive_of = λ (owner : String).
      select_locks (λ l. is_held_by now owner scope l && l.exclusive) store.locks in
    if force then ok tt else check_transfer (exclusive_of from_owner) (exclusive_of to_owner)

unfoldable pub hand_over : ℤ → (from_owner to_owner scope : String) → LockStore → LockStore × ℕ
hand_over now from_owner to_owner scope store =
    apply_update (is_held_by now from_owner scope) (set_owner to_owner)
      (record {
        event_type = "coordination.transferred";
        lock_id = "";
        owner = from_owner;
        pattern = [];
        scope = scope;
        reason = string_append "transferred to " to_owner;
        run_id = "";
      })
      store

unfoldable pub transfer :
    ℤ → (from_owner to_owner scope : String) → Bool → LockStore → Result LockError (LockStore × ℕ)
transfer now from_owner to_owner scope force store =
    transfer_allowed now from_owner to_owner scope force store
    >> ok (hand_over now from_owner to_owner scope store)

-- An error of `Release` is passed over.
unfoldable pub report_expired : Lock → LockStore → Result LockError (LockStore × ℕ) → LockStore
report_expired l store (err e) = store
report_expired l store (ok (released, n)) =
    emit
      (record {
        event_type = "coordination.expired";
        lock_id = l.id;
        owner = l.owner;
        pattern = l.pattern;
        scope = l.scope;
        reason = "sweep";
        run_id = l.run_id;
      })
      released

-- The release of the expired locks, one by one.
unfoldable pub release_each : ℤ → List Lock → LockStore → LockStore
release_each now [] store = store
release_each now (l ∷ rows) store =
    release_each now rows (report_expired l store (release now l.id "" "" store))

-- `older_than` is in whole seconds, `none` for a duration that is not positive. The number of
-- expired locks is reported also for a dry run.
unfoldable pub sweep : ℤ → Option ℤ → Bool → LockStore → LockStore × ℕ
sweep now older_than dry_run store =
    let cutoff : ℤ = elim older_than [ none ↦ now | some s ↦ wrap64 (now -ℤ s) ] in
    let expired = select_locks (is_expired cutoff) store.locks in
    let swept = release_each now expired store in
    (if dry_run || length expired == 0 then store else swept, length expired)
