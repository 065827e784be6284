-- ===== src/Coordination/Locks.antt =====
-- The lock table and `Reserve` of internal/coordination/store.go. Reserve is one transaction, so an
-- error leaves the table as it was; a row is appended, and an update keeps the order of the rows.
use intercore.Common.{
  Bool, true, false, not, ◌&&◌, ◌||◌, Option, none, some, List, [], ◌∷◌, ◌++◌, map, String, str_eq,
  if◌then◌else◌, is_some,
}
use intercore.Common.Int.{ℤ, pos, ltb_ℤ, ◌+ℤ◌, wrap64}
use intercore.Common.Text.{Text}
use intercore.Common.Outcome.{Result, ok, err, ◌>>=◌, ◌>>◌}
use intercore.Coordination.Glob.{GlobError, validate_complexity}
use intercore.Coordination.Search.{patterns_overlap}

pub record Lock : Type 0 where
  pub id : String
  pub lock_type : String
  pub owner : String
  pub scope : String
  pub pattern : Text
  pub exclusive : Bool
  pub reason : String
  pub ttl_seconds : ℤ
  pub created_at : ℤ
  pub expires_at : Option ℤ
  pub released_at : Option ℤ
  pub dispatch_id : String
  pub run_id : String

pub record ConflictInfo : Type 0 where
  pub blocker_id : String
  pub blocker_owner : String
  pub blocker_pattern : Text
  pub blocker_reason : String

pub data ReserveResult : Type 0 where
  acquired : Lock → ReserveResult
  conflicted : ConflictInfo → ReserveResult

pub record LockEvent : Type 0 where
  pub event_type : String
  pub lock_id : String
  pub owner : String
  pub pattern : Text
  pub scope : String
  pub reason : String
  pub run_id : String

pub record LockStore : Type 0 where
  pub locks : List Lock
  pub events : List LockEvent

pub data LockError : Type 0 where
  invalid_pattern overlap_check : GlobError → LockError
  no_random insert_failed no_target : LockError
  transfer_conflict : Text → Text → LockError

abbrev pub glob_result {ℓ} :
    {A : Type ℓ} → (GlobError → LockError) → Result GlobError A → Result LockError A
glob_result wrap (ok a) = ok a
glob_result wrap (err e) = err (wrap e)

-- `expires_at IS NULL OR expires_at > ?`
abbrev pub unexpired : ℤ → Option ℤ → Bool
unexpired now none = true
unexpired now (some t) = ltb_ℤ now t

-- The rows that the queries count as active.
abbrev pub holds : ℤ → Lock → Bool
holds now l = not (is_some l.released_at) && unexpired now l.expires_at

-- `expires_at IS NOT NULL AND expires_at < ?`
abbrev pub expired_before : ℤ → Option ℤ → Bool
expired_before cutoff none = false
expired_before cutoff (some t) = ltb_ℤ t cutoff

abbrev pub is_expired : ℤ → Lock → Bool
is_expired cutoff l = not (is_some l.released_at) && expired_before cutoff l.expires_at

abbrev pub set_released : ℤ → Lock → Lock
set_released now l = record l { released_at = some now }

abbrev pub sweep_row : ℤ → Lock → Lock
sweep_row now l = if is_expired now l then set_released now l else l

unfoldable pub emit : LockEvent → LockStore → LockStore
emit e store = record store { events = store.events ++ e ∷ [] }

-- The rows of the conflict query.
abbrev pub is_rival : ℤ → Lock → Lock → Bool
is_rival now lock l = str_eq l.scope lock.scope && holds now l && not (str_eq l.owner lock.owner)

abbrev pub blocker : Lock → ConflictInfo
blocker l = record {
  blocker_id = l.id;
  blocker_owner = l.owner;
  blocker_pattern = l.pattern;
  blocker_reason = l.reason;
}

-- The loop over the rows: the first that overlaps, unless both locks are shared.
unfoldable pub find_conflict : ℤ → Lock → List Lock → Result GlobError (Option ConflictInfo)
find_conflict now lock [] = ok none
find_conflict now lock (l ∷ rows) =
    let rest = find_conflict now lock rows in
    if not (is_rival now lock l)
    then rest
    else if not lock.exclusive && not l.exclusive
    then rest
    else (patterns_overlap lock.pattern l.pattern >>= λ overlap.
        if overlap then ok (some (blocker l)) else rest)

-- The columns' constraints: a known type, and an id that no row has.
unfoldable pub can_insert : Lock → List Lock → Bool
can_insert lock [] =
    str_eq lock.lock_type "file_reservation"
    || str_eq lock.lock_type "named_lock"
    || str_eq lock.lock_type "write_set"
can_insert lock (l ∷ rows) =
    let rest = can_insert lock rows in if str_eq l.id lock.id then false else rest

-- `time.Now()` is read twice: for `created_at`, and in the transaction.
abbrev pub stamp : ℤ → Lock → Lock
stamp created lock = record lock {
  created_at = created;
  expires_at =
      if ltb_ℤ (pos 0) lock.ttl_seconds
      then some (wrap64 (created +ℤ lock.ttl_seconds))
      else lock.expires_at;
  released_at = none;
}

unfoldable pub with_id : Result LockError String → Lock → Result LockError Lock
with_id generated lock =
    if str_eq lock.id "" then (generated >>= λ id. ok (record lock { id = id })) else ok lock

unfoldable pub insert_lock :
    Lock → List Lock → LockStore → Result LockError (LockStore × ReserveResult)
insert_lock lock rows store =
    if can_insert lock rows
    then ok (
      emit
          (record {
            event_type = "coordination.acquired";
            lock_id = lock.id;
            owner = lock.owner;
            pattern = lock.pattern;
            scope = lock.scope;
            reason = lock.reason;
            run_id = lock.run_id;
          })
          (record store { locks = rows ++ lock ∷ [] }),
      acquired lock,
    )
    else err insert_failed

-- A conflict rolls the transaction back, the sweep included, and is reported.
unfoldable pub settle :
    Lock
    → List Lock
    → LockStore
    → Option ConflictInfo
    → Result LockError (LockStore × ReserveResult)
settle lock rows store none = insert_lock lock rows store
settle lock rows store (some info) = ok (
  emit
      (record {
        event_type = "coordination.conflict";
        lock_id = lock.id;
        owner = lock.owner;
        pattern = lock.pattern;
        scope = lock.scope;
        reason = info.blocker_owner;
        run_id = lock.run_id;
      })
      store,
  conflicted info,
)

-- `generated` is what `generateID` returns.
unfoldable pub reserve :
    Result LockError String
    → (created now : ℤ) → Lock
    → LockStore
    → Result LockError (LockStore × ReserveResult)
reserve generated created now lock store =
    glob_result invalid_pattern (validate_complexity lock.pattern)
    >> with_id generated lock
    >>= λ named.
        let new = stamp created named in
        let rows = map (sweep_row now) store.locks in
        glob_result overlap_check (find_conflict now new rows) >>= settle new rows store
