-- ===== src/Coordination/Samples.antt =====
-- Reservations of two agents, and the theorems about them.
use intercore.Common.{
  ◌↔◌, inl, inr, ◌≡◌, ◌≢◌, refl, true, false, Option, none, some, List, [], ◌∷◌, String,
}
use intercore.Common.Int.{ℤ, pos, wrap64, ◌+ℤ◌, ◌-ℤ◌}
use intercore.Common.Text.{Text}
use intercore.Common.Outcome.{ok, err, for_each}
use intercore.Coordination.Ranges.{
  insert_sorted, sort_ranges, coalesce, coalesce_all, normalize_ranges, overlap_rounds,
  ranges_overlap, intersect_rounds, intersect_ranges, cut, cut_all, subtract_from, subtract_each,
  subtract_ranges,
}
use intercore.Coordination.Glob.{
  out_of_rounds, bad_pattern, split_rest, split, read_class_rune, range_dash, class_item,
  class_rounds, close_class, parse_class, parse_token, parse_rounds, parse_segment, count_wildcards,
  add_segment, validate_complexity,
}
use intercore.Coordination.Glob.Rounds.{parse_segment-ends}
use intercore.Coordination.Search.{
  visited, token_consume, add_closure, next_state, search_rounds, search, segment_patterns_overlap,
  segments_overlap, patterns_overlap,
}
use intercore.Coordination.Locks.{
  Lock, LockEvent, LockStore, LockError, acquired, emit, find_conflict, can_insert, with_id,
  insert_lock, settle, reserve,
}
use intercore.Coordination.Updates.{
  update_locks, count_locks, select_locks, apply_update, release, transfer, transfer_allowed,
  hand_over,
}
use intercore.Coordination.Search.Ends.{patterns_overlap-ends}
use intercore.Coordination.Search.Paths.{PathMatches, done, takes}
use intercore.Coordination.Search.Found.{patterns_overlap_iff}
use intercore.Coordination.Holders.{IsRow, Reachable-PathMatches}
use intercore.Coordination.Checks.{IsChecked, check-IsRow}
use intercore.Coordination.Updates.{overlapping, check}
use intercore.Coordination.Life.{Reachable, empty, after, reserves}

program : Unit {0}
unfolding insert_sorted sort_ranges coalesce coalesce_all normalize_ranges overlap_rounds
    ranges_overlap intersect_rounds intersect_ranges cut cut_all subtract_from subtract_each
    subtract_ranges split_rest split read_class_rune range_dash class_item class_rounds close_class
    parse_class parse_token parse_rounds parse_segment count_wildcards add_segment
    validate_complexity for_each visited token_consume add_closure next_state search_rounds search
    segment_patterns_overlap segments_overlap patterns_overlap emit find_conflict can_insert with_id
    insert_lock settle reserve wrap64 ◌+ℤ◌ ◌-ℤ◌ update_locks count_locks select_locks apply_update
    release transfer transfer_allowed hand_over
program = tt

-- `a/*` and `a/b`, and `[a-c]?` and `d*`.
meets : patterns_overlap (b'a' ∷ b'/' ∷ b'*' ∷ []) (b'a' ∷ b'/' ∷ b'b' ∷ []) ≡ ok true
unfolding program
meets = refl

parts :
    patterns_overlap (b'[' ∷ b'a' ∷ b'-' ∷ b'c' ∷ b']' ∷ b'?' ∷ []) (b'd' ∷ b'*' ∷ []) ≡ ok false
unfolding program
parts = refl

no_end : parse_segment (b'[' ∷ b'a' ∷ []) ≡ err bad_pattern
unfolding program
no_end = refl

parse_segment-ends_example :
    parse_segment (b'[' ∷ b'^' ∷ b'a' ∷ b']' ∷ b'*' ∷ []) ≢ err out_of_rounds
parse_segment-ends_example = parse_segment-ends (b'[' ∷ b'^' ∷ b'a' ∷ b']' ∷ b'*' ∷ [])

abbrev lock_of : String → String → Text → Option ℤ → Lock
lock_of id owner pattern expires = record {
  id = id;
  lock_type = "file_reservation";
  owner = owner;
  scope = "repo";
  pattern = pattern;
  exclusive = true;
  reason = "";
  ttl_seconds = pos 60;
  created_at = pos 100;
  expires_at = expires;
  released_at = none;
  dispatch_id = "";
  run_id = "";
}

abbrev acquired_event : Lock → LockEvent
acquired_event l = record {
  event_type = "coordination.acquired";
  lock_id = l.id;
  owner = l.owner;
  pattern = l.pattern;
  scope = l.scope;
  reason = "";
  run_id = "";
}

abbrev none_yet : LockStore
none_yet = record { locks = []; events = [] }

abbrev first_lock : Lock
first_lock = lock_of "l1" "ann" (b'a' ∷ b'?' ∷ []) (some (pos 160))

abbrev second_lock : Lock
second_lock = lock_of "l2" "bob" (b'b' ∷ b'*' ∷ []) (some (pos 160))

abbrev one_held : LockStore
one_held = record { locks = first_lock ∷ []; events = acquired_event first_lock ∷ [] }

abbrev two_held : LockStore
two_held = record {
  locks = first_lock ∷ second_lock ∷ [];
  events = acquired_event first_lock ∷ acquired_event second_lock ∷ [];
}

reserves_first :
    reserve
      (err LockError.no_random)
      (pos 100)
      (pos 100)
      (lock_of "l1" "ann" (b'a' ∷ b'?' ∷ []) none)
      none_yet
    ≡ ok (one_held, acquired first_lock)
unfolding program
reserves_first = refl

reserves_second :
    reserve
      (err LockError.no_random)
      (pos 100)
      (pos 100)
      (lock_of "l2" "bob" (b'b' ∷ b'*' ∷ []) none)
      one_held
    ≡ ok (two_held, acquired second_lock)
unfolding program
reserves_second = refl

reached : Reachable (pos 100) (pos 100) two_held
reached =
    after
      (after (empty []) (
        reserves (err LockError.no_random) (pos 100) (lock_of "l1" "ann" (b'a' ∷ b'?' ∷ []) none)
          (acquired first_lock) reserves_first))
      (reserves (err LockError.no_random) (pos 100) (lock_of "l2" "bob" (b'b' ∷ b'*' ∷ []) none)
        (acquired second_lock) reserves_second)

-- The path `ax`, which `a?` matches.
first_path : PathMatches (b'a' ∷ b'?' ∷ []) ((b'a' ∷ b'x' ∷ []) ∷ [])
unfolding program
first_path = ((_, refl, takes refl (takes refl done)), tt)

Reachable-PathMatches_example : ¬ PathMatches (b'b' ∷ b'*' ∷ []) ((b'a' ∷ b'x' ∷ []) ∷ [])
Reachable-PathMatches_example =
    Reachable-PathMatches (pos 100) (pos 100) two_held first_lock second_lock
      ((b'a' ∷ b'x' ∷ []) ∷ []) reached (inl refl) (inr (inl refl)) refl refl refl refl refl
      first_path

patterns_overlap_iff_example :
    (patterns_overlap (b'a' ∷ b'?' ∷ []) (b'*' ∷ b'x' ∷ []) ≡ ok true) ↔ (
      (path : List Text) × PathMatches (b'a' ∷ b'?' ∷ []) path
      × PathMatches (b'*' ∷ b'x' ∷ []) path)
patterns_overlap_iff_example = patterns_overlap_iff (b'a' ∷ b'?' ∷ []) (b'*' ∷ b'x' ∷ [])

patterns_overlap-ends_example :
    patterns_overlap (b'a' ∷ b'?' ∷ []) (b'*' ∷ b'x' ∷ []) ≢ err out_of_rounds
patterns_overlap-ends_example = patterns_overlap-ends (b'a' ∷ b'?' ∷ []) (b'*' ∷ b'x' ∷ [])

checks : check (pos 120) "repo" (b'a' ∷ b'x' ∷ []) "" two_held ≡ ok (first_lock ∷ [])
unfolding program overlapping check
checks = refl

check-IsRow_example : IsRow first_lock (first_lock ∷ []) ↔ (
    (IsRow first_lock two_held.locks × IsChecked (pos 120) "repo" "" first_lock)
    × (patterns_overlap (b'a' ∷ b'x' ∷ []) first_lock.pattern ≡ ok true))
check-IsRow_example =
    check-IsRow (pos 120) "repo" (b'a' ∷ b'x' ∷ []) "" two_held (first_lock ∷ []) first_lock checks
