-- ===== src/Lib.antt =====
-- A verification library for intercore (`ic`), the kernel of a multi-agent engineering system: it
-- keeps runs, locks, policies and their audit trail in one SQLite database, and the command line
-- cmd/ic calls the components below on it. A component reads and writes the rows of its tables in
-- one transaction for most operations; components meet through these tables and through callbacks
-- that record events.
--
-- What is modelled, and where:
--
-- pkg/autonomy (the delegation ladder L0-L5)
--   Autonomy/Level.antt   autonomy.go: ParseLevel, Validate, Resolve and the names of the levels
--   Autonomy/Ops.antt     ops.go: the operations with a floor, MinLevelForAuto, PermitsAuto
--   `strconv.Unquote` and `json.Unmarshal` are the fields of `Decoders`, an argument of `resolve`.
--
-- pkg/authz (which operation an agent may do without a human)
--   Authz/Policy.antt     policy.go: rules, modes and the values of a requirement
--   Authz/Check.antt      evaluator.go: Check, Evaluate, matchRule, applyDelegationCeiling
--   Authz/Merge.antt      merge.go: MergePolicies, mergeRule, mergeRequires, insertRule
--   Check consults the delegation ladder. Times are int64 nanoseconds with their wrap-around, and
--   the minute arithmetic of `vetted_within_minutes` is the code's. A requirements map is a list
--   with one entry for each key; Go visits a map in any order.
--
-- pkg/authz (tokens: one-time permissions that agents pass on)
--   Authz/Signing.antt    sign.go, keys.go: the payloads, the check of a key, Sign and Verify
--   Authz/Tokens.antt     token.go: tokens, error classes, EncodeTokenString, ParseTokenString
--   Authz/TokenTable.antt token.go, internal/db/schema.sql: the rows and the queries
--   Authz/Issuing.antt, Consuming.antt, Revoking.antt   token.go: IssueToken, DelegateToken,
--                         ConsumeToken, ConsumeTokenSigned, RevokeToken
--   Authz/TokenLife.antt  the operations in any order
--   Texts are lists of runes, keys and signatures lists of bytes. Ed25519, NFC, the ULID parser and
--   the encoder of the vetting note are the fields of `Crypto`, an argument. Delegate, consume and a
--   cascade read before their transaction, so they take two tables, the one they read and the one
--   they write; the sequences let other operations stand in between. What ulid.Make returns is an
--   argument. decimal_rounds has one round more than the number, since a round divides it by ten.
--
-- internal/coordination (reservations of files by agents)
--   Coordination/Ranges.antt   glob.go: normalizeRanges, rangesOverlap, intersectRanges,
--                              subtractRanges
--   Coordination/Glob.antt     glob.go: parseSegment, parseClass, ValidateComplexity
--   Coordination/Search.antt   glob.go: segmentPatternsOverlap, PatternsOverlap
--   Coordination/Locks.antt    store.go: the lock table and Reserve
--   Coordination/Updates.antt  store.go: Release, Check, Transfer, Sweep
--   Coordination/Exclusion.antt, Life.antt, Holders.antt: the table under sequences of operations
--   A text is a list of runes. The table is a list of rows in the order of insertion; SQLite
--   promises no order to a query without one, and only the choice of the conflict that Reserve
--   reports depends on it. Wall-clock readings are arguments; created_at plus the time to live
--   wraps as int64 does. `filepath.ToSlash` changes nothing on the systems that the program runs on.
--   What generateID returns is an argument of `reserve`. Sweep, which updates the expired rows one
--   after the other without a transaction, is one step.
--
-- internal/phase and pkg/phase (the life of a run)
--   Phase/Chain.antt      phase.go: the chain functions, the status and chain constants
--   Phase/Parse.antt      phase.go: ParsePhaseChain, with `json.Unmarshal` as an argument
--   Phase/Machine.antt    tx_queriers.go, store.go: the rows of runs and phase_events, GetQ,
--                         UpdatePhaseQ, UpdateStatusQ, RollbackPhaseQ, AddEventQ, SkippedPhasesQ
--   Phase/Advance.antt    machine.go: Advance, Rollback; store.go: SkipPhase
--   Phase/Placed.antt, Lifecycle.antt: the runs under sequences of operations
--   Phase/Checks.antt     gate.go: the checks and the queriers that they read
--   Phase/Gate.antt       gate.go: evaluateGate, EvaluateGate, the gate of Advance
--   SkipPhase reads and inserts without a transaction; it is one step.
--   The gate that Advance evaluates is an argument, and `gate_of` is what the program puts for it.
--   Artifacts, agents, verdicts, child runs, budgets and proofs are answers of queriers, which may
--   fail; the reading of a run's metadata and the verification of a proof file stand with them.
--   The evidence of a verdict keeps each check with its result and count, not the free text.
--
-- internal/portfolio (projects that are delivered together)
--   Portfolio/Deps.antt   deps.go: the dependency table, hasPath, Add, Remove, List and the queries
--   Portfolio/Deps/Life.antt: the table under sequences of operations
--   Project names are lists of runes, which SQLite orders as it orders their UTF-8. The row's foreign
--   key is a list of the runs that exist. Add is one step, as its transaction is.
--
-- internal/publish (versions of plugins, and the cache of them)
--   Publish/Version.antt  version.go: ParseVersion, FormatVersion, BumpVersion, CompareVersions
--   Publish/Version/Parsed.antt, Raise.antt, Order.antt: what parses, what a bump makes, the order
--   Publish/Prune.antt    cache.go: sortVersionsDesc, pruneCandidates, pruneStaleVersions;
--                         liveness.go: heldVersionDirs
--   Publish/Prune/Kept.antt, Deleted.antt, Newest.antt: what a prune may delete, and what it spares
--   A version is a list of runes. The pattern semverRe is written out as the groups it finds; the
--   numbers are int64, and a bump wraps as they do. The answer of a comparison, -1, 0 or 1, is a
--   Sign. A path is the components of a cleaned absolute path; the resolved root, the sizes of
--   directories and the success of a removal are arguments. The cache's tree, the installed and the
--   protected versions are arguments too, as they are in the code; Go visits the tree in any order.
--   An empty root, under which the code finds no holder, is an empty list of roots. The final sorting
--   of the report's held versions is left out.
--
-- Common.antt passes on the library's names; its children hold Boolean tests, lists over the native
-- numbers, int64 arithmetic, results with errors, maps and text.
--
-- Errors are values of a `Result`; an operation that returns an error leaves the store as it was,
-- as the deferred rollback of its transaction does. Errors of the database itself, cancelled
-- contexts and the effect of callbacks are not modelled.
--
-- Loops. A loop over a slice is recursion on the list. The others have a number of rounds:
--   parse_rounds, class_rounds   the length of the text, since a round reads a rune;
--   overlap_rounds, intersect_rounds   the lengths of both lists, since a round drops a range;
--   search_rounds   the number of pairs of token positions, since a round takes one from the queue
--                   and a pair is queued once; add_closure: twice that number and one, since a
--                   visit pushes two pairs at most;
--   path_rounds     twice the number of rows and one, since a row puts a project on the stack once
--                   for the start and once for a visit, and a round takes one off; has_path ends
--                   with an answer, so that the error search_unfinished of `add` never comes up;
--   skip_walk       the length of the chain, since a step goes one phase on and phases are distinct.
--
-- Not modelled: the command line (cmd/ic), the database layer (internal/db), policy files and their
-- hashes, key files, and the listing of tokens (pkg/authz), listing and creation of runs and locks for display,
-- event envelopes and replay inputs, run metadata, the goal's activity stamp that UpdatePhaseQ
-- touches, and the packages of internal/ and pkg/ that are not named above: they store records,
-- drive git and other processes, or belong to components of their own.
pub mod Common
pub mod Autonomy
pub mod Authz
pub mod Coordination
pub mod Phase
pub mod Portfolio
pub mod Publish
