-- ===== src/Phase/Chain.antt =====
-- Phase chains: the pure functions of internal/phase/phase.go.
pub mod Order
use intercore.Common.{
  ℕ, zero, suc, ◌+◌, ◌-◌, ◌≤◌, ◌<◌, ◌≡◌, refl, Bool, true, false, not, ◌&&◌, ◌||◌, Option, none,
  some, List, [], ◌∷◌, ◌++◌, String, str_eq, ltb, leb, ◌==◌, if◌then◌else◌, length, get_elem?, take,
  drop,
}
use intercore.Common.Text.{Text}
use intercore.Common.Outcome.{Result, ok, err, ◌>>=◌}

pub data PhaseError : Type 0 where
  not_found terminal_run terminal_phase no_transition stale_phase invalid_rollback : PhaseError
  not_in_chain not_ahead cannot_skip_terminal : String → PhaseError
  empty_chain bad_json : PhaseError
  too_few_phases : ℕ → PhaseError
  invalid_name duplicate_phase : String → PhaseError
  gate_error : String → PhaseError
  out_of_rounds : PhaseError

abbrev pub status_active : String
status_active = "active"

abbrev pub status_completed : String
status_completed = "completed"

abbrev pub status_cancelled : String
status_cancelled = "cancelled"

abbrev pub status_failed : String
status_failed = "failed"

unfoldable pub is_terminal_status : String → Bool
is_terminal_status s =
    str_eq s status_completed || str_eq s status_cancelled || str_eq s status_failed

abbrev pub default_phase_chain : List String
default_phase_chain =
    "brainstorm" ∷ "brainstorm-reviewed" ∷ "strategized" ∷ "planned" ∷ "executing" ∷ "review"
    ∷ "polish" ∷ "reflect" ∷ "done" ∷ []

abbrev pub goal_native_phase_chain : List String
goal_native_phase_chain =
    "goal-formed" ∷ "planned" ∷ "executing" ∷ "review" ∷ "polish" ∷ "reflect" ∷ "done" ∷ []

unfoldable pub chain_contains : List String → String → Bool
chain_contains [] p = false
chain_contains (cp ∷ chain) p =
    let rest = chain_contains chain p in if str_eq cp p then true else rest

-- `none` stands for -1.
unfoldable pub chain_phase_index : List String → String → Option ℕ
chain_phase_index [] p = none
chain_phase_index (cp ∷ chain) p =
    let rest = chain_phase_index chain p in
    if str_eq cp p then some 0 else elim rest [ none ↦ none | some i ↦ some (suc i) ]

unfoldable pub chain_next_phase : List String → String → Result PhaseError String
chain_next_phase [] current = err (not_in_chain current)
chain_next_phase (p ∷ []) current =
    if str_eq p current then err no_transition else err (not_in_chain current)
chain_next_phase (p ∷ q ∷ chain) current =
    let rest = chain_next_phase (q ∷ chain) current in if str_eq p current then ok q else rest

-- Two indices that the loop over the chain sets; the last phase that is equal decides.
unfoldable pub transition_loop :
    String → String → ℕ → List String → Option ℕ × Option ℕ → Option ℕ × Option ℕ
transition_loop src dst i [] found = found
transition_loop src dst i (p ∷ chain) (src_idx, dst_idx) =
    transition_loop src dst (suc i) chain
      (if str_eq p src then some i else src_idx, if str_eq p dst then some i else dst_idx)

abbrev pub ahead : Option ℕ × Option ℕ → Bool
ahead (none, dst) = false
ahead (some i, none) = false
ahead (some i, some j) = ltb i j

unfoldable pub chain_is_valid_transition : List String → String → String → Bool
unfolding transition_loop
chain_is_valid_transition chain src dst = ahead (transition_loop src dst 0 chain (none, none))

unfoldable pub chain_is_terminal : List String → String → Bool
chain_is_terminal [] p = false
chain_is_terminal (q ∷ []) p = str_eq q p
chain_is_terminal (q ∷ r ∷ chain) p = chain_is_terminal (r ∷ chain) p

-- The phases behind index `i` up to index `j`.
abbrev pub span : List String → Option ℕ → Option ℕ → Option (List String)
span chain none dst = none
span chain (some i) none = none
span chain (some i) (some j) = if leb j i then none else some (take (j - i) (drop (suc i) chain))

unfoldable pub chain_phases_between : List String → String → String → Option (List String)
unfolding chain_phase_index
chain_phases_between chain src dst =
    span chain (chain_phase_index chain src) (chain_phase_index chain dst)
