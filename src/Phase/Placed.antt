-- ===== src/Phase/Placed.antt =====
-- Where a run stands, and that moving it keeps it there.
use intercore.Common.{
  ℕ, suc, ◌<◌, ◌≡◌, sym, ◌∙◌, true, false, some, List, String, str_eq, arith, length, Bool-cases,
  inl, inr,
}
use mathlib.Core.Bool.{false≢true}
use intercore.Common.Int.{ℤ}
use intercore.Phase.Chain.{chain_phase_index, chain_is_terminal, status_active, status_completed}
use intercore.Phase.Chain.Order.{Distinct, terminal-index, index-bound}
use intercore.Phase.Machine.{Run, Store, resolve_chain, set_status, rewind}
use intercore.Phase.Advance.Moves.{moved, Forward}

-- A run stands on its chain, at the last phase if it is completed, before it if it is active.
pub record Placed (run : Run) : Type 0 where
  pub distinct : Distinct (resolve_chain run)
  pub position : ℕ
  pub at : chain_phase_index (resolve_chain run) run.phase ≡ some position
  pub before_last :
      str_eq run.status status_active ≡ true
      → chain_is_terminal (resolve_chain run) run.phase ≡ false
  pub at_last :
      str_eq run.status status_completed ≡ true
      → chain_is_terminal (resolve_chain run) run.phase ≡ true

not-last :
    (chain : List String) (p : String) (i : ℕ)
    → Distinct chain
    → chain_phase_index chain p ≡ some i
    → suc i < length chain
    → chain_is_terminal chain p ≡ false
not-last chain p i d h lt = elim (Bool-cases (chain_is_terminal chain p)) [
  | inl e ↦ let last = (terminal-index chain p i d h).0 e in absurd (omega arith)
  | inr e ↦ e
]

pub moved-Placed :
    (now : ℤ) (id : String) (store : Store) (run : Run) (dst : String)
    → Placed run
    → Forward id store run dst
    → Placed (moved now run dst)
unfolding resolve_chain
moved-Placed now id store run dst placed forward =
    elim (Bool-cases (chain_is_terminal (resolve_chain run) dst)) [
      | inl e ↦ rw e (record {
        distinct = placed.distinct;
        position = forward.passed.index;
        at = forward.passed.found;
        before_last = λ a. absurd (false≢true a);
        at_last = λ c. e;
      })
      | inr e ↦ rw e (record {
        distinct = placed.distinct;
        position = forward.passed.index;
        at = forward.passed.found;
        before_last = λ a. e;
        at_last = λ c.
            let last =
              (terminal-index (resolve_chain run) run.phase forward.position placed.distinct
                  forward.at).0
                (placed.at_last c) in
            let bound =
              index-bound (resolve_chain run) dst forward.passed.index forward.passed.found in
            let further = forward.passed.forward in absurd (omega arith);
      })
    ]

pub rewind-Placed :
    (now : ℤ) (run : Run) (target : String) (i j : ℕ)
    → Placed run
    → chain_phase_index (resolve_chain run) target ≡ some i
    → chain_phase_index (resolve_chain run) run.phase ≡ some j
    → i < j
    → Placed (rewind now target run)
unfolding resolve_chain
rewind-Placed now run target i j placed h k lt = record {
  distinct = placed.distinct;
  position = i;
  at = h;
  before_last = λ a.
      not-last (resolve_chain run) target i placed.distinct h
        (let b = index-bound (resolve_chain run) run.phase j k in omega arith);
  at_last = λ c. absurd (false≢true c);
}

pub status-Placed :
    (now : ℤ) (run : Run) (status : String)
    → str_eq status status_active ≡ false
    → str_eq status status_completed ≡ false
    → Placed run
    → Placed (set_status now status run)
unfolding resolve_chain
status-Placed now run status a c placed = record {
  distinct = placed.distinct;
  position = placed.position;
  at = placed.at;
  before_last = λ h. absurd (false≢true (sym a ∙ h));
  at_last = λ h. absurd (false≢true (sym c ∙ h));
}
