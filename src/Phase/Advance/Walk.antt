-- ===== src/Phase/Advance/Walk.antt =====
-- The walk past skipped phases: it ends, and what it passes.
use intercore.Common.{
  ℕ, zero, suc, ◌+◌, ◌≤◌, ◌<◌, ◌≡◌, refl, sym, ap, subst, ◌==◌, ==_iff, ◌∙◌, Bool, true, false, not,
  ◌&&◌, some, List, String, arith, length, Bool-cases, ◌⊎◌, inl, inr,
}
use intercore.Common.Outcome.{ok}
use intercore.Phase.Chain.{chain_next_phase, chain_phase_index, chain_is_terminal}
use intercore.Phase.Chain.Order.{Distinct, index-bound, next-step, index-injective, terminal-index}
use intercore.Phase.Advance.{skip_walk}

passing : (a b : Bool) → (a && not b) ≡ true → (a ≡ true) × (b ≡ false)
passing a b h = ground arith

halts : (a b : Bool) → b ≡ true → (a && not b) ≡ false
halts a b h = ground arith

stopping : (a b : Bool) → (a && not b) ≡ false → (a ≡ false) ⊎ (b ≡ true)
stopping a b h = ground arith

-- Where the walk from index `i` stops, and what it passed.
pub record Passed (chain : List String) (skipped : String → Bool) (i : ℕ) (q : String)
    : Type 0 where
  pub index : ℕ
  pub found : chain_phase_index chain q ≡ some index
  pub forward : i ≤ index
  pub between :
      (r : String) (m : ℕ)
      → chain_phase_index chain r ≡ some m
      → i ≤ m
      → m < index
      → skipped r ≡ true
  pub stops : (skipped q ≡ false) ⊎ (chain_is_terminal chain q ≡ true)

module _ (chain : List String) (skipped : String → Bool) (distinct : Distinct chain) where
  -- On a chain of distinct phases the walk ends: as many rounds as there are phases behind the
  -- first are enough.
  pub skip_walk-total :
      (n : ℕ) (p : String) (i : ℕ)
      → chain_phase_index chain p ≡ some i
      → length chain ≤ suc (n + i)
      → (q : String) × (skip_walk n chain skipped p ≡ ok q)
  unfolding skip_walk
  skip_walk-total zero p i h le =
      let last : chain_is_terminal chain p ≡ true =
        (terminal-index chain p i distinct h).1
          (let bound = index-bound chain p i h in omega arith) in
      (p, rw (halts (skipped p) _ last) refl)
  skip_walk-total (suc n) p i h le =
      elim (Bool-cases (skipped p && not (chain_is_terminal chain p))) [
        | inl e ↦
            let (q, found, index) = next-step chain p i distinct h (passing (skipped p) _ e).1 in
            let (r, walk) = skip_walk-total n q (suc i) index (omega arith) in
            (r, rw (e, found) walk)
        | inr e ↦ (p, rw e refl)
      ]

  walk_on :
      (n : ℕ) (p next : String)
      → (skipped p && not (chain_is_terminal chain p)) ≡ true
      → chain_next_phase chain p ≡ ok next
      → skip_walk (suc n) chain skipped p ≡ skip_walk n chain skipped next
  unfolding skip_walk
  walk_on n p next e found = rw (e, found) refl

  here :
      (p : String) (i : ℕ)
      → chain_phase_index chain p ≡ some i
      → (skipped p && not (chain_is_terminal chain p)) ≡ false
      → Passed chain skipped i p
  here p i h e = record {
    index = i;
    found = h;
    forward = omega arith;
    between = λ r m k le lt. absurd (omega arith);
    stops = stopping (skipped p) _ e;
  }

  further :
      (p : String) (i : ℕ) (q : String)
      → chain_phase_index chain p ≡ some i
      → skipped p ≡ true
      → Passed chain skipped (suc i) q
      → Passed chain skipped i q
  further p i q h s w = record {
    index = w.index;
    found = w.found;
    forward = let le = w.forward in omega arith;
    between = λ r m k le lt. elim (Bool-cases (m == i)) [
      | inl e ↦ ap skipped (index-injective chain r p i (k ∙ ap some ((==_iff m i).0 e)) h) ∙ s
      | inr e ↦ w.between r m k (ground arith) lt
    ];
    stops = w.stops;
  }

  pub skip_walk-Passed :
      (n : ℕ) (p : String) (i : ℕ) (q : String)
      → chain_phase_index chain p ≡ some i
      → skip_walk n chain skipped p ≡ ok q
      → Passed chain skipped i q
  unfolding skip_walk
  skip_walk-Passed zero p i q h w =
      elim (Bool-cases (skipped p && not (chain_is_terminal chain p))) [
        | inl e ↦ ground arith
        | inr e ↦ subst (Passed chain skipped i) (ground arith) (here p i h e)
      ]
  skip_walk-Passed (suc n) p i q h w =
      elim (Bool-cases (skipped p && not (chain_is_terminal chain p))) [
        | inl e ↦
            let (next, found, index) = next-step chain p i distinct h (passing (skipped p) _ e).1 in
            further p i q h (passing (skipped p) _ e).0
              (skip_walk-Passed n next (suc i) q index (sym (walk_on n p next e found) ∙ w))
        | inr e ↦ subst (Passed chain skipped i) (ground arith) (here p i h e)
      ]
