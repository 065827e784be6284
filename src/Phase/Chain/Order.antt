-- ===== src/Phase/Chain/Order.antt =====
-- The order of a chain: the next phase, the last phase, and what the transition tests decide.
use intercore.Common.{
  ℕ, suc, ◌<◌, ◌≡◌, ◌≢◌, refl, sym, ◌∙◌, ap, true, false, some, List, [], ◌∷◌, arith, String,
  str_eq, str_eq_iff, ltb, ltb→lt, length, Bool-cases, Option-cases, inl, inr, ◌↔◌,
}
use mathlib.Core.Bool.{false≢true}
use mathlib.Core.Option.{some_inj}
use intercore.Common.Outcome.{ok}
use intercore.Phase.Chain.{chain_contains, chain_phase_index, chain_next_phase, chain_is_terminal}

-- No phase twice, as `ParsePhaseChain` requires.
abbrev pub Distinct : List String → Type 0
Distinct [] = Unit
Distinct (p ∷ chain) = (chain_contains chain p ≡ false) × Distinct chain

index-here :
    (a : String) (chain : List String) (p : String)
    → str_eq a p ≡ true
    → chain_phase_index (a ∷ chain) p ≡ some 0
unfolding chain_phase_index
index-here a chain p e = rw e refl

index-later :
    (a : String) (chain : List String) (p : String) (i : ℕ)
    → str_eq a p ≡ false
    → chain_phase_index chain p ≡ some i
    → chain_phase_index (a ∷ chain) p ≡ some (suc i)
unfolding chain_phase_index
index-later a chain p i e h = rw (e, h) refl

-- A phase that the chain has differs from one that it does not have.
index-differs :
    (chain : List String) (a p : String) (i : ℕ)
    → chain_contains chain a ≡ false
    → chain_phase_index chain p ≡ some i
    → str_eq a p ≡ false
unfolding chain_phase_index chain_contains
index-differs [] a p i c h = cc
index-differs (b ∷ chain) a p i c h = elim (Option-cases (chain_phase_index chain p)) [
  | inl e ↦ ground (arith, str_eq_iff a p, str_eq_iff b p, str_eq_iff b a)
  | inr (j, e) ↦
      ground (arith, str_eq_iff a p, str_eq_iff b p, str_eq_iff b a, index-differs chain a p j)
]

index-cons :
    (a : String) (chain : List String) (p : String) (i : ℕ)
    → chain_phase_index (a ∷ chain) p ≡ some i
    → str_eq a p ≡ false
    → (j : ℕ) × (i ≡ suc j) × (chain_phase_index chain p ≡ some j)
unfolding chain_phase_index
index-cons a chain p i h e = ground arith

pub index-next :
    (chain : List String) (p q : String)
    → Distinct chain
    → chain_next_phase chain p ≡ ok q
    → (i : ℕ) × (chain_phase_index chain p ≡ some i) × (chain_phase_index chain q ≡ some (suc i))
unfolding chain_next_phase chain_contains
index-next [] p q d h = cc
index-next (a ∷ []) p q d h = elim (Bool-cases (str_eq a p)) [
  | inl e ↦ ground arith
  | inr e ↦ ground arith
]
index-next (a ∷ b ∷ chain) p q d h = elim (Bool-cases (str_eq a p)) [
  | inl e ↦
      let same : b ≡ q = ground arith in
      (
        0,
        index-here a (b ∷ chain) p e,
        index-later a (b ∷ chain) q 0 (ground (arith, str_eq_iff a q, str_eq_iff b a))
            (index-here b chain q (ground (arith, str_eq_iff b q))),
      )
  | inr e ↦
      let (i, ip, iq) = index-next (b ∷ chain) p q d.1 (ground arith) in
      (
        suc i,
        index-later a (b ∷ chain) p i e ip,
        index-later a (b ∷ chain) q (suc i) (index-differs (b ∷ chain) a q (suc i) d.0 iq) iq,
      )
]

pub index-bound :
    (chain : List String) (p : String) (i : ℕ)
    → chain_phase_index chain p ≡ some i
    → i < length chain
unfolding chain_phase_index
index-bound [] p i h = cc
index-bound (a ∷ chain) p i h = elim (Option-cases (chain_phase_index chain p)) [
  | inl e ↦ ground arith
  | inr (j, e) ↦ ground (arith, index-bound chain p j)
]

terminal-contains :
    (chain : List String) (p : String)
    → chain_is_terminal chain p ≡ true
    → chain_contains chain p ≡ true
unfolding chain_is_terminal chain_contains
terminal-contains [] p h = cc
terminal-contains (a ∷ []) p h = ground arith
terminal-contains (a ∷ b ∷ chain) p h = ground (arith, terminal-contains (b ∷ chain) p h)

-- The last phase has the last index.
pub terminal-index :
    (chain : List String) (p : String) (i : ℕ)
    → Distinct chain
    → chain_phase_index chain p ≡ some i
    → (chain_is_terminal chain p ≡ true) ↔ (suc i ≡ length chain)
unfolding chain_phase_index chain_is_terminal chain_contains
terminal-index [] p i d h = cc
terminal-index (a ∷ []) p i d h = ground arith
terminal-index (a ∷ b ∷ chain) p i d h = elim (Bool-cases (str_eq a p)) [
  | inl e ↦
      let first : i ≡ 0 = ground arith in
      let differs : chain_is_terminal (b ∷ chain) p ≡ true → ⊥ = λ t. false≢true (
        sym d.0
        ∙ ap (chain_contains (b ∷ chain)) ((str_eq_iff a p).0 e)
        ∙ terminal-contains (b ∷ chain) p t) in
      (λ t. elim (differs t) [ ], λ l. absurd (omega arith))
  | inr e ↦
      let (j, same, later) = index-cons a (b ∷ chain) p i h e in
      let both = terminal-index (b ∷ chain) p j d.1 later in
      (λ t. omega (arith, both.0 t), λ l. both.1 (omega arith))
]

pub next-total :
    (chain : List String) (p : String) (i : ℕ)
    → chain_phase_index chain p ≡ some i
    → suc i < length chain
    → (q : String) × (chain_next_phase chain p ≡ ok q)
unfolding chain_next_phase
next-total [] p i h t = elim t [ ]
next-total (a ∷ []) p i h t = ground arith
next-total (a ∷ b ∷ chain) p i h t = elim (Bool-cases (str_eq a p)) [
  | inl e ↦ (b, rw e refl)
  | inr e ↦
      let (j, same, later) = index-cons a (b ∷ chain) p i h e in
      let (q, found) = next-total (b ∷ chain) p j later (omega arith) in (q, rw e found)
]

pub index-injective :
    (chain : List String) (p q : String) (i : ℕ)
    → chain_phase_index chain p ≡ some i
    → chain_phase_index chain q ≡ some i
    → p ≡ q
unfolding chain_phase_index
index-injective [] p q i h k = cc
index-injective (a ∷ chain) p q i h k = elim (Bool-cases (str_eq a p)) [
  | inl e ↦ elim (Bool-cases (str_eq a q)) [
    | inl f ↦ sym ((str_eq_iff a p).0 e) ∙ (str_eq_iff a q).0 f
    | inr f ↦
        let (j, same, later) = index-cons a chain q i k f in
        let first = index-here a chain p e in absurd (zero≢suc (sym first ∙ h ∙ ap some same))
  ]
  | inr e ↦
      let (j, same, later) = index-cons a chain p i h e in
      elim (Bool-cases (str_eq a q)) [
        | inl f ↦
            let first = index-here a chain q f in absurd (zero≢suc (sym first ∙ k ∙ ap some same))
        | inr f ↦
            let (l, same', later') = index-cons a chain q i k f in
            index-injective chain p q j later (later' ∙ ap some (omega arith))
      ]
]
  where
    zero≢suc : {j : ℕ} → some 0 ≢ some (suc j)
    zero≢suc e = cc

-- A phase that is not the last has a next one.
pub next-step :
    (chain : List String) (p : String) (i : ℕ)
    → Distinct chain
    → chain_phase_index chain p ≡ some i
    → chain_is_terminal chain p ≡ false
    → (q : String) × (chain_next_phase chain p ≡ ok q) × (chain_phase_index chain q ≡ some (suc i))
next-step chain p i d h t =
    let last = terminal-index chain p i d h in
    let bound = index-bound chain p i h in
    let (q, found) = next-total chain p i h (elim (Bool-cases (ltb (suc i) (length chain))) [
      | inl l ↦ ltb→lt (suc i) (length chain) l
      | inr l ↦ absurd (false≢true (sym t ∙ last.1 (ground arith)))
    ]) in
    let (j, ip, iq) = index-next chain p q d found in
    (q, found, iq ∙ ap (λ n. some (suc n)) (some_inj.0 (sym ip ∙ h)))
