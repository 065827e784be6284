-- ===== src/Phase/Parse.antt =====
-- `ParsePhaseChain` of internal/phase/phase.go, behind `json.Unmarshal`, which is an argument.
use Prim.Native.String.{[], ◌∷◌}
use Prim.Native.Char.{code}
use intercore.Common.{
  ℕ, ◌≤◌, ◌≡◌, refl, sym, ap, subst, ◌∙◌, Bool, true, false, not, ◌&&◌, ◌||◌, Option, none, some,
  List, String, str_eq, str_eq_iff, arith, ltb, leb, ◌==◌, if◌then◌else◌, length, ◌↔◌,
}
use mathlib.Core.List.{[], ◌∷◌}
use intercore.Common.Every.{Every}
use intercore.Common.Outcome.{Result, ok, err, ◌>>=◌, ◌>>◌, >>=-eq-ok, ok-injective, guard-eq-ok}
use intercore.Phase.Chain.{
  PhaseError, empty_chain, bad_json, too_few_phases, invalid_name, duplicate_phase, chain_contains,
}
use intercore.Phase.Chain.Order.{Distinct}

abbrev pub is_name_rune : ℕ → Bool
is_name_rune c =
    leb b'a' c && leb c b'z'
    || leb b'A' c && leb c b'Z'
    || leb b'0' c && leb c b'9'
    || c == b'-'
    || c == b'_'

unfoldable pub is_valid_phase_name : String → Bool
is_valid_phase_name String.[] = true
is_valid_phase_name (String.◌∷◌ c s) =
    let rest = is_valid_phase_name s in if is_name_rune (code c) then rest else false

-- A name that the loop accepts.
abbrev pub is_name : String → Bool
is_name p = not (str_eq p "" || not (is_valid_phase_name p))

unfoldable pub check_names : List String → List String → Result PhaseError (Unit {0})
check_names seen [] = ok tt
check_names seen (p ∷ chain) =
    let rest = check_names (p ∷ seen) chain in
    if str_eq p "" || not (is_valid_phase_name p)
    then err (invalid_name p)
    else if chain_contains seen p
    then err (duplicate_phase p)
    else rest

module _ (unmarshal : String → Option (List String)) where
  unfoldable pub decode_chain : String → Result PhaseError (List String)
  decode_chain json = elim (unmarshal json) [ none ↦ err bad_json | some chain ↦ ok chain ]

  unfoldable pub parse_phase_chain : String → Result PhaseError (List String)
  parse_phase_chain json =
      if str_eq json ""
      then err empty_chain
      else (decode_chain json >>= λ chain.
          if ltb (length chain) 2
          then err (too_few_phases (length chain))
          else (check_names [] chain >> ok chain))

-- A list of phases that can be a chain.
pub record IsChain (chain : List String) : Type 0 where
  pub long : 2 ≤ length chain
  pub distinct : Distinct chain
  pub named : Every (λ p. is_name p ≡ true) chain

abbrev Fresh : List String → List String → Type 0
Fresh seen chain = Every (λ p. chain_contains seen p ≡ false) chain

Fresh-cons :
    (p : String) (seen chain : List String)
    → Fresh (p ∷ seen) chain ↔ ((chain_contains chain p ≡ false) × Fresh seen chain)
unfolding chain_contains
Fresh-cons p seen [] = (λ h. (refl, tt), λ h. tt)
Fresh-cons p seen (q ∷ chain) =
    let both = Fresh-cons p seen chain in
    (
      λ h. ground (arith, both, str_eq_iff p q, str_eq_iff q p),
      λ h. ground (arith, both, str_eq_iff p q, str_eq_iff q p),
    )

check_names-ok :
    (seen chain : List String)
    → check_names seen chain ≡ ok tt
    → Distinct chain × Every (λ p. is_name p ≡ true) chain × Fresh seen chain
unfolding check_names
check_names-ok seen [] h = (tt, tt, tt)
check_names-ok seen (p ∷ chain) h =
    let (named, h1) =
      guard-eq-ok (str_eq p "" || not (is_valid_phase_name p)) (invalid_name p) _ h in
    let (new, h2) = guard-eq-ok (chain_contains seen p) (duplicate_phase p) _ h1 in
    let (d, n, f) = check_names-ok (p ∷ seen) chain h2 in
    let (apart, fresh) = (Fresh-cons p seen chain).0 f in
    ((apart, d), (ap not named, n), (new, fresh))

check_names-total :
    (seen chain : List String)
    → Distinct chain
    → Every (λ p. is_name p ≡ true) chain
    → Fresh seen chain
    → check_names seen chain ≡ ok tt
unfolding check_names
check_names-total seen [] d n f = refl
check_names-total seen (p ∷ chain) d n f =
    let named : (str_eq p "" || not (is_valid_phase_name p)) ≡ false = not-true _ n.0 in
    rw (named, f.0)
      (check_names-total (p ∷ seen) chain d.1 n.1 ((Fresh-cons p seen chain).1 (d.0, f.1)))
  where
    not-true : (b : Bool) → not b ≡ true → b ≡ false
    not-true true h = sym h
    not-true false h = refl

decode_chain_iff :
    (unmarshal : String → Option (List String)) (json : String) (chain : List String)
    → (decode_chain unmarshal json ≡ ok chain) ↔ (unmarshal json ≡ some chain)
unfolding decode_chain
decode_chain_iff unmarshal json chain =
    (decoded (unmarshal json), λ h. ap (λ o. elim o [ none ↦ err bad_json | some x ↦ ok x ]) h)
  where
    decoded :
        (o : Option (List String))
        → (elim o [ none ↦ err bad_json | some x ↦ ok x ]) ≡ ok chain
        → o ≡ some chain
    decoded none h = cc
    decoded (some x) h = cc

-- A text that is not empty is parsed exactly to the list that it decodes to, if that is a chain: at least two
-- phases, none twice, each with a valid name.
pub parse_phase_chain_iff :
    (unmarshal : String → Option (List String)) (json : String) (chain : List String)
    → (parse_phase_chain unmarshal json ≡ ok chain)
      ↔ ((str_eq json "" ≡ false) × (unmarshal json ≡ some chain) × IsChain chain)
unfolding parse_phase_chain chain_contains
parse_phase_chain_iff unmarshal json chain = (parses, accepts)
  where
    parses :
        parse_phase_chain unmarshal json ≡ ok chain
        → (str_eq json "" ≡ false) × (unmarshal json ≡ some chain) × IsChain chain
    parses h =
        let (full, h1) = guard-eq-ok (str_eq json "") empty_chain _ h in
        let (c, d, h2) = >>=-eq-ok (decode_chain unmarshal json) _ h1 in
        let (long, h3) = guard-eq-ok (ltb (length c) 2) (too_few_phases (length c)) _ h2 in
        let (u, checked, same) = >>=-eq-ok (check_names [] c) _ h3 in
        let (distinct, named, fresh) = check_names-ok [] c checked in
        (
          full,
          (decode_chain_iff unmarshal json c).0 d ∙ ap some (ok-injective same),
          subst IsChain (ok-injective same)
              (record { long = ground arith; distinct = distinct; named = named }),
        )

    nothing : (chain : List String) → Fresh [] chain
    nothing [] = tt
    nothing (p ∷ chain) = (refl, nothing chain)

    accepts :
        (str_eq json "" ≡ false) × (unmarshal json ≡ some chain) × IsChain chain
        → parse_phase_chain unmarshal json ≡ ok chain
    accepts (full, d, c) =
        let long : ltb (length chain) 2 ≡ false = (let l = c.long in ground arith) in
        let checked = check_names-total [] chain c.distinct c.named (nothing chain) in
        rw (full, (decode_chain_iff unmarshal json chain).1 d, long, checked) refl
