-- ===== src/Authz/TokenLife/SingleUse.antt =====
-- A token that is consumed or revoked is not consumed again.
use intercore.Common.{◌≡◌, ◌≢◌, refl, sym, ap, subst, ◌∙◌, true, ◌⊎◌, inl, inr, some, none, List}
use mathlib.Core.Option.{some_inj}
use intercore.Common.Int.{ℤ}
use intercore.Common.Text.{Text}
use intercore.Common.Outcome.{ok}
use intercore.Authz.Signing.{Crypto}
use intercore.Authz.Tokens.{Token}
use intercore.Authz.TokenTable.{TokenStore, find_token}
use intercore.Authz.TokenTable.Rows.{
  UniqueIds, Later, Persists, find_token-id, find_token-update, count_tokens-find_token,
}
use intercore.Authz.Consuming.{Request, claim, is_consumable, set_consumed}
use intercore.Authz.TokenLife.{Reach, here, next, no_tokens, ConsumeCall, run_consume}
use intercore.Authz.TokenLife.Marked.{
  Claimed, consume-Claimed, claim-eq-ok, is_consumable-parts, Claimed-Effect,
}
use intercore.Authz.TokenLife.Effects.{Step-Effect, Effect-UniqueIds}
use intercore.Authz.TokenLife.Chains.{Reach-IsTable, Reach-Persists}

abbrev pub IsSpent : Token → Type 0
IsSpent r = (r.consumed_at ≢ none) ⊎ (r.revoked_at ≢ none)

Later-IsSpent : (r r' : Token) → Later r r' → IsSpent r → IsSpent r'
Later-IsSpent r r' l (inl c) = elim (l.consumed) [
  | inl e ↦ absurd (c e)
  | inr e ↦ inl (λ n. c (sym e ∙ n))
]
Later-IsSpent r r' l (inr c) = elim (l.revoked) [
  | inl e ↦ absurd (c e)
  | inr e ↦ inr (λ n. c (sym e ∙ n))
]

pub Reach-UniqueIds :
    {crypto : Crypto} {start store : TokenStore}
    → UniqueIds start.tokens
    → Reach crypto start store
    → UniqueIds store.tokens
Reach-UniqueIds u here = u
Reach-UniqueIds u (next {seen = seen} {store = store} {after = after} before between step) =
    Effect-UniqueIds seen store after (Step-Effect _ seen store after step)
      (Reach-UniqueIds (Reach-UniqueIds u before) between)

-- The claimed row is there and may be consumed.
claim-row :
    (id : Text) (now : ℤ) (caller : Text) (tokens tokens' : List Token)
    → UniqueIds tokens
    → claim id now caller tokens ≡ ok tokens'
    → (r : Token) × (find_token id tokens ≡ some r) × (is_consumable id now caller r ≡ true)
claim-row id now caller tokens tokens' u h =
    count_tokens-find_token (is_consumable id now caller) id
      (λ t e. (is_consumable-parts id now caller t e).0) tokens u
      (claim-eq-ok id now caller tokens tokens' h).0

-- A row that is spent is not claimed, whatever happens in between.
pub IsSpent-claim :
    (id : Text) (now : ℤ) (caller : Text) (old new tokens' : List Token) (r : Token)
    → UniqueIds new
    → Persists old new
    → find_token id old ≡ some r
    → IsSpent r
    → ¬ (claim id now caller new ≡ ok tokens')
IsSpent-claim id now caller old new tokens' r u kept found spent h =
    let (r', found', later) = kept id r found in
    let (x, fx, consumable) = claim-row id now caller new tokens' u h in
    let (_, unconsumed, unrevoked) = is_consumable-parts id now caller x consumable in
    let same : r' ≡ x = some_inj.0 (sym found' ∙ fx) in
    elim (Later-IsSpent r r' later spent) [
      | inl c ↦ c (ap (λ y. y.consumed_at) same ∙ unconsumed)
      | inr c ↦ c (ap (λ y. y.revoked_at) same ∙ unrevoked)
    ]

-- The row behind a consume is consumed.
Claimed-IsSpent :
    {request : Request} {now : ℤ} {seen store after : TokenStore} {t : Token}
    → UniqueIds store.tokens
    → (c : Claimed request now seen store after t)
    → (r : Token) × (find_token c.id after.tokens ≡ some r) × IsSpent r
Claimed-IsSpent {request} {now} {seen} {store} {after} u c =
    let (r, found, consumable) =
      claim-row c.id now request.caller store.tokens c.tokens u c.claimed in
    let made = c.kept ∙ (claim-eq-ok c.id now request.caller store.tokens c.tokens c.claimed).1 in
    (
      set_consumed now r,
      subst (λ ts. find_token c.id ts ≡ some (set_consumed now r)) (sym made)
          (find_token-update (is_consumable c.id now request.caller) (set_consumed now) (λ x. refl)
              c.id store.tokens r found
            ∙ rw consumable),
      inl (λ e. cc),
    )

pub Claimed-id :
    {request : Request} {now : ℤ} {seen store after : TokenStore} {t : Token}
    → (c : Claimed request now seen store after t) → t.id ≡ c.id
Claimed-id {seen = seen} c = ap (λ x. x.id) c.result ∙ find_token-id c.id seen.tokens c.row c.found

pub consume-Call :
    (crypto : Crypto) (call : ConsumeCall) (store after : TokenStore) (t : Token)
    → run_consume crypto call store ≡ ok (after, t)
    → Claimed call.request call.now call.seen store after t
consume-Call crypto call store after t h =
    consume-Claimed crypto call.public_key call.signer call.request call.now call.audit_id call.seen
      store after t h

module _ {crypto : Crypto} (first second : ConsumeCall) {store after later end : TokenStore}
    {t t' : Token} where
  -- Two consumes that succeed never take the same token, whatever operations stand before them
  -- and between them, and whatever table each of them read before its transaction.
  pub consume-once :
      Reach crypto no_tokens store
      → run_consume crypto first store ≡ ok (after, t)
      → Reach crypto after later
      → run_consume crypto second later ≡ ok (end, t')
      → t.id ≢ t'.id
  consume-once reached h between k same =
      let c = consume-Call crypto first store after t h in
      let d = consume-Call crypto second later end t' k in
      let u = (Reach-IsTable crypto store reached).unique in
      let v =
        Effect-UniqueIds first.seen store after
          (Claimed-Effect first.request first.now first.seen store after t c) u in
      let (r, found, spent) = Claimed-IsSpent u c in
      let ids : c.id ≡ d.id = sym (Claimed-id c) ∙ same ∙ Claimed-id d in
      IsSpent-claim d.id second.now second.request.caller after.tokens later.tokens d.tokens r
        (Reach-UniqueIds v between) (Reach-Persists between)
        (subst (λ i. find_token i after.tokens ≡ some r) ids found) spent d.claimed
