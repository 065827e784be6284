-- ===== src/Authz/TokenLife/Cascade.antt =====
-- The cascade of a revocation.
use intercore.Common.{
  ◌≡◌, ◌≢◌, refl, sym, ap, subst, ◌∙◌, Bool, true, false, ◌||◌, inl, inr, some, List, [], ℕ,
  Bool-cases, Option-cases,
}
use mathlib.Core.Option.{some_inj}
use mathlib.Core.Bool.{false≢true}
use intercore.Common.Int.{ℤ}
use intercore.Common.Text.{Text}
use intercore.Common.Outcome.{ok}
use intercore.Authz.Signing.{Crypto, same_text, same_text_refl, is_blank}
use intercore.Authz.Tokens.{Token}
use intercore.Authz.TokenTable.{TokenStore, find_token}
use intercore.Authz.TokenTable.Rows.{changed, find_token-id, find_token-update, Every-find_token}
use intercore.Authz.Issuing.{root_of_chain}
use intercore.Authz.Revoking.{revoke_token, is_live_in_chain, set_revoked}
use intercore.Authz.TokenLife.{Reach, no_tokens, revokes, ConsumeCall, run_consume}
use intercore.Authz.TokenLife.Marked.{revoke-Cascaded}
use intercore.Authz.TokenLife.Effects.{Step-Effect, Effect-UniqueIds}
use intercore.Authz.TokenLife.Chains.{IsTable, IsLinked, Reach-from, Reach-IsTable, Reach-Persists}
use intercore.Authz.TokenLife.SingleUse.{
  IsSpent, IsSpent-claim, Claimed-id, consume-Call, Reach-UniqueIds,
}

-- The rows that stand below the row with the id `root`, and this row itself.
pub data Descends (tokens : List Token) (root : Text) : Token → Type 0 where
  itself : {r : Token} → find_token root tokens ≡ some r → Descends tokens root r
  child :
      {r p : Token}
      → find_token r.id tokens ≡ some r
      → is_blank r.parent_token ≡ false
      → find_token r.parent_token tokens ≡ some p
      → Descends tokens root p
      → Descends tokens root r

Descends-found :
    {tokens : List Token} {root : Text} {r : Token}
    → Descends tokens root r
    → find_token r.id tokens ≡ some r
Descends-found {tokens} {root} {r} (itself h) =
    subst (λ k. find_token k tokens ≡ some r) (sym (find_token-id root tokens r h)) h
Descends-found (child h _ _ _) = h

linked-root :
    (tokens : List Token) (r p : Token)
    → IsLinked tokens r
    → is_blank r.parent_token ≡ false
    → find_token r.parent_token tokens ≡ some p
    → r.root_token ≡ root_of_chain p
linked-root tokens r p (_, _, inl root) named found =
    absurd (false≢true (sym named ∙ ap is_blank root.parent_token))
linked-root tokens r p (_, _, inr (q, found', _, d)) named found =
    d.root_token ∙ ap root_of_chain (some_inj.0 (sym found' ∙ found))

root_of_chain_top : (r : Token) → r.root_token ≡ [] → root_of_chain r ≡ r.id
root_of_chain_top r h = rw h

root_of_chain_below :
    (r : Token) (root : Text) → is_blank root ≡ false → r.root_token ≡ root → root_of_chain r ≡ root
root_of_chain_below r root named h = rw (h, named)

-- Below a root every row names this root.
Descends-root :
    {store : TokenStore} {root : Text} {r target : Token}
    → IsTable store
    → is_blank root ≡ false
    → find_token root store.tokens ≡ some target
    → target.root_token ≡ []
    → Descends store.tokens root r
    → root_of_chain r ≡ root
Descends-root {store} {root} {r} table named found top (itself h) =
    root_of_chain_top r (ap (λ x. x.root_token) (some_inj.0 (sym h ∙ found)) ∙ top)
    ∙ find_token-id root store.tokens r h
Descends-root {store} {root} {r} table named found top (child {p = p} h n f d) =
    root_of_chain_below r root named (
      linked-root store.tokens r p
        (Every-find_token (IsLinked store.tokens) r.id store.tokens r table.linked h) n f
      ∙ Descends-root table named found top d)

or-true : (a b : Bool) → b ≡ true → (a || b) ≡ true
or-true true b h = refl
or-true false b h = h

in-chain :
    (id : Text) (r : Token)
    → root_of_chain r ≡ id
    → (same_text r.id id || same_text r.root_token id) ≡ true
in-chain id r top = elim (Bool-cases (is_blank r.root_token)) [
  | inl e ↦
      let own : r.id ≡ id = rw e at top in
      subst (λ k. (same_text r.id k || same_text r.root_token k) ≡ true) own
        (rw (same_text_refl r.id))
  | inr e ↦
      let own : r.root_token ≡ id = rw e at top in
      or-true (same_text r.id id) _
        (subst (λ k. same_text r.root_token k ≡ true) own (same_text_refl r.root_token))
]

-- The chain's rows are revoked.
changed-IsSpent :
    (id : Text) (now : ℤ) (r : Token)
    → root_of_chain r ≡ id
    → IsSpent (changed (is_live_in_chain id) (set_revoked now) r)
changed-IsSpent id now r top = elim (Option-cases r.revoked_at) [
  | inl e ↦ inr (rw (in-chain id r top, e) (λ n. cc))
  | inr (at, e) ↦ inr (rw (in-chain id r top, e) (λ n. cc))
]

module _ {crypto : Crypto} (id : Text) (now : ℤ) {n : ℕ} (call : ConsumeCall)
    {seen store after later end : TokenStore} {r t : Token} where
  -- Once a cascade from a root has succeeded, no consume ever takes this root or a token that
  -- stood below it, however deep, when the cascade was made; other operations may stand between
  -- the cascade's own read and its write.
  pub cascade-Descends :
      Reach crypto no_tokens seen
      → Reach crypto seen store
      → revoke_token id true now seen store ≡ ok (after, n)
      → Descends store.tokens id r
      → Reach crypto after later
      → run_consume crypto call later ≡ ok (end, t)
      → t.id ≢ r.id
  cascade-Descends reached waited revoked below between consumed same =
      let c = revoke-Cascaded id now seen store after n revoked in
      let table = Reach-from (Reach-IsTable crypto seen reached) waited in
      let (target, found, l) = Reach-Persists waited id c.target c.found in
      let top : target.root_token ≡ [] = ap (λ x. x.root_token) l.same ∙ c.root in
      let chain = Descends-root table c.named found top below in
      let d = consume-Call crypto call later end t consumed in
      let u =
        Effect-UniqueIds seen store after
          (Step-Effect crypto seen store after (revokes id true now n revoked)) table.unique in
      let matches = is_live_in_chain id in
      let spent_row =
        find_token-update matches (set_revoked now) (λ x. refl) r.id store.tokens r
          (Descends-found below) in
      IsSpent-claim d.id call.now call.request.caller after.tokens later.tokens d.tokens
        (changed matches (set_revoked now) r) (Reach-UniqueIds u between) (Reach-Persists between)
        (subst (λ i. find_token i after.tokens ≡ some (changed matches (set_revoked now) r))
          (sym same ∙ Claimed-id d)
          (subst (λ ts. find_token r.id ts ≡ some (changed matches (set_revoked now) r))
            (sym c.marked) spent_row))
        (changed-IsSpent id now r chain) d.claimed
