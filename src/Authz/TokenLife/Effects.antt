-- ===== src/Authz/TokenLife/Effects.antt =====
-- What an operation does to the table, and what stays.
use intercore.Common.{sym, subst}
use intercore.Authz.Signing.{Crypto}
use intercore.Authz.TokenTable.{TokenStore}
use intercore.Authz.TokenTable.Rows.{
  UniqueIds, Persists, append-UniqueIds, append-Persists, update_tokens-UniqueIds,
  update_tokens-Persists,
}
use intercore.Authz.TokenLife.{Step, issues, delegates, consumes, consumes_signed, revokes}
use intercore.Authz.TokenLife.Added.{Effect, adds, marks, issue-Effect, delegate-Effect}
use intercore.Authz.TokenLife.Marked.{
  consume-Claimed, consume_signed-eq-ok, Claimed-Effect, revoke-Effect,
}

pub Step-Effect :
    (crypto : Crypto) (seen store after : TokenStore)
    → Step crypto seen store after
    → Effect seen store after
Step-Effect crypto seen store after (issues priv spec now id t text h) =
    issue-Effect crypto seen store after priv spec now id t text h
Step-Effect crypto seen store after (delegates priv spec now id t text h) =
    delegate-Effect crypto seen store after priv spec now id t text h
Step-Effect crypto seen store after (consumes public_key signer request now audit_id t h) =
    Claimed-Effect request now seen store after t
      (consume-Claimed crypto public_key signer request now audit_id seen store after t h)
Step-Effect crypto seen store after (consumes_signed kp request now audit_id t h) =
    Claimed-Effect request now seen store after t (
      consume-Claimed crypto kp.public_key kp.private_key request now audit_id seen store after t
        (consume_signed-eq-ok crypto kp request now audit_id seen store after t h))
Step-Effect crypto seen store after (revokes id cascade now n h) =
    revoke-Effect id cascade now seen store after n h

pub Effect-Persists :
    (seen store after : TokenStore) → Effect seen store after → Persists store.tokens after.tokens
Effect-Persists seen store after (adds t checks fresh o made) =
    subst (Persists store.tokens) (sym made) (append-Persists store.tokens t)
Effect-Persists seen store after (marks matches change keeps later made) =
    subst (Persists store.tokens) (sym made)
      (update_tokens-Persists matches change keeps later store.tokens)

pub Effect-UniqueIds :
    (seen store after : TokenStore)
    → Effect seen store after
    → UniqueIds store.tokens
    → UniqueIds after.tokens
Effect-UniqueIds seen store after (adds t checks fresh o made) u =
    subst UniqueIds (sym made) (append-UniqueIds store.tokens t u fresh)
Effect-UniqueIds seen store after (marks matches change keeps later made) u =
    subst UniqueIds (sym made) (update_tokens-UniqueIds matches change keeps store.tokens u)
