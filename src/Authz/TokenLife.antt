-- ===== src/Authz/TokenLife.antt =====
-- Sequences of operations on the table of tokens: those of pkg/authz/token.go, in any order and with any arguments.
pub mod Added
pub mod Marked
pub mod Effects
pub mod Chains
pub mod SingleUse
pub mod Cascade
pub mod Ready
pub mod Fresh
use intercore.Common.{ℕ, ◌≡◌, Bool, List, []}
use intercore.Common.Int.{ℤ}
use intercore.Common.Text.{Text}
use intercore.Common.Outcome.{Result, ok}
use intercore.Authz.Signing.{Crypto, KeyPair}
use intercore.Authz.Tokens.{Token, TokenError}
use intercore.Authz.TokenTable.{TokenStore}
use intercore.Authz.Issuing.{IssueSpec, DelegateSpec, issue_token, delegate_token}
use intercore.Authz.Consuming.{Request, consume_token, consume_token_signed}
use intercore.Authz.Revoking.{revoke_token}

-- One operation that succeeds, from `store` to `after`; what it reads before its transaction, it
-- reads in `seen`.
pub data Step (crypto : Crypto) (seen store : TokenStore) : TokenStore → Type 0 where
  issues :
      {after : TokenStore} (priv : Text) (spec : IssueSpec) (now : ℤ) (id : Text) (t : Token)
      (text : Text)
      → issue_token crypto priv spec now id store ≡ ok (after, t, text)
      → Step crypto seen store after
  delegates :
      {after : TokenStore} (priv : Text) (spec : DelegateSpec) (now : ℤ) (id : Text) (t : Token)
      (text : Text)
      → delegate_token crypto priv spec now id seen store ≡ ok (after, t, text)
      → Step crypto seen store after
  consumes :
      {after : TokenStore} (public_key signer : Text) (request : Request) (now : ℤ)
      (audit_id : Text) (t : Token)
      → consume_token crypto public_key signer request now audit_id seen store ≡ ok (after, t)
      → Step crypto seen store after
  consumes_signed :
      {after : TokenStore} (kp : KeyPair) (request : Request) (now : ℤ) (audit_id : Text)
      (t : Token)
      → consume_token_signed crypto kp request now audit_id seen store ≡ ok (after, t)
      → Step crypto seen store after
  revokes :
      {after : TokenStore} (id : Text) (cascade : Bool) (now : ℤ) (n : ℕ)
      → revoke_token id cascade now seen store ≡ ok (after, n)
      → Step crypto seen store after

-- The operations interleave: each reads at some moment and writes at that moment or later.
pub data Reach (crypto : Crypto) : TokenStore → TokenStore → Type 0 where
  here : {store : TokenStore} → Reach crypto store store
  next :
      {start seen store after : TokenStore}
      → Reach crypto start seen
      → Reach crypto seen store
      → Step crypto seen store after
      → Reach crypto start after

abbrev pub no_tokens : TokenStore
no_tokens = record { tokens = []; audits = [] }

-- The arguments of one consume.
pub record ConsumeCall : Type 0 where
  pub public_key : Text
  pub signer : Text
  pub request : Request
  pub now : ℤ
  pub audit_id : Text
  pub seen : TokenStore

abbrev pub run_consume : Crypto → ConsumeCall → TokenStore → Result TokenError (TokenStore × Token)
run_consume crypto call store =
    consume_token crypto call.public_key call.signer call.request call.now call.audit_id call.seen
      store
