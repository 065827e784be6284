-- ===== src/Authz/TokenLife/Marked.antt =====
-- What consume and revoke do to the table.
use intercore.Common.{
  ℕ, ◌≡◌, refl, sym, ap, subst, ◌∙◌, Bool, true, false, not, ◌&&◌, ◌||◌, none, some, List, [], ◌∷◌,
  ◌==◌, is_some, Bool-cases, inl, inr, arith,
}
use intercore.Common.Int.{ℤ}
use intercore.Common.Text.{Text}
use intercore.Common.Outcome.{ok, ◌>>◌, >>=-eq-ok, guard-eq-ok, ok-injective}
use intercore.Authz.Signing.{same_text, is_blank, Crypto, KeyPair, validate_key_pair}
use intercore.Authz.Tokens.{Token, parse_token_string}
use intercore.Authz.TokenTable.{
  TokenStore, is_positive, signing, find_token, get_token, update_tokens, count_tokens,
}
use intercore.Authz.TokenTable.Rows.{Later, Later-refl, changed}
use intercore.Authz.Consuming.{
  Request, check_signature, check_scope, audit, audit_row, insert_audit, consume_token,
  consume_token_signed, commit_consume, check_request, claim, is_consumable, set_consumed,
}
use intercore.Authz.Revoking.{
  revoke_token, revoke_one, revoke_chain, set_revoked, is_live, is_live_in_chain,
}
use intercore.Authz.TokenLife.Added.{Effect, marks, get_token-eq-ok}

-- What the condition of the UPDATE asks of a row.
pub is_consumable-parts :
    (id : Text) (now : ℤ) (caller : Text) (t : Token)
    → is_consumable id now caller t ≡ true
    → (same_text t.id id ≡ true) × (t.consumed_at ≡ none) × (t.revoked_at ≡ none)
unfolding is_consumable
is_consumable-parts id now caller t h = (ground arith, ground arith, ground arith)

set_consumed-Later :
    (id : Text) (now : ℤ) (caller : Text) (t : Token)
    → Later t (changed (is_consumable id now caller) (set_consumed now) t)
set_consumed-Later id now caller t = elim (Bool-cases (is_consumable id now caller t)) [
  | inl e ↦ rw e (record {
    same = refl;
    consumed = inl (is_consumable-parts id now caller t e).1;
    revoked = inr refl;
  })
  | inr e ↦ rw e (Later-refl t)
]

-- The rows that a revocation matches are not revoked yet.
set_revoked-Later :
    (matches : Token → Bool) (now : ℤ)
    → ((t : Token) → matches t ≡ true → t.revoked_at ≡ none)
    → (t : Token) → Later t (changed matches (set_revoked now) t)
set_revoked-Later matches now live t = elim (Bool-cases (matches t)) [
  | inl e ↦ rw e (record { same = refl; consumed = inr refl; revoked = inl (live t e) })
  | inr e ↦ rw e (Later-refl t)
]

pub claim-eq-ok :
    (id : Text) (now : ℤ) (caller : Text) (tokens tokens' : List Token)
    → claim id now caller tokens ≡ ok tokens'
    → (count_tokens (is_consumable id now caller) tokens ≡ 1)
      × (tokens' ≡ update_tokens (is_consumable id now caller) (set_consumed now) tokens)
unfolding claim
claim-eq-ok id now caller tokens tokens' h = (ground arith, ground arith)

-- A consume that succeeds claims the row whose id the request names, and returns that row.
pub record Claimed (request : Request) (now : ℤ) (seen store after : TokenStore) (t : Token)
    : Type 0 where
  pub id : Text
  pub tokens : List Token
  pub row : Token
  pub found : find_token id seen.tokens ≡ some row
  pub claimed : claim id now request.caller store.tokens ≡ ok tokens
  pub kept : after.tokens ≡ tokens
  pub result : t ≡ set_consumed now row

check_row :
    (crypto : Crypto) (public_key sig : Text) (request : Request) (id : Text) (row : Token)
    (found : Text × Token)
    → (check_signature crypto public_key sig row >> check_scope request row >> ok (id, row))
      ≡ ok found
    → (id, row) ≡ found
check_row crypto public_key sig request id row found h =
    let (_, _, out) =
      >>=-eq-ok (check_signature crypto public_key sig row >> check_scope request row) _ h in
    ok-injective out

check_request-found :
    (crypto : Crypto) (public_key : Text) (request : Request) (now : ℤ) (seen : TokenStore)
    (found : Text × Token)
    → check_request crypto public_key request now seen ≡ ok found
    → find_token found.0 seen.tokens ≡ some found.1
unfolding check_request
check_request-found crypto public_key request now seen found h =
    let (_, h1) = guard-eq-ok (is_blank request.caller) _ _ h in
    let (_, h2) = guard-eq-ok (not (is_positive now)) _ _ h1 in
    let (parts, _, h3) = >>=-eq-ok (parse_token_string crypto request.token_string) _ h2 in
    let (row, got, h4) = >>=-eq-ok (get_token seen parts.0) _ h3 in
    subst (λ f. find_token f.0 seen.tokens ≡ some f.1)
      (check_row crypto public_key parts.1 request parts.0 row found h4)
      (get_token-eq-ok seen parts.0 row got).1

commit-Claimed :
    (crypto : Crypto) (public_key signer : Text) (request : Request) (now : ℤ) (audit_id : Text)
    (seen store after : TokenStore) (found : Text × Token) (t : Token)
    → find_token found.0 seen.tokens ≡ some found.1
    → commit_consume crypto public_key signer request now audit_id store found ≡ ok (after, t)
    → Claimed request now seen store after t
unfolding commit_consume
commit-Claimed crypto public_key signer request now audit_id seen store after found t row h =
    let (tokens, claimed, h1) = >>=-eq-ok (claim found.0 now request.caller store.tokens) _ h in
    let (a, _, h2) =
      >>=-eq-ok
        (audit crypto public_key signer (audit_row crypto audit_id now request.caller found.1)) _
        h1 in
    let (audits, _, h3) = >>=-eq-ok (insert_audit a store.audits) _ h2 in
    record {
      id = found.0;
      tokens = tokens;
      row = found.1;
      found = row;
      claimed = claimed;
      kept = ap (λ r. r.0.tokens) (sym (ok-injective h3));
      result = ap (λ r. r.1) (sym (ok-injective h3));
    }

pub consume-Claimed :
    (crypto : Crypto) (public_key signer : Text) (request : Request) (now : ℤ) (audit_id : Text)
    (seen store after : TokenStore) (t : Token)
    → consume_token crypto public_key signer request now audit_id seen store ≡ ok (after, t)
    → Claimed request now seen store after t
unfolding consume_token
consume-Claimed crypto public_key signer request now audit_id seen store after t h =
    let (found, checked, h1) = >>=-eq-ok (check_request crypto public_key request now seen) _ h in
    commit-Claimed crypto public_key signer request now audit_id seen store after found t
      (check_request-found crypto public_key request now seen found checked) h1

pub consume_signed-eq-ok :
    (crypto : Crypto) (kp : KeyPair) (request : Request) (now : ℤ) (audit_id : Text)
    (seen store after : TokenStore) (t : Token)
    → consume_token_signed crypto kp request now audit_id seen store ≡ ok (after, t)
    → consume_token crypto kp.public_key kp.private_key request now audit_id seen store
      ≡ ok (after, t)
unfolding consume_token_signed
consume_signed-eq-ok crypto kp request now audit_id seen store after t h =
    (>>=-eq-ok (signing (validate_key_pair crypto kp)) _ h).2

pub Claimed-Effect :
    (request : Request) (now : ℤ) (seen store after : TokenStore) (t : Token)
    → Claimed request now seen store after t
    → Effect seen store after
Claimed-Effect request now seen store after t c =
    marks (is_consumable c.id now request.caller) (set_consumed now) (λ r. refl)
      (set_consumed-Later c.id now request.caller)
      (c.kept ∙ (claim-eq-ok c.id now request.caller store.tokens c.tokens c.claimed).1)

is_live-none : (id : Text) (t : Token) → is_live id t ≡ true → t.revoked_at ≡ none
is_live-none id t h = ground arith

is_live_in_chain-none : (id : Text) (t : Token) → is_live_in_chain id t ≡ true → t.revoked_at ≡ none
is_live_in_chain-none id t h = ground arith

-- A cascade that succeeds has found a root, and marks all its chain.
pub record Cascaded (id : Text) (now : ℤ) (seen store after : TokenStore) : Type 0 where
  pub target : Token
  pub named : is_blank id ≡ false
  pub found : find_token id seen.tokens ≡ some target
  pub root : target.root_token ≡ []
  pub marked : after.tokens ≡ update_tokens (is_live_in_chain id) (set_revoked now) store.tokens

blank-nil : (s : Text) → is_blank s ≡ true → s ≡ []
blank-nil [] h = refl
blank-nil (c ∷ s) h = cc

revoke_chain-Cascaded :
    (id : Text) (now : ℤ) (seen store after : TokenStore) (n : ℕ) (target : Token)
    → is_blank id ≡ false
    → find_token id seen.tokens ≡ some target
    → revoke_chain id now store target ≡ ok (after, n)
    → Cascaded id now seen store after
unfolding revoke_chain
revoke_chain-Cascaded id now seen store after n target named found h =
    let (root, h1) =
      guard-eq-ok (not (is_blank target.parent_token) || not (is_blank target.root_token)) _ _ h in
    record {
      target = target;
      named = named;
      found = found;
      root = blank-nil target.root_token (ground arith);
      marked = ap (λ r. r.0.tokens) (sym (ok-injective h1));
    }

pub revoke-Cascaded :
    (id : Text) (now : ℤ) (seen store after : TokenStore) (n : ℕ)
    → revoke_token id true now seen store ≡ ok (after, n)
    → Cascaded id now seen store after
unfolding revoke_token
revoke-Cascaded id now seen store after n h =
    let (named, h1) = guard-eq-ok (is_blank id) _ _ h in
    let (_, h2) = guard-eq-ok (not (is_positive now)) _ _ h1 in
    let (target, got, h3) = >>=-eq-ok (get_token seen id) _ h2 in
    revoke_chain-Cascaded id now seen store after n target named
      (get_token-eq-ok seen id target got).1 h3

pub revoke-Effect :
    (id : Text) (cascade : Bool) (now : ℤ) (seen store after : TokenStore) (n : ℕ)
    → revoke_token id cascade now seen store ≡ ok (after, n)
    → Effect seen store after
unfolding revoke_token revoke_one
revoke-Effect id true now seen store after n h =
    marks (is_live_in_chain id) (set_revoked now) (λ r. refl)
      (set_revoked-Later (is_live_in_chain id) now (is_live_in_chain-none id))
      (revoke-Cascaded id now seen store after n h).marked
revoke-Effect id false now seen store after n h =
    let (_, h1) = guard-eq-ok (is_blank id) _ _ h in
    let (_, h2) = guard-eq-ok (not (is_positive now)) _ _ h1 in
    let (_, h3) =
      guard-eq-ok
        (count_tokens (is_live id) store.tokens == 0 && not (is_some (find_token id store.tokens)))
        _ _ h2 in
    marks (is_live id) (set_revoked now) (λ r. refl)
      (set_revoked-Later (is_live id) now (is_live-none id))
      (ap (λ r. r.0.tokens) (sym (ok-injective h3)))
