-- ===== src/Authz/TokenLife/Ready.antt =====
-- A row of the table that its holder can consume.
use intercore.Common.{Bool-cases, inl, inr, ◌≡◌, ◌∙◌, true, false, none, some, List, [], ◌∷◌, ◌++◌}
use intercore.Common.Int.{ℤ, ltb_ℤ}
use intercore.Common.Text.{Text}
use intercore.Common.Outcome.{ok}
use intercore.Authz.Signing.{Crypto, is_blank, same_text_refl}
use intercore.Authz.Tokens.{Token, verify_token, parse_token_string}
use intercore.Authz.Tokens.Signatures.{IsSound}
use intercore.Authz.TokenTable.{
  TokenStore, all_spaces, is_positive, find_token, get_token, update_tokens,
}
use intercore.Authz.TokenTable.Rows.{count-found, UniqueIds}
use intercore.Authz.Consuming.{
  Request, consume_token, commit_consume, check_request, check_signature, check_scope, claim,
  unexpected, is_consumable, set_consumed, audit, audit_row, insert_audit, has_audit,
}
use intercore.Authz.TokenLife.Marked.{is_consumable-parts}
use intercore.Authz.Consuming.Errors.{check_request-found}

-- The holder's request, which expects the token's own scope.
abbrev pub own_request : Token → Text → Request
own_request t text = record {
  token_string = text;
  caller = t.agent_id;
  expect_op = t.op_type;
  expect_target = t.target;
}

-- The table after a consume, with the unsigned audit row.
abbrev audited : Crypto → ℤ → Text → Token → List Token → TokenStore → TokenStore
audited crypto now audit_id t tokens store = record {
  tokens = tokens;
  audits =
      store.audits
      ++ record {
        row = audit_row crypto audit_id now t.agent_id t;
        signature = none;
        signed_at = none;
      }
        ∷ [];
}

-- An expectation that names the token's own field is met.
expected : (s : Text) → unexpected s s ≡ false
expected s = elim (Bool-cases (is_blank s)) [ inl e ↦ rw e | inr e ↦ rw (e, same_text_refl s) ]

module _ (crypto : Crypto) (sound : IsSound crypto) where
  is_consumable-true :
      (now : ℤ) (t : Token)
      → t.consumed_at ≡ none
      → t.revoked_at ≡ none
      → ltb_ℤ now t.expires_at ≡ true
      → is_consumable t.id now t.agent_id t ≡ true
  unfolding is_consumable
  is_consumable-true now t unconsumed unrevoked valid =
      rw (same_text_refl t.id, unconsumed, unrevoked, valid, same_text_refl t.agent_id)

  -- The claim of a row that may be consumed.
  claim-found :
      (now : ℤ) (tokens : List Token) (t : Token)
      → UniqueIds tokens
      → find_token t.id tokens ≡ some t
      → t.consumed_at ≡ none
      → t.revoked_at ≡ none
      → ltb_ℤ now t.expires_at ≡ true
      → claim t.id now t.agent_id tokens
        ≡ ok (update_tokens (is_consumable t.id now t.agent_id) (set_consumed now) tokens)
  unfolding claim
  claim-found now tokens t unique found unconsumed unrevoked valid = rw (
      count-found (is_consumable t.id now t.agent_id) t.id
        (λ x e. (is_consumable-parts t.id now t.agent_id x e).0) tokens t unique found
        (is_consumable-true now t unconsumed unrevoked valid))

  module _ (now : ℤ) (audit_id public_key : Text) (seen store : TokenStore) (t : Token)
      (text sig : Text) (named : is_blank t.agent_id ≡ false) (time : is_positive now ≡ true)
      (parsed : parse_token_string crypto text ≡ ok (t.id, sig))
      (verified : verify_token crypto public_key t sig ≡ true) where
    request-ok :
        get_token seen t.id ≡ ok t
        → check_request crypto public_key (own_request t text) now seen ≡ ok (t.id, t)
    unfolding check_signature check_scope
    request-ok found =
        check_request-found crypto public_key (own_request t text) now seen t.id sig t named time
          parsed found
        ∙ rw (verified, same_text_refl t.agent_id, expected t.op_type, expected t.target)

    commit-ok :
        (tokens : List Token)
        → claim t.id now t.agent_id store.tokens ≡ ok tokens
        → has_audit audit_id store.audits ≡ false
        → all_spaces t.agent_id ≡ false
        → commit_consume crypto public_key [] (own_request t text) now audit_id store (t.id, t)
          ≡ ok (audited crypto now audit_id t tokens store, set_consumed now t)
    unfolding commit_consume audit insert_audit
    commit-ok tokens claimed new agent = rw (claimed, new, agent)

    -- A row that is as it was issued is consumed.
    pub untouched-consume :
        UniqueIds store.tokens
        → find_token t.id seen.tokens ≡ some t
        → find_token t.id store.tokens ≡ some t
        → is_blank t.id ≡ false
        → t.consumed_at ≡ none
        → t.revoked_at ≡ none
        → ltb_ℤ now t.expires_at ≡ true
        → has_audit audit_id store.audits ≡ false
        → all_spaces t.agent_id ≡ false
        → (end : TokenStore) × (consume_token crypto public_key []
              (own_request t text)
              now
              audit_id
              seen
              store
            ≡ ok (end, set_consumed now t))
    unfolding consume_token get_token
    untouched-consume unique seen_row row named' unconsumed unrevoked valid new agent =
        let claimed = claim-found now store.tokens t unique row unconsumed unrevoked valid in
        let rest =
          update_tokens (is_consumable t.id now t.agent_id) (set_consumed now) store.tokens in
        (
          audited crypto now audit_id t rest store,
          rw (request-ok (rw (named', seen_row))) (commit-ok rest claimed new agent),
        )
