-- ===== src/Authz/Consuming/Errors.antt =====
-- A revoked token and the exit code.
use intercore.Common.{
  ◌≡◌, ◌≢◌, refl, sym, ap, ◌∙◌, true, false, inl, inr, none, some, ◌==◌, ==_iff, Bool-cases,
  is_some, arith, Option, ◌⊎◌, List,
}
use mathlib.Core.Option.{some_inj}
use intercore.Common.Int.{ℤ}
use intercore.Common.Text.{Text}
use intercore.Common.Outcome.{Result, ok, err, ◌>>◌}
use intercore.Authz.Signing.{Crypto, is_blank, same_text}
use intercore.Authz.Tokens.{
  Token, TokenError, exit_code, error_code, parse_token_string, revoked, verify_token, sig_verify,
  caller_agent_mismatch, expect_mismatch,
}
use intercore.Authz.TokenTable.{TokenStore, is_positive, find_token, get_token, count_tokens}
use intercore.Authz.TokenTable.Rows.{UniqueIds, count_tokens-find_token}
use intercore.Authz.Consuming.{
  Request, consume_token, commit_consume, check_request, check_signature, check_scope, claim,
  unexpected, classify_consume_failure, is_consumable,
}

is_some-true : (o : Option ℤ) → o ≢ none → is_some o ≡ true
is_some-true none h = absurd (h refl)
is_some-true (some n) h = refl

-- A revoked row is not claimed, and the failure says so.
claim-revoked :
    (id : Text) (now : ℤ) (caller : Text) (tokens : List Token) (r : Token)
    → UniqueIds tokens
    → find_token id tokens ≡ some r
    → r.revoked_at ≢ none
    → claim id now caller tokens ≡ err revoked
unfolding claim classify_consume_failure is_consumable
claim-revoked id now caller tokens r u found rev =
    elim (Bool-cases (count_tokens (is_consumable id now caller) tokens == 1)) [
      | inl e ↦
          let (x, fx, m) =
            count_tokens-find_token (is_consumable id now caller) id (λ t h. ground arith) tokens u
              ((==_iff _ 1).0 e) in
          absurd (rev (ap (λ y. y.revoked_at) (some_inj.0 (sym found ∙ fx)) ∙ unrevoked x m))
      | inr e ↦ rw (e, found, is_some-true r.revoked_at rev)
    ]
  where
    unrevoked : (x : Token) → is_consumable id now caller x ≡ true → x.revoked_at ≡ none
    unrevoked x m = ground arith

abbrev row_checks : Crypto → Text → Text → Request → Text → Token → Result TokenError (Text × Token)
row_checks crypto public_key sig request id t =
    check_signature crypto public_key sig t >> check_scope request t >> ok (id, t)

-- The checks of a row end well or with an authorization failure.
checked-code :
    (crypto : Crypto) (public_key sig : Text) (request : Request) (id : Text) (t : Token)
    → (row_checks crypto public_key sig request id t ≡ ok (id, t))
      ⊎ ((e : TokenError) × (row_checks crypto public_key sig request id t ≡ err e)
          × (error_code e ≡ 4))
unfolding check_signature check_scope error_code
checked-code crypto public_key sig request id t =
    elim (Bool-cases (verify_token crypto public_key t sig)) [
      | inr e ↦ inr (sig_verify, rw e, refl)
      | inl e ↦ elim (Bool-cases (same_text request.caller t.agent_id)) [
        | inr f ↦ inr (caller_agent_mismatch, rw (e, f), refl)
        | inl f ↦ elim (Bool-cases (unexpected request.expect_op t.op_type)) [
          | inl g ↦ inr (expect_mismatch, rw (e, f, g), refl)
          | inr g ↦ elim (Bool-cases (unexpected request.expect_target t.target)) [
            | inl k ↦ inr (expect_mismatch, rw (e, f, g, k), refl)
            | inr k ↦ inl (rw (e, f, g, k))
          ]
        ]
      ]
    ]

-- A request that names a row that was seen comes down to the checks of this row.
pub check_request-found :
    (crypto : Crypto) (public_key : Text) (request : Request) (now : ℤ) (seen : TokenStore)
    (id sig : Text) (t : Token)
    → is_blank request.caller ≡ false
    → is_positive now ≡ true
    → parse_token_string crypto request.token_string ≡ ok (id, sig)
    → get_token seen id ≡ ok t
    → check_request crypto public_key request now seen
      ≡ row_checks crypto public_key sig request id t
unfolding check_request
check_request-found crypto public_key request now seen id sig t caller time parsed found =
    rw (caller, time, parsed, found)

module _ (crypto : Crypto) (public_key signer : Text) (request : Request) (now : ℤ)
    (audit_id : Text) (seen store : TokenStore) (id sig : Text) (t r : Token) where
  -- A consume of a revoked token fails, and always with exit code 4, on which a caller must not
  -- fall back on the policy rules: if the request names a caller, a positive time and a token
  -- string that parses, the token is in the table that was read, and its row is revoked in the
  -- table of the transaction, where ids are unique.
  pub consume-revoked :
      is_blank request.caller ≡ false
      → is_positive now ≡ true
      → parse_token_string crypto request.token_string ≡ ok (id, sig)
      → get_token seen id ≡ ok t
      → UniqueIds store.tokens
      → find_token id store.tokens ≡ some r
      → r.revoked_at ≢ none
      → exit_code (consume_token crypto public_key signer request now audit_id seen store) ≡ 4
  unfolding consume_token exit_code commit_consume error_code
  consume-revoked caller time parsed seen_row u found rev =
      let start =
        check_request-found crypto public_key request now seen id sig t caller time parsed
          seen_row in
      elim (checked-code crypto public_key sig request id t) [
        | inl passes ↦
            rw (start ∙ passes, claim-revoked id now request.caller store.tokens r u found rev)
        | inr (e, fails, code) ↦ rw (start ∙ fails) code
      ]
