-- ===== src/Authz/Consuming.antt =====
-- Consume, pkg/authz/token.go. The row is read and checked first: `seen` is the table then, `store` the table in the
-- transaction. An error changes nothing.
pub mod Errors
use intercore.Common.{
  ℕ, zero, suc, take, drop, Bool, true, false, not, ◌&&◌, ◌||◌, Option, none, some, List, [], ◌∷◌,
  ◌++◌, if◌then◌else◌, ◌==◌, is_some,
}
use intercore.Common.Int.{ℤ, ltb_ℤ, leb_ℤ}
use intercore.Common.Text.{Text}
use intercore.Common.Outcome.{Result, ok, err, ◌>>=◌, ◌>>◌}
use intercore.Authz.Signing.{
  same_text, is_blank, Crypto, pub_key_mismatch, SignRow, KeyPair, sign, validate_key_pair,
}
use intercore.Authz.Tokens.{
  Token, TokenError, already_consumed, expired, not_found, sig_verify, caller_agent_mismatch,
  expect_mismatch, revoked, required, sign_failed, insert_failed, verify_token, parse_token_string,
}
use intercore.Authz.TokenTable.{
  AuditRow, TokenStore, signing, is_positive, find_token, get_token, all_spaces, update_tokens,
  count_tokens,
}

abbrev pub set_consumed : ℤ → Token → Token
set_consumed now t = record t { consumed_at = some now }

unfoldable pub is_consumable : Text → ℤ → Text → Token → Bool
is_consumable id now caller t =
    same_text t.id id
    && (not (is_some t.consumed_at)
        && (not (is_some t.revoked_at) && (ltb_ℤ now t.expires_at && same_text t.agent_id caller)))

unfoldable pub classify_consume_failure : ℤ → Option Token → TokenError
classify_consume_failure now none = not_found
classify_consume_failure now (some t) =
    if is_some t.revoked_at
    then revoked
    else if is_some t.consumed_at
    then already_consumed
    else if leb_ℤ t.expires_at now
    then expired
    else already_consumed

unfoldable pub claim : Text → ℤ → Text → List Token → Result TokenError (List Token)
claim id now caller tokens =
    if not (count_tokens (is_consumable id now caller) tokens == 1)
    then err (classify_consume_failure now (find_token id tokens))
    else ok (update_tokens (is_consumable id now caller) (set_consumed now) tokens)

-- An expectation is optional.
abbrev pub unexpected : Text → Text → Bool
unexpected expected actual = not (is_blank expected) && not (same_text expected actual)

pub record Request : Type 0 where
  pub token_string : Text
  pub caller : Text
  pub expect_op : Text
  pub expect_target : Text

-- The checks of a row against the request.
unfoldable pub check_scope : Request → Token → Result TokenError (Unit {0})
check_scope request t =
    if not (same_text request.caller t.agent_id)
    then err caller_agent_mismatch
    else if unexpected request.expect_op t.op_type
    then err expect_mismatch
    else if unexpected request.expect_target t.target
    then err expect_mismatch
    else ok tt

unfoldable pub check_signature : Crypto → Text → Text → Token → Result TokenError (Unit {0})
check_signature crypto public_key sig t =
    if not (verify_token crypto public_key t sig) then err sig_verify else ok tt

-- Before the transaction: the parsed id and the row that was seen.
unfoldable pub check_request :
    Crypto → Text → Request → ℤ → TokenStore → Result TokenError (Text × Token)
check_request crypto public_key request now seen =
    if is_blank request.caller
    then err (required "callerAgentID")
    else if not (is_positive now)
    then err (required "now")
    else (parse_token_string crypto request.token_string >>= λ parts.
        get_token seen parts.0 >>= λ t.
        check_signature crypto public_key parts.1 t >> check_scope request t >> ok (parts.0, t))

abbrev pub audit_row : Crypto → Text → ℤ → Text → Token → SignRow
audit_row crypto audit_id now caller t = record {
  id = audit_id;
  op_type = t.op_type;
  target = t.target;
  agent_id = caller;
  bead_id = t.bead_id;
  mode = b'a' ∷ b'u' ∷ b't' ∷ b'o' ∷ [];
  policy_match = [];
  policy_hash = [];
  vetted_sha = [];
  vetting = crypto.to_json (record { token_id = t.id; depth = t.depth; root_token = t.root_token });
  cross_project_id = [];
  created_at = now;
}

unfoldable pub zeros : ℕ → Text
zeros zero = []
zeros (suc n) = 0 ∷ zeros n

-- `ed25519.PrivateKey.Public` copies the bytes from 32 on into 32 bytes; it panics on a signer of
-- less than 32 bytes, which no caller has.
unfoldable pub public_part : Text → Text
unfolding zeros
public_part signer = take 32 (drop 32 signer ++ zeros 32)

unfoldable pub signed_audit : Crypto → Text → Text → SignRow → Result TokenError AuditRow
unfolding public_part
signed_audit crypto public_key signer row =
    if not (same_text (public_part signer) public_key)
    then err (sign_failed pub_key_mismatch)
    else (signing (sign crypto signer row) >>= λ sig.
        ok (record { row = row; signature = some sig; signed_at = some row.created_at }))

-- Without a signer the row is left for the background signer.
unfoldable pub audit : Crypto → Text → Text → SignRow → Result TokenError AuditRow
audit crypto public_key signer row =
    if is_blank signer
    then ok (record { row = row; signature = none; signed_at = none })
    else signed_audit crypto public_key signer row

unfoldable pub has_audit : Text → List AuditRow → Bool
has_audit id [] = false
has_audit id (a ∷ audits) =
    let rest = has_audit id audits in if same_text a.row.id id then true else rest

unfoldable pub insert_audit : AuditRow → List AuditRow → Result TokenError (List AuditRow)
insert_audit a audits =
    if has_audit a.row.id audits || all_spaces a.row.agent_id
    then err insert_failed
    else ok (audits ++ a ∷ [])

-- The transaction; `audit_id` is the ULID that `ulid.Make` returns.
unfoldable pub commit_consume :
    Crypto
    → Text
    → Text
    → Request
    → ℤ
    → Text
    → TokenStore
    → Text × Token
    → Result TokenError (TokenStore × Token)
commit_consume crypto public_key signer request now audit_id store found = do
  tokens ← claim found.0 now request.caller store.tokens
  a ← audit crypto public_key signer (audit_row crypto audit_id now request.caller found.1)
  audits ← insert_audit a store.audits
  ok (record { tokens = tokens; audits = audits }, set_consumed now found.1)

unfoldable pub consume_token :
    Crypto
    → Text
    → Text
    → Request
    → ℤ
    → Text
    → (seen store : TokenStore) → Result TokenError (TokenStore × Token)
consume_token crypto public_key signer request now audit_id seen store =
    check_request crypto public_key request now seen
    >>= commit_consume crypto public_key signer request now audit_id store

unfoldable pub consume_token_signed :
    Crypto
    → KeyPair
    → Request
    → ℤ
    → Text
    → (seen store : TokenStore) → Result TokenError (TokenStore × Token)
consume_token_signed crypto kp request now audit_id seen store =
    signing (validate_key_pair crypto kp)
    >> consume_token crypto kp.public_key kp.private_key request now audit_id seen store
