-- ===== src/Authz/TokenTable.antt =====
-- The table of tokens and the audit rows, pkg/authz/token.go and internal/db/schema.sql, with the queries that the
-- operations are made of.
pub mod Rows
use intercore.Common.{
  ℕ, zero, suc, ◌/◌, ◌+◌, ◌<◌, Bool, true, false, not, ◌&&◌, ◌||◌, Option, none, some, List, [],
  ◌∷◌, ◌++◌, map, String, if◌then◌else◌, ltb, ◌==◌, length, is_some,
}
use intercore.Common.Int.{ℤ, pos, negsuc, sub_ℕ, ltb_ℤ, leb_ℤ, ◌+ℤ◌, wrap64}
use intercore.Common.Text.{Text}
use intercore.Common.Outcome.{Result, ok, err, ◌>>=◌, ◌>>◌}
use intercore.Authz.Signing.{
  same_text, is_blank, Crypto, SignError, pub_key_mismatch, SignRow, Vetting, KeyPair, sign,
  validate_private_key, validate_key_pair,
}
use intercore.Authz.Tokens.{
  Token, TokenError, already_consumed, expired, not_found, sig_verify, proof_of_possession,
  caller_agent_mismatch, depth_exceeded, expect_mismatch, revoked, cascade_on_non_root, required,
  sign_failed, reselect_failed, insert_failed, sign_token, verify_token, encode_token_string,
  parse_token_string,
}

pub record AuditRow : Type 0 where
  pub row : SignRow
  pub signature : Option Text
  pub signed_at : Option ℤ

pub record TokenStore : Type 0 where
  pub tokens : List Token
  pub audits : List AuditRow

abbrev pub signing {ℓ} : {A : Type ℓ} → Result SignError A → Result TokenError A
signing (ok a) = ok a
signing (err e) = err (sign_failed e)

abbrev pub is_positive : ℤ → Bool
is_positive n = ltb_ℤ (pos 0) n

unfoldable pub find_token : Text → List Token → Option Token
find_token id [] = none
find_token id (t ∷ tokens) = if same_text t.id id then some t else find_token id tokens

abbrev pub or_not_found : Option Token → Result TokenError Token
or_not_found none = err not_found
or_not_found (some t) = ok t

unfoldable pub get_token : TokenStore → Text → Result TokenError Token
get_token store id =
    if is_blank id then err (required "tokenID") else or_not_found (find_token id store.tokens)

-- SQL's trim takes off spaces only.
unfoldable pub all_spaces : Text → Bool
all_spaces [] = true
all_spaces (c ∷ s) = let rest = all_spaces s in if c == 32 then rest else false

-- The CHECK constraints of the columns, and the primary key.
abbrev pub passes_checks : Token → Bool
passes_checks t = not (all_spaces t.agent_id) && (leb_ℤ (pos 0) t.depth && leb_ℤ t.depth (pos 3))

unfoldable pub insert_token : TokenError → Token → TokenStore → Result TokenError TokenStore
insert_token on_check t store =
    if not (passes_checks t)
    then err on_check
    else if is_some (find_token t.id store.tokens)
    then err insert_failed
    else ok (record store { tokens = store.tokens ++ t ∷ [] })

abbrev or_reselect_failed : Option Token → Result TokenError Token
or_reselect_failed none = err reselect_failed
or_reselect_failed (some t) = ok t

abbrev pub reselect : Text → TokenStore → Result TokenError Token
reselect id store = or_reselect_failed (find_token id store.tokens)

-- `UPDATE authz_tokens SET … WHERE …`, and the number of its rows.
unfoldable pub update_tokens : (Token → Bool) → (Token → Token) → List Token → List Token
update_tokens matches change [] = []
update_tokens matches change (t ∷ tokens) =
    (if matches t then change t else t) ∷ update_tokens matches change tokens

unfoldable pub count_tokens : (Token → Bool) → List Token → ℕ
count_tokens matches [] = 0
count_tokens matches (t ∷ tokens) = (if matches t then 1 else 0) + count_tokens matches tokens
