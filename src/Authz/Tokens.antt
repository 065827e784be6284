-- ===== src/Authz/Tokens.antt =====
-- Tokens, their errors and their text form: pkg/authz/token.go.
pub mod Encoding
pub mod Payload
pub mod Signatures
use intercore.Common.{
  ℕ, ◌/◌, ◌%◌, ◌+◌, ◌-◌, ◌*◌, Bool, not, ◌&&◌, ◌||◌, Option, none, some, List, [], ◌∷◌, ◌++◌,
  String, if◌then◌else◌, ltb, leb, ◌==◌, length,
}
use intercore.Common.Int.{ℤ, pos, ltb_ℤ}
use intercore.Common.Text.{Text}
use intercore.Common.Outcome.{Result, ok, err}
use intercore.Authz.Signing.{
  Crypto, SignError, depth_out_of_range, validate_text, unsigned, format_int, payload_of,
  sign_payload, verify_payload,
}

-- `none` is NULL; an empty text is NULL in `bead_id`, `delegate_to`, `parent_token` and `root_token`.
pub record Token : Type 0 where
  pub id : Text
  pub op_type : Text
  pub target : Text
  pub agent_id : Text
  pub bead_id : Text
  pub delegate_to : Text
  pub expires_at : ℤ
  pub consumed_at : Option ℤ
  pub revoked_at : Option ℤ
  pub issued_by : Text
  pub parent_token : Text
  pub root_token : Text
  pub depth : ℤ
  pub sig_version : ℕ
  pub signature : Text
  pub created_at : ℤ

pub data TokenError : Type 0 where
  already_consumed expired not_found bad_token_string sig_verify proof_of_possession : TokenError
  caller_agent_mismatch cross_project scope_widening depth_exceeded expect_mismatch : TokenError
  revoked cascade_on_non_root : TokenError
  required : String → TokenError
  sign_failed : SignError → TokenError
  reselect_failed insert_failed : TokenError

unfoldable pub error_code : TokenError → ℕ
error_code already_consumed = 2
error_code expired = 2
error_code not_found = 3
error_code bad_token_string = 3
error_code sig_verify = 4
error_code proof_of_possession = 4
error_code caller_agent_mismatch = 4
error_code cross_project = 4
error_code scope_widening = 4
error_code depth_exceeded = 4
error_code expect_mismatch = 4
error_code revoked = 4
error_code cascade_on_non_root = 4
error_code (required field) = 1
error_code (sign_failed e) = 1
error_code reselect_failed = 1
error_code insert_failed = 1

-- The exit code of a run that returns its value or an error.
unfoldable pub exit_code {ℓ} : {A : Type ℓ} → Result TokenError A → ℕ
exit_code (ok a) = 0
exit_code (err e) = error_code e

-- `ErrClass`, of an exit code.
unfoldable pub err_class : ℕ → String
err_class code =
    if code == 0
    then "ok"
    else if code == 2
    then "token-state"
    else if code == 3
    then "not-found"
    else if code == 4
    then "auth-failure"
    else if code == 1
    then "unexpected"
    else "unknown"

-- The depth is between 0 and 3.
unfoldable pub depth_text : ℤ → Result SignError Text
depth_text d =
    if ltb_ℤ d (pos 0) || ltb_ℤ (pos 3) d then err depth_out_of_range else ok (format_int d)

unfoldable pub token_signed_fields : Crypto → Token → List (Result SignError Text)
token_signed_fields crypto t =
    validate_text crypto t.id
    ∷ validate_text crypto t.op_type
    ∷ validate_text crypto t.target
    ∷ validate_text crypto t.agent_id
    ∷ validate_text crypto t.bead_id
    ∷ validate_text crypto t.delegate_to
    ∷ unsigned t.expires_at
    ∷ validate_text crypto t.issued_by
    ∷ validate_text crypto t.parent_token
    ∷ validate_text crypto t.root_token
    ∷ depth_text t.depth
    ∷ unsigned t.created_at
    ∷ []

abbrev pub canonical_token_payload : Crypto → Token → Result SignError Text
canonical_token_payload crypto t = payload_of (token_signed_fields crypto t)

abbrev pub sign_token : Crypto → Text → Token → Result SignError Text
sign_token crypto priv t = sign_payload crypto priv (canonical_token_payload crypto t)

unfoldable pub verify_token : Crypto → Text → Token → Text → Bool
verify_token crypto public_key t sig =
    verify_payload crypto public_key (canonical_token_payload crypto t) sig

abbrev pub hex_digit : ℕ → ℕ
hex_digit d = if ltb d 10 then d + b'0' else d - 10 + b'a'

-- hex.EncodeToString
unfoldable pub hex_encode : Text → Text
hex_encode [] = []
hex_encode (b ∷ bytes) = hex_digit (b / 16) ∷ (hex_digit (b % 16) ∷ hex_encode bytes)

unfoldable pub from_hex_digit : ℕ → Option ℕ
from_hex_digit c =
    if leb b'0' c && leb c b'9'
    then some (c - b'0')
    else if leb b'a' c && leb c b'f'
    then some (c - b'a' + 10)
    else if leb b'A' c && leb c b'F'
    then some (c - b'A' + 10)
    else none

abbrev pub join_digits : Option ℕ → Option ℕ → Option Text → Option Text
join_digits (some high) (some low) (some bytes) = some ((high * 16 + low) ∷ bytes)
join_digits high low bytes = none

-- hex.DecodeString; `none` is its error.
unfoldable pub hex_decode : Text → Option Text
hex_decode [] = some []
hex_decode (c ∷ []) = none
hex_decode (c ∷ (d ∷ s)) = join_digits (from_hex_digit c) (from_hex_digit d) (hex_decode s)

unfoldable pub encode_token_string : Text → Text → Text
encode_token_string id sig = id ++ (b'.' ∷ hex_encode sig)

abbrev add_before : ℕ → Option (Text × Text) → Option (Text × Text)
add_before c none = none
add_before c (some parts) = some (c ∷ parts.0, parts.1)

-- What stands before and behind the first dot.
unfoldable pub split_at_dot : Text → Option (Text × Text)
split_at_dot [] = none
split_at_dot (c ∷ s) =
    let rest = add_before c (split_at_dot s) in if c == b'.' then some ([], s) else rest

unfoldable pub with_signature : Text → Option Text → Result TokenError (Text × Text)
with_signature id none = err bad_token_string
with_signature id (some sig) = if not (length sig == 64) then err bad_token_string else ok (id, sig)

unfoldable pub parse_parts : Crypto → Option (Text × Text) → Result TokenError (Text × Text)
parse_parts crypto none = err bad_token_string
parse_parts crypto (some parts) =
    if not (crypto.is_ulid parts.0)
    then err bad_token_string
    else with_signature parts.0 (hex_decode parts.1)

unfoldable pub parse_token_string : Crypto → Text → Result TokenError (Text × Text)
parse_token_string crypto s = parse_parts crypto (split_at_dot s)
