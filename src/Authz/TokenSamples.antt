-- ===== src/Authz/TokenSamples.antt =====
-- Tokens of two agents: runs of the operations.
mod Witnesses
use intercore.Common.{
  ℕ, zero, suc, ◌+◌, ◌%◌, ◌<◌, ◌≡◌, ◌≢◌, refl, sym, ap, Bool, true, not, ◌&&◌, ◌||◌, Option, none,
  some, List, [], ◌∷◌, ◌++◌, ◌==◌, ==_iff, length, arith, inl, inr, Bool-cases,
}
use Prim.Native.String.{String}
use Prim.Native.Char.{code}
use intercore.Common.Int.{ℤ, pos, wrap64, ◌+ℤ◌}
use intercore.Common.Text.{Text}
use intercore.Common.Every.{Every}
use intercore.Common.Outcome.{ok, err}
use intercore.Authz.Signing.{
  sign, Crypto, SignRow, same_text, decimal_rounds, decimal, reject_control_chars, checked,
  unsigned, collect, join_lines, payload_of, signed_fields, canonical_payload, validate_private_key,
  sign_payload, verifies, verify_payload,
}
use intercore.Authz.Tokens.{
  Token, depth_text, token_signed_fields, canonical_token_payload, verify_token, hex_encode,
  from_hex_digit, hex_decode, encode_token_string, split_at_dot, with_signature, parse_parts,
  parse_token_string, exit_code, error_code, revoked, error_code,
}
use intercore.Authz.Tokens.Encoding.{IsByte, IsDotless, parse_token_string-encode_token_string}
use intercore.Authz.Tokens.Payload.{
  SameSigned, canonical_token_payload-SameSigned, SameRow, canonical_payload-SameRow,
}
use intercore.Authz.Tokens.Signatures.{public_half}
use intercore.Authz.TokenTable.{
  AuditRow, TokenStore, find_token, get_token, all_spaces, insert_token, update_tokens,
  count_tokens,
}
use intercore.Authz.Issuing.{
  IssueSpec, DelegateSpec, insert_signed, check_issue, issue_token, check_delegate, check_parent,
  insert_child, delegate_token,
}
use intercore.Authz.Consuming.{
  Request, is_consumable, classify_consume_failure, claim, check_scope, check_signature,
  check_request, zeros, public_part, signed_audit, audit, has_audit, insert_audit, commit_consume,
  consume_token, set_consumed,
}
use intercore.Authz.Consuming.Errors.{consume-revoked}
use intercore.Authz.Revoking.{set_revoked, revoke_one, revoke_chain, revoke_token}
use intercore.Authz.TokenLife.{
  Step, issues, delegates, consumes, revokes, Reach, here, next, no_tokens, ConsumeCall,
  run_consume,
}
use intercore.Authz.TokenLife.Chains.{IsTable, Reach-IsTable}
use intercore.Authz.TokenLife.SingleUse.{consume-once}
use intercore.Authz.TokenLife.Cascade.{Descends, itself, child, cascade-Descends}
use intercore.Authz.TokenLife.Ready.{own_request}

program : Unit {0}
unfolding same_text decimal_rounds decimal reject_control_chars checked unsigned collect join_lines
    payload_of signed_fields validate_private_key sign_payload verifies verify_payload depth_text
    token_signed_fields verify_token hex_encode from_hex_digit hex_decode encode_token_string
    split_at_dot with_signature parse_parts parse_token_string exit_code error_code find_token
    get_token all_spaces insert_token update_tokens count_tokens insert_signed check_issue
    issue_token check_delegate check_parent insert_child delegate_token is_consumable
    classify_consume_failure claim check_scope check_signature check_request zeros public_part
    signed_audit audit has_audit insert_audit commit_consume consume_token revoke_one revoke_chain
    revoke_token wrap64 ◌+ℤ◌
program = tt

abbrev text : String → Text
text String.[] = []
text (String.◌∷◌ c s) = code c ∷ text s

abbrev repeat : ℕ → ℕ → Text
repeat zero b = []
repeat (suc n) b = b ∷ repeat n b

abbrev total : Text → ℕ
total [] = 0
total (c ∷ s) = c + total s

-- A checksum in the place of a signature; a key is 64 ones.
abbrev checksum : Text → Text
checksum m = repeat 64 (total m % 256)

abbrev dotless : Text → Bool
dotless [] = true
dotless (c ∷ s) = not (c == b'.') && dotless s

abbrev toy : Crypto
toy = record {
  normalize = λ s. s;
  new_key_from_seed = λ seed. repeat 64 1;
  ed25519_sign = λ key m. checksum m;
  ed25519_verify = λ public_key m sig. same_text (checksum m) sig;
  is_ulid = λ s. length s == 26 && dotless s;
  to_json = λ v. v.token_id;
}

repeat-IsByte : (n b : ℕ) → b < 256 → Every IsByte (repeat n b)
repeat-IsByte zero b h = tt
repeat-IsByte (suc n) b h = (h, repeat-IsByte n b h)

dotless-IsDotless : (s : Text) → dotless s ≡ true → Every IsDotless s
dotless-IsDotless [] h = tt
dotless-IsDotless (c ∷ s) h = (ground arith, dotless-IsDotless s (ground arith))

abbrev root_id : Text
root_id = text "01ARZ3NDEKTSV4RRFFQ69G5FAV"

abbrev child_id : Text
child_id = text "01BX5ZZKBKACTAV9WEVGEMMVRZ"

abbrev priv : Text
priv = repeat 64 1

abbrev spec : IssueSpec
spec = record {
  op_type = text "push";
  target = text "repo";
  agent_id = text "ann";
  bead_id = [];
  issued_by = text "user";
  ttl = pos 60000000000;
}

abbrev root : Token
root = record {
  id = root_id;
  op_type = text "push";
  target = text "repo";
  agent_id = text "ann";
  bead_id = [];
  delegate_to = [];
  expires_at = pos 160;
  consumed_at = none;
  revoked_at = none;
  issued_by = text "user";
  parent_token = [];
  root_token = [];
  depth = pos 0;
  sig_version = 2;
  signature = repeat 64 85;
  created_at = pos 100;
}

abbrev pub spec_child : DelegateSpec
spec_child = record {
  parent_id = root_id;
  caller_agent_id = text "ann";
  to_agent_id = text "bob";
  requested_ttl = pos 600000000000;
}

abbrev bobs : Token
bobs = record {
  id = child_id;
  op_type = text "push";
  target = text "repo";
  agent_id = text "bob";
  bead_id = [];
  delegate_to = text "bob";
  expires_at = pos 160;
  consumed_at = none;
  revoked_at = none;
  issued_by = text "ann";
  parent_token = root_id;
  root_token = root_id;
  depth = pos 1;
  sig_version = 2;
  signature = repeat 64 153;
  created_at = pos 110;
}

abbrev with_root : TokenStore
with_root = record { tokens = root ∷ []; audits = [] }

abbrev with_child : TokenStore
with_child = record { tokens = root ∷ bobs ∷ []; audits = [] }

issues_root :
    issue_token toy priv spec (pos 100) root_id no_tokens
    ≡ ok (with_root, root, encode_token_string root_id (repeat 64 85))
unfolding program
issues_root = refl

pub delegates_child :
    delegate_token toy priv spec_child (pos 110) child_id with_root with_root
    ≡ ok (with_child, bobs, encode_token_string child_id (repeat 64 153))
unfolding program
delegates_child = refl

reached_root : Reach toy no_tokens with_root
reached_root = next here here (issues priv spec (pos 100) root_id root _ issues_root)

reached_child : Reach toy no_tokens with_child
reached_child =
    next reached_root here (delegates priv spec_child (pos 110) child_id bobs _ delegates_child)

abbrev request_of : Token → Request
request_of t = own_request t (encode_token_string t.id t.signature)

abbrev call_of : Token → ℤ → Text → TokenStore → ConsumeCall
call_of t now audit_id seen = record {
  public_key = repeat 32 1;
  signer = priv;
  request = request_of t;
  now = now;
  audit_id = audit_id;
  seen = seen;
}

abbrev audit_of : Token → ℤ → Text → ℕ → AuditRow
audit_of t now id check = record {
  row = record {
    id = id;
    op_type = t.op_type;
    target = t.target;
    agent_id = t.agent_id;
    bead_id = [];
    mode = text "auto";
    policy_match = [];
    policy_hash = [];
    vetted_sha = [];
    vetting = t.id;
    cross_project_id = [];
    created_at = now;
  };
  signature = some (repeat 64 check);
  signed_at = some now;
}

-- Bob consumes the child, then Ann the root.
abbrev after_bob : TokenStore
after_bob = record {
  tokens = root ∷ set_consumed (pos 120) bobs ∷ [];
  audits = audit_of bobs (pos 120) (text "a1") 115 ∷ [];
}

consumes_bob :
    run_consume toy (call_of bobs (pos 120) (text "a1") with_child) with_child
    ≡ ok (after_bob, set_consumed (pos 120) bobs)
unfolding program
consumes_bob = refl

abbrev after_both : TokenStore
after_both = record {
  tokens = set_consumed (pos 130) root ∷ set_consumed (pos 120) bobs ∷ [];
  audits = audit_of bobs (pos 120) (text "a1") 115 ∷ audit_of root (pos 130) (text "a2") 30 ∷ [];
}

-- Ann's request was read before Bob's consume.
consumes_root :
    run_consume toy (call_of root (pos 130) (text "a2") with_child) after_bob
    ≡ ok (after_both, set_consumed (pos 130) root)
unfolding program
consumes_root = refl

abbrev revoked_pair : TokenStore
revoked_pair = record {
  tokens = set_revoked (pos 125) root ∷ set_revoked (pos 125) bobs ∷ [];
  audits = [];
}

revokes_chain : revoke_token root_id true (pos 125) with_child with_child ≡ ok (revoked_pair, 2)
unfolding program
revokes_chain = refl

abbrev third_id : Text
third_id = text "01CX5ZZKBKACTAV9WEVGEMMVRZ"

abbrev third : Token
third = record root {
  id = third_id;
  expires_at = pos 186;
  created_at = pos 126;
  signature = repeat 64 199;
}

abbrev with_third : TokenStore
with_third = record { tokens = revoked_pair.tokens ++ third ∷ []; audits = [] }

issues_third :
    issue_token toy priv spec (pos 126) third_id revoked_pair
    ≡ ok (with_third, third, encode_token_string third_id (repeat 64 199))
unfolding program
issues_third = refl

abbrev third_used : TokenStore
third_used = record {
  tokens = revoked_pair.tokens ++ set_consumed (pos 140) third ∷ [];
  audits = audit_of third (pos 140) (text "a4") 131 ∷ [];
}

consumes_third :
    run_consume toy (call_of third (pos 140) (text "a4") with_third) with_third
    ≡ ok (third_used, set_consumed (pos 140) third)
unfolding program
consumes_third = refl

below_root : Descends with_child.tokens root_id bobs
unfolding program
below_root = child {p = root} refl refl refl (itself refl)

-- The twelve lines of the payloads.
abbrev root_payload : Text
root_payload = root_id ++ text "\npush\nrepo\nann\n\n\n160\nuser\n\n\n0\n100"

root_encoded : canonical_token_payload toy root ≡ ok root_payload
unfolding program
root_encoded = refl

abbrev row_payload : Text
row_payload = text "a2\npush\nrepo\nann\n\nauto\n\n\n\n" ++ root_id ++ text "\n\n130"

row_encoded : canonical_payload toy (audit_of root (pos 130) (text "a2") 30).row ≡ ok row_payload
unfolding program
row_encoded = refl
