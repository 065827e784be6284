-- ===== src/Authz/TokenSamples/Witnesses.antt =====
-- The theorems about tokens, at the runs of two agents.
use intercore.Common.{◌≡◌, ◌≢◌, refl, arith}
use intercore.Common.Int.{pos}
use intercore.Common.Outcome.{ok}
use intercore.Authz.Tokens.{token_signed_fields, encode_token_string, parse_token_string, exit_code}
use intercore.Authz.Tokens.Encoding.{parse_token_string-encode_token_string}
use intercore.Authz.Tokens.Payload.{SameSigned, canonical_token_payload-SameSigned}
use intercore.Authz.Consuming.{consume_token, set_consumed}
use intercore.Authz.Consuming.Errors.{consume-revoked}
use intercore.Authz.Revoking.{set_revoked}
use intercore.Authz.TokenLife.{issues, here, next}
use intercore.Authz.TokenLife.Chains.{IsTable, Reach-IsTable}
use intercore.Authz.TokenLife.SingleUse.{consume-once}
use intercore.Authz.TokenLife.Cascade.{cascade-Descends}
use intercore.Authz.TokenSamples.{
  program, text, repeat, toy, repeat-IsByte, dotless-IsDotless, root_id, child_id, priv, spec, root,
  bobs, with_child, reached_child, request_of, call_of, consumes_bob, consumes_root, revoked_pair,
  revokes_chain, third_id, third, with_third, issues_third, consumes_third, below_root,
  root_payload, root_encoded,
}

Reach-IsTable_example : IsTable with_child
Reach-IsTable_example = Reach-IsTable toy with_child reached_child

consume-once_example : child_id ≢ root_id
consume-once_example =
    consume-once (call_of bobs (pos 120) (text "a1") with_child)
      (call_of root (pos 130) (text "a2") with_child) reached_child consumes_bob here consumes_root

consume-revoked_example :
    exit_code (
      consume_token toy
        (repeat 32 1)
        priv
        (request_of bobs)
        (pos 130)
        (text "a3")
        with_child
        revoked_pair)
    ≡ 4
unfolding program
consume-revoked_example =
    consume-revoked toy (repeat 32 1) priv (request_of bobs) (pos 130) (text "a3") with_child
      revoked_pair child_id (repeat 64 153) bobs (set_revoked (pos 125) bobs) refl refl refl refl
      (refl, (refl, tt)) refl (λ e. cc)

cascade-Descends_example : third_id ≢ child_id
cascade-Descends_example =
    cascade-Descends root_id (pos 125) (call_of third (pos 140) (text "a4") with_third)
      reached_child here revokes_chain below_root
      (next here here (issues priv spec (pos 126) third_id third _ issues_third)) consumes_third

parse_token_string-encode_token_string_example :
    parse_token_string toy (encode_token_string root_id (repeat 64 85)) ≡ ok (root_id, repeat 64 85)
parse_token_string-encode_token_string_example =
    parse_token_string-encode_token_string toy root_id (repeat 64 85) refl
      (dotless-IsDotless root_id refl) refl (repeat-IsByte 64 85 (omega arith))

canonical_token_payload-SameSigned_example : SameSigned toy root (set_consumed (pos 150) root)
unfolding token_signed_fields
canonical_token_payload-SameSigned_example =
    canonical_token_payload-SameSigned toy root (set_consumed (pos 150) root) root_payload
      root_encoded root_encoded
