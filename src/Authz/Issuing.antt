-- ===== src/Authz/Issuing.antt =====
-- Issue and delegate, pkg/authz/token.go. Delegate reads the parent and opens its transaction later: `seen` is the
-- table at the read, `store` the table in the transaction, so that other operations may stand in
-- between. An error changes nothing.
use intercore.Common.{suc, ◌/◌, not, none, [], if◌then◌else◌}
use intercore.Common.Int.{ℤ, pos, negsuc, sub_ℕ, ltb_ℤ, ◌+ℤ◌, wrap64}
use intercore.Common.Text.{Text}
use intercore.Common.Outcome.{Result, ok, err, ◌>>=◌, ◌>>◌}
use intercore.Authz.Signing.{same_text, is_blank, Crypto}
use intercore.Authz.Tokens.{
  Token, TokenError, proof_of_possession, depth_exceeded, required, insert_failed, sign_token,
  encode_token_string,
}
use intercore.Authz.TokenTable.{TokenStore, signing, is_positive, reselect, get_token, insert_token}

pub record IssueSpec : Type 0 where
  pub op_type : Text
  pub target : Text
  pub agent_id : Text
  pub bead_id : Text
  pub issued_by : Text
  pub ttl : ℤ

pub record DelegateSpec : Type 0 where
  pub parent_id : Text
  pub caller_agent_id : Text
  pub to_agent_id : Text
  pub requested_ttl : ℤ

-- `int64(ttl / time.Second)`
abbrev pub seconds : ℤ → ℤ
seconds (pos n) = pos (n / 1000000000)
seconds (negsuc n) = sub_ℕ 0 (suc n / 1000000000)

unfoldable pub check_issue : IssueSpec → ℤ → Result TokenError (Unit {0})
check_issue spec now =
    if is_blank spec.op_type
    then err (required "OpType")
    else if is_blank spec.target
    then err (required "Target")
    else if is_blank spec.agent_id
    then err (required "AgentID")
    else if is_blank spec.issued_by
    then err (required "IssuedBy")
    else if not (is_positive spec.ttl)
    then err (required "TTL")
    else if not (is_positive now)
    then err (required "now")
    else ok tt

abbrev pub root_of : IssueSpec → ℤ → Text → Token
root_of spec now id = record {
  id = id;
  op_type = spec.op_type;
  target = spec.target;
  agent_id = spec.agent_id;
  bead_id = spec.bead_id;
  delegate_to = [];
  expires_at = wrap64 (now +ℤ seconds spec.ttl);
  consumed_at = none;
  revoked_at = none;
  issued_by = spec.issued_by;
  parent_token = [];
  root_token = [];
  depth = pos 0;
  sig_version = 2;
  signature = [];
  created_at = now;
}

abbrev pub signed_with : Token → Text → Token
signed_with t sig = record t { signature = sig }

-- The new row, its token and the token's text.
abbrev pub Issued : Type 0
Issued = TokenStore × Token × Text

unfoldable pub insert_signed : TokenError → Token → TokenStore → Text → Result TokenError Issued
insert_signed on_check t store sig = insert_token on_check (signed_with t sig) store >>= λ store'.
    ok (store', signed_with t sig, encode_token_string t.id sig)

-- `id` is the ULID that `ulid.Make` returns.
unfoldable pub issue_token :
    Crypto → Text → IssueSpec → ℤ → Text → TokenStore → Result TokenError Issued
issue_token crypto priv spec now id store =
    check_issue spec now
    >> signing (sign_token crypto priv (root_of spec now id))
    >>= insert_signed insert_failed (root_of spec now id) store

unfoldable pub check_delegate : DelegateSpec → ℤ → Result TokenError (Unit {0})
check_delegate spec now =
    if is_blank spec.parent_id
    then err (required "ParentID")
    else if is_blank spec.caller_agent_id
    then err (required "CallerAgentID")
    else if is_blank spec.to_agent_id
    then err (required "ToAgentID")
    else if not (is_positive spec.requested_ttl)
    then err (required "RequestedTTL")
    else if not (is_positive now)
    then err (required "now")
    else ok tt

abbrev pub below : ℤ → ℤ
below depth = wrap64 (depth +ℤ pos 1)

-- The caller's possession of the parent, and the depth.
unfoldable pub check_parent : DelegateSpec → Token → Result TokenError (Unit {0})
check_parent spec parent =
    if not (same_text spec.caller_agent_id parent.agent_id)
    then err proof_of_possession
    else if ltb_ℤ (pos 3) (below parent.depth)
    then err depth_exceeded
    else ok tt

abbrev pub clamp_expiry : ℤ → ℤ → ℤ
clamp_expiry parent requested = if ltb_ℤ parent requested then parent else requested

abbrev pub root_of_chain : Token → Text
root_of_chain parent = if is_blank parent.root_token then parent.id else parent.root_token

abbrev pub child_of : DelegateSpec → ℤ → Text → Token → Token
child_of spec now id parent = record {
  id = id;
  op_type = parent.op_type;
  target = parent.target;
  agent_id = spec.to_agent_id;
  bead_id = parent.bead_id;
  delegate_to = spec.to_agent_id;
  expires_at = clamp_expiry parent.expires_at (wrap64 (now +ℤ seconds spec.requested_ttl));
  consumed_at = none;
  revoked_at = none;
  issued_by = spec.caller_agent_id;
  parent_token = parent.id;
  root_token = root_of_chain parent;
  depth = below parent.depth;
  sig_version = 2;
  signature = [];
  created_at = now;
}

-- The depth is read again in the transaction; a CHECK that fails is reported as the depth's.
unfoldable pub insert_child : Token → TokenStore → Text → Token → Result TokenError Issued
insert_child child store sig parent =
    if ltb_ℤ (pos 3) (below parent.depth)
    then err depth_exceeded
    else insert_signed depth_exceeded child store sig

unfoldable pub delegate_token :
    Crypto → Text → DelegateSpec → ℤ → Text → (seen store : TokenStore) → Result TokenError Issued
delegate_token crypto priv spec now id seen store = do
  check_delegate spec now
  parent ← get_token seen spec.parent_id
  check_parent spec parent
  sig ← signing (sign_token crypto priv (child_of spec now id parent))
  again ← reselect parent.id store
  insert_child (child_of spec now id parent) store sig again
