-- ===== src/Authz/Revoking.antt =====
-- Revoke, pkg/authz/token.go: one token, or a root and all that descends from it.
use intercore.Common.{ℕ, Bool, not, ◌&&◌, ◌||◌, some, if◌then◌else◌, ◌==◌, is_some}
use intercore.Common.Int.{ℤ}
use intercore.Common.Text.{Text}
use intercore.Common.Outcome.{Result, ok, err, ◌>>=◌}
use intercore.Authz.Signing.{same_text, is_blank}
use intercore.Authz.Tokens.{Token, TokenError, not_found, cascade_on_non_root, required}
use intercore.Authz.TokenTable.{
  TokenStore, is_positive, find_token, get_token, update_tokens, count_tokens,
}

abbrev pub set_revoked : ℤ → Token → Token
set_revoked now t = record t { revoked_at = some now }

abbrev pub is_live : Text → Token → Bool
is_live id t = same_text t.id id && not (is_some t.revoked_at)

abbrev pub is_live_in_chain : Text → Token → Bool
is_live_in_chain id t =
    (same_text t.id id || same_text t.root_token id) && not (is_some t.revoked_at)

-- The rows that an UPDATE revokes, and their number.
abbrev pub revoke_where : (Token → Bool) → ℤ → TokenStore → TokenStore × ℕ
revoke_where matches now store = (
  record store { tokens = update_tokens matches (set_revoked now) store.tokens },
  count_tokens matches store.tokens,
)

unfoldable pub revoke_one : Text → ℤ → TokenStore → Result TokenError (TokenStore × ℕ)
revoke_one id now store =
    if count_tokens (is_live id) store.tokens == 0 && not (is_some (find_token id store.tokens))
    then err not_found
    else ok (revoke_where (is_live id) now store)

unfoldable pub revoke_chain : Text → ℤ → TokenStore → Token → Result TokenError (TokenStore × ℕ)
revoke_chain id now store target =
    if not (is_blank target.parent_token) || not (is_blank target.root_token)
    then err cascade_on_non_root
    else ok (revoke_where (is_live_in_chain id) now store)

-- `seen` is the table when the target of a cascade is read.
unfoldable pub revoke_token :
    Text → Bool → ℤ → (seen store : TokenStore) → Result TokenError (TokenStore × ℕ)
revoke_token id cascade now seen store =
    if is_blank id
    then err (required "tokenID")
    else if not (is_positive now)
    then err (required "now")
    else if cascade
    then (get_token seen id >>= revoke_chain id now store)
    else revoke_one id now store
