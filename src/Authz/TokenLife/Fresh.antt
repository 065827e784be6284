-- ===== src/Authz/TokenLife/Fresh.antt =====
-- A token that was issued can be consumed, as long as nothing has consumed or revoked it.
use intercore.Common.{Option, ◌≡◌, true, false, none, some}
use intercore.Common.Text.{Text}
use intercore.Common.Outcome.{ok}
use intercore.Authz.Signing.{Crypto, is_blank}
use intercore.Authz.Tokens.{Token, verify_token, parse_token_string}
use intercore.Authz.Tokens.Signatures.{IsSound, public_half}
use intercore.Authz.TokenTable.{TokenStore, all_spaces, find_token}

module _ (crypto : Crypto) (sound : IsSound crypto) where
  -- What an issue stores and returns.
  record Issued (priv : Text) (store after : TokenStore) (t : Token) (text : Text) : Type 0 where
    sig : Text
    named : is_blank t.agent_id ≡ false
    agent : all_spaces t.agent_id ≡ false
    id_named : is_blank t.id ≡ false
    parsed : parse_token_string crypto text ≡ ok (t.id, sig)
    verified : verify_token crypto (public_half crypto priv) t sig ≡ true
    row : find_token t.id after.tokens ≡ some t
    unconsumed : t.consumed_at ≡ none
    unrevoked : t.revoked_at ≡ none
