-- ===== src/Authz/Tokens/Signatures.antt =====
-- What Ed25519 and the ULID parser promise, and what follows for tokens.
use intercore.Common.{
  ℕ, zero, suc, ◌+◌, ◌≤◌, ◌≡◌, sym, ap, subst, ◌∙◌, true, not, [], ◌∷◌, ◌==◌, length, take, drop,
  arith,
}
use intercore.Common.Text.{Text}
use intercore.Common.Every.{Every}
use intercore.Common.Outcome.{Result, ok, >>=-eq-ok, guard-eq-ok, ok-injective}
use intercore.Authz.Signing.{
  Crypto, SignError, same_text, sign_payload, verify_payload, validate_private_key, verifies,
}
use intercore.Authz.Tokens.{Token, verify_token, canonical_token_payload, token_signed_fields}
use intercore.Authz.Tokens.Encoding.{IsByte, IsDotless}
use intercore.Authz.Issuing.{signed_with}

-- What is relied on of Ed25519 and of the ULID parser: the lengths of keys and signatures, the
-- public half of a key accepts what the key signs, and a ULID has no dot.
pub record IsSound (crypto : Crypto) : Type 0 where
  pub key_size : (seed : Text) → length (crypto.new_key_from_seed seed) ≡ 64
  pub signature_size : (key m : Text) → length (crypto.ed25519_sign key m) ≡ 64
  pub signature_bytes : (key m : Text) → Every IsByte (crypto.ed25519_sign key m)
  pub accepts :
      (seed m : Text)
      → crypto.ed25519_verify
          (drop 32 (crypto.new_key_from_seed seed))
          m
          (crypto.ed25519_sign (crypto.new_key_from_seed seed) m)
        ≡ true
  pub ulid_size : (s : Text) → crypto.is_ulid s ≡ true → length s ≡ 26
  pub ulid_dotless : (s : Text) → crypto.is_ulid s ≡ true → Every IsDotless s

abbrev pub public_half : Crypto → Text → Text
public_half crypto priv = drop 32 (crypto.new_key_from_seed (take 32 priv))

length-drop : (n : ℕ) (xs : Text) → n ≤ length xs → length (drop n xs) + n ≡ length xs
length-drop zero xs h = omega arith
length-drop (suc n) [] h = absurd (omega arith)
length-drop (suc n) (x ∷ xs) h = omega (arith, length-drop n xs (omega arith))

-- A signature is no part of what it signs.
pub verified-signed :
    (crypto : Crypto) (public_key : Text) (t : Token) (sig : Text)
    → verify_payload crypto public_key (canonical_token_payload crypto t) sig ≡ true
    → verify_token crypto public_key (signed_with t sig) sig ≡ true
unfolding verify_token token_signed_fields
verified-signed crypto public_key t sig h = h

module _ (crypto : Crypto) (sound : IsSound crypto) where
  validate_private_key-eq-ok :
      (priv : Text) (keys : Text × Text)
      → validate_private_key crypto priv ≡ ok keys
      → keys.0 ≡ crypto.new_key_from_seed (take 32 priv)
  unfolding validate_private_key
  validate_private_key-eq-ok priv keys h =
      let (_, h1) = guard-eq-ok (not (length priv == 64)) _ _ h in
      let (_, h2) =
        guard-eq-ok (not (same_text priv (crypto.new_key_from_seed (take 32 priv)))) _ _ h1 in
      ap (λ k. k.0) (sym (ok-injective h2))

  -- What a key signs, its public half verifies.
  pub verify-sign :
      (priv sig : Text) (payload : Result SignError Text)
      → sign_payload crypto priv payload ≡ ok sig
      → (verify_payload crypto (public_half crypto priv) payload sig ≡ true)
        × (length sig ≡ 64)
        × Every IsByte sig
  unfolding sign_payload verify_payload verifies
  verify-sign priv sig payload h =
      let (keys, valid, h1) = >>=-eq-ok (validate_private_key crypto priv) _ h in
      let (bytes, encoded, h2) = >>=-eq-ok payload _ h1 in
      let key = validate_private_key-eq-ok priv keys valid in
      let made : crypto.ed25519_sign (crypto.new_key_from_seed (take 32 priv)) bytes ≡ sig =
        ap (λ k. crypto.ed25519_sign k bytes) (sym key) ∙ ok-injective h2 in
      let size : length sig ≡ 64 =
        ap length (sym made)
        ∙ sound.signature_size (crypto.new_key_from_seed (take 32 priv)) bytes in
      let half : length (public_half crypto priv) ≡ 32 = omega (
        arith,
        length-drop 32 (crypto.new_key_from_seed (take 32 priv)),
        sound.key_size (take 32 priv),
      ) in
      (
        rw (half, size, encoded)
            (ap (crypto.ed25519_verify (public_half crypto priv) bytes) (sym made)
              ∙ sound.accepts (take 32 priv) bytes),
        size,
        subst (Every IsByte) made
            (sound.signature_bytes (crypto.new_key_from_seed (take 32 priv)) bytes),
      )
