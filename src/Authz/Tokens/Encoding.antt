-- ===== src/Authz/Tokens/Encoding.antt =====
-- The text form of a token, written and read back.
use intercore.Common.{
  ℕ, ◌+◌, ◌*◌, ◌/◌, ◌%◌, ◌<◌, ◌≡◌, refl, true, false, some, [], ◌∷◌, ◌++◌, ◌==◌, length, arith,
}
use intercore.Common.Text.{Text}
use intercore.Common.Every.{Every}
use intercore.Common.Outcome.{ok}
use intercore.Authz.Signing.{Crypto}
use intercore.Authz.Tokens.{
  hex_digit, hex_encode, from_hex_digit, hex_decode, encode_token_string, split_at_dot, parse_parts,
  parse_token_string, with_signature,
}

abbrev pub IsByte : ℕ → Type 0
IsByte b = b < 256

abbrev pub IsDotless : ℕ → Type 0
IsDotless c = (c == b'.') ≡ false

from_hex_digit_lem : (d : ℕ) → d < 16 → from_hex_digit (hex_digit d) ≡ some d
unfolding from_hex_digit
from_hex_digit_lem d h = ground arith

digits_eq : (b : ℕ) → b / 16 * 16 + b % 16 ≡ b
digits_eq b = omega arith

hex_decode-hex_encode :
    (bytes : Text) → Every IsByte bytes → hex_decode (hex_encode bytes) ≡ some bytes
unfolding hex_decode hex_encode
hex_decode-hex_encode [] h = refl
hex_decode-hex_encode (b ∷ bytes) h = rw (
  from_hex_digit_lem (b / 16) (omega arith),
  from_hex_digit_lem (b % 16) (omega arith),
  hex_decode-hex_encode bytes h.1,
  digits_eq b,
)

split_at_dot-append :
    (id rest : Text) → Every IsDotless id → split_at_dot (id ++ (b'.' ∷ rest)) ≡ some (id, rest)
unfolding split_at_dot
split_at_dot-append [] rest h = refl
split_at_dot-append (c ∷ id) rest h = rw (h.0, split_at_dot-append id rest h.1)

-- ParseTokenString reads back exactly what EncodeTokenString wrote, for an id that the ULID
-- parser accepts and that has no dot, and a signature of 64 bytes.
pub parse_token_string-encode_token_string :
    (crypto : Crypto) (id sig : Text)
    → crypto.is_ulid id ≡ true
    → Every IsDotless id
    → length sig ≡ 64
    → Every IsByte sig
    → parse_token_string crypto (encode_token_string id sig) ≡ ok (id, sig)
unfolding parse_token_string encode_token_string parse_parts with_signature
parse_token_string-encode_token_string crypto id sig valid dotless size bytes =
    rw (
      split_at_dot-append id (hex_encode sig) dotless,
      valid,
      hex_decode-hex_encode sig bytes,
      size,
    )
