-- ===== src/Authz/Signing.antt =====
-- The signed payloads and keys of pkg/authz/sign.go and pkg/authz/keys.go. A payload is kept as its runes, since
-- UTF-8 stands for them one to one; a key and a signature are lists of bytes.
pub mod Decimal
pub mod Join
use intercore.Common.{
  ℕ, zero, suc, ◌/◌, ◌%◌, ◌+◌, ◌≡◌, refl, Bool, true, false, not, ◌&&◌, ◌||◌, List, [], ◌∷◌, ◌++◌,
  if◌then◌else◌, ltb, ◌==◌, length, take, drop, arith, ◌≢◌, sym, subst, ◌∙◌,
}
use mathlib.Core.Bool.{false≢true}
use intercore.Common.Int.{ℤ, pos, negsuc, ltb_ℤ}
use intercore.Common.Text.{Text}
use intercore.Common.Outcome.{Result, ok, err, ◌>>=◌}

unfoldable pub same_text : Text → Text → Bool
same_text [] [] = true
same_text [] (d ∷ t) = false
same_text (c ∷ s) [] = false
same_text (c ∷ s) (d ∷ t) = let rest = same_text s t in if c == d then rest else false

abbrev pub is_blank : Text → Bool
is_blank [] = true
is_blank (c ∷ s) = false

-- The audit's note on how an operation was vetted, as `json.Marshal` gets it.
pub record Vetting : Type 0 where
  pub token_id : Text
  pub depth : ℤ
  pub root_token : Text

-- Code of other packages: Unicode's NFC form, Ed25519, the ULID parser and the JSON encoder.
pub record Crypto : Type 0 where
  pub normalize : Text → Text
  pub new_key_from_seed : Text → Text
  pub ed25519_sign : Text → Text → Text
  pub ed25519_verify : Text → Text → Text → Bool
  pub is_ulid : Text → Bool
  pub to_json : Vetting → Text

pub data SignError : Type 0 where
  control_character negative depth_out_of_range key_corrupted pub_key_mismatch : SignError

-- strconv.FormatInt in base ten; a number has at most as many digits as its value and one.
unfoldable pub decimal_rounds : ℕ → ℕ → Text → Text
decimal_rounds zero n rest = rest
decimal_rounds (suc k) n rest =
    let more = decimal_rounds k (n / 10) ((n % 10 + b'0') ∷ rest) in
    if ltb n 10 then (n + b'0') ∷ rest else more

unfoldable pub decimal : ℕ → Text
decimal n = decimal_rounds (suc n) n []

abbrev pub format_int : ℤ → Text
format_int (pos n) = decimal n
format_int (negsuc n) = b'-' ∷ decimal (suc n)

abbrev pub is_control : ℕ → Bool
is_control c = ltb c 0x20 || c == 0x7f

unfoldable pub reject_control_chars : Text → Result SignError (Unit {0})
reject_control_chars [] = ok tt
reject_control_chars (c ∷ s) =
    let rest = reject_control_chars s in if is_control c then err control_character else rest

unfoldable pub checked : Text → Result SignError Text
checked s = reject_control_chars s >>= λ _. ok s

abbrev pub validate_text : Crypto → Text → Result SignError Text
validate_text crypto s = checked (crypto.normalize s)

-- An integer field that must not be negative.
unfoldable pub unsigned : ℤ → Result SignError Text
unsigned n = if ltb_ℤ n (pos 0) then err negative else ok (format_int n)

-- The loop over the signed fields, which stops at the first error.
unfoldable pub collect : List (Result SignError Text) → Result SignError (List Text)
collect [] = ok []
collect (r ∷ rs) = r >>= λ part. collect rs >>= λ parts. ok (part ∷ parts)

-- strings.Join with LF.
unfoldable pub join_lines : List Text → Text
join_lines [] = []
join_lines (part ∷ []) = part
join_lines (part ∷ (next ∷ parts)) = part ++ (b'\n' ∷ join_lines (next ∷ parts))

unfoldable pub payload_of : List (Result SignError Text) → Result SignError Text
payload_of fields = collect fields >>= λ parts. ok (join_lines parts)

pub record SignRow : Type 0 where
  pub id : Text
  pub op_type : Text
  pub target : Text
  pub agent_id : Text
  pub bead_id : Text
  pub mode : Text
  pub policy_match : Text
  pub policy_hash : Text
  pub vetted_sha : Text
  pub vetting : Text
  pub cross_project_id : Text
  pub created_at : ℤ

unfoldable pub signed_fields : Crypto → SignRow → List (Result SignError Text)
signed_fields crypto row =
    validate_text crypto row.id
    ∷ validate_text crypto row.op_type
    ∷ validate_text crypto row.target
    ∷ validate_text crypto row.agent_id
    ∷ validate_text crypto row.bead_id
    ∷ validate_text crypto row.mode
    ∷ validate_text crypto row.policy_match
    ∷ validate_text crypto row.policy_hash
    ∷ validate_text crypto row.vetted_sha
    ∷ checked row.vetting
    ∷ validate_text crypto row.cross_project_id
    ∷ unsigned row.created_at
    ∷ []

abbrev pub canonical_payload : Crypto → SignRow → Result SignError Text
canonical_payload crypto row = payload_of (signed_fields crypto row)

-- The key itself and its public half.
unfoldable pub validate_private_key : Crypto → Text → Result SignError (Text × Text)
validate_private_key crypto priv =
    let derived = crypto.new_key_from_seed (take 32 priv) in
    if not (length priv == 64)
    then err key_corrupted
    else if not (same_text priv derived)
    then err key_corrupted
    else ok (derived, drop 32 derived)

pub record KeyPair : Type 0 where
  pub public_key : Text
  pub private_key : Text

unfoldable pub validate_key_pair : Crypto → KeyPair → Result SignError (Unit {0})
validate_key_pair crypto kp = validate_private_key crypto kp.private_key >>= λ keys.
    if not (length kp.public_key == 32) || not (same_text kp.public_key keys.1)
    then err pub_key_mismatch
    else ok tt

-- `SignToken` and `Sign` alike.
unfoldable pub sign_payload : Crypto → Text → Result SignError Text → Result SignError Text
sign_payload crypto priv payload = do
  keys ← validate_private_key crypto priv
  bytes ← payload
  ok (crypto.ed25519_sign keys.0 bytes)

unfoldable pub verifies : Crypto → Text → Text → Result SignError Text → Bool
verifies crypto public_key sig (err e) = false
verifies crypto public_key sig (ok payload) = crypto.ed25519_verify public_key payload sig

-- `VerifyToken` and `Verify` alike.
unfoldable pub verify_payload : Crypto → Text → Result SignError Text → Text → Bool
verify_payload crypto public_key payload sig =
    if not (length public_key == 32) || not (length sig == 64)
    then false
    else verifies crypto public_key sig payload

abbrev pub sign : Crypto → Text → SignRow → Result SignError Text
sign crypto priv row = sign_payload crypto priv (canonical_payload crypto row)

abbrev pub verify : Crypto → Text → SignRow → Text → Bool
verify crypto public_key row sig =
    verify_payload crypto public_key (canonical_payload crypto row) sig

pub same_text_iff : (s t : Text) → (same_text s t ≡ true) → s ≡ t
unfolding same_text
same_text_iff [] [] h = refl
same_text_iff [] (d ∷ t) h = cc
same_text_iff (c ∷ s) [] h = cc
same_text_iff (c ∷ s) (d ∷ t) h = ground (arith, same_text_iff s t)

pub same_text_refl : (s : Text) → same_text s s ≡ true
unfolding same_text
same_text_refl [] = refl
same_text_refl (c ∷ s) = ground (arith, same_text_refl s)

pub same_text_comm : (s t : Text) → same_text s t ≡ same_text t s
unfolding same_text
same_text_comm [] [] = refl
same_text_comm [] (d ∷ t) = refl
same_text_comm (c ∷ s) [] = refl
same_text_comm (c ∷ s) (d ∷ t) = ground (arith, same_text_comm s t)

pub distinct_texts : (s t : Text) → same_text s t ≡ false → s ≢ t
distinct_texts s t e h = false≢true (sym e ∙ subst (λ k. same_text s k ≡ true) h (same_text_refl s))
