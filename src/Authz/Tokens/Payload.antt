-- ===== src/Authz/Tokens/Payload.antt =====
-- The payloads of two tokens, and of two audit rows.
use intercore.Common.{arith, false, ◌≡◌, refl, sym, ◌∙◌, ◌||◌}
use intercore.Common.Int.{ℤ, pos, ltb_ℤ}
use intercore.Common.Text.{Text}
use intercore.Common.Every.{Every}
use intercore.Common.Outcome.{ok, guard-eq-ok}
use intercore.Authz.Signing.{
  Crypto, SignRow, checked, validate_text, unsigned, signed_fields, canonical_payload,
}
use intercore.Authz.Signing.Join.{
  IsClean, SameFields, payload_of-SameFields, checked-eq-ok, checked-IsClean, unsigned-IsClean,
  unsigned-injective, same_text_field,
}
use intercore.Authz.Tokens.{Token, depth_text, token_signed_fields, canonical_token_payload}

depth_text-unsigned : (d : ℤ) (p : Text) → depth_text d ≡ ok p → unsigned d ≡ ok p
unfolding depth_text unsigned
depth_text-unsigned d p h =
    let (within, out) = guard-eq-ok (ltb_ℤ d (pos 0) || ltb_ℤ (pos 3) d) _ _ h in
    let above : ltb_ℤ d (pos 0) ≡ false = ground arith in rw above out

depth_text-injective : (m n : ℤ) (p : Text) → depth_text m ≡ ok p → depth_text n ≡ ok p → m ≡ n
depth_text-injective m n p h k =
    unsigned-injective m n p (depth_text-unsigned m p h) (depth_text-unsigned n p k)

same_checked : (s t p : Text) → checked s ≡ ok p → checked t ≡ ok p → s ≡ t
same_checked s t p h k = (checked-eq-ok s p h).0 ∙ sym (checked-eq-ok t p k).0

-- The signed part of two tokens agrees, up to the normal form of texts.
pub record SameSigned (crypto : Crypto) (t u : Token) : Type 0 where
  pub id : crypto.normalize t.id ≡ crypto.normalize u.id
  pub op_type : crypto.normalize t.op_type ≡ crypto.normalize u.op_type
  pub target : crypto.normalize t.target ≡ crypto.normalize u.target
  pub agent_id : crypto.normalize t.agent_id ≡ crypto.normalize u.agent_id
  pub bead_id : crypto.normalize t.bead_id ≡ crypto.normalize u.bead_id
  pub delegate_to : crypto.normalize t.delegate_to ≡ crypto.normalize u.delegate_to
  pub expires_at : t.expires_at ≡ u.expires_at
  pub issued_by : crypto.normalize t.issued_by ≡ crypto.normalize u.issued_by
  pub parent_token : crypto.normalize t.parent_token ≡ crypto.normalize u.parent_token
  pub root_token : crypto.normalize t.root_token ≡ crypto.normalize u.root_token
  pub depth : t.depth ≡ u.depth
  pub created_at : t.created_at ≡ u.created_at

pub record SameRow (crypto : Crypto) (r s : SignRow) : Type 0 where
  pub id : crypto.normalize r.id ≡ crypto.normalize s.id
  pub op_type : crypto.normalize r.op_type ≡ crypto.normalize s.op_type
  pub target : crypto.normalize r.target ≡ crypto.normalize s.target
  pub agent_id : crypto.normalize r.agent_id ≡ crypto.normalize s.agent_id
  pub bead_id : crypto.normalize r.bead_id ≡ crypto.normalize s.bead_id
  pub mode : crypto.normalize r.mode ≡ crypto.normalize s.mode
  pub policy_match : crypto.normalize r.policy_match ≡ crypto.normalize s.policy_match
  pub policy_hash : crypto.normalize r.policy_hash ≡ crypto.normalize s.policy_hash
  pub vetted_sha : crypto.normalize r.vetted_sha ≡ crypto.normalize s.vetted_sha
  pub vetting : r.vetting ≡ s.vetting
  pub cross_project_id : crypto.normalize r.cross_project_id ≡ crypto.normalize s.cross_project_id
  pub created_at : r.created_at ≡ s.created_at

module _ (crypto : Crypto) where
  text-IsClean : (s : Text) → IsClean (validate_text crypto s)
  text-IsClean s = checked-IsClean (crypto.normalize s)

  depth-IsClean : (d : ℤ) → IsClean (depth_text d)
  depth-IsClean d p h = unsigned-IsClean d p (depth_text-unsigned d p h)

  token-IsClean : (t : Token) → Every IsClean (token_signed_fields crypto t)
  unfolding token_signed_fields
  token-IsClean t = (
    text-IsClean t.id,
    (
      text-IsClean t.op_type,
      (
        text-IsClean t.target,
        (
          text-IsClean t.agent_id,
          (
            text-IsClean t.bead_id,
            (
              text-IsClean t.delegate_to,
              (
                unsigned-IsClean t.expires_at,
                (
                  text-IsClean t.issued_by,
                  (
                    text-IsClean t.parent_token,
                    (
                      text-IsClean t.root_token,
                      (depth-IsClean t.depth, (unsigned-IsClean t.created_at, tt)),
                    ),
                  ),
                ),
              ),
            ),
          ),
        ),
      ),
    ),
  )

  row-IsClean : (r : SignRow) → Every IsClean (signed_fields crypto r)
  unfolding signed_fields
  row-IsClean r = (
    text-IsClean r.id,
    (
      text-IsClean r.op_type,
      (
        text-IsClean r.target,
        (
          text-IsClean r.agent_id,
          (
            text-IsClean r.bead_id,
            (
              text-IsClean r.mode,
              (
                text-IsClean r.policy_match,
                (
                  text-IsClean r.policy_hash,
                  (
                    text-IsClean r.vetted_sha,
                    (
                      checked-IsClean r.vetting,
                      (text-IsClean r.cross_project_id, (unsigned-IsClean r.created_at, tt)),
                    ),
                  ),
                ),
              ),
            ),
          ),
        ),
      ),
    ),
  )

  token-SameSigned :
      (t u : Token)
      → SameFields (token_signed_fields crypto t) (token_signed_fields crypto u)
      → SameSigned crypto t u
  unfolding token_signed_fields
  token-SameSigned t u f = record {
    id = same_text_field crypto t.id u.id f.0.0 f.0.1 f.0.2;
    op_type = same_text_field crypto t.op_type u.op_type f.1.0.0 f.1.0.1 f.1.0.2;
    target = same_text_field crypto t.target u.target f.1.1.0.0 f.1.1.0.1 f.1.1.0.2;
    agent_id = same_text_field crypto t.agent_id u.agent_id f.1.1.1.0.0 f.1.1.1.0.1 f.1.1.1.0.2;
    bead_id = same_text_field crypto t.bead_id u.bead_id f.1.1.1.1.0.0 f.1.1.1.1.0.1 f.1.1.1.1.0.2;
    delegate_to =
        same_text_field crypto t.delegate_to u.delegate_to f.1.1.1.1.1.0.0 f.1.1.1.1.1.0.1
          f.1.1.1.1.1.0.2;
    expires_at =
        unsigned-injective t.expires_at u.expires_at f.1.1.1.1.1.1.0.0 f.1.1.1.1.1.1.0.1
          f.1.1.1.1.1.1.0.2;
    issued_by =
        same_text_field crypto t.issued_by u.issued_by f.1.1.1.1.1.1.1.0.0 f.1.1.1.1.1.1.1.0.1
          f.1.1.1.1.1.1.1.0.2;
    parent_token =
        same_text_field crypto t.parent_token u.parent_token f.1.1.1.1.1.1.1.1.0.0
          f.1.1.1.1.1.1.1.1.0.1 f.1.1.1.1.1.1.1.1.0.2;
    root_token =
        same_text_field crypto t.root_token u.root_token f.1.1.1.1.1.1.1.1.1.0.0
          f.1.1.1.1.1.1.1.1.1.0.1 f.1.1.1.1.1.1.1.1.1.0.2;
    depth =
        depth_text-injective t.depth u.depth f.1.1.1.1.1.1.1.1.1.1.0.0 f.1.1.1.1.1.1.1.1.1.1.0.1
          f.1.1.1.1.1.1.1.1.1.1.0.2;
    created_at =
        unsigned-injective t.created_at u.created_at f.1.1.1.1.1.1.1.1.1.1.1.0.0
          f.1.1.1.1.1.1.1.1.1.1.1.0.1 f.1.1.1.1.1.1.1.1.1.1.1.0.2;
  }

  row-SameRow :
      (r s : SignRow)
      → SameFields (signed_fields crypto r) (signed_fields crypto s)
      → SameRow crypto r s
  unfolding signed_fields
  row-SameRow r s f = record {
    id = same_text_field crypto r.id s.id f.0.0 f.0.1 f.0.2;
    op_type = same_text_field crypto r.op_type s.op_type f.1.0.0 f.1.0.1 f.1.0.2;
    target = same_text_field crypto r.target s.target f.1.1.0.0 f.1.1.0.1 f.1.1.0.2;
    agent_id = same_text_field crypto r.agent_id s.agent_id f.1.1.1.0.0 f.1.1.1.0.1 f.1.1.1.0.2;
    bead_id = same_text_field crypto r.bead_id s.bead_id f.1.1.1.1.0.0 f.1.1.1.1.0.1 f.1.1.1.1.0.2;
    mode = same_text_field crypto r.mode s.mode f.1.1.1.1.1.0.0 f.1.1.1.1.1.0.1 f.1.1.1.1.1.0.2;
    policy_match =
        same_text_field crypto r.policy_match s.policy_match f.1.1.1.1.1.1.0.0 f.1.1.1.1.1.1.0.1
          f.1.1.1.1.1.1.0.2;
    policy_hash =
        same_text_field crypto r.policy_hash s.policy_hash f.1.1.1.1.1.1.1.0.0 f.1.1.1.1.1.1.1.0.1
          f.1.1.1.1.1.1.1.0.2;
    vetted_sha =
        same_text_field crypto r.vetted_sha s.vetted_sha f.1.1.1.1.1.1.1.1.0.0 f.1.1.1.1.1.1.1.1.0.1
          f.1.1.1.1.1.1.1.1.0.2;
    vetting =
        same_checked r.vetting s.vetting f.1.1.1.1.1.1.1.1.1.0.0 f.1.1.1.1.1.1.1.1.1.0.1
          f.1.1.1.1.1.1.1.1.1.0.2;
    cross_project_id =
        same_text_field crypto r.cross_project_id s.cross_project_id f.1.1.1.1.1.1.1.1.1.1.0.0
          f.1.1.1.1.1.1.1.1.1.1.0.1 f.1.1.1.1.1.1.1.1.1.1.0.2;
    created_at =
        unsigned-injective r.created_at s.created_at f.1.1.1.1.1.1.1.1.1.1.1.0.0
          f.1.1.1.1.1.1.1.1.1.1.1.0.1 f.1.1.1.1.1.1.1.1.1.1.1.0.2;
  }

  -- Two tokens with the same signed payload have the same depth and the same times, and texts
  -- with the same normal form in each of the nine text fields.
  pub canonical_token_payload-SameSigned :
      (t u : Token) (b : Text)
      → canonical_token_payload crypto t ≡ ok b
      → canonical_token_payload crypto u ≡ ok b
      → SameSigned crypto t u
  unfolding token_signed_fields
  canonical_token_payload-SameSigned t u b h k = token-SameSigned t u (
      payload_of-SameFields (token_signed_fields crypto t) (token_signed_fields crypto u) b
        (token-IsClean t) (token-IsClean u) refl h k)

  -- Two audit rows with the same signed payload have the same time, the same vetting text, and
  -- texts with the same normal form in each of the ten other fields.
  pub canonical_payload-SameRow :
      (r s : SignRow) (b : Text)
      → canonical_payload crypto r ≡ ok b
      → canonical_payload crypto s ≡ ok b
      → SameRow crypto r s
  unfolding signed_fields
  canonical_payload-SameRow r s b h k = row-SameRow r s (
      payload_of-SameFields (signed_fields crypto r) (signed_fields crypto s) b (row-IsClean r)
        (row-IsClean s) refl h k)
