-- ===== src/Authz/TokenLife/Added.antt =====
-- What issue and delegate do to the table.
use intercore.Common.{
  ◌≡◌, refl, sym, ap, subst, ◌∙◌, Bool, true, false, none, some, List, [], ◌∷◌, ◌++◌, inl, inr, ◌⊎◌,
  arith,
}
use intercore.Common.Int.{wrap64, ◌+ℤ◌, ℤ, pos, ltb_ℤ, ◌≤ℤ◌}
use intercore.Common.Text.{Text}
use intercore.Common.Outcome.{ok, ◌>>◌, >>=-eq-ok, guard-eq-ok, ok-injective}
use intercore.Authz.Signing.{same_text_iff, is_blank, Crypto}
use intercore.Authz.Tokens.{Token, TokenError, insert_failed, depth_exceeded, sign_token}
use intercore.Authz.TokenTable.{
  TokenStore, signing, reselect, find_token, get_token, insert_token, passes_checks, update_tokens,
}
use intercore.Authz.TokenTable.Rows.{Later, changed, find_token-id, insert_token-eq-ok}
use intercore.Authz.Issuing.{
  IssueSpec, DelegateSpec, issue_token, delegate_token, check_delegate, check_parent, insert_signed,
  insert_child, root_of, child_of, check_issue, seconds, signed_with, below, clamp_expiry,
  root_of_chain,
}

-- How a child stands to its parent; the depth is Go's sum.
pub record ChildOf (p t : Token) : Type 0 where
  pub op_type : t.op_type ≡ p.op_type
  pub target : t.target ≡ p.target
  pub bead_id : t.bead_id ≡ p.bead_id
  pub issued_by : t.issued_by ≡ p.agent_id
  pub root_token : t.root_token ≡ root_of_chain p
  pub depth : t.depth ≡ below p.depth
  pub expires_at : t.expires_at ≤ℤ p.expires_at

pub record IsRoot (t : Token) : Type 0 where
  pub parent_token : t.parent_token ≡ []
  pub root_token : t.root_token ≡ []
  pub depth : t.depth ≡ pos 0

abbrev pub HasParent : List Token → Token → Type 0
HasParent tokens t =
    (p : Token) × (find_token t.parent_token tokens ≡ some p)
    × (is_blank t.parent_token ≡ false)
    × ChildOf p t

abbrev pub Origin : List Token → Token → Type 0
Origin tokens t = IsRoot t ⊎ HasParent tokens t

pub data Effect (seen store after : TokenStore) : Type 0 where
  adds :
      (t : Token)
      → passes_checks t ≡ true
      → find_token t.id store.tokens ≡ none
      → Origin seen.tokens t
      → after.tokens ≡ store.tokens ++ t ∷ []
      → Effect seen store after
  marks :
      (matches : Token → Bool) (change : Token → Token)
      → ((t : Token) → (change t).id ≡ t.id)
      → ((t : Token) → Later t (changed matches change t))
      → after.tokens ≡ update_tokens matches change store.tokens
      → Effect seen store after

insert_signed-Effect :
    (seen store after : TokenStore) (e : TokenError) (t t' : Token) (sig text : Text)
    → Origin seen.tokens (signed_with t sig)
    → insert_signed e t store sig ≡ ok (after, t', text)
    → Effect seen store after
unfolding insert_signed
insert_signed-Effect seen store after e t t' sig text o h =
    let (s, inserted, rest) = >>=-eq-ok (insert_token e (signed_with t sig) store) _ h in
    let (checks, fresh, made) = insert_token-eq-ok e (signed_with t sig) store s inserted in
    let same : s ≡ after = ap (λ r. r.0) (ok-injective rest) in
    adds (signed_with t sig) checks fresh o (ap (λ x. x.tokens) (sym same ∙ made))

pub issue-Effect :
    (crypto : Crypto) (seen store after : TokenStore) (priv : Text) (spec : IssueSpec) (now : ℤ)
    (id : Text) (t : Token) (text : Text)
    → issue_token crypto priv spec now id store ≡ ok (after, t, text)
    → Effect seen store after
unfolding issue_token
issue-Effect crypto seen store after priv spec now id t text h =
    let (sig, signed, inserted) =
      >>=-eq-ok (check_issue spec now >> signing (sign_token crypto priv (root_of spec now id)))
        (insert_signed insert_failed (root_of spec now id) store) h in
    insert_signed-Effect seen store after insert_failed (root_of spec now id) t sig text
      (inl (record { parent_token = refl; root_token = refl; depth = refl })) inserted

pub get_token-eq-ok :
    (store : TokenStore) (id : Text) (t : Token)
    → get_token store id ≡ ok t
    → (is_blank id ≡ false) × (find_token id store.tokens ≡ some t)
unfolding get_token
get_token-eq-ok store id t h = ground arith

pub clamp-le : (p r : ℤ) → clamp_expiry p r ≤ℤ p
clamp-le p r = ground arith

check_parent-caller :
    (spec : DelegateSpec) (p : Token)
    → check_parent spec p ≡ ok tt
    → spec.caller_agent_id ≡ p.agent_id
unfolding check_parent
check_parent-caller spec p h = same_text_iff spec.caller_agent_id p.agent_id (ground arith)

pub delegate-Effect :
    (crypto : Crypto) (seen store after : TokenStore) (priv : Text) (spec : DelegateSpec) (now : ℤ)
    (id : Text) (t : Token) (text : Text)
    → delegate_token crypto priv spec now id seen store ≡ ok (after, t, text)
    → Effect seen store after
unfolding delegate_token insert_child
delegate-Effect crypto seen store after priv spec now id t text h =
    let (_, _, h1) = >>=-eq-ok (check_delegate spec now) _ h in
    let (p, found, h2) = >>=-eq-ok (get_token seen spec.parent_id) _ h1 in
    let (_, checked, h3) = >>=-eq-ok (check_parent spec p) _ h2 in
    let child = child_of spec now id p in
    let (sig, _, h4) = >>=-eq-ok (signing (sign_token crypto priv child)) _ h3 in
    let (again, _, h5) = >>=-eq-ok (reselect p.id store) _ h4 in
    let (_, inserted) = guard-eq-ok (ltb_ℤ (pos 3) (below again.depth)) _ _ h5 in
    let (named, row) = get_token-eq-ok seen spec.parent_id p found in
    let own = find_token-id spec.parent_id seen.tokens p row in
    insert_signed-Effect seen store after depth_exceeded child t sig text
      (inr (
        p,
        subst (λ k. find_token k seen.tokens ≡ some p) (sym own) row,
        subst (λ k. is_blank k ≡ false) (sym own) named,
        record {
          op_type = refl;
          target = refl;
          bead_id = refl;
          issued_by = check_parent-caller spec p checked;
          root_token = refl;
          depth = refl;
          expires_at = clamp-le p.expires_at (wrap64 (now +ℤ seconds spec.requested_ttl));
        },
      ))
      inserted
