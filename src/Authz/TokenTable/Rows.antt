-- ===== src/Authz/TokenTable/Rows.antt =====
-- Reads of the table after an update or an insertion, when ids are unique.
use intercore.Common.{
  ◌+◌, ◌≡◌, refl, sym, ap, subst, ◌∙◌, Bool, true, false, none, some, List, [], ◌∷◌, ◌++◌,
  if◌then◌else◌, Bool-cases, inl, inr, arith, ◌⊎◌,
}
use mathlib.Core.Option.{some_inj}
use intercore.Common.Text.{Text}
use intercore.Common.Every.{Every}
use intercore.Common.Outcome.{ok}
use intercore.Authz.Signing.{same_text, same_text_iff, same_text_refl, same_text_comm}
use intercore.Authz.Tokens.{Token, TokenError}
use intercore.Authz.TokenTable.{
  TokenStore, find_token, insert_token, passes_checks, update_tokens, count_tokens,
}

abbrev pub UniqueIds : List Token → Type 0
UniqueIds [] = Unit
UniqueIds (t ∷ tokens) = (find_token t.id tokens ≡ none) × UniqueIds tokens

-- A row after an operation: only the marks of its consumption and its revocation are new, and a
-- mark stays.
pub record Later (r r' : Token) : Type 0 where
  pub same : r' ≡ record r { consumed_at = r'.consumed_at; revoked_at = r'.revoked_at }
  pub consumed : (r.consumed_at ≡ none) ⊎ (r'.consumed_at ≡ r.consumed_at)
  pub revoked : (r.revoked_at ≡ none) ⊎ (r'.revoked_at ≡ r.revoked_at)

pub Later-refl : (r : Token) → Later r r
Later-refl r = record { same = refl; consumed = inr refl; revoked = inr refl }

abbrev pub Persists : List Token → List Token → Type 0
Persists old new =
    (id : Text) (r : Token)
    → find_token id old ≡ some r
    → (r' : Token) × (find_token id new ≡ some r') × Later r r'

abbrev pub changed : (Token → Bool) → (Token → Token) → Token → Token
changed matches change t = if matches t then change t else t

pub find_token-id :
    (id : Text) (tokens : List Token) (r : Token) → find_token id tokens ≡ some r → r.id ≡ id
unfolding find_token
find_token-id id [] r h = cc
find_token-id id (t ∷ tokens) r h = elim (Bool-cases (same_text t.id id)) [
  | inl e ↦ subst (λ x. x.id ≡ id) (some_inj.0 (taken e)) (same_text_iff t.id id e)
  | inr e ↦ find_token-id id tokens r (passed e)
]
  where
    taken : same_text t.id id ≡ true → some t ≡ some r
    taken e = rw e at h

    passed : same_text t.id id ≡ false → find_token id tokens ≡ some r
    passed e = rw e at h

pub Every-find_token :
    (P : Token → Type 0) (id : Text) (tokens : List Token) (r : Token)
    → Every P tokens
    → find_token id tokens ≡ some r
    → P r
unfolding find_token
Every-find_token P id [] r all h = cc
Every-find_token P id (t ∷ tokens) r all h = elim (Bool-cases (same_text t.id id)) [
  | inl e ↦ subst P (some_inj.0 (rw e at h)) all.0
  | inr e ↦ Every-find_token P id tokens r all.1 (rw e at h)
]

module _ (matches : Token → Bool) (change : Token → Token)
    (keeps : (t : Token) → (change t).id ≡ t.id) where
  pub changed-id : (t : Token) → (changed matches change t).id ≡ t.id
  changed-id t = elim (Bool-cases (matches t)) [ inl e ↦ rw e (keeps t) | inr e ↦ rw e ]

  pub find_token-update_none :
      (id : Text) (tokens : List Token)
      → find_token id tokens ≡ none
      → find_token id (update_tokens matches change tokens) ≡ none
  unfolding find_token update_tokens
  find_token-update_none id [] h = refl
  find_token-update_none id (t ∷ tokens) h =
      rw (changed-id t) (ground (arith, find_token-update_none id tokens))

  pub find_token-update :
      (id : Text) (tokens : List Token) (r : Token)
      → find_token id tokens ≡ some r
      → find_token id (update_tokens matches change tokens) ≡ some (changed matches change r)
  unfolding find_token update_tokens
  find_token-update id [] r h = cc
  find_token-update id (t ∷ tokens) r h = elim (Bool-cases (same_text t.id id)) [
    | inl e ↦
        rw (changed-id t, e) (ap (λ x. some (changed matches change x)) (some_inj.0 (rw e at h)))
    | inr e ↦ rw (changed-id t, e) (find_token-update id tokens r (rw e at h))
  ]

  pub update_tokens-UniqueIds :
      (tokens : List Token) → UniqueIds tokens → UniqueIds (update_tokens matches change tokens)
  unfolding update_tokens
  update_tokens-UniqueIds [] h = tt
  update_tokens-UniqueIds (t ∷ tokens) h = (
    rw (changed-id t) (find_token-update_none t.id tokens h.0),
    update_tokens-UniqueIds tokens h.1,
  )

  pub update_tokens-Persists :
      ((t : Token) → Later t (changed matches change t))
      → (tokens : List Token) → Persists tokens (update_tokens matches change tokens)
  update_tokens-Persists later tokens id r h =
      (changed matches change r, find_token-update id tokens r h, later r)

-- Nothing matches where no row has the id.
pub count-absent :
    (matches : Token → Bool) (id : Text)
    → ((t : Token) → matches t ≡ true → same_text t.id id ≡ true)
    → (tokens : List Token) → find_token id tokens ≡ none
    → count_tokens matches tokens ≡ 0
unfolding find_token count_tokens
count-absent matches id only [] h = refl
count-absent matches id only (t ∷ tokens) h =
    ground (arith, only t, count-absent matches id only tokens)

-- The row that an update of one id counts is the row with this id.
pub count_tokens-find_token :
    (matches : Token → Bool) (id : Text)
    → ((t : Token) → matches t ≡ true → same_text t.id id ≡ true)
    → (tokens : List Token) → UniqueIds tokens
    → count_tokens matches tokens ≡ 1
    → (r : Token) × (find_token id tokens ≡ some r) × (matches r ≡ true)
unfolding find_token count_tokens
count_tokens-find_token matches id only [] u h = absurd (omega arith)
count_tokens-find_token matches id only (t ∷ tokens) u h = elim (Bool-cases (same_text t.id id)) [
  | inl e ↦ (t, rw e, first e)
  | inr e ↦
      let (r, found, m) = count_tokens-find_token matches id only tokens u.1 (rest e) in
      (r, rw e found, m)
]
  where
    rest : same_text t.id id ≡ false → count_tokens matches tokens ≡ 1
    rest e = ground (arith, only t)

    first : same_text t.id id ≡ true → matches t ≡ true
    first e = ground (
      arith,
      count-absent matches id only tokens
          (subst (λ k. find_token k tokens ≡ none) (same_text_iff t.id id e) u.0),
    )

-- An update of one id that matches the row with this id counts one row.
pub count-found :
    (matches : Token → Bool) (id : Text)
    → ((t : Token) → matches t ≡ true → same_text t.id id ≡ true)
    → (tokens : List Token) (r : Token) → UniqueIds tokens
    → find_token id tokens ≡ some r
    → matches r ≡ true
    → count_tokens matches tokens ≡ 1
unfolding find_token count_tokens
count-found matches id only [] r u h m = cc
count-found matches id only (t ∷ tokens) r u h m = elim (Bool-cases (same_text t.id id)) [
  | inl e ↦
      let hit : matches t ≡ true = subst (λ x. matches x ≡ true) (sym (some_inj.0 (rw e at h))) m in
      let rest : count_tokens matches tokens ≡ 0 =
        count-absent matches id only tokens
          (subst (λ k. find_token k tokens ≡ none) (same_text_iff t.id id e) u.0) in
      rw hit (omega (arith, rest))
  | inr e ↦ ground (arith, only t, count-found matches id only tokens r u.1 (rw e at h) m)
]

pub find_token-append :
    (id : Text) (tokens : List Token) (t r : Token)
    → find_token id tokens ≡ some r
    → find_token id (tokens ++ t ∷ []) ≡ some r
unfolding find_token
find_token-append id [] t r h = cc
find_token-append id (x ∷ tokens) t r h = ground (arith, find_token-append id tokens t r)

pub find_token-append_new :
    (tokens : List Token) (t : Token)
    → find_token t.id tokens ≡ none
    → find_token t.id (tokens ++ t ∷ []) ≡ some t
unfolding find_token
find_token-append_new [] t h = rw (same_text_refl t.id)
find_token-append_new (x ∷ tokens) t h = ground (arith, find_token-append_new tokens t)

pub count_tokens-append :
    (matches : Token → Bool) (xs ys : List Token)
    → count_tokens matches (xs ++ ys) ≡ count_tokens matches xs + count_tokens matches ys
unfolding count_tokens
count_tokens-append matches [] ys = omega arith
count_tokens-append matches (x ∷ xs) ys = omega (arith, count_tokens-append matches xs ys)

pub find_token-append_none :
    (id : Text) (tokens : List Token) (t : Token)
    → find_token id tokens ≡ none
    → same_text t.id id ≡ false
    → find_token id (tokens ++ t ∷ []) ≡ none
unfolding find_token
find_token-append_none id [] t h d = rw d
find_token-append_none id (x ∷ tokens) t h d = ground (arith, find_token-append_none id tokens t)

pub append-UniqueIds :
    (tokens : List Token) (t : Token)
    → UniqueIds tokens
    → find_token t.id tokens ≡ none
    → UniqueIds (tokens ++ t ∷ [])
unfolding find_token
append-UniqueIds [] t u h = (refl, tt)
append-UniqueIds (x ∷ tokens) t u h = elim (Bool-cases (same_text x.id t.id)) [
  | inl e ↦ absurd (ground arith)
  | inr e ↦ (
    find_token-append_none x.id tokens t u.0 (same_text_comm t.id x.id ∙ e),
    append-UniqueIds tokens t u.1 (rw e at h),
  )
]

-- What an insertion that succeeds has checked and done.
pub insert_token-eq-ok :
    (on_check : TokenError) (t : Token) (store store' : TokenStore)
    → insert_token on_check t store ≡ ok store'
    → (passes_checks t ≡ true)
      × (find_token t.id store.tokens ≡ none)
      × (store' ≡ record store { tokens = store.tokens ++ t ∷ [] })
unfolding insert_token
insert_token-eq-ok on_check t store store' h = ground arith

pub append-Persists : (tokens : List Token) (t : Token) → Persists tokens (tokens ++ t ∷ [])
append-Persists tokens t id r h = (r, find_token-append id tokens t r h, Later-refl r)
