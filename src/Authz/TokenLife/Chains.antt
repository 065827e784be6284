-- ===== src/Authz/TokenLife/Chains.antt =====
-- Chains of delegation in a table that the operations reach.
use intercore.Common.{
  ◌≡◌, ◌+◌, Bool, Option, sym, ap, subst, ◌∙◌, true, false, ◌⊎◌, inl, inr, some, none, List, [],
  ◌∷◌, arith,
}
use intercore.Common.Int.{ℤ, pos, negsuc, ◌≤ℤ◌, ◌+ℤ◌, wrap64, wrap64_pos, +ℤ_pos}
use intercore.Common.Every.{Every, Every-append, Every-map}
use intercore.Authz.Signing.{Crypto, is_blank}
use intercore.Authz.Tokens.{Token}
use intercore.Authz.TokenTable.{TokenStore, find_token, passes_checks, update_tokens}
use intercore.Authz.TokenTable.Rows.{
  UniqueIds, Later, Later-refl, Persists, changed, Every-find_token,
}
use intercore.Authz.Issuing.{root_of_chain, below}
use intercore.Authz.TokenLife.{Step, Reach, here, next, no_tokens}
use intercore.Authz.TokenLife.Added.{ChildOf, IsRoot, Origin, Effect, adds, marks}
use intercore.Authz.TokenLife.Effects.{Step-Effect, Effect-Persists, Effect-UniqueIds}

-- A child of a row: the same scope, issued by the parent's agent, one step deeper, and not longer
-- valid.
pub record Delegated (p t : Token) : Type 0 where
  pub op_type : t.op_type ≡ p.op_type
  pub target : t.target ≡ p.target
  pub bead_id : t.bead_id ≡ p.bead_id
  pub issued_by : t.issued_by ≡ p.agent_id
  pub root_token : t.root_token ≡ root_of_chain p
  pub depth : t.depth ≡ p.depth +ℤ pos 1
  pub expires_at : t.expires_at ≤ℤ p.expires_at

abbrev pub IsDelegated : List Token → Token → Type 0
IsDelegated tokens t =
    (p : Token) × (find_token t.parent_token tokens ≡ some p)
    × (is_blank t.parent_token ≡ false)
    × Delegated p t

-- A row is a root, or its parent is in the table; the depth is within the cap.
abbrev pub IsLinked : List Token → Token → Type 0
IsLinked tokens t = (pos 0 ≤ℤ t.depth) × (t.depth ≤ℤ pos 3) × (IsRoot t ⊎ IsDelegated tokens t)

pub record IsTable (store : TokenStore) : Type 0 where
  pub unique : UniqueIds store.tokens
  pub linked : Every (IsLinked store.tokens) store.tokens

Delegated-parent : (p p' t : Token) → Later p p' → Delegated p t → Delegated p' t
Delegated-parent p p' t l d =
    subst (λ x. Delegated x t) (sym l.same)
      (record {
        op_type = d.op_type;
        target = d.target;
        bead_id = d.bead_id;
        issued_by = d.issued_by;
        root_token = d.root_token;
        depth = d.depth;
        expires_at = d.expires_at;
      })

Delegated-child : (p t t' : Token) → Later t t' → Delegated p t → Delegated p t'
Delegated-child p t t' l d = subst (Delegated p) (sym l.same) (record {
  op_type = d.op_type;
  target = d.target;
  bead_id = d.bead_id;
  issued_by = d.issued_by;
  root_token = d.root_token;
  depth = d.depth;
  expires_at = d.expires_at;
})

IsRoot-Later : (t t' : Token) → Later t t' → IsRoot t → IsRoot t'
IsRoot-Later t t' l r =
    subst IsRoot (sym l.same)
      (record { parent_token = r.parent_token; root_token = r.root_token; depth = r.depth })

IsLinked-Later :
    (old new : List Token) (t t' : Token)
    → Persists old new
    → Later t t'
    → IsLinked old t
    → IsLinked new t'
IsLinked-Later old new t t' kept l (low, high, inl root) = (
  subst (λ x. pos 0 ≤ℤ x.depth) (sym l.same) low,
  subst (λ x. x.depth ≤ℤ pos 3) (sym l.same) high,
  inl (IsRoot-Later t t' l root),
)
IsLinked-Later old new t t' kept l (low, high, inr (p, found, named, d)) =
    let (p', found', later) = kept t.parent_token p found in
    (
      subst (λ x. pos 0 ≤ℤ x.depth) (sym l.same) low,
      subst (λ x. x.depth ≤ℤ pos 3) (sym l.same) high,
      inr (
        p',
        subst (λ x. find_token x.parent_token new ≡ some p') (sym l.same) found',
        subst (λ x. is_blank x.parent_token ≡ false) (sym l.same) named,
        Delegated-child p' t t' l (Delegated-parent p p' t later d),
      ),
    )

-- One step down from a depth within the cap is Go's sum.
below-eq : (d : ℤ) → pos 0 ≤ℤ d → d ≤ℤ pos 3 → below d ≡ d +ℤ pos 1
below-eq (pos n) low high =
    ap wrap64 (+ℤ_pos n 1) ∙ wrap64_pos (n + 1) (omega arith) ∙ sym (+ℤ_pos n 1)
below-eq (negsuc n) low high = absurd (omega arith)

ChildOf-Delegated :
    (p t : Token) → pos 0 ≤ℤ p.depth → p.depth ≤ℤ pos 3 → ChildOf p t → Delegated p t
ChildOf-Delegated p t low high c = record {
  op_type = c.op_type;
  target = c.target;
  bead_id = c.bead_id;
  issued_by = c.issued_by;
  root_token = c.root_token;
  depth = c.depth ∙ below-eq p.depth low high;
  expires_at = c.expires_at;
}

-- The new row is linked to the table that it was made from.
Origin-IsLinked :
    (seen : TokenStore) (t : Token)
    → IsTable seen
    → passes_checks t ≡ true
    → Origin seen.tokens t
    → IsLinked seen.tokens t
Origin-IsLinked seen t table checks (inl root) = (ground arith, ground arith, inl root)
Origin-IsLinked seen t table checks (inr (p, found, named, c)) =
    let (low, high, _) =
      Every-find_token (IsLinked seen.tokens) t.parent_token seen.tokens p table.linked found in
    (ground arith, ground arith, inr (p, found, named, ChildOf-Delegated p t low high c))

Every-Later :
    (old new : List Token) (matches : Token → Bool) (change : Token → Token)
    → Persists old new
    → ((t : Token) → Later t (changed matches change t))
    → (tokens : List Token) → Every (IsLinked old) tokens
    → Every (IsLinked new) (update_tokens matches change tokens)
unfolding update_tokens
Every-Later old new matches change kept later [] h = tt
Every-Later old new matches change kept later (t ∷ tokens) h = (
  IsLinked-Later old new t (changed matches change t) kept (later t) h.0,
  Every-Later old new matches change kept later tokens h.1,
)

Effect-Linked :
    (seen store after : TokenStore)
    → IsTable seen
    → IsTable store
    → Persists seen.tokens store.tokens
    → Effect seen store after
    → Persists store.tokens after.tokens
    → Every (IsLinked after.tokens) after.tokens
Effect-Linked seen store after ts tb earlier (adds t checks fresh o made) kept =
    subst (Every (IsLinked after.tokens)) (sym made) (
      Every-append (IsLinked after.tokens) store.tokens (t ∷ [])
        (Every-map _ _ store.tokens
          (λ r. IsLinked-Later store.tokens after.tokens r r kept (Later-refl r)) tb.linked)
        (
          IsLinked-Later store.tokens after.tokens t t kept (Later-refl t) (
              IsLinked-Later seen.tokens store.tokens t t earlier (Later-refl t)
                (Origin-IsLinked seen t ts checks o)),
          tt,
        ))
Effect-Linked seen store after ts tb earlier (marks matches change keeps later made) kept =
    subst (Every (IsLinked after.tokens)) (sym made)
      (Every-Later store.tokens after.tokens matches change kept later store.tokens tb.linked)

stays : (a b c : Option ℤ) → (a ≡ none) ⊎ (b ≡ a) → (b ≡ none) ⊎ (c ≡ b) → (a ≡ none) ⊎ (c ≡ a)
stays a b c (inl e) _ = inl e
stays a b c (inr e) (inl f) = inl (sym e ∙ f)
stays a b c (inr e) (inr f) = inr (f ∙ e)

Later-trans : (a b c : Token) → Later a b → Later b c → Later a c
Later-trans a b c l m = record {
  same =
      m.same
      ∙ ap {A = Token} (λ x. record x { consumed_at = c.consumed_at; revoked_at = c.revoked_at })
          l.same;
  consumed = stays a.consumed_at b.consumed_at c.consumed_at l.consumed m.consumed;
  revoked = stays a.revoked_at b.revoked_at c.revoked_at l.revoked m.revoked;
}

pub Reach-Persists :
    {crypto : Crypto} {start store : TokenStore}
    → Reach crypto start store
    → Persists start.tokens store.tokens
Reach-Persists here id r h = (r, h, Later-refl r)
Reach-Persists (next {seen = seen} {store = store} {after = after} before between step) id r h =
    let (a, fa, la) = Reach-Persists before id r h in
    let (b, fb, lb) = Reach-Persists between id a fa in
    let (c, fc, lc) =
      Effect-Persists seen store after (Step-Effect _ seen store after step) id b fb in
    (c, fc, Later-trans r b c (Later-trans r a b la lb) lc)

pub Step-IsTable :
    {crypto : Crypto} {seen store after : TokenStore}
    → IsTable seen
    → IsTable store
    → Reach crypto seen store
    → Step crypto seen store after
    → IsTable after
Step-IsTable {crypto} {seen} {store} {after} early late between step =
    let effect = Step-Effect crypto seen store after step in
    record {
      unique = Effect-UniqueIds seen store after effect late.unique;
      linked =
          Effect-Linked seen store after early late (Reach-Persists between) effect
            (Effect-Persists seen store after effect);
    }

pub Reach-from :
    {crypto : Crypto} {start store : TokenStore}
    → IsTable start
    → Reach crypto start store
    → IsTable store
Reach-from table here = table
Reach-from table (next before between step) =
    let early = Reach-from table before in
    Step-IsTable early (Reach-from early between) between step

-- Whatever issues, delegations, consumes and revocations interleave from an empty table: ids are
-- unique, every depth is between 0 and 3, and every row is a root of depth 0 or has its parent in
-- the table, with the parent's operation, target and bead, issued by the parent's agent, one step
-- deeper, under the parent's root and not valid for longer than the parent.
pub Reach-IsTable :
    (crypto : Crypto) (store : TokenStore) → Reach crypto no_tokens store → IsTable store
Reach-IsTable crypto store reached = Reach-from (record { unique = tt; linked = tt }) reached
