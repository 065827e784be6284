-- ===== src/Publish/Prune/Newest.antt =====
-- The order that sortVersionsDesc of internal/publish/cache.go gives, and what the prune keeps by it.
use intercore.Common.{
  ℕ, zero, suc, ◌≡◌, ◌≢◌, refl, sym, ap, subst, ◌∙◌, List, [], ◌∷◌, take, drop, ◌⊎◌, inl, inr,
  Bool-cases, ◌&&◌,
}
use mathlib.Core.List.{reverse_aux}
use intercore.Common.Int.{ℤ}
use intercore.Common.Text.{Text}
use intercore.Authz.Signing.{is_blank}
use intercore.Common.Every.{Every, Every-map}
use intercore.Common.Outcome.{ok}
use intercore.Publish.Version.{
  Version, parse_version, compare_versions, compare_parsed, Sign, less, same, more,
}
use intercore.Publish.Version.Order.{
  opposite, compare_parsed-IsOrder, compare_versions-eq-parsed, compare_versions-opposite,
}
use intercore.Publish.Prune.{
  CacheEntry, move_left, sort_rounds, sort_versions_desc, candidates, prune_plugin, to_keep,
}
use intercore.Publish.Prune.Kept.{Every-move_left, Every-drop}

abbrev pub NotNewer : (v w : CacheEntry) → Type 0
NotNewer v w = compare_versions v.version w.version ≢ more

abbrev pub Parses : CacheEntry → Type 0
Parses e = (v : Version) × (parse_version e.version ≡ ok v)

Sign-cases : (s : Sign) → (s ≡ less) ⊎ ((s ≡ same) ⊎ (s ≡ more))
Sign-cases less = inl refl
Sign-cases same = inr (inl refl)
Sign-cases more = inr (inr refl)

less≢more : less ≢ more
less≢more h = cc

same≢more : same ≢ more
same≢more h = cc

parsed_transitive :
    (a b c : Version)
    → compare_parsed a b ≢ more
    → compare_parsed b c ≢ more
    → compare_parsed a c ≢ more
parsed_transitive a b c h k e = elim (Sign-cases (compare_parsed a b)) [
  | inl l ↦
      let back : compare_parsed c a ≡ less = compare_parsed-IsOrder.flip a c ∙ ap opposite e in
      let below = compare_parsed-IsOrder.chain c a b back l in
      k (compare_parsed-IsOrder.flip c b ∙ ap opposite below)
  | inr (inl s) ↦ k (subst (λ v. compare_parsed v c ≡ more) (compare_parsed-IsOrder.apart a b s) e)
  | inr (inr m) ↦ h m
]

NotNewer-transitive :
    (u v w : CacheEntry)
    → Parses u
    → Parses v
    → Parses w
    → NotNewer u v
    → NotNewer v w
    → NotNewer u w
NotNewer-transitive u v w (a, ha) (b, hb) (c, hc) h k e =
    parsed_transitive a b c (λ m. h (compare_versions-eq-parsed u.version v.version ha hb ∙ m))
      (λ m. k (compare_versions-eq-parsed v.version w.version hb hc ∙ m))
      (sym (compare_versions-eq-parsed u.version w.version ha hc) ∙ e)

NotNewer-flip : (e x : CacheEntry) → compare_versions e.version x.version ≡ more → NotNewer x e
NotNewer-flip e x h m =
    less≢more (sym (compare_versions-opposite e.version x.version ∙ ap opposite h) ∙ m)

-- No entry is newer than an entry before it.
abbrev pub Ranked : List CacheEntry → Type 0
Ranked [] = Unit
Ranked (x ∷ xs) = Every (λ y. NotNewer y x) xs × Ranked xs

-- The same with the last entry first.
abbrev Rising : List CacheEntry → Type 0
Rising [] = Unit
Rising (x ∷ xs) = Every (λ y. NotNewer x y) xs × Rising xs

NotNewer-all :
    (e x : CacheEntry) (before : List CacheEntry)
    → Parses e
    → Parses x
    → Every Parses before
    → NotNewer e x
    → Every (NotNewer x) before
    → Every (NotNewer e) before
NotNewer-all e x [] pe px ps h k = tt
NotNewer-all e x (y ∷ before) pe px ps h k =
    (NotNewer-transitive e x y pe px ps.0 h k.0, NotNewer-all e x before pe px ps.1 h k.1)

Rising-stop :
    (e x : CacheEntry) (before : List CacheEntry)
    → Parses e
    → Every Parses (x ∷ before)
    → NotNewer e x
    → Rising (x ∷ before)
    → Rising (e ∷ x ∷ before)
Rising-stop e x before pe ps h k = ((h, NotNewer-all e x before pe ps.0 ps.1 h k.0), k)

placed :
    (e x : CacheEntry) (before rest : List CacheEntry) (sign : Sign)
    → compare_versions e.version x.version ≡ sign
    → Parses e
    → Every Parses (x ∷ before)
    → Rising (x ∷ before)
    → (NotNewer x e → Every (NotNewer x) rest)
    → Rising rest
    → Rising (elim sign [ more ↦ x ∷ rest | _ ↦ e ∷ x ∷ before ])
placed e x before rest less h pe ps k f r =
    Rising-stop e x before pe ps (λ m. less≢more (sym h ∙ m)) k
placed e x before rest same h pe ps k f r =
    Rising-stop e x before pe ps (λ m. same≢more (sym h ∙ m)) k
placed e x before rest more h pe ps k f r = (f (NotNewer-flip e x h), r)

Rising-move_left :
    (e : CacheEntry) (before : List CacheEntry)
    → Parses e
    → Every Parses before
    → Rising before
    → Rising (move_left e before)
unfolding move_left
Rising-move_left e [] pe ps h = (tt, tt)
Rising-move_left e (x ∷ before) pe ps h =
    placed e x before (move_left e before) (compare_versions e.version x.version) refl pe ps h
      (λ n. Every-move_left (NotNewer x) e before n h.0) (Rising-move_left e before pe ps.1 h.1)

Rising-sort_rounds :
    (vs before : List CacheEntry)
    → Every Parses vs
    → Every Parses before
    → Rising before
    → Rising (sort_rounds vs before)
unfolding sort_rounds
Rising-sort_rounds [] before ps qs h = h
Rising-sort_rounds (v ∷ vs) before ps qs h =
    Rising-sort_rounds vs (move_left v before) ps.1 (Every-move_left Parses v before ps.0 qs)
      (Rising-move_left v before ps.0 qs h)

-- Every entry of the first list is not newer than those of the second.
abbrev Above : List CacheEntry → List CacheEntry → Type 0
Above acc vs = Every (λ a. Every (NotNewer a) vs) acc

Above-tail :
    (acc : List CacheEntry) (v : CacheEntry) (vs : List CacheEntry)
    → Above acc (v ∷ vs)
    → Above acc vs
Above-tail [] v vs h = tt
Above-tail (a ∷ acc) v vs h = (h.0.1, Above-tail acc v vs h.1)

Above-head :
    (acc : List CacheEntry) (v : CacheEntry) (vs : List CacheEntry)
    → Above acc (v ∷ vs)
    → Every (λ y. NotNewer y v) acc
Above-head [] v vs h = tt
Above-head (a ∷ acc) v vs h = (h.0.0, Above-head acc v vs h.1)

Ranked-reverse_aux :
    (vs acc : List CacheEntry) → Rising vs → Ranked acc → Above acc vs → Ranked (reverse_aux vs acc)
Ranked-reverse_aux [] acc h k l = k
Ranked-reverse_aux (v ∷ vs) acc h k l =
    Ranked-reverse_aux vs (v ∷ acc) h.1 (Above-head acc v vs l, k) (h.0, Above-tail acc v vs l)

Ranked-sort_versions_desc :
    (vs : List CacheEntry) → Every Parses vs → Ranked (sort_versions_desc vs)
unfolding sort_versions_desc
Ranked-sort_versions_desc vs ps =
    Ranked-reverse_aux (sort_rounds vs []) [] (Rising-sort_rounds vs [] ps tt tt) tt tt

Ranked-split :
    (n : ℕ) (vs : List CacheEntry)
    → Ranked vs
    → Every (λ x. Every (λ y. NotNewer y x) (drop n vs)) (take n vs)
Ranked-split zero vs h = tt
Ranked-split (suc n) [] h = tt
Ranked-split (suc n) (x ∷ vs) h = (Every-drop (λ y. NotNewer y x) n vs h.0, Ranked-split n vs h.1)

given_up :
    (Q : CacheEntry → Type 0) (keep : ℤ) (i p : Text) (vs : List CacheEntry)
    → Every Q (drop (to_keep keep) (sort_versions_desc (candidates i p vs)))
    → Every Q (prune_plugin keep i p vs)
unfolding prune_plugin
given_up Q keep i p vs h = elim (Bool-cases (is_blank i && is_blank p)) [
  | inl e ↦ rw e tt
  | inr e ↦ rw e h
]

-- When all the versions of a plugin that a prune may give up parse, none of those that it gives up
-- is newer than one of the newest keep-1 that it spares.
pub prune_plugin-NotNewer :
    (keep : ℤ) (i p : Text) (vs : List CacheEntry)
    → Every Parses (candidates i p vs)
    → Every
        (λ spared. Every (λ dropped. NotNewer dropped spared) (prune_plugin keep i p vs))
        (take (to_keep keep) (sort_versions_desc (candidates i p vs)))
prune_plugin-NotNewer keep i p vs ps =
    let sorted = sort_versions_desc (candidates i p vs) in
    Every-map (λ x. Every (λ y. NotNewer y x) (drop (to_keep keep) sorted)) _
      (take (to_keep keep) sorted) (λ x h. given_up (λ y. NotNewer y x) keep i p vs h)
      (Ranked-split (to_keep keep) sorted (Ranked-sort_versions_desc (candidates i p vs) ps))
