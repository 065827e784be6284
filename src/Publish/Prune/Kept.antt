-- ===== src/Publish/Prune/Kept.antt =====
-- What pruneCandidates of internal/publish/cache.go picks.
use intercore.Common.{
  ℕ, zero, suc, ◌≡◌, inl, inr, sym, subst, false, ◌&&◌, List, [], ◌∷◌, drop, if◌then◌else◌,
  Bool-cases,
}
use mathlib.Core.List.{reverse_aux}
use intercore.Common.Int.{ℤ}
use intercore.Common.Text.{Text}
use intercore.Common.Every.{Every, Every-append, Every-map}
use intercore.Authz.Signing.{is_blank}
use intercore.Publish.Version.{Sign, less, same, more, compare_versions}
use intercore.Publish.Prune.{
  CacheEntry, move_left, sort_rounds, sort_versions_desc, is_kept, candidates, prune_plugin,
  to_keep, prune_candidates,
}

pub data In (v : CacheEntry) : List CacheEntry → Type 0 where
  here : {vs : List CacheEntry} → In v (v ∷ vs)
  there : {w : CacheEntry} {vs : List CacheEntry} → In v vs → In v (w ∷ vs)

-- The version stands under the key in the cache's tree.
pub data Cached : List (Text × List CacheEntry) → Text → CacheEntry → Type 0 where
  first :
      {key : Text} {v : CacheEntry} {vs : List CacheEntry} {entries : List (Text × List CacheEntry)}
      → In v vs
      → Cached ((key, vs) ∷ entries) key v
  later :
      {key : Text} {v : CacheEntry} {e : Text × List CacheEntry}
      {entries : List (Text × List CacheEntry)}
      → Cached entries key v
      → Cached (e ∷ entries) key v

module _ (P : CacheEntry → Type 0) where
  pub Every-drop : (n : ℕ) (vs : List CacheEntry) → Every P vs → Every P (drop n vs)
  Every-drop zero vs h = h
  Every-drop (suc n) [] h = tt
  Every-drop (suc n) (v ∷ vs) h = Every-drop n vs h.1

  Every-reverse_aux :
      (vs acc : List CacheEntry) → Every P vs → Every P acc → Every P (reverse_aux vs acc)
  Every-reverse_aux [] acc h k = k
  Every-reverse_aux (v ∷ vs) acc h k = Every-reverse_aux vs (v ∷ acc) h.1 (h.0, k)

  placed :
      (e x : CacheEntry) (before rest : List CacheEntry) (sign : Sign)
      → Every P rest
      → P e
      → Every P (x ∷ before)
      → Every P (elim sign [ more ↦ x ∷ rest | _ ↦ e ∷ x ∷ before ])
  placed e x before rest less r h k = (h, k)
  placed e x before rest same r h k = (h, k)
  placed e x before rest more r h k = (k.0, r)

  pub Every-move_left :
      (e : CacheEntry) (before : List CacheEntry)
      → P e
      → Every P before
      → Every P (move_left e before)
  unfolding move_left
  Every-move_left e [] h k = (h, tt)
  Every-move_left e (x ∷ before) h k =
      placed e x before (move_left e before) (compare_versions e.version x.version)
        (Every-move_left e before h k.1) h k

  Every-sort_rounds :
      (vs before : List CacheEntry) → Every P vs → Every P before → Every P (sort_rounds vs before)
  unfolding sort_rounds
  Every-sort_rounds [] before h k = k
  Every-sort_rounds (v ∷ vs) before h k =
      Every-sort_rounds vs (move_left v before) h.1 (Every-move_left v before h.0 k)

  Every-sort_versions_desc : (vs : List CacheEntry) → Every P vs → Every P (sort_versions_desc vs)
  unfolding sort_versions_desc
  Every-sort_versions_desc vs h =
      Every-reverse_aux (sort_rounds vs []) [] (Every-sort_rounds vs [] h tt) tt

candidates-Every :
    (i p : Text) (vs : List CacheEntry)
    → Every (λ v. In v vs × (is_kept i p v ≡ false)) (candidates i p vs)
unfolding candidates
candidates-Every i p [] = tt
candidates-Every i p (v ∷ vs) =
    let rest =
      Every-map (λ w. In w vs × (is_kept i p w ≡ false))
        (λ w. In w (v ∷ vs) × (is_kept i p w ≡ false)) (candidates i p vs) (λ w h. (there h.0, h.1))
        (candidates-Every i p vs) in
    elim (Bool-cases (is_kept i p v)) [ inl e ↦ rw e rest | inr e ↦ rw e ((here, e), rest) ]

-- A version that the candidates' code has picked.
pub record Chosen (entries : List (Text × List CacheEntry)) (installed protect : Text → Text)
    (v : CacheEntry) : Type 0 where
  pub key : Text
  pub cached : Cached entries key v
  pub unkept : is_kept (installed key) (protect key) v ≡ false
  pub recorded : (is_blank (installed key) && is_blank (protect key)) ≡ false

abbrev Given : (i p : Text) → List CacheEntry → CacheEntry → Type 0
Given i p vs v = In v vs × (is_kept i p v ≡ false) × ((is_blank i && is_blank p) ≡ false)

prune_plugin-Every :
    (keep : ℤ) (i p : Text) (vs : List CacheEntry) → Every (Given i p vs) (prune_plugin keep i p vs)
unfolding prune_plugin
prune_plugin-Every keep i p vs = elim (Bool-cases (is_blank i && is_blank p)) [
  | inl e ↦
      subst
        (λ b.
          Every (Given i p vs)
            (if b then [] else drop (to_keep keep) (sort_versions_desc (candidates i p vs))))
        (sym e) tt
  | inr e ↦
      subst
        (λ b.
          Every (Given i p vs)
            (if b then [] else drop (to_keep keep) (sort_versions_desc (candidates i p vs))))
        (sym e)
        (Every-drop (Given i p vs) (to_keep keep) (sort_versions_desc (candidates i p vs)) (
          Every-sort_versions_desc (Given i p vs) (candidates i p vs) (
            Every-map _ (Given i p vs) (candidates i p vs) (λ v h. (h.0, h.1, e))
              (candidates-Every i p vs))))
]

module _ (installed protect : Text → Text) (keep : ℤ) where
  pub prune_candidates-Chosen :
      (entries : List (Text × List CacheEntry))
      → Every (Chosen entries installed protect) (prune_candidates entries installed keep protect)
  unfolding prune_candidates
  prune_candidates-Chosen [] = tt
  prune_candidates-Chosen ((key, vs) ∷ entries) =
      Every-append (Chosen ((key, vs) ∷ entries) installed protect)
        (prune_plugin keep (installed key) (protect key) vs)
        (prune_candidates entries installed keep protect)
        (Every-map _ (Chosen ((key, vs) ∷ entries) installed protect)
          (prune_plugin keep (installed key) (protect key) vs)
          (λ v h. record { key = key; cached = first h.0; unkept = h.1; recorded = h.2 })
          (prune_plugin-Every keep (installed key) (protect key) vs))
        (Every-map (Chosen entries installed protect)
          (Chosen ((key, vs) ∷ entries) installed protect)
          (prune_candidates entries installed keep protect)
          (λ v h. record {
            key = h.key;
            cached = later h.cached;
            unkept = h.unkept;
            recorded = h.recorded;
          })
          (prune_candidates-Chosen entries))
