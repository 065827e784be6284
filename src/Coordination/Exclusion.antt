-- ===== src/Coordination/Exclusion.antt =====
-- Mutual exclusion: what it says of a lock table, and that changes of the rows keep it.
use intercore.Common.{
  ◌≡◌, refl, sym, ap, ◌∙◌, Bool, true, false, not, ◌&&◌, ◌||◌, Option, none, some, List, [], ◌∷◌,
  ◌++◌, String, str_eq, str_eq_iff, str_eq_refl, arith, if◌then◌else◌, is_some, Bool-cases, if-true,
  if-false, inl, inr,
}
use mathlib.Core.Bool.{false≢true}
use intercore.Common.Int.{ℤ, ◌≤ℤ◌}
use intercore.Common.Every.{Every, Every-map, Every-append}
use intercore.Common.Outcome.{ok, >>=-eq-ok}
use intercore.Coordination.Search.{patterns_overlap}
use intercore.Coordination.Locks.{
  Lock, unexpired, holds, set_released, is_rival, blocker, find_conflict,
}
use intercore.Coordination.Updates.{update_locks, is_held_by, set_owner}

-- Two active locks in one scope, of different owners and not both shared, have no common path;
-- the second is the later of the two.
abbrev pub Compatible : ℤ → Lock → Lock → Type 0
Compatible now l m =
    holds now l ≡ true
    → holds now m ≡ true
    → str_eq l.scope m.scope ≡ true
    → str_eq l.owner m.owner ≡ false
    → (l.exclusive || m.exclusive) ≡ true
    → patterns_overlap m.pattern l.pattern ≡ ok false

abbrev pub Exclusive : ℤ → List Lock → Type 0
Exclusive now [] = Unit
Exclusive now (l ∷ rows) = Every (λ m. Compatible now l m) rows × Exclusive now rows

-- A change of the rows that keeps every two of them compatible.
module _ (now : ℤ) (guard : Lock → Bool) (change : Lock → Lock) where
  abbrev changed : Lock → Lock
  changed l = if guard l then change l else l

  pub update_locks-Exclusive :
      ((l m : Lock) → Compatible now l m → Compatible now (changed l) (changed m))
      → (rows : List Lock) → Exclusive now rows
      → Exclusive now (update_locks guard change rows)
  unfolding update_locks
  update_locks-Exclusive keeps [] h = tt
  update_locks-Exclusive keeps (l ∷ rows) h = (each rows h.0, update_locks-Exclusive keeps rows h.1)
    where
      each :
          (rows : List Lock)
          → Every (λ m. Compatible now l m) rows
          → Every (λ m. Compatible now (changed l) m) (update_locks guard change rows)
      each [] h = tt
      each (m ∷ rows) h = (keeps l m h.0, each rows h.1)

-- A released row is compatible with every other.
released-pair :
    (now at : ℤ) (b c : Bool) (l m : Lock)
    → Compatible now l m
    → Compatible now (if b then set_released at l else l) (if c then set_released at m else m)
released-pair now at true c l m h = λ a. absurd (false≢true a)
released-pair now at false true l m h = λ a b. absurd (false≢true b)
released-pair now at false false l m h = h

pub release-Exclusive :
    (now at : ℤ) (guard : Lock → Bool) (rows : List Lock)
    → Exclusive now rows
    → Exclusive now (update_locks guard (set_released at) rows)
release-Exclusive now at guard =
    update_locks-Exclusive now guard (set_released at)
      (λ l m. released-pair now at (guard l) (guard m) l m)

-- Rows that are active, of one owner and in one scope are handed over together.
together :
    (a b src s t scope : String) (ha hb : Bool)
    → ((str_eq a src && str_eq s scope) && ha) ≡ true
    → ((str_eq b src && str_eq t scope) && hb) ≡ false
    → hb ≡ true
    → str_eq s t ≡ true
    → str_eq a b ≡ false
together a b src s t scope ha hb e f h same = ground (
  arith,
  str_eq_iff a src,
  str_eq_iff b src,
  str_eq_iff a b,
  str_eq_iff s scope,
  str_eq_iff t scope,
  str_eq_iff s t,
)

pub str_eq-sym : (a b : String) → str_eq a b ≡ str_eq b a
str_eq-sym a b = ground (arith, str_eq_iff a b, str_eq_iff b a)

-- So locks that have different owners after a transfer had different owners before it.
set_owner-pair :
    (now : ℤ) (src dst scope : String) (b c : Bool) (l m : Lock)
    → is_held_by now src scope l ≡ b
    → is_held_by now src scope m ≡ c
    → Compatible now l m
    → Compatible now (if b then set_owner dst l else l) (if c then set_owner dst m else m)
set_owner-pair now src dst scope true true l m e f h =
    λ a b s o. absurd (false≢true (sym o ∙ str_eq_refl dst))
set_owner-pair now src dst scope true false l m e f h = λ a b s o.
    h a b s (together l.owner m.owner src l.scope m.scope scope (holds now l) (holds now m) e f b s)
set_owner-pair now src dst scope false true l m e f h = λ a b s o. h a b s (
    str_eq-sym l.owner m.owner
    ∙ together m.owner l.owner src m.scope l.scope scope (holds now m) (holds now l) f e a
        (str_eq-sym m.scope l.scope ∙ s))
set_owner-pair now src dst scope false false l m e f h = h

pub transfer-Exclusive :
    (now : ℤ) (src dst scope : String) (rows : List Lock)
    → Exclusive now rows
    → Exclusive now (update_locks (is_held_by now src scope) (set_owner dst) rows)
transfer-Exclusive now src dst scope =
    update_locks-Exclusive now (is_held_by now src scope) (set_owner dst)
      (λ l m. set_owner-pair now src dst scope _ _ l m refl refl)

-- What is active later is active now.
holds-later : (now later : ℤ) (l : Lock) → now ≤ℤ later → holds later l ≡ true → holds now l ≡ true
holds-later now later l le h = go l.released_at l.expires_at h
  where
    go :
        (r e : Option ℤ)
        → (not (is_some r) && unexpired later e) ≡ true
        → (not (is_some r) && unexpired now e) ≡ true
    go (some t) e h = h
    go none none h = h
    go none (some t) h = ground arith

pub later-Exclusive :
    (now later : ℤ) (rows : List Lock) → now ≤ℤ later → Exclusive now rows → Exclusive later rows
later-Exclusive now later [] le h = tt
later-Exclusive now later (l ∷ rows) le h = (
  Every-map _ _ rows (λ m c a b. c (holds-later now later l le a) (holds-later now later m le b))
      h.0,
  later-Exclusive now later rows le h.1,
)

-- A row that is compatible with all the others can be appended.
pub append-Exclusive :
    (now : ℤ) (rows : List Lock) (new : Lock)
    → Exclusive now rows
    → Every (λ l. Compatible now l new) rows
    → Exclusive now (rows ++ new ∷ [])
append-Exclusive now [] new h c = (tt, tt)
append-Exclusive now (l ∷ rows) new h c =
    (Every-append _ rows (new ∷ []) h.0 (c.0, tt), append-Exclusive now rows new h.1 c.1)

rival : (s h o : Bool) → s ≡ true → h ≡ true → o ≡ false → not (s && h && not o) ≡ true → ⊥
rival s h o hs hh ho n = ground arith

shared : (x y : Bool) → (x || y) ≡ true → (not y && not x) ≡ true → ⊥
shared x y h n = ground arith

-- When the search of the rows finds no conflict, the new lock is compatible with each.
pub find_conflict-Compatible :
    (now : ℤ) (new : Lock) (rows : List Lock)
    → find_conflict now new rows ≡ ok none
    → Every (λ l. Compatible now l new) rows
unfolding find_conflict
find_conflict-Compatible now new [] h = tt
find_conflict-Compatible now new (l ∷ rows) h = elim (Bool-cases (not (is_rival now new l))) [
  | inl e ↦ (
    λ a b s o x. absurd (rival _ _ _ s a o e),
    find_conflict-Compatible now new rows (if-true _ _ e h),
  )
  | inr e ↦ elim (Bool-cases (not new.exclusive && not l.exclusive)) [
    | inl f ↦ (
      λ a b s o x. absurd (shared _ _ x f),
      find_conflict-Compatible now new rows (if-true _ _ f (if-false _ _ e h)),
    )
    | inr f ↦
        let (overlap, found, last) =
          >>=-eq-ok (patterns_overlap new.pattern l.pattern) _
            (if-false _ _ f (if-false _ _ e h)) in
        let (apart, rest) = not-found overlap last in
        (λ a b s o x. found ∙ ap ok apart, find_conflict-Compatible now new rows rest)
  ]
]
  where
    not-found :
        (overlap : Bool)
        → (if overlap then ok (some (blocker l)) else find_conflict now new rows) ≡ ok none
        → (overlap ≡ false) × (find_conflict now new rows ≡ ok none)
    not-found true e = cc
    not-found false e = (refl, e)
