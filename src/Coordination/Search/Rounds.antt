-- ===== src/Coordination/Search/Rounds.antt =====
-- The loops of the overlap search end: each visit uses up a pair of positions.
use intercore.Common.{
  ℕ, zero, suc, ◌+◌, ◌*◌, ◌≤◌, ◌<◌, ◌≡◌, refl, sym, ap, subst, ◌∙◌, true, false, List, [], ◌∷◌,
  ◌++◌, arith, length, length-append, get_elem?, ◌==◌, ==_iff, if◌then◌else◌, Bool-cases, inl, inr,
}
use Prim.Native.Nat.mul
use intercore.Common.Every.{Every, Every-append}
use intercore.Common.Outcome.{Result, ok}
use intercore.Coordination.Glob.{Token, GlobError}
use intercore.Coordination.Search.{State, visited, is_star, push_stars, add_closure}

-- The pairs below given bounds that were not visited.
unfoldable pub count_row : List State → ℕ → ℕ → ℕ
count_row seen i zero = 0
count_row seen i (suc j) =
    let rest = count_row seen i j in if visited (i, j) seen then rest else suc rest

unfoldable pub count_unseen : List State → ℕ → ℕ → ℕ
count_unseen seen zero n = 0
count_unseen seen (suc i) n = count_row seen i n + count_unseen seen i n

pub visited-cons :
    (s c : State) (seen : List State) → visited s seen ≡ true → visited s (c ∷ seen) ≡ true
unfolding visited
visited-cons s c seen h = ground arith

pub visited-here : (c : State) (seen : List State) → visited c (c ∷ seen) ≡ true
unfolding visited
visited-here c seen = ground arith

count_row-cons :
    (c : State) (seen : List State) (i n : ℕ) → count_row (c ∷ seen) i n ≤ count_row seen i n
unfolding count_row
count_row-cons c seen i zero = omega arith
count_row-cons c seen i (suc j) =
    ground (arith, count_row-cons c seen i j, visited-cons (i, j) c seen)

count_row-visit :
    (i j : ℕ) (seen : List State) (n : ℕ)
    → visited (i, j) seen ≡ false
    → j < n
    → suc (count_row ((i, j) ∷ seen) i n) ≤ count_row seen i n
unfolding count_row
count_row-visit i j seen zero v h = elim h [ ]
count_row-visit i j seen (suc k) v h = elim (Bool-cases (j == k)) [
  | inl e ↦
      let same = (==_iff j k).0 e in
      let here : visited (i, k) ((i, j) ∷ seen) ≡ true =
        ap (λ x. visited (i, x) ((i, j) ∷ seen)) (sym same) ∙ visited-here (i, j) seen in
      let fresh : visited (i, k) seen ≡ false = ap (λ x. visited (i, x) seen) (sym same) ∙ v in
      rw (here, fresh) (omega (arith, count_row-cons (i, j) seen i k))
  | inr e ↦ ground (arith, count_row-visit i j seen k, visited-cons (i, k) (i, j) seen)
]

count_row-bound : (seen : List State) (i n : ℕ) → count_row seen i n ≤ n
unfolding count_row
count_row-bound seen i zero = omega arith
count_row-bound seen i (suc j) = ground (arith, count_row-bound seen i j)

count_unseen-cons :
    (c : State) (seen : List State) (m n : ℕ) → count_unseen (c ∷ seen) m n ≤ count_unseen seen m n
unfolding count_unseen
count_unseen-cons c seen zero n = omega arith
count_unseen-cons c seen (suc i) n =
    omega (arith, count_row-cons c seen i n, count_unseen-cons c seen i n)

count_unseen-visit :
    (i j : ℕ) (seen : List State) (m n : ℕ)
    → visited (i, j) seen ≡ false
    → i < m
    → j < n
    → suc (count_unseen ((i, j) ∷ seen) m n) ≤ count_unseen seen m n
unfolding count_unseen
count_unseen-visit i j seen zero n v h k = elim h [ ]
count_unseen-visit i j seen (suc l) n v h k = elim (Bool-cases (i == l)) [
  | inl e ↦
      let here : suc (count_row ((i, j) ∷ seen) l n) ≤ count_row seen l n =
        subst (λ x. suc (count_row ((i, j) ∷ seen) x n) ≤ count_row seen x n) ((==_iff i l).0 e)
          (count_row-visit i j seen n v k) in
      omega (arith, count_unseen-cons (i, j) seen l n)
  | inr e ↦
      omega
        (arith, count_row-cons (i, j) seen l n, count_unseen-visit i j seen l n v (ground arith) k)
]

pub count_unseen-bound : (seen : List State) (m n : ℕ) → count_unseen seen m n ≤ m * n
unfolding count_unseen
count_unseen-bound seen zero n = omega arith
count_unseen-bound seen (suc i) n =
    omega (arith, count_row-bound seen i n, count_unseen-bound seen i n, mul.suc i n)

module _ (tokens_a tokens_b : List Token) where
  abbrev pub unseen : List State → ℕ
  unseen seen = count_unseen seen (suc (length tokens_a)) (suc (length tokens_b))

  abbrev pub InGrid : State → Type 0
  InGrid s = (s.0 < suc (length tokens_a)) × (s.1 < suc (length tokens_b))

  star-position :
      (tokens : List Token) (i : ℕ) → is_star (get_elem? tokens i) ≡ true → i < length tokens
  star-position [] i h = cc
  star-position (t ∷ ts) zero h = omega arith
  star-position (t ∷ ts) (suc i) h = let le = star-position ts i h in omega arith

  push_stars-grid :
      (c : State) (stack : List State)
      → InGrid c
      → Every InGrid stack
      → Every InGrid (push_stars tokens_a tokens_b c stack)
        × (length (push_stars tokens_a tokens_b c stack) ≤ suc (suc (length stack)))
  push_stars-grid (i, j) stack g h =
      ground (arith, star-position tokens_a i, star-position tokens_b j)

  -- What a closure that was computed leaves: the queue in the grid, and no longer than the pairs
  -- that it used up.
  pub record Closed (seen queue : List State) (r : Result GlobError (List State × List State))
      : Type 0 where
    pub seen' : List State
    pub queue' : List State
    pub returns : r ≡ ok (seen', queue')
    pub used : length queue' + unseen seen' ≤ length queue + unseen seen
    pub in_grid : Every InGrid queue'

  pub add_closure-Closed :
      (n : ℕ) (stack seen queue : List State)
      → Every InGrid stack
      → Every InGrid queue
      → length stack + 2 * unseen seen ≤ n
      → Closed seen queue (add_closure tokens_a tokens_b n stack seen queue)
  unfolding add_closure
  add_closure-Closed n [] seen queue g q le = record {
    seen' = seen;
    queue' = queue;
    returns = refl;
    used = omega arith;
    in_grid = q;
  }
  add_closure-Closed zero (c ∷ stack) seen queue g q le = absurd (omega arith)
  add_closure-Closed (suc n) (c ∷ stack) seen queue g q le = elim (Bool-cases (visited c seen)) [
    | inl e ↦ rw e (add_closure-Closed n stack seen queue g.1 q (omega arith))
    | inr e ↦
        let (pushed, few) = push_stars-grid c stack g.0 g.1 in
        let fewer =
          count_unseen-visit c.0 c.1 seen (suc (length tokens_a)) (suc (length tokens_b)) e g.0.0
            g.0.1 in
        let rest =
          add_closure-Closed n (push_stars tokens_a tokens_b c stack) (c ∷ seen) (queue ++ c ∷ [])
            pushed (Every-append InGrid queue (c ∷ []) q (g.0, tt)) (omega arith) in
        rw e (record {
          seen' = rest.seen';
          queue' = rest.queue';
          returns = rest.returns;
          used = (let u = rest.used in omega (arith, length-append queue (c ∷ [])));
          in_grid = rest.in_grid;
        })
  ]
