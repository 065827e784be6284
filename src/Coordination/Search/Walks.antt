-- ===== src/Coordination/Search/Walks.antt =====
-- A text that two token lists read is found by the search.
use intercore.Common.{
  ℕ, suc, ◌+◌, ◌*◌, ◌≡◌, refl, ap, ◌∙◌, Bool, true, false, some, List, [], ◌∷◌, length, get_elem?,
  ◌==◌, ==_iff, inl, inr,
}
use intercore.Common.Text.{Text}
use intercore.Common.Outcome.{ok, >>=-eq-ok}
use intercore.Coordination.Ranges.{RuneRange}
use intercore.Coordination.Ranges.Members.{in_ranges}
use intercore.Coordination.Ranges.Ascending.{Ascending}
use intercore.Coordination.Ranges.Overlap.{ranges_overlap_complete}
use intercore.Coordination.Glob.{Token}
use intercore.Coordination.Search.{
  State, visited, is_star, token_consume, add_closure, grid_size, next_state, joint, search,
}
use intercore.Coordination.Search.Rounds.{visited-here}
use intercore.Coordination.Search.Ends.{search-total}
use intercore.Coordination.Search.Frontier.{
  Known, Followed, Frontier, add_closure-Frontier, not_visited,
}
use intercore.Coordination.Search.Exhausted.{search_rounds-Exhausted}

-- A walk of the search along one token list that reads a text, from a position on.
pub data Walks (tokens : List Token) : ℕ → Text → Type 0 where
  ends : {i : ℕ} → (i == length tokens) ≡ true → Walks tokens i []
  leaves :
      {i : ℕ} {s : Text}
      → is_star (get_elem? tokens i) ≡ true
      → Walks tokens (suc i) s
      → Walks tokens i s
  reads :
      {i n : ℕ} {rs : List RuneRange} {c : ℕ} {s : Text}
      → token_consume tokens i ≡ some (n, rs)
      → Ascending rs
      → in_ranges c rs ≡ true
      → Walks tokens n s
      → Walks tokens i (c ∷ s)

module _ (tokens_a tokens_b : List Token) where
  joint-some :
      (n m c : ℕ) (rs qs : List RuneRange)
      → Ascending rs
      → Ascending qs
      → in_ranges c rs ≡ true
      → in_ranges c qs ≡ true
      → joint (some (n, rs)) (some (m, qs)) ≡ some (n, m)
  joint-some n m c rs qs a b x y = rw (ranges_overlap_complete c rs qs a b x y) refl

  next_state-some :
      (i j n m c : ℕ) (rs qs : List RuneRange)
      → token_consume tokens_a i ≡ some (n, rs)
      → token_consume tokens_b j ≡ some (m, qs)
      → Ascending rs
      → Ascending qs
      → in_ranges c rs ≡ true
      → in_ranges c qs ≡ true
      → next_state tokens_a tokens_b (i, j) ≡ some (n, m)
  unfolding next_state
  next_state-some i j n m c rs qs h k a b x y =
      ap (λ o. joint o (token_consume tokens_b j)) h
      ∙ ap (joint (some (n, rs))) k
      ∙ joint-some n m c rs qs a b x y

  settled : (set : List State) (x : State) → Known tokens_a tokens_b set [] x → visited x set ≡ true
  settled set x (inl v) = v
  settled set x (inr v) = absurd (not_visited x v)

  member :
      (set : List State)
      → Frontier tokens_a tokens_b set [] []
      → (s : State) → visited s set ≡ true
      → Followed tokens_a tokens_b set [] s
  member set f s v = elim (f.steps s v) [ inl q ↦ absurd (not_visited s q) | inr d ↦ d ]

  followed :
      (set : List State)
      → Frontier tokens_a tokens_b set [] []
      → (s : State) → visited s set ≡ true
      → (next : State) → next_state tokens_a tokens_b s ≡ some next
      → Known tokens_a tokens_b set [] next
  followed set f s v next h = let d = member set f s v in d.next_known next h

  ended :
      (set : List State)
      → Frontier tokens_a tokens_b set [] []
      → (i j : ℕ) → (i == length tokens_a) ≡ true
      → (j == length tokens_b) ≡ true
      → visited (i, j) set ≡ true
      → ⊥
  ended set f i j e g v =
      let d = member set f (i, j) v in
      d.not_final ((==_iff i (length tokens_a)).0 e, (==_iff j (length tokens_b)).0 g)

  -- A text that both lists read leads from any pair of the set to the end, which is not in it.
  exhausted-Walks :
      (set : List State)
      → Frontier tokens_a tokens_b set [] []
      → (i j : ℕ) (s : Text) → Walks tokens_a i s
      → Walks tokens_b j s
      → visited (i, j) set ≡ true
      → ⊥
  exhausted-Walks set f i j s (leaves e a) b v =
      exhausted-Walks set f (suc i) j s a b (settled set _ (f.star_a (i, j) v e))
  exhausted-Walks set f i j [] (ends e) (ends g) v = ended set f i j e g v
  exhausted-Walks set f i j [] (ends e) (leaves g b) v =
      exhausted-Walks set f i (suc j) [] (ends e) b (settled set _ (f.star_b (i, j) v g))
  exhausted-Walks set f i j (c ∷ s) (reads h p x a) (leaves g b) v =
      exhausted-Walks set f i (suc j) (c ∷ s) (reads h p x a) b
        (settled set _ (f.star_b (i, j) v g))
  exhausted-Walks set f i j (c ∷ s) (reads {n = n} {rs = rs} h p x a)
        (reads {n = m} {rs = qs} k q y b) v =
      exhausted-Walks set f n m s a b (
        settled set _
          (followed set f (i, j) v (n, m) (next_state-some i j n m c rs qs h k p q x y)))

  start : Frontier tokens_a tokens_b [] ((0, 0) ∷ []) []
  start = record {
    star_a = λ s h k. absurd (not_visited s h);
    star_b = λ s h k. absurd (not_visited s h);
    steps = λ s h. absurd (not_visited s h);
  }

  search-false :
      (s : Text) → Walks tokens_a 0 s → Walks tokens_b 0 s → search tokens_a tokens_b ≡ ok false → ⊥
  unfolding search
  search-false s a b h =
      let (p, closed, rest) =
        >>=-eq-ok
          (add_closure tokens_a tokens_b (1 + 2 * grid_size tokens_a tokens_b) ((0, 0) ∷ []) [] [])
          _ h in
      let (g, keeps) =
        add_closure-Frontier tokens_a tokens_b _ ((0, 0) ∷ []) [] [] p.0 p.1 start closed in
      let out =
        search_rounds-Exhausted tokens_a tokens_b (grid_size tokens_a tokens_b) p.0 p.1 g rest in
      exhausted-Walks out.set out.frontier 0 0 s a b
        (out.includes (0, 0) (keeps (0, 0) (inr (visited-here (0, 0) []))))

  -- The search finds that two token lists can read a common text.
  pub search-Walks :
      (s : Text) → Walks tokens_a 0 s → Walks tokens_b 0 s → search tokens_a tokens_b ≡ ok true
  search-Walks s a b = go (search-total tokens_a tokens_b)
    where
      go : (b : Bool) × (search tokens_a tokens_b ≡ ok b) → search tokens_a tokens_b ≡ ok true
      go (true, h) = h
      go (false, h) = absurd (search-false s a b h)
