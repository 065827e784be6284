-- ===== src/Authz/Signing/Join.antt =====
-- A payload determines the fields that it was joined from.
use intercore.Common.{ℕ, suc, ◌≡◌, refl, sym, ap, subst, ◌∙◌, List, [], ◌∷◌, ◌++◌, length, arith}
use intercore.Common.Int.{ℤ, pos, negsuc, ltb_ℤ}
use intercore.Common.Text.{Text}
use intercore.Common.Every.{Every}
use intercore.Common.Outcome.{Result, ok, >>=-eq-ok, guard-eq-ok, ok-injective}
use intercore.Authz.Signing.{
  Crypto, SignError, reject_control_chars, checked, validate_text, unsigned, format_int, collect,
  join_lines, payload_of, is_control,
}
use intercore.Authz.Signing.Decimal.{IsInline, decimal-injective, decimal-IsInline}

tail_eq : {c d : ℕ} {s t : Text} → (c ∷ s) ≡ (d ∷ t) → (c ≡ d) × (s ≡ t)
tail_eq h = (cc, cc)

append-line-injective :
    (p q r s : Text)
    → Every IsInline p
    → Every IsInline q
    → p ++ (b'\n' ∷ r) ≡ q ++ (b'\n' ∷ s)
    → (p ≡ q) × (r ≡ s)
append-line-injective [] [] r s hp hq h = (refl, (tail_eq h).1)
append-line-injective [] (d ∷ q) r s hp hq h = let same = (tail_eq h).0 in absurd (ground arith)
append-line-injective (c ∷ p) [] r s hp hq h = let same = (tail_eq h).0 in absurd (ground arith)
append-line-injective (c ∷ p) (d ∷ q) r s hp hq h =
    let (same, rest) = tail_eq h in
    let (e, f) = append-line-injective p q r s hp.1 hq.1 rest in (cc, f)

abbrev AllInline : List Text → Type 0
AllInline = Every (Every IsInline)

join_lines-injective :
    (xs ys : List Text)
    → AllInline xs
    → AllInline ys
    → length xs ≡ length ys
    → join_lines xs ≡ join_lines ys
    → xs ≡ ys
unfolding join_lines
join_lines-injective [] [] hx hy l h = refl
join_lines-injective (x ∷ []) (y ∷ []) hx hy l h = ap (λ z. z ∷ []) h
join_lines-injective (x ∷ (x' ∷ xs)) (y ∷ (y' ∷ ys)) hx hy l h =
    let (e, f) = append-line-injective x y _ _ hx.0 hy.0 h in
    let rest = join_lines-injective (x' ∷ xs) (y' ∷ ys) hx.1 hy.1 (omega arith) f in cc
join_lines-injective xs ys hx hy l h = absurd (omega arith)

-- A field whose value has no line feed.
abbrev pub IsClean : Result SignError Text → Type 0
IsClean r = (p : Text) → r ≡ ok p → Every IsInline p

-- Two lists of fields with the same values.
abbrev pub SameFields : List (Result SignError Text) → List (Result SignError Text) → Type 0
SameFields [] [] = Unit
SameFields [] (r' ∷ rs') = ⊥
SameFields (r ∷ rs) [] = ⊥
SameFields (r ∷ rs) (r' ∷ rs') = ((p : Text) × (r ≡ ok p) × (r' ≡ ok p)) × SameFields rs rs'

collect-inline :
    (rs : List (Result SignError Text)) (ps : List Text)
    → Every IsClean rs
    → collect rs ≡ ok ps
    → AllInline ps × (length ps ≡ length rs)
unfolding collect
collect-inline [] ps clean h = subst (λ l. AllInline l × (length l ≡ 0)) (ok-injective h) (tt, refl)
collect-inline (r ∷ rs) ps clean h =
    let (p, first, h1) = >>=-eq-ok r _ h in
    let (qs, rest, h2) = >>=-eq-ok (collect rs) _ h1 in
    let (inline, size) = collect-inline rs qs clean.1 rest in
    subst (λ l. AllInline l × (length l ≡ suc (length rs))) (ok-injective h2)
      ((clean.0 p first, inline), ap suc size)

cons_eq : {p q : Text} {ps qs : List Text} → (p ∷ ps) ≡ (q ∷ qs) → (p ≡ q) × (ps ≡ qs)
cons_eq h = (cc, cc)

collect-SameFields :
    (rs rs' : List (Result SignError Text)) (ps : List Text)
    → collect rs ≡ ok ps
    → collect rs' ≡ ok ps
    → SameFields rs rs'
unfolding collect
collect-SameFields [] [] ps h k = tt
collect-SameFields [] (r' ∷ rs') ps h k =
    let (p, _, k1) = >>=-eq-ok r' _ k in let (qs, _, k2) = >>=-eq-ok (collect rs') _ k1 in cc
collect-SameFields (r ∷ rs) [] ps h k =
    let (p, _, h1) = >>=-eq-ok r _ h in let (qs, _, h2) = >>=-eq-ok (collect rs) _ h1 in cc
collect-SameFields (r ∷ rs) (r' ∷ rs') ps h k =
    let (p, first, h1) = >>=-eq-ok r _ h in
    let (qs, rest, h2) = >>=-eq-ok (collect rs) _ h1 in
    let (p', first', k1) = >>=-eq-ok r' _ k in
    let (qs', rest', k2) = >>=-eq-ok (collect rs') _ k1 in
    let (e, f) = cons_eq (ok-injective (h2 ∙ sym k2)) in
    ((p, first, first' ∙ ap ok (sym e)), collect-SameFields rs rs' qs rest (rest' ∙ ap ok (sym f)))

-- Two lists of as many clean fields with the same payload have the same values.
pub payload_of-SameFields :
    (rs rs' : List (Result SignError Text)) (b : Text)
    → Every IsClean rs
    → Every IsClean rs'
    → length rs ≡ length rs'
    → payload_of rs ≡ ok b
    → payload_of rs' ≡ ok b
    → SameFields rs rs'
unfolding payload_of
payload_of-SameFields rs rs' b clean clean' size h k =
    let (ps, collected, h1) = >>=-eq-ok (collect rs) _ h in
    let (qs, collected', k1) = >>=-eq-ok (collect rs') _ k in
    let (inline, l) = collect-inline rs ps clean collected in
    let (inline', l') = collect-inline rs' qs clean' collected' in
    let same =
      join_lines-injective ps qs inline inline' (l ∙ size ∙ sym l') (ok-injective (h1 ∙ sym k1)) in
    collect-SameFields rs rs' qs (collected ∙ ap ok same) collected'

reject-IsInline : (s : Text) → reject_control_chars s ≡ ok tt → Every IsInline s
unfolding reject_control_chars
reject-IsInline [] h = tt
reject-IsInline (c ∷ s) h =
    let (fine, rest) = guard-eq-ok (is_control c) _ _ h in (ground arith, reject-IsInline s rest)

pub checked-eq-ok : (s p : Text) → checked s ≡ ok p → (s ≡ p) × Every IsInline p
unfolding checked
checked-eq-ok s p h =
    let (_, fine, out) = >>=-eq-ok (reject_control_chars s) _ h in
    let same : s ≡ p = ok-injective out in
    (same, subst (Every IsInline) same (reject-IsInline s fine))

pub checked-IsClean : (s : Text) → IsClean (checked s)
checked-IsClean s p h = (checked-eq-ok s p h).1

format_int-IsInline : (n : ℤ) → Every IsInline (format_int n)
format_int-IsInline (pos n) = decimal-IsInline n
format_int-IsInline (negsuc n) = (refl, decimal-IsInline (suc n))

pub unsigned-IsClean : (n : ℤ) → IsClean (unsigned n)
unfolding unsigned
unsigned-IsClean n p h =
    let (_, out) = guard-eq-ok (ltb_ℤ n (pos 0)) _ _ h in
    subst (Every IsInline) (ok-injective out) (format_int-IsInline n)

pub unsigned-injective : (m n : ℤ) (p : Text) → unsigned m ≡ ok p → unsigned n ≡ ok p → m ≡ n
unfolding unsigned
unsigned-injective (pos m) (pos n) p h k =
    let (_, left) = guard-eq-ok (ltb_ℤ (pos m) (pos 0)) _ _ h in
    let (_, right) = guard-eq-ok (ltb_ℤ (pos n) (pos 0)) _ _ k in
    ap pos (decimal-injective m n (ok-injective left ∙ sym (ok-injective right)))
unsigned-injective (negsuc m) n p h k =
    let (below, _) = guard-eq-ok (ltb_ℤ (negsuc m) (pos 0)) _ _ h in absurd (ground arith)
unsigned-injective (pos m) (negsuc n) p h k =
    let (below, _) = guard-eq-ok (ltb_ℤ (negsuc n) (pos 0)) _ _ k in absurd (ground arith)

-- Text fields that give the same value have the same normal form.
pub same_text_field :
    (crypto : Crypto) (s t p : Text)
    → validate_text crypto s ≡ ok p
    → validate_text crypto t ≡ ok p
    → crypto.normalize s ≡ crypto.normalize t
same_text_field crypto s t p h k =
    (checked-eq-ok (crypto.normalize s) p h).0 ∙ sym (checked-eq-ok (crypto.normalize t) p k).0
