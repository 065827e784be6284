-- ===== src/Publish/Version/Numerals.antt =====
-- A printed version read back, internal/publish/version.go: the numerals and the suffix.
use intercore.Common.{
  ℕ, zero, suc, ◌+◌, ◌/◌, ◌%◌, ◌<◌, ◌≡◌, refl, ◌∙◌, Bool, true, false, not, some, [], ◌∷◌, ◌++◌,
  ◌==◌, ltb, arith, Bool-cases, inl, inr,
}
use intercore.Common.Int.{pos, two_63}
use intercore.Common.Text.{Text, digits_value, atoi, magnitude}
use intercore.Common.Every.{Every}
use intercore.Authz.Signing.{is_blank, decimal_rounds, decimal}
use intercore.Authz.Signing.Decimal.{digits_value-decimal}
use intercore.Publish.Version.{is_digit, split_digits, some_digits}

abbrev pub IsDigit : ℕ → Type 0
IsDigit c = is_digit c ≡ true

decimal_rounds-IsDigit :
    (k n : ℕ) (rest : Text) → Every IsDigit rest → Every IsDigit (decimal_rounds k n rest)
unfolding decimal_rounds
decimal_rounds-IsDigit zero n rest h = h
decimal_rounds-IsDigit (suc k) n rest h = elim (Bool-cases (ltb n 10)) [
  | inl e ↦ rw e (ground arith, h)
  | inr e ↦ rw e (decimal_rounds-IsDigit k (n / 10) ((n % 10 + b'0') ∷ rest) (ground arith, h))
]

decimal-IsDigit : (n : ℕ) → Every IsDigit (decimal n)
unfolding decimal
decimal-IsDigit n = decimal_rounds-IsDigit (suc n) n [] tt

is_blank-decimal_rounds :
    (k n : ℕ) (rest : Text) → is_blank rest ≡ false → is_blank (decimal_rounds k n rest) ≡ false
unfolding decimal_rounds
is_blank-decimal_rounds zero n rest h = h
is_blank-decimal_rounds (suc k) n rest h = elim (Bool-cases (ltb n 10)) [
  | inl e ↦ rw e
  | inr e ↦ rw e (is_blank-decimal_rounds k (n / 10) ((n % 10 + b'0') ∷ rest) refl)
]

is_blank-decimal : (n : ℕ) → is_blank (decimal n) ≡ false
unfolding decimal decimal_rounds
is_blank-decimal n = elim (Bool-cases (ltb n 10)) [
  | inl e ↦ rw e
  | inr e ↦ rw e (is_blank-decimal_rounds n (n / 10) ((n % 10 + b'0') ∷ []) refl)
]

-- A text that does not go on with a digit.
abbrev pub stops : Text → Bool
stops [] = true
stops (c ∷ s) = not (is_digit c)

split_digits_stop : (rest : Text) → stops rest ≡ true → split_digits rest ≡ ([], rest)
unfolding split_digits
split_digits_stop [] h = refl
split_digits_stop (c ∷ s) h = ground arith

split_digits-append :
    (digits rest : Text)
    → Every IsDigit digits
    → stops rest ≡ true
    → split_digits (digits ++ rest) ≡ (digits, rest)
unfolding split_digits
split_digits-append [] rest h k = split_digits_stop rest k
split_digits-append (c ∷ s) rest h k = rw (h.0, split_digits-append s rest h.1 k)

pub some_digits-decimal :
    (n : ℕ) (rest : Text)
    → stops rest ≡ true
    → some_digits (split_digits (decimal n ++ rest)) ≡ some (decimal n, rest)
some_digits-decimal n rest h =
    rw (split_digits-append (decimal n) rest (decimal-IsDigit n) h, is_blank-decimal n)

magnitude-digits : (c : ℕ) (s : Text) → magnitude (c ∷ s) ≡ digits_value 0 (c ∷ s)
unfolding magnitude
magnitude-digits c s = refl

atoi_digits :
    (s : Text) (n : ℕ)
    → Every IsDigit s
    → is_blank s ≡ false
    → digits_value 0 s ≡ some n
    → n < two_63
    → atoi s ≡ some (pos n)
unfolding atoi
atoi_digits [] n h b v l = cc
atoi_digits (c ∷ s) n h b v l =
    let minus : (c == b'-') ≡ false = ground arith in
    let plus : (c == b'+') ≡ false = ground arith in
    let fits : ltb n two_63 ≡ true = ground arith in
    let value : magnitude (c ∷ s) ≡ some n = magnitude-digits c s ∙ v in
    rw (minus, plus, value, fits)

pub atoi-decimal : (n : ℕ) → n < two_63 → atoi (decimal n) ≡ some (pos n)
atoi-decimal n l =
    atoi_digits (decimal n) n (decimal-IsDigit n) (is_blank-decimal n) (digits_value-decimal n) l
