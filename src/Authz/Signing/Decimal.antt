-- ===== src/Authz/Signing/Decimal.antt =====
-- Decimal numerals read back.
use intercore.Common.{
  ℕ, zero, suc, ◌+◌, ◌*◌, ◌/◌, ◌%◌, ◌<◌, ◌≡◌, sym, ap, ◌∙◌, false, some, [], ◌∷◌, ◌==◌, ltb, arith,
  Bool-cases, inl, inr,
}
use mathlib.Core.Option.{some_inj}
use intercore.Common.Text.{Text, digits_value}
use intercore.Common.Every.{Every}
use intercore.Authz.Signing.{decimal_rounds, decimal}

abbrev pub IsInline : ℕ → Type 0
IsInline c = (c == b'\n') ≡ false

digits_value-digit :
    (acc d : ℕ) (rest : Text)
    → d < 10
    → digits_value acc ((d + b'0') ∷ rest) ≡ digits_value (acc * 10 + d) rest
unfolding digits_value
digits_value-digit acc d rest h = ground arith

digits_value-decimal_rounds :
    (k n : ℕ) (rest : Text) → n < k → digits_value 0 (decimal_rounds k n rest) ≡ digits_value n rest
unfolding decimal_rounds
digits_value-decimal_rounds zero n rest h = absurd (omega arith)
digits_value-decimal_rounds (suc k) n rest h = elim (Bool-cases (ltb n 10)) [
  | inl e ↦
      rw e
        (digits_value-digit 0 n rest (ground arith) ∙ ap (λ m. digits_value m rest) (omega arith))
  | inr e ↦ rw e (
      digits_value-decimal_rounds k (n / 10) ((n % 10 + b'0') ∷ rest) (ground arith)
      ∙ digits_value-digit (n / 10) (n % 10) rest (omega arith)
      ∙ ap (λ m. digits_value m rest) (omega arith))
]

pub digits_value-decimal : (n : ℕ) → digits_value 0 (decimal n) ≡ some n
unfolding decimal digits_value
digits_value-decimal n = digits_value-decimal_rounds (suc n) n [] (omega arith)

-- Different numbers have different numerals.
pub decimal-injective : (m n : ℕ) → decimal m ≡ decimal n → m ≡ n
decimal-injective m n h =
    some_inj.0 (sym (digits_value-decimal m) ∙ ap (digits_value 0) h ∙ digits_value-decimal n)

decimal_rounds-IsInline :
    (k n : ℕ) (rest : Text) → Every IsInline rest → Every IsInline (decimal_rounds k n rest)
unfolding decimal_rounds
decimal_rounds-IsInline zero n rest h = h
decimal_rounds-IsInline (suc k) n rest h = elim (Bool-cases (ltb n 10)) [
  | inl e ↦ rw e (ground arith, h)
  | inr e ↦ rw e (decimal_rounds-IsInline k (n / 10) ((n % 10 + b'0') ∷ rest) (ground arith, h))
]

pub decimal-IsInline : (n : ℕ) → Every IsInline (decimal n)
unfolding decimal
decimal-IsInline n = decimal_rounds-IsInline (suc n) n [] tt
