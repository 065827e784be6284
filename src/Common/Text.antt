-- ===== src/Common/Text.antt =====
-- Text as a list of runes, with the parts of Go's strings and strconv that the program uses.
use Prim.Native.Nat.{ℕ, ◌+◌, ◌-◌, ◌*◌}
use mathlib.Core.Path.{◌≡◌, refl, ap, ◌∙◌, ◌≡⟨◌⟩◌, ◌∎}
use mathlib.Core.Bool.{Bool, true, false, ◌&&◌, ◌||◌}
use mathlib.Core.Option.{Option, none, some}
use mathlib.Core.List.{List, [], ◌∷◌, ◌++◌, reverse, reverse_aux, reverse-append, reverse-reverse}
use intercore.Common.Tests.{leb, ltb, ◌==◌, if◌then◌else◌}
use intercore.Common.Int.{ℤ, pos, negsuc, two_63}
use intercore.Common.Every.{Every}

abbrev pub Text : Type 0
Text = List ℕ

-- unicode.IsSpace
unfoldable pub is_space : ℕ → Bool
is_space c =
    leb 9 c && leb c 13
    || c == 32
    || c == 0x85
    || c == 0xa0
    || c == 0x1680
    || leb 0x2000 c && leb c 0x200a
    || c == 0x2028
    || c == 0x2029
    || c == 0x202f
    || c == 0x205f
    || c == 0x3000

unfoldable pub trim_left : Text → Text
trim_left [] = []
trim_left (c ∷ s) = let rest = trim_left s in if is_space c then rest else c ∷ s

-- strings.TrimSpace
unfoldable pub trim_space : Text → Text
unfolding trim_left is_space
trim_space s = reverse (trim_left (reverse (trim_left s)))

-- strings.TrimPrefix with a prefix of one rune.
unfoldable pub trim_prefix : ℕ → Text → Text
trim_prefix p [] = []
trim_prefix p (c ∷ s) = if c == p then s else c ∷ s

unfoldable pub digits_value : ℕ → Text → Option ℕ
digits_value acc [] = some acc
digits_value acc (c ∷ s) =
    let rest = digits_value (acc * 10 + (c - b'0')) s in
    if leb b'0' c && leb c b'9' then rest else none

-- The digits behind the sign, at least one of them.
unfoldable pub magnitude : Text → Option ℕ
unfolding digits_value
magnitude [] = none
magnitude (c ∷ s) = digits_value 0 (c ∷ s)

abbrev pub non_negative : Option ℕ → Option ℤ
non_negative none = none
non_negative (some n) = if ltb n two_63 then some (pos n) else none

abbrev negative : Option ℕ → Option ℤ
negative none = none
negative (some n) =
    if n == 0 then some (pos 0) else if leb n two_63 then some (negsuc (n - 1)) else none

-- strconv.Atoi; `none` is its syntax or range error.
unfoldable pub atoi : Text → Option ℤ
unfolding magnitude
atoi [] = none
atoi (c ∷ s) =
    if c == b'-'
    then negative (magnitude s)
    else if c == b'+'
    then non_negative (magnitude s)
    else non_negative (magnitude (c ∷ s))

trim_left-spaces :
    (ws s : Text) → Every (λ c. is_space c ≡ true) ws → trim_left (ws ++ s) ≡ trim_left s
unfolding trim_left
trim_left-spaces [] s h = refl
trim_left-spaces (c ∷ ws) s h = rw (h.0) (trim_left-spaces ws s h.1)

Every-reverse_aux :
    (P : ℕ → Type 0) (xs acc : Text) → Every P xs → Every P acc → Every P (reverse_aux xs acc)
Every-reverse_aux P [] acc h k = k
Every-reverse_aux P (x ∷ xs) acc h k = Every-reverse_aux P xs (x ∷ acc) h.1 (h.0, k)

trim_left_stop : (c : ℕ) (s : Text) → is_space c ≡ false → trim_left (c ∷ s) ≡ c ∷ s
unfolding trim_left
trim_left_stop c s h = rw h

-- Trimming gives back a text that begins and ends with other runes than spaces, whatever
-- spaces stand round it.
module _ (ws core after : Text) {x y : ℕ} {s t : Text} (first : core ≡ x ∷ s)
    (last : reverse core ≡ y ∷ t) where
  pub trim_space-append :
      Every (λ c. is_space c ≡ true) ws
      → Every (λ c. is_space c ≡ true) after
      → is_space x ≡ false
      → is_space y ≡ false
      → trim_space (ws ++ (core ++ after)) ≡ core
  unfolding trim_space
  trim_space-append h k hx hy =
      trim_space (ws ++ (core ++ after))
      ≡⟨ ap (λ l. reverse (trim_left (reverse l))) (left) ⟩
        reverse (trim_left (reverse (core ++ after)))
      ≡⟨ ap (λ l. reverse (trim_left l)) (reverse-append core after) ⟩
        reverse (trim_left (reverse after ++ reverse core))
      ≡⟨ ap reverse right ⟩ reverse (reverse core)
      ≡⟨ reverse-reverse core ⟩ core ∎
    where
      left : trim_left (ws ++ (core ++ after)) ≡ core ++ after
      left = trim_left-spaces ws (core ++ after) h ∙ rw first (trim_left_stop x (s ++ after) hx)

      right : trim_left (reverse after ++ reverse core) ≡ reverse core
      right =
          trim_left-spaces (reverse after) (reverse core) (Every-reverse_aux _ after [] k tt)
          ∙ rw last (trim_left_stop y t hy)
