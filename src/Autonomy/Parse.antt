-- ===== src/Autonomy/Parse.antt =====
-- What `ParseLevel` accepts, and what `Resolve` gives for every stored value.
use intercore.Common.{
  ℕ, ◌+◌, ◌≤◌, ◌≡◌, refl, ap, ◌∙◌, true, false, Option, none, some, [], ◌∷◌, ◌++◌, arith,
}
use intercore.Common.Every.{Every}
use intercore.Common.Int.{ℤ, pos, ◌≤ℤ◌}
use intercore.Common.Text.{Text, is_space, trim_space, trim_space-append, atoi, trim_prefix}
use intercore.Common.Outcome.{Result, ok, err, ◌>>=◌, ◌>>◌}
use intercore.Autonomy.Level.{
  parse_level, parse_trimmed, validate, min_level, max_level, LevelError, integer, resolve,
  Decoders, IsResolved, fallback, raw_value, resolved,
}

validated :
    (s : Text) (o : Option ℤ) (level : ℤ)
    → (integer s o >>= λ l. validate l >> ok l) ≡ ok level
    → (min_level ≤ℤ level) × (level ≤ℤ max_level)
unfolding validate
validated s none level h = cc
validated s (some l) level h = ground arith

-- Only a rung of the ladder is accepted.
pub parse_level_bounds :
    (s : Text) (level : ℤ) → parse_level s ≡ ok level → (min_level ≤ℤ level) × (level ≤ℤ max_level)
unfolding parse_level
parse_level_bounds s level h =
    validated s (atoi (trim_prefix b'l' (trim_prefix b'L' (trim_space s)))) level h

-- The three spellings of a rung.
pub data Spelling : Type 0 where
  bare upper lower : Spelling

abbrev pub written : Spelling → ℕ → Text
written bare n = (48 + n) ∷ []
written upper n = b'L' ∷ (48 + n) ∷ []
written lower n = b'l' ∷ (48 + n) ∷ []

written-parse :
    (how : Spelling) (n : ℕ) (s : Text) → n ≤ 5 → parse_trimmed s (written how n) ≡ ok (pos n)
unfolding parse_trimmed
written-parse bare n s h = ground arith
written-parse upper n s h = ground arith
written-parse lower n s h = ground arith

digit-not_space : (n : ℕ) → n ≤ 5 → is_space (48 + n) ≡ false
unfolding is_space
digit-not_space n h = ground arith

module _ (ws after : Text) (h : Every (λ c. is_space c ≡ true) ws)
    (k : Every (λ c. is_space c ≡ true) after) where
  trim_space-written :
      (how : Spelling) (n : ℕ) → n ≤ 5 → trim_space (ws ++ (written how n ++ after)) ≡ written how n
  unfolding is_space
  trim_space-written bare n le =
      trim_space-append ws (written bare n) after {s = []} {t = []} refl refl h k
        (digit-not_space n le) (digit-not_space n le)
  trim_space-written upper n le =
      trim_space-append ws (written upper n) after {x = b'L'} {s = (48 + n) ∷ []} {t = b'L' ∷ []}
        refl refl h k refl (digit-not_space n le)
  trim_space-written lower n le =
      trim_space-append ws (written lower n) after {x = b'l'} {s = (48 + n) ∷ []} {t = b'l' ∷ []}
        refl refl h k refl (digit-not_space n le)

-- Every spelling of a rung, with any spaces round it, is read back as that rung.
pub parse_level-written :
    (how : Spelling) (n : ℕ) (ws after : Text)
    → n ≤ 5
    → Every (λ c. is_space c ≡ true) ws
    → Every (λ c. is_space c ≡ true) after
    → parse_level (ws ++ (written how n ++ after)) ≡ ok (pos n)
unfolding parse_level
parse_level-written how n ws after le h k =
    ap (parse_trimmed (ws ++ (written how n ++ after))) (trim_space-written ws after h k how n le)
    ∙ written-parse how n (ws ++ (written how n ++ after)) le

resolved-IsResolved :
    (raw : Text) (r : Result LevelError ℤ)
    → ((level : ℤ) → r ≡ ok level → (min_level ≤ℤ level) × (level ≤ℤ max_level))
    → IsResolved (resolved raw r)
unfolding fallback
resolved-IsResolved raw (err e) h = ground arith
resolved-IsResolved raw (ok level) h = ground (arith, h level refl)

-- Whatever is stored, the level in force is a rung, and its name and the auto_advance default
-- are those of the rung.
pub resolve-IsResolved : (d : Decoders) (payload : Option Text) → IsResolved (resolve d payload)
unfolding resolve
resolve-IsResolved d none = ground arith
resolve-IsResolved d (some []) = ground arith
resolve-IsResolved d (some (c ∷ payload)) =
    let raw = raw_value d (c ∷ payload) in
    resolved-IsResolved raw (parse_level raw) (parse_level_bounds raw)
