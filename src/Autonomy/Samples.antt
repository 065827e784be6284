-- ===== src/Autonomy/Samples.antt =====
-- Levels as they are written and stored, and the theorems about them at such inputs.
use intercore.Common.{◌≡◌, refl, none, some, [], ◌∷◌, arith}
use intercore.Common.Int.{pos}
use intercore.Common.Text.{is_space}
use intercore.Common.Outcome.{ok, err}
use intercore.Autonomy.Level.{
  parse_level, resolve, Decoders, IsResolved, out_of_range, not_an_integer,
}
use intercore.Autonomy.Ops.{floored_ops, push_auto_floor}
use intercore.Autonomy.Parse.{parse_level-written, resolve-IsResolved, upper}

parse_seven : parse_level (b'7' ∷ []) ≡ err (out_of_range (pos 7))
unfolding parse_level
parse_seven = refl

parse_word : parse_level (b'x' ∷ []) ≡ err (not_an_integer (b'x' ∷ []))
unfolding parse_level
parse_word = refl

parse_four : parse_level (b' ' ∷ b'l' ∷ b'4' ∷ []) ≡ ok (pos 4)
unfolding parse_level
parse_four = refl

floored : floored_ops ≡ ("bd-push-dolt", push_auto_floor) ∷ ("git-push-main", push_auto_floor) ∷ []
unfolding floored_ops
floored = refl

parse_level-written_example : parse_level (b' ' ∷ b'L' ∷ b'3' ∷ b' ' ∷ []) ≡ ok (pos 3)
unfolding is_space
parse_level-written_example =
    parse_level-written upper 3 (b' ' ∷ []) (b' ' ∷ []) (omega arith) (refl, tt) (refl, tt)

abbrev plain : Decoders
plain = record { unquote = λ t. none; unmarshal_string = λ t. none }

resolve-IsResolved_example : IsResolved (resolve plain (some (b'3' ∷ [])))
resolve-IsResolved_example = resolve-IsResolved plain (some (b'3' ∷ []))
