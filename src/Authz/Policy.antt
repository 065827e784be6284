-- ===== src/Authz/Policy.antt =====
-- pkg/authz/policy.go, with the readings of a requirement's value from pkg/authz/merge.go.
use intercore.Common.{Bool, true, false, Option, none, some, List, String}
use intercore.Common.Int.{ℤ}
use intercore.Common.Dict.{Dict}

-- A mode is any text in a policy file; four of them mean something.
pub data Mode : Type 0 where
  auto confirm block force_auto : Mode
  unknown : String → Mode

-- An `interface{}` of a decoded document. A float is its integer part and the rest of it, in
-- units of 2^-1074 and with its sign; NaN, infinities and floats beyond int64 are left out,
-- since Go does not define their conversion to int.
pub data Value : Type 0 where
  int : ℤ → Value
  int64 : ℤ → Value
  float64 : (whole rest : ℤ) → Value
  float32 : (whole rest : ℤ) → Value
  boolean : Bool → Value
  other : String → Value

unfoldable pub as_int : Value → Option ℤ
as_int (int n) = some n
as_int (int64 n) = some n
as_int (float64 whole rest) = some whole
as_int (float32 whole rest) = some whole
as_int (boolean b) = none
as_int (other s) = none

unfoldable pub as_bool : Value → Option Bool
as_bool (boolean b) = some b
as_bool (int n) = none
as_bool (int64 n) = none
as_bool (float64 whole rest) = none
as_bool (float32 whole rest) = none
as_bool (other s) = none

pub record Rule : Type 0 where
  pub op : String
  pub mode : Mode
  pub requires : Dict Value
  pub allow_override : Bool

pub record Policy : Type 0 where
  pub version : ℤ
  pub rules : List Rule

-- A mode that lets an operation proceed without a human.
unfoldable pub is_permissive : Mode → Bool
is_permissive auto = true
is_permissive force_auto = true
is_permissive confirm = false
is_permissive block = false
is_permissive (unknown s) = false
