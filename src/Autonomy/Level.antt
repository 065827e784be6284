-- ===== src/Autonomy/Level.antt =====
-- pkg/autonomy/autonomy.go: the ladder L0 to L5, and how the level in force is resolved.
use intercore.Common.{
  zero, suc, ◌≡◌, Bool, true, false, ◌||◌, Option, none, some, [], ◌∷◌, String, if◌then◌else◌,
}
use intercore.Common.Int.{ℤ, pos, ltb_ℤ, leb_ℤ, ◌≤ℤ◌}
use intercore.Common.Text.{Text, trim_space, trim_prefix, atoi}
use intercore.Common.Outcome.{Result, ok, err, ◌>>=◌, ◌>>◌}

abbrev pub min_level : ℤ
min_level = pos 0

abbrev pub max_level : ℤ
max_level = pos 5

abbrev pub default_level : ℤ
default_level = pos 2

abbrev pub auto_advance_floor : ℤ
auto_advance_floor = pos 2

pub data LevelError : Type 0 where
  out_of_range : ℤ → LevelError
  not_an_integer : Text → LevelError

-- The meanings of the levels; a level off the ladder has none.
unfoldable pub name : ℤ → String
name (pos zero) = "human approves every action"
name (pos (suc zero)) = "human approves at phase gates"
name (pos (suc (suc zero))) = "human reviews evidence post-hoc"
name (pos (suc (suc (suc zero)))) = "human sets policy, agent executes"
name (pos (suc (suc (suc (suc zero))))) = "agent proposes policy changes"
name (pos (suc (suc (suc (suc (suc zero)))))) = "agent proposes mechanism changes"
name _ = "unknown"

unfoldable pub validate : ℤ → Result LevelError (Unit {0})
validate level =
    if ltb_ℤ level min_level || ltb_ℤ max_level level then err (out_of_range level) else ok tt

abbrev pub integer : Text → Option ℤ → Result LevelError ℤ
integer s none = err (not_an_integer s)
integer s (some level) = ok level

-- "2", "L2" and "l2", with spaces round them.
unfoldable pub parse_trimmed : Text → Text → Result LevelError ℤ
unfolding trim_prefix atoi validate
parse_trimmed s trimmed = do
  level ← integer s (atoi (trim_prefix b'l' (trim_prefix b'L' trimmed)))
  validate level
  ok level

unfoldable pub parse_level : Text → Result LevelError ℤ
unfolding trim_space parse_trimmed
parse_level s = parse_trimmed s (trim_space s)

unfoldable pub derives_auto_advance : ℤ → Bool
derives_auto_advance level = leb_ℤ auto_advance_floor level

pub data Source : Type 0 where
  default_unset : Source
  default_invalid : Text → Source
  config_key : Source

pub record Resolution : Type 0 where
  pub level : ℤ
  pub level_name : String
  pub auto_advance : Bool
  pub declared : Bool
  pub source : Source

unfoldable pub fallback : Resolution
unfolding name derives_auto_advance
fallback = record {
  level = default_level;
  level_name = name default_level;
  auto_advance = derives_auto_advance default_level;
  declared = false;
  source = default_unset;
}

-- How `strconv.Unquote` and `json.Unmarshal` into a string read a payload.
pub record Decoders : Type 0 where
  pub unquote : Text → Option Text
  pub unmarshal_string : Text → Option Text

abbrev or_else : Option Text → Text → Text
or_else none t = t
or_else (some s) t = s

unfoldable pub raw_value : Decoders → Text → Text
unfolding trim_space
raw_value d payload =
    let raw = trim_space payload in
    or_else (d.unquote raw) (or_else (d.unmarshal_string payload) raw)

abbrev pub resolved : Text → Result LevelError ℤ → Resolution
resolved raw (err e) = record fallback { source = default_invalid raw }
resolved raw (ok level) = record {
  level = level;
  level_name = name level;
  auto_advance = derives_auto_advance level;
  declared = true;
  source = config_key;
}

-- `none` is a nil getter, a failed read or an empty payload.
unfoldable pub resolve : Decoders → Option Text → Resolution
unfolding fallback raw_value name derives_auto_advance
resolve d none = fallback
resolve d (some []) = fallback
resolve d (some (c ∷ payload)) =
    let raw = raw_value d (c ∷ payload) in resolved raw (parse_level raw)

-- What holds of every resolution: a rung of the ladder, with what the level implies.
pub record IsResolved (r : Resolution) : Type 0 where
  pub at_least : min_level ≤ℤ r.level
  pub at_most : r.level ≤ℤ max_level
  pub named : r.level_name ≡ name r.level
  pub implies : r.auto_advance ≡ derives_auto_advance r.level
