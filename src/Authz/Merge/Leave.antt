-- ===== src/Authz/Merge/Leave.antt =====
-- The leave to override of pkg/authz/merge.go: a layer that gives it gives it to every layer above.
use intercore.Common.{◌≡◌, true, Option, some, List, [], ◌∷◌, String}
use intercore.Common.Int.{ℤ}
use intercore.Common.Every.{Every}
use intercore.Authz.Policy.{Mode, Rule, Policy}
use intercore.Authz.Merge.Rules.{rule_for}

-- The operation's rule has the mode, and gives leave to override it.
pub record Freed (op : String) (mode : Mode) (rules : List Rule) : Type 0 where
  pub rule : Rule
  pub found : rule_for op rules ≡ some rule
  pub mode_taken : rule.mode ≡ mode
  pub leave : rule.allow_override ≡ true

-- A layer with one rule.
abbrev pub layer : ℤ → Rule → Option Policy
layer version r = some (record { version = version; rules = r ∷ [] })

abbrev pub last_mode : Mode → List Rule → Mode
last_mode mode [] = mode
last_mode mode (r ∷ later) = last_mode r.mode later
