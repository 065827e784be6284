-- ===== src/Autonomy/Ops.antt =====
-- pkg/autonomy/ops.go: which operations need a delegation level before policy alone may allow them.
use intercore.Common.{Bool, List, [], ◌∷◌, String, str_eq, if◌then◌else◌}
use intercore.Common.Int.{ℤ, pos, ltb_ℤ, leb_ℤ}
use intercore.Common.Dict.{Dict, insert}
use intercore.Autonomy.Level.{Resolution}

abbrev pub push_auto_floor : ℤ
push_auto_floor = pos 3

pub record OpRuling : Type 0 where
  pub op : String
  pub floor : ℤ

unfoldable pub op_rulings : List OpRuling
op_rulings =
    record { op = "bd-push-dolt"; floor = push_auto_floor }
    ∷ record { op = "bead-close"; floor = pos 0 }
    ∷ record { op = "git-push-main"; floor = push_auto_floor }
    ∷ record { op = "ic-publish-patch"; floor = pos 0 }
    ∷ []

unfoldable pub scan_floor : List OpRuling → String → ℤ
scan_floor [] op = pos 0
scan_floor (r ∷ rs) op = if str_eq r.op op then r.floor else scan_floor rs op

unfoldable pub min_level_for_auto : String → ℤ
unfolding scan_floor op_rulings
min_level_for_auto op = scan_floor op_rulings op

unfoldable pub collect_floored : List OpRuling → Dict ℤ → Dict ℤ
unfolding insert
collect_floored [] out = out
collect_floored (r ∷ rs) out =
    collect_floored rs (if ltb_ℤ (pos 0) r.floor then insert r.op r.floor out else out)

unfoldable pub floored_ops : Dict ℤ
unfolding collect_floored op_rulings
floored_ops = collect_floored op_rulings []

unfoldable pub permits_auto : Resolution → String → Bool
permits_auto r op = leb_ℤ (min_level_for_auto op) r.level
