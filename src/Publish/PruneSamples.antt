-- ===== src/Publish/PruneSamples.antt =====
-- A cache with three versions of a plugin, one installed and one that a process executes.
use intercore.Common.{◌≡◌, refl, true, false, some, List, [], ◌∷◌, if◌then◌else◌, take}
use intercore.Common.Int.{pos, ◌-ℤ◌, wrap64}
use intercore.Common.Text.{Text, atoi, magnitude, digits_value}
use intercore.Common.Every.{Every}
use intercore.Authz.Signing.{same_text}
use intercore.Publish.Version.{
  parse_version, find_submatch, split_digits, pre_group, all_pre, number, compare_versions,
  compare_parsed, cmp_int, compare_pre, compare_texts, text_ltb,
}
use intercore.Publish.Version.Print.{numbered}
use intercore.Publish.Prune.{
  CacheEntry, ProcExe, Disk, FilePath, PruneReport, same_path, relative, first_dir, holders_of,
  move_left, sort_rounds, sort_versions_desc, to_keep, candidates, prune_plugin, prune_candidates,
  prune_each, prune_stale_versions,
}
use intercore.Publish.Prune.Deleted.{Deletable, prune_stale_versions-Deletable}
use intercore.Publish.Prune.Newest.{NotNewer, prune_plugin-NotNewer}

abbrev version : (minor : Text) → Text
version minor = b'1' ∷ b'.' ∷ minor

abbrev two : Text
two = version (b'2' ∷ b'.' ∷ b'3' ∷ [])

abbrev ten : Text
ten = version (b'1' ∷ b'0' ∷ b'.' ∷ b'0' ∷ [])

abbrev nine : Text
nine = version (b'9' ∷ b'.' ∷ b'0' ∷ [])

abbrev plugin : Text
plugin = b'p' ∷ []

abbrev root : FilePath
root = (b'c' ∷ []) ∷ []

abbrev dir_of : Text → FilePath
dir_of v = (b'c' ∷ []) ∷ (b'm' ∷ []) ∷ plugin ∷ v ∷ []

abbrev entry : Text → CacheEntry
entry v = record { version = v; path = dir_of v; is_symlink = false; orphaned = false }

abbrev versions : List CacheEntry
versions = entry two ∷ entry nine ∷ entry ten ∷ []

abbrev cache : List (Text × List CacheEntry)
cache = (plugin, versions) ∷ []

abbrev installed : Text → Text
installed key = if same_text key plugin then ten else []

abbrev protect : Text → Text
protect key = []

abbrev disk : Disk
disk = record { dir_size = λ dir. pos 100; remove_all = λ dir. true }

abbrev runs_two : ProcExe
runs_two = record {
  pid = pos 7;
  exe = some ((b'c' ∷ []) ∷ (b'm' ∷ []) ∷ plugin ∷ two ∷ (b'b' ∷ []) ∷ []);
}

abbrev report : PruneReport
report = prune_stale_versions disk root (root ∷ []) cache installed (pos 1) protect (runs_two ∷ [])

removed_nine : report.removed ≡ dir_of nine ∷ []
unfolding prune_stale_versions prune_each prune_candidates prune_plugin candidates
    sort_versions_desc sort_rounds move_left holders_of first_dir relative same_path same_text ◌-ℤ◌
    wrap64 compare_versions compare_parsed cmp_int compare_pre compare_texts text_ltb parse_version
    find_submatch split_digits pre_group all_pre number atoi magnitude digits_value
removed_nine = refl

kept_blind :
    (prune_stale_versions disk root (root ∷ []) cache installed (pos 1) protect []).removed ≡ []
unfolding prune_stale_versions
kept_blind = refl

prune_stale_versions-Deletable_example :
    Every (Deletable cache installed protect root (root ∷ []) (runs_two ∷ [])) report.removed
prune_stale_versions-Deletable_example =
    prune_stale_versions-Deletable disk root (root ∷ []) cache installed (pos 1) protect
      (runs_two ∷ [])

prune_plugin-NotNewer_example :
    Every
      (λ spared. Every (λ dropped. NotNewer dropped spared) (prune_plugin (pos 2) ten [] versions))
      (take (to_keep (pos 2)) (sort_versions_desc (candidates ten [] versions)))
unfolding candidates same_text parse_version find_submatch split_digits pre_group all_pre number
    atoi magnitude digits_value
prune_plugin-NotNewer_example =
    prune_plugin-NotNewer (pos 2) ten [] versions
      ((numbered 1 2 3 [], refl), ((numbered 1 9 0 [], refl), tt))
