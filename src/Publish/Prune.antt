-- ===== src/Publish/Prune.antt =====
-- The prune of cached versions: pruneCandidates and pruneStaleVersions of internal/publish/cache.go, and
-- heldVersionDirs of internal/publish/liveness.go. A path is the list of the components of a cleaned absolute path.
pub mod Kept
pub mod Deleted
pub mod Newest
use intercore.Common.{
  ℕ, zero, suc, ◌-◌, ◌+◌, Bool, true, false, not, ◌&&◌, ◌||◌, Option, none, some, List, [], ◌∷◌,
  ◌++◌, if◌then◌else◌, ltb, ◌==◌, length, take, drop,
}
use mathlib.Core.List.{reverse}
use intercore.Common.Int.{ℤ, pos, pos_part, ◌+ℤ◌, ◌-ℤ◌, wrap64}
use intercore.Common.Text.{Text}
use intercore.Authz.Signing.{same_text, is_blank}
use intercore.Publish.Version.{Sign, less, same, more, compare_versions}

abbrev pub FilePath : Type 0
FilePath = List Text

-- The marketplace is left out, since the code reads it off the path.
pub record CacheEntry : Type 0 where
  pub version : Text
  pub path : FilePath
  pub is_symlink : Bool
  pub orphaned : Bool

-- `exe` is none when the process table gives no absolute path.
pub record ProcExe : Type 0 where
  pub pid : ℤ
  pub exe : Option FilePath

pub record HeldVersion : Type 0 where
  pub key : Text
  pub version : Text
  pub path : FilePath
  pub holders : List ProcExe

-- `removed` stands for the directories that the prune has deleted.
pub record PruneReport : Type 0 where
  pub pruned : ℕ
  pub bytes_freed : ℤ
  pub held : List HeldVersion
  pub blocked : Bool
  pub removed : List FilePath

-- The answers of the file system: the size of a directory, and whether its removal succeeds.
pub record Disk : Type 0 where
  pub dir_size : FilePath → ℤ
  pub remove_all : FilePath → Bool

-- `filepath.Base` and `filepath.Dir` of a path that is given from its end.
abbrev pub base : FilePath → Text
base [] = b'/' ∷ []
base (name ∷ up) = name

abbrev pub dir : FilePath → FilePath
dir [] = []
dir (name ∷ up) = up

abbrev pub entry_key : FilePath → Text
entry_key path =
    let plugin_dir = dir (reverse path) in base plugin_dir ++ (b'@' ∷ base (dir plugin_dir))

unfoldable pub same_path : FilePath → FilePath → Bool
same_path [] [] = true
same_path [] (d ∷ q) = false
same_path (c ∷ p) [] = false
same_path (c ∷ p) (d ∷ q) = let rest = same_path p q in same_text c d && rest

-- `filepath.Rel` below a root; none stands for a path that climbs out of it.
unfoldable pub relative : (root path : FilePath) → Option FilePath
relative [] path = some path
relative (c ∷ root) [] = none
relative (c ∷ root) (d ∷ path) =
    let rest = relative root path in if same_text c d then rest else none

abbrev pub climbs : FilePath → Bool
climbs [] = false
climbs (name ∷ rest) = same_text (take 2 name) (b'.' ∷ b'.' ∷ [])

abbrev pub dir_below : FilePath → Option FilePath → Option FilePath
dir_below root none = none
dir_below root (some rel) =
    if climbs rel || ltb (length rel) 4 then none else some (root ++ take 3 rel)

unfoldable pub first_dir : (root : FilePath) → (roots : List FilePath) → FilePath → Option FilePath
unfolding relative
first_dir root [] exe = none
first_dir root (r ∷ roots) exe =
    let later = first_dir root roots exe in
    elim (dir_below root (relative r exe)) [ none ↦ later | some dir ↦ some dir ]

abbrev pub executes_from : FilePath → List FilePath → FilePath → ProcExe → Bool
executes_from root roots dir p = elim (p.exe) [
  | none ↦ false
  | some exe ↦ elim (first_dir root roots exe) [ none ↦ false | some d ↦ same_path d dir ]
]

-- The entry of `heldVersionDirs` for a directory.
unfoldable pub holders_of : FilePath → List FilePath → FilePath → List ProcExe → List ProcExe
holders_of root roots dir [] = []
holders_of root roots dir (p ∷ procs) =
    let rest = holders_of root roots dir procs in
    if executes_from root roots dir p then p ∷ rest else rest

-- An insertion moves an entry to the left past those that it is newer than; `before` is the sorted
-- part with its last entry first.
unfoldable pub move_left : CacheEntry → (before : List CacheEntry) → List CacheEntry
move_left e [] = e ∷ []
move_left e (x ∷ before) =
    let rest = move_left e before in
    elim (compare_versions e.version x.version) [ more ↦ x ∷ rest | _ ↦ e ∷ x ∷ before ]

unfoldable pub sort_rounds : List CacheEntry → (before : List CacheEntry) → List CacheEntry
unfolding move_left
sort_rounds [] before = before
sort_rounds (e ∷ entries) before = sort_rounds entries (move_left e before)

unfoldable pub sort_versions_desc : List CacheEntry → List CacheEntry
unfolding sort_rounds
sort_versions_desc entries = reverse (sort_rounds entries [])

abbrev pub is_kept : (installed protected : Text) → CacheEntry → Bool
is_kept installed protected v =
    v.is_symlink || v.orphaned || same_text v.version installed || same_text v.version protected

unfoldable pub candidates : (installed protected : Text) → List CacheEntry → List CacheEntry
candidates installed protected [] = []
candidates installed protected (v ∷ versions) =
    let rest = candidates installed protected versions in
    if is_kept installed protected v then rest else v ∷ rest

abbrev pub to_keep : ℤ → ℕ
to_keep keep = pos_part (wrap64 (keep -ℤ pos 1))

unfoldable pub prune_plugin :
    (keep : ℤ) → (installed protected : Text) → List CacheEntry → List CacheEntry
unfolding sort_versions_desc candidates
prune_plugin keep installed protected versions =
    if is_blank installed && is_blank protected
    then []
    else drop (to_keep keep) (sort_versions_desc (candidates installed protected versions))

-- `installed` and `protect` give the empty text for a plugin that they do not have.
unfoldable pub prune_candidates :
    List (Text × List CacheEntry)
    → (installed : Text → Text) → (keep : ℤ) → (protect : Text → Text) → List CacheEntry
unfolding prune_plugin
prune_candidates [] installed keep protect = []
prune_candidates ((key, versions) ∷ entries) installed keep protect =
    prune_plugin keep (installed key) (protect key) versions
    ++ prune_candidates entries installed keep protect

abbrev pub delete : Disk → PruneReport → CacheEntry → Bool → PruneReport
delete disk report c true = record report {
  pruned = suc report.pruned;
  bytes_freed = wrap64 (report.bytes_freed +ℤ disk.dir_size c.path);
  removed = report.removed ++ c.path ∷ [];
}
delete disk report c false = report

abbrev pub hold_or_delete : Disk → PruneReport → CacheEntry → List ProcExe → PruneReport
hold_or_delete disk report c [] = delete disk report c (disk.remove_all c.path)
hold_or_delete disk report c (p ∷ procs) = record report {
  held =
      report.held
      ++ record { key = entry_key c.path; version = c.version; path = c.path; holders = p ∷ procs }
        ∷ [];
}

abbrev pub prune_one : Disk → (FilePath → List ProcExe) → PruneReport → CacheEntry → PruneReport
prune_one disk held report c = hold_or_delete disk report c (held c.path)

unfoldable pub prune_each :
    Disk → (FilePath → List ProcExe) → List CacheEntry → PruneReport → PruneReport
prune_each disk held [] report = report
prune_each disk held (c ∷ cs) report = prune_each disk held cs (prune_one disk held report c)

abbrev pub empty_report : PruneReport
empty_report = record { pruned = 0; bytes_freed = pos 0; held = []; blocked = false; removed = [] }

-- The program sorts the report's `held` at the end, for display.
unfoldable pub prune_stale_versions :
    Disk
    → (root : FilePath) → (roots : List FilePath) → List (Text × List CacheEntry)
    → (installed : Text → Text) → ℤ
    → (protect : Text → Text) → List ProcExe
    → PruneReport
unfolding prune_each prune_candidates
prune_stale_versions disk root roots entries installed keep protect [] = record empty_report {
  blocked = true;
}
prune_stale_versions disk root roots entries installed keep protect (p ∷ procs) =
    prune_each disk (λ dir. holders_of root roots dir (p ∷ procs))
      (prune_candidates entries installed keep protect) empty_report
