-- ===== src/Publish/Prune/Deleted.antt =====
-- What pruneStaleVersions of internal/publish/cache.go may delete.
use intercore.Common.{
  ◌≡◌, ◌≢◌, ◌||◌, ◌⊎◌, inl, inr, if-true, if-false, refl, Bool, true, false, ◌&&◌, List, [], ◌∷◌,
  Bool-cases,
}
use intercore.Common.Int.{ℤ}
use intercore.Common.Text.{Text}
use intercore.Common.Every.{Every, Every-append, Every-map}
use intercore.Authz.Signing.{distinct_texts, is_blank}
use intercore.Publish.Prune.{
  CacheEntry, ProcExe, PruneReport, Disk, FilePath, executes_from, holders_of, prune_candidates,
  prune_one, delete, hold_or_delete, prune_each, empty_report, prune_stale_versions,
}
use intercore.Publish.Prune.Kept.{Cached, Chosen, prune_candidates-Chosen}

holders_of-nil :
    (root : FilePath) (roots : List FilePath) (dir : FilePath) (procs : List ProcExe)
    → holders_of root roots dir procs ≡ []
    → Every (λ p. executes_from root roots dir p ≡ false) procs
unfolding holders_of
holders_of-nil root roots dir [] h = tt
holders_of-nil root roots dir (p ∷ procs) h = elim (Bool-cases (executes_from root roots dir p)) [
  | inl e ↦ let held = if-true _ _ e h in cc
  | inr e ↦ (e, holders_of-nil root roots dir procs (if-false _ _ e h))
]

abbrev pub has_rows : List ProcExe → Bool
has_rows [] = false
has_rows (p ∷ procs) = true

-- A version that the policy gives up: neither installed nor protected, of a plugin with a record.
pub record Stale (entries : List (Text × List CacheEntry)) (installed protect : Text → Text)
    (v : CacheEntry) : Type 0 where
  pub key : Text
  pub cached : Cached entries key v
  pub not_a_link : v.is_symlink ≡ false
  pub unmarked : v.orphaned ≡ false
  pub not_installed : v.version ≢ installed key
  pub not_protected : v.version ≢ protect key
  pub recorded : (installed key ≢ []) ⊎ (protect key ≢ [])

or-false :
    (a b c d : Bool)
    → (a || b || c || d) ≡ false
    → (a ≡ false) × (b ≡ false) × (c ≡ false) × (d ≡ false)
or-false true b c d h = cc
or-false false true c d h = cc
or-false false false true d h = cc
or-false false false false d h = (refl, refl, refl, h)

not_blank : (s t : Text) → (is_blank s && is_blank t) ≡ false → (s ≢ []) ⊎ (t ≢ [])
not_blank [] [] h = cc
not_blank [] (d ∷ t) h = inr (λ e. cc)
not_blank (c ∷ s) t h = inl (λ e. cc)

Chosen-Stale :
    (entries : List (Text × List CacheEntry)) (installed protect : Text → Text) (v : CacheEntry)
    → Chosen entries installed protect v
    → Stale entries installed protect v
Chosen-Stale entries installed protect v c =
    let (link, marked, i, p) = or-false v.is_symlink v.orphaned _ _ c.unkept in
    record {
      key = c.key;
      cached = c.cached;
      not_a_link = link;
      unmarked = marked;
      not_installed = distinct_texts v.version (installed c.key) i;
      not_protected = distinct_texts v.version (protect c.key) p;
      recorded = not_blank (installed c.key) (protect c.key) c.recorded;
    }

pub record Deletable (entries : List (Text × List CacheEntry)) (installed protect : Text → Text)
    (root : FilePath) (roots : List FilePath) (procs : List ProcExe) (path : FilePath)
    : Type 0 where
  pub version : CacheEntry
  pub at : version.path ≡ path
  pub stale : Stale entries installed protect version
  pub known : has_rows procs ≡ true
  pub idle : Every (λ p. executes_from root roots path p ≡ false) procs

-- The deletion of a stale version that no process holds.
pub record Removable (stale : CacheEntry → Type 0) (held : FilePath → List ProcExe)
    (path : FilePath) : Type 0 where
  pub version : CacheEntry
  pub at : version.path ≡ path
  pub is_stale : stale version
  pub unheld : held path ≡ []

module _ (disk : Disk) (held : FilePath → List ProcExe) (stale : CacheEntry → Type 0) where
  delete-Removable :
      (c : CacheEntry) (report : PruneReport) (done : Bool)
      → stale c
      → held c.path ≡ []
      → Every (Removable stale held) report.removed
      → Every (Removable stale held) (delete disk report c done).removed
  delete-Removable c report true s e h =
      Every-append (Removable stale held) report.removed (c.path ∷ []) h
        (record { version = c; at = refl; is_stale = s; unheld = e }, tt)
  delete-Removable c report false s e h = h

  hold_or_delete-Removable :
      (c : CacheEntry) (report : PruneReport) (procs : List ProcExe)
      → stale c
      → held c.path ≡ procs
      → Every (Removable stale held) report.removed
      → Every (Removable stale held) (hold_or_delete disk report c procs).removed
  hold_or_delete-Removable c report [] s e h =
      delete-Removable c report (disk.remove_all c.path) s e h
  hold_or_delete-Removable c report (p ∷ procs) s e h = h

  prune_each-Removable :
      (cs : List CacheEntry) (report : PruneReport)
      → Every stale cs
      → Every (Removable stale held) report.removed
      → Every (Removable stale held) (prune_each disk held cs report).removed
  unfolding prune_each
  prune_each-Removable [] report s h = h
  prune_each-Removable (c ∷ cs) report s h =
      prune_each-Removable cs (prune_one disk held report c) s.1
        (hold_or_delete-Removable c report (held c.path) s.0 refl h)

module _ (disk : Disk) (root : FilePath) (roots : List FilePath)
    (entries : List (Text × List CacheEntry)) (installed : Text → Text) (keep : ℤ)
    (protect : Text → Text) where
  -- Every directory that the prune deletes belongs to a version in the cache that is neither
  -- installed nor protected, no symbolic link and not marked as orphaned, whose plugin has an
  -- installed or a protected version; and the process table has rows, none of which executes from
  -- the directory.
  pub prune_stale_versions-Deletable :
      (procs : List ProcExe)
      → Every
          (Deletable entries installed protect root roots procs)
          (prune_stale_versions disk root roots entries installed keep protect procs).removed
  unfolding prune_stale_versions
  prune_stale_versions-Deletable [] = tt
  prune_stale_versions-Deletable (p ∷ procs) =
      let held : FilePath → List ProcExe = λ dir. holders_of root roots dir (p ∷ procs) in
      let chosen = prune_candidates entries installed keep protect in
      Every-map (Removable (Chosen entries installed protect) held)
        (Deletable entries installed protect root roots (p ∷ procs)) _
        (λ path r. record {
          version = r.version;
          at = r.at;
          stale = Chosen-Stale entries installed protect r.version r.is_stale;
          known = refl;
          idle = holders_of-nil root roots path (p ∷ procs) r.unheld;
        })
        (prune_each-Removable disk held (Chosen entries installed protect) chosen empty_report
          (prune_candidates-Chosen installed protect keep entries) tt)
