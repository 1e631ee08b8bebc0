-- ===== src/Manager/Actions.antt =====
-- manager/hahapent/engine.py: the public operations `install`, `rollback` and `remove` with all their
-- checks. The lock around them (`_serialized`), the answer `status()` and the reports for the interface
-- are left out.
pub mod Removal
pub mod Torn
use hahapent.Base.{
  ℕ, Bool, true, false, not, ◌&&◌, ◌||◌, Option, none, some, List, [], ◌∷◌, all_of, any_of, filter,
  ◌==◌, if◌then◌else◌, Outcome, ok, err,
}
use hahapent.Base.Text.{Text, text_eq, codes}
use hahapent.Manager.Storage.{
  Files, Code, ownership_conflict, storage_failure, ha_status_unavailable, ha_version_incompatible,
  core_ownership_conflict, dependency_unmet, installed_dependent_conflict, already_installed,
  rollback_unavailable, removal_confirmation_required, module_not_installed, source_unavailable,
  module_version_unavailable, manager_upgrade_required, unsupported_required_feature,
}
use hahapent.Manager.Versions.{SemverKey, semver_key, semver_lt, compatible}
use hahapent.Manager.Registry.{
  Dependency, Module, BaseEntry, Backup, Entry, Registry, dict_get, Action, install, update,
  rollback, remove,
}
use hahapent.Manager.World.{
  target, backup, World, Failure, manager_error, os_error, died, M, pure, raise, ◌>>=◌, ◌>>◌, lift,
  require, gets, ask, verify_tree,
}
use hahapent.Manager.Change.{
  CoreDomain, core, custom, unclear, Site, Extraction, artifact, saved, installing, removing,
  load_state, recover,
}
use hahapent.Manager.Catalog.{Catalog, module_features, resolve}
use hahapent.Manager.Apply.{check_target, require_no_config_entries, change}

own_domain : CoreDomain → M (Unit {0})
own_domain custom = pure tt
own_domain core = raise core_ownership_conflict
own_domain unclear = raise ha_status_unavailable

abbrev pub values : List (Text × Entry) → List Entry
values [] = []
values ((domain, entry) ∷ rest) = entry ∷ values rest

-- The entry that a dependency names.
unfoldable pub fulfils : Dependency → Entry → Bool
fulfils d entry =
    text_eq entry.base.source_id d.source_id
    && (text_eq entry.base.mod_.id d.module_id && text_eq entry.base.mod_.version d.version)

abbrev domain_of : Entry → Text
domain_of entry = entry.base.mod_.integration_domain

only_match : List Entry → Text → M Entry
only_match (entry ∷ []) replacing w =
    if text_eq (domain_of entry) replacing
    then (err (manager_error dependency_unmet), w)
    else (ok entry, w)
only_match [] replacing w = (err (manager_error dependency_unmet), w)
only_match (entry ∷ (other ∷ rest)) replacing w = (err (manager_error dependency_unmet), w)

-- An installed module depends on another version of the module that is replaced.
unfoldable pub breaks : Module → Option Entry → Dependency → Bool
breaks m none d = false
breaks m (some current) d =
    (text_eq d.module_id m.id && not (text_eq d.version m.version))
    && text_eq d.source_id current.base.source_id

unfoldable pub is_broken_by : Module → Text → Option Entry → Entry → Bool
unfolding breaks
is_broken_by m replacing current entry =
    not (text_eq (domain_of entry) replacing)
    && any_of (breaks m current) entry.base.mod_.dependencies

-- An installed module that depends on the entry.
unfoldable pub depends_on : Entry → Entry → Bool
depends_on current entry =
    any_of
      (λ d. text_eq d.source_id current.base.source_id && text_eq d.module_id current.base.mod_.id)
      entry.base.mod_.dependencies

same_module : Text → Text → Option Entry → M (Unit {0})
same_module id version none = pure tt
same_module id version (some current) = do
  require (text_eq current.base.mod_.id id) ownership_conflict
  require (not (text_eq current.base.mod_.version version)) already_installed

abbrev action_for : Option Entry → Action
action_for none = install
action_for (some current) = update

-- `current.get("previous") if current else self.registry["removed"].get(domain)`
abbrev previous_of : Option Entry → Option Backup → Option Backup
previous_of none kept = kept
previous_of (some current) kept = current.previous

abbrev pub or_raise : {A : Type 0} → Code → Option A → M A
or_raise code none = raise code
or_raise code (some a) = pure a

-- `except OSError: raise ManagerError("storage_failure")`
abbrev os_errors_named : Outcome Failure (Unit {0}) × World → Outcome Failure (Unit {0}) × World
os_errors_named (ok done, w) = (ok done, w)
os_errors_named (err (manager_error code), w) = (err (manager_error code), w)
os_errors_named (err os_error, w) = (err (manager_error storage_failure), w)
os_errors_named (err died, w) = (err died, w)

module _ (site : Site) where
  unfoldable pub start : M (Unit {0})
  start = do load_state site; recover site >>= λ result. pure tt

  -- `_check_compatibility`
  unfoldable pub check_compatibility : Module → M (Unit {0})
  unfolding own_domain
  check_compatibility m = do
    version ← ask site.core_version >>= lift
    require (compatible m.home_assistant version) ha_version_incompatible
    answer ← ask (site.is_core_domain m.integration_domain) >>= lift
    own_domain answer
    module_features m

  -- The first loop of `_check_dependencies`.
  unfoldable pub met : Text → List Dependency → M (Unit {0})
  unfolding only_match
  met replacing [] = pure tt
  met replacing (d ∷ rest) = do
    r ← gets (λ w. w.registry)
    entry ← only_match (filter (fulfils d) (values r.installed)) replacing
    check_compatibility entry.base.mod_
    verify_tree (target (domain_of entry)) entry.base.files
    met replacing rest

  -- `_check_dependencies`
  unfoldable pub check_dependencies : Module → Text → M (Unit {0})
  unfolding met
  check_dependencies m replacing = do
    met replacing m.dependencies
    r ← gets (λ w. w.registry)
    require
        (not
          (any_of (is_broken_by m replacing (dict_get replacing r.installed)) (values r.installed)))
        installed_dependent_conflict

  -- `install`; `fetched` is what the download gives, with what its extraction will do.
  unfoldable pub install_module :
      List (Text × Catalog)
      → Text
      → Text
      → Text
      → Text
      → Text
      → Outcome Code Extraction
      → M (Unit {0})
  unfolding start same_module
  install_module catalogs id now source_id module_id version fetched = do
    start
    (m, repo) ← resolve catalogs source_id module_id version
    check_compatibility m
    current ← check_target site m.integration_domain (some (source_id, repo))
    same_module module_id version current
    check_dependencies m m.integration_domain
    content ← lift fetched
    (λ w. os_errors_named (
        change site id now m.integration_domain (action_for current)
          (installing m source_id repo (artifact content)) w))

  -- `rollback`; `manifest` is what reading the manifest of the copy gives.
  unfoldable pub rollback_module : Text → Text → Text → Outcome Code (List Text) → M (Unit {0})
  unfolding start
  rollback_module id now domain manifest = do
    start
    r ← gets (λ w. w.registry)
    previous ←
        or_raise rollback_unavailable
          (previous_of (dict_get domain r.installed) (dict_get domain r.removed))
    current ← check_target site domain none
    let entry = previous.entry
    check_compatibility entry.mod_
    check_dependencies entry.mod_ domain
    verify_tree (backup previous.backup_id) entry.files
    change site id now domain rollback (
        installing entry.mod_ entry.source_id entry.repository_url
          (saved previous.backup_id entry.files manifest))

  -- `remove`
  unfoldable pub remove_module : Text → Text → Text → Bool → M (Unit {0})
  unfolding start
  remove_module id now domain confirmed = do
    require confirmed removal_confirmation_required
    start
    r ← gets (λ w. w.registry)
    entry ← or_raise module_not_installed (dict_get domain r.installed)
    current ← check_target site domain none
    require_no_config_entries site domain
    require (not (any_of (depends_on entry) (values r.installed))) installed_dependent_conflict
    change site id now domain remove removing
