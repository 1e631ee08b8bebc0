-- ===== src/Manager/Apply.antt =====
-- manager/hahapent/engine.py: `_change`, by which every installation, update, rollback and removal goes,
-- and the checks before it. The reports `operation` and `recovery` for the interface are left out.
pub mod Frame
pub mod Result
pub mod Atomic
pub mod Commit
pub mod Success
use hahapent.Base.{
  ℕ, Bool, true, false, not, ◌&&◌, ◌||◌, Option, none, some, List, [], ◌∷◌, ◌++◌, any_of, ◌==◌,
  if◌then◌else◌, Outcome, ok, err,
}
use hahapent.Base.Text.{Text, text_eq, same}
use hahapent.Manager.Storage.{
  Tree, Files, Code, ownership_conflict, transaction_path_conflict, recovery_required,
  storage_failure, undeclared_native_dependency, ha_status_unavailable,
  remove_native_config_entries_first, invalid_registry,
}
use hahapent.Manager.Registry.{
  Dependency, Module, BaseEntry, Backup, Entry, Registry, dict_get, dict_set, dict_pop, Action,
  remove, Phase, prepared, staged, old_moved, new_moved, committed, Transaction,
}
use hahapent.Manager.World.{
  Item, folder, Place, target, stage, hold, backup, World, Failure, manager_error, os_error, died,
  M, pure, raise, ◌>>=◌, ◌>>◌, lift, require, gets, ask, put, perform, atomic, exists, is_symlink,
  no_symlink, hash_tree, verify_tree, copy_owned, move,
}
use hahapent.Manager.Change.{
  CoreDomain, core, custom, unclear, Site, Extraction, extracted, refused, Origin, artifact, saved,
  Plan, installing, removing, entry_files, set_stored, set_registry, write_journal, load_state,
  finish, no_links, recover,
}

abbrev is_core : CoreDomain → Bool
is_core core = true
is_core custom = false
is_core unclear = false

-- The entry is there, and the module declares a dependency on it.
abbrev declared : List Dependency → Option Entry → Bool
declared dependencies none = false
declared dependencies (some entry) =
    any_of (λ d. text_eq d.source_id entry.base.source_id && text_eq d.module_id entry.base.mod_.id)
      dependencies

abbrev pub no_entries : Option ℕ → M (Unit {0})
no_entries none = raise ha_status_unavailable
no_entries (some n) = require (n == 0) remove_native_config_entries_first

same_source : (Text → Text) → Option (Text × Text) → BaseEntry → Bool
same_source normal none entry = true
same_source normal (some (source_id, url)) entry =
    text_eq entry.source_id source_id && text_eq (normal entry.repository_url) (normal url)

abbrev check_current : (Text → Text) → Text → Option (Text × Text) → Option Entry → M (Unit {0})
check_current normal domain source none w =
    require (not (exists (w.items (target domain)))) ownership_conflict w
check_current normal domain source (some entry) w =
    (require (same_source normal source entry.base) ownership_conflict
        >> verify_tree (target domain) (entry_files entry))
      w

module _ (site : Site) where
  -- `_check_native_dependencies`
  native : Module → List Text → M (Unit {0})
  native m [] = pure tt
  native m (domain ∷ rest) = do
    answer ← ask (site.is_core_domain domain)
    found ← lift answer
    installed ← gets (λ w. dict_get domain w.registry.installed)
    require (is_core found || declared m.dependencies installed) undeclared_native_dependency
    native m rest

  -- The new tree in the stage.
  pub fill_stage : Text → Module → Origin → M (Unit {0})
  unfolding native
  fill_stage id m (saved backup_id files manifest) = do
    copy_owned (backup backup_id) (stage id) files
    domains ← lift manifest
    native m domains
  fill_stage id m (artifact (extracted tree domains)) = do
    perform (put (stage id) (some (folder []))) (λ left w. w)
    perform (put (stage id) (some (folder tree))) (put (stage id))
    native m domains
  fill_stage id m (artifact (refused code left)) = do
    perform (put (stage id) (some (folder []))) (λ left w. w)
    perform (put (stage id) left) (put (stage id))
    raise code

  -- `_check_target`; the source is compared if one is given.
  unfoldable pub check_target : Text → Option (Text × Text) → M (Option Entry)
  unfolding same_source
  check_target domain source = do
    no_symlink (target domain)
    current ← gets (λ w. dict_get domain w.registry.installed)
    check_current site.normal_url domain source current
    pure current

  -- `_require_no_config_entries`
  unfoldable pub require_no_config_entries : Text → M (Unit {0})
  require_no_config_entries domain =
      ask (site.config_entries domain) >>= λ answer. (lift answer >>= no_entries)

-- `restart_pending` and `extensions` of a new entry.
abbrev pub old_extensions : Option Entry → List (Text × Text)
old_extensions none = []
old_extensions (some entry) = entry.base.extensions

-- The copy of the current files, as the `previous` of a new entry.
unfoldable pub back_up : Option Entry → Text → Text → M (Option Backup)
back_up none domain id = pure none
back_up (some entry) domain id = do
  copy_owned (target domain) (backup id) (entry_files entry)
  pure (some (record { backup_id = id; entry = entry.base; restart_pending = none }))

-- `transaction["after"]`; `del` of a missing domain is a KeyError.
unfoldable pub registry_after :
    Text → Option BaseEntry → Option Backup → Registry → Outcome Failure Registry
registry_after domain none none before = err died
registry_after domain none (some previous) before = ok (record {
  installed = dict_pop domain before.installed;
  removed = dict_set domain (record previous { restart_pending = some true }) before.removed;
})
registry_after domain (some entry) previous before = ok (record {
  installed = dict_set domain (record { base = entry; previous = previous }) before.installed;
  removed = dict_pop domain before.removed;
})

abbrev pub resulting : {A : Type 0} → Outcome Failure A → M A
resulting r w = (r, w)

abbrev pub plan_source : Plan → Option (Text × Text)
plan_source removing = none
plan_source (installing m source_id repo origin) = some (source_id, repo)

hold_old : Option Entry → Text → Text → M (Unit {0})
hold_old none domain id = pure tt
hold_old (some entry) domain id = move (target domain) (hold id)

place_new : Plan → Text → Text → M (Unit {0})
place_new removing domain id = pure tt
place_new (installing m source_id repo origin) domain id = move (stage id) (target domain)

abbrev failure_code : Failure → Code
failure_code (manager_error code) = code
failure_code _ = storage_failure

-- What becomes of the error, after the end of the recovery.
unfoldable pub reported :
    {A : Type 0} → Code → Outcome Failure A × World → Outcome Failure (Unit {0}) × World
reported code (ok done, w) = (err (manager_error code), w)
reported code (err died, w) = (err died, w)
reported code (err e, w) = (err (manager_error recovery_required), w)

module _ (site : Site) where
  unfoldable pub recheck : Action → Text → M (Unit {0})
  recheck remove domain = require_no_config_entries site domain
  recheck action domain = pure tt

  -- The entry of the new code, from the stage.
  unfoldable pub stage_new : Text → Text → Option Entry → Plan → M (Option BaseEntry)
  unfolding fill_stage
  stage_new id now current removing = pure none
  stage_new id now current (installing m source_id repo origin) = do
    fill_stage site id m origin
    files ← hash_tree (stage id)
    atomic (λ w. w)
    pure (
        some (record {
          source_id = source_id;
          repository_url = repo;
          mod_ = m;
          files = files;
          installed_at = now;
          transaction_id = id;
          restart_pending = m.restart;
          extensions = old_extensions current;
        }))

  -- The part of the body from the first rename on.
  unfoldable pub swap : Option Entry → Plan → Transaction → M (Unit {0})
  unfolding hold_old place_new
  swap current plan t = do
    hold_old current t.domain t.transaction_id
    write_journal site t old_moved
    place_new plan t.domain t.transaction_id
    write_journal site t new_moved
    atomic (set_stored t.after)
    set_registry t.after
    write_journal site t committed
    finish t

  -- The body of the `try`.
  unfoldable pub change_body : Plan → Text → Option Entry → Transaction → M (Unit {0})
  unfolding back_up registry_after stage_new recheck
  change_body plan now current t = do
    write_journal site t prepared
    entry ← stage_new t.transaction_id now current plan
    previous ← back_up current t.domain t.transaction_id
    after ← resulting (registry_after t.domain entry previous t.before)
    require (site.valid_document after) invalid_registry
    write_journal site (record t { after = after }) staged
    found ← check_target site t.domain (plan_source plan)
    recheck t.operation t.domain
    swap current plan (record t { after = after })

  -- The handler: recovery, and the error's code.
  unfoldable pub handled : Outcome Failure (Unit {0}) × World → Outcome Failure (Unit {0}) × World
  handled (ok done, w) = (ok done, w)
  handled (err died, w) = (err died, w)
  handled (err e, w) = reported (failure_code e) ((load_state site >> recover site) w)

  -- `_change` after its first lines; the transaction is made here.
  unfoldable pub attempt : Text → Text → Text → Action → Plan → Registry → M (Unit {0})
  unfolding change_body handled no_links
  attempt id now domain action plan before = do
    no_links domain id
    present ← gets (λ w. exists (w.items (stage id)) || exists (w.items (hold id)))
    require (not present) transaction_path_conflict
    (λ w. handled (
        change_body plan now (dict_get domain before.installed)
          (record {
            transaction_id = id;
            domain = domain;
            operation = action;
            phase = prepared;
            before = before;
            after = before;
          })
          w))

  -- `_change`, with the identity and the time that it makes.
  unfoldable pub change : Text → Text → Text → Action → Plan → M (Unit {0})
  unfolding attempt
  change id now domain action plan = do
    atomic (λ w. w)
    before ← gets (λ w. w.registry)
    attempt id now domain action plan before
