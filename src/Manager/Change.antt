-- ===== src/Manager/Change.antt =====
-- manager/hahapent/engine.py: `_journal`, `_finish`, `_recover` and `_change`, the transaction by which
-- every installation, update, rollback and removal goes. The reports `operation` and `recovery` for the
-- interface are left out.
pub mod Frame
pub mod Finish
pub mod Torn
use hahapent.Base.{
  ℕ, Bool, true, false, not, ◌&&◌, ◌||◌, Option, none, some, List, [], ◌∷◌, ◌++◌, any_of, ◌==◌,
  if◌then◌else◌, Outcome, ok, err,
}
use hahapent.Base.Text.{Text, text_eq, same}
use hahapent.Manager.Storage.{
  invalid_settings, Tree, Files, Code, ownership_conflict, invalid_transaction, recovery_required,
  storage_failure, undeclared_native_dependency, ha_status_unavailable,
  remove_native_config_entries_first, invalid_registry,
}
use hahapent.Manager.Registry.{
  Dependency, Module, BaseEntry, Backup, Entry, Registry, Registry-discrete, Entry-discrete,
  dict_get, dict_set, dict_pop, Action, remove, Phase, prepared, staged, old_moved, new_moved,
  committed, Transaction, validate_registry,
}
use hahapent.Manager.Sources.{Settings, load_settings}
use hahapent.Manager.World.{
  Item, folder, Place, target, stage, hold, backup, World, Failure, manager_error, os_error, died,
  M, pure, raise, ◌>>=◌, ◌>>◌, lift, require, gets, ask, put, perform, atomic, exists, is_symlink,
  no_symlink, hash_tree, verify_tree, copy_owned, remove_owned, move,
}

-- The answer to `is_core_domain(...)`: True, False, or anything else.
pub data CoreDomain : Type 0 where
  core custom unclear : CoreDomain

-- What the engine asks of code that is not modelled: the JSON schemas, `repository_url`, and Home
-- Assistant, whose n-th answer may differ from the others.
pub record Site : Type 0 where
  pub valid_url : Text → Bool
  -- `repository_url(url).lower()` of a valid URL
  pub normal_url : Text → Text
  pub valid_transaction : Transaction → Bool
  pub valid_document : Registry → Bool
  pub valid_settings : Settings → Bool
  pub core_version : ℕ → Outcome Code (Option Text)
  pub is_core_domain : Text → ℕ → Outcome Code CoreDomain
  -- the number of entries, if the answer is a list
  pub config_entries : Text → ℕ → Outcome Code (Option ℕ)

-- What `extract_artifact` does with the empty stage: its tree and the domains that the manifest
-- depends on, or an error and what it leaves.
pub data Extraction : Type 0 where
  extracted : Tree → List Text → Extraction
  refused : Code → Option Item → Extraction

-- Where the code of a new entry comes from: a downloaded archive, or a backup with its files and what
-- is read from its manifest.
pub data Origin : Type 0 where
  artifact : Extraction → Origin
  saved : Text → Files → Outcome Code (List Text) → Origin

-- `module`, `source_id`, `repo`, and the origin; or a removal.
pub data Plan : Type 0 where
  installing : Module → Text → Text → Origin → Plan
  removing : Plan

pub data Recovered : Type 0 where
  clean finished rolled_back : Recovered

-- `_base_entry`
abbrev pub base_entry : Entry → BaseEntry
base_entry entry = entry.base

abbrev pub entry_files : Entry → Files
entry_files entry = entry.base.files

abbrev pub set_journal : Option Transaction → World → World
set_journal t w = record w { journal = t }

abbrev pub set_stored : Registry → World → World
set_stored r w = record w { stored = r }

abbrev pub set_registry : Registry → M (Unit {0})
set_registry r w = (ok tt, record w { registry = r })

module _ (site : Site) where
  -- `_journal`
  unfoldable pub write_journal : Transaction → Phase → M (Unit {0})
  write_journal t phase = do
    require (site.valid_transaction (record t { phase = phase })) invalid_transaction
    atomic (set_journal (some (record t { phase = phase })))

  -- `_load_state`
  unfoldable pub load_state : M (Unit {0})
  load_state = do
    s ← gets (λ w. w.settings)
    require (site.valid_settings s) invalid_settings
    r ← gets (λ w. w.stored)
    require (site.valid_document r) invalid_registry
    set_registry r
    lift (load_settings site.valid_url site.normal_url s)
    lift (validate_registry site.valid_url r)

-- `_remove_stage`
unfoldable pub remove_stage : Text → M (Unit {0})
remove_stage id w =
    if exists (w.items (stage id)) || is_symlink (w.items (stage id))
    then (hash_tree (stage id) >>= remove_owned (stage id)) w
    else (ok tt, w)

-- `journal_path.unlink()`
unlink_journal : Option Transaction → M (Unit {0})
unlink_journal none w = (err os_error, w)
unlink_journal (some t) w = atomic (set_journal none) w

unfoldable pub drop_journal : M (Unit {0})
unfolding unlink_journal
drop_journal w = unlink_journal w.journal w

unfoldable pub verify_after : Option Entry → Text → M (Unit {0})
verify_after (some entry) domain w = verify_tree (target domain) (entry_files entry) w
verify_after none domain w =
    require (not (exists (w.items (target domain)) || is_symlink (w.items (target domain))))
      recovery_required w

drop_held : Option Entry → Text → M (Unit {0})
drop_held none id = raise recovery_required
drop_held (some entry) id = remove_owned (hold id) (entry_files entry)

unfoldable pub drop_hold : Option Entry → Text → M (Unit {0})
unfolding drop_held
drop_hold old id w =
    if exists (w.items (hold id)) || is_symlink (w.items (hold id))
    then drop_held old id w
    else (ok tt, w)

-- `_finish`
unfoldable pub finish : Transaction → M (Unit {0})
unfolding verify_after drop_hold
finish t = do
  verify_after (dict_get t.domain t.after.installed) t.domain
  drop_hold (dict_get t.domain t.before.installed) t.transaction_id
  remove_stage t.transaction_id
  drop_journal

-- `after is None or after == before` is excluded, and the new tree is removed.
drop_target : Option Entry → Bool → Text → M (Unit {0})
drop_target none unchanged domain = raise recovery_required
drop_target (some entry) true domain = raise recovery_required
drop_target (some entry) false domain = remove_owned (target domain) (entry_files entry)

drop_new : Option Entry → Bool → Text → M (Unit {0})
unfolding drop_target
drop_new after unchanged domain w =
    if exists (w.items (target domain)) then drop_target after unchanged domain w else (ok tt, w)

restore_hold : Option Entry → Option Entry → Bool → Text → Text → M (Unit {0})
unfolding drop_new
restore_hold none after unchanged domain id = raise recovery_required
restore_hold (some before) after unchanged domain id = do
  verify_tree (hold id) (entry_files before)
  drop_new after unchanged domain
  move (hold id) (target domain)

keep_target : Option Entry → Option Entry → Text → M (Unit {0})
unfolding drop_new
keep_target (some before) after domain = verify_tree (target domain) (entry_files before)
keep_target none after domain = drop_new after false domain

-- The files as they were before.
unfoldable pub roll_back : Transaction → M (Unit {0})
unfolding restore_hold keep_target
roll_back t = do
  held ← gets (λ w. exists (w.items (hold t.transaction_id)))
  let before = dict_get t.domain t.before.installed
  let after = dict_get t.domain t.after.installed
  if held
      then restore_hold before after (same Entry-discrete after before) t.domain t.transaction_id
      else keep_target before after t.domain
  remove_stage t.transaction_id
  drop_journal

abbrev pub equal : Registry → Registry → Bool
equal = same Registry-discrete

-- The registry is the commit point.
unfoldable pub settle : Transaction → M Recovered
settle t = do
  r ← gets (λ w. w.registry)
  if equal r t.after && not (equal t.after t.before)
      then (finish t >> pure finished)
      else if equal r t.before
      then (roll_back t >> pure rolled_back)
      else raise recovery_required

unfoldable pub no_links : Text → Text → M (Unit {0})
no_links domain id = do no_symlink (target domain); no_symlink (stage id); no_symlink (hold id)

module _ (site : Site) where
  recover_from : Option Transaction → M Recovered
  unfolding no_links
  recover_from none = pure clean
  recover_from (some t) = do
    require (site.valid_transaction t) invalid_transaction
    lift (validate_registry site.valid_url t.before)
    lift (validate_registry site.valid_url t.after)
    no_links t.domain t.transaction_id
    settle t

  -- `_recover`
  unfoldable pub recover : M Recovered
  unfolding recover_from
  recover w = recover_from w.journal w
