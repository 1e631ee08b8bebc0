-- ===== src/Tests/Transactions.antt =====
-- Runs of the manager's transactions.
use native.Mathlib.Decide.{ℕ_discrete}
use hahapent.Base.{
  ap, not, ◌||◌, ◌++◌, replicate, ◌≡◌, refl, true, false, none, some, List, [], ◌∷◌, ok, err,
  if◌then◌else◌,
}
use hahapent.Base.Text.{Text, codes, text_eq, same, text_lt}
use hahapent.Manager.Storage.{
  recovery_required, Tree, regular, Code, hash_nodes, tally, without_caches,
}
use hahapent.Manager.Registry.{
  Module, Entry, Registry, Transaction, install, prepared, committed, remove, dict_get, dict_set,
  dict_pop, validate_registry, Registry-discrete,
}
use hahapent.Manager.Sources.{Settings}
use hahapent.Manager.World.{
  hold, stage, exists, is_symlink, require, manager_error, folder, target, place_eq, Fault,
  complete, interrupted, World, ◌>>=◌, perform, act, hash_tree, move, verify_tree, Files-discrete,
  copy_owned, remove_owned,
}
use hahapent.Manager.Change.{
  verify_after, Site, extracted, artifact, Plan, installing, custom, recover, write_journal, finish,
  remove_stage, drop_journal, load_state,
}
use hahapent.Manager.Apply.{change, check_target, swap, registry_after, require_no_config_entries}
use hahapent.Manager.Change.Torn.{IsTorn}
use hahapent.Manager.Actions.Torn.{
  install_request, remove_request, run_request, run_requests, recover-torn,
}
use hahapent.Manager.Apply.Success.{Done, change-ok}
use hahapent.Manager.Actions.{remove_module, depends_on}
use hahapent.Manager.Actions.Removal.{AskedTwice, remove_module-ok}
use hahapent.Manager.Apply.Commit.{change-elsewhere, IsForeign}

-- A site that accepts everything, with no core domain and no config entries.
abbrev easy : Site
easy = record {
  valid_url = λ url. true;
  normal_url = λ url. url;
  valid_transaction = λ t. true;
  valid_settings = λ s. true;
  valid_document = λ r. true;
  core_version = λ n. ok (some (codes "2025.1.0"));
  is_core_domain = λ domain n. ok custom;
  config_entries = λ domain n. ok (some 0);
}

abbrev lamp_module : Module
lamp_module = record {
  id = codes "lamp";
  version = codes "1.0.0";
  integration_domain = codes "lamp";
  home_assistant = record { min_version = codes "2024.1"; max_version_exclusive = none };
  dependencies = [];
  artifact_url = codes "https://x";
  restart = true;
  minimum_manager_version = none;
  required_features = [];
}

abbrev lamp_tree : Tree
lamp_tree = record { parts = codes "a.py" ∷ []; kind = regular 1 (codes "00") } ∷ []

abbrev lamp_plan : Plan
lamp_plan = installing lamp_module (codes "s") (codes "r") (artifact (extracted lamp_tree []))

abbrev empty : Registry
empty = record { installed = []; removed = [] }

abbrev no_sources : Settings
no_sources = record { extra_repositories = []; test_mode = false }

-- Only another integration is there; the disk does as `faults` say.
abbrev home : List Fault → World
home faults = record {
  items = λ p. if place_eq p (target (codes "other")) then some (folder lamp_tree) else none;
  journal = none;
  settings = no_sources;
  stored = empty;
  registry = empty;
  faults = faults;
  calls = 0;
}

abbrev run : List Fault → World
run faults =
    (change easy (codes "t") (codes "now") (codes "lamp") install lamp_plan (home faults)).1

-- The commit is cut off by a full disk.
abbrev full_disk : List Fault
full_disk =
    complete
    ∷ complete
    ∷ complete
    ∷ complete
    ∷ complete
    ∷ complete
    ∷ complete
    ∷ interrupted false false none
    ∷ []

abbrev journalled : World
journalled = record (home []) {
  journal = some (record {
    transaction_id = codes "t";
    domain = codes "lamp";
    operation = install;
    phase = prepared;
    before = empty;
    after = empty;
  });
}

foreign : IsForeign (codes "lamp") (codes "t") (target (codes "other"))
unfolding place_eq text_eq
foreign = record { other_target = refl; other_stage = refl; other_hold = refl; other_backup = refl }

change-elsewhere_example :
    (run full_disk).items (target (codes "other")) ≡ (home full_disk).items (target (codes "other"))
change-elsewhere_example =
    change-elsewhere easy (codes "t") (codes "now") (codes "lamp") install lamp_plan
      (home full_disk) (target (codes "other")) refl foreign

installs :
    (change easy (codes "t") (codes "now") (codes "lamp") install lamp_plan (home [])).0 ≡ ok tt
unfolding change ◌>>=◌ perform act place_eq text_eq write_journal hash_tree hash_nodes tally
    dict_get check_target swap move finish dict_set verify_tree same text_lt registry_after dict_pop
    remove_stage drop_journal Files-discrete ℕ_discrete
installs = refl

change-ok_example : Done lamp_plan (codes "t") (codes "now") (codes "lamp") empty (run [])
change-ok_example =
    change-ok easy (codes "t") (codes "now") (codes "lamp") install lamp_plan (home []) installs

-- The lamp is installed.
abbrev lamp_entry : Entry
lamp_entry = record {
  base = record {
    source_id = codes "s";
    repository_url = codes "r";
    mod_ = lamp_module;
    files = (codes "a.py", codes "00") ∷ [];
    installed_at = codes "then";
    transaction_id = codes "u";
    restart_pending = true;
    extensions = [];
  };
  previous = none;
}

abbrev with_lamp : Registry
with_lamp = record { installed = (codes "lamp", lamp_entry) ∷ []; removed = [] }

abbrev furnished : World
furnished = record {
  items = λ p. if place_eq p (target (codes "lamp")) then some (folder lamp_tree) else none;
  journal = none;
  settings = no_sources;
  stored = with_lamp;
  registry = empty;
  faults = [];
  calls = 0;
}

removes : (remove_module easy (codes "t") (codes "now") (codes "lamp") true furnished).0 ≡ ok tt
unfolding remove_module change ◌>>=◌ perform act place_eq text_eq write_journal hash_tree hash_nodes
    tally dict_get check_target swap move finish dict_set verify_tree same text_lt registry_after
    dict_pop remove_stage drop_journal Files-discrete ℕ_discrete load_state validate_registry
    recover require_no_config_entries depends_on copy_owned without_caches remove_owned
    hahapent.Manager.Sources.load_settings
removes = refl

remove_module-ok_example :
    (true ≡ true)
    × AskedTwice easy
        (codes "lamp")
        0
        (remove_module easy (codes "t") (codes "now") (codes "lamp") true furnished).1.calls
remove_module-ok_example =
    remove_module-ok easy (codes "lamp") (codes "t") (codes "now") true furnished removes

-- The process dies while `remove` deletes the old files, one operation after the commit.
abbrev cut_off : List Fault
cut_off = replicate 15 complete ++ interrupted true false (some (folder [])) ∷ []

abbrev wreck : World
wreck =
    (remove_module easy (codes "t") (codes "now") (codes "lamp") true
      (record furnished { faults = cut_off })).1

tears : wreck.items (hold (codes "t")) ≡ some (folder [])
unfolding remove_module change ◌>>=◌ perform act place_eq text_eq write_journal hash_tree hash_nodes
    tally dict_get check_target swap move finish dict_set verify_tree same text_lt registry_after
    dict_pop remove_stage drop_journal Files-discrete ℕ_discrete load_state validate_registry
    recover require_no_config_entries depends_on copy_owned without_caches remove_owned
    hahapent.Manager.Sources.load_settings
tears = refl

commits : wreck.stored.installed ≡ []
unfolding remove_module change ◌>>=◌ perform act place_eq text_eq write_journal hash_tree hash_nodes
    tally dict_get check_target swap move finish dict_set verify_tree same text_lt registry_after
    dict_pop remove_stage drop_journal Files-discrete ℕ_discrete load_state validate_registry
    recover require_no_config_entries depends_on copy_owned without_caches remove_owned
    hahapent.Manager.Sources.load_settings
commits = refl

-- The journal that it leaves.
abbrev removal : Transaction
removal = record {
  transaction_id = codes "t";
  domain = codes "lamp";
  operation = remove;
  phase = committed;
  before = with_lamp;
  after = record {
    installed = [];
    removed =
        (
          codes "lamp",
          record { backup_id = codes "t"; entry = lamp_entry.base; restart_pending = some true },
        )
        ∷ [];
  };
}

wreck_journal : wreck.journal ≡ some removal
unfolding remove_module change ◌>>=◌ perform act place_eq text_eq write_journal hash_tree hash_nodes
    tally dict_get check_target swap move finish dict_set verify_tree same text_lt registry_after
    dict_pop remove_stage drop_journal Files-discrete ℕ_discrete load_state validate_registry
    recover require_no_config_entries depends_on copy_owned without_caches remove_owned
    hahapent.Manager.Sources.load_settings
wreck_journal = refl

wreck_faults : wreck.faults ≡ []
unfolding remove_module change ◌>>=◌ perform act place_eq text_eq write_journal hash_tree hash_nodes
    tally dict_get check_target swap move finish dict_set verify_tree same text_lt registry_after
    dict_pop remove_stage drop_journal Files-discrete ℕ_discrete load_state validate_registry
    recover require_no_config_entries depends_on copy_owned without_caches remove_owned
    hahapent.Manager.Sources.load_settings
wreck_faults = refl

wreck_target : wreck.items (target (codes "lamp")) ≡ none
unfolding remove_module change ◌>>=◌ perform act place_eq text_eq write_journal hash_tree hash_nodes
    tally dict_get check_target swap move finish dict_set verify_tree same text_lt registry_after
    dict_pop remove_stage drop_journal Files-discrete ℕ_discrete load_state validate_registry
    recover require_no_config_entries depends_on copy_owned without_caches remove_owned
    hahapent.Manager.Sources.load_settings
wreck_target = refl

wreck_stage : wreck.items (stage (codes "t")) ≡ none
unfolding remove_module change ◌>>=◌ perform act place_eq text_eq write_journal hash_tree hash_nodes
    tally dict_get check_target swap move finish dict_set verify_tree same text_lt registry_after
    dict_pop remove_stage drop_journal Files-discrete ℕ_discrete load_state validate_registry
    recover require_no_config_entries depends_on copy_owned without_caches remove_owned
    hahapent.Manager.Sources.load_settings
wreck_stage = refl

wreck_stored : wreck.stored ≡ removal.after
unfolding remove_module change ◌>>=◌ perform act place_eq text_eq write_journal hash_tree hash_nodes
    tally dict_get check_target swap move finish dict_set verify_tree same text_lt registry_after
    dict_pop remove_stage drop_journal Files-discrete ℕ_discrete load_state validate_registry
    recover require_no_config_entries depends_on copy_owned without_caches remove_owned
    hahapent.Manager.Sources.load_settings
wreck_stored = refl

nothing_there :
    (domain : Text) (w : World)
    → w.items (target domain) ≡ none
    → verify_after none domain w ≡ (ok tt, w)
unfolding verify_after
nothing_there domain w h =
    ap (λ item. require (not (exists item || is_symlink item)) recovery_required w) h

torn : IsTorn easy removal lamp_entry [] wreck
unfolding text_eq validate_registry dict_get same hash_nodes Registry-discrete
torn = record {
  in_journal = wreck_journal;
  is_valid = refl;
  valid_before = refl;
  valid_after = refl;
  plain_target = ap is_symlink wreck_target;
  plain_stage = ap is_symlink wreck_stage;
  is_committed = wreck_stored;
  is_change = refl;
  new_is_there = λ r. nothing_there (codes "lamp") (record wreck { registry = r }) wreck_target;
  had_old = refl;
  is_left = tears;
  no_faults = wreck_faults;
  is_part = λ h. absurd cc;
}

-- Another removal, and then an installation.
recover-torn_example :
    (code : Code) × (r : Registry) × (run_request easy
        (install_request []
          (codes "v")
          (codes "later")
          (codes "s")
          (codes "lamp")
          (codes "1")
          (ok (extracted lamp_tree [])))
        (run_requests easy
          (remove_request (codes "x") (codes "later") (codes "lamp") true ∷ [])
          wreck)
      ≡ (err (manager_error code), record wreck { registry = r }))
recover-torn_example =
    recover-torn easy removal lamp_entry [] wreck torn
      (remove_request (codes "x") (codes "later") (codes "lamp") true ∷ [])
      (install_request [] (codes "v") (codes "later") (codes "s") (codes "lamp") (codes "1")
        (ok (extracted lamp_tree [])))
