-- ===== src/Manager/Registry.antt =====
-- manager/hahapent/engine.py: the persisted documents, and the checks that follow their schemas.
-- Dicts are kept in the order of their keys, so that equal dicts are equal lists.
use hahapent.Base.{
  Bool, false, not, ◌||◌, Option, none, some, List, [], ◌∷◌, all_of, any_of, ◌==◌, if◌then◌else◌,
  Outcome, ok, ensure, ◌>>◌,
}
use hahapent.Base.Text.{Text, text_eq, text_lt, codes}
use native.Mathlib.Decide.{ℕ_discrete}
use hahapent.Manager.Storage.{Files, Code, invalid_registry, invalid_repository}
use hahapent.Manager.Versions.{Compatibility, split}

pub record Dependency : Type 0 where
  pub source_id : Text
  pub module_id : Text
  pub version : Text

-- The fields of a catalog's module that the manager reads.
pub record Module : Type 0 where
  pub id : Text
  pub version : Text
  pub integration_domain : Text
  pub home_assistant : Compatibility
  pub dependencies : List Dependency
  pub artifact_url : Text
  -- `restart["home_assistant"] != "not_required"`
  pub restart : Bool
  pub minimum_manager_version : Option Text
  pub required_features : List Text

-- An entry without `previous`.
pub record BaseEntry : Type 0 where
  pub source_id : Text
  pub repository_url : Text
  pub mod_ : Module
  pub files : Files
  pub installed_at : Text
  pub transaction_id : Text
  pub restart_pending : Bool
  pub extensions : List (Text × Text)

pub record Backup : Type 0 where
  pub backup_id : Text
  pub entry : BaseEntry
  pub restart_pending : Option Bool

pub record Entry : Type 0 where
  pub base : BaseEntry
  pub previous : Option Backup

module _ {ℓ} {V : Type ℓ} where
  -- `d.get(k)`
  unfoldable pub dict_get : Text → List (Text × V) → Option V
  dict_get k [] = none
  dict_get k ((j, v) ∷ rest) = if text_eq j k then some v else dict_get k rest

  -- `d[k] = v`
  unfoldable pub dict_set : Text → V → List (Text × V) → List (Text × V)
  dict_set k v [] = (k, v) ∷ []
  dict_set k v ((j, w) ∷ rest) =
      if text_eq j k
      then (k, v) ∷ rest
      else if text_lt k j
      then (k, v) ∷ (j, w) ∷ rest
      else (j, w) ∷ dict_set k v rest

  -- `del d[k]`, `d.pop(k, None)`
  unfoldable pub dict_pop : Text → List (Text × V) → List (Text × V)
  dict_pop k [] = []
  dict_pop k ((j, w) ∷ rest) = if text_eq j k then dict_pop k rest else (j, w) ∷ dict_pop k rest

pub record Registry : Type 0 where
  pub installed : List (Text × Entry)
  pub removed : List (Text × Backup)

unfoldable pub Entry-discrete : Discrete (Option Entry)
Entry-discrete = hlevel ℕ_discrete

unfoldable pub Registry-discrete : Discrete Registry
Registry-discrete = hlevel ℕ_discrete

-- `transaction["operation"]`
pub data Action : Type 0 where
  install update rollback remove : Action

pub data Phase : Type 0 where
  prepared staged old_moved new_moved committed : Phase

pub record Transaction : Type 0 where
  pub transaction_id : Text
  pub domain : Text
  pub operation : Action
  pub phase : Phase
  pub before : Registry
  pub after : Registry

abbrev is_dots : Text → Bool
is_dots p = text_eq p [] || (text_eq p (codes ".") || text_eq p (codes ".."))

-- `name.rstrip("/")`
unfoldable pub strip_slashes : Text → Text
strip_slashes [] = []
strip_slashes (c ∷ cs) =
    let rest = strip_slashes cs in
    elim rest [ [] ↦ if c == b'/' then [] else c ∷ [] | d ∷ ds ↦ c ∷ d ∷ ds ]

abbrev starts_with_slash : Text → Bool
starts_with_slash [] = false
starts_with_slash (c ∷ cs) = c == b'/'

-- One round of `_validate_files`.
unfoldable pub is_safe_name : Text → Bool
unfolding strip_slashes split
is_safe_name name = not (starts_with_slash name || any_of is_dots (split b'/' (strip_slashes name)))

unfoldable pub check_each {ℓ} :
    {A : Type ℓ} → (A → Outcome Code (Unit {0})) → List A → Outcome Code (Unit {0})
check_each check [] = ok tt
check_each check (a ∷ as_) = check a >> check_each check as_

-- `_validate_files`
unfoldable pub check_files : Files → Outcome Code (Unit {0})
unfolding is_safe_name
check_files files = ensure (all_of (λ (name, digest). is_safe_name name) files) invalid_registry

-- `_validate_backup`
unfoldable pub check_backup : Text → Backup → Outcome Code (Unit {0})
unfolding check_files
check_backup domain backup = do
  ensure (text_eq backup.entry.mod_.integration_domain domain) invalid_registry
  check_files backup.entry.files

abbrev check_previous : Text → Option Backup → Outcome Code (Unit {0})
check_previous domain none = ok tt
check_previous domain (some backup) = check_backup domain backup

module _ (valid_url : Text → Bool) where
  unfoldable pub check_entry : Text → Entry → Outcome Code (Unit {0})
  unfolding check_files check_backup
  check_entry domain entry = do
    ensure (text_eq entry.base.mod_.integration_domain domain) invalid_registry
    ensure (valid_url entry.base.repository_url) invalid_repository
    check_files entry.base.files
    check_previous domain entry.previous

  -- `_validate_registry`; `valid_url` is whether `repository_url` accepts a text.
  unfoldable pub validate_registry : Registry → Outcome Code (Unit {0})
  unfolding check_entry check_each
  validate_registry registry = do
    check_each (λ (domain, entry). check_entry domain entry) registry.installed
    check_each (λ (domain, backup). check_backup domain backup) registry.removed
