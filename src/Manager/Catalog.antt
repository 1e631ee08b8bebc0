-- ===== src/Manager/Catalog.antt =====
-- manager/hahapent/catalog.py: `require_features`; and engine.py: how `_resolve` finds a module in the
-- loaded catalogs.
use hahapent.Base.{
  Bool, not, ◌&&◌, Option, none, some, List, [], ◌∷◌, all_of, any_of, if◌then◌else◌, ok, err,
}
use hahapent.Base.Text.{Text, text_eq, codes}
use hahapent.Manager.Storage.{
  source_unavailable, module_version_unavailable, manager_upgrade_required,
  unsupported_required_feature,
}
use hahapent.Manager.Versions.{SemverKey, semver_key, semver_lt}
use hahapent.Manager.Registry.{Module, dict_get}
use hahapent.Manager.World.{died, M, pure, raise, ◌>>=◌, ◌>>◌, require}

-- `__version__`
abbrev pub manager_version : Text
manager_version = codes "0.1.2"

abbrev pub features : List Text
features = codes "versioned-artifacts" ∷ codes "exact-dependencies" ∷ codes "pending-license" ∷ []

abbrev or_default : Option Text → Text
or_default none = codes "0.1.0"
or_default (some version) = version

abbrev contains : List Text → Text → Bool
contains words word = any_of (λ w. text_eq w word) words

-- `a > b` of two keys; a missing key is a ValueError.
newer : Option SemverKey → Option SemverKey → M Bool
newer (some a) (some b) w = (ok (semver_lt b a), w)
newer none b w = (err died, w)
newer (some a) none w = (err died, w)

-- `require_features`
unfoldable pub require_features : Option Text → List Text → M (Unit {0})
unfolding newer
require_features minimum required = do
  too_new ← newer (semver_key (or_default minimum)) (semver_key manager_version)
  require (not too_new) manager_upgrade_required
  require (all_of (contains features) required) unsupported_required_feature

pub record Catalog : Type 0 where
  pub repository_url : Text
  pub modules : List Module
  pub minimum_manager_version : Option Text
  pub required_features : List Text

abbrev pub module_features : Module → M (Unit {0})
module_features m = require_features m.minimum_manager_version m.required_features

-- The loop of `_resolve`.
find_module : Text → Text → List Module → M Module
find_module id version [] = raise module_version_unavailable
find_module id version (m ∷ rest) =
    if text_eq m.id id && text_eq m.version version
    then (module_features m >> pure m)
    else find_module id version rest

resolve_in : Text → Text → Option Catalog → M (Module × Text)
unfolding find_module
resolve_in id version none = raise source_unavailable
resolve_in id version (some catalog) = do
  require_features catalog.minimum_manager_version catalog.required_features
  m ← find_module id version catalog.modules
  pure (m, catalog.repository_url)

-- `_resolve`
unfoldable pub resolve : List (Text × Catalog) → Text → Text → Text → M (Module × Text)
unfolding resolve_in
resolve catalogs source_id module_id version =
    resolve_in module_id version (dict_get source_id catalogs)
