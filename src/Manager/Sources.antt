-- ===== src/Manager/Sources.antt =====
-- manager/hahapent/engine.py: the repositories that the user adds: the checks of `_load_state` on the
-- settings, and `add_source`, `remove_source` and `set_test_mode` up to the write of the settings. The
-- refresh of the catalogs that follows, the lock and the recovery before it are left out.
pub mod Loadable
use hahapent.Base.{
  ℕ, Bool, true, false, not, ◌&&◌, ◌||◌, Option, none, some, List, [], ◌∷◌, ◌++◌, map, any_of,
  filter, length, ◌==◌, if◌then◌else◌, Outcome, ok, err, ensure, ◌>>=◌, ◌>>◌,
}
use hahapent.Base.Text.{Text, text_eq}
use hahapent.Manager.Storage.{
  Code, invalid_settings, invalid_repository, source_trust_required, source_identity_conflict,
  source_not_removable, test_catalog_unavailable,
}
use hahapent.Manager.Registry.{BaseEntry, Registry, Entry, Backup}

pub record Source : Type 0 where
  pub source_id : Text
  pub repository_url : Text

-- `trusted` is True in every source that is added.
pub record Settings : Type 0 where
  pub extra_repositories : List Source
  pub test_mode : Bool

abbrev pub new_source : Text → Text → Source
new_source id url = record { source_id = id; repository_url = url }

abbrev pub with_source : Source → Settings → Settings
with_source new settings = record settings {
  extra_repositories = settings.extra_repositories ++ new ∷ [];
}

unfoldable pub is_among : Text → List Text → Bool
is_among x = any_of (text_eq x)

module _ (valid_url : Text → Bool) (normal_url : Text → Text) where
  -- The loop of `_load_state`, with the identities and repositories seen so far.
  unfoldable pub check_sources : List Text → List Text → List Source → Outcome Code (Unit {0})
  check_sources ids repos [] = ok tt
  check_sources ids repos (s ∷ rest) = do
    ensure (valid_url s.repository_url) invalid_repository
    ensure (not (is_among s.source_id ids || is_among (normal_url s.repository_url) repos))
        invalid_settings
    check_sources (s.source_id ∷ ids) (normal_url s.repository_url ∷ repos) rest

  -- The settings pass the checks of a start that follow the schema.
  unfoldable pub load_settings : Settings → Outcome Code (Unit {0})
  unfolding check_sources
  load_settings settings = check_sources [] [] settings.extra_repositories

  -- A source with the identity or the repository of the new one; `lower` is `str.lower`.
  unfoldable pub clashes : (Text → Text) → Source → Source → Bool
  clashes lower new old =
      text_eq new.source_id old.source_id
      || text_eq (lower new.repository_url) (normal_url old.repository_url)

  -- An entry of the source that comes from another repository.
  unfoldable pub rebinds : (Text → Text) → Source → BaseEntry → Bool
  rebinds lower new entry =
      text_eq entry.source_id new.source_id
      && not (text_eq (normal_url entry.repository_url) (lower new.repository_url))

  -- The entries that are installed, and those of removed code.
  unfoldable pub owned_entries : Registry → List BaseEntry
  owned_entries r =
      map (λ (domain, entry). entry.base) r.installed
      ++ map (λ (domain, backup). backup.entry) r.removed

  -- `add_source`: `fetched` is the identity in the catalog that the valid repository serves, or the error
  -- of its download or validation; `states` are the sources of the last refresh, `canonical` is
  -- `repository_url` of a valid URL, and `valid_settings` is the schema.
  unfoldable pub add_source :
      (canonical lower : Text → Text)
      → (Settings → Bool)
      → Bool
      → Text
      → Outcome Code Text
      → List Source
      → Registry
      → Settings
      → Outcome Code Settings
  unfolding clashes rebinds owned_entries
  add_source canonical lower valid_settings trusted url fetched states registry settings = do
    ensure trusted source_trust_required
    ensure (valid_url url) invalid_repository
    let repo = canonical url
    load_settings settings
    id ← fetched
    ensure (not (any_of (clashes lower (new_source id repo)) states)) source_identity_conflict
    ensure (not (any_of (rebinds lower (new_source id repo)) (owned_entries registry)))
        source_identity_conflict
    ensure (valid_settings (with_source (new_source id repo) settings)) invalid_settings
    ok (with_source (new_source id repo) settings)

  -- `remove_source`
  unfoldable pub remove_source : Text → Settings → Outcome Code Settings
  remove_source id settings = do
    load_settings settings
    let left = filter (λ s. not (text_eq s.source_id id)) settings.extra_repositories
    ensure (not (length settings.extra_repositories == length left)) source_not_removable
    ok (record settings { extra_repositories = left })

  -- `set_test_mode`; `test` is what reading the test catalog gives, if there is one.
  unfoldable pub set_test_mode :
      Bool → Option (Outcome Code (Unit {0})) → Settings → Outcome Code Settings
  set_test_mode false test settings = do
    load_settings settings
    ok (record settings { test_mode = false })
  set_test_mode true none settings = do load_settings settings; err test_catalog_unavailable
  set_test_mode true (some read) settings = do
    load_settings settings
    read
    ok (record settings { test_mode = true })
