-- ===== src/Tests/Repositories.antt =====
-- Adding and removing sources of the manager.
use hahapent.Base.{◌≡◌, refl, true, false, [], ◌∷◌, any_of, ok, if◌then◌else◌}
use hahapent.Base.Text.{Text, text_eq, codes}
use hahapent.Manager.Registry.{Registry}
use hahapent.Manager.Sources.{
  Source, Settings, new_source, load_settings, add_source, remove_source, is_among,
}
use hahapent.Manager.Sources.Loadable.{add_source-loadable, remove_source-loadable}

abbrev first : Source
first = new_source (codes "a") (codes "a")

abbrev second : Source
second = new_source (codes "b") (codes "b")

abbrev one_source : Settings
one_source = record { extra_repositories = first ∷ []; test_mode = false }

abbrev two_sources : Settings
two_sources = record { extra_repositories = first ∷ second ∷ []; test_mode = false }

abbrev none_installed : Registry
none_installed = record { installed = []; removed = [] }

-- `repository_url` at the two addresses of the test.
abbrev canonical : Text → Text
canonical url = if text_eq url (codes "b/") then codes "b" else url

abbrev normal : Text → Text
normal url = canonical url

added :
    add_source
      (λ url. true)
      normal
      canonical
      (λ url. url)
      (λ settings. true)
      true
      (codes "b/")
      (ok (codes "b"))
      (first ∷ [])
      none_installed
      one_source
    ≡ ok two_sources
unfolding add_source text_eq load_settings is_among
added = refl

canonical_twice : canonical (canonical (codes "b/")) ≡ canonical (codes "b/")
unfolding text_eq
canonical_twice = refl

add_source-loadable_example : load_settings (λ url. true) normal two_sources ≡ ok tt
add_source-loadable_example =
    add_source-loadable (λ url. true) canonical (λ url. url) (λ settings. true) true (codes "b/")
      (ok (codes "b")) (first ∷ []) none_installed one_source two_sources (λ new h. h) refl
      canonical_twice added

removed : remove_source (λ url. true) (λ url. url) (codes "b") two_sources ≡ ok one_source
unfolding remove_source text_eq load_settings is_among
removed = refl

remove_source-loadable_example :
    (load_settings (λ url. true) (λ url. url) one_source ≡ ok tt)
    × (any_of (λ s. text_eq s.source_id (codes "b")) one_source.extra_repositories ≡ false)
remove_source-loadable_example =
    remove_source-loadable (λ url. true) (λ url. url) (codes "b") two_sources one_source removed
