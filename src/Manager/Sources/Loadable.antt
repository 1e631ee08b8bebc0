-- ===== src/Manager/Sources/Loadable.antt =====
-- The settings that the operations on sources write can be loaded at the next start.
use hahapent.Base.{
  ◌≡◌, ap, refl, Bool, true, false, not, List, [], ◌∷◌, ◌++◌, any_of, filter, Outcome, ok, err,
  arith,
}
use hahapent.Base.Text.{Text, text_eq}
use hahapent.Manager.Storage.{Code}
use hahapent.Manager.Registry.{Registry}
use hahapent.Manager.Sources.{
  Source, Settings, new_source, is_among, check_sources, load_settings, clashes, add_source,
  remove_source,
}

-- What is among fewer is among more.
Fewer : List Text → List Text → Type 0
Fewer xs ys = (x : Text) → is_among x ys ≡ false → is_among x xs ≡ false

Fewer-∷ : (a : Text) (xs ys : List Text) → Fewer xs ys → Fewer (a ∷ xs) (a ∷ ys)
unfolding Fewer is_among
Fewer-∷ a xs ys h x k = ground (arith, h x)

Fewer-skip : (a : Text) (xs ys : List Text) → Fewer xs ys → Fewer xs (a ∷ ys)
unfolding Fewer is_among
Fewer-skip a xs ys h x k = ground (arith, h x)

module _ (valid_url : Text → Bool) (normal_url : Text → Text) where
  -- What an accepted list says of its first source and of the rest.
  first-accepted :
      (ids repos : List Text) (s : Source) (ss : List Source)
      → check_sources valid_url normal_url ids repos (s ∷ ss) ≡ ok tt
      → (valid_url s.repository_url ≡ true)
        × (is_among s.source_id ids ≡ false)
        × (is_among (normal_url s.repository_url) repos ≡ false)
        × (check_sources valid_url normal_url
              (s.source_id ∷ ids)
              (normal_url s.repository_url ∷ repos)
              ss
            ≡ ok tt)
  unfolding check_sources
  first-accepted ids repos s ss h = ground arith

  accepted-∷ :
      (ids repos : List Text) (s : Source) (ss : List Source)
      → valid_url s.repository_url ≡ true
      → is_among s.source_id ids ≡ false
      → is_among (normal_url s.repository_url) repos ≡ false
      → check_sources valid_url normal_url
          (s.source_id ∷ ids)
          (normal_url s.repository_url ∷ repos)
          ss
        ≡ ok tt
      → check_sources valid_url normal_url ids repos (s ∷ ss) ≡ ok tt
  unfolding check_sources
  accepted-∷ ids repos s ss hv hi hr h = ground arith

  filter-accepted :
      (keep : Source → Bool) (ids repos ids' repos' : List Text) (ss : List Source)
      → Fewer ids' ids
      → Fewer repos' repos
      → check_sources valid_url normal_url ids repos ss ≡ ok tt
      → check_sources valid_url normal_url ids' repos' (filter keep ss) ≡ ok tt
  unfolding check_sources Fewer
  filter-accepted keep ids repos ids' repos' [] hi hr h = refl
  filter-accepted keep ids repos ids' repos' (s ∷ ss) hi hr h =
      let first = first-accepted ids repos s ss h in
      go (keep s)
        (accepted-∷ ids' repos' s (filter keep ss) first.0 (hi s.source_id first.1)
          (hr (normal_url s.repository_url) first.2)
          (filter-accepted keep (s.source_id ∷ ids) (normal_url s.repository_url ∷ repos)
            (s.source_id ∷ ids') (normal_url s.repository_url ∷ repos') ss
            (Fewer-∷ s.source_id ids' ids hi)
            (Fewer-∷ (normal_url s.repository_url) repos' repos hr) first.3))
        (filter-accepted keep (s.source_id ∷ ids) (normal_url s.repository_url ∷ repos) ids' repos'
          ss (Fewer-skip s.source_id ids' ids hi)
          (Fewer-skip (normal_url s.repository_url) repos' repos hr) first.3)
    where
      go :
          (b : Bool)
          → check_sources valid_url normal_url ids' repos' (s ∷ filter keep ss) ≡ ok tt
          → check_sources valid_url normal_url ids' repos' (filter keep ss) ≡ ok tt
          → check_sources valid_url normal_url ids' repos'
              (elim b [ true ↦ s ∷ filter keep ss | false ↦ filter keep ss ])
            ≡ ok tt
      go true kept dropped = kept
      go false kept dropped = dropped

  filter-gone :
      (id : Text) (ss : List Source)
      → any_of (λ s. text_eq s.source_id id) (filter (λ s. not (text_eq s.source_id id)) ss) ≡ false
  filter-gone id [] = refl
  filter-gone id (s ∷ ss) = go (text_eq s.source_id id) refl (filter-gone id ss)
    where
      go :
          (b : Bool)
          → text_eq s.source_id id ≡ b
          → any_of (λ s. text_eq s.source_id id) (filter (λ s. not (text_eq s.source_id id)) ss)
            ≡ false
          → any_of
              (λ s. text_eq s.source_id id)
              (elim (not b) [
                | true ↦ s ∷ filter (λ s. not (text_eq s.source_id id)) ss
                | false ↦ filter (λ s. not (text_eq s.source_id id)) ss
              ])
            ≡ false
      go true hb h = h
      go false hb h = ground (arith, hb, h)

  -- Settings from which a source has been removed can be loaded at the next start, and the source is gone.
  pub remove_source-loadable :
      (id : Text) (settings left : Settings)
      → remove_source valid_url normal_url id settings ≡ ok left
      → (load_settings valid_url normal_url left ≡ ok tt)
        × (any_of (λ s. text_eq s.source_id id) left.extra_repositories ≡ false)
  unfolding remove_source load_settings Fewer
  remove_source-loadable id settings left h = ground (
    arith,
    filter-gone id settings.extra_repositories,
    h,
    filter-accepted (λ s. not (text_eq s.source_id id)) [] [] [] [] settings.extra_repositories
        (λ x k. k) (λ x k. k),
  )

  -- A source that is fresh for the list and for what has been seen can be put at its end.
  append-accepted :
      (lower : Text → Text) (ids repos : List Text) (ss : List Source) (new : Source)
      → normal_url new.repository_url ≡ lower new.repository_url
      → check_sources valid_url normal_url ids repos ss ≡ ok tt
      → valid_url new.repository_url ≡ true
      → is_among new.source_id ids ≡ false
      → is_among (normal_url new.repository_url) repos ≡ false
      → any_of (clashes valid_url normal_url lower new) ss ≡ false
      → check_sources valid_url normal_url ids repos (ss ++ new ∷ []) ≡ ok tt
  unfolding check_sources clashes is_among
  append-accepted lower ids repos [] new hn h hv hi hr hc =
      accepted-∷ ids repos new [] hv hi hr refl
  append-accepted lower ids repos (s ∷ ss) new hn h hv hi hr hc =
      let first = first-accepted ids repos s ss h in
      accepted-∷ ids repos s (ss ++ new ∷ []) first.0 first.1 first.2 (
        append-accepted lower (s.source_id ∷ ids) (normal_url s.repository_url ∷ repos) ss new hn
          first.3 hv (ground (arith, hi, hc)) (ground (arith, hn, hr, hc)) (ground (arith, hc)))

-- When every source of the settings is one of the last refresh, and the normal form of the URL that is
-- given is valid and is its own normal form, settings to which `add_source` has added a source can be
-- loaded at the next start.
pub add_source-loadable :
    (valid_url : Text → Bool) (canonical lower : Text → Text) (valid_settings : Settings → Bool)
    (trusted : Bool) (url : Text) (fetched : Outcome Code Text) (states : List Source)
    (registry : Registry) (settings more : Settings)
    → let normal_url : Text → Text = λ u. lower (canonical u) in
      ((new : Source)
        → any_of (clashes valid_url normal_url lower new) states ≡ false
        → any_of (clashes valid_url normal_url lower new) settings.extra_repositories ≡ false)
      → valid_url (canonical url) ≡ true
      → canonical (canonical url) ≡ canonical url
      → add_source valid_url normal_url canonical lower valid_settings trusted url fetched states
          registry settings
        ≡ ok more
      → load_settings valid_url normal_url more ≡ ok tt
unfolding add_source load_settings is_among
add_source-loadable valid_url canonical lower valid_settings trusted url (err code) states registry
      settings more covered hv hc h =
    ground (arith, h)
add_source-loadable valid_url canonical lower valid_settings trusted url (ok id) states registry
      settings more covered hv hc h =
    ground (
      arith,
      h,
      hv,
      covered (new_source id (canonical url)),
      append-accepted valid_url (λ u. lower (canonical u)) lower [] [] settings.extra_repositories
          (new_source id (canonical url)) (ap lower hc),
    )
