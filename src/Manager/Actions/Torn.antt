-- ===== src/Manager/Actions/Torn.antt =====
-- manager/hahapent/engine.py: the operations after a removal of old files that was cut off within
-- `rmtree`.
use hahapent.Base.{
  ◌≡◌, ◌⊎◌, inl, inr, refl, ap, ◌∙◌, Bool, true, false, List, [], ◌∷◌, Outcome, ok, err,
}
use hahapent.Base.Text.{Text}
use hahapent.Manager.Storage.{
  Tree, Code, invalid_settings, invalid_registry, removal_confirmation_required,
}
use hahapent.Manager.Registry.{Entry, Registry, Transaction, validate_registry}
use hahapent.Manager.Sources.{load_settings}
use hahapent.Manager.World.{
  World, Failure, manager_error, M, continue, ◌>>=◌, ◌>>◌, gets, require, lift,
}
use hahapent.Manager.Change.{Site, Extraction, set_registry, load_state, recover}
use hahapent.Manager.Change.Torn.{IsTorn, recover-IsTorn}
use hahapent.Manager.Catalog.{Catalog}
use hahapent.Manager.Actions.{start, install_module, rollback_module, remove_module}

-- The calls of the interface, with their arguments.
pub data Request : Type 0 where
  install_request :
      List (Text × Catalog) → Text → Text → Text → Text → Text → Outcome Code Extraction → Request
  rollback_request : Text → Text → Text → Outcome Code (List Text) → Request
  remove_request : Text → Text → Text → Bool → Request

unfoldable pub run_request : Site → Request → M (Unit {0})
run_request site (install_request catalogs id now source_id module_id version fetched) =
    install_module site catalogs id now source_id module_id version fetched
run_request site (rollback_request id now domain manifest) =
    rollback_module site id now domain manifest
run_request site (remove_request id now domain confirmed) =
    remove_module site id now domain confirmed

-- One call after the other.
unfoldable pub run_requests : Site → List Request → World → World
run_requests site [] w = w
run_requests site (q ∷ qs) w = run_requests site qs (run_request site q w).1

-- An error, and nothing is changed but the registry in memory.
abbrev pub Refuses : World → Outcome Failure (Unit {0}) × World → Type 0
Refuses w r =
    (code : Code) × (m : Registry) × (r ≡ (err (manager_error code), record w { registry = m }))

module _ (site : Site) (t : Transaction) (old : Entry) (left : Tree) where
  remembered :
      (w : World) (m : Registry)
      → IsTorn site t old left w
      → IsTorn site t old left (record w { registry = m })
  remembered w m torn = record {
    in_journal = torn.in_journal;
    is_valid = torn.is_valid;
    valid_before = torn.valid_before;
    valid_after = torn.valid_after;
    plain_target = torn.plain_target;
    plain_stage = torn.plain_stage;
    is_committed = torn.is_committed;
    is_change = torn.is_change;
    new_is_there = torn.new_is_there;
    had_old = torn.had_old;
    is_left = torn.is_left;
    no_faults = torn.no_faults;
    is_part = torn.is_part;
  }

  abbrev Loads : World → Outcome Failure (Unit {0}) × World → Type 0
  Loads w r = Refuses w r ⊎ (r ≡ (ok tt, record w { registry = w.stored }))

  load_state-Loads : (w : World) → Loads w (load_state site w)
  unfolding load_state ◌>>=◌
  load_state-Loads w = first (site.valid_settings w.settings)
    where
      loaded : World
      loaded = record w { registry = w.stored }

      sources : Outcome Code (Unit {0})
      sources = load_settings site.valid_url site.normal_url w.settings

      after : M (Unit {0})
      after = gets (λ v. v.stored) >>= λ r.
          require (site.valid_document r) invalid_registry
          >> (set_registry r >> (lift sources >> lift (validate_registry site.valid_url r)))

      fourth : (entries : Outcome Code (Unit {0})) → Loads w (lift entries loaded)
      fourth (err code) = inl (code, w.stored, refl)
      fourth (ok done) = inr refl

      third :
          (sources : Outcome Code (Unit {0}))
          → Loads w
              (continue (lift sources loaded) λ _. lift (validate_registry site.valid_url w.stored))
      third (err code) = inl (code, w.stored, refl)
      third (ok done) = fourth (validate_registry site.valid_url w.stored)

      second :
          (fits : Bool)
          → Loads w (
              continue (require fits invalid_registry w) λ _.
                set_registry w.stored
                >> (lift sources >> lift (validate_registry site.valid_url w.stored)))
      second false = inl (invalid_registry, w.registry, refl)
      second true = third sources

      first : (fits : Bool) → Loads w (continue (require fits invalid_settings w) λ _. after)
      first false = inl (invalid_settings, w.registry, refl)
      first true = second (site.valid_document w.stored)

  start-Refuses : (w : World) → IsTorn site t old left w → Refuses w (start site w)
  unfolding start ◌>>=◌
  start-Refuses w torn = go (load_state-Loads w)
    where
      rest : Unit {0} → M (Unit {0})
      rest _ = recover site >>= λ result v. (ok tt, v)

      go : Loads w (load_state site w) → Refuses w (continue (load_state site w) rest)
      go (inl (code, m, e)) = (code, m, ap (λ r. continue r rest) e)
      go (inr e) =
          let (code, refused) =
            recover-IsTorn site t old left (record w { registry = w.stored })
              (remembered w w.stored torn) refl in
          (
            code,
            w.stored,
            ap (λ r. continue r rest) e ∙ ap (λ r. continue r (λ result v. (ok tt, v))) refused,
          )

  then-Refuses :
      (w : World) (m : M (Unit {0})) (f : Unit {0} → M (Unit {0}))
      → Refuses w (m w)
      → Refuses w ((m >>= f) w)
  unfolding ◌>>=◌
  then-Refuses w m f (code, r, e) = (code, r, ap (λ q. continue q f) e)

  passed :
      (m : M (Unit {0})) (w : World)
      → (require true removal_confirmation_required >>= λ _. m) w ≡ m w
  unfolding ◌>>=◌
  passed m w = refl

  request-Refuses :
      (q : Request) (w : World) → IsTorn site t old left w → Refuses w (run_request site q w)
  unfolding run_request install_module rollback_module remove_module
  request-Refuses (install_request catalogs id now source_id module_id version fetched) w torn =
      then-Refuses w (start site) _ (start-Refuses w torn)
  request-Refuses (rollback_request id now domain manifest) w torn =
      then-Refuses w (start site) _ (start-Refuses w torn)
  request-Refuses (remove_request id now domain true) w torn =
      let (code, m, e) = then-Refuses w (start site) _ (start-Refuses w torn) in
      (code, m, passed (start site >>= _) w ∙ e)
  request-Refuses (remove_request id now domain false) w torn =
      then-Refuses w (require false removal_confirmation_required) _
        (removal_confirmation_required, w.registry, refl)

  requests-Refuses :
      (qs : List Request) (w : World) (m : Registry)
      → IsTorn site t old left w
      → (r : Registry) × (run_requests site qs (record w { registry = m })
          ≡ record w { registry = r })
  unfolding run_requests
  requests-Refuses [] w m torn = (m, refl)
  requests-Refuses (q ∷ qs) w m torn =
      let (_, n, e) = request-Refuses q (record w { registry = m }) (remembered w m torn) in
      let (r, rest) = requests-Refuses qs w n torn in
      (r, ap (λ (p : Outcome Failure (Unit {0}) × World). run_requests site qs p.1) e ∙ rest)

-- After the removal of the old files of a committed operation that was cut off part way, and if the disk
-- does not fail again, every operation is refused: however many are asked for, each ends by an error, and
-- none changes the files, the journal, the stored registry or anything else but the registry in memory.
pub recover-torn :
    (site : Site) (t : Transaction) (old : Entry) (left : Tree) (w : World)
    → IsTorn site t old left w
    → (earlier : List Request) (next : Request)
    → (code : Code) × (r : Registry) × (run_request site next (run_requests site earlier w)
        ≡ (err (manager_error code), record w { registry = r }))
recover-torn site t old left w torn earlier next =
    let (m, e) = requests-Refuses site t old left earlier w w.registry torn in
    let (code, r, h) =
      request-Refuses site t old left next (record w { registry = m })
        (remembered site t old left w m torn) in
    (code, r, ap (run_request site next) e ∙ h)
