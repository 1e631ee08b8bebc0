-- ===== src/Manager/Actions/Removal.antt =====
-- What `remove` of manager/hahapent/engine.py has made sure of when it returns.
use hahapent.Base.{
  ℕ, ◌+◌, ◌≤◌, ◌<◌, ◌≢◌, ◌≡◌, not, ◌||◌, refl, Bool, true, false, some, none, Option, Outcome, ok,
  err, arith, any_of,
}
use hahapent.Base.Text.{Text}
use hahapent.Manager.Storage.{
  invalid_registry, installed_dependent_conflict, removal_confirmation_required,
  module_not_installed, transaction_path_conflict,
}
use hahapent.Manager.Registry.{Entry, Registry, Transaction, dict_get, prepared, staged, remove}
use hahapent.Manager.World.{
  World, M, Failure, continue, ◌>>=◌, require, gets, atomic, exists, stage, hold,
}
use hahapent.Manager.World.Frame.{Keeps, Keeps->>=, Keeps-require, Keeps-atomic, Frame}
use hahapent.Manager.Change.{Site, removing, load_state, recover, write_journal, no_links}
use hahapent.Manager.Change.Frame.{
  Keeps-load_state, Keeps-recover, Keeps-write_journal, Keeps-no_links,
}
use hahapent.Manager.Apply.{
  require_no_config_entries, check_target, plan_source, registry_after, resulting, recheck,
  stage_new, back_up, change_body, attempt, change,
}
use hahapent.Manager.Apply.Frame.{Keeps-check_target, Keeps-stage_new, Keeps-back_up, Keeps-swap}
use hahapent.Manager.Apply.Commit.{Anywhere, all_owned}
use hahapent.Manager.Apply.Success.{handled-ok}
use hahapent.Manager.Actions.{start, or_raise, depends_on, values, remove_module}

-- From where `P` holds an action that returns leads to where `Q` holds.
abbrev Leads : {A : Type 0} → (World → Type 0) → (World → Type 0) → M A → Type 0
Leads {A} P Q m = (w : World) (a : A) → P w → (m w).0 ≡ ok a → Q (m w).1

Leads->>= :
    {A B : Type 0} (P Q R : World → Type 0) (m : M A) (f : A → M B)
    → Leads P Q m
    → ((a : A) → Leads Q R (f a))
    → Leads P R (m >>= f)
unfolding ◌>>=◌
Leads->>= {A} {B} P Q R m f hm hf w b pw h = go (m w) (λ a. hm w a pw) h
  where
    go :
        (r : Outcome Failure A × World)
        → ((a : A) → r.0 ≡ ok a → Q r.1)
        → (continue r f).0 ≡ ok b
        → R (continue r f).1
    go (ok a, v) q h = hf a v b (q a refl) h
    go (err e, v) q h = absurd cc

-- What an action keeps, up to its end.
Leads-kept :
    {A B : Type 0} (P R : World → Type 0) (m : M A) (f : A → M B)
    → Keeps P m
    → ((a : A) → Leads P R (f a))
    → Leads P R (m >>= f)
Leads-kept P R m f km hf = Leads->>= P P R m f (λ w a pw _. km w pw) hf

-- A statement about the number of calls, which any further call keeps.
counted : (P : ℕ → Type 0) → ((n : ℕ) → P n → P (n + 1)) → Frame (λ v. P v.calls) Anywhere
counted P next = record {
  put_frame = λ p item w _ h. h;
  journal_frame = λ t w _ h. h;
  cleared = λ w h. h;
  registry_frame = λ r w h. h;
  faults_frame = λ fs w h. h;
  calls_frame = λ w h. next w.calls h;
}

module _ (site : Site) (domain : Text) (first : ℕ) where
  -- The n-th call of Home Assistant has answered that the domain has no config entries.
  abbrev pub IsFree : ℕ → Type 0
  IsFree n = site.config_entries domain n ≡ ok (some 0)

  abbrev Begun : ℕ → Type 0
  Begun calls = first ≤ calls

  abbrev pub AskedOnce : ℕ → Type 0
  AskedOnce calls = (n : ℕ) × (first ≤ n) × (n < calls) × IsFree n

  -- Two answers, both after the first call of this operation.
  abbrev pub AskedTwice : ℕ → Type 0
  AskedTwice calls = (n : ℕ) × (m : ℕ) × (first ≤ n) × (n < m) × (m < calls) × IsFree n × IsFree m

  Begun-frame : Frame (λ v. Begun v.calls) Anywhere
  Begun-frame = counted Begun (λ n h. omega (arith, h))

  AskedOnce-frame : Frame (λ v. AskedOnce v.calls) Anywhere
  AskedOnce-frame = counted AskedOnce (λ n (k, a, b, c). (k, a, omega (arith, b), c))

  AskedTwice-frame : Frame (λ v. AskedTwice v.calls) Anywhere
  AskedTwice-frame =
      counted AskedTwice (λ n (k, l, a, b, c, d, e). (k, l, a, b, omega (arith, c), d, e))

  answered :
      (w : World) (a : Unit {0})
      → (require_no_config_entries site domain w).0 ≡ ok a
      → IsFree w.calls × ((require_no_config_entries site domain w).1.calls ≡ w.calls + 1)
  unfolding require_no_config_entries ◌>>=◌
  answered w a h = (ground arith, ground arith)

  Started : World → Type 0
  Started v = Begun v.calls

  Once : World → Type 0
  Once v = AskedOnce v.calls

  Twice : World → Type 0
  Twice v = AskedTwice v.calls

  abbrev Nothing : Registry → Type 0
  Nothing r = Unit {0}

  first_answer : Leads Started Once (require_no_config_entries site domain)
  unfolding Started Once
  first_answer w a hw h =
      let (free, next) = answered w a h in (w.calls, hw, omega (arith, next), free)

  second_answer : Leads Once Twice (require_no_config_entries site domain)
  unfolding Once Twice
  second_answer w a (n, hn, hl, hf) h =
      let (free, next) = answered w a h in (n, w.calls, hn, hl, omega (arith, next), hf, free)

  start-Started : Keeps Started (start site)
  unfolding start Started
  start-Started =
      Keeps->>= Started Anywhere Begun-frame (load_state site) _
        (Keeps-load_state Started Anywhere Begun-frame site)
        λ _.
          Keeps->>= Started Anywhere Begun-frame (recover site) _
            (Keeps-recover Started Anywhere Begun-frame site (λ t v _ _. all_owned t)) (λ _ w h. h)

  resulting-Once : {A : Type 0} (r : Outcome Failure A) → Keeps Once (resulting r)
  resulting-Once r w h = h

  body_asks :
      (now : Text) (current : Option Entry) (t : Transaction)
      → t.domain ≡ domain
      → t.operation ≡ remove
      → Leads Once Twice (change_body site removing now current t)
  unfolding change_body recheck Once Twice
  body_asks now current t hd ho =
      Leads-kept Once Twice (write_journal site t prepared) _
        (Keeps-write_journal Once Anywhere AskedOnce-frame site t prepared (all_owned t))
        λ _.
          Leads-kept Once Twice (stage_new site t.transaction_id now current removing) _
            (Keeps-stage_new site Once Anywhere AskedOnce-frame Nothing (λ r w _ h. h)
              t.transaction_id now current removing tt)
            λ entry.
              Leads-kept Once Twice (back_up current t.domain t.transaction_id) _
                (Keeps-back_up site Once Anywhere AskedOnce-frame Nothing (λ r w _ h. h) current
                  t.domain t.transaction_id tt)
                λ previous.
                  Leads-kept Once Twice
                    (resulting (registry_after t.domain entry previous t.before)) _
                    (resulting-Once (registry_after t.domain entry previous t.before))
                    λ after.
                      Leads-kept Once Twice (require (site.valid_document after) invalid_registry) _
                        (Keeps-require Once Anywhere AskedOnce-frame (site.valid_document after)
                          invalid_registry)
                        λ _.
                          Leads-kept Once Twice
                            (write_journal site (record t { after = after }) staged) _
                            (Keeps-write_journal Once Anywhere AskedOnce-frame site
                              (record t { after = after }) staged
                              (all_owned (record t { after = after })))
                            λ _.
                              Leads-kept Once Twice
                                (check_target site t.domain (plan_source removing)) _
                                (Keeps-check_target site Once Anywhere AskedOnce-frame Nothing
                                  (λ r w _ h. h) t.domain (plan_source removing))
                                λ found.
                                  Leads->>= Once Twice Twice (recheck site t.operation t.domain) _
                                    (rw (ho, hd, recheck) second_answer)
                                    λ _ w a h _.
                                      Keeps-swap site Twice Anywhere AskedTwice-frame Nothing
                                        (λ r w _ h. h) current removing (record t { after = after })
                                        (all_owned (record t { after = after })) tt w h

  change_asks : (id now : Text) → Leads Once Twice (change site id now domain remove removing)
  unfolding change attempt Once Twice
  change_asks id now =
      Leads-kept Once Twice (atomic (λ w. w)) _
        (Keeps-atomic Once Anywhere AskedOnce-frame (λ w. w) (λ w h. h))
        λ _.
          Leads-kept Once Twice (gets (λ w. w.registry)) _ (λ w h. h)
            λ before.
              Leads-kept Once Twice (no_links domain id) _
                (Keeps-no_links Once Anywhere AskedOnce-frame site domain id)
                λ _.
                  Leads-kept Once Twice
                    (gets (λ w. exists (w.items (stage id)) || exists (w.items (hold id)))) _
                    (λ w h. h)
                    λ present.
                      Leads-kept Once Twice (require (not present) transaction_path_conflict) _
                        (Keeps-require Once Anywhere AskedOnce-frame (not present)
                          transaction_path_conflict)
                        λ _ w a once h.
                          let t = begun id before in
                          handled-ok site Twice
                            (change_body site removing now (dict_get domain before.installed) t w) a
                            (body_asks now (dict_get domain before.installed) t refl refl w tt once)
                            h
    where
      begun : Text → Registry → Transaction
      begun id before = record {
        transaction_id = id;
        domain = domain;
        operation = remove;
        phase = prepared;
        before = before;
        after = before;
      }

  remove_asks : (id now : Text) → Leads Started Twice (remove_module site id now domain true)
  unfolding remove_module Started Once Twice
  remove_asks id now =
      Leads-kept Started Twice (require true removal_confirmation_required) _ (λ w h. h)
        λ _. Leads-kept Started Twice (start site) _ start-Started λ _.
          Leads-kept Started Twice (gets (λ w. w.registry)) _ (λ w h. h)
            λ r.
              Leads-kept Started Twice (or_raise module_not_installed (dict_get domain r.installed))
                _ (named (dict_get domain r.installed))
                λ entry.
                  Leads-kept Started Twice (check_target site domain none) _
                    (Keeps-check_target site Started Anywhere Begun-frame Nothing (λ r w _ h. h)
                      domain none)
                    λ current.
                      Leads->>= Started Once Twice (require_no_config_entries site domain) _
                        first_answer
                        λ _.
                          Leads-kept Once Twice
                            (require (not (any_of (depends_on entry) (values r.installed)))
                              installed_dependent_conflict)
                            _
                            (Keeps-require Once Anywhere AskedOnce-frame
                              (not (any_of (depends_on entry) (values r.installed)))
                              installed_dependent_conflict)
                            λ _. change_asks id now
    where
      named : (o : Option Entry) → Keeps Started (or_raise module_not_installed o)
      named none w h = h
      named (some entry) w h = h

unconfirmed :
    (site : Site) (domain id now : Text) (w : World)
    → (remove_module site id now domain false w).0 ≢ ok tt
unfolding remove_module ◌>>=◌
unconfirmed site domain id now w h = cc

-- `remove` that returns was confirmed, and during this operation Home Assistant has answered twice, in
-- two different calls, that the domain has no config entries.
pub remove_module-ok :
    (site : Site) (domain id now : Text) (confirmed : Bool) (w : World)
    → (remove_module site id now domain confirmed w).0 ≡ ok tt
    → (confirmed ≡ true)
      × AskedTwice site domain w.calls (remove_module site id now domain confirmed w).1.calls
unfolding Twice Started
remove_module-ok site domain id now true w h =
    (refl, remove_asks site domain w.calls id now w tt (omega arith) h)
remove_module-ok site domain id now false w h = absurd (unconfirmed site domain id now w h)
