-- ===== src/Manager/Apply/Success.antt =====
-- What an operation of the manager that returned has done: `_change`, and the conditions of `remove`.
use hahapent.Base.{
  List, [], ◌∷◌, ◌≢◌, ◌≡◌, refl, true, false, not, ◌||◌, Option, none, Outcome, ok, err,
}
use hahapent.Base.Text.{Text}
use hahapent.Manager.Storage.{Code, storage_failure, invalid_registry, transaction_path_conflict}
use hahapent.Manager.Registry.{
  Entry, Registry, Transaction, Action, prepared, staged, old_moved, new_moved, committed, dict_get,
}
use hahapent.Manager.World.{
  target, stage, hold, World, Failure, manager_error, os_error, died, M, Fault, complete,
  interrupted, act, perform, continue, ◌>>=◌, ◌>>◌, gets, require, atomic, exists,
}
use hahapent.Manager.World.Frame.{Frame, Keeps->>=}
use hahapent.Manager.World.Ends.{Ends, Ends->>=, Ends-Keeps, Ends-atomic}
use hahapent.Manager.Change.{
  Site, Plan, write_journal, finish, set_stored, set_registry, no_links, load_state, recover,
}
use hahapent.Manager.Change.Frame.{Keeps-set_registry, Keeps-write_journal, Keeps-finish}
use hahapent.Manager.Change.Finish.{Matches, finish-ok}
use hahapent.Manager.Apply.{
  registry_after, resulting, hold_old, place_new, plan_source, recheck, check_target, stage_new,
  back_up, swap, change_body, reported, handled, attempt, change,
}
use hahapent.Manager.Apply.Result.{
  IsResultOf, IsResult, IsPlanned, planned_backup, planned_result, Gives, stage_new-IsPlanned,
  back_up-planned,
}
use hahapent.Manager.Apply.Commit.{Anywhere, all_owned, stored_frame}

-- The registry is stored, the target is what it says, and no transaction is left open.
pub record IsSettled (domain : Text) (r : Registry) (v : World) : Type 0 where
  pub is_stored : v.stored ≡ r
  pub is_there : Matches (dict_get domain r.installed) (v.items (target domain))
  pub is_closed : v.journal ≡ none

-- Some result of the operation is settled.
abbrev pub Done : Plan → Text → Text → Text → Registry → World → Type 0
Done plan id now domain before v =
    (r : Registry) × (IsResult plan id now domain before r × IsSettled domain r v)

abbrev DoneOf : Option Entry → Plan → Text → Text → Text → Registry → World → Type 0
DoneOf current plan id now domain before v =
    (r : Registry) × (IsResultOf current plan id now domain before r × IsSettled domain r v)

-- A report is always an error.
unreported :
    {A : Type 0} {a : Unit {0}} (code : Code) (r : Outcome Failure A × World)
    → (reported code r).0 ≢ ok a
unfolding reported
unreported code (ok x, w) h = cc
unreported code (err died, w) h = cc
unreported code (err (manager_error c), w) h = cc
unreported code (err os_error, w) h = cc

abbrev Finished : Transaction → World → Type 0
Finished t v =
    Matches (dict_get t.domain t.after.installed) (v.items (target t.domain)) × (v.journal ≡ none)

module _ (site : Site) where
  commits :
      (t : Transaction)
      → Ends
          (λ v. v.stored ≡ t.after)
          (atomic (set_stored t.after)
            >> (set_registry t.after >> (write_journal site t committed >> finish t)))
  commits t =
      Ends-Keeps (λ v. v.stored ≡ t.after) (atomic (set_stored t.after)) _
        (Ends-atomic (λ v. v.stored ≡ t.after) (set_stored t.after) (λ v. refl))
        λ _.
          Keeps->>= P Anywhere frame (set_registry t.after) _
            (Keeps-set_registry P Anywhere frame t.after)
            λ _.
              Keeps->>= P Anywhere frame (write_journal site t committed) _
                (Keeps-write_journal P Anywhere frame site t committed (all_owned t))
                λ _. Keeps-finish P Anywhere frame t (all_owned t)
    where
      P : World → Type 0
      P v = v.stored ≡ t.after

      frame : Frame (λ v. v.stored ≡ t.after) Anywhere
      frame = stored_frame t.after

  swap-ok :
      (current : Option Entry) (plan : Plan) (t : Transaction)
      → Ends (IsSettled t.domain t.after) (swap site current plan t)
  unfolding swap
  swap-ok current plan t w a h =
      let done = through (Finished t) (
        Ends->>= (Finished t) (atomic (set_stored t.after)) _ λ _.
          Ends->>= (Finished t) (set_registry t.after) _
            λ _. Ends->>= (Finished t) (write_journal site t committed) _ λ _. finish-ok t) in
      record {
        is_stored = through (λ v. v.stored ≡ t.after) (commits t);
        is_there = done.0;
        is_closed = done.1;
      }
    where
      through :
          (Q : World → Type 0)
          → Ends Q (
              atomic (set_stored t.after)
              >> (set_registry t.after >> (write_journal site t committed >> finish t)))
          → Q (swap site current plan t w).1
      through Q hq =
          (Ends->>= Q (hold_old current t.domain t.transaction_id) _ λ _.
              Ends->>= Q (write_journal site t old_moved) _ λ _.
                Ends->>= Q (place_new plan t.domain t.transaction_id) _
                  λ _. Ends->>= Q (write_journal site t new_moved) _ λ _. hq)
            w a h

  Ends-resulting :
      {A B : Type 0} (Q : World → Type 0) (r : Outcome Failure A) (f : A → M B)
      → ((a : A) → r ≡ ok a → Ends Q (f a))
      → Ends Q (resulting r >>= f)
  unfolding ◌>>=◌
  Ends-resulting Q (ok a) f hf = hf a refl
  Ends-resulting Q (err e) f hf = λ w b h. absurd cc

  Ends-given :
      {A B : Type 0} (Q : World → Type 0) (R : A → Type 0) (m : M A) (f : A → M B)
      → Gives R m
      → ((a : A) → R a → Ends Q (f a))
      → Ends Q (m >>= f)
  unfolding ◌>>=◌
  Ends-given {A} {B} Q R m f gm hf w b h = go (m w) (gm w) h
    where
      go :
          (r : Outcome Failure A × World)
          → ((a : A) → r.0 ≡ ok a → R a)
          → (continue r f).0 ≡ ok b
          → Q (continue r f).1
      go (ok a, v) g h = hf a (g a refl) v b h
      go (err e, v) g h = absurd cc

  change_body-ok :
      (plan : Plan) (now : Text) (current : Option Entry) (t : Transaction)
      → Ends
          (DoneOf current plan t.transaction_id now t.domain t.before)
          (change_body site plan now current t)
  unfolding change_body
  change_body-ok plan now current t = Ends->>= Q (write_journal site t prepared) _ λ _.
      Ends-given Q (IsPlanned plan t.transaction_id now current)
        (stage_new site t.transaction_id now current plan) _
        (stage_new-IsPlanned site t.transaction_id now current plan)
        λ entry planned.
          Ends-given Q (λ previous. previous ≡ planned_backup current t.transaction_id)
            (back_up current t.domain t.transaction_id) _
            (back_up-planned current t.domain t.transaction_id)
            λ previous saved_.
              Ends-resulting Q (registry_after t.domain entry previous t.before) _ λ after ha.
                Ends->>= Q (require (site.valid_document after) invalid_registry) _ λ _.
                  Ends->>= Q (write_journal site (record t { after = after }) staged) _ λ _.
                    Ends->>= Q (check_target site t.domain (plan_source plan)) _ λ found.
                      Ends->>= Q (recheck site t.operation t.domain) _ λ _ w a h. (
                        after,
                        (
                          planned_result current plan t.transaction_id now t.domain t.before after
                              entry previous planned saved_ ha,
                          swap-ok current plan (record t { after = after }) w a h,
                        ),
                      )
    where
      Q : World → Type 0
      Q v =
          (r : Registry) × (IsResultOf current plan t.transaction_id now t.domain t.before r
            × IsSettled t.domain r v)

  -- The handler returns only what the body has returned.
  pub handled-ok :
      (Q : World → Type 0) (r : Outcome Failure (Unit {0}) × World) (a : Unit {0})
      → (r.0 ≡ ok tt → Q r.1)
      → (handled site r).0 ≡ ok a
      → Q (handled site r).1
  unfolding handled reported
  handled-ok Q (ok done, w) a hq h = hq refl
  handled-ok Q (err died, w) a hq h = absurd cc
  handled-ok Q (err (manager_error code), w) a hq h =
      absurd (unreported code ((load_state site >> recover site) w) h)
  handled-ok Q (err os_error, w) a hq h =
      absurd (unreported storage_failure ((load_state site >> recover site) w) h)

  attempt-ok :
      (id now domain : Text) (action : Action) (plan : Plan) (before : Registry)
      → Ends (Done plan id now domain before) (attempt site id now domain action plan before)
  unfolding attempt
  attempt-ok id now domain action plan before =
      Ends->>= (Done plan id now domain before) (no_links domain id) _ λ _.
        Ends->>= (Done plan id now domain before)
          (gets (λ w. exists (w.items (stage id)) || exists (w.items (hold id)))) _
          λ present.
            Ends->>= (Done plan id now domain before)
              (require (not present) transaction_path_conflict) _
              λ _ w a h.
                handled-ok (Done plan id now domain before)
                  (change_body site plan now (dict_get domain before.installed) (start before) w) a
                  (change_body-ok plan now (dict_get domain before.installed) (start before) w tt) h
    where
      start : Registry → Transaction
      start r = record {
        transaction_id = id;
        domain = domain;
        operation = action;
        phase = prepared;
        before = r;
        after = r;
      }

  -- `_change` that returns has stored a registry that the operation makes from the one in memory, the target
  -- holds exactly the files that this registry records for the domain (or nothing), and the journal is gone.
  pub change-ok :
      (id now domain : Text) (action : Action) (plan : Plan) (w : World)
      → (change site id now domain action plan w).0 ≡ ok tt
      → Done plan id now domain w.registry (change site id now domain action plan w).1
  unfolding change perform act ◌>>=◌
  change-ok id now domain action plan w h = go w.faults h
    where
      go :
          (fs : List Fault)
          → (continue
              (act fs (λ v. v) (λ left v. v) w)
              λ _. gets (λ v. v.registry) >>= attempt site id now domain action plan).0
            ≡ ok tt
          → Done plan id now domain w.registry
              (continue
                (act fs (λ v. v) (λ left v. v) w)
                λ _. gets (λ v. v.registry) >>= attempt site id now domain action plan).1
      go [] h = attempt-ok id now domain action plan w.registry w tt h
      go (complete ∷ rest) h =
          attempt-ok id now domain action plan w.registry (record w { faults = rest }) tt h
      go (interrupted true true left ∷ rest) h = absurd cc
      go (interrupted false true left ∷ rest) h = absurd cc
      go (interrupted true false left ∷ rest) h = absurd cc
      go (interrupted false false left ∷ rest) h = absurd cc
