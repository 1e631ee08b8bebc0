-- ===== src/Manager/Apply/Atomic.antt =====
-- `_change` as a whole: what stays, whatever faults strike, and where the stored registry can end.
use hahapent.Base.{◌≡◌, refl, true, false, not, ◌||◌, Option, List, [], ◌∷◌, Outcome, ok, err}
use hahapent.Base.Text.{Text}
use hahapent.Manager.Storage.{Code, invalid_registry, transaction_path_conflict}
use hahapent.Manager.Registry.{Entry, Registry, Transaction, prepared, staged, Action, dict_get}
use hahapent.Manager.World.{
  Place, stage, hold, backup, Fault, complete, interrupted, World, Failure, manager_error, os_error,
  died, ◌>>=◌, ◌>>◌, require, gets, act, perform, continue, exists,
}
use hahapent.Manager.World.Frame.{Keeps, Owns, Owned, Frame, Keeps->>=, Keeps-require}
use hahapent.Manager.Change.{Site, Plan, write_journal, load_state, no_links, recover, set_stored}
use hahapent.Manager.Change.Frame.{
  Keeps-write_journal, Keeps-load_state, Keeps-no_links, Keeps-recover,
}
use hahapent.Manager.Apply.{
  registry_after, plan_source, failure_code, reported, recheck, check_target, stage_new, back_up,
  swap, change_body, handled, attempt, change,
}
use hahapent.Manager.Apply.Result.{
  IsResultOf, IsResult, IsPlanned, planned_backup, planned_result, Keeps-given, stage_new-IsPlanned,
  back_up-planned,
}
use hahapent.Manager.Apply.Frame.{
  Keeps-then, Keeps-check_target, Keeps-recheck, Keeps-stage_new, Keeps-back_up, Keeps-swap,
  Keeps-resulting,
}

module _ (site : Site) (P : World → Type 0) (Touch : Place → Type 0) (frame : Frame P Touch)
    (owned : Owned P Touch) (Allowed : Registry → Type 0)
    (stored_frame : (r : Registry) (w : World) → Allowed r → P w → P (set_stored r w)) where
  Keeps-change_body :
      (plan : Plan) (now : Text) (current : Option Entry) (t : Transaction)
      → Owns Touch t
      → Touch (backup t.transaction_id)
      → ((r : Registry)
          → IsResultOf current plan t.transaction_id now t.domain t.before r
          → Allowed r)
      → Keeps P (change_body site plan now current t)
  unfolding change_body
  Keeps-change_body plan now current t own touch allowed w pw =
      Keeps-then site P Touch frame Allowed stored_frame (write_journal site t prepared) _
        (Keeps-write_journal P Touch frame site t prepared own)
        (Keeps-given P (IsPlanned plan t.transaction_id now current)
          (stage_new site t.transaction_id now current plan) _
          (Keeps-stage_new site P Touch frame Allowed stored_frame t.transaction_id now current plan
            own.own_stage)
          (stage_new-IsPlanned site t.transaction_id now current plan)
          λ entry planned.
            Keeps-given P (λ previous. previous ≡ planned_backup current t.transaction_id)
              (back_up current t.domain t.transaction_id) _
              (Keeps-back_up site P Touch frame Allowed stored_frame current t.domain
                t.transaction_id touch)
              (back_up-planned current t.domain t.transaction_id)
              λ previous saved_.
                Keeps-resulting site P Touch frame Allowed stored_frame
                  (registry_after t.domain entry previous t.before) _
                  (λ after h. staged_part after (
                    allowed after (
                      planned_result current plan t.transaction_id now t.domain t.before after entry
                        previous planned saved_ h))))
        w pw
    where
      owned_by : (after : Registry) → Owns Touch (record t { after = after })
      owned_by after = record {
        own_target = own.own_target;
        own_stage = own.own_stage;
        own_hold = own.own_hold;
      }

      staged_part :
          (after : Registry)
          → Allowed after
          → Keeps P (
              require (site.valid_document after) invalid_registry
              >> (write_journal site (record t { after = after }) staged
                  >> (check_target site t.domain (plan_source plan) >>= λ found.
                      recheck site t.operation t.domain
                      >> swap site current plan (record t { after = after }))))
      staged_part after ha =
          Keeps-then site P Touch frame Allowed stored_frame
            (require (site.valid_document after) invalid_registry) _
            (Keeps-require P Touch frame (site.valid_document after) invalid_registry)
            (Keeps-then site P Touch frame Allowed stored_frame
              (write_journal site (record t { after = after }) staged) _
              (Keeps-write_journal P Touch frame site (record t { after = after }) staged
                (owned_by after))
              (Keeps-then site P Touch frame Allowed stored_frame
                (check_target site t.domain (plan_source plan)) _
                (Keeps-check_target site P Touch frame Allowed stored_frame t.domain
                  (plan_source plan))
                (Keeps-then site P Touch frame Allowed stored_frame
                  (recheck site t.operation t.domain) _
                  (Keeps-recheck site P Touch frame Allowed stored_frame t.operation t.domain)
                  (Keeps-swap site P Touch frame Allowed stored_frame current plan
                    (record t { after = after }) (owned_by after) ha))))

  after_recovery :
      (code : Code) (w : World) → P w → P (reported code ((load_state site >> recover site) w)).1
  unfolding reported
  after_recovery code w pw = go ((load_state site >> recover site) w) (
      Keeps-then site P Touch frame Allowed stored_frame (load_state site) (recover site)
        (Keeps-load_state P Touch frame site) (Keeps-recover P Touch frame site owned) w pw)
    where
      go : {A : Type 0} (r : Outcome Failure A × World) → P r.1 → P (reported code r).1
      go (ok a, v) pv = pv
      go (err died, v) pv = pv
      go (err (manager_error c), v) pv = pv
      go (err os_error, v) pv = pv

  Keeps-handled : (r : Outcome Failure (Unit {0}) × World) → P r.1 → P (handled site r).1
  unfolding handled reported
  Keeps-handled (ok done, w) pw = pw
  Keeps-handled (err died, w) pw = pw
  Keeps-handled (err (manager_error code), w) pw = after_recovery code w pw
  Keeps-handled (err os_error, w) pw = after_recovery (failure_code os_error) w pw

  pub Keeps-attempt :
      (id now domain : Text) (action : Action) (plan : Plan) (before : Registry)
      → ((t : Transaction) → t.domain ≡ domain → t.transaction_id ≡ id → Owns Touch t)
      → Touch (backup id)
      → ((r : Registry) → IsResult plan id now domain before r → Allowed r)
      → Keeps P (attempt site id now domain action plan before)
  unfolding attempt
  Keeps-attempt id now domain action plan before own touch allowed =
      Keeps-then site P Touch frame Allowed stored_frame (no_links domain id) _
        (Keeps-no_links P Touch frame site domain id)
        (Keeps->>= P Touch frame
          (gets (λ w. exists (w.items (stage id)) || exists (w.items (hold id)))) _ (λ w pw. pw)
          (λ present.
            Keeps-then site P Touch frame Allowed stored_frame
              (require (not present) transaction_path_conflict) _
              (Keeps-require P Touch frame (not present) transaction_path_conflict)
              (λ w pw.
                Keeps-handled (change_body site plan now (dict_get domain before.installed) start w)
                  (Keeps-change_body plan now (dict_get domain before.installed) start
                    (own start refl refl) touch allowed w pw))))
    where
      start : Transaction
      start = record {
        transaction_id = id;
        domain = domain;
        operation = action;
        phase = prepared;
        before = before;
        after = before;
      }

  pub Keeps-change :
      (id now domain : Text) (action : Action) (plan : Plan) (w : World)
      → ((t : Transaction) → t.domain ≡ domain → t.transaction_id ≡ id → Owns Touch t)
      → Touch (backup id)
      → ((r : Registry) → IsResult plan id now domain w.registry r → Allowed r)
      → P w
      → P (change site id now domain action plan w).1
  unfolding change perform act ◌>>=◌
  Keeps-change id now domain action plan w own touch allowed pw = go w.faults
    where
      go :
          (fs : List Fault)
          → P
              (continue
                (act fs (λ v. v) (λ left v. v) w)
                λ _. gets (λ v. v.registry) >>= attempt site id now domain action plan).1
      go [] = Keeps-attempt id now domain action plan w.registry own touch allowed w pw
      go (complete ∷ rest) =
          Keeps-attempt id now domain action plan w.registry own touch allowed
            (record w { faults = rest }) (frame.faults_frame rest w pw)
      go (interrupted true true left ∷ rest) = frame.faults_frame rest w pw
      go (interrupted false true left ∷ rest) = frame.faults_frame rest w pw
      go (interrupted true false left ∷ rest) = frame.faults_frame rest w pw
      go (interrupted false false left ∷ rest) = frame.faults_frame rest w pw
