-- ===== src/Manager/Change/Torn.antt =====
-- manager/hahapent/engine.py: `_recover` after a removal of old files that was cut off within `rmtree`.
use hahapent.Base.{
  ◌≡◌, ◌≢◌, refl, ap, ◌∙◌, sym, Bool, true, false, not, ◌&&◌, ◌||◌, Option, some, [], Outcome, ok,
  err, if◌then◌else◌,
}
use hahapent.Base.Text.{same, same_iff}
use hahapent.Manager.Storage.{
  Tree, Files, Code, hash_nodes, ownership_conflict, invalid_transaction, unsafe_filesystem_path,
  recovery_required,
}
use hahapent.Manager.Registry.{
  Entry, Registry, Registry-discrete, Transaction, dict_get, validate_registry,
}
use hahapent.Manager.World.{
  act, perform, Item, folder, Place, target, stage, hold, World, Failure, manager_error, M, pure,
  raise, continue, ◌>>=◌, ◌>>◌, lift, require, gets, exists, is_symlink, no_symlink, hash_item,
  hash_tree, Files-discrete, verify_tree, remove_owned,
}
use hahapent.Manager.Change.{
  Site, Recovered, entry_files, verify_after, drop_held, drop_hold, finish, equal, settle,
  roll_back, finished, rolled_back, no_links, recover_from, recover,
}

-- The new registry is committed and its files are there, and of the old tree only some part is left
-- that is not what the old entry says.
pub record IsTorn (site : Site) (t : Transaction) (old : Entry) (left : Tree) (w : World)
    : Type 0 where
  pub in_journal : w.journal ≡ some t
  pub is_valid : site.valid_transaction t ≡ true
  pub valid_before : validate_registry site.valid_url t.before ≡ ok tt
  pub valid_after : validate_registry site.valid_url t.after ≡ ok tt
  pub plain_target : is_symlink (w.items (target t.domain)) ≡ false
  pub plain_stage : is_symlink (w.items (stage t.transaction_id)) ≡ false
  pub is_committed : w.stored ≡ t.after
  pub is_change : equal t.after t.before ≡ false
  pub new_is_there :
      (r : Registry)
      → verify_after (dict_get t.domain t.after.installed) t.domain (record w { registry = r })
        ≡ (ok tt, record w { registry = r })
  pub had_old : dict_get t.domain t.before.installed ≡ some old
  pub is_left : w.items (hold t.transaction_id) ≡ some (folder left)
  -- the disk does not fail again
  pub no_faults : w.faults ≡ []
  pub is_part : hash_nodes left ≢ ok (entry_files old)

passes :
    {A B : Type 0} (m : M A) (f : A → M B) (w : World) (a : A)
    → m w ≡ (ok a, w)
    → (m >>= f) w ≡ f a w
unfolding ◌>>=◌
passes m f w a h = ap (λ r. continue r f) h

stops :
    {A B : Type 0} (m : M A) (f : A → M B) (w : World) (e : Failure)
    → m w ≡ (err e, w)
    → (m >>= f) w ≡ (err e, w)
unfolding ◌>>=◌
stops m f w e h = ap (λ r. continue r f) h

unverified :
    (p : Place) (left : Tree) (files : Files) (w : World)
    → w.faults ≡ []
    → w.items p ≡ some (folder left)
    → hash_nodes left ≢ ok files
    → (code : Code) × (verify_tree p files w ≡ (err (manager_error code), w))
unfolding verify_tree hash_tree perform act ◌>>=◌
unverified p left files w hf hi hn =
    let (code, e) = go (hash_item (w.items p)) (ap hash_item (sym hi)) in
    (code, ap (λ fs. continue (continue (act fs (λ v. v) (λ part v. v) w) find) compare) hf ∙ e)
  where
    find : Unit {0} → M Files
    find _ v = lift (hash_item (v.items p)) v

    compare : Files → M (Unit {0})
    compare found = require (same Files-discrete found files) ownership_conflict

    compared :
        (found : Files)
        → hash_nodes left ≡ ok found
        → (b : Bool) → same Files-discrete found files ≡ b
        → require b ownership_conflict w ≡ (err (manager_error ownership_conflict), w)
    compared found h true hb = absurd (hn (h ∙ ap ok ((same_iff Files-discrete found files).0 hb)))
    compared found h false hb = refl

    go :
        (r : Outcome Code Files)
        → hash_nodes left ≡ r
        → (code : Code) × (continue (lift r w) compare ≡ (err (manager_error code), w))
    go (err code) h = (code, refl)
    go (ok found) h = (ownership_conflict, compared found h (same Files-discrete found files) refl)

module _ (site : Site) (t : Transaction) (old : Entry) (left : Tree) (w : World)
    (torn : IsTorn site t old left w) (loaded : w.registry ≡ w.stored) where
  finish-torn : (code : Code) × (finish t w ≡ (err (manager_error code), w))
  unfolding finish drop_hold drop_held remove_owned
  finish-torn =
      let refused =
        unverified (hold t.transaction_id) left (entry_files old) w torn.no_faults torn.is_left
          torn.is_part in
      (
        refused.0,
        passes (verify_after (dict_get t.domain t.after.installed) t.domain) _ w tt
              (torn.new_is_there w.registry)
            ∙ stops (drop_hold (dict_get t.domain t.before.installed) t.transaction_id) _ w
                (manager_error refused.0)
                (held
                  ∙ stops (verify_tree (hold t.transaction_id) (entry_files old)) _ w
                      (manager_error refused.0) refused.1),
      )
    where
      held :
          drop_hold (dict_get t.domain t.before.installed) t.transaction_id w
          ≡ remove_owned (hold t.transaction_id) (entry_files old) w
      held =
          ap (λ o. drop_hold o t.transaction_id w) torn.had_old
          ∙ ap
              (λ item.
                if exists item || is_symlink item
                then drop_held (some old) t.transaction_id w
                else (ok tt, w))
              torn.is_left

  links : no_links t.domain t.transaction_id w ≡ (ok tt, w)
  unfolding no_links
  links =
      passes (no_symlink (target t.domain)) _ w tt
        (plain (w.items (target t.domain)) torn.plain_target)
      ∙ (passes (no_symlink (stage t.transaction_id)) _ w tt
            (plain (w.items (stage t.transaction_id)) torn.plain_stage)
          ∙ plain (w.items (hold t.transaction_id)) (ap is_symlink torn.is_left))
    where
      plain :
          (item : Option Item)
          → is_symlink item ≡ false
          → require (not (is_symlink item)) unsafe_filesystem_path w ≡ (ok tt, w)
      plain item h = ap (λ b. require (not b) unsafe_filesystem_path w) h

  settle-torn : (code : Code) × (settle t w ≡ (err (manager_error code), w))
  unfolding settle
  settle-torn = (
    finish-torn.0,
    passes (gets (λ v. v.registry)) _ w w.registry refl
        ∙ (ap (λ b. (if b then (finish t >> pure finished) else otherwise) w) commit
            ∙ stops (finish t) (λ _. pure finished) w (manager_error finish-torn.0) finish-torn.1),
  )
    where
      otherwise : M Recovered
      otherwise =
          if equal w.registry t.before
          then (roll_back t >> pure rolled_back)
          else raise recovery_required

      commit : (equal w.registry t.after && not (equal t.after t.before)) ≡ true
      commit =
          ap (λ b. b && not (equal t.after t.before))
            ((same_iff Registry-discrete w.registry t.after).1 (loaded ∙ torn.is_committed))
          ∙ ap not torn.is_change

  -- The recovery refuses and changes nothing.
  pub recover-IsTorn : (code : Code) × (recover site w ≡ (err (manager_error code), w))
  unfolding recover recover_from
  recover-IsTorn = (
    settle-torn.0,
    ap (λ j. recover_from site j w) torn.in_journal
        ∙ (passes (require (site.valid_transaction t) invalid_transaction) _ w tt
              (ap (λ b. require b invalid_transaction w) torn.is_valid)
            ∙ (passes (lift (validate_registry site.valid_url t.before)) _ w tt
                  (ap (λ r. lift r w) torn.valid_before)
                ∙ (passes (lift (validate_registry site.valid_url t.after)) _ w tt
                      (ap (λ r. lift r w) torn.valid_after)
                    ∙ (passes (no_links t.domain t.transaction_id) (λ _. settle t) w tt links
                        ∙ settle-torn.1)))),
  )
