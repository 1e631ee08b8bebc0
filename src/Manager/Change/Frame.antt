-- ===== src/Manager/Change/Frame.antt =====
-- What the journal, `_finish` and `_recover` keep.
use hahapent.Base.{◌≡◌, refl, Bool, true, false, not, ◌&&◌, ◌||◌, Option, some, none, if◌then◌else◌}
use hahapent.Base.Text.{Text, same}
use hahapent.Manager.Storage.{
  invalid_registry, invalid_settings, recovery_required, invalid_transaction,
}
use hahapent.Manager.Registry.{
  Entry, Entry-discrete, Registry, Transaction, Phase, dict_get, validate_registry,
}
use hahapent.Manager.Sources.{load_settings}
use hahapent.Manager.World.{
  Place, target, stage, hold, World, M, pure, raise, ◌>>=◌, ◌>>◌, lift, require, gets, exists,
  is_symlink, no_symlink, hash_tree, verify_tree, remove_owned,
}
use hahapent.Manager.World.Frame.{
  Keeps, Owns, Owned, Frame, Keeps->>=, Keeps-choice, Keeps-test, Keeps-lift, Keeps-require,
  Keeps-atomic, Keeps-hash_tree, Keeps-verify_tree, Keeps-remove_owned, Keeps-move,
  Keeps-no_symlink,
}
use hahapent.Manager.Change.{
  Site, finished, rolled_back, entry_files, set_journal, set_registry, write_journal, load_state,
  remove_stage, drop_journal, finish, roll_back, equal, settle, recover, unlink_journal,
  verify_after, drop_held, drop_hold, drop_target, drop_new, restore_hold, keep_target, no_links,
  recover_from,
}

module _ (P : World → Type 0) (Touch : Place → Type 0) (frame : Frame P Touch) where
  Keeps-then : {A B : Type 0} (m : M A) (n : M B) → Keeps P m → Keeps P n → Keeps P (m >>= λ _. n)
  Keeps-then m n km kn = Keeps->>= P Touch frame m (λ _. n) km (λ _. kn)

  pub Keeps-set_registry : (r : Registry) → Keeps P (set_registry r)
  Keeps-set_registry r w pw = frame.registry_frame r w pw

  pub Keeps-remove_stage : (id : Text) → Touch (stage id) → Keeps P (remove_stage id)
  unfolding remove_stage
  Keeps-remove_stage id touch =
      Keeps-test P Touch frame (λ w. exists (w.items (stage id)) || is_symlink (w.items (stage id)))
        (hash_tree (stage id) >>= remove_owned (stage id)) (pure tt)
        (Keeps->>= P Touch frame (hash_tree (stage id)) (remove_owned (stage id))
          (Keeps-hash_tree P Touch frame (stage id))
          (λ files. Keeps-remove_owned P Touch frame (stage id) files touch))
        (λ w pw. pw)

  Keeps-unlink : (j : Option Transaction) → Keeps P (unlink_journal j)
  unfolding unlink_journal
  Keeps-unlink none w pw = pw
  Keeps-unlink (some t) w pw = Keeps-atomic P Touch frame (set_journal none) frame.cleared w pw

  pub Keeps-drop_journal : Keeps P drop_journal
  unfolding drop_journal
  Keeps-drop_journal w pw = Keeps-unlink w.journal w pw

  Keeps-verify_after : (entry : Option Entry) (domain : Text) → Keeps P (verify_after entry domain)
  unfolding verify_after
  Keeps-verify_after (some entry) domain w pw =
      Keeps-verify_tree P Touch frame (target domain) (entry_files entry) w pw
  Keeps-verify_after none domain w pw =
      Keeps-require P Touch frame
        (not (exists (w.items (target domain)) || is_symlink (w.items (target domain))))
        recovery_required w pw

  Keeps-drop_held : (old : Option Entry) (id : Text) → Touch (hold id) → Keeps P (drop_held old id)
  unfolding drop_held
  Keeps-drop_held none id touch w pw = pw
  Keeps-drop_held (some entry) id touch w pw =
      Keeps-remove_owned P Touch frame (hold id) (entry_files entry) touch w pw

  pub Keeps-drop_hold :
      (old : Option Entry) (id : Text) → Touch (hold id) → Keeps P (drop_hold old id)
  unfolding drop_hold
  Keeps-drop_hold old id touch =
      Keeps-test P Touch frame (λ w. exists (w.items (hold id)) || is_symlink (w.items (hold id)))
        (drop_held old id) (pure tt) (Keeps-drop_held old id touch) (λ w pw. pw)

  pub Keeps-finish : (t : Transaction) → Owns Touch t → Keeps P (finish t)
  unfolding finish
  Keeps-finish t own =
      Keeps-then (verify_after (dict_get t.domain t.after.installed) t.domain) _
        (Keeps-verify_after (dict_get t.domain t.after.installed) t.domain)
        (Keeps-then (drop_hold (dict_get t.domain t.before.installed) t.transaction_id) _
          (Keeps-drop_hold (dict_get t.domain t.before.installed) t.transaction_id own.own_hold)
          (Keeps-then (remove_stage t.transaction_id) drop_journal
            (Keeps-remove_stage t.transaction_id own.own_stage) Keeps-drop_journal))

  Keeps-drop_target :
      (after : Option Entry) (unchanged : Bool) (domain : Text)
      → Touch (target domain)
      → Keeps P (drop_target after unchanged domain)
  unfolding drop_target
  Keeps-drop_target none unchanged domain touch w pw = pw
  Keeps-drop_target (some entry) true domain touch w pw = pw
  Keeps-drop_target (some entry) false domain touch w pw =
      Keeps-remove_owned P Touch frame (target domain) (entry_files entry) touch w pw

  Keeps-drop_new :
      (after : Option Entry) (unchanged : Bool) (domain : Text)
      → Touch (target domain)
      → Keeps P (drop_new after unchanged domain)
  unfolding drop_new
  Keeps-drop_new after unchanged domain touch =
      Keeps-test P Touch frame (λ w. exists (w.items (target domain)))
        (drop_target after unchanged domain) (pure tt)
        (Keeps-drop_target after unchanged domain touch) (λ w pw. pw)

  Keeps-restore_hold :
      (before after : Option Entry) (unchanged : Bool) (domain id : Text)
      → Touch (target domain)
      → Touch (hold id)
      → Keeps P (restore_hold before after unchanged domain id)
  unfolding restore_hold
  Keeps-restore_hold none after unchanged domain id td th w pw = pw
  Keeps-restore_hold (some entry) after unchanged domain id td th w pw =
      Keeps-then (verify_tree (hold id) (entry_files entry)) _
        (Keeps-verify_tree P Touch frame (hold id) (entry_files entry))
        (Keeps-then (drop_new after unchanged domain) _ (Keeps-drop_new after unchanged domain td)
          (Keeps-move P Touch frame (hold id) (target domain) th td))
        w pw

  Keeps-keep_target :
      (before after : Option Entry) (domain : Text)
      → Touch (target domain)
      → Keeps P (keep_target before after domain)
  unfolding keep_target
  Keeps-keep_target (some entry) after domain touch =
      Keeps-verify_tree P Touch frame (target domain) (entry_files entry)
  Keeps-keep_target none after domain touch = Keeps-drop_new after false domain touch

  pub Keeps-roll_back : (t : Transaction) → Owns Touch t → Keeps P (roll_back t)
  unfolding roll_back
  Keeps-roll_back t own =
      let before = dict_get t.domain t.before.installed in
      let after = dict_get t.domain t.after.installed in
      Keeps->>= P Touch frame (gets (λ w. exists (w.items (hold t.transaction_id)))) _ (λ w pw. pw)
        λ held.
          Keeps-then
            (if held
              then restore_hold before after (same Entry-discrete after before) t.domain
                  t.transaction_id
              else keep_target before after t.domain)
            _
            (Keeps-choice P Touch frame held
              (restore_hold before after (same Entry-discrete after before) t.domain
                t.transaction_id)
              (keep_target before after t.domain)
              (Keeps-restore_hold before after (same Entry-discrete after before) t.domain
                t.transaction_id own.own_target own.own_hold)
              (Keeps-keep_target before after t.domain own.own_target))
            (Keeps-then (remove_stage t.transaction_id) drop_journal
              (Keeps-remove_stage t.transaction_id own.own_stage) Keeps-drop_journal)

  pub Keeps-settle : (t : Transaction) → Owns Touch t → Keeps P (settle t)
  unfolding settle
  Keeps-settle t own =
      Keeps->>= P Touch frame (gets (λ w. w.registry)) _ (λ w pw. pw)
        λ r.
          Keeps-choice P Touch frame (equal r t.after && not (equal t.after t.before))
            (finish t >> pure finished)
            (if equal r t.before
              then (roll_back t >> pure rolled_back)
              else raise recovery_required)
            (Keeps-then (finish t) (pure finished) (Keeps-finish t own) (λ w pw. pw))
            (Keeps-choice P Touch frame (equal r t.before) (roll_back t >> pure rolled_back)
              (raise recovery_required)
              (Keeps-then (roll_back t) (pure rolled_back) (Keeps-roll_back t own) (λ w pw. pw))
              (λ w pw. pw))

  module _ (site : Site) where
    pub Keeps-write_journal :
        (t : Transaction) (phase : Phase) → Owns Touch t → Keeps P (write_journal site t phase)
    unfolding write_journal
    Keeps-write_journal t phase own =
        Keeps-then
          (require (site.valid_transaction (record t { phase = phase })) invalid_transaction) _
          (Keeps-require P Touch frame (site.valid_transaction (record t { phase = phase }))
            invalid_transaction)
          (Keeps-atomic P Touch frame (set_journal (some (record t { phase = phase }))) λ w pw.
            frame.journal_frame (record t { phase = phase }) w
              (record {
                own_target = own.own_target;
                own_stage = own.own_stage;
                own_hold = own.own_hold;
              })
              pw)

    pub Keeps-load_state : Keeps P (load_state site)
    unfolding load_state
    Keeps-load_state =
        Keeps->>= P Touch frame (gets (λ w. w.settings)) _ (λ w pw. pw)
          λ s.
            Keeps-then (require (site.valid_settings s) invalid_settings) _
              (Keeps-require P Touch frame (site.valid_settings s) invalid_settings)
              (Keeps->>= P Touch frame (gets (λ w. w.stored)) _ (λ w pw. pw)
                λ r.
                  Keeps-then (require (site.valid_document r) invalid_registry) _
                    (Keeps-require P Touch frame (site.valid_document r) invalid_registry)
                    (Keeps-then (set_registry r) _ (Keeps-set_registry r) (
                      Keeps-then (lift (load_settings site.valid_url site.normal_url s)) _
                        (Keeps-lift P Touch frame (load_settings site.valid_url site.normal_url s))
                        (Keeps-lift P Touch frame (validate_registry site.valid_url r)))))

    pub Keeps-no_links : (domain id : Text) → Keeps P (no_links domain id)
    unfolding no_links
    Keeps-no_links domain id =
        Keeps-then (no_symlink (target domain)) _ (Keeps-no_symlink P Touch frame (target domain)) (
          Keeps-then (no_symlink (stage id)) _ (Keeps-no_symlink P Touch frame (stage id))
            (Keeps-no_symlink P Touch frame (hold id)))

    Keeps-recover_from :
        (j : Option Transaction)
        → ((t : Transaction) → j ≡ some t → Owns Touch t)
        → Keeps P (recover_from site j)
    unfolding recover_from
    Keeps-recover_from none own w pw = pw
    Keeps-recover_from (some t) own w pw =
        Keeps-then (require (site.valid_transaction t) invalid_transaction) _
          (Keeps-require P Touch frame (site.valid_transaction t) invalid_transaction)
          (Keeps-then (lift (validate_registry site.valid_url t.before)) _
            (Keeps-lift P Touch frame (validate_registry site.valid_url t.before))
            (Keeps-then (lift (validate_registry site.valid_url t.after)) _
              (Keeps-lift P Touch frame (validate_registry site.valid_url t.after))
              (Keeps-then (no_links t.domain t.transaction_id) (settle t)
                (Keeps-no_links t.domain t.transaction_id) (Keeps-settle t (own t refl)))))
          w pw

    pub Keeps-recover : Owned P Touch → Keeps P (recover site)
    unfolding recover
    Keeps-recover owned w pw = Keeps-recover_from w.journal (λ t ht. owned t w pw ht) w pw
