-- ===== src/Manager/Apply/Frame.antt =====
-- What `_change` keeps, whatever faults strike: the files of every path that is not the transaction's,
-- and the stored registry up to the commit.
use hahapent.Base.{
  ℕ, ◌==◌, ◌≡◌, refl, not, ◌||◌, Option, some, none, List, [], ◌∷◌, Outcome, ok, err,
}
use hahapent.Base.Text.{Text}
use hahapent.Manager.Storage.{
  ownership_conflict, remove_native_config_entries_first, undeclared_native_dependency,
}
use hahapent.Manager.Registry.{
  Module, Entry, Registry, Transaction, old_moved, new_moved, committed, Action, install, update,
  rollback, remove, dict_get,
}
use hahapent.Manager.World.{
  Place, target, stage, hold, backup, World, Failure, M, pure, raise, ◌>>=◌, lift, require, gets,
  ask, put, perform, atomic, exists, no_symlink, hash_tree, copy_owned, folder,
}
use hahapent.Manager.World.Frame.{
  Keeps, Owns, Frame, Keeps->>=, Keeps-lift, Keeps-require, Keeps-ask, Keeps-perform, Keeps-atomic,
  Keeps-hash_tree, Keeps-verify_tree, Keeps-move, Keeps-no_symlink, Keeps-copy_owned,
}
use hahapent.Manager.Change.{
  Site, Origin, artifact, saved, extracted, refused, Plan, installing, removing, entry_files,
  set_stored, set_registry, write_journal, finish,
}
use hahapent.Manager.Change.Frame.{Keeps-set_registry, Keeps-finish, Keeps-write_journal}
use hahapent.Manager.Apply.{
  is_core, declared, no_entries, same_source, check_current, native, fill_stage, check_target,
  require_no_config_entries, back_up, resulting, hold_old, place_new, recheck, stage_new, swap,
}

module _ (site : Site) (P : World → Type 0) (Touch : Place → Type 0) (frame : Frame P Touch)
    (Allowed : Registry → Type 0)
    (stored_frame : (r : Registry) (w : World) → Allowed r → P w → P (set_stored r w)) where
  pub Keeps-then :
      {A B : Type 0} (m : M A) (n : M B) → Keeps P m → Keeps P n → Keeps P (m >>= λ _. n)
  Keeps-then m n km kn = Keeps->>= P Touch frame m (λ _. n) km (λ _. kn)

  Keeps-native : (m : Module) (domains : List Text) → Keeps P (native site m domains)
  unfolding native
  Keeps-native m [] w pw = pw
  Keeps-native m (domain ∷ rest) w pw =
      Keeps->>= P Touch frame (ask (site.is_core_domain domain)) _
        (Keeps-ask P Touch frame (site.is_core_domain domain))
        (λ answer.
          Keeps->>= P Touch frame (lift answer) _ (Keeps-lift P Touch frame answer) λ found.
            Keeps->>= P Touch frame (gets (λ v. dict_get domain v.registry.installed)) _
              (λ v pv. pv)
              λ installed.
                Keeps-then
                  (require (is_core found || declared m.dependencies installed)
                    undeclared_native_dependency)
                  (native site m rest)
                  (Keeps-require P Touch frame (is_core found || declared m.dependencies installed)
                    undeclared_native_dependency)
                  (Keeps-native m rest))
        w pw

  Keeps-fill_stage :
      (id : Text) (m : Module) (origin : Origin)
      → Touch (stage id)
      → Keeps P (fill_stage site id m origin)
  unfolding fill_stage
  Keeps-fill_stage id m (saved backup_id files manifest) touch =
      Keeps-then (copy_owned (backup backup_id) (stage id) files) _
        (Keeps-copy_owned P Touch frame (backup backup_id) (stage id) files touch)
        (Keeps->>= P Touch frame (lift manifest) (native site m) (Keeps-lift P Touch frame manifest)
          (Keeps-native m))
  Keeps-fill_stage id m (artifact (extracted tree domains)) touch =
      Keeps-then (perform (put (stage id) (some (folder []))) (λ left w. w)) _
        (Keeps-atomic P Touch frame (put (stage id) (some (folder [])))
          (λ w pw. frame.put_frame (stage id) (some (folder [])) w touch pw))
        (Keeps-then (perform (put (stage id) (some (folder tree))) (put (stage id)))
          (native site m domains)
          (Keeps-perform P Touch frame (put (stage id) (some (folder tree))) (put (stage id))
            (λ w pw. frame.put_frame (stage id) (some (folder tree)) w touch pw)
            (λ left w pw. frame.put_frame (stage id) left w touch pw))
          (Keeps-native m domains))
  Keeps-fill_stage id m (artifact (refused code left)) touch =
      Keeps-then (perform (put (stage id) (some (folder []))) (λ left w. w)) _
        (Keeps-atomic P Touch frame (put (stage id) (some (folder [])))
          (λ w pw. frame.put_frame (stage id) (some (folder [])) w touch pw))
        (Keeps-then (perform (put (stage id) left) (put (stage id))) (raise code)
          (Keeps-perform P Touch frame (put (stage id) left) (put (stage id))
            (λ w pw. frame.put_frame (stage id) left w touch pw)
            (λ some_left w pw. frame.put_frame (stage id) some_left w touch pw))
          (λ w pw. pw))

  Keeps-check_current :
      (domain : Text) (source : Option (Text × Text)) (current : Option Entry)
      → Keeps P (check_current site.normal_url domain source current)
  Keeps-check_current domain source none w pw =
      Keeps-require P Touch frame (not (exists (w.items (target domain)))) ownership_conflict w pw
  Keeps-check_current domain source (some entry) w pw =
      Keeps-then (require (same_source site.normal_url source entry.base) ownership_conflict) _
        (Keeps-require P Touch frame (same_source site.normal_url source entry.base)
          ownership_conflict)
        (Keeps-verify_tree P Touch frame (target domain) (entry_files entry)) w pw

  pub Keeps-check_target :
      (domain : Text) (source : Option (Text × Text)) → Keeps P (check_target site domain source)
  unfolding check_target
  Keeps-check_target domain source =
      Keeps-then (no_symlink (target domain)) _ (Keeps-no_symlink P Touch frame (target domain)) (
        Keeps->>= P Touch frame (gets (λ w. dict_get domain w.registry.installed)) _ (λ w pw. pw)
          λ current.
            Keeps-then (check_current site.normal_url domain source current) (pure current)
              (Keeps-check_current domain source current) (λ w pw. pw))

  Keeps-no_entries : (n : Option ℕ) → Keeps P (no_entries n)
  Keeps-no_entries none w pw = pw
  Keeps-no_entries (some n) w pw =
      Keeps-require P Touch frame (n == 0) remove_native_config_entries_first w pw

  pub Keeps-recheck : (action : Action) (domain : Text) → Keeps P (recheck site action domain)
  unfolding recheck require_no_config_entries
  Keeps-recheck remove domain =
      Keeps->>= P Touch frame (ask (site.config_entries domain)) _
        (Keeps-ask P Touch frame (site.config_entries domain))
        λ answer.
          Keeps->>= P Touch frame (lift answer) no_entries (Keeps-lift P Touch frame answer)
            Keeps-no_entries
  Keeps-recheck install domain = λ w pw. pw
  Keeps-recheck update domain = λ w pw. pw
  Keeps-recheck rollback domain = λ w pw. pw

  pub Keeps-stage_new :
      (id now : Text) (current : Option Entry) (plan : Plan)
      → Touch (stage id)
      → Keeps P (stage_new site id now current plan)
  unfolding stage_new
  Keeps-stage_new id now current removing touch = λ w pw. pw
  Keeps-stage_new id now current (installing m source_id repo origin) touch =
      Keeps-then (fill_stage site id m origin) _ (Keeps-fill_stage id m origin touch) (
        Keeps->>= P Touch frame (hash_tree (stage id)) _ (Keeps-hash_tree P Touch frame (stage id))
          (λ files.
            Keeps-then (atomic (λ w. w)) _ (Keeps-atomic P Touch frame (λ w. w) (λ w pw. pw))
              (λ w pw. pw)))

  pub Keeps-back_up :
      (current : Option Entry) (domain id : Text)
      → Touch (backup id)
      → Keeps P (back_up current domain id)
  unfolding back_up
  Keeps-back_up none domain id touch = λ w pw. pw
  Keeps-back_up (some entry) domain id touch =
      Keeps-then (copy_owned (target domain) (backup id) (entry_files entry)) _
        (Keeps-copy_owned P Touch frame (target domain) (backup id) (entry_files entry) touch)
        (λ w pw. pw)

  Keeps-hold_old :
      (current : Option Entry) (domain id : Text)
      → Touch (target domain)
      → Touch (hold id)
      → Keeps P (hold_old current domain id)
  unfolding hold_old
  Keeps-hold_old none domain id td th = λ w pw. pw
  Keeps-hold_old (some entry) domain id td th =
      Keeps-move P Touch frame (target domain) (hold id) td th

  Keeps-place_new :
      (plan : Plan) (domain id : Text)
      → Touch (target domain)
      → Touch (stage id)
      → Keeps P (place_new plan domain id)
  unfolding place_new
  Keeps-place_new removing domain id td ts = λ w pw. pw
  Keeps-place_new (installing m source_id repo origin) domain id td ts =
      Keeps-move P Touch frame (stage id) (target domain) ts td

  pub Keeps-swap :
      (current : Option Entry) (plan : Plan) (t : Transaction)
      → Owns Touch t
      → Allowed t.after
      → Keeps P (swap site current plan t)
  unfolding swap
  Keeps-swap current plan t own allowed =
      Keeps-then (hold_old current t.domain t.transaction_id) _
        (Keeps-hold_old current t.domain t.transaction_id own.own_target own.own_hold)
        (Keeps-then (write_journal site t old_moved) _
          (Keeps-write_journal P Touch frame site t old_moved own)
          (Keeps-then (place_new plan t.domain t.transaction_id) _
            (Keeps-place_new plan t.domain t.transaction_id own.own_target own.own_stage)
            (Keeps-then (write_journal site t new_moved) _
              (Keeps-write_journal P Touch frame site t new_moved own)
              (Keeps-then (atomic (set_stored t.after)) _
                (Keeps-atomic P Touch frame (set_stored t.after)
                  (λ w pw. stored_frame t.after w allowed pw))
                (Keeps-then (set_registry t.after) _ (Keeps-set_registry P Touch frame t.after) (
                  Keeps-then (write_journal site t committed) (finish t)
                    (Keeps-write_journal P Touch frame site t committed own)
                    (Keeps-finish P Touch frame t own)))))))

  pub Keeps-resulting :
      {A B : Type 0} (r : Outcome Failure A) (f : A → M B)
      → ((a : A) → r ≡ ok a → Keeps P (f a))
      → Keeps P (resulting r >>= f)
  unfolding ◌>>=◌
  Keeps-resulting (ok a) f kf = kf a refl
  Keeps-resulting (err e) f kf = λ w pw. pw
