-- ===== src/Manager/World/Frame.antt =====
-- Statements about the world that the actions of engine.py keep, whatever faults strike: one rule for
-- each way to build an action.
use hahapent.Base.{
  ℕ, ◌+◌, not, ◌&&◌, ◌≡◌, Bool, true, false, Option, some, none, List, [], ◌∷◌, Outcome, ok, err,
  if◌then◌else◌,
}
use hahapent.Base.Text.{same}
use hahapent.Manager.Storage.{
  Files, Code, ownership_conflict, backup_conflict, unsafe_filesystem_path, without_caches,
}
use hahapent.Manager.Registry.{Registry, Transaction}
use hahapent.Manager.World.{
  Item, Place, target, stage, hold, Fault, complete, interrupted, World, Failure, os_error, M,
  continue, ◌>>=◌, lift, require, gets, ask, put, act, perform, atomic, exists, no_symlink,
  hash_item, hash_tree, is_symlink, tree_of, folder, Files-discrete, verify_tree, put_copy,
  copy_owned, remove_owned, movable, moved, move,
}

-- `P` stands after the action, however it ends.
abbrev pub Keeps : {A : Type 0} → (World → Type 0) → M A → Type 0
Keeps P m = (w : World) → P w → P (m w).1

-- The paths of a transaction are among the paths `Touch`.
pub record Owns (Touch : Place → Type 0) (t : Transaction) : Type 0 where
  pub own_target : Touch (target t.domain)
  pub own_stage : Touch (stage t.transaction_id)
  pub own_hold : Touch (hold t.transaction_id)

-- `P` says nothing of the paths `Touch`.
pub record Frame (P : World → Type 0) (Touch : Place → Type 0) : Type 0 where
  pub put_frame : (p : Place) (item : Option Item) (w : World) → Touch p → P w → P (put p item w)
  pub journal_frame :
      (t : Transaction) (w : World) → Owns Touch t → P w → P (record w { journal = some t })
  pub cleared : (w : World) → P w → P (record w { journal = none })
  pub registry_frame : (r : Registry) (w : World) → P w → P (record w { registry = r })
  pub faults_frame : (fs : List Fault) (w : World) → P w → P (record w { faults = fs })
  pub calls_frame : (w : World) → P w → P (record w { calls = w.calls + 1 })

-- Any transaction in the journal has only the paths `Touch`.
abbrev pub Owned : (World → Type 0) → (Place → Type 0) → Type 0
Owned P Touch = (t : Transaction) (w : World) → P w → w.journal ≡ some t → Owns Touch t

module _ (P : World → Type 0) (Touch : Place → Type 0) (frame : Frame P Touch) where
  pub Keeps->>= :
      {A B : Type 0} (m : M A) (f : A → M B)
      → Keeps P m
      → ((a : A) → Keeps P (f a))
      → Keeps P (m >>= f)
  unfolding ◌>>=◌
  Keeps->>= {A} {B} m f km kf w pw = go (m w) (km w pw)
    where
      go : (r : Outcome Failure A × World) → P r.1 → P (continue r f).1
      go (ok a, v) pv = kf a v pv
      go (err e, v) pv = pv

  pub Keeps-choice :
      {A : Type 0} (b : Bool) (m n : M A) → Keeps P m → Keeps P n → Keeps P (if b then m else n)
  Keeps-choice true m n km kn = km
  Keeps-choice false m n km kn = kn

  -- A choice that the world makes.
  pub Keeps-test :
      {A : Type 0} (b : World → Bool) (m n : M A)
      → Keeps P m
      → Keeps P n
      → Keeps P (λ w. if b w then m w else n w)
  Keeps-test {A} b m n km kn w pw = go (b w)
    where
      go : (c : Bool) → P (if c then m w else n w).1
      go true = km w pw
      go false = kn w pw

  pub Keeps-lift : {A : Type 0} (r : Outcome Code A) → Keeps P (lift r)
  Keeps-lift (ok a) w pw = pw
  Keeps-lift (err code) w pw = pw

  pub Keeps-require : (b : Bool) (code : Code) → Keeps P (require b code)
  Keeps-require true code w pw = pw
  Keeps-require false code w pw = pw

  pub Keeps-ask : {A : Type 0} (answer : ℕ → A) → Keeps P (ask answer)
  Keeps-ask answer w pw = frame.calls_frame w pw

  -- An effect, and all that an interruption may leave of it.
  pub Keeps-perform :
      (effect : World → World) (part : Option Item → World → World)
      → ((w : World) → P w → P (effect w))
      → ((left : Option Item) (w : World) → P w → P (part left w))
      → Keeps P (perform effect part)
  unfolding perform act
  Keeps-perform effect part ke kp w pw = go w.faults
    where
      go : (fs : List Fault) → P (act fs effect part w).1
      go [] = ke w pw
      go (complete ∷ rest) = ke (record w { faults = rest }) (frame.faults_frame rest w pw)
      go (interrupted dies true left ∷ rest) =
          ke (record w { faults = rest }) (frame.faults_frame rest w pw)
      go (interrupted dies false left ∷ rest) =
          kp left (record w { faults = rest }) (frame.faults_frame rest w pw)

  pub Keeps-atomic :
      (effect : World → World) → ((w : World) → P w → P (effect w)) → Keeps P (atomic effect)
  Keeps-atomic effect ke = Keeps-perform effect (λ left w. w) ke (λ left w pw. pw)

  pub Keeps-hash_tree : (p : Place) → Keeps P (hash_tree p)
  unfolding hash_tree
  Keeps-hash_tree p =
      Keeps->>= (atomic (λ w. w)) _ (Keeps-atomic (λ w. w) (λ w pw. pw))
        λ _ w pw. Keeps-lift (hash_item (w.items p)) w pw

  pub Keeps-verify_tree : (p : Place) (files : Files) → Keeps P (verify_tree p files)
  unfolding verify_tree
  Keeps-verify_tree p files =
      Keeps->>= (hash_tree p)
        (λ found. require (same Files-discrete found files) ownership_conflict) (Keeps-hash_tree p)
        (λ found. Keeps-require (same Files-discrete found files) ownership_conflict)

  pub Keeps-remove_owned : (p : Place) (files : Files) → Touch p → Keeps P (remove_owned p files)
  unfolding remove_owned
  Keeps-remove_owned p files touch =
      Keeps->>= (verify_tree p files) _ (Keeps-verify_tree p files) λ _.
        Keeps-perform (put p none) (put p) (λ w pw. frame.put_frame p none w touch pw)
          (λ left w pw. frame.put_frame p left w touch pw)

  pub Keeps-move : (p q : Place) → Touch p → Touch q → Keeps P (move p q)
  unfolding move moved
  Keeps-move p q tp tq =
      Keeps-test (λ w. exists (w.items p) && movable (w.items q)) (atomic (moved p q))
        (λ w. (err os_error, w))
        (Keeps-atomic (moved p q) λ w pw.
          frame.put_frame p none (put q (w.items p) w) tp (frame.put_frame q (w.items p) w tq pw))
        (λ w pw. pw)

  pub Keeps-no_symlink : (p : Place) → Keeps P (no_symlink p)
  Keeps-no_symlink p w pw = Keeps-require (not (is_symlink (w.items p))) unsafe_filesystem_path w pw

  pub Keeps-copy_owned : (p q : Place) (files : Files) → Touch q → Keeps P (copy_owned p q files)
  unfolding copy_owned
  Keeps-copy_owned p q files touch =
      Keeps->>= (verify_tree p files) _ (Keeps-verify_tree p files) λ _.
        Keeps->>= (no_symlink q) _ (Keeps-no_symlink q) λ _.
          Keeps->>= (gets (λ w. exists (w.items q))) _ (λ w pw. pw)
            λ present.
              Keeps->>= (require (not present) backup_conflict) _
                (Keeps-require (not present) backup_conflict)
                λ _.
                  Keeps->>= (perform (put_copy p q) (put q)) _
                    (Keeps-perform (put_copy p q) (put q)
                      (λ w pw.
                        frame.put_frame q (some (folder (without_caches (tree_of (w.items p))))) w
                          touch pw)
                      (λ left w pw. frame.put_frame q left w touch pw))
                    λ _.
                      Keeps->>= (verify_tree q files) _ (Keeps-verify_tree q files)
                        λ _. Keeps-atomic (λ w. w) (λ w pw. pw)
