-- ===== src/Manager/World/Ends.antt =====
-- What holds after an action that returned: the rules by which a proof follows the end of a chain.
use hahapent.Base.{◌≡◌, refl, ap, ◌∙◌, Bool, true, false, List, [], ◌∷◌, Outcome, ok, err}
use hahapent.Base.Text.{same, same_iff}
use hahapent.Manager.Storage.{Files, Code, ownership_conflict}
use hahapent.Manager.World.{
  Place, Fault, complete, interrupted, World, Failure, M, continue, ◌>>=◌, lift, require, act,
  perform, atomic, hash_item, hash_tree, Files-discrete, verify_tree,
}
use hahapent.Manager.World.Frame.{Keeps}

abbrev pub Ends : {A : Type 0} → (World → Type 0) → M A → Type 0
Ends {A} Q m = (w : World) (a : A) → (m w).0 ≡ ok a → Q (m w).1

module _ {A B : Type 0} (Q : World → Type 0) where
  pub Ends->>= : (m : M A) (f : A → M B) → ((a : A) → Ends Q (f a)) → Ends Q (m >>= f)
  unfolding ◌>>=◌
  Ends->>= m f hf w b h = go (m w) h
    where
      go : (r : Outcome Failure A × World) → (continue r f).0 ≡ ok b → Q (continue r f).1
      go (ok a, v) h = hf a v b h
      go (err e, v) h = absurd cc

  -- What an action establishes and the rest keeps.
  pub Ends-Keeps : (m : M A) (f : A → M B) → Ends Q m → ((a : A) → Keeps Q (f a)) → Ends Q (m >>= f)
  unfolding ◌>>=◌
  Ends-Keeps m f hm hf w b h = go (m w) (hm w) h
    where
      go :
          (r : Outcome Failure A × World)
          → ((a : A) → r.0 ≡ ok a → Q r.1)
          → (continue r f).0 ≡ ok b
          → Q (continue r f).1
      go (ok a, v) hq h = hf a v (hq a refl)
      go (err e, v) hq h = absurd cc

pub Ends-atomic :
    (Q : World → Type 0) (effect : World → World)
    → ((w : World) → Q (effect w))
    → Ends Q (atomic effect)
unfolding perform act
Ends-atomic Q effect hq w a h = go w.faults h
  where
    go :
        (fs : List Fault)
        → (act fs effect (λ left v. v) w).0 ≡ ok a
        → Q (act fs effect (λ left v. v) w).1
    go [] h = hq w
    go (complete ∷ rest) h = hq (record w { faults = rest })
    go (interrupted true true left ∷ rest) h = absurd cc
    go (interrupted false true left ∷ rest) h = absurd cc
    go (interrupted true false left ∷ rest) h = absurd cc
    go (interrupted false false left ∷ rest) h = absurd cc

-- A tree that has been verified has the files.
pub verify_tree-ok :
    (p : Place) (files : Files) → Ends (λ v. hash_item (v.items p) ≡ ok files) (verify_tree p files)
unfolding verify_tree hash_tree ◌>>=◌
verify_tree-ok p files w a h = start (atomic (λ v. v) w) h
  where
    find : Unit {0} → M Files
    find _ v = lift (hash_item (v.items p)) v

    compare : Files → M (Unit {0})
    compare found = require (same Files-discrete found files) ownership_conflict

    compared :
        (v : World) (found : Files)
        → hash_item (v.items p) ≡ ok found
        → (b : Bool) → same Files-discrete found files ≡ b
        → (require b ownership_conflict v).0 ≡ ok a
        → hash_item ((require b ownership_conflict v).1.items p) ≡ ok files
    compared v found hr true hb h = hr ∙ ap ok ((same_iff Files-discrete found files).0 hb)
    compared v found hr false hb h = absurd cc

    go :
        (v : World) (r : Outcome Code Files)
        → hash_item (v.items p) ≡ r
        → (continue (lift r v) compare).0 ≡ ok a
        → hash_item ((continue (lift r v) compare).1.items p) ≡ ok files
    go v (err e) hr h = absurd cc
    go v (ok found) hr h = compared v found hr (same Files-discrete found files) refl h

    start :
        (r : Outcome Failure (Unit {0}) × World)
        → (continue (continue r find) compare).0 ≡ ok a
        → hash_item ((continue (continue r find) compare).1.items p) ≡ ok files
    start (ok x, v) h = go v (hash_item (v.items p)) refl h
    start (err e, v) h = absurd cc
