-- ===== src/Manager/Apply/Commit.antt =====
-- What `_change` and `_recover` of manager/hahapent/engine.py can write, at whatever step the disk fails or
-- the process dies.
use mathlib.Core.Path.{subst}
use hahapent.Base.{◌≡◌, refl, sym, ap, ◌∙◌, ◌⊎◌, false, Option, none, some, if◌then◌else◌}
use hahapent.Base.Text.{Text}
use hahapent.Manager.Registry.{Registry, Transaction, Action}
use hahapent.Manager.World.{Item, Place, target, stage, hold, backup, place_eq, World}
use hahapent.Manager.World.Frame.{Owns, Frame}
use hahapent.Manager.Change.{Site, Plan, recover}
use hahapent.Manager.Change.Frame.{Keeps-recover}
use hahapent.Manager.Apply.{change}
use hahapent.Manager.Apply.Atomic.{Keeps-change}

-- The stored registry is the first one, or a result of the operation.
abbrev IsOldOrNew : (Registry → Type 0) → Registry → World → Type 0
IsOldOrNew New old v = (v.stored ≡ old) ⊎ New v.stored

abbrev pub Anywhere : Place → Type 0
Anywhere p = Unit {0}

pub all_owned : (t : Transaction) → Owns Anywhere t
all_owned t = record { own_target = tt; own_stage = tt; own_hold = tt }

pub stored_frame : (old : Registry) → Frame (λ v. v.stored ≡ old) Anywhere
stored_frame old = record {
  put_frame = λ p item w _ h. h;
  journal_frame = λ t w _ h. h;
  cleared = λ w h. h;
  registry_frame = λ r w h. h;
  faults_frame = λ fs w h. h;
  calls_frame = λ w h. h;
}

-- Whatever faults strike, `_recover` does not write the stored registry.
pub recover-stored : (site : Site) (w : World) → (recover site w).1.stored ≡ w.stored
recover-stored site w =
    Keeps-recover (λ v. v.stored ≡ w.stored) Anywhere (stored_frame w.stored) site
      (λ t v _ _. all_owned t) w refl

-- A path that is none of the transaction's.
pub record IsForeign (domain id : Text) (q : Place) : Type 0 where
  pub other_target : place_eq (target domain) q ≡ false
  pub other_stage : place_eq (stage id) q ≡ false
  pub other_hold : place_eq (hold id) q ≡ false
  pub other_backup : place_eq (backup id) q ≡ false

-- The item is there, and a transaction in the journal would not touch it.
abbrev JournalSpares : Place → Option Transaction → Type 0
JournalSpares q none = Unit {0}
JournalSpares q (some t) = Owns (λ p. place_eq p q ≡ false) t

record Untouched (q : Place) (item : Option Item) (v : World) : Type 0 where
  same_item : v.items q ≡ item
  own_journal : JournalSpares q v.journal

Untouched-frame :
    (q : Place) (item : Option Item) → Frame (Untouched q item) (λ p. place_eq p q ≡ false)
Untouched-frame q item = record {
  put_frame = λ p new w hp h. record {
    same_item = ap (λ b. if b then new else w.items q) hp ∙ h.same_item;
    own_journal = h.own_journal;
  };
  journal_frame = λ t w own h. record { same_item = h.same_item; own_journal = own };
  cleared = λ w h. record { same_item = h.same_item; own_journal = tt };
  registry_frame = λ r w h. record { same_item = h.same_item; own_journal = h.own_journal };
  faults_frame = λ fs w h. record { same_item = h.same_item; own_journal = h.own_journal };
  calls_frame = λ w h. record { same_item = h.same_item; own_journal = h.own_journal };
}

-- Whatever faults strike, `_change` that begins without a journal leaves every path alone but the target
-- of its domain and its own stage, hold and backup: no other integration is touched, also by the recovery.
pub change-elsewhere :
    (site : Site) (id now domain : Text) (action : Action) (plan : Plan) (w : World) (q : Place)
    → w.journal ≡ none
    → IsForeign domain id q
    → (change site id now domain action plan w).1.items q ≡ w.items q
change-elsewhere site id now domain action plan w q hj foreign = changed.same_item
  where
    changed : Untouched q (w.items q) (change site id now domain action plan w).1
    changed =
        Keeps-change site (Untouched q (w.items q)) (λ p. place_eq p q ≡ false)
          (Untouched-frame q (w.items q)) (λ t v h ht. subst (JournalSpares q) ht h.own_journal)
          (λ r. Unit {0})
          (λ r v _ h. record { same_item = h.same_item; own_journal = h.own_journal }) id now domain
          action plan w
          (λ t hd hi. record {
            own_target = ap (λ d. place_eq (target d) q) hd ∙ foreign.other_target;
            own_stage = ap (λ i. place_eq (stage i) q) hi ∙ foreign.other_stage;
            own_hold = ap (λ i. place_eq (hold i) q) hi ∙ foreign.other_hold;
          })
          foreign.other_backup (λ r _. tt)
          (record { same_item = refl; own_journal = subst (JournalSpares q) (sym hj) tt })
