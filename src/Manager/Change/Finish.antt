-- ===== src/Manager/Change/Finish.antt =====
-- What a `_finish` that returned has made sure of.
use mathlib.Core.Path.{subst}
use hahapent.Base.{
  ◌≡◌, refl, ap, sym, Bool, true, false, not, ◌||◌, Option, some, none, ok, if◌then◌else◌,
}
use hahapent.Base.Text.{Text}
use hahapent.Manager.Storage.{recovery_required}
use hahapent.Manager.Registry.{Entry, Transaction, dict_get}
use hahapent.Manager.World.{
  Item, Place, target, place_eq, World, require, exists, is_symlink, hash_item,
}
use hahapent.Manager.World.Frame.{Frame, Keeps->>=}
use hahapent.Manager.World.Ends.{Ends, Ends->>=, Ends-Keeps, Ends-atomic, verify_tree-ok}
use hahapent.Manager.Change.{
  entry_files, set_journal, verify_after, drop_hold, remove_stage, unlink_journal, drop_journal,
  finish,
}
use hahapent.Manager.Change.Frame.{Keeps-drop_hold, Keeps-remove_stage, Keeps-drop_journal}

-- The item is what an entry says: its files, or nothing.
abbrev pub Matches : Option Entry → Option Item → Type 0
Matches (some entry) item = hash_item item ≡ ok (entry_files entry)
Matches none item = (exists item || is_symlink item) ≡ false

verified-Matches :
    (entry : Option Entry) (domain : Text)
    → Ends (λ v. Matches entry (v.items (target domain))) (verify_after entry domain)
unfolding verify_after
verified-Matches (some entry) domain w a h =
    verify_tree-ok (target domain) (entry_files entry) w a h
verified-Matches none domain w a h =
    go (exists (w.items (target domain)) || is_symlink (w.items (target domain))) refl h
  where
    go :
        (b : Bool)
        → (exists (w.items (target domain)) || is_symlink (w.items (target domain))) ≡ b
        → (require (not b) recovery_required w).0 ≡ ok a
        → (exists ((require (not b) recovery_required w).1.items (target domain))
            || is_symlink ((require (not b) recovery_required w).1.items (target domain)))
          ≡ false
    go true hb h = absurd cc
    go false hb h = hb

-- A statement about the target alone.
abbrev Elsewhere : Text → Place → Type 0
Elsewhere domain p = place_eq p (target domain) ≡ false

target_frame :
    (domain : Text) (Q : Option Item → Type 0)
    → Frame (λ v. Q (v.items (target domain))) (λ p. place_eq p (target domain) ≡ false)
target_frame domain Q = record {
  put_frame =
      λ p item w hp h. subst Q (sym (ap (λ b. if b then item else w.items (target domain)) hp)) h;
  journal_frame = λ t w _ h. h;
  cleared = λ w h. h;
  registry_frame = λ r w h. h;
  faults_frame = λ fs w h. h;
  calls_frame = λ w h. h;
}

unlinked : (j : Option Transaction) → Ends (λ v. v.journal ≡ none) (unlink_journal j)
unfolding unlink_journal
unlinked none w a h = absurd cc
unlinked (some t) w a h = Ends-atomic (λ v. v.journal ≡ none) (set_journal none) (λ v. refl) w a h

-- A `_finish` that returned has found the new files (or nothing) at the target, and the journal is gone.
pub finish-ok :
    (t : Transaction)
    → Ends
        (λ v.
          Matches (dict_get t.domain t.after.installed) (v.items (target t.domain))
          × (v.journal ≡ none))
        (finish t)
unfolding finish drop_journal place_eq
finish-ok t w a h = (
  Ends-Keeps Q (verify_after entry t.domain) _ (verified-Matches entry t.domain)
      (λ _.
        Keeps->>= Q touch frame (drop_hold old id) _ (Keeps-drop_hold Q touch frame old id refl)
          λ _.
            Keeps->>= Q touch frame (remove_stage id) _ (Keeps-remove_stage Q touch frame id refl)
              λ _. Keeps-drop_journal Q touch frame)
      w a h,
  Ends->>= (λ v. v.journal ≡ none) (verify_after entry t.domain) _
      (λ _.
        Ends->>= (λ v. v.journal ≡ none) (drop_hold old id) _
          λ _. Ends->>= (λ v. v.journal ≡ none) (remove_stage id) _ λ _ v. unlinked v.journal v)
      w a h,
)
  where
    entry : Option Entry
    entry = dict_get t.domain t.after.installed

    old : Option Entry
    old = dict_get t.domain t.before.installed

    id : Text
    id = t.transaction_id

    Q : World → Type 0
    Q v = Matches (dict_get t.domain t.after.installed) (v.items (target t.domain))

    touch : Place → Type 0
    touch p = place_eq p (target t.domain) ≡ false

    frame :
        Frame
          (λ v. Matches (dict_get t.domain t.after.installed) (v.items (target t.domain)))
          (λ p. place_eq p (target t.domain) ≡ false)
    frame = target_frame t.domain (Matches (dict_get t.domain t.after.installed))
