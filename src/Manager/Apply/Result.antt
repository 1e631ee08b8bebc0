-- ===== src/Manager/Apply/Result.antt =====
-- manager/hahapent/engine.py: the registry that `_change` makes.
use mathlib.Core.Path.{subst}
use hahapent.Base.{◌≡◌, refl, sym, [], Option, none, some, Outcome, ok, err}
use hahapent.Base.Text.{Text}
use hahapent.Manager.Storage.{Files}
use hahapent.Manager.Registry.{BaseEntry, Backup, Entry, Registry, dict_get}
use hahapent.Manager.World.{
  World, Failure, M, continue, ◌>>=◌, hash_tree, stage, atomic, target, backup, copy_owned,
}
use hahapent.Manager.World.Frame.{Keeps}
use hahapent.Manager.Change.{Site, Plan, installing, removing, entry_files}
use hahapent.Manager.Apply.{old_extensions, registry_after, stage_new, back_up, fill_stage}

-- The entry of the plan, under the identity and the time of the transaction, with the files found.
abbrev pub planned_entry : Plan → Text → Text → Option Entry → Files → Option BaseEntry
planned_entry removing id now current files = none
planned_entry (installing m source_id repo origin) id now current files = some (record {
  source_id = source_id;
  repository_url = repo;
  mod_ = m;
  files = files;
  installed_at = now;
  transaction_id = id;
  restart_pending = m.restart;
  extensions = old_extensions current;
})

-- The backup of what was installed, under the identity of the transaction.
abbrev pub planned_backup : Option Entry → Text → Option Backup
planned_backup none id = none
planned_backup (some entry) id =
    some (record { backup_id = id; entry = entry.base; restart_pending = none })

abbrev pub IsResultOf : Option Entry → Plan → Text → Text → Text → Registry → Registry → Type 0
IsResultOf current plan id now domain before r =
    (files : Files) × (registry_after domain (planned_entry plan id now current files)
        (planned_backup current id) before
      ≡ ok r)

-- The registry that the operation makes from `before`: for an installation it has the entry of the plan and
-- the backup of what was installed, for a removal it has no entry and the backup; only the files of the new
-- entry are left open.
abbrev pub IsResult : Plan → Text → Text → Text → Registry → Registry → Type 0
IsResult plan id now domain before =
    IsResultOf (dict_get domain before.installed) plan id now domain before

-- What an action returns, if it returns.
abbrev pub Gives : {A : Type 0} → (A → Type 0) → M A → Type 0
Gives {A} R m = (w : World) (a : A) → (m w).0 ≡ ok a → R a

pub Gives->>= :
    {A B : Type 0} (R : B → Type 0) (m : M A) (f : A → M B)
    → ((a : A) → Gives R (f a))
    → Gives R (m >>= f)
unfolding ◌>>=◌
Gives->>= {A} {B} R m f hf w b h = go (m w) h
  where
    go : (r : Outcome Failure A × World) → (continue r f).0 ≡ ok b → R b
    go (ok a, v) h = hf a v b h
    go (err e, v) h = absurd cc

returned : {A : Type 0} {a b : A} → ◌≡◌ {A = Outcome Failure A} (ok a) (ok b) → a ≡ b
returned h = cc

Gives-pure : {A : Type 0} (R : A → Type 0) (a : A) → R a → Gives R (λ w. (ok a, w))
Gives-pure R a ra w b h = subst R (returned h) ra

-- A chain in which what is returned decides what comes next.
pub Keeps-given :
    {A B : Type 0} (P : World → Type 0) (R : A → Type 0) (m : M A) (f : A → M B)
    → Keeps P m
    → Gives R m
    → ((a : A) → R a → Keeps P (f a))
    → Keeps P (m >>= f)
unfolding ◌>>=◌
Keeps-given {A} {B} P R m f km gm kf w pw = go (m w) (km w pw) (gm w)
  where
    go : (r : Outcome Failure A × World) → P r.1 → ((a : A) → r.0 ≡ ok a → R a) → P (continue r f).1
    go (ok a, v) pv g = kf a (g a refl) v pv
    go (err e, v) pv g = pv

abbrev pub IsPlanned : Plan → Text → Text → Option Entry → Option BaseEntry → Type 0
IsPlanned plan id now current entry =
    (files : Files) × (entry ≡ planned_entry plan id now current files)

pub stage_new-IsPlanned :
    (site : Site) (id now : Text) (current : Option Entry) (plan : Plan)
    → Gives (IsPlanned plan id now current) (stage_new site id now current plan)
unfolding stage_new
stage_new-IsPlanned site id now current removing w a h = ([], sym (returned h))
stage_new-IsPlanned site id now current (installing m source_id repo origin) w a h =
    (Gives->>= R (fill_stage site id m origin) _ λ _. Gives->>= R (hash_tree (stage id)) _ λ files.
        Gives->>= R (atomic (λ w. w)) _ λ _.
          Gives-pure R (planned_entry (installing m source_id repo origin) id now current files)
            (files, refl))
      w a h
  where
    R : Option BaseEntry → Type 0
    R = IsPlanned (installing m source_id repo origin) id now current

pub back_up-planned :
    (current : Option Entry) (domain id : Text)
    → Gives (λ previous. previous ≡ planned_backup current id) (back_up current domain id)
unfolding back_up
back_up-planned none domain id = Gives-pure _ none refl
back_up-planned (some entry) domain id =
    Gives->>= _ (copy_owned (target domain) (backup id) (entry_files entry)) _
      λ _. Gives-pure _ (planned_backup (some entry) id) refl

pub planned_result :
    (current : Option Entry) (plan : Plan) (id now domain : Text) (before r : Registry)
    (entry : Option BaseEntry) (previous : Option Backup)
    → IsPlanned plan id now current entry
    → previous ≡ planned_backup current id
    → registry_after domain entry previous before ≡ ok r
    → IsResultOf current plan id now domain before r
planned_result current plan id now domain before r entry previous (files, he) hb h =
    (files, rw⁻¹ (he, hb) h)
