-- ===== src/Manager/World.antt =====
-- The file system and the memory of engine.py, actions on them, and their faults.
pub mod Frame
pub mod Ends
use hahapent.Base.{
  ℕ, ◌+◌, Bool, true, false, not, ◌&&◌, ◌||◌, Option, none, some, List, [], ◌∷◌, length, ◌==◌,
  if◌then◌else◌, Outcome, ok, err,
}
use hahapent.Base.Text.{Text, text_eq, same}
use native.Mathlib.Decide.{ℕ_discrete}
use hahapent.Manager.Storage.{
  Tree, Files, Code, ownership_conflict, backup_conflict, unsafe_filesystem_path, hash_nodes,
  without_caches,
}
use hahapent.Manager.Sources.{Settings}
use hahapent.Manager.Registry.{Registry, Transaction, Phase, Action}

-- What a path is: a directory, a symbolic link (whose end may exist or not), or another file.
pub data Item : Type 0 where
  folder : Tree → Item
  link_to : Bool → Item
  other_file : Item

-- The paths that a transaction moves. The paths of two names are different.
pub data Place : Type 0 where
  target stage hold backup : Text → Place

unfoldable pub place_eq : Place → Place → Bool
place_eq (target a) (target b) = text_eq a b
place_eq (stage a) (stage b) = text_eq a b
place_eq (hold a) (hold b) = text_eq a b
place_eq (backup a) (backup b) = text_eq a b
place_eq _ _ = false

-- How an operation on the disk ends. An interrupted one raises an OSError or dies with the process;
-- either its effect is already there (a later fsync failed), or some part is left.
pub data Fault : Type 0 where
  complete : Fault
  interrupted : (dies : Bool) (applied : Bool) (left : Option Item) → Fault

pub record World : Type 0 where
  pub items : Place → Option Item
  pub journal : Option Transaction
  pub stored : Registry
  -- the file of the settings
  pub settings : Settings
  -- `self.registry`
  pub registry : Registry
  -- what becomes of the next operations on the disk, and the calls of Home Assistant so far
  pub faults : List Fault
  pub calls : ℕ

pub data Failure : Type 0 where
  -- a ManagerError, an OSError, and the end of the process or another exception, which no handler sees
  manager_error : Code → Failure
  os_error died : Failure

abbrev pub M : Type 0 → Type 0
M A = World → Outcome Failure A × World

abbrev pub pure : {A : Type 0} → A → M A
pure a w = (ok a, w)

abbrev pub raise : {A : Type 0} → Code → M A
raise code w = (err (manager_error code), w)

abbrev pub continue :
    {A B : Type 0} → Outcome Failure A × World → (A → M B) → Outcome Failure B × World
continue (ok a, w) f = f a w
continue (err e, w) f = (err e, w)

infixl 5 ◌>>=◌ ◌>>◌
unfoldable pub ◌>>=◌ : {A B : Type 0} → M A → (A → M B) → M B
◌>>=◌ m f w = continue (m w) f

abbrev pub ◌>>◌ : {B : Type 0} → M (Unit {0}) → M B → M B
m >> k = m >>= λ _. k

abbrev pub lift : {A : Type 0} → Outcome Code A → M A
lift (ok a) w = (ok a, w)
lift (err code) w = (err (manager_error code), w)

-- `if not test: raise ManagerError(code)`
abbrev pub require : Bool → Code → M (Unit {0})
require true code w = (ok tt, w)
require false code w = (err (manager_error code), w)

abbrev pub gets : {A : Type 0} → (World → A) → M A
gets f w = (ok (f w), w)

-- An answer of Home Assistant, which may differ from one call to the next.
abbrev pub ask : {A : Type 0} → (ℕ → A) → M A
ask answer w = (ok (answer w.calls), record w { calls = w.calls + 1 })

abbrev pub put : Place → Option Item → World → World
put p item w = record w { items = λ q. if place_eq p q then item else w.items q }

abbrev pub struck : Bool → Outcome Failure (Unit {0})
struck true = err died
struck false = err os_error

-- An operation on the disk: its effect, and what it may leave when it is interrupted.
unfoldable pub act : List Fault → (World → World) → (Option Item → World → World) → M (Unit {0})
act [] effect part w = (ok tt, effect w)
act (complete ∷ fs) effect part w = (ok tt, effect (record w { faults = fs }))
act (interrupted dies true left ∷ fs) effect part w =
    (struck dies, effect (record w { faults = fs }))
act (interrupted dies false left ∷ fs) effect part w =
    (struck dies, part left (record w { faults = fs }))

unfoldable pub perform : (World → World) → (Option Item → World → World) → M (Unit {0})
perform effect part w = act w.faults effect part w

-- An operation that is done or not, such as a rename.
abbrev pub atomic : (World → World) → M (Unit {0})
atomic effect = perform effect (λ left w. w)

-- `path.exists()`
abbrev pub exists : Option Item → Bool
exists none = false
exists (some (folder tree)) = true
exists (some (link_to present)) = present
exists (some other_file) = true

abbrev pub is_symlink : Option Item → Bool
is_symlink (some (link_to present)) = true
is_symlink _ = false

-- `no_symlink`, for the path itself; the folders above it are taken to be no links.
abbrev pub no_symlink : Place → M (Unit {0})
no_symlink p w = require (not (is_symlink (w.items p))) unsafe_filesystem_path w

-- What `hash_tree` finds.
abbrev pub hash_item : Option Item → Outcome Code Files
hash_item (some (folder tree)) = hash_nodes tree
hash_item (some (link_to present)) = err unsafe_filesystem_path
hash_item (some other_file) = err ownership_conflict
hash_item none = err ownership_conflict

-- `hash_tree`; reading the tree is an operation on the disk that can fail.
unfoldable pub hash_tree : Place → M Files
hash_tree p = atomic (λ w. w) >>= λ _ w. lift (hash_item (w.items p)) w

unfoldable pub Files-discrete : Discrete Files
Files-discrete = hlevel ℕ_discrete

-- `verify_tree`
unfoldable pub verify_tree : Place → Files → M (Unit {0})
unfolding hash_tree
verify_tree p files = do
  found ← hash_tree p
  require (same Files-discrete found files) ownership_conflict

abbrev pub tree_of : Option Item → Tree
tree_of (some (folder tree)) = tree
tree_of _ = []

abbrev pub put_copy : Place → Place → World → World
put_copy source destination w =
    put destination (some (folder (without_caches (tree_of (w.items source))))) w

-- `copy_owned`; the last step is the syncs.
unfoldable pub copy_owned : Place → Place → Files → M (Unit {0})
unfolding verify_tree
copy_owned source destination files = do
  verify_tree source files
  no_symlink destination
  present ← gets (λ w. exists (w.items destination))
  require (not present) backup_conflict
  perform (put_copy source destination) (put destination)
  verify_tree destination files
  atomic (λ w. w)

-- `remove_owned`; an interrupted removal leaves some part of the tree.
unfoldable pub remove_owned : Place → Files → M (Unit {0})
unfolding verify_tree
remove_owned p files = do verify_tree p files; perform (put p none) (put p)

-- `os.replace` of a directory, and the sync of the folder above.
unfoldable pub movable : Option Item → Bool
movable none = true
movable (some (folder tree)) = length tree == 0
movable (some _) = false

unfoldable pub moved : Place → Place → World → World
moved p q w = put p none (put q (w.items p) w)

unfoldable pub move : Place → Place → M (Unit {0})
unfolding movable moved
move p q w =
    if exists (w.items p) && movable (w.items q) then atomic (moved p q) w else (err os_error, w)
