-- ===== src/Manager/Storage.antt =====
-- manager/hahapent/storage.py: what `hash_tree` accepts and returns. A tree is what os.walk and lstat
-- show, in their order, with the SHA-256 that hashlib gives for each regular file.
use hahapent.Base.{
  ℕ, ◌+◌, ◌*◌, suc, Bool, true, false, not, ◌&&◌, ◌||◌, Option, none, some, List, [], ◌∷◌, ◌++◌,
  length, ltb, leb, ◌==◌, if◌then◌else◌, all_of, take, Outcome, ok, err, ◌>>=◌,
}
use hahapent.Base.Text.{Text, codes, text_eq, text_lt}

pub data Kind : Type 0 where
  directory : Kind
  -- the size and the digest
  regular : ℕ → Text → Kind
  link special : Kind

pub record Node : Type 0 where
  pub parts : List Text
  pub kind : Kind

abbrev pub Tree : Type 0
Tree = List Node

-- A dict of file names, kept in the order of its keys: equal dicts are equal lists.
abbrev pub Files : Type 0
Files = List (Text × Text)

-- The codes of ManagerError that this part raises.
pub data Code : Type 0 where
  ownership_conflict backup_conflict unsafe_filesystem_path : Code
  missing_transaction invalid_transaction invalid_registry invalid_repository
        transaction_path_conflict :
      Code
  recovery_required storage_failure operation_in_progress : Code
  invalid_manifest undeclared_native_dependency ha_status_unavailable : Code
  remove_native_config_entries_first ha_version_incompatible core_ownership_conflict : Code
  dependency_unmet installed_dependent_conflict already_installed rollback_unavailable : Code
  removal_confirmation_required module_not_installed source_unavailable : Code
  module_version_unavailable manager_upgrade_required unsupported_required_feature : Code
  download_failed download_too_large invalid_artifact : Code
  invalid_settings source_trust_required source_identity_conflict source_not_removable : Code
  invalid_request test_catalog_unavailable : Code

abbrev pub max_extract_bytes : ℕ
max_extract_bytes = 67108864

abbrev pub max_files : ℕ
max_files = 2000

is_alnum : ℕ → Bool
is_alnum c =
    (leb b'0' c && leb c b'9') || ((leb b'A' c && leb c b'Z') || (leb b'a' c && leb c b'z'))

is_word : ℕ → Bool
unfolding is_alnum
is_word c = is_alnum c || c == b'_'

-- `[A-Za-z0-9_./-]`
unfoldable pub is_path_char : ℕ → Bool
unfolding is_word
is_path_char c = is_word c || (c == b'.' || (c == b'/' || c == b'-'))

-- `child.relative_to(path).as_posix()`
unfoldable pub relative : List Text → Text
relative [] = []
relative (p ∷ []) = p
relative (p ∷ q ∷ ps) = p ++ b'/' ∷ relative (q ∷ ps)

abbrev pub pycache : Text
pycache = codes "__pycache__"

-- `parts.index(...)`, where it is there
unfoldable pub cache_index : List Text → Option ℕ
cache_index [] = none
cache_index (p ∷ ps) =
    let rest = cache_index ps in
    if text_eq p pycache then some 0 else elim rest [ none ↦ none | some n ↦ some (suc n) ]

unfoldable pub set_file : Text → Text → Files → Files
set_file k v [] = (k, v) ∷ []
set_file k v ((j, w) ∷ rest) =
    if text_eq k j
    then (k, v) ∷ rest
    else if text_lt k j
    then (k, v) ∷ (j, w) ∷ rest
    else (j, w) ∷ set_file k v rest

-- The longest run of word characters, and what follows it.
word : Text → Text × Text
unfolding is_word
word [] = ([], [])
word (c ∷ cs) = let (stem, rest) = word cs in if is_word c then (c ∷ stem, rest) else ([], c ∷ cs)

after_prefix : Text → Text → Option Text
after_prefix [] cs = some cs
after_prefix (p ∷ ps) [] = none
after_prefix (p ∷ ps) (c ∷ cs) = if p == c then after_prefix ps cs else none

is_digit : ℕ → Bool
is_digit c = leb b'0' c && leb c b'9'

-- `(?:\.opt-[12])?\.pyc`
pyc_end : Text → Bool
pyc_end cs =
    text_eq cs (codes ".pyc")
    || (text_eq cs (codes ".opt-1.pyc") || text_eq cs (codes ".opt-2.pyc"))

-- `[0-9]{2,3}`, then the end
pyc_tag : Text → Bool
unfolding is_digit pyc_end
pyc_tag (a ∷ b ∷ c ∷ rest) =
    is_digit a && (is_digit b && (pyc_end (c ∷ rest) || (is_digit c && pyc_end rest)))
pyc_tag _ = false

-- The module that a cached file belongs to: the group of the regular expression.
unfoldable pub cached_module : Text → Option Text
unfolding word after_prefix pyc_tag
cached_module name =
    let (stem, rest) = word name in
    if length stem == 0 then none else elim (after_prefix (codes ".cpython-") rest) [
      | none ↦ none
      | some tag ↦ if pyc_tag tag then some stem else none
    ]

unfoldable pub parts_eq : List Text → List Text → Bool
parts_eq [] [] = true
parts_eq (p ∷ ps) (q ∷ qs) = text_eq p q && parts_eq ps qs
parts_eq _ _ = false

-- `source.is_file() and not source.is_symlink()`
unfoldable pub has_file : Tree → List Text → Bool
unfolding parts_eq
has_file [] ps = false
has_file (n ∷ ns) ps =
    let rest = has_file ns ps in
    if parts_eq n.parts ps then elim n.kind [ regular s d ↦ true | _ ↦ false ] else rest

last_of : List Text → Text
last_of [] = []
last_of (p ∷ []) = p
last_of (p ∷ q ∷ ps) = last_of (q ∷ ps)

-- A file in `__pycache__` is passed over if its source stands beside that folder.
unfoldable pub is_cached : Tree → List Text → ℕ → Kind → Bool
unfolding cached_module has_file last_of
is_cached whole parts index directory = suc index == length parts
is_cached whole parts index (regular size digest) =
    suc (suc index) == length parts && elim (cached_module (last_of parts)) [
      | none ↦ false
      | some stem ↦ has_file whole (take index parts ++ (stem ++ codes ".py") ∷ [])
    ]
is_cached whole parts index link = false
is_cached whole parts index special = false

-- The loop's variables `result`, `total` and `nodes`.
pub record Tally : Type 0 where
  pub result : Files
  pub total : ℕ
  pub nodes : ℕ

abbrev bounded : Tally → Outcome Code Tally
bounded t = if ltb max_files (length t.result) then err ownership_conflict else ok t

unfoldable pub tally_owned : Node → Tally → Outcome Code Tally
unfolding set_file relative
tally_owned n t = elim n.kind [
  | directory ↦
      bounded (record t {
        result = set_file (relative n.parts ++ codes "/") (codes "directory") t.result;
      })
  | regular size digest ↦
      if ltb max_extract_bytes (t.total + size)
      then err ownership_conflict
      else bounded (record t {
        result = set_file (relative n.parts) digest t.result;
        total = t.total + size;
      })
  | link ↦ err ownership_conflict
  | special ↦ err ownership_conflict
]

abbrev is_link : Kind → Bool
is_link link = true
is_link _ = false

-- One round of the loop of `hash_tree`.
unfoldable pub tally : Tree → Node → Tally → Outcome Code Tally
unfolding cache_index is_cached tally_owned is_path_char relative
tally whole n t =
    let counted = record t { nodes = t.nodes + 1 } in
    if ltb (max_files * 2) (t.nodes + 1)
      || (not (all_of is_path_char (relative n.parts))
          || (length (relative n.parts) == 0 || is_link n.kind))
    then err ownership_conflict
    else elim (cache_index n.parts) [
      | some index ↦
          if is_cached whole n.parts index n.kind then ok counted else err ownership_conflict
      | none ↦ tally_owned n counted
    ]

unfoldable pub tally_all : Tree → List Node → Tally → Outcome Code Tally
tally_all whole [] t = ok t
tally_all whole (n ∷ ns) t = tally whole n t >>= tally_all whole ns

-- `hash_tree` of a directory
unfoldable pub hash_nodes : Tree → Outcome Code Files
unfolding tally_all
hash_nodes tree = do
  t ← tally_all tree tree (record { result = []; total = 0; nodes = 0 })
  ok t.result

-- `shutil.ignore_patterns("__pycache__")`
unfoldable pub without_caches : Tree → Tree
unfolding cache_index
without_caches [] = []
without_caches (n ∷ ns) =
    let rest = without_caches ns in
    elim (cache_index n.parts) [ none ↦ n ∷ rest | some index ↦ rest ]
