-- ===== src/Manager/Versions.antt =====
-- manager/hahapent/catalog.py: versions, required features, and whether a module fits the running Home
-- Assistant. `int` is read on decimal digits; its signs, spaces and underscores stand in no version.
use hahapent.Base.{
  ℕ, ◌+◌, ◌-◌, ◌*◌, Bool, true, false, not, ◌&&◌, ◌||◌, Option, none, some, List, [], ◌∷◌, all_of,
  ltb, leb, ◌==◌, if◌then◌else◌, length,
}
use hahapent.Base.Text.{Text, text_eq, text_lt}

-- `value.split(".")`
unfoldable pub split : ℕ → Text → List Text
split sep [] = [] ∷ []
split sep (c ∷ cs) =
    let rest = split sep cs in
    if c == sep then [] ∷ rest else elim rest [ [] ↦ (c ∷ []) ∷ [] | w ∷ ws ↦ (c ∷ w) ∷ ws ]

pub record Parted : Type 0 where
  pub head : Text
  pub found : Bool
  pub tail : Text

-- `value.partition(sep)`
unfoldable pub partition : ℕ → Text → Parted
partition sep [] = record { head = []; found = false; tail = [] }
partition sep (c ∷ cs) =
    let rest = partition sep cs in
    if c == sep
    then record { head = []; found = true; tail = cs }
    else record rest { head = c ∷ rest.head }

abbrev is_decimal : ℕ → Bool
is_decimal c = leb b'0' c && leb c b'9'

-- `p.isdigit()`
unfoldable pub is_digits : Text → Bool
is_digits p = not (length p == 0) && all_of is_decimal p

unfoldable pub number_from : ℕ → Text → ℕ
number_from acc [] = acc
number_from acc (c ∷ cs) = number_from (10 * acc + (c - b'0')) cs

-- `int(p)`, or its ValueError
unfoldable pub to_int : Text → Option ℕ
unfolding is_digits number_from
to_int p = if is_digits p then some (number_from 0 p) else none

unfoldable pub to_ints : List Text → Option (List ℕ)
unfolding to_int
to_ints [] = some []
to_ints (p ∷ ps) = elim (to_int p) [
  | none ↦ none
  | some n ↦ elim (to_ints ps) [ none ↦ none | some ns ↦ some (n ∷ ns) ]
]

-- `_version_tuple`
unfoldable pub version_tuple : Text → Option (List ℕ)
unfolding to_ints split
version_tuple value = to_ints (split b'.' value)

-- `(0, int(p))` or `(1, p)`
pub data Identifier : Type 0 where
  number : ℕ → Identifier
  name : Text → Identifier

unfoldable pub identifier_lt : Identifier → Identifier → Bool
identifier_lt (number m) (number n) = ltb m n
identifier_lt (number m) (name q) = true
identifier_lt (name p) (number n) = false
identifier_lt (name p) (name q) = text_lt p q

unfoldable pub identifier_eq : Identifier → Identifier → Bool
identifier_eq (number m) (number n) = m == n
identifier_eq (number m) (name q) = false
identifier_eq (name p) (number n) = false
identifier_eq (name p) (name q) = text_eq p q

-- Tuples are compared at the first place where they differ, and a prefix is smaller.
unfoldable pub identifiers_lt : List Identifier → List Identifier → Bool
unfolding identifier_lt identifier_eq
identifiers_lt [] [] = false
identifiers_lt [] (q ∷ qs) = true
identifiers_lt (p ∷ ps) [] = false
identifiers_lt (p ∷ ps) (q ∷ qs) = identifier_lt p q || (identifier_eq p q && identifiers_lt ps qs)

pub record SemverKey : Type 0 where
  pub core : List ℕ
  -- `not bool(sep)`
  pub final : Bool
  pub identifiers : List Identifier

abbrev identifier_of : Text → Identifier
identifier_of p = elim (to_int p) [ none ↦ name p | some n ↦ number n ]

unfoldable pub identifiers_of : List Text → List Identifier
identifiers_of [] = []
identifiers_of (p ∷ ps) = identifier_of p ∷ identifiers_of ps

abbrev key_of : Parted → Option (List ℕ) → Option SemverKey
key_of main none = none
key_of main (some core) = some (record {
  core = core;
  final = not main.found;
  identifiers = identifiers_of (split b'.' main.tail);
})

-- `none` is a ValueError.
unfoldable pub semver_key : Text → Option SemverKey
unfolding partition split version_tuple identifiers_of to_int
semver_key value =
    let main = partition b'-' (partition b'+' value).head in key_of main (version_tuple main.head)

-- `a < b` of two keys; False is below True.
unfoldable pub semver_lt : SemverKey → SemverKey → Bool
unfolding identifiers_lt
semver_lt a b =
    text_lt a.core b.core
    || (text_eq a.core b.core
        && ((not a.final && b.final)
            || (((a.final && b.final) || (not a.final && not b.final))
                && identifiers_lt a.identifiers b.identifiers)))

-- What a module's or a catalog's `home_assistant` says.
pub record Compatibility : Type 0 where
  pub min_version : Text
  pub max_version_exclusive : Option Text

abbrev below : List ℕ → Option Text → Bool
below current none = true
below current (some most) = elim (version_tuple most) [
  | none ↦ false
  | some limit ↦ text_lt current limit
]

-- `compatible(module, core_version)`; `none` stands for a value that is not a string.
unfoldable pub compatible : Compatibility → Option Text → Bool
unfolding version_tuple
compatible compat none = false
compatible compat (some core_version) = elim (version_tuple core_version) [
  | none ↦ false
  | some current ↦ elim (version_tuple compat.min_version) [
    | none ↦ false
    | some least ↦ not (text_lt current least) && below current compat.max_version_exclusive
  ]
]
