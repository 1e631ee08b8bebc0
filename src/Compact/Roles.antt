-- ===== src/Compact/Roles.antt =====
-- compact.py: the checks on dynamic values that come before any recipe.
use text.Mathlib.Text.{◌==◌ as str_eq}
use hahapent.Base.{
  ℕ, Bool, true, false, ◌&&◌, Option, none, some, List, [], ◌∷◌, length, ◌==◌, if◌then◌else◌,
  any_of, Outcome, ok, err, String,
}
use hahapent.Base.Value.{
  Value, null, str, dict, Fields, int_upto, sequence, lookup_field, has_only, each,
}

-- One constructor for each ValueError of compact.py, and the division by zero that Python would
-- raise.
pub data CompactError : Type 0 where
  bad_roles bad_role_keys bad_rgb bad_intensity bad_channels no_basis zero_division : CompactError

pub data Role : Type 0 where
  unused red green blue white : Role

abbrev pub role_eq : Role → Role → Bool
role_eq unused unused = true
role_eq red red = true
role_eq green green = true
role_eq blue blue = true
role_eq white white = true
role_eq _ _ = false

-- A value that is a string of `_ROLES`, as the role that it names.
abbrev pub role_of : Value → Option Role
role_of (str s) =
    if str_eq s "unused"
    then some unused
    else if str_eq s "red"
    then some red
    else if str_eq s "green"
    then some green
    else if str_eq s "blue"
    then some blue
    else if str_eq s "white"
    then some white
    else none
role_of _ = none

abbrev pub has_role : Role → List Role → Bool
has_role r = any_of (role_eq r)

-- `set(_PRIMARIES).issubset(roles)`
abbrev pub has_primaries : List Role → Bool
has_primaries roles = has_role red roles && (has_role green roles && has_role blue roles)

abbrev pub check_roles : Option (List Role) → Outcome CompactError (List Role)
check_roles none = err bad_roles
check_roles (some roles) =
    if length roles == 6 && has_primaries roles then ok roles else err bad_roles

abbrev pub role_items : Option (List Value) → Option (List Role)
role_items none = none
role_items (some items) = each role_of items

unfoldable pub validate_roles : Value → Outcome CompactError (List Role)
validate_roles roles = check_roles (role_items (sequence roles))

abbrev pub channel_keys : List String
channel_keys =
    "channel_a" ∷ "channel_b" ∷ "channel_c" ∷ "channel_d" ∷ "channel_e" ∷ "channel_f" ∷ []

-- `mapping[key] for key in _CHANNEL_KEYS`, where every key is there.
pick : List String → Fields → Option (List Value)
pick [] fields = some []
pick (k ∷ ks) fields = elim (lookup_field k fields) [
  | none ↦ none
  | some v ↦ elim (pick ks fields) [ none ↦ none | some vs ↦ some (v ∷ vs) ]
]

picked_roles : Option (List Value) → Outcome CompactError (List Role)
picked_roles none = err bad_role_keys
picked_roles (some vs) = check_roles (each role_of vs)

unfoldable pub normalize_channel_roles : Value → Outcome CompactError (List Role)
unfolding pick picked_roles
normalize_channel_roles (dict fields) =
    if has_only channel_keys fields
    then picked_roles (pick channel_keys fields)
    else err bad_role_keys
normalize_channel_roles _ = err bad_role_keys

-- `d.get(key)`
get_field : String → Fields → Value
get_field key fields = elim (lookup_field key fields) [ none ↦ null | some v ↦ v ]

to_option : Outcome CompactError (List Role) → Option (List Role)
to_option (ok roles) = some roles
to_option (err e) = none

version_is : ℕ → Value → Bool
version_is n v = elim (int_upto n v) [ none ↦ false | some m ↦ m == n ]

unfoldable pub compact_roles_from_options : Value → Option (List Role)
unfolding get_field to_option version_is
compact_roles_from_options (dict options) =
    if version_is 1 (get_field "channel_roles_version" options)
    then to_option (normalize_channel_roles (get_field "channel_roles" options))
    else none
compact_roles_from_options _ = none

abbrev pub sized : ℕ → CompactError → Option (List ℕ) → Outcome CompactError (List ℕ)
sized size e none = err e
sized size e (some ns) = if length ns == size then ok ns else err e

abbrev pub number_items : ℕ → Option (List Value) → Option (List ℕ)
number_items maximum none = none
number_items maximum (some items) = each (int_upto maximum) items

unfoldable pub integer_tuple : Value → ℕ → ℕ → CompactError → Outcome CompactError (List ℕ)
integer_tuple value size maximum e = sized size e (number_items maximum (sequence value))

pub record Rgb : Type 0 where
  pub r : ℕ
  pub g : ℕ
  pub b : ℕ

abbrev pub rgb_of : Outcome CompactError (List ℕ) → Outcome CompactError Rgb
rgb_of (ok (r ∷ g ∷ b ∷ [])) = ok (record { r = r; g = g; b = b })
rgb_of (ok _) = err bad_rgb
rgb_of (err e) = err e

unfoldable pub validate_rgb : Value → Outcome CompactError Rgb
validate_rgb value = rgb_of (integer_tuple value 3 255 bad_rgb)

unfoldable pub level_of : Option ℕ → Outcome CompactError ℕ
level_of none = err bad_intensity
level_of (some n) = ok n

unfoldable pub validate_intensity : Value → Outcome CompactError ℕ
unfolding level_of
validate_intensity value = level_of (int_upto 100 value)

unfoldable pub channels_of : Value → Outcome CompactError (List ℕ)
channels_of value = integer_tuple value 6 100 bad_channels
