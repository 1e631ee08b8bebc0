-- ===== src/PowerMemory/Record.antt =====
-- state_store.py: the stored document, typed, with its validation and its encoding.
pub mod Codec
pub mod Sound
use Prim.Native.String.{count}
use text.Mathlib.Text.{◌==◌ as str_eq}
use hahapent.Base.{
  ℕ, ◌≤◌, ◌≡◌, Bool, true, false, ◌&&◌, Option, none, some, List, [], ◌∷◌, map, length, ◌==◌, leb,
  if◌then◌else◌, String, not, ◌||◌,
}
use hahapent.Base.Value.{
  Value, null, bool, int, pos, str, list, dict, Values, Fields, end, field, of_ℕ, of_list, to_list,
  int_upto, lookup_field, has_only, each,
}
use hahapent.Base.Partial.{◌>>=◌, ◌>>◌, check}
use hahapent.Compact.Recipe.{any_nonzero}
use hahapent.Protocol.Reply.{Pair, pair_eq, bytes_eq}
use hahapent.Client.State.{DeviceState}

-- `_profile(state)`
pub record Profile : Type 0 where
  pub controller : Pair
  pub version : Pair
  pub count : ℕ

unfoldable pub profile_of : DeviceState → Profile
profile_of s = record {
  controller = s.system.controller_bytes;
  version = s.system.version_bytes;
  count = s.system.channel_count_raw;
}

unfoldable pub profile_eq : Profile → Profile → Bool
profile_eq a b =
    pair_eq a.controller b.controller && (pair_eq a.version b.version && a.count == b.count)

pub record LastManual : Type 0 where
  pub profile : Profile
  pub channels : List ℕ

pub record OffOrigin : Type 0 where
  pub profile : Profile
  pub mode : ℕ
  pub manual_channels : Option (List ℕ)
  pub confirmed : Bool
  pub off_channels : Option (List ℕ)

pub record PowerRecord : Type 0 where
  pub revision : String
  pub last_manual : Option LastManual
  pub off_origin : Option OffOrigin

-- `_empty()`
abbrev pub empty_record : PowerRecord
empty_record = record { revision = ""; last_manual = none; off_origin = none }

-- A list of exactly so many ints in 0..most.
abbrev pub int_list : ℕ → ℕ → Value → Option (List ℕ)
int_list size most (list vs) = do
  ns ← each (int_upto most) (to_list vs)
  check (length ns == size)
  some ns
int_list size most _ = none

unfoldable pub pair_of : List ℕ → Option Pair
pair_of (a ∷ b ∷ []) = some (record { first = a; second = b })
pair_of _ = none

unfoldable pub text_of : Value → Option String
text_of (str s) = some s
text_of _ = none

unfoldable pub flag_of : Value → Option Bool
flag_of (bool b) = some b
flag_of _ = none

abbrev pub profile_keys : List String
profile_keys = "controller" ∷ "version" ∷ "count" ∷ []

unfoldable pub byte_pair : String → Fields → Option Pair
unfolding pair_of lookup_field
byte_pair key fields = do v ← lookup_field key fields; ns ← int_list 2 255 v; pair_of ns

-- `_valid_profile`, with the profile that it accepts.
unfoldable pub decode_profile : Value → Option Profile
decode_profile (dict fields) = do
  check (has_only profile_keys fields)
  v ← lookup_field "count" fields
  n ← int_upto 6 v
  check (n == 6)
  controller ← byte_pair "controller" fields
  version ← byte_pair "version" fields
  some (record { controller = controller; version = version; count = n })
decode_profile _ = none

-- `_valid_channels`, with the channels that it accepts.
unfoldable pub decode_channels : Bool → Value → Option (List ℕ)
decode_channels nonzero v = do ns ← int_list 6 100 v; check (not nonzero || any_nonzero ns); some ns

abbrev pub manual_keys : List String
manual_keys = "profile" ∷ "channels" ∷ []

unfoldable pub decode_manual : Value → Option (Option LastManual)
decode_manual null = some none
decode_manual (dict fields) = do
  check (has_only manual_keys fields)
  p ← lookup_field "profile" fields
  profile ← decode_profile p
  c ← lookup_field "channels" fields
  channels ← decode_channels true c
  some (some (record { profile = profile; channels = channels }))
decode_manual _ = none

unfoldable pub decode_optional : Bool → Value → Option (Option (List ℕ))
decode_optional nonzero null = some none
decode_optional nonzero v = do ns ← decode_channels nonzero v; some (some ns)

-- The off channels are there exactly if the Off was confirmed.
unfoldable pub decode_off : Bool → Value → Option (Option (List ℕ))
decode_off true v = do ns ← decode_channels false v; some (some ns)
decode_off false null = some none
decode_off false _ = none

abbrev pub origin_keys : List String
origin_keys = "profile" ∷ "mode" ∷ "manual_channels" ∷ "confirmed" ∷ "off_channels" ∷ []

unfoldable pub decode_origin : Value → Option (Option OffOrigin)
unfolding flag_of
decode_origin null = some none
decode_origin (dict fields) = do
  check (has_only origin_keys fields)
  p ← lookup_field "profile" fields
  profile ← decode_profile p
  m ← lookup_field "mode" fields
  mode ← int_upto 1 m
  c ← lookup_field "confirmed" fields
  confirmed ← flag_of c
  k ← lookup_field "manual_channels" fields
  manual ← decode_optional true k
  o ← lookup_field "off_channels" fields
  off ← decode_off confirmed o
  some (
      some (record {
        profile = profile;
        mode = mode;
        manual_channels = manual;
        confirmed = confirmed;
        off_channels = off;
      }))
decode_origin _ = none

abbrev pub record_keys : List String
record_keys = "schema_version" ∷ "revision" ∷ "last_manual" ∷ "off_origin" ∷ []

-- `_validate`, with the record that it accepts.
unfoldable pub decode_record : Value → Option PowerRecord
unfolding text_of
decode_record (dict fields) = do
  check (has_only record_keys fields)
  v ← lookup_field "schema_version" fields
  version ← int_upto 1 v
  check (version == 1)
  r ← lookup_field "revision" fields
  revision ← text_of r
  check (count revision == 32)
  m ← lookup_field "last_manual" fields
  manual ← decode_manual m
  o ← lookup_field "off_origin" fields
  origin ← decode_origin o
  some (record { revision = revision; last_manual = manual; off_origin = origin })
decode_record _ = none

-- The stored documents: what the Python dicts of the module are as values.
abbrev pub numbers : List ℕ → Value
numbers ns = list (of_list (map of_ℕ ns))

abbrev pub pair_numbers : Pair → Value
pair_numbers p = numbers (p.first ∷ p.second ∷ [])

unfoldable pub encode_profile : Profile → Value
encode_profile p = dict (
    field "controller" (pair_numbers p.controller)
      (field "version" (pair_numbers p.version) (field "count" (of_ℕ p.count) end)))

unfoldable pub encode_manual : Option LastManual → Value
encode_manual none = null
encode_manual (some m) =
    dict (field "profile" (encode_profile m.profile) (field "channels" (numbers m.channels) end))

abbrev pub encode_optional : Option (List ℕ) → Value
encode_optional none = null
encode_optional (some ns) = numbers ns

unfoldable pub encode_origin : Option OffOrigin → Value
encode_origin none = null
encode_origin (some o) = dict (
    field "profile" (encode_profile o.profile) (
      field "mode" (of_ℕ o.mode) (
        field "manual_channels" (encode_optional o.manual_channels) (
          field "confirmed" (bool o.confirmed)
            (field "off_channels" (encode_optional o.off_channels) end)))))

unfoldable pub encode_record : PowerRecord → Value
encode_record r = dict (
    field "schema_version" (of_ℕ 1) (
      field "revision" (str r.revision) (
        field "last_manual" (encode_manual r.last_manual)
          (field "off_origin" (encode_origin r.off_origin) end))))
