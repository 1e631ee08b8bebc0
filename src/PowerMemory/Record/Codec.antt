-- ===== src/PowerMemory/Record/Codec.antt =====
-- What is saved is accepted when it is loaded, unchanged.
use Prim.Native.String.{count}
use hahapent.Base.{
  ℕ, ◌≤◌, ◌≡◌, refl, Bool, true, false, Option, none, some, List, [], ◌∷◌, map, length, All, arith,
}
use hahapent.Base.Value.{of_ℕ, of_list, to_list, int_upto, lookup_field, each}
use hahapent.Compact.Recipe.{any_nonzero}
use hahapent.Protocol.Reply.{Pair}
use hahapent.PowerMemory.Record.{
  Profile, LastManual, OffOrigin, PowerRecord, int_list, byte_pair, decode_profile, decode_channels,
  decode_manual, decode_optional, decode_off, decode_origin, decode_record, numbers, encode_profile,
  encode_manual, encode_optional, encode_origin, encode_record,
}

abbrev pub IsBytePair : Pair → Type 0
IsBytePair p = (p.first ≤ 255) × (p.second ≤ 255)

-- What `_valid_profile` and the other checks accept.
pub record IsProfile (p : Profile) : Type 0 where
  pub controller : IsBytePair p.controller
  pub version : IsBytePair p.version
  pub six : p.count ≡ 6

pub record IsChannels (ns : List ℕ) : Type 0 where
  pub sized : length ns ≡ 6
  pub within : All (λ n. n ≤ 100) ns

pub record IsLit (ns : List ℕ) : Type 0 where
  pub channels : IsChannels ns
  pub nonzero : any_nonzero ns ≡ true

pub record IsManual (m : LastManual) : Type 0 where
  pub profile : IsProfile m.profile
  pub lit : IsLit m.channels

abbrev pub Holds {ℓ κ} : {A : Type ℓ} → (A → Type κ) → Option A → Type κ
Holds P none = Unit
Holds P (some a) = P a

abbrev pub IsOff : Bool → Option (List ℕ) → Type 0
IsOff true (some ns) = IsChannels ns
IsOff true none = ⊥
IsOff false (some ns) = ⊥
IsOff false none = Unit

pub record IsOrigin (o : OffOrigin) : Type 0 where
  pub profile : IsProfile o.profile
  pub mode : o.mode ≤ 1
  pub manual : Holds IsLit o.manual_channels
  pub off : IsOff o.confirmed o.off_channels

pub record IsRecord (r : PowerRecord) : Type 0 where
  pub revision : count r.revision ≡ 32
  pub manual : Holds IsManual r.last_manual
  pub origin : Holds IsOrigin r.off_origin

each_numbers :
    (most : ℕ) (ns : List ℕ)
    → All (λ n. n ≤ most) ns
    → each (int_upto most) (to_list (of_list (map of_ℕ ns))) ≡ some ns
each_numbers most [] h = refl
each_numbers most (n ∷ ns) h = ground (arith, each_numbers most ns h.1)

int_list-numbers :
    (size most : ℕ) (ns : List ℕ)
    → length ns ≡ size
    → All (λ n. n ≤ most) ns
    → int_list size most (numbers ns) ≡ some ns
int_list-numbers size most ns l h = ground (arith, each_numbers most ns h)

decode-encode_profile : (p : Profile) → IsProfile p → decode_profile (encode_profile p) ≡ some p
unfolding decode_profile encode_profile byte_pair
decode-encode_profile p h = ground arith

decode_channels-numbers :
    (ns : List ℕ) → IsChannels ns → decode_channels false (numbers ns) ≡ some ns
unfolding decode_channels
decode_channels-numbers ns h = rw (int_list-numbers 6 100 ns h.sized h.within)

decode_channels_lit : (ns : List ℕ) → IsLit ns → decode_channels true (numbers ns) ≡ some ns
unfolding decode_channels
decode_channels_lit ns h =
    rw (int_list-numbers 6 100 ns h.channels.sized h.channels.within) (rw h.nonzero)

decode-encode_manual :
    (m : Option LastManual) → Holds IsManual m → decode_manual (encode_manual m) ≡ some m
unfolding decode_manual encode_manual lookup_field
decode-encode_manual none h = refl
decode-encode_manual (some m) h =
    rw (decode-encode_profile m.profile h.profile, decode_channels_lit m.channels h.lit)

decode-encode_optional :
    (o : Option (List ℕ)) → Holds IsLit o → decode_optional true (encode_optional o) ≡ some o
unfolding decode_optional
decode-encode_optional none h = refl
decode-encode_optional (some ns) h = rw (decode_channels_lit ns h)

decode-encode_off :
    (confirmed : Bool) (o : Option (List ℕ))
    → IsOff confirmed o
    → decode_off confirmed (encode_optional o) ≡ some o
unfolding decode_off
decode-encode_off true (some ns) h = rw (decode_channels-numbers ns h)
decode-encode_off true none h = absurd h
decode-encode_off false (some ns) h = absurd h
decode-encode_off false none h = refl

lt_one : (n : ℕ) → n ≤ 1 → int_upto 1 (of_ℕ n) ≡ some n
lt_one n h = ground arith

decode-encode_origin :
    (o : Option OffOrigin) → Holds IsOrigin o → decode_origin (encode_origin o) ≡ some o
unfolding decode_origin encode_origin lookup_field
decode-encode_origin none h = refl
decode-encode_origin (some o) h = rw (
  decode-encode_profile o.profile h.profile,
  lt_one o.mode h.mode,
  decode-encode_optional o.manual_channels h.manual,
  decode-encode_off o.confirmed o.off_channels h.off,
)

-- A well-formed record passes the validation that follows a restart, and comes back as it was.
pub decode-encode_record : (r : PowerRecord) → IsRecord r → decode_record (encode_record r) ≡ some r
unfolding decode_record encode_record lookup_field
decode-encode_record r h = rw (
  h.revision,
  decode-encode_manual r.last_manual h.manual,
  decode-encode_origin r.off_origin h.origin,
)
