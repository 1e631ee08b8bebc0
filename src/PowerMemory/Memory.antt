-- ===== src/PowerMemory/Memory.antt =====
-- state_store.py: `AquariusPowerMemory`. Home Assistant's Store is not under src/: what it answers
-- to a save or a load is an argument of the operations.
pub mod Load
pub mod Cycle
pub mod Saved
pub mod Keeps
use text.Mathlib.Text.{◌==◌ as str_eq}
use hahapent.Base.{
  ℕ, Bool, true, false, ◌&&◌, ◌||◌, not, Option, none, some, List, [], ◌∷◌, ◌==◌, if◌then◌else◌,
  String, Outcome, ok, err,
}
use hahapent.Base.Value.{Value, dict, int, bool, lookup_field}
use hahapent.Compact.Recipe.{any_nonzero}
use hahapent.Protocol.Frame.{mode_automatic, mode_manual, mode_shutdown, is_control_mode}
use hahapent.Protocol.Reply.{bytes_eq, write_supported}
use hahapent.Client.State.{DeviceState, channels_eq}
use hahapent.PowerMemory.Record.{
  Profile, profile_of, profile_eq, LastManual, OffOrigin, PowerRecord, empty_record, decode_record,
}

pub record Memory : Type 0 where
  pub kept : PowerRecord
  pub error : Bool
  pub write_blocked : Bool

abbrev pub fresh_memory : Memory
fresh_memory = record { kept = empty_record; error = false; write_blocked = false }

-- `PowerMemoryError`, and the cancellation that a save lets through after settling.
pub data PowerError : Type 0 where
  memory_error cancelled : PowerError

-- Equality of the Python dicts, field by field.
abbrev pub option_eq {ℓ} : {A : Type ℓ} → (A → A → Bool) → Option A → Option A → Bool
option_eq eq none none = true
option_eq eq none (some b) = false
option_eq eq (some a) none = false
option_eq eq (some a) (some b) = eq a b

unfoldable pub manual_eq : LastManual → LastManual → Bool
unfolding profile_eq
manual_eq a b = profile_eq a.profile b.profile && bytes_eq a.channels b.channels

abbrev flag_eq : Bool → Bool → Bool
flag_eq true b = b
flag_eq false b = not b

unfoldable pub origin_eq : OffOrigin → OffOrigin → Bool
origin_eq a b =
    profile_eq a.profile b.profile
    && (a.mode == b.mode
        && (option_eq bytes_eq a.manual_channels b.manual_channels
            && (flag_eq a.confirmed b.confirmed
                && option_eq bytes_eq a.off_channels b.off_channels)))

unfoldable pub record_eq : PowerRecord → PowerRecord → Bool
record_eq a b =
    str_eq a.revision b.revision
    && (option_eq manual_eq a.last_manual b.last_manual
        && option_eq origin_eq a.off_origin b.off_origin)

-- How an attempt to save ends: an exception, a cancellation that was noticed while the write was
-- being settled, or a fresh load of the store after the write.
pub data Settled : Type 0 where
  raised : Settled
  interrupted : Settled
  reloaded : Option PowerRecord → Settled

-- `uuid4().hex` and the answers of the store, for one save.
pub record Attempt : Type 0 where
  pub revision : String
  pub settled : Settled

-- `_save`: the new record counts only when a fresh load shows exactly it.
unfoldable pub settle : PowerRecord → Settled → Memory → Outcome PowerError (Unit {0}) × Memory
settle candidate raised m = (err memory_error, record m { error = true })
settle candidate interrupted m = (err cancelled, record m { error = true })
settle candidate (reloaded none) m = (err memory_error, record m { error = true })
settle candidate (reloaded (some r)) m =
    if record_eq r candidate
    then (ok tt, record m { kept = candidate; error = false })
    else (err memory_error, record m { error = true })

unfoldable pub save : PowerRecord → Attempt → Memory → Outcome PowerError (Unit {0}) × Memory
unfolding settle
save r a m =
    if m.write_blocked
    then (err memory_error, m)
    else settle (record r { revision = a.revision }) a.settled m

unfoldable pub observed_record : DeviceState → PowerRecord → PowerRecord
observed_record s r =
    let manual =
      if write_supported s.system && (s.system.mode_raw == mode_manual && any_nonzero s.channels)
      then some (record { profile = profile_of s; channels = s.channels })
      else r.last_manual in
    let origin = if is_control_mode s.system.mode_raw then none else r.off_origin in
    record r { last_manual = manual; off_origin = origin }

-- `async_observe`
unfoldable pub observe : DeviceState → Attempt → Memory → Outcome PowerError (Unit {0}) × Memory
observe s a m =
    let seen = observed_record s m.kept in
    if record_eq seen m.kept then (ok tt, m) else save seen a m

-- The remembered mix, if it belongs to this profile.
unfoldable pub own_manual : Profile → Option LastManual → Option (List ℕ)
own_manual p none = none
own_manual p (some manual) = if profile_eq manual.profile p then some manual.channels else none

abbrev pub off_intent : DeviceState → PowerRecord → PowerRecord
off_intent s seen = record seen {
  off_origin = some (record {
    profile = profile_of s;
    mode = s.system.mode_raw;
    manual_channels = own_manual (profile_of s) seen.last_manual;
    confirmed = false;
    off_channels = none;
  });
}

-- `async_prepare_off`
unfoldable pub prepare_off : DeviceState → Attempt → Memory → Outcome PowerError (Unit {0}) × Memory
prepare_off s a m =
    if is_control_mode s.system.mode_raw
    then save (off_intent s (observed_record s m.kept)) a m
    else (err memory_error, m)

unfoldable pub confirm :
    DeviceState → Option OffOrigin → Attempt → Memory → Outcome PowerError (Unit {0}) × Memory
confirm s none a m = (err memory_error, m)
confirm s (some origin) a m =
    if not (profile_eq origin.profile (profile_of s)) || not (s.system.mode_raw == mode_shutdown)
    then (err memory_error, m)
    else save
        (record m.kept {
          off_origin = some (record origin { confirmed = true; off_channels = some s.channels });
        })
        a m

-- `async_confirm_off`
unfoldable pub confirm_off : DeviceState → Attempt → Memory → Outcome PowerError (Unit {0}) × Memory
unfolding confirm
confirm_off s a m = confirm s m.kept.off_origin a m

-- The reasons that accompany what On may do.
pub data Reason : Type 0 where
  no_manual_state resumes_schedule restores_mix : Reason

unfoldable pub restorable : DeviceState → OffOrigin → Option (List ℕ) × Reason
restorable s origin =
    if not origin.confirmed
      || (not (profile_eq origin.profile (profile_of s))
          || not (option_eq channels_eq origin.off_channels (some s.channels)))
    then (none, no_manual_state)
    else if origin.mode == mode_automatic
    then (none, resumes_schedule)
    else elim origin.manual_channels [
      | none ↦ (none, no_manual_state)
      | some channels ↦ (some channels, restores_mix)
    ]

unfoldable pub restore_from : DeviceState → Bool → Option OffOrigin → Option (List ℕ) × Reason
unfolding restorable
restore_from s error none = (none, no_manual_state)
restore_from s true (some origin) = (none, no_manual_state)
restore_from s false (some origin) = restorable s origin

unfoldable pub manual_restore : DeviceState → Memory → Option (List ℕ) × Reason
unfolding restore_from
manual_restore s m = restore_from s m.error m.kept.off_origin

-- The file that the preflight reads: none, not JSON, or a JSON value.
pub data Envelope : Type 0 where
  absent : Envelope
  unreadable : Envelope
  parsed : Value → Envelope

unfoldable pub is_int : Option Value → Bool
is_int (some (int n)) = true
is_int _ = false

-- `type(envelope.get("minor_version", 1)) is int`
unfoldable pub is_int_or_absent : Option Value → Bool
is_int_or_absent none = true
is_int_or_absent (some (int n)) = true
is_int_or_absent (some _) = false

unfoldable pub is_present : Option Value → Bool
is_present none = false
is_present (some v) = true

-- `_existing_record`
unfoldable pub existing_record : Envelope → Outcome PowerError Bool
unfolding is_int is_int_or_absent is_present lookup_field
existing_record absent = ok false
existing_record unreadable = err memory_error
existing_record (parsed (dict fields)) =
    if is_present (lookup_field "data" fields)
      && (is_int (lookup_field "version" fields)
          && is_int_or_absent (lookup_field "minor_version" fields))
    then ok true
    else err memory_error
existing_record (parsed _) = err memory_error

-- What the store answers at startup: an exception, or its body, if it has one.
pub data Loaded : Type 0 where
  load_failed : Loaded
  body : Option Value → Loaded

unfoldable pub refuse : Memory → Memory
refuse m = record m { error = true; write_blocked = true }

unfoldable pub accept : Option PowerRecord → Memory → Memory
unfolding refuse
accept none m = refuse m
accept (some r) m = record m { kept = r }

unfoldable pub load_body : Bool → Loaded → Memory → Memory
unfolding accept
load_body existed load_failed m = refuse m
load_body true (body none) m = refuse m
load_body false (body none) m = m
load_body existed (body (some v)) m = accept (decode_record v) m

-- `async_load`
unfoldable pub load : Envelope → Loaded → Memory → Memory
unfolding load_body existing_record
load envelope answer m = elim (existing_record envelope) [
  | ok existed ↦ load_body existed answer m
  | err e ↦ refuse m
]
