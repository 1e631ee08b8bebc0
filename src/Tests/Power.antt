-- ===== src/Tests/Power.antt =====
-- state_store.py: an Off cycle from Manual, and a restart.
use hahapent.Base.{
  ◌≡◌, inr, refl, sym, ap, true, false, none, some, Outcome, ok, err, arith, String,
}
use hahapent.Base.Value.{dict, end, field, of_ℕ, lookup_field}
use hahapent.Client.State.{DeviceState}
use hahapent.Protocol.Frame.{mode_manual}
use hahapent.Protocol.Reply.{write_supported, power_supported, bytes_eq}
use hahapent.PowerMemory.Record.{
  profile_of, profile_eq, OffOrigin, PowerRecord, empty_record, encode_record, decode_record,
}
use hahapent.PowerMemory.Record.Codec.{IsProfile, IsLit, IsRecord, decode-encode_record}
use hahapent.PowerMemory.Record.Sound.{decode_record_sound}
use hahapent.PowerMemory.Memory.{
  Memory, fresh_memory, PowerError, memory_error, Attempt, reloaded, settle, save, observed_record,
  observe, own_manual, prepare_off, confirm, confirm_off, manual_restore, restore_from, restorable,
  manual_eq, origin_eq, record_eq, restores_mix, no_manual_state, Envelope, parsed, existing_record,
  body, load, is_int, is_int_or_absent, is_present,
}
use hahapent.PowerMemory.Memory.Cycle.{
  return_of, off_cycle, observe_ends_cycle, manual_restore_only,
}
use hahapent.PowerMemory.Memory.Keeps.{IsDevice, IsKept, prepares, Reach, here, next, Reach-IsKept}
use hahapent.PowerMemory.Memory.Load.{IsStart, load_cases, blocked_inert, restart}
use hahapent.Tests.Samples.{lamp, spectrum}

abbrev pub lit : DeviceState
lit = lamp 1 spectrum

abbrev off : DeviceState
off = lamp 8 spectrum

abbrev revision : String
revision = "0123456789abcdef0123456789abcdef"

abbrev pub intended : PowerRecord
intended = record {
  revision = revision;
  last_manual = some (record { profile = profile_of lit; channels = spectrum });
  off_origin = some (record {
    profile = profile_of lit;
    mode = 1;
    manual_channels = some spectrum;
    confirmed = false;
    off_channels = none;
  });
}

abbrev confirmed : PowerRecord
confirmed = record {
  revision = revision;
  last_manual = some (record { profile = profile_of lit; channels = spectrum });
  off_origin = some (record {
    profile = profile_of lit;
    mode = 1;
    manual_channels = some spectrum;
    confirmed = true;
    off_channels = some spectrum;
  });
}

-- The store shows what was written.
abbrev pub stored : PowerRecord → Attempt
stored r = record { revision = revision; settled = reloaded (some r) }

abbrev pub holding : PowerRecord → Memory
holding r = record { kept = r; error = false; write_blocked = false }

prepared : prepare_off lit (stored intended) fresh_memory ≡ (ok tt, holding intended)
unfolding prepare_off save settle observed_record own_manual write_supported profile_of profile_eq
    record_eq manual_eq origin_eq bytes_eq
prepared = refl

confirmed_off : confirm_off off (stored confirmed) (holding intended) ≡ (ok tt, holding confirmed)
unfolding confirm_off confirm save settle profile_of profile_eq record_eq manual_eq origin_eq
    bytes_eq
confirmed_off = refl

supported : write_supported lit.system ≡ true
unfolding write_supported
supported = refl

off_cycle_example : manual_restore off (holding confirmed) ≡ return_of lit
off_cycle_example =
    off_cycle lit off (stored intended) (stored confirmed) fresh_memory (holding intended)
      (holding confirmed) supported refl prepared confirmed_off

abbrev seen : PowerRecord
seen = record {
  revision = revision;
  last_manual = some (record { profile = profile_of lit; channels = spectrum });
  off_origin = none;
}

seen_again : observe lit (stored seen) (holding confirmed) ≡ (ok tt, holding seen)
unfolding observe save settle observed_record write_supported profile_of profile_eq record_eq
    manual_eq origin_eq bytes_eq
seen_again = refl

observe_ends_cycle_example : manual_restore off (holding seen) ≡ (none, no_manual_state)
observe_ends_cycle_example =
    observe_ends_cycle lit off (stored seen) (holding confirmed) (holding seen) (inr refl)
      seen_again

spectrum-IsLit : IsLit spectrum
spectrum-IsLit = record { channels = record { sized = refl; within = omega arith }; nonzero = refl }

lamp-IsProfile : IsProfile (profile_of lit)
unfolding profile_of
lamp-IsProfile = record {
  controller = (omega arith, omega arith);
  version = (omega arith, omega arith);
  six = refl;
}

confirmed-IsRecord : IsRecord confirmed
confirmed-IsRecord = record {
  revision = refl;
  manual = record { profile = lamp-IsProfile; lit = spectrum-IsLit };
  origin = record {
    profile = lamp-IsProfile;
    mode = omega arith;
    manual = spectrum-IsLit;
    off = spectrum-IsLit.channels;
  };
}

restored : manual_restore off (holding confirmed) ≡ (some spectrum, restores_mix)
unfolding manual_restore restore_from restorable profile_of profile_eq bytes_eq own_manual
restored = refl

manual_restore_only_example :
    IsLit spectrum
    × (false ≡ false)
    × (o : OffOrigin) × (confirmed.off_origin ≡ some o)
    × (o.profile ≡ profile_of off)
    × (o.mode ≡ mode_manual)
    × (o.confirmed ≡ true)
    × (o.off_channels ≡ some spectrum)
    × (o.manual_channels ≡ some spectrum)
manual_restore_only_example =
    manual_restore_only off (holding confirmed) spectrum restores_mix confirmed-IsRecord.origin
      restored

decode-encode_record_example : decode_record (encode_record confirmed) ≡ some confirmed
decode-encode_record_example = decode-encode_record confirmed confirmed-IsRecord

decode_record_sound_example : IsRecord confirmed
decode_record_sound_example =
    decode_record_sound (encode_record confirmed) confirmed
      (decode-encode_record confirmed confirmed-IsRecord)

empty-IsKept : IsKept empty_record
empty-IsKept = record { manual = tt; origin = tt }

lit-IsDevice : IsDevice lit
lit-IsDevice = record {
  controller = (omega arith, omega arith);
  version = (omega arith, omega arith);
  channels = spectrum-IsLit.channels;
}

power : power_supported lit.system ≡ true
unfolding power_supported write_supported
power = refl

abbrev intent_stored : Memory
intent_stored = (prepare_off lit (stored intended) fresh_memory).1

one_step : Reach fresh_memory intent_stored
one_step = next here (prepares lit (stored intended) lit-IsDevice power)

Reach-IsKept_example : IsKept intent_stored.kept
Reach-IsKept_example = Reach-IsKept {m = fresh_memory} {n = intent_stored} one_step empty-IsKept

abbrev envelope : Envelope
envelope = parsed (dict (field "version" (of_ℕ 1) (field "data" (encode_record intended) end)))

load_cases_example :
    IsStart envelope
      (body (some (encode_record confirmed)))
      fresh_memory
      (load envelope (body (some (encode_record confirmed))) fresh_memory)
load_cases_example = load_cases envelope (body (some (encode_record confirmed))) fresh_memory

abbrev blocked : Memory
blocked = record { kept = confirmed; error = true; write_blocked = true }

blocked_inert_example :
    ((observe lit (stored seen) blocked).1 ≡ blocked)
    × (prepare_off lit (stored seen) blocked ≡ (err memory_error, blocked))
    × (confirm_off lit (stored seen) blocked ≡ (err memory_error, blocked))
blocked_inert_example = blocked_inert lit (stored seen) blocked refl

existing : existing_record envelope ≡ ok true
unfolding existing_record is_int is_int_or_absent is_present lookup_field
existing = refl

steps : Reach fresh_memory (holding intended)
steps = rw (sym (ap (λ (q : Outcome PowerError (Unit {0}) × Memory). q.1) prepared)) one_step

restart_example :
    manual_restore off (load envelope (body (some (encode_record intended))) fresh_memory)
    ≡ manual_restore off (holding intended)
restart_example =
    restart envelope fresh_memory (holding intended) off existing empty-IsKept steps refl refl
