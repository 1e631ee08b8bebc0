-- ===== src/PowerMemory/Memory/Cycle.antt =====
-- The Off and On cycle: what On may restore, and from where.
use mathlib.Core.Path.{subst}
use hahapent.Base.{
  ℕ, ◌≤◌, ◌≡◌, refl, ap, Bool, true, false, ◌⊎◌, Option, none, some, List, ◌==◌, if◌then◌else◌, ok,
  arith,
}
use hahapent.Compact.Recipe.{any_nonzero}
use hahapent.Protocol.Frame.{mode_automatic, mode_manual}
use hahapent.Protocol.Reply.{bytes_eq_iff, write_supported}
use hahapent.Client.State.{DeviceState, channels_eq}
use hahapent.PowerMemory.Record.{Profile, profile_of, profile_eq, OffOrigin, PowerRecord}
use hahapent.PowerMemory.Record.Codec.{IsLit, IsOrigin, Holds}
use hahapent.PowerMemory.Memory.{
  Memory, Attempt, Reason, no_manual_state, resumes_schedule, restores_mix, save, observed_record,
  observe, own_manual, off_intent, prepare_off, confirm_off, restorable, restore_from,
  manual_restore, option_eq, record_eq,
}

pub profile_eq-eq : (p q : Profile) → profile_eq p q ≡ true → p ≡ q
unfolding profile_eq
profile_eq-eq p q h = ground arith

pub profile_eq_self : (p : Profile) → profile_eq p p ≡ true
unfolding profile_eq
profile_eq_self p = ground arith

-- A save that succeeds has stored exactly its record, under the new revision.
pub save_ok :
    (r : PowerRecord) (a : Attempt) (m : Memory) {m' : Memory}
    → save r a m ≡ (ok tt, m')
    → (m.write_blocked ≡ false)
      × (m' ≡ record m { kept = record r { revision = a.revision }; error = false })
unfolding save
save_ok r a m h = ground arith

-- What On may do after an Off from a state.
abbrev pub return_of : DeviceState → Option (List ℕ) × Reason
return_of s =
    if s.system.mode_raw == mode_automatic
    then (none, resumes_schedule)
    else (some s.channels, restores_mix)

prepare_off_ok :
    (s : DeviceState) (a : Attempt) (m : Memory) {m' : Memory}
    → prepare_off s a m ≡ (ok tt, m')
    → ((s.system.mode_raw ≡ mode_automatic) ⊎ (s.system.mode_raw ≡ mode_manual))
      × (m'.kept.off_origin ≡ (off_intent s (observed_record s m.kept)).off_origin)
unfolding prepare_off
prepare_off_ok s a m {m'} h =
    ground (arith, save_ok (off_intent s (observed_record s m.kept)) a m {m' = m'})

confirm_off_ok :
    (s : DeviceState) (a : Attempt) (m : Memory) (origin : OffOrigin) {m' : Memory}
    → m.kept.off_origin ≡ some origin
    → confirm_off s a m ≡ (ok tt, m')
    → (m'.error ≡ false)
      × (profile_eq origin.profile (profile_of s) ≡ true)
      × (m'.kept.off_origin
          ≡ some (record origin { confirmed = true; off_channels = some s.channels }))
unfolding confirm_off
confirm_off_ok s a m origin {m'} e h = ground (
  arith,
  save_ok
      (record m.kept {
        off_origin = some (record origin { confirmed = true; off_channels = some s.channels });
      })
      a m {m' = m'},
)

own_manual_seen :
    (s : DeviceState) (r : PowerRecord)
    → s.system.mode_raw ≡ mode_manual
    → write_supported s.system ≡ true
    → any_nonzero s.channels ≡ true
    → own_manual (profile_of s) (observed_record s r).last_manual ≡ some s.channels
unfolding own_manual observed_record
own_manual_seen s r e w n = ground (arith, profile_eq_self (profile_of s))

restorable_confirmed :
    (off : DeviceState) (origin : OffOrigin)
    → profile_eq origin.profile (profile_of off) ≡ true
    → restorable off (record origin { confirmed = true; off_channels = some off.channels }) ≡ (
        if origin.mode == mode_automatic
        then (none, resumes_schedule)
        else elim origin.manual_channels [
          | none ↦ (none, no_manual_state)
          | some channels ↦ (some channels, restores_mix)
        ])
unfolding restorable
restorable_confirmed off origin p = ground (arith, bytes_eq_iff off.channels off.channels)

-- An Off that was prepared from a state with a profile that is supported for writes and with a lit
-- channel, and that was confirmed, lets On return exactly to where Off came from: from Automatic it
-- resumes the schedule, from Manual it restores the channels that were seen before Off.
pub off_cycle :
    (s off : DeviceState) (a b : Attempt) (m m1 m2 : Memory)
    → write_supported s.system ≡ true
    → any_nonzero s.channels ≡ true
    → prepare_off s a m ≡ (ok tt, m1)
    → confirm_off off b m1 ≡ (ok tt, m2)
    → manual_restore off m2 ≡ return_of s
unfolding manual_restore
off_cycle s off a b m m1 m2 w n prepared confirmed =
    let (mode, kept) = prepare_off_ok s a m prepared in
    let (fine, same, stored) = confirm_off_ok off b m1 _ kept confirmed in
    ground (
      arith,
      own_manual_seen s m.kept,
      restorable_confirmed off (record {
        profile = profile_of s;
        mode = s.system.mode_raw;
        manual_channels = own_manual (profile_of s) (observed_record s m.kept).last_manual;
        confirmed = false;
        off_channels = none;
      }),
    )

observed_none :
    (s : DeviceState) (r : PowerRecord)
    → (s.system.mode_raw ≡ mode_automatic) ⊎ (s.system.mode_raw ≡ mode_manual)
    → (observed_record s r).off_origin ≡ none
unfolding observed_record
observed_none s r h = ground arith

record_eq-none :
    (r q : PowerRecord) → r.off_origin ≡ none → record_eq r q ≡ true → q.off_origin ≡ none
unfolding record_eq
record_eq-none r q e h = ground arith

restore_from-none :
    (t : DeviceState) (error : Bool) → restore_from t error none ≡ (none, no_manual_state)
unfolding restore_from
restore_from-none t error = refl

-- An observation of Automatic or Manual that is stored, or that changes nothing, ends every older Off
-- cycle: On has no mix to restore, whatever state it finds.
pub observe_ends_cycle :
    (s t : DeviceState) (a : Attempt) (m m' : Memory)
    → (s.system.mode_raw ≡ mode_automatic) ⊎ (s.system.mode_raw ≡ mode_manual)
    → observe s a m ≡ (ok tt, m')
    → manual_restore t m' ≡ (none, no_manual_state)
unfolding observe manual_restore
observe_ends_cycle s t a m m' mode h = ground (
  arith,
  observed_none s m.kept mode,
  record_eq-none (observed_record s m.kept) m.kept,
  save_ok (observed_record s m.kept) a m {m' = m'},
  restore_from-none t m'.error,
)

option_channels_eq :
    (o : Option (List ℕ)) (ns : List ℕ) → option_eq channels_eq o (some ns) ≡ true → o ≡ some ns
option_channels_eq none ns h = cc
option_channels_eq (some ms) ns h = ap some ((bytes_eq_iff ms ns).0 h)

restorable_facts :
    (s : DeviceState) (o : OffOrigin) (channels : List ℕ) (why : Reason)
    → o.mode ≤ 1
    → restorable s o ≡ (some channels, why)
    → (o.profile ≡ profile_of s)
      × (o.mode ≡ mode_manual)
      × (o.confirmed ≡ true)
      × (o.off_channels ≡ some s.channels)
      × (o.manual_channels ≡ some channels)
unfolding restorable
restorable_facts s o channels why le h =
    ground
      (arith, profile_eq-eq o.profile (profile_of s), option_channels_eq o.off_channels s.channels)

restore_from_only :
    (s : DeviceState) (error : Bool) (origin : Option OffOrigin) (channels : List ℕ) (why : Reason)
    → Holds IsOrigin origin
    → restore_from s error origin ≡ (some channels, why)
    → IsLit channels
      × (error ≡ false)
      × (o : OffOrigin) × (origin ≡ some o)
      × (o.profile ≡ profile_of s)
      × (o.mode ≡ mode_manual)
      × (o.confirmed ≡ true)
      × (o.off_channels ≡ some s.channels)
      × (o.manual_channels ≡ some channels)
unfolding restore_from
restore_from_only s error none channels why known h = cc
restore_from_only s true (some o) channels why known h = cc
restore_from_only s false (some o) channels why known h =
    let (p, m, c, f, mix) = restorable_facts s o channels why known.mode h in
    let held : Holds IsLit o.manual_channels = known.manual in
    let lit : IsLit channels = subst (Holds IsLit) mix held in (lit, refl, o, refl, p, m, c, f, mix)

-- With a well-formed origin in memory, a mix is restored only after a confirmed Off from Manual on the same profile, and only while the
-- device still shows what was seen when the Off was confirmed. The mix is six percentages, not all
-- zero.
pub manual_restore_only :
    (s : DeviceState) (m : Memory) (channels : List ℕ) (why : Reason)
    → Holds IsOrigin m.kept.off_origin
    → manual_restore s m ≡ (some channels, why)
    → IsLit channels
      × (m.error ≡ false)
      × (o : OffOrigin) × (m.kept.off_origin ≡ some o)
      × (o.profile ≡ profile_of s)
      × (o.mode ≡ mode_manual)
      × (o.confirmed ≡ true)
      × (o.off_channels ≡ some s.channels)
      × (o.manual_channels ≡ some channels)
unfolding manual_restore
manual_restore_only s m channels why known h =
    restore_from_only s m.error m.kept.off_origin channels why known h
