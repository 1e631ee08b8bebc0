-- ===== src/PowerMemory/Memory/Saved.antt =====
-- state_store.py: what a save that returns has seen in the store.
use hahapent.Base.{
  ◌≡◌, refl, some, none, Bool, true, false, if◌then◌else◌, Outcome, ok, err, arith, ap,
}
use hahapent.Client.State.{DeviceState}
use hahapent.PowerMemory.Record.{PowerRecord}
use hahapent.PowerMemory.Memory.{
  Memory, Attempt, PowerError, memory_error, Settled, raised, interrupted, reloaded, record_eq,
  settle, save, prepare_off, off_intent, observed_record,
}

-- The record that is wanted was read back from the store after the write, and is the one in memory.
abbrev pub IsShown : PowerRecord → Attempt → Memory → Type 0
IsShown wanted attempt after =
    (r : PowerRecord) × (attempt.settled ≡ reloaded (some r))
    × (record_eq r wanted ≡ true)
    × (after.kept ≡ wanted)
    × (after.error ≡ false)

-- What `async_prepare_off` stores, under the name of this attempt.
abbrev pub off_record : DeviceState → Attempt → Memory → PowerRecord
off_record before attempt m = record (off_intent before (observed_record before m.kept)) {
  revision = attempt.revision;
}

abbrev answer : Memory → Outcome PowerError (Unit {0}) × Memory
answer m = (ok tt, m)

settle-IsShown :
    (wanted : PowerRecord) (attempt : Attempt) (m m' : Memory)
    → settle wanted attempt.settled m ≡ (ok tt, m')
    → IsShown wanted attempt m'
unfolding settle
settle-IsShown wanted attempt m m' h = go attempt.settled refl h
  where
    same_answer :
        (x m' : Memory) (r : PowerRecord)
        → attempt.settled ≡ reloaded (some r)
        → record_eq r wanted ≡ true
        → x.kept ≡ wanted
        → x.error ≡ false
        → answer x ≡ (ok tt, m')
        → IsShown wanted attempt m'
    same_answer x m' r hs hr hk he e =
        let q = ap (λ (p : Outcome PowerError (Unit {0}) × Memory). p.1) e in
        (r, hs, hr, rw⁻¹ q hk, rw⁻¹ q he)

    compared :
        (b : Bool) (r : PowerRecord)
        → attempt.settled ≡ reloaded (some r)
        → record_eq r wanted ≡ b
        → (if b
            then answer (record m { kept = wanted; error = false })
            else (err memory_error, record m { error = true }))
          ≡ (ok tt, m')
        → IsShown wanted attempt m'
    compared true r hs hr e =
        same_answer (record m { kept = wanted; error = false }) m' r hs hr refl refl e
    compared false r hs hr e = cc

    go :
        (settled : Settled)
        → attempt.settled ≡ settled
        → settle wanted settled m ≡ (ok tt, m')
        → IsShown wanted attempt m'
    go raised hs e = cc
    go interrupted hs e = cc
    go (reloaded none) hs e = cc
    go (reloaded (some r)) hs e = compared (record_eq r wanted) r hs refl e

pub prepare_off-IsShown :
    (before : DeviceState) (attempt : Attempt) (m m' : Memory)
    → prepare_off before attempt m ≡ (ok tt, m')
    → IsShown (off_record before attempt m) attempt m'
unfolding prepare_off save
prepare_off-IsShown before attempt m m' h =
    settle-IsShown (off_record before attempt m) attempt m m' (ground arith)
