-- ===== src/PowerMemory/Memory/Keeps.antt =====
-- The stored record stays well formed, and what fails changes nothing that On goes by.
use hahapent.Base.{
  ◌≤◌, ◌≡◌, refl, Bool, true, false, ◌&&◌, Option, none, some, ◌==◌, if◌then◌else◌, Outcome, err,
  arith, String, Bool-cases, inl, inr,
}
use hahapent.Compact.Recipe.{any_nonzero}
use hahapent.Protocol.Frame.{mode_manual, is_control_mode}
use hahapent.Protocol.Reply.{SystemReply, write_supported, power_supported}
use hahapent.Client.State.{DeviceState}
use hahapent.PowerMemory.Record.{
  Profile, profile_of, profile_eq, LastManual, OffOrigin, PowerRecord,
}
use hahapent.PowerMemory.Record.Codec.{
  IsBytePair, IsChannels, IsProfile, IsManual, IsLit, IsOrigin, Holds,
}
use hahapent.PowerMemory.Memory.{
  Memory, PowerError, Attempt, Settled, save, settle, observed_record, observe, own_manual,
  off_intent, prepare_off, confirm, confirm_off, raised, interrupted, reloaded, record_eq,
}

-- What a reply gives: bytes, and six percentages.
pub record IsDevice (s : DeviceState) : Type 0 where
  pub controller : IsBytePair s.system.controller_bytes
  pub version : IsBytePair s.system.version_bytes
  pub channels : IsChannels s.channels

-- The record without its revision, which is empty until the first save.
pub record IsKept (r : PowerRecord) : Type 0 where
  pub manual : Holds IsManual r.last_manual
  pub origin : Holds IsOrigin r.off_origin

-- An operation that raises leaves the record and the write block alone.
pub failed_save_keeps :
    (r : PowerRecord) (a : Attempt) (m m' : Memory) (e : PowerError)
    → save r a m ≡ (err e, m')
    → (m'.kept ≡ m.kept) × (m'.write_blocked ≡ m.write_blocked)
unfolding save
failed_save_keeps r a m m' e h = ground arith

renewed :
    (r : PowerRecord) (revision : String) → IsKept r → IsKept (record r { revision = revision })
renewed r revision h = record { manual = h.manual; origin = h.origin }

abbrev Answer : Type 0
Answer = Outcome PowerError (Unit {0}) × Memory

if-IsKept :
    (b : Bool) (x y : Answer)
    → (b ≡ true → IsKept x.1.kept)
    → IsKept y.1.kept
    → IsKept (if b then x else y).1.kept
if-IsKept true x y hx hy = hx refl
if-IsKept false x y hx hy = hy

settle-IsKept :
    (c : PowerRecord) (settled : Settled) (m : Memory)
    → IsKept c
    → IsKept m.kept
    → IsKept (settle c settled m).1.kept
unfolding settle
settle-IsKept c raised m hc hm = hm
settle-IsKept c interrupted m hc hm = hm
settle-IsKept c (reloaded none) m hc hm = hm
settle-IsKept c (reloaded (some r)) m hc hm = elim (Bool-cases (record_eq r c)) [
  | inl same ↦ rw same hc
  | inr other ↦ rw other hm
]

save-IsKept :
    (r : PowerRecord) (a : Attempt) (m : Memory)
    → IsKept r
    → IsKept m.kept
    → IsKept (save r a m).1.kept
unfolding save
save-IsKept r a m hr hm =
    if-IsKept m.write_blocked _ _ (λ blocked. hm)
      (settle-IsKept (record r { revision = a.revision }) a.settled m (renewed r a.revision hr) hm)

Holds-if {ℓ} :
    {A : Type ℓ} (P : A → Type 0) (b : Bool) (x y : Option A)
    → (b ≡ true → Holds P x)
    → Holds P y
    → Holds P (if b then x else y)
Holds-if P true x y hx hy = hx refl
Holds-if P false x y hx hy = hy

profile_of-IsProfile :
    (s : DeviceState) → IsDevice s → s.system.channel_count_raw ≡ 6 → IsProfile (profile_of s)
unfolding profile_of
profile_of-IsProfile s d six = record { controller = d.controller; version = d.version; six = six }

write_supported_six : (s : SystemReply) → write_supported s ≡ true → s.channel_count_raw ≡ 6
unfolding write_supported
write_supported_six s h = ground arith

power_supported_six : (s : SystemReply) → power_supported s ≡ true → s.channel_count_raw ≡ 6
unfolding power_supported
power_supported_six s h = ground arith

observed_record-IsKept :
    (s : DeviceState) (r : PowerRecord) → IsDevice s → IsKept r → IsKept (observed_record s r)
unfolding observed_record
observed_record-IsKept s r d h = record {
  manual =
      Holds-if IsManual
        (write_supported s.system && (s.system.mode_raw == mode_manual && any_nonzero s.channels)) _
        _
        (λ fits. record {
          profile = profile_of-IsProfile s d (write_supported_six s.system (ground arith));
          lit = record { channels = d.channels; nonzero = ground arith };
        })
        h.manual;
  origin =
      Holds-if IsOrigin (is_control_mode s.system.mode_raw) none r.off_origin (λ _. tt) h.origin;
}

own_manual-IsLit :
    (p : Profile) (m : Option LastManual) → Holds IsManual m → Holds IsLit (own_manual p m)
unfolding own_manual
own_manual-IsLit p none h = tt
own_manual-IsLit p (some m) h =
    Holds-if IsLit (profile_eq m.profile p) (some m.channels) none (λ _. h.lit) tt

off_intent-IsKept :
    (s : DeviceState) (r : PowerRecord)
    → IsDevice s
    → s.system.channel_count_raw ≡ 6
    → s.system.mode_raw ≤ 1
    → IsKept r
    → IsKept (off_intent s r)
off_intent-IsKept s r d six mode h = record {
  manual = h.manual;
  origin = record {
    profile = profile_of-IsProfile s d six;
    mode = mode;
    manual = own_manual-IsLit (profile_of s) r.last_manual h.manual;
    off = tt;
  };
}

observe-IsKept :
    (s : DeviceState) (a : Attempt) (m : Memory)
    → IsDevice s
    → IsKept m.kept
    → IsKept (observe s a m).1.kept
unfolding observe
observe-IsKept s a m d h =
    if-IsKept (record_eq (observed_record s m.kept) m.kept) _ _ (λ same. h)
      (save-IsKept (observed_record s m.kept) a m (observed_record-IsKept s m.kept d h) h)

prepare_off-IsKept :
    (s : DeviceState) (a : Attempt) (m : Memory)
    → IsDevice s
    → power_supported s.system ≡ true
    → IsKept m.kept
    → IsKept (prepare_off s a m).1.kept
unfolding prepare_off
prepare_off-IsKept s a m d p h =
    let seen = observed_record s m.kept in
    if-IsKept (is_control_mode s.system.mode_raw) _ _
      (λ control.
        save-IsKept (off_intent s seen) a m
          (off_intent-IsKept s seen d (power_supported_six s.system p) (ground arith)
            (observed_record-IsKept s m.kept d h))
          h)
      h

confirm-IsKept :
    (s : DeviceState) (origin : Option OffOrigin) (a : Attempt) (m : Memory)
    → IsDevice s
    → Holds IsOrigin origin
    → IsKept m.kept
    → IsKept (confirm s origin a m).1.kept
unfolding confirm
confirm-IsKept s none a m d k h = h
confirm-IsKept s (some o) a m d k h =
    if-IsKept _ _ _ (λ wrong. h)
      (save-IsKept
        (record m.kept {
          off_origin = some (record o { confirmed = true; off_channels = some s.channels });
        })
        a m
        (record {
          manual = h.manual;
          origin = record {
            profile = k.profile;
            mode = k.mode;
            manual = k.manual;
            off = d.channels;
          };
        })
        h)

confirm_off-IsKept :
    (s : DeviceState) (a : Attempt) (m : Memory)
    → IsDevice s
    → IsKept m.kept
    → IsKept (confirm_off s a m).1.kept
unfolding confirm_off
confirm_off-IsKept s a m d h = confirm-IsKept s m.kept.off_origin a m d h.origin h

-- What the coordinator does with the memory: it observes, and it prepares an Off only on a profile
-- that supports power.
pub data Step (m : Memory) : Memory → Type 0 where
  observes : (s : DeviceState) (a : Attempt) → IsDevice s → Step m (observe s a m).1
  prepares :
      (s : DeviceState) (a : Attempt)
      → IsDevice s
      → power_supported s.system ≡ true
      → Step m (prepare_off s a m).1
  confirms : (s : DeviceState) (a : Attempt) → IsDevice s → Step m (confirm_off s a m).1

pub data Reach (m : Memory) : Memory → Type 0 where
  here : Reach m m
  next : {n o : Memory} → Reach m n → Step n o → Reach m o

Step-IsKept : {m n : Memory} → Step m n → IsKept m.kept → IsKept n.kept
Step-IsKept {m} (observes s a d) h = observe-IsKept s a m d h
Step-IsKept {m} (prepares s a d p) h = prepare_off-IsKept s a m d p h
Step-IsKept {m} (confirms s a d) h = confirm_off-IsKept s a m d h

-- Whatever the order of observations, Off intents and confirmations, and however their saves end,
-- the record in memory stays well formed.
pub Reach-IsKept : {m n : Memory} → Reach m n → IsKept m.kept → IsKept n.kept
Reach-IsKept here h = h
Reach-IsKept (next r st) h = Step-IsKept st (Reach-IsKept r h)
