-- ===== src/Coordinator/Stale.antt =====
-- coordinator.py: which requests can still be admitted, over every interleaving of the tasks.
use mathlib.Core.Bool.{false≢true}
use hahapent.Base.{
  ℕ, ◌+◌, ◌<◌, ◌≡◌, refl, ◌==◌, Bool, true, false, Option, if◌then◌else◌, Outcome, ok, err, arith,
}
use hahapent.Client.State.{DeviceState}
use hahapent.PowerMemory.Memory.{Attempt}
use hahapent.Coordinator.{
  Library, Coordinator, C, ◌>>=◌, continue, Refusal, service_validation_error, raise, read_failed,
  read_succeeded, invalidate_compact, require_current_state, require_write_supported,
  require_current_request, require_power_supported, require_power_request, require_compact_request,
  in_shutdown,
}
use hahapent.Coordinator.Requests.{
  Request, channel_request, mode_request, compact_request, off_request, on_request,
}
use hahapent.Coordinator.Calls.{
  Call, leave_window, in_doubt, check_deadline, admit_channel, admit_mode, admit_compact,
  admitted_compact, finally_compact, admit_off, admit_on, admit,
}
use hahapent.Coordinator.Ends.{
  command_failed, compact_refused, publish_observation, read_refused, read_cancelled,
  prepare_unload,
}
use hahapent.Coordinator.Steps.{Steps}
use hahapent.Coordinator.Later.{Later, Later-elementary}
use hahapent.Coordinator.Steps.Moves.{Moves->>=}
use hahapent.Coordinator.Steps.Endings.{Moves-publish}
use hahapent.Coordinator.Steps.Every.{steps-respect}

-- The request ends by an exception.
unfoldable pub is_refused : {A : Type 0} → Outcome Refusal A × Coordinator → Bool
is_refused (ok a, c) = false
is_refused (err e, c) = true

-- The guards refuse a request of another epoch.
current-refuses :
    (epoch : ℕ) (c : Coordinator)
    → (c.command_epoch == epoch) ≡ false
    → is_refused (require_current_request epoch c) ≡ true
unfolding require_current_request require_write_supported require_current_state ◌>>=◌ is_refused
current-refuses epoch c h = ground arith

power-refuses :
    (epoch : ℕ) (c : Coordinator)
    → (c.command_epoch == epoch) ≡ false
    → is_refused (require_power_request epoch c) ≡ true
unfolding require_power_request require_power_supported require_current_state ◌>>=◌ is_refused
power-refuses epoch c h = ground arith

-- An action that is refused ends every action that begins with it.
pub then-refused :
    {A B : Type 0} (m : C A) (f : A → C B) (c : Coordinator)
    → is_refused (m c) ≡ true
    → is_refused ((m >>= f) c) ≡ true
unfolding ◌>>=◌ is_refused
then-refused {A} m f c h = go (m c) h
  where
    go :
        (r : Outcome Refusal A × Coordinator)
        → is_refused r ≡ true
        → is_refused (continue r f) ≡ true
    go (ok a, d) h = absurd (false≢true h)
    go (err e, d) h = refl

module _ (ha : Library) where
  pub deadline-refused :
      {A : Type 0} (late : Bool) (m : C A) (c : Coordinator)
      → is_refused (m c) ≡ true
      → is_refused ((check_deadline ha late >>= λ _. m) c) ≡ true
  unfolding check_deadline in_doubt ◌>>=◌ is_refused
  deadline-refused true m c h = refl
  deadline-refused false m c h = h

  compact-refuses :
      (epoch : ℕ) (c : Coordinator)
      → (c.command_epoch == epoch) ≡ false
      → is_refused (require_compact_request epoch c) ≡ true
  unfolding require_compact_request
  compact-refuses epoch c h = go (in_shutdown c.published.data_)
    where
      go :
          (b : Bool)
          → is_refused
              ((if b then require_power_request epoch else require_current_request epoch) c)
            ≡ true
      go true = power-refuses epoch c h
      go false = current-refuses epoch c h

  pub finally-refused :
      (generation : ℕ) (r : Outcome Refusal (Option Call) × Coordinator)
      → is_refused r ≡ true
      → is_refused (finally_compact ha generation r) ≡ true
  unfolding finally_compact is_refused
  finally-refused generation (ok a, c) h = absurd (false≢true h)
  finally-refused generation (err e, c) h = refl

  -- A request of another epoch is refused at its turn.
  admit-refuses :
      (task : ℕ) (late : Bool) (epoch : ℕ) (r : Request) (c : Coordinator)
      → (c.command_epoch == epoch) ≡ false
      → is_refused (admit ha task late (record { epoch = epoch; request = r }) c) ≡ true
  unfolding admit admit_channel admit_mode admit_compact admitted_compact admit_off admit_on
  admit-refuses task late epoch (channel_request index value generation) c h =
      deadline-refused late _ c
        (then-refused (require_current_request epoch) _ c (current-refuses epoch c h))
  admit-refuses task late epoch (mode_request mode) c h =
      deadline-refused late _ c
        (then-refused (require_current_request epoch) _ c (current-refuses epoch c h))
  admit-refuses task late epoch (compact_request rgb level roles generation) c h =
      finally-refused generation (admitted_compact ha task late epoch rgb level roles generation c)
        (deadline-refused late _ c
          (then-refused (require_compact_request epoch) _ c (compact-refuses epoch c h)))
  admit-refuses task late epoch off_request c h =
      deadline-refused late _ c
        (then-refused (require_power_request epoch) _ c (power-refuses epoch c h))
  admit-refuses task late epoch (on_request resume_schedule) c h =
      deadline-refused late _ c
        (then-refused (require_power_request epoch) _ c (power-refuses epoch c h))

-- The events after which what has been asked before is void: a read that fails or is cancelled, a command
-- that fails, expires or is cancelled, a compact request without a colour to keep, and unloading.
pub data Voids (ha : Library) : Coordinator → Coordinator → Type 0 where
  read_lost : (c : Coordinator) → Voids ha c (read_refused ha c).1
  read_stopped : (c : Coordinator) → Voids ha c (read_cancelled ha c).1
  command_lost :
      (task : ℕ) (e : Refusal) (c : Coordinator) → Voids ha c (command_failed ha task e c).1
  colour_refused :
      (task : ℕ) (attempt : Attempt) (s : DeviceState) (c : Coordinator)
      → Voids ha c (compact_refused ha task attempt s c).1
  unloading : (task : ℕ) (c : Coordinator) → Voids ha c (prepare_unload task c).1

Voids-epoch : {ha : Library} {c d : Coordinator} → Voids ha c d → c.command_epoch < d.command_epoch
unfolding read_refused read_cancelled command_failed in_doubt read_failed invalidate_compact
    leave_window prepare_unload compact_refused read_succeeded
Voids-epoch (read_lost c) = omega arith
Voids-epoch (read_stopped c) = omega arith
Voids-epoch (command_lost task e c) = omega arith
Voids-epoch {ha} (colour_refused task attempt s c) =
    let known =
      read_succeeded (invalidate_compact (record c { command_epoch = c.command_epoch + 1 })) in
    let kept =
      Moves->>= Later Later-elementary (publish_observation ha attempt s)
        (λ _. raise {A = Unit {0}} service_validation_error)
        (Moves-publish Later Later-elementary ha attempt s) (λ _. Later-elementary.same) known in
    omega (arith, kept.epoch_later)
Voids-epoch (unloading task c) = omega arith

-- A request that was asked before the communication failed (or before unloading, or before a compact
-- request was refused for want of a colour to keep) is refused at its turn, however the tasks interleave
-- and however often the controller is read well in between: the client is not called for it.
pub admit-stale :
    (ha : Library) (task : ℕ) (late : Bool) (r : Request) (c d e f : Coordinator)
    → Steps ha c d
    → Voids ha d e
    → Steps ha e f
    → is_refused (admit ha task late (record { epoch = c.command_epoch; request = r }) f) ≡ true
admit-stale ha task late r c d e f before fault after_ =
    let first = steps-respect Later Later-elementary ha before in
    let last = steps-respect Later Later-elementary ha after_ in
    admit-refuses ha task late c.command_epoch r f
      (ground (arith, first.epoch_later, Voids-epoch fault, last.epoch_later))
