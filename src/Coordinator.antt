-- ===== src/Coordinator.antt =====
-- coordinator.py: the state of `AquariusCoordinator`, what a failed and a good read do to it, and the
-- guards of its commands. The coordinator is a set of tasks: each runs alone from one `await` to the
-- next, so an operation is one function for each such stretch. Home Assistant's base class is a
-- parameter.
pub mod Requests
pub mod Calls
pub mod Ends
pub mod Steps
pub mod Later
pub mod Stale
pub mod Latest
pub mod Stopped
pub mod Pace
pub mod Durable
pub mod Doubt
use hahapent.Base.{
  replicate, ◌≡◌, ℕ, ◌+◌, ◌*◌, ◌^◌, min, Bool, true, false, not, ◌&&◌, ◌||◌, Option, none, some,
  List, [], ◌∷◌, map, ◌==◌, if◌then◌else◌, Outcome, ok, err,
}
use hahapent.Base.Value.{Value}
use hahapent.Protocol.Frame.{mode_automatic, mode_manual, mode_shutdown, is_control_mode}
use hahapent.Protocol.Reply.{write_supported, power_supported}
use hahapent.Compact.Roles.{Rgb}
use hahapent.Client.State.{DeviceState}
use hahapent.PowerMemory.Memory.{
  fresh_memory, Memory, Attempt, PowerError, memory_error, cancelled, observe,
}

-- `self.data` and `self.last_update_success`
pub record Published : Type 0 where
  pub data_ : Option DeviceState
  pub last_update_success : Bool

-- Home Assistant's DataUpdateCoordinator: `async_set_updated_data` and `async_set_update_error`.
pub record Library : Type 0 where
  pub set_updated_data : DeviceState → Published → Published
  pub set_update_error : Published → Published

-- What Home Assistant's documentation says of the two calls.
pub record IsDocumented (ha : Library) : Type 0 where
  pub updated_data : (s : DeviceState) (p : Published) → (ha.set_updated_data s p).data_ ≡ some s
  pub updated_success :
      (s : DeviceState) (p : Published) → (ha.set_updated_data s p).last_update_success ≡ true
  pub error_success : (p : Published) → (ha.set_update_error p).last_update_success ≡ false

pub record Coordinator : Type 0 where
  pub failures : ℕ
  pub stopped : Bool
  pub quiescing : Bool
  pub resuming : Bool
  pub channel_generations : List ℕ
  pub compact_generation : ℕ
  pub pending_compact : Option (Option Rgb × Option ℕ)
  pub command_epoch : ℕ
  -- the running tasks, by number
  pub active_command : Option ℕ
  pub active_read : Option ℕ
  -- seconds
  pub update_interval : ℕ
  pub published : Published
  pub power_memory : Memory
  -- `config_entry.options`
  pub options : Value

-- The exceptions that reach Home Assistant: HomeAssistantError, ServiceValidationError, UpdateFailed and
-- CancelledError.
pub data Refusal : Type 0 where
  home_assistant_error service_validation_error update_failed task_cancelled : Refusal

abbrev pub C : Type 0 → Type 0
C A = Coordinator → Outcome Refusal A × Coordinator

abbrev pub pure : {A : Type 0} → A → C A
pure a c = (ok a, c)

abbrev pub raise : {A : Type 0} → Refusal → C A
raise e c = (err e, c)

abbrev pub continue :
    {A B : Type 0} → Outcome Refusal A × Coordinator → (A → C B) → Outcome Refusal B × Coordinator
continue (ok a, c) f = f a c
continue (err e, c) f = (err e, c)

infixl 5 ◌>>=◌ ◌>>◌
unfoldable pub ◌>>=◌ : {A B : Type 0} → C A → (A → C B) → C B
◌>>=◌ m f c = continue (m c) f

abbrev pub ◌>>◌ : {B : Type 0} → C (Unit {0}) → C B → C B
m >> k = m >>= λ _. k

abbrev pub require : Bool → Refusal → C (Unit {0})
require true e c = (ok tt, c)
require false e c = (err e, c)

abbrev pub gets : {A : Type 0} → (Coordinator → A) → C A
gets f c = (ok (f c), c)

abbrev pub change : (Coordinator → Coordinator) → C (Unit {0})
change f c = (ok tt, f c)

abbrev pub demand : {A : Type 0} → Refusal → Option A → C A
demand e none = raise e
demand e (some a) = pure a

abbrev pub poll_seconds : ℕ
poll_seconds = 30

abbrev pub max_backoff_seconds : ℕ
max_backoff_seconds = 300

-- `__init__`, with what the base class begins with
abbrev pub initial : Published → Value → Coordinator
initial p options = record {
  failures = 0;
  stopped = false;
  quiescing = false;
  resuming = false;
  channel_generations = replicate 6 0;
  compact_generation = 0;
  pending_compact = none;
  command_epoch = 0;
  active_command = none;
  active_read = none;
  update_interval = poll_seconds;
  published = p;
  power_memory = fresh_memory;
  options = options;
}

-- `_invalidate_compact`
unfoldable pub invalidate_compact : Coordinator → Coordinator
invalidate_compact c = record c {
  compact_generation = c.compact_generation + 1;
  pending_compact = none;
}

unfoldable pub backoff : ℕ → ℕ
backoff failures = min (poll_seconds * 2 ^ min failures 4) max_backoff_seconds

-- `_read_failed`
unfoldable pub read_failed : Coordinator → Coordinator
unfolding invalidate_compact backoff
read_failed c = record (invalidate_compact (record c { command_epoch = c.command_epoch + 1 })) {
  failures = c.failures + 1;
  update_interval = backoff (c.failures + 1);
}

-- `_read_succeeded`
unfoldable pub read_succeeded : Coordinator → Coordinator
read_succeeded c = record c { failures = 0; update_interval = poll_seconds }

-- `_require_current_state`, with the state that it has checked
unfoldable pub require_current_state : C DeviceState
require_current_state = do
  live ← gets (λ c. not c.stopped && (not c.quiescing && c.published.last_update_success))
  require live home_assistant_error
  current ← gets (λ c. c.published.data_)
  demand home_assistant_error current

-- `_require_write_supported`
unfoldable pub require_write_supported : C DeviceState
unfolding require_current_state
require_write_supported = do
  s ← require_current_state
  require (write_supported s.system) service_validation_error
  require (is_control_mode s.system.mode_raw) service_validation_error
  pure s

-- `_require_current_request`
unfoldable pub require_current_request : ℕ → C DeviceState
unfolding require_write_supported
require_current_request epoch = do
  s ← require_write_supported
  current ← gets (λ c. c.command_epoch == epoch)
  require current home_assistant_error
  pure s

-- `_require_power_supported`
unfoldable pub require_power_supported : C DeviceState
unfolding require_current_state
require_power_supported = do
  s ← require_current_state
  require (power_supported s.system) service_validation_error
  require (is_control_mode s.system.mode_raw || s.system.mode_raw == mode_shutdown)
      service_validation_error
  pure s

-- `_require_power_request`
unfoldable pub require_power_request : ℕ → C DeviceState
unfolding require_power_supported
require_power_request epoch = do
  s ← require_power_supported
  current ← gets (λ c. c.command_epoch == epoch)
  require current home_assistant_error
  pure s

abbrev pub in_shutdown : Option DeviceState → Bool
in_shutdown none = false
in_shutdown (some s) = s.system.mode_raw == mode_shutdown

-- `_require_compact_request`
unfoldable pub require_compact_request : ℕ → C DeviceState
unfolding require_power_request require_current_request
require_compact_request epoch c =
    (if in_shutdown c.published.data_
        then require_power_request epoch
        else require_current_request epoch)
      c

-- `_channel_generations = [value + 1 for value in self._channel_generations]`
unfoldable pub supersede_channels : Coordinator → Coordinator
supersede_channels c = record c { channel_generations = map (λ n. n + 1) c.channel_generations }
