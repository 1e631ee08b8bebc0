-- ===== src/Coordinator/Requests.antt =====
-- coordinator.py: the beginnings of the commands, up to their first `await`: the checks of the
-- arguments, the guards, and the ticket that a command keeps while it waits for its turn.
use hahapent.Base.{
  ℕ, ◌+◌, Bool, not, ◌&&◌, Option, none, some, List, set, get_or, if◌then◌else◌, Outcome, ok, err,
}
use hahapent.Base.Value.{Value, int_upto}
use hahapent.Base.Text.{Text, text_eq, codes}
use hahapent.Protocol.Frame.{mode_automatic, mode_manual}
use hahapent.Compact.Roles.{
  CompactError, Role, Rgb, validate_rgb, validate_intensity, compact_roles_from_options,
}
use hahapent.Client.Operations.{is_absent, is_zero_request}
use hahapent.Coordinator.{
  Coordinator, C, pure, raise, ◌>>=◌, ◌>>◌, require, gets, change, demand, service_validation_error,
  invalidate_compact, require_write_supported, require_power_supported, require_compact_request,
  in_shutdown, supersede_channels,
}

pub data Request : Type 0 where
  -- the index, the level and the generation
  channel_request : ℕ → ℕ → ℕ → Request
  mode_request : ℕ → Request
  -- the intent, the roles and the generation
  compact_request : Option Rgb → Option ℕ → List Role → ℕ → Request
  off_request : Request
  -- `resume_schedule`
  on_request : Bool → Request

pub record Ticket : Type 0 where
  pub epoch : ℕ
  pub request : Request

abbrev ticket_of : Request → C Ticket
ticket_of r c = (ok (record { epoch = c.command_epoch; request = r }), c)

abbrev generation_at : List ℕ → ℕ → ℕ
generation_at generations index = get_or generations index 0

-- `_channel_generations[index] += 1`
unfoldable pub supersede_channel : ℕ → Coordinator → Coordinator
supersede_channel index c = record c {
  channel_generations =
      set c.channel_generations index (generation_at c.channel_generations index + 1);
}

-- `async_set_channel`
unfoldable pub submit_channel : Value → Value → C Ticket
unfolding supersede_channel
submit_channel index value = do
  i ← demand service_validation_error (int_upto 5 index)
  v ← demand service_validation_error (int_upto 100 value)
  state ← require_write_supported
  change invalidate_compact
  change (supersede_channel i)
  generation ← gets (λ c. generation_at c.channel_generations i)
  ticket_of (channel_request i v generation)

-- `MODE_OPTIONS`
unfoldable pub mode_option : Text → Option ℕ
mode_option option =
    if text_eq option (codes "manual")
    then some mode_manual
    else if text_eq option (codes "automatic_program")
    then some mode_automatic
    else none

-- `async_set_mode`
unfoldable pub submit_mode : Text → C Ticket
unfolding mode_option
submit_mode option = do
  mode ← demand service_validation_error (mode_option option)
  state ← require_write_supported
  change invalidate_compact
  change supersede_channels
  ticket_of (mode_request mode)

-- `async_turn_off`
unfoldable pub submit_off : C Ticket
submit_off = do
  state ← require_power_supported
  change invalidate_compact
  change supersede_channels
  ticket_of off_request

-- `async_turn_on`
unfoldable pub submit_on : Bool → C Ticket
unfolding submit_mode
submit_on resume_schedule c =
    (if resume_schedule
          && (not (is_absent c.published.data_) && not (in_shutdown c.published.data_))
        then submit_mode (codes "automatic_program")
        else do
          state ← require_power_supported
          change invalidate_compact
          change supersede_channels
          ticket_of (on_request resume_schedule))
      c

-- An argument that may be missing; a ValueError is a ServiceValidationError.
abbrev pub checked : {A : Type 0} → Outcome CompactError A → C (Option A)
checked (ok a) = pure (some a)
checked (err e) = raise service_validation_error

abbrev pub optional : {A : Type 0} → (Value → Outcome CompactError A) → Option Value → C (Option A)
optional validate none = pure none
optional validate (some v) = checked (validate v)

abbrev or_else : {A : Type 0} → Option A → Option A → Option A
or_else (some a) other = some a
or_else none other = other

-- The new gesture over the one that waits.
unfoldable pub merged :
    Option (Option Rgb × Option ℕ) → Option Rgb → Option ℕ → Option Rgb × Option ℕ
merged none rgb level = (rgb, level)
merged (some (pending_rgb, pending_level)) rgb level =
    (or_else rgb pending_rgb, or_else level pending_level)

unfoldable pub keep_intent : Option Rgb × Option ℕ → Coordinator → Coordinator
keep_intent intent c =
    supersede_channels
      (record c { pending_compact = some intent; compact_generation = c.compact_generation + 1 })

-- The gesture that is no zero request.
unfoldable pub submit_mix : Option Rgb → Option ℕ → C Ticket
unfolding merged keep_intent
submit_mix rgb level = do
  found ← gets (λ c. compact_roles_from_options c.options)
  roles ← demand service_validation_error found
  epoch ← gets (λ c. c.command_epoch)
  state ← require_compact_request epoch
  intent ← gets (λ c. merged c.pending_compact rgb level)
  change (keep_intent intent)
  generation ← gets (λ c. c.compact_generation)
  ticket_of (compact_request intent.0 intent.1 roles generation)

-- `async_set_compact`
unfoldable pub submit_compact : Option Value → Option Value → C Ticket
unfolding submit_mix submit_off
submit_compact rgb_color intensity = do
  rgb ← optional validate_rgb rgb_color
  level ← optional validate_intensity intensity
  require (not (is_absent rgb && is_absent level)) service_validation_error
  if is_zero_request rgb level then submit_off else submit_mix rgb level
