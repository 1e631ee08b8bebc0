-- ===== src/Client/Operations.antt =====
-- client.py: the public operations `refresh`, `set_channel`, `set_mode`, `set_compact`, `turn_off` and
-- `turn_on`. Each takes the epoch at its call, which `execute` compares once it holds the lock.
pub mod Bodies
pub mod Success
pub mod Fresh
pub mod Finished
pub mod Resumed
pub mod Composed
use hahapent.Base.{
  ℕ, Bool, true, false, not, ◌&&◌, ◌||◌, Option, none, some, List, [], ◌∷◌, set, ◌==◌,
  if◌then◌else◌, Outcome, ok, err, maximum,
}
use hahapent.Base.Value.{Value, of_ℕ, int_upto}
use hahapent.Protocol.Frame.{
  ProtocolError, bad_index, bad_control_mode, bad_compact, nothing_chosen, zero_output, zero_basis,
  mode_automatic, mode_manual, mode_shutdown, is_control_mode, levels, validate_percentage,
  permute_channels, channel_write_frame, mode_frame,
}
use hahapent.Compact.Roles.{
  CompactError, Role, Rgb, validate_roles, validate_rgb, validate_intensity,
}
use hahapent.Compact.Recipe.{mix, scaled, zero_channels, any_nonzero, rgb_peak}
use hahapent.Client.State.{DeviceState, channels_eq}
use hahapent.Client.Io.{
  protocol, conflict, compact_input, Client, Io, pure, raise, ◌>>=◌, ◌>>◌, lift_protocol,
  lift_compact, require, gets,
}
use hahapent.Client.Transport.{connect, disconnect, send, quarantine, read_state}
use hahapent.Client.Guards.{or_last, same_profile, prepare_write, readback}
use hahapent.Client.Execute.{execute}

unfoldable pub refresh : ℕ → Io DeviceState
refresh call_epoch = execute call_epoch false read_state

-- The part that `set_channel`, `set_compact` and `turn_on` share: the six levels, the pause, the
-- explicit save in Manual, and the comparison of what is read back.
unfoldable pub write_levels : DeviceState → List ℕ → Io DeviceState
write_levels before desired = do
  channel_command ← lift_protocol (channel_write_frame desired before.system.swap_cd)
  manual_command ← lift_protocol (mode_frame (of_ℕ mode_manual))
  send channel_command
  quarantine (channel_command ∷ [])
  send manual_command
  after ← readback before mode_manual (channel_command ∷ manual_command ∷ [])
  require (same_profile before.system after.system) conflict
  require (after.system.mode_raw == mode_manual && channels_eq after.channels desired) conflict
  pure after

unfoldable pub channel_operation : ℕ → ℕ → Option DeviceState → Io DeviceState
channel_operation index value expected = do
  before ← prepare_write expected false
  write_levels before (set before.channels index value)

-- The argument of an integer range, as an action.
abbrev pub demand : ProtocolError → Option ℕ → Io ℕ
demand e none = raise (protocol e)
demand e (some n) = pure n

unfoldable pub set_channel : Value → Value → Option DeviceState → ℕ → Io DeviceState
set_channel index value expected call_epoch = do
  i ← demand bad_index (int_upto 5 index)
  v ← lift_protocol (validate_percentage value)
  execute call_epoch true (channel_operation i v expected)

-- One mode command and its readback.
unfoldable pub switch_mode : DeviceState → ℕ → Io DeviceState
switch_mode before mode = do
  command ← lift_protocol (mode_frame (of_ℕ mode))
  send command
  after ← readback before mode (command ∷ [])
  require (same_profile before.system after.system) conflict
  require (after.system.mode_raw == mode) conflict
  pure after

unfoldable pub mode_operation : ℕ → Option DeviceState → Io DeviceState
mode_operation mode expected = do
  before ← prepare_write expected false
  after ← switch_mode before mode
  require (not (mode == mode_manual) || channels_eq after.channels before.channels) conflict
  pure after

abbrev pub control_mode : Option ℕ → Option ℕ
control_mode none = none
control_mode (some mode) = if is_control_mode mode then some mode else none

unfoldable pub set_mode : Value → Option DeviceState → ℕ → Io DeviceState
set_mode mode expected call_epoch = do
  m ← demand bad_control_mode (control_mode (int_upto 255 mode))
  execute call_epoch true (mode_operation m expected)

abbrev pub switched_off : DeviceState → DeviceState → Bool
switched_off before after =
    channels_eq after.channels before.channels || channels_eq after.channels zero_channels

unfoldable pub off_operation : Option DeviceState → Io DeviceState
off_operation expected = do
  before ← prepare_write expected true
  let change = do
    after ← switch_mode before mode_shutdown
    require (switched_off before after) conflict
    pure after
  if before.system.mode_raw == mode_shutdown then pure before else change

unfoldable pub turn_off : Option DeviceState → ℕ → Io DeviceState
turn_off expected call_epoch = execute call_epoch true (off_operation expected)

-- The restoration of the saved mix, once the lamp is awake with all six levels at zero.
unfoldable pub restore_levels : DeviceState → DeviceState → List ℕ → Io DeviceState
restore_levels before awake saved = do
  require (channels_eq before.channels zero_channels && channels_eq awake.channels zero_channels)
      conflict
  disconnect
  connect
  guarded ← prepare_write (some awake) false
  write_levels guarded saved

unfoldable pub on_operation : Option (List ℕ) → Option DeviceState → Io DeviceState
on_operation manual_channels expected = do
  before ← prepare_write expected true
  let wake : Io DeviceState = elim manual_channels [
    | none ↦ switch_mode before mode_automatic
    | some saved ↦ switch_mode before mode_manual >>= λ awake.
        if channels_eq awake.channels saved then pure awake else restore_levels before awake saved
  ]
  if not (before.system.mode_raw == mode_shutdown) then pure before else wake

-- `permute_channels(manual_channels)` and the test that the mix is not all zero.
unfoldable pub saved_mix : ProtocolError → Option (List Value) → Io (Option (List ℕ))
saved_mix e none = pure none
saved_mix e (some values) = do
  saved ← lift_protocol (permute_channels values false)
  require (any_nonzero saved) (protocol e)
  pure (some saved)

unfoldable pub turn_on : Option (List Value) → Option DeviceState → ℕ → Io DeviceState
turn_on manual_channels expected call_epoch = do
  saved ← saved_mix zero_basis manual_channels
  execute call_epoch true (on_operation saved expected)

-- The level of a colour without an intensity: the basis' peak, or a modest five.
abbrev chosen_level : Option ℕ → Option (List ℕ) → ℕ
chosen_level (some level) basis = level
chosen_level none none = 5
chosen_level none (some values) = if maximum values == 0 then 5 else maximum values

-- The six levels of `set_compact`. mix_rgb and scale_channels see arguments that are validated.
unfoldable pub compact_levels :
    DeviceState → Option Rgb → Option ℕ → List Role → Option (List ℕ) → Io (List ℕ)
compact_levels before (some colour) level roles basis =
    lift_compact (mix colour (chosen_level level basis) roles)
compact_levels before none level roles none = raise (compact_input before)
compact_levels before none level roles (some values) =
    if any_nonzero values
    then lift_compact (scaled values (chosen_level level none))
    else raise (compact_input before)

-- The wake from Shutdown into unchanged levels, and the second guard.
unfoldable pub wake_unchanged : DeviceState → Io DeviceState
wake_unchanged before = do
  awake ← switch_mode before mode_manual
  require (channels_eq awake.channels before.channels) conflict
  disconnect
  connect
  prepare_write (some awake) false

abbrev pub is_shutdown : Option DeviceState → Bool
is_shutdown none = false
is_shutdown (some state) = state.system.mode_raw == mode_shutdown

unfoldable pub compact_operation :
    Option Rgb → Option ℕ → List Role → Option (List ℕ) → Option DeviceState → Io DeviceState
compact_operation rgb level roles manual_channels expected = do
  previous ← gets (or_last expected)
  let waking = is_shutdown previous
  before ← prepare_write expected waking
  desired ←
      compact_levels before rgb level roles
        (if waking then manual_channels else some before.channels)
  desired ← lift_protocol (permute_channels (levels desired) false)
  guarded ← if waking then wake_unchanged before else pure before
  write_levels guarded desired

-- A ValueError of the validation is a ProtocolError here.
abbrev pub checked : {A : Type 0} → Outcome CompactError A → Io A
checked (ok a) = pure a
checked (err e) = raise (protocol bad_compact)

abbrev pub optional : {A : Type 0} → (Value → Outcome CompactError A) → Option Value → Io (Option A)
optional validate none = pure none
optional validate (some value) = do a ← checked (validate value); pure (some a)

abbrev pub is_absent : {A : Type 0} → Option A → Bool
is_absent none = true
is_absent (some a) = false

-- `level == 0 or rgb == (0, 0, 0)`
abbrev pub is_zero_request : Option Rgb → Option ℕ → Bool
is_zero_request rgb level =
    elim level [ none ↦ false | some n ↦ n == 0 ]
    || elim rgb [ none ↦ false | some colour ↦ rgb_peak colour == 0 ]

unfoldable pub set_compact :
    Option Value
    → Option Value
    → Value
    → Option (List Value)
    → Option DeviceState
    → ℕ
    → Io DeviceState
set_compact rgb_color intensity channel_roles manual_channels expected call_epoch = do
  roles ← checked (validate_roles channel_roles)
  rgb ← optional validate_rgb rgb_color
  level ← optional validate_intensity intensity
  require (not (is_absent rgb && is_absent level)) (protocol nothing_chosen)
  require (not (is_zero_request rgb level)) (protocol zero_output)
  saved ← saved_mix zero_basis manual_channels
  execute call_epoch true (compact_operation rgb level roles saved expected)
