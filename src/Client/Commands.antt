-- ===== src/Client/Commands.antt =====
-- client.py: the public operations as data.
pub mod Frames
pub mod Failure
use hahapent.Base.{ℕ, Bool, true, false, Option, List}
use hahapent.Base.Value.{Value}
use hahapent.Client.State.{DeviceState}
use hahapent.Client.Io.{Io}
use hahapent.Client.Operations.{refresh, set_channel, set_mode, set_compact, turn_off, turn_on}

pub data Command : Type 0 where
  refresh_call : Command
  set_channel_call : Value → Value → Option DeviceState → Command
  set_mode_call : Value → Option DeviceState → Command
  set_compact_call :
      Option Value → Option Value → Value → Option (List Value) → Option DeviceState → Command
  turn_off_call : Option DeviceState → Command
  turn_on_call : Option (List Value) → Option DeviceState → Command

unfoldable pub perform : Command → ℕ → Io DeviceState
perform refresh_call epoch = refresh epoch
perform (set_channel_call index value expected) epoch = set_channel index value expected epoch
perform (set_mode_call mode expected) epoch = set_mode mode expected epoch
perform (set_compact_call rgb intensity roles saved expected) epoch =
    set_compact rgb intensity roles saved expected epoch
perform (turn_off_call expected) epoch = turn_off expected epoch
perform (turn_on_call saved expected) epoch = turn_on saved expected epoch

-- `write=True` of the command's `_execute`
abbrev pub is_write : Command → Bool
is_write refresh_call = false
is_write _ = true
