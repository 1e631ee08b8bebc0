-- ===== src/Client/Guards.antt =====
-- client.py: `_verify_profile`, `_prepare_write` and `_readback`, the checks around every write.
use hahapent.Base.{ℕ, Bool, false, not, ◌&&◌, ◌||◌, Option, none, some, List, ◌==◌}
use hahapent.Protocol.Frame.{Bytes, mode_automatic, mode_shutdown, is_control_mode, system_query}
use hahapent.Protocol.Reply.{SystemReply, pair_eq, write_supported, power_supported, parse_system}
use hahapent.Client.State.{DeviceState, system_eq, channels_eq}
use hahapent.Client.Io.{
  conflict, unsupported, Client, Io, pure, ◌>>=◌, ◌>>◌, lift_protocol, require, gets,
}
use hahapent.Client.Transport.{connect, disconnect, quarantine, query, read_state}

-- `expected_state if expected_state is not None else self._last_state`
abbrev pub or_last : Option DeviceState → Client → Option DeviceState
or_last none c = c.last_state
or_last (some state) c = some state

-- `_verify_system_profile`
unfoldable pub same_profile : SystemReply → SystemReply → Bool
same_profile before after =
    pair_eq before.version_bytes after.version_bytes
    && (pair_eq before.controller_bytes after.controller_bytes
        && before.channel_count_raw == after.channel_count_raw)

abbrev pub same_system : Option DeviceState → DeviceState → Bool
same_system none before = false
same_system (some previous) before = system_eq before.system previous.system

abbrev pub same_channels : Option DeviceState → DeviceState → Bool
same_channels none before = false
same_channels (some previous) before = channels_eq before.channels previous.channels

abbrev pub is_allowed_mode : Bool → ℕ → Bool
is_allowed_mode power mode = is_control_mode mode || (power && mode == mode_shutdown)

-- What `_prepare_write` demands of the fresh reading.
abbrev pub admitted : Option DeviceState → Bool → DeviceState → Io DeviceState
admitted previous power before = do
  require (same_system previous before) conflict
  require (before.system.mode_raw == mode_automatic || same_channels previous before) conflict
  require (write_supported before.system && is_allowed_mode power before.system.mode_raw)
      unsupported
  require (not power || power_supported before.system) unsupported
  pure before

-- `_prepare_write`
unfoldable pub prepare_write : Option DeviceState → Bool → Io DeviceState
prepare_write expected power = do
  previous ← gets (or_last expected)
  before ← read_state
  admitted previous power before

-- `_readback`
unfoldable pub readback : DeviceState → ℕ → List Bytes → Io DeviceState
readback before expected_mode commands = do
  quarantine commands
  raw ← query system_query commands
  system ← lift_protocol (parse_system raw)
  require (same_profile before.system system) conflict
  require (system.mode_raw == expected_mode) conflict
  disconnect
  connect
  read_state
