-- ===== src/Tests/Switches.antt =====
-- client.py: `set_mode`, `turn_on` and the body of `set_compact` on a scripted network.
use hahapent.Base.{true, Option, some, List, map}
use hahapent.Base.Value.{Value, of_ℕ}
use hahapent.Client.Io.{Client}
use hahapent.Client.State.{DeviceState}
use hahapent.Tests.Samples.{scale_script, lamp, spectrum, dark, client}

abbrev to_schedule : Value
to_schedule = of_ℕ 0

abbrev saved : Option (List Value)
saved = some (map of_ℕ spectrum)

abbrev was_off : Option DeviceState
was_off = some (lamp 8 dark)

abbrev open_client : Client
open_client = record (client scale_script) { connected = true; operation_epoch = some 4 }
