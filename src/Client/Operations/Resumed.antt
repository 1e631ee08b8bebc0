-- ===== src/Client/Operations/Resumed.antt =====
-- What `set_mode` and `turn_on` promise when they return.
use hahapent.Base.{ℕ, ◌≡◌, ◌⊎◌, true, false, Option, none, some, List, ok, ◌≢◌}
use hahapent.Base.Value.{Value}
use hahapent.Protocol.Frame.{permute_channels, mode_automatic, mode_manual, mode_shutdown}
use hahapent.Compact.Recipe.{any_nonzero}
use hahapent.Client.State.{DeviceState}
use hahapent.Client.Io.{Client, Io}

-- Selecting Manual leaves the levels as they were read.
abbrev pub IsSwitched : ℕ → DeviceState → DeviceState → Type 0
IsSwitched mode before s =
    (s.system.mode_raw ≡ mode) × ((mode ≡ mode_manual) → s.channels ≡ before.channels)

-- What On may return: a lamp that was not off, the schedule, or the saved mix in Manual.
abbrev pub IsResumed : Option (List ℕ) → DeviceState → DeviceState → Type 0
IsResumed none before s =
    ((s ≡ before) × (s.system.mode_raw ≢ mode_shutdown)) ⊎ (s.system.mode_raw ≡ mode_automatic)
IsResumed (some saved) before s =
    ((s ≡ before) × (s.system.mode_raw ≢ mode_shutdown))
    ⊎ ((s.system.mode_raw ≡ mode_manual) × (s.channels ≡ saved))

-- The argument of `turn_on` as the mix that it names.
abbrev pub IsSaved : Option (List Value) → Option (List ℕ) → Type 0
IsSaved none none = Unit
IsSaved none (some ns) = ⊥
IsSaved (some vs) none = ⊥
IsSaved (some vs) (some ns) = (permute_channels vs false ≡ ok ns) × (any_nonzero ns ≡ true)
