-- ===== src/Tests/Samples.antt =====
-- The lamp that the tests talk to, its replies, and one script of the network for each operation.
use hahapent.Base.{ℕ, false, none, some, List, [], ◌∷◌, ◌++◌, replicate}
use hahapent.Protocol.Frame.{Bytes}
use hahapent.Client.State.{DeviceState}
use hahapent.Client.Io.{Event, done, timed_out, Client}

abbrev pub lamp : ℕ → List ℕ → DeviceState
lamp mode channels = record {
  system = record {
    mode_raw = mode;
    version_bytes = record { first = 26; second = 29 };
    controller_bytes = record { first = 28; second = 30 };
    channel_count_raw = 6;
    app_ui_channel_count = 6;
    swap_cd = false;
  };
  channels = channels;
}

abbrev pub spectrum : List ℕ
spectrum = 10 ∷ 20 ∷ 0 ∷ 0 ∷ 5 ∷ 0 ∷ []

abbrev pub brighter : List ℕ
brighter = 10 ∷ 20 ∷ 70 ∷ 0 ∷ 5 ∷ 0 ∷ []

abbrev system_reply : ℕ → Bytes
system_reply mode =
    0xf1 ∷ 0xe1 ∷ 0xfc ∷ 0 ∷ mode ∷ 0 ∷ 0 ∷ 26 ∷ 29 ∷ 28 ∷ 30 ∷ 6 ∷ replicate 7 0 ++ 0xf3 ∷ []

-- With `E2 FA`, as this family answers: six zeros after `E2 FC` would be the query itself.
abbrev channel_reply : List ℕ → Bytes
channel_reply channels = (0xf1 ∷ 0xe2 ∷ 0xfa ∷ channels) ++ (replicate 10 0 ++ 0xf3 ∷ [])

-- The events of `_read_state`.
abbrev reading : ℕ → List ℕ → List Event
reading mode channels =
    done [] ∷ done (system_reply mode) ∷ timed_out ∷ done [] ∷ done (channel_reply channels) ∷ []

-- The events of `_readback`, and of the last disconnection.
abbrev reading_back : ℕ → List ℕ → List Event
reading_back mode channels =
    (timed_out ∷ done [] ∷ done (system_reply mode) ∷ done [] ∷ done [] ∷ reading mode channels)
    ++ done [] ∷ []

abbrev pub channel_script : List Event
channel_script =
    (done [] ∷ reading 1 spectrum) ++ (done [] ∷ timed_out ∷ done [] ∷ reading_back 1 brighter)

abbrev pub off_script : List Event
off_script = (done [] ∷ reading 1 spectrum) ++ (done [] ∷ reading_back 8 spectrum)

abbrev pub schedule_script : List Event
schedule_script = (done [] ∷ reading 1 spectrum) ++ (done [] ∷ reading_back 0 spectrum)

abbrev pub dark : List ℕ
dark = replicate 6 0

-- On from a dark Off: the wake, the second guard and the saved mix.
abbrev pub on_script : List Event
on_script =
    (done [] ∷ reading 8 dark)
    ++ (done [] ∷ reading_back 1 dark)
    ++ (done [] ∷ reading 1 dark)
    ++ (done [] ∷ timed_out ∷ done [] ∷ reading_back 1 spectrum)

abbrev pub scaled_up : List ℕ
scaled_up = 25 ∷ 50 ∷ 0 ∷ 0 ∷ 13 ∷ 0 ∷ []

-- The body of `set_compact` alone, on an open connection.
abbrev pub scale_script : List Event
scale_script = reading 1 spectrum ++ (done [] ∷ timed_out ∷ done [] ∷ reading_back 1 scaled_up)

-- A client that has seen the lamp in Manual, with its network's script.
abbrev pub client : List Event → Client
client events = record {
  closed = false;
  needs_refresh = false;
  epoch = 4;
  operation_epoch = none;
  last_state = some (lamp 1 spectrum);
  connected = false;
  decoder = record { max_buffer = 4096; discarded_bytes = 0; buffer = [] };
  received = 0;
  outer = none;
  events = events;
  sent = [];
}
