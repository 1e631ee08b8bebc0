-- ===== src/Tests/Coordination.antt =====
-- Interleavings of the coordinator's tasks.
use hahapent.PowerMemory.Record.{profile_of}
use hahapent.Base.{◌≤◌, ◌≡◌, ◌≢◌, refl, true, false, none, some, ok}
use hahapent.Base.Value.{null, of_ℕ}
use hahapent.Protocol.Reply.{write_supported, bytes_eq, power_supported}
use hahapent.PowerMemory.Memory.{
  fresh_memory, Attempt, raised, prepare_off, save, record_eq, observed_record, manual_eq,
  origin_eq, own_manual,
}
use hahapent.Coordinator.{
  initial, Library, IsDocumented, home_assistant_error, Coordinator, ◌>>=◌, backoff,
  require_write_supported, require_current_request, invalidate_compact, require_power_request,
}
use hahapent.Coordinator.Requests.{
  submit_mode, submit_off, submit_on, submit_compact, Ticket, channel_request, submit_channel,
}
use hahapent.Coordinator.Calls.{in_doubt, call_channel, call_off, admit}
use hahapent.Coordinator.Ends.{
  off_prepared, read_refused, read_done, begin_read, shutdown, begin_resume, prepare_unload,
  end_resume,
}
use hahapent.Coordinator.Steps.{stay, then_, asks_channel, has_read, ends_resume, fails_to_read}
use hahapent.Coordinator.Stale.{is_refused, read_lost, admit-stale}
use hahapent.Coordinator.Latest.{admit-superseded}
use hahapent.Coordinator.Stopped.{shutdown-final}
use hahapent.Coordinator.Pace.{IsPaced, HasFailed, interval-bounds}
use hahapent.Base.Text.{codes}
use hahapent.Coordinator.Doubt.{in_doubt-refuses}
use hahapent.PowerMemory.Memory.Saved.{IsShown, off_record}
use hahapent.Coordinator.Durable.{off_prepared-durable}
use hahapent.Tests.Power.{lit, stored, intended}
use hahapent.Tests.Samples.{lamp, spectrum}

abbrev home : Library
home = record {
  set_updated_data = λ s p. record { data_ = some s; last_update_success = true };
  set_update_error = λ p. record p { last_update_success = false };
}

abbrev ready : Coordinator
ready = initial (record { data_ = some (lamp 1 spectrum); last_update_success = true }) null

abbrev unsaved : Attempt
unsaved = record { revision = "0"; settled = raised }

-- A request for channel C, a failed read, and a good one.
abbrev asked : Coordinator
asked = (submit_channel (of_ℕ 2) (of_ℕ 70) ready).1

abbrev lost : Coordinator
lost = (read_refused home asked).1

abbrev read_again : Coordinator
read_again = (read_done home unsaved (lamp 1 spectrum) lost).1

admit-stale_example :
    is_refused
      (admit home 7 false (record { epoch = 0; request = channel_request 2 70 1 }) read_again)
    ≡ true
admit-stale_example =
    admit-stale home 7 false (channel_request 2 70 1) ready asked lost read_again
      (then_ (asks_channel (of_ℕ 2) (of_ℕ 70) ready) (stay asked)) (read_lost asked)
      (then_ (has_read unsaved (lamp 1 spectrum) lost) (stay read_again))

abbrev first_ticket : Ticket
first_ticket = record { epoch = 0; request = channel_request 2 70 1 }

abbrev second_ticket : Ticket
second_ticket = record { epoch = 0; request = channel_request 2 40 2 }

abbrev asked_again : Coordinator
asked_again = (submit_channel (of_ℕ 2) (of_ℕ 40) asked).1

first_issued : (submit_channel (of_ℕ 2) (of_ℕ 70) ready).0 ≡ ok first_ticket
unfolding submit_channel ◌>>=◌ require_write_supported write_supported invalidate_compact
first_issued = refl

second_issued : (submit_channel (of_ℕ 2) (of_ℕ 40) asked).0 ≡ ok second_ticket
unfolding submit_channel ◌>>=◌ require_write_supported write_supported invalidate_compact
second_issued = refl

admit-superseded_example :
    (admit home 7 false first_ticket asked_again).0
    ≢ ok (some (call_channel 2 70 (lamp 1 spectrum)))
admit-superseded_example =
    admit-superseded home 7 false (of_ℕ 2) (of_ℕ 70) (of_ℕ 2) (of_ℕ 40) 2 70 40 1 2 ready asked
      asked_again first_ticket second_ticket (call_channel 2 70 (lamp 1 spectrum)) refl first_issued
      refl (stay asked) second_issued refl (stay asked_again)

-- The second request is the one that is carried out.
second_admitted :
    (admit home 7 false second_ticket asked_again).0
    ≡ ok (some (call_channel 2 40 (lamp 1 spectrum)))
unfolding admit submit_channel ◌>>=◌ require_current_request write_supported invalidate_compact
second_admitted = refl

abbrev stopped : Coordinator
stopped = (shutdown 1 asked).1

shutdown-final_example :
    (is_refused (admit home 7 false first_ticket (end_resume stopped)) ≡ true)
    × (is_refused (begin_read home 7 (end_resume stopped)) ≡ true)
shutdown-final_example =
    shutdown-final home 1 7 false first_ticket asked (end_resume stopped)
      (then_ (ends_resume stopped) (stay (end_resume stopped)))

ready-IsPaced : IsPaced ready
unfolding IsPaced backoff
ready-IsPaced = refl

reads_again : (read_done home unsaved (lamp 1 spectrum) lost).0 ≡ ok (lamp 1 spectrum)
unfolding read_done ◌>>=◌ hahapent.PowerMemory.Memory.observe record_eq observed_record
    hahapent.Coordinator.read_succeeded read_refused hahapent.Coordinator.read_failed submit_channel
    require_write_supported write_supported save
reads_again = refl

interval-bounds_example :
    HasFailed 1 lost
    × HasFailed 2 (read_refused home lost).1
    × HasFailed 2 (in_doubt home {A = Unit {0}} home_assistant_error lost).1
    × HasFailed 0 read_again
    × ((30 ≤ lost.update_interval) × (lost.update_interval ≤ 300))
unfolding read_refused hahapent.Coordinator.read_failed submit_channel ◌>>=◌ require_write_supported
    write_supported
interval-bounds_example =
    interval-bounds home ready lost home_assistant_error unsaved (lamp 1 spectrum) (lamp 1 spectrum)
      ready-IsPaced
      (then_ (asks_channel (of_ℕ 2) (of_ℕ 70) ready) (then_ (fails_to_read asked) (stay lost)))
      reads_again

off_issued : (off_prepared home 7 false 0 (stored intended) lit ready).0 ≡ ok (some (call_off lit))
unfolding off_prepared ◌>>=◌ prepare_off save record_eq observed_record write_supported manual_eq
    profile_of bytes_eq origin_eq own_manual require_power_request power_supported
off_issued = refl

off_prepared-durable_example :
    (call_off lit ≡ call_off lit)
    × (prepare_off lit (stored intended) fresh_memory
        ≡ (ok tt, (off_prepared home 7 false 0 (stored intended) lit ready).1.power_memory))
    × IsShown
        (off_record lit (stored intended) fresh_memory)
        (stored intended)
        (off_prepared home 7 false 0 (stored intended) lit ready).1.power_memory
    × (false ≡ false)
    × (ready.command_epoch ≡ 0)
off_prepared-durable_example =
    off_prepared-durable home 7 false 0 (stored intended) lit ready (call_off lit) off_issued

home-IsDocumented : IsDocumented home
home-IsDocumented = record {
  updated_data = λ s p. refl;
  updated_success = λ s p. refl;
  error_success = λ p. refl;
}

abbrev doubtful : Coordinator
doubtful = (in_doubt home {A = Unit {0}} home_assistant_error ready).1

-- The unloading of the entry begins and is taken back.
abbrev resumed : Coordinator
resumed = end_resume (begin_resume (prepare_unload 1 doubtful).1)

resumed_published : resumed.published ≡ doubtful.published
unfolding end_resume begin_resume prepare_unload invalidate_compact
resumed_published = refl

in_doubt-refuses_example :
    (is_refused (submit_channel (of_ℕ 2) (of_ℕ 70) resumed) ≡ true)
    × (is_refused (submit_mode (codes "manual") resumed) ≡ true)
    × (is_refused (submit_off resumed) ≡ true)
    × (is_refused (submit_on true resumed) ≡ true)
    × (is_refused (submit_compact none (some (of_ℕ 50)) resumed) ≡ true)
in_doubt-refuses_example =
    in_doubt-refuses home home_assistant_error ready resumed (of_ℕ 2) (of_ℕ 70) (codes "manual")
      true none (some (of_ℕ 50)) home-IsDocumented resumed_published
