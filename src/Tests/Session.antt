-- ===== src/Tests/Session.antt =====
-- client.py: whole commands on a scripted network.
use hahapent.Base.{ap, ◌≡◌, ◌≢◌, ◌⊎◌, refl, none, List, [], ◌∷◌, ◌++◌, All, err, arith}
use hahapent.Base.Value.{of_ℕ}
use hahapent.Protocol.Frame.{Bytes, validate_percentage}
use hahapent.Client.Io.{Failure, communication, Client, invalidate}
use hahapent.Client.Guards.{prepare_write}
use hahapent.Client.Operations.{set_channel}
use hahapent.Client.Commands.{Command, refresh_call, set_channel_call, turn_off_call, perform}
use hahapent.Client.Commands.Frames.{IsFrameOf, perform-frames}
use hahapent.Client.Commands.Failure.{IsEnded, perform-failure, perform_all, failure-voids_requests}
use hahapent.Tests.Samples.{channel_script, client}
use hahapent.Client.Transport.{
  query, read_state, connect, disconnect, send, decode, quarantine, await_reply, connected_now,
  swallow, is_revoked, drained_ok, after_feed, boundary, admit, absorb, quarantine_loop, find_reply,
  check_reply, select, consider, read_reply,
}
use hahapent.Client.Io.{◌>>=◌, react, next_event, await}
use hahapent.Client.Execute.{
  handle, execute, conclude, close_transaction, last_disconnect, keep_result, close_connection,
}
use hahapent.Client.State.{system_eq}
use hahapent.Client.Guards.{same_profile, readback}
use hahapent.Client.Operations.{write_levels, switch_mode, channel_operation, off_operation}
use hahapent.Protocol.Reply.{
  parse_system, parse_channels, validate_primary, bytes_eq, one_of, write_supported,
  power_supported,
}
use hahapent.Protocol.Frame.{
  permute_channels, channel_write_frame, frame_payload, mode_frame, mode_payload, percentage,
}
use hahapent.Protocol.Decoder.{
  feed, drain, finish, round, primary_round, extended_round, extended_body,
}

abbrev raise_level : Command
raise_level = set_channel_call (of_ℕ 2) (of_ℕ 70) none

-- No connection: every await ends by its timeout.
raise_level_fails : (perform raise_level 4 (client [])).0 ≡ err communication
unfolding perform invalidate handle set_channel prepare_write validate_percentage query read_state
    connect disconnect send decode quarantine await_reply connected_now swallow is_revoked
    drained_ok after_feed boundary admit absorb quarantine_loop find_reply check_reply select
    consider read_reply ◌>>=◌ react next_event await execute conclude close_transaction
    last_disconnect keep_result close_connection system_eq same_profile readback write_levels
    switch_mode channel_operation off_operation parse_system parse_channels validate_primary
    bytes_eq one_of write_supported power_supported permute_channels channel_write_frame
    frame_payload mode_frame mode_payload percentage feed drain finish round primary_round
    extended_round extended_body
raise_level_fails = refl

raise_level_counts : (perform raise_level 4 (client [])).1.epoch ≡ 5
unfolding perform invalidate handle set_channel prepare_write validate_percentage query read_state
    connect disconnect send decode quarantine await_reply connected_now swallow is_revoked
    drained_ok after_feed boundary admit absorb quarantine_loop find_reply check_reply select
    consider read_reply ◌>>=◌ react next_event await execute conclude close_transaction
    last_disconnect keep_result close_connection system_eq same_profile readback write_levels
    switch_mode channel_operation off_operation parse_system parse_channels validate_primary
    bytes_eq one_of write_supported power_supported permute_channels channel_write_frame
    frame_payload mode_frame mode_payload percentage feed drain finish round primary_round
    extended_round extended_body
raise_level_counts = refl

raise_level_changes : (perform raise_level 4 (client [])).1 ≢ client []
raise_level_changes h = omega (arith, raise_level_counts, ap (λ (c : Client). c.epoch) h)

perform-frames_example :
    (frames : List Bytes) × ((perform raise_level 4 (client channel_script)).1.sent ≡ [] ++ frames)
    × All (IsFrameOf raise_level) frames
perform-frames_example = perform-frames raise_level 4 (client channel_script)

perform-failure_example :
    ((perform raise_level 4 (client [])).1 ≡ client [])
    ⊎ IsEnded 4 communication (perform raise_level 4 (client [])).1
perform-failure_example =
    perform-failure raise_level 4 (client []) communication raise_level_fails refl

abbrev after_refresh : Client
after_refresh = perform_all ((refresh_call, 5) ∷ []) (perform raise_level 4 (client [])).1

failure-voids_requests_example :
    (f : Failure) × (perform (turn_off_call none) 4 after_refresh ≡ (err f, after_refresh))
failure-voids_requests_example =
    failure-voids_requests raise_level 4 (client []) communication raise_level_fails refl
      raise_level_changes ((refresh_call, 5) ∷ []) (turn_off_call none) 4 refl (omega arith)
