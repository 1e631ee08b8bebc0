-- ===== src/Client/Transport.antt =====
-- client.py: connecting, sending, and reading replies without mistaking other bytes for them.
pub mod Sends
use hahapent.Base.{
  ℕ, ◌+◌, Bool, true, false, not, ◌&&◌, ◌||◌, Option, none, some, List, [], ◌∷◌, ◌++◌, length,
  get_or, ltb, ◌==◌, if◌then◌else◌, any_of, all_of, Outcome, ok, err,
}
use hahapent.Protocol.Frame.{
  Bytes, ProtocolError, receive_limit, unsolicited_status, unfinished_frame, ambiguous_echo,
  extra_status, system_query, channel_query,
}
use hahapent.Protocol.Reply.{bytes_eq, one_of, parse_system, parse_channels}
use hahapent.Protocol.Decoder.{Kind, primary, extended, ack_candidate, Message, Decoder, feed}
use hahapent.Client.State.{DeviceState}
use hahapent.Client.Io.{
  Event, Failure, connection_missing, refresh_required, protocol, os_failure, timeout, Client, Io,
  pure, ◌>>=◌, ◌>>◌, lift_protocol, react, await,
}

abbrev pub fresh_decoder : Decoder
fresh_decoder = record { max_buffer = 4096; discarded_bytes = 0; buffer = [] }

-- `_connect`
unfoldable pub connected_now : Io (Unit {0})
connected_now c = (ok tt, record c { connected = true; decoder = fresh_decoder })

unfoldable pub connect : Io (Unit {0})
unfolding connected_now
connect = await >>= λ _. connected_now

-- `_disconnect`: a failure to close is passed over, a revocation is not.
unfoldable pub swallow : Outcome Failure Bytes × Client → Outcome Failure (Unit {0}) × Client
swallow (ok _, c) = (ok tt, c)
swallow (err os_failure, c) = (ok tt, c)
swallow (err timeout, c) = (ok tt, c)
swallow (err f, c) = (err f, c)

unfoldable pub disconnect : Io (Unit {0})
unfolding swallow
disconnect c = if c.connected then swallow (await (record c { connected = false })) else (ok tt, c)

-- `_operation_epoch is not None and _operation_epoch != _epoch`
unfoldable pub is_revoked : Client → Bool
is_revoked c = elim c.operation_epoch [ none ↦ false | some e ↦ not (e == c.epoch) ]

unfoldable pub drained_ok : Outcome Failure Bytes × Client → Outcome Failure (Unit {0}) × Client
drained_ok (ok _, c) = (ok tt, c)
drained_ok (err f, c) = (err f, c)

-- `_send`
unfoldable pub send : Bytes → Io (Unit {0})
unfolding is_revoked drained_ok
send frame c =
    if is_revoked c
    then (err refresh_required, c)
    else if not c.connected || c.closed
    then (err connection_missing, c)
    else drained_ok (await (record c { sent = c.sent ++ frame ∷ [] }))

abbrev pub max_received_bytes : ℕ
max_received_bytes = 8192

unfoldable pub after_feed :
    Client
    → Outcome ProtocolError (List Message) × Decoder
    → Outcome Failure (List Message) × Client
after_feed c (ok ms, d) = (ok ms, record c { decoder = d })
after_feed c (err e, d) = (err (protocol e), record c { decoder = d })

-- `_decode`
unfoldable pub decode : Bytes → Io (List Message)
unfolding after_feed
decode [] c = (err connection_missing, c)
decode (b ∷ bs) c =
    let got = c.received + length (b ∷ bs) in
    if ltb max_received_bytes got
    then (err (protocol receive_limit), record c { received = got })
    else after_feed (record c { received = got }) (feed c.decoder (b ∷ bs))

abbrev pub is_primary : Message → Bool
is_primary m = elim m.kind [ primary ↦ true | _ ↦ false ]

-- The end of `_quarantine`: no half frame may be left.
unfoldable pub boundary : Io (Unit {0})
boundary c =
    if length c.decoder.buffer == 0 then (ok tt, c) else (err (protocol unfinished_frame), c)

abbrev expected : List Bytes → Message → Bool
expected echoes m = not (is_primary m) || one_of m.raw echoes

unfoldable pub admit : List Bytes → Io (Unit {0}) → List Message → Io (Unit {0})
admit echoes again ms c =
    if all_of (expected echoes) ms then again c else (err (protocol unsolicited_status), c)

unfoldable pub absorb :
    List Bytes
    → Io (Unit {0})
    → Outcome Failure Bytes × Client
    → Outcome Failure (Unit {0}) × Client
unfolding boundary admit
absorb echoes again (ok incoming, c) = (decode incoming >>= admit echoes again) c
absorb echoes again (err timeout, c) = boundary c
absorb echoes again (err f, c) = (err f, c)

-- The loop of `_quarantine`; the list is the events to come, and the end of the interval is a timeout.
unfoldable pub quarantine_loop : List Bytes → List Event → Io (Unit {0})
unfolding absorb
quarantine_loop echoes [] c = boundary c
quarantine_loop echoes (e ∷ es) c =
    let rest = quarantine_loop echoes es in
    if c.connected
    then absorb echoes rest (react e (record c { events = es }))
    else (err connection_missing, c)

unfoldable pub quarantine : List Bytes → Io (Unit {0})
unfolding quarantine_loop
quarantine echoes c = quarantine_loop echoes c.events c

-- The first message that answers the query: its command, and an operation that is allowed.
abbrev answers : Bytes → Message → Bool
answers query m =
    is_primary m
    && (get_or m.raw 1 0 == get_or query 1 0
        && (get_or m.raw 2 0 == 0xfc || (bytes_eq query channel_query && get_or m.raw 2 0 == 0xfa)))

unfoldable pub find_reply : Bytes → List Message → Option Bytes
find_reply query [] = none
find_reply query (m ∷ ms) = if answers query m then some m.raw else find_reply query ms

abbrev kept : List Bytes → List Message → List Message
kept ignored [] = []
kept ignored (m ∷ ms) =
    if is_primary m && one_of m.raw ignored then kept ignored ms else m ∷ kept ignored ms

abbrev primaries : List Message → ℕ
primaries [] = 0
primaries (m ∷ ms) = (if is_primary m then 1 else 0) + primaries ms

unfoldable pub check_reply : Bytes → List Message → Bytes → Io Bytes
check_reply query ms raw c =
    if bytes_eq raw query
    then (err (protocol ambiguous_echo), c)
    else if not (length c.decoder.buffer == 0) || not (primaries ms == 1)
    then (err (protocol extra_status), c)
    else (ok raw, c)

unfoldable pub select : Bytes → List Bytes → Io Bytes → List Message → Io Bytes
unfolding check_reply find_reply
select query ignored again ms c =
    let seen = kept ignored ms in
    elim (find_reply query seen) [ none ↦ again c | some raw ↦ check_reply query seen raw c ]

unfoldable pub consider :
    Bytes → List Bytes → Io Bytes → Outcome Failure Bytes × Client → Outcome Failure Bytes × Client
unfolding select
consider query ignored again (ok incoming, c) = (decode incoming >>= select query ignored again) c
consider query ignored again (err f, c) = (err f, c)

-- `_read_reply`, over the events to come; the timeout of `_query` ends it.
unfoldable pub read_reply : Bytes → List Bytes → List Event → Io Bytes
unfolding consider
read_reply query ignored [] c = (err timeout, c)
read_reply query ignored (e ∷ es) c =
    let rest = read_reply query ignored es in
    if c.connected
    then consider query ignored rest (react e (record c { events = es }))
    else (err connection_missing, c)

unfoldable pub await_reply : Bytes → List Bytes → Io Bytes
unfolding read_reply
await_reply query ignored c = read_reply query ignored c.events c

-- `_query`
unfoldable pub query : Bytes → List Bytes → Io Bytes
query frame ignored = do send frame; await_reply frame ignored

-- `_read_state`
unfoldable pub read_state : Io DeviceState
read_state = do
  raw_system ← query system_query []
  system ← lift_protocol (parse_system raw_system)
  quarantine []
  raw_channels ← query channel_query []
  channels ← lift_protocol (parse_channels raw_channels system.swap_cd)
  pure (record { system = system; channels = channels })
