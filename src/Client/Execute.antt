-- ===== src/Client/Execute.antt =====
-- client.py: `_execute`, the transaction around every operation, and `close`.
pub mod Outcomes
pub mod Epochs
pub mod Lost
pub mod Refused
use hahapent.Base.{
  ℕ, ◌+◌, Bool, true, false, not, ◌&&◌, ◌||◌, Option, none, some, List, [], ◌∷◌, ◌==◌,
  if◌then◌else◌, Outcome, ok, err,
}
use hahapent.Client.State.{DeviceState}
use hahapent.Client.Io.{
  Interruption, by_cancel, by_deadline, by_close, Event, done, timed_out, os_error, revoked,
  Failure, communication, closed_client, refresh_required, compact_input, value_error, os_failure,
  timeout, stopped, cancelled, Client, Io, ◌>>=◌, ◌>>◌, invalidate, interrupt, close_now,
}
use hahapent.Client.Transport.{connect}

-- The handlers of the operation's own exceptions.
unfoldable pub handle : Failure → Client → Outcome Failure DeviceState × Client
unfolding invalidate
handle (compact_input state) c = (
  err (compact_input state),
  record c { epoch = c.epoch + 1; last_state = some state; needs_refresh = false },
)
handle (value_error e) c = (err (value_error e), c)
handle stopped c = (err cancelled, invalidate c)
handle os_failure c = (err communication, invalidate c)
handle timeout c = (err communication, invalidate c)
handle e c = (err e, invalidate c)

-- What the waiting caller sees: its cancellation, the deadline, or the operation's own outcome.
unfoldable pub conclude :
    Outcome Failure DeviceState × Client → Outcome Failure DeviceState × Client
unfolding handle
conclude (r, c) = elim c.outer [
  | some by_deadline ↦ (err communication, c)
  | some by_cancel ↦ (err cancelled, c)
  | some by_close ↦ (err cancelled, c)
  | none ↦ elim r [ ok state ↦ (ok state, c) | err e ↦ handle e c ]
]

-- How the last `_disconnect` ends: the operation is over, so a revocation that loses the race there
-- has no effect but what `close` does itself.
unfoldable pub close_connection : List Event → Client → Bool × Client
unfolding interrupt close_now
close_connection [] c = (true, c)
close_connection (revoked how none ∷ es) c = (false, interrupt how (record c { events = es }))
close_connection (revoked by_close (some _) ∷ es) c = (true, close_now (record c { events = es }))
close_connection (_ ∷ es) c = (true, record c { events = es })

unfoldable pub last_disconnect : Client → Bool × Client
unfolding close_connection
last_disconnect c =
    if c.connected then close_connection c.events (record c { connected = false }) else (true, c)

unfoldable pub keep_result :
    Outcome Failure DeviceState → Bool × Client → Outcome Failure DeviceState × Client
keep_result r (false, c) = (err cancelled, record c { operation_epoch = none })
keep_result (err e) (true, c) = (err e, record c { operation_epoch = none })
keep_result (ok state) (true, c) =
    (ok state, record c { operation_epoch = none; last_state = some state; needs_refresh = false })

unfoldable pub close_transaction :
    Outcome Failure DeviceState × Client → Outcome Failure DeviceState × Client
unfolding last_disconnect keep_result
close_transaction (r, c) = keep_result r (last_disconnect c)

abbrev pub started : Client → Client
started c = record c { operation_epoch = some c.epoch; received = 0; outer = none }

-- `_execute`, from the moment that the lock is held; the first argument is the epoch at the call.
unfoldable pub execute : ℕ → Bool → Io DeviceState → Io DeviceState
unfolding conclude close_transaction
execute call_epoch write operation c =
    if c.closed
    then (err closed_client, c)
    else if write && (c.needs_refresh || not (call_epoch == c.epoch))
    then (err refresh_required, c)
    else close_transaction (conclude ((connect >> operation) (started c)))
