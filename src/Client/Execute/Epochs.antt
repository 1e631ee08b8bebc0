-- ===== src/Client/Execute/Epochs.antt =====
-- No part of a transaction lowers the epoch.
use hahapent.Base.{ℕ, ◌≤◌, Bool, true, false, List, if◌then◌else◌, Outcome, err, arith}
use hahapent.Protocol.Frame.{Bytes}
use hahapent.Client.State.{DeviceState}
use hahapent.Client.Io.{
  Event, Failure, closed_client, refresh_required, Client, Io, ◌>>◌, invalidate, interrupt,
  close_now,
}
use hahapent.Client.Trace.{Trace, Runs, Runs->>=}
use hahapent.Client.Transport.{connect}
use hahapent.Client.Transport.Sends.{Runs-connect}
use hahapent.Client.Execute.{
  handle, conclude, close_connection, last_disconnect, keep_result, close_transaction, started,
  execute,
}

handle-epoch : (e : Failure) (c : Client) → c.epoch ≤ (handle e c).1.epoch
unfolding handle invalidate
handle-epoch e c = ground arith

pub conclude-epoch :
    (r : Outcome Failure DeviceState) (c : Client) → c.epoch ≤ (conclude (r, c)).1.epoch
unfolding conclude
conclude-epoch r c = ground (arith, λ (e : Failure). handle-epoch e c)

connection-epoch : (es : List Event) (c : Client) → c.epoch ≤ (close_connection es c).1.epoch
unfolding close_connection interrupt close_now invalidate
connection-epoch es c = ground arith

closing-epoch :
    (r : Outcome Failure DeviceState) (c : Client) → c.epoch ≤ (close_transaction (r, c)).1.epoch
unfolding close_transaction last_disconnect keep_result
closing-epoch r c = ground (arith, connection-epoch c.events (record c { connected = false }))

-- No transaction lowers the epoch.
pub execute-epoch :
    (A : Bytes → Type 0) (operation : Io DeviceState)
    → Runs A operation
    → (call_epoch : ℕ) (write : Bool) (c : Client)
    → c.epoch ≤ (execute call_epoch write operation c).1.epoch
unfolding execute
execute-epoch A operation h call_epoch write c = go c.closed _
  where
    run : Outcome Failure DeviceState × Client
    run = (connect >> operation) (started c)

    whole : Trace A (started c) run.1
    whole = Runs->>= A connect (λ _. operation) (Runs-connect A) (λ _. h) (started c)

    go :
        (closed stale : Bool)
        → c.epoch
          ≤ (if closed
              then (err closed_client, c)
              else if stale
              then (err refresh_required, c)
              else close_transaction (conclude run)).1.epoch
    go true stale = omega arith
    go false true = omega arith
    go false false = omega (
      arith,
      whole.later,
      conclude-epoch run.0 run.1,
      closing-epoch (conclude run).0 (conclude run).1,
    )
