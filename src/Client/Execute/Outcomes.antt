-- ===== src/Client/Execute/Outcomes.antt =====
-- What the transaction around an operation adds to what the operation does.
use mathlib.Core.List.{append-nil}
use hahapent.Base.{
  ℕ, ◌≡◌, refl, sym, ◌∙◌, Bool, true, false, not, ◌&&◌, ◌||◌, Option, none, some, List, [], ◌++◌,
  All, if◌then◌else◌, ◌==◌, Outcome, ok, err, arith,
}
use hahapent.Protocol.Frame.{Bytes}
use hahapent.Client.State.{DeviceState}
use hahapent.Client.Io.{
  Interruption, by_cancel, by_deadline, by_close, Event, Failure, closed_client, refresh_required,
  Client, Io, ◌>>◌, invalidate, interrupt, close_now,
}
use hahapent.Client.Trace.{Trace, Runs, Runs->>=}
use hahapent.Client.Transport.{connect}
use hahapent.Client.Transport.Sends.{Runs-connect}
use hahapent.Client.Execute.{
  handle, conclude, close_connection, last_disconnect, keep_result, close_transaction, started,
  execute,
}

handle-sent : (e : Failure) (c : Client) → (handle e c).1.sent ≡ c.sent
unfolding handle invalidate
handle-sent e c = ground arith

conclude-sent : (r : Outcome Failure DeviceState) (c : Client) → (conclude (r, c)).1.sent ≡ c.sent
unfolding conclude
conclude-sent r c = go c.outer refl r
  where
    go :
        (o : Option Interruption)
        → c.outer ≡ o
        → (r : Outcome Failure DeviceState) → (conclude (r, c)).1.sent ≡ c.sent
    go (some by_deadline) h r = rw (h, conclude) refl
    go (some by_cancel) h r = rw (h, conclude) refl
    go (some by_close) h r = rw (h, conclude) refl
    go none h (ok s) = rw (h, conclude) refl
    go none h (err e) = rw (h, conclude) (handle-sent e c)

close_connection-sent : (es : List Event) (c : Client) → (close_connection es c).1.sent ≡ c.sent
unfolding close_connection interrupt close_now invalidate
close_connection-sent es c = ground arith

keep_result-sent :
    (r : Outcome Failure DeviceState) (b : Bool) (c : Client)
    → (keep_result r (b, c)).1.sent ≡ c.sent
unfolding keep_result
keep_result-sent r b c = ground arith

last_disconnect-sent : (c : Client) → (last_disconnect c).1.sent ≡ c.sent
unfolding last_disconnect
last_disconnect-sent c = go c.connected
  where
    go :
        (b : Bool)
        → (if b
            then close_connection c.events (record c { connected = false })
            else (true, c)).1.sent
          ≡ c.sent
    go true = close_connection-sent c.events (record c { connected = false })
    go false = refl

close_transaction-sent :
    (r : Outcome Failure DeviceState) (c : Client) → (close_transaction (r, c)).1.sent ≡ c.sent
unfolding close_transaction
close_transaction-sent r c =
    keep_result-sent r (last_disconnect c).0 (last_disconnect c).1 ∙ last_disconnect-sent c

-- A transaction sends the frames of its operation, or none.
pub execute-frames :
    (A : Bytes → Type 0) (operation : Io DeviceState)
    → Runs A operation
    → (call_epoch : ℕ) (write : Bool) (c : Client)
    → (frames : List Bytes) × ((execute call_epoch write operation c).1.sent ≡ c.sent ++ frames)
      × All A frames
unfolding execute
execute-frames A operation h call_epoch write c =
    go c.closed (write && (c.needs_refresh || not (call_epoch == c.epoch)))
  where
    run : Outcome Failure DeviceState × Client
    run = (connect >> operation) (started c)

    whole : Trace A (started c) run.1
    whole = Runs->>= A connect (λ _. operation) (Runs-connect A) (λ _. h) (started c)

    go :
        (closed stale : Bool)
        → (frames : List Bytes) × ((if closed
              then (err closed_client, c)
              else if stale
              then (err refresh_required, c)
              else close_transaction (conclude run)).1.sent
            ≡ c.sent ++ frames)
          × All A frames
    go true stale = ([], sym (append-nil c.sent), tt)
    go false true = ([], sym (append-nil c.sent), tt)
    go false false = (
      whole.frames,
      close_transaction-sent (conclude run).0 (conclude run).1
          ∙ (conclude-sent run.0 run.1 ∙ whole.is_sent),
      whole.allowed,
    )

pub execute-refused :
    (call_epoch : ℕ) (write : Bool) (operation : Io DeviceState) (c : Client)
    → (c.closed || (write && (c.needs_refresh || not (call_epoch == c.epoch)))) ≡ true
    → (e : Failure) × (execute call_epoch write operation c ≡ (err e, c))
unfolding execute
execute-refused call_epoch write operation c = go c.closed _
  where
    go :
        (closed stale : Bool)
        → (closed || stale) ≡ true
        → (e : Failure) × ((if closed
              then (err closed_client, c)
              else if stale
              then (err refresh_required, c)
              else close_transaction (conclude ((connect >> operation) (started c))))
            ≡ (err e, c))
    go true stale h = (closed_client, refl)
    go false true h = (refresh_required, refl)
    go false false h = cc

pub execute-started :
    (call_epoch : ℕ) (write : Bool) (operation : Io DeviceState) (c : Client)
    → c.closed ≡ false
    → (write && (c.needs_refresh || not (call_epoch == c.epoch))) ≡ false
    → execute call_epoch write operation c
      ≡ close_transaction (conclude ((connect >> operation) (started c)))
unfolding execute
execute-started call_epoch write operation c hc hw = simp (hc, hw)
