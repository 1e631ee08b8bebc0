-- ===== src/Client/Io.antt =====
-- client.py as actions on the client's state. What happens at each `await` is the next event of a
-- list, which the network and the other tasks choose.
use hahapent.Base.{ℕ, ◌+◌, Bool, true, false, Option, none, some, List, [], ◌∷◌, Outcome, ok, err}
use hahapent.Protocol.Frame.{Bytes, ProtocolError}
use hahapent.Protocol.Decoder.{Decoder}
use hahapent.Compact.Roles.{CompactError}
use hahapent.Client.State.{DeviceState}

-- Who revokes a running operation: the caller's cancellation, the deadline of the whole operation, or
-- `close`.
pub data Interruption : Type 0 where
  by_cancel by_deadline by_close : Interruption

-- What ends an await: completion (with data, for a read), its timeout, an OSError, or a revocation.
-- A revocation can lose the race with completion, and the data is then returned all the same.
pub data Event : Type 0 where
  done : Bytes → Event
  timed_out os_error : Event
  revoked : Interruption → Option Bytes → Event

-- The exceptions of client.py; `value_error` is a ValueError of compact.py that no handler catches.
-- `stopped` is the CancelledError inside the operation, `cancelled` the
-- one that the caller sees.
pub data Failure : Type 0 where
  communication connection_missing closed_client conflict unsupported refresh_required : Failure
  compact_input : DeviceState → Failure
  protocol : ProtocolError → Failure
  value_error : CompactError → Failure
  os_failure timeout stopped cancelled : Failure

pub record Client : Type 0 where
  pub closed : Bool
  pub needs_refresh : Bool
  pub epoch : ℕ
  pub operation_epoch : Option ℕ
  pub last_state : Option DeviceState
  pub connected : Bool
  pub decoder : Decoder
  pub received : ℕ
  -- the first revocation of the running operation
  pub outer : Option Interruption
  -- the environment's choices to come, and the frames written so far
  pub events : List Event
  pub sent : List Bytes

abbrev pub Io : Type 0 → Type 0
Io A = Client → Outcome Failure A × Client

abbrev pub pure : {A : Type 0} → A → Io A
pure a c = (ok a, c)

abbrev pub raise : {A : Type 0} → Failure → Io A
raise f c = (err f, c)

abbrev pub continue :
    {A B : Type 0} → Outcome Failure A × Client → (A → Io B) → Outcome Failure B × Client
continue (ok a, c) f = f a c
continue (err e, c) f = (err e, c)

infixl 5 ◌>>=◌ ◌>>◌
unfoldable pub ◌>>=◌ : {A B : Type 0} → Io A → (A → Io B) → Io B
◌>>=◌ m f c = continue (m c) f

abbrev pub ◌>>◌ : {B : Type 0} → Io (Unit {0}) → Io B → Io B
m >> k = m >>= λ _. k

abbrev pub lift_protocol : {A : Type 0} → Outcome ProtocolError A → Io A
lift_protocol (ok a) c = (ok a, c)
lift_protocol (err e) c = (err (protocol e), c)

abbrev pub lift_compact : {A : Type 0} → Outcome CompactError A → Io A
lift_compact (ok a) c = (ok a, c)
lift_compact (err e) c = (err (value_error e), c)

-- `if not test: raise f`
abbrev pub require : Bool → Failure → Io (Unit {0})
require true f c = (ok tt, c)
require false f c = (err f, c)

abbrev pub gets : {A : Type 0} → (Client → A) → Io A
gets f c = (ok (f c), c)

-- `_invalidate`
unfoldable pub invalidate : Client → Client
invalidate c = record c { last_state = none; needs_refresh = true; epoch = c.epoch + 1 }

-- A cancellation that comes while a timed-out operation is being settled takes its place.
abbrev cause : Option Interruption → Interruption → Option Interruption
cause none how = some how
cause (some by_deadline) how = some how
cause (some by_cancel) _ = some by_cancel
cause (some by_close) _ = some by_close

-- The start of `close`, up to the cancellation of the running task, and its `_disconnect`.
unfoldable pub close_now : Client → Client
unfolding invalidate
close_now c = record (invalidate c) { closed = true; connected = false }

-- The effect of a revocation: `_invalidate` in `_execute`, after what `close` does itself.
unfoldable pub interrupt : Interruption → Client → Client
unfolding invalidate close_now
interrupt by_close c = record (invalidate (close_now c)) { outer = cause c.outer by_close }
interrupt by_cancel c = record (invalidate c) { outer = cause c.outer by_cancel }
interrupt by_deadline c = record (invalidate c) { outer = cause c.outer by_deadline }

unfoldable pub react : Event → Io Bytes
unfolding interrupt
react (done incoming) c = (ok incoming, c)
react timed_out c = (err timeout, c)
react os_error c = (err os_failure, c)
react (revoked how (some incoming)) c = (ok incoming, interrupt how c)
react (revoked how none) c = (err stopped, interrupt how c)

-- With no event left the await ends by its timeout.
unfoldable pub next_event : List Event → Io Bytes
next_event [] c = (err timeout, c)
next_event (e ∷ es) c = react e (record c { events = es })

unfoldable pub await : Io Bytes
unfolding next_event react
await c = next_event c.events c
