-- ===== src/Coordinator/Durable.antt =====
-- coordinator.py: Off is sent only after the state to return to is saved.
use hahapent.Base.{◌≡◌, Bool, false, some, ℕ, ok, arith}
use hahapent.Client.State.{DeviceState}
use hahapent.PowerMemory.Memory.{Attempt, prepare_off}
use hahapent.PowerMemory.Memory.Saved.{IsShown, off_record, prepare_off-IsShown}
use hahapent.Coordinator.{
  Library, Coordinator, ◌>>=◌, require_power_request, require_power_supported,
  require_current_state,
}
use hahapent.Coordinator.Calls.{Call, call_off, in_doubt, check_deadline, leave_window}
use hahapent.Coordinator.Ends.{leaving, prepare_before_off, off_prepared}

off_prepared-sent :
    (ha : Library) (task : ℕ) (late : Bool) (epoch : ℕ) (attempt : Attempt) (before : DeviceState)
    (c : Coordinator) (call : Call)
    → (off_prepared ha task late epoch attempt before c).0 ≡ ok (some call)
    → (call ≡ call_off before)
      × (prepare_off before attempt c.power_memory
          ≡ (ok tt, (off_prepared ha task late epoch attempt before c).1.power_memory))
      × (late ≡ false)
      × (c.command_epoch ≡ epoch)
unfolding off_prepared leaving prepare_before_off check_deadline in_doubt leave_window
    require_power_request require_power_supported require_current_state ◌>>=◌
off_prepared-sent ha task late epoch attempt before c call h = ground arith

-- When `async_turn_off` goes on to call the client, the call is the Off from the state just read; the
-- record whose unconfirmed origin is this state was read back from the store after the write, equal to
-- what was written, and is the one in memory; the deadline has not passed, and no failure has come since
-- the request.
pub off_prepared-durable :
    (ha : Library) (task : ℕ) (late : Bool) (epoch : ℕ) (attempt : Attempt) (before : DeviceState)
    (c : Coordinator) (call : Call)
    → (off_prepared ha task late epoch attempt before c).0 ≡ ok (some call)
    → (call ≡ call_off before)
      × (prepare_off before attempt c.power_memory
          ≡ (ok tt, (off_prepared ha task late epoch attempt before c).1.power_memory))
      × IsShown
          (off_record before attempt c.power_memory)
          attempt
          (off_prepared ha task late epoch attempt before c).1.power_memory
      × (late ≡ false)
      × (c.command_epoch ≡ epoch)
off_prepared-durable ha task late epoch attempt before c call h =
    let (hc, hp, hl, he) = off_prepared-sent ha task late epoch attempt before c call h in
    (hc, hp, prepare_off-IsShown before attempt c.power_memory _ hp, hl, he)
