-- ===== src/Coordinator/Stopped.antt =====
-- coordinator.py: after `async_shutdown` nothing is accepted any more.
use hahapent.Base.{ℕ, ◌≡◌, refl, Bool, true, false, if◌then◌else◌, arith}
use hahapent.Coordinator.{
  Library, Coordinator, ◌>>=◌, require_current_state, require_write_supported,
  require_power_supported, require_current_request, require_power_request, require_compact_request,
  in_shutdown, invalidate_compact,
}
use hahapent.Coordinator.Requests.{
  Request, channel_request, mode_request, compact_request, off_request, on_request, Ticket,
}
use hahapent.Coordinator.Calls.{
  admit_channel, admit_mode, admit_compact, admitted_compact, admit_off, admit_on, admit,
}
use hahapent.Coordinator.Ends.{begin_read, prepare_unload, shutdown}
use hahapent.Coordinator.Steps.{Steps}
use hahapent.Coordinator.Steps.Every.{steps-respect}
use hahapent.Coordinator.Later.{Later, Later-elementary}
use hahapent.Coordinator.Stale.{is_refused, then-refused, deadline-refused, finally-refused}

stopped-current :
    (epoch : ℕ) (c : Coordinator)
    → c.stopped ≡ true
    → is_refused (require_current_request epoch c) ≡ true
unfolding require_current_request require_write_supported require_current_state ◌>>=◌ is_refused
stopped-current epoch c h = ground arith

stopped-power :
    (epoch : ℕ) (c : Coordinator)
    → c.stopped ≡ true
    → is_refused (require_power_request epoch c) ≡ true
unfolding require_power_request require_power_supported require_current_state ◌>>=◌ is_refused
stopped-power epoch c h = ground arith

stopped-compact :
    (epoch : ℕ) (c : Coordinator)
    → c.stopped ≡ true
    → is_refused (require_compact_request epoch c) ≡ true
unfolding require_compact_request
stopped-compact epoch c h = go (in_shutdown c.published.data_)
  where
    go :
        (b : Bool)
        → is_refused ((if b then require_power_request epoch else require_current_request epoch) c)
          ≡ true
    go true = stopped-power epoch c h
    go false = stopped-current epoch c h

stopped-read :
    (ha : Library) (task : ℕ) (c : Coordinator)
    → c.stopped ≡ true
    → is_refused (begin_read ha task c) ≡ true
unfolding begin_read ◌>>=◌ is_refused
stopped-read ha task c h = ground arith

stopped-admit :
    (ha : Library) (task : ℕ) (late : Bool) (epoch : ℕ) (r : Request) (c : Coordinator)
    → c.stopped ≡ true
    → is_refused (admit ha task late (record { epoch = epoch; request = r }) c) ≡ true
unfolding admit admit_channel admit_mode admit_compact admitted_compact admit_off admit_on
stopped-admit ha task late epoch (channel_request index value generation) c h =
    deadline-refused ha late _ c
      (then-refused (require_current_request epoch) _ c (stopped-current epoch c h))
stopped-admit ha task late epoch (mode_request mode) c h =
    deadline-refused ha late _ c
      (then-refused (require_current_request epoch) _ c (stopped-current epoch c h))
stopped-admit ha task late epoch (compact_request rgb level roles generation) c h =
    finally-refused ha generation (admitted_compact ha task late epoch rgb level roles generation c)
      (deadline-refused ha late _ c
        (then-refused (require_compact_request epoch) _ c (stopped-compact epoch c h)))
stopped-admit ha task late epoch off_request c h =
    deadline-refused ha late _ c
      (then-refused (require_power_request epoch) _ c (stopped-power epoch c h))
stopped-admit ha task late epoch (on_request resume_schedule) c h =
    deadline-refused ha late _ c
      (then-refused (require_power_request epoch) _ c (stopped-power epoch c h))

-- After `async_shutdown` every request is refused at its turn and every read before it begins, however
-- the tasks interleave, and also after a resume.
pub shutdown-final :
    (ha : Library) (task turn : ℕ) (late : Bool) (ticket : Ticket) (c d : Coordinator)
    → Steps ha (shutdown task c).1 d
    → (is_refused (admit ha turn late ticket d) ≡ true) × (is_refused (begin_read ha turn d) ≡ true)
unfolding shutdown prepare_unload invalidate_compact
shutdown-final ha task turn late ticket c d steps =
    let stopped = (steps-respect Later Later-elementary ha steps).stays_stopped refl in
    (
      stopped-admit ha turn late ticket.epoch ticket.request d stopped,
      stopped-read ha turn d stopped,
    )
