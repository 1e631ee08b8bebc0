-- ===== src/Coordinator/Steps/Moves.antt =====
-- A preorder on coordinators that the elementary changes respect is respected by every step.
use hahapent.Base.{
  ℕ, ◌+◌, ◌==◌, Bool, true, false, not, ◌&&◌, ◌||◌, Option, none, some, if◌then◌else◌, Outcome, ok,
  err,
}
use hahapent.Base.Value.{Value}
use hahapent.Protocol.Frame.{is_control_mode, mode_shutdown}
use hahapent.Protocol.Reply.{write_supported, power_supported}
use hahapent.Compact.Roles.{Rgb}
use hahapent.Client.State.{DeviceState}
use hahapent.PowerMemory.Memory.{Memory}
use hahapent.Coordinator.{
  Published, Coordinator, C, pure, continue, ◌>>=◌, ◌>>◌, require, gets, demand, Refusal,
  home_assistant_error, service_validation_error, invalidate_compact, read_failed, read_succeeded,
  require_current_state, require_write_supported, require_current_request, require_power_supported,
  require_power_request, require_compact_request, in_shutdown, supersede_channels,
}
use hahapent.Coordinator.Requests.{supersede_channel}

abbrev pub Moves : {A : Type 0} → (Coordinator → Coordinator → Type 0) → C A → Type 0
Moves R m = (c : Coordinator) → R c (m c).1

-- The elementary changes.
pub record Elementary (R : Coordinator → Coordinator → Type 0) : Type 0 where
  pub same : (c : Coordinator) → R c c
  pub next : (c d f : Coordinator) → R c d → R d f → R c f
  pub invalidates : (c : Coordinator) → R c (invalidate_compact c)
  pub fails : (c : Coordinator) → R c (read_failed c)
  pub succeeds : (c : Coordinator) → R c (read_succeeded c)
  pub advances : (c : Coordinator) → R c (record c { command_epoch = c.command_epoch + 1 })
  pub publishes : (p : Published) (c : Coordinator) → R c (record c { published = p })
  pub remembers : (m : Memory) (c : Coordinator) → R c (record c { power_memory = m })
  pub intends :
      (intent : Option (Option Rgb × Option ℕ)) (c : Coordinator)
      → R c (record c { pending_compact = intent })
  pub gestures :
      (c : Coordinator) → R c (record c { compact_generation = c.compact_generation + 1 })
  pub supersedes_all : (c : Coordinator) → R c (supersede_channels c)
  pub supersedes : (index : ℕ) (c : Coordinator) → R c (supersede_channel index c)
  pub activates : (task : Option ℕ) (c : Coordinator) → R c (record c { active_command = task })
  pub reads : (task : Option ℕ) (c : Coordinator) → R c (record c { active_read = task })
  pub sets_options : (options : Value) (c : Coordinator) → R c (record c { options = options })
  pub quiesces :
      (quiescing resuming : Bool) (c : Coordinator)
      → R c (record c { quiescing = quiescing; resuming = resuming })
  pub stops : (c : Coordinator) → R c (record c { stopped = true })

module _ (R : Coordinator → Coordinator → Type 0) (el : Elementary R) where
  pub Moves->>= :
      {A B : Type 0} (m : C A) (f : A → C B)
      → Moves R m
      → ((a : A) → Moves R (f a))
      → Moves R (m >>= f)
  unfolding ◌>>=◌
  Moves->>= {A} {B} m f hm hf c = go (m c) (hm c)
    where
      go : (r : Outcome Refusal A × Coordinator) → R c r.1 → R c (continue r f).1
      go (ok a, d) h = el.next c d (f a d).1 h (hf a d)
      go (err e, d) h = h

  pub Moves-require : (b : Bool) (e : Refusal) → Moves R (require b e)
  Moves-require true e c = el.same c
  Moves-require false e c = el.same c

  pub Moves-demand : {A : Type 0} (e : Refusal) (a : Option A) → Moves R (demand e a)
  Moves-demand e none c = el.same c
  Moves-demand e (some a) c = el.same c

  pub Moves-choice :
      {A : Type 0} (b : Bool) (m n : C A) → Moves R m → Moves R n → Moves R (if b then m else n)
  Moves-choice true m n hm hn = hm
  Moves-choice false m n hm hn = hn

  pub Moves-current_state : Moves R require_current_state
  unfolding require_current_state
  Moves-current_state =
      Moves->>= (gets (λ c. not c.stopped && (not c.quiescing && c.published.last_update_success)))
        _ el.same
        λ live.
          Moves->>= (require live home_assistant_error) _ (Moves-require live home_assistant_error)
            λ _.
              Moves->>= (gets (λ c. c.published.data_)) _ el.same
                λ current. Moves-demand home_assistant_error current

  pub Moves-write_supported : Moves R require_write_supported
  unfolding require_write_supported
  Moves-write_supported = Moves->>= require_current_state _ Moves-current_state λ s.
      Moves->>= (require (write_supported s.system) service_validation_error) _
        (Moves-require (write_supported s.system) service_validation_error)
        λ _.
          Moves->>= (require (is_control_mode s.system.mode_raw) service_validation_error)
            (λ _. pure s)
            (Moves-require (is_control_mode s.system.mode_raw) service_validation_error)
            (λ _. el.same)

  Moves-epoch :
      (epoch : ℕ) (s : DeviceState)
      → Moves R (
          gets (λ c. c.command_epoch == epoch) >>= λ current.
          require current home_assistant_error >> pure s)
  Moves-epoch epoch s = Moves->>= (gets (λ c. c.command_epoch == epoch)) _ el.same λ current.
      Moves->>= (require current home_assistant_error) (λ _. pure s)
        (Moves-require current home_assistant_error) (λ _. el.same)

  pub Moves-current_request : (epoch : ℕ) → Moves R (require_current_request epoch)
  unfolding require_current_request
  Moves-current_request epoch =
      Moves->>= require_write_supported _ Moves-write_supported (Moves-epoch epoch)

  pub Moves-power_supported : Moves R require_power_supported
  unfolding require_power_supported
  Moves-power_supported = Moves->>= require_current_state _ Moves-current_state λ s.
      Moves->>= (require (power_supported s.system) service_validation_error) _
        (Moves-require (power_supported s.system) service_validation_error)
        λ _.
          Moves->>=
            (require (is_control_mode s.system.mode_raw || s.system.mode_raw == mode_shutdown)
              service_validation_error)
            (λ _. pure s)
            (Moves-require (is_control_mode s.system.mode_raw || s.system.mode_raw == mode_shutdown)
              service_validation_error)
            (λ _. el.same)

  pub Moves-power_request : (epoch : ℕ) → Moves R (require_power_request epoch)
  unfolding require_power_request
  Moves-power_request epoch =
      Moves->>= require_power_supported _ Moves-power_supported (Moves-epoch epoch)

  pub Moves-compact_request : (epoch : ℕ) → Moves R (require_compact_request epoch)
  unfolding require_compact_request
  Moves-compact_request epoch c =
      Moves-choice (in_shutdown c.published.data_) (require_power_request epoch)
        (require_current_request epoch) (Moves-power_request epoch) (Moves-current_request epoch) c
