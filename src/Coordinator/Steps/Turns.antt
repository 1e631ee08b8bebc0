-- ===== src/Coordinator/Steps/Turns.antt =====
-- The commands at their turn, the ends of the calls and the reads respect every preorder that the
-- elementary changes do.
use hahapent.Base.{
  ℕ, ◌==◌, Bool, true, false, not, Option, none, some, List, get_or, if◌then◌else◌, Outcome, ok,
  err,
}
use hahapent.Compact.Roles.{Role, Rgb, compact_roles_from_options}
use hahapent.Client.State.{DeviceState}
use hahapent.PowerMemory.Memory.{manual_restore}
use hahapent.Coordinator.{
  Library, Coordinator, pure, raise, ◌>>◌, gets, change, Refusal, service_validation_error,
  require_current_request, require_power_request, require_compact_request,
}
use hahapent.Coordinator.Requests.{
  Request, channel_request, mode_request, compact_request, off_request, on_request, Ticket,
}
use hahapent.Coordinator.Calls.{
  Call, call_channel, call_mode, call_refresh, check_deadline, activate, forget_intent,
  finally_compact, same_roles, compact_call, admitted_compact, admit_channel, admit_mode,
  admit_compact, admit_off, admit_on, admit,
}
use hahapent.Coordinator.Steps.Moves.{
  Moves, Elementary, Moves->>=, Moves-choice, Moves-current_request, Moves-power_request,
  Moves-compact_request,
}
use hahapent.Coordinator.Steps.Beginnings.{Moves-then, Moves-check_deadline}

module _ (R : Coordinator → Coordinator → Type 0) (el : Elementary R) (ha : Library) where
  activates : {A : Type 0} (task : ℕ) (a : A) → Moves R (change (activate ha task) >> pure a)
  activates task a = Moves-then R el (activate ha task) (pure a) (el.activates (some task)) el.same

  pub Moves-admit_channel :
      (task : ℕ) (late : Bool) (epoch index value generation : ℕ)
      → Moves R (admit_channel ha task late epoch index value generation)
  unfolding admit_channel
  Moves-admit_channel task late epoch index value generation =
      Moves->>= R el (check_deadline ha late) _ (Moves-check_deadline R el ha late) λ _.
        Moves->>= R el (require_current_request epoch) _ (Moves-current_request R el epoch) λ state.
          Moves->>= R el (gets (λ c. get_or c.channel_generations index 0 == generation)) _ el.same
            λ newest.
              Moves-choice R el newest
                (change (activate ha task) >> pure (some (call_channel index value state)))
                (pure none) (activates task (some (call_channel index value state))) el.same

  Moves-admit_mode :
      (task : ℕ) (late : Bool) (epoch mode : ℕ) → Moves R (admit_mode ha task late epoch mode)
  unfolding admit_mode
  Moves-admit_mode task late epoch mode =
      Moves->>= R el (check_deadline ha late) _ (Moves-check_deadline R el ha late) λ _.
        Moves->>= R el (require_current_request epoch) _ (Moves-current_request R el epoch)
          λ state. activates task (some (call_mode mode state))

  forgets : (generation : ℕ) (c : Coordinator) → R c (forget_intent ha generation c)
  forgets generation c = go (c.compact_generation == generation)
    where
      go : (b : Bool) → R c (if b then record c { pending_compact = none } else c)
      go true = el.intends none c
      go false = el.same c

  finishes :
      (generation : ℕ) (c : Coordinator) (r : Outcome Refusal (Option Call) × Coordinator)
      → R c r.1
      → R c (finally_compact ha generation r).1
  unfolding finally_compact
  finishes generation c (ok (some call), d) h = h
  finishes generation c (ok none, d) h = el.next c d _ h (forgets generation d)
  finishes generation c (err e, d) h = el.next c d _ h (forgets generation d)

  Moves-compact_call :
      (task : ℕ) (rgb : Option Rgb) (level : Option ℕ) (roles : List Role) (state : DeviceState)
      → Moves R (compact_call ha task rgb level roles state)
  unfolding compact_call
  Moves-compact_call task rgb level roles state =
      Moves-then R el (λ c. record c { pending_compact = none }) _ (el.intends none)
        (Moves-then R el (activate ha task) _ (el.activates (some task)) (
          Moves->>= R el (gets (λ c. manual_restore state c.power_memory)) _ el.same
            (λ restored. el.same)))

  Moves-admit_compact :
      (task : ℕ) (late : Bool) (epoch : ℕ) (rgb : Option Rgb) (level : Option ℕ) (roles : List Role)
      (generation : ℕ)
      → Moves R (admit_compact ha task late epoch rgb level roles generation)
  unfolding admit_compact admitted_compact
  Moves-admit_compact task late epoch rgb level roles generation c =
      finishes generation c (admitted_compact ha task late epoch rgb level roles generation c) (
        (Moves->>= R el (check_deadline ha late) _ (Moves-check_deadline R el ha late) λ _.
            Moves->>= R el (require_compact_request epoch) _ (Moves-compact_request R el epoch)
              λ state.
                Moves->>= R el (gets (λ c. c.compact_generation == generation)) _ el.same λ newest.
                  Moves->>= R el
                    (gets (λ c. same_roles ha roles (compact_roles_from_options c.options))) _
                    el.same
                    λ unchanged.
                      Moves-choice R el (not newest) (pure none)
                        (if unchanged
                          then compact_call ha task rgb level roles state
                          else raise service_validation_error)
                        el.same
                        (Moves-choice R el unchanged (compact_call ha task rgb level roles state)
                          (raise service_validation_error)
                          (Moves-compact_call task rgb level roles state) el.same))
          c)

  Moves-admit_off : (task : ℕ) (late : Bool) (epoch : ℕ) → Moves R (admit_off ha task late epoch)
  unfolding admit_off
  Moves-admit_off task late epoch =
      Moves->>= R el (check_deadline ha late) _ (Moves-check_deadline R el ha late) λ _.
        Moves->>= R el (require_power_request epoch) _ (Moves-power_request R el epoch)
          λ observed. activates task (some (call_refresh observed))

  Moves-admit_on :
      (task : ℕ) (late : Bool) (epoch : ℕ) (resume_schedule : Bool)
      → Moves R (admit_on ha task late epoch resume_schedule)
  unfolding admit_on
  Moves-admit_on task late epoch resume_schedule =
      Moves->>= R el (check_deadline ha late) _ (Moves-check_deadline R el ha late) λ _.
        Moves->>= R el (require_power_request epoch) _ (Moves-power_request R el epoch) λ state.
          Moves-then R el (activate ha task) _ (el.activates (some task)) (
            Moves->>= R el (gets (λ c. manual_restore state c.power_memory)) _ el.same
              (λ restored. el.same))

  pub Moves-admit : (task : ℕ) (late : Bool) (ticket : Ticket) → Moves R (admit ha task late ticket)
  unfolding admit
  Moves-admit task late ticket = go ticket.request
    where
      go :
          (r : Request)
          → Moves R (admit ha task late (record { epoch = ticket.epoch; request = r }))
      go (channel_request index value generation) =
          Moves-admit_channel task late ticket.epoch index value generation
      go (mode_request mode) = Moves-admit_mode task late ticket.epoch mode
      go (compact_request rgb level roles generation) =
          Moves-admit_compact task late ticket.epoch rgb level roles generation
      go off_request = Moves-admit_off task late ticket.epoch
      go (on_request resume_schedule) = Moves-admit_on task late ticket.epoch resume_schedule
