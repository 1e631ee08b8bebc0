-- ===== src/Coordinator/Steps/Endings.antt =====
-- The ends of the calls, the reads and unloading respect every preorder that the elementary changes do.
use hahapent.Base.{
  ℕ, ◌+◌, ◌==◌, Bool, true, not, ◌&&◌, ◌||◌, Option, none, some, if◌then◌else◌, Outcome, ok, err,
}
use hahapent.Protocol.Frame.{mode_automatic}
use hahapent.Client.State.{DeviceState, system_eq, channels_eq}
use hahapent.PowerMemory.Memory.{
  Attempt, PowerError, memory_error, cancelled, observe, prepare_off, confirm_off,
}
use hahapent.Coordinator.{
  Library, Coordinator, C, pure, raise, ◌>>◌, require, gets, Refusal, home_assistant_error,
  service_validation_error, update_failed, task_cancelled, invalidate_compact, read_failed,
  read_succeeded, require_power_request,
}
use hahapent.Coordinator.Calls.{leave_window, in_doubt, check_deadline}
use hahapent.Coordinator.Ends.{
  set_published, after_save, publish_observation, command_done, command_failed, compact_refused,
  leaving, read_before_off, off_read, prepared, prepare_before_off, off_prepared, off_done,
  begin_read, read_done, read_refused, read_cancelled, prepare_unload, shutdown,
}
use hahapent.Coordinator.Steps.Moves.{
  Moves, Elementary, Moves->>=, Moves-require, Moves-choice, Moves-power_request,
}
use hahapent.Coordinator.Steps.Beginnings.{Moves-then, Moves-in_doubt, Moves-check_deadline}

module _ (R : Coordinator → Coordinator → Type 0) (el : Elementary R) (ha : Library) where
  leaves : (task : ℕ) (c : Coordinator) → R c (leave_window task c)
  unfolding leave_window
  leaves task c = el.activates (leave_window task c).active_command c

  after_move :
      {A : Type 0} (task : ℕ) (m : C A)
      → Moves R m
      → (c : Coordinator) → R c (leave_window task (m c).1)
  after_move task m hm c = el.next c (m c).1 _ (hm c) (leaves task (m c).1)

  Moves-after_save : (r : Outcome PowerError (Unit {0})) → Moves R (after_save ha r)
  Moves-after_save (ok done) = el.same
  Moves-after_save (err memory_error) = el.same
  Moves-after_save (err cancelled) = Moves-in_doubt R el ha (Unit {0}) task_cancelled

  pub Moves-publish :
      (attempt : Attempt) (s : DeviceState) → Moves R (publish_observation ha attempt s)
  unfolding publish_observation
  Moves-publish attempt s c =
      let saved = observe s attempt c.power_memory in
      let kept = record c { power_memory = saved.1 } in
      el.next c kept _ (el.remembers saved.1 c) (
        el.next kept (set_published ha s kept) _
          (el.publishes (ha.set_updated_data s c.published) kept)
          (Moves-after_save saved.0 (set_published ha s kept)))

  pub Moves-command_done :
      (task : ℕ) (attempt : Attempt) (s : DeviceState) → Moves R (command_done ha task attempt s)
  unfolding command_done
  Moves-command_done task attempt s c = el.next c (read_succeeded c) _ (el.succeeds c) (
      after_move task (publish_observation ha attempt s) (Moves-publish attempt s)
        (read_succeeded c))

  pub Moves-command_failed : (task : ℕ) (e : Refusal) → Moves R (command_failed ha task e)
  unfolding command_failed
  Moves-command_failed task e =
      after_move task (in_doubt ha {A = Unit {0}} e) (Moves-in_doubt R el ha (Unit {0}) e)

  pub Moves-compact_refused :
      (task : ℕ) (attempt : Attempt) (s : DeviceState) → Moves R (compact_refused ha task attempt s)
  unfolding compact_refused
  Moves-compact_refused task attempt s c =
      let one = record c { command_epoch = c.command_epoch + 1 } in
      let two = invalidate_compact one in
      el.next c one _ (el.advances c) (
        el.next one two _ (el.invalidates one) (
          el.next two (read_succeeded two) _ (el.succeeds two) (
            after_move task
              (publish_observation ha attempt s >> raise {A = Unit {0}} service_validation_error)
              (Moves->>= R el (publish_observation ha attempt s) _ (Moves-publish attempt s)
                (λ _. el.same))
              (read_succeeded two))))

  leaves_if :
      {A : Type 0} (task : ℕ) (c : Coordinator) (r : Outcome Refusal (Option A) × Coordinator)
      → R c r.1
      → R c (leaving ha task r).1
  unfolding leaving
  leaves_if task c (ok (some a), d) h = h
  leaves_if task c (ok none, d) h = el.next c d _ h (leaves task d)
  leaves_if task c (err e, d) h = el.next c d _ h (leaves task d)

  pub Moves-off_read :
      (task epoch : ℕ) (observed before : DeviceState)
      → Moves R (off_read ha task epoch observed before)
  unfolding off_read read_before_off
  Moves-off_read task epoch observed before c =
      let differs =
        not (system_eq before.system observed.system)
        || (not (before.system.mode_raw == mode_automatic)
            && not (channels_eq before.channels observed.channels)) in
      leaves_if task c (read_before_off ha epoch observed before c) (
        (Moves->>= R el (if differs then in_doubt ha home_assistant_error else pure tt) _
            (Moves-choice R el differs (in_doubt ha home_assistant_error) (pure tt)
              (Moves-in_doubt R el ha (Unit {0}) home_assistant_error) el.same)
            λ _.
              Moves-then R el (set_published ha before) _
                (λ d. el.publishes (ha.set_updated_data before d.published) d)
                (Moves->>= R el (require_power_request epoch) _ (Moves-power_request R el epoch)
                  (λ state. el.same)))
          c)

  Moves-prepared : (r : Outcome PowerError (Unit {0})) → Moves R (prepared ha r)
  Moves-prepared (ok done) = el.same
  Moves-prepared (err memory_error) = el.same
  Moves-prepared (err cancelled) = Moves-in_doubt R el ha (Unit {0}) task_cancelled

  pub Moves-off_prepared :
      (task : ℕ) (late : Bool) (epoch : ℕ) (attempt : Attempt) (before : DeviceState)
      → Moves R (off_prepared ha task late epoch attempt before)
  unfolding off_prepared prepare_before_off
  Moves-off_prepared task late epoch attempt before c =
      leaves_if task c (prepare_before_off ha late epoch attempt before c) (
        (Moves->>= R el (gets (λ c. prepare_off before attempt c.power_memory)) _ el.same λ saved.
            Moves-then R el (λ c. record c { power_memory = saved.1 }) _ (el.remembers saved.1)
              (Moves->>= R el (prepared ha saved.0) _ (Moves-prepared saved.0) λ _.
                Moves->>= R el (check_deadline ha late) _ (Moves-check_deadline R el ha late) λ _.
                  Moves->>= R el (require_power_request epoch) _ (Moves-power_request R el epoch)
                    (λ state. el.same)))
          c)

  pub Moves-off_done :
      (task : ℕ) (attempt : Attempt) (s : DeviceState) → Moves R (off_done ha task attempt s)
  unfolding off_done
  Moves-off_done task attempt s c =
      let good = read_succeeded c in
      let saved = confirm_off s attempt good.power_memory in
      let kept = record good { power_memory = saved.1 } in
      el.next c good _ (el.succeeds c) (
        el.next good kept _ (el.remembers saved.1 good) (
          el.next kept (set_published ha s kept) _
            (el.publishes (ha.set_updated_data s good.published) kept)
            (after_move task (prepared ha saved.0) (Moves-prepared saved.0)
              (set_published ha s kept))))

  pub Moves-begin_read : (task : ℕ) → Moves R (begin_read ha task)
  unfolding begin_read
  Moves-begin_read task =
      Moves->>= R el (gets (λ c. not (c.stopped || (c.quiescing && not c.resuming)))) _ el.same
        λ allowed.
          Moves->>= R el (require allowed update_failed) _
            (Moves-require R el allowed update_failed) (λ _. el.reads (some task))

  pub Moves-read_done : (attempt : Attempt) (s : DeviceState) → Moves R (read_done ha attempt s)
  unfolding read_done
  Moves-read_done attempt s c =
      let good = read_succeeded c in
      let saved = observe s attempt good.power_memory in
      let kept = record good { power_memory = saved.1 } in
      let last = ((after_save ha saved.0 >> pure s) kept).1 in
      el.next c good _ (el.succeeds c) (
        el.next good kept _ (el.remembers saved.1 good) (
          el.next kept last _
            (Moves->>= R el (after_save ha saved.0) (λ _. pure s) (Moves-after_save saved.0)
              (λ _. el.same) kept)
            (el.reads none last)))

  pub Moves-read_refused : Moves R (read_refused ha)
  unfolding read_refused
  Moves-read_refused c = el.next c (read_failed c) _ (el.fails c) (el.reads none (read_failed c))

  pub Moves-read_cancelled : Moves R (read_cancelled ha)
  unfolding read_cancelled
  Moves-read_cancelled c =
      let last = (in_doubt ha {A = DeviceState} task_cancelled c).1 in
      el.next c last _ (Moves-in_doubt R el ha DeviceState task_cancelled c) (el.reads none last)

  pub Moves-prepare_unload : (task : ℕ) → Moves R (prepare_unload task)
  unfolding prepare_unload
  Moves-prepare_unload task c =
      let one = record c { quiescing = true } in
      let two = record one { command_epoch = one.command_epoch + 1 } in
      el.next c one _ (el.quiesces true c.resuming c)
        (el.next one two _ (el.advances one) (el.invalidates two))

  pub Moves-shutdown : (task : ℕ) → Moves R (shutdown task)
  unfolding shutdown
  Moves-shutdown task c =
      el.next c (record c { stopped = true }) _ (el.stops c)
        (Moves-prepare_unload task (record c { stopped = true }))
