-- ===== src/Coordinator/Ends.antt =====
-- coordinator.py: what the ends of the client's calls do to the coordinator, the reads, and unloading.
-- `late` says whether the command's deadline has passed, and `task` is the number of the running task.
use hahapent.Base.{
  ℕ, ◌+◌, Bool, true, false, not, ◌&&◌, ◌||◌, Option, none, some, List, [], ◌∷◌, ◌++◌, ◌==◌,
  if◌then◌else◌, Outcome, ok, err,
}
use hahapent.Protocol.Frame.{mode_automatic, mode_shutdown}
use hahapent.Client.State.{DeviceState, system_eq, channels_eq}
use hahapent.PowerMemory.Memory.{
  Envelope, Loaded, load, Attempt, PowerError, memory_error, cancelled, observe, prepare_off,
  confirm_off,
}
use hahapent.Coordinator.{
  Library, Coordinator, C, pure, raise, ◌>>=◌, ◌>>◌, require, gets, change, Refusal,
  home_assistant_error, service_validation_error, update_failed, task_cancelled, invalidate_compact,
  read_failed, read_succeeded, require_power_request,
}
use hahapent.Coordinator.Calls.{Call, call_off, leave_window, in_doubt, check_deadline}

module _ (ha : Library) where
  abbrev pub set_published : DeviceState → Coordinator → Coordinator
  set_published s c = record c { published = ha.set_updated_data s c.published }

  -- The end of the save in `_remember_observation`: only a cancellation goes on.
  abbrev pub after_save : Outcome PowerError (Unit {0}) → C (Unit {0})
  after_save (ok done) = pure tt
  after_save (err memory_error) = pure tt
  after_save (err cancelled) = in_doubt ha task_cancelled

  -- `_publish_observation`, in the command's window
  unfoldable pub publish_observation : Attempt → DeviceState → C (Unit {0})
  publish_observation attempt s c =
      let saved = observe s attempt c.power_memory in
      after_save saved.0 (set_published s (record c { power_memory = saved.1 }))

  -- A command whose client call has returned `s`.
  unfoldable pub command_done : ℕ → Attempt → DeviceState → C (Unit {0})
  unfolding publish_observation
  command_done task attempt s c =
      let r = publish_observation attempt s (read_succeeded c) in (r.0, leave_window task r.1)

  -- A command that ends by the client's error, its deadline, or its cancellation.
  unfoldable pub command_failed : ℕ → Refusal → C (Unit {0})
  unfolding in_doubt
  command_failed task e c = let r = in_doubt ha e c in (r.0, leave_window task r.1)

  -- The handler of CompactInputError.
  unfoldable pub compact_refused : ℕ → Attempt → DeviceState → C (Unit {0})
  unfolding publish_observation
  compact_refused task attempt s c =
      let known =
        read_succeeded (invalidate_compact (record c { command_epoch = c.command_epoch + 1 })) in
      let r = (publish_observation attempt s >> raise service_validation_error) known in
      (r.0, leave_window task r.1)

  -- A command that may end here leaves its window then.
  unfoldable pub leaving :
      {A : Type 0}
      → ℕ
      → Outcome Refusal (Option A) × Coordinator
      → Outcome Refusal (Option A) × Coordinator
  leaving task (ok (some a), c) = (ok (some a), c)
  leaving task (ok none, c) = (ok none, leave_window task c)
  leaving task (err e, c) = (err e, leave_window task c)

  unfoldable pub read_before_off : ℕ → DeviceState → DeviceState → C (Option DeviceState)
  unfolding in_doubt
  read_before_off epoch observed before = do
    if not (system_eq before.system observed.system)
          || (not (before.system.mode_raw == mode_automatic)
              && not (channels_eq before.channels observed.channels))
        then in_doubt ha home_assistant_error
        else pure tt
    change (set_published before)
    state ← require_power_request epoch
    pure (if before.system.mode_raw == mode_shutdown then none else some before)

  -- `async_turn_off` after its read; `none` is a lamp that is off.
  unfoldable pub off_read : ℕ → ℕ → DeviceState → DeviceState → C (Option DeviceState)
  unfolding leaving read_before_off
  off_read task epoch observed before c = leaving task (read_before_off epoch observed before c)

  abbrev pub prepared : Outcome PowerError (Unit {0}) → C (Unit {0})
  prepared (ok done) = pure tt
  prepared (err memory_error) = raise home_assistant_error
  prepared (err cancelled) = in_doubt ha task_cancelled

  unfoldable pub prepare_before_off : Bool → ℕ → Attempt → DeviceState → C (Option Call)
  unfolding check_deadline
  prepare_before_off late epoch attempt before = do
    saved ← gets (λ c. prepare_off before attempt c.power_memory)
    change (λ c. record c { power_memory = saved.1 })
    prepared saved.0
    check_deadline ha late
    state ← require_power_request epoch
    pure (some (call_off before))

  -- The origin is saved before the call that switches off.
  unfoldable pub off_prepared : ℕ → Bool → ℕ → Attempt → DeviceState → C (Option Call)
  unfolding leaving prepare_before_off
  off_prepared task late epoch attempt before c =
      leaving task (prepare_before_off late epoch attempt before c)

  -- The end of `async_turn_off` after the client has returned `s`.
  unfoldable pub off_done : ℕ → Attempt → DeviceState → C (Unit {0})
  off_done task attempt s c =
      let good = read_succeeded c in
      let saved = confirm_off s attempt good.power_memory in
      let r = prepared saved.0 (set_published s (record good { power_memory = saved.1 })) in
      (r.0, leave_window task r.1)

  -- `_async_update_data`, before its read
  unfoldable pub begin_read : ℕ → C (Unit {0})
  begin_read task = do
    allowed ← gets (λ c. not (c.stopped || (c.quiescing && not c.resuming)))
    require allowed update_failed
    change (λ c. record c { active_read = some task })

  abbrev pub end_read : Coordinator → Coordinator
  end_read c = record c { active_read = none }

  -- after a read that returned `s`
  unfoldable pub read_done : Attempt → DeviceState → C DeviceState
  read_done attempt s c =
      let saved = observe s attempt (read_succeeded c).power_memory in
      let r =
        (after_save saved.0 >> pure s) (record (read_succeeded c) { power_memory = saved.1 }) in
      (r.0, end_read r.1)

  -- after an error of the client, and after a cancellation
  unfoldable pub read_refused : C DeviceState
  read_refused c = (err update_failed, end_read (read_failed c))

  unfoldable pub read_cancelled : C DeviceState
  unfolding in_doubt
  read_cancelled c = let r = in_doubt ha task_cancelled c in (r.0, end_read r.1)

abbrev others : ℕ → Option ℕ → List ℕ
others task none = []
others task (some t) = if t == task then [] else t ∷ []

-- `async_load_power_memory`
unfoldable pub load_power_memory : Envelope → Loaded → Coordinator → Coordinator
load_power_memory envelope loaded c = record c {
  power_memory = load envelope loaded c.power_memory;
}

-- `async_prepare_unload`, up to its await: the tasks that it cancels
unfoldable pub prepare_unload : ℕ → C (List ℕ)
prepare_unload task c =
    let closed =
      invalidate_compact (record c { quiescing = true; command_epoch = c.command_epoch + 1 }) in
    (ok (others task c.active_command ++ others task c.active_read), closed)

-- `async_resume_after_failed_unload`, before and after its refresh
unfoldable pub begin_resume : Coordinator → Coordinator
begin_resume c = record c { resuming = true }

unfoldable pub end_resume : Coordinator → Coordinator
end_resume c = record c { resuming = false; quiescing = false }

-- `async_shutdown`, up to its first await
unfoldable pub shutdown : ℕ → C (List ℕ)
unfolding prepare_unload
shutdown task c = prepare_unload task (record c { stopped = true })
