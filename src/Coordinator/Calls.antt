-- ===== src/Coordinator/Calls.antt =====
-- coordinator.py: the commands at the moment that they hold the lock: the last checks and the call of
-- the client. `late` says whether the command's
-- deadline has passed, and `task` is the number of the running task.
use hahapent.Base.{
  ℕ, Bool, true, false, not, ◌&&◌, Option, none, some, List, [], ◌∷◌, ◌==◌, if◌then◌else◌, Outcome,
  ok, err, get_or,
}
use hahapent.Compact.Roles.{Role, Rgb, role_eq, compact_roles_from_options}
use hahapent.Client.State.{DeviceState}
use hahapent.PowerMemory.Memory.{manual_restore}
use hahapent.Coordinator.{
  Library, Coordinator, C, pure, raise, ◌>>=◌, ◌>>◌, gets, change, Refusal, home_assistant_error,
  service_validation_error, read_failed, require_current_request, require_power_request,
  require_compact_request,
}
use hahapent.Coordinator.Requests.{
  Ticket, channel_request, mode_request, compact_request, off_request, on_request,
}

-- The call of the client that an admitted command makes, with its `expected_state`.
pub data Call : Type 0 where
  call_channel : ℕ → ℕ → DeviceState → Call
  call_mode : ℕ → DeviceState → Call
  call_compact : Option Rgb → Option ℕ → List Role → Option (List ℕ) → DeviceState → Call
  call_refresh : DeviceState → Call
  call_off : DeviceState → Call
  call_on : Option (List ℕ) → DeviceState → Call

-- `a == b` of two tuples of roles
unfoldable pub roles_eq : List Role → List Role → Bool
roles_eq [] [] = true
roles_eq [] (b ∷ bs) = false
roles_eq (a ∷ as_) [] = false
roles_eq (a ∷ as_) (b ∷ bs) = role_eq a b && roles_eq as_ bs

-- The `finally` of `_command_window`
unfoldable pub leave_window : ℕ → Coordinator → Coordinator
leave_window task c = record c {
  active_command = elim c.active_command [
    | none ↦ none
    | some t ↦ if t == task then none else some t
  ];
}

module _ (ha : Library) where
  -- The handlers of TimeoutError, of CancelledError, and of the client's errors: the communication is
  -- in doubt.
  unfoldable pub in_doubt : {A : Type 0} → Refusal → C A
  in_doubt e c =
      let failed = read_failed c in
      (err e, record failed { published = ha.set_update_error failed.published })

  -- `_check_command_deadline`, with the handler of its TimeoutError
  unfoldable pub check_deadline : Bool → C (Unit {0})
  check_deadline true = in_doubt home_assistant_error
  check_deadline false = pure tt

  abbrev pub activate : ℕ → Coordinator → Coordinator
  activate task c = record c { active_command = some task }

  -- `async_set_channel`, once it holds the lock; `none` is a superseded request.
  unfoldable pub admit_channel : ℕ → Bool → ℕ → ℕ → ℕ → ℕ → C (Option Call)
  unfolding check_deadline
  admit_channel task late epoch index value generation = do
    check_deadline late
    state ← require_current_request epoch
    newest ← gets (λ c. get_or c.channel_generations index 0 == generation)
    if newest
        then (change (activate task) >> pure (some (call_channel index value state)))
        else pure none

  -- `async_set_mode`
  unfoldable pub admit_mode : ℕ → Bool → ℕ → ℕ → C (Option Call)
  unfolding check_deadline
  admit_mode task late epoch mode = do
    check_deadline late
    state ← require_current_request epoch
    change (activate task)
    pure (some (call_mode mode state))

  -- The `finally` of `async_set_compact`, when it ends here.
  abbrev pub forget_intent : ℕ → Coordinator → Coordinator
  forget_intent generation c =
      if c.compact_generation == generation then record c { pending_compact = none } else c

  unfoldable pub finally_compact :
      ℕ → Outcome Refusal (Option Call) × Coordinator → Outcome Refusal (Option Call) × Coordinator
  finally_compact generation (ok (some call), c) = (ok (some call), c)
  finally_compact generation (ok none, c) = (ok none, forget_intent generation c)
  finally_compact generation (err e, c) = (err e, forget_intent generation c)

  unfoldable pub same_roles : List Role → Option (List Role) → Bool
  same_roles roles none = false
  same_roles roles (some found) = roles_eq roles found

  unfoldable pub compact_call :
      ℕ → Option Rgb → Option ℕ → List Role → DeviceState → C (Option Call)
  compact_call task rgb level roles state = do
    change (λ c. record c { pending_compact = none })
    change (activate task)
    restored ← gets (λ c. manual_restore state c.power_memory)
    pure (some (call_compact rgb level roles restored.0 state))

  unfoldable pub admitted_compact :
      ℕ → Bool → ℕ → Option Rgb → Option ℕ → List Role → ℕ → C (Option Call)
  unfolding check_deadline same_roles compact_call
  admitted_compact task late epoch rgb level roles generation = do
    check_deadline late
    state ← require_compact_request epoch
    newest ← gets (λ c. c.compact_generation == generation)
    unchanged ← gets (λ c. same_roles roles (compact_roles_from_options c.options))
    if not newest
        then pure none
        else if unchanged
        then compact_call task rgb level roles state
        else raise service_validation_error

  -- `async_set_compact`, once it holds the lock
  unfoldable pub admit_compact :
      ℕ → Bool → ℕ → Option Rgb → Option ℕ → List Role → ℕ → C (Option Call)
  unfolding admitted_compact finally_compact
  admit_compact task late epoch rgb level roles generation c =
      finally_compact generation (admitted_compact task late epoch rgb level roles generation c)

  -- `async_turn_off`, once it holds the lock: it reads first.
  unfoldable pub admit_off : ℕ → Bool → ℕ → C (Option Call)
  unfolding check_deadline
  admit_off task late epoch = do
    check_deadline late
    observed ← require_power_request epoch
    change (activate task)
    pure (some (call_refresh observed))

  -- `async_turn_on`, once it holds the lock
  unfoldable pub admit_on : ℕ → Bool → ℕ → Bool → C (Option Call)
  unfolding check_deadline
  admit_on task late epoch resume_schedule = do
    check_deadline late
    state ← require_power_request epoch
    change (activate task)
    restored ← gets (λ c. manual_restore state c.power_memory)
    pure (some (call_on (if resume_schedule then none else restored.0) state))

  -- A command at its turn.
  unfoldable pub admit : ℕ → Bool → Ticket → C (Option Call)
  unfolding admit_channel admit_mode admit_compact admit_off admit_on
  admit task late ticket = elim ticket.request [
    | channel_request index value generation ↦
        admit_channel task late ticket.epoch index value generation
    | mode_request mode ↦ admit_mode task late ticket.epoch mode
    | compact_request rgb level roles generation ↦
        admit_compact task late ticket.epoch rgb level roles generation
    | off_request ↦ admit_off task late ticket.epoch
    | on_request resume_schedule ↦ admit_on task late ticket.epoch resume_schedule
  ]
