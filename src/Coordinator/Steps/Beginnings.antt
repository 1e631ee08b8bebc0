-- ===== src/Coordinator/Steps/Beginnings.antt =====
-- The beginnings and the turns of the commands respect every preorder that the elementary changes do.
use hahapent.Base.{
  ℕ, ◌+◌, Bool, true, false, not, ◌&&◌, Option, none, some, get_or, Outcome, ok, err,
}
use hahapent.Base.Value.{Value, int_upto}
use hahapent.Base.Text.{Text, codes}
use hahapent.Compact.Roles.{
  CompactError, Rgb, validate_rgb, validate_intensity, compact_roles_from_options,
}
use hahapent.Client.Operations.{is_absent, is_zero_request}
use hahapent.Coordinator.{
  Library, Coordinator, C, ◌>>◌, require, gets, change, demand, Refusal, home_assistant_error,
  service_validation_error, invalidate_compact, read_failed, require_write_supported,
  require_power_supported, require_compact_request, in_shutdown, supersede_channels,
}
use hahapent.Coordinator.Requests.{
  supersede_channel, submit_channel, mode_option, submit_mode, submit_off, submit_on, merged,
  keep_intent, submit_mix, submit_compact, checked, optional,
}
use hahapent.Coordinator.Calls.{in_doubt, check_deadline}
use hahapent.Coordinator.Steps.Moves.{
  Moves, Elementary, Moves->>=, Moves-require, Moves-demand, Moves-choice, Moves-write_supported,
  Moves-power_supported, Moves-compact_request,
}

module _ (R : Coordinator → Coordinator → Type 0) (el : Elementary R) where
  pub Moves-then :
      {A : Type 0} (f : Coordinator → Coordinator) (n : C A)
      → ((c : Coordinator) → R c (f c))
      → Moves R n
      → Moves R (change f >> n)
  Moves-then f n hf hn = Moves->>= R el (change f) (λ _. n) hf (λ _. hn)

  pub Moves-submit_channel : (index value : Value) → Moves R (submit_channel index value)
  unfolding submit_channel
  Moves-submit_channel index value =
      Moves->>= R el (demand service_validation_error (int_upto 5 index)) _
        (Moves-demand R el service_validation_error (int_upto 5 index))
        λ i.
          Moves->>= R el (demand service_validation_error (int_upto 100 value)) _
            (Moves-demand R el service_validation_error (int_upto 100 value))
            λ v. Moves->>= R el require_write_supported _ (Moves-write_supported R el) λ state.
              Moves-then invalidate_compact _ el.invalidates (
                Moves-then (supersede_channel i) _ (el.supersedes i) (
                  Moves->>= R el (gets (λ c. get_or c.channel_generations i 0)) _ el.same
                    (λ generation. el.same)))

  pub Moves-submit_mode : (option : Text) → Moves R (submit_mode option)
  unfolding submit_mode
  Moves-submit_mode option =
      Moves->>= R el (demand service_validation_error (mode_option option)) _
        (Moves-demand R el service_validation_error (mode_option option))
        λ mode. Moves->>= R el require_write_supported _ (Moves-write_supported R el) λ state.
          Moves-then invalidate_compact _ el.invalidates
            (Moves-then supersede_channels _ el.supersedes_all el.same)

  pub Moves-submit_off : Moves R submit_off
  unfolding submit_off
  Moves-submit_off = Moves->>= R el require_power_supported _ (Moves-power_supported R el) λ state.
      Moves-then invalidate_compact _ el.invalidates
        (Moves-then supersede_channels _ el.supersedes_all el.same)

  pub Moves-submit_on : (resume_schedule : Bool) → Moves R (submit_on resume_schedule)
  unfolding submit_on
  Moves-submit_on resume_schedule c =
      Moves-choice R el
        (resume_schedule
          && (not (is_absent c.published.data_) && not (in_shutdown c.published.data_)))
        (submit_mode (codes "automatic_program")) _ (Moves-submit_mode (codes "automatic_program"))
        (Moves->>= R el require_power_supported _ (Moves-power_supported R el) λ state.
          Moves-then invalidate_compact _ el.invalidates
            (Moves-then supersede_channels _ el.supersedes_all el.same))
        c

  keeps_intent : (intent : Option Rgb × Option ℕ) (c : Coordinator) → R c (keep_intent intent c)
  unfolding keep_intent
  keeps_intent intent c =
      let one = record c { pending_compact = some intent } in
      let two = record one { compact_generation = one.compact_generation + 1 } in
      el.next c one (supersede_channels two) (el.intends (some intent) c)
        (el.next one two (supersede_channels two) (el.gestures one) (el.supersedes_all two))

  pub Moves-submit_mix : (rgb : Option Rgb) (level : Option ℕ) → Moves R (submit_mix rgb level)
  unfolding submit_mix
  Moves-submit_mix rgb level =
      Moves->>= R el (gets (λ c. compact_roles_from_options c.options)) _ el.same λ found.
        Moves->>= R el (demand service_validation_error found) _
          (Moves-demand R el service_validation_error found)
          λ roles. Moves->>= R el (gets (λ c. c.command_epoch)) _ el.same λ epoch.
            Moves->>= R el (require_compact_request epoch) _ (Moves-compact_request R el epoch)
              λ state.
                Moves->>= R el (gets (λ c. merged c.pending_compact rgb level)) _ el.same λ intent.
                  Moves-then (keep_intent intent) _ (keeps_intent intent) (
                    Moves->>= R el (gets (λ c. c.compact_generation)) _ el.same
                      (λ generation. el.same))

  Moves-checked : {A : Type 0} (r : Outcome CompactError A) → Moves R (checked r)
  Moves-checked (ok a) = el.same
  Moves-checked (err e) = el.same

  Moves-optional :
      {A : Type 0} (validate : Value → Outcome CompactError A) (v : Option Value)
      → Moves R (optional validate v)
  Moves-optional validate none = el.same
  Moves-optional validate (some v) = Moves-checked (validate v)

  pub Moves-submit_compact :
      (rgb_color intensity : Option Value) → Moves R (submit_compact rgb_color intensity)
  unfolding submit_compact
  Moves-submit_compact rgb_color intensity =
      Moves->>= R el (optional validate_rgb rgb_color) _ (Moves-optional validate_rgb rgb_color)
        λ rgb.
          Moves->>= R el (optional validate_intensity intensity) _
            (Moves-optional validate_intensity intensity)
            λ level.
              Moves->>= R el
                (require (not (is_absent rgb && is_absent level)) service_validation_error) _
                (Moves-require R el (not (is_absent rgb && is_absent level))
                  service_validation_error)
                λ _.
                  Moves-choice R el (is_zero_request rgb level) submit_off (submit_mix rgb level)
                    Moves-submit_off (Moves-submit_mix rgb level)

  module _ (ha : Library) where
    pub Moves-in_doubt : (A : Type 0) (e : Refusal) → Moves R (in_doubt ha {A = A} e)
    unfolding in_doubt
    Moves-in_doubt A e c =
        el.next c (read_failed c) _ (el.fails c)
          (el.publishes (ha.set_update_error (read_failed c).published) (read_failed c))

    pub Moves-check_deadline : (late : Bool) → Moves R (check_deadline ha late)
    unfolding check_deadline
    Moves-check_deadline true = Moves-in_doubt (Unit {0}) home_assistant_error
    Moves-check_deadline false = el.same
