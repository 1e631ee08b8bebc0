-- ===== src/Coordinator/Doubt.antt =====
-- coordinator.py: after a failure no command is accepted until a state is published again.
use hahapent.Base.{
  ℕ, ◌≡◌, ap, ◌∙◌, refl, Bool, true, false, not, ◌&&◌, Option, none, some, if◌then◌else◌, Outcome,
  ok, err, arith,
}
use hahapent.Base.Value.{Value, int_upto}
use hahapent.Base.Text.{Text, codes}
use hahapent.Compact.Roles.{
  CompactError, Rgb, validate_rgb, validate_intensity, compact_roles_from_options,
}
use hahapent.Client.Operations.{is_absent, is_zero_request}
use hahapent.Coordinator.{
  Published, Library, IsDocumented, Coordinator, C, ◌>>=◌, demand, gets, Refusal,
  service_validation_error, require, read_failed, require_current_state, require_write_supported,
  require_power_supported, require_current_request, require_power_request, require_compact_request,
  in_shutdown,
}
use hahapent.Coordinator.Requests.{
  checked, optional, mode_option, submit_channel, submit_mode, submit_off, submit_on, submit_mix,
  submit_compact,
}
use hahapent.Coordinator.Calls.{in_doubt}
use hahapent.Coordinator.Stale.{is_refused, then-refused}

module _ (c : Coordinator) (lost : c.published.last_update_success ≡ false) where
  lost-write : is_refused (require_write_supported c) ≡ true
  unfolding require_write_supported require_current_state ◌>>=◌ is_refused
  lost-write = ground arith

  lost-power : is_refused (require_power_supported c) ≡ true
  unfolding require_power_supported require_current_state ◌>>=◌ is_refused
  lost-power = ground arith

  lost-current : (epoch : ℕ) → is_refused (require_current_request epoch c) ≡ true
  unfolding require_current_request
  lost-current epoch = then-refused require_write_supported _ c lost-write

  lost-power_request : (epoch : ℕ) → is_refused (require_power_request epoch c) ≡ true
  unfolding require_power_request
  lost-power_request epoch = then-refused require_power_supported _ c lost-power

  lost-compact : (epoch : ℕ) → is_refused (require_compact_request epoch c) ≡ true
  unfolding require_compact_request
  lost-compact epoch = go (in_shutdown c.published.data_)
    where
      go :
          (b : Bool)
          → is_refused
              ((if b then require_power_request epoch else require_current_request epoch) c)
            ≡ true
      go true = lost-power_request epoch
      go false = lost-current epoch

  demand-refused :
      {A B : Type 0} (e : Refusal) (a : Option A) (f : A → C B)
      → ((x : A) → is_refused (f x c) ≡ true)
      → is_refused ((demand e a >>= f) c) ≡ true
  unfolding ◌>>=◌ is_refused
  demand-refused e none f hf = refl
  demand-refused e (some a) f hf = hf a

  checked-refused :
      {A B : Type 0} (r : Outcome CompactError A) (f : Option A → C B)
      → ((x : Option A) → is_refused (f x c) ≡ true)
      → is_refused ((checked r >>= f) c) ≡ true
  unfolding ◌>>=◌ is_refused
  checked-refused (ok a) f hf = hf (some a)
  checked-refused (err e) f hf = refl

  optional-refused :
      {A B : Type 0} (validate : Value → Outcome CompactError A) (v : Option Value)
      (f : Option A → C B)
      → ((x : Option A) → is_refused (f x c) ≡ true)
      → is_refused ((optional validate v >>= f) c) ≡ true
  unfolding ◌>>=◌
  optional-refused validate none f hf = hf none
  optional-refused validate (some v) f hf = checked-refused (validate v) f hf

  gets-refused :
      {A B : Type 0} (g : Coordinator → A) (f : A → C B)
      → is_refused (f (g c) c) ≡ true
      → is_refused ((gets g >>= f) c) ≡ true
  unfolding ◌>>=◌
  gets-refused g f h = h

  require-refused :
      {B : Type 0} (b : Bool) (e : Refusal) (m : C B)
      → is_refused (m c) ≡ true
      → is_refused ((require b e >>= λ _. m) c) ≡ true
  unfolding ◌>>=◌ is_refused
  require-refused true e m h = h
  require-refused false e m h = refl

  choice-refused :
      {B : Type 0} (b : Bool) (m n : C B)
      → is_refused (m c) ≡ true
      → is_refused (n c) ≡ true
      → is_refused ((if b then m else n) c) ≡ true
  choice-refused true m n hm hn = hm
  choice-refused false m n hm hn = hn

  lost-submit_mode : (option : Text) → is_refused (submit_mode option c) ≡ true
  unfolding submit_mode
  lost-submit_mode option =
      demand-refused service_validation_error (mode_option option) _
        λ mode. then-refused require_write_supported _ c lost-write

  lost-submit_off : is_refused (submit_off c) ≡ true
  unfolding submit_off
  lost-submit_off = then-refused require_power_supported _ c lost-power

  lost-submit_channel : (index value : Value) → is_refused (submit_channel index value c) ≡ true
  unfolding submit_channel
  lost-submit_channel index value =
      demand-refused service_validation_error (int_upto 5 index) _ λ i.
        demand-refused service_validation_error (int_upto 100 value) _
          λ v. then-refused require_write_supported _ c lost-write

  lost-submit_on : (resume_schedule : Bool) → is_refused (submit_on resume_schedule c) ≡ true
  unfolding submit_on
  lost-submit_on resume_schedule =
      choice-refused
        (resume_schedule
          && (not (is_absent c.published.data_) && not (in_shutdown c.published.data_)))
        (submit_mode (codes "automatic_program")) _ (lost-submit_mode (codes "automatic_program"))
        (then-refused require_power_supported _ c lost-power)

  lost-submit_mix :
      (rgb : Option Rgb) (level : Option ℕ) → is_refused (submit_mix rgb level c) ≡ true
  unfolding submit_mix
  lost-submit_mix rgb level =
      gets-refused (λ d. compact_roles_from_options d.options) _
        (demand-refused service_validation_error (compact_roles_from_options c.options) _ λ roles.
          gets-refused (λ d. d.command_epoch) _
            (then-refused (require_compact_request c.command_epoch) _ c
              (lost-compact c.command_epoch)))

  lost-submit_compact :
      (rgb_color intensity : Option Value)
      → is_refused (submit_compact rgb_color intensity c) ≡ true
  unfolding submit_compact
  lost-submit_compact rgb_color intensity = optional-refused validate_rgb rgb_color _ λ rgb.
      optional-refused validate_intensity intensity _ λ level.
        require-refused (not (is_absent rgb && is_absent level)) service_validation_error _ (
          choice-refused (is_zero_request rgb level) submit_off (submit_mix rgb level)
            lost-submit_off (lost-submit_mix rgb level))

-- When a command ends in doubt (by an error of the client, its deadline or its cancellation), every new
-- command is refused in every later state of the coordinator in which what is published is still what
-- that end has published, if Home Assistant does as documented.
pub in_doubt-refuses :
    (ha : Library) (e : Refusal) (c d : Coordinator) (index value : Value) (option : Text)
    (resume_schedule : Bool) (rgb_color intensity : Option Value)
    → IsDocumented ha
    → d.published ≡ (in_doubt ha {A = Unit {0}} e c).1.published
    → (is_refused (submit_channel index value d) ≡ true)
      × (is_refused (submit_mode option d) ≡ true)
      × (is_refused (submit_off d) ≡ true)
      × (is_refused (submit_on resume_schedule d) ≡ true)
      × (is_refused (submit_compact rgb_color intensity d) ≡ true)
unfolding in_doubt
in_doubt-refuses ha e c d index value option resume_schedule rgb_color intensity documented same =
    let lost =
      ap (λ (p : Published). p.last_update_success) same
      ∙ documented.error_success (read_failed c).published in
    (
      lost-submit_channel d lost index value,
      lost-submit_mode d lost option,
      lost-submit_off d lost,
      lost-submit_on d lost resume_schedule,
      lost-submit_compact d lost rgb_color intensity,
    )
