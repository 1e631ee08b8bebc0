-- ===== src/Client/Operations/Bodies.antt =====
-- What the guards and the parts of the operations may do to the client.
use hahapent.Base.{ℕ, ◌≡◌, refl, Bool, true, false, Option, none, some, List, [], ◌∷◌, set, ok}
use hahapent.Base.Value.{of_ℕ}
use hahapent.Protocol.Frame.{
  Bytes, mode_automatic, mode_manual, mode_shutdown, is_control_mode, system_query, channel_query,
  channel_write_frame, mode_frame, levels, permute_channels,
}
use hahapent.Protocol.Reply.{parse_system}
use hahapent.Compact.Roles.{Role, Rgb}
use hahapent.Client.State.{DeviceState}
use hahapent.Client.Trace.{
  Runs, Trace-refl, Runs-require, Runs-gets, Runs-lift, Runs-compact, Runs-if, Runs->>=,
  Runs-lift->>=,
}
use hahapent.Client.Transport.Sends.{
  Runs-connect, Runs-disconnect, Runs-send, Runs-quarantine, Runs-query, Runs-read_state,
}
use hahapent.Client.Guards.{or_last, prepare_write, readback}
use hahapent.Client.Operations.{
  write_levels, channel_operation, switch_mode, mode_operation, off_operation, restore_levels,
  on_operation, compact_levels, wake_unchanged, compact_operation,
}

module _ (A : Bytes → Type 0) (on_system : A system_query) (on_channels : A channel_query) where
  Runs-prepare_write :
      (expected : Option DeviceState) (power : Bool) → Runs A (prepare_write expected power)
  unfolding prepare_write
  Runs-prepare_write expected power = Runs->>= A _ _ (Runs-gets A (or_last expected)) λ previous.
      Runs->>= A _ _ (Runs-read_state A on_system on_channels) λ before.
        Runs->>= A _ _ (Runs-require A _ _) λ _. Runs->>= A _ _ (Runs-require A _ _) λ _.
          Runs->>= A _ _ (Runs-require A _ _)
            λ _. Runs->>= A _ _ (Runs-require A _ _) λ _ c. Trace-refl A c

  Runs-readback :
      (before : DeviceState) (mode : ℕ) (commands : List Bytes)
      → Runs A (readback before mode commands)
  unfolding readback
  Runs-readback before mode commands = Runs->>= A _ _ (Runs-quarantine A commands) λ _.
      Runs->>= A _ _ (Runs-query A system_query commands on_system) λ raw.
        Runs->>= A _ _ (Runs-lift A (parse_system raw)) λ system.
          Runs->>= A _ _ (Runs-require A _ _) λ _. Runs->>= A _ _ (Runs-require A _ _) λ _.
            Runs->>= A _ _ (Runs-disconnect A)
              λ _. Runs->>= A _ _ (Runs-connect A) λ _. Runs-read_state A on_system on_channels

  pub Runs-write_levels :
      (before : DeviceState) (desired : List ℕ)
      → ((f : Bytes) → channel_write_frame desired before.system.swap_cd ≡ ok f → A f)
      → ((f : Bytes) → mode_frame (of_ℕ mode_manual) ≡ ok f → A f)
      → Runs A (write_levels before desired)
  unfolding write_levels
  Runs-write_levels before desired hw hm = Runs-lift->>= A _ _ λ channel_command hc.
      Runs-lift->>= A _ _ λ manual_command hn.
        Runs->>= A _ _ (Runs-send A channel_command (hw channel_command hc)) λ _.
          Runs->>= A _ _ (Runs-quarantine A _) λ _.
            Runs->>= A _ _ (Runs-send A manual_command (hm manual_command hn)) λ _.
              Runs->>= A _ _
                (Runs-readback before mode_manual (channel_command ∷ manual_command ∷ []))
                λ after.
                  Runs->>= A _ _ (Runs-require A _ _)
                    λ _. Runs->>= A _ _ (Runs-require A _ _) λ _ c. Trace-refl A c

  pub Runs-switch_mode :
      (before : DeviceState) (mode : ℕ)
      → ((f : Bytes) → mode_frame (of_ℕ mode) ≡ ok f → A f)
      → Runs A (switch_mode before mode)
  unfolding switch_mode
  Runs-switch_mode before mode hm = Runs-lift->>= A _ _ λ command hc.
      Runs->>= A _ _ (Runs-send A command (hm command hc)) λ _.
        Runs->>= A _ _ (Runs-readback before mode (command ∷ [])) λ after.
          Runs->>= A _ _ (Runs-require A _ _)
            λ _. Runs->>= A _ _ (Runs-require A _ _) λ _ c. Trace-refl A c

  pub Runs-mode_operation :
      (mode : ℕ) (expected : Option DeviceState)
      → ((f : Bytes) → mode_frame (of_ℕ mode) ≡ ok f → A f)
      → Runs A (mode_operation mode expected)
  unfolding mode_operation
  Runs-mode_operation mode expected hm =
      Runs->>= A _ _ (Runs-prepare_write expected false) λ before.
        Runs->>= A _ _ (Runs-switch_mode before mode hm)
          λ after. Runs->>= A _ _ (Runs-require A _ _) λ _ c. Trace-refl A c

  pub Runs-off_operation :
      (expected : Option DeviceState)
      → ((f : Bytes) → mode_frame (of_ℕ mode_shutdown) ≡ ok f → A f)
      → Runs A (off_operation expected)
  unfolding off_operation
  Runs-off_operation expected hm = Runs->>= A _ _ (Runs-prepare_write expected true) λ before.
      Runs-if A _ _ _ (λ c. Trace-refl A c)
        (Runs->>= A _ _ (Runs-switch_mode before mode_shutdown hm)
          λ after. Runs->>= A _ _ (Runs-require A _ _) λ _ c. Trace-refl A c)

  -- Every operation that writes levels, given that all the frames that it builds are allowed.
  module _
      (on_mode : (mode : ℕ) (f : Bytes)
        → is_control_mode mode ≡ true
        → mode_frame (of_ℕ mode) ≡ ok f
        → A f)
      (on_levels : (desired : List ℕ) (swap : Bool) (f : Bytes)
        → channel_write_frame desired swap ≡ ok f
        → A f) where
    levels_written :
        (before : DeviceState) (desired : List ℕ) → Runs A (write_levels before desired)
    levels_written before desired =
        Runs-write_levels before desired (on_levels desired before.system.swap_cd)
          (λ f. on_mode mode_manual f refl)

    pub Runs-channel_operation :
        (index value : ℕ) (expected : Option DeviceState)
        → Runs A (channel_operation index value expected)
    unfolding channel_operation
    Runs-channel_operation index value expected =
        Runs->>= A _ _ (Runs-prepare_write expected false)
          λ before. levels_written before (set before.channels index value)

    Runs-restore_levels :
        (before awake : DeviceState) (saved : List ℕ) → Runs A (restore_levels before awake saved)
    unfolding restore_levels
    Runs-restore_levels before awake saved = Runs->>= A _ _ (Runs-require A _ _) λ _.
        Runs->>= A _ _ (Runs-disconnect A) λ _. Runs->>= A _ _ (Runs-connect A) λ _.
          Runs->>= A _ _ (Runs-prepare_write (some awake) false)
            λ guarded. levels_written guarded saved

    pub Runs-on_operation :
        (saved : Option (List ℕ)) (expected : Option DeviceState)
        → Runs A (on_operation saved expected)
    unfolding on_operation
    Runs-on_operation none expected = Runs->>= A _ _ (Runs-prepare_write expected true) λ before.
        Runs-if A _ _ _ (λ c. Trace-refl A c)
          (Runs-switch_mode before mode_automatic (λ f. on_mode mode_automatic f refl))
    Runs-on_operation (some saved) expected =
        Runs->>= A _ _ (Runs-prepare_write expected true) λ before.
          Runs-if A _ _ _ (λ c. Trace-refl A c)
            (Runs->>= A _ _ (Runs-switch_mode before mode_manual (λ f. on_mode mode_manual f refl))
              λ awake.
                Runs-if A _ _ _ (λ c. Trace-refl A c) (Runs-restore_levels before awake saved))

    Runs-compact_levels :
        (before : DeviceState) (rgb : Option Rgb) (level : Option ℕ) (roles : List Role)
        (basis : Option (List ℕ))
        → Runs A (compact_levels before rgb level roles basis)
    unfolding compact_levels
    Runs-compact_levels before (some colour) level roles basis c = Runs-compact A _ c
    Runs-compact_levels before none level roles none c = Trace-refl A c
    Runs-compact_levels before none level roles (some values) c =
        Runs-if A _ _ _ (Runs-compact A _) (λ d. Trace-refl A d) c

    Runs-wake_unchanged : (before : DeviceState) → Runs A (wake_unchanged before)
    unfolding wake_unchanged
    Runs-wake_unchanged before =
        Runs->>= A _ _ (Runs-switch_mode before mode_manual (λ f. on_mode mode_manual f refl))
          λ awake. Runs->>= A _ _ (Runs-require A _ _) λ _.
            Runs->>= A _ _ (Runs-disconnect A)
              λ _. Runs->>= A _ _ (Runs-connect A) λ _. Runs-prepare_write (some awake) false

    pub Runs-compact_operation :
        (rgb : Option Rgb) (level : Option ℕ) (roles : List Role) (saved : Option (List ℕ))
        (expected : Option DeviceState)
        → Runs A (compact_operation rgb level roles saved expected)
    unfolding compact_operation
    Runs-compact_operation rgb level roles saved expected =
        Runs->>= A _ _ (Runs-gets A (or_last expected)) λ previous.
          Runs->>= A _ _ (Runs-prepare_write expected _) λ before.
            Runs->>= A _ _ (Runs-compact_levels before rgb level roles _) λ desired.
              Runs->>= A _ _ (Runs-lift A (permute_channels (levels desired) false)) λ permuted.
                Runs->>= A _ _ (Runs-if A _ _ _ (Runs-wake_unchanged before) (λ c. Trace-refl A c))
                  λ guarded. levels_written guarded permuted
