-- ===== src/Client/Commands/Frames.antt =====
-- The shape of a command: a check of its arguments, then one transaction; and the frames it sends.
use mathlib.Core.List.{append-nil}
use hahapent.Base.{
  ℕ, ◌≡◌, ◌⊎◌, inl, inr, refl, sym, Bool, true, false, Option, none, some, List, [], ◌++◌, All,
  Outcome, ok, err, ◌==◌, arith,
}
use hahapent.Base.Value.{Value, of_ℕ, int_upto}
use hahapent.Protocol.Frame.{
  Bytes, ProtocolError, mode_shutdown, is_control_mode, system_query, channel_query,
  channel_write_frame, mode_frame, validate_percentage, permute_channels,
}
use hahapent.Compact.Roles.{CompactError, validate_roles, validate_rgb, validate_intensity}
use hahapent.Compact.Recipe.{any_nonzero}
use hahapent.Client.State.{DeviceState}
use hahapent.Client.Io.{Failure, protocol, Client, Io, pure, ◌>>=◌, lift_protocol, require}
use hahapent.Client.Transport.Sends.{Runs-read_state}
use hahapent.Client.Trace.{Runs}
use hahapent.Client.Execute.{execute}
use hahapent.Client.Execute.Outcomes.{execute-frames}
use hahapent.Client.Operations.{
  refresh, set_channel, set_mode, set_compact, turn_off, turn_on, saved_mix, demand, checked,
  optional, control_mode,
}
use hahapent.Client.Operations.Bodies.{
  Runs-mode_operation, Runs-off_operation, Runs-channel_operation, Runs-on_operation,
  Runs-compact_operation,
}
use hahapent.Client.Commands.{
  Command, refresh_call, set_channel_call, set_mode_call, set_compact_call, turn_off_call,
  turn_on_call, perform, is_write,
}

-- An action that looks at its arguments only.
IsCheck : {B : Type 0} → Io B → Type 0
IsCheck {B = B} m =
    ((b : B) × ((c : Client) → m c ≡ (ok b, c)))
    ⊎ ((e : Failure) × ((c : Client) → m c ≡ (err e, c)))

-- A refusal that changes nothing, or one transaction.
unfoldable pub Shape : (Bytes → Type 0) → ℕ → Bool → Io DeviceState → Type 0
Shape A epoch write m =
    ((e : Failure) × ((c : Client) → m c ≡ (err e, c)))
    ⊎ ((operation : Io DeviceState) × Runs A operation
        × ((c : Client) → m c ≡ execute epoch write operation c))

lift-IsCheck : {B : Type 0} (o : Outcome ProtocolError B) → IsCheck (lift_protocol o)
unfolding IsCheck
lift-IsCheck (ok b) = inl (b, λ c. refl)
lift-IsCheck (err e) = inr (protocol e, λ c. refl)

demand-IsCheck : (e : ProtocolError) (o : Option ℕ) → IsCheck (demand e o)
unfolding IsCheck
demand-IsCheck e none = inr (protocol e, λ c. refl)
demand-IsCheck e (some n) = inl (n, λ c. refl)

require-IsCheck : (b : Bool) (f : Failure) → IsCheck (require b f)
unfolding IsCheck
require-IsCheck true f = inl (tt, λ c. refl)
require-IsCheck false f = inr (f, λ c. refl)

bind-IsCheck :
    {B C : Type 0} (m : Io B) (f : B → Io C)
    → IsCheck m
    → ((b : B) → IsCheck (f b))
    → IsCheck (m >>= f)
unfolding IsCheck ◌>>=◌
bind-IsCheck m f (inr (e, h)) hf = inr (e, λ c. rw (h c) refl)
bind-IsCheck m f (inl (b, h)) hf = bound (hf b)
  where
    bound : IsCheck (f b) → IsCheck (m >>= f)
    bound (inl (d, k)) = inl (d, λ c. rw (h c) (k c))
    bound (inr (e, k)) = inr (e, λ c. rw (h c) (k c))

bind-Shape :
    {B : Type 0} (A : Bytes → Type 0) (epoch : ℕ) (write : Bool) (m : Io B) (f : B → Io DeviceState)
    → IsCheck m
    → ((b : B) → Shape A epoch write (f b))
    → Shape A epoch write (m >>= f)
unfolding IsCheck Shape ◌>>=◌
bind-Shape A epoch write m f (inr (e, h)) hf = inl (e, λ c. rw (h c) refl)
bind-Shape A epoch write m f (inl (b, h)) hf = bound (hf b)
  where
    bound : Shape A epoch write (f b) → Shape A epoch write (m >>= f)
    bound (inl (e, k)) = inl (e, λ c. rw (h c) (k c))
    bound (inr (operation, r, k)) = inr (operation, r, λ c. rw (h c) (k c))

pure-IsCheck : {B : Type 0} (b : B) → IsCheck (pure b)
unfolding IsCheck
pure-IsCheck b = inl (b, λ c. refl)

saved_mix-IsCheck : (e : ProtocolError) (o : Option (List Value)) → IsCheck (saved_mix e o)
unfolding saved_mix
saved_mix-IsCheck e none = pure-IsCheck none
saved_mix-IsCheck e (some values) =
    bind-IsCheck _ _ (lift-IsCheck (permute_channels values false)) λ saved.
      bind-IsCheck _ _ (require-IsCheck (any_nonzero saved) (protocol e))
        λ _. pure-IsCheck (some saved)

checked-IsCheck : {B : Type 0} (o : Outcome CompactError B) → IsCheck (checked o)
unfolding IsCheck
checked-IsCheck (ok b) = inl (b, λ c. refl)
checked-IsCheck (err e) = inr (_, λ c. refl)

optional-IsCheck :
    {B : Type 0} (validate : Value → Outcome CompactError B) (o : Option Value)
    → IsCheck (optional validate o)
optional-IsCheck validate none = pure-IsCheck none
optional-IsCheck validate (some value) =
    bind-IsCheck _ _ (checked-IsCheck (validate value)) λ a. pure-IsCheck (some a)

-- The modes that a command may select.
abbrev pub sets_mode : Command → ℕ → Bool
sets_mode refresh_call mode = false
sets_mode (turn_off_call expected) mode = mode == mode_shutdown
sets_mode _ mode = is_control_mode mode

abbrev pub writes_levels : Command → Bool
writes_levels (set_channel_call index value expected) = true
writes_levels (set_compact_call rgb intensity roles saved expected) = true
writes_levels (turn_on_call saved expected) = true
writes_levels _ = false

-- The frames that a command may send.
pub data IsFrameOf (k : Command) (f : Bytes) : Type 0 where
  reads_system : f ≡ system_query → IsFrameOf k f
  reads_channels : f ≡ channel_query → IsFrameOf k f
  selects : (mode : ℕ) → sets_mode k mode ≡ true → mode_frame (of_ℕ mode) ≡ ok f → IsFrameOf k f
  writes :
      (desired : List ℕ) (swap : Bool)
      → writes_levels k ≡ true
      → channel_write_frame desired swap ≡ ok f
      → IsFrameOf k f

transaction :
    (A : Bytes → Type 0) (epoch : ℕ) (write : Bool) (operation : Io DeviceState)
    → Runs A operation
    → Shape A epoch write (execute epoch write operation)
unfolding Shape
transaction A epoch write operation h = inr (operation, h, λ c. refl)

-- The rest of a command may use that the argument was in range.
demand-Shape :
    (A : Bytes → Type 0) (epoch : ℕ) (write : Bool) (e : ProtocolError) (o : Option ℕ)
    (f : ℕ → Io DeviceState)
    → ((n : ℕ) → o ≡ some n → Shape A epoch write (f n))
    → Shape A epoch write (demand e o >>= f)
unfolding Shape ◌>>=◌
demand-Shape A epoch write e none f hf = inl (protocol e, λ c. refl)
demand-Shape A epoch write e (some n) f hf = hf n refl

control_mode-some : (o : Option ℕ) (m : ℕ) → control_mode o ≡ some m → is_control_mode m ≡ true
control_mode-some o m h = ground arith

pub perform-Shape :
    (k : Command) (epoch : ℕ) → Shape (IsFrameOf k) epoch (is_write k) (perform k epoch)
unfolding perform refresh set_channel set_mode set_compact turn_off turn_on
perform-Shape refresh_call epoch =
    transaction _ _ _ _
      (Runs-read_state (IsFrameOf refresh_call) (reads_system refl) (reads_channels refl))
perform-Shape (set_channel_call index value expected) epoch =
    bind-Shape _ _ _ _ _ (demand-IsCheck _ _) λ i.
      bind-Shape _ _ _ _ _ (lift-IsCheck (validate_percentage value)) λ v. transaction _ _ _ _ (
        Runs-channel_operation (IsFrameOf _) (reads_system refl) (reads_channels refl)
          (λ mode f h. selects mode h) (λ desired swap f. writes desired swap refl) i v expected)
perform-Shape (set_mode_call mode expected) epoch = demand-Shape _ _ _ _ _ _ λ m hm.
    transaction _ _ _ _ (
      Runs-mode_operation (IsFrameOf _) (reads_system refl) (reads_channels refl) m expected
        (λ f. selects m (control_mode-some (int_upto 255 mode) m hm)))
perform-Shape (set_compact_call rgb intensity roles saved expected) epoch =
    bind-Shape _ _ _ _ _ (checked-IsCheck (validate_roles roles)) λ roles.
      bind-Shape _ _ _ _ _ (optional-IsCheck validate_rgb rgb) λ rgb.
        bind-Shape _ _ _ _ _ (optional-IsCheck validate_intensity intensity) λ level.
          bind-Shape _ _ _ _ _ (require-IsCheck _ _) λ _.
            bind-Shape _ _ _ _ _ (require-IsCheck _ _) λ _.
              bind-Shape _ _ _ _ _ (saved_mix-IsCheck _ saved) λ saved. transaction _ _ _ _ (
                Runs-compact_operation (IsFrameOf _) (reads_system refl) (reads_channels refl)
                  (λ mode f h. selects mode h) (λ desired swap f. writes desired swap refl) rgb
                  level roles saved expected)
perform-Shape (turn_off_call expected) epoch = transaction _ _ _ _ (
    Runs-off_operation (IsFrameOf _) (reads_system refl) (reads_channels refl) expected
      (λ f. selects mode_shutdown refl))
perform-Shape (turn_on_call saved expected) epoch =
    bind-Shape _ _ _ _ _ (saved_mix-IsCheck _ saved) λ saved. transaction _ _ _ _ (
      Runs-on_operation (IsFrameOf _) (reads_system refl) (reads_channels refl)
        (λ mode f h. selects mode h) (λ desired swap f. writes desired swap refl) saved expected)

-- Whatever the network and the other tasks do, a command adds to the frames sent only these: the two
-- queries; the mode frames that it is for, so Shutdown for `turn_off` and Automatic or Manual for the
-- other writes; and channel frames for `set_channel`, `set_compact` and `turn_on`. `refresh` sends
-- queries only.
pub perform-frames :
    (k : Command) (epoch : ℕ) (c : Client)
    → (frames : List Bytes) × ((perform k epoch c).1.sent ≡ c.sent ++ frames)
      × All (IsFrameOf k) frames
unfolding Shape
perform-frames k epoch c = go (perform-Shape k epoch)
  where
    go :
        Shape (IsFrameOf k) epoch (is_write k) (perform k epoch)
        → (frames : List Bytes) × ((perform k epoch c).1.sent ≡ c.sent ++ frames)
          × All (IsFrameOf k) frames
    go (inl (e, h)) = rw (h c) ([], sym (append-nil c.sent), tt)
    go (inr (operation, r, h)) =
        rw (h c) (execute-frames (IsFrameOf k) operation r epoch (is_write k) c)
