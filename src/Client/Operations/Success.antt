-- ===== src/Client/Operations/Success.antt =====
-- What holds of the state that a successful operation returns.
use hahapent.Base.{
  ℕ, ◌≡◌, refl, Bool, true, false, ◌&&◌, List, [], ◌∷◌, length, ◌==◌, Outcome, ok, err, arith,
}
use hahapent.Base.Value.{of_ℕ}
use hahapent.Protocol.Frame.{
  Bytes, ProtocolError, mode_manual, channel_write_frame, mode_frame, permute_channels,
}
use hahapent.Protocol.Reply.{bytes_eq_iff}
use hahapent.Client.State.{DeviceState, channels_eq}
use hahapent.Client.Io.{
  Failure, conflict, Client, Io, pure, ◌>>=◌, ◌>>◌, continue, lift_protocol, require,
}
use hahapent.Client.Transport.{send, quarantine}
use hahapent.Client.Guards.{same_profile, readback}
use hahapent.Client.Operations.{write_levels, switch_mode}

-- A bind that returns: what came first, and from where the rest returns.
continue-ok :
    {A B : Type 0} (r : Outcome Failure A × Client) (f : A → Io B) (b : B)
    → (continue r f).0 ≡ ok b
    → (a : A) × (d : Client) × (r ≡ (ok a, d)) × ((f a d).0 ≡ ok b)
continue-ok (ok a, d) f b h = (a, d, refl, h)
continue-ok (err e, d) f b h = cc

pub bind-ok :
    {A B : Type 0} (m : Io A) (f : A → Io B) (c : Client) (b : B)
    → ((m >>= f) c).0 ≡ ok b
    → (a : A) × (d : Client) × (m c ≡ (ok a, d)) × ((f a d).0 ≡ ok b)
unfolding ◌>>=◌
bind-ok m f c b h = continue-ok (m c) f b h

pub require-ok :
    {B : Type 0} (t : Bool) (e : Failure) (m : Io B) (c : Client) (b : B)
    → ((require t e >> m) c).0 ≡ ok b
    → (t ≡ true) × ((m c).0 ≡ ok b)
unfolding ◌>>=◌
require-ok true e m c b h = (refl, h)
require-ok false e m c b h = cc

lift-ok :
    {A B : Type 0} (o : Outcome ProtocolError A) (f : A → Io B) (c : Client) (b : B)
    → ((lift_protocol o >>= f) c).0 ≡ ok b
    → (a : A) × (o ≡ ok a) × ((f a c).0 ≡ ok b)
unfolding ◌>>=◌
lift-ok (ok a) f c b h = (a, refl, h)
lift-ok (err e) f c b h = cc

pub pure-ok : (s s' : DeviceState) (c : Client) → (pure s c).0 ≡ ok s' → s ≡ s'
pure-ok s s' c h = cc

pub switch_mode-ok :
    (before : DeviceState) (mode : ℕ) (c : Client) (s : DeviceState)
    → (switch_mode before mode c).0 ≡ ok s
    → s.system.mode_raw ≡ mode
unfolding switch_mode
switch_mode-ok before mode c s h0 =
    let (command, _, h1) = lift-ok (mode_frame (of_ℕ mode)) _ c s h0 in
    let (_, c2, _, h2) = bind-ok (send command) _ c s h1 in
    let (after, c3, _, h3) = bind-ok (readback before mode (command ∷ [])) _ c2 s h2 in
    let (_, h4) = require-ok (same_profile before.system after.system) conflict _ c3 s h3 in
    let (t, h5) = require-ok (after.system.mode_raw == mode) conflict (pure after) c3 s h4 in
    mode_of after t (pure-ok after s c3 h5)
  where
    mode_of :
        (after : DeviceState)
        → (after.system.mode_raw == mode) ≡ true
        → after ≡ s
        → s.system.mode_raw ≡ mode
    mode_of after t e = rw⁻¹ e (ground arith)

six-levels :
    (xs : List ℕ) (swap : Bool) (f : Bytes) → channel_write_frame xs swap ≡ ok f → length xs ≡ 6
unfolding channel_write_frame permute_channels
six-levels [] swap f h = cc
six-levels (_ ∷ []) swap f h = cc
six-levels (_ ∷ _ ∷ []) swap f h = cc
six-levels (_ ∷ _ ∷ _ ∷ []) swap f h = cc
six-levels (_ ∷ _ ∷ _ ∷ _ ∷ []) swap f h = cc
six-levels (_ ∷ _ ∷ _ ∷ _ ∷ _ ∷ []) swap f h = cc
six-levels (_ ∷ _ ∷ _ ∷ _ ∷ _ ∷ _ ∷ []) swap f h = refl
six-levels (_ ∷ _ ∷ _ ∷ _ ∷ _ ∷ _ ∷ _ ∷ _) swap f h = cc

compared :
    (after s : DeviceState) (desired : List ℕ)
    → (after.system.mode_raw == mode_manual && channels_eq after.channels desired) ≡ true
    → after ≡ s
    → (s.system.mode_raw ≡ mode_manual) × (s.channels ≡ desired)
compared after s desired t e =
    rw⁻¹ e (ground arith, ground (arith, bytes_eq_iff after.channels desired))

pub write_levels-ok :
    (before : DeviceState) (desired : List ℕ) (c : Client) (s : DeviceState)
    → (write_levels before desired c).0 ≡ ok s
    → (s.system.mode_raw ≡ mode_manual) × (s.channels ≡ desired) × (length desired ≡ 6)
unfolding write_levels
write_levels-ok before desired c s h0 =
    let (command, hf, h1) = lift-ok (channel_write_frame desired before.system.swap_cd) _ c s h0 in
    let (manual, _, h2) = lift-ok (mode_frame (of_ℕ mode_manual)) _ c s h1 in
    let (_, c3, _, h3) = bind-ok (send command) _ c s h2 in
    let (_, c4, _, h4) = bind-ok (quarantine (command ∷ [])) _ c3 s h3 in
    let (_, c5, _, h5) = bind-ok (send manual) _ c4 s h4 in
    let (after, c6, _, h6) =
      bind-ok (readback before mode_manual (command ∷ manual ∷ [])) _ c5 s h5 in
    let (_, h7) = require-ok (same_profile before.system after.system) conflict _ c6 s h6 in
    let (t, h8) =
      require-ok (after.system.mode_raw == mode_manual && channels_eq after.channels desired)
        conflict (pure after) c6 s h7 in
    let (m, l) = compared after s desired t (pure-ok after s c6 h8) in
    (m, l, six-levels desired before.system.swap_cd command hf)
