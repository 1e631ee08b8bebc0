-- ===== src/Client/Operations/Fresh.antt =====
-- client.py: what `_prepare_write` returns is the reading that it has just made.
use hahapent.Base.{◌≡◌, refl, Bool, true, false, not, ◌&&◌, ◌||◌, ◌==◌, Option, Outcome, ok, err}
use hahapent.Protocol.Frame.{mode_automatic}
use hahapent.Protocol.Reply.{write_supported, power_supported}
use hahapent.Client.State.{DeviceState}
use hahapent.Client.Io.{
  Failure, conflict, unsupported, Client, Io, pure, ◌>>=◌, ◌>>◌, require, continue,
}
use hahapent.Client.Transport.{connect, read_state}
use hahapent.Client.Execute.{started}
use hahapent.Client.Guards.{
  or_last, prepare_write, admitted, same_system, same_channels, is_allowed_mode,
}

-- The connection that a call of `_execute` opens, and the reading on it that `_prepare_write` admits.
abbrev pub IsFresh : Option DeviceState → Bool → Client → DeviceState → Client → Client → Type 0
IsFresh expected power c before d d' =
    (connect (started c) ≡ (ok tt, d))
    × (read_state d ≡ (ok before, d'))
    × (prepare_write expected power d ≡ (ok before, d'))

required :
    (t : Bool) (e : Failure) (m : Io DeviceState) (c d : Client) (b : DeviceState)
    → (require t e >> m) c ≡ (ok b, d)
    → m c ≡ (ok b, d)
unfolding ◌>>=◌
required true e m c d b h = h
required false e m c d b h = cc

same_pair : (a b : DeviceState) (c d : Client) → pure a c ≡ (ok b, d) → (a ≡ b) × (c ≡ d)
same_pair a b c d h = (cc, cc)

admitted-reading :
    (previous : Option DeviceState) (power : Bool) (before b : DeviceState) (c d : Client)
    → admitted previous power before c ≡ (ok b, d)
    → (before ≡ b) × (c ≡ d)
admitted-reading previous power before b c d h0 =
    let h1 = required (same_system previous before) conflict _ c d b h0 in
    let h2 =
      required (before.system.mode_raw == mode_automatic || same_channels previous before) conflict
        _ c d b h1 in
    let h3 =
      required (write_supported before.system && is_allowed_mode power before.system.mode_raw)
        unsupported _ c d b h2 in
    let h4 = required (not power || power_supported before.system) unsupported _ c d b h3 in
    same_pair before b c d h4

pub prepare_write-reading :
    (expected : Option DeviceState) (power : Bool) (before : DeviceState) (c d : Client)
    → prepare_write expected power c ≡ (ok before, d)
    → read_state c ≡ (ok before, d)
unfolding prepare_write ◌>>=◌
prepare_write-reading expected power before c d h = go (read_state c) h
  where
    go :
        (r : Outcome Failure DeviceState × Client)
        → continue r (admitted (or_last expected c) power) ≡ (ok before, d)
        → r ≡ (ok before, d)
    go (ok a, q) h =
        let (e, f) = admitted-reading (or_last expected c) power a before q d h in rw (e, f) refl
    go (err e, q) h = cc
