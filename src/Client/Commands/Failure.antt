-- ===== src/Client/Commands/Failure.antt =====
-- What a failed command leaves behind, and that nothing is replayed after it.
use hahapent.Base.{
  ℕ, ◌≤◌, ◌<◌, ◌≡◌, ◌≢◌, ◌⊎◌, inl, inr, refl, ap, ◌∙◌, Bool, true, false, not, ◌&&◌, ◌||◌, List, [],
  ◌∷◌, Outcome, err, ◌==◌, arith,
}
use hahapent.Protocol.Frame.{Bytes}
use hahapent.Client.State.{DeviceState}
use hahapent.Client.Io.{
  compact_input, value_error, protocol, communication, connection_missing, closed_client, conflict,
  unsupported, refresh_required, os_failure, timeout, stopped, cancelled, Failure, Client, Io,
}
use hahapent.Client.Trace.{Runs}
use hahapent.Client.Execute.{execute}
use hahapent.Client.Execute.Outcomes.{execute-refused}
use hahapent.Client.Execute.Epochs.{execute-epoch}
use hahapent.Client.Execute.Lost.{IsLost, keeps_state, execute-IsLost}
use hahapent.Client.Execute.Refused.{IsKept, execute-refusal}
use hahapent.Client.Commands.{Command, perform, is_write}
use hahapent.Client.Commands.Frames.{Shape, perform-Shape, IsFrameOf}

-- The one exception that no handler of `_execute` sees.
abbrev pub is_uncaught : Failure → Bool
is_uncaught (value_error e) = true
is_uncaught _ = false

-- How a failed command that has begun leaves the client: a state that it read and refused, or nothing.
abbrev pub IsEnded : ℕ → Failure → Client → Type 0
IsEnded n e c = IsLost n c ⊎ ((s : DeviceState) × (e ≡ compact_input s) × IsKept n s c)

sort_failure :
    (e : Failure)
    → is_uncaught e ≡ false
    → (keeps_state e ≡ false) ⊎ ((s : DeviceState) × (e ≡ compact_input s))
sort_failure (compact_input s) h = inr (s, refl)
sort_failure (value_error e) h = absurd cc
sort_failure (protocol e) h = inl refl
sort_failure communication h = inl refl
sort_failure connection_missing h = inl refl
sort_failure closed_client h = inl refl
sort_failure conflict h = inl refl
sort_failure unsupported h = inl refl
sort_failure refresh_required h = inl refl
sort_failure os_failure h = inl refl
sort_failure timeout h = inl refl
sort_failure stopped h = inl refl
sort_failure cancelled h = inl refl

-- A command that raises anything but an uncaught ValueError of compact.py has changed nothing at all, or
-- it makes the epoch larger and leaves nothing known (no last state, and a refresh required before the
-- next write), unless it raises CompactInputError, which may keep the state that it carries as the last
-- one, with no refresh required.
pub perform-failure :
    (k : Command) (epoch : ℕ) (c : Client) (e : Failure)
    → (perform k epoch c).0 ≡ err e
    → is_uncaught e ≡ false
    → ((perform k epoch c).1 ≡ c) ⊎ IsEnded c.epoch e (perform k epoch c).1
unfolding Shape
perform-failure k epoch c e he hk = go (perform-Shape k epoch)
  where
    A : Bytes → Type 0
    A = IsFrameOf k

    stale : Bool
    stale = is_write k && (c.needs_refresh || not (epoch == c.epoch))

    refused :
        (operation : Io DeviceState)
        → perform k epoch c ≡ execute epoch (is_write k) operation c
        → (c.closed || stale) ≡ true
        → (perform k epoch c).1 ≡ c
    refused operation h ht =
        ap (λ (q : Outcome Failure DeviceState × Client). q.1)
          (h ∙ (execute-refused epoch (is_write k) operation c ht).1)

    ended :
        (operation : Io DeviceState)
        → Runs A operation
        → c.closed ≡ false
        → stale ≡ false
        → (execute epoch (is_write k) operation c).0 ≡ err e
        → (keeps_state e ≡ false) ⊎ ((s : DeviceState) × (e ≡ compact_input s))
        → IsEnded c.epoch e (execute epoch (is_write k) operation c).1
    ended operation r hb hs hx (inl kind) =
        inl (execute-IsLost A operation r epoch (is_write k) c e hb hs hx kind)
    ended operation r hb hs hx (inr (s, es)) =
        elim (execute-refusal A operation r epoch (is_write k) c s hb hs (hx ∙ ap err es)) [
          | inl kept ↦ inr (s, es, kept)
          | inr lost ↦ inl lost
        ]

    run :
        (operation : Io DeviceState)
        → Runs A operation
        → perform k epoch c ≡ execute epoch (is_write k) operation c
        → (b s : Bool) → c.closed ≡ b
        → stale ≡ s
        → ((perform k epoch c).1 ≡ c) ⊎ IsEnded c.epoch e (perform k epoch c).1
    run operation r h true s hb hs = inl (refused operation h (rw hb refl))
    run operation r h false true hb hs = inl (refused operation h (rw (hb, hs) refl))
    run operation r h false false hb hs =
        inr (rw h (ended operation r hb hs (rw⁻¹ h he) (sort_failure e hk)))

    go :
        Shape A epoch (is_write k) (perform k epoch)
        → ((perform k epoch c).1 ≡ c) ⊎ IsEnded c.epoch e (perform k epoch c).1
    go (inl (f, h)) = inl (rw (h c) refl)
    go (inr (operation, r, h)) = run operation r (h c) c.closed stale refl refl

perform-epoch : (k : Command) (epoch : ℕ) (c : Client) → c.epoch ≤ (perform k epoch c).1.epoch
unfolding Shape
perform-epoch k epoch c = go (perform-Shape k epoch)
  where
    go :
        Shape (IsFrameOf k) epoch (is_write k) (perform k epoch)
        → c.epoch ≤ (perform k epoch c).1.epoch
    go (inl (f, h)) = rw (h c) (omega arith)
    go (inr (operation, r, h)) =
        rw (h c) (execute-epoch (IsFrameOf k) operation r epoch (is_write k) c)

-- Commands one after the other, each with the epoch at its call.
unfoldable pub perform_all : List (Command × ℕ) → Client → Client
perform_all [] c = c
perform_all ((k, epoch) ∷ rest) c = perform_all rest (perform k epoch c).1

perform_all-epoch : (ks : List (Command × ℕ)) (c : Client) → c.epoch ≤ (perform_all ks c).epoch
unfolding perform_all
perform_all-epoch [] c = omega arith
perform_all-epoch ((k, epoch) ∷ rest) c =
    omega (arith, perform-epoch k epoch c, perform_all-epoch rest (perform k epoch c).1)

is_old :
    (closed write needs : Bool) (requested epoch : ℕ)
    → write ≡ true
    → requested < epoch
    → (closed || (write && (needs || not (requested == epoch)))) ≡ true
is_old closed write needs requested epoch hw hl = ground arith

stale-write :
    (k : Command) (epoch : ℕ) (c : Client)
    → is_write k ≡ true
    → epoch < c.epoch
    → (e : Failure) × (perform k epoch c ≡ (err e, c))
unfolding Shape
stale-write k epoch c hw hl = go (perform-Shape k epoch)
  where
    go :
        Shape (IsFrameOf k) epoch (is_write k) (perform k epoch)
        → (e : Failure) × (perform k epoch c ≡ (err e, c))
    go (inl (f, h)) = (f, h c)
    go (inr (operation, r, h)) =
        let (e, q) =
          execute-refused epoch (is_write k) operation c
            (is_old c.closed (is_write k) c.needs_refresh epoch c.epoch hw hl) in
        (e, h c ∙ q)

-- After a command that raised anything but an uncaught ValueError of compact.py, and that changed the
-- client, a write that was requested no later than that command began is never carried out: whatever
-- commands run in between, a refresh among them, the write raises and changes nothing, so it sends no
-- frame.
pub failure-voids_requests :
    (k : Command) (epoch : ℕ) (c : Client) (e : Failure)
    → (perform k epoch c).0 ≡ err e
    → is_uncaught e ≡ false
    → (perform k epoch c).1 ≢ c
    → (later : List (Command × ℕ)) (write : Command) (requested : ℕ) → is_write write ≡ true
    → requested ≤ c.epoch
    → let d = perform_all later (perform k epoch c).1 in
      (f : Failure) × (perform write requested d ≡ (err f, d))
failure-voids_requests k epoch c e he hk hc later write requested hw hr =
    after (perform-failure k epoch c e he hk)
  where
    failed : Client
    failed = (perform k epoch c).1

    Void : Type 0
    Void =
        (f : Failure) × (perform write requested (perform_all later failed)
          ≡ (err f, perform_all later failed))

    void : c.epoch < failed.epoch → Void
    void passed =
        stale-write write requested (perform_all later failed) hw
          (omega (arith, passed, perform_all-epoch later failed, hr))

    after : (failed ≡ c) ⊎ IsEnded c.epoch e failed → Void
    after (inl same) = absurd (hc same)
    after (inr (inl l)) = void l.passed
    after (inr (inr (_, _, k))) = void k.passed
