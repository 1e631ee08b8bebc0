-- ===== src/Client/Execute/Refused.antt =====
-- client.py: what a transaction leaves behind that ends by CompactInputError.
use hahapent.Base.{
  ℕ, ◌≤◌, ◌<◌, [], ◌∷◌, ◌≡◌, ◌⊎◌, inl, inr, refl, sym, ap, ◌∙◌, Bool, true, false, not, ◌&&◌, ◌||◌,
  none, some, List, if◌then◌else◌, ◌==◌, Outcome, ok, err, arith,
}
use hahapent.Protocol.Frame.{Bytes}
use hahapent.Client.State.{DeviceState}
use hahapent.Client.Io.{
  by_cancel, by_deadline, by_close, done, timed_out, os_error, revoked, Event, Failure,
  compact_input, Client, Io, ◌>>◌, invalidate, close_now,
}
use hahapent.Client.Trace.{Trace, Runs, Runs->>=}
use hahapent.Client.Transport.{connect}
use hahapent.Client.Transport.Sends.{Runs-connect}
use hahapent.Client.Execute.{
  handle, conclude, close_connection, last_disconnect, keep_result, close_transaction, started,
  execute,
}
use hahapent.Client.Execute.Outcomes.{execute-started}
use hahapent.Client.Execute.Lost.{IsLost, IsLost-interrupt}

-- The state that was read is the last one, no refresh is required, and every request up to the epoch `n`
-- is out of date.
pub record IsKept (n : ℕ) (s : DeviceState) (c : Client) : Type 0 where
  pub known : c.last_state ≡ some s
  pub usable : c.needs_refresh ≡ false
  pub passed : n < c.epoch

IsKept-conclude :
    (n : ℕ) (s : DeviceState) (r : Outcome Failure DeviceState) (c : Client)
    → n ≤ c.epoch
    → (conclude (r, c)).0 ≡ err (compact_input s)
    → IsKept n s (conclude (r, c)).1
unfolding conclude handle invalidate
IsKept-conclude n s r c h he = record {
  known = ground arith;
  usable = ground arith;
  passed = ground arith;
}

moved :
    (n : ℕ) (s : DeviceState) (c : Client) (es : List Event)
    → IsKept n s c
    → IsKept n s (record c { events = es })
moved n s c es h = record { known = h.known; usable = h.usable; passed = h.passed }

-- A revocation that wins the race at the last disconnection voids the state as well.
kept-closing :
    (n : ℕ) (s : DeviceState) (es : List Event) (c : Client)
    → IsKept n s c
    → IsKept n s (close_connection es c).1 ⊎ IsLost n (close_connection es c).1
unfolding close_connection close_now invalidate
kept-closing n s [] c h = inl h
kept-closing n s (done d ∷ es) c h = inl (moved n s c es h)
kept-closing n s (timed_out ∷ es) c h = inl (moved n s c es h)
kept-closing n s (os_error ∷ es) c h = inl (moved n s c es h)
kept-closing n s (revoked how none ∷ es) c h =
    inr (IsLost-interrupt n how (record c { events = es }) (omega (arith, h.passed)))
kept-closing n s (revoked by_close (some d) ∷ es) c h =
    inr (record { unknown = refl; stale = refl; passed = omega (arith, h.passed) })
kept-closing n s (revoked by_cancel (some d) ∷ es) c h = inl (moved n s c es h)
kept-closing n s (revoked by_deadline (some d) ∷ es) c h = inl (moved n s c es h)

refused_result :
    (s : DeviceState) (r : Outcome Failure DeviceState) (q : Bool × Client)
    → (keep_result r q).0 ≡ err (compact_input s)
    → (r ≡ err (compact_input s)) × ((keep_result r q).1 ≡ record q.1 { operation_epoch = none })
unfolding keep_result
refused_result s r (false, d) h = cc
refused_result s (err e) (true, d) h = (h, refl)
refused_result s (ok t) (true, d) h = cc

refused-closing :
    (n : ℕ) (s : DeviceState) (r : Outcome Failure DeviceState) (c : Client)
    → (r ≡ err (compact_input s) → IsKept n s c)
    → (close_transaction (r, c)).0 ≡ err (compact_input s)
    → IsKept n s (close_transaction (r, c)).1 ⊎ IsLost n (close_transaction (r, c)).1
unfolding close_transaction
refused-closing n s r c hk he =
    let (hr, e) = refused_result s r (last_disconnect c) he in
    rw e (over (last_disconnect c).1 (closed (hk hr)))
  where
    Ended : Client → Type 0
    Ended d = IsKept n s d ⊎ IsLost n d

    over : (d : Client) → Ended d → Ended (record d { operation_epoch = none })
    over d (inl k) = inl (record { known = k.known; usable = k.usable; passed = k.passed })
    over d (inr l) = inr (record { unknown = l.unknown; stale = l.stale; passed = l.passed })

    closed : IsKept n s c → Ended (last_disconnect c).1
    closed k = go c.connected
      where
        go :
            (b : Bool)
            → Ended
                (if b
                  then close_connection c.events (record c { connected = false })
                  else (true, c)).1
        go true =
            kept-closing n s c.events (record c { connected = false })
              (record { known = k.known; usable = k.usable; passed = k.passed })
        go false = inl k

-- An operation that started and ended by CompactInputError keeps the state that was read, unless a
-- revocation came at its end; every request of an earlier epoch is void all the same.
pub execute-refusal :
    (A : Bytes → Type 0) (operation : Io DeviceState)
    → Runs A operation
    → (call_epoch : ℕ) (write : Bool) (c : Client) (s : DeviceState) → c.closed ≡ false
    → (write && (c.needs_refresh || not (call_epoch == c.epoch))) ≡ false
    → (execute call_epoch write operation c).0 ≡ err (compact_input s)
    → IsKept c.epoch s (execute call_epoch write operation c).1
      ⊎ IsLost c.epoch (execute call_epoch write operation c).1
execute-refusal A operation h call_epoch write c s hc hw he =
    let e = execute-started call_epoch write operation c hc hw in
    rw e (
      refused-closing c.epoch s (conclude run).0 (conclude run).1
        (λ q. IsKept-conclude c.epoch s run.0 run.1 whole.later q)
        (sym (ap (λ (q : Outcome Failure DeviceState × Client). q.0) e) ∙ he))
  where
    run : Outcome Failure DeviceState × Client
    run = (connect >> operation) (started c)

    whole : Trace A (started c) run.1
    whole = Runs->>= A connect (λ _. operation) (Runs-connect A) (λ _. h) (started c)
