-- ===== src/Client/Execute/Lost.antt =====
-- What a failed transaction leaves behind.
use hahapent.Base.{
  ℕ, ◌≤◌, ◌<◌, ◌≡◌, ◌≢◌, refl, sym, ap, ◌∙◌, Bool, true, false, not, ◌&&◌, ◌||◌, Option, none, some,
  List, if◌then◌else◌, ◌==◌, Outcome, ok, err, arith,
}
use hahapent.Protocol.Frame.{Bytes}
use hahapent.Client.State.{DeviceState}
use hahapent.Client.Io.{
  Interruption, by_cancel, by_deadline, by_close, Event, Failure, compact_input, value_error,
  Client, Io, ◌>>◌, invalidate, interrupt, close_now,
}
use hahapent.Client.Trace.{IsMarked, Trace, Runs, Runs->>=}
use hahapent.Client.Transport.{connect}
use hahapent.Client.Transport.Sends.{Runs-connect}
use hahapent.Client.Execute.{
  handle, conclude, close_connection, last_disconnect, keep_result, close_transaction, started,
  execute,
}
use hahapent.Client.Execute.Outcomes.{execute-started}
use hahapent.Client.Execute.Epochs.{conclude-epoch}

-- Nothing is known of the device, and every request up to the epoch `n` is out of date.
pub record IsLost (n : ℕ) (c : Client) : Type 0 where
  pub unknown : c.last_state ≡ none
  pub stale : c.needs_refresh ≡ true
  pub passed : n < c.epoch

-- The two exceptions after which the client keeps a state.
abbrev pub keeps_state : Failure → Bool
keeps_state (compact_input s) = true
keeps_state (value_error e) = true
keeps_state _ = false

pub IsLost-interrupt :
    (n : ℕ) (how : Interruption) (c : Client) → n ≤ c.epoch → IsLost n (interrupt how c)
unfolding interrupt invalidate close_now
IsLost-interrupt n by_cancel c h = record { unknown = refl; stale = refl; passed = omega arith }
IsLost-interrupt n by_deadline c h = record { unknown = refl; stale = refl; passed = omega arith }
IsLost-interrupt n by_close c h = record { unknown = refl; stale = refl; passed = omega arith }

IsLost-handle :
    (n : ℕ) (e : Failure) (c : Client) (e' : Failure)
    → n ≤ c.epoch
    → (handle e c).0 ≡ err e'
    → keeps_state e' ≡ false
    → IsLost n (handle e c).1
unfolding handle invalidate
IsLost-handle n e c e' h he k = record {
  unknown = ground arith;
  stale = ground arith;
  passed = ground arith;
}

conclude_ok : (s : DeviceState) (c : Client) → c.outer ≡ none → conclude (ok s, c) ≡ (ok s, c)
unfolding conclude
conclude_ok s c h = simp h

conclude_err : (e : Failure) (c : Client) → c.outer ≡ none → conclude (err e, c) ≡ handle e c
unfolding conclude
conclude_err e c h = simp h

ok-not-err : (s : DeviceState) (e : Failure) → ok s ≢ err e
ok-not-err s e h = cc

IsLost-conclude :
    (n : ℕ) (r : Outcome Failure DeviceState) (c : Client) (e' : Failure)
    → n ≤ c.epoch
    → (c.outer ≢ none → IsLost n c)
    → (conclude (r, c)).0 ≡ err e'
    → keeps_state e' ≡ false
    → IsLost n (conclude (r, c)).1
unfolding conclude
IsLost-conclude n r c e' h hd = go c.outer refl r
  where
    go :
        (o : Option Interruption)
        → c.outer ≡ o
        → (r : Outcome Failure DeviceState) → (conclude (r, c)).0 ≡ err e'
        → keeps_state e' ≡ false
        → IsLost n (conclude (r, c)).1
    go (some by_deadline) ho r he k = rw (ho, conclude) (hd (λ q. cc))
    go (some by_cancel) ho r he k = rw (ho, conclude) (hd (λ q. cc))
    go (some by_close) ho r he k = rw (ho, conclude) (hd (λ q. cc))
    go none ho (ok s) he k = absurd (
        ok-not-err s e'
          (sym (ap (λ (q : Outcome Failure DeviceState × Client). q.0) (conclude_ok s c ho)) ∙ he))
    go none ho (err e) he k =
        rw (ho, conclude)
          (IsLost-handle n e c e' h
            (sym (ap (λ (q : Outcome Failure DeviceState × Client). q.0) (conclude_err e c ho))
              ∙ he)
            k)

IsLost-close_connection :
    (n : ℕ) (es : List Event) (c : Client) → IsLost n c → IsLost n (close_connection es c).1
unfolding close_connection interrupt close_now invalidate
IsLost-close_connection n es c h = record {
  unknown = ground (arith, h.unknown);
  stale = ground (arith, h.stale);
  passed = ground (arith, h.passed);
}

IsLost-broken :
    (n : ℕ) (es : List Event) (c : Client)
    → n ≤ c.epoch
    → (close_connection es c).0 ≡ false
    → IsLost n (close_connection es c).1
unfolding close_connection interrupt close_now invalidate
IsLost-broken n es c h hb = record {
  unknown = ground arith;
  stale = ground arith;
  passed = ground arith;
}

IsLost-closing :
    (n : ℕ) (r : Outcome Failure DeviceState) (c : Client) (e' : Failure)
    → n ≤ c.epoch
    → (r ≡ err e' → IsLost n c)
    → (close_transaction (r, c)).0 ≡ err e'
    → IsLost n (close_transaction (r, c)).1
unfolding close_transaction last_disconnect keep_result
IsLost-closing n r c e' h hl he = kept r (last_disconnect c) broken (λ q. dropped (hl q)) he
  where
    dropped : IsLost n c → IsLost n (last_disconnect c).1
    dropped l = go c.connected
      where
        go :
            (b : Bool)
            → IsLost n
                (if b
                  then close_connection c.events (record c { connected = false })
                  else (true, c)).1
        go true =
            IsLost-close_connection n c.events (record c { connected = false })
              (record { unknown = l.unknown; stale = l.stale; passed = l.passed })
        go false = l

    broken : (last_disconnect c).0 ≡ false → IsLost n (last_disconnect c).1
    broken = go c.connected
      where
        go :
            (b : Bool)
            → (if b
                then close_connection c.events (record c { connected = false })
                else (true, c)).0
              ≡ false
            → IsLost n
                (if b
                  then close_connection c.events (record c { connected = false })
                  else (true, c)).1
        go true hb = IsLost-broken n c.events (record c { connected = false }) h hb
        go false hb = cc

    over : (d : Client) → IsLost n d → IsLost n (record d { operation_epoch = none })
    over d l = record { unknown = l.unknown; stale = l.stale; passed = l.passed }

    kept :
        (r : Outcome Failure DeviceState) (q : Bool × Client)
        → (q.0 ≡ false → IsLost n q.1)
        → (r ≡ err e' → IsLost n q.1)
        → (keep_result r q).0 ≡ err e'
        → IsLost n (keep_result r q).1
    kept r (false, d) hb hd he = over d (hb refl)
    kept (err e) (true, d) hb hd he = over d (hd he)
    kept (ok s) (true, d) hb hd he = absurd (ok-not-err s e' he)

-- An operation that started and failed, but for the two exceptions that keep a state, leaves nothing
-- known: the next write needs a refresh, and every request of an earlier epoch is void.
pub execute-IsLost :
    (A : Bytes → Type 0) (operation : Io DeviceState)
    → Runs A operation
    → (call_epoch : ℕ) (write : Bool) (c : Client) (e : Failure) → c.closed ≡ false
    → (write && (c.needs_refresh || not (call_epoch == c.epoch))) ≡ false
    → (execute call_epoch write operation c).0 ≡ err e
    → keeps_state e ≡ false
    → IsLost c.epoch (execute call_epoch write operation c).1
execute-IsLost A operation h call_epoch write c e hc hw he k =
    rw (execute-started call_epoch write operation c hc hw) (
      IsLost-closing c.epoch (conclude run).0 (conclude run).1 e
        (omega (arith, whole.later, conclude-epoch run.0 run.1))
        (λ q. IsLost-conclude c.epoch run.0 run.1 e whole.later after_run q k)
        (sym (
            ap (λ (q : Outcome Failure DeviceState × Client). q.0)
              (execute-started call_epoch write operation c hc hw))
          ∙ he))
  where
    run : Outcome Failure DeviceState × Client
    run = (connect >> operation) (started c)

    whole : Trace A (started c) run.1
    whole = Runs->>= A connect (λ _. operation) (Runs-connect A) (λ _. h) (started c)

    marked : IsMarked run.1
    marked = whole.marked (record { begun = λ f hf. ground arith; dropped = λ n. absurd (n refl) })

    after_run : run.1.outer ≢ none → IsLost c.epoch run.1
    after_run n =
        let k = marked.dropped n in
        record { unknown = k.unknown; stale = k.stale; passed = k.late c.epoch whole.same }
