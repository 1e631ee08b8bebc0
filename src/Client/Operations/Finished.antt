-- ===== src/Client/Operations/Finished.antt =====
-- What `set_channel` and `turn_off` promise when they return.
use hahapent.Base.{
  ℕ, ◌≡◌, ◌≢◌, ◌⊎◌, inl, inr, refl, sym, ap, ◌∙◌, Bool, true, false, not, ◌&&◌, ◌||◌, Option, none,
  some, ◌==◌, if◌then◌else◌, Outcome, ok, err, arith,
}
use hahapent.Base.Value.{Value}
use hahapent.Protocol.Frame.{ProtocolError}
use hahapent.Client.State.{DeviceState}
use hahapent.Client.Io.{Failure, Client, Io, pure, ◌>>=◌, ◌>>◌, lift_protocol}
use hahapent.Client.Transport.{connect}
use hahapent.Client.Execute.{
  execute, handle, conclude, last_disconnect, keep_result, close_transaction, started,
}
use hahapent.Client.Execute.Outcomes.{execute-refused, execute-started}
use hahapent.Client.Operations.Success.{bind-ok, pure-ok}
use hahapent.Client.Operations.{demand}

ok-not-err : (s : DeviceState) (e : Failure) → ok s ≢ err e
ok-not-err s e h = cc

conclude-ok :
    (r : Outcome Failure DeviceState) (c : Client) (s : DeviceState)
    → (conclude (r, c)).0 ≡ ok s
    → r ≡ ok s
unfolding conclude handle
conclude-ok r c s h = ground arith

closing-ok :
    (r : Outcome Failure DeviceState) (c : Client) (s : DeviceState)
    → (close_transaction (r, c)).0 ≡ ok s
    → (r ≡ ok s)
      × ((close_transaction (r, c)).1.last_state ≡ some s)
      × ((close_transaction (r, c)).1.needs_refresh ≡ false)
unfolding close_transaction
closing-ok r c s h = go r (last_disconnect c) h
  where
    go :
        (r : Outcome Failure DeviceState) (q : Bool × Client)
        → (keep_result r q).0 ≡ ok s
        → (r ≡ ok s)
          × ((keep_result r q).1.last_state ≡ some s)
          × ((keep_result r q).1.needs_refresh ≡ false)
    go (ok t) (true, d) h = (h, ap some (pure-ok t s d h), refl)
    go (ok t) (false, d) h = cc
    go (err e) (true, d) h = cc
    go (err e) (false, d) h = cc

pub execute-ok :
    (call_epoch : ℕ) (write : Bool) (operation : Io DeviceState) (c : Client) (s : DeviceState)
    → (execute call_epoch write operation c).0 ≡ ok s
    → (d : Client) × (connect (started c) ≡ (ok tt, d))
      × ((operation d).0 ≡ ok s)
      × ((execute call_epoch write operation c).1.last_state ≡ some s)
      × ((execute call_epoch write operation c).1.needs_refresh ≡ false)
execute-ok call_epoch write operation c s h = go c.closed stale refl refl
  where
    stale : Bool
    stale = write && (c.needs_refresh || not (call_epoch == c.epoch))

    result : Outcome Failure DeviceState × Client → Outcome Failure DeviceState
    result q = q.0

    run : Outcome Failure DeviceState × Client
    run = (connect >> operation) (started c)

    Goal : Outcome Failure DeviceState × Client → Type 0
    Goal q =
        (d : Client) × (connect (started c) ≡ (ok tt, d))
        × ((operation d).0 ≡ ok s)
        × (q.1.last_state ≡ some s)
        × (q.1.needs_refresh ≡ false)

    refused : (c.closed || stale) ≡ true → Goal (execute call_epoch write operation c)
    refused ht =
        let (e, q) = execute-refused call_epoch write operation c ht in
        absurd (ok-not-err s e (sym h ∙ ap result q))

    began :
        (conclude run).0 ≡ ok s
        → (d : Client) × (connect (started c) ≡ (ok tt, d)) × ((operation d).0 ≡ ok s)
    began hq =
        let (_, d, e, k) =
          bind-ok connect (λ _. operation) (started c) s (conclude-ok run.0 run.1 s hq) in
        (d, e, k)

    finished : (close_transaction (conclude run)).0 ≡ ok s → Goal (close_transaction (conclude run))
    finished hq =
        let (h1, h2, h3) = closing-ok (conclude run).0 (conclude run).1 s hq in
        let (d, e, k) = began h1 in (d, e, k, h2, h3)

    go : (b t : Bool) → c.closed ≡ b → stale ≡ t → Goal (execute call_epoch write operation c)
    go true t hb hs = refused (rw hb refl)
    go false true hb hs = refused (rw (hb, hs) refl)
    go false false hb hs =
        let e = execute-started call_epoch write operation c hb hs in
        rw e (finished (sym (ap result e) ∙ h))

pub demand-ok :
    (e : ProtocolError) (o : Option ℕ) (f : ℕ → Io DeviceState) (c : Client) (s : DeviceState)
    → ((demand e o >>= f) c).0 ≡ ok s
    → (n : ℕ) × (o ≡ some n) × (((demand e o >>= f) c) ≡ f n c)
unfolding ◌>>=◌
demand-ok e none f c s h = cc
demand-ok e (some n) f c s h = (n, refl, refl)

pub lift-bind-ok :
    {A : Type 0} (o : Outcome ProtocolError A) (f : A → Io DeviceState) (c : Client)
    (s : DeviceState)
    → ((lift_protocol o >>= f) c).0 ≡ ok s
    → (a : A) × (o ≡ ok a) × (((lift_protocol o >>= f) c) ≡ f a c)
unfolding ◌>>=◌
lift-bind-ok (ok a) f c s h = (a, refl, refl)
lift-bind-ok (err e) f c s h = cc

abbrev pub code : Outcome Failure DeviceState × Client → Outcome Failure DeviceState
code q = q.0

pub switched :
    (b : Bool) (before s : DeviceState) (c : Client) (m : Io DeviceState)
    → ((if b then pure before else m) c).0 ≡ ok s
    → ((b ≡ true) × (before ≡ s)) ⊎ ((m c).0 ≡ ok s)
switched true before s c m h = inl (refl, pure-ok before s c h)
switched false before s c m h = inr h
