-- ===== src/Client/Transport/Sends.antt =====
-- What the transport may do to the client: only `send` adds a frame, and none once the operation is
-- revoked.
use hahapent.Base.{
  ℕ, ◌+◌, ◌≡◌, refl, Bool, true, false, not, ◌||◌, Option, none, some, List, [], ◌∷◌, ◌++◌,
  if◌then◌else◌, length, ltb, Outcome, ok, err, arith,
}
use hahapent.Protocol.Frame.{Bytes, ProtocolError, system_query, channel_query}
use hahapent.Protocol.Reply.{parse_system, parse_channels}
use hahapent.Protocol.Decoder.{Message, Decoder, feed}
use hahapent.Client.Io.{Event, Failure, connection_missing, timeout, Client, Io, react, await}
use hahapent.Client.Trace.{
  Trace, Runs, Trace-quiet, Trace-refl, Trace-trans, Trace-events, Runs-lift, Runs->>=, Runs-react,
  Runs-await,
}
use hahapent.Client.Transport.{
  fresh_decoder, connected_now, connect, swallow, disconnect, is_revoked, drained_ok, send,
  after_feed, decode, boundary, admit, absorb, quarantine_loop, quarantine, find_reply, kept,
  check_reply, select, consider, read_reply, await_reply, query, read_state, max_received_bytes,
}

module _ (A : Bytes → Type 0) where
  -- The connection, the decoder and the counter are not what `Trace` is about.
  Trace-socket :
      (c : Client) (connected : Bool) (d : Decoder) (n : ℕ)
      → Trace A c (record c { connected = connected; decoder = d; received = n })
  Trace-socket c connected d n =
      Trace-quiet A c (record c { connected = connected; decoder = d; received = n }) refl refl refl
        (λ h. record {
          begun = h.begun;
          dropped = λ n.
              let k = h.dropped n in record { unknown = k.unknown; stale = k.stale; late = k.late };
        })

  pub Runs-connect : Runs A connect
  unfolding connect connected_now
  Runs-connect =
      Runs->>= A await (λ _. connected_now) (Runs-await A)
        (λ _ c. Trace-socket c true fresh_decoder c.received)

  Trace-if :
      {B : Type 0} (c : Client) (b : Bool) (x y : Outcome Failure B × Client)
      → (b ≡ true → Trace A c x.1)
      → (b ≡ false → Trace A c y.1)
      → Trace A c (if b then x else y).1
  Trace-if c true x y hx hy = hx refl
  Trace-if c false x y hx hy = hy refl

  -- A socket that is gone, and then more.
  Trace-then :
      (c d : Client) (connected : Bool) (dec : Decoder) (n : ℕ)
      → Trace A (record c { connected = connected; decoder = dec; received = n }) d
      → Trace A c d
  Trace-then c d connected dec n t =
      Trace-trans A c (record c { connected = connected; decoder = dec; received = n }) d
        (Trace-socket c connected dec n) t

  swallowed :
      (c : Client) (r : Outcome Failure Bytes × Client) → Trace A c r.1 → Trace A c (swallow r).1
  unfolding swallow
  swallowed c r t = rw (same r) t
    where
      same : (r : Outcome Failure Bytes × Client) → (swallow r).1 ≡ r.1
      same r = ground arith

  pub Runs-disconnect : Runs A disconnect
  unfolding disconnect
  Runs-disconnect c =
      Trace-if c c.connected (swallow (await (record c { connected = false }))) (ok tt, c)
        (λ _. Trace-then c _ false c.decoder c.received (
          swallowed (record c { connected = false }) (await (record c { connected = false }))
            (Runs-await A (record c { connected = false }))))
        (λ _. Trace-refl A c)

  drained :
      (c : Client) (r : Outcome Failure Bytes × Client) → Trace A c r.1 → Trace A c (drained_ok r).1
  unfolding drained_ok
  drained c (ok b, d) t = t
  drained c (err f, d) t = t

  not-revoked :
      (c : Client) (e : ℕ) → is_revoked c ≡ false → c.operation_epoch ≡ some e → e ≡ c.epoch
  unfolding is_revoked
  not-revoked c e h he = ground arith

  sends :
      (c : Client) (frame : Bytes)
      → A frame
      → is_revoked c ≡ false
      → Trace A c (record c { sent = c.sent ++ frame ∷ [] })
  sends c frame ha hr = record {
    same = refl;
    later = omega arith;
    frames = frame ∷ [];
    is_sent = refl;
    allowed = (ha, tt);
    silent = λ e he lt. absurd (omega (arith, not-revoked c e hr he, lt));
    marked = λ h. record {
      begun = h.begun;
      dropped = λ n.
          let k = h.dropped n in record { unknown = k.unknown; stale = k.stale; late = k.late };
    };
  }

  pub Runs-send : (frame : Bytes) → A frame → Runs A (send frame)
  unfolding send
  Runs-send frame ha c =
      let d : Client = record c { sent = c.sent ++ frame ∷ [] } in
      Trace-if c (is_revoked c) _ _ (λ _. Trace-refl A c)
        (λ hr.
          Trace-if c (not c.connected || c.closed) (err connection_missing, c)
            (drained_ok (await d)) (λ _. Trace-refl A c)
            (λ _.
              Trace-trans A c d (drained_ok (await d)).1 (sends c frame ha hr)
                (drained d (await d) (Runs-await A d))))

  fed :
      (c : Client) (r : Outcome ProtocolError (List Message) × Decoder)
      → Trace A c (after_feed c r).1
  unfolding after_feed
  fed c (ok ms, d) = Trace-socket c c.connected d c.received
  fed c (err e, d) = Trace-socket c c.connected d c.received

  pub Runs-decode : (incoming : Bytes) → Runs A (decode incoming)
  unfolding decode
  Runs-decode [] c = Trace-refl A c
  Runs-decode (b ∷ bs) c =
      let got = c.received + length (b ∷ bs) in
      Trace-if c (ltb max_received_bytes got) _ _ (λ _. Trace-socket c c.connected c.decoder got)
        (λ _.
          Trace-then c _ c.connected c.decoder got
            (fed (record c { received = got }) (feed c.decoder (b ∷ bs))))

  Runs-boundary : Runs A boundary
  unfolding boundary
  Runs-boundary c = Trace-if c _ _ _ (λ _. Trace-refl A c) (λ _. Trace-refl A c)

  Runs-admit :
      (echoes : List Bytes) (again : Io (Unit {0})) (ms : List Message)
      → Runs A again
      → Runs A (admit echoes again ms)
  unfolding admit
  Runs-admit echoes again ms h c = Trace-if c _ _ _ (λ _. h c) (λ _. Trace-refl A c)

  absorbed :
      (c : Client) (echoes : List Bytes) (again : Io (Unit {0}))
      (r : Outcome Failure Bytes × Client)
      → Runs A again
      → Trace A c r.1
      → Trace A c (absorb echoes again r).1
  unfolding absorb
  absorbed c echoes again (ok incoming, d) h t = Trace-trans A c d _ t (
      Runs->>= A (decode incoming) (admit echoes again) (Runs-decode incoming)
        (λ ms. Runs-admit echoes again ms h) d)
  absorbed c echoes again (err timeout, d) h t = Trace-trans A c d _ t (Runs-boundary d)
  absorbed c echoes again (err f, d) h t = t

  Runs-quarantine_loop :
      (echoes : List Bytes) (es : List Event) → Runs A (quarantine_loop echoes es)
  unfolding quarantine_loop
  Runs-quarantine_loop echoes [] c = Runs-boundary c
  Runs-quarantine_loop echoes (e ∷ es) c =
      Trace-if c c.connected _ _
        (λ _. Trace-events A c _ es (
          absorbed (record c { events = es }) echoes (quarantine_loop echoes es)
            (react e (record c { events = es })) (Runs-quarantine_loop echoes es)
            (Runs-react A e (record c { events = es }))))
        (λ _. Trace-refl A c)

  pub Runs-quarantine : (echoes : List Bytes) → Runs A (quarantine echoes)
  unfolding quarantine
  Runs-quarantine echoes c = Runs-quarantine_loop echoes c.events c

  Runs-check_reply : (q : Bytes) (ms : List Message) (raw : Bytes) → Runs A (check_reply q ms raw)
  unfolding check_reply
  Runs-check_reply q ms raw c = rw same (Trace-refl A c)
    where
      same : (check_reply q ms raw c).1 ≡ c
      same = ground arith

  Runs-select :
      (q : Bytes) (ignored : List Bytes) (again : Io Bytes) (ms : List Message)
      → Runs A again
      → Runs A (select q ignored again ms)
  unfolding select
  Runs-select q ignored again ms h c = go (find_reply q (kept ignored ms)) refl
    where
      go :
          (found : Option Bytes)
          → find_reply q (kept ignored ms) ≡ found
          → Trace A c (select q ignored again ms c).1
      go none e = rw (e, select) (h c)
      go (some raw) e = rw (e, select) (Runs-check_reply q (kept ignored ms) raw c)

  considered :
      (c : Client) (q : Bytes) (ignored : List Bytes) (again : Io Bytes)
      (r : Outcome Failure Bytes × Client)
      → Runs A again
      → Trace A c r.1
      → Trace A c (consider q ignored again r).1
  unfolding consider
  considered c q ignored again (ok incoming, d) h t = Trace-trans A c d _ t (
      Runs->>= A (decode incoming) (select q ignored again) (Runs-decode incoming)
        (λ ms. Runs-select q ignored again ms h) d)
  considered c q ignored again (err f, d) h t = t

  Runs-read_reply :
      (q : Bytes) (ignored : List Bytes) (es : List Event) → Runs A (read_reply q ignored es)
  unfolding read_reply
  Runs-read_reply q ignored [] c = Trace-refl A c
  Runs-read_reply q ignored (e ∷ es) c =
      Trace-if c c.connected _ _
        (λ _. Trace-events A c _ es (
          considered (record c { events = es }) q ignored (read_reply q ignored es)
            (react e (record c { events = es })) (Runs-read_reply q ignored es)
            (Runs-react A e (record c { events = es }))))
        (λ _. Trace-refl A c)

  Runs-await_reply : (q : Bytes) (ignored : List Bytes) → Runs A (await_reply q ignored)
  unfolding await_reply
  Runs-await_reply q ignored c = Runs-read_reply q ignored c.events c

  pub Runs-query : (q : Bytes) (ignored : List Bytes) → A q → Runs A (query q ignored)
  unfolding query
  Runs-query q ignored h =
      Runs->>= A (send q) (λ _. await_reply q ignored) (Runs-send q h)
        (λ _. Runs-await_reply q ignored)

  pub Runs-read_state : A system_query → A channel_query → Runs A read_state
  unfolding read_state
  Runs-read_state hs hc = Runs->>= A _ _ (Runs-query system_query [] hs) λ raw_system.
      Runs->>= A _ _ (Runs-lift A (parse_system raw_system)) λ system.
        Runs->>= A _ _ (Runs-quarantine []) λ _.
          Runs->>= A _ _ (Runs-query channel_query [] hc) λ raw_channels.
            Runs->>= A _ _ (Runs-lift A (parse_channels raw_channels system.swap_cd))
              λ channels. λ c. Trace-refl A c
