-- ===== src/Client/Trace.antt =====
-- What every action of client.py may do to the client: a preorder on clients, with one rule for each
-- way to build an action.
use mathlib.Core.List.{append-nil, append_assoc}
use hahapent.Base.{
  ℕ, ◌≤◌, ◌<◌, ◌≡◌, ◌≢◌, refl, sym, ap, ◌∙◌, Bool, true, false, none, some, List, [], ◌∷◌, ◌++◌,
  All, All-append, if◌then◌else◌, Outcome, ok, err, arith,
}
use hahapent.Protocol.Frame.{Bytes, ProtocolError}
use hahapent.Compact.Roles.{CompactError}
use hahapent.Client.Io.{
  Interruption, by_cancel, by_deadline, by_close, Event, done, timed_out, os_error, revoked,
  Failure, Client, Io, pure, raise, ◌>>=◌, continue, lift_protocol, lift_compact, require, gets,
  invalidate, interrupt, close_now, react, next_event, await,
}

-- A revocation is on record with everything that it invalidates.
pub record IsDropped (c : Client) : Type 0 where
  pub unknown : c.last_state ≡ none
  pub stale : c.needs_refresh ≡ true
  pub late : (e : ℕ) → c.operation_epoch ≡ some e → e < c.epoch

pub record IsMarked (c : Client) : Type 0 where
  pub begun : (e : ℕ) → c.operation_epoch ≡ some e → e ≤ c.epoch
  pub dropped : c.outer ≢ none → IsDropped c

pub record Trace (A : Bytes → Type 0) (c c' : Client) : Type 0 where
  pub same : c'.operation_epoch ≡ c.operation_epoch
  pub later : c.epoch ≤ c'.epoch
  pub frames : List Bytes
  pub is_sent : c'.sent ≡ c.sent ++ frames
  pub allowed : All A frames
  -- after a revocation nothing is sent
  pub silent : (e : ℕ) → c.operation_epoch ≡ some e → e < c.epoch → frames ≡ []
  pub marked : IsMarked c → IsMarked c'

abbrev pub Runs : {B : Type 0} → (Bytes → Type 0) → Io B → Type 0
Runs A m = (c : Client) → Trace A c (m c).1

module _ (A : Bytes → Type 0) where
  -- An action that changes none of the fields that `Trace` is about.
  pub Trace-quiet :
      (c c' : Client)
      → c'.operation_epoch ≡ c.operation_epoch
      → c'.epoch ≡ c.epoch
      → c'.sent ≡ c.sent
      → (IsMarked c → IsMarked c')
      → Trace A c c'
  Trace-quiet c c' ho he hs hm = record {
    same = ho;
    later = omega (arith, he);
    frames = [];
    is_sent = hs ∙ sym (append-nil c.sent);
    allowed = tt;
    silent = λ e _ _. refl;
    marked = hm;
  }

  pub Trace-refl : (c : Client) → Trace A c c
  Trace-refl c = Trace-quiet c c refl refl refl (λ h. h)

  pub Trace-trans : (c d e : Client) → Trace A c d → Trace A d e → Trace A c e
  Trace-trans c d e t u = record {
    same = u.same ∙ t.same;
    later = omega (arith, t.later, u.later);
    frames = t.frames ++ u.frames;
    is_sent =
        u.is_sent ∙ (ap (λ l. l ++ u.frames) t.is_sent ∙ append_assoc c.sent t.frames u.frames);
    allowed = All-append A t.frames u.frames t.allowed u.allowed;
    silent =
        λ f hf lt. rw (t.silent f hf lt) (u.silent f (t.same ∙ hf) (omega (arith, lt, t.later)));
    marked = λ h. u.marked (t.marked h);
  }

  pub Trace-interrupt : (how : Interruption) (c : Client) → Trace A c (interrupt how c)
  unfolding interrupt invalidate close_now
  Trace-interrupt how c = record {
    same = same how;
    later = omega (arith, later how);
    frames = [];
    is_sent = sent how;
    allowed = tt;
    silent = λ e _ _. refl;
    marked = marked how;
  }
    where
      same : (how : Interruption) → (interrupt how c).operation_epoch ≡ c.operation_epoch
      same by_cancel = refl
      same by_deadline = refl
      same by_close = refl

      later : (how : Interruption) → c.epoch < (interrupt how c).epoch
      later by_cancel = omega arith
      later by_deadline = omega arith
      later by_close = omega arith

      sent : (how : Interruption) → (interrupt how c).sent ≡ c.sent ++ []
      sent by_cancel = sym (append-nil c.sent)
      sent by_deadline = sym (append-nil c.sent)
      sent by_close = sym (append-nil c.sent)

      dropped : (how : Interruption) → IsMarked c → IsDropped (interrupt how c)
      dropped by_cancel h = record {
        unknown = refl;
        stale = refl;
        late = λ e he. omega (arith, h.begun e he);
      }
      dropped by_deadline h = record {
        unknown = refl;
        stale = refl;
        late = λ e he. omega (arith, h.begun e he);
      }
      dropped by_close h = record {
        unknown = refl;
        stale = refl;
        late = λ e he. omega (arith, h.begun e he);
      }

      marked : (how : Interruption) → IsMarked c → IsMarked (interrupt how c)
      marked how h = record {
        begun = λ e he. omega (arith, (dropped how h).late e he);
        dropped = λ _. dropped how h;
      }

  pub Runs-pure : {B : Type 0} (b : B) → Runs A (pure b)
  Runs-pure b c = Trace-refl c

  pub Runs-raise : (B : Type 0) (f : Failure) → Runs A (raise {A = B} f)
  Runs-raise B f c = Trace-refl c

  pub Runs-require : (b : Bool) (f : Failure) → Runs A (require b f)
  Runs-require true f c = Trace-refl c
  Runs-require false f c = Trace-refl c

  pub Runs-gets : {B : Type 0} (f : Client → B) → Runs A (gets f)
  Runs-gets f c = Trace-refl c

  pub Runs-lift : {B : Type 0} (o : Outcome ProtocolError B) → Runs A (lift_protocol o)
  Runs-lift (ok b) c = Trace-refl c
  Runs-lift (err e) c = Trace-refl c

  pub Runs-compact : {B : Type 0} (o : Outcome CompactError B) → Runs A (lift_compact o)
  Runs-compact (ok b) c = Trace-refl c
  Runs-compact (err e) c = Trace-refl c

  pub Runs-if :
      {B : Type 0} (b : Bool) (m n : Io B) → Runs A m → Runs A n → Runs A (if b then m else n)
  Runs-if true m n hm hn = hm
  Runs-if false m n hm hn = hn

  Trace-continue :
      {B C : Type 0} (c : Client) (r : Outcome Failure B × Client) (f : B → Io C)
      → Trace A c r.1
      → ((b : B) → r.0 ≡ ok b → Runs A (f b))
      → Trace A c (continue r f).1
  Trace-continue c (ok b, d) f t hf = Trace-trans c d (f b d).1 t (hf b refl d)
  Trace-continue c (err e, d) f t hf = t

  pub Runs->>= :
      {B C : Type 0} (m : Io B) (f : B → Io C)
      → Runs A m
      → ((b : B) → Runs A (f b))
      → Runs A (m >>= f)
  unfolding ◌>>=◌
  Runs->>= m f hm hf c = Trace-continue c (m c) f (hm c) (λ b _. hf b)

  -- The rest of a block may use that the lifted outcome did not raise.
  pub Runs-lift->>= :
      {B C : Type 0} (o : Outcome ProtocolError B) (f : B → Io C)
      → ((b : B) → o ≡ ok b → Runs A (f b))
      → Runs A (lift_protocol o >>= f)
  unfolding ◌>>=◌
  Runs-lift->>= (ok b) f hf c = hf b refl c
  Runs-lift->>= (err e) f hf c = Trace-refl c

  pub Runs-react : (e : Event) → Runs A (react e)
  unfolding react
  Runs-react (done incoming) c = Trace-refl c
  Runs-react timed_out c = Trace-refl c
  Runs-react os_error c = Trace-refl c
  Runs-react (revoked how (some incoming)) c = Trace-interrupt how c
  Runs-react (revoked how none) c = Trace-interrupt how c

  -- The environment's list, the connection, the decoder and the counter are not what `Trace` is about.
  pub Trace-events :
      (c d : Client) (es : List Event) → Trace A (record c { events = es }) d → Trace A c d
  Trace-events c d es t =
      Trace-trans c (record c { events = es }) d
        (Trace-quiet c (record c { events = es }) refl refl refl
          (λ h. record {
            begun = h.begun;
            dropped = λ n.
                let k = h.dropped n in
                record { unknown = k.unknown; stale = k.stale; late = k.late };
          }))
        t

  pub Runs-await : Runs A await
  unfolding await next_event
  Runs-await c = go c.events
    where
      go : (es : List Event) → Trace A c (next_event es c).1
      go [] = Trace-refl c
      go (e ∷ es) =
          Trace-events c (react e (record c { events = es })).1 es
            (Runs-react e (record c { events = es }))
