-- ===== src/Protocol/Decoder/Cut.antt =====
-- What `StreamDecoder.feed` returns, told apart from how it computes: the stream is the messages in
-- order, with discarded bytes between them, and an unfinished rest.
use hahapent.Base.{
  ℕ, zero, suc, ◌+◌, ◌-◌, ◌≤◌, ◌<◌, ◌≡◌, refl, sym, ◌∙◌, ap, List, [], ◌∷◌, ◌++◌, ◌⊎◌, length,
  length-append, length-drop, length-take, take, drop, get_or, take-append-drop, get_or-take,
  take-take, drop-take, arith, All, All-append_right,
}
use hahapent.Protocol.Frame.{Bytes, IsByte}
use hahapent.Protocol.Decoder.{
  Kind, primary, extended, ack_candidate, Message, Round, wait, emit, skip, fault, header, trailer,
  round, drained, drain,
}
use hahapent.Protocol.Decoder.Rounds.{emit_size, wait_short, emit_primary, emit_ack, emit_extended}
use hahapent.Protocol.Decoder.Drain.{
  drain_nil, drain-wait, drain-emit, drain-skip, drain-fault, prepend_inv,
}

-- The shape of each kind of message.
abbrev pub IsShaped : Kind → Bytes → Type 0
IsShaped primary raw = (length raw ≡ 20) × (get_or raw 0 0 ≡ 0xf1) × (get_or raw 19 0 ≡ 0xf3)
IsShaped extended raw =
    (length raw ≡ 7 + get_or raw 3 0)
    × (take 3 raw ≡ header)
    × (drop (length raw - 3) raw ≡ trailer)
IsShaped ack_candidate raw = (raw ≡ 0xf5 ∷ []) ⊎ (raw ≡ 0xf6 ∷ [])

-- `Cut stream ms rest k`: the stream is made of the messages, k other bytes, and the rest.
pub data Cut : Bytes → List Message → Bytes → ℕ → Type 0 where
  stop : (rest : Bytes) → Cut rest [] rest 0
  take_message :
      {stream later rest : Bytes} {ms : List Message} {k : ℕ} (m : Message)
      → IsShaped m.kind m.raw
      → stream ≡ m.raw ++ later
      → Cut later ms rest k
      → Cut stream (m ∷ ms) rest k
  drop_byte :
      {later rest : Bytes} {ms : List Message} {k : ℕ} (b : ℕ)
      → Cut later ms rest k
      → Cut (b ∷ later) ms rest (suc k)

pub total : List Message → ℕ
total [] = 0
total (m ∷ ms) = length m.raw + total ms

-- Every byte is in a message, dropped, or in the rest.
pub Cut-total :
    {stream rest : Bytes} {ms : List Message} {k : ℕ}
    → Cut stream ms rest k
    → length stream ≡ total ms + k + length rest
unfolding total
Cut-total (stop rest) = omega arith
Cut-total (take_message {later = later} m shape e c) =
    omega (arith, ap (λ (l : Bytes). length l) e, length-append m.raw later, Cut-total c)
Cut-total (drop_byte b c) = omega (arith, Cut-total c)

drop_last :
    (size : ℕ) (xs : Bytes)
    → 3 ≤ size
    → drop (size - 3) (take size xs) ≡ take 3 (drop (size - 3) xs)
drop_last size xs h =
    let e : size - 3 + 3 ≡ size = omega arith in
    ap (λ n. drop (size - 3) (take n xs)) (sym e) ∙ drop-take (size - 3) 3 xs

round_shape :
    (b : ℕ) (bs : Bytes) (kind : Kind) (size : ℕ)
    → round b (b ∷ bs) ≡ emit kind size
    → IsShaped kind (take size (b ∷ bs))
round_shape b bs primary size e =
    let (first, sized, room, last) = emit_primary b (b ∷ bs) size e in
    rw sized
      (length-take 20 (b ∷ bs) room, first, get_or-take 20 (b ∷ bs) 19 0 (omega arith) ∙ last)
round_shape b bs extended size e =
    let (sized, room, head, tail) = emit_extended b (b ∷ bs) size e in
    let whole = length-take size (b ∷ bs) room in
    (
      omega (arith, whole, get_or-take size (b ∷ bs) 3 0),
      take-take 3 size (b ∷ bs) (omega arith) ∙ head,
      rw whole (drop_last size (b ∷ bs) (omega arith) ∙ tail),
    )
round_shape b bs ack_candidate size e = ground (arith, emit_ack b (b ∷ bs) size)

-- What the loop may leave: nothing, or a frame that is not complete.
abbrev pub IsUnfinished : Bytes → Type 0
IsUnfinished [] = Unit
IsUnfinished (b ∷ bs) = round b (b ∷ bs) ≡ wait

pub record IsCut (stream : Bytes) (n : ℕ) (ms : List Message) (rest : Bytes) (count : ℕ)
    : Type 0 where
  pub dropped : ℕ
  pub cut : Cut stream ms rest dropped
  pub counted : count ≡ n + dropped
  pub unfinished : IsUnfinished rest

IsCut-stop :
    (stream : Bytes) (n : ℕ) {ms : List Message} {rest : Bytes} {count : ℕ}
    → IsUnfinished stream
    → drained [] stream n ≡ drained ms rest count
    → IsCut stream n ms rest count
IsCut-stop stream n {ms} {rest} {count} u e =
    let em : ms ≡ [] = cc in
    let er : rest ≡ stream = cc in
    let ec : count ≡ n = cc in
    record {
      dropped = 0;
      cut = rw (em, er) (stop stream);
      counted = omega arith;
      unfinished = rw er u;
    }

-- The loop cuts the stream, and leaves nothing but the start of an unfinished frame.
pub drain-Cut :
    (f : ℕ) (buffer : Bytes) (n : ℕ) (ms : List Message) (rest : Bytes) (count : ℕ)
    → length buffer ≤ f
    → drain f buffer n ≡ drained ms rest count
    → IsCut buffer n ms rest count
drain-Cut f [] n ms rest count l e = IsCut-stop [] n tt (sym (drain_nil f n) ∙ e)
drain-Cut zero (b ∷ bs) n ms rest count l e = absurd (omega arith)
drain-Cut (suc f) (b ∷ bs) n ms rest count l e = go (round b (b ∷ bs)) refl (drain-Cut f)
  where
    go :
        (r : Round)
        → round b (b ∷ bs) ≡ r
        → ((buffer : Bytes) (n : ℕ) (ms : List Message) (rest : Bytes) (count : ℕ)
            → length buffer ≤ f
            → drain f buffer n ≡ drained ms rest count
            → IsCut buffer n ms rest count)
        → IsCut (b ∷ bs) n ms rest count
    go wait w ih = IsCut-stop (b ∷ bs) n w (sym (drain-wait f b bs n w) ∙ e)
    go (emit kind size) w ih =
        let message : Message = record { kind = kind; raw = take size (b ∷ bs) } in
        let sized = emit_size b (b ∷ bs) kind size (omega arith) w in
        let (later, e', split) = prepend_inv message _ (sym (drain-emit f b bs n w) ∙ e) in
        let after =
          ih (drop size (b ∷ bs)) n later rest count (omega (arith, length-drop size (b ∷ bs)))
            e' in
        record {
          dropped = after.dropped;
          cut = rw split (
              take_message message (round_shape b bs kind size w)
                (sym (take-append-drop size (b ∷ bs))) after.cut);
          counted = after.counted;
          unfinished = after.unfinished;
        }
    go skip w ih =
        let after = ih bs (n + 1) ms rest count (omega arith) (sym (drain-skip f b bs n w) ∙ e) in
        record {
          dropped = suc after.dropped;
          cut = drop_byte b after.cut;
          counted = omega (arith, after.counted);
          unfinished = after.unfinished;
        }
    go fault w ih = cc (drain-fault f b bs n w)

pub drain_shrinks :
    (f : ℕ) (buffer : Bytes) (n : ℕ) (ms : List Message) (rest : Bytes) (count : ℕ)
    → length buffer ≤ f
    → drain f buffer n ≡ drained ms rest count
    → length rest ≤ length buffer
drain_shrinks f buffer n ms rest count l e =
    omega (arith, Cut-total (drain-Cut f buffer n ms rest count l e).cut)

pub Cut-bytes :
    {stream rest : Bytes} {ms : List Message} {k : ℕ}
    → Cut stream ms rest k
    → All IsByte stream
    → All IsByte rest
Cut-bytes (stop rest) h = h
Cut-bytes (take_message {later = later} m shape e c) h =
    Cut-bytes c (All-append_right IsByte m.raw later (rw e at h))
Cut-bytes (drop_byte b c) h = Cut-bytes c h.1

pub unfinished_short : (rest : Bytes) → All IsByte rest → IsUnfinished rest → length rest < 262
unfinished_short [] h u = omega arith
unfinished_short (b ∷ bs) h u = wait_short b (b ∷ bs) h u
