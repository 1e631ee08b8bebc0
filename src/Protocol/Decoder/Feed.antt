-- ===== src/Protocol/Decoder/Feed.antt =====
-- `StreamDecoder.feed`: its results, its memory bound, and its independence of the cuts of reads.
use mathlib.Core.List.{append_assoc}
use hahapent.Base.{
  ℕ, ◌+◌, ◌≤◌, ◌<◌, ◌≡◌, refl, sym, ◌∙◌, ap, List, [], ◌∷◌, ◌++◌, length, length-append, arith, ltb,
  take, min, get_or, All, All-append, Bool-cases, inl, inr, ◌⊎◌, Outcome, ok, err,
}
use hahapent.Protocol.Frame.{Bytes, ProtocolError, buffer_limit, IsByte}
use hahapent.Protocol.Reply.{bytes_eq_iff}
use hahapent.Protocol.Decoder.{
  header, round, primary_round, extended_round, extended_body, Message, Decoder, Drained, drained,
  broken, prepend, drain, finish, feed,
}
use hahapent.Protocol.Decoder.Cut.{
  IsUnfinished, IsCut, drain-Cut, drain_shrinks, Cut-bytes, unfinished_short,
}
use hahapent.Protocol.Decoder.Chunks.{prepend_all, drain-append, drain-append_broken}

-- What the loop of `feed` gives for a buffer.
looped : Bytes → ℕ → Drained
looped buffer n = drain (length buffer) buffer n

feed_open :
    (d : Decoder) (incoming : Bytes)
    → length d.buffer + length incoming ≤ d.max_buffer
    → feed d incoming ≡ finish d (looped (d.buffer ++ incoming) d.discarded_bytes)
unfolding feed looped
feed_open d incoming h = ground (arith, length-append d.buffer incoming)

feed_split :
    (d : Decoder) (incoming : Bytes)
    → (feed d incoming ≡ (err buffer_limit, record d { buffer = [] }))
      ⊎ (feed d incoming ≡ finish d (looped (d.buffer ++ incoming) d.discarded_bytes))
unfolding feed looped
feed_split d incoming = elim (Bool-cases (ltb d.max_buffer (length d.buffer + length incoming))) [
  | inl over ↦ inl (rw over)
  | inr fits ↦ inr (rw fits)
]

finish_ok :
    (d : Decoder) (r : Drained) {ms : List Message} {d' : Decoder}
    → finish d r ≡ (ok ms, d')
    → r ≡ drained ms d'.buffer d'.discarded_bytes
unfolding finish
finish_ok d r h = ground arith

-- The beginning of a frame: less than the twenty bytes that an F1 begins, or what agrees with the header
-- of an extended frame and is shorter than the length that its fourth byte gives.
abbrev pub IsPartial : Bytes → Type 0
IsPartial [] = Unit
IsPartial (b ∷ bs) =
    ((b ≡ 0xf1) × (length (b ∷ bs) < 20))
    ⊎ ((take (min (length (b ∷ bs)) 3) (b ∷ bs) ≡ take (min (length (b ∷ bs)) 3) header)
        × ((length (b ∷ bs) < 4) ⊎ (length (b ∷ bs) < 7 + get_or (b ∷ bs) 3 0)))

wait-IsPartial : (rest : Bytes) → IsUnfinished rest → IsPartial rest
unfolding round primary_round extended_round extended_body
wait-IsPartial [] h = tt
wait-IsPartial (b ∷ bs) h = ground (
  arith,
  bytes_eq_iff (take (min (length (b ∷ bs)) 3) (b ∷ bs)) (take (min (length (b ∷ bs)) 3) header),
)

-- A successful `feed` cuts the old buffer and the new bytes, in order, into well-shaped messages,
-- discarded bytes, which are counted, and nothing or the beginning of a frame that is not complete, which
-- stays in the buffer.
pub feed_cuts :
    (d : Decoder) (incoming : Bytes) (ms : List Message) (d' : Decoder)
    → feed d incoming ≡ (ok ms, d')
    → IsCut (d.buffer ++ incoming) d.discarded_bytes ms d'.buffer d'.discarded_bytes
      × IsPartial d'.buffer
feed_cuts d incoming ms d' h = elim (feed_split d incoming) [
  | inl over ↦ cc over
  | inr looping ↦
      let cut =
        drain-Cut (length (d.buffer ++ incoming)) (d.buffer ++ incoming) d.discarded_bytes ms
          d'.buffer d'.discarded_bytes (omega arith)
          (unfold looped in
            finish_ok d (looped (d.buffer ++ incoming) d.discarded_bytes) (sym looping ∙ h)) in
      (cut, wait-IsPartial d'.buffer cut.unfinished)
]

finish_bounded :
    (d : Decoder) (incoming : Bytes) (r : Drained)
    → All IsByte d.buffer
    → All IsByte incoming
    → looped (d.buffer ++ incoming) d.discarded_bytes ≡ r
    → length (finish d r).1.buffer < 262
unfolding finish looped
finish_bounded d incoming (drained ms rest n) hd hi e =
    let after =
      drain-Cut (length (d.buffer ++ incoming)) (d.buffer ++ incoming) d.discarded_bytes ms rest n
        (omega arith) e in
    unfinished_short rest (Cut-bytes after.cut (All-append IsByte d.buffer incoming hd hi))
      after.unfinished
finish_bounded d incoming (broken n) hd hi e = omega arith

-- After any `feed` of numbers below 256 to a buffer of such, failed or not, fewer than 262 of them stay
-- in the buffer.
pub feed_bounded :
    (d : Decoder) (incoming : Bytes)
    → All IsByte d.buffer
    → All IsByte incoming
    → length (feed d incoming).1.buffer < 262
feed_bounded d incoming hd hi = elim (feed_split d incoming) [
  | inl over ↦ rw over (omega arith)
  | inr looping ↦ rw looping (finish_bounded d incoming _ hd hi refl)
]

with_earlier :
    List Message
    → Outcome ProtocolError (List Message) × Decoder
    → Outcome ProtocolError (List Message) × Decoder
with_earlier ms (ok later, d) = (ok (ms ++ later), d)
with_earlier ms (err e, d) = (err e, d)

-- What a caller sees who feeds `more` after a first read: the messages of both, or the first error.
pub after_first :
    Bytes
    → Outcome ProtocolError (List Message) × Decoder
    → Outcome ProtocolError (List Message) × Decoder
unfolding with_earlier
after_first more (ok ms, d) = with_earlier ms (feed d more)
after_first more (err e, d) = (err e, d)

with_earlier_twice :
    (m : Message) (ms : List Message) (r : Outcome ProtocolError (List Message) × Decoder)
    → with_earlier (m ∷ []) (with_earlier ms r) ≡ with_earlier (m ∷ ms) r
unfolding with_earlier
with_earlier_twice m ms (ok later, d) = refl
with_earlier_twice m ms (err e, d) = refl

finish-prepend :
    (d : Decoder) (m : Message) (r : Drained)
    → finish d (prepend m r) ≡ with_earlier (m ∷ []) (finish d r)
unfolding with_earlier finish
finish-prepend d m (drained later rest n) = refl
finish-prepend d m (broken n) = refl

finish-prepend_all :
    (d : Decoder) (ms : List Message) (r : Drained)
    → finish d (prepend_all ms r) ≡ with_earlier ms (finish d r)
unfolding with_earlier finish
finish-prepend_all d [] (drained later rest n) = refl
finish-prepend_all d [] (broken n) = refl
finish-prepend_all d (m ∷ ms) r =
    finish-prepend d m (prepend_all ms r)
    ∙ ap (with_earlier (m ∷ [])) (finish-prepend_all d ms r)
    ∙ with_earlier_twice m ms (finish d r)

-- Only the limit of the decoder matters to how the loop's result is stored.
finish_again :
    (d : Decoder) (rest : Bytes) (n : ℕ) (r : Drained)
    → finish d r ≡ finish (record d { discarded_bytes = n; buffer = rest }) r
unfolding finish
finish_again d rest n (drained ms later k) = refl
finish_again d rest n (broken k) = refl

feed_chunks_at :
    (d : Decoder) (a b : Bytes) (r : Drained)
    → length d.buffer + length a + length b ≤ d.max_buffer
    → looped (d.buffer ++ a) d.discarded_bytes ≡ r
    → finish d (looped ((d.buffer ++ a) ++ b) d.discarded_bytes) ≡ after_first b (finish d r)
unfolding finish looped after_first
feed_chunks_at d a b (drained ms rest n) h e =
    let fits =
      drain_shrinks (length (d.buffer ++ a)) (d.buffer ++ a) d.discarded_bytes ms rest n
        (omega arith) e in
    let start = d.buffer ++ a in
    let d2 : Decoder = record d { discarded_bytes = n; buffer = rest } in
    ap (finish d) (
      drain-append (length start) (length (start ++ b)) (length (rest ++ b)) start b
        d.discarded_bytes ms rest n (omega arith) (omega arith) (omega arith) e)
    ∙ finish-prepend_all d ms (looped (rest ++ b) n)
    ∙ ap (with_earlier ms) (
        finish_again d rest n (looped (rest ++ b) n)
        ∙ sym (feed_open d2 b (omega (arith, length-append d.buffer a))))
feed_chunks_at d a b (broken n) h e = rw (
    drain-append_broken (length (d.buffer ++ a)) (length ((d.buffer ++ a) ++ b)) (d.buffer ++ a) b
      d.discarded_bytes n (omega arith) (omega arith) e)

-- Bytes that come in one read or in two give the same messages, the same error and the same state,
-- as long as they fit the buffer.
pub feed_chunks :
    (d : Decoder) (a b : Bytes)
    → length d.buffer + length a + length b ≤ d.max_buffer
    → feed d (a ++ b) ≡ after_first b (feed d a)
feed_chunks d a b h =
    rw
      (
        feed_open d (a ++ b) (omega (arith, length-append a b)),
        feed_open d a (omega arith),
        ← append_assoc d.buffer a b,
      )
      (feed_chunks_at d a b _ h refl)
