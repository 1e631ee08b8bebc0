-- ===== src/Protocol/Decoder/Frames.antt =====
-- Frames that are sent back to back arrive as that many messages, whatever bytes they hold.
use hahapent.Base.{
  ℕ, zero, suc, ◌-◌, ◌≤◌, ◌≡◌, refl, ◌∙◌, ap, List, [], ◌∷◌, ◌++◌, length, length-append,
  length-replicate, take, drop, get_or, get_or-append_lt, replicate, take_whole, drop_whole, arith,
  ltb, Bool-cases, inl, inr, All, map, ok,
}
use hahapent.Protocol.Frame.{Bytes, frame_payload}
use hahapent.Protocol.Decoder.{
  primary, Message, Decoder, emit, round, primary_round, drained, prepend, drain, finish, feed,
}
use hahapent.Protocol.Decoder.Drain.{drain_nil, drain-emit}
use hahapent.Protocol.Decoder.Chunks.{drain_fuel}

-- A complete core frame.
pub record IsCore (frame : Bytes) : Type 0 where
  pub sized : length frame ≡ 20
  pub first : get_or frame 0 0 ≡ 0xf1
  pub last : get_or frame 19 0 ≡ 0xf3

last_of_padded : (xs : Bytes) (n : ℕ) → length xs ≡ n → get_or (xs ++ 0xf3 ∷ []) n 0 ≡ 0xf3
last_of_padded [] zero h = refl
last_of_padded [] (suc n) h = absurd (omega arith)
last_of_padded (x ∷ xs) zero h = absurd (omega arith)
last_of_padded (x ∷ xs) (suc n) h = last_of_padded xs n (omega arith)

padded-IsCore :
    (payload : Bytes)
    → length payload ≤ 18
    → IsCore (0xf1 ∷ ((payload ++ replicate (18 - length payload) 0) ++ 0xf3 ∷ []))
padded-IsCore payload h =
    let padded = payload ++ replicate (18 - length payload) 0 in
    let sized : length padded ≡ 18 = omega (
      arith,
      length-append payload (replicate (18 - length payload) 0),
      length-replicate {A = ℕ} (18 - length payload) 0,
    ) in
    record {
      sized = omega (arith, length-append padded (0xf3 ∷ []));
      first = refl;
      last = last_of_padded padded 18 sized;
    }

-- Every payload of at most 18 bytes becomes a complete core frame.
pub frame_payload-IsCore : (payload frame : Bytes) → frame_payload payload ≡ ok frame → IsCore frame
unfolding frame_payload
frame_payload-IsCore payload frame h = elim (Bool-cases (ltb 18 (length payload))) [
  | inl over ↦ ground arith
  | inr fits ↦ ground (arith, padded-IsCore payload)
]

unfoldable pub core_frames : List Bytes → Bytes
core_frames [] = []
core_frames (f ∷ fs) = f ++ core_frames fs

abbrev pub as_message : Bytes → Message
as_message f = record { kind = primary; raw = f }

round_core :
    (b : ℕ) (bs more : Bytes) → IsCore (b ∷ bs) → round b (b ∷ bs ++ more) ≡ emit primary 20
unfolding round primary_round
round_core b bs more c = ground (arith, length-append bs more, get_or-append_lt (b ∷ bs) more 19 0)

take_20 : (frame more : Bytes) → IsCore frame → take 20 (frame ++ more) ≡ frame
take_20 frame more c = rw (← c.sized) (take_whole frame more)

drop_20 : (frame more : Bytes) → IsCore frame → drop 20 (frame ++ more) ≡ more
drop_20 frame more c = rw (← c.sized) (drop_whole frame more)

drain_core :
    (f : ℕ) (frame more : Bytes) (n : ℕ)
    → IsCore frame
    → length (frame ++ more) ≤ f
    → drain f (frame ++ more) n ≡ prepend (as_message frame) (drain f more n)
drain_core f [] more n c h = absurd (omega (arith, c.sized))
drain_core zero (b ∷ bs) more n c h = absurd (omega arith)
drain_core (suc f) (b ∷ bs) more n c h =
    drain-emit f b (bs ++ more) n (round_core b bs more c)
    ∙ cc (
      take_20 (b ∷ bs) more c,
      drop_20 (b ∷ bs) more c,
      drain_fuel f (suc f) more n (omega (arith, length-append bs more, c.sized))
          (omega (arith, length-append bs more)),
    )

drain_cores :
    (f : ℕ) (frames : List Bytes) (n : ℕ)
    → All IsCore frames
    → length (core_frames frames) ≤ f
    → drain f (core_frames frames) n ≡ drained (map as_message frames) [] n
unfolding core_frames
drain_cores f [] n h l = drain_nil f n
drain_cores f (frame ∷ frames) n h l =
    drain_core f frame (core_frames frames) n h.0 l
    ∙ ap (prepend (as_message frame))
        (drain_cores f frames n h.1 (omega (arith, length-append frame (core_frames frames))))

-- An empty decoder with room for them turns core frames into as many primary messages, in order,
-- and keeps and discards nothing.
pub feed-core_frames :
    (d : Decoder) (frames : List Bytes)
    → All IsCore frames
    → d.buffer ≡ []
    → length (core_frames frames) ≤ d.max_buffer
    → feed d (core_frames frames) ≡ (ok (map as_message frames), d)
unfolding feed finish
feed-core_frames d frames h empty room =
    ground (arith, drain_cores (length (core_frames frames)) frames d.discarded_bytes)
