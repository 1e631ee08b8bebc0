-- ===== src/Tests/Wire.antt =====
-- protocol.py: frames and chunks.
use hahapent.Base.{
  ℕ, ◌<◌, ◌≡◌, ◌⊎◌, ◌↔◌, refl, true, List, [], ◌∷◌, ◌++◌, map, length, ok, ◌>>=◌, arith,
}
use hahapent.Base.Value.{of_ℕ}
use hahapent.Protocol.Frame.{
  Bytes, frame_payload, levels, permute_channels, validate_percentage, percentage,
  channel_write_frame, mode_frame, system_query, channel_query,
}
use hahapent.Protocol.Reply.{parse_channels, bytes_eq}
use hahapent.Protocol.RoundTrip.{
  Six, vector, wire, IsPercent, channel_write_round_trip, permute_channels_sound, mode_bytes,
  mode_frame_ok_iff,
}
use hahapent.Protocol.Decoder.{
  Message, Decoder, feed, drain, finish, round, primary_round, extended_round, extended_body,
  primary, ack_candidate,
}
use hahapent.Protocol.Decoder.Cut.{IsCut}
use hahapent.Protocol.Decoder.Feed.{IsPartial, feed_cuts, feed_bounded, feed_chunks, after_first}
use hahapent.Protocol.Decoder.Frames.{core_frames, as_message, feed-core_frames}

abbrev idle : Decoder
idle = record { max_buffer = 4096; discarded_bytes = 0; buffer = [] }

-- A stray byte, an acknowledgement candidate, a whole frame, and the start of another.
abbrev noise : Bytes
noise = 7 ∷ 0xf5 ∷ (system_query ++ 0xf1 ∷ 0xe2 ∷ [])

abbrev rest : Decoder
rest = record { max_buffer = 4096; discarded_bytes = 1; buffer = 0xf1 ∷ 0xe2 ∷ [] }

abbrev found : List Message
found =
    record { kind = ack_candidate; raw = 0xf5 ∷ [] }
    ∷ record { kind = primary; raw = system_query }
    ∷ []

noise_decoded : feed idle noise ≡ (ok found, rest)
unfolding feed drain finish round primary_round extended_round extended_body bytes_eq
noise_decoded = refl

feed_cuts_example : IsCut noise 0 found (0xf1 ∷ 0xe2 ∷ []) 1 × IsPartial (0xf1 ∷ 0xe2 ∷ [])
feed_cuts_example = feed_cuts idle noise found rest noise_decoded

feed_bounded_example : length (feed idle noise).1.buffer < 262
feed_bounded_example = feed_bounded idle noise tt (omega arith)

feed_chunks_example : feed idle (noise ++ 0xfc ∷ []) ≡ after_first (0xfc ∷ []) (feed idle noise)
feed_chunks_example = feed_chunks idle noise (0xfc ∷ []) (omega arith)

query_made : frame_payload (0xe1 ∷ 0xfc ∷ []) ≡ ok system_query
unfolding frame_payload
query_made = refl

feed-core_frames_example :
    feed idle (core_frames (system_query ∷ channel_query ∷ []))
    ≡ (ok (map as_message (system_query ∷ channel_query ∷ [])), idle)
unfolding core_frames
feed-core_frames_example =
    feed-core_frames idle (system_query ∷ channel_query ∷ [])
      (
        record { sized = refl; first = refl; last = refl },
        (record { sized = refl; first = refl; last = refl }, tt),
      )
      refl (omega arith)

abbrev six : Six
six = record { a = 1; b = 2; c = 30; d = 40; e = 5; f = 100 }

six-IsPercent : IsPercent six
six-IsPercent = record {
  a_le = omega arith;
  b_le = omega arith;
  c_le = omega arith;
  d_le = omega arith;
  e_le = omega arith;
  f_le = omega arith;
}

channel_write_round_trip_example :
    (channel_write_frame (vector six) true >>= λ frame. parse_channels frame true) ≡ ok (vector six)
channel_write_round_trip_example = channel_write_round_trip six true six-IsPercent

six_swapped : permute_channels (levels (vector six)) true ≡ ok (wire true six)
unfolding permute_channels validate_percentage percentage
six_swapped = refl

permute_channels_sound_example :
    (s : Six) × IsPercent s
    × (levels (vector six) ≡ levels (vector s))
    × (wire true six ≡ wire true s)
permute_channels_sound_example =
    permute_channels_sound (levels (vector six)) true (wire true six) six_swapped

mode_frame_ok_iff_example :
    (mode_frame (of_ℕ 8) ≡ ok (mode_bytes 8))
    ↔ (m : ℕ) × (of_ℕ 8 ≡ of_ℕ m) × ((m ≡ 0) ⊎ (m ≡ 1) ⊎ (m ≡ 8)) × (mode_bytes 8 ≡ mode_bytes m)
mode_frame_ok_iff_example = mode_frame_ok_iff (of_ℕ 8) (mode_bytes 8)
