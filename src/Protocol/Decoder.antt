-- ===== src/Protocol/Decoder.antt =====
-- protocol.py: `StreamDecoder`, which cuts a byte stream into messages.
pub mod Rounds
pub mod Drain
pub mod Cut
pub mod Chunks
pub mod Feed
pub mod Frames
use hahapent.Base.{
  ℕ, zero, suc, ◌+◌, ◌-◌, Bool, true, false, List, [], ◌∷◌, ◌++◌, length, get_or, take, drop, ltb,
  ◌==◌, ◌||◌, min, if◌then◌else◌, Outcome, ok, err,
}
use hahapent.Protocol.Frame.{Bytes, ProtocolError, buffer_limit, bad_trailer}
use hahapent.Protocol.Reply.{bytes_eq}

pub data Kind : Type 0 where
  primary extended ack_candidate : Kind

pub record Message : Type 0 where
  pub kind : Kind
  pub raw : Bytes

pub record Decoder : Type 0 where
  pub max_buffer : ℕ
  pub discarded_bytes : ℕ
  pub buffer : Bytes

-- What one round of `while self._buffer` does: break, take a message of so many bytes, drop the
-- first byte, or raise.
pub data Round : Type 0 where
  wait : Round
  emit : Kind → ℕ → Round
  skip : Round
  fault : Round

abbrev pub header : Bytes
header = 0x01 ∷ 0xfe ∷ 0x68 ∷ []

abbrev pub trailer : Bytes
trailer = 0x67 ∷ 0xfd ∷ 0x02 ∷ []

-- The branch for a first byte F1.
unfoldable pub primary_round : Bytes → Round
primary_round buffer =
    if ltb (length buffer) 20
    then wait
    else if get_or buffer 19 0 == 0xf3
    then emit primary 20
    else skip

unfoldable pub extended_body : Bytes → ℕ → Round
unfolding bytes_eq
extended_body buffer size =
    if ltb (length buffer) size
    then wait
    else if bytes_eq (take 3 (drop (size - 3) buffer)) trailer
    then emit extended size
    else fault

-- The branch for a first byte 01.
unfoldable pub extended_round : Bytes → Round
unfolding extended_body
extended_round buffer =
    let prefix = min (length buffer) 3 in
    if bytes_eq (take prefix buffer) (take prefix header)
    then (if ltb (length buffer) 4 then wait else extended_body buffer (7 + get_or buffer 3 0))
    else skip

unfoldable pub round : ℕ → Bytes → Round
unfolding primary_round extended_round
round first buffer =
    if first == 0xf1
    then primary_round buffer
    else if first == 0x01
    then extended_round buffer
    else if first == 0xf5 || first == 0xf6
    then emit ack_candidate 1
    else skip

-- The messages so far, the bytes that the loop leaves and the count of discarded ones; or the
-- count at which it raised, with the buffer cleared.
pub data Drained : Type 0 where
  drained : List Message → Bytes → ℕ → Drained
  broken : ℕ → Drained

-- One round's message in front of those of the rounds after it.
abbrev pub prepend : Message → Drained → Drained
prepend m (drained ms rest n) = drained (m ∷ ms) rest n
prepend m (broken n) = broken n

-- The loop; each round takes a byte at least, so `length buffer` rounds are enough.
unfoldable pub drain : ℕ → Bytes → ℕ → Drained
drain fuel [] n = drained [] [] n
drain zero (b ∷ bs) n = drained [] (b ∷ bs) n
drain (suc fuel) (b ∷ bs) n = elim (round b (b ∷ bs)) [
  | wait ↦ drained [] (b ∷ bs) n
  | emit k size ↦
      prepend (record { kind = k; raw = take size (b ∷ bs) }) (drain fuel (drop size (b ∷ bs)) n)
  | skip ↦ drain fuel bs (n + 1)
  | fault ↦ broken n
]

unfoldable pub finish : Decoder → Drained → Outcome ProtocolError (List Message) × Decoder
finish d (drained ms rest n) = (ok ms, record d { discarded_bytes = n; buffer = rest })
finish d (broken n) = (err bad_trailer, record d { discarded_bytes = n; buffer = [] })

unfoldable pub feed : Decoder → Bytes → Outcome ProtocolError (List Message) × Decoder
feed d incoming =
    if ltb d.max_buffer (length d.buffer + length incoming)
    then (err buffer_limit, record d { buffer = [] })
    else let buffer = d.buffer ++ incoming in
      finish d (drain (length buffer) buffer d.discarded_bytes)
