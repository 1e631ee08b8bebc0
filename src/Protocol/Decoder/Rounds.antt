-- ===== src/Protocol/Decoder/Rounds.antt =====
-- One round of the decoder's loop: what it takes, when it waits, and that more input cannot change
-- a decision that was made.
use hahapent.Base.{
  ℕ, zero, suc, ◌+◌, ◌-◌, ◌≤◌, ◌<◌, ◌≡◌, ◌≢◌, refl, true, false, [], ◌∷◌, ◌++◌, length,
  length-append, length-drop, take, drop, get_or, take-append_le, drop-append_le, get_or-append_lt,
  arith, All, ◌⊎◌, min,
}
use hahapent.Protocol.Frame.{Bytes, IsByte}
use hahapent.Protocol.Reply.{bytes_eq}
use hahapent.Protocol.Decoder.{
  Kind, primary, extended, ack_candidate, wait, emit, header, trailer, round, primary_round,
  extended_round, extended_body,
}

bytes_eq-eq : (xs ys : Bytes) → bytes_eq xs ys ≡ true → xs ≡ ys
unfolding bytes_eq
bytes_eq-eq [] [] h = refl
bytes_eq-eq [] (y ∷ ys) h = cc
bytes_eq-eq (x ∷ xs) [] h = cc
bytes_eq-eq (x ∷ xs) (y ∷ ys) h = ground (arith, bytes_eq-eq xs ys)

pub emit_primary :
    (b : ℕ) (buffer : Bytes) (size : ℕ)
    → round b buffer ≡ emit primary size
    → (b ≡ 0xf1) × (size ≡ 20) × (20 ≤ length buffer) × (get_or buffer 19 0 ≡ 0xf3)
unfolding round primary_round extended_round extended_body
emit_primary b buffer size e = ground arith

pub emit_ack :
    (b : ℕ) (buffer : Bytes) (size : ℕ)
    → round b buffer ≡ emit ack_candidate size
    → (size ≡ 1) × ((b ≡ 0xf5) ⊎ (b ≡ 0xf6))
unfolding round primary_round extended_round extended_body
emit_ack b buffer size e = ground arith

pub emit_extended :
    (b : ℕ) (buffer : Bytes) (size : ℕ)
    → round b buffer ≡ emit extended size
    → (size ≡ 7 + get_or buffer 3 0)
      × (size ≤ length buffer)
      × (take 3 buffer ≡ header)
      × (take 3 (drop (size - 3) buffer) ≡ trailer)
unfolding round primary_round extended_round extended_body
emit_extended b buffer size e = ground (
  arith,
  bytes_eq-eq (take (min (length buffer) 3) buffer) (take (min (length buffer) 3) header),
  bytes_eq-eq (take 3 (drop (size - 3) buffer)) trailer,
)

-- A message is taken whole, and is not empty.
pub emit_size :
    (b : ℕ) (buffer : Bytes) (k : Kind) (n : ℕ)
    → 0 < length buffer
    → round b buffer ≡ emit k n
    → (0 < n) × (n ≤ length buffer)
unfolding round primary_round extended_round extended_body
emit_size b buffer k n h e = ground arith

byte_at : (xs : Bytes) (i : ℕ) → All IsByte xs → get_or xs i 0 < 256
byte_at [] i h = omega arith
byte_at (x ∷ xs) zero h = h.0
byte_at (x ∷ xs) (suc i) h = byte_at xs i h.1

-- The loop breaks only on an unfinished frame, which has fewer than 262 bytes.
pub wait_short :
    (b : ℕ) (buffer : Bytes) → All IsByte buffer → round b buffer ≡ wait → length buffer < 262
unfolding round primary_round extended_round extended_body
wait_short b buffer h e = ground (arith, byte_at buffer 3 h)

-- What more input does not change: a decision other than to wait.
primary_round-append :
    (buffer more : Bytes)
    → primary_round buffer ≢ wait
    → primary_round (buffer ++ more) ≡ primary_round buffer
unfolding primary_round
primary_round-append buffer more h =
    ground (arith, length-append buffer more, get_or-append_lt buffer more 19 0)

trailer_append :
    (buffer more : Bytes) (size : ℕ)
    → 3 ≤ size
    → size ≤ length buffer
    → take 3 (drop (size - 3) (buffer ++ more)) ≡ take 3 (drop (size - 3) buffer)
trailer_append buffer more size low h =
    rw (drop-append_le (size - 3) buffer more (omega arith)) (
      take-append_le 3 (drop (size - 3) buffer) more (omega (arith, length-drop (size - 3) buffer)))

extended_body-append :
    (buffer more : Bytes) (size : ℕ)
    → 3 ≤ size
    → extended_body buffer size ≢ wait
    → extended_body (buffer ++ more) size ≡ extended_body buffer size
unfolding extended_body
extended_body-append buffer more size low h =
    ground (arith, length-append buffer more, trailer_append buffer more size)

prefix_differs :
    (n m : ℕ) (xs more ys : Bytes)
    → n ≤ m
    → n ≤ length xs
    → bytes_eq (take n xs) (take n ys) ≡ false
    → bytes_eq (take m (xs ++ more)) (take m ys) ≡ false
unfolding bytes_eq
prefix_differs zero m xs more ys h l e = cc
prefix_differs (suc n) zero xs more ys h l e = absurd (omega arith)
prefix_differs (suc n) (suc m) [] more ys h l e = absurd (omega arith)
prefix_differs (suc n) (suc m) (x ∷ xs) more [] h l e = refl
prefix_differs (suc n) (suc m) (x ∷ xs) more (y ∷ ys) h l e =
    ground (arith, prefix_differs n m xs more ys)

extended_round-append :
    (buffer more : Bytes)
    → extended_round buffer ≢ wait
    → extended_round (buffer ++ more) ≡ extended_round buffer
unfolding extended_round
extended_round-append buffer more h = ground (
  arith,
  length-append buffer more,
  get_or-append_lt buffer more 3 0,
  take-append_le 3 buffer more,
  prefix_differs (min (length buffer) 3) (min (length (buffer ++ more)) 3) buffer more header,
  extended_body-append buffer more (7 + get_or buffer 3 0),
)

pub round-append :
    (b : ℕ) (buffer more : Bytes)
    → round b buffer ≢ wait
    → round b (buffer ++ more) ≡ round b buffer
unfolding round
round-append b buffer more h =
    ground (arith, primary_round-append buffer more, extended_round-append buffer more)
