-- ===== src/Protocol/Frame.antt =====
-- protocol.py: building core frames, percentages and the channel permutation.
-- Bytes are numbers; `IsByte` is the range that Python's `bytes` guarantees.
use hahapent.Base.{
  ℕ, ◌-◌, ◌<◌, Bool, Option, none, some, List, [], ◌∷◌, ◌++◌, map, length, replicate, ltb,
  if◌then◌else◌, Outcome, ok, err, ◌>>=◌, ◌==◌, ◌||◌, ◌≡◌, refl,
}
use hahapent.Base.Value.{Value, int_upto, of_ℕ}

abbrev pub Bytes : Type 0
Bytes = List ℕ

abbrev pub IsByte : ℕ → Type 0
IsByte b = b < 256

-- `ProtocolError`, one constructor for each message of protocol.py and client.py.
pub data ProtocolError : Type 0 where
  payload_too_long bad_percentage not_six bad_mode not_core_frame unexpected_reply query_echo :
      ProtocolError
  buffer_limit bad_trailer : ProtocolError
  receive_limit unsolicited_status unfinished_frame ambiguous_echo extra_status : ProtocolError
  bad_index bad_control_mode bad_compact nothing_chosen zero_output zero_basis : ProtocolError

abbrev pub mode_automatic : ℕ
mode_automatic = 0

abbrev pub mode_manual : ℕ
mode_manual = 1

abbrev pub mode_shutdown : ℕ
mode_shutdown = 8

-- `mode in KNOWN_MODES`
abbrev pub is_known_mode : ℕ → Bool
is_known_mode m = m == mode_automatic || (m == mode_manual || m == mode_shutdown)

-- `mode in SUPPORTED_CONTROL_MODES`
abbrev pub is_control_mode : ℕ → Bool
is_control_mode m = m == mode_automatic || m == mode_manual

unfoldable pub frame_payload : Bytes → Outcome ProtocolError Bytes
frame_payload payload =
    if ltb 18 (length payload)
    then err payload_too_long
    else ok (0xf1 ∷ ((payload ++ replicate (18 - length payload) 0) ++ 0xf3 ∷ []))

abbrev pub system_query : Bytes
system_query =
    0xf1 ∷ 0xe1 ∷ 0xfc ∷ 0 ∷ 0 ∷ 0 ∷ 0 ∷ 0 ∷ 0 ∷ 0 ∷ 0 ∷ 0 ∷ 0 ∷ 0 ∷ 0 ∷ 0 ∷ 0 ∷ 0 ∷ 0 ∷ 0xf3 ∷ []

abbrev pub channel_query : Bytes
channel_query =
    0xf1 ∷ 0xe2 ∷ 0xfc ∷ 0 ∷ 0 ∷ 0 ∷ 0 ∷ 0 ∷ 0 ∷ 0 ∷ 0 ∷ 0 ∷ 0 ∷ 0 ∷ 0 ∷ 0 ∷ 0 ∷ 0 ∷ 0 ∷ 0xf3 ∷ []

unfoldable pub percentage : Option ℕ → Outcome ProtocolError ℕ
percentage none = err bad_percentage
percentage (some n) = ok n

unfoldable pub validate_percentage : Value → Outcome ProtocolError ℕ
unfolding percentage
validate_percentage value = percentage (int_upto 100 value)

unfoldable pub permute_channels : List Value → Bool → Outcome ProtocolError (List ℕ)
permute_channels (va ∷ vb ∷ vc ∷ vd ∷ ve ∷ vf ∷ []) swap_cd = do
  a ← validate_percentage va
  b ← validate_percentage vb
  c ← validate_percentage vc
  d ← validate_percentage vd
  e ← validate_percentage ve
  f ← validate_percentage vf
  ok (if swap_cd then a ∷ b ∷ d ∷ c ∷ e ∷ f ∷ [] else a ∷ b ∷ c ∷ d ∷ e ∷ f ∷ [])
permute_channels _ swap_cd = err not_six

-- Six channel levels as the ints that the callers pass.
abbrev pub levels : List ℕ → List Value
levels = map of_ℕ

unfoldable pub channel_write_frame : List ℕ → Bool → Outcome ProtocolError Bytes
channel_write_frame values swap_cd = do
  wire ← permute_channels (levels values) swap_cd
  frame_payload (0xe2 ∷ 0xfa ∷ wire)

unfoldable pub mode_payload : Option ℕ → Outcome ProtocolError Bytes
mode_payload none = err bad_mode
mode_payload (some mode) =
    if is_known_mode mode then frame_payload (0xe1 ∷ 0xfa ∷ 0xdb ∷ mode ∷ []) else err bad_mode

-- `type(mode) is int`: no int above 255 is a known mode.
unfoldable pub mode_frame : Value → Outcome ProtocolError Bytes
unfolding mode_payload
mode_frame mode = mode_payload (int_upto 255 mode)

-- The module's constants are frames built by `frame_payload`.
pub frame_payload-queries :
    (frame_payload (0xe1 ∷ 0xfc ∷ []) ≡ ok system_query)
    × (frame_payload (0xe2 ∷ 0xfc ∷ []) ≡ ok channel_query)
unfolding frame_payload
frame_payload-queries = (refl, refl)
