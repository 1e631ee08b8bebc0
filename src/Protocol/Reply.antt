-- ===== src/Protocol/Reply.antt =====
-- protocol.py: system and channel replies, and the profiles that are validated for writes.
use hahapent.Base.{
  ℕ, Bool, true, false, ◌&&◌, not, List, [], ◌∷◌, length, get_or, take, drop, ◌==◌, if◌then◌else◌,
  Outcome, ok, ◌>>◌, ensure, any_of, ◌≡◌, ◌↔◌, refl, arith,
}
use hahapent.Protocol.Frame.{
  Bytes, ProtocolError, not_core_frame, unexpected_reply, query_echo, permute_channels, levels,
  system_query,
}

-- `frame == other`
unfoldable pub bytes_eq : Bytes → Bytes → Bool
bytes_eq [] [] = true
bytes_eq [] (y ∷ ys) = false
bytes_eq (x ∷ xs) [] = false
bytes_eq (x ∷ xs) (y ∷ ys) = x == y && bytes_eq xs ys

pub bytes_eq_iff : (xs ys : Bytes) → (bytes_eq xs ys ≡ true) ↔ (xs ≡ ys)
unfolding bytes_eq
bytes_eq_iff [] [] = (λ h. refl, λ h. refl)
bytes_eq_iff [] (y ∷ ys) = (λ h. cc, λ h. cc)
bytes_eq_iff (x ∷ xs) [] = (λ h. cc, λ h. cc)
bytes_eq_iff (x ∷ xs) (y ∷ ys) =
    (λ h. ground (arith, bytes_eq_iff xs ys), λ h. ground (arith, bytes_eq_iff xs ys))

-- `frame in frames`
unfoldable pub one_of : Bytes → List Bytes → Bool
unfolding bytes_eq
one_of frame frames = any_of (bytes_eq frame) frames

unfoldable pub validate_primary : Bytes → ℕ → List ℕ → Outcome ProtocolError (Unit {0})
validate_primary frame command operations = do
  ensure (length frame == 20 && (get_or frame 0 0 == 0xf1 && get_or frame 19 0 == 0xf3))
      not_core_frame
  ensure (get_or frame 1 0 == command && any_of (λ op. get_or frame 2 0 == op) operations)
      unexpected_reply

pub record Pair : Type 0 where
  pub first : ℕ
  pub second : ℕ

abbrev pub pair_eq : Pair → Pair → Bool
pair_eq p q = p.first == q.first && p.second == q.second

pub record SystemReply : Type 0 where
  pub mode_raw : ℕ
  pub version_bytes : Pair
  pub controller_bytes : Pair
  pub channel_count_raw : ℕ
  pub app_ui_channel_count : ℕ
  pub swap_cd : Bool

-- The one entry of VERIFIED_WRITE_PROFILES and of VERIFIED_SHUTDOWN_PROFILES.
abbrev pub verified_controller : Pair
verified_controller = record { first = 28; second = 30 }

abbrev pub verified_version : Pair
verified_version = record { first = 26; second = 29 }

abbrev pub in_verified_profiles : SystemReply → Bool
in_verified_profiles s =
    pair_eq s.controller_bytes verified_controller
    && (pair_eq s.version_bytes verified_version && s.channel_count_raw == 6)

unfoldable pub write_supported : SystemReply → Bool
write_supported s = in_verified_profiles s

unfoldable pub power_supported : SystemReply → Bool
unfolding write_supported
power_supported s = write_supported s && in_verified_profiles s

unfoldable pub parse_system : Bytes → Outcome ProtocolError SystemReply
unfolding validate_primary bytes_eq
parse_system frame = do
  validate_primary frame 0xe1 (0xfc ∷ [])
  ensure (not (bytes_eq frame system_query)) query_echo
  let controller : Pair = record { first = get_or frame 9 0; second = get_or frame 10 0 }
  ok (record {
    mode_raw = get_or frame 4 0;
    version_bytes = record { first = get_or frame 7 0; second = get_or frame 8 0 };
    controller_bytes = controller;
    channel_count_raw = get_or frame 11 0;
    app_ui_channel_count = if get_or frame 11 0 == 3 then 3 else 6;
    swap_cd = pair_eq controller (record { first = 0x14; second = 0x32 });
  })

unfoldable pub parse_channels : Bytes → Bool → Outcome ProtocolError (List ℕ)
unfolding validate_primary
parse_channels frame swap_cd = do
  validate_primary frame 0xe2 (0xfc ∷ 0xfa ∷ [])
  permute_channels (levels (take 6 (drop 3 frame))) swap_cd
