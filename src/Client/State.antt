-- ===== src/Client/State.antt =====
-- client.py: the observed state of a device.
use hahapent.Base.{ℕ, Bool, ◌&&◌, ◌≡◌, List, ◌==◌, arith, true, false}
use hahapent.Protocol.Reply.{SystemReply, pair_eq, bytes_eq}

pub record DeviceState : Type 0 where
  pub system : SystemReply
  pub channels : List ℕ

abbrev bool_eq : Bool → Bool → Bool
bool_eq true true = true
bool_eq false false = true
bool_eq _ _ = false

-- `a == b` of two frozen `SystemReply` dataclasses
unfoldable pub system_eq : SystemReply → SystemReply → Bool
system_eq a b =
    a.mode_raw == b.mode_raw
    && (pair_eq a.version_bytes b.version_bytes
        && (pair_eq a.controller_bytes b.controller_bytes
            && (a.channel_count_raw == b.channel_count_raw
                && (a.app_ui_channel_count == b.app_ui_channel_count
                    && bool_eq a.swap_cd b.swap_cd))))

pub system_eq-eq : (a b : SystemReply) → system_eq a b ≡ true → a ≡ b
unfolding system_eq
system_eq-eq a b h = ground arith

-- `a.channels == b.channels`
abbrev pub channels_eq : List ℕ → List ℕ → Bool
channels_eq = bytes_eq
