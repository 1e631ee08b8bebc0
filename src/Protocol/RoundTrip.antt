-- ===== src/Protocol/RoundTrip.antt =====
-- protocol.py: what is encoded is what is decoded, and which values are encoded at all.
use hahapent.Base.{
  ℕ, ◌≤◌, ◌≡◌, refl, ◌∙◌, sym, ap, Bool, true, false, List, [], ◌∷◌, arith, Outcome, ok, ◌>>=◌,
  >>=-eq-ok, ◌⊎◌, ◌↔◌, if◌then◌else◌,
}
use hahapent.Base.Value.{Value, int, pos, of_ℕ}
use hahapent.Protocol.Frame.{
  Bytes, ProtocolError, validate_percentage, permute_channels, levels, channel_write_frame,
  mode_frame, frame_payload,
}
use hahapent.Protocol.Reply.{parse_channels}

-- Six percentages.
pub record Six : Type 0 where
  pub a : ℕ
  pub b : ℕ
  pub c : ℕ
  pub d : ℕ
  pub e : ℕ
  pub f : ℕ

abbrev pub vector : Six → List ℕ
vector s = s.a ∷ s.b ∷ s.c ∷ s.d ∷ s.e ∷ s.f ∷ []

abbrev pub wire : Bool → Six → List ℕ
wire true s = s.a ∷ s.b ∷ s.d ∷ s.c ∷ s.e ∷ s.f ∷ []
wire false s = vector s

pub record IsPercent (s : Six) : Type 0 where
  pub a_le : s.a ≤ 100
  pub b_le : s.b ≤ 100
  pub c_le : s.c ≤ 100
  pub d_le : s.d ≤ 100
  pub e_le : s.e ≤ 100
  pub f_le : s.f ≤ 100

pub validate_percentage-of_ℕ : (n : ℕ) → n ≤ 100 → validate_percentage (of_ℕ n) ≡ ok n
unfolding validate_percentage
validate_percentage-of_ℕ n h = ground arith

validate_percentage_sound :
    (v : Value) {n : ℕ} → validate_percentage v ≡ ok n → (v ≡ of_ℕ n) × (n ≤ 100)
unfolding validate_percentage
validate_percentage_sound (int (pos n)) h = ground arith
validate_percentage_sound _ h = cc

pub permute_channels-levels :
    (s : Six) (swap_cd : Bool)
    → IsPercent s
    → permute_channels (levels (vector s)) swap_cd ≡ ok (wire swap_cd s)
unfolding permute_channels
permute_channels-levels s true h = rw (
  validate_percentage-of_ℕ s.a h.a_le,
  validate_percentage-of_ℕ s.b h.b_le,
  validate_percentage-of_ℕ s.c h.c_le,
  validate_percentage-of_ℕ s.d h.d_le,
  validate_percentage-of_ℕ s.e h.e_le,
  validate_percentage-of_ℕ s.f h.f_le,
)
permute_channels-levels s false h = rw (
  validate_percentage-of_ℕ s.a h.a_le,
  validate_percentage-of_ℕ s.b h.b_le,
  validate_percentage-of_ℕ s.c h.c_le,
  validate_percentage-of_ℕ s.d h.d_le,
  validate_percentage-of_ℕ s.e h.e_le,
  validate_percentage-of_ℕ s.f h.f_le,
)

pub channel_write_frame-vector :
    (s : Six) (swap_cd : Bool)
    → IsPercent s
    → channel_write_frame (vector s) swap_cd ≡ frame_payload (0xe2 ∷ 0xfa ∷ wire swap_cd s)
unfolding channel_write_frame
channel_write_frame-vector s swap_cd h = rw (permute_channels-levels s swap_cd h)

parse_channels-frame :
    (s : Six) (swap_cd : Bool)
    → IsPercent s
    → (frame_payload (0xe2 ∷ 0xfa ∷ wire swap_cd s) >>= λ frame. parse_channels frame swap_cd)
      ≡ ok (vector s)
unfolding frame_payload parse_channels
parse_channels-frame s true h =
    permute_channels-levels (record s { c = s.d; d = s.c }) true
      (record {
        a_le = h.a_le;
        b_le = h.b_le;
        c_le = h.d_le;
        d_le = h.c_le;
        e_le = h.e_le;
        f_le = h.f_le;
      })
parse_channels-frame s false h = permute_channels-levels s false h

-- Six percentages that are written with a swap flag are read back, with the same flag, in the
-- same logical order.
pub channel_write_round_trip :
    (s : Six) (swap_cd : Bool)
    → IsPercent s
    → (channel_write_frame (vector s) swap_cd >>= λ frame. parse_channels frame swap_cd)
      ≡ ok (vector s)
channel_write_round_trip s swap_cd h =
    rw (channel_write_frame-vector s swap_cd h) (parse_channels-frame s swap_cd h)

levels_eq :
    {va vb vc vd ve vf : Value} {a b c d e f : ℕ}
    → va ≡ of_ℕ a
    → vb ≡ of_ℕ b
    → vc ≡ of_ℕ c
    → vd ≡ of_ℕ d
    → ve ≡ of_ℕ e
    → vf ≡ of_ℕ f
    → va ∷ vb ∷ vc ∷ vd ∷ ve ∷ vf ∷ [] ≡ levels (a ∷ b ∷ c ∷ d ∷ e ∷ f ∷ [])
levels_eq ea eb ec ed ee ef = cc

ok-wire :
    (s : Six) (swap_cd : Bool) {result : List ℕ}
    → ◌≡◌ {A = Outcome ProtocolError (List ℕ)}
        (ok (
          if swap_cd
          then s.a ∷ s.b ∷ s.d ∷ s.c ∷ s.e ∷ s.f ∷ []
          else s.a ∷ s.b ∷ s.c ∷ s.d ∷ s.e ∷ s.f ∷ []))
        (ok result)
    → result ≡ wire swap_cd s
ok-wire s true h = cc
ok-wire s false h = cc

-- Whatever is accepted is six percentages, and is put into wire order: with the swap flag the
-- third and the fourth change places.
pub permute_channels_sound :
    (values : List Value) (swap_cd : Bool) (result : List ℕ)
    → permute_channels values swap_cd ≡ ok result
    → (s : Six) × IsPercent s × (values ≡ levels (vector s)) × (result ≡ wire swap_cd s)
unfolding permute_channels
permute_channels_sound (va ∷ vb ∷ vc ∷ vd ∷ ve ∷ vf ∷ []) swap_cd result h =
    let (a, pa, ha) = >>=-eq-ok (validate_percentage va) _ h in
    let (b, pb, hb) = >>=-eq-ok (validate_percentage vb) _ ha in
    let (c, pc, hc) = >>=-eq-ok (validate_percentage vc) _ hb in
    let (d, pd, hd) = >>=-eq-ok (validate_percentage vd) _ hc in
    let (e, pe, he) = >>=-eq-ok (validate_percentage ve) _ hd in
    let (f, pf, hf) = >>=-eq-ok (validate_percentage vf) _ he in
    let (ea, la) = validate_percentage_sound va pa in
    let (eb, lb) = validate_percentage_sound vb pb in
    let (ec, lc) = validate_percentage_sound vc pc in
    let (ed, ld) = validate_percentage_sound vd pd in
    let (ee, le) = validate_percentage_sound ve pe in
    let (ef, lf) = validate_percentage_sound vf pf in
    (
      record { a = a; b = b; c = c; d = d; e = e; f = f },
      record { a_le = la; b_le = lb; c_le = lc; d_le = ld; e_le = le; f_le = lf },
      levels_eq ea eb ec ed ee ef,
      ok-wire (record { a = a; b = b; c = c; d = d; e = e; f = f }) swap_cd hf,
    )
permute_channels_sound _ swap_cd result h = cc

abbrev IsKnownMode : ℕ → Type 0
IsKnownMode m = (m ≡ 0) ⊎ (m ≡ 1) ⊎ (m ≡ 8)

mode_frame_sound :
    (mode : Value) (frame : Bytes)
    → mode_frame mode ≡ ok frame
    → (m : ℕ) × (mode ≡ of_ℕ m)
      × IsKnownMode m
      × (frame_payload (0xe1 ∷ 0xfa ∷ 0xdb ∷ m ∷ []) ≡ ok frame)
unfolding mode_frame
mode_frame_sound (int (pos m)) frame h = (m, refl, ground arith, ground arith)
mode_frame_sound _ frame h = cc

mode_frame_complete :
    (mode : Value) (m : ℕ)
    → mode ≡ of_ℕ m
    → IsKnownMode m
    → mode_frame mode ≡ frame_payload (0xe1 ∷ 0xfa ∷ 0xdb ∷ m ∷ [])
unfolding mode_frame
mode_frame_complete (int (pos n)) m e k = ground arith
mode_frame_complete _ m e k = cc

ok-injective : {a b : Bytes} → ◌≡◌ {A = Outcome ProtocolError Bytes} (ok a) (ok b) → a ≡ b
ok-injective h = cc

-- The twenty bytes that select a mode.
abbrev pub mode_bytes : ℕ → Bytes
mode_bytes m =
    0xf1 ∷ 0xe1 ∷ 0xfa ∷ 0xdb ∷ m ∷ 0 ∷ 0 ∷ 0 ∷ 0 ∷ 0 ∷ 0 ∷ 0 ∷ 0 ∷ 0 ∷ 0 ∷ 0 ∷ 0 ∷ 0 ∷ 0 ∷ 0xf3
    ∷ []

frame_payload-mode_bytes : (m : ℕ) → frame_payload (0xe1 ∷ 0xfa ∷ 0xdb ∷ m ∷ []) ≡ ok (mode_bytes m)
unfolding frame_payload
frame_payload-mode_bytes m = refl

-- A mode frame is built exactly for the modes 0, 1 and 8: the twenty bytes f1 e1 fa db, the mode,
-- fourteen zeros and f3.
pub mode_frame_ok_iff :
    (mode : Value) (frame : Bytes)
    → (mode_frame mode ≡ ok frame)
      ↔ (m : ℕ) × (mode ≡ of_ℕ m) × ((m ≡ 0) ⊎ (m ≡ 1) ⊎ (m ≡ 8)) × (frame ≡ mode_bytes m)
mode_frame_ok_iff mode frame = (
  λ h.
      let (m, hm, k, e) = mode_frame_sound mode frame h in
      (m, hm, k, sym (ok-injective (sym (frame_payload-mode_bytes m) ∙ e))),
  λ known.
      mode_frame_complete mode known.0 known.1 known.2
      ∙ frame_payload-mode_bytes known.0
      ∙ ap ok (sym known.3),
)
