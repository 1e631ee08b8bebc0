-- ===== src/Compact/Scale.antt =====
-- compact.py: scaling keeps the spectrum, and the displayed colour is normalised.
use native.Mathlib.Decide.{ℕ_discrete}
use native.Mathlib.Nat.{mul-le-mul_right, mul_comm}
use hahapent.Base.{
  ℕ, zero, suc, ◌+◌, ◌*◌, ◌≤◌, ◌<◌, ◌≡◌, ◌≢◌, ◌⊎◌, inl, inr, refl, sym, ◌∙◌, ap, true, Option, none,
  some, List, [], ◌∷◌, map, length, length-map, get_or, replicate, Bool-cases, arith, max, maximum,
  if◌then◌else◌, Outcome, ok, err,
}
use hahapent.Base.Value.{Value}
use hahapent.Compact.Roles.{
  CompactError, no_basis, Role, red, green, blue, white, role_eq, Rgb, validate_intensity,
  validate_roles, channels_of,
}
use hahapent.Compact.Recipe.{
  zero_channels, half_up, scaled, scale_channels, strongest, shown, display, rgb_from_channels,
  rgb_peak,
}
use hahapent.Compact.HalfUp.{half_up_le, half_up_exact, half_up_mono}
use hahapent.Compact.Valid.{channels_of_sound}

maximum-map :
    (f : ℕ → ℕ)
    → ((a b : ℕ) → a ≤ b → f a ≤ f b)
    → (xs : List ℕ) → f 0 ≡ 0
    → maximum (map f xs) ≡ f (maximum xs)
maximum-map f mono [] z = sym z
maximum-map f mono (x ∷ xs) z =
    ground (arith, maximum-map f mono xs z, mono x (maximum xs), mono (maximum xs) x)

get_or-map :
    (f : ℕ → ℕ) → f 0 ≡ 0 → (xs : List ℕ) (i : ℕ) → get_or (map f xs) i 0 ≡ f (get_or xs i 0)
get_or-map f z [] i = sym z
get_or-map f z (x ∷ xs) zero = refl
get_or-map f z (x ∷ xs) (suc i) = get_or-map f z xs i

-- What scaling a vector to a level gives.
pub record IsScaled (values : List ℕ) (level : ℕ) (out : List ℕ) : Type 0 where
  pub sized : length out ≡ length values
  -- the brightest channel is exactly at the level
  pub peak : maximum out ≡ level
  -- channels keep their order, and a dark one stays dark
  pub ordered : (i j : ℕ) → get_or values i 0 ≤ get_or values j 0 → get_or out i 0 ≤ get_or out j 0
  pub dark : (i : ℕ) → get_or values i 0 ≡ 0 → get_or out i 0 ≡ 0

IsScaled-map :
    (values : List ℕ) (level : ℕ)
    → 0 < maximum values
    → IsScaled values level (map (λ v. half_up (v * level) (maximum values)) values)
IsScaled-map values level positive =
    let top = maximum values in
    let f : ℕ → ℕ = λ v. half_up (v * level) top in
    let mono : (a b : ℕ) → a ≤ b → f a ≤ f b =
      λ a b h. half_up_mono (a * level) (b * level) top positive (mul-le-mul_right level h) in
    let zeroed : f 0 ≡ 0 = omega (arith, half_up_le (0 * level) top 0 positive (omega arith)) in
    record {
      sized = length-map f values;
      peak =
          maximum-map f mono values zeroed
          ∙ rw (mul_comm top level) (half_up_exact top level positive);
      ordered =
          λ i j h. rw (get_or-map f zeroed values i, get_or-map f zeroed values j) (mono _ _ h);
      dark = λ i h. get_or-map f zeroed values i ∙ ap f h ∙ zeroed;
    }

get_or-replicate : (n i : ℕ) → get_or {A = ℕ} (replicate n 0) i 0 ≡ 0
get_or-replicate zero i = refl
get_or-replicate (suc n) zero = refl
get_or-replicate (suc n) (suc i) = get_or-replicate n i

IsScaled-zero : (values : List ℕ) → length values ≡ 6 → IsScaled values 0 zero_channels
IsScaled-zero values six = record {
  sized = sym six;
  peak = refl;
  ordered = λ i j h. omega (arith, get_or-replicate 6 i);
  dark = λ i h. get_or-replicate 6 i;
}

-- Valid channels and a valid level are refused exactly if the level is positive and all channels are
-- dark. Otherwise the brightest channel gets the level, channels keep their order, and dark ones stay
-- dark.
pub scale_channels_cases :
    (channels intensity : Value) (values : List ℕ) (level : ℕ)
    → channels_of channels ≡ ok values
    → validate_intensity intensity ≡ ok level
    → ((maximum values ≡ 0) × (level ≢ 0) × (scale_channels channels intensity ≡ err no_basis))
      ⊎ ((out : List ℕ) × (scale_channels channels intensity ≡ ok out)
          × IsScaled values level out
          × ((level ≡ 0) ⊎ (maximum values ≢ 0)))
unfolding scale_channels scaled
scale_channels_cases channels intensity values level hc hl = elim (ℕ_discrete level 0) [
  | yes off ↦ inr (
    zero_channels,
    rw (hc, hl, off),
    rw off (IsScaled-zero values (channels_of_sound channels values hc).0),
    inl off,
  )
  | no wanted ↦ elim (ℕ_discrete (maximum values) 0) [
    | yes dark ↦ inl (dark, wanted, rw (hc, hl) (ground arith))
    | no lit ↦ inr (
      map (λ v. half_up (v * level) (maximum values)) values,
      rw (hc, hl) (ground arith),
      IsScaled-map values level (omega arith),
      inr lit,
    )
  ]
]

-- The brightest channel of a role.
pub brightest : Role → List Role → List ℕ → ℕ
brightest role [] values = 0
brightest role (r ∷ rs) [] = 0
brightest role (r ∷ rs) (v ∷ vs) = max (if role_eq role r then v else 0) (brightest role rs vs)

role_eq-eq : (r s : Role) → role_eq r s ≡ true → r ≡ s
role_eq-eq r s h = ground arith

strongest-eq-brightest :
    (components : Role → ℕ) (rs : List Role) (vs : List ℕ) (role : Role)
    → strongest components rs vs role ≡ max (components role) (brightest role rs vs)
unfolding strongest brightest
strongest-eq-brightest components [] vs role = omega arith
strongest-eq-brightest components (r ∷ rs) [] role = omega arith
strongest-eq-brightest components (r ∷ rs) (v ∷ vs) role =
    strongest-eq-brightest (λ s. if role_eq s r then max (components r) v else components s) rs vs
      role
    ∙ elim (Bool-cases (role_eq role r)) [
      | inl same ↦ ground (arith, role_eq-eq role r)
      | inr other ↦ ground arith
    ]

strongest_zero :
    (rs : List Role) (vs : List ℕ) (role : Role)
    → strongest (λ s. 0) rs vs role ≡ brightest role rs vs
strongest_zero rs vs role = strongest-eq-brightest (λ s. 0) rs vs role ∙ omega arith

-- What a display of three levels is.
abbrev IsShown : ℕ → ℕ → ℕ → Option Rgb → Type 0
IsShown a b c shown_rgb =
    ((shown_rgb ≡ none) × (max a (max b c) ≡ 0))
    ⊎ ((x : Rgb) × (shown_rgb ≡ some x) × (rgb_peak x ≡ 255) × (0 < max a (max b c)))

half_up_top : (a d : ℕ) → 0 < d → a ≡ d → half_up (a * 255) d ≡ 255
half_up_top a d h e = rw (e, mul_comm d 255) (half_up_exact d 255 h)

shown-IsShown : (a b c : ℕ) → IsShown a b c (shown a b c)
unfolding shown
shown-IsShown a b c = elim (ℕ_discrete (max a (max b c)) 0) [
  | yes dark ↦ inl (rw dark, dark)
  | no lit ↦
      let d = max a (max b c) in
      inr (
        record { r = half_up (a * 255) d; g = half_up (b * 255) d; b = half_up (c * 255) d },
        ground arith,
        ground (
          arith,
          half_up_top a d,
          half_up_top b d,
          half_up_top c d,
          half_up_le (a * 255) d 255,
          half_up_le (b * 255) d 255,
          half_up_le (c * 255) d 255,
        ),
        omega arith,
      )
]

display_lem :
    (mapping : List Role) (values : List ℕ)
    → let w = brightest white mapping values in
      IsShown
        (brightest red mapping values + w)
        (brightest green mapping values + w)
        (brightest blue mapping values + w)
        (display mapping values)
unfolding display
display_lem mapping values =
    rw
      (
        strongest_zero mapping values red,
        strongest_zero mapping values green,
        strongest_zero mapping values blue,
        strongest_zero mapping values white,
      )
      (shown-IsShown _ _ _)

rgb_cases :
    (mapping : List Role) (values : List ℕ) (shown_rgb : Outcome CompactError (Option Rgb))
    → shown_rgb ≡ ok (display mapping values)
    → let w = brightest white mapping values in
      IsShown
        (brightest red mapping values + w)
        (brightest green mapping values + w)
        (brightest blue mapping values + w)
        (display mapping values)
      → ((shown_rgb ≡ ok none)
          × (brightest red mapping values ≡ 0)
          × (brightest green mapping values ≡ 0)
          × (brightest blue mapping values ≡ 0)
          × (brightest white mapping values ≡ 0))
        ⊎ ((c : Rgb) × (shown_rgb ≡ ok (some c))
            × (rgb_peak c ≡ 255)
            × (0
                < max (brightest red mapping values) (
                    max
                      (brightest green mapping values)
                      (max (brightest blue mapping values) (brightest white mapping values)))))
rgb_cases mapping values shown_rgb e (inl (dark, h)) =
    inl (e ∙ ap ok dark, omega arith, omega arith, omega arith, omega arith)
rgb_cases mapping values shown_rgb e (inr (x, s, peak, h)) = inr (x, e ∙ ap ok s, peak, omega arith)

-- With six levels and six roles no colour is shown exactly if no red, green, blue or white channel is
-- lit; a colour that is shown has its largest component at 255.
pub rgb_from_channels_cases :
    (channels roles : Value) (values : List ℕ) (mapping : List Role)
    → channels_of channels ≡ ok values
    → validate_roles roles ≡ ok mapping
    → ((rgb_from_channels channels roles ≡ ok none)
        × (brightest red mapping values ≡ 0)
        × (brightest green mapping values ≡ 0)
        × (brightest blue mapping values ≡ 0)
        × (brightest white mapping values ≡ 0))
      ⊎ ((c : Rgb) × (rgb_from_channels channels roles ≡ ok (some c))
          × (rgb_peak c ≡ 255)
          × (0
              < max (brightest red mapping values) (
                  max
                    (brightest green mapping values)
                    (max (brightest blue mapping values) (brightest white mapping values)))))
unfolding rgb_from_channels
rgb_from_channels_cases channels roles values mapping hc hm =
    rgb_cases mapping values (rgb_from_channels channels roles) (rw (hc, hm))
      (display_lem mapping values)
