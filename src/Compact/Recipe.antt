-- ===== src/Compact/Recipe.antt =====
-- compact.py: the recipes on validated numbers, and the public functions that validate first.
use hahapent.Base.{
  ℕ, ◌+◌, ◌-◌, ◌*◌, ◌/◌, Bool, ◌||◌, Option, none, some, List, [], ◌∷◌, map, ◌==◌, if◌then◌else◌,
  any_of, Outcome, ok, err, ◌>>=◌, max, min, maximum, not,
}
use hahapent.Base.Value.{Value}
use hahapent.Compact.Roles.{
  CompactError, no_basis, zero_division, Role, unused, red, green, blue, white, role_eq, has_role,
  Rgb, validate_rgb, validate_intensity, validate_roles, channels_of,
}

abbrev pub zero_channels : List ℕ
zero_channels = 0 ∷ 0 ∷ 0 ∷ 0 ∷ 0 ∷ 0 ∷ []

-- `any(values)`
abbrev pub any_nonzero : List ℕ → Bool
any_nonzero = any_of (λ v. not (v == 0))

unfoldable pub half_up : ℕ → ℕ → ℕ
half_up numerator denominator = (2 * numerator + denominator) / (2 * denominator)

abbrev pub rgb_peak : Rgb → ℕ
rgb_peak c = max c.r (max c.g c.b)

abbrev pub rgb_floor : Rgb → ℕ
rgb_floor c = min c.r (min c.g c.b)

-- The dict `components`.
abbrev pub component : Rgb → ℕ → Role → ℕ
component c extracted red = c.r - extracted
component c extracted green = c.g - extracted
component c extracted blue = c.b - extracted
component c extracted white = extracted
component c extracted unused = 0

abbrev pub extracted_white : Rgb → List Role → ℕ
extracted_white c mapping = if has_role white mapping then rgb_floor c else 0

abbrev pub recipe_of : Rgb → List Role → List ℕ
recipe_of c mapping = map (component c (extracted_white c mapping)) mapping

-- Half-up levels of a recipe, or its tied peaks at one percent.
unfoldable pub quantized : ℕ → ℕ → List ℕ → List ℕ
quantized level peak recipe =
    let recipe_peak = maximum recipe in
    let result = map (λ value. half_up (value * level * peak) (255 * recipe_peak)) recipe in
    if any_nonzero result
    then result
    else map (λ value. if value == recipe_peak then 1 else 0) recipe

unfoldable pub mix : Rgb → ℕ → List Role → Outcome CompactError (List ℕ)
mix c level mapping =
    let recipe = recipe_of c mapping in
    if level == 0 || rgb_peak c == 0
    then ok zero_channels
    else if 255 * maximum recipe == 0
    then err zero_division
    else ok (quantized level (rgb_peak c) recipe)

unfoldable pub mix_rgb : Value → Value → Value → Outcome CompactError (List ℕ)
mix_rgb rgb_color intensity roles = do
  c ← validate_rgb rgb_color
  level ← validate_intensity intensity
  mapping ← validate_roles roles
  mix c level mapping

unfoldable pub scaled : List ℕ → ℕ → Outcome CompactError (List ℕ)
scaled values level =
    let peak = maximum values in
    if level == 0
    then ok zero_channels
    else if peak == 0
    then err no_basis
    else ok (map (λ value. half_up (value * level) peak) values)

unfoldable pub scale_channels : Value → Value → Outcome CompactError (List ℕ)
scale_channels channels intensity = do
  values ← channels_of channels
  level ← validate_intensity intensity
  scaled values level

-- `components[role] = max(components[role], value)` over the zipped roles and values.
unfoldable pub strongest : (Role → ℕ) → List Role → List ℕ → Role → ℕ
strongest components [] values = components
strongest components (r ∷ rs) [] = components
strongest components (r ∷ rs) (v ∷ vs) =
    strongest (λ role. if role_eq role r then max (components r) v else components role) rs vs

-- The three primaries with white added, normalised to a peak of 255; nothing where all are dark.
unfoldable pub shown : ℕ → ℕ → ℕ → Option Rgb
shown red_level green_level blue_level =
    let peak = max red_level (max green_level blue_level) in
    if peak == 0
    then none
    else some (record {
      r = half_up (red_level * 255) peak;
      g = half_up (green_level * 255) peak;
      b = half_up (blue_level * 255) peak;
    })

unfoldable pub display : List Role → List ℕ → Option Rgb
display mapping values =
    let components = strongest (λ role. 0) mapping values in
    shown (components red + components white) (components green + components white)
      (components blue + components white)

unfoldable pub rgb_from_channels : Value → Value → Outcome CompactError (Option Rgb)
rgb_from_channels channels roles = do
  values ← channels_of channels
  mapping ← validate_roles roles
  ok (display mapping values)

unfoldable pub peak_intensity : Value → Outcome CompactError ℕ
peak_intensity channels = do values ← channels_of channels; ok (maximum values)
