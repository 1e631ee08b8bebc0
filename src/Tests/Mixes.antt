-- ===== src/Tests/Mixes.antt =====
-- compact.py: colours and mixes.
use hahapent.Base.{
  ℕ, ◌<◌, ◌≡◌, ◌≢◌, ◌⊎◌, refl, none, some, List, [], ◌∷◌, map, max, maximum, ok, err,
}
use hahapent.Base.Value.{Value, str, of_ℕ, list, of_list}
use hahapent.Compact.Roles.{
  Role, red, green, blue, white, unused, Rgb, no_basis, validate_rgb, validate_intensity, level_of,
  validate_roles, channels_of, integer_tuple,
}
use hahapent.Compact.Recipe.{mix_rgb, scale_channels, rgb_from_channels, rgb_peak}
use hahapent.Compact.Mix.{IsMix, mix_rgb_total}
use hahapent.Compact.Scale.{IsScaled, brightest, scale_channels_cases, rgb_from_channels_cases}

abbrev numbers : List ℕ → Value
numbers ns = list (of_list (map of_ℕ ns))

abbrev roles : Value
roles =
    list
      (of_list (str "red" ∷ str "green" ∷ str "blue" ∷ str "white" ∷ str "unused" ∷ str "red" ∷ []))

abbrev mapping : List Role
mapping = red ∷ green ∷ blue ∷ white ∷ unused ∷ red ∷ []

abbrev level : ℕ
level = 50

abbrev orange : Rgb
orange = record { r = 255; g = 128; b = 30 }

abbrev values : List ℕ
values = 10 ∷ 40 ∷ 0 ∷ 5 ∷ 0 ∷ 1 ∷ []

orange_valid : validate_rgb (numbers (255 ∷ 128 ∷ 30 ∷ [])) ≡ ok orange
unfolding validate_rgb integer_tuple
orange_valid = refl

half_valid : validate_intensity (of_ℕ 50) ≡ ok 50
unfolding validate_intensity level_of
half_valid = refl

roles_valid : validate_roles roles ≡ ok mapping
unfolding validate_roles
roles_valid = refl

values_valid : channels_of (numbers values) ≡ ok values
unfolding channels_of integer_tuple
values_valid = refl

mix_rgb_total_example :
    (out : List ℕ) × (mix_rgb (numbers (255 ∷ 128 ∷ 30 ∷ [])) (of_ℕ 50) roles ≡ ok out)
    × IsMix orange 50 mapping out
mix_rgb_total_example =
    mix_rgb_total (numbers (255 ∷ 128 ∷ 30 ∷ [])) (of_ℕ 50) roles orange 50 mapping orange_valid
      half_valid roles_valid

scale_channels_cases_example :
    ((maximum values ≡ 0)
      × (level ≢ 0)
      × (scale_channels (numbers values) (of_ℕ 50) ≡ err no_basis))
    ⊎ ((out : List ℕ) × (scale_channels (numbers values) (of_ℕ 50) ≡ ok out)
        × IsScaled values 50 out
        × ((level ≡ 0) ⊎ (maximum values ≢ 0)))
scale_channels_cases_example =
    scale_channels_cases (numbers values) (of_ℕ 50) values 50 values_valid half_valid

rgb_from_channels_cases_example :
    ((rgb_from_channels (numbers values) roles ≡ ok none)
      × (brightest red mapping values ≡ 0)
      × (brightest green mapping values ≡ 0)
      × (brightest blue mapping values ≡ 0)
      × (brightest white mapping values ≡ 0))
    ⊎ ((c : Rgb) × (rgb_from_channels (numbers values) roles ≡ ok (some c))
        × (rgb_peak c ≡ 255)
        × (0
            < max (brightest red mapping values) (
                max
                  (brightest green mapping values)
                  (max (brightest blue mapping values) (brightest white mapping values)))))
rgb_from_channels_cases_example =
    rgb_from_channels_cases (numbers values) roles values mapping values_valid roles_valid
