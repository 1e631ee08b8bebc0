-- ===== src/Compact/Mix.antt =====
-- compact.py `mix_rgb`: it never fails on valid input, stays within the chosen level, gives equal
-- roles equal levels, leaves unused channels dark, and is dark only when darkness was asked for.
use native.Mathlib.Decide.{ℕ_discrete}
use native.Mathlib.Nat.{mul-le-mul, mul-le-mul_right}
use hahapent.Base.{
  ℕ, ◌*◌, ◌≤◌, ◌<◌, ◌≡◌, ◌≢◌, ◌⊎◌, ◌↔◌, inl, inr, refl, sym, ◌∙◌, ap, true, List, [], ◌∷◌, map,
  length, length-map, map_const, map-map, All-map, replicate, arith, All, maximum, le-maximum, ◌==◌,
  if◌then◌else◌, Bool-cases, ok,
}
use hahapent.Base.Value.{Value}
use hahapent.Compact.Roles.{
  Role, unused, red, green, blue, white, role_eq, has_role, has_primaries, Rgb, validate_rgb,
  validate_intensity, validate_roles,
}
use hahapent.Compact.Recipe.{
  zero_channels, any_nonzero, half_up, rgb_peak, component, extracted_white, recipe_of, quantized,
  mix, mix_rgb,
}
use hahapent.Compact.Valid.{validate_roles_sound, validate_rgb_sound}
use hahapent.Compact.HalfUp.{half_up_le}

abbrev levels_of : ℕ → ℕ → ℕ → ℕ → ℕ
levels_of level peak recipe_peak value = half_up (value * level * peak) (255 * recipe_peak)

-- One role's level, and the role is all that it depends on.
level_le :
    (level peak recipe_peak value : ℕ)
    → 0 < recipe_peak
    → peak ≤ 255
    → value ≤ recipe_peak
    → levels_of level peak recipe_peak value ≤ level
level_le level peak recipe_peak value pos small le =
    half_up_le (value * level * peak) (255 * recipe_peak) level (omega arith)
      (omega (arith, mul-le-mul (mul-le-mul_right level le) small))

role_eq-eq : (r s : Role) → role_eq r s ≡ true → r ≡ s
role_eq-eq r s h = ground arith

-- A role that is assigned shows in the recipe.
le-maximum_of_role :
    (f : Role → ℕ) (r : Role) (mapping : List Role)
    → has_role r mapping ≡ true
    → f r ≤ maximum (map f mapping)
le-maximum_of_role f r [] h = cc
le-maximum_of_role f r (s ∷ mapping) h =
    ground (arith, role_eq-eq r s, le-maximum_of_role f r mapping)

-- The recipe of a colour that is not black has a positive peak, since every primary is assigned.
recipe_pos :
    (c : Rgb) (mapping : List Role)
    → has_primaries mapping ≡ true
    → 0 < rgb_peak c
    → 0 < maximum (recipe_of c mapping)
recipe_pos c mapping h lit =
    let w = extracted_white c mapping in
    ground (
      arith,
      le-maximum_of_role (component c w) red mapping,
      le-maximum_of_role (component c w) green mapping,
      le-maximum_of_role (component c w) blue mapping,
      le-maximum_of_role (component c w) white mapping,
    )

-- The largest level is reached.
peak_lit :
    (m : ℕ) (x : ℕ) (xs : List ℕ)
    → maximum (x ∷ xs) ≡ m
    → any_nonzero (map (λ v. if v == m then 1 else 0) (x ∷ xs)) ≡ true
peak_lit m x [] e = ground arith
peak_lit m x (y ∷ ys) e = ground (arith, peak_lit m y ys)

level_dark : (level peak recipe_peak : ℕ) → 0 < recipe_peak → levels_of level peak recipe_peak 0 ≤ 0
level_dark level peak recipe_peak pos =
    half_up_le (0 * level * peak) (255 * recipe_peak) 0 (omega arith) (omega arith)

ties_lit :
    (xs : List ℕ)
    → 0 < length xs
    → any_nonzero (map (λ v. if v == maximum xs then 1 else 0) xs) ≡ true
ties_lit [] h = absurd (omega arith)
ties_lit (x ∷ xs) h = peak_lit (maximum (x ∷ xs)) x xs refl

-- What a mixed vector promises.
pub record IsMix (c : Rgb) (level : ℕ) (mapping : List Role) (out : List ℕ) : Type 0 where
  -- six levels, none above the chosen one
  pub sized : length out ≡ 6
  pub within : All (λ v. v ≤ level) out
  -- a channel's level is that of its role, and an unused channel is dark
  pub levels : Role → ℕ
  pub by_role : out ≡ map levels mapping
  pub dark : levels unused ≡ 0
  -- some channel is lit exactly if neither the level nor the colour is zero
  pub lit : (any_nonzero out ≡ true) ↔ ((level ≢ 0) × (rgb_peak c ≢ 0))

quantized_cases :
    (level peak : ℕ) (recipe : List ℕ)
    → let result = map (levels_of level peak (maximum recipe)) recipe in
      ((any_nonzero result ≡ true) × (quantized level peak recipe ≡ result))
      ⊎ (quantized level peak recipe
          ≡ map (λ value. if value == maximum recipe then 1 else 0) recipe)
unfolding quantized
quantized_cases level peak recipe =
    elim (Bool-cases (any_nonzero (map (levels_of level peak (maximum recipe)) recipe))) [
      | inl some_lit ↦ inl (some_lit, rw some_lit)
      | inr none_lit ↦ inr (rw none_lit)
    ]

module _ (c : Rgb) (level : ℕ) (mapping : List Role) (six : length mapping ≡ 6)
    (primaries : has_primaries mapping ≡ true) (small : rgb_peak c ≤ 255) where
  mix_dark : (level ≡ 0) ⊎ (rgb_peak c ≡ 0) → mix c level mapping ≡ ok zero_channels
  unfolding mix
  mix_dark h = ground arith

  mix_lit :
      level ≢ 0
      → rgb_peak c ≢ 0
      → mix c level mapping ≡ ok (quantized level (rgb_peak c) (recipe_of c mapping))
  unfolding mix
  mix_lit h k = ground (arith, recipe_pos c mapping)

  IsMix-zero : (level ≡ 0) ⊎ (rgb_peak c ≡ 0) → IsMix c level mapping zero_channels
  IsMix-zero h = record {
    sized = refl;
    within = omega arith;
    levels = λ r. 0;
    by_role = sym (map_const 0 mapping ∙ ap (λ n. replicate n 0) six);
    dark = refl;
    lit = (λ e. cc, λ e. ground arith);
  }

  module _ (lit_level : level ≢ 0) (lit_colour : rgb_peak c ≢ 0) where
    recipe : List ℕ
    recipe = recipe_of c mapping

    IsMix-result :
        any_nonzero (map (levels_of level (rgb_peak c) (maximum recipe)) recipe) ≡ true
        → IsMix c level mapping (map (levels_of level (rgb_peak c) (maximum recipe)) recipe)
    unfolding recipe
    IsMix-result e =
        let top = maximum recipe in
        let positive : 0 < top = recipe_pos c mapping primaries (omega arith) in
        let f = levels_of level (rgb_peak c) top in
        record {
          sized =
              length-map f recipe
              ∙ length-map (component c (extracted_white c mapping)) mapping
              ∙ six;
          within =
              All-map (λ v. v ≤ top) (λ v. v ≤ level) f
                (λ v h. level_le level (rgb_peak c) top v positive small h) recipe
                (le-maximum recipe);
          levels = λ r. f (component c (extracted_white c mapping) r);
          by_role = map-map f (component c (extracted_white c mapping)) mapping;
          dark = omega (arith, level_dark level (rgb_peak c) top positive);
          lit = (λ _. (lit_level, lit_colour), λ _. e);
        }

    IsMix-ties : IsMix c level mapping (map (λ v. if v == maximum recipe then 1 else 0) recipe)
    unfolding recipe
    IsMix-ties =
        let top = maximum recipe in
        let positive : 0 < top = recipe_pos c mapping primaries (omega arith) in
        let f : ℕ → ℕ = λ v. if v == top then 1 else 0 in
        record {
          sized =
              length-map f recipe
              ∙ length-map (component c (extracted_white c mapping)) mapping
              ∙ six;
          within =
              All-map (λ v. v ≤ top) (λ v. v ≤ level) f (λ v h. ground arith) recipe
                (le-maximum recipe);
          levels = λ r. f (component c (extracted_white c mapping) r);
          by_role = map-map f (component c (extracted_white c mapping)) mapping;
          dark = ground arith;
          lit = (
            λ _. (lit_level, lit_colour),
            λ _.
                ties_lit recipe
                  (omega (arith, length-map (component c (extracted_white c mapping)) mapping)),
          );
        }

  -- Valid input is always mixed: the denominator is never zero.
  pub mix_lem : (out : List ℕ) × (mix c level mapping ≡ ok out) × IsMix c level mapping out
  unfolding recipe
  mix_lem = elim (ℕ_discrete level 0) [
    | yes dark ↦ (zero_channels, mix_dark (inl dark), IsMix-zero (inl dark))
    | no lit ↦ elim (ℕ_discrete (rgb_peak c) 0) [
      | yes black ↦ (zero_channels, mix_dark (inr black), IsMix-zero (inr black))
      | no coloured ↦ (
        quantized level (rgb_peak c) (recipe_of c mapping),
        mix_lit lit coloured,
        elim (quantized_cases level (rgb_peak c) (recipe_of c mapping)) [
          | inl (e, q) ↦ rw q (IsMix-result lit coloured e)
          | inr q ↦ rw q (IsMix-ties lit coloured)
        ],
      )
    ]
  ]

-- A colour, a level and a role mapping that pass validation are always mixed, into six levels, none
-- above the chosen level, one for each role, zero for unused channels, and not all zero exactly if
-- neither the level nor the colour is zero.
pub mix_rgb_total :
    (rgb intensity roles : Value) (c : Rgb) (level : ℕ) (mapping : List Role)
    → validate_rgb rgb ≡ ok c
    → validate_intensity intensity ≡ ok level
    → validate_roles roles ≡ ok mapping
    → (out : List ℕ) × (mix_rgb rgb intensity roles ≡ ok out) × IsMix c level mapping out
unfolding mix_rgb
mix_rgb_total rgb intensity roles c level mapping hc hl hm =
    let (six, primaries) = validate_roles_sound roles mapping hm in
    let (out, e, m) = mix_lem c level mapping six primaries (validate_rgb_sound rgb c hc) in
    (out, rw (hc, hl, hm) e, m)
