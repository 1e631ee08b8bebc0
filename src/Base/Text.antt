-- ===== src/Base/Text.antt =====
-- Text as the list of its code points, and equality tests from decisions.
use Prim.Native.Nat.{ℕ}
use Prim.Native.Char.{code}
use Prim.Native.String.{String}
use mathlib.Core.Path.{◌≡◌, refl}
use mathlib.Core.Bool.{Bool, true, false, ◌&&◌, ◌||◌}
use hahapent.Base.Tests.{◌==◌, ltb}
use native.Mathlib.Omega.{arith}
use mathlib.Core.Logic.{◌↔◌}
use mathlib.Core.List.{List, [], ◌∷◌}

abbrev pub Text : Type 0
Text = List ℕ

abbrev pub codes : String → Text
codes String.[] = []
codes (String.◌∷◌ c s) = code c ∷ codes s

unfoldable pub text_eq : Text → Text → Bool
text_eq [] [] = true
text_eq [] (b ∷ bs) = false
text_eq (a ∷ xs) [] = false
text_eq (a ∷ xs) (b ∷ bs) = a == b && text_eq xs bs

pub text_eq_iff : (xs ys : Text) → (text_eq xs ys ≡ true) ↔ (xs ≡ ys)
unfolding text_eq
text_eq_iff [] [] = (λ h. refl, λ h. refl)
text_eq_iff [] (b ∷ bs) = (λ h. cc, λ h. cc)
text_eq_iff (a ∷ xs) [] = (λ h. cc, λ h. cc)
text_eq_iff (a ∷ xs) (b ∷ bs) =
    (λ h. ground (arith, text_eq_iff xs bs), λ h. ground (arith, text_eq_iff xs bs))

-- The order of Python's strings, by code points.
unfoldable pub text_lt : Text → Text → Bool
text_lt [] [] = false
text_lt [] (b ∷ bs) = true
text_lt (a ∷ xs) [] = false
text_lt (a ∷ xs) (b ∷ bs) = ltb a b || (a == b && text_lt xs bs)

module _ {ℓ} {A : Type ℓ} where
  -- `a == b`, for a type whose equality is decided
  unfoldable pub same : Discrete A → A → A → Bool
  same decide a b = elim (decide a b) [ yes h ↦ true | no h ↦ false ]

  pub same_iff : (decide : Discrete A) (a b : A) → (same decide a b ≡ true) ↔ (a ≡ b)
  unfolding same
  same_iff decide a b =
      elim (decide a b) as (λ d. (elim d [ yes h ↦ true | no h ↦ false ] ≡ true) ↔ (a ≡ b)) [
        | yes h ↦ (λ _. h, λ _. refl)
        | no h ↦ (λ e. cc, λ e. absurd (h e))
      ]

  pub same_refl : (decide : Discrete A) (a : A) → same decide a a ≡ true
  same_refl decide a = (same_iff decide a a).1 refl
