-- ===== src/Compact/HalfUp.antt =====
-- compact.py `_half_up`: an exact nonnegative ratio rounded to the nearest integer, ties upward.
use native.Mathlib.Nat.{div-add-mod, mod-lt, div-lt_iff_lt-mul, le-div_iff_mul-le}
use hahapent.Base.{ℕ, suc, ◌+◌, ◌*◌, ◌%◌, ◌≤◌, ◌<◌, ◌≡◌, arith}
use hahapent.Compact.Recipe.{half_up}

-- The rounded value is the one integer q with n / d in [q - 1/2, q + 1/2).
pub half_up_nearest :
    (n d : ℕ)
    → 0 < d
    → (2 * d * half_up n d ≤ 2 * n + d) × (2 * n + d < 2 * d * half_up n d + 2 * d)
unfolding half_up
half_up_nearest n d h =
    let e = div-add-mod (2 * n + d) (2 * d) in
    let l : (2 * n + d) % (2 * d) < 2 * d = mod-lt (2 * n + d) (omega arith) in
    (omega arith, omega arith)

pub half_up_le : (n d k : ℕ) → 0 < d → n ≤ k * d → half_up n d ≤ k
unfolding half_up
half_up_le n d k h l =
    let small : 2 * n + d < suc k * (2 * d) = omega arith in
    omega (arith, (div-lt_iff_lt-mul {k = 2 * d} {x = 2 * n + d} {y = suc k} (omega arith)).1 small)

pub le-half_up : (n d k : ℕ) → 0 < d → k * d ≤ n → k ≤ half_up n d
unfolding half_up
le-half_up n d k h l = (le-div_iff_mul-le (omega arith)).1 (omega arith)

pub half_up_exact : (d k : ℕ) → 0 < d → half_up (k * d) d ≡ k
half_up_exact d k h = omega (arith, half_up_le (k * d) d k h, le-half_up (k * d) d k h)

pub half_up_mono : (n m d : ℕ) → 0 < d → n ≤ m → half_up n d ≤ half_up m d
unfolding half_up
half_up_mono n m d h l =
    (le-div_iff_mul-le (omega arith)).1 (omega (arith, (half_up_nearest n d h).0))
