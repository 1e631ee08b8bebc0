-- ===== src/Compact/Valid.antt =====
-- compact.py: what a value that passes validation is known to be.
use hahapent.Base.{
  ℕ, ◌≤◌, ◌≡◌, refl, true, Option, none, some, List, [], ◌∷◌, length, arith, All, Outcome, ok, err,
}
use hahapent.Base.Value.{Value, int_upto, int_upto-le, sequence, each}
use hahapent.Compact.Roles.{
  CompactError, Role, has_primaries, Rgb, validate_rgb, validate_roles, channels_of, integer_tuple,
  bad_rgb, bad_channels, rgb_of, sized, number_items,
}
use hahapent.Compact.Recipe.{rgb_peak}

-- Accepted roles are six, and name each primary.
pub validate_roles_sound :
    (roles : Value) (mapping : List Role)
    → validate_roles roles ≡ ok mapping
    → (length mapping ≡ 6) × (has_primaries mapping ≡ true)
unfolding validate_roles
validate_roles_sound roles mapping h = ground arith

each_cons {ℓ} :
    {A : Type ℓ} (f : Value → Option A) (v : Value) (vs : List Value) {ns : List A}
    → each f (v ∷ vs) ≡ some ns
    → (a : A) × (rest : List A) × (f v ≡ some a) × (each f vs ≡ some rest) × (ns ≡ a ∷ rest)
each_cons {A} f v vs {ns} h = go (f v) (each f vs) refl refl h
  where
    go :
        (o : Option A) (p : Option (List A))
        → f v ≡ o
        → each f vs ≡ p
        → each f (v ∷ vs) ≡ some ns
        → (a : A) × (rest : List A) × (f v ≡ some a) × (each f vs ≡ some rest) × (ns ≡ a ∷ rest)
    go none p e e' h = ground arith
    go (some a) none e e' h = ground arith
    go (some a) (some rest) e e' h = (a, rest, e, e', ground arith)

pub each-int_upto :
    (most : ℕ) (vs : List Value) (ns : List ℕ)
    → each (int_upto most) vs ≡ some ns
    → All (λ n. n ≤ most) ns
each-int_upto most [] [] h = tt
each-int_upto most [] (n ∷ ns) h = cc
each-int_upto most (v ∷ vs) ns h =
    let (n, rest, first, later, split) = each_cons (int_upto most) v vs h in
    rw split (int_upto-le most v first, each-int_upto most vs rest later)

number_items_bound :
    (most : ℕ) (items : Option (List Value)) (ns : List ℕ)
    → number_items most items ≡ some ns
    → All (λ n. n ≤ most) ns
number_items_bound most none ns h = cc
number_items_bound most (some vs) ns h = each-int_upto most vs ns h

sized_inv :
    (size : ℕ) (e : CompactError) (ms : List ℕ) {ns : List ℕ}
    → sized size e (some ms) ≡ ok ns
    → (length ms ≡ size) × (ns ≡ ms)
sized_inv size e ms h = ground arith

-- An accepted tuple has the size asked for, and numbers in range.
pub integer_tuple_sound :
    (value : Value) (size most : ℕ) (e : CompactError) (ns : List ℕ)
    → integer_tuple value size most e ≡ ok ns
    → (length ns ≡ size) × All (λ n. n ≤ most) ns
unfolding integer_tuple
integer_tuple_sound value size most e ns h = go (number_items most (sequence value)) refl h
  where
    go :
        (o : Option (List ℕ))
        → number_items most (sequence value) ≡ o
        → sized size e o ≡ ok ns
        → (length ns ≡ size) × All (λ n. n ≤ most) ns
    go none e' h = cc
    go (some ms) e' h =
        let (fits, same) = sized_inv size e ms h in
        rw same (fits, number_items_bound most (sequence value) ms e')

pub validate_rgb_sound : (value : Value) (c : Rgb) → validate_rgb value ≡ ok c → rgb_peak c ≤ 255
unfolding validate_rgb
validate_rgb_sound value c h = go (integer_tuple value 3 255 bad_rgb) refl h
  where
    go :
        (o : Outcome CompactError (List ℕ))
        → integer_tuple value 3 255 bad_rgb ≡ o
        → rgb_of o ≡ ok c
        → rgb_peak c ≤ 255
    go (err e) q h = cc
    go (ok (r ∷ g ∷ b ∷ [])) q h =
        let known = integer_tuple_sound value 3 255 bad_rgb (r ∷ g ∷ b ∷ []) q in
        ground (arith, known.1)
    go (ok _) q h = cc

-- Six channel levels, none above 100.
pub channels_of_sound :
    (value : Value) (ns : List ℕ)
    → channels_of value ≡ ok ns
    → (length ns ≡ 6) × All (λ n. n ≤ 100) ns
unfolding channels_of
channels_of_sound value ns h = integer_tuple_sound value 6 100 bad_channels ns h
