-- ===== src/Base/Value.antt =====
-- The values of Python's dynamic types that the validators tell apart.
use hahapent.Base.Tests.{leb, if◌then◌else◌}
use Prim.Native.Nat.{ℕ, ◌≤◌}
use Prim.Native.String.{String}
use mathlib.Core.Path.{◌≡◌, refl}
use mathlib.Core.Bool.{Bool, true, false, ◌&&◌, ◌||◌}
use mathlib.Core.Option.{Option, none, some}
use mathlib.Core.List.{List, [], ◌∷◌}
use text.Mathlib.Text.{◌==◌ as str_eq}
use native.Mathlib.Omega.{arith}

-- `negsuc n` is -(n + 1).
pub data ℤ : Type 0 where
  pos : ℕ → ℤ
  negsuc : ℕ → ℤ

-- `other n` stands for any object of another type (floats among them).
mutual
  pub data Value : Type 0 where
    null : Value
    bool : Bool → Value
    int : ℤ → Value
    str : String → Value
    list : Values → Value
    tuple : Values → Value
    dict : Fields → Value
    other : ℕ → Value

  pub data Values : Type 0 where
    nil : Values
    cons : Value → Values → Values

  pub data Fields : Type 0 where
    end : Fields
    field : String → Value → Fields → Fields

abbrev pub to_list : Values → List Value
to_list nil = []
to_list (cons v vs) = v ∷ to_list vs

abbrev pub of_list : List Value → Values
of_list [] = nil
of_list (v ∷ vs) = cons v (of_list vs)

-- A nonnegative int as a value.
abbrev pub of_ℕ : ℕ → Value
of_ℕ n = int (pos n)

-- `type(value) is int and 0 <= value <= most`; a bool is no such int.
abbrev pub int_upto : ℕ → Value → Option ℕ
int_upto most (int (pos n)) = if leb n most then some n else none
int_upto most _ = none

-- A tuple or a list, as its items.
abbrev pub sequence : Value → Option (List Value)
sequence (list vs) = some (to_list vs)
sequence (tuple vs) = some (to_list vs)
sequence _ = none

pub to_list-of_list : (vs : List Value) → to_list (of_list vs) ≡ vs
to_list-of_list [] = refl
to_list-of_list (v ∷ vs) = λ i. v ∷ to_list-of_list vs i

pub int_upto-le : (most : ℕ) (v : Value) {n : ℕ} → int_upto most v ≡ some n → n ≤ most
int_upto-le most (int (pos n)) h = ground arith
int_upto-le most (int (negsuc n)) h = cc
int_upto-le most null h = cc
int_upto-le most (bool b) h = cc
int_upto-le most (str s) h = cc
int_upto-le most (list s) h = cc
int_upto-le most (tuple s) h = cc
int_upto-le most (dict s) h = cc
int_upto-le most (other s) h = cc

-- `value.get(key)` of a dict, whose keys are all different.
unfoldable pub lookup_field : String → Fields → Option Value
lookup_field k end = none
lookup_field k (field j v rest) = if str_eq j k then some v else lookup_field k rest

abbrev pub in_texts : List String → String → Bool
in_texts [] s = false
in_texts (k ∷ ks) s = str_eq k s || in_texts ks s

abbrev pub keys_within : List String → Fields → Bool
keys_within ks end = true
keys_within ks (field k v rest) = in_texts ks k && keys_within ks rest

abbrev pub has_keys : List String → Fields → Bool
has_keys [] fields = true
has_keys (k ∷ ks) fields =
    let rest = has_keys ks fields in elim (lookup_field k fields) [ none ↦ false | some v ↦ rest ]

-- `set(value) == {…}`
abbrev pub has_only : List String → Fields → Bool
has_only ks fields = keys_within ks fields && has_keys ks fields

-- Every item converted, or nothing.
abbrev pub each {ℓ} : {A : Type ℓ} → (Value → Option A) → List Value → Option (List A)
each f [] = some []
each f (v ∷ vs) = elim (f v) [
  | none ↦ none
  | some a ↦ elim (each f vs) [ none ↦ none | some rest ↦ some (a ∷ rest) ]
]
