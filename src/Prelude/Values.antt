-- ===== src/Prelude/Values.antt =====
-- JSON values, as the program reads them after a parse. An object is read by its fields.
use Prim.Native.Nat.{ℕ}
use Prim.Native.String.{String}
use mathlib.Core.Bool.{Bool, true, false, not}
use gooseherd.Prelude.Equality.{◌==◌, String-Eq, Nat-Eq}

-- A number is a whole one from 0 on, none at all, or another one.
mutual
  pub data Value : Type 0 where
    missing null : Value
    truth : Bool → Value
    string_value : String → Value
    whole : ℕ → Value
    other_number not_a_number : Value
    items : Items → Value
    object : (String → Value) → Value

  pub data Items : Type 0 where
    nil : Items
    cons : Value → Items → Items

abbrev pub is_text : Value → Bool
is_text (string_value s) = true
is_text value = false

abbrev pub is_filled_text : Value → Bool
is_filled_text (string_value s) = not (s == "")
is_filled_text value = false

abbrev pub is_this_text : String → Value → Bool
is_this_text t (string_value s) = s == t
is_this_text t value = false

abbrev pub is_whole : Value → Bool
is_whole (whole n) = true
is_whole value = false

abbrev pub is_positive : Value → Bool
is_positive (whole n) = not (n == 0)
is_positive value = false

abbrev pub is_one : Value → Bool
is_one (whole n) = n == 1
is_one value = false

-- Whether JavaScript takes a value for true.
abbrev pub is_truthy : Value → Bool
is_truthy missing = false
is_truthy null = false
is_truthy (truth b) = b
is_truthy (string_value s) = not (s == "")
is_truthy (whole n) = not (n == 0)
is_truthy other_number = true
is_truthy not_a_number = false
is_truthy (items xs) = true
is_truthy (object f) = true

-- A JavaScript number: a whole one from 0 on, another one (negative, with a fraction or infinite), or
-- NaN.
pub data Number : Type 0 where
  natural : ℕ → Number
  not_natural nan : Number

abbrev pub number_value : Number → Value
number_value (natural n) = whole n
number_value not_natural = other_number
number_value nan = not_a_number

abbrev pub is_natural : Number → Bool
is_natural (natural n) = true
is_natural n = false

abbrev pub is_positive_natural : Number → Bool
is_positive_natural (natural n) = not (n == 0)
is_positive_natural n = false
