-- ===== src/Prelude/Json.antt =====
-- JSON values as Python reads them, and binary floating-point numbers.
use taha_mohammadi_platform.Prelude.{
  ℕ, zero, suc, ◌*◌, String, Option, none, some, List, [], ◌∷◌, Bool, true, false, ◌==◌,
  if◌then◌else◌, ltb,
}
use taha_mohammadi_platform.Prelude.Decimal.{ℤ, pos, negsuc}

-- A floating-point number: not a number, infinite, or a mantissa times a power of two with a sign.
pub data Float : Type 0 where
  nan : Float
  infinite : Float
  finite : (negative : Bool) (mantissa : ℕ) (exponent : ℤ) → Float

-- `math.isfinite(v)`
abbrev pub isfinite : Float → Bool
isfinite nan = false
isfinite infinite = false
isfinite (finite _ _ _) = true

unfoldable pub power_of_two : ℕ → ℕ
power_of_two zero = 1
power_of_two (suc n) = 2 * power_of_two n

-- `abs(v) > bound` of a finite number.
unfoldable pub beyond : ℕ → Float → Bool
unfolding power_of_two
beyond bound nan = false
beyond bound infinite = true
beyond bound (finite _ m (pos e)) = ltb bound (m * power_of_two e)
beyond bound (finite _ m (negsuc e)) = ltb (bound * power_of_two (suc e)) m

mutual
  pub data Json : Type 0 where
    null : Json
    boolean : Bool → Json
    integer : ℤ → Json
    number : Float → Json
    text : String → Json
    array : Items → Json
    object : Fields → Json

  pub data Items : Type 0 where
    no_items : Items
    item : Json → Items → Items

  pub data Fields : Type 0 where
    no_fields : Fields
    field : String → Json → Fields → Fields

unfoldable pub items : Items → List Json
items no_items = []
items (item v rest) = v ∷ items rest

-- `mapping.get(key)`
unfoldable pub get : Fields → String → Option Json
get no_fields key = none
get (field name v rest) key = let later = get rest key in if name == key then some v else later
