-- ===== src/Json.antt =====
-- The JSON values that the program reads from configuration columns and request bodies, and the
-- tests that it makes on them (`typeof`, `Number.isInteger`, `<`). Numbers are exact.
use get_mcp.Base.{
  ℕ, suc, ◌+◌, ◌*◌, Bool, true, false, Option, none, some, ltb, if◌then◌else◌, Text, is_empty, not,
  ◌==◌, ℤ, pos, negsuc,
}

-- A whole number, or `z / (d + 1)` where that is none.
pub data Number : Type 0 where
  integer : ℤ → Number
  fraction : ℤ → ℕ → Number

mutual
  pub data Json : Type 0 where
    null : Json
    boolean : Bool → Json
    number : Number → Json
    string : Text → Json
    array : Items → Json
    object : Fields → Json

  pub data Items : Type 0 where
    nil : Items
    cons : Json → Items → Items

  pub data Fields : Type 0 where
    end : Fields
    field : Text → Json → Fields → Fields

unfoldable pub find_field : Text → Fields → Option Json
find_field k end = none
find_field k (field j v fs) = if j == k then some v else find_field k fs

-- `cfg.key`, where `cfg` is `value ?? {}`; what is no object has none of the keys that are read.
unfoldable pub get : Json → Text → Option Json
unfolding find_field
get (object fs) k = find_field k fs
get _ k = none

-- `typeof v === 'string' ? v : fallback`
unfoldable pub string_or : Option Json → Text → Text
string_or (some (string s)) fallback = s
string_or _ fallback = fallback

-- `Number.isInteger(v) ? v : fallback`
unfoldable pub integer_or : Option Json → ℤ → ℤ
integer_or (some (number (integer z))) fallback = z
integer_or _ fallback = fallback

-- `typeof v === 'number' ? v : fallback`
unfoldable pub number_or : Option Json → Number → Number
number_or (some (number n)) fallback = n
number_or _ fallback = fallback

-- `Boolean(v)`
unfoldable pub truthy : Option Json → Bool
truthy none = false
truthy (some null) = false
truthy (some (boolean b)) = b
truthy (some (number (integer (pos n)))) = ltb 0 n
truthy (some (number (integer (negsuc n)))) = true
truthy (some (number (fraction z d))) = true
truthy (some (string s)) = not (is_empty s)
truthy (some (array xs)) = true
truthy (some (object fs)) = true

abbrev pub numerator : Number → ℤ
numerator (integer z) = z
numerator (fraction z d) = z

abbrev pub denominator : Number → ℕ
denominator (integer z) = 1
denominator (fraction z d) = suc d

abbrev positive_part : ℤ → ℕ
positive_part (pos n) = n
positive_part (negsuc n) = 0

abbrev negative_part : ℤ → ℕ
negative_part (pos n) = 0
negative_part (negsuc n) = suc n

-- `a < b`, by cross multiplication.
unfoldable pub less : Number → Number → Bool
less a b =
    ltb (positive_part (numerator a) * denominator b + negative_part (numerator b) * denominator a)
      (positive_part (numerator b) * denominator a + negative_part (numerator a) * denominator b)
