-- ===== src/Datatypes.antt =====
-- The numeric datatypes of OWL 2 RL:
-- rdflib-reasoning-engine/src/rdflib_reasoning/engine/owl2_rl_datatypes.py.
pub mod Facets
pub mod Words
use rdflib_reasoning.Base.{
  ℕ, zero, suc, ◌<◌, ◌-◌, ◌*◌, ◌^◌, String, string_eq, nat_eq, Bool, true, false, ◌&&◌, ◌||◌, ◌==◌,
  not, Option, none, some, List, [], ◌∷◌, if◌then◌else◌, contains,
}
use Prim.Native.Nat.{◌%◌, ◌/◌}
use rdflib_reasoning.Base.Int.{ℤ, pos, negsuc, neg, compare_int, is_le, is_lt}
use rdflib_reasoning.Rdf.{Node, uri_ref, node_eq}

abbrev pub xsd_decimal : Node
xsd_decimal = uri_ref "http://www.w3.org/2001/XMLSchema#decimal"

abbrev pub xsd_float : Node
xsd_float = uri_ref "http://www.w3.org/2001/XMLSchema#float"

abbrev pub xsd_double : Node
xsd_double = uri_ref "http://www.w3.org/2001/XMLSchema#double"

abbrev pub xsd_integer : Node
xsd_integer = uri_ref "http://www.w3.org/2001/XMLSchema#integer"

abbrev pub xsd_non_negative_integer : Node
xsd_non_negative_integer = uri_ref "http://www.w3.org/2001/XMLSchema#nonNegativeInteger"

abbrev pub xsd_non_positive_integer : Node
xsd_non_positive_integer = uri_ref "http://www.w3.org/2001/XMLSchema#nonPositiveInteger"

abbrev pub xsd_positive_integer : Node
xsd_positive_integer = uri_ref "http://www.w3.org/2001/XMLSchema#positiveInteger"

abbrev pub xsd_negative_integer : Node
xsd_negative_integer = uri_ref "http://www.w3.org/2001/XMLSchema#negativeInteger"

abbrev pub xsd_long : Node
xsd_long = uri_ref "http://www.w3.org/2001/XMLSchema#long"

abbrev pub xsd_int : Node
xsd_int = uri_ref "http://www.w3.org/2001/XMLSchema#int"

abbrev pub xsd_short : Node
xsd_short = uri_ref "http://www.w3.org/2001/XMLSchema#short"

abbrev pub xsd_byte : Node
xsd_byte = uri_ref "http://www.w3.org/2001/XMLSchema#byte"

abbrev pub xsd_unsigned_long : Node
xsd_unsigned_long = uri_ref "http://www.w3.org/2001/XMLSchema#unsignedLong"

abbrev pub xsd_unsigned_int : Node
xsd_unsigned_int = uri_ref "http://www.w3.org/2001/XMLSchema#unsignedInt"

abbrev pub xsd_unsigned_short : Node
xsd_unsigned_short = uri_ref "http://www.w3.org/2001/XMLSchema#unsignedShort"

abbrev pub xsd_unsigned_byte : Node
xsd_unsigned_byte = uri_ref "http://www.w3.org/2001/XMLSchema#unsignedByte"

abbrev pub integer_types : List Node
integer_types =
    xsd_integer ∷ xsd_non_negative_integer ∷ xsd_non_positive_integer ∷ xsd_positive_integer
    ∷ xsd_negative_integer ∷ xsd_long ∷ xsd_int ∷ xsd_short ∷ xsd_byte ∷ xsd_unsigned_long
    ∷ xsd_unsigned_int ∷ xsd_unsigned_short ∷ xsd_unsigned_byte ∷ []

-- A decimal.Decimal: a coefficient and the number of its decimal places, or one of the special
-- values.
-- `not_a_number` is the quiet NaN: a signaling one, on which some of the tests raise, is left out.
pub data Decimal : Type 0 where
  finite : (coefficient : ℤ) (places : ℕ) → Decimal
  infinity not_a_number : Decimal

-- What `literal.value` may be, as far as the numeric tests tell it apart. A float that is a number
-- stands as the decimal that Python prints for it.
pub data PyValue : Type 0 where
  py_bool : Bool → PyValue
  py_int : ℤ → PyValue
  py_float : (coefficient : ℤ) (places : ℕ) → PyValue
  py_float_special : PyValue
  py_decimal : Decimal → PyValue
  py_other : PyValue

unfoldable pub as_decimal : PyValue → Option Decimal
as_decimal (py_decimal value) = some value
as_decimal (py_bool value) = none
as_decimal (py_int value) = some (Decimal.finite value 0)
as_decimal (py_float coefficient places) = some (Decimal.finite coefficient places)
as_decimal py_float_special = none
as_decimal py_other = none

-- `int(value)` of a whole number with these places.
unfoldable pub magnitude : ℤ → ℕ
magnitude (pos n) = n
magnitude (negsuc n) = suc n

unfoldable pub with_sign_of : ℤ → ℕ → ℤ
unfolding neg
with_sign_of (pos _) n = pos n
with_sign_of (negsuc _) n = neg (pos n)

-- A NaN differs from itself, and the integral value of an infinity is the infinity.
unfoldable pub is_whole_number : Decimal → Bool
unfolding magnitude
is_whole_number (Decimal.finite coefficient places) = magnitude coefficient % (10 ^ places) == 0
is_whole_number Decimal.infinity = true
is_whole_number Decimal.not_a_number = false

-- `int(decimal_value)`; none is the error that the source catches.
unfoldable pub to_int : Decimal → Option ℤ
unfolding magnitude with_sign_of
to_int (Decimal.finite coefficient places) =
    some (with_sign_of coefficient (magnitude coefficient / (10 ^ places)))
to_int Decimal.infinity = none
to_int Decimal.not_a_number = none

-- `a <= b` and `a < b`
unfoldable pub int_le : ℤ → ℤ → Bool
unfolding compare_int
int_le a b = is_le (compare_int a b)

unfoldable pub int_lt : ℤ → ℤ → Bool
unfolding compare_int
int_lt a b = is_lt (compare_int a b)

-- `low <= value <= high`
unfoldable pub within : ℤ → ℤ → ℤ → Bool
unfolding int_le
within low high value = int_le low value && int_le value high

unfoldable pub integer_in_facets : ℤ → Node → Bool
unfolding int_le int_lt within neg
integer_in_facets value datatype =
    if datatype == xsd_integer
    then true
    else if datatype == xsd_non_negative_integer
    then int_le (pos 0) value
    else if datatype == xsd_non_positive_integer
    then int_le value (pos 0)
    else if datatype == xsd_positive_integer
    then int_lt (pos 0) value
    else if datatype == xsd_negative_integer
    then int_lt value (pos 0)
    else if datatype == xsd_long
    then within (neg (pos (2 ^ 63))) (pos (2 ^ 63 - 1)) value
    else if datatype == xsd_int
    then within (neg (pos (2 ^ 31))) (pos (2 ^ 31 - 1)) value
    else if datatype == xsd_short
    then within (neg (pos (2 ^ 15))) (pos (2 ^ 15 - 1)) value
    else if datatype == xsd_byte
    then within (neg (pos (2 ^ 7))) (pos (2 ^ 7 - 1)) value
    else if datatype == xsd_unsigned_long
    then within (pos 0) (pos (2 ^ 64 - 1)) value
    else if datatype == xsd_unsigned_int
    then within (pos 0) (pos (2 ^ 32 - 1)) value
    else if datatype == xsd_unsigned_short
    then within (pos 0) (pos (2 ^ 16 - 1)) value
    else if datatype == xsd_unsigned_byte
    then within (pos 0) (pos (2 ^ 8 - 1)) value
    else false

-- `float(value)` overflows for an integer from halfway between the greatest double and the next
-- power of two; a decimal becomes an infinity there instead.
unfoldable pub fits_float : ℤ → Bool
unfolding magnitude int_lt
fits_float value = int_lt (pos (magnitude value)) (pos (2 ^ 1024 - 2 ^ 970))

unfoldable pub is_float_value : PyValue → Bool
unfolding fits_float
is_float_value (py_bool value) = false
is_float_value (py_int value) = fits_float value
is_float_value (py_float coefficient places) = true
is_float_value py_float_special = true
is_float_value (py_decimal value) = true
is_float_value py_other = false

unfoldable pub integer_value_in : Option ℤ → Node → Bool
unfolding integer_in_facets
integer_value_in none datatype = false
integer_value_in (some value) datatype = integer_in_facets value datatype

unfoldable pub decimal_in_datatype : Option Decimal → Node → Bool
unfolding is_whole_number to_int integer_value_in
decimal_in_datatype none datatype = false
decimal_in_datatype (some value) datatype =
    if datatype == xsd_decimal
    then true
    else if contains integer_types datatype
    then (if not (is_whole_number value) then false else integer_value_in (to_int value) datatype)
    else false

unfoldable pub numeric_in_datatype : PyValue → Node → Bool
unfolding is_float_value as_decimal decimal_in_datatype
numeric_in_datatype value datatype =
    if datatype == xsd_float
    then is_float_value value
    else if datatype == xsd_double
    then is_float_value value
    else decimal_in_datatype (as_decimal value) datatype
