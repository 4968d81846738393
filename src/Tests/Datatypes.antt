-- ===== src/Tests/Datatypes.antt =====
-- owl2_rl_datatypes.py: values at the bounds of the integer datatypes.
use native.Mathlib.Decide
use rdflib_reasoning.Base.{◌≡◌, ◌↔◌, refl, string_dec, true, false}
use rdflib_reasoning.Base.Int.{pos}
use rdflib_reasoning.Rdf.{node_dec}
use rdflib_reasoning.Datatypes.{
  xsd_integer, xsd_short, xsd_byte, py_int, finite, py_decimal, integer_in_facets,
  numeric_in_datatype, decimal_in_datatype, as_decimal, is_whole_number, to_int, magnitude,
  with_sign_of, integer_value_in, within, int_le,
}
use rdflib_reasoning.Datatypes.Facets.{
  byte_short, short_int, int_long, long_integer, through, numeric_in_base,
}
use rdflib_reasoning.Datatypes.Words.{to_word, signed_value, short_16, signed_round_trip}

unfoldable pub program : Unit {0}
unfolding numeric_in_datatype decimal_in_datatype as_decimal is_whole_number to_int magnitude
    with_sign_of integer_value_in integer_in_facets within int_le string_dec node_dec
    native.Mathlib.Decide.ℕ_discrete
program = tt

greatest_short : integer_in_facets (pos 32767) xsd_short ≡ true
unfolding program
greatest_short = refl

beyond_short : integer_in_facets (pos 32768) xsd_short ≡ false
unfolding program
beyond_short = refl

-- 12.50 is no integer, and 300.00 is one.
not_whole : numeric_in_datatype (py_decimal (finite (pos 1250) 2)) xsd_integer ≡ false
unfolding program
not_whole = refl

whole : numeric_in_datatype (py_decimal (finite (pos 30000) 2)) xsd_integer ≡ true
unfolding program
whole = refl

small : numeric_in_datatype (py_int (pos 100)) xsd_byte ≡ true
unfolding program
small = refl

numeric_in_base_example : numeric_in_datatype (py_int (pos 100)) xsd_integer ≡ true
numeric_in_base_example =
    numeric_in_base (py_int (pos 100)) xsd_byte xsd_integer
      (through byte_short (through short_int (through int_long long_integer))) small

signed_round_trip_example :
    (signed_value 16 (to_word 16 (pos 32768)) ≡ pos 32768)
    ↔ (integer_in_facets (pos 32768) xsd_short ≡ true)
signed_round_trip_example = signed_round_trip xsd_short 16 (pos 32768) short_16
