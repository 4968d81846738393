-- ===== src/Datatypes/Facets.antt =====
-- owl2_rl_datatypes.py: the integer datatypes against two's complement and against each other.
use rdflib_reasoning.Base.{
  ℕ, ◌≤◌, ◌≡◌, refl, sym, ◌==◌, not, contains, inl, inr, Option-cases, Bool-cases, ◌∙◌, string_dec,
  Bool, true, false, Option, none, some, if◌then◌else◌, arith,
}
use rdflib_reasoning.Base.Int.{ℤ, pos, negsuc, neg, compare_int}
use rdflib_reasoning.Rdf.{Node, node_dec, node_eq}
use rdflib_reasoning.Datatypes.{
  xsd_decimal, xsd_float, xsd_double, integer_types, Decimal, xsd_integer, xsd_non_negative_integer,
  xsd_non_positive_integer, xsd_positive_integer, xsd_negative_integer, xsd_long, xsd_int,
  xsd_short, xsd_byte, xsd_unsigned_long, xsd_unsigned_int, xsd_unsigned_short, xsd_unsigned_byte,
  PyValue, as_decimal, is_whole_number, to_int, int_le, int_lt, within, integer_in_facets,
  integer_value_in, decimal_in_datatype, numeric_in_datatype,
}

-- The direct derivations among the numeric datatypes, as XML Schema has them.
pub data IsDerived : Node → Node → Type 0 where
  integer_decimal : IsDerived xsd_integer xsd_decimal
  non_positive_integer : IsDerived xsd_non_positive_integer xsd_integer
  negative_non_positive : IsDerived xsd_negative_integer xsd_non_positive_integer
  long_integer : IsDerived xsd_long xsd_integer
  int_long : IsDerived xsd_int xsd_long
  short_int : IsDerived xsd_short xsd_int
  byte_short : IsDerived xsd_byte xsd_short
  non_negative_integer : IsDerived xsd_non_negative_integer xsd_integer
  positive_non_negative : IsDerived xsd_positive_integer xsd_non_negative_integer
  unsigned_long_non_negative : IsDerived xsd_unsigned_long xsd_non_negative_integer
  unsigned_int_long : IsDerived xsd_unsigned_int xsd_unsigned_long
  unsigned_short_int : IsDerived xsd_unsigned_short xsd_unsigned_int
  unsigned_byte_short : IsDerived xsd_unsigned_byte xsd_unsigned_short
  -- and through one in between
  through : {a b c : Node} → IsDerived a b → IsDerived b c → IsDerived a c

within-grow :
    (l h k j : ℕ) (value : ℤ)
    → l ≤ k
    → h ≤ j
    → within (negsuc l) (pos h) value ≡ true
    → within (negsuc k) (pos j) value ≡ true
unfolding within int_le compare_int
within-grow l h k j (pos n) low high w = ground (arith, low, high, w)
within-grow l h k j (negsuc n) low high w = ground (arith, low, high, w)

-- An integer datatype, told from the others as the tests of the code do it.
IsInteger : Node → Type 0
IsInteger d =
    (contains integer_types d ≡ true)
    × ((d == xsd_decimal) ≡ false)
    × ((d == xsd_float) ≡ false)
    × ((d == xsd_double) ≡ false)

of_whole : Option Decimal → Node → Bool
unfolding is_whole_number to_int integer_value_in
of_whole none d = false
of_whole (some value) d =
    if not (is_whole_number value) then false else integer_value_in (to_int value) d

numeric-integer :
    (value : PyValue) (d : Node)
    → IsInteger d
    → numeric_in_datatype value d ≡ of_whole (as_decimal value) d
unfolding IsInteger numeric_in_datatype decimal_in_datatype of_whole
numeric-integer value d (is_in, not_decimal, not_float, not_double) =
    elim (Option-cases (as_decimal value)) [
      | inl e ↦ ground (arith, e, is_in, not_decimal, not_float, not_double)
      | inr (v, e) ↦ ground (arith, e, is_in, not_decimal, not_float, not_double)
    ]

integer_value_in_mono :
    (o : Option ℤ) (a b : Node)
    → ((z : ℤ) → integer_in_facets z a ≡ true → integer_in_facets z b ≡ true)
    → integer_value_in o a ≡ true
    → integer_value_in o b ≡ true
unfolding integer_value_in
integer_value_in_mono none a b f h = h
integer_value_in_mono (some z) a b f h = f z h

of_whole_mono :
    (o : Option Decimal) (a b : Node)
    → ((z : ℤ) → integer_in_facets z a ≡ true → integer_in_facets z b ≡ true)
    → of_whole o a ≡ true
    → of_whole o b ≡ true
unfolding of_whole
of_whole_mono none a b f h = h
of_whole_mono (some value) a b f h = elim (Bool-cases (is_whole_number value)) [
  | inl e ↦
      let at_b = integer_value_in_mono (to_int value) a b f (ground (arith, h, e)) in
      ground (arith, e, at_b)
  | inr e ↦ absurd (ground (arith, h, e))
]

lift :
    (value : PyValue) (a b : Node)
    → IsInteger a
    → IsInteger b
    → ((z : ℤ) → integer_in_facets z a ≡ true → integer_in_facets z b ≡ true)
    → numeric_in_datatype value a ≡ true
    → numeric_in_datatype value b ≡ true
lift value a b ka kb f h =
    numeric-integer value b kb
    ∙ of_whole_mono (as_decimal value) a b f (sym (numeric-integer value a ka) ∙ h)

lt_le : (a b : ℤ) → int_lt a b ≡ true → int_le a b ≡ true
unfolding int_lt int_le
lt_le a b h = ground (arith, h)

within-low : (l h z : ℤ) → within l h z ≡ true → int_le l z ≡ true
unfolding within
within-low l h z w = ground (arith, w)

-- An integer value is a decimal.
integer-decimal :
    (value : PyValue)
    → numeric_in_datatype value xsd_integer ≡ true
    → numeric_in_datatype value xsd_decimal ≡ true
unfolding numeric_in_datatype decimal_in_datatype string_dec node_dec
integer-decimal value h = elim (Option-cases (as_decimal value)) [
  | inl e ↦ absurd (ground (arith, h, e))
  | inr (v, e) ↦ ground (arith, e)
]

signed_mono :
    (l h k j : ℕ)
    → l ≤ k
    → h ≤ j
    → (z : ℤ) → within (negsuc l) (pos h) z ≡ true
    → within (negsuc k) (pos j) z ≡ true
signed_mono l h k j low high z w = within-grow l h k j z low high w

unsigned_mono :
    (h j : ℕ) → h ≤ j → (z : ℤ) → within (pos 0) (pos h) z ≡ true → within (pos 0) (pos j) z ≡ true
unfolding within int_le compare_int
unsigned_mono h j high (pos n) w = ground (arith, high, w)
unsigned_mono h j high (negsuc n) w = ground (arith, w)

IsInteger-xsd : IsInteger xsd_integer
unfolding IsInteger string_dec node_dec
IsInteger-xsd = (refl, refl, refl, refl)

-- What a datatype accepts, the datatypes that it is derived from accept too: no bound of a derived
-- datatype is wider than one of its base.
pub numeric_in_base :
    (value : PyValue) (derived base : Node)
    → IsDerived derived base
    → numeric_in_datatype value derived ≡ true
    → numeric_in_datatype value base ≡ true
unfolding IsInteger integer_in_facets string_dec node_dec neg
numeric_in_base value _ _ integer_decimal h = integer-decimal value h
numeric_in_base value _ _ non_positive_integer h =
    lift value xsd_non_positive_integer xsd_integer (refl, refl, refl, refl) IsInteger-xsd
      (λ z _. refl) h
numeric_in_base value _ _ long_integer h =
    lift value xsd_long xsd_integer (refl, refl, refl, refl) IsInteger-xsd (λ z _. refl) h
numeric_in_base value _ _ non_negative_integer h =
    lift value xsd_non_negative_integer xsd_integer (refl, refl, refl, refl) IsInteger-xsd
      (λ z _. refl) h
numeric_in_base value _ _ negative_non_positive h =
    lift value xsd_negative_integer xsd_non_positive_integer (refl, refl, refl, refl)
      (refl, refl, refl, refl) (λ z. lt_le z (pos 0)) h
numeric_in_base value _ _ int_long h =
    lift value xsd_int xsd_long (refl, refl, refl, refl) (refl, refl, refl, refl)
      (signed_mono _ _ _ _ (omega arith) (omega arith)) h
numeric_in_base value _ _ short_int h =
    lift value xsd_short xsd_int (refl, refl, refl, refl) (refl, refl, refl, refl)
      (signed_mono _ _ _ _ (omega arith) (omega arith)) h
numeric_in_base value _ _ byte_short h =
    lift value xsd_byte xsd_short (refl, refl, refl, refl) (refl, refl, refl, refl)
      (signed_mono _ _ _ _ (omega arith) (omega arith)) h
numeric_in_base value _ _ positive_non_negative h =
    lift value xsd_positive_integer xsd_non_negative_integer (refl, refl, refl, refl)
      (refl, refl, refl, refl) (λ z. lt_le (pos 0) z) h
numeric_in_base value _ _ unsigned_long_non_negative h =
    lift value xsd_unsigned_long xsd_non_negative_integer (refl, refl, refl, refl)
      (refl, refl, refl, refl) (λ z. within-low (pos 0) _ z) h
numeric_in_base value _ _ unsigned_int_long h =
    lift value xsd_unsigned_int xsd_unsigned_long (refl, refl, refl, refl) (refl, refl, refl, refl)
      (unsigned_mono _ _ (omega arith)) h
numeric_in_base value _ _ unsigned_short_int h =
    lift value xsd_unsigned_short xsd_unsigned_int (refl, refl, refl, refl) (refl, refl, refl, refl)
      (unsigned_mono _ _ (omega arith)) h
numeric_in_base value _ _ unsigned_byte_short h =
    lift value xsd_unsigned_byte xsd_unsigned_short (refl, refl, refl, refl)
      (refl, refl, refl, refl) (unsigned_mono _ _ (omega arith)) h
numeric_in_base value a c (through {b} first later) h =
    numeric_in_base value b c later (numeric_in_base value a b first h)
