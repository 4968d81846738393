-- ===== src/Datatypes/Words.antt =====
-- owl2_rl_datatypes.py: the bounds of the integer datatypes of a fixed width, against words of that
-- width.
use Prim.Native.Nat.{◌%◌}
use native.Mathlib.Nat.{mod-lt, mod-eq_of_lt}
use rdflib_reasoning.Base.{
  ℕ, ◌<◌, ◌+◌, ◌-◌, ◌^◌, ◌≡◌, ◌↔◌, refl, string_dec, true, if◌then◌else◌, arith,
}
use rdflib_reasoning.Base.Int.{ℤ, pos, negsuc, neg, compare_int, ltb}
use rdflib_reasoning.Rdf.{Node, node_dec}
use rdflib_reasoning.Datatypes.{
  xsd_long, xsd_int, xsd_short, xsd_byte, xsd_unsigned_long, xsd_unsigned_int, xsd_unsigned_short,
  xsd_unsigned_byte, int_le, within, integer_in_facets,
}

-- The rest of an integer by the number of all words, and the integer that a word stands for where
-- the words from half that number on are the negative ones.
word_of : ℕ → ℤ → ℕ
word_of full (pos n) = n % full
word_of full (negsuc n) = (full - 1) - n % full

read : ℕ → ℕ → ℕ → ℤ
read half full word = if ltb word half then pos word else negsuc ((full - 1) - word)

-- An integer as a word of some bits, and a word as an integer in two's complement.
unfoldable pub to_word : ℕ → ℤ → ℕ
unfolding word_of
to_word width z = word_of (2 ^ width) z

unfoldable pub signed_value : ℕ → ℕ → ℤ
unfolding read
signed_value width word = read (2 ^ (width - 1)) (2 ^ width) word

-- The datatypes of a width, with a sign and without.
pub data IsSigned : Node → ℕ → Type 0 where
  long_64 : IsSigned xsd_long 64
  int_32 : IsSigned xsd_int 32
  short_16 : IsSigned xsd_short 16
  byte_8 : IsSigned xsd_byte 8

pub data IsUnsigned : Node → ℕ → Type 0 where
  unsigned_long_64 : IsUnsigned xsd_unsigned_long 64
  unsigned_int_32 : IsUnsigned xsd_unsigned_int 32
  unsigned_short_16 : IsUnsigned xsd_unsigned_short 16
  unsigned_byte_8 : IsUnsigned xsd_unsigned_byte 8

module _ (half full : ℕ) (twice : full ≡ half + half) (some_half : 0 < half) where
  fits-reads :
      (n : ℕ)
      → (read half full (n % full) ≡ pos n
          → within (negsuc (half - 1)) (pos (half - 1)) (pos n) ≡ true)
        × (within (negsuc (half - 1)) (pos (half - 1)) (pos n) ≡ true
            → read half full (n % full) ≡ pos n)
  unfolding read within int_le compare_int
  fits-reads n =
      let less : n % full < full = mod-lt n (omega (arith, twice, some_half)) in
      (
        λ h. ground (arith, h, less, twice, some_half),
        λ h.
            let same : n % full ≡ n = mod-eq_of_lt (ground (arith, h, twice, some_half)) in
            ground (arith, h, same, twice, some_half),
      )

  fits-reads_negative :
      (n : ℕ)
      → (read half full ((full - 1) - n % full) ≡ negsuc n
          → within (negsuc (half - 1)) (pos (half - 1)) (negsuc n) ≡ true)
        × (within (negsuc (half - 1)) (pos (half - 1)) (negsuc n) ≡ true
            → read half full ((full - 1) - n % full) ≡ negsuc n)
  unfolding read within int_le compare_int
  fits-reads_negative n =
      let less : n % full < full = mod-lt n (omega (arith, twice, some_half)) in
      (
        λ h. ground (arith, h, less, twice, some_half),
        λ h.
            let same : n % full ≡ n = mod-eq_of_lt (ground (arith, h, twice, some_half)) in
            ground (arith, h, same, twice, some_half),
      )

  signed_fits :
      (z : ℤ)
      → (read half full (word_of full z) ≡ z)
        ↔ (within (negsuc (half - 1)) (pos (half - 1)) z ≡ true)
  unfolding word_of
  signed_fits (pos n) = fits-reads n
  signed_fits (negsuc n) = fits-reads_negative n

  unsigned_fits : (z : ℤ) → (pos (word_of full z) ≡ z) ↔ (within (pos 0) (pos (full - 1)) z ≡ true)
  unfolding within int_le compare_int word_of
  unsigned_fits (pos n) = (
    λ h.
        let less : n % full < full = mod-lt n (omega (arith, twice, some_half)) in
        ground (arith, h, less),
    λ h.
        let same : n % full ≡ n = mod-eq_of_lt (ground (arith, h, twice, some_half)) in
        ground (arith, same),
  )
  unsigned_fits (negsuc n) = (λ h. ground (arith, h), λ h. ground (arith, h))

-- An integer is in a datatype of a fixed width with a sign exactly where writing it to a word of
-- that width, in two's complement, and reading it back gives it again.
pub signed_round_trip :
    (d : Node) (width : ℕ) (z : ℤ)
    → IsSigned d width
    → (signed_value width (to_word width z) ≡ z) ↔ (integer_in_facets z d ≡ true)
unfolding integer_in_facets signed_value to_word string_dec node_dec neg
signed_round_trip _ _ z long_64 = signed_fits (2 ^ 63) (2 ^ 64) refl (omega arith) z
signed_round_trip _ _ z int_32 = signed_fits (2 ^ 31) (2 ^ 32) refl (omega arith) z
signed_round_trip _ _ z short_16 = signed_fits (2 ^ 15) (2 ^ 16) refl (omega arith) z
signed_round_trip _ _ z byte_8 = signed_fits (2 ^ 7) (2 ^ 8) refl (omega arith) z

-- An integer is in a datatype of a fixed width without a sign exactly where writing it to a word of
-- that width and reading it back gives it again.
pub unsigned_round_trip :
    (d : Node) (width : ℕ) (z : ℤ)
    → IsUnsigned d width
    → (pos (to_word width z) ≡ z) ↔ (integer_in_facets z d ≡ true)
unfolding integer_in_facets to_word string_dec node_dec
unsigned_round_trip _ _ z unsigned_long_64 = unsigned_fits (2 ^ 63) (2 ^ 64) refl (omega arith) z
unsigned_round_trip _ _ z unsigned_int_32 = unsigned_fits (2 ^ 31) (2 ^ 32) refl (omega arith) z
unsigned_round_trip _ _ z unsigned_short_16 = unsigned_fits (2 ^ 15) (2 ^ 16) refl (omega arith) z
unsigned_round_trip _ _ z unsigned_byte_8 = unsigned_fits (2 ^ 7) (2 ^ 8) refl (omega arith) z
