-- ===== src/Base/Int.antt =====
-- Python's integers, with their order as a Boolean test.
use Prim.Native.Nat.{ℕ, zero, suc, compare, Ordering}
use mathlib.Core.Bool.{Bool, true, false}

-- `negsuc n` is -(n + 1).
pub data ℤ : Type 0 where
  pos : ℕ → ℤ
  negsuc : ℕ → ℤ

unfoldable pub neg : ℤ → ℤ
neg (pos zero) = pos zero
neg (pos (suc n)) = negsuc n
neg (negsuc n) = pos (suc n)

abbrev pub leb : ℕ → ℕ → Bool
leb a b = elim (compare a b) [ Ordering.gt ↦ false | _ ↦ true ]

abbrev pub ltb : ℕ → ℕ → Bool
ltb a b = elim (compare a b) [ Ordering.lt ↦ true | _ ↦ false ]

-- How two integers compare.
unfoldable pub compare_int : ℤ → ℤ → Ordering
compare_int (pos m) (pos n) = compare m n
compare_int (pos m) (negsuc n) = Ordering.gt
compare_int (negsuc m) (pos n) = Ordering.lt
compare_int (negsuc m) (negsuc n) = compare n m

-- The next answer counts where the first is "equal": the order of tuples.
abbrev pub then_by : Ordering → Ordering → Ordering
then_by Ordering.lt o = Ordering.lt
then_by Ordering.eq o = o
then_by Ordering.gt o = Ordering.gt

-- `<=`
abbrev pub is_le : Ordering → Bool
is_le Ordering.gt = false
is_le _ = true

-- `<`
abbrev pub is_lt : Ordering → Bool
is_lt Ordering.lt = true
is_lt _ = false
