-- ===== src/Base/Sorting.antt =====
-- Python's `sorted`: a stable insertion sort by a Boolean order, here and at the order of strings.
use Prim.Native.Nat.{suc, Ordering}
use Prim.Native.String.{String, compare}
use mathlib.Core.Path.{◌≡◌, refl}
use mathlib.Core.Bool.{Bool, true, false, ◌||◌}
use mathlib.Core.Logic.{inl, inr}
use mathlib.Core.List.{List, [], ◌∷◌, Perm, Memᴰ}
use mathlib.Core.List.Perm
use mathlib.Core.List.Memᴰ
use native.Mathlib.Omega.{arith}
use rdflib_reasoning.Base.Equality.{if◌then◌else◌, Eq, ◌==◌, string_eq, Bool-cases}
use rdflib_reasoning.Base.Lists.{contains, length}

module _ {ℓ} {A : Type ℓ} (le : A → A → Bool) where
  -- `x` goes in front of the first item that is not before it.
  unfoldable pub insert_sorted : A → List A → List A
  insert_sorted x [] = x ∷ []
  insert_sorted x (y ∷ ys) = if le x y then x ∷ y ∷ ys else y ∷ insert_sorted x ys

  -- The last item is inserted first, so items that are equal in the order keep their order.
  unfoldable pub sort_by : List A → List A
  sort_by [] = []
  sort_by (x ∷ xs) = insert_sorted x (sort_by xs)

  pub length-insert_sorted : (x : A) (ys : List A) → length (insert_sorted x ys) ≡ suc (length ys)
  unfolding insert_sorted
  length-insert_sorted x [] = refl
  length-insert_sorted x (y ∷ ys) = ground (arith, length-insert_sorted x ys)

  pub length-sort_by : (xs : List A) → length (sort_by xs) ≡ length xs
  unfolding sort_by
  length-sort_by [] = refl
  length-sort_by (x ∷ xs) = omega (arith, length-insert_sorted x (sort_by xs), length-sort_by xs)

  insert_sorted-perm : (x : A) (ys : List A) → Perm (insert_sorted x ys) (x ∷ ys)
  unfolding insert_sorted
  insert_sorted-perm x [] = Perm.rfl
  insert_sorted-perm x (y ∷ ys) = elim (Bool-cases (le x y)) [
    | inl e ↦ rw e Perm.rfl
    | inr e ↦ rw e (Perm.trans (Perm.cons y (insert_sorted-perm x ys)) (Perm.swap x y ys))
  ]

  pub sort_by-perm : (xs : List A) → Perm (sort_by xs) xs
  unfolding sort_by
  sort_by-perm [] = Perm.rfl
  sort_by-perm (x ∷ xs) =
      Perm.trans (insert_sorted-perm x (sort_by xs)) (Perm.cons x (sort_by-perm xs))

  pub mem-insert_sorted :
      {a : A} (x : A) (ys : List A) → Memᴰ a (insert_sorted x ys) → Memᴰ a (x ∷ ys)
  unfolding insert_sorted
  mem-insert_sorted x [] m = m
  mem-insert_sorted x (y ∷ ys) m = elim (Bool-cases (le x y)) [
    | inl e ↦ rw e at m
    | inr e ↦ elim (Memᴰ.cases_cons (rw e at m)) [
      | inl same ↦ Memᴰ.tail (Memᴰ.head same)
      | inr later ↦ elim (Memᴰ.cases_cons (mem-insert_sorted x ys later)) [
        | inl same ↦ Memᴰ.head same
        | inr k ↦ Memᴰ.tail (Memᴰ.tail k)
      ]
    ]
  ]

  pub mem-sort_by : {a : A} (xs : List A) → Memᴰ a (sort_by xs) → Memᴰ a xs
  unfolding sort_by
  mem-sort_by [] m = m
  mem-sort_by (x ∷ xs) m = elim (Memᴰ.cases_cons (mem-insert_sorted x (sort_by xs) m)) [
    | inl same ↦ Memᴰ.head same
    | inr later ↦ Memᴰ.tail (mem-sort_by xs later)
  ]

module _ {ℓ} {A : Type ℓ} ⦃e : Eq A⦄ (le : A → A → Bool) where
  contains-insert_sorted :
      (x : A) (ys : List A) (a : A) → contains (insert_sorted le x ys) a ≡ (a == x || contains ys a)
  unfolding insert_sorted
  contains-insert_sorted x [] a = refl
  contains-insert_sorted x (y ∷ ys) a = ground (arith, contains-insert_sorted x ys a)

  pub contains-sort_by : (xs : List A) (a : A) → contains (sort_by le xs) a ≡ contains xs a
  unfolding sort_by
  contains-sort_by [] a = refl
  contains-sort_by (x ∷ xs) a =
      ground (arith, contains-insert_sorted x (sort_by le xs) a, contains-sort_by xs a)

-- `s <= t` on texts
unfoldable pub string_le : String → String → Bool
string_le s t = elim (compare s t) [ Ordering.gt ↦ false | _ ↦ true ]

unfoldable pub sorted : List String → List String
unfolding sort_by insert_sorted string_le
sorted xs = sort_by string_le xs

pub contains-sorted : (xs : List String) (a : String) → contains (sorted xs) a ≡ contains xs a
unfolding sorted
contains-sorted xs a = contains-sort_by string_le xs a

pub length-sorted : (xs : List String) → length (sorted xs) ≡ length xs
unfolding sorted
length-sorted xs = length-sort_by string_le xs
