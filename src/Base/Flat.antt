-- ===== src/Base/Flat.antt =====
-- Lists: what comes out of the items, one after the other, and how many items pass a test.
use Prim.Native.Nat.{ℕ, suc, ◌*◌, ◌≤◌, ◌<◌}
use mathlib.Core.Path.{◌≡◌, refl, ap, subst}
use mathlib.Core.Bool.{Bool, true, false}
use mathlib.Core.Logic.{inl, inr}
use mathlib.Core.List.{List, [], ◌∷◌, ◌++◌, map, Memᴰ}
use mathlib.Core.List.Memᴰ
use native.Mathlib.Omega.{arith}
use rdflib_reasoning.Base.Equality.{Bool-cases}
use rdflib_reasoning.Base.Lists.{length, filter, length-append}

-- The lists that come out of the items, one after the other.
abbrev pub flat_map : {A B : Type 0} → (A → List B) → List A → List B
flat_map f [] = []
flat_map f (x ∷ xs) = f x ++ flat_map f xs

module _ {A B : Type 0} where
  pub mem-flat_map :
      (f : A → List B) {x : A} {y : B} (xs : List A)
      → Memᴰ x xs
      → Memᴰ y (f x)
      → Memᴰ y (flat_map f xs)
  mem-flat_map f [] there inside = elim there [ ]
  mem-flat_map f {y = y} (z ∷ xs) (Memᴰ.head same) inside =
      Memᴰ.append_left _ (subst (λ k. Memᴰ y (f k)) same inside)
  mem-flat_map f (z ∷ xs) (Memᴰ.tail later) inside =
      Memᴰ.append_right (f z) (mem-flat_map f xs later inside)

  pub length-flat_map :
      (f : A → List B) (n : ℕ) (xs : List A)
      → ((x : A) → length (f x) ≡ n)
      → length (flat_map f xs) ≡ length xs * n
  length-flat_map f n [] h = omega arith
  length-flat_map f n (x ∷ xs) h =
      rw (length-append (f x) (flat_map f xs), h x, length-flat_map f n xs h) (omega arith)

  pub length-map : (f : A → B) (xs : List A) → length (map f xs) ≡ length xs
  length-map f [] = refl
  length-map f (x ∷ xs) = ap suc (length-map f xs)

-- A test that passes less passes fewer.
module _ {A : Type 0} (p q : A → Bool) (less : (x : A) → q x ≡ true → p x ≡ true) where
  pub filter-le : (xs : List A) → length (filter q xs) ≤ length (filter p xs)
  filter-le [] = omega arith
  filter-le (x ∷ xs) = elim (Bool-cases (q x)) [
    | inl e ↦ ground (arith, e, less x e, filter-le xs)
    | inr e ↦ ground (arith, e, filter-le xs)
  ]

  pub filter-lt :
      {x : A} (xs : List A)
      → Memᴰ x xs
      → p x ≡ true
      → q x ≡ false
      → length (filter q xs) < length (filter p xs)
  filter-lt [] there yes_p no_q = elim there [ ]
  filter-lt (y ∷ xs) (Memᴰ.head same) yes_p no_q =
      let at_y : p y ≡ true = subst (λ z. p z ≡ true) same yes_p in
      let not_y : q y ≡ false = subst (λ z. q z ≡ false) same no_q in
      ground (arith, at_y, not_y, filter-le xs)
  filter-lt (y ∷ xs) (Memᴰ.tail later) yes_p no_q = elim (Bool-cases (q y)) [
    | inl e ↦ ground (arith, e, less y e, filter-lt xs later yes_p no_q)
    | inr e ↦ ground (arith, e, filter-lt xs later yes_p no_q)
  ]
