-- ===== src/Base/Sets.antt =====
-- Python's sets, as lists: an operation keeps the order of what was there.
use mathlib.Core.Path.{◌≡◌}
use mathlib.Core.Bool.{◌&&◌, ◌||◌, not}
use mathlib.Core.List.{List, [], ◌∷◌, ◌++◌}
use native.Mathlib.Omega.{arith}
use rdflib_reasoning.Base.Equality.{if◌then◌else◌, Eq, ◌==◌}
use rdflib_reasoning.Base.Lists.{contains, filter, contains-append, contains-filter}

module _ {ℓ} {A : Type ℓ} ⦃e : Eq A⦄ where
  -- `s.add(a)`
  unfoldable pub add : A → List A → List A
  add a s = if contains s a then s else s ++ a ∷ []

  -- `s.update(xs)`
  unfoldable pub update : List A → List A → List A
  update s [] = s
  update s (x ∷ xs) = update (add x s) xs

  -- `s.discard(a)`
  unfoldable pub discard : A → List A → List A
  discard a s = filter (λ x. not (x == a)) s

  -- `s - t`
  unfoldable pub difference : List A → List A → List A
  difference s t = filter (λ x. not (contains t x)) s

  -- `s & t`
  unfoldable pub intersection : List A → List A → List A
  intersection s t = filter (λ x. contains t x) s

  pub contains-add : (a b : A) (s : List A) → contains (add a s) b ≡ (contains s b || b == a)
  unfolding add
  contains-add a b s = ground (arith, contains-append s (a ∷ []) b)

  pub contains-update :
      (s xs : List A) (a : A) → contains (update s xs) a ≡ (contains s a || contains xs a)
  unfolding update
  contains-update s [] a = ground arith
  contains-update s (x ∷ xs) a = ground (arith, contains-update (add x s) xs a, contains-add x a s)

  pub contains-discard :
      (a b : A) (s : List A) → contains (discard a s) b ≡ (contains s b && not (b == a))
  unfolding discard
  contains-discard a b s = contains-filter (λ x. not (x == a)) s b

  pub contains-difference :
      (s t : List A) (a : A) → contains (difference s t) a ≡ (contains s a && not (contains t a))
  unfolding difference
  contains-difference s t a = contains-filter (λ x. not (contains t x)) s a

  pub contains-intersection :
      (s t : List A) (a : A) → contains (intersection s t) a ≡ (contains s a && contains t a)
  unfolding intersection
  contains-intersection s t a = contains-filter (λ x. contains t x) s a
