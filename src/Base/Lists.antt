-- ===== src/Base/Lists.antt =====
-- Lists: membership tests, quantifiers, filters and lengths over the native numbers.
use Prim.Native.Nat.{ℕ, suc, ◌+◌, ◌≤◌}
use mathlib.Core.Path.{◌≡◌, refl, sym, ap, ◌∙◌}
use mathlib.Core.Logic.{◌⊎◌, inl, inr}
use mathlib.Core.Bool.{Bool, true, false, ◌&&◌, ◌||◌}
use mathlib.Core.Option.{Option, none, some}
use mathlib.Core.List.{List, [], ◌∷◌, ◌++◌, reverse, Memᴰ, reverse-cons}
use mathlib.Core.List.Memᴰ
use native.Mathlib.Omega.{arith}
use rdflib_reasoning.Base.Equality.{if◌then◌else◌, Eq, ◌==◌, Bool-cases}

-- Python's `all(p(x) for x in xs)` and `any(p(x) for x in xs)`.
module _ {ℓ} {A : Type ℓ} where
  abbrev pub all : (A → Bool) → List A → Bool
  all p [] = true
  all p (x ∷ xs) = p x && all p xs

  abbrev pub any : (A → Bool) → List A → Bool
  any p [] = false
  any p (x ∷ xs) = p x || any p xs

  -- `[x for x in xs if p(x)]`
  abbrev pub filter : (A → Bool) → List A → List A
  filter p [] = []
  filter p (x ∷ xs) = if p x then x ∷ filter p xs else filter p xs

  abbrev pub length : List A → ℕ
  length [] = 0
  length (x ∷ xs) = suc (length xs)

  pub length-append : (xs ys : List A) → length (xs ++ ys) ≡ length xs + length ys
  length-append [] ys = omega arith
  length-append (x ∷ xs) ys = omega (arith, length-append xs ys)

  pub length-reverse : (xs : List A) → length (reverse xs) ≡ length xs
  length-reverse [] = refl
  length-reverse (x ∷ xs) = rw (reverse-cons, length-append) (omega (arith, length-reverse xs))

  pub all-mem : (p : A → Bool) {x : A} (xs : List A) → all p xs ≡ true → Memᴰ x xs → p x ≡ true
  all-mem p [] h m = elim m [ ]
  all-mem p (y ∷ xs) h (Memᴰ.head e) = ground arith
  all-mem p (y ∷ xs) h (Memᴰ.tail m) = ground (arith, all-mem p xs (ground arith) m)

  pub all-intro :
      (p : A → Bool) (xs : List A) → ((x : A) → Memᴰ x xs → p x ≡ true) → all p xs ≡ true
  all-intro p [] h = refl
  all-intro p (x ∷ xs) h =
      ground (arith, h x (Memᴰ.head refl), all-intro p xs (λ y m. h y (Memᴰ.tail m)))

  pub any-mem : (p : A → Bool) (xs : List A) → any p xs ≡ true → (x : A) × Memᴰ x xs × (p x ≡ true)
  any-mem p [] h = cc
  any-mem p (x ∷ xs) h = elim (Bool-cases (p x)) [
    | inl e ↦ (x, Memᴰ.head refl, e)
    | inr e ↦ let (y, m, f) = any-mem p xs (ground arith) in (y, Memᴰ.tail m, f)
  ]

  pub any-intro : (p : A → Bool) {x : A} (xs : List A) → Memᴰ x xs → p x ≡ true → any p xs ≡ true
  any-intro p [] m h = elim m [ ]
  any-intro p (y ∷ xs) (Memᴰ.head e) h = ground arith
  any-intro p (y ∷ xs) (Memᴰ.tail m) h = ground (arith, any-intro p xs m h)

  pub mem-filter :
      (p : A → Bool) {x : A} (xs : List A) → Memᴰ x (filter p xs) → Memᴰ x xs × (p x ≡ true)
  mem-filter p [] m = absurd (Memᴰ.not-nil m)
  mem-filter p {x} (y ∷ xs) m = elim (Bool-cases (p y)) [
    | inl e ↦ elim (Memᴰ.cases_cons (rw e at m)) [
      | inl same ↦ (Memᴰ.head same, rw same e)
      | inr later ↦ let (k, h) = mem-filter p xs later in (Memᴰ.tail k, h)
    ]
    | inr e ↦ let (k, h) = mem-filter p xs (rw e at m) in (Memᴰ.tail k, h)
  ]

  pub mem-filter_of_mem :
      (p : A → Bool) {x : A} (xs : List A) → Memᴰ x xs → p x ≡ true → Memᴰ x (filter p xs)
  mem-filter_of_mem p [] m h = elim m [ ]
  mem-filter_of_mem p (y ∷ xs) (Memᴰ.head e) h =
      let passes : p y ≡ true = ground arith in rw passes (Memᴰ.head e)
  mem-filter_of_mem p (y ∷ xs) (Memᴰ.tail m) h = elim (Bool-cases (p y)) [
    | inl e ↦ rw e (Memᴰ.tail (mem-filter_of_mem p xs m h))
    | inr e ↦ rw e (mem-filter_of_mem p xs m h)
  ]

  pub length-filter-le : (p : A → Bool) (xs : List A) → length (filter p xs) ≤ length xs
  length-filter-le p [] = omega arith
  length-filter-le p (x ∷ xs) = ground (arith, length-filter-le p xs)

-- Appends what comes out of an item, if anything does.
module _ {ℓ} {B : Type ℓ} where
  unfoldable pub push : Option B → List B → List B
  push none ys = ys
  push (some y) ys = y ∷ ys

  push-cases : (o : Option B) (ys : List B) {y : B} → Memᴰ y (push o ys) → (o ≡ some y) ⊎ Memᴰ y ys
  unfolding push
  push-cases none ys m = inr m
  push-cases (some z) ys m = elim (Memᴰ.cases_cons m) [
    | inl same ↦ inl (ap some (sym same))
    | inr later ↦ inr later
  ]

  push-later : (o : Option B) (ys : List B) {y : B} → Memᴰ y ys → Memᴰ y (push o ys)
  unfolding push
  push-later none ys m = m
  push-later (some z) ys m = Memᴰ.tail m

  push-now : (o : Option B) (ys : List B) {y : B} → o ≡ some y → Memᴰ y (push o ys)
  unfolding push
  push-now o ys e = rw e (Memᴰ.head refl)

module _ {ℓ κ} {A : Type ℓ} {B : Type κ} where
  unfoldable pub collect : (A → Option B) → List A → List B
  unfolding push
  collect f [] = []
  collect f (x ∷ xs) = push (f x) (collect f xs)

  pub mem-collect :
      (f : A → Option B) (xs : List A) {y : B}
      → Memᴰ y (collect f xs)
      → (x : A) × Memᴰ x xs × (f x ≡ some y)
  unfolding collect
  mem-collect f [] m = elim m [ ]
  mem-collect f (x ∷ xs) m = elim (push-cases (f x) (collect f xs) m) [
    | inl e ↦ (x, Memᴰ.head refl, e)
    | inr later ↦ let (z, k, e) = mem-collect f xs later in (z, Memᴰ.tail k, e)
  ]

  pub mem-collect_of_mem :
      (f : A → Option B) (xs : List A) {x : A} {y : B}
      → Memᴰ x xs
      → f x ≡ some y
      → Memᴰ y (collect f xs)
  unfolding collect
  mem-collect_of_mem f [] m e = elim m [ ]
  mem-collect_of_mem f (z ∷ xs) (Memᴰ.head same) e =
      push-now (f z) (collect f xs) (ap f (sym same) ∙ e)
  mem-collect_of_mem f (z ∷ xs) (Memᴰ.tail m) e =
      push-later (f z) (collect f xs) (mem-collect_of_mem f xs m e)

-- `a in xs`
module _ {ℓ} {A : Type ℓ} ⦃e : Eq A⦄ where
  abbrev pub contains : List A → A → Bool
  contains [] a = false
  contains (x ∷ xs) a = a == x || contains xs a

  pub contains-mem : (xs : List A) (a : A) → contains xs a ≡ true → Memᴰ a xs
  contains-mem [] a h = cc
  contains-mem (x ∷ xs) a h = elim (e.dec a x) [
    | yes same ↦ Memᴰ.head same
    | no other ↦ Memᴰ.tail (contains-mem xs a (ground arith))
  ]

  pub mem-contains : (xs : List A) (a : A) → Memᴰ a xs → contains xs a ≡ true
  mem-contains [] a m = elim m [ ]
  mem-contains (x ∷ xs) a (Memᴰ.head e) = ground arith
  mem-contains (x ∷ xs) a (Memᴰ.tail m) = ground (arith, mem-contains xs a m)

  pub contains-append :
      (xs ys : List A) (a : A) → contains (xs ++ ys) a ≡ (contains xs a || contains ys a)
  contains-append [] ys a = refl
  contains-append (x ∷ xs) ys a = ground (arith, contains-append xs ys a)

  pub contains-reverse : (xs : List A) (a : A) → contains (reverse xs) a ≡ contains xs a
  contains-reverse [] a = refl
  contains-reverse (x ∷ xs) a =
      rw (reverse-cons, contains-append) (ground (arith, contains-reverse xs a))

  pub contains-filter :
      (p : A → Bool) (xs : List A) (a : A) → contains (filter p xs) a ≡ (contains xs a && p a)
  contains-filter p [] a = refl
  contains-filter p (x ∷ xs) a = ground (arith, contains-filter p xs a)
