-- ===== src/Base/Dict.antt =====
-- Python's dicts, as association lists in insertion order. Proofs elsewhere go by the laws.
use mathlib.Core.Path.{◌≡◌, refl}
use mathlib.Core.Logic.{◌⊎◌, inl, inr}
use mathlib.Core.Bool.{Bool, true, false}
use mathlib.Core.Option.{Option, none, some}
use mathlib.Core.List.{List, [], ◌∷◌, Memᴰ}
use mathlib.Core.List.Memᴰ
use native.Mathlib.Omega.{arith}
use rdflib_reasoning.Base.Equality.{if◌then◌else◌, Eq, ◌==◌, Bool-cases}
use rdflib_reasoning.Base.Lists.{contains}

abbrev pub Dict {ℓ κ} : Type ℓ → Type κ → Type (ℓ ⊔ κ)
Dict K V = List (K × V)

unfoldable pub keys {ℓ κ} : {K : Type ℓ} {V : Type κ} → Dict K V → List K
keys [] = []
keys ((k, v) ∷ d) = k ∷ keys d

unfoldable pub values {ℓ κ} : {K : Type ℓ} {V : Type κ} → Dict K V → List V
values [] = []
values ((k, v) ∷ d) = v ∷ values d

abbrev pub get_or {ℓ} : {V : Type ℓ} → Option V → V → V
get_or none v = v
get_or (some w) v = w

abbrev pub is_some {ℓ} : {V : Type ℓ} → Option V → Bool
is_some none = false
is_some (some w) = true

module _ {ℓ κ} {K : Type ℓ} {V : Type κ} where
  -- The entries whose value passes the test: `del d[k]` for all others.
  unfoldable pub filter_values : (V → Bool) → Dict K V → Dict K V
  filter_values p [] = []
  filter_values p ((k, v) ∷ d) = if p v then (k, v) ∷ filter_values p d else filter_values p d

  pub mem-values-filter_values :
      (p : V → Bool) {v : V} (d : Dict K V)
      → Memᴰ v (values (filter_values p d))
      → Memᴰ v (values d) × (p v ≡ true)
  unfolding values filter_values
  mem-values-filter_values p [] m = elim m [ ]
  mem-values-filter_values p {v} ((k, w) ∷ d) m = elim (Bool-cases (p w)) [
    | inl e ↦ elim (Memᴰ.cases_cons (rw (e, values) at m)) [
      | inl same ↦ (Memᴰ.head same, rw same e)
      | inr later ↦ let (n, h) = mem-values-filter_values p d later in (Memᴰ.tail n, h)
    ]
    | inr e ↦ let (n, h) = mem-values-filter_values p d (rw e at m) in (Memᴰ.tail n, h)
  ]

  pub mem-values-filter_values_of_mem :
      (p : V → Bool) {v : V} (d : Dict K V)
      → Memᴰ v (values d)
      → p v ≡ true
      → Memᴰ v (values (filter_values p d))
  unfolding values filter_values
  mem-values-filter_values_of_mem p [] m h = elim m [ ]
  mem-values-filter_values_of_mem p ((k, w) ∷ d) (Memᴰ.head e) h =
      let passes : p w ≡ true = ground arith in rw passes (Memᴰ.head e)
  mem-values-filter_values_of_mem p ((k, w) ∷ d) (Memᴰ.tail m) h = elim (Bool-cases (p w)) [
    | inl e ↦ rw e (Memᴰ.tail (mem-values-filter_values_of_mem p d m h))
    | inr e ↦ rw e (mem-values-filter_values_of_mem p d m h)
  ]

module _ {ℓ κ} {K : Type ℓ} {V : Type κ} ⦃e : Eq K⦄ where
  -- `d.get(k)`
  unfoldable pub lookup : K → Dict K V → Option V
  lookup k [] = none
  lookup k ((j, v) ∷ d) = if k == j then some v else lookup k d

  -- `d[k] = v`
  unfoldable pub insert : K → V → Dict K V → Dict K V
  insert k v [] = (k, v) ∷ []
  insert k v ((j, w) ∷ d) = if k == j then (k, v) ∷ d else (j, w) ∷ insert k v d

  -- `d.pop(k, None)`. Every entry of the key goes; a real dict has at most one.
  unfoldable pub erase : K → Dict K V → Dict K V
  erase k [] = []
  erase k ((j, w) ∷ d) = let rest = erase k d in if k == j then rest else (j, w) ∷ rest

  abbrev pub NodupKeys : Dict K V → Type κ
  NodupKeys [] = Unit
  NodupKeys ((k, _) ∷ d) = (lookup k d ≡ none) × NodupKeys d

  pub lookup-nil : (k : K) → lookup k [] ≡ none
  unfolding lookup
  lookup-nil k = refl

  pub lookup-insert :
      (j k : K) (v : V) (d : Dict K V)
      → lookup j (insert k v d) ≡ (if j == k then some v else lookup j d)
  unfolding insert lookup
  lookup-insert j k v [] = ground arith
  lookup-insert j k v (_ ∷ d) = ground (arith, lookup-insert j k v d)

  pub lookup-erase :
      (j k : K) (d : Dict K V) → lookup j (erase k d) ≡ (if j == k then none else lookup j d)
  unfolding erase lookup
  lookup-erase j k [] = ground arith
  lookup-erase j k (_ ∷ d) = ground (arith, lookup-erase j k d)

  pub lookup-insert_self : (k : K) (v : V) (d : Dict K V) → lookup k (insert k v d) ≡ some v
  lookup-insert_self k v d = ground (arith, lookup-insert k k v d)

  pub contains-keys : (k : K) (d : Dict K V) → contains (keys d) k ≡ is_some (lookup k d)
  unfolding keys lookup
  contains-keys k [] = refl
  contains-keys k (_ ∷ d) = ground (arith, contains-keys k d)

  pub insert-NodupKeys : (k : K) (v : V) (d : Dict K V) → NodupKeys d → NodupKeys (insert k v d)
  unfolding insert
  insert-NodupKeys k v [] _ = (lookup-nil k, tt)
  insert-NodupKeys k v ((j, _) ∷ d) (fresh, u) =
      ground (arith, insert-NodupKeys k v d u, lookup-insert j k v d)

  pub erase-NodupKeys : (k : K) (d : Dict K V) → NodupKeys d → NodupKeys (erase k d)
  unfolding erase
  erase-NodupKeys k [] _ = tt
  erase-NodupKeys k ((j, _) ∷ d) (fresh, u) =
      ground (arith, erase-NodupKeys k d u, lookup-erase j k d)

  -- A value read under a key is a value of the dict.
  pub mem-values_of_lookup :
      (k : K) {v : V} (d : Dict K V) → lookup k d ≡ some v → Memᴰ v (values d)
  unfolding lookup values
  mem-values_of_lookup k [] h = cc
  mem-values_of_lookup k ((j, w) ∷ d) h = elim (e.dec k j) [
    | yes same ↦ Memᴰ.head (ground arith)
    | no other ↦ Memᴰ.tail (mem-values_of_lookup k d (ground arith))
  ]

  -- A fresh key adds its value and keeps the others.
  pub mem-values-insert :
      (k : K) (v : V) {w : V} (d : Dict K V)
      → Memᴰ w (values (insert k v d))
      → (w ≡ v) ⊎ Memᴰ w (values d)
  unfolding insert values
  mem-values-insert k v [] m = inl (Memᴰ.eq_of_singleton m)
  mem-values-insert k v ((j, u) ∷ d) m = elim (Bool-cases (k == j)) [
    | inl same ↦ elim (Memᴰ.cases_cons (rw (same, values) at m)) [
      | inl new ↦ inl new
      | inr later ↦ inr (Memᴰ.tail later)
    ]
    | inr other ↦ elim (Memᴰ.cases_cons (rw (other, values) at m)) [
      | inl old ↦ inr (Memᴰ.head old)
      | inr later ↦ elim (mem-values-insert k v d later) [
        | inl new ↦ inl new
        | inr old ↦ inr (Memᴰ.tail old)
      ]
    ]
  ]

  pub mem-values-insert_of_mem :
      (k : K) (v : V) {w : V} (d : Dict K V)
      → lookup k d ≡ none
      → Memᴰ w (values d)
      → Memᴰ w (values (insert k v d))
  unfolding insert values lookup
  mem-values-insert_of_mem k v [] fresh m = elim m [ ]
  mem-values-insert_of_mem k v ((j, u) ∷ d) fresh m = elim (Bool-cases (k == j)) [
    | inl same ↦ absurd (ground arith)
    | inr other ↦ rw other (elim (Memᴰ.cases_cons m) [
      | inl here ↦ Memᴰ.head here
      | inr later ↦ Memᴰ.tail (mem-values-insert_of_mem k v d (ground arith) later)
    ])
  ]

  pub mem-values-erase :
      (k : K) {v : V} (d : Dict K V) → Memᴰ v (values (erase k d)) → Memᴰ v (values d)
  unfolding erase values
  mem-values-erase k [] m = m
  mem-values-erase k ((j, w) ∷ d) m = elim (Bool-cases (k == j)) [
    | inl e ↦ Memᴰ.tail (mem-values-erase k d (rw e at m))
    | inr e ↦ elim (Memᴰ.cases_cons (rw e at m)) [
      | inl same ↦ Memᴰ.head same
      | inr later ↦ Memᴰ.tail (mem-values-erase k d later)
    ]
  ]
