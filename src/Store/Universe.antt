-- ===== src/Store/Universe.antt =====
-- rete_store.py and batch_dispatcher.py: the triples of one graph, and how many can still come.
use rdflib_reasoning.Base.{
  ℕ, ◌≤◌, ◌<◌, ◌≡◌, refl, ◌∙◌, true, false, not, ==_refl, some, List, [], ◌∷◌, ◌⊎◌, inl, inr, Memᴰ,
  filter, length, arith, Bool-cases, length-filter-le,
}
use rdflib_reasoning.Base.Flat.{filter-le, filter-lt}
use rdflib_reasoning.Errors.{ok, raise}
use rdflib_reasoning.Rdf.{Node, node_eq, Triple, triple_eq}
use rdflib_reasoning.Network.Terms.{Over}
use rdflib_reasoning.Engine.Finite.{triples_over, triples_over_complete, length-triples_over}
use rdflib_reasoning.Engine.Fixpoint.{Ends, cube}
use rdflib_reasoning.Store.{BackingStore, BackingStoreLaws, Run, ◌>=>◌, put_all}

-- A call after a call that returns or raises.
pub Ends->=> :
    {A B : Type 0} (Q : A → Type 0) (P : B → Type 0) (x : Run A) (f : A → Run B)
    → Ends Q x
    → ((a : A) → Q a → Ends P (f a))
    → Ends P (x >=> f)
unfolding Ends
Ends->=> Q P x f (ok a, e, q) next = let (r, runs, right) = next a q in (r, rw e runs, right)
Ends->=> Q P x f (raise exception, e, q) next = (raise exception, rw e refl, tt)

pub Ends-done : {A : Type 0} (P : A → Type 0) (a : A) → P a → Ends P (some (ok a))
unfolding Ends
Ends-done P a h = (ok a, refl, h)

pub Ends-same : {A : Type 0} (P : A → Type 0) {x y : Run A} → x ≡ y → Ends P y → Ends P x
unfolding Ends
Ends-same P e (r, runs, right) = (r, e ∙ runs, right)

pub Ends-weaken :
    {A : Type 0} (P Q : A → Type 0) (x : Run A) → ((a : A) → P a → Q a) → Ends P x → Ends Q x
unfolding Ends
Ends-weaken P Q x f (ok a, e, h) = (ok a, e, f a h)
Ends-weaken P Q x f (raise exception, e, h) = (raise exception, e, tt)

module _ {S : Type 0} (backing : BackingStore S) (laws : BackingStoreLaws backing) where
  pub has-put_all :
      (c d : Node) (ts : List Triple) (u : Triple) (s : S)
      → backing.has s d u ≡ true
      → backing.has (put_all backing c ts s) d u ≡ true
  unfolding put_all
  has-put_all c d [] u s h = h
  has-put_all c d (t ∷ ts) u s h =
      has-put_all c d ts u (backing.put c t s) (ground (arith, laws.has-put s c d t u, h))

  pub put_all-stores :
      (c : Node) (ts : List Triple) (t : Triple) (s : S)
      → Memᴰ t ts
      → backing.has (put_all backing c ts s) c t ≡ true
  unfolding put_all
  put_all-stores c [] t s there = elim there [ ]
  put_all-stores c (u ∷ ts) t s (Memᴰ.head same) =
      has-put_all c c ts t (backing.put c u s)
        (ground (arith, laws.has-put s c c u t, same, ==_refl c, ==_refl t))
  put_all-stores c (u ∷ ts) t s (Memᴰ.tail later) = put_all-stores c ts t (backing.put c u s) later

  -- What the store has of a graph afterwards, it had or was told.
  pub put_all-cases :
      (c : Node) (ts : List Triple) (u : Triple) (s : S)
      → backing.has (put_all backing c ts s) c u ≡ true
      → (backing.has s c u ≡ true) ⊎ Memᴰ u ts
  unfolding put_all
  put_all-cases c [] u s h = inl h
  put_all-cases c (t ∷ ts) u s h = elim (put_all-cases c ts u (backing.put c t s) h) [
    | inr later ↦ inr (Memᴰ.tail later)
    | inl now ↦ elim (Bool-cases (backing.has s c u)) [
      | inl before ↦ inl before
      | inr fresh ↦ inr (Memᴰ.head (ground (arith, laws.has-put s c c t u, now, fresh)))
    ]
  ]

  -- How many triples over some terms a graph of the store does not have.
  unfoldable pub missing : List Node → Node → S → ℕ
  missing terms c s = length (filter (λ t. not (backing.has s c t)) (triples_over terms))

  pub missing-le :
      (terms : List Node) (c : Node) (ts : List Triple) (s : S)
      → missing terms c (put_all backing c ts s) ≤ missing terms c s
  unfolding missing
  missing-le terms c ts s =
      filter-le (λ t. not (backing.has s c t)) (λ t. not (backing.has (put_all backing c ts s) c t))
        (λ t h. elim (Bool-cases (backing.has s c t)) [
          | inl e ↦ absurd (ground (arith, h, has-put_all c c ts t s e))
          | inr e ↦ ground (arith, e)
        ])
        (triples_over terms)

  pub missing-lt :
      (terms : List Node) (c : Node) (ts : List Triple) (s : S) (t : Triple)
      → Over terms t
      → Memᴰ t ts
      → backing.has s c t ≡ false
      → missing terms c (put_all backing c ts s) < missing terms c s
  unfolding missing
  missing-lt terms c ts s t over there fresh =
      filter-lt (λ u. not (backing.has s c u)) (λ u. not (backing.has (put_all backing c ts s) c u))
        (λ u h. elim (Bool-cases (backing.has s c u)) [
          | inl e ↦ absurd (ground (arith, h, has-put_all c c ts u s e))
          | inr e ↦ ground (arith, e)
        ])
        (triples_over terms) (triples_over_complete terms t over) (ground (arith, fresh))
        (ground (arith, put_all-stores c ts t s there))

  pub missing_bound : (terms : List Node) (c : Node) (s : S) → missing terms c s ≤ cube terms
  unfolding missing cube
  missing_bound terms c s = omega (
    arith,
    length-triples_over terms,
    length-filter-le (λ t. not (backing.has s c t)) (triples_over terms),
  )
