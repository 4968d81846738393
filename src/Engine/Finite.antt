-- ===== src/Engine/Finite.antt =====
-- rete_engine.py: how many triples there are over some terms, and how many are not known yet.
use rdflib_reasoning.Base.{
  ◌≡◌, false, not, ℕ, ◌<◌, ◌≤◌, ◌*◌, List, Memᴰ, map, contains, filter, length, length-filter-le,
  arith, mem-contains,
}
use mathlib.Core.List.Memᴰ
use rdflib_reasoning.Base.Flat.{flat_map, mem-flat_map, length-flat_map, length-map, filter-lt}
use rdflib_reasoning.Base.Sets.{update, contains-update}
use rdflib_reasoning.Rdf.{Node, Triple, triple_eq}
use rdflib_reasoning.Network.Terms.{Over}

-- Every triple over some terms.
unfoldable pub triples_over : List Node → List Triple
triples_over terms =
    flat_map
      (λ s.
        flat_map (λ p. map (λ o. record { subject = s; predicate = p; object = o }) terms) terms)
      terms

pub triples_over_complete :
    (terms : List Node) (t : Triple) → Over terms t → Memᴰ t (triples_over terms)
unfolding triples_over Over
triples_over_complete terms t (s, p, o) =
    mem-flat_map _ terms s (mem-flat_map _ terms p (Memᴰ.map _ o))

pub length-triples_over :
    (terms : List Node) → length (triples_over terms) ≡ length terms * (length terms * length terms)
unfolding triples_over
length-triples_over terms =
    length-flat_map _ (length terms * length terms) terms
      (λ s. length-flat_map _ (length terms) terms (λ p. length-map _ terms))

-- How many triples over the terms are not known.
unfoldable pub unknown : List Node → List Triple → ℕ
unknown terms known = length (filter (λ t. not (contains known t)) (triples_over terms))

pub unknown-le :
    (terms : List Node) (known : List Triple)
    → unknown terms known ≤ length terms * (length terms * length terms)
unfolding unknown
unknown-le terms known = omega (
  arith,
  length-triples_over terms,
  length-filter-le (λ t. not (contains known t)) (triples_over terms),
)

-- A new triple over the terms leaves fewer to come.
pub unknown-lt :
    (terms : List Node) (known new : List Triple) (t : Triple)
    → Over terms t
    → contains known t ≡ false
    → Memᴰ t new
    → unknown terms (update known new) < unknown terms known
unfolding unknown
unknown-lt terms known new t over fresh there =
    filter-lt (λ u. not (contains known u)) (λ u. not (contains (update known new) u))
      (λ u h. ground (arith, h, contains-update known new u)) (triples_over terms)
      (triples_over_complete terms t over) (ground (arith, fresh))
      (ground (arith, contains-update known new t, mem-contains new t there))
