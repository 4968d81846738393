-- ===== src/Tms/Retract/Mark.antt =====
-- The mark phase and `transitive_dependents_of`, and where the dependency graph leads.
use rdflib_reasoning.Base.{
  String, ◌≡◌, string_eq, true, [], ◌∷◌, ◌⊎◌, inl, inr, ◌↔◌, reverse, contains, contains-append,
  contains-reverse, length-append, length-reverse, arith,
}
use rdflib_reasoning.Tms.Graph.{DependencyGraph, consequents_of}
use rdflib_reasoning.Tms.Retract.{walk_fuel, push, candidates_of}
use rdflib_reasoning.Tms.Retract.Closure.{
  Extends, Explored, explore_lem, work-le-edge_count, length-edges-le, length-consequents_of,
}

-- A chain of one or more edges from an antecedent to a consequent.
pub data Supports (g : DependencyGraph) (a : String) : String → Type 0 where
  one : {c : String} → contains (consequents_of g a) c ≡ true → Supports g a c
  more : {b c : String} → Supports g a b → contains (consequents_of g b) c ≡ true → Supports g a c

push-Extends : Extends push
push-Extends = record {
  items = λ new pending x.
      ground (arith, contains-append (reverse new) pending x, contains-reverse new x);
  size = λ new pending. omega (arith, length-append (reverse new) pending, length-reverse new);
}

abbrev SeedOr : DependencyGraph → String → String → Type 0
SeedOr g seed x = (x ≡ seed) ⊎ Supports g seed x

SeedOr-step :
    (g : DependencyGraph) (seed a c : String)
    → SeedOr g seed a
    → contains (consequents_of g a) c ≡ true
    → SeedOr g seed c
SeedOr-step g seed a c (inl same) edge = inr (one (rw same at edge))
SeedOr-step g seed a c (inr chain) edge = inr (more chain edge)

candidates_of-Explored :
    (g : DependencyGraph) (seed : String)
    → Explored (SeedOr g seed) g (seed ∷ []) (candidates_of g seed)
unfolding candidates_of
candidates_of-Explored g seed =
    explore_lem push push-Extends g (SeedOr g seed) (SeedOr-step g seed) (walk_fuel g)
      (push (consequents_of g seed) []) (seed ∷ []) (seed ∷ [])
      (omega (
        arith,
        push-Extends.size (consequents_of g seed) [],
        length-consequents_of g seed,
        length-edges-le seed g.consequents_by_antecedent,
        work-le-edge_count (seed ∷ []) g.consequents_by_antecedent,
      ))
      (record {
        seen_sound = λ x m. inl (ground arith);
        pending_sound =
            λ x m. inr (one (ground (arith, push-Extends.items (consequents_of g seed) [] x)));
        seen_closed = λ a c m edge.
            let own : contains (consequents_of g seed) c ≡ true = ground arith in
            ground (arith, push-Extends.items (consequents_of g seed) [] c);
      })
      (λ x m. ground arith)

-- The mark phase collects the seed and exactly the ids that chains of edges lead to from it.
pub mem-candidates_of :
    (g : DependencyGraph) (seed x : String)
    → (contains (candidates_of g seed) x ≡ true) ↔ ((x ≡ seed) ⊎ Supports g seed x)
mem-candidates_of g seed x = (e.sound x, full)
  where
    e : Explored (SeedOr g seed) g (seed ∷ []) (candidates_of g seed)
    e = candidates_of-Explored g seed

    follow : {y : String} → Supports g seed y → contains (candidates_of g seed) y ≡ true
    follow (one {c} edge) = e.closed seed c (e.started seed (ground arith)) edge
    follow (more {b} {c} chain edge) = e.closed b c (follow chain) edge

    full : SeedOr g seed x → contains (candidates_of g seed) x ≡ true
    full (inl same) = e.started x (ground arith)
    full (inr chain) = follow chain
