-- ===== src/Tms/Retract/Closure.antt =====
-- The walks over the dependency graph: what `explore` collects, and its fuel.
use rdflib_reasoning.Base.{
  ℕ, zero, suc, ◌+◌, ◌≤◌, String, ◌≡◌, string_eq, true, false, ◌||◌, List, [], ◌∷◌, inl, inr,
  if◌then◌else◌, contains, length, arith, Bool-cases, string_dec,
}
use rdflib_reasoning.Base.Dict.{Dict, lookup}
use rdflib_reasoning.Base.Sets.{add, contains-add}
use rdflib_reasoning.Base.Sorting.{length-sorted}
use rdflib_reasoning.Tms.Graph.{DependencyGraph, consequents_of, edges}
use rdflib_reasoning.Tms.Retract.{explore, edge_count}

-- The lengths of the sets that are not pushed yet.
pub work : List String → Dict String (List String) → ℕ
work seen [] = 0
work seen ((k, s) ∷ d) = (if contains seen k then 0 else length s) + work seen d

pub work-le-edge_count :
    (seen : List String) (d : Dict String (List String)) → work seen d ≤ edge_count d
unfolding work
work-le-edge_count seen [] = omega arith
work-le-edge_count seen ((k, s) ∷ d) = ground (arith, work-le-edge_count seen d)

work-add-le :
    (id : String) (seen : List String) (d : Dict String (List String))
    → work (add id seen) d ≤ work seen d
unfolding work
work-add-le id seen [] = omega arith
work-add-le id seen ((k, s) ∷ d) = ground (arith, work-add-le id seen d, contains-add id k seen)

work-add :
    (id : String) (seen : List String) (d : Dict String (List String))
    → contains seen id ≡ false
    → work (add id seen) d + length (edges id d) ≤ work seen d
unfolding work edges lookup
work-add id seen [] h = omega arith
work-add id seen ((k, s) ∷ d) h =
    ground (arith, work-add id seen d, contains-add id k seen, work-add-le id seen d)

pub length-edges-le :
    (id : String) (d : Dict String (List String)) → length (edges id d) ≤ edge_count d
unfolding edges lookup
length-edges-le id [] = omega arith
length-edges-le id ((k, s) ∷ d) = ground (arith, length-edges-le id d)

pub length-consequents_of :
    (g : DependencyGraph) (id : String)
    → length (consequents_of g id) ≡ length (edges id g.consequents_by_antecedent)
unfolding consequents_of
length-consequents_of g id = length-sorted _

-- How a way of extending `pending` keeps its items.
pub record Extends (extend : List String → List String → List String) : Type 0 where
  pub items :
      (new pending : List String) (x : String)
      → contains (extend new pending) x ≡ (contains new x || contains pending x)
  pub size : (new pending : List String) → length (extend new pending) ≡ length new + length pending

pub record Explored (P : String → Type 0) (g : DependencyGraph) (starts r : List String)
    : Type 0 where
  pub sound : (x : String) → contains r x ≡ true → P x
  pub closed :
      (a c : String)
      → contains r a ≡ true
      → contains (consequents_of g a) c ≡ true
      → contains r c ≡ true
  pub started : (x : String) → contains starts x ≡ true → contains r x ≡ true

module _ (extend : List String → List String → List String) (laws : Extends extend)
    (g : DependencyGraph) (P : String → Type 0)
    (steps : (a c : String) → P a → contains (consequents_of g a) c ≡ true → P c) where
  pub record Inv (pending seen : List String) : Type 0 where
    pub seen_sound : (x : String) → contains seen x ≡ true → P x
    pub pending_sound : (x : String) → contains pending x ≡ true → P x
    pub seen_closed :
        (a c : String)
        → contains seen a ≡ true
        → contains (consequents_of g a) c ≡ true
        → (contains seen c || contains pending c) ≡ true

  finished :
      (seen starts : List String)
      → Inv [] seen
      → ((x : String) → contains starts x ≡ true → (contains seen x || false) ≡ true)
      → Explored P g starts seen
  finished seen starts inv kept = record {
    sound = inv.seen_sound;
    closed = λ a c m edge. ground (arith, inv.seen_closed a c m edge);
    started = λ x m. ground (arith, kept x m);
  }

  skip :
      (id : String) (pending seen : List String)
      → contains seen id ≡ true
      → Inv (id ∷ pending) seen
      → Inv pending seen
  skip id pending seen old inv = record {
    seen_sound = inv.seen_sound;
    pending_sound = λ x m. inv.pending_sound x (ground arith);
    seen_closed = λ a c m edge. ground (arith, inv.seen_closed a c m edge);
  }

  visit :
      (id : String) (pending seen : List String)
      → Inv (id ∷ pending) seen
      → Inv (extend (consequents_of g id) pending) (add id seen)
  visit id pending seen inv = record {
    seen_sound = λ x m. elim (string_dec x id) [
      | yes same ↦ inv.pending_sound x (ground arith)
      | no other ↦ inv.seen_sound x (ground (arith, contains-add id x seen))
    ];
    pending_sound = λ x m. elim (Bool-cases (contains pending x)) [
      | inl old ↦ inv.pending_sound x (ground arith)
      | inr new ↦
          steps id x (inv.pending_sound id (ground arith))
            (ground (arith, laws.items (consequents_of g id) pending x))
    ];
    seen_closed = λ a c m edge. elim (string_dec a id) [
      | yes same ↦
          let own : contains (consequents_of g id) c ≡ true = rw same at edge in
          ground (arith, laws.items (consequents_of g id) pending c)
      | no other ↦ ground (
        arith,
        inv.seen_closed a c (ground (arith, contains-add id a seen)) edge,
        contains-add id a seen,
        contains-add id c seen,
        laws.items (consequents_of g id) pending c,
      )
    ];
  }

  -- With fuel for the work that is left, the loop ends on an empty `pending`.
  pub explore_lem :
      (fuel : ℕ) (pending seen starts : List String)
      → length pending + work seen g.consequents_by_antecedent ≤ fuel
      → Inv pending seen
      → ((x : String) → contains starts x ≡ true → (contains seen x || contains pending x) ≡ true)
      → Explored P g starts (explore extend fuel g pending seen)
  unfolding explore
  explore_lem zero [] seen starts h inv kept = finished seen starts inv kept
  explore_lem zero (id ∷ pending) seen starts h inv kept = absurd (omega arith)
  explore_lem (suc fuel) [] seen starts h inv kept = finished seen starts inv kept
  explore_lem (suc fuel) (id ∷ pending) seen starts h inv kept =
      elim (Bool-cases (contains seen id)) [
        | inl old ↦
            rw (old, explore)
              (explore_lem fuel pending seen starts (omega arith) (skip id pending seen old inv)
                (λ x m. ground (arith, kept x m)))
        | inr new ↦
            rw (new, explore)
              (explore_lem fuel (extend (consequents_of g id) pending) (add id seen) starts
                (omega (
                  arith,
                  laws.size (consequents_of g id) pending,
                  length-consequents_of g id,
                  work-add id seen g.consequents_by_antecedent new,
                ))
                (visit id pending seen inv)
                (λ x m. ground (
                  arith,
                  kept x m,
                  contains-add id x seen,
                  laws.items (consequents_of g id) pending x,
                )))
      ]
