-- ===== src/Tms/Graph.antt =====
-- tms.py, class DependencyGraph: which facts support which, in both directions.
pub mod Laws
use rdflib_reasoning.Base.{
  String, ◌≡◌, refl, Eq, ◌==◌, string_eq, Bool, true, false, not, ◌&&◌, ◌||◌, Option, none, some,
  List, [], ◌∷◌, contains, if◌then◌else◌, arith,
}
use rdflib_reasoning.Base.Dict.{Dict, lookup, insert, erase, get_or}
use rdflib_reasoning.Base.Sets.{add, update, discard, difference}
use rdflib_reasoning.Base.Sorting.{sorted}

pub record DependencyGraph : Type 0 where
  pub antecedents_by_consequent : Dict String (List String)
  pub consequents_by_antecedent : Dict String (List String)

-- `d.get(k, set())`
unfoldable pub edges : String → Dict String (List String) → List String
edges k d = get_or (lookup k d) []

-- `s = d.get(k)`, and if there is one `s.discard(a)`, with `del d[k]` when that leaves it empty.
unfoldable pub discard_edge :
    String → String → Dict String (List String) → Dict String (List String)
discard_edge a k d = elim (lookup k d) [
  | none ↦ d
  | some s ↦ elim (discard a s) [ [] ↦ erase k d | b ∷ rest ↦ insert k (b ∷ rest) d ]
]

-- The loop of `add_support` over the antecedents.
unfoldable pub add_consequent :
    String → List String → Dict String (List String) → Dict String (List String)
add_consequent c [] d = d
add_consequent c (a ∷ rest) d = add_consequent c rest (insert a (add c (edges a d)) d)

unfoldable pub add_support : String → List String → DependencyGraph → DependencyGraph
add_support consequent antecedent_ids g = record {
  antecedents_by_consequent =
      insert consequent (update (edges consequent g.antecedents_by_consequent) antecedent_ids)
        g.antecedents_by_consequent;
  consequents_by_antecedent = add_consequent consequent antecedent_ids g.consequents_by_antecedent;
}

unfoldable pub antecedents_of : DependencyGraph → String → List String
antecedents_of g consequent = sorted (edges consequent g.antecedents_by_consequent)

unfoldable pub consequents_of : DependencyGraph → String → List String
consequents_of g antecedent = sorted (edges antecedent g.consequents_by_antecedent)

-- `for k in ks: discard a from d[k]`, the loop of both methods below.
unfoldable pub discard_edges :
    String → List String → Dict String (List String) → Dict String (List String)
discard_edges a [] d = d
discard_edges a (k ∷ ks) d = discard_edges a ks (discard_edge a k d)

unfoldable pub discard_consequent : String → DependencyGraph → DependencyGraph
discard_consequent c g =
    let forward = erase c g.antecedents_by_consequent in
    let backward =
      discard_edges c (edges c g.antecedents_by_consequent) g.consequents_by_antecedent in
    record {
      antecedents_by_consequent = discard_edges c (edges c backward) forward;
      consequents_by_antecedent = erase c backward;
    }

unfoldable pub update_consequent_edges : String → List String → DependencyGraph → DependencyGraph
update_consequent_edges c antecedent_ids g =
    let new_antecedents = update [] antecedent_ids in
    let removed = difference (edges c g.antecedents_by_consequent) new_antecedents in
    record {
      antecedents_by_consequent = elim new_antecedents [
        | [] ↦ erase c g.antecedents_by_consequent
        | a ∷ rest ↦ insert c (a ∷ rest) g.antecedents_by_consequent
      ];
      consequents_by_antecedent = discard_edges c removed g.consequents_by_antecedent;
    }

abbrev pub empty_graph : DependencyGraph
empty_graph = record { antecedents_by_consequent = []; consequents_by_antecedent = [] }
