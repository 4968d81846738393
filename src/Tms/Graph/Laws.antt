-- ===== src/Tms/Graph/Laws.antt =====
-- What the operations of the dependency graph do to its edges.
use rdflib_reasoning.Base.{
  String, ◌≡◌, ◌==◌, string_eq, true, false, not, ◌&&◌, ◌||◌, List, [], ◌∷◌, inl, inr, contains,
  arith, Option-cases,
}
use rdflib_reasoning.Base.Dict.{Dict, lookup, insert, erase, lookup-insert, lookup-erase}
use rdflib_reasoning.Base.Sets.{
  add, update, discard, difference, contains-add, contains-update, contains-discard,
  contains-difference,
}
use rdflib_reasoning.Base.Sorting.{contains-sorted}
use rdflib_reasoning.Tms.Graph.{
  DependencyGraph, edges, discard_edge, discard_edges, add_consequent, add_support, consequents_of,
  discard_consequent, update_consequent_edges,
}

contains-edges-discard_edge :
    (x k : String) (d : Dict String (List String)) (a c : String)
    → contains (edges a (discard_edge x k d)) c ≡ (contains (edges a d) c && not (a == k && c == x))
unfolding edges discard_edge
contains-edges-discard_edge x k d a c = elim (Option-cases (lookup k d)) [
  | inl none_there ↦ ground arith
  | inr (s, found) ↦
      ground (arith, contains-discard x c s, lookup-erase a k d, lookup-insert a k (discard x s) d)
]

contains-edges-discard_edges :
    (x : String) (ks : List String) (d : Dict String (List String)) (a c : String)
    → contains (edges a (discard_edges x ks d)) c
      ≡ (contains (edges a d) c && not (contains ks a && c == x))
unfolding discard_edges
contains-edges-discard_edges x [] d a c = ground arith
contains-edges-discard_edges x (k ∷ ks) d a c = ground (
  arith,
  contains-edges-discard_edges x ks (discard_edge x k d) a c,
  contains-edges-discard_edge x k d a c,
)

contains-edges-add_consequent :
    (x : String) (ks : List String) (d : Dict String (List String)) (a c : String)
    → contains (edges a (add_consequent x ks d)) c
      ≡ (contains (edges a d) c || (contains ks a && c == x))
unfolding add_consequent edges
contains-edges-add_consequent x [] d a c = ground arith
contains-edges-add_consequent x (k ∷ ks) d a c = ground (
  arith,
  contains-edges-add_consequent x ks (insert k (add x (edges k d)) d) a c,
  lookup-insert a k (add x (edges k d)) d,
  contains-add x c (edges k d),
)

-- `add_support` adds exactly the edges from the antecedents to the consequent.
pub contains-consequents_of-add_support :
    (consequent : String) (antecedents : List String) (g : DependencyGraph) (a c : String)
    → contains (consequents_of (add_support consequent antecedents g) a) c
      ≡ (contains (consequents_of g a) c || (contains antecedents a && c == consequent))
unfolding consequents_of add_support
contains-consequents_of-add_support consequent antecedents g a c = ground (
  arith,
  contains-sorted (edges a (add_consequent consequent antecedents g.consequents_by_antecedent)) c,
  contains-sorted (edges a g.consequents_by_antecedent) c,
  contains-edges-add_consequent consequent antecedents g.consequents_by_antecedent a c,
)

contains-edges-erase :
    (k : String) (d : Dict String (List String)) (a c : String)
    → contains (edges a (erase k d)) c ≡ (contains (edges a d) c && not (a == k))
unfolding edges
contains-edges-erase k d a c = ground (arith, lookup-erase a k d)

-- `discard_consequent` keeps every edge that has the fact at neither end.
pub discard_consequent-keeps :
    (s : String) (g : DependencyGraph) (a c : String)
    → (a == s) ≡ false
    → (c == s) ≡ false
    → contains (consequents_of g a) c ≡ true
    → contains (consequents_of (discard_consequent s g) a) c ≡ true
unfolding consequents_of discard_consequent
discard_consequent-keeps s g a c ha hc h =
    let ks = edges s g.antecedents_by_consequent in
    let backward = discard_edges s ks g.consequents_by_antecedent in
    ground (
      arith,
      contains-sorted (edges a (erase s backward)) c,
      contains-sorted (edges a g.consequents_by_antecedent) c,
      contains-edges-erase s backward a c,
      contains-edges-discard_edges s ks g.consequents_by_antecedent a c,
    )

-- `update_consequent_edges` takes edges to its fact only, and none from the new antecedents.
pub update_consequent_edges-keeps :
    (k : String) (ids : List String) (g : DependencyGraph) (a c : String)
    → (c == k && not (contains ids a)) ≡ false
    → contains (consequents_of g a) c ≡ true
    → contains (consequents_of (update_consequent_edges k ids g) a) c ≡ true
unfolding consequents_of update_consequent_edges
update_consequent_edges-keeps k ids g a c free h =
    let old = edges k g.antecedents_by_consequent in
    let removed = difference old (update [] ids) in
    ground (
      arith,
      contains-sorted (edges a (discard_edges k removed g.consequents_by_antecedent)) c,
      contains-sorted (edges a g.consequents_by_antecedent) c,
      contains-edges-discard_edges k removed g.consequents_by_antecedent a c,
      contains-difference old (update [] ids) a,
      contains-update [] ids a,
    )
