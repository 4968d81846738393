-- ===== src/Tests/Tms.antt =====
-- tms.py on small controllers.
use rdflib_reasoning.Base.{
  String, ◌≡◌, refl, string_eq, string_dec, Bool, true, false, some, List, [], ◌∷◌, arith, Memᴰ,
  subst,
}
use mathlib.Core.List.Memᴰ
use rdflib_reasoning.Base.Dict.{lookup, values, insert, erase, keys, filter_values}
use rdflib_reasoning.Base.Sets.{add, update, discard, difference}
use rdflib_reasoning.Base.Sorting.{sorted, contains-sorted}
use rdflib_reasoning.Errors.{ok}
use rdflib_reasoning.Rdf.{uri_ref, Triple, triple_dec, triple_eq, node_dec}
use rdflib_reasoning.Facts.{Fact}
use rdflib_reasoning.Tms.Graph.{
  consequents_of, edges, discard_consequent, discard_edges, discard_edge, update_consequent_edges,
}
use rdflib_reasoning.Tms.Memory.{get_fact, remove_fact}
use rdflib_reasoning.Tms.Controller.{
  Justification, TmsController, supports, justifications_for_fact_id,
}
use rdflib_reasoning.Tms.Support.{by_statement, by_justification, AllGrounded, IsCoherent}
use rdflib_reasoning.Tms.Retract.{
  RetractionOutcome, retract_triple, mark_verify_sweep, candidates_of, explore, kept_of, verify,
  verify_pass, consider, is_kept, sweep_facts, sweep_fact, trim_facts, trim_fact,
}

abbrev pub typed : String → String → Triple
typed x c = record { subject = uri_ref x; predicate = uri_ref "rdf:type"; object = uri_ref c }

abbrev pub fact : String → Bool → Fact
fact i stated = record { id = i; triple = typed "x" i; stated = stated }

abbrev pub because : String → List String → Justification
because i premises = record {
  id = "r";
  rule_id = record { rule_set = "rdfs"; rule_id = "rdfs9" };
  consequent_id = i;
  antecedent_ids = premises;
  metadata = record { depth = 1; bindings = [] };
}

-- "a" is stated and supports "b"; "c" is stated.
abbrev pub chain : TmsController
chain = record {
  working_memory = record {
    facts_by_id = ("a", fact "a" true) ∷ ("b", fact "b" false) ∷ ("c", fact "c" true) ∷ [];
    fact_ids_by_triple = (typed "x" "a", "a") ∷ (typed "x" "b", "b") ∷ (typed "x" "c", "c") ∷ [];
  };
  dependency_graph = record {
    antecedents_by_consequent = ("b", "a" ∷ []) ∷ [];
    consequents_by_antecedent = ("a", "b" ∷ []) ∷ [];
  };
  justifications_by_consequent = ("b", ("r", because "b" ("a" ∷ [])) ∷ []) ∷ [];
}

unfoldable pub program : Unit {0}
unfolding retract_triple mark_verify_sweep candidates_of explore kept_of verify verify_pass consider
    is_kept sweep_facts sweep_fact trim_facts trim_fact get_fact remove_fact lookup insert erase
    keys values filter_values supports justifications_for_fact_id consequents_of edges
    discard_consequent discard_edges discard_edge update_consequent_edges sorted add update discard
    difference string_dec triple_dec node_dec
program = tt

reasons_b : justifications_for_fact_id "b" chain ≡ because "b" ("a" ∷ []) ∷ []
unfolding program
reasons_b = refl

only_reason :
    (c : String) (j : Justification)
    → Memᴰ j (justifications_for_fact_id c chain)
    → (c ≡ "b") × (j ≡ because "b" ("a" ∷ []))
unfolding lookup justifications_for_fact_id supports values
only_reason c j m = elim (string_dec c "b") [
  | yes same ↦ (
    same,
    Memᴰ.eq_of_singleton
        (rw reasons_b at (subst (λ k. Memᴰ j (justifications_for_fact_id k chain)) same m)),
  )
  | no other ↦
      let nothing : justifications_for_fact_id c chain ≡ [] = ground arith in
      absurd (Memᴰ.not-nil (rw nothing at m))
]

chain_by_triple :
    (t : Triple) (i : String)
    → lookup t chain.working_memory.fact_ids_by_triple ≡ some i
    → (f : Fact) × (lookup i chain.working_memory.facts_by_id ≡ some f) × (f.triple ≡ t)
unfolding lookup
chain_by_triple t i known = elim (triple_dec t (typed "x" "a")) [
  | yes same ↦ (fact "a" true, ground arith, ground arith)
  | no not_a ↦ elim (triple_dec t (typed "x" "b")) [
    | yes same ↦ (fact "b" false, ground arith, ground arith)
    | no not_b ↦ (fact "c" true, ground arith, ground arith)
  ]
]

pub chain-IsCoherent : IsCoherent chain
unfolding lookup consequents_of edges
chain-IsCoherent = record {
  indexed = record { by_id = λ i f found. ground arith; by_triple = chain_by_triple };
  edges = λ c a j m in_j.
      let (is_b, is_j) = only_reason c j m in
      ground (arith, contains-sorted (edges a chain.dependency_graph.consequents_by_antecedent) c);
  premises = λ c a j m in_j. let (is_b, is_j) = only_reason c j m in ground arith;
}

pub chain-AllGrounded : AllGrounded chain
unfolding lookup justifications_for_fact_id supports values
chain-AllGrounded i f found = elim (string_dec i "b") [
  | no not_b ↦ by_statement f found (ground arith)
  | yes is_b ↦
      by_justification f (because "b" ("a" ∷ [])) found (rw (is_b, reasons_b) (Memᴰ.head refl))
        (λ a in_j. by_statement (fact "a" true) (ground arith) refl)
]

-- What retracting "a" leaves of `chain`.
abbrev pub chain_after : TmsController
chain_after = record {
  working_memory = record {
    facts_by_id = ("c", fact "c" true) ∷ [];
    fact_ids_by_triple = (typed "x" "c", "c") ∷ [];
  };
  dependency_graph = record { antecedents_by_consequent = []; consequents_by_antecedent = [] };
  justifications_by_consequent = [];
}

abbrev pub chain_outcome : RetractionOutcome
chain_outcome = record {
  removed_fact_ids = "a" ∷ "b" ∷ [];
  removed_triples = typed "x" "a" ∷ typed "x" "b" ∷ [];
  removed_justification_ids = "r" ∷ [];
  unstated_fact_ids = [];
}

pub retract_chain : retract_triple (typed "x" "a") chain ≡ ok (chain_after, chain_outcome)
unfolding program
retract_chain = refl
