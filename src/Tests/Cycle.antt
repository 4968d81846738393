-- ===== src/Tests/Cycle.antt =====
-- Two facts that justify each other, one of them stated.
use rdflib_reasoning.Base.{
  String, ◌≡◌, refl, string_eq, string_dec, true, false, some, [], ◌∷◌, inl, inr, ◌⊎◌, contains,
  arith, Memᴰ, subst, sym,
}
use mathlib.Core.List.Memᴰ
use rdflib_reasoning.Base.Dict.{lookup, values}
use rdflib_reasoning.Base.Sorting.{contains-sorted}
use rdflib_reasoning.Errors.{ok}
use rdflib_reasoning.Rdf.{Triple, triple_dec, triple_eq}
use rdflib_reasoning.Facts.{Fact}
use rdflib_reasoning.Tms.Graph.{consequents_of, edges}
use rdflib_reasoning.Tms.Memory.{get_fact}
use rdflib_reasoning.Tms.Controller.{
  Justification, TmsController, supports, justifications_for_fact_id,
}
use rdflib_reasoning.Tms.Support.{IsGrounded, IsCoherent}
use rdflib_reasoning.Tms.Retract.{RetractionOutcome, retract_triple}
use rdflib_reasoning.Tms.Retract.Cycles.{IsUnfounded, retract_triple-keeps_cycle}
use rdflib_reasoning.Tests.Tms.{program, typed, fact, because}

-- "a" is stated and derived from "b"; "b" is derived from "a".
abbrev cycle : TmsController
cycle = record {
  working_memory = record {
    facts_by_id = ("a", fact "a" true) ∷ ("b", fact "b" false) ∷ [];
    fact_ids_by_triple = (typed "x" "a", "a") ∷ (typed "x" "b", "b") ∷ [];
  };
  dependency_graph = record {
    antecedents_by_consequent = ("b", "a" ∷ []) ∷ ("a", "b" ∷ []) ∷ [];
    consequents_by_antecedent = ("a", "b" ∷ []) ∷ ("b", "a" ∷ []) ∷ [];
  };
  justifications_by_consequent =
      ("b", ("r", because "b" ("a" ∷ [])) ∷ []) ∷ ("a", ("r", because "a" ("b" ∷ [])) ∷ []) ∷ [];
}

reasons_a : justifications_for_fact_id "a" cycle ≡ because "a" ("b" ∷ []) ∷ []
unfolding program
reasons_a = refl

reasons_b : justifications_for_fact_id "b" cycle ≡ because "b" ("a" ∷ []) ∷ []
unfolding program
reasons_b = refl

reason_cases :
    (c : String) (j : Justification)
    → Memᴰ j (justifications_for_fact_id c cycle)
    → ((c ≡ "b") × (j ≡ because "b" ("a" ∷ []))) ⊎ ((c ≡ "a") × (j ≡ because "a" ("b" ∷ [])))
unfolding lookup justifications_for_fact_id supports values
reason_cases c j m = elim (string_dec c "b") [
  | yes same ↦ inl (
    same,
    Memᴰ.eq_of_singleton
        (rw reasons_b at (subst (λ k. Memᴰ j (justifications_for_fact_id k cycle)) same m)),
  )
  | no not_b ↦ elim (string_dec c "a") [
    | yes same ↦ inr (
      same,
      Memᴰ.eq_of_singleton
          (rw reasons_a at (subst (λ k. Memᴰ j (justifications_for_fact_id k cycle)) same m)),
    )
    | no not_a ↦
        let nothing : justifications_for_fact_id c cycle ≡ [] = ground arith in
        absurd (Memᴰ.not-nil (rw nothing at m))
  ]
]

cycle_by_triple :
    (t : Triple) (i : String)
    → lookup t cycle.working_memory.fact_ids_by_triple ≡ some i
    → (f : Fact) × (lookup i cycle.working_memory.facts_by_id ≡ some f) × (f.triple ≡ t)
unfolding lookup
cycle_by_triple t i known = elim (triple_dec t (typed "x" "a")) [
  | yes same ↦ (fact "a" true, ground arith, ground arith)
  | no not_a ↦ (fact "b" false, ground arith, ground arith)
]

cycle_edges :
    (c a : String) (j : Justification)
    → Memᴰ j (justifications_for_fact_id c cycle)
    → contains j.antecedent_ids a ≡ true
    → contains (consequents_of cycle.dependency_graph a) c ≡ true
unfolding lookup consequents_of edges
cycle_edges c a j m in_j =
    let sort = contains-sorted (edges a cycle.dependency_graph.consequents_by_antecedent) c in
    elim (reason_cases c j m) [ inl (is_b, is_j) ↦ ground arith | inr (is_a, is_j) ↦ ground arith ]

cycle-IsCoherent : IsCoherent cycle
unfolding lookup
cycle-IsCoherent = record {
  indexed = record { by_id = λ i f found. ground arith; by_triple = cycle_by_triple };
  edges = cycle_edges;
  premises = λ c a j m in_j. elim (reason_cases c j m) [
    | inl (is_b, is_j) ↦ ground arith
    | inr (is_a, is_j) ↦ ground arith
  ];
}

found_b : lookup "b" cycle.working_memory.facts_by_id ≡ some (fact "b" false)
unfolding program
found_b = refl

both_inside : (i : String) → contains ("a" ∷ "b" ∷ []) i ≡ true → (i ≡ "a") ⊎ (i ≡ "b")
both_inside i h = elim (string_dec i "a") [ yes same ↦ inl same | no other ↦ inr (ground arith) ]

cycle-IsUnfounded : IsUnfounded (fact "a" true) cycle ("a" ∷ "b" ∷ [])
unfolding string_dec
cycle-IsUnfounded = record {
  own = refl;
  others = λ i inside. elim (both_inside i inside) [
    | inl is_a ↦ inl is_a
    | inr is_b ↦ inr (
      fact "b" false,
      subst (λ k. lookup k cycle.working_memory.facts_by_id ≡ some (fact "b" false)) (sym is_b)
          found_b,
      refl,
    )
  ];
  inward = λ i j inside m. elim (reason_cases i j m) [
    | inl (is_b, is_j) ↦ ("a", ground arith, refl)
    | inr (is_a, is_j) ↦ ("b", ground arith, refl)
  ];
}

found_a : get_fact (typed "x" "a") cycle.working_memory ≡ ok (some (fact "a" true))
unfolding program
found_a = refl

retract_triple-keeps_cycle_example :
    (after : TmsController) × (outcome : RetractionOutcome) × (retract_triple (typed "x" "a") cycle
      ≡ ok (after, outcome))
    × ((i : String)
        → contains ("a" ∷ "b" ∷ []) i ≡ true
        → ((b : Fact) × (lookup i after.working_memory.facts_by_id ≡ some b) × (b.stated ≡ false))
          × ¬ IsGrounded after i)
retract_triple-keeps_cycle_example =
    retract_triple-keeps_cycle (typed "x" "a") (fact "a" true) cycle ("a" ∷ "b" ∷ [])
      cycle-IsCoherent found_a refl (λ none_there. cc (reasons_a, none_there)) cycle-IsUnfounded
