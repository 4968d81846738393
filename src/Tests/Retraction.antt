-- ===== src/Tests/Retraction.antt =====
-- The theorems of tms.py at the controllers of Tests/Tms, and at a cycle of two facts.
use rdflib_reasoning.Base.{
  String, ◌≡◌, refl, string_eq, true, false, none, some, [], ◌∷◌, ◌⊎◌, ◌↔◌, contains, arith, Memᴰ,
}
use rdflib_reasoning.Base.Dict.{lookup, is_some}
use rdflib_reasoning.Errors.{ok, raise, value_error}
use rdflib_reasoning.Rdf.{triple_eq, Rendering}
use rdflib_reasoning.Facts.{Fact, fact_id_for_triple}
use rdflib_reasoning.Tms.Memory.{get_fact, has_fact}
use rdflib_reasoning.Tms.Controller.{
  RuleId, TmsController, justifications_for_fact_id, record_derivation,
}
use rdflib_reasoning.Tms.Support.{IsGrounded, AllGrounded, IsCoherent}
use rdflib_reasoning.Tms.RecordDerivation.{
  record_derivation-IsCoherent, record_derivation-AllGrounded,
}
use rdflib_reasoning.Tms.Retract.{
  RetractionOutcome, empty_outcome, clear_stated, retract_triple, candidates_of, kept_of,
}
use rdflib_reasoning.Tms.Retract.Mark.{Supports, mem-candidates_of}
use rdflib_reasoning.Tms.Retract.Verify.{IsVerified, mem-kept_of}
use rdflib_reasoning.Tms.Retract.Correct.{
  retract_triple_total, retract_triple-IsCoherent, retract_triple_exact, retract_triple-AllGrounded,
  mem-removed_triples,
}
use rdflib_reasoning.Tests.Tms.{
  program, typed, fact, chain, chain-IsCoherent, chain-AllGrounded, chain_after, chain_outcome,
  retract_chain,
}

mem-candidates_of_example :
    (contains (candidates_of chain.dependency_graph "a") "b" ≡ true)
    ↔ (◌≡◌ {A = String} "b" "a" ⊎ Supports chain.dependency_graph "a" "b")
mem-candidates_of_example = mem-candidates_of chain.dependency_graph "a" "b"

mem-kept_of_example :
    (contains (kept_of chain "a" ("a" ∷ "b" ∷ [])) "b" ≡ true)
    ↔ IsVerified chain "a" ("a" ∷ "b" ∷ []) "b"
mem-kept_of_example = mem-kept_of chain "a" ("a" ∷ "b" ∷ []) "b"

retract_triple_total_example :
    ((get_fact (typed "x" "b") chain.working_memory ≡ ok none)
      × (retract_triple (typed "x" "b") chain ≡ ok (chain, empty_outcome)))
    ⊎ (((f : Fact) × (get_fact (typed "x" "b") chain.working_memory ≡ ok (some f))
          × (f.stated ≡ false)
          × (retract_triple (typed "x" "b") chain ≡ raise value_error))
        ⊎ ((f : Fact) × (after : TmsController) × (outcome : RetractionOutcome) × (get_fact
                (typed "x" "b")
                chain.working_memory
              ≡ ok (some f))
            × (f.stated ≡ true)
            × (retract_triple (typed "x" "b") chain ≡ ok (after, outcome))))
retract_triple_total_example = retract_triple_total (typed "x" "b") chain chain-IsCoherent

retract_triple-IsCoherent_example : IsCoherent chain_after
retract_triple-IsCoherent_example =
    retract_triple-IsCoherent (typed "x" "a") chain chain_after chain_outcome chain-IsCoherent
      retract_chain

found_a : get_fact (typed "x" "a") chain.working_memory ≡ ok (some (fact "a" true))
unfolding program
found_a = refl

alone_a : justifications_for_fact_id "a" chain ≡ []
unfolding program
alone_a = refl

retract_triple_exact_example :
    (lookup "c" chain_after.working_memory.facts_by_id ≡ some (fact "c" true)) ↔ (
      (lookup "c" chain.working_memory.facts_by_id ≡ some (fact "c" true))
      × IsGrounded (clear_stated (fact "a" true) chain) "c")
retract_triple_exact_example =
    retract_triple_exact (typed "x" "a") (fact "a" true) chain chain_after chain_outcome
      chain-IsCoherent found_a refl alone_a retract_chain chain-AllGrounded "c" (fact "c" true)

retract_triple-AllGrounded_example : AllGrounded chain_after
retract_triple-AllGrounded_example =
    retract_triple-AllGrounded (typed "x" "a") (fact "a" true) chain chain_after chain_outcome
      chain-IsCoherent found_a refl alone_a retract_chain chain-AllGrounded

mem-removed_triples_example : Memᴰ (typed "x" "b") chain_outcome.removed_triples ↔ (
    (has_fact (typed "x" "b") chain.working_memory ≡ true)
    × (has_fact (typed "x" "b") chain_after.working_memory ≡ false))
mem-removed_triples_example =
    mem-removed_triples (typed "x" "a") (fact "a" true) chain chain_after chain_outcome
      chain-IsCoherent found_a refl alone_a retract_chain (typed "x" "b")

-- A rendering that keeps the ids of `chain` free.
abbrev plain : Rendering
plain = record { n3 = λ _. "n"; repr_int = λ _. "1"; repr_str = λ s. s }

abbrev rdfs9 : RuleId
rdfs9 = record { rule_set = "rdfs"; rule_id = "rdfs9" }

vacant :
    lookup (fact_id_for_triple plain.n3 (typed "x" "d")) chain.working_memory.facts_by_id ≡ none
unfolding program fact_id_for_triple
vacant = refl

unclashed :
    (g : Fact)
    → lookup (fact_id_for_triple plain.n3 (typed "x" "d")) chain.working_memory.facts_by_id ≡ some g
    → g.triple ≡ typed "x" "d"
unclashed g found = absurd (ground (arith, vacant))

present :
    (a : String)
    → contains ("a" ∷ []) a ≡ true
    → is_some (lookup a chain.working_memory.facts_by_id) ≡ true
unfolding lookup
present a h = ground arith

record_derivation-IsCoherent_example :
    (after : TmsController) × (f : Fact) × (record_derivation plain
        (typed "x" "d")
        rdfs9
        (fact "a" true ∷ [])
        []
        1
        chain
      ≡ ok (after, f))
    × (f.triple ≡ typed "x" "d")
    × IsCoherent after
record_derivation-IsCoherent_example =
    record_derivation-IsCoherent plain (typed "x" "d") rdfs9 (fact "a" true ∷ []) [] 1 chain
      chain-IsCoherent unclashed present

abbrev derived : TmsController × Fact
derived = elim (record_derivation plain (typed "x" "d") rdfs9 (fact "a" true ∷ []) [] 1 chain) [
  | ok r ↦ r
  | raise e ↦ (chain, fact "d" false)
]

record_d :
    record_derivation plain (typed "x" "d") rdfs9 (fact "a" true ∷ []) [] 1 chain
    ≡ ok (derived.0, derived.1)
record_d =
    let (after, f, runs, _, _) =
      record_derivation-IsCoherent plain (typed "x" "d") rdfs9 (fact "a" true ∷ []) [] 1 chain
        chain-IsCoherent unclashed present in
    ground arith

record_derivation-AllGrounded_example : AllGrounded derived.0
record_derivation-AllGrounded_example =
    record_derivation-AllGrounded plain (typed "x" "d") rdfs9 (fact "a" true ∷ []) [] 1 chain
      chain-IsCoherent unclashed present derived.0 derived.1 chain-AllGrounded record_d
