-- ===== src/Tests/Proof.antt =====
-- derivation.py and proof.py: a trace in which two facts conclude each other.
use rdflib_reasoning.Base.{
  String, ◌<◌, ◌≤◌, ◌≡◌, true, false, ◌&&◌, ◌||◌, not, none, some, List, [], ◌∷◌, ◌⊎◌, Memᴰ, length,
  arith,
}
use rdflib_reasoning.Base.Dict.{is_some}
use rdflib_reasoning.Errors.{ok, is_ok}
use rdflib_reasoning.Rdf.{uri_ref}
use rdflib_reasoning.Compiler.{is_empty}
use rdflib_reasoning.Engine.{TripleFact, DerivationRecord, ContradictionRecord}
use rdflib_reasoning.Proof.{
  triple_fact, RuleApplication, ProofNode, no_nodes, Verdict, DirectProof, is_misaligned,
  new_rule_application,
}
use rdflib_reasoning.Proof.Reconstruct.{
  shows, contradiction_proof, a_derivation, a_contradiction, TraceRecord, derivations_in,
  reconstruct,
}
use rdflib_reasoning.Proof.Valid.{IsProof, Supports, conclusions}
use rdflib_reasoning.Proof.Verdicts.{
  triple_result, missing_result, shown_result, reconstruct-IsProof, reconstruct_verdict,
  contradiction_proof_total, new_rule_application-is_ok,
}
use rdflib_reasoning.Tests.Tms.{typed}

abbrev claim : String → TripleFact
claim c = record { context = uri_ref "g"; triple = typed "x" c }

abbrev derived : String → String → DerivationRecord
derived c premise = record {
  context = uri_ref "g";
  conclusions = claim c ∷ [];
  premises = claim premise ∷ [];
  rule_id = record { rule_set = "test"; rule_id = c };
  bindings = [];
  depth = some 0;
  silent = false;
  bootstrap = false;
}

abbrev diagnostic : ContradictionRecord
diagnostic = record {
  context = uri_ref "g";
  rule_id = record { rule_set = "test"; rule_id = "clash" };
  premises = claim "a" ∷ [];
  bindings = [];
  sequence_id = 1;
  witness = none;
  category = "clash";
  detail = none;
}

abbrev trace : List TraceRecord
trace =
    a_derivation (derived "a" "b")
    ∷ a_derivation (derived "b" "a")
    ∷ a_contradiction diagnostic
    ∷ []

enough : length (conclusions (derivations_in trace)) < 3
unfolding conclusions derivations_in
enough = omega arith

reconstruct-IsProof_example :
    (node : ProofNode) × (reconstruct 3 (triple_fact (claim "a")) trace
      ≡ some (ok (triple_result (claim "a") node)))
    × IsProof (derivations_in trace) [] (claim "a") node
reconstruct-IsProof_example = reconstruct-IsProof 3 (claim "a") trace enough

reconstruct_verdict_example :
    (proof : DirectProof) × (reconstruct 3 (triple_fact (claim "a")) trace ≡ some (ok proof))
    × (((proof.verdict ≡ some Verdict.proved)
          × ((r : DerivationRecord) × Memᴰ r (derivations_in trace) × Supports (claim "a") r))
        ⊎ ((proof.verdict ≡ some Verdict.incomplete)
            × ((r : DerivationRecord) → Memᴰ r (derivations_in trace) → ¬ Supports (claim "a") r)))
reconstruct_verdict_example = reconstruct_verdict 3 (claim "a") trace enough

contradiction_proof_total_example :
    ((contradiction_proof (uri_ref "g") (claim "a") (diagnostic ∷ [])
        ≡ ok (missing_result (uri_ref "g") (claim "a")))
      × ((r : ContradictionRecord)
          → Memᴰ r (diagnostic ∷ [])
          → shows (uri_ref "g") (claim "a") r ≡ false))
    ⊎ ((r : ContradictionRecord) × Memᴰ r (diagnostic ∷ [])
        × (shows (uri_ref "g") (claim "a") r ≡ true)
        × ((s : ContradictionRecord)
            → Memᴰ s (diagnostic ∷ [])
            → shows (uri_ref "g") (claim "a") s ≡ true
            → r.sequence_id ≤ s.sequence_id)
        × (contradiction_proof (uri_ref "g") (claim "a") (diagnostic ∷ [])
            ≡ ok (shown_result (uri_ref "g") (claim "a") r)))
contradiction_proof_total_example =
    contradiction_proof_total (uri_ref "g") (claim "a") (diagnostic ∷ [])

abbrev anonymous : RuleApplication
anonymous = record {
  conclusions = triple_fact (claim "a") ∷ [];
  rule_id = none;
  description = none;
  derivation = none;
  rationale = none;
  stated_theorem_name = none;
}

new_rule_application-is_ok_example : is_ok (new_rule_application anonymous no_nodes) ≡ (
    not (is_empty anonymous.conclusions)
    && ((is_some anonymous.rule_id || is_some anonymous.description)
        && not (is_misaligned anonymous.rule_id anonymous.derivation)))
new_rule_application-is_ok_example = new_rule_application-is_ok anonymous no_nodes
