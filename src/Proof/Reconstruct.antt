-- ===== src/Proof/Reconstruct.antt =====
-- derivation.py: the class DerivationProofReconstructor.
use Prim.Native.Nat.{compare}
use rdflib_reasoning.Base.{
  ℕ, zero, suc, ◌^◌, String, string_eq, Bool, false, ◌&&◌, ◌||◌, not, ◌==◌, nat_eq, Option, none,
  some, List, [], ◌∷◌, map, filter, any, contains, length, if◌then◌else◌,
}
use rdflib_reasoning.Base.Sets.{add}
use rdflib_reasoning.Base.Int.{then_by, is_lt}
use rdflib_reasoning.Errors.{Result, ok, raise}
use rdflib_reasoning.Rdf.{Node, node_eq, Triple, triple_eq}
use rdflib_reasoning.Engine.{TripleFact, DerivationRecord, ContradictionRecord}
use rdflib_reasoning.Proof.{
  triple_fact_eq, triple_fact_dec, ProofPayload, triple_fact, contradiction_claim, context_of,
  RuleApplication, ProofNode, proof_leaf, rule_application, ProofNodes, no_nodes, more_nodes,
  Verdict, DirectProof, new_rule_application,
}

-- `min(items, key=...)` by a strict order of the items: the first of the least ones, if any.
unfoldable pub min_by {ℓ} : {A : Type ℓ} → (A → A → Bool) → List A → Option A
min_by lt [] = none
min_by lt (x ∷ xs) = elim (min_by lt xs) [
  | none ↦ some x
  | some y ↦ if lt y x then some y else some x
]

unfoldable pub concludes : TripleFact → DerivationRecord → Bool
unfolding triple_fact_dec
concludes goal r =
    r.context == goal.context
    && (any (λ conclusion. conclusion == goal) r.conclusions && not r.silent)

unfoldable pub matching_records : TripleFact → List DerivationRecord → List DerivationRecord
unfolding concludes
matching_records goal records = filter (concludes goal) records

-- `record.witness is not None and record.witness.triple == goal_witness`
unfoldable pub has_witness : Option TripleFact → Triple → Bool
has_witness none t = false
has_witness (some fact) t = fact.triple == t

unfoldable pub shows : Node → TripleFact → ContradictionRecord → Bool
unfolding has_witness
shows context witness r =
    r.context == context
    && (has_witness r.witness witness.triple
        || any (λ premise. premise.triple == witness.triple) r.premises)

unfoldable pub matching_contradictions :
    Node → TripleFact → List ContradictionRecord → List ContradictionRecord
unfolding shows
matching_contradictions context witness records = filter (shows context witness) records

unfoldable pub depth_or_last : Option ℕ → ℕ
depth_or_last none = 10 ^ 9
depth_or_last (some depth) = depth

-- The order of the keys `(depth, len(record.premises), len(record.conclusions))`
unfoldable pub is_prior : DerivationRecord → DerivationRecord → Bool
unfolding depth_or_last
is_prior a b = is_lt (
    then_by (compare (depth_or_last a.depth) (depth_or_last b.depth)) (
      then_by (compare (length a.premises) (length b.premises))
        (compare (length a.conclusions) (length b.conclusions))))

-- The step that a record is the derivation of.
unfoldable pub step_of : DerivationRecord → RuleApplication
step_of r = record {
  conclusions = map triple_fact r.conclusions;
  rule_id = some r.rule_id;
  description = none;
  derivation = some r;
  rationale = none;
  stated_theorem_name = none;
}

-- The comprehension over the premises, on a call that may run out of fuel or raise.
unfoldable pub build_premises :
    (TripleFact → Option (Result ProofNode)) → List TripleFact → Option (Result ProofNodes)
build_premises build [] = some (ok no_nodes)
build_premises build (premise ∷ premises) =
    let rest = build_premises build premises in
    elim (build premise) [
      | none ↦ none
      | some (raise exception) ↦ some (raise exception)
      | some (ok node) ↦ elim rest [
        | none ↦ none
        | some (raise exception) ↦ some (raise exception)
        | some (ok nodes) ↦ some (ok (more_nodes node nodes))
      ]
    ]

unfoldable pub apply_record :
    DerivationRecord → Option (Result ProofNodes) → Option (Result ProofNode)
unfolding new_rule_application step_of
apply_record chosen none = none
apply_record chosen (some (raise exception)) = some (raise exception)
apply_record chosen (some (ok premises)) = some (new_rule_application (step_of chosen) premises)

-- The keys in `seen` are the facts themselves: a context and a triple.
unfoldable pub build_node :
    List DerivationRecord → ℕ → TripleFact → List TripleFact → Option (Result ProofNode)
unfolding min_by matching_records is_prior build_premises apply_record add triple_fact_dec
build_node records zero goal seen = none
build_node records (suc fuel) goal seen =
    let next : TripleFact → Option (Result ProofNode) =
      λ premise. build_node records fuel premise (add goal seen) in
    if contains seen goal
    then some (ok (proof_leaf (triple_fact goal) []))
    else elim (min_by is_prior (matching_records goal records)) [
      | none ↦ some (ok (proof_leaf (triple_fact goal) []))
      | some chosen ↦ apply_record chosen (build_premises next chosen.premises)
    ]

-- `"proved" if isinstance(proof, RuleApplication) else "incomplete"`
unfoldable pub triple_verdict : ProofNode → Verdict
triple_verdict (proof_leaf claim grounding) = Verdict.incomplete
triple_verdict (rule_application step premises) = Verdict.proved

unfoldable pub triple_proof : TripleFact → Option (Result ProofNode) → Option (Result DirectProof)
unfolding triple_verdict
triple_proof goal none = none
triple_proof goal (some (raise exception)) = some (raise exception)
triple_proof goal (some (ok proof)) = some (
    ok record {
      context = goal.context;
      goal = triple_fact goal;
      proof = proof;
      verdict = some (triple_verdict proof);
      notes = none;
    })

unfoldable pub is_earlier : ContradictionRecord → ContradictionRecord → Bool
is_earlier a b = is_lt (compare a.sequence_id b.sequence_id)

unfoldable pub premise_leaves : List TripleFact → ProofNodes
premise_leaves [] = no_nodes
premise_leaves (premise ∷ premises) =
    more_nodes (proof_leaf (triple_fact premise) []) (premise_leaves premises)

-- The step that shows a contradiction.
unfoldable pub contradiction_step : ProofPayload → ContradictionRecord → RuleApplication
contradiction_step goal chosen = record {
  conclusions = goal ∷ [];
  rule_id = some chosen.rule_id;
  description = none;
  derivation = none;
  rationale = chosen.detail;
  stated_theorem_name = none;
}

abbrev pub no_match_note : String
no_match_note = "No contradiction diagnostics record matched the requested witness in this context."

unfoldable pub contradiction_proof :
    Node → TripleFact → List ContradictionRecord → Result DirectProof
unfolding matching_contradictions min_by is_earlier new_rule_application contradiction_step
    premise_leaves
contradiction_proof context witness records =
    let goal = contradiction_claim context witness in
    elim (min_by is_earlier (matching_contradictions context witness records)) [
      | none ↦ ok record {
        context = context;
        goal = goal;
        proof = proof_leaf goal [];
        verdict = some Verdict.incomplete;
        notes = some no_match_note;
      }
      | some chosen ↦
          elim (new_rule_application (contradiction_step goal chosen)
            (premise_leaves chosen.premises)) [
              | raise exception ↦ raise exception
              | ok proof ↦ ok record {
                context = context;
                goal = goal;
                proof = proof;
                verdict = some Verdict.contradiction;
                notes = none;
              }
            ]
    ]

-- `DerivationRecord | ContradictionRecord`
pub data TraceRecord : Type 0 where
  a_derivation : DerivationRecord → TraceRecord
  a_contradiction : ContradictionRecord → TraceRecord

-- The tuples of the records of one class.
unfoldable pub derivations_in : List TraceRecord → List DerivationRecord
derivations_in [] = []
derivations_in (a_derivation r ∷ records) = r ∷ derivations_in records
derivations_in (a_contradiction r ∷ records) = derivations_in records

unfoldable pub contradictions_in : List TraceRecord → List ContradictionRecord
contradictions_in [] = []
contradictions_in (a_derivation r ∷ records) = contradictions_in records
contradictions_in (a_contradiction r ∷ records) = r ∷ contradictions_in records

unfoldable pub reconstruct : ℕ → ProofPayload → List TraceRecord → Option (Result DirectProof)
unfolding build_node triple_proof contradiction_proof derivations_in contradictions_in context_of
reconstruct fuel (triple_fact goal) records =
    triple_proof goal (build_node (derivations_in records) fuel goal [])
reconstruct fuel (contradiction_claim context witness) records =
    some (contradiction_proof context witness (contradictions_in records))
reconstruct fuel goal records = some (
    ok record {
      context = context_of goal;
      goal = goal;
      proof = proof_leaf goal [];
      verdict = some Verdict.incomplete;
      notes = some "Only triple-goal explanation reconstruction is implemented.";
    })
