-- ===== src/Proof.antt =====
-- Proofs and their steps: rdflib-reasoning-engine/src/rdflib_reasoning/engine/proof.py. The records
-- of the engine's trace are in Engine, and a rule's description is in Rules.
pub mod Reconstruct
pub mod Steps
pub mod Valid
pub mod Verdicts
use rdflib_reasoning.Base.{
  ◌≡◌, String, string_dec, string_eq, Bool, true, false, ◌&&◌, ◌||◌, not, ◌==◌, Eq, Option, none,
  some, List, [], ◌∷◌, if◌then◌else◌,
}
use rdflib_reasoning.Base.Int.{ℤ}
use rdflib_reasoning.Base.Dict.{is_some}
use rdflib_reasoning.Errors.{Result, ok, raise, value_error}
use rdflib_reasoning.Rdf.{Node, node_dec, triple_dec}
use rdflib_reasoning.Rules.{Rule, RuleDescription}
use rdflib_reasoning.Tms.Controller.{RuleId}
use rdflib_reasoning.Engine.{TripleFact, DerivationRecord}

unfoldable pub triple_fact_dec : Discrete TripleFact
triple_fact_dec = hlevel (node_dec, triple_dec)

instance abbrev pub triple_fact_eq : Eq TripleFact
triple_fact_eq = record { dec = triple_fact_dec }

unfoldable pub rule_id_dec : Discrete RuleId
rule_id_dec = hlevel string_dec

instance abbrev pub rule_id_eq : Eq RuleId
rule_id_eq = record { dec = rule_id_dec }

-- TripleFact, StructuralClaim, ContradictionClaim and TextClaim. Nothing here reads the element of
-- a structural claim, which is left out.
pub data ProofPayload : Type 0 where
  triple_fact : TripleFact → ProofPayload
  structural_claim : (context : Node) → ProofPayload
  contradiction_claim : (context : Node) (witness : TripleFact) → ProofPayload
  text_claim : (context : Node) (text : String) → ProofPayload

-- `goal.context`, from the base class GraphBacked
unfoldable pub context_of : ProofPayload → Node
context_of (triple_fact fact) = fact.context
context_of (structural_claim context) = context
context_of (contradiction_claim context witness) = context
context_of (text_claim context text) = context

pub record SourceSpan : Type 0 where
  pub document_id : Option String
  pub quote : Option String
  pub start_char : Option ℤ
  pub end_char : Option ℤ

-- A RuleApplication without its premises, which are proofs again.
pub record RuleApplication : Type 0 where
  pub conclusions : List ProofPayload
  pub rule_id : Option RuleId
  pub description : Option RuleDescription
  pub derivation : Option DerivationRecord
  pub rationale : Option String
  pub stated_theorem_name : Option String

mutual
  pub data ProofNode : Type 0 where
    proof_leaf : (claim : ProofPayload) (grounding : List SourceSpan) → ProofNode
    rule_application : RuleApplication → ProofNodes → ProofNode

  -- `list[ProofNode]`
  pub data ProofNodes : Type 0 where
    no_nodes : ProofNodes
    more_nodes : ProofNode → ProofNodes → ProofNodes

pub data Verdict : Type 0 where
  proved disproved contradiction incomplete : Verdict

pub record DirectProof : Type 0 where
  pub context : Node
  pub goal : ProofPayload
  pub proof : ProofNode
  pub verdict : Option Verdict
  pub notes : Option String

-- `self.derivation is not None and self.rule_id is not None and self.rule_id != ...`
unfoldable pub is_misaligned : Option RuleId → Option DerivationRecord → Bool
unfolding rule_id_dec
is_misaligned (some rule_id) (some derivation) = not (rule_id == derivation.rule_id)
is_misaligned _ _ = false

-- The validator that runs after the fields of a step are set.
unfoldable pub check_derivation_alignment : RuleApplication → Result RuleApplication
unfolding is_misaligned
check_derivation_alignment step =
    if not (is_some step.rule_id) && not (is_some step.description)
    then raise value_error
    else if is_misaligned step.rule_id step.derivation
    then raise value_error
    else ok step

-- The constructor call: conclusions have to be there, and then the validator runs.
unfoldable pub new_rule_application : RuleApplication → ProofNodes → Result ProofNode
unfolding check_derivation_alignment
new_rule_application step premises = elim step.conclusions [
  | [] ↦ raise value_error
  | _ ∷ _ ↦ elim (check_derivation_alignment step) [
    | raise exception ↦ raise exception
    | ok checked ↦ ok (rule_application checked premises)
  ]
]

unfoldable pub from_rule :
    Rule
    → List ProofPayload
    → Option ProofNodes
    → Option DerivationRecord
    → Option String
    → Option String
    → Result ProofNode
unfolding new_rule_application
from_rule rule conclusions premises derivation rationale stated_theorem_name =
    new_rule_application
      record {
        conclusions = conclusions;
        rule_id = some rule.id;
        description = rule.description;
        derivation = derivation;
        rationale = rationale;
        stated_theorem_name = stated_theorem_name;
      }
      (elim premises [ none ↦ no_nodes | some nodes ↦ nodes ])

unfoldable pub from_description :
    RuleDescription
    → List ProofPayload
    → Option ProofNodes
    → Option DerivationRecord
    → Option String
    → Option String
    → Result ProofNode
unfolding new_rule_application
from_description description conclusions premises derivation rationale stated_theorem_name =
    new_rule_application
      record {
        conclusions = conclusions;
        rule_id = none;
        description = some description;
        derivation = derivation;
        rationale = rationale;
        stated_theorem_name = stated_theorem_name;
      }
      (elim premises [ none ↦ no_nodes | some nodes ↦ nodes ])
