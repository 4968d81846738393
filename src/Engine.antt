-- ===== src/Engine.antt =====
-- The engine's configuration, state and term checks:
-- rdflib-reasoning-engine/src/rdflib_reasoning/engine/rete_engine.py, with the records of proof.py
-- and the sinks of derivation.py that it writes to. `context` is always there, as its type says.
pub mod Round
pub mod Saturation
pub mod Terms
pub mod Known
pub mod Actions
pub mod Invariant
pub mod Universe
pub mod Finite
pub mod Fixpoint
pub mod Terminates
pub mod Growth
pub mod Lifetime
pub mod Life
pub mod Calls
pub mod Retraction
pub mod Reachable
use rdflib_reasoning.Base.{
  ℕ, String, string_eq, Bool, true, false, Option, none, some, List, [], ◌∷◌, ◌++◌, not,
  if◌then◌else◌,
}
use rdflib_reasoning.Base.Dict.{Dict, lookup}
use rdflib_reasoning.Errors.{
  Exception, Result, ok, raise, ◌>>=◌, fatal_rule_error, literal_as_subject_error,
  blank_node_predicate_error, literal_predicate_error, contradiction_detected_error,
}
use rdflib_reasoning.Rdf.{Node, variable, Triple, is_literal, is_uri_ref, is_b_node}
use rdflib_reasoning.Rules.{TriplePattern}
use rdflib_reasoning.Tms.Controller.{RuleId, TmsController}
use rdflib_reasoning.Network.{NodeRegistry, TerminalNode}
use rdflib_reasoning.Network.Matcher.{PredicateHook}

pub record TripleFact : Type 0 where
  pub context : Node
  pub triple : Triple

pub record VariableBinding : Type 0 where
  pub name : String
  pub value : Node

pub record ContradictionRecord : Type 0 where
  pub context : Node
  pub rule_id : RuleId
  pub premises : List TripleFact
  pub bindings : List VariableBinding
  pub sequence_id : ℕ
  pub witness : Option TripleFact
  pub category : String
  pub detail : Option String

pub record DerivationRecord : Type 0 where
  pub context : Node
  pub conclusions : List TripleFact
  pub premises : List TripleFact
  pub rule_id : RuleId
  pub bindings : List VariableBinding
  pub depth : Option ℕ
  pub silent : Bool
  pub bootstrap : Bool

-- InMemoryContradictionRecorder, RaiseOnContradictionRecorder and DropContradictionRecorder
pub data RecorderKind : Type 0 where
  in_memory_recorder raise_on_contradiction drop_contradictions : RecorderKind

-- InMemoryDerivationLogger and DropDerivationLogger
pub data LoggerKind : Type 0 where
  in_memory_logger drop_derivations : LoggerKind

unfoldable pub record_contradiction :
    RecorderKind
    → ContradictionRecord
    → List ContradictionRecord
    → Result (List ContradictionRecord)
record_contradiction RecorderKind.in_memory_recorder r records = ok (records ++ r ∷ [])
record_contradiction RecorderKind.raise_on_contradiction r records =
    raise contradiction_detected_error
record_contradiction RecorderKind.drop_contradictions r records = ok records

unfoldable pub log_derivation :
    LoggerKind → DerivationRecord → List DerivationRecord → List DerivationRecord
log_derivation LoggerKind.in_memory_logger r records = records ++ r ∷ []
log_derivation LoggerKind.drop_derivations r records = records

-- "error" and "warning"
pub data Policy : Type 0 where
  on_error on_warning : Policy

-- `hook.run(context, *arguments)`. The predicates of the configuration are those of the builtins and
-- the defaults, as `__init__` merges them.
abbrev pub CallbackHook : Type 0
CallbackHook = List Node → Result (Unit {0})

pub record ReteEngineConfig : Type 0 where
  pub context : Node
  pub predicates : Dict String PredicateHook
  pub callbacks : Dict String CallbackHook
  pub derivation_logger : LoggerKind
  pub contradiction_recorder : RecorderKind
  pub literal_subject_policy : Policy
  pub predicate_term_policy : Policy

pub record ReteEngine : Type 0 where
  pub terminals : List TerminalNode
  pub registry : NodeRegistry
  pub known_triples : List Triple
  pub materialized_triples : List Triple
  pub tms : TmsController
  pub derivation_records : List DerivationRecord
  pub contradiction_records : List ContradictionRecord
  pub bootstrap_completed : Bool
  pub contradiction_sequence : ℕ

-- One term of a pattern, or one argument, under the bindings of an action.
unfoldable pub resolve_term : Node → Dict String Node → Result Node
unfolding lookup
resolve_term (variable name) bindings = elim (lookup name bindings) [
  | none ↦ raise fatal_rule_error
  | some value ↦ ok value
]
resolve_term term bindings = ok term

unfoldable pub resolve_callback_arguments : List Node → Dict String Node → Result (List Node)
unfolding resolve_term
resolve_callback_arguments [] bindings = ok []
resolve_callback_arguments (argument ∷ arguments) bindings =
    let rest = resolve_callback_arguments arguments bindings in
    resolve_term argument bindings >>= λ first. rest >>= λ others. ok (first ∷ others)

unfoldable pub instantiate_triple : TriplePattern → Dict String Node → Result Triple
unfolding resolve_term
instantiate_triple pattern bindings = resolve_term pattern.subject bindings >>= λ subject.
    resolve_term pattern.predicate bindings >>= λ predicate.
    resolve_term pattern.object bindings >>= λ object.
    ok record { subject = subject; predicate = predicate; object = object }

-- `raise` in error mode, and a warning and False otherwise.
unfoldable pub reject : Policy → Exception → Result Bool
reject Policy.on_error exception = raise exception
reject Policy.on_warning exception = ok false

unfoldable pub triple_is_permitted : Policy → Policy → Triple → Result Bool
unfolding is_literal is_uri_ref is_b_node reject
triple_is_permitted literal_subject_policy predicate_term_policy triple =
    if is_literal triple.subject
    then reject literal_subject_policy literal_as_subject_error
    else if not (is_uri_ref triple.predicate)
    then (if is_b_node triple.predicate
        then reject predicate_term_policy blank_node_predicate_error
        else reject predicate_term_policy literal_predicate_error)
    else ok true
