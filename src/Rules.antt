-- ===== src/Rules.antt =====
-- The public rules: rdflib-reasoning-engine/src/rdflib_reasoning/engine/rules.py. A pattern term
-- is a node, and a variable is one of its cases. The descriptions
-- are those of proof.py.
use rdflib_reasoning.Base.{String, Bool, Option, List}
use rdflib_reasoning.Base.Int.{ℤ}
use rdflib_reasoning.Rdf.{Node}
use rdflib_reasoning.Tms.Controller.{RuleId}

-- proof.py: what an authority is cited for.
pub data AuthorityKind : Type 0 where
  normative_spec non_normative_spec implementation_reference structural_interpretation :
      AuthorityKind

pub record AuthorityReference : Type 0 where
  pub kind : AuthorityKind
  pub uri : Node
  pub label : String

pub record RuleDescription : Type 0 where
  pub label : String
  pub description : Option String
  pub references : List AuthorityReference

pub record TriplePattern : Type 0 where
  pub subject : Node
  pub predicate : Node
  pub object : Node

-- TripleCondition and PredicateCondition
pub data RuleCondition : Type 0 where
  triple_condition : TriplePattern → RuleCondition
  predicate_condition : (predicate : String) (arguments : List Node) → RuleCondition

-- TripleConsequent, CallbackConsequent and ContradictionConsequent
pub data RuleConsequent : Type 0 where
  triple_consequent : TriplePattern → RuleConsequent
  callback_consequent : (callback : String) (arguments : List Node) → RuleConsequent
  contradiction_consequent :
      (category : String) (detail : Option String) (arguments : List Node) → RuleConsequent

pub record Rule : Type 0 where
  pub id : RuleId
  pub description : Option RuleDescription
  pub body : List RuleCondition
  pub head : List RuleConsequent
  pub salience : ℤ
  pub silent : Bool
