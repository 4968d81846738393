-- ===== src/Compiler.antt =====
-- The rule compiler: rdflib-reasoning-engine/src/rdflib_reasoning/engine/rete/compiler.py.
-- `variables` of a compiled rule and the loops over `rule.body` keep the source's order. A set of
-- names is a list without repetitions.
pub mod Bindings
pub mod Joins
use Prim.Native.Nat.{compare, Ordering}
use rdflib_reasoning.Base.{
  ℕ, zero, suc, ◌+◌, String, string_eq, Eq, ◌==◌, Bool, true, false, not, ◌&&◌, Option, none, some,
  List, [], ◌∷◌, ◌++◌, if◌then◌else◌, length, map, filter, contains, arith,
}
use rdflib_reasoning.Base.Int.{ℤ, pos, neg, compare_int, then_by, is_le}
use rdflib_reasoning.Base.Sets.{update}
use rdflib_reasoning.Base.Sorting.{sort_by, sorted}
use rdflib_reasoning.Errors.{Result, ok, raise, value_error, ◌>>=◌}
use rdflib_reasoning.Rdf.{Node, uri_ref, variable, node_eq}
use rdflib_reasoning.Rules.{
  TriplePattern, RuleCondition, triple_condition, predicate_condition, RuleConsequent,
  triple_consequent, callback_consequent, contradiction_consequent, Rule,
}
use rdflib_reasoning.Consequents.{TripleProduction, CallbackSchedule, ContradictionSchedule}
use rdflib_reasoning.Tms.Controller.{RuleId}

pub data Position : Type 0 where
  at_subject at_predicate at_object : Position

unfoldable pub position_dec : Discrete Position
position_dec = hlevel arith

instance abbrev pub position_eq : Eq Position
position_eq = record { dec = position_dec }

pub record AlphaConstraint : Type 0 where
  pub position : Position
  pub value : Node

pub record CompiledTripleCondition : Type 0 where
  pub source_index : ℕ
  pub pattern : TriplePattern
  pub constraints : List AlphaConstraint
  pub bound_variables : List String

pub record CompiledPredicateCondition : Type 0 where
  pub source_index : ℕ
  pub predicate : String
  pub arguments : List Node
  pub required_variables : List String

pub record CompiledRule : Type 0 where
  pub rule_id : RuleId
  pub salience : ℤ
  pub silent : Bool
  pub bootstrap : Bool
  pub triple_conditions : List CompiledTripleCondition
  pub predicate_conditions : List CompiledPredicateCondition
  pub productions : List TripleProduction
  pub callbacks : List CallbackSchedule
  pub contradictions : List ContradictionSchedule
  pub variables : List String

abbrev pub rdf_type : Node
rdf_type = uri_ref "http://www.w3.org/1999/02/22-rdf-syntax-ns#type"

-- `next(constraint for constraint in constraints if constraint.position == "predicate")`
unfoldable pub predicate_constraint : List AlphaConstraint → Option AlphaConstraint
predicate_constraint [] = none
predicate_constraint (c ∷ cs) =
    if c.position == Position.at_predicate then some c else predicate_constraint cs

pub record Score : Type 0 where
  pub constant_count : ℕ
  pub has_constant_predicate : ℕ
  pub non_type_predicate_bonus : ℕ
  pub variable_bonus : ℤ

unfoldable pub score : CompiledTripleCondition → Score
unfolding predicate_constraint
score condition = record {
  constant_count = length (update [] (map (λ c. c.position) condition.constraints));
  has_constant_predicate = elim (predicate_constraint condition.constraints) [
    | none ↦ 0
    | some c ↦ 1
  ];
  non_type_predicate_bonus = elim (predicate_constraint condition.constraints) [
    | none ↦ 0
    | some c ↦ if c.value == rdf_type then 0 else 1
  ];
  variable_bonus = neg (pos (length condition.bound_variables));
}

-- Scores are tuples, so the first place in which they differ decides.
unfoldable pub compare_score : Score → Score → Ordering
compare_score a b = then_by (compare a.constant_count b.constant_count) (
    then_by (compare a.has_constant_predicate b.has_constant_predicate) (
      then_by (compare a.non_type_predicate_bonus b.non_type_predicate_bonus)
        (compare_int a.variable_bonus b.variable_bonus)))

-- `reverse=True`: the better score goes first, and equal scores keep their order.
unfoldable pub is_better : CompiledTripleCondition → CompiledTripleCondition → Bool
is_better a b = is_le (compare_score (score b) (score a))

unfoldable pub order_triple_conditions : List CompiledTripleCondition → List CompiledTripleCondition
unfolding sort_by is_better
order_triple_conditions conditions = sort_by is_better conditions

unfoldable pub required_variables : List Node → List String
required_variables [] = []
required_variables (variable name ∷ terms) = name ∷ required_variables terms
required_variables (_ ∷ terms) = required_variables terms

-- One round of the loop over the three positions, for what it appends to each list.
unfoldable pub position_constraints : Position → Node → List AlphaConstraint
position_constraints position (variable name) = []
position_constraints position value = record { position = position; value = value } ∷ []

unfoldable pub compile_triple_condition : TriplePattern → ℕ → CompiledTripleCondition
unfolding required_variables position_constraints
compile_triple_condition pattern source_index = record {
  source_index = source_index;
  pattern = pattern;
  constraints =
      position_constraints Position.at_subject pattern.subject
      ++ position_constraints Position.at_predicate pattern.predicate
      ++ position_constraints Position.at_object pattern.object;
  bound_variables = required_variables (pattern.subject ∷ pattern.predicate ∷ pattern.object ∷ []);
}

-- `if missing: raise ValueError(...)`
unfoldable pub unless_missing :
    List String → CompiledPredicateCondition → Result CompiledPredicateCondition
unless_missing [] condition = ok condition
unless_missing (_ ∷ _) condition = raise value_error

unfoldable pub compile_predicate_condition :
    String → List Node → ℕ → List String → Result CompiledPredicateCondition
unfolding required_variables unless_missing
compile_predicate_condition predicate arguments source_index available_bindings =
    unless_missing
      (filter (λ name. not (contains available_bindings name)) (required_variables arguments))
      record {
        source_index = source_index;
        predicate = predicate;
        arguments = arguments;
        required_variables = required_variables arguments;
      }

-- `for idx, condition in enumerate(rule.body) if isinstance(condition, TripleCondition)`
unfoldable pub compile_triple_conditions : List RuleCondition → ℕ → List CompiledTripleCondition
compile_triple_conditions [] idx = []
compile_triple_conditions (triple_condition pattern ∷ body) idx =
    compile_triple_condition pattern idx ∷ compile_triple_conditions body (suc idx)
compile_triple_conditions (predicate_condition predicate arguments ∷ body) idx =
    compile_triple_conditions body (suc idx)

unfoldable pub compile_predicate_conditions :
    List RuleCondition → ℕ → List String → Result (List CompiledPredicateCondition)
compile_predicate_conditions [] idx available = ok []
compile_predicate_conditions (triple_condition pattern ∷ body) idx available =
    compile_predicate_conditions body (suc idx) available
compile_predicate_conditions (predicate_condition predicate arguments ∷ body) idx available =
    let rest = compile_predicate_conditions body (suc idx) available in
    compile_predicate_condition predicate arguments idx available >>= λ first.
    rest >>= λ others. ok (first ∷ others)

unfoldable pub productions_of : RuleId → List RuleConsequent → List TripleProduction
productions_of id [] = []
productions_of id (triple_consequent pattern ∷ head) =
    record {
      rule_id = id;
      pattern = pattern;
      required_variables =
          required_variables (pattern.subject ∷ pattern.predicate ∷ pattern.object ∷ []);
    }
    ∷ productions_of id head
productions_of id (_ ∷ head) = productions_of id head

unfoldable pub callbacks_of : List RuleConsequent → List CallbackSchedule
callbacks_of [] = []
callbacks_of (callback_consequent callback arguments ∷ head) =
    record {
      callback = callback;
      arguments = arguments;
      required_variables = required_variables arguments;
    }
    ∷ callbacks_of head
callbacks_of (_ ∷ head) = callbacks_of head

unfoldable pub contradictions_of : List RuleConsequent → List ContradictionSchedule
contradictions_of [] = []
contradictions_of (contradiction_consequent category detail arguments ∷ head) =
    record {
      category = category;
      detail = detail;
      arguments = arguments;
      required_variables = required_variables arguments;
    }
    ∷ contradictions_of head
contradictions_of (_ ∷ head) = contradictions_of head

-- `{variable for condition in conditions for variable in condition.bound_variables}`
unfoldable pub available_bindings : List String → List CompiledTripleCondition → List String
unfolding update
available_bindings names [] = names
available_bindings names (c ∷ conditions) =
    available_bindings (update names c.bound_variables) conditions

abbrev pub is_empty {ℓ} : {A : Type ℓ} → List A → Bool
is_empty [] = true
is_empty (x ∷ xs) = false

unfoldable pub compile_rule : Rule → Result CompiledRule
unfolding order_triple_conditions compile_triple_conditions available_bindings
    compile_predicate_conditions productions_of callbacks_of contradictions_of sorted
compile_rule rule =
    let ordered = order_triple_conditions (compile_triple_conditions rule.body 0) in
    let available = available_bindings [] ordered in
    compile_predicate_conditions rule.body 0 available >>= λ predicate_conditions. ok record {
      rule_id = rule.id;
      salience = rule.salience;
      silent = rule.silent;
      bootstrap = is_empty rule.body;
      triple_conditions = ordered;
      predicate_conditions = predicate_conditions;
      productions = productions_of rule.id rule.head;
      callbacks = callbacks_of rule.head;
      contradictions = contradictions_of rule.head;
      variables = sorted available;
    }
