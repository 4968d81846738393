-- ===== src/Tests/Rules.antt =====
-- compiler.py and agenda.py on a rule and on three actions.
use mathlib.Core.List.{Perm}
use rdflib_reasoning.Base.{ℕ, ◌≡◌, false, List, [], ◌∷◌, all}
use rdflib_reasoning.Base.Int.{ℤ, pos}
use rdflib_reasoning.Base.Sorting.{sort_by}
use rdflib_reasoning.Errors.{Result, ok, raise, is_ok}
use rdflib_reasoning.Rdf.{uri_ref, variable}
use rdflib_reasoning.Rules.{Rule, triple_condition, predicate_condition, triple_consequent}
use rdflib_reasoning.Consequents.{ActionInstance}
use rdflib_reasoning.Compiler.{compile_triple_condition, compile_triple_conditions, compile_rule}
use rdflib_reasoning.Compiler.Bindings.{pattern_variables, is_covered, compile_rule-is_ok}
use rdflib_reasoning.Compiler.Joins.{IsOrdered, compile_rule-IsOrdered}
use rdflib_reasoning.Agenda.{new_agenda, drain}
use rdflib_reasoning.Agenda.Order.{priority_le, drain-new_agenda}
use rdflib_reasoning.Base.{String, string_eq, none, some, contains, refl}
use rdflib_reasoning.Base.Dict.{lookup, keys}
use rdflib_reasoning.Errors.{Ensures}
use rdflib_reasoning.Rdf.{literal}
use rdflib_reasoning.Compiler.{CompiledRule, CompiledPredicateCondition}
use rdflib_reasoning.Network.{NodeRegistry, PredicateNode, empty_registry}
use rdflib_reasoning.Network.Builder.{build_rule, predicate_key}
use rdflib_reasoning.Network.Matcher.{a_triple, match_terminal}
use rdflib_reasoning.Network.Firing.{build_rule-never_fires}
use rdflib_reasoning.Tests.Tms.{typed}
use rdflib_reasoning.Tests.Network.{of_class, plain}

-- The predicate condition stands before the pattern that binds its variable.
abbrev early_test : Rule
early_test = record {
  id = record { rule_set = "test"; rule_id = "early" };
  description = none;
  body =
      predicate_condition "same_term" (variable "x" ∷ uri_ref "x" ∷ [])
      ∷ triple_condition (of_class (uri_ref "a"))
      ∷ [];
  head = triple_consequent (of_class (uri_ref "b")) ∷ [];
  salience = pos 0;
  silent = false;
}

compile_rule-is_ok_example :
    is_ok (compile_rule early_test)
    ≡ all (is_covered (pattern_variables early_test.body)) early_test.body
compile_rule-is_ok_example = compile_rule-is_ok early_test

-- The second condition has more constants than the first.
abbrev two_conditions : Rule
two_conditions = record early_test {
  body =
      triple_condition (of_class (variable "c")) ∷ triple_condition (of_class (uri_ref "a")) ∷ [];
}

abbrev compiled_or : Result CompiledRule → CompiledRule → CompiledRule
compiled_or (ok compiled) other = compiled
compiled_or (raise e) other = other

abbrev no_rule : CompiledRule
no_rule = record {
  rule_id = two_conditions.id;
  salience = pos 0;
  silent = false;
  bootstrap = false;
  triple_conditions = [];
  predicate_conditions = [];
  productions = [];
  callbacks = [];
  contradictions = [];
  variables = [];
}

abbrev compiled_two : CompiledRule
compiled_two = compiled_or (compile_rule two_conditions) no_rule

compiles_two : compile_rule two_conditions ≡ ok compiled_two
unfolding compile_rule
compiles_two = refl

swapped :
    compiled_two.triple_conditions
    ≡ compile_triple_condition (of_class (uri_ref "a")) 1
      ∷ compile_triple_condition (of_class (variable "c")) 0
      ∷ []
unfolding compile_rule rdflib_reasoning.Compiler.compare_score rdflib_reasoning.Compiler.score
    compile_triple_condition rdflib_reasoning.Base.Sets.add rdflib_reasoning.Compiler.position_dec
swapped = refl

compile_rule-IsOrdered_example :
    Perm compiled_two.triple_conditions (compile_triple_conditions two_conditions.body 0)
    × IsOrdered compiled_two.triple_conditions
compile_rule-IsOrdered_example = compile_rule-IsOrdered two_conditions compiled_two compiles_two

abbrev action : ℕ → ℤ → ActionInstance
action depth salience = record {
  rule_id = record { rule_set = "test"; rule_id = "r" };
  bindings = [];
  premises = [];
  depth = depth;
  salience = salience;
  productions = [];
  callbacks = [];
  contradictions = [];
  silent = false;
  bootstrap = false;
}

abbrev actions : List ActionInstance
actions = action 1 (pos 0) ∷ action 0 (pos 0) ∷ action 3 (pos 7) ∷ []

drain-new_agenda_example : drain (new_agenda actions) ≡ sort_by priority_le actions
drain-new_agenda_example = drain-new_agenda actions

abbrev only_test : CompiledPredicateCondition
only_test = record {
  source_index = 0;
  predicate = "is_literal";
  arguments = literal "1" none none ∷ [];
  required_variables = [];
}

-- A rule whose body is one predicate condition without variables.
abbrev constant_test : CompiledRule
constant_test = record {
  rule_id = record { rule_set = "test"; rule_id = "constant" };
  salience = pos 0;
  silent = false;
  bootstrap = false;
  triple_conditions = [];
  predicate_conditions = only_test ∷ [];
  productions = [];
  callbacks = [];
  contradictions = [];
  variables = [];
}

-- The network of the rule with two triple conditions.
abbrev two_joined : NodeRegistry
two_joined = (build_rule plain compiled_two empty_registry).0

unfoldable pub rules_program : Unit {0}
unfolding build_rule keys lookup compile_rule rdflib_reasoning.Compiler.compare_score
    rdflib_reasoning.Compiler.score compile_triple_condition rdflib_reasoning.Base.Sets.add
    rdflib_reasoning.Compiler.position_dec rdflib_reasoning.Base.string_dec
rules_program = tt

nothing_built : lookup (predicate_key plain only_test) two_joined.predicate_nodes ≡ none
unfolding rules_program
nothing_built = refl

no_tests_yet :
    (node : PredicateNode)
    → lookup (predicate_key plain only_test) two_joined.predicate_nodes ≡ some node
    → node.key ≡ predicate_key plain only_test
no_tests_yet node there = cc (there, nothing_built)

no_alpha : contains (keys two_joined.alpha_nodes) (predicate_key plain only_test) ≡ false
unfolding rules_program
no_alpha = refl

no_beta : contains (keys two_joined.beta_nodes) (predicate_key plain only_test) ≡ false
unfolding rules_program
no_beta = refl

build_rule-never_fires_example :
    Ensures
      (λ x. x.1 ≡ [])
      (match_terminal plain []
        (build_rule plain constant_test two_joined).1
        (a_triple (typed "x" "a") ∷ [])
        (build_rule plain constant_test two_joined).0)
build_rule-never_fires_example =
    build_rule-never_fires plain [] constant_test only_test [] two_joined
      (a_triple (typed "x" "a") ∷ []) refl refl no_tests_yet no_alpha no_beta
