-- ===== src/Network/Builder.antt =====
-- network.py: node keys and the assembly of the network from compiled rules.
use rdflib_reasoning.Base.{String, string_eq, ◌<>◌, Option, none, some, List, [], ◌∷◌, map}
use rdflib_reasoning.Base.Sets.{update, intersection}
use rdflib_reasoning.Base.Sorting.{sorted}
use rdflib_reasoning.Base.Text.{join}
use rdflib_reasoning.Rdf.{Node, variable, Rendering}
use rdflib_reasoning.Compiler.{
  Position, CompiledTripleCondition, CompiledPredicateCondition, CompiledRule,
}
use rdflib_reasoning.Network.{
  TerminalNode, NodeRegistry, get_or_create_alpha, get_or_create_predicate, get_or_create_beta,
  add_terminal,
}

unfoldable pub position_name : Position → String
position_name Position.at_subject = "subject"
position_name Position.at_predicate = "predicate"
position_name Position.at_object = "object"

unfoldable pub terminal_key : CompiledRule → String
terminal_key rule = "terminal:" <> rule.rule_id.rule_set <> ":" <> rule.rule_id.rule_id

unfoldable pub beta_key : String → String → List String → String
unfolding join
beta_key left_key right_key shared_variables =
    "beta:" <> left_key <> "+" <> right_key <> "|shared=" <> join "," shared_variables

module _ (rendering : Rendering) where
  unfoldable pub alpha_key : CompiledTripleCondition → String
  unfolding position_name join
  alpha_key condition =
      "alpha:"
      <> join ","
          (map (λ c. position_name c.position <> "=" <> rendering.n3 c.value) condition.constraints)
      <> "|vars="
      <> join "," condition.bound_variables

  unfoldable pub argument_part : Node → String
  argument_part (variable name) = "?" <> name
  argument_part argument = rendering.n3 argument

  unfoldable pub predicate_key : CompiledPredicateCondition → String
  unfolding argument_part join
  predicate_key condition =
      "predicate:" <> condition.predicate <> ":" <> join "," (map argument_part condition.arguments)

  -- One round of the loop over the triple conditions, from the key and the variables so far.
  unfoldable pub join_condition :
      CompiledTripleCondition
      → NodeRegistry × (Option String × List String)
      → NodeRegistry × (Option String × List String)
  unfolding alpha_key get_or_create_alpha get_or_create_beta beta_key update intersection sorted
  join_condition condition (r, (current_key, current_variables)) =
      let (r_alpha, alpha) =
        get_or_create_alpha
          record {
            key = alpha_key condition;
            condition = condition;
            constraints = condition.constraints;
          }
          r in
      let condition_variables = update [] condition.bound_variables in
      elim current_key [
        | none ↦ (r_alpha, (some alpha.key, condition_variables))
        | some current ↦
            let shared = sorted (intersection current_variables condition_variables) in
            let (r_beta, beta) =
              get_or_create_beta
                record {
                  key = beta_key current alpha.key shared;
                  left_key = current;
                  right_key = alpha.key;
                  shared_variables = shared;
                }
                r_alpha in
            (r_beta, (some beta.key, update current_variables condition_variables))
      ]

  unfoldable pub join_conditions :
      List CompiledTripleCondition
      → NodeRegistry × (Option String × List String)
      → NodeRegistry × (Option String × List String)
  unfolding join_condition
  join_conditions [] state = state
  join_conditions (condition ∷ conditions) state =
      join_conditions conditions (join_condition condition state)

  unfoldable pub build_join_chain :
      CompiledRule → NodeRegistry → NodeRegistry × (Option String × List String)
  unfolding join_conditions
  build_join_chain rule r = join_conditions rule.triple_conditions (r, (none, []))

  -- The predicate nodes of a rule, and their keys in order.
  unfoldable pub build_predicates :
      List CompiledPredicateCondition → NodeRegistry → NodeRegistry × List String
  unfolding predicate_key get_or_create_predicate
  build_predicates [] r = (r, [])
  build_predicates (condition ∷ conditions) r =
      let (r_node, node) =
        get_or_create_predicate
          record {
            key = predicate_key condition;
            condition = condition;
            required_variables = condition.required_variables;
          }
          r in
      let (r_rest, keys) = build_predicates conditions r_node in (r_rest, node.key ∷ keys)

  unfoldable pub build_rule : CompiledRule → NodeRegistry → NodeRegistry × TerminalNode
  unfolding build_join_chain build_predicates terminal_key add_terminal
  build_rule rule r =
      let (r_chain, (join_root, variables)) = build_join_chain rule r in
      let (r_nodes, predicate_keys) = build_predicates rule.predicate_conditions r_chain in
      add_terminal
        record {
          key = terminal_key rule;
          rule = rule;
          input_keys = elim join_root [ none ↦ predicate_keys | some root ↦ root ∷ predicate_keys ];
        }
        r_nodes

  unfoldable pub build_rules : List CompiledRule → NodeRegistry → NodeRegistry × List TerminalNode
  unfolding build_rule
  build_rules [] r = (r, [])
  build_rules (rule ∷ rules) r =
      let (r_rule, terminal) = build_rule rule r in
      let (r_rest, terminals) = build_rules rules r_rule in (r_rest, terminal ∷ terminals)
