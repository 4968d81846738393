-- ===== src/Rulesets/Named.antt =====
-- rulesets: what holds of every rule of the named profiles.
use rdflib_reasoning.Base.{string_eq, string_dec, ◌≡◌, refl, true, List, ◌++◌, Memᴰ, all, all-mem}
use rdflib_reasoning.Errors.{ok, is_ok}
use rdflib_reasoning.Rdf.{Node, Triple}
use rdflib_reasoning.Rules.{TriplePattern, RuleConsequent, triple_consequent, Rule}
use rdflib_reasoning.Facts.{PartialMatch}
use rdflib_reasoning.Compiler.{compile_rule, required_variables}
use rdflib_reasoning.Compiler.Bindings.{pattern_variables, is_covered}
use rdflib_reasoning.Network.Alpha.{Instantiates}
use rdflib_reasoning.Network.Join.{IsSound}
use rdflib_reasoning.Engine.{resolve_callback_arguments, instantiate_triple}
use rdflib_reasoning.Rulesets.RdfsAxioms.{production_rdfs_axioms, conformant_rdfs_axioms}
use rdflib_reasoning.Rulesets.Rdfs.{production_rdfs_rules}
use rdflib_reasoning.Rulesets.Rdfs.Conformant.{build_conformant_rdfs_rules, conformant_rdfs_rules}
use rdflib_reasoning.Rulesets.OwlRl.{owl2_rl_contradiction_rules}
use rdflib_reasoning.Rulesets.Safe.{terms_of, head_covered, is_safe, body_patterns, safe_rule_fires}

-- The rules of all three profiles.
abbrev pub named_rules : List Rule
named_rules = production_rdfs_rules ++ conformant_rdfs_rules ++ owl2_rl_contradiction_rules

all_safe : all is_safe named_rules ≡ true
unfolding is_safe head_covered terms_of is_covered pattern_variables required_variables string_dec
    production_rdfs_rules conformant_rdfs_rules owl2_rl_contradiction_rules production_rdfs_axioms
    conformant_rdfs_axioms build_conformant_rdfs_rules
all_safe = refl

-- Every rule of the profiles PRODUCTION_RDFS_RULES, CONFORMANT_RDFS_RULES and
-- OWL2_RL_CONTRADICTION_RULES compiles, and under each match that stands for its patterns its head
-- raises nothing: every argument resolves, and every triple of its head is instantiated.
pub named_rules_fire :
    (rule : Rule)
    → Memᴰ rule named_rules
    → (is_ok (compile_rule rule) ≡ true)
      × ((m : PartialMatch)
          → IsSound (body_patterns rule.body) m
          → ((c : RuleConsequent)
              → Memᴰ c rule.head
              → (vs : List Node) × (resolve_callback_arguments (terms_of c) m.bindings ≡ ok vs))
            × ((p : TriplePattern)
                → Memᴰ (triple_consequent p) rule.head
                → (t : Triple) × (instantiate_triple p m.bindings ≡ ok t)
                  × Instantiates p m.bindings t))
named_rules_fire rule there = safe_rule_fires rule (all-mem is_safe named_rules all_safe there)
