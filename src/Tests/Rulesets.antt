-- ===== src/Tests/Rulesets.antt =====
-- rulesets: a rule of a profile, and the theorems about the profiles at it.
use rdflib_reasoning.Base.{◌≡◌, refl, true, false, List, Memᴰ}
use rdflib_reasoning.Errors.{ok, is_ok}
use rdflib_reasoning.Rdf.{Node, Triple}
use rdflib_reasoning.Rules.{TriplePattern, RuleCondition, RuleConsequent, triple_consequent, Rule}
use rdflib_reasoning.Facts.{PartialMatch}
use rdflib_reasoning.Compiler.{compile_rule}
use rdflib_reasoning.Network.Alpha.{Instantiates}
use rdflib_reasoning.Network.Join.{IsSound}
use rdflib_reasoning.Engine.{resolve_callback_arguments, instantiate_triple}
use rdflib_reasoning.Rulesets.RdfAxioms.{rdf_axiom}
use rdflib_reasoning.Rulesets.RdfsAxioms.{production_rdfs_axioms}
use rdflib_reasoning.Rulesets.Rdfs.{production_rdfs_rules}
use rdflib_reasoning.Rulesets.Rdfs.Conformant.{conformant_rdfs_rules}
use rdflib_reasoning.Rulesets.Vocabulary.{rdf_type, rdf_property}
use rdflib_reasoning.Rulesets.Safe.{terms_of, body_patterns}
use rdflib_reasoning.Rulesets.Named.{named_rules, named_rules_fire}
use rdflib_reasoning.Rulesets.Profiles.{production_in_conformant}

-- The axiom that starts the production profile.
abbrev first : Rule
first =
    rdf_axiom "rdf-axiom-rdf-type" "rdf:type is an rdf:Property"
      "RDF axiom: rdf:type rdf:type rdf:Property." rdf_type rdf_type rdf_property

first_in_production : Memᴰ first production_rdfs_rules
unfolding production_rdfs_rules production_rdfs_axioms
first_in_production = Memᴰ.head refl

first_named : Memᴰ first named_rules
unfolding production_rdfs_rules production_rdfs_axioms
first_named = Memᴰ.head refl

named_rules_fire_example :
    (is_ok (compile_rule first) ≡ true)
    × ((m : PartialMatch)
        → IsSound (body_patterns first.body) m
        → ((c : RuleConsequent)
            → Memᴰ c first.head
            → (vs : List Node) × (resolve_callback_arguments (terms_of c) m.bindings ≡ ok vs))
          × ((p : TriplePattern)
              → Memᴰ (triple_consequent p) first.head
              → (t : Triple) × (instantiate_triple p m.bindings ≡ ok t)
                × Instantiates p m.bindings t))
named_rules_fire_example = named_rules_fire first first_named

production_in_conformant_example :
    (c : Rule) × Memᴰ c conformant_rdfs_rules
    × (c.silent ≡ false)
    × (c.head ≡ first.head)
    × ((condition : RuleCondition) → Memᴰ condition c.body → Memᴰ condition first.body)
    × ((m : PartialMatch) → IsSound (body_patterns first.body) m → IsSound (body_patterns c.body) m)
production_in_conformant_example = production_in_conformant first first_in_production
