-- ===== src/Rulesets/Rdfs.antt =====
-- rulesets/rdfs.py: the inference rules of the production profile.
pub mod Conformant
use rdflib_reasoning.Base.{
  ◌<>◌, String, string_eq, ◌==◌, true, false, not, Option, none, some, List, [], ◌∷◌, ◌++◌, map,
  filter, contains, ◌||◌, Bool,
}
use rdflib_reasoning.Base.Int.{pos}
use rdflib_reasoning.Rdf.{Node, uri_ref, variable}
use rdflib_reasoning.Rules.{
  AuthorityKind, RuleDescription, RuleCondition, RuleConsequent, triple_condition,
  predicate_condition, triple_consequent, contradiction_consequent, Rule,
}
use rdflib_reasoning.Rulesets.Vocabulary.{
  rdf_property, rdf_type, rdfs_class, rdfs_container_membership_property, rdfs_domain, rdfs_member,
  rdfs_range, rdfs_resource, rdfs_sub_class_of, rdfs_sub_property_of,
}
use rdflib_reasoning.Rulesets.{pattern}
use rdflib_reasoning.Rulesets.RdfsAxioms.{production_rdfs_axioms}

abbrev pub rule_description : String → String → RuleDescription
rule_description rule_name description = record {
  label = rule_name;
  description = some description;
  references =
      record {
        kind = AuthorityKind.normative_spec;
        uri = uri_ref "https://www.w3.org/TR/rdf11-mt/#RDFS_Interpretations";
        label = "RDF 1.1 Semantics: RDFS Interpretations";
      }
      ∷ [];
}

abbrev pub rdfs2_body : List RuleCondition
rdfs2_body =
    triple_condition (pattern (variable "x") (variable "p") (variable "y"))
    ∷ triple_condition (pattern (variable "p") rdfs_domain (variable "c"))
    ∷ []

abbrev pub rdfs2_head : List RuleConsequent
rdfs2_head = triple_consequent (pattern (variable "x") rdf_type (variable "c")) ∷ []

abbrev pub rdfs3_body : List RuleCondition
rdfs3_body =
    triple_condition (pattern (variable "x") (variable "p") (variable "y"))
    ∷ triple_condition (pattern (variable "p") rdfs_range (variable "c"))
    ∷ predicate_condition "not_literal" (variable "y" ∷ [])
    ∷ []

abbrev pub rdfs3_head : List RuleConsequent
rdfs3_head = triple_consequent (pattern (variable "y") rdf_type (variable "c")) ∷ []

abbrev pub rdfs1 : Rule
rdfs1 = record {
  id = record { rule_set = "rdfs"; rule_id = "rdfs1" };
  description = some (
      rule_description "Property typing"
        "Infer that every predicate used in a triple is an rdf:Property.");
  body = triple_condition (pattern (variable "x") (variable "p") (variable "y")) ∷ [];
  head = triple_consequent (pattern (variable "p") rdf_type rdf_property) ∷ [];
  salience = pos 0;
  silent = true;
}

abbrev pub rdfs2 : Rule
rdfs2 = record {
  id = record { rule_set = "rdfs"; rule_id = "rdfs2" };
  description = some (
      rule_description "Domain inference (visible non-schema terms)"
        "Production profile variant of rdfs2 that materializes domain typing for non-schema terms while leaving selected RDF/RDFS vocabulary closure internal to the engine.");
  body =
      rdfs2_body ++ predicate_condition "different_terms" (variable "c" ∷ rdfs_resource ∷ []) ∷ [];
  head = rdfs2_head;
  salience = pos 0;
  silent = false;
}

abbrev pub rdfs3 : Rule
rdfs3 = record {
  id = record { rule_set = "rdfs"; rule_id = "rdfs3" };
  description = some (
      rule_description "Range inference (visible non-schema terms)"
        "Production profile variant of rdfs3 that materializes range typing for non-schema terms while leaving selected RDF/RDFS vocabulary closure internal to the engine.");
  body =
      rdfs3_body
      ++ predicate_condition "term_not_in" (variable "y" ∷ rdfs_class ∷ rdfs_resource ∷ []) ∷ [];
  head = rdfs3_head;
  salience = pos 0;
  silent = false;
}

abbrev pub rdfs5 : Rule
rdfs5 = record {
  id = record { rule_set = "rdfs"; rule_id = "rdfs5" };
  description = some (
      rule_description "Subproperty transitivity"
        "Propagate rdfs:subPropertyOf transitively across asserted property chains.");
  body =
      triple_condition (pattern (variable "a") rdfs_sub_property_of (variable "b"))
      ∷ triple_condition (pattern (variable "b") rdfs_sub_property_of (variable "c"))
      ∷ [];
  head = triple_consequent (pattern (variable "a") rdfs_sub_property_of (variable "c")) ∷ [];
  salience = pos 0;
  silent = false;
}

abbrev pub rdfs7 : Rule
rdfs7 = record {
  id = record { rule_set = "rdfs"; rule_id = "rdfs7" };
  description = some (
      rule_description "Subproperty inheritance"
        "Propagate property assertions across rdfs:subPropertyOf links.");
  body =
      triple_condition (pattern (variable "x") (variable "p") (variable "y"))
      ∷ triple_condition (pattern (variable "p") rdfs_sub_property_of (variable "q"))
      ∷ predicate_condition "different_terms" (variable "p" ∷ variable "q" ∷ [])
      ∷ [];
  head = triple_consequent (pattern (variable "x") (variable "q") (variable "y")) ∷ [];
  salience = pos 0;
  silent = false;
}

abbrev pub rdfs9 : Rule
rdfs9 = record {
  id = record { rule_set = "rdfs"; rule_id = "rdfs9" };
  description =
      some (
        rule_description "Subclass typing propagation"
          "Propagate rdf:type across rdfs:subClassOf.");
  body =
      triple_condition (pattern (variable "x") rdfs_sub_class_of (variable "y"))
      ∷ triple_condition (pattern (variable "a") rdf_type (variable "x"))
      ∷ predicate_condition "different_terms" (variable "x" ∷ variable "y" ∷ [])
      ∷ [];
  head = triple_consequent (pattern (variable "a") rdf_type (variable "y")) ∷ [];
  salience = pos 0;
  silent = false;
}

abbrev pub rdfs11 : Rule
rdfs11 = record {
  id = record { rule_set = "rdfs"; rule_id = "rdfs11" };
  description = some (
      rule_description "Subclass transitivity"
        "Propagate rdfs:subClassOf transitively across asserted class chains.");
  body =
      triple_condition (pattern (variable "a") rdfs_sub_class_of (variable "b"))
      ∷ triple_condition (pattern (variable "b") rdfs_sub_class_of (variable "c"))
      ∷ [];
  head = triple_consequent (pattern (variable "a") rdfs_sub_class_of (variable "c")) ∷ [];
  salience = pos 0;
  silent = false;
}

abbrev pub rdfs12 : Rule
rdfs12 = record {
  id = record { rule_set = "rdfs"; rule_id = "rdfs12" };
  description = some (
      rule_description "Container membership inheritance"
        "Infer that every rdfs:ContainerMembershipProperty is an rdfs:subPropertyOf rdfs:member.");
  body = triple_condition (pattern (variable "p") rdf_type rdfs_container_membership_property) ∷ [];
  head = triple_consequent (pattern (variable "p") rdfs_sub_property_of rdfs_member) ∷ [];
  salience = pos 0;
  silent = false;
}

abbrev pub production_rdfs_non_axiom_rules : List Rule
production_rdfs_non_axiom_rules =
    rdfs1 ∷ rdfs2 ∷ rdfs3 ∷ rdfs5 ∷ rdfs7 ∷ rdfs9 ∷ rdfs11 ∷ rdfs12 ∷ []

unfoldable pub production_rdfs_rules : List Rule
unfolding production_rdfs_axioms
production_rdfs_rules = production_rdfs_axioms ++ production_rdfs_non_axiom_rules
