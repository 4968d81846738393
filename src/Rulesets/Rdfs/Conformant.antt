-- ===== src/Rulesets/Rdfs/Conformant.antt =====
-- rulesets/rdfs.py: the profile for conformance tests.
use rdflib_reasoning.Base.{string_eq, false, not, some, List, [], ◌∷◌, ◌++◌, map, filter, contains}
use rdflib_reasoning.Base.Int.{pos}
use rdflib_reasoning.Rdf.{variable}
use rdflib_reasoning.Rules.{triple_condition, predicate_condition, triple_consequent, Rule}
use rdflib_reasoning.Rulesets.Vocabulary.{
  rdf_property, rdf_type, rdfs_class, rdfs_datatype, rdfs_domain, rdfs_literal, rdfs_resource,
  rdfs_sub_class_of, rdfs_sub_property_of,
}
use rdflib_reasoning.Rulesets.{pattern}
use rdflib_reasoning.Rulesets.RdfsAxioms.{conformant_rdfs_axioms, made_visible}
use rdflib_reasoning.Rulesets.Rdfs.{
  rule_description, rdfs2_head, rdfs3_body, rdfs3_head, production_rdfs_non_axiom_rules,
}

-- The rules of the production profile but those that are written anew.
unfoldable pub build_conformant_rdfs_rules : List Rule
unfolding conformant_rdfs_axioms
build_conformant_rdfs_rules =
    conformant_rdfs_axioms
    ++ map made_visible (
        filter (λ r. not (contains ("rdfs2" ∷ "rdfs3" ∷ "rdfs7" ∷ "rdfs9" ∷ []) r.id.rule_id))
          production_rdfs_non_axiom_rules)

abbrev pub conformant_rdfs2 : Rule
conformant_rdfs2 = record {
  id = record { rule_set = "rdfs"; rule_id = "rdfs2" };
  description = some (
      rule_description "Domain inference"
        "Propagate rdf:type to the subject of a property using its domain.");
  body =
      triple_condition (pattern (variable "x") (variable "p") (variable "y"))
      ∷ triple_condition (pattern (variable "p") rdfs_domain (variable "c"))
      ∷ [];
  head = rdfs2_head;
  salience = pos 0;
  silent = false;
}

abbrev pub conformant_rdfs3 : Rule
conformant_rdfs3 = record {
  id = record { rule_set = "rdfs"; rule_id = "rdfs3" };
  description = some (
      rule_description "Range inference"
        "Propagate rdf:type to the object of a property using its range. Literal objects are skipped so conclusions remain RDF 1.1 concrete triples (no literal subjects).");
  body = rdfs3_body;
  head = rdfs3_head;
  salience = pos 0;
  silent = false;
}

abbrev pub conformant_rdfs4a : Rule
conformant_rdfs4a = record {
  id = record { rule_set = "rdfs"; rule_id = "rdfs4a" };
  description = some (
      rule_description "Subject resource typing"
        "Infer that the subject of every triple is an rdfs:Resource.");
  body = triple_condition (pattern (variable "x") (variable "p") (variable "y")) ∷ [];
  head = triple_consequent (pattern (variable "x") rdf_type rdfs_resource) ∷ [];
  salience = pos 0;
  silent = false;
}

abbrev pub conformant_rdfs4b : Rule
conformant_rdfs4b = record {
  id = record { rule_set = "rdfs"; rule_id = "rdfs4b" };
  description = some (
      rule_description "Object resource typing"
        "Infer that the object of every triple is an rdfs:Resource when the object is an IRI or blank node (well-formed RDF 1.1; literals skipped).");
  body =
      triple_condition (pattern (variable "x") (variable "p") (variable "y"))
      ∷ predicate_condition "not_literal" (variable "y" ∷ [])
      ∷ [];
  head = triple_consequent (pattern (variable "y") rdf_type rdfs_resource) ∷ [];
  salience = pos 0;
  silent = false;
}

abbrev pub conformant_rdfs6 : Rule
conformant_rdfs6 = record {
  id = record { rule_set = "rdfs"; rule_id = "rdfs6" };
  description = some (
      rule_description "Property reflexivity"
        "Infer that every rdf:Property is an rdfs:subPropertyOf itself.");
  body = triple_condition (pattern (variable "p") rdf_type rdf_property) ∷ [];
  head = triple_consequent (pattern (variable "p") rdfs_sub_property_of (variable "p")) ∷ [];
  salience = pos 0;
  silent = false;
}

abbrev pub conformant_rdfs7 : Rule
conformant_rdfs7 = record {
  id = record { rule_set = "rdfs"; rule_id = "rdfs7" };
  description = some (
      rule_description "Subproperty inheritance"
        "Propagate property assertions across rdfs:subPropertyOf links.");
  body =
      triple_condition (pattern (variable "x") (variable "p") (variable "y"))
      ∷ triple_condition (pattern (variable "p") rdfs_sub_property_of (variable "q"))
      ∷ [];
  head = triple_consequent (pattern (variable "x") (variable "q") (variable "y")) ∷ [];
  salience = pos 0;
  silent = false;
}

abbrev pub conformant_rdfs8 : Rule
conformant_rdfs8 = record {
  id = record { rule_set = "rdfs"; rule_id = "rdfs8" };
  description = some (
      rule_description "Class resource inclusion"
        "Infer that every rdfs:Class is an rdfs:subClassOf rdfs:Resource.");
  body = triple_condition (pattern (variable "c") rdf_type rdfs_class) ∷ [];
  head = triple_consequent (pattern (variable "c") rdfs_sub_class_of rdfs_resource) ∷ [];
  salience = pos 0;
  silent = false;
}

abbrev pub conformant_rdfs9 : Rule
conformant_rdfs9 = record {
  id = record { rule_set = "rdfs"; rule_id = "rdfs9" };
  description =
      some (
        rule_description "Subclass typing propagation"
          "Propagate rdf:type across rdfs:subClassOf.");
  body =
      triple_condition (pattern (variable "x") rdfs_sub_class_of (variable "y"))
      ∷ triple_condition (pattern (variable "a") rdf_type (variable "x"))
      ∷ [];
  head = triple_consequent (pattern (variable "a") rdf_type (variable "y")) ∷ [];
  salience = pos 0;
  silent = false;
}

abbrev pub conformant_rdfs10 : Rule
conformant_rdfs10 = record {
  id = record { rule_set = "rdfs"; rule_id = "rdfs10" };
  description = some (
      rule_description "Class reflexivity"
        "Infer that every rdfs:Class is an rdfs:subClassOf itself.");
  body = triple_condition (pattern (variable "c") rdf_type rdfs_class) ∷ [];
  head = triple_consequent (pattern (variable "c") rdfs_sub_class_of (variable "c")) ∷ [];
  salience = pos 0;
  silent = false;
}

abbrev pub conformant_rdfs13 : Rule
conformant_rdfs13 = record {
  id = record { rule_set = "rdfs"; rule_id = "rdfs13" };
  description = some (
      rule_description "Datatype literal inclusion"
        "Infer that every rdfs:Datatype is an rdfs:subClassOf rdfs:Literal.");
  body = triple_condition (pattern (variable "c") rdf_type rdfs_datatype) ∷ [];
  head = triple_consequent (pattern (variable "c") rdfs_sub_class_of rdfs_literal) ∷ [];
  salience = pos 0;
  silent = false;
}

unfoldable pub conformant_rdfs_rules : List Rule
unfolding build_conformant_rdfs_rules
conformant_rdfs_rules =
    build_conformant_rdfs_rules
    ++ conformant_rdfs2 ∷ conformant_rdfs3 ∷ conformant_rdfs4a ∷ conformant_rdfs4b
      ∷ conformant_rdfs6 ∷ conformant_rdfs7 ∷ conformant_rdfs8 ∷ conformant_rdfs9
      ∷ conformant_rdfs10 ∷ conformant_rdfs13 ∷ []
