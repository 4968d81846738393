-- ===== src/Rulesets/RdfAxioms.antt =====
-- rulesets/rdf_axioms.py: the axioms of the RDF vocabulary.
use rdflib_reasoning.Base.{String, string_eq, true, some, List, [], ◌∷◌}
use rdflib_reasoning.Base.Int.{pos}
use rdflib_reasoning.Rdf.{Node, uri_ref}
use rdflib_reasoning.Rules.{AuthorityKind, RuleDescription, triple_consequent, Rule}
use rdflib_reasoning.Rulesets.Vocabulary.{
  rdf_first, rdf_list, rdf_nil, rdf_object, rdf_predicate, rdf_property, rdf_rest, rdf_subject,
  rdf_type, rdf_value,
}
use rdflib_reasoning.Rulesets.{pattern}

abbrev axiom_description : String → String → RuleDescription
axiom_description label description = record {
  label = label;
  description = some description;
  references =
      record {
        kind = AuthorityKind.normative_spec;
        uri = uri_ref "https://www.w3.org/TR/rdf11-mt/#rdf-interpretations";
        label = "RDF 1.1 Semantics: RDF Interpretations";
      }
      ∷ [];
}

abbrev pub rdf_axiom : String → String → String → Node → Node → Node → Rule
rdf_axiom rule_id label description s p o = record {
  id = record { rule_set = "rdf_axioms"; rule_id = rule_id };
  description = some (axiom_description label description);
  body = [];
  head = triple_consequent (pattern s p o) ∷ [];
  salience = pos 0;
  silent = true;
}

abbrev pub production_rdf_axioms : List Rule
production_rdf_axioms =
    rdf_axiom "rdf-axiom-rdf-type" "rdf:type is an rdf:Property"
      "RDF axiom: rdf:type rdf:type rdf:Property." rdf_type rdf_type rdf_property
    ∷ rdf_axiom "rdf-axiom-rdf-subject" "rdf:subject is an rdf:Property"
        "RDF axiom: rdf:subject rdf:type rdf:Property." rdf_subject rdf_type rdf_property
    ∷ rdf_axiom "rdf-axiom-rdf-predicate" "rdf:predicate is an rdf:Property"
        "RDF axiom: rdf:predicate rdf:type rdf:Property." rdf_predicate rdf_type rdf_property
    ∷ rdf_axiom "rdf-axiom-rdf-object" "rdf:object is an rdf:Property"
        "RDF axiom: rdf:object rdf:type rdf:Property." rdf_object rdf_type rdf_property
    ∷ rdf_axiom "rdf-axiom-rdf-first" "rdf:first is an rdf:Property"
        "RDF axiom: rdf:first rdf:type rdf:Property." rdf_first rdf_type rdf_property
    ∷ rdf_axiom "rdf-axiom-rdf-rest" "rdf:rest is an rdf:Property"
        "RDF axiom: rdf:rest rdf:type rdf:Property." rdf_rest rdf_type rdf_property
    ∷ rdf_axiom "rdf-axiom-rdf-value" "rdf:value is an rdf:Property"
        "RDF axiom: rdf:value rdf:type rdf:Property." rdf_value rdf_type rdf_property
    ∷ rdf_axiom "rdf-axiom-rdf-nil" "rdf:nil is an rdf:List" "RDF axiom: rdf:nil rdf:type rdf:List."
        rdf_nil rdf_type rdf_list
    ∷ []
