-- ===== src/Rulesets/RdfsAxioms.antt =====
-- rulesets/rdfs_axioms.py: the axioms of the RDFS vocabulary.
use rdflib_reasoning.Base.{
  String, string_eq, true, false, not, some, List, [], ◌∷◌, ◌++◌, map, filter, contains,
}
use rdflib_reasoning.Base.Int.{pos}
use rdflib_reasoning.Rdf.{Node, uri_ref}
use rdflib_reasoning.Rules.{AuthorityKind, RuleDescription, triple_consequent, Rule}
use rdflib_reasoning.Rulesets.Vocabulary.{
  rdf_alt, rdf_bag, rdf_first, rdf_list, rdf_object, rdf_predicate, rdf_property, rdf_rest, rdf_seq,
  rdf_statement, rdf_subject, rdf_type, rdf_value, rdfs_class, rdfs_comment, rdfs_container,
  rdfs_container_membership_property, rdfs_datatype, rdfs_domain, rdfs_is_defined_by, rdfs_label,
  rdfs_literal, rdfs_member, rdfs_range, rdfs_resource, rdfs_see_also, rdfs_sub_class_of,
  rdfs_sub_property_of,
}
use rdflib_reasoning.Rulesets.{pattern}
use rdflib_reasoning.Rulesets.RdfAxioms.{production_rdf_axioms}

abbrev axiom_description : String → String → RuleDescription
axiom_description label description = record {
  label = label;
  description = some description;
  references =
      record {
        kind = AuthorityKind.normative_spec;
        uri = uri_ref "https://www.w3.org/TR/rdf11-mt/#rdfs-interpretations";
        label = "RDF 1.1 Semantics: RDFS Interpretations";
      }
      ∷ [];
}

abbrev rdfs_axiom : String → String → String → Node → Node → Node → Rule
rdfs_axiom rule_id label description s p o = record {
  id = record { rule_set = "rdfs_axioms"; rule_id = rule_id };
  description = some (axiom_description label description);
  body = [];
  head = triple_consequent (pattern s p o) ∷ [];
  salience = pos 0;
  silent = true;
}

abbrev pub rdfs_section9_first_axioms : List Rule
rdfs_section9_first_axioms =
    rdfs_axiom "rdfs-axiom-domain-domain-property" "rdfs:domain rdfs:domain rdf:Property"
      "RDFS axiomatic triple." rdfs_domain rdfs_domain rdf_property
    ∷ rdfs_axiom "rdfs-axiom-range-domain-property" "rdfs:range rdfs:domain rdf:Property"
        "RDFS axiomatic triple." rdfs_range rdfs_domain rdf_property
    ∷ rdfs_axiom "rdfs-axiom-subpropertyof-domain-property"
        "rdfs:subPropertyOf rdfs:domain rdf:Property" "RDFS axiomatic triple." rdfs_sub_property_of
        rdfs_domain rdf_property
    ∷ rdfs_axiom "rdfs-axiom-subclassof-domain-class" "rdfs:subClassOf rdfs:domain rdfs:Class"
        "RDFS axiomatic triple." rdfs_sub_class_of rdfs_domain rdfs_class
    ∷ rdfs_axiom "rdfs-axiom-subject-domain-statement" "rdf:subject rdfs:domain rdf:Statement"
        "RDFS axiomatic triple." rdf_subject rdfs_domain rdf_statement
    ∷ rdfs_axiom "rdfs-axiom-predicate-domain-statement" "rdf:predicate rdfs:domain rdf:Statement"
        "RDFS axiomatic triple." rdf_predicate rdfs_domain rdf_statement
    ∷ rdfs_axiom "rdfs-axiom-object-domain-statement" "rdf:object rdfs:domain rdf:Statement"
        "RDFS axiomatic triple." rdf_object rdfs_domain rdf_statement
    ∷ rdfs_axiom "rdfs-axiom-member-domain-resource" "rdfs:member rdfs:domain rdfs:Resource"
        "RDFS axiomatic triple." rdfs_member rdfs_domain rdfs_resource
    ∷ rdfs_axiom "rdfs-axiom-first-domain-list" "rdf:first rdfs:domain rdf:List"
        "RDFS axiomatic triple." rdf_first rdfs_domain rdf_list
    ∷ rdfs_axiom "rdfs-axiom-rest-domain-list" "rdf:rest rdfs:domain rdf:List"
        "RDFS axiomatic triple." rdf_rest rdfs_domain rdf_list
    ∷ rdfs_axiom "rdfs-axiom-seealso-domain-resource" "rdfs:seeAlso rdfs:domain rdfs:Resource"
        "RDFS axiomatic triple." rdfs_see_also rdfs_domain rdfs_resource
    ∷ rdfs_axiom "rdfs-axiom-isdefinedby-domain-resource"
        "rdfs:isDefinedBy rdfs:domain rdfs:Resource" "RDFS axiomatic triple." rdfs_is_defined_by
        rdfs_domain rdfs_resource
    ∷ rdfs_axiom "rdfs-axiom-comment-domain-resource" "rdfs:comment rdfs:domain rdfs:Resource"
        "RDFS axiomatic triple." rdfs_comment rdfs_domain rdfs_resource
    ∷ rdfs_axiom "rdfs-axiom-label-domain-resource" "rdfs:label rdfs:domain rdfs:Resource"
        "RDFS axiomatic triple." rdfs_label rdfs_domain rdfs_resource
    ∷ rdfs_axiom "rdfs-axiom-value-domain-resource" "rdf:value rdfs:domain rdfs:Resource"
        "RDFS axiomatic triple." rdf_value rdfs_domain rdfs_resource
    ∷ rdfs_axiom "rdfs-axiom-type-domain-resource" "rdf:type rdfs:domain rdfs:Resource"
        "RDFS axiomatic triple." rdf_type rdfs_domain rdfs_resource
    ∷ rdfs_axiom "rdfs-axiom-type-range-class" "rdf:type rdfs:range rdfs:Class"
        "RDFS axiomatic triple." rdf_type rdfs_range rdfs_class
    ∷ rdfs_axiom "rdfs-axiom-domain-range-class" "rdfs:domain rdfs:range rdfs:Class"
        "RDFS axiomatic triple." rdfs_domain rdfs_range rdfs_class
    ∷ rdfs_axiom "rdfs-axiom-range-range-class" "rdfs:range rdfs:range rdfs:Class"
        "RDFS axiomatic triple." rdfs_range rdfs_range rdfs_class
    ∷ []

abbrev pub rdfs_section9_later_axioms : List Rule
rdfs_section9_later_axioms =
    rdfs_axiom "rdfs-axiom-subpropertyof-range-property"
      "rdfs:subPropertyOf rdfs:range rdf:Property" "RDFS axiomatic triple." rdfs_sub_property_of
      rdfs_range rdf_property
    ∷ rdfs_axiom "rdfs-axiom-subclassof-range-class" "rdfs:subClassOf rdfs:range rdfs:Class"
        "RDFS axiomatic triple." rdfs_sub_class_of rdfs_range rdfs_class
    ∷ rdfs_axiom "rdfs-axiom-subject-range-resource" "rdf:subject rdfs:range rdfs:Resource"
        "RDFS axiomatic triple." rdf_subject rdfs_range rdfs_resource
    ∷ rdfs_axiom "rdfs-axiom-predicate-range-resource" "rdf:predicate rdfs:range rdfs:Resource"
        "RDFS axiomatic triple." rdf_predicate rdfs_range rdfs_resource
    ∷ rdfs_axiom "rdfs-axiom-object-range-resource" "rdf:object rdfs:range rdfs:Resource"
        "RDFS axiomatic triple." rdf_object rdfs_range rdfs_resource
    ∷ rdfs_axiom "rdfs-axiom-member-range-resource" "rdfs:member rdfs:range rdfs:Resource"
        "RDFS axiomatic triple." rdfs_member rdfs_range rdfs_resource
    ∷ rdfs_axiom "rdfs-axiom-first-range-resource" "rdf:first rdfs:range rdfs:Resource"
        "RDFS axiomatic triple." rdf_first rdfs_range rdfs_resource
    ∷ rdfs_axiom "rdfs-axiom-rest-range-list" "rdf:rest rdfs:range rdf:List"
        "RDFS axiomatic triple." rdf_rest rdfs_range rdf_list
    ∷ rdfs_axiom "rdfs-axiom-seealso-range-resource" "rdfs:seeAlso rdfs:range rdfs:Resource"
        "RDFS axiomatic triple." rdfs_see_also rdfs_range rdfs_resource
    ∷ rdfs_axiom "rdfs-axiom-isdefinedby-range-resource" "rdfs:isDefinedBy rdfs:range rdfs:Resource"
        "RDFS axiomatic triple." rdfs_is_defined_by rdfs_range rdfs_resource
    ∷ rdfs_axiom "rdfs-axiom-comment-range-literal" "rdfs:comment rdfs:range rdfs:Literal"
        "RDFS axiomatic triple." rdfs_comment rdfs_range rdfs_literal
    ∷ rdfs_axiom "rdfs-axiom-label-range-literal" "rdfs:label rdfs:range rdfs:Literal"
        "RDFS axiomatic triple." rdfs_label rdfs_range rdfs_literal
    ∷ rdfs_axiom "rdfs-axiom-value-range-resource" "rdf:value rdfs:range rdfs:Resource"
        "RDFS axiomatic triple." rdf_value rdfs_range rdfs_resource
    ∷ rdfs_axiom "rdfs-axiom-alt-subclass-container" "rdf:Alt rdfs:subClassOf rdfs:Container"
        "RDFS axiomatic triple." rdf_alt rdfs_sub_class_of rdfs_container
    ∷ rdfs_axiom "rdfs-axiom-bag-subclass-container" "rdf:Bag rdfs:subClassOf rdfs:Container"
        "RDFS axiomatic triple." rdf_bag rdfs_sub_class_of rdfs_container
    ∷ rdfs_axiom "rdfs-axiom-seq-subclass-container" "rdf:Seq rdfs:subClassOf rdfs:Container"
        "RDFS axiomatic triple." rdf_seq rdfs_sub_class_of rdfs_container
    ∷ rdfs_axiom "rdfs-axiom-cmp-subclass-property"
        "rdfs:ContainerMembershipProperty rdfs:subClassOf rdf:Property" "RDFS axiomatic triple."
        rdfs_container_membership_property rdfs_sub_class_of rdf_property
    ∷ rdfs_axiom "rdfs-axiom-isdefinedby-subproperty-seealso"
        "rdfs:isDefinedBy rdfs:subPropertyOf rdfs:seeAlso" "RDFS axiomatic triple."
        rdfs_is_defined_by rdfs_sub_property_of rdfs_see_also
    ∷ rdfs_axiom "rdfs-axiom-datatype-subclass-class" "rdfs:Datatype rdfs:subClassOf rdfs:Class"
        "RDFS axiomatic triple." rdfs_datatype rdfs_sub_class_of rdfs_class
    ∷ []

-- `_RDFS_SECTION9_AXIOMS`, which stands in two halves here.
abbrev pub rdfs_section9_axioms : List Rule
rdfs_section9_axioms = rdfs_section9_first_axioms ++ rdfs_section9_later_axioms

abbrev pub production_omitted_rdfs_axiom_rule_ids : List String
production_omitted_rdfs_axiom_rule_ids =
    "rdfs-axiom-type-domain-resource" ∷ "rdfs-axiom-type-range-class" ∷ []

unfoldable pub production_rdfs_axioms : List Rule
production_rdfs_axioms =
    production_rdf_axioms
    ++ filter (λ r. not (contains production_omitted_rdfs_axiom_rule_ids r.id.rule_id))
        rdfs_section9_axioms

-- `rule.model_copy(update=dict(silent=False))`
abbrev pub made_visible : Rule → Rule
made_visible rule = record rule { silent = false }

unfoldable pub conformant_rdfs_axioms : List Rule
conformant_rdfs_axioms = map made_visible (production_rdf_axioms ++ rdfs_section9_axioms)
