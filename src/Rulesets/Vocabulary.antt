-- ===== src/Rulesets/Vocabulary.antt =====
-- The terms of rdflib's namespaces RDF, RDFS and OWL that the rule sets name: the IRIs that the W3C
-- gives them.
use rdflib_reasoning.Rdf.{Node, uri_ref}

abbrev pub owl_assertion_property : Node
owl_assertion_property = uri_ref "http://www.w3.org/2002/07/owl#assertionProperty"

abbrev pub owl_asymmetric_property : Node
owl_asymmetric_property = uri_ref "http://www.w3.org/2002/07/owl#AsymmetricProperty"

abbrev pub owl_different_from : Node
owl_different_from = uri_ref "http://www.w3.org/2002/07/owl#differentFrom"

abbrev pub owl_irreflexive_property : Node
owl_irreflexive_property = uri_ref "http://www.w3.org/2002/07/owl#IrreflexiveProperty"

abbrev pub owl_nothing : Node
owl_nothing = uri_ref "http://www.w3.org/2002/07/owl#Nothing"

abbrev pub owl_same_as : Node
owl_same_as = uri_ref "http://www.w3.org/2002/07/owl#sameAs"

abbrev pub owl_source_individual : Node
owl_source_individual = uri_ref "http://www.w3.org/2002/07/owl#sourceIndividual"

abbrev pub owl_target_individual : Node
owl_target_individual = uri_ref "http://www.w3.org/2002/07/owl#targetIndividual"

abbrev pub owl_target_value : Node
owl_target_value = uri_ref "http://www.w3.org/2002/07/owl#targetValue"

abbrev pub rdf_alt : Node
rdf_alt = uri_ref "http://www.w3.org/1999/02/22-rdf-syntax-ns#Alt"

abbrev pub rdf_bag : Node
rdf_bag = uri_ref "http://www.w3.org/1999/02/22-rdf-syntax-ns#Bag"

abbrev pub rdf_first : Node
rdf_first = uri_ref "http://www.w3.org/1999/02/22-rdf-syntax-ns#first"

abbrev pub rdf_list : Node
rdf_list = uri_ref "http://www.w3.org/1999/02/22-rdf-syntax-ns#List"

abbrev pub rdf_nil : Node
rdf_nil = uri_ref "http://www.w3.org/1999/02/22-rdf-syntax-ns#nil"

abbrev pub rdf_object : Node
rdf_object = uri_ref "http://www.w3.org/1999/02/22-rdf-syntax-ns#object"

abbrev pub rdf_predicate : Node
rdf_predicate = uri_ref "http://www.w3.org/1999/02/22-rdf-syntax-ns#predicate"

abbrev pub rdf_property : Node
rdf_property = uri_ref "http://www.w3.org/1999/02/22-rdf-syntax-ns#Property"

abbrev pub rdf_rest : Node
rdf_rest = uri_ref "http://www.w3.org/1999/02/22-rdf-syntax-ns#rest"

abbrev pub rdf_seq : Node
rdf_seq = uri_ref "http://www.w3.org/1999/02/22-rdf-syntax-ns#Seq"

abbrev pub rdf_statement : Node
rdf_statement = uri_ref "http://www.w3.org/1999/02/22-rdf-syntax-ns#Statement"

abbrev pub rdf_subject : Node
rdf_subject = uri_ref "http://www.w3.org/1999/02/22-rdf-syntax-ns#subject"

abbrev pub rdf_type : Node
rdf_type = uri_ref "http://www.w3.org/1999/02/22-rdf-syntax-ns#type"

abbrev pub rdf_value : Node
rdf_value = uri_ref "http://www.w3.org/1999/02/22-rdf-syntax-ns#value"

abbrev pub rdfs_class : Node
rdfs_class = uri_ref "http://www.w3.org/2000/01/rdf-schema#Class"

abbrev pub rdfs_comment : Node
rdfs_comment = uri_ref "http://www.w3.org/2000/01/rdf-schema#comment"

abbrev pub rdfs_container : Node
rdfs_container = uri_ref "http://www.w3.org/2000/01/rdf-schema#Container"

abbrev pub rdfs_container_membership_property : Node
rdfs_container_membership_property =
    uri_ref "http://www.w3.org/2000/01/rdf-schema#ContainerMembershipProperty"

abbrev pub rdfs_datatype : Node
rdfs_datatype = uri_ref "http://www.w3.org/2000/01/rdf-schema#Datatype"

abbrev pub rdfs_domain : Node
rdfs_domain = uri_ref "http://www.w3.org/2000/01/rdf-schema#domain"

abbrev pub rdfs_is_defined_by : Node
rdfs_is_defined_by = uri_ref "http://www.w3.org/2000/01/rdf-schema#isDefinedBy"

abbrev pub rdfs_label : Node
rdfs_label = uri_ref "http://www.w3.org/2000/01/rdf-schema#label"

abbrev pub rdfs_literal : Node
rdfs_literal = uri_ref "http://www.w3.org/2000/01/rdf-schema#Literal"

abbrev pub rdfs_member : Node
rdfs_member = uri_ref "http://www.w3.org/2000/01/rdf-schema#member"

abbrev pub rdfs_range : Node
rdfs_range = uri_ref "http://www.w3.org/2000/01/rdf-schema#range"

abbrev pub rdfs_resource : Node
rdfs_resource = uri_ref "http://www.w3.org/2000/01/rdf-schema#Resource"

abbrev pub rdfs_see_also : Node
rdfs_see_also = uri_ref "http://www.w3.org/2000/01/rdf-schema#seeAlso"

abbrev pub rdfs_sub_class_of : Node
rdfs_sub_class_of = uri_ref "http://www.w3.org/2000/01/rdf-schema#subClassOf"

abbrev pub rdfs_sub_property_of : Node
rdfs_sub_property_of = uri_ref "http://www.w3.org/2000/01/rdf-schema#subPropertyOf"
