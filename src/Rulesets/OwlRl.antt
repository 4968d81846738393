-- ===== src/Rulesets/OwlRl.antt =====
-- rulesets/owl2_rl_contradictions.py: the rules that signal contradictions.
use rdflib_reasoning.Base.{string_eq, false, none, some, List, [], ◌∷◌}
use rdflib_reasoning.Base.Int.{pos}
use rdflib_reasoning.Rdf.{variable}
use rdflib_reasoning.Rules.{triple_condition, contradiction_consequent, Rule}
use rdflib_reasoning.Rulesets.Vocabulary.{
  owl_assertion_property, owl_asymmetric_property, owl_different_from, owl_irreflexive_property,
  owl_nothing, owl_same_as, owl_source_individual, owl_target_individual, owl_target_value,
  rdf_type,
}
use rdflib_reasoning.Rulesets.{pattern}

abbrev pub eq_diff1 : Rule
eq_diff1 = record {
  id = record { rule_set = "owl2-rl-contradiction"; rule_id = "eq-diff1" };
  description = none;
  body =
      triple_condition (pattern (variable "x") owl_same_as (variable "y"))
      ∷ triple_condition (pattern (variable "x") owl_different_from (variable "y"))
      ∷ [];
  head =
      contradiction_consequent "eq-diff1"
        (some "owl:sameAs and owl:differentFrom hold for the same pair.")
        (variable "x" ∷ owl_same_as ∷ variable "y" ∷ [])
      ∷ [];
  salience = pos 0;
  silent = false;
}

abbrev pub prp_irp : Rule
prp_irp = record {
  id = record { rule_set = "owl2-rl-contradiction"; rule_id = "prp-irp" };
  description = none;
  body =
      triple_condition (pattern (variable "p") rdf_type owl_irreflexive_property)
      ∷ triple_condition (pattern (variable "x") (variable "p") (variable "x"))
      ∷ [];
  head =
      contradiction_consequent "prp-irp" (some "Irreflexive property used reflexively.")
        (variable "x" ∷ variable "p" ∷ variable "x" ∷ [])
      ∷ [];
  salience = pos 0;
  silent = false;
}

abbrev pub prp_asyp : Rule
prp_asyp = record {
  id = record { rule_set = "owl2-rl-contradiction"; rule_id = "prp-asyp" };
  description = none;
  body =
      triple_condition (pattern (variable "p") rdf_type owl_asymmetric_property)
      ∷ triple_condition (pattern (variable "x") (variable "p") (variable "y"))
      ∷ triple_condition (pattern (variable "y") (variable "p") (variable "x"))
      ∷ [];
  head =
      contradiction_consequent "prp-asyp" (some "Asymmetric property used in both directions.")
        (variable "x" ∷ variable "p" ∷ variable "y" ∷ [])
      ∷ [];
  salience = pos 0;
  silent = false;
}

abbrev pub prp_npa1 : Rule
prp_npa1 = record {
  id = record { rule_set = "owl2-rl-contradiction"; rule_id = "prp-npa1" };
  description = none;
  body =
      triple_condition (pattern (variable "npa") owl_source_individual (variable "i1"))
      ∷ triple_condition (pattern (variable "npa") owl_assertion_property (variable "p"))
      ∷ triple_condition (pattern (variable "npa") owl_target_individual (variable "i2"))
      ∷ triple_condition (pattern (variable "i1") (variable "p") (variable "i2"))
      ∷ [];
  head =
      contradiction_consequent "prp-npa1"
        (some "Negative object property assertion contradicted by a positive assertion.")
        (variable "i1" ∷ variable "p" ∷ variable "i2" ∷ [])
      ∷ [];
  salience = pos 0;
  silent = false;
}

abbrev pub prp_npa2 : Rule
prp_npa2 = record {
  id = record { rule_set = "owl2-rl-contradiction"; rule_id = "prp-npa2" };
  description = none;
  body =
      triple_condition (pattern (variable "npa") owl_source_individual (variable "i"))
      ∷ triple_condition (pattern (variable "npa") owl_assertion_property (variable "p"))
      ∷ triple_condition (pattern (variable "npa") owl_target_value (variable "lt"))
      ∷ triple_condition (pattern (variable "i") (variable "p") (variable "lt"))
      ∷ [];
  head =
      contradiction_consequent "prp-npa2"
        (some "Negative data property assertion contradicted by a positive assertion.")
        (variable "i" ∷ variable "p" ∷ variable "lt" ∷ [])
      ∷ [];
  salience = pos 0;
  silent = false;
}

abbrev pub cls_nothing2 : Rule
cls_nothing2 = record {
  id = record { rule_set = "owl2-rl-contradiction"; rule_id = "cls-nothing2" };
  description = none;
  body = triple_condition (pattern (variable "a") rdf_type owl_nothing) ∷ [];
  head =
      contradiction_consequent "cls-nothing2" (some "Individual is typed as owl:Nothing.")
        (variable "a" ∷ rdf_type ∷ owl_nothing ∷ [])
      ∷ [];
  salience = pos 0;
  silent = false;
}

unfoldable pub owl2_rl_contradiction_rules : List Rule
owl2_rl_contradiction_rules =
    eq_diff1 ∷ prp_irp ∷ prp_asyp ∷ prp_npa1 ∷ prp_npa2 ∷ cls_nothing2 ∷ []
