-- ===== src/Engine/Terms.antt =====
-- rete_engine.py: how a pattern is instantiated, and which triples are let through.
use rdflib_reasoning.Base.{
  String, string_eq, ◌≡◌, refl, Bool, true, false, not, ◌&&◌, Option, none, some, ◌⊎◌, inl, inr,
  arith, Option-cases, if◌then◌else◌,
}
use rdflib_reasoning.Base.Dict.{Dict, lookup}
use rdflib_reasoning.Errors.{
  Exception, Result, ok, raise, fatal_rule_error, literal_as_subject_error,
  blank_node_predicate_error, literal_predicate_error,
}
use rdflib_reasoning.Rdf.{
  Node, uri_ref, b_node, literal, variable, Triple, is_literal, is_uri_ref, is_b_node,
}
use rdflib_reasoning.Rules.{TriplePattern}
use rdflib_reasoning.Network.Alpha.{value_of, Instantiates}
use rdflib_reasoning.Engine.{Policy, resolve_term, instantiate_triple, reject, triple_is_permitted}
use rdflib_reasoning.Engine.Round.{is_fatal}

-- A term resolves to what it stands for, and a variable without a binding is a fatal error.
term_result : Option Node → Result Node
term_result none = raise fatal_rule_error
term_result (some v) = ok v

resolve_term_lem :
    (term : Node) (b : Dict String Node) → resolve_term term b ≡ term_result (value_of term b)
unfolding resolve_term value_of term_result
resolve_term_lem (variable x) b = elim (Option-cases (lookup x b)) [
  | inl e ↦ ground (arith, e)
  | inr (v, e) ↦ ground (arith, e)
]
resolve_term_lem (uri_ref i) b = refl
resolve_term_lem (b_node l) b = refl
resolve_term_lem (literal l d t) b = refl

-- Instantiation gives the triple that the pattern stands for, and it fails only with a
-- FatalRuleError, exactly where some variable of the pattern has no binding.
pub instantiate_triple_total :
    (p : TriplePattern) (b : Dict String Node)
    → ((t : Triple) × (instantiate_triple p b ≡ ok t) × Instantiates p b t)
      ⊎ ((instantiate_triple p b ≡ raise fatal_rule_error)
          × ((value_of p.subject b ≡ none)
              ⊎ ((value_of p.predicate b ≡ none) ⊎ (value_of p.object b ≡ none))))
unfolding instantiate_triple Instantiates term_result
instantiate_triple_total p b =
    let s1 = resolve_term_lem p.subject b in
    let s2 = resolve_term_lem p.predicate b in
    let s3 = resolve_term_lem p.object b in
    elim (Option-cases (value_of p.subject b)) [
      | inl e ↦ inr (ground (arith, s1, e), inl e)
      | inr (s, e) ↦ elim (Option-cases (value_of p.predicate b)) [
        | inl f ↦ inr (ground (arith, s1, e, s2, f), inr (inl f))
        | inr (q, f) ↦ elim (Option-cases (value_of p.object b)) [
          | inl g ↦ inr (ground (arith, s1, e, s2, f, s3, g), inr (inr g))
          | inr (o, g) ↦ inl (
            record { subject = s; predicate = q; object = o },
            ground (arith, s1, e, s2, f, s3, g),
            (e, f, g),
          )
        ]
      ]
    ]

-- RDF 1.1: the subject is no literal and the predicate is an IRI.
unfoldable pub is_well_formed : Triple → Bool
is_well_formed t = not (is_literal t.subject) && is_uri_ref t.predicate

abbrev IsRefusal : Result Bool → Type 0
IsRefusal r = (r ≡ ok false) ⊎ ((e : Exception) × (r ≡ raise e) × (is_fatal e ≡ true))

reject-IsRefusal :
    (policy : Policy) (e : Exception) → is_fatal e ≡ true → IsRefusal (reject policy e)
unfolding reject
reject-IsRefusal Policy.on_warning e fatal = inl refl
reject-IsRefusal Policy.on_error e fatal = inr (e, refl, fatal)

-- The tests of `triple_is_permitted`, by what they find.
verdict : Bool → Bool → Bool → Policy → Policy → Result Bool
verdict literal_subject iri blank literals predicates =
    if literal_subject
    then reject literals literal_as_subject_error
    else if not iri
    then (if blank
        then reject predicates blank_node_predicate_error
        else reject predicates literal_predicate_error)
    else ok true

verdict-cases :
    (literal_subject iri blank : Bool) (literals predicates : Policy)
    → (((not literal_subject && iri) ≡ true)
        × (verdict literal_subject iri blank literals predicates ≡ ok true))
      ⊎ (((not literal_subject && iri) ≡ false)
          × IsRefusal (verdict literal_subject iri blank literals predicates))
unfolding verdict is_fatal
verdict-cases true iri blank literals predicates =
    inr (refl, reject-IsRefusal literals literal_as_subject_error refl)
verdict-cases false true blank literals predicates = inl (refl, refl)
verdict-cases false false true literals predicates =
    inr (refl, reject-IsRefusal predicates blank_node_predicate_error refl)
verdict-cases false false false literals predicates =
    inr (refl, reject-IsRefusal predicates literal_predicate_error refl)

-- Whatever the policies, a triple is let through exactly when it is well-formed; another one is
-- skipped or raises an error that is a FatalRuleError.
pub triple_is_permitted_total :
    (literals predicates : Policy) (t : Triple)
    → ((is_well_formed t ≡ true) × (triple_is_permitted literals predicates t ≡ ok true))
      ⊎ ((is_well_formed t ≡ false)
          × ((triple_is_permitted literals predicates t ≡ ok false)
              ⊎ ((e : Exception) × (triple_is_permitted literals predicates t ≡ raise e)
                  × (is_fatal e ≡ true))))
unfolding triple_is_permitted is_well_formed verdict
triple_is_permitted_total literals predicates t =
    verdict-cases (is_literal t.subject) (is_uri_ref t.predicate) (is_b_node t.predicate) literals
      predicates
