-- ===== src/Tests/Engine.antt =====
-- rete_engine.py on an engine without rules and on the controller of a chain of two facts.
use rdflib_reasoning.Base.{
  string_eq, string_dec, ◌≡◌, refl, sym, subst, true, false, none, some, List, [], ◌∷◌, ◌⊎◌, inl,
  inr, Memᴰ, contains,
}
use mathlib.Core.List.Memᴰ
use rdflib_reasoning.Base.Dict.{lookup, insert}
use rdflib_reasoning.Base.Sets.{add, update}
use rdflib_reasoning.Errors.{Exception, ok, raise, fatal_rule_error}
use rdflib_reasoning.Rdf.{
  b_node, uri_ref, literal, variable, Triple, triple_eq, triple_dec, node_dec, is_literal,
  is_uri_ref,
}
use rdflib_reasoning.Facts.{fact_id_for_triple}
use rdflib_reasoning.Tms.Memory.{get_fact, add_fact}
use rdflib_reasoning.Tms.Controller.{empty_tms, register_stated}
use rdflib_reasoning.Network.{empty_registry}
use rdflib_reasoning.Network.Alpha.{value_of, Instantiates}
use rdflib_reasoning.Network.Builder.{build_rules}
use rdflib_reasoning.Engine.{
  Policy, RecorderKind, LoggerKind, ReteEngineConfig, ReteEngine, instantiate_triple,
  triple_is_permitted,
}
use rdflib_reasoning.Engine.Round.{is_fatal}
use rdflib_reasoning.Engine.Saturation.{
  compile_rules, new_engine, state_fresh, add_triples, retract_triples,
}
use rdflib_reasoning.Engine.Terms.{
  is_well_formed, instantiate_triple_total, triple_is_permitted_total,
}
use rdflib_reasoning.Engine.Known.{AllTriples, AllWellFormed}
use rdflib_reasoning.Engine.Invariant.{IsWellFormed}
use rdflib_reasoning.Engine.Calls.{IsUnstated, add_triples_known, retract_triples_unstated}
use rdflib_reasoning.Engine.Life.{starts_life, adds, Lives-IsWellFormed}
use rdflib_reasoning.Tests.Tms.{typed, fact, chain}
use rdflib_reasoning.Tests.Network.{of_class, plain}

unfoldable pub program : Unit {0}
unfolding lookup insert add update string_dec node_dec triple_dec compile_rules new_engine
    build_rules state_fresh register_stated add_fact get_fact fact_id_for_triple is_well_formed
    is_literal is_uri_ref
program = tt

abbrev pub config : ReteEngineConfig
config = record {
  context = uri_ref "g";
  predicates = [];
  callbacks = [];
  derivation_logger = LoggerKind.in_memory_logger;
  contradiction_recorder = RecorderKind.in_memory_recorder;
  literal_subject_policy = Policy.on_error;
  predicate_term_policy = Policy.on_warning;
}

instantiate_triple_total_example :
    ((t : Triple) × (instantiate_triple (of_class (variable "c")) (("x", uri_ref "x") ∷ []) ≡ ok t)
      × Instantiates (of_class (variable "c")) (("x", uri_ref "x") ∷ []) t)
    ⊎ ((instantiate_triple (of_class (variable "c")) (("x", uri_ref "x") ∷ [])
          ≡ raise fatal_rule_error)
        × ((value_of (variable "x") (("x", uri_ref "x") ∷ []) ≡ none)
            ⊎ ((value_of (uri_ref "rdf:type") (("x", uri_ref "x") ∷ []) ≡ none)
                ⊎ (value_of (variable "c") (("x", uri_ref "x") ∷ []) ≡ none))))
instantiate_triple_total_example =
    instantiate_triple_total (of_class (variable "c")) (("x", uri_ref "x") ∷ [])

abbrev malformed : Triple
malformed = record {
  subject = literal "1" none none;
  predicate = uri_ref "p";
  object = uri_ref "o";
}

triple_is_permitted_total_example :
    ((is_well_formed malformed ≡ true)
      × (triple_is_permitted Policy.on_error Policy.on_warning malformed ≡ ok true))
    ⊎ ((is_well_formed malformed ≡ false)
        × ((triple_is_permitted Policy.on_error Policy.on_warning malformed ≡ ok false)
            ⊎ ((e : Exception) × (triple_is_permitted Policy.on_error Policy.on_warning malformed
                  ≡ raise e)
                × (is_fatal e ≡ true))))
triple_is_permitted_total_example =
    triple_is_permitted_total Policy.on_error Policy.on_warning malformed

abbrev pub fresh_engine : ReteEngine
fresh_engine = record {
  terminals = [];
  registry = empty_registry;
  known_triples = [];
  materialized_triples = [];
  tms = empty_tms;
  derivation_records = [];
  contradiction_records = [];
  bootstrap_completed = false;
  contradiction_sequence = 0;
}

starts : new_engine plain [] ≡ ok fresh_engine
unfolding program
starts = refl

abbrev x_is_a : List Triple
x_is_a = typed "x" "a" ∷ []

abbrev told : ReteEngine
told = record fresh_engine {
  known_triples = x_is_a;
  materialized_triples = x_is_a;
  tms = record empty_tms {
    working_memory = record {
      facts_by_id =
          (
            "fact:<n> <n> <n>",
            record { id = "fact:<n> <n> <n>"; triple = typed "x" "a"; stated = true },
          )
          ∷ [];
      fact_ids_by_triple = (typed "x" "a", "fact:<n> <n> <n>") ∷ [];
    };
  };
}

tells : state_fresh plain config x_is_a fresh_engine ≡ ok told
unfolding program
tells = refl

all_good : AllWellFormed x_is_a
unfolding AllTriples program
all_good t there = subst (λ u. is_well_formed u ≡ true) (sym (Memᴰ.eq_of_singleton there)) refl

abbrev blank_predicate : Triple
blank_predicate = record { subject = uri_ref "x"; predicate = b_node "p"; object = uri_ref "a" }

-- The policy on predicates leaves the first triple out.
adds_one : add_triples plain config 2 (blank_predicate ∷ x_is_a) fresh_engine ≡ some (ok (told, []))
unfolding program add_triples
adds_one = refl

Lives-IsWellFormed_example : IsWellFormed told
Lives-IsWellFormed_example = Lives-IsWellFormed plain config told (
    adds 2 (blank_predicate ∷ x_is_a) [] fresh_engine told (starts_life [] fresh_engine starts)
      adds_one)

all_known : (t : Triple) → Memᴰ t x_is_a → contains x_is_a t ≡ true
unfolding program
all_known t there = subst (λ u. contains x_is_a u ≡ true) (sym (Memᴰ.eq_of_singleton there)) refl

add_triples_known_example : add_triples plain config 0 x_is_a told ≡ some (ok (told, []))
add_triples_known_example = add_triples_known plain config 0 x_is_a told all_good all_known

-- "b" is derived and "d" is absent.
abbrev chained : ReteEngine
chained = record fresh_engine { tms = chain }

derived_b : IsUnstated (typed "x" "b") chain
unfolding IsUnstated program
derived_b = inr (fact "b" false, refl, refl)

absent_d : IsUnstated (typed "x" "d") chain
unfolding IsUnstated program
absent_d = inl refl

unstated : (t : Triple) → Memᴰ t (typed "x" "b" ∷ typed "x" "d" ∷ []) → IsUnstated t chain
unstated t there = elim (Memᴰ.cases_cons there) [
  | inl same ↦ subst (λ u. IsUnstated u chain) (sym same) derived_b
  | inr later ↦ subst (λ u. IsUnstated u chain) (sym (Memᴰ.eq_of_singleton later)) absent_d
]

retract_triples_unstated_example :
    retract_triples (typed "x" "b" ∷ typed "x" "d" ∷ []) chained ≡ ok (chained, [])
retract_triples_unstated_example =
    retract_triples_unstated (typed "x" "b" ∷ typed "x" "d" ∷ []) chained unstated
