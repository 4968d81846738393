-- ===== src/Engine/Saturation.antt =====
-- rete_engine.py: the loop to a fixed point and the operations that run it.
use rdflib_reasoning.Base.{
  String, string_eq, ◌==◌, ℕ, zero, suc, Bool, true, false, not, Option, none, some, List, [], ◌∷◌,
  filter, if◌then◌else◌,
}
use rdflib_reasoning.Base.Sets.{update, difference}
use rdflib_reasoning.Errors.{Result, ok, raise, ◌>>=◌}
use rdflib_reasoning.Rdf.{Node, node_eq, Triple, triple_eq, Rendering}
use rdflib_reasoning.Rules.{Rule}
use rdflib_reasoning.Compiler.{CompiledRule, compile_rule}
use rdflib_reasoning.Tms.Memory.{get_fact}
use rdflib_reasoning.Tms.Controller.{TmsController, empty_tms, register_stated, clear}
use rdflib_reasoning.Tms.Retract.{retract_triple}
use rdflib_reasoning.Network.{empty_registry, evict_partial_matches_referencing}
use rdflib_reasoning.Network.Builder.{build_rules}
use rdflib_reasoning.Engine.{ReteEngineConfig, ReteEngine, ContradictionRecord, triple_is_permitted}
use rdflib_reasoning.Engine.Round.{iterate}

unfoldable pub compile_rules : List Rule → Result (List CompiledRule)
unfolding compile_rule
compile_rules [] = ok []
compile_rules (rule ∷ rules) =
    let rest = compile_rules rules in
    compile_rule rule >>= λ first. rest >>= λ others. ok (first ∷ others)

-- `RETEEngine(config, rules)`. Its `config` and `rules` are arguments of the operations here.
unfoldable pub new_engine : Rendering → List Rule → Result ReteEngine
unfolding compile_rules build_rules
new_engine rendering rules = compile_rules rules >>= λ compiled.
    (let (registry, terminals) = build_rules rendering compiled empty_registry in
      ok record {
        terminals = terminals;
        registry = registry;
        known_triples = [];
        materialized_triples = [];
        tms = empty_tms;
        derivation_records = [];
        contradiction_records = [];
        bootstrap_completed = false;
        contradiction_sequence = 0;
      })

unfoldable pub close : ReteEngine → ReteEngine
unfolding clear
close engine = record engine {
  known_triples = [];
  materialized_triples = [];
  tms = clear engine.tms;
  derivation_records = [];
  contradiction_records = [];
  contradiction_sequence = 0;
}

unfoldable pub clear_contradiction_records : ReteEngine → ReteEngine
clear_contradiction_records engine = record engine {
  contradiction_records = [];
  contradiction_sequence = 0;
}

unfoldable pub contradiction_records_of : Option Node → ReteEngine → List ContradictionRecord
contradiction_records_of none engine = engine.contradiction_records
contradiction_records_of (some context) engine =
    filter (λ r. r.context == context) engine.contradiction_records

module _ (rendering : Rendering) (config : ReteEngineConfig) where
  -- `while True`, on fuel: none is out of fuel.
  unfoldable pub saturate :
      ℕ → Bool → Bool → ReteEngine × List Triple → Option (Result (ReteEngine × List Triple))
  unfolding iterate update
  saturate zero materialize bootstrap_phase state = none
  saturate (suc fuel) materialize bootstrap_phase (engine, newly_materialized) =
      elim (iterate rendering config materialize bootstrap_phase engine) [
        | raise exception ↦ some (raise exception)
        | ok (after, round) ↦
            let materialized = update newly_materialized round.iteration_materialized in
            elim round.iteration_new [
              | [] ↦ some (ok (after, materialized))
              | _ ∷ _ ↦ saturate fuel materialize bootstrap_phase (after, materialized)
            ]
      ]

  -- The triples that the policies let through.
  unfoldable pub permitted_triples : List Triple → Result (List Triple)
  unfolding triple_is_permitted
  permitted_triples [] = ok []
  permitted_triples (triple ∷ triples) =
      let rest = permitted_triples triples in
      triple_is_permitted config.literal_subject_policy config.predicate_term_policy triple
      >>= λ permitted. rest >>= λ pending. ok (if permitted then triple ∷ pending else pending)

  -- The stated triples enter working memory and the engine's sets.
  unfoldable pub state_fresh : List Triple → ReteEngine → Result ReteEngine
  unfolding register_stated update
  state_fresh fresh engine = register_stated rendering.n3 fresh engine.tms >>= λ result.
      ok record engine {
        tms = result.0;
        known_triples = update engine.known_triples fresh;
        materialized_triples = update engine.materialized_triples fresh;
      }

  -- With no fresh triple the source returns before it registers or saturates.
  unfoldable pub add_fresh :
      ℕ → List Triple → ReteEngine → Option (Result (ReteEngine × List Triple))
  unfolding saturate state_fresh
  add_fresh fuel [] engine = some (ok (engine, []))
  add_fresh fuel (t ∷ ts) engine = elim (state_fresh (t ∷ ts) engine) [
    | raise exception ↦ some (raise exception)
    | ok stated ↦ saturate fuel true false (stated, [])
  ]

  -- `fresh = pending - self.known_triples`
  unfoldable pub add_pending :
      ℕ → Result (List Triple) → ReteEngine → Option (Result (ReteEngine × List Triple))
  unfolding add_fresh difference
  add_pending fuel (raise exception) engine = some (raise exception)
  add_pending fuel (ok pending) engine =
      add_fresh fuel (difference pending engine.known_triples) engine

  unfoldable pub add_triples :
      ℕ → List Triple → ReteEngine → Option (Result (ReteEngine × List Triple))
  unfolding permitted_triples add_pending update
  add_triples fuel triples engine = add_pending fuel (permitted_triples (update [] triples)) engine

  unfoldable pub run_bootstrap_rules : ℕ → ReteEngine → Option (Result (ReteEngine × List Triple))
  unfolding saturate
  run_bootstrap_rules fuel engine =
      if engine.bootstrap_completed
      then some (ok (engine, []))
      else saturate fuel false true (record engine { bootstrap_completed = true }, [])

  unfoldable pub warmup : ℕ → List Triple → ReteEngine → Option (Result (ReteEngine × List Triple))
  unfolding run_bootstrap_rules add_triples
  warmup fuel triples engine = elim (run_bootstrap_rules fuel engine) [
    | none ↦ none
    | some (raise exception) ↦ some (raise exception)
    | some (ok (after, _)) ↦ add_triples fuel triples after
  ]

-- The loop of `retract_triples`: the controller, the cascade and the ids of the removed facts.
unfoldable pub retract_each :
    List Triple
    → TmsController × (List Triple × List String)
    → Result (TmsController × (List Triple × List String))
unfolding get_fact retract_triple update
retract_each [] state = ok state
retract_each (triple ∷ triples) (tms, (cascade, removed_fact_ids)) =
    get_fact triple tms.working_memory >>= λ found. elim found [
      | none ↦ retract_each triples (tms, (cascade, removed_fact_ids))
      | some fact ↦
          if not fact.stated
          then retract_each triples (tms, (cascade, removed_fact_ids))
          else (retract_triple triple tms >>= λ result. retract_each triples (
            result.0,
            (
              update cascade result.1.removed_triples,
              update removed_fact_ids result.1.removed_fact_ids,
            ),
          ))
    ]

unfoldable pub retract_triples : List Triple → ReteEngine → Result (ReteEngine × List Triple)
unfolding retract_each evict_partial_matches_referencing update difference
retract_triples triples engine =
    retract_each (update [] triples) (engine.tms, ([], [])) >>= λ result.
    (let (tms, (cascade, removed_fact_ids)) = result in
      ok (
        record engine {
          tms = tms;
          registry = evict_partial_matches_referencing removed_fact_ids engine.registry;
          known_triples = difference engine.known_triples cascade;
          materialized_triples = difference engine.materialized_triples cascade;
        },
        cascade,
      ))
