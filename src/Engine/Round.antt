-- ===== src/Engine/Round.antt =====
-- rete_engine.py: one round of `_saturate_from_working_memory`, the body of its `while True`.
use rdflib_reasoning.Base.{
  ℕ, suc, String, string_eq, ◌==◌, Bool, true, false, not, ◌&&◌, ◌||◌, Option, none, some, List, [],
  ◌∷◌, ◌++◌, map, contains, if◌then◌else◌,
}
use rdflib_reasoning.Base.Dict.{Dict, lookup, values}
use rdflib_reasoning.Base.Sets.{add, update}
use rdflib_reasoning.Base.Sorting.{sort_by, string_le}
use rdflib_reasoning.Errors.{
  Exception, Result, ok, raise, ◌>>=◌, fatal_rule_error, literal_as_subject_error,
  blank_node_predicate_error, literal_predicate_error, index_error, value_error,
}
use rdflib_reasoning.Rdf.{Node, uri_ref, node_eq, Triple, triple_eq, Rendering}
use rdflib_reasoning.Facts.{Fact}
use rdflib_reasoning.Consequents.{
  TripleProduction, CallbackSchedule, ContradictionSchedule, ActionInstance,
}
use rdflib_reasoning.Tms.Controller.{TmsController, record_derivation}
use rdflib_reasoning.Compiler.{rdf_type}
use rdflib_reasoning.Network.Matcher.{a_fact, match_terminals}
use rdflib_reasoning.Agenda.{new_agenda, drain}
use rdflib_reasoning.Engine.{
  TripleFact, VariableBinding, ContradictionRecord, DerivationRecord, record_contradiction,
  log_derivation, ReteEngineConfig, ReteEngine, resolve_callback_arguments, instantiate_triple,
  triple_is_permitted,
}

-- `isinstance(exc, FatalRuleError)`
unfoldable pub is_fatal : Exception → Bool
is_fatal fatal_rule_error = true
is_fatal literal_as_subject_error = true
is_fatal blank_node_predicate_error = true
is_fatal literal_predicate_error = true
is_fatal _ = false

-- `except Exception as exc`: another exception is raised again as a FatalRuleError.
unfoldable pub as_fatal : {A : Type 0} → Result A → Result A
unfolding is_fatal
as_fatal (ok value) = ok value
as_fatal (raise exception) = raise (if is_fatal exception then exception else fatal_rule_error)

-- What a round changes: the engine's tables, and the sets of the round.
pub record Round : Type 0 where
  pub tms : TmsController
  pub iteration_new : List Triple
  pub iteration_materialized : List Triple
  pub derivation_records : List DerivationRecord
  pub contradiction_records : List ContradictionRecord
  pub contradiction_sequence : ℕ

abbrev pub owl_nothing : Node
owl_nothing = uri_ref "http://www.w3.org/2002/07/owl#Nothing"

unfoldable pub binding_facts : Dict String Node → List VariableBinding
unfolding sort_by string_le
binding_facts bindings =
    map (λ item. record { name = item.0; value = item.1 })
      (sort_by (λ a b. string_le a.0 b.0) bindings)

unfoldable pub triple_facts : Node → List Triple → List TripleFact
triple_facts context triples = map (λ t. record { context = context; triple = t }) triples

unfoldable pub premise_triples : ActionInstance → List Triple
premise_triples action = map (λ f. f.triple) action.premises

-- The first premise that says something is an owl:Nothing.
unfoldable pub nothing_witness : List TripleFact → Option TripleFact
nothing_witness [] = none
nothing_witness (premise ∷ premises) =
    if premise.triple.predicate == rdf_type && premise.triple.object == owl_nothing
    then some premise
    else nothing_witness premises

unfoldable pub first_premise : Node → List Fact → Result (Option TripleFact)
first_premise context [] = raise index_error
first_premise context (f ∷ facts) = ok (some record { context = context; triple = f.triple })

unfoldable pub argument_witness : Node → List Node → List Fact → Result (Option TripleFact)
unfolding first_premise
argument_witness context (s ∷ p ∷ o ∷ rest) premises =
    ok (
      some record { context = context; triple = record { subject = s; predicate = p; object = o } })
argument_witness context (s ∷ []) premises = first_premise context premises
argument_witness context _ premises = ok none

abbrev or_else : {A : Type 0} → Option A → Option A → Option A
or_else none other = other
or_else (some a) other = some a

module _ (rendering : Rendering) (config : ReteEngineConfig) (engine : ReteEngine) where
  -- One production: the round, and the triples of the action to log.
  unfoldable pub run_production :
      Bool → ActionInstance → TripleProduction → Round × List Triple → Result (Round × List Triple)
  unfolding instantiate_triple triple_is_permitted record_derivation add
  run_production materialize action production (round, loggable) =
      instantiate_triple production.pattern action.bindings >>= λ triple.
      triple_is_permitted config.literal_subject_policy config.predicate_term_policy triple
      >>= λ permitted.
          if not permitted
          then ok (round, loggable)
          else (record_derivation rendering triple action.rule_id action.premises action.bindings
                action.depth round.tms
              >>= λ recorded.
                  let is_new_fact : Bool =
                    not (contains engine.known_triples triple)
                    && not (contains round.iteration_new triple) in
                  let should_materialize : Bool =
                    materialize
                    && (not action.silent
                        && (not (contains engine.materialized_triples triple)
                            && not (contains round.iteration_materialized triple))) in
                  ok (
                    record round {
                      tms = recorded.0;
                      iteration_new =
                          if is_new_fact
                          then add triple round.iteration_new
                          else round.iteration_new;
                      iteration_materialized =
                          if should_materialize
                          then add triple round.iteration_materialized
                          else round.iteration_materialized;
                    },
                    if (is_new_fact || should_materialize) && not (contains loggable triple)
                        then loggable ++ triple ∷ []
                        else loggable,
                  ))

  unfoldable pub run_productions :
      Bool
      → ActionInstance
      → List TripleProduction
      → Round × List Triple
      → Result (Round × List Triple)
  unfolding run_production
  run_productions materialize action [] state = ok state
  run_productions materialize action (production ∷ productions) state =
      run_production materialize action production state
      >>= run_productions materialize action productions

  unfoldable pub run_callbacks : ActionInstance → List CallbackSchedule → Result (Unit {0})
  unfolding resolve_callback_arguments as_fatal lookup
  run_callbacks action [] = ok tt
  run_callbacks action (callback ∷ callbacks) =
      let rest = run_callbacks action callbacks in
      elim (lookup callback.callback config.callbacks) [
        | none ↦ raise fatal_rule_error
        | some hook ↦ resolve_callback_arguments callback.arguments action.bindings >>= λ arguments.
            as_fatal (hook arguments) >>= λ _. rest
      ]

  -- A record without premises does not validate.
  unfoldable pub store_contradiction : ContradictionRecord → Round → Result Round
  unfolding record_contradiction
  store_contradiction r round = elim r.premises [
    | [] ↦ raise value_error
    | _ ∷ _ ↦
        record_contradiction config.contradiction_recorder r round.contradiction_records
        >>= λ records.
            ok record round {
              contradiction_records = records;
              contradiction_sequence = r.sequence_id;
            }
  ]

  unfoldable pub run_contradiction : ActionInstance → ContradictionSchedule → Round → Result Round
  unfolding resolve_callback_arguments argument_witness nothing_witness binding_facts triple_facts
      premise_triples store_contradiction
  run_contradiction action contradiction round =
      let premises = triple_facts config.context (premise_triples action) in
      resolve_callback_arguments contradiction.arguments action.bindings >>= λ resolved.
      argument_witness config.context resolved action.premises >>= λ witness.
      store_contradiction
        record {
          context = config.context;
          rule_id = action.rule_id;
          premises = premises;
          bindings = binding_facts action.bindings;
          sequence_id = suc round.contradiction_sequence;
          witness = or_else (nothing_witness premises) witness;
          category = contradiction.category;
          detail = contradiction.detail;
        }
        round

  unfoldable pub run_contradictions :
      ActionInstance → List ContradictionSchedule → Round → Result Round
  unfolding run_contradiction
  run_contradictions action [] round = ok round
  run_contradictions action (contradiction ∷ contradictions) round =
      run_contradiction action contradiction round >>= run_contradictions action contradictions

  unfoldable pub log_action : Bool → ActionInstance → List Triple → Round → Round
  unfolding log_derivation triple_facts premise_triples binding_facts
  log_action bootstrap_phase action [] round = round
  log_action bootstrap_phase action (t ∷ ts) round = record round {
    derivation_records =
        log_derivation config.derivation_logger
          record {
            context = config.context;
            conclusions = triple_facts config.context (t ∷ ts);
            premises = triple_facts config.context (premise_triples action);
            rule_id = action.rule_id;
            bindings = binding_facts action.bindings;
            depth = some action.depth;
            silent = action.silent || bootstrap_phase;
            bootstrap = bootstrap_phase;
          }
          round.derivation_records;
  }

  unfoldable pub run_action : Bool → Bool → ActionInstance → Round → Result Round
  unfolding run_productions run_callbacks run_contradictions log_action
  run_action materialize bootstrap_phase action round =
      if action.bootstrap && not bootstrap_phase
      then ok round
      else (run_productions materialize action action.productions (round, []) >>= λ produced.
          run_callbacks action action.callbacks >>= λ _.
          run_contradictions action action.contradictions produced.0 >>= λ after.
          ok (log_action bootstrap_phase action produced.1 after))

  unfoldable pub run_actions : Bool → Bool → List ActionInstance → Round → Result Round
  unfolding run_action
  run_actions materialize bootstrap_phase [] round = ok round
  run_actions materialize bootstrap_phase (action ∷ actions) round =
      run_action materialize bootstrap_phase action round
      >>= run_actions materialize bootstrap_phase actions

-- The engine after a round, and what the round found.
unfoldable pub iterate :
    Rendering → ReteEngineConfig → Bool → Bool → ReteEngine → Result (ReteEngine × Round)
unfolding as_fatal match_terminals new_agenda drain run_actions update values
iterate rendering config materialize bootstrap_phase engine =
    as_fatal (
      match_terminals rendering config.predicates engine.terminals
        (map a_fact (values engine.tms.working_memory.facts_by_id)) engine.registry)
    >>= λ matched.
        (let start : ReteEngine = record engine { registry = matched.0 } in
          run_actions rendering config start materialize bootstrap_phase
            (drain (new_agenda matched.1))
            record {
              tms = engine.tms;
              iteration_new = [];
              iteration_materialized = [];
              derivation_records = engine.derivation_records;
              contradiction_records = engine.contradiction_records;
              contradiction_sequence = engine.contradiction_sequence;
            }
          >>= λ round. ok (
            record start {
              tms = round.tms;
              known_triples = update engine.known_triples round.iteration_new;
              materialized_triples =
                  update engine.materialized_triples round.iteration_materialized;
              derivation_records = round.derivation_records;
              contradiction_records = round.contradiction_records;
              contradiction_sequence = round.contradiction_sequence;
            },
            round,
          ))
