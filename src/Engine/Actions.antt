-- ===== src/Engine/Actions.antt =====
-- rete_engine.py: what the actions of a round add to it.
use rdflib_reasoning.Base.{
  ◌≡◌, sym, subst, Bool, true, not, ◌&&◌, List, [], ◌∷◌, inl, inr, arith, Memᴰ, contains, refl,
  false,
}
use rdflib_reasoning.Errors.{
  ok, raise, value_error, ◌>>=◌, Ensures, Ensures-any, Ensures->>=, Ensures-if,
}
use rdflib_reasoning.Rdf.{Triple, triple_eq, Rendering}
use rdflib_reasoning.Consequents.{TripleProduction, ContradictionSchedule, ActionInstance}
use rdflib_reasoning.Tms.Controller.{record_derivation}
use rdflib_reasoning.Compiler.Bindings.{List-cases}
use rdflib_reasoning.Engine.{
  ReteEngineConfig, ReteEngine, ContradictionRecord, record_contradiction,
  resolve_callback_arguments, instantiate_triple, triple_is_permitted,
}
use rdflib_reasoning.Engine.Round.{
  Round, run_production, run_productions, run_callbacks, run_contradiction, run_contradictions,
  log_action, run_action, run_actions, argument_witness, store_contradiction,
}
use rdflib_reasoning.Engine.Known.{
  AllTriples, MemoryOf, AllTriples-if, AllTriples-add, record_derivation-MemoryOf,
}

-- A round that starts from a set of known triples: what it found was not among them.
pub record RoundOf (P : Triple → Type 0) (known : List Triple) (round : Round) : Type 0 where
  pub memory : MemoryOf P round.tms.working_memory
  pub new : AllTriples (λ t. P t × (contains known t ≡ false)) round.iteration_new
  pub materialized : AllTriples P round.iteration_materialized

-- Every triple that an action instantiates and the policies let through has the property.
unfoldable pub LetsIn : (Triple → Type 0) → ReteEngineConfig → ActionInstance → Type 0
LetsIn P config a =
    (production : TripleProduction)
    → Memᴰ production a.productions
    → Ensures
        (λ t.
          Ensures (λ b. b ≡ true → P t)
            (triple_is_permitted config.literal_subject_policy config.predicate_term_policy t))
        (instantiate_triple production.pattern a.bindings)

module _ (P : Triple → Type 0) (rendering : Rendering) (config : ReteEngineConfig)
    (engine : ReteEngine) where
  run_production-RoundOf :
      (m : Bool) (a : ActionInstance) (production : TripleProduction) (state : Round × List Triple)
      → LetsIn P config a
      → Memᴰ production a.productions
      → RoundOf P engine.known_triples state.0
      → Ensures
          (λ x. RoundOf P engine.known_triples x.0)
          (run_production rendering config engine m a production state)
  unfolding run_production LetsIn
  run_production-RoundOf m a production (round, loggable) lets_in there w =
      Ensures->>=
        (λ t.
          Ensures (λ b. b ≡ true → P t)
            (triple_is_permitted config.literal_subject_policy config.predicate_term_policy t))
        (λ x. RoundOf P engine.known_triples x.0) (instantiate_triple production.pattern a.bindings)
        _ (lets_in production there)
        (λ t sound.
          Ensures->>= (λ b. b ≡ true → P t) (λ x. RoundOf P engine.known_triples x.0)
            (triple_is_permitted config.literal_subject_policy config.predicate_term_policy t) _
            sound
            (λ permitted good.
              Ensures-if (λ x. RoundOf P engine.known_triples x.0) (not permitted)
                (ok (round, loggable)) _ (λ _. w)
                (λ let_in.
                  Ensures->>= (λ x. MemoryOf P x.0.working_memory)
                    (λ x. RoundOf P engine.known_triples x.0)
                    (record_derivation rendering t a.rule_id a.premises a.bindings a.depth
                      round.tms)
                    _
                    (record_derivation-MemoryOf P rendering t a round.tms
                      (good (ground (arith, let_in))) w.memory)
                    (λ recorded memory. record {
                      memory = memory;
                      new =
                          AllTriples-if _ _ _ _
                            (λ is_new.
                              AllTriples-add _ t round.iteration_new
                                (good (ground (arith, let_in)), ground (arith, is_new)) w.new)
                            w.new;
                      materialized =
                          AllTriples-if P _ _ _
                            (λ _.
                              AllTriples-add P t round.iteration_materialized
                                (good (ground (arith, let_in))) w.materialized)
                            w.materialized;
                    }))))

  run_productions-RoundOf :
      (m : Bool) (a : ActionInstance) (ps : List TripleProduction) (state : Round × List Triple)
      → LetsIn P config a
      → ((p : TripleProduction) → Memᴰ p ps → Memᴰ p a.productions)
      → RoundOf P engine.known_triples state.0
      → Ensures
          (λ x. RoundOf P engine.known_triples x.0)
          (run_productions rendering config engine m a ps state)
  unfolding run_productions
  run_productions-RoundOf m a [] state lets_in sub w = w
  run_productions-RoundOf m a (p ∷ ps) state lets_in sub w =
      Ensures->>= (λ x. RoundOf P engine.known_triples x.0)
        (λ x. RoundOf P engine.known_triples x.0)
        (run_production rendering config engine m a p state) _
        (run_production-RoundOf m a p state lets_in (sub p (Memᴰ.head refl)) w)
        (λ x h. run_productions-RoundOf m a ps x lets_in (λ q there. sub q (Memᴰ.tail there)) h)

  store_records :
      (r : ContradictionRecord) (round : Round)
      → RoundOf P engine.known_triples round
      → Ensures (RoundOf P engine.known_triples) (
          record_contradiction config.contradiction_recorder r round.contradiction_records
          >>= λ records. ok record round {
            contradiction_records = records;
            contradiction_sequence = r.sequence_id;
          })
  store_records r round w =
      Ensures->>= (λ _. Unit) (RoundOf P engine.known_triples)
        (record_contradiction config.contradiction_recorder r round.contradiction_records) _
        (Ensures-any
          (record_contradiction config.contradiction_recorder r round.contradiction_records))
        (λ records _. record { memory = w.memory; new = w.new; materialized = w.materialized })

  store_contradiction-RoundOf :
      (r : ContradictionRecord) (round : Round)
      → RoundOf P engine.known_triples round
      → Ensures
          (RoundOf P engine.known_triples)
          (store_contradiction rendering config engine r round)
  unfolding store_contradiction
  store_contradiction-RoundOf r round w = elim (List-cases r.premises) [
    | inl e ↦
        let fails : store_contradiction rendering config engine r round ≡ raise value_error =
          ground (arith, e) in
        subst (Ensures (RoundOf P engine.known_triples)) (sym fails) tt
    | inr (first, others, e) ↦
        let runs : store_contradiction rendering config engine r round ≡ (
            record_contradiction config.contradiction_recorder r round.contradiction_records
            >>= λ records. ok record round {
              contradiction_records = records;
              contradiction_sequence = r.sequence_id;
            }) =
          ground (arith, e) in
        subst (Ensures (RoundOf P engine.known_triples)) (sym runs) (store_records r round w)
  ]

  run_contradiction-RoundOf :
      (a : ActionInstance) (c : ContradictionSchedule) (round : Round)
      → RoundOf P engine.known_triples round
      → Ensures
          (RoundOf P engine.known_triples)
          (run_contradiction rendering config engine a c round)
  unfolding run_contradiction
  run_contradiction-RoundOf a c round w =
      Ensures->>= (λ _. Unit) (RoundOf P engine.known_triples)
        (resolve_callback_arguments c.arguments a.bindings) _
        (Ensures-any (resolve_callback_arguments c.arguments a.bindings))
        (λ resolved _.
          Ensures->>= (λ _. Unit) (RoundOf P engine.known_triples)
            (argument_witness config.context resolved a.premises) _
            (Ensures-any (argument_witness config.context resolved a.premises))
            (λ witness _. store_contradiction-RoundOf _ round w))

  run_contradictions-RoundOf :
      (a : ActionInstance) (cs : List ContradictionSchedule) (round : Round)
      → RoundOf P engine.known_triples round
      → Ensures
          (RoundOf P engine.known_triples)
          (run_contradictions rendering config engine a cs round)
  unfolding run_contradictions
  run_contradictions-RoundOf a [] round w = w
  run_contradictions-RoundOf a (c ∷ cs) round w =
      Ensures->>= (RoundOf P engine.known_triples) (RoundOf P engine.known_triples)
        (run_contradiction rendering config engine a c round) _
        (run_contradiction-RoundOf a c round w) (λ x h. run_contradictions-RoundOf a cs x h)

  log_action-RoundOf :
      (b : Bool) (a : ActionInstance) (ts : List Triple) (round : Round)
      → RoundOf P engine.known_triples round
      → RoundOf P engine.known_triples (log_action rendering config engine b a ts round)
  unfolding log_action
  log_action-RoundOf b a [] round w = w
  log_action-RoundOf b a (t ∷ ts) round w = record {
    memory = w.memory;
    new = w.new;
    materialized = w.materialized;
  }

  run_action-RoundOf :
      (m b : Bool) (a : ActionInstance) (round : Round)
      → LetsIn P config a
      → RoundOf P engine.known_triples round
      → Ensures (RoundOf P engine.known_triples) (run_action rendering config engine m b a round)
  unfolding run_action
  run_action-RoundOf m b a round lets_in w =
      Ensures-if (RoundOf P engine.known_triples) (a.bootstrap && not b) (ok round) _ (λ _. w)
        (λ _.
          Ensures->>= (λ x. RoundOf P engine.known_triples x.0) (RoundOf P engine.known_triples)
            (run_productions rendering config engine m a a.productions (round, [])) _
            (run_productions-RoundOf m a a.productions (round, []) lets_in (λ _ there. there) w)
            (λ produced h.
              Ensures->>= (λ _. Unit) (RoundOf P engine.known_triples)
                (run_callbacks rendering config engine a a.callbacks) _
                (Ensures-any (run_callbacks rendering config engine a a.callbacks))
                (λ _ _.
                  Ensures->>= (RoundOf P engine.known_triples) (RoundOf P engine.known_triples)
                    (run_contradictions rendering config engine a a.contradictions produced.0) _
                    (run_contradictions-RoundOf a a.contradictions produced.0 h)
                    (λ after k. log_action-RoundOf b a produced.1 after k))))

  pub run_actions-RoundOf :
      (m b : Bool) (actions : List ActionInstance) (round : Round)
      → ((a : ActionInstance) → Memᴰ a actions → LetsIn P config a)
      → RoundOf P engine.known_triples round
      → Ensures
          (RoundOf P engine.known_triples)
          (run_actions rendering config engine m b actions round)
  unfolding run_actions
  run_actions-RoundOf m b [] round lets_in w = w
  run_actions-RoundOf m b (a ∷ actions) round lets_in w =
      Ensures->>= (RoundOf P engine.known_triples) (RoundOf P engine.known_triples)
        (run_action rendering config engine m b a round) _
        (run_action-RoundOf m b a round (lets_in a (Memᴰ.head refl)) w)
        (λ x h. run_actions-RoundOf m b actions x (λ c there. lets_in c (Memᴰ.tail there)) h)
