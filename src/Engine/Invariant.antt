-- ===== src/Engine/Invariant.antt =====
-- rete_engine.py: the triples that a round lets in.
use rdflib_reasoning.Base.{◌≡◌, sym, subst, Bool, true, List, [], inl, inr, map, Memᴰ, refl}
use rdflib_reasoning.Base.Sets.{update}
use rdflib_reasoning.Base.Sorting.{mem-sort_by}
use rdflib_reasoning.Agenda.Order.{priority_le, drain-new_agenda}
use rdflib_reasoning.Errors.{
  Result, ok, raise, Ensures, Ensures->>=, Ensures-weaken, Ensures-always,
}
use rdflib_reasoning.Rdf.{Triple, triple_eq, Rendering}
use rdflib_reasoning.Consequents.{ActionInstance}
use rdflib_reasoning.Tms.Memory.{empty_memory}
use rdflib_reasoning.Agenda.{new_agenda, drain}
use rdflib_reasoning.Base.Dict.{values}
use rdflib_reasoning.Network.{NodeRegistry}
use rdflib_reasoning.Network.Matcher.{match_terminals, a_fact}
use rdflib_reasoning.Engine.{
  Policy, ReteEngineConfig, ReteEngine, instantiate_triple, triple_is_permitted,
}
use rdflib_reasoning.Engine.Round.{Round, run_actions, iterate, as_fatal}
use rdflib_reasoning.Engine.Terms.{is_well_formed, triple_is_permitted_total}
use rdflib_reasoning.Engine.Known.{AllTriples, MemoryOf, IsGood, AllTriples-update}
use rdflib_reasoning.Engine.Actions.{RoundOf, LetsIn, run_actions-RoundOf}

-- The facts and the triples that the engine knows or showed all have one property.
pub record EngineOf (P : Triple → Type 0) (engine : ReteEngine) : Type 0 where
  pub memory : MemoryOf P engine.tms.working_memory
  pub known : AllTriples P engine.known_triples
  pub materialized : AllTriples P engine.materialized_triples

abbrev pub IsWellFormed : ReteEngine → Type 0
IsWellFormed engine = EngineOf IsGood engine

permitted-is_well_formed :
    (l p : Policy) (t : Triple)
    → Ensures (λ permitted. permitted ≡ true → is_well_formed t ≡ true) (triple_is_permitted l p t)
permitted-is_well_formed l p t = elim (triple_is_permitted_total l p t) [
  | inl (good, e) ↦ subst (Ensures (λ b. b ≡ true → is_well_formed t ≡ true)) (sym e) (λ _. good)
  | inr (bad, inl e) ↦ subst (Ensures (λ b. b ≡ true → is_well_formed t ≡ true)) (sym e) (λ h. cc h)
  | inr (bad, inr (x, e, fatal)) ↦
      subst (Ensures (λ b. b ≡ true → is_well_formed t ≡ true)) (sym e) tt
]

well_formed-LetsIn : (config : ReteEngineConfig) (a : ActionInstance) → LetsIn IsGood config a
unfolding LetsIn
well_formed-LetsIn config a production there =
    Ensures-always _ (instantiate_triple production.pattern a.bindings)
      (permitted-is_well_formed config.literal_subject_policy config.predicate_term_policy)

-- The state in which a round starts.
abbrev first_round : ReteEngine → Round
first_round engine = record {
  tms = engine.tms;
  iteration_new = [];
  iteration_materialized = [];
  derivation_records = engine.derivation_records;
  contradiction_records = engine.contradiction_records;
  contradiction_sequence = engine.contradiction_sequence;
}

module _ (P : Triple → Type 0) where
  pub no_facts : MemoryOf P empty_memory
  unfolding MemoryOf values
  no_facts f there = elim there [ ]

  pub nothing_new : AllTriples P []
  unfolding AllTriples
  nothing_new t there = elim there [ ]

  left_of :
      (Q : Triple → Type 0) (ts : List Triple) → AllTriples (λ t. P t × Q t) ts → AllTriples P ts
  unfolding AllTriples
  left_of Q ts h t there = (h t there).0

pub Ensures-as_fatal :
    {A : Type 0} (P : A → Type 0) (r : Result A) → Ensures P r → Ensures P (as_fatal r)
unfolding as_fatal
Ensures-as_fatal P (ok a) h = h
Ensures-as_fatal P (raise e) h = tt

drained :
    (P : ActionInstance → Type 0) (actions : List ActionInstance)
    → ((a : ActionInstance) → Memᴰ a actions → P a)
    → (a : ActionInstance) → Memᴰ a (drain (new_agenda actions))
    → P a
drained P actions h a there =
    h a (mem-sort_by priority_le actions (subst (λ l. Memᴰ a l) (drain-new_agenda actions) there))

-- The match of a round.
abbrev pub round_matches :
    Rendering → ReteEngineConfig → ReteEngine → Result (NodeRegistry × List ActionInstance)
round_matches rendering config engine =
    match_terminals rendering config.predicates engine.terminals
      (map a_fact (values engine.tms.working_memory.facts_by_id)) engine.registry

-- What the actions of a round let in is what a round finds.
pub iterate-EngineOf :
    (P : Triple → Type 0) (Q : NodeRegistry → Type 0) (rendering : Rendering)
    (config : ReteEngineConfig) (materialize bootstrap_phase : Bool) (engine : ReteEngine)
    → Ensures
        (λ x. Q x.0 × ((a : ActionInstance) → Memᴰ a x.1 → LetsIn P config a))
        (round_matches rendering config engine)
    → EngineOf P engine
    → Ensures
        (λ x.
          EngineOf P x.0
          × RoundOf P engine.known_triples x.1
          × Q x.0.registry
          × (x.0.known_triples ≡ update engine.known_triples x.1.iteration_new)
          × (x.0.terminals ≡ engine.terminals))
        (iterate rendering config materialize bootstrap_phase engine)
unfolding iterate
iterate-EngineOf P Q rendering config m b engine found w =
    Ensures->>= (λ x. Q x.0 × ((a : ActionInstance) → Memᴰ a x.1 → LetsIn P config a)) _
      (as_fatal (round_matches rendering config engine)) _
      (Ensures-as_fatal _ (round_matches rendering config engine) found)
      (λ matched good.
        Ensures->>= (RoundOf P engine.known_triples) _
          (run_actions rendering config (record engine { registry = matched.0 }) m b
            (drain (new_agenda matched.1)) (first_round engine))
          _
          (run_actions-RoundOf P rendering config (record engine { registry = matched.0 }) m b
            (drain (new_agenda matched.1)) (first_round engine) (drained _ matched.1 good.1)
            record { memory = w.memory; new = nothing_new _; materialized = nothing_new P })
          (λ round r. (
            record {
              memory = r.memory;
              known =
                  AllTriples-update P engine.known_triples round.iteration_new w.known
                    (left_of P _ round.iteration_new r.new);
              materialized =
                  AllTriples-update P engine.materialized_triples round.iteration_materialized
                    w.materialized r.materialized;
            },
            r,
            good.0,
            refl,
            refl,
          )))

-- A round that ends leaves only well-formed triples among the facts and in the engine's sets, and
-- finds no others, whatever its rules conclude and whatever the policies are.
pub iterate-IsWellFormed :
    (rendering : Rendering) (config : ReteEngineConfig) (materialize bootstrap_phase : Bool)
    (engine : ReteEngine)
    → IsWellFormed engine
    → Ensures
        (λ x. IsWellFormed x.0 × RoundOf IsGood engine.known_triples x.1)
        (iterate rendering config materialize bootstrap_phase engine)
iterate-IsWellFormed rendering config m b engine w =
    Ensures-weaken _ (λ x. IsWellFormed x.0 × RoundOf IsGood engine.known_triples x.1) _
      (λ x h. (h.0, h.1))
      (iterate-EngineOf IsGood (λ _. Unit {0}) rendering config m b engine
        (Ensures-always _ (round_matches rendering config engine)
          (λ x. (tt, λ a _. well_formed-LetsIn config a)))
        w)
