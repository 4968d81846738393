-- ===== src/Engine/Reachable.antt =====
-- rete_engine.py: the states that a new engine goes through in its life.
use rdflib_reasoning.Base.{◌≡◌, subst, Bool, true, List}
use rdflib_reasoning.Errors.{ok, Ensures, Ensures->>=, Ensures-any}
use rdflib_reasoning.Rdf.{Triple, triple_eq, Rendering}
use rdflib_reasoning.Rules.{Rule}
use rdflib_reasoning.Tms.Controller.{register_stated, clear}
use rdflib_reasoning.Engine.{ReteEngineConfig, ReteEngine}
use rdflib_reasoning.Engine.Round.{Round, iterate}
use rdflib_reasoning.Engine.Saturation.{
  new_engine, close, retract_triples, state_fresh, compile_rules,
}
use rdflib_reasoning.Engine.Known.{
  AllWellFormed, WellFormedMemory, AllTriples-update, register_stated-MemoryOf,
}
use rdflib_reasoning.Engine.Retraction.{retract_triples-EngineOf}
use rdflib_reasoning.Engine.Invariant.{IsWellFormed, iterate-IsWellFormed, nothing_new, no_facts}

module _ (rendering : Rendering) (config : ReteEngineConfig) where
  pub data Reachable : ReteEngine → Type 0 where
    -- `RETEEngine(config, rules)`
    is_new :
        (rules : List Rule) (engine : ReteEngine)
        → new_engine rendering rules ≡ ok engine
        → Reachable engine
    -- `_run_bootstrap_rules` sets its flag.
    bootstraps :
        (engine : ReteEngine)
        → Reachable engine
        → Reachable (record engine { bootstrap_completed = true })
    -- `add_triples` registers what it let through.
    states :
        (fresh : List Triple) (before after : ReteEngine)
        → Reachable before
        → AllWellFormed fresh
        → state_fresh rendering config fresh before ≡ ok after
        → Reachable after
    -- One round of the loop to a fixed point, whatever its flags.
    rounds :
        (materialize bootstrap_phase : Bool) (before after : ReteEngine) (round : Round)
        → Reachable before
        → iterate rendering config materialize bootstrap_phase before ≡ ok (after, round)
        → Reachable after
    retracts :
        (triples removed : List Triple) (before after : ReteEngine)
        → Reachable before
        → retract_triples triples before ≡ ok (after, removed)
        → Reachable after
    closes : (engine : ReteEngine) → Reachable engine → Reachable (close engine)

  new_engine-IsWellFormed : (rules : List Rule) → Ensures IsWellFormed (new_engine rendering rules)
  unfolding new_engine
  new_engine-IsWellFormed rules =
      Ensures->>= (λ _. Unit) IsWellFormed (compile_rules rules) _
        (Ensures-any (compile_rules rules))
        (λ compiled _. record {
          memory = no_facts _;
          known = nothing_new _;
          materialized = nothing_new _;
        })

  state_fresh-IsWellFormed :
      (fresh : List Triple) (engine : ReteEngine)
      → AllWellFormed fresh
      → IsWellFormed engine
      → Ensures IsWellFormed (state_fresh rendering config fresh engine)
  unfolding state_fresh
  state_fresh-IsWellFormed fresh engine good w =
      Ensures->>= (λ x. WellFormedMemory x.0.working_memory) IsWellFormed
        (register_stated rendering.n3 fresh engine.tms) _
        (register_stated-MemoryOf _ rendering.n3 fresh engine.tms good w.memory)
        (λ result memory. record {
          memory = memory;
          known = AllTriples-update _ engine.known_triples fresh w.known good;
          materialized = AllTriples-update _ engine.materialized_triples fresh w.materialized good;
        })

  -- In every state that a new engine reaches by these steps, which state only well-formed triples,
  -- the facts and the triples in the engine's sets are well-formed.
  pub Reachable-IsWellFormed : (engine : ReteEngine) → Reachable engine → IsWellFormed engine
  unfolding close clear
  Reachable-IsWellFormed engine (is_new rules _ e) =
      subst (Ensures IsWellFormed) e (new_engine-IsWellFormed rules)
  Reachable-IsWellFormed _ (bootstraps engine r) =
      let w = Reachable-IsWellFormed engine r in
      record { memory = w.memory; known = w.known; materialized = w.materialized }
  Reachable-IsWellFormed engine (states fresh before _ r good e) =
      subst (Ensures IsWellFormed) e
        (state_fresh-IsWellFormed fresh before good (Reachable-IsWellFormed before r))
  Reachable-IsWellFormed engine (rounds m b before _ round r e) =
      (subst (Ensures (λ x. IsWellFormed x.0 × _)) e
        (iterate-IsWellFormed rendering config m b before (Reachable-IsWellFormed before r))).0
  Reachable-IsWellFormed engine (retracts ts removed before _ r e) =
      subst (Ensures (λ x. IsWellFormed x.0)) e
        (retract_triples-EngineOf _ ts before (Reachable-IsWellFormed before r))
  Reachable-IsWellFormed _ (closes engine r) = record {
    memory = no_facts _;
    known = nothing_new _;
    materialized = nothing_new _;
  }
