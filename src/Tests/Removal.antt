-- ===== src/Tests/Removal.antt =====
-- rete_store.py: a batch of removals in a store that holds what a rule derived.
use rdflib_reasoning.Base.{◌≡◌, refl, true, none, some, List, [], ◌∷◌}
use rdflib_reasoning.Base.Dict.{lookup}
use rdflib_reasoning.Errors.{Result, ok, raise, is_ok}
use rdflib_reasoning.Rdf.{node_eq, Triple}
use rdflib_reasoning.Engine.{ReteEngine}
use rdflib_reasoning.Engine.Saturation.{retract_triples}
use rdflib_reasoning.Store.{ReteStore}
use rdflib_reasoning.Store.Removal.{on_triples_removed}
use rdflib_reasoning.Store.Reconciled.{Reconciled, on_triples_removed-Reconciled}
use rdflib_reasoning.Tests.Tms.{program, typed, chain}
use rdflib_reasoning.Tests.Network.{plain}
use rdflib_reasoning.Tests.Engine.{fresh_engine}
use rdflib_reasoning.Tests.Store.{Graphs, memory, memory_laws, factory, new_store, here, told}

abbrev all_three : List Triple
all_three = told ∷ typed "x" "b" ∷ typed "x" "c" ∷ []

-- The engine was told "a" and "c", and derived "b" from "a".
abbrev saturated : ReteEngine
saturated = record fresh_engine {
  known_triples = all_three;
  materialized_triples = all_three;
  tms = chain;
}

-- The store inside a call that removes the first triple.
abbrev removing : ReteStore Graphs
removing = record new_store {
  store = (here, all_three) ∷ [];
  engines = (here, saturated) ∷ [];
  handling_removal = true;
  remove_depth = 1;
}

abbrev retraction : Result (ReteEngine × List Triple) → ReteEngine × List Triple
retraction (ok x) = x
retraction (raise e) = (fresh_engine, [])

abbrev after_retraction : ReteEngine × List Triple
after_retraction = retraction (retract_triples (told ∷ []) saturated)

ok_retraction : (r : Result (ReteEngine × List Triple)) → is_ok r ≡ true → r ≡ ok (retraction r)
ok_retraction (ok x) h = refl
ok_retraction (raise e) h = cc h

has_engine : lookup here removing.engines ≡ some saturated
unfolding program
has_engine = refl

retracts : retract_triples (told ∷ []) saturated ≡ ok after_retraction
unfolding program retract_triples
retracts = ok_retraction (retract_triples (told ∷ []) saturated) refl

both_go : after_retraction.1 ≡ told ∷ typed "x" "b" ∷ []
unfolding program retract_triples
both_go = refl

on_triples_removed-Reconciled_example :
    (after : ReteStore Graphs) × (on_triples_removed memory plain factory 4
        (λ _. none)
        (λ _. none)
        (λ _ _ _. none)
        here
        (told ∷ [])
        removing
      ≡ some (ok after))
    × Reconciled memory memory_laws here
        (told ∷ [])
        after_retraction.0
        after_retraction.1
        removing
        after
on_triples_removed-Reconciled_example =
    on_triples_removed-Reconciled memory memory_laws here plain factory 4 (λ _. none) (λ _. none)
      (λ _ _ _. none) (told ∷ []) saturated after_retraction.0 after_retraction.1 0 removing
      has_engine retracts refl refl
