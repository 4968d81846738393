-- ===== src/Store/Removal.antt =====
-- Removals from the store: `remove`, `_on_triples_removed` and `_flush_rematerialize` of
-- rdflib-reasoning-engine/src/rdflib_reasoning/engine/rete_store.py, and `_on_triple_removed` of
-- batch_dispatcher.py.
use rdflib_reasoning.Base.{
  ℕ, zero, suc, ◌-◌, true, false, not, Option, none, some, List, [], ◌∷◌, filter, contains,
  if◌then◌else◌,
}
use rdflib_reasoning.Base.Dict.{Dict, lookup, insert, get_or, is_some}
use rdflib_reasoning.Base.Sets.{add, update}
use rdflib_reasoning.Rdf.{Node, node_eq, Triple, triple_eq, Rendering}
use rdflib_reasoning.Tms.Memory.{has_fact}
use rdflib_reasoning.Engine.{ReteEngine}
use rdflib_reasoning.Engine.Saturation.{retract_triples}
use rdflib_reasoning.Store.{
  StorePattern, just, BackingStore, ReteEngineFactoryConfig, ReteStore, Run, ◌>=>◌, done, at_once,
  ensure_engine, drain_additions, store_add,
}

-- `_current_removals.setdefault(context, set()).add(triple)`
unfoldable pub queue_removal : {S : Type 0} → Node → Triple → ReteStore S → ReteStore S
unfolding add lookup insert
queue_removal context triple st = record st {
  current_removals =
      insert context (add triple (get_or (lookup context st.current_removals) []))
        st.current_removals;
}

module _ {S : Type 0} (backing : BackingStore S) where
  -- `_on_triple_removed`. `run` is its `while` loop, which an event during a batch does not enter.
  unfoldable pub on_triple_removed :
      (ReteStore S → Run (ReteStore S)) → Node → Triple → ReteStore S → Run (ReteStore S)
  unfolding queue_removal
  on_triple_removed run context triple st =
      if not (backing.has st.store context triple)
      then done st
      else let queued : ReteStore S = queue_removal context triple st in
        if queued.handling_removal
        then done queued
        else (run (record queued { handling_removal = true }) >=> λ after.
            done (record after { handling_removal = false }))

  -- The events of `remove`, before the backing store removes anything.
  unfoldable pub announce_removals :
      (ReteStore S → Run (ReteStore S)) → Node → List Triple → ReteStore S → Run (ReteStore S)
  unfolding on_triple_removed
  announce_removals run context [] st = done st
  announce_removals run context (triple ∷ triples) st =
      on_triple_removed run context triple st >=> announce_removals run context triples

  -- `ctx_graph.add(triple)` for each triple, by `again`.
  unfoldable pub add_each :
      (Node → Triple → ReteStore S → Run (ReteStore S))
      → Node
      → List Triple
      → ReteStore S
      → Run (ReteStore S)
  add_each again context [] st = done st
  add_each again context (triple ∷ triples) st =
      again context triple st >=> add_each again context triples

  -- A graph without an engine is left out, since it has no `engine_contexts` entry either.
  unfoldable pub add_pending_back :
      (Node → Triple → ReteStore S → Run (ReteStore S))
      → Dict Node (List Triple)
      → ReteStore S
      → Run (ReteStore S)
  unfolding add_each lookup
  add_pending_back again [] st = done st
  add_pending_back again ((context, triples) ∷ rest) st =
      (if is_some (lookup context st.engines) then add_each again context triples st else done st)
      >=> add_pending_back again rest

  unfoldable pub flush_rematerialize :
      (Node → Triple → ReteStore S → Run (ReteStore S)) → ReteStore S → Run (ReteStore S)
  unfolding add_pending_back
  flush_rematerialize again st =
      add_pending_back again st.pending_rematerialize (record st { pending_rematerialize = [] })

  unfoldable pub leave_removal :
      (Node → Triple → ReteStore S → Run (ReteStore S)) → ReteStore S → Run (ReteStore S)
  unfolding flush_rematerialize
  leave_removal again st =
      let left : ReteStore S = record st { remove_depth = st.remove_depth - 1 } in
      elim left.remove_depth [ zero ↦ flush_rematerialize again left | suc outer ↦ done left ]

  -- `remove`, from one graph or, without an event, from all.
  unfoldable pub remove_matches :
      (ReteStore S → Run (ReteStore S))
      → (Node → Triple → ReteStore S → Run (ReteStore S))
      → StorePattern
      → Option Node
      → ReteStore S
      → Run (ReteStore S)
  unfolding announce_removals leave_removal
  remove_matches run again pattern none st =
      done (record st { store = backing.remove pattern none st.store })
  remove_matches run again pattern (some context) st =
      announce_removals run context (backing.triples st.store context pattern)
        (record st { remove_depth = suc st.remove_depth })
      >=> λ after.
          leave_removal again
            (record after { store = backing.remove pattern (some context) after.store })

  unfoldable pub remove_each :
      (ReteStore S → Run (ReteStore S))
      → (Node → Triple → ReteStore S → Run (ReteStore S))
      → Node
      → List Triple
      → ReteStore S
      → Run (ReteStore S)
  unfolding remove_matches
  remove_each run again context [] st = done st
  remove_each run again context (triple ∷ triples) st =
      remove_matches run again (just triple) (some context) st
      >=> remove_each run again context triples

-- `_pending_rematerialize.setdefault(context, set()).update(triples)`, if there are any.
unfoldable pub rematerialize : {S : Type 0} → Node → List Triple → ReteStore S → ReteStore S
unfolding update lookup insert
rematerialize context [] st = st
rematerialize context (t ∷ ts) st = record st {
  pending_rematerialize =
      insert context (update (get_or (lookup context st.pending_rematerialize) []) (t ∷ ts))
        st.pending_rematerialize;
}

-- What of a batch the engine still has is noted, to be added back.
unfoldable pub note_kept :
    {S : Type 0} → Node → List Triple → ReteEngine → ReteStore S → ReteStore S
unfolding rematerialize has_fact
note_kept context batch engine st =
    rematerialize context (filter (λ t. has_fact t engine.tms.working_memory) batch) st

-- `_on_triples_removed` once the engine has retracted the batch.
unfoldable pub reconcile :
    {S : Type 0}
    → BackingStore S
    → (ReteStore S → Run (ReteStore S))
    → (Node → Triple → ReteStore S → Run (ReteStore S))
    → Node
    → List Triple
    → ReteStore S
    → ReteEngine × List Triple
    → Run (ReteStore S)
unfolding remove_each note_kept insert lookup
reconcile backing run again context batch st (engine, cascade) =
    remove_each backing run again context (filter (λ t. not (contains batch t)) cascade)
      (record st { engines = insert context engine st.engines })
    >=> λ after. done (note_kept context batch (get_or (lookup context after.engines) engine) after)

module _ {S : Type 0} (backing : BackingStore S) (rendering : Rendering)
    (factory : ReteEngineFactoryConfig) (fuel : ℕ) where
  -- `_on_triples_removed`, the handler of a batch. `adds` is the loop on additions, which a new
  -- engine's deductions may start.
  unfoldable pub on_triples_removed :
      (ReteStore S → Run (ReteStore S))
      → (ReteStore S → Run (ReteStore S))
      → (Node → Triple → ReteStore S → Run (ReteStore S))
      → Node
      → List Triple
      → ReteStore S
      → Run (ReteStore S)
  unfolding ensure_engine retract_triples reconcile
  on_triples_removed adds run again context batch st =
      ensure_engine backing rendering factory fuel adds context st >=> λ ready.
      at_once (retract_triples batch ready.1) >=> reconcile backing run again context batch ready.0

  -- `while self._current_removals`, on fuel of its own.
  unfoldable pub drain_removals : ℕ → ℕ → ReteStore S → Run (ReteStore S)
  unfolding on_triples_removed drain_additions store_add
  drain_removals n zero st = none
  drain_removals n (suc m) st =
      let next : ReteStore S → Run (ReteStore S) = drain_removals n m in
      elim st.current_removals [
        | [] ↦ done st
        | (context, removals) ∷ rest ↦ elim removals [
          | [] ↦ next (record st { current_removals = rest })
          | t ∷ ts ↦
              on_triples_removed (drain_additions backing rendering factory fuel n) next
                (store_add backing rendering factory fuel n) context (t ∷ ts)
                (record st { current_removals = rest })
              >=> next
        ]
      ]

  -- `remove` of the store, from outside.
  unfoldable pub store_remove : ℕ → ℕ → StorePattern → Option Node → ReteStore S → Run (ReteStore S)
  unfolding remove_matches drain_removals store_add
  store_remove n m pattern context st =
      remove_matches backing (drain_removals n m) (store_add backing rendering factory fuel n)
        pattern context st
