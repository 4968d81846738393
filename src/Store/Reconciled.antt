-- ===== src/Store/Reconciled.antt =====
-- rete_store.py: what the handler of a batch of removals leaves behind.
use rdflib_reasoning.Base.{
  ℕ, suc, ◌≡◌, refl, ◌∙◌, ap, true, not, ◌&&◌, ◌||◌, ◌==◌, some, List, [], ◌∷◌, filter, contains,
  contains-filter, arith,
}
use rdflib_reasoning.Base.Dict.{lookup, insert, get_or, lookup-insert_self}
use rdflib_reasoning.Base.Sets.{update, contains-update}
use rdflib_reasoning.Errors.{ok}
use rdflib_reasoning.Rdf.{Node, node_eq, Triple, triple_eq, Rendering}
use rdflib_reasoning.Tms.Memory.{has_fact}
use rdflib_reasoning.Engine.{ReteEngine}
use rdflib_reasoning.Engine.Saturation.{retract_triples}
use rdflib_reasoning.Store.{
  BackingStore, BackingStoreLaws, ReteEngineFactoryConfig, ReteStore, Run, ◌>=>◌, ensure_engine,
}
use rdflib_reasoning.Store.Removal.{rematerialize, note_kept, reconcile, on_triples_removed}
use rdflib_reasoning.Store.Deferred.{waiting_in, remove_each-Removed}

module _ {S : Type 0} (backing : BackingStore S) (laws : BackingStoreLaws backing) (c : Node) where
  rematerialize-waits :
      (ts : List Triple) (u : Triple) (st : ReteStore S)
      → contains (waiting_in c (rematerialize c ts st).pending_rematerialize) u
        ≡ (contains (waiting_in c st.pending_rematerialize) u || contains ts u)
  unfolding rematerialize
  rematerialize-waits [] u st = ground arith
  rematerialize-waits (t ∷ ts) u st =
      let old : List Triple = waiting_in c st.pending_rematerialize in
      ground (
        arith,
        lookup-insert_self c (update old (t ∷ ts)) st.pending_rematerialize,
        contains-update old (t ∷ ts) u,
      )

  rematerialize_only :
      (ts : List Triple) (st : ReteStore S)
      → rematerialize c ts st
        ≡ record st { pending_rematerialize = (rematerialize c ts st).pending_rematerialize }
  unfolding rematerialize
  rematerialize_only [] st = refl
  rematerialize_only (t ∷ ts) st = refl

  -- A store after a batch of removals, which an engine answered with a new state and a cascade.
  pub record Reconciled (batch : List Triple) (engine : ReteEngine) (cascade : List Triple)
      (st after : ReteStore S) : Type 0 where
    pub engines : lookup c after.engines ≡ some engine
    pub stored :
        (d : Node) (u : Triple)
        → backing.has after.store d u ≡ (
            backing.has st.store d u
            && not (d == c && (contains cascade u && not (contains batch u))))
    pub waits :
        (u : Triple)
        → contains (waiting_in c after.current_removals) u ≡ (
            contains (waiting_in c st.current_removals) u
            || (backing.has st.store c u && (contains cascade u && not (contains batch u))))
    pub kept :
        (u : Triple)
        → contains (waiting_in c after.pending_rematerialize) u ≡ (
            contains (waiting_in c st.pending_rematerialize) u
            || (contains batch u && has_fact u engine.tms.working_memory))
    pub additions : after.current_additions ≡ st.current_additions
    pub depth : after.remove_depth ≡ st.remove_depth

  reconcile-Reconciled :
      (run : ReteStore S → Run (ReteStore S))
      (again : Node → Triple → ReteStore S → Run (ReteStore S)) (batch : List Triple)
      (engine : ReteEngine) (cascade : List Triple) (d : ℕ) (st : ReteStore S)
      → st.handling_removal ≡ true
      → st.remove_depth ≡ suc d
      → (after : ReteStore S) × (reconcile backing run again c batch st (engine, cascade)
          ≡ some (ok after))
        × Reconciled batch engine cascade st after
  unfolding reconcile note_kept
  reconcile-Reconciled run again batch engine cascade d st busy inside =
      let rest : List Triple = filter (λ t. not (contains batch t)) cascade in
      let placed : ReteStore S = record st { engines = insert c engine st.engines } in
      let (mid, runs, r) = remove_each-Removed backing laws c run again rest d placed busy inside in
      let finish : ReteStore S → Run (ReteStore S) =
        λ after. some (ok (note_kept c batch (get_or (lookup c after.engines) engine) after)) in
      let here : lookup c mid.engines ≡ some engine =
        ap (λ (x : ReteStore S). lookup c x.engines) r.same
        ∙ lookup-insert_self c engine st.engines in
      let kept : List Triple = filter (λ t. has_fact t engine.tms.working_memory) batch in
      let after : ReteStore S = note_kept c batch engine mid in
      let only = rematerialize_only kept mid in
      let left = λ (u : Triple). contains-filter (λ t. not (contains batch t)) cascade u in
      (
        after,
        ap (λ (x : Run (ReteStore S)). x >=> finish) runs
            ∙ ap (λ o. some (ok (note_kept c batch (get_or o engine) mid))) here,
        record {
          engines = ap (λ (x : ReteStore S). lookup c x.engines) only ∙ here;
          stored = λ e u.
              ap (λ (x : ReteStore S). backing.has x.store e u) only
              ∙ ground (arith, r.stored e u, left u);
          waits = λ u.
              ap (λ (x : ReteStore S). contains (waiting_in c x.current_removals) u) only
              ∙ ground (arith, r.waits u, left u);
          kept = λ u.
              rematerialize-waits kept u mid
              ∙ ground (
                arith,
                contains-filter (λ t. has_fact t engine.tms.working_memory) batch u,
                ap (λ (x : ReteStore S). contains (waiting_in c x.pending_rematerialize) u) r.same,
              );
          additions =
              ap (λ (x : ReteStore S). x.current_additions) only
              ∙ ap (λ (x : ReteStore S). x.current_additions) r.same;
          depth =
              ap (λ (x : ReteStore S). x.remove_depth) only
              ∙ ap (λ (x : ReteStore S). x.remove_depth) r.same;
        },
      )

  module _ (rendering : Rendering) (factory : ReteEngineFactoryConfig) (fuel : ℕ) where
    -- A batch of removals, handled on a graph whose engine retracts it, starts no other batch and
    -- adds nothing back, whatever the loops would do: the graph loses the cascade without the batch,
    -- what it had of that waits for the next batch of removals, and what the engine still has of the
    -- batch waits to be added back.
    pub on_triples_removed-Reconciled :
        (adds run : ReteStore S → Run (ReteStore S))
        (again : Node → Triple → ReteStore S → Run (ReteStore S)) (batch : List Triple)
        (engine retracted : ReteEngine) (cascade : List Triple) (d : ℕ) (st : ReteStore S)
        → lookup c st.engines ≡ some engine
        → retract_triples batch engine ≡ ok (retracted, cascade)
        → st.handling_removal ≡ true
        → st.remove_depth ≡ suc d
        → (after : ReteStore S) × (on_triples_removed backing rendering factory fuel adds run again
              c batch st
            ≡ some (ok after))
          × Reconciled batch retracted cascade st after
    unfolding on_triples_removed ensure_engine
    on_triples_removed-Reconciled adds run again batch engine retracted cascade d st there retracts
          busy inside =
        let (after, runs, r) =
          reconcile-Reconciled run again batch retracted cascade d st busy inside in
        let next : Run (ReteEngine × List Triple) → Run (ReteStore S) =
          λ x. x >=> reconcile backing run again c batch st in
        let ready : Run (ReteStore S × ReteEngine) → Run (ReteStore S) = λ x.
          x >=> λ y. some (retract_triples batch y.1) >=> reconcile backing run again c batch y.0 in
        let found : ensure_engine backing rendering factory fuel adds c st
            ≡ some (ok (st, engine)) =
          ground (arith, there) in
        (after, ap ready found ∙ ap (λ x. next (some x)) retracts ∙ runs, r)
