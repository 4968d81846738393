-- ===== src/Store/Handler.antt =====
-- rete_store.py: what the handler of a batch leaves behind.
use rdflib_reasoning.Base.{
  ℕ, ◌<◌, ◌≡◌, refl, sym, subst, true, not, none, some, List, inl, inr, filter, arith, mem-filter,
  mem-contains, Memᴰ, Option-cases,
}
use rdflib_reasoning.Base.Dict.{Dict, lookup, insert, get_or, lookup-insert_self}
use rdflib_reasoning.Errors.{ok, Ensures, Ensures-weaken, Ensures-and}
use rdflib_reasoning.Rdf.{Node, node_eq, Triple, triple_eq, Rendering}
use rdflib_reasoning.Network.Terms.{Over}
use rdflib_reasoning.Engine.{ReteEngine}
use rdflib_reasoning.Engine.Saturation.{new_engine, add_triples, warmup}
use rdflib_reasoning.Engine.Known.{AllTriples}
use rdflib_reasoning.Engine.Universe.{IsOver, TerminalsOver}
use rdflib_reasoning.Engine.Fixpoint.{LeavesOver, Ends, cube}
use rdflib_reasoning.Engine.Terminates.{add_triples-Ends, warmup-Ends}
use rdflib_reasoning.Engine.Lifetime.{new_engine-TerminalsOver}
use rdflib_reasoning.Store.{
  BackingStore, BackingStoreLaws, any_triple, ReteEngineFactoryConfig, engine_config, ReteStore,
  Run, ◌>=>◌, at_once, add_n, ensure_engine, on_triples_added,
}
use rdflib_reasoning.Store.Universe.{Ends->=>, Ends-done, Ends-same, Ends-weaken}
use rdflib_reasoning.Store.Events.{StoreOver, Step, add_n-Step}

insert-IsOver :
    (terms : List Node) (c : Node) (engine : ReteEngine) (engines : Dict Node ReteEngine)
    → IsOver terms engine
    → (e : ReteEngine) → lookup c (insert c engine engines) ≡ some e
    → IsOver terms e
insert-IsOver terms c engine engines over e there =
    subst (IsOver terms) (cc (lookup-insert_self c engine engines, there)) over

module _ {S : Type 0} (backing : BackingStore S) (laws : BackingStoreLaws backing)
    (terms : List Node) (c : Node) where
  pub Step-refl :
      (st : ReteStore S)
      → st.handling_addition ≡ true
      → StoreOver backing terms c st
      → Step backing laws terms c st st
  Step-refl st busy w = record {
    handling = busy;
    over = w;
    grows = λ d u h. h;
    lighter = omega arith;
  }

  pub Step-trans :
      (first second third : ReteStore S)
      → Step backing laws terms c first second
      → Step backing laws terms c second third
      → Step backing laws terms c first third
  Step-trans first second third a b = record {
    handling = b.handling;
    over = b.over;
    grows = λ d u h. b.grows d u (a.grows d u h);
    lighter = omega (arith, a.lighter, b.lighter);
  }

  with_engine :
      (engine : ReteEngine) (st : ReteStore S)
      → IsOver terms engine
      → StoreOver backing terms c st
      → StoreOver backing terms c (record st { engines = insert c engine st.engines })
  with_engine engine st over w = record {
    engines = insert-IsOver terms c engine st.engines over;
    stored = w.stored;
    pending = w.pending;
  }

  -- Adding what an engine produced, with the engine put in its place.
  produced-Step :
      (run : ReteStore S → Run (ReteStore S)) (engine : ReteEngine) (ts : List Triple)
      (st : ReteStore S)
      → st.handling_addition ≡ true
      → StoreOver backing terms c st
      → IsOver terms engine
      → AllTriples (Over terms) ts
      → Ends
          (Step backing laws terms c st)
          (add_n backing run c ts (record st { engines = insert c engine st.engines }))
  produced-Step run engine ts st busy w over good =
      let placed : ReteStore S = record st { engines = insert c engine st.engines } in
      Ends-weaken (Step backing laws terms c placed) (Step backing laws terms c st)
        (add_n backing run c ts placed)
        (λ after s. record {
          handling = s.handling;
          over = s.over;
          grows = s.grows;
          lighter = s.lighter;
        })
        (add_n-Step backing laws terms c run ts placed busy (with_engine engine st over w) good)

  module _ (rendering : Rendering) (factory : ReteEngineFactoryConfig) (fuel : ℕ)
      (enough : cube terms < fuel)
      (covers : Ensures
        (λ e. TerminalsOver terms e.terminals)
        (new_engine rendering factory.rules)) where
    listed :
        (s : S) (t : Triple) → Memᴰ t (backing.triples s c any_triple) → backing.has s c t ≡ true
    listed s t there = ground (
      arith,
      laws.contains-triples s c any_triple t,
      mem-contains (backing.triples s c any_triple) t there,
    )

    present :
        (run : ReteStore S → Run (ReteStore S)) (st : ReteStore S) (engine : ReteEngine)
        → lookup c st.engines ≡ some engine
        → ensure_engine backing rendering factory fuel run c st ≡ some (ok (st, engine))
    unfolding ensure_engine
    present run st engine e = ground (arith, e)

    started : Ensures (IsOver terms) (new_engine rendering factory.rules)
    started =
        Ensures-weaken _ (IsOver terms) (new_engine rendering factory.rules) (λ e h. h.1 h.0)
          (Ensures-and _ _ (new_engine rendering factory.rules) covers
            (new_engine-TerminalsOver rendering (engine_config factory c) terms factory.rules))

    -- The graph's engine is over the terms, and so is what the store then holds.
    Ready : ReteStore S → ReteStore S × ReteEngine → Type 0
    Ready st x = Step backing laws terms c st x.0 × IsOver terms x.1

    -- What `_ensure_engine` hands out after a new engine's deductions are added.
    hand_out : ReteEngine → ReteStore S → Run (ReteStore S × ReteEngine)
    hand_out engine after = some (ok (after, get_or (lookup c after.engines) engine))

    hand_out-Ends :
        (engine : ReteEngine) (st after : ReteStore S)
        → IsOver terms engine
        → Step backing laws terms c st after
        → Ends (Ready st) (hand_out engine after)
    unfolding hand_out Ready
    hand_out-Ends engine st after over s =
        Ends-done (Ready st) (after, get_or (lookup c after.engines) engine)
          (
            s,
            elim (Option-cases (lookup c after.engines)) [
              | inl e ↦ subst (λ o. IsOver terms (get_or o engine)) (sym e) over
              | inr (found, e) ↦
                  subst (λ o. IsOver terms (get_or o engine)) (sym e) (s.over.engines found e)
            ],
          )

    absent :
        (run : ReteStore S → Run (ReteStore S)) (st : ReteStore S)
        → lookup c st.engines ≡ none
        → ensure_engine backing rendering factory fuel run c st ≡ (
            at_once (new_engine rendering factory.rules) >=> λ engine.
            warmup rendering
              (engine_config factory c)
              fuel
              (backing.triples st.store c any_triple)
              engine
            >=> λ warmed.
                add_n backing run c warmed.1 (record st { engines = insert c warmed.0 st.engines })
                >=> hand_out warmed.0)
    unfolding ensure_engine hand_out
    absent run st e = ground (arith, e)

    ensure_engine-Ends :
        (run : ReteStore S → Run (ReteStore S)) (st : ReteStore S)
        → st.handling_addition ≡ true
        → StoreOver backing terms c st
        → Ends (Ready st) (ensure_engine backing rendering factory fuel run c st)
    unfolding Ready AllTriples Ends
    ensure_engine-Ends run st busy w = elim (Option-cases (lookup c st.engines)) [
      | inr (engine, e) ↦
          Ends-same (Ready st) (present run st engine e)
            (Ends-done (Ready st) (st, engine) (Step-refl st busy w, w.engines engine e))
      | inl e ↦ Ends-same (Ready st) (absent run st e) (
          Ends->=> (IsOver terms) (Ready st) (at_once (new_engine rendering factory.rules)) _
            (new_engine rendering factory.rules, refl, started)
            (λ engine over.
              Ends->=> (LeavesOver terms) (Ready st)
                (warmup rendering (engine_config factory c) fuel
                  (backing.triples st.store c any_triple) engine)
                _
                (warmup-Ends terms rendering (engine_config factory c) fuel
                  (backing.triples st.store c any_triple) engine
                  (λ t there. w.stored t (listed st.store t there)) over enough)
                (λ warmed left.
                  Ends->=> (Step backing laws terms c st) (Ready st)
                    (add_n backing run c warmed.1
                      (record st { engines = insert c warmed.0 st.engines }))
                    (hand_out warmed.0)
                    (produced-Step run warmed.0 warmed.1 st busy w left.0 left.1)
                    (λ after s. hand_out-Ends warmed.0 st after left.0 s))))
    ]

    -- Handling a batch of triples over the terms ends, and leaves what is over the terms.
    pub on_triples_added-Ends :
        (run : ReteStore S → Run (ReteStore S)) (batch : List Triple) (st : ReteStore S)
        → st.handling_addition ≡ true
        → StoreOver backing terms c st
        → AllTriples (Over terms) batch
        → Ends
            (Step backing laws terms c st)
            (on_triples_added backing rendering factory fuel run c batch st)
    unfolding on_triples_added Ready AllTriples
    on_triples_added-Ends run batch st busy w good =
        Ends->=> (Ready st) (Step backing laws terms c st)
          (ensure_engine backing rendering factory fuel run c st) _
          (ensure_engine-Ends run st busy w)
          (λ ready (s, over).
            Ends->=> (LeavesOver terms) (Step backing laws terms c st)
              (add_triples rendering (engine_config factory c) fuel batch ready.1) _
              (add_triples-Ends terms rendering (engine_config factory c) fuel batch ready.1 good
                over enough)
              (λ result left.
                let produced : List Triple =
                  filter (λ t. not (backing.has ready.0.store c t)) result.1 in
                Ends-weaken (Step backing laws terms c ready.0) (Step backing laws terms c st)
                  (add_n backing run c produced
                    (record ready.0 { engines = insert c result.0 ready.0.engines }))
                  (λ after later. Step-trans st ready.0 after s later)
                  (produced-Step run result.0 produced ready.0 s.handling s.over left.0 (λ t there.
                    left.1 t
                      (mem-filter (λ u. not (backing.has ready.0.store c u)) result.1 there).0))))
