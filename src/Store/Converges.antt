-- ===== src/Store/Converges.antt =====
-- batch_dispatcher.py: the loop of the dispatcher ends, and leaves nothing behind.
use rdflib_reasoning.Base.{
  ℕ, zero, suc, ◌<◌, ◌+◌, ◌≡◌, refl, sym, subst, ap, true, false, ==_refl, some, List, [], ◌∷◌, inl,
  inr, length, arith, Bool-cases,
}
use rdflib_reasoning.Base.Dict.{Dict}
use rdflib_reasoning.Errors.{ok, Ensures}
use rdflib_reasoning.Rdf.{Node, node_eq, Triple, triple_eq, Rendering}
use rdflib_reasoning.Network.Terms.{Over}
use rdflib_reasoning.Engine.Saturation.{new_engine}
use rdflib_reasoning.Engine.Universe.{TerminalsOver}
use rdflib_reasoning.Engine.Fixpoint.{Ends, cube}
use rdflib_reasoning.Store.{
  BackingStore, BackingStoreLaws, ReteEngineFactoryConfig, ReteStore, Run, ◌>=>◌, queue,
  on_triple_added, on_triples_added, drain_additions, store_add,
}
use rdflib_reasoning.Store.Universe.{
  Ends->=>, Ends-done, Ends-same, Ends-weaken, missing, missing_bound,
}
use rdflib_reasoning.Store.Events.{IsPending, StoreOver, Step, queue-pending}
use rdflib_reasoning.Store.Handler.{Step-trans, on_triples_added-Ends}

-- A store between two calls, after a triple was added: no batch waits or is handled, the graph has
-- the triple and all that any graph had, and what the graph has is over some terms.
pub record Settled {S : Type 0} (backing : BackingStore S) (terms : List Node) (c : Node)
    (t : Triple) (st after : ReteStore S) : Type 0 where
  pub waits : after.current_additions ≡ []
  pub handling : after.handling_addition ≡ false
  pub added : backing.has after.store c t ≡ true
  pub keeps :
      (d : Node) (u : Triple) → backing.has st.store d u ≡ true → backing.has after.store d u ≡ true
  pub over : StoreOver backing terms c after

module _ {S : Type 0} (backing : BackingStore S) (laws : BackingStoreLaws backing)
    (terms : List Node) (c : Node) (rendering : Rendering) (factory : ReteEngineFactoryConfig)
    (fuel : ℕ) (enough : cube terms < fuel)
    (covers : Ensures
      (λ e. TerminalsOver terms e.terminals)
      (new_engine rendering factory.rules)) where
  Drained : ReteStore S → ReteStore S → Type 0
  Drained st after = Step backing laws terms c st after × (after.current_additions ≡ [])

  drain : ℕ → ReteStore S → Run (ReteStore S)
  drain = drain_additions backing rendering factory fuel

  with_pending : Dict Node (List Triple) → ReteStore S → ReteStore S
  with_pending additions st = record st { current_additions = additions }

  popped-Step :
      (st : ReteStore S)
      → st.handling_addition ≡ true
      → StoreOver backing terms c st
      → Step backing laws terms c st (with_pending [] st)
  unfolding with_pending IsPending
  popped-Step st busy w = record {
    handling = busy;
    over = record { engines = w.engines; stored = w.stored; pending = inl refl };
    grows = λ d u h. h;
    lighter = omega arith;
  }

  drain-Ends :
      (n : ℕ) (st : ReteStore S)
      → st.handling_addition ≡ true
      → StoreOver backing terms c st
      → missing backing laws terms c st.store + length st.current_additions < n
      → Ends (Drained st) (drain n st)
  unfolding drain Drained with_pending IsPending drain_additions
  drain-Ends zero st busy w less = absurd (omega (arith, less))
  drain-Ends (suc n) st busy w less =
      let popped : ReteStore S = with_pending [] st in
      let first : Step backing laws terms c st popped = popped-Step st busy w in
      elim w.pending [
        | inl e ↦
            Ends-same (Drained st) (ap (λ a. drain (suc n) (with_pending a st)) e)
              (Ends-done (Drained st) popped (first, refl))
        | inr ([], e, good) ↦
            Ends-same (Drained st) (ap (λ a. drain (suc n) (with_pending a st)) e) (
              Ends-weaken (Drained popped) (Drained st) (drain n popped)
                (λ after (s, none_wait).
                  (Step-trans backing laws terms c st popped after first s, none_wait))
                (drain-Ends n popped busy first.over (ground (arith, less, ap length e))))
        | inr (t ∷ ts, e, good) ↦
            Ends-same (Drained st) (ap (λ a. drain (suc n) (with_pending a st)) e) (
              Ends->=> (Step backing laws terms c popped) (Drained st)
                (on_triples_added backing rendering factory fuel (drain n) c (t ∷ ts) popped)
                (drain n)
                (on_triples_added-Ends backing laws terms c rendering factory fuel enough covers
                  (drain n) (t ∷ ts) popped busy first.over good)
                (λ mid s.
                  Ends-weaken (Drained mid) (Drained st) (drain n mid)
                    (λ after (later, none_wait). (
                      Step-trans backing laws terms c st mid after
                          (Step-trans backing laws terms c st popped mid first s) later,
                      none_wait,
                    ))
                    (drain-Ends n mid s.handling s.over
                      (omega (arith, less, ap length e, s.lighter)))))
      ]

  -- The store before its loop starts on the first batch.
  busy_with : Triple → ReteStore S → ReteStore S
  busy_with t st = record (queue c t st) { handling_addition = true }

  idles : ReteStore S → Run (ReteStore S)
  idles after = some (ok (record after { handling_addition = false }))

  puts : Triple → ReteStore S → Run (ReteStore S)
  puts t after = some (ok (record after { store = backing.put c t after.store }))

  busy_with-StoreOver :
      (t : Triple) (st : ReteStore S)
      → StoreOver backing terms c st
      → Over terms t
      → StoreOver backing terms c (busy_with t st)
  unfolding busy_with queue IsPending
  busy_with-StoreOver t st w over = record {
    engines = w.engines;
    stored = w.stored;
    pending = inr (queue-pending terms c t st over w.pending);
  }

  length-busy_with :
      (t : Triple) (st : ReteStore S)
      → StoreOver backing terms c st
      → Over terms t
      → length (busy_with t st).current_additions ≡ 1
  unfolding busy_with queue
  length-busy_with t st w over =
      let (ts, e, _) = queue-pending terms c t st over w.pending in ap length e

  puts-Settled :
      (t : Triple) (st after : ReteStore S)
      → Over terms t
      → StoreOver backing terms c after
      → after.current_additions ≡ []
      → after.handling_addition ≡ false
      → ((d : Node) (u : Triple)
          → backing.has st.store d u ≡ true
          → backing.has after.store d u ≡ true)
      → Ends (Settled backing terms c t st) (puts t after)
  unfolding puts
  puts-Settled t st after over w none_wait idle grows =
      Ends-done (Settled backing terms c t st)
        (record after { store = backing.put c t after.store })
        record {
          waits = none_wait;
          handling = idle;
          added = ground (arith, laws.has-put after.store c c t t, ==_refl c, ==_refl t);
          keeps = λ d u h. ground (arith, laws.has-put after.store c d t u, grows d u h);
          over = record {
            engines = w.engines;
            stored = λ u there. elim (Bool-cases (backing.has after.store c u)) [
              | inl before ↦ w.stored u before
              | inr fresh ↦
                  let same : u ≡ t =
                    ground (arith, laws.has-put after.store c c t u, there, fresh) in
                  subst (Over terms) (sym same) over
            ];
            pending = w.pending;
          };
        }

  -- The store once its loop has ended.
  record IsIdle (st after : ReteStore S) : Type 0 where
    over : StoreOver backing terms c after
    waits : after.current_additions ≡ []
    handling : after.handling_addition ≡ false
    grows :
        (d : Node) (u : Triple)
        → backing.has st.store d u ≡ true
        → backing.has after.store d u ≡ true

  idles-IsIdle : (st after : ReteStore S) → Drained st after → Ends (IsIdle st) (idles after)
  unfolding Drained idles
  idles-IsIdle st after (s, none_wait) =
      Ends-done (IsIdle st) (record after { handling_addition = false })
        record {
          over = record {
            engines = s.over.engines;
            stored = s.over.stored;
            pending = s.over.pending;
          };
          waits = none_wait;
          handling = refl;
          grows = s.grows;
        }

  runs_batches :
      (n : ℕ) (t : Triple) (st : ReteStore S)
      → backing.has st.store c t ≡ false
      → st.handling_addition ≡ false
      → store_add backing rendering factory fuel n c t st
        ≡ (drain n (busy_with t st) >=> idles >=> puts t)
  unfolding store_add on_triple_added queue drain busy_with idles puts
  runs_batches n t st e idle = ground (arith, e, idle)

  only_puts :
      (n : ℕ) (t : Triple) (st : ReteStore S)
      → backing.has st.store c t ≡ true
      → store_add backing rendering factory fuel n c t st ≡ puts t st
  unfolding store_add on_triple_added puts
  only_puts n t st e = ground (arith, e)

  -- When the productions and a graph are made of some terms, adding a triple of them to a store that
  -- handles no batch, on more engine fuel than the cube of the number of terms and more loop fuel
  -- than one more than it, returns or raises; and when it returns, no batch waits, the graph has the
  -- triple and all that it had, and nothing that is not made of those terms.
  pub store_add-Settled :
      (n : ℕ) (t : Triple) (st : ReteStore S)
      → cube terms + 1 < n
      → StoreOver backing terms c st
      → st.current_additions ≡ []
      → st.handling_addition ≡ false
      → Over terms t
      → Ends (Settled backing terms c t st) (store_add backing rendering factory fuel n c t st)
  unfolding busy_with queue
  store_add-Settled n t st most w none_wait idle over =
      elim (Bool-cases (backing.has st.store c t)) [
        | inl e ↦
            Ends-same (Settled backing terms c t st) (only_puts n t st e)
              (puts-Settled t st st over w none_wait idle (λ d u h. h))
        | inr e ↦ Ends-same (Settled backing terms c t st) (runs_batches n t st e idle) (
            Ends->=> (IsIdle (busy_with t st)) (Settled backing terms c t st)
              (drain n (busy_with t st) >=> idles) (puts t)
              (Ends->=> (Drained (busy_with t st)) (IsIdle (busy_with t st))
                (drain n (busy_with t st)) idles
                (drain-Ends n (busy_with t st) refl (busy_with-StoreOver t st w over) (
                  omega (
                    arith,
                    most,
                    length-busy_with t st w over,
                    missing_bound backing laws terms c st.store,
                  )))
                (idles-IsIdle (busy_with t st)))
              (λ a q. puts-Settled t st a over q.over q.waits q.handling q.grows))
      ]
