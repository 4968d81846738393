-- ===== src/Store/Events.antt =====
-- batch_dispatcher.py: events that come while a batch is handled.
use rdflib_reasoning.Base.{
  ◌≤◌, ◌+◌, ◌≡◌, refl, sym, subst, ◌∙◌, ap, string_eq, true, false, ==_refl, some, List, [], ◌∷◌,
  ◌⊎◌, inl, inr, Memᴰ, length, arith, Bool-cases,
}
use rdflib_reasoning.Base.Dict.{Dict, lookup, insert}
use rdflib_reasoning.Base.Sets.{add}
use rdflib_reasoning.Errors.{ok}
use rdflib_reasoning.Rdf.{Node, node_eq, Triple, triple_eq}
use rdflib_reasoning.Network.Terms.{Over}
use rdflib_reasoning.Engine.{ReteEngine}
use rdflib_reasoning.Engine.Known.{AllTriples, AllTriples-add}
use rdflib_reasoning.Engine.Invariant.{nothing_new}
use rdflib_reasoning.Engine.Universe.{IsOver}
use rdflib_reasoning.Engine.Fixpoint.{Ends}
use rdflib_reasoning.Store.{
  BackingStore, BackingStoreLaws, ReteStore, Run, ◌>=>◌, queue, on_triple_added, announce, put_all,
  add_n,
}
use rdflib_reasoning.Store.Universe.{
  Ends-done, Ends-same, has-put_all, put_all-cases, missing, missing-le, missing-lt,
}

-- Triples that wait for their batch: of one graph, and over some terms.
unfoldable pub IsPending : List Node → Node → Dict Node (List Triple) → Type 0
IsPending terms c additions =
    (additions ≡ [])
    ⊎ ((ts : List Triple) × (additions ≡ (c, ts) ∷ []) × AllTriples (Over terms) ts)

-- Everything about one graph in a store is made of some terms, and only its triples wait.
pub record StoreOver {S : Type 0} (backing : BackingStore S) (terms : List Node) (c : Node)
    (st : ReteStore S) : Type 0 where
  pub engines : (e : ReteEngine) → lookup c st.engines ≡ some e → IsOver terms e
  pub stored : (t : Triple) → backing.has st.store c t ≡ true → Over terms t
  pub pending : IsPending terms c st.current_additions

pub queue-pending :
    {S : Type 0} (terms : List Node) (c : Node) (t : Triple) (st : ReteStore S)
    → Over terms t
    → IsPending terms c st.current_additions
    → (ts : List Triple) × ((queue c t st).current_additions ≡ (c, ts) ∷ [])
      × AllTriples (Over terms) ts
unfolding queue IsPending insert lookup
queue-pending terms c t st over (inl e) =
    (add t [], rw e refl, AllTriples-add (Over terms) t [] over (nothing_new (Over terms)))
queue-pending terms c t st over (inr (ts, e, good)) =
    (add t ts, ground (arith, e, ==_refl c), AllTriples-add (Over terms) t ts over good)

module _ {S : Type 0} (backing : BackingStore S) (laws : BackingStoreLaws backing)
    (terms : List Node) (c : Node) where
  -- What the events of `addN` change during a batch: only what waits, and that only where the store
  -- lacks one of the triples.
  record Announced (ts : List Triple) (st after : ReteStore S) : Type 0 where
    store : after.store ≡ st.store
    engines : after.engines ≡ st.engines
    handling : after.handling_addition ≡ true
    pending : IsPending terms c after.current_additions
    longer :
        (length after.current_additions ≤ length st.current_additions)
        ⊎ ((length after.current_additions ≤ 1)
            × ((t : Triple) × Memᴰ t ts × (backing.has st.store c t ≡ false)))

  on_stored :
      (run : ReteStore S → Run (ReteStore S)) (t : Triple) (st : ReteStore S)
      → backing.has st.store c t ≡ true
      → on_triple_added backing run c t st ≡ some (ok st)
  unfolding on_triple_added
  on_stored run t st e = ground (arith, e)

  on_new :
      (run : ReteStore S → Run (ReteStore S)) (t : Triple) (st : ReteStore S)
      → backing.has st.store c t ≡ false
      → st.handling_addition ≡ true
      → on_triple_added backing run c t st ≡ some (ok (queue c t st))
  unfolding on_triple_added queue
  on_new run t st e busy = ground (arith, e, busy)

  length_pending :
      (additions : Dict Node (List Triple)) → IsPending terms c additions → length additions ≤ 1
  unfolding IsPending
  length_pending additions (inl e) = rw e (omega arith)
  length_pending additions (inr (ts, e, _)) = rw e (omega arith)

  waiting :
      (t : Triple) (st : ReteStore S)
      → ((ts : List Triple) × ((queue c t st).current_additions ≡ (c, ts) ∷ [])
          × AllTriples (Over terms) ts)
      → IsPending terms c (queue c t st).current_additions
  unfolding IsPending
  waiting t st found = inr found

  announce-Announced :
      (run : ReteStore S → Run (ReteStore S)) (ts : List Triple) (st : ReteStore S)
      → st.handling_addition ≡ true
      → IsPending terms c st.current_additions
      → AllTriples (Over terms) ts
      → (after : ReteStore S) × (announce backing run c ts st ≡ some (ok after))
        × Announced ts st after
  unfolding announce AllTriples queue
  announce-Announced run [] st busy pending good = (
    st,
    refl,
    record {
      store = refl;
      engines = refl;
      handling = busy;
      pending = pending;
      longer = inl (omega arith);
    },
  )
  announce-Announced run (t ∷ ts) st busy pending good =
      elim (Bool-cases (backing.has st.store c t)) [
        | inl e ↦
            let (after, runs, a) =
              announce-Announced run ts st busy pending (λ u there. good u (Memᴰ.tail there)) in
            (
              after,
              ap (λ x. x >=> announce backing run c ts) (on_stored run t st e) ∙ runs,
              record {
                store = a.store;
                engines = a.engines;
                handling = a.handling;
                pending = a.pending;
                longer = elim a.longer [
                  | inl same ↦ inl same
                  | inr (short, (u, there, fresh)) ↦ inr (short, (u, Memᴰ.tail there, fresh))
                ];
              },
            )
        | inr e ↦
            let waits : IsPending terms c (queue c t st).current_additions =
              waiting t st (queue-pending terms c t st (good t (Memᴰ.head refl)) pending) in
            let (after, runs, a) =
              announce-Announced run ts (queue c t st) busy waits
                (λ u there. good u (Memᴰ.tail there)) in
            (
              after,
              ap (λ x. x >=> announce backing run c ts) (on_new run t st e busy) ∙ runs,
              record {
                store = a.store;
                engines = a.engines;
                handling = a.handling;
                pending = a.pending;
                longer =
                    inr (length_pending after.current_additions a.pending, (t, Memᴰ.head refl, e));
              },
            )
      ]

  -- What a step of handling a batch leaves behind.
  pub record Step (st after : ReteStore S) : Type 0 where
    pub handling : after.handling_addition ≡ true
    pub over : StoreOver backing terms c after
    pub grows :
        (d : Node) (u : Triple)
        → backing.has st.store d u ≡ true
        → backing.has after.store d u ≡ true
    pub lighter :
        missing backing laws terms c after.store + length after.current_additions
        ≤ missing backing laws terms c st.store + length st.current_additions

  pub add_n-Step :
      (run : ReteStore S → Run (ReteStore S)) (ts : List Triple) (st : ReteStore S)
      → st.handling_addition ≡ true
      → StoreOver backing terms c st
      → AllTriples (Over terms) ts
      → Ends (Step st) (add_n backing run c ts st)
  unfolding add_n AllTriples
  add_n-Step run ts st busy w good =
      let (after, runs, a) = announce-Announced run ts st busy w.pending good in
      let finish : ReteStore S → Run (ReteStore S) =
        λ y. some (ok (record y { store = put_all backing c ts y.store })) in
      let full : ReteStore S = record after { store = put_all backing c ts after.store } in
      Ends-same (Step st) (ap (λ (x : Run (ReteStore S)). x >=> finish) runs) (
        Ends-done (Step st) full record {
          handling = a.handling;
          over = record {
            engines = λ e there. w.engines e (subst (λ d. lookup c d ≡ some e) a.engines there);
            stored = λ t there. elim (put_all-cases backing laws c ts t after.store there) [
              | inl before ↦ w.stored t (subst (λ s. backing.has s c t ≡ true) a.store before)
              | inr now ↦ good t now
            ];
            pending = a.pending;
          };
          grows = λ d u before.
              has-put_all backing laws c d ts u after.store
                (subst (λ s. backing.has s d u ≡ true) (sym a.store) before);
          lighter =
              subst
                (λ s.
                  missing backing laws terms c (put_all backing c ts s)
                    + length after.current_additions
                  ≤ missing backing laws terms c st.store + length st.current_additions)
                (sym a.store)
                (elim a.longer [
                  | inl same ↦ omega (arith, same, missing-le backing laws terms c ts st.store)
                  | inr (short, (t, there, fresh)) ↦ omega (
                    arith,
                    short,
                    missing-lt backing laws terms c ts st.store t (good t there) there fresh,
                  )
                ]);
        })
