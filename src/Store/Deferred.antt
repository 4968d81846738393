-- ===== src/Store/Deferred.antt =====
-- rete_store.py: what a batch of removals leaves for the batches after it.
use rdflib_reasoning.Base.{
  ℕ, zero, suc, ◌-◌, ◌≡◌, refl, sym, ◌∙◌, ap, true, not, ◌&&◌, ◌||◌, ◌==◌, ==_refl, some, List, [],
  ◌∷◌, inl, inr, contains, arith, Bool-cases,
}
use rdflib_reasoning.Base.Dict.{Dict, lookup, get_or, lookup-insert_self}
use rdflib_reasoning.Base.Sets.{add, contains-add}
use rdflib_reasoning.Errors.{ok}
use rdflib_reasoning.Rdf.{Node, node_eq, Triple, triple_eq}
use rdflib_reasoning.Store.{just, matches, BackingStore, BackingStoreLaws, ReteStore, Run, ◌>=>◌}
use rdflib_reasoning.Store.Removal.{
  queue_removal, on_triple_removed, announce_removals, remove_matches, flush_rematerialize,
  leave_removal, remove_each,
}

-- The triples of a graph that wait for the next batch.
abbrev pub waiting_in : {A : Type 0} → Node → Dict Node (List A) → List A
waiting_in c batches = get_or (lookup c batches) []

module _ {S : Type 0} (backing : BackingStore S) (laws : BackingStoreLaws backing) (c : Node) where
  -- A store in which removals were announced, each at its place in some triples.
  record Queued (ts : List Triple) (st after : ReteStore S) : Type 0 where
    same : after ≡ record st { current_removals = after.current_removals }
    waits :
        (u : Triple)
        → contains (waiting_in c after.current_removals) u ≡ (
            contains (waiting_in c st.current_removals) u
            || (backing.has st.store c u && contains ts u))

  queue_removal-waits :
      (t u : Triple) (st : ReteStore S)
      → contains (waiting_in c (queue_removal c t st).current_removals) u
        ≡ (contains (waiting_in c st.current_removals) u || u == t)
  unfolding queue_removal
  queue_removal-waits t u st = ground (
    arith,
    lookup-insert_self c (add t (waiting_in c st.current_removals)) st.current_removals,
    contains-add t u (waiting_in c st.current_removals),
  )

  on_removed-Queued :
      (run : ReteStore S → Run (ReteStore S)) (t : Triple) (st : ReteStore S)
      → st.handling_removal ≡ true
      → (after : ReteStore S) × (on_triple_removed backing run c t st ≡ some (ok after))
        × Queued (t ∷ []) st after
  unfolding on_triple_removed queue_removal
  on_removed-Queued run t st busy = elim (Bool-cases (backing.has st.store c t)) [
    | inl e ↦ (
      queue_removal c t st,
      ground (arith, e, busy),
      record { same = refl; waits = λ u. ground (arith, queue_removal-waits t u st, e) },
    )
    | inr e ↦ (st, ground (arith, e), record { same = refl; waits = λ u. ground (arith, e) })
  ]

  Queued-then :
      (t : Triple) (ts : List Triple) (st mid after : ReteStore S)
      → Queued (t ∷ []) st mid
      → Queued ts mid after
      → Queued (t ∷ ts) st after
  Queued-then t ts st mid after a b = record {
    same =
        b.same
        ∙ ap (λ (x : ReteStore S). record x { current_removals = after.current_removals }) a.same;
    waits = λ u.
        let kept : mid.store ≡ st.store = ap (λ (x : ReteStore S). x.store) a.same in
        ground (arith, a.waits u, b.waits u, ap (λ s. backing.has s c u) kept);
  }

  announce-Queued :
      (run : ReteStore S → Run (ReteStore S)) (ts : List Triple) (st : ReteStore S)
      → st.handling_removal ≡ true
      → (after : ReteStore S) × (announce_removals backing run c ts st ≡ some (ok after))
        × Queued ts st after
  unfolding announce_removals
  announce-Queued run [] st busy = (st, refl, record { same = refl; waits = λ u. ground arith })
  announce-Queued run (t ∷ ts) st busy =
      let (mid, first, a) = on_removed-Queued run t st busy in
      let still : mid.handling_removal ≡ true =
        ap (λ (x : ReteStore S). x.handling_removal) a.same ∙ busy in
      let (after, rest, b) = announce-Queued run ts mid still in
      let next : ReteStore S → Run (ReteStore S) = announce_removals backing run c ts in
      (
        after,
        ap (λ (x : Run (ReteStore S)). x >=> next) first ∙ rest,
        Queued-then t ts st mid after a b,
      )

  same_triple : (t u : Triple) → matches (just t) u ≡ (u == t)
  unfolding matches
  same_triple t u = elim (Bool-cases (u == t)) [
    | inl e ↦
        let same : u ≡ t = ground (arith, e) in
        rw same
          (ground (arith, ==_refl t, ==_refl t.subject, ==_refl t.predicate, ==_refl t.object))
    | inr e ↦ elim (Bool-cases (matches (just t) u)) [
      | inr other ↦ ground (arith, e, other)
      | inl alike ↦
          let s : u.subject ≡ t.subject = ground (arith, alike) in
          let p : u.predicate ≡ t.predicate = ground (arith, alike) in
          let o : u.object ≡ t.object = ground (arith, alike) in
          let same : u ≡ t = cc (s, p, o) in absurd (ground (arith, e, same, ==_refl t))
    ]
  ]

  -- A store after removals inside a batch: the graph lost them, those that it had wait for the next
  -- batch, and nothing else changed.
  pub record Removed (ts : List Triple) (st after : ReteStore S) : Type 0 where
    pub same : after ≡ record st { store = after.store; current_removals = after.current_removals }
    pub waits :
        (u : Triple)
        → contains (waiting_in c after.current_removals) u ≡ (
            contains (waiting_in c st.current_removals) u
            || (backing.has st.store c u && contains ts u))
    pub stored :
        (d : Node) (u : Triple)
        → backing.has after.store d u ≡ (backing.has st.store d u && not (d == c && contains ts u))

  -- Leaving an inner removal adds nothing back.
  leave_inner :
      (again : Node → Triple → ReteStore S → Run (ReteStore S)) (d : ℕ) (st : ReteStore S)
      → st.remove_depth ≡ suc d
      → leave_removal backing again (record st { remove_depth = suc st.remove_depth })
        ≡ some (ok st)
  unfolding leave_removal
  leave_inner again d st inside =
      let at : ℕ → ReteStore S = λ n. record st { remove_depth = n } in
      let less : suc (suc d) - 1 ≡ suc d = omega arith in
      let leaves : ℕ → Run (ReteStore S) = λ n. elim n [
        | zero ↦ flush_rematerialize backing again (at (suc (suc d) - 1))
        | suc outer ↦ some (ok (at (suc (suc d) - 1)))
      ] in
      ap (λ n. leave_removal backing again (at (suc n))) inside
      ∙ ap leaves less
      ∙ ap (λ n. some (ok (at n))) (less ∙ sym inside)

  remove_just-Removed :
      (run : ReteStore S → Run (ReteStore S))
      (again : Node → Triple → ReteStore S → Run (ReteStore S)) (t : Triple) (d : ℕ)
      (st : ReteStore S)
      → st.handling_removal ≡ true
      → st.remove_depth ≡ suc d
      → (after : ReteStore S) × (remove_matches backing run again (just t) (some c) st
          ≡ some (ok after))
        × Removed (t ∷ []) st after
  unfolding remove_matches leave_removal
  remove_just-Removed run again t d st busy inside =
      let deeper : ReteStore S = record st { remove_depth = suc st.remove_depth } in
      let found : List Triple = backing.triples st.store c (just t) in
      let finish : ReteStore S → Run (ReteStore S) = λ x.
        leave_removal backing again
          (record x { store = backing.remove (just t) (some c) x.store }) in
      let (mid, runs, q) = announce-Queued run found deeper busy in
      let smaller : S = backing.remove (just t) (some c) st.store in
      let after : ReteStore S = record st {
        store = smaller;
        current_removals = mid.current_removals;
      } in
      (
        after,
        ap (λ (x : Run (ReteStore S)). x >=> finish) runs
            ∙ ap finish q.same
            ∙ leave_inner again d after inside,
        record {
          same = refl;
          waits = λ u.
              ground
                (arith, q.waits u, laws.contains-triples st.store c (just t) u, same_triple t u);
          stored = λ e u. ground (arith, laws.has-remove st.store c e (just t) u, same_triple t u);
        },
      )

  Removed-then :
      (t : Triple) (ts : List Triple) (st mid after : ReteStore S)
      → Removed (t ∷ []) st mid
      → Removed ts mid after
      → Removed (t ∷ ts) st after
  Removed-then t ts st mid after a b = record {
    same =
        b.same
        ∙ ap
            (λ (x : ReteStore S). record x {
              store = after.store;
              current_removals = after.current_removals;
            })
            a.same;
    waits = λ u. ground (arith, a.waits u, b.waits u, a.stored c u, ==_refl c);
    stored = λ d u. ground (arith, a.stored d u, b.stored d u);
  }

  pub remove_each-Removed :
      (run : ReteStore S → Run (ReteStore S))
      (again : Node → Triple → ReteStore S → Run (ReteStore S)) (ts : List Triple) (d : ℕ)
      (st : ReteStore S)
      → st.handling_removal ≡ true
      → st.remove_depth ≡ suc d
      → (after : ReteStore S) × (remove_each backing run again c ts st ≡ some (ok after))
        × Removed ts st after
  unfolding remove_each
  remove_each-Removed run again [] d st busy inside =
      (st, refl, record { same = refl; waits = λ u. ground arith; stored = λ e u. ground arith })
  remove_each-Removed run again (t ∷ ts) d st busy inside =
      let (mid, first, a) = remove_just-Removed run again t d st busy inside in
      let still : mid.handling_removal ≡ true =
        ap (λ (x : ReteStore S). x.handling_removal) a.same ∙ busy in
      let deep : mid.remove_depth ≡ suc d =
        ap (λ (x : ReteStore S). x.remove_depth) a.same ∙ inside in
      let (after, rest, b) = remove_each-Removed run again ts d mid still deep in
      let next : ReteStore S → Run (ReteStore S) = remove_each backing run again c ts in
      (
        after,
        ap (λ (x : Run (ReteStore S)). x >=> next) first ∙ rest,
        Removed-then t ts st mid after a b,
      )
