-- ===== src/Engine/Terminates.antt =====
-- rete_engine.py: the operations that run the loop, on enough fuel.
use rdflib_reasoning.Base.{
  ◌≡◌, refl, sym, subst, ◌∙◌, Bool, true, false, ℕ, ◌<◌, List, [], ◌∷◌, inl, inr, Memᴰ, arith,
  mem-filter, Bool-cases, if◌then◌else◌,
}
use mathlib.Core.List.Memᴰ
use rdflib_reasoning.Base.Sets.{update, difference}
use rdflib_reasoning.Errors.{ok, raise, Ensures, Ensures->>=, Ensures-always}
use rdflib_reasoning.Rdf.{Node, Triple, triple_eq, Rendering}
use rdflib_reasoning.Tms.Controller.{register_stated}
use rdflib_reasoning.Network.Terms.{Over}
use rdflib_reasoning.Engine.{ReteEngineConfig, ReteEngine, triple_is_permitted}
use rdflib_reasoning.Engine.Saturation.{
  saturate, permitted_triples, state_fresh, add_fresh, add_pending, add_triples,
  run_bootstrap_rules, warmup,
}
use rdflib_reasoning.Engine.Invariant.{nothing_new}
use rdflib_reasoning.Engine.Known.{
  AllTriples, MemoryOf, AllTriples-update, register_stated-MemoryOf,
}
use rdflib_reasoning.Engine.Calls.{mem-update}
use rdflib_reasoning.Engine.Universe.{IsOver}
use rdflib_reasoning.Engine.Fixpoint.{LeavesOver, Ends, Result-cases, cube, saturates}

kept :
    (P : Triple → Type 0) (lets_in : Bool) (t : Triple) (ts : List Triple)
    → P t
    → AllTriples P ts
    → AllTriples P (if lets_in then t ∷ ts else ts)
unfolding AllTriples
kept P false t ts here later u there = later u there
kept P true t ts here later u there = elim (Memᴰ.cases_cons there) [
  | inl same ↦ subst P (sym same) here
  | inr rest ↦ later u rest
]

module _ (terms : List Node) (rendering : Rendering) (config : ReteEngineConfig) where
  pub state_fresh-IsOver :
      (fresh : List Triple) (engine : ReteEngine)
      → AllTriples (Over terms) fresh
      → IsOver terms engine
      → Ensures (IsOver terms) (state_fresh rendering config fresh engine)
  unfolding state_fresh
  state_fresh-IsOver fresh engine good w =
      Ensures->>= (λ x. MemoryOf (Over terms) x.0.working_memory) (IsOver terms)
        (register_stated rendering.n3 fresh engine.tms) _
        (register_stated-MemoryOf (Over terms) rendering.n3 fresh engine.tms good w.triples.memory)
        (λ result memory. record {
          triples = record {
            memory = memory;
            known = AllTriples-update (Over terms) engine.known_triples fresh w.triples.known good;
            materialized =
                AllTriples-update (Over terms) engine.materialized_triples fresh
                  w.triples.materialized good;
          };
          matches = w.matches;
          rules = w.rules;
        })

  permitted_triples-AllTriples :
      (P : Triple → Type 0) (ts : List Triple)
      → AllTriples P ts
      → Ensures (AllTriples P) (permitted_triples rendering config ts)
  unfolding permitted_triples AllTriples
  permitted_triples-AllTriples P [] h = λ t there. elim there [ ]
  permitted_triples-AllTriples P (t ∷ ts) h =
      let permitted =
        triple_is_permitted config.literal_subject_policy config.predicate_term_policy t in
      Ensures->>= (λ _. Unit {0}) (AllTriples P) permitted _ (Ensures-always _ permitted (λ _. tt))
        (λ lets_in _.
          Ensures->>= (AllTriples P) (AllTriples P) (permitted_triples rendering config ts) _
            (permitted_triples-AllTriples P ts (λ u there. h u (Memᴰ.tail there)))
            (λ pending k. kept P lets_in t pending (h t (Memᴰ.head refl)) k))

  add_fresh-Ends :
      (fuel : ℕ) (fresh : List Triple) (engine : ReteEngine)
      → AllTriples (Over terms) fresh
      → IsOver terms engine
      → cube terms < fuel
      → Ends (LeavesOver terms) (add_fresh rendering config fuel fresh engine)
  unfolding add_fresh Ends
  add_fresh-Ends fuel [] engine good w enough =
      (ok (engine, []), refl, (w, nothing_new (Over terms)))
  add_fresh-Ends fuel (t ∷ ts) engine good w enough =
      elim (Result-cases (state_fresh rendering config (t ∷ ts) engine)) [
        | inr (e, raises) ↦ (raise e, ground (arith, raises), tt)
        | inl (stated, runs) ↦
            let over =
              subst (Ensures (IsOver terms)) runs (state_fresh-IsOver (t ∷ ts) engine good w) in
            let (r, ends, right) =
              saturates terms rendering config fuel true false stated [] over
                (nothing_new (Over terms)) enough in
            let same : add_fresh rendering config fuel (t ∷ ts) engine
                ≡ saturate rendering config fuel true false (stated, []) =
              ground (arith, runs) in
            (r, same ∙ ends, right)
      ]

  -- Stating triples over the terms of an engine ends on more fuel than there are such triples.
  pub add_triples-Ends :
      (fuel : ℕ) (ts : List Triple) (engine : ReteEngine)
      → AllTriples (Over terms) ts
      → IsOver terms engine
      → cube terms < fuel
      → Ends (LeavesOver terms) (add_triples rendering config fuel ts engine)
  unfolding add_triples add_pending Ends AllTriples difference
  add_triples-Ends fuel ts engine good w enough =
      elim (Result-cases (permitted_triples rendering config (update [] ts))) [
        | inr (e, raises) ↦ (raise e, rw raises refl, tt)
        | inl (pending, runs) ↦
            let let_in = subst (Ensures (AllTriples (Over terms))) runs (
              permitted_triples-AllTriples (Over terms) (update [] ts)
                (λ t there. good t (mem-update ts t there))) in
            let (r, ends, right) =
              add_fresh-Ends fuel (difference pending engine.known_triples) engine
                (λ t there. let_in t (mem-filter _ pending there).0) w enough in
            (r, rw runs ends, right)
      ]

  pub bootstrapped :
      (engine : ReteEngine)
      → IsOver terms engine
      → IsOver terms (record engine { bootstrap_completed = true })
  bootstrapped engine w = record {
    triples = record {
      memory = w.triples.memory;
      known = w.triples.known;
      materialized = w.triples.materialized;
    };
    matches = record { alpha = w.matches.alpha; beta = w.matches.beta };
    rules = w.rules;
  }

  run_bootstrap_rules-Ends :
      (fuel : ℕ) (engine : ReteEngine)
      → IsOver terms engine
      → cube terms < fuel
      → Ends (LeavesOver terms) (run_bootstrap_rules rendering config fuel engine)
  unfolding run_bootstrap_rules Ends
  run_bootstrap_rules-Ends fuel engine w enough = elim (Bool-cases engine.bootstrap_completed) [
    | inl e ↦ (ok (engine, []), rw e refl, (w, nothing_new (Over terms)))
    | inr e ↦
        let (r, ends, right) =
          saturates terms rendering config fuel false true
            (record engine { bootstrap_completed = true }) [] (bootstrapped engine w)
            (nothing_new (Over terms)) enough in
        let same : run_bootstrap_rules rendering config fuel engine
            ≡ saturate rendering config fuel false true
                (record engine { bootstrap_completed = true }, []) =
          ground (arith, e) in
        (r, same ∙ ends, right)
  ]

  pub warmup-Ends :
      (fuel : ℕ) (ts : List Triple) (engine : ReteEngine)
      → AllTriples (Over terms) ts
      → IsOver terms engine
      → cube terms < fuel
      → Ends (LeavesOver terms) (warmup rendering config fuel ts engine)
  unfolding warmup Ends
  warmup-Ends fuel ts engine good w enough =
      let (r, boots, right) = run_bootstrap_rules-Ends fuel engine w enough in
      elim (Result-cases r) [
        | inr (e, raises) ↦ (raise e, ground (arith, boots, raises), tt)
        | inl (x, runs) ↦
            let (over, _) = subst (Ensures (LeavesOver terms)) runs right in
            let (s, ends, good_end) = add_triples-Ends fuel ts x.0 good over enough in
            let same : warmup rendering config fuel ts engine
                ≡ add_triples rendering config fuel ts x.0 =
              ground (arith, boots, runs) in
            (s, same ∙ ends, good_end)
      ]
