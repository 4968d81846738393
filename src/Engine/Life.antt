-- ===== src/Engine/Life.antt =====
-- rete_engine.py: the states that an engine is in between the calls of its life.
use rdflib_reasoning.Base.{
  ◌≡◌, sym, ap, ◌∙◌, subst, Bool, true, false, ℕ, zero, suc, some, List, [], ◌∷◌, inl, inr, Memᴰ,
  arith, Bool-cases, Option-cases, mem-filter,
}
use mathlib.Core.List.Memᴰ
use rdflib_reasoning.Base.Sets.{update, difference}
use rdflib_reasoning.Compiler.Bindings.{List-cases}
use rdflib_reasoning.Errors.{ok}
use rdflib_reasoning.Rdf.{Triple, triple_eq, Rendering}
use rdflib_reasoning.Rules.{Rule}
use rdflib_reasoning.Engine.{ReteEngineConfig, ReteEngine}
use rdflib_reasoning.Engine.Round.{iterate}
use rdflib_reasoning.Engine.Terms.{is_well_formed, triple_is_permitted_total}
use rdflib_reasoning.Engine.Saturation.{
  new_engine, saturate, permitted_triples, state_fresh, add_fresh, add_pending, add_triples,
  run_bootstrap_rules, warmup, retract_triples, close,
}
use rdflib_reasoning.Engine.Known.{AllTriples, AllWellFormed}
use rdflib_reasoning.Engine.Invariant.{IsWellFormed}
use rdflib_reasoning.Engine.Fixpoint.{Result-cases, saturate_stops, saturate_goes_on}
use rdflib_reasoning.Engine.Reachable.{
  Reachable, is_new, bootstraps, states, rounds, retracts, closes, Reachable-IsWellFormed,
}

module _ (rendering : Rendering) (config : ReteEngineConfig) where
  -- The calls of an engine's life that return, on any triples and any fuel.
  pub data Lives : ReteEngine → Type 0 where
    -- `RETEEngine(config, rules)`
    starts_life :
        (rules : List Rule) (engine : ReteEngine)
        → new_engine rendering rules ≡ ok engine
        → Lives engine
    warms_up :
        (fuel : ℕ) (triples shown : List Triple) (before after : ReteEngine)
        → Lives before
        → warmup rendering config fuel triples before ≡ some (ok (after, shown))
        → Lives after
    adds :
        (fuel : ℕ) (triples shown : List Triple) (before after : ReteEngine)
        → Lives before
        → add_triples rendering config fuel triples before ≡ some (ok (after, shown))
        → Lives after
    takes_back :
        (triples removed : List Triple) (before after : ReteEngine)
        → Lives before
        → retract_triples triples before ≡ ok (after, removed)
        → Lives after
    ends_life : (engine : ReteEngine) → Lives engine → Lives (close engine)

  -- The policies let only well-formed triples through.
  permitted_triples-AllWellFormed :
      (ts pending : List Triple)
      → permitted_triples rendering config ts ≡ ok pending
      → AllWellFormed pending
  unfolding permitted_triples AllTriples
  permitted_triples-AllWellFormed [] pending h = λ t there.
      let none_left : pending ≡ [] = ground (arith, h) in
      absurd (Memᴰ.not-nil (subst (Memᴰ t) none_left there))
  permitted_triples-AllWellFormed (u ∷ us) pending h =
      elim (Result-cases (permitted_triples rendering config us)) [
        | inr (e, raises) ↦
            elim (triple_is_permitted_total config.literal_subject_policy
              config.predicate_term_policy u) [
                | inl (here, k) ↦ absurd (ground (arith, h, raises, k))
                | inr (bad, inl k) ↦ absurd (ground (arith, h, raises, k))
                | inr (bad, inr (x, k, fatal)) ↦ absurd (ground (arith, h, raises, k))
              ]
        | inl (later, runs) ↦
            let good = permitted_triples-AllWellFormed us later runs in
            elim (triple_is_permitted_total config.literal_subject_policy
              config.predicate_term_policy u) [
                | inl (here, e) ↦
                    let all : u ∷ later ≡ pending = ground (arith, h, runs, e) in
                    subst AllWellFormed all (λ t there. elim (Memᴰ.cases_cons there) [
                      | inl same ↦ subst (λ v. is_well_formed v ≡ true) (sym same) here
                      | inr rest ↦ good t rest
                    ])
                | inr (bad, inl e) ↦
                    let all : later ≡ pending = ground (arith, h, runs, e) in
                    subst AllWellFormed all good
                | inr (bad, inr (x, e, fatal)) ↦ absurd (ground (arith, h, runs, e))
              ]
      ]

  difference-AllWellFormed :
      (ts known : List Triple) → AllWellFormed ts → AllWellFormed (difference ts known)
  unfolding difference AllTriples
  difference-AllWellFormed ts known h t there = h t (mem-filter _ ts there).0

  saturate-Reachable :
      (fuel : ℕ) (m b : Bool) (engine after : ReteEngine) (shown all : List Triple)
      → Reachable rendering config engine
      → saturate rendering config fuel m b (engine, shown) ≡ some (ok (after, all))
      → Reachable rendering config after
  unfolding saturate
  saturate-Reachable zero m b engine after shown all r h = cc h
  saturate-Reachable (suc fuel) m b engine after shown all r h =
      elim (Result-cases (iterate rendering config m b engine)) [
        | inr (e, raises) ↦ absurd (ground (arith, h, raises))
        | inl ((next, round), runs) ↦
            let reached = rounds m b engine next round r runs in
            elim (List-cases round.iteration_new) [
              | inl stops ↦
                  let stopped =
                    saturate_stops [] rendering config fuel m b engine next shown round runs
                      stops in
                  let same : next ≡ after = ground (arith, stopped, h) in
                  subst (Reachable rendering config) same reached
              | inr (t, ts, goes_on) ↦
                  saturate-Reachable fuel m b next after (update shown round.iteration_materialized)
                    all reached
                    (sym (
                        saturate_goes_on [] rendering config fuel m b engine next shown round runs t
                          ts goes_on)
                      ∙ h)
            ]
      ]

  add_fresh-Reachable :
      (fuel : ℕ) (fresh shown : List Triple) (before after : ReteEngine)
      → Reachable rendering config before
      → AllWellFormed fresh
      → add_fresh rendering config fuel fresh before ≡ some (ok (after, shown))
      → Reachable rendering config after
  unfolding add_fresh
  add_fresh-Reachable fuel [] shown before after r good h =
      let same : before ≡ after = ground (arith, h) in subst (Reachable rendering config) same r
  add_fresh-Reachable fuel (t ∷ ts) shown before after r good h =
      elim (Result-cases (state_fresh rendering config (t ∷ ts) before)) [
        | inr (e, raises) ↦ absurd (ground (arith, h, raises))
        | inl (stated, runs) ↦
            let saturates : saturate rendering config fuel true false (stated, [])
                ≡ some (ok (after, shown)) =
              ground (arith, h, runs) in
            saturate-Reachable fuel true false stated after [] shown
              (states (t ∷ ts) before stated r good runs) saturates
      ]

  add_triples-Reachable :
      (fuel : ℕ) (ts shown : List Triple) (before after : ReteEngine)
      → Reachable rendering config before
      → add_triples rendering config fuel ts before ≡ some (ok (after, shown))
      → Reachable rendering config after
  unfolding add_triples add_pending
  add_triples-Reachable fuel ts shown before after r h =
      elim (Result-cases (permitted_triples rendering config (update [] ts))) [
        | inr (e, raises) ↦ absurd (ground (arith, h, raises))
        | inl (pending, runs) ↦
            let fresh : List Triple = difference pending before.known_triples in
            let fresh_added : add_fresh rendering config fuel fresh before
                ≡ some (ok (after, shown)) =
              ground (arith, h, runs) in
            add_fresh-Reachable fuel fresh shown before after r
              (difference-AllWellFormed pending before.known_triples
                (permitted_triples-AllWellFormed (update [] ts) pending runs))
              fresh_added
      ]

  run_bootstrap_rules-Reachable :
      (fuel : ℕ) (shown : List Triple) (before after : ReteEngine)
      → Reachable rendering config before
      → run_bootstrap_rules rendering config fuel before ≡ some (ok (after, shown))
      → Reachable rendering config after
  unfolding run_bootstrap_rules
  run_bootstrap_rules-Reachable fuel shown before after r h =
      elim (Bool-cases before.bootstrap_completed) [
        | inl e ↦
            let same : before ≡ after = ground (arith, h, e) in
            subst (Reachable rendering config) same r
        | inr e ↦
            let flagged : ReteEngine = record before { bootstrap_completed = true } in
            let runs : saturate rendering config fuel false true (flagged, [])
                ≡ some (ok (after, shown)) =
              ground (arith, h, e) in
            saturate-Reachable fuel false true flagged after [] shown (bootstraps before r) runs
      ]

  warmup-Reachable :
      (fuel : ℕ) (ts shown : List Triple) (before after : ReteEngine)
      → Reachable rendering config before
      → warmup rendering config fuel ts before ≡ some (ok (after, shown))
      → Reachable rendering config after
  unfolding warmup
  warmup-Reachable fuel ts shown before after r h =
      elim (Option-cases (run_bootstrap_rules rendering config fuel before)) [
        | inl e ↦ absurd (ground (arith, h, e))
        | inr (result, e) ↦ elim (Result-cases result) [
          | inr (x, raises) ↦ absurd (ground (arith, h, e, raises))
          | inl ((next, _), runs) ↦
              let booted = run_bootstrap_rules-Reachable fuel _ before next r (e ∙ ap some runs) in
              let added : add_triples rendering config fuel ts next ≡ some (ok (after, shown)) =
                ground (arith, h, e, runs) in
              add_triples-Reachable fuel ts shown next after booted added
        ]
      ]

  -- Between its calls an engine is in a state that its steps reach.
  Lives-Reachable : (engine : ReteEngine) → Lives engine → Reachable rendering config engine
  Lives-Reachable engine (starts_life rules _ e) = is_new rules engine e
  Lives-Reachable engine (warms_up fuel ts shown before _ l e) =
      warmup-Reachable fuel ts shown before engine (Lives-Reachable before l) e
  Lives-Reachable engine (adds fuel ts shown before _ l e) =
      add_triples-Reachable fuel ts shown before engine (Lives-Reachable before l) e
  Lives-Reachable engine (takes_back ts removed before _ l e) =
      retracts ts removed before engine (Lives-Reachable before l) e
  Lives-Reachable _ (ends_life engine l) = closes engine (Lives-Reachable engine l)

  -- After any calls of `warmup`, `add_triples`, `retract_triples` and `close` that return, on any
  -- triples, well-formed or not, the facts of an engine and the triples in its sets are well-formed
  -- RDF: no literal is a subject, and each predicate is an IRI.
  pub Lives-IsWellFormed : (engine : ReteEngine) → Lives engine → IsWellFormed engine
  Lives-IsWellFormed engine l =
      Reachable-IsWellFormed rendering config engine (Lives-Reachable engine l)
