-- ===== src/Engine/Fixpoint.antt =====
-- rete_engine.py: the loop to a fixed point on enough fuel.
use rdflib_reasoning.Base.{
  ◌≡◌, refl, sym, subst, ◌∙◌, Bool, ℕ, zero, suc, ◌<◌, ◌*◌, Option, some, List, [], ◌∷◌, ◌⊎◌, inl,
  inr, Memᴰ, length, arith,
}
use rdflib_reasoning.Base.Sets.{update}
use rdflib_reasoning.Errors.{Exception, Result, ok, raise, Ensures}
use rdflib_reasoning.Rdf.{Node, Triple, triple_eq, Rendering}
use rdflib_reasoning.Compiler.Bindings.{List-cases}
use rdflib_reasoning.Engine.{ReteEngineConfig, ReteEngine}
use rdflib_reasoning.Engine.Round.{Round, iterate}
use rdflib_reasoning.Engine.Saturation.{saturate}
use rdflib_reasoning.Engine.Known.{AllTriples, AllTriples-update}
use rdflib_reasoning.Network.Terms.{Over}
use rdflib_reasoning.Engine.Universe.{IsOver, iterate-IsOver}
use rdflib_reasoning.Engine.Finite.{unknown, unknown-le, unknown-lt}

-- A call that returns or raises, and whose result is right where it returns.
unfoldable pub Ends : {A : Type 0} → (A → Type 0) → Option (Result A) → Type 0
Ends {A} P call = (r : Result A) × (call ≡ some r) × Ensures P r

-- An engine over some terms, with triples over them.
abbrev pub LeavesOver : List Node → ReteEngine × List Triple → Type 0
LeavesOver terms x = IsOver terms x.0 × AllTriples (Over terms) x.1

pub Result-cases :
    {A : Type 0} (r : Result A) → ((a : A) × (r ≡ ok a)) ⊎ ((e : Exception) × (r ≡ raise e))
Result-cases (ok a) = inl (a, refl)
Result-cases (raise e) = inr (e, refl)

unfoldable pub cube : List Node → ℕ
cube terms = length terms * (length terms * length terms)

module _ (terms : List Node) (rendering : Rendering) (config : ReteEngineConfig) where
  module _ (fuel : ℕ) (m b : Bool) (engine after : ReteEngine) (shown : List Triple) (round : Round)
      (runs : iterate rendering config m b engine ≡ ok (after, round)) where
    pub saturate_stops :
        round.iteration_new ≡ []
        → saturate rendering config (suc fuel) m b (engine, shown)
          ≡ some (ok (after, update shown round.iteration_materialized))
    unfolding saturate
    saturate_stops stops = ground (arith, runs, stops)

    pub saturate_goes_on :
        (t : Triple) (ts : List Triple)
        → round.iteration_new ≡ t ∷ ts
        → saturate rendering config (suc fuel) m b (engine, shown)
          ≡ saturate rendering config fuel m b (after, update shown round.iteration_materialized)
    unfolding saturate
    saturate_goes_on t ts goes = ground (arith, runs, goes)

  -- Each round that does not end the loop leaves fewer triples over the terms to be found.
  saturate-Ends :
      (fuel : ℕ) (m b : Bool) (engine : ReteEngine) (shown : List Triple)
      → IsOver terms engine
      → AllTriples (Over terms) shown
      → unknown terms engine.known_triples < fuel
      → Ends (LeavesOver terms) (saturate rendering config fuel m b (engine, shown))
  unfolding saturate Ends AllTriples
  saturate-Ends zero m b engine shown w good enough = absurd (ground (arith, enough))
  saturate-Ends (suc fuel) m b engine shown w good enough =
      let step = iterate-IsOver terms rendering config m b engine w in
      elim (Result-cases (iterate rendering config m b engine)) [
        | inr (e, raises) ↦ (raise e, rw (raises, saturate) refl, tt)
        | inl ((after, round), runs) ↦
            let (over, found, known) = subst (Ensures _) runs step in
            elim (List-cases round.iteration_new) [
              | inl stops ↦ (
                ok (after, update shown round.iteration_materialized),
                saturate_stops fuel m b engine after shown round runs stops,
                (over, AllTriples-update (Over terms) shown _ good found.materialized),
              )
              | inr (t, ts, goes) ↦
                  let first : Memᴰ t round.iteration_new =
                    subst (λ l. Memᴰ t l) (sym goes) (Memᴰ.head refl) in
                  let (in_terms, fresh) = found.new t first in
                  let less =
                    unknown-lt terms engine.known_triples round.iteration_new t in_terms fresh
                      first in
                  let left : unknown terms after.known_triples < fuel =
                    rw known (omega (arith, less, enough)) in
                  let (r, ends, right) =
                    saturate-Ends fuel m b after (update shown round.iteration_materialized) over
                      (AllTriples-update (Over terms) shown _ good found.materialized) left in
                  (
                    r,
                    saturate_goes_on fuel m b engine after shown round runs t ts goes ∙ ends,
                    right,
                  )
            ]
      ]

  pub saturates :
      (fuel : ℕ) (m b : Bool) (engine : ReteEngine) (shown : List Triple)
      → IsOver terms engine
      → AllTriples (Over terms) shown
      → cube terms < fuel
      → Ends (LeavesOver terms) (saturate rendering config fuel m b (engine, shown))
  unfolding cube
  saturates fuel m b engine shown w good enough =
      saturate-Ends fuel m b engine shown w good
        (omega (arith, enough, unknown-le terms engine.known_triples))
