-- ===== src/Engine/Calls.antt =====
-- rete_engine.py: calls that find nothing to do.
use rdflib_reasoning.Base.{
  ℕ, ◌≡◌, refl, sym, ◌∙◌, ap, true, false, none, some, List, [], ◌∷◌, ◌⊎◌, inl, inr, Memᴰ, contains,
  contains-mem, mem-contains,
}
use rdflib_reasoning.Base.Sets.{update, difference, contains-update}
use rdflib_reasoning.Errors.{ok}
use rdflib_reasoning.Rdf.{Triple, triple_eq, Rendering}
use rdflib_reasoning.Facts.{Fact}
use rdflib_reasoning.Tms.Memory.{get_fact}
use rdflib_reasoning.Tms.Controller.{TmsController}
use rdflib_reasoning.Network.{evict_partial_matches_referencing}
use rdflib_reasoning.Engine.{Policy, ReteEngineConfig, ReteEngine, triple_is_permitted}
use rdflib_reasoning.Engine.Saturation.{
  permitted_triples, add_fresh, add_pending, add_triples, retract_each, retract_triples,
}
use rdflib_reasoning.Engine.Terms.{is_well_formed, triple_is_permitted_total}
use rdflib_reasoning.Engine.Known.{AllTriples, AllWellFormed}

pub mem-update : (ts : List Triple) (t : Triple) → Memᴰ t (update [] ts) → Memᴰ t ts
mem-update ts t m =
    let inside : contains (update [] ts) t ≡ true = mem-contains (update [] ts) t m in
    contains-mem ts t (sym (contains-update [] ts t) ∙ inside)

let_through :
    (l p : Policy) (t : Triple) → is_well_formed t ≡ true → triple_is_permitted l p t ≡ ok true
let_through l p t good = elim (triple_is_permitted_total l p t) [
  | inl (_, e) ↦ e
  | inr (bad, _) ↦ cc (good, bad)
]

permitted_all :
    (rendering : Rendering) (config : ReteEngineConfig) (ts : List Triple)
    → AllWellFormed ts
    → permitted_triples rendering config ts ≡ ok ts
unfolding permitted_triples AllTriples
permitted_all rendering config [] h = refl
permitted_all rendering config (t ∷ ts) h =
    rw
      (
        let_through config.literal_subject_policy config.predicate_term_policy t
            (h t (Memᴰ.head refl)),
        permitted_all rendering config ts (λ u m. h u (Memᴰ.tail m)),
      )
      refl

none_fresh :
    (ts known : List Triple)
    → ((t : Triple) → Memᴰ t ts → contains known t ≡ true)
    → difference ts known ≡ []
unfolding difference
none_fresh [] known h = refl
none_fresh (t ∷ ts) known h =
    rw (h t (Memᴰ.head refl)) (none_fresh ts known (λ u m. h u (Memᴰ.tail m)))

-- Adding well-formed triples that are all known returns at once, on no fuel, with an empty set and
-- the engine as it was: no derived fact becomes a stated one.
pub add_triples_known :
    (rendering : Rendering) (config : ReteEngineConfig) (fuel : ℕ) (ts : List Triple)
    (engine : ReteEngine)
    → AllWellFormed ts
    → ((t : Triple) → Memᴰ t ts → contains engine.known_triples t ≡ true)
    → add_triples rendering config fuel ts engine ≡ some (ok (engine, []))
unfolding add_triples add_pending add_fresh AllTriples
add_triples_known rendering config fuel ts engine good known =
    rw
      (
        permitted_all rendering config (update [] ts) (λ t m. good t (mem-update ts t m)),
        none_fresh (update [] ts) engine.known_triples (λ t m. known t (mem-update ts t m)),
      )
      refl

-- A triple that working memory does not have, or has as a derived fact only.
unfoldable pub IsUnstated : Triple → TmsController → Type 0
IsUnstated t tms =
    (get_fact t tms.working_memory ≡ ok none)
    ⊎ ((f : Fact) × (get_fact t tms.working_memory ≡ ok (some f)) × (f.stated ≡ false))

retract_each_unstated :
    (ts : List Triple) (tms : TmsController)
    → ((t : Triple) → Memᴰ t ts → IsUnstated t tms)
    → retract_each ts (tms, ([], [])) ≡ ok (tms, ([], []))
unfolding retract_each IsUnstated
retract_each_unstated [] tms h = refl
retract_each_unstated (t ∷ ts) tms h =
    let rest = retract_each_unstated ts tms (λ u m. h u (Memᴰ.tail m)) in
    elim (h t (Memᴰ.head refl)) [ inl e ↦ rw e rest | inr (f, e, derived) ↦ rw (e, derived) rest ]

difference_nil : (s : List Triple) → difference s [] ≡ s
unfolding difference
difference_nil [] = refl
difference_nil (x ∷ s) = ap (λ l. x ∷ l) (difference_nil s)

-- Retracting triples that are absent, or derived only, returns an empty set and leaves the engine
-- as it was: what other facts support cannot be retracted.
pub retract_triples_unstated :
    (ts : List Triple) (engine : ReteEngine)
    → ((t : Triple) → Memᴰ t ts → IsUnstated t engine.tms)
    → retract_triples ts engine ≡ ok (engine, [])
unfolding retract_triples evict_partial_matches_referencing
retract_triples_unstated ts engine h =
    rw
      (
        retract_each_unstated (update [] ts) engine.tms (λ t m. h t (mem-update ts t m)),
        difference_nil engine.known_triples,
        difference_nil engine.materialized_triples,
      )
      refl
