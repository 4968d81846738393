-- ===== src/Tms/Retract/Cycles.antt =====
-- The branch of `retract_triple` that only clears the flag, on facts that support each other.
use rdflib_reasoning.Base.{
  String, ◌≡◌, ◌≢◌, refl, ◌==◌, string_eq, string_dec, List, true, false, some, [], ◌∷◌, Memᴰ,
  contains, if◌then◌else◌, arith, ◌⊎◌, inl, inr,
}
use rdflib_reasoning.Base.Dict.{lookup, lookup-insert}
use rdflib_reasoning.Errors.{ok}
use rdflib_reasoning.Rdf.{Triple}
use rdflib_reasoning.Facts.{Fact}
use rdflib_reasoning.Tms.Memory.{get_fact}
use rdflib_reasoning.Tms.Controller.{
  Justification, TmsController, supports, justifications_for_fact_id,
}
use rdflib_reasoning.Tms.Support.{IsGrounded, by_statement, by_justification, IsCoherent}
use rdflib_reasoning.Tms.Retract.{RetractionOutcome, empty_outcome, clear_stated, retract_triple}
use rdflib_reasoning.Tms.Retract.Correct.{List-cases}

-- Facts that support nothing but each other: all are in memory, none but the given fact is stated,
-- and each justification of one of them rests on one of them.
pub record IsUnfounded (f : Fact) (tms : TmsController) (ids : List String) : Type 0 where
  pub own : contains ids f.id ≡ true
  pub others :
      (i : String)
      → contains ids i ≡ true
      → (i ≡ f.id)
        ⊎ ((b : Fact) × (lookup i tms.working_memory.facts_by_id ≡ some b) × (b.stated ≡ false))
  pub inward :
      (i : String) (j : Justification)
      → contains ids i ≡ true
      → Memᴰ j (justifications_for_fact_id i tms)
      → (a : String) × (contains j.antecedent_ids a ≡ true) × (contains ids a ≡ true)

module _ (f : Fact) (tms : TmsController) where
  abbrev cleared : Fact
  cleared = record f { stated = false }

  lookup-cleared :
      (i : String)
      → lookup i (clear_stated f tms).working_memory.facts_by_id
        ≡ (if i == f.id then some cleared else lookup i tms.working_memory.facts_by_id)
  unfolding clear_stated
  lookup-cleared i = lookup-insert i f.id cleared tms.working_memory.facts_by_id

  reasons-cleared :
      (i : String)
      → justifications_for_fact_id i (clear_stated f tms) ≡ justifications_for_fact_id i tms
  unfolding clear_stated justifications_for_fact_id supports
  reasons-cleared i = refl

  module _ (ids : List String) (u : IsUnfounded f tms ids) where
    not-IsGrounded : {i : String} → IsGrounded (clear_stated f tms) i → contains ids i ≡ true → ⊥
    not-IsGrounded {i} (by_statement g found is_stated) inside = elim (u.others i inside) [
      | inl same ↦ ground (arith, lookup-cleared i)
      | inr (b, found_b, flag) ↦ ground (arith, lookup-cleared i)
    ]
    not-IsGrounded {i} (by_justification g j found m below) inside =
        let (a, in_j, in_ids) = u.inward i j inside (rw (reasons-cleared i) at m) in
        not-IsGrounded (below a in_j) in_ids

    -- Each of them is still there, and not stated.
    kept_unstated :
        (i : String)
        → contains ids i ≡ true
        → (b : Fact) × (lookup i (clear_stated f tms).working_memory.facts_by_id ≡ some b)
          × (b.stated ≡ false)
    kept_unstated i inside = elim (string_dec i f.id) [
      | yes same ↦ (cleared, ground (arith, lookup-cleared i, same), refl)
      | no other ↦ elim (u.others i inside) [
        | inl same ↦ absurd (other same)
        | inr (b, found_b, flag) ↦ (b, ground (arith, lookup-cleared i, found_b, other), flag)
      ]
    ]

-- On coherent tables, retracting a stated fact that has a justification keeps a set of facts that it
-- is in, of which it alone is stated and each justification of which rests on one of the set (a
-- cycle of support of any length): each of them is in memory afterwards, not stated, and nothing
-- stated supports it.
pub retract_triple-keeps_cycle :
    (triple : Triple) (f : Fact) (tms : TmsController) (ids : List String)
    → IsCoherent tms
    → get_fact triple tms.working_memory ≡ ok (some f)
    → f.stated ≡ true
    → justifications_for_fact_id f.id tms ≢ []
    → IsUnfounded f tms ids
    → (after : TmsController) × (outcome : RetractionOutcome) × (retract_triple triple tms
        ≡ ok (after, outcome))
      × ((i : String)
          → contains ids i ≡ true
          → ((b : Fact) × (lookup i after.working_memory.facts_by_id ≡ some b) × (b.stated ≡ false))
            × ¬ IsGrounded after i)
unfolding retract_triple
retract_triple-keeps_cycle triple f tms ids h got is_stated more u =
    elim (List-cases (justifications_for_fact_id f.id tms)) [
      | inl alone ↦ absurd (more alone)
      | inr (j, js, e) ↦ (
        clear_stated f tms,
        record empty_outcome { unstated_fact_ids = f.id ∷ [] },
        ground arith,
        λ i inside. (kept_unstated f tms ids u i inside, λ g. not-IsGrounded f tms ids u g inside),
      )
    ]
