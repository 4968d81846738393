-- ===== src/Tms/Retract/Correct.antt =====
-- `retract_triple`: what it promises on each of its branches.
use rdflib_reasoning.Base.{
  String, ◌≡◌, ◌≢◌, refl, sym, ◌∙◌, string_eq, true, false, none, some, List, [], ◌∷◌, ◌⊎◌, inl,
  inr, ◌↔◌, Memᴰ, contains, arith, Bool-cases, Option-cases, subst,
}
use rdflib_reasoning.Base.Dict.{lookup, lookup-insert}
use rdflib_reasoning.Base.Sorting.{contains-sorted}
use rdflib_reasoning.Errors.{ok, raise, value_error}
use rdflib_reasoning.Rdf.{Triple, triple_eq}
use rdflib_reasoning.Facts.{Fact}
use rdflib_reasoning.Tms.Memory.{get_fact, has_fact}
use rdflib_reasoning.Tms.Memory.Laws.{
  IsIndexed, get_fact_total, get_fact-eq-some, set_stated-IsIndexed,
}
use rdflib_reasoning.Tms.Controller.{
  Justification, TmsController, supports, justifications_for_fact_id,
}
use rdflib_reasoning.Tms.Support.{IsGrounded, AllGrounded, IsCoherent}
use rdflib_reasoning.Tms.Retract.{
  RetractionOutcome, empty_outcome, clear_stated, mark_verify_sweep, retract_triple,
}
use rdflib_reasoning.Tms.Retract.Final.{
  mark_verify_sweep_total, mark_verify_sweep-Final, Final, swept as swept_ids,
}
use rdflib_reasoning.Tms.Retract.Grounded.{after-AllGrounded, after-IsCoherent, left-iff-IsGrounded}

pub List-cases :
    (xs : List Justification)
    → (xs ≡ []) ⊎ ((x : Justification) × (rest : List Justification) × (xs ≡ x ∷ rest))
List-cases [] = inl refl
List-cases (x ∷ xs) = inr (x, xs, refl)

pub clear_stated-IsCoherent :
    (f : Fact) (tms : TmsController)
    → IsCoherent tms
    → lookup f.id tms.working_memory.facts_by_id ≡ some f
    → IsCoherent (clear_stated f tms)
unfolding clear_stated justifications_for_fact_id supports
clear_stated-IsCoherent f tms h found = record {
  indexed = set_stated-IsIndexed f.id tms.working_memory f false h.indexed found;
  edges = h.edges;
  premises = λ c a j m in_j. ground (
    arith,
    h.premises c a j m in_j,
    lookup-insert a f.id (record f { stated = false }) tms.working_memory.facts_by_id,
  );
}

-- The branch that a call of `retract_triple` takes.
pub data Branch (triple : Triple) (tms : TmsController) : Type 0 where
  absent :
      get_fact triple tms.working_memory ≡ ok none
      → retract_triple triple tms ≡ ok (tms, empty_outcome)
      → Branch triple tms
  derived :
      (f : Fact)
      → get_fact triple tms.working_memory ≡ ok (some f)
      → f.stated ≡ false
      → retract_triple triple tms ≡ raise value_error
      → Branch triple tms
  unstated :
      (f : Fact)
      → get_fact triple tms.working_memory ≡ ok (some f)
      → f.stated ≡ true
      → justifications_for_fact_id f.id tms ≢ []
      → retract_triple triple tms
        ≡ ok (clear_stated f tms, record empty_outcome { unstated_fact_ids = f.id ∷ [] })
      → Branch triple tms
  swept :
      (f : Fact)
      → get_fact triple tms.working_memory ≡ ok (some f)
      → f.stated ≡ true
      → justifications_for_fact_id f.id tms ≡ []
      → retract_triple triple tms ≡ mark_verify_sweep f.id tms
      → Branch triple tms

pub branch_of :
    (triple : Triple) (tms : TmsController) → IsIndexed tms.working_memory → Branch triple tms
unfolding retract_triple
branch_of triple tms h =
    let (found, got) = get_fact_total triple tms.working_memory h in
    elim (Option-cases found) [
      | inl e ↦ absent (ground arith) (ground arith)
      | inr (f, e) ↦ elim (Bool-cases f.stated) [
        | inr no_statement ↦ derived f (ground arith) no_statement (ground arith)
        | inl is_stated ↦ elim (List-cases (justifications_for_fact_id f.id tms)) [
          | inl alone ↦ swept f (ground arith) is_stated alone (ground arith)
          | inr (j, js, more) ↦ unstated f (ground arith) is_stated (λ nothing. cc) (ground arith)
        ]
      ]
    ]

-- `retract_triple` on coherent tables never raises a KeyError: an unknown triple leaves everything
-- as it is and gives the empty outcome, a fact that is only derived is a ValueError, and the
-- retraction of a stated fact returns.
pub retract_triple_total :
    (triple : Triple) (tms : TmsController)
    → IsCoherent tms
    → ((get_fact triple tms.working_memory ≡ ok none)
        × (retract_triple triple tms ≡ ok (tms, empty_outcome)))
      ⊎ (((f : Fact) × (get_fact triple tms.working_memory ≡ ok (some f))
            × (f.stated ≡ false)
            × (retract_triple triple tms ≡ raise value_error))
          ⊎ ((f : Fact) × (after : TmsController) × (outcome : RetractionOutcome) × (get_fact triple
                  tms.working_memory
                ≡ ok (some f))
              × (f.stated ≡ true)
              × (retract_triple triple tms ≡ ok (after, outcome))))
retract_triple_total triple tms h = elim (branch_of triple tms h.indexed) [
  | absent got runs ↦ inl (got, runs)
  | derived f got flag runs ↦ inr (inl (f, got, flag, runs))
  | unstated f got flag some_reason runs ↦ inr (inr (f, _, _, got, flag, runs))
  | swept f got flag alone runs ↦
      let (after, outcome, returns, _) = mark_verify_sweep_total f.id tms h in
      inr (inr (f, after, outcome, got, flag, runs ∙ returns))
]

-- Coherent tables stay coherent, on every branch of `retract_triple` that returns.
pub retract_triple-IsCoherent :
    (triple : Triple) (tms after : TmsController) (outcome : RetractionOutcome)
    → IsCoherent tms
    → retract_triple triple tms ≡ ok (after, outcome)
    → IsCoherent after
retract_triple-IsCoherent triple tms after outcome h returns =
    elim (branch_of triple tms h.indexed) [
      | absent got runs ↦ let same : tms ≡ after = cc in subst IsCoherent same h
      | derived f got flag runs ↦ absurd (cc)
      | unstated f got flag some_reason runs ↦
          let same : clear_stated f tms ≡ after = cc in
          subst IsCoherent same (
            clear_stated-IsCoherent f tms h
              (get_fact-eq-some triple tms.working_memory h.indexed got).1)
      | swept f got flag alone runs ↦
          after-IsCoherent f tms after outcome h
            (mark_verify_sweep-Final f.id tms after outcome h (sym runs ∙ returns))
    ]

-- A stated fact with no justification of its own.
module _ (triple : Triple) (f : Fact) (tms after : TmsController) (outcome : RetractionOutcome)
    (h : IsCoherent tms) (got : get_fact triple tms.working_memory ≡ ok (some f))
    (is_stated : f.stated ≡ true) (alone : justifications_for_fact_id f.id tms ≡ [])
    (returns : retract_triple triple tms ≡ ok (after, outcome)) where
  retract_triple-Final : Final f.id tms after outcome
  unfolding retract_triple
  retract_triple-Final =
      let runs : retract_triple triple tms ≡ mark_verify_sweep f.id tms = ground arith in
      mark_verify_sweep-Final f.id tms after outcome h (sym runs ∙ returns)

  -- On coherent tables, retracting a stated fact that has no justification leaves exactly the facts
  -- that are grounded once it is no longer stated, if every fact was grounded before.
  pub retract_triple_exact :
      AllGrounded tms
      → (i : String) (g : Fact)
      → (lookup i after.working_memory.facts_by_id ≡ some g)
        ↔ ((lookup i tms.working_memory.facts_by_id ≡ some g) × IsGrounded (clear_stated f tms) i)
  retract_triple_exact grounded =
      left-iff-IsGrounded f tms after outcome h retract_triple-Final grounded alone

  -- On coherent tables, retracting a stated fact that has no justification leaves every fact
  -- grounded, if every fact was grounded before.
  pub retract_triple-AllGrounded : AllGrounded tms → AllGrounded after
  retract_triple-AllGrounded = after-AllGrounded f tms after outcome h retract_triple-Final

  -- On coherent tables, the outcome of retracting a stated fact that has no justification lists
  -- exactly the triples that were in memory before and are not in memory after.
  pub mem-removed_triples :
      (t : Triple)
      → Memᴰ t outcome.removed_triples
        ↔ ((has_fact t tms.working_memory ≡ true) × (has_fact t after.working_memory ≡ false))
  unfolding has_fact
  mem-removed_triples t = (
    λ m.
        let (i, g, inside, found, of_t) = (retract_triple-Final.removed t).0 m in
        let (named, known) = h.indexed.by_id i g found in
        (
          ground arith,
          elim (Option-cases (lookup t after.working_memory.fact_ids_by_triple)) [
            | inl gone ↦ ground arith
            | inr (k, still) ↦
                let (g', at_k, of_t') = retract_triple-Final.indexed.by_triple t k still in
                let before : lookup k tms.working_memory.facts_by_id ≡ some g' =
                  ground (arith, retract_triple-Final.facts_left k) in
                let (_, known') = h.indexed.by_id k g' before in
                absurd (
                  ground (
                    arith,
                    retract_triple-Final.facts_left k,
                    contains-sorted (swept_ids f.id tms) i,
                  ))
          ],
        ),
    λ (before, gone). elim (Option-cases (lookup t tms.working_memory.fact_ids_by_triple)) [
      | inl never ↦ absurd (ground arith)
      | inr (i, known) ↦
          let (g, found, of_t) = h.indexed.by_triple t i known in
          (retract_triple-Final.removed t).1 (
            i,
            g,
            elim (Bool-cases (contains (swept_ids f.id tms) i)) [
              | inl inside ↦ contains-sorted (swept_ids f.id tms) i ∙ inside
              | inr outside ↦
                  let still : lookup i after.working_memory.facts_by_id ≡ some g =
                    ground (arith, retract_triple-Final.facts_left i) in
                  let (_, there) = retract_triple-Final.indexed.by_id i g still in
                  absurd (ground arith)
            ],
            found,
            of_t,
          )
    ],
  )
