-- ===== src/Tms/Retract/Final.antt =====
-- The controller after mark, verify and sweep, in terms of the controller before.
use rdflib_reasoning.Base.{
  String, ◌≡◌, refl, ◌∙◌, string_eq, true, false, not, ◌&&◌, none, List, [], inl, inr, ◌↔◌, Memᴰ,
  map, contains, all-mem, all-intro, contains-mem, mem-contains, if◌then◌else◌, arith, Bool-cases,
  subst,
}
use mathlib.Core.List.Memᴰ
use rdflib_reasoning.Base.Dict.{lookup, values}
use rdflib_reasoning.Base.Sets.{difference, contains-difference}
use rdflib_reasoning.Base.Sorting.{sorted, contains-sorted}
use rdflib_reasoning.Errors.{ok, ◌>>=◌}
use rdflib_reasoning.Rdf.{Triple}
use rdflib_reasoning.Tms.Graph.{consequents_of}
use rdflib_reasoning.Tms.Memory.Laws.{IsIndexed}
use rdflib_reasoning.Tms.Controller.{
  Justification, TmsController, supports, justifications_for_fact_id,
}
use rdflib_reasoning.Tms.Support.{IsCoherent}
use rdflib_reasoning.Tms.Retract.{
  SweepState, RetractionOutcome, candidates_of, kept_of, survives, trim_facts, mark_verify_sweep,
}
use rdflib_reasoning.Tms.Retract.Mark.{mem-candidates_of, one, more}
use rdflib_reasoning.Tms.Retract.Sweep.{Sweeps, sweep_facts_lem, HasTriple}
use rdflib_reasoning.Tms.Retract.Trim.{Trims, trim_facts-Trims, reasons}

module _ (seed : String) (tms : TmsController) where
  abbrev pub candidates : List String
  candidates = candidates_of tms.dependency_graph seed

  abbrev pub kept : List String
  kept = kept_of tms seed candidates

  abbrev pub swept : List String
  swept = difference candidates kept

  abbrev pub start : SweepState
  start = record { tms = tms; removed_pairs = []; removed_justification_ids = [] }

  pub contains-swept :
      (i : String) → contains swept i ≡ (contains candidates i && not (contains kept i))
  contains-swept i = contains-difference candidates kept i

  -- What depends on a candidate is a candidate.
  pub candidates_closed :
      (a c : String)
      → contains candidates a ≡ true
      → contains (consequents_of tms.dependency_graph a) c ≡ true
      → contains candidates c ≡ true
  candidates_closed a c m edge =
      (mem-candidates_of tms.dependency_graph seed c).1
        (elim ((mem-candidates_of tms.dependency_graph seed a).0 m) [
          | inl same ↦ inr (one (rw same at edge))
          | inr chain ↦ inr (more chain edge)
        ])

  pub record Final (after : TmsController) (outcome : RetractionOutcome) : Type 0 where
    pub indexed : IsIndexed after.working_memory
    pub facts_left :
        (i : String)
        → lookup i after.working_memory.facts_by_id
          ≡ (if contains swept i then none else lookup i tms.working_memory.facts_by_id)
    pub reasons_left :
        (i : String) (j : Justification)
        → Memᴰ j (justifications_for_fact_id i after) ↔ (
            (contains swept i ≡ false)
            × Memᴰ j (justifications_for_fact_id i tms)
            × (survives swept j ≡ true))
    pub edges_left :
        (a c : String) (j : Justification)
        → Memᴰ j (justifications_for_fact_id c after)
        → contains j.antecedent_ids a ≡ true
        → contains (consequents_of after.dependency_graph a) c ≡ true
    pub removed : (t : Triple) → Memᴰ t outcome.removed_triples ↔ HasTriple (sorted swept) start t

  -- A justification of a fact outside the candidates has no swept antecedent.
  survives_outside :
      IsCoherent tms
      → (i : String) (j : Justification) → contains candidates i ≡ false
      → Memᴰ j (justifications_for_fact_id i tms)
      → survives swept j ≡ true
  survives_outside h i j out m =
      all-intro (λ a. not (contains swept a)) j.antecedent_ids
        (λ a in_j.
          let edge = h.edges i a j m (mem-contains j.antecedent_ids a in_j) in
          elim (Bool-cases (contains candidates a)) [
            | inl inside ↦ let reached = candidates_closed a i inside edge in absurd (ground arith)
            | inr outside ↦ ground (arith, contains-swept a)
          ])

  pub survivor-outside :
      (j : Justification) (a : String)
      → survives swept j ≡ true
      → contains j.antecedent_ids a ≡ true
      → contains swept a ≡ false
  survivor-outside j a alive in_j =
      let e =
        all-mem (λ b. not (contains swept b)) j.antecedent_ids alive
          (contains-mem j.antecedent_ids a in_j) in
      ground arith

  reasons-Sweeps :
      (s : SweepState)
      → Sweeps (sorted swept) start s
      → (i : String) (j : Justification)
      → Memᴰ j (reasons s i)
        ↔ ((contains swept i ≡ false) × Memᴰ j (justifications_for_fact_id i tms))
  unfolding justifications_for_fact_id supports values
  reasons-Sweeps s h i j = elim (Bool-cases (contains swept i)) [
    | inl gone ↦
        let nothing : lookup i s.tms.justifications_by_consequent ≡ none =
          ground (arith, h.tables_left i, contains-sorted swept i) in
        (λ m. absurd (Memᴰ.not-nil (rw (nothing, values) at m)), λ (out, m). absurd (ground arith))
    | inr out ↦
        let same : lookup i s.tms.justifications_by_consequent
            ≡ lookup i tms.justifications_by_consequent =
          ground (arith, h.tables_left i, contains-sorted swept i) in
        (λ m. (out, rw same at m), λ (_, m). rw same m)
  ]

  trim-Final :
      (s : SweepState)
      → IsCoherent tms
      → Sweeps (sorted swept) start s
      → Final (trim_facts swept (sorted kept) s).tms (record {
        removed_fact_ids = map (λ (id, _). id) (trim_facts swept (sorted kept) s).removed_pairs;
        removed_triples =
            map (λ (_, triple). triple) (trim_facts swept (sorted kept) s).removed_pairs;
        removed_justification_ids =
            sorted (trim_facts swept (sorted kept) s).removed_justification_ids;
        unstated_fact_ids = [];
      })
  trim-Final s h sweeps = record {
    indexed = rw trims.memory sweeps.indexed;
    facts_left =
        λ i. rw trims.memory (ground (arith, sweeps.facts_left i, contains-sorted swept i));
    reasons_left = λ i j. (λ m. left i j m, λ (out, m, alive). back i j out m alive);
    edges_left = λ a c j m in_j.
        let (out, old, alive) = left c j m in
        trims.edges_left a c j m in_j (
          sweeps.edges_left a c (contains-sorted swept a ∙ survivor-outside j a alive in_j)
            (contains-sorted swept c ∙ out) (h.edges c a j old in_j));
    removed = λ t. (
      λ m. elim (sweeps.removed_sound t (rw trims.pairs at m)) [
        | inl before ↦ absurd (Memᴰ.not-nil before)
        | inr there ↦ there
      ],
      λ there. rw trims.pairs (sweeps.removed_full t there),
    );
  }
    where
      after : SweepState
      after = trim_facts swept (sorted kept) s

      trims : Trims swept (sorted kept) s after
      trims = trim_facts-Trims swept (sorted kept) s

      left :
          (i : String) (j : Justification)
          → Memᴰ j (justifications_for_fact_id i after.tms)
          → (contains swept i ≡ false)
            × Memᴰ j (justifications_for_fact_id i tms)
            × (survives swept j ≡ true)
      left i j m =
          let (mid, trimmed) = (trims.reasons_left i j).0 m in
          let (out, old) = (reasons-Sweeps s sweeps i j).0 mid in
          (
            out,
            old,
            elim (Bool-cases (contains kept i)) [
              | inl k ↦ trimmed (contains-sorted kept i ∙ k)
              | inr k ↦ survives_outside h i j (ground (arith, contains-swept i)) old
            ],
          )

      back :
          (i : String) (j : Justification)
          → contains swept i ≡ false
          → Memᴰ j (justifications_for_fact_id i tms)
          → survives swept j ≡ true
          → Memᴰ j (justifications_for_fact_id i after.tms)
      back i j out m alive =
          (trims.reasons_left i j).1 ((reasons-Sweeps s sweeps i j).1 (out, m), λ _. alive)

  -- From coherent tables the three phases run to their end.
  pub mark_verify_sweep_total :
      IsCoherent tms
      → (after : TmsController) × (outcome : RetractionOutcome) × (mark_verify_sweep seed tms
          ≡ ok (after, outcome))
        × Final after outcome
  unfolding mark_verify_sweep
  mark_verify_sweep_total h =
      let (s, runs, sweeps) = sweep_facts_lem (sorted swept) start h.indexed in
      (_, _, rw (runs, ◌>>=◌, mark_verify_sweep) refl, trim-Final s h sweeps)

  pub mark_verify_sweep-Final :
      (after : TmsController) (outcome : RetractionOutcome)
      → IsCoherent tms
      → mark_verify_sweep seed tms ≡ ok (after, outcome)
      → Final after outcome
  mark_verify_sweep-Final after outcome h runs =
      let (t, o, runs', final) = mark_verify_sweep_total h in
      let same_state : t ≡ after = cc in
      let same_outcome : o ≡ outcome = cc in
      subst (λ x. Final x outcome) same_state (subst (λ x. Final t x) same_outcome final)
