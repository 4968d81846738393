-- ===== src/Tms/Recording.antt =====
-- `record_derivation`: the tables and their edges after a justification is stored.
use rdflib_reasoning.Base.{
  String, ◌≡◌, refl, sym, ◌==◌, string_eq, true, none, some, ◌⊎◌, inl, inr, Memᴰ, contains,
  if◌then◌else◌, arith, Option-cases, string_dec, subst,
}
use rdflib_reasoning.Base.Dict.{
  Dict, lookup, insert, values, lookup-insert, mem-values-insert, mem-values-insert_of_mem,
  mem-values_of_lookup, lookup-insert_self,
}
use rdflib_reasoning.Tms.Graph.{DependencyGraph, add_support, consequents_of}
use rdflib_reasoning.Tms.Graph.Laws.{contains-consequents_of-add_support}
use rdflib_reasoning.Tms.Controller.{
  Justification, TmsController, supports, justifications_for_fact_id, add_justification,
}

-- Each justification of the controller has its edges.
abbrev pub HasEdges : TmsController → Type 0
HasEdges tms =
    (c a : String) (k : Justification)
    → Memᴰ k (justifications_for_fact_id c tms)
    → contains k.antecedent_ids a ≡ true
    → contains (consequents_of tms.dependency_graph a) c ≡ true

-- What storing a justification does to the tables.
pub record Stores (j : Justification) (before after : TmsController) : Type 0 where
  pub memory : after.working_memory ≡ before.working_memory
  pub old_reasons :
      (i : String) (k : Justification)
      → Memᴰ k (justifications_for_fact_id i before)
      → Memᴰ k (justifications_for_fact_id i after)
  pub new_reasons :
      (i : String) (k : Justification)
      → Memᴰ k (justifications_for_fact_id i after)
      → Memᴰ k (justifications_for_fact_id i before) ⊎ ((i ≡ j.consequent_id) × (k ≡ j))
  pub has_edges : HasEdges before → HasEdges after
  -- Afterwards the fact has a justification: the new one, or the one stored under its key.
  pub stored :
      (k : Justification) × Memᴰ k (justifications_for_fact_id j.consequent_id after)
      × ((k ≡ j) ⊎ Memᴰ k (justifications_for_fact_id j.consequent_id before))

-- The controller with the supports of one fact replaced.
abbrev with_supports :
    String → Dict String Justification → DependencyGraph → TmsController → TmsController
with_supports c d g tms = record tms {
  dependency_graph = g;
  justifications_by_consequent = insert c d tms.justifications_by_consequent;
}

reasons_at :
    (c : String) (d : Dict String Justification) (g : DependencyGraph) (tms : TmsController)
    (i : String)
    → justifications_for_fact_id i (with_supports c d g tms)
      ≡ (if i == c then values d else justifications_for_fact_id i tms)
unfolding justifications_for_fact_id supports
reasons_at c d g tms i = ground (arith, lookup-insert i c d tms.justifications_by_consequent)

reasons_self :
    (tms : TmsController) (i : String) → justifications_for_fact_id i tms ≡ values (supports i tms)
unfolding justifications_for_fact_id
reasons_self tms i = refl

module _ (j : Justification) (tms : TmsController) where
  abbrev c : String
  c = j.consequent_id

  abbrev known : Dict String Justification
  known = supports c tms

  -- The justification is known: the supports are stored as they were.
  reasons_known :
      (i : String)
      → justifications_for_fact_id i (with_supports c known tms.dependency_graph tms)
        ≡ justifications_for_fact_id i tms
  reasons_known i =
      ground (arith, reasons_at c known tms.dependency_graph tms i, reasons_self tms c)

  Stores-known :
      (k : Justification)
      → lookup j.id known ≡ some k
      → Stores j tms (with_supports c known tms.dependency_graph tms)
  Stores-known k found = record {
    memory = refl;
    old_reasons = λ i l m. rw (reasons_known i) m;
    new_reasons = λ i l m. inl (rw (reasons_known i) at m);
    has_edges = λ h d a l m in_l. h d a l (rw (reasons_known d) at m) in_l;
    stored =
        let own : Memᴰ k (justifications_for_fact_id c tms) =
          rw (reasons_self tms c) (mem-values_of_lookup j.id known found) in
        (k, rw (reasons_known c) own, inr own);
  }

  abbrev grown : TmsController
  grown =
      with_supports c (insert j.id j known) (add_support c j.antecedent_ids tms.dependency_graph)
        tms

  reasons_grown :
      (i : String)
      → justifications_for_fact_id i grown
        ≡ (if i == c then values (insert j.id j known) else justifications_for_fact_id i tms)
  reasons_grown =
      reasons_at c (insert j.id j known) (add_support c j.antecedent_ids tms.dependency_graph) tms

  grown_cases :
      (i : String) (l : Justification)
      → Memᴰ l (justifications_for_fact_id i grown)
      → Memᴰ l (justifications_for_fact_id i tms) ⊎ ((i ≡ c) × (l ≡ j))
  grown_cases i l m = elim (string_dec i c) [
    | yes same ↦
        let e : justifications_for_fact_id i grown ≡ values (insert j.id j known) =
          ground (arith, reasons_grown i) in
        elim (mem-values-insert j.id j known (rw e at m)) [
          | inl new ↦ inr (same, new)
          | inr old ↦ inl (
              subst (λ x. Memᴰ l (justifications_for_fact_id x tms)) (sym same)
                (rw (reasons_self tms c) old))
        ]
    | no other ↦
        let e : justifications_for_fact_id i grown ≡ justifications_for_fact_id i tms =
          ground (arith, reasons_grown i) in
        inl (rw e at m)
  ]

  Stores-new : lookup j.id known ≡ none → Stores j tms grown
  Stores-new vacant = record {
    memory = refl;
    old_reasons = λ i l m. elim (string_dec i c) [
      | yes same ↦
          let e : justifications_for_fact_id i grown ≡ values (insert j.id j known) =
            ground (arith, reasons_grown i) in
          let own = subst (λ x. Memᴰ l (justifications_for_fact_id x tms)) same m in
          rw e (mem-values-insert_of_mem j.id j known vacant (rw (reasons_self tms c) at own))
      | no other ↦
          let e : justifications_for_fact_id i grown ≡ justifications_for_fact_id i tms =
            ground (arith, reasons_grown i) in
          rw e m
    ];
    new_reasons = grown_cases;
    has_edges = λ h d a l m in_l. elim (grown_cases d l m) [
      | inl old ↦
          let before = h d a l old in_l in
          ground
            (arith, contains-consequents_of-add_support c j.antecedent_ids tms.dependency_graph a d)
      | inr (same, is_j) ↦
          let own : contains j.antecedent_ids a ≡ true = rw is_j at in_l in
          ground
            (arith, contains-consequents_of-add_support c j.antecedent_ids tms.dependency_graph a d)
    ];
    stored =
        let e : justifications_for_fact_id c grown ≡ values (insert j.id j known) =
          ground (arith, reasons_grown c) in
        (
          j,
          rw e (mem-values_of_lookup j.id (insert j.id j known) (lookup-insert_self j.id j known)),
          inl refl,
        );
  }

  pub add_justification-Stores : Stores j tms (add_justification j tms)
  unfolding add_justification
  add_justification-Stores = elim (Option-cases (lookup j.id known)) [
    | inl vacant ↦ rw (vacant, add_justification) (Stores-new vacant)
    | inr (k, found) ↦ rw (found, add_justification) (Stores-known k found)
  ]
