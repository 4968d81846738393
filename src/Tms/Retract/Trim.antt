-- ===== src/Tms/Retract/Trim.antt =====
-- The trim loop over the kept facts: what it does to their justifications and edges.
use rdflib_reasoning.Base.{
  String, ◌≡◌, refl, ◌∙◌, ◌==◌, string_eq, true, false, not, ◌&&◌, some, List, [], ◌∷◌, inl, inr,
  ◌↔◌, Memᴰ, contains, contains-append, if◌then◌else◌, arith, Bool-cases, Option-cases, string_dec,
}
use mathlib.Core.List.Memᴰ
use rdflib_reasoning.Base.Dict.{
  Dict, lookup, values, filter_values, lookup-erase, lookup-insert, mem-values-filter_values,
  mem-values-filter_values_of_mem,
}
use rdflib_reasoning.Tms.Graph.{update_consequent_edges}
use rdflib_reasoning.Tms.Graph.Laws.{update_consequent_edges-keeps}
use rdflib_reasoning.Tms.Controller.{Justification, supports, justifications_for_fact_id}
use rdflib_reasoning.Tms.Retract.{SweepState, survives, concat_antecedents, trim_fact, trim_facts}
use rdflib_reasoning.Tms.Retract.Sweep.{edge, tables}

abbrev pub reasons : SweepState → String → List Justification
reasons s id = justifications_for_fact_id id s.tms

pub record Trims (swept ids : List String) (before after : SweepState) : Type 0 where
  pub memory : after.tms.working_memory ≡ before.tms.working_memory
  pub pairs : after.removed_pairs ≡ before.removed_pairs
  pub reasons_left :
      (i : String) (j : Justification)
      → Memᴰ j (reasons after i)
        ↔ (Memᴰ j (reasons before i) × (contains ids i ≡ true → survives swept j ≡ true))
  pub edges_left :
      (a c : String) (j : Justification)
      → Memᴰ j (reasons after c)
      → contains j.antecedent_ids a ≡ true
      → edge before a c ≡ true
      → edge after a c ≡ true

contains-concat_antecedents :
    (j : Justification) (a : String) (js : List Justification)
    → Memᴰ j js
    → contains j.antecedent_ids a ≡ true
    → contains (concat_antecedents js) a ≡ true
contains-concat_antecedents j a [] m h = elim m [ ]
contains-concat_antecedents j a (k ∷ js) (Memᴰ.head e) h =
    let own : contains k.antecedent_ids a ≡ true = ground arith in
    ground (arith, contains-append k.antecedent_ids (concat_antecedents js) a)
contains-concat_antecedents j a (k ∷ js) (Memᴰ.tail m) h = ground (
  arith,
  contains-concat_antecedents j a js m h,
  contains-append k.antecedent_ids (concat_antecedents js) a,
)

module _ (swept : List String) (id : String) (s : SweepState) (known : Dict String Justification)
    (found : lookup id (tables s) ≡ some known) where
  abbrev left : Dict String Justification
  left = filter_values (survives swept) known

  supports-trim_fact :
      (i : String)
      → supports i (trim_fact swept id s).tms ≡ (if i == id then left else supports i s.tms)
  unfolding trim_fact supports
  supports-trim_fact i =
      ground (arith, lookup-erase i id (tables s), lookup-insert i id left (tables s))

  graph-trim_fact :
      (trim_fact swept id s).tms.dependency_graph
      ≡ update_consequent_edges id (concat_antecedents (values left)) s.tms.dependency_graph
  unfolding trim_fact
  graph-trim_fact = rw (found, trim_fact) refl

  reasons_at : (i : String) → i ≡ id → reasons (trim_fact swept id s) i ≡ values left
  unfolding justifications_for_fact_id
  reasons_at i same = ground (arith, supports-trim_fact i)

  reasons_before : (i : String) → i ≡ id → reasons s i ≡ values known
  unfolding justifications_for_fact_id supports
  reasons_before i same = rw (same, found, supports) refl

  reasons_off : (i : String) → (i == id) ≡ false → reasons (trim_fact swept id s) i ≡ reasons s i
  unfolding justifications_for_fact_id
  reasons_off i other = ground (arith, supports-trim_fact i)

  trimmed :
      (i : String) (j : Justification)
      → Memᴰ j (reasons (trim_fact swept id s) i)
        ↔ (Memᴰ j (reasons s i) × (contains (id ∷ []) i ≡ true → survives swept j ≡ true))
  trimmed i j = elim (string_dec i id) [
    | yes same ↦ (
      λ m.
          let (old, alive) =
            mem-values-filter_values (survives swept) known (rw (reasons_at i same) at m) in
          (rw (reasons_before i same) old, λ _. alive),
      λ (old, alive). rw (reasons_at i same) (
          mem-values-filter_values_of_mem (survives swept) known (rw (reasons_before i same) at old)
            (alive (ground arith))),
    )
    | no other ↦ (
      λ m. (rw (reasons_off i (ground arith)) at m, λ here. absurd (ground arith)),
      λ (old, _). rw (reasons_off i (ground arith)) old,
    )
  ]

  kept_edges :
      (a c : String) (j : Justification)
      → Memᴰ j (reasons (trim_fact swept id s) c)
      → contains j.antecedent_ids a ≡ true
      → edge s a c ≡ true
      → edge (trim_fact swept id s) a c ≡ true
  kept_edges a c j m in_j before = rw graph-trim_fact (
      update_consequent_edges-keeps id (concat_antecedents (values left)) s.tms.dependency_graph a c
        spared before)
    where
      spared : (c == id && not (contains (concat_antecedents (values left)) a)) ≡ false
      spared = elim (string_dec c id) [
        | yes same ↦
            let own =
              contains-concat_antecedents j a (values left) (rw (reasons_at c same) at m) in_j in
            ground arith
        | no other ↦ ground arith
      ]

  Trims-some : Trims swept (id ∷ []) s (trim_fact swept id s)
  unfolding trim_fact
  Trims-some = record {
    memory = rw (found, trim_fact) refl;
    pairs = rw (found, trim_fact) refl;
    reasons_left = trimmed;
    edges_left = kept_edges;
  }

trim_fact-Trims :
    (swept : List String) (id : String) (s : SweepState)
    → Trims swept (id ∷ []) s (trim_fact swept id s)
unfolding trim_fact
trim_fact-Trims swept id s = elim (Option-cases (lookup id (tables s))) [
  | inl nothing ↦
      let none_at = λ (i : String) (same : i ≡ id).
        let e : reasons s i ≡ [] =
          unfold justifications_for_fact_id supports values in rw (same, nothing) refl in
        e in
      rw (nothing, trim_fact)
        (record {
          memory = refl;
          pairs = refl;
          reasons_left = λ i j. (
            λ m. (m, λ here. absurd (Memᴰ.not-nil (rw (none_at i (ground arith)) at m))),
            λ (m, _). m,
          );
          edges_left = λ a c j m in_j before. before;
        })
  | inr (known, found) ↦ Trims-some swept id s known found
]

pub trim_facts-Trims :
    (swept ids : List String) (s : SweepState) → Trims swept ids s (trim_facts swept ids s)
unfolding trim_facts
trim_facts-Trims swept [] s = record {
  memory = refl;
  pairs = refl;
  reasons_left = λ i j. (λ m. (m, λ here. absurd (ground arith)), λ (m, _). m);
  edges_left = λ a c j m in_j before. before;
}
trim_facts-Trims swept (id ∷ ids) s =
    let one = trim_fact-Trims swept id s in
    let rest = trim_facts-Trims swept ids (trim_fact swept id s) in
    record {
      memory = rest.memory ∙ one.memory;
      pairs = rest.pairs ∙ one.pairs;
      reasons_left = λ i j. (
        λ m.
            let (mid, alive) = (rest.reasons_left i j).0 m in
            let (old, first) = (one.reasons_left i j).0 mid in
            (
              old,
              λ here. elim (Bool-cases (contains ids i)) [
                | inl later ↦ alive later
                | inr only ↦ first (ground arith)
              ],
            ),
        λ (old, alive). (rest.reasons_left i j).1 (
          (one.reasons_left i j).1 (old, λ here. alive (ground arith)),
          λ here. alive (ground arith),
        ),
      );
      edges_left = λ a c j m in_j before.
          rest.edges_left a c j m in_j
            (one.edges_left a c j ((rest.reasons_left c j).0 m).0 in_j before);
    }
