-- ===== src/Tms/RecordDerivation.antt =====
-- `record_derivation` as a whole, over the memory's part (Derivation) and the tables' (Recording).
use rdflib_reasoning.Base.{
  ℕ, String, ◌≡◌, refl, sym, ◌∙◌, string_eq, true, false, some, List, ◌⊎◌, inl, inr, Memᴰ, map,
  contains, arith, Option-cases, string_dec, subst,
}
use rdflib_reasoning.Base.Dict.{Dict, lookup, is_some}
use rdflib_reasoning.Errors.{ok, ◌>>=◌}
use rdflib_reasoning.Rdf.{Node, Triple, Rendering}
use rdflib_reasoning.Facts.{Fact}
use rdflib_reasoning.Tms.Memory.{WorkingMemory}
use rdflib_reasoning.Tms.Controller.{
  Justification, RuleId, TmsController, supports, justifications_for_fact_id, add_justification,
  make_justification, record_derivation,
}
use rdflib_reasoning.Tms.Support.{
  IsGrounded, by_statement, by_justification, AllGrounded, IsCoherent,
}
use rdflib_reasoning.Tms.Derivation.{IsUnclashed, Adds, add_fact-Adds}
use rdflib_reasoning.Tms.Recording.{Stores, add_justification-Stores}

module _ (r : Rendering) (triple : Triple) (rule_id : RuleId) (premises : List Fact)
    (bindings : Dict String Node) (depth : ℕ) (tms : TmsController) (h : IsCoherent tms)
    (unclashed : IsUnclashed r.n3 triple tms.working_memory)
    (present : (a : String)
      → contains (map (λ (f : Fact). f.id) premises) a ≡ true
      → is_some (lookup a tms.working_memory.facts_by_id) ≡ true) where
  -- The state after, from the parts.
  module_state : (wm : WorkingMemory) (f : Fact) → TmsController
  module_state wm f =
      add_justification (make_justification r f.id rule_id premises bindings depth)
        (record tms { working_memory = wm })

  record Recorded (after : TmsController) (f : Fact) : Type 0 where
    wm : WorkingMemory
    j : Justification
    adds : Adds triple false tms.working_memory wm f
    stores : Stores j (record tms { working_memory = wm }) after
    of_fact : j.consequent_id ≡ f.id
    of_premises : j.antecedent_ids ≡ map (λ f. f.id) premises

  recorded :
      (after : TmsController) × (f : Fact) × (record_derivation r triple rule_id premises bindings
          depth tms
        ≡ ok (after, f))
      × Recorded after f
  unfolding record_derivation module_state
  recorded =
      let (wm, f, runs, adds) =
        add_fact-Adds r.n3 triple false tms.working_memory h.indexed unclashed in
      let j = make_justification r f.id rule_id premises bindings depth in
      (
        module_state wm f,
        f,
        rw (runs, ◌>>=◌, record_derivation) refl,
        record {
          wm = wm;
          j = j;
          adds = adds;
          stores = add_justification-Stores j (record tms { working_memory = wm });
          of_fact = refl;
          of_premises = refl;
        },
      )

  module _ (after : TmsController) (f : Fact) (done : Recorded after f) where
    open done use {wm, j, adds, stores, of_fact, of_premises}

    -- A fact that was there is there, with its flag.
    still_in :
        (i : String) (g : Fact)
        → lookup i tms.working_memory.facts_by_id ≡ some g
        → (g' : Fact) × (lookup i after.working_memory.facts_by_id ≡ some g')
          × (g'.stated ≡ g.stated)
    still_in i g found = elim (string_dec i f.id) [
      | yes same ↦ (
        f,
        rw stores.memory (ground (arith, adds.facts_after i)),
        ground (arith, adds.old_flag g),
      )
      | no other ↦ (g, rw stores.memory (ground (arith, adds.facts_after i)), refl)
    ]

    still_present :
        (i : String)
        → is_some (lookup i tms.working_memory.facts_by_id) ≡ true
        → is_some (lookup i after.working_memory.facts_by_id) ≡ true
    still_present i there = elim (Option-cases (lookup i tms.working_memory.facts_by_id)) [
      | inl gone ↦ absurd (ground arith)
      | inr (g, found) ↦ let (g', found', _) = still_in i g found in ground arith
    ]

    Recorded-IsCoherent : IsCoherent after
    unfolding justifications_for_fact_id supports
    Recorded-IsCoherent = record {
      indexed = rw stores.memory adds.indexed;
      edges = stores.has_edges h.edges;
      premises = λ c a k m in_k. elim (stores.new_reasons c k m) [
        | inl old ↦ still_present a (h.premises c a k old in_k)
        | inr (_, is_j) ↦ still_present a (present a (rw (is_j, of_premises) at in_k))
      ];
    }

    still-IsGrounded : {i : String} → IsGrounded tms i → IsGrounded after i
    unfolding justifications_for_fact_id supports
    still-IsGrounded {i} (by_statement g found is_stated) =
        let (g', found', flag) = still_in i g found in by_statement g' found' (flag ∙ is_stated)
    still-IsGrounded {i} (by_justification g k found m below) =
        let (g', found', flag) = still_in i g found in
        by_justification g' k found' (stores.old_reasons i k m)
          (λ a in_k. still-IsGrounded (below a in_k))

    present-IsGrounded :
        AllGrounded tms
        → (a : String) → is_some (lookup a tms.working_memory.facts_by_id) ≡ true
        → IsGrounded after a
    present-IsGrounded grounded a there =
        elim (Option-cases (lookup a tms.working_memory.facts_by_id)) [
          | inl gone ↦ absurd (ground arith)
          | inr (g, found) ↦ still-IsGrounded (grounded a g found)
        ]

    stored-IsGrounded :
        AllGrounded tms
        → (k : Justification)
        → ((k ≡ j)
            ⊎ Memᴰ k
                (justifications_for_fact_id j.consequent_id (record tms { working_memory = wm })))
        → (a : String) → contains k.antecedent_ids a ≡ true
        → IsGrounded after a
    unfolding justifications_for_fact_id supports
    stored-IsGrounded grounded k (inl is_j) a in_k =
        present-IsGrounded grounded a (present a (rw (is_j, of_premises) at in_k))
    stored-IsGrounded grounded k (inr old) a in_k =
        present-IsGrounded grounded a (h.premises j.consequent_id a k old in_k)

    Recorded-AllGrounded : AllGrounded tms → AllGrounded after
    Recorded-AllGrounded grounded i g found =
        elim (Option-cases (lookup i tms.working_memory.facts_by_id)) [
          | inr (old, before) ↦ still-IsGrounded (grounded i old before)
          | inl new ↦ elim (string_dec i j.consequent_id) [
            | yes same ↦
                let (k, m, which) = stores.stored in
                by_justification g k found
                  (subst (λ x. Memᴰ k (justifications_for_fact_id x after)) (sym same) m)
                  (stored-IsGrounded grounded k which)
            | no other ↦
                let there : lookup i wm.facts_by_id ≡ some g = rw stores.memory at found in
                absurd (ground (arith, adds.facts_after i))
          ]
        ]

  -- On coherent tables, recording a derivation from facts in memory returns a fact of the derived
  -- triple and keeps the tables coherent, if no fact of another triple is stored under the triple's
  -- id.
  pub record_derivation-IsCoherent :
      (after : TmsController) × (f : Fact) × (record_derivation r triple rule_id premises bindings
          depth tms
        ≡ ok (after, f))
      × (f.triple ≡ triple)
      × IsCoherent after
  record_derivation-IsCoherent =
      let (after, f, runs, done) = recorded in
      (after, f, runs, done.adds.of_triple, Recorded-IsCoherent after f done)

  -- On coherent tables, recording a derivation from facts in memory keeps every fact grounded, if no
  -- fact of another triple is stored under the triple's id.
  pub record_derivation-AllGrounded :
      (after : TmsController) (f : Fact)
      → AllGrounded tms
      → record_derivation r triple rule_id premises bindings depth tms ≡ ok (after, f)
      → AllGrounded after
  record_derivation-AllGrounded after f grounded runs =
      let (after', f', runs', done) = recorded in
      let same : after' ≡ after = cc in
      subst AllGrounded same (Recorded-AllGrounded after' f' done grounded)
