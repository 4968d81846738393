-- ===== src/Engine/Retraction.antt =====
-- rete_engine.py and tms.py: the triples that a retraction leaves in working memory.
use rdflib_reasoning.Base.{
  String, string_eq, ◌≡◌, refl, sym, subst, ◌∙◌, false, not, some, List, [], ◌∷◌, inl, inr, arith,
  Option-cases, mem-filter,
}
use rdflib_reasoning.Base.Dict.{Dict, lookup, erase, mem-values_of_lookup, mem-values-erase}
use rdflib_reasoning.Base.Sets.{update, difference}
use rdflib_reasoning.Errors.{
  Ensures, Ensures-if, Ensures-option, Ensures-stated, Ensures-list, Ensures-any, Ensures->>=,
}
use rdflib_reasoning.Rdf.{Triple, triple_eq}
use rdflib_reasoning.Facts.{Fact}
use rdflib_reasoning.Tms.Memory.{WorkingMemory, get_fact, remove_fact}
use rdflib_reasoning.Tms.Controller.{TmsController, justifications_for_fact_id}
use rdflib_reasoning.Tms.Retract.{
  SweepState, sweep_fact, sweep_facts, trim_fact, trim_facts, mark_verify_sweep, clear_stated,
  retract_triple,
}
use rdflib_reasoning.Engine.{ReteEngine}
use rdflib_reasoning.Engine.Saturation.{retract_each, retract_triples}
use rdflib_reasoning.Engine.Known.{AllTriples, MemoryOf, insert-MemoryOf, unpack}
use rdflib_reasoning.Engine.Invariant.{EngineOf}

module _ (P : Triple → Type 0) where
  erase-MemoryOf :
      (id : String) (wm : WorkingMemory) (ids : Dict Triple String)
      → MemoryOf P wm
      → MemoryOf P record { facts_by_id = erase id wm.facts_by_id; fact_ids_by_triple = ids }
  unfolding MemoryOf
  erase-MemoryOf id wm ids old f there = old f (mem-values-erase id wm.facts_by_id there)

  remove_fact-MemoryOf :
      (id : String) (wm : WorkingMemory)
      → MemoryOf P wm
      → Ensures (λ x. MemoryOf P x.0) (remove_fact id wm)
  unfolding remove_fact
  remove_fact-MemoryOf id wm old =
      Ensures-option (λ x. MemoryOf P x.0) (lookup id wm.facts_by_id) _ _ tt
        (λ f _.
          Ensures-option (λ x. MemoryOf P x.0) (lookup f.triple wm.fact_ids_by_triple) _ _ tt
            (λ _ _. erase-MemoryOf id wm (erase f.triple wm.fact_ids_by_triple) old))

  sweep_fact-MemoryOf :
      (id : String) (s : SweepState)
      → MemoryOf P s.tms.working_memory
      → Ensures (λ x. MemoryOf P x.tms.working_memory) (sweep_fact id s)
  unfolding sweep_fact
  sweep_fact-MemoryOf id s old =
      Ensures-option (λ x. MemoryOf P x.tms.working_memory)
        (lookup id s.tms.working_memory.facts_by_id) _ _ old
        (λ f _.
          Ensures->>= (λ x. MemoryOf P x.0) (λ x. MemoryOf P x.tms.working_memory)
            (remove_fact id s.tms.working_memory) _
            (remove_fact-MemoryOf id s.tms.working_memory old) (λ x h. h))

  trim_fact-memory :
      (swept : List String) (id : String) (s : SweepState)
      → (trim_fact swept id s).tms.working_memory ≡ s.tms.working_memory
  unfolding trim_fact
  trim_fact-memory swept id s = elim (Option-cases (lookup id s.tms.justifications_by_consequent)) [
    | inl e ↦ ground (arith, e)
    | inr (j, e) ↦ ground (arith, e)
  ]

  trim_facts-memory :
      (swept ids : List String) (s : SweepState)
      → (trim_facts swept ids s).tms.working_memory ≡ s.tms.working_memory
  unfolding trim_facts
  trim_facts-memory swept [] s = refl
  trim_facts-memory swept (id ∷ ids) s =
      trim_facts-memory swept ids (trim_fact swept id s) ∙ trim_fact-memory swept id s

  sweep_facts-MemoryOf :
      (ids : List String) (s : SweepState)
      → MemoryOf P s.tms.working_memory
      → Ensures (λ x. MemoryOf P x.tms.working_memory) (sweep_facts ids s)
  unfolding sweep_facts
  sweep_facts-MemoryOf [] s old = old
  sweep_facts-MemoryOf (id ∷ ids) s old =
      Ensures->>= (λ x. MemoryOf P x.tms.working_memory) (λ x. MemoryOf P x.tms.working_memory)
        (sweep_fact id s) _ (sweep_fact-MemoryOf id s old) (λ x h. sweep_facts-MemoryOf ids x h)

  mark_verify_sweep-MemoryOf :
      (seed : String) (tms : TmsController)
      → MemoryOf P tms.working_memory
      → Ensures (λ x. MemoryOf P x.0.working_memory) (mark_verify_sweep seed tms)
  unfolding mark_verify_sweep
  mark_verify_sweep-MemoryOf seed tms old =
      Ensures->>= (λ x. MemoryOf P x.tms.working_memory) (λ x. MemoryOf P x.0.working_memory) _ _
        (sweep_facts-MemoryOf _
          record { tms = tms; removed_pairs = []; removed_justification_ids = [] } old)
        (λ x h. subst (MemoryOf P) (sym (trim_facts-memory _ _ x)) h)

  clear_stated-MemoryOf :
      (f : Fact) (tms : TmsController)
      → P f.triple
      → MemoryOf P tms.working_memory
      → MemoryOf P (clear_stated f tms).working_memory
  unfolding clear_stated
  clear_stated-MemoryOf f tms good old =
      insert-MemoryOf P f.id (record f { stated = false }) tms.working_memory
        tms.working_memory.fact_ids_by_triple good old

  get_fact-holds :
      (t : Triple) (wm : WorkingMemory)
      → MemoryOf P wm
      → Ensures (λ found. (f : Fact) → found ≡ some f → P f.triple) (get_fact t wm)
  unfolding get_fact
  get_fact-holds t wm old =
      Ensures-option (λ found. (f : Fact) → found ≡ some f → P f.triple)
        (lookup t wm.fact_ids_by_triple) _ _ (λ f h. cc h)
        (λ id _.
          Ensures-option (λ found. (f : Fact) → found ≡ some f → P f.triple)
            (lookup id wm.facts_by_id) _ _ tt
            (λ g e f same. unpack P wm old f (mem-values_of_lookup id wm.facts_by_id (e ∙ same))))

  retract_triple-MemoryOf :
      (t : Triple) (tms : TmsController)
      → MemoryOf P tms.working_memory
      → Ensures (λ x. MemoryOf P x.0.working_memory) (retract_triple t tms)
  unfolding retract_triple
  retract_triple-MemoryOf t tms old =
      Ensures->>= (λ found. (f : Fact) → found ≡ some f → P f.triple)
        (λ x. MemoryOf P x.0.working_memory) (get_fact t tms.working_memory) _
        (get_fact-holds t tms.working_memory old)
        (λ found good.
          Ensures-option (λ x. MemoryOf P x.0.working_memory) found _ _ old
            (λ f e.
              Ensures-stated (λ x. MemoryOf P x.0.working_memory) f.stated _ _ tt
                (Ensures-list (λ x. MemoryOf P x.0.working_memory)
                  (justifications_for_fact_id f.id tms) _ _
                  (mark_verify_sweep-MemoryOf f.id tms old)
                  (clear_stated-MemoryOf f tms (good f e) old))))

  -- The triples of the cascade do not matter here, only what stays in working memory.
  retract_each-MemoryOf :
      (ts : List Triple) (state : TmsController × (List Triple × List String))
      → MemoryOf P state.0.working_memory
      → Ensures (λ x. MemoryOf P x.0.working_memory) (retract_each ts state)
  unfolding retract_each
  retract_each-MemoryOf [] state old = old
  retract_each-MemoryOf (t ∷ ts) (tms, (cascade, removed)) old =
      Ensures->>= (λ _. Unit) (λ x. MemoryOf P x.0.working_memory) (get_fact t tms.working_memory) _
        (Ensures-any (get_fact t tms.working_memory))
        (λ found _.
          Ensures-option (λ x. MemoryOf P x.0.working_memory) found _ _
            (retract_each-MemoryOf ts (tms, (cascade, removed)) old)
            (λ f _.
              Ensures-if (λ x. MemoryOf P x.0.working_memory) (not f.stated) _ _
                (λ _. retract_each-MemoryOf ts (tms, (cascade, removed)) old)
                (λ _.
                  Ensures->>= (λ x. MemoryOf P x.0.working_memory)
                    (λ x. MemoryOf P x.0.working_memory) (retract_triple t tms) _
                    (retract_triple-MemoryOf t tms old)
                    (λ result h. retract_each-MemoryOf ts (result.0, _) h))))

  AllTriples-difference : (s t : List Triple) → AllTriples P s → AllTriples P (difference s t)
  unfolding difference AllTriples
  AllTriples-difference s t h x m = h x (mem-filter _ s m).0

  pub retract_triples-EngineOf :
      (ts : List Triple) (engine : ReteEngine)
      → EngineOf P engine
      → Ensures (λ x. EngineOf P x.0) (retract_triples ts engine)
  unfolding retract_triples
  retract_triples-EngineOf ts engine w =
      Ensures->>= (λ x. MemoryOf P x.0.working_memory) (λ x. EngineOf P x.0)
        (retract_each (update [] ts) (engine.tms, ([], []))) _
        (retract_each-MemoryOf (update [] ts) (engine.tms, ([], [])) w.memory)
        (λ x memory. record {
          memory = memory;
          known = AllTriples-difference engine.known_triples x.1.0 w.known;
          materialized = AllTriples-difference engine.materialized_triples x.1.0 w.materialized;
        })
