-- ===== src/Tms/Support.antt =====
-- What supports a fact: the abstract view of the controller's tables.
use rdflib_reasoning.Base.{String, ◌≡◌, true, some, Memᴰ, contains, string_eq}
use rdflib_reasoning.Base.Dict.{lookup, is_some}
use rdflib_reasoning.Facts.{Fact}
use rdflib_reasoning.Tms.Graph.{consequents_of}
use rdflib_reasoning.Tms.Memory.Laws.{IsIndexed}
use rdflib_reasoning.Tms.Controller.{Justification, TmsController, justifications_for_fact_id}

-- A fact is grounded if it is stated, or has a justification whose antecedents are all grounded:
-- a well-founded chain of reasons leads from it to stated facts.
pub data IsGrounded (tms : TmsController) : String → Type 0 where
  by_statement :
      {id : String} (fact : Fact)
      → lookup id tms.working_memory.facts_by_id ≡ some fact
      → fact.stated ≡ true
      → IsGrounded tms id
  by_justification :
      {id : String} (fact : Fact) (j : Justification)
      → lookup id tms.working_memory.facts_by_id ≡ some fact
      → Memᴰ j (justifications_for_fact_id id tms)
      → ((a : String) → contains j.antecedent_ids a ≡ true → IsGrounded tms a)
      → IsGrounded tms id

-- Every fact in memory is grounded.
abbrev pub AllGrounded : TmsController → Type 0
AllGrounded tms =
    (id : String) (fact : Fact)
    → lookup id tms.working_memory.facts_by_id ≡ some fact
    → IsGrounded tms id

-- The tables agree: the dicts of the memory are in step, each justification has its edges in the
-- dependency graph, and its antecedents are in memory.
pub record IsCoherent (tms : TmsController) : Type 0 where
  pub indexed : IsIndexed tms.working_memory
  pub edges :
      (c a : String) (j : Justification)
      → Memᴰ j (justifications_for_fact_id c tms)
      → contains j.antecedent_ids a ≡ true
      → contains (consequents_of tms.dependency_graph a) c ≡ true
  pub premises :
      (c a : String) (j : Justification)
      → Memᴰ j (justifications_for_fact_id c tms)
      → contains j.antecedent_ids a ≡ true
      → is_some (lookup a tms.working_memory.facts_by_id) ≡ true
