-- ===== src/Tms/Memory.antt =====
-- tms.py, class WorkingMemory: the facts by id, and the ids by triple.
pub mod Laws
use rdflib_reasoning.Base.{
  String, Eq, string_eq, Bool, true, false, Option, none, some, List, [], if◌then◌else◌,
}
use rdflib_reasoning.Base.Dict.{Dict, lookup, insert, erase, values, is_some}
use rdflib_reasoning.Rdf.{Node, Triple, triple_eq}
use rdflib_reasoning.Errors.{Result, ok, raise, key_error}
use rdflib_reasoning.Facts.{Fact, fact_id_for_triple}

pub record WorkingMemory : Type 0 where
  pub facts_by_id : Dict String Fact
  pub fact_ids_by_triple : Dict Triple String

abbrev pub empty_memory : WorkingMemory
empty_memory = record { facts_by_id = []; fact_ids_by_triple = [] }

-- The branch for a triple with no id yet.
unfoldable pub new_fact : (Node → String) → Triple → Bool → WorkingMemory → WorkingMemory × Fact
new_fact n3 triple stated wm =
    let fact : Fact = record {
      id = fact_id_for_triple n3 triple;
      triple = triple;
      stated = stated;
    } in
    (
      record {
        facts_by_id = insert fact.id fact wm.facts_by_id;
        fact_ids_by_triple = insert triple fact.id wm.fact_ids_by_triple;
      },
      fact,
    )

-- `fact.stated = True` writes the object that the dict holds.
unfoldable pub promote : Bool → String → WorkingMemory → Result (WorkingMemory × Fact)
promote stated id wm = elim (lookup id wm.facts_by_id) [
  | none ↦ raise key_error
  | some fact ↦
      let fact' = record fact { stated = true } in
      let promoted = record wm { facts_by_id = insert id fact' wm.facts_by_id } in
      if stated then ok (promoted, fact') else ok (wm, fact)
]

unfoldable pub add_fact :
    (Node → String) → Triple → Bool → WorkingMemory → Result (WorkingMemory × Fact)
unfolding new_fact promote
add_fact n3 triple stated wm = elim (lookup triple wm.fact_ids_by_triple) [
  | none ↦ ok (new_fact n3 triple stated wm)
  | some existing_id ↦ promote stated existing_id wm
]

unfoldable pub get_fact : Triple → WorkingMemory → Result (Option Fact)
get_fact triple wm = elim (lookup triple wm.fact_ids_by_triple) [
  | none ↦ ok none
  | some id ↦ elim (lookup id wm.facts_by_id) [
    | none ↦ raise key_error
    | some fact ↦ ok (some fact)
  ]
]

unfoldable pub has_fact : Triple → WorkingMemory → Bool
has_fact triple wm = is_some (lookup triple wm.fact_ids_by_triple)

unfoldable pub facts : WorkingMemory → List Fact
facts wm = values wm.facts_by_id

unfoldable pub remove_fact : String → WorkingMemory → Result (WorkingMemory × Fact)
remove_fact id wm = elim (lookup id wm.facts_by_id) [
  | none ↦ raise key_error
  | some fact ↦ elim (lookup fact.triple wm.fact_ids_by_triple) [
    | none ↦ raise key_error
    | some _ ↦ ok (
      record {
        facts_by_id = erase id wm.facts_by_id;
        fact_ids_by_triple = erase fact.triple wm.fact_ids_by_triple;
      },
      fact,
    )
  ]
]
