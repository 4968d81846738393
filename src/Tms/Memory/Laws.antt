-- ===== src/Tms/Memory/Laws.antt =====
-- The two dicts of working memory, and what its operations do to them.
use rdflib_reasoning.Base.{
  String, ◌≡◌, string_eq, Bool, Option, none, some, inl, inr, arith, Option-cases, string_dec,
}
use rdflib_reasoning.Base.Dict.{lookup, insert, erase, lookup-insert, lookup-erase}
use rdflib_reasoning.Errors.{ok}
use rdflib_reasoning.Rdf.{Triple, triple_eq}
use rdflib_reasoning.Facts.{Fact}
use rdflib_reasoning.Tms.Memory.{WorkingMemory, get_fact, remove_fact}

pub record IsIndexed (wm : WorkingMemory) : Type 0 where
  pub by_id :
      (i : String) (f : Fact)
      → lookup i wm.facts_by_id ≡ some f
      → (f.id ≡ i) × (lookup f.triple wm.fact_ids_by_triple ≡ some i)
  pub by_triple :
      (t : Triple) (i : String)
      → lookup t wm.fact_ids_by_triple ≡ some i
      → (f : Fact) × (lookup i wm.facts_by_id ≡ some f) × (f.triple ≡ t)

-- The fact of a triple is found by either dict.
pub get_fact_total :
    (t : Triple) (wm : WorkingMemory)
    → IsIndexed wm
    → (found : Option Fact) × (get_fact t wm ≡ ok found)
unfolding get_fact
get_fact_total t wm h = elim (Option-cases (lookup t wm.fact_ids_by_triple)) [
  | inl absent ↦ (none, ground arith)
  | inr (i, known) ↦ let (f, found, _) = h.by_triple t i known in (some f, ground arith)
]

pub get_fact-eq-some :
    (t : Triple) (wm : WorkingMemory) {f : Fact}
    → IsIndexed wm
    → get_fact t wm ≡ ok (some f)
    → (f.triple ≡ t) × (lookup f.id wm.facts_by_id ≡ some f)
unfolding get_fact
get_fact-eq-some t wm {f} h e = elim (Option-cases (lookup t wm.fact_ids_by_triple)) [
  | inl absent ↦ absurd (ground arith)
  | inr (i, known) ↦
      let (g, found, of_t) = h.by_triple t i known in
      let (named, _) = h.by_id i g found in
      let same : g ≡ f = ground arith in (ground arith, ground arith)
]

-- The state that `remove_fact` leaves.
abbrev pub without_fact : String → Fact → WorkingMemory → WorkingMemory
without_fact i f wm = record {
  facts_by_id = erase i wm.facts_by_id;
  fact_ids_by_triple = erase f.triple wm.fact_ids_by_triple;
}

pub remove_fact_total :
    (i : String) (wm : WorkingMemory) (f : Fact)
    → IsIndexed wm
    → lookup i wm.facts_by_id ≡ some f
    → remove_fact i wm ≡ ok (without_fact i f wm, f)
unfolding remove_fact
remove_fact_total i wm f h found = let (_, known) = h.by_id i f found in ground arith

pub without_fact-IsIndexed :
    (i : String) (wm : WorkingMemory) (f : Fact)
    → IsIndexed wm
    → lookup i wm.facts_by_id ≡ some f
    → IsIndexed (without_fact i f wm)
without_fact-IsIndexed i wm f h found = record {
  by_id = λ j g there.
      let before : lookup j wm.facts_by_id ≡ some g =
        ground (arith, lookup-erase j i wm.facts_by_id) in
      let (named, known) = h.by_id j g before in
      let (_, own) = h.by_id i f found in
      (
        named,
        ground (
          arith,
          lookup-erase j i wm.facts_by_id,
          lookup-erase g.triple f.triple wm.fact_ids_by_triple,
        ),
      );
  by_triple = λ t j there.
      let before : lookup t wm.fact_ids_by_triple ≡ some j =
        ground (arith, lookup-erase t f.triple wm.fact_ids_by_triple) in
      let (g, at_j, of_t) = h.by_triple t j before in
      (
        g,
        ground
            (arith, lookup-erase j i wm.facts_by_id, lookup-erase t f.triple wm.fact_ids_by_triple),
        of_t,
      );
}

-- Writing the flag of a fact keeps the dicts in step.
pub set_stated-IsIndexed :
    (i : String) (wm : WorkingMemory) (f : Fact) (b : Bool)
    → IsIndexed wm
    → lookup i wm.facts_by_id ≡ some f
    → IsIndexed (record wm { facts_by_id = insert i (record f { stated = b }) wm.facts_by_id })
set_stated-IsIndexed i wm f b h found =
    let f' : Fact = record f { stated = b } in
    record {
      by_id = λ j g there. elim (string_dec j i) [
        | yes same ↦
            let (named, known) = h.by_id i f found in
            let now : some f' ≡ some g = ground (arith, lookup-insert j i f' wm.facts_by_id) in
            (ground arith, ground arith)
        | no other ↦ h.by_id j g (ground (arith, lookup-insert j i f' wm.facts_by_id))
      ];
      by_triple = λ t j known.
          let (g, at_j, of_t) = h.by_triple t j known in
          elim (string_dec j i) [
            | yes same ↦ (f', ground (arith, lookup-insert j i f' wm.facts_by_id), ground arith)
            | no other ↦ (g, ground (arith, lookup-insert j i f' wm.facts_by_id), of_t)
          ];
    }
