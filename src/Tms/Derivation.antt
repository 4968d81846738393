-- ===== src/Tms/Derivation.antt =====
-- `register_stated` and the memory's part of `record_derivation`, on coherent tables.
use rdflib_reasoning.Base.{
  String, ◌≡◌, refl, sym, ◌==◌, string_eq, Bool, true, ◌||◌, none, some, inl, inr, if◌then◌else◌,
  arith, Bool-cases, Option-cases, string_dec,
}
use rdflib_reasoning.Base.Dict.{lookup, insert, lookup-insert}
use rdflib_reasoning.Errors.{ok}
use rdflib_reasoning.Rdf.{Node, Triple, triple_eq, triple_dec}
use rdflib_reasoning.Facts.{Fact, fact_id_for_triple}
use rdflib_reasoning.Tms.Memory.{WorkingMemory, add_fact, new_fact, promote}
use rdflib_reasoning.Tms.Memory.Laws.{IsIndexed, set_stated-IsIndexed}

-- No fact of another triple is stored under the id of this one.
abbrev pub IsUnclashed : (Node → String) → Triple → WorkingMemory → Type 0
IsUnclashed n3 t wm =
    (g : Fact) → lookup (fact_id_for_triple n3 t) wm.facts_by_id ≡ some g → g.triple ≡ t

-- What `add_fact` does to the memory.
pub record Adds (t : Triple) (stated : Bool) (before after : WorkingMemory) (f : Fact)
    : Type 0 where
  pub indexed : IsIndexed after
  pub of_triple : f.triple ≡ t
  pub facts_after :
      (i : String)
      → lookup i after.facts_by_id ≡ (if i == f.id then some f else lookup i before.facts_by_id)
  pub old_flag :
      (g : Fact) → lookup f.id before.facts_by_id ≡ some g → f.stated ≡ (stated || g.stated)
  pub new_flag : lookup f.id before.facts_by_id ≡ none → f.stated ≡ stated

module _ (n3 : Node → String) (t : Triple) (stated : Bool) (wm : WorkingMemory)
    (h : IsIndexed wm) where
  abbrev fresh : Fact
  fresh = record { id = fact_id_for_triple n3 t; triple = t; stated = stated }

  new_fact-Adds :
      lookup t wm.fact_ids_by_triple ≡ none
      → IsUnclashed n3 t wm
      → Adds t stated wm (new_fact n3 t stated wm).0 fresh
  unfolding new_fact
  new_fact-Adds unknown unclashed =
      let vacant = λ (g : Fact) (there : lookup fresh.id wm.facts_by_id ≡ some g).
        let (_, known) = h.by_id fresh.id g there in
        let same = unclashed g there in let no : ⊥ = ground arith in no in
      record {
        indexed = record {
          by_id = λ i f found. elim (string_dec i fresh.id) [
            | yes same ↦
                let now : some fresh ≡ some f =
                  ground (arith, lookup-insert i fresh.id fresh wm.facts_by_id) in
                let e : fresh ≡ f = cc in
                let named : f.id ≡ i = ground arith in
                let of_t : f.triple ≡ t = cc in
                (named, ground (arith, lookup-insert f.triple t fresh.id wm.fact_ids_by_triple))
            | no other ↦
                let before : lookup i wm.facts_by_id ≡ some f =
                  ground (arith, lookup-insert i fresh.id fresh wm.facts_by_id) in
                let (named, known) = h.by_id i f before in
                (named, ground (arith, lookup-insert f.triple t fresh.id wm.fact_ids_by_triple))
          ];
          by_triple = λ u i known. elim (triple_dec u t) [
            | yes same ↦
                let now : fresh.id ≡ i =
                  ground (arith, lookup-insert u t fresh.id wm.fact_ids_by_triple) in
                (fresh, ground (arith, lookup-insert i fresh.id fresh wm.facts_by_id), sym same)
            | no other ↦
                let before : lookup u wm.fact_ids_by_triple ≡ some i =
                  ground (arith, lookup-insert u t fresh.id wm.fact_ids_by_triple) in
                let (g, at_i, of_u) = h.by_triple u i before in
                (
                  g,
                  elim (string_dec i fresh.id) [
                    | yes clash ↦ absurd (vacant g (ground arith))
                    | no apart ↦ ground (arith, lookup-insert i fresh.id fresh wm.facts_by_id)
                  ],
                  of_u,
                )
          ];
        };
        of_triple = refl;
        facts_after = λ i. lookup-insert i fresh.id fresh wm.facts_by_id;
        old_flag = λ g there. absurd (vacant g there);
        new_flag = λ _. refl;
      }

  -- The triple has an id: its fact is returned, with the flag raised if need be.
  promote-Adds :
      (i : String)
      → lookup t wm.fact_ids_by_triple ≡ some i
      → (wm' : WorkingMemory) × (f : Fact) × (promote stated i wm ≡ ok (wm', f))
        × Adds t stated wm wm' f
  unfolding promote
  promote-Adds i known =
      let (g, found, of_t) = h.by_triple t i known in
      let (named, _) = h.by_id i g found in
      let raised : Fact = record g { stated = true } in
      elim (Bool-cases stated) [
        | inl flag ↦ (
          record wm { facts_by_id = insert i raised wm.facts_by_id },
          raised,
          ground arith,
          record {
            indexed = set_stated-IsIndexed i wm g true h found;
            of_triple = of_t;
            facts_after = λ k. ground (arith, lookup-insert k i raised wm.facts_by_id);
            old_flag = λ k there. ground arith;
            new_flag = λ vacant. absurd (ground arith);
          },
        )
        | inr flag ↦ (
          wm,
          g,
          ground arith,
          record {
            indexed = h;
            of_triple = of_t;
            facts_after = λ k. ground arith;
            old_flag = λ k there. ground arith;
            new_flag = λ vacant. absurd (ground arith);
          },
        )
      ]

  -- `add_fact` returns.
  pub add_fact-Adds :
      IsUnclashed n3 t wm
      → (wm' : WorkingMemory) × (f : Fact) × (add_fact n3 t stated wm ≡ ok (wm', f))
        × Adds t stated wm wm' f
  unfolding add_fact
  add_fact-Adds unclashed = elim (Option-cases (lookup t wm.fact_ids_by_triple)) [
    | inl unknown ↦ (_, _, rw (unknown, add_fact) refl, new_fact-Adds unknown unclashed)
    | inr (i, known) ↦
        let (wm', f, runs, adds) = promote-Adds i known in (wm', f, rw (known, add_fact) runs, adds)
  ]
