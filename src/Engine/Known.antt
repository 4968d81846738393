-- ===== src/Engine/Known.antt =====
-- rete_engine.py and tms.py: well-formed triples in the sets and in working memory.
use rdflib_reasoning.Base.{
  String, string_eq, ◌≡◌, refl, sym, subst, Bool, true, false, List, [], ◌∷◌, ◌++◌, inl, inr, Memᴰ,
  contains, if◌then◌else◌, arith, Option-cases,
}
use mathlib.Core.List.Memᴰ
use rdflib_reasoning.Base.Dict.{
  Dict, values, lookup, insert, mem-values-insert, mem-values_of_lookup,
}
use rdflib_reasoning.Base.Sets.{add, update}
use rdflib_reasoning.Errors.{ok, raise, key_error, Ensures, Ensures->>=, Ensures-if}
use rdflib_reasoning.Rdf.{Node, Triple, triple_eq, Rendering}
use rdflib_reasoning.Facts.{Fact}
use rdflib_reasoning.Consequents.{ActionInstance}
use rdflib_reasoning.Tms.Memory.{WorkingMemory, add_fact, new_fact, promote}
use rdflib_reasoning.Tms.Controller.{
  TmsController, Justification, add_justification, supports, record_derivation, register_stated,
}
use rdflib_reasoning.Engine.Terms.{is_well_formed}

-- What stands in a list of triples, and in working memory, all has one property.
unfoldable pub AllTriples : (Triple → Type 0) → List Triple → Type 0
AllTriples P ts = (t : Triple) → Memᴰ t ts → P t

unfoldable pub MemoryOf : (Triple → Type 0) → WorkingMemory → Type 0
MemoryOf P wm = (f : Fact) → Memᴰ f (values wm.facts_by_id) → P f.triple

abbrev pub IsGood : Triple → Type 0
IsGood t = is_well_formed t ≡ true

abbrev pub AllWellFormed : List Triple → Type 0
AllWellFormed ts = AllTriples IsGood ts

abbrev pub WellFormedMemory : WorkingMemory → Type 0
WellFormedMemory wm = MemoryOf IsGood wm

module _ (P : Triple → Type 0) where
  pub AllTriples-if :
      (c : Bool) (xs ys : List Triple)
      → (c ≡ true → AllTriples P xs)
      → AllTriples P ys
      → AllTriples P (if c then xs else ys)
  AllTriples-if true xs ys h k = h refl
  AllTriples-if false xs ys h k = k

  pub AllTriples-add :
      (x : Triple) (s : List Triple) → P x → AllTriples P s → AllTriples P (add x s)
  unfolding add AllTriples
  AllTriples-add x s good h =
      AllTriples-if (contains s x) s (s ++ x ∷ []) (λ _. h)
        (λ t there. elim (Memᴰ.append_cases s there) [
          | inl before ↦ h t before
          | inr now ↦ subst P (sym (Memᴰ.eq_of_singleton now)) good
        ])

  pub AllTriples-update :
      (s xs : List Triple) → AllTriples P s → AllTriples P xs → AllTriples P (update s xs)
  unfolding update AllTriples
  AllTriples-update s [] h k = h
  AllTriples-update s (x ∷ xs) h k =
      AllTriples-update (add x s) xs (AllTriples-add x s (k x (Memᴰ.head refl)) h)
        (λ t m. k t (Memᴰ.tail m))

  pub unpack :
      (wm : WorkingMemory)
      → MemoryOf P wm
      → (f : Fact) → Memᴰ f (values wm.facts_by_id)
      → P f.triple
  unfolding MemoryOf
  unpack wm h = h

  pub insert-MemoryOf :
      (id : String) (f : Fact) (wm : WorkingMemory) (ids : Dict Triple String)
      → P f.triple
      → MemoryOf P wm
      → MemoryOf P record { facts_by_id = insert id f wm.facts_by_id; fact_ids_by_triple = ids }
  unfolding MemoryOf
  insert-MemoryOf id f wm ids good old g there =
      elim (mem-values-insert id f wm.facts_by_id there) [
        | inl same ↦ subst (λ x. P x.triple) (sym same) good
        | inr before ↦ old g before
      ]

  promote-MemoryOf :
      (stated : Bool) (id : String) (wm : WorkingMemory)
      → MemoryOf P wm
      → Ensures (λ x. MemoryOf P x.0) (promote stated id wm)
  unfolding promote
  promote-MemoryOf stated id wm old = elim (Option-cases (lookup id wm.facts_by_id)) [
    | inl e ↦
        let missing : promote stated id wm ≡ raise key_error = ground (arith, e) in
        subst (Ensures (λ x. MemoryOf P x.0)) (sym missing) tt
    | inr (f, e) ↦
        let g : Fact = record f { stated = true } in
        let promoted : WorkingMemory = record wm { facts_by_id = insert id g wm.facts_by_id } in
        let runs : promote stated id wm ≡ (if stated then ok (promoted, g) else ok (wm, f)) =
          ground (arith, e) in
        subst (Ensures (λ x. MemoryOf P x.0)) (sym runs) (
          Ensures-if (λ x. MemoryOf P x.0) stated (ok (promoted, g)) (ok (wm, f))
            (λ _.
              insert-MemoryOf id g wm wm.fact_ids_by_triple
                (unpack wm old f (mem-values_of_lookup id wm.facts_by_id e)) old)
            (λ _. old))
  ]

  add_fact-MemoryOf :
      (n3 : Node → String) (t : Triple) (stated : Bool) (wm : WorkingMemory)
      → P t
      → MemoryOf P wm
      → Ensures (λ x. MemoryOf P x.0) (add_fact n3 t stated wm)
  unfolding add_fact new_fact
  add_fact-MemoryOf n3 t stated wm good old = elim (Option-cases (lookup t wm.fact_ids_by_triple)) [
    | inl e ↦
        let runs : add_fact n3 t stated wm ≡ ok (new_fact n3 t stated wm) = ground (arith, e) in
        subst (Ensures (λ x. MemoryOf P x.0)) (sym runs)
          (insert-MemoryOf (new_fact n3 t stated wm).1.id (new_fact n3 t stated wm).1 wm _ good old)
    | inr (id, e) ↦
        let runs : add_fact n3 t stated wm ≡ promote stated id wm = ground (arith, e) in
        subst (Ensures (λ x. MemoryOf P x.0)) (sym runs) (promote-MemoryOf stated id wm old)
  ]

  add_justification-memory :
      (j : Justification) (tms : TmsController)
      → (add_justification j tms).working_memory ≡ tms.working_memory
  unfolding add_justification
  add_justification-memory j tms =
      elim (Option-cases (lookup j.id (supports j.consequent_id tms))) [
        | inl e ↦ ground (arith, e)
        | inr (k, e) ↦ ground (arith, e)
      ]

  pub record_derivation-MemoryOf :
      (r : Rendering) (t : Triple) (a : ActionInstance) (tms : TmsController)
      → P t
      → MemoryOf P tms.working_memory
      → Ensures
          (λ x. MemoryOf P x.0.working_memory)
          (record_derivation r t a.rule_id a.premises a.bindings a.depth tms)
  unfolding record_derivation
  record_derivation-MemoryOf r t a tms good old =
      Ensures->>= (λ x. MemoryOf P x.0) (λ x. MemoryOf P x.0.working_memory)
        (add_fact r.n3 t false tms.working_memory) _
        (add_fact-MemoryOf r.n3 t false tms.working_memory good old)
        (λ x h.
          subst (MemoryOf P)
            (sym (add_justification-memory _ (record tms { working_memory = x.0 }))) h)

  pub register_stated-MemoryOf :
      (n3 : Node → String) (ts : List Triple) (tms : TmsController)
      → AllTriples P ts
      → MemoryOf P tms.working_memory
      → Ensures (λ x. MemoryOf P x.0.working_memory) (register_stated n3 ts tms)
  unfolding register_stated AllTriples
  register_stated-MemoryOf n3 [] tms good old = old
  register_stated-MemoryOf n3 (t ∷ ts) tms good old =
      Ensures->>= (λ x. MemoryOf P x.0) (λ x. MemoryOf P x.0.working_memory)
        (add_fact n3 t true tms.working_memory) _
        (add_fact-MemoryOf n3 t true tms.working_memory (good t (Memᴰ.head refl)) old)
        (λ x h.
          Ensures->>= (λ y. MemoryOf P y.0.working_memory) (λ y. MemoryOf P y.0.working_memory)
            (register_stated n3 ts (record tms { working_memory = x.0 })) _
            (register_stated-MemoryOf n3 ts (record tms { working_memory = x.0 })
              (λ u m. good u (Memᴰ.tail m)) h)
            (λ y k. k))
