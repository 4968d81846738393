-- ===== src/Proof/Valid.antt =====
-- derivation.py: what makes a tree a proof from the records, and that the tree that is built is one.
use rdflib_reasoning.Base.{
  ℕ, zero, suc, ◌<◌, ◌≡◌, refl, subst, ◌∙◌, ap, string_eq, true, false, not, ◌==◌, Option, none,
  some, List, [], ◌∷◌, ◌⊎◌, inl, inr, Memᴰ, filter, contains, length, Option-cases, Bool-cases,
  arith, mem-filter, mem-filter_of_mem, any-mem, any-intro, contains-mem, mem-contains, ==_refl,
}
use mathlib.Core.List.Memᴰ
use rdflib_reasoning.Base.Flat.{flat_map, mem-flat_map, filter-lt}
use rdflib_reasoning.Base.Sets.{add, contains-add}
use rdflib_reasoning.Errors.{Result, ok}
use rdflib_reasoning.Rdf.{node_eq}
use rdflib_reasoning.Compiler.Bindings.{List-cases}
use rdflib_reasoning.Engine.{TripleFact, DerivationRecord}
use rdflib_reasoning.Proof.{
  triple_fact_eq, triple_fact_dec, rule_id_eq, triple_fact, ProofNode, proof_leaf, rule_application,
  ProofNodes, no_nodes, more_nodes, is_misaligned, check_derivation_alignment, new_rule_application,
}
use rdflib_reasoning.Proof.Reconstruct.{
  min_by, concludes, matching_records, is_prior, step_of, build_premises, apply_record, build_node,
}
use rdflib_reasoning.Proof.Steps.{
  min_by-none, min_by-mem, min_by-least, is_prior_trans, is_prior_asym,
}

-- A visible record of the context of a goal that concludes it.
unfoldable pub Supports : TripleFact → DerivationRecord → Type 0
Supports goal r = (r.context ≡ goal.context) × Memᴰ goal r.conclusions × (r.silent ≡ false)

mutual
  -- A tree for a goal, under the goals that are on the path to it.
  pub data IsProof (records : List DerivationRecord)
      : List TripleFact → TripleFact → ProofNode → Type 0 where
    -- A goal is left open where the path has it already, or where no visible record of its
    -- context concludes it.
    is_leaf :
        (seen : List TripleFact) (goal : TripleFact)
        → Memᴰ goal seen ⊎ ((r : DerivationRecord) → Memᴰ r records → ¬ Supports goal r)
        → IsProof records seen goal (proof_leaf (triple_fact goal) [])
    -- Any other goal has the step of a visible record of its context that concludes it, of those
    -- one before which no other comes, with a proof of each premise of the record, in order.
    is_step :
        (seen : List TripleFact) (goal : TripleFact) (r : DerivationRecord) (nodes : ProofNodes)
        → ¬ Memᴰ goal seen
        → Memᴰ r records
        → Supports goal r
        → ((s : DerivationRecord) → Memᴰ s records → Supports goal s → is_prior s r ≡ false)
        → ArePremises records (add goal seen) r.premises nodes
        → IsProof records seen goal (rule_application (step_of r) nodes)

  pub data ArePremises (records : List DerivationRecord)
      : List TripleFact → List TripleFact → ProofNodes → Type 0 where
    no_premises : (seen : List TripleFact) → ArePremises records seen [] no_nodes
    more_premises :
        (seen : List TripleFact) (premise : TripleFact) (premises : List TripleFact)
        (node : ProofNode) (nodes : ProofNodes)
        → IsProof records seen premise node
        → ArePremises records seen premises nodes
        → ArePremises records seen (premise ∷ premises) (more_nodes node nodes)

-- What the records conclude, and how much of it is on no path yet.
abbrev conclusions_of : DerivationRecord → List TripleFact
conclusions_of r = r.conclusions

unfoldable pub conclusions : List DerivationRecord → List TripleFact
conclusions records = flat_map conclusions_of records

unfoldable pub unseen : List DerivationRecord → List TripleFact → ℕ
unfolding triple_fact_dec
unseen records seen = length (filter (λ g. not (contains seen g)) (conclusions records))

concludes-mem :
    (goal : TripleFact) (r : DerivationRecord) → concludes goal r ≡ true → Memᴰ goal r.conclusions
unfolding concludes
concludes-mem goal r h =
    let (c, there, same) =
      any-mem (λ conclusion. conclusion == goal) r.conclusions (ground (arith, h)) in
    subst (λ k. Memᴰ k r.conclusions) (ground (arith, same)) there

concludes-Supports :
    (goal : TripleFact) (r : DerivationRecord) → concludes goal r ≡ true → Supports goal r
unfolding Supports concludes
concludes-Supports goal r h = (ground (arith, h), concludes-mem goal r h, ground (arith, h))

Supports-concludes :
    (goal : TripleFact) (r : DerivationRecord) → Supports goal r → concludes goal r ≡ true
unfolding Supports concludes
Supports-concludes goal r (context, there, visible) =
    let found = any-intro (λ conclusion. conclusion == goal) r.conclusions there (==_refl goal) in
    ground (arith, context, found, visible)

unseen-lt :
    (records : List DerivationRecord) (seen : List TripleFact) (goal : TripleFact)
    (r : DerivationRecord)
    → contains seen goal ≡ false
    → Memᴰ r records
    → concludes goal r ≡ true
    → unseen records (add goal seen) < unseen records seen
unfolding unseen conclusions
unseen-lt records seen goal r fresh there concluded =
    filter-lt (λ g. not (contains seen g)) (λ g. not (contains (add goal seen) g))
      (λ g h. ground (arith, h, contains-add goal g seen)) (flat_map conclusions_of records)
      (mem-flat_map conclusions_of records there (concludes-mem goal r concluded))
      (ground (arith, fresh)) (ground (arith, contains-add goal goal seen))

-- A record that concludes a goal has conclusions, and its step carries its own rule.
step_of-valid :
    (goal : TripleFact) (r : DerivationRecord) (nodes : ProofNodes)
    → concludes goal r ≡ true
    → new_rule_application (step_of r) nodes ≡ ok (rule_application (step_of r) nodes)
unfolding new_rule_application check_derivation_alignment is_misaligned step_of
step_of-valid goal r nodes concluded = elim (List-cases r.conclusions) [
  | inl e ↦ absurd (Memᴰ.not-nil (rw e at (concludes-mem goal r concluded)))
  | inr (c, cs, e) ↦ ground (arith, e)
]

build_premises-ArePremises :
    (records : List DerivationRecord) (seen : List TripleFact)
    (build : TripleFact → Option (Result ProofNode)) (premises : List TripleFact)
    → ((premise : TripleFact)
        → (node : ProofNode) × (build premise ≡ some (ok node)) × IsProof records seen premise node)
    → (nodes : ProofNodes) × (build_premises build premises ≡ some (ok nodes))
      × ArePremises records seen premises nodes
unfolding build_premises
build_premises-ArePremises records seen build [] h = (no_nodes, refl, no_premises seen)
build_premises-ArePremises records seen build (premise ∷ premises) h =
    let (node, built, proof) = h premise in
    let (nodes, rest, proofs) = build_premises-ArePremises records seen build premises h in
    (
      more_nodes node nodes,
      ground (arith, built, rest),
      more_premises seen premise premises node nodes proof proofs,
    )

matching-mem :
    (goal : TripleFact) (records : List DerivationRecord) (r : DerivationRecord)
    → Memᴰ r (matching_records goal records)
    → Memᴰ r records × (concludes goal r ≡ true)
unfolding matching_records
matching-mem goal records r there = mem-filter (concludes goal) records there

matching-mem_of_mem :
    (goal : TripleFact) (records : List DerivationRecord) (r : DerivationRecord)
    → Memᴰ r records
    → concludes goal r ≡ true
    → Memᴰ r (matching_records goal records)
unfolding matching_records
matching-mem_of_mem goal records r there h = mem-filter_of_mem (concludes goal) records there h

not_on_path :
    (seen : List TripleFact) (goal : TripleFact) → contains seen goal ≡ false → ¬ Memᴰ goal seen
not_on_path seen goal e there =
    let on : contains seen goal ≡ true = mem-contains seen goal there in
    absurd (ground (arith, on, e))

none-Supports :
    (goal : TripleFact) (records : List DerivationRecord)
    → matching_records goal records ≡ []
    → (r : DerivationRecord) → Memᴰ r records
    → ¬ Supports goal r
none-Supports goal records empty r there supports =
    let inside = matching-mem_of_mem goal records r there (Supports-concludes goal r supports) in
    elim (subst (λ l. Memᴰ r l) empty inside) [ ]

-- The three ways in which a call goes.
module _ (records : List DerivationRecord) (fuel : ℕ) (goal : TripleFact)
    (seen : List TripleFact) where
  on_path :
      contains seen goal ≡ true
      → build_node records (suc fuel) goal seen ≡ some (ok (proof_leaf (triple_fact goal) []))
  unfolding build_node
  on_path e = ground (arith, e)

  without_record :
      contains seen goal ≡ false
      → min_by is_prior (matching_records goal records) ≡ none
      → build_node records (suc fuel) goal seen ≡ some (ok (proof_leaf (triple_fact goal) []))
  unfolding build_node
  without_record e f = ground (arith, e, f)

  with_record :
      (r : DerivationRecord)
      → contains seen goal ≡ false
      → min_by is_prior (matching_records goal records) ≡ some r
      → build_node records (suc fuel) goal seen
        ≡ apply_record r
            (build_premises (λ premise. build_node records fuel premise (add goal seen)) r.premises)
  unfolding build_node
  with_record r e f = ground (arith, e, f)

-- On enough fuel a proof is built, and it is one from the records.
pub build_node-IsProof :
    (records : List DerivationRecord) (fuel : ℕ) (goal : TripleFact) (seen : List TripleFact)
    → unseen records seen < fuel
    → (node : ProofNode) × (build_node records fuel goal seen ≡ some (ok node))
      × IsProof records seen goal node
unfolding apply_record
build_node-IsProof records zero goal seen enough = absurd (ground (arith, enough))
build_node-IsProof records (suc fuel) goal seen enough = elim (Bool-cases (contains seen goal)) [
  | inl e ↦ (
    proof_leaf (triple_fact goal) [],
    on_path records fuel goal seen e,
    is_leaf seen goal (inl (contains-mem seen goal e)),
  )
  | inr e ↦ elim (Option-cases (min_by is_prior (matching_records goal records))) [
    | inl f ↦ (
      proof_leaf (triple_fact goal) [],
      without_record records fuel goal seen e f,
      is_leaf seen goal (inr (none-Supports goal records (min_by-none is_prior _ f))),
    )
    | inr (r, f) ↦
        let (there, concluded) =
          matching-mem goal records r (min_by-mem is_prior (matching_records goal records) f) in
        let less = unseen-lt records seen goal r e there concluded in
        let (nodes, built, proofs) =
          build_premises-ArePremises records (add goal seen)
            (λ premise. build_node records fuel premise (add goal seen)) r.premises
            (λ premise.
              build_node-IsProof records fuel premise (add goal seen)
                (omega (arith, less, enough))) in
        (
          rule_application (step_of r) nodes,
          with_record records fuel goal seen r e f
              ∙ ap (apply_record r) built
              ∙ ap some (step_of-valid goal r nodes concluded),
          is_step seen goal r nodes (not_on_path seen goal e) there
              (concludes-Supports goal r concluded)
              (λ s in_records concludes_too.
                min_by-least is_prior is_prior_trans is_prior_asym (matching_records goal records) f
                  s
                  (matching-mem_of_mem goal records s in_records
                    (Supports-concludes goal s concludes_too)))
              proofs,
        )
  ]
]
