-- ===== src/Proof/Verdicts.antt =====
-- derivation.py and proof.py: the verdicts of rebuilt proofs, and which steps are refused.
use rdflib_reasoning.Base.{
  ℕ, ◌<◌, ◌≤◌, ◌≡◌, refl, subst, ap, true, false, ◌&&◌, ◌||◌, not, none, some, List, [], ◌⊎◌, inl,
  inr, Memᴰ, length, Option-cases, Bool-cases, arith, length-filter-le, mem-filter,
  mem-filter_of_mem,
}
use rdflib_reasoning.Base.Dict.{is_some}
use rdflib_reasoning.Errors.{ok, is_ok}
use rdflib_reasoning.Rdf.{Node}
use rdflib_reasoning.Compiler.{is_empty}
use rdflib_reasoning.Compiler.Bindings.{List-cases}
use rdflib_reasoning.Engine.{TripleFact, DerivationRecord, ContradictionRecord}
use rdflib_reasoning.Proof.{
  rule_id_eq, triple_fact, contradiction_claim, RuleApplication, ProofNode, proof_leaf,
  rule_application, ProofNodes, Verdict, DirectProof, is_misaligned, check_derivation_alignment,
  new_rule_application,
}
use rdflib_reasoning.Proof.Reconstruct.{
  min_by, shows, matching_contradictions, is_earlier, triple_verdict, triple_proof,
  contradiction_step, contradiction_proof, no_match_note, premise_leaves, TraceRecord,
  derivations_in, reconstruct,
}
use rdflib_reasoning.Proof.Steps.{min_by-none, min_by-mem, min_by-least}
use rdflib_reasoning.Proof.Valid.{
  IsProof, is_leaf, is_step, conclusions, unseen, build_node-IsProof, Supports,
}

unseen-le :
    (records : List DerivationRecord) (seen : List TripleFact)
    → unseen records seen ≤ length (conclusions records)
unfolding unseen
unseen-le records seen = length-filter-le _ (conclusions records)

-- The result for a triple goal, from the tree that was built.
abbrev pub triple_result : TripleFact → ProofNode → DirectProof
triple_result goal node = record {
  context = goal.context;
  goal = triple_fact goal;
  proof = node;
  verdict = some (triple_verdict node);
  notes = none;
}

-- Fuel above the number of conclusions in the trace is enough for a triple goal: nothing is
-- raised, and the tree is a proof of the goal from the derivation records of the trace.
pub reconstruct-IsProof :
    (fuel : ℕ) (goal : TripleFact) (records : List TraceRecord)
    → length (conclusions (derivations_in records)) < fuel
    → (node : ProofNode) × (reconstruct fuel (triple_fact goal) records
        ≡ some (ok (triple_result goal node)))
      × IsProof (derivations_in records) [] goal node
unfolding reconstruct triple_proof
reconstruct-IsProof fuel goal records enough =
    let (node, built, proof) =
      build_node-IsProof (derivations_in records) fuel goal []
        (omega (arith, unseen-le (derivations_in records) [], enough)) in
    (node, ap (triple_proof goal) built, proof)

verdict_of :
    (records : List DerivationRecord) (goal : TripleFact) (node : ProofNode)
    → IsProof records [] goal node
    → ((triple_verdict node ≡ Verdict.proved)
        × ((r : DerivationRecord) × Memᴰ r records × Supports goal r))
      ⊎ ((triple_verdict node ≡ Verdict.incomplete)
          × ((r : DerivationRecord) → Memᴰ r records → ¬ Supports goal r))
unfolding triple_verdict
verdict_of records goal _ (is_leaf _ _ (inl on_path)) = elim on_path [ ]
verdict_of records goal _ (is_leaf _ _ (inr empty)) = inr (refl, empty)
verdict_of records goal _ (is_step _ _ r nodes fresh there supports least premises) =
    inl (refl, (r, there, supports))

-- On fuel above the number of conclusions in the trace a triple goal has the verdict "proved" where
-- some visible derivation record of its context concludes it, whether or not its premises are
-- supported, and "incomplete" where none does.
pub reconstruct_verdict :
    (fuel : ℕ) (goal : TripleFact) (records : List TraceRecord)
    → length (conclusions (derivations_in records)) < fuel
    → (proof : DirectProof) × (reconstruct fuel (triple_fact goal) records ≡ some (ok proof))
      × (((proof.verdict ≡ some Verdict.proved)
            × ((r : DerivationRecord) × Memᴰ r (derivations_in records) × Supports goal r))
          ⊎ ((proof.verdict ≡ some Verdict.incomplete)
              × ((r : DerivationRecord) → Memᴰ r (derivations_in records) → ¬ Supports goal r)))
reconstruct_verdict fuel goal records enough =
    let (node, built, valid) = reconstruct-IsProof fuel goal records enough in
    (
      triple_result goal node,
      built,
      elim (verdict_of (derivations_in records) goal node valid) [
        | inl (proved, found) ↦ inl (ap some proved, found)
        | inr (incomplete, nothing) ↦ inr (ap some incomplete, nothing)
      ],
    )

-- Contradiction goals.
is_earlier_trans :
    (a b c : ContradictionRecord)
    → is_earlier a b ≡ false
    → is_earlier b c ≡ false
    → is_earlier a c ≡ false
unfolding is_earlier
is_earlier_trans a b c h k = ground (arith, h, k)

is_earlier_asym : (a b : ContradictionRecord) → is_earlier a b ≡ true → is_earlier b a ≡ false
unfolding is_earlier
is_earlier_asym a b h = ground (arith, h)

is_earlier-le : (a b : ContradictionRecord) → is_earlier a b ≡ false → b.sequence_id ≤ a.sequence_id
unfolding is_earlier
is_earlier-le a b h = ground (arith, h)

shown-mem :
    (context : Node) (witness : TripleFact) (records : List ContradictionRecord)
    (r : ContradictionRecord)
    → Memᴰ r (matching_contradictions context witness records)
    → Memᴰ r records × (shows context witness r ≡ true)
unfolding matching_contradictions
shown-mem context witness records r there = mem-filter (shows context witness) records there

shown-mem_of_mem :
    (context : Node) (witness : TripleFact) (records : List ContradictionRecord)
    (r : ContradictionRecord)
    → Memᴰ r records
    → shows context witness r ≡ true
    → Memᴰ r (matching_contradictions context witness records)
unfolding matching_contradictions
shown-mem_of_mem context witness records r there h =
    mem-filter_of_mem (shows context witness) records there h

-- The result where a diagnostic was chosen: its rule concludes the contradiction, and its premises
-- are the leaves.
abbrev pub shown_result : Node → TripleFact → ContradictionRecord → DirectProof
shown_result context witness r = record {
  context = context;
  goal = contradiction_claim context witness;
  proof =
      rule_application (contradiction_step (contradiction_claim context witness) r)
        (premise_leaves r.premises);
  verdict = some Verdict.contradiction;
  notes = none;
}

-- The result where no diagnostic matches.
abbrev pub missing_result : Node → TripleFact → DirectProof
missing_result context witness = record {
  context = context;
  goal = contradiction_claim context witness;
  proof = proof_leaf (contradiction_claim context witness) [];
  verdict = some Verdict.incomplete;
  notes = some no_match_note;
}

module _ (context : Node) (witness : TripleFact) (records : List ContradictionRecord) where
  without_diagnostic :
      min_by is_earlier (matching_contradictions context witness records) ≡ none
      → contradiction_proof context witness records ≡ ok (missing_result context witness)
  unfolding contradiction_proof
  without_diagnostic e = ground (arith, e)

  with_diagnostic :
      (r : ContradictionRecord)
      → min_by is_earlier (matching_contradictions context witness records) ≡ some r
      → contradiction_proof context witness records ≡ ok (shown_result context witness r)
  unfolding contradiction_proof new_rule_application check_derivation_alignment is_misaligned
      contradiction_step
  with_diagnostic r e = ground (arith, e)

none_shows :
    (context : Node) (witness : TripleFact) (records : List ContradictionRecord)
    → matching_contradictions context witness records ≡ []
    → (r : ContradictionRecord) → Memᴰ r records
    → shows context witness r ≡ false
none_shows context witness records empty r there = elim (Bool-cases (shows context witness r)) [
  | inl e ↦
      let inside = shown-mem_of_mem context witness records r there e in
      elim (subst (λ l. Memᴰ r l) empty inside) [ ]
  | inr e ↦ e
]

-- A contradiction goal needs no fuel and raises nothing. Where some diagnostic of its context has
-- its triple as witness or premise, one of those with the least sequence id becomes the proof, with
-- its premises as leaves, and the verdict is "contradiction"; where none has, the goal is left open
-- and the verdict is "incomplete".
pub contradiction_proof_total :
    (context : Node) (witness : TripleFact) (records : List ContradictionRecord)
    → ((contradiction_proof context witness records ≡ ok (missing_result context witness))
        × ((r : ContradictionRecord) → Memᴰ r records → shows context witness r ≡ false))
      ⊎ ((r : ContradictionRecord) × Memᴰ r records
          × (shows context witness r ≡ true)
          × ((s : ContradictionRecord)
              → Memᴰ s records
              → shows context witness s ≡ true
              → r.sequence_id ≤ s.sequence_id)
          × (contradiction_proof context witness records ≡ ok (shown_result context witness r)))
contradiction_proof_total context witness records =
    let found = matching_contradictions context witness records in
    elim (Option-cases (min_by is_earlier (matching_contradictions context witness records))) [
      | inl e ↦ inl (
        without_diagnostic context witness records e,
        none_shows context witness records (min_by-none is_earlier _ e),
      )
      | inr (r, e) ↦
          let (there, here) = shown-mem context witness records r (min_by-mem is_earlier _ e) in
          inr (
            r,
            there,
            here,
            λ s in_records also. is_earlier-le s r (
                min_by-least is_earlier is_earlier_trans is_earlier_asym _ e s
                  (shown-mem_of_mem context witness records s in_records also)),
            with_diagnostic context witness records r e,
          )
    ]

-- A proof step is refused in these cases and no others: it has no conclusions, it names neither a
-- rule nor a description, or it names a rule other than that of its derivation.
pub new_rule_application-is_ok :
    (step : RuleApplication) (premises : ProofNodes)
    → is_ok (new_rule_application step premises) ≡ (
        not (is_empty step.conclusions)
        && ((is_some step.rule_id || is_some step.description)
            && not (is_misaligned step.rule_id step.derivation)))
unfolding new_rule_application check_derivation_alignment
new_rule_application-is_ok step premises = elim (List-cases step.conclusions) [
  | inl e ↦ ground (arith, e)
  | inr (c, cs, e) ↦ ground (arith, e)
]
