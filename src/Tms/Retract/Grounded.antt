-- ===== src/Tms/Retract/Grounded.antt =====
-- What stays after mark, verify and sweep, and what is grounded.
use rdflib_reasoning.Base.{
  String, ◌≡◌, ◌≢◌, refl, sym, ◌∙◌, string_eq, true, false, not, some, [], inl, inr, ◌↔◌, Memᴰ,
  contains, all-intro, mem-contains, arith, Bool-cases, Option-cases, subst, ap,
}
use mathlib.Core.List.Memᴰ
use rdflib_reasoning.Base.Dict.{lookup, lookup-insert}
use rdflib_reasoning.Facts.{Fact}
use rdflib_reasoning.Tms.Controller.{
  Justification, TmsController, supports, justifications_for_fact_id,
}
use rdflib_reasoning.Tms.Support.{
  IsGrounded, by_statement, by_justification, AllGrounded, IsCoherent,
}
use rdflib_reasoning.Tms.Retract.{RetractionOutcome, survives, clear_stated}
use rdflib_reasoning.Tms.Retract.Mark.{mem-candidates_of}
use rdflib_reasoning.Tms.Retract.Verify.{IsVerified, stated, justified, mem-kept_of}
use rdflib_reasoning.Tms.Retract.Final.{
  candidates, kept, swept, contains-swept, candidates_closed, survivor-outside, Final,
}

module _ (seed_fact : Fact) (tms after : TmsController) (outcome : RetractionOutcome)
    (h : IsCoherent tms) (final : Final seed_fact.id tms after outcome) where
  abbrev seed : String
  seed = seed_fact.id

  left_in :
      (i : String) (f : Fact)
      → contains (swept seed tms) i ≡ false
      → lookup i tms.working_memory.facts_by_id ≡ some f
      → lookup i after.working_memory.facts_by_id ≡ some f
  left_in i f out found = ground (arith, final.facts_left i)

  lookup_before :
      (i : String) (f : Fact)
      → lookup i after.working_memory.facts_by_id ≡ some f
      → (contains (swept seed tms) i ≡ false) × (lookup i tms.working_memory.facts_by_id ≡ some f)
  lookup_before i f found = ground (arith, final.facts_left i)

  not-swept :
      (i : String) → contains (candidates seed tms) i ≡ false → contains (swept seed tms) i ≡ false
  not-swept i out = ground (arith, contains-swept seed tms i)

  kept-not-swept :
      (i : String) → contains (kept seed tms) i ≡ true → contains (swept seed tms) i ≡ false
  kept-not-swept i k = ground (arith, contains-swept seed tms i)

  survives_of :
      (j : Justification)
      → ((a : String) → contains j.antecedent_ids a ≡ true → contains (swept seed tms) a ≡ false)
      → survives (swept seed tms) j ≡ true
  survives_of j out =
      all-intro (λ a. not (contains (swept seed tms) a)) j.antecedent_ids
        (λ a m. ground (arith, out a (mem-contains j.antecedent_ids a m)))

  -- Outside the candidates nothing changes.
  outside-IsGrounded :
      {i : String}
      → contains (candidates seed tms) i ≡ false
      → IsGrounded tms i
      → IsGrounded after i
  outside-IsGrounded {i} out (by_statement f found is_stated) =
      by_statement f (left_in i f (not-swept i out) found) is_stated
  outside-IsGrounded {i} out (by_justification f j found m below) =
      let beyond = λ (a : String) (in_j : contains j.antecedent_ids a ≡ true).
        let e : contains (candidates seed tms) a ≡ false =
          elim (Bool-cases (contains (candidates seed tms) a)) [
            | inl inside ↦
                let reached = candidates_closed seed tms a i inside (h.edges i a j m in_j) in
                absurd (ground arith)
            | inr o ↦ o
          ] in
        e in
      by_justification f j (left_in i f (not-swept i out) found)
        ((final.reasons_left i j).1
          (not-swept i out, m, survives_of j (λ a in_j. not-swept a (beyond a in_j))))
        (λ a in_j. outside-IsGrounded (beyond a in_j) (below a in_j))

  is_kept_of :
      {i : String} → IsVerified tms seed (candidates seed tms) i → contains (kept seed tms) i ≡ true
  is_kept_of {i} v = (mem-kept_of tms seed (candidates seed tms) i).1 v

  found_premise :
      (c a : String) (j : Justification)
      → Memᴰ j (justifications_for_fact_id c tms)
      → contains j.antecedent_ids a ≡ true
      → (f : Fact) × (lookup a tms.working_memory.facts_by_id ≡ some f)
  found_premise c a j m in_j =
      let there = h.premises c a j m in_j in
      elim (Option-cases (lookup a tms.working_memory.facts_by_id)) [
        | inl gone ↦ absurd (ground arith)
        | inr found ↦ found
      ]

  -- A verified candidate is grounded after the sweep.
  IsVerified-IsGrounded :
      AllGrounded tms
      → {i : String} → IsVerified tms seed (candidates seed tms) i
      → IsGrounded after i
  IsVerified-IsGrounded grounded {i} (stated f inside other found is_stated) =
      let v : IsVerified tms seed (candidates seed tms) i = stated f inside other found is_stated in
      by_statement f (left_in i f (kept-not-swept i (is_kept_of v)) found) is_stated
  IsVerified-IsGrounded grounded {i} (justified f j inside other found m below) =
      let v : IsVerified tms seed (candidates seed tms) i =
        justified f j inside other found m below in
      let out = kept-not-swept i (is_kept_of v) in
      by_justification f j (left_in i f out found)
        ((final.reasons_left i j).1 (
          out,
          m,
          survives_of j (λ a in_j. elim (Bool-cases (contains (candidates seed tms) a)) [
            | inl within ↦ kept-not-swept a (is_kept_of (below a in_j within))
            | inr beyond ↦ not-swept a beyond
          ]),
        ))
        (λ a in_j. elim (Bool-cases (contains (candidates seed tms) a)) [
          | inl within ↦ IsVerified-IsGrounded grounded (below a in_j within)
          | inr beyond ↦
              let (g, there) = found_premise i a j m in_j in
              outside-IsGrounded beyond (grounded a g there)
        ])

  -- The sweep leaves grounded facts only.
  pub after-AllGrounded : AllGrounded tms → AllGrounded after
  after-AllGrounded grounded i f found =
      let (out, before) = lookup_before i f found in
      elim (Bool-cases (contains (candidates seed tms) i)) [
        | inl inside ↦
            let k : contains (kept seed tms) i ≡ true = ground (arith, contains-swept seed tms i) in
            IsVerified-IsGrounded grounded ((mem-kept_of tms seed (candidates seed tms) i).0 k)
        | inr beyond ↦ outside-IsGrounded beyond (grounded i f before)
      ]

  pub after-IsCoherent : IsCoherent after
  after-IsCoherent = record {
    indexed = final.indexed;
    edges = λ c a j m in_j. final.edges_left a c j m in_j;
    premises = λ c a j m in_j.
        let (out, old, alive) = (final.reasons_left c j).0 m in
        let there = h.premises c a j old in_j in
        let safe = survivor-outside seed tms j a alive in_j in ground (arith, final.facts_left a);
  }

  -- The controller in which the seed is no longer stated.
  abbrev unstated : TmsController
  unstated = clear_stated seed_fact tms

  lookup-unstated :
      (i : String)
      → i ≢ seed
      → lookup i unstated.working_memory.facts_by_id ≡ lookup i tms.working_memory.facts_by_id
  unfolding clear_stated
  lookup-unstated i other = ground (
    arith,
    lookup-insert i seed (record seed_fact { stated = false }) tms.working_memory.facts_by_id,
  )

  unstated_seed :
      (f : Fact) → lookup seed unstated.working_memory.facts_by_id ≡ some f → f.stated ≡ false
  unfolding clear_stated
  unstated_seed f found = ground (
    arith,
    lookup-insert seed seed (record seed_fact { stated = false }) tms.working_memory.facts_by_id,
  )

  reasons_unstated :
      (i : String) → justifications_for_fact_id i unstated ≡ justifications_for_fact_id i tms
  unfolding clear_stated justifications_for_fact_id supports
  reasons_unstated i = refl

  seed-swept : contains (swept seed tms) seed ≡ true
  seed-swept =
      let inside = (mem-candidates_of tms.dependency_graph seed seed).1 (inl refl) in
      elim (Bool-cases (contains (kept seed tms) seed)) [
        | inl k ↦ absurd (never ((mem-kept_of tms seed (candidates seed tms) seed).0 k) refl)
        | inr out ↦ ground (arith, contains-swept seed tms seed)
      ]
    where
      never : {i : String} → IsVerified tms seed (candidates seed tms) i → i ≢ seed
      never (stated f inside other found is_stated) = other
      never (justified f j inside other found m below) = other

  -- What is grounded after the sweep is grounded before it, without the seed.
  IsGrounded-unstated : {i : String} → IsGrounded after i → IsGrounded unstated i
  IsGrounded-unstated {i} (by_statement f found is_stated) =
      let (out, before) = lookup_before i f found in
      let other : i ≢ seed = λ same. cc (seed-swept, ap (contains (swept seed tms)) same) in
      by_statement f (lookup-unstated i other ∙ before) is_stated
  IsGrounded-unstated {i} (by_justification f j found m below) =
      let (out, before) = lookup_before i f found in
      let (_, old, alive) = (final.reasons_left i j).0 m in
      let other : i ≢ seed = λ same. cc (seed-swept, ap (contains (swept seed tms)) same) in
      by_justification f j (lookup-unstated i other ∙ before) (rw (reasons_unstated i) old)
        (λ a in_j. IsGrounded-unstated (below a in_j))

  -- What is grounded without the seed is not swept, if the seed has no justification.
  unstated-IsVerified :
      justifications_for_fact_id seed tms ≡ []
      → {i : String} → IsGrounded unstated i
      → contains (candidates seed tms) i ≡ true
      → IsVerified tms seed (candidates seed tms) i
  unstated-IsVerified alone {i} (by_statement f found is_stated) inside =
      let other : i ≢ seed = λ same. let cleared = unstated_seed f (rw same at found) in cc in
      stated f inside other (sym (lookup-unstated i other) ∙ found) is_stated
  unstated-IsVerified alone {i} (by_justification f j found m below) inside =
      let old : Memᴰ j (justifications_for_fact_id i tms) = rw (reasons_unstated i) at m in
      let other : i ≢ seed = λ same.
        Memᴰ.not-nil
          (rw alone at (subst (λ k. Memᴰ j (justifications_for_fact_id k tms)) same old)) in
      justified f j inside other (sym (lookup-unstated i other) ∙ found) old
        (λ a in_j within. unstated-IsVerified alone (below a in_j) within)

  pub left-iff-IsGrounded :
      AllGrounded tms
      → justifications_for_fact_id seed tms ≡ []
      → (i : String) (f : Fact)
      → (lookup i after.working_memory.facts_by_id ≡ some f)
        ↔ ((lookup i tms.working_memory.facts_by_id ≡ some f) × IsGrounded unstated i)
  left-iff-IsGrounded grounded alone i f = (
    λ found.
        ((lookup_before i f found).1, IsGrounded-unstated (after-AllGrounded grounded i f found)),
    λ (before, g).
        let out : contains (swept seed tms) i ≡ false =
          elim (Bool-cases (contains (candidates seed tms) i)) [
            | inl inside ↦ kept-not-swept i (is_kept_of (unstated-IsVerified alone g inside))
            | inr beyond ↦ not-swept i beyond
          ] in
        left_in i f out before,
  )
