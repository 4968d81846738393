-- ===== src/Tms/Retract/Verify.antt =====
-- The verify loop: its passes, and the candidates with support outside the sweep.
use rdflib_reasoning.Base.{
  ℕ, zero, suc, ◌+◌, ◌≤◌, ◌<◌, String, ◌≡◌, ◌≢◌, refl, ◌==◌, string_eq, Bool, true, false, ◌||◌,
  List, [], ◌∷◌, inl, inr, ◌↔◌, if◌then◌else◌, contains, all, all-mem, all-intro, any-mem,
  any-intro, Memᴰ, contains-mem, mem-contains, length, arith, Bool-cases, Option-cases, string_dec,
  some, ◌∙◌,
}
use rdflib_reasoning.Base.Dict.{lookup}
use rdflib_reasoning.Base.Sets.{add, contains-add}
use rdflib_reasoning.Facts.{Fact}
use rdflib_reasoning.Tms.Controller.{Justification, TmsController, justifications_for_fact_id}
use rdflib_reasoning.Tms.Retract.{
  is_kept, is_supported_outside, consider, verify_pass, verify, kept_of,
}

module _ (tms : TmsController) (seed : String) (candidates : List String) where
  -- The candidates that a chain of justifications supports from outside the candidates, or from
  -- a stated one other than the seed.
  pub data IsVerified : String → Type 0 where
    stated :
        {id : String} (fact : Fact)
        → contains candidates id ≡ true
        → id ≢ seed
        → lookup id tms.working_memory.facts_by_id ≡ some fact
        → fact.stated ≡ true
        → IsVerified id
    justified :
        {id : String} (fact : Fact) (j : Justification)
        → contains candidates id ≡ true
        → id ≢ seed
        → lookup id tms.working_memory.facts_by_id ≡ some fact
        → Memᴰ j (justifications_for_fact_id id tms)
        → ((a : String)
            → contains j.antecedent_ids a ≡ true
            → contains candidates a ≡ true
            → IsVerified a)
        → IsVerified id

  abbrev AllVerified : List String → Type 0
  AllVerified kept = (x : String) → contains kept x ≡ true → IsVerified x

  -- The candidates that are not kept yet.
  unkept : List String → List String → ℕ
  unkept kept [] = 0
  unkept kept (id ∷ ids) = (if contains kept id then 0 else 1) + unkept kept ids

  abbrev flag : Bool → ℕ
  flag true = 1
  flag false = 0

  -- The loop has nothing left to keep.
  abbrev IsStable : List String → List String → Type 0
  IsStable kept ids =
      (id : String)
      → contains ids id ≡ true
      → id ≢ seed
      → contains kept id ≡ false
      → is_kept tms candidates kept id ≡ false

  is_kept-IsVerified :
      (kept : List String) (id : String)
      → AllVerified kept
      → contains candidates id ≡ true
      → id ≢ seed
      → is_kept tms candidates kept id ≡ true
      → IsVerified id
  unfolding is_kept
  is_kept-IsVerified kept id ok cand other h =
      elim (Option-cases (lookup id tms.working_memory.facts_by_id)) [
        | inl gone ↦ absurd (ground arith)
        | inr (fact, found) ↦ elim (Bool-cases fact.stated) [
          | inl yes_stated ↦ stated fact cand other found yes_stated
          | inr derived ↦
              let (j, m, outside) =
                any-mem (λ k. all (is_supported_outside candidates kept) k.antecedent_ids)
                  (justifications_for_fact_id id tms) (ground arith) in
              justified fact j cand other found m (λ a in_j in_candidates. ok a (
                ground (
                  arith,
                  all-mem (is_supported_outside candidates kept) j.antecedent_ids outside
                      (contains-mem j.antecedent_ids a in_j),
                )))
        ]
      ]

  unkept-add-le :
      (id : String) (kept ids : List String) → unkept (add id kept) ids ≤ unkept kept ids
  unfolding unkept
  unkept-add-le id kept [] = omega arith
  unkept-add-le id kept (x ∷ ids) =
      ground (arith, unkept-add-le id kept ids, contains-add id x kept)

  unkept-add :
      (id : String) (kept ids : List String)
      → contains kept id ≡ false
      → contains ids id ≡ true
      → unkept (add id kept) ids < unkept kept ids
  unfolding unkept
  unkept-add id kept [] new m = absurd (ground arith)
  unkept-add id kept (x ∷ ids) new m =
      ground (arith, unkept-add id kept ids new, unkept-add-le id kept ids, contains-add id x kept)

  unkept-le-length : (kept ids : List String) → unkept kept ids ≤ length ids
  unfolding unkept
  unkept-le-length kept [] = omega arith
  unkept-le-length kept (x ∷ ids) = ground (arith, unkept-le-length kept ids)

  -- What a part of a round does to `kept` and `changed`.
  record Pass (ids : List String) (before after : List String × Bool) : Type 0 where
    sound : AllVerified before.0 → AllVerified after.0
    fewer : unkept after.0 candidates + flag after.1 ≤ unkept before.0 candidates + flag before.1
    quiet : after.1 ≡ false → (after.0 ≡ before.0) × (before.1 ≡ false) × IsStable before.0 ids

  consider-Pass :
      (id : String) (s : List String × Bool)
      → contains candidates id ≡ true
      → Pass (id ∷ []) s (consider tms seed candidates id s)
  unfolding consider
  consider-Pass id s cand = elim (Bool-cases (id == seed || contains s.0 id)) [
    | inl skipped ↦ rw skipped (record {
      sound = λ ok. ok;
      fewer = omega arith;
      quiet = λ same. (refl, same, λ x m other new. absurd (ground arith));
    })
    | inr tried ↦ elim (Bool-cases (is_kept tms candidates s.0 id)) [
      | inl kept ↦
          rw (tried, kept)
            (record {
              sound = λ ok x m. elim (string_dec x id) [
                | yes same ↦ rw same (is_kept-IsVerified s.0 id ok cand (ground arith) kept)
                | no other ↦ ok x (ground (arith, contains-add id x s.0))
              ];
              fewer = omega (arith, unkept-add id s.0 candidates (ground arith) cand);
              quiet = λ same. cc;
            })
      | inr left ↦
          rw (tried, left)
            (record {
              sound = λ ok. ok;
              fewer = omega arith;
              quiet = λ same. (refl, same, λ x m other new. ground arith);
            })
    ]
  ]

  pass_lem :
      (ids : List String) (s : List String × Bool)
      → ((x : String) → contains ids x ≡ true → contains candidates x ≡ true)
      → Pass ids s (verify_pass tms seed candidates ids s)
  unfolding verify_pass
  pass_lem [] s sub = record {
    sound = λ ok. ok;
    fewer = omega arith;
    quiet = λ same. (refl, same, λ x m other new. absurd (ground arith));
  }
  pass_lem (id ∷ ids) s sub =
      let head = consider-Pass id s (sub id (ground arith)) in
      let rest = pass_lem ids (consider tms seed candidates id s) (λ x m. sub x (ground arith)) in
      record {
        sound = λ ok. rest.sound (head.sound ok);
        fewer = omega (arith, head.fewer, rest.fewer);
        quiet = λ same.
            let (kept, unchanged, stable) = rest.quiet same in
            let (kept', unchanged', stable') = head.quiet unchanged in
            (
              kept ∙ kept',
              unchanged',
              λ x m other new. elim (string_dec x id) [
                | yes here ↦ stable' x (ground arith) other new
                | no later ↦ rw kept' at (stable x (ground arith) other (rw (← kept') at new))
              ],
            );
      }

  verify_lem :
      (fuel : ℕ) (kept : List String)
      → unkept kept candidates < fuel
      → AllVerified kept
      → AllVerified (verify fuel tms seed candidates kept)
        × IsStable (verify fuel tms seed candidates kept) candidates
  unfolding verify
  verify_lem zero kept h ok = absurd (omega arith)
  verify_lem (suc fuel) kept h ok =
      let pass = pass_lem candidates (kept, false) (λ x m. m) in
      let round = verify_pass tms seed candidates candidates (kept, false) in
      elim (Bool-cases round.1) [
        | inl changed ↦
            rw (changed, verify)
              (verify_lem fuel round.0 (ground (arith, pass.fewer)) (pass.sound ok))
        | inr done ↦
            let (same, _, stable) = pass.quiet done in
            rw (done, verify) (pass.sound ok, rw (← same) at stable)
      ]

  IsVerified-kept :
      (kept : List String) {id : String}
      → IsStable kept candidates
      → IsVerified id
      → contains kept id ≡ true
  unfolding is_kept
  IsVerified-kept kept {id} stable (stated fact cand other found is_stated) =
      ground (arith, stable id cand other)
  IsVerified-kept kept {id} stable (justified fact j cand other found m below) =
      let outside : all (is_supported_outside candidates kept) j.antecedent_ids ≡ true =
        all-intro (is_supported_outside candidates kept) j.antecedent_ids (λ a in_j.
          elim (Bool-cases (contains candidates a)) [
            | inl inside ↦
                let k =
                  IsVerified-kept kept stable
                    (below a (mem-contains j.antecedent_ids a in_j) inside) in
                ground arith
            | inr out ↦ ground arith
          ]) in
      let justifies =
        any-intro (λ k. all (is_supported_outside candidates kept) k.antecedent_ids)
          (justifications_for_fact_id id tms) m outside in
      ground (arith, stable id cand other)

  -- The verify loop keeps exactly the candidates other than the seed that are supported from
  -- outside the candidates; its fuel is enough.
  pub mem-kept_of :
      (id : String) → (contains (kept_of tms seed candidates) id ≡ true) ↔ IsVerified id
  unfolding kept_of
  mem-kept_of id =
      let (ok, stable) =
        verify_lem (suc (length candidates)) [] (omega (arith, unkept-le-length [] candidates))
          (λ x m. absurd (ground arith)) in
      (ok id, IsVerified-kept _ stable)
