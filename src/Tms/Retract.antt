-- ===== src/Tms/Retract.antt =====
-- tms.py, TMSController.retract_triple and _mark_verify_sweep, and transitive_dependents_of.
pub mod Closure
pub mod Mark
pub mod Verify
pub mod Sweep
pub mod Trim
pub mod Final
pub mod Grounded
pub mod Correct
pub mod Cycles
use rdflib_reasoning.Base.{
  ℕ, zero, suc, ◌+◌, String, Eq, ◌==◌, string_eq, Bool, true, false, not, ◌&&◌, ◌||◌, Option, none,
  some, List, [], ◌∷◌, ◌++◌, map, reverse, if◌then◌else◌, contains, all, any, length,
}
use rdflib_reasoning.Base.Dict.{Dict, lookup, insert, erase, values, keys, get_or, filter_values}
use rdflib_reasoning.Base.Sets.{add, update, difference}
use rdflib_reasoning.Base.Sorting.{sorted}
use rdflib_reasoning.Errors.{Result, ok, raise, value_error, ◌>>=◌, ◌>>◌}
use rdflib_reasoning.Rdf.{Triple}
use rdflib_reasoning.Facts.{Fact}
use rdflib_reasoning.Tms.Graph.{
  DependencyGraph, consequents_of, discard_consequent, update_consequent_edges,
}
use rdflib_reasoning.Tms.Memory.{WorkingMemory, get_fact, remove_fact}
use rdflib_reasoning.Tms.Controller.{
  Justification, TmsController, supports, justifications_for_fact_id,
}

pub record RetractionOutcome : Type 0 where
  pub removed_fact_ids : List String
  pub removed_triples : List Triple
  pub removed_justification_ids : List String
  pub unstated_fact_ids : List String

abbrev pub empty_outcome : RetractionOutcome
empty_outcome = record {
  removed_fact_ids = [];
  removed_triples = [];
  removed_justification_ids = [];
  unstated_fact_ids = [];
}

-- RetractionOutcome.is_empty
unfoldable pub is_empty : RetractionOutcome → Bool
is_empty o = elim o.removed_fact_ids [
  | _ ∷ _ ↦ false
  | [] ↦ elim o.removed_justification_ids [
    | _ ∷ _ ↦ false
    | [] ↦ elim o.unstated_fact_ids [ _ ∷ _ ↦ false | [] ↦ true ]
  ]
]

-- The pushes that a walk over the graph can make: each set of edges once, and the seed's own.
abbrev pub edge_count : Dict String (List String) → ℕ
edge_count [] = 0
edge_count ((k, s) ∷ d) = length s + edge_count d

abbrev pub walk_fuel : DependencyGraph → ℕ
walk_fuel g = suc (edge_count g.consequents_by_antecedent + edge_count g.consequents_by_antecedent)

-- A `while pending` loop: `extend` says where the consequents of a new id are put.
unfoldable pub explore :
    (List String → List String → List String)
    → ℕ
    → DependencyGraph
    → List String
    → List String
    → List String
explore extend zero g pending seen = seen
explore extend (suc fuel) g [] seen = seen
explore extend (suc fuel) g (id ∷ pending) seen = elim (contains seen id) [
  | true ↦ explore extend fuel g pending seen
  | false ↦ explore extend fuel g (extend (consequents_of g id) pending) (add id seen)
]

-- The mark phase: `pending` is a stack with its top in front here, so what `extend` puts at the
-- end of Python's list stands reversed in front.
abbrev pub push : List String → List String → List String
push new pending = reverse new ++ pending

unfoldable pub candidates_of : DependencyGraph → String → List String
candidates_of g seed = explore push (walk_fuel g) g (push (consequents_of g seed) []) (seed ∷ [])

-- `transitive_dependents_of`: `pending` is a queue.
abbrev pub enqueue : List String → List String → List String
enqueue new pending = pending ++ new

unfoldable pub transitive_dependents_of : Triple → TmsController → Result (List String)
transitive_dependents_of triple tms = do
  found ← get_fact triple tms.working_memory
  elim found [
    | none ↦ ok []
    | some fact ↦
        let g = tms.dependency_graph in
        ok (sorted (explore enqueue (walk_fuel g) g (consequents_of g fact.id) []))
  ]

-- The inner function `is_supported_outside`.
abbrev pub is_supported_outside : List String → List String → String → Bool
is_supported_outside candidates kept id = not (contains candidates id) || contains kept id

-- Whether the body of the verify loop keeps a candidate: it is there, and stated or justified.
unfoldable pub is_kept : TmsController → List String → List String → String → Bool
is_kept tms candidates kept id = elim (lookup id tms.working_memory.facts_by_id) [
  | none ↦ false
  | some fact ↦
      fact.stated
      || any (λ j. all (is_supported_outside candidates kept) j.antecedent_ids)
          (justifications_for_fact_id id tms)
]

-- The body of `for candidate_id in candidates`, over `kept` and the flag `changed`.
unfoldable pub consider :
    TmsController → String → List String → String → List String × Bool → List String × Bool
consider tms seed candidates id s =
    if id == seed || contains s.0 id
    then s
    else (if is_kept tms candidates s.0 id then (add id s.0, true) else s)

unfoldable pub verify_pass :
    TmsController → String → List String → List String → List String × Bool → List String × Bool
verify_pass tms seed candidates [] s = s
verify_pass tms seed candidates (id ∷ rest) s =
    verify_pass tms seed candidates rest (consider tms seed candidates id s)

-- `while changed`: each round that changes something keeps one more candidate.
unfoldable pub verify : ℕ → TmsController → String → List String → List String → List String
verify zero tms seed candidates kept = kept
verify (suc fuel) tms seed candidates kept =
    let round = verify_pass tms seed candidates candidates (kept, false) in
    elim round.1 [ true ↦ verify fuel tms seed candidates round.0 | false ↦ round.0 ]

unfoldable pub kept_of : TmsController → String → List String → List String
unfolding verify
kept_of tms seed candidates = verify (suc (length candidates)) tms seed candidates []

-- The locals of the sweep: the controller, `removed_pairs` and `removed_justification_ids`.
pub record SweepState : Type 0 where
  pub tms : TmsController
  pub removed_pairs : List (String × Triple)
  pub removed_justification_ids : List String

-- The body of `for swept_id in sorted(swept)`.
unfoldable pub sweep_fact : String → SweepState → Result SweepState
sweep_fact id s =
    let before = s.tms in
    let removed = s.removed_justification_ids ++ keys (supports id before) in
    let cut : TmsController = record before {
      justifications_by_consequent = erase id before.justifications_by_consequent;
      dependency_graph = discard_consequent id before.dependency_graph;
    } in
    elim (lookup id before.working_memory.facts_by_id) [
      | none ↦ ok (record s { tms = cut; removed_justification_ids = removed })
      | some fact ↦ do
        (wm, _) ← remove_fact id before.working_memory
        ok (record {
          tms = record cut { working_memory = wm };
          removed_pairs = s.removed_pairs ++ (id, fact.triple) ∷ [];
          removed_justification_ids = removed;
        })
    ]

unfoldable pub sweep_facts : List String → SweepState → Result SweepState
sweep_facts [] s = ok s
sweep_facts (id ∷ ids) s = do s' ← sweep_fact id s; sweep_facts ids s'

-- A justification survives if none of its antecedents is swept.
abbrev pub survives : List String → Justification → Bool
survives swept j = all (λ a. not (contains swept a)) j.antecedent_ids

abbrev pub concat_antecedents : List Justification → List String
concat_antecedents [] = []
concat_antecedents (j ∷ js) = j.antecedent_ids ++ concat_antecedents js

-- The body of `for kept_id in sorted(kept)`.
unfoldable pub trim_fact : List String → String → SweepState → SweepState
trim_fact swept id s = elim (lookup id s.tms.justifications_by_consequent) [
  | none ↦ s
  | some kept_justifications ↦
      let before = s.tms in
      let left = filter_values (survives swept) kept_justifications in
      let dropped = keys (filter_values (λ j. not (survives swept j)) kept_justifications) in
      record s {
        tms = record before {
          justifications_by_consequent = elim left [
            | [] ↦ erase id before.justifications_by_consequent
            | j ∷ js ↦ insert id (j ∷ js) before.justifications_by_consequent
          ];
          dependency_graph =
              update_consequent_edges id (concat_antecedents (values left)) before.dependency_graph;
        };
        removed_justification_ids = s.removed_justification_ids ++ dropped;
      }
]

unfoldable pub trim_facts : List String → List String → SweepState → SweepState
trim_facts swept [] s = s
trim_facts swept (id ∷ ids) s = trim_facts swept ids (trim_fact swept id s)

unfoldable pub mark_verify_sweep :
    String → TmsController → Result (TmsController × RetractionOutcome)
mark_verify_sweep seed tms =
    let candidates = candidates_of tms.dependency_graph seed in
    let kept = kept_of tms seed candidates in
    let swept = difference candidates kept in
    do
      s ←
          sweep_facts (sorted swept)
            (record { tms = tms; removed_pairs = []; removed_justification_ids = [] })
      let t = trim_facts swept (sorted kept) s
      ok (
        t.tms,
        record {
          removed_fact_ids = map (λ (id, _). id) t.removed_pairs;
          removed_triples = map (λ (_, triple). triple) t.removed_pairs;
          removed_justification_ids = sorted t.removed_justification_ids;
          unstated_fact_ids = [];
        },
      )

-- The fact with its `stated` flag cleared.
unfoldable pub clear_stated : Fact → TmsController → TmsController
clear_stated fact tms =
    let wm = tms.working_memory in
    record tms {
      working_memory = record wm {
        facts_by_id = insert fact.id (record fact { stated = false }) wm.facts_by_id;
      };
    }

unfoldable pub retract_triple : Triple → TmsController → Result (TmsController × RetractionOutcome)
retract_triple triple tms = do
  found ← get_fact triple tms.working_memory
  elim found [
    | none ↦ ok (tms, empty_outcome)
    | some fact ↦ elim fact.stated [
      | false ↦ raise value_error
      | true ↦ elim (justifications_for_fact_id fact.id tms) [
        | _ ∷ _ ↦
            ok (clear_stated fact tms, record empty_outcome { unstated_fact_ids = fact.id ∷ [] })
        | [] ↦ mark_verify_sweep fact.id tms
      ]
    ]
  ]
