-- ===== src/Tms/Controller.antt =====
-- tms.py, class TMSController: the support records and the questions about them.
-- Retraction stands in Tms/Retract.antt.
use rdflib_reasoning.Base.{
  ℕ, zero, suc, String, ◌<>◌, ◌==◌, string_eq, Bool, true, false, not, ◌&&◌, ◌||◌, Option, none,
  some, List, [], ◌∷◌, map, contains, all, any, length,
}
use rdflib_reasoning.Base.Dict.{Dict, lookup, insert, values, get_or}
use rdflib_reasoning.Base.Sorting.{sort_by, string_le}
use rdflib_reasoning.Base.Text.{join}
use rdflib_reasoning.Errors.{Result, ok, raise, value_error, ◌>>=◌}
use rdflib_reasoning.Rdf.{Node, Triple, Rendering}
use rdflib_reasoning.Facts.{Fact}
use rdflib_reasoning.Tms.Graph.{DependencyGraph, empty_graph, add_support, consequents_of}
use rdflib_reasoning.Tms.Memory.{WorkingMemory, empty_memory, add_fact, get_fact}

-- proof.py, class RuleId; `ruleset` is a reserved word here.
pub record RuleId : Type 0 where
  pub rule_set : String
  pub rule_id : String

-- The metadata of a justification: its keys are "depth" and "bindings".
pub record Metadata : Type 0 where
  pub depth : ℕ
  pub bindings : List (String × String)

pub record Justification : Type 0 where
  pub id : String
  pub rule_id : RuleId
  pub consequent_id : String
  pub antecedent_ids : List String
  pub metadata : Metadata

pub record SupportSnapshot : Type 0 where
  pub triple : Triple
  pub fact_id : Option String
  pub is_present : Bool
  pub is_stated : Bool
  pub justification_ids : List String

pub record TmsController : Type 0 where
  pub working_memory : WorkingMemory
  pub dependency_graph : DependencyGraph
  pub justifications_by_consequent : Dict String (Dict String Justification)

-- A new controller, and the state after `clear`.
abbrev pub empty_tms : TmsController
empty_tms = record {
  working_memory = empty_memory;
  dependency_graph = empty_graph;
  justifications_by_consequent = [];
}

unfoldable pub clear : TmsController → TmsController
clear tms = empty_tms

-- `tuple((name, value.n3()) for name, value in sorted(bindings.items()))`: names are unique.
unfoldable pub bindings_metadata : (Node → String) → Dict String Node → List (String × String)
bindings_metadata n3 bindings =
    map (λ (name, value). (name, n3 value)) (sort_by (λ b c. string_le b.0 c.0) bindings)

-- `repr` of a tuple of pairs of texts
unfoldable pub repr_bindings : (String → String) → List (String × String) → String
repr_bindings repr_str [] = "()"
repr_bindings repr_str (b ∷ []) = "((" <> repr_str b.0 <> ", " <> repr_str b.1 <> "),)"
repr_bindings repr_str (b ∷ c ∷ rest) =
    "("
    <> join ", " (map (λ (n, v). "(" <> repr_str n <> ", " <> repr_str v <> ")") (b ∷ c ∷ rest))
    <> ")"

unfoldable pub justification_key : Rendering → RuleId → List String → Metadata → String
unfolding repr_bindings
justification_key r rule_id antecedent_ids metadata =
    let metadata_key = join "|" (
      ("bindings=" <> repr_bindings r.repr_str metadata.bindings)
      ∷ ("depth=" <> r.repr_int metadata.depth)
      ∷ []) in
    let antecedents_key = join "," antecedent_ids in
    rule_id.rule_set <> ":" <> rule_id.rule_id <> "|" <> antecedents_key <> "|" <> metadata_key

unfoldable pub register_stated :
    (Node → String) → List Triple → TmsController → Result (TmsController × List Fact)
register_stated n3 [] tms = ok (tms, [])
register_stated n3 (triple ∷ triples) tms = do
  (wm, fact) ← add_fact n3 triple true tms.working_memory
  (tms', facts) ← register_stated n3 triples (record tms { working_memory = wm })
  ok (tms', fact ∷ facts)

-- `justifications_by_consequent.get(id, {})`
unfoldable pub supports : String → TmsController → Dict String Justification
supports id tms = get_or (lookup id tms.justifications_by_consequent) []

-- The end of `record_derivation`: a justification is stored once, with its edges.
unfoldable pub add_justification : Justification → TmsController → TmsController
unfolding supports
add_justification j tms =
    let known = supports j.consequent_id tms in
    elim (lookup j.id known) [
      | some _ ↦ record tms {
        justifications_by_consequent =
            insert j.consequent_id known tms.justifications_by_consequent;
      }
      | none ↦ record tms {
        justifications_by_consequent =
            insert j.consequent_id (insert j.id j known) tms.justifications_by_consequent;
        dependency_graph = add_support j.consequent_id j.antecedent_ids tms.dependency_graph;
      }
    ]

unfoldable pub make_justification :
    Rendering → String → RuleId → List Fact → Dict String Node → ℕ → Justification
make_justification r consequent_id rule_id premises bindings depth =
    let antecedent_ids = map (λ f. f.id) premises in
    let metadata : Metadata = record {
      depth = depth;
      bindings = bindings_metadata r.n3 bindings;
    } in
    record {
      id = justification_key r rule_id antecedent_ids metadata;
      rule_id = rule_id;
      consequent_id = consequent_id;
      antecedent_ids = antecedent_ids;
      metadata = metadata;
    }

unfoldable pub record_derivation :
    Rendering
    → Triple
    → RuleId
    → List Fact
    → Dict String Node
    → ℕ
    → TmsController
    → Result (TmsController × Fact)
unfolding add_justification make_justification
record_derivation r triple rule_id premises bindings depth tms = do
  (wm, consequent) ← add_fact r.n3 triple false tms.working_memory
  let j = make_justification r consequent.id rule_id premises bindings depth
  ok (add_justification j (record tms { working_memory = wm }), consequent)

unfoldable pub fact_for_triple : Triple → TmsController → Result (Option Fact)
fact_for_triple triple tms = get_fact triple tms.working_memory

unfoldable pub justifications_for_fact_id : String → TmsController → List Justification
unfolding supports
justifications_for_fact_id id tms = values (supports id tms)

unfoldable pub justifications_for : Triple → TmsController → Result (List Justification)
justifications_for triple tms = do
  found ← get_fact triple tms.working_memory
  elim found [ none ↦ ok [] | some fact ↦ ok (justifications_for_fact_id fact.id tms) ]

unfoldable pub support_count : Triple → TmsController → Result ℕ
unfolding justifications_for
support_count triple tms = do js ← justifications_for triple tms; ok (length js)

unfoldable pub is_supported : Triple → TmsController → Result Bool
unfolding support_count
is_supported triple tms = do
  found ← get_fact triple tms.working_memory
  elim found [
    | none ↦ ok false
    | some fact ↦ elim fact.stated [
      | true ↦ ok true
      | false ↦ do n ← support_count triple tms; ok (elim n [ zero ↦ false | suc _ ↦ true ])
    ]
  ]

unfoldable pub support_snapshot : Triple → TmsController → Result SupportSnapshot
support_snapshot triple tms = do
  found ← get_fact triple tms.working_memory
  elim found [
    | none ↦ ok (record {
      triple = triple;
      fact_id = none;
      is_present = false;
      is_stated = false;
      justification_ids = [];
    })
    | some fact ↦ ok (record {
      triple = triple;
      fact_id = some fact.id;
      is_present = true;
      is_stated = fact.stated;
      justification_ids = map (λ j. j.id) (justifications_for_fact_id fact.id tms);
    })
  ]

-- SupportSnapshot.is_supported
unfoldable pub snapshot_is_supported : SupportSnapshot → Bool
snapshot_is_supported s =
    s.is_present && (s.is_stated || elim s.justification_ids [ [] ↦ false | _ ∷ _ ↦ true ])

-- `some` of one of the two, as the guard demands.
pub data Without : Type 0 where
  neither both : Without
  justification antecedent : String → Without

unfoldable pub would_remain_supported : Triple → Without → TmsController → Result Bool
would_remain_supported triple neither tms = raise value_error
would_remain_supported triple both tms = raise value_error
would_remain_supported triple (justification without) tms = do
  found ← get_fact triple tms.working_memory
  elim found [
    | none ↦ ok false
    | some fact ↦
        ok
          (fact.stated || any (λ j. not (j.id == without)) (justifications_for_fact_id fact.id tms))
  ]
would_remain_supported triple (antecedent without) tms = do
  found ← get_fact triple tms.working_memory
  elim found [
    | none ↦ ok false
    | some fact ↦ ok (
        fact.stated
        || any (λ j. not (contains j.antecedent_ids without))
            (justifications_for_fact_id fact.id tms))
  ]

-- The recursion of `_fact_id_transitively_supported`: `visiting` grows by a fact at each level,
-- so the number of facts bounds the depth.
unfoldable pub transitively_supported_id : ℕ → List String → TmsController → String → Bool
transitively_supported_id zero visiting tms id = false
transitively_supported_id (suc fuel) visiting tms id =
    elim (lookup id tms.working_memory.facts_by_id) [
      | none ↦ false
      | some fact ↦ elim fact.stated [
        | true ↦ true
        | false ↦ elim (contains visiting id) [
          | true ↦ false
          | false ↦ elim (justifications_for_fact_id id tms) [
            | [] ↦ false
            | j ∷ js ↦
                all (λ k. all (transitively_supported_id fuel (id ∷ visiting) tms) k.antecedent_ids)
                  (j ∷ js)
          ]
        ]
      ]
    ]

unfoldable pub transitively_supported : Triple → TmsController → Result Bool
unfolding transitively_supported_id
transitively_supported triple tms = do
  found ← get_fact triple tms.working_memory
  elim found [
    | none ↦ ok false
    | some fact ↦
        ok (transitively_supported_id (suc (length tms.working_memory.facts_by_id)) [] tms fact.id)
  ]

unfoldable pub dependents_of : Triple → TmsController → Result (List String)
dependents_of triple tms = do
  found ← get_fact triple tms.working_memory
  elim found [ none ↦ ok [] | some fact ↦ ok (consequents_of tms.dependency_graph fact.id) ]
