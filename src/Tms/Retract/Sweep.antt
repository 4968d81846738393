-- ===== src/Tms/Retract/Sweep.antt =====
-- The sweep loop: what it does to facts, justifications and edges.
use rdflib_reasoning.Base.{
  String, ◌≡◌, refl, sym, string_eq, Bool, true, false, none, some, List, [], ◌∷◌, ◌++◌, ◌⊎◌, inl,
  inr, map, Memᴰ, contains, if◌then◌else◌, arith, Option-cases, string_dec,
}
use rdflib_reasoning.Base.Dict.{Dict, lookup, erase, keys, lookup-erase}
use mathlib.Core.List.{map-append}
use mathlib.Core.List.Memᴰ
use rdflib_reasoning.Errors.{ok, ◌>>=◌}
use rdflib_reasoning.Rdf.{Triple}
use rdflib_reasoning.Facts.{Fact}
use rdflib_reasoning.Tms.Graph.{consequents_of, discard_consequent}
use rdflib_reasoning.Tms.Graph.Laws.{discard_consequent-keeps}
use rdflib_reasoning.Tms.Memory.Laws.{
  IsIndexed, without_fact, remove_fact_total, without_fact-IsIndexed,
}
use rdflib_reasoning.Tms.Controller.{Justification, TmsController, supports}
use rdflib_reasoning.Tms.Retract.{SweepState, sweep_fact, sweep_facts}

abbrev pub facts_of : SweepState → Dict String Fact
facts_of s = s.tms.working_memory.facts_by_id

abbrev pub edge : SweepState → String → String → Bool
edge s a c = contains (consequents_of s.tms.dependency_graph a) c

abbrev pub tables : SweepState → Dict String (Dict String Justification)
tables s = s.tms.justifications_by_consequent

-- `removed_triples` so far
abbrev pub triples_of : SweepState → List Triple
triples_of s = map (λ (_, t). t) s.removed_pairs

-- A fact of this triple is stored under one of the ids.
abbrev pub HasTriple : List String → SweepState → Triple → Type 0
HasTriple ids s t =
    (i : String) × (f : Fact) × (contains ids i ≡ true)
    × (lookup i (facts_of s) ≡ some f)
    × (f.triple ≡ t)

-- What sweeping the ids does.
pub record Sweeps (ids : List String) (before after : SweepState) : Type 0 where
  pub indexed : IsIndexed after.tms.working_memory
  pub facts_left :
      (i : String)
      → lookup i (facts_of after) ≡ (if contains ids i then none else lookup i (facts_of before))
  pub tables_left :
      (i : String)
      → lookup i (tables after) ≡ (if contains ids i then none else lookup i (tables before))
  pub edges_left :
      (a c : String)
      → contains ids a ≡ false
      → contains ids c ≡ false
      → edge before a c ≡ true
      → edge after a c ≡ true
  pub removed_before : (t : Triple) → Memᴰ t (triples_of before) → Memᴰ t (triples_of after)
  pub removed_sound :
      (t : Triple) → Memᴰ t (triples_of after) → Memᴰ t (triples_of before) ⊎ HasTriple ids before t
  pub removed_full : (t : Triple) → HasTriple ids before t → Memᴰ t (triples_of after)

Sweeps-nil : (s : SweepState) → IsIndexed s.tms.working_memory → Sweeps [] s s
Sweeps-nil s h = record {
  indexed = h;
  facts_left = λ i. refl;
  tables_left = λ i. refl;
  edges_left = λ a c _ _ e. e;
  removed_before = λ t m. m;
  removed_sound = λ t m. inl m;
  removed_full = λ t (i, f, m, _, _). absurd (ground arith);
}

Sweeps-step :
    (id : String) (ids : List String) (s t u : SweepState)
    → Sweeps (id ∷ []) s t
    → Sweeps ids t u
    → Sweeps (id ∷ ids) s u
Sweeps-step id ids s t u one rest = record {
  indexed = rest.indexed;
  facts_left = λ i. ground (arith, one.facts_left i, rest.facts_left i);
  tables_left = λ i. ground (arith, one.tables_left i, rest.tables_left i);
  edges_left = λ a c ha hc e.
      rest.edges_left a c (ground arith) (ground arith)
        (one.edges_left a c (ground arith) (ground arith) e);
  removed_before = λ x m. rest.removed_before x (one.removed_before x m);
  removed_sound = λ x m. elim (rest.removed_sound x m) [
    | inl early ↦ elim (one.removed_sound x early) [
      | inl old ↦ inl old
      | inr (i, f, at, found, of_x) ↦ inr (i, f, ground arith, found, of_x)
    ]
    | inr (i, f, at, found, of_x) ↦ inr (i, f, ground arith, ground (arith, one.facts_left i), of_x)
  ];
  removed_full = λ x (i, f, at, found, of_x). elim (string_dec i id) [
    | yes first ↦ rest.removed_before x (one.removed_full x (i, f, ground arith, found, of_x))
    | no later ↦ rest.removed_full x (i, f, ground arith, ground (arith, one.facts_left i), of_x)
  ];
}

module _ (id : String) (s : SweepState) (h : IsIndexed s.tms.working_memory) where
  abbrev cut : TmsController
  cut =
      let before = s.tms in
      record before {
        justifications_by_consequent = erase id before.justifications_by_consequent;
        dependency_graph = discard_consequent id before.dependency_graph;
      }

  abbrev dropped : List String
  dropped = s.removed_justification_ids ++ keys (supports id s.tms)

  tables_cut :
      (i : String)
      → lookup i (erase id (tables s))
        ≡ (if contains (id ∷ []) i then none else lookup i (tables s))
  tables_cut i = ground (arith, lookup-erase i id (tables s))

  edges_cut :
      (a c : String)
      → contains (id ∷ []) a ≡ false
      → contains (id ∷ []) c ≡ false
      → edge s a c ≡ true
      → contains (consequents_of (discard_consequent id s.tms.dependency_graph) a) c ≡ true
  edges_cut a c ha hc =
      discard_consequent-keeps id s.tms.dependency_graph a c (ground arith) (ground arith)

  -- The id has no fact in memory.
  Sweeps-absent :
      lookup id (facts_of s) ≡ none
      → Sweeps (id ∷ []) s (record s { tms = cut; removed_justification_ids = dropped })
  Sweeps-absent gone = record {
    indexed = h;
    facts_left = λ i. ground arith;
    tables_left = tables_cut;
    edges_left = edges_cut;
    removed_before = λ t m. m;
    removed_sound = λ t m. inl m;
    removed_full = λ t (i, f, at, found, of_t). absurd (ground arith);
  }

  Sweeps-present :
      (f : Fact)
      → lookup id (facts_of s) ≡ some f
      → Sweeps (id ∷ []) s (record {
        tms = record cut { working_memory = without_fact id f s.tms.working_memory };
        removed_pairs = s.removed_pairs ++ (id, f.triple) ∷ [];
        removed_justification_ids = dropped;
      })
  Sweeps-present f found = record {
    indexed = without_fact-IsIndexed id s.tms.working_memory f h found;
    facts_left = λ i. ground (arith, lookup-erase i id (facts_of s));
    tables_left = tables_cut;
    edges_left = edges_cut;
    removed_before = λ t m. rw map-append (Memᴰ.append_left _ m);
    removed_sound = λ t m. elim (Memᴰ.append_cases (triples_of s) (rw map-append at m)) [
      | inl old ↦ inl old
      | inr new ↦ inr (id, f, ground arith, found, sym (Memᴰ.eq_of_singleton new))
    ];
    removed_full = λ t (i, g, at, there, of_t).
        let same : t ≡ f.triple = ground arith in
        rw map-append (Memᴰ.append_right (triples_of s) (Memᴰ.head same));
  }

sweep_fact_lem :
    (id : String) (s : SweepState)
    → IsIndexed s.tms.working_memory
    → (t : SweepState) × (sweep_fact id s ≡ ok t) × Sweeps (id ∷ []) s t
unfolding sweep_fact
sweep_fact_lem id s h = elim (Option-cases (lookup id (facts_of s))) [
  | inl gone ↦ (_, rw (gone, sweep_fact) refl, Sweeps-absent id s h gone)
  | inr (f, found) ↦ (
    _,
    rw (found, remove_fact_total id s.tms.working_memory f h found, sweep_fact) refl,
    Sweeps-present id s h f found,
  )
]

-- The sweep loop runs to its end.
pub sweep_facts_lem :
    (ids : List String) (s : SweepState)
    → IsIndexed s.tms.working_memory
    → (t : SweepState) × (sweep_facts ids s ≡ ok t) × Sweeps ids s t
unfolding sweep_facts
sweep_facts_lem [] s h = (s, refl, Sweeps-nil s h)
sweep_facts_lem (id ∷ ids) s h =
    let (t, first, one) = sweep_fact_lem id s h in
    let (u, later, rest) = sweep_facts_lem ids t one.indexed in
    (u, rw (first, ◌>>=◌) later, Sweeps-step id ids s t u one rest)
