-- ===== src/Tests/Store.antt =====
-- rete_store.py and batch_dispatcher.py: a store on a backing store that is a dict of graphs.
use rdflib_reasoning.Base.{
  ℕ, ◌<◌, ◌+◌, ◌≡◌, refl, sym, subst, Bool, true, false, ◌||◌, ◌&&◌, ◌==◌, Option, none, some, List,
  [], ◌∷◌, ◌++◌, Memᴰ, inl, filter, map, not, contains, contains-filter, mem-contains, contains-mem,
  arith, if◌then◌else◌,
}
use mathlib.Core.List.Memᴰ
use rdflib_reasoning.Base.Dict.{Dict, lookup, insert, get_or, lookup-insert}
use rdflib_reasoning.Errors.{Result, ok, raise, Ensures}
use rdflib_reasoning.Rdf.{Node, node_eq, uri_ref, Triple, triple_eq}
use rdflib_reasoning.Compiler.{productions_of, compile_rule}
use rdflib_reasoning.Network.{add_terminal}
use rdflib_reasoning.Network.Builder.{build_rules, build_rule}
use rdflib_reasoning.Network.Terms.{Over}
use rdflib_reasoning.Engine.Saturation.{compile_rules, new_engine}
use rdflib_reasoning.Engine.Universe.{TerminalsOver}
use rdflib_reasoning.Engine.Fixpoint.{Ends, cube}
use rdflib_reasoning.Engine.Growth.{
  triple_terms, rule_terms, AllTriples-triple_terms, AllTriples-grow, TerminalsOver-grow,
  TerminalsOver-rule_terms,
}
use rdflib_reasoning.Engine.Known.{AllTriples}
use rdflib_reasoning.Store.{
  StorePattern, matches, BackingStore, BackingStoreLaws, ReteEngineFactoryConfig, ReteStore,
  store_add,
}
use rdflib_reasoning.Store.Events.{IsPending, StoreOver}
use rdflib_reasoning.Store.Converges.{Settled, store_add-Settled}
use rdflib_reasoning.Tests.Tms.{typed}
use rdflib_reasoning.Tests.Network.{plain}
use rdflib_reasoning.Tests.Engine.{config}
use rdflib_reasoning.Tests.Loop.{a_is_b, engine, starts}

abbrev pub Graphs : Type 0
Graphs = Dict Node (List Triple)

abbrev graph : Graphs → Node → List Triple
graph s c = get_or (lookup c s) []

abbrev left_of : StorePattern → List Triple → List Triple
left_of p ts = filter (λ t. not (matches p t)) ts

abbrev removed_from : StorePattern → Option Node → Graphs → Graphs
removed_from p none s = map (λ e. (e.0, left_of p e.1)) s
removed_from p (some c) s = insert c (left_of p (graph s c)) s

abbrev pub memory : BackingStore Graphs
memory = record {
  has = λ s c t. contains (graph s c) t;
  triples = λ s c p. filter (matches p) (graph s c);
  put = λ c t s. insert c (t ∷ graph s c) s;
  remove = removed_from;
}

graph-insert :
    (s : Graphs) (c d : Node) (t u : Triple)
    → contains (get_or (lookup d (insert c (t ∷ get_or (lookup c s) []) s)) []) u
      ≡ (contains (get_or (lookup d s) []) u || (d == c && u == t))
graph-insert s c d t u = ground (arith, lookup-insert d c (t ∷ get_or (lookup c s) []) s)

graph-left_of :
    (s : Graphs) (c d : Node) (p : StorePattern) (u : Triple)
    → contains (get_or (lookup d (insert c (left_of p (get_or (lookup c s) [])) s)) []) u
      ≡ (contains (get_or (lookup d s) []) u && not (d == c && matches p u))
graph-left_of s c d p u = ground (
  arith,
  lookup-insert d c (left_of p (get_or (lookup c s) [])) s,
  contains-filter (λ t. not (matches p t)) (get_or (lookup c s) []) u,
)

pub memory_laws : BackingStoreLaws memory
memory_laws = record {
  has-put = graph-insert;
  contains-triples = λ s c p t. contains-filter (matches p) (graph s c) t;
  has-remove = graph-left_of;
}

abbrev pub factory : ReteEngineFactoryConfig
factory = record {
  rules = a_is_b;
  contradiction_recorder_factory = λ _. config.contradiction_recorder;
  derivation_logger_factory = λ _. config.derivation_logger;
  predicates = [];
  callbacks = [];
  literal_subject_policy = config.literal_subject_policy;
  predicate_term_policy = config.predicate_term_policy;
}

abbrev pub new_store : ReteStore Graphs
new_store = record {
  store = [];
  engines = [];
  current_additions = [];
  handling_addition = false;
  current_removals = [];
  handling_removal = false;
  pending_rematerialize = [];
  remove_depth = 0;
}

abbrev pub here : Node
here = uri_ref "graph"

abbrev pub told : Triple
told = typed "x" "a"

abbrev terms : List Node
terms = rule_terms engine.terminals ++ triple_terms (told ∷ [])

new_store-StoreOver : StoreOver memory terms here new_store
unfolding IsPending lookup
new_store-StoreOver = record {
  engines = λ e there. cc there;
  stored = λ t there. cc there;
  pending = inl refl;
}

fuel_enough : cube terms < 218
unfolding cube rule_terms triple_terms new_engine compile_rules compile_rule productions_of
    build_rules build_rule add_terminal
fuel_enough = omega arith

loop_enough : cube terms + 1 < 218
unfolding cube rule_terms triple_terms new_engine compile_rules compile_rule productions_of
    build_rules build_rule add_terminal
loop_enough = omega arith

covered : Ensures (λ e. TerminalsOver terms e.terminals) (new_engine plain a_is_b)
covered = subst (Ensures (λ e. TerminalsOver terms e.terminals)) (sym starts) (
    TerminalsOver-grow (rule_terms engine.terminals) terms (λ v. Memᴰ.append_left _)
      engine.terminals (TerminalsOver-rule_terms engine.terminals))

told-Over : Over terms told
unfolding AllTriples
told-Over =
    AllTriples-grow (triple_terms (told ∷ [])) terms
      (λ v. Memᴰ.append_right (rule_terms engine.terminals)) (told ∷ [])
      (AllTriples-triple_terms (told ∷ [])) told (Memᴰ.head refl)

store_add-Settled_example :
    Ends
      (Settled memory terms here told new_store)
      (store_add memory plain factory 218 218 here told new_store)
store_add-Settled_example =
    store_add-Settled memory memory_laws terms here plain factory 218 fuel_enough covered 218 told
      new_store loop_enough new_store-StoreOver refl refl told-Over

abbrev graph_of : Option (Result (ReteStore Graphs)) → List Triple
graph_of (some (ok st)) = graph st.store here
graph_of (some (raise e)) = []
graph_of none = []

unfoldable pub store_program : Unit {0}
unfolding store_add rdflib_reasoning.Base.string_dec
    rdflib_reasoning.Compiler.compile_triple_condition rdflib_reasoning.Rdf.node_dec
    rdflib_reasoning.Tms.Memory.add_fact rdflib_reasoning.Agenda.pop_min
    rdflib_reasoning.Rdf.triple_dec
store_program = tt

-- What the rule derives is in the graph before what was added.
adds : graph_of (store_add memory plain factory 4 4 here told new_store) ≡ told ∷ typed "x" "b" ∷ []
unfolding store_program
adds = refl
