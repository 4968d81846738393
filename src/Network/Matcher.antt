-- ===== src/Network/Matcher.antt =====
-- network.py: the matching pass over alpha, beta, predicate and terminal nodes.
use rdflib_reasoning.Base.{
  ℕ, String, string_eq, ◌<>◌, Bool, true, none, some, List, [], ◌∷◌, ◌++◌, if◌then◌else◌, map,
  length,
}
use rdflib_reasoning.Base.Dict.{Dict, keys, lookup, insert, get_or, is_some}
use rdflib_reasoning.Base.Sorting.{sort_by, string_le}
use rdflib_reasoning.Base.Text.{join}
use rdflib_reasoning.Errors.{Result, ok, raise, key_error, ◌>>=◌}
use rdflib_reasoning.Rdf.{Node, variable, node_eq, Triple, Rendering}
use rdflib_reasoning.Facts.{Fact, PartialMatch, fact_id_for_triple}
use rdflib_reasoning.Consequents.{ActionInstance}
use rdflib_reasoning.Network.{
  AlphaNode, PredicateNode, BetaNode, TerminalNode, MatchMemory, NodeRegistry,
}
use rdflib_reasoning.Network.Matching.{alpha_matches, joined}

unfoldable pub root_matches : TerminalNode → Dict String (List PartialMatch) → List PartialMatch
unfolding lookup
root_matches terminal partial_matches = elim terminal.input_keys [
  | [] ↦ record { facts = []; bindings = []; depth = 0 } ∷ []
  | root_key ∷ _ ↦ get_or (lookup root_key partial_matches) []
]

-- `match.bindings[str(argument)]` for each variable
unfoldable pub bound_arguments : List Node → Dict String Node → Result (List Node)
unfolding lookup
bound_arguments [] bindings = ok []
bound_arguments (variable name ∷ arguments) bindings =
    let rest = bound_arguments arguments bindings in
    elim (lookup name bindings) [
      | none ↦ raise key_error
      | some value ↦ rest >>= λ values. ok (value ∷ values)
    ]
bound_arguments (argument ∷ arguments) bindings =
    bound_arguments arguments bindings >>= λ values. ok (argument ∷ values)

-- `hook.test(context, *arguments)`; the context shows the hook its terminal.
abbrev pub PredicateHook : Type 0
PredicateHook = TerminalNode → List Node → Result Bool

unfoldable pub apply_hook :
    PredicateHook → List Node → TerminalNode → List PartialMatch → Result (List PartialMatch)
unfolding bound_arguments
apply_hook hook arguments terminal [] = ok []
apply_hook hook arguments terminal (match ∷ matches) =
    let rest = apply_hook hook arguments terminal matches in
    bound_arguments arguments match.bindings >>= λ values. hook terminal values >>= λ passes.
    rest >>= λ filtered. ok (if passes then match ∷ filtered else filtered)

unfoldable pub apply_predicate :
    Dict String PredicateHook
    → PredicateNode
    → List PartialMatch
    → TerminalNode
    → Result (List PartialMatch)
unfolding apply_hook lookup
apply_predicate predicates node matches terminal =
    elim (lookup node.condition.predicate predicates) [
      | none ↦ raise key_error
      | some hook ↦ apply_hook hook node.condition.arguments terminal matches
    ]

unfoldable pub apply_predicates :
    Dict String PredicateHook
    → NodeRegistry
    → TerminalNode
    → List String
    → List PartialMatch
    → Result (List PartialMatch)
unfolding apply_predicate
apply_predicates predicates r terminal [] matches = ok matches
apply_predicates predicates r terminal (key ∷ keys) matches = elim (lookup key r.predicate_nodes) [
  | none ↦ raise key_error
  | some node ↦
      apply_predicate predicates node matches terminal
      >>= apply_predicates predicates r terminal keys
]

unfoldable pub action_for : TerminalNode → PartialMatch → ActionInstance
action_for terminal match = record {
  rule_id = terminal.rule.rule_id;
  bindings = match.bindings;
  premises = match.facts;
  depth = match.depth;
  salience = terminal.rule.salience;
  productions = terminal.rule.productions;
  callbacks = terminal.rule.callbacks;
  contradictions = terminal.rule.contradictions;
  silent = terminal.rule.silent;
  bootstrap = terminal.rule.bootstrap;
}

-- `terminal.input_keys[1:]`
abbrev pub later_keys : List String → List String
later_keys [] = []
later_keys (root ∷ keys) = keys

unfoldable pub actions_for_terminal :
    Dict String PredicateHook
    → NodeRegistry
    → TerminalNode
    → Dict String (List PartialMatch)
    → Result (List ActionInstance)
unfolding root_matches apply_predicates action_for
actions_for_terminal predicates r terminal partial_matches =
    apply_predicates predicates r terminal (later_keys terminal.input_keys)
      (root_matches terminal partial_matches)
    >>= λ matches. ok (map (action_for terminal) matches)

unfoldable pub actions_for_terminals :
    Dict String PredicateHook
    → NodeRegistry
    → List TerminalNode
    → Dict String (List PartialMatch)
    → Result (List ActionInstance)
unfolding actions_for_terminal
actions_for_terminals predicates r [] partial_matches = ok []
actions_for_terminals predicates r (terminal ∷ terminals) partial_matches =
    let rest = actions_for_terminals predicates r terminals partial_matches in
    actions_for_terminal predicates r terminal partial_matches >>= λ first.
    rest >>= λ others. ok (first ++ others)

-- `Fact | Triple`
pub data FactOrTriple : Type 0 where
  a_fact : Fact → FactOrTriple
  a_triple : Triple → FactOrTriple

abbrev binding_le : String × Node → String × Node → Bool
binding_le a b = string_le a.0 b.0

module _ (rendering : Rendering) where
  unfoldable pub fact_from_triple : Triple → Fact
  unfolding fact_id_for_triple
  fact_from_triple t = record { id = fact_id_for_triple rendering.n3 t; triple = t; stated = true }

  unfoldable pub normalize : FactOrTriple → Fact
  unfolding fact_from_triple
  normalize (a_fact fact) = fact
  normalize (a_triple triple) = fact_from_triple triple

  -- The names of a dict differ, so `sorted` of its items goes by the name.
  unfoldable pub partial_match_key : PartialMatch → String
  unfolding join sort_by string_le
  partial_match_key match =
      "facts="
      <> join "," (map (λ fact. fact.id) match.facts)
      <> "|bindings="
      <> join ","
          (map (λ item. item.0 <> "=" <> rendering.n3 item.1) (sort_by binding_le match.bindings))
      <> "|depth="
      <> rendering.repr_int match.depth

  -- `match_key in memory`
  unfoldable pub is_stored : PartialMatch → MatchMemory → Bool
  unfolding partial_match_key lookup
  is_stored match memory = is_some (lookup (partial_match_key match) memory)

  unfoldable pub store_match : PartialMatch → MatchMemory → MatchMemory
  unfolding is_stored insert
  store_match match memory =
      if is_stored match memory then memory else insert (partial_match_key match) match memory

  -- The memory afterwards, and the matches that it did not have.
  unfoldable pub store_matches : List PartialMatch → MatchMemory → MatchMemory × List PartialMatch
  unfolding store_match
  store_matches [] memory = (memory, [])
  store_matches (match ∷ matches) memory =
      let (after, new_matches) = store_matches matches (store_match match memory) in
      (after, if is_stored match memory then new_matches else match ∷ new_matches)

  unfoldable pub match_alpha :
      AlphaNode → List Fact → NodeRegistry → Result (NodeRegistry × List PartialMatch)
  unfolding alpha_matches store_matches
  match_alpha node facts r = elim (lookup node.key r.alpha_memory) [
    | none ↦ raise key_error
    | some memory ↦
        let (after, new_matches) =
          store_matches (alpha_matches node.condition.pattern facts) memory in
        ok (record r { alpha_memory = insert node.key after r.alpha_memory }, new_matches)
  ]

  unfoldable pub join_beta :
      BetaNode
      → Dict String (List PartialMatch)
      → NodeRegistry
      → Result (NodeRegistry × List PartialMatch)
  unfolding joined store_matches
  join_beta node partial_matches r = elim (lookup node.key r.beta_memory) [
    | none ↦ raise key_error
    | some memory ↦
        let (after, new_matches) = store_matches (joined node partial_matches r) memory in
        ok (record r { beta_memory = insert node.key after r.beta_memory }, new_matches)
  ]

  -- The loops of `match_terminals` over the alpha nodes and over the beta nodes.
  unfoldable pub match_alphas :
      Dict String AlphaNode
      → List Fact
      → NodeRegistry × Dict String (List PartialMatch)
      → Result (NodeRegistry × Dict String (List PartialMatch))
  unfolding match_alpha
  match_alphas [] facts state = ok state
  match_alphas ((key, node) ∷ nodes) facts (r, partial_matches) =
      match_alpha node facts r >>= λ result.
      match_alphas nodes facts (result.0, insert key result.1 partial_matches)

  unfoldable pub join_betas :
      Dict String BetaNode
      → NodeRegistry × Dict String (List PartialMatch)
      → Result (NodeRegistry × Dict String (List PartialMatch))
  unfolding join_beta
  join_betas [] state = ok state
  join_betas ((key, node) ∷ nodes) (r, partial_matches) =
      join_beta node partial_matches r >>= λ result.
      join_betas nodes (result.0, insert key result.1 partial_matches)

  unfoldable pub match_terminals :
      Dict String PredicateHook
      → List TerminalNode
      → List FactOrTriple
      → NodeRegistry
      → Result (NodeRegistry × List ActionInstance)
  unfolding normalize match_alphas join_betas actions_for_terminals
  match_terminals predicates terminals facts r =
      match_alphas r.alpha_nodes (map normalize facts) (r, []) >>= λ alphas.
      join_betas r.beta_nodes alphas >>= λ betas.
      actions_for_terminals predicates betas.0 terminals betas.1 >>= λ actions.
      ok (betas.0, actions)

  unfoldable pub match_terminal :
      Dict String PredicateHook
      → TerminalNode
      → List FactOrTriple
      → NodeRegistry
      → Result (NodeRegistry × List ActionInstance)
  unfolding normalize match_alphas join_betas actions_for_terminal
  match_terminal predicates terminal facts r =
      match_alphas r.alpha_nodes (map normalize facts) (r, []) >>= λ alphas.
      join_betas r.beta_nodes alphas >>= λ betas.
      actions_for_terminal predicates betas.0 terminal betas.1 >>= λ actions. ok (betas.0, actions)

-- `len(self.registry.alpha_memory[key])`, and for the beta memories
unfoldable pub memory_size : String → Dict String MatchMemory → Result ℕ
unfolding lookup
memory_size key memory = elim (lookup key memory) [
  | none ↦ raise key_error
  | some matches ↦ ok (length matches)
]

unfoldable pub alpha_memory_size : String → NodeRegistry → Result ℕ
unfolding memory_size
alpha_memory_size key r = memory_size key r.alpha_memory

unfoldable pub beta_memory_size : String → NodeRegistry → Result ℕ
unfolding memory_size
beta_memory_size key r = memory_size key r.beta_memory
