-- ===== src/Network/Firing.antt =====
-- network.py: rules whose body has predicate conditions only.
use rdflib_reasoning.Base.{
  String, string_eq, ◌≡◌, refl, sym, subst, ap, ◌∙◌, false, none, some, contains, Option, List, [],
  ◌∷◌, inl, inr, Option-cases, arith, map,
}
use rdflib_reasoning.Base.Dict.{Dict, lookup, insert, keys, get_or, lookup-insert, lookup-nil}
use rdflib_reasoning.Errors.{ok, raise, key_error, ◌>>=◌, Ensures, Ensures->>=, Ensures-always}
use rdflib_reasoning.Facts.{Fact, PartialMatch}
use rdflib_reasoning.Consequents.{ActionInstance}
use rdflib_reasoning.Network.{
  AlphaNode, BetaNode, PredicateNode, TerminalNode, NodeRegistry, get_or_create_predicate,
  add_terminal,
}
use rdflib_reasoning.Rdf.{Rendering}
use rdflib_reasoning.Compiler.{CompiledPredicateCondition, CompiledRule}
use rdflib_reasoning.Network.Builder.{
  build_rule, build_join_chain, join_conditions, build_predicates, predicate_key,
}
use rdflib_reasoning.Network.Matcher.{
  PredicateHook, root_matches, apply_hook, apply_predicate, apply_predicates, actions_for_terminal,
  later_keys, action_for, FactOrTriple, normalize, match_alpha, join_beta, match_alphas, join_betas,
  match_terminal,
}

apply_predicate-nil :
    (predicates : Dict String PredicateHook) (node : PredicateNode) (terminal : TerminalNode)
    → Ensures (λ ms. ms ≡ []) (apply_predicate predicates node [] terminal)
unfolding apply_predicate apply_hook
apply_predicate-nil predicates node terminal =
    elim (Option-cases (lookup node.condition.predicate predicates)) [
      | inl e ↦
          let fails : apply_predicate predicates node [] terminal ≡ raise key_error =
            ground (arith, e) in
          subst (Ensures (λ ms. ms ≡ [])) (sym fails) tt
      | inr (hook, e) ↦
          let runs : apply_predicate predicates node [] terminal ≡ ok [] = ground (arith, e) in
          subst (Ensures (λ ms. ms ≡ [])) (sym runs) refl
    ]

apply_predicates-nil :
    (predicates : Dict String PredicateHook) (r : NodeRegistry) (terminal : TerminalNode)
    (keys : List String)
    → Ensures (λ ms. ms ≡ []) (apply_predicates predicates r terminal keys [])
unfolding apply_predicates
apply_predicates-nil predicates r terminal [] = refl
apply_predicates-nil predicates r terminal (key ∷ keys) =
    elim (Option-cases (lookup key r.predicate_nodes)) [
      | inl e ↦
          let fails : apply_predicates predicates r terminal (key ∷ keys) [] ≡ raise key_error =
            ground (arith, e) in
          subst (Ensures (λ ms. ms ≡ [])) (sym fails) tt
      | inr (node, e) ↦
          let runs : apply_predicates predicates r terminal (key ∷ keys) [] ≡ (
              apply_predicate predicates node [] terminal
              >>= apply_predicates predicates r terminal keys) =
            ground (arith, e) in
          subst (Ensures (λ ms. ms ≡ [])) (sym runs) (
            Ensures->>= (λ ms. ms ≡ []) (λ ms. ms ≡ [])
              (apply_predicate predicates node [] terminal) _
              (apply_predicate-nil predicates node terminal)
              (λ ms none_left.
                subst (λ x. Ensures (λ ms. ms ≡ []) (apply_predicates predicates r terminal keys x))
                  (sym none_left) (apply_predicates-nil predicates r terminal keys)))
    ]

-- A terminal whose first input key is not among the matched keys schedules no action.
actions_for_terminal-nil :
    (predicates : Dict String PredicateHook) (r : NodeRegistry) (terminal : TerminalNode)
    (partial : Dict String (List PartialMatch)) (root : String) (keys : List String)
    → terminal.input_keys ≡ root ∷ keys
    → lookup root partial ≡ none
    → Ensures (λ actions. actions ≡ []) (actions_for_terminal predicates r terminal partial)
unfolding actions_for_terminal root_matches
actions_for_terminal-nil predicates r terminal partial root keys first absent =
    let no_matches : root_matches terminal partial ≡ [] = ground (arith, first, absent) in
    let later : List String = later_keys terminal.input_keys in
    Ensures->>= {B = List ActionInstance} (λ ms. ms ≡ []) (λ actions. actions ≡ [])
      (apply_predicates predicates r terminal later (root_matches terminal partial))
      (λ ms. ok (map (action_for terminal) ms))
      (subst (λ x. Ensures (λ ms. ms ≡ []) (apply_predicates predicates r terminal later x))
        (sym no_matches) (apply_predicates-nil predicates r terminal later))
      (λ ms none_left. ap (map (action_for terminal)) none_left)

-- The matching pass leaves a key without matches that is of no node that it visits.
module _ (rendering : Rendering) (root : String) where
  abbrev IsUnmatched : NodeRegistry × Dict String (List PartialMatch) → Type 0
  IsUnmatched state = lookup root state.1 ≡ none

  match_alphas-IsUnmatched :
      (nodes : Dict String AlphaNode) (facts : List Fact) (r : NodeRegistry)
      (partial : Dict String (List PartialMatch))
      → contains (keys nodes) root ≡ false
      → lookup root partial ≡ none
      → Ensures IsUnmatched (match_alphas rendering nodes facts (r, partial))
  unfolding match_alphas keys
  match_alphas-IsUnmatched [] facts r partial other absent = absent
  match_alphas-IsUnmatched ((key, node) ∷ nodes) facts r partial other absent =
      Ensures->>= (λ _. Unit {0}) IsUnmatched (match_alpha rendering node facts r) _
        (Ensures-always _ (match_alpha rendering node facts r) (λ _. tt))
        (λ result _.
          match_alphas-IsUnmatched nodes facts result.0 (insert key result.1 partial)
            (ground (arith, other))
            (ground (arith, other, absent, lookup-insert root key result.1 partial)))

  join_betas-IsUnmatched :
      (nodes : Dict String BetaNode) (r : NodeRegistry) (partial : Dict String (List PartialMatch))
      → contains (keys nodes) root ≡ false
      → lookup root partial ≡ none
      → Ensures IsUnmatched (join_betas rendering nodes (r, partial))
  unfolding join_betas keys
  join_betas-IsUnmatched [] r partial other absent = absent
  join_betas-IsUnmatched ((key, node) ∷ nodes) r partial other absent =
      Ensures->>= (λ _. Unit {0}) IsUnmatched (join_beta rendering node partial r) _
        (Ensures-always _ (join_beta rendering node partial r) (λ _. tt))
        (λ result _.
          join_betas-IsUnmatched nodes result.0 (insert key result.1 partial)
            (ground (arith, other))
            (ground (arith, other, absent, lookup-insert root key result.1 partial)))

  match_terminal-nil :
      (predicates : Dict String PredicateHook) (r : NodeRegistry) (terminal : TerminalNode)
      (later : List String) (facts : List FactOrTriple)
      → terminal.input_keys ≡ root ∷ later
      → contains (keys r.alpha_nodes) root ≡ false
      → contains (keys r.beta_nodes) root ≡ false
      → Ensures (λ x. x.1 ≡ []) (match_terminal rendering predicates terminal facts r)
  unfolding match_terminal
  match_terminal-nil predicates r terminal later facts first no_alpha no_beta =
      Ensures->>= IsUnmatched (λ x. x.1 ≡ [])
        (match_alphas rendering r.alpha_nodes (map (normalize rendering) facts) (r, [])) _
        (match_alphas-IsUnmatched r.alpha_nodes (map (normalize rendering) facts) r [] no_alpha
          (lookup-nil root))
        (λ alphas absent.
          Ensures->>= IsUnmatched (λ x. x.1 ≡ []) (join_betas rendering r.beta_nodes alphas) _
            (join_betas-IsUnmatched r.beta_nodes alphas.0 alphas.1 no_beta absent)
            (λ betas still_absent.
              Ensures->>= (λ actions. actions ≡ []) (λ x. x.1 ≡ [])
                (actions_for_terminal predicates betas.0 terminal betas.1)
                (λ actions. ok (betas.0, actions))
                (actions_for_terminal-nil predicates betas.0 terminal betas.1 root later first
                  still_absent)
                (λ actions none_left. none_left)))

build_predicates-nodes :
    (rendering : Rendering) (conditions : List CompiledPredicateCondition) (r : NodeRegistry)
    → ((build_predicates rendering conditions r).0.alpha_nodes ≡ r.alpha_nodes)
      × ((build_predicates rendering conditions r).0.beta_nodes ≡ r.beta_nodes)
unfolding build_predicates get_or_create_predicate
build_predicates-nodes rendering [] r = (refl, refl)
build_predicates-nodes rendering (condition ∷ conditions) r =
    build_predicates-nodes rendering conditions _

own_key :
    (fresh : PredicateNode) (found : Option PredicateNode)
    → ((node : PredicateNode) → found ≡ some node → node.key ≡ fresh.key)
    → (get_or found fresh).key ≡ fresh.key
own_key fresh none keyed = refl
own_key fresh (some node) keyed = keyed node refl

module _ (rendering : Rendering) (rule : CompiledRule) (condition : CompiledPredicateCondition)
    (conditions : List CompiledPredicateCondition) (r : NodeRegistry)
    (no_triples : rule.triple_conditions ≡ [])
    (some_tests : rule.predicate_conditions ≡ condition ∷ conditions) where
  no_chain : build_join_chain rendering rule r ≡ (r, (none, []))
  unfolding build_join_chain join_conditions
  no_chain = rw no_triples refl

  own_node : PredicateNode
  own_node = record {
    key = predicate_key rendering condition;
    condition = condition;
    required_variables = condition.required_variables;
  }

  later_of : List String
  later_of = (build_predicates rendering conditions (get_or_create_predicate own_node r).0).1

  -- The input keys of a terminal after a join chain.
  keys_from : NodeRegistry × (Option String × List String) → List String
  keys_from state =
      let predicate_keys = (build_predicates rendering rule.predicate_conditions state.0).1 in
      elim state.1.0 [ none ↦ predicate_keys | some root ↦ root ∷ predicate_keys ]

  first_key :
      ((node : PredicateNode)
        → lookup (predicate_key rendering condition) r.predicate_nodes ≡ some node
        → node.key ≡ predicate_key rendering condition)
      → (build_rule rendering rule r).1.input_keys ≡ predicate_key rendering condition ∷ later_of
  unfolding build_rule build_predicates get_or_create_predicate add_terminal later_of keys_from
      own_node
  first_key keyed =
      ap keys_from no_chain
      ∙ ap (λ cs. (build_predicates rendering cs r).1) some_tests
      ∙ ap (λ key. key ∷ later_of)
          (own_key own_node (lookup (predicate_key rendering condition) r.predicate_nodes) keyed)

  same_nodes :
      ((build_rule rendering rule r).0.alpha_nodes ≡ r.alpha_nodes)
      × ((build_rule rendering rule r).0.beta_nodes ≡ r.beta_nodes)
  unfolding build_rule add_terminal
  same_nodes = rw no_chain (build_predicates-nodes rendering rule.predicate_conditions r)

-- A rule that has predicate conditions and no triple conditions never fires, in a network where each
-- predicate node is under its own key and no alpha or beta node has the key of its first condition:
-- once it is built, the matching pass for its terminal schedules no action or raises, whatever the
-- facts are and its predicates would answer.
pub build_rule-never_fires :
    (rendering : Rendering) (predicates : Dict String PredicateHook) (rule : CompiledRule)
    (condition : CompiledPredicateCondition) (conditions : List CompiledPredicateCondition)
    (r : NodeRegistry) (facts : List FactOrTriple)
    → rule.triple_conditions ≡ []
    → rule.predicate_conditions ≡ condition ∷ conditions
    → ((node : PredicateNode)
        → lookup (predicate_key rendering condition) r.predicate_nodes ≡ some node
        → node.key ≡ predicate_key rendering condition)
    → contains (keys r.alpha_nodes) (predicate_key rendering condition) ≡ false
    → contains (keys r.beta_nodes) (predicate_key rendering condition) ≡ false
    → Ensures
        (λ x. x.1 ≡ [])
        (match_terminal rendering predicates
          (build_rule rendering rule r).1
          facts
          (build_rule rendering rule r).0)
build_rule-never_fires rendering predicates rule condition conditions r facts no_triples some_tests
      keyed no_alpha no_beta =
    let root : String = predicate_key rendering condition in
    let built : NodeRegistry × TerminalNode = build_rule rendering rule r in
    let (same_alpha, same_beta) =
      same_nodes rendering rule condition conditions r no_triples some_tests in
    match_terminal-nil rendering root predicates built.0 built.1
      (later_of rendering rule condition conditions r no_triples some_tests) facts
      (first_key rendering rule condition conditions r no_triples some_tests keyed)
      (ap (λ nodes. contains (keys nodes) root) same_alpha ∙ no_alpha)
      (ap (λ nodes. contains (keys nodes) root) same_beta ∙ no_beta)
