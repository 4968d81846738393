-- ===== src/Engine/Universe.antt =====
-- rete_engine.py: the terms that the facts, the bindings and the productions of an engine are made
-- of, and the triples over them.
use rdflib_reasoning.Base.{
  String, string_eq, ◌≡◌, refl, sym, subst, Bool, true, List, [], ◌∷◌, Memᴰ, map,
}
use rdflib_reasoning.Base.Dict.{Dict, values, lookup, mem-values_of_lookup}
use rdflib_reasoning.Base.Sets.{update}
use rdflib_reasoning.Errors.{Ensures, Ensures->>=, Ensures-always, Ensures-option, Ensures-weaken}
use rdflib_reasoning.Rdf.{Node, variable, uri_ref, b_node, literal, triple_eq, Rendering}
use rdflib_reasoning.Rules.{TriplePattern}
use rdflib_reasoning.Facts.{Fact, PartialMatch}
use rdflib_reasoning.Consequents.{TripleProduction, ActionInstance}
use rdflib_reasoning.Network.{TerminalNode}
use rdflib_reasoning.Network.Matcher.{a_fact, normalize, action_for}
use rdflib_reasoning.Network.Matching.{alpha_matches}
use rdflib_reasoning.Network.Terms.{
  Over, BindsIn, MatchOver, nil-BindsIn, alpha_matches-MatchOver, join_pair-MatchOver,
}
use rdflib_reasoning.Network.Preserve.{RegistryOf, ComesFrom, match_terminals-keeps}
use rdflib_reasoning.Engine.{
  ReteEngineConfig, ReteEngine, resolve_term, instantiate_triple, triple_is_permitted,
}
use rdflib_reasoning.Engine.Round.{iterate}
use rdflib_reasoning.Engine.Known.{unpack}
use rdflib_reasoning.Engine.Invariant.{EngineOf, round_matches, iterate-EngineOf}
use rdflib_reasoning.Engine.Actions.{RoundOf, LetsIn}

-- A term of a pattern that is no variable stands in the list.
unfoldable pub ConstantIn : List Node → Node → Type 0
ConstantIn terms (variable name) = Unit
ConstantIn terms term = Memᴰ term terms

unfoldable pub PatternOver : List Node → TriplePattern → Type 0
PatternOver terms p =
    ConstantIn terms p.subject × ConstantIn terms p.predicate × ConstantIn terms p.object

unfoldable pub TerminalsOver : List Node → List TerminalNode → Type 0
TerminalsOver terms terminals =
    (terminal : TerminalNode) (production : TripleProduction)
    → Memᴰ terminal terminals
    → Memᴰ production terminal.rule.productions
    → PatternOver terms production.pattern

-- Everything in an engine is made of some terms: its triples, the bindings of its matches, and
-- the constants in the productions of its rules.
pub record IsOver (terms : List Node) (engine : ReteEngine) : Type 0 where
  pub triples : EngineOf (Over terms) engine
  pub matches : RegistryOf (MatchOver terms) engine.registry
  pub rules : TerminalsOver terms engine.terminals

module _ (terms : List Node) where
  constant_in :
      (term : Node) (bindings : Dict String Node)
      → BindsIn terms bindings
      → ConstantIn terms term
      → Ensures (λ v. Memᴰ v terms) (resolve_term term bindings)
  unfolding resolve_term ConstantIn BindsIn
  constant_in (variable name) bindings h c =
      Ensures-option (λ v. Memᴰ v terms) (lookup name bindings) _ _ tt
        (λ v e. h v (mem-values_of_lookup name bindings e))
  constant_in (uri_ref i) bindings h c = c
  constant_in (b_node l) bindings h c = c
  constant_in (literal l d t) bindings h c = c

  instantiate_triple-Over :
      (p : TriplePattern) (bindings : Dict String Node)
      → BindsIn terms bindings
      → PatternOver terms p
      → Ensures (Over terms) (instantiate_triple p bindings)
  unfolding instantiate_triple PatternOver Over
  instantiate_triple-Over p bindings h (s, q, o) =
      Ensures->>= (λ v. Memᴰ v terms) (Over terms) (resolve_term p.subject bindings) _
        (constant_in p.subject bindings h s)
        (λ subject in_s.
          Ensures->>= (λ v. Memᴰ v terms) (Over terms) (resolve_term p.predicate bindings) _
            (constant_in p.predicate bindings h q)
            (λ predicate in_q.
              Ensures->>= (λ v. Memᴰ v terms) (Over terms) (resolve_term p.object bindings) _
                (constant_in p.object bindings h o) (λ object in_o. (in_s, in_q, in_o))))

  ComesFrom-LetsIn :
      (config : ReteEngineConfig) (terminals : List TerminalNode) (a : ActionInstance)
      → TerminalsOver terms terminals
      → ComesFrom (MatchOver terms) terminals a
      → LetsIn (Over terms) config a
  unfolding LetsIn TerminalsOver action_for
  ComesFrom-LetsIn config terminals a over from =
      subst
        (λ c.
          (production : TripleProduction)
          → Memᴰ production c.productions
          → Ensures
              (λ t.
                Ensures (λ b. b ≡ true → Over terms t)
                  (triple_is_permitted config.literal_subject_policy config.predicate_term_policy
                    t))
              (instantiate_triple production.pattern c.bindings))
        (sym from.same)
        (λ production there.
          Ensures-weaken (Over terms) _ (instantiate_triple production.pattern from.match.bindings)
            (λ t in_terms.
              Ensures-always _
                (triple_is_permitted config.literal_subject_policy config.predicate_term_policy t)
                (λ _ _. in_terms))
            (instantiate_triple-Over production.pattern from.match.bindings from.holds
              (over from.terminal production from.there there)))

  normalized :
      (rendering : Rendering) (facts : List Fact)
      → map (normalize rendering) (map a_fact facts) ≡ facts
  unfolding normalize
  normalized rendering [] = refl
  normalized rendering (f ∷ facts) = rw (normalized rendering facts) refl

  -- A round keeps an engine over its terms, and what it finds is over them and was not known.
  pub iterate-IsOver :
      (rendering : Rendering) (config : ReteEngineConfig) (materialize bootstrap_phase : Bool)
      (engine : ReteEngine)
      → IsOver terms engine
      → Ensures
          (λ x.
            IsOver terms x.0
            × RoundOf (Over terms) engine.known_triples x.1
            × (x.0.known_triples ≡ update engine.known_triples x.1.iteration_new))
          (iterate rendering config materialize bootstrap_phase engine)
  iterate-IsOver rendering config m b engine w =
      let facts : List Fact = values engine.tms.working_memory.facts_by_id in
      Ensures-weaken _ _ (iterate rendering config m b engine)
        (λ x (triples, round, matches, known, same). (
          record {
            triples = triples;
            matches = matches;
            rules = subst (TerminalsOver terms) (sym same) w.rules;
          },
          round,
          known,
        ))
        (iterate-EngineOf (Over terms) (RegistryOf (MatchOver terms)) rendering config m b engine
          (Ensures-weaken _ _ (round_matches rendering config engine)
            (λ x (registry, from). (
              registry,
              λ a there. ComesFrom-LetsIn config engine.terminals a w.rules (from a there),
            ))
            (match_terminals-keeps (MatchOver terms) rendering (join_pair-MatchOver terms)
              config.predicates engine.terminals (map a_fact facts) engine.registry
              (subst
                (λ fs.
                  (p : TriplePattern) (n : PartialMatch)
                  → Memᴰ n (alpha_matches p fs)
                  → MatchOver terms n)
                (sym (normalized rendering facts))
                (alpha_matches-MatchOver terms facts (λ f there.
                  unpack (Over terms) engine.tms.working_memory w.triples.memory f there)))
              (nil-BindsIn terms) w.matches))
          w.triples)
