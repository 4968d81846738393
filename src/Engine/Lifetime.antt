-- ===== src/Engine/Lifetime.antt =====
-- rete_engine.py: the terms of an engine in its life, from its rules and from what it was told.
use rdflib_reasoning.Base.{◌≡◌, refl, subst, ℕ, ◌<◌, some, List, [], ◌++◌, String}
use mathlib.Core.List.Memᴰ
use rdflib_reasoning.Base.Sets.{update}
use rdflib_reasoning.Errors.{
  Result, ok, Ensures, Ensures->>=, Ensures-always, Ensures-weaken, Ensures-and,
}
use rdflib_reasoning.Rdf.{Node, Triple, triple_eq, Rendering}
use rdflib_reasoning.Rules.{Rule}
use rdflib_reasoning.Facts.{PartialMatch}
use rdflib_reasoning.Tms.Controller.{TmsController, clear}
use rdflib_reasoning.Network.Terms.{Over, MatchOver}
use rdflib_reasoning.Network.Preserve.{RegistryOf}
use rdflib_reasoning.Network.Initial.{empty-RegistryOf, build_rules-RegistryOf, evict-RegistryOf}
use rdflib_reasoning.Engine.{ReteEngineConfig, ReteEngine}
use rdflib_reasoning.Engine.Saturation.{
  compile_rules, new_engine, close, retract_each, retract_triples, add_triples, warmup,
}
use rdflib_reasoning.Engine.Invariant.{no_facts, nothing_new}
use rdflib_reasoning.Engine.Retraction.{retract_triples-EngineOf}
use rdflib_reasoning.Engine.Reachable.{
  Reachable, is_new, bootstraps, states, rounds, retracts, closes,
}
use rdflib_reasoning.Engine.Universe.{TerminalsOver, IsOver, iterate-IsOver}
use rdflib_reasoning.Engine.Fixpoint.{Ends, cube}
use rdflib_reasoning.Engine.Terminates.{
  state_fresh-IsOver, bootstrapped, add_triples-Ends, warmup-Ends,
}
use rdflib_reasoning.Engine.Growth.{
  triple_terms, rule_terms, AllTriples-triple_terms, TerminalsOver-rule_terms, AllTriples-grow,
  IsOver-grow,
}

module _ (rendering : Rendering) (config : ReteEngineConfig) where
  -- A new engine is over any terms that its productions are over.
  pub new_engine-TerminalsOver :
      (terms : List Node) (rules : List Rule)
      → Ensures (λ x. TerminalsOver terms x.terminals → IsOver terms x) (new_engine rendering rules)
  unfolding new_engine
  new_engine-TerminalsOver terms rules =
      Ensures->>= (λ _. Unit {0}) (λ x. TerminalsOver terms x.terminals → IsOver terms x)
        (compile_rules rules) _ (Ensures-always _ (compile_rules rules) (λ _. tt))
        (λ compiled _ over. record {
          triples = record {
            memory = no_facts _;
            known = nothing_new _;
            materialized = nothing_new _;
          };
          matches = build_rules-RegistryOf _ rendering compiled _ (empty-RegistryOf _);
          rules = over;
        })

  new_engine-IsOver :
      (rules : List Rule)
      → Ensures (λ x. IsOver (rule_terms x.terminals) x) (new_engine rendering rules)
  unfolding new_engine
  new_engine-IsOver rules =
      Ensures->>= (λ _. Unit {0}) (λ x. IsOver (rule_terms x.terminals) x) (compile_rules rules) _
        (Ensures-always _ (compile_rules rules) (λ _. tt))
        (λ compiled _. record {
          triples = record {
            memory = no_facts _;
            known = nothing_new _;
            materialized = nothing_new _;
          };
          matches = build_rules-RegistryOf _ rendering compiled _ (empty-RegistryOf _);
          rules = TerminalsOver-rule_terms _;
        })

  retract_triples-network :
      (P : PartialMatch → Type 0) (ts : List Triple) (engine : ReteEngine)
      → Ensures
          (λ x.
            (RegistryOf P engine.registry → RegistryOf P x.0.registry)
            × (engine.terminals ≡ x.0.terminals))
          (retract_triples ts engine)
  unfolding retract_triples
  retract_triples-network P ts engine =
      let each : Result (TmsController × (List Triple × List String)) =
        retract_each (update [] ts) (engine.tms, ([], [])) in
      Ensures->>= (λ _. Unit {0}) _ each _ (Ensures-always _ each (λ _. tt))
        (λ x _. ((λ h. evict-RegistryOf P x.1.1 engine.registry h), refl))

  retract_triples-IsOver :
      (terms : List Node) (ts : List Triple) (engine : ReteEngine)
      → IsOver terms engine
      → Ensures (λ x. IsOver terms x.0) (retract_triples ts engine)
  retract_triples-IsOver terms ts engine w =
      Ensures-weaken _ (λ x. IsOver terms x.0) (retract_triples ts engine)
        (λ x h. record {
          triples = h.0;
          matches = h.1.0 w.matches;
          rules = subst (TerminalsOver terms) h.1.1 w.rules;
        })
        (Ensures-and _ _ (retract_triples ts engine)
          (retract_triples-EngineOf (Over terms) ts engine w.triples)
          (retract_triples-network (MatchOver terms) ts engine))

  -- Whatever an engine went through, there are terms that everything in it is made of.
  pub Reachable-IsOver :
      (engine : ReteEngine)
      → Reachable rendering config engine
      → (terms : List Node) × IsOver terms engine
  unfolding close clear
  Reachable-IsOver engine (is_new rules _ e) =
      (rule_terms engine.terminals, subst (Ensures _) e (new_engine-IsOver rules))
  Reachable-IsOver _ (bootstraps engine r) =
      let (terms, w) = Reachable-IsOver engine r in
      (terms, bootstrapped terms rendering config engine w)
  Reachable-IsOver engine (states fresh before _ r good e) =
      let (terms, w) = Reachable-IsOver before r in
      let all : List Node = terms ++ triple_terms fresh in
      (
        all,
        subst (Ensures (IsOver all)) e (
            state_fresh-IsOver all rendering config fresh before
              (AllTriples-grow (triple_terms fresh) all (λ v. Memᴰ.append_right terms) fresh
                (AllTriples-triple_terms fresh))
              (IsOver-grow terms all (λ v. Memᴰ.append_left _) before w)),
      )
  Reachable-IsOver engine (rounds m b before _ round r e) =
      let (terms, w) = Reachable-IsOver before r in
      (terms, (subst (Ensures _) e (iterate-IsOver terms rendering config m b before w)).0)
  Reachable-IsOver engine (retracts ts removed before _ r e) =
      let (terms, w) = Reachable-IsOver before r in
      (terms, subst (Ensures _) e (retract_triples-IsOver terms ts before w))
  Reachable-IsOver _ (closes engine r) =
      let (terms, w) = Reachable-IsOver engine r in
      (
        terms,
        record {
          triples = record {
            memory = no_facts _;
            known = nothing_new _;
            materialized = nothing_new _;
          };
          matches = record { alpha = w.matches.alpha; beta = w.matches.beta };
          rules = w.rules;
        },
      )

  -- In every state that an engine goes through, adding any triples ends: there is an amount of fuel
  -- that is enough.
  pub add_triples_returns :
      (engine : ReteEngine) (ts : List Triple)
      → Reachable rendering config engine
      → (bound : ℕ) × ((fuel : ℕ)
          → bound < fuel
          → (r : Result (ReteEngine × List Triple)) × (add_triples rendering config fuel ts engine
              ≡ some r))
  unfolding Ends
  add_triples_returns engine ts reached =
      let (terms, w) = Reachable-IsOver engine reached in
      let all : List Node = terms ++ triple_terms ts in
      (
        cube all,
        λ fuel enough.
            let (r, ends, right) =
              add_triples-Ends all rendering config fuel ts engine
                (AllTriples-grow (triple_terms ts) all (λ v. Memᴰ.append_right terms) ts
                  (AllTriples-triple_terms ts))
                (IsOver-grow terms all (λ v. Memᴰ.append_left _) engine w) enough in
            (r, ends),
      )

  -- A new engine warms up and adds its first triples on fuel above the cube of the number of terms
  -- in the triples and in its productions.
  pub warmup_returns :
      (rules : List Rule) (engine : ReteEngine) (ts : List Triple) (fuel : ℕ)
      → new_engine rendering rules ≡ ok engine
      → cube (rule_terms engine.terminals ++ triple_terms ts) < fuel
      → (r : Result (ReteEngine × List Triple)) × (warmup rendering config fuel ts engine ≡ some r)
  unfolding Ends
  warmup_returns rules engine ts fuel built enough =
      let terms : List Node = rule_terms engine.terminals in
      let all : List Node = terms ++ triple_terms ts in
      let w : IsOver terms engine = subst (Ensures _) built (new_engine-IsOver rules) in
      let (r, ends, right) =
        warmup-Ends all rendering config fuel ts engine
          (AllTriples-grow (triple_terms ts) all (λ v. Memᴰ.append_right terms) ts
            (AllTriples-triple_terms ts))
          (IsOver-grow terms all (λ v. Memᴰ.append_left _) engine w) enough in
      (r, ends)
