-- ===== src/Tests/Loop.antt =====
-- rete_engine.py: an engine with one rule, and how much fuel its loop needs.
use rdflib_reasoning.Base.{◌≡◌, refl, true, false, ℕ, ◌<◌, none, some, List, [], ◌∷◌, ◌++◌, arith}
use rdflib_reasoning.Base.Int.{pos}
use rdflib_reasoning.Errors.{Result, ok, raise, is_ok}
use rdflib_reasoning.Rdf.{uri_ref, Triple}
use rdflib_reasoning.Rules.{triple_condition, triple_consequent, Rule}
use rdflib_reasoning.Compiler.{productions_of, compile_rule}
use rdflib_reasoning.Network.{add_terminal}
use rdflib_reasoning.Network.Builder.{build_rules, build_rule}
use rdflib_reasoning.Engine.{ReteEngine}
use rdflib_reasoning.Engine.Saturation.{compile_rules, new_engine, add_triples, warmup}
use rdflib_reasoning.Engine.Fixpoint.{cube}
use rdflib_reasoning.Engine.Growth.{triple_terms, rule_terms}
use rdflib_reasoning.Engine.Reachable.{is_new}
use rdflib_reasoning.Engine.Lifetime.{add_triples_returns, warmup_returns}
use rdflib_reasoning.Tests.Tms.{typed}
use rdflib_reasoning.Tests.Network.{of_class, plain}
use rdflib_reasoning.Tests.Engine.{config, fresh_engine}

-- What is an "a" is a "b".
abbrev pub a_is_b : List Rule
a_is_b =
    record {
      id = record { rule_set = "test"; rule_id = "a-b" };
      description = none;
      body = triple_condition (of_class (uri_ref "a")) ∷ [];
      head = triple_consequent (of_class (uri_ref "b")) ∷ [];
      salience = pos 0;
      silent = false;
    }
    ∷ []

abbrev value_or : Result ReteEngine → ReteEngine
value_or (ok engine) = engine
value_or (raise e) = fresh_engine

abbrev pub engine : ReteEngine
engine = value_or (new_engine plain a_is_b)

ok_value : (r : Result ReteEngine) → is_ok r ≡ true → r ≡ ok (value_or r)
ok_value (ok x) h = refl
ok_value (raise e) h = cc h

pub starts : new_engine plain a_is_b ≡ ok engine
unfolding new_engine compile_rules compile_rule
starts = ok_value (new_engine plain a_is_b) refl

enough : cube (rule_terms engine.terminals ++ triple_terms (typed "x" "a" ∷ [])) < 217
unfolding cube rule_terms triple_terms new_engine compile_rules compile_rule productions_of
    build_rules build_rule add_terminal
enough = omega arith

warmup_returns_example :
    (r : Result (ReteEngine × List Triple)) × (warmup plain config 217 (typed "x" "a" ∷ []) engine
      ≡ some r)
warmup_returns_example =
    warmup_returns plain config a_is_b engine (typed "x" "a" ∷ []) 217 starts enough

add_triples_returns_example :
    (bound : ℕ) × ((fuel : ℕ)
      → bound < fuel
      → (r : Result (ReteEngine × List Triple)) × (add_triples plain config fuel
            (typed "x" "a" ∷ [])
            engine
          ≡ some r))
add_triples_returns_example =
    add_triples_returns plain config engine (typed "x" "a" ∷ []) (is_new a_is_b engine starts)
