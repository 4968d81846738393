-- ===== src/Engine/Growth.antt =====
-- rete_engine.py: the terms of rules and of triples, and an engine over more terms.
use rdflib_reasoning.Base.{refl, List, [], ◌∷◌, Memᴰ}
use rdflib_reasoning.Base.Flat.{flat_map, mem-flat_map}
use rdflib_reasoning.Rdf.{Node, variable, uri_ref, b_node, literal, Triple, triple_eq}
use rdflib_reasoning.Consequents.{TripleProduction}
use rdflib_reasoning.Network.{TerminalNode}
use rdflib_reasoning.Network.Terms.{Over, BindsIn}
use rdflib_reasoning.Network.Preserve.{AllStored}
use rdflib_reasoning.Engine.{ReteEngine}
use rdflib_reasoning.Engine.Known.{AllTriples, MemoryOf}
use rdflib_reasoning.Engine.Universe.{ConstantIn, PatternOver, TerminalsOver, IsOver}

-- The terms of some triples, and of the productions of some rules.
abbrev terms_of : Triple → List Node
terms_of t = t.subject ∷ t.predicate ∷ t.object ∷ []

unfoldable pub triple_terms : List Triple → List Node
triple_terms ts = flat_map terms_of ts

abbrev production_terms : TripleProduction → List Node
production_terms p = p.pattern.subject ∷ p.pattern.predicate ∷ p.pattern.object ∷ []

abbrev terminal_terms : TerminalNode → List Node
terminal_terms terminal = flat_map production_terms terminal.rule.productions

unfoldable pub rule_terms : List TerminalNode → List Node
rule_terms terminals = flat_map terminal_terms terminals

pub AllTriples-triple_terms : (ts : List Triple) → AllTriples (Over (triple_terms ts)) ts
unfolding AllTriples Over triple_terms
AllTriples-triple_terms ts t there = (
  mem-flat_map terms_of ts there (Memᴰ.head refl),
  mem-flat_map terms_of ts there (Memᴰ.tail (Memᴰ.head refl)),
  mem-flat_map terms_of ts there (Memᴰ.tail (Memᴰ.tail (Memᴰ.head refl))),
)

ConstantIn-mem : (terms : List Node) (term : Node) → Memᴰ term terms → ConstantIn terms term
unfolding ConstantIn
ConstantIn-mem terms (variable x) there = tt
ConstantIn-mem terms (uri_ref i) there = there
ConstantIn-mem terms (b_node l) there = there
ConstantIn-mem terms (literal l d t) there = there

pub TerminalsOver-rule_terms :
    (terminals : List TerminalNode) → TerminalsOver (rule_terms terminals) terminals
unfolding TerminalsOver PatternOver rule_terms
TerminalsOver-rule_terms terminals terminal production there inside =
    let found : (v : Node)
        → Memᴰ v (production_terms production)
        → ConstantIn (flat_map terminal_terms terminals) v =
      λ v here. ConstantIn-mem _ v (
        mem-flat_map terminal_terms terminals there
          (mem-flat_map production_terms terminal.rule.productions inside here)) in
    (
      found _ (Memᴰ.head refl),
      found _ (Memᴰ.tail (Memᴰ.head refl)),
      found _ (Memᴰ.tail (Memᴰ.tail (Memᴰ.head refl))),
    )

-- More terms.
module _ (small large : List Node) (sub : (v : Node) → Memᴰ v small → Memᴰ v large) where
  pub AllTriples-grow : (ts : List Triple) → AllTriples (Over small) ts → AllTriples (Over large) ts
  unfolding AllTriples Over
  AllTriples-grow ts h t there =
      let (s, p, o) = h t there in (sub t.subject s, sub t.predicate p, sub t.object o)

  ConstantIn-grow : (term : Node) → ConstantIn small term → ConstantIn large term
  unfolding ConstantIn
  ConstantIn-grow (variable x) c = tt
  ConstantIn-grow (uri_ref i) c = sub (uri_ref i) c
  ConstantIn-grow (b_node l) c = sub (b_node l) c
  ConstantIn-grow (literal l d t) c = sub (literal l d t) c

  pub TerminalsOver-grow :
      (terminals : List TerminalNode)
      → TerminalsOver small terminals
      → TerminalsOver large terminals
  unfolding TerminalsOver PatternOver
  TerminalsOver-grow terminals h terminal production there inside =
      let (s, p, o) = h terminal production there inside in
      (ConstantIn-grow _ s, ConstantIn-grow _ p, ConstantIn-grow _ o)

  pub IsOver-grow : (engine : ReteEngine) → IsOver small engine → IsOver large engine
  unfolding AllStored MemoryOf BindsIn Over
  IsOver-grow engine w = record {
    triples = record {
      memory = λ f there. let (s, p, o) = w.triples.memory f there in (sub _ s, sub _ p, sub _ o);
      known = AllTriples-grow engine.known_triples w.triples.known;
      materialized = AllTriples-grow engine.materialized_triples w.triples.materialized;
    };
    matches = record {
      alpha =
          λ memory there m inside v bound. sub v (w.matches.alpha memory there m inside v bound);
      beta = λ memory there m inside v bound. sub v (w.matches.beta memory there m inside v bound);
    };
    rules = TerminalsOver-grow engine.terminals w.rules;
  }
