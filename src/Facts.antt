-- ===== src/Facts.antt =====
-- Working-memory facts and partial matches:
-- rdflib-reasoning-engine/src/rdflib_reasoning/engine/rete/facts.py.
use rdflib_reasoning.Base.{ℕ, String, ◌<>◌, Bool, List}
use rdflib_reasoning.Base.Dict.{Dict}
use rdflib_reasoning.Rdf.{Node, Triple}

unfoldable pub fact_id_for_triple : (Node → String) → Triple → String
fact_id_for_triple n3 t = "fact:" <> n3 t.subject <> " " <> n3 t.predicate <> " " <> n3 t.object

pub record Fact : Type 0 where
  pub id : String
  pub triple : Triple
  pub stated : Bool

pub record PartialMatch : Type 0 where
  pub facts : List Fact
  pub bindings : Dict String Node
  pub depth : ℕ
