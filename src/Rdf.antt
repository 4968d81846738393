-- ===== src/Rdf.antt =====
-- RDF terms and triples, as the engine tells them apart: the classes of `rdflib.term`, which
-- the code tells apart by `isinstance`, and the alias `Triple` of
-- rdflib-reasoning-axioms/src/rdflib_reasoning/axiom/common.py.
-- rdflib is not part of the repository: a term is a data type with a constructor for each class
-- that the engine names (a Variable is a Node there too), and what rdflib prints is a parameter.
use rdflib_reasoning.Base.{ℕ, String, Option, Eq, Bool, true, false, string_dec}

pub data Node : Type 0 where
  uri_ref : (iri : String) → Node
  b_node : (label : String) → Node
  literal : (lexical : String) → (datatype language : Option String) → Node
  variable : (name : String) → Node

unfoldable pub node_dec : Discrete Node
node_dec = hlevel string_dec

instance abbrev pub node_eq : Eq Node
node_eq = record { dec = node_dec }

pub record Triple : Type 0 where
  pub subject : Node
  pub predicate : Node
  pub object : Node

unfoldable pub triple_dec : Discrete Triple
triple_dec = hlevel node_dec

instance abbrev pub triple_eq : Eq Triple
triple_eq = record { dec = triple_dec }

-- `isinstance(term, Literal)`, `isinstance(term, URIRef)` and `isinstance(term, BNode)`
unfoldable pub is_literal : Node → Bool
is_literal (literal l d t) = true
is_literal _ = false

unfoldable pub is_uri_ref : Node → Bool
is_uri_ref (uri_ref i) = true
is_uri_ref _ = false

unfoldable pub is_b_node : Node → Bool
is_b_node (b_node l) = true
is_b_node _ = false

-- Texts that rdflib and Python make of a term, a number and a text.
pub record Rendering : Type 0 where
  pub n3 : Node → String
  pub repr_int : ℕ → String
  pub repr_str : String → String
