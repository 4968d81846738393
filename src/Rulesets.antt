-- ===== src/Rulesets.antt =====
-- The named rule profiles: rdflib-reasoning-engine/src/rdflib_reasoning/engine/rulesets.
pub mod Vocabulary
pub mod RdfAxioms
pub mod RdfsAxioms
pub mod Rdfs
pub mod OwlRl
pub mod Safe
pub mod Named
pub mod Profiles
use rdflib_reasoning.Rdf.{Node}
use rdflib_reasoning.Rules.{TriplePattern}

-- `TriplePattern(subject=..., predicate=..., object=...)`
abbrev pub pattern : Node → Node → Node → TriplePattern
pattern s p o = record { subject = s; predicate = p; object = o }
