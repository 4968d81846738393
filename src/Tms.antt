-- ===== src/Tms.antt =====
-- Truth maintenance: rdflib-reasoning-engine/src/rdflib_reasoning/engine/rete/tms.py.
pub mod Graph
pub mod Memory
pub mod Controller
pub mod Support
pub mod Derivation
pub mod Recording
pub mod RecordDerivation
pub mod Retract
