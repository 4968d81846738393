-- ===== src/Tests.antt =====
-- Runs of the code on small inputs, and the theorems at them.
pub mod Tms
mod Retraction
pub mod Network
mod Memories
mod Rules
mod Builtins
pub mod Engine
pub mod Loop
pub mod Store
mod Removal
mod Proof
mod Rulesets
mod Datatypes
mod Cycle
