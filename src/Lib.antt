-- ===== src/Lib.antt =====
-- rdflib-reasoning: the RETE reasoning engine of the repository, from the rules that a user writes
-- to the truth maintenance that keeps its conclusions.
--
-- Parts, and how they interact. A rule (rdflib-reasoning-engine/src/rdflib_reasoning/engine/rules.py)
-- is compiled (rete/compiler.py), its conditions are built into a shared network, and the facts of
-- working memory are matched against it (rete/network.py). Each completed match is an action, the
-- agenda (rete/agenda.py) puts the actions in order, and the engine (rete_engine.py) runs them: it
-- instantiates their productions, records each derivation with the truth maintenance system
-- (rete/tms.py, rete/facts.py), and goes on until a round finds no new triple. A retraction goes to
-- the truth maintenance system first, then the matches of the removed facts are evicted from the
-- network. Paths below are relative to rdflib-reasoning-engine/src/rdflib_reasoning/engine.
--
-- Files. Base and its children are the shared helpers: equality, lists, dicts as association lists
-- that keep the order of insertion, sets as lists without repetitions, stable sorting, integers.
-- Errors has the exceptions and the results (errors.py, rete_errors.py). Rdf has the terms.
--   Facts          rete/facts.py
--   Tms            rete/tms.py: Graph is DependencyGraph, Memory is WorkingMemory, Controller is
--                  TMSController without retraction, Retract is retract_triple and
--                  _mark_verify_sweep; their children and Support, Derivation, Recording and
--                  RecordDerivation are proofs
--   Rules          rules.py
--   Rulesets       rulesets: the profiles as data; Safe, Named and Profiles are proofs
--   Consequents    rete/consequents.py
--   Agenda         rete/agenda.py; Order is about the order in which it drains
--   Compiler       rete/compiler.py; Bindings is about predicate conditions, Joins about the optimizer
--   Network        rete/network.py: the registry; Builder is NetworkBuilder, Matching and Matcher are
--                  NetworkMatcher; Alpha, Join, Store, Stored, Memories, Preserve, Initial, Terms,
--                  Evict and Firing are proofs
--   Engine         rete_engine.py: terms, policies and state, with the records of proof.py and the
--                  sinks of derivation.py; Round is one pass of the loop in
--                  _saturate_from_working_memory, Saturation has the loop and the public operations;
--                  its other children are proofs: Known, Actions and Invariant are about what a
--                  round lets in, Universe, Growth and Finite about the triples over the terms of
--                  an engine, Fixpoint, Terminates and Lifetime about the fuel of the loop, Reachable
--                  about the steps of an engine and Life about its calls
--   Proof          proof.py: proofs and their steps; Reconstruct is DerivationProofReconstructor of
--                  derivation.py; Steps, Valid and Verdicts are proofs
--   Store          rete_store.py, batch_dispatcher.py and rete_factory.py: additions, from an event to
--                  the engine of its graph and back; Removal has the removals; Universe, Events,
--                  Handler, Converges, Deferred and Reconciled are proofs
--   Builtins       builtins.py: the default predicates
--   Datatypes      owl2_rl_datatypes.py: numeric values; Facets and Words are proofs
--   Tests          runs on small inputs, and each theorem at one of them
-- An operation takes the state it changes and returns it in a Result, whose other case is the
-- exception that the source raises. What a call that raises leaves behind is not modelled.
--
-- Parameters. rdflib and Python print terms, numbers and texts: Rdf.Rendering has these functions,
-- and no theorem assumes anything of them but what it states. Predicate and callback hooks are
-- functions from arguments to a result. The backing store is rdflib's: Store.BackingStore has what
-- the code calls of it, and Store.BackingStoreLaws what rdflib documents of these calls.
--
-- Fuel. The verify loop of _mark_verify_sweep runs one pass more than there are candidates: each
-- pass but the last keeps one more of them. The walks over the dependency graph get twice the
-- number of edges and one more, since a fact's edges are pushed once and the seed's own again.
-- transitively_supported_id gets one unit more than there are facts, since no fact comes twice on
-- a path. Draining an agenda runs on the number of its entries, of which each step takes one.
-- Saturation runs on fuel that the caller gives, and none stands for out of fuel; its rounds
-- (Engine.Round.iterate) need no fuel. Each round but the last finds a new triple over the terms of
-- the productions and of the stated triples, so the cube of their number bounds the rounds. Proof
-- reconstruction gets one unit more than the trace has conclusions: a path does not repeat a goal.
-- The dispatcher's loop has fuel of its own: each batch but the last leaves the graph with a triple
-- over the terms that it lacked.
--
-- Not modelled: log and diagnostic texts, warnings (a skipped triple is skipped),
-- pydantic's validation but for the premises of a contradiction record and the fields of a proof
-- step, the element of a structural claim, the rendering of proofs, the operations of the store
-- that only pass on to the backing store, subscribers of the dispatcher other than the store, the
-- OWL 2 RL datatypes of texts, binaries and dates, signaling NaNs (on which some of the numeric
-- tests raise), and the packages beside the engine.
pub mod Agenda
pub mod Base
pub mod Builtins
pub mod Compiler
pub mod Consequents
pub mod Datatypes
pub mod Engine
pub mod Errors
pub mod Facts
pub mod Network
pub mod Proof
pub mod Rdf
pub mod Rules
pub mod Rulesets
pub mod Store
pub mod Tests
pub mod Tms
