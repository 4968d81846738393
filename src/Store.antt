-- ===== src/Store.antt =====
-- The store that runs an engine for each graph behind its additions:
-- rdflib-reasoning-engine/src/rdflib_reasoning/engine/rete_store.py, batch_dispatcher.py and
-- rete_factory.py. The backing store is rdflib's, and stands as an interface. The dispatcher's one
-- subscriber is the store itself, and a graph is known by its identifier.
pub mod Universe
pub mod Events
pub mod Handler
pub mod Converges
pub mod Removal
pub mod Deferred
pub mod Reconciled
use rdflib_reasoning.Base.{
  ℕ, zero, suc, String, string_eq, Bool, true, false, not, ◌||◌, ◌&&◌, ◌==◌, ◌≡◌, ◌↔◌, Option, none,
  some, List, [], ◌∷◌, filter, contains, if◌then◌else◌, Memᴰ,
}
use rdflib_reasoning.Base.Dict.{Dict, lookup, insert, get_or}
use rdflib_reasoning.Base.Sets.{add}
use rdflib_reasoning.Errors.{Exception, Result, ok, raise}
use rdflib_reasoning.Rdf.{Node, node_eq, Triple, triple_eq, Rendering}
use rdflib_reasoning.Rules.{Rule}
use rdflib_reasoning.Network.Matcher.{PredicateHook}
use rdflib_reasoning.Engine.{
  RecorderKind, LoggerKind, Policy, CallbackHook, ReteEngineConfig, ReteEngine,
}
use rdflib_reasoning.Engine.Saturation.{new_engine, add_triples, warmup}

-- A pattern of the store: None, here none, stands for any node.
pub record StorePattern : Type 0 where
  pub subject : Option Node
  pub predicate : Option Node
  pub object : Option Node

abbrev pub any_triple : StorePattern
any_triple = record { subject = none; predicate = none; object = none }

abbrev pub just : Triple → StorePattern
just t = record { subject = some t.subject; predicate = some t.predicate; object = some t.object }

abbrev pub fits : Option Node → Node → Bool
fits none v = true
fits (some w) v = v == w

unfoldable pub matches : StorePattern → Triple → Bool
matches p t = fits p.subject t.subject && (fits p.predicate t.predicate && fits p.object t.object)

-- What the code uses of `rdflib.store.Store`: whether a graph has a triple (`contexts(triple)`, and
-- `triple in graph`), the triples of a graph that match a pattern, adding one, and removing those
-- that match a pattern, from one graph or from all.
pub record BackingStore (S : Type 0) : Type 0 where
  pub has : S → Node → Triple → Bool
  pub triples : S → Node → StorePattern → List Triple
  pub put : Node → Triple → S → S
  pub remove : StorePattern → Option Node → S → S

-- rdflib documents these of a store: an added triple is in its graph and nothing else changes, the
-- triples of a graph are those that it has, and those that match are removed and no others.
pub record BackingStoreLaws {S : Type 0} (store : BackingStore S) : Type 0 where
  pub has-put :
      (s : S) (c d : Node) (t u : Triple)
      → store.has (store.put c t s) d u ≡ (store.has s d u || (d == c && u == t))
  pub contains-triples :
      (s : S) (c : Node) (p : StorePattern) (t : Triple)
      → contains (store.triples s c p) t ≡ (store.has s c t && matches p t)
  pub has-remove :
      (s : S) (c d : Node) (p : StorePattern) (u : Triple)
      → store.has (store.remove p (some c) s) d u ≡ (store.has s d u && not (d == c && matches p u))

-- The recorders and loggers of a context are new ones of a kind.
pub record ReteEngineFactoryConfig : Type 0 where
  pub rules : List Rule
  pub contradiction_recorder_factory : Node → RecorderKind
  pub derivation_logger_factory : Node → LoggerKind
  pub predicates : Dict String PredicateHook
  pub callbacks : Dict String CallbackHook
  pub literal_subject_policy : Policy
  pub predicate_term_policy : Policy

-- The configuration of the engine that the factory makes for a context.
unfoldable pub engine_config : ReteEngineFactoryConfig → Node → ReteEngineConfig
engine_config factory context = record {
  context = context;
  predicates = factory.predicates;
  callbacks = factory.callbacks;
  derivation_logger = factory.derivation_logger_factory context;
  contradiction_recorder = factory.contradiction_recorder_factory context;
  literal_subject_policy = factory.literal_subject_policy;
  predicate_term_policy = factory.predicate_term_policy;
}

-- The store, with the state of its dispatcher.
pub record ReteStore (S : Type 0) : Type 0 where
  pub store : S
  pub engines : Dict Node ReteEngine
  pub current_additions : Dict Node (List Triple)
  pub handling_addition : Bool
  pub current_removals : Dict Node (List Triple)
  pub handling_removal : Bool
  pub pending_rematerialize : Dict Node (List Triple)
  pub remove_depth : ℕ

-- A call that may run out of fuel (none) or raise.
abbrev pub Run : Type 0 → Type 0
Run A = Option (Result A)

infixl 5 ◌>=>◌
abbrev pub ◌>=>◌ : {A B : Type 0} → Run A → (A → Run B) → Run B
◌>=>◌ none next = none
◌>=>◌ (some (raise exception)) next = some (raise exception)
◌>=>◌ (some (ok value)) next = next value

abbrev pub done : {A : Type 0} → A → Run A
done value = some (ok value)

-- A result that is there, as a call.
abbrev pub at_once : {A : Type 0} → Result A → Run A
at_once r = some r

-- `_current_additions.setdefault(context, set()).add(triple)`
unfoldable pub queue : {S : Type 0} → Node → Triple → ReteStore S → ReteStore S
unfolding add lookup insert
queue context triple st = record st {
  current_additions =
      insert context (add triple (get_or (lookup context st.current_additions) []))
        st.current_additions;
}

module _ {S : Type 0} (backing : BackingStore S) where
  -- `_on_triple_added`. `run` is its `while` loop, which an event during a batch does not enter.
  unfoldable pub on_triple_added :
      (ReteStore S → Run (ReteStore S)) → Node → Triple → ReteStore S → Run (ReteStore S)
  unfolding queue
  on_triple_added run context triple st =
      if backing.has st.store context triple
      then done st
      else let queued : ReteStore S = queue context triple st in
        if queued.handling_addition
        then done queued
        else (run (record queued { handling_addition = true }) >=> λ after.
            done (record after { handling_addition = false }))

  -- The events of `addN`, before the backing store adds anything.
  unfoldable pub announce :
      (ReteStore S → Run (ReteStore S)) → Node → List Triple → ReteStore S → Run (ReteStore S)
  unfolding on_triple_added
  announce run context [] st = done st
  announce run context (triple ∷ triples) st =
      on_triple_added run context triple st >=> announce run context triples

  unfoldable pub put_all : Node → List Triple → S → S
  put_all context [] s = s
  put_all context (triple ∷ triples) s = put_all context triples (backing.put context triple s)

  -- `context.addN(quads)`, for quads of one graph
  unfoldable pub add_n :
      (ReteStore S → Run (ReteStore S)) → Node → List Triple → ReteStore S → Run (ReteStore S)
  unfolding announce put_all
  add_n run context triples st = announce run context triples st >=> λ after.
      done (record after { store = put_all context triples after.store })

module _ {S : Type 0} (backing : BackingStore S) (rendering : Rendering)
    (factory : ReteEngineFactoryConfig) (fuel : ℕ) where
  unfoldable pub ensure_engine :
      (ReteStore S → Run (ReteStore S)) → Node → ReteStore S → Run (ReteStore S × ReteEngine)
  unfolding lookup insert new_engine warmup add_n engine_config
  ensure_engine run context st = elim (lookup context st.engines) [
    | some engine ↦ done (st, engine)
    | none ↦ at_once (new_engine rendering factory.rules) >=> λ engine.
        warmup rendering (engine_config factory context) fuel
          (backing.triples st.store context any_triple) engine
        >=> λ warmed.
            add_n backing run context warmed.1
              (record st { engines = insert context warmed.0 st.engines })
            >=> λ after. done (after, get_or (lookup context after.engines) warmed.0)
  ]

  -- `_on_triples_added`, the handler of a batch.
  unfoldable pub on_triples_added :
      (ReteStore S → Run (ReteStore S)) → Node → List Triple → ReteStore S → Run (ReteStore S)
  unfolding ensure_engine add_triples add_n insert engine_config
  on_triples_added run context batch st = ensure_engine run context st >=> λ ready.
      add_triples rendering (engine_config factory context) fuel batch ready.1 >=> λ result.
      add_n backing run context (filter (λ t. not (backing.has ready.0.store context t)) result.1)
        (record ready.0 { engines = insert context result.0 ready.0.engines })

  -- `while self._current_additions`, on fuel of its own.
  unfoldable pub drain_additions : ℕ → ReteStore S → Run (ReteStore S)
  unfolding on_triples_added
  drain_additions zero st = none
  drain_additions (suc n) st =
      let next : ReteStore S → Run (ReteStore S) = drain_additions n in
      elim st.current_additions [
        | [] ↦ done st
        | (context, additions) ∷ rest ↦ elim additions [
          | [] ↦ next (record st { current_additions = rest })
          | t ∷ ts ↦
              on_triples_added next context (t ∷ ts) (record st { current_additions = rest })
              >=> next
        ]
      ]

  -- `add` and `addN` of the store, from outside.
  unfoldable pub store_add : ℕ → Node → Triple → ReteStore S → Run (ReteStore S)
  unfolding on_triple_added drain_additions
  store_add n context triple st =
      on_triple_added backing (drain_additions n) context triple st >=> λ after.
      done (record after { store = backing.put context triple after.store })

  unfoldable pub store_add_n : ℕ → Node → List Triple → ReteStore S → Run (ReteStore S)
  unfolding add_n drain_additions
  store_add_n n context triples st = add_n backing (drain_additions n) context triples st

  -- `add_graph`, but for what the backing store notes of it.
  unfoldable pub add_graph : ℕ → Node → ReteStore S → Run (ReteStore S)
  unfolding ensure_engine drain_additions
  add_graph n context st = ensure_engine (drain_additions n) context st >=> λ ready. done ready.0
