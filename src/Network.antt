-- ===== src/Network.antt =====
-- The network's nodes and their registry: the first half of
-- rdflib-reasoning-engine/src/rdflib_reasoning/engine/rete/network.py. A key is the text that the
-- source makes, with what rdflib and Python print of a term and a number as a parameter.
pub mod Builder
pub mod Matching
pub mod Matcher
pub mod Store
pub mod Alpha
pub mod Join
pub mod Stored
pub mod Memories
pub mod Preserve
pub mod Initial
pub mod Terms
pub mod Evict
pub mod Firing
use rdflib_reasoning.Base.{
  String, string_eq, Bool, true, false, Option, none, some, List, [], ◌∷◌, if◌then◌else◌, any,
  contains,
}
use rdflib_reasoning.Base.Dict.{Dict, lookup, insert, erase, get_or, is_some}
use rdflib_reasoning.Facts.{Fact, PartialMatch}
use rdflib_reasoning.Compiler.{
  AlphaConstraint, CompiledTripleCondition, CompiledPredicateCondition, CompiledRule,
}

pub record AlphaNode : Type 0 where
  pub key : String
  pub condition : CompiledTripleCondition
  pub constraints : List AlphaConstraint

pub record PredicateNode : Type 0 where
  pub key : String
  pub condition : CompiledPredicateCondition
  pub required_variables : List String

pub record BetaNode : Type 0 where
  pub key : String
  pub left_key : String
  pub right_key : String
  pub shared_variables : List String

pub record TerminalNode : Type 0 where
  pub key : String
  pub rule : CompiledRule
  pub input_keys : List String

abbrev pub MatchMemory : Type 0
MatchMemory = Dict String PartialMatch

pub record NodeRegistry : Type 0 where
  pub alpha_nodes : Dict String AlphaNode
  pub predicate_nodes : Dict String PredicateNode
  pub beta_nodes : Dict String BetaNode
  pub terminal_nodes : Dict String TerminalNode
  pub alpha_memory : Dict String MatchMemory
  pub beta_memory : Dict String MatchMemory

abbrev pub empty_registry : NodeRegistry
empty_registry = record {
  alpha_nodes = [];
  predicate_nodes = [];
  beta_nodes = [];
  terminal_nodes = [];
  alpha_memory = [];
  beta_memory = [];
}

-- `d.setdefault(k, v)`, for what it leaves in `d`
unfoldable pub setdefault {ℓ} : {V : Type ℓ} → String → V → Dict String V → Dict String V
unfolding lookup insert
setdefault k v d = if is_some (lookup k d) then d else insert k v d

unfoldable pub get_or_create_alpha : AlphaNode → NodeRegistry → NodeRegistry × AlphaNode
unfolding setdefault
get_or_create_alpha node r = (
  record r {
    alpha_nodes = setdefault node.key node r.alpha_nodes;
    alpha_memory = setdefault node.key [] r.alpha_memory;
  },
  get_or (lookup node.key r.alpha_nodes) node,
)

unfoldable pub get_or_create_predicate : PredicateNode → NodeRegistry → NodeRegistry × PredicateNode
unfolding setdefault
get_or_create_predicate node r = (
  record r { predicate_nodes = setdefault node.key node r.predicate_nodes },
  get_or (lookup node.key r.predicate_nodes) node,
)

unfoldable pub get_or_create_beta : BetaNode → NodeRegistry → NodeRegistry × BetaNode
unfolding setdefault
get_or_create_beta node r = (
  record r {
    beta_nodes = setdefault node.key node r.beta_nodes;
    beta_memory = setdefault node.key [] r.beta_memory;
  },
  get_or (lookup node.key r.beta_nodes) node,
)

unfoldable pub add_terminal : TerminalNode → NodeRegistry → NodeRegistry × TerminalNode
unfolding insert
add_terminal node r = (record r { terminal_nodes = insert node.key node r.terminal_nodes }, node)

-- `any(fact.id in fact_ids for fact in match.facts)`
unfoldable pub is_stale : List String → PartialMatch → Bool
is_stale fact_ids match = any (λ fact. contains fact_ids fact.id) match.facts

unfoldable pub stale_keys : List String → MatchMemory → List String
unfolding is_stale
stale_keys fact_ids [] = []
stale_keys fact_ids ((match_key, match) ∷ matches) =
    let rest = stale_keys fact_ids matches in
    if is_stale fact_ids match then match_key ∷ rest else rest

-- `for match_key in stale_keys: del matches[match_key]`
unfoldable pub delete_keys : List String → MatchMemory → MatchMemory
unfolding erase
delete_keys [] matches = matches
delete_keys (k ∷ ks) matches = delete_keys ks (erase k matches)

-- `for matches in memory.values()`
unfoldable pub evict_memory : List String → Dict String MatchMemory → Dict String MatchMemory
unfolding stale_keys delete_keys
evict_memory fact_ids [] = []
evict_memory fact_ids ((key, matches) ∷ memory) =
    (key, delete_keys (stale_keys fact_ids matches) matches) ∷ evict_memory fact_ids memory

-- With no ids the source returns at once, and the loops drop nothing.
unfoldable pub evict_partial_matches_referencing : List String → NodeRegistry → NodeRegistry
unfolding evict_memory
evict_partial_matches_referencing [] r = r
evict_partial_matches_referencing (i ∷ ids) r = record r {
  alpha_memory = evict_memory (i ∷ ids) r.alpha_memory;
  beta_memory = evict_memory (i ∷ ids) r.beta_memory;
}
