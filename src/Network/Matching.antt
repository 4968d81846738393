-- ===== src/Network/Matching.antt =====
-- network.py: the matches of one pattern, and the joins of partial matches.
use rdflib_reasoning.Base.{
  suc, String, string_eq, ◌==◌, Bool, true, not, Option, none, some, List, [], ◌∷◌, ◌++◌,
  if◌then◌else◌, map, filter, any, all, contains, collect,
}
use Prim.Native.Nat.{max}
use rdflib_reasoning.Base.Dict.{Dict, keys, values, lookup, insert, get_or}
use rdflib_reasoning.Base.Sets.{intersection}
use rdflib_reasoning.Rdf.{Node, variable, node_eq, Triple}
use rdflib_reasoning.Rules.{TriplePattern}
use rdflib_reasoning.Facts.{Fact, PartialMatch}
use rdflib_reasoning.Network.{BetaNode, MatchMemory, NodeRegistry}

-- One round of the loop over the positions of a pattern; none is `matched = False`.
unfoldable pub match_term : Node → Node → Dict String Node → Option (Dict String Node)
unfolding lookup insert
match_term (variable name) term bindings = elim (lookup name bindings) [
  | none ↦ some (insert name term bindings)
  | some existing ↦ if existing == term then some (insert name term bindings) else none
]
match_term pattern_term term bindings = if pattern_term == term then some bindings else none

unfoldable pub and_match :
    Option (Dict String Node)
    → (Dict String Node → Option (Dict String Node))
    → Option (Dict String Node)
and_match none next = none
and_match (some bindings) next = next bindings

unfoldable pub match_triple : TriplePattern → Triple → Option (Dict String Node)
unfolding match_term and_match
match_triple pattern triple =
    and_match
      (and_match (match_term pattern.subject triple.subject [])
        (match_term pattern.predicate triple.predicate))
      (match_term pattern.object triple.object)

-- What one fact appends.
unfoldable pub match_fact : TriplePattern → Fact → Option PartialMatch
unfolding match_triple
match_fact pattern fact = elim (match_triple pattern fact.triple) [
  | none ↦ none
  | some bindings ↦ some record { facts = fact ∷ []; bindings = bindings; depth = 0 }
]

-- The matches of a pattern among some facts, before they are stored.
unfoldable pub alpha_matches : TriplePattern → List Fact → List PartialMatch
unfolding match_fact collect
alpha_matches pattern facts = collect (match_fact pattern) facts

-- `left[name] == right[name]`, for a name that both have.
unfoldable pub agrees : Option Node → Option Node → Bool
agrees (some a) (some b) = a == b
agrees _ _ = true

unfoldable pub bindings_compatible : Dict String Node → Dict String Node → Bool
unfolding keys lookup intersection agrees
bindings_compatible left right =
    all (λ name. agrees (lookup name left) (lookup name right))
      (intersection (keys left) (keys right))

-- `{**left, **right}`
unfoldable pub merge : Dict String Node → Dict String Node → Dict String Node
unfolding insert
merge left [] = left
merge left ((name, value) ∷ right) = merge (insert name value left) right

-- `{fact.id for fact in left.facts}`
unfoldable pub fact_ids : PartialMatch → List String
fact_ids match = map (λ fact. fact.id) match.facts

-- What one pair of the inner loop appends.
unfoldable pub join_pair : PartialMatch → PartialMatch → Option PartialMatch
unfolding fact_ids bindings_compatible merge
join_pair left right =
    if any (λ fact. contains (fact_ids left) fact.id) right.facts
    then none
    else if not (bindings_compatible left.bindings right.bindings)
    then none
    else some record {
      facts = left.facts ++ filter (λ fact. not (contains (fact_ids left) fact.id)) right.facts;
      bindings = merge left.bindings right.bindings;
      depth = suc (max left.depth right.depth);
    }

unfoldable pub join_with : PartialMatch → List PartialMatch → List PartialMatch
unfolding join_pair collect
join_with left all_right = collect (join_pair left) all_right

unfoldable pub join_pairs : List PartialMatch → List PartialMatch → List PartialMatch
unfolding join_with
join_pairs [] all_right = []
join_pairs (left ∷ new_left) all_right = join_with left all_right ++ join_pairs new_left all_right

-- `alpha_memory.get(key, beta_memory.get(key, {}))`
unfoldable pub memory_of : String → NodeRegistry → MatchMemory
unfolding lookup
memory_of key r = get_or (lookup key r.alpha_memory) (get_or (lookup key r.beta_memory) [])

unfoldable pub joined :
    BetaNode → Dict String (List PartialMatch) → NodeRegistry → List PartialMatch
unfolding join_pairs memory_of values
joined node partial_matches r =
    join_pairs (get_or (lookup node.left_key partial_matches) [])
      (values (memory_of node.right_key r))
    ++ join_pairs (values (memory_of node.left_key r))
        (get_or (lookup node.right_key partial_matches) [])
