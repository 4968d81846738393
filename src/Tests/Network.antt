-- ===== src/Tests/Network.antt =====
-- network.py on two facts and a join of two patterns.
use rdflib_reasoning.Base.{
  String, string_eq, string_dec, ◌≡◌, refl, sym, subst, Bool, true, false, none, some, List, [],
  ◌∷◌, ◌++◌, Memᴰ, arith, ◌==◌, if◌then◌else◌, push, collect,
}
use mathlib.Core.List.Memᴰ
use rdflib_reasoning.Base.Dict.{Dict, lookup, insert, keys, values, NodupKeys, get_or}
use rdflib_reasoning.Base.Sets.{intersection}
use rdflib_reasoning.Errors.{ok}
use rdflib_reasoning.Rdf.{Node, uri_ref, variable, node_dec, node_eq, Rendering}
use rdflib_reasoning.Rules.{TriplePattern}
use rdflib_reasoning.Facts.{PartialMatch}
use rdflib_reasoning.Compiler.{compile_triple_condition}
use rdflib_reasoning.Network.{
  AlphaNode, BetaNode, NodeRegistry, empty_registry, evict_partial_matches_referencing,
}
use rdflib_reasoning.Network.Matching.{
  match_term, and_match, match_triple, agrees, bindings_compatible, merge, fact_ids, join_pair,
  memory_of,
}
use rdflib_reasoning.Network.Matcher.{join_beta}
use rdflib_reasoning.Network.Alpha.{value_of, Instantiates, Extends, match_triple_complete}
use rdflib_reasoning.Network.Join.{IsSound, shares_fact, join_pair-IsSound, join_pair_complete}
use rdflib_reasoning.Network.Memories.{AllSound, memory_at, join_beta-AllSound}
use rdflib_reasoning.Network.Evict.{AllNodup, match_at, kept_match, match_at-evict}
use rdflib_reasoning.Tests.Tms.{typed, fact}

-- `?x rdf:type c`
abbrev pub of_class : Node → TriplePattern
of_class c = record { subject = variable "x"; predicate = uri_ref "rdf:type"; object = c }

abbrev pub plain : Rendering
plain = record { n3 = λ n. "<n>"; repr_int = λ n. "0"; repr_str = λ s. s }

abbrev pub assignment : Dict String Node
assignment = ("x", uri_ref "x") ∷ ("c", uri_ref "a") ∷ []

abbrev pub is_a : PartialMatch
is_a = record { facts = fact "a" true ∷ []; bindings = ("x", uri_ref "x") ∷ []; depth = 0 }

abbrev pub is_b : PartialMatch
is_b = record { facts = fact "b" true ∷ []; bindings = ("x", uri_ref "x") ∷ []; depth = 0 }

unfoldable pub program : Unit {0}
unfolding lookup insert keys values intersection string_dec node_dec push collect match_term
    and_match match_triple agrees bindings_compatible merge fact_ids join_pair shares_fact value_of
    Instantiates memory_of
program = tt

assigned : Instantiates (of_class (variable "c")) assignment (typed "x" "a")
unfolding program
assigned = (refl, refl, refl)

match_triple_complete_example :
    (b : Dict String Node) × (match_triple (of_class (variable "c")) (typed "x" "a") ≡ some b)
    × Instantiates (of_class (variable "c")) b (typed "x" "a")
    × Extends b assignment
match_triple_complete_example =
    match_triple_complete (of_class (variable "c")) (typed "x" "a") assignment assigned

fresh_x : (v : Node) → NodupKeys {K = String} (("x", v) ∷ [])
unfolding program
fresh_x v = (refl, tt)

is_a-IsSound : IsSound (of_class (uri_ref "a") ∷ []) is_a
unfolding IsSound program
is_a-IsSound = (
  fresh_x (uri_ref "x"),
  λ p there. (
    fact "a" true,
    Memᴰ.head refl,
    subst (λ q. Instantiates q is_a.bindings (typed "x" "a")) (sym (Memᴰ.eq_of_singleton there))
        (refl, refl, refl),
  ),
)

is_b-IsSound : IsSound (of_class (uri_ref "b") ∷ []) is_b
unfolding IsSound program
is_b-IsSound = (
  fresh_x (uri_ref "x"),
  λ p there. (
    fact "b" true,
    Memᴰ.head refl,
    subst (λ q. Instantiates q is_b.bindings (typed "x" "b")) (sym (Memᴰ.eq_of_singleton there))
        (refl, refl, refl),
  ),
)

abbrev both : PartialMatch
both = record {
  facts = fact "a" true ∷ fact "b" true ∷ [];
  bindings = ("x", uri_ref "x") ∷ [];
  depth = 1;
}

joins : join_pair is_a is_b ≡ some both
unfolding program
joins = refl

join_pair-IsSound_example : IsSound (of_class (uri_ref "a") ∷ of_class (uri_ref "b") ∷ []) both
join_pair-IsSound_example =
    join_pair-IsSound (of_class (uri_ref "a") ∷ []) (of_class (uri_ref "b") ∷ []) is_a is_b both
      is_a-IsSound is_b-IsSound joins

apart : shares_fact is_a is_b ≡ false
unfolding program
apart = refl

x_to_x : Extends is_a.bindings assignment
unfolding Extends lookup
x_to_x name v h = ground (arith, h)

join_pair_complete_example :
    (m : PartialMatch) × (join_pair is_a is_b ≡ some m)
    × (m.facts ≡ fact "a" true ∷ fact "b" true ∷ [])
    × Extends m.bindings assignment
join_pair_complete_example =
    join_pair_complete is_a is_b assignment apart (fresh_x (uri_ref "x")) x_to_x x_to_x

-- Two alpha nodes whose matches are both new, and the node that joins them.
abbrev pub two_nodes : NodeRegistry
two_nodes = record empty_registry {
  alpha_memory = ("A", ("a", is_a) ∷ []) ∷ ("B", ("b", is_b) ∷ []) ∷ [];
  beta_memory = ("AB", []) ∷ [];
}

abbrev pub join_node : BetaNode
join_node = record { key = "AB"; left_key = "A"; right_key = "B"; shared_variables = "x" ∷ [] }

abbrev pub all_new : Dict String (List PartialMatch)
all_new = ("A", is_a ∷ []) ∷ ("B", is_b ∷ []) ∷ []

no_joins : lookup "AB" two_nodes.beta_memory ≡ some []
unfolding program
no_joins = refl

abbrev class_a : List TriplePattern
class_a = of_class (uri_ref "a") ∷ []

abbrev class_b : List TriplePattern
class_b = of_class (uri_ref "b") ∷ []

all_sound : (ps : List TriplePattern) (m : PartialMatch) → IsSound ps m → AllSound ps (m ∷ [])
unfolding AllSound
all_sound ps m h n there = subst (IsSound ps) (sym (Memᴰ.eq_of_singleton there)) h

pub none_sound : (ps : List TriplePattern) → AllSound ps []
unfolding AllSound
none_sound ps m there = elim there [ ]

left_sound : AllSound class_a (values (memory_of "A" two_nodes))
unfolding program
left_sound = all_sound class_a is_a is_a-IsSound

right_sound : AllSound class_b (values (memory_of "B" two_nodes))
unfolding program
right_sound = all_sound class_b is_b is_b-IsSound

new_left : AllSound class_a (get_or (lookup "A" all_new) [])
unfolding program
new_left = all_sound class_a is_a is_a-IsSound

new_right : AllSound class_b (get_or (lookup "B" all_new) [])
unfolding program
new_right = all_sound class_b is_b is_b-IsSound

old_sound : AllSound (class_a ++ class_b) (values {K = String} [])
unfolding program
old_sound = none_sound (class_a ++ class_b)

join_beta-AllSound_example :
    (s : NodeRegistry) × (new_matches : List PartialMatch) × (join_beta plain join_node all_new
        two_nodes
      ≡ ok (s, new_matches))
    × AllSound (class_a ++ class_b) (values (memory_at "AB" s.beta_memory))
    × AllSound (class_a ++ class_b) new_matches
join_beta-AllSound_example =
    join_beta-AllSound plain class_a class_b join_node all_new two_nodes [] no_joins old_sound
      left_sound right_sound new_left new_right

abbrev pub node_a : AlphaNode
node_a =
    let condition = compile_triple_condition (of_class (uri_ref "a")) 0 in
    record { key = "A"; condition = condition; constraints = condition.constraints }

abbrev pub one_node : NodeRegistry
one_node = record empty_registry { alpha_memory = ("A", []) ∷ [] }

nodup_either :
    (first second : Bool)
    → NodupKeys {K = String} (
        get_or
          (if first
            then some (("a", is_a) ∷ [])
            else if second
            then some (("b", is_b) ∷ [])
            else none)
          [])
unfolding program
nodup_either true second = (refl, tt)
nodup_either false true = (refl, tt)
nodup_either false false = tt

nodup_empty :
    (first : Bool)
    → NodupKeys {K = String} {V = PartialMatch} (get_or (if first then some [] else none) [])
nodup_empty true = tt
nodup_empty false = tt

alpha_nodup : AllNodup two_nodes.alpha_memory
unfolding AllNodup lookup
alpha_nodup key = nodup_either (key == "A") (key == "B")

beta_nodup : AllNodup two_nodes.beta_memory
unfolding AllNodup lookup
beta_nodup key = nodup_empty (key == "AB")

match_at-evict_example :
    (match_at "A" "a" (evict_partial_matches_referencing ("a" ∷ []) two_nodes).alpha_memory
      ≡ kept_match ("a" ∷ []) (match_at "A" "a" two_nodes.alpha_memory))
    × (match_at "A" "a" (evict_partial_matches_referencing ("a" ∷ []) two_nodes).beta_memory
        ≡ kept_match ("a" ∷ []) (match_at "A" "a" two_nodes.beta_memory))
match_at-evict_example = match_at-evict ("a" ∷ []) two_nodes alpha_nodup beta_nodup "A" "a"
