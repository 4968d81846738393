-- ===== src/Tests/Memories.antt =====
-- network.py: a join of one match with two, and two facts that one pattern matches.
use rdflib_reasoning.Base.{
  String, string_eq, ◌≡◌, ◌≢◌, refl, sym, subst, ◌∙◌, ◌==◌, ==_refl, true, false, arith, string_dec,
  none, some, List, [], ◌∷◌, ◌++◌, ◌⊎◌, inl, inr, Memᴰ,
}
use mathlib.Core.List.Memᴰ
use rdflib_reasoning.Base.Dict.{Dict, lookup, values, get_or}
use rdflib_reasoning.Errors.{ok}
use rdflib_reasoning.Rdf.{Node, uri_ref, variable}
use rdflib_reasoning.Facts.{Fact, PartialMatch}
use rdflib_reasoning.Compiler.{compile_triple_condition}
use rdflib_reasoning.Network.{AlphaNode, NodeRegistry}
use rdflib_reasoning.Network.Matching.{join_pair, memory_of, joined, alpha_matches}
use rdflib_reasoning.Network.Matcher.{partial_match_key, join_beta, match_alpha}
use rdflib_reasoning.Network.Alpha.{Instantiates, Extends}
use rdflib_reasoning.Network.Stored.{
  SameMatch, SameMatch-refl, IsKeyed, TellsApart, Holds, nothing-IsKeyed,
}
use rdflib_reasoning.Network.Memories.{
  AllSound, memory_at, join_beta_complete, match_alpha_complete,
}
use rdflib_reasoning.Tests.Tms.{fact}
use rdflib_reasoning.Tests.Network.{
  program, of_class, plain, is_a, is_b, two_nodes, join_node, one_node, none_sound,
}

other_text : (s t : String) → (s == t) ≡ false → s ≢ t
other_text s t e same = ground (arith, e, same, ==_refl t)

-- A list of two matches, perhaps more than once, that have different keys.
tells_two :
    (p q : PartialMatch) (ms : List PartialMatch)
    → ((m : PartialMatch) → Memᴰ m ms → (m ≡ p) ⊎ (m ≡ q))
    → partial_match_key plain p ≢ partial_match_key plain q
    → TellsApart plain ms
unfolding TellsApart
tells_two p q ms either differ m n in_m in_n keys = elim (either m in_m) [
  | inl m_p ↦ elim (either n in_n) [
    | inl n_p ↦ subst (λ x. SameMatch m x) (m_p ∙ sym n_p) (SameMatch-refl m)
    | inr n_q ↦ absurd (differ (cc (keys, m_p, n_q)))
  ]
  | inr m_q ↦ elim (either n in_n) [
    | inl n_p ↦ absurd (differ (cc (keys, m_q, n_p)))
    | inr n_q ↦ subst (λ x. SameMatch m x) (m_q ∙ sym n_q) (SameMatch-refl m)
  ]
]

-- One match on the left is joined with two on the right.
abbrev is_c : PartialMatch
is_c = record { facts = fact "c" true ∷ []; bindings = ("x", uri_ref "x") ∷ []; depth = 0 }

abbrev three_matches : NodeRegistry
three_matches = record two_nodes {
  alpha_memory = ("A", ("a", is_a) ∷ []) ∷ ("B", ("b", is_b) ∷ ("c", is_c) ∷ []) ∷ [];
}

abbrev left_new : Dict String (List PartialMatch)
left_new = ("A", is_a ∷ []) ∷ []

abbrev with_a : String → PartialMatch
with_a i = record {
  facts = fact "a" true ∷ fact i true ∷ [];
  bindings = ("x", uri_ref "x") ∷ [];
  depth = 1;
}

joins_two : joined join_node left_new three_matches ≡ with_a "b" ∷ with_a "c" ∷ []
unfolding program joined
joins_two = refl

of_two : (p q m : PartialMatch) → Memᴰ m (p ∷ q ∷ []) → (m ≡ p) ⊎ (m ≡ q)
of_two p q m there = elim (Memᴰ.cases_cons there) [
  | inl same ↦ inl same
  | inr rest ↦ inr (Memᴰ.eq_of_singleton rest)
]

no_joins_yet : lookup "AB" three_matches.beta_memory ≡ some []
unfolding program
no_joins_yet = refl

joins_apart : (partial_match_key plain (with_a "b") == partial_match_key plain (with_a "c")) ≡ false
unfolding partial_match_key string_dec rdflib_reasoning.Base.Sorting.insert_sorted
joins_apart = refl

joins_differ : partial_match_key plain (with_a "b") ≢ partial_match_key plain (with_a "c")
joins_differ = other_text _ _ joins_apart

tells_joins : TellsApart plain (values {K = String} [] ++ joined join_node left_new three_matches)
unfolding program
tells_joins = subst (TellsApart plain) (sym joins_two) (
    tells_two (with_a "b") (with_a "c") (with_a "b" ∷ with_a "c" ∷ [])
      (of_two (with_a "b") (with_a "c")) joins_differ)

every_left_new :
    (left right m : PartialMatch)
    → Memᴰ left (values (memory_of "A" three_matches))
    → Memᴰ right (values (memory_of "B" three_matches))
    → join_pair left right ≡ some m
    → Memᴰ left (get_or (lookup "A" left_new) [])
      ⊎ (Memᴰ right (get_or (lookup "B" left_new) []) ⊎ Holds plain [] m)
unfolding program
every_left_new left right m in_left in_right pair = inl in_left

join_beta_complete_example :
    (s : NodeRegistry) × (new_matches : List PartialMatch) × (join_beta plain join_node left_new
        three_matches
      ≡ ok (s, new_matches))
    × IsKeyed plain (memory_at "AB" s.beta_memory)
    × ((left right m : PartialMatch)
        → Memᴰ left (values (memory_of "A" three_matches))
        → Memᴰ right (values (memory_of "B" three_matches))
        → join_pair left right ≡ some m
        → Holds plain (memory_at "AB" s.beta_memory) m)
join_beta_complete_example =
    join_beta_complete plain join_node left_new three_matches [] no_joins_yet
      (nothing-IsKeyed plain) tells_joins every_left_new

-- A pattern that both facts match, with different bindings.
abbrev any_class : AlphaNode
any_class =
    let condition = compile_triple_condition (of_class (variable "c")) 0 in
    record { key = "A"; condition = condition; constraints = condition.constraints }

abbrev of_fact : String → PartialMatch
of_fact i = record {
  facts = fact i true ∷ [];
  bindings = ("x", uri_ref "x") ∷ ("c", uri_ref i) ∷ [];
  depth = 0;
}

nothing_yet : lookup "A" one_node.alpha_memory ≡ some []
unfolding program
nothing_yet = refl

nothing_wrong : AllSound (any_class.condition.pattern ∷ []) (values {K = String} [])
unfolding program
nothing_wrong = none_sound (any_class.condition.pattern ∷ [])

abbrev two_facts : List Fact
two_facts = fact "a" true ∷ fact "b" true ∷ []

matches_two : alpha_matches any_class.condition.pattern two_facts ≡ of_fact "a" ∷ of_fact "b" ∷ []
unfolding program alpha_matches compile_triple_condition
matches_two = refl

facts_apart :
    (partial_match_key plain (of_fact "a") == partial_match_key plain (of_fact "b")) ≡ false
unfolding partial_match_key string_dec rdflib_reasoning.Base.Sorting.insert_sorted
facts_apart = refl

facts_differ : partial_match_key plain (of_fact "a") ≢ partial_match_key plain (of_fact "b")
facts_differ = other_text _ _ facts_apart

tells_facts :
    TellsApart plain (values {K = String} [] ++ alpha_matches any_class.condition.pattern two_facts)
unfolding program
tells_facts = subst (TellsApart plain) (sym matches_two) (
    tells_two (of_fact "a") (of_fact "b") (of_fact "a" ∷ of_fact "b" ∷ [])
      (of_two (of_fact "a") (of_fact "b")) facts_differ)

match_alpha_complete_example :
    (s : NodeRegistry) × (new_matches : List PartialMatch) × (match_alpha plain any_class two_facts
        one_node
      ≡ ok (s, new_matches))
    × AllSound (any_class.condition.pattern ∷ []) (values (memory_at "A" s.alpha_memory))
    × IsKeyed plain (memory_at "A" s.alpha_memory)
    × ((f : Fact) (d : Dict String Node)
        → Memᴰ f two_facts
        → Instantiates any_class.condition.pattern d f.triple
        → (m : PartialMatch) × (m.facts ≡ f ∷ [])
          × Instantiates any_class.condition.pattern m.bindings f.triple
          × Extends m.bindings d
          × Holds plain (memory_at "A" s.alpha_memory) m)
match_alpha_complete_example =
    match_alpha_complete plain any_class two_facts one_node [] nothing_yet (nothing-IsKeyed plain)
      tells_facts nothing_wrong
