-- ===== src/Network/Terms.antt =====
-- network.py: the terms that a partial match binds, all from the triples of its facts.
use rdflib_reasoning.Base.{
  String, string_eq, ◌≡◌, refl, sym, subst, some, List, [], ◌∷◌, inl, inr, Memᴰ, mem-collect,
}
use rdflib_reasoning.Base.Dict.{Dict, values, insert, mem-values-insert}
use rdflib_reasoning.Rdf.{Node, variable, uri_ref, b_node, literal, Triple}
use rdflib_reasoning.Rules.{TriplePattern}
use rdflib_reasoning.Facts.{Fact, PartialMatch}
use rdflib_reasoning.Network.Matching.{
  match_term, match_triple, match_fact, alpha_matches, merge, join_pair,
}
use rdflib_reasoning.Network.Alpha.{match_variable, match_constant, and_match-some, match_fact-some}
use rdflib_reasoning.Network.Join.{join_pair-some}

-- A triple whose terms all stand in a list.
unfoldable pub Over : List Node → Triple → Type 0
Over terms t = Memᴰ t.subject terms × Memᴰ t.predicate terms × Memᴰ t.object terms

-- A dict whose values all stand in a list.
unfoldable pub BindsIn : List Node → Dict String Node → Type 0
BindsIn terms b = (v : Node) → Memᴰ v (values b) → Memᴰ v terms

abbrev pub MatchOver : List Node → PartialMatch → Type 0
MatchOver terms m = BindsIn terms m.bindings

module _ (terms : List Node) where
  pub nil-BindsIn : BindsIn terms []
  unfolding BindsIn values
  nil-BindsIn v there = elim there [ ]

  insert-BindsIn :
      (x : String) (node : Node) (b : Dict String Node)
      → Memᴰ node terms
      → BindsIn terms b
      → BindsIn terms (insert x node b)
  unfolding BindsIn
  insert-BindsIn x node b new old v there = elim (mem-values-insert x node b there) [
    | inl same ↦ subst (λ w. Memᴰ w terms) (sym same) new
    | inr before ↦ old v before
  ]

  match_term-BindsIn :
      (term node : Node) (b c : Dict String Node)
      → match_term term node b ≡ some c
      → Memᴰ node terms
      → BindsIn terms b
      → BindsIn terms c
  unfolding match_term
  match_term-BindsIn (variable x) node b c h new old =
      subst (BindsIn terms) (sym (match_variable x node b h).0) (insert-BindsIn x node b new old)
  match_term-BindsIn (uri_ref i) node b c h new old =
      subst (BindsIn terms) (sym (match_constant (uri_ref i) node b h).1) old
  match_term-BindsIn (b_node l) node b c h new old =
      subst (BindsIn terms) (sym (match_constant (b_node l) node b h).1) old
  match_term-BindsIn (literal l d t) node b c h new old =
      subst (BindsIn terms) (sym (match_constant (literal l d t) node b h).1) old

  match_triple-BindsIn :
      (p : TriplePattern) (t : Triple) (b : Dict String Node)
      → match_triple p t ≡ some b
      → Over terms t
      → BindsIn terms b
  unfolding match_triple Over
  match_triple-BindsIn p t b h (s, q, o) =
      let (b2, h12, h3) = and_match-some _ _ b h in
      let (b1, h1, h2) = and_match-some _ _ b2 h12 in
      match_term-BindsIn p.object t.object b2 b h3 o (
        match_term-BindsIn p.predicate t.predicate b1 b2 h2 q
          (match_term-BindsIn p.subject t.subject [] b1 h1 s nil-BindsIn))

  -- A match of a pattern binds terms of the triple of its fact.
  pub alpha_matches-MatchOver :
      (facts : List Fact)
      → ((f : Fact) → Memᴰ f facts → Over terms f.triple)
      → (p : TriplePattern) (m : PartialMatch) → Memᴰ m (alpha_matches p facts)
      → MatchOver terms m
  unfolding alpha_matches
  alpha_matches-MatchOver facts h p m there =
      let (f, in_facts, found) = mem-collect (match_fact p) facts there in
      match_triple-BindsIn p f.triple m.bindings (match_fact-some p f m found).1 (h f in_facts)

  merge-BindsIn :
      (left right : Dict String Node)
      → BindsIn terms left
      → BindsIn terms right
      → BindsIn terms (merge left right)
  unfolding merge BindsIn values
  merge-BindsIn left [] l r = l
  merge-BindsIn left ((k, v) ∷ right) l r =
      merge-BindsIn (insert k v left) right (insert-BindsIn k v left (r v (Memᴰ.head refl)) l)
        (λ w there. r w (Memᴰ.tail there))

  -- A join binds what its sides bind.
  pub join_pair-MatchOver :
      (left right m : PartialMatch)
      → MatchOver terms left
      → MatchOver terms right
      → join_pair left right ≡ some m
      → MatchOver terms m
  join_pair-MatchOver left right m l r h =
      let (_, _, _, bindings) = join_pair-some left right m h in
      subst (BindsIn terms) (sym bindings) (merge-BindsIn left.bindings right.bindings l r)
