-- ===== src/Network/Memories.antt =====
-- network.py: what the memories of the network hold after a node was matched.
use rdflib_reasoning.Base.{
  String, string_eq, ◌≡◌, refl, sym, subst, ◌∙◌, ap, some, List, [], ◌∷◌, ◌++◌, ◌⊎◌, inl, inr, Memᴰ,
  mem-collect, mem-collect_of_mem, arith,
}
use mathlib.Core.List.Memᴰ
use rdflib_reasoning.Base.Dict.{Dict, values, lookup, insert, get_or, lookup-insert_self}
use rdflib_reasoning.Errors.{ok}
use rdflib_reasoning.Rdf.{Rendering, Node}
use rdflib_reasoning.Rules.{TriplePattern}
use rdflib_reasoning.Facts.{Fact, PartialMatch}
use rdflib_reasoning.Network.{AlphaNode, BetaNode, MatchMemory, NodeRegistry}
use rdflib_reasoning.Network.Alpha.{
  Instantiates, Extends, mem-alpha_matches, alpha_matches-NodupKeys, alpha_matches_complete,
}
use rdflib_reasoning.Network.Join.{IsSound, join_pair-IsSound}
use rdflib_reasoning.Network.Matching.{
  join_pair, join_with, join_pairs, memory_of, joined, alpha_matches,
}
use rdflib_reasoning.Network.Store.{mem-new_matches, stored-all, join_beta-ok, match_alpha-ok}
use rdflib_reasoning.Network.Stored.{
  IsKeyed, TellsApart, Holds, stored-Holds, store_matches-IsKeyed, store_matches-keeps_match,
}
use rdflib_reasoning.Network.Matcher.{store_matches, join_beta, match_alpha}

pub mem-join_pairs :
    (ls rs : List PartialMatch) (m : PartialMatch)
    → Memᴰ m (join_pairs ls rs)
    → (l r : PartialMatch) × Memᴰ l ls × Memᴰ r rs × (join_pair l r ≡ some m)
unfolding join_pairs join_with
mem-join_pairs [] rs m there = elim there [ ]
mem-join_pairs (l ∷ ls) rs m there = elim (Memᴰ.append_cases (join_with l rs) there) [
  | inl now ↦
      let (r, in_rs, e) = mem-collect (join_pair l) rs now in (l, r, Memᴰ.head refl, in_rs, e)
  | inr later ↦
      let (k, r, in_ls, in_rs, e) = mem-join_pairs ls rs m later in
      (k, r, Memᴰ.tail in_ls, in_rs, e)
]

mem-join_pairs_of_mem :
    (ls rs : List PartialMatch) (l r m : PartialMatch)
    → Memᴰ l ls
    → Memᴰ r rs
    → join_pair l r ≡ some m
    → Memᴰ m (join_pairs ls rs)
unfolding join_pairs join_with
mem-join_pairs_of_mem [] rs l r m in_ls in_rs e = elim in_ls [ ]
mem-join_pairs_of_mem (k ∷ ls) rs l r m (Memᴰ.head same) in_rs e =
    let at_k : join_pair k r ≡ some m = ap (λ x. join_pair x r) (sym same) ∙ e in
    Memᴰ.append_left _ (mem-collect_of_mem (join_pair k) rs in_rs at_k)
mem-join_pairs_of_mem (k ∷ ls) rs l r m (Memᴰ.tail later) in_rs e =
    Memᴰ.append_right (join_with k rs) (mem-join_pairs_of_mem ls rs l r m later in_rs e)

-- Partial matches that all stand for some patterns.
unfoldable pub AllSound : List TriplePattern → List PartialMatch → Type 0
AllSound ps ms = (m : PartialMatch) → Memᴰ m ms → IsSound ps m

-- What one key's memory holds, and nothing where there is none.
unfoldable pub memory_at : String → Dict String MatchMemory → MatchMemory
memory_at key memory = get_or (lookup key memory) []

memory_at-insert :
    (key : String) (m : MatchMemory) (memory : Dict String MatchMemory)
    → memory_at key (insert key m memory) ≡ m
unfolding memory_at
memory_at-insert key m memory = rw (lookup-insert_self key m memory) refl

AllSound-append :
    (ps : List TriplePattern) (ms ns : List PartialMatch)
    → AllSound ps ms
    → AllSound ps ns
    → AllSound ps (ms ++ ns)
unfolding AllSound
AllSound-append ps ms ns h k m there = elim (Memᴰ.append_cases ms there) [
  | inl a ↦ h m a
  | inr b ↦ k m b
]

join_pairs-AllSound :
    (ps qs : List TriplePattern) (ls rs : List PartialMatch)
    → AllSound ps ls
    → AllSound qs rs
    → AllSound (ps ++ qs) (join_pairs ls rs)
unfolding AllSound
join_pairs-AllSound ps qs ls rs hl hr m there =
    let (l, r, in_ls, in_rs, e) = mem-join_pairs ls rs m there in
    join_pair-IsSound ps qs l r m (hl l in_ls) (hr r in_rs) e

joined-AllSound :
    (ps qs : List TriplePattern) (node : BetaNode) (partial : Dict String (List PartialMatch))
    (r : NodeRegistry)
    → AllSound ps (values (memory_of node.left_key r))
    → AllSound qs (values (memory_of node.right_key r))
    → AllSound ps (get_or (lookup node.left_key partial) [])
    → AllSound qs (get_or (lookup node.right_key partial) [])
    → AllSound (ps ++ qs) (joined node partial r)
unfolding joined
joined-AllSound ps qs node partial r left right new_left new_right =
    AllSound-append (ps ++ qs) _ _ (join_pairs-AllSound ps qs _ _ new_left right)
      (join_pairs-AllSound ps qs _ _ left new_right)

module _ (node : BetaNode) (partial : Dict String (List PartialMatch)) (r : NodeRegistry)
    (left right m : PartialMatch) where
  mem-joined_left :
      Memᴰ left (get_or (lookup node.left_key partial) [])
      → Memᴰ right (values (memory_of node.right_key r))
      → join_pair left right ≡ some m
      → Memᴰ m (joined node partial r)
  unfolding joined
  mem-joined_left new there pair =
      Memᴰ.append_left _ (mem-join_pairs_of_mem _ _ left right m new there pair)

  mem-joined_right :
      Memᴰ left (values (memory_of node.left_key r))
      → Memᴰ right (get_or (lookup node.right_key partial) [])
      → join_pair left right ≡ some m
      → Memᴰ m (joined node partial r)
  unfolding joined
  mem-joined_right there new pair =
      Memᴰ.append_right _ (mem-join_pairs_of_mem _ _ left right m there new pair)

-- A join node stores and reports only matches that stand for the patterns of both its inputs,
-- where its inputs and its own memory hold only such matches.
pub join_beta-AllSound :
    (rendering : Rendering) (ps qs : List TriplePattern) (node : BetaNode)
    (partial : Dict String (List PartialMatch)) (r : NodeRegistry) (memory : MatchMemory)
    → lookup node.key r.beta_memory ≡ some memory
    → AllSound (ps ++ qs) (values memory)
    → AllSound ps (values (memory_of node.left_key r))
    → AllSound qs (values (memory_of node.right_key r))
    → AllSound ps (get_or (lookup node.left_key partial) [])
    → AllSound qs (get_or (lookup node.right_key partial) [])
    → (s : NodeRegistry) × (new_matches : List PartialMatch) × (join_beta rendering node partial r
        ≡ ok (s, new_matches))
      × AllSound (ps ++ qs) (values (memory_at node.key s.beta_memory))
      × AllSound (ps ++ qs) new_matches
unfolding AllSound
join_beta-AllSound rendering ps qs node partial r memory e old left right new_left new_right =
    let sound : AllSound (ps ++ qs) (joined node partial r) =
      joined-AllSound ps qs node partial r left right new_left new_right in
    (
      _,
      _,
      join_beta-ok rendering node partial r memory e,
      rw
          (memory_at-insert node.key (store_matches rendering (joined node partial r) memory).0
            r.beta_memory)
          (stored-all rendering (IsSound (ps ++ qs)) (joined node partial r) memory old sound),
      λ m there. sound m (mem-new_matches rendering (joined node partial r) memory m there).0,
    )

-- Pairs of which one side is new are all that a join has to look at: where each match of a memory is
-- under its own key, keys tell apart the matches in the memory and those that are joined, and every
-- pair of old matches that can be joined is in the memory, a join returns, and afterwards the memory
-- holds, for every pair of matches of its inputs that can be joined, one with the same facts,
-- bindings and depth as the joined one, each match under its own key.
pub join_beta_complete :
    (rendering : Rendering) (node : BetaNode) (partial : Dict String (List PartialMatch))
    (r : NodeRegistry) (memory : MatchMemory)
    → lookup node.key r.beta_memory ≡ some memory
    → IsKeyed rendering memory
    → TellsApart rendering (values memory ++ joined node partial r)
    → ((left right m : PartialMatch)
        → Memᴰ left (values (memory_of node.left_key r))
        → Memᴰ right (values (memory_of node.right_key r))
        → join_pair left right ≡ some m
        → Memᴰ left (get_or (lookup node.left_key partial) [])
          ⊎ (Memᴰ right (get_or (lookup node.right_key partial) []) ⊎ Holds rendering memory m))
    → (s : NodeRegistry) × (new_matches : List PartialMatch) × (join_beta rendering node partial r
        ≡ ok (s, new_matches))
      × IsKeyed rendering (memory_at node.key s.beta_memory)
      × ((left right m : PartialMatch)
          → Memᴰ left (values (memory_of node.left_key r))
          → Memᴰ right (values (memory_of node.right_key r))
          → join_pair left right ≡ some m
          → Holds rendering (memory_at node.key s.beta_memory) m)
join_beta_complete rendering node partial r memory e keyed tells covered =
    let after =
      memory_at-insert node.key (store_matches rendering (joined node partial r) memory).0
        r.beta_memory in
    let stored = stored-Holds rendering (joined node partial r) memory keyed tells in
    (
      _,
      _,
      join_beta-ok rendering node partial r memory e,
      rw after (store_matches-IsKeyed rendering (joined node partial r) memory keyed),
      λ left right m in_left in_right pair.
          rw after (elim (covered left right m in_left in_right pair) [
            | inl new ↦ stored m (mem-joined_left node partial r left right m new in_right pair)
            | inr (inl new) ↦
                stored m (mem-joined_right node partial r left right m in_left new pair)
            | inr (inr known) ↦
                store_matches-keeps_match rendering (joined node partial r) memory m known
          ]),
    )

one_fact : (f g : Fact) → ◌≡◌ {A = List Fact} (f ∷ []) (g ∷ []) → f ≡ g
one_fact f g h = ground (arith, h)

alpha_matches-AllSound :
    (p : TriplePattern) (facts : List Fact) → AllSound (p ∷ []) (alpha_matches p facts)
unfolding AllSound IsSound
alpha_matches-AllSound p facts m there =
    let (f, in_facts, same, here) = mem-alpha_matches p facts m there in
    (
      alpha_matches-NodupKeys p facts m there,
      λ q in_ps. (
        f,
        subst (λ fs. Memᴰ f fs) (sym same) (Memᴰ.head refl),
        subst (λ x. Instantiates x m.bindings f.triple) (sym (Memᴰ.eq_of_singleton in_ps)) here,
      ),
    )

-- An alpha node whose memory has right matches, each under its own key, returns and keeps it so, and
-- where keys tell apart the matches in it and those of the given facts, it afterwards holds, for each
-- given fact and all bindings under which the pattern stands for it, a match of this one fact, under
-- whose bindings the pattern stands for it and which those bindings extend.
pub match_alpha_complete :
    (rendering : Rendering) (node : AlphaNode) (facts : List Fact) (r : NodeRegistry)
    (memory : MatchMemory)
    → lookup node.key r.alpha_memory ≡ some memory
    → IsKeyed rendering memory
    → TellsApart rendering (values memory ++ alpha_matches node.condition.pattern facts)
    → AllSound (node.condition.pattern ∷ []) (values memory)
    → (s : NodeRegistry) × (new_matches : List PartialMatch) × (match_alpha rendering node facts r
        ≡ ok (s, new_matches))
      × AllSound (node.condition.pattern ∷ []) (values (memory_at node.key s.alpha_memory))
      × IsKeyed rendering (memory_at node.key s.alpha_memory)
      × ((f : Fact) (d : Dict String Node)
          → Memᴰ f facts
          → Instantiates node.condition.pattern d f.triple
          → (m : PartialMatch) × (m.facts ≡ f ∷ [])
            × Instantiates node.condition.pattern m.bindings f.triple
            × Extends m.bindings d
            × Holds rendering (memory_at node.key s.alpha_memory) m)
unfolding AllSound
match_alpha_complete rendering node facts r memory e keyed tells old =
    let p : TriplePattern = node.condition.pattern in
    let after =
      memory_at-insert node.key (store_matches rendering (alpha_matches p facts) memory).0
        r.alpha_memory in
    (
      _,
      _,
      match_alpha-ok rendering node facts r memory e,
      rw after (
          stored-all rendering (IsSound (p ∷ [])) (alpha_matches p facts) memory old
            (alpha_matches-AllSound p facts)),
      rw after (store_matches-IsKeyed rendering (alpha_matches p facts) memory keyed),
      λ f d in_facts here.
          let (m, there, same, ext) = alpha_matches_complete p facts f d in_facts here in
          let (g, _, same_g, stands) = mem-alpha_matches p facts m there in
          (
            m,
            same,
            subst (λ x. Instantiates p m.bindings x.triple) (one_fact g f (sym same_g ∙ same))
                stands,
            ext,
            rw after (stored-Holds rendering (alpha_matches p facts) memory keyed tells m there),
          ),
    )
