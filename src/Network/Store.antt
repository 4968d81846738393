-- ===== src/Network/Store.antt =====
-- network.py: what storing matches in a memory does.
use rdflib_reasoning.Base.{
  String, string_eq, ◌≡◌, refl, Bool, true, false, some, List, [], ◌∷◌, ◌⊎◌, inl, inr, Memᴰ,
  if◌then◌else◌, arith, Bool-cases,
}
use mathlib.Core.List.Memᴰ
use rdflib_reasoning.Base.Dict.{Dict, values, lookup, insert, lookup-insert, mem-values-insert}
use rdflib_reasoning.Errors.{ok}
use rdflib_reasoning.Rdf.{Rendering}
use rdflib_reasoning.Facts.{Fact, PartialMatch}
use rdflib_reasoning.Network.{AlphaNode, BetaNode, MatchMemory, NodeRegistry}
use rdflib_reasoning.Network.Matching.{joined, alpha_matches}
use rdflib_reasoning.Network.Matcher.{
  partial_match_key, is_stored, store_match, store_matches, join_beta, match_alpha,
}

fresh-cases :
    (known : Bool) (m : PartialMatch) (ms : List PartialMatch) (n : PartialMatch)
    → Memᴰ n (if known then ms else m ∷ ms)
    → ((known ≡ false) × (n ≡ m)) ⊎ Memᴰ n ms
fresh-cases true m ms n there = inr there
fresh-cases false m ms n there = elim (Memᴰ.cases_cons there) [
  | inl same ↦ inl (refl, same)
  | inr later ↦ inr later
]

module _ (rendering : Rendering) where
  insert-is_stored :
      (m n : PartialMatch) (memory : MatchMemory)
      → is_stored rendering n memory ≡ true
      → is_stored rendering n (insert (partial_match_key rendering m) m memory) ≡ true
  unfolding is_stored
  insert-is_stored m n memory h =
      let at_n =
        lookup-insert (partial_match_key rendering n) (partial_match_key rendering m) m memory in
      ground (arith, h, at_n)

  store_match-keeps :
      (m n : PartialMatch) (memory : MatchMemory)
      → is_stored rendering n memory ≡ true
      → is_stored rendering n (store_match rendering m memory) ≡ true
  unfolding store_match
  store_match-keeps m n memory h = elim (Bool-cases (is_stored rendering m memory)) [
    | inl e ↦ rw e h
    | inr e ↦ rw e (insert-is_stored m n memory h)
  ]

  -- What the memory holds afterwards, it held before or was told to store; and the matches that
  -- are reported as new were to be stored and had no entry before.
  pub mem-store_matches :
      (ms : List PartialMatch) (memory : MatchMemory) (n : PartialMatch)
      → Memᴰ n (values (store_matches rendering ms memory).0)
      → Memᴰ n (values memory) ⊎ Memᴰ n ms
  unfolding store_matches store_match
  mem-store_matches [] memory n there = inl there
  mem-store_matches (m ∷ ms) memory n there = elim (mem-store_matches ms _ n there) [
    | inr later ↦ inr (Memᴰ.tail later)
    | inl before ↦ elim (Bool-cases (is_stored rendering m memory)) [
      | inl e ↦ inl (rw e at before)
      | inr e ↦ elim (mem-values-insert (partial_match_key rendering m) m memory (rw e at before)) [
        | inl same ↦ inr (Memᴰ.head same)
        | inr old ↦ inl old
      ]
    ]
  ]

  still_fresh :
      (m n : PartialMatch) (memory : MatchMemory)
      → is_stored rendering n (store_match rendering m memory) ≡ false
      → is_stored rendering n memory ≡ false
  still_fresh m n memory fresh = elim (Bool-cases (is_stored rendering n memory)) [
    | inl e ↦ cc (store_match-keeps m n memory e, fresh)
    | inr e ↦ e
  ]

  pub mem-new_matches :
      (ms : List PartialMatch) (memory : MatchMemory) (n : PartialMatch)
      → Memᴰ n (store_matches rendering ms memory).1
      → Memᴰ n ms × (is_stored rendering n memory ≡ false)
  unfolding store_matches
  mem-new_matches [] memory n there = elim there [ ]
  mem-new_matches (m ∷ ms) memory n there =
      elim (fresh-cases (is_stored rendering m memory) m _ n there) [
        | inl (e, same) ↦ (Memᴰ.head same, rw same e)
        | inr rest ↦
            let (later, fresh) = mem-new_matches ms (store_match rendering m memory) n rest in
            (Memᴰ.tail later, still_fresh m n memory fresh)
      ]

  pub join_beta-ok :
      (node : BetaNode) (partial : Dict String (List PartialMatch)) (r : NodeRegistry)
      (memory : MatchMemory)
      → lookup node.key r.beta_memory ≡ some memory
      → join_beta rendering node partial r
        ≡ ok (
          record r {
            beta_memory =
                insert node.key
                  (store_matches rendering (joined node partial r) memory).0
                  r.beta_memory;
          },
          (store_matches rendering (joined node partial r) memory).1,
        )
  unfolding join_beta
  join_beta-ok node partial r memory e = ground (arith, e)

  pub match_alpha-ok :
      (node : AlphaNode) (facts : List Fact) (r : NodeRegistry) (memory : MatchMemory)
      → lookup node.key r.alpha_memory ≡ some memory
      → match_alpha rendering node facts r
        ≡ ok (
          record r {
            alpha_memory =
                insert node.key
                  (store_matches rendering (alpha_matches node.condition.pattern facts) memory).0
                  r.alpha_memory;
          },
          (store_matches rendering (alpha_matches node.condition.pattern facts) memory).1,
        )
  unfolding match_alpha
  match_alpha-ok node facts r memory e = ground (arith, e)

  -- Storing keeps what is true of every match.
  pub stored-all :
      (P : PartialMatch → Type 0) (ms : List PartialMatch) (memory : MatchMemory)
      → ((m : PartialMatch) → Memᴰ m (values memory) → P m)
      → ((m : PartialMatch) → Memᴰ m ms → P m)
      → (m : PartialMatch) → Memᴰ m (values (store_matches rendering ms memory).0)
      → P m
  stored-all P ms memory old new m there = elim (mem-store_matches ms memory m there) [
    | inl before ↦ old m before
    | inr now ↦ new m now
  ]
