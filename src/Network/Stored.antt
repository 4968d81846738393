-- ===== src/Network/Stored.antt =====
-- network.py: that storing a match does not lose it, where keys tell the matches apart.
use rdflib_reasoning.Base.{
  String, string_eq, string_dec, ◌≡◌, refl, sym, subst, ◌∙◌, ap, some, List, [], ◌∷◌, ◌++◌, inl,
  inr, Memᴰ, arith, Bool-cases, Option-cases,
}
use mathlib.Core.List.Memᴰ
use rdflib_reasoning.Base.Dict.{
  values, lookup, lookup-insert, lookup-insert_self, lookup-nil, mem-values_of_lookup,
}
use rdflib_reasoning.Rdf.{Rendering}
use rdflib_reasoning.Facts.{PartialMatch}
use rdflib_reasoning.Network.{MatchMemory}
use rdflib_reasoning.Network.Alpha.{Extends}
use rdflib_reasoning.Network.Matching.{fact_ids}
use rdflib_reasoning.Network.Matcher.{partial_match_key, is_stored, store_match, store_matches}
use rdflib_reasoning.Network.Store.{mem-store_matches}

-- The same facts in the same order, the same bindings, and the same depth.
pub record SameMatch (m n : PartialMatch) : Type 0 where
  pub ids : fact_ids m ≡ fact_ids n
  pub bound : Extends m.bindings n.bindings
  pub bound_back : Extends n.bindings m.bindings
  pub depth : m.depth ≡ n.depth

pub SameMatch-refl : (m : PartialMatch) → SameMatch m m
unfolding Extends
SameMatch-refl m = record { ids = refl; bound = λ x v h. h; bound_back = λ x v h. h; depth = refl }

module _ (rendering : Rendering) where
  -- Each match is stored under its own key.
  unfoldable pub IsKeyed : MatchMemory → Type 0
  IsKeyed memory =
      (key : String) (n : PartialMatch)
      → lookup key memory ≡ some n
      → key ≡ partial_match_key rendering n

  -- Matches of some list that have the same key are the same.
  unfoldable pub TellsApart : List PartialMatch → Type 0
  TellsApart ms =
      (m n : PartialMatch)
      → Memᴰ m ms
      → Memᴰ n ms
      → partial_match_key rendering m ≡ partial_match_key rendering n
      → SameMatch m n

  -- The memory has the match, under the key of the entry.
  unfoldable pub Holds : MatchMemory → PartialMatch → Type 0
  Holds memory m =
      (n : PartialMatch) × (lookup (partial_match_key rendering n) memory ≡ some n) × SameMatch m n

  pub nothing-IsKeyed : IsKeyed []
  unfolding IsKeyed
  nothing-IsKeyed key n h = cc (rw (lookup-nil key) at h)

  store_match-IsKeyed :
      (m : PartialMatch) (memory : MatchMemory)
      → IsKeyed memory
      → IsKeyed (store_match rendering m memory)
  unfolding IsKeyed store_match
  store_match-IsKeyed m memory keyed key n h = elim (Bool-cases (is_stored rendering m memory)) [
    | inl e ↦ keyed key n (rw e at h)
    | inr e ↦ elim (string_dec key (partial_match_key rendering m)) [
      | yes same ↦
          let at : n ≡ m =
            ground
              (arith, h, e, same, lookup-insert key (partial_match_key rendering m) m memory) in
          same ∙ ap (partial_match_key rendering) (sym at)
      | no other ↦
          keyed key n (
            ground (arith, h, e, other, lookup-insert key (partial_match_key rendering m) m memory))
    ]
  ]

  store_match-keeps_match :
      (m n : PartialMatch) (memory : MatchMemory)
      → Holds memory n
      → Holds (store_match rendering m memory) n
  unfolding Holds store_match is_stored
  store_match-keeps_match m n memory (k, there, same) =
      elim (Bool-cases (is_stored rendering m memory)) [
        | inl e ↦ (k, rw e there, same)
        | inr e ↦ (
          k,
          ground (
            arith,
            e,
            there,
            lookup-insert (partial_match_key rendering k) (partial_match_key rendering m) m memory,
          ),
          same,
        )
      ]

  store_match-Holds :
      (m : PartialMatch) (memory : MatchMemory)
      → IsKeyed memory
      → ((n : PartialMatch)
          → Memᴰ n (values memory)
          → partial_match_key rendering m ≡ partial_match_key rendering n
          → SameMatch m n)
      → Holds (store_match rendering m memory) m
  unfolding Holds IsKeyed store_match is_stored
  store_match-Holds m memory keyed tells =
      let key : String = partial_match_key rendering m in
      elim (Option-cases (lookup key memory)) [
        | inl e ↦ (m, ground (arith, e, lookup-insert_self key m memory), SameMatch-refl m)
        | inr (n, e) ↦
            let same : key ≡ partial_match_key rendering n = keyed key n e in
            (n, ground (arith, e, same), tells n (mem-values_of_lookup key memory e) same)
      ]

  -- Storing matches that keys tell apart, from each other and from those that are there, keeps what
  -- the memory held, and leaves it with each of them.
  pub store_matches-IsKeyed :
      (ms : List PartialMatch) (memory : MatchMemory)
      → IsKeyed memory
      → IsKeyed (store_matches rendering ms memory).0
  unfolding store_matches
  store_matches-IsKeyed [] memory keyed = keyed
  store_matches-IsKeyed (m ∷ ms) memory keyed =
      store_matches-IsKeyed ms (store_match rendering m memory) (store_match-IsKeyed m memory keyed)

  pub store_matches-keeps_match :
      (ms : List PartialMatch) (memory : MatchMemory) (n : PartialMatch)
      → Holds memory n
      → Holds (store_matches rendering ms memory).0 n
  unfolding store_matches
  store_matches-keeps_match [] memory n h = h
  store_matches-keeps_match (m ∷ ms) memory n h =
      store_matches-keeps_match ms (store_match rendering m memory) n
        (store_match-keeps_match m n memory h)

  module _ (all : List PartialMatch) (tells : TellsApart all) where
    pub store_matches-Holds :
        (ms : List PartialMatch) (memory : MatchMemory)
        → IsKeyed memory
        → ((n : PartialMatch) → Memᴰ n (values memory) → Memᴰ n all)
        → ((n : PartialMatch) → Memᴰ n ms → Memᴰ n all)
        → (m : PartialMatch) → Memᴰ m ms
        → Holds (store_matches rendering ms memory).0 m
    unfolding store_matches TellsApart
    store_matches-Holds [] memory keyed old new m there = absurd (Memᴰ.not-nil there)
    store_matches-Holds (n ∷ ms) memory keyed old new m there = elim (Memᴰ.cases_cons there) [
      | inl same ↦ store_matches-keeps_match ms (store_match rendering n memory) m (
          subst (Holds (store_match rendering n memory)) (sym same) (
            store_match-Holds n memory keyed
              (λ k inside. tells n k (new n (Memᴰ.head refl)) (old k inside))))
      | inr later ↦
          store_matches-Holds ms (store_match rendering n memory)
            (store_match-IsKeyed n memory keyed)
            (λ k inside. elim (mem-store_matches rendering (n ∷ []) memory k inside) [
              | inl before ↦ old k before
              | inr now ↦
                  new k
                    (subst (λ x. Memᴰ x (n ∷ ms)) (sym (Memᴰ.eq_of_singleton now)) (Memᴰ.head refl))
            ])
            (λ k inside. new k (Memᴰ.tail inside)) m later
    ]

  -- A memory and matches to store, told apart as one list.
  pub stored-Holds :
      (ms : List PartialMatch) (memory : MatchMemory)
      → IsKeyed memory
      → TellsApart (values memory ++ ms)
      → (m : PartialMatch) → Memᴰ m ms
      → Holds (store_matches rendering ms memory).0 m
  stored-Holds ms memory keyed tells =
      store_matches-Holds (values memory ++ ms) tells ms memory keyed (λ n. Memᴰ.append_left _)
        (λ n. Memᴰ.append_right (values memory))
