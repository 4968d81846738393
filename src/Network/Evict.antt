-- ===== src/Network/Evict.antt =====
-- network.py: eviction of the matches of facts that left working memory.
use rdflib_reasoning.Base.{
  String, string_eq, string_dec, ◌≡◌, refl, sym, ◌∙◌, ap, Bool, false, Option, none, some, List, [],
  ◌∷◌, if◌then◌else◌, any, contains, arith,
}
use rdflib_reasoning.Base.Dict.{Dict, lookup, erase, NodupKeys, lookup-erase, get_or}
use rdflib_reasoning.Facts.{Fact, PartialMatch}
use rdflib_reasoning.Network.{
  MatchMemory, NodeRegistry, is_stale, stale_keys, delete_keys, evict_memory,
  evict_partial_matches_referencing,
}

lookup-delete_keys :
    (ks : List String) (m : MatchMemory) (k : String)
    → lookup k (delete_keys ks m) ≡ (if contains ks k then none else lookup k m)
unfolding delete_keys
lookup-delete_keys [] m k = refl
lookup-delete_keys (j ∷ ks) m k =
    ground (arith, lookup-delete_keys ks (erase j m) k, lookup-erase k j m)

-- Whether the match under a key is one to evict.
stale_at : List String → Option PartialMatch → Bool
stale_at ids none = false
stale_at ids (some m) = is_stale ids m

contains-stale_keys :
    (ids : List String) (m : MatchMemory) (k : String)
    → NodupKeys m
    → contains (stale_keys ids m) k ≡ stale_at ids (lookup k m)
unfolding stale_keys stale_at lookup
contains-stale_keys ids [] k u = refl
contains-stale_keys ids ((j, match) ∷ m) k (fresh, u) = elim (string_dec k j) [
  | yes same ↦
      let gone : lookup k m ≡ none = ap (λ x. lookup x m) same ∙ fresh in
      let rest : contains (stale_keys ids m) k ≡ false =
        contains-stale_keys ids m k u ∙ ap (stale_at ids) gone in
      ground (arith, same, rest)
  | no other ↦ ground (arith, other, contains-stale_keys ids m k u)
]

-- The match that a memory keeps under a key.
pub kept_match : List String → Option PartialMatch → Option PartialMatch
unfolding stale_at
kept_match ids o = if stale_at ids o then none else o

lookup-evict :
    (ids : List String) (m : MatchMemory) (k : String)
    → NodupKeys m
    → lookup k (delete_keys (stale_keys ids m) m) ≡ kept_match ids (lookup k m)
unfolding kept_match
lookup-evict ids m k u =
    lookup-delete_keys (stale_keys ids m) m k ∙ rw (contains-stale_keys ids m k u) refl

-- The match under a match key of the memory of a node.
unfoldable pub match_at : String → String → Dict String MatchMemory → Option PartialMatch
unfolding lookup
match_at node_key match_key memory = lookup match_key (get_or (lookup node_key memory) [])

unfoldable pub AllNodup : Dict String MatchMemory → Type 0
AllNodup memory = (key : String) → NodupKeys (get_or (lookup key memory) [])

lookup-evict_memory :
    (ids : List String) (memory : Dict String MatchMemory) (key : String)
    → get_or (lookup key (evict_memory ids memory)) []
      ≡ delete_keys (stale_keys ids (get_or (lookup key memory) [])) (get_or (lookup key memory) [])
unfolding evict_memory lookup stale_keys delete_keys
lookup-evict_memory ids [] key = refl
lookup-evict_memory ids ((k, m) ∷ memory) key = ground (arith, lookup-evict_memory ids memory key)

match_at-evict_memory :
    (ids : List String) (memory : Dict String MatchMemory) (key k : String)
    → AllNodup memory
    → match_at key k (evict_memory ids memory) ≡ kept_match ids (match_at key k memory)
unfolding AllNodup match_at
match_at-evict_memory ids memory key k u =
    ap (lookup k) (lookup-evict_memory ids memory key)
    ∙ lookup-evict ids (get_or (lookup key memory) []) k (u key)

none_stale : (facts : List Fact) → any (λ f. contains [] f.id) facts ≡ false
none_stale [] = refl
none_stale (f ∷ facts) = none_stale facts

kept_match-nil : (o : Option PartialMatch) → kept_match [] o ≡ o
unfolding kept_match stale_at is_stale
kept_match-nil none = refl
kept_match-nil (some m) = rw (none_stale m.facts) refl

-- Eviction removes from every memory exactly the matches that refer to one of the facts: a match
-- without such a fact stays under its key.
pub match_at-evict :
    (ids : List String) (r : NodeRegistry)
    → AllNodup r.alpha_memory
    → AllNodup r.beta_memory
    → (key k : String)
    → (match_at key k (evict_partial_matches_referencing ids r).alpha_memory
        ≡ kept_match ids (match_at key k r.alpha_memory))
      × (match_at key k (evict_partial_matches_referencing ids r).beta_memory
          ≡ kept_match ids (match_at key k r.beta_memory))
unfolding evict_partial_matches_referencing
match_at-evict [] r ua ub key k = (
  sym (kept_match-nil (match_at key k r.alpha_memory)),
  sym (kept_match-nil (match_at key k r.beta_memory)),
)
match_at-evict (i ∷ ids) r ua ub key k = (
  match_at-evict_memory (i ∷ ids) r.alpha_memory key k ua,
  match_at-evict_memory (i ∷ ids) r.beta_memory key k ub,
)
