-- ===== src/Network/Initial.antt =====
-- network.py: the memories of a network that was just built, and after an eviction.
use rdflib_reasoning.Base.{
  String, string_eq, refl, subst, Option, none, some, List, [], ◌∷◌, inl, inr, Memᴰ, Bool-cases,
}
use mathlib.Core.List.Memᴰ
use rdflib_reasoning.Base.Dict.{Dict, values, lookup, erase, is_some, mem-values-erase}
use rdflib_reasoning.Rdf.{Rendering}
use rdflib_reasoning.Facts.{PartialMatch}
use rdflib_reasoning.Compiler.{CompiledRule, CompiledTripleCondition, CompiledPredicateCondition}
use rdflib_reasoning.Network.{
  AlphaNode, BetaNode, MatchMemory, NodeRegistry, setdefault, get_or_create_alpha,
  get_or_create_beta, get_or_create_predicate, add_terminal, stale_keys, delete_keys, evict_memory,
  evict_partial_matches_referencing, empty_registry,
}
use rdflib_reasoning.Network.Builder.{
  join_condition, join_conditions, build_join_chain, build_predicates, build_rule, build_rules,
}
use rdflib_reasoning.Network.Preserve.{AllStored, RegistryOf, AllStored-insert}

-- A memory that holds no match keeps any property.
module _ (P : PartialMatch → Type 0) where
  nothing_in : (m : PartialMatch) → Memᴰ m (values {K = String} []) → P m
  unfolding values
  nothing_in m there = elim there [ ]

  pub empty-RegistryOf : RegistryOf P empty_registry
  unfolding AllStored values
  empty-RegistryOf = record {
    alpha = λ memory there. elim there [ ];
    beta = λ memory there. elim there [ ];
  }

  setdefault-AllStored :
      (key : String) (d : Dict String MatchMemory)
      → AllStored P d
      → AllStored P (setdefault key [] d)
  unfolding setdefault
  setdefault-AllStored key d h = elim (Bool-cases (is_some (lookup key d))) [
    | inl e ↦ rw e h
    | inr e ↦ rw e (AllStored-insert P key [] d (λ m there. nothing_in m there) h)
  ]

  get_or_create_alpha-RegistryOf :
      (node : AlphaNode) (r : NodeRegistry)
      → RegistryOf P r
      → RegistryOf P (get_or_create_alpha node r).0
  unfolding get_or_create_alpha
  get_or_create_alpha-RegistryOf node r h = record {
    alpha = setdefault-AllStored node.key r.alpha_memory h.alpha;
    beta = h.beta;
  }

  get_or_create_beta-RegistryOf :
      (node : BetaNode) (r : NodeRegistry)
      → RegistryOf P r
      → RegistryOf P (get_or_create_beta node r).0
  unfolding get_or_create_beta
  get_or_create_beta-RegistryOf node r h = record {
    alpha = h.alpha;
    beta = setdefault-AllStored node.key r.beta_memory h.beta;
  }

  module _ (rendering : Rendering) where
    join_condition-RegistryOf :
        (condition : CompiledTripleCondition) (state : NodeRegistry × (Option String × List String))
        → RegistryOf P state.0
        → RegistryOf P (join_condition rendering condition state).0
    unfolding join_condition
    join_condition-RegistryOf condition (r, (none, names)) h = get_or_create_alpha-RegistryOf _ r h
    join_condition-RegistryOf condition (r, (some current, names)) h =
        get_or_create_beta-RegistryOf _ _ (get_or_create_alpha-RegistryOf _ r h)

    join_conditions-RegistryOf :
        (conditions : List CompiledTripleCondition)
        (state : NodeRegistry × (Option String × List String))
        → RegistryOf P state.0
        → RegistryOf P (join_conditions rendering conditions state).0
    unfolding join_conditions
    join_conditions-RegistryOf [] state h = h
    join_conditions-RegistryOf (condition ∷ conditions) state h =
        join_conditions-RegistryOf conditions (join_condition rendering condition state)
          (join_condition-RegistryOf condition state h)

    build_predicates-RegistryOf :
        (conditions : List CompiledPredicateCondition) (r : NodeRegistry)
        → RegistryOf P r
        → RegistryOf P (build_predicates rendering conditions r).0
    unfolding build_predicates get_or_create_predicate
    build_predicates-RegistryOf [] r h = h
    build_predicates-RegistryOf (condition ∷ conditions) r h =
        build_predicates-RegistryOf conditions _ record { alpha = h.alpha; beta = h.beta }

    build_rule-RegistryOf :
        (rule : CompiledRule) (r : NodeRegistry)
        → RegistryOf P r
        → RegistryOf P (build_rule rendering rule r).0
    unfolding build_rule build_join_chain add_terminal
    build_rule-RegistryOf rule r h =
        let built =
          build_predicates-RegistryOf rule.predicate_conditions _
            (join_conditions-RegistryOf rule.triple_conditions (r, (none, [])) h) in
        record { alpha = built.alpha; beta = built.beta }

    pub build_rules-RegistryOf :
        (rules : List CompiledRule) (r : NodeRegistry)
        → RegistryOf P r
        → RegistryOf P (build_rules rendering rules r).0
    unfolding build_rules
    build_rules-RegistryOf [] r h = h
    build_rules-RegistryOf (rule ∷ rules) r h =
        build_rules-RegistryOf rules _ (build_rule-RegistryOf rule r h)

  delete_keys-keeps :
      (ks : List String) (matches : MatchMemory)
      → ((m : PartialMatch) → Memᴰ m (values matches) → P m)
      → (m : PartialMatch) → Memᴰ m (values (delete_keys ks matches))
      → P m
  unfolding delete_keys
  delete_keys-keeps [] matches h = h
  delete_keys-keeps (k ∷ ks) matches h =
      delete_keys-keeps ks (erase k matches) (λ m there. h m (mem-values-erase k matches there))

  evict_memory-AllStored :
      (ids : List String) (d : Dict String MatchMemory)
      → AllStored P d
      → AllStored P (evict_memory ids d)
  unfolding evict_memory AllStored values
  evict_memory-AllStored ids [] h memory there m inside = elim there [ ]
  evict_memory-AllStored ids ((key, matches) ∷ d) h memory there m inside =
      elim (Memᴰ.cases_cons there) [
        | inl same ↦
            delete_keys-keeps (stale_keys ids matches) matches (h matches (Memᴰ.head refl)) m
              (subst (λ l. Memᴰ m (values l)) same inside)
        | inr later ↦
            evict_memory-AllStored ids d (λ other k. h other (Memᴰ.tail k)) memory later m inside
      ]

  -- Eviction only drops matches.
  pub evict-RegistryOf :
      (ids : List String) (r : NodeRegistry)
      → RegistryOf P r
      → RegistryOf P (evict_partial_matches_referencing ids r)
  unfolding evict_partial_matches_referencing
  evict-RegistryOf [] r h = h
  evict-RegistryOf (i ∷ ids) r h = record {
    alpha = evict_memory-AllStored (i ∷ ids) r.alpha_memory h.alpha;
    beta = evict_memory-AllStored (i ∷ ids) r.beta_memory h.beta;
  }
