-- ===== src/Network/Preserve.antt =====
-- network.py: what one pass of the network keeps true of all partial matches.
use rdflib_reasoning.Base.{
  String, string_eq, ◌≡◌, refl, sym, subst, Bool, true, false, some, List, [], ◌∷◌, inl, inr, Memᴰ,
  map, if◌then◌else◌, Option-cases,
}
use mathlib.Core.List.Memᴰ
use rdflib_reasoning.Base.Dict.{
  Dict, values, lookup, insert, get_or, mem-values_of_lookup, mem-values-insert,
}
use rdflib_reasoning.Errors.{Ensures, Ensures->>=, Ensures-always, Ensures-option}
use rdflib_reasoning.Rdf.{Node, Rendering}
use rdflib_reasoning.Rules.{TriplePattern}
use rdflib_reasoning.Facts.{Fact, PartialMatch}
use rdflib_reasoning.Compiler.Bindings.{List-cases}
use rdflib_reasoning.Consequents.{ActionInstance}
use rdflib_reasoning.Network.{AlphaNode, BetaNode, TerminalNode, MatchMemory, NodeRegistry}
use rdflib_reasoning.Network.Matching.{join_pair, join_pairs, memory_of, joined, alpha_matches}
use rdflib_reasoning.Network.Store.{mem-new_matches, stored-all}
use rdflib_reasoning.Network.Memories.{mem-join_pairs}
use rdflib_reasoning.Network.Matcher.{
  PredicateHook, FactOrTriple, root_matches, bound_arguments, apply_hook, apply_predicate,
  apply_predicates, action_for, later_keys, actions_for_terminal, actions_for_terminals, normalize,
  match_alpha, join_beta, match_alphas, join_betas, match_terminals,
}

abbrev pub empty_match : PartialMatch
empty_match = record { facts = []; bindings = []; depth = 0 }

-- Every match of every list that a dict holds.
unfoldable pub AllIn : (PartialMatch → Type 0) → Dict String (List PartialMatch) → Type 0
AllIn P d = (ms : List PartialMatch) → Memᴰ ms (values d) → (m : PartialMatch) → Memᴰ m ms → P m

unfoldable pub AllStored : (PartialMatch → Type 0) → Dict String MatchMemory → Type 0
AllStored P d =
    (memory : MatchMemory)
    → Memᴰ memory (values d)
    → (m : PartialMatch) → Memᴰ m (values memory)
    → P m

pub record RegistryOf (P : PartialMatch → Type 0) (r : NodeRegistry) : Type 0 where
  pub alpha : AllStored P r.alpha_memory
  pub beta : AllStored P r.beta_memory

-- The action is what a terminal makes of a match with the property.
pub record ComesFrom (P : PartialMatch → Type 0) (terminals : List TerminalNode)
    (a : ActionInstance) : Type 0 where
  pub terminal : TerminalNode
  pub match : PartialMatch
  pub there : Memᴰ terminal terminals
  pub holds : P match
  pub same : a ≡ action_for terminal match

module _ (P : PartialMatch → Type 0) where
  AllIn-insert :
      (key : String) (ms : List PartialMatch) (d : Dict String (List PartialMatch))
      → ((m : PartialMatch) → Memᴰ m ms → P m)
      → AllIn P d
      → AllIn P (insert key ms d)
  unfolding AllIn
  AllIn-insert key ms d new old ns there m in_ns = elim (mem-values-insert key ms d there) [
    | inl same ↦ new m (subst (λ l. Memᴰ m l) same in_ns)
    | inr before ↦ old ns before m in_ns
  ]

  AllIn-get :
      (key : String) (d : Dict String (List PartialMatch))
      → AllIn P d
      → (m : PartialMatch) → Memᴰ m (get_or (lookup key d) [])
      → P m
  unfolding AllIn
  AllIn-get key d h m there = elim (Option-cases (lookup key d)) [
    | inl e ↦ absurd (Memᴰ.not-nil (rw e at there))
    | inr (ms, e) ↦ h ms (mem-values_of_lookup key d e) m (rw e at there)
  ]

  pub AllStored-insert :
      (key : String) (memory : MatchMemory) (d : Dict String MatchMemory)
      → ((m : PartialMatch) → Memᴰ m (values memory) → P m)
      → AllStored P d
      → AllStored P (insert key memory d)
  unfolding AllStored
  AllStored-insert key memory d new old other there m inside =
      elim (mem-values-insert key memory d there) [
        | inl same ↦ new m (subst (λ l. Memᴰ m (values l)) same inside)
        | inr before ↦ old other before m inside
      ]

  AllStored-lookup :
      (key : String) (d : Dict String MatchMemory) {memory : MatchMemory}
      → AllStored P d
      → lookup key d ≡ some memory
      → (m : PartialMatch) → Memᴰ m (values memory)
      → P m
  unfolding AllStored
  AllStored-lookup key d h e = h _ (mem-values_of_lookup key d e)

  memory_of-all :
      (key : String) (r : NodeRegistry)
      → RegistryOf P r
      → (m : PartialMatch) → Memᴰ m (values (memory_of key r))
      → P m
  unfolding memory_of values
  memory_of-all key r h m there = elim (Option-cases (lookup key r.alpha_memory)) [
    | inr (memory, e) ↦ AllStored-lookup key r.alpha_memory h.alpha e m (rw e at there)
    | inl e ↦ elim (Option-cases (lookup key r.beta_memory)) [
      | inr (memory, f) ↦ AllStored-lookup key r.beta_memory h.beta f m (rw (e, f) at there)
      | inl f ↦ absurd (Memᴰ.not-nil (rw (e, f) at there))
    ]
  ]

  kept :
      (passes : Bool) (m : PartialMatch) (ns : List PartialMatch)
      → P m
      → ((n : PartialMatch) → Memᴰ n ns → P n)
      → (n : PartialMatch) → Memᴰ n (if passes then m ∷ ns else ns)
      → P n
  kept false m ns here later n there = later n there
  kept true m ns here later n there = elim (Memᴰ.cases_cons there) [
    | inl same ↦ subst P (sym same) here
    | inr rest ↦ later n rest
  ]

  apply_hook-keeps :
      (hook : PredicateHook) (arguments : List Node) (terminal : TerminalNode)
      (ms : List PartialMatch)
      → ((m : PartialMatch) → Memᴰ m ms → P m)
      → Ensures (λ ns. (m : PartialMatch) → Memᴰ m ns → P m) (apply_hook hook arguments terminal ms)
  unfolding apply_hook
  apply_hook-keeps hook arguments terminal [] h = λ m there. elim there [ ]
  apply_hook-keeps hook arguments terminal (m ∷ ms) h =
      Ensures->>= (λ _. Unit {0}) _ (bound_arguments arguments m.bindings) _
        (Ensures-always _ (bound_arguments arguments m.bindings) (λ _. tt))
        (λ values _.
          Ensures->>= (λ _. Unit {0}) _ (hook terminal values) _
            (Ensures-always _ (hook terminal values) (λ _. tt))
            (λ passes _.
              Ensures->>= (λ ns. (n : PartialMatch) → Memᴰ n ns → P n) _
                (apply_hook hook arguments terminal ms) _
                (apply_hook-keeps hook arguments terminal ms (λ n there. h n (Memᴰ.tail there)))
                (λ ns k. kept passes m ns (h m (Memᴰ.head refl)) k)))

  apply_predicates-keeps :
      (predicates : Dict String PredicateHook) (r : NodeRegistry) (terminal : TerminalNode)
      (keys : List String) (ms : List PartialMatch)
      → ((m : PartialMatch) → Memᴰ m ms → P m)
      → Ensures
          (λ ns. (m : PartialMatch) → Memᴰ m ns → P m)
          (apply_predicates predicates r terminal keys ms)
  unfolding apply_predicates apply_predicate
  apply_predicates-keeps predicates r terminal [] ms h = h
  apply_predicates-keeps predicates r terminal (key ∷ keys) ms h =
      Ensures-option _ (lookup key r.predicate_nodes) _ _ tt (λ node _.
        Ensures->>= (λ ns. (m : PartialMatch) → Memᴰ m ns → P m) _
          (apply_predicate predicates node ms terminal) _
          (Ensures-option _ (lookup node.condition.predicate predicates) _ _ tt
            (λ hook _. apply_hook-keeps hook node.condition.arguments terminal ms h))
          (λ ns k. apply_predicates-keeps predicates r terminal keys ns k))

  mapped :
      (terminals : List TerminalNode) (terminal : TerminalNode) (ms : List PartialMatch)
      → Memᴰ terminal terminals
      → ((m : PartialMatch) → Memᴰ m ms → P m)
      → (a : ActionInstance) → Memᴰ a (map (action_for terminal) ms)
      → ComesFrom P terminals a
  mapped terminals terminal [] there h a inside = elim inside [ ]
  mapped terminals terminal (m ∷ ms) there h a inside = elim (Memᴰ.cases_cons inside) [
    | inl same ↦ record {
      terminal = terminal;
      match = m;
      there = there;
      holds = h m (Memᴰ.head refl);
      same = same;
    }
    | inr later ↦ mapped terminals terminal ms there (λ n k. h n (Memᴰ.tail k)) a later
  ]

  root_matches-all :
      (terminal : TerminalNode) (found : Dict String (List PartialMatch))
      → P empty_match
      → AllIn P found
      → (m : PartialMatch) → Memᴰ m (root_matches terminal found)
      → P m
  unfolding root_matches
  root_matches-all terminal found start h m there = elim (List-cases terminal.input_keys) [
    | inl e ↦ subst P (sym (Memᴰ.eq_of_singleton (rw e at there))) start
    | inr (root, keys, e) ↦ AllIn-get root found h m (rw e at there)
  ]

  actions_for_terminal-ComesFrom :
      (predicates : Dict String PredicateHook) (r : NodeRegistry) (terminals : List TerminalNode)
      (terminal : TerminalNode) (found : Dict String (List PartialMatch))
      → Memᴰ terminal terminals
      → P empty_match
      → AllIn P found
      → Ensures
          (λ actions. (a : ActionInstance) → Memᴰ a actions → ComesFrom P terminals a)
          (actions_for_terminal predicates r terminal found)
  unfolding actions_for_terminal
  actions_for_terminal-ComesFrom predicates r terminals terminal found there start h =
      Ensures->>= (λ ns. (m : PartialMatch) → Memᴰ m ns → P m) _
        (apply_predicates predicates r terminal (later_keys terminal.input_keys)
          (root_matches terminal found))
        _
        (apply_predicates-keeps predicates r terminal (later_keys terminal.input_keys)
          (root_matches terminal found) (root_matches-all terminal found start h))
        (λ ns k. mapped terminals terminal ns there k)

  actions_for_terminals-ComesFrom :
      (predicates : Dict String PredicateHook) (r : NodeRegistry)
      (terminals some_of : List TerminalNode) (found : Dict String (List PartialMatch))
      → ((t : TerminalNode) → Memᴰ t some_of → Memᴰ t terminals)
      → P empty_match
      → AllIn P found
      → Ensures
          (λ actions. (a : ActionInstance) → Memᴰ a actions → ComesFrom P terminals a)
          (actions_for_terminals predicates r some_of found)
  unfolding actions_for_terminals
  actions_for_terminals-ComesFrom predicates r terminals [] found sub start h =
      λ a there. elim there [ ]
  actions_for_terminals-ComesFrom predicates r terminals (t ∷ ts) found sub start h =
      Ensures->>= (λ actions. (a : ActionInstance) → Memᴰ a actions → ComesFrom P terminals a) _
        (actions_for_terminal predicates r t found) _
        (actions_for_terminal-ComesFrom predicates r terminals t found (sub t (Memᴰ.head refl))
          start h)
        (λ first k.
          Ensures->>= (λ actions. (a : ActionInstance) → Memᴰ a actions → ComesFrom P terminals a) _
            (actions_for_terminals predicates r ts found) _
            (actions_for_terminals-ComesFrom predicates r terminals ts found
              (λ u there. sub u (Memᴰ.tail there)) start h)
            (λ others l a there. elim (Memᴰ.append_cases first there) [
              | inl now ↦ k a now
              | inr later ↦ l a later
            ]))

-- A property that the matches of single facts have and that joins keep, in one pass.
module _ (P : PartialMatch → Type 0) (rendering : Rendering) where
  match_alphas-keeps :
      (nodes : Dict String AlphaNode) (facts : List Fact) (r : NodeRegistry)
      (found : Dict String (List PartialMatch))
      → ((p : TriplePattern) (m : PartialMatch) → Memᴰ m (alpha_matches p facts) → P m)
      → RegistryOf P r
      → AllIn P found
      → Ensures
          (λ x. RegistryOf P x.0 × AllIn P x.1)
          (match_alphas rendering nodes facts (r, found))
  unfolding match_alphas match_alpha
  match_alphas-keeps [] facts r found alpha h k = (h, k)
  match_alphas-keeps ((key, node) ∷ nodes) facts r found alpha h k =
      Ensures->>= (λ x. RegistryOf P x.0 × ((m : PartialMatch) → Memᴰ m x.1 → P m)) _
        (match_alpha rendering node facts r) _
        (Ensures-option _ (lookup node.key r.alpha_memory) _ _ tt (λ memory e. (
          record {
            alpha =
                AllStored-insert P node.key _ r.alpha_memory
                  (stored-all rendering P (alpha_matches node.condition.pattern facts) memory
                    (AllStored-lookup P node.key r.alpha_memory h.alpha e)
                    (alpha node.condition.pattern))
                  h.alpha;
            beta = h.beta;
          },
          λ m there.
              alpha node.condition.pattern m
                (mem-new_matches rendering (alpha_matches node.condition.pattern facts) memory m
                  there).0,
        )))
        (λ x l.
          match_alphas-keeps nodes facts x.0 (insert key x.1 found) alpha l.0
            (AllIn-insert P key x.1 found l.1 k))

  module _
      (joins : (left right m : PartialMatch)
        → P left
        → P right
        → join_pair left right ≡ some m
        → P m) where
    join_pairs-keeps :
        (ls rs : List PartialMatch)
        → ((m : PartialMatch) → Memᴰ m ls → P m)
        → ((m : PartialMatch) → Memᴰ m rs → P m)
        → (m : PartialMatch) → Memᴰ m (join_pairs ls rs)
        → P m
    join_pairs-keeps ls rs h k m there =
        let (l, r, in_ls, in_rs, e) = mem-join_pairs ls rs m there in
        joins l r m (h l in_ls) (k r in_rs) e

    joined-keeps :
        (node : BetaNode) (found : Dict String (List PartialMatch)) (r : NodeRegistry)
        → RegistryOf P r
        → AllIn P found
        → (m : PartialMatch) → Memᴰ m (joined node found r)
        → P m
    unfolding joined
    joined-keeps node found r h k m there = elim (Memᴰ.append_cases _ there) [
      | inl new_left ↦
          join_pairs-keeps _ _ (AllIn-get P node.left_key found k)
            (memory_of-all P node.right_key r h) m new_left
      | inr new_right ↦
          join_pairs-keeps _ _ (memory_of-all P node.left_key r h)
            (AllIn-get P node.right_key found k) m new_right
    ]

    join_betas-keeps :
        (nodes : Dict String BetaNode) (r : NodeRegistry) (found : Dict String (List PartialMatch))
        → RegistryOf P r
        → AllIn P found
        → Ensures (λ x. RegistryOf P x.0 × AllIn P x.1) (join_betas rendering nodes (r, found))
    unfolding join_betas join_beta
    join_betas-keeps [] r found h k = (h, k)
    join_betas-keeps ((key, node) ∷ nodes) r found h k =
        Ensures->>= (λ x. RegistryOf P x.0 × ((m : PartialMatch) → Memᴰ m x.1 → P m)) _
          (join_beta rendering node found r) _
          (Ensures-option _ (lookup node.key r.beta_memory) _ _ tt (λ memory e. (
            record {
              alpha = h.alpha;
              beta =
                  AllStored-insert P node.key _ r.beta_memory
                    (stored-all rendering P (joined node found r) memory
                      (AllStored-lookup P node.key r.beta_memory h.beta e)
                      (joined-keeps node found r h k))
                    h.beta;
            },
            λ m there.
                joined-keeps node found r h k m
                  (mem-new_matches rendering (joined node found r) memory m there).0,
          )))
          (λ x l.
            join_betas-keeps nodes x.0 (insert key x.1 found) l.0
              (AllIn-insert P key x.1 found l.1 k))

    nothing_found : AllIn P []
    unfolding AllIn values
    nothing_found ms there = elim there [ ]

    -- In a pass over facts whose single matches have the property, the memories keep it, and each
    -- action is of a terminal and of a match that has it.
    pub match_terminals-keeps :
        (predicates : Dict String PredicateHook) (terminals : List TerminalNode)
        (facts : List FactOrTriple) (r : NodeRegistry)
        → ((p : TriplePattern) (m : PartialMatch)
            → Memᴰ m (alpha_matches p (map (normalize rendering) facts))
            → P m)
        → P empty_match
        → RegistryOf P r
        → Ensures
            (λ x. RegistryOf P x.0 × ((a : ActionInstance) → Memᴰ a x.1 → ComesFrom P terminals a))
            (match_terminals rendering predicates terminals facts r)
    unfolding match_terminals
    match_terminals-keeps predicates terminals facts r alpha start h =
        Ensures->>= (λ x. RegistryOf P x.0 × AllIn P x.1) _
          (match_alphas rendering r.alpha_nodes (map (normalize rendering) facts) (r, [])) _
          (match_alphas-keeps r.alpha_nodes (map (normalize rendering) facts) r [] alpha h
            nothing_found)
          (λ alphas k.
            Ensures->>= (λ x. RegistryOf P x.0 × AllIn P x.1) _
              (join_betas rendering r.beta_nodes alphas) _
              (join_betas-keeps r.beta_nodes alphas.0 alphas.1 k.0 k.1)
              (λ betas l.
                Ensures->>=
                  (λ actions. (a : ActionInstance) → Memᴰ a actions → ComesFrom P terminals a) _
                  (actions_for_terminals predicates betas.0 terminals betas.1) _
                  (actions_for_terminals-ComesFrom P predicates betas.0 terminals terminals betas.1
                    (λ _ there. there) start l.1)
                  (λ actions n. (l.0, n))))
