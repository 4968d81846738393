-- ===== src/Rulesets/Safe.antt =====
-- rules.py and rulesets: rules that use no variable which their patterns do not bind.
use rdflib_reasoning.Base.{
  String, string_eq, ◌≡◌, refl, sym, subst, ◌∙◌, Bool, true, ◌&&◌, some, List, [], ◌∷◌, ◌⊎◌, inl,
  inr, Memᴰ, all, contains, arith, ◌==◌, all-mem, contains-append, Bool-cases,
}
use rdflib_reasoning.Base.Dict.{Dict, lookup}
use rdflib_reasoning.Errors.{ok, is_ok}
use rdflib_reasoning.Rdf.{Node, variable, uri_ref, b_node, literal, Triple}
use rdflib_reasoning.Rules.{
  TriplePattern, RuleCondition, triple_condition, predicate_condition, RuleConsequent,
  triple_consequent, callback_consequent, contradiction_consequent, Rule,
}
use rdflib_reasoning.Facts.{PartialMatch}
use rdflib_reasoning.Compiler.{required_variables, compile_rule}
use rdflib_reasoning.Compiler.Bindings.{pattern_variables, is_covered, compile_rule-is_ok}
use rdflib_reasoning.Network.Alpha.{value_of, Instantiates}
use rdflib_reasoning.Network.Join.{IsSound}
use rdflib_reasoning.Engine.{resolve_term, resolve_callback_arguments, instantiate_triple}
use rdflib_reasoning.Engine.Terms.{instantiate_triple_total}

-- The terms that a consequent has resolved when its rule fires.
unfoldable pub terms_of : RuleConsequent → List Node
terms_of (triple_consequent p) = p.subject ∷ p.predicate ∷ p.object ∷ []
terms_of (callback_consequent callback arguments) = arguments
terms_of (contradiction_consequent category detail arguments) = arguments

unfoldable pub head_covered : List String → RuleConsequent → Bool
unfolding terms_of required_variables
head_covered names consequent = all (contains names) (required_variables (terms_of consequent))

-- Every variable of the head and of a predicate condition occurs in a pattern of the body.
unfoldable pub is_safe : Rule → Bool
unfolding head_covered is_covered pattern_variables
is_safe rule =
    all (is_covered (pattern_variables rule.body)) rule.body
    && all (head_covered (pattern_variables rule.body)) rule.head

-- The triple patterns of a body.
unfoldable pub body_patterns : List RuleCondition → List TriplePattern
body_patterns [] = []
body_patterns (triple_condition p ∷ body) = p ∷ body_patterns body
body_patterns (predicate_condition predicate arguments ∷ body) = body_patterns body

-- Bindings that give every name a value.
BindsAll : List String → Dict String Node → Type 0
BindsAll names b = (x : String) → contains names x ≡ true → (v : Node) × (lookup x b ≡ some v)

variable_bound :
    (term node : Node) (terms : List Node) (b : Dict String Node) (x : String)
    → value_of term b ≡ some node
    → contains (required_variables (term ∷ terms)) x ≡ true
    → ((v : Node) × (lookup x b ≡ some v)) ⊎ (contains (required_variables terms) x ≡ true)
unfolding value_of required_variables
variable_bound (variable y) node terms b x h there = elim (Bool-cases (x == y)) [
  | inl same ↦ inl (node, subst (λ k. lookup k b ≡ some node) (sym (ground (arith, same))) h)
  | inr other ↦ inr (ground (arith, there, other))
]
variable_bound (uri_ref i) node terms b x h there = inr there
variable_bound (b_node l) node terms b x h there = inr there
variable_bound (literal l d t) node terms b x h there = inr there

pattern_bound :
    (p : TriplePattern) (b : Dict String Node) (t : Triple)
    → Instantiates p b t
    → BindsAll (required_variables (p.subject ∷ p.predicate ∷ p.object ∷ [])) b
unfolding Instantiates BindsAll required_variables
pattern_bound p b t (s, q, o) x there = elim (variable_bound p.subject t.subject _ b x s there) [
  | inl found ↦ found
  | inr later ↦ elim (variable_bound p.predicate t.predicate _ b x q later) [
    | inl found ↦ found
    | inr last ↦ elim (variable_bound p.object t.object [] b x o last) [
      | inl found ↦ found
      | inr never ↦ absurd (ground (arith, never))
    ]
  ]
]

-- A match that stands for the patterns of a body binds all their variables.
body_bound :
    (body : List RuleCondition) (b : Dict String Node)
    → ((p : TriplePattern) → Memᴰ p (body_patterns body) → (t : Triple) × Instantiates p b t)
    → BindsAll (pattern_variables body) b
unfolding body_patterns pattern_variables BindsAll
body_bound [] b h x there = absurd (ground (arith, there))
body_bound (triple_condition p ∷ body) b h x there =
    elim (Bool-cases (contains (required_variables (p.subject ∷ p.predicate ∷ p.object ∷ [])) x)) [
      | inl now ↦ let (t, here) = h p (Memᴰ.head refl) in pattern_bound p b t here x now
      | inr not_now ↦
          body_bound body b (λ q in_body. h q (Memᴰ.tail in_body)) x
            (ground (
              arith,
              there,
              not_now,
              contains-append (required_variables (p.subject ∷ p.predicate ∷ p.object ∷ []))
                  (pattern_variables body) x,
            ))
    ]
body_bound (predicate_condition predicate arguments ∷ body) b h x there =
    body_bound body b h x there

head_term :
    (f : String → Bool) (term : Node) (terms : List Node)
    → all f (required_variables (term ∷ terms)) ≡ true
    → (all f (required_variables (term ∷ [])) ≡ true) × (all f (required_variables terms) ≡ true)
unfolding required_variables
head_term f (variable y) terms h = (ground (arith, h), ground (arith, h))
head_term f (uri_ref i) terms h = (refl, h)
head_term f (b_node l) terms h = (refl, h)
head_term f (literal l d t) terms h = (refl, h)

module _ (names : List String) (b : Dict String Node) (bound : BindsAll names b) where
  term_value :
      (term : Node)
      → all (contains names) (required_variables (term ∷ [])) ≡ true
      → (v : Node) × (value_of term b ≡ some v)
  unfolding value_of required_variables BindsAll
  term_value (variable y) h = bound y (ground (arith, h))
  term_value (uri_ref i) h = (uri_ref i, refl)
  term_value (b_node l) h = (b_node l, refl)
  term_value (literal l d t) h = (literal l d t, refl)

  term_resolves :
      (term : Node)
      → all (contains names) (required_variables (term ∷ [])) ≡ true
      → (v : Node) × (resolve_term term b ≡ ok v)
  unfolding resolve_term required_variables BindsAll
  term_resolves (variable y) h = let (v, e) = bound y (ground (arith, h)) in (v, ground (arith, e))
  term_resolves (uri_ref i) h = (uri_ref i, refl)
  term_resolves (b_node l) h = (b_node l, refl)
  term_resolves (literal l d t) h = (literal l d t, refl)

  terms_resolve :
      (terms : List Node)
      → all (contains names) (required_variables terms) ≡ true
      → (vs : List Node) × (resolve_callback_arguments terms b ≡ ok vs)
  unfolding resolve_callback_arguments
  terms_resolve [] h = ([], refl)
  terms_resolve (term ∷ terms) h =
      let (now, later) = head_term (contains names) term terms h in
      let (v, e) = term_resolves term now in
      let (vs, f) = terms_resolve terms later in (v ∷ vs, ground (arith, e, f))

  pattern-Instantiates :
      (p : TriplePattern)
      → all (contains names) (required_variables (p.subject ∷ p.predicate ∷ p.object ∷ [])) ≡ true
      → (t : Triple) × (instantiate_triple p b ≡ ok t) × Instantiates p b t
  pattern-Instantiates p h =
      let (in_s, rest) = head_term (contains names) p.subject (p.predicate ∷ p.object ∷ []) h in
      let (in_q, in_o) = head_term (contains names) p.predicate (p.object ∷ []) rest in
      let (s, es) = term_value p.subject in_s in
      let (q, eq) = term_value p.predicate in_q in
      let (o, eo) = term_value p.object in_o in
      elim (instantiate_triple_total p b) [
        | inl made ↦ made
        | inr (_, inl none_s) ↦ absurd (ground (arith, es, none_s))
        | inr (_, inr (inl none_q)) ↦ absurd (ground (arith, eq, none_q))
        | inr (_, inr (inr none_o)) ↦ absurd (ground (arith, eo, none_o))
      ]

-- The names of a safe rule, under a match that stands for the patterns of its body.
sound_match_binds :
    (rule : Rule) (m : PartialMatch)
    → IsSound (body_patterns rule.body) m
    → BindsAll (pattern_variables rule.body) m.bindings
unfolding IsSound
sound_match_binds rule m (_, found) =
    body_bound rule.body m.bindings
      (λ p in_body. let (f, _, here) = found p in_body in (f.triple, here))

-- A rule whose head and predicate conditions use only variables of its patterns compiles, and
-- under each match that stands for its patterns its head raises nothing: every argument of a
-- consequent resolves, and every triple of its head is instantiated.
pub safe_rule_fires :
    (rule : Rule)
    → is_safe rule ≡ true
    → (is_ok (compile_rule rule) ≡ true)
      × ((m : PartialMatch)
          → IsSound (body_patterns rule.body) m
          → ((c : RuleConsequent)
              → Memᴰ c rule.head
              → (vs : List Node) × (resolve_callback_arguments (terms_of c) m.bindings ≡ ok vs))
            × ((p : TriplePattern)
                → Memᴰ (triple_consequent p) rule.head
                → (t : Triple) × (instantiate_triple p m.bindings ≡ ok t)
                  × Instantiates p m.bindings t))
unfolding is_safe head_covered terms_of
safe_rule_fires rule safe =
    let names : List String = pattern_variables rule.body in
    (
      compile_rule-is_ok rule ∙ ground (arith, safe),
      λ m sound. (
        λ c there.
            terms_resolve names m.bindings (sound_match_binds rule m sound) (terms_of c)
              (all-mem (head_covered names) rule.head (ground (arith, safe)) there),
        λ p there.
            pattern-Instantiates names m.bindings (sound_match_binds rule m sound) p
              (all-mem (head_covered names) rule.head (ground (arith, safe)) there),
      ),
    )
