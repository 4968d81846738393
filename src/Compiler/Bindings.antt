-- ===== src/Compiler/Bindings.antt =====
-- compiler.py: the variables of predicate conditions, and which rules compile.
use rdflib_reasoning.Base.{
  ℕ, suc, String, string_eq, ◌≡◌, refl, ◌∙◌, ◌⊎◌, Bool, true, false, not, ◌&&◌, ◌||◌, List, [], ◌∷◌,
  ◌++◌, inl, inr, all, any, filter, contains, contains-append, arith, Bool-cases,
}
use rdflib_reasoning.Base.Sets.{update, contains-update}
use rdflib_reasoning.Base.Sorting.{insert_sorted, sort_by}
use rdflib_reasoning.Errors.{Result, ok, raise, is_ok, ◌>>=◌}
use rdflib_reasoning.Rdf.{Node}
use rdflib_reasoning.Rules.{RuleCondition, triple_condition, predicate_condition, Rule}
use rdflib_reasoning.Compiler.{
  unless_missing, CompiledPredicateCondition, CompiledTripleCondition, is_better,
  order_triple_conditions, required_variables, compile_triple_condition,
  compile_predicate_condition, compile_triple_conditions, compile_predicate_conditions,
  available_bindings, compile_rule,
}

-- The variables of the triple patterns of a body.
unfoldable pub pattern_variables : List RuleCondition → List String
unfolding required_variables
pattern_variables [] = []
pattern_variables (triple_condition p ∷ body) =
    required_variables (p.subject ∷ p.predicate ∷ p.object ∷ []) ++ pattern_variables body
pattern_variables (predicate_condition _ _ ∷ body) = pattern_variables body

-- Whether every variable of a predicate condition is among `names`.
unfoldable pub is_covered : List String → RuleCondition → Bool
unfolding required_variables
is_covered names (triple_condition p) = true
is_covered names (predicate_condition _ arguments) =
    all (contains names) (required_variables arguments)

bound_by : List CompiledTripleCondition → String → Bool
bound_by cs v = any (λ c. contains c.bound_variables v) cs

contains-available_bindings :
    (names : List String) (cs : List CompiledTripleCondition) (v : String)
    → contains (available_bindings names cs) v ≡ (contains names v || bound_by cs v)
unfolding available_bindings bound_by
contains-available_bindings names [] v = ground arith
contains-available_bindings names (c ∷ cs) v = ground (
  arith,
  contains-available_bindings (update names c.bound_variables) cs v,
  contains-update names c.bound_variables v,
)

bound_by-insert_sorted :
    (c : CompiledTripleCondition) (cs : List CompiledTripleCondition) (v : String)
    → bound_by (insert_sorted is_better c cs) v ≡ (contains c.bound_variables v || bound_by cs v)
unfolding insert_sorted bound_by
bound_by-insert_sorted c [] v = refl
bound_by-insert_sorted c (d ∷ cs) v = elim (Bool-cases (is_better c d)) [
  | inl e ↦ ground (arith, e)
  | inr e ↦ ground (arith, e, bound_by-insert_sorted c cs v)
]

bound_by-order :
    (cs : List CompiledTripleCondition) (v : String)
    → bound_by (order_triple_conditions cs) v ≡ bound_by cs v
unfolding order_triple_conditions sort_by bound_by
bound_by-order [] v = refl
bound_by-order (c ∷ cs) v =
    ground (arith, bound_by-insert_sorted c (order_triple_conditions cs) v, bound_by-order cs v)

bound_by-compile :
    (body : List RuleCondition) (idx : ℕ) (v : String)
    → bound_by (compile_triple_conditions body idx) v ≡ contains (pattern_variables body) v
unfolding compile_triple_conditions compile_triple_condition pattern_variables bound_by
bound_by-compile [] idx v = refl
bound_by-compile (triple_condition p ∷ body) idx v = ground (
  arith,
  bound_by-compile body (suc idx) v,
  contains-append (required_variables (p.subject ∷ p.predicate ∷ p.object ∷ []))
      (pattern_variables body) v,
)
bound_by-compile (predicate_condition _ _ ∷ body) idx v = bound_by-compile body (suc idx) v

available_in : List RuleCondition → List String
unfolding available_bindings order_triple_conditions compile_triple_conditions
available_in body =
    available_bindings [] (order_triple_conditions (compile_triple_conditions body 0))

contains-available_in :
    (body : List RuleCondition) (v : String)
    → contains (available_in body) v ≡ contains (pattern_variables body) v
unfolding available_in
contains-available_in body v =
    contains-available_bindings [] (order_triple_conditions (compile_triple_conditions body 0)) v
    ∙ bound_by-order (compile_triple_conditions body 0) v
    ∙ bound_by-compile body 0 v

pub List-cases :
    {A : Type 0} (xs : List A) → (xs ≡ []) ⊎ ((x : A) × (rest : List A) × (xs ≡ x ∷ rest))
List-cases [] = inl refl
List-cases (x ∷ xs) = inr (x, xs, refl)

module _ (s t : List String) (same : (v : String) → contains s v ≡ contains t v) where
  all-contains : (vs : List String) → all (contains s) vs ≡ all (contains t) vs
  all-contains [] = refl
  all-contains (v ∷ vs) = ground (arith, same v, all-contains vs)

  is_covered-same : (c : RuleCondition) → is_covered s c ≡ is_covered t c
  unfolding is_covered
  is_covered-same (triple_condition p) = refl
  is_covered-same (predicate_condition _ arguments) = all-contains (required_variables arguments)

  all-is_covered : (body : List RuleCondition) → all (is_covered s) body ≡ all (is_covered t) body
  all-is_covered [] = refl
  all-is_covered (c ∷ body) = ground (arith, is_covered-same c, all-is_covered body)

is_ok->>= : {A B : Type 0} (r : Result A) (f : A → B) → is_ok (r >>= λ a. ok (f a)) ≡ is_ok r
is_ok->>= (ok a) f = refl
is_ok->>= (raise e) f = refl

is_ok-both :
    {A B C : Type 0} (r : Result A) (q : Result B) (f : A → B → C)
    → is_ok (r >>= λ a. q >>= λ b. ok (f a b)) ≡ (is_ok r && is_ok q)
is_ok-both (ok a) q f = is_ok->>= q (f a)
is_ok-both (raise e) q f = refl

module _ (available : List String) where
  missing : List String → List String
  missing names = filter (λ name. not (contains available name)) names

  missing-nil : (names : List String) → missing names ≡ [] → all (contains available) names ≡ true
  unfolding missing
  missing-nil [] h = refl
  missing-nil (name ∷ names) h = elim (Bool-cases (contains available name)) [
    | inl e ↦ ground (arith, e, missing-nil names (rw e at h))
    | inr e ↦ cc (rw e at h)
  ]

  missing-cons :
      (name : String) (names more : List String)
      → missing names ≡ name ∷ more
      → all (contains available) names ≡ false
  unfolding missing
  missing-cons name [] more h = cc h
  missing-cons name (n ∷ names) more h = elim (Bool-cases (contains available n)) [
    | inl e ↦ ground (arith, e, missing-cons name names more (rw e at h))
    | inr e ↦ ground (arith, e)
  ]

  unless_missing_lem :
      (names : List String) (c : CompiledPredicateCondition)
      → is_ok (unless_missing (missing names) c) ≡ all (contains available) names
  unfolding unless_missing
  unless_missing_lem names c = elim (List-cases (missing names)) [
    | inl e ↦ rw (e, missing-nil names e) refl
    | inr (name, more, e) ↦ rw (e, missing-cons name names more e) refl
  ]

  compile_predicate_condition_lem :
      (predicate : String) (arguments : List Node) (idx : ℕ)
      → is_ok (compile_predicate_condition predicate arguments idx available)
        ≡ is_covered available (predicate_condition predicate arguments)
  unfolding compile_predicate_condition is_covered missing unless_missing
  compile_predicate_condition_lem predicate arguments idx =
      unless_missing_lem (required_variables arguments) record {
        source_index = idx;
        predicate = predicate;
        arguments = arguments;
        required_variables = required_variables arguments;
      }

  compile_predicate_conditions_lem :
      (body : List RuleCondition) (idx : ℕ)
      → is_ok (compile_predicate_conditions body idx available) ≡ all (is_covered available) body
  unfolding compile_predicate_conditions is_covered
  compile_predicate_conditions_lem [] idx = refl
  compile_predicate_conditions_lem (triple_condition p ∷ body) idx =
      compile_predicate_conditions_lem body (suc idx)
  compile_predicate_conditions_lem (predicate_condition predicate arguments ∷ body) idx =
      is_ok-both (compile_predicate_condition predicate arguments idx available)
        (compile_predicate_conditions body (suc idx) available) (λ first others. first ∷ others)
      ∙ (rw
          (
            compile_predicate_condition_lem predicate arguments idx,
            compile_predicate_conditions_lem body (suc idx),
          )
          refl)

-- A rule compiles exactly when every variable of its predicate conditions occurs in one of its
-- triple patterns, wherever in the body that pattern stands.
pub compile_rule-is_ok :
    (rule : Rule)
    → is_ok (compile_rule rule) ≡ all (is_covered (pattern_variables rule.body)) rule.body
unfolding compile_rule available_in
compile_rule-is_ok rule =
    is_ok->>= (compile_predicate_conditions rule.body 0 (available_in rule.body)) _
    ∙ compile_predicate_conditions_lem (available_in rule.body) rule.body 0
    ∙ all-is_covered (available_in rule.body) (pattern_variables rule.body)
        (contains-available_in rule.body) rule.body
