-- ===== src/Compiler/Joins.antt =====
-- compiler.py: the order in which the triple conditions of a rule are joined.
use Prim.Native.Nat.{compare, Ordering}
use Prim.Native.Nat.compare
use mathlib.Core.List.{Perm}
use mathlib.Core.List.Memᴰ
use rdflib_reasoning.Base.{
  ℕ, zero, suc, ◌+◌, ◌-◌, ◌≤◌, ◌<◌, ◌≡◌, String, refl, sym, ◌∙◌, ap, subst, ◌==◌, ◌⊎◌, inl, inr,
  true, false, List, [], ◌∷◌, Memᴰ, if◌then◌else◌, arith, Bool-cases,
}
use rdflib_reasoning.Rdf.{Node, uri_ref, b_node, literal, variable, node_eq}
use rdflib_reasoning.Base.Sets.{update, add}
use rdflib_reasoning.Rules.{
  TriplePattern, RuleCondition, triple_condition, predicate_condition, Rule,
}
use rdflib_reasoning.Base.Int.{ℤ, pos, negsuc, neg, compare_int}
use rdflib_reasoning.Base.Sorting.{
  insert_sorted, sort_by, sort_by-perm, mem-insert_sorted, mem-sort_by,
}
use rdflib_reasoning.Errors.{ok, Ensures, Ensures->>=, Ensures-always}
use rdflib_reasoning.Compiler.{
  CompiledTripleCondition, CompiledRule, Position, position_eq, position_dec, rdf_type, Score,
  score, predicate_constraint, compile_triple_condition, required_variables, position_constraints,
  compile_triple_conditions, compile_rule, compile_predicate_conditions, available_bindings,
  compare_score, is_better, order_triple_conditions,
}

-- A position of a pattern that is a constant.
abbrev constant : Node → ℕ
constant (variable x) = 0
constant term = 1

-- How many of the three positions of a pattern are constants.
abbrev pub constants : TriplePattern → ℕ
constants p = constant p.subject + (constant p.predicate + constant p.object)

-- A predicate to look for: 2 for one that is not `rdf:type`, 1 for `rdf:type`, 0 for a variable.
abbrev pub predicate_rank : Node → ℕ
predicate_rank (variable x) = 0
predicate_rank term = if term == rdf_type then 1 else 2

-- The first is joined before the second: it has more constants, or as many and the better
-- predicate, or it equals the second in both and stands before it in the body of the rule.
pub record IsBefore (a b : CompiledTripleCondition) : Type 0 where
  pub more : constants b.pattern ≤ constants a.pattern
  pub better :
      constants a.pattern ≡ constants b.pattern
      → predicate_rank b.pattern.predicate ≤ predicate_rank a.pattern.predicate
  pub earlier :
      constants a.pattern ≡ constants b.pattern
      → predicate_rank a.pattern.predicate ≡ predicate_rank b.pattern.predicate
      → a.source_index < b.source_index

-- Each condition is joined before all that follow it.
unfoldable pub IsOrdered : List CompiledTripleCondition → Type 0
IsOrdered [] = Unit
IsOrdered (c ∷ cs) = ((d : CompiledTripleCondition) → Memᴰ d cs → IsBefore c d) × IsOrdered cs

-- Whether the predicate is a constant other than `rdf:type`.
abbrev not_type : Node → ℕ
not_type (variable x) = 0
not_type term = if term == rdf_type then 0 else 1

-- What the compiler makes of a position that is a constant.
record IsConstant (term : Node) : Type 0 where
  constraint :
      (at : Position) → position_constraints at term ≡ record { position = at; value = term } ∷ []
  no_variable : (terms : List Node) → required_variables (term ∷ terms) ≡ required_variables terms
  one : constant term ≡ 1
  rank : predicate_rank term ≡ (if term == rdf_type then 1 else 2)
  bonus : not_type term ≡ (if term == rdf_type then 0 else 1)

Kind : Node → Type 0
Kind term = ((x : String) × (term ≡ variable x)) ⊎ IsConstant term

kind : (term : Node) → Kind term
unfolding Kind position_constraints required_variables
kind (variable x) = inl (x, refl)
kind (uri_ref i) = inr record {
  constraint = λ at. refl;
  no_variable = λ ts. refl;
  one = refl;
  rank = refl;
  bonus = refl;
}
kind (b_node l) = inr record {
  constraint = λ at. refl;
  no_variable = λ ts. refl;
  one = refl;
  rank = refl;
  bonus = refl;
}
kind (literal l d t) = inr record {
  constraint = λ at. refl;
  no_variable = λ ts. refl;
  one = refl;
  rank = refl;
  bonus = refl;
}

-- A rank is whether there is a constant, and whether it is not `rdf:type`.
rank_parts :
    (term : Node)
    → (predicate_rank term ≡ constant term + not_type term)
      × (not_type term ≤ constant term)
      × (constant term ≤ 1)
unfolding Kind
rank_parts term = elim (kind term) [
  | inl (x, e) ↦ (rw e refl, rw e (omega arith), rw e (omega arith))
  | inr k ↦ elim (Bool-cases (term == rdf_type)) [
    | inl e ↦ (
      ground (arith, k.rank, k.bonus, k.one, e),
      ground (arith, k.bonus, k.one, e),
      omega (arith, k.one),
    )
    | inr e ↦ (
      ground (arith, k.rank, k.bonus, k.one, e),
      ground (arith, k.bonus, k.one, e),
      omega (arith, k.one),
    )
  ]
]

-- The score of a condition, read off its pattern.
score_of :
    (p : TriplePattern) (i : ℕ)
    → Kind p.subject
    → Kind p.predicate
    → Kind p.object
    → score (compile_triple_condition p i) ≡ record {
      constant_count = constants p;
      has_constant_predicate = constant p.predicate;
      non_type_predicate_bonus = not_type p.predicate;
      variable_bonus = neg (pos (3 - constants p));
    }
unfolding Kind score compile_triple_condition required_variables position_constraints
    predicate_constraint update add position_dec
score_of p i (inl (_, s)) (inl (_, q)) (inl (_, o)) = rw (s, q, o) refl
score_of p i (inl (_, s)) (inl (_, q)) (inr o) =
    rw (s, q, o.constraint Position.at_object, o.no_variable [], o.one) refl
score_of p i (inl (_, s)) (inr q) (inl (_, o)) =
    rw (s, q.constraint Position.at_predicate, q.no_variable (p.object ∷ []), q.one, q.bonus, o)
      refl
score_of p i (inl (_, s)) (inr q) (inr o) =
    rw
      (
        s,
        q.constraint Position.at_predicate,
        q.no_variable (p.object ∷ []),
        q.one,
        q.bonus,
        o.constraint Position.at_object,
        o.no_variable [],
        o.one,
      )
      refl
score_of p i (inr s) (inl (_, q)) (inl (_, o)) =
    rw (s.constraint Position.at_subject, s.no_variable (p.predicate ∷ p.object ∷ []), s.one, q, o)
      refl
score_of p i (inr s) (inl (_, q)) (inr o) =
    rw
      (
        s.constraint Position.at_subject,
        s.no_variable (p.predicate ∷ p.object ∷ []),
        s.one,
        q,
        o.constraint Position.at_object,
        o.no_variable [],
        o.one,
      )
      refl
score_of p i (inr s) (inr q) (inl (_, o)) =
    rw
      (
        s.constraint Position.at_subject,
        s.no_variable (p.predicate ∷ p.object ∷ []),
        s.one,
        q.constraint Position.at_predicate,
        q.no_variable (p.object ∷ []),
        q.one,
        q.bonus,
        o,
      )
      refl
score_of p i (inr s) (inr q) (inr o) =
    rw
      (
        s.constraint Position.at_subject,
        s.no_variable (p.predicate ∷ p.object ∷ []),
        s.one,
        q.constraint Position.at_predicate,
        q.no_variable (p.object ∷ []),
        q.one,
        q.bonus,
        o.constraint Position.at_object,
        o.no_variable [],
        o.one,
      )
      refl

compare-cases :
    (m n : ℕ)
    → ((compare m n ≡ Ordering.lt) × (m < n))
      ⊎ (((compare m n ≡ Ordering.eq) × (m ≡ n)) ⊎ ((compare m n ≡ Ordering.gt) × (n < m)))
compare-cases zero zero = inr (inl (rw compare.zero-zero refl, refl))
compare-cases zero (suc n) = inl (rw compare.zero-suc refl, omega arith)
compare-cases (suc m) zero = inr (inr (rw compare.suc-zero refl, omega arith))
compare-cases (suc m) (suc n) = elim (compare-cases m n) [
  | inl (e, less) ↦ inl (rw compare.suc-suc e, omega (arith, less))
  | inr (inl (e, same)) ↦ inr (inl (rw compare.suc-suc e, omega (arith, same)))
  | inr (inr (e, more)) ↦ inr (inr (rw compare.suc-suc e, omega (arith, more)))
]

compare_self : (n : ℕ) → compare n n ≡ Ordering.eq
compare_self zero = rw compare.zero-zero refl
compare_self (suc n) = rw compare.suc-suc (compare_self n)

compare_int_self : (n : ℤ) → compare_int n n ≡ Ordering.eq
unfolding compare_int
compare_int_self (pos n) = compare_self n
compare_int_self (negsuc n) = compare_self n

-- A condition as the compiler makes it, of some pattern.
IsCompiled : CompiledTripleCondition → Type 0
IsCompiled c = c ≡ compile_triple_condition c.pattern c.source_index

abbrev read_score : CompiledTripleCondition → Score
read_score c = record {
  constant_count = constants c.pattern;
  has_constant_predicate = constant c.pattern.predicate;
  non_type_predicate_bonus = not_type c.pattern.predicate;
  variable_bonus = neg (pos (3 - constants c.pattern));
}

score-read : (c : CompiledTripleCondition) → IsCompiled c → score c ≡ read_score c
unfolding IsCompiled
score-read c made =
    ap score made
    ∙ score_of c.pattern c.source_index (kind c.pattern.subject) (kind c.pattern.predicate)
        (kind c.pattern.object)

tie-IsBefore :
    (a b : CompiledTripleCondition)
    → constants a.pattern ≡ constants b.pattern
    → predicate_rank b.pattern.predicate < predicate_rank a.pattern.predicate
    → IsBefore a b
tie-IsBefore a b tie less = record {
  more = omega (arith, tie);
  better = λ _. omega (arith, less);
  earlier = λ _ same. absurd (omega (arith, less, same));
}

-- What the comparison of two scores says of the two conditions.
is_better-IsBefore :
    (a b : CompiledTripleCondition)
    → IsCompiled a
    → IsCompiled b
    → ((is_better a b ≡ true) × (a.source_index < b.source_index → IsBefore a b))
      ⊎ ((is_better a b ≡ false) × IsBefore b a)
unfolding is_better compare_score
is_better-IsBefore a b made_a made_b =
    let (rank_a, most_a, one_a) = rank_parts a.pattern.predicate in
    let (rank_b, most_b, one_b) = rank_parts b.pattern.predicate in
    rw (score-read a made_a, score-read b made_b)
      (elim (compare-cases (constants b.pattern) (constants a.pattern)) [
        | inl (e, less) ↦ inl (
          rw e refl,
          λ _. record {
            more = omega (arith, less);
            better = λ same. absurd (omega (arith, less, same));
            earlier = λ same. absurd (omega (arith, less, same));
          },
        )
        | inr (inr (e, more)) ↦ inr (
          rw e refl,
          record {
            more = omega (arith, more);
            better = λ same. absurd (omega (arith, more, same));
            earlier = λ same. absurd (omega (arith, more, same));
          },
        )
        | inr (inl (e, tie)) ↦
            elim (compare-cases (constant b.pattern.predicate) (constant a.pattern.predicate)) [
              | inl (f, less) ↦ inl (
                rw (e, f) refl,
                λ _.
                    tie-IsBefore a b (sym tie) (omega (arith, less, rank_a, rank_b, most_b, one_a)),
              )
              | inr (inr (f, more)) ↦ inr (
                rw (e, f) refl,
                tie-IsBefore b a tie (omega (arith, more, rank_a, rank_b, most_a, one_b)),
              )
              | inr (inl (f, same)) ↦
                  elim (compare-cases (not_type b.pattern.predicate)
                    (not_type a.pattern.predicate)) [
                      | inl (g, less) ↦ inl (
                        rw (e, f, g) refl,
                        λ _. tie-IsBefore a b (sym tie) (omega (arith, same, less, rank_a, rank_b)),
                      )
                      | inr (inr (g, more)) ↦ inr (
                        rw (e, f, g) refl,
                        tie-IsBefore b a tie (omega (arith, same, more, rank_a, rank_b)),
                      )
                      | inr (inl (g, equal)) ↦ inl (
                        rw (e, f, g, tie, compare_int_self (neg (pos (3 - constants a.pattern))))
                            refl,
                        λ first. record {
                          more = omega (arith, tie);
                          better = λ _. omega (arith, same, equal, rank_a, rank_b);
                          earlier = λ _ _. first;
                        },
                      )
                    ]
            ]
      ])

IsBefore-trans : (a b c : CompiledTripleCondition) → IsBefore a b → IsBefore b c → IsBefore a c
IsBefore-trans a b c f g = record {
  more = omega (arith, f.more, g.more);
  better = λ same.
      let ab : constants a.pattern ≡ constants b.pattern = omega (arith, f.more, g.more, same) in
      let bc : constants b.pattern ≡ constants c.pattern = omega (arith, ab, same) in
      omega (arith, f.better ab, g.better bc);
  earlier = λ same ranks.
      let ab : constants a.pattern ≡ constants b.pattern = omega (arith, f.more, g.more, same) in
      let bc : constants b.pattern ≡ constants c.pattern = omega (arith, ab, same) in
      let rank_ab : predicate_rank a.pattern.predicate ≡ predicate_rank b.pattern.predicate =
        omega (arith, f.better ab, g.better bc, ranks) in
      omega (arith, f.earlier ab rank_ab, g.earlier bc (omega (arith, rank_ab, ranks)));
}

-- Conditions of a body from some place on.
abbrev IsFrom : ℕ → CompiledTripleCondition → Type 0
IsFrom i c = IsCompiled c × (i ≤ c.source_index)

insert_sorted-IsOrdered :
    (c : CompiledTripleCondition) (cs : List CompiledTripleCondition)
    → IsCompiled c
    → ((d : CompiledTripleCondition) → Memᴰ d cs → IsFrom (suc c.source_index) d)
    → IsOrdered cs
    → IsOrdered (insert_sorted is_better c cs)
unfolding insert_sorted IsOrdered
insert_sorted-IsOrdered c [] made later h = (λ d there. absurd (Memᴰ.not-nil there), tt)
insert_sorted-IsOrdered c (d ∷ ds) made later (before, h) =
    let (made_d, after) = later d (Memᴰ.head refl) in
    elim (is_better-IsBefore c d made made_d) [
      | inl (e, first) ↦
          let c_first : IsBefore c d = first (omega (arith, after)) in
          rw e (
            λ x there. elim (Memᴰ.cases_cons there) [
              | inl same ↦ subst (IsBefore c) (sym same) c_first
              | inr rest ↦ IsBefore-trans c d x c_first (before x rest)
            ],
            (before, h),
          )
      | inr (e, d_first) ↦ rw e (
        λ x there. elim (Memᴰ.cases_cons (mem-insert_sorted is_better c ds there)) [
          | inl same ↦ subst (IsBefore d) (sym same) d_first
          | inr rest ↦ before x rest
        ],
        insert_sorted-IsOrdered c ds made (λ x there. later x (Memᴰ.tail there)) h,
      )
    ]

compile_triple_condition-IsCompiled :
    (p : TriplePattern) (i : ℕ) → IsCompiled (compile_triple_condition p i)
unfolding IsCompiled compile_triple_condition
compile_triple_condition-IsCompiled p i = refl

compile_triple_conditions-IsFrom :
    (body : List RuleCondition) (i : ℕ) (c : CompiledTripleCondition)
    → Memᴰ c (compile_triple_conditions body i)
    → IsFrom i c
unfolding compile_triple_conditions IsCompiled compile_triple_condition
compile_triple_conditions-IsFrom [] i c there = absurd (Memᴰ.not-nil there)
compile_triple_conditions-IsFrom (triple_condition p ∷ body) i c there =
    elim (Memᴰ.cases_cons there) [
      | inl same ↦ subst (IsFrom i) (sym same) (refl, omega arith)
      | inr rest ↦
          let (made, from) = compile_triple_conditions-IsFrom body (suc i) c rest in
          (made, omega (arith, from))
    ]
compile_triple_conditions-IsFrom (predicate_condition q arguments ∷ body) i c there =
    let (made, from) = compile_triple_conditions-IsFrom body (suc i) c there in
    (made, omega (arith, from))

sorted_conditions-IsOrdered :
    (body : List RuleCondition) (i : ℕ)
    → IsOrdered (sort_by is_better (compile_triple_conditions body i))
unfolding sort_by compile_triple_conditions compile_triple_condition IsOrdered
sorted_conditions-IsOrdered [] i = tt
sorted_conditions-IsOrdered (predicate_condition q arguments ∷ body) i =
    sorted_conditions-IsOrdered body (suc i)
sorted_conditions-IsOrdered (triple_condition p ∷ body) i =
    insert_sorted-IsOrdered (compile_triple_condition p i)
      (sort_by is_better (compile_triple_conditions body (suc i)))
      (compile_triple_condition-IsCompiled p i)
      (λ d there.
        compile_triple_conditions-IsFrom body (suc i) d
          (mem-sort_by is_better (compile_triple_conditions body (suc i)) there))
      (sorted_conditions-IsOrdered body (suc i))

-- A rule that compiles has the triple conditions of its body, as the compiler makes them, in an
-- order in which each stands before all that follow it: by the number of its constants, then by its
-- predicate (a constant, and better one that is not `rdf:type`), then by its place in the body.
pub compile_rule-IsOrdered :
    (rule : Rule) (compiled : CompiledRule)
    → compile_rule rule ≡ ok compiled
    → Perm compiled.triple_conditions (compile_triple_conditions rule.body 0)
      × IsOrdered compiled.triple_conditions
unfolding compile_rule order_triple_conditions
compile_rule-IsOrdered rule compiled h =
    let ordered : List CompiledTripleCondition =
      sort_by is_better (compile_triple_conditions rule.body 0) in
    let same : compiled.triple_conditions ≡ ordered =
      subst (Ensures (λ c. c.triple_conditions ≡ ordered)) h (
        Ensures->>= (λ _. Unit {0}) (λ c. c.triple_conditions ≡ ordered)
          (compile_predicate_conditions rule.body 0 (available_bindings [] ordered)) _
          (Ensures-always _
            (compile_predicate_conditions rule.body 0 (available_bindings [] ordered)) (λ _. tt))
          (λ _ _. refl)) in
    rw same (
      sort_by-perm is_better (compile_triple_conditions rule.body 0),
      sorted_conditions-IsOrdered rule.body 0,
    )
