-- ===== src/Builtins.antt =====
-- The default predicates on terms:
-- rdflib-reasoning-engine/src/rdflib_reasoning/engine/builtins.py. The context that a predicate
-- gets is only read to report a wrong number of arguments, a BuiltinInputError.
pub mod Distinct
use rdflib_reasoning.Base.{
  ◌==◌, Bool, true, false, not, Option, none, some, List, [], ◌∷◌, any, all, contains,
  if◌then◌else◌,
}
use rdflib_reasoning.Errors.{Result, ok, raise, builtin_input_error, ◌>>=◌}
use rdflib_reasoning.Rdf.{Node, node_eq, is_literal}

-- For each argument, whether it equals one after it.
unfoldable pub has_repeat : List Node → Bool
has_repeat [] = false
has_repeat (arg ∷ args) = let rest = has_repeat args in if contains args arg then true else rest

unfoldable pub different_terms : List Node → Result Bool
unfolding has_repeat
different_terms [] = raise builtin_input_error
different_terms (arg ∷ []) = raise builtin_input_error
different_terms (first ∷ second ∷ args) = ok (not (has_repeat (first ∷ second ∷ args)))

unfoldable pub same_term : List Node → Result Bool
unfolding different_terms
same_term args = different_terms args >>= λ different. ok (not different)

unfoldable pub not_literal : List Node → Result Bool
not_literal [] = raise builtin_input_error
not_literal (arg ∷ args) = ok (all (λ a. not (is_literal a)) (arg ∷ args))

unfoldable pub is_literal_predicate : List Node → Result Bool
is_literal_predicate [] = raise builtin_input_error
is_literal_predicate (arg ∷ args) = ok (all is_literal (arg ∷ args))

unfoldable pub term_in : List Node → Result Bool
term_in [] = raise builtin_input_error
term_in (test_term ∷ []) = raise builtin_input_error
term_in (test_term ∷ first ∷ reference_terms) = ok (contains (first ∷ reference_terms) test_term)

unfoldable pub term_not_in : List Node → Result Bool
unfolding term_in
term_not_in args = term_in args >>= λ found. ok (not found)

-- `Literal.eq` or `Literal.neq` of rdflib, where none is a TypeError.
unfoldable pub compare_values : (Node → Node → Option Bool) → List Node → Result Bool
compare_values test (left ∷ right ∷ []) =
    if not (is_literal left)
    then ok false
    else if not (is_literal right)
    then ok false
    else elim (test left right) [ none ↦ ok false | some answer ↦ ok answer ]
compare_values test _ = raise builtin_input_error

unfoldable pub literal_same_value : (eq : Node → Node → Option Bool) → List Node → Result Bool
unfolding compare_values
literal_same_value eq args = compare_values eq args

unfoldable pub literal_different_value : (neq : Node → Node → Option Bool) → List Node → Result Bool
unfolding compare_values
literal_different_value neq args = compare_values neq args
