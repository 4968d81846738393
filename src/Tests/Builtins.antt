-- ===== src/Tests/Builtins.antt =====
-- builtins.py on one term twice and on different terms.
use rdflib_reasoning.Base.{◌≡◌, refl, Bool, true, [], ◌∷◌}
use mathlib.Core.List.Memᴰ
use rdflib_reasoning.Errors.{ok}
use rdflib_reasoning.Rdf.{uri_ref}
use rdflib_reasoning.Builtins.{different_terms, same_term}
use rdflib_reasoning.Builtins.Distinct.{AllDistinct, different_terms-AllDistinct, same_term_repeats}

same_term_repeats_example : same_term (uri_ref "a" ∷ uri_ref "a" ∷ uri_ref "b" ∷ []) ≡ ok true
same_term_repeats_example =
    same_term_repeats (uri_ref "a") (uri_ref "a") (uri_ref "b" ∷ []) (Memᴰ.head refl)

different_terms-AllDistinct_example :
    (answer : Bool) × (different_terms (uri_ref "a" ∷ uri_ref "b" ∷ []) ≡ ok answer)
    × (answer ≡ true → AllDistinct (uri_ref "a" ∷ uri_ref "b" ∷ []))
    × (AllDistinct (uri_ref "a" ∷ uri_ref "b" ∷ []) → answer ≡ true)
different_terms-AllDistinct_example = different_terms-AllDistinct (uri_ref "a") (uri_ref "b") []
