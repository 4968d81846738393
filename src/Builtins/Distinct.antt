-- ===== src/Builtins/Distinct.antt =====
-- builtins.py: what `different_terms` and `same_term` answer.
use rdflib_reasoning.Base.{
  ◌≡◌, refl, ◌≢◌, sym, subst, Bool, true, false, not, inl, inr, List, [], ◌∷◌, Memᴰ, contains,
  contains-mem, mem-contains, arith, Bool-cases,
}
use rdflib_reasoning.Errors.{ok}
use rdflib_reasoning.Rdf.{Node, node_eq}
use rdflib_reasoning.Builtins.{has_repeat, different_terms, same_term}

-- No node stands in the list twice.
unfoldable pub AllDistinct : List Node → Type 0
AllDistinct [] = Unit
AllDistinct (a ∷ xs) = ((b : Node) → Memᴰ b xs → a ≢ b) × AllDistinct xs

distinct-has_repeat : (xs : List Node) → AllDistinct xs → has_repeat xs ≡ false
unfolding AllDistinct has_repeat
distinct-has_repeat [] h = refl
distinct-has_repeat (a ∷ xs) (apart, h) = elim (Bool-cases (contains xs a)) [
  | inl e ↦ absurd (apart a (contains-mem xs a e) refl)
  | inr e ↦ ground (arith, e, distinct-has_repeat xs h)
]

has_repeat-AllDistinct : (xs : List Node) → has_repeat xs ≡ false → AllDistinct xs
unfolding AllDistinct has_repeat
has_repeat-AllDistinct [] h = tt
has_repeat-AllDistinct (a ∷ xs) h = elim (Bool-cases (contains xs a)) [
  | inl e ↦ cc (rw e at h)
  | inr e ↦ (
    λ b m same. cc (mem-contains xs a (subst (λ x. Memᴰ x xs) (sym same) m), e),
    has_repeat-AllDistinct xs (rw e at h),
  )
]

-- On two or more arguments `different_terms` answers, and its answer is whether no two of them
-- are the same node.
pub different_terms-AllDistinct :
    (first second : Node) (args : List Node)
    → (answer : Bool) × (different_terms (first ∷ second ∷ args) ≡ ok answer)
      × (answer ≡ true → AllDistinct (first ∷ second ∷ args))
      × (AllDistinct (first ∷ second ∷ args) → answer ≡ true)
unfolding different_terms
different_terms-AllDistinct first second args = (
  not (has_repeat (first ∷ second ∷ args)),
  refl,
  λ h. has_repeat-AllDistinct (first ∷ second ∷ args) (ground (arith, h)),
  λ h. ground (arith, distinct-has_repeat (first ∷ second ∷ args) h),
)

-- On two or more arguments `same_term` answers true where the first node stands among the others,
-- also if one of these differs from it.
pub same_term_repeats :
    (a b : Node) (args : List Node) → Memᴰ a (b ∷ args) → same_term (a ∷ b ∷ args) ≡ ok true
unfolding same_term different_terms has_repeat
same_term_repeats a b args there = rw (mem-contains (b ∷ args) a there) refl
