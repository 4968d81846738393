-- ===== src/Rulesets/Profiles.antt =====
-- rulesets/rdfs.py and rdfs_axioms.py: the production profile against the conformant one.
use rdflib_reasoning.Base.{
  string_eq, string_dec, ◌≡◌, refl, Bool, true, false, not, ◌&&◌, ◌==◌, Eq, List, [], ◌∷◌, ap, inl,
  inr, Memᴰ, all, any, contains, all-mem, any-mem, contains-mem, arith,
}
use mathlib.Core.List.Memᴰ
use rdflib_reasoning.Rdf.{node_dec}
use rdflib_reasoning.Rules.{
  TriplePattern, RuleCondition, triple_condition, predicate_condition, RuleConsequent, Rule,
}
use rdflib_reasoning.Facts.{PartialMatch}
use rdflib_reasoning.Network.Join.{IsSound}
use rdflib_reasoning.Rulesets.RdfsAxioms.{production_rdfs_axioms, conformant_rdfs_axioms}
use rdflib_reasoning.Rulesets.Rdfs.{production_rdfs_rules}
use rdflib_reasoning.Rulesets.Rdfs.Conformant.{build_conformant_rdfs_rules, conformant_rdfs_rules}
use rdflib_reasoning.Rulesets.Safe.{body_patterns}

unfoldable condition_dec : Discrete RuleCondition
condition_dec = hlevel (string_dec, node_dec)

instance abbrev condition_eq : Eq RuleCondition
condition_eq = record { dec = condition_dec }

unfoldable head_dec : Discrete (List RuleConsequent)
head_dec = hlevel (string_dec, node_dec)

instance abbrev head_eq : Eq (List RuleConsequent)
head_eq = record { dec = head_dec }

-- A rule that is visible and concludes the same on no more conditions.
covers : Rule → Rule → Bool
unfolding condition_dec head_dec
covers r c = c.head == r.head && (not c.silent && all (contains r.body) c.body)

all_covered : all (λ r. any (covers r) conformant_rdfs_rules) production_rdfs_rules ≡ true
unfolding covers condition_dec head_dec string_dec node_dec production_rdfs_rules
    conformant_rdfs_rules production_rdfs_axioms conformant_rdfs_axioms build_conformant_rdfs_rules
all_covered = refl

mem-body_patterns :
    (p : TriplePattern) (body : List RuleCondition)
    → Memᴰ p (body_patterns body)
    → Memᴰ (triple_condition p) body
unfolding body_patterns
mem-body_patterns p [] there = elim there [ ]
mem-body_patterns p (triple_condition q ∷ body) there = elim (Memᴰ.cases_cons there) [
  | inl same ↦ Memᴰ.head (ap triple_condition same)
  | inr later ↦ Memᴰ.tail (mem-body_patterns p body later)
]
mem-body_patterns p (predicate_condition name arguments ∷ body) there =
    Memᴰ.tail (mem-body_patterns p body there)

mem-body_patterns_of_mem :
    (p : TriplePattern) (body : List RuleCondition)
    → Memᴰ (triple_condition p) body
    → Memᴰ p (body_patterns body)
unfolding body_patterns
mem-body_patterns_of_mem p [] there = elim there [ ]
mem-body_patterns_of_mem p (triple_condition q ∷ body) there = elim (Memᴰ.cases_cons there) [
  | inl same ↦ Memᴰ.head (ground (arith, same))
  | inr later ↦ Memᴰ.tail (mem-body_patterns_of_mem p body later)
]
mem-body_patterns_of_mem p (predicate_condition name arguments ∷ body) there =
    elim (Memᴰ.cases_cons there) [
      | inl same ↦ cc same
      | inr later ↦ mem-body_patterns_of_mem p body later
    ]

IsSound-fewer :
    (ps qs : List TriplePattern) (m : PartialMatch)
    → ((q : TriplePattern) → Memᴰ q qs → Memᴰ q ps)
    → IsSound ps m
    → IsSound qs m
unfolding IsSound
IsSound-fewer ps qs m sub (nodup, found) = (nodup, λ q in_qs. found q (sub q in_qs))

-- Whatever a rule of the production profile concludes from a match, silently or not, a rule of the
-- conformant profile concludes visibly: it has the same head, the match stands for its patterns,
-- and its predicate conditions are among those of the production rule.
pub production_in_conformant :
    (r : Rule)
    → Memᴰ r production_rdfs_rules
    → (c : Rule) × Memᴰ c conformant_rdfs_rules
      × (c.silent ≡ false)
      × (c.head ≡ r.head)
      × ((condition : RuleCondition) → Memᴰ condition c.body → Memᴰ condition r.body)
      × ((m : PartialMatch) → IsSound (body_patterns r.body) m → IsSound (body_patterns c.body) m)
unfolding covers
production_in_conformant r there =
    let covered =
      all-mem (λ r. any (covers r) conformant_rdfs_rules) production_rdfs_rules all_covered there in
    let (c, in_conformant, h) = any-mem (covers r) conformant_rdfs_rules covered in
    let sub : (condition : RuleCondition) → Memᴰ condition c.body → Memᴰ condition r.body =
      λ condition inside.
        contains-mem r.body condition
          (all-mem (contains r.body) c.body (ground (arith, h)) inside) in
    (
      c,
      in_conformant,
      ground (arith, h),
      ground (arith, h),
      sub,
      λ m. IsSound-fewer (body_patterns r.body) (body_patterns c.body) m (λ q inside.
          mem-body_patterns_of_mem q r.body
            (sub (triple_condition q) (mem-body_patterns q c.body inside))),
    )
