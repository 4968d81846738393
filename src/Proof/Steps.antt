-- ===== src/Proof/Steps.antt =====
-- derivation.py and proof.py: the steps of a rebuilt proof, and what makes one valid.
use Prim.Native.Nat.{compare}
use rdflib_reasoning.Base.{
  ℕ, ◌≡◌, refl, sym, subst, Bool, true, false, none, some, List, [], ◌∷◌, ◌⊎◌, inl, inr, Memᴰ,
  length, Option-cases, Bool-cases, arith,
}
use mathlib.Core.List.Memᴰ
use rdflib_reasoning.Base.Int.{then_by, is_lt}
use rdflib_reasoning.Rdf.{node_eq}
use rdflib_reasoning.Engine.{DerivationRecord}
use rdflib_reasoning.Proof.{triple_fact_eq, rule_id_eq}
use rdflib_reasoning.Proof.Reconstruct.{min_by, is_prior, depth_or_last}

module _ {A : Type 0} (lt : A → A → Bool) where
  pub min_by-none : (xs : List A) → min_by lt xs ≡ none → xs ≡ []
  unfolding min_by
  min_by-none [] h = refl
  min_by-none (x ∷ xs) h = elim (Option-cases (min_by lt xs)) [
    | inl e ↦ absurd (ground (arith, h, e))
    | inr (y, e) ↦ absurd (ground (arith, h, e))
  ]

  min_by-cons :
      (x : A) (xs : List A) {m : A}
      → min_by lt (x ∷ xs) ≡ some m
      → ((min_by lt xs ≡ none) × (m ≡ x))
        ⊎ ((y : A) × (min_by lt xs ≡ some y)
            × (((lt y x ≡ true) × (m ≡ y)) ⊎ ((lt y x ≡ false) × (m ≡ x))))
  unfolding min_by
  min_by-cons x xs {m} h = elim (Option-cases (min_by lt xs)) [
    | inl e ↦ inl (e, ground (arith, h, e))
    | inr (y, e) ↦ elim (Bool-cases (lt y x)) [
      | inl less ↦ inr (y, e, inl (less, ground (arith, h, e, less)))
      | inr not_less ↦ inr (y, e, inr (not_less, ground (arith, h, e, not_less)))
    ]
  ]

  pub min_by-mem : (xs : List A) {m : A} → min_by lt xs ≡ some m → Memᴰ m xs
  unfolding min_by
  min_by-mem [] h = cc h
  min_by-mem (x ∷ xs) h = elim (min_by-cons x xs h) [
    | inl (_, same) ↦ Memᴰ.head same
    | inr (y, e, inl (_, same)) ↦ Memᴰ.tail (subst (λ k. Memᴰ k xs) (sym same) (min_by-mem xs e))
    | inr (y, e, inr (_, same)) ↦ Memᴰ.head same
  ]

  irreflexive : ((a b : A) → lt a b ≡ true → lt b a ≡ false) → (a : A) → lt a a ≡ false
  irreflexive asym a = elim (Bool-cases (lt a a)) [ inl e ↦ asym a a e | inr e ↦ e ]

  -- Nothing comes before the item that is chosen, where the order is a strict weak one.
  pub min_by-least :
      ((a b c : A) → lt a b ≡ false → lt b c ≡ false → lt a c ≡ false)
      → ((a b : A) → lt a b ≡ true → lt b a ≡ false)
      → (xs : List A) {m : A} → min_by lt xs ≡ some m
      → (x : A) → Memᴰ x xs
      → lt x m ≡ false
  unfolding min_by
  min_by-least trans asym [] h x there = elim there [ ]
  min_by-least trans asym (z ∷ zs) {m} h x there = elim (min_by-cons z zs h) [
    | inl (nothing, same) ↦
        let empty = min_by-none zs nothing in
        let is_z : x ≡ z = Memᴰ.eq_of_singleton (subst (λ l. Memᴰ x (z ∷ l)) empty there) in
        rw (is_z, same) (irreflexive asym z)
    | inr (y, e, inl (less, same)) ↦ rw same (elim (Memᴰ.cases_cons there) [
      | inl is_z ↦ rw is_z (asym y z less)
      | inr later ↦ min_by-least trans asym zs e x later
    ])
    | inr (y, e, inr (not_less, same)) ↦ rw same (elim (Memᴰ.cases_cons there) [
      | inl is_z ↦ rw is_z (irreflexive asym z)
      | inr later ↦ trans x y z (min_by-least trans asym zs e x later) not_less
    ])
  ]

lex_trans :
    (a b c x y z u v w : ℕ)
    → is_lt (then_by (compare a x) (then_by (compare b y) (compare c z))) ≡ false
    → is_lt (then_by (compare x u) (then_by (compare y v) (compare z w))) ≡ false
    → is_lt (then_by (compare a u) (then_by (compare b v) (compare c w))) ≡ false
lex_trans a b c x y z u v w h k = ground (arith, h, k)

lex_asym :
    (a b c x y z : ℕ)
    → is_lt (then_by (compare a x) (then_by (compare b y) (compare c z))) ≡ true
    → is_lt (then_by (compare x a) (then_by (compare y b) (compare z c))) ≡ false
lex_asym a b c x y z h = ground (arith, h)

pub is_prior_trans :
    (a b c : DerivationRecord) → is_prior a b ≡ false → is_prior b c ≡ false → is_prior a c ≡ false
unfolding is_prior
is_prior_trans a b c h k =
    lex_trans (depth_or_last a.depth) (length a.premises) (length a.conclusions)
      (depth_or_last b.depth) (length b.premises) (length b.conclusions) (depth_or_last c.depth)
      (length c.premises) (length c.conclusions) h k

pub is_prior_asym : (a b : DerivationRecord) → is_prior a b ≡ true → is_prior b a ≡ false
unfolding is_prior
is_prior_asym a b h =
    lex_asym (depth_or_last a.depth) (length a.premises) (length a.conclusions)
      (depth_or_last b.depth) (length b.premises) (length b.conclusions) h
