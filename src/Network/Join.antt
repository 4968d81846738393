-- ===== src/Network/Join.antt =====
-- network.py: the join of two partial matches.
use rdflib_reasoning.Base.{
  suc, String, string_eq, ◌≡◌, refl, sym, ap, Bool, true, false, not, some, List, [], ◌∷◌, ◌++◌,
  inl, inr, Memᴰ, contains, any, filter, if◌then◌else◌, arith, Option-cases, subst, contains-mem,
  all-mem, all-intro, mem-filter_of_mem,
}
use Prim.Native.Nat.{max}
use mathlib.Core.List.Memᴰ
use rdflib_reasoning.Base.Dict.{
  Dict, keys, lookup, insert, NodupKeys, lookup-insert, insert-NodupKeys, contains-keys, is_some,
}
use rdflib_reasoning.Base.Sets.{intersection, contains-intersection}
use rdflib_reasoning.Rdf.{Node, node_eq}
use rdflib_reasoning.Rules.{TriplePattern}
use rdflib_reasoning.Facts.{Fact, PartialMatch}
use rdflib_reasoning.Network.Alpha.{Instantiates, Extends, Instantiates-grow}
use rdflib_reasoning.Network.Matching.{agrees, bindings_compatible, merge, fact_ids, join_pair}

both_bound :
    (left right : Dict String Node) (x : String) {a b : Node}
    → bindings_compatible left right ≡ true
    → lookup x left ≡ some a
    → lookup x right ≡ some b
    → a ≡ b
unfolding bindings_compatible agrees
both_bound left right x h l r =
    let shared : contains (intersection (keys left) (keys right)) x ≡ true = ground (
      arith,
      contains-intersection (keys left) (keys right) x,
      contains-keys x left,
      contains-keys x right,
      l,
      r,
    ) in
    let same =
      all-mem (λ name. agrees (lookup name left) (lookup name right))
        (intersection (keys left) (keys right)) h (contains-mem _ x shared) in
    ground (arith, same, l, r)

lookup-merge :
    (left right : Dict String Node) (x : String)
    → NodupKeys right
    → lookup x (merge left right)
      ≡ (if is_some (lookup x right) then lookup x right else lookup x left)
unfolding merge lookup
lookup-merge left [] x u = refl
lookup-merge left ((k, v) ∷ right) x (fresh, u) =
    ground (arith, lookup-merge (insert k v left) right x u, lookup-insert x k v left, fresh)

merge-NodupKeys : (left right : Dict String Node) → NodupKeys left → NodupKeys (merge left right)
unfolding merge
merge-NodupKeys left [] u = u
merge-NodupKeys left ((k, v) ∷ right) u =
    merge-NodupKeys (insert k v left) right (insert-NodupKeys k v left u)

module _ (left right : Dict String Node) (u : NodupKeys right) where
  right-Extends-merge : Extends right (merge left right)
  unfolding Extends
  right-Extends-merge x v h = ground (arith, lookup-merge left right x u, h)

  left-Extends-merge : bindings_compatible left right ≡ true → Extends left (merge left right)
  unfolding Extends
  left-Extends-merge c x v h = elim (Option-cases (lookup x right)) [
    | inl e ↦ ground (arith, lookup-merge left right x u, h, e)
    | inr (w, e) ↦ ground (arith, lookup-merge left right x u, both_bound left right x c h e, e)
  ]

  merge-Extends :
      (d : Dict String Node) → Extends left d → Extends right d → Extends (merge left right) d
  unfolding Extends
  merge-Extends d l r x v h = elim (Option-cases (lookup x right)) [
    | inl e ↦ l x v (ground (arith, lookup-merge left right x u, h, e))
    | inr (w, e) ↦ r x v (ground (arith, lookup-merge left right x u, h, e))
  ]

-- A partial match that stands for some patterns: under its bindings each of them is one of its facts.
unfoldable pub IsSound : List TriplePattern → PartialMatch → Type 0
IsSound ps m =
    NodupKeys m.bindings
    × ((p : TriplePattern)
        → Memᴰ p ps
        → (f : Fact) × Memᴰ f m.facts × Instantiates p m.bindings f.triple)

-- Whether some fact of the right match has the id of a fact of the left one.
unfoldable pub shares_fact : PartialMatch → PartialMatch → Bool
unfolding fact_ids
shares_fact left right = any (λ fact. contains (fact_ids left) fact.id) right.facts

any-none :
    {A : Type 0} (p : A → Bool) (xs : List A) (x : A) → any p xs ≡ false → Memᴰ x xs → p x ≡ false
any-none p [] x h m = elim m [ ]
any-none p (y ∷ xs) x h (Memᴰ.head e) = ground arith
any-none p (y ∷ xs) x h (Memᴰ.tail m) = any-none p xs x (ground arith) m

pub join_pair-some :
    (left right m : PartialMatch)
    → join_pair left right ≡ some m
    → (shares_fact left right ≡ false)
      × (bindings_compatible left.bindings right.bindings ≡ true)
      × (m.facts ≡ left.facts ++ filter (λ f. not (contains (fact_ids left) f.id)) right.facts)
      × (m.bindings ≡ merge left.bindings right.bindings)
unfolding join_pair shares_fact
join_pair-some left right m h =
    (ground (arith, h), ground (arith, h), ground (arith, h), ground (arith, h))

unshared :
    (left right : PartialMatch) (f : Fact)
    → shares_fact left right ≡ false
    → Memᴰ f right.facts
    → contains (fact_ids left) f.id ≡ false
unfolding shares_fact
unshared left right f apart m = any-none (λ g. contains (fact_ids left) g.id) right.facts f apart m

-- A join stands for the patterns of both sides.
pub join_pair-IsSound :
    (ps qs : List TriplePattern) (left right m : PartialMatch)
    → IsSound ps left
    → IsSound qs right
    → join_pair left right ≡ some m
    → IsSound (ps ++ qs) m
unfolding IsSound
join_pair-IsSound ps qs left right m (ul, l) (ur, r) h =
    let (apart, compatible, facts, bindings) = join_pair-some left right m h in
    (
      subst (λ b. NodupKeys b) (sym bindings) (merge-NodupKeys left.bindings right.bindings ul),
      λ p there. elim (Memᴰ.append_cases ps there) [
        | inl in_ps ↦
            let (f, in_left, here) = l p in_ps in
            (
              f,
              rw facts (Memᴰ.append_left _ in_left),
              rw bindings (
                  Instantiates-grow p left.bindings _ f.triple
                    (left-Extends-merge left.bindings right.bindings ur compatible) here),
            )
        | inr in_qs ↦
            let (f, in_right, here) = r p in_qs in
            let other : contains (fact_ids left) f.id ≡ false =
              unshared left right f apart in_right in
            (
              f,
              rw facts (
                  Memᴰ.append_right left.facts
                    (mem-filter_of_mem _ right.facts in_right (ground (arith, other)))),
              rw bindings (
                  Instantiates-grow p right.bindings _ f.triple
                    (right-Extends-merge left.bindings right.bindings ur) here),
            )
      ],
    )

agree_of :
    (left right d : Dict String Node) (x : String)
    → Extends left d
    → Extends right d
    → agrees (lookup x left) (lookup x right) ≡ true
unfolding Extends agrees
agree_of left right d x l r = elim (Option-cases (lookup x left)) [
  | inl e ↦ rw e refl
  | inr (a, e) ↦ elim (Option-cases (lookup x right)) [
    | inl f ↦ rw (e, f) refl
    | inr (b, f) ↦
        let same : a ≡ b = ground (arith, l x a e, r x b f) in rw (e, f) (ground (arith, same))
  ]
]

compatible_of :
    (left right d : Dict String Node)
    → Extends left d
    → Extends right d
    → bindings_compatible left right ≡ true
unfolding bindings_compatible
compatible_of left right d l r = all-intro _ _ (λ x m. agree_of left right d x l r)

filter-all :
    {A : Type 0} (p : A → Bool) (xs : List A) → any p xs ≡ false → filter (λ x. not (p x)) xs ≡ xs
filter-all p [] h = refl
filter-all p (x ∷ xs) h = ground (arith, h, filter-all p xs (ground (arith, h)))

-- Two partial matches that have no fact in common and whose bindings fit one assignment are
-- joined: the result has the facts of both, and its bindings fit the assignment too.
pub join_pair_complete :
    (left right : PartialMatch) (d : Dict String Node)
    → shares_fact left right ≡ false
    → NodupKeys right.bindings
    → Extends left.bindings d
    → Extends right.bindings d
    → (m : PartialMatch) × (join_pair left right ≡ some m)
      × (m.facts ≡ left.facts ++ right.facts)
      × Extends m.bindings d
unfolding join_pair shares_fact
join_pair_complete left right d apart u l r =
    let compatible = compatible_of left.bindings right.bindings d l r in
    let kept = filter-all (λ f. contains (fact_ids left) f.id) right.facts apart in
    (
      record {
        facts = left.facts ++ filter (λ f. not (contains (fact_ids left) f.id)) right.facts;
        bindings = merge left.bindings right.bindings;
        depth = suc (max left.depth right.depth);
      },
      ground (arith, apart, compatible),
      ap (λ fs. left.facts ++ fs) kept,
      merge-Extends left.bindings right.bindings u d l r,
    )
