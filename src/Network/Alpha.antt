-- ===== src/Network/Alpha.antt =====
-- network.py: matching one pattern against one triple, and the matches of a pattern among facts.
use rdflib_reasoning.Base.{
  String, string_eq, string_dec, ◌≡◌, refl, sym, ◌∙◌, ap, ◌==◌, Option, none, some, List, [], ◌∷◌,
  inl, inr, Memᴰ, if◌then◌else◌, subst, arith, Option-cases, mem-collect, mem-collect_of_mem,
}
use rdflib_reasoning.Base.Dict.{
  Dict, lookup, insert, lookup-insert, lookup-nil, NodupKeys, insert-NodupKeys,
}
use rdflib_reasoning.Rdf.{Node, variable, uri_ref, b_node, literal, node_eq, node_dec, Triple}
use rdflib_reasoning.Rules.{TriplePattern}
use rdflib_reasoning.Facts.{Fact, PartialMatch}
use rdflib_reasoning.Network.Matching.{
  match_term, and_match, match_triple, alpha_matches, match_fact,
}

-- The node that a pattern term stands for under some bindings.
unfoldable pub value_of : Node → Dict String Node → Option Node
value_of (variable name) bindings = lookup name bindings
value_of term bindings = some term

-- Bindings under which a pattern stands for a triple.
unfoldable pub Instantiates : TriplePattern → Dict String Node → Triple → Type 0
unfolding value_of
Instantiates p b t =
    (value_of p.subject b ≡ some t.subject)
    × (value_of p.predicate b ≡ some t.predicate)
    × (value_of p.object b ≡ some t.object)

-- One dict answers every name that another answers in the same way.
unfoldable pub Extends : Dict String Node → Dict String Node → Type 0
Extends small large =
    (name : String) (v : Node) → lookup name small ≡ some v → lookup name large ≡ some v

pub value_of-Extends :
    (term : Node) (small large : Dict String Node) {v : Node}
    → Extends small large
    → value_of term small ≡ some v
    → value_of term large ≡ some v
unfolding value_of Extends
value_of-Extends (variable name) small large ext h = ext name _ h
value_of-Extends (uri_ref i) small large ext h = h
value_of-Extends (b_node l) small large ext h = h
value_of-Extends (literal l d t) small large ext h = h

pub match_variable :
    (x : String) (node : Node) (b : Dict String Node) {c : Dict String Node}
    → match_term (variable x) node b ≡ some c
    → (c ≡ insert x node b) × ((v : Node) → lookup x b ≡ some v → v ≡ node)
unfolding match_term
match_variable x node b {c} h = elim (Option-cases (lookup x b)) [
  | inl e ↦ (ground (arith, h, e), λ v f. ground (arith, e, f))
  | inr (w, e) ↦ elim (node_dec w node) [
    | yes same ↦ (ground (arith, h, e, same), λ v f. ground (arith, e, f, same))
    | no other ↦ absurd (ground (arith, h, e, other))
  ]
]

pub match_constant :
    (term node : Node) (b : Dict String Node) {c : Dict String Node}
    → (if term == node then some b else none) ≡ some c
    → (term ≡ node) × (c ≡ b)
match_constant term node b h = (ground (arith, h), ground (arith, h))

Extends-refl : (b : Dict String Node) → Extends b b
unfolding Extends
Extends-refl b name v h = h

unpack_Extends :
    (b d : Dict String Node)
    → Extends b d
    → (x : String) (v : Node) → lookup x b ≡ some v
    → lookup x d ≡ some v
unfolding Extends
unpack_Extends b d ext = ext

Extends-trans : (b c d : Dict String Node) → Extends b c → Extends c d → Extends b d
unfolding Extends
Extends-trans b c d f g name v h = g name v (f name v h)

constant-value_of :
    (term node : Node) (b c : Dict String Node)
    → ((d : Dict String Node) → value_of term d ≡ some term)
    → (if term == node then some b else none) ≡ some c
    → (value_of term c ≡ some node) × Extends b c
constant-value_of term node b c constant h =
    let (same, kept) = match_constant term node b h in
    (constant c ∙ ap some same, subst (λ d. Extends b d) (sym kept) (Extends-refl b))

insert-Extends :
    (x : String) (node : Node) (b : Dict String Node)
    → ((v : Node) → lookup x b ≡ some v → v ≡ node)
    → Extends b (insert x node b)
unfolding Extends
insert-Extends x node b agree name v h = elim (string_dec name x) [
  | yes same ↦
      let at_x : lookup x b ≡ some v = ap (λ k. lookup k b) (sym same) ∙ h in
      ground (arith, lookup-insert name x node b, agree v at_x, same)
  | no other ↦ ground (arith, lookup-insert name x node b, other, h)
]

insert-Extends_of :
    (x : String) (node : Node) (b d : Dict String Node)
    → Extends b d
    → lookup x d ≡ some node
    → Extends (insert x node b) d
unfolding Extends
insert-Extends_of x node b d ext there name v h = elim (string_dec name x) [
  | yes same ↦
      let at_x : lookup name d ≡ some node = ap (λ k. lookup k d) same ∙ there in
      ground (arith, lookup-insert name x node b, at_x, same, h)
  | no other ↦
      let before : lookup name b ≡ some v = ground (arith, lookup-insert name x node b, other, h) in
      ext name v before
]

match_term-value_of :
    (term node : Node) (b c : Dict String Node)
    → match_term term node b ≡ some c
    → (value_of term c ≡ some node) × Extends b c
unfolding match_term value_of
match_term-value_of (variable x) node b c h =
    let (same, agree) = match_variable x node b h in
    (
      rw (same, lookup-insert x x node b) (ground arith),
      subst (λ d. Extends b d) (sym same) (insert-Extends x node b agree),
    )
match_term-value_of (uri_ref i) node b c h = constant-value_of (uri_ref i) node b c (λ _. refl) h
match_term-value_of (b_node l) node b c h = constant-value_of (b_node l) node b c (λ _. refl) h
match_term-value_of (literal l d t) node b c h =
    constant-value_of (literal l d t) node b c (λ _. refl) h

-- Bindings under which a term stands for a node extend those that matching it finds.
match_term_complete :
    (term node : Node) (b d : Dict String Node)
    → Extends b d
    → value_of term d ≡ some node
    → (c : Dict String Node) × (match_term term node b ≡ some c) × Extends c d
unfolding match_term value_of
match_term_complete (variable x) node b d ext h = elim (Option-cases (lookup x b)) [
  | inl e ↦ (insert x node b, ground (arith, e), insert-Extends_of x node b d ext h)
  | inr (w, e) ↦
      let in_d : lookup x d ≡ some w = unpack_Extends b d ext x w e in
      let same : w ≡ node = ground (arith, in_d, h) in
      (insert x node b, ground (arith, e, same), insert-Extends_of x node b d ext h)
]
match_term_complete (uri_ref i) node b d ext h = (b, ground (arith, h), ext)
match_term_complete (b_node l) node b d ext h = (b, ground (arith, h), ext)
match_term_complete (literal l dt t) node b d ext h = (b, ground (arith, h), ext)

nil-Extends : (d : Dict String Node) → Extends [] d
unfolding Extends
nil-Extends d name v h = cc (rw (lookup-nil name) at h)

pub and_match-some :
    (o : Option (Dict String Node)) (f : Dict String Node → Option (Dict String Node))
    (c : Dict String Node)
    → and_match o f ≡ some c
    → (b : Dict String Node) × (o ≡ some b) × (f b ≡ some c)
unfolding and_match
and_match-some none f c h = cc h
and_match-some (some b) f c h = (b, refl, h)

-- A match is right: under its bindings the pattern stands for the triple.
pub match_triple-Instantiates :
    (p : TriplePattern) (t : Triple) (b : Dict String Node)
    → match_triple p t ≡ some b
    → Instantiates p b t
unfolding match_triple Instantiates
match_triple-Instantiates p t b h =
    let (b2, h12, h3) = and_match-some _ _ b h in
    let (b1, h1, h2) = and_match-some _ _ b2 h12 in
    let (s1, e1) = match_term-value_of p.subject t.subject [] b1 h1 in
    let (s2, e2) = match_term-value_of p.predicate t.predicate b1 b2 h2 in
    let (s3, e3) = match_term-value_of p.object t.object b2 b h3 in
    (
      value_of-Extends p.subject b1 b (Extends-trans b1 b2 b e2 e3) s1,
      value_of-Extends p.predicate b2 b e3 s2,
      s3,
    )

-- Whenever a pattern can stand for a triple under some bindings, it is matched, with bindings under
-- which it stands for the triple and which those bindings extend.
pub match_triple_complete :
    (p : TriplePattern) (t : Triple) (d : Dict String Node)
    → Instantiates p d t
    → (b : Dict String Node) × (match_triple p t ≡ some b) × Instantiates p b t × Extends b d
unfolding match_triple Instantiates and_match
match_triple_complete p t d (v1, v2, v3) =
    let (b1, h1, e1) = match_term_complete p.subject t.subject [] d (nil-Extends d) v1 in
    let (b2, h2, e2) = match_term_complete p.predicate t.predicate b1 d e1 v2 in
    let (b3, h3, e3) = match_term_complete p.object t.object b2 d e2 v3 in
    let found : match_triple p t ≡ some b3 = rw (h1, h2, h3) refl in
    (b3, found, match_triple-Instantiates p t b3 found, e3)

pub match_fact-some :
    (p : TriplePattern) (f : Fact) (m : PartialMatch)
    → match_fact p f ≡ some m
    → (m.facts ≡ f ∷ []) × (match_triple p f.triple ≡ some m.bindings)
unfolding match_fact
match_fact-some p f m h = elim (Option-cases (match_triple p f.triple)) [
  | inl e ↦ absurd (ground (arith, h, e))
  | inr (b, e) ↦ (ground (arith, h, e), ground (arith, h, e))
]

-- Each match of a pattern among some facts is of one of them, and the pattern stands for it.
pub mem-alpha_matches :
    (p : TriplePattern) (facts : List Fact) (m : PartialMatch)
    → Memᴰ m (alpha_matches p facts)
    → (f : Fact) × Memᴰ f facts × (m.facts ≡ f ∷ []) × Instantiates p m.bindings f.triple
unfolding alpha_matches
mem-alpha_matches p facts m there =
    let (f, in_facts, found) = mem-collect (match_fact p) facts there in
    let (same, matched) = match_fact-some p f m found in
    (f, in_facts, same, match_triple-Instantiates p f.triple m.bindings matched)

-- Every fact that the pattern stands for under some bindings has a match, with bindings that those
-- extend.
pub alpha_matches_complete :
    (p : TriplePattern) (facts : List Fact) (f : Fact) (d : Dict String Node)
    → Memᴰ f facts
    → Instantiates p d f.triple
    → (m : PartialMatch) × Memᴰ m (alpha_matches p facts)
      × (m.facts ≡ f ∷ [])
      × Extends m.bindings d
unfolding alpha_matches match_fact
alpha_matches_complete p facts f d there h =
    let (b, found, _, ext) = match_triple_complete p f.triple d h in
    let m : PartialMatch = record { facts = f ∷ []; bindings = b; depth = 0 } in
    let matched : match_fact p f ≡ some m = ground (arith, found) in
    (m, mem-collect_of_mem (match_fact p) facts there matched, refl, ext)

pub Instantiates-grow :
    (p : TriplePattern) (small large : Dict String Node) (t : Triple)
    → Extends small large
    → Instantiates p small t
    → Instantiates p large t
unfolding Instantiates
Instantiates-grow p small large t ext (s, q, o) = (
  value_of-Extends p.subject small large ext s,
  value_of-Extends p.predicate small large ext q,
  value_of-Extends p.object small large ext o,
)

match_term-NodupKeys :
    (term node : Node) (b c : Dict String Node)
    → match_term term node b ≡ some c
    → NodupKeys b
    → NodupKeys c
unfolding match_term
match_term-NodupKeys (variable x) node b c h u =
    subst (λ d. NodupKeys d) (sym (match_variable x node b h).0) (insert-NodupKeys x node b u)
match_term-NodupKeys (uri_ref i) node b c h u =
    subst (λ d. NodupKeys d) (sym (match_constant (uri_ref i) node b h).1) u
match_term-NodupKeys (b_node l) node b c h u =
    subst (λ d. NodupKeys d) (sym (match_constant (b_node l) node b h).1) u
match_term-NodupKeys (literal l d t) node b c h u =
    subst (λ e. NodupKeys e) (sym (match_constant (literal l d t) node b h).1) u

pub match_triple-NodupKeys :
    (p : TriplePattern) (t : Triple) (b : Dict String Node)
    → match_triple p t ≡ some b
    → NodupKeys b
unfolding match_triple
match_triple-NodupKeys p t b h =
    let (b2, h12, h3) = and_match-some _ _ b h in
    let (b1, h1, h2) = and_match-some _ _ b2 h12 in
    match_term-NodupKeys p.object t.object b2 b h3 (
      match_term-NodupKeys p.predicate t.predicate b1 b2 h2
        (match_term-NodupKeys p.subject t.subject [] b1 h1 tt))

pub alpha_matches-NodupKeys :
    (p : TriplePattern) (facts : List Fact) (m : PartialMatch)
    → Memᴰ m (alpha_matches p facts)
    → NodupKeys m.bindings
unfolding alpha_matches
alpha_matches-NodupKeys p facts m there =
    let (f, in_facts, found) = mem-collect (match_fact p) facts there in
    match_triple-NodupKeys p f.triple m.bindings (match_fact-some p f m found).1
