-- ===== src/Errors.antt =====
-- Exceptions as values: those of Python that the code raises or lets through, and the classes of
-- rdflib-reasoning-engine/src/rdflib_reasoning/engine/rete_errors.py and errors.py.
use rdflib_reasoning.Base.{
  ◌≡◌, refl, Bool, true, false, Option, none, some, List, [], ◌∷◌, if◌then◌else◌,
}

pub data Exception : Type 0 where
  key_error value_error index_error builtin_input_error : Exception
  literal_as_subject_error blank_node_predicate_error literal_predicate_error : Exception
  fatal_rule_error : Exception
  contradiction_detected_error : Exception

-- Running out of fuel is no exception of the program and has no case here.
pub data Result {ℓ} (A : Type ℓ) : Type ℓ where
  ok : A → Result A
  raise : Exception → Result A

-- An exception ends the chain.
infixl 5 ◌>>=◌ ◌>>◌
abbrev pub ◌>>=◌ {ℓ κ} : {A : Type ℓ} {B : Type κ} → Result A → (A → Result B) → Result B
◌>>=◌ r next = elim r [ ok value ↦ next value | raise exception ↦ raise exception ]

abbrev pub ◌>>◌ {ℓ κ} : {A : Type ℓ} {B : Type κ} → Result A → Result B → Result B
◌>>◌ r next = elim r [ ok value ↦ next | raise exception ↦ raise exception ]

abbrev pub is_ok {ℓ} : {A : Type ℓ} → Result A → Bool
is_ok (ok a) = true
is_ok (raise e) = false

-- A result that is right where there is one.
abbrev pub Ensures : {A : Type 0} → (A → Type 0) → Result A → Type 0
Ensures P (ok a) = P a
Ensures P (raise e) = Unit

pub Ensures-any : {A : Type 0} (r : Result A) → Ensures (λ _. Unit) r
Ensures-any (ok a) = tt
Ensures-any (raise e) = tt

pub Ensures-always : {A : Type 0} (P : A → Type 0) (r : Result A) → ((a : A) → P a) → Ensures P r
Ensures-always P (ok a) f = f a
Ensures-always P (raise e) f = tt

pub Ensures-weaken :
    {A : Type 0} (P Q : A → Type 0) (r : Result A)
    → ((a : A) → P a → Q a)
    → Ensures P r
    → Ensures Q r
Ensures-weaken P Q (ok a) f h = f a h
Ensures-weaken P Q (raise e) f h = tt

pub Ensures-and :
    {A : Type 0} (P Q : A → Type 0) (r : Result A)
    → Ensures P r
    → Ensures Q r
    → Ensures (λ a. P a × Q a) r
Ensures-and P Q (ok a) h k = (h, k)
Ensures-and P Q (raise e) h k = tt

module _ {A B : Type 0} where
  -- What the first part ensures, the second may use.
  pub Ensures->>= :
      (Q : A → Type 0) (P : B → Type 0) (r : Result A) (f : A → Result B)
      → Ensures Q r
      → ((a : A) → Q a → Ensures P (f a))
      → Ensures P (r >>= f)
  Ensures->>= Q P (ok a) f h k = k a h
  Ensures->>= Q P (raise e) f h k = tt

-- A result that branches.
pub Ensures-if :
    {A : Type 0} (P : A → Type 0) (c : Bool) (x y : Result A)
    → (c ≡ true → Ensures P x)
    → (c ≡ false → Ensures P y)
    → Ensures P (if c then x else y)
Ensures-if P true x y h k = h refl
Ensures-if P false x y h k = k refl

pub Ensures-option :
    {A B : Type 0} (P : B → Type 0) (o : Option A) (a : Result B) (f : A → Result B)
    → Ensures P a
    → ((x : A) → o ≡ some x → Ensures P (f x))
    → Ensures P (elim o as (λ _. Result B) [ none ↦ a | some x ↦ f x ])
Ensures-option P none a f h k = h
Ensures-option P (some x) a f h k = k x refl

pub Ensures-stated :
    {B : Type 0} (P : B → Type 0) (stated : Bool) (a b : Result B)
    → Ensures P a
    → Ensures P b
    → Ensures P (elim stated as (λ _. Result B) [ false ↦ a | true ↦ b ])
Ensures-stated P false a b h k = h
Ensures-stated P true a b h k = k

pub Ensures-list :
    {A B : Type 0} (P : B → Type 0) (xs : List A) (a b : Result B)
    → Ensures P a
    → Ensures P b
    → Ensures P (elim xs as (λ _. Result B) [ [] ↦ a | _ ∷ _ ↦ b ])
Ensures-list P [] a b h k = h
Ensures-list P (x ∷ xs) a b h k = k
